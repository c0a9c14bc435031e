-- ===== src/RuleManager/Examples.antt =====
-- A file with a comment, a rule, a rule with an empty content, and a rule with no newline behind it.
use nethex.Base.{ℕ, ◌≡◌, refl, List, [], ◌∷◌, ◌++◌, some, arith}
use nethex.RuleManager.{quoted, line_signature}
use nethex.RuleManager.Signatures.{file_signatures}
use nethex.RuleManager.Lines.{rule_line, line_signature-rule_line}

-- alert (
abbrev opening : List ℕ
opening = 0x61 ∷ 0x6C ∷ 0x28 ∷ []

-- evil
abbrev evil : List ℕ
evil = 0x65 ∷ 0x76 ∷ 0x69 ∷ 0x6C ∷ []

abbrev closing : List ℕ
closing = 0x3B ∷ 0x29 ∷ []

abbrev rules : List ℕ
rules =
    0x23
    ∷ (rule_line opening evil closing
        ++ (0x0A
            ∷ (rule_line opening evil closing
                ++ (0x0A ∷ (rule_line opening [] closing ++ (0x0A ∷ rule_line [] closing []))))))

read_file : file_signatures (some rules) ≡ evil ∷ closing ∷ []
unfolding line_signature quoted
read_file = refl

line_signature-rule_line_example : line_signature (rule_line opening evil closing) ≡ some evil
line_signature-rule_line_example =
    line_signature-rule_line opening evil closing refl (refl, (refl, (refl, tt))) (omega arith)
      (omega arith)
