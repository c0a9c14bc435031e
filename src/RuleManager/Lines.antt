-- ===== src/RuleManager/Lines.antt =====
-- A rule as it is written, and the signature that is read from it.
use nethex.Base.{
  ℕ, suc, ◌+◌, ◌-◌, ◌≡◌, ◌≢◌, refl, sym, ap, ap₂, ◌∙◌, true, false, List, [], ◌∷◌, ◌++◌,
  append_assoc, some, arith, length, length-append, take, drop, All,
}
use nethex.PatternMatcher.Search.{IsNonempty}
use nethex.RuleManager.{
  begins_with, find_at, find, substr, content_keyword, is_skipped, quoted, line_signature,
}

-- The needle does not stand at any place of the text before `rest`.
abbrev pub NotIn : List ℕ → List ℕ → List ℕ → Type 0
NotIn needle [] rest = Unit
NotIn needle (c ∷ text) rest =
    (begins_with needle (c ∷ (text ++ rest)) ≡ false) × NotIn needle text rest

begins_with-append : (needle rest : List ℕ) → begins_with needle (needle ++ rest) ≡ true
begins_with-append [] rest = refl
begins_with-append (c ∷ needle) rest = ground (arith, begins_with-append needle rest)

find_at-first :
    (needle text rest : List ℕ) (at : ℕ)
    → NotIn needle text (needle ++ rest)
    → find_at needle (text ++ (needle ++ rest)) at ≡ some (at + length text)
find_at-first [] [] [] at h = ground arith
find_at-first [] [] (c ∷ rest) at h = ground arith
find_at-first (c ∷ needle) [] rest at h =
    rw (find_at, begins_with-append (c ∷ needle) rest) (ground arith)
find_at-first needle (c ∷ text) rest at h =
    rw (find_at, h.0) (find_at-first needle text rest (suc at) h.1 ∙ ground arith)

drop-append : (xs ys : List ℕ) → drop (length xs) (xs ++ ys) ≡ ys
drop-append [] ys = refl
drop-append (x ∷ xs) ys = drop-append xs ys

take-append : (xs ys : List ℕ) → take (length xs) (xs ++ ys) ≡ xs
take-append [] ys = refl
take-append (x ∷ xs) ys = ap (λ (l : List ℕ). x ∷ l) (take-append xs ys)

no_quote : (s rest : List ℕ) → All (λ c. c ≢ 0x22) s → NotIn (0x22 ∷ []) s rest
no_quote [] rest h = tt
no_quote (c ∷ s) rest h = (ground (arith, h.0), no_quote s rest h.1)

quoted-signature :
    (before s after : List ℕ)
    → IsNonempty s
    → All (λ c. c ≢ 0x22) s
    → quoted (before ++ (s ++ (0x22 ∷ after))) (length before) ≡ some s
unfolding quoted
quoted-signature before [] after long clean = absurd (omega arith)
quoted-signature before (c ∷ s) after long clean =
    let text : List ℕ = c ∷ s in
    let behind = drop-append before (text ++ (0x22 ∷ after)) in
    let closing : find (before ++ (text ++ (0x22 ∷ after))) (0x22 ∷ []) (length before)
        ≡ some (length before + length text) =
      ap (λ (x : List ℕ). find_at (0x22 ∷ []) x (length before)) behind
      ∙ find_at-first (0x22 ∷ []) text after (length before) (no_quote text (0x22 ∷ after) clean) in
    let count : length before + length text - length before ≡ length text = omega arith in
    let cut : substr (before ++ (text ++ (0x22 ∷ after))) (length before)
          (length before + length text - length before)
        ≡ text =
      ap₂ take count behind ∙ take-append text (0x22 ∷ after) in
    rw (quoted, closing, cut) refl

-- A rule: what stands before the keyword, the keyword, the signature in quotes, and the rest.
abbrev pub rule_line : List ℕ → List ℕ → List ℕ → List ℕ
rule_line before signature after = before ++ (content_keyword ++ (signature ++ (0x22 ∷ after)))

-- A line that is no comment, with the keyword for the first time behind `before`, gives exactly the
-- signature between the quotes that follow, if that is not empty and holds no quote.
pub line_signature-rule_line :
    (before signature after : List ℕ)
    → is_skipped (rule_line before signature after) ≡ false
    → NotIn content_keyword before (content_keyword ++ (signature ++ (0x22 ∷ after)))
    → IsNonempty signature
    → All (λ c. c ≢ 0x22) signature
    → line_signature (rule_line before signature after) ≡ some signature
unfolding line_signature
line_signature-rule_line before signature after kept first long clean =
    let found : find (rule_line before signature after) content_keyword 0 ≡ some (length before) =
      find_at-first content_keyword before (signature ++ (0x22 ∷ after)) 0 first ∙ ground arith in
    let place : length before + length content_keyword ≡ length (before ++ content_keyword) =
      sym (length-append before content_keyword) in
    let split = append_assoc before content_keyword (signature ++ (0x22 ∷ after)) in
    rw (line_signature, kept, found)
      (ap₂ quoted (sym split) place
        ∙ quoted-signature (before ++ content_keyword) signature after long clean)
