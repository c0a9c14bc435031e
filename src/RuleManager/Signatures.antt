-- ===== src/RuleManager/Signatures.antt =====
-- Which signatures a rule file holds, and that a rule's content is read back.
use nethex.Base.{
  ℕ, ◌+◌, ◌-◌, ◌≡◌, refl, inl, inr, List, [], ◌∷◌, ◌++◌, Option, none, some, arith, drop, All,
  All-snoc, All-take, All-drop, ◌==◌, Bool-cases, Option-cases,
}
use nethex.Wire.Order.{IsByte}
use nethex.PatternMatcher.{Trie}
use nethex.PatternMatcher.Adding.{add_patterns}
use nethex.PatternMatcher.Search.{IsNonempty}
use nethex.RuleManager.{
  split_lines, find, substr, content_keyword, is_skipped, quoted, line_signature, load_lines,
  load_rules,
}

-- The signatures of some lines, in order.
abbrev pub signatures : List (List ℕ) → List (List ℕ)
signatures [] = []
signatures (line ∷ lines) = elim (line_signature line) [
  | none ↦ signatures lines
  | some signature ↦ signature ∷ signatures lines
]

abbrev pub file_signatures : Option (List ℕ) → List (List ℕ)
file_signatures none = []
file_signatures (some file) = signatures (split_lines [] file)

load_lines-signatures :
    (lines : List (List ℕ)) (t : Trie) → load_lines lines t ≡ add_patterns t (signatures lines)
unfolding load_lines
load_lines-signatures [] t = refl
load_lines-signatures (line ∷ lines) t = elim (Option-cases (line_signature line)) [
  | inl e ↦ rw (e, load_lines, signatures) (load_lines-signatures lines t)
  | inr (s, e) ↦ rw (e, load_lines, signatures) (load_lines-signatures lines _)
]

pub load_rules-signatures :
    (file : Option (List ℕ)) (t : Trie)
    → (load_rules file t).1 ≡ add_patterns t (file_signatures file)
unfolding load_rules
load_rules-signatures none t = refl
load_rules-signatures (some file) t = load_lines-signatures (split_lines [] file) t

abbrev Sound : Option (List ℕ) → Type 0
Sound none = Unit
Sound (some s) = All IsByte s × IsNonempty s

quoted-Sound : (line : List ℕ) (start : ℕ) → All IsByte line → Sound (quoted line start)
unfolding quoted
quoted-Sound line start bytes = elim (Option-cases (find line (0x22 ∷ []) start)) [
  | inl e ↦ rw (e, Sound) tt
  | inr (end, e) ↦
      rw (e, Sound)
        (unless_empty (substr line start (end - start))
          (All-take IsByte (end - start) (drop start line) (All-drop IsByte start line bytes)))
]
  where
    unless_empty :
        (s : List ℕ)
        → All IsByte s
        → Sound (elim s as (λ (x : List ℕ). Option (List ℕ)) [
          | [] ↦ none
          | c ∷ signature ↦ some (c ∷ signature)
        ])
    unless_empty [] b = tt
    unless_empty (c ∷ s) b = (b, omega arith)

line_signature-Sound : (line : List ℕ) → All IsByte line → Sound (line_signature line)
unfolding line_signature
line_signature-Sound line bytes = elim (Bool-cases (is_skipped line)) [
  | inl skip ↦ rw (skip, Sound) tt
  | inr kept ↦ elim (Option-cases (find line content_keyword 0)) [
    | inl e ↦ rw (kept, e, Sound) tt
    | inr (start, e) ↦ rw (kept, e, Sound) (quoted-Sound line (start + 9) bytes)
  ]
]

split_lines-bytes :
    (line file : List ℕ)
    → All IsByte line
    → All IsByte file
    → All (All IsByte) (split_lines line file)
split_lines-bytes [] [] b b' = tt
split_lines-bytes (c ∷ line) [] b b' = (b, tt)
split_lines-bytes [] (c ∷ file) b b' = elim (Bool-cases (c == 0x0A)) [
  | inl e ↦ rw (e, split_lines) (b, split_lines-bytes [] file tt b'.1)
  | inr e ↦ rw (e, split_lines) (split_lines-bytes (c ∷ []) file (b'.0, tt) b'.1)
]
split_lines-bytes (d ∷ line) (c ∷ file) b b' = elim (Bool-cases (c == 0x0A)) [
  | inl e ↦ rw (e, split_lines) (b, split_lines-bytes [] file tt b'.1)
  | inr e ↦
      rw (e, split_lines)
        (split_lines-bytes (d ∷ line ++ (c ∷ [])) file (All-snoc IsByte (d ∷ line) c b b'.0) b'.1)
]

signatures_sound :
    (lines : List (List ℕ))
    → All (All IsByte) lines
    → All (All IsByte) (signatures lines) × All IsNonempty (signatures lines)
signatures_sound [] b = (tt, tt)
signatures_sound (line ∷ lines) b =
    let (bytes, nonempty) = signatures_sound lines b.1 in
    elim (Option-cases (line_signature line)) [
      | inl e ↦ rw (e, signatures) (bytes, nonempty)
      | inr (s, e) ↦
          let (here, long) = rw (e, Sound) at (line_signature-Sound line b.0) in
          rw (e, signatures) ((here, bytes), (long, nonempty))
    ]

abbrev pub IsFile : Option (List ℕ) → Type 0
IsFile none = Unit
IsFile (some file) = All IsByte file

-- No signature that a file gives is empty.
pub file_signatures_sound :
    (file : Option (List ℕ))
    → IsFile file
    → All (All IsByte) (file_signatures file) × All IsNonempty (file_signatures file)
file_signatures_sound none b = (tt, tt)
file_signatures_sound (some file) b =
    signatures_sound (split_lines [] file) (split_lines-bytes [] file tt b)
