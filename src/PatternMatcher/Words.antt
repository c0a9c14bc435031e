-- ===== src/PatternMatcher/Words.antt =====
-- What the scanner is to find, without its machine: the patterns that end a text.
use nethex.Base.{
  ℕ, ◌≤◌, ◌≡◌, refl, ap, ◌↔◌, Bool, true, false, ◌&&◌, List, [], ◌∷◌, ◌++◌, arith, length,
  length-append, ◌==◌, if◌then◌else◌,
}

abbrev pub same_bytes : List ℕ → List ℕ → Bool
same_bytes [] [] = true
same_bytes [] (b ∷ t) = false
same_bytes (a ∷ s) [] = false
same_bytes (a ∷ s) (b ∷ t) = a == b && same_bytes s t

-- The patterns that are the text, in the order in which they were added.
abbrev pub equal_to : List ℕ → List (List ℕ) → List (List ℕ)
equal_to text [] = []
equal_to text (p ∷ patterns) =
    let rest = equal_to text patterns in if same_bytes text p then p ∷ rest else rest

-- Those that the text ends with, the longest first.
abbrev pub ending : List ℕ → List (List ℕ) → List (List ℕ)
ending [] patterns = []
ending (c ∷ text) patterns = equal_to (c ∷ text) patterns ++ ending text patterns

-- Those that end at each byte of `text`, after `before` has been read.
abbrev pub occurrences : List (List ℕ) → List ℕ → List ℕ → List (List ℕ)
occurrences patterns before [] = []
occurrences patterns before (b ∷ text) =
    ending (before ++ (b ∷ [])) patterns ++ occurrences patterns (before ++ (b ∷ [])) text

abbrev pub tail : List ℕ → List ℕ
tail [] = []
tail (c ∷ s) = s

pub snoc-injective : (s t : List ℕ) (a b : ℕ) → s ++ (a ∷ []) ≡ t ++ (b ∷ []) → (s ≡ t) × (a ≡ b)
snoc-injective [] [] a b e = ground arith
snoc-injective [] (d ∷ t) a b e = absurd (omega (arith, ap length e, length-append t (b ∷ [])))
snoc-injective (c ∷ s) [] a b e = absurd (omega (arith, ap length e, length-append s (a ∷ [])))
snoc-injective (c ∷ s) (d ∷ t) a b e = ground (arith, snoc-injective s t a b)

pub same_bytes_iff : (s t : List ℕ) → (same_bytes s t ≡ true) ↔ (s ≡ t)
same_bytes_iff [] [] = ground arith
same_bytes_iff [] (b ∷ t) = ground arith
same_bytes_iff (a ∷ s) [] = ground arith
same_bytes_iff (a ∷ s) (b ∷ t) = ground (arith, same_bytes_iff s t)

-- The longest end of a text that is known, where what is known has all its beginnings.
module _ (known : List ℕ → Bool) where
  abbrev pub longest : List ℕ → List ℕ
  longest [] = []
  longest (c ∷ s) = let rest = longest s in if known (c ∷ s) then c ∷ s else rest

  pub longest-length : (s : List ℕ) → length (longest s) ≤ length s
  longest-length [] = omega arith
  longest-length (c ∷ s) = ground (arith, longest-length s)

  pub longest-known : (s : List ℕ) → known s ≡ true → longest s ≡ s
  longest-known [] h = refl
  longest-known (c ∷ s) h = rw h refl

  -- To read one more byte, the longest known end is enough.
  pub longest-snoc :
      ((s : List ℕ) (b : ℕ) → known (s ++ (b ∷ [])) ≡ true → known s ≡ true)
      → (s : List ℕ) (b : ℕ) → longest (s ++ (b ∷ [])) ≡ longest (longest s ++ (b ∷ []))
  longest-snoc closed [] b = refl
  longest-snoc closed (c ∷ s) b = ground (arith, longest-snoc closed s b, closed (c ∷ s) b)

  -- Only what is known can be a pattern, so the longest known end has all of them.
  pub ending-longest :
      (patterns : List (List ℕ))
      → ((s : List ℕ) → known s ≡ false → equal_to s patterns ≡ [])
      → (s : List ℕ) → ending (longest s) patterns ≡ ending s patterns
  ending-longest patterns none_else [] = refl
  ending-longest patterns none_else (c ∷ s) =
      ground (arith, ending-longest patterns none_else s, none_else (c ∷ s))
