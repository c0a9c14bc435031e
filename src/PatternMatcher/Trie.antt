-- ===== src/PatternMatcher/Trie.antt =====
-- The trie: which texts its nodes spell.
use nethex.Base.{
  ℕ, ◌≤◌, ◌<◌, ◌≡◌, refl, ◌∙◌, inl, inr, List, [], ◌∷◌, ◌++◌, Option, none, some, arith, length,
  Option-cases,
}
use nethex.PatternMatcher.{Trie, node, child}
use nethex.PatternMatcher.Words.{equal_to}

-- From a node along the children.
abbrev pub walk : Trie → ℕ → List ℕ → Option ℕ
walk t n [] = some n
walk t n (c ∷ s) = elim (child t n c) [ some m ↦ walk t m s | none ↦ none ]

pub walk-snoc :
    (t : Trie) (n : ℕ) (s : List ℕ) (b m : ℕ)
    → walk t n s ≡ some m
    → walk t n (s ++ (b ∷ [])) ≡ child t m b
walk-snoc t n [] b m h = ground arith
walk-snoc t n (c ∷ s) b m h = elim (Option-cases (child t n c)) [
  | inl e ↦ absurd (ground arith)
  | inr (k, e) ↦ rw (e, walk) (walk-snoc t k s b m (rw (e, walk) at h))
]

-- A text that leads to a node has beginnings that do.
pub walk_back :
    (t : Trie) (n : ℕ) (s : List ℕ) (b m : ℕ)
    → walk t n (s ++ (b ∷ [])) ≡ some m
    → (k : ℕ) × (walk t n s ≡ some k) × (child t k b ≡ some m)
walk_back t n [] b m h = (n, refl, ground arith)
walk_back t n (c ∷ s) b m h = elim (Option-cases (child t n c)) [
  | inl e ↦ absurd (ground arith)
  | inr (k, e) ↦
      let (j, here, on) = walk_back t k s b m (rw (e, walk) at h) in (j, rw (e, walk) here, on)
]

-- Every node spells one text, and is reached by no other. `word` says which.
pub record IsTrie (patterns : List (List ℕ)) (t : Trie) (word : ℕ → List ℕ) : Type 0 where
  pub root : 0 < length t
  pub spelled : (n : ℕ) → n < length t → walk t 0 (word n) ≡ some n
  pub unique : (s : List ℕ) (n : ℕ) → walk t 0 s ≡ some n → (n < length t) × (word n ≡ s)
  pub bytes : (n b m : ℕ) → child t n b ≡ some m → b < 0x100
  pub short : (n : ℕ) → n < length t → length (word n) ≤ n
  -- A node holds the patterns that it spells, and no pattern is spelled by no node.
  pub own : (n : ℕ) → n < length t → (node t n).matched_patterns ≡ equal_to (word n) patterns
  pub listed : (s : List ℕ) → walk t 0 s ≡ none → equal_to s patterns ≡ []

pub child-word :
    {patterns : List (List ℕ)} {t : Trie} {word : ℕ → List ℕ}
    → IsTrie patterns t word
    → (n b m : ℕ) → n < length t
    → child t n b ≡ some m
    → (m < length t) × (word m ≡ word n ++ (b ∷ []))
child-word {t} {word} v n b m h e =
    v.unique (word n ++ (b ∷ [])) m (walk-snoc t 0 (word n) b n (v.spelled n h) ∙ e)
