-- ===== src/PatternMatcher/Grown.antt =====
-- A trie with a new leaf spells one text more, so adding a pattern makes the trie spell it.
use nethex.Base.{
  ℕ, suc, ◌≤◌, ◌<◌, ◌≡◌, refl, sym, ap, ap₂, ◌∙◌, inl, inr, ◌⊎◌, ◌&&◌, List, [], ◌∷◌, ◌++◌,
  append_assoc, append-nil, none, some, arith, length, length-append, length-set, set, All, ◌==◌,
  if◌then◌else◌, Bool-cases, Option-cases, none_not_some,
}
use nethex.Base.Counts.{get_or-set, get_or-default, get_or_out}
use nethex.Wire.Order.{IsByte}
use nethex.PatternMatcher.{TrieNode, Trie, unlinked, node, child, with_child, descend}
use nethex.PatternMatcher.Words.{equal_to}
use nethex.PatternMatcher.Trie.{walk, walk-snoc, IsTrie, child-word}

-- A new leaf under `cur`.
module _ (t : Trie) (cur c : ℕ) (here : cur < length t) (free : child t cur c ≡ none) where
  abbrev grown : Trie
  grown = set t cur (with_child (node t cur) c (length t)) ++ (unlinked ∷ [])

  length-grown : length grown ≡ suc (length t)
  length-grown = omega (
    arith,
    length-append (set t cur (with_child (node t cur) c (length t))) (unlinked ∷ []),
    length-set t cur (with_child (node t cur) c (length t)),
  )

  node-grown :
      (k : ℕ) → node grown k ≡ (if cur == k then with_child (node t cur) c (length t) else node t k)
  node-grown k =
      get_or-default (set t cur (with_child (node t cur) c (length t))) unlinked k
      ∙ get_or-set t cur k (with_child (node t cur) c (length t)) unlinked here

  child-grown :
      (k j : ℕ) → child grown k j ≡ (if cur == k && j == c then some (length t) else child t k j)
  child-grown k j =
      ap (λ (n : TrieNode). n.children j) (node-grown k)
      ∙ ground (arith, ap (child t) {x = k} {y = cur})

  matched-grown : (k : ℕ) → (node grown k).matched_patterns ≡ (node t k).matched_patterns
  matched-grown k =
      ap (λ (n : TrieNode). n.matched_patterns) (node-grown k)
      ∙ ground (arith, ap (node t) {x = k} {y = cur})

  walk-grown : (k n : ℕ) (s : List ℕ) → walk t k s ≡ some n → walk grown k s ≡ some n
  walk-grown k n [] h = h
  walk-grown k n (j ∷ s) h = elim (Option-cases (child t k j)) [
    | inl e ↦ absurd (ground arith)
    | inr (m, e) ↦
        let same : child grown k j ≡ some m =
          child-grown k j
          ∙ ground (arith, free, e, ap₂ (child t) {x = k} {y = cur} {u = j} {v = c}) in
        rw (same, walk) (walk-grown m n s (rw (e, walk) at h))
  ]

  -- The new leaf has no children.
  leaf_only : (n : ℕ) (s : List ℕ) → walk grown (length t) s ≡ some n → (n ≡ length t) × (s ≡ [])
  leaf_only n [] h = (ground arith, refl)
  leaf_only n (j ∷ s) h =
      let none_there : child t (length t) j ≡ none =
        ap (λ (x : TrieNode). x.children j) (get_or_out t (length t) unlinked (omega arith)) in
      let none_grown : child grown (length t) j ≡ none = child-grown (length t) j ∙ ground arith in
      absurd (none_not_some refl (rw (none_grown, walk) at h))

  -- Its text is the only one that leads to a node now, and did not before.
  walk-grown-cases :
      (k n : ℕ) (s : List ℕ)
      → walk grown k s ≡ some n
      → (walk t k s ≡ some n)
        ⊎ ((before : List ℕ) × (n ≡ length t)
            × (s ≡ before ++ (c ∷ []))
            × (walk t k before ≡ some cur))
  walk-grown-cases k n [] h = inl h
  walk-grown-cases k n (j ∷ s) h = elim (Bool-cases (cur == k && j == c)) [
    | inl new ↦
        let to_leaf : child grown k j ≡ some (length t) = child-grown k j ∙ rw new refl in
        let (at_leaf, no_more) = leaf_only n s (rw (to_leaf, walk) at h) in
        inr ([], at_leaf, ground arith, ground arith)
    | inr old ↦
        let same : child grown k j ≡ child t k j = child-grown k j ∙ rw old refl in
        elim (Option-cases (child t k j)) [
          | inl e ↦ absurd (none_not_some refl (rw (same ∙ e, walk) at h))
          | inr (m, e) ↦ elim (walk-grown-cases m n s (rw (same ∙ e, walk) at h)) [
            | inl w ↦ inl (rw (e, walk) w)
            | inr (before, at_leaf, split, to_cur) ↦
                inr (j ∷ before, at_leaf, ap (λ (x : List ℕ). j ∷ x) split, rw (e, walk) to_cur)
          ]
        ]
  ]

-- The words of the nodes, with one for a new node.
abbrev word_with : (ℕ → List ℕ) → ℕ → List ℕ → ℕ → List ℕ
word_with word fresh text n = if n == fresh then text else word n

module _ {patterns : List (List ℕ)} {t : Trie} {word : ℕ → List ℕ} (v : IsTrie patterns t word)
    (cur c : ℕ) (here : cur < length t) (free : child t cur c ≡ none) (byte : IsByte c) where
  abbrev word' : ℕ → List ℕ
  word' = word_with word (length t) (word cur ++ (c ∷ []))

  free_text : walk t 0 (word cur ++ (c ∷ [])) ≡ none
  free_text = walk-snoc t 0 (word cur) c cur (v.spelled cur here) ∙ free

  leaf : walk (grown t cur c here free) 0 (word cur ++ (c ∷ [])) ≡ some (length t)
  leaf =
      walk-snoc (grown t cur c here free) 0 (word cur) c cur
        (walk-grown t cur c here free 0 cur (word cur) (v.spelled cur here))
      ∙ child-grown t cur c here free cur c
      ∙ ground arith

  spelled' : (n : ℕ) → n < suc (length t) → walk (grown t cur c here free) 0 (word' n) ≡ some n
  spelled' n h = elim (Bool-cases (n == length t)) [
    | inl e ↦ rw e (leaf ∙ ground arith)
    | inr e ↦ rw e (walk-grown t cur c here free 0 n (word n) (v.spelled n (ground arith)))
  ]

  unique' :
      (s : List ℕ) (n : ℕ)
      → walk (grown t cur c here free) 0 s ≡ some n
      → (n < suc (length t)) × (word' n ≡ s)
  unique' s n h = elim (walk-grown-cases t cur c here free 0 n s h) [
    | inl w ↦ let (inside, e) = v.unique s n w in (omega arith, ground arith)
    | inr (before, at_leaf, split, to_cur) ↦
        let (_, e) = v.unique before cur to_cur in
        (omega arith, ground (arith, ap (λ (x : List ℕ). x ++ (c ∷ [])) e))
  ]

  bytes' : (n b m : ℕ) → child (grown t cur c here free) n b ≡ some m → b < 0x100
  bytes' n b m h = elim (Bool-cases (cur == n && b == c)) [
    | inl new ↦ ground (arith, byte)
    | inr old ↦ v.bytes n b m (sym (child-grown t cur c here free n b ∙ rw old refl) ∙ h)
  ]

  short' : (n : ℕ) → n < suc (length t) → length (word' n) ≤ n
  short' n h = elim (Bool-cases (n == length t)) [
    | inl e ↦ rw e (ground (arith, v.short cur here, length-append (word cur) (c ∷ [])))
    | inr e ↦ rw e (v.short n (ground arith))
  ]

  own' :
      (n : ℕ)
      → n < suc (length t)
      → (node (grown t cur c here free) n).matched_patterns ≡ equal_to (word' n) patterns
  own' n h = elim (Bool-cases (n == length t)) [
    | inl e ↦
        let new : node t n ≡ unlinked = get_or_out t n unlinked (ground arith) in
        matched-grown t cur c here free n
        ∙ rw (new, e) (sym (v.listed (word cur ++ (c ∷ [])) free_text))
    | inr e ↦ matched-grown t cur c here free n ∙ rw e (v.own n (ground arith))
  ]

  IsTrie-grown : IsTrie patterns (grown t cur c here free) word'
  IsTrie-grown = record {
    root = omega (arith, length-grown t cur c here free);
    spelled = λ n h. spelled' n (omega (arith, length-grown t cur c here free));
    unique = λ s n h.
        let (inside, e) = unique' s n h in (omega (arith, length-grown t cur c here free), e);
    bytes = bytes';
    short = λ n h. short' n (omega (arith, length-grown t cur c here free));
    own = λ n h. own' n (omega (arith, length-grown t cur c here free));
    listed = λ s h. v.listed s (elim (Option-cases (walk t 0 s)) [
      | inl e ↦ e
      | inr (n, e) ↦ absurd (none_not_some h (walk-grown t cur c here free 0 n s e))
    ]);
  }

-- `descend` ends at a node that spells what it was given, behind the text of where it began.
pub descend-IsTrie :
    {patterns : List (List ℕ)} (t : Trie) (word : ℕ → List ℕ) (cur : ℕ) (s : List ℕ)
    → IsTrie patterns t word
    → cur < length t
    → All IsByte s
    → let (t', end) = descend t cur s in
      (word' : ℕ → List ℕ) × IsTrie patterns t' word'
      × (end < length t')
      × (word' end ≡ word cur ++ s)
unfolding descend
descend-IsTrie t word cur [] v here bytes = (word, v, here, sym (append-nil (word cur)))
descend-IsTrie t word cur (c ∷ s) v here bytes = elim (Option-cases (child t cur c)) [
  | inl free ↦
      let w' : ℕ → List ℕ = word_with word (length t) (word cur ++ (c ∷ [])) in
      let (word', v', inside, e) =
        descend-IsTrie (grown t cur c here free) w' (length t) s
          (IsTrie-grown v cur c here free bytes.0) (omega (arith, length-grown t cur c here free))
          bytes.1 in
      let at_leaf : w' (length t) ≡ word cur ++ (c ∷ []) = ground arith in
      rw (free, descend)
        (
          word',
          v',
          inside,
          e ∙ ap (λ (x : List ℕ). x ++ s) at_leaf ∙ append_assoc (word cur) (c ∷ []) s,
        )
  | inr (next, there) ↦
      let (inside, spelt) = child-word v cur c next here there in
      let (word', v', last, e) = descend-IsTrie t word next s v inside bytes.1 in
      rw (there, descend)
        (
          word',
          v',
          last,
          e ∙ ap (λ (x : List ℕ). x ++ s) spelt ∙ append_assoc (word cur) (c ∷ []) s,
        )
]
