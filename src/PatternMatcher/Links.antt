-- ===== src/PatternMatcher/Links.antt =====
-- What fail links mean, and that following them finds the next state of the machine.
use nethex.Base.{
  ℕ, zero, suc, ◌≤◌, ◌<◌, ◌≡◌, ◌≢◌, refl, sym, ap, ◌∙◌, inl, inr, Bool, true, false, ◌&&◌, List, [],
  ◌∷◌, ◌++◌, Option, none, some, arith, length, ltb, ◌==◌, ==_iff, if◌then◌else◌, Bool-cases,
  Option-cases, List-cases, accept,
}
use nethex.PatternMatcher.{Trie, node, child, fail_node, follow}
use nethex.PatternMatcher.Words.{tail, longest, longest-length, longest-known, longest-snoc}
use nethex.PatternMatcher.Trie.{walk, walk-snoc, walk_back, IsTrie}

abbrev pub is_some : Option ℕ → Bool
is_some none = false
is_some (some n) = true

-- A node of the trie spells the text.
abbrev pub known : Trie → List ℕ → Bool
known t s = is_some (walk t 0 s)

-- The node of the longest end of the text that the trie spells: the machine's state after it.
abbrev pub StateOf : Trie → List ℕ → ℕ → Type 0
StateOf t s n = walk t 0 (longest (known t) s) ≡ some n

-- The children once the root's are filled in for the bytes below `r`.
abbrev pub patched : Trie → ℕ → ℕ → ℕ → Option ℕ
patched t r k j = elim (child t k j) [
  | some c ↦ some c
  | none ↦ if k == 0 && ltb j r then some 0 else none
]

module _ {patterns : List (List ℕ)} {t : Trie} {word : ℕ → List ℕ}
    (v : IsTrie patterns t word) where
  pub known-closed : (s : List ℕ) (b : ℕ) → known t (s ++ (b ∷ [])) ≡ true → known t s ≡ true
  known-closed s b h = elim (Option-cases (walk t 0 (s ++ (b ∷ [])))) [
    | inl e ↦ absurd (ground arith)
    | inr (m, e) ↦ let (k, here, on) = walk_back t 0 s b m e in rw here refl
  ]

  pub StateOf-word :
      (s : List ℕ) (n : ℕ) → StateOf t s n → (n < length t) × (word n ≡ longest (known t) s)
  StateOf-word s n h = v.unique (longest (known t) s) n h

  word-root : word 0 ≡ []
  word-root = (v.unique [] 0 refl).1

  pub root_is_empty : (n : ℕ) → n < length t → word n ≡ [] → n ≡ 0
  root_is_empty n h e = let both : some n ≡ some 0 = sym (v.spelled n h) ∙ ap (walk t 0) e in cc

  -- One more byte, where the trie goes on.
  StateOf-child :
      (n i m : ℕ) → n < length t → child t n i ≡ some m → StateOf t (word n ++ (i ∷ [])) m
  StateOf-child n i m h e =
      let there : walk t 0 (word n ++ (i ∷ [])) ≡ some m =
        walk-snoc t 0 (word n) i n (v.spelled n h) ∙ e in
      ap (walk t 0) (longest-known (known t) (word n ++ (i ∷ [])) (ap is_some there)) ∙ there

  -- One more byte, where it does not: the end that the fail link stands for decides.
  StateOf-fail :
      (n i f m : ℕ) (c : ℕ) (u : List ℕ)
      → n < length t
      → child t n i ≡ none
      → word n ≡ c ∷ u
      → StateOf t u f
      → StateOf t (word f ++ (i ∷ [])) m
      → StateOf t (word n ++ (i ∷ [])) m
  StateOf-fail n i f m c u h e split to_f to_m =
      let unknown : known t (word n ++ (i ∷ [])) ≡ false =
        ap is_some (walk-snoc t 0 (word n) i n (v.spelled n h) ∙ e) in
      let at_split : known t ((c ∷ u) ++ (i ∷ [])) ≡ false =
        sym (ap (λ (x : List ℕ). known t (x ++ (i ∷ []))) split) ∙ unknown in
      let shorter : longest (known t) ((c ∷ u) ++ (i ∷ [])) ≡ longest (known t) (u ++ (i ∷ [])) =
        rw at_split refl in
      ap (λ (x : List ℕ). walk t 0 (longest (known t) (x ++ (i ∷ [])))) split
      ∙ ap (walk t 0) (
          shorter
          ∙ longest-snoc (known t) known-closed u i
          ∙ ap (λ (x : List ℕ). longest (known t) (x ++ (i ∷ []))) (sym (StateOf-word u f to_f).1))
      ∙ to_m

  -- The root takes what it has no child for.
  StateOf-root : (i : ℕ) → child t 0 i ≡ none → StateOf t (word 0 ++ (i ∷ [])) 0
  StateOf-root i e =
      let unknown : known t (i ∷ []) ≡ false = rw (known, walk, e) refl in
      ap (λ (x : List ℕ). walk t 0 (longest (known t) (x ++ (i ∷ [])))) word-root ∙ rw unknown refl

  module _ (linked : Trie) (i : ℕ) (byte : i < 0x100)
      (kids : (k j : ℕ) → child linked k j ≡ patched t 0x100 k j) where
    pub fail_node_lem :
        (fuel n : ℕ)
        → n < length t
        → length (word n) < fuel
        → ((k : ℕ)
            → k < length t
            → k ≢ 0
            → length (word k) ≤ length (word n)
            → StateOf t (tail (word k)) (node linked k).fail_link)
        → (m : ℕ) × (fail_node fuel linked i n ≡ accept m) × StateOf t (word n ++ (i ∷ [])) m
    unfolding fail_node
    fail_node_lem zero n h f good = absurd (omega arith)
    fail_node_lem (suc fuel) n h f good = elim (Option-cases (child t n i)) [
      | inr (m, e) ↦
          let there : child linked n i ≡ some m = kids n i ∙ rw (patched, e) refl in
          (m, rw (fail_node, there) refl, StateOf-child n i m h e)
      | inl e ↦ elim (Bool-cases (n == 0)) [
        | inl at_root ↦
            let zero_is : n ≡ 0 = (==_iff n 0).0 at_root in
            let inside : ltb i 0x100 ≡ true = ground arith in
            let there : child linked n i ≡ some 0 =
              kids n i ∙ rw (patched, e, at_root, inside) refl in
            let free : child t 0 i ≡ none = sym (ap (λ (k : ℕ). child t k i) zero_is) ∙ e in
            (
              0,
              rw (fail_node, there) refl,
              ap (λ (k : ℕ). walk t 0 (longest (known t) (word k ++ (i ∷ [])))) zero_is
                  ∙ StateOf-root i free,
            )
        | inr below ↦
            let not_root : n ≢ 0 = λ is_zero. ground arith in
            elim (List-cases (word n)) [
              | inl empty ↦ absurd (not_root (root_is_empty n h empty))
              | inr (c, u, split) ↦
                  let to_f : StateOf t u (node linked n).fail_link =
                    ap (λ (x : List ℕ). walk t 0 (longest (known t) (tail x))) (sym split)
                    ∙ good n h not_root (omega arith) in
                  let (inside, e_f) = StateOf-word u (node linked n).fail_link to_f in
                  let less : length (word (node linked n).fail_link) < length (word n) =
                    omega (arith, ap length e_f, ap length split, longest-length (known t) u) in
                  let (m, found, to_m) =
                    fail_node_lem fuel (node linked n).fail_link inside (omega arith)
                      λ k inside_k k_ne short. good k inside_k k_ne (omega arith) in
                  let stuck : child linked n i ≡ none = kids n i ∙ rw (patched, e, below) refl in
                  (
                    m,
                    rw (fail_node, stuck) found,
                    StateOf-fail n i (node linked n).fail_link m c u h e split to_f to_m,
                  )
            ]
      ]
    ]

    -- Stopping before the child, as the scanner does, or at it.
    pub follow-fail_node :
        (fuel n m : ℕ)
        → fail_node fuel linked i n ≡ accept m
        → (s : ℕ) × (follow fuel linked i n ≡ accept s) × (child linked s i ≡ some m)
    unfolding fail_node follow
    follow-fail_node zero n m h = absurd (ground arith)
    follow-fail_node (suc fuel) n m h = elim (Option-cases (child linked n i)) [
      | inr (k, e) ↦ (n, rw (follow, e) refl, e ∙ ground (arith, rw (fail_node, e) at h))
      | inl e ↦ elim (Bool-cases (n == 0)) [
        | inl at_root ↦
            let inside : ltb i 0x100 ≡ true = ground arith in
            absurd (ground (arith, kids n i, at_root, inside, e))
        | inr below ↦
            let (s, stops, there) =
              follow-fail_node fuel (node linked n).fail_link m (rw (fail_node, e) at h) in
            (s, rw (follow, e, below) stops, there)
      ]
    ]
