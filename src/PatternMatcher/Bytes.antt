-- ===== src/PatternMatcher/Bytes.antt =====
-- The two loops over the 256 bytes of a node.
use nethex.Base.{
  ℕ, zero, suc, ◌+◌, ◌≡◌, ◌≢◌, refl, sym, subst, ap, ap₂, ◌∙◌, inl, inr, ◌⊎◌, Bool, true, false,
  List, [], ◌∷◌, ◌++◌, append-nil, none, some, arith, length, length-set, get_or, set, ltb, ◌==◌,
  ==_iff, if◌then◌else◌, Bool-cases, Option-cases, none_not_some,
}
use nethex.Base.Counts.{count_true, get_or-set}
use nethex.PatternMatcher.{TrieNode, Trie, unlinked, node, child, with_child, link_root}
use nethex.PatternMatcher.Words.{tail, equal_to, ending, longest}
use nethex.PatternMatcher.Trie.{walk, IsTrie, child-word}
use nethex.PatternMatcher.Links.{StateOf, patched, known}
use nethex.PatternMatcher.Progress.{Inv, count-push, Inv-skip, Inv-push}

-- The root is done from the beginning.
abbrev pub root_done : ℕ → Bool
root_done k = 0 == k

module _ {patterns : List (List ℕ)} {t : Trie} {word : ℕ → List ℕ}
    (v : IsTrie patterns t word) where
  patched-suc :
      (i c : ℕ) → child t 0 i ≡ some c → (k j : ℕ) → patched t i k j ≡ patched t (suc i) k j
  patched-suc i c e k j = elim (Option-cases (child t k j)) [
    | inr (m, there) ↦ rw (patched, there) refl
    | inl free ↦
        let other : (k ≡ 0) → j ≢ i =
          λ at_root is_i. none_not_some (sym (ap₂ (child t) at_root is_i) ∙ free) e in
        rw (patched, free) (ground (arith, other))
  ]

  spell_child : (c i : ℕ) → child t 0 i ≡ some c → word c ≡ i ∷ []
  spell_child c i e =
      (child-word v 0 i c v.root e).1 ∙ ap (λ (x : List ℕ). x ++ (i ∷ [])) (v.unique [] 0 refl).1

  root_kids :
      (linked : Trie) (i : ℕ)
      → ((k j : ℕ) → child linked k j ≡ patched t i k j)
      → child t 0 i ≡ none
      → (k j : ℕ)
      → (if 0 == k then with_child (node linked 0) i 0 else node linked k).children j
        ≡ patched t (suc i) k j
  root_kids linked i kids free k j = elim (Bool-cases (0 == k)) [
    | inl at_root ↦ rw at_root (
        at_zero (Option-cases (child t 0 j))
        ∙ ap (λ (x : ℕ). patched t (suc i) x j) ((==_iff 0 k).0 at_root))
    | inr below ↦ rw below (kids k j ∙ unpatched (Option-cases (child t k j)) below)
  ]
    where
      unpatched :
          (child t k j ≡ none) ⊎ ((m : ℕ) × (child t k j ≡ some m))
          → (0 == k) ≡ false
          → patched t i k j ≡ patched t (suc i) k j
      unpatched (inr (m, there)) below = rw (patched, there) refl
      unpatched (inl e) below = rw (patched, e) (ground arith)

      at_zero :
          (child t 0 j ≡ none) ⊎ ((m : ℕ) × (child t 0 j ≡ some m))
          → (if j == i then some 0 else child linked 0 j) ≡ patched t (suc i) 0 j
      at_zero (inr (m, there)) =
          let off : (j == i) ≡ false = ground (arith, ap (child t 0) {x = j} {y = i}) in
          rw (patched, there, off) (kids 0 j ∙ rw (patched, there) refl)
      at_zero (inl e) =
          let before : child linked 0 j ≡ (if ltb j i then some 0 else none) =
            kids 0 j ∙ rw (patched, e) refl in
          rw (patched, e) (ground (arith, before))

  root_rest :
      (linked : Trie) (i k : ℕ)
      → node (set linked 0 (with_child (node linked 0) i 0)) k
        ≡ (if 0 == k then with_child (node linked 0) i 0 else node linked k)
      → ((node (set linked 0 (with_child (node linked 0) i 0)) k).fail_link
          ≡ (node linked k).fail_link)
        × ((node (set linked 0 (with_child (node linked 0) i 0)) k).matched_patterns
            ≡ (node linked k).matched_patterns)
  root_rest linked i k e = (
    ap (λ (y : TrieNode). y.fail_link) e ∙ ground (arith, ap (node linked) {x = k} {y = 0}),
    ap (λ (y : TrieNode). y.matched_patterns) e ∙ ground (arith, ap (node linked) {x = k} {y = 0}),
  )

  pub link_root-Inv :
      (left i : ℕ) (q : List ℕ) (seen : List Bool) (linked : Trie)
      → left + i ≡ 0x100
      → Inv v 0 i i 0 [] q seen root_done linked
      → let (linked', q') = link_root left i linked q in
        (seen' : List Bool) × Inv v 0 0x100 0x100 0 [] q' seen' root_done linked'
        × (length q' + count_true seen ≡ length q + count_true seen')
  unfolding link_root
  link_root-Inv zero i q seen linked e inv =
      (seen, subst (λ (x : ℕ). Inv v 0 x x 0 [] q seen root_done linked) (omega arith) inv, refl)
  link_root-Inv (suc left) i q seen linked e inv = elim (Option-cases (child t 0 i)) [
    | inr (c, there) ↦
        let there' : child linked 0 i ≡ some c = inv.kids 0 i ∙ rw (patched, there) refl in
        let spelt = spell_child c i there in
        let outset : StateOf t (tail (word c)) 0 =
          ap (λ (x : List ℕ). walk t 0 (longest (known t) (tail x))) spelt in
        let c_in = (child-word v 0 i c v.root there).0 in
        let unseen : get_or seen c false ≡ false = inv.edges 0 i c v.root there ∙ ground arith in
        let own : (node linked c).matched_patterns ≡ ending (word c) patterns =
          inv.fresh c c_in unseen
          ∙ ap (λ (x : List ℕ). equal_to x patterns) spelt
          ∙ sym (append-nil (equal_to (i ∷ []) patterns))
          ∙ ap (λ (x : List ℕ). ending x patterns) (sym spelt) in
        let pushed =
          Inv-push v 0 i i 0 [] q seen root_done linked inv c there 0
            (node linked c).matched_patterns outset own (suc i) (patched-suc i c there) in
        let q' =
          (link_root left (suc i) (set linked c (record (node linked c) { fail_link = 0 }))
            (q ++ (c ∷ []))).1 in
        let (seen', inv', count) =
          link_root-Inv left (suc i) (q ++ (c ∷ [])) (set seen c true)
            (set linked c (record (node linked c) { fail_link = 0 })) (omega arith) pushed in
        rw (there', link_root)
          (
            seen',
            inv',
            count-push q seen c (length q') (count_true seen') (omega (arith, c_in, inv.flags))
                unseen count,
          )
    | inl free ↦
        let linked' : Trie = set linked 0 (with_child (node linked 0) i 0) in
        let off : ltb i i ≡ false = ground arith in
        let none_there : child linked 0 i ≡ none = inv.kids 0 i ∙ rw (patched, free, off) refl in
        let nodes = λ (k : ℕ).
          get_or-set linked 0 k (with_child (node linked 0) i 0) unlinked
            (omega (arith, inv.size, v.root)) in
        let skipped =
          Inv-skip v 0 i i 0 [] q seen root_done linked inv free (suc i) linked'
            (length-set linked 0 (with_child (node linked 0) i 0) ∙ inv.size)
            (λ k j.
              ap (λ (y : TrieNode). y.children j) (nodes k) ∙ root_kids linked i inv.kids free k j)
            λ k. root_rest linked i k (nodes k) in
        rw (none_there, link_root) (link_root-Inv left (suc i) q seen linked' (omega arith) skipped)
  ]
