-- ===== src/PatternMatcher/Children.antt =====
-- The loop over the children of a node below the root.
use nethex.Base.{
  ℕ, zero, suc, ◌+◌, ◌≤◌, ◌<◌, ◌≡◌, ◌≢◌, refl, sym, subst, ap, ap₂, ◌∙◌, inl, inr, Bool, true,
  false, List, [], ◌∷◌, ◌++◌, append_assoc, none, some, arith, length, length-append, get_or, set,
  ◌==◌, Option-cases, List-cases, accept, ◌>>=◌,
}
use nethex.Base.Counts.{count_true}
use nethex.PatternMatcher.{Trie, node, child, link_child, link_children, fail_node}
use nethex.PatternMatcher.Words.{
  tail, equal_to, ending, longest, longest-length, longest-snoc, ending-longest,
}
use nethex.PatternMatcher.Trie.{walk, IsTrie, child-word}
use nethex.PatternMatcher.Links.{
  StateOf, StateOf-word, patched, known, known-closed, root_is_empty, fail_node_lem,
}
use nethex.PatternMatcher.Progress.{Inv, count-push, Inv-skip, Inv-push}

module _ {patterns : List (List ℕ)} {t : Trie} {word : ℕ → List ℕ}
    (v : IsTrie patterns t word) where
  -- No text that the trie does not spell is a pattern.
  pub unlisted : (s : List ℕ) → known t s ≡ false → equal_to s patterns ≡ []
  unlisted s h = elim (Option-cases (walk t 0 s)) [
    | inl e ↦ v.listed s e
    | inr (n, e) ↦ absurd (ground arith)
  ]

  module _ (d i n : ℕ) (level next : List ℕ) (seen : List Bool) (done : ℕ → Bool) (linked : Trie)
      (inv : Inv v d 0x100 i n level next seen done linked) (below : n ≢ 0) (byte : i < 0x100)
      (m : ℕ) (there : child t n i ≡ some m) where
    n_in : n < length t
    n_in = inv.here.0

    m_in : m < length t
    m_in = (child-word v n i m n_in there).0

    seen_short : (k : ℕ) → k < length t → length (word k) ≤ d → get_or seen k false ≡ true
    seen_short = inv.shallow

    -- The fail link of the child, and what the node that it leads to has found.
    child_link :
        (c : ℕ) (u : List ℕ)
        → word n ≡ c ∷ u
        → (f : ℕ) × (fail_node (suc (length linked)) linked i (node linked n).fail_link ≡ accept f)
          × StateOf t (tail (word m)) f
          × ((node linked m).matched_patterns ++ (node linked f).matched_patterns
              ≡ ending (word m) patterns)
    child_link c u split =
        let f0 = (node linked n).fail_link in
        let to_f0 : StateOf t u f0 =
          ap (λ (x : List ℕ). walk t 0 (longest (known t) (tail x))) (sym split)
          ∙ inv.failed n n_in below (seen_short n n_in (omega (arith, inv.here.1))) in
        let (f0_in, word_f0) = StateOf-word v u f0 to_f0 in
        let depth : suc (length u) ≡ d = omega (arith, ap length split, inv.here.1) in
        let shorter : length (word f0) < d =
          omega (arith, ap length word_f0, longest-length (known t) u) in
        let (f, finds, to_f) =
          fail_node_lem v linked i byte inv.kids (suc (length linked)) f0 f0_in
            (omega (arith, v.short f0 f0_in, inv.size))
            λ k k_in k_ne short.
              inv.failed k k_in k_ne (seen_short k k_in (omega (arith, shorter))) in
        let spelt : word m ≡ c ∷ (u ++ (i ∷ [])) =
          (child-word v n i m n_in there).1 ∙ ap (λ (x : List ℕ). x ++ (i ∷ [])) split in
        let same_end : longest (known t) (u ++ (i ∷ [])) ≡ longest (known t) (word f0 ++ (i ∷ [])) =
          longest-snoc (known t) (known-closed v) u i
          ∙ ap (λ (x : List ℕ). longest (known t) (x ++ (i ∷ []))) (sym word_f0) in
        let at_tail : StateOf t (u ++ (i ∷ [])) f = ap (walk t 0) same_end ∙ to_f in
        let (f_in, word_f) = StateOf-word v (u ++ (i ∷ [])) f at_tail in
        let f_short : length (word f) ≤ d = omega (
          arith,
          ap length word_f,
          longest-length (known t) (u ++ (i ∷ [])),
          length-append u (i ∷ []),
        ) in
        let unseen : get_or seen m false ≡ false = inv.edges n i m n_in there ∙ ground arith in
        let merged : (node linked f).matched_patterns ≡ ending (u ++ (i ∷ [])) patterns =
          inv.merged f f_in (seen_short f f_in f_short)
          ∙ ap (λ (x : List ℕ). ending x patterns) word_f
          ∙ ending-longest (known t) patterns unlisted (u ++ (i ∷ [])) in
        let own : (node linked m).matched_patterns ≡ equal_to (c ∷ (u ++ (i ∷ []))) patterns =
          inv.fresh m m_in unseen ∙ ap (λ (x : List ℕ). equal_to x patterns) spelt in
        (
          f,
          finds,
          ap (λ (x : List ℕ). walk t 0 (longest (known t) (tail x))) spelt ∙ at_tail,
          ap₂ ◌++◌ own merged ∙ ap (λ (x : List ℕ). ending x patterns) (sym spelt),
        )

  pub link_children-Inv :
      (left i d n : ℕ) (level next : List ℕ) (seen : List Bool) (done : ℕ → Bool) (linked : Trie)
      → left + i ≡ 0x100
      → n ≢ 0
      → Inv v d 0x100 i n level next seen done linked
      → (linked' : Trie) × (next' : List ℕ) × (seen' : List Bool) × (link_children left i n linked
            (level ++ next)
          ≡ accept (linked', level ++ next'))
        × Inv v d 0x100 0x100 n level next' seen' done linked'
        × (length next' + count_true seen ≡ length next + count_true seen')
  unfolding link_children
  link_children-Inv zero i d n level next seen done linked e below inv = (
    linked,
    next,
    seen,
    refl,
    subst (λ (x : ℕ). Inv v d 0x100 x n level next seen done linked) (omega arith) inv,
    refl,
  )
  link_children-Inv (suc left) i d n level next seen done linked e below inv =
      elim (Option-cases (child t n i)) [
        | inl free ↦
            let not_root : (n == 0) ≡ false = ground arith in
            let none_there : child linked n i ≡ none =
              inv.kids n i ∙ rw (patched, free, not_root) refl in
            let skipped =
              Inv-skip v d 0x100 i n level next seen done linked inv free 0x100 linked inv.size
                inv.kids λ k. (refl, refl) in
            let (linked', next', seen', runs, inv', count) =
              link_children-Inv left (suc i) d n level next seen done linked (omega arith) below
                skipped in
            (linked', next', seen', rw (none_there, link_children) runs, inv', count)
        | inr (m, there) ↦ elim (List-cases (word n)) [
          | inl empty ↦ absurd (below (root_is_empty v n inv.here.0 empty))
          | inr (c, u, split) ↦
              let (f, finds, to_f, all) =
                child_link d i n level next seen done linked inv below (omega arith) m there c u
                  split in
              let pushed =
                Inv-push v d 0x100 i n level next seen done linked inv m there f
                  ((node linked m).matched_patterns ++ (node linked f).matched_patterns) to_f all
                  0x100 λ k j. refl in
              let (linked', next', seen', runs, inv', count) =
                link_children-Inv left (suc i) d n level (next ++ (m ∷ [])) (set seen m true) done
                  (link_child linked m f) (omega arith) below pushed in
              let there' : child linked n i ≡ some m = inv.kids n i ∙ rw (patched, there) refl in
              (
                linked',
                next',
                seen',
                rw (there', link_children, finds, ◌>>=◌, append_assoc level next (m ∷ [])) runs,
                inv',
                count-push next seen m (length next') (count_true seen')
                    (omega (arith, (child-word v n i m inv.here.0 there).0, inv.flags))
                    (inv.edges n i m inv.here.0 there ∙ ground arith) count,
              )
        ]
      ]
