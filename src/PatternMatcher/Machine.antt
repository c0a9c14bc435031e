-- ===== src/PatternMatcher/Machine.antt =====
-- `build_machine` returns, and what its result is.
use nethex.Base.{
  ℕ, zero, suc, ◌+◌, ◌≤◌, ◌<◌, ◌≡◌, ◌≢◌, refl, sym, ap, ◌∙◌, inl, inr, ◌⊎◌, Bool, true, false, List,
  [], ◌∷◌, ◌++◌, append-nil, none, some, arith, length, length-append, length-set, length-replicate,
  replicate, get_or, set, ltb, ◌==◌, ==_iff, Bool-cases, Option-cases, accept, ◌>>=◌,
}
use nethex.Base.Counts.{flag, copies, count_true, get_or-set}
use nethex.PatternMatcher.{Trie, child, link_root, link_levels, build_machine}
use nethex.PatternMatcher.Words.{equal_to, ending}
use nethex.PatternMatcher.Trie.{IsTrie, child-word}
use nethex.PatternMatcher.Links.{patched}
use nethex.PatternMatcher.Progress.{Inv}
use nethex.PatternMatcher.Bytes.{root_done, link_root-Inv}
use nethex.PatternMatcher.Children.{link_children-Inv}
use nethex.PatternMatcher.Levels.{
  count_true_le, get_or-blank, IsMachine, parent, pop, done_with, shallower, finished,
}

module _ {patterns : List (List ℕ)} {t : Trie} {word : ℕ → List ℕ}
    (v : IsTrie patterns t word) where
  -- A node that waits is not the root.
  waits_below :
      (d current n : ℕ) (level next : List ℕ) (seen : List Bool) (done : ℕ → Bool) (linked : Trie)
      → Inv v d 0x100 0x100 current level next seen done linked
      → n < length t
      → 0 < copies n (level ++ next)
      → n ≢ 0
  waits_below d current n level next seen done linked inv h waits at_root =
      ground (arith, inv.queued n h, inv.root, ap done at_root)

  abbrev Ends : ℕ → Trie → List ℕ → Type 0
  Ends fuel linked q =
      (final : Trie) × (link_levels fuel linked q ≡ accept final) × IsMachine v final

  round :
      (fuel d n : ℕ) (level next : List ℕ) (seen : List Bool) (done : ℕ → Bool) (linked : Trie)
      → Inv v d 0x100 0 n level next seen done linked
      → n ≢ 0
      → length t + length (level ++ next) ≤ fuel + count_true seen
      → ((next' : List ℕ) (seen' : List Bool) (linked' : Trie)
          → Inv v d 0x100 0x100 n level next' seen' done linked'
          → length t + length (level ++ next') ≤ fuel + count_true seen'
          → Ends fuel linked' (level ++ next'))
      → Ends (suc fuel) linked (n ∷ (level ++ next))
  unfolding link_levels
  round fuel d n level next seen done linked inv below enough onward =
      let (linked', next', seen', runs, inv', count) =
        link_children-Inv v 0x100 0 d n level next seen done linked refl below inv in
      let (final, rest, machine) =
        onward next' seen' linked' inv'
          (omega (arith, count, length-append level next, length-append level next')) in
      (final, rw (runs, ◌>>=◌) rest, machine)

  -- The queue's loop ends, within a round for each node that has not been seen.
  link_levels-IsMachine :
      (fuel d current : ℕ) (level next : List ℕ) (seen : List Bool) (done : ℕ → Bool)
      (linked : Trie)
      → Inv v d 0x100 0x100 current level next seen done linked
      → length t + length (level ++ next) ≤ fuel + count_true seen
      → Ends fuel linked (level ++ next)
  unfolding link_levels
  link_levels-IsMachine fuel d current [] [] seen done linked inv enough =
      (linked, refl, finished v d current [] [] seen done linked inv refl refl)
  link_levels-IsMachine zero d current [] (n ∷ next) seen done linked inv enough =
      absurd (omega (arith, count_true_le seen, inv.flags))
  link_levels-IsMachine zero d current (n ∷ level) next seen done linked inv enough =
      absurd (omega (arith, count_true_le seen, inv.flags))
  link_levels-IsMachine (suc fuel) d current [] (n ∷ next) seen done linked inv enough =
      let popped =
        pop v d current [] (n ∷ next) seen done linked inv (suc d) n next [] inv.next_level.0
          inv.next_level.1 tt (shallower v d current [] (n ∷ next) seen done linked inv refl)
          λ k. ap (λ (q : List ℕ). flag (n == k) + copies k q) (sym (append-nil next)) in
      let below : n ≢ 0 =
        waits_below d current n [] (n ∷ next) seen done linked inv inv.next_level.0.0
          (ground arith) in
      let (final, ends, machine) =
        round fuel (suc d) n next [] seen
          (done_with v d current [] (n ∷ next) seen done linked inv n) linked popped below
          (omega (arith, length-append next []))
          λ next' seen' linked' inv' enough'.
            link_levels-IsMachine fuel (suc d) n next next' seen'
              (done_with v d current [] (n ∷ next) seen done linked inv n) linked' inv' enough' in
      (
        final,
        ap (λ (q : List ℕ). link_levels (suc fuel) linked (n ∷ q)) (sym (append-nil next)) ∙ ends,
        machine,
      )
  link_levels-IsMachine (suc fuel) d current (n ∷ level) next seen done linked inv enough =
      let popped =
        pop v d current (n ∷ level) next seen done linked inv d n level next inv.this_level.0
          inv.this_level.1 inv.next_level inv.shallow λ k. refl in
      let below : n ≢ 0 =
        waits_below d current n (n ∷ level) next seen done linked inv inv.this_level.0.0
          (ground arith) in
      round fuel d n level next seen (done_with v d current (n ∷ level) next seen done linked inv n)
        linked popped below (omega arith)
        λ next' seen' linked' inv' enough'.
          link_levels-IsMachine fuel d n level next' seen'
            (done_with v d current (n ∷ level) next seen done linked inv n) linked' inv' enough'

  -- The start: the root is seen and done, and no other node.
  abbrev only_root_seen : List Bool
  only_root_seen = set (replicate (length t) false) 0 true

  seen_root : (k : ℕ) → get_or only_root_seen k false ≡ (0 == k)
  seen_root k =
      get_or-set (replicate (length t) false) 0 k true false
        (omega (arith, v.root, length-replicate (length t) false))
      ∙ ground (arith, get_or-blank (length t) k)

  Inv-start : equal_to [] patterns ≡ [] → Inv v 0 0 0 0 [] [] only_root_seen root_done t
  Inv-start no_empty = record {
    size = refl;
    flags = length-set (replicate (length t) false) 0 true ∙ length-replicate (length t) false;
    kids = λ k j. unpatched k j (Option-cases (child t k j));
    here = (v.root, omega (arith, v.short 0 v.root));
    at_work = ground arith;
    root = ground arith;
    this_level = tt;
    next_level = tt;
    shallow = λ k h le. seen_root k ∙ first k h le (Bool-cases (0 == k));
    queued = λ k h. omega (arith, ap flag (seen_root k));
    edges = λ k j m h e. seen_root m ∙ ground (arith, above_root k j m h e);
    failed = λ k h ne s. absurd (ground (arith, seen_root k));
    merged = λ k h s.
        let at_root : 0 ≡ k = (==_iff 0 k).0 (sym (seen_root k) ∙ s) in
        v.own k h ∙ at_first k at_root;
    fresh = λ k h s. v.own k h;
  }
    where
      unpatched :
          (k j : ℕ)
          → (child t k j ≡ none) ⊎ ((m : ℕ) × (child t k j ≡ some m))
          → child t k j ≡ patched t 0 k j
      unpatched k j (inr (m, there)) = there ∙ rw (patched, there) refl
      unpatched k j (inl e) =
          let no_byte : ltb j 0 ≡ false = ground arith in
          e ∙ rw (patched, e) (ground (arith, no_byte))

      word_root : word 0 ≡ []
      word_root = (v.unique [] 0 refl).1

      first :
          (k : ℕ)
          → k < length t
          → length (word k) ≤ 0
          → ((0 == k) ≡ true) ⊎ ((0 == k) ≡ false)
          → (0 == k) ≡ true
      first k h le (inl at) = at
      first k h le (inr off) =
          let (p, j, p_in, on, deeper) = parent v k h (ground arith) in absurd (omega arith)

      above_root : (k j m : ℕ) → k < length t → child t k j ≡ some m → m ≢ 0
      above_root k j m h e at_zero =
          let spelt = (child-word v k j m h e).1 in
          absurd (
            omega (
              arith,
              ap length spelt,
              ap length word_root,
              length-append (word k) (j ∷ []),
              ap (λ (x : ℕ). length (word x)) at_zero,
            ))

      at_first : (k : ℕ) → 0 ≡ k → equal_to (word k) patterns ≡ ending (word k) patterns
      at_first k at =
          let empty : word k ≡ [] = ap word (sym at) ∙ word_root in
          ap (λ (x : List ℕ). equal_to x patterns) empty
          ∙ no_empty
          ∙ ap (λ (x : List ℕ). ending x patterns) (sym empty)

  -- From a trie with no empty pattern `build_machine` returns, with a machine.
  pub build_machine-IsMachine :
      equal_to [] patterns ≡ []
      → (linked : Trie) × (build_machine t ≡ accept linked) × IsMachine v linked
  unfolding build_machine
  build_machine-IsMachine no_empty =
      let (seen, inv, count) =
        link_root-Inv v 0x100 0 [] only_root_seen t refl (Inv-start no_empty) in
      link_levels-IsMachine (length t) 0 0 [] (link_root 0x100 0 t []).1 seen root_done
        (link_root 0x100 0 t []).0 inv (omega (arith, count))
