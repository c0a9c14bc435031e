-- ===== src/PatternMatcher/Levels.antt =====
-- The nodes of one level after the other, and what is known once the queue is empty.
use nethex.Base.{
  ℕ, zero, suc, ◌+◌, ◌≤◌, ◌<◌, ◌≡◌, ◌≢◌, refl, sym, subst, ap, ◌∙◌, inl, inr, Bool, true, false,
  List, [], ◌∷◌, ◌++◌, some, arith, length, length-append, replicate, get_or, All, ltb, ◌==◌,
  ==_iff, if◌then◌else◌, Bool-cases, List-cases,
}
use nethex.Base.Counts.{flag, copies, count_true}
use nethex.PatternMatcher.{Trie, node, child}
use nethex.PatternMatcher.Words.{tail, ending}
use nethex.PatternMatcher.Trie.{walk, walk_back, IsTrie}
use nethex.PatternMatcher.Links.{StateOf, patched, root_is_empty}
use nethex.PatternMatcher.Progress.{Inv}

split_last : (c : ℕ) (s : List ℕ) → (u : List ℕ) × (b : ℕ) × (c ∷ s ≡ u ++ (b ∷ []))
split_last c [] = ([], c, refl)
split_last c (d ∷ s) = let (u, b, e) = split_last d s in (c ∷ u, b, ap (λ (x : List ℕ). c ∷ x) e)

pub count_true_le : (bs : List Bool) → count_true bs ≤ length bs
count_true_le [] = omega arith
count_true_le (true ∷ bs) = omega (arith, count_true_le bs)
count_true_le (false ∷ bs) = omega (arith, count_true_le bs)

copies-All : (P : ℕ → Type 0) (k : ℕ) (q : List ℕ) → All P q → 0 < copies k q → P k
copies-All P k [] h c = absurd (omega arith)
copies-All P k (x ∷ q) h c = elim (Bool-cases (x == k)) [
  | inl same ↦ subst P ((==_iff x k).0 same) h.0
  | inr other ↦ copies-All P k q h.1 (ground arith)
]

pub get_or-blank : (n k : ℕ) → get_or (replicate n false) k false ≡ false
get_or-blank zero k = refl
get_or-blank (suc n) zero = refl
get_or-blank (suc n) (suc k) = get_or-blank n k

module _ {patterns : List (List ℕ)} {t : Trie} {word : ℕ → List ℕ}
    (v : IsTrie patterns t word) where
  -- Every node has its fail link and the patterns that its text ends with.
  pub record IsMachine (linked : Trie) : Type 0 where
    pub size : length linked ≡ length t
    pub kids : (k j : ℕ) → child linked k j ≡ patched t 0x100 k j
    pub failed :
        (k : ℕ) → k < length t → k ≢ 0 → StateOf t (tail (word k)) (node linked k).fail_link
    pub merged :
        (k : ℕ) → k < length t → (node linked k).matched_patterns ≡ ending (word k) patterns

  pub parent :
      (k : ℕ)
      → k < length t
      → k ≢ 0
      → (p : ℕ) × (j : ℕ) × (p < length t)
        × (child t p j ≡ some k)
        × (length (word k) ≡ suc (length (word p)))
  parent k h ne = elim (List-cases (word k)) [
    | inl empty ↦ absurd (ne (root_is_empty v k h empty))
    | inr (c, s, e) ↦
        let (u, j, split) = split_last c s in
        let (p, to_p, on) = walk_back t 0 u j k (ap (walk t 0) (sym (e ∙ split)) ∙ v.spelled k h) in
        let (p_in, spelt) = v.unique u p to_p in
        (
          p,
          j,
          p_in,
          on,
          omega (arith, ap length (e ∙ split), length-append u (j ∷ []), ap length spelt),
        )
  ]

  module _ (d current : ℕ) (level next : List ℕ) (seen : List Bool) (done : ℕ → Bool)
      (linked : Trie) (inv : Inv v d 0x100 0x100 current level next seen done linked) where
    -- Once a node has been popped, its children have been seen.
    seen-child : (k j m : ℕ) → k < length t → child t k j ≡ some m → get_or seen m false ≡ done k
    seen-child k j m h e =
        let inside = v.bytes k j m e in
        ground (arith, inv.edges k j m h e, inv.at_work, ap done {x = current} {y = k})

    abbrev pub done_with : ℕ → ℕ → Bool
    done_with n k = if n == k then true else done k

    -- The next node of the queue.
    pub pop :
        (d' n : ℕ) (level' next' : List ℕ)
        → (n < length t) × (length (word n) ≡ d')
        → All (λ k. (k < length t) × (length (word k) ≡ d')) level'
        → All (λ k. (k < length t) × (length (word k) ≡ suc d')) next'
        → ((k : ℕ) → k < length t → length (word k) ≤ d' → get_or seen k false ≡ true)
        → ((k : ℕ) → copies k (level ++ next) ≡ flag (n == k) + copies k (level' ++ next'))
        → Inv v d' 0x100 0 n level' next' seen (done_with n) linked
    pop d' n level' next' here this after shallow front = record {
      size = inv.size;
      flags = inv.flags;
      kids = inv.kids;
      here = here;
      at_work = ground arith;
      root = ground (arith, inv.root);
      this_level = this;
      next_level = after;
      shallow = shallow;
      queued = λ k h. ground (arith, inv.queued k h, front k);
      edges = λ k j m h e.
          ground
            (arith, seen-child k j m h e, inv.queued n here.0, front n, ap done {x = n} {y = k});
      failed = inv.failed;
      merged = inv.merged;
      fresh = inv.fresh;
    }

    -- When a level has been emptied, all nodes of the next one have been seen.
    root_seen : (k : ℕ) → k < length t → (k == 0) ≡ true → get_or seen k false ≡ true
    root_seen k h root =
        let at_zero : k ≡ 0 = (==_iff k 0).0 root in inv.shallow k h (omega (arith, v.short k h))

    pub shallower :
        level ≡ [] → (k : ℕ) → k < length t → length (word k) ≤ suc d → get_or seen k false ≡ true
    shallower empty k h le = elim (Bool-cases (k == 0)) [
      | inl root ↦ root_seen k h root
      | inr below ↦
          let (p, j, p_in, on, deeper) = parent k h (ground arith) in
          let seen_p = inv.shallow p p_in (omega arith) in
          let at : copies p (level ++ next) ≡ copies p next =
            ap (λ (q : List ℕ). copies p (q ++ next)) empty in
          elim (Bool-cases (ltb 0 (copies p next))) [
            | inl waits ↦
                let (_, depth) = copies-All _ p next inv.next_level (ground arith) in
                absurd (omega (arith, depth, deeper, le))
            | inr gone ↦ seen-child p j k p_in on ∙ ground (arith, inv.queued p p_in, seen_p, at)
          ]
    ]

    all_seen :
        level ≡ []
        → next ≡ []
        → (depth k : ℕ) → k < length t
        → length (word k) ≤ depth
        → get_or seen k false ≡ true
    all_seen empty empty' zero k h le = inv.shallow k h (omega arith)
    all_seen empty empty' (suc depth) k h le = elim (Bool-cases (k == 0)) [
      | inl root ↦ root_seen k h root
      | inr below ↦
          let (p, j, p_in, on, deeper) = parent k h (ground arith) in
          let seen_p = all_seen empty empty' depth p p_in (omega arith) in
          let none_waits : copies p (level ++ next) ≡ 0 =
            ap (λ (q : List ℕ). copies p (q ++ next)) empty ∙ ap (copies p) empty' in
          seen-child p j k p_in on ∙ ground (arith, inv.queued p p_in, seen_p, none_waits)
    ]

    pub finished : level ≡ [] → next ≡ [] → IsMachine linked
    finished empty empty' = record {
      size = inv.size;
      kids = inv.kids;
      failed =
          λ k h ne. inv.failed k h ne (all_seen empty empty' (length (word k)) k h (omega arith));
      merged = λ k h. inv.merged k h (all_seen empty empty' (length (word k)) k h (omega arith));
    }
