-- ===== src/PatternMatcher/Progress.antt =====
-- The invariant of the machine's construction, and what a byte of a node does to it.
use nethex.Base.{
  ℕ, suc, ◌+◌, ◌≤◌, ◌<◌, ◌≡◌, ◌≢◌, refl, sym, ap, ap₂, ◌∙◌, inl, inr, ◌⊎◌, Bool, true, false, List,
  [], ◌∷◌, ◌++◌, append_assoc, none, some, arith, length, length-append, length-set, get_or, set,
  All, All-snoc, ltb, ◌==◌, ==_iff, if◌then◌else◌, Bool-cases,
}
use nethex.Base.Counts.{flag, count_true, count_true-set, copies, copies_snoc, get_or-set}
use nethex.PatternMatcher.{TrieNode, Trie, unlinked, node, child}
use nethex.PatternMatcher.Words.{tail, equal_to, ending, snoc-injective}
use nethex.PatternMatcher.Trie.{walk, IsTrie, child-word}
use nethex.PatternMatcher.Links.{StateOf, patched}

-- A push marks one node more.
pub count-push :
    (q : List ℕ) (seen : List Bool) (m total after : ℕ)
    → m < length seen
    → get_or seen m false ≡ false
    → total + count_true (set seen m true) ≡ length (q ++ (m ∷ [])) + after
    → total + count_true seen ≡ length q + after
count-push q seen m total after inside unseen e =
    ground (arith, e, count_true-set seen m true inside, unseen, length-append q (m ∷ []))

module _ {patterns : List (List ℕ)} {t : Trie} {word : ℕ → List ℕ}
    (v : IsTrie patterns t word) where
  -- The nodes of depth `d` that wait, the one among them that is at work, at byte `i`, and the
  -- children found. A node is `seen` once it has been pushed, `done` once it has been popped.
  pub record Inv (d r i current : ℕ) (level next : List ℕ) (seen : List Bool) (done : ℕ → Bool)
      (linked : Trie) : Type 0 where
    pub size : length linked ≡ length t
    pub flags : length seen ≡ length t
    pub kids : (k j : ℕ) → child linked k j ≡ patched t r k j
    pub here : (current < length t) × (length (word current) ≡ d)
    pub at_work : done current ≡ true
    pub root : done 0 ≡ true
    pub this_level : All (λ k. (k < length t) × (length (word k) ≡ d)) level
    pub next_level : All (λ k. (k < length t) × (length (word k) ≡ suc d)) next
    pub shallow : (k : ℕ) → k < length t → length (word k) ≤ d → get_or seen k false ≡ true
    pub queued :
        (k : ℕ)
        → k < length t
        → copies k (level ++ next) + flag (done k) ≡ flag (get_or seen k false)
    pub edges :
        (k j m : ℕ)
        → k < length t
        → child t k j ≡ some m
        → get_or seen m false ≡ (if current == k then ltb j i else done k)
    pub failed :
        (k : ℕ)
        → k < length t
        → k ≢ 0
        → get_or seen k false ≡ true
        → StateOf t (tail (word k)) (node linked k).fail_link
    pub merged :
        (k : ℕ)
        → k < length t
        → get_or seen k false ≡ true
        → (node linked k).matched_patterns ≡ ending (word k) patterns
    pub fresh :
        (k : ℕ)
        → k < length t
        → get_or seen k false ≡ false
        → (node linked k).matched_patterns ≡ equal_to (word k) patterns

  word-injective : (k n : ℕ) → k < length t → n < length t → word k ≡ word n → k ≡ n
  word-injective k n h h' e =
      let both : some k ≡ some n = sym (v.spelled k h) ∙ ap (walk t 0) e ∙ v.spelled n h' in cc

  -- A child belongs to one node and byte.
  same_parent :
      (k j n i m : ℕ)
      → k < length t
      → n < length t
      → child t k j ≡ some m
      → child t n i ≡ some m
      → (k ≡ n) × (j ≡ i)
  same_parent k j n i m h h' e e' =
      let (start, byte) =
        snoc-injective (word k) (word n) j i
          (sym (child-word v k j m h e).1 ∙ (child-word v n i m h' e').1) in
      (word-injective k n h h' start, byte)

  -- No child at this byte.
  module _ (d r i n : ℕ) (level next : List ℕ) (seen : List Bool) (done : ℕ → Bool) (linked : Trie)
      (inv : Inv d r i n level next seen done linked) (free : child t n i ≡ none) where
    pub Inv-skip :
        (r' : ℕ) (linked' : Trie)
        → length linked' ≡ length t
        → ((k j : ℕ) → child linked' k j ≡ patched t r' k j)
        → ((k : ℕ)
            → ((node linked' k).fail_link ≡ (node linked k).fail_link)
              × ((node linked' k).matched_patterns ≡ (node linked k).matched_patterns))
        → Inv d r' (suc i) n level next seen done linked'
    Inv-skip r' linked' size kids same = record {
      size = size;
      flags = inv.flags;
      kids = kids;
      here = inv.here;
      at_work = inv.at_work;
      root = inv.root;
      this_level = inv.this_level;
      next_level = inv.next_level;
      shallow = inv.shallow;
      queued = inv.queued;
      edges = λ k j m h e.
          ground
            (arith, inv.edges k j m h e, free, e, ap₂ (child t) {x = k} {y = n} {u = j} {v = i});
      failed = λ k h ne s. inv.failed k h ne s ∙ ap some (sym (same k).0);
      merged = λ k h s. (same k).1 ∙ inv.merged k h s;
      fresh = λ k h s. (same k).1 ∙ inv.fresh k h s;
    }

  -- A child at this byte, which gets its fail link and its matches.
  module _ (d r i n : ℕ) (level next : List ℕ) (seen : List Bool) (done : ℕ → Bool) (linked : Trie)
      (inv : Inv d r i n level next seen done linked) (m : ℕ) (there : child t n i ≡ some m) (f : ℕ)
      (x : List (List ℕ)) (to_f : StateOf t (tail (word m)) f)
      (all : x ≡ ending (word m) patterns) where
    abbrev found : TrieNode
    found = record { children = (node linked m).children; fail_link = f; matched_patterns = x }

    abbrev with_found : Trie
    with_found = set linked m found

    in_trie : m < length t
    in_trie = (child-word v n i m inv.here.0 there).0

    deeper : length (word m) ≡ suc d
    deeper = omega (
      arith,
      ap length (child-word v n i m inv.here.0 there).1,
      length-append (word n) (i ∷ []),
      inv.here.1,
    )

    new : get_or seen m false ≡ false
    new = inv.edges n i m inv.here.0 there ∙ ground arith

    node-found : (k : ℕ) → node with_found k ≡ (if m == k then found else node linked k)
    node-found k = get_or-set linked m k found unlinked (omega (arith, in_trie, inv.size))

    seen-found :
        (k : ℕ) → get_or (set seen m true) k false ≡ (if m == k then true else get_or seen k false)
    seen-found k = get_or-set seen m k true false (omega (arith, in_trie, inv.flags))

    seen_by_now :
        (k : ℕ)
        → get_or (set seen m true) k false ≡ true
        → (m == k) ≡ false
        → get_or seen k false ≡ true
    seen_by_now k s other = ground (arith, seen-found k)

    child-found : (k j : ℕ) → child with_found k j ≡ child linked k j
    child-found k j =
        ap (λ (y : TrieNode). y.children j) (node-found k)
        ∙ ground (arith, ap (node linked) {x = k} {y = m})

    edges-found :
        (k j m' : ℕ)
        → k < length t
        → child t k j ≡ some m'
        → get_or (set seen m true) m' false ≡ (if n == k then ltb j (suc i) else done k)
    edges-found k j m' h e = elim (Bool-cases (m == m')) [
      | inl same ↦
          let is_m : child t n i ≡ some m' = there ∙ ap some ((==_iff m m').0 same) in
          let (is_n, is_i) = same_parent k j n i m' h inv.here.0 e is_m in
          seen-found m' ∙ ground arith
      | inr other ↦
          let before = inv.edges k j m' h e in
          seen-found m'
          ∙ rw other (
              before ∙ elim (Bool-cases (n == k)) [
                | inl at_n ↦ rw at_n (next_byte (Bool-cases (j == i)) at_n other)
                | inr elsewhere ↦ rw elsewhere refl
              ])
    ]
      where
        next_byte :
            ((j == i) ≡ true) ⊎ ((j == i) ≡ false)
            → (n == k) ≡ true
            → (m == m') ≡ false
            → ltb j i ≡ ltb j (suc i)
        next_byte (inl at_i) at_n other =
            let both : some m' ≡ some m =
              sym e ∙ ap₂ (child t) (sym ((==_iff n k).0 at_n)) ((==_iff j i).0 at_i) ∙ there in
            absurd (ground (arith, both))
        next_byte (inr off_i) at_n other = ground arith

    queued-found :
        (k : ℕ)
        → k < length t
        → copies k (level ++ (next ++ (m ∷ []))) + flag (done k)
          ≡ flag (get_or (set seen m true) k false)
    queued-found k h = ground (
      arith,
      ap (copies k) (sym (append_assoc level next (m ∷ []))),
      copies_snoc k m (level ++ next),
      inv.queued k h,
      seen-found k,
      new,
      ap (λ (y : ℕ). get_or seen y false) {x = m} {y = k},
    )

    failed-found :
        (k : ℕ)
        → k < length t
        → k ≢ 0
        → get_or (set seen m true) k false ≡ true
        → StateOf t (tail (word k)) (node with_found k).fail_link
    failed-found k h ne s = elim (Bool-cases (m == k)) [
      | inl same ↦ rw (node-found k, same, sym ((==_iff m k).0 same)) to_f
      | inr other ↦
          let as_before : node with_found k ≡ node linked k = node-found k ∙ rw other refl in
          inv.failed k h ne (seen_by_now k s other)
          ∙ ap (λ (y : TrieNode). some y.fail_link) (sym as_before)
    ]

    merged-found :
        (k : ℕ)
        → k < length t
        → get_or (set seen m true) k false ≡ true
        → (node with_found k).matched_patterns ≡ ending (word k) patterns
    merged-found k h s = elim (Bool-cases (m == k)) [
      | inl same ↦
          ap (λ (y : TrieNode). y.matched_patterns) (node-found k)
          ∙ rw same (all ∙ ap (λ (y : ℕ). ending (word y) patterns) ((==_iff m k).0 same))
      | inr other ↦
          ap (λ (y : TrieNode). y.matched_patterns) (node-found k)
          ∙ rw other (inv.merged k h (seen_by_now k s other))
    ]

    fresh-found :
        (k : ℕ)
        → k < length t
        → get_or (set seen m true) k false ≡ false
        → (node with_found k).matched_patterns ≡ equal_to (word k) patterns
    fresh-found k h s = elim (Bool-cases (m == k)) [
      | inl same ↦ absurd (ground (arith, seen-found k))
      | inr other ↦
          ap (λ (y : TrieNode). y.matched_patterns) (node-found k)
          ∙ rw other (inv.fresh k h (ground (arith, seen-found k)))
    ]

    pub Inv-push :
        (r' : ℕ)
        → ((k j : ℕ) → patched t r k j ≡ patched t r' k j)
        → Inv d r' (suc i) n level (next ++ (m ∷ [])) (set seen m true) done with_found
    Inv-push r' same = record {
      size = length-set linked m found ∙ inv.size;
      flags = length-set seen m true ∙ inv.flags;
      kids = λ k j. child-found k j ∙ inv.kids k j ∙ same k j;
      here = inv.here;
      at_work = inv.at_work;
      root = inv.root;
      this_level = inv.this_level;
      next_level = All-snoc _ next m inv.next_level (in_trie, deeper);
      shallow = λ k h le. ground (arith, seen-found k, inv.shallow k h le);
      queued = queued-found;
      edges = edges-found;
      failed = failed-found;
      merged = merged-found;
      fresh = fresh-found;
    }
