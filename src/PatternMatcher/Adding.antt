-- ===== src/PatternMatcher/Adding.antt =====
-- `add_pattern`, and the trie of any list of patterns.
use nethex.Base.{
  ℕ, zero, suc, ◌<◌, ◌≡◌, refl, sym, ap, ◌∙◌, inl, inr, true, false, List, [], ◌∷◌, ◌++◌,
  append_assoc, append-nil, none, some, arith, length, length-set, set, All, ◌==◌, if◌then◌else◌,
  Bool-cases, Option-cases, ==_iff, none_not_some,
}
use nethex.Base.Counts.{get_or-set}
use nethex.Wire.Order.{IsByte}
use nethex.PatternMatcher.{TrieNode, Trie, unlinked, node, child, root_only, descend, add_pattern}
use nethex.PatternMatcher.Words.{same_bytes, same_bytes_iff, equal_to}
use nethex.PatternMatcher.Trie.{walk, IsTrie}
use nethex.PatternMatcher.Grown.{descend-IsTrie}

walk-same :
    (t u : Trie) (n : ℕ) (s : List ℕ)
    → ((k j : ℕ) → child t k j ≡ child u k j)
    → walk t n s ≡ walk u n s
walk-same t u n [] same = refl
walk-same t u n (c ∷ s) same = elim (Option-cases (child u n c)) [
  | inl e ↦ rw (same n c, e, walk) refl
  | inr (m, e) ↦ rw (same n c, e, walk) (walk-same t u m s same)
]

equal_to-append :
    (s p : List ℕ) (patterns : List (List ℕ))
    → equal_to s (patterns ++ (p ∷ []))
      ≡ equal_to s patterns ++ (if same_bytes s p then p ∷ [] else [])
equal_to-append s p [] = refl
equal_to-append s p (q ∷ patterns) = elim (Bool-cases (same_bytes s q)) [
  | inl e ↦ rw e (ap (λ (x : List (List ℕ)). q ∷ x) (equal_to-append s p patterns))
  | inr e ↦ rw e (equal_to-append s p patterns)
]

-- Another list of patterns at a node.
module _ (t : Trie) (end : ℕ) (here : end < length t) (now : List (List ℕ)) where
  abbrev marked : Trie
  marked = set t end (record (node t end) { matched_patterns = now })

  node-marked :
      (k : ℕ)
      → node marked k
        ≡ (if end == k then record (node t end) { matched_patterns = now } else node t k)
  node-marked k = get_or-set t end k (record (node t end) { matched_patterns = now }) unlinked here

  child-marked : (k j : ℕ) → child marked k j ≡ child t k j
  child-marked k j =
      ap (λ (n : TrieNode). n.children j) (node-marked k)
      ∙ ground (arith, ap (node t) {x = k} {y = end})

  matched-marked :
      (k : ℕ)
      → (node marked k).matched_patterns ≡ (if end == k then now else (node t k).matched_patterns)
  matched-marked k = ap (λ (n : TrieNode). n.matched_patterns) (node-marked k) ∙ ground arith

module _ {patterns : List (List ℕ)} (t : Trie) (word : ℕ → List ℕ) (end : ℕ) (p : List ℕ)
    (v : IsTrie patterns t word) (here : end < length t) (spelt : word end ≡ p) where
  abbrev now : List (List ℕ)
  now = (node t end).matched_patterns ++ (p ∷ [])

  same_walk : (s : List ℕ) → walk (marked t end here now) 0 s ≡ walk t 0 s
  same_walk s = walk-same (marked t end here now) t 0 s (child-marked t end here now)

  same_length : length (marked t end here now) ≡ length t
  same_length = length-set t end (record (node t end) { matched_patterns = now })

  -- The node is the only one that spells the pattern.
  same_bytes-spelt : (n : ℕ) (s : List ℕ) → walk t 0 s ≡ some n → same_bytes s p ≡ true → n ≡ end
  same_bytes-spelt n s w same =
      let is_end : s ≡ word end = (same_bytes_iff s p).0 same ∙ sym spelt in
      let both : some n ≡ some end = sym w ∙ ap (walk t 0) is_end ∙ v.spelled end here in cc

  own_now :
      (n : ℕ)
      → n < length t
      → (node (marked t end here now) n).matched_patterns ≡ equal_to (word n) (patterns ++ (p ∷ []))
  own_now n h = elim (Bool-cases (end == n)) [
    | inl e ↦
        let at_end : end ≡ n = (==_iff end n).0 e in
        let is_p : same_bytes (word n) p ≡ true =
          (same_bytes_iff (word n) p).1 (sym (ap word at_end) ∙ spelt) in
        matched-marked t end here now n
        ∙ rw (e, equal_to-append (word n) p patterns, is_p)
            (ap (λ (x : List (List ℕ)). x ++ (p ∷ []))
              (v.own end here ∙ ap (λ (k : ℕ). equal_to (word k) patterns) at_end))
    | inr e ↦
        let not_p : same_bytes (word n) p ≡ false =
          ground (arith, same_bytes-spelt n (word n) (v.spelled n h)) in
        matched-marked t end here now n
        ∙ rw
            (e, equal_to-append (word n) p patterns, not_p, append-nil (equal_to (word n) patterns))
            (v.own n h)
  ]

  listed_now :
      (s : List ℕ)
      → walk (marked t end here now) 0 s ≡ none
      → equal_to s (patterns ++ (p ∷ [])) ≡ []
  listed_now s h = elim (Bool-cases (same_bytes s p)) [
    | inl e ↦
        let to_end : walk t 0 s ≡ some end =
          ap (walk t 0) ((same_bytes_iff s p).0 e ∙ sym spelt) ∙ v.spelled end here in
        absurd (none_not_some (sym (same_walk s) ∙ h) to_end)
    | inr e ↦
        rw (equal_to-append s p patterns, e, append-nil (equal_to s patterns))
          (v.listed s (sym (same_walk s) ∙ h))
  ]

  IsTrie-marked : IsTrie (patterns ++ (p ∷ [])) (marked t end here now) word
  IsTrie-marked = record {
    root = omega (arith, same_length, v.root);
    spelled = λ n h. same_walk (word n) ∙ v.spelled n (omega (arith, same_length));
    unique = λ s n h.
        let (inside, e) = v.unique s n (sym (same_walk s) ∙ h) in (omega (arith, same_length), e);
    bytes = λ n b m h. v.bytes n b m (sym (child-marked t end here now n b) ∙ h);
    short = λ n h. v.short n (omega (arith, same_length));
    own = λ n h. own_now n (omega (arith, same_length));
    listed = listed_now;
  }

pub add_pattern-IsTrie :
    {patterns : List (List ℕ)} (t : Trie) (word : ℕ → List ℕ) (p : List ℕ)
    → IsTrie patterns t word
    → All IsByte p
    → (word' : ℕ → List ℕ) × IsTrie (patterns ++ (p ∷ [])) (add_pattern t p) word'
unfolding add_pattern
add_pattern-IsTrie t word p v bytes =
    let (word', v', inside, e) = descend-IsTrie t word 0 p v v.root bytes in
    let (_, at_root) = v.unique [] 0 refl in
    (
      word',
      IsTrie-marked (descend t 0 p).0 word' (descend t 0 p).1 p v' inside
          (e ∙ ap (λ (x : List ℕ). x ++ p) at_root),
    )

-- The patterns one after the other.
abbrev pub add_patterns : Trie → List (List ℕ) → Trie
add_patterns t [] = t
add_patterns t (p ∷ patterns) = add_patterns (add_pattern t p) patterns

root_only-IsTrie : IsTrie [] root_only (λ n. [])
root_only-IsTrie = record {
  root = omega arith;
  spelled = λ n h. ground arith;
  unique = only_root;
  bytes = λ n b m h. absurd (none_not_some (no_child n b) h);
  short = λ n h. omega arith;
  own = λ n h. ground arith;
  listed = λ s h. refl;
}
  where
    no_child : (n b : ℕ) → child root_only n b ≡ none
    no_child zero b = refl
    no_child (suc n) b = refl

    only_root : (s : List ℕ) (n : ℕ) → walk root_only 0 s ≡ some n → (n < 1) × ([] ≡ s)
    only_root [] n h = (ground arith, refl)
    only_root (c ∷ s) n h = absurd (none_not_some refl h)

add_patterns_onto :
    {before : List (List ℕ)} (t : Trie) (word : ℕ → List ℕ) (patterns : List (List ℕ))
    → IsTrie before t word
    → All (All IsByte) patterns
    → (word' : ℕ → List ℕ) × IsTrie (before ++ patterns) (add_patterns t patterns) word'
add_patterns_onto {before} t word [] v bytes = (word, rw (append-nil before) v)
add_patterns_onto {before} t word (p ∷ patterns) v bytes =
    let (word', v') = add_pattern-IsTrie t word p v bytes.0 in
    let (word'', v'') = add_patterns_onto (add_pattern t p) word' patterns v' bytes.1 in
    (word'', rw (append_assoc before (p ∷ []) patterns) at v'')

pub add_patterns-IsTrie :
    (patterns : List (List ℕ))
    → All (All IsByte) patterns
    → (word : ℕ → List ℕ) × IsTrie patterns (add_patterns root_only patterns) word
add_patterns-IsTrie patterns bytes =
    add_patterns_onto root_only (λ n. []) patterns root_only-IsTrie bytes
