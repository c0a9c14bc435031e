-- ===== src/PatternMatcher.antt =====
-- src/pattern_matcher.cpp and include/pattern_matcher.h. The `int` -1 in `children` is `none`, and
-- the 256 children are a function of the byte; a signature is the list of its bytes. The `while`
-- loops run on fuel, which `starved` says was not enough. The nodes fit an `int`. A read of `trie`
-- outside it would give `unlinked`; the fail links and children of a machine stay inside.
pub mod Words
pub mod Trie
pub mod Grown
pub mod Adding
pub mod Links
pub mod Progress
pub mod Bytes
pub mod Children
pub mod Levels
pub mod Machine
pub mod Search
mod Examples
use nethex.Base.{
  ℕ, zero, suc, ◌+◌, ◌*◌, ◌==◌, Bool, true, false, List, [], ◌∷◌, ◌++◌, Option, none, some, Outcome,
  accept, fault, starved, ◌>>=◌, read, length, get_or, set, if◌then◌else◌,
}

pub record TrieNode : Type 0 where
  pub children : ℕ → Option ℕ
  pub fail_link : ℕ
  pub matched_patterns : List (List ℕ)

abbrev pub Trie : Type 0
Trie = List TrieNode

-- `TrieNode()`
abbrev pub unlinked : TrieNode
unlinked = record { children = λ b. none; fail_link = 0; matched_patterns = [] }

abbrev pub node : Trie → ℕ → TrieNode
node trie i = get_or trie i unlinked

abbrev pub child : Trie → ℕ → ℕ → Option ℕ
child trie i b = (node trie i).children b

-- `trie[i].children[b] = target;`
abbrev pub with_child : TrieNode → ℕ → ℕ → TrieNode
with_child n b target = record n { children = λ j. if j == b then some target else n.children j }

-- `PatternMatcher()`
abbrev pub root_only : Trie
root_only = unlinked ∷ []

-- The loop over the pattern's bytes, and the node where it ends.
pub descend : Trie → ℕ → List ℕ → Trie × ℕ
descend trie current_node [] = (trie, current_node)
descend trie current_node (c ∷ pattern) = elim (child trie current_node c) [
  | some next ↦ descend trie next pattern
  | none ↦
      descend
        (set trie current_node (with_child (node trie current_node) c (length trie))
          ++ (unlinked ∷ []))
        (length trie) pattern
]

pub add_pattern : Trie → List ℕ → Trie
add_pattern trie pattern =
    let (grown, end) = descend trie 0 pattern in
    set grown end (record (node grown end) {
      matched_patterns = (node grown end).matched_patterns ++ (pattern ∷ []);
    })

-- The children of the root, for the bytes from `i` on, and what is pushed to the queue.
pub link_root : ℕ → ℕ → Trie → List ℕ → Trie × List ℕ
link_root zero i trie q = (trie, q)
link_root (suc left) i trie q = elim (child trie 0 i) [
  | some c ↦
      link_root left (suc i) (set trie c (record (node trie c) { fail_link = 0 })) (q ++ (c ∷ []))
  | none ↦ link_root left (suc i) (set trie 0 (with_child (node trie 0) i 0)) q
]

-- From `fail_state` along the fail links to a node with a child at `i`: that child.
pub fail_node : ℕ → Trie → ℕ → ℕ → Outcome ℕ
fail_node zero trie i fail_state = starved
fail_node (suc fuel) trie i fail_state = elim (child trie fail_state i) [
  | some actual_fail_node ↦ accept actual_fail_node
  | none ↦ fail_node fuel trie i (node trie fail_state).fail_link
]

-- `trie[c]` gets its fail link, and the matches of its target.
abbrev pub link_child : Trie → ℕ → ℕ → Trie
link_child trie c actual_fail_node = set trie c (record (node trie c) {
  fail_link = actual_fail_node;
  matched_patterns =
      (node trie c).matched_patterns ++ (node trie actual_fail_node).matched_patterns;
})

-- The loop over the children of `current`, for the bytes from `i` on.
pub link_children : ℕ → ℕ → ℕ → Trie → List ℕ → Outcome (Trie × List ℕ)
link_children zero i current trie q = accept (trie, q)
link_children (suc left) i current trie q = elim (child trie current i) [
  | some c ↦ do
    actual_fail_node ← fail_node (suc (length trie)) trie i (node trie current).fail_link
    link_children left (suc i) current (link_child trie c actual_fail_node) (q ++ (c ∷ []))
  | none ↦ link_children left (suc i) current trie q
]

-- `while (!q.empty())`
pub link_levels : ℕ → Trie → List ℕ → Outcome Trie
link_levels fuel trie [] = accept trie
link_levels zero trie (current ∷ q) = starved
link_levels (suc fuel) trie (current ∷ q) = do
  (linked, q') ← link_children 256 0 current trie q
  link_levels fuel linked q'

pub build_machine : Trie → Outcome Trie
build_machine trie = let (rooted, q) = link_root 256 0 trie [] in link_levels (length trie) rooted q

-- `while (current_state != 0 && …)`
pub follow : ℕ → Trie → ℕ → ℕ → Outcome ℕ
follow zero trie byte_val current_state = starved
follow (suc fuel) trie byte_val current_state = elim (child trie current_state byte_val) [
  | some next ↦ accept current_state
  | none ↦ elim (current_state == 0) [
    | true ↦ accept current_state
    | false ↦ follow fuel trie byte_val (node trie current_state).fail_link
  ]
]

-- The loop over the payload from `i` on: the matches found and the state at its end. A child -1
-- would be the next state, and `trie[-1]` is outside the trie.
pub scan : Trie → List ℕ → ℕ → ℕ → ℕ → List (List ℕ) → Outcome (List (List ℕ) × ℕ)
scan trie payload zero i current_state results = accept (results, current_state)
scan trie payload (suc left) i current_state results = do
  byte_val ← read payload i
  state ← follow (suc (length trie)) trie byte_val current_state
  elim (child trie state byte_val) [
    | none ↦ fault
    | some next ↦ scan trie payload left (suc i) next (results ++ (node trie next).matched_patterns)
  ]

pub search : Trie → Option (List ℕ) → ℕ → ℕ → Outcome (List (List ℕ) × ℕ)
search trie none payload_length current_state = accept ([], current_state)
search trie (some payload) payload_length current_state =
    scan trie payload payload_length 0 current_state []
