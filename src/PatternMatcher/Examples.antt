-- ===== src/PatternMatcher/Examples.antt =====
-- The patterns he, she and hers, and a text in two segments.
use nethex.Base.{ℕ, ◌≡◌, refl, List, [], ◌∷◌, accept, ◌>>=◌, arith}
use nethex.PatternMatcher.{
  Trie, root_only, descend, add_pattern, link_root, fail_node, link_children, link_levels,
  build_machine, follow, scan, search,
}
use nethex.PatternMatcher.Words.{occurrences}
use nethex.PatternMatcher.Adding.{add_patterns}
use nethex.PatternMatcher.Search.{search_segments, join_segments, build_machine-search}

abbrev he : List ℕ
he = 0x68 ∷ 0x65 ∷ []

abbrev she : List ℕ
she = 0x73 ∷ 0x68 ∷ 0x65 ∷ []

abbrev hers : List ℕ
hers = 0x68 ∷ 0x65 ∷ 0x72 ∷ 0x73 ∷ []

abbrev patterns : List (List ℕ)
patterns = he ∷ she ∷ hers ∷ []

-- us | hers
abbrev segments : List (List ℕ)
segments = (0x75 ∷ 0x73 ∷ []) ∷ (0x68 ∷ 0x65 ∷ 0x72 ∷ 0x73 ∷ []) ∷ []

-- "she" and "he" end at the same byte, and the first began in the segment before.
found_across :
    (build_machine (add_patterns root_only patterns) >>= λ machine.
    search_segments machine segments 0)
    ≡ accept (she ∷ he ∷ hers ∷ [], 7)
unfolding build_machine add_pattern descend link_root link_levels link_children fail_node search
    scan follow
found_across = refl

build_machine-search_example :
    (linked : Trie) × (final : ℕ) × (build_machine (add_patterns root_only patterns)
      ≡ accept linked)
    × (search_segments linked segments 0
        ≡ accept (occurrences patterns [] (join_segments segments), final))
build_machine-search_example =
    build_machine-search patterns segments (omega arith) (omega arith) (omega arith)
