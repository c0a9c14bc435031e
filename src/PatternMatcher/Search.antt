-- ===== src/PatternMatcher/Search.antt =====
-- The scanner finds what a plain comparison at every byte would find, over any cut into segments.
use nethex.Base.{
  ℕ, suc, ◌≤◌, ◌≡◌, refl, sym, ap, ap₂, ◌∙◌, List, [], ◌∷◌, ◌++◌, append_assoc, append-nil, some,
  arith, length, drop, length-append, length-take, take, take-drop, take-length, All-take, All,
  Outcome, accept, ◌>>=◌, read-behind,
}
use nethex.Wire.Order.{IsByte}
use nethex.PatternMatcher.{Trie, root_only, node, child, follow, scan, search, build_machine}
use nethex.PatternMatcher.Words.{
  equal_to, ending, occurrences, longest, longest-snoc, ending-longest,
}
use nethex.PatternMatcher.Trie.{walk, IsTrie}
use nethex.PatternMatcher.Adding.{add_patterns, add_patterns-IsTrie}
use nethex.PatternMatcher.Links.{
  StateOf, StateOf-word, known, known-closed, fail_node_lem, follow-fail_node,
}
use nethex.PatternMatcher.Children.{unlisted}
use nethex.PatternMatcher.Levels.{IsMachine}
use nethex.PatternMatcher.Machine.{build_machine-IsMachine}

module _ {patterns : List (List ℕ)} {t : Trie} {word : ℕ → List ℕ} (v : IsTrie patterns t word)
    {linked : Trie} (machine : IsMachine v linked) where
  -- One byte: the state of the longer text, which has the patterns that it ends with.
  next_state :
      (before : List ℕ) (b n : ℕ)
      → IsByte b
      → StateOf t before n
      → (s : ℕ) × (m : ℕ) × (follow (suc (length linked)) linked b n ≡ accept s)
        × (child linked s b ≡ some m)
        × StateOf t (before ++ (b ∷ [])) m
        × ((node linked m).matched_patterns ≡ ending (before ++ (b ∷ [])) patterns)
  next_state before b n byte state =
      let (n_in, word_n) = StateOf-word v before n state in
      let (m, finds, to_m) =
        fail_node_lem v linked b byte machine.kids (suc (length linked)) n n_in
          (omega (arith, v.short n n_in, machine.size))
          λ k k_in k_ne short. machine.failed k k_in k_ne in
      let (s, stops, there) =
        follow-fail_node v linked b byte machine.kids (suc (length linked)) n m finds in
      let after : StateOf t (before ++ (b ∷ [])) m =
        ap (walk t 0) (
          longest-snoc (known t) (known-closed v) before b
          ∙ ap (λ (x : List ℕ). longest (known t) (x ++ (b ∷ []))) (sym word_n))
        ∙ to_m in
      let (m_in, word_m) = StateOf-word v (before ++ (b ∷ [])) m after in
      (
        s,
        m,
        stops,
        there,
        after,
        machine.merged m m_in
            ∙ ap (λ (x : List ℕ). ending x patterns) word_m
            ∙ ending-longest (known t) patterns (unlisted v) (before ++ (b ∷ [])),
      )

  -- The payload is what has been read of it, and what is left.
  scan-occurrences :
      (done left rest before : List ℕ) (n : ℕ) (results : List (List ℕ))
      → All IsByte left
      → StateOf t before n
      → (m : ℕ) × (scan linked (done ++ (left ++ rest)) (length left) (length done) n results
          ≡ accept (results ++ occurrences patterns before left, m))
        × StateOf t (before ++ left) m
  unfolding scan
  scan-occurrences done [] rest before n results bytes state = (
    n,
    ap (λ (x : List (List ℕ)). accept (x, n)) (sym (append-nil results)),
    ap (λ (x : List ℕ). walk t 0 (longest (known t) x)) (append-nil before) ∙ state,
  )
  scan-occurrences done (b ∷ left) rest before n results bytes state =
      let (s, m, stops, there, after, found) = next_state before b n bytes.0 state in
      let seen = read-behind done b (left ++ rest) in
      let (final, runs, to_final) =
        scan-occurrences (done ++ (b ∷ [])) left rest (before ++ (b ∷ [])) m
          (results ++ (node linked m).matched_patterns) bytes.1 after in
      let now = results ++ (node linked m).matched_patterns in
      let here : done ++ (b ∷ (left ++ rest)) ≡ (done ++ (b ∷ [])) ++ (left ++ rest) =
        sym (append_assoc done (b ∷ []) (left ++ rest)) in
      let place : suc (length done) ≡ length (done ++ (b ∷ [])) =
        omega (arith, length-append done (b ∷ [])) in
      let onward : scan linked (done ++ (b ∷ (left ++ rest))) (length left) (suc (length done)) m
            now
          ≡ accept (now ++ occurrences patterns (before ++ (b ∷ [])) left, final) =
        ap₂ (λ (xs : List ℕ) (i : ℕ). scan linked xs (length left) i m now) here place ∙ runs in
      let gathered : now ++ occurrences patterns (before ++ (b ∷ [])) left
          ≡ results ++ occurrences patterns before (b ∷ left) =
        append_assoc results (node linked m).matched_patterns
          (occurrences patterns (before ++ (b ∷ [])) left)
        ∙ ap
            (λ (x : List (List ℕ)).
              results ++ (x ++ occurrences patterns (before ++ (b ∷ [])) left))
            found in
      (
        final,
        rw (scan, seen, ◌>>=◌, stops, there) onward
            ∙ ap (λ (x : List (List ℕ)). accept (x, final)) gathered,
        ap (λ (x : List ℕ). walk t 0 (longest (known t) x))
              (sym (append_assoc before (b ∷ []) left))
            ∙ to_final,
      )

-- Segments one after the other, from state 0, as the worker calls the scanner for a flow.
abbrev pub search_segments : Trie → List (List ℕ) → ℕ → Outcome (List (List ℕ) × ℕ)
search_segments linked [] state = accept ([], state)
search_segments linked (segment ∷ segments) state = do
  (found, state') ← search linked (some segment) (length segment) state
  (later, state'') ← search_segments linked segments state'
  accept (found ++ later, state'')

abbrev pub join_segments : List (List ℕ) → List ℕ
join_segments [] = []
join_segments (segment ∷ segments) = segment ++ join_segments segments

pub occurrences-append :
    (patterns : List (List ℕ)) (before s u : List ℕ)
    → occurrences patterns before (s ++ u)
      ≡ occurrences patterns before s ++ occurrences patterns (before ++ s) u
occurrences-append patterns before [] u =
    ap (λ (x : List ℕ). occurrences patterns x u) (sym (append-nil before))
occurrences-append patterns before (b ∷ s) u =
    ap (λ (x : List (List ℕ)). ending (before ++ (b ∷ [])) patterns ++ x)
      (occurrences-append patterns (before ++ (b ∷ [])) s u
        ∙ ap
            (λ (x : List ℕ).
              occurrences patterns (before ++ (b ∷ [])) s ++ occurrences patterns x u)
            (append_assoc before (b ∷ []) s))
    ∙ sym (
        append_assoc (ending (before ++ (b ∷ [])) patterns)
          (occurrences patterns (before ++ (b ∷ [])) s)
          (occurrences patterns (before ++ (b ∷ s)) u))

module _ {patterns : List (List ℕ)} {t : Trie} {word : ℕ → List ℕ} (v : IsTrie patterns t word)
    {linked : Trie} (machine : IsMachine v linked) where
  -- A payload of which the first `n` bytes are read.
  pub search-occurrences :
      (before payload : List ℕ) (n state : ℕ)
      → n ≤ length payload
      → All IsByte payload
      → StateOf t before state
      → (m : ℕ) × (search linked (some payload) n state
          ≡ accept (occurrences patterns before (take n payload), m))
        × StateOf t (before ++ take n payload) m
  unfolding search
  search-occurrences before payload n state inside bytes at =
      let (m, runs, after) =
        scan-occurrences v machine [] (take n payload) (drop n payload) before state []
          (All-take IsByte n payload bytes) at in
      let size : length (take n payload) ≡ n = omega (arith, length-take n payload) in
      (
        m,
        ap₂ (λ (xs : List ℕ) (k : ℕ). scan linked xs k 0 state []) (sym (take-drop n payload))
              (sym size)
            ∙ runs,
        after,
      )

  search_segments-occurrences :
      (before : List ℕ) (segments : List (List ℕ)) (n : ℕ)
      → All (All IsByte) segments
      → StateOf t before n
      → (m : ℕ) × (search_segments linked segments n
          ≡ accept (occurrences patterns before (join_segments segments), m))
  search_segments-occurrences before [] n bytes state = (n, refl)
  search_segments-occurrences before (segment ∷ segments) n bytes state =
      let (m, runs, after) =
        search-occurrences before segment (length segment) n (omega arith) bytes.0 state in
      let whole = take-length segment in
      let (final, rest) =
        search_segments-occurrences (before ++ segment) segments m bytes.1
          (ap (λ (x : List ℕ). walk t 0 (longest (known t) (before ++ x))) (sym whole) ∙ after) in
      (
        final,
        rw (runs, ◌>>=◌, whole, rest)
            (ap (λ (x : List (List ℕ)). accept (x, final))
              (sym (occurrences-append patterns before segment (join_segments segments)))),
      )

abbrev pub IsNonempty : List ℕ → Type 0
IsNonempty p = 1 ≤ length p

pub equal_to-nil : (patterns : List (List ℕ)) → All IsNonempty patterns → equal_to [] patterns ≡ []
equal_to-nil [] h = refl
equal_to-nil ([] ∷ patterns) h = absurd (omega arith)
equal_to-nil ((c ∷ p) ∷ patterns) h = equal_to-nil patterns h.1

-- For any patterns, none of them empty, `build_machine` on the trie that `add_pattern` makes of them
-- returns, and `search` with its result, called on the segments of a flow one after the other with
-- the state that the last call left, from 0, always returns. It reports exactly the patterns that end
-- at each byte of the joined segments, byte by byte, the longest first and equal ones in the order
-- in which they were added.
pub build_machine-search :
    (patterns segments : List (List ℕ))
    → All (All IsByte) patterns
    → All (All IsByte) segments
    → All IsNonempty patterns
    → (linked : Trie) × (final : ℕ) × (build_machine (add_patterns root_only patterns)
        ≡ accept linked)
      × (search_segments linked segments 0
          ≡ accept (occurrences patterns [] (join_segments segments), final))
build_machine-search patterns segments bytes payload no_empty =
    let (word, v) = add_patterns-IsTrie patterns bytes in
    let (linked, builds, machine) = build_machine-IsMachine v (equal_to-nil patterns no_empty) in
    let (final, runs) = search_segments-occurrences v machine [] segments 0 payload refl in
    (linked, final, builds, runs)
