-- ===== src/RuleManager.antt =====
-- src/rule_manager.cpp. The file is what `std::ifstream` reads of it, or `none` if it cannot be
-- opened. A line is the list of its bytes; `npos` is `none`.
pub mod Signatures
pub mod Lines
mod Examples
use nethex.Base.{
  ℕ, zero, suc, ◌+◌, ◌-◌, Bool, true, false, ◌&&◌, ◌==◌, List, [], ◌∷◌, ◌++◌, Option, none, some,
  length, take, drop, if◌then◌else◌,
}
use nethex.PatternMatcher.{Trie, add_pattern}

-- `std::getline` until it fails: the text up to each newline, and what is left if it is not empty.
abbrev pub split_lines : List ℕ → List ℕ → List (List ℕ)
split_lines [] [] = []
split_lines (c ∷ line) [] = (c ∷ line) ∷ []
split_lines line (c ∷ rest) = elim (c == 0x0A) [
  | true ↦ line ∷ split_lines [] rest
  | false ↦ split_lines (line ++ (c ∷ [])) rest
]

abbrev pub begins_with : List ℕ → List ℕ → Bool
begins_with [] text = true
begins_with (c ∷ needle) [] = false
begins_with (c ∷ needle) (d ∷ text) = c == d && begins_with needle text

-- `find`, in the text that stands at place `at`.
abbrev pub find_at : List ℕ → List ℕ → ℕ → Option ℕ
find_at needle [] at = if begins_with needle [] then some at else none
find_at needle (c ∷ text) at =
    let further = find_at needle text (suc at) in
    if begins_with needle (c ∷ text) then some at else further

-- `text.find(needle, from)`
abbrev pub find : List ℕ → List ℕ → ℕ → Option ℕ
find text needle from = find_at needle (drop from text) from

-- `text.substr(from, count)`
abbrev pub substr : List ℕ → ℕ → ℕ → List ℕ
substr text from count = take count (drop from text)

-- content:"
abbrev pub content_keyword : List ℕ
content_keyword = 0x63 ∷ 0x6F ∷ 0x6E ∷ 0x74 ∷ 0x65 ∷ 0x6E ∷ 0x74 ∷ 0x3A ∷ 0x22 ∷ []

-- `line.empty() || line[0] == '#'`
abbrev pub is_skipped : List ℕ → Bool
is_skipped [] = true
is_skipped (c ∷ line) = c == 0x23

-- The signature up to the closing quote, unless it is empty.
unfoldable pub quoted : List ℕ → ℕ → Option (List ℕ)
quoted line start_pos = elim (find line (0x22 ∷ []) start_pos) [
  | none ↦ none
  | some end_pos ↦ elim (substr line start_pos (end_pos - start_pos)) [
    | [] ↦ none
    | c ∷ signature ↦ some (c ∷ signature)
  ]
]

-- What a line adds to the scanner.
unfoldable pub line_signature : List ℕ → Option (List ℕ)
line_signature line = if is_skipped line then none else elim (find line content_keyword 0) [
  | none ↦ none
  | some start_pos ↦ quoted line (start_pos + length content_keyword)
]

pub load_lines : List (List ℕ) → Trie → Trie
load_lines [] scanner = scanner
load_lines (line ∷ lines) scanner = elim (line_signature line) [
  | none ↦ load_lines lines scanner
  | some signature ↦ load_lines lines (add_pattern scanner signature)
]

pub load_rules : Option (List ℕ) → Trie → Bool × Trie
load_rules none scanner = (false, scanner)
load_rules (some file) scanner = (true, load_lines (split_lines [] file) scanner)
