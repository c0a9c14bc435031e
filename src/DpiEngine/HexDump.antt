-- ===== src/DpiEngine/HexDump.antt =====
-- `print_hex_dump` of src/dpi_engine.cpp, whose call is commented out: the text that it logs.
use nethex.Base.{
  ℕ, zero, suc, ◌+◌, ◌-◌, ◌*◌, ◌/◌, ◌%◌, ◌≤◌, ◌<◌, ◌≡◌, List, [], ◌∷◌, ◌++◌, ltb, if◌then◌else◌,
  arith, length, length-append, All, Outcome, accept, ◌>>=◌, read, read_in_bounds, All-get_or,
  get_or, Yields, Yields-cases,
}
use nethex.Wire.Order.{IsByte}
use nethex.PacketParser.Safety.{IsPacket}
use nethex.DpiEngine.{printable}

abbrev dump_limit : ℕ
dump_limit = 32

-- "[Hex] " and "  [ASCII] ".
abbrev hex_label : List ℕ
hex_label = 0x5B ∷ 0x48 ∷ 0x65 ∷ 0x78 ∷ 0x5D ∷ 0x20 ∷ []

abbrev ascii_label : List ℕ
ascii_label = 0x20 ∷ 0x20 ∷ 0x5B ∷ 0x41 ∷ 0x53 ∷ 0x43 ∷ 0x49 ∷ 0x49 ∷ 0x5D ∷ 0x20 ∷ []

abbrev hex_digit : ℕ → ℕ
hex_digit d = if ltb d 10 then 0x30 + d else 0x61 + (d - 10)

-- The two loops, from `i` on, with the rounds left.
hex_loop : List ℕ → ℕ → ℕ → Outcome (List ℕ)
hex_loop payload i zero = accept []
hex_loop payload i (suc left) = do
  b ← read payload i
  rest ← hex_loop payload (i + 1) left
  accept (hex_digit (b / 0x10) ∷ hex_digit (b % 0x10) ∷ 0x20 ∷ rest)

ascii_loop : List ℕ → ℕ → ℕ → Outcome (List ℕ)
ascii_loop payload i zero = accept []
ascii_loop payload i (suc left) = do
  c ← read payload i
  rest ← ascii_loop payload (i + 1) left
  accept (printable c ∷ rest)

pub print_hex_dump : List ℕ → ℕ → Outcome (List ℕ)
unfolding hex_loop ascii_loop
print_hex_dump payload payload_length = do
  let print_len = if ltb payload_length dump_limit then payload_length else dump_limit
  hex ← hex_loop payload 0 print_len
  ascii ← ascii_loop payload 0 print_len
  accept (hex_label ++ (hex ++ (ascii_label ++ ascii)))

-- A byte that a terminal shows as a character.
abbrev IsShown : ℕ → Type 0
IsShown c = (0x20 ≤ c) × (c ≤ 0x7E)

-- A text of this length of such bytes.
abbrev IsText : ℕ → List ℕ → Type 0
IsText n text = (length text ≡ n) × All IsShown text

append-IsText : (n m : ℕ) (a b : List ℕ) → IsText n a → IsText m b → IsText (n + m) (a ++ b)
append-IsText n m a b (size, shown) (size', shown') =
    (omega (arith, length-append a b, size, size'), all a shown)
  where
    all : (a : List ℕ) → All IsShown a → All IsShown (a ++ b)
    all [] h = shown'
    all (x ∷ a) h = (h.0, all a h.1)

module _ (payload : List ℕ) (bytes : All IsByte payload) where
  hex_loop-IsText :
      (i left : ℕ)
      → i + left ≤ length payload
      → Yields (IsText (3 * left)) (hex_loop payload i left)
  unfolding hex_loop
  hex_loop-IsText i zero h = (omega arith, tt)
  hex_loop-IsText i (suc left) h =
      let (rest, runs, (size, shown)) =
        Yields-cases (IsText (3 * left)) (hex_loop payload (i + 1) left)
          (hex_loop-IsText (i + 1) left (omega (arith, h))) in
      let small : get_or payload i 0 < 0x100 = All-get_or IsByte payload i 0 bytes (omega arith) in
      rw (hex_loop, read_in_bounds payload i (omega (arith, h)), runs)
        (
          omega (arith, size),
          (ground (arith, small), (ground (arith, small), ((omega arith, omega arith), shown))),
        )

  ascii_loop-IsText :
      (i left : ℕ) → i + left ≤ length payload → Yields (IsText left) (ascii_loop payload i left)
  unfolding ascii_loop
  ascii_loop-IsText i zero h = (omega arith, tt)
  ascii_loop-IsText i (suc left) h =
      let (rest, runs, (size, shown)) =
        Yields-cases (IsText left) (ascii_loop payload (i + 1) left)
          (ascii_loop-IsText (i + 1) left (omega (arith, h))) in
      rw (ascii_loop, read_in_bounds payload i (omega (arith, h)), runs)
        (omega (arith, size), (ground arith, shown))

-- The dump reads no byte outside the payload, and is printable, with four characters for each of
-- the first 32 bytes and the two labels.
pub print_hex_dump-IsText :
    {payload : List ℕ} {n : ℕ}
    → IsPacket payload n
    → Yields
        (IsText (
          6
          + (3 * (if ltb n dump_limit then n else dump_limit)
              + (10 + (if ltb n dump_limit then n else dump_limit)))))
        (print_hex_dump payload n)
unfolding print_hex_dump
print_hex_dump-IsText {payload} {n} v =
    let k : ℕ = if ltb n dump_limit then n else dump_limit in
    let fits : 0 + k ≤ length payload = ground (arith, v.inside) in
    let (hex, runs, text) =
      Yields-cases (IsText (3 * k)) (hex_loop payload 0 k)
        (hex_loop-IsText payload v.bytes 0 k fits) in
    let (ascii, runs', text') =
      Yields-cases (IsText k) (ascii_loop payload 0 k)
        (ascii_loop-IsText payload v.bytes 0 k fits) in
    rw (runs, runs')
      (append-IsText 6 (3 * k + (10 + k)) hex_label (hex ++ (ascii_label ++ ascii))
        (omega arith, omega arith)
        (append-IsText (3 * k) (10 + k) hex (ascii_label ++ ascii) text
          (append-IsText 10 k ascii_label ascii (omega arith, omega arith) text')))
