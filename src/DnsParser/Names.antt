-- ===== src/DnsParser/Names.antt =====
-- Names as RFC 1035 writes them into a message, and that the decoder reads them.
use nethex.Base.{
  ℕ, zero, suc, ◌+◌, ◌*◌, ◌%◌, ◌^◌, ◌≤◌, ◌<◌, ◌≡◌, refl, sym, ap, ◌∙◌, Bool, true, false, List, [],
  ◌∷◌, ◌++◌, append_assoc, arith, if◌then◌else◌, length, length-append, take, drop, get_or, ltb,
  leb, ◌==◌, bit_and, bit_or, accept, add32, read_in_bounds, in_array_ok, ◌>>=◌,
}
use nethex.Base.Bits.{bit_or_bytes, bit_and_top, bit_and_mask}
use nethex.PacketParser.Safety.{IsPacket}
use nethex.Wire.{big}
use nethex.Wire.Order.{byte_at-lt}
use nethex.DnsParser.Safety.{Fuelled}
use native.Mathlib.Nat.{mul-le-mul_right}
use nethex.DnsParser.{Decoder, dotted, follow_pointer, append_label, decode_loop, decode_name}

-- A name that begins at a place of the message: through how many pointers it goes, where what
-- stands at that place ends, and its labels. A name ends with a null byte; a byte from 1 to 63 is
-- the length of a label; two bytes with both top bits set point to the rest of the name.
pub data NameAt (xs : List ℕ) (n : ℕ) : ℕ → ℕ → ℕ → List (List ℕ) → Type 0 where
  root : {at : ℕ} → at < n → get_or xs at 0 ≡ 0 → NameAt xs n at 0 (at + 1) []
  label :
      {at pointers end : ℕ} {rest : List (List ℕ)} (l : List ℕ)
      → get_or xs at 0 ≡ length l
      → 1 ≤ length l
      → length l ≤ 63
      → at + 1 + length l ≤ n
      → take (length l) (drop (at + 1) xs) ≡ l
      → NameAt xs n (at + 1 + length l) pointers end rest
      → NameAt xs n at pointers end (l ∷ rest)
  pointer :
      {at pointers end : ℕ} {rest : List (List ℕ)} (high : ℕ)
      → at + 1 < n
      → high < 64
      → get_or xs at 0 ≡ 0xC0 + high
      → high * 0x100 + get_or xs (at + 1) 0 < n
      → NameAt xs n (high * 0x100 + get_or xs (at + 1) 0) pointers end rest
      → NameAt xs n at (suc pointers) (at + 2) rest

-- The labels with dots between them.
abbrev pub join : List (List ℕ) → List ℕ
join [] = []
join (l ∷ []) = l
join (l ∷ m ∷ rest) = l ++ (0x2E ∷ join (m ∷ rest))

-- The same from the left, as the code appends them.
abbrev joined_on : List ℕ → List (List ℕ) → List ℕ
joined_on out [] = out
joined_on out (l ∷ rest) = joined_on (dotted out ++ l) rest

module _ {xs : List ℕ} {n : ℕ} (v : IsPacket xs n) where
  follow_pointer_lem :
      (s : Decoder) (high : ℕ)
      → s.cursor + 1 < n
      → high < 64
      → high * 0x100 + get_or xs (s.cursor + 1) 0 < n
      → s.jumps < 16
      → follow_pointer xs n s (0xC0 + high)
        ≡ accept (record {
          cursor = high * 0x100 + get_or xs (s.cursor + 1) 0;
          jumped = true;
          post_name_offset = if s.jumped then s.post_name_offset else s.cursor + 2;
          jumps = suc s.jumps;
          out_name = s.out_name;
        })
  unfolding follow_pointer
  follow_pointer_lem s high two small inside few =
      let one_on : add32 s.cursor 1 ≡ s.cursor + 1 = omega (arith, v.small) in
      let two_on : add32 s.cursor 2 ≡ s.cursor + 2 = omega (arith, v.small) in
      let held : leb n (s.cursor + 1) ≡ false = ground arith in
      let not_over : ltb 16 (suc s.jumps) ≡ false = ground arith in
      let aimed : leb n (high * 0x100 + get_or xs (s.cursor + 1) 0) ≡ false = ground arith in
      let seen = read_in_bounds xs (s.cursor + 1) (omega (arith, v.inside)) in
      rw (one_on, two_on, held, not_over, seen, target, aimed) refl
    where
      target :
          bit_or (bit_and (0xC0 + high) 0x3F * 2 ^ 8 % 2 ^ 16) (get_or xs (s.cursor + 1) 0)
          ≡ high * 0x100 + get_or xs (s.cursor + 1) 0
      target =
          let kept : bit_and (0xC0 + high) 0x3F * 2 ^ 8 % 2 ^ 16 ≡ high * 2 ^ 8 =
            omega (arith, bit_and_mask 6 (0xC0 + high)) in
          ap (λ (t : ℕ). bit_or t (get_or xs (s.cursor + 1) 0)) kept
          ∙ bit_or_bytes high (get_or xs (s.cursor + 1) 0)
              (byte_at-lt big xs v.bytes (s.cursor + 1))

  append_label_lem :
      (s : Decoder) (l : List ℕ)
      → s.cursor + 1 + length l ≤ n
      → length l ≤ 63
      → take (length l) (drop (s.cursor + 1) xs) ≡ l
      → append_label xs n s (length l)
        ≡ accept (record {
          cursor = s.cursor + 1 + length l;
          jumped = s.jumped;
          post_name_offset = s.post_name_offset;
          jumps = s.jumps;
          out_name = dotted s.out_name ++ l;
        })
  unfolding append_label
  append_label_lem s l inside short e =
      let fits : ltb 63 (length l) ≡ false = ground arith in
      let start : add32 s.cursor 1 ≡ s.cursor + 1 = omega (arith, v.small) in
      let stop : add32 (s.cursor + 1) (length l) ≡ s.cursor + 1 + length l =
        omega (arith, v.small) in
      let held : ltb n (s.cursor + 1 + length l) ≡ false = ground arith in
      let seen = in_array_ok xs (s.cursor + 1) (length l) (omega (arith, v.inside)) in
      rw (fits, start, stop, held, seen, e) refl

  NameAt-inside :
      {at pointers end : ℕ} {labels : List (List ℕ)} → NameAt xs n at pointers end labels → at < n
  NameAt-inside (root here null) = here
  NameAt-inside (label l len some_bytes short inside e rest) = omega arith
  NameAt-inside (pointer high two small byte inside rest) = omega arith

  -- In the midst of a name.
  abbrev midway : ℕ → Bool → ℕ → ℕ → List ℕ → Decoder
  midway at jumped post jumps out = record {
    cursor = at;
    jumped = jumped;
    post_name_offset = post;
    jumps = jumps;
    out_name = out;
  }

  decode_loop_lem :
      (fuel : ℕ) {at pointers end : ℕ} {labels : List (List ℕ)}
      → NameAt xs n at pointers end labels
      → (post jumps : ℕ) (jumped : Bool) (out : List ℕ) → jumps + pointers ≤ 16
      → Fuelled n fuel (midway at jumped post jumps out)
      → decode_loop xs n fuel (midway at jumped post jumps out)
        ≡ accept (record { offset = if jumped then post else end; out_name = joined_on out labels })
  unfolding decode_loop
  decode_loop_lem zero {at} d post jumps jumped out few f =
      let few_jumps : jumps ≤ 16 = omega arith in
      absurd (omega (arith, NameAt-inside d, mul-le-mul_right (suc n) few_jumps))
  decode_loop_lem (suc fuel) (root {at} here null) post jumps jumped out few f =
      let unread : leb n at ≡ false = ground arith in
      let seen = read_in_bounds xs at (omega (arith, v.inside)) in
      let on : add32 at 1 ≡ at + 1 = omega (arith, v.small) in rw (unread, seen, null, on) refl
  decode_loop_lem (suc fuel) (label {at} l len some_bytes short inside e rest) post jumps jumped out
        few f =
      let unread : leb n at ≡ false = ground arith in
      let seen = read_in_bounds xs at (omega (arith, v.inside)) in
      let plain : (bit_and (get_or xs at 0) 0xC0 == 0xC0) ≡ false =
        ground (arith, bit_and_top (get_or xs at 0)) in
      let more : (get_or xs at 0 == 0) ≡ false = ground arith in
      let s : Decoder = midway at jumped post jumps out in
      let appended = ap (append_label xs n s) len ∙ append_label_lem s l inside short e in
      rw (unread, seen, ◌>>=◌, plain, more, appended)
        (decode_loop_lem fuel rest post jumps jumped (dotted out ++ l) few (omega arith))
  decode_loop_lem (suc fuel) (pointer {at} high two small byte inside rest) post jumps jumped out
        few f =
      let unread : leb n at ≡ false = ground arith in
      let seen = read_in_bounds xs at (omega (arith, v.inside)) in
      let marked : (bit_and (get_or xs at 0) 0xC0 == 0xC0) ≡ true =
        ground (arith, bit_and_top (get_or xs at 0)) in
      let s : Decoder = midway at jumped post jumps out in
      let followed =
        ap (follow_pointer xs n s) byte
        ∙ follow_pointer_lem s high two small inside (omega arith) in
      rw (unread, seen, ◌>>=◌, marked, followed)
        (decode_loop_lem fuel rest (if jumped then post else at + 2) (suc jumps) true out
          (omega arith) (omega arith))

-- A label more behind what has been read is a label more of the name.
joined_on-label :
    (out l : List ℕ) (rest : List (List ℕ))
    → 1 ≤ length out
    → joined_on out (l ∷ rest) ≡ joined_on (out ++ (0x2E ∷ l)) rest
joined_on-label [] l rest h = absurd (omega arith)
joined_on-label (c ∷ out) l rest h =
    ap (λ (t : List ℕ). joined_on (c ∷ t) rest) (append_assoc out (0x2E ∷ []) l)

-- Appending from the left or joining from the right.
joined_on-join :
    (out l : List ℕ) (rest : List (List ℕ))
    → 1 ≤ length (out ++ l)
    → joined_on (out ++ l) rest ≡ out ++ join (l ∷ rest)
joined_on-join out l [] h = refl
joined_on-join out l (m ∷ rest) h =
    joined_on-label (out ++ l) m rest h
    ∙ ap (λ (t : List ℕ). joined_on t rest) (sym (append_assoc (out ++ l) (0x2E ∷ []) m))
    ∙ joined_on-join (out ++ l ++ (0x2E ∷ [])) m rest (
        omega
          (arith, length-append (out ++ l) (0x2E ∷ []), length-append (out ++ l ++ (0x2E ∷ [])) m))
    ∙ append_assoc (out ++ l) (0x2E ∷ []) (join (m ∷ rest))
    ∙ append_assoc out l (0x2E ∷ join (m ∷ rest))

joined_on-labels :
    {xs : List ℕ} {n at pointers end : ℕ} {labels : List (List ℕ)}
    → NameAt xs n at pointers end labels
    → joined_on [] labels ≡ join labels
joined_on-labels (root here null) = refl
joined_on-labels (label {rest} l len some_bytes short inside e more) =
    joined_on-join [] l rest some_bytes
joined_on-labels (pointer high two small byte inside rest) = joined_on-labels rest

-- A name as RFC 1035 writes it, through at most 16 pointers, is decoded: to its labels with dots
-- between them, and with the offset behind what stands at the place where it was read, not behind
-- what a pointer leads to.
-- The message is shorter than 2^31 bytes.
pub decode_name-NameAt :
    {xs : List ℕ} {n at pointers end : ℕ} {labels : List (List ℕ)}
    → IsPacket xs n
    → NameAt xs n at pointers end labels
    → pointers ≤ 16
    → decode_name xs n at ≡ accept (record { offset = end; out_name = join labels })
unfolding decode_name
decode_name-NameAt {n} {end} v d few =
    decode_loop_lem v (17 * suc n) d 0 0 false [] (omega (arith, few)) (omega arith)
    ∙ ap (λ (t : List ℕ). accept (record { offset = end; out_name = t })) (joined_on-labels d)
