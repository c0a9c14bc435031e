-- ===== src/SniExtractor/Hello.antt =====
-- A ClientHello in its TLS record, as RFC 5246 and RFC 6066 lay it out, and its server name.
use nethex.Base.{
  ℕ, zero, suc, ◌+◌, ◌≤◌, ◌<◌, ◌≡◌, ◌≢◌, refl, ap, ◌∙◌, true, false, List, arith, length, take,
  drop, get_or, ltb, leb, ◌==◌, accept, ◌>>=◌, read_in_bounds, in_array_ok, add32,
}
use nethex.PacketParser.Safety.{IsPacket}
use nethex.Wire.Order.{be16, read_u16_lem}
use nethex.SniExtractor.{
  enter_extensions, skip_ciphers, find_extensions, server_name, find_server_name, extract_sni,
}
use nethex.SniExtractor.Safety.{u16-lt}

abbrev pub u16 : List ℕ → ℕ → ℕ
u16 xs i = be16 (get_or xs i 0) (get_or xs (i + 1) 0)

-- Extensions up to `end` of which the first of type 0 holds the name: a type and a length of two
-- bytes each, then the contents; those of type 0 begin with a list's length, a name's type and its
-- length.
pub data ExtensionsAt (xs : List ℕ) (end : ℕ) : ℕ → List ℕ → Type 0 where
  server_name_ext :
      {at : ℕ} (name : List ℕ)
      → u16 xs at ≡ 0
      → u16 xs (at + 7) ≡ length name
      → at + 9 + length name ≤ end
      → take (length name) (drop (at + 9) xs) ≡ name
      → ExtensionsAt xs end at name
  other_ext :
      {at : ℕ} {name : List ℕ}
      → u16 xs at ≢ 0
      → at + 4 ≤ end
      → ExtensionsAt xs end (at + 4 + u16 xs (at + 2)) name
      → ExtensionsAt xs end at name

-- Where the parts of the message begin.
abbrev pub ciphers_of : List ℕ → ℕ
ciphers_of xs = 44 + get_or xs 43 0

abbrev pub compression_of : List ℕ → ℕ
compression_of xs = ciphers_of xs + 2 + u16 xs (ciphers_of xs)

abbrev pub block_of : List ℕ → ℕ
block_of xs = compression_of xs + 1 + get_or xs (compression_of xs) 0

pub record HelloWith (xs : List ℕ) (n : ℕ) (name : List ℕ) : Type 0 where
  pub record_type : get_or xs 0 0 ≡ 0x16
  pub handshake_type : get_or xs 5 0 ≡ 0x01
  pub whole : block_of xs + 2 + u16 xs (block_of xs) ≤ n
  pub extensions : ExtensionsAt xs (block_of xs + 2 + u16 xs (block_of xs)) (block_of xs + 2) name

module _ {xs : List ℕ} {n : ℕ} (v : IsPacket xs n) where
  server_name_lem :
      {end : ℕ} (at : ℕ) (name : List ℕ)
      → end ≤ n
      → u16 xs (at + 7) ≡ length name
      → at + 9 + length name ≤ end
      → take (length name) (drop (at + 9) xs) ≡ name
      → server_name xs n end (at + 4) ≡ accept name
  unfolding server_name
  server_name_lem {end} at name inside counted held e =
      let to_length : add32 (at + 4) 3 ≡ at + 7 = omega (arith, v.small) in
      let to_name : add32 (at + 4) 5 ≡ at + 9 = omega (arith, v.small) in
      let room : ltb end (at + 9) ≡ false = ground arith in
      let len =
        read_u16_lem xs v.bytes (at + 7) (omega (arith, v.inside)) (omega (arith, v.small)) in
      let to_end : add32 (at + 9) (length name) ≡ at + 9 + length name = omega (arith, v.small) in
      let fits : ltb end (at + 9 + length name) ≡ false = ground arith in
      let seen = in_array_ok xs (at + 9) (length name) (omega (arith, v.inside)) in
      rw (to_length, to_name, room, len ∙ ap accept counted, ◌>>=◌, to_end, fits, seen, e) refl

  find_server_name_lem :
      (fuel : ℕ) {end at : ℕ} {name : List ℕ}
      → end ≤ n
      → 1 ≤ fuel
      → n < fuel + at
      → ExtensionsAt xs end at name
      → find_server_name xs n fuel end at ≡ accept name
  unfolding find_server_name
  find_server_name_lem zero inside some_fuel f d = absurd (omega arith)
  find_server_name_lem (suc fuel) {end} {at} inside some_fuel f
        (server_name_ext name kind counted held e) =
      let on : add32 at 4 ≡ at + 4 = omega (arith, v.small) in
      let to_size : add32 at 2 ≡ at + 2 = omega (arith, v.small) in
      let room : ltb end (at + 4) ≡ false = ground arith in
      let type_read =
        read_u16_lem xs v.bytes at (omega (arith, v.inside)) (omega (arith, v.small)) in
      let size_read =
        read_u16_lem xs v.bytes (at + 2) (omega (arith, v.inside)) (omega (arith, v.small)) in
      let is_sni : (u16 xs at == 0) ≡ true = ground arith in
      rw (on, to_size, room, type_read, size_read, ◌>>=◌, is_sni, on)
        (server_name_lem at name inside counted held e)
  find_server_name_lem (suc fuel) {end} {at} inside some_fuel f (other_ext kind held more) =
      let on : add32 at 4 ≡ at + 4 = omega (arith, v.small) in
      let to_size : add32 at 2 ≡ at + 2 = omega (arith, v.small) in
      let room : ltb end (at + 4) ≡ false = ground arith in
      let type_read =
        read_u16_lem xs v.bytes at (omega (arith, v.inside)) (omega (arith, v.small)) in
      let size_read =
        read_u16_lem xs v.bytes (at + 2) (omega (arith, v.inside)) (omega (arith, v.small)) in
      let is_other : (u16 xs at == 0) ≡ false = ground arith in
      let next : add32 (at + 4) (u16 xs (at + 2)) ≡ at + 4 + u16 xs (at + 2) =
        omega (arith, v.small, u16-lt v (at + 2)) in
      rw (on, to_size, room, type_read, size_read, ◌>>=◌, is_other, on, next)
        (find_server_name_lem fuel inside (omega arith) (omega arith) more)

  enter_extensions_lem :
      (block : ℕ)
      → block + 2 + u16 xs block ≤ n
      → enter_extensions xs n block
        ≡ accept (record { offset = block + 2; ext_end = block + 2 + u16 xs block })
  unfolding enter_extensions
  enter_extensions_lem block whole =
      let on : add32 block 2 ≡ block + 2 = omega (arith, v.small) in
      let to_end : add32 (block + 2) (u16 xs block) ≡ block + 2 + u16 xs block =
        omega (arith, v.small) in
      let room : ltb n (block + 2) ≡ false = ground arith in
      let total =
        read_u16_lem xs v.bytes block (omega (arith, v.inside)) (omega (arith, v.small)) in
      let inside : ltb n (block + 2 + u16 xs block) ≡ false = ground arith in
      rw (on, room, total, ◌>>=◌, to_end, inside) refl

  find_extensions_lem :
      {name : List ℕ}
      → HelloWith xs n name
      → find_extensions xs n
        ≡ accept
            (record { offset = block_of xs + 2; ext_end = block_of xs + 2 + u16 xs (block_of xs) })
  unfolding find_extensions skip_ciphers
  find_extensions_lem h =
      let fits : block_of xs + 2 + u16 xs (block_of xs) ≤ n = h.whole in
      let five : ltb n 5 ≡ false = ground arith in
      let nine : ltb n 9 ≡ false = ground arith in
      let random : leb n 43 ≡ false = ground arith in
      let type_read = read_in_bounds xs 0 (omega (arith, v.inside)) in
      let hello_read = read_in_bounds xs 5 (omega (arith, v.inside)) in
      let session_read = read_in_bounds xs 43 (omega (arith, v.inside)) in
      let ciphers : add32 43 (1 + get_or xs 43 0) ≡ ciphers_of xs = omega (arith, v.small) in
      let on : add32 (ciphers_of xs) 2 ≡ ciphers_of xs + 2 = omega (arith, v.small) in
      let room : ltb n (ciphers_of xs + 2) ≡ false = ground arith in
      let suites =
        read_u16_lem xs v.bytes (ciphers_of xs) (omega (arith, v.inside))
          (omega (arith, v.small)) in
      let compression : add32 (ciphers_of xs) (2 + u16 xs (ciphers_of xs)) ≡ compression_of xs =
        omega (arith, v.small) in
      let held : leb n (compression_of xs) ≡ false = ground arith in
      let methods = read_in_bounds xs (compression_of xs) (omega (arith, v.inside)) in
      let block : add32 (compression_of xs) (1 + get_or xs (compression_of xs) 0) ≡ block_of xs =
        omega (arith, v.small) in
      rw
        (
          five,
          type_read ∙ ap accept h.record_type,
          nine,
          hello_read ∙ ap accept h.handshake_type,
          random,
          session_read,
          ◌>>=◌,
          ciphers,
          on,
          room,
          suites,
          compression,
          held,
          methods,
          block,
          enter_extensions_lem (block_of xs) h.whole,
        )
        refl

  -- From a ClientHello in one record that the payload holds whole, with extensions of which one is
  -- of type 0, `extract_sni` returns the server name of the first such extension.
  -- The payload is shorter than 2^31 bytes.
  pub extract_sni-HelloWith : {name : List ℕ} → HelloWith xs n name → extract_sni xs n ≡ accept name
  unfolding extract_sni
  extract_sni-HelloWith h =
      let found = find_server_name_lem (suc n) h.whole (omega arith) (omega arith) h.extensions in
      rw (extract_sni, find_extensions_lem h, ◌>>=◌, found) refl
