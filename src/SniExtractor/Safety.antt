-- ===== src/SniExtractor/Safety.antt =====
-- The SNI extractor on hostile input: where it reads, that its loop ends, and what it hands over.
use nethex.Base.{
  ℕ, zero, suc, ◌+◌, ◌^◌, ◌≤◌, ◌<◌, ◌≡◌, refl, ap, inl, inr, false, List, arith, length,
  length-take, length-drop, take, drop, get_or, ltb, leb, ◌==◌, not, Bool-cases, Returns,
  guard_rule, read_rule, bind_rule, Returns-cases, Yields, in_array_ok, ltb→ge, add32,
}
use nethex.PacketParser.Safety.{IsPacket}
use nethex.Wire.{big}
use nethex.Wire.Order.{byte_at-lt, be16, read_u16_lem}
use nethex.SniExtractor.{
  Extensions, enter_extensions, skip_ciphers, find_extensions, server_name, find_server_name,
  extract_sni,
}

-- The bytes are those at some place of the payload.
abbrev pub SliceOf : List ℕ → ℕ → List ℕ → Type 0
SliceOf xs n name = (at : ℕ) × (at + length name ≤ n) × (take (length name) (drop at xs) ≡ name)

-- The extensions lie inside the payload.
abbrev Placed : ℕ → Extensions → Type 0
Placed n e = (e.ext_end ≤ n) × (e.offset ≤ n)

leb→lt : (a b : ℕ) → leb a b ≡ false → b < a
leb→lt a b h = ground arith

module _ {xs : List ℕ} {n : ℕ} (v : IsPacket xs n) where
  pub u16-lt : (i : ℕ) → be16 (get_or xs i 0) (get_or xs (i + 1) 0) < 2 ^ 16
  u16-lt i = omega (arith, byte_at-lt big xs v.bytes i, byte_at-lt big xs v.bytes (i + 1))

  slice_of : (at len : ℕ) → at + len ≤ n → SliceOf xs n (take len (drop at xs))
  slice_of at len h =
      let size : length (take len (drop at xs)) ≡ len =
        omega (arith, length-take len (drop at xs), length-drop at xs, v.inside) in
      (at, omega arith, ap (λ (k : ℕ). take k (drop at xs)) size)

  server_name-Returns :
      (ext_end offset : ℕ)
      → ext_end ≤ n
      → offset < 2 ^ 31
      → Returns (SliceOf xs n) (server_name xs n ext_end offset)
  unfolding server_name
  server_name-Returns ext_end offset inside near =
      guard_rule (SliceOf xs n) (ltb ext_end (add32 offset 5)) _ λ room.
        let fits : offset + 5 ≤ ext_end = omega (arith, ltb→ge ext_end (add32 offset 5) room) in
        let on : add32 offset 3 ≡ offset + 3 = omega arith in
        let len : ℕ = be16 (get_or xs (offset + 3) 0) (get_or xs (offset + 3 + 1) 0) in
        let seen = read_u16_lem xs v.bytes (offset + 3) (omega (arith, v.inside)) (omega arith) in
        rw (on, seen, Returns)
          (guard_rule (SliceOf xs n) (ltb ext_end (add32 (add32 offset 5) len)) _ λ held.
            let name_in : add32 offset 5 + len ≤ n = omega (
              arith,
              v.small,
              u16-lt (offset + 3),
              ltb→ge ext_end (add32 (add32 offset 5) len) held,
            ) in
            rw (in_array_ok xs (add32 offset 5) len (omega (arith, v.inside)), Returns)
              (slice_of (add32 offset 5) len name_in))

  find_server_name-Returns :
      (fuel ext_end offset : ℕ)
      → ext_end ≤ n
      → offset < 2 ^ 31 + 2 ^ 17
      → 1 ≤ fuel
      → n < fuel + offset
      → Returns (SliceOf xs n) (find_server_name xs n fuel ext_end offset)
  unfolding find_server_name
  find_server_name-Returns zero ext_end offset inside near some_fuel f = absurd (omega arith)
  find_server_name-Returns (suc fuel) ext_end offset inside near some_fuel f =
      guard_rule (SliceOf xs n) (ltb ext_end (add32 offset 4)) _ λ room.
        let fits : offset + 4 ≤ ext_end = omega (arith, ltb→ge ext_end (add32 offset 4) room) in
        let on : add32 offset 2 ≡ offset + 2 = omega (arith, v.small) in
        let kind = read_u16_lem xs v.bytes offset (omega (arith, v.inside)) (omega arith) in
        let size = read_u16_lem xs v.bytes (offset + 2) (omega (arith, v.inside)) (omega arith) in
        rw (kind, on, size, Returns)
          (elim (Bool-cases (be16 (get_or xs offset 0) (get_or xs (offset + 1) 0) == 0)) [
            | inl sni ↦
                rw (sni, Returns)
                  (server_name-Returns ext_end (add32 offset 4) inside (omega (arith, v.small)))
            | inr other ↦
                rw (other, Returns)
                  (find_server_name-Returns fuel ext_end _ inside
                    (omega (arith, v.small, u16-lt (offset + 2))) (omega arith)
                    (omega (arith, v.small, u16-lt (offset + 2))))
          ])

  -- Behind the compression methods.
  block_at :
      (block : ℕ) → block < 2 ^ 31 + 2 ^ 19 → Returns (Placed n) (enter_extensions xs n block)
  unfolding enter_extensions
  block_at block near = guard_rule (Placed n) (ltb n (add32 block 2)) _ λ room.
      let fits : block + 2 ≤ n = omega (arith, ltb→ge n (add32 block 2) room) in
      let total =
        read_u16_lem xs v.bytes block (omega (arith, v.inside)) (omega (arith, v.small)) in
      rw (total, Returns) (ground (arith, v.small), omega arith)

  -- Behind the session id.
  ciphers_at :
      (ciphers : ℕ) → ciphers < 2 ^ 31 + 2 ^ 18 → Returns (Placed n) (skip_ciphers xs n ciphers)
  unfolding skip_ciphers
  ciphers_at ciphers near = guard_rule (Placed n) (ltb n (add32 ciphers 2)) _ λ room.
      let fits : ciphers + 2 ≤ n = omega (arith, ltb→ge n (add32 ciphers 2) room) in
      let suites =
        read_u16_lem xs v.bytes ciphers (omega (arith, v.inside)) (omega (arith, v.small)) in
      let len : ℕ = be16 (get_or xs ciphers 0) (get_or xs (ciphers + 1) 0) in
      let compression : ℕ = add32 ciphers (2 + len) in
      rw (suites, Returns)
        (guard_rule (Placed n) (leb n compression) _ λ held.
          let here : compression < n = leb→lt n compression held in
          read_rule (Placed n) xs compression _ (omega (arith, v.inside))
            (block_at _ (omega (arith, v.small, byte_at-lt big xs v.bytes compression))))

  find_extensions-Returns : Returns (Placed n) (find_extensions xs n)
  unfolding find_extensions
  find_extensions-Returns = guard_rule (Placed n) (ltb n 5) _ λ five.
      let five_in : 5 ≤ n = ltb→ge n 5 five in
      read_rule (Placed n) xs 0 _ (omega (arith, v.inside)) (
        guard_rule (Placed n) (not (get_or xs 0 0 == 0x16)) _ λ record_type.
          guard_rule (Placed n) (ltb n 9) _ λ nine.
            let nine_in : 9 ≤ n = ltb→ge n 9 nine in
            read_rule (Placed n) xs 5 _ (omega (arith, v.inside)) (
              guard_rule (Placed n) (not (get_or xs 5 0 == 0x01)) _ λ hello.
                guard_rule (Placed n) (leb n 43) _ λ random.
                  let more : 43 < n = leb→lt n 43 random in
                  read_rule (Placed n) xs 43 _ (omega (arith, v.inside))
                    (ciphers_at _ (omega (arith, byte_at-lt big xs v.bytes 43)))))

  -- `extract_sni` never reads outside the payload and always ends, and on every input hands over
  -- bytes that stand at some place of the payload, or none.
  -- The payload is shorter than 2^31 bytes.
  pub extract_sni-Yields : Yields (SliceOf xs n) (extract_sni xs n)
  unfolding extract_sni
  extract_sni-Yields =
      let searched : Returns (SliceOf xs n) _ =
        bind_rule (SliceOf xs n) (Placed n) (find_extensions xs n)
          (λ e. find_server_name xs n (suc n) e.ext_end e.offset) find_extensions-Returns
          λ e placed.
            find_server_name-Returns (suc n) e.ext_end e.offset placed.0
              (omega (arith, v.small, placed.1)) (omega arith) (omega arith) in
      elim (Returns-cases (SliceOf xs n) _ searched) [
        | inl (name, e, slice) ↦ rw (e, Yields) slice
        | inr e ↦ rw (e, Yields) (0, omega arith, refl)
      ]
