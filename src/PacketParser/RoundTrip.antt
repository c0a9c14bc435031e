-- ===== src/PacketParser/RoundTrip.antt =====
-- What is written into a frame is what the parsers find.
use nethex.Base.{
  ℕ, subst, zero, suc, ◌+◌, ◌*◌, ◌/◌, ◌%◌, ◌^◌, ◌≤◌, ◌<◌, ◌≡◌, refl, ap, ◌∙◌, true, false, not,
  List, [], ◌∷◌, arith, length, get_or, All, bit_and, ltb, ◌==◌, accept, in_array_ok, if◌then◌else◌,
  ge→ltb,
}
use nethex.Base.Bits.{bit_and_mask, bit_and_bit13}
use nethex.Wire.{ByteOrder, ntoh16, u16_at}
use nethex.PacketParser.{is_vlan_tag, skip_tags, parse_ethernet, parse_ipv4, parse_tcp, parse_udp}
use nethex.PacketParser.Frames.{
  Tag, IsTag, bytes16, first_type, tag_bytes, link_bytes, IpFields, IsIp, fragment_word, ip_bytes,
  TcpFields, IsTcp, tcp_bytes, UdpFields, udp_bytes,
}
use nethex.PacketParser.Fields.{IsAt, get_or-IsAt, skip, past, ntoh16-bytes16, ntoh32-bytes32}

-- `k` to `n` bounds what a parser may read.
pub record IsRoom (xs : List ℕ) (n : ℕ) : Type 0 where
  pub inside : n ≤ length xs
  pub small : n < 2 ^ 31

module _ {h : IpFields} (v : IsIp h) where
  fragment_word-lt : fragment_word h < 2 ^ 16
  fragment_word-lt = ground (arith, v.units)

  units_lem : bit_and (fragment_word h) 0x1FFF ≡ h.fragment_offset_units
  units_lem = bit_and_mask 13 (fragment_word h) ∙ ground (arith, v.units)

  more_fragments_lem : not (bit_and (fragment_word h) 0x2000 == 0) ≡ h.more_fragments
  more_fragments_lem = ground (arith, bit_and_bit13 (fragment_word h), v.units)

tagged : (t : Tag) → IsTag t → is_vlan_tag t.protocol ≡ true
tagged t v = ground (arith, v)

first_type-lt :
    (tags : List Tag) {ethertype : ℕ}
    → All IsTag tags
    → ethertype < 2 ^ 16
    → first_type tags ethertype < 2 ^ 16
first_type-lt [] v h = h
first_type-lt (t ∷ tags) v h = ground (arith, v.0)

-- Where the bytes that follow a header begin.
pub IsAt-tag_bytes :
    {xs : List ℕ} (tags : List Tag) (ethertype : ℕ) {rest : List ℕ} (j : ℕ)
    → IsAt xs j (tag_bytes tags ethertype rest)
    → IsAt xs (j + 4 * length tags) rest
IsAt-tag_bytes [] ethertype j at = past [] at (omega arith)
IsAt-tag_bytes {xs = xs} (t ∷ tags) ethertype {rest = rest} j at =
    let sum : j + 4 + 4 * length tags ≡ j + 4 * length (t ∷ tags) = omega arith in
    subst (λ (i : ℕ). IsAt xs i rest) sum
      (IsAt-tag_bytes tags ethertype (j + 4) (skip at 4 (omega arith) refl))

pub IsAt-link_bytes :
    {xs : List ℕ} (addresses : List ℕ) (tags : List Tag) (ethertype : ℕ) {rest : List ℕ}
    → length addresses ≡ 12
    → IsAt xs 0 (link_bytes addresses tags ethertype rest)
    → IsAt xs (14 + 4 * length tags) rest
IsAt-link_bytes addresses tags ethertype twelve at =
    IsAt-tag_bytes tags ethertype 14
      (skip (past {j = 12} addresses at (omega (arith, twelve))) 2 (omega arith) refl)

module _ {xs : List ℕ} {k : ℕ} where
  pub IsAt-ip_bytes :
      {h : IpFields} (size : ℕ) {rest : List ℕ}
      → IsIp h
      → IsAt xs k (ip_bytes h size rest)
      → IsAt xs (k + 20 + h.words * 4) rest
  IsAt-ip_bytes {h = h} size v at =
      past h.options (skip at 20 (omega arith) refl) (omega (arith, v.options))

  pub IsAt-tcp_bytes :
      {h : TcpFields} {rest : List ℕ}
      → IsTcp h
      → IsAt xs k (tcp_bytes h rest)
      → IsAt xs (k + 20 + h.words * 4) rest
  IsAt-tcp_bytes {h = h} v at =
      past h.options (skip at 20 (omega arith) refl) (omega (arith, v.options))

module _ (o : ByteOrder) {xs : List ℕ} {n : ℕ} (room : IsRoom xs n) where
  skip_tags-tag_bytes :
      (tags : List Tag) (ethertype : ℕ) (rest : List ℕ) (fuel j : ℕ)
      → All IsTag tags
      → is_vlan_tag ethertype ≡ false
      → ethertype < 2 ^ 16
      → IsAt xs j (tag_bytes tags ethertype rest)
      → j + 4 * length tags ≤ n
      → length tags < fuel
      → skip_tags o xs fuel n (record { offset = j; next_protocol = first_type tags ethertype })
        ≡ accept (record { offset = j + 4 * length tags; next_protocol = ethertype })
  unfolding skip_tags
  skip_tags-tag_bytes tags ethertype rest zero j v plain short at fits enough = absurd (omega arith)
  skip_tags-tag_bytes [] ethertype rest (suc fuel) j v plain short at fits enough =
      let here : j ≡ j + 4 * length {A = Tag} [] = omega arith in
      rw (skip_tags, plain)
        (ap (λ (i : ℕ). accept (record { offset = i; next_protocol = ethertype })) here)
  skip_tags-tag_bytes (t ∷ tags) ethertype rest (suc fuel) j v plain short at fits enough =
      let next : (j + 4) % 2 ^ 32 ≡ j + 4 = omega (arith, fits, room.small) in
      rw
        (
          skip_tags,
          tagged t v.0,
          next,
          ge→ltb n (j + 4) (omega (arith, fits)),
          in_array_ok xs (j + 2) 2 (omega (arith, fits, room.inside)),
          ntoh16-bytes16 at o (first_type tags ethertype) 2 refl (first_type-lt tags v.1 short) refl
              refl,
        )
        (skip_tags-tag_bytes tags ethertype rest fuel (j + 4) v.1 plain short
            (skip at 4 (omega arith) refl) (omega (arith, fits)) (omega (arith, enough))
          ∙ ap (λ (i : ℕ). accept (record { offset = i; next_protocol = ethertype })) sum)
    where
      sum : j + 4 + 4 * length tags ≡ j + 4 * suc (length tags)
      sum = omega arith

  pub parse_ethernet-link_bytes :
      (addresses : List ℕ) (tags : List Tag) (ethertype : ℕ) (rest : List ℕ)
      → length addresses ≡ 12
      → All IsTag tags
      → is_vlan_tag ethertype ≡ false
      → ethertype < 2 ^ 16
      → IsAt xs 0 (link_bytes addresses tags ethertype rest)
      → 14 + 4 * length tags ≤ n
      → parse_ethernet o xs n 0
        ≡ accept (record { offset = 14 + 4 * length tags; next_protocol = ethertype })
  unfolding parse_ethernet
  parse_ethernet-link_bytes addresses tags ethertype rest twelve v plain short at fits =
      let behind : IsAt xs 12
          (bytes16 (first_type tags ethertype) (tag_bytes tags ethertype rest)) =
        past addresses at (omega (arith, twelve)) in
      rw
        (
          ge→ltb n 14 (omega (arith, fits)),
          in_array_ok xs 0 14 (omega (arith, fits, room.inside)),
          ntoh16-bytes16 behind o (first_type tags ethertype) {j = 12} 0 refl
              (first_type-lt tags v short) refl refl,
        )
        (skip_tags-tag_bytes tags ethertype rest (suc n) 14 v plain short
          (skip behind 2 (omega arith) refl) fits (omega (arith, fits)))

module _ (o : ByteOrder) {xs : List ℕ} {k n : ℕ} (room : IsRoom xs n) where
  pub parse_ipv4-ip_bytes :
      {h : IpFields} (size : ℕ) (rest : List ℕ)
      → IsIp h
      → IsAt xs k (ip_bytes h size rest)
      → 20 + h.words * 4 + size < 2 ^ 16
      → k + 20 + h.words * 4 + size ≤ n
      → parse_ipv4 o xs n k
        ≡ accept (record {
          packet_length = k + 20 + h.words * 4 + size;
          offset = k + 20 + h.words * 4;
          src_ip = h.src_ip;
          dest_ip = h.dest_ip;
          next_protocol = h.protocol;
          identification = h.identification;
          fragment_offset_units = h.fragment_offset_units;
          more_fragments = h.more_fragments;
        })
  unfolding parse_ipv4
  parse_ipv4-ip_bytes {h = h} size rest v at total fits =
      rw
        (
          ge→ltb n (k + 20) (omega (arith, fits)),
          in_array_ok xs k 20 (omega (arith, room.inside, fits)),
          ihl,
          total_read,
          ge→ltb (5 + h.words) 5 (omega arith),
          payload,
          ge→ltb n (k + 20 + h.words * 4) (omega (arith, fits)),
          ge→ltb (20 + h.words * 4 + size) ((5 + h.words) * 4) (omega arith),
          packet_end,
          ntoh32-bytes32 at o h.src_ip 12 refl v.src_ip refl refl refl refl,
          ntoh32-bytes32 at o h.dest_ip 16 refl v.dest_ip refl refl refl refl,
          get_or-IsAt at {j = k + 9} 9 refl,
          ntoh16-bytes16 at o h.identification 4 refl v.identification refl refl,
          ntoh16-bytes16 at o (fragment_word h) 6 refl (fragment_word-lt v) refl refl,
          more_fragments_lem v,
          units_lem v,
        )
        refl
    where
      payload : (k + (5 + h.words) * 4) % 2 ^ 32 ≡ k + 20 + h.words * 4
      payload = omega (arith, fits, room.small)

      packet_end :
          (if ltb ((k + (20 + h.words * 4 + size)) % 2 ^ 32) n
            then (k + (20 + h.words * 4 + size)) % 2 ^ 32
            else n)
          ≡ k + 20 + h.words * 4 + size
      packet_end = ground (arith, fits, room.small)

      version : get_or xs k 0 ≡ 0x45 + h.words
      version = get_or-IsAt at 0 (omega arith)

      ihl : bit_and (get_or xs k 0) 0x0F ≡ 5 + h.words
      ihl =
          ap (λ (b : ℕ). bit_and b 0x0F) version
          ∙ omega (arith, bit_and_mask 4 (0x45 + h.words), v.few)

      total_read : ntoh16 o (u16_at o xs (k + 2)) ≡ 20 + h.words * 4 + size
      total_read = ntoh16-bytes16 at o (20 + h.words * 4 + size) 2 refl total refl refl

  pub parse_tcp-tcp_bytes :
      {h : TcpFields} (rest : List ℕ)
      → IsTcp h
      → IsAt xs k (tcp_bytes h rest)
      → k + 20 + h.words * 4 ≤ n
      → parse_tcp o xs n k
        ≡ accept (record {
          offset = k + 20 + h.words * 4;
          src_port = h.src_port;
          dest_port = h.dest_port;
          tcp_flags = h.flags;
        })
  unfolding parse_tcp
  parse_tcp-tcp_bytes {h = h} rest v at fits =
      rw
        (
          ge→ltb n (k + 20) (omega (arith, fits)),
          in_array_ok xs k 20 (omega (arith, room.inside, fits)),
          ntoh16-bytes16 at o word 12 refl (omega (arith, v.few, v.reserved, v.flags)) high low,
          data_offset,
          ge→ltb (5 + h.words) 5 (omega arith),
          payload,
          ge→ltb n (k + 20 + h.words * 4) fits,
          ntoh16-bytes16 at o h.src_port {j = k} 0 (omega arith) v.src_port refl refl,
          ntoh16-bytes16 at o h.dest_port 2 refl v.dest_port refl refl,
          flags,
        )
        refl
    where
      word : ℕ
      word = ((5 + h.words) * 0x10 + h.reserved) * 0x100 + h.flags

      high : (5 + h.words) * 0x10 + h.reserved ≡ word / 0x100
      high = omega (arith, v.flags)

      low : h.flags ≡ word % 0x100
      low = omega (arith, v.flags)

      data_offset : bit_and (word / 2 ^ 12) 0x0F ≡ 5 + h.words
      data_offset = omega (arith, bit_and_mask 4 (word / 2 ^ 12), v.few, v.reserved, v.flags)

      flags : bit_and word 0xFF ≡ h.flags
      flags = omega (arith, bit_and_mask 8 word, v.flags)

      payload : (k + (5 + h.words) * 4) % 2 ^ 32 ≡ k + 20 + h.words * 4
      payload = omega (arith, fits, room.small)

  pub parse_udp-udp_bytes :
      (h : UdpFields) (size : ℕ) (rest : List ℕ)
      → h.src_port < 2 ^ 16
      → h.dest_port < 2 ^ 16
      → IsAt xs k (udp_bytes h size rest)
      → k + 8 ≤ n
      → parse_udp o xs n k
        ≡ accept (record { offset = k + 8; src_port = h.src_port; dest_port = h.dest_port })
  unfolding parse_udp
  parse_udp-udp_bytes h size rest src dest at fits =
      let payload : (k + 8) % 2 ^ 32 ≡ k + 8 = omega (arith, fits, room.small) in
      rw
        (
          ge→ltb n (k + 8) fits,
          in_array_ok xs k 8 (omega (arith, room.inside, fits)),
          ntoh16-bytes16 at o h.src_port {j = k} 0 (omega arith) src refl refl,
          ntoh16-bytes16 at o h.dest_port 2 refl dest refl refl,
          payload,
        )
        refl
