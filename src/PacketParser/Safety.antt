-- ===== src/PacketParser/Safety.antt =====
-- No parser reads outside the packet, and the offsets that they pass on stay inside it.
use nethex.Base.{
  ℕ, zero, suc, ◌+◌, ◌*◌, ◌/◌, ◌^◌, ◌≤◌, ◌<◌, ◌≡◌, inl, inr, false, List, arith, length, All,
  get_or, bit_and, ltb, Bool-cases, Returns, Returns-mono, guard_rule, in_array_rule, in_array_ok,
  ltb→ge, add32,
}
use nethex.Base.Bits.{bit_and_mask}
use nethex.Wire.{ByteOrder, ntoh16, u16_at}
use nethex.Wire.Order.{IsByte, ntoh16-lt}
use nethex.PacketParser.{
  Ethernet, IPv4, Tcp, Udp, is_vlan_tag, skip_tags, parse_ethernet, parse_ipv4, parse_tcp,
  parse_udp,
}

-- The length passed with a pointer does not exceed what lies behind it, and stays clear of 2^32.
pub record IsPacket (packet_data : List ℕ) (packet_length : ℕ) : Type 0 where
  pub inside : packet_length ≤ length packet_data
  pub small : packet_length < 2 ^ 31
  pub bytes : All IsByte packet_data

-- What the tag loop hands over, started at `s`.
abbrev PastTags : ℕ → Ethernet → Ethernet → Type 0
PastTags n s r = (s.offset ≤ r.offset) × (r.offset ≤ n) × (is_vlan_tag r.next_protocol ≡ false)

skip_tags_within :
    (o : ByteOrder) (xs : List ℕ) (fuel n : ℕ) (s : Ethernet)
    → n ≤ length xs
    → n < 2 ^ 31
    → s.offset ≤ n
    → n < fuel + s.offset
    → Returns (PastTags n s) (skip_tags o xs fuel n s)
unfolding skip_tags
skip_tags_within o xs zero n s in_xs small le f = absurd (omega arith)
skip_tags_within o xs (suc fuel) n s in_xs small le f =
    elim (Bool-cases (is_vlan_tag s.next_protocol)) [
      | inl tag ↦
          rw (tag, Returns)
            (guard_rule (PastTags n s) (ltb n (add32 s.offset 4)) _ λ room.
              let fits : s.offset + 4 ≤ n = omega (arith, ltb→ge n (add32 s.offset 4) room) in
              in_array_rule (PastTags n s) xs (s.offset + 2) 2 _ (omega arith) (
                Returns-mono (PastTags n next) (PastTags n s) (skip_tags o xs fuel n next)
                  (λ r h. (omega arith, h.1, h.2))
                  (skip_tags_within o xs fuel n next in_xs small (omega arith) (omega arith))))
      | inr last ↦ rw (last, Returns) (omega arith, le, last)
    ]
  where
    next : Ethernet
    next = record {
      offset = add32 s.offset 4;
      next_protocol = ntoh16 o (u16_at o xs (s.offset + 2));
    }

-- What each parser promises of the packet that it hands on, called at `offset` in `n` bytes.
abbrev pub EthernetPost : ℕ → ℕ → Ethernet → Type 0
EthernetPost n offset r =
    (offset + 14 ≤ r.offset) × (r.offset ≤ n) × (is_vlan_tag r.next_protocol ≡ false)

abbrev pub IPv4Post : ℕ → ℕ → IPv4 → Type 0
IPv4Post n offset r =
    (offset + 20 ≤ r.offset)
    × (r.offset ≤ offset + 60)
    × (r.offset ≤ r.packet_length)
    × (r.packet_length ≤ n)
    × (r.packet_length ≤ offset + 65535)
    × (r.fragment_offset_units < 2 ^ 13)

abbrev pub TcpPost : ℕ → ℕ → Tcp → Type 0
TcpPost n offset r =
    (offset + 20 ≤ r.offset)
    × (r.offset ≤ offset + 60)
    × (r.offset ≤ n)
    × (r.src_port < 2 ^ 16)
    × (r.dest_port < 2 ^ 16)
    × (r.tcp_flags < 2 ^ 8)

abbrev pub UdpPost : ℕ → ℕ → Udp → Type 0
UdpPost n offset r =
    (r.offset ≡ offset + 8) × (r.offset ≤ n) × (r.src_port < 2 ^ 16) × (r.dest_port < 2 ^ 16)

module _ (o : ByteOrder) {xs : List ℕ} {n : ℕ} (offset : ℕ) (v : IsPacket xs n)
    (start : offset ≤ n) where
  -- `parse_ethernet` never reads outside the packet and its loop ends. It advances by the header
  -- at least, stays inside the packet, and reports a protocol that is no VLAN tag.
  -- The packet is shorter than 2^31 bytes.
  pub parse_ethernet-Returns : Returns (EthernetPost n offset) (parse_ethernet o xs n offset)
  unfolding parse_ethernet
  parse_ethernet-Returns = guard_rule (EthernetPost n offset) (ltb n (offset + 14)) _ λ room.
      let fits : offset + 14 ≤ n = ltb→ge n (offset + 14) room in
      rw (in_array_ok xs offset 14 (omega arith), Returns)
        (Returns-mono (PastTags n first) (EthernetPost n offset) (skip_tags o xs (suc n) n first)
          (λ r h. (omega arith, h.1, h.2))
          (skip_tags_within o xs (suc n) n first (omega arith) (omega arith) (omega arith)
            (omega arith)))
    where
      first : Ethernet
      first = record {
        offset = add32 offset 14;
        next_protocol = ntoh16 o (u16_at o xs (offset + 12));
      }

  -- `parse_ipv4` never reads outside the packet. What it passes on is a header of 20 to 60 bytes,
  -- and a packet that begins behind it and is no longer than before.
  -- The packet is shorter than 2^31 bytes.
  pub parse_ipv4-Returns : Returns (IPv4Post n offset) (parse_ipv4 o xs n offset)
  unfolding parse_ipv4
  parse_ipv4-Returns = guard_rule (IPv4Post n offset) (ltb n (offset + 20)) _ λ room.
      let fits : offset + 20 ≤ n = ltb→ge n (offset + 20) room in
      let ihl : ℕ = bit_and (get_or xs offset 0) 15 in
      rw (in_array_ok xs offset 20 (omega arith), Returns)
        (guard_rule (IPv4Post n offset) (ltb ihl 5) _ λ long.
          guard_rule (IPv4Post n offset) (ltb n (add32 offset (ihl * 4))) _ λ held.
            guard_rule (IPv4Post n offset) (ltb (ntoh16 o (u16_at o xs (offset + 2))) (ihl * 4)) _
              λ total. ground (
                arith,
                bit_and_mask 4 (get_or xs offset 0),
                bit_and_mask 13 (ntoh16 o (u16_at o xs (offset + 6))),
                ntoh16-lt o xs v.bytes (offset + 2),
              ))

  -- `parse_tcp` never reads outside the packet. The payload that it finds lies behind a header of
  -- 20 to 60 bytes and begins inside the packet; the ports and flags fit their fields.
  -- The packet is shorter than 2^31 bytes.
  pub parse_tcp-Returns : Returns (TcpPost n offset) (parse_tcp o xs n offset)
  unfolding parse_tcp
  parse_tcp-Returns = guard_rule (TcpPost n offset) (ltb n (offset + 20)) _ λ room.
      let fits : offset + 20 ≤ n = ltb→ge n (offset + 20) room in
      let words : ℕ = bit_and (ntoh16 o (u16_at o xs (offset + 12)) / 2 ^ 12) 15 in
      rw (in_array_ok xs offset 20 (omega arith), Returns)
        (guard_rule (TcpPost n offset) (ltb words 5) _ λ long.
          guard_rule (TcpPost n offset) (ltb n (add32 offset (words * 4))) _ λ held. ground (
            arith,
            bit_and_mask 4 (ntoh16 o (u16_at o xs (offset + 12)) / 2 ^ 12),
            bit_and_mask 8 (ntoh16 o (u16_at o xs (offset + 12))),
            ntoh16-lt o xs v.bytes offset,
            ntoh16-lt o xs v.bytes (offset + 2),
          ))

  -- `parse_udp` never reads outside the packet, and advances by eight bytes exactly.
  pub parse_udp-Returns : Returns (UdpPost n offset) (parse_udp o xs n offset)
  unfolding parse_udp
  parse_udp-Returns = guard_rule (UdpPost n offset) (ltb n (offset + 8)) _ λ room.
      let fits : offset + 8 ≤ n = ltb→ge n (offset + 8) room in
      rw (in_array_ok xs offset 8 (omega arith), Returns)
        (
          omega arith,
          omega arith,
          ntoh16-lt o xs v.bytes offset,
          ntoh16-lt o xs v.bytes (offset + 2),
        )
