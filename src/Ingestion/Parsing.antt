-- ===== src/Ingestion/Parsing.antt =====
-- What the parsers of the ingestion thread hand over, over any packet.
use nethex.Base.{
  ℕ, ◌≤◌, ◌≡◌, refl, inl, inr, not, List, none, arith, ◌==◌, ltb, Bool-cases, if◌then◌else◌,
  Outcome, accept, ◌>>=◌, Returns, guard_rule, bind_rule,
}
use nethex.Wire.{ByteOrder, no_payload}
use nethex.PacketParser.{parse_ethernet, parse_ipv4, parse_tcp, parse_udp}
use nethex.PacketParser.Safety.{
  IsPacket, EthernetPost, IPv4Post, TcpPost, UdpPost, parse_ethernet-Returns, parse_ipv4-Returns,
  parse_tcp-Returns, parse_udp-Returns,
}
use nethex.Ingestion.{
  Network, Parsed, Phase, borrowing, dispatching, dispatched, abandoned, parse_transport,
  parse_packet,
}

-- What the parsers have found: the payload lies inside the packet, and nothing is borrowed yet.
pub record IsParsed (packet_len : ℕ) (r : Parsed) : Type 0 where
  pub room : r.offset ≤ r.packet_len
  pub inside : r.packet_len ≤ packet_len
  pub no_slot : r.envelope.pool_slot_id ≡ no_payload
  pub no_pointer : r.envelope.payload_ptr ≡ none
  pub no_length : r.envelope.payload_length ≡ 0

-- What the thread relies on: the packet that is handed on begins inside it, and is no longer.
abbrev pub NetworkPost : ℕ → Network → Type 0
NetworkPost n r = (r.offset ≤ r.packet_length) × (r.packet_length ≤ n)

parse_transport-Returns :
    (o : ByteOrder) {xs : List ℕ} {n : ℕ} (ip : Network)
    → IsPacket xs n
    → NetworkPost n ip
    → Returns (IsParsed n) (parse_transport o xs ip)
unfolding parse_transport
parse_transport-Returns o {xs} {n} ip v (room, within) =
    let v' : IsPacket xs ip.packet_length = record {
      inside = omega (arith, v.inside);
      small = omega (arith, v.small);
      bytes = v.bytes;
    } in
    elim (Bool-cases (ip.next_protocol == 6)) [
      | inl tcp ↦
          rw (parse_transport, tcp)
            (bind_rule (IsParsed n) (TcpPost ip.packet_length ip.offset)
              (parse_tcp o xs ip.packet_length ip.offset) _ (parse_tcp-Returns o ip.offset v' room)
              λ t h. record {
                room = h.2;
                inside = within;
                no_slot = refl;
                no_pointer = refl;
                no_length = refl;
              })
      | inr other ↦ elim (Bool-cases (ip.next_protocol == 17)) [
        | inl udp ↦
            rw (parse_transport, other, udp)
              (bind_rule (IsParsed n) (UdpPost ip.packet_length ip.offset)
                (parse_udp o xs ip.packet_length ip.offset) _
                (parse_udp-Returns o ip.offset v' room)
                λ t h. record {
                  room = h.1;
                  inside = within;
                  no_slot = refl;
                  no_pointer = refl;
                  no_length = refl;
                })
        | inr skipped ↦ rw (parse_transport, other, skipped) tt
      ]
    ]

-- The first phase of a packet.
abbrev pub IsStarted : ℕ → Phase → Type 0
IsStarted n (borrowing r) = IsParsed n r
IsStarted n (dispatching p) =
    (p.pool_slot_id ≡ no_payload) × (p.payload_ptr ≡ none) × (p.payload_length ≡ 0)
IsStarted n (dispatched p) = ⊥
IsStarted n abandoned = ⊥

start-IsStarted :
    (n : ℕ) (r : Parsed)
    → IsParsed n r
    → IsStarted n (if ltb r.offset r.packet_len then borrowing r else dispatching r.envelope)
start-IsStarted n r v = elim (Bool-cases (ltb r.offset r.packet_len)) [
  | inl some_bytes ↦ rw (some_bytes, IsStarted) v
  | inr no_bytes ↦ rw (no_bytes, IsStarted) (v.no_slot, v.no_pointer, v.no_length)
]

-- Whatever function takes the seven arguments, if it returns on any offset inside the packet and
-- hands on a packet inside it: the parsers of the ingestion thread never read outside the packet,
-- and what they hand over has its payload inside the packet and holds no slot.
pub parse_packet-Returns :
    (o : ByteOrder) (parse_ipv4 : List ℕ → ℕ → ℕ → Outcome Network) {xs : List ℕ} {n : ℕ}
    → ((offset : ℕ) → offset ≤ n → Returns (NetworkPost n) (parse_ipv4 xs n offset))
    → IsPacket xs n
    → Returns (IsStarted n) (parse_packet o parse_ipv4 xs n)
unfolding parse_packet
parse_packet-Returns o parse_ipv4 {xs} {n} safe v =
    bind_rule (IsStarted n) (EthernetPost n 0) (parse_ethernet o xs n 0) _
      (parse_ethernet-Returns o 0 v (omega arith))
      λ eth h. guard_rule (IsStarted n) (not (eth.next_protocol == 0x0800)) _ λ ipv4.
        bind_rule (IsStarted n) (NetworkPost n) (parse_ipv4 xs n eth.offset) _ (safe eth.offset h.1)
          λ ip h'.
            bind_rule (IsStarted n) (IsParsed n) (parse_transport o xs ip) _
              (parse_transport-Returns o ip v h') λ r v'. start-IsStarted n r v'

-- The function of nine arguments, with three of its results dropped.
without_metadata : ByteOrder → List ℕ → ℕ → ℕ → Outcome Network
without_metadata o xs n offset = do
  ip ← parse_ipv4 o xs n offset
  accept (record {
    packet_length = ip.packet_length;
    offset = ip.offset;
    src_ip = ip.src_ip;
    dest_ip = ip.dest_ip;
    next_protocol = ip.next_protocol;
  })

-- It is one that the theorem above speaks of.
without_metadata-Returns :
    (o : ByteOrder) {xs : List ℕ} {n : ℕ} (offset : ℕ)
    → IsPacket xs n
    → offset ≤ n
    → Returns (NetworkPost n) (without_metadata o xs n offset)
unfolding without_metadata
without_metadata-Returns o {xs} {n} offset v start =
    bind_rule (NetworkPost n) (IPv4Post n offset) (parse_ipv4 o xs n offset) _
      (parse_ipv4-Returns o offset v start) λ ip h. (h.2, h.3)
