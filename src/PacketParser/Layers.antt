-- ===== src/PacketParser/Layers.antt =====
-- The parsers one after the other on a whole frame.
use nethex.Base.{
  ℕ, ◌+◌, ◌-◌, ◌*◌, ◌≤◌, ◌≡◌, refl, ap, ◌∙◌, subst, List, ◌++◌, arith, length, length-append, take,
  drop, take-append, accept,
}
use nethex.Wire.{ByteOrder}
use nethex.PacketParser.{IPv4, parse_ethernet, parse_ipv4, parse_tcp, parse_udp}
use nethex.PacketParser.Frames.{IpFields, ip_bytes}
use nethex.PacketParser.Fields.{IsAt, length-IsAt, skip}
use nethex.PacketParser.RoundTrip.{
  IsRoom, IsAt-link_bytes, IsAt-ip_bytes, IsAt-tcp_bytes, parse_ethernet-link_bytes,
  parse_ipv4-ip_bytes, parse_tcp-tcp_bytes, parse_udp-udp_bytes,
}
use nethex.PacketParser.Datagrams.{
  Content, tcp, udp, piece, header_size, content_bytes, IsContent, Datagram, content_size, frame,
  IsDatagram, ip_offset, content_offset, payload_offset, datagram_end,
}

-- What is to be found of the IP header.
abbrev pub ip_of : Datagram → IPv4
ip_of d = record {
  packet_length = datagram_end d;
  offset = content_offset d;
  src_ip = d.ip.src_ip;
  dest_ip = d.ip.dest_ip;
  next_protocol = d.ip.protocol;
  identification = d.ip.identification;
  fragment_offset_units = d.ip.fragment_offset_units;
  more_fragments = d.ip.more_fragments;
}

-- The parser of what the datagram carries reads it. A piece is not parsed.
abbrev pub Reads : ByteOrder → List ℕ → ℕ → ℕ → Content → Type 0
Reads o xs n k (tcp h) =
    parse_tcp o xs n k
    ≡ accept (record {
      offset = k + 20 + h.words * 4;
      src_port = h.src_port;
      dest_port = h.dest_port;
      tcp_flags = h.flags;
    })
Reads o xs n k (udp h) =
    parse_udp o xs n k
    ≡ accept (record { offset = k + 8; src_port = h.src_port; dest_port = h.dest_port })
Reads o xs n k piece = Unit

module _ (xs : List ℕ) (k : ℕ) (ip : IpFields) where
  IsAt-content_bytes :
      (c : Content) (size : ℕ) (rest : List ℕ)
      → IsContent ip c
      → IsAt xs k (content_bytes c size rest)
      → IsAt xs (k + header_size c) rest
  IsAt-content_bytes (tcp h) size rest (whole, six, v) at =
      let sum : k + 20 + h.words * 4 ≡ k + (20 + h.words * 4) = omega arith in
      subst (λ (i : ℕ). IsAt xs i rest) sum (IsAt-tcp_bytes v at)
  IsAt-content_bytes (udp h) size rest v at = skip at 8 (omega arith) refl
  IsAt-content_bytes piece size rest v at = skip at 0 (omega arith) (omega arith)

  Reads-content_bytes :
      (o : ByteOrder) (n : ℕ) (c : Content) (size : ℕ) (rest : List ℕ)
      → IsRoom xs n
      → IsContent ip c
      → IsAt xs k (content_bytes c size rest)
      → k + header_size c ≤ n
      → Reads o xs n k c
  Reads-content_bytes o n (tcp h) size rest room (whole, six, v) at fits =
      parse_tcp-tcp_bytes o room rest v at (omega (arith, fits))
  Reads-content_bytes o n (udp h) size rest room (whole, seventeen, src, dest) at fits =
      parse_udp-udp_bytes o room h size rest src dest at fits
  Reads-content_bytes o n piece size rest room v at fits = tt

module _ (d : Datagram) (v : IsDatagram d) where
  whole_frame : IsAt (frame d) 0 (frame d)
  whole_frame = record { reached = omega arith; rest = refl }

  at_ip : IsAt (frame d) (ip_offset d) (
      ip_bytes d.ip
        (content_size d)
        (content_bytes d.content (length d.payload) (d.payload ++ d.padding)))
  at_ip = IsAt-link_bytes d.addresses d.tags 0x0800 v.addresses whole_frame

  at_content :
      IsAt
        (frame d)
        (content_offset d)
        (content_bytes d.content (length d.payload) (d.payload ++ d.padding))
  at_content = IsAt-ip_bytes (content_size d) v.ip at_ip

  at_payload : IsAt (frame d) (payload_offset d) (d.payload ++ d.padding)
  at_payload =
      IsAt-content_bytes (frame d) (content_offset d) d.ip d.content (length d.payload)
        (d.payload ++ d.padding) v.content at_content

  long : datagram_end d ≤ length (frame d)
  long = omega (arith, length-IsAt at_payload, length-append d.payload d.padding)

  room : IsRoom (frame d) (length (frame d))
  room = record { inside = omega arith; small = v.small }

  payload_found :
      take (datagram_end d - payload_offset d) (drop (payload_offset d) (frame d)) ≡ d.payload
  payload_found =
      let size : datagram_end d - payload_offset d ≡ length d.payload = omega arith in
      ap (λ (l : List ℕ). take (datagram_end d - payload_offset d) l) at_payload.rest
      ∙ ap (λ (n : ℕ). take n (d.payload ++ d.padding)) size
      ∙ take-append d.payload d.padding

  -- On a frame as a sender writes it, with any number of VLAN tags, options of any length and
  -- padding: `parse_ethernet` finds where the IP header begins. `parse_ipv4`, called there, recovers
  -- the addresses, the protocol, the identification, the fragment's offset and its flag, for a
  -- fragment and for a whole datagram, and cuts the padding off. If the datagram is whole and
  -- carries TCP or UDP, the parser of that protocol recovers the ports, and the flags of TCP. What
  -- then lies up to the datagram's end is the payload that was written, or the fragment's piece.
  -- The frame is shorter than 2^31 bytes, and the IP packet's length fits its field.
  pub frame_lem :
      (o : ByteOrder)
      → (parse_ethernet o (frame d) (length (frame d)) 0
          ≡ accept (record { offset = ip_offset d; next_protocol = 0x0800 }))
        × (parse_ipv4 o (frame d) (length (frame d)) (ip_offset d) ≡ accept (ip_of d))
        × Reads o (frame d) (datagram_end d) (content_offset d) d.content
        × (take (datagram_end d - payload_offset d) (drop (payload_offset d) (frame d)) ≡ d.payload)
  frame_lem o = (
    parse_ethernet-link_bytes o room d.addresses d.tags 0x0800 _ v.addresses v.tags refl
        (omega arith) whole_frame (omega (arith, long)),
    parse_ipv4-ip_bytes o room (content_size d) _ v.ip at_ip (omega (arith, v.size))
        (omega (arith, long)),
    Reads-content_bytes (frame d) (content_offset d) d.ip o (datagram_end d) d.content
        (length d.payload) (d.payload ++ d.padding)
        (record { inside = long; small = omega (arith, long, v.small) }) v.content at_content
        (omega arith),
    payload_found,
  )
