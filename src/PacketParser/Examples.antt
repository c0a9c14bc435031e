-- ===== src/PacketParser/Examples.antt =====
-- A DNS query in a tagged frame, and the parsers on it.
use nethex.Base.{inl, true, take, drop, ℕ, ◌≡◌, refl, false, List, [], ◌∷◌, arith, accept, Returns}
use nethex.Wire.{little, big, ntoh16, ntoh32, load16, load32}
use nethex.PacketParser.{parse_ethernet, parse_ipv4, parse_tcp, parse_udp, skip_tags}
use nethex.PacketParser.Datagrams.{Datagram, tcp, piece, frame, IsDatagram}
use nethex.PacketParser.Layers.{ip_of, frame_lem}
use nethex.PacketParser.Safety.{
  IsPacket, EthernetPost, IPv4Post, TcpPost, parse_ethernet-Returns, parse_ipv4-Returns,
  parse_tcp-Returns,
}

abbrev query_frame : List ℕ
query_frame =
    -- Ethernet, a VLAN tag
    1 ∷ 2 ∷ 3 ∷ 4 ∷ 5 ∷ 6 ∷ 7 ∷ 8 ∷ 9 ∷ 10 ∷ 11 ∷ 12 ∷ 0x81 ∷ 0x00 ∷ 0 ∷ 7 ∷ 0x08 ∷ 0x00
    -- IPv4: 30 bytes of UDP from 10.0.0.1 to 10.0.0.2
    ∷ 0x45 ∷ 0 ∷ 0 ∷ 30 ∷ 0x12 ∷ 0x34 ∷ 0x40 ∷ 0 ∷ 64 ∷ 17 ∷ 0 ∷ 0 ∷ 10 ∷ 0 ∷ 0 ∷ 1 ∷ 10 ∷ 0 ∷ 0 ∷ 2
    -- UDP: 4660 to 53, then two bytes of payload and padding
    ∷ 0x12 ∷ 0x34 ∷ 0 ∷ 53 ∷ 0 ∷ 10 ∷ 0 ∷ 0 ∷ 0xAB ∷ 0xCD ∷ 0 ∷ 0 ∷ []

query_frame-IsPacket : IsPacket query_frame 50
query_frame-IsPacket = omega arith

link_layer :
    parse_ethernet little query_frame 50 0 ≡ accept (record { offset = 18; next_protocol = 0x0800 })
unfolding parse_ethernet skip_tags ntoh16 load16
link_layer = refl

-- The padding is cut off.
network_layer :
    parse_ipv4 little query_frame 50 18
    ≡ accept (record {
      packet_length = 48;
      offset = 38;
      src_ip = 0x0A00_0001;
      dest_ip = 0x0A00_0002;
      next_protocol = 17;
      identification = 0x1234;
      fragment_offset_units = 0;
      more_fragments = false;
    })
unfolding parse_ipv4 ntoh16 ntoh32 load16 load32
network_layer = refl

transport_layer :
    parse_udp big query_frame 48 38
    ≡ accept (record { offset = 46; src_port = 0x1234; dest_port = 53 })
unfolding parse_udp ntoh16 load16
transport_layer = refl

parse_ethernet-Returns_example :
    Returns (EthernetPost 50 0) (parse_ethernet little query_frame 50 0)
parse_ethernet-Returns_example = parse_ethernet-Returns little 0 query_frame-IsPacket (omega arith)

parse_ipv4-Returns_example : Returns (IPv4Post 50 18) (parse_ipv4 little query_frame 50 18)
parse_ipv4-Returns_example = parse_ipv4-Returns little 18 query_frame-IsPacket (omega arith)

-- TCP from 4660 to 443 with flags ACK and PSH, one word of options and two bytes of payload, behind
-- a byte that is not its own.
abbrev segment : List ℕ
segment =
    0xEE ∷ 0x12 ∷ 0x34 ∷ 0x01 ∷ 0xBB ∷ 0 ∷ 0 ∷ 0 ∷ 1 ∷ 0 ∷ 0 ∷ 0 ∷ 2 ∷ 0x60 ∷ 0x18 ∷ 0x10 ∷ 0 ∷ 0
    ∷ 0 ∷ 0 ∷ 0 ∷ 2 ∷ 4 ∷ 5 ∷ 180 ∷ 0xAB ∷ 0xCD ∷ []

segment-IsPacket : IsPacket segment 27
segment-IsPacket = omega arith

tcp_layer :
    parse_tcp big segment 27 1
    ≡ accept (record { offset = 25; src_port = 0x1234; dest_port = 443; tcp_flags = 0x18 })
unfolding parse_tcp ntoh16 load16
tcp_layer = refl

parse_tcp-Returns_example : Returns (TcpPost 27 1) (parse_tcp big segment 27 1)
parse_tcp-Returns_example = parse_tcp-Returns big 1 segment-IsPacket (omega arith)

-- A tagged TCP frame with an option, four bytes of payload and two of padding.
abbrev datagram : Datagram
datagram = record {
  addresses = 1 ∷ 2 ∷ 3 ∷ 4 ∷ 5 ∷ 6 ∷ 7 ∷ 8 ∷ 9 ∷ 10 ∷ 11 ∷ 12 ∷ [];
  tags = record { protocol = 0x8100; control = 7 } ∷ [];
  ip = record {
    tos = 0;
    identification = 0x1234;
    dont_fragment = true;
    more_fragments = false;
    fragment_offset_units = 0;
    ttl = 64;
    protocol = 6;
    checksum = 0;
    src_ip = 0x0A00_0001;
    dest_ip = 0x0A00_0002;
    words = 0;
    options = [];
  };
  content = tcp (record {
    src_port = 0x1234;
    dest_port = 443;
    seq_num = 1;
    ack_num = 2;
    reserved = 0;
    flags = 0x18;
    window_size = 1000;
    checksum = 0;
    urgent_ptr = 0;
    words = 1;
    options = 2 ∷ 4 ∷ 5 ∷ 180 ∷ [];
  });
  payload = 0xAB ∷ 0xCD ∷ 0xEF ∷ 0x01 ∷ [];
  padding = 0 ∷ 0 ∷ [];
}

datagram-IsDatagram : IsDatagram datagram
datagram-IsDatagram = record {
  addresses = refl;
  tags = ((inl refl, omega arith), tt);
  ip = record {
    identification = omega arith;
    units = omega arith;
    protocol = omega arith;
    src_ip = omega arith;
    dest_ip = omega arith;
    options = refl;
    few = omega arith;
  };
  content = (
    (refl, refl),
    refl,
    record {
      src_port = omega arith;
      dest_port = omega arith;
      reserved = omega arith;
      flags = omega arith;
      options = refl;
      few = omega arith;
    },
  );
  size = omega arith;
  small = omega arith;
}

frame_lem_example :
    (parse_ethernet little (frame datagram) 68 0
      ≡ accept (record { offset = 18; next_protocol = 0x0800 }))
    × (parse_ipv4 little (frame datagram) 68 18 ≡ accept (ip_of datagram))
    × (parse_tcp little (frame datagram) 66 38
        ≡ accept (record { offset = 62; src_port = 0x1234; dest_port = 443; tcp_flags = 0x18 }))
    × (take 4 (drop 62 (frame datagram)) ≡ 0xAB ∷ 0xCD ∷ 0xEF ∷ 0x01 ∷ [])
frame_lem_example = frame_lem datagram datagram-IsDatagram little

-- The piece of a datagram that begins at its eighth byte, with more to come.
abbrev fragment : Datagram
fragment = record datagram {
  ip = record datagram.ip { fragment_offset_units = 1; more_fragments = true };
  content = piece;
}

fragment_found :
    parse_ipv4 big (frame fragment) 44 18
    ≡ accept (record {
      packet_length = 42;
      offset = 38;
      src_ip = 0x0A00_0001;
      dest_ip = 0x0A00_0002;
      next_protocol = 6;
      identification = 0x1234;
      fragment_offset_units = 1;
      more_fragments = true;
    })
unfolding parse_ipv4 ntoh16 ntoh32 load16 load32
fragment_found = refl
