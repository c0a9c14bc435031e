-- ===== src/PacketParser.antt =====
-- src/packet_parser.cpp. `return false` is `reject`; on it no caller reads the reference
-- parameters. `offset` and `packet_length` are `uint32_t`, and `sizeof` is a `size_t`: the sum
-- `offset + sizeof(…)` is taken in 64 bits, `offset + 4` and `offset += …` wrap at 2^32.

pub mod Safety
pub mod Frames
pub mod Fields
pub mod RoundTrip
pub mod Datagrams
pub mod Layers
mod Examples
use nethex.Base.{
  ℕ, zero, suc, ◌+◌, ◌*◌, ◌/◌, ◌%◌, ◌^◌, Bool, true, false, not, ◌||◌, List, bit_and, ltb, ◌==◌,
  Outcome, accept, starved, ◌>>=◌, ◌>>◌, reject_if, in_array, if◌then◌else◌, add32,
}
use nethex.Wire.{
  ByteOrder, ntoh16, ntoh32, u16_at, cast_ethernet, cast_ipv4, cast_tcp, cast_udp, sizeof_ethernet,
  sizeof_ipv4, sizeof_tcp, sizeof_udp, IPv4Header, TcpHeader,
}

-- What `parse_ethernet` passes back.
pub record Ethernet : Type 0 where
  pub offset : ℕ
  pub next_protocol : ℕ

pub record IPv4 : Type 0 where
  pub packet_length : ℕ
  pub offset : ℕ
  pub src_ip : ℕ
  pub dest_ip : ℕ
  pub next_protocol : ℕ
  pub identification : ℕ
  pub fragment_offset_units : ℕ
  pub more_fragments : Bool

pub record Tcp : Type 0 where
  pub offset : ℕ
  pub src_port : ℕ
  pub dest_port : ℕ
  pub tcp_flags : ℕ

pub record Udp : Type 0 where
  pub offset : ℕ
  pub src_port : ℕ
  pub dest_port : ℕ

abbrev pub is_vlan_tag : ℕ → Bool
is_vlan_tag p = p == 0x8100 || p == 0x88A8

module _ (order : ByteOrder) (packet_data : List ℕ) where
  -- The `while` loop over VLAN tags, a round to a unit of fuel.
  pub skip_tags : ℕ → ℕ → Ethernet → Outcome Ethernet
  skip_tags zero packet_length s = starved
  skip_tags (suc fuel) packet_length s = elim (is_vlan_tag s.next_protocol) [
    | false ↦ accept s
    | true ↦ do
      reject_if (ltb packet_length (add32 s.offset 4))
      in_array packet_data (s.offset + 2) 2
      skip_tags fuel packet_length (record {
        offset = add32 s.offset 4;
        next_protocol = ntoh16 order (u16_at order packet_data (s.offset + 2));
      })
  ]

  pub parse_ethernet : ℕ → ℕ → Outcome Ethernet
  parse_ethernet packet_length offset = do
    reject_if (ltb packet_length (offset + sizeof_ethernet))
    eth_header ← cast_ethernet order packet_data offset
    skip_tags (suc packet_length) packet_length (record {
      offset = add32 offset sizeof_ethernet;
      next_protocol = ntoh16 order eth_header.ethertype;
    })

  -- From the header on, once it has been loaded.
  ipv4_fields : ℕ → ℕ → IPv4Header → Outcome IPv4
  ipv4_fields packet_length offset ip_header = do
    let frag_off_flags = ntoh16 order ip_header.flags_offset
    let ihl = bit_and ip_header.version_ihl 0x0F
    reject_if (ltb ihl 5)
    let actual_header_bytes = ihl * 4
    reject_if (ltb packet_length (add32 offset actual_header_bytes))
    let total_ip_len = ntoh16 order ip_header.total_length
    reject_if (ltb total_ip_len actual_header_bytes)
    let true_packet_len = add32 offset total_ip_len
    accept (record {
      packet_length = if ltb true_packet_len packet_length then true_packet_len else packet_length;
      offset = add32 offset actual_header_bytes;
      src_ip = ntoh32 order ip_header.src_ip;
      dest_ip = ntoh32 order ip_header.dest_ip;
      next_protocol = ip_header.protocol;
      identification = ntoh16 order ip_header.identification;
      fragment_offset_units = bit_and frag_off_flags 0x1FFF;
      more_fragments = not (bit_and frag_off_flags 0x2000 == 0);
    })

  pub parse_ipv4 : ℕ → ℕ → Outcome IPv4
  unfolding ipv4_fields
  parse_ipv4 packet_length offset = do
    reject_if (ltb packet_length (offset + sizeof_ipv4))
    ip_header ← cast_ipv4 order packet_data offset
    ipv4_fields packet_length offset ip_header

  tcp_fields : ℕ → ℕ → TcpHeader → Outcome Tcp
  tcp_fields packet_length offset tcp_header = do
    let off_res_flags = ntoh16 order tcp_header.offset_reserved_flags
    let data_offset = bit_and (off_res_flags / 2 ^ 12) 0x0F
    reject_if (ltb data_offset 5)
    let actual_header_bytes = data_offset * 4
    reject_if (ltb packet_length (add32 offset actual_header_bytes))
    accept (record {
      offset = add32 offset actual_header_bytes;
      src_port = ntoh16 order tcp_header.src_port;
      dest_port = ntoh16 order tcp_header.dest_port;
      tcp_flags = bit_and off_res_flags 0x00FF;
    })

  pub parse_tcp : ℕ → ℕ → Outcome Tcp
  unfolding tcp_fields
  parse_tcp packet_length offset = do
    reject_if (ltb packet_length (offset + sizeof_tcp))
    tcp_header ← cast_tcp order packet_data offset
    tcp_fields packet_length offset tcp_header

  pub parse_udp : ℕ → ℕ → Outcome Udp
  parse_udp packet_length offset = do
    reject_if (ltb packet_length (offset + sizeof_udp))
    udp_header ← cast_udp order packet_data offset
    accept (record {
      offset = add32 offset sizeof_udp;
      src_port = ntoh16 order udp_header.src_port;
      dest_port = ntoh16 order udp_header.dest_port;
    })
