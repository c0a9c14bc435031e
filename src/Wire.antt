-- ===== src/Wire.antt =====
-- include/types.h and include/platform.h: the packed header structs as they lie in a byte array,
-- the conversion from network to host byte order, and the envelope passed between threads.
-- `reinterpret_cast` to a packed struct is a load of its fields from the bytes under it. A load
-- of a multi-byte field and `ntohs`, `ntohl` depend on the byte order of the host, a parameter.
pub mod Order
use nethex.Base.{
  ℕ, ◌+◌, ◌*◌, ◌/◌, ◌%◌, List, Option, get_or, take, drop, Outcome, accept, ◌>>=◌, ◌>>◌, in_array,
  read, add32, bit_or, ◌^◌,
}

-- The byte order of the machine.
pub data ByteOrder : Type 0 where
  little big : ByteOrder

-- Two and four bytes at rising addresses, read as one unsigned integer.
unfoldable pub load16 : ByteOrder → ℕ → ℕ → ℕ
load16 little a b = b * 0x100 + a
load16 big a b = a * 0x100 + b

unfoldable pub load32 : ByteOrder → ℕ → ℕ → ℕ → ℕ → ℕ
load32 little a b c d = ((d * 0x100 + c) * 0x100 + b) * 0x100 + a
load32 big a b c d = ((a * 0x100 + b) * 0x100 + c) * 0x100 + d

-- `ntohs` and `ntohl` are the identity on a big-endian host, and reverse the bytes on a
-- little-endian one.
unfoldable pub ntoh16 : ByteOrder → ℕ → ℕ
ntoh16 big v = v
ntoh16 little v = v % 0x100 * 0x100 + v / 0x100 % 0x100

unfoldable pub ntoh32 : ByteOrder → ℕ → ℕ
ntoh32 big v = v
ntoh32 little v =
    ((v % 0x100 * 0x100 + v / 0x100 % 0x100) * 0x100 + v / 0x10000 % 0x100) * 0x100
    + v / 0x1000000 % 0x100

-- `htons` and `htonl` do the same.
unfoldable pub hton16 : ByteOrder → ℕ → ℕ
hton16 big v = v
hton16 little v = v % 0x100 * 0x100 + v / 0x100 % 0x100

unfoldable pub hton32 : ByteOrder → ℕ → ℕ
hton32 big v = v
hton32 little v =
    ((v % 0x100 * 0x100 + v / 0x100 % 0x100) * 0x100 + v / 0x10000 % 0x100) * 0x100
    + v / 0x1000000 % 0x100

pub record EthernetHeader : Type 0 where
  pub dest_mac : List ℕ
  pub src_mac : List ℕ
  pub ethertype : ℕ

pub record IPv4Header : Type 0 where
  pub version_ihl : ℕ
  pub tos : ℕ
  pub total_length : ℕ
  pub identification : ℕ
  pub flags_offset : ℕ
  pub ttl : ℕ
  pub protocol : ℕ
  pub checksum : ℕ
  pub src_ip : ℕ
  pub dest_ip : ℕ

pub record TcpHeader : Type 0 where
  pub src_port : ℕ
  pub dest_port : ℕ
  pub seq_num : ℕ
  pub ack_num : ℕ
  pub offset_reserved_flags : ℕ
  pub window_size : ℕ
  pub checksum : ℕ
  pub urgent_ptr : ℕ

pub record UdpHeader : Type 0 where
  pub src_port : ℕ
  pub dest_port : ℕ
  pub length : ℕ
  pub checksum : ℕ

pub record DnsHeader : Type 0 where
  pub transaction_id : ℕ
  pub flags : ℕ
  pub qd_count : ℕ
  pub an_count : ℕ
  pub ns_count : ℕ
  pub ar_count : ℕ

-- `sizeof` of each packed struct.
abbrev pub sizeof_ethernet : ℕ
sizeof_ethernet = 14

abbrev pub sizeof_ipv4 : ℕ
sizeof_ipv4 = 20

abbrev pub sizeof_tcp : ℕ
sizeof_tcp = 20

abbrev pub sizeof_udp : ℕ
sizeof_udp = 8

abbrev pub sizeof_dns : ℕ
sizeof_dns = 12

-- `(data[i] << 8) | data[i + 1]` in a `uint16_t`, with a `uint32_t` for `i`.
unfoldable pub read_u16 : List ℕ → ℕ → Outcome ℕ
read_u16 bytes i = do
  high ← read bytes i
  low ← read bytes (add32 i 1)
  accept (bit_or (high * 2 ^ 8) low % 2 ^ 16)

module _ (order : ByteOrder) (bytes : List ℕ) where
  abbrev pub byte_at : ℕ → ℕ
  byte_at i = get_or bytes i 0

  abbrev pub u16_at : ℕ → ℕ
  u16_at i = load16 order (byte_at i) (byte_at (i + 1))

  abbrev pub u32_at : ℕ → ℕ
  u32_at i = load32 order (byte_at i) (byte_at (i + 1)) (byte_at (i + 2)) (byte_at (i + 3))

  -- A cast of `bytes + at` to a pointer to the struct, followed by loads of its fields. It is a
  -- fault unless the whole struct lies inside the array.
  abbrev pub cast_ethernet : ℕ → Outcome EthernetHeader
  cast_ethernet at = do
    in_array bytes at sizeof_ethernet
    accept (record {
      dest_mac = take 6 (drop at bytes);
      src_mac = take 6 (drop (at + 6) bytes);
      ethertype = u16_at (at + 12);
    })

  abbrev pub cast_ipv4 : ℕ → Outcome IPv4Header
  cast_ipv4 at = do
    in_array bytes at sizeof_ipv4
    accept (record {
      version_ihl = byte_at at;
      tos = byte_at (at + 1);
      total_length = u16_at (at + 2);
      identification = u16_at (at + 4);
      flags_offset = u16_at (at + 6);
      ttl = byte_at (at + 8);
      protocol = byte_at (at + 9);
      checksum = u16_at (at + 10);
      src_ip = u32_at (at + 12);
      dest_ip = u32_at (at + 16);
    })

  abbrev pub cast_tcp : ℕ → Outcome TcpHeader
  cast_tcp at = do
    in_array bytes at sizeof_tcp
    accept (record {
      src_port = u16_at at;
      dest_port = u16_at (at + 2);
      seq_num = u32_at (at + 4);
      ack_num = u32_at (at + 8);
      offset_reserved_flags = u16_at (at + 12);
      window_size = u16_at (at + 14);
      checksum = u16_at (at + 16);
      urgent_ptr = u16_at (at + 18);
    })

  abbrev pub cast_udp : ℕ → Outcome UdpHeader
  cast_udp at = do
    in_array bytes at sizeof_udp
    accept (record {
      src_port = u16_at at;
      dest_port = u16_at (at + 2);
      length = u16_at (at + 4);
      checksum = u16_at (at + 6);
    })

  abbrev pub cast_dns : ℕ → Outcome DnsHeader
  cast_dns at = do
    in_array bytes at sizeof_dns
    accept (record {
      transaction_id = u16_at at;
      flags = u16_at (at + 2);
      qd_count = u16_at (at + 4);
      an_count = u16_at (at + 6);
      ns_count = u16_at (at + 8);
      ar_count = u16_at (at + 10);
    })

-- `ParsedPacket`. `payload_ptr` is the number of the pool buffer that it points to.
pub record ParsedPacket : Type 0 where
  pub src_ip : ℕ
  pub dest_ip : ℕ
  pub src_port : ℕ
  pub dest_port : ℕ
  pub protocol : ℕ
  pub tcp_flags : ℕ
  pub pool_slot_id : ℕ
  pub payload_ptr : Option ℕ
  pub payload_length : ℕ

abbrev pub no_payload : ℕ
no_payload = 0xffff_ffff
