-- ===== src/PacketParser/Frames.antt =====
-- Frames as a sender writes them, in network byte order.
use nethex.Base.{ℕ, ◌+◌, ◌*◌, ◌/◌, ◌%◌, ◌^◌, ◌≤◌, ◌<◌, ◌≡◌, ◌⊎◌, Bool, List, [], ◌∷◌, ◌++◌, length}
use nethex.Base.Counts.{flag}

-- The bytes of a number, most significant first.
abbrev pub bytes16 : ℕ → List ℕ → List ℕ
bytes16 v rest = v / 0x100 ∷ v % 0x100 ∷ rest

abbrev pub bytes32 : ℕ → List ℕ → List ℕ
bytes32 v rest = v / 0x1000000 ∷ v / 0x10000 % 0x100 ∷ v / 0x100 % 0x100 ∷ v % 0x100 ∷ rest

pub record Tag : Type 0 where
  pub protocol : ℕ
  pub control : ℕ

abbrev pub IsTag : Tag → Type 0
IsTag t = ((t.protocol ≡ 0x8100) ⊎ (t.protocol ≡ 0x88A8)) × (t.control < 2 ^ 16)

-- What stands where the type of a frame does: the first tag's, or the payload's.
abbrev pub first_type : List Tag → ℕ → ℕ
first_type [] ethertype = ethertype
first_type (t ∷ tags) ethertype = t.protocol

-- What follows it: for each tag its control word and the next type.
abbrev pub tag_bytes : List Tag → ℕ → List ℕ → List ℕ
tag_bytes [] ethertype rest = rest
tag_bytes (t ∷ tags) ethertype rest =
    bytes16 t.control (bytes16 (first_type tags ethertype) (tag_bytes tags ethertype rest))

abbrev pub link_bytes : List ℕ → List Tag → ℕ → List ℕ → List ℕ
link_bytes addresses tags ethertype rest =
    addresses ++ bytes16 (first_type tags ethertype) (tag_bytes tags ethertype rest)

pub record IpFields : Type 0 where
  pub tos : ℕ
  pub identification : ℕ
  pub dont_fragment : Bool
  pub more_fragments : Bool
  pub fragment_offset_units : ℕ
  pub ttl : ℕ
  pub protocol : ℕ
  pub checksum : ℕ
  pub src_ip : ℕ
  pub dest_ip : ℕ
  -- The 32-bit words of options, and their bytes.
  pub words : ℕ
  pub options : List ℕ

pub record IsIp (h : IpFields) : Type 0 where
  pub identification : h.identification < 2 ^ 16
  pub units : h.fragment_offset_units < 2 ^ 13
  pub protocol : h.protocol < 0x100
  pub src_ip : h.src_ip < 2 ^ 32
  pub dest_ip : h.dest_ip < 2 ^ 32
  pub options : length h.options ≡ h.words * 4
  pub few : h.words ≤ 10

abbrev pub fragment_word : IpFields → ℕ
fragment_word h =
    flag h.dont_fragment * 0x4000 + flag h.more_fragments * 0x2000 + h.fragment_offset_units

-- The header, where `size` bytes follow it in the datagram.
abbrev pub ip_bytes : IpFields → ℕ → List ℕ → List ℕ
ip_bytes h size rest =
    (0x45 + h.words)
    ∷ h.tos
    ∷ bytes16 (20 + h.words * 4 + size) (
        bytes16 h.identification (
          bytes16 (fragment_word h) (
            h.ttl
            ∷ h.protocol
            ∷ bytes16 h.checksum (bytes32 h.src_ip (bytes32 h.dest_ip (h.options ++ rest))))))

pub record TcpFields : Type 0 where
  pub src_port : ℕ
  pub dest_port : ℕ
  pub seq_num : ℕ
  pub ack_num : ℕ
  pub reserved : ℕ
  pub flags : ℕ
  pub window_size : ℕ
  pub checksum : ℕ
  pub urgent_ptr : ℕ
  pub words : ℕ
  pub options : List ℕ

pub record IsTcp (h : TcpFields) : Type 0 where
  pub src_port : h.src_port < 2 ^ 16
  pub dest_port : h.dest_port < 2 ^ 16
  pub reserved : h.reserved < 0x10
  pub flags : h.flags < 0x100
  pub options : length h.options ≡ h.words * 4
  pub few : h.words ≤ 10

abbrev pub tcp_bytes : TcpFields → List ℕ → List ℕ
tcp_bytes h rest = bytes16 h.src_port (
    bytes16 h.dest_port (
      bytes32 h.seq_num (
        bytes32 h.ack_num (
          ((5 + h.words) * 0x10 + h.reserved)
          ∷ h.flags
          ∷ bytes16 h.window_size
              (bytes16 h.checksum (bytes16 h.urgent_ptr (h.options ++ rest)))))))

pub record UdpFields : Type 0 where
  pub src_port : ℕ
  pub dest_port : ℕ
  pub checksum : ℕ

abbrev pub udp_bytes : UdpFields → ℕ → List ℕ → List ℕ
udp_bytes h size rest =
    bytes16 h.src_port (bytes16 h.dest_port (bytes16 (8 + size) (bytes16 h.checksum rest)))
