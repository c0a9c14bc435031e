-- ===== src/PacketParser/Datagrams.antt =====
-- A whole frame as a sender writes it: link header, IP header, what the datagram carries, and
-- whatever the link pads it with. Of a datagram that is sent in fragments the frame has a piece.
use nethex.Base.{ℕ, ◌+◌, ◌*◌, ◌^◌, ◌<◌, ◌≡◌, ◌⊎◌, true, false, List, ◌++◌, length, All}
use nethex.PacketParser.Frames.{
  Tag, IsTag, link_bytes, IpFields, IsIp, ip_bytes, TcpFields, IsTcp, tcp_bytes, UdpFields,
  udp_bytes,
}

pub data Content : Type 0 where
  tcp : TcpFields → Content
  udp : UdpFields → Content
  piece : Content

-- The header in front of the payload; a piece is all payload here, and belongs to IpDefragmenter.
abbrev pub header_size : Content → ℕ
header_size (tcp h) = 20 + h.words * 4
header_size (udp h) = 8
header_size piece = 0

-- `size` bytes of `rest` are the payload.
abbrev pub content_bytes : Content → ℕ → List ℕ → List ℕ
content_bytes (tcp h) size rest = tcp_bytes h rest
content_bytes (udp h) size rest = udp_bytes h size rest
content_bytes piece size rest = rest

abbrev pub IsWhole : IpFields → Type 0
IsWhole ip = (ip.fragment_offset_units ≡ 0) × (ip.more_fragments ≡ false)

-- Only a datagram that is not fragmented has a header of TCP or UDP to be parsed.
abbrev pub IsContent : IpFields → Content → Type 0
IsContent ip (tcp h) = IsWhole ip × (ip.protocol ≡ 6) × IsTcp h
IsContent ip (udp h) =
    IsWhole ip × (ip.protocol ≡ 17) × (h.src_port < 2 ^ 16) × (h.dest_port < 2 ^ 16)
IsContent ip piece = (0 < ip.fragment_offset_units) ⊎ (ip.more_fragments ≡ true)

pub record Datagram : Type 0 where
  pub addresses : List ℕ
  pub tags : List Tag
  pub ip : IpFields
  pub content : Content
  pub payload : List ℕ
  pub padding : List ℕ

-- Of what follows the IP header.
abbrev pub content_size : Datagram → ℕ
content_size d = header_size d.content + length d.payload

abbrev pub frame : Datagram → List ℕ
frame d = link_bytes d.addresses d.tags 0x0800 (
    ip_bytes d.ip (content_size d)
      (content_bytes d.content (length d.payload) (d.payload ++ d.padding)))

pub record IsDatagram (d : Datagram) : Type 0 where
  pub addresses : length d.addresses ≡ 12
  pub tags : All IsTag d.tags
  pub ip : IsIp d.ip
  pub content : IsContent d.ip d.content
  pub size : 20 + d.ip.words * 4 + content_size d < 2 ^ 16
  pub small : length (frame d) < 2 ^ 31

-- Where its parts begin, and where the datagram ends.
abbrev pub ip_offset : Datagram → ℕ
ip_offset d = 14 + 4 * length d.tags

abbrev pub content_offset : Datagram → ℕ
content_offset d = ip_offset d + 20 + d.ip.words * 4

abbrev pub payload_offset : Datagram → ℕ
payload_offset d = content_offset d + header_size d.content

abbrev pub datagram_end : Datagram → ℕ
datagram_end d = content_offset d + content_size d
