-- ===== src/PcapReader.antt =====
-- src/pcap_reader.cpp and include/pcap_reader.h. The stream is what the code sees of an
-- `std::ifstream`: the bytes from its position on, whether it is open, and the two state bits. A
-- seek behind the end of the file succeeds and leaves nothing to read.
pub mod Capture
pub mod Progress
mod Examples
use nethex.Base.{
  ℕ, zero, suc, ◌-◌, Bool, true, false, not, ◌||◌, ◌==◌, ltb, leb, List, [], ◌∷◌, ◌++◌, Option,
  none, some, length, take, drop, replicate, if◌then◌else◌, Outcome, accept, starved, ◌>>=◌,
}
use nethex.Wire.{ByteOrder, u16_at, u32_at}

pub record PcapGlobalHeader : Type 0 where
  pub magic_number : ℕ
  pub version_major : ℕ
  pub version_minor : ℕ
  -- The 32 bits of an `int32_t`.
  pub thiszone : ℕ
  pub sigfigs : ℕ
  pub snaplen : ℕ
  pub network : ℕ

pub record PcapPacketHeader : Type 0 where
  pub ts_sec : ℕ
  pub ts_usec : ℕ
  pub incl_len : ℕ
  pub orig_len : ℕ

abbrev pub sizeof_global_header : ℕ
sizeof_global_header = 24

abbrev pub sizeof_packet_header : ℕ
sizeof_packet_header = 16

abbrev pub global_header : ByteOrder → List ℕ → PcapGlobalHeader
global_header order bytes = record {
  magic_number = u32_at order bytes 0;
  version_major = u16_at order bytes 4;
  version_minor = u16_at order bytes 6;
  thiszone = u32_at order bytes 8;
  sigfigs = u32_at order bytes 12;
  snaplen = u32_at order bytes 16;
  network = u32_at order bytes 20;
}

abbrev pub packet_header : ByteOrder → List ℕ → PcapPacketHeader
packet_header order bytes = record {
  ts_sec = u32_at order bytes 0;
  ts_usec = u32_at order bytes 4;
  incl_len = u32_at order bytes 8;
  orig_len = u32_at order bytes 12;
}

pub record Stream : Type 0 where
  pub is_open : Bool
  pub ahead : List ℕ
  pub eof : Bool
  pub fail : Bool

-- `open` of the stream on a file that holds the bytes, or cannot be opened.
abbrev pub open_stream : Stream → Option (List ℕ) → Stream
open_stream s file = if s.is_open then record s { fail = true } else elim file [
  | none ↦ record s { fail = true }
  | some bytes ↦ record { is_open = true; ahead = bytes; eof = false; fail = false }
]

-- `read` of `n` bytes.
pub read_stream : Stream → ℕ → List ℕ × Stream
read_stream s n =
    if s.eof || s.fail
    then ([], record s { fail = true })
    else if leb n (length s.ahead)
    then (take n s.ahead, record s { ahead = drop n s.ahead })
    else (s.ahead, record s { ahead = []; eof = true; fail = true })

-- `seekg(n, std::ios::cur)`
pub seek_stream : Stream → ℕ → Stream
seek_stream s n =
    if s.fail then record s { eof = false } else record s { ahead = drop n s.ahead; eof = false }

-- `file` is what `file_path` names.
pub record PcapFileReader : Type 0 where
  pub file : Option (List ℕ)
  pub file_stream : Stream
  pub packet_buffer : List ℕ

abbrev pub buffer_size : ℕ
buffer_size = 65535

abbrev pub init : Option (List ℕ) → PcapFileReader
init file = record {
  file = file;
  file_stream = record { is_open = false; ahead = []; eof = false; fail = false };
  packet_buffer = replicate buffer_size 0;
}

-- A capture in the byte order of the machine, with microseconds or nanoseconds.
abbrev pub is_native : ℕ → Bool
is_native magic_number = magic_number == 0xa1b2c3d4 || magic_number == 0xa1b23c4d

pub open_file : ByteOrder → PcapFileReader → Bool × PcapFileReader
open_file order r =
    let opened : Stream = open_stream r.file_stream r.file in
    if not opened.is_open
    then (false, record r { file_stream = opened })
    else let (bytes, s) = read_stream opened sizeof_global_header in
      if s.fail
      then (false, record r { file_stream = s })
      else (is_native (global_header order bytes).magic_number, record r { file_stream = s })

pub close : PcapFileReader → PcapFileReader
close r =
    if r.file_stream.is_open
    then record r { file_stream = record r.file_stream { is_open = false; ahead = [] } }
    else r

-- `read` into the front of an array.
abbrev pub into : List ℕ → List ℕ → List ℕ
into bytes buffer = bytes ++ drop (length bytes) buffer

-- Behind the packet's header: the packet's length, if `read_next_packet` returns true.
pub read_payload : PcapFileReader → Stream → ℕ → Option ℕ × PcapFileReader
read_payload r s incl_len =
    let size = length r.packet_buffer in
    let read_len : ℕ = if ltb size incl_len then size else incl_len in
    let (bytes, s') = read_stream s read_len in
    let s'' : Stream = if ltb size incl_len then seek_stream s' (incl_len - size) else s' in
    let r' : PcapFileReader = record r {
      file_stream = s'';
      packet_buffer = into bytes r.packet_buffer;
    } in
    if s''.fail then (none, r') else (some read_len, r')

-- The packet itself is at the front of `packet_buffer`.
pub read_next_packet : ByteOrder → PcapFileReader → Option ℕ × PcapFileReader
read_next_packet order r =
    if not r.file_stream.is_open || r.file_stream.eof
    then (none, r)
    else let (bytes, s) = read_stream r.file_stream sizeof_packet_header in
      if s.fail
      then (none, record r { file_stream = s })
      else read_payload r s (packet_header order bytes).incl_len

-- `while (reader.read_next_packet(raw_packet, packet_len))`: the packets that are handed over.
pub read_packets : ℕ → ByteOrder → PcapFileReader → Outcome (List (List ℕ))
read_packets zero order r = starved
read_packets (suc fuel) order r =
    let (packet_length, r') = read_next_packet order r in
    elim packet_length [
      | none ↦ accept []
      | some n ↦ do packets ← read_packets fuel order r'; accept (take n r'.packet_buffer ∷ packets)
    ]
