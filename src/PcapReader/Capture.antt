-- ===== src/PcapReader/Capture.antt =====
-- Capture files as they are written, and that the reader gives their packets back.
use nethex.Base.{
  take-append, drop-append, ℕ, zero, suc, ◌-◌, ◌^◌, ◌≤◌, ◌<◌, ◌≡◌, refl, sym, ap, ◌∙◌, inl, inr,
  true, false, List, [], ◌∷◌, ◌++◌, none, some, append_assoc, arith, length, length-append,
  length-take, length-drop, take, drop, take-drop, All, map, ltb, ltb→ge, Bool-cases, accept,
  length-replicate,
}
use nethex.Wire.{ByteOrder, little, big, load32, u32_at}
use nethex.FiveTuple.{store32}
use nethex.PcapReader.Progress.{read_packets_last, read_packets_more}
use nethex.PcapReader.{
  Stream, read_stream, seek_stream, PcapFileReader, buffer_size, init, is_native, open_file, into,
  read_payload, read_next_packet, read_packets, packet_header,
}

pub record Packet : Type 0 where
  pub ts_sec : ℕ
  pub ts_usec : ℕ
  pub orig_len : ℕ
  pub bytes : List ℕ

abbrev pub header_bytes : ByteOrder → Packet → List ℕ
header_bytes o p =
    store32 o p.ts_sec
    ++ (store32 o p.ts_usec ++ (store32 o (length p.bytes) ++ store32 o p.orig_len))

-- The packets one after the other, each behind its header.
abbrev pub store_packets : ByteOrder → List Packet → List ℕ
store_packets o [] = []
store_packets o (p ∷ ps) = header_bytes o p ++ (p.bytes ++ store_packets o ps)

-- A whole file: the magic number, the other 20 bytes of the global header, the packets.
abbrev pub capture : ByteOrder → ℕ → List ℕ → List Packet → List ℕ
capture o magic_number others ps = (store32 o magic_number ++ others) ++ store_packets o ps

-- What fits into the reader's buffer.
abbrev pub captured : Packet → List ℕ
captured p = take buffer_size p.bytes

-- A length that a header can hold.
abbrev pub IsStorable : Packet → Type 0
IsStorable p = length p.bytes < 2 ^ 32

-- An open stream that nothing has gone wrong with.
abbrev pub at_bytes : List ℕ → Stream
at_bytes bytes = record { is_open = true; ahead = bytes; eof = false; fail = false }

take_all : (n : ℕ) (xs : List ℕ) → length xs ≤ n → take n xs ≡ xs
take_all zero [] h = refl
take_all (suc n) [] h = refl
take_all zero (x ∷ xs) h = absurd (omega arith)
take_all (suc n) (x ∷ xs) h = ap (λ (l : List ℕ). x ∷ l) (take_all n xs (omega arith))

read_stream-append :
    (n : ℕ) (xs ys : List ℕ)
    → n ≡ length xs
    → read_stream (at_bytes (xs ++ ys)) n ≡ (xs, at_bytes ys)
unfolding read_stream
read_stream-append n xs ys e =
    rw (e, take-append xs ys, drop-append xs ys) (ground (arith, length-append xs ys))

length-header_bytes : (o : ByteOrder) (p : Packet) → length (header_bytes o p) ≡ 16
length-header_bytes little p = refl
length-header_bytes big p = refl

incl_len-header_bytes :
    (o : ByteOrder) (p : Packet)
    → IsStorable p
    → (packet_header o (header_bytes o p)).incl_len ≡ length p.bytes
unfolding load32
incl_len-header_bytes little p h = omega arith
incl_len-header_bytes big p h = omega arith

magic_number-store32 :
    (o : ByteOrder) (v : ℕ) (others : List ℕ) → v < 2 ^ 32 → u32_at o (store32 o v ++ others) 0 ≡ v
unfolding load32
magic_number-store32 little v others h = omega arith
magic_number-store32 big v others h = omega arith

module _ (r : PcapFileReader) (room : ℕ) (size : length r.packet_buffer ≡ room) where
  -- The reader after a packet.
  abbrev pub after : List ℕ → List ℕ → PcapFileReader
  after bytes rest = record r {
    file_stream = at_bytes rest;
    packet_buffer = into (take room bytes) r.packet_buffer;
  }

  read_payload-stored :
      (bytes rest : List ℕ)
      → read_payload r (at_bytes (bytes ++ rest)) (length bytes)
        ≡ (some (length (take room bytes)), after bytes rest)
  unfolding read_payload seek_stream
  read_payload-stored bytes rest = elim (Bool-cases (ltb room (length bytes))) [
    | inl long ↦
        let reads : read_stream (at_bytes (bytes ++ rest)) room
            ≡ (take room bytes, at_bytes (drop room bytes ++ rest)) =
          ap (λ (l : List ℕ). read_stream (at_bytes (l ++ rest)) room) (sym (take-drop room bytes))
          ∙ ap (λ (l : List ℕ). read_stream (at_bytes l) room)
              (append_assoc (take room bytes) (drop room bytes) rest)
          ∙ read_stream-append room (take room bytes) (drop room bytes ++ rest)
              (ground (arith, length-take room bytes)) in
        let skips : drop (length bytes - room) (drop room bytes ++ rest) ≡ rest =
          ap (λ (n : ℕ). drop n (drop room bytes ++ rest)) (sym (length-drop room bytes))
          ∙ drop-append (drop room bytes) rest in
        rw (size, long, reads, seek_stream, skips)
          (ap (λ (n : ℕ). (some n, after bytes rest)) (ground (arith, length-take room bytes)))
    | inr short ↦
        let reads : read_stream (at_bytes (bytes ++ rest)) (length bytes) ≡ (bytes, at_bytes rest) =
          read_stream-append (length bytes) bytes rest refl in
        rw
          (
            size,
            short,
            reads,
            take_all room bytes (omega (arith, ltb→ge room (length bytes) short)),
          )
          refl
  ]

  read_next_packet-stored :
      (o : ByteOrder) (p : Packet) (rest : List ℕ)
      → IsStorable p
      → r.file_stream ≡ at_bytes (header_bytes o p ++ (p.bytes ++ rest))
      → read_next_packet o r ≡ (some (length (take room p.bytes)), after p.bytes rest)
  unfolding read_next_packet read_payload
  read_next_packet-stored o p rest h e =
      rw
        (
          e,
          read_stream-append 16 (header_bytes o p) (p.bytes ++ rest)
              (sym (length-header_bytes o p)),
          incl_len-header_bytes o p h,
        )
        (read_payload-stored p.bytes rest)

  length-into : (bytes : List ℕ) → length (into (take room bytes) r.packet_buffer) ≡ room
  length-into bytes =
      length-append (take room bytes) (drop (length (take room bytes)) r.packet_buffer)
      ∙ omega (
        arith,
        size,
        length-take room bytes,
        length-drop (length (take room bytes)) r.packet_buffer,
      )

no_packet_left :
    (o : ByteOrder) (r : PcapFileReader)
    → r.file_stream ≡ at_bytes []
    → (r' : PcapFileReader) × (read_next_packet o r ≡ (none, r'))
unfolding read_next_packet read_stream
no_packet_left o r e = (
  record r { file_stream = record { is_open = true; ahead = []; eof = true; fail = true } },
  rw e refl,
)

read_packets-stored :
    (o : ByteOrder) (ps : List Packet) (r : PcapFileReader) (room fuel : ℕ)
    → length r.packet_buffer ≡ room
    → All IsStorable ps
    → r.file_stream ≡ at_bytes (store_packets o ps)
    → length ps < fuel
    → read_packets fuel o r ≡ accept (map (λ p. take room p.bytes) ps)
read_packets-stored o ps r room zero size h e enough = absurd (omega arith)
read_packets-stored o [] r room (suc fuel) size h e enough =
    read_packets_last o fuel r (no_packet_left o r e).1
read_packets-stored o (p ∷ ps) r room (suc fuel) size h e enough =
    let next : PcapFileReader = after r room size p.bytes (store_packets o ps) in
    rw⁻¹ (take-append (take room p.bytes) (drop (length (take room p.bytes)) r.packet_buffer)) (
      read_packets_more o fuel (length (take room p.bytes)) r
        (read_next_packet-stored r room size o p (store_packets o ps) h.0 e)
        (read_packets-stored o ps next room fuel (length-into r room size p.bytes) h.1 refl
          (omega arith)))

open_file-capture :
    (o : ByteOrder) (magic_number : ℕ) (others rest : List ℕ)
    → is_native magic_number ≡ true
    → length others ≡ 20
    → open_file o (init (some ((store32 o magic_number ++ others) ++ rest))) ≡ (
      true,
      record (init (some ((store32 o magic_number ++ others) ++ rest))) {
        file_stream = at_bytes rest;
      },
    )
unfolding open_file
open_file-capture o magic_number others rest native size =
    rw
      (
        read_stream-append 24 (store32 o magic_number ++ others) rest (header_size o),
        magic_number-store32 o magic_number others (ground arith),
        native,
      )
      refl
  where
    header_size : (o : ByteOrder) → 24 ≡ length (store32 o magic_number ++ others)
    header_size little = omega arith
    header_size big = omega arith

-- A capture in the byte order of the machine is opened, and reading until `read_next_packet` returns
-- false hands over exactly its packets, in order, each cut off at the 65535 bytes of the buffer.
pub read_packets-capture :
    (o : ByteOrder) (magic_number : ℕ) (others : List ℕ) (ps : List Packet) (fuel : ℕ)
    → is_native magic_number ≡ true
    → length others ≡ 20
    → All IsStorable ps
    → length ps < fuel
    → (r : PcapFileReader) × (open_file o (init (some (capture o magic_number others ps)))
        ≡ (true, r))
      × (read_packets fuel o r ≡ accept (map captured ps))
read_packets-capture o magic_number others ps fuel native size h enough = (
  record (init (some (capture o magic_number others ps))) {
    file_stream = at_bytes (store_packets o ps);
  },
  open_file-capture o magic_number others (store_packets o ps) native size,
  read_packets-stored o ps _ buffer_size fuel (length-replicate {A = ℕ} buffer_size 0) h refl
      enough,
)
