-- ===== src/PcapReader/Progress.antt =====
-- Reading ends on any file, and no packet leaves the buffer.
use nethex.Base.{
  ℕ, zero, suc, ◌+◌, ◌-◌, ◌≤◌, ◌<◌, ◌≡◌, refl, ap, ◌∙◌, inl, inr, false, List, [], ◌∷◌, Option,
  none, some, arith, length, length-append, length-take, length-drop, take, drop, All, ltb, leb,
  Bool-cases, accept, subst, Yields, Yields-cases, ◌||◌, not,
}
use nethex.Wire.{ByteOrder}
use nethex.PcapReader.{
  Stream, read_stream, seek_stream, PcapFileReader, into, read_payload, read_next_packet,
  read_packets,
}

-- What one call does: it fails, or a header is behind it and the packet is in the buffer.
abbrev Advanced : PcapFileReader → Option ℕ × PcapFileReader → Type 0
Advanced r (none, r') = Unit
Advanced r (some n, r') =
    (n ≤ length r.packet_buffer)
    × (length r'.packet_buffer ≡ length r.packet_buffer)
    × (length r'.file_stream.ahead < length r.file_stream.ahead)

read_stream_lem :
    (s : Stream) (n : ℕ)
    → (length (read_stream s n).0 ≤ n)
      × (length (read_stream s n).1.ahead ≤ length s.ahead)
      × ((read_stream s n).1.fail ≡ false → length (read_stream s n).1.ahead + n ≡ length s.ahead)
unfolding read_stream
read_stream_lem s n = elim (Bool-cases (s.eof || s.fail)) [
  | inl bad ↦ rw (bad, read_stream) (omega arith, omega arith, λ e. cc)
  | inr good ↦ elim (Bool-cases (leb n (length s.ahead))) [
    | inl enough ↦
        rw (good, enough, read_stream)
          (
            omega (arith, length-take n s.ahead),
            omega (arith, length-drop n s.ahead),
            λ e. ground (arith, length-drop n s.ahead),
          )
    | inr short ↦ rw (good, short, read_stream) (ground arith, omega arith, λ e. cc)
  ]
]

seek_stream-ahead : (s : Stream) (n : ℕ) → length (seek_stream s n).ahead ≤ length s.ahead
unfolding seek_stream
seek_stream-ahead s n = ground (arith, length-drop n s.ahead)

seek_stream-fail : (s : Stream) (n : ℕ) → (seek_stream s n).fail ≡ s.fail
unfolding seek_stream
seek_stream-fail s n = ground arith

length-into :
    (bytes buffer : List ℕ)
    → length bytes ≤ length buffer
    → length (into bytes buffer) ≡ length buffer
length-into bytes buffer h =
    length-append bytes (drop (length bytes) buffer)
    ∙ omega (arith, length-drop (length bytes) buffer)

read_payload-Advanced :
    (r : PcapFileReader) (s : Stream) (incl_len : ℕ)
    → length s.ahead < length r.file_stream.ahead
    → Advanced r (read_payload r s incl_len)
unfolding read_payload
read_payload-Advanced r s incl_len h = elim (Bool-cases (ltb (length r.packet_buffer) incl_len)) [
  | inl long ↦
      let size = length r.packet_buffer in
      let (few, less, left) = read_stream_lem s size in
      let s' : Stream = (read_stream s size).1 in
      elim (Bool-cases (seek_stream s' (incl_len - size)).fail) [
        | inl bad ↦ rw (long, bad) tt
        | inr good ↦
            rw (long, good)
              (
                omega arith,
                length-into (read_stream s size).0 r.packet_buffer few,
                omega (arith, seek_stream-ahead s' (incl_len - size)),
              )
      ]
  | inr short ↦
      let (few, less, left) = read_stream_lem s incl_len in
      let fits : incl_len ≤ length r.packet_buffer = ground arith in
      elim (Bool-cases (read_stream s incl_len).1.fail) [
        | inl bad ↦ rw (short, bad) tt
        | inr good ↦
            rw (short, good)
              (
                fits,
                length-into (read_stream s incl_len).0 r.packet_buffer (omega arith),
                omega arith,
              )
      ]
]

read_next_packet-Advanced : (o : ByteOrder) (r : PcapFileReader) → Advanced r (read_next_packet o r)
unfolding read_next_packet
read_next_packet-Advanced o r = elim (Bool-cases (not r.file_stream.is_open || r.file_stream.eof)) [
  | inl bad ↦ rw bad tt
  | inr good ↦
      let (few, less, left) = read_stream_lem r.file_stream 16 in
      elim (Bool-cases (read_stream r.file_stream 16).1.fail) [
        | inl bad ↦ rw (good, bad) tt
        | inr fine ↦
            let behind : length (read_stream r.file_stream 16).1.ahead
                < length r.file_stream.ahead =
              omega (arith, left fine) in
            rw (good, fine) (read_payload-Advanced r (read_stream r.file_stream 16).1 _ behind)
      ]
]

pub read_packets_last :
    (o : ByteOrder) (fuel : ℕ) (r : PcapFileReader) {r' : PcapFileReader}
    → read_next_packet o r ≡ (none, r')
    → read_packets (suc fuel) o r ≡ accept []
unfolding read_packets
read_packets_last o fuel r e = rw (read_packets, e) refl

pub read_packets_more :
    (o : ByteOrder) (fuel n : ℕ) (r : PcapFileReader) {r' : PcapFileReader}
    {packets : List (List ℕ)}
    → read_next_packet o r ≡ (some n, r')
    → read_packets fuel o r' ≡ accept packets
    → read_packets (suc fuel) o r ≡ accept (take n r'.packet_buffer ∷ packets)
unfolding read_packets
read_packets_more o fuel n r e rest =
    rw
      (
        read_packets,
        ap (λ (x : Option ℕ × PcapFileReader). x.0) e,
        ap (λ (x : Option ℕ × PcapFileReader). x.1) e,
        rest,
      )
      refl

-- Whatever the file holds and whatever the stream's state, reading until `read_next_packet` returns
-- false ends, with at most one call for each byte that is left and one more, and no packet is longer
-- than the buffer.
pub read_packets-Yields :
    (o : ByteOrder) (r : PcapFileReader) (fuel : ℕ)
    → length r.file_stream.ahead < fuel
    → Yields (All (λ packet. length packet ≤ length r.packet_buffer)) (read_packets fuel o r)
read_packets-Yields o r zero enough = absurd (omega arith)
read_packets-Yields o r (suc fuel) enough =
    go (read_next_packet o r) refl (read_next_packet-Advanced o r)
      λ r' less. read_packets-Yields o r' fuel less
  where
    go :
        (x : Option ℕ × PcapFileReader)
        → read_next_packet o r ≡ x
        → Advanced r x
        → ((r' : PcapFileReader)
            → length r'.file_stream.ahead < fuel
            → Yields
                (All (λ packet. length packet ≤ length r'.packet_buffer))
                (read_packets fuel o r'))
        → Yields
            (All (λ packet. length packet ≤ length r.packet_buffer))
            (read_packets (suc fuel) o r)
    go (none, r') e a rest = rw (read_packets_last o fuel r e, Yields) tt
    go (some n, r') e (fits, size, less) rest =
        let (packets, reads, h) = Yields-cases _ (read_packets fuel o r') (rest r' (omega arith)) in
        rw (read_packets_more o fuel n r e reads, Yields)
          (
            omega (arith, length-take n r'.packet_buffer),
            subst (λ (k : ℕ). All (λ (packet : List ℕ). length packet ≤ k) packets) size h,
          )
