-- ===== src/PcapReader/Examples.antt =====
-- A capture with two packets, and a reader whose buffer is too small for the first.
use nethex.Base.{
  ◌≡◌, refl, ◌≤◌, true, false, [], ◌∷◌, ◌++◌, replicate, none, some, accept, arith, All, length,
  Yields, map,
}
use nethex.Wire.{little, load32}
use nethex.PcapReader.{
  PcapFileReader, init, open_file, read_stream, seek_stream, read_payload, read_next_packet,
  read_packets,
}
use nethex.PcapReader.Capture.{Packet, capture, captured, store_packets, read_packets-capture}
use nethex.PcapReader.Progress.{read_packets-Yields}

abbrev first : Packet
first = record { ts_sec = 1; ts_usec = 2; orig_len = 9; bytes = 1 ∷ 2 ∷ 3 ∷ 4 ∷ 5 ∷ 6 ∷ [] }

abbrev second : Packet
second = record { ts_sec = 3; ts_usec = 4; orig_len = 2; bytes = 7 ∷ 8 ∷ [] }

-- With three bytes of a header behind them.
abbrev small : PcapFileReader
small = record {
  file = none;
  file_stream = record {
    is_open = true;
    ahead = store_packets little (first ∷ second ∷ []) ++ (9 ∷ 9 ∷ 9 ∷ []);
    eof = false;
    fail = false;
  };
  packet_buffer = replicate 4 0;
}

cut_off : read_packets 3 little small ≡ accept ((1 ∷ 2 ∷ 3 ∷ 4 ∷ []) ∷ (7 ∷ 8 ∷ []) ∷ [])
unfolding read_packets read_next_packet read_payload read_stream seek_stream load32
cut_off = refl

read_packets-capture_example :
    (r : PcapFileReader) × (open_file little
        (init (some (capture little 0xa1b2c3d4 (replicate 20 0) (first ∷ second ∷ []))))
      ≡ (true, r))
    × (read_packets 3 little r ≡ accept (map captured (first ∷ second ∷ [])))
read_packets-capture_example =
    read_packets-capture little 0xa1b2c3d4 (replicate 20 0) (first ∷ second ∷ []) 3 refl refl
      (omega arith, (omega arith, tt)) (omega arith)

read_packets-Yields_example :
    Yields (All (λ packet. length packet ≤ 4)) (read_packets 60 little small)
read_packets-Yields_example = read_packets-Yields little small 60 (omega arith)
