-- ===== src/IpDefragmenter/Examples.antt =====
-- A datagram of ten bytes in two fragments, the second of which comes first.
use nethex.Base.{
  ◌↔◌, ◌<◌, ◌+◌, ℕ, ◌≡◌, refl, true, false, List, [], ◌∷◌, none, some, accept, arith, All, Yields,
}
use nethex.Base.Table.{lookup, erase, Distinct}
use nethex.IpDefragmenter.{
  FragmentKey, IpDefragmenter, same_key, process_fragment, add_fragment, store, write_fragment,
  finish, is_fully_covered, all_received, evict_stale_fragments, evict_from, FragmentBuffer,
}
use nethex.IpDefragmenter.Bounds.{IsBounded, ProcessPost, process_fragment-Yields}
use nethex.IpDefragmenter.Pieces.{Piece, IsPiece}
use nethex.IpDefragmenter.Reassembly.{nothing, receive_all, reassembled, receive_all_lem}
use nethex.IpDefragmenter.Eviction.{evict_stale_fragments_iff}

abbrev key : FragmentKey
key = record { src_ip = 1; dest_ip = 2; identification = 3; protocol = 17 }

abbrev fresh : IpDefragmenter
fresh = record { buffers = []; completed_datagram = [] }

abbrev waiting : IpDefragmenter
waiting = record {
  buffers =
      (
        key,
        record {
          bytes = 0 ∷ 0 ∷ 0 ∷ 0 ∷ 0 ∷ 0 ∷ 0 ∷ 0 ∷ 9 ∷ 10 ∷ [];
          received =
              false ∷ false ∷ false ∷ false ∷ false ∷ false ∷ false ∷ false ∷ true ∷ true ∷ [];
          total_length = 10;
          got_last_fragment = true;
          first_seen = 5;
        },
      )
      ∷ [];
  completed_datagram = [];
}

last_first : process_fragment fresh key 1 false (some (9 ∷ 10 ∷ [])) 2 5 ≡ accept (waiting, none)
unfolding process_fragment add_fragment store write_fragment finish is_fully_covered all_received
    same_key
last_first = refl

abbrev whole : List ℕ
whole = 1 ∷ 2 ∷ 3 ∷ 4 ∷ 5 ∷ 6 ∷ 7 ∷ 8 ∷ 9 ∷ 10 ∷ []

then_whole :
    process_fragment waiting key 0 true (some (1 ∷ 2 ∷ 3 ∷ 4 ∷ 5 ∷ 6 ∷ 7 ∷ 8 ∷ [])) 8 6
    ≡ accept (record { buffers = []; completed_datagram = whole }, some whole)
unfolding process_fragment add_fragment store write_fragment finish is_fully_covered all_received
    same_key
then_whole = refl

waiting-IsBounded : IsBounded waiting
waiting-IsBounded = record {
  few = omega arith;
  buffers = (record { in_step = refl; small = omega arith; total = omega arith }, tt);
}

process_fragment-Yields_example :
    Yields ProcessPost (process_fragment waiting key 8191 true (some (1 ∷ 2 ∷ [])) 2 6)
process_fragment-Yields_example =
    process_fragment-Yields waiting key 8191 true (some (1 ∷ 2 ∷ [])) 2 6 waiting-IsBounded
      (omega arith)

-- The buffer was begun at the time 5.
evict_stale_fragments_iff_example :
    ((k : FragmentKey) (buf : FragmentBuffer)
      → (lookup same_key k (evict_stale_fragments waiting 30_500_000_000).buffers ≡ some buf) ↔ (
          (lookup same_key k waiting.buffers ≡ some buf)
          × (30_500_000_000 < buf.first_seen + 31_000_000_000)))
    × Distinct same_key (evict_stale_fragments waiting 30_500_000_000).buffers
    × ((evict_stale_fragments waiting 30_500_000_000).completed_datagram
        ≡ waiting.completed_datagram)
evict_stale_fragments_iff_example = evict_stale_fragments_iff waiting 30_500_000_000 (refl, tt)

kept_at_30 : (evict_stale_fragments waiting 31_000_000_004).buffers ≡ waiting.buffers
unfolding evict_stale_fragments evict_from
kept_at_30 = refl

dropped_at_31 : (evict_stale_fragments waiting 31_000_000_005).buffers ≡ []
unfolding evict_stale_fragments evict_from
dropped_at_31 = refl

-- The last two bytes first, then the same once more, then what is missing, overlapping.
abbrev pieces : List Piece
pieces =
    record { units = 1; size = 2; arrival = 0 }
    ∷ record { units = 1; size = 2; arrival = 1 }
    ∷ record { units = 0; size = 9; arrival = 2 }
    ∷ []

handed_over : reassembled key whole nothing pieces ≡ whole ∷ []
handed_over = refl

receive_all_lem_example :
    (d : IpDefragmenter) × (receive_all key whole fresh pieces
      ≡ accept (d, reassembled key whole nothing pieces))
    × (erase same_key key d.buffers ≡ [])
receive_all_lem_example =
    receive_all_lem key whole fresh pieces (omega arith) pieces-IsPiece tt refl (omega arith)
  where
    pieces-IsPiece : All (IsPiece whole) pieces
    pieces-IsPiece = omega arith
