-- ===== src/IpDefragmenter/Reassembly.antt =====
-- Fragments of one datagram, in any order, are put together to that datagram.
use nethex.Base.{
  ℕ, ◌+◌, ◌*◌, ◌≤◌, ◌<◌, ◌≡◌, refl, sym, ap, ◌∙◌, inl, inr, Bool, true, false, ◌||◌, List, [], ◌∷◌,
  Option, none, some, Outcome, Bool-cases, Option-cases, arith, length, ltb, leb, ◌==◌,
  if◌then◌else◌, accept, ◌>>=◌, All,
}
use nethex.Base.Table.{
  lookup, replace, erase, Distinct, lookup-replace, lookup-erase, erase-Distinct, replace-Distinct,
  erase-replace, erase_absent,
}
use nethex.IpDefragmenter.{
  FragmentKey, same_key, FragmentBuffer, IpDefragmenter, new_buffer, finish, add_fragment,
  process_fragment,
}
use nethex.IpDefragmenter.Coverage.{all_below}
use nethex.IpDefragmenter.Eviction.{same_key_iff}
use nethex.IpDefragmenter.Pieces.{
  Piece, IsPiece, bytes_of, more_of, with_piece, Holds, new_buffer-Holds, store-Holds,
  complete-Holds, resize-Holds,
}

abbrev pub nothing : ℕ → Bool
nothing i = false

module _ (key : FragmentKey) (datagram : List ℕ) where
  -- The fragment of a piece, as it reaches the defragmenter.
  abbrev pub receive : IpDefragmenter → Piece → Outcome (IpDefragmenter × Option (List ℕ))
  receive d p =
      process_fragment d key p.units (more_of datagram p) (some (bytes_of datagram p)) p.size
        p.arrival

  -- The places that have arrived since the datagram was last handed over, as the table knows them.
  abbrev Tracks : (ℕ → Bool) → Option FragmentBuffer → Type 0
  Tracks covered none = (i : ℕ) → covered i ≡ false
  Tracks covered (some buf) = Holds datagram covered buf

  pub record IsAssembling (covered : ℕ → Bool) (d : IpDefragmenter) : Type 0 where
    pub distinct : Distinct same_key d.buffers
    pub tracks : Tracks covered (lookup same_key key d.buffers)
    -- Others leave room for this datagram.
    pub room : length (erase same_key key d.buffers) < 4096

  -- What is handed over, and what is waited for then.
  abbrev pub is_complete : (ℕ → Bool) → Bool
  is_complete covered = all_below (length datagram) covered

  abbrev pub handed : (ℕ → Bool) → Option (List ℕ)
  handed covered = if is_complete covered then some datagram else none

  abbrev pub waited : (ℕ → Bool) → ℕ → Bool
  waited covered = if is_complete covered then nothing else covered

  finish-IsAssembling :
      (covered : ℕ → Bool) (d : IpDefragmenter) (old buf : FragmentBuffer)
      → 0 < length datagram
      → Distinct same_key d.buffers
      → length (erase same_key key d.buffers) < 4096
      → lookup same_key key d.buffers ≡ some old
      → Holds datagram covered buf
      → (d' : IpDefragmenter) × (finish d key buf ≡ (d', handed covered))
        × IsAssembling (waited covered) d'
        × (erase same_key key d'.buffers ≡ erase same_key key d.buffers)
  unfolding finish
  finish-IsAssembling covered d old buf some_bytes distinct room there h =
      let complete = complete-Holds datagram covered buf some_bytes h in
      let self : same_key key key ≡ true = (same_key_iff key key).1 refl in
      elim (Bool-cases (is_complete covered)) [
        | inl all ↦
            let gone : lookup same_key key (erase same_key key d.buffers) ≡ none =
              lookup-erase same_key same_key_iff key key d.buffers distinct ∙ rw self refl in
            let once = erase_absent same_key key (erase same_key key d.buffers) gone in
            (
              record { buffers = erase same_key key d.buffers; completed_datagram = datagram },
              rw (finish, complete ∙ all, resize-Holds datagram covered buf some_bytes h all, all)
                  refl,
              rw all (record {
                distinct = erase-Distinct same_key same_key_iff key d.buffers distinct;
                tracks = rw (gone, Tracks) (λ i. refl);
                room = rw once room;
              }),
              once,
            )
        | inr missing ↦
            let here : lookup same_key key (replace same_key key buf d.buffers) ≡ some buf =
              lookup-replace same_key same_key_iff key key buf old d.buffers there ∙ rw self refl in
            let rest = erase-replace same_key key buf d.buffers in
            (
              record d { buffers = replace same_key key buf d.buffers },
              rw (finish, complete ∙ missing, missing) refl,
              rw missing (record {
                distinct = replace-Distinct same_key same_key_iff key buf d.buffers distinct;
                tracks = rw (here, Tracks) h;
                room = rw rest room;
              }),
              rest,
            )
      ]

  -- Into a buffer that stands in the table.
  add_fragment-IsAssembling :
      (covered : ℕ → Bool) (d : IpDefragmenter) (buf : FragmentBuffer) (p : Piece)
      → IsPiece datagram p
      → Distinct same_key d.buffers
      → length (erase same_key key d.buffers) < 4096
      → lookup same_key key d.buffers ≡ some buf
      → Holds datagram covered buf
      → (d' : IpDefragmenter) × (add_fragment d key buf
            (p.units * 8)
            (more_of datagram p)
            (bytes_of datagram p)
            p.size
          ≡ accept (d', handed (with_piece datagram covered p)))
        × IsAssembling (waited (with_piece datagram covered p)) d'
        × (erase same_key key d'.buffers ≡ erase same_key key d.buffers)
  unfolding add_fragment
  add_fragment-IsAssembling covered d buf p v distinct room there h =
      let (stored, stores, h') = store-Holds datagram covered buf p h v in
      let (d', done, assembling, rest) =
        finish-IsAssembling (with_piece datagram covered p) d buf stored
          (omega (arith, v.some_bytes, v.inside)) distinct room there h' in
      (d', rw (stores, ◌>>=◌) (ap accept done), assembling, rest)

  -- One fragment: it completes the datagram or is kept, and no other datagram's buffer changes.
  receive-IsAssembling :
      (covered : ℕ → Bool) (d : IpDefragmenter) (p : Piece)
      → length datagram ≤ 65535
      → IsPiece datagram p
      → IsAssembling covered d
      → (d' : IpDefragmenter) × (receive d p ≡ accept (d', handed (with_piece datagram covered p)))
        × IsAssembling (waited (with_piece datagram covered p)) d'
        × (erase same_key key d'.buffers ≡ erase same_key key d.buffers)
  unfolding process_fragment
  receive-IsAssembling covered d p small v a =
      let fits : p.size == 0 || ltb 65535 (p.units * 8 + p.size) ≡ false =
        ground (arith, v.some_bytes, v.inside) in
      elim (Option-cases (lookup same_key key d.buffers)) [
        | inl new ↦
            let absent = erase_absent same_key key d.buffers new in
            let room : leb 4096 (length d.buffers) ≡ false = ground (arith, a.room, absent) in
            let empty : (i : ℕ) → covered i ≡ false = rw (new, Tracks) at a.tracks in
            let self : same_key key key ≡ true = (same_key_iff key key).1 refl in
            let begun : IpDefragmenter = record d {
              buffers = (key, new_buffer p.arrival) ∷ d.buffers;
            } in
            let bare : erase same_key key begun.buffers ≡ d.buffers = rw self refl in
            let (d', done, assembling, rest) =
              add_fragment-IsAssembling covered begun (new_buffer p.arrival) p v (new, a.distinct)
                (rw bare (ground (arith, room))) (rw self refl)
                (new_buffer-Holds datagram p.arrival covered empty) in
            (d', rw (process_fragment, fits, new, room) done, assembling, rest ∙ bare ∙ sym absent)
        | inr (buf, there) ↦
            let (d', done, assembling, rest) =
              add_fragment-IsAssembling covered d buf p v a.distinct a.room there
                (rw (there, Tracks) at a.tracks) in
            (d', rw (process_fragment, fits, there) done, assembling, rest)
      ]

  -- The datagrams that are handed over while fragments arrive.
  abbrev pub add_handed : Option (List ℕ) → List (List ℕ) → List (List ℕ)
  add_handed none later = later
  add_handed (some whole) later = whole ∷ later

  pub receive_all : IpDefragmenter → List Piece → Outcome (IpDefragmenter × List (List ℕ))
  receive_all d [] = accept (d, [])
  receive_all d (p ∷ pieces) = do
    (d', out) ← receive d p
    (d'', later) ← receive_all d' pieces
    accept (d'', add_handed out later)

  -- Without buffers: the datagram itself, each time the pieces since the last time cover it.
  abbrev pub reassembled : (ℕ → Bool) → List Piece → List (List ℕ)
  reassembled covered [] = []
  reassembled covered (p ∷ pieces) =
      add_handed (handed (with_piece datagram covered p))
        (reassembled (waited (with_piece datagram covered p)) pieces)

  receive_all-reassembled :
      (covered : ℕ → Bool) (d : IpDefragmenter) (pieces : List Piece)
      → length datagram ≤ 65535
      → All (IsPiece datagram) pieces
      → IsAssembling covered d
      → (d' : IpDefragmenter) × (receive_all d pieces ≡ accept (d', reassembled covered pieces))
        × (erase same_key key d'.buffers ≡ erase same_key key d.buffers)
  unfolding receive_all
  receive_all-reassembled covered d [] small v a = (d, refl, refl)
  receive_all-reassembled covered d (p ∷ pieces) small v a =
      let (d', one, a', rest) = receive-IsAssembling covered d p small v.0 a in
      let (d'', all, rest') =
        receive_all-reassembled (waited (with_piece datagram covered p)) d' pieces small v.1 a' in
      (d'', rw (receive_all, one, ◌>>=◌, all) refl, rest' ∙ rest)

  -- The fragments of a datagram of at most 65535 bytes arrive in any order, repeated and overlapping
  -- as they may be, at a table that has no buffer for it yet and room for one. Then no call fails;
  -- what is handed over is the datagram and nothing else, each time that the fragments since the last
  -- time cover all its bytes; and the buffers of other datagrams stay as they are.
  pub receive_all_lem :
      (d : IpDefragmenter) (pieces : List Piece)
      → length datagram ≤ 65535
      → All (IsPiece datagram) pieces
      → Distinct same_key d.buffers
      → lookup same_key key d.buffers ≡ none
      → length d.buffers < 4096
      → (d' : IpDefragmenter) × (receive_all d pieces ≡ accept (d', reassembled nothing pieces))
        × (erase same_key key d'.buffers ≡ d.buffers)
  receive_all_lem d pieces small v distinct new room =
      let absent = erase_absent same_key key d.buffers new in
      let (d', all, rest) = receive_all-reassembled nothing d pieces small v (record {
        distinct = distinct;
        tracks = rw (new, Tracks) (λ i. refl);
        room = rw absent room;
      }) in
      (d', all, rest ∙ absent)
