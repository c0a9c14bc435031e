-- ===== src/IpDefragmenter/Pieces.antt =====
-- A datagram that is cut into fragments, and a buffer that holds some of them.
use nethex.Base.{
  ℕ, ◌+◌, ◌-◌, ◌*◌, ◌≤◌, ◌<◌, ◌≡◌, refl, sym, ap, ◌∙◌, inl, inr, Bool, true, false, not, ◌&&◌, ◌||◌,
  List, Bool-cases, arith, length, length-take, length-drop, length-replicate, take-length, eq-take,
  get_or, take, drop, replicate, ltb, leb, ◌==◌, if◌then◌else◌, accept, in_array_ok, ltb→ge, lt→ltb,
}
use nethex.IpDefragmenter.{
  FragmentBuffer, resize, overwrite, write_fragment, store, is_fully_covered, new_buffer,
}
use nethex.IpDefragmenter.Bounds.{length-resize, length-overwrite}
use nethex.IpDefragmenter.Coverage.{
  get_or-take, get_or-drop, get_or-replicate_in, get_or-resize, get_or-overwrite, all_below,
  all_below-at, all_below-ext, is_fully_covered-all_below,
}

-- A piece of a datagram, with the time at which it arrives.
pub record Piece : Type 0 where
  pub units : ℕ
  pub size : ℕ
  pub arrival : ℕ

module _ (datagram : List ℕ) where
  -- It has at least a byte and lies inside the datagram.
  pub record IsPiece (p : Piece) : Type 0 where
    pub some_bytes : 0 < p.size
    pub inside : p.units * 8 + p.size ≤ length datagram

  -- What the fragment carries of it: its bytes, and whether it is not the last one.
  abbrev pub bytes_of : Piece → List ℕ
  bytes_of p = take p.size (drop (p.units * 8) datagram)

  abbrev pub more_of : Piece → Bool
  more_of p = not (p.units * 8 + p.size == length datagram)

  -- The places that have arrived, once the piece has.
  abbrev pub with_piece : (ℕ → Bool) → Piece → ℕ → Bool
  with_piece covered p i = (leb (p.units * 8) i && ltb i (p.units * 8 + p.size)) || covered i

  -- The buffer has the datagram's bytes at the places that have arrived.
  pub record Holds (covered : ℕ → Bool) (buf : FragmentBuffer) : Type 0 where
    pub flags : (i : ℕ) → get_or buf.received i false ≡ covered i
    pub right : (i : ℕ) → covered i ≡ true → get_or buf.bytes i 0 ≡ get_or datagram i 0
    pub in_step : length buf.received ≡ length buf.bytes
    pub short : length buf.bytes ≤ length datagram
    pub last : buf.got_last_fragment ≡ covered (length datagram - 1)
    pub total : buf.got_last_fragment ≡ true → buf.total_length ≡ length datagram

  pub new_buffer-Holds :
      (now : ℕ) (covered : ℕ → Bool)
      → ((i : ℕ) → covered i ≡ false)
      → Holds covered (new_buffer now)
  new_buffer-Holds now covered empty = record {
    flags = λ i. sym (empty i);
    right = λ i h. ground (arith, empty i);
    in_step = refl;
    short = omega arith;
    last = sym (empty (length datagram - 1));
    total = λ e. cc;
  }

  module _ (covered : ℕ → Bool) (buf : FragmentBuffer) (p : Piece) (h : Holds covered buf)
      (v : IsPiece p) where
    abbrev written : List ℕ → List Bool → FragmentBuffer
    written bytes received = record {
      bytes = overwrite bytes (p.units * 8) (bytes_of p);
      received = overwrite received (p.units * 8) (replicate p.size true);
      total_length = if more_of p then buf.total_length else p.units * 8 + p.size;
      got_last_fragment = not (more_of p) || buf.got_last_fragment;
      first_seen = buf.first_seen;
    }

    length-bytes_of : length (bytes_of p) ≡ p.size
    length-bytes_of = omega (
      arith,
      v.inside,
      length-take p.size (drop (p.units * 8) datagram),
      length-drop (p.units * 8) datagram,
    )

    -- At a place of the piece the piece has the datagram's byte.
    get_or-bytes_of :
        (i : ℕ)
        → leb (p.units * 8) i && ltb i (p.units * 8 + p.size) ≡ true
        → get_or (bytes_of p) (i - p.units * 8) 0 ≡ get_or datagram i 0
    get_or-bytes_of i e =
        let at : p.units * 8 + (i - p.units * 8) ≡ i = ground arith in
        get_or-take p.size (drop (p.units * 8) datagram) (i - p.units * 8) 0
        ∙ rw (lt→ltb (i - p.units * 8) p.size (ground arith)) (
            get_or-drop (p.units * 8) datagram (i - p.units * 8) 0
            ∙ ap (λ (k : ℕ). get_or datagram k 0) at)

    module _ (bytes : List ℕ) (received : List Bool) (same : length received ≡ length bytes)
        (room : p.units * 8 + p.size ≤ length bytes) (short : length bytes ≤ length datagram)
        (flags : (i : ℕ) → get_or received i false ≡ covered i)
        (right : (i : ℕ) → covered i ≡ true → get_or bytes i 0 ≡ get_or datagram i 0) where
      trues : length (replicate p.size true) ≡ p.size
      trues = length-replicate p.size true

      in_bytes : p.units * 8 + length (bytes_of p) ≤ length bytes
      in_bytes = omega (arith, room, length-bytes_of)

      in_flags : p.units * 8 + length (replicate p.size true) ≤ length received
      in_flags = omega (arith, room, trues, same)

      flags' :
          (i : ℕ)
          → get_or (overwrite received (p.units * 8) (replicate p.size true)) i false
            ≡ with_piece covered p i
      flags' i = ground (
        arith,
        get_or-overwrite received (p.units * 8) (replicate p.size true) i false in_flags,
        trues,
        flags i,
        get_or-replicate_in p.size true (i - p.units * 8) false,
      )

      right' :
          (i : ℕ)
          → with_piece covered p i ≡ true
          → get_or (overwrite bytes (p.units * 8) (bytes_of p)) i 0 ≡ get_or datagram i 0
      right' i c = ground (
        arith,
        get_or-overwrite bytes (p.units * 8) (bytes_of p) i 0 in_bytes,
        length-bytes_of,
        get_or-bytes_of i,
        right i,
        c,
      )

      written-Holds : Holds (with_piece covered p) (written bytes received)
      written-Holds = record {
        flags = flags';
        right = right';
        in_step =
            length-overwrite received (p.units * 8) (replicate p.size true) in_flags
            ∙ same
            ∙ sym (length-overwrite bytes (p.units * 8) (bytes_of p) in_bytes);
        short = omega (arith, length-overwrite bytes (p.units * 8) (bytes_of p) in_bytes);
        last = ground (arith, h.last, v.inside, v.some_bytes);
        total = λ e. ground (arith, h.total, e);
      }

      write_fragment-Holds :
          write_fragment buf bytes received (p.units * 8) (more_of p) (bytes_of p) p.size
          ≡ accept (written bytes received)
      unfolding write_fragment
      write_fragment-Holds =
          let again : take p.size (bytes_of p) ≡ bytes_of p =
            ap (λ (k : ℕ). take k (bytes_of p)) (sym length-bytes_of) ∙ take-length (bytes_of p) in
          rw
            (
              in_array_ok (bytes_of p) 0 p.size (omega (arith, length-bytes_of)),
              in_array_ok bytes (p.units * 8) p.size room,
              in_array_ok received (p.units * 8) p.size (omega (arith, same)),
              again,
            )
            refl

    -- The piece is stored, and the buffer holds one piece more.
    pub store-Holds :
        (buf' : FragmentBuffer) × (store buf (p.units * 8) (more_of p) (bytes_of p) p.size
          ≡ accept buf')
        × Holds (with_piece covered p) buf'
    unfolding store
    store-Holds = elim (Bool-cases (ltb (length buf.bytes) (p.units * 8 + p.size))) [
      | inl longer ↦
          let end = p.units * 8 + p.size in
          let grown = resize end 0 buf.bytes in
          let marked = resize end false buf.received in
          let less : length buf.bytes ≤ end = ground arith in
          let size = length-resize end 0 buf.bytes in
          let same = length-resize end false buf.received ∙ sym size in
          let room : end ≤ length grown = omega (arith, size) in
          let short : length grown ≤ length datagram = omega (arith, size, v.inside) in
          let flags = λ (i : ℕ).
            get_or-resize end false buf.received i (omega (arith, h.in_step, less)) ∙ h.flags i in
          let right =
            λ (i : ℕ) (c : covered i ≡ true). get_or-resize end 0 buf.bytes i less ∙ h.right i c in
          (
            written grown marked,
            rw (longer, store) (write_fragment-Holds grown marked same room short flags right),
            written-Holds grown marked same room short flags right,
          )
      | inr held ↦
          let room = ltb→ge (length buf.bytes) (p.units * 8 + p.size) held in
          (
            written buf.bytes buf.received,
            rw (held, store)
                (write_fragment-Holds buf.bytes buf.received h.in_step room h.short h.flags
                  h.right),
            written-Holds buf.bytes buf.received h.in_step room h.short h.flags h.right,
          )
    ]

  -- A buffer is complete exactly if all places of the datagram have arrived.
  pub complete-Holds :
      (covered : ℕ → Bool) (buf : FragmentBuffer)
      → 0 < length datagram
      → Holds covered buf
      → (buf.got_last_fragment && is_fully_covered buf.received buf.total_length)
        ≡ all_below (length datagram) covered
  complete-Holds covered buf some_bytes h = elim (Bool-cases buf.got_last_fragment) [
    | inl last ↦
        rw (last, h.total last)
          (is_fully_covered-all_below buf.received (length datagram)
            ∙ all_below-ext (length datagram) (λ i. get_or buf.received i false) covered h.flags)
    | inr none_last ↦ elim (Bool-cases (all_below (length datagram) covered)) [
      | inl all ↦
          let end =
            all_below-at (length datagram) covered (length datagram - 1) all (omega arith) in
          absurd (ground (arith, h.last, end, none_last))
      | inr missing ↦ rw (none_last, missing) refl
    ]
  ]

  -- And then its bytes, cut to its length, are the datagram.
  pub resize-Holds :
      (covered : ℕ → Bool) (buf : FragmentBuffer)
      → 0 < length datagram
      → Holds covered buf
      → all_below (length datagram) covered ≡ true
      → resize buf.total_length 0 buf.bytes ≡ datagram
  resize-Holds covered buf some_bytes h all =
      let end = all_below-at (length datagram) covered (length datagram - 1) all (omega arith) in
      let total : buf.total_length ≡ length datagram = h.total (h.last ∙ end) in
      let size = length-resize (length datagram) 0 buf.bytes in
      let whole = resize (length datagram) 0 buf.bytes in
      rw total (
        eq-take whole datagram 0 (omega (arith, size)) (λ i l.
          get_or-resize (length datagram) 0 buf.bytes i h.short
          ∙ h.right i (all_below-at (length datagram) covered i all (omega (arith, size))))
        ∙ ap (λ (k : ℕ). take k datagram) size
        ∙ take-length datagram)
