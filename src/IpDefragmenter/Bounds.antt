-- ===== src/IpDefragmenter/Bounds.antt =====
-- What hostile fragments can make the defragmenter read, write and keep.
use nethex.Base.{
  ℕ, ◌+◌, ◌-◌, ◌*◌, ◌≤◌, ◌<◌, ◌≡◌, refl, sym, ◌∙◌, inl, inr, Bool, true, false, ◌&&◌, ◌||◌, List,
  ◌++◌, Option, none, some, Option-cases, Bool-cases, arith, length, length-append, length-take,
  length-drop, length-replicate, take, drop, replicate, ltb, leb, ◌==◌, Yields, Yields-cases,
  in_array_ok, ltb→ge, ◌>>=◌,
}
use nethex.Base.Table.{
  lookup, Entries, lookup-Entries, replace-Entries, erase-Entries, length-erase_le, length-replace,
}
use nethex.IpDefragmenter.{
  FragmentKey, same_key, FragmentBuffer, IpDefragmenter, resize, overwrite, new_buffer,
  write_fragment, store, finish, add_fragment, process_fragment, is_fully_covered,
}

-- Bytes and flags in step, within the largest datagram.
pub record IsBuffer (buf : FragmentBuffer) : Type 0 where
  pub in_step : length buf.received ≡ length buf.bytes
  pub small : length buf.bytes ≤ 65535
  pub total : buf.total_length ≤ length buf.bytes

pub record IsBounded (d : IpDefragmenter) : Type 0 where
  pub few : length d.buffers ≤ 4096
  pub buffers : Entries same_key IsBuffer d.buffers

-- A datagram that is handed over is no longer than the largest.
abbrev pub IsSmall : Option (List ℕ) → Type 0
IsSmall none = Unit
IsSmall (some datagram) = length datagram ≤ 65535

abbrev pub ProcessPost : IpDefragmenter × Option (List ℕ) → Type 0
ProcessPost (d, out) = IsBounded d × IsSmall out

pub length-resize {ℓ} : {A : Type ℓ} (n : ℕ) (a : A) (xs : List A) → length (resize n a xs) ≡ n
length-resize n a xs = omega (
  arith,
  length-append (take n xs) (replicate (n - length xs) a),
  length-take n xs,
  length-replicate (n - length xs) a,
)

pub length-overwrite {ℓ} :
    {A : Type ℓ} (xs : List A) (at : ℕ) (ys : List A)
    → at + length ys ≤ length xs
    → length (overwrite xs at ys) ≡ length xs
length-overwrite xs at ys h = omega (
  arith,
  length-append (take at xs) (ys ++ drop (at + length ys) xs),
  length-append ys (drop (at + length ys) xs),
  length-take at xs,
  length-drop (at + length ys) xs,
)

module _ (buf : FragmentBuffer) (byte_offset : ℕ) (more : Bool) (payload : List ℕ) (n : ℕ)
    (v : IsBuffer buf) (inside : n ≤ length payload) (small : byte_offset + n ≤ 65535) where
  write_fragment-Yields :
      (bytes : List ℕ) (received : List Bool)
      → length received ≡ length bytes
      → byte_offset + n ≤ length bytes
      → length bytes ≤ 65535
      → buf.total_length ≤ length bytes
      → Yields IsBuffer (write_fragment buf bytes received byte_offset more payload n)
  unfolding write_fragment
  write_fragment-Yields bytes received same room below total =
      let from = in_array_ok payload 0 n (omega arith) in
      let to = in_array_ok bytes byte_offset n room in
      let flags = in_array_ok received byte_offset n (omega arith) in
      let taken : length (take n payload) ≡ n = omega (arith, length-take n payload) in
      let written = length-overwrite bytes byte_offset (take n payload) (omega (arith, taken)) in
      let trues = length-replicate n true in
      let marked =
        length-overwrite received byte_offset (replicate n true) (omega (arith, trues)) in
      rw (from, to, flags, ◌>>=◌, Yields)
        (record {
          in_step = marked ∙ same ∙ sym written;
          small = omega (arith, written);
          total = ground (arith, written);
        })

  store-Yields : Yields IsBuffer (store buf byte_offset more payload n)
  unfolding store
  store-Yields = elim (Bool-cases (ltb (length buf.bytes) (byte_offset + n))) [
    | inl longer ↦
        let size = length-resize (byte_offset + n) 0 buf.bytes in
        let size' = length-resize (byte_offset + n) false buf.received in
        let before : length buf.bytes < byte_offset + n = ground arith in
        rw (longer, Yields)
          (write_fragment-Yields _ _ (size' ∙ sym size) (omega (arith, size)) (omega (arith, size))
            (omega (arith, size, v.total)))
    | inr held ↦
        rw (held, Yields)
          (write_fragment-Yields buf.bytes buf.received v.in_step (ltb→ge _ _ held) v.small v.total)
  ]

finish-Post :
    (d : IpDefragmenter) (key : FragmentKey) (buf : FragmentBuffer)
    → IsBounded d
    → IsBuffer buf
    → ProcessPost (finish d key buf)
unfolding finish
finish-Post d key buf v w =
    elim (Bool-cases (buf.got_last_fragment && is_fully_covered buf.received buf.total_length)) [
      | inl complete ↦
          rw (complete, ProcessPost)
            (
              record {
                few = omega (arith, v.few, length-erase_le same_key IsBuffer key d.buffers);
                buffers = erase-Entries same_key IsBuffer key d.buffers v.buffers;
              },
              omega (arith, length-resize buf.total_length 0 buf.bytes, w.total, w.small),
            )
      | inr partial ↦
          rw (partial, ProcessPost)
            (
              record {
                few = omega (arith, v.few, length-replace same_key key buf d.buffers);
                buffers = replace-Entries same_key IsBuffer key buf d.buffers w v.buffers;
              },
              tt,
            )
    ]

add_fragment-Yields :
    (d : IpDefragmenter) (key : FragmentKey) (buf : FragmentBuffer) (byte_offset : ℕ) (more : Bool)
    (payload : List ℕ) (n : ℕ)
    → IsBounded d
    → IsBuffer buf
    → n ≤ length payload
    → byte_offset + n ≤ 65535
    → Yields ProcessPost (add_fragment d key buf byte_offset more payload n)
unfolding add_fragment
add_fragment-Yields d key buf byte_offset more payload n v w inside small =
    let (stored, e, kept) =
      Yields-cases IsBuffer (store buf byte_offset more payload n)
        (store-Yields buf byte_offset more payload n w inside small) in
    rw (e, Yields) (finish-Post d key stored v kept)

-- The payload of a fragment: a null pointer, or at least the bytes that are announced.
abbrev pub Holds : Option (List ℕ) → ℕ → Type 0
Holds none n = Unit
Holds (some payload) n = n ≤ length payload

-- No fragment, of whatever offset and length, makes `process_fragment` read or write outside an
-- array, and it always returns. At most 4096 buffers of at most 65535 bytes each stay, and a datagram
-- that it hands over has at most 65535 bytes.
pub process_fragment-Yields :
    (d : IpDefragmenter) (key : FragmentKey) (units : ℕ) (more : Bool) (payload : Option (List ℕ))
    (n now : ℕ)
    → IsBounded d
    → Holds payload n
    → Yields ProcessPost (process_fragment d key units more payload n now)
unfolding process_fragment
process_fragment-Yields d key units more none n now v h = (v, tt)
process_fragment-Yields d key units more (some payload) n now v h =
    elim (Bool-cases (n == 0 || ltb 65535 (units * 8 + n))) [
      | inl refused ↦ rw (refused, Yields) (v, tt)
      | inr taken ↦
          let small : units * 8 + n ≤ 65535 = ground arith in
          elim (Option-cases (lookup same_key key d.buffers)) [
            | inl new ↦ elim (Bool-cases (leb 4096 (length d.buffers))) [
              | inl full ↦ rw (taken, new, full, Yields) (v, tt)
              | inr room ↦
                  rw (taken, new, room, Yields)
                    (add_fragment-Yields _ key (new_buffer now) (units * 8) more payload n
                      (record { few = ground arith; buffers = (empty now, v.buffers) }) (empty now)
                      h small)
            ]
            | inr (buf, found) ↦
                rw (taken, found, Yields)
                  (add_fragment-Yields d key buf (units * 8) more payload n v
                    (lookup-Entries same_key IsBuffer key buf d.buffers v.buffers found) h small)
          ]
    ]
  where
    empty : (t : ℕ) → IsBuffer (new_buffer t)
    empty t = record { in_step = refl; small = omega arith; total = omega arith }
