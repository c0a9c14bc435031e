-- ===== src/IpDefragmenter.antt =====
-- src/ip_defragmenter.cpp and include/ip_defragmenter.h. The table is an association list; its
-- key is not symmetric in the addresses. The time is an argument of each call, in nanoseconds. A
-- read or write outside an array is `fault`. The returned pair (`out_payload`, `out_length`) is
-- the list of the bytes that it points to.
pub mod Bounds
pub mod Eviction
pub mod Coverage
pub mod Pieces
pub mod Reassembly
mod Examples
use nethex.Base.{
  ℕ, zero, suc, ◌+◌, ◌-◌, ◌*◌, ◌/◌, ◌^◌, Bool, true, false, not, ◌&&◌, ◌||◌, List, [], ◌∷◌, ◌++◌,
  Option, none, some, ltb, leb, ◌==◌, Outcome, accept, ◌>>=◌, ◌>>◌, in_array, take, drop, length,
  replicate, if◌then◌else◌,
}
use nethex.Base.Table.{lookup, replace, erase}

pub record FragmentKey : Type 0 where
  pub src_ip : ℕ
  pub dest_ip : ℕ
  pub identification : ℕ
  pub protocol : ℕ

-- `operator==`
unfoldable pub same_key : FragmentKey → FragmentKey → Bool
same_key a b =
    a.src_ip == b.src_ip
    && a.dest_ip == b.dest_ip
    && a.identification == b.identification
    && a.protocol == b.protocol

pub record FragmentBuffer : Type 0 where
  pub bytes : List ℕ
  pub received : List Bool
  pub total_length : ℕ
  pub got_last_fragment : Bool
  pub first_seen : ℕ

abbrev pub FragmentTable : Type 0
FragmentTable = List (FragmentKey × FragmentBuffer)

pub record IpDefragmenter : Type 0 where
  pub buffers : FragmentTable
  pub completed_datagram : List ℕ

abbrev pub max_datagram_size : ℕ
max_datagram_size = 65535

abbrev pub fragment_timeout_seconds : ℕ
fragment_timeout_seconds = 30

abbrev pub max_concurrent_datagrams : ℕ
max_concurrent_datagrams = 4096

-- `v.resize(n, a)` and a copy of bytes, or a fill, inside a vector.
abbrev pub resize {ℓ} : {A : Type ℓ} → ℕ → A → List A → List A
resize n a xs = take n xs ++ replicate (n - length xs) a

abbrev pub overwrite {ℓ} : {A : Type ℓ} → List A → ℕ → List A → List A
overwrite xs at ys = take at xs ++ (ys ++ drop (at + length ys) xs)

-- The loop over the first `length` flags.
pub all_received : List Bool → ℕ → Bool
all_received received zero = true
all_received [] (suc n) = true
all_received (r ∷ received) (suc n) = r && all_received received n

pub is_fully_covered : List Bool → ℕ → Bool
is_fully_covered received n = if ltb (length received) n then false else all_received received n

abbrev pub new_buffer : ℕ → FragmentBuffer
new_buffer now = record {
  bytes = [];
  received = [];
  total_length = 0;
  got_last_fragment = false;
  first_seen = now;
}

-- The fragment's bytes go into the two vectors of a buffer, which are long enough.
pub write_fragment :
    FragmentBuffer → List ℕ → List Bool → ℕ → Bool → List ℕ → ℕ → Outcome FragmentBuffer
write_fragment buf bytes received byte_offset more_fragments frag_payload frag_payload_len = do
  in_array frag_payload 0 frag_payload_len
  in_array bytes byte_offset frag_payload_len
  in_array received byte_offset frag_payload_len
  accept (record {
    bytes = overwrite bytes byte_offset (take frag_payload_len frag_payload);
    received = overwrite received byte_offset (replicate frag_payload_len true);
    total_length = if more_fragments then buf.total_length else byte_offset + frag_payload_len;
    got_last_fragment = not more_fragments || buf.got_last_fragment;
    first_seen = buf.first_seen;
  })

pub store : FragmentBuffer → ℕ → Bool → List ℕ → ℕ → Outcome FragmentBuffer
store buf byte_offset more_fragments frag_payload frag_payload_len =
    let end_offset = byte_offset + frag_payload_len in
    elim (ltb (length buf.bytes) end_offset) [
      | true ↦
          write_fragment buf (resize end_offset 0 buf.bytes) (resize end_offset false buf.received)
            byte_offset more_fragments frag_payload frag_payload_len
      | false ↦
          write_fragment buf buf.bytes buf.received byte_offset more_fragments frag_payload
            frag_payload_len
    ]

-- The buffer is handed over if it is complete, and kept if not.
pub finish : IpDefragmenter → FragmentKey → FragmentBuffer → IpDefragmenter × Option (List ℕ)
finish d key buf =
    if buf.got_last_fragment && is_fully_covered buf.received buf.total_length
    then (
      record {
        buffers = erase same_key key d.buffers;
        completed_datagram = resize buf.total_length 0 buf.bytes;
      },
      some (resize buf.total_length 0 buf.bytes),
    )
    else (record d { buffers = replace same_key key buf d.buffers }, none)

-- Into the buffer of this table.
pub add_fragment :
    IpDefragmenter
    → FragmentKey
    → FragmentBuffer
    → ℕ
    → Bool
    → List ℕ
    → ℕ
    → Outcome (IpDefragmenter × Option (List ℕ))
add_fragment d key buf byte_offset more_fragments frag_payload frag_payload_len = do
  stored ← store buf byte_offset more_fragments frag_payload frag_payload_len
  accept (finish d key stored)

pub process_fragment :
    IpDefragmenter
    → FragmentKey
    → ℕ
    → Bool
    → Option (List ℕ)
    → ℕ
    → ℕ
    → Outcome (IpDefragmenter × Option (List ℕ))
process_fragment d key units more_fragments none frag_payload_len now = accept (d, none)
process_fragment d key units more_fragments (some frag_payload) frag_payload_len now =
    if frag_payload_len == 0 || ltb max_datagram_size (units * 8 + frag_payload_len)
    then accept (d, none)
    else elim (lookup same_key key d.buffers) [
      | some buf ↦ add_fragment d key buf (units * 8) more_fragments frag_payload frag_payload_len
      | none ↦
          if leb max_concurrent_datagrams (length d.buffers)
          then accept (d, none)
          else add_fragment (record d { buffers = (key, new_buffer now) ∷ d.buffers }) key
              (new_buffer now) (units * 8) more_fragments frag_payload frag_payload_len
    ]

abbrev pub is_stale : ℕ → FragmentBuffer → Bool
is_stale now buf = ltb fragment_timeout_seconds ((now - buf.first_seen) / 10 ^ 9)

pub evict_from : ℕ → FragmentTable → FragmentTable
evict_from now [] = []
evict_from now ((key, buf) ∷ rest) =
    let kept = evict_from now rest in if is_stale now buf then kept else (key, buf) ∷ kept

pub evict_stale_fragments : IpDefragmenter → ℕ → IpDefragmenter
evict_stale_fragments d now = record d { buffers = evict_from now d.buffers }

abbrev pub get_pending_datagram_count : IpDefragmenter → ℕ
get_pending_datagram_count d = length d.buffers
