-- ===== src/FiveTuple.antt =====
-- include/five_tuple.h and include/xxhash_functor.h: the key of a flow, the same for both
-- directions, and its hash. XXH64 is a parameter, applied to the thirteen bytes of the packed struct.
pub mod Symmetry
mod Examples
use nethex.Base.{ℕ, ◌+◌, ◌/◌, ◌%◌, Bool, ◌&&◌, List, [], ◌∷◌, ◌++◌, ltb, ◌==◌, if◌then◌else◌}
use nethex.Wire.{ByteOrder, little, big}

pub record FiveTuple : Type 0 where
  pub src_ip : ℕ
  pub dest_ip : ℕ
  pub src_port : ℕ
  pub dest_port : ℕ
  pub protocol : ℕ

-- `operator==`
unfoldable pub same_tuple : FiveTuple → FiveTuple → Bool
same_tuple a b =
    a.src_ip == b.src_ip
    && a.dest_ip == b.dest_ip
    && a.src_port == b.src_port
    && a.dest_port == b.dest_port
    && a.protocol == b.protocol

unfoldable pub create_bidirectional_tuple : ℕ → ℕ → ℕ → ℕ → ℕ → FiveTuple
create_bidirectional_tuple s_ip d_ip s_port d_port proto =
    if ltb s_ip d_ip
    then record {
      src_ip = s_ip;
      dest_ip = d_ip;
      src_port = s_port;
      dest_port = d_port;
      protocol = proto;
    }
    else if ltb d_ip s_ip
    then record {
      src_ip = d_ip;
      dest_ip = s_ip;
      src_port = d_port;
      dest_port = s_port;
      protocol = proto;
    }
    else if ltb s_port d_port
    then record {
      src_ip = s_ip;
      dest_ip = d_ip;
      src_port = s_port;
      dest_port = d_port;
      protocol = proto;
    }
    else record {
      src_ip = s_ip;
      dest_ip = d_ip;
      src_port = d_port;
      dest_port = s_port;
      protocol = proto;
    }

-- An unsigned integer in memory.
abbrev pub store16 : ByteOrder → ℕ → List ℕ
store16 little v = v % 0x100 ∷ v / 0x100 % 0x100 ∷ []
store16 big v = v / 0x100 % 0x100 ∷ v % 0x100 ∷ []

abbrev pub store32 : ByteOrder → ℕ → List ℕ
store32 little v = v % 0x100 ∷ v / 0x100 % 0x100 ∷ v / 0x10000 % 0x100 ∷ v / 0x1000000 % 0x100 ∷ []
store32 big v = v / 0x1000000 % 0x100 ∷ v / 0x10000 % 0x100 ∷ v / 0x100 % 0x100 ∷ v % 0x100 ∷ []

-- `XxHashFunctor`: `XXH64(&tuple, sizeof(FiveTuple), 0)`.
pub hash_fn : ByteOrder → (List ℕ → ℕ → ℕ) → FiveTuple → ℕ
hash_fn order xxh64 t =
    xxh64
      (store32 order t.src_ip
        ++ store32 order t.dest_ip
        ++ store16 order t.src_port
        ++ store16 order t.dest_port
        ++ t.protocol ∷ [])
      0
