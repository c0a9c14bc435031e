-- ===== src/MemoryPool.antt =====
-- include/memory_pool.h: the packet pool. Its mutex makes each call one step.
pub mod Invariant
pub mod Ledger
mod Examples
use nethex.Base.{
  ℕ, zero, suc, ◌+◌, Bool, true, false, List, [], ◌∷◌, ◌++◌, Option, none, some, get_elem?, set,
  replicate, Outcome, accept, fault,
}

-- `PacketMemoryPool`. A queue's head is its front.
pub record Pool : Type 0 where
  pub pool : List (List ℕ)
  pub free_slots : List ℕ
  pub max_payload_size : ℕ
  pub is_free : List Bool

-- `for (i = 0; i < capacity; ++i) free_slots.push(i);`, from `i` on, with the rounds left.
pub slots_from : ℕ → ℕ → List ℕ
slots_from i zero = []
slots_from i (suc left) = i ∷ slots_from (i + 1) left

-- The constructor. A slot number is a `uint32_t`.
pub init : ℕ → ℕ → Pool
unfolding slots_from
init capacity payload_size = record {
  pool = replicate capacity (replicate payload_size 0);
  free_slots = slots_from 0 capacity;
  max_payload_size = payload_size;
  is_free = replicate capacity true;
}

-- The slot that is lent; its number also names the buffer behind `out_buffer_ptr`.
pub acquire_slot : Pool → Option ℕ × Pool
acquire_slot p = elim p.free_slots [
  | [] ↦ (none, p)
  | slot ∷ rest ↦ (some slot, record p { free_slots = rest; is_free = set p.is_free slot false })
]

-- `is_free[slot_id]` is not checked: a number outside the pool is a fault.
pub release_slot : Pool → ℕ → Outcome Pool
release_slot p slot_id = elim (get_elem? p.is_free slot_id) [
  | none ↦ fault
  | some true ↦ accept p
  | some false ↦ accept (record p {
    free_slots = p.free_slots ++ (slot_id ∷ []);
    is_free = set p.is_free slot_id true;
  })
]
