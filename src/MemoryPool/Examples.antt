-- ===== src/MemoryPool/Examples.antt =====
-- The pool on small inputs.
use nethex.Base.{ℕ, ◌+◌, ◌≡◌, refl, true, false, [], ◌∷◌, arith, ltb, accept}
use nethex.Base.Counts.{flag, copies}
use nethex.MemoryPool.{Pool, init, acquire_slot, release_slot}
use nethex.MemoryPool.Invariant.{
  IsValid, init-IsValid, AcquireSpec, acquire_slot_lem, Released, release_slot_lem,
}
use nethex.MemoryPool.Ledger.{Ledger, take_slot, give_back, run, opened, run-balanced}

-- Three slots of which the first is lent.
abbrev one_lent : Pool
one_lent = record {
  pool = (0 ∷ []) ∷ (0 ∷ []) ∷ (0 ∷ []) ∷ [];
  free_slots = 1 ∷ 2 ∷ [];
  max_payload_size = 1;
  is_free = false ∷ true ∷ true ∷ [];
}

lending : (acquire_slot (init 3 1)).1 ≡ one_lent
unfolding init acquire_slot
lending = refl

one_lent-IsValid : IsValid one_lent
unfolding init acquire_slot
one_lent-IsValid = (acquire_slot_lem (init-IsValid 3 1)).2.valid

acquire_slot_lem_example : AcquireSpec one_lent (1 ∷ 2 ∷ []) (acquire_slot one_lent)
acquire_slot_lem_example = acquire_slot_lem one_lent-IsValid

release_slot_lem_example : (q : Pool) × (release_slot one_lent 0 ≡ accept q) × Released one_lent 0 q
release_slot_lem_example = release_slot_lem 0 one_lent-IsValid (omega arith)

abbrev given_back : Pool
given_back = record one_lent { free_slots = 1 ∷ 2 ∷ 0 ∷ []; is_free = true ∷ true ∷ true ∷ [] }

run-balanced_example :
    (l : Ledger) × (run (opened 2 4) (take_slot ∷ take_slot ∷ take_slot ∷ give_back 1 ∷ [])
      ≡ accept l)
    × ((s : ℕ) → copies s l.pool.free_slots + copies s l.held ≡ flag (ltb s 2))
run-balanced_example = run-balanced 2 4 (take_slot ∷ take_slot ∷ take_slot ∷ give_back 1 ∷ [])
