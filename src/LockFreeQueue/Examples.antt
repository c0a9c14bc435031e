-- ===== src/LockFreeQueue/Examples.antt =====
-- The queue on small inputs.
use nethex.Base.{
  zero, suc, ℕ, ◌+◌, ◌%◌, ◌^◌, ◌≤◌, ◌<◌, ◌≡◌, ◌≢◌, ◌↔◌, refl, true, false, List, [], ◌∷◌, none,
  some, arith, get_or, take,
}
use nethex.LockFreeQueue.{
  Queue, init, push, pop, System, Reach, here, next, produce, consume, Produce, Consume, Producer,
  Consumer,
}
use nethex.LockFreeQueue.Capacity.{IsNew, init_iff}
use nethex.LockFreeQueue.Window.{Holds}
use nethex.LockFreeQueue.Sequential.{push_lem, pop_lem}
use nethex.LockFreeQueue.Interleaved.{Reach-fifo}

abbrev two_slots : Queue ℕ
two_slots = record { buffer = 0 ∷ 0 ∷ []; capacity = 2; mask = 1; head = 0; tail = 0 }

two_slots-IsNew : IsNew 0 2 two_slots
two_slots-IsNew = record {
  buffer = refl;
  capacity_kept = refl;
  mask = refl;
  head = refl;
  tail = refl;
}

-- Two items wait, and the counters are about to wrap.
abbrev full_queue : Queue ℕ
full_queue = record { buffer = 8 ∷ 7 ∷ []; capacity = 2; mask = 1; head = 3; tail = 1 }

full_queue-Holds : Holds 0 1 full_queue (6 ∷ 7 ∷ 8 ∷ []) (6 ∷ [])
full_queue-Holds = record {
  exponent = omega arith;
  capacity = refl;
  mask = refl;
  slots = refl;
  head = refl;
  tail = refl;
  order = omega arith;
  room = omega arith;
  kept = kept_at;
  fifo = fifo_at;
}
  where
    kept_at :
        (j : ℕ)
        → 1 ≤ j
        → j < 3
        → get_or {A = ℕ} (8 ∷ 7 ∷ []) (j % 2) 0 ≡ get_or {A = ℕ} (6 ∷ 7 ∷ 8 ∷ []) j 0
    kept_at zero lo hi = absurd (omega arith)
    kept_at (suc zero) lo hi = refl
    kept_at (suc (suc zero)) lo hi = refl
    kept_at (suc (suc (suc j))) lo hi = absurd (omega arith)

    fifo_at : (j : ℕ) → j < 1 → get_or {A = ℕ} (6 ∷ []) j 0 ≡ get_or {A = ℕ} (6 ∷ 7 ∷ 8 ∷ []) j 0
    fifo_at zero h = refl
    fifo_at (suc j) h = absurd (omega arith)

push_full : push 0 full_queue 9 ≡ (false, full_queue)
unfolding push
push_full = refl

init_iff_example :
    ((q : Queue ℕ) × (init 0 8192 ≡ some q) × IsNew 0 8192 q)
    ↔ ((k : ℕ) × (1 ≤ k) × (◌≡◌ {A = ℕ} 8192 (2 ^ k)))
init_iff_example = init_iff 0 8192 (omega arith)

push_lem_example :
    (◌≡◌ {A = ℕ} 3 3 → push 0 full_queue 9 ≡ (false, full_queue))
    × (◌≢◌ {A = ℕ} 3 3
        → ((push 0 full_queue 9).0 ≡ true)
          × Holds 0 1 (push 0 full_queue 9).1 (6 ∷ 7 ∷ 8 ∷ 9 ∷ []) (6 ∷ []))
push_lem_example = push_lem full_queue-Holds 9

pop_lem_example :
    (◌≡◌ {A = ℕ} 3 1 → pop 0 full_queue ≡ (none, full_queue))
    × (◌≢◌ {A = ℕ} 3 1
        → ((pop 0 full_queue).0 ≡ some 7)
          × Holds 0 1 (pop 0 full_queue).1 (6 ∷ 7 ∷ 8 ∷ []) (6 ∷ 7 ∷ []))
pop_lem_example = pop_lem full_queue-Holds

-- The consumer reads the tail while the producer stores 5, and the head once it is published.
abbrev delivered : System {T = ℕ} 0
delivered = record {
  queue = record { buffer = 5 ∷ 0 ∷ []; capacity = 2; mask = 1; head = 1; tail = 1 };
  producer = Producer.idle;
  consumer = Consumer.idle;
  sent = 5 ∷ [];
  received = 5 ∷ [];
}

produced : Reach {T = ℕ} 0 two_slots (record delivered {
  queue = record { buffer = 5 ∷ 0 ∷ []; capacity = 2; mask = 1; head = 1; tail = 0 };
  consumer = Consumer.has_tail 0;
  received = [];
})
produced =
    next
      (next
        (next (next (next here (produce (Produce.load_head 5))) (consume Consume.load_tail))
          (produce Produce.load_tail))
        (produce (Produce.store (omega arith))))
      (produce Produce.publish)

delivery : Reach 0 two_slots delivered
delivery =
    next (next (next produced (consume Consume.load_head)) (consume (Consume.fetch (omega arith))))
      (consume Consume.release)

Reach-fifo_example : (◌≡◌ {A = List ℕ} (5 ∷ []) (take 1 (5 ∷ []))) × (1 ≤ 1) × (1 ≤ 1 + 2)
Reach-fifo_example = Reach-fifo 1 (omega arith) (omega arith) two_slots-IsNew delivery
