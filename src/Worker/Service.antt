-- ===== src/Worker/Service.antt =====
-- A worker among other threads that share the pool: between its rounds they borrow slots and fill
-- their buffers, and give slots back, so that a slot is used again and again. `held` lists the slots
-- that are lent: to a packet that waits in a queue, to the ingestion thread, or to another worker.
use nethex.Base.{
  ℕ, ◌+◌, ◌≤◌, ◌<◌, ◌^◌, ◌≡◌, refl, sym, ◌∙◌, inl, inr, false, List, [], ◌∷◌, Option, none, some,
  Option-cases, arith, length-set, All, get_elem?, set, ◌==◌, Outcome, accept, ◌>>=◌, Yields,
  Yields-cases,
}
use nethex.Base.Counts.{copies, flag, remove_at, copies-remove_at}
use nethex.Wire.{ByteOrder, ParsedPacket, no_payload}
use nethex.MemoryPool.{Pool, acquire_slot, release_slot}
use nethex.MemoryPool.Ledger.{
  Borrowed, acquire_slot-Borrowed, release_slot-IsBalanced, get_elem?-some,
}
use nethex.RuleManager.Signatures.{IsFile}
use nethex.Ingestion.Safety.{set-All}
use nethex.Worker.{Worker, popped, idle, round}
use nethex.Worker.Envelopes.{IsEnvelope, IsBuffer}
use nethex.Worker.Handling.{IsValid}
use nethex.Worker.Safety.{round-Yields}

pub record Service : Type 0 where
  pub worker : Worker
  pub held : List ℕ

pub data Event : Type 0 where
  -- Another thread asks for a slot; if it gets one, the slot's buffer then holds these bytes.
  borrow : List ℕ → Event
  -- Another thread gives back the slot at this place among those that are lent.
  give_back : ℕ → Event
  -- The worker's round on a packet whose payload is in the slot at this place, and the time.
  serve : ℕ → ParsedPacket → ℕ → Event
  -- Its round on a packet without payload.
  serve_bare : ParsedPacket → ℕ → Event
  -- Its round on an empty queue.
  find_nothing : ℕ → Event

abbrev pub in_slot : ParsedPacket → ℕ → ParsedPacket
in_slot p slot = record p { pool_slot_id = slot; payload_ptr = some slot }

abbrev pub without_slot : ParsedPacket → ParsedPacket
without_slot p = record p { pool_slot_id = no_payload; payload_ptr = none; payload_length = 0 }

abbrev with_pool : Service → Pool → List ℕ → Service
with_pool s pool held = record { worker = record s.worker { mem_pool = pool }; held = held }

-- What `acquire_slot` has lent, with its buffer filled.
abbrev lend : Service → List ℕ → Option ℕ × Pool → Service
lend s content (none, pool) = with_pool s pool s.held
lend s content (some slot, pool) =
    with_pool s (record pool { pool = set pool.pool slot content }) (slot ∷ s.held)

-- A place past the end names no slot, and nothing happens.
pub step : ByteOrder → Service → Event → Outcome Service
step o s (borrow content) = accept (lend s content (acquire_slot s.worker.mem_pool))
step o s (give_back place) = elim (get_elem? s.held place) [
  | none ↦ accept s
  | some slot ↦ do
    pool ← release_slot s.worker.mem_pool slot
    accept (with_pool s pool (remove_at s.held place))
]
step o s (serve place p now) = elim (get_elem? s.held place) [
  | none ↦ accept s
  | some slot ↦ do
    w ← round o s.worker (popped (in_slot p slot) now)
    accept (record { worker = w; held = remove_at s.held place })
]
step o s (serve_bare p now) = do
  w ← round o s.worker (popped (without_slot p) now)
  accept (record s { worker = w })
step o s (find_nothing now) = do w ← round o s.worker (idle now); accept (record s { worker = w })

pub run : ByteOrder → Service → List Event → Outcome Service
run o s [] = accept s
run o s (e ∷ es) = do s' ← step o s e; run o s' es

-- Buffers keep their size and hold bytes, and a payload fits its buffer.
abbrev pub IsEvent : ℕ → Event → Type 0
IsEvent size (borrow content) = IsBuffer size content
IsEvent size (give_back place) = Unit
IsEvent size (serve place p now) = p.payload_length ≤ size
IsEvent size (serve_bare p now) = Unit
IsEvent size (find_nothing now) = Unit

module _ (rules : Option (List ℕ)) (capacity size : ℕ) where
  abbrev pub IsServing : Service → Type 0
  IsServing s = IsValid rules capacity size s.held s.worker

  lend-IsServing :
      (s : Service) (content : List ℕ) (r : Option ℕ × Pool)
      → IsBuffer size content
      → IsServing s
      → Borrowed capacity s.worker.mem_pool s.held r
      → IsServing (lend s content r)
  lend-IsServing s content (none, pool) buf v same = rw same v
  lend-IsServing s content (some slot, pool) buf v (inside, same, b) = record {
    built = v.built;
    scanned = v.scanned;
    balanced = record {
      valid = record {
        sizes = b.valid.sizes ∙ sym (length-set pool.pool slot content);
        marks = b.valid.marks;
      };
      size = length-set pool.pool slot content ∙ b.size;
      once = b.once;
    };
    buffers = rw same (set-All (IsBuffer size) s.worker.mem_pool.pool slot content v.buffers buf);
  }

  -- The slot at a place, in front of the others.
  module _ (o : ByteOrder) (s : Service) (v : IsServing s) (place slot : ℕ)
      (e : get_elem? s.held place ≡ some slot) where
    taken : (x : ℕ) → copies x s.held ≡ flag (slot == x) + copies x (remove_at s.held place)
    taken x =
        let (inside, found) = get_elem?-some s.held place slot e in
        ground (arith, found, copies-remove_at x s.held place inside)

    to_front : IsValid rules capacity size (slot ∷ remove_at s.held place) s.worker
    to_front = record {
      built = v.built;
      scanned = v.scanned;
      balanced = record {
        valid = v.balanced.valid;
        size = v.balanced.size;
        once = λ x. ground (arith, v.balanced.once x, taken x);
      };
      buffers = v.buffers;
    }

    lent_slot : slot < capacity
    lent_slot = ground (arith, v.balanced.once slot, taken slot)

    give_back-Yields : Yields IsServing (step o s (give_back place))
    unfolding step
    give_back-Yields =
        let (pool, done, same, balanced) =
          release_slot-IsBalanced capacity s.worker.mem_pool s.held (remove_at s.held place) slot
            v.balanced taken in
        rw (step, e, done)
          (record {
            built = v.built;
            scanned = v.scanned;
            balanced = balanced;
            buffers = rw same v.buffers;
          })

    serve-Yields :
        (file : IsFile rules)
        → size < 2 ^ 31
        → capacity ≤ no_payload
        → (p : ParsedPacket) (now : ℕ) → p.payload_length ≤ size
        → Yields IsServing (step o s (serve place p now))
    unfolding step
    serve-Yields file small few p now fits =
        let used : (slot == no_payload) ≡ false = ground (arith, lent_slot, few) in
        let envelope : IsEnvelope size (in_slot p slot) = record {
          points = rw used refl;
          fits = fits;
        } in
        let (w, runs, v') =
          Yields-cases (IsValid rules capacity size (remove_at s.held place))
            (round o s.worker (popped (in_slot p slot) now))
            (round-Yields rules capacity size file small o s.worker (popped (in_slot p slot) now)
              (remove_at s.held place) (rw used to_front) envelope) in
        rw (step, e, runs) v'

  module _ (file : IsFile rules) (small : size < 2 ^ 31) (few : capacity ≤ no_payload)
      (o : ByteOrder) where
    step-Yields :
        (s : Service) (e : Event) → IsServing s → IsEvent size e → Yields IsServing (step o s e)
    unfolding step
    step-Yields s (borrow content) v buf =
        lend-IsServing s content (acquire_slot s.worker.mem_pool) buf v
          (acquire_slot-Borrowed capacity s.worker.mem_pool s.held v.balanced)
    step-Yields s (give_back place) v h = elim (Option-cases (get_elem? s.held place)) [
      | inl out ↦ rw (step, out) v
      | inr (slot, e) ↦ give_back-Yields o s v place slot e
    ]
    step-Yields s (serve place p now) v fits = elim (Option-cases (get_elem? s.held place)) [
      | inl out ↦ rw (step, out) v
      | inr (slot, e) ↦ serve-Yields o s v place slot e file small few p now fits
    ]
    step-Yields s (serve_bare p now) v h =
        let (w, runs, v') =
          Yields-cases (IsValid rules capacity size s.held)
            (round o s.worker (popped (without_slot p) now))
            (round-Yields rules capacity size file small o s.worker (popped (without_slot p) now)
              s.held v (record { points = refl; fits = omega arith })) in
        rw (step, runs) v'
    step-Yields s (find_nothing now) v h =
        let (w, runs, v') =
          Yields-cases (IsValid rules capacity size s.held) (round o s.worker (idle now))
            (round-Yields rules capacity size file small o s.worker (idle now) s.held v tt) in
        rw (step, runs) v'

    -- From a valid state, over any history of a worker's rounds, with slots borrowed, filled and
    -- given back by other threads in between and used any number of times, the worker never faults,
    -- whatever the bytes; and at its end each slot of the pool is free once or lent once: lent are
    -- those that were borrowed and neither given back nor handed to the worker, which has released
    -- each that it was handed. A payload fits its buffer, buffers hold bytes and are smaller than
    -- 2^31, and no slot has the number that stands for none.
    pub run-Yields :
        (s : Service) (es : List Event)
        → IsServing s
        → All (IsEvent size) es
        → Yields IsServing (run o s es)
    unfolding run
    run-Yields s [] v h = v
    run-Yields s (e ∷ es) v h =
        let (s', runs, v') = Yields-cases IsServing (step o s e) (step-Yields s e v h.0) in
        rw (run, runs) (run-Yields s' es v' h.1)
