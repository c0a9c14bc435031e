-- ===== src/MemoryPool/Ledger.antt =====
-- The pool together with the slots that its clients hold.
use nethex.Base.{
  ℕ, ◌+◌, ◌<◌, ◌≡◌, zero, suc, refl, sym, subst, ap, Option-cases, inl, inr, get_elem?, false, ◌==◌,
  List, [], ◌∷◌, Option, none, some, arith, length, get_or, get_elem?, replicate, length-replicate,
  ltb, Outcome, accept, ◌>>=◌,
}
use nethex.Base.Counts.{copies_snoc, flag, copies, remove_at, copies-remove_at}
use nethex.MemoryPool.{Pool, init, acquire_slot, release_slot}
use nethex.MemoryPool.Invariant.{
  get_or-replicate, IsValid, init-IsValid, AcquireSpec, acquire_slot_lem, release_slot_lem,
}

-- A client asks for a slot, or gives back the one at a place in the list of those held.
pub data Use : Type 0 where
  take_slot : Use
  give_back : ℕ → Use

pub record Ledger : Type 0 where
  pub pool : Pool
  pub held : List ℕ

-- Hand out what `acquire_slot` has lent.
lend : Ledger → Option ℕ × Pool → Ledger
lend l (none, p) = record l { pool = p }
lend l (some slot, p) = record { pool = p; held = slot ∷ l.held }

pub step : Ledger → Use → Outcome Ledger
unfolding lend
step l take_slot = accept (lend l (acquire_slot l.pool))
step l (give_back place) = elim (get_elem? l.held place) [
  | none ↦ accept l
  | some slot ↦ do
    p ← release_slot l.pool slot
    accept (record { pool = p; held = remove_at l.held place })
]

pub run : Ledger → List Use → Outcome Ledger
run l [] = accept l
run l (u ∷ us) = do l' ← step l u; run l' us

-- Every slot of the pool is either queued or held, by one client, once.
pub record IsBalanced (capacity : ℕ) (l : Ledger) : Type 0 where
  pub valid : IsValid l.pool
  pub size : length l.pool.pool ≡ capacity
  pub once : (s : ℕ) → copies s l.pool.free_slots + copies s l.held ≡ flag (ltb s capacity)

take_slot-IsBalanced :
    (capacity : ℕ) (l : Ledger) (free : List ℕ) (r : Option ℕ × Pool)
    → IsBalanced capacity l
    → l.pool.free_slots ≡ free
    → AcquireSpec l.pool free r
    → IsBalanced capacity (lend l r)
unfolding lend
take_slot-IsBalanced capacity l [] r b e spec =
    subst (λ x. IsBalanced capacity (lend l x)) (sym spec) b
take_slot-IsBalanced capacity l (slot ∷ rest) (none, p) b e spec = cc (spec.0)
take_slot-IsBalanced capacity l (slot ∷ rest) (some x, p) b e (e', e'', lent) = record {
  valid = lent.valid;
  size = rw lent.same_pool b.size;
  once = λ s. ground (arith, b.once s, ap (copies s) e, ap (copies s) e'');
}

pub get_elem?-some :
    (xs : List ℕ) (i a : ℕ) → get_elem? xs i ≡ some a → (i < length xs) × (get_or xs i 0 ≡ a)
get_elem?-some [] i a h = cc
get_elem?-some (x ∷ xs) zero a h = (omega arith, cc)
get_elem?-some (x ∷ xs) (suc i) a h = ground (arith, get_elem?-some xs i a h)

-- A slot that is held once more than by the others can be released, and then they hold the rest.
pub release_slot-IsBalanced :
    (capacity : ℕ) (p : Pool) (held others : List ℕ) (slot : ℕ)
    → IsBalanced capacity (record { pool = p; held = held })
    → ((s : ℕ) → copies s held ≡ flag (slot == s) + copies s others)
    → (q : Pool) × (release_slot p slot ≡ accept q)
      × (q.pool ≡ p.pool)
      × IsBalanced capacity (record { pool = q; held = others })
release_slot-IsBalanced capacity p held others slot b taken =
    let (q, done, r) = release_slot_lem slot b.valid inside in
    (
      q,
      done,
      r.same_pool,
      record {
        valid = r.valid;
        size = rw r.same_pool b.size;
        once = λ s. ground (
          arith,
          b.once s,
          taken s,
          used,
          ap (copies s) r.queue,
          copies_snoc s slot p.free_slots,
        );
      },
    )
  where
    inside : slot < length p.pool
    inside = ground (arith, taken slot, b.once slot, b.size)

    used : get_or p.is_free slot false ≡ false
    used = ground (arith, taken slot, b.once slot, b.valid.marks slot)

give_back-IsBalanced :
    (capacity : ℕ) (l : Ledger) (place slot : ℕ)
    → IsBalanced capacity l
    → get_elem? l.held place ≡ some slot
    → (l' : Ledger) × (step l (give_back place) ≡ accept l') × IsBalanced capacity l'
unfolding step
give_back-IsBalanced capacity l place slot b e =
    let (inside, found) = get_elem?-some l.held place slot e in
    let (q, done, same, balanced) =
      release_slot-IsBalanced capacity l.pool l.held (remove_at l.held place) slot b
        λ s. ground (arith, found, copies-remove_at s l.held place inside) in
    (record { pool = q; held = remove_at l.held place }, rw (e, step, done), balanced)

step-IsBalanced :
    (capacity : ℕ) (l : Ledger) (u : Use)
    → IsBalanced capacity l
    → (l' : Ledger) × (step l u ≡ accept l') × IsBalanced capacity l'
unfolding step
step-IsBalanced capacity l take_slot b = (
  lend l (acquire_slot l.pool),
  refl,
  take_slot-IsBalanced capacity l l.pool.free_slots (acquire_slot l.pool) b refl
      (acquire_slot_lem b.valid),
)
step-IsBalanced capacity l (give_back place) b = elim (Option-cases (get_elem? l.held place)) [
  | inl e ↦ (l, rw (e, step), b)
  | inr (slot, e) ↦ give_back-IsBalanced capacity l place slot b e
]

run-IsBalanced :
    (capacity : ℕ) (us : List Use) (l : Ledger)
    → IsBalanced capacity l
    → (l' : Ledger) × (run l us ≡ accept l') × IsBalanced capacity l'
unfolding run
run-IsBalanced capacity [] l b = (l, refl, b)
run-IsBalanced capacity (u ∷ us) l b =
    let (l₁, e₁, b₁) = step-IsBalanced capacity l u b in
    let (l₂, e₂, b₂) = run-IsBalanced capacity us l₁ b₁ in (l₂, rw (e₁, run) e₂, b₂)

abbrev pub opened : ℕ → ℕ → Ledger
opened capacity payload_size = record { pool = init capacity payload_size; held = [] }

-- Every buffer of a fresh pool is blank.
pub init-buffers :
    (capacity payload_size : ℕ)
    → (init capacity payload_size).pool ≡ replicate capacity (replicate payload_size 0)
unfolding init
init-buffers capacity payload_size = refl

pub opened-IsBalanced :
    (capacity payload_size : ℕ) → IsBalanced capacity (opened capacity payload_size)
unfolding init
opened-IsBalanced capacity payload_size = record {
  valid = init-IsValid capacity payload_size;
  size = length-replicate capacity (replicate payload_size 0);
  once = λ s.
      ground (arith, (init-IsValid capacity payload_size).marks s, get_or-replicate capacity s);
}

-- From a fresh pool on, no history of requests, however those of the clients are interleaved,
-- ends in an access outside the pool, and at its end each slot of the pool is queued once or
-- held once, by one client, and no other number is.
pub run-balanced :
    (capacity payload_size : ℕ) (us : List Use)
    → (l : Ledger) × (run (opened capacity payload_size) us ≡ accept l)
      × ((s : ℕ) → copies s l.pool.free_slots + copies s l.held ≡ flag (ltb s capacity))
run-balanced capacity payload_size us =
    let (l, e, b) = run-IsBalanced capacity us _ (opened-IsBalanced capacity payload_size) in
    (l, e, b.once)

-- What a client gets: nothing, or a slot of the pool that is now held once more.
abbrev pub Borrowed : ℕ → Pool → List ℕ → Option ℕ × Pool → Type 0
Borrowed capacity p others (none, q) = q ≡ p
Borrowed capacity p others (some slot, q) =
    (slot < capacity)
    × (q.pool ≡ p.pool)
    × IsBalanced capacity (record { pool = q; held = slot ∷ others })

pub acquire_slot-Borrowed :
    (capacity : ℕ) (p : Pool) (others : List ℕ)
    → IsBalanced capacity (record { pool = p; held = others })
    → Borrowed capacity p others (acquire_slot p)
acquire_slot-Borrowed capacity p others b =
    go p.free_slots (acquire_slot p) (acquire_slot_lem b.valid) refl
  where
    go :
        (free : List ℕ) (r : Option ℕ × Pool)
        → AcquireSpec p free r
        → p.free_slots ≡ free
        → Borrowed capacity p others r
    go [] r spec e = subst (Borrowed capacity p others) (sym spec) refl
    go (slot ∷ rest) (none, q) spec e = cc (spec.0)
    go (slot ∷ rest) (some x, q) (e', e'', lent) e = (
      ground (arith, e', lent.in_pool, b.size),
      lent.same_pool,
      record {
        valid = lent.valid;
        size = rw lent.same_pool b.size;
        once = λ s. ground (arith, b.once s, ap (copies s) e, ap (copies s) e'', e');
      },
    )
