-- ===== src/MemoryPool/Invariant.antt =====
-- The flags of the pool say exactly which slots stand in its queue, and no slot stands there twice.
use nethex.Base.{
  ℕ, zero, suc, ◌+◌, ◌-◌, ◌<◌, ◌≡◌, ◌≢◌, refl, sym, subst, ◌∙◌, inl, inr, Bool, true, false, List,
  [], ◌∷◌, ◌++◌, Option, none, some, arith, length, get_or, set, replicate, length-set,
  length-replicate, get_or-set_self, get_or-set_ne, get_elem?-eq-get_or, ltb, if◌then◌else◌, accept,
  accept-injective, Bool-cases, ltb→ge,
}
use nethex.Base.Counts.{flag, copies, copies_snoc, get_or_out, get_or-set}
use nethex.MemoryPool.{Pool, slots_from, init, acquire_slot, release_slot}

pub record IsValid (p : Pool) : Type 0 where
  pub sizes : length p.is_free ≡ length p.pool
  -- So a slot is queued at most once, and only if it lies in the pool and its flag is set.
  pub marks : (s : ℕ) → copies s p.free_slots ≡ flag (get_or p.is_free s false)

copies-slots_from : (s i n : ℕ) → copies s (slots_from i n) ≡ flag (ltb s (i + n)) - flag (ltb s i)
unfolding slots_from
copies-slots_from s i zero = ground arith
copies-slots_from s i (suc n) = ground (arith, copies-slots_from s (i + 1) n)

pub get_or-replicate : (n s : ℕ) → get_or (replicate n true) s false ≡ ltb s n
get_or-replicate zero s = ground arith
get_or-replicate (suc n) zero = ground arith
get_or-replicate (suc n) (suc s) = ground (arith, get_or-replicate n s)

pub init-IsValid : (capacity size : ℕ) → IsValid (init capacity size)
unfolding init
init-IsValid capacity size = record {
  sizes = length-replicate capacity true ∙ sym (length-replicate capacity (replicate size 0));
  marks = λ s. ground (arith, copies-slots_from s 0 capacity, get_or-replicate capacity s);
}

set_flag_in : (bs : List Bool) (i : ℕ) → get_or bs i false ≡ true → i < length bs
set_flag_in bs i h = elim (Bool-cases (ltb i (length bs))) [
  | inl e ↦ ground arith
  | inr e ↦ ground (arith, get_or_out bs i false (ltb→ge i (length bs) e))
]

abbrev Marks : List ℕ → List Bool → Type 0
Marks free bs = (s : ℕ) → copies s free ≡ flag (get_or bs s false)

-- The slot at the front is marked free.
front_marked :
    (slot : ℕ) (rest : List ℕ) (bs : List Bool)
    → Marks (slot ∷ rest) bs
    → get_or bs slot false ≡ true
front_marked slot rest bs m = ground (arith, m slot)

lend-Marks :
    (slot : ℕ) (rest : List ℕ) (bs : List Bool)
    → Marks (slot ∷ rest) bs
    → Marks rest (set bs slot false)
lend-Marks slot rest bs m s = ground (
  arith,
  m s,
  get_or-set bs slot s false false (set_flag_in bs slot (front_marked slot rest bs m)),
)

give_back-Marks :
    (slot : ℕ) (free : List ℕ) (bs : List Bool)
    → slot < length bs
    → get_or bs slot false ≡ false
    → Marks free bs
    → Marks (free ++ (slot ∷ [])) (set bs slot true)
give_back-Marks slot free bs h e m s =
    ground (arith, m s, copies_snoc s slot free, get_or-set bs slot s true false h)

-- What a call of `acquire_slot` has done: the pool is exhausted and unchanged, or a slot that was
-- free is lent, no longer marked or queued, and the marks of the other slots are as before.
pub record Lent (p : Pool) (slot : ℕ) (q : Pool) : Type 0 where
  pub was_free : get_or p.is_free slot false ≡ true
  pub in_pool : slot < length p.pool
  pub same_pool : q.pool ≡ p.pool
  pub now_used : get_or q.is_free slot false ≡ false
  pub others : (s : ℕ) → s ≢ slot → get_or q.is_free s false ≡ get_or p.is_free s false
  pub valid : IsValid q

-- The queue that the call finds, and what it returns.
abbrev pub AcquireSpec : Pool → List ℕ → Option ℕ × Pool → Type 0
AcquireSpec p [] r = r ≡ (none, p)
AcquireSpec p (slot ∷ rest) r = (r.0 ≡ some slot) × (r.1.free_slots ≡ rest) × Lent p slot r.1

acquire_from :
    (p : Pool) (free : List ℕ)
    → IsValid p
    → p.free_slots ≡ free
    → AcquireSpec p free (acquire_slot p)
unfolding acquire_slot
acquire_from p [] v e = simp (e, acquire_slot)
acquire_from p (slot ∷ rest) v e =
    rw (e, acquire_slot)
      (
        refl,
        refl,
        record {
          was_free = marked;
          in_pool = omega (arith, v.sizes, inside);
          same_pool = refl;
          now_used = get_or-set_self p.is_free slot false false inside;
          others = λ s ne. get_or-set_ne p.is_free false false (λ q. ne (sym q));
          valid = record {
            sizes = length-set p.is_free slot false ∙ v.sizes;
            marks = lend-Marks slot rest p.is_free found;
          };
        },
      )
  where
    found : Marks (slot ∷ rest) p.is_free
    found = subst (λ l. Marks l p.is_free) e v.marks

    marked : get_or p.is_free slot false ≡ true
    marked = front_marked slot rest p.is_free found

    inside : slot < length p.is_free
    inside = set_flag_in p.is_free slot marked

-- `acquire_slot` fails exactly on an exhausted pool, which it leaves alone; else it lends the
-- slot that has been free for the longest time.
pub acquire_slot_lem : {p : Pool} → IsValid p → AcquireSpec p p.free_slots (acquire_slot p)
acquire_slot_lem {p} v = acquire_from p p.free_slots v refl

-- What a call of `release_slot` has done.
pub record Released (p : Pool) (slot : ℕ) (q : Pool) : Type 0 where
  pub now_free : get_or q.is_free slot false ≡ true
  pub same_pool : q.pool ≡ p.pool
  pub others : (s : ℕ) → s ≢ slot → get_or q.is_free s false ≡ get_or p.is_free s false
  pub queue :
      q.free_slots
      ≡ (if get_or p.is_free slot false then p.free_slots else p.free_slots ++ (slot ∷ []))
  pub valid : IsValid q

-- On a slot of the pool `release_slot` succeeds; a slot that is free stays where it is in the queue,
-- a lent one joins its end, and no other slot's mark changes.
pub release_slot_lem :
    {p : Pool} (slot : ℕ)
    → IsValid p
    → slot < length p.pool
    → (q : Pool) × (release_slot p slot ≡ accept q) × Released p slot q
unfolding release_slot
release_slot_lem {p} slot v h = elim (Bool-cases (get_or p.is_free slot false)) [
  | inl free ↦ (
    p,
    rw (get_elem?-eq-get_or p.is_free slot false inside, free, release_slot),
    record { now_free = free; same_pool = refl; others = λ s ne. refl; queue = rw free; valid = v },
  )
  | inr used ↦ (
    record p { free_slots = p.free_slots ++ (slot ∷ []); is_free = set p.is_free slot true },
    rw (get_elem?-eq-get_or p.is_free slot false inside, used, release_slot),
    record {
      same_pool = refl;
      now_free = get_or-set_self p.is_free slot true false inside;
      others = λ s ne. get_or-set_ne p.is_free true false (λ q. ne (sym q));
      queue = rw used;
      valid = record {
        sizes = length-set p.is_free slot true ∙ v.sizes;
        marks = give_back-Marks slot p.free_slots p.is_free inside used v.marks;
      };
    },
  )
]
  where
    inside : slot < length p.is_free
    inside = omega (arith, v.sizes)

release_free :
    {q : Pool} (slot : ℕ)
    → IsValid q
    → slot < length q.pool
    → get_or q.is_free slot false ≡ true
    → release_slot q slot ≡ accept q
unfolding release_slot
release_free {q} slot v h e =
    rw (get_elem?-eq-get_or q.is_free slot false (omega (arith, v.sizes)), e, release_slot)

-- A second release of a slot changes nothing.
pub release_slot_twice :
    {p q : Pool} (slot : ℕ)
    → IsValid p
    → slot < length p.pool
    → release_slot p slot ≡ accept q
    → release_slot q slot ≡ accept q
release_slot_twice {p} {q} slot v h e =
    let (q', e', r) = release_slot_lem slot v h in
    subst (λ x. release_slot x slot ≡ accept x) (accept-injective (sym e' ∙ e))
      (release_free slot r.valid (rw r.same_pool h) r.now_free)
