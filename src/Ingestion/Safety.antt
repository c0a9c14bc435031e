-- ===== src/Ingestion/Safety.antt =====
-- The ingestion thread copies no byte from outside the packet or to outside a buffer, fills each
-- envelope with the packet's payload, and loses no slot.
use nethex.Base.{
  ℕ, zero, suc, ◌+◌, ◌≤◌, ◌≡◌, refl, sym, ap, ◌∙◌, inl, inr, Bool, true, false, List, [], ◌∷◌, ◌++◌,
  Option, none, some, arith, length, All, All-get_elem?, All-take, All-drop, length-take,
  length-drop, length-set, length-append, take, drop, set, ◌==◌, Bool-cases, Yields,
}
use nethex.Wire.{ByteOrder, ParsedPacket, no_payload}
use nethex.Wire.Order.{IsByte}
use nethex.PacketParser.Safety.{IsPacket}
use nethex.MemoryPool.{Pool, acquire_slot}
use nethex.MemoryPool.Ledger.{IsBalanced, Borrowed, acquire_slot-Borrowed, release_slot-IsBalanced}
use nethex.LoadBalancer.{flow_hash}
use nethex.LoadBalancer.Routing
use nethex.LoadBalancer.Routing.{dispatch_lem}
use nethex.Worker.Envelopes.{slot_of, IsEnvelope, IsBuffer}
use nethex.Ingestion.Parsing.{IsParsed}
use nethex.Ingestion.Payload.{with_payload, copy_size_of-fits, fill_lem}
use nethex.Ingestion.{
  Shared, Parsed, Phase, borrowing, dispatching, dispatched, abandoned, copy_limit, copy_size_of,
  borrow, roll_back, send, attempt,
}

pub set-All :
    (P : List ℕ → Type 0) (xs : List (List ℕ)) (i : ℕ) (x : List ℕ)
    → All P xs
    → P x
    → All P (set xs i x)
set-All P [] i x h p = tt
set-All P (y ∷ xs) zero x h p = (p, h.1)
set-All P (y ∷ xs) (suc i) x h p = (h.0, set-All P xs i x h.1 p)

append-All : (xs ys : List ℕ) → All IsByte xs → All IsByte ys → All IsByte (xs ++ ys)
append-All [] ys h h' = h'
append-All (x ∷ xs) ys h h' = (h.0, append-All xs ys h.1 h')

module _ (capacity : ℕ) where
  -- What the threads share is in order, where clients hold these slots.
  pub record IsSound (held : List ℕ) (s : Shared) : Type 0 where
    pub balanced : IsBalanced capacity (record { pool = s.mem_pool; held = held })
    pub buffers : All (IsBuffer copy_limit) s.mem_pool.pool
    pub routing : Routing.IsValid s.load_balancer

  -- In each phase: an envelope holds its slot, also in a queue, where a worker will release it.
  abbrev pub IsOn : ℕ → List ℕ → Phase → Shared → Type 0
  IsOn n others (borrowing r) s = IsParsed n r × IsSound others s
  IsOn n others (dispatching p) s = IsEnvelope copy_limit p × IsSound (slot_of p others) s
  IsOn n others (dispatched p) s = IsEnvelope copy_limit p × IsSound (slot_of p others) s
  IsOn n others abandoned s = IsSound others s

  with_payload-IsSound :
      {xs : List ℕ} {n : ℕ} (held : List ℕ) (s : Shared) (r : Parsed) (pool : Pool) (slot_id : ℕ)
      (buffer : List ℕ)
      → IsPacket xs n
      → IsParsed n r
      → IsBuffer copy_limit buffer
      → All (IsBuffer copy_limit) pool.pool
      → Routing.IsValid s.load_balancer
      → IsBalanced capacity (record { pool = pool; held = held })
      → IsSound held (record s { mem_pool = with_payload xs r pool slot_id buffer })
  with_payload-IsSound {xs} {n} held s r pool slot_id buffer v parsed buf buffers routing b =
      record {
        balanced = record {
          valid = record {
            sizes = b.valid.sizes ∙ sym (length-set pool.pool slot_id written);
            marks = b.valid.marks;
          };
          size = length-set pool.pool slot_id written ∙ b.size;
          once = b.once;
        };
        buffers = set-All (IsBuffer copy_limit) pool.pool slot_id _ buffers (room, bytes);
        routing = routing;
      }
    where
      written : List ℕ
      written = take (copy_size_of r) (drop r.offset xs) ++ drop (copy_size_of r) buffer

      fits : r.offset + copy_size_of r ≤ length xs
      fits = copy_size_of-fits v parsed

      room : copy_limit ≤ length written
      room = omega (
        arith,
        buf.0,
        length-append (take (copy_size_of r) (drop r.offset xs)) (drop (copy_size_of r) buffer),
        length-take (copy_size_of r) (drop r.offset xs),
        length-drop r.offset xs,
        length-drop (copy_size_of r) buffer,
        fits,
      )

      bytes : All IsByte written
      bytes =
          append-All (take (copy_size_of r) (drop r.offset xs)) (drop (copy_size_of r) buffer)
            (All-take IsByte (copy_size_of r) (drop r.offset xs)
              (All-drop IsByte r.offset xs v.bytes))
            (All-drop IsByte (copy_size_of r) buffer buf.1)

  module _ (o : ByteOrder) (xxh64 : List ℕ → ℕ → ℕ) {xs : List ℕ} {n : ℕ} (others : List ℕ)
      (small : capacity ≤ no_payload) (v : IsPacket xs n) where
    abbrev IsNext : Phase × Shared → Type 0
    IsNext (phase, s) = IsOn n others phase s

    borrow-IsOn :
        (s : Shared) (r : Parsed) → IsParsed n r → IsSound others s → Yields IsNext (borrow xs s r)
    unfolding borrow
    borrow-IsOn s r parsed sound =
        go (acquire_slot s.mem_pool) refl
          (acquire_slot-Borrowed capacity s.mem_pool others sound.balanced)
      where
        go :
            (x : Option ℕ × Pool)
            → acquire_slot s.mem_pool ≡ x
            → Borrowed capacity s.mem_pool others x
            → Yields IsNext (borrow xs s r)
        go (none, q) e same =
            rw
              (
                borrow,
                ap (λ (y : Option ℕ × Pool). y.0) e,
                ap (λ (y : Option ℕ × Pool). y.1) e,
                same,
              )
              (parsed, sound)
        go (some slot, q) e (inside, same, balanced) =
            let buffers : All (IsBuffer copy_limit) q.pool = rw same sound.buffers in
            let (buffer, here, buf) =
              All-get_elem? (IsBuffer copy_limit) q.pool slot buffers
                (omega (arith, balanced.size)) in
            let real : (slot == no_payload) ≡ false = ground arith in
            rw
              (
                borrow,
                ap (λ (y : Option ℕ × Pool). y.0) e,
                ap (λ (y : Option ℕ × Pool). y.1) e,
                fill_lem s r q slot buffer v parsed here buf.0,
              )
              (
                record { points = rw real refl; fits = ground arith },
                rw real (
                    with_payload-IsSound (slot ∷ others) s r q slot buffer v parsed buf buffers
                      sound.routing balanced),
              )

    roll_back-IsOn :
        (s : Shared) (p : ParsedPacket)
        → IsSound (slot_of p others) s
        → Yields IsNext (roll_back s p)
    unfolding roll_back
    roll_back-IsOn s p sound = elim (Bool-cases (p.pool_slot_id == no_payload)) [
      | inl empty ↦ rw (roll_back, empty) (rw empty at sound)
      | inr full ↦
          let (q, done, same, balanced) =
            release_slot-IsBalanced capacity s.mem_pool (p.pool_slot_id ∷ others) others
              p.pool_slot_id (rw full at sound.balanced) (λ k. refl) in
          rw (roll_back, full, done)
            (record {
              balanced = balanced;
              buffers = rw same sound.buffers;
              routing = sound.routing;
            })
    ]

    send-IsOn :
        (s : Shared) (p : ParsedPacket)
        → IsEnvelope copy_limit p
        → IsSound (slot_of p others) s
        → Yields IsNext (send o xxh64 s p)
    unfolding send
    send-IsOn s p envelope sound =
        let (pushed, lb, done, d) = dispatch_lem p (flow_hash o xxh64 p) sound.routing in
        let sound' : IsSound (slot_of p others) (record s { load_balancer = lb }) = record {
          balanced = sound.balanced;
          buffers = sound.buffers;
          routing = d.valid;
        } in
        elim (Bool-cases pushed) [
          | inl sent ↦ rw (send, done, sent) (envelope, sound')
          | inr full ↦ rw (send, done, full) (envelope, sound')
        ]

    -- An attempt of the ingestion thread, from any of its phases and whatever `keep_running` says,
    -- never faults: what it copies lies in the packet and in the slot's buffer. It loses no slot: one
    -- is held exactly by the envelope that has it, through a failed dispatch and in the queue, and
    -- an envelope that is abandoned has given its slot back, so the other clients hold what they did.
    -- The packet is shorter than 2^31 bytes.
    pub attempt-IsOn :
        (keep_running : Bool) (s : Shared) (phase : Phase)
        → IsOn n others phase s
        → Yields
            (λ (r : Phase × Shared). IsOn n others r.0 r.1)
            (attempt o xxh64 xs keep_running s phase)
    unfolding attempt
    attempt-IsOn true s (borrowing r) (parsed, sound) = borrow-IsOn s r parsed sound
    attempt-IsOn false s (borrowing r) (parsed, sound) = (
      record {
        points = rw (parsed.no_slot, parsed.no_pointer) refl;
        fits = omega (arith, parsed.no_length);
      },
      rw parsed.no_slot sound,
    )
    attempt-IsOn true s (dispatching p) (envelope, sound) = send-IsOn s p envelope sound
    attempt-IsOn false s (dispatching p) (envelope, sound) = roll_back-IsOn s p sound
    attempt-IsOn keep_running s (dispatched p) on = on
    attempt-IsOn keep_running s abandoned on = on
