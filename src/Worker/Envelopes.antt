-- ===== src/Worker/Envelopes.antt =====
-- Envelopes, and the slots of the pool that they hold until a worker releases them.
use nethex.Base.{
  ℕ, ◌≤◌, ◌≡◌, refl, inl, inr, List, [], ◌∷◌, none, some, length, All, ◌==◌, Bool-cases,
  if◌then◌else◌, accept,
}
use nethex.Wire.{ParsedPacket, no_payload}
use nethex.Wire.Order.{IsByte}
use nethex.MemoryPool.{Pool}
use nethex.MemoryPool.Ledger.{IsBalanced, release_slot-IsBalanced}
use nethex.Worker.{Poll, popped, idle, release_packet}

-- The slots that are held before a packet's is given back.
abbrev pub slot_of : ParsedPacket → List ℕ → List ℕ
slot_of p others = if p.pool_slot_id == no_payload then others else p.pool_slot_id ∷ others

abbrev pub slots_of : List Poll → List ℕ → List ℕ
slots_of [] others = others
slots_of (idle now ∷ polls) others = slots_of polls others
slots_of (popped p now ∷ polls) others = slot_of p (slots_of polls others)

pub one_more :
    (poll : Poll) (polls : List Poll) (others : List ℕ)
    → slots_of (poll ∷ polls) others ≡ slots_of (poll ∷ []) (slots_of polls others)
one_more (idle now) polls others = refl
one_more (popped p now) polls others = refl

-- What the ingestion thread makes: the payload is in the packet's slot, and fits its buffer.
pub record IsEnvelope (size : ℕ) (p : ParsedPacket) : Type 0 where
  pub points : p.payload_ptr ≡ (if p.pool_slot_id == no_payload then none else some p.pool_slot_id)
  pub fits : p.payload_length ≤ size

abbrev pub IsEnvelopePoll : ℕ → Poll → Type 0
IsEnvelopePoll size (idle now) = Unit
IsEnvelopePoll size (popped p now) = IsEnvelope size p

abbrev pub IsBuffer : ℕ → List ℕ → Type 0
IsBuffer size bytes = (size ≤ length bytes) × All IsByte bytes

pub release_packet-IsBalanced :
    (capacity : ℕ) (pool : Pool) (p : ParsedPacket) (others : List ℕ)
    → IsBalanced capacity (record { pool = pool; held = slot_of p others })
    → (q : Pool) × (release_packet pool p ≡ accept q)
      × (q.pool ≡ pool.pool)
      × IsBalanced capacity (record { pool = q; held = others })
unfolding release_packet
release_packet-IsBalanced capacity pool p others b =
    elim (Bool-cases (p.pool_slot_id == no_payload)) [
      | inl e ↦ (pool, rw (e, release_packet) refl, refl, rw e at b)
      | inr e ↦
          let (q, done, same, balanced) =
            release_slot-IsBalanced capacity pool (p.pool_slot_id ∷ others) others p.pool_slot_id
              (rw e at b) (λ s. refl) in
          (q, rw (e, release_packet) done, same, balanced)
    ]
