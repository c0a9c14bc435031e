-- ===== src/Ingestion/Payload.antt =====
-- The copy of a packet's payload into the slot that was borrowed for it.
use nethex.Base.{
  ℕ, zero, suc, ◌+◌, ◌-◌, ◌≤◌, ◌<◌, ◌≡◌, ◌≢◌, ◌<◌, sym, ap, ◌∙◌, suc, zero, take-append, All,
  All-get_elem?, get_or, get_or-set_self, get_or-set_ne, length-take, length-drop, Bool-cases, inl,
  inr, ltb, [], refl, sym, ap, ◌∙◌, inl, inr, List, [], ◌∷◌, ◌++◌, some, arith, length, All,
  All-get_elem?, length-take, length-drop, take, drop, set, get_elem?, get_or, get_or-set_self, ltb,
  Bool-cases, if◌then◌else◌, accept, in_array_ok,
}
use nethex.Wire.{ParsedPacket}
use nethex.PacketParser.Safety.{IsPacket}
use nethex.MemoryPool.{Pool}
use nethex.Ingestion.Parsing.{IsParsed}
use nethex.Ingestion.{Shared, Parsed, dispatching, copy_limit, copy_payload, copy_size_of, fill}

-- The envelope with its slot.
abbrev pub filled : Parsed → ℕ → ParsedPacket
filled r slot_id = record r.envelope {
  pool_slot_id = slot_id;
  payload_ptr = some slot_id;
  payload_length = copy_size_of r;
}

-- The pool with the payload in the slot's buffer.
abbrev pub with_payload : List ℕ → Parsed → Pool → ℕ → List ℕ → Pool
with_payload xs r pool slot_id buffer = record pool {
  pool =
      set pool.pool slot_id
        (take (copy_size_of r) (drop r.offset xs) ++ drop (copy_size_of r) buffer);
}

pub copy_size_of-fits :
    {xs : List ℕ} {n : ℕ} {r : Parsed}
    → IsPacket xs n
    → IsParsed n r
    → r.offset + copy_size_of r ≤ length xs
copy_size_of-fits v parsed = ground (arith, v.inside, parsed.room, parsed.inside)

pub fill_lem :
    {xs : List ℕ} {n : ℕ} (s : Shared) (r : Parsed) (pool : Pool) (slot_id : ℕ) (buffer : List ℕ)
    → IsPacket xs n
    → IsParsed n r
    → get_elem? pool.pool slot_id ≡ some buffer
    → copy_limit ≤ length buffer
    → fill xs s r pool slot_id
      ≡ accept (
        dispatching (filled r slot_id),
        record s { mem_pool = with_payload xs r pool slot_id buffer },
      )
unfolding fill copy_payload
fill_lem {xs} {n} s r pool slot_id buffer v parsed here room =
    let fits = copy_size_of-fits v parsed in
    let short : 0 + copy_size_of r ≤ length buffer = ground arith in
    rw
      (
        in_array_ok xs r.offset (copy_size_of r) fits,
        here,
        in_array_ok buffer 0 (copy_size_of r) short,
      )
      refl

-- What a buffer holds of a packet: its payload, cut off at 2048 bytes.
abbrev pub payload_of : List ℕ → Parsed → List ℕ
payload_of xs r = take copy_limit (take (r.packet_len - r.offset) (drop r.offset xs))

-- The envelope names the slot, whose buffer begins with the payload; no other buffer has changed.
pub record Carries (xs : List ℕ) (r : Parsed) (pool : Pool) (slot_id : ℕ) (p : ParsedPacket)
    (q : Pool) : Type 0 where
  pub slot : p.pool_slot_id ≡ slot_id
  pub pointer : p.payload_ptr ≡ some slot_id
  pub size : p.payload_length ≡ length (payload_of xs r)
  pub content : take p.payload_length (get_or q.pool slot_id []) ≡ payload_of xs r
  pub others : (i : ℕ) → i ≢ slot_id → get_or q.pool i [] ≡ get_or pool.pool i []

take-take_le : (a b : ℕ) (xs : List ℕ) → a ≤ b → take a (take b xs) ≡ take a xs
take-take_le zero b xs h = refl
take-take_le (suc a) zero xs h = absurd (omega arith)
take-take_le (suc a) (suc b) [] h = refl
take-take_le (suc a) (suc b) (x ∷ xs) h =
    ap (λ (l : List ℕ). x ∷ l) (take-take_le a b xs (omega arith))

take-take_ge : (a b : ℕ) (xs : List ℕ) → b ≤ a → take a (take b xs) ≡ take b xs
take-take_ge zero zero xs h = refl
take-take_ge (suc a) zero xs h = refl
take-take_ge zero (suc b) xs h = absurd (omega arith)
take-take_ge (suc a) (suc b) [] h = refl
take-take_ge (suc a) (suc b) (x ∷ xs) h =
    ap (λ (l : List ℕ). x ∷ l) (take-take_ge a b xs (omega arith))

-- What is copied, of the bytes from the payload on.
copied :
    (limit size : ℕ) (xs : List ℕ)
    → take (if ltb limit size then limit else size) xs ≡ take limit (take size xs)
copied limit size xs = elim (Bool-cases (ltb limit size)) [
  | inl long ↦ rw long (sym (take-take_le limit size xs (ground arith)))
  | inr short ↦ rw short (sym (take-take_ge limit size xs (ground arith)))
]

-- The slot that was borrowed for a packet gets the packet's payload, from the first byte behind its
-- headers to the end of the IP packet or the 2048th byte, and no other slot's buffer changes; the
-- envelope then names the slot and the length of what was copied.
-- The packet is shorter than 2^31 bytes.
pub fill-Carries :
    {xs : List ℕ} {n : ℕ} (s : Shared) (r : Parsed) (pool : Pool) (slot_id : ℕ)
    → IsPacket xs n
    → IsParsed n r
    → slot_id < length pool.pool
    → All (λ (b : List ℕ). copy_limit ≤ length b) pool.pool
    → (p : ParsedPacket) × (s' : Shared) × (fill xs s r pool slot_id ≡ accept (dispatching p, s'))
      × Carries xs r pool slot_id p s'.mem_pool
fill-Carries {xs} {n} s r pool slot_id v parsed inside buffers =
    let (buffer, here, room) =
      All-get_elem? (λ (b : List ℕ). copy_limit ≤ length b) pool.pool slot_id buffers inside in
    (
      filled r slot_id,
      record s { mem_pool = with_payload xs r pool slot_id buffer },
      fill_lem s r pool slot_id buffer v parsed here room,
      record {
        slot = refl;
        pointer = refl;
        size = sym whole ∙ ap length written-payload_of;
        content =
            ap (λ (b : List ℕ). take (copy_size_of r) b)
              (get_or-set_self pool.pool slot_id (written ++ drop (copy_size_of r) buffer) []
                inside)
            ∙ ap (λ (k : ℕ). take k (written ++ drop (copy_size_of r) buffer)) (sym whole)
            ∙ take-append written (drop (copy_size_of r) buffer)
            ∙ written-payload_of;
        others = λ i ne. get_or-set_ne pool.pool _ [] (λ e. ne (sym e));
      },
    )
  where
    written : List ℕ
    written = take (copy_size_of r) (drop r.offset xs)

    fits : r.offset + copy_size_of r ≤ length xs
    fits = copy_size_of-fits v parsed

    whole : length written ≡ copy_size_of r
    whole =
        omega
          (arith, fits, length-take (copy_size_of r) (drop r.offset xs), length-drop r.offset xs)

    written-payload_of : written ≡ payload_of xs r
    written-payload_of = copied copy_limit (r.packet_len - r.offset) (drop r.offset xs)
