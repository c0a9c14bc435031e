-- ===== src/Worker/Handling.antt =====
-- One packet in a worker: what the inspection reads, what it writes to the connection, and what
-- becomes of the slot.
use nethex.Base.{
  ℕ, ◌^◌, ◌≤◌, ◌<◌, ◌≡◌, refl, sym, subst, ◌∙◌, inl, inr, Bool, true, false, not, List, [], ◌++◌,
  append-nil, Option, take, get_or, get_elem?-eq-get_or, if◌then◌else◌, some, arith, length, All,
  All-get_elem?, ◌==◌, Bool-cases, accept, accept-injective, Yields, Yields-cases,
}
use nethex.Wire.{ByteOrder, ParsedPacket, no_payload}
use nethex.Wire.Order.{IsByte}
use nethex.MemoryPool.{Pool}
use nethex.MemoryPool.Ledger.{IsBalanced}
use nethex.Connection.{Connection, should_bypass}
use nethex.ConnectionTracker.{ConnectionTracker}
use nethex.ConnectionTracker.Scanned.{IsScanned, write_conn-IsScanned}
use nethex.PatternMatcher.{Trie, root_only}
use nethex.PatternMatcher.Adding.{add_patterns}
use nethex.PatternMatcher.Links.{StateOf}
use nethex.RuleManager.Signatures.{IsFile, file_signatures}
use nethex.DpiEngine
use nethex.DpiEngine.{Inspection, inspect_payload, not_inspected, no_alerts}
use nethex.PatternMatcher.Words.{occurrences}
use nethex.ConnectionTracker.{write_conn}
use nethex.DpiEngine.Detection.{inspect_payload-Inspected}
use nethex.Worker.{Worker, tuple_of, inspect, marked, inspect_flow, inspect_stateless}
use nethex.Worker.Envelopes.{slot_of, IsEnvelope, IsBuffer, release_packet-IsBalanced}

-- The bytes of a packet's payload, which lie in its slot.
abbrev pub payload_in : List (List ℕ) → ParsedPacket → List ℕ
payload_in buffers p =
    if p.pool_slot_id == no_payload
    then []
    else take p.payload_length (get_or buffers p.pool_slot_id [])

nothing_in :
    (buffers : List (List ℕ)) (p : ParsedPacket)
    → (p.payload_length == 0) ≡ true
    → payload_in buffers p ≡ []
nothing_in buffers p e =
    let none_left : p.payload_length ≡ 0 = ground (arith, e) in
    elim (Bool-cases (p.pool_slot_id == no_payload)) [
      | inl empty ↦ rw (payload_in, empty) refl
      | inr full ↦ rw (payload_in, full, none_left) refl
    ]

-- What a packet does not change: the counter of rounds, and the buffers.
pub record KeepsAside (w w' : Worker) : Type 0 where
  pub counter : w'.loop_counter ≡ w.loop_counter
  pub buffers : w'.mem_pool.pool ≡ w.mem_pool.pool

module _ (rules : Option (List ℕ)) where
  abbrev pub StateAfter : List ℕ → ℕ → Type 0
  StateAfter text state = StateOf (add_patterns root_only (file_signatures rules)) text state

  -- Does a signature of the rules end in `now`, behind `before`?
  abbrev pub matches : List ℕ → List ℕ → Bool
  matches before now = not (no_alerts (occurrences (file_signatures rules) before now))

  -- What the inspection of `now` behind `before` is to give.
  pub record Scans (before now : List ℕ) (r : Inspection) : Type 0 where
    pub verdict : r.is_malicious ≡ matches before now
    pub state : StateAfter (before ++ now) r.ac_state

  not_inspected-Scans :
      (before : List ℕ) (state l7 : ℕ)
      → StateAfter before state
      → Scans before [] (not_inspected state l7)
  not_inspected-Scans before state l7 at = record {
    verdict = refl;
    state = subst (λ (x : List ℕ). StateAfter x state) (sym (append-nil before)) at;
  }

  -- Some text leads the machine of the rules to the state.
  abbrev pub IsReached : ℕ → Type 0
  IsReached state = (text : List ℕ) × StateAfter text state

  -- What becomes of the connection, where the bytes inspected before have left its state: not
  -- bypassed, it gets the verdict on these bytes.
  abbrev pub Judged :
      Worker → ParsedPacket → ConnectionTracker → Connection → List ℕ → Worker → Type 0
  Judged w p tracker conn before w' =
      (conn' : Connection) × (w'.tracker ≡ write_conn tracker (tuple_of p) conn')
      × ((should_bypass conn).0 ≡ false
          → (i : Inspection) × (conn' ≡ marked (should_bypass conn).1 i)
            × Scans before (payload_in w.mem_pool.pool p) i)

module _ (rules : Option (List ℕ)) (capacity size : ℕ) where
  -- The worker's state, where these slots of the pool are held by clients.
  pub record IsValid (held : List ℕ) (w : Worker) : Type 0 where
    pub built : DpiEngine.init rules ≡ accept w.scanner
    pub scanned : IsScanned (IsReached rules) w.tracker
    pub balanced : IsBalanced capacity (record { pool = w.mem_pool; held = held })
    pub buffers : All (IsBuffer size) w.mem_pool.pool

  module _ (file : IsFile rules) (small : size < 2 ^ 31) (o : ByteOrder) where
    inspect-Scans :
        (scanner : Trie) (pool : Pool) (p : ParsedPacket) (others before : List ℕ) (state l7 : ℕ)
        → DpiEngine.init rules ≡ accept scanner
        → IsBalanced capacity (record { pool = pool; held = slot_of p others })
        → All (IsBuffer size) pool.pool
        → IsEnvelope size p
        → StateAfter rules before state
        → Yields (Scans rules before (payload_in pool.pool p)) (inspect o scanner pool p state l7)
    unfolding inspect
    inspect-Scans scanner pool p others before state l7 built b buffers envelope at =
        elim (Bool-cases (p.payload_length == 0)) [
          | inl e ↦
              rw (inspect, e, nothing_in pool.pool p e)
                (not_inspected-Scans rules before state l7 at)
          | inr e ↦ elim (Bool-cases (p.pool_slot_id == no_payload)) [
            | inl empty ↦
                rw (inspect, e, envelope.points, empty, payload_in)
                  (not_inspected-Scans rules before state l7 at)
            | inr full ↦
                let inside : p.pool_slot_id < length pool.pool =
                  ground (arith, b.once p.pool_slot_id, b.size, full) in
                let (payload, here, (room, bytes)) =
                  All-get_elem? (IsBuffer size) pool.pool p.pool_slot_id buffers inside in
                let same : payload ≡ get_or pool.pool p.pool_slot_id [] =
                  let both = sym here ∙ get_elem?-eq-get_or pool.pool p.pool_slot_id [] inside in
                  cc in
                rw (inspect, e, envelope.points, full, here, payload_in, sym same)
                  (reads payload room bytes)
          ]
        ]
      where
        reads :
            (payload : List ℕ)
            → size ≤ length payload
            → All IsByte payload
            → Yields
                (Scans rules before (take p.payload_length payload))
                (inspect_payload scanner o (some payload) p.payload_length (tuple_of p) state l7)
        reads payload room bytes =
            let (engine, made, inspected) =
              inspect_payload-Inspected rules o {xs = payload} {n = p.payload_length} (tuple_of p)
                before state l7 file
                (record {
                  inside = omega (arith, envelope.fits);
                  small = omega (arith, envelope.fits);
                  bytes = bytes;
                })
                at in
            let same : engine ≡ scanner = accept-injective (sym made ∙ built) in
            let (r, runs, i) =
              Yields-cases _
                (inspect_payload engine o (some payload) p.payload_length (tuple_of p) state l7)
                inspected in
            rw (sym same, runs) (record { verdict = i.malicious; state = i.state })

    pub inspect_stateless-Yields :
        (w : Worker) (p : ParsedPacket) (others : List ℕ) (tracker : ConnectionTracker)
        → IsValid (slot_of p others) w
        → IsEnvelope size p
        → IsScanned (IsReached rules) tracker
        → Yields
            (λ (r : Bool × Worker). IsValid others r.1 × KeepsAside w r.1 × (r.1.tracker ≡ tracker))
            (inspect_stateless o w p tracker)
    unfolding inspect_stateless
    inspect_stateless-Yields w p others tracker v envelope scanned =
        let (r, runs, reached) = Yields-cases _ (inspect o w.scanner w.mem_pool p 0 0) (
          inspect-Scans w.scanner w.mem_pool p others [] 0 0 v.built v.balanced v.buffers envelope
            refl) in
        let (pool, done, same, balanced) =
          release_packet-IsBalanced capacity w.mem_pool p others v.balanced in
        rw (runs, done)
          (
            record {
              built = v.built;
              scanned = scanned;
              balanced = balanced;
              buffers = rw same v.buffers;
            },
            record { counter = refl; buffers = same },
            refl,
          )

    pub inspect_flow-Yields :
        (w : Worker) (p : ParsedPacket) (others : List ℕ) (tracker : ConnectionTracker)
        (conn : Connection) (before : List ℕ)
        → IsValid (slot_of p others) w
        → IsEnvelope size p
        → IsScanned (IsReached rules) tracker
        → StateAfter rules before conn.ac_state
        → Yields
            (λ (r : Bool × Worker).
              IsValid others r.1 × KeepsAside w r.1 × Judged rules w p tracker conn before r.1)
            (inspect_flow o w p tracker conn)
    unfolding inspect_flow should_bypass
    inspect_flow-Yields w p others tracker conn before v envelope scanned at =
        let counted : Connection = (should_bypass conn).1 in
        let kept : StateAfter rules before counted.ac_state =
          subst (StateAfter rules before) (ground arith) at in
        let (pool, done, same, balanced) =
          release_packet-IsBalanced capacity w.mem_pool p others v.balanced in
        elim (Bool-cases (should_bypass conn).0) [
          | inl bypass ↦
              rw (inspect_flow, bypass, done)
                (
                  record {
                    built = v.built;
                    scanned =
                        write_conn-IsScanned (IsReached rules) tracker (tuple_of p) counted
                          (before, kept) scanned;
                    balanced = balanced;
                    buffers = rw same v.buffers;
                  },
                  record { counter = refl; buffers = same },
                  (counted, refl, λ e. cc),
                )
          | inr full ↦
              let (r, runs, after) =
                Yields-cases _
                  (inspect o w.scanner w.mem_pool p counted.ac_state counted.l7_protocol)
                  (inspect-Scans w.scanner w.mem_pool p others before counted.ac_state
                    counted.l7_protocol v.built v.balanced v.buffers envelope kept) in
              rw (inspect_flow, full, runs, done)
                (
                  record {
                    built = v.built;
                    scanned =
                        write_conn-IsScanned (IsReached rules) tracker (tuple_of p)
                          (marked counted r) (before ++ payload_in w.mem_pool.pool p, after.state)
                          scanned;
                    balanced = balanced;
                    buffers = rw same v.buffers;
                  },
                  record { counter = refl; buffers = same },
                  (marked counted r, refl, λ e. (r, refl, after)),
                )
        ]
