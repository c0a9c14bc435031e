-- ===== src/Worker.antt =====
-- The worker thread of src/main.cpp. A poll is what a round of its loop finds in its queue, and the
-- steady clock's time; the queue and the shared pool belong to the modules LockFreeQueue and
-- MemoryPool. A round in which the queue is empty yields. The loop ends behind any round, once
-- `keep_running` is false and the queue is empty, which is where a list of polls ends.
pub mod Envelopes
pub mod Handling
pub mod Safety
pub mod Service
pub mod Watching
pub mod Detection
pub mod Verdict
mod Examples
use nethex.Base.{
  ℕ, ◌+◌, ◌%◌, ◌^◌, Bool, true, false, ◌||◌, ◌==◌, ltb, leb, List, [], ◌∷◌, Option, none, some,
  get_elem?, if◌then◌else◌, Outcome, accept, fault, ◌>>=◌,
}
use nethex.Wire.{ByteOrder, ParsedPacket, no_payload}
use nethex.FiveTuple.{FiveTuple, create_bidirectional_tuple}
use nethex.MemoryPool.{Pool, release_slot}
use nethex.Connection.{Connection, should_bypass}
use nethex.ConnectionTracker.{
  ConnectionTracker, process_tcp_packet, write_conn, evict_stale_sessions,
}
use nethex.PatternMatcher.{Trie}
use nethex.DpiEngine.{Inspection, not_inspected, inspect_payload}

-- The private state of a worker, and the pool that it shares.
pub record Worker : Type 0 where
  pub tracker : ConnectionTracker
  pub scanner : Trie
  pub loop_counter : ℕ
  pub mem_pool : Pool

pub data Poll : Type 0 where
  popped : ParsedPacket → ℕ → Poll
  idle : ℕ → Poll

abbrev pub tuple_of : ParsedPacket → FiveTuple
tuple_of p = create_bidirectional_tuple p.src_ip p.dest_ip p.src_port p.dest_port p.protocol

-- The pointer to the connection, and the tracker.
abbrev pub track : ConnectionTracker → ParsedPacket → ℕ → Option Connection × ConnectionTracker
track tracker packet now =
    if packet.protocol == 6
    then process_tcp_packet tracker (tuple_of packet) packet.tcp_flags packet.payload_length now
    else (none, tracker)

-- The bytes behind `payload_ptr` are those of the pool's buffer.
pub inspect : ByteOrder → Trie → Pool → ParsedPacket → ℕ → ℕ → Outcome Inspection
inspect order scanner pool packet ac_state l7_protocol = elim (packet.payload_length == 0) [
  | true ↦ accept (not_inspected ac_state l7_protocol)
  | false ↦ elim packet.payload_ptr [
    | none ↦ accept (not_inspected ac_state l7_protocol)
    | some buffer ↦ elim (get_elem? pool.pool buffer) [
      | none ↦ fault
      | some payload ↦
          inspect_payload scanner order (some payload) packet.payload_length (tuple_of packet)
            ac_state l7_protocol
    ]
  ]
]

pub release_packet : Pool → ParsedPacket → Outcome Pool
release_packet pool packet = elim (packet.pool_slot_id == no_payload) [
  | true ↦ accept pool
  | false ↦ release_slot pool packet.pool_slot_id
]

-- What the inspection has written through its references and the pointer.
abbrev pub marked : Connection → Inspection → Connection
marked conn r = record conn {
  ac_state = r.ac_state;
  l7_protocol = r.l7_protocol;
  is_malicious = conn.is_malicious || r.is_malicious;
}

-- A packet of a connection: is it bypassed?
pub inspect_flow :
    ByteOrder → Worker → ParsedPacket → ConnectionTracker → Connection → Outcome (Bool × Worker)
inspect_flow order w packet tracker conn =
    let (bypass, counted) = should_bypass conn in
    elim bypass [
      | true ↦ do
        pool ← release_packet w.mem_pool packet
        accept (
          true,
          record w { tracker = write_conn tracker (tuple_of packet) counted; mem_pool = pool },
        )
      | false ↦ do
        r ← inspect order w.scanner w.mem_pool packet counted.ac_state counted.l7_protocol
        pool ← release_packet w.mem_pool packet
        accept (
          false,
          record w {
            tracker = write_conn tracker (tuple_of packet) (marked counted r);
            mem_pool = pool;
          },
        )
    ]

-- A packet without one, with the stand-ins for the state and the protocol.
pub inspect_stateless :
    ByteOrder → Worker → ParsedPacket → ConnectionTracker → Outcome (Bool × Worker)
inspect_stateless order w packet tracker = do
  r ← inspect order w.scanner w.mem_pool packet 0 0
  pool ← release_packet w.mem_pool packet
  accept (false, record w { tracker = tracker; mem_pool = pool })

-- A packet that `pop` has returned.
pub process_packet : ByteOrder → Worker → ParsedPacket → ℕ → Outcome (Bool × Worker)
process_packet order w packet now =
    let (conn, tracker) = track w.tracker packet now in
    elim conn [
      | none ↦ inspect_stateless order w packet tracker
      | some c ↦ inspect_flow order w packet tracker c
    ]

-- The background garbage collection. `loop_counter` is a `uint32_t`.
pub collect : Worker → ℕ → Worker
collect w now =
    let counter : ℕ = (w.loop_counter + 1) % 2 ^ 32 in
    if leb 100000 counter
    then record w { tracker = evict_stale_sessions w.tracker now; loop_counter = 0 }
    else record w { loop_counter = counter }

-- One round: a packet that is bypassed skips the garbage collection.
pub round : ByteOrder → Worker → Poll → Outcome Worker
round order w (idle now) = accept (collect w now)
round order w (popped packet now) = do
  (bypassed, w') ← process_packet order w packet now
  accept (if bypassed then w' else collect w' now)

pub worker_node : ByteOrder → Worker → List Poll → Outcome Worker
worker_node order w [] = accept w
worker_node order w (poll ∷ polls) = do w' ← round order w poll; worker_node order w' polls
