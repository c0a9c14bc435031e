-- ===== src/ConnectionTracker.antt =====
-- src/connection_tracker.cpp and include/connection_tracker.h: the flow table with its LRU list.
-- A node of `std::list` is known by a number of its own, which is what an iterator holds; the list
-- runs from the most to the least recently used flow. `now` is what the steady clock shows during
-- a call, in nanoseconds.
pub mod Handshake
pub mod Flows
pub mod Linked
pub mod Eviction
pub mod Scanned
pub mod Ordered
pub mod Chronology
pub mod Freshness
pub mod Lookups
mod Examples
use nethex.Base.{
  ℕ, suc, ◌+◌, ◌-◌, ◌/◌, ◌%◌, ◌^◌, Bool, true, false, not, ◌&&◌, ◌||◌, List, [], ◌∷◌, Option, none,
  some, ltb, ◌==◌, if◌then◌else◌, bit_and, length,
}
use nethex.Base.Table.{lookup, replace, erase}
use mathlib.Core.List.{reverse}
use nethex.FiveTuple.{FiveTuple, same_tuple}
use nethex.Connection.{
  TcpState, unknown, syn_sent, syn_rcvd, established, fin_wait, closed, Connection, new_connection,
}

pub record TrackedFlow : Type 0 where
  pub conn : Connection
  pub lru_it : ℕ

abbrev pub FlowTable : Type 0
FlowTable = List (FiveTuple × TrackedFlow)

-- A node's number and the tuple in it, front first.
abbrev pub LruList : Type 0
LruList = List (ℕ × FiveTuple)

pub record ConnectionTracker : Type 0 where
  pub flow_table : FlowTable
  pub lru_list : LruList
  -- A number that no node of the list has.
  pub next_node : ℕ

abbrev pub init : ConnectionTracker
init = record { flow_table = []; lru_list = []; next_node = 0 }

abbrev pub find_flow : FiveTuple → FlowTable → Option TrackedFlow
find_flow = lookup same_tuple

-- The flag bits of a packet.
pub record Flags : Type 0 where
  pub is_syn : Bool
  pub is_ack : Bool
  pub is_fin : Bool
  pub is_rst : Bool

unfoldable pub flags_of : ℕ → Flags
flags_of tcp_flags = record {
  is_syn = not (bit_and tcp_flags 0x02 == 0);
  is_ack = not (bit_and tcp_flags 0x10 == 0);
  is_fin = not (bit_and tcp_flags 0x01 == 0);
  is_rst = not (bit_and tcp_flags 0x04 == 0);
}

abbrev is_syn_sent : TcpState → Bool
is_syn_sent syn_sent = true
is_syn_sent _ = false

abbrev is_syn_rcvd : TcpState → Bool
is_syn_rcvd syn_rcvd = true
is_syn_rcvd _ = false

abbrev is_established : TcpState → Bool
is_established established = true
is_established _ = false

abbrev is_closed : TcpState → Bool
is_closed closed = true
is_closed _ = false

-- The state machine of a flow that exists.
unfoldable pub next_state : TcpState → Flags → TcpState
next_state s f =
    if is_syn_sent s && f.is_syn && f.is_ack
    then syn_rcvd
    else if is_syn_rcvd s && f.is_ack
    then established
    else if f.is_fin || f.is_rst
    then closed
    else s

-- Is the node at the front?
is_begin : ℕ → LruList → Bool
is_begin it [] = false
is_begin it ((id, t) ∷ rest) = id == it

-- `splice` of a node of the list to its front.
pub splice : ℕ → LruList → LruList
splice it l = elim (lookup ◌==◌ it l) [ none ↦ l | some t ↦ (it, t) ∷ erase ◌==◌ it l ]

pub touch : ℕ → LruList → LruList
unfolding is_begin splice
touch it l = if not (is_begin it l) then splice it l else l

-- The statistics and the state of a flow after a packet of it.
pub update_conn : Connection → Flags → ℕ → ℕ → Connection
unfolding next_state
update_conn conn f payload_size now = record conn {
  state = next_state conn.state f;
  total_bytes = (conn.total_bytes + payload_size) % 2 ^ 64;
  total_packets = (conn.total_packets + 1) % 2 ^ 64;
  last_seen = now;
}

-- The first packet of a flow.
pub opened_conn : ℕ → ℕ → Connection
opened_conn payload_size now = record (new_connection now) {
  state = syn_sent;
  total_bytes = payload_size;
  total_packets = 1;
  last_seen = now;
}

-- `none` is the null pointer; else what the pointer shows, that is the flow's entry in the table.
pub process_tcp_packet :
    ConnectionTracker → FiveTuple → ℕ → ℕ → ℕ → Option Connection × ConnectionTracker
unfolding update_conn opened_conn
process_tcp_packet t tuple tcp_flags payload_size now =
    let f = flags_of tcp_flags in
    elim (find_flow tuple t.flow_table) [
      | none ↦
          if f.is_syn && not f.is_ack
          then (
            some (opened_conn payload_size now),
            record {
              flow_table =
                  (tuple, record { conn = opened_conn payload_size now; lru_it = t.next_node })
                  ∷ t.flow_table;
              lru_list = (t.next_node, tuple) ∷ t.lru_list;
              next_node = suc t.next_node;
            },
          )
          else (none, t)
      | some flow ↦ (
        some (update_conn flow.conn f payload_size now),
        record t {
          flow_table =
              replace same_tuple tuple
                (record flow { conn = update_conn flow.conn f payload_size now }) t.flow_table;
          lru_list = touch flow.lru_it t.lru_list;
        },
      )
    ]

-- What the worker writes through the pointer that `process_tcp_packet` returned.
pub write_conn : ConnectionTracker → FiveTuple → Connection → ConnectionTracker
write_conn t tuple conn = elim (find_flow tuple t.flow_table) [
  | none ↦ t
  | some flow ↦ record t {
    flow_table = replace same_tuple tuple (record flow { conn = conn }) t.flow_table;
  }
]

-- `duration_cast<seconds>(now - last_seen)`; a steady clock does not run back.
abbrev pub idle_seconds : ℕ → Connection → ℕ
idle_seconds now conn = (now - conn.last_seen) / 1_000_000_000

-- The eviction rules.
pub should_evict : TcpState → ℕ → Bool
should_evict state duration_seconds =
    if is_closed state && ltb 5 duration_seconds
    then true
    else if is_syn_sent state && ltb 10 duration_seconds
    then true
    else if is_syn_rcvd state && ltb 10 duration_seconds
    then true
    else if is_established state && ltb 300 duration_seconds
    then true
    else ltb 300 duration_seconds

-- The loop, over the list from its back; it gives what is left of the table and of that list.
pub evict_from_back : ℕ → FlowTable → LruList → FlowTable × LruList
evict_from_back now table [] = (table, [])
evict_from_back now table ((id, oldest) ∷ newer) = elim (find_flow oldest table) [
  | none ↦ evict_from_back now table newer
  | some flow ↦ elim (should_evict flow.conn.state (idle_seconds now flow.conn)) [
    | true ↦ evict_from_back now (erase same_tuple oldest table) newer
    | false ↦ (table, (id, oldest) ∷ newer)
  ]
]

pub evict_stale_sessions : ConnectionTracker → ℕ → ConnectionTracker
evict_stale_sessions t now =
    let (table, left) = evict_from_back now t.flow_table (reverse t.lru_list) in
    record t { flow_table = table; lru_list = reverse left }

pub get_active_flow_count : ConnectionTracker → ℕ
get_active_flow_count t = length t.flow_table
