-- ===== src/ConnectionTracker/Flows.antt =====
-- The tracker against one automaton for each flow: packets of other flows do not touch it.
use nethex.Base.{
  ℕ, ◌+◌, ◌%◌, ◌^◌, ◌≡◌, refl, ap, ◌∙◌, not, ◌&&◌, List, [], ◌∷◌, Option, none, some, arith,
  if◌then◌else◌, Option-cases, inl, inr,
}
use nethex.Base.Table.{lookup-replace}
use mathlib.Core.Option
use nethex.FiveTuple.{FiveTuple, same_tuple}
use nethex.FiveTuple.Symmetry.{same_tuple_iff}
use nethex.Connection.{TcpState, syn_sent}
use nethex.ConnectionTracker.{
  ConnectionTracker, TrackedFlow, flags_of, find_flow, next_state, update_conn, process_tcp_packet,
}

pub record Packet : Type 0 where
  pub tuple : FiveTuple
  pub tcp_flags : ℕ
  pub payload_size : ℕ
  pub now : ℕ

-- `process_tcp_packet` on each packet in turn.
unfoldable pub feed : ConnectionTracker → List Packet → ConnectionTracker
feed t [] = t
feed t (p ∷ ps) = feed (process_tcp_packet t p.tuple p.tcp_flags p.payload_size p.now).1 ps

-- What the tracker promises to know of one flow.
pub record Summary : Type 0 where
  pub state : TcpState
  pub total_bytes : ℕ
  pub total_packets : ℕ
  pub last_seen : ℕ

abbrev pub summary : TrackedFlow → Summary
summary f = record {
  state = f.conn.state;
  total_bytes = f.conn.total_bytes;
  total_packets = f.conn.total_packets;
  last_seen = f.conn.last_seen;
}

-- One packet of the flow: only a SYN that is no answer opens it.
pub watch : Option Summary → Packet → Option Summary
watch none p =
    let f = flags_of p.tcp_flags in
    if f.is_syn && not f.is_ack
    then some (record {
      state = syn_sent;
      total_bytes = p.payload_size;
      total_packets = 1;
      last_seen = p.now;
    })
    else none
watch (some s) p = some (record {
  state = next_state s.state (flags_of p.tcp_flags);
  total_bytes = (s.total_bytes + p.payload_size) % 2 ^ 64;
  total_packets = (s.total_packets + 1) % 2 ^ 64;
  last_seen = p.now;
})

-- The automaton of one flow on a history: it looks at the packets of that flow alone.
pub watch_all : FiveTuple → Option Summary → List Packet → Option Summary
watch_all k s [] = s
watch_all k s (p ∷ ps) = watch_all k (if same_tuple p.tuple k then watch s p else s) ps

abbrev pub known : FiveTuple → ConnectionTracker → Option Summary
known k t = Option.map summary (find_flow k t.flow_table)

process-known :
    (t : ConnectionTracker) (p : Packet) (k : FiveTuple)
    → known k (process_tcp_packet t p.tuple p.tcp_flags p.payload_size p.now).1
      ≡ (if same_tuple p.tuple k then watch (known k t) p else known k t)
unfolding process_tcp_packet watch
process-known t p k = elim (Option-cases (find_flow p.tuple t.flow_table)) [
  | inl e ↦ rw (e, process_tcp_packet) (ground (arith, same_tuple_iff p.tuple k))
  | inr (flow, e) ↦
      rw (e, process_tcp_packet)
        (ground (
          arith,
          same_tuple_iff p.tuple k,
          lookup-replace same_tuple same_tuple_iff p.tuple k
              (record flow {
                conn = update_conn flow.conn (flags_of p.tcp_flags) p.payload_size p.now;
              })
              flow t.flow_table e,
        ))
]

-- After any history of packets, what the tracker knows of a flow is what its own automaton says.
pub feed-known :
    (t : ConnectionTracker) (ps : List Packet) (k : FiveTuple)
    → known k (feed t ps) ≡ watch_all k (known k t) ps
unfolding feed watch_all
feed-known t [] k = refl
feed-known t (p ∷ ps) k =
    feed-known (process_tcp_packet t p.tuple p.tcp_flags p.payload_size p.now).1 ps k
    ∙ ap (λ s. watch_all k s ps) (process-known t p k)
