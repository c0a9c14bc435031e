-- ===== src/ConnectionTracker/Examples.antt =====
-- The tracker on small histories.
use nethex.Base.{arith, length, ◌≡◌, ◌≤◌, refl, true, false, List, [], ◌∷◌, some, none}
use nethex.FiveTuple.{FiveTuple, same_tuple}
use nethex.Connection.{syn_sent, established, new_connection}
use nethex.ConnectionTracker.{
  Flags, flags_of, init, process_tcp_packet, next_state, touch, evict_stale_sessions, TrackedFlow,
  find_flow, evict_from_back, should_evict, opened_conn, update_conn, idle_seconds,
}
use nethex.ConnectionTracker.Handshake.{
  run_states, rank, rank-run_states, Shaken, Shaken-of_established,
}
use nethex.ConnectionTracker.Flows.{Packet, feed, known, watch_all, feed-known}
use nethex.ConnectionTracker.Linked.{IsLinked, init-IsLinked, process_tcp_packet-IsLinked}
use nethex.ConnectionTracker.Freshness.{Event, packet, collection, run, happen, idle_seconds_le}
use nethex.ConnectionTracker.Eviction.{Evicted, evict_stale_sessions_lem}

abbrev web : FiveTuple
web = record { src_ip = 5; dest_ip = 9; src_port = 4000; dest_port = 80; protocol = 6 }

abbrev mail : FiveTuple
mail = record { src_ip = 5; dest_ip = 9; src_port = 4001; dest_port = 25; protocol = 6 }

-- SYN of both flows, then SYN-ACK and ACK of the first.
abbrev history : List Packet
history =
    record { tuple = web; tcp_flags = 0x02; payload_size = 0; now = 1 }
    ∷ record { tuple = mail; tcp_flags = 0x02; payload_size = 0; now = 2 }
    ∷ record { tuple = web; tcp_flags = 0x12; payload_size = 0; now = 3 }
    ∷ record { tuple = web; tcp_flags = 0x10; payload_size = 7; now = 4 }
    ∷ []

web-known :
    known web (feed init history)
    ≡ some (record { state = established; total_bytes = 7; total_packets = 3; last_seen = 4 })
unfolding feed process_tcp_packet flags_of same_tuple touch
web-known = refl

feed-known_example : known web (feed init history) ≡ watch_all web none history
feed-known_example = feed-known init history web

abbrev syn_ack : Flags
syn_ack = record { is_syn = true; is_ack = true; is_fin = false; is_rst = false }

abbrev ack : Flags
ack = record { is_syn = false; is_ack = true; is_fin = false; is_rst = false }

-- A reset that acknowledges, in the middle of the handshake.
abbrev rst_ack : Flags
rst_ack = record { is_syn = false; is_ack = true; is_fin = false; is_rst = true }

reset_establishes : run_states syn_sent (syn_ack ∷ rst_ack ∷ []) ≡ established
unfolding run_states next_state
reset_establishes = refl

Shaken-of_established_example : Shaken (syn_ack ∷ ack ∷ [])
unfolding run_states next_state
Shaken-of_established_example = Shaken-of_established (syn_ack ∷ ack ∷ []) refl

rank-run_states_example : 1 ≤ rank (run_states syn_sent (syn_ack ∷ rst_ack ∷ []))
rank-run_states_example = rank-run_states syn_sent (syn_ack ∷ rst_ack ∷ [])

process_tcp_packet-IsLinked_example : IsLinked (process_tcp_packet init web 0x02 0 1).1
process_tcp_packet-IsLinked_example = process_tcp_packet-IsLinked web 0x02 0 1 init-IsLinked

-- Eleven seconds after its only SYN the flow is stale.
evict_stale_sessions_lem_example :
    Evicted 11_000_000_001
      (process_tcp_packet init web 0x02 0 1).1
      (evict_stale_sessions (process_tcp_packet init web 0x02 0 1).1 11_000_000_001)
evict_stale_sessions_lem_example =
    evict_stale_sessions_lem 11_000_000_001 (process_tcp_packet-IsLinked web 0x02 0 1 init-IsLinked)

-- Two SYNs, five seconds apart.
abbrev two_syns : List Event
two_syns = packet web 0x02 0 0 ∷ packet mail 0x02 0 5_000_000_000 ∷ collection 6_000_000_000 ∷ []

abbrev first_flow : TrackedFlow
first_flow = record {
  conn = record (new_connection 0) { state = syn_sent; total_packets = 1 };
  lru_it = 0;
}

first_stays :
    find_flow web (evict_stale_sessions (run init two_syns) 8_000_000_000).flow_table
    ≡ some first_flow
unfolding run happen process_tcp_packet evict_stale_sessions evict_from_back should_evict flags_of
    same_tuple opened_conn touch update_conn
first_stays = refl

second_stays_alone : length (evict_stale_sessions (run init two_syns) 12_000_000_000).flow_table ≡ 1
unfolding run happen process_tcp_packet evict_stale_sessions evict_from_back should_evict flags_of
    same_tuple opened_conn touch update_conn
second_stays_alone = refl

idle_seconds_le_example : idle_seconds 8_000_000_000 first_flow.conn ≤ 300
idle_seconds_le_example =
    idle_seconds_le two_syns 8_000_000_000 web first_flow (omega arith) first_stays
