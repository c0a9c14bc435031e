-- ===== src/ConnectionTracker/Lookups.antt =====
-- What a lookup of a flow finds behind a call of the tracker: the call's own flow, or another one,
-- which is as before.
use nethex.Base.{
  ℕ, ◌≡◌, refl, ◌∙◌, inl, inr, true, false, not, ◌&&◌, none, some, arith, Option-cases,
}
use nethex.Base.Table.{lookup-replace}
use nethex.FiveTuple.{FiveTuple, same_tuple}
use nethex.FiveTuple.Symmetry.{same_tuple_iff}
use nethex.Connection.{Connection, new_connection}
use nethex.ConnectionTracker.{
  TrackedFlow, ConnectionTracker, find_flow, Flags, flags_of, update_conn, opened_conn,
  process_tcp_packet, write_conn,
}

-- What the inspection has written, the tracker leaves alone.
pub record SameInspection (c d : Connection) : Type 0 where
  pub is_bypassed : c.is_bypassed ≡ d.is_bypassed
  pub packet_count : c.packet_count ≡ d.packet_count
  pub is_malicious : c.is_malicious ≡ d.is_malicious
  pub ac_state : c.ac_state ≡ d.ac_state

pub update_conn-SameInspection :
    (c : Connection) (f : Flags) (size now : ℕ) → SameInspection c (update_conn c f size now)
unfolding update_conn
update_conn-SameInspection c f size now = record {
  is_bypassed = refl;
  packet_count = refl;
  is_malicious = refl;
  ac_state = refl;
}

pub opened_conn-SameInspection :
    (size now : ℕ) → SameInspection (new_connection now) (opened_conn size now)
unfolding opened_conn
opened_conn-SameInspection size now = record {
  is_bypassed = refl;
  packet_count = refl;
  is_malicious = refl;
  ac_state = refl;
}

module _ (t : ConnectionTracker) (k : FiveTuple) where
  pub write_conn_self :
      (flow : TrackedFlow) (conn : Connection)
      → find_flow k t.flow_table ≡ some flow
      → find_flow k (write_conn t k conn).flow_table ≡ some (record flow { conn = conn })
  unfolding write_conn
  write_conn_self flow conn e =
      rw (write_conn, e)
        (lookup-replace same_tuple same_tuple_iff k k (record flow { conn = conn }) flow
            t.flow_table e
          ∙ ground (arith, same_tuple_iff k k))

  module _ (j : FiveTuple) (other : same_tuple j k ≡ false) where
    pub write_conn-other :
        (conn : Connection)
        → find_flow k (write_conn t j conn).flow_table ≡ find_flow k t.flow_table
    unfolding write_conn
    write_conn-other conn = elim (Option-cases (find_flow j t.flow_table)) [
      | inl e ↦ rw (write_conn, e) refl
      | inr (flow, e) ↦
          rw (write_conn, e)
            (lookup-replace same_tuple same_tuple_iff j k (record flow { conn = conn }) flow
                t.flow_table e
              ∙ rw other refl)
    ]

    pub process_tcp_packet-other :
        (tcp_flags size now : ℕ)
        → find_flow k (process_tcp_packet t j tcp_flags size now).1.flow_table
          ≡ find_flow k t.flow_table
    unfolding process_tcp_packet
    process_tcp_packet-other tcp_flags size now = elim (Option-cases (find_flow j t.flow_table)) [
      | inl e ↦ rw (process_tcp_packet, e) (ground (arith, other))
      | inr (flow, e) ↦
          rw (process_tcp_packet, e)
            (lookup-replace same_tuple same_tuple_iff j k
                (record flow { conn = update_conn flow.conn (flags_of tcp_flags) size now }) flow
                t.flow_table e
              ∙ rw other refl)
    ]

  pub process_tcp_packet_self :
      (tcp_flags size now : ℕ) (flow : TrackedFlow)
      → find_flow k t.flow_table ≡ some flow
      → ((process_tcp_packet t k tcp_flags size now).0
          ≡ some (update_conn flow.conn (flags_of tcp_flags) size now))
        × (find_flow k (process_tcp_packet t k tcp_flags size now).1.flow_table
            ≡ some (record flow { conn = update_conn flow.conn (flags_of tcp_flags) size now }))
  unfolding process_tcp_packet
  process_tcp_packet_self tcp_flags size now flow e =
      rw (process_tcp_packet, e)
        (
          refl,
          lookup-replace same_tuple same_tuple_iff k k
                (record flow { conn = update_conn flow.conn (flags_of tcp_flags) size now }) flow
                t.flow_table e
              ∙ ground (arith, same_tuple_iff k k),
        )

  pub process_tcp_packet-opens :
      (tcp_flags size now : ℕ)
      → find_flow k t.flow_table ≡ none
      → (flags_of tcp_flags).is_syn && not (flags_of tcp_flags).is_ack ≡ true
      → ((process_tcp_packet t k tcp_flags size now).0 ≡ some (opened_conn size now))
        × (find_flow k (process_tcp_packet t k tcp_flags size now).1.flow_table
            ≡ some (record { conn = opened_conn size now; lru_it = t.next_node }))
  unfolding process_tcp_packet
  process_tcp_packet-opens tcp_flags size now e syn =
      rw (process_tcp_packet, e, syn) (refl, ground (arith, same_tuple_iff k k))
