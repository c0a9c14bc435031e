-- ===== src/ConnectionTracker/Scanned.antt =====
-- What holds of the scanner's state in each connection, and at its start, stays so: the tracker
-- never touches that state.
use nethex.Base.{ℕ, inl, inr, not, ◌&&◌, [], ◌∷◌, Option, none, some, Bool-cases, Option-cases}
use nethex.Base.Table.{erase, Entries, lookup-Entries, replace-Entries, erase-Entries}
use mathlib.Core.List.{reverse}
use nethex.FiveTuple.{FiveTuple, same_tuple}
use nethex.Connection.{Connection}
use nethex.ConnectionTracker.{
  TrackedFlow, ConnectionTracker, FlowTable, LruList, find_flow, flags_of, process_tcp_packet,
  write_conn, idle_seconds, should_evict, evict_from_back, evict_stale_sessions,
}

module _ (P : ℕ → Type 0) where
  abbrev AllScanned : FlowTable → Type 0
  AllScanned table = Entries same_tuple (λ (f : TrackedFlow). P f.conn.ac_state) table

  abbrev pub IsScanned : ConnectionTracker → Type 0
  IsScanned t = Entries same_tuple (λ (f : TrackedFlow). P f.conn.ac_state) t.flow_table

  -- What a pointer to a connection shows, if it is not null.
  abbrev pub ShowsScanned : Option Connection → Type 0
  ShowsScanned none = Unit
  ShowsScanned (some conn) = P conn.ac_state

  pub process_tcp_packet-IsScanned :
      (t : ConnectionTracker) (k : FiveTuple) (tcp_flags size now : ℕ)
      → P 0
      → IsScanned t
      → ShowsScanned (process_tcp_packet t k tcp_flags size now).0
        × IsScanned (process_tcp_packet t k tcp_flags size now).1
  unfolding process_tcp_packet
  process_tcp_packet-IsScanned t k tcp_flags size now start h =
      elim (Option-cases (find_flow k t.flow_table)) [
        | inl e ↦
            elim (Bool-cases ((flags_of tcp_flags).is_syn && not (flags_of tcp_flags).is_ack)) [
              | inl syn ↦ rw (e, syn, process_tcp_packet, ShowsScanned) (start, (start, h))
              | inr other ↦ rw (e, other, process_tcp_packet, ShowsScanned) (tt, h)
            ]
        | inr (flow, e) ↦
            let here =
              lookup-Entries same_tuple (λ (f : TrackedFlow). P f.conn.ac_state) k flow t.flow_table
                h e in
            rw (e, process_tcp_packet, ShowsScanned)
              (
                here,
                replace-Entries same_tuple (λ (f : TrackedFlow). P f.conn.ac_state) k _ t.flow_table
                    here h,
              )
      ]

  pub write_conn-IsScanned :
      (t : ConnectionTracker) (k : FiveTuple) (conn : Connection)
      → P conn.ac_state
      → IsScanned t
      → IsScanned (write_conn t k conn)
  unfolding write_conn
  write_conn-IsScanned t k conn here h = elim (Option-cases (find_flow k t.flow_table)) [
    | inl e ↦ rw (e, write_conn) h
    | inr (flow, e) ↦
        rw (e, write_conn)
          (replace-Entries same_tuple (λ (f : TrackedFlow). P f.conn.ac_state) k _ t.flow_table here
            h)
  ]

  evict_from_back-AllScanned :
      (now : ℕ) (table : FlowTable) (l : LruList)
      → AllScanned table
      → AllScanned (evict_from_back now table l).0
  unfolding evict_from_back
  evict_from_back-AllScanned now table [] h = h
  evict_from_back-AllScanned now table ((id, oldest) ∷ newer) h =
      elim (Option-cases (find_flow oldest table)) [
        | inl e ↦ rw (e, evict_from_back) (evict_from_back-AllScanned now table newer h)
        | inr (flow, e) ↦
            elim (Bool-cases (should_evict flow.conn.state (idle_seconds now flow.conn))) [
              | inl stale ↦
                  rw (e, stale, evict_from_back)
                    (evict_from_back-AllScanned now (erase same_tuple oldest table) newer (
                      erase-Entries same_tuple (λ (f : TrackedFlow). P f.conn.ac_state) oldest table
                        h))
              | inr live ↦ rw (e, live, evict_from_back) h
            ]
      ]

  pub evict_stale_sessions-IsScanned :
      (t : ConnectionTracker) (now : ℕ) → IsScanned t → IsScanned (evict_stale_sessions t now)
  unfolding evict_stale_sessions
  evict_stale_sessions-IsScanned t now h =
      evict_from_back-AllScanned now t.flow_table (reverse t.lru_list) h
