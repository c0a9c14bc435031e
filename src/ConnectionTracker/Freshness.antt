-- ===== src/ConnectionTracker/Freshness.antt =====
-- After a collection no flow is left that has been idle for more than five minutes.
use nethex.Base.{
  ℕ, ◌≤◌, ◌≡◌, refl, ap, ◌∙◌, false, List, [], ◌∷◌, some, arith, Bool-cases, none_not_some, inl,
  inr, ◌==◌, All,
}
use mathlib.Core.List.{reverse}
use nethex.Base.Table.{erase, lookup-Entries}
use nethex.FiveTuple.{FiveTuple, same_tuple}
use nethex.Connection.{TcpState, unknown, syn_sent, syn_rcvd, established, fin_wait, closed}
use nethex.ConnectionTracker.{
  ConnectionTracker, TrackedFlow, FlowTable, LruList, find_flow, init, process_tcp_packet,
  idle_seconds, should_evict, evict_from_back, evict_stale_sessions,
}
use nethex.ConnectionTracker.Linked.{
  find_node, Linked, IsLinked, init-IsLinked, process_tcp_packet-IsLinked,
}
use nethex.ConnectionTracker.Eviction.{
  owner, erased, drop-Linked, reverse-Linked, OldestIsLive, evict_stale_sessions_lem,
}
use nethex.ConnectionTracker.Ordered.{
  seen, last_seen, Rising, All-reverse, Falling-reverse, Rising-reverse, All-eq, Rising-eq,
  all_nodes,
}
use nethex.ConnectionTracker.Chronology.{
  IsChronological, later_now, All-unchanged, process_tcp_packet-IsChronological,
}

-- The collector leaves a part of the list, which stays in order.
evict_from_back-Rising :
    (now bound : ℕ) (table : FlowTable) (nodes : LruList)
    → Linked table nodes
    → Rising (last_seen table) nodes
    → All (λ (e : ℕ × FiveTuple). last_seen table e.1 ≤ bound) nodes
    → let (table', left) = evict_from_back now table nodes in
      Rising (last_seen table') left
      × All (λ (e : ℕ × FiveTuple). last_seen table' e.1 ≤ bound) left
unfolding evict_from_back
evict_from_back-Rising now bound table [] v rising past = (tt, tt)
evict_from_back-Rising now bound table ((id, k) ∷ newer) v rising past =
    let (f, e, p) = owner id k v in
    elim (Bool-cases (should_evict f.conn.state (idle_seconds now f.conn))) [
      | inl stale ↦
          let table' = erase same_tuple k table in
          let v' = drop-Linked id k v in
          let away : All (λ (e : ℕ × FiveTuple). same_tuple k e.1 ≡ false) newer =
            all_nodes (λ j. same_tuple k j ≡ false) newer v'.distinct_nodes
              λ i j h. elim (Bool-cases (same_tuple k j)) [
                | inl same ↦
                    let (g, found, at) = v'.to_flow i j h in
                    absurd (none_not_some (erased id k v j ∙ rw same refl) found)
                | inr other ↦ other
              ] in
          let same =
            All-unchanged (last_seen table) (last_seen table') k newer
              (λ j other. rw (erased id k v j, other) refl) away in
          rw (e, stale, evict_from_back)
            (evict_from_back-Rising now bound table' newer v'
              (Rising-eq (last_seen table) (last_seen table') newer same rising.1)
              (All-eq (last_seen table) (last_seen table') (λ (n : ℕ). n ≤ bound) newer same
                past.1))
      | inr live ↦ rw (e, live, evict_from_back) (rising, past)
    ]

pub evict_stale_sessions-IsChronological :
    {t : ConnectionTracker} (now bound : ℕ)
    → IsLinked t
    → IsChronological bound t
    → IsChronological bound (evict_stale_sessions t now)
unfolding evict_stale_sessions
evict_stale_sessions-IsChronological {t} now bound v c =
    let (rising, past) =
      evict_from_back-Rising now bound t.flow_table (reverse t.lru_list) (reverse-Linked v.linked)
        (Falling-reverse (last_seen t.flow_table) t.lru_list c.falling)
        (All-reverse (λ (e : ℕ × FiveTuple). last_seen t.flow_table e.1 ≤ bound) t.lru_list
          c.past) in
    record { past = All-reverse _ _ past; falling = Rising-reverse _ _ rising }

-- What happens to a tracker: a packet of a flow, or a collection, each at a time.
pub data Event : Type 0 where
  packet : FiveTuple → (tcp_flags size now : ℕ) → Event
  collection : (now : ℕ) → Event

abbrev pub time_of : Event → ℕ
time_of (packet k tcp_flags size now) = now
time_of (collection now) = now

unfoldable pub happen : ConnectionTracker → Event → ConnectionTracker
happen t (packet k tcp_flags size now) = (process_tcp_packet t k tcp_flags size now).1
happen t (collection now) = evict_stale_sessions t now

unfoldable pub run : ConnectionTracker → List Event → ConnectionTracker
run t [] = t
run t (e ∷ events) = run (happen t e) events

-- The clock does not run back, and ends at `now`.
abbrev pub Forward : ℕ → List Event → ℕ → Type 0
Forward before [] now = before ≤ now
Forward before (e ∷ events) now = (before ≤ time_of e) × Forward (time_of e) events now

run-IsChronological :
    (events : List Event) (t : ConnectionTracker) (before now : ℕ)
    → Forward before events now
    → IsLinked t
    → IsChronological before t
    → IsLinked (run t events) × IsChronological now (run t events)
unfolding run happen
run-IsChronological [] t before now forward v c = (v, later_now before now forward c)
run-IsChronological (packet k tcp_flags size at ∷ events) t before now forward v c =
    run-IsChronological events (process_tcp_packet t k tcp_flags size at).1 at now forward.1
      (process_tcp_packet-IsLinked k tcp_flags size at v)
      (process_tcp_packet-IsChronological k tcp_flags size before at forward.0 v c)
run-IsChronological (collection at ∷ events) t before now forward v c =
    run-IsChronological events (evict_stale_sessions t at) at now forward.1
      (evict_stale_sessions_lem at v).linked
      (evict_stale_sessions-IsChronological at at v (later_now before at forward.0 c))

-- A flow that is not evicted has been idle for five minutes at most.
should_evict_le : (state : TcpState) (n : ℕ) → should_evict state n ≡ false → n ≤ 300
unfolding should_evict
should_evict_le state n h =
    elim state as (λ s. should_evict s n ≡ false → n ≤ 300) [
      | unknown ↦ λ e. ground (arith, e)
      | syn_sent ↦ λ e. ground (arith, e)
      | syn_rcvd ↦ λ e. ground (arith, e)
      | established ↦ λ e. ground (arith, e)
      | fin_wait ↦ λ e. ground (arith, e)
      | closed ↦ λ e. ground (arith, e)
    ]
      h

-- If the flow at the back is fresh, all are.
idle_seconds-Rising :
    (now : ℕ) (table : FlowTable) (l : LruList)
    → Rising (last_seen table) l
    → OldestIsLive now table l
    → (i : ℕ) (k : FiveTuple) (f : TrackedFlow) → find_node i l ≡ some k
    → find_flow k table ≡ some f
    → idle_seconds now f.conn ≤ 300
idle_seconds-Rising now table [] rising live i k f at found = cc
idle_seconds-Rising now table ((id, oldest) ∷ l) rising (g, there, kept) i k f at found =
    let all : All (λ (e : ℕ × FiveTuple). last_seen table oldest ≤ last_seen table e.1)
        ((id, oldest) ∷ l) =
      (omega arith, rising.0) in
    let order =
      lookup-Entries ◌==◌ (λ (j : FiveTuple). last_seen table oldest ≤ last_seen table j) i k
        ((id, oldest) ∷ l) all at in
    omega (
      arith,
      should_evict_le g.conn.state (idle_seconds now g.conn) kept,
      order,
      ap seen there,
      ap seen found,
    )

-- Whatever packets of whatever flows a new tracker has seen, with collections in between at any
-- times, as long as the clock has not run back: behind one more collection no flow is left that has
-- been idle for more than 300 seconds, in whatever state it is.
-- The time is in whole seconds, rounded down, as the code counts it.
pub idle_seconds_le :
    (events : List Event) (now : ℕ) (k : FiveTuple) (f : TrackedFlow)
    → Forward 0 events now
    → find_flow k (evict_stale_sessions (run init events) now).flow_table ≡ some f
    → idle_seconds now f.conn ≤ 300
idle_seconds_le events now k f forward found =
    let (v, c) =
      run-IsChronological events init 0 now forward init-IsLinked
        (record { past = tt; falling = tt }) in
    let evicted = evict_stale_sessions_lem now v in
    let u = evict_stale_sessions (run init events) now in
    let c' = evict_stale_sessions-IsChronological now now v c in
    let back = reverse-Linked evicted.linked.linked in
    idle_seconds-Rising now u.flow_table (reverse u.lru_list)
      (Falling-reverse (last_seen u.flow_table) u.lru_list c'.falling) evicted.stopped f.lru_it k f
      (back.to_node k f found) found
