-- ===== src/ConnectionTracker/Chronology.antt =====
-- The LRU list runs from the flow that was seen last to the one that was seen first, so that the
-- collector, which looks at its back alone, leaves no flow that has been idle for long.
use nethex.Base.{
  ℕ, ◌≤◌, ◌≡◌, refl, sym, ap, ◌∙◌, subst, true, false, not, ◌&&◌, [], ◌∷◌, none, some, arith,
  Bool-cases, Option-cases, inl, inr, ◌==◌, ==_iff, All, none_not_some,
}
use nethex.Base.Table.{replace, erase, lookup-erase, lookup-replace, erase-Distinct}
use nethex.FiveTuple.{FiveTuple, same_tuple}
use nethex.FiveTuple.Symmetry.{same_tuple_iff}
use nethex.ConnectionTracker.{
  ConnectionTracker, TrackedFlow, FlowTable, LruList, find_flow, flags_of, update_conn, opened_conn,
  process_tcp_packet,
}
use nethex.ConnectionTracker.Linked.{find_node, Linked, IsLinked, touch_lem}
use nethex.ConnectionTracker.Ordered.{
  last_seen, Falling, All-eq, Falling-eq, All-erase, Falling-erase, all_nodes,
}

-- The flows of the list were seen in its order, and none behind `now`.
pub record IsChronological (now : ℕ) (t : ConnectionTracker) : Type 0 where
  pub past : All (λ (e : ℕ × FiveTuple). last_seen t.flow_table e.1 ≤ now) t.lru_list
  pub falling : Falling (last_seen t.flow_table) t.lru_list

later :
    (time : FiveTuple → ℕ) (now now' : ℕ) (l : LruList)
    → now ≤ now'
    → All (λ (e : ℕ × FiveTuple). time e.1 ≤ now) l
    → All (λ (e : ℕ × FiveTuple). time e.1 ≤ now') l
later time now now' [] le h = tt
later time now now' ((i, j) ∷ l) le h = (omega (arith, h.0), later time now now' l le h.1)

pub later_now :
    {t : ConnectionTracker} (now now' : ℕ)
    → now ≤ now'
    → IsChronological now t
    → IsChronological now' t
later_now {t} now now' le c = record {
  past = later (last_seen t.flow_table) now now' t.lru_list le c.past;
  falling = c.falling;
}

-- A flow at the front that was seen now, before others that are as they were.
front :
    (time time' : FiveTuple → ℕ) (before now id : ℕ) (k : FiveTuple) (l : LruList)
    → before ≤ now
    → time' k ≡ now
    → All (λ (e : ℕ × FiveTuple). time' e.1 ≡ time e.1) l
    → All (λ (e : ℕ × FiveTuple). time e.1 ≤ before) l
    → Falling time l
    → All (λ (e : ℕ × FiveTuple). time' e.1 ≤ now) ((id, k) ∷ l) × Falling time' ((id, k) ∷ l)
front time time' before now id k l le at same past falling =
    let past' = All-eq time time' (λ (n : ℕ). n ≤ now) l same (later time before now l le past) in
    (
      (omega (arith, at), past'),
      (
        subst (λ (n : ℕ). All (λ (e : ℕ × FiveTuple). time' e.1 ≤ n) l) (sym at) past',
        Falling-eq time time' l same falling,
      ),
    )

module _ {table : FlowTable} {nodes : LruList} (v : Linked table nodes) (k : FiveTuple) where
  -- No node but its own has a flow's tuple.
  others_erased :
      (f : TrackedFlow)
      → find_flow k table ≡ some f
      → All (λ (e : ℕ × FiveTuple). same_tuple k e.1 ≡ false) (erase ◌==◌ f.lru_it nodes)
  others_erased f e =
      all_nodes (λ j. same_tuple k j ≡ false) (erase ◌==◌ f.lru_it nodes)
        (erase-Distinct ◌==◌ ==_iff f.lru_it nodes v.distinct_nodes)
        λ i j h.
          let there = lookup-erase ◌==◌ ==_iff f.lru_it i nodes v.distinct_nodes in
          elim (Bool-cases (same_tuple k j)) [
            | inl same ↦
                let here : find_node i nodes ≡ some j = ground (arith, there) in
                let (g, found, at) = v.to_flow i j here in
                let own : some f ≡ some g =
                  sym e ∙ ap (λ x. find_flow x table) ((same_tuple_iff k j).0 same) ∙ found in
                absurd (ground (arith, there, own, at))
            | inr other ↦ other
          ]

  -- A flow that the table does not have has no node.
  none_absent :
      find_flow k table ≡ none → All (λ (e : ℕ × FiveTuple). same_tuple k e.1 ≡ false) nodes
  none_absent e =
      all_nodes (λ j. same_tuple k j ≡ false) nodes v.distinct_nodes
        λ i j h. elim (Bool-cases (same_tuple k j)) [
          | inl same ↦
              let (g, found, at) = v.to_flow i j h in
              absurd (
                none_not_some e (ap (λ x. find_flow x table) ((same_tuple_iff k j).0 same) ∙ found))
          | inr other ↦ other
        ]

-- A table in which one flow was seen again, or for the first time, knows the others as before.
pub All-unchanged :
    (time time' : FiveTuple → ℕ) (k : FiveTuple) (l : LruList)
    → ((j : FiveTuple) → same_tuple k j ≡ false → time' j ≡ time j)
    → All (λ (e : ℕ × FiveTuple). same_tuple k e.1 ≡ false) l
    → All (λ (e : ℕ × FiveTuple). time' e.1 ≡ time e.1) l
All-unchanged time time' k [] same h = tt
All-unchanged time time' k ((i, j) ∷ l) same h = (same j h.0, All-unchanged time time' k l same h.1)

-- A packet keeps the list in order, if the clock has not run back.
pub process_tcp_packet-IsChronological :
    {t : ConnectionTracker} (k : FiveTuple) (tcp_flags size before now : ℕ)
    → before ≤ now
    → IsLinked t
    → IsChronological before t
    → IsChronological now (process_tcp_packet t k tcp_flags size now).1
unfolding process_tcp_packet update_conn opened_conn
process_tcp_packet-IsChronological {t} k tcp_flags size before now le v c =
    elim (Option-cases (find_flow k t.flow_table)) [
      | inl e ↦ elim (Bool-cases ((flags_of tcp_flags).is_syn && not (flags_of tcp_flags).is_ack)) [
        | inl syn ↦
            let new : TrackedFlow = record { conn = opened_conn size now; lru_it = t.next_node } in
            let table : FlowTable = (k, new) ∷ t.flow_table in
            let (past, falling) =
              front (last_seen t.flow_table) (last_seen table) before now t.next_node k t.lru_list
                le (rw self refl)
                (All-unchanged (last_seen t.flow_table) (last_seen table) k t.lru_list
                  (λ j other. rw other refl) (none_absent v.linked k e))
                c.past c.falling in
            rw (e, process_tcp_packet, syn) (record { past = past; falling = falling })
        | inr other ↦
            rw (e, process_tcp_packet, other)
              (record {
                past = later (last_seen t.flow_table) before now t.lru_list le c.past;
                falling = c.falling;
              })
      ]
      | inr (f, e) ↦
          let f' : TrackedFlow = record f {
            conn = update_conn f.conn (flags_of tcp_flags) size now;
          } in
          let table = replace same_tuple k f' t.flow_table in
          let found =
            λ (j : FiveTuple). lookup-replace same_tuple same_tuple_iff k j f' f t.flow_table e in
          let rest = erase ◌==◌ f.lru_it t.lru_list in
          let (past, falling) =
            front (last_seen t.flow_table) (last_seen table) before now f.lru_it k rest le
              (rw (found k, self) refl)
              (All-unchanged (last_seen t.flow_table) (last_seen table) k rest
                (λ j other. rw (found j, other) refl) (others_erased v.linked k f e))
              (All-erase (λ (e : ℕ × FiveTuple). last_seen t.flow_table e.1 ≤ before) f.lru_it
                t.lru_list c.past)
              (Falling-erase (last_seen t.flow_table) f.lru_it t.lru_list c.falling) in
          let moved = touch_lem f.lru_it k t.lru_list (v.linked.to_node k f e) in
          rw (e, process_tcp_packet, moved) (record { past = past; falling = falling })
    ]
  where
    self : same_tuple k k ≡ true
    self = (same_tuple_iff k k).1 refl
