-- ===== src/ConnectionTracker/Linked.antt =====
-- The flow table and the LRU list hold the same flows: each flow knows its node, and each node's
-- tuple its flow.
use nethex.Base.{
  ℕ, suc, ◌≤◌, ◌≡◌, refl, sym, ap, ◌∙◌, true, false, not, ◌&&◌, [], ◌∷◌, Option, none, some, arith,
  if◌then◌else◌, Bool-cases, Option-cases, inl, inr, ◌⊎◌, ◌==◌, ==_iff, length,
}
use nethex.Base.Table.{
  lookup, replace, erase, Distinct, lookup-replace, lookup-erase, erase-Distinct, replace-Distinct,
  length-replace, length-erase,
}
use nethex.FiveTuple.{FiveTuple, same_tuple}
use nethex.FiveTuple.Symmetry.{same_tuple_iff}
use nethex.Connection.{Connection}
use nethex.ConnectionTracker.{
  ConnectionTracker, TrackedFlow, FlowTable, LruList, flags_of, find_flow, touch, update_conn,
  opened_conn, process_tcp_packet, init,
}

abbrev pub find_node : ℕ → LruList → Option FiveTuple
find_node = lookup ◌==◌

-- The two structures, the list in either direction.
pub record Linked (table : FlowTable) (nodes : LruList) : Type 0 where
  pub distinct_flows : Distinct same_tuple table
  pub distinct_nodes : Distinct ◌==◌ nodes
  pub to_node :
      (k : FiveTuple) (f : TrackedFlow)
      → find_flow k table ≡ some f
      → find_node f.lru_it nodes ≡ some k
  pub to_flow :
      (id : ℕ) (k : FiveTuple)
      → find_node id nodes ≡ some k
      → (f : TrackedFlow) × (find_flow k table ≡ some f) × (f.lru_it ≡ id)
  pub same_size : length table ≡ length nodes

pub record IsLinked (t : ConnectionTracker) : Type 0 where
  pub linked : Linked t.flow_table t.lru_list
  pub fresh : (id : ℕ) → t.next_node ≤ id → find_node id t.lru_list ≡ none

-- A node of the list that is touched goes to the front; the others stay in their order.
pub touch_lem :
    (it : ℕ) (k : FiveTuple) (l : LruList)
    → find_node it l ≡ some k
    → touch it l ≡ (it, k) ∷ erase ◌==◌ it l
unfolding touch
touch_lem it k [] e = cc
touch_lem it k ((id, x) ∷ l) e = ground (arith, e)

find_node-touch :
    (it : ℕ) (k : FiveTuple) (l : LruList) (j : ℕ)
    → Distinct ◌==◌ l
    → find_node it l ≡ some k
    → find_node j (touch it l) ≡ find_node j l
find_node-touch it k l j d e =
    ap (find_node j) (touch_lem it k l e)
    ∙ ground (arith, lookup-erase ◌==◌ ==_iff it j l d, ap (λ x. find_node x l) {x = it} {y = j})

touch-Distinct :
    (it : ℕ) (k : FiveTuple) (l : LruList)
    → Distinct ◌==◌ l
    → find_node it l ≡ some k
    → Distinct ◌==◌ (touch it l)
touch-Distinct it k l d e =
    rw (touch_lem it k l e)
      (ground (arith, lookup-erase ◌==◌ ==_iff it it l d), erase-Distinct ◌==◌ ==_iff it l d)

pub init-IsLinked : IsLinked init
init-IsLinked = record {
  linked = record {
    distinct_flows = tt;
    distinct_nodes = tt;
    to_node = λ k f e. cc;
    to_flow = λ id k e. cc;
    same_size = refl;
  };
  fresh = λ id h. refl;
}

-- A write to the entry of a flow that leaves its iterator alone.
replace-Linked :
    {table : FlowTable} {nodes : LruList} (k : FiveTuple) (f : TrackedFlow) (conn : Connection)
    → find_flow k table ≡ some f
    → Linked table nodes
    → Linked (replace same_tuple k (record f { conn = conn }) table) nodes
replace-Linked {table} {nodes} k f conn e v = record {
  distinct_flows = replace-Distinct same_tuple same_tuple_iff k f' table v.distinct_flows;
  distinct_nodes = v.distinct_nodes;
  to_node = λ j g h. ground (arith, found j, v.to_node k f e, v.to_node j g, same_tuple_iff k j);
  to_flow = λ id j h. flow_at id j (v.to_flow id j h) (Bool-cases (same_tuple k j));
  same_size = length-replace same_tuple k f' table ∙ v.same_size;
}
  where
    f' : TrackedFlow
    f' = record f { conn = conn }

    found :
        (j : FiveTuple)
        → find_flow j (replace same_tuple k f' table)
          ≡ (if same_tuple k j then some f' else find_flow j table)
    found j = lookup-replace same_tuple same_tuple_iff k j f' f table e

    flow_at :
        (id : ℕ) (j : FiveTuple)
        → (g : TrackedFlow) × (find_flow j table ≡ some g) × (g.lru_it ≡ id)
        → (same_tuple k j ≡ true) ⊎ (same_tuple k j ≡ false)
        → (g : TrackedFlow) × (find_flow j (replace same_tuple k f' table) ≡ some g)
          × (g.lru_it ≡ id)
    flow_at id j (g, h, p) (inl same) = (
      f',
      ground (arith, found j),
      ground (arith, same_tuple_iff k j, ap (λ x. find_flow x table) {x = k} {y = j}),
    )
    flow_at id j (g, h, p) (inr other) = (g, ground (arith, found j), p)

touch-Linked :
    {table : FlowTable} {nodes : LruList} (k : FiveTuple) (f : TrackedFlow)
    → find_flow k table ≡ some f
    → Linked table nodes
    → Linked table (touch f.lru_it nodes)
touch-Linked {table} {nodes} k f e v = record {
  distinct_flows = v.distinct_flows;
  distinct_nodes = touch-Distinct f.lru_it k nodes v.distinct_nodes at;
  to_node =
      λ j g h. find_node-touch f.lru_it k nodes g.lru_it v.distinct_nodes at ∙ v.to_node j g h;
  to_flow =
      λ id j h. v.to_flow id j (sym (find_node-touch f.lru_it k nodes id v.distinct_nodes at) ∙ h);
  same_size =
      v.same_size
      ∙ length-erase ◌==◌ f.lru_it k nodes at
      ∙ sym (ap length (touch_lem f.lru_it k nodes at));
}
  where
    at : find_node f.lru_it nodes ≡ some k
    at = v.to_node k f e

-- A new flow under a node that the list does not have.
cons-Linked :
    {table : FlowTable} {nodes : LruList} (k : FiveTuple) (id : ℕ) (conn : Connection)
    → find_flow k table ≡ none
    → find_node id nodes ≡ none
    → Linked table nodes
    → Linked ((k, record { conn = conn; lru_it = id }) ∷ table) ((id, k) ∷ nodes)
cons-Linked {table} {nodes} k id conn e fresh v = record {
  distinct_flows = (e, v.distinct_flows);
  distinct_nodes = (fresh, v.distinct_nodes);
  to_node = λ j g h. ground (
    arith,
    same_tuple_iff k j,
    v.to_node j g,
    ap (λ x. find_node x nodes) {x = id} {y = g.lru_it},
  );
  to_flow = λ i j h. flow_at i j h (Bool-cases (id == i));
  same_size = ap suc v.same_size;
}
  where
    new : TrackedFlow
    new = record { conn = conn; lru_it = id }

    old_flow :
        (i : ℕ) (j : FiveTuple)
        → (g : TrackedFlow) × (find_flow j table ≡ some g) × (g.lru_it ≡ i)
        → (g : TrackedFlow) × (find_flow j ((k, new) ∷ table) ≡ some g) × (g.lru_it ≡ i)
    old_flow i j (g, p, q) =
        (g, ground (arith, same_tuple_iff k j, ap (λ x. find_flow x table) {x = k} {y = j}), q)

    flow_at :
        (i : ℕ) (j : FiveTuple)
        → find_node i ((id, k) ∷ nodes) ≡ some j
        → ((id == i) ≡ true) ⊎ ((id == i) ≡ false)
        → (g : TrackedFlow) × (find_flow j ((k, new) ∷ table) ≡ some g) × (g.lru_it ≡ i)
    flow_at i j h (inl same) = (new, ground (arith, same_tuple_iff k j), (==_iff id i).0 same)
    flow_at i j h (inr other) = old_flow i j (v.to_flow i j (ground arith))

-- A packet, of whatever flow and with whatever flags, keeps the table and the list in step: each
-- flow has one node, each node one flow, and both are equally long.
pub process_tcp_packet-IsLinked :
    {t : ConnectionTracker} (k : FiveTuple) (tcp_flags size now : ℕ)
    → IsLinked t
    → IsLinked (process_tcp_packet t k tcp_flags size now).1
unfolding process_tcp_packet
process_tcp_packet-IsLinked {t} k tcp_flags size now v =
    elim (Option-cases (find_flow k t.flow_table)) [
      | inl e ↦
          opened (Bool-cases ((flags_of tcp_flags).is_syn && not (flags_of tcp_flags).is_ack)) e
      | inr (f, e) ↦
          rw (e, process_tcp_packet)
            (record {
              linked =
                  replace-Linked k f (update_conn f.conn (flags_of tcp_flags) size now) e
                    (touch-Linked k f e v.linked);
              fresh = λ id h.
                  find_node-touch f.lru_it k t.lru_list id v.linked.distinct_nodes
                    (v.linked.to_node k f e)
                  ∙ v.fresh id h;
            })
    ]
  where
    opened :
        ((flags_of tcp_flags).is_syn && not (flags_of tcp_flags).is_ack ≡ true)
          ⊎ ((flags_of tcp_flags).is_syn && not (flags_of tcp_flags).is_ack ≡ false)
        → find_flow k t.flow_table ≡ none
        → IsLinked (process_tcp_packet t k tcp_flags size now).1
    opened (inl syn) e =
        rw (e, process_tcp_packet, syn)
          (record {
            linked =
                cons-Linked k t.next_node (opened_conn size now) e
                  (v.fresh t.next_node (omega arith)) v.linked;
            fresh = λ id h. ground (arith, v.fresh id);
          })
    opened (inr other) e = rw (e, process_tcp_packet, other) v
