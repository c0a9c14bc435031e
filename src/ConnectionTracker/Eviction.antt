-- ===== src/ConnectionTracker/Eviction.antt =====
-- The garbage collector of the flow table.
use nethex.Base.{
  ℕ, ◌≤◌, ◌≡◌, refl, sym, ap, subst, ◌∙◌, true, false, [], ◌∷◌, ◌++◌, Option, none, some, arith,
  if◌then◌else◌, Bool-cases, Option-cases, inl, inr, ◌⊎◌, ◌==◌, ==_iff, length, length-append,
}
use mathlib.Core.List.{reverse, reverse-cons, reverse-reverse}
use nethex.Base.Table.{erase, Distinct, lookup-erase, erase-Distinct, length-erase}
use nethex.FiveTuple.{FiveTuple, same_tuple}
use nethex.FiveTuple.Symmetry.{same_tuple_iff}
use nethex.ConnectionTracker.{
  ConnectionTracker, TrackedFlow, FlowTable, LruList, find_flow, idle_seconds, should_evict,
  evict_from_back, evict_stale_sessions,
}
use nethex.ConnectionTracker.Linked.{find_node, Linked, IsLinked}

-- Reading a list from the back.
find_node-snoc :
    (l : LruList) (id : ℕ) (k : FiveTuple) (j : ℕ)
    → find_node id l ≡ none
    → find_node j (l ++ ((id, k) ∷ [])) ≡ (if id == j then some k else find_node j l)
find_node-snoc [] id k j e = refl
find_node-snoc ((i, x) ∷ l) id k j e = ground (arith, find_node-snoc l id k j)

Distinct-snoc :
    (l : LruList) (id : ℕ) (k : FiveTuple)
    → find_node id l ≡ none
    → Distinct ◌==◌ l
    → Distinct ◌==◌ (l ++ ((id, k) ∷ []))
Distinct-snoc [] id k e d = (refl, tt)
Distinct-snoc ((i, x) ∷ l) id k e d =
    (ground (arith, find_node-snoc l id k i, d.0), Distinct-snoc l id k (ground arith) d.1)

find_node-reverse :
    (l : LruList)
    → Distinct ◌==◌ l
    → ((j : ℕ) → find_node j (reverse l) ≡ find_node j l) × Distinct ◌==◌ (reverse l)
find_node-reverse [] d = (λ j. refl, tt)
find_node-reverse ((id, k) ∷ l) d =
    let (same, dist) = find_node-reverse l d.1 in
    let absent : find_node id (reverse l) ≡ none = same id ∙ d.0 in
    (
      λ j.
          ap (find_node j) (reverse-cons (id, k) l)
          ∙ find_node-snoc (reverse l) id k j absent
          ∙ ap (λ (o : Option FiveTuple). if id == j then some k else o) (same j),
      rw (reverse-cons (id, k) l) (Distinct-snoc (reverse l) id k absent dist),
    )

length-reverse : (l : LruList) → length (reverse l) ≡ length l
length-reverse [] = refl
length-reverse (x ∷ l) =
    ap length (reverse-cons x l)
    ∙ omega (arith, length-append (reverse l) (x ∷ []), length-reverse l)

pub reverse-Linked :
    {table : FlowTable} {nodes : LruList} → Linked table nodes → Linked table (reverse nodes)
reverse-Linked {table} {nodes} v =
    let (same, dist) = find_node-reverse nodes v.distinct_nodes in
    record {
      distinct_flows = v.distinct_flows;
      distinct_nodes = dist;
      to_node = λ k f e. same f.lru_it ∙ v.to_node k f e;
      to_flow = λ id k e. v.to_flow id k (sym (same id) ∙ e);
      same_size = v.same_size ∙ sym (length-reverse nodes);
    }

-- The flow at the head of the list leaves both structures.
module _ {table : FlowTable} (id : ℕ) (k : FiveTuple) {nodes : LruList}
    (v : Linked table ((id, k) ∷ nodes)) where
  pub owner : (f : TrackedFlow) × (find_flow k table ≡ some f) × (f.lru_it ≡ id)
  owner = v.to_flow id k (ground (arith, ==_iff id id))

  pub erased :
      (j : FiveTuple)
      → find_flow j (erase same_tuple k table)
        ≡ (if same_tuple k j then none else find_flow j table)
  erased j = lookup-erase same_tuple same_tuple_iff k j table v.distinct_flows

  flow_left :
      (i : ℕ) (j : FiveTuple)
      → find_node i nodes ≡ some j
      → (f : TrackedFlow) × (find_flow j table ≡ some f) × (f.lru_it ≡ i)
      → (f : TrackedFlow) × (find_flow j (erase same_tuple k table) ≡ some f) × (f.lru_it ≡ i)
  flow_left i j h (g, e, p) = (
    g,
    ground (
      arith,
      erased j,
      owner,
      same_tuple_iff k j,
      v.distinct_nodes.0,
      ap (λ x. find_flow x table) {x = k} {y = j},
      ap (λ x. find_node x nodes) {x = id} {y = i},
    ),
    p,
  )

  pub drop-Linked : Linked (erase same_tuple k table) nodes
  drop-Linked = record {
    distinct_flows = erase-Distinct same_tuple same_tuple_iff k table v.distinct_flows;
    distinct_nodes = v.distinct_nodes.1;
    to_node = λ j g h. ground (arith, erased j, v.to_node j g, same_tuple_iff k j);
    to_flow = λ i j h. flow_left i j h (
        v.to_flow i j
          (ground (arith, v.distinct_nodes.0, ap (λ x. find_node x nodes) {x = id} {y = i})));
    same_size = omega (arith, length-erase same_tuple k (owner.0) table (owner.1), v.same_size);
  }

-- What a run of the collector at time `now` leaves of a table and of its list from the back.
-- The flow that the collector would look at next is not stale.
abbrev pub OldestIsLive : ℕ → FlowTable → LruList → Type 0
OldestIsLive now table [] = Unit
OldestIsLive now table ((id, k) ∷ newer) =
    (f : TrackedFlow) × (find_flow k table ≡ some f)
    × (should_evict f.conn.state (idle_seconds now f.conn) ≡ false)

record Collected (now : ℕ) (table : FlowTable) (table' : FlowTable) (left : LruList) : Type 0 where
  linked : Linked table' left
  stopped : OldestIsLive now table' left
  -- A flow is kept as it was, unless it was stale.
  spared :
      (k : FiveTuple) (f : TrackedFlow)
      → find_flow k table ≡ some f
      → (find_flow k table' ≡ some f) ⊎ (should_evict f.conn.state (idle_seconds now f.conn) ≡ true)
  old : (k : FiveTuple) (f : TrackedFlow) → find_flow k table' ≡ some f → find_flow k table ≡ some f

-- The flow that was evicted was stale, and the rest of the loop spares the others.
spared_below :
    {now : ℕ} {table table' : FlowTable} {nodes left : LruList} (id : ℕ) (k : FiveTuple)
    → Linked table ((id, k) ∷ nodes)
    → (f : TrackedFlow) → find_flow k table ≡ some f
    → should_evict f.conn.state (idle_seconds now f.conn) ≡ true
    → Collected now (erase same_tuple k table) table' left
    → (j : FiveTuple) (g : TrackedFlow) → find_flow j table ≡ some g
    → (same_tuple k j ≡ true) ⊎ (same_tuple k j ≡ false)
    → (find_flow j table' ≡ some g) ⊎ (should_evict g.conn.state (idle_seconds now g.conn) ≡ true)
spared_below {now} {table} id k v f e stale c j g h (inl same) = inr (
    subst (λ (x : TrackedFlow). should_evict x.conn.state (idle_seconds now x.conn) ≡ true) f-eq-g
      stale)
  where
    f-eq-g : f ≡ g
    f-eq-g = ground (arith, same_tuple_iff k j, ap (λ x. find_flow x table) {x = k} {y = j})
spared_below id k v f e stale c j g h (inr other) = c.spared j g (ground (arith, erased id k v j))

evict_from_back-Collected :
    (now : ℕ) (table : FlowTable) (nodes : LruList)
    → Linked table nodes
    → let (table', left) = evict_from_back now table nodes in Collected now table table' left
unfolding evict_from_back
evict_from_back-Collected now table [] v = record {
  linked = v;
  stopped = tt;
  spared = λ k f e. inl e;
  old = λ k f e. e;
}
evict_from_back-Collected now table ((id, k) ∷ newer) v =
    let (f, e, p) = owner id k v in
    elim (Bool-cases (should_evict f.conn.state (idle_seconds now f.conn))) [
      | inl stale ↦
          let c =
            evict_from_back-Collected now (erase same_tuple k table) newer (drop-Linked id k v) in
          rw (e, stale, evict_from_back)
            (record {
              linked = c.linked;
              stopped = c.stopped;
              spared = λ j g h. spared_below id k v f e stale c j g h (Bool-cases (same_tuple k j));
              old = λ j g h. ground (arith, c.old j g h, erased id k v j);
            })
      | inr live ↦
          rw (e, live, evict_from_back)
            (record {
              linked = v;
              stopped = (f, e, live);
              spared = λ j g h. inl h;
              old = λ j g h. h;
            })
    ]

-- What a call of the collector at time `now` has done.
pub record Evicted (now : ℕ) (t u : ConnectionTracker) : Type 0 where
  pub linked : IsLinked u
  -- It stops at a flow that is not stale, or when none is left.
  pub stopped : OldestIsLive now u.flow_table (reverse u.lru_list)
  -- A flow that goes was stale.
  pub spared :
      (k : FiveTuple) (f : TrackedFlow)
      → find_flow k t.flow_table ≡ some f
      → (find_flow k u.flow_table ≡ some f)
        ⊎ (should_evict f.conn.state (idle_seconds now f.conn) ≡ true)
  -- A flow that stays is as it was.
  pub old :
      (k : FiveTuple) (f : TrackedFlow)
      → find_flow k u.flow_table ≡ some f
      → find_flow k t.flow_table ≡ some f

-- `evict_stale_sessions` evicts stale flows only, leaves every other as it was, keeps the table and
-- the list in step, and goes on until the least recently used flow is not stale.
pub evict_stale_sessions_lem :
    {t : ConnectionTracker} (now : ℕ) → IsLinked t → Evicted now t (evict_stale_sessions t now)
unfolding evict_stale_sessions
evict_stale_sessions_lem {t} now v = record {
  linked = record {
    linked = reverse-Linked c.linked;
    fresh = λ id h. fresh_left id h (Option-cases (find_node id (reverse left)));
  };
  stopped = rw (reverse-reverse left) c.stopped;
  spared = c.spared;
  old = c.old;
}
  where
    left : LruList
    left = (evict_from_back now t.flow_table (reverse t.lru_list)).1

    c : Collected now t.flow_table (evict_from_back now t.flow_table (reverse t.lru_list)).0 left
    c = evict_from_back-Collected now t.flow_table (reverse t.lru_list) (reverse-Linked v.linked)

    fresh_left :
        (id : ℕ)
        → t.next_node ≤ id
        → (find_node id (reverse left) ≡ none)
          ⊎ ((k : FiveTuple) × (find_node id (reverse left) ≡ some k))
        → find_node id (reverse left) ≡ none
    fresh_left id h (inl e) = e
    fresh_left id h (inr (k, e)) =
        let (f, found, at) = (reverse-Linked c.linked).to_flow id k e in
        let back : find_node f.lru_it t.lru_list ≡ some k =
          v.linked.to_node k f (c.old k f found) in
        absurd (ground (arith, back, at, v.fresh id h))
