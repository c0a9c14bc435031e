-- ===== src/LoadBalancer/Routing.antt =====
-- Where packets go: to one worker for each flow, and to no queue outside the balancer's.
use nethex.Base.{
  ℕ, ◌+◌, ◌^◌, ◌≤◌, true, sym, subst, ◌++◌, append_assoc, length-append, zero, suc, ◌%◌, ◌<◌, ◌≡◌,
  ◌≢◌, ◌↔◌, refl, ap, ap₂, ◌∙◌, Bool, List, [], ◌∷◌, some, arith, length, replicate, get_elem?, set,
  length-set, accept, Option-cases, inl, inr, if◌then◌else◌, ◌==◌,
}
use native.Mathlib.Nat.{mod-lt}
use nethex.Wire.{ByteOrder, ParsedPacket}
use nethex.FiveTuple.{hash_fn}
use nethex.FiveTuple.Symmetry.{create_bidirectional_tuple_symm}
use nethex.LockFreeQueue
use nethex.LockFreeQueue.{Queue}
use nethex.LockFreeQueue.Window.{Holds}
use nethex.LockFreeQueue.Sequential.{push_lem}
use nethex.LoadBalancer.{LoadBalancer, no_packet, make_queues, init, dispatch, get_queue, flow_hash}

pub record IsValid (lb : LoadBalancer) : Type 0 where
  pub workers : 0 < lb.num_workers
  pub one_each : length lb.worker_queues ≡ lb.num_workers

length-make_queues :
    (n c : ℕ) (qs : List (Queue ParsedPacket)) → make_queues n c ≡ some qs → length qs ≡ n
unfolding make_queues
length-make_queues zero c qs e = ground arith
length-make_queues (suc n) c qs e = elim (Option-cases (LockFreeQueue.init no_packet c)) [
  | inl none_made ↦ ground (arith, none_made)
  | inr (q, made) ↦ elim (Option-cases (make_queues n c)) [
    | inl stopped ↦ ground (arith, made, stopped)
    | inr (rest, more) ↦ ground (arith, made, more, length-make_queues n c rest more)
  ]
]

-- A balancer that the constructor returns has at least one worker, and a queue for each.
pub init-IsValid : (n c : ℕ) (lb : LoadBalancer) → init n c ≡ some lb → IsValid lb
unfolding init
init-IsValid n c lb e = elim (Option-cases (make_queues n c)) [
  | inl stopped ↦ ground (arith, stopped)
  | inr (qs, made) ↦ ground (arith, made, length-make_queues n c qs made)
]

make_queues-some :
    (n c : ℕ) (q : Queue ParsedPacket)
    → LockFreeQueue.init no_packet c ≡ some q
    → make_queues n c ≡ some (replicate n q)
unfolding make_queues
make_queues-some zero c q e = refl
make_queues-some (suc n) c q e = rw (make_queues, e, make_queues-some n c q e) refl

-- The constructor does not throw, if a queue's does not and there are workers.
pub init-some :
    (n c : ℕ) (q : Queue ParsedPacket)
    → 0 < n
    → LockFreeQueue.init no_packet c ≡ some q
    → init n c ≡ some (record { num_workers = n; worker_queues = replicate n q })
unfolding init
init-some n c q pos e = rw (init, make_queues-some n c q e) (ground arith)

get_elem?-in :
    {A : Type 0} (xs : List A) (i : ℕ) → i < length xs → (a : A) × (get_elem? xs i ≡ some a)
get_elem?-in [] i h = absurd (omega arith)
get_elem?-in (x ∷ xs) zero h = (x, refl)
get_elem?-in (x ∷ xs) (suc i) h = get_elem?-in xs i (omega arith)

get_elem?-set :
    {A : Type 0} (xs : List A) (i j : ℕ) (v : A)
    → i < length xs
    → get_elem? (set xs i v) j ≡ (if i == j then some v else get_elem? xs j)
get_elem?-set [] i j v h = absurd (omega arith)
get_elem?-set (x ∷ xs) zero zero v h = refl
get_elem?-set (x ∷ xs) zero (suc j) v h = ground arith
get_elem?-set (x ∷ xs) (suc i) zero v h = ground arith
get_elem?-set (x ∷ xs) (suc i) (suc j) v h = ground (arith, get_elem?-set xs i j v (omega arith))

-- `get_queue` answers exactly for the workers.
pub get_queue_lem :
    {lb : LoadBalancer} (w : ℕ)
    → IsValid lb
    → ((q : Queue ParsedPacket) × (get_queue lb w ≡ some q)) ↔ (w < lb.num_workers)
unfolding get_queue
get_queue_lem {lb} w v = (λ (q, e). ground (arith, e), λ h. found h)
  where
    found : w < lb.num_workers → (q : Queue ParsedPacket) × (get_queue lb w ≡ some q)
    found h =
        let (q, e) = get_elem?-in lb.worker_queues w (omega (arith, v.one_each)) in
        (q, ground (arith, e))

-- What `dispatch` has done with a packet of hash `h`: the queue of one worker has been pushed, and
-- no other has changed.
pub record Dispatched (lb : LoadBalancer) (p : ParsedPacket) (h : ℕ) (pushed : Bool)
    (lb' : LoadBalancer) : Type 0 where
  pub target : Queue ParsedPacket
  pub before : get_queue lb (h % lb.num_workers) ≡ some target
  pub result : pushed ≡ (LockFreeQueue.push no_packet target p).0
  pub after : get_queue lb' (h % lb.num_workers) ≡ some (LockFreeQueue.push no_packet target p).1
  pub others : (w : ℕ) → w ≢ h % lb.num_workers → get_queue lb' w ≡ get_queue lb w
  pub valid : IsValid lb'
  pub same_workers : lb'.num_workers ≡ lb.num_workers

-- `dispatch` never leaves the vector of queues, whatever the hash.
pub dispatch_lem :
    {lb : LoadBalancer} (p : ParsedPacket) (h : ℕ)
    → IsValid lb
    → (pushed : Bool) × (lb' : LoadBalancer) × (dispatch lb p h ≡ accept (pushed, lb'))
      × Dispatched lb p h pushed lb'
unfolding dispatch get_queue
dispatch_lem {lb} p h v =
    let (q, e) = get_elem?-in lb.worker_queues w inside in
    let r = LockFreeQueue.push no_packet q p in
    (
      r.0,
      record lb { worker_queues = set lb.worker_queues w r.1 },
      rw (e, dispatch),
      record {
        target = q;
        before = ground (arith, e, small);
        result = refl;
        after = ground (arith, e, small, get_elem?-set lb.worker_queues w w r.1 inside);
        others = λ x ne. ground (arith, get_elem?-set lb.worker_queues w x r.1 inside, ne);
        valid = record {
          workers = v.workers;
          one_each = length-set lb.worker_queues w r.1 ∙ v.one_each;
        };
        same_workers = refl;
      },
    )
  where
    w : ℕ
    w = h % lb.num_workers

    small : w < lb.num_workers
    small = mod-lt h v.workers

    inside : w < length lb.worker_queues
    inside = omega (arith, small, v.one_each)

-- A packet of the other direction of the same flow.
pub record IsReply (p r : ParsedPacket) : Type 0 where
  pub src_ip : r.src_ip ≡ p.dest_ip
  pub dest_ip : r.dest_ip ≡ p.src_ip
  pub src_port : r.src_port ≡ p.dest_port
  pub dest_port : r.dest_port ≡ p.src_port
  pub protocol : r.protocol ≡ p.protocol

flow_hash-IsReply :
    (o : ByteOrder) (xxh64 : List ℕ → ℕ → ℕ) {p r : ParsedPacket}
    → IsReply p r
    → flow_hash o xxh64 r ≡ flow_hash o xxh64 p
unfolding flow_hash
flow_hash-IsReply o xxh64 {p} {r} v =
    rw (v.src_ip, v.dest_ip, v.src_port, v.dest_port, v.protocol)
      (ap (hash_fn o xxh64)
        (create_bidirectional_tuple_symm p.dest_ip p.src_ip p.dest_port p.src_port p.protocol))

-- The worker that a packet's hash names.
abbrev pub worker_of : ByteOrder → (List ℕ → ℕ → ℕ) → LoadBalancer → ParsedPacket → ℕ
worker_of o xxh64 lb p = flow_hash o xxh64 p % lb.num_workers

-- A packet joins the queue of its worker, which has room.
dispatch-Joins :
    (o : ByteOrder) (xxh64 : List ℕ → ℕ → ℕ) {lb : LoadBalancer} (p : ParsedPacket) {k : ℕ}
    {q : Queue ParsedPacket} {sent received : List ParsedPacket}
    → IsValid lb
    → get_queue lb (worker_of o xxh64 lb p) ≡ some q
    → Holds no_packet k q sent received
    → length sent < length received + 2 ^ k
    → (lb' : LoadBalancer) × (q' : Queue ParsedPacket) × (dispatch lb p (flow_hash o xxh64 p)
        ≡ accept (true, lb'))
      × (get_queue lb' (worker_of o xxh64 lb p) ≡ some q')
      × Holds no_packet k q' (sent ++ (p ∷ [])) received
      × ((x : ℕ) → x ≢ worker_of o xxh64 lb p → get_queue lb' x ≡ get_queue lb x)
      × IsValid lb'
      × (lb'.num_workers ≡ lb.num_workers)
dispatch-Joins o xxh64 {lb} p {k} {q} {sent} {received} v here holds room =
    let (pushed, lb', runs, d) = dispatch_lem p (flow_hash o xxh64 p) v in
    let same : d.target ≡ q = let found = d.before in cc in
    let (joins, holds') = (push_lem holds p).1 (λ full. absurd (omega (arith, full, room))) in
    let yes : pushed ≡ true =
      d.result ∙ ap (λ x. (LockFreeQueue.push no_packet x p).0) same ∙ joins in
    (
      lb',
      (LockFreeQueue.push no_packet q p).1,
      runs ∙ ap (λ b. accept (b, lb')) yes,
      d.after ∙ ap (λ x. some (LockFreeQueue.push no_packet x p).1) same,
      holds',
      d.others,
      d.valid,
      d.same_workers,
    )

-- What two packets have done to the balancer: both wait in the queue of worker `w`, in their order
-- and behind all that was sent before, and no other queue has changed.
pub record BothOn (k w : ℕ) (sent received : List ParsedPacket) (lb lb' : LoadBalancer)
    (p r : ParsedPacket) : Type 0 where
  pub queue : Queue ParsedPacket
  pub after : get_queue lb' w ≡ some queue
  pub waiting : Holds no_packet k queue (sent ++ (p ∷ r ∷ [])) received
  pub others : (x : ℕ) → x ≢ w → get_queue lb' x ≡ get_queue lb x

-- Whatever XXH64 computes: if the queue of the worker that a packet's flow hash names has two free
-- places, then that packet and a reply to it, dispatched one after the other by their flow hashes,
-- are both accepted. They wait in that queue in this order, behind all that was sent before, and no
-- other queue changes.
pub dispatch_both_directions :
    (o : ByteOrder) (xxh64 : List ℕ → ℕ → ℕ) {lb : LoadBalancer} {p r : ParsedPacket} {k : ℕ}
    {q : Queue ParsedPacket} {sent received : List ParsedPacket}
    → IsValid lb
    → IsReply p r
    → get_queue lb (worker_of o xxh64 lb p) ≡ some q
    → Holds no_packet k q sent received
    → length sent + 2 ≤ length received + 2 ^ k
    → (lb₁ lb₂ : LoadBalancer) × (dispatch lb p (flow_hash o xxh64 p) ≡ accept (true, lb₁))
      × (dispatch lb₁ r (flow_hash o xxh64 r) ≡ accept (true, lb₂))
      × BothOn k (worker_of o xxh64 lb p) sent received lb lb₂ p r
dispatch_both_directions o xxh64 {lb} {p} {r} {k} {q} {sent} {received} v reply here holds room =
    let (lb₁, q₁, e₁, at₁, holds₁, others₁, v₁, n₁) =
      dispatch-Joins o xxh64 p v here holds (omega (arith, room)) in
    let same : worker_of o xxh64 lb₁ r ≡ worker_of o xxh64 lb p =
      ap₂ ◌%◌ (flow_hash-IsReply o xxh64 reply) n₁ in
    let (lb₂, q₂, e₂, at₂, holds₂, others₂, v₂, n₂) =
      dispatch-Joins o xxh64 r v₁ (ap (get_queue lb₁) same ∙ at₁) holds₁
        (omega (arith, room, length-append sent (p ∷ []))) in
    (
      lb₁,
      lb₂,
      e₁,
      e₂,
      record {
        queue = q₂;
        after = ap (get_queue lb₂) (sym same) ∙ at₂;
        waiting =
            subst (λ (l : List ParsedPacket). Holds no_packet k q₂ l received)
              (append_assoc sent (p ∷ []) (r ∷ [])) holds₂;
        others = λ x ne. others₂ x (λ e. ne (e ∙ same)) ∙ others₁ x ne;
      },
    )
