-- ===== src/Startup/Soundness.antt =====
-- What the program starts with.
use nethex.Base.{
  ℕ, false, subst, ge→ltb, zero, suc, ◌+◌, ◌-◌, ◌^◌, ◌≤◌, ◌<◌, ◌≡◌, ◌≢◌, refl, sym, ap, List, [],
  Option, some, ltb, ◌==◌, if◌then◌else◌, arith, length, All, replicate, length-replicate, Yields,
}
use nethex.Wire.{ParsedPacket}
use nethex.Wire.Order.{IsByte}
use nethex.LockFreeQueue
use nethex.LockFreeQueue.{Queue}
use nethex.LockFreeQueue.Capacity.{init_iff}
use nethex.LoadBalancer.{no_packet, get_queue}
use nethex.LoadBalancer.Routing
use nethex.LoadBalancer.Routing.{init-some, get_queue_lem}
use nethex.MemoryPool
use nethex.MemoryPool.Ledger.{IsBalanced, opened-IsBalanced, init-buffers}
use nethex.DpiEngine.Detection.{engine-IsMachine}
use nethex.RuleManager.Signatures.{IsFile}
use nethex.Worker.{Worker}
use nethex.Worker.Envelopes.{IsBuffer}
use nethex.Worker.Handling.{IsValid}
use nethex.Ingestion.{Shared, copy_limit}
use nethex.Ingestion.Safety.{IsSound}
use nethex.Startup.{
  Spawned, Program, num_workers, queue_capacity, pool_slots, payload_size, spawn, start,
  worker_start,
}

replicate-zeros : (n : ℕ) → All IsByte (replicate n 0)
replicate-zeros zero = tt
replicate-zeros (suc n) = (omega arith, replicate-zeros n)

replicate-All : {A : Type 0} (P : A → Type 0) (n : ℕ) {a : A} → P a → All P (replicate n a)
replicate-All P zero p = tt
replicate-All P (suc n) p = (p, replicate-All P n p)

blank-IsBuffer : (n : ℕ) → IsBuffer n (replicate n 0)
blank-IsBuffer n = (omega (arith, length-replicate {A = ℕ} n 0), replicate-zeros n)

-- The threads have the numbers and the cores from `i` up.
spawn-All :
    (P : Spawned → Type 0) (i left : ℕ)
    → ((j : ℕ) → i ≤ j → j < i + left → P (record { worker_id = j; core_id = j }))
    → All P (spawn i left)
unfolding spawn
spawn-All P i zero h = tt
spawn-All P i (suc left) h = (
  h i (omega arith) (omega arith),
  spawn-All P (i + 1) left λ j le lt. h j (omega arith) (omega arith),
)

num_workers-pos : (c : ℕ) → 0 < num_workers c
unfolding num_workers
num_workers-pos c = ground arith

-- The parts of a program that are shared.
abbrev pub shared_of : Program → Shared
shared_of g = record { load_balancer = g.load_balancer; mem_pool = g.mem_pool }

-- What holds of a worker's thread: it runs on a core of its own, and it comes up with a queue and a
-- valid state.
pub record IsReady (rules : Option (List ℕ)) (num_cores : ℕ) (g : Program) (t : Spawned)
    : Type 0 where
  pub core : t.core_id < num_workers num_cores
  pub apart : 1 < num_cores → t.core_id ≢ g.core
  pub ready :
      Yields
        (λ (r : Queue ParsedPacket × Worker).
          (get_queue g.load_balancer t.worker_id ≡ some r.0)
          × IsValid rules pool_slots payload_size [] r.1)
        (worker_start rules g t)

length-spawn : (i left : ℕ) → length (spawn i left) ≡ left
unfolding spawn
length-spawn i zero = refl
length-spawn i (suc left) = ap suc (length-spawn (i + 1) left)

-- For any capacity, so that no list of that length is ever written out.
init-IsBuffer : (slots size : ℕ) → All (IsBuffer size) (MemoryPool.init slots size).pool
init-IsBuffer slots size =
    subst (All (IsBuffer size)) (sym (init-buffers slots size))
      (replicate-All (IsBuffer size) slots (blank-IsBuffer size))

a_queue :
    (capacity k : ℕ)
    → capacity < 2 ^ 64
    → 1 ≤ k
    → capacity ≡ 2 ^ k
    → (q : Queue ParsedPacket) × (LockFreeQueue.init no_packet capacity ≡ some q)
a_queue capacity k small pos e =
    let (q, made, fresh) = (init_iff no_packet capacity small).1 (k, pos, e) in (q, made)

module _ (num_cores : ℕ) where
  new_queue : (q : Queue ParsedPacket) × (LockFreeQueue.init no_packet queue_capacity ≡ some q)
  new_queue = a_queue queue_capacity 13 (omega arith) (omega arith) refl

  -- What `start` returns.
  abbrev program : Program
  program = record {
    core = (if num_cores == 0 then 1 else num_cores) - 1;
    load_balancer = record {
      num_workers = num_workers num_cores;
      worker_queues = replicate (num_workers num_cores) new_queue.0;
    };
    mem_pool = MemoryPool.init pool_slots payload_size;
    workers = spawn 0 (num_workers num_cores);
  }

  start-program : (argc : ℕ) → 2 ≤ argc → start argc num_cores ≡ some program
  unfolding start
  start-program argc h =
      let given : ltb argc 2 ≡ false = ge→ltb argc 2 h in
      rw
        (
          given,
          init-some (num_workers num_cores) queue_capacity new_queue.0 (num_workers-pos num_cores)
              new_queue.1,
        )
        refl

  routing : Routing.IsValid program.load_balancer
  routing = record {
    workers = num_workers-pos num_cores;
    one_each = length-replicate (num_workers num_cores) new_queue.0;
  }

  buffers : All (IsBuffer copy_limit) program.mem_pool.pool
  buffers = init-IsBuffer pool_slots payload_size

  balanced : IsBalanced pool_slots (record { pool = program.mem_pool; held = [] })
  balanced = opened-IsBalanced pool_slots payload_size

  thread-IsReady :
      (rules : Option (List ℕ))
      → IsFile rules
      → (j : ℕ) → j < num_workers num_cores
      → IsReady rules num_cores program (record { worker_id = j; core_id = j })
  unfolding worker_start
  thread-IsReady rules file j inside =
      let (word, trie, scanner, builds, machine) = engine-IsMachine rules file in
      let (q, found) = (get_queue_lem j routing).1 inside in
      record {
        core = inside;
        apart = λ many. unfold num_workers in ground (arith, inside);
        ready =
            rw (builds, found)
              (
                refl,
                record { built = builds; scanned = tt; balanced = balanced; buffers = buffers },
              );
      }

-- With a capture file on the command line the program starts, whatever number of cores the system
-- reports, also none. Its queues are there, one for each worker, and the pool is balanced with all
-- of its slots free. Each worker comes up, whatever the rule file holds: it gets the queue of its
-- number, builds its engine, and begins in the state that its rounds rely on. The workers' cores
-- lie below their number, and on more than one core none is the ingestion thread's.
pub start-IsReady :
    (rules : Option (List ℕ)) (argc num_cores : ℕ)
    → IsFile rules
    → 2 ≤ argc
    → (g : Program) × (start argc num_cores ≡ some g)
      × IsSound pool_slots [] (shared_of g)
      × (length g.workers ≡ g.load_balancer.num_workers)
      × All (IsReady rules num_cores g) g.workers
start-IsReady rules argc num_cores file given = (
  program num_cores,
  start-program num_cores argc given,
  record {
    balanced = balanced num_cores;
    buffers = buffers num_cores;
    routing = routing num_cores;
  },
  length-spawn 0 (num_workers num_cores),
  spawn-All (IsReady rules num_cores (program num_cores)) 0 (num_workers num_cores)
      λ j le lt. thread-IsReady num_cores rules file j (omega (arith, lt)),
)
