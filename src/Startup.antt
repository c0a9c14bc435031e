-- ===== src/Startup.antt =====
-- The start of src/main.cpp: what `main` and each worker thread build before they run. What
-- `hardware_concurrency` has returned is an argument; `argc` is the number of words on the command
-- line. `none` is `return 1`.
pub mod Soundness
mod Examples
use nethex.Base.{
  ℕ, zero, suc, ◌+◌, ◌-◌, List, [], ◌∷◌, Option, none, some, ltb, ◌==◌, if◌then◌else◌, Outcome,
  accept, fault, ◌>>=◌,
}
use nethex.Wire.{ParsedPacket}
use nethex.LockFreeQueue.{Queue}
use nethex.LoadBalancer
use nethex.LoadBalancer.{LoadBalancer, get_queue}
use nethex.MemoryPool
use nethex.MemoryPool.{Pool}
use nethex.ConnectionTracker
use nethex.DpiEngine
use nethex.Worker.{Worker}

-- The arguments of a worker's thread.
pub record Spawned : Type 0 where
  pub worker_id : ℕ
  pub core_id : ℕ

pub record Program : Type 0 where
  -- The core of the ingestion thread.
  pub core : ℕ
  pub load_balancer : LoadBalancer
  pub mem_pool : Pool
  pub workers : List Spawned

pub num_workers : ℕ → ℕ
num_workers num_cores = if ltb 1 num_cores then num_cores - 1 else 1

abbrev pub queue_capacity : ℕ
queue_capacity = 8192

abbrev pub pool_slots : ℕ
pool_slots = 65536

abbrev pub payload_size : ℕ
payload_size = 2048

-- The loop that creates the threads, from `i` on, with the rounds left.
pub spawn : ℕ → ℕ → List Spawned
spawn i zero = []
spawn i (suc left) = record { worker_id = i; core_id = i } ∷ spawn (i + 1) left

pub start : ℕ → ℕ → Option Program
unfolding num_workers spawn
start argc num_cores =
    if ltb argc 2
    then none
    else let cores : ℕ = if num_cores == 0 then 1 else num_cores in
      elim (LoadBalancer.init (num_workers num_cores) queue_capacity) [
        | none ↦ none
        | some load_balancer ↦ some (record {
          core = cores - 1;
          load_balancer = load_balancer;
          mem_pool = MemoryPool.init pool_slots payload_size;
          workers = spawn 0 (num_workers num_cores);
        })
      ]

-- What a worker's thread sets up: its queue, and its own state. The loop reads the queue's pointer
-- unchecked, so a null pointer is a fault.
pub worker_start : Option (List ℕ) → Program → Spawned → Outcome (Queue ParsedPacket × Worker)
worker_start rules program thread = do
  scanner ← DpiEngine.init rules
  elim (get_queue program.load_balancer thread.worker_id) [
    | none ↦ fault
    | some my_queue ↦ accept (
      my_queue,
      record {
        tracker = ConnectionTracker.init;
        scanner = scanner;
        loop_counter = 0;
        mem_pool = program.mem_pool;
      },
    )
  ]
