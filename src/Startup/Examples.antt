-- ===== src/Startup/Examples.antt =====
-- A start without rules on eight cores, and the number of workers.
use nethex.Base.{[], ◌≡◌, refl, none, some, length, All, arith}
use nethex.Ingestion.Safety.{IsSound}
use nethex.Startup.{Program, num_workers, pool_slots, start}
use nethex.Startup.Soundness.{IsReady, shared_of, start-IsReady}

one_core : num_workers 1 ≡ 1
unfolding num_workers
one_core = refl

unknown_cores : num_workers 0 ≡ 1
unfolding num_workers
unknown_cores = refl

eight_cores : num_workers 8 ≡ 7
unfolding num_workers
eight_cores = refl

start-IsReady_example :
    (g : Program) × (start 2 8 ≡ some g)
    × IsSound pool_slots [] (shared_of g)
    × (length g.workers ≡ g.load_balancer.num_workers)
    × All (IsReady none 8 g) g.workers
start-IsReady_example = start-IsReady none 2 8 tt (omega arith)
