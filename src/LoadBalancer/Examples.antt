-- ===== src/LoadBalancer/Examples.antt =====
-- The balancer with two workers.
use nethex.Base.{arith, zero, suc, ◌<◌, true, ℕ, ◌+◌, ◌≡◌, refl, List, [], ◌∷◌, some, accept}
use nethex.Wire.{little, ParsedPacket}
use nethex.LockFreeQueue.{Queue}
use nethex.LockFreeQueue.Window.{Holds}
use nethex.LoadBalancer.{LoadBalancer, no_packet, init, dispatch, get_queue, flow_hash}
use nethex.LoadBalancer.Routing.{
  IsValid, init-IsValid, IsReply, BothOn, worker_of, dispatch_both_directions,
}

abbrev no_packets : Queue ParsedPacket
no_packets = record {
  buffer = no_packet ∷ no_packet ∷ [];
  capacity = 2;
  mask = 1;
  head = 0;
  tail = 0;
}

abbrev two_workers : LoadBalancer
two_workers = record { num_workers = 2; worker_queues = no_packets ∷ no_packets ∷ [] }

made : init 2 2 ≡ some two_workers
unfolding init nethex.LoadBalancer.make_queues nethex.LockFreeQueue.init
made = refl

two_workers-IsValid : IsValid two_workers
two_workers-IsValid = init-IsValid 2 2 two_workers made

abbrev query : ParsedPacket
query = record no_packet { src_ip = 9; dest_ip = 5; src_port = 4000; dest_port = 53; protocol = 17 }

abbrev answer : ParsedPacket
answer = record no_packet {
  src_ip = 5;
  dest_ip = 9;
  src_port = 53;
  dest_port = 4000;
  protocol = 17;
}

answer-IsReply : IsReply query answer
answer-IsReply = record {
  src_ip = refl;
  dest_ip = refl;
  src_port = refl;
  dest_port = refl;
  protocol = refl;
}

-- A hash for the example: the sum of the bytes and the seed.
abbrev sum_bytes : List ℕ → ℕ → ℕ
sum_bytes [] seed = seed
sum_bytes (b ∷ bs) seed = b + sum_bytes bs seed

no_packets-Holds : Holds no_packet 1 no_packets [] []
no_packets-Holds = record {
  exponent = omega arith;
  capacity = refl;
  mask = refl;
  slots = refl;
  head = refl;
  tail = refl;
  order = omega arith;
  room = omega arith;
  kept = λ j from to. absurd (omega arith);
  fifo = λ j to. absurd (omega arith);
}

either : (w : ℕ) → w < 2 → get_queue two_workers w ≡ some no_packets
unfolding get_queue
either zero h = refl
either (suc zero) h = refl
either (suc (suc w)) h = absurd (omega arith)

dispatch_both_directions_example :
    (lb₁ lb₂ : LoadBalancer) × (dispatch two_workers query (flow_hash little sum_bytes query)
      ≡ accept (true, lb₁))
    × (dispatch lb₁ answer (flow_hash little sum_bytes answer) ≡ accept (true, lb₂))
    × BothOn 1 (worker_of little sum_bytes two_workers query) [] [] two_workers lb₂ query answer
dispatch_both_directions_example =
    dispatch_both_directions little sum_bytes two_workers-IsValid answer-IsReply
      (either (worker_of little sum_bytes two_workers query) (omega arith)) no_packets-Holds
      (omega arith)
