-- ===== src/LoadBalancer.antt =====
-- include/load_balancer.h, and the hashing of main.cpp in front of it: a packet goes to the queue
-- of the worker that its flow's hash names.
pub mod Routing
mod Examples
use nethex.Base.{
  ℕ, zero, suc, ◌%◌, Bool, List, [], ◌∷◌, Option, none, some, leb, ◌==◌, if◌then◌else◌, get_elem?,
  set, Outcome, accept, fault,
}
use nethex.Wire.{ByteOrder, ParsedPacket}
use nethex.FiveTuple.{create_bidirectional_tuple, hash_fn}
use nethex.LockFreeQueue
use nethex.LockFreeQueue.{Queue}

pub record LoadBalancer : Type 0 where
  pub num_workers : ℕ
  pub worker_queues : List (Queue ParsedPacket)

-- A value-initialised packet.
abbrev pub no_packet : ParsedPacket
no_packet = record {
  src_ip = 0;
  dest_ip = 0;
  src_port = 0;
  dest_port = 0;
  protocol = 0;
  tcp_flags = 0;
  pool_slot_id = 0xffff_ffff;
  payload_ptr = none;
  payload_length = 0;
}

-- The constructor's loop; an exception of a queue's constructor leaves it.
pub make_queues : ℕ → ℕ → Option (List (Queue ParsedPacket))
make_queues zero queue_capacity = some []
make_queues (suc left) queue_capacity = elim (LockFreeQueue.init no_packet queue_capacity) [
  | none ↦ none
  | some q ↦ elim (make_queues left queue_capacity) [ none ↦ none | some qs ↦ some (q ∷ qs) ]
]

pub init : ℕ → ℕ → Option LoadBalancer
unfolding make_queues
init num_workers queue_capacity =
    if num_workers == 0 then none else elim (make_queues num_workers queue_capacity) [
      | none ↦ none
      | some qs ↦ some (record { num_workers = num_workers; worker_queues = qs })
    ]

-- `worker_queues_[worker_id]` is not checked: a number past the end is a fault.
pub dispatch : LoadBalancer → ParsedPacket → ℕ → Outcome (Bool × LoadBalancer)
dispatch lb packet flow_hash =
    let worker_id : ℕ = flow_hash % lb.num_workers in
    elim (get_elem? lb.worker_queues worker_id) [
      | none ↦ fault
      | some q ↦
          let (pushed, q') = LockFreeQueue.push no_packet q packet in
          accept (pushed, record lb { worker_queues = set lb.worker_queues worker_id q' })
    ]

-- `none` is the null pointer.
pub get_queue : LoadBalancer → ℕ → Option (Queue ParsedPacket)
get_queue lb worker_id =
    if leb lb.num_workers worker_id then none else get_elem? lb.worker_queues worker_id

-- `flow_hash` of main.cpp.
pub flow_hash : ByteOrder → (List ℕ → ℕ → ℕ) → ParsedPacket → ℕ
flow_hash order xxh64 p =
    hash_fn order xxh64
      (create_bidirectional_tuple p.src_ip p.dest_ip p.src_port p.dest_port p.protocol)
