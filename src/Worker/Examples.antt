-- ===== src/Worker/Examples.antt =====
-- A worker without rules, a pool of two buffers with one of them lent, and a SYN with four bytes.
use nethex.Base.{
  ℕ, All, List, ◌++◌, Option, zero, suc, ◌≡◌, refl, Bool, true, false, [], ◌∷◌, none, some, arith,
  get_or, accept, Yields,
}
use nethex.Base.Counts.{copies, flag}
use nethex.Wire.{ParsedPacket, little}
use nethex.MemoryPool.{Pool}
use nethex.ConnectionTracker
use nethex.ConnectionTracker.{TrackedFlow, find_flow, flags_of}
use nethex.RuleManager.{content_keyword, line_signature, quoted}
use nethex.PacketParser.Safety.{IsPacket}
use nethex.PatternMatcher.{Trie}
use nethex.DpiEngine
use nethex.DpiEngine.Detection.{inspect_payload-Inspected}
use nethex.FiveTuple.{FiveTuple, same_tuple, create_bidirectional_tuple}
use nethex.Worker.{Worker, Poll, tuple_of, popped, idle, process_packet, worker_node}
use nethex.Worker.Envelopes.{IsEnvelope, IsEnvelopePoll}
use nethex.Worker.Handling.{matches, IsValid}
use nethex.Worker.Watching.{text_of}
use nethex.Worker.Verdict.{worker_node-verdict}
use nethex.Worker.Service.{
  Event, borrow, give_back, serve, serve_bare, find_nothing, run, IsServing, run-Yields,
}
use nethex.Worker.Safety.{process_packet-Yields}

abbrev pool : Pool
pool = record {
  pool = (0x47 ∷ 0x45 ∷ 0x54 ∷ 0x20 ∷ []) ∷ (0 ∷ 0 ∷ 0 ∷ 0 ∷ []) ∷ [];
  free_slots = 1 ∷ [];
  max_payload_size = 4;
  is_free = false ∷ true ∷ [];
}

abbrev syn : ParsedPacket
syn = record {
  src_ip = 1;
  dest_ip = 2;
  src_port = 4000;
  dest_port = 80;
  protocol = 6;
  tcp_flags = 2;
  pool_slot_id = 0;
  payload_ptr = some 0;
  payload_length = 4;
}

abbrev nowhere : FiveTuple
nowhere = record { src_ip = 0; dest_ip = 0; src_port = 0; dest_port = 0; protocol = 0 }

nothing-IsPacket : IsPacket [] 0
nothing-IsPacket = record { inside = omega arith; small = omega arith; bytes = tt }

engine : (scanner : Trie) × (DpiEngine.init none ≡ accept scanner)
engine =
    let (scanner, built, rest) =
      inspect_payload-Inspected none little nowhere [] 0 0 tt nothing-IsPacket refl in
    (scanner, built)

abbrev worker : Worker
worker = record {
  tracker = ConnectionTracker.init;
  scanner = engine.0;
  loop_counter = 0;
  mem_pool = pool;
}

marks : (s : ℕ) → copies s (1 ∷ []) ≡ flag (get_or (false ∷ true ∷ []) s false)
marks zero = refl
marks (suc zero) = refl
marks (suc (suc s)) = ground arith

syn-IsEnvelope : IsEnvelope 4 syn
syn-IsEnvelope = record { points = refl; fits = omega arith }

worker-IsValid : IsValid none 2 4 (0 ∷ []) worker
worker-IsValid = record {
  built = engine.1;
  scanned = tt;
  balanced = record {
    valid = record { sizes = refl; marks = marks };
    size = refl;
    once = λ s. ground arith;
  };
  buffers = ((omega arith, omega arith), ((omega arith, omega arith), tt));
}

process_packet-Yields_example :
    Yields (λ (r : Bool × Worker). IsValid none 2 4 [] r.1) (process_packet little worker syn 0)
process_packet-Yields_example =
    process_packet-Yields none 2 4 tt (omega arith) little worker syn [] 0 worker-IsValid
      syn-IsEnvelope

-- Three payloads in two slots.
abbrev history : List Event
history =
    serve 0 syn 0
    ∷ borrow (1 ∷ 2 ∷ 3 ∷ 4 ∷ [])
    ∷ borrow (5 ∷ 6 ∷ 7 ∷ 8 ∷ [])
    ∷ borrow (9 ∷ 9 ∷ 9 ∷ 9 ∷ [])
    ∷ serve 1 syn 1
    ∷ find_nothing 2
    ∷ serve_bare syn 3
    ∷ serve 0 syn 4
    ∷ give_back 0
    ∷ []

run-Yields_example :
    Yields (IsServing none 2 4) (run little (record { worker = worker; held = 0 ∷ [] }) history)
run-Yields_example =
    run-Yields none 2 4 tt (omega arith) (omega arith) little
      (record { worker = worker; held = 0 ∷ [] }) history worker-IsValid (omega arith)

-- content:"evil"
abbrev rules : Option (List ℕ)
rules = some (content_keyword ++ (0x65 ∷ 0x76 ∷ 0x69 ∷ 0x6C ∷ 0x22 ∷ []))

-- "evil" in two packets of a flow, with a packet of another flow in between.
abbrev full_pool : Pool
full_pool = record {
  pool = (0x65 ∷ 0x76 ∷ 0 ∷ 0 ∷ []) ∷ (0x78 ∷ 0x79 ∷ 0 ∷ 0 ∷ []) ∷ (0x69 ∷ 0x6C ∷ 0 ∷ 0 ∷ []) ∷ [];
  free_slots = [];
  max_payload_size = 4;
  is_free = false ∷ false ∷ false ∷ [];
}

abbrev first_half : ParsedPacket
first_half = record syn { payload_length = 2 }

abbrev other_flow : ParsedPacket
other_flow = record syn {
  src_port = 4001;
  pool_slot_id = 1;
  payload_ptr = some 1;
  payload_length = 2;
}

abbrev second_half : ParsedPacket
second_half = record syn {
  tcp_flags = 16;
  pool_slot_id = 2;
  payload_ptr = some 2;
  payload_length = 2;
}

ruled_engine : (scanner : Trie) × (DpiEngine.init rules ≡ accept scanner)
ruled_engine =
    let (scanner, built, rest) =
      inspect_payload-Inspected rules little nowhere [] 0 0 (omega arith) nothing-IsPacket refl in
    (scanner, built)

abbrev ruled_worker : Worker
ruled_worker = record {
  tracker = ConnectionTracker.init;
  scanner = ruled_engine.0;
  loop_counter = 0;
  mem_pool = full_pool;
}

lent : (s : ℕ) → copies s [] ≡ flag (get_or (false ∷ false ∷ false ∷ []) s false)
lent zero = refl
lent (suc zero) = refl
lent (suc (suc zero)) = refl
lent (suc (suc (suc s))) = ground arith

ruled_worker-IsValid : IsValid rules 3 4 (0 ∷ 1 ∷ 2 ∷ []) ruled_worker
ruled_worker-IsValid = record {
  built = ruled_engine.1;
  scanned = tt;
  balanced = record {
    valid = record { sizes = refl; marks = lent };
    size = refl;
    once = λ s. ground arith;
  };
  buffers =
      ((omega arith, omega arith), ((omega arith, omega arith), ((omega arith, omega arith), tt)));
}

abbrev halves : List Poll
halves = popped first_half 0 ∷ popped other_flow 1 ∷ idle 2 ∷ popped second_half 3 ∷ []

halves-IsEnvelope : All (IsEnvelopePoll 4) halves
halves-IsEnvelope = (
  record { points = refl; fits = omega arith },
  (
    record { points = refl; fits = omega arith },
    (tt, (record { points = refl; fits = omega arith }, tt)),
  ),
)

two_packets : text_of (tuple_of syn) full_pool.pool halves ≡ 0x65 ∷ 0x76 ∷ 0x69 ∷ 0x6C ∷ []
unfolding create_bidirectional_tuple same_tuple
two_packets = refl

evil_found : matches rules [] (0x65 ∷ 0x76 ∷ 0x69 ∷ 0x6C ∷ []) ≡ true
unfolding line_signature quoted
evil_found = refl

worker_node-verdict_example :
    (w : Worker) × (flow : TrackedFlow) × (worker_node little ruled_worker halves ≡ accept w)
    × (find_flow (tuple_of syn) w.tracker.flow_table ≡ some flow)
    × (flow.conn.is_malicious ≡ matches rules [] (text_of (tuple_of syn) full_pool.pool halves))
unfolding create_bidirectional_tuple same_tuple flags_of
worker_node-verdict_example =
    worker_node-verdict rules 3 4 (omega arith) (omega arith) little (tuple_of syn) ruled_worker
      first_half 0 (popped other_flow 1 ∷ idle 2 ∷ popped second_half 3 ∷ []) []
      ruled_worker-IsValid halves-IsEnvelope refl refl refl (omega arith) (omega arith)
