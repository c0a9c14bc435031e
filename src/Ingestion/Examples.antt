-- ===== src/Ingestion/Examples.antt =====
-- A packet of five bytes with three of payload, and a pool of two free buffers.
use nethex.Base.{
  ℕ, zero, suc, ◌+◌, ◌≡◌, refl, true, false, List, [], ◌∷◌, arith, length, length-replicate,
  replicate, get_or, All, accept, Yields,
}
use nethex.Base.Counts.{copies, flag}
use nethex.Wire.{ParsedPacket, little}
use nethex.Wire.Order.{IsByte}
use nethex.PacketParser.Safety.{IsPacket}
use nethex.LoadBalancer.{no_packet}
use nethex.MemoryPool.{Pool}
use nethex.Worker.Envelopes.{IsBuffer}
use nethex.Ingestion.{
  Shared, Parsed, Phase, borrowing, dispatching, copy_limit, copy_payload, fill, attempt,
}
use nethex.Ingestion.Parsing.{IsParsed}
use nethex.Ingestion.Payload.{Carries, fill-Carries}
use nethex.Ingestion.Safety.{IsSound, IsOn, attempt-IsOn}

abbrev raw_packet : List ℕ
raw_packet = 1 ∷ 2 ∷ 3 ∷ 4 ∷ 5 ∷ []

raw_packet-IsPacket : IsPacket raw_packet 5
raw_packet-IsPacket = omega arith

abbrev parsed : Parsed
parsed = record { envelope = no_packet; offset = 2; packet_len = 5 }

parsed-IsParsed : IsParsed 5 parsed
parsed-IsParsed = record {
  room = omega arith;
  inside = omega arith;
  no_slot = refl;
  no_pointer = refl;
  no_length = refl;
}

abbrev empty_buffer : List ℕ
empty_buffer = replicate copy_limit 0

replicate-IsByte : (n : ℕ) → All IsByte (replicate n 0)
replicate-IsByte zero = tt
replicate-IsByte (suc n) = (omega arith, replicate-IsByte n)

empty_buffer-IsBuffer : IsBuffer copy_limit empty_buffer
empty_buffer-IsBuffer =
    (omega (arith, length-replicate {A = ℕ} copy_limit 0), replicate-IsByte copy_limit)

abbrev shared : Shared
shared = record {
  load_balancer = record {
    num_workers = 1;
    worker_queues =
        record { buffer = no_packet ∷ no_packet ∷ []; capacity = 2; mask = 1; head = 0; tail = 0 }
        ∷ [];
  };
  mem_pool = record {
    pool = empty_buffer ∷ empty_buffer ∷ [];
    free_slots = 0 ∷ 1 ∷ [];
    max_payload_size = copy_limit;
    is_free = true ∷ true ∷ [];
  };
}

marks : (s : ℕ) → copies s (0 ∷ 1 ∷ []) ≡ flag (get_or (true ∷ true ∷ []) s false)
marks zero = refl
marks (suc zero) = refl
marks (suc (suc s)) = ground arith

shared-IsSound : IsSound 2 [] shared
shared-IsSound = record {
  balanced = record {
    valid = record { sizes = refl; marks = marks };
    size = refl;
    once = λ s. ground arith;
  };
  buffers = (empty_buffer-IsBuffer, (empty_buffer-IsBuffer, tt));
  routing = record { workers = omega arith; one_each = refl };
}

-- A hash for the example: the number of bytes and the seed.
abbrev count_bytes : List ℕ → ℕ → ℕ
count_bytes bytes seed = length bytes + seed

attempt-IsOn_example :
    Yields
      (λ (r : Phase × Shared). IsOn 2 5 [] r.0 r.1)
      (attempt little count_bytes raw_packet true shared (borrowing parsed))
attempt-IsOn_example =
    attempt-IsOn 2 little count_bytes [] (omega arith) raw_packet-IsPacket true shared
      (borrowing parsed) (parsed-IsParsed, shared-IsSound)

fill-Carries_example :
    (p : ParsedPacket) × (s : Shared) × (fill raw_packet shared parsed shared.mem_pool 1
      ≡ accept (dispatching p, s))
    × Carries raw_packet parsed shared.mem_pool 1 p s.mem_pool
fill-Carries_example =
    fill-Carries shared parsed shared.mem_pool 1 raw_packet-IsPacket parsed-IsParsed (omega arith)
      (empty_buffer-IsBuffer.0, (empty_buffer-IsBuffer.0, tt))

abbrev small_pool : Pool
small_pool = record {
  pool = (9 ∷ 9 ∷ 9 ∷ 9 ∷ []) ∷ [];
  free_slots = [];
  max_payload_size = 4;
  is_free = false ∷ [];
}

copied_payload :
    copy_payload raw_packet 2 3 small_pool 0
    ≡ accept (record small_pool { pool = (3 ∷ 4 ∷ 5 ∷ 9 ∷ []) ∷ [] })
unfolding copy_payload
copied_payload = refl
