-- ===== src/LockFreeQueue.antt =====
-- include/thread_safe_queue.h: the ring buffer between one producer and one consumer.
-- `push` and `pop` are the calls run alone; `Produce` and `Consume` are their shared accesses, one
-- a step, so that the two threads may interleave between any two of them. A release store and the
-- acquire load that reads it order the buffer accesses around them; an interleaving keeps that
-- order.
pub mod Capacity
pub mod Window
pub mod Updates
pub mod Sequential
pub mod Interleaved
mod Examples
use nethex.Base.{
  ℕ, ◌+◌, ◌-◌, ◌%◌, ◌^◌, ◌≡◌, ◌≢◌, Bool, true, false, not, ◌||◌, List, [], ◌∷◌, ◌++◌, Option, none,
  some, ltb, ◌==◌, if◌then◌else◌, get_or, set, replicate, bit_and,
}

-- `size_t` arithmetic.
abbrev pub add64 : ℕ → ℕ → ℕ
add64 a b = (a + b) % 2 ^ 64

abbrev pub sub64 : ℕ → ℕ → ℕ
sub64 a b = (a + 2 ^ 64 - b) % 2 ^ 64

pub record Queue (T : Type 0) : Type 0 where
  pub buffer : List T
  pub capacity : ℕ
  pub mask : ℕ
  pub head : ℕ
  pub tail : ℕ

-- `d` is the value-initialised `T` that fills a new buffer.
module _ {T : Type 0} (d : T) where
  -- The constructor; `none` is its exception.
  unfoldable pub init : ℕ → Option (Queue T)
  init capacity =
      if ltb capacity 2 || not (bit_and capacity (sub64 capacity 1) == 0)
      then none
      else some (record {
        buffer = replicate capacity d;
        capacity = capacity;
        mask = sub64 capacity 1;
        head = 0;
        tail = 0;
      })

  pub push : Queue T → T → Bool × Queue T
  push q item = if sub64 q.head q.tail == q.capacity then (false, q) else (
    true,
    record q { buffer = set q.buffer (bit_and q.head q.mask) item; head = add64 q.head 1 },
  )

  -- The option is the item that a `true` leaves in the reference parameter.
  pub pop : Queue T → Option T × Queue T
  pop q =
      if q.head == q.tail
      then (none, q)
      else (some (get_or q.buffer (bit_and q.tail q.mask) d), record q { tail = add64 q.tail 1 })

  pub is_empty : Queue T → Bool
  is_empty q = q.head == q.tail

  -- Where the producer stands inside `push`, with its local variables.
  pub data Producer : Type 0 where
    idle : Producer
    has_head : (item : T) (current_head : ℕ) → Producer
    has_tail : (item : T) (current_head current_tail : ℕ) → Producer
    stored : (item : T) (current_head : ℕ) → Producer

  -- Where the consumer stands inside `pop`.
  pub data Consumer : Type 0 where
    idle : Consumer
    has_tail : (current_tail : ℕ) → Consumer
    has_head : (current_tail current_head : ℕ) → Consumer
    fetched : (item : T) (current_tail : ℕ) → Consumer

  -- One access of the producer. The list is what it has pushed so far.
  pub data Produce (q : Queue T) (sent : List T)
      : Producer → Queue T → List T → Producer → Type 0 where
    load_head : (item : T) → Produce q sent Producer.idle q sent (Producer.has_head item q.head)
    load_tail :
        {item : T} {h : ℕ}
        → Produce q sent (Producer.has_head item h) q sent (Producer.has_tail item h q.tail)
    full :
        {item : T} {h t : ℕ}
        → sub64 h t ≡ q.capacity
        → Produce q sent (Producer.has_tail item h t) q sent Producer.idle
    store :
        {item : T} {h t : ℕ}
        → sub64 h t ≢ q.capacity
        → Produce q sent
            (Producer.has_tail item h t)
            (record q { buffer = set q.buffer (bit_and h q.mask) item })
            sent
            (Producer.stored item h)
    publish :
        {item : T} {h : ℕ}
        → Produce q sent
            (Producer.stored item h)
            (record q { head = add64 h 1 })
            (sent ++ (item ∷ []))
            Producer.idle

  -- One access of the consumer. The list is what it has popped so far.
  pub data Consume (q : Queue T) (received : List T)
      : Consumer → Queue T → List T → Consumer → Type 0 where
    load_tail : Consume q received Consumer.idle q received (Consumer.has_tail q.tail)
    load_head :
        {t : ℕ} → Consume q received (Consumer.has_tail t) q received (Consumer.has_head t q.head)
    empty : {t h : ℕ} → h ≡ t → Consume q received (Consumer.has_head t h) q received Consumer.idle
    fetch :
        {t h : ℕ}
        → h ≢ t
        → Consume q received
            (Consumer.has_head t h)
            q
            received
            (Consumer.fetched (get_or q.buffer (bit_and t q.mask) d) t)
    release :
        {item : T} {t : ℕ}
        → Consume q received
            (Consumer.fetched item t)
            (record q { tail = add64 t 1 })
            (received ++ (item ∷ []))
            Consumer.idle

  pub record System : Type 0 where
    pub queue : Queue T
    pub producer : Producer
    pub consumer : Consumer
    pub sent : List T
    pub received : List T

  -- Either thread makes its next access.
  pub data Step (s : System) : System → Type 0 where
    produce :
        {q : Queue T} {sent : List T} {p : Producer}
        → Produce s.queue s.sent s.producer q sent p
        → Step s (record s { queue = q; sent = sent; producer = p })
    consume :
        {q : Queue T} {received : List T} {c : Consumer}
        → Consume s.queue s.received s.consumer q received c
        → Step s (record s { queue = q; received = received; consumer = c })

  abbrev pub start : Queue T → System
  start q = record {
    queue = q;
    producer = Producer.idle;
    consumer = Consumer.idle;
    sent = [];
    received = [];
  }

  -- What the two threads can reach from a new queue.
  pub data Reach (q : Queue T) : System → Type 0 where
    here : Reach q (start q)
    next : {s u : System} → Reach q s → Step s u → Reach q u
