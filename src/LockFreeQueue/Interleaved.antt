-- ===== src/LockFreeQueue/Interleaved.antt =====
-- The two threads at work on one queue, in any interleaving of their accesses.
use nethex.Base.{
  get_or-append_left, ℕ, ◌+◌, ◌%◌, ◌^◌, ◌≤◌, ◌<◌, ◌≡◌, refl, sym, ap, ◌∙◌, List, [], ◌∷◌, ◌++◌,
  arith, length, get_or, eq-take, take, length-append, length-replicate,
}
use nethex.LockFreeQueue.{
  Queue, add64, Producer, Consumer, Produce, Consume, System, Step, Reach, produce, consume, here,
  next, start,
}
use nethex.LockFreeQueue.Window.{Holds}
use nethex.LockFreeQueue.Capacity.{IsNew}
use nethex.LockFreeQueue.Updates.{
  sub64-counters, store-Holds, store_stored, publish-Holds, fetch_lem, release-Holds,
}

module _ {T : Type 0} {d : T} (k : ℕ) where
  -- What the producer's local variables say of the history: `current_tail` may lag behind.
  abbrev ProducerKnows : Queue T → List T → List T → Producer d → Type 0
  ProducerKnows q sent received Producer.idle = Unit
  ProducerKnows q sent received (Producer.has_head item h) = h ≡ length sent % 2 ^ 64
  ProducerKnows q sent received (Producer.has_tail item h t) =
      (h ≡ length sent % 2 ^ 64)
      × ((m : ℕ) × (t ≡ m % 2 ^ 64) × (m ≤ length received) × (length sent ≤ m + 2 ^ k))
  ProducerKnows q sent received (Producer.stored item h) =
      (h ≡ length sent % 2 ^ 64)
      × (length sent < length received + 2 ^ k)
      × (get_or q.buffer (length sent % 2 ^ k) d ≡ item)

  -- What the consumer's say: `current_head` may lag behind.
  abbrev ConsumerKnows : List T → List T → Consumer d → Type 0
  ConsumerKnows sent received Consumer.idle = Unit
  ConsumerKnows sent received (Consumer.has_tail t) = t ≡ length received % 2 ^ 64
  ConsumerKnows sent received (Consumer.has_head t h) =
      (t ≡ length received % 2 ^ 64)
      × ((n : ℕ) × (h ≡ n % 2 ^ 64) × (length received ≤ n) × (n ≤ length sent))
  ConsumerKnows sent received (Consumer.fetched item t) =
      (t ≡ length received % 2 ^ 64)
      × (length received < length sent)
      × (item ≡ get_or sent (length received) d)

  pub record Inv (s : System d) : Type 0 where
    pub window : Holds d k s.queue s.sent s.received
    pub producer : ProducerKnows s.queue s.sent s.received s.producer
    pub consumer : ConsumerKnows s.sent s.received s.consumer

  -- An access of the producer keeps the window and what it knows itself.
  Produce-window :
      {q u : Queue T} {sent sent' received : List T} {p p' : Producer d}
      → Produce d q sent p u sent' p'
      → Holds d k q sent received
      → ProducerKnows q sent received p
      → Holds d k u sent' received × ProducerKnows u sent' received p'
  Produce-window (Produce.load_head item) v i = (v, v.head)
  Produce-window {received = received} Produce.load_tail v i =
      (v, (i, (length received, v.tail, omega arith, v.room)))
  Produce-window (Produce.full e) v i = (v, tt)
  Produce-window {sent = sent} {received = received} (Produce.store {item = x} {h = h} {t = t} ne) v
        (at, (m, et, le, room)) =
      let free : length sent < length received + 2 ^ k =
        omega (
          arith,
          v.order,
          v.capacity,
          sub64-counters v m h t at et (omega (arith, v.order)) room,
        ) in
      (store-Holds v x h at free, (at, free, store_stored v x h at free))
  Produce-window (Produce.publish {item = x} {h = h}) v (at, free, stored) =
      (publish-Holds v x h at free stored, tt)

  -- What the consumer knows stays true when the history grows.
  ConsumerKnows-append :
      (sent received : List T) (x : T) (c : Consumer d)
      → ConsumerKnows sent received c
      → ConsumerKnows (sent ++ (x ∷ [])) received c
  ConsumerKnows-append sent received x Consumer.idle i = tt
  ConsumerKnows-append sent received x (Consumer.has_tail t) i = i
  ConsumerKnows-append sent received x (Consumer.has_head t h) (at, (n, e, lo, hi)) =
      (at, (n, e, lo, omega (arith, length-append sent (x ∷ []))))
  ConsumerKnows-append sent received x (Consumer.fetched item t) (at, lt, e) = (
    at,
    omega (arith, length-append sent (x ∷ [])),
    e ∙ sym (get_or-append_left sent (x ∷ []) (length received) d lt),
  )

  Produce-consumer :
      {q u : Queue T} {sent sent' : List T} {p p' : Producer d} (received : List T) (c : Consumer d)
      → Produce d q sent p u sent' p'
      → ConsumerKnows sent received c
      → ConsumerKnows sent' received c
  Produce-consumer received c (Produce.load_head item) i = i
  Produce-consumer received c Produce.load_tail i = i
  Produce-consumer received c (Produce.full e) i = i
  Produce-consumer received c (Produce.store ne) i = i
  Produce-consumer {sent = sent} received c (Produce.publish {item = x}) i =
      ConsumerKnows-append sent received x c i

  -- An access of the consumer keeps the window and what it knows itself.
  Consume-window :
      {q u : Queue T} {sent received received' : List T} {c c' : Consumer d}
      → Consume d q received c u received' c'
      → Holds d k q sent received
      → ConsumerKnows sent received c
      → Holds d k u sent received' × ConsumerKnows sent received' c'
  Consume-window Consume.load_tail v i = (v, v.tail)
  Consume-window {sent = sent} Consume.load_head v i =
      (v, (i, (length sent, v.head, v.order, omega arith)))
  Consume-window (Consume.empty e) v i = (v, tt)
  Consume-window {sent = sent} {received = received} (Consume.fetch {t = t} {h = h} ne) v
        (at, (n, en, lo, hi)) =
      let left : length received < length sent = omega arith in
      (v, (at, left, fetch_lem v t at left))
  Consume-window (Consume.release {item = x} {t = t}) v (at, left, e) =
      (release-Holds v t at left x e, tt)

  ProducerKnows-append :
      (q u : Queue T) (sent received : List T) (x : T) (p : Producer d)
      → q.buffer ≡ u.buffer
      → ProducerKnows q sent received p
      → ProducerKnows u sent (received ++ (x ∷ [])) p
  ProducerKnows-append q u sent received x Producer.idle same i = tt
  ProducerKnows-append q u sent received x (Producer.has_head item h) same i = i
  ProducerKnows-append q u sent received x (Producer.has_tail item h t) same
        (at, (m, e, le, room)) =
      (at, (m, e, omega (arith, length-append received (x ∷ [])), room))
  ProducerKnows-append q u sent received x (Producer.stored item h) same (at, free, e) =
      (at, omega (arith, length-append received (x ∷ [])), rw (← same) e)

  Consume-producer :
      {q u : Queue T} {received received' : List T} {c c' : Consumer d} (sent : List T)
      (p : Producer d)
      → Consume d q received c u received' c'
      → ProducerKnows q sent received p
      → ProducerKnows u sent received' p
  Consume-producer sent p Consume.load_tail i = i
  Consume-producer sent p Consume.load_head i = i
  Consume-producer sent p (Consume.empty e) i = i
  Consume-producer sent p (Consume.fetch ne) i = i
  Consume-producer {q = q} {u = u} {received = received} sent p (Consume.release {item = x} {t = t})
        i =
      ProducerKnows-append q (record q { tail = add64 t 1 }) sent received x p refl i

  Step-Inv : {s u : System d} → Step d s u → Inv s → Inv u
  Step-Inv {s} (produce st) v =
      let (w, p) = Produce-window st v.window v.producer in
      record {
        window = w;
        producer = p;
        consumer = Produce-consumer s.received s.consumer st v.consumer;
      }
  Step-Inv {s} (consume st) v =
      let (w, c) = Consume-window st v.window v.consumer in
      record {
        window = w;
        producer = Consume-producer s.sent s.producer st v.producer;
        consumer = c;
      }

  start-Inv : {q : Queue T} → 1 ≤ k → k ≤ 63 → IsNew d (2 ^ k) q → Inv (start d q)
  start-Inv {q} pos small new = record {
    window = record {
      exponent = small;
      capacity = new.capacity_kept;
      mask = new.mask;
      slots = ap length new.buffer ∙ length-replicate (2 ^ k) d;
      head = new.head;
      tail = new.tail;
      order = omega arith;
      room = omega arith;
      kept = λ j lo hi. absurd (omega arith);
      fifo = λ j h. absurd (omega arith);
    };
    producer = tt;
    consumer = tt;
  }

  Reach-Inv :
      {q : Queue T} {s : System d} → 1 ≤ k → k ≤ 63 → IsNew d (2 ^ k) q → Reach d q s → Inv s
  Reach-Inv pos small new here = start-Inv pos small new
  Reach-Inv pos small new (next r st) = Step-Inv st (Reach-Inv pos small new r)

  -- However the accesses of the producer and of the consumer interleave on a new queue of 2^k
  -- slots: what was popped is the first part of what was pushed, in its order, with nothing lost,
  -- repeated or torn, and at most 2^k items wait.
  pub Reach-fifo :
      {q : Queue T} {s : System d}
      → 1 ≤ k
      → k ≤ 63
      → IsNew d (2 ^ k) q
      → Reach d q s
      → (s.received ≡ take (length s.received) s.sent)
        × (length s.received ≤ length s.sent)
        × (length s.sent ≤ length s.received + 2 ^ k)
  Reach-fifo {s = s} pos small new r =
      let w = (Reach-Inv pos small new r).window in
      (eq-take s.received s.sent d w.order w.fifo, w.order, w.room)
