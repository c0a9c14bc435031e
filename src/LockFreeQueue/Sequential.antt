-- ===== src/LockFreeQueue/Sequential.antt =====
-- `push` and `pop` run alone are those of a bounded first-in first-out queue.
use nethex.Base.{
  ℕ, ◌+◌, ◌-◌, ◌^◌, ◌<◌, ◌≡◌, ◌≢◌, refl, ap, true, false, List, [], ◌∷◌, ◌++◌, none, some, arith,
  length, get_or, ◌==◌, Bool-cases, inl, inr, ==_iff,
}
use nethex.LockFreeQueue.{Queue, sub64, push, pop}
use nethex.LockFreeQueue.Window.{Holds}
use nethex.LockFreeQueue.Updates.{
  sub64-counters, counters-eq, store-Holds, store_stored, publish-Holds, fetch_lem, release-Holds,
}

module _ {T : Type 0} {d : T} {k : ℕ} {q : Queue T} {sent received : List T}
    (v : Holds d k q sent received) where
  waiting : sub64 q.head q.tail ≡ length sent - length received
  waiting = sub64-counters v (length received) q.head q.tail v.head v.tail v.order v.room

  -- `push` refuses an item exactly when 2^k items are waiting, and then changes nothing; any other
  -- item joins the end of the history.
  pub push_lem :
      (x : T)
      → (length sent ≡ length received + 2 ^ k → push d q x ≡ (false, q))
        × (length sent ≢ length received + 2 ^ k
            → ((push d q x).0 ≡ true) × Holds d k (push d q x).1 (sent ++ (x ∷ [])) received)
  unfolding push
  push_lem x = (
    λ full. rw (full_test full),
    λ free.
        let here : length sent < length received + 2 ^ k = omega (arith, v.room) in
        rw (free_test free) (
          refl,
          publish-Holds (store-Holds v x q.head v.head here) x q.head v.head here
              (store_stored v x q.head v.head here),
        ),
  )
    where
      full_test : length sent ≡ length received + 2 ^ k → (sub64 q.head q.tail == q.capacity) ≡ true
      full_test full =
          (==_iff (sub64 q.head q.tail) q.capacity).1 (omega (arith, waiting, v.capacity))

      free_test :
          length sent ≢ length received + 2 ^ k → (sub64 q.head q.tail == q.capacity) ≡ false
      free_test free = ground (arith, waiting, v.capacity, v.order, v.room)

  -- `pop` fails exactly when nothing waits, and then changes nothing; otherwise it returns the item
  -- that was pushed first of those that wait.
  pub pop_lem :
      (length sent ≡ length received → pop d q ≡ (none, q))
      × (length sent ≢ length received
          → let x = get_or sent (length received) d in
            ((pop d q).0 ≡ some x) × Holds d k (pop d q).1 sent (received ++ (x ∷ [])))
  unfolding pop
  pop_lem = (
    λ drained. rw (drained_test drained),
    λ left.
        let here : length received < length sent = omega (arith, v.order) in
        rw (left_test left)
          (ap some (fetch_lem v q.tail v.tail here), release-Holds v q.tail v.tail here _ refl),
  )
    where
      drained_test : length sent ≡ length received → (q.head == q.tail) ≡ true
      drained_test e = (==_iff q.head q.tail).1 (omega (arith, v.head, v.tail))

      left_test : length sent ≢ length received → (q.head == q.tail) ≡ false
      left_test ne = elim (Bool-cases (q.head == q.tail)) [
        | inl e ↦ absurd (
            ne (
              counters-eq v (length received) (length sent) q.head q.tail v.head v.tail v.order
                v.room ((==_iff q.head q.tail).0 e)))
        | inr e ↦ e
      ]
