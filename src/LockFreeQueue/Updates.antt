-- ===== src/LockFreeQueue/Updates.antt =====
-- What each access of `push` and `pop` does to the window.
use nethex.Base.{
  ℕ, ◌+◌, ◌-◌, ◌%◌, ◌^◌, ◌≤◌, ◌<◌, ◌≡◌, sym, ap, ◌∙◌, subst, List, [], ◌∷◌, ◌++◌, arith, length,
  get_or, set, length-append, length-set, get_or-set_self, get_or-set_ne, bit_and,
  get_or-append_left, get_or-append_last,
}
use nethex.Base.Bits.{pow-pos}
use native.Mathlib.Nat.{mod-lt, pow-le-pow_right}
use native.Mathlib.Decide.{dec_lt}
use nethex.LockFreeQueue.{Queue, add64, sub64}
use nethex.LockFreeQueue.Window.{Holds, index_lem, slot-ne}

module _ {T : Type 0} {d : T} {k : ℕ} {q : Queue T} {sent received : List T}
    (v : Holds d k q sent received) where
  pub capacity_small : 2 ^ k ≤ 2 ^ 63
  capacity_small = pow-le-pow_right (omega arith) v.exponent

  -- The difference of the counters, of which the tail may be an old one, is the number of items.
  pub sub64-counters :
      (m h t : ℕ)
      → h ≡ length sent % 2 ^ 64
      → t ≡ m % 2 ^ 64
      → m ≤ length sent
      → length sent ≤ m + 2 ^ k
      → sub64 h t ≡ length sent - m
  sub64-counters m h t eh et le room = omega (arith, capacity_small)

  -- Two counters are equal only if they count alike.
  pub counters-eq :
      (m n h t : ℕ) → h ≡ n % 2 ^ 64 → t ≡ m % 2 ^ 64 → m ≤ n → n ≤ m + 2 ^ k → h ≡ t → n ≡ m
  counters-eq m n h t eh et le room e = omega (arith, capacity_small)

  -- `n` is a count and `h` the counter that holds it.
  index : (n h : ℕ) → h ≡ n % 2 ^ 64 → bit_and h q.mask ≡ n % 2 ^ k
  index n h e =
      ap (λ (i : ℕ). bit_and i q.mask) e
      ∙ ap (bit_and (n % 2 ^ 64)) v.mask
      ∙ index_lem k n (omega (arith, v.exponent))

  -- Every access of the buffer is in bounds.
  pub index-lt : (n h : ℕ) → h ≡ n % 2 ^ 64 → bit_and h q.mask < length q.buffer
  index-lt n h e = omega (arith, index n h e, v.slots, mod-lt n (pow-pos k))

  module _ (x : T) (h : ℕ) (at : h ≡ length sent % 2 ^ 64)
      (free : length sent < length received + 2 ^ k) where
    abbrev after_store : Queue T
    after_store = record q { buffer = set q.buffer (bit_and h q.mask) x }

    pub store-Holds : Holds d k after_store sent received
    store-Holds = record {
      exponent = v.exponent;
      capacity = v.capacity;
      mask = v.mask;
      slots = length-set q.buffer _ x ∙ v.slots;
      head = v.head;
      tail = v.tail;
      order = v.order;
      room = v.room;
      kept = λ j lo hi.
          get_or-set_ne q.buffer x d (λ e.
            slot-ne (2 ^ k) j (length sent) hi (omega arith)
              (sym (sym (index (length sent) h at) ∙ e)))
          ∙ v.kept j lo hi;
      fifo = v.fifo;
    }

    pub store_stored : get_or after_store.buffer (length sent % 2 ^ k) d ≡ x
    store_stored =
        subst (λ i. get_or after_store.buffer i d ≡ x) (index (length sent) h at)
          (get_or-set_self q.buffer _ x d (index-lt (length sent) h at))

    pub publish-Holds :
        get_or q.buffer (length sent % 2 ^ k) d ≡ x
        → Holds d k (record q { head = add64 h 1 }) (sent ++ (x ∷ [])) received
    publish-Holds stored = record {
      exponent = v.exponent;
      capacity = v.capacity;
      mask = v.mask;
      slots = v.slots;
      head = omega (arith, longer);
      tail = v.tail;
      order = omega (arith, longer, v.order);
      room = omega (arith, longer);
      kept = λ j lo hi. elim (dec_lt j (length sent)) [
        | yes old ↦ v.kept j lo old ∙ sym (get_or-append_left sent (x ∷ []) j d old)
        | no new ↦
            let here : j ≡ length sent = omega (arith, longer) in
            ap (λ (i : ℕ). get_or q.buffer (i % 2 ^ k) d) here
            ∙ stored
            ∙ sym (get_or-append_last sent x j d here)
      ];
      fifo =
          λ j lo. v.fifo j lo ∙ sym (get_or-append_left sent (x ∷ []) j d (omega (arith, v.order)));
    }
      where
        longer : length (sent ++ (x ∷ [])) ≡ length sent + 1
        longer = omega (arith, length-append sent (x ∷ []))

  module _ (t : ℕ) (at : t ≡ length received % 2 ^ 64)
      (some_left : length received < length sent) where
    pub fetch_lem : get_or q.buffer (bit_and t q.mask) d ≡ get_or sent (length received) d
    fetch_lem =
        ap (λ (i : ℕ). get_or q.buffer i d) (index (length received) t at)
        ∙ v.kept (length received) (omega arith) some_left

    pub release-Holds :
        (x : T)
        → x ≡ get_or sent (length received) d
        → Holds d k (record q { tail = add64 t 1 }) sent (received ++ (x ∷ []))
    release-Holds x e = record {
      exponent = v.exponent;
      capacity = v.capacity;
      mask = v.mask;
      slots = v.slots;
      head = v.head;
      tail = omega (arith, longer);
      order = omega (arith, longer);
      room = omega (arith, longer, v.room);
      kept = λ j lo hi. v.kept j (omega (arith, longer)) hi;
      fifo = λ j h. elim (dec_lt j (length received)) [
        | yes old ↦ get_or-append_left received (x ∷ []) j d old ∙ v.fifo j old
        | no new ↦
            let here : j ≡ length received = omega (arith, longer) in
            get_or-append_last received x j d here ∙ e ∙ ap (λ (i : ℕ). get_or sent i d) (sym here)
      ];
    }
      where
        longer : length (received ++ (x ∷ [])) ≡ length received + 1
        longer = omega (arith, length-append received (x ∷ []))
