-- ===== src/LockFreeQueue/Capacity.antt =====
-- The constructor's test accepts the powers of two from two up, and no other capacity.
use nethex.Base.{
  ℕ, zero, suc, ◌-◌, ◌/◌, ◌%◌, ◌^◌, ◌≤◌, ◌<◌, ◌≡◌, ◌⊎◌, ◌↔◌, refl, sym, ap, ◌∙◌, some, arith,
  bit_and, inl, inr, replicate,
}
use nethex.Base.Bits.{bit_and-halves, bit_and_mask, pow-pos}
use native.Mathlib.Nat.{pow-suc}
use nethex.LockFreeQueue.{Queue, init, sub64}

bit_and_self : (fuel a : ℕ) → a ≤ fuel → bit_and a a ≡ a
bit_and_self fuel zero h = refl
bit_and_self zero (suc a) h = absurd (omega arith)
bit_and_self (suc fuel) (suc a) h =
    omega (arith, bit_and-halves (suc a) (suc a), bit_and_self fuel (suc a / 2) (omega arith))

-- One bit is set where the test finds none in common with the predecessor.
power_of_test : (fuel c : ℕ) → c ≤ fuel → 0 < c → bit_and c (c - 1) ≡ 0 → (k : ℕ) × (c ≡ 2 ^ k)
power_of_test zero c h pos e = absurd (omega arith)
power_of_test (suc fuel) c h pos e = elim (parity c) [
  | inl even ↦
      let (k, p) =
        power_of_test fuel (c / 2) (omega arith) (omega arith)
          (omega (arith, bit_and-halves c (c - 1), pred even)) in
      (suc k, omega (arith, pow-suc 2 k))
  | inr odd ↦ (
    0,
    omega (arith, bit_and-halves c (c - 1), low odd, bit_and_self (c / 2) (c / 2) (omega arith)),
  )
]
  where
    parity : (n : ℕ) → (n % 2 ≡ 0) ⊎ (n % 2 ≡ 1)
    parity n = omega arith

    pred : c % 2 ≡ 0 → bit_and (c / 2) ((c - 1) / 2) ≡ bit_and (c / 2) (c / 2 - 1)
    pred z = ap (bit_and (c / 2)) (omega arith)

    low : c % 2 ≡ 1 → bit_and (c / 2) ((c - 1) / 2) ≡ bit_and (c / 2) (c / 2)
    low z = ap (bit_and (c / 2)) (omega arith)

exponent_pos : (k : ℕ) → 2 ≤ 2 ^ k → 1 ≤ k
exponent_pos zero h = absurd (omega arith)
exponent_pos (suc k) h = omega arith

test_of_power : (k : ℕ) → bit_and (2 ^ k) (2 ^ k - 1) ≡ 0
test_of_power k = bit_and_mask k (2 ^ k) ∙ grind (arith, pow-pos k)

-- A queue as the constructor leaves it.
pub record IsNew {T : Type 0} (d : T) (capacity : ℕ) (q : Queue T) : Type 0 where
  pub buffer : q.buffer ≡ replicate capacity d
  pub capacity_kept : q.capacity ≡ capacity
  pub mask : q.mask ≡ capacity - 1
  pub head : q.head ≡ 0
  pub tail : q.tail ≡ 0

-- `LockFreeQueue(capacity)` succeeds exactly on the powers of two from two up, with an empty queue.
pub init_iff :
    {T : Type 0} (d : T) (capacity : ℕ)
    → capacity < 2 ^ 64
    → ((q : Queue T) × (init d capacity ≡ some q) × IsNew d capacity q)
      ↔ ((k : ℕ) × (1 ≤ k) × (capacity ≡ 2 ^ k))
unfolding init
init_iff {T} d capacity small = (
  λ (q, e, v). accepted q e,
  λ (k, pos, e). (
    fresh,
    built k pos e,
    record {
      buffer = refl;
      capacity_kept = refl;
      mask = wraps (two_le k pos e);
      head = refl;
      tail = refl;
    },
  ),
)
  where
    fresh : Queue T
    fresh = record {
      buffer = replicate capacity d;
      capacity = capacity;
      mask = sub64 capacity 1;
      head = 0;
      tail = 0;
    }

    two_le : (k : ℕ) → 1 ≤ k → capacity ≡ 2 ^ k → 2 ≤ capacity
    two_le zero pos e = absurd (omega arith)
    two_le (suc k) pos e = omega (arith, pow-suc 2 k, pow-pos k)

    wraps : 2 ≤ capacity → sub64 capacity 1 ≡ capacity - 1
    wraps large = omega arith

    built : (k : ℕ) → 1 ≤ k → capacity ≡ 2 ^ k → init d capacity ≡ some fresh
    built k pos e =
        let test : bit_and capacity (sub64 capacity 1) ≡ 0 =
          ap (bit_and capacity) (wraps (two_le k pos e))
          ∙ ap (λ (c : ℕ). bit_and c (c - 1)) e
          ∙ test_of_power k in
        ground (arith, two_le k pos e, test)

    accepted : (q : Queue T) → init d capacity ≡ some q → (k : ℕ) × (1 ≤ k) × (capacity ≡ 2 ^ k)
    accepted q e =
        let large : 2 ≤ capacity = ground (arith, e) in
        let pre : sub64 capacity 1 ≡ capacity - 1 = omega arith in
        let test : bit_and capacity (sub64 capacity 1) ≡ 0 = ground (arith, e) in
        let (k, p) =
          power_of_test capacity capacity (omega arith) (omega arith)
            (sym (ap (bit_and capacity) pre) ∙ test) in
        (k, exponent_pos k (omega arith), p)
