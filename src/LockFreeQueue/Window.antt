-- ===== src/LockFreeQueue/Window.antt =====
-- The queue against the whole history of what was pushed and popped. `head` and `tail` count
-- modulo 2^64, and the history does not wrap.
use nethex.Base.{
  ℕ, zero, suc, ◌+◌, ◌-◌, ◌*◌, ◌/◌, ◌%◌, ◌^◌, ◌≤◌, ◌<◌, ◌≡◌, ◌≢◌, sym, ap, ◌∙◌, List, arith, length,
  get_or, bit_and,
}
use nethex.Base.Bits.{bit_and_mask}
use native.Mathlib.Nat.{pow-suc, mul-add-mod_self_left, div-add-mod, mul-le-mul_left}
use native.Mathlib.Decide.{dec_lt}
use nethex.LockFreeQueue.{Queue}

pow_of_eq : {a b : ℕ} → a ≡ b → 2 ^ a ≡ 2 ^ b
pow_of_eq e = ap (λ (t : ℕ). 2 ^ t) e

pow_split : (j k : ℕ) → 2 ^ (j + k) ≡ 2 ^ k * 2 ^ j
pow_split zero k = pow_of_eq {a = 0 + k} {b = k} (omega arith) ∙ omega arith
pow_split (suc j) k =
    pow_of_eq {a = suc j + k} {b = suc (j + k)} (omega arith)
    ∙ omega (arith, pow-suc 2 (j + k), pow_split j k, ap (λ (t : ℕ). 2 ^ k * t) (pow-suc 2 j))

-- Reducing by 2^64 first does not change the slot.
mod-mod_pow : (k n : ℕ) → k ≤ 64 → n % 2 ^ 64 % 2 ^ k ≡ n % 2 ^ k
mod-mod_pow k n h =
    sym (ap (λ (t : ℕ). t % 2 ^ k) split ∙ mul-add-mod_self_left (2 ^ k) _ (n % 2 ^ 64))
  where
    whole : 2 ^ 64 ≡ 2 ^ k * 2 ^ (64 - k)
    whole = pow_of_eq {a = 64} {b = 64 - k + k} (omega arith) ∙ pow_split (64 - k) k

    split : n ≡ 2 ^ k * (2 ^ (64 - k) * (n / 2 ^ 64)) + n % 2 ^ 64
    split = omega (arith, ap (λ (t : ℕ). t * (n / 2 ^ 64)) whole)

pub index_lem : (k n : ℕ) → k ≤ 64 → bit_and (n % 2 ^ 64) (2 ^ k - 1) ≡ n % 2 ^ k
index_lem k n h = bit_and_mask k (n % 2 ^ 64) ∙ mod-mod_pow k n h

-- Different items of the window lie in different slots.
pub slot-ne : (c i j : ℕ) → i < j → j < i + c → i % c ≢ j % c
slot-ne c i j lt near e = elim (dec_lt (i / c) (j / c)) [
  | yes p ↦ grind (arith, div-add-mod i c, div-add-mod j c, mul-le-mul_left c p)
  | no p ↦ grind (arith, div-add-mod i c, div-add-mod j c)
]

-- A queue of 2^k slots after the pushes of `sent` and the pops of `received`.
pub record Holds {T : Type 0} (d : T) (k : ℕ) (q : Queue T) (sent received : List T) : Type 0 where
  pub exponent : k ≤ 63
  pub capacity : q.capacity ≡ 2 ^ k
  pub mask : q.mask ≡ 2 ^ k - 1
  pub slots : length q.buffer ≡ 2 ^ k
  pub head : q.head ≡ length sent % 2 ^ 64
  pub tail : q.tail ≡ length received % 2 ^ 64
  pub order : length received ≤ length sent
  pub room : length sent ≤ length received + 2 ^ k
  -- The buffer holds what is pushed and not popped, and what is popped is what was pushed.
  pub kept :
      (j : ℕ)
      → length received ≤ j
      → j < length sent
      → get_or q.buffer (j % 2 ^ k) d ≡ get_or sent j d
  pub fifo : (j : ℕ) → j < length received → get_or received j d ≡ get_or sent j d
