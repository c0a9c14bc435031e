-- ===== src/Base/Outcomes.antt =====
-- The result of code that reads memory through a pointer and a length: it succeeds, it returns
-- false on input that it refuses, it reads outside the bytes it was given, or the model's fuel
-- for a loop is used up.
use Prim.Native.Nat.{ℕ, ◌+◌, ◌%◌, ◌^◌, ◌<◌, ◌≤◌, compare, Ordering}
use mathlib.Core.Path.{◌≡◌, refl}
use mathlib.Core.Logic.{◌⊎◌, inl, inr}
use mathlib.Core.Bool.{Bool, true, false}
use mathlib.Core.List.{List, [], ◌∷◌, ◌++◌}
use mathlib.Core.Option.{none, some}
use native.Mathlib.Omega.{arith}
use nethex.Base.Lists.{get_elem?, get_or, get_elem?-eq-get_or, length}

-- The sum of two `uint32_t`.
abbrev pub add32 : ℕ → ℕ → ℕ
add32 a b = (a + b) % 2 ^ 32

pub data Outcome {ℓ} (A : Type ℓ) : Type ℓ where
  accept : A → Outcome A
  reject : Outcome A
  fault : Outcome A
  starved : Outcome A

infixl 5 ◌>>=◌ ◌>>◌
abbrev pub ◌>>=◌ {ℓ κ} : {A : Type ℓ} {B : Type κ} → Outcome A → (A → Outcome B) → Outcome B
accept a >>= f = f a
reject >>= f = reject
fault >>= f = fault
starved >>= f = starved

abbrev pub ◌>>◌ {ℓ} : {B : Type ℓ} → Outcome (Unit {0}) → Outcome B → Outcome B
m >> k = m >>= λ _. k

-- `if (bad) return false;`
abbrev pub reject_if : Bool → Outcome (Unit {0})
reject_if true = reject
reject_if false = accept tt

-- The code comes back to its caller, and what it hands over has the property.
abbrev pub Returns {ℓ} : {A : Type ℓ} → (A → Type 0) → Outcome A → Type 0
Returns P (accept a) = P a
Returns P reject = Unit
Returns P fault = ⊥
Returns P starved = ⊥

-- `data[i]`, where the array holds the listed bytes and no more.
abbrev pub read : List ℕ → ℕ → Outcome ℕ
read bytes i = elim (get_elem? bytes i) [ none ↦ fault | some b ↦ accept b ]

pub read_in_bounds :
    (bytes : List ℕ) (i : ℕ) → i < length bytes → read bytes i ≡ accept (get_or bytes i 0)
read_in_bounds bytes i h = rw (get_elem?-eq-get_or bytes i 0 h, read)

-- The byte range that a cast of a pointer to a packed struct of `size` bytes makes readable.
abbrev pub in_array {ℓ} : {A : Type ℓ} → List A → ℕ → ℕ → Outcome (Unit {0})
in_array bytes offset size = elim (compare (length bytes) (offset + size)) [
  | Ordering.lt ↦ fault
  | _ ↦ accept tt
]

pub in_array_ok {ℓ} :
    {A : Type ℓ} (bytes : List A) (offset size : ℕ)
    → offset + size ≤ length bytes
    → in_array bytes offset size ≡ accept tt
in_array_ok bytes offset size h = ground arith

-- Rules for a chain of steps: a guard that passes, an access in bounds, a step with a known result.
module _ {ℓ} {A : Type ℓ} (P : A → Type 0) where
  pub guard_rule :
      (c : Bool) (rest : Outcome A) → (c ≡ false → Returns P rest) → Returns P (reject_if c >> rest)
  guard_rule true rest h = tt
  guard_rule false rest h = h refl

  pub in_array_rule :
      (bytes : List ℕ) (offset size : ℕ) (rest : Outcome A)
      → offset + size ≤ length bytes
      → Returns P rest
      → Returns P (in_array bytes offset size >> rest)
  in_array_rule bytes offset size rest h r = rw (in_array_ok bytes offset size h) r

  pub read_rule :
      (bytes : List ℕ) (i : ℕ) (rest : ℕ → Outcome A)
      → i < length bytes
      → Returns P (rest (get_or bytes i 0))
      → Returns P (read bytes i >>= rest)
  read_rule bytes i rest h r = rw (read_in_bounds bytes i h) r

  pub bind_rule {κ} :
      {B : Type κ} (Q : B → Type 0) (m : Outcome B) (rest : B → Outcome A)
      → Returns Q m
      → ((b : B) → Q b → Returns P (rest b))
      → Returns P (m >>= rest)
  bind_rule Q (accept b) rest h k = k b h
  bind_rule Q reject rest h k = tt
  bind_rule Q fault rest h k = absurd h
  bind_rule Q starved rest h k = absurd h

pub Returns-mono {ℓ} :
    {A : Type ℓ} (P Q : A → Type 0) (m : Outcome A)
    → ((a : A) → P a → Q a)
    → Returns P m
    → Returns Q m
Returns-mono P Q (accept a) k h = k a h
Returns-mono P Q reject k h = tt
Returns-mono P Q fault k h = absurd h
Returns-mono P Q starved k h = absurd h

pub accept-injective {ℓ} : {A : Type ℓ} {a b : A} → accept a ≡ accept b → a ≡ b
accept-injective e = cc

pub Returns-cases {ℓ} :
    {A : Type ℓ} (P : A → Type 0) (m : Outcome A)
    → Returns P m
    → ((a : A) × (m ≡ accept a) × P a) ⊎ (m ≡ reject)
Returns-cases P (accept a) h = inl (a, refl, h)
Returns-cases P reject h = inr refl
Returns-cases P fault h = absurd h
Returns-cases P starved h = absurd h

-- The code comes back to its caller with a value.
abbrev pub Yields {ℓ} : {A : Type ℓ} → (A → Type 0) → Outcome A → Type 0
Yields P (accept a) = P a
Yields P reject = ⊥
Yields P fault = ⊥
Yields P starved = ⊥

pub Yields-cases {ℓ} :
    {A : Type ℓ} (P : A → Type 0) (m : Outcome A) → Yields P m → (a : A) × (m ≡ accept a) × P a
Yields-cases P (accept a) h = (a, refl, h)
Yields-cases P reject h = absurd h
Yields-cases P fault h = absurd h
Yields-cases P starved h = absurd h

pub read-behind : (xs : List ℕ) (b : ℕ) (ys : List ℕ) → read (xs ++ (b ∷ ys)) (length xs) ≡ accept b
read-behind [] b ys = refl
read-behind (x ∷ xs) b ys = read-behind xs b ys
