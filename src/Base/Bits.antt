-- ===== src/Base/Bits.antt =====
-- Facts about `&` and `|` at variables.
use Prim.Native.Nat.{
  ℕ, zero, suc, ◌+◌, ◌-◌, ◌*◌, ◌/◌, ◌%◌, ◌^◌, ◌≤◌, ◌<◌, min, max, bit_and, bit_or, digits,
  bit_and-bitwise, bit_or-bitwise,
}
use mathlib.Core.Path.{◌≡◌, refl, sym, ◌∙◌, ap}
use native.Mathlib.Nat.{pow-suc, mul-add-mod_self_left, mod-eq_of_lt, mod-lt, div-add-mod}
use native.Mathlib.Omega.{arith}

-- `&` as the library defines it, digit by digit, with fuel of its own.
abbrev conjunction : ℕ → ℕ → ℕ → ℕ
conjunction fuel x mask = digits (λ _. 0) min fuel x mask

conjunction-zero : (fuel mask : ℕ) → conjunction fuel 0 mask ≡ 0
conjunction-zero zero mask = refl
conjunction-zero (suc fuel) mask = refl

-- Fuel for every digit is enough.
conjunction_settled : (x f g mask : ℕ) → x ≤ f → x ≤ g → conjunction f x mask ≡ conjunction g x mask
conjunction_settled zero f g mask le_f le_g =
    conjunction-zero f mask ∙ sym (conjunction-zero g mask)
conjunction_settled (suc x) zero g mask le_f le_g = absurd (omega arith)
conjunction_settled (suc x) (suc f) zero mask le_f le_g = absurd (omega arith)
conjunction_settled (suc x) (suc f) (suc g) mask le_f le_g =
    let higher : conjunction f (suc x / 2) (mask / 2) ≡ conjunction g (suc x / 2) (mask / 2) =
      conjunction_settled (suc x / 2) f g (mask / 2) (omega arith) (omega arith) in
    ap (λ (t : ℕ). t * 2 + min (suc x % 2) (mask % 2)) higher

-- The lowest digits meet, and the rest is the conjunction of the halves.
pub bit_and-halves :
    (x mask : ℕ) → bit_and x mask ≡ bit_and (x / 2) (mask / 2) * 2 + min (x % 2) (mask % 2)
bit_and-halves zero mask =
    let nothing : bit_and 0 mask ≡ 0 = bit_and-bitwise 0 mask in
    let nor_above : bit_and 0 (mask / 2) ≡ 0 = bit_and-bitwise 0 (mask / 2) in omega arith
bit_and-halves (suc x) mask =
    let above : bit_and (suc x / 2) (mask / 2) ≡ conjunction x (suc x / 2) (mask / 2) =
      bit_and-bitwise (suc x / 2) (mask / 2)
      ∙ conjunction_settled (suc x / 2) (suc x / 2) x (mask / 2) (omega arith) (omega arith) in
    bit_and-bitwise (suc x) mask ∙ ap (λ (t : ℕ). t * 2 + min (suc x % 2) (mask % 2)) (sym above)

no_mask_within : (bound x : ℕ) → x ≤ bound → bit_and x 0 ≡ 0
no_mask_within bound zero le = refl
no_mask_within zero (suc x) le = absurd (omega arith)
no_mask_within (suc bound) (suc x) le =
    bit_and-halves (suc x) 0 ∙ omega (arith, no_mask_within bound (suc x / 2) (omega arith))

-- An empty mask keeps nothing.
bit_and_no_mask : (x : ℕ) → bit_and x 0 ≡ 0
bit_and_no_mask x = no_mask_within x x (omega arith)

pub pow-pos : (k : ℕ) → 0 < 2 ^ k
pow-pos zero = omega arith
pow-pos (suc k) = omega (arith, pow-suc 2 k, pow-pos k)

mod_double : (a m : ℕ) → 0 < m → a % (2 * m) ≡ a / 2 % m * 2 + a % 2
mod_double a m h =
    ap (λ (t : ℕ). t % (2 * m)) split
    ∙ mul-add-mod_self_left (2 * m) (a / 2 / m) (a / 2 % m * 2 + a % 2)
    ∙ mod-eq_of_lt (omega (arith, mod-lt (a / 2) h))
  where
    split : a ≡ 2 * m * (a / 2 / m) + (a / 2 % m * 2 + a % 2)
    split = omega (arith, div-add-mod (a / 2) m)

-- A mask of `k` ones keeps the low `k` bits.
pub bit_and_mask : (k a : ℕ) → bit_and a (2 ^ k - 1) ≡ a % 2 ^ k
bit_and_mask zero a = omega (arith, bit_and_no_mask a)
bit_and_mask (suc k) a =
    bit_and-halves a (2 ^ suc k - 1)
    ∙ ap (λ (t : ℕ). bit_and (a / 2) t * 2 + min (a % 2) ((2 ^ suc k - 1) % 2)) half
    ∙ omega (arith, bit_and_mask k (a / 2), odd, mod_double a (2 ^ k) (pow-pos k), widen)
  where
    odd : (2 ^ suc k - 1) % 2 ≡ 1
    odd = omega (arith, pow-suc 2 k, pow-pos k)

    widen : a % 2 ^ suc k ≡ a % (2 * 2 ^ k)
    widen = ap (λ (t : ℕ). a % t) (omega (arith, pow-suc 2 k))

    half : (2 ^ suc k - 1) / 2 ≡ 2 ^ k - 1
    half = omega (arith, pow-suc 2 k, pow-pos k)

-- `|` digit by digit, with fuel of its own.
abbrev disjunction : ℕ → ℕ → ℕ → ℕ
disjunction fuel x y = digits (λ b. b) max fuel x y

disjunction_none : (fuel x : ℕ) → x ≤ fuel → disjunction fuel x 0 ≡ x
disjunction_none zero zero le = refl
disjunction_none zero (suc x) le = absurd (omega arith)
disjunction_none (suc fuel) zero le = refl
disjunction_none (suc fuel) (suc x) le =
    omega (arith, disjunction_none fuel (suc x / 2) (omega arith))

-- Below a number that ends in `k` zeros there is room for one of `k` bits.
disjunction_room :
    (k fuel c x y : ℕ) → x ≡ c * 2 ^ k → x ≤ fuel → y < 2 ^ k → disjunction fuel x y ≡ x + y
disjunction_room k zero c zero y e le small = omega arith
disjunction_room k zero c (suc x) y e le small = absurd (omega arith)
disjunction_room k (suc fuel) c zero y e le small = omega arith
disjunction_room zero (suc fuel) c (suc x) zero e le small =
    disjunction_none (suc fuel) (suc x) le ∙ omega arith
disjunction_room zero (suc fuel) c (suc x) (suc y) e le small = absurd (omega arith)
disjunction_room (suc k) (suc fuel) c (suc x) y e le small =
    let even : suc x ≡ 2 * (c * 2 ^ k) = omega (arith, ap (λ (t : ℕ). c * t) (pow-suc 2 k), e) in
    let above =
      disjunction_room k fuel c (suc x / 2) (y / 2) (omega arith) (omega arith)
        (omega (arith, pow-suc 2 k)) in
    omega (arith, above)

-- Two bytes side by side.
pub bit_or_bytes : (a b : ℕ) → b < 0x100 → bit_or (a * 2 ^ 8) b ≡ a * 0x100 + b
bit_or_bytes a b h =
    bit_or-bitwise (a * 2 ^ 8) b
    ∙ disjunction_room 8 (a * 2 ^ 8) a (a * 2 ^ 8) b refl (omega arith) (omega arith)

-- The two topmost bits of a byte.
pub bit_and_top : (x : ℕ) → x < 0x100 → bit_and x 0xC0 ≡ x / 0x40 * 0x40
bit_and_top x h = omega (
  arith,
  bit_and-halves x 0xC0,
  bit_and-halves (x / 2) 0x60,
  bit_and-halves (x / 2 / 2) 0x30,
  bit_and-halves (x / 2 / 2 / 2) 0x18,
  bit_and-halves (x / 2 / 2 / 2 / 2) 0x0C,
  bit_and-halves (x / 2 / 2 / 2 / 2 / 2) 0x06,
  bit_and_mask 2 (x / 2 / 2 / 2 / 2 / 2 / 2),
)

-- A mask whose lowest digit is 0 reads past the number's.
bit_and-double : (x mask : ℕ) → bit_and x (mask * 2) ≡ bit_and (x / 2) mask * 2
bit_and-double x mask =
    let half : mask * 2 / 2 ≡ mask = omega arith in
    let same : bit_and (x / 2) (mask * 2 / 2) ≡ bit_and (x / 2) mask = ap (bit_and (x / 2)) half in
    omega (arith, bit_and-halves x (mask * 2), same)

-- A single bit.
pub bit_and_bit13 : (x : ℕ) → bit_and x 0x2000 ≡ x / 0x2000 % 2 * 0x2000
bit_and_bit13 x = omega (
  arith,
  bit_and-double x 0x1000,
  bit_and-double (x / 2) 0x800,
  bit_and-double (x / 2 / 2) 0x400,
  bit_and-double (x / 2 / 2 / 2) 0x200,
  bit_and-double (x / 2 / 2 / 2 / 2) 0x100,
  bit_and-double (x / 2 / 2 / 2 / 2 / 2) 0x80,
  bit_and-double (x / 2 / 2 / 2 / 2 / 2 / 2) 0x40,
  bit_and-double (x / 2 / 2 / 2 / 2 / 2 / 2 / 2) 0x20,
  bit_and-double (x / 2 / 2 / 2 / 2 / 2 / 2 / 2 / 2) 0x10,
  bit_and-double (x / 2 / 2 / 2 / 2 / 2 / 2 / 2 / 2 / 2) 0x8,
  bit_and-double (x / 2 / 2 / 2 / 2 / 2 / 2 / 2 / 2 / 2 / 2) 0x4,
  bit_and-double (x / 2 / 2 / 2 / 2 / 2 / 2 / 2 / 2 / 2 / 2 / 2) 0x2,
  bit_and-double (x / 2 / 2 / 2 / 2 / 2 / 2 / 2 / 2 / 2 / 2 / 2 / 2) 0x1,
  bit_and_mask 1 (x / 2 / 2 / 2 / 2 / 2 / 2 / 2 / 2 / 2 / 2 / 2 / 2 / 2),
)
