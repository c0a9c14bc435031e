-- ===== src/Base/Counts.antt =====
-- How often a number stands in a list.
use Prim.Native.Nat.{ℕ, zero, suc, ◌+◌, ◌≤◌, ◌<◌}
use mathlib.Core.Path.{◌≡◌, refl}
use mathlib.Core.Bool.{Bool, true, false}
use mathlib.Core.List.{List, [], ◌∷◌, ◌++◌}
use native.Mathlib.Omega.{arith}
use nethex.Base.Tests.{◌==◌, if◌then◌else◌}
use nethex.Base.Lists.{length, get_or, set}

-- One for a true flag.
abbrev pub flag : Bool → ℕ
flag true = 1
flag false = 0

abbrev pub copies : ℕ → List ℕ → ℕ
copies wanted [] = 0
copies wanted (front ∷ rest) = flag (front == wanted) + copies wanted rest

abbrev pub count_true : List Bool → ℕ
count_true [] = 0
count_true (b ∷ bs) = flag b + count_true bs

pub copies_snoc :
    (s last : ℕ) (q : List ℕ) → copies s (q ++ last ∷ []) ≡ copies s q + flag (last == s)
copies_snoc s last [] = omega arith
copies_snoc s last (front ∷ q) = omega (arith, copies_snoc s last q)

pub count_true-set :
    (bs : List Bool) (i : ℕ) (b : Bool)
    → i < length bs
    → count_true (set bs i b) + flag (get_or bs i false) ≡ count_true bs + flag b
count_true-set [] i b h = absurd (omega arith)
count_true-set (x ∷ bs) zero b h = omega arith
count_true-set (x ∷ bs) (suc i) b h = omega (arith, count_true-set bs i b (omega arith))

-- The list without the element at one place.
abbrev pub remove_at : List ℕ → ℕ → List ℕ
remove_at [] i = []
remove_at (x ∷ xs) zero = xs
remove_at (x ∷ xs) (suc i) = x ∷ remove_at xs i

pub copies-remove_at :
    (a : ℕ) (xs : List ℕ) (i : ℕ)
    → i < length xs
    → copies a xs ≡ flag (get_or xs i 0 == a) + copies a (remove_at xs i)
copies-remove_at a [] i h = absurd (omega arith)
copies-remove_at a (x ∷ xs) zero h = refl
copies-remove_at a (x ∷ xs) (suc i) h = omega (arith, copies-remove_at a xs i (omega arith))

pub get_or_out {ℓ} : {A : Type ℓ} (xs : List A) (i : ℕ) (d : A) → length xs ≤ i → get_or xs i d ≡ d
get_or_out [] i d h = refl
get_or_out (x ∷ xs) zero d h = absurd (omega arith)
get_or_out (x ∷ xs) (suc i) d h = get_or_out xs i d (omega arith)

pub get_or-set {ℓ} :
    {A : Type ℓ} (xs : List A) (i j : ℕ) (v d : A)
    → i < length xs
    → get_or (set xs i v) j d ≡ (if i == j then v else get_or xs j d)
get_or-set [] i j v d h = absurd (omega arith)
get_or-set (x ∷ xs) zero zero v d h = refl
get_or-set (x ∷ xs) zero (suc j) v d h = ground arith
get_or-set (x ∷ xs) (suc i) zero v d h = ground arith
get_or-set (x ∷ xs) (suc i) (suc j) v d h = ground (arith, get_or-set xs i j v d)

-- A default more at the end is not seen.
pub get_or-default {ℓ} :
    {A : Type ℓ} (xs : List A) (d : A) (i : ℕ) → get_or (xs ++ (d ∷ [])) i d ≡ get_or xs i d
get_or-default [] d zero = refl
get_or-default [] d (suc i) = refl
get_or-default (x ∷ xs) d zero = refl
get_or-default (x ∷ xs) d (suc i) = get_or-default xs d i
