-- ===== src/IpDefragmenter/Coverage.antt =====
-- What the two vectors of a buffer hold after a fragment, byte by byte.
use nethex.Base.{
  ℕ, zero, suc, ◌+◌, ◌-◌, ◌≤◌, ◌<◌, ◌≡◌, refl, ap₂, Bool, true, false, ◌&&◌, List, [], ◌∷◌, ◌++◌,
  arith, length, length-take, get_or, take, drop, replicate, ltb, leb, if◌then◌else◌,
}
use nethex.Base.Counts.{get_or_out}
use nethex.IpDefragmenter.{resize, overwrite, all_received, is_fully_covered}

module _ {ℓ} {A : Type ℓ} where
  pub get_or-append :
      (xs ys : List A) (i : ℕ) (d : A)
      → get_or (xs ++ ys) i d
        ≡ (if ltb i (length xs) then get_or xs i d else get_or ys (i - length xs) d)
  get_or-append [] ys i d = ground arith
  get_or-append (x ∷ xs) ys zero d = ground arith
  get_or-append (x ∷ xs) ys (suc i) d = ground (arith, get_or-append xs ys i d)

  pub get_or-take :
      (n : ℕ) (xs : List A) (i : ℕ) (d : A)
      → get_or (take n xs) i d ≡ (if ltb i n then get_or xs i d else d)
  get_or-take zero xs i d = ground arith
  get_or-take (suc n) [] i d = ground arith
  get_or-take (suc n) (x ∷ xs) zero d = ground arith
  get_or-take (suc n) (x ∷ xs) (suc i) d = ground (arith, get_or-take n xs i d)

  pub get_or-drop :
      (n : ℕ) (xs : List A) (i : ℕ) (d : A) → get_or (drop n xs) i d ≡ get_or xs (n + i) d
  get_or-drop zero xs i d = ground arith
  get_or-drop (suc n) [] i d = refl
  get_or-drop (suc n) (x ∷ xs) i d = ground (arith, get_or-drop n xs i d)

  pub get_or-replicate : (n : ℕ) (a : A) (i : ℕ) → get_or (replicate n a) i a ≡ a
  get_or-replicate zero a i = refl
  get_or-replicate (suc n) a zero = refl
  get_or-replicate (suc n) a (suc i) = get_or-replicate n a i

  pub get_or-replicate_in : (n : ℕ) (a : A) (i : ℕ) (d : A) → i < n → get_or (replicate n a) i d ≡ a
  get_or-replicate_in zero a i d h = absurd (omega arith)
  get_or-replicate_in (suc n) a zero d h = refl
  get_or-replicate_in (suc n) a (suc i) d h = get_or-replicate_in n a i d (omega arith)

module _ {A : Type 0} where
  -- A vector that grows has the filling behind its old end, which is the default too.
  pub get_or-resize :
      (n : ℕ) (a : A) (xs : List A) (i : ℕ)
      → length xs ≤ n
      → get_or (resize n a xs) i a ≡ get_or xs i a
  get_or-resize n a xs i h = ground (
    arith,
    get_or-append (take n xs) (replicate (n - length xs) a) i a,
    get_or-take n xs i a,
    length-take n xs,
    get_or-replicate (n - length xs) a (i - length (take n xs)),
    get_or_out xs i a,
  )

  pub get_or-overwrite :
      (xs : List A) (at : ℕ) (ys : List A) (i : ℕ) (d : A)
      → at + length ys ≤ length xs
      → get_or (overwrite xs at ys) i d
        ≡ (if leb at i && ltb i (at + length ys) then get_or ys (i - at) d else get_or xs i d)
  get_or-overwrite xs at ys i d h = ground (
    arith,
    get_or-append (take at xs) (ys ++ drop (at + length ys) xs) i d,
    get_or-take at xs i d,
    length-take at xs,
    get_or-append ys (drop (at + length ys) xs) (i - length (take at xs)) d,
    get_or-drop (at + length ys) xs (i - length (take at xs) - length ys) d,
  )

-- The first `n` places are all covered.
abbrev pub all_below : ℕ → (ℕ → Bool) → Bool
all_below zero covered = true
all_below (suc n) covered = covered 0 && all_below n (λ i. covered (suc i))

pub all_below-at :
    (n : ℕ) (covered : ℕ → Bool) (i : ℕ) → all_below n covered ≡ true → i < n → covered i ≡ true
all_below-at zero covered i h l = absurd (omega arith)
all_below-at (suc n) covered zero h l = ground arith
all_below-at (suc n) covered (suc i) h l =
    all_below-at n (λ k. covered (suc k)) i (ground arith) (omega arith)

pub all_below-ext :
    (n : ℕ) (c c' : ℕ → Bool) → ((i : ℕ) → c i ≡ c' i) → all_below n c ≡ all_below n c'
all_below-ext zero c c' h = refl
all_below-ext (suc n) c c' h =
    ap₂ ◌&&◌ (h 0) (all_below-ext n (λ i. c (suc i)) (λ i. c' (suc i)) (λ i. h (suc i)))

pub is_fully_covered-all_below :
    (received : List Bool) (n : ℕ)
    → is_fully_covered received n ≡ all_below n (λ i. get_or received i false)
unfolding is_fully_covered all_received
is_fully_covered-all_below [] zero = ground arith
is_fully_covered-all_below [] (suc n) = ground arith
is_fully_covered-all_below (r ∷ received) zero = ground arith
is_fully_covered-all_below (r ∷ received) (suc n) =
    ground (arith, is_fully_covered-all_below received n)
