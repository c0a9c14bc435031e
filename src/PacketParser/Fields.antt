-- ===== src/PacketParser/Fields.antt =====
-- Where a number was written in network byte order, a parser that casts to a header and converts
-- its fields reads that number.
use nethex.Base.{
  ℕ, zero, suc, ◌+◌, ◌/◌, ◌%◌, ◌^◌, ◌≤◌, ◌<◌, ◌≡◌, refl, sym, ap, ◌∙◌, List, [], ◌∷◌, ◌++◌, arith,
  length, length-append, length-drop, drop-append, get_or, drop,
}
use nethex.Wire.{ByteOrder, ntoh16, ntoh32, u16_at, u32_at}
use nethex.Wire.Order.{ntoh16-load16, ntoh32-load32}

-- The array has these bytes from `k` to its end.
pub record IsAt (xs : List ℕ) (k : ℕ) (ys : List ℕ) : Type 0 where
  pub reached : k ≤ length xs
  pub rest : drop k xs ≡ ys

get_or-drop : (xs : List ℕ) (k i : ℕ) → get_or (drop k xs) i 0 ≡ get_or xs (k + i) 0
get_or-drop xs zero i = let e : i ≡ 0 + i = omega arith in ap (λ (j : ℕ). get_or xs j 0) e
get_or-drop [] (suc k) i = refl
get_or-drop (x ∷ xs) (suc k) i =
    let e : suc (k + i) ≡ suc k + i = omega arith in
    get_or-drop xs k i ∙ ap (λ (j : ℕ). get_or (x ∷ xs) j 0) e

drop_nothing : (n : ℕ) → drop {A = ℕ} n [] ≡ []
drop_nothing zero = refl
drop_nothing (suc n) = refl

drop-drop : (xs : List ℕ) (k m : ℕ) → drop (k + m) xs ≡ drop m (drop k xs)
drop-drop xs zero m = let e : 0 + m ≡ m = omega arith in ap (λ (j : ℕ). drop j xs) e
drop-drop [] (suc k) m = drop_nothing (suc k + m) ∙ sym (drop_nothing m)
drop-drop (x ∷ xs) (suc k) m =
    let e : suc k + m ≡ suc (k + m) = omega arith in
    ap (λ (j : ℕ). drop j (x ∷ xs)) e ∙ drop-drop xs k m

module _ {xs : List ℕ} {k : ℕ} {ys : List ℕ} (at : IsAt xs k ys) where
  pub length-IsAt : length xs ≡ k + length ys
  length-IsAt = omega (arith, at.reached, length-drop k xs, ap length at.rest)

  pub get_or-IsAt : {j : ℕ} (i : ℕ) → j ≡ k + i → get_or xs j 0 ≡ get_or ys i 0
  get_or-IsAt i e =
      ap (λ (j : ℕ). get_or xs j 0) e
      ∙ sym (get_or-drop xs k i)
      ∙ ap (λ (l : List ℕ). get_or l i 0) at.rest

  -- Past the bytes at its front.
  pub skip : (m : ℕ) {j : ℕ} → m ≤ length ys → j ≡ k + m → IsAt xs j (drop m ys)
  skip m h e = record {
    reached = omega (arith, length-IsAt, h, e);
    rest = ap (λ (j : ℕ). drop j xs) e ∙ drop-drop xs k m ∙ ap (drop m) at.rest;
  }

  -- A number written at `i` is read there.
  module _ (o : ByteOrder) (v : ℕ) {j : ℕ} (i : ℕ) (e : j ≡ k + i) where
    pub ntoh16-bytes16 :
        v < 2 ^ 16
        → get_or ys i 0 ≡ v / 0x100
        → get_or ys (i + 1) 0 ≡ v % 0x100
        → ntoh16 o (u16_at o xs j) ≡ v
    ntoh16-bytes16 h a b =
        let high : get_or xs j 0 ≡ v / 0x100 = get_or-IsAt i e ∙ a in
        let low : get_or xs (j + 1) 0 ≡ v % 0x100 = get_or-IsAt (i + 1) (omega (arith, e)) ∙ b in
        rw (high, low)
          (ntoh16-load16 o (v / 0x100) (v % 0x100) (omega arith) (omega arith) ∙ omega arith)

    pub ntoh32-bytes32 :
        v < 2 ^ 32
        → get_or ys i 0 ≡ v / 0x1000000
        → get_or ys (i + 1) 0 ≡ v / 0x10000 % 0x100
        → get_or ys (i + 2) 0 ≡ v / 0x100 % 0x100
        → get_or ys (i + 3) 0 ≡ v % 0x100
        → ntoh32 o (u32_at o xs j) ≡ v
    ntoh32-bytes32 h a b c d =
        let p : get_or xs j 0 ≡ v / 0x1000000 = get_or-IsAt i e ∙ a in
        let q : get_or xs (j + 1) 0 ≡ v / 0x10000 % 0x100 =
          get_or-IsAt (i + 1) (omega (arith, e)) ∙ b in
        let r : get_or xs (j + 2) 0 ≡ v / 0x100 % 0x100 =
          get_or-IsAt (i + 2) (omega (arith, e)) ∙ c in
        let s : get_or xs (j + 3) 0 ≡ v % 0x100 = get_or-IsAt (i + 3) (omega (arith, e)) ∙ d in
        rw (p, q, r, s)
          (ntoh32-load32 o (v / 0x1000000) (v / 0x10000 % 0x100) (v / 0x100 % 0x100) (v % 0x100)
              (omega arith) (omega arith) (omega arith) (omega arith)
            ∙ omega arith)

pub past :
    {xs : List ℕ} {k j : ℕ} (front : List ℕ) {ys : List ℕ}
    → IsAt xs k (front ++ ys)
    → j ≡ k + length front
    → IsAt xs j ys
past {k = k} front {ys = ys} at e = record {
  reached = omega (arith, length-IsAt at, length-append front ys, e);
  rest =
      (skip at (length front) (omega (arith, length-append front ys)) e).rest
      ∙ drop-append front ys;
}
