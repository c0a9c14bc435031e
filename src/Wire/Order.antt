-- ===== src/Wire/Order.antt =====
-- Both byte orders read a header field as the same number: its bytes, most significant first.
use nethex.Base.{
  ℕ, ◌+◌, ◌*◌, ◌^◌, ◌<◌, ◌≡◌, refl, List, arith, get_or, All, All-get_or, ap, length, accept, ◌>>=◌,
  add32, read_in_bounds,
}
use nethex.Base.Bits.{bit_or_bytes}
use nethex.Wire.{
  ByteOrder, little, big, load16, load32, ntoh16, ntoh32, hton16, hton32, u16_at, read_u16,
}

abbrev pub IsByte : ℕ → Type 0
IsByte b = b < 0x100

-- The number that two and four bytes stand for in network byte order.
abbrev pub be16 : ℕ → ℕ → ℕ
be16 a b = a * 0x100 + b

abbrev pub be32 : ℕ → ℕ → ℕ → ℕ → ℕ
be32 a b c d = ((a * 0x100 + b) * 0x100 + c) * 0x100 + d

pub ntoh16-load16 :
    (o : ByteOrder) (a b : ℕ) → a < 0x100 → b < 0x100 → ntoh16 o (load16 o a b) ≡ be16 a b
unfolding ntoh16 load16
ntoh16-load16 little a b ha hb = omega arith
ntoh16-load16 big a b ha hb = omega arith

pub ntoh32-load32 :
    (o : ByteOrder) (a b c d : ℕ)
    → a < 0x100
    → b < 0x100
    → c < 0x100
    → d < 0x100
    → ntoh32 o (load32 o a b c d) ≡ be32 a b c d
unfolding ntoh32 load32
ntoh32-load32 little a b c d ha hb hc hd = omega arith
ntoh32-load32 big a b c d ha hb hc hd = omega arith

-- In a byte array, whatever the host.
-- A number converted to network order and back is itself, on either host.
ntoh16-hton16 : (o : ByteOrder) (v : ℕ) → v < 2 ^ 16 → ntoh16 o (hton16 o v) ≡ v
unfolding ntoh16 hton16
ntoh16-hton16 big v h = refl
ntoh16-hton16 little v h = omega arith

ntoh32-hton32 : (o : ByteOrder) (v : ℕ) → v < 2 ^ 32 → ntoh32 o (hton32 o v) ≡ v
unfolding ntoh32 hton32
ntoh32-hton32 big v h = refl
ntoh32-hton32 little v h = omega arith

module _ (o : ByteOrder) (xs : List ℕ) (v : All IsByte xs) where
  pub byte_at-lt : (i : ℕ) → get_or xs i 0 < 0x100
  byte_at-lt i = All-get_or IsByte xs i 0 v (omega arith)

  pub ntoh16-u16_at :
      (i : ℕ) → ntoh16 o (u16_at o xs i) ≡ be16 (get_or xs i 0) (get_or xs (i + 1) 0)
  ntoh16-u16_at i = ntoh16-load16 o _ _ (byte_at-lt i) (byte_at-lt (i + 1))

  pub ntoh16-lt : (i : ℕ) → ntoh16 o (u16_at o xs i) < 2 ^ 16
  ntoh16-lt i = omega (arith, ntoh16-u16_at i, byte_at-lt i, byte_at-lt (i + 1))

module _ (xs : List ℕ) (v : All IsByte xs) where
  pub read_u16_lem :
      (i : ℕ)
      → i + 1 < length xs
      → i + 1 < 2 ^ 32
      → read_u16 xs i ≡ accept (be16 (get_or xs i 0) (get_or xs (i + 1) 0))
  unfolding read_u16
  read_u16_lem i inside small =
      let on : add32 i 1 ≡ i + 1 = omega arith in
      let high = read_in_bounds xs i (omega arith) in
      let low = read_in_bounds xs (i + 1) inside in
      rw (on, high, low, ◌>>=◌)
        (ap accept (
          omega (
            arith,
            bit_or_bytes (get_or xs i 0) (get_or xs (i + 1) 0) (byte_at-lt big xs v (i + 1)),
            byte_at-lt big xs v i,
            byte_at-lt big xs v (i + 1),
          )))
