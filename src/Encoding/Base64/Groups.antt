-- ===== src/Encoding/Base64/Groups.antt =====
-- One group of base64: three bytes, four characters.
use special_potato.Prelude.{
  ℕ, ◌+◌, ◌*◌, ◌/◌, ◌%◌, ◌^◌, ◌≤◌, ◌<◌, bit_and, bit_or, ◌-◌, ◌∙◌, Bool, [], ◌∷◌, ◌≡◌, ◌⊎◌, inl,
  inr, refl, arith, shl32,
}
use special_potato.Prelude.Bits.{
  bit_or_disjoint, bit_and_mask, bit_or_bounds, bit_or-eq-add, bit_or-lt-pow,
}
use special_potato.Encoding.{encode_base64, decode_base64, encode_digit, decode_digit}
use special_potato.Encoding.Base64.{
  alphabet, digit_value, encode_digit-alphabet, decode_digit-digit_value, digit_value-le,
}

-- Six bits, however they were cut out.
encode_six : (x y n : ℕ) → x ≡ bit_and y 63 → y % 64 ≡ n → encode_digit x ≡ alphabet n
encode_six x y n e h = rw e (rw (bit_and_mask 6 y) (rw h (encode_digit-alphabet n (omega arith))))

pub encode_base64-alphabet :
    (a b c : ℕ)
    → a < 256
    → b < 256
    → c < 256
    → encode_base64 a b c
      ≡ alphabet (a / 4)
        ∷ alphabet (a % 4 * 16 + b / 16)
        ∷ alphabet (b % 16 * 4 + c / 64)
        ∷ alphabet (c % 64)
        ∷ []
unfolding encode_base64
encode_base64-alphabet a b c p q r = cc (
  encode_six (bit_and (a / 4) 63) (a / 4) (a / 4) refl (omega arith),
  encode_six (bit_and (bit_or (a * 16) (b / 16)) 63) (bit_or (a * 16) (b / 16))
      (a % 4 * 16 + b / 16) refl (omega (arith, bit_or_disjoint 4 a (b / 16) (omega arith))),
  encode_six (bit_and (bit_or (b * 4) (c / 64)) 63) (bit_or (b * 4) (c / 64)) (b % 16 * 4 + c / 64)
      refl (omega (arith, bit_or_disjoint 2 b (c / 64) (omega arith))),
  encode_six (bit_and c 63) c (c % 64) refl refl,
)

-- A character of the alphabet, and any other.
digit_good :
    (signed : Bool) (c : ℕ) → c < 256 → digit_value c < 64 → decode_digit signed c ≡ digit_value c
digit_good signed c p h = decode_digit-digit_value signed c p ∙ ground arith

digit_bad :
    (signed : Bool) (c : ℕ) → c < 256 → 64 ≤ digit_value c → decode_digit signed c ≡ 2 ^ 32 - 1
digit_bad signed c p h = decode_digit-digit_value signed c p ∙ ground (arith, digit_value-le c)

four_digits :
    (a b c d : ℕ)
    → a < 64
    → b < 64
    → c < 64
    → d < 64
    → bit_or (bit_or (bit_or (bit_or 0 (shl32 a 18)) (shl32 b 12)) (shl32 c 6)) (shl32 d 0)
      ≡ a * 2 ^ 18 + b * 2 ^ 12 + c * 2 ^ 6 + d
four_digits a b c d p q r s =
    let first : bit_or 0 (shl32 a 18) ≡ a * 2 ^ 18 = omega (arith, bit_or_bounds 0 (shl32 a 18)) in
    let second =
      bit_or-eq-add 18 a (bit_or 0 (shl32 a 18)) (shl32 b 12) (omega (arith, first))
        (omega arith) in
    let two = bit_or (bit_or 0 (shl32 a 18)) (shl32 b 12) in
    let third =
      bit_or-eq-add 12 (a * 64 + b) two (shl32 c 6) (omega (arith, first, second)) (omega arith) in
    let three = bit_or two (shl32 c 6) in
    let last =
      bit_or-eq-add 6 (a * 4096 + b * 64 + c) three (shl32 d 0)
        (omega (arith, first, second, third)) (omega arith) in
    omega (arith, first, second, third, last)

or_four_bounds :
    (w x y z : ℕ)
    → let v = bit_or (bit_or (bit_or (bit_or 0 w) x) y) z in (w ≤ v) × (x ≤ v) × (y ≤ v) × (z ≤ v)
or_four_bounds w x y z = omega (
  arith,
  bit_or_bounds 0 w,
  bit_or_bounds (bit_or 0 w) x,
  bit_or_bounds (bit_or (bit_or 0 w) x) y,
  bit_or_bounds (bit_or (bit_or (bit_or 0 w) x) y) z,
)

-- Shifted left, -1 keeps its sign.
bad_shifted :
    (signed : Bool) (c : ℕ)
    → c < 256
    → 64 ≤ digit_value c
    → (2 ^ 31 ≤ shl32 (decode_digit signed c) 18)
      × (2 ^ 31 ≤ shl32 (decode_digit signed c) 12)
      × (2 ^ 31 ≤ shl32 (decode_digit signed c) 6)
      × (2 ^ 31 ≤ shl32 (decode_digit signed c) 0)
bad_shifted signed c p h = rw (digit_bad signed c p h) (omega arith)

-- Every round's value fits 32 bits.
pub decode_base64-lt : (signed : Bool) (c0 c1 c2 c3 : ℕ) → decode_base64 signed c0 c1 c2 c3 < 2 ^ 32
unfolding decode_base64
decode_base64-lt signed c0 c1 c2 c3 =
    let w = shl32 (decode_digit signed c0) 18 in
    let x = shl32 (decode_digit signed c1) 12 in
    let y = shl32 (decode_digit signed c2) 6 in
    let z = shl32 (decode_digit signed c3) 0 in
    let a = bit_or-lt-pow 32 0 w (omega arith) (omega arith) in
    let b = bit_or-lt-pow 32 (bit_or 0 w) x a (omega arith) in
    let c = bit_or-lt-pow 32 (bit_or (bit_or 0 w) x) y b (omega arith) in
    bit_or-lt-pow 32 (bit_or (bit_or (bit_or 0 w) x) y) z c (omega arith)

module _ (signed : Bool) (c0 c1 c2 c3 : ℕ) (p0 : c0 < 256) (p1 : c1 < 256) (p2 : c2 < 256)
    (p3 : c3 < 256) where
  -- Characters of the alphabet are read as the number whose digits they are.
  pub decode_base64-sum :
      digit_value c0 < 64
      → digit_value c1 < 64
      → digit_value c2 < 64
      → digit_value c3 < 64
      → decode_base64 signed c0 c1 c2 c3
        ≡ digit_value c0 * 2 ^ 18
          + digit_value c1 * 2 ^ 12
          + digit_value c2 * 2 ^ 6
          + digit_value c3
  unfolding decode_base64
  decode_base64-sum h0 h1 h2 h3 =
      rw
        (
          digit_good signed c0 p0 h0,
          digit_good signed c1 p1 h1,
          digit_good signed c2 p2 h2,
          digit_good signed c3 p3 h3,
        )
        (four_digits (digit_value c0) (digit_value c1) (digit_value c2) (digit_value c3) h0 h1 h2
          h3)

  -- Any other character sets the sign bit.
  pub decode_base64-negative :
      (64 ≤ digit_value c0)
        ⊎ ((64 ≤ digit_value c1) ⊎ ((64 ≤ digit_value c2) ⊎ (64 ≤ digit_value c3)))
      → 2 ^ 31 ≤ decode_base64 signed c0 c1 c2 c3
  unfolding decode_base64
  decode_base64-negative h =
      let bounds =
        or_four_bounds (shl32 (decode_digit signed c0) 18) (shl32 (decode_digit signed c1) 12)
          (shl32 (decode_digit signed c2) 6) (shl32 (decode_digit signed c3) 0) in
      elim h [
        | inl bad ↦ omega (arith, bounds, bad_shifted signed c0 p0 bad)
        | inr (inl bad) ↦ omega (arith, bounds, bad_shifted signed c1 p1 bad)
        | inr (inr (inl bad)) ↦ omega (arith, bounds, bad_shifted signed c2 p2 bad)
        | inr (inr (inr bad)) ↦ omega (arith, bounds, bad_shifted signed c3 p3 bad)
      ]
