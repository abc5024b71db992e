-- ===== src/Encoding/Hex.antt =====
-- Keys as hexadecimal text: `key_to_hex` writes small letters, `key_from_hex` reads both cases.
pub mod RoundTrip
use special_potato.Prelude.{
  ℕ, ◌+◌, ◌-◌, ◌*◌, ◌/◌, ◌%◌, ◌<◌, Bool, true, ◌&&◌, ◌||◌, ◌≡◌, refl, ◌⊎◌, inl, inr, arith, leb,
  ltb, ◌==◌, ==_iff, if◌then◌else◌, bit_or, bit_and, u8, shr,
}
use special_potato.Prelude.Table.{all_below, agree_below, all_below_sound}
use special_potato.Prelude.Bits.{bit_or_disjoint, bit_and_mask}
use special_potato.Encoding.{hex_digit, hex_value}

-- Four bits as a small hexadecimal digit.
unfoldable pub hex_char : ℕ → ℕ
hex_char n = if leb n 9 then n + b'0' else n - 10 + b'a'

-- The value of a hexadecimal digit of either case, 16 at any other character.
unfoldable pub hex_of : ℕ → ℕ
hex_of c =
    if leb b'0' c && leb c b'9'
    then c - b'0'
    else if leb b'a' c && leb c b'f'
    then c - b'a' + 10
    else if leb b'A' c && leb c b'F'
    then c - b'A' + 10
    else 16

unfoldable pub lower : ℕ → ℕ
lower c = if leb b'A' c && leb c b'Z' then c + 32 else c

pub hex_digit-hex_char : (n : ℕ) → n < 16 → hex_digit n ≡ hex_char n
unfolding hex_digit hex_char all_below
hex_digit-hex_char = agree_below 16 hex_digit hex_char refl

pub hex_value_error : (c : ℕ) → c < 256 → (hex_value c).0 ≡ (if hex_of c == 16 then 255 else 0)
unfolding hex_value hex_of all_below
hex_value_error =
    agree_below 256 (λ c. (hex_value c).0) (λ c. if hex_of c == 16 then 255 else 0) refl

abbrev reads_digit : ℕ → Bool
reads_digit c = hex_of c == 16 || (hex_value c).1 == hex_of c

hex_value_digit : (c : ℕ) → c < 256 → reads_digit c ≡ true
unfolding hex_value hex_of all_below
hex_value_digit = all_below_sound 256 reads_digit refl

pub hex_value-hex_of : (c : ℕ) → c < 256 → hex_of c < 16 → (hex_value c).1 ≡ hex_of c
hex_value-hex_of c h v = ground (arith, hex_value_digit c h)

pub hex_char-hex_of : (c : ℕ) → hex_of c < 16 → hex_char (hex_of c) ≡ lower c
unfolding hex_char hex_of lower
hex_char-hex_of c h = ground arith

pub hex_of-hex_char : (n c : ℕ) → n < 16 → lower c ≡ hex_char n → hex_of c ≡ n
unfolding hex_char hex_of lower
hex_of-hex_char n c h e = ground arith

pub hex_of-le : (c : ℕ) → hex_of c < 17
unfolding hex_of
hex_of-le c = ground arith
