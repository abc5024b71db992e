-- ===== src/Encoding/Base64.antt =====
-- The digits of the base64 code against the alphabet of RFC 4648.
pub mod Groups
pub mod Keys
pub mod Sound
pub mod RoundTrip
pub mod Chars
use special_potato.Prelude.{
  ℕ, ◌+◌, ◌-◌, ◌^◌, ◌<◌, Bool, true, ◌&&◌, ◌≡◌, refl, leb, ◌==◌, if◌then◌else◌, arith,
}
use special_potato.Prelude.Table.{all_below, agree_below}
use special_potato.Encoding.{encode_digit, decode_digit}

-- The character of six bits.
unfoldable pub alphabet : ℕ → ℕ
alphabet n =
    if leb n 25
    then n + b'A'
    else if leb n 51
    then n - 26 + b'a'
    else if leb n 61
    then n - 52 + b'0'
    else if n == 62
    then b'+'
    else b'/'

-- The six bits of a character, 64 at none.
unfoldable pub digit_value : ℕ → ℕ
digit_value c =
    if leb b'A' c && leb c b'Z'
    then c - b'A'
    else if leb b'a' c && leb c b'z'
    then c - b'a' + 26
    else if leb b'0' c && leb c b'9'
    then c - b'0' + 52
    else if c == b'+'
    then 62
    else if c == b'/'
    then 63
    else 64

pub encode_digit-alphabet : (n : ℕ) → n < 64 → encode_digit n ≡ alphabet n
unfolding encode_digit all_below alphabet
encode_digit-alphabet = agree_below 64 encode_digit alphabet refl

abbrev pub minus_one_at_64 : ℕ → ℕ
minus_one_at_64 n = if n == 64 then 2 ^ 32 - 1 else n

pub decode_digit-digit_value :
    (signed : Bool) (c : ℕ) → c < 256 → decode_digit signed c ≡ minus_one_at_64 (digit_value c)
unfolding decode_digit all_below digit_value
decode_digit-digit_value true =
    agree_below 256 (decode_digit true) (λ c. minus_one_at_64 (digit_value c)) refl
decode_digit-digit_value signed =
    agree_below 256 (decode_digit signed) (λ c. minus_one_at_64 (digit_value c)) refl

pub digit_value-alphabet : (n : ℕ) → n < 64 → digit_value (alphabet n) ≡ n
unfolding digit_value alphabet
digit_value-alphabet n h = ground arith

pub alphabet-digit_value : (c : ℕ) → digit_value c < 64 → alphabet (digit_value c) ≡ c
unfolding digit_value alphabet
alphabet-digit_value c h = ground arith

pub alphabet-lt : (n : ℕ) → n < 64 → alphabet n < 128
unfolding alphabet
alphabet-lt n h = ground arith

pub digit_value-le : (c : ℕ) → digit_value c < 65
unfolding digit_value
digit_value-le c = ground arith
