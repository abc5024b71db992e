-- ===== src/Ctype.antt =====
-- tunnel/tools/amneziawg-tools/src/ctype.h: character classes without branches or locale.
-- The argument is a C `int` as its 32-bit pattern; `char_to_int` promotes a `char` to it.

pub mod Laws
use special_potato.Prelude.{
  ℕ, ◌-◌, ◌^◌, ◌/◌, ◌*◌, ◌%◌, ◌+◌, bit_and, bit_or, Bool, not, ◌==◌, sub32, shr, u8,
}

-- `unsigned char d = c - 9`, then a bit of `0x80001F` and a test that `d` is below 32.
unfoldable pub char_is_space : ℕ → Bool
char_is_space c =
    let d = u8 (sub32 c 9) in not (bit_and (shr 0x80001F (bit_and d 31)) (shr 1 (shr d 5)) == 0)

unfoldable pub char_is_digit : ℕ → Bool
char_is_digit c = not (shr (bit_and (sub32 (b'0' - 1) c) (sub32 c (b'9' + 1))) 31 == 0)

unfoldable pub char_is_alpha : ℕ → Bool
char_is_alpha c =
    let d = bit_or c 32 in not (shr (bit_and (sub32 (b'a' - 1) d) (sub32 d (b'z' + 1))) 31 == 0)
