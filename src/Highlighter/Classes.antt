-- ===== src/Highlighter/Classes.antt =====
-- highlighter.c: characters, the comparison of a span with a word, and `is_valid_key`. A span is the
-- list of its bytes. Where `char` is signed no test changes: all of them fail from 128 on.
pub mod Laws
use special_potato.Prelude.{
  ℕ, zero, suc, get_elem?, Option, none, some, bit_or, bit_and, Bool, true, false, not, ◌&&◌, ◌||◌,
  List, [], ◌∷◌, Bytes, codes, leb, ltb, ◌==◌, if◌then◌else◌, length,
}

unfoldable pub is_decimal : ℕ → Bool
is_decimal c = leb b'0' c && leb c b'9'

unfoldable pub is_hexadecimal : ℕ → Bool
unfolding is_decimal
is_hexadecimal c = is_decimal c || (leb b'a' (bit_or c 32) && leb (bit_or c 32) b'f')

unfoldable pub is_alphabet : ℕ → Bool
is_alphabet c = leb b'a' (bit_or c 32) && leb (bit_or c 32) b'z'

unfoldable pub is_same : Bytes → Bytes → Bool
is_same [] [] = true
is_same (c ∷ s) (d ∷ t) = c == d && is_same s t
is_same _ _ = false

-- `(unsigned)a - 'a' < 26`, and `a &= 95`.
abbrev upper : ℕ → ℕ
upper a = if leb b'a' a && leb a b'z' then bit_and a 95 else a

unfoldable pub is_caseless_same : Bytes → Bytes → Bool
is_caseless_same [] [] = true
is_caseless_same (c ∷ s) (d ∷ t) = upper c == upper d && is_caseless_same s t
is_caseless_same _ _ = false

abbrev any_of : ℕ → Bytes → Bool
any_of c [] = false
any_of c (d ∷ s) = c == d || any_of c s

-- A character in front of the last one of a key.
unfoldable pub is_key_char : ℕ → Bool
unfolding is_decimal is_alphabet
is_key_char c = is_decimal c || is_alphabet c || c == b'/' || c == b'+'

-- The characters whose last two bits are zero.
unfoldable pub is_final_char : ℕ → Bool
is_final_char c = any_of c (codes "AEIMQUYcgkosw480")

-- `n` characters in front of the last two.
unfoldable pub key_loop : ℕ → Bytes → Bool
key_loop n [] = false
key_loop (suc n) (c ∷ s) = is_key_char c && key_loop n s
key_loop zero (c ∷ s) = is_final_char c

abbrev is_pad : Option ℕ → Bool
is_pad none = false
is_pad (some c) = c == b'='

unfoldable pub is_valid_key : Bytes → Bool
is_valid_key s =
    if not (length s == 44) || not (is_pad (get_elem? s 43)) then false else key_loop 42 s
