-- ===== src/Encoding.antt =====
-- tunnel/tools/amneziawg-tools/src/encoding.c and encoding.h: keys as base64 and as hexadecimal
-- text, by arithmetic that takes no branch on a key byte.
-- A key is a list of 32 bytes, a C string the list of its bytes before the terminator.
-- `signed` says whether the platform's `char` is signed.
pub mod Base64
pub mod Hex
pub mod Zero
use special_potato.Prelude.{
  ℕ, zero, suc, ◌+◌, ◌*◌, ◌-◌, ◌/◌, ◌%◌, ◌^◌, bit_and, bit_or, bit_xor, Bool, true, false, not,
  ◌||◌, List, [], ◌∷◌, ◌++◌, Bytes, length, set, get_elem?, some, none, Option, ◌==◌, if◌then◌else◌,
  u8, u32, add32, sub32, shl32, shr, sar32, not32, char_to_int, ◌≡◌, IsBytes, ◌&&◌,
}

abbrev pub wg_key_len : ℕ
wg_key_len = 32

-- The lengths with the terminator, as in encoding.h.
abbrev pub wg_key_len_base64 : ℕ
wg_key_len_base64 = (wg_key_len + 2) / 3 * 4 + 1

abbrev pub wg_key_len_hex : ℕ
wg_key_len_hex = wg_key_len * 2 + 1

abbrev pub IsKey : Bytes → Type 0
IsKey key = (length key ≡ wg_key_len) × IsBytes key

-- One round of the loop of `encode_base64`: six bits as a character.
unfoldable pub encode_digit : ℕ → ℕ
encode_digit input =
    let plus = add32 (add32 input b'A') (bit_and (sar32 (sub32 25 input) 8) 6) in
    let less = sub32 plus (bit_and (sar32 (sub32 51 input) 8) 75) in
    let less' = sub32 less (bit_and (sar32 (sub32 61 input) 8) 15) in
    u8 (add32 less' (bit_and (sar32 (sub32 62 input) 8) 3))

unfoldable pub encode_base64 : ℕ → ℕ → ℕ → Bytes
encode_base64 s0 s1 s2 =
    encode_digit (bit_and (shr s0 2) 63)
    ∷ encode_digit (bit_and (bit_or (s0 * 2 ^ 4) (shr s1 4)) 63)
    ∷ encode_digit (bit_and (bit_or (s1 * 2 ^ 2) (shr s2 6)) 63)
    ∷ encode_digit (bit_and s2 63)
    ∷ []

-- The rounds over whole groups, then the last group, whose final character is overwritten by `=`.
unfoldable pub encode_groups : ℕ → Bytes → Bytes
encode_groups (suc n) (a ∷ b ∷ c ∷ key) = encode_base64 a b c ++ encode_groups n key
encode_groups zero (a ∷ b ∷ key) = set (encode_base64 a b 0) 3 b'='
encode_groups _ _ = []

unfoldable pub key_to_base64 : Bytes → Bytes
key_to_base64 key = encode_groups (wg_key_len / 3) key

-- All ones where `lo ≤ c ≤ hi`, else zero.
abbrev range_mask : ℕ → ℕ → ℕ → ℕ
range_mask lo hi c = sar32 (bit_and (sub32 (lo - 1) c) (sub32 c (hi + 1))) 8

-- One round of the loop of `decode_base64`, before the shift: the six bits, or -1.
unfoldable pub decode_digit : Bool → ℕ → ℕ
decode_digit signed char =
    let c = char_to_int signed char in
    let upper = bit_and (range_mask b'A' b'Z' c) (sub32 c 64) in
    let lower = bit_and (range_mask b'a' b'z' c) (sub32 c 70) in
    let digit = bit_and (range_mask b'0' b'9' c) (add32 c 5) in
    let plus = bit_and (range_mask b'+' b'+' c) 63 in
    let slash = bit_and (range_mask b'/' b'/' c) 64 in
    add32 (add32 (add32 (add32 (add32 (u32 (2 ^ 32 - 1)) upper) lower) digit) plus) slash

unfoldable pub decode_base64 : Bool → ℕ → ℕ → ℕ → ℕ → ℕ
decode_base64 signed c0 c1 c2 c3 =
    let val = bit_or 0 (shl32 (decode_digit signed c0) 18) in
    let val' = bit_or val (shl32 (decode_digit signed c1) 12) in
    let val'' = bit_or val' (shl32 (decode_digit signed c2) 6) in
    bit_or val'' (shl32 (decode_digit signed c3) 0)

-- The loop over whole groups and the last group: the accumulated `ret`, and the key bytes.
unfoldable pub decode_groups : Bool → ℕ → ℕ → Bytes → ℕ × Bytes
decode_groups signed (suc n) ret (c0 ∷ c1 ∷ c2 ∷ c3 ∷ s) =
    let val = decode_base64 signed c0 c1 c2 c3 in
    let (ret', key) = decode_groups signed n (bit_or ret (shr val 31)) s in
    (ret', bit_and (sar32 val 16) 0xff ∷ bit_and (sar32 val 8) 0xff ∷ bit_and val 0xff ∷ key)
decode_groups signed zero ret (c0 ∷ c1 ∷ c2 ∷ s) =
    let val = decode_base64 signed c0 c1 c2 b'A' in
    (
      bit_or ret (u8 (bit_or (shr val 31) (bit_and val 0xff))),
      bit_and (sar32 val 16) 0xff ∷ bit_and (sar32 val 8) 0xff ∷ [],
    )
decode_groups signed _ ret s = (ret, [])

-- `1 & ((ret - 1) >> 8)` of a byte: true exactly at zero.
unfoldable pub no_error : ℕ → Bool
no_error ret = not (bit_and 1 (sar32 (sub32 ret 1) 8) == 0)

-- `base64[i] == '='`; a string has no byte past its end.
abbrev is_pad : Option ℕ → Bool
is_pad none = false
is_pad (some c) = c == b'='

-- The early return leaves the caller's `key` as it was.
unfoldable pub key_from_base64 : Bool → Bytes → Bytes → Bool × Bytes
key_from_base64 signed key base64 =
    if not (length base64 == wg_key_len_base64 - 1)
    then (false, key)
    else if is_pad (get_elem? base64 (wg_key_len_base64 - 2))
    then (let (ret, key') = decode_groups signed (wg_key_len / 3) 0 base64 in (no_error ret, key'))
    else (false, key)

-- One round of the loop of `key_to_hex`: four bits as a character, in `unsigned` arithmetic.
unfoldable pub hex_digit : ℕ → ℕ
hex_digit n = u8 (add32 (add32 87 n) (bit_and (shr (sub32 n 10) 8) (not32 38)))

unfoldable pub key_to_hex : Bytes → Bytes
unfolding hex_digit
key_to_hex [] = []
key_to_hex (k ∷ key) = hex_digit (shr k 4) ∷ hex_digit (bit_and k 0xf) ∷ key_to_hex key

-- The half of a round of `key_from_hex` that reads one character: what it adds to `ret`, and
-- `c_val`. Each named value is a `uint8_t`.
unfoldable pub hex_value : ℕ → ℕ × ℕ
hex_value char =
    let c = u8 char in
    let c_num = u8 (bit_xor c 48) in
    let c_num0 = u8 (shr (sub32 c_num 10) 8) in
    let c_alpha = u8 (sub32 (bit_and c (not32 32)) 55) in
    let c_alpha0 = u8 (shr (bit_xor (sub32 c_alpha 10) (sub32 c_alpha 16)) 8) in
    (
      u8 (sar32 (sub32 (bit_or c_num0 c_alpha0) 1) 8),
      bit_or (bit_and c_num0 c_num) (bit_and c_alpha0 c_alpha),
    )

unfoldable pub hex_loop : ℕ → Bytes → ℕ × Bytes
hex_loop ret (c0 ∷ c1 ∷ s) =
    let (ret0, hi) = hex_value c0 in
    let (ret1, lo) = hex_value c1 in
    let (ret', key) = hex_loop (bit_or (bit_or ret ret0) ret1) s in
    (ret', u8 (bit_or (u8 (hi * 16)) lo) ∷ key)
hex_loop ret _ = (ret, [])

unfoldable pub key_from_hex : Bytes → Bytes → Bool × Bytes
key_from_hex key hex =
    if not (length hex == wg_key_len_hex - 1)
    then (false, key)
    else (let (ret, key') = hex_loop 0 hex in (no_error ret, key'))

unfoldable pub zero_loop : ℕ → Bytes → ℕ
zero_loop acc [] = acc
zero_loop acc (k ∷ key) = zero_loop (bit_or acc k) key

unfoldable pub key_is_zero : Bytes → Bool
key_is_zero key = no_error (zero_loop 0 key)
