-- ===== src/Encoding/Base64/Chars.antt =====
-- What is true of each character of the alphabet, and of the padding, is true of the text of a key.
use special_potato.Prelude.{ℕ, ◌<◌, ◌%◌, zero, suc, [], ◌∷◌, ◌++◌, Bytes, All, arith, bit_and, set}
use special_potato.Prelude.Bits.{bit_and_mask}
use special_potato.Encoding.{encode_digit, encode_base64, encode_groups, key_to_base64}
use special_potato.Encoding.Base64.{alphabet, encode_digit-alphabet}

module _ (P : ℕ → Type 0) (chars : (n : ℕ) → n < 64 → P (alphabet n)) (pad : P b'=') where
  digit : (x : ℕ) → P (encode_digit (bit_and x 63))
  digit x =
      rw (bit_and_mask 6 x, encode_digit-alphabet (x % 64) (omega arith))
        (chars (x % 64) (omega arith))

  All-append : (a b : Bytes) → All P a → All P b → All P (a ++ b)
  All-append [] b ha hb = hb
  All-append (c ∷ a) b ha hb = (ha.0, All-append a b ha.1 hb)

  group : (a b c : ℕ) → All P (encode_base64 a b c)
  unfolding encode_base64
  group a b c = (digit _, (digit _, (digit _, (digit _, tt))))

  last_group : (a b : ℕ) → All P (set (encode_base64 a b 0) 3 b'=')
  unfolding encode_base64
  last_group a b = (digit _, (digit _, (digit _, (pad, tt))))

  chars_of_groups : (n : ℕ) (key : Bytes) → All P (encode_groups n key)
  unfolding encode_groups
  chars_of_groups (suc n) (a ∷ b ∷ c ∷ key) =
      All-append (encode_base64 a b c) (encode_groups n key) (group a b c) (chars_of_groups n key)
  chars_of_groups zero (a ∷ b ∷ []) = last_group a b
  chars_of_groups zero (a ∷ b ∷ c ∷ key) = last_group a b
  chars_of_groups zero [] = tt
  chars_of_groups zero (a ∷ []) = tt
  chars_of_groups (suc n) [] = tt
  chars_of_groups (suc n) (a ∷ []) = tt
  chars_of_groups (suc n) (a ∷ b ∷ []) = tt

  pub chars_of_key : (key : Bytes) → All P (key_to_base64 key)
  unfolding key_to_base64
  chars_of_key key = chars_of_groups 10 key
