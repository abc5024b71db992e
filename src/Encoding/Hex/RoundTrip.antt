-- ===== src/Encoding/Hex/RoundTrip.antt =====
-- `key_from_hex` against `key_to_hex`.
use special_potato.Prelude.{
  ℕ, zero, suc, ◌+◌, ◌*◌, ◌/◌, ◌%◌, ◌<◌, Bool, true, [], ◌∷◌, ◌≡◌, ◌↔◌, refl, sym, ap, ◌∙◌, arith,
  Bytes, IsBytes, map, length, ==_iff, bit_or, bit_and, u8, shr,
}
use special_potato.Prelude.Bits.{bit_or_disjoint, bit_and_mask, bit_or-zero_iff, bit_or-lt-pow}
use native.Mathlib.Nat.{mod-eq_of_lt}
use special_potato.Encoding.{
  IsKey, hex_digit, hex_value, hex_loop, key_to_hex, key_from_hex, no_error,
}
use special_potato.Encoding.Base64.Keys.{no_error-zero}
use special_potato.Encoding.Hex.{
  hex_char, hex_of, lower, hex_digit-hex_char, hex_value_error, hex_value-hex_of, hex_char-hex_of,
  hex_of-hex_char, hex_of-le,
}

-- An even number of characters.
abbrev IsPaired : Bytes → Type 0
IsPaired [] = Unit
IsPaired (c ∷ []) = ⊥
IsPaired (c0 ∷ c1 ∷ s) = IsPaired s

error_free : (c : ℕ) → c < 256 → (hex_value c).0 ≡ 0 → hex_of c < 16
error_free c h e = ground (arith, hex_value_error c h, hex_of-le c)

-- Two digits make a byte, and the byte is written as these digits in small letters.
byte_value : (hi lo : ℕ) → hi < 16 → lo < 16 → u8 (bit_or (u8 (hi * 16)) lo) ≡ hi * 16 + lo
byte_value hi lo p q =
    rw (mod-eq_of_lt {n = hi * 16} {m = 256} (omega arith))
      (omega (arith, bit_or_disjoint 4 hi lo q))

written :
    (b hi lo : ℕ)
    → b ≡ hi * 16 + lo
    → hi < 16
    → lo < 16
    → (hex_digit (shr b 4) ≡ hex_char hi) × (hex_digit (bit_and b 0xf) ≡ hex_char lo)
written b hi lo e p q = (
  ap hex_digit (omega arith) ∙ hex_digit-hex_char hi p,
  ap hex_digit (bit_and_mask 4 b ∙ omega arith) ∙ hex_digit-hex_char lo q,
)

pair_written :
    (c0 c1 : ℕ)
    → c0 < 256
    → c1 < 256
    → (hex_value c0).0 ≡ 0
    → (hex_value c1).0 ≡ 0
    → let b = u8 (bit_or (u8 ((hex_value c0).1 * 16)) (hex_value c1).1) in
      (lower c0 ≡ hex_digit (shr b 4)) × (lower c1 ≡ hex_digit (bit_and b 0xf))
pair_written c0 c1 p q e f =
    let v = error_free c0 p e in
    let w = error_free c1 q f in
    let b = u8 (bit_or (u8 ((hex_value c0).1 * 16)) (hex_value c1).1) in
    let value : b ≡ hex_of c0 * 16 + hex_of c1 =
      rw (hex_value-hex_of c0 p v, hex_value-hex_of c1 q w)
        (byte_value (hex_of c0) (hex_of c1) v w) in
    let digits = written b (hex_of c0) (hex_of c1) value v w in
    (sym (digits.0 ∙ hex_char-hex_of c0 v), sym (digits.1 ∙ hex_char-hex_of c1 w))

-- A byte read from the digits that it is written with.
pair_read :
    (c0 c1 k : ℕ)
    → c0 < 256
    → c1 < 256
    → k < 256
    → lower c0 ≡ hex_digit (shr k 4)
    → lower c1 ≡ hex_digit (bit_and k 0xf)
    → ((hex_value c0).0 ≡ 0)
      × ((hex_value c1).0 ≡ 0)
      × (u8 (bit_or (u8 ((hex_value c0).1 * 16)) (hex_value c1).1) ≡ k)
pair_read c0 c1 k p q r e f =
    let digits = written k (k / 16) (k % 16) (omega arith) (omega arith) (omega arith) in
    let hi = hex_of-hex_char (k / 16) c0 (omega arith) (e ∙ digits.0) in
    let lo = hex_of-hex_char (k % 16) c1 (omega arith) (f ∙ digits.1) in
    let hi' = hex_value-hex_of c0 p (omega (arith, hi)) ∙ hi in
    let lo' = hex_value-hex_of c1 q (omega (arith, lo)) ∙ lo in
    (
      ground (arith, hex_value_error c0 p, hi),
      ground (arith, hex_value_error c1 q, lo),
      rw (hi', lo') (byte_value (k / 16) (k % 16) (omega arith) (omega arith) ∙ omega arith),
    )

hex_loop_sound :
    (ret : ℕ) (s : Bytes)
    → IsPaired s
    → IsBytes s
    → (hex_loop ret s).0 ≡ 0
    → (ret ≡ 0) × IsBytes (hex_loop ret s).1 × (map lower s ≡ key_to_hex (hex_loop ret s).1)
unfolding hex_loop key_to_hex
hex_loop_sound ret [] p h e = (e, tt, refl)
hex_loop_sound ret (c ∷ []) p h e = elim p [ ]
hex_loop_sound ret (c0 ∷ c1 ∷ s) p h e =
    let rest = hex_loop_sound (bit_or (bit_or ret (hex_value c0).0) (hex_value c1).0) s p h.1.1 e in
    let both = (bit_or-zero_iff (bit_or ret (hex_value c0).0) (hex_value c1).0).0 rest.0 in
    let first = (bit_or-zero_iff ret (hex_value c0).0).0 both.0 in
    let two = pair_written c0 c1 h.0 h.1.0 first.1 both.1 in
    (first.0, (omega arith, rest.1), cc (two.0, two.1, rest.2))

hex_loop_complete :
    (s key : Bytes)
    → IsBytes s
    → IsBytes key
    → map lower s ≡ key_to_hex key
    → hex_loop 0 s ≡ (0, key)
unfolding hex_loop key_to_hex
hex_loop_complete [] [] h k e = refl
hex_loop_complete (c0 ∷ c1 ∷ s) (b ∷ key) h k e =
    let two = pair_read c0 c1 b h.0 h.1.0 k.0 (cc) (cc) in
    rw (two.0, two.1, two.2, hex_loop_complete s key h.1.1 k.1 (cc))
hex_loop_complete [] (b ∷ key) h k e = cc
hex_loop_complete (c ∷ []) [] h k e = cc
hex_loop_complete (c ∷ []) (b ∷ key) h k e = cc
hex_loop_complete (c0 ∷ c1 ∷ s) [] h k e = cc

hex_value-lt : (c : ℕ) → (hex_value c).0 < 256
unfolding hex_value
hex_value-lt c = omega arith

hex_loop-lt : (ret : ℕ) (s : Bytes) → ret < 256 → (hex_loop ret s).0 < 256
unfolding hex_loop
hex_loop-lt ret (c0 ∷ c1 ∷ s) h =
    hex_loop-lt (bit_or (bit_or ret (hex_value c0).0) (hex_value c1).0) s
      (bit_or-lt-pow 8 _ _ (bit_or-lt-pow 8 ret _ h (hex_value-lt c0)) (hex_value-lt c1))
hex_loop-lt ret _ h = h

abbrev two : ℕ → ℕ
two zero = 0
two (suc n) = suc (suc (two n))

paired : (n : ℕ) (s : Bytes) → length s ≡ two n → IsPaired s
paired zero [] e = tt
paired (suc n) (c0 ∷ c1 ∷ s) e = paired n s (omega arith)
paired zero (c ∷ s) e = absurd (omega arith)
paired (suc n) [] e = absurd (omega arith)
paired (suc n) (c ∷ []) e = absurd (omega arith)

lengths : (s key : Bytes) → map lower s ≡ key_to_hex key → length s ≡ length key * 2
unfolding key_to_hex
lengths [] [] e = refl
lengths (c0 ∷ c1 ∷ s) (b ∷ key) e = omega (arith, lengths s key (cc))
lengths [] (b ∷ key) e = cc
lengths (c ∷ []) [] e = cc
lengths (c ∷ []) (b ∷ key) e = cc
lengths (c0 ∷ c1 ∷ s) [] e = cc

key_from_hex-cases :
    (old s key : Bytes)
    → key_from_hex old s ≡ (true, key)
    → (length s ≡ 64) × (no_error (hex_loop 0 s).0 ≡ true) × ((hex_loop 0 s).1 ≡ key)
unfolding key_from_hex
key_from_hex-cases old s key e = ground arith

key_from_hex_sound :
    (old s key : Bytes)
    → IsBytes s
    → key_from_hex old s ≡ (true, key)
    → IsKey key × (map lower s ≡ key_to_hex key)
key_from_hex_sound old s key h e =
    let (len, good, out) = key_from_hex-cases old s key e in
    let small = hex_loop-lt 0 s (omega arith) in
    let clean = (==_iff (hex_loop 0 s).0 0).0 (sym (no_error-zero (hex_loop 0 s).0 small) ∙ good) in
    let sound = hex_loop_sound 0 s (paired 32 s len) h clean in
    let text : map lower s ≡ key_to_hex key = rw out at sound.2 in
    ((omega (arith, lengths s key text), rw out at sound.1), text)

key_from_hex_complete :
    (old s key : Bytes)
    → IsBytes s
    → IsKey key
    → map lower s ≡ key_to_hex key
    → key_from_hex old s ≡ (true, key)
unfolding key_from_hex
key_from_hex_complete old s key h k e =
    let len : length s ≡ 64 = omega (arith, lengths s key e, k.0) in
    rw (len, hex_loop_complete s key h k.1 e)
      (ap (λ (b : Bool). (b, key)) (no_error-zero 0 (omega arith)))

-- A byte string is read as a key with success exactly when, in small letters, it is the hexadecimal
-- text of that key.
pub key_from_hex_iff :
    (old s key : Bytes)
    → IsBytes s
    → (key_from_hex old s ≡ (true, key)) ↔ (IsKey key × (map lower s ≡ key_to_hex key))
key_from_hex_iff old s key h =
    (key_from_hex_sound old s key h, λ p. key_from_hex_complete old s key h p.0 p.1)
