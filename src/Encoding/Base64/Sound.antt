-- ===== src/Encoding/Base64/Sound.antt =====
-- What `key_from_base64` accepts is what `key_to_base64` writes.
use special_potato.Prelude.{
  ℕ, zero, suc, ◌+◌, ◌*◌, ◌/◌, ◌%◌, ◌^◌, ◌≤◌, ◌<◌, bit_or, bit_and, Bool, [], ◌∷◌, ◌≡◌, ◌⊎◌, inl,
  inr, ap, ◌∙◌, arith, Bytes, set, u8, shr, sar32,
}
use special_potato.Prelude.Bits.{bit_or-zero_iff, bit_or-lt-pow, bit_and_mask}
use special_potato.Encoding.{encode_base64, encode_groups, decode_base64, decode_groups}
use special_potato.Encoding.Base64.{alphabet, digit_value, alphabet-digit_value}
use special_potato.Encoding.Base64.Groups.{
  encode_base64-alphabet, decode_base64-sum, decode_base64-negative, decode_base64-lt,
}
use special_potato.Encoding.Base64.Keys.{KeyGroups, TextGroups, bytes_of}

small_or_not : (d : ℕ) → (d < 64) ⊎ (64 ≤ d)
small_or_not d = omega arith

-- A group without the sign bit has four characters of the alphabet, and the bytes read from it
-- are written as these characters.
module _ (signed : Bool) (c0 c1 c2 c3 : ℕ) (p0 : c0 < 256) (p1 : c1 < 256) (p2 : c2 < 256)
    (p3 : c3 < 256) (nonneg : shr (decode_base64 signed c0 c1 c2 c3) 31 ≡ 0) where
  abbrev val : ℕ
  val = decode_base64 signed c0 c1 c2 c3

  not_negative :
      (64 ≤ digit_value c0)
        ⊎ ((64 ≤ digit_value c1) ⊎ ((64 ≤ digit_value c2) ⊎ (64 ≤ digit_value c3)))
      → ⊥
  not_negative bad = omega (arith, decode_base64-negative signed c0 c1 c2 c3 p0 p1 p2 p3 bad)

  digits_small :
      (digit_value c0 < 64) × (digit_value c1 < 64) × (digit_value c2 < 64) × (digit_value c3 < 64)
  digits_small = (
    elim (small_or_not (digit_value c0)) [ inl h ↦ h | inr bad ↦ absurd (not_negative (inl bad)) ],
    elim (small_or_not (digit_value c1)) [
      | inl h ↦ h
      | inr bad ↦ absurd (not_negative (inr (inl bad)))
    ],
    elim (small_or_not (digit_value c2)) [
      | inl h ↦ h
      | inr bad ↦ absurd (not_negative (inr (inr (inl bad))))
    ],
    elim (small_or_not (digit_value c3)) [
      | inl h ↦ h
      | inr bad ↦ absurd (not_negative (inr (inr (inr bad))))
    ],
  )

  pub read_bytes :
      (bit_and (sar32 val 16) 0xff ≡ digit_value c0 * 4 + digit_value c1 / 16)
      × (bit_and (sar32 val 8) 0xff ≡ digit_value c1 % 16 * 16 + digit_value c2 / 4)
      × (bit_and val 0xff ≡ digit_value c2 % 4 * 64 + digit_value c3)
      × (shr val 31 ≡ 0)
  read_bytes =
      let h = digits_small in
      bytes_of (digit_value c0) (digit_value c1) (digit_value c2) (digit_value c3) val h.0 h.1 h.2
        h.3 (decode_base64-sum signed c0 c1 c2 c3 p0 p1 p2 p3 h.0 h.1 h.2 h.3)

  pub written_back :
      encode_base64 (bit_and (sar32 val 16) 0xff) (bit_and (sar32 val 8) 0xff) (bit_and val 0xff)
      ≡ c0 ∷ c1 ∷ c2 ∷ c3 ∷ []
  written_back =
      let h = digits_small in
      let r = read_bytes in
      let x = bit_and (sar32 val 16) 0xff in
      let y = bit_and (sar32 val 8) 0xff in
      let z = bit_and val 0xff in
      encode_base64-alphabet x y z (omega (arith, r, h)) (omega (arith, r, h)) (omega (arith, r, h))
      ∙ cc (
        digit_back c0 h.0 (x / 4) (omega (arith, r, h)),
        digit_back c1 h.1 (x % 4 * 16 + y / 16) (omega (arith, r, h)),
        digit_back c2 h.2 (y % 16 * 4 + z / 64) (omega (arith, r, h)),
        digit_back c3 h.3 (z % 64) (omega (arith, r, h)),
      )
    where
      digit_back : (c : ℕ) → digit_value c < 64 → (n : ℕ) → n ≡ digit_value c → alphabet n ≡ c
      digit_back c h n e = ap alphabet e ∙ alphabet-digit_value c h

shr-lt : (v : ℕ) → v < 2 ^ 32 → shr v 31 < 256
shr-lt v h = omega arith

byte-lt : (v : ℕ) → bit_and v 0xff < 256
byte-lt v = omega (arith, bit_and_mask 8 v)

-- The value of the last group: with an error-free `ret` there is no sign bit and no low byte.
last_clean :
    (ret v : ℕ)
    → v < 2 ^ 32
    → bit_or ret (u8 (bit_or (shr v 31) (bit_and v 0xff))) ≡ 0
    → (ret ≡ 0) × (shr v 31 ≡ 0) × (bit_and v 0xff ≡ 0)
last_clean ret v h e =
    let small = bit_or-lt-pow 8 (shr v 31) (bit_and v 0xff) (shr-lt v h) (byte-lt v) in
    let both = (bit_or-zero_iff ret (u8 (bit_or (shr v 31) (bit_and v 0xff)))).0 e in
    let parts = (bit_or-zero_iff (shr v 31) (bit_and v 0xff)).0 (omega (arith, small, both)) in
    (both.0, parts.0, parts.1)

-- A text of whole groups that is read without error is the text of the key that was read.
pub decode_groups_sound :
    (signed : Bool) (n ret : ℕ) (s : Bytes)
    → TextGroups n s
    → (decode_groups signed n ret s).0 ≡ 0
    → (ret ≡ 0)
      × KeyGroups n (decode_groups signed n ret s).1
      × (encode_groups n (decode_groups signed n ret s).1 ≡ s)
unfolding decode_groups encode_groups
decode_groups_sound signed (suc n) ret (c0 ∷ c1 ∷ c2 ∷ c3 ∷ s) t e =
    let val = decode_base64 signed c0 c1 c2 c3 in
    let rest = decode_groups_sound signed n (bit_or ret (shr val 31)) s t.4 e in
    let both = (bit_or-zero_iff ret (shr val 31)).0 rest.0 in
    (
      both.0,
      (byte-lt (sar32 val 16), byte-lt (sar32 val 8), byte-lt val, rest.1),
      rw (written_back signed c0 c1 c2 c3 t.0 t.1 t.2 t.3 both.1) (rw rest.2),
    )
decode_groups_sound signed zero ret (c0 ∷ c1 ∷ c2 ∷ c3 ∷ []) t e =
    let val = decode_base64 signed c0 c1 c2 b'A' in
    let clean = last_clean ret val (decode_base64-lt signed c0 c1 c2 b'A') e in
    (
      clean.0,
      (byte-lt (sar32 val 16), byte-lt (sar32 val 8)),
      ap (λ (l : Bytes). set l 3 b'=')
            (rw clean.2 at (written_back signed c0 c1 c2 b'A' t.0 t.1 t.2 (omega arith) clean.1))
          ∙ rw t.3,
    )
decode_groups_sound signed zero ret [] t e = elim t [ ]
decode_groups_sound signed zero ret (a ∷ []) t e = elim t [ ]
decode_groups_sound signed zero ret (a ∷ b ∷ []) t e = elim t [ ]
decode_groups_sound signed zero ret (a ∷ b ∷ c ∷ []) t e = elim t [ ]
decode_groups_sound signed zero ret (a ∷ b ∷ c ∷ d ∷ x ∷ s) t e = elim t [ ]
decode_groups_sound signed (suc n) ret [] t e = elim t [ ]
decode_groups_sound signed (suc n) ret (a ∷ []) t e = elim t [ ]
decode_groups_sound signed (suc n) ret (a ∷ b ∷ []) t e = elim t [ ]
decode_groups_sound signed (suc n) ret (a ∷ b ∷ c ∷ []) t e = elim t [ ]
