-- ===== src/Encoding/Base64/Keys.antt =====
-- Whole keys: the groups of base64 one after another.
use special_potato.Prelude.{
  ℕ, zero, suc, ◌+◌, ◌*◌, ◌/◌, ◌%◌, ◌^◌, ◌<◌, bit_or, bit_and, Bool, [], ◌∷◌, ◌≡◌, refl, ◌∙◌, arith,
  Bytes, IsByte, shr, sar32, ◌==◌,
}
use special_potato.Prelude.Table.{all_below, agree_Bool_below}
use special_potato.Prelude.Bits.{bit_or_bounds, bit_and_mask}
use special_potato.Encoding.{encode_groups, decode_base64, decode_groups, no_error}
use special_potato.Encoding.Base64.{alphabet, digit_value-alphabet, alphabet-lt}
use special_potato.Encoding.Base64.Groups.{encode_base64-alphabet, decode_base64-sum}

-- `n` whole groups of three bytes, and two more.
abbrev pub KeyGroups : ℕ → Bytes → Type 0
KeyGroups (suc n) (a ∷ b ∷ c ∷ key) = IsByte a × IsByte b × IsByte c × KeyGroups n key
KeyGroups zero (a ∷ b ∷ []) = IsByte a × IsByte b
KeyGroups _ _ = ⊥

-- `n` whole groups of four characters, and three more with the padding.
abbrev pub TextGroups : ℕ → Bytes → Type 0
TextGroups (suc n) (a ∷ b ∷ c ∷ d ∷ s) = IsByte a × IsByte b × IsByte c × IsByte d × TextGroups n s
TextGroups zero (a ∷ b ∷ c ∷ d ∷ []) = IsByte a × IsByte b × IsByte c × (d ≡ b'=')
TextGroups _ _ = ⊥

pub bytes_of :
    (a b c d : ℕ) (val : ℕ)
    → a < 64
    → b < 64
    → c < 64
    → d < 64
    → val ≡ a * 2 ^ 18 + b * 2 ^ 12 + c * 2 ^ 6 + d
    → (bit_and (sar32 val 16) 0xff ≡ a * 4 + b / 16)
      × (bit_and (sar32 val 8) 0xff ≡ b % 16 * 16 + c / 4)
      × (bit_and val 0xff ≡ c % 4 * 64 + d)
      × (shr val 31 ≡ 0)
bytes_of a b c d val p q r s e =
    ground (arith, bit_and_mask 8 (val / 65536), bit_and_mask 8 (val / 256), bit_and_mask 8 val)

pub no_error-zero : (ret : ℕ) → ret < 256 → no_error ret ≡ (ret == 0)
unfolding no_error all_below
no_error-zero = agree_Bool_below 256 no_error (λ ret. ret == 0) refl

-- Characters written from six-bit digits are read as the number with those digits.
codes_value :
    (signed : Bool) (a b c d : ℕ)
    → a < 64
    → b < 64
    → c < 64
    → d < 64
    → decode_base64 signed (alphabet a) (alphabet b) (alphabet c) (alphabet d)
      ≡ a * 2 ^ 18 + b * 2 ^ 12 + c * 2 ^ 6 + d
codes_value signed a b c d p q r s =
    let ra = digit_value-alphabet a p in
    let rb = digit_value-alphabet b q in
    let rc = digit_value-alphabet c r in
    let rd = digit_value-alphabet d s in
    decode_base64-sum signed (alphabet a) (alphabet b) (alphabet c) (alphabet d)
      (omega (arith, alphabet-lt a p)) (omega (arith, alphabet-lt b q))
      (omega (arith, alphabet-lt c r)) (omega (arith, alphabet-lt d s)) (rw ra p) (rw rb q)
      (rw rc r) (rw rd s)
    ∙ rw (ra, rb, rc, rd)

-- Three bytes come back from their four characters.
group_bytes :
    (signed : Bool) (a b c : ℕ)
    → a < 256
    → b < 256
    → c < 256
    → let val =
        decode_base64 signed
          (alphabet (a / 4))
          (alphabet (a % 4 * 16 + b / 16))
          (alphabet (b % 16 * 4 + c / 64))
          (alphabet (c % 64)) in
      (bit_and (sar32 val 16) 0xff ≡ a)
      × (bit_and (sar32 val 8) 0xff ≡ b)
      × (bit_and val 0xff ≡ c)
      × (shr val 31 ≡ 0)
group_bytes signed a b c p q r =
    let x = a % 4 * 16 + b / 16 in
    let y = b % 16 * 4 + c / 64 in
    let parts =
      bytes_of (a / 4) x y (c % 64)
        (decode_base64 signed (alphabet (a / 4)) (alphabet x) (alphabet y) (alphabet (c % 64)))
        (omega arith) (omega arith) (omega arith) (omega arith)
        (codes_value signed (a / 4) x y (c % 64) (omega arith) (omega arith) (omega arith)
          (omega arith)) in
    (parts.0 ∙ omega arith, parts.1 ∙ omega arith, parts.2 ∙ omega arith, parts.3)

alphabet-zero : alphabet 0 ≡ b'A'
unfolding alphabet
alphabet-zero = refl

bit_or_nothing : (ret x : ℕ) → x ≡ 0 → bit_or ret x ≡ ret
bit_or_nothing ret x e = omega (arith, bit_or_bounds ret x)

-- Reading the text of a key adds no error and gives the key back.
pub decode_groups-encode_groups :
    (signed : Bool) (n ret : ℕ) (key : Bytes)
    → KeyGroups n key
    → decode_groups signed n ret (encode_groups n key) ≡ (ret, key)
unfolding decode_groups encode_groups
decode_groups-encode_groups signed (suc n) ret (a ∷ b ∷ c ∷ key) h =
    let g = group_bytes signed a b c h.0 h.1 h.2 in
    rw (encode_base64-alphabet a b c h.0 h.1 h.2) (
      rw
        (g.0, g.1, g.2, bit_or_nothing ret _ g.3, decode_groups-encode_groups signed n ret key h.3))
decode_groups-encode_groups signed zero ret (a ∷ b ∷ []) h =
    let g = rw alphabet-zero at (group_bytes signed a b 0 h.0 h.1 (omega arith)) in
    rw (encode_base64-alphabet a b 0 h.0 h.1 (omega arith))
      (rw (g.0, g.1, g.2, g.3) (rw (bit_or_nothing ret _ refl)))
decode_groups-encode_groups signed zero ret [] h = elim h [ ]
decode_groups-encode_groups signed zero ret (a ∷ []) h = elim h [ ]
decode_groups-encode_groups signed zero ret (a ∷ b ∷ c ∷ key) h = elim h [ ]
decode_groups-encode_groups signed (suc n) ret [] h = elim h [ ]
decode_groups-encode_groups signed (suc n) ret (a ∷ []) h = elim h [ ]
decode_groups-encode_groups signed (suc n) ret (a ∷ b ∷ []) h = elim h [ ]
