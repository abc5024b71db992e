-- ===== src/Encoding/Base64/RoundTrip.antt =====
-- `key_to_base64` and `key_from_base64` are inverse to each other.
use special_potato.Prelude.{
  ℕ, zero, suc, ◌<◌, Bool, true, [], ◌∷◌, ◌≡◌, ◌↔◌, refl, sym, ap, ◌∙◌, arith, Bytes, IsBytes,
  length, get_elem?, some, ==_iff,
}
use special_potato.Prelude.Bits.{bit_or-lt-pow}
use special_potato.Encoding.Base64.Groups.{decode_base64-lt}
use special_potato.Encoding.{
  IsKey, encode_groups, key_to_base64, encode_base64, decode_groups, no_error, key_from_base64,
}
use special_potato.Encoding.Base64.Keys.{
  KeyGroups, TextGroups, no_error-zero, decode_groups-encode_groups,
}
use special_potato.Encoding.Base64.Sound.{decode_groups_sound}

abbrev pub four : ℕ → ℕ
four zero = 4
four (suc n) = suc (suc (suc (suc (four n))))

abbrev pub three : ℕ → ℕ
three zero = 2
three (suc n) = suc (suc (suc (three n)))

abbrev pub pad_place : ℕ → ℕ
pad_place zero = 3
pad_place (suc n) = suc (suc (suc (suc (pad_place n))))

pub key_groups : (n : ℕ) (key : Bytes) → length key ≡ three n → IsBytes key → KeyGroups n key
key_groups (suc n) (a ∷ b ∷ c ∷ key) e h =
    (h.0, h.1.0, h.1.1.0, key_groups n key (omega arith) h.1.1.1)
key_groups zero (a ∷ b ∷ []) e h = (h.0, h.1.0)
key_groups _ _ e h = absurd (omega arith)

pub groups_key : (n : ℕ) (key : Bytes) → KeyGroups n key → (length key ≡ three n) × IsBytes key
groups_key (suc n) (a ∷ b ∷ c ∷ key) h =
    let rest = groups_key n key h.3 in (omega (arith, rest.0), (h.0, (h.1, (h.2, rest.1))))
groups_key zero (a ∷ b ∷ []) h = (refl, (h.0, (h.1, tt)))
groups_key _ _ h = elim h [ ]

pub text_groups :
    (n : ℕ) (s : Bytes)
    → length s ≡ four n
    → get_elem? s (pad_place n) ≡ some b'='
    → IsBytes s
    → TextGroups n s
text_groups (suc n) (a ∷ b ∷ c ∷ d ∷ s) e pad h =
    (h.0, h.1.0, h.1.1.0, h.1.1.1.0, text_groups n s (omega arith) pad h.1.1.1.1)
text_groups zero (a ∷ b ∷ c ∷ d ∷ []) e pad h = (h.0, h.1.0, h.1.1.0, cc)
text_groups _ _ e pad h = absurd (omega arith)

-- The text of a key has the length and the padding that the reader wants.
pub encode_groups-shape :
    (n : ℕ) (key : Bytes)
    → KeyGroups n key
    → (length (encode_groups n key) ≡ four n)
      × (get_elem? (encode_groups n key) (pad_place n) ≡ some b'=')
unfolding encode_groups encode_base64
encode_groups-shape (suc n) (a ∷ b ∷ c ∷ key) h =
    let rest = encode_groups-shape n key h.3 in (omega (arith, rest.0), rest.1)
encode_groups-shape zero (a ∷ b ∷ []) h = (refl, refl)
encode_groups-shape _ _ h = elim h [ ]

decode_groups-lt :
    (signed : Bool) (n ret : ℕ) (s : Bytes) → ret < 256 → (decode_groups signed n ret s).0 < 256
unfolding decode_groups
decode_groups-lt signed (suc n) ret (c0 ∷ c1 ∷ c2 ∷ c3 ∷ s) h =
    decode_groups-lt signed n _ s
      (bit_or-lt-pow 8 ret _ h (omega (arith, decode_base64-lt signed c0 c1 c2 c3)))
decode_groups-lt signed zero ret (c0 ∷ c1 ∷ c2 ∷ s) h = bit_or-lt-pow 8 ret _ h (omega arith)
decode_groups-lt signed _ ret _ h = h

-- The two early returns, and the read that they let pass.
pub key_from_base64-cases :
    (signed : Bool) (old s key : Bytes)
    → key_from_base64 signed old s ≡ (true, key)
    → (length s ≡ 44)
      × (get_elem? s 43 ≡ some b'=')
      × (no_error (decode_groups signed 10 0 s).0 ≡ true)
      × ((decode_groups signed 10 0 s).1 ≡ key)
unfolding key_from_base64
key_from_base64-cases signed old s key e = ground arith

key_from_base64_sound :
    (signed : Bool) (old s key : Bytes)
    → IsBytes s
    → key_from_base64 signed old s ≡ (true, key)
    → IsKey key × (s ≡ key_to_base64 key)
unfolding key_to_base64
key_from_base64_sound signed old s key h e =
    let (len, pad, good, out) = key_from_base64-cases signed old s key e in
    let small = decode_groups-lt signed 10 0 s (omega arith) in
    let clean =
      (==_iff (decode_groups signed 10 0 s).0 0).0
        (sym (no_error-zero (decode_groups signed 10 0 s).0 small) ∙ good) in
    let sound = decode_groups_sound signed 10 0 s (text_groups 10 s len pad h) clean in
    (rw out at (groups_key 10 (decode_groups signed 10 0 s).1 sound.1), sym (rw out at sound.2))

pub key_from_base64-key_to_base64 :
    (signed : Bool) (old key : Bytes)
    → IsKey key
    → key_from_base64 signed old (key_to_base64 key) ≡ (true, key)
unfolding key_to_base64 key_from_base64
key_from_base64-key_to_base64 signed old key k =
    let groups = key_groups 10 key k.0 k.1 in
    let shape = encode_groups-shape 10 key groups in
    rw (shape.0, shape.1, decode_groups-encode_groups signed 10 0 key groups)
      (ap (λ (b : Bool). (b, key)) (no_error-zero 0 (omega arith)))

-- A byte string is read as a key with success exactly when it is the base64 text of that key: every
-- key is read back, and nothing else (no other length, alphabet, padding, or stray low bits) is
-- accepted, whether `char` is signed or not.
pub key_from_base64_iff :
    (signed : Bool) (old s key : Bytes)
    → IsBytes s
    → (key_from_base64 signed old s ≡ (true, key)) ↔ (IsKey key × (s ≡ key_to_base64 key))
key_from_base64_iff signed old s key h = (
  key_from_base64_sound signed old s key h,
  λ p. rw p.1 (key_from_base64-key_to_base64 signed old key p.0),
)
