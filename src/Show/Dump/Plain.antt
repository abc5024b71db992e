-- ===== src/Show/Dump/Plain.antt =====
-- What `dump_print` writes in a column has no tab and no line feed.
use special_potato.Prelude.{
  ℕ, ◌<◌, ◌/◌, ◌%◌, zero, suc, Bool, true, false, [], ◌∷◌, ◌++◌, Bytes, Option, none, some, ◌≢◌,
  arith, bit_and, Bool-cases, inl, inr, ltb, set, ◌==◌,
}
use special_potato.Prelude.Bits.{bit_and_mask}
use special_potato.Encoding.{encode_digit, encode_base64, encode_groups, key_to_base64}
use special_potato.Encoding.Base64.{alphabet, encode_digit-alphabet}
use special_potato.Libc.Printf.{digit_char, digits_onto, print_u, print_x}
use special_potato.Show.Dump.{maybe_key, or_off}
use special_potato.Showconf.{or_null}
use special_potato.Show.Dump.Columns.{IsPlain}

abbrev IsInk : ℕ → Type 0
IsInk c = (c ≢ b'\t') × (c ≢ b'\n')

alphabet-IsInk : (n : ℕ) → n < 64 → IsInk (alphabet n)
unfolding alphabet
alphabet-IsInk n h = (ground arith, ground arith)

encode_digit-IsInk : (x : ℕ) → IsInk (encode_digit (bit_and x 63))
encode_digit-IsInk x =
    rw (bit_and_mask 6 x, encode_digit-alphabet (x % 64) (omega arith))
      (alphabet-IsInk (x % 64) (omega arith))

pub append-IsPlain : (a b : Bytes) → IsPlain a → IsPlain b → IsPlain (a ++ b)
append-IsPlain [] b ha hb = hb
append-IsPlain (c ∷ a) b ha hb = (ha.0, append-IsPlain a b ha.1 hb)

encode_base64-IsPlain : (a b c : ℕ) → IsPlain (encode_base64 a b c)
unfolding encode_base64
encode_base64-IsPlain a b c = (
  encode_digit-IsInk _,
  (encode_digit-IsInk _, (encode_digit-IsInk _, (encode_digit-IsInk _, tt))),
)

last_group-IsPlain : (a b : ℕ) → IsPlain (set (encode_base64 a b 0) 3 b'=')
unfolding encode_base64
last_group-IsPlain a b =
    (encode_digit-IsInk _, (encode_digit-IsInk _, (encode_digit-IsInk _, ((λ e. cc, λ e. cc), tt))))

encode_groups-IsPlain : (n : ℕ) (key : Bytes) → IsPlain (encode_groups n key)
unfolding encode_groups
encode_groups-IsPlain (suc n) (a ∷ b ∷ c ∷ key) =
    append-IsPlain (encode_base64 a b c) (encode_groups n key) (encode_base64-IsPlain a b c)
      (encode_groups-IsPlain n key)
encode_groups-IsPlain zero (a ∷ b ∷ []) = last_group-IsPlain a b
encode_groups-IsPlain zero (a ∷ b ∷ c ∷ key) = last_group-IsPlain a b
encode_groups-IsPlain zero [] = tt
encode_groups-IsPlain zero (a ∷ []) = tt
encode_groups-IsPlain (suc n) [] = tt
encode_groups-IsPlain (suc n) (a ∷ []) = tt
encode_groups-IsPlain (suc n) (a ∷ b ∷ []) = tt

pub key_to_base64-IsPlain : (key : Bytes) → IsPlain (key_to_base64 key)
unfolding key_to_base64
key_to_base64-IsPlain key = encode_groups-IsPlain 10 key

pub maybe_key-IsPlain : (key : Bytes) (have_it : Bool) → IsPlain (maybe_key key have_it)
maybe_key-IsPlain key true = key_to_base64-IsPlain key
maybe_key-IsPlain key false = ground arith

digit_char-IsInk : (d : ℕ) → IsInk (digit_char d)
unfolding digit_char
digit_char-IsInk d = (ground arith, ground arith)

digits_onto-IsPlain :
    (base fuel n : ℕ) (s : Bytes) → IsPlain s → IsPlain (digits_onto base fuel n s)
unfolding digits_onto
digits_onto-IsPlain base zero n s h = h
digits_onto-IsPlain base (suc fuel) n s h = elim (Bool-cases (ltb n base)) [
  | inl e ↦ rw e (digit_char-IsInk n, h)
  | inr e ↦ rw e (digits_onto-IsPlain base fuel (n / base) _ (digit_char-IsInk (n % base), h))
]

pub print_u-IsPlain : (n : ℕ) → IsPlain (print_u n)
unfolding print_u
print_u-IsPlain n = digits_onto-IsPlain 10 (suc n) n [] tt

pub print_x-IsPlain : (n : ℕ) → IsPlain (print_x n)
unfolding print_x
print_x-IsPlain n = digits_onto-IsPlain 16 (suc n) n [] tt

pub or_off-IsPlain : (n : ℕ) (text : Bytes) → IsPlain text → IsPlain (or_off n text)
or_off-IsPlain n text h = elim (Bool-cases (n == 0)) [
  | inl e ↦ rw e (ground arith)
  | inr e ↦ rw e h
]

-- A string that may be NULL, and has one column's text if it is there.
abbrev pub IsPlainOption : Option Bytes → Type 0
IsPlainOption none = Unit
IsPlainOption (some s) = IsPlain s

pub or_null-IsPlain : (s : Option Bytes) → IsPlainOption s → IsPlain (or_null s)
or_null-IsPlain none h = ground arith
or_null-IsPlain (some s) h = h
