-- ===== src/Libc/Digits.antt =====
-- What `printf` writes, `strtoul` reads.
use special_potato.Prelude.{
  ℕ, zero, suc, ◌+◌, ◌*◌, ◌/◌, ◌%◌, ◌≤◌, ◌<◌, Bool, true, false, [], ◌∷◌, ◌≡◌, ◌≢◌, refl, ap, ◌∙◌,
  inl, inr, All, Bytes, ltb, arith, Bool-cases, ltb_iff,
}
use native.Mathlib.Nat.{div-add-mod, mod-lt, mul-le-mul_right, zero-mul, zero-add}
use special_potato.Libc.Strtoul.{
  read_digits, digit_of, skip_white, sign_of, skip_prefix, clamp, strtoul,
}
use special_potato.Libc.Printf.{digit_char, digits_onto, print_u, print_x}

digit_of-digit_char : (d : ℕ) → d < 16 → digit_of (digit_char d) ≡ d
unfolding digit_of digit_char
digit_of-digit_char d h = ground arith

read_digit :
    (base : ℕ) (any : Bool) (acc d : ℕ) (s : Bytes)
    → base ≤ 16
    → d < base
    → read_digits base any acc (digit_char d ∷ s) ≡ read_digits base true (acc * base + d) s
unfolding read_digits
read_digit base any acc d s h k =
    rw (digit_of-digit_char d (omega arith)) (rw ((ltb_iff d base).1 k))

not_below : (n base : ℕ) → ltb n base ≡ false → base ≤ n
not_below n base h = ground arith

div_lt : (n base fuel : ℕ) → 2 ≤ base → base ≤ n → n < suc fuel → n / base < fuel
div_lt n base fuel h k lt = omega (arith, div-add-mod n base, mul-le-mul_right (n / base) h)

-- Reading on from a printed number is reading on from its value.
read_digits-digits_onto :
    (base fuel n : ℕ) (any : Bool) (s : Bytes)
    → 2 ≤ base
    → base ≤ 16
    → n < fuel
    → read_digits base any 0 (digits_onto base fuel n s) ≡ read_digits base true n s
unfolding digits_onto
read_digits-digits_onto base zero n any s h k lt = elim lt [ ]
read_digits-digits_onto base (suc fuel) n any s h k lt = elim (Bool-cases (ltb n base)) [
  | inl small ↦
      rw small (read_digit base any 0 n s k ((ltb_iff n base).0 small) ∙ rw zero-mul (rw zero-add))
  | inr large ↦
      let parts = div-add-mod n base in
      let below : n % base < base = mod-lt n (omega arith) in
      let shrinks : n / base < fuel = div_lt n base fuel h (not_below n base large) lt in
      rw large (
        read_digits-digits_onto base fuel (n / base) any (digit_char (n % base) ∷ s) h k shrinks
        ∙ read_digit base true (n / base) (n % base) s k below
        ∙ ap (λ (v : ℕ). read_digits base true v s) (omega arith))
]

-- A string whose first character is a decimal digit.
abbrev pub StartsDecimal : Bytes → Type 0
StartsDecimal [] = ⊥
StartsDecimal (c ∷ s) = (b'0' ≤ c) × (c ≤ b'9')

digits_onto-StartsDecimal :
    (fuel n : ℕ) (s : Bytes) → n < fuel → StartsDecimal (digits_onto 10 fuel n s)
unfolding digits_onto digit_char
digits_onto-StartsDecimal zero n s h = elim h [ ]
digits_onto-StartsDecimal (suc fuel) n s h = elim (Bool-cases (ltb n 10)) [
  | inl small ↦ rw small (ground arith)
  | inr large ↦ rw large (
      digits_onto-StartsDecimal fuel (n / 10) _
        (div_lt n 10 fuel (omega arith) (not_below n 10 large) h))
]

pub print_u-StartsDecimal : (n : ℕ) → StartsDecimal (print_u n)
unfolding print_u
print_u-StartsDecimal n = digits_onto-StartsDecimal (suc n) n [] (omega arith)

abbrev pub IsDigit : ℕ → Type 0
IsDigit c = (b'0' ≤ c) × (c ≤ b'9')

digits_onto-IsDigit :
    (fuel n : ℕ) (s : Bytes) → n < fuel → All IsDigit s → All IsDigit (digits_onto 10 fuel n s)
unfolding digits_onto digit_char
digits_onto-IsDigit zero n s h a = elim h [ ]
digits_onto-IsDigit (suc fuel) n s h a = elim (Bool-cases (ltb n 10)) [
  | inl small ↦ rw small (ground arith, a)
  | inr large ↦ rw large (
      digits_onto-IsDigit fuel (n / 10) _ (div_lt n 10 fuel (omega arith) (not_below n 10 large) h)
        (ground arith, a))
]

-- A printed decimal has decimal digits only.
pub print_u-IsDigit : (n : ℕ) → All IsDigit (print_u n)
unfolding print_u
print_u-IsDigit n = digits_onto-IsDigit (suc n) n [] (omega arith) tt

pub skip_prefix_ten : (s : Bytes) → skip_prefix 10 s ≡ s
unfolding skip_prefix
skip_prefix_ten (z ∷ x ∷ d ∷ s) = refl
skip_prefix_ten [] = refl
skip_prefix_ten (z ∷ []) = refl
skip_prefix_ten (z ∷ x ∷ []) = refl

-- No white space and no sign stand before a digit.
pub skips_nothing : (s : Bytes) → StartsDecimal s → sign_of (skip_white s) ≡ (false, s)
unfolding skip_white sign_of
skips_nothing [] h = elim h [ ]
skips_nothing (c ∷ s) h = ground arith

read_print_u :
    (n : ℕ) → read_digits 10 false 0 (print_u n) ≡ record { any = true; value = n; rest = [] }
unfolding print_u
read_print_u n =
    read_digits-digits_onto 10 (suc n) n false [] (omega arith) (omega arith) (omega arith)
    ∙ unfold read_digits in refl

-- `strtoul` of a printed decimal is its value, cut at `ULONG_MAX`, and reads to the end.
pub strtoul-print_u :
    (ulong_max n : ℕ) → strtoul ulong_max 10 (print_u n) ≡ (clamp ulong_max false n, [])
unfolding strtoul
strtoul-print_u ulong_max n =
    rw (skips_nothing (print_u n) (print_u-StartsDecimal n), skip_prefix_ten (print_u n))
      (rw (read_print_u n))

abbrev pub StartsHex : Bytes → Type 0
StartsHex [] = ⊥
StartsHex (c ∷ s) = digit_of c < 16

digits_onto-StartsHex : (fuel n : ℕ) (s : Bytes) → n < fuel → StartsHex (digits_onto 16 fuel n s)
unfolding digits_onto
digits_onto-StartsHex zero n s h = elim h [ ]
digits_onto-StartsHex (suc fuel) n s h = elim (Bool-cases (ltb n 16)) [
  | inl small ↦
      rw small (rw (digit_of-digit_char n ((ltb_iff n 16).0 small)) ((ltb_iff n 16).0 small))
  | inr large ↦ rw large (
      digits_onto-StartsHex fuel (n / 16) _
        (div_lt n 16 fuel (omega arith) (not_below n 16 large) h))
]

pub skip_prefix_sixteen : (s : Bytes) → StartsHex s → skip_prefix 16 (b'0' ∷ b'x' ∷ s) ≡ s
unfolding skip_prefix
skip_prefix_sixteen [] h = elim h [ ]
skip_prefix_sixteen (c ∷ s) h = rw ((ltb_iff (digit_of c) 16).1 h)

read_print_x :
    (n : ℕ) → read_digits 16 false 0 (print_x n) ≡ record { any = true; value = n; rest = [] }
unfolding print_x
read_print_x n =
    read_digits-digits_onto 16 (suc n) n false [] (omega arith) (omega arith) (omega arith)
    ∙ unfold read_digits in refl

print_x-StartsHex : (n : ℕ) → StartsHex (print_x n)
unfolding print_x
print_x-StartsHex n = digits_onto-StartsHex (suc n) n [] (omega arith)

-- The same of `0x` and hexadecimal digits, in base 16.
pub strtoul-print_x :
    (ulong_max n : ℕ)
    → strtoul ulong_max 16 (b'0' ∷ b'x' ∷ print_x n) ≡ (clamp ulong_max false n, [])
unfolding strtoul
strtoul-print_x ulong_max n =
    rw (skip_prefix_sixteen (print_x n) (print_x-StartsHex n)) (rw (read_print_x n))

starts-ne-nil : (s : Bytes) → StartsHex s → s ≢ []
starts-ne-nil [] h e = h
starts-ne-nil (c ∷ s) h e = cc

pub print_x-ne-nil : (n : ℕ) → print_x n ≢ []
print_x-ne-nil n = starts-ne-nil (print_x n) (print_x-StartsHex n)
