-- ===== src/Config/Number/Laws.antt =====
-- The readers of numbers at what `printf` writes, and the range of what they return.
use special_potato.Prelude.{
  ℕ, ◌-◌, ◌^◌, ◌≤◌, ◌<◌, true, false, [], ◌∷◌, ◌≡◌, refl, ap, ◌∙◌, All, inl, inr, Bytes, leb, ltb,
  arith, if◌then◌else◌, Bool-cases, ltb_iff, codes, u32,
}
use Prim.Native.Nat.{min}
use special_potato.Ctype.Laws.{char_is_digit-is_decimal}
use special_potato.Libc.{case_eq}
use special_potato.Libc.Strtoul.{clamp}
use special_potato.Libc.Printf.{print_u, print_x}
use special_potato.Libc.Digits.{
  StartsDecimal, IsDigit, print_u-StartsDecimal, print_u-IsDigit, print_x-ne-nil, strtoul-print_u,
  strtoul-print_x,
}
use special_potato.Containers.{WgPeer, WgDevice}
use special_potato.Outcome.{Outcome, ok, error, exit, System}
use special_potato.Config.Number.{
  has_hex_prefix, is_empty, parse_fwmark, parse_persistent_keepalive, parse_uint16, set_fwmark,
  set_keepalive, starts_with_digit,
}

-- A printed number does not start with a letter, so it is not `off`.
decimal-ne-off : (s : Bytes) → StartsDecimal s → case_eq s (codes "off") ≡ false
unfolding case_eq
decimal-ne-off [] h = elim h [ ]
decimal-ne-off (c ∷ s) h = ground arith

-- A string of decimal digits has no `0x` in front.
decimal_base : (s : Bytes) → All IsDigit s → has_hex_prefix s ≡ false
unfolding has_hex_prefix
decimal_base [] h = refl
decimal_base (c ∷ []) h = refl
decimal_base (c ∷ d ∷ s) h = ground arith

hex_base : (n : ℕ) → has_hex_prefix (b'0' ∷ b'x' ∷ print_x n) ≡ true
unfolding has_hex_prefix
hex_base n = ground (arith, print_x-ne-nil n)

pub u32_small : (n : ℕ) → n ≤ 2 ^ 32 - 1 → u32 n ≡ n
u32_small n h = omega arith

clamp_large : (n : ℕ) → 2 ^ 32 ≤ n → clamp (2 ^ 32 - 1) false n ≡ 2 ^ 32 - 1
unfolding clamp
clamp_large n h = ground arith

module _ (sys : System) where
  pub decimal_starts : (s : Bytes) → StartsDecimal s → starts_with_digit sys s ≡ true
  decimal_starts [] h = elim h [ ]
  decimal_starts (c ∷ s) h = char_is_digit-is_decimal sys.char_signed c (omega arith) ∙ ground arith

  decimal_not_empty : (s : Bytes) → StartsDecimal s → is_empty s ≡ false
  decimal_not_empty [] h = elim h [ ]
  decimal_not_empty (c ∷ s) h = refl

  clamp_small : (n : ℕ) → n ≤ sys.ulong_max → clamp sys.ulong_max false n ≡ n
  unfolding clamp
  clamp_small n h = ground arith

  pub clamp-min : (n : ℕ) → clamp sys.ulong_max false n ≡ min n sys.ulong_max
  unfolding clamp
  clamp-min n = ground arith

  clamp-le : (n bound : ℕ) → n ≤ bound → clamp sys.ulong_max false n ≤ bound
  unfolding clamp
  clamp-le n bound h = ground arith

  clamp-lt : (n bound : ℕ) → bound < sys.ulong_max → bound < n → bound < clamp sys.ulong_max false n
  unfolding clamp
  clamp-lt n bound h k = ground arith

  -- The test for the bound, behind `strtoul`.
  kept_below :
      {A : Type 0} (n bound : ℕ) (f : ℕ → Outcome A)
      → bound < sys.ulong_max
      → (if ltb bound (clamp sys.ulong_max false n) then error else f (clamp sys.ulong_max false n))
        ≡ (if leb n bound then f n else error)
  kept_below n bound f h = elim (Bool-cases (leb n bound)) [
    | inl small ↦
        let le : n ≤ bound = ground arith in
        let test : ltb bound n ≡ false = ground arith in
        rw (small, clamp_small n (omega arith), test)
    | inr large ↦
        let lt : bound < n = ground arith in
        let test : ltb bound (clamp sys.ulong_max false n) ≡ true =
          (ltb_iff bound _).1 (clamp-lt n bound h lt) in
        rw (large, test)
  ]

  -- Of the decimal of any number, `parse_persistent_keepalive` stores the number with its flag if
  -- it is at most 65535, and fails if it is larger, also where `strtoul` overflows.
  pub parse_persistent_keepalive-print_u :
      (n : ℕ) (p : WgPeer)
      → 65535 < sys.ulong_max
      → parse_persistent_keepalive sys (print_u n) p
        ≡ (if leb n 65535 then ok (set_keepalive n p) else error)
  unfolding parse_persistent_keepalive
  parse_persistent_keepalive-print_u n p h =
      rw
        (
          decimal-ne-off (print_u n) (print_u-StartsDecimal n),
          decimal_starts (print_u n) (print_u-StartsDecimal n),
          strtoul-print_u sys.ulong_max n,
        )
        (kept_below n 65535 (λ v. ok (set_keepalive v p)) h)

  -- Where `unsigned long` is wider than 32 bits, `parse_fwmark` stores a number with its flag if it has
  -- 32 bits, and fails if it is larger, both of its decimal and of its hexadecimal behind `0x`, which
  -- `showconf` writes.
  pub parse_fwmark-print :
      (n : ℕ) (d : WgDevice)
      → 2 ^ 32 - 1 < sys.ulong_max
      → let result = if leb n (2 ^ 32 - 1) then ok (set_fwmark n d) else error in
        (parse_fwmark sys (print_u n) d ≡ result)
        × (parse_fwmark sys (b'0' ∷ b'x' ∷ print_x n) d ≡ result)
  unfolding parse_fwmark
  parse_fwmark-print n d h = (
    rw
        (
          decimal-ne-off (print_u n) (print_u-StartsDecimal n),
          decimal_starts (print_u n) (print_u-StartsDecimal n),
          decimal_base (print_u n) (print_u-IsDigit n),
          strtoul-print_u sys.ulong_max n,
        )
        (stored n d h),
    rw
        (
          decimal-ne-off (b'0' ∷ b'x' ∷ print_x n) (omega arith),
          decimal_starts (b'0' ∷ b'x' ∷ print_x n) (omega arith),
          hex_base n,
          strtoul-print_x sys.ulong_max n,
        )
        (stored n d h),
  )
    where
      stored :
          (n : ℕ) (d : WgDevice)
          → 2 ^ 32 - 1 < sys.ulong_max
          → (if ltb (2 ^ 32 - 1) (clamp sys.ulong_max false n)
              then error
              else ok (set_fwmark (u32 (clamp sys.ulong_max false n)) d))
            ≡ (if leb n (2 ^ 32 - 1) then ok (set_fwmark n d) else error)
      stored n d h =
          kept_below n (2 ^ 32 - 1) (λ v. ok (set_fwmark (u32 v) d)) h
          ∙ elim (Bool-cases (leb n (2 ^ 32 - 1))) [
            | inl small ↦
                rw small (ap (λ (v : ℕ). ok (set_fwmark v d)) (u32_small n (ground arith)))
            | inr large ↦ rw large
          ]

  -- Where `unsigned long` has 32 bits the test for the bound never fires: every decimal above the
  -- range is read as the largest mark.
  pub parse_fwmark_saturates :
      (n : ℕ) (d : WgDevice)
      → sys.ulong_max ≡ 2 ^ 32 - 1
      → 2 ^ 32 ≤ n
      → parse_fwmark sys (print_u n) d ≡ ok (set_fwmark (2 ^ 32 - 1) d)
  unfolding parse_fwmark
  parse_fwmark_saturates n d e h =
      let cut : clamp sys.ulong_max false n ≡ 2 ^ 32 - 1 = rw e (clamp_large n h) in
      rw (
        decimal-ne-off (print_u n) (print_u-StartsDecimal n),
        decimal_starts (print_u n) (print_u-StartsDecimal n),
        decimal_base (print_u n) (print_u-IsDigit n),
        strtoul-print_u sys.ulong_max n,
        cut,
      )

  -- Of the decimal of any number, `parse_uint16` looks at the number, or at `ULONG_MAX` if it is
  -- larger, modulo 2 ^ 32: it returns that remainder if it is at most 65535, and ends the program if it
  -- is larger.
  pub parse_uint16-print_u :
      (n : ℕ)
      → let v = u32 (min n sys.ulong_max) in
        parse_uint16 sys (print_u n) ≡ (if leb v 65535 then ok v else exit)
  unfolding parse_uint16
  parse_uint16-print_u n =
      rw
        (
          decimal_not_empty (print_u n) (print_u-StartsDecimal n),
          strtoul-print_u sys.ulong_max n,
          clamp-min n,
        )
        (ground arith)

  -- Whatever the text, a value that is returned has 16 bits.
  pub parse_uint16-le : (value : Bytes) {n : ℕ} → parse_uint16 sys value ≡ ok n → n ≤ 65535
  unfolding parse_uint16
  parse_uint16-le value h = ground arith
