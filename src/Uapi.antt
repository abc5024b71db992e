-- ===== src/Uapi.antt =====
-- tunnel/tools/amneziawg-tools/src/ipc-uapi.h: the protocol with a userspace implementation. Here are
-- the lines of a reply and the codes that the calls return; the children are the two calls.
-- A line is what `getline` stores, with its newline, up to its first zero byte.
pub mod Set
pub mod Get
use special_potato.Prelude.{
  ℕ, ◌-◌, ◌^◌, Bool, true, false, not, ◌&&◌, ◌||◌, List, [], ◌∷◌, Bytes, Option, none, some, ltb,
  ◌==◌, if◌then◌else◌, char_to_int,
}
use special_potato.Ctype.{char_is_digit}
use special_potato.Libc.{split_first, split_last, str_eq}
use special_potato.Libc.Strtoul.{read_digits, sign_of, skip_white, strtoul}
use special_potato.Config.Number.{is_empty, first_char}

-- An `int` or a `long long`; `negsuc n` is -(n + 1).
pub data ℤ : Type 0 where
  pos negsuc : ℕ → ℤ

abbrev pub negative : ℕ → ℤ
negative n = if n == 0 then pos 0 else negsuc (n - 1)

-- The numbers of the errors, which the platform chooses.
pub record Errors : Type 0 where
  pub eproto : ℕ
  pub einval : ℕ
  pub enetunreach : ℕ

-- What stands in front of a last newline.
abbrev pub chomp : Option (Bytes × Bytes) → Option Bytes
chomp (some (s, [])) = some s
chomp _ = none

-- `key=value` and the newline; `none` is the `break`.
unfoldable pub entry : Bytes → Option (Bytes × Bytes)
entry line = elim (chomp (split_last 10 line)) [ none ↦ none | some s ↦ split_first b'=' s ]

-- `line_len == 1 && key[0] == '\n'`.
abbrev pub is_blank_line : Bytes → Bool
is_blank_line (c ∷ []) = c == 10
is_blank_line _ = false

module _ (signed : Bool) where
  abbrev pub digit_first : Bytes → Bool
  digit_first value = char_is_digit (char_to_int signed (first_char value))

  -- `NUM(max)`, with an `unsigned long long` of 64 bits; `none` is the `break`.
  unfoldable pub num : ℕ → Bytes → Option ℕ
  num max value =
      if not (digit_first value)
      then none
      else (let (n, end) = strtoul (2 ^ 64 - 1) 10 value in
          if not (is_empty end) || ltb max n then none else some n)

  -- The value of an `errno` line in the reply to a set request, an `int`. Beyond its range `strtoll`
  -- is beyond it too, also where it stops at the ends of a `long long`.
  unfoldable pub int_value : Bytes → Option ℤ
  int_value value =
      if not (first_char value == b'-') && not (digit_first value)
      then none
      else (let (minus, t) = sign_of (skip_white value) in
          let d = read_digits 10 false 0 t in
          if not (d.any && is_empty d.rest)
          then none
          else if minus
          then (if ltb (2 ^ 31) d.value then none else some (negative d.value))
          else if ltb (2 ^ 31 - 1) d.value
          then none
          else some (pos d.value))
