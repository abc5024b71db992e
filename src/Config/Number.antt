-- ===== src/Config/Number.antt =====
-- config.c: `parse_fwmark`, `parse_persistent_keepalive`, `parse_awg_string`, `parse_uint16` and
-- `parse_bool`.
pub mod Laws
use special_potato.Prelude.{
  ℕ, ◌-◌, ◌*◌, ◌%◌, ◌^◌, Bool, true, false, not, ◌&&◌, ◌||◌, [], ◌∷◌, Bytes, Option, none, some,
  codes, leb, ltb, ◌==◌, if◌then◌else◌, length, u32, char_to_int, get_elem?,
}
use special_potato.Ctype.{char_is_digit}
use special_potato.Libc.{case_eq}
use special_potato.Libc.Strtoul.{strtoul}
use special_potato.Containers.{WgPeer, WgDevice}
use special_potato.Outcome.{Outcome, ok, error, exit, System}

-- `*s` for a string: zero at its end.
abbrev pub first_char : Bytes → ℕ
first_char [] = 0
first_char (c ∷ s) = c

abbrev pub is_empty : Bytes → Bool
is_empty [] = true
is_empty (c ∷ s) = false

-- `s[i] == c`; a string has no byte past its end.
abbrev is_char : ℕ → Option ℕ → Bool
is_char c none = false
is_char c (some d) = d == c

abbrev pub at_char : Bytes → ℕ → ℕ → Bool
at_char s i c = is_char c (get_elem? s i)

abbrev pub max_awg_string_len : ℕ
max_awg_string_len = 5 * 1024

unfoldable pub parse_awg_string : Bytes → Outcome (Option Bytes)
parse_awg_string value =
    if is_empty value
    then ok none
    else if leb max_awg_string_len (length value)
    then error
    else ok (some value)

abbrev pub set_fwmark : ℕ → WgDevice → WgDevice
set_fwmark n d = record d { fwmark = n; flags = record (d.flags) { has_fwmark = true } }

abbrev pub set_keepalive : ℕ → WgPeer → WgPeer
set_keepalive n p = record p {
  persistent_keepalive_interval = n;
  flags = record (p.flags) { has_keepalive = true };
}

-- The test of `parse_fwmark` for base 16.
unfoldable pub has_hex_prefix : Bytes → Bool
has_hex_prefix value = ltb 2 (length value) && at_char value 0 b'0' && at_char value 1 b'x'

module _ (sys : System) where
  abbrev pub starts_with_digit : Bytes → Bool
  starts_with_digit s = char_is_digit (char_to_int sys.char_signed (first_char s))

  -- `unsigned long` is at least 32 bits wide, so a test above `UINT32_MAX` may be vacuous.
  unfoldable pub parse_fwmark : Bytes → WgDevice → Outcome WgDevice
  parse_fwmark value d =
      if case_eq value (codes "off")
      then ok (set_fwmark 0 d)
      else if not (starts_with_digit value)
      then error
      else (let (ret, end) =
            strtoul sys.ulong_max (if has_hex_prefix value then 16 else 10) value in
          if not (is_empty end) || ltb (2 ^ 32 - 1) ret then error else ok (set_fwmark (u32 ret) d))

  unfoldable pub parse_persistent_keepalive : Bytes → WgPeer → Outcome WgPeer
  parse_persistent_keepalive value p =
      if case_eq value (codes "off")
      then ok (set_keepalive 0 p)
      else if not (starts_with_digit value)
      then error
      else (let (ret, end) = strtoul sys.ulong_max 10 value in
          if not (is_empty end) || ltb 65535 ret then error else ok (set_keepalive ret p))

  -- The value passes through a `uint32_t` before the test.
  unfoldable pub parse_uint16 : Bytes → Outcome ℕ
  parse_uint16 value =
      if is_empty value
      then error
      else (let (ret, end) = strtoul sys.ulong_max 10 value in
          if not (is_empty end) || ltb 65535 (u32 ret) then exit else ok (u32 ret))

  unfoldable pub parse_bool : Bytes → Outcome Bool
  parse_bool value =
      if is_empty value
      then error
      else if case_eq value (codes "off")
      then ok false
      else if case_eq value (codes "on")
      then ok true
      else if not (starts_with_digit value)
      then error
      else (let (ret, end) = strtoul sys.ulong_max 10 value in
          if not (is_empty end) then exit else ok (not (u32 ret == 0)))
