-- ===== src/Libc/Strtoul.antt =====
-- `strtoul`: white space, a sign, an optional `0x` in base 16, digits. A value above `ULONG_MAX` is
-- `ULONG_MAX`; a minus sign negates modulo `ULONG_MAX + 1`. Without a digit nothing is read.
use special_potato.Prelude.{
  ℕ, ◌+◌, ◌-◌, ◌*◌, ◌%◌, Bool, true, false, ◌&&◌, ◌||◌, [], ◌∷◌, Bytes, leb, ltb, ◌==◌,
  if◌then◌else◌,
}

abbrev pub is_white : ℕ → Bool
is_white c = (leb 9 c && leb c 13) || c == b' '

unfoldable pub skip_white : Bytes → Bytes
skip_white [] = []
skip_white (c ∷ s) = let rest = skip_white s in if is_white c then rest else c ∷ s

-- The value of a digit in bases up to 16; 16 at no digit.
unfoldable pub digit_of : ℕ → ℕ
digit_of c =
    if leb b'0' c && leb c b'9'
    then c - b'0'
    else if leb b'a' c && leb c b'f'
    then c - b'a' + 10
    else if leb b'A' c && leb c b'F'
    then c - b'A' + 10
    else 16

-- The digits in front: whether there is one, their value behind `acc`, and what follows.
pub record Digits : Type 0 where
  pub any : Bool
  pub value : ℕ
  pub rest : Bytes

unfoldable pub read_digits : ℕ → Bool → ℕ → Bytes → Digits
unfolding digit_of
read_digits base any acc [] = record { any = any; value = acc; rest = [] }
read_digits base any acc (c ∷ s) =
    let more = read_digits base true (acc * base + digit_of c) s in
    if ltb (digit_of c) base then more else record { any = any; value = acc; rest = c ∷ s }

unfoldable pub sign_of : Bytes → Bool × Bytes
sign_of [] = (false, [])
sign_of (c ∷ s) = if c == b'-' then (true, s) else if c == b'+' then (false, s) else (false, c ∷ s)

-- In base 16 a `0x` is passed over if a digit follows it.
unfoldable pub skip_prefix : ℕ → Bytes → Bytes
unfolding digit_of
skip_prefix base (z ∷ x ∷ d ∷ s) =
    if base == 16 && z == b'0' && (x == b'x' || x == b'X') && ltb (digit_of d) 16
    then d ∷ s
    else z ∷ x ∷ d ∷ s
skip_prefix base s = s

unfoldable pub clamp : ℕ → Bool → ℕ → ℕ
clamp ulong_max negative v =
    if ltb ulong_max v
    then ulong_max
    else if negative
    then (ulong_max + 1 - v) % (ulong_max + 1)
    else v

-- The value, and the string at `*end`.
unfoldable pub strtoul : ℕ → ℕ → Bytes → ℕ × Bytes
unfolding skip_white read_digits sign_of skip_prefix clamp
strtoul ulong_max base s =
    let (negative, t) = sign_of (skip_white s) in
    let d = read_digits base false 0 (skip_prefix base t) in
    if d.any then (clamp ulong_max negative d.value, d.rest) else (0, s)
