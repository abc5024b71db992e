-- ===== src/Highlighter/Host.antt =====
-- highlighter.c: `is_valid_hostname`, `is_valid_ipv4`, `is_valid_ipv6` and `is_valid_scope`. The last
-- two loops may look at the character behind the span, which is their argument `next`.
pub mod Name
pub mod Digits
pub mod Ipv4
use special_potato.Prelude.{
  ℕ, zero, suc, ◌+◌, ◌-◌, ◌*◌, Bool, true, false, not, ◌&&◌, ◌||◌, List, [], ◌∷◌, Bytes, leb, ltb,
  ◌==◌, if◌then◌else◌, length,
}
use special_potato.Config.Number.{is_empty, first_char}
use special_potato.Highlighter.Classes.{is_decimal, is_hexadecimal, is_alphabet}

abbrev last_char : Bytes → ℕ
last_char [] = 0
last_char (c ∷ []) = c
last_char (c ∷ d ∷ s) = last_char (d ∷ s)

-- `previous` is zero in front of the first character.
unfoldable pub hostname_loop : (previous num_digit num_entity : ℕ) → Bytes → Bool
hostname_loop previous num_digit num_entity [] = not (num_digit == num_entity)
hostname_loop previous num_digit num_entity (c ∷ s) =
    let digit = hostname_loop c (num_digit + 1) num_entity s in
    let dot = hostname_loop c num_digit (num_entity - 1) s in
    let other = hostname_loop c num_digit num_entity s in
    if is_decimal c
    then digit
    else if c == b'.'
    then dot
    else if not (is_alphabet c) && not (c == b'-')
    then false
    else if c == b'.' && previous == b'.'
    then false
    else other

unfoldable pub is_valid_hostname : Bytes → Bool
is_valid_hostname s =
    if ltb 63 (length s) || is_empty s
    then false
    else if first_char s == b'-' || last_char s == b'-'
    then false
    else if first_char s == b'.' || last_char s == b'.'
    then false
    else hostname_loop 0 0 (length s) s

-- A number of at most `n` digits in front: how many there are, the value behind `val`, and the rest.
pub record Octet : Type 0 where
  pub count : ℕ
  pub value : ℕ
  pub rest : Bytes

unfoldable pub octet_loop : (n count val : ℕ) → Bytes → Octet
octet_loop (suc n) count val (c ∷ s) =
    let more = octet_loop n (count + 1) (10 * val + (c - b'0')) s in
    if is_decimal c then more else record { count = count; value = val; rest = c ∷ s }
octet_loop n count val s = record { count = count; value = val; rest = s }

-- `s[0]` of the rest of a span.
abbrev pub char_at : Bytes → ℕ → ℕ
char_at [] next = next
char_at (c ∷ s) next = c

abbrev pub behind : Bytes → Bytes
behind [] = []
behind (c ∷ s) = s

-- The loop with `n` rounds left. Past the end of the span the rest is empty.
unfoldable pub ipv4_loop : ℕ → Bytes → ℕ → Bool
ipv4_loop zero s next = false
ipv4_loop (suc n) [] next = false
ipv4_loop (suc n) (c ∷ s) next =
    let o = octet_loop 3 0 0 (c ∷ s) in
    let more = ipv4_loop n (behind o.rest) next in
    if o.count == 0 || (ltb 1 o.count && c == b'0') || ltb 255 o.value
    then false
    else if is_empty o.rest && n == 0
    then true
    else if not (char_at o.rest next == b'.')
    then false
    else more

unfoldable pub is_valid_ipv4 : Bytes → ℕ → Bool
is_valid_ipv4 s next = ipv4_loop 4 s next

-- At most `n` hexadecimal digits in front: how many there are, and the rest.
unfoldable pub group_loop : (n count : ℕ) → Bytes → ℕ × Bytes
group_loop (suc n) count (c ∷ s) =
    let more = group_loop n (count + 1) s in if is_hexadecimal c then more else (count, c ∷ s)
group_loop n count s = (count, s)

-- `left` rounds may follow: `i` is `7 - left`. The first clause is not reached.
unfoldable pub ipv6_loop : ℕ → Bool → Bytes → ℕ → Bool
ipv6_loop zero seen_colon s next = false
ipv6_loop (suc left) seen_colon [] next = true
ipv6_loop (suc left) seen_colon (c ∷ s) next =
    let (count, rest) = group_loop 4 0 (c ∷ s) in
    let compressed = ipv6_loop left true s next in
    let more = ipv6_loop left seen_colon (behind rest) next in
    if c == b':' && not seen_colon
    then (if is_empty s then true else if left == 0 then false else compressed)
    else if count == 0
    then false
    else if is_empty rest && (seen_colon || left == 0)
    then true
    else if left == 0
    then false
    else if not (char_at rest next == b':')
    then (if not (char_at rest next == b'.') || (ltb 1 left && not seen_colon)
        then false
        else is_valid_ipv4 (c ∷ s) next)
    else more

-- A last colon behind another character.
abbrev ends_in_colon : Bytes → Bool
ends_in_colon [] = false
ends_in_colon (c ∷ []) = false
ends_in_colon (c ∷ d ∷ []) = d == b':' && not (c == b':')
ends_in_colon (c ∷ d ∷ e ∷ s) = ends_in_colon (d ∷ e ∷ s)

unfoldable pub is_valid_ipv6 : Bytes → ℕ → Bool
is_valid_ipv6 [] next = false
is_valid_ipv6 (c ∷ []) next = false
is_valid_ipv6 (c ∷ d ∷ s) next =
    if c == b':' && not (d == b':')
    then false
    else if ends_in_colon (c ∷ d ∷ s)
    then false
    else ipv6_loop 8 false (if c == b':' then d ∷ s else c ∷ d ∷ s) next

unfoldable pub is_scope_char : ℕ → Bool
is_scope_char c =
    is_alphabet c || is_decimal c || c == b'_' || c == b'=' || c == b'+' || c == b'.' || c == b'-'

abbrev all_scope_chars : Bytes → Bool
all_scope_chars [] = true
all_scope_chars (c ∷ s) = is_scope_char c && all_scope_chars s

unfoldable pub is_valid_scope : Bytes → Bool
is_valid_scope s = if ltb 64 (length s) || is_empty s then false else all_scope_chars s
