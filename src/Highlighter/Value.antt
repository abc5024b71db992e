-- ===== src/Highlighter/Value.antt =====
-- highlighter.c: the validators of numbers, endpoints and networks.
pub mod Number
use special_potato.Prelude.{
  ℕ, zero, suc, ◌+◌, ◌-◌, ◌*◌, ◌^◌, bit_or, Bool, true, false, not, ◌&&◌, ◌||◌, List, [], ◌∷◌, ◌++◌,
  Bytes, Option, none, some, codes, leb, ltb, ◌==◌, if◌then◌else◌, length,
}
use special_potato.Libc.{split_first}
use special_potato.Config.Number.{is_empty, has_hex_prefix}
use special_potato.Highlighter.Classes.{is_decimal, is_same}
use special_potato.Highlighter.Host.{
  is_valid_hostname, is_valid_ipv4, is_valid_ipv6, is_valid_scope,
}

-- The value of the digits; `none` is the early `return false`.
unfoldable pub dec_loop : ℕ → Bytes → Option ℕ
dec_loop val [] = some val
dec_loop val (c ∷ s) =
    let more = dec_loop (10 * val + (c - b'0')) s in if is_decimal c then more else none

abbrev hex_letter : ℕ → Bool
hex_letter c = leb b'a' (bit_or c 32) && leb (bit_or c 32) b'f'

unfoldable pub hex_loop : ℕ → Bytes → Option ℕ
unfolding is_decimal
hex_loop val [] = some val
hex_loop val (c ∷ s) =
    let digit = if is_decimal c then c - b'0' else bit_or c 32 - b'a' + 10 in
    let more = hex_loop (16 * val + digit) s in if is_decimal c || hex_letter c then more else none

abbrev within : ℕ → ℕ → Option ℕ → Bool
within low high none = false
within low high (some val) = leb val high && leb low val

abbrev behind_prefix : Bytes → Bytes
behind_prefix (z ∷ x ∷ s) = s
behind_prefix s = s

-- At most ten characters, so `val` stays far below 64 bits.
unfoldable pub is_valid_uint : Bytes → Bool → ℕ → ℕ → Bool
is_valid_uint s support_hex low high =
    if ltb 10 (length s) || is_empty s
    then false
    else if support_hex && has_hex_prefix s
    then within low high (hex_loop 0 (behind_prefix s))
    else within low high (dec_loop 0 s)

unfoldable pub is_valid_port : Bytes → Bool
is_valid_port s = is_valid_uint s false 0 65535

unfoldable pub is_valid_mtu : Bytes → Bool
is_valid_mtu s = is_valid_uint s false 576 65535

unfoldable pub is_valid_persistentkeepalive : Bytes → Bool
is_valid_persistentkeepalive s =
    if is_same s (codes "off") then true else is_valid_uint s false 0 65535

unfoldable pub is_valid_fwmark : Bytes → Bool
is_valid_fwmark s = if is_same s (codes "off") then true else is_valid_uint s true 0 4294967295

unfoldable pub is_valid_table : Bytes → Bool
is_valid_table s =
    if is_same s (codes "auto")
    then true
    else if is_same s (codes "off")
    then true
    else if ltb (length s) 512
    then true
    else is_valid_uint s false 0 4294967295

unfoldable pub is_valid_saveconfig : Bytes → Bool
is_valid_saveconfig s = is_same s (codes "true") || is_same s (codes "false")

unfoldable pub is_valid_prepostupdown : Bytes → Bool
is_valid_prepostupdown s = not (is_empty s)

-- What follows the closing bracket: a colon and a port.
abbrev port_behind : Bytes → Bool
port_behind [] = false
port_behind (c ∷ s) = c == b':' && is_valid_port s

-- The loop behind an opening bracket; `host` is what `hostspan` covers.
unfoldable pub bracket_loop : Bool → Bytes → Bytes → Bool
bracket_loop seen_scope host [] = false
bracket_loop seen_scope host (c ∷ s) =
    let scope = bracket_loop true [] s in
    let more = bracket_loop seen_scope (host ++ (c ∷ [])) s in
    if c == b'%'
    then (if seen_scope then false else if not (is_valid_ipv6 host c) then false else scope)
    else if c == b']'
    then (if not (if seen_scope then is_valid_scope host else is_valid_ipv6 host c)
        then false
        else port_behind s)
    else more

abbrev bare_endpoint : Option (Bytes × Bytes) → Bool
bare_endpoint none = false
bare_endpoint (some (host, port)) =
    is_valid_port port && (is_valid_ipv4 host b':' || is_valid_hostname host)

unfoldable pub is_valid_endpoint : Bytes → Bool
is_valid_endpoint [] = false
is_valid_endpoint (c ∷ s) =
    if c == b'[' then bracket_loop false [] s else bare_endpoint (split_first b':' (c ∷ s))

-- At most three digits, so the `uint16_t` does not overflow.
unfoldable pub is_valid_network : Bytes → ℕ → Bool
is_valid_network s next = elim (split_first b'/' s) [
  | none ↦ is_valid_ipv4 s next || is_valid_ipv6 s next
  | some (ip, cidr) ↦
      if ltb 3 (length cidr) || is_empty cidr then false else elim (dec_loop 0 cidr) [
        | none ↦ false
        | some cidrval ↦
            if is_valid_ipv4 ip b'/'
            then leb cidrval 32
            else if is_valid_ipv6 ip b'/'
            then leb cidrval 128
            else false
      ]
]
