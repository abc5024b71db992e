-- ===== src/Config/Netmask.antt =====
-- config.c: `validate_netmask`.
pub mod Laws
use special_potato.Prelude.{
  ℕ, zero, suc, ◌+◌, ◌-◌, ◌*◌, ◌/◌, ◌^◌, Bool, true, false, not, List, [], ◌∷◌, ◌==◌, leb, ltb,
  if◌then◌else◌, bit_and, get_elem?, shr, Option, none, some,
}
use special_potato.Containers.{Family, af_unspec, af_inet, af_inet6, WgAllowedip}

abbrev pub word : List ℕ → ℕ → ℕ
word [] i = 0
word (w ∷ ws) zero = w
word (w ∷ ws) (suc i) = word ws i

-- The bits of word `i` that the prefix does not cover, as a mask.
abbrev pub host_mask : ℕ → ℕ → ℕ
host_mask cidr i = if ltb (32 * i) cidr then shr (2 ^ 32 - 1) (cidr - 32 * i) else 2 ^ 32 - 1

-- The rounds of the loop for the words below `n`, the last first.
unfoldable pub host_loop : ℕ → List ℕ → ℕ → Bool
host_loop cidr ip zero = true
host_loop cidr ip (suc i) =
    let rest = host_loop cidr ip i in
    if leb (32 * (i + 1)) cidr
    then true
    else if not (bit_and (word ip i) (host_mask cidr i) == 0)
    then false
    else rest

abbrev validate_in : Family → ℕ → List ℕ → Bool
validate_in af_inet cidr ip = host_loop cidr ip 1
validate_in af_inet6 cidr ip = host_loop cidr ip 4
validate_in af_unspec cidr ip = true

unfoldable pub validate_netmask : WgAllowedip → Bool
validate_netmask a = validate_in a.family a.cidr a.ip
