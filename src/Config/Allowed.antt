-- ===== src/Config/Allowed.antt =====
-- config.c: `parse_ip` and `parse_allowedips`.
pub mod Laws
use special_potato.Prelude.{
  ℕ, Bool, true, false, not, ◌&&◌, ◌||◌, List, [], ◌∷◌, ◌++◌, Bytes, Option, none, some, ◌==◌, ltb,
  if◌then◌else◌, length, u8,
}
use special_potato.Libc.{split_first, split_on}
use special_potato.Libc.Strtoul.{strtoul}
use special_potato.Containers.{Family, af_unspec, af_inet, af_inet6, WgAllowedip, WgPeer}
use special_potato.Outcome.{Outcome, ok, error, ◌>>=◌, System}
use special_potato.Config.Number.{is_empty, starts_with_digit}

-- `allowedip->family` with the address; both are left as they are at no address.
pub record Ip : Type 0 where
  pub family : Family
  pub words : List ℕ

abbrev pub ip_of : Family → Option (List ℕ) → Outcome Ip
ip_of f none = error
ip_of f (some ws) = ok (record { family = f; words = ws })

-- The prefix length that an address without a mask has.
abbrev full_cidr : Family → Outcome ℕ
full_cidr af_inet = ok 32
full_cidr af_inet6 = ok 128
full_cidr af_unspec = error

abbrev pub too_long : Family → ℕ → Bool
too_long af_inet cidr = ltb 32 cidr
too_long af_inet6 cidr = ltb 128 cidr
too_long af_unspec cidr = false

module _ (sys : System) where
  unfoldable pub parse_ip : Bytes → Outcome Ip
  parse_ip value = elim (split_first b':' value) [
    | none ↦ ip_of af_inet (sys.inet_pton4 value)
    | some _ ↦ ip_of af_inet6 (sys.inet_pton6 value)
  ]

  unfoldable pub parse_cidr : Family → Option Bytes → Outcome ℕ
  parse_cidr family none = full_cidr family
  parse_cidr family (some mask) =
      if not (starts_with_digit sys mask)
      then error
      else (let (cidr, end) = strtoul sys.ulong_max 10 mask in
          if not (is_empty end) || too_long family cidr then error else ok cidr)

  -- `strsep(&mask, "/")`: the address, and the mask or NULL.
  abbrev at_slash : Bytes → Bytes × Option Bytes
  at_slash entry = elim (split_first b'/' entry) [
    | none ↦ (entry, none)
    | some (ip, mask) ↦ (ip, some mask)
  ]

  -- The body of the loop, up to the entry that it links in.
  unfoldable pub parse_allowedip : Bytes → Outcome WgAllowedip
  parse_allowedip entry = do
    let (text, mask) = at_slash entry
    ip ← parse_ip text
    cidr ← parse_cidr ip.family mask
    ok (record { family = ip.family; ip = ip.words; cidr = u8 cidr })

  -- `last` is whether `*last_allowedip` is not NULL: it is then the last node of the list.
  abbrev pub link : Bool → WgAllowedip → WgPeer → WgPeer
  link true a p = record p { allowedips = p.allowedips ++ a ∷ [] }
  link false a p = record p { allowedips = a ∷ [] }

  unfoldable pub allowedips_loop : List Bytes → Bool → WgPeer → Outcome (WgPeer × Bool)
  allowedips_loop [] last p = ok (p, last)
  allowedips_loop (entry ∷ entries) last p = do
    a ← parse_allowedip entry
    allowedips_loop entries true (link last a p)

  unfoldable pub parse_allowedips : Bytes → Bool → WgPeer → Outcome (WgPeer × Bool)
  parse_allowedips value last p =
      let p' = record p { flags = record (p.flags) { replace_allowedips = true } } in
      if is_empty value then ok (p', last) else allowedips_loop (split_on b',' value) last p'
