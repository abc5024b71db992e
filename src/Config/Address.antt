-- ===== src/Config/Address.antt =====
-- config.c: `parse_port`, `parse_dns_retries` and `parse_endpoint`.
pub mod Laws
use special_potato.Prelude.{
  ℕ, zero, suc, ◌+◌, ◌-◌, ◌*◌, ◌/◌, ◌%◌, ◌^◌, Bool, true, false, not, ◌&&◌, ◌||◌, List, [], ◌∷◌,
  Bytes, Option, none, some, codes, ◌==◌, ltb, if◌then◌else◌, length, u32,
}
use special_potato.Libc.{str_eq, split_first, split_last}
use special_potato.Libc.Strtoul.{strtoul}
use special_potato.Containers.{Family, af_unspec, af_inet, af_inet6, Sockaddr, WgDevice}
use special_potato.Outcome.{
  Outcome, ok, error, exit, pending, ◌>>=◌, System, Addrinfo, Lookup, resolved, gai_error, GaiError,
  eai_noname, eai_fail, eai_nodata, eai_other,
}
use special_potato.Config.Number.{is_empty}

-- `sizeof(struct sockaddr_in)` and `sizeof(struct sockaddr_in6)`.
abbrev address_size : Family → Option ℕ
address_size af_inet = some 16
address_size af_inet6 = some 28
address_size af_unspec = none

abbrev pub is_ip : Addrinfo → Bool
is_ip a = elim (address_size a.ai_family) [ none ↦ false | some n ↦ a.ai_addrlen == n ]

abbrev pub set_port : ℕ → WgDevice → WgDevice
set_port n d = record d { listen_port = n; flags = record (d.flags) { has_listen_port = true } }

-- The failures after which no retry is made.
abbrev pub is_permanent : GaiError → Bool
is_permanent eai_other = false
is_permanent _ = true

-- -1 is `infinite`.
pub data Retries : Type 0 where
  infinite : Retries
  finite : ℕ → Retries

-- `timeout = min(20000000, timeout * 6 / 5)` in `unsigned int`.
unfoldable pub next_timeout : ℕ → ℕ
next_timeout t = let t' = u32 (t * 6) / 5 in if ltb 20000000 t' then 20000000 else t'

abbrev pub first_timeout : ℕ
first_timeout = 1000000

-- How the wait for a name ended, and the pauses made.
pub record Waited : Type 0 where
  pub address : Outcome Addrinfo
  pub pauses : List ℕ

abbrev without_pause : Outcome Addrinfo → Waited
without_pause r = record { address = r; pauses = [] }

-- Host and port of an endpoint: `[host]:port`, or `host:port` at the last colon.
abbrev after_bracket : Bytes × Bytes → Option (Bytes × Bytes)
after_bracket (host, []) = none
after_bracket (host, c ∷ port) =
    if not (c == b':') || is_empty port then none else some (host, port)

abbrev after_colon : Bytes × Bytes → Option (Bytes × Bytes)
after_colon (host, port) = if is_empty port then none else some (host, port)

abbrev maybe {ℓ} : {A : Type ℓ} → (A → Option A) → Option A → Option A
maybe f none = none
maybe f (some a) = f a

unfoldable pub split_endpoint : Bytes → Option (Bytes × Bytes)
split_endpoint [] = none
split_endpoint (c ∷ s) =
    if c == b'['
    then maybe after_bracket (split_first b']' s)
    else maybe after_colon (split_last b':' (c ∷ s))

module _ (sys : System) where
  unfoldable pub parse_port : Bytes → WgDevice → Outcome WgDevice
  parse_port value d = if is_empty value then error else elim (sys.getaddrinfo 0 none value) [
    | gai_error e ↦ error
    | resolved a ↦ if is_ip a then ok (set_port a.ai_addr.port d) else error
  ]

  unfoldable pub parse_dns_retries : Outcome Retries
  parse_dns_retries = elim (sys.retries) [
    | none ↦ ok (finite 15)
    | some text ↦
        if str_eq text (codes "infinity")
        then ok infinite
        else (let (ret, end) = strtoul sys.ulong_max 10 text in
            if not (is_empty end) || ltb (2 ^ 31 - 1) ret then exit else ok (finite ret))
  ]

  -- The loop of `parse_endpoint`, from the n-th attempt on: with a bound, `rounds` attempts are
  -- left; without one, `rounds` more are watched.
  unfoldable pub resolve :
      (bounded : Bool) (host service : Bytes) (rounds attempt timeout : ℕ) → Waited
  resolve bounded host service zero attempt timeout = without_pause pending
  resolve bounded host service (suc rounds) attempt timeout =
      let rest = resolve bounded host service rounds (attempt + 1) (next_timeout timeout) in
      elim (sys.getaddrinfo attempt (some host) service) [
        | resolved a ↦ without_pause (ok a)
        | gai_error e ↦
            if is_permanent e || (bounded && rounds == 0)
            then without_pause error
            else record { address = rest.address; pauses = timeout ∷ rest.pauses }
      ]

  -- `retries` more attempts after the first; without a bound, as many as are watched for.
  unfoldable pub resolve_with : Retries → Bytes → Bytes → Waited
  resolve_with (finite n) host service = resolve true host service (suc n) 0 first_timeout
  resolve_with infinite host service = resolve false host service sys.patience 0 first_timeout

  abbrev pub accept : Addrinfo → Outcome Sockaddr
  accept a = if is_ip a then ok a.ai_addr else error

  unfoldable pub parse_endpoint : Bytes → Outcome Sockaddr
  parse_endpoint value = do
    retries ← parse_dns_retries
    elim (split_endpoint value) [
      | none ↦ error
      | some (host, service) ↦ (resolve_with retries host service).address >>= accept
    ]
