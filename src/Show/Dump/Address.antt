-- ===== src/Show/Dump/Address.antt =====
-- What `ip` and `endpoint` write has no tab and no line feed, if the C library writes none.
use special_potato.Prelude.{
  ℕ, List, [], ◌∷◌, ◌++◌, Bytes, Option, none, some, codes, ◌≡◌, refl, arith, inl, inr, ◌⊎◌,
}
use special_potato.Libc.{split_first}
use special_potato.Libc.Printf.{print_u}
use special_potato.Containers.{Family, af_inet, af_inet6, af_unspec, Sockaddr, WgAllowedip}
use special_potato.Show.Dump.{
  or_empty, endpoint_text, bracketed, host_and_service, ip, endpoint, endpoint_column, ips_column,
}
use special_potato.Show.Dump.Columns.{IsPlain}
use special_potato.Show.Dump.Plain.{append-IsPlain, print_u-IsPlain, IsPlainOption}

abbrev pub IsPlainName : (Bytes × Bytes) ⊎ Bytes → Type 0
IsPlainName (inl (host, service)) = IsPlain host × IsPlain service
IsPlainName (inr error) = IsPlain error

-- What the C library writes for addresses has no tab and no line feed.
pub record IsPlainLibc (inet_ntop : Family → List ℕ → Option Bytes)
    (getnameinfo : Sockaddr → (Bytes × Bytes) ⊎ Bytes) : Type 0 where
  pub address : (family : Family) (words : List ℕ) → IsPlainOption (inet_ntop family words)
  pub host : (a : Sockaddr) → IsPlainName (getnameinfo a)

written-IsPlain : (s : Option Bytes) → IsPlainOption s → IsPlain (or_empty s)
written-IsPlain none h = tt
written-IsPlain (some s) h = h

with_port-IsPlain :
    (host service : Bytes) → IsPlain host → IsPlain service → IsPlain (host ++ codes ":" ++ service)
with_port-IsPlain host service h s =
    append-IsPlain (host ++ codes ":") service (append-IsPlain host (codes ":") h (ground arith)) s

endpoint_text-IsPlain : (f : Family) (text : Bytes) → IsPlain text → IsPlain (endpoint_text f text)
endpoint_text-IsPlain af_unspec text h = ground arith
endpoint_text-IsPlain af_inet text h = h
endpoint_text-IsPlain af_inet6 text h = h

bracketed-IsPlain :
    (colon : Option (Bytes × Bytes)) (host service : Bytes)
    → IsPlain host
    → IsPlain service
    → IsPlain (bracketed colon host service)
bracketed-IsPlain none host service h s = with_port-IsPlain host service h s
bracketed-IsPlain (some _) host service h s =
    append-IsPlain (codes "[" ++ host ++ codes "]:") service
      (append-IsPlain (codes "[" ++ host) (codes "]:")
        (append-IsPlain (codes "[") host (ground arith) h) (ground arith))
      s

host_and_service-IsPlain :
    (f : Family) (r : (Bytes × Bytes) ⊎ Bytes) → IsPlainName r → IsPlain (host_and_service f r)
host_and_service-IsPlain af_inet6 (inl (host, service)) h =
    bracketed-IsPlain (split_first b':' host) host service h.0 h.1
host_and_service-IsPlain af_inet (inl (host, service)) h = with_port-IsPlain host service h.0 h.1
host_and_service-IsPlain af_unspec (inl (host, service)) h = with_port-IsPlain host service h.0 h.1
host_and_service-IsPlain af_inet6 (inr error) h = h
host_and_service-IsPlain af_inet (inr error) h = h
host_and_service-IsPlain af_unspec (inr error) h = h

module _ (inet_ntop : Family → List ℕ → Option Bytes)
    (getnameinfo : Sockaddr → (Bytes × Bytes) ⊎ Bytes)
    (libc : IsPlainLibc inet_ntop getnameinfo) where
  ntop-IsPlain :
      (a : WgAllowedip) (f : Family) → a.family ≡ f → IsPlain (ip inet_ntop getnameinfo a)
  ntop-IsPlain a af_unspec e = rw e tt
  ntop-IsPlain a af_inet e =
      rw e (written-IsPlain (inet_ntop af_inet a.ip) (libc.address af_inet a.ip))
  ntop-IsPlain a af_inet6 e =
      rw e (written-IsPlain (inet_ntop af_inet6 a.ip) (libc.address af_inet6 a.ip))

  ip-IsPlain : (a : WgAllowedip) → IsPlain (ip inet_ntop getnameinfo a)
  ip-IsPlain a = ntop-IsPlain a a.family refl

  pub endpoint_column-IsPlain : (a : Sockaddr) → IsPlain (endpoint_column inet_ntop getnameinfo a)
  endpoint_column-IsPlain a =
      endpoint_text-IsPlain a.sa_family (endpoint inet_ntop getnameinfo a)
        (host_and_service-IsPlain a.sa_family (getnameinfo a) (libc.host a))

  pub prefix-IsPlain :
      (a : WgAllowedip) → IsPlain (ip inet_ntop getnameinfo a ++ codes "/" ++ print_u a.cidr)
  prefix-IsPlain a =
      append-IsPlain (ip inet_ntop getnameinfo a ++ codes "/") (print_u a.cidr)
        (append-IsPlain (ip inet_ntop getnameinfo a) (codes "/") (ip-IsPlain a) (ground arith))
        (print_u-IsPlain a.cidr)

  pub ips_column-IsPlain : (ips : List WgAllowedip) → IsPlain (ips_column inet_ntop getnameinfo ips)
  ips_column-IsPlain [] = ground arith
  ips_column-IsPlain (a ∷ []) = prefix-IsPlain a
  ips_column-IsPlain (a ∷ b ∷ rest) =
      append-IsPlain (ip inet_ntop getnameinfo a ++ codes "/" ++ print_u a.cidr ++ codes ",") _
        (append-IsPlain (ip inet_ntop getnameinfo a ++ codes "/" ++ print_u a.cidr) (codes ",")
          (prefix-IsPlain a) (ground arith))
        (ips_column-IsPlain (b ∷ rest))
