-- ===== src/Config/Allowed/Laws.antt =====
-- `parse_allowedips` appends the entries of its list, each within the range of its family.
use special_potato.Prelude.{
  ℕ, ◌≤◌, Bool, true, false, List, [], ◌∷◌, ◌++◌, ◌≡◌, ◌≢◌, refl, sym, ap, ◌∙◌, ◌⊎◌, inl, inr,
  Bytes, arith, All, length, u8, Option, none, some,
}
use mathlib.Core.List.{append_assoc, append-nil}
use special_potato.Libc.{split_on}
use special_potato.Containers.{Family, af_unspec, af_inet, af_inet6, WgAllowedip, WgPeer}
use special_potato.Outcome.{
  Outcome, ok, fault, ◌>>=◌, >>=-eq-ok, Ensures, Ensures->>=, Ensures-intro, Ensures-ok,
  ok-injective, System,
}
use special_potato.Config.Allowed.{
  Ip, parse_ip, parse_cidr, parse_allowedip, link, allowedips_loop, parse_allowedips,
}

-- The prefix fits the family, and the address has the words of its family.
abbrev pub IsAllowedip : WgAllowedip → Type 0
IsAllowedip a =
    ((a.family ≡ af_inet) × (a.cidr ≤ 32) × (length a.ip ≡ 1))
    ⊎ ((a.family ≡ af_inet6) × (a.cidr ≤ 128) × (length a.ip ≡ 4))

-- The numeric readers give one word and four words.
pub record ReadsAddresses (sys : System) : Type 0 where
  pub pton4 : (s : Bytes) {ws : List ℕ} → sys.inet_pton4 s ≡ some ws → length ws ≡ 1
  pub pton6 : (s : Bytes) {ws : List ℕ} → sys.inet_pton6 s ≡ some ws → length ws ≡ 4

-- What the peer's list becomes: the entries read one by one, up to the first that cannot be read.
unfoldable pub read_all : System → List Bytes → Outcome (List WgAllowedip)
read_all sys [] = ok []
read_all sys (entry ∷ entries) = do
  a ← parse_allowedip sys entry
  rest ← read_all sys entries
  ok (a ∷ rest)

parse_cidr-ne-fault :
    (sys : System) (f : Family) (mask : Option Bytes) → parse_cidr sys f mask ≢ fault
unfolding parse_cidr
parse_cidr-ne-fault sys af_inet none = ground arith
parse_cidr-ne-fault sys af_inet6 none = ground arith
parse_cidr-ne-fault sys af_unspec none = ground arith
parse_cidr-ne-fault sys f (some mask) = ground arith

abbrev pub IsIp : Ip → Type 0
IsIp ip =
    ((ip.family ≡ af_inet) × (length ip.words ≡ 1))
    ⊎ ((ip.family ≡ af_inet6) × (length ip.words ≡ 4))

module _ (sys : System) (reads : ReadsAddresses sys) where
  pub parse_ip-cases :
      (text : Bytes) {ip : Ip}
      → parse_ip sys text ≡ ok ip
      → ((ip.family ≡ af_inet) × (length ip.words ≡ 1))
        ⊎ ((ip.family ≡ af_inet6) × (length ip.words ≡ 4))
  unfolding parse_ip
  parse_ip-cases text h = grind (arith, reads.pton4, reads.pton6)

  parse_cidr-le :
      (f : Family) (mask : Option Bytes) {n : ℕ}
      → parse_cidr sys f mask ≡ ok n
      → (f ≡ af_inet → n ≤ 32) × (f ≡ af_inet6 → n ≤ 128)
  unfolding parse_cidr
  parse_cidr-le af_inet none h = ground arith
  parse_cidr-le af_inet6 none h = ground arith
  parse_cidr-le af_unspec none h = ground arith
  parse_cidr-le af_inet (some m) h = ground arith
  parse_cidr-le af_inet6 (some m) h = ground arith
  parse_cidr-le af_unspec (some m) h = ground arith

  parse_ip-IsIp : (text : Bytes) → Ensures IsIp (parse_ip sys text)
  unfolding parse_ip
  parse_ip-IsIp text =
      Ensures-intro IsIp (parse_ip sys text) (ground arith) (λ ip e. parse_ip-cases text e)

  abbrev Fits : Ip → ℕ → Type 0
  Fits ip n = (ip.family ≡ af_inet → n ≤ 32) × (ip.family ≡ af_inet6 → n ≤ 128)

  parse_cidr-Fits :
      (ip : Ip) (mask : Option Bytes) → Ensures (Fits ip) (parse_cidr sys ip.family mask)
  parse_cidr-Fits ip mask =
      Ensures-intro (Fits ip) (parse_cidr sys ip.family mask)
        (parse_cidr-ne-fault sys ip.family mask) (λ n e. parse_cidr-le ip.family mask e)

  IsAllowedip-of :
      (ip : Ip) (n : ℕ)
      → IsIp ip
      → Fits ip n
      → IsAllowedip (record { family = ip.family; ip = ip.words; cidr = u8 n })
  IsAllowedip-of ip n (inl (f, l)) fits = let small = fits.0 f in inl (f, omega arith, l)
  IsAllowedip-of ip n (inr (f, l)) fits = let small = fits.1 f in inr (f, omega arith, l)

  pub parse_allowedip-IsAllowedip :
      (entry : Bytes) → Ensures IsAllowedip (parse_allowedip sys entry)
  unfolding parse_allowedip
  parse_allowedip-IsAllowedip entry =
      Ensures->>= IsIp IsAllowedip (parse_ip sys _) _ (parse_ip-IsIp _) (λ ip good.
        Ensures->>= (Fits ip) IsAllowedip (parse_cidr sys ip.family _) _ (parse_cidr-Fits ip _)
          (λ n fits. IsAllowedip-of ip n good fits))

linked_pair :
    {p p' : WgPeer} {last last' : Bool}
    → ◌≡◌ {A = Outcome (WgPeer × Bool)} (ok (p, last)) (ok (p', last'))
    → p ≡ p'
linked_pair h = cc

link_append :
    (sys : System) (last : Bool) (a : WgAllowedip) (p : WgPeer) (new : List WgAllowedip)
    → (last ≡ false → p.allowedips ≡ [])
    → record (link sys last a p) { allowedips = (link sys last a p).allowedips ++ new }
      ≡ record p { allowedips = p.allowedips ++ a ∷ new }
link_append sys true a p new inv =
    ap (λ (l : List WgAllowedip). record p { allowedips = l })
      (append_assoc p.allowedips (a ∷ []) new)
link_append sys false a p new inv =
    ap (λ (l : List WgAllowedip). record p { allowedips = l ++ a ∷ new }) (sym (inv refl))

-- The loop, under the invariant that a NULL tail pointer means an empty list.
allowedips_loop-read_all :
    (sys : System) (entries : List Bytes) (last : Bool) (p : WgPeer)
    → (last ≡ false → p.allowedips ≡ [])
    → {p' : WgPeer} {last' : Bool} → allowedips_loop sys entries last p ≡ ok (p', last')
    → (new : List WgAllowedip) × (read_all sys entries ≡ ok new)
      × (p' ≡ record p { allowedips = p.allowedips ++ new })
unfolding allowedips_loop read_all
allowedips_loop-read_all sys [] last p inv h = ([], refl, rw append-nil (sym (linked_pair h)))
allowedips_loop-read_all sys (entry ∷ entries) last p inv h =
    let (a, read, rest) = >>=-eq-ok (parse_allowedip sys entry) _ h in
    let (new, read', e) =
      allowedips_loop-read_all sys entries true (link sys last a p) (λ x. cc) rest in
    (a ∷ new, rw (read, read'), e ∙ link_append sys last a p new inv)

read_all-IsAllowedip :
    (sys : System)
    → ReadsAddresses sys
    → (entries : List Bytes) {new : List WgAllowedip} → read_all sys entries ≡ ok new
    → All IsAllowedip new
unfolding read_all
read_all-IsAllowedip sys reads [] h = rw (← ok-injective h) tt
read_all-IsAllowedip sys reads (entry ∷ entries) h =
    let (a, read, rest) = >>=-eq-ok (parse_allowedip sys entry) _ h in
    let (new, read', e) = >>=-eq-ok (read_all sys entries) _ rest in
    rw (← ok-injective e) (
      Ensures-ok IsAllowedip (parse_allowedip sys entry)
          (parse_allowedip-IsAllowedip sys reads entry) read,
      read_all-IsAllowedip sys reads entries read',
    )

-- A successful `parse_allowedips` marks the list for replacement and appends to it what the pieces
-- between the commas read as, in their order and each with a prefix that fits its family; an empty
-- value appends nothing. The condition is that a NULL tail pointer comes with an empty list.
pub parse_allowedips-appends :
    (sys : System)
    → ReadsAddresses sys
    → (value : Bytes) (last : Bool) (p : WgPeer) → (last ≡ false → p.allowedips ≡ [])
    → {p' : WgPeer} {last' : Bool} → parse_allowedips sys value last p ≡ ok (p', last')
    → (new : List WgAllowedip) × (((value ≡ []) × (new ≡ []))
        ⊎ (read_all sys (split_on b',' value) ≡ ok new))
      × (p' ≡ record p {
        flags = record (p.flags) { replace_allowedips = true };
        allowedips = p.allowedips ++ new;
      })
      × All IsAllowedip new
unfolding parse_allowedips
parse_allowedips-appends sys reads [] last p inv h =
    ([], inl (refl, refl), rw append-nil (sym (linked_pair h)), tt)
parse_allowedips-appends sys reads (c ∷ s) last p inv h =
    let (new, read, e) =
      allowedips_loop-read_all sys (split_on b',' (c ∷ s)) last
        (record p { flags = record (p.flags) { replace_allowedips = true } }) inv h in
    (new, inr read, e, read_all-IsAllowedip sys reads (split_on b',' (c ∷ s)) read)
