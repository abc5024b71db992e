-- ===== src/Config/Section/Device.antt =====
-- Every key of the `[Interface]` section keeps a device within its ranges.
use special_potato.Prelude.{
  ℕ, u32, not, codes, leb, ltb, ◌||◌, if◌then◌else◌, ◌-◌, ◌^◌, ◌≤◌, ◌<◌, Bool, true, false, List,
  Bytes, IsBytes, Option, none, some, length, ◌≡◌, arith, refl,
}
use special_potato.Encoding.{IsKey}
use special_potato.Encoding.Base64.RoundTrip.{key_from_base64_iff}
use special_potato.Containers.{WgPeer, WgDevice}
use special_potato.Outcome.{
  Outcome, ok, error, System, resolved, Ensures, Ensures->>=, Ensures-intro, Ensures-if, Lookup,
  gai_error,
}
use special_potato.Libc.{case_eq}
use special_potato.Config.Number.{
  parse_fwmark, parse_uint16, parse_awg_string, is_empty, has_hex_prefix, starts_with_digit,
  max_awg_string_len,
}
use special_potato.Config.Number.Laws.{parse_uint16-le}
use special_potato.Config.KeyValue.{parse_key}
use special_potato.Config.Address.{parse_port, is_ip, set_port}
use special_potato.Libc.Strtoul.{strtoul}
use special_potato.Config.Section.Keep.{AllKeep, no_more, ◌&◌}
use special_potato.Config.Number.{set_fwmark}
use special_potato.Config.Section.{device_keys, number, text, keep_key}
use special_potato.Config.Section.Valid.{IsShort, IsDevice, IsSystem}
use special_potato.Config.Setter

pub keep_key-Ensures :
    {A : Type 0} (P : A → Type 0) (store : Bytes → A → A) (r : Bool × Bytes) (a : A)
    → ((k : Bytes) → r ≡ (true, k) → P (store k a))
    → Ensures P (keep_key store r a)
keep_key-Ensures P store (true, k) a h = h k refl
keep_key-Ensures P store (false, k) a h = tt

module _ (sys : System) where
  pub parse_key-IsKey :
      (key value : Bytes) {k : Bytes}
      → IsBytes value
      → parse_key sys key value ≡ (true, k)
      → IsKey k
  unfolding parse_key
  parse_key-IsKey key value {k} h e =
      ((key_from_base64_iff sys.char_signed key value k h).0 (ground arith)).0

  parse_uint16-Ensures : (value : Bytes) → Ensures (λ n. n ≤ 65535) (parse_uint16 sys value)
  unfolding parse_uint16
  parse_uint16-Ensures value =
      Ensures-intro (λ n. n ≤ 65535) (parse_uint16 sys value) (ground arith)
        (λ n e. parse_uint16-le sys value e)

module _ (sys : System) (C : List WgPeer → Type 0) where
  pub number-IsDevice :
      (store : ℕ → WgDevice → WgDevice)
      → ((n : ℕ) (d : WgDevice) → n ≤ 65535 → IsDevice C d → IsDevice C (store n d))
      → (value : Bytes) (d : WgDevice) → IsBytes value
      → IsDevice C d
      → Ensures (IsDevice C) (number sys store value d)
  number-IsDevice store keeps value d b v =
      Ensures->>= (λ n. n ≤ 65535) (IsDevice C) (parse_uint16 sys value) _
        (parse_uint16-Ensures sys value) (λ n h. keeps n d h v)

  parse_awg_string-Ensures : (value : Bytes) → Ensures IsShort (parse_awg_string value)
  unfolding parse_awg_string
  parse_awg_string-Ensures value =
      Ensures-if IsShort (is_empty value) (ok none) _ (λ e. tt)
        (λ e.
          Ensures-if IsShort (leb max_awg_string_len (length value)) error (ok (some value))
            (λ h. tt) (λ h. ground arith))

  pub text-IsDevice :
      (store : Option Bytes → WgDevice → WgDevice)
      → ((t : Option Bytes) (d : WgDevice) → IsShort t → IsDevice C d → IsDevice C (store t d))
      → (value : Bytes) (d : WgDevice) → IsBytes value
      → IsDevice C d
      → Ensures (IsDevice C) (text sys store value d)
  text-IsDevice store keeps value d b v =
      Ensures->>= IsShort (IsDevice C) (parse_awg_string value) _ (parse_awg_string-Ensures value)
        (λ t h. keeps t d h v)

  set_fwmark-IsDevice : (n : ℕ) (d : WgDevice) → IsDevice C d → IsDevice C (set_fwmark (u32 n) d)
  set_fwmark-IsDevice n d v = let small : u32 n < 2 ^ 32 = omega arith in assumption

  pub parse_fwmark-IsDevice :
      (value : Bytes) (d : WgDevice)
      → IsDevice C d
      → Ensures (IsDevice C) (parse_fwmark sys value d)
  unfolding parse_fwmark
  parse_fwmark-IsDevice value d v =
      Ensures-if (IsDevice C) (case_eq value (codes "off")) _ _ (λ e. set_fwmark-IsDevice 0 d v)
        (λ e.
          Ensures-if (IsDevice C) (not (starts_with_digit sys value)) _ _ (λ e. tt)
            (λ e.
              let r = strtoul sys.ulong_max (if has_hex_prefix value then 16 else 10) value in
              Ensures-if (IsDevice C) (not (is_empty r.1) || ltb (2 ^ 32 - 1) r.0) error
                (ok (set_fwmark (u32 r.0) d)) (λ e. tt) (λ e. set_fwmark-IsDevice (r.0) d v)))

  pub parse_port-IsDevice :
      IsSystem sys
      → (value : Bytes) (d : WgDevice) → IsDevice C d
      → Ensures (IsDevice C) (parse_port sys value d)
  unfolding parse_port
  parse_port-IsDevice good value d v =
      Ensures-if (IsDevice C) (is_empty value) error _ (λ e. tt) (λ e. of_lookup _ refl)
    where
      of_lookup :
          (l : Lookup)
          → sys.getaddrinfo 0 none value ≡ l
          → Ensures (IsDevice C) (elim l as (λ x. Outcome WgDevice) [
            | gai_error e ↦ error
            | resolved a ↦ if is_ip a then ok (set_port a.ai_addr.port d) else error
          ])
      of_lookup (gai_error x) e = tt
      of_lookup (resolved a) e =
          Ensures-if (IsDevice C) (is_ip a) (ok (set_port a.ai_addr.port d)) error
            (λ e'. let small = good.ports 0 none value e in assumption) (λ e'. tt)

  -- Every key of the section.
  pub device_keys-AllKeep : IsSystem sys → AllKeep (IsDevice C) (device_keys sys)
  unfolding device_keys
  device_keys-AllKeep good =
      (λ value d b v. parse_port-IsDevice good value d v)
      & (λ value d b v. parse_fwmark-IsDevice value d v)
      & (λ value d b v.
          keep_key-Ensures (IsDevice C) Setter.private_key _ d
            (λ k e. let is_key = parse_key-IsKey sys d.private_key value b e in assumption))
      & number-IsDevice Setter.jc (λ n d h v. assumption)
      & number-IsDevice Setter.jmin (λ n d h v. assumption)
      & number-IsDevice Setter.jmax (λ n d h v. assumption)
      & number-IsDevice Setter.s1 (λ n d h v. assumption)
      & number-IsDevice Setter.s2 (λ n d h v. assumption)
      & number-IsDevice Setter.s3 (λ n d h v. assumption)
      & number-IsDevice Setter.s4 (λ n d h v. assumption)
      & text-IsDevice Setter.h1 (λ t d h v. assumption)
      & text-IsDevice Setter.h2 (λ t d h v. assumption)
      & text-IsDevice Setter.h3 (λ t d h v. assumption)
      & text-IsDevice Setter.h4 (λ t d h v. assumption)
      & text-IsDevice Setter.i1 (λ t d h v. assumption)
      & text-IsDevice Setter.i2 (λ t d h v. assumption)
      & text-IsDevice Setter.i3 (λ t d h v. assumption)
      & text-IsDevice Setter.i4 (λ t d h v. assumption)
      & text-IsDevice Setter.i5 (λ t d h v. assumption)
      & no_more
