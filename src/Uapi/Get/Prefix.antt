-- ===== src/Uapi/Get/Prefix.antt =====
-- How `userspace_get_device` reads the prefix of an allowed address.
use special_potato.Prelude.{ℕ, Bool, true, ◌∷◌, ◌++◌, Bytes, ◌≡◌, if◌then◌else◌, u8}
use Prim.Native.Nat.{min}
use special_potato.Libc.Printf.{print_u}
use special_potato.Libc.Digits.{print_u-StartsDecimal, strtoul-print_u}
use special_potato.Containers.{WgPeer}
use special_potato.Outcome.{System, ok}
use special_potato.Config.Address.Laws.{Lacks, split_first-append}
use special_potato.Config.Allowed.{Ip, parse_ip, too_long, link}
use special_potato.Config.Number.Laws.{decimal_starts, clamp-min}
use special_potato.Uapi.{Errors}
use special_potato.Uapi.Get.{go, stop, get_allowed_ip}

module _ (sys : System) (errors : Errors) (generate_public : Bytes → Bytes) where
  -- Of an address that can be read, without a slash in its text, and the decimal of any number behind a
  -- slash, the prefix is the number, or `ULONG_MAX` if it is larger, modulo 256, since the value is cut
  -- to a byte before the test: the allowed address gets this prefix if it fits the family, and the
  -- reply is refused if it does not.
  pub get_allowed_ip-print_u :
      (text : Bytes) (n : ℕ) (ip : Ip) (p : WgPeer) (last : Bool)
      → Lacks b'/' text
      → parse_ip sys text ≡ ok ip
      → let prefix = u8 (min n sys.ulong_max) in
        get_allowed_ip sys errors generate_public (text ++ (b'/' ∷ print_u n)) (p, last) ≡ (
          if too_long ip.family prefix
          then stop
          else go
              (link sys last (record { family = ip.family; ip = ip.words; cidr = prefix }) p, true))
  unfolding get_allowed_ip
  get_allowed_ip-print_u text n ip p last lacks good = rw (
    split_first-append b'/' text (print_u n) lacks,
    decimal_starts sys (print_u n) (print_u-StartsDecimal n),
    good,
    strtoul-print_u sys.ulong_max n,
    clamp-min sys n,
  )
