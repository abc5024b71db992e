-- ===== src/Tests/Userspace.antt =====
-- The theorems on the userspace protocol at concrete replies.
use special_potato.Prelude.{
  ℕ, List, [], ◌∷◌, ◌++◌, Bytes, ◌≡◌, refl, codes, true, if◌then◌else◌, u8, inl, ◌⊎◌, false,
}
use special_potato.Encoding.{key_to_hex}
use special_potato.Libc.Printf.{print_u}
use special_potato.Containers.{WgDevice, new_peer, new_device, new_device, af_inet}
use special_potato.Config.Address.{set_port}
use special_potato.Config.Allowed.{Ip, too_long, link, parse_ip}
use special_potato.Uapi.{ℤ, pos, Errors}
use special_potato.Uapi.Get.{Step, go, stop, userspace_get_device, get_allowed_ip}
use special_potato.Uapi.Get.Safe.{IsRuntime}
use special_potato.Uapi.Get.Reply.{userspace_get_device-IsRuntime}
use special_potato.Uapi.Get.Prefix.{get_allowed_ip-print_u}
use special_potato.Tests.{demo, demo-ReadsAddresses, all_bytes_all-All, without_sound, named_peer}

abbrev errors : Errors
errors = record { eproto = 71; einval = 22; enetunreach = 101 }

abbrev reply : List Bytes
reply =
    codes "listen_port=51820\n"
    ∷ codes "public_key=ff0102030405060708090a0b0c0d0e0f101112131415161718191a1b1c1d1e1f\n"
    ∷ codes "errno=0\n"
    ∷ codes "\n"
    ∷ []

abbrev socket : Bytes → List Bytes ⊎ ℕ
socket name = inl reply

abbrev received : WgDevice
received = record (set_port 51820 new_device) { name = codes "awg0"; peers = named_peer ∷ [] }

userspace_get_device-IsRuntime_example : (pos 0 ≡ pos 0) × IsRuntime received
unfolding userspace_get_device special_potato.Uapi.Get.get_loop special_potato.Uapi.entry
    special_potato.Libc.split_last special_potato.Libc.split_first special_potato.Uapi.Get.get_key
    special_potato.Uapi.Get.find_reader special_potato.Libc.str_eq special_potato.Uapi.num
    special_potato.Ctype.char_is_digit special_potato.Libc.Strtoul.strtoul
    special_potato.Uapi.Get.get_other special_potato.Uapi.Get.get_public_key
    special_potato.Encoding.key_from_hex special_potato.Encoding.no_error
    special_potato.Encoding.hex_loop special_potato.Encoding.hex_value
    special_potato.Libc.Strtoul.clamp special_potato.Libc.Strtoul.digit_of
    special_potato.Libc.Strtoul.read_digits special_potato.Libc.Strtoul.sign_of
    special_potato.Libc.Strtoul.skip_prefix special_potato.Libc.Strtoul.skip_white
    special_potato.Uapi.Get.get_errno
userspace_get_device-IsRuntime_example =
    userspace_get_device-IsRuntime demo errors (λ k. k) demo-ReadsAddresses socket (codes "awg0")
      reply (pos 0) received refl (all_bytes_all-All reply refl) refl

abbrev network : Ip
network = record { family = af_inet; words = 0xc0a80000 ∷ [] }

get_allowed_ip-print_u_example :
    get_allowed_ip demo errors (λ k. k) (codes "10.0.0.0" ++ (b'/' ∷ print_u 280)) (new_peer, false)
    ≡ (if too_long network.family (u8 280)
        then stop
        else go (
          link demo false
              (record { family = network.family; ip = network.words; cidr = u8 280 })
              new_peer,
          true,
        ))
unfolding parse_ip special_potato.Libc.split_first
get_allowed_ip-print_u_example =
    get_allowed_ip-print_u demo errors (λ k. k) (codes "10.0.0.0") 280 network new_peer false
      (without_sound b'/' (codes "10.0.0.0") refl) refl
