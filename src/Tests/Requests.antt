-- ===== src/Tests/Requests.antt =====
-- The theorems on the messages of `kernel_set_device` at a device.
use special_potato.Prelude.{
  ℕ, ◌+◌, ◌*◌, ◌/◌, ◌-◌, ◌^◌, ◌≤◌, true, List, [], ◌∷◌, ◌++◌, none, some, codes, ◌≡◌, refl, inr,
  arith, All,
}
use special_potato.Outcome.{ok, Ensures}
use special_potato.Uapi.{pos}
use special_potato.Containers.{WgAllowedip, WgPeer, WgDevice, new_device, af_inet}
use special_potato.Kernel.{word_len, Netlink, DeviceType, Attr, Message}
use special_potato.Kernel.Payload.{blob, strz}
use special_potato.Kernel.DeviceType.{private_key, h1}
use special_potato.Kernel.Set.{
  Reply, answered, device_attrs, name_attr, kernel_set_device, put_magic_header_attr,
}
use special_potato.Kernel.Set.Leads.{Leads}
use special_potato.Kernel.Set.Room.{IsMonotone}
use special_potato.Kernel.Set.Sent.{all_nests, HasAttrs, kernel_set_device-Leads}
use special_potato.Kernel.Set.Within.{IsWithin, kernel_set_device-IsWithin}
use special_potato.Tests.{named_peer}

-- A small buffer. Attributes are padded to multiples of four bytes behind their four bytes of header.
abbrev linux : Netlink
linux = record {
  attr_size = λ n. 4 + (n + 3) / 4 * 4;
  header_size = 20;
  buffer_size = 500;
  ulong_max = 2 ^ 64 - 1;
  einval = 22;
}

linux-IsMonotone : IsMonotone linux
linux-IsMonotone m n h = omega (arith, h)

abbrev taken : ℕ → Message → Reply
taken n m = answered

abbrev block : WgAllowedip
block = record { family = af_inet; ip = 0xc0a80000 ∷ []; cidr = 16 }

abbrev busy_peer : WgPeer
busy_peer = record named_peer {
  allowedips =
      block ∷ block ∷ block ∷ block ∷ block ∷ block ∷ block ∷ block ∷ block ∷ block ∷ block ∷ block
      ∷ [];
}

abbrev requested : WgDevice
requested = record new_device {
  peers = busy_peer ∷ named_peer ∷ [];
  name = codes "awg0";
  flags = record (new_device.flags) { has_private_key = true; has_h1 = true };
  init_packet_magic_header = some (codes "1020325451");
}

abbrev written : List (Attr DeviceType)
written =
    record { type = private_key; payload = blob requested.private_key }
    ∷ record { type = h1; payload = strz (codes "1020325451") }
    ∷ []

device_attrs-requested : device_attrs linux 2 requested ≡ ok written
unfolding device_attrs put_magic_header_attr
device_attrs-requested = refl

twelve : All (λ a. word_len a.ip ≤ 16) busy_peer.allowedips
twelve = ground arith

kernel_set_device-Leads_example :
    (messages : List Message) × ((kernel_set_device linux taken 17 (inr 2) requested
        ≡ ok (messages, pos 0))
      × (HasAttrs (name_attr linux requested ++ written) (name_attr linux requested) messages
          × Leads [] requested.peers (all_nests messages) none))
kernel_set_device-Leads_example =
    kernel_set_device-Leads linux linux-IsMonotone taken requested 2 17 written (λ n m. refl)
      (omega arith) device_attrs-requested (omega arith)
      ((refl, (refl, twelve)), ((refl, (refl, tt)), tt)) (omega arith)

kernel_set_device-IsWithin_example :
    Ensures (λ r. All (IsWithin linux) r.0) (kernel_set_device linux taken 17 (inr 2) requested)
kernel_set_device-IsWithin_example =
    kernel_set_device-IsWithin linux taken requested 2 17 written device_attrs-requested
      (omega arith)
