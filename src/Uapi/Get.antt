-- ===== src/Uapi/Get.antt =====
-- ipc-uapi.h: `userspace_get_device`.
pub mod Safe
pub mod Reply
pub mod Prefix
use special_potato.Prelude.{
  ℕ, ◌^◌, ◌-◌, Bool, true, false, not, ◌&&◌, ◌||◌, List, [], ◌∷◌, ◌++◌, Bytes, Option, none, some,
  codes, ◌==◌, if◌then◌else◌, u8, take,
}
use mathlib.Core.Logic.{◌⊎◌, inl, inr}
use special_potato.Encoding.{key_from_hex, key_is_zero}
use special_potato.Libc.{split_first, str_eq}
use special_potato.Libc.Strtoul.{strtoul}
use special_potato.Containers.{
  Family, af_unspec, af_inet, af_inet6, WgAllowedip, WgPeer, WgDevice, Timespec64, new_peer,
  new_device,
}
use special_potato.Outcome.{System, Outcome, ok, Lookup, resolved, gai_error}
use special_potato.Config.Number.{is_empty, set_fwmark, set_keepalive}
use special_potato.Config.Address.{split_endpoint, is_ip, set_port}
use special_potato.Config.Allowed.{Ip, parse_ip, too_long, link}
use special_potato.Config.Setter
use special_potato.Uapi.{ℤ, pos, negsuc, negative, Errors, entry, is_blank_line, digit_first, num}

-- What a line does: go on, `break`, or `goto err` with a code.
pub data Step {ℓ} (A : Type ℓ) : Type ℓ where
  go : A → Step A
  stop : Step A
  leave : ℤ → Step A

abbrev pub on_value {ℓ} : {A : Type ℓ} {B : Type 0} → Option B → (B → A) → Step A
on_value none f = stop
on_value (some b) f = go (f b)

-- The reader of the value of a key.
abbrev pub Reader : Type 0 → Type 0
Reader A = Bytes → A → Step A

unfoldable pub find_reader : {A : Type 0} → List (Bytes × Reader A) → Bytes → Option (Reader A)
find_reader [] key = none
find_reader ((name, reader) ∷ readers) key =
    let rest = find_reader readers key in if str_eq key name then some reader else rest

-- `peer` with whether `allowedip` is not NULL.
abbrev pub PeerCtx : Type 0
PeerCtx = WgPeer × Bool

-- `device` has the peers before the last one, which is `peer`.
pub record GetState : Type 0 where
  pub device : WgDevice
  pub peer : Option PeerCtx
  pub ret : ℤ

abbrev pub link_peer : Option PeerCtx → WgDevice → WgDevice
link_peer none d = d
link_peer (some (p, last)) d = record d { peers = d.peers ++ p ∷ [] }

-- `curve25519_generate_public` is a parameter.
module _ (sys : System) (e : Errors) (generate_public : Bytes → Bytes) where
  abbrev number : {A : Type 0} → ℕ → (ℕ → A → A) → Reader A
  number max set value a = on_value (num sys.char_signed max value) (λ n. set n a)

  abbrev string : {A : Type 0} → (Option Bytes → A → A) → Reader A
  string set value a = go (set (some value) a)

  unfoldable pub get_private_key : Reader WgDevice
  get_private_key value d =
      let (good, key) = key_from_hex d.private_key value in
      if good
      then go (record d {
        private_key = key;
        public_key = generate_public key;
        flags = record (d.flags) { has_private_key = true; has_public_key = true };
      })
      else stop

  abbrev pub device_readers : List (Bytes × Reader WgDevice)
  device_readers =
      (codes "private_key", get_private_key)
      ∷ (codes "listen_port", number 65535 set_port)
      ∷ (codes "fwmark", number (2 ^ 32 - 1) set_fwmark)
      ∷ (codes "jc", number 65535 Setter.jc)
      ∷ (codes "jmin", number 65535 Setter.jmin)
      ∷ (codes "jmax", number 65535 Setter.jmax)
      ∷ (codes "s1", number 65535 Setter.s1)
      ∷ (codes "s2", number 65535 Setter.s2)
      ∷ (codes "s3", number 65535 Setter.s3)
      ∷ (codes "s4", number 65535 Setter.s4)
      ∷ (codes "h1", string Setter.h1)
      ∷ (codes "h2", string Setter.h2)
      ∷ (codes "h3", string Setter.h3)
      ∷ (codes "h4", string Setter.h4)
      ∷ (codes "i1", string Setter.i1)
      ∷ (codes "i2", string Setter.i2)
      ∷ (codes "i3", string Setter.i3)
      ∷ (codes "i4", string Setter.i4)
      ∷ (codes "i5", string Setter.i5)
      ∷ []

  -- The flag is set for a key that is not zero.
  unfoldable pub get_preshared_key : Reader PeerCtx
  get_preshared_key value (p, last) =
      let (good, key) = key_from_hex p.preshared_key value in
      if not good
      then stop
      else if key_is_zero key
      then go (record p { preshared_key = key }, last)
      else go (Setter.preshared_key key p, last)

  abbrev pub endpoint_found : PeerCtx → Lookup → Step PeerCtx
  endpoint_found ctx (gai_error code) = leave (pos e.enetunreach)
  endpoint_found (p, last) (resolved a) =
      if is_ip a then go (record p { endpoint = a.ai_addr }, last) else stop

  abbrev pub endpoint_at : PeerCtx → Option (Bytes × Bytes) → Step PeerCtx
  endpoint_at ctx none = stop
  endpoint_at ctx (some (host, service)) =
      endpoint_found ctx (sys.getaddrinfo 0 (some host) service)

  unfoldable pub get_endpoint : Reader PeerCtx
  get_endpoint value ctx = endpoint_at ctx (split_endpoint value)

  -- The prefix passes through a `uint8_t` before the test.
  abbrev pub prefix_at : PeerCtx → Bytes → Outcome Ip → Step PeerCtx
  prefix_at (p, last) mask (ok ip) =
      let (n, end) = strtoul sys.ulong_max 10 mask in
      if not (is_empty end) || too_long ip.family (u8 n)
      then stop
      else go (link sys last (record { family = ip.family; ip = ip.words; cidr = u8 n }) p, true)
  prefix_at ctx mask _ = stop

  abbrev pub mask_at : PeerCtx → Option (Bytes × Bytes) → Step PeerCtx
  mask_at ctx none = stop
  mask_at ctx (some (text, mask)) =
      if not (digit_first sys.char_signed mask)
      then stop
      else prefix_at ctx mask (parse_ip sys text)

  unfoldable pub get_allowed_ip : Reader PeerCtx
  get_allowed_ip value ctx = mask_at ctx (split_first b'/' value)

  abbrev of_peer : (ℕ → WgPeer → WgPeer) → ℕ → PeerCtx → PeerCtx
  of_peer set n (p, last) = (set n p, last)

  abbrev set_sec : ℕ → WgPeer → WgPeer
  set_sec n p = record p { last_handshake_time = record (p.last_handshake_time) { tv_sec = n } }

  abbrev set_nsec : ℕ → WgPeer → WgPeer
  set_nsec n p = record p { last_handshake_time = record (p.last_handshake_time) { tv_nsec = n } }

  abbrev pub peer_readers : List (Bytes × Reader PeerCtx)
  peer_readers =
      (codes "preshared_key", get_preshared_key)
      ∷ (codes "endpoint", get_endpoint)
      ∷ (codes "persistent_keepalive_interval", number 65535 (of_peer set_keepalive))
      ∷ (codes "allowed_ip", get_allowed_ip)
      ∷ (codes "last_handshake_time_sec", number (2 ^ 63 - 1) (of_peer set_sec))
      ∷ (codes "last_handshake_time_nsec", number (2 ^ 63 - 1) (of_peer set_nsec))
      ∷ (codes "rx_bytes", number (2 ^ 64 - 1) (of_peer (λ n p. record p { rx_bytes = n })))
      ∷ (codes "tx_bytes", number (2 ^ 64 - 1) (of_peer (λ n p. record p { tx_bytes = n })))
      ∷ []

  -- The new peer is linked before its key is read.
  unfoldable pub get_public_key : Reader GetState
  get_public_key value st =
      let (good, key) = key_from_hex (new_peer.public_key) value in
      if good
      then go (record st {
        device = link_peer st.peer st.device;
        peer = some (Setter.public_key key new_peer, false);
      })
      else stop

  unfoldable pub get_errno : Reader GetState
  get_errno value st =
      on_value (num sys.char_signed (2 ^ 31 - 1) value) (λ n. record st { ret = negative n })

  -- The keys that are read with a peer and without one; others are passed over.
  unfoldable pub get_other : Bytes → Reader GetState
  get_other key value st =
      if str_eq key (codes "public_key")
      then get_public_key value st
      else if str_eq key (codes "errno")
      then get_errno value st
      else go st

  abbrev pub put_device : GetState → Step WgDevice → Step GetState
  put_device st (go d) = go (record st { device = d })
  put_device st stop = stop
  put_device st (leave code) = leave code

  abbrev pub put_peer : GetState → Step PeerCtx → Step GetState
  put_peer st (go p) = go (record st { peer = some p })
  put_peer st stop = stop
  put_peer st (leave code) = leave code

  abbrev pub device_key : Bytes → Bytes → GetState → Option (Reader WgDevice) → Step GetState
  device_key key value st none = get_other key value st
  device_key key value st (some reader) = put_device st (reader value st.device)

  abbrev pub peer_key : Bytes → Bytes → GetState → PeerCtx → Option (Reader PeerCtx) → Step GetState
  peer_key key value st ctx none = get_other key value st
  peer_key key value st ctx (some reader) = put_peer st (reader value ctx)

  abbrev pub key_at : Bytes → Bytes → GetState → Option PeerCtx → Step GetState
  key_at key value st none = device_key key value st (find_reader device_readers key)
  key_at key value st (some ctx) = peer_key key value st ctx (find_reader peer_readers key)

  unfoldable pub get_key : Bytes → Reader GetState
  get_key key value st = key_at key value st st.peer

  abbrev pub step_at : GetState → Option (Bytes × Bytes) → Step GetState
  step_at st none = stop
  step_at st (some (key, value)) = get_key key value st

  -- The code, and the device as it is at the end.
  unfoldable pub get_loop : GetState → List Bytes → ℤ × GetState
  get_loop st [] = (negative e.eproto, st)
  get_loop st (line ∷ lines) =
      let next = λ (st' : GetState). get_loop st' lines in
      if is_blank_line line then (st.ret, st) else elim (step_at st (entry line)) [
        | go st' ↦ next st'
        | stop ↦ (negative e.eproto, st)
        | leave code ↦ (code, st)
      ]

  -- `IFNAMSIZ` is 16.
  abbrev pub get_start : Bytes → GetState
  get_start iface = record {
    device = record new_device { name = take 15 iface };
    peer = none;
    ret = negative e.eproto;
  }

  abbrev pub is_zero : ℤ → Bool
  is_zero (pos n) = n == 0
  is_zero (negsuc n) = false

  -- Of any other code than zero the device is freed and `*out` is NULL.
  abbrev pub get_finish : ℤ × GetState → ℤ × Option WgDevice
  get_finish (code, st) = (code, if is_zero code then some (link_peer st.peer st.device) else none)

  -- `socket` is `userspace_interface_file` with the reply to `get=1`, or its `errno`.
  unfoldable pub userspace_get_device : (Bytes → List Bytes ⊎ ℕ) → Bytes → ℤ × Option WgDevice
  userspace_get_device socket iface = elim (socket iface) [
    | inr errno ↦ (negative errno, none)
    | inl lines ↦ get_finish (get_loop (get_start iface) lines)
  ]
