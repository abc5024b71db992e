-- ===== src/Kernel/Fetch.antt =====
-- ipc-linux.h: `coalesce_peers` and `kernel_get_device`.
pub mod Coalesce
use special_potato.Prelude.{
  ℕ, zero, suc, ◌+◌, ◌*◌, ◌-◌, ◌/◌, ◌%◌, ◌^◌, Bool, true, false, not, ◌&&◌, ◌||◌, List, [], ◌∷◌,
  ◌++◌, Bytes, Option, none, some, leb, ltb, ◌==◌, if◌then◌else◌, length, take, drop,
}
use special_potato.Outcome.{Outcome, ok, fault, pending, ◌>>=◌}
use special_potato.Encoding.{key_is_zero}
use special_potato.Libc.{str_eq}
use special_potato.Libc.Printf.{print_u}
use special_potato.Uapi.{ℤ, pos, negative}
use special_potato.Containers.{
  Family, af_unspec, af_inet, af_inet6, Sockaddr, Timespec64, WgAllowedip, WgPeer, WgDevice,
  new_peer, new_device,
}
use special_potato.Config.Setter
use special_potato.Kernel.Answer.{
  IpKind, PeerKind, DeviceKind, IpAttr, PeerAttr, plain, allowedips, DeviceAttr, single, peers,
  Reads, IpState, new_ip, words_of, copy_words, word_count, allowedip_of, family_at, is_valid_ip,
  with_value, with_key, family_kind, ipaddr_kind, cidr_mask_kind, other_ip, public_key_kind,
  preshared_key_kind, endpoint_kind, keepalive_kind, handshake_kind, rx_bytes_kind, tx_bytes_kind,
  flags_kind, awg_kind, other_peer, ifindex_kind, ifname_kind, private_key_kind, device_key_kind,
  listen_port_kind, fwmark_kind, jc_kind, jmin_kind, jmax_kind, s1_kind, s2_kind, s3_kind, s4_kind,
  h1_kind, h2_kind, h3_kind, h4_kind, i1_kind, i2_kind, i3_kind, i4_kind, i5_kind, other_device,
}
use special_potato.Kernel.Get.{read_devices}

-- `coalesce_peers`: the next peer goes into the one in front if it has the same key. `last` is whether
-- `last_allowedip` of the peer in front is not NULL; a write through NULL is the outcome `fault`.
abbrev has_ips : List WgAllowedip → Bool
has_ips [] = false
has_ips (a ∷ ips) = true

unfoldable pub coalesce : WgPeer → Bool → List WgPeer → Outcome (List WgPeer)
coalesce p last [] = ok (p ∷ [])
coalesce p last (q ∷ others) =
    let apart = (do rest ← coalesce q (has_ips q.allowedips) others; ok (p ∷ rest)) in
    let joined =
      coalesce (record p { allowedips = p.allowedips ++ q.allowedips }) (has_ips q.allowedips)
        others in
    if not (str_eq p.public_key q.public_key)
    then apart
    else if has_ips p.allowedips && not last
    then fault
    else joined

unfoldable pub coalesce_peers : List WgPeer → Outcome (List WgPeer)
coalesce_peers [] = ok []
coalesce_peers (p ∷ others) = coalesce p (has_ips p.allowedips) others

-- What an attempt to get the device gives: no socket, no request sent, an error behind some messages,
-- or all messages.
pub data Dump : Type 0 where
  not_open not_sent : ℕ → Dump
  broken : ℕ → Dump
  received : List (List DeviceAttr) → Dump

-- The numbers of the errors.
pub record Errno : Type 0 where
  pub eintr : ℕ
  pub einval : ℕ
  pub enametoolong : ℕ

module _ (reads : Reads) (e : Errno) (dump : ℕ → Dump) where
  -- The device, or the return value.
  abbrev finish_get : Bool × WgDevice → Outcome (ℤ × Option WgDevice)
  finish_get (false, d) = ok (negative e.einval, none)
  finish_get (true, d) = do
    joined ← coalesce_peers d.peers
    ok (pos 0, some (record d { peers = joined }))

  -- One more attempt behind each interrupted one, up to the fuel.
  unfoldable pub get_attempts : ℕ → ℕ → Outcome (ℤ × Option WgDevice)
  get_attempts zero n = pending
  get_attempts (suc fuel) n =
      let again = get_attempts fuel (suc n) in
      elim (dump n) [
        | not_open errno ↦ ok (negative errno, none)
        | not_sent errno ↦ if errno == e.eintr then again else ok (negative errno, none)
        | broken errno ↦
            if errno == e.eintr
            then again
            else ok (negative (if errno == 0 then e.einval else errno), none)
        | received messages ↦ finish_get (read_devices reads messages new_device)
      ]

  -- `IFNAMSIZ` is 16.
  unfoldable pub kernel_get_device : ℕ → Bytes → Outcome (ℤ × Option WgDevice)
  kernel_get_device fuel iface =
      let attempts = get_attempts fuel 0 in
      if leb 16 (length iface) then ok (negative e.enametoolong, none) else attempts
