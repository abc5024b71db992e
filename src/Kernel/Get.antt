-- ===== src/Kernel/Get.antt =====
-- ipc-linux.h: the readers of the kernel's answer. `mnl_attr_parse` and
-- `mnl_attr_parse_nested` call a reader for each attribute, up to the first call that does not return
-- `MNL_CB_OK`; here a reader returns whether it did, next to what it was given to fill.
pub mod Accepted
use special_potato.Prelude.{
  ℕ, zero, suc, ◌+◌, ◌*◌, ◌-◌, ◌/◌, ◌%◌, ◌^◌, Bool, true, false, not, ◌&&◌, ◌||◌, List, [], ◌∷◌,
  ◌++◌, Bytes, Option, none, some, leb, ltb, ◌==◌, if◌then◌else◌, length, take, drop,
}
use special_potato.Outcome.{Outcome, ok, fault, pending, ◌>>=◌}
use special_potato.Encoding.{key_is_zero}
use special_potato.Libc.{str_eq}
use special_potato.Libc.Printf.{print_u}
use special_potato.Uapi.{ℤ, pos, negative}
use special_potato.Containers.{
  Family, af_unspec, af_inet, af_inet6, Sockaddr, Timespec64, WgAllowedip, WgPeer, WgDevice,
  new_peer, new_device,
}
use special_potato.Config.Setter
use special_potato.Kernel.Answer.{
  IpKind, PeerKind, DeviceKind, IpAttr, PeerAttr, plain, allowedips, DeviceAttr, single, peers,
  Reads, IpState, new_ip, words_of, copy_words, word_count, allowedip_of, family_at, is_valid_ip,
  with_value, with_key, family_kind, ipaddr_kind, cidr_mask_kind, other_ip, public_key_kind,
  preshared_key_kind, endpoint_kind, keepalive_kind, handshake_kind, rx_bytes_kind, tx_bytes_kind,
  flags_kind, awg_kind, other_peer, ifindex_kind, ifname_kind, private_key_kind, device_key_kind,
  listen_port_kind, fwmark_kind, jc_kind, jmin_kind, jmax_kind, s1_kind, s2_kind, s3_kind, s4_kind,
  h1_kind, h2_kind, h3_kind, h4_kind, i1_kind, i2_kind, i3_kind, i4_kind, i5_kind, other_device,
}

module _ (reads : Reads) where
  unfoldable pub parse_allowedip : IpAttr → IpState → IpState
  parse_allowedip attr st = elim (attr.kind) [
    | family_kind ↦
        with_value (reads.number 2 attr.payload) (λ n st. record st { family = family_at n }) st
    | ipaddr_kind ↦
        if length attr.payload == 4 || length attr.payload == 16
        then record st { memory = copy_words (words_of attr.payload) st.memory }
        else st
    | cidr_mask_kind ↦ with_value (reads.number 1 attr.payload) (λ n st. record st { cidr = n }) st
    | other_ip ↦ st
  ]

  abbrev pub parse_ip_attrs : List IpAttr → IpState → IpState
  parse_ip_attrs [] st = st
  parse_ip_attrs (a ∷ attrs) st = parse_ip_attrs attrs (parse_allowedip a st)

  -- The new address is linked to the peer in any case.
  unfoldable pub parse_allowedips : List IpAttr → WgPeer → Bool × WgPeer
  parse_allowedips attrs p =
      let st = parse_ip_attrs attrs new_ip in
      (is_valid_ip st, record p { allowedips = p.allowedips ++ allowedip_of st ∷ [] })

  unfoldable pub parse_all_allowedips : List (List IpAttr) → WgPeer → Bool × WgPeer
  parse_all_allowedips [] p = (true, p)
  parse_all_allowedips (attrs ∷ others) p =
      let (good, p') = parse_allowedips attrs p in
      let rest = parse_all_allowedips others p' in if good then rest else (false, p')

  abbrev pub set_public_key : Bytes → WgPeer → WgPeer
  set_public_key key p = record p {
    public_key = key;
    flags = record (p.flags) { has_public_key = true };
  }

  abbrev pub set_preshared_key : Bytes → WgPeer → WgPeer
  set_preshared_key key p = record p {
    preshared_key = key;
    flags = record (p.flags) {
      has_preshared_key = p.flags.has_preshared_key || not (key_is_zero key);
    };
  }

  abbrev pub is_sockaddr : Bytes → Bool
  is_sockaddr payload = elim (reads.family_of payload) [
    | af_unspec ↦ false
    | af_inet ↦ length payload == reads.sockaddr_len af_inet
    | af_inet6 ↦ length payload == reads.sockaddr_len af_inet6
  ]

  -- `WGPEER_F_HAS_AWG`.
  abbrev pub set_flags : ℕ → WgPeer → WgPeer
  set_flags n p =
      if n / 8 % 2 == 1 && not p.flags.has_awg
      then record p { awg = false; flags = record (p.flags) { has_awg = true } }
      else p

  unfoldable pub parse_plain : PeerKind → Bytes → WgPeer → WgPeer
  parse_plain public_key_kind payload p = with_key payload set_public_key p
  parse_plain preshared_key_kind payload p = with_key payload set_preshared_key p
  parse_plain endpoint_kind payload p =
      if ltb (length payload) reads.sockaddr_size
      then p
      else if is_sockaddr payload
      then record p { endpoint = reads.sockaddr_of payload }
      else p
  parse_plain keepalive_kind payload p =
      with_value (reads.number 2 payload) (λ n p. record p { persistent_keepalive_interval = n }) p
  parse_plain handshake_kind payload p =
      if length payload == reads.timespec_len
      then record p { last_handshake_time = reads.timespec_of payload }
      else p
  parse_plain rx_bytes_kind payload p =
      with_value (reads.number 8 payload) (λ n p. record p { rx_bytes = n }) p
  parse_plain tx_bytes_kind payload p =
      with_value (reads.number 8 payload) (λ n p. record p { tx_bytes = n }) p
  parse_plain flags_kind payload p = with_value (reads.number 4 payload) set_flags p
  parse_plain awg_kind payload p =
      if reads.is_flag payload
      then record p { awg = true; flags = record (p.flags) { has_awg = true } }
      else p
  parse_plain other_peer payload p = p

  unfoldable pub parse_peer : PeerAttr → WgPeer → Bool × WgPeer
  parse_peer (plain kind payload) p = (true, parse_plain kind payload p)
  parse_peer (allowedips ips) p = parse_all_allowedips ips p

  unfoldable pub parse_peer_attrs : List PeerAttr → WgPeer → Bool × WgPeer
  parse_peer_attrs [] p = (true, p)
  parse_peer_attrs (a ∷ attrs) p =
      let (good, p') = parse_peer a p in
      let rest = parse_peer_attrs attrs p' in if good then rest else (false, p')

  -- The new peer is linked in any case. `ret` is `MNL_CB_OK` or `MNL_CB_ERROR` and so never zero: the
  -- test of `!ret` behind the nested attributes does not fire.
  unfoldable pub parse_peers : List PeerAttr → WgDevice → Bool × WgDevice
  parse_peers attrs d =
      let p = (parse_peer_attrs attrs new_peer).1 in
      (p.flags.has_public_key, record d { peers = d.peers ++ p ∷ [] })

  unfoldable pub parse_all_peers : List (List PeerAttr) → WgDevice → Bool × WgDevice
  parse_all_peers [] d = (true, d)
  parse_all_peers (attrs ∷ others) d =
      let (good, d') = parse_peers attrs d in
      let rest = parse_all_peers others d' in if good then rest else (false, d')

  -- `GET_MAGIC_HEADER`.
  abbrev pub with_magic_header : Bytes → (Option Bytes → WgDevice → WgDevice) → WgDevice → WgDevice
  with_magic_header payload set d = elim (reads.number 4 payload) [
    | some n ↦ set (some (print_u n)) d
    | none ↦ with_value (reads.nul_string payload) (λ s. set (some s)) d
  ]

  abbrev pub with_string : Bytes → (Option Bytes → WgDevice → WgDevice) → WgDevice → WgDevice
  with_string payload set = with_value (reads.nul_string payload) (λ s. set (some s))

  unfoldable pub parse_single : DeviceKind → Bytes → WgDevice → WgDevice
  parse_single ifindex_kind payload d =
      with_value (reads.number 4 payload) (λ n d. record d { ifindex = n }) d
  parse_single ifname_kind payload d =
      with_value (reads.string payload) (λ s d. record d { name = take 15 s }) d
  parse_single private_key_kind payload d = with_key payload Setter.private_key d
  parse_single device_key_kind payload d =
      with_key payload
        (λ k d. record d { public_key = k; flags = record (d.flags) { has_public_key = true } }) d
  parse_single listen_port_kind payload d =
      with_value (reads.number 2 payload) (λ n d. record d { listen_port = n }) d
  parse_single fwmark_kind payload d =
      with_value (reads.number 4 payload) (λ n d. record d { fwmark = n }) d
  parse_single jc_kind payload d = with_value (reads.number 2 payload) Setter.jc d
  parse_single jmin_kind payload d = with_value (reads.number 2 payload) Setter.jmin d
  parse_single jmax_kind payload d = with_value (reads.number 2 payload) Setter.jmax d
  parse_single s1_kind payload d = with_value (reads.number 2 payload) Setter.s1 d
  parse_single s2_kind payload d = with_value (reads.number 2 payload) Setter.s2 d
  parse_single s3_kind payload d = with_value (reads.number 2 payload) Setter.s3 d
  parse_single s4_kind payload d = with_value (reads.number 2 payload) Setter.s4 d
  parse_single h1_kind payload d = with_magic_header payload Setter.h1 d
  parse_single h2_kind payload d = with_magic_header payload Setter.h2 d
  parse_single h3_kind payload d = with_magic_header payload Setter.h3 d
  parse_single h4_kind payload d = with_magic_header payload Setter.h4 d
  parse_single i1_kind payload d = with_string payload Setter.i1 d
  parse_single i2_kind payload d = with_string payload Setter.i2 d
  parse_single i3_kind payload d = with_string payload Setter.i3 d
  parse_single i4_kind payload d = with_string payload Setter.i4 d
  parse_single i5_kind payload d = with_string payload Setter.i5 d
  parse_single other_device payload d = d

  unfoldable pub parse_device : DeviceAttr → WgDevice → Bool × WgDevice
  parse_device (single kind payload) d = (true, parse_single kind payload d)
  parse_device (peers nests) d = parse_all_peers nests d

  -- `read_device_cb`.
  unfoldable pub read_device : List DeviceAttr → WgDevice → Bool × WgDevice
  read_device [] d = (true, d)
  read_device (a ∷ attrs) d =
      let (good, d') = parse_device a d in
      let rest = read_device attrs d' in if good then rest else (false, d')

  unfoldable pub read_devices : List (List DeviceAttr) → WgDevice → Bool × WgDevice
  read_devices [] d = (true, d)
  read_devices (m ∷ messages) d =
      let (good, d') = read_device m d in
      let rest = read_devices messages d' in if good then rest else (false, d')
