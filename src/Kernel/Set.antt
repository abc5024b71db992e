-- ===== src/Kernel/Set.antt =====
-- ipc-linux.h: `kernel_set_device`.
pub mod Leads
pub mod Room
pub mod Progress
pub mod Sent
pub mod Within
use special_potato.Prelude.{
  ℕ, zero, suc, ◌+◌, ◌%◌, ◌^◌, Bool, true, false, not, ◌&&◌, ◌||◌, List, [], ◌∷◌, ◌++◌, Bytes, ◌⊎◌,
  inl, inr, Option, none, some, leb, ltb, ◌==◌, if◌then◌else◌,
}
use special_potato.Outcome.{Outcome, ok, fault, pending, ◌>>=◌}
use special_potato.Libc.Strtoul.{strtoul}
use special_potato.Uapi.{ℤ, pos, negative}
use special_potato.Containers.{
  Family, af_unspec, af_inet, af_inet6, Sockaddr, WgAllowedip, WgPeer, WgDevice,
}
use special_potato.Kernel.{
  Netlink, Payload, DeviceType, PeerType, IpType, Attr, PeerNest, Message, attrs_room, attr_room,
  nest_start_check, put_checks, reserve,
}
use special_potato.Kernel.Payload.{number, blob, strz, words, address}
use special_potato.Kernel.DeviceType.{
  ifname, private_key, listen_port, fwmark, flags, jc, jmin, jmax, s1, s2, s3, s4, h1, h2, h3, h4,
  i1, i2, i3, i4, i5,
}
use special_potato.Kernel.PeerType.{
  peer_public_key, peer_preshared_key, peer_endpoint, peer_keepalive, peer_awg, peer_flags,
}
use special_potato.Kernel.IpType.{ip_family, ip_addr, ip_cidr_mask}
use special_potato.Kernel.Attrs.{attr_if}
use special_potato.Kernel.Nest.{Cursor, put_peers}

-- What `mnlg_socket_send` and `mnlg_socket_recv_run` make of a message: the first fails with an
-- `errno`, or the second does, which may leave it zero, or there is no error.
pub data Reply : Type 0 where
  send_failed run_failed : ℕ → Reply
  answered : Reply

module _ (nl : Netlink) where
  abbrev pub number_attr : Bool → DeviceType → ℕ → ℕ → List (Attr DeviceType)
  number_attr test type width n = attr_if test type (number width n)

  -- A string that is NULL is read by `strlen`.
  abbrev pub strz_attr : Bool → DeviceType → Option Bytes → Outcome (List (Attr DeviceType))
  strz_attr false type s = ok []
  strz_attr true type none = fault
  strz_attr true type (some s) = ok (attr_if true type (strz s))

  unfoldable pub put_magic_header_attr :
      ℕ → Bool → DeviceType → Option Bytes → Outcome (List (Attr DeviceType))
  put_magic_header_attr version false type s = ok []
  put_magic_header_attr version true type none = fault
  put_magic_header_attr version true type (some s) =
      if leb 2 version
      then ok (attr_if true type (strz s))
      else ok (attr_if true type (number 4 ((strtoul nl.ulong_max 10 s).0 % 2 ^ 32)))

  -- The attributes of the device, which only the first message has.
  unfoldable pub device_attrs : ℕ → WgDevice → Outcome (List (Attr DeviceType))
  device_attrs version d = do
    a1 ← put_magic_header_attr version d.flags.has_h1 h1 d.init_packet_magic_header
    a2 ← put_magic_header_attr version d.flags.has_h2 h2 d.response_packet_magic_header
    a3 ← put_magic_header_attr version d.flags.has_h3 h3 d.underload_packet_magic_header
    a4 ← put_magic_header_attr version d.flags.has_h4 h4 d.transport_packet_magic_header
    b1 ← strz_attr d.flags.has_i1 i1 d.i1
    b2 ← strz_attr d.flags.has_i2 i2 d.i2
    b3 ← strz_attr d.flags.has_i3 i3 d.i3
    b4 ← strz_attr d.flags.has_i4 i4 d.i4
    b5 ← strz_attr d.flags.has_i5 i5 d.i5
    ok (
        attr_if d.flags.has_private_key private_key (blob d.private_key)
        ++ number_attr d.flags.has_listen_port listen_port 2 d.listen_port
        ++ number_attr d.flags.has_jc jc 2 d.junk_packet_count
        ++ number_attr d.flags.has_jmin jmin 2 d.junk_packet_min_size
        ++ number_attr d.flags.has_jmax jmax 2 d.junk_packet_max_size
        ++ number_attr d.flags.has_s1 s1 2 d.init_packet_junk_size
        ++ number_attr d.flags.has_s2 s2 2 d.response_packet_junk_size
        ++ number_attr d.flags.has_s3 s3 2 d.cookie_reply_packet_junk_size
        ++ number_attr d.flags.has_s4 s4 2 d.transport_packet_junk_size
        ++ a1
        ++ a2
        ++ a3
        ++ a4
        ++ b1
        ++ b2
        ++ b3
        ++ b4
        ++ b5
        ++ number_attr d.flags.has_fwmark fwmark 4 d.fwmark
        ++ number_attr d.flags.replace_peers flags 4 1)

  -- A message with these attributes in front, for the peers from here on.
  unfoldable pub put_message :
      List (Attr DeviceType) → List WgAllowedip → List WgPeer → Message × Option Cursor
  put_message attrs allowedip peers =
      let (nests, stop) =
        put_peers nl (nl.header_size + attrs_room nl attrs + nl.attr_size 0) allowedip peers in
      (record { attrs = attrs; peers = some nests }, stop)

  -- The message that starts at the first peer.
  unfoldable pub first_message : List (Attr DeviceType) → List WgPeer → Message × Option Cursor
  first_message attrs [] = (record { attrs = attrs; peers = none }, none)
  first_message attrs (p ∷ peers) = put_message attrs [] (p ∷ peers)

  abbrev pub name_attr : WgDevice → List (Attr DeviceType)
  name_attr d = attr_if true ifname (strz d.name)

  abbrev pub next_message : WgDevice → Cursor → Message × Option Cursor
  next_message d c = put_message (name_attr d) c.allowedip (c.peer ∷ c.next)

  abbrev pub nest_room : Option (List PeerNest) → ℕ
  nest_room none = 0
  nest_room (some ns) = nl.attr_size 0

  -- The attributes of the device, and the start of the nest of the peers, are written without a look
  -- at the buffer.
  abbrev pub overruns : Message → Bool
  overruns m = ltb nl.buffer_size (nl.header_size + attrs_room nl m.attrs + nest_room m.peers)

  module _ (exchange : ℕ → Message → Reply) where
    -- Each message is sent and answered; the loop ends behind the last one, or at the first error. To
    -- write past the end of the buffer, ahead of the call that sends, is the outcome `fault`.
    unfoldable pub send_from :
        ℕ → ℕ → WgDevice → Message × Option Cursor → Outcome (List Message × ℤ)
    send_from zero n d (message, stop) = pending
    send_from (suc fuel) n d (message, stop) =
        if overruns message then fault else elim (exchange n message) [
          | send_failed errno ↦ ok (message ∷ [], negative errno)
          | run_failed errno ↦ ok (message ∷ [], negative (if errno == 0 then nl.einval else errno))
          | answered ↦ elim stop [
            | none ↦ ok (message ∷ [], pos 0)
            | some c ↦ do
              (messages, ret) ← send_from fuel (suc n) d (next_message d c)
              ok (message ∷ messages, ret)
          ]
        ]

    -- The messages that were handed to the socket, and the return value. `opened` is what
    -- `mnlg_socket_open` gives: the version of the family, or the error.
    unfoldable pub kernel_set_device : ℕ → ℕ ⊎ ℕ → WgDevice → Outcome (List Message × ℤ)
    kernel_set_device fuel (inl errno) d = ok ([], negative errno)
    kernel_set_device fuel (inr version) d = do
      attrs ← device_attrs version d
      send_from fuel 0 d (first_message (name_attr d ++ attrs) d.peers)
