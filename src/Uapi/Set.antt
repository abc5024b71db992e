-- ===== src/Uapi/Set.antt =====
-- ipc-uapi.h: `userspace_set_device`.
use special_potato.Prelude.{
  ℕ, Bool, true, false, List, [], ◌∷◌, ◌++◌, Bytes, Option, none, some, codes, ◌==◌, if◌then◌else◌,
}
use special_potato.Encoding.{key_to_hex}
use special_potato.Libc.{str_eq}
use special_potato.Libc.Printf.{print_u}
use special_potato.Containers.{Family, af_unspec, Sockaddr, WgAllowedip, WgPeer, WgDevice}
use special_potato.Showconf.{or_null, ntop, show_host}
use mathlib.Core.Logic.{◌⊎◌, inl, inr}
use special_potato.Uapi.{ℤ, negative, Errors, entry, is_blank_line, int_value}

-- A line under its condition.
abbrev pub setting : Bool → Bytes → Bytes → Bytes
setting true name value = name ++ codes "=" ++ value ++ codes "\n"
setting false name value = []

-- What is in front of the peers.
unfoldable pub set_interface : WgDevice → Bytes
set_interface d =
    codes "set=1\n"
    ++ setting d.flags.has_private_key (codes "private_key") (key_to_hex d.private_key)
    ++ setting d.flags.has_listen_port (codes "listen_port") (print_u d.listen_port)
    ++ setting d.flags.has_fwmark (codes "fwmark") (print_u d.fwmark)
    ++ setting d.flags.replace_peers (codes "replace_peers") (codes "true")
    ++ setting d.flags.has_jc (codes "jc") (print_u d.junk_packet_count)
    ++ setting d.flags.has_jmin (codes "jmin") (print_u d.junk_packet_min_size)
    ++ setting d.flags.has_jmax (codes "jmax") (print_u d.junk_packet_max_size)
    ++ setting d.flags.has_s1 (codes "s1") (print_u d.init_packet_junk_size)
    ++ setting d.flags.has_s2 (codes "s2") (print_u d.response_packet_junk_size)
    ++ setting d.flags.has_s3 (codes "s3") (print_u d.cookie_reply_packet_junk_size)
    ++ setting d.flags.has_s4 (codes "s4") (print_u d.transport_packet_junk_size)
    ++ setting d.flags.has_h1 (codes "h1") (or_null d.init_packet_magic_header)
    ++ setting d.flags.has_h2 (codes "h2") (or_null d.response_packet_magic_header)
    ++ setting d.flags.has_h3 (codes "h3") (or_null d.underload_packet_magic_header)
    ++ setting d.flags.has_h4 (codes "h4") (or_null d.transport_packet_magic_header)
    ++ setting d.flags.has_i1 (codes "i1") (or_null d.i1)
    ++ setting d.flags.has_i2 (codes "i2") (or_null d.i2)
    ++ setting d.flags.has_i3 (codes "i3") (or_null d.i3)
    ++ setting d.flags.has_i4 (codes "i4") (or_null d.i4)
    ++ setting d.flags.has_i5 (codes "i5") (or_null d.i5)

-- The reply is read up to a blank line. `errno` is its value at the end of the loop without one.
unfoldable pub read_reply : Bool → Errors → ℕ → ℤ → List Bytes → ℤ
read_reply signed e errno set_errno [] = if errno == 0 then negative e.eproto else negative errno
read_reply signed e errno set_errno (line ∷ lines) =
    let failed = if errno == 0 then negative e.eproto else negative errno in
    let other = read_reply signed e errno set_errno lines in
    let next = λ (code : ℤ). read_reply signed e errno code lines in
    if is_blank_line line then set_errno else elim (entry line) [
      | none ↦ failed
      | some (key, value) ↦
          if str_eq key (codes "errno")
          then (elim (int_value signed value) [ none ↦ failed | some code ↦ next code ])
          else other
    ]

module _ (inet_ntop : Family → List ℕ → Option Bytes)
    (getnameinfo : Sockaddr → Option (Bytes × Bytes)) where
  abbrev endpoint_line : Sockaddr → Family → Bytes
  endpoint_line a af_unspec = []
  endpoint_line a family = elim (getnameinfo a) [
    | none ↦ []
    | some named ↦ setting true (codes "endpoint") (show_host inet_ntop getnameinfo family named)
  ]

  unfoldable pub allowed_ip_lines : List WgAllowedip → Bytes
  allowed_ip_lines [] = []
  allowed_ip_lines (a ∷ rest) =
      let others = allowed_ip_lines rest in
      elim (ntop inet_ntop getnameinfo a) [
        | none ↦ others
        | some ip ↦ setting true (codes "allowed_ip") (ip ++ codes "/" ++ print_u a.cidr) ++ others
      ]

  -- Behind the public key of a peer.
  unfoldable pub set_peer : WgPeer → Bytes
  set_peer p =
      if p.flags.remove_me
      then codes "remove=true\n"
      else setting p.flags.has_preshared_key (codes "preshared_key") (key_to_hex p.preshared_key)
        ++ endpoint_line p.endpoint p.endpoint.sa_family
        ++ setting p.flags.has_keepalive (codes "persistent_keepalive_interval")
            (print_u p.persistent_keepalive_interval)
        ++ setting p.flags.replace_allowedips (codes "replace_allowed_ips") (codes "true")
        ++ allowed_ip_lines p.allowedips

  -- The text, and whether it goes to its end: a peer with the flag for AWG ends it.
  pub record Request : Type 0 where
    pub text : Bytes
    pub complete : Bool

  unfoldable pub set_peers : List WgPeer → Request
  set_peers [] = record { text = codes "\n"; complete = true }
  set_peers (p ∷ peers) =
      let rest = set_peers peers in
      let first = setting true (codes "public_key") (key_to_hex p.public_key) in
      if p.flags.has_awg
      then record { text = first; complete = false }
      else record { text = first ++ set_peer p ++ rest.text; complete = rest.complete }

  unfoldable pub set_request : WgDevice → Request
  set_request d =
      let peers = set_peers d.peers in
      record { text = set_interface d ++ peers.text; complete = peers.complete }

  -- The text that is sent and the result; `socket` is `userspace_interface_file`, which gives the
  -- reply to a text or fails with an `errno`.
  unfoldable pub userspace_set_device :
      (signed : Bool) (e : Errors) (socket : Bytes → (Bytes → List Bytes) ⊎ ℕ) (errno : ℕ)
      → WgDevice
      → Bytes × ℤ
  userspace_set_device signed e socket errno d = elim (socket d.name) [
    | inr failed ↦ ([], negative failed)
    | inl reply ↦
        let request = set_request d in
        if request.complete
        then (request.text, read_reply signed e errno (negative e.eproto) (reply request.text))
        else (request.text, negative e.einval)
  ]
