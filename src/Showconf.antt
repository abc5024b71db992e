-- ===== src/Showconf.antt =====
-- showconf.c: the configuration that `showconf_main` prints.
use special_potato.Prelude.{
  ℕ, Bool, true, false, List, [], ◌∷◌, ◌++◌, Bytes, Option, none, some, codes, ◌==◌, if◌then◌else◌,
}
use special_potato.Encoding.{key_to_base64}
use special_potato.Libc.{split_first}
use special_potato.Libc.Printf.{print_u, print_x}
use special_potato.Containers.{
  Family, af_inet, af_inet6, af_unspec, Sockaddr, WgAllowedip, WgPeer, WgDevice,
}

-- `printf` of a string that may be NULL, as the C library of the project's platforms writes it.
abbrev pub or_null : Option Bytes → Bytes
or_null none = codes "(null)"
or_null (some s) = s

-- A line `name = value` under its condition.
abbrev pub field : Bool → Bytes → Bytes → Bytes
field true name value = name ++ codes " = " ++ value ++ codes "\n"
field false name value = []

abbrev pub is_set : ℕ → Bool
is_set n = if n == 0 then false else true

unfoldable pub show_interface : WgDevice → Bytes
show_interface d =
    codes "[Interface]\n"
    ++ field (is_set d.listen_port) (codes "ListenPort") (print_u d.listen_port)
    ++ field (is_set d.fwmark) (codes "FwMark") (codes "0x" ++ print_x d.fwmark)
    ++ field d.flags.has_private_key (codes "PrivateKey") (key_to_base64 d.private_key)
    ++ field d.flags.has_jc (codes "Jc") (print_u d.junk_packet_count)
    ++ field d.flags.has_jmin (codes "Jmin") (print_u d.junk_packet_min_size)
    ++ field d.flags.has_jmax (codes "Jmax") (print_u d.junk_packet_max_size)
    ++ field d.flags.has_s1 (codes "S1") (print_u d.init_packet_junk_size)
    ++ field d.flags.has_s2 (codes "S2") (print_u d.response_packet_junk_size)
    ++ field d.flags.has_s3 (codes "S3") (print_u d.cookie_reply_packet_junk_size)
    ++ field d.flags.has_s4 (codes "S4") (print_u d.transport_packet_junk_size)
    ++ field d.flags.has_h1 (codes "H1") (or_null d.init_packet_magic_header)
    ++ field d.flags.has_h2 (codes "H2") (or_null d.response_packet_magic_header)
    ++ field d.flags.has_h3 (codes "H3") (or_null d.underload_packet_magic_header)
    ++ field d.flags.has_h4 (codes "H4") (or_null d.transport_packet_magic_header)
    ++ field d.flags.has_i1 (codes "I1") (or_null d.i1)
    ++ field d.flags.has_i2 (codes "I2") (or_null d.i2)
    ++ field d.flags.has_i3 (codes "I3") (or_null d.i3)
    ++ field d.flags.has_i4 (codes "I4") (or_null d.i4)
    ++ field d.flags.has_i5 (codes "I5") (or_null d.i5)
    ++ codes "\n"

-- `inet_ntop` of the words of an address, and the numeric host and service of `getnameinfo`.
module _ (inet_ntop : Family → List ℕ → Option Bytes)
    (getnameinfo : Sockaddr → Option (Bytes × Bytes)) where
  abbrev pub ntop : WgAllowedip → Option Bytes
  ntop a = elim (a.family) [
    | af_unspec ↦ none
    | af_inet ↦ inet_ntop af_inet a.ip
    | af_inet6 ↦ inet_ntop af_inet6 a.ip
  ]

  -- An address that cannot be written is passed over, its comma too.
  unfoldable pub show_allowedips : List WgAllowedip → Bytes
  show_allowedips [] = []
  show_allowedips (a ∷ []) = elim (ntop a) [
    | none ↦ []
    | some ip ↦ ip ++ codes "/" ++ print_u a.cidr
  ]
  show_allowedips (a ∷ b ∷ rest) =
      let others = show_allowedips (b ∷ rest) in
      elim (ntop a) [
        | none ↦ others
        | some ip ↦ ip ++ codes "/" ++ print_u a.cidr ++ codes ", " ++ others
      ]

  abbrev pub show_host : Family → Bytes × Bytes → Bytes
  show_host af_inet6 (host, service) = elim (split_first b':' host) [
    | none ↦ host ++ codes ":" ++ service
    | some _ ↦ codes "[" ++ host ++ codes "]:" ++ service
  ]
  show_host _ (host, service) = host ++ codes ":" ++ service

  abbrev show_endpoint : Sockaddr → Bytes
  show_endpoint a = elim (getnameinfo a) [
    | none ↦ []
    | some named ↦ field true (codes "Endpoint") (show_host a.sa_family named)
  ]

  abbrev endpoint_of : Sockaddr → Family → Bytes
  endpoint_of a af_unspec = []
  endpoint_of a _ = show_endpoint a

  abbrev allowedips_line : List WgAllowedip → Bytes
  allowedips_line [] = []
  allowedips_line (a ∷ rest) = field true (codes "AllowedIPs") (show_allowedips (a ∷ rest))

  unfoldable pub show_peer : WgPeer → Bytes
  show_peer p =
      codes "[Peer]\n"
      ++ field true (codes "PublicKey") (key_to_base64 p.public_key)
      ++ field p.flags.has_preshared_key (codes "PresharedKey") (key_to_base64 p.preshared_key)
      ++ field p.flags.has_awg (codes "AdvancedSecurity")
          (if p.awg then codes "on" else codes "off")
      ++ allowedips_line p.allowedips
      ++ endpoint_of p.endpoint p.endpoint.sa_family
      ++ field (is_set p.persistent_keepalive_interval) (codes "PersistentKeepalive")
          (print_u p.persistent_keepalive_interval)

  unfoldable pub show_peers : List WgPeer → Bytes
  show_peers [] = []
  show_peers (p ∷ []) = show_peer p
  show_peers (p ∷ q ∷ peers) = show_peer p ++ codes "\n" ++ show_peers (q ∷ peers)

  unfoldable pub showconf : WgDevice → Bytes
  showconf d = show_interface d ++ show_peers d.peers
