-- ===== src/Show/Dump.antt =====
-- show.c: `dump_print`, the dump for scripts.
pub mod Columns
pub mod Plain
pub mod Rows
pub mod Address
pub mod Script
use special_potato.Prelude.{
  ℕ, Bool, true, false, List, [], ◌∷◌, ◌++◌, Bytes, Option, none, some, codes, ◌==◌, if◌then◌else◌,
  ◌⊎◌, inl, inr,
}
use special_potato.Encoding.{key_to_base64}
use special_potato.Libc.{split_first}
use special_potato.Libc.Printf.{print_u, print_x}
use special_potato.Showconf.{or_null}
use special_potato.Containers.{
  Family, af_inet, af_inet6, af_unspec, Sockaddr, WgAllowedip, WgPeer, WgDevice,
}

abbrev pub maybe_key : Bytes → Bool → Bytes
maybe_key key true = key_to_base64 key
maybe_key key false = codes "(none)"

-- `fwmark` and `persistent_keepalive_interval`, of which zero is off.
abbrev pub or_off : ℕ → Bytes → Bytes
or_off n text = if n == 0 then codes "off" else text

-- A text with a tab behind it, in front of the rest of the line.
infixr 5 ◌⇥◌
abbrev pub ◌⇥◌ : Bytes → Bytes → Bytes
text ⇥ rest = text ++ (b'\t' ∷ rest)

-- The name of the interface stands in front of each line if it is asked for.
abbrev pub named : Bool → Bytes → Bytes → Bytes
named true name line = name ⇥ line
named false name line = line

unfoldable pub dump_device : Bool → WgDevice → Bytes
dump_device with_interface d = named with_interface d.name (
    maybe_key d.private_key d.flags.has_private_key
    ⇥ maybe_key d.public_key d.flags.has_public_key
    ⇥ print_u d.listen_port
    ⇥ print_u d.junk_packet_count
    ⇥ print_u d.junk_packet_min_size
    ⇥ print_u d.junk_packet_max_size
    ⇥ print_u d.init_packet_junk_size
    ⇥ print_u d.response_packet_junk_size
    ⇥ print_u d.cookie_reply_packet_junk_size
    ⇥ print_u d.transport_packet_junk_size
    ⇥ or_null d.init_packet_magic_header
    ⇥ or_null d.response_packet_magic_header
    ⇥ or_null d.underload_packet_magic_header
    ⇥ or_null d.transport_packet_magic_header
    ⇥ or_null d.i1
    ⇥ or_null d.i2
    ⇥ or_null d.i3
    ⇥ or_null d.i4
    ⇥ or_null d.i5
    ⇥ or_off d.fwmark (codes "0x" ++ print_x d.fwmark) ++ codes "\n")

-- An address that cannot be written leaves the cleared buffer.
abbrev pub or_empty : Option Bytes → Bytes
or_empty none = []
or_empty (some s) = s

-- Brackets where the host has a colon.
abbrev pub bracketed : Option (Bytes × Bytes) → Bytes → Bytes → Bytes
bracketed none host service = host ++ codes ":" ++ service
bracketed (some _) host service = codes "[" ++ host ++ codes "]:" ++ service

abbrev pub host_and_service : Family → (Bytes × Bytes) ⊎ Bytes → Bytes
host_and_service af_inet6 (inl (host, service)) = bracketed (split_first b':' host) host service
host_and_service _ (inl (host, service)) = host ++ codes ":" ++ service
host_and_service _ (inr error) = error

-- The column of an endpoint that has this text.
abbrev pub endpoint_text : Family → Bytes → Bytes
endpoint_text af_unspec text = codes "(none)"
endpoint_text _ text = text

-- `inet_ntop` of the words of an address, and `getnameinfo`: the numeric host and service, or the
-- text of `gai_strerror` for the error.
module _ (inet_ntop : Family → List ℕ → Option Bytes)
    (getnameinfo : Sockaddr → (Bytes × Bytes) ⊎ Bytes) where
  abbrev pub ip : WgAllowedip → Bytes
  ip a = elim (a.family) [
    | af_unspec ↦ []
    | af_inet ↦ or_empty (inet_ntop af_inet a.ip)
    | af_inet6 ↦ or_empty (inet_ntop af_inet6 a.ip)
  ]

  abbrev pub endpoint : Sockaddr → Bytes
  endpoint a = host_and_service a.sa_family (getnameinfo a)

  abbrev pub endpoint_column : Sockaddr → Bytes
  endpoint_column a = endpoint_text a.sa_family (endpoint a)

  abbrev pub ips_column : List WgAllowedip → Bytes
  ips_column [] = codes "(none)"
  ips_column (a ∷ []) = ip a ++ codes "/" ++ print_u a.cidr
  ips_column (a ∷ b ∷ rest) =
      ip a ++ codes "/" ++ print_u a.cidr ++ codes "," ++ ips_column (b ∷ rest)

  unfoldable pub dump_peer : Bool → Bytes → WgPeer → Bytes
  dump_peer with_interface name p = named with_interface name (
      key_to_base64 p.public_key
      ⇥ maybe_key p.preshared_key p.flags.has_preshared_key
      ⇥ endpoint_column p.endpoint
      ⇥ ips_column p.allowedips
      ⇥ print_u p.last_handshake_time.tv_sec
      ⇥ print_u p.rx_bytes
      ⇥ print_u p.tx_bytes
      ⇥ (or_off p.persistent_keepalive_interval (print_u p.persistent_keepalive_interval)
          ++ codes "\n"))

  unfoldable pub dump_peers : Bool → Bytes → List WgPeer → Bytes
  dump_peers with_interface name [] = []
  dump_peers with_interface name (p ∷ peers) =
      dump_peer with_interface name p ++ dump_peers with_interface name peers

  unfoldable pub dump_print : Bool → WgDevice → Bytes
  dump_print with_interface d =
      dump_device with_interface d ++ dump_peers with_interface d.name d.peers
