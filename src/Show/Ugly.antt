-- ===== src/Show/Ugly.antt =====
-- show.c: `ugly_print`, one item of a device for scripts.
pub mod Places
pub mod Rows
use special_potato.Prelude.{
  ℕ, Bool, true, false, List, [], ◌∷◌, ◌++◌, Bytes, Option, none, some, codes, ◌==◌, if◌then◌else◌,
  ◌⊎◌, inl, inr,
}
use special_potato.Outcome.{Outcome, ok, error, fault, ◌>>=◌}
use special_potato.Encoding.{key_to_base64}
use special_potato.Libc.{str_eq}
use special_potato.Libc.Printf.{print_u, print_x}
use special_potato.Containers.{Family, Sockaddr, WgAllowedip, WgPeer, WgDevice}
use special_potato.Show.Dump.{maybe_key, or_off, ◌⇥◌, named, ip, endpoint_column, dump_print}

-- The items of the device and those of each peer, and `dump`.
pub data DeviceParam : Type 0 where
  public_key_param private_key_param listen_port_param fwmark_param jc_param jmin_param jmax_param
        s1_param s2_param s3_param s4_param h1_param h2_param h3_param h4_param i1_param i2_param
        i3_param i4_param i5_param :
      DeviceParam

pub data PeerParam : Type 0 where
  endpoints allowed_ips latest_handshakes transfer persistent_keepalive preshared_keys peers :
      PeerParam

pub data Param : Type 0 where
  of_device : DeviceParam → Param
  of_peers : PeerParam → Param
  dump : Param

-- The words, in the order of the tests.
abbrev pub params : List (Bytes × Param)
params =
    (codes "public-key", of_device public_key_param)
    ∷ (codes "private-key", of_device private_key_param)
    ∷ (codes "listen-port", of_device listen_port_param)
    ∷ (codes "fwmark", of_device fwmark_param)
    ∷ (codes "jc", of_device jc_param)
    ∷ (codes "jmin", of_device jmin_param)
    ∷ (codes "jmax", of_device jmax_param)
    ∷ (codes "s1", of_device s1_param)
    ∷ (codes "s2", of_device s2_param)
    ∷ (codes "s3", of_device s3_param)
    ∷ (codes "s4", of_device s4_param)
    ∷ (codes "h1", of_device h1_param)
    ∷ (codes "h2", of_device h2_param)
    ∷ (codes "h3", of_device h3_param)
    ∷ (codes "h4", of_device h4_param)
    ∷ (codes "i1", of_device i1_param)
    ∷ (codes "i2", of_device i2_param)
    ∷ (codes "i3", of_device i3_param)
    ∷ (codes "i4", of_device i4_param)
    ∷ (codes "i5", of_device i5_param)
    ∷ (codes "endpoints", of_peers endpoints)
    ∷ (codes "allowed-ips", of_peers allowed_ips)
    ∷ (codes "latest-handshakes", of_peers latest_handshakes)
    ∷ (codes "transfer", of_peers transfer)
    ∷ (codes "persistent-keepalive", of_peers persistent_keepalive)
    ∷ (codes "preshared-keys", of_peers preshared_keys)
    ∷ (codes "peers", of_peers peers)
    ∷ (codes "dump", dump)
    ∷ []

unfoldable pub find_param : List (Bytes × Param) → Bytes → Option Param
find_param [] word = none
find_param ((name, param) ∷ others) word =
    let rest = find_param others word in if str_eq word name then some param else rest

-- `printf` of a string that is NULL, which C leaves open: with `"%s\n"` compilers call `puts`, which
-- reads it.
abbrev pub or_fault : Option Bytes → Outcome Bytes
or_fault none = fault
or_fault (some s) = ok s

-- What is printed between the name of the interface and the line feed.
unfoldable pub ugly_device : DeviceParam → WgDevice → Outcome Bytes
ugly_device public_key_param d = ok (maybe_key d.public_key d.flags.has_public_key)
ugly_device private_key_param d = ok (maybe_key d.private_key d.flags.has_private_key)
ugly_device listen_port_param d = ok (print_u d.listen_port)
ugly_device fwmark_param d = ok (or_off d.fwmark (codes "0x" ++ print_x d.fwmark))
ugly_device jc_param d = ok (print_u d.junk_packet_count)
ugly_device jmin_param d = ok (print_u d.junk_packet_min_size)
ugly_device jmax_param d = ok (print_u d.junk_packet_max_size)
ugly_device s1_param d = ok (print_u d.init_packet_junk_size)
ugly_device s2_param d = ok (print_u d.response_packet_junk_size)
ugly_device s3_param d = ok (print_u d.cookie_reply_packet_junk_size)
ugly_device s4_param d = ok (print_u d.transport_packet_junk_size)
ugly_device h1_param d = or_fault d.init_packet_magic_header
ugly_device h2_param d = or_fault d.response_packet_magic_header
ugly_device h3_param d = or_fault d.underload_packet_magic_header
ugly_device h4_param d = or_fault d.transport_packet_magic_header
ugly_device i1_param d = or_fault d.i1
ugly_device i2_param d = or_fault d.i2
ugly_device i3_param d = or_fault d.i3
ugly_device i4_param d = or_fault d.i4
ugly_device i5_param d = or_fault d.i5

module _ (inet_ntop : Family → List ℕ → Option Bytes)
    (getnameinfo : Sockaddr → (Bytes × Bytes) ⊎ Bytes) where
  -- As in the dump, with spaces.
  abbrev pub spaced_ips : List WgAllowedip → Bytes
  spaced_ips [] = codes "(none)"
  spaced_ips (a ∷ []) = ip inet_ntop getnameinfo a ++ codes "/" ++ print_u a.cidr
  spaced_ips (a ∷ b ∷ rest) =
      ip inet_ntop getnameinfo a
      ++ codes "/"
      ++ print_u a.cidr
      ++ codes " "
      ++ spaced_ips (b ∷ rest)

  -- The line of a peer behind the name of the interface.
  unfoldable pub ugly_peer : PeerParam → WgPeer → Bytes
  ugly_peer endpoints p =
      key_to_base64 p.public_key ⇥ (endpoint_column inet_ntop getnameinfo p.endpoint ++ codes "\n")
  ugly_peer allowed_ips p = key_to_base64 p.public_key ⇥ (spaced_ips p.allowedips ++ codes "\n")
  ugly_peer latest_handshakes p =
      key_to_base64 p.public_key ⇥ (print_u p.last_handshake_time.tv_sec ++ codes "\n")
  ugly_peer transfer p =
      key_to_base64 p.public_key ⇥ print_u p.rx_bytes ⇥ (print_u p.tx_bytes ++ codes "\n")
  ugly_peer persistent_keepalive p =
      key_to_base64 p.public_key
      ⇥ (or_off p.persistent_keepalive_interval (print_u p.persistent_keepalive_interval)
          ++ codes "\n")
  ugly_peer preshared_keys p =
      key_to_base64 p.public_key
      ⇥ (maybe_key p.preshared_key p.flags.has_preshared_key ++ codes "\n")
  ugly_peer peers p = key_to_base64 p.public_key ++ codes "\n"

  unfoldable pub ugly_peers : PeerParam → Bool → Bytes → List WgPeer → Bytes
  ugly_peers param with_interface name [] = []
  ugly_peers param with_interface name (p ∷ others) =
      named with_interface name (ugly_peer param p) ++ ugly_peers param with_interface name others

  unfoldable pub print_param : Bool → WgDevice → Param → Outcome Bytes
  print_param with_interface d (of_device param) = do
    text ← ugly_device param d
    ok (named with_interface d.name (text ++ codes "\n"))
  print_param with_interface d (of_peers param) =
      ok (ugly_peers param with_interface d.name d.peers)
  print_param with_interface d dump = ok (dump_print inet_ntop getnameinfo with_interface d)

  -- The error is the return of `false`, behind a message.
  unfoldable pub ugly_print : WgDevice → Bytes → Bool → Outcome Bytes
  ugly_print d param with_interface = elim (find_param params param) [
    | none ↦ error
    | some p ↦ print_param with_interface d p
  ]
