-- ===== src/Show/Dump/Rows.antt =====
-- The columns of the dump, one list for each line.
use special_potato.Prelude.{ℕ, Bool, true, false, List, [], ◌∷◌, ◌++◌, Bytes, Option, codes, ◌⊎◌}
use special_potato.Encoding.{key_to_base64}
use special_potato.Libc.Printf.{print_u, print_x}
use special_potato.Containers.{Family, Sockaddr, WgPeer, WgDevice}
use special_potato.Showconf.{or_null}
use special_potato.Show.Dump.{maybe_key, or_off, endpoint_column, ips_column}

abbrev pub key_column : WgDevice → Bytes
key_column d = maybe_key d.private_key d.flags.has_private_key

abbrev pub headers : WgDevice → List Bytes
headers d =
    or_null d.init_packet_magic_header
    ∷ or_null d.response_packet_magic_header
    ∷ or_null d.underload_packet_magic_header
    ∷ or_null d.transport_packet_magic_header
    ∷ or_null d.i1
    ∷ or_null d.i2
    ∷ or_null d.i3
    ∷ or_null d.i4
    ∷ or_null d.i5
    ∷ or_off d.fwmark (codes "0x" ++ print_x d.fwmark)
    ∷ []

abbrev pub device_rest : WgDevice → List Bytes
device_rest d =
    maybe_key d.public_key d.flags.has_public_key
    ∷ print_u d.listen_port
    ∷ print_u d.junk_packet_count
    ∷ print_u d.junk_packet_min_size
    ∷ print_u d.junk_packet_max_size
    ∷ print_u d.init_packet_junk_size
    ∷ print_u d.response_packet_junk_size
    ∷ print_u d.cookie_reply_packet_junk_size
    ∷ print_u d.transport_packet_junk_size
    ∷ headers d

abbrev pub named_columns : Bool → Bytes → List Bytes → List Bytes
named_columns true name columns = name ∷ columns
named_columns false name columns = columns

abbrev pub device_columns : Bool → WgDevice → List Bytes
device_columns with_interface d = named_columns with_interface d.name (key_column d ∷ device_rest d)

module _ (inet_ntop : Family → List ℕ → Option Bytes)
    (getnameinfo : Sockaddr → (Bytes × Bytes) ⊎ Bytes) where
  abbrev pub peer_rest : WgPeer → List Bytes
  peer_rest p =
      maybe_key p.preshared_key p.flags.has_preshared_key
      ∷ endpoint_column inet_ntop getnameinfo p.endpoint
      ∷ ips_column inet_ntop getnameinfo p.allowedips
      ∷ print_u p.last_handshake_time.tv_sec
      ∷ print_u p.rx_bytes
      ∷ print_u p.tx_bytes
      ∷ or_off p.persistent_keepalive_interval (print_u p.persistent_keepalive_interval)
      ∷ []

  abbrev pub peer_columns : Bool → Bytes → WgPeer → List Bytes
  peer_columns with_interface name p =
      named_columns with_interface name (key_to_base64 p.public_key ∷ peer_rest p)

  -- The rows of the peers, and the empty piece behind the last line feed.
  abbrev pub peer_rows : Bool → Bytes → List WgPeer → List (List Bytes)
  peer_rows with_interface name [] = ([] ∷ []) ∷ []
  peer_rows with_interface name (p ∷ peers) =
      peer_columns with_interface name p ∷ peer_rows with_interface name peers
