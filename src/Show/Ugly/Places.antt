-- ===== src/Show/Ugly/Places.antt =====
-- Where the dump has the items of `ugly_print`.
use special_potato.Prelude.{ℕ, Bool, List, [], ◌∷◌, Bytes, Option, none, some, ◌⊎◌, get_elem?}
use special_potato.Encoding.{key_to_base64}
use special_potato.Containers.{Family, Sockaddr, WgPeer, WgDevice}
use special_potato.Show.Dump.Rows.{
  key_column, device_rest, named_columns, device_columns, peer_rest, peer_rows,
}
use special_potato.Show.Ugly.{
  DeviceParam, PeerParam, Param, of_device, of_peers, dump, spaced_ips, public_key_param,
  private_key_param, listen_port_param, fwmark_param, jc_param, jmin_param, jmax_param, s1_param,
  s2_param, s3_param, s4_param, h1_param, h2_param, h3_param, h4_param, i1_param, i2_param,
  i3_param, i4_param, i5_param, endpoints, allowed_ips, latest_handshakes, transfer,
  persistent_keepalive, preshared_keys, peers,
}

-- The elements at some places.
abbrev pub picks : List ℕ → List Bytes → List Bytes
picks [] columns = []
picks (i ∷ places) columns = elim (get_elem? columns i) [
  | none ↦ picks places columns
  | some c ↦ c ∷ picks places columns
]

-- Where the dump has an item: the column of the device's line, and those of a peer's line.
abbrev pub device_place : DeviceParam → ℕ
device_place private_key_param = 0
device_place public_key_param = 1
device_place listen_port_param = 2
device_place jc_param = 3
device_place jmin_param = 4
device_place jmax_param = 5
device_place s1_param = 6
device_place s2_param = 7
device_place s3_param = 8
device_place s4_param = 9
device_place h1_param = 10
device_place h2_param = 11
device_place h3_param = 12
device_place h4_param = 13
device_place i1_param = 14
device_place i2_param = 15
device_place i3_param = 16
device_place i4_param = 17
device_place i5_param = 18
device_place fwmark_param = 19

abbrev pub peer_places : PeerParam → List ℕ
peer_places endpoints = 0 ∷ 2 ∷ []
peer_places allowed_ips = 0 ∷ []
peer_places latest_handshakes = 0 ∷ 4 ∷ []
peer_places transfer = 0 ∷ 5 ∷ 6 ∷ []
peer_places persistent_keepalive = 0 ∷ 7 ∷ []
peer_places preshared_keys = 0 ∷ 1 ∷ []
peer_places peers = 0 ∷ []

abbrev pub IsThere : Option Bytes → Type 0
IsThere none = ⊥
IsThere (some s) = Unit

-- The string of the item is not NULL.
abbrev pub HasText : WgDevice → Param → Type 0
HasText d (of_device h1_param) = IsThere d.init_packet_magic_header
HasText d (of_device h2_param) = IsThere d.response_packet_magic_header
HasText d (of_device h3_param) = IsThere d.underload_packet_magic_header
HasText d (of_device h4_param) = IsThere d.transport_packet_magic_header
HasText d (of_device i1_param) = IsThere d.i1
HasText d (of_device i2_param) = IsThere d.i2
HasText d (of_device i3_param) = IsThere d.i3
HasText d (of_device i4_param) = IsThere d.i4
HasText d (of_device i5_param) = IsThere d.i5
HasText d param = Unit

module _ (inet_ntop : Family → List ℕ → Option Bytes)
    (getnameinfo : Sockaddr → (Bytes × Bytes) ⊎ Bytes) where
  -- The columns of a peer: those of the dump, but with the allowed addresses written with spaces.
  abbrev pub peer_item : PeerParam → WgPeer → List Bytes
  peer_item allowed_ips p =
      key_to_base64 p.public_key ∷ spaced_ips inet_ntop getnameinfo p.allowedips ∷ []
  peer_item param p =
      picks (peer_places param) (key_to_base64 p.public_key ∷ peer_rest inet_ntop getnameinfo p)

  abbrev pub item_rows : PeerParam → Bool → Bytes → List WgPeer → List (List Bytes)
  item_rows param with_interface name [] = ([] ∷ []) ∷ []
  item_rows param with_interface name (p ∷ others) =
      named_columns with_interface name (peer_item param p)
      ∷ item_rows param with_interface name others

  -- The rows of an item, from the columns of the dump.
  abbrev pub rows_of : Bool → WgDevice → Param → List (List Bytes)
  rows_of with_interface d (of_device param) =
      named_columns with_interface d.name
        (picks (device_place param ∷ []) (key_column d ∷ device_rest d))
      ∷ ([] ∷ [])
      ∷ []
  rows_of with_interface d (of_peers param) = item_rows param with_interface d.name d.peers
  rows_of with_interface d dump =
      device_columns with_interface d
      ∷ peer_rows inet_ntop getnameinfo with_interface d.name d.peers
