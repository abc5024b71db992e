-- ===== src/Show/Ugly/Rows.antt =====
-- The output of `ugly_print` against that of `dump_print`.
use special_potato.Prelude.{
  ℕ, Bool, true, false, List, [], ◌∷◌, ◌++◌, Bytes, Option, none, some, codes, ◌≡◌, refl, sym, ap,
  ◌∙◌, All, ◌⊎◌, arith,
}
use mathlib.Core.List.{append-nil}
use special_potato.Outcome.{ok}
use special_potato.Encoding.{key_to_base64}
use special_potato.Libc.{split_on}
use special_potato.Libc.Printf.{print_u, print_x}
use special_potato.Containers.{Family, Sockaddr, WgAllowedip, WgPeer, WgDevice}
use special_potato.Showconf.{or_null}
use special_potato.Show.Dump.{named, ip}
use special_potato.Show.Dump.Columns.{IsPlain, cells, cells-row, row}
use special_potato.Show.Dump.Plain.{
  append-IsPlain, key_to_base64-IsPlain, maybe_key-IsPlain, print_u-IsPlain, print_x-IsPlain,
  or_off-IsPlain, IsPlainOption,
}
use special_potato.Show.Dump.Address.{IsPlainLibc, endpoint_column-IsPlain, prefix-IsPlain}
use special_potato.Show.Dump.Rows.{key_column, device_rest, named_columns}
use special_potato.Show.Dump.Script.{IsPlainDevice, dump_print-cells}
use special_potato.Show.Ugly.{
  DeviceParam, PeerParam, Param, of_device, of_peers, dump, params, find_param, or_fault,
  ugly_device, spaced_ips, ugly_peer, ugly_peers, print_param, ugly_print, public_key_param,
  private_key_param, listen_port_param, fwmark_param, jc_param, jmin_param, jmax_param, s1_param,
  s2_param, s3_param, s4_param, h1_param, h2_param, h3_param, h4_param, i1_param, i2_param,
  i3_param, i4_param, i5_param, endpoints, allowed_ips, latest_handshakes, transfer,
  persistent_keepalive, preshared_keys, peers,
}
use special_potato.Show.Ugly.Places.{
  picks, device_place, IsThere, HasText, peer_item, item_rows, rows_of,
}

named-cells :
    (with_interface : Bool) (name c : Bytes) (ds : List Bytes) (rest : Bytes)
    → IsPlain name
    → IsPlain c
    → All IsPlain ds
    → cells (named with_interface name (row c ds []) ++ rest)
      ≡ named_columns with_interface name (c ∷ ds) ∷ cells rest
named-cells true name c ds rest hn hc hs = cells-row name (c ∷ ds) rest hn (hc, hs)
named-cells false name c ds rest hn hc hs = cells-row c ds rest hc hs

-- A text of one column that `ugly_device` gives, which the dump has at its place.
abbrev Shows : WgDevice → DeviceParam → Type 0
Shows d param =
    (text : Bytes) × ((ugly_device param d ≡ ok text)
      × (IsPlain text
          × (picks (device_place param ∷ []) (key_column d ∷ device_rest d) ≡ text ∷ [])))

string-Shows :
    (s : Option Bytes)
    → IsThere s
    → IsPlainOption s
    → (text : Bytes) × ((or_fault s ≡ ok text) × (IsPlain text × (or_null s ∷ [] ≡ text ∷ [])))
string-Shows none there plain = elim there [ ]
string-Shows (some s) there plain = (s, (refl, (plain, refl)))

device-Shows :
    (d : WgDevice) (param : DeviceParam)
    → IsPlainDevice d
    → HasText d (of_device param)
    → Shows d param
unfolding ugly_device
device-Shows d private_key_param h t =
    (_, (refl, (maybe_key-IsPlain d.private_key d.flags.has_private_key, refl)))
device-Shows d public_key_param h t =
    (_, (refl, (maybe_key-IsPlain d.public_key d.flags.has_public_key, refl)))
device-Shows d fwmark_param h t = (
  _,
  (
    refl,
    (
      or_off-IsPlain d.fwmark _ (
          append-IsPlain (codes "0x") (print_x d.fwmark) (ground arith) (print_x-IsPlain d.fwmark)),
      refl,
    ),
  ),
)
device-Shows d listen_port_param h t = (_, (refl, (print_u-IsPlain _, refl)))
device-Shows d jc_param h t = (_, (refl, (print_u-IsPlain _, refl)))
device-Shows d jmin_param h t = (_, (refl, (print_u-IsPlain _, refl)))
device-Shows d jmax_param h t = (_, (refl, (print_u-IsPlain _, refl)))
device-Shows d s1_param h t = (_, (refl, (print_u-IsPlain _, refl)))
device-Shows d s2_param h t = (_, (refl, (print_u-IsPlain _, refl)))
device-Shows d s3_param h t = (_, (refl, (print_u-IsPlain _, refl)))
device-Shows d s4_param h t = (_, (refl, (print_u-IsPlain _, refl)))
device-Shows d h1_param h t = string-Shows d.init_packet_magic_header t h.h1
device-Shows d h2_param h t = string-Shows d.response_packet_magic_header t h.h2
device-Shows d h3_param h t = string-Shows d.underload_packet_magic_header t h.h3
device-Shows d h4_param h t = string-Shows d.transport_packet_magic_header t h.h4
device-Shows d i1_param h t = string-Shows d.i1 t h.i1
device-Shows d i2_param h t = string-Shows d.i2 t h.i2
device-Shows d i3_param h t = string-Shows d.i3 t h.i3
device-Shows d i4_param h t = string-Shows d.i4 t h.i4
device-Shows d i5_param h t = string-Shows d.i5 t h.i5

module _ (inet_ntop : Family → List ℕ → Option Bytes)
    (getnameinfo : Sockaddr → (Bytes × Bytes) ⊎ Bytes)
    (libc : IsPlainLibc inet_ntop getnameinfo) where
  spaced_ips-IsPlain : (ips : List WgAllowedip) → IsPlain (spaced_ips inet_ntop getnameinfo ips)
  spaced_ips-IsPlain [] = ground arith
  spaced_ips-IsPlain (a ∷ []) = prefix-IsPlain inet_ntop getnameinfo libc a
  spaced_ips-IsPlain (a ∷ b ∷ rest) =
      append-IsPlain (ip inet_ntop getnameinfo a ++ codes "/" ++ print_u a.cidr ++ codes " ") _
        (append-IsPlain (ip inet_ntop getnameinfo a ++ codes "/" ++ print_u a.cidr) (codes " ")
          (prefix-IsPlain inet_ntop getnameinfo libc a) (ground arith))
        (spaced_ips-IsPlain (b ∷ rest))

  ugly_peer-cells :
      (param : PeerParam) (with_interface : Bool) (name : Bytes) (p : WgPeer) (rest : Bytes)
      → IsPlain name
      → cells (named with_interface name (ugly_peer inet_ntop getnameinfo param p) ++ rest)
        ≡ named_columns with_interface name (peer_item inet_ntop getnameinfo param p) ∷ cells rest
  unfolding ugly_peer
  ugly_peer-cells endpoints w name p rest h =
      named-cells w name (key_to_base64 p.public_key) (_ ∷ []) rest h
        (key_to_base64-IsPlain p.public_key)
        (endpoint_column-IsPlain inet_ntop getnameinfo libc p.endpoint, tt)
  ugly_peer-cells allowed_ips w name p rest h =
      named-cells w name (key_to_base64 p.public_key) (_ ∷ []) rest h
        (key_to_base64-IsPlain p.public_key) (spaced_ips-IsPlain p.allowedips, tt)
  ugly_peer-cells latest_handshakes w name p rest h =
      named-cells w name (key_to_base64 p.public_key) (_ ∷ []) rest h
        (key_to_base64-IsPlain p.public_key) (print_u-IsPlain p.last_handshake_time.tv_sec, tt)
  ugly_peer-cells transfer w name p rest h =
      named-cells w name (key_to_base64 p.public_key) (_ ∷ _ ∷ []) rest h
        (key_to_base64-IsPlain p.public_key)
        (print_u-IsPlain p.rx_bytes, (print_u-IsPlain p.tx_bytes, tt))
  ugly_peer-cells persistent_keepalive w name p rest h =
      named-cells w name (key_to_base64 p.public_key) (_ ∷ []) rest h
        (key_to_base64-IsPlain p.public_key)
        (
          or_off-IsPlain p.persistent_keepalive_interval _
              (print_u-IsPlain p.persistent_keepalive_interval),
          tt,
        )
  ugly_peer-cells preshared_keys w name p rest h =
      named-cells w name (key_to_base64 p.public_key) (_ ∷ []) rest h
        (key_to_base64-IsPlain p.public_key)
        (maybe_key-IsPlain p.preshared_key p.flags.has_preshared_key, tt)
  ugly_peer-cells peers w name p rest h =
      named-cells w name (key_to_base64 p.public_key) [] rest h (key_to_base64-IsPlain p.public_key)
        tt

  ugly_peers-cells :
      (param : PeerParam) (with_interface : Bool) (name : Bytes) (others : List WgPeer)
      → IsPlain name
      → cells (ugly_peers inet_ntop getnameinfo param with_interface name others)
        ≡ item_rows inet_ntop getnameinfo param with_interface name others
  unfolding ugly_peers split_on
  ugly_peers-cells param w name [] h = refl
  ugly_peers-cells param w name (p ∷ others) h =
      ugly_peer-cells param w name p (ugly_peers inet_ntop getnameinfo param w name others) h
      ∙ ap (λ rows. named_columns w name (peer_item inet_ntop getnameinfo param p) ∷ rows)
          (ugly_peers-cells param w name others h)

  -- What `print_param` prints, in rows.
  abbrev Prints : Bool → WgDevice → Param → Type 0
  Prints w d param =
      (text : Bytes) × ((print_param inet_ntop getnameinfo w d param ≡ ok text)
        × (cells text ≡ rows_of inet_ntop getnameinfo w d param))

  print_param-Prints :
      (w : Bool) (d : WgDevice) (param : Param)
      → IsPlainDevice d
      → HasText d param
      → Prints w d param
  unfolding print_param split_on
  print_param-Prints w d (of_device param) h t =
      let (text, (shown, (plain, place))) = device-Shows d param h t in
      let line = named w d.name (text ++ codes "\n") in
      (
        line,
        (
          rw shown refl,
          ap cells (sym (append-nil line))
              ∙ named-cells w d.name text [] [] h.name plain tt
              ∙ ap (λ columns. named_columns w d.name columns ∷ ([] ∷ []) ∷ []) (sym place),
        ),
      )
  print_param-Prints w d (of_peers param) h t =
      (_, (refl, ugly_peers-cells param w d.name d.peers h.name))
  print_param-Prints w d dump h t = (_, (refl, dump_print-cells inet_ntop getnameinfo libc w d h))

  -- Where the strings of the device and what the C library writes for addresses have no tab and no line
  -- feed, and the string that is asked for is not NULL, `ugly_print` succeeds with each word that it
  -- knows, and a script that splits its output at line feeds and at tabs gets what it would pick from
  -- the columns of the dump at fixed places (but for the allowed addresses, which have spaces between
  -- them here): one column of the device, or for each peer its key and the columns of the item.
  pub ugly_print-cells :
      (d : WgDevice) (word : Bytes) (with_interface : Bool) (param : Param)
      → find_param params word ≡ some param
      → IsPlainDevice d
      → HasText d param
      → (text : Bytes) × ((ugly_print inet_ntop getnameinfo d word with_interface ≡ ok text)
          × (cells text ≡ rows_of inet_ntop getnameinfo with_interface d param))
  unfolding ugly_print
  ugly_print-cells d word with_interface param found h t =
      let (text, (shown, same)) = print_param-Prints with_interface d param h t in
      (text, (rw (ugly_print, found) shown, same))
