-- ===== src/Show/Dump/Script.antt =====
-- The dump, split into lines and columns.
use special_potato.Prelude.{
  ℕ, Bool, true, false, List, [], ◌∷◌, ◌++◌, Bytes, Option, codes, ◌≡◌, refl, ap, ◌∙◌, arith, All,
  ◌⊎◌,
}
use special_potato.Encoding.{key_to_base64}
use special_potato.Libc.{split_on}
use special_potato.Libc.Printf.{print_x}
use special_potato.Containers.{Family, Sockaddr, WgPeer, WgDevice}
use special_potato.Show.Dump.{dump_device, dump_peer, dump_peers, dump_print}
use special_potato.Show.Dump.Columns.{IsPlain, cells, cells-row}
use special_potato.Show.Dump.Plain.{
  append-IsPlain, key_to_base64-IsPlain, maybe_key-IsPlain, print_u-IsPlain, print_x-IsPlain,
  or_off-IsPlain, IsPlainOption, or_null-IsPlain,
}
use special_potato.Show.Dump.Address.{IsPlainLibc, endpoint_column-IsPlain, ips_column-IsPlain}
use special_potato.Show.Dump.Rows.{
  key_column, headers, device_rest, device_columns, peer_rest, peer_columns, peer_rows,
}

-- The name, the headers and the special packets of a device have no tab and no line feed.
pub record IsPlainDevice (d : WgDevice) : Type 0 where
  pub name : IsPlain d.name
  pub h1 : IsPlainOption d.init_packet_magic_header
  pub h2 : IsPlainOption d.response_packet_magic_header
  pub h3 : IsPlainOption d.underload_packet_magic_header
  pub h4 : IsPlainOption d.transport_packet_magic_header
  pub i1 : IsPlainOption d.i1
  pub i2 : IsPlainOption d.i2
  pub i3 : IsPlainOption d.i3
  pub i4 : IsPlainOption d.i4
  pub i5 : IsPlainOption d.i5

headers-IsPlain : (d : WgDevice) → IsPlainDevice d → All IsPlain (headers d)
headers-IsPlain d h = (
  or_null-IsPlain _ h.h1,
  (
    or_null-IsPlain _ h.h2,
    (
      or_null-IsPlain _ h.h3,
      (
        or_null-IsPlain _ h.h4,
        (
          or_null-IsPlain _ h.i1,
          (
            or_null-IsPlain _ h.i2,
            (
              or_null-IsPlain _ h.i3,
              (
                or_null-IsPlain _ h.i4,
                (
                  or_null-IsPlain _ h.i5,
                  (
                    or_off-IsPlain d.fwmark _ (
                        append-IsPlain (codes "0x") (print_x d.fwmark) (ground arith)
                          (print_x-IsPlain d.fwmark)),
                    tt,
                  ),
                ),
              ),
            ),
          ),
        ),
      ),
    ),
  ),
)

device_rest-IsPlain : (d : WgDevice) → IsPlainDevice d → All IsPlain (device_rest d)
device_rest-IsPlain d h = (
  maybe_key-IsPlain d.public_key d.flags.has_public_key,
  (
    print_u-IsPlain _,
    (
      print_u-IsPlain _,
      (
        print_u-IsPlain _,
        (
          print_u-IsPlain _,
          (
            print_u-IsPlain _,
            (print_u-IsPlain _, (print_u-IsPlain _, (print_u-IsPlain _, headers-IsPlain d h))),
          ),
        ),
      ),
    ),
  ),
)

dump_device-cells :
    (with_interface : Bool) (d : WgDevice) (rest : Bytes)
    → IsPlainDevice d
    → cells (dump_device with_interface d ++ rest) ≡ device_columns with_interface d ∷ cells rest
unfolding dump_device
dump_device-cells true d rest h =
    cells-row d.name (key_column d ∷ device_rest d) rest h.name
      (maybe_key-IsPlain d.private_key d.flags.has_private_key, device_rest-IsPlain d h)
dump_device-cells false d rest h =
    cells-row (key_column d) (device_rest d) rest
      (maybe_key-IsPlain d.private_key d.flags.has_private_key) (device_rest-IsPlain d h)

module _ (inet_ntop : Family → List ℕ → Option Bytes)
    (getnameinfo : Sockaddr → (Bytes × Bytes) ⊎ Bytes)
    (libc : IsPlainLibc inet_ntop getnameinfo) where
  peer_rest-IsPlain : (p : WgPeer) → All IsPlain (peer_rest inet_ntop getnameinfo p)
  peer_rest-IsPlain p = (
    maybe_key-IsPlain p.preshared_key p.flags.has_preshared_key,
    (
      endpoint_column-IsPlain inet_ntop getnameinfo libc p.endpoint,
      (
        ips_column-IsPlain inet_ntop getnameinfo libc p.allowedips,
        (
          print_u-IsPlain _,
          (
            print_u-IsPlain _,
            (
              print_u-IsPlain _,
              (or_off-IsPlain p.persistent_keepalive_interval _ (print_u-IsPlain _), tt),
            ),
          ),
        ),
      ),
    ),
  )

  dump_peer-cells :
      (with_interface : Bool) (name : Bytes) (p : WgPeer) (rest : Bytes)
      → IsPlain name
      → cells (dump_peer inet_ntop getnameinfo with_interface name p ++ rest)
        ≡ peer_columns inet_ntop getnameinfo with_interface name p ∷ cells rest
  unfolding dump_peer
  dump_peer-cells true name p rest h =
      cells-row name (key_to_base64 p.public_key ∷ peer_rest inet_ntop getnameinfo p) rest h
        (key_to_base64-IsPlain p.public_key, peer_rest-IsPlain p)
  dump_peer-cells false name p rest h =
      cells-row (key_to_base64 p.public_key) (peer_rest inet_ntop getnameinfo p) rest
        (key_to_base64-IsPlain p.public_key) (peer_rest-IsPlain p)

  dump_peers-cells :
      (with_interface : Bool) (name : Bytes) (peers : List WgPeer)
      → IsPlain name
      → cells (dump_peers inet_ntop getnameinfo with_interface name peers)
        ≡ peer_rows inet_ntop getnameinfo with_interface name peers
  unfolding dump_peers split_on
  dump_peers-cells with_interface name [] h = refl
  dump_peers-cells with_interface name (p ∷ peers) h =
      dump_peer-cells with_interface name p
        (dump_peers inet_ntop getnameinfo with_interface name peers) h
      ∙ ap (λ rows. peer_columns inet_ntop getnameinfo with_interface name p ∷ rows)
          (dump_peers-cells with_interface name peers h)

  -- Where the strings of the device and what the C library writes for addresses have no tab and no
  -- line feed, a script that splits the dump at line feeds and each line at tabs gets one row of
  -- columns for the device and one for each peer, in their order: the key, the preshared key, the
  -- endpoint, the allowed addresses, the handshake, the two counters and the interval of a peer, in
  -- these places whatever their values, with the name of the interface in front if it is asked for.
  pub dump_print-cells :
      (with_interface : Bool) (d : WgDevice)
      → IsPlainDevice d
      → cells (dump_print inet_ntop getnameinfo with_interface d)
        ≡ device_columns with_interface d
          ∷ peer_rows inet_ntop getnameinfo with_interface d.name d.peers
  unfolding dump_print
  dump_print-cells with_interface d h =
      dump_device-cells with_interface d
        (dump_peers inet_ntop getnameinfo with_interface d.name d.peers) h
      ∙ ap (λ rows. device_columns with_interface d ∷ rows)
          (dump_peers-cells with_interface d.name d.peers h.name)
