-- ===== src/Tests/Dumping.antt =====
-- The theorems on the columns that show prints at a device.
use special_potato.Prelude.{
  ℕ, true, List, ◌∷◌, Bytes, Option, some, codes, ◌≡◌, ◌⊎◌, inl, arith, refl,
}
use special_potato.Containers.{Family, Sockaddr, WgDevice}
use special_potato.Outcome.{ok}
use special_potato.Libc.{str_eq}
use special_potato.Show.Ugly.{of_peers, transfer, params, find_param, ugly_print}
use special_potato.Show.Ugly.Places.{rows_of}
use special_potato.Show.Ugly.Rows.{ugly_print-cells}
use special_potato.Show.Dump.{dump_print}
use special_potato.Show.Dump.Columns.{cells}
use special_potato.Show.Dump.Address.{IsPlainLibc}
use special_potato.Show.Dump.Rows.{device_columns, peer_rows}
use special_potato.Show.Dump.Script.{IsPlainDevice, dump_print-cells}
use special_potato.Tests.{running}

abbrev one_address : Family → List ℕ → Option Bytes
one_address family words = some (codes "10.0.0.1")

abbrev one_host : Sockaddr → (Bytes × Bytes) ⊎ Bytes
one_host a = inl (codes "192.0.2.1", codes "51820")

one_libc : IsPlainLibc one_address one_host
one_libc = record {
  address = λ family words. ground arith;
  host = λ a. (ground arith, ground arith);
}

abbrev dumped : WgDevice
dumped = record running { name = codes "awg0"; i1 = some (codes "<b 0x0102>") }

dumped-IsPlainDevice : IsPlainDevice dumped
dumped-IsPlainDevice = record {
  name = ground arith;
  h1 = tt;
  h2 = tt;
  h3 = tt;
  h4 = tt;
  i1 = ground arith;
  i2 = tt;
  i3 = tt;
  i4 = tt;
  i5 = tt;
}

found : find_param params (codes "transfer") ≡ some (of_peers transfer)
unfolding find_param str_eq
found = refl

dump_print-cells_example :
    cells (dump_print one_address one_host true dumped)
    ≡ device_columns true dumped ∷ peer_rows one_address one_host true dumped.name dumped.peers
dump_print-cells_example =
    dump_print-cells one_address one_host one_libc true dumped dumped-IsPlainDevice

ugly_print-cells_example :
    (text : Bytes) × ((ugly_print one_address one_host dumped (codes "transfer") true ≡ ok text)
      × (cells text ≡ rows_of one_address one_host true dumped (of_peers transfer)))
ugly_print-cells_example =
    ugly_print-cells one_address one_host one_libc dumped (codes "transfer") true
      (of_peers transfer) found dumped-IsPlainDevice tt
