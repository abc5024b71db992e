-- ===== src/Tests/Listing.antt =====
-- The theorem on the list of interfaces at three names.
use special_potato.Prelude.{
  ℕ, List, [], ◌∷◌, ◌++◌, Bytes, codes, replicate, length, ◌≡◌, refl, ap, arith, zero, suc,
}
use special_potato.Outcome.{ok}
use special_potato.Ipc.{ipc_list_devices, interfaces}
use special_potato.Ipc.Walk.{ipc_list_devices-interfaces}

abbrev junk : ℕ → Bytes
junk n = replicate n 165

length-junk : (n : ℕ) → length (junk n) ≡ n
length-junk zero = refl
length-junk (suc n) = ap suc (length-junk n)

abbrev of_kernel : List Bytes
of_kernel = codes "awg0" ∷ codes "awg1" ∷ []

abbrev of_userspace : List Bytes
of_userspace = codes "tun7" ∷ []

ipc_list_devices-interfaces_example :
    (memory : Bytes) × ((ipc_list_devices junk (of_kernel, 0) (of_userspace, 0) ≡ ok memory)
      × (interfaces 4 memory ≡ ok (of_kernel ++ of_userspace)))
ipc_list_devices-interfaces_example =
    ipc_list_devices-interfaces junk of_kernel of_userspace 4 length-junk (ground arith)
      (ground arith) (omega arith)
