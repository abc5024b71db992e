-- ===== src/Ipc.antt =====
-- ipc.c: the list of the interfaces, and the choice between the kernel and a userspace
-- implementation. Memory is a list of bytes; an access behind its end is the outcome `fault`.
pub mod Names
pub mod Walk
use special_potato.Prelude.{
  ℕ, zero, suc, ◌+◌, ◌*◌, ◌-◌, Bool, true, false, List, [], ◌∷◌, ◌++◌, Bytes, Option, none, some,
  leb, ltb, ◌==◌, if◌then◌else◌, length,
}
use special_potato.Outcome.{Outcome, ok, error, fault, pending, ◌>>=◌}
use special_potato.Libc.{split_first}
use special_potato.Config.Number.{is_empty}

pub record StringList : Type 0 where
  pub buffer : Bytes
  pub len : ℕ
  pub cap : ℕ

abbrev pub no_strings : StringList
no_strings = record { buffer = []; len = 0; cap = 0 }

-- `memcpy` to the place `i` of a memory.
unfoldable pub copy_at : ℕ → Bytes → Bytes → Outcome Bytes
copy_at zero [] memory = ok memory
copy_at zero (c ∷ s) [] = fault
copy_at zero (c ∷ s) (b ∷ memory) = do rest ← copy_at zero s memory; ok (c ∷ rest)
copy_at (suc i) s [] = fault
copy_at (suc i) s (b ∷ memory) = do rest ← copy_at i s memory; ok (b ∷ rest)

-- `fresh n` is what stands in n bytes that `realloc` adds.
module _ (fresh : ℕ → Bytes) where
  abbrev pub new_cap : StringList → ℕ → ℕ
  new_cap list n =
      let least = list.len + n + 1 in if ltb (list.cap * 2) least then least else list.cap * 2

  abbrev pub grow : StringList → ℕ → StringList
  grow list n = record list {
    buffer = list.buffer ++ fresh (new_cap list n - list.cap);
    cap = new_cap list n;
  }

  -- `len` is not above `cap`.
  unfoldable pub string_list_add : StringList → Bytes → Outcome StringList
  string_list_add list str =
      let n = length str + 1 in
      let room = if leb (list.cap - list.len) n then grow list n else list in
      if n == 1 then ok list else (do
        memory ← copy_at room.len (str ++ 0 ∷ []) room.buffer
        memory' ← copy_at (room.len + n) (0 ∷ []) memory
        ok (record { buffer = memory'; len = room.len + n; cap = room.cap }))

  unfoldable pub add_all : List Bytes → StringList → Outcome StringList
  add_all [] list = ok list
  add_all (name ∷ names) list = do list' ← string_list_add list name; add_all names list'

  -- The names that each of the two finds, with the error that it ends with, if it does.
  unfoldable pub ipc_list_devices : List Bytes × ℕ → List Bytes × ℕ → Outcome Bytes
  ipc_list_devices kernel userspace = do
    list ← add_all kernel.0 no_strings
    let more : Outcome Bytes = (do
      list' ← add_all userspace.0 list
      let found = if list'.cap == 0 then 0 ∷ [] else list'.buffer
      if userspace.1 == 0 then ok found else error)
    if kernel.1 == 0 then more else error

-- The loop of `show_main` over the names: up to the first one that is empty.
unfoldable pub interfaces : ℕ → Bytes → Outcome (List Bytes)
interfaces zero memory = pending
interfaces (suc fuel) memory = elim (split_first 0 memory) [
  | none ↦ fault
  | some (name, rest) ↦
      let others = (do names ← interfaces fuel rest; ok (name ∷ names)) in
      if is_empty name then ok [] else others
]

-- `ipc_get_device` and `ipc_set_device`: the userspace implementation if it has the interface.
abbrev pub ipc_choose {ℓ} : {A : Type ℓ} → Bool → A → A → A
ipc_choose userspace_has_wireguard_interface userspace kernel =
    if userspace_has_wireguard_interface then userspace else kernel
