-- ===== src/Setconf.antt =====
-- setconf.c: `sync_conf` and `setconf_main`.
pub mod Laws
pub mod Order
pub mod Sorted
pub mod Removed
pub mod Difference
pub mod Result
use special_potato.Prelude.{
  ℕ, Bool, true, false, not, ◌&&◌, ◌||◌, List, [], ◌∷◌, ◌++◌, Bytes, Option, none, some, codes, ltb,
  ◌==◌, if◌then◌else◌, length, take,
}
use special_potato.Libc.{str_eq}
use special_potato.Containers.{WgPeer, WgDevice, new_peer, no_peer_flags}
use special_potato.Outcome.{Outcome, ok, error, ◌>>=◌, System}
use special_potato.Config.Line.{config_read_init, config_read_lines, config_read_finish}

pub record PubkeyOrigin : Type 0 where
  pub pubkey : Bytes
  pub from_file : Bool

-- `memcmp` of two keys is negative.
unfoldable pub key_lt : Bytes → Bytes → Bool
key_lt (a ∷ s) (b ∷ t) = let rest = key_lt s t in ltb a b || (a == b && rest)
key_lt s t = false

-- `pubkey_cmp` is negative: by the key, and the one from the file is the larger one.
unfoldable pub pubkey_lt : PubkeyOrigin → PubkeyOrigin → Bool
pubkey_lt a b =
    key_lt a.pubkey b.pubkey || (str_eq a.pubkey b.pubkey && (not a.from_file && b.from_file))

-- `qsort`. Entries that compare as equal are equal, so every way to sort gives the same array.
unfoldable pub insert : PubkeyOrigin → List PubkeyOrigin → List PubkeyOrigin
insert a [] = a ∷ []
insert a (b ∷ xs) = let rest = insert a xs in if pubkey_lt b a then b ∷ rest else a ∷ b ∷ xs

unfoldable pub sort : List PubkeyOrigin → List PubkeyOrigin
sort [] = []
sort (a ∷ xs) = insert a (sort xs)

unfoldable pub origins : Bool → List WgPeer → List PubkeyOrigin
origins b [] = []
origins b (p ∷ peers) = record { pubkey = p.public_key; from_file = b } ∷ origins b peers

-- Whether the next entry is from the file and has the same key.
abbrev pub is_kept : Bytes → List PubkeyOrigin → Bool
is_kept key [] = false
is_kept key (b ∷ xs) = b.from_file && str_eq key b.pubkey

abbrev pub removal : Bytes → WgPeer
removal key = record new_peer {
  flags = record no_peer_flags { remove_me = true };
  public_key = key;
}

-- The loop over the sorted array: each removal goes to the front of the peers.
unfoldable pub mark_removals : List PubkeyOrigin → List WgPeer → List WgPeer
mark_removals [] peers = peers
mark_removals (a ∷ xs) peers =
    mark_removals xs
      (if a.from_file || is_kept a.pubkey xs then peers else removal a.pubkey ∷ peers)

abbrev pub has_peers : List WgPeer → Bool
has_peers [] = false
has_peers (p ∷ peers) = true

-- What `sync_conf` makes of the file's device, given the device that runs.
unfoldable pub sync_with : WgDevice → WgDevice → WgDevice
sync_with runtime file = if not (has_peers runtime.peers) then file else record file {
  flags = record (file.flags) { replace_peers = false };
  peers = mark_removals (sort (origins true file.peers ++ origins false runtime.peers)) file.peers;
}

-- `ipc_get_device` gives the device of this name, or fails; `ipc_set_device` gets the result.
module _ (sys : System) (ipc_get_device : Bytes → Option WgDevice) where
  unfoldable pub sync_conf : WgDevice → Outcome WgDevice
  sync_conf file = if not (has_peers file.peers) then ok file else elim (ipc_get_device file.name) [
    | none ↦ error
    | some runtime ↦ ok (sync_with runtime file)
  ]

  -- `IFNAMSIZ - 1`.
  abbrev pub max_name : ℕ
  max_name = 15

  -- The device that is handed to `ipc_set_device`; `none` for a file that cannot be opened.
  unfoldable pub setconf_main : List Bytes → (Bytes → Option (List Bytes)) → Outcome WgDevice
  setconf_main (command ∷ interface ∷ file ∷ []) lines_of = elim (lines_of file) [
    | none ↦ error
    | some lines ↦ do
      ctx ← config_read_lines sys lines (config_read_init (str_eq command (codes "addconf")))
      device ← config_read_finish ctx
      let named = record device { name = take max_name interface }
      if str_eq command (codes "syncconf") then sync_conf named else ok named
  ]
  setconf_main args lines_of = error
