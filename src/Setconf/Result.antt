-- ===== src/Setconf/Result.antt =====
-- The peers that run behind `sync_conf`, by what uapi/linux/linux/wireguard.h says of the flags of a
-- device and of a peer.
use special_potato.Prelude.{
  Option, some, Bool, true, false, not, ◌&&◌, ◌||◌, if◌then◌else◌, List, [], ◌∷◌, ◌++◌, Bytes, ◌≡◌,
  ◌↔◌, refl, sym, All, Bool-cases, inl, inr, ◌∙◌, ap,
}
use special_potato.Libc.{str_eq}
use special_potato.Containers.{WgPeer, WgDevice}
use special_potato.Setconf.{sync_with, sync_conf, sort, has_peers}
use special_potato.Outcome.{ok, System}
use special_potato.Setconf.Laws.{HasKey}
use special_potato.Setconf.Order.{str_eq_iff}
use special_potato.Setconf.Removed.{
  AllRemovals, removed, removed-AllRemovals, mark_removals-removed,
}
use special_potato.Setconf.Difference.{HasKeys, AreDistinct, entries, sorted_difference}

abbrev pub has_key : Bytes → List WgPeer → Bool
has_key key [] = false
has_key key (p ∷ peers) = let rest = has_key key peers in str_eq key p.public_key || rest

-- Whether the key runs behind a list of peers, which are set one after the other: a peer that is
-- marked is removed, another one is there from then on.
abbrev pub runs_behind : Bytes → List WgPeer → Bool → Bool
runs_behind key [] runs = runs
runs_behind key (p ∷ peers) runs =
    runs_behind key peers (if str_eq key p.public_key then not p.flags.remove_me else runs)

-- A request that replaces the peers starts without any.
abbrev pub runs_after : Bytes → WgDevice → WgDevice → Bool
runs_after key device runtime =
    runs_behind key device.peers (not device.flags.replace_peers && has_key key runtime.peers)

abbrev pub NoRemovals : List WgPeer → Type 0
NoRemovals peers = All (λ p. p.flags.remove_me ≡ false) peers

has_key_iff : (key : Bytes) (peers : List WgPeer) → (has_key key peers ≡ true) ↔ HasKey key peers
has_key_iff key [] = (λ e. cc, λ h. elim h [ ])
has_key_iff key (p ∷ peers) =
    let rest = has_key_iff key peers in
    let first = str_eq_iff key p.public_key in
    elim (Bool-cases (str_eq key p.public_key)) [
      | inl e ↦ rw e (λ h. inl (first.0 e), λ h. refl)
      | inr e ↦ rw e (
        λ h. inr (rest.0 h),
        λ h. elim h [ inl s ↦ (let clash = sym e ∙ first.1 s in cc) | inr more ↦ rest.1 more ],
      )
    ]

runs_behind-other :
    (key : Bytes) (p : WgPeer) (peers : List WgPeer) (runs : Bool)
    → str_eq key p.public_key ≡ false
    → runs_behind key (p ∷ peers) runs ≡ runs_behind key peers runs
runs_behind-other key p peers runs e = rw e refl

runs_behind-same :
    (key : Bytes) (p : WgPeer) (peers : List WgPeer) (runs : Bool)
    → str_eq key p.public_key ≡ true
    → runs_behind key (p ∷ peers) runs ≡ runs_behind key peers (not p.flags.remove_me)
runs_behind-same key p peers runs e = rw e refl

or_true : (b : Bool) → (b || true) ≡ true
or_true true = refl
or_true false = refl

and_true : (b : Bool) → (b && true) ≡ b
and_true true = refl
and_true false = refl

and_false : (b : Bool) → (b && false) ≡ false
and_false true = refl
and_false false = refl

or_false : (b : Bool) → (b || false) ≡ b
or_false true = refl
or_false false = refl

runs_behind-added :
    (key : Bytes) (peers : List WgPeer) (runs : Bool)
    → NoRemovals peers
    → runs_behind key peers runs ≡ (has_key key peers || runs)
runs_behind-added key [] runs all = refl
runs_behind-added key (p ∷ peers) runs all = elim (Bool-cases (str_eq key p.public_key)) [
  | inl e ↦ rw (e, all.0) (runs_behind-added key peers true all.1 ∙ or_true (has_key key peers))
  | inr e ↦ rw e (runs_behind-added key peers runs all.1)
]

runs_behind-removed :
    (key : Bytes) (new peers : List WgPeer) (runs : Bool)
    → AllRemovals new
    → runs_behind key (new ++ peers) runs ≡ runs_behind key peers (runs && not (has_key key new))
runs_behind-removed key [] peers runs all = ap (runs_behind key peers) (sym (and_true runs))
runs_behind-removed key (p ∷ new) peers runs all = elim (Bool-cases (str_eq key p.public_key)) [
  | inl e ↦
      runs_behind-same key p (new ++ peers) runs e
      ∙ rw (e, all.0, and_false runs) (runs_behind-removed key new peers false all.1)
  | inr e ↦
      runs_behind-other key p (new ++ peers) runs e
      ∙ rw e (runs_behind-removed key new peers runs all.1)
]

-- What the difference of two sets says on Booleans.
difference_left :
    (in_file runs gone : Bool)
    → ((gone ≡ true) ↔ ((runs ≡ true) × (in_file ≡ true → ⊥)))
    → (in_file || (runs && not gone)) ≡ in_file
difference_left true runs gone h = refl
difference_left false false gone h = refl
difference_left false true gone h = rw (h.1 (refl, λ e. cc)) refl

no_running :
    (key : Bytes) (peers : List WgPeer) → has_peers peers ≡ false → has_key key peers ≡ false
no_running key [] e = refl
no_running key (p ∷ peers) e = cc

removals_only :
    (key : Bytes) (file runtime : List WgPeer)
    → HasKeys file
    → HasKeys runtime
    → AreDistinct runtime
    → (has_key key (removed (sort (entries file runtime))) ≡ true)
      ↔ ((has_key key runtime ≡ true) × (has_key key file ≡ true → ⊥))
removals_only key file runtime kf kr d =
    let new = has_key_iff key (removed (sort (entries file runtime))) in
    let runs = has_key_iff key runtime in
    let wanted = has_key_iff key file in
    let gone = sorted_difference key file runtime kf kr d in
    (
      λ h. (let g = gone.0 (new.0 h) in (runs.1 g.0, λ e. g.1 (wanted.0 e))),
      λ h. new.1 (gone.1 (runs.0 h.0, λ w. h.1 (wanted.1 w))),
    )

sync_with-alone :
    (runtime file : WgDevice) → has_peers runtime.peers ≡ false → sync_with runtime file ≡ file
unfolding sync_with
sync_with-alone runtime file e = rw e refl

nothing_else : (a b : Bool) → (a || (b && false)) ≡ a
nothing_else a b = rw (and_false b) (or_false a)

runs_after-sync_with :
    (runtime file : WgDevice) (key : Bytes)
    → HasKeys runtime.peers
    → AreDistinct runtime.peers
    → HasKeys file.peers
    → NoRemovals file.peers
    → runs_after key (sync_with runtime file) runtime ≡ has_key key file.peers
unfolding sync_with
runs_after-sync_with runtime file key kr d kf keep = elim (Bool-cases (has_peers runtime.peers)) [
  | inl e ↦
      let new = removed (sort (entries file.peers runtime.peers)) in
      let shape = mark_removals-removed (sort (entries file.peers runtime.peers)) file.peers in
      rw (e, shape)
        (runs_behind-removed key new file.peers (has_key key runtime.peers)
            (removed-AllRemovals (sort (entries file.peers runtime.peers)))
          ∙ runs_behind-added key file.peers (has_key key runtime.peers && not (has_key key new))
              keep
          ∙ difference_left (has_key key file.peers) (has_key key runtime.peers) (has_key key new)
              (removals_only key file.peers runtime.peers kf kr d))
  | inr e ↦
      let keeps = not file.flags.replace_peers in
      rw (sync_with-alone runtime file e) (
        runs_behind-added key file.peers (keeps && has_key key runtime.peers) keep
        ∙ ap (λ (b : Bool). has_key key file.peers || (keeps && b)) (no_running key runtime.peers e)
        ∙ nothing_else (has_key key file.peers) keeps)
]

-- For a file that replaces the peers, where all keys have 32 bytes, no two running peers have the same
-- one and no peer of the file is marked as one to remove, `sync_conf` gives a request, and the peers
-- that run behind it are those of the file: a key is among them when it is the key of a peer of the
-- file, and only then. This holds for a file without peers and for a device without peers as well.
pub runs_after-sync_conf :
    (sys : System) (ipc_get_device : Bytes → Option WgDevice) (runtime file : WgDevice)
    (key : Bytes)
    → ipc_get_device file.name ≡ some runtime
    → file.flags.replace_peers ≡ true
    → HasKeys runtime.peers
    → AreDistinct runtime.peers
    → HasKeys file.peers
    → NoRemovals file.peers
    → (device : WgDevice) × (sync_conf sys ipc_get_device file ≡ ok device)
      × (runs_after key device runtime ≡ has_key key file.peers)
unfolding sync_conf
runs_after-sync_conf sys ipc_get_device runtime file key found whole kr d kf keep =
    elim (Bool-cases (has_peers file.peers)) [
      | inl e ↦
          rw (e, found)
            (sync_with runtime file, refl, runs_after-sync_with runtime file key kr d kf keep)
      | inr e ↦ rw e (
        file,
        refl,
        rw whole (runs_behind-added key file.peers false keep ∙ or_false (has_key key file.peers)),
      )
    ]
