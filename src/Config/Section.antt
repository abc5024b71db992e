-- ===== src/Config/Section.antt =====
-- config.c: `get_value`, the sections and keys of a file, and `process_line`.
-- The chain of `key_match` tests is a list of keys with their readers, tried in order.
pub mod Valid
pub mod Keep
pub mod Device
pub mod Peer
pub mod Context
use special_potato.Prelude.{
  ℕ, Bool, true, false, not, List, [], ◌∷◌, ◌++◌, Bytes, Option, none, some, codes, leb,
  if◌then◌else◌, length, drop,
}
use special_potato.Libc.{case_eq, case_eq_n}
use special_potato.Containers.{WgPeer, WgDevice, new_peer}
use special_potato.Outcome.{Outcome, ok, error, fault, ◌>>=◌, System}
use special_potato.Config.Number.{
  parse_fwmark, parse_persistent_keepalive, parse_uint16, parse_bool, parse_awg_string,
}
use special_potato.Config.KeyValue.{parse_key}
use special_potato.Config.Address.{parse_port, parse_endpoint}
use special_potato.Config.Allowed.{parse_allowedips}
use special_potato.Config.Setter

-- `last_peer` and `last_allowedip` are whether these pointers are not NULL; they then point to the
-- last peer, and to the last allowed address of the last peer.
pub record ConfigCtx : Type 0 where
  pub device : WgDevice
  pub last_peer : Bool
  pub last_allowedip : Bool
  pub is_peer_section : Bool
  pub is_device_section : Bool

unfoldable pub get_value : Bytes → Bytes → Option Bytes
get_value line key =
    if leb (length line) (length key)
    then none
    else if not (case_eq_n (length key) line key)
    then none
    else some (drop (length key) line)

-- A reader of one key: it takes the value and the structure that it writes.
abbrev pub Reader : Type 0 → Type 0
Reader A = Bytes → A → Outcome A

unfoldable pub try_keys : {A : Type 0} → List (Bytes × Reader A) → Reader A
try_keys [] line a = error
try_keys ((key, read) ∷ keys) line a = elim (get_value line key) [
  | some value ↦ read value a
  | none ↦ try_keys keys line a
]

-- The peer under construction, and whether `last_allowedip` is not NULL.
abbrev pub PeerCtx : Type 0
PeerCtx = WgPeer × Bool

abbrev pub on_peer : (WgPeer → Outcome WgPeer) → PeerCtx → Outcome PeerCtx
on_peer f (p, last) = do p' ← f p; ok (p', last)

-- A key that is kept, with its flag, if it can be read.
abbrev pub keep_key : {A : Type 0} → (Bytes → A → A) → Bool × Bytes → A → Outcome A
keep_key store (true, key) a = ok (store key a)
keep_key store (false, key) a = error

module _ (sys : System) where
  abbrev pub number : (ℕ → WgDevice → WgDevice) → Reader WgDevice
  number store value d = do n ← parse_uint16 sys value; ok (store n d)

  abbrev pub text : (Option Bytes → WgDevice → WgDevice) → Reader WgDevice
  text store value d = do t ← parse_awg_string value; ok (store t d)

  unfoldable pub device_keys : List (Bytes × Reader WgDevice)
  device_keys =
      (codes "ListenPort=", parse_port sys)
      ∷ (codes "FwMark=", parse_fwmark sys)
      ∷ (
        codes "PrivateKey=",
        λ value d. keep_key Setter.private_key (parse_key sys d.private_key value) d,
      )
      ∷ (codes "Jc=", number Setter.jc)
      ∷ (codes "Jmin=", number Setter.jmin)
      ∷ (codes "Jmax=", number Setter.jmax)
      ∷ (codes "S1=", number Setter.s1)
      ∷ (codes "S2=", number Setter.s2)
      ∷ (codes "S3=", number Setter.s3)
      ∷ (codes "S4=", number Setter.s4)
      ∷ (codes "H1=", text Setter.h1)
      ∷ (codes "H2=", text Setter.h2)
      ∷ (codes "H3=", text Setter.h3)
      ∷ (codes "H4=", text Setter.h4)
      ∷ (codes "I1=", text Setter.i1)
      ∷ (codes "I2=", text Setter.i2)
      ∷ (codes "I3=", text Setter.i3)
      ∷ (codes "I4=", text Setter.i4)
      ∷ (codes "I5=", text Setter.i5)
      ∷ []

  abbrev pub read_endpoint : Reader WgPeer
  read_endpoint value p = do a ← parse_endpoint sys value; ok (record p { endpoint = a })

  abbrev pub read_awg : Reader WgPeer
  read_awg value p = do b ← parse_bool sys value; ok (Setter.awg b p)

  unfoldable pub peer_keys : List (Bytes × Reader PeerCtx)
  peer_keys =
      (codes "Endpoint=", λ value. on_peer (read_endpoint value))
      ∷ (
        codes "PublicKey=",
        λ value. on_peer (λ p. keep_key Setter.public_key (parse_key sys p.public_key value) p),
      )
      ∷ (codes "AllowedIPs=", λ value s. parse_allowedips sys value s.1 s.0)
      ∷ (codes "PersistentKeepalive=", λ value. on_peer (parse_persistent_keepalive sys value))
      ∷ (
        codes "PresharedKey=",
        λ value.
            on_peer (λ p. keep_key Setter.preshared_key (parse_key sys p.preshared_key value) p),
      )
      ∷ (codes "AdvancedSecurity=", λ value. on_peer (read_awg value))
      ∷ []

  -- The new peer becomes the only one if `last_peer` is NULL.
  abbrev pub append_peer : Bool → WgPeer → List WgPeer → List WgPeer
  append_peer true p peers = peers ++ p ∷ []
  append_peer false p peers = p ∷ []

  -- Writes through `last_peer`.
  unfoldable pub update_last :
      (PeerCtx → Outcome PeerCtx) → Bool → List WgPeer → Outcome (List WgPeer × Bool)
  update_last f last [] = fault
  update_last f last (p ∷ []) = do (p', last') ← f (p, last); ok (p' ∷ [], last')
  update_last f last (p ∷ q ∷ peers) = do
    (peers', last') ← update_last f last (q ∷ peers)
    ok (p ∷ peers', last')

  unfoldable pub begin_interface : ConfigCtx → ConfigCtx
  begin_interface ctx = record ctx { is_peer_section = false; is_device_section = true }

  unfoldable pub begin_peer : ConfigCtx → ConfigCtx
  begin_peer ctx =
      let p = record new_peer { flags = record (new_peer.flags) { replace_allowedips = true } } in
      record {
        device = record (ctx.device) { peers = append_peer ctx.last_peer p ctx.device.peers };
        last_peer = true;
        last_allowedip = false;
        is_peer_section = true;
        is_device_section = false;
      }

  unfoldable pub device_line : Bytes → ConfigCtx → Outcome ConfigCtx
  device_line line ctx = do d ← try_keys device_keys line ctx.device; ok (record ctx { device = d })

  unfoldable pub peer_line : Bytes → ConfigCtx → Outcome ConfigCtx
  peer_line line ctx = if not ctx.last_peer then fault else (do
    (peers, last) ← update_last (try_keys peer_keys line) ctx.last_allowedip ctx.device.peers
    ok (record ctx { device = record (ctx.device) { peers = peers }; last_allowedip = last }))

  unfoldable pub process_line : Bytes → ConfigCtx → Outcome ConfigCtx
  process_line line ctx =
      if case_eq line (codes "[Interface]")
      then ok (begin_interface ctx)
      else if case_eq line (codes "[Peer]")
      then ok (begin_peer ctx)
      else if ctx.is_device_section
      then device_line line ctx
      else if ctx.is_peer_section
      then peer_line line ctx
      else error
