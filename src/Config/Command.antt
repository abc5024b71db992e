-- ===== src/Config/Command.antt =====
-- config.c: `config_read_cmd`. Its chain of `strcmp` tests is two tables of words with their readers,
-- tried under the guards that the tests of each table share, and the words `peer` and `remove`.
pub mod Laws
pub mod Safe
pub mod Run
use special_potato.Prelude.{
  ℕ, zero, suc, Bool, true, false, not, ◌&&◌, List, [], ◌∷◌, ◌++◌, Bytes, Option, none, some, codes,
  if◌then◌else◌, length,
}
use special_potato.Libc.{str_eq}
use special_potato.Containers.{WgPeer, WgDevice, new_peer, new_device}
use special_potato.Outcome.{Outcome, ok, error, fault, pending, ◌>>=◌, System}
use special_potato.Config.Number.{parse_fwmark, parse_persistent_keepalive}
use special_potato.Config.KeyValue.{parse_key, parse_keyfile}
use special_potato.Config.Address.{parse_port}
use special_potato.Config.Allowed.{parse_allowedips}
use special_potato.Config.Section.{
  Reader, PeerCtx, on_peer, keep_key, number, text, read_endpoint, read_awg, append_peer,
  update_last,
}
use special_potato.Config.Line.{strip_spaces}
use special_potato.Config.Setter

-- `peer` and `allowedip` are whether these pointers are not NULL.
pub record CommandCtx : Type 0 where
  pub device : WgDevice
  pub peer : Bool
  pub allowedip : Bool

-- The reader of the first entry that the word equals.
unfoldable pub find_word : {A : Type 0} → List (Bytes × Reader A) → Bytes → Option (Reader A)
find_word [] word = none
find_word ((name, read) ∷ words) word = if str_eq word name then some read else find_word words word

-- Marks the last peer for removal.
unfoldable pub remove_last : List WgPeer → Outcome (List WgPeer)
remove_last [] = fault
remove_last (p ∷ []) = ok ((record p { flags = record (p.flags) { remove_me = true } }) ∷ [])
remove_last (p ∷ q ∷ peers) = do peers' ← remove_last (q ∷ peers); ok (p ∷ peers')

module _ (sys : System) where
  unfoldable pub device_words : List (Bytes × Reader WgDevice)
  device_words =
      (codes "listen-port", parse_port sys)
      ∷ (codes "fwmark", parse_fwmark sys)
      ∷ (
        codes "private-key",
        λ value d. (do key ← parse_keyfile sys d.private_key value; ok (Setter.private_key key d)),
      )
      ∷ (codes "jc", number sys Setter.jc)
      ∷ (codes "jmin", number sys Setter.jmin)
      ∷ (codes "jmax", number sys Setter.jmax)
      ∷ (codes "s1", number sys Setter.s1)
      ∷ (codes "s2", number sys Setter.s2)
      ∷ (codes "s3", number sys Setter.s3)
      ∷ (codes "s4", number sys Setter.s4)
      ∷ (codes "h1", text sys Setter.h1)
      ∷ (codes "h2", text sys Setter.h2)
      ∷ (codes "h3", text sys Setter.h3)
      ∷ (codes "h4", text sys Setter.h4)
      ∷ (codes "i1", text sys Setter.i1)
      ∷ (codes "i2", text sys Setter.i2)
      ∷ (codes "i3", text sys Setter.i3)
      ∷ (codes "i4", text sys Setter.i4)
      ∷ (codes "i5", text sys Setter.i5)
      ∷ []

  unfoldable pub peer_words : List (Bytes × Reader PeerCtx)
  peer_words =
      (codes "endpoint", λ value. on_peer (read_endpoint sys value))
      ∷ (codes "allowed-ips", λ value s. parse_allowedips sys (strip_spaces sys value) s.1 s.0)
      ∷ (codes "persistent-keepalive", λ value. on_peer (parse_persistent_keepalive sys value))
      ∷ (
        codes "preshared-key",
        λ value. on_peer (λ p. do
          key ← parse_keyfile sys p.preshared_key value
          ok (Setter.preshared_key key p)),
      )
      ∷ (codes "advanced-security", λ value. on_peer (read_awg sys value))
      ∷ []

  -- The words that take a value, behind the tests for it.
  unfoldable pub peer_command : Bytes → CommandCtx → Outcome CommandCtx
  peer_command value ctx = do
    p ← keep_key Setter.public_key (parse_key sys (new_peer.public_key) value) new_peer
    ok (record {
      device = record (ctx.device) { peers = append_peer sys ctx.peer p ctx.device.peers };
      peer = true;
      allowedip = false;
    })

  unfoldable pub device_command : Bytes → Bytes → CommandCtx → Outcome CommandCtx
  device_command word value ctx = elim (find_word device_words word) [
    | none ↦ error
    | some read ↦ do d ← read value ctx.device; ok (record ctx { device = d })
  ]

  unfoldable pub last_command : Bytes → Bytes → CommandCtx → Outcome CommandCtx
  last_command word value ctx = elim (find_word peer_words word) [
    | none ↦ error
    | some read ↦ do
      (peers, last) ← update_last sys (read value) ctx.allowedip ctx.device.peers
      ok (record {
        device = record (ctx.device) { peers = peers };
        peer = ctx.peer;
        allowedip = last;
      })
  ]

  abbrev remove_command : List Bytes → CommandCtx → Outcome (List Bytes × CommandCtx)
  remove_command argv ctx = do
    peers ← remove_last ctx.device.peers
    ok (argv, record ctx { device = record (ctx.device) { peers = peers } })

  -- One round of the loop: the arguments that are left, and the new state.
  unfoldable pub command_step : List Bytes → CommandCtx → Outcome (List Bytes × CommandCtx)
  command_step [] ctx = ok ([], ctx)
  command_step (word ∷ []) ctx =
      if str_eq word (codes "remove") && ctx.peer then remove_command [] ctx else error
  command_step (word ∷ value ∷ argv) ctx =
      if str_eq word (codes "peer")
      then (do ctx' ← peer_command value ctx; ok (argv, ctx'))
      else if not ctx.peer
      then (do ctx' ← device_command word value ctx; ok (argv, ctx'))
      else if str_eq word (codes "remove")
      then remove_command (value ∷ argv) ctx
      else (do ctx' ← last_command word value ctx; ok (argv, ctx'))

  unfoldable pub command_loop : ℕ → List Bytes → CommandCtx → Outcome WgDevice
  command_loop fuel [] ctx = ok ctx.device
  command_loop zero (word ∷ argv) ctx = pending
  command_loop (suc fuel) (word ∷ argv) ctx = do
    (argv', ctx') ← command_step (word ∷ argv) ctx
    command_loop fuel argv' ctx'

  unfoldable pub config_read_cmd : List Bytes → Outcome WgDevice
  config_read_cmd argv =
      command_loop (length argv) argv
        (record { device = new_device; peer = false; allowedip = false })
