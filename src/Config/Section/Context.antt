-- ===== src/Config/Section/Context.antt =====
-- The pointers that the reader of lines keeps into the list of peers, and `process_line`.
use special_potato.Prelude.{
  ℕ, zero, suc, replicate, ◌≤◌, ◌<◌, ◌^◌, none, Bool, true, false, List, [], ◌∷◌, ◌++◌, Bytes,
  IsBytes, All, ◌≡◌, refl, not, codes, arith,
}
use special_potato.Containers.{WgPeer, WgDevice, DeviceFlags, new_device, new_peer, zero_key}
use special_potato.Encoding.{IsKey, wg_key_len}
use special_potato.Config.Allowed.Laws.{IsAllowedip}
use special_potato.Outcome.{error, fault, System, Ensures, Ensures->>=, Ensures-if}
use special_potato.Libc.{case_eq}
use special_potato.Config.Section.{
  ConfigCtx, append_peer, try_keys, device_keys, peer_keys, device_line, peer_line, begin_interface,
  begin_peer, process_line,
}
use special_potato.Config.Section.Keep.{LastIs, try_keys-Ensures, update_last-Ensures}
use special_potato.Config.Section.Device.{device_keys-AllKeep}
use special_potato.Config.Section.Peer.{IsPeerCtx, peer_keys-AllKeep}
use special_potato.Config.Section.Valid.{IsPeer, IsShort, IsDevice, IsSystem}

-- A peer behind which another one was begun.
pub record Finished (R : Bool → Type 0) (p : WgPeer) : Type 0 where
  pub peer : IsPeer p
  pub named : R p.flags.has_public_key

-- `has` is whether there is a last peer, `last` whether its tail pointer is set.
abbrev pub Peers : (Bool → Type 0) → Bool → Bool → List WgPeer → Type 0
Peers R true last peers = LastIs (IsPeerCtx R) (Finished R) last peers
Peers R false last peers = peers ≡ []

pub Peers-All :
    (R : Bool → Type 0) (has last : Bool) (peers : List WgPeer)
    → Peers R has last peers
    → All (λ p. IsPeer p × R p.flags.has_public_key) peers
Peers-All R has last [] h = tt
Peers-All R true last (p ∷ []) h = ((h.peer, h.named), tt)
Peers-All R true last (p ∷ q ∷ peers) h =
    ((h.0.peer, h.0.named), Peers-All R true last (q ∷ peers) h.1)
Peers-All R false last (p ∷ peers) h = cc

snoc-LastIs :
    (R : Bool → Type 0) (last : Bool) (p : WgPeer) (peers : List WgPeer)
    → IsPeerCtx R (p, false)
    → LastIs (IsPeerCtx R) (Finished R) last peers
    → LastIs (IsPeerCtx R) (Finished R) false (peers ++ (p ∷ []))
snoc-LastIs R last p [] h k = elim k [ ]
snoc-LastIs R last p (q ∷ []) h k = (record { peer = k.peer; named = k.named }, h)
snoc-LastIs R last p (q ∷ r ∷ peers) h k = (k.0, snoc-LastIs R last p (r ∷ peers) h k.1)

pub append_peer-Peers :
    (sys : System) (R : Bool → Type 0) (has last : Bool) (p : WgPeer) (peers : List WgPeer)
    → IsPeerCtx R (p, false)
    → Peers R has last peers
    → Peers R true false (append_peer sys has p peers)
append_peer-Peers sys R true last p peers h k = snoc-LastIs R last p peers h k
append_peer-Peers sys R false last p peers h k = h

-- Behind NULL pointers nothing is read: a section of a peer has a peer.
pub record IsCtx (R : Bool → Type 0) (ctx : ConfigCtx) : Type 0 where
  pub device : IsDevice (Peers R ctx.last_peer ctx.last_allowedip) ctx.device
  pub section : ctx.is_peer_section ≡ true → ctx.last_peer ≡ true

pub with_peers :
    (C C' : List WgPeer → Type 0) (d : WgDevice) (peers : List WgPeer)
    → IsDevice C d
    → C' peers
    → IsDevice C' (record d { peers = peers })
with_peers C C' d peers h k = assumption

zeros-IsBytes : (n : ℕ) → IsBytes (replicate n 0)
zeros-IsBytes zero = tt
zeros-IsBytes (suc n) = (omega arith, zeros-IsBytes n)

pub zero_key-IsKey : IsKey zero_key
zero_key-IsKey = (refl, zeros-IsBytes wg_key_len)

pub new_device-IsDevice :
    (f : DeviceFlags) (C : List WgPeer → Type 0)
    → C []
    → IsDevice C (record new_device { flags = f })
new_device-IsDevice f C h =
    let key = zero_key-IsKey in
    let low : 0 ≤ 65535 = omega arith in
    let mark : 0 < 2 ^ 32 = omega arith in let absent : IsShort none = tt in assumption

pub new_peer-IsPeer : IsPeer new_peer
new_peer-IsPeer =
    let key = zero_key-IsKey in
    let low : 0 ≤ 65535 = omega arith in let none_allowed : All IsAllowedip [] = tt in assumption

module _ (sys : System) (good : IsSystem sys) where
  abbrev Any : Bool → Type 0
  Any b = Unit

  device_line-Ensures :
      (line : Bytes) (ctx : ConfigCtx)
      → IsBytes line
      → IsCtx Any ctx
      → Ensures (IsCtx Any) (device_line sys line ctx)
  unfolding device_line
  device_line-Ensures line ctx b h =
      Ensures->>= (IsDevice (Peers Any ctx.last_peer ctx.last_allowedip)) (IsCtx Any) _ _
        (try_keys-Ensures _ (device_keys sys) line ctx.device
          (device_keys-AllKeep sys (Peers Any ctx.last_peer ctx.last_allowedip) good) b h.device)
        (λ d u. record { device = u; section = h.section })

  peer_line-Ensures :
      (line : Bytes) (ctx : ConfigCtx)
      → IsBytes line
      → IsCtx Any ctx
      → ctx.last_peer ≡ true
      → Ensures (IsCtx Any) (peer_line sys line ctx)
  unfolding peer_line
  peer_line-Ensures line ctx b h e =
      let f = try_keys (peer_keys sys) line in
      let live : Peers Any true ctx.last_allowedip ctx.device.peers = rw e at (h.device.peers) in
      let read =
        update_last-Ensures sys (IsPeerCtx Any) (Finished Any) f ctx.last_allowedip ctx.device.peers
          (λ s v. try_keys-Ensures _ (peer_keys sys) line s (peer_keys-AllKeep sys Any tt good) b v)
          live in
      let there : (ps : List WgPeer) (l : Bool)
          → Peers Any true l ps
          → Peers Any ctx.last_peer l ps =
        λ ps l v. rw e v in
      Ensures-if (IsCtx Any) (not ctx.last_peer) fault _ (λ n. absurd (ground (arith, e, n)))
        (λ n.
          Ensures->>= (λ (r : List WgPeer × Bool). Peers Any true r.1 r.0) (IsCtx Any) _ _ read
            (λ r v. record {
              device =
                  with_peers _ (Peers Any ctx.last_peer r.1) ctx.device r.0 h.device
                    (there r.0 r.1 v);
              section = h.section;
            }))

  begun : (ctx : ConfigCtx) → IsCtx Any ctx → IsCtx Any (begin_peer sys ctx)
  unfolding begin_peer
  begun ctx h =
      let p = record new_peer { flags = record (new_peer.flags) { replace_allowedips = true } } in
      let v = new_peer-IsPeer in
      let valid : IsPeerCtx Any (p, false) = record {
        peer = record {
          public_key = v.public_key;
          preshared_key = v.preshared_key;
          keepalive = v.keepalive;
          allowed = v.allowed;
        };
        tail = λ e. refl;
        named = tt;
      } in
      record {
        device = with_peers _ (Peers Any true false) ctx.device _ h.device (
            append_peer-Peers sys Any ctx.last_peer ctx.last_allowedip p ctx.device.peers valid
              h.device.peers);
        section = λ e. refl;
      }

  pub process_line-Ensures :
      (line : Bytes) (ctx : ConfigCtx)
      → IsBytes line
      → IsCtx Any ctx
      → Ensures (IsCtx Any) (process_line sys line ctx)
  unfolding process_line begin_interface
  process_line-Ensures line ctx b h =
      Ensures-if (IsCtx Any) (case_eq line (codes "[Interface]")) _ _
        (λ e. record { device = h.device; section = λ e. cc })
        (λ e.
          Ensures-if (IsCtx Any) (case_eq line (codes "[Peer]")) _ _ (λ e. begun ctx h)
            (λ e.
              Ensures-if (IsCtx Any) (ctx.is_device_section) _ _
                (λ e. device_line-Ensures line ctx b h)
                (λ e.
                  Ensures-if (IsCtx Any) (ctx.is_peer_section) _ error
                    (λ e. peer_line-Ensures line ctx b h (h.section e)) (λ e. tt))))
