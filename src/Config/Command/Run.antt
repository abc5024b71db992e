-- ===== src/Config/Command/Run.antt =====
-- Whatever the arguments of `config_read_cmd` are, they are read without a null read.
use special_potato.Prelude.{
  ℕ, zero, suc, Bool, true, List, [], ◌∷◌, Bytes, IsBytes, All, ◌≡◌, refl, not, ◌&&◌, codes, length,
  arith,
}
use special_potato.Libc.{str_eq}
use special_potato.Containers.{WgPeer, WgDevice, new_device}
use special_potato.Outcome.{Outcome, ok, error, ◌>>=◌, System, Ensures, Ensures->>=, Ensures-if}
use special_potato.Config.Section.Keep.{LastIs, LastIs-cons}
use special_potato.Config.Section.Valid.{IsPeer, IsDevice, IsSystem}
use special_potato.Config.Section.Peer.{IsPeerCtx}
use special_potato.Config.Section.Context.{
  Peers, Peers-All, Finished, with_peers, new_device-IsDevice,
}
use special_potato.Config.Command.{
  CommandCtx, remove_last, command_step, command_loop, config_read_cmd,
}
use special_potato.Config.Command.Safe.{
  Named, ReadsBytes, IsCommand, peer_command-Ensures, device_command-Ensures, last_command-Ensures,
}

remove_last-Ensures :
    (last : Bool) (peers : List WgPeer)
    → LastIs (IsPeerCtx Named) (Finished Named) last peers
    → Ensures (LastIs (IsPeerCtx Named) (Finished Named) last) (remove_last peers)
unfolding remove_last
remove_last-Ensures last [] h = elim h [ ]
remove_last-Ensures last (p ∷ []) h =
    let v = h.peer in
    record {
      peer = record {
        public_key = v.public_key;
        preshared_key = v.preshared_key;
        keepalive = v.keepalive;
        allowed = v.allowed;
      };
      tail = h.tail;
      named = h.named;
    }
remove_last-Ensures last (p ∷ q ∷ peers) h =
    let Q = LastIs (IsPeerCtx Named) (Finished Named) last in
    Ensures->>= Q Q (remove_last (q ∷ peers)) _ (remove_last-Ensures last (q ∷ peers) h.1)
      (λ ps u. LastIs-cons (IsPeerCtx Named) (Finished Named) p last ps h.0 u)

module _ (sys : System) (good : IsSystem sys) (files : ReadsBytes sys) where
  abbrev Stepped : List Bytes × CommandCtx → Type 0
  Stepped r = All IsBytes r.0 × IsCommand sys good files r.1

  remove-Ensures :
      (argv : List Bytes) (ctx : CommandCtx)
      → All IsBytes argv
      → IsCommand sys good files ctx
      → ctx.peer ≡ true
      → Ensures Stepped (
          remove_last ctx.device.peers
          >>= (λ peers. ok (argv, record ctx { device = record (ctx.device) { peers = peers } })))
  remove-Ensures argv ctx b h e =
      let live : Peers Named true ctx.allowedip ctx.device.peers = rw e at (h.device.peers) in
      let there : (ps : List WgPeer)
          → Peers Named true ctx.allowedip ps
          → Peers Named ctx.peer ctx.allowedip ps =
        λ ps v. rw e v in
      Ensures->>= (Peers Named true ctx.allowedip) Stepped _ _
        (remove_last-Ensures ctx.allowedip ctx.device.peers live)
        (λ ps v. (
          b,
          record {
            device =
                with_peers _ (Peers Named ctx.peer ctx.allowedip) ctx.device ps h.device
                  (there ps v);
          },
        ))

  command_step-Ensures :
      (argv : List Bytes) (ctx : CommandCtx)
      → All IsBytes argv
      → IsCommand sys good files ctx
      → Ensures Stepped (command_step sys argv ctx)
  unfolding command_step
  command_step-Ensures [] ctx b h = (tt, h)
  command_step-Ensures (word ∷ []) ctx b h =
      Ensures-if Stepped (str_eq word (codes "remove") && ctx.peer) _ error
        (λ e. remove-Ensures [] ctx tt h (ground (arith, e))) (λ e. tt)
  command_step-Ensures (word ∷ value ∷ argv) ctx b h =
      let go : (m : Outcome CommandCtx)
          → Ensures (IsCommand sys good files) m
          → Ensures Stepped (m >>= (λ ctx'. ok (argv, ctx'))) =
        λ m v. Ensures->>= (IsCommand sys good files) Stepped m _ v (λ ctx' u. (b.1.1, u)) in
      Ensures-if Stepped (str_eq word (codes "peer")) _ _
        (λ e. go _ (peer_command-Ensures sys good files value ctx b.1.0 h))
        (λ e.
          Ensures-if Stepped (not ctx.peer) _ _
            (λ e. go _ (device_command-Ensures sys good files word value ctx b.1.0 h))
            (λ alone.
              let has : ctx.peer ≡ true = ground (arith, alone) in
              Ensures-if Stepped (str_eq word (codes "remove")) _ _
                (λ e. remove-Ensures (value ∷ argv) ctx b.1 h has)
                (λ e. go _ (last_command-Ensures sys good files word value ctx b.1.0 h has))))

  -- What a device from the command line satisfies.
  abbrev pub IsCommanded : WgDevice → Type 0
  IsCommanded d = IsDevice (All (λ p. IsPeer p × Named p.flags.has_public_key)) d

  command_loop-Ensures :
      (n : ℕ) (argv : List Bytes) (ctx : CommandCtx)
      → All IsBytes argv
      → IsCommand sys good files ctx
      → Ensures IsCommanded (command_loop sys n argv ctx)
  unfolding command_loop
  command_loop-Ensures n [] ctx b h =
      with_peers _ (All (λ p. IsPeer p × Named p.flags.has_public_key)) ctx.device ctx.device.peers
        h.device (Peers-All Named ctx.peer ctx.allowedip ctx.device.peers h.device.peers)
  command_loop-Ensures zero (word ∷ argv) ctx b h = tt
  command_loop-Ensures (suc n) (word ∷ argv) ctx b h =
      Ensures->>= Stepped IsCommanded (command_step sys (word ∷ argv) ctx) _
        (command_step-Ensures (word ∷ argv) ctx b h) (λ r u. command_loop-Ensures n r.0 r.1 u.0 u.1)

  -- Whatever the arguments of `set` are, reading them never goes through a null pointer, and a device
  -- that is returned is within its ranges and has only peers whose public key is set. Of the system
  -- it is assumed that ports have 16 bits, that the readers of numeric addresses give one word or
  -- four, and that files contain bytes.
  pub config_read_cmd-IsDevice :
      (argv : List Bytes) → All IsBytes argv → Ensures IsCommanded (config_read_cmd sys argv)
  unfolding config_read_cmd
  config_read_cmd-IsDevice argv b =
      command_loop-Ensures (length argv) argv _ b
        (record { device = new_device-IsDevice (new_device.flags) (λ ps. ps ≡ []) refl })
