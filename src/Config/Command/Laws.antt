-- ===== src/Config/Command/Laws.antt =====
-- The loop of `config_read_cmd` ends.
use special_potato.Prelude.{ℕ, suc, false, List, [], ◌∷◌, Bytes, ◌≡◌}
use special_potato.Containers.{WgDevice, new_device}
use special_potato.Outcome.{Outcome, ok, error, exit, fault, pending, System}
use special_potato.Config.Command.{CommandCtx, command_step}

-- An outcome that is none of a normal return, and the same one of another type.
abbrev pub Fails : Outcome (List Bytes × CommandCtx) → Outcome WgDevice → Type 0
Fails (ok x) r = ⊥
Fails error r = r ≡ error
Fails exit r = r ≡ exit
Fails fault r = r ≡ fault
Fails pending r = r ≡ pending

abbrev pub begin : CommandCtx
begin = record { device = new_device; peer = false; allowedip = false }

module _ (sys : System) where
  -- The loop ends with this outcome after this number of rounds: it stops where no argument is left,
  -- or in the round that fails, and goes on with what a round returns.
  pub data Ends : ℕ → List Bytes → CommandCtx → Outcome WgDevice → Type 0 where
    finished : (ctx : CommandCtx) → Ends 0 [] ctx (ok ctx.device)
    failed :
        (word : Bytes) (argv : List Bytes) (ctx : CommandCtx) (r : Outcome WgDevice)
        → Fails (command_step sys (word ∷ argv) ctx) r
        → Ends 1 (word ∷ argv) ctx r
    round :
        (n : ℕ) (word : Bytes) (argv : List Bytes) (ctx : CommandCtx) (argv' : List Bytes)
        (ctx' : CommandCtx) (r : Outcome WgDevice)
        → command_step sys (word ∷ argv) ctx ≡ ok (argv', ctx')
        → Ends n argv' ctx' r
        → Ends (suc n) (word ∷ argv) ctx r
