-- ===== src/Config/Line/Finish.antt =====
-- When `config_read_finish` accepts a configuration.
use special_potato.Prelude.{true, List, [], ◌∷◌, ◌≡◌, ◌↔◌, refl, All, arith, Bool-cases, inl, inr}
use special_potato.Containers.{WgPeer, WgDevice}
use special_potato.Outcome.{ok}
use special_potato.Config.Section.{ConfigCtx}
use special_potato.Config.Line.{all_have_public_key, config_read_finish}

abbrev pub IsNamed : WgPeer → Type 0
IsNamed p = p.flags.has_public_key ≡ true

all_have_public_key_iff :
    (peers : List WgPeer) → (all_have_public_key peers ≡ true) ↔ All IsNamed peers
unfolding all_have_public_key
all_have_public_key_iff [] = (λ h. tt, λ h. refl)
all_have_public_key_iff (p ∷ peers) =
    let ih = all_have_public_key_iff peers in
    (
      λ h. (ground (arith, h), ih.0 (ground (arith, h))),
      λ h. (let rest = ih.1 h.1 in let first = h.0 in ground (arith, rest, first)),
    )

-- A configuration is accepted at its end exactly when every one of its peers was given a public key,
-- and then the device is the one that was read.
pub config_read_finish_iff :
    (ctx : ConfigCtx) (d : WgDevice)
    → (config_read_finish ctx ≡ ok d) ↔ ((ctx.device ≡ d) × All IsNamed ctx.device.peers)
unfolding config_read_finish
config_read_finish_iff ctx d =
    let named = all_have_public_key_iff ctx.device.peers in
    elim (Bool-cases (all_have_public_key ctx.device.peers)) [
      | inl e ↦ rw e (λ h. (cc, named.0 e), λ h. cc (h.0))
      | inr e ↦ rw e (λ h. cc, λ h. absurd (ground (arith, e, named.1 h.1)))
    ]
