-- ===== src/Kernel/Fetch/Coalesce.antt =====
-- `coalesce_peers` joins what the kernel had to cut.
use special_potato.Prelude.{
  Bool, true, false, not, ◌&&◌, List, [], ◌∷◌, ◌++◌, map, ◌≡◌, ◌≢◌, refl, ap, ◌∙◌, All, inl, inr,
  Bool-cases,
}
use mathlib.Core.List.{append-nil, append_assoc}
use special_potato.Outcome.{Outcome, ok, ◌>>=◌}
use special_potato.Libc.{str_eq}
use special_potato.Containers.{WgAllowedip, WgPeer}
use special_potato.Setconf.Order.{str_eq_iff}
use special_potato.Kernel.Fetch.{has_ips, coalesce, coalesce_peers}

-- A peer in several parts: the first one, and the others.
pub record Parts : Type 0 where
  pub first : WgPeer
  pub others : List WgPeer

abbrev pub more_ips : List WgPeer → List WgAllowedip
more_ips [] = []
more_ips (q ∷ others) = q.allowedips ++ more_ips others

-- The peer as a whole.
abbrev pub whole : Parts → WgPeer
whole c = record (c.first) { allowedips = c.first.allowedips ++ more_ips c.others }

-- The other parts have the key of the first one and at least one address.
abbrev pub IsCut : Parts → Type 0
IsCut c = All (λ q. (c.first.public_key ≡ q.public_key) × (has_ips q.allowedips ≡ true)) c.others

-- Two peers that are neighbours have different keys.
abbrev pub AreApart : List Parts → Type 0
AreApart [] = Unit
AreApart (c ∷ []) = Unit
AreApart (c ∷ b ∷ cuts) = (c.first.public_key ≢ b.first.public_key) × AreApart (b ∷ cuts)

abbrev pub all_parts : List Parts → List WgPeer
all_parts [] = []
all_parts (c ∷ cuts) = c.first ∷ (c.others ++ all_parts cuts)

str_eq_no : (s t : List _) → s ≢ t → str_eq s t ≡ false
str_eq_no s t ne = elim (Bool-cases (str_eq s t)) [
  | inl e ↦ absurd (ne ((str_eq_iff s t).0 e))
  | inr e ↦ e
]

coalesce-next :
    (p q : WgPeer) (last : Bool) (others : List WgPeer)
    → p.public_key ≢ q.public_key
    → coalesce p last (q ∷ others)
      ≡ (coalesce q (has_ips q.allowedips) others >>= λ rest. ok (p ∷ rest))
unfolding coalesce
coalesce-next p q last others ne = rw (str_eq_no p.public_key q.public_key ne, coalesce) refl

coalesce-join :
    (p q : WgPeer) (last : Bool) (others : List WgPeer)
    → p.public_key ≡ q.public_key
    → (has_ips p.allowedips && not last) ≡ false
    → coalesce p last (q ∷ others)
      ≡ coalesce
          (record p { allowedips = p.allowedips ++ q.allowedips })
          (has_ips q.allowedips)
          others
unfolding coalesce
coalesce-join p q last others e safe =
    rw ((str_eq_iff p.public_key q.public_key).1 e, coalesce, safe) refl

not_unsafe : (b : Bool) → (b && not true) ≡ false
not_unsafe true = refl
not_unsafe false = refl

own_last : (ips : List WgAllowedip) → (has_ips ips && not (has_ips ips)) ≡ false
own_last [] = refl
own_last (a ∷ ips) = refl

-- The other parts go into the first one, whatever is behind them.
coalesce-others :
    (p : WgPeer) (last : Bool) (others rest : List WgPeer)
    → All (λ q. (p.public_key ≡ q.public_key) × (has_ips q.allowedips ≡ true)) others
    → (has_ips p.allowedips && not last) ≡ false
    → (last' : Bool) × (coalesce p last (others ++ rest)
        ≡ coalesce (record p { allowedips = p.allowedips ++ more_ips others }) last' rest)
coalesce-others p last [] rest h safe = (last, rw (append-nil p.allowedips) refl)
coalesce-others p last (q ∷ others) rest h safe =
    let joined = record p { allowedips = p.allowedips ++ q.allowedips } in
    let next =
      coalesce-others joined (has_ips q.allowedips) others rest h.1
        (rw (h.0.1) (not_unsafe (has_ips (p.allowedips ++ q.allowedips)))) in
    (
      next.0,
      coalesce-join p q last (others ++ rest) h.0.0 safe
          ∙ next.1
          ∙ ap (λ (ips : List WgAllowedip). coalesce (record p { allowedips = ips }) next.0 rest)
              (append_assoc p.allowedips q.allowedips (more_ips others)),
    )

coalesce-cuts :
    (c : Parts) (cuts : List Parts)
    → All IsCut (c ∷ cuts)
    → AreApart (c ∷ cuts)
    → coalesce c.first (has_ips c.first.allowedips) (c.others ++ all_parts cuts)
      ≡ ok (whole c ∷ map whole cuts)
unfolding coalesce
coalesce-cuts c [] h apart =
    (coalesce-others c.first (has_ips c.first.allowedips) c.others [] h.0
      (own_last c.first.allowedips)).1
coalesce-cuts c (b ∷ cuts) h apart =
    let (last, all) =
      coalesce-others c.first (has_ips c.first.allowedips) c.others (all_parts (b ∷ cuts)) h.0
        (own_last c.first.allowedips) in
    all
    ∙ coalesce-next (whole c) b.first last (b.others ++ all_parts cuts) apart.0
    ∙ ap (λ (m : Outcome (List WgPeer)). m >>= λ rest. ok (whole c ∷ rest))
        (coalesce-cuts b cuts h.1 apart.1)

-- Where a list of peers comes in parts, each part behind a first one with the key of that one and some
-- allowed address, and no two peers that are neighbours have the same key, `coalesce_peers` does not
-- write through a null pointer and gives the peers as they were: each one is its first part with the
-- addresses of all its parts, in their order.
pub coalesce_peers-whole :
    (cuts : List Parts)
    → All IsCut cuts
    → AreApart cuts
    → coalesce_peers (all_parts cuts) ≡ ok (map whole cuts)
unfolding coalesce_peers
coalesce_peers-whole [] h apart = refl
coalesce_peers-whole (c ∷ cuts) h apart = coalesce-cuts c cuts h apart
