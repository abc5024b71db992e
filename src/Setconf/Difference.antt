-- ===== src/Setconf/Difference.antt =====
-- `sync_conf` removes exactly the running peers that the file does not have.
use special_potato.Prelude.{
  Bool, true, false, List, [], ◌∷◌, ◌++◌, ◌≢◌, ◌↔◌, refl, sym, arith, Bytes, All, inl, inr,
}
use special_potato.Encoding.{IsKey}
use special_potato.Containers.{WgPeer}
use special_potato.Setconf.{PubkeyOrigin, origins, sort}
use special_potato.Setconf.Laws.{HasKey, sort-All}
use special_potato.Setconf.Order.{code, key_number-injective}
use special_potato.Setconf.Sorted.{Keyed, AllFresh, sort-IsSorted, HasOrigin, sort-HasOrigin}
use special_potato.Setconf.Removed.{removed, removed_iff}

-- What is asked of the keys: 32 bytes each, and one running peer for each.
abbrev pub HasKeys : List WgPeer → Type 0
HasKeys peers = All (λ p. IsKey p.public_key) peers

abbrev pub AreDistinct : List WgPeer → Type 0
AreDistinct [] = Unit
AreDistinct (p ∷ peers) = All (λ q. q.public_key ≢ p.public_key) peers × AreDistinct peers

origins-HasOrigin :
    (key : Bytes) (flag : Bool) (peers : List WgPeer)
    → HasOrigin key flag (origins flag peers) ↔ HasKey key peers
unfolding origins
origins-HasOrigin key flag [] = (λ h. h, λ h. h)
origins-HasOrigin key flag (p ∷ peers) =
    let rest = origins-HasOrigin key flag peers in
    (
      λ h. elim h [ inl e ↦ inl (sym e.0) | inr h' ↦ inr (rest.0 h') ],
      λ h. elim h [ inl e ↦ inl (sym e, refl) | inr h' ↦ inr (rest.1 h') ],
    )

-- The array before it is sorted.
abbrev pub entries : List WgPeer → List WgPeer → List PubkeyOrigin
entries file runtime = origins true file ++ origins false runtime

entries-running :
    (key : Bytes) (file runtime : List WgPeer)
    → HasOrigin key false (entries file runtime) ↔ HasKey key runtime
unfolding origins
entries-running key [] runtime = origins-HasOrigin key false runtime
entries-running key (p ∷ file) runtime =
    let rest = entries-running key file runtime in
    (λ h. elim h [ inl e ↦ (let clash = e.1 in cc) | inr h' ↦ rest.0 h' ], λ h. inr (rest.1 h))

no_true : (key : Bytes) (runtime : List WgPeer) → HasOrigin key true (origins false runtime) → ⊥
unfolding origins
no_true key [] h = h
no_true key (p ∷ runtime) h = elim h [
  | inl e ↦ (let clash = e.1 in cc)
  | inr h' ↦ no_true key runtime h'
]

entries-file :
    (key : Bytes) (file runtime : List WgPeer)
    → HasOrigin key true (entries file runtime) ↔ HasKey key file
unfolding origins
entries-file key [] runtime = (λ h. no_true key runtime h, λ h. elim h [ ])
entries-file key (p ∷ file) runtime =
    let rest = entries-file key file runtime in
    (
      λ h. elim h [ inl e ↦ inl (sym e.0) | inr h' ↦ inr (rest.0 h') ],
      λ h. elim h [ inl e ↦ inl (sym e, refl) | inr h' ↦ inr (rest.1 h') ],
    )

entries-Keyed :
    (file runtime : List WgPeer) → HasKeys file → HasKeys runtime → All Keyed (entries file runtime)
unfolding origins
entries-Keyed (p ∷ file) runtime kf kr = (kf.0, entries-Keyed file runtime kf.1 kr)
entries-Keyed [] [] kf kr = tt
entries-Keyed [] (p ∷ runtime) kf kr = (kr.0, entries-Keyed [] runtime kf kr.1)

code-ne :
    (p : WgPeer) (runtime : List WgPeer)
    → IsKey p.public_key
    → HasKeys runtime
    → All (λ q. q.public_key ≢ p.public_key) runtime
    → All
        (λ b. code b ≢ code (record { pubkey = p.public_key; from_file = false }))
        (origins false runtime)
unfolding origins
code-ne p [] kp kr ne = tt
code-ne p (q ∷ runtime) kp kr ne = (
  λ e. ne.0 (
      key_number-injective q.public_key p.public_key kr.0.1 kp.1 (omega (arith, kr.0.0, kp.0))
        (omega (arith, e))),
  code-ne p runtime kp kr.1 ne.1,
)

entries-AllFresh :
    (file runtime : List WgPeer)
    → HasKeys runtime
    → AreDistinct runtime
    → AllFresh (entries file runtime)
unfolding origins
entries-AllFresh (p ∷ file) runtime kr d = (λ e. cc, entries-AllFresh file runtime kr d)
entries-AllFresh [] [] kr d = tt
entries-AllFresh [] (p ∷ runtime) kr d =
    (λ e. code-ne p runtime kr.0 kr.1 d.0, entries-AllFresh [] runtime kr.1 d.1)

pub sorted_difference :
    (key : Bytes) (file runtime : List WgPeer)
    → HasKeys file
    → HasKeys runtime
    → AreDistinct runtime
    → HasKey key (removed (sort (entries file runtime)))
      ↔ (HasKey key runtime × (HasKey key file → ⊥))
sorted_difference key file runtime kf kr d =
    let all = entries file runtime in
    let keyed = entries-Keyed file runtime kf kr in
    let gone =
      removed_iff key (sort all) (sort-All Keyed all keyed)
        (sort-IsSorted all keyed (entries-AllFresh file runtime kr d)) in
    let running = sort-HasOrigin key false all in
    let in_file = sort-HasOrigin key true all in
    let running' = entries-running key file runtime in
    let in_file' = entries-file key file runtime in
    (
      λ h. (let g = gone.0 h in (running'.0 (running.0 g.0), λ f. g.1 (in_file.1 (in_file'.1 f)))),
      λ h. gone.1 (running.1 (running'.1 h.0), λ f. h.1 (in_file'.0 (in_file.0 f))),
    )
