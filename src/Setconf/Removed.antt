-- ===== src/Setconf/Removed.antt =====
-- The removals that the sorted array gives.
use special_potato.Prelude.{
  ◌+◌, ◌*◌, ◌≤◌, if◌then◌else◌, Bool, true, false, ◌||◌, List, [], ◌∷◌, ◌++◌, ◌≡◌, ◌↔◌, refl, sym,
  ◌∙◌, arith, Bytes, All, Bool-cases, inl, inr, ◌⊎◌,
}
use special_potato.Containers.{WgPeer, new_peer}
use special_potato.Setconf.{PubkeyOrigin, is_kept, removal, mark_removals}
use special_potato.Setconf.Laws.{HasKey, shift}
use special_potato.Setconf.Order.{key_number, key_number-injective, str_eq_iff}
use special_potato.Setconf.Sorted.{Keyed, IsBefore, IsSorted, HasOrigin}

-- The removals of an array, the last one first.
pub removed : List PubkeyOrigin → List WgPeer
removed [] = []
removed (a ∷ xs) =
    let rest = removed xs in
    if a.from_file || is_kept a.pubkey xs then rest else rest ++ (removal a.pubkey ∷ [])

pub mark_removals-removed :
    (xs : List PubkeyOrigin) (peers : List WgPeer) → mark_removals xs peers ≡ removed xs ++ peers
unfolding mark_removals removed
mark_removals-removed [] peers = refl
mark_removals-removed (a ∷ xs) peers = elim (Bool-cases (a.from_file || is_kept a.pubkey xs)) [
  | inl e ↦ rw e (mark_removals-removed xs peers)
  | inr e ↦ rw e (
      mark_removals-removed xs (removal a.pubkey ∷ peers)
      ∙ shift (removed xs) (removal a.pubkey) peers)
]

HasKey-last :
    (key : Bytes) (peers : List WgPeer) (p : WgPeer)
    → HasKey key (peers ++ (p ∷ [])) ↔ ((key ≡ p.public_key) ⊎ HasKey key peers)
HasKey-last key [] p = (λ h. h, λ h. h)
HasKey-last key (q ∷ peers) p =
    let rest = HasKey-last key peers p in
    (
      λ h. elim h [
        | inl e ↦ inr (inl e)
        | inr more ↦ elim (rest.0 more) [ inl e ↦ inl e | inr e ↦ inr (inr e) ]
      ],
      λ h. elim h [
        | inl e ↦ inr (rest.1 (inl e))
        | inr (inl e) ↦ inl e
        | inr (inr e) ↦ inr (rest.1 (inr e))
      ],
    )

-- What stands behind an entry is not before it.
behind_entry :
    (a : PubkeyOrigin) (key : Bytes) (flag : Bool) (xs : List PubkeyOrigin)
    → All (IsBefore a) xs
    → HasOrigin key flag xs
    → 2 * key_number a.pubkey + 1 ≤ 2 * key_number key + (if flag then 1 else 0)
behind_entry a key flag [] all h = elim h [ ]
behind_entry a key flag (b ∷ xs) all (inl (e, f)) = rw (e, f) at (all.0)
behind_entry a key flag (b ∷ xs) all (inr h) = behind_entry a key flag xs all.1 h

kept-HasOrigin :
    (key : Bytes) (xs : List PubkeyOrigin) → is_kept key xs ≡ true → HasOrigin key true xs
kept-HasOrigin key [] e = cc
kept-HasOrigin key (b ∷ xs) e =
    inl (sym ((str_eq_iff key b.pubkey).0 (ground (arith, e))), ground (arith, e))

-- The entry of a key from the file stands right behind the other one.
HasOrigin-kept :
    (a : PubkeyOrigin) (xs : List PubkeyOrigin)
    → Keyed a
    → All Keyed xs
    → All (IsBefore a) xs
    → IsSorted xs
    → HasOrigin a.pubkey true xs
    → is_kept a.pubkey xs ≡ true
HasOrigin-kept a [] ka k all sorted h = elim h [ ]
HasOrigin-kept a (b ∷ xs) ka k all sorted (inl (e, f)) =
    rw (f, (str_eq_iff a.pubkey b.pubkey).1 (sym e))
HasOrigin-kept a (b ∷ xs) ka k all sorted (inr h) =
    let low = all.0 in
    let high = behind_entry b a.pubkey true xs sorted.0 h in
    elim (Bool-cases b.from_file) [
      | inr f ↦ (let low' = rw f at low in absurd (omega (arith, low', high)))
      | inl f ↦
          let low' = rw f at low in
          let same =
            key_number-injective a.pubkey b.pubkey ka.1 k.0.1 (omega (arith, ka.0, k.0.0))
              (omega (arith, low', high)) in
          rw (f, (str_eq_iff a.pubkey b.pubkey).1 same)
    ]

-- A key runs and the file lacks it, as the array tells.
abbrev pub IsGone : Bytes → List PubkeyOrigin → Type 0
IsGone key xs = HasOrigin key false xs × (HasOrigin key true xs → ⊥)

-- An entry of the file at the front is not about the rest: its key is smaller.
IsGone-file :
    (key : Bytes) (a : PubkeyOrigin) (xs : List PubkeyOrigin)
    → a.from_file ≡ true
    → All (IsBefore a) xs
    → IsGone key xs ↔ IsGone key (a ∷ xs)
IsGone-file key a xs flag all = (
  λ h. (
    inr h.0,
    λ t. elim t [
      | inl e ↦
          let far = behind_entry a key false xs all h.0 in
          let far' = rw (e.0) at far in omega (arith, far')
      | inr t' ↦ h.1 t'
    ],
  ),
  λ h. (elim (h.0) [ inl e ↦ (let clash = sym flag ∙ e.1 in cc) | inr f ↦ f ], λ t. h.1 (inr t)),
)

-- An entry of a running peer at the front is about its own key only.
IsGone-running :
    (key : Bytes) (a : PubkeyOrigin) (xs : List PubkeyOrigin)
    → a.from_file ≡ false
    → IsGone key (a ∷ xs)
      ↔ (((a.pubkey ≡ key) ⊎ HasOrigin key false xs) × (HasOrigin key true xs → ⊥))
IsGone-running key a xs flag = (
  λ h. (elim (h.0) [ inl e ↦ inl e.0 | inr f ↦ inr f ], λ t. h.1 (inr t)),
  λ h. (
    elim (h.0) [ inl e ↦ inl (e, flag) | inr f ↦ inr f ],
    λ t. elim t [ inl e ↦ (let clash = sym flag ∙ e.1 in cc) | inr t' ↦ h.1 t' ],
  ),
)

removed-skip :
    (a : PubkeyOrigin) (xs : List PubkeyOrigin)
    → (a.from_file || is_kept a.pubkey xs) ≡ true
    → removed (a ∷ xs) ≡ removed xs
unfolding removed
removed-skip a xs e = rw e

removed-new :
    (a : PubkeyOrigin) (xs : List PubkeyOrigin)
    → (a.from_file || is_kept a.pubkey xs) ≡ false
    → removed (a ∷ xs) ≡ removed xs ++ (removal a.pubkey ∷ [])
unfolding removed
removed-new a xs e = rw e

nothing_removed : (key : Bytes) → HasKey key (removed []) → ⊥
unfolding removed
nothing_removed key h = h

pub removed_iff :
    (key : Bytes) (xs : List PubkeyOrigin)
    → All Keyed xs
    → IsSorted xs
    → HasKey key (removed xs) ↔ IsGone key xs
removed_iff key [] k sorted = (λ h. absurd (nothing_removed key h), λ h. elim (h.0) [ ])
removed_iff key (a ∷ xs) k sorted =
    let rest = removed_iff key xs k.1 sorted.1 in
    elim (Bool-cases a.from_file) [
      | inl f ↦
          let file = IsGone-file key a xs f sorted.0 in
          rw (removed-skip a xs (ground (arith, f)))
            (λ h. file.0 (rest.0 h), λ h. rest.1 (file.1 h))
      | inr f ↦
          let running = IsGone-running key a xs f in
          elim (Bool-cases (is_kept a.pubkey xs)) [
            | inl kept ↦
                let there = kept-HasOrigin a.pubkey xs kept in
                rw (removed-skip a xs (ground (arith, f, kept))) (
                  λ h. (let g = rest.0 h in running.1 (inr g.0, g.1)),
                  λ h.
                      (let g = running.0 h in
                        elim (g.0) [
                          | inl e ↦ absurd (g.1 (rw e at there))
                          | inr h' ↦ rest.1 (h', g.1)
                        ]),
                )
            | inr lost ↦
                let last = HasKey-last key (removed xs) (removal a.pubkey) in
                rw (removed-new a xs (ground (arith, f, lost))) (
                  λ h. elim (last.0 h) [
                    | inl e ↦ running.1 (
                      inl (sym e),
                      λ t.
                          (let kept = HasOrigin-kept a xs k.0 k.1 sorted.0 sorted.1 (rw e at t) in
                            let clash = sym lost ∙ kept in cc),
                    )
                    | inr h' ↦ (let g = rest.0 h' in running.1 (inr g.0, g.1))
                  ],
                  λ h.
                      (let g = running.0 h in
                        elim (g.0) [
                          | inl e ↦ last.1 (inl (sym e))
                          | inr h' ↦ last.1 (inr (rest.1 (h', g.1)))
                        ]),
                )
          ]
    ]

-- A peer with nothing but a key and the mark for removal.
abbrev pub IsRemoval : WgPeer → Type 0
IsRemoval p = p ≡ record new_peer {
  flags = record (new_peer.flags) { remove_me = true };
  public_key = p.public_key;
}

abbrev pub AllRemovals : List WgPeer → Type 0
AllRemovals peers = All IsRemoval peers

All-last :
    (peers : List WgPeer) (p : WgPeer)
    → AllRemovals peers
    → IsRemoval p
    → AllRemovals (peers ++ (p ∷ []))
All-last [] p all e = (e, tt)
All-last (q ∷ peers) p all e = (all.0, All-last peers p all.1 e)

pub removed-AllRemovals : (xs : List PubkeyOrigin) → AllRemovals (removed xs)
unfolding removed
removed-AllRemovals [] = tt
removed-AllRemovals (a ∷ xs) = elim (Bool-cases (a.from_file || is_kept a.pubkey xs)) [
  | inl e ↦ rw e (removed-AllRemovals xs)
  | inr e ↦ rw e (All-last (removed xs) (removal a.pubkey) (removed-AllRemovals xs) refl)
]
