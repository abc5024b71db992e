-- ===== src/Setconf/Laws.antt =====
-- The lists of `sync_conf`.
use special_potato.Prelude.{
  List, [], ◌∷◌, ◌++◌, Bytes, ◌≡◌, refl, ap, All, Bool-cases, inl, inr, ◌⊎◌,
}
use special_potato.Containers.{WgPeer}
use special_potato.Setconf.{PubkeyOrigin, pubkey_lt, insert, sort}

-- The key is one of a peer of the list.
abbrev pub HasKey : Bytes → List WgPeer → Type 0
HasKey key [] = ⊥
HasKey key (p ∷ peers) = (key ≡ p.public_key) ⊎ HasKey key peers

pub insert-All :
    (P : PubkeyOrigin → Type 0) (a : PubkeyOrigin) (xs : List PubkeyOrigin)
    → P a
    → All P xs
    → All P (insert a xs)
unfolding insert
insert-All P a [] p h = (p, tt)
insert-All P a (b ∷ xs) p h =
    let rest = insert-All P a xs p h.1 in
    elim (Bool-cases (pubkey_lt b a)) [ inl e ↦ rw e (h.0, rest) | inr e ↦ rw e (p, h) ]

pub sort-All : (P : PubkeyOrigin → Type 0) (xs : List PubkeyOrigin) → All P xs → All P (sort xs)
unfolding sort
sort-All P [] h = tt
sort-All P (a ∷ xs) h = insert-All P a (sort xs) h.0 (sort-All P xs h.1)

pub shift :
    {A : Type 0} (xs : List A) (x : A) (ys : List A) → (xs ++ (x ∷ ys)) ≡ ((xs ++ (x ∷ [])) ++ ys)
shift [] x ys = refl
shift (y ∷ xs) x ys = ap (◌∷◌ y) (shift xs x ys)
