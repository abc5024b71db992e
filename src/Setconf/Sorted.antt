-- ===== src/Setconf/Sorted.antt =====
-- What `sort` does to the array of keys.
use special_potato.Prelude.{
  ◌+◌, ◌*◌, ◌≤◌, Bool, false, List, [], ◌∷◌, ◌≡◌, ◌≢◌, ◌↔◌, sym, ◌∙◌, arith, Bytes, All, Bool-cases,
  inl, inr, ◌⊎◌,
}
use special_potato.Encoding.{IsKey}
use special_potato.Setconf.{PubkeyOrigin, pubkey_lt, insert, sort}
use special_potato.Setconf.Laws.{insert-All, sort-All}
use special_potato.Setconf.Order.{code, key_number, pubkey_lt_iff, flag-le, tell}

abbrev pub Keyed : PubkeyOrigin → Type 0
Keyed a = IsKey a.pubkey

-- An entry of the running device stands there once.
abbrev pub Fresh : PubkeyOrigin → List PubkeyOrigin → Type 0
Fresh a xs = a.from_file ≡ false → All (λ b. code b ≢ code a) xs

abbrev pub AllFresh : List PubkeyOrigin → Type 0
AllFresh [] = Unit
AllFresh (a ∷ xs) = Fresh a xs × AllFresh xs

-- Behind an entry stand its key from the file, and larger keys.
abbrev pub IsBefore : PubkeyOrigin → PubkeyOrigin → Type 0
IsBefore a b = 2 * key_number a.pubkey + 1 ≤ code b

abbrev pub IsSorted : List PubkeyOrigin → Type 0
IsSorted [] = Unit
IsSorted (a ∷ xs) = All (IsBefore a) xs × IsSorted xs

IsBefore-trans :
    (a b : PubkeyOrigin) (xs : List PubkeyOrigin)
    → IsBefore a b
    → All (IsBefore b) xs
    → All (IsBefore a) xs
IsBefore-trans a b [] h all = tt
IsBefore-trans a b (x ∷ xs) h all =
    (omega (arith, flag-le b.from_file, h, all.0), IsBefore-trans a b xs h all.1)

first-IsBefore :
    (a b : PubkeyOrigin) → code a ≤ code b → (a.from_file ≡ false → code b ≢ code a) → IsBefore a b
first-IsBefore a b le fresh = elim (Bool-cases a.from_file) [
  | inl e ↦ (let le' = rw e at le in omega (arith, le'))
  | inr e ↦ let le' = rw e at le in let ne = rw e at (fresh e) in omega (arith, le', ne)
]

not_less : (a b : PubkeyOrigin) → Keyed a → Keyed b → pubkey_lt b a ≡ false → code a ≤ code b
not_less a b ka kb ge = elim (tell (code b) (code a)) [
  | inl lt ↦ (let clash = sym ge ∙ (pubkey_lt_iff b a kb ka).1 lt in cc)
  | inr (inl eq) ↦ omega (arith, eq)
  | inr (inr gt) ↦ omega (arith, gt)
]

insert-IsSorted :
    (a : PubkeyOrigin) (xs : List PubkeyOrigin)
    → Keyed a
    → All Keyed xs
    → Fresh a xs
    → IsSorted xs
    → IsSorted (insert a xs)
unfolding insert
insert-IsSorted a [] ka k fresh sorted = (tt, tt)
insert-IsSorted a (b ∷ xs) ka k fresh sorted = elim (Bool-cases (pubkey_lt b a)) [
  | inl lt ↦
      let less = (pubkey_lt_iff b a k.0 ka).0 lt in
      rw lt (
        insert-All (IsBefore b) a xs (omega (arith, less, flag-le a.from_file, flag-le b.from_file))
            sorted.0,
        insert-IsSorted a xs ka k.1 (λ e. (fresh e).1) sorted.1,
      )
  | inr ge ↦
      let first = first-IsBefore a b (not_less a b ka k.0 ge) (λ e. (fresh e).0) in
      rw ge ((first, IsBefore-trans a b xs first sorted.0), sorted)
]

pub sort-IsSorted : (xs : List PubkeyOrigin) → All Keyed xs → AllFresh xs → IsSorted (sort xs)
unfolding sort
sort-IsSorted [] k fresh = tt
sort-IsSorted (a ∷ xs) k fresh =
    insert-IsSorted a (sort xs) k.0 (sort-All Keyed xs k.1)
      (λ e. sort-All (λ b. code b ≢ code a) xs (fresh.0 e)) (sort-IsSorted xs k.1 fresh.1)

-- The entry with this key and this origin is in the array.
abbrev pub HasOrigin : Bytes → Bool → List PubkeyOrigin → Type 0
HasOrigin key flag [] = ⊥
HasOrigin key flag (a ∷ xs) = ((a.pubkey ≡ key) × (a.from_file ≡ flag)) ⊎ HasOrigin key flag xs

insert-HasOrigin :
    (key : Bytes) (flag : Bool) (a : PubkeyOrigin) (xs : List PubkeyOrigin)
    → HasOrigin key flag (insert a xs) ↔ HasOrigin key flag (a ∷ xs)
unfolding insert
insert-HasOrigin key flag a [] = (λ h. h, λ h. h)
insert-HasOrigin key flag a (b ∷ xs) =
    let rest = insert-HasOrigin key flag a xs in
    elim (Bool-cases (pubkey_lt b a)) [
      | inr ge ↦ rw ge (λ h. h, λ h. h)
      | inl lt ↦ rw lt (
        λ h. elim h [
          | inl e ↦ inr (inl e)
          | inr more ↦ elim (rest.0 more) [ inl e ↦ inl e | inr e ↦ inr (inr e) ]
        ],
        λ h. elim h [
          | inl e ↦ inr (rest.1 (inl e))
          | inr (inl e) ↦ inl e
          | inr (inr e) ↦ inr (rest.1 (inr e))
        ],
      )
    ]

pub sort-HasOrigin :
    (key : Bytes) (flag : Bool) (xs : List PubkeyOrigin)
    → HasOrigin key flag (sort xs) ↔ HasOrigin key flag xs
unfolding sort
sort-HasOrigin key flag [] = (λ h. h, λ h. h)
sort-HasOrigin key flag (a ∷ xs) =
    let rest = sort-HasOrigin key flag xs in
    let first = insert-HasOrigin key flag a (sort xs) in
    (
      λ h. elim (first.0 h) [ inl e ↦ inl e | inr e ↦ inr (rest.0 e) ],
      λ h. elim h [ inl e ↦ first.1 (inl e) | inr e ↦ first.1 (inr (rest.1 e)) ],
    )
