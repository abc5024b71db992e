-- ===== src/Config/Section/Keep.antt =====
-- An invariant that every reader of a table of keys keeps is kept by the readers of a whole line.
use special_potato.Prelude.{
  ℕ, zero, suc, Bool, List, [], ◌∷◌, Bytes, some, ◌≡◌, arith, IsBytes, drop, length,
}
use special_potato.Containers.{WgPeer}
use special_potato.Outcome.{Outcome, System, Ensures, Ensures->>=, Ensures-Option}
use special_potato.Config.Section.{Reader, PeerCtx, try_keys, get_value, update_last}

-- Every reader of a table keeps `P` and makes no null read, on values of bytes.
infixr 5 ◌&◌
pub data AllKeep {A : Type 0} (P : A → Type 0) : List (Bytes × Reader A) → Type 0 where
  no_more : AllKeep P []
  ◌&◌ :
      {name : Bytes} {read : Reader A} {keys : List (Bytes × Reader A)}
      → ((value : Bytes) (a : A) → IsBytes value → P a → Ensures P (read value a))
      → AllKeep P keys
      → AllKeep P ((name, read) ∷ keys)

drop-IsBytes : (n : ℕ) (s : Bytes) → IsBytes s → IsBytes (drop n s)
drop-IsBytes zero s h = h
drop-IsBytes (suc n) [] h = tt
drop-IsBytes (suc n) (c ∷ s) h = drop-IsBytes n s h.1

pub get_value-IsBytes :
    (line key : Bytes) {value : Bytes}
    → IsBytes line
    → get_value line key ≡ some value
    → IsBytes value
unfolding get_value
get_value-IsBytes line key h e = ground (arith, drop-IsBytes (length key) line h)

pub try_keys-Ensures :
    {A : Type 0} (P : A → Type 0) (keys : List (Bytes × Reader A)) (line : Bytes) (a : A)
    → AllKeep P keys
    → IsBytes line
    → P a
    → Ensures P (try_keys keys line a)
unfolding try_keys
try_keys-Ensures P [] line a k h p = tt
try_keys-Ensures P ((key, read) ∷ keys) line a (keeps & rest) h p =
    Ensures-Option P (get_value line key) (try_keys keys line a) (λ v. read v a)
      (try_keys-Ensures P keys line a rest h p)
      (λ v e. keeps v a (get_value-IsBytes line key h e) p)

-- All peers but the last satisfy `Q`, and the last one with the state of `last_allowedip` does `P`.
abbrev pub LastIs : (PeerCtx → Type 0) → (WgPeer → Type 0) → Bool → List WgPeer → Type 0
LastIs P Q last [] = ⊥
LastIs P Q last (p ∷ []) = P (p, last)
LastIs P Q last (p ∷ q ∷ peers) = Q p × LastIs P Q last (q ∷ peers)

pub LastIs-cons :
    (P : PeerCtx → Type 0) (Q : WgPeer → Type 0) (p : WgPeer) (last : Bool) (peers : List WgPeer)
    → Q p
    → LastIs P Q last peers
    → LastIs P Q last (p ∷ peers)
LastIs-cons P Q p last [] h k = elim k [ ]
LastIs-cons P Q p last (q ∷ peers) h k = (h, k)

pub update_last-Ensures :
    (sys : System) (P : PeerCtx → Type 0) (Q : WgPeer → Type 0) (f : PeerCtx → Outcome PeerCtx)
    (last : Bool) (peers : List WgPeer)
    → ((s : PeerCtx) → P s → Ensures P (f s))
    → LastIs P Q last peers
    → Ensures (λ r. LastIs P Q r.1 r.0) (update_last sys f last peers)
unfolding update_last
update_last-Ensures sys P Q f last [] k h = elim h [ ]
update_last-Ensures sys P Q f last (p ∷ []) k h =
    Ensures->>= P (λ r. LastIs P Q r.1 r.0) (f (p, last)) _ (k (p, last) h) (λ s u. u)
update_last-Ensures sys P Q f last (p ∷ q ∷ peers) k h =
    Ensures->>= (λ r. LastIs P Q r.1 r.0) (λ r. LastIs P Q r.1 r.0)
      (update_last sys f last (q ∷ peers)) _ (update_last-Ensures sys P Q f last (q ∷ peers) k h.1)
      (λ r u. LastIs-cons P Q p r.1 r.0 h.0 u)
