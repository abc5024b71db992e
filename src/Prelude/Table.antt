-- ===== src/Prelude/Table.antt =====
-- Facts over a small range, checked at every value by evaluation.
use special_potato.Prelude.Tests.{◌==◌, ==_iff}
use Prim.Native.Nat.{ℕ, zero, suc, ◌<◌}
use mathlib.Core.Path.{◌≡◌}
use mathlib.Core.Bool.{Bool, true, not, ◌&&◌, ◌||◌}
use native.Mathlib.Omega.{arith}

unfoldable pub all_below : ℕ → (ℕ → Bool) → Bool
all_below zero p = true
all_below (suc n) p = p n && all_below n p

pub all_below_sound : (n : ℕ) (p : ℕ → Bool) → all_below n p ≡ true → (x : ℕ) → x < n → p x ≡ true
unfolding all_below
all_below_sound zero p h x lt = elim lt [ ]
all_below_sound (suc n) p h x lt = ground (arith, all_below_sound n p (ground arith) x)

-- Two functions that agree at each value below a bound.
pub agree_below :
    (n : ℕ) (f g : ℕ → ℕ) → all_below n (λ x. f x == g x) ≡ true → (x : ℕ) → x < n → f x ≡ g x
agree_below n f g h x lt = (==_iff (f x) (g x)).0 (all_below_sound n (λ y. f y == g y) h x lt)

abbrev same : Bool → Bool → Bool
same a b = (a && b) || (not a && not b)

eq_of_same : (a b : Bool) → same a b ≡ true → a ≡ b
eq_of_same a b h = ground arith

pub agree_Bool_below :
    (n : ℕ) (f g : ℕ → Bool)
    → all_below n (λ c. same (f c) (g c)) ≡ true
    → (c : ℕ) → c < n
    → f c ≡ g c
agree_Bool_below n f g h c lt =
    eq_of_same (f c) (g c) (all_below_sound n (λ x. same (f x) (g x)) h c lt)
