-- ===== src/Prelude/Bits.antt =====
-- The bitwise operations as arithmetic: disjoint fields add up, a low mask is a remainder, and an
-- `or` is at least each of its sides.
use Prim.Native.Nat.{
  ℕ, zero, suc, ◌+◌, ◌-◌, ◌*◌, ◌/◌, ◌%◌, ◌^◌, ◌≤◌, ◌<◌, min, max, bit_and, bit_or, digits,
  bit_and-bitwise, bit_or-bitwise,
}
use mathlib.Core.Path.{◌≡◌, refl, sym, ap, ◌∙◌}
use native.Mathlib.Nat.{
  pow-suc, one-le-pow, div-add-mod, mod-lt, mod-eq_of_lt, add-mul-mod_self_right,
}
use mathlib.Core.Logic.{◌↔◌}
use native.Mathlib.Omega.{arith}

-- `digits` reads two numbers bit by bit on fuel; more fuel than the first number changes nothing.
module _ (z : ℕ → ℕ) (f : ℕ → ℕ → ℕ) where
  digits-fuel : (n m a b : ℕ) → a ≤ n → a ≤ m → digits z f n a b ≡ digits z f m a b
  digits-fuel zero zero a b p q = refl
  digits-fuel (suc n) (suc m) zero b p q = refl
  digits-fuel (suc n) (suc m) (suc a) b p q =
      omega (arith, digits-fuel n m (suc a / 2) (b / 2) (omega arith) (omega arith))
  digits-fuel zero (suc m) zero b p q = refl
  digits-fuel zero (suc m) (suc a) b p q = elim p [ ]
  digits-fuel (suc n) zero zero b p q = refl
  digits-fuel (suc n) zero (suc a) b p q = elim q [ ]

zero-bit_or : (b : ℕ) → bit_or 0 b ≡ b
zero-bit_or b = bit_or-bitwise 0 b

zero-bit_and : (b : ℕ) → bit_and 0 b ≡ 0
zero-bit_and b = bit_and-bitwise 0 b

-- The lowest bit of a result, and the rest of it.
pub bit_or_low : (a b : ℕ) → bit_or a b ≡ bit_or (a / 2) (b / 2) * 2 + max (a % 2) (b % 2)
bit_or_low zero b = omega (arith, zero-bit_or b, zero-bit_or (b / 2))
bit_or_low (suc a) b = omega (
  arith,
  bit_or-bitwise (suc a) b,
  bit_or-bitwise (suc a / 2) (b / 2),
  digits-fuel (λ (y : ℕ). y) max a (suc a / 2) (suc a / 2) (b / 2) (omega arith) (omega arith),
)

pub bit_and_low : (a b : ℕ) → bit_and a b ≡ bit_and (a / 2) (b / 2) * 2 + min (a % 2) (b % 2)
bit_and_low zero b = omega (arith, zero-bit_and b, zero-bit_and (b / 2))
bit_and_low (suc a) b = omega (
  arith,
  bit_and-bitwise (suc a) b,
  bit_and-bitwise (suc a / 2) (b / 2),
  digits-fuel (λ (y : ℕ). 0) min a (suc a / 2) (suc a / 2) (b / 2) (omega arith) (omega arith),
)

-- Inductions below halve the first number, so they run on a bound `n` of it.
bit_or_bound : (n a b : ℕ) → a ≤ n → (a ≤ bit_or a b) × (b ≤ bit_or a b) × (bit_or a b ≤ a + b)
bit_or_bound n zero b h = omega (arith, zero-bit_or b)
bit_or_bound zero (suc a) b h = elim h [ ]
bit_or_bound (suc n) (suc a) b h =
    omega (arith, bit_or_low (suc a) b, bit_or_bound n (suc a / 2) (b / 2) (omega arith))

-- An `or` lies between each side and the sum.
pub bit_or_bounds : (a b : ℕ) → (a ≤ bit_or a b) × (b ≤ bit_or a b) × (bit_or a b ≤ a + b)
bit_or_bounds a b = bit_or_bound a a b (omega arith)

double-pow : (q k : ℕ) → q * 2 ^ suc k ≡ 2 * (q * 2 ^ k)
double-pow q k = omega (arith, ap (λ (t : ℕ). q * t) (pow-suc 2 k))

-- `q << k | r` is a sum where `r` fits below the shift.
pub bit_or_disjoint : (k q r : ℕ) → r < 2 ^ k → bit_or (q * 2 ^ k) r ≡ q * 2 ^ k + r
bit_or_disjoint zero q r h = omega (arith, bit_or_bounds (q * 2 ^ 0) r)
bit_or_disjoint (suc k) q r h = omega (
  arith,
  double-pow q k,
  pow-suc 2 k,
  ap (λ (t : ℕ). bit_or t (r / 2)) (halve (q * 2 ^ suc k) (q * 2 ^ k) (double-pow q k)),
  bit_or_low (q * 2 ^ suc k) r,
  bit_or_disjoint k q (r / 2) (omega (arith, pow-suc 2 k)),
)
  where
    halve : (x y : ℕ) → x ≡ 2 * y → x / 2 ≡ y
    halve x y e = omega arith

bit_and-zero : (n a : ℕ) → a ≤ n → bit_and a 0 ≡ 0
bit_and-zero n zero h = zero-bit_and 0
bit_and-zero zero (suc a) h = elim h [ ]
bit_and-zero (suc n) (suc a) h =
    omega (arith, bit_and_low (suc a) 0, bit_and-zero n (suc a / 2) (omega arith))

half_mask : (m r : ℕ) → r ≡ 2 * m → 1 ≤ m → ((r - 1) / 2 ≡ m - 1) × ((r - 1) % 2 ≡ 1)
half_mask m r e h = omega arith

double_mod : (a p r : ℕ) → r ≡ 2 * p → 1 ≤ p → a / 2 % p * 2 + a % 2 ≡ a % r
double_mod a p r e h =
    let low = a / 2 % p * 2 + a % 2 in
    let whole : a ≡ low + a / 2 / p * r =
      omega (arith, ap (λ (t : ℕ). a / 2 / p * t) e, div-add-mod (a / 2) p) in
    sym (mod-eq_of_lt (omega (arith, mod-lt (a / 2) h)))
    ∙ sym (add-mul-mod_self_right low (a / 2 / p) r)
    ∙ ap (λ (t : ℕ). t % r) (sym whole)

-- A mask of the `k` low bits is a remainder.
pub bit_and_mask : (k a : ℕ) → bit_and a (2 ^ k - 1) ≡ a % 2 ^ k
bit_and_mask zero a = omega (arith, bit_and-zero a a (omega arith))
bit_and_mask (suc k) a =
    let halves =
      half_mask (2 ^ k) (2 ^ suc k) (omega (arith, pow-suc 2 k)) (one-le-pow k 2 (omega arith)) in
    omega (
      arith,
      bit_and_low a (2 ^ suc k - 1),
      ap (λ (t : ℕ). bit_and (a / 2) t) halves.0,
      halves.1,
      bit_and_mask k (a / 2),
      double_mod a (2 ^ k) (2 ^ suc k) (omega (arith, pow-suc 2 k)) (one-le-pow k 2 (omega arith)),
    )

-- An `or` of numbers of `k` bits has `k` bits.
pub bit_or-lt-pow : (k a b : ℕ) → a < 2 ^ k → b < 2 ^ k → bit_or a b < 2 ^ k
bit_or-lt-pow zero a b p q = omega (arith, bit_or_bounds a b)
bit_or-lt-pow (suc k) a b p q = omega (
  arith,
  bit_or_low a b,
  pow-suc 2 k,
  bit_or-lt-pow k (a / 2) (b / 2) (omega (arith, pow-suc 2 k)) (omega (arith, pow-suc 2 k)),
)

pub bit_or-zero_iff : (a b : ℕ) → (bit_or a b ≡ 0) ↔ ((a ≡ 0) × (b ≡ 0))
bit_or-zero_iff a b = omega (arith, bit_or_bounds a b)

-- The same, of a left side that is known to be a multiple.
pub bit_or-eq-add : (k q x y : ℕ) → x ≡ q * 2 ^ k → y < 2 ^ k → bit_or x y ≡ x + y
bit_or-eq-add k q x y e h = rw e (bit_or_disjoint k q y h)
