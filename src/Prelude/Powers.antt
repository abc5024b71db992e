-- ===== src/Prelude/Powers.antt =====
-- Remainders by powers of two.
use Prim.Native.Nat.{ℕ, zero, suc, ◌+◌, ◌-◌, ◌*◌, ◌/◌, ◌%◌, ◌^◌, ◌≤◌, ◌<◌}
use mathlib.Core.Path.{◌≡◌, sym, ap, ◌∙◌}
use mathlib.Core.Logic.{◌↔◌}
use native.Mathlib.Nat.{
  pow-suc, div-add-mod, mod-lt, mod-eq_of_lt, mul-add-mod_self_left, mul-add-mod_self_right,
  mul_assoc, mul_comm, add-zero, pow-zero, mul-le-mul_right, mul-le-mul_left,
}
use native.Mathlib.Omega.{arith}

add_suc_right : (m n : ℕ) → m + suc n ≡ suc (m + n)
add_suc_right m n = omega arith

pub pow-add : (b m n : ℕ) → b ^ (m + n) ≡ b ^ m * b ^ n
pow-add b m zero = rw (add-zero, pow-zero) (omega arith)
pow-add b m (suc n) = rw (add_suc_right m n) (
    pow-suc b (m + n)
    ∙ ap (λ (t : ℕ). t * b) (pow-add b m n)
    ∙ mul_assoc (b ^ m) (b ^ n) b
    ∙ ap (λ (t : ℕ). b ^ m * t) (sym (pow-suc b n)))

-- The remainder of `v * m + w` by a multiple of `m`.
pub shifted_mod : (v m w p : ℕ) → w < m → 1 ≤ p → (v * m + w) % (m * p) ≡ v % p * m + w
shifted_mod v m w p h k =
    let q = v / p in
    let r = v % p in
    let split : p * q + r ≡ v = div-add-mod v p in
    let below : r < p = mod-lt v k in
    let small : r * m + w < m * p = omega (arith, mul-le-mul_right m below, mul_comm m p) in
    let whole : m * p * q + (r * m + w) ≡ v * m + w = omega (arith, ap (λ (t : ℕ). t * m) split) in
    ap (λ (t : ℕ). t % (m * p)) (sym whole)
    ∙ mul-add-mod_self_left (m * p) q (r * m + w)
    ∙ mod-eq_of_lt small

zero_factor : (r m : ℕ) → 1 ≤ m → r * m ≡ 0 → r ≡ 0
zero_factor r m h e = omega (arith, mul-le-mul_left r h)

pub shifted_mod-zero_iff :
    (v m w p : ℕ) → w < m → 1 ≤ p → ((v * m + w) % (m * p) ≡ 0) ↔ ((w ≡ 0) × (v % p ≡ 0))
shifted_mod-zero_iff v m w p h k =
    let value = shifted_mod v m w p h k in
    (
      λ e. (omega (arith, value, e), zero_factor (v % p) m (omega arith) (omega (arith, value, e))),
      λ z. value ∙ rw (z.0, z.1) (omega arith),
    )

-- A high part that the modulus divides does not count.
pub low_mod : (v e w : ℕ) → e ≤ 32 → (v * 2 ^ 32 + w) % 2 ^ e ≡ w % 2 ^ e
low_mod v e w h =
    let split : 2 ^ 32 ≡ 2 ^ (32 - e) * 2 ^ e =
      ap (λ (t : ℕ). 2 ^ t) {x = 32} (omega arith) ∙ pow-add 2 (32 - e) e in
    ap (λ (t : ℕ). (v * t + w) % 2 ^ e) split
    ∙ ap (λ (t : ℕ). (t + w) % 2 ^ e) (sym (mul_assoc v (2 ^ (32 - e)) (2 ^ e)))
    ∙ mul-add-mod_self_right (v * 2 ^ (32 - e)) (2 ^ e) w
