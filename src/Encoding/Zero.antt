-- ===== src/Encoding/Zero.antt =====
-- `key_is_zero`.
use special_potato.Prelude.{
  ℕ, ◌<◌, true, [], ◌∷◌, ◌≡◌, ◌↔◌, refl, ◌∙◌, arith, Bytes, IsBytes, All, bit_or, ==_iff, sym,
}
use special_potato.Prelude.Bits.{bit_or-zero_iff, bit_or-lt-pow}
use special_potato.Encoding.{zero_loop, key_is_zero}
use special_potato.Encoding.Base64.Keys.{no_error-zero}

zero_loop-lt : (acc : ℕ) (key : Bytes) → acc < 256 → IsBytes key → zero_loop acc key < 256
unfolding zero_loop
zero_loop-lt acc [] h k = h
zero_loop-lt acc (b ∷ key) h k = zero_loop-lt (bit_or acc b) key (bit_or-lt-pow 8 acc b h k.0) k.1

zero_loop_iff :
    (acc : ℕ) (key : Bytes) → (zero_loop acc key ≡ 0) ↔ ((acc ≡ 0) × All (λ b. b ≡ 0) key)
unfolding zero_loop
zero_loop_iff acc [] = (λ e. (e, tt), λ p. p.0)
zero_loop_iff acc (b ∷ key) =
    let rest = zero_loop_iff (bit_or acc b) key in
    let here = bit_or-zero_iff acc b in
    (
      λ e. (let r = rest.0 e in let h = here.0 r.0 in (h.0, (h.1, r.1))),
      λ p. rest.1 (here.1 (p.0, p.1.0), p.1.1),
    )

-- `key_is_zero` is true of a byte string exactly when each of its bytes is zero.
pub key_is_zero_iff : (key : Bytes) → IsBytes key → (key_is_zero key ≡ true) ↔ All (λ b. b ≡ 0) key
unfolding key_is_zero
key_is_zero_iff key h =
    let test = no_error-zero (zero_loop 0 key) (zero_loop-lt 0 key (omega arith) h) in
    let zero = ==_iff (zero_loop 0 key) 0 in
    (
      λ e. ((zero_loop_iff 0 key).0 (zero.0 (sym test ∙ e))).1,
      λ a. test ∙ zero.1 ((zero_loop_iff 0 key).1 (refl, a)),
    )
