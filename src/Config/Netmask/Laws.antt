-- ===== src/Config/Netmask/Laws.antt =====
-- `validate_netmask` against the address as one number.
use special_potato.Prelude.{
  ℕ, zero, suc, ◌+◌, ◌-◌, ◌*◌, ◌/◌, ◌%◌, ◌^◌, ◌≤◌, ◌<◌, true, false, List, [], ◌∷◌, ◌≡◌, ◌↔◌, ◌⊎◌,
  inl, inr, refl, sym, ap, ◌∙◌, arith, leb, ltb, bit_and, All,
}
use special_potato.Prelude.Bits.{bit_and_mask}
use special_potato.Prelude.Table.{all_below, agree_below}
use special_potato.Prelude.Powers.{pow-add, shifted_mod-zero_iff, low_mod}
use native.Mathlib.Nat.{one-le-pow, mod-eq_of_lt}
use special_potato.Containers.{af_inet, af_inet6, WgAllowedip}
use special_potato.Config.Netmask.{word, host_mask, host_loop, validate_netmask}

-- The first `n` words as one number, the first the highest.
abbrev pub address_value : List ℕ → ℕ → ℕ
address_value ip zero = 0
address_value ip (suc n) = address_value ip n * 2 ^ 32 + word ip n

word-lt : (ip : List ℕ) → All (λ w. w < 2 ^ 32) ip → (i : ℕ) → word ip i < 2 ^ 32
word-lt [] h i = omega arith
word-lt (w ∷ ws) h zero = h.0
word-lt (w ∷ ws) h (suc i) = word-lt ws h.1 i

shifted_ones : (c : ℕ) → c < 33 → (2 ^ 32 - 1) / 2 ^ c ≡ 2 ^ (32 - c) - 1
unfolding all_below
shifted_ones = agree_below 33 (λ c. (2 ^ 32 - 1) / 2 ^ c) (λ c. 2 ^ (32 - c) - 1) refl

-- The bits of a word that the mask keeps, where the prefix ends in the word.
masked_inside :
    (cidr i w : ℕ)
    → 32 * i < cidr
    → cidr < 32 * (i + 1)
    → bit_and w (host_mask cidr i) ≡ w % 2 ^ (32 * suc i - cidr)
masked_inside cidr i w h k =
    let test : ltb (32 * i) cidr ≡ true = ground arith in
    let exponent : 32 - (cidr - 32 * i) ≡ 32 * suc i - cidr = omega arith in
    rw (test, shifted_ones (cidr - 32 * i) (omega arith))
      (bit_and_mask (32 - (cidr - 32 * i)) w ∙ ap (λ (e : ℕ). w % 2 ^ e) exponent)

-- The same where the prefix does not reach the word.
masked_below : (cidr i w : ℕ) → cidr ≤ 32 * i → w < 2 ^ 32 → bit_and w (host_mask cidr i) ≡ w
masked_below cidr i w h k =
    let test : ltb (32 * i) cidr ≡ false = ground arith in
    rw test (bit_and_mask 32 w ∙ mod-eq_of_lt k)

zero_mod : (m : ℕ) → 0 % m ≡ 0
zero_mod m = omega arith

three_ways :
    (cidr i : ℕ) → (32 * suc i ≤ cidr) ⊎ (((32 * i < cidr) × (cidr < 32 * suc i)) ⊎ (cidr ≤ 32 * i))
three_ways cidr i = omega arith

module _ (cidr : ℕ) (ip : List ℕ) (words : All (λ w. w < 2 ^ 32) ip) where
  abbrev Agrees : ℕ → Type 0
  Agrees n = (host_loop cidr ip n ≡ true) ↔ (address_value ip n % 2 ^ (32 * n - cidr) ≡ 0)

  covered_word : (i : ℕ) → 32 * suc i ≤ cidr → Agrees (suc i)
  unfolding host_loop
  covered_word i h =
      let none_left : 32 * suc i - cidr ≡ 0 = omega arith in
      let stops : leb (32 * (i + 1)) cidr ≡ true = ground arith in
      (λ e. rw none_left (omega arith), λ e. rw stops)

  last_word : (i : ℕ) → 32 * i < cidr → cidr < 32 * suc i → Agrees i → Agrees (suc i)
  unfolding host_loop
  last_word i h k ih =
      let goes_on : leb (32 * (i + 1)) cidr ≡ false = ground arith in
      let none_left : 32 * i - cidr ≡ 0 = omega arith in
      let before : host_loop cidr ip i ≡ true = ih.1 (rw none_left (omega arith)) in
      let w = word ip i in
      let low = low_mod (address_value ip i) (32 * suc i - cidr) w (omega arith) in
      let kept = masked_inside cidr i w h (omega arith) in
      rw (goes_on, before, kept)
        (
          λ e. low ∙ (ground arith),
          λ e. (let zero_part : w % 2 ^ (32 * suc i - cidr) ≡ 0 = sym low ∙ e in ground arith),
        )

  host_word : (i : ℕ) → cidr ≤ 32 * i → Agrees i → Agrees (suc i)
  unfolding host_loop
  host_word i h ih =
      let goes_on : leb (32 * (i + 1)) cidr ≡ false = ground arith in
      let w = word ip i in
      let kept = masked_below cidr i w h (word-lt ip words i) in
      let exponent : 32 * suc i - cidr ≡ 32 + (32 * i - cidr) = omega arith in
      let parts =
        shifted_mod-zero_iff (address_value ip i) (2 ^ 32) w (2 ^ (32 * i - cidr))
          (word-lt ip words i) (one-le-pow (32 * i - cidr) 2 (omega arith)) in
      rw (goes_on, kept, exponent, pow-add 2 32 (32 * i - cidr))
        (
          λ e. parts.1 (ground arith, ih.0 (ground arith)),
          λ e. (let p = parts.0 e in let rest = ih.1 p.1 in ground arith),
        )

  host_loop_iff : (n : ℕ) → Agrees n
  host_loop_iff zero = ((λ e. zero_mod (2 ^ (0 - cidr))), λ e. unfold host_loop in refl)
  host_loop_iff (suc i) = elim (three_ways cidr i) [
    | inl h ↦ covered_word i h
    | inr (inl (h, k)) ↦ last_word i h k (host_loop_iff i)
    | inr (inr h) ↦ host_word i h (host_loop_iff i)
  ]

-- An address of whole words is accepted exactly when all its bits behind the prefix are zero: as one
-- number of 32 or 128 bits it is divisible by the power of two that the prefix leaves.
pub validate_netmask_iff :
    (a : WgAllowedip) (n : ℕ)
    → All (λ w. w < 2 ^ 32) a.ip
    → ((a.family ≡ af_inet) × (n ≡ 1)) ⊎ ((a.family ≡ af_inet6) × (n ≡ 4))
    → (validate_netmask a ≡ true) ↔ (address_value a.ip n % 2 ^ (32 * n - a.cidr) ≡ 0)
unfolding validate_netmask
validate_netmask_iff a n h (inl (f, e)) = rw (f, e) (host_loop_iff a.cidr a.ip h 1)
validate_netmask_iff a n h (inr (f, e)) = rw (f, e) (host_loop_iff a.cidr a.ip h 4)
