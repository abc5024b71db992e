-- ===== src/Highlighter/Value/Number.antt =====
-- The numbers that the highlighter accepts, in the tool's own reader.
use special_potato.Prelude.{
  ℕ, zero, suc, ◌+◌, ◌-◌, ◌*◌, ◌^◌, ◌≤◌, ◌<◌, ◌==◌, if◌then◌else◌, bit_or, Bool, true, false, not,
  ◌&&◌, ◌||◌, List, [], ◌∷◌, Bytes, IsBytes, Option, none, some, ◌≡◌, ◌≢◌, refl, sym, ap, ◌∙◌,
  arith, length, Bool-cases, inl, inr, Option-cases, codes, leb, ltb, ltb_iff, u32,
}
use special_potato.Prelude.Table.{agree_below, agree_Bool_below}
use special_potato.Libc.{case_eq}
use special_potato.Libc.Strtoul.{clamp, digit_of, read_digits, strtoul}
use special_potato.Libc.Digits.{
  StartsDecimal, StartsHex, skips_nothing, skip_prefix_ten, skip_prefix_sixteen,
}
use special_potato.Containers.{WgPeer, WgDevice}
use special_potato.Outcome.{ok, System}
use special_potato.Config.Number.{
  is_empty, has_hex_prefix, set_keepalive, set_fwmark, parse_persistent_keepalive, parse_fwmark,
}
use special_potato.Config.Number.Laws.{decimal_starts, u32_small}
use special_potato.Highlighter.Classes.{is_decimal, is_same}
use special_potato.Highlighter.Value.{
  dec_loop, hex_letter, hex_loop, within, behind_prefix, is_valid_uint,
  is_valid_persistentkeepalive, is_valid_fwmark,
}

pub is_same-eq : (s t : Bytes) → is_same s t ≡ true → s ≡ t
unfolding is_same
is_same-eq [] [] e = refl
is_same-eq [] (d ∷ t) e = cc
is_same-eq (c ∷ s) [] e = cc
is_same-eq (c ∷ s) (d ∷ t) e =
    let rest = is_same-eq s t (ground arith) in let first : c ≡ d = ground arith in cc

decimal_digit :
    (c : ℕ) → is_decimal c ≡ true → (digit_of c ≡ c - b'0') × (ltb (digit_of c) 10 ≡ true)
unfolding is_decimal digit_of
decimal_digit c e = (ground arith, ground arith)

any_or_false : (any : Bool) → any ≡ (any || false)
any_or_false any = ground arith

any_or_true : (any : Bool) → true ≡ (any || true)
any_or_true any = ground arith

-- Where the decimal loop ends well, `strtoul` reads the same value to the end.
read-dec_loop :
    (val : ℕ) (s : Bytes) (any : Bool) {v : ℕ}
    → dec_loop val s ≡ some v
    → read_digits 10 any val s ≡ record { any = any || not (is_empty s); value = v; rest = [] }
unfolding dec_loop read_digits
read-dec_loop val [] any {v} e = let same : val ≡ v = cc in rw (sym (any_or_false any), same)
read-dec_loop val (c ∷ s) any {v} e = elim (Bool-cases (is_decimal c)) [
  | inr no_digit ↦ absurd (ground (arith, e, no_digit))
  | inl digit ↦
      let later : dec_loop (10 * val + (c - b'0')) s ≡ some v = rw digit at e in
      let next : val * 10 + digit_of c ≡ 10 * val + (c - b'0') =
        omega (arith, (decimal_digit c digit).0) in
      rw ((decimal_digit c digit).1, next, sym (any_or_true any))
        (read-dec_loop (10 * val + (c - b'0')) s true later)
]

dec_loop-StartsDecimal :
    (val c : ℕ) (s : Bytes) {v : ℕ} → dec_loop val (c ∷ s) ≡ some v → StartsDecimal (c ∷ s)
unfolding dec_loop is_decimal
dec_loop-StartsDecimal val c s e = ground arith

hex_digit_iff : (c : ℕ) → c < 256 → (is_decimal c || hex_letter c) ≡ ltb (digit_of c) 16
unfolding is_decimal digit_of special_potato.Prelude.Table.all_below
hex_digit_iff =
    agree_Bool_below 256 (λ c. is_decimal c || hex_letter c) (λ c. ltb (digit_of c) 16) refl

hex_digit : ℕ → ℕ
hex_digit c = if is_decimal c then c - b'0' else bit_or c 32 - b'a' + 10

hex_value : ℕ → ℕ
unfolding hex_digit
hex_value c = if is_decimal c || hex_letter c then hex_digit c else 16

hex_value_lem : (c : ℕ) → c < 256 → hex_value c ≡ digit_of c
unfolding is_decimal digit_of hex_digit hex_value special_potato.Prelude.Table.all_below
hex_value_lem = agree_below 256 hex_value digit_of refl

hex_digit_lem : (c : ℕ) → c < 256 → (is_decimal c || hex_letter c) ≡ true → hex_digit c ≡ digit_of c
hex_digit_lem c lt e =
    let whole : hex_value c ≡ hex_digit c = unfold hex_value in rw e in
    sym whole ∙ hex_value_lem c lt

-- The same in base 16.
read-hex_loop :
    (val : ℕ) (s : Bytes) (any : Bool) {v : ℕ}
    → IsBytes s
    → hex_loop val s ≡ some v
    → read_digits 16 any val s ≡ record { any = any || not (is_empty s); value = v; rest = [] }
unfolding hex_loop read_digits hex_digit
read-hex_loop val [] any {v} b e = let same : val ≡ v = cc in rw (sym (any_or_false any), same)
read-hex_loop val (c ∷ s) any {v} b e = elim (Bool-cases (is_decimal c || hex_letter c)) [
  | inr no_digit ↦ absurd (ground (arith, e, no_digit))
  | inl digit ↦
      let later : hex_loop (16 * val + hex_digit c) s ≡ some v = rw digit at e in
      let next : val * 16 + digit_of c ≡ 16 * val + hex_digit c =
        omega (arith, hex_digit_lem c b.0 digit) in
      let small : ltb (digit_of c) 16 ≡ true = sym (hex_digit_iff c b.0) ∙ digit in
      rw (small, next, sym (any_or_true any))
        (read-hex_loop (16 * val + hex_digit c) s true b.1 later)
]

-- A value that is read by `strtoul`, in its bounds.
abbrev Reads : ℕ → ℕ → ℕ → Bytes → Type 0
Reads ulong_max base high s = (v : ℕ) × (v ≤ high) × (strtoul ulong_max base s ≡ (v, []))

clamped : (ulong_max high v : ℕ) → high ≤ ulong_max → v ≤ high → clamp ulong_max false v ≡ v
unfolding clamp
clamped ulong_max high v h le = ground arith

decimal-Reads :
    (ulong_max low high c : ℕ) (s : Bytes)
    → high ≤ ulong_max
    → within low high (dec_loop 0 (c ∷ s)) ≡ true
    → StartsDecimal (c ∷ s) × Reads ulong_max 10 high (c ∷ s)
unfolding strtoul
decimal-Reads ulong_max low high c s h e = elim (Option-cases (dec_loop 0 (c ∷ s))) [
  | inl bad ↦ absurd (ground (arith, e, bad))
  | inr (v, good) ↦
      let starts = dec_loop-StartsDecimal 0 c s good in
      let le : v ≤ high = ground (arith, e, good) in
      let value : strtoul ulong_max 10 (c ∷ s) ≡ (v, []) =
        unfold strtoul in
        rw (
          skips_nothing (c ∷ s) starts,
          skip_prefix_ten (c ∷ s),
          read-dec_loop 0 (c ∷ s) false good,
          clamped ulong_max high v h le,
        ) in
      (starts, (v, le, value))
]

hex_loop-StartsHex :
    (val c : ℕ) (s : Bytes) {v : ℕ} → c < 256 → hex_loop val (c ∷ s) ≡ some v → StartsHex (c ∷ s)
unfolding hex_loop
hex_loop-StartsHex val c s lt e = elim (Bool-cases (is_decimal c || hex_letter c)) [
  | inr no_digit ↦ absurd (ground (arith, e, no_digit))
  | inl digit ↦ (ltb_iff (digit_of c) 16).0 (sym (hex_digit_iff c lt) ∙ digit)
]

hex-strtoul :
    (ulong_max c : ℕ) (s : Bytes) {v : ℕ}
    → IsBytes (c ∷ s)
    → StartsHex (c ∷ s)
    → hex_loop 0 (c ∷ s) ≡ some v
    → clamp ulong_max false v ≡ v
    → strtoul ulong_max 16 (b'0' ∷ b'x' ∷ c ∷ s) ≡ (v, [])
unfolding strtoul
hex-strtoul ulong_max c s b starts good cut =
    rw (skip_prefix_sixteen (c ∷ s) starts) (rw (read-hex_loop 0 (c ∷ s) false b good) (rw cut))

-- Behind `0x`.
hex-Reads :
    (ulong_max low high : ℕ) (s : Bytes)
    → high ≤ ulong_max
    → IsBytes s
    → has_hex_prefix s ≡ true
    → within low high (hex_loop 0 (behind_prefix s)) ≡ true
    → StartsDecimal s × Reads ulong_max 16 high s
unfolding has_hex_prefix
hex-Reads ulong_max low high [] h b p e = cc
hex-Reads ulong_max low high (z ∷ []) h b p e = absurd (ground (arith, p))
hex-Reads ulong_max low high (z ∷ x ∷ []) h b p e = absurd (ground (arith, p))
hex-Reads ulong_max low high (z ∷ x ∷ c ∷ s) h b p e = elim (Option-cases (hex_loop 0 (c ∷ s))) [
  | inl bad ↦ absurd (ground (arith, e, bad))
  | inr (v, good) ↦
      let zero_there : z ≡ b'0' = ground (arith, p) in
      let x_there : x ≡ b'x' = ground (arith, p) in
      let le : v ≤ high = ground (arith, e, good) in
      let starts = hex_loop-StartsHex 0 c s b.1.1.0 good in
      let value : strtoul ulong_max 16 (z ∷ x ∷ c ∷ s) ≡ (v, []) =
        rw (zero_there, x_there)
          (hex-strtoul ulong_max c s b.1.1 starts good (clamped ulong_max high v h le)) in
      ((omega arith, omega arith), (v, le, value))
]

uint-Reads :
    (ulong_max low high : ℕ) (s : Bytes) (hex : Bool)
    → high ≤ ulong_max
    → IsBytes s
    → is_valid_uint s hex low high ≡ true
    → StartsDecimal s × Reads ulong_max (if hex && has_hex_prefix s then 16 else 10) high s
unfolding is_valid_uint
uint-Reads ulong_max low high [] hex h b e = absurd (ground (arith, e))
uint-Reads ulong_max low high (c ∷ s) hex h b e =
    elim (Bool-cases (hex && has_hex_prefix (c ∷ s))) [
      | inl p ↦
          rw p (hex-Reads ulong_max low high (c ∷ s) h b (ground (arith, p)) (ground (arith, e, p)))
      | inr p ↦ rw p (decimal-Reads ulong_max low high c s h (ground (arith, e, p)))
    ]

case_eq_off : (s : Bytes) → is_same s (codes "off") ≡ true → case_eq s (codes "off") ≡ true
case_eq_off s e = rw (is_same-eq s (codes "off") e) (unfold case_eq in refl)

-- A value that is accepted and is not `off` is a number.
number_there :
    (s : Bytes) (good : Bool)
    → (if is_same s (codes "off") then true else good) ≡ true
    → case_eq s (codes "off") ≡ false
    → good ≡ true
number_there s good e number = ground (arith, e, number, case_eq_off s)

module _ (sys : System) where
  -- What the highlighter accepts as a keepalive, `parse_persistent_keepalive` stores in a peer, as a
  -- number of 16 bits.
  pub is_valid_persistentkeepalive-parses :
      (s : Bytes) (p : WgPeer)
      → 65535 ≤ sys.ulong_max
      → IsBytes s
      → is_valid_persistentkeepalive s ≡ true
      → (n : ℕ) × (n ≤ 65535) × (parse_persistent_keepalive sys s p ≡ ok (set_keepalive n p))
  unfolding is_valid_persistentkeepalive parse_persistent_keepalive
  is_valid_persistentkeepalive-parses s p h b e = elim (Bool-cases (case_eq s (codes "off"))) [
    | inl off ↦ (0, omega arith, rw off)
    | inr number ↦
        let (starts, (n, le, value)) =
          uint-Reads sys.ulong_max 0 65535 s false h b (number_there s _ e number) in
        let within_bound : ltb 65535 n ≡ false = ground arith in
        (n, le, rw (number, decimal_starts sys s starts, value, within_bound))
  ]

  -- What the highlighter accepts as a firewall mark, decimal or with `0x` in front, `parse_fwmark`
  -- stores in the device, where `unsigned long` has at least 32 bits.
  pub is_valid_fwmark-parses :
      (s : Bytes) (d : WgDevice)
      → 2 ^ 32 - 1 ≤ sys.ulong_max
      → IsBytes s
      → is_valid_fwmark s ≡ true
      → (n : ℕ) × (n < 2 ^ 32) × (parse_fwmark sys s d ≡ ok (set_fwmark n d))
  unfolding is_valid_fwmark parse_fwmark
  is_valid_fwmark-parses s d h b e = elim (Bool-cases (case_eq s (codes "off"))) [
    | inl off ↦ (0, omega arith, rw off)
    | inr number ↦
        let (starts, (n, le, value)) =
          uint-Reads sys.ulong_max 0 4294967295 s true h b (number_there s _ e number) in
        let within_bound : ltb (2 ^ 32 - 1) n ≡ false = ground arith in
        (
          n,
          omega arith,
          rw (number, decimal_starts sys s starts, value, within_bound, u32_small n le),
        )
  ]
