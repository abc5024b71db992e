-- ===== src/Setconf/Order.antt =====
-- The order of `pubkey_cmp` on keys of one length, as an order of numbers.
use special_potato.Prelude.{
  ℕ, ◌+◌, ◌*◌, ◌≤◌, ◌<◌, ◌==◌, if◌then◌else◌, Bool, true, false, not, ◌&&◌, [], ◌∷◌, ◌≡◌, ◌↔◌, refl,
  ap, ◌∙◌, sym, arith, Bytes, IsBytes, length, ltb, ltb_iff, ==_iff, Bool-cases, inl, inr, ◌⊎◌,
}
use native.Mathlib.Nat.{mul-le-mul_right}
use special_potato.Encoding.{IsKey}
use special_potato.Libc.{str_eq}
use special_potato.Setconf.{PubkeyOrigin, key_lt, pubkey_lt}

-- How many strings have this length.
abbrev room : Bytes → ℕ
room [] = 1
room (a ∷ s) = 256 * room s

-- The number with these bytes.
abbrev pub key_number : Bytes → ℕ
key_number [] = 0
key_number (a ∷ s) = a * room s + key_number s

room-length : (s t : Bytes) → length s ≡ length t → room s ≡ room t
room-length [] [] e = refl
room-length (a ∷ s) (b ∷ t) e = ap (λ (n : ℕ). 256 * n) (room-length s t (omega (arith, e)))
room-length [] (b ∷ t) e = absurd (omega (arith, e))
room-length (a ∷ s) [] e = absurd (omega (arith, e))

key_number-lt : (s : Bytes) → IsBytes s → key_number s < room s
key_number-lt [] h = omega arith
key_number-lt (a ∷ s) h = omega (arith, key_number-lt s h.1, mul-le-mul_right (room s) h.0)

first_decides : (a b p v w : ℕ) → v < p → a < b → a * p + v < b * p + w
first_decides a b p v w pv lt = omega (arith, mul-le-mul_right p lt)

pub tell : (a b : ℕ) → (a < b) ⊎ ((a ≡ b) ⊎ (b < a))
tell a b = omega arith

pub key_lt_iff :
    (s t : Bytes)
    → IsBytes s
    → IsBytes t
    → length s ≡ length t
    → (key_lt s t ≡ true) ↔ (key_number s < key_number t)
unfolding key_lt
key_lt_iff [] [] hs ht e = (λ h. cc, λ h. absurd (omega arith))
key_lt_iff [] (b ∷ t) hs ht e = absurd (omega (arith, e))
key_lt_iff (a ∷ s) [] hs ht e = absurd (omega (arith, e))
key_lt_iff (a ∷ s) (b ∷ t) hs ht e =
    let rest = key_lt_iff s t hs.1 ht.1 (omega (arith, e)) in
    let same : room s ≡ room t = room-length s t (omega (arith, e)) in
    let small = key_number-lt s hs.1 in
    let small' = rw (sym same) at (key_number-lt t ht.1) in
    elim (tell a b) [
      | inl lt ↦
          let test : ltb a b ≡ true = (ltb_iff a b).1 lt in
          rw (test, sym same)
            (λ h. first_decides a b (room s) (key_number s) (key_number t) small lt, λ h. refl)
      | inr (inl eq) ↦
          let test : ltb b b ≡ false = ground arith in
          let test' : (b == b) ≡ true = (==_iff b b).1 refl in
          rw (eq, test, test', sym same)
            (λ h. omega (arith, rest.0 h), λ h. rest.1 (omega (arith, h)))
      | inr (inr gt) ↦
          let test : ltb a b ≡ false = ground arith in
          let test' : (a == b) ≡ false = ground arith in
          let more = first_decides b a (room s) (key_number t) (key_number s) small' gt in
          rw (test, test', sym same) (λ h. cc, λ h. absurd (omega (arith, h, more)))
    ]

pub key_number-injective :
    (s t : Bytes)
    → IsBytes s
    → IsBytes t
    → length s ≡ length t
    → key_number s ≡ key_number t
    → s ≡ t
key_number-injective [] [] hs ht e eq = refl
key_number-injective [] (b ∷ t) hs ht e eq = absurd (omega (arith, e))
key_number-injective (a ∷ s) [] hs ht e eq = absurd (omega (arith, e))
key_number-injective (a ∷ s) (b ∷ t) hs ht e eq =
    let same : room s ≡ room t = room-length s t (omega (arith, e)) in
    let small = key_number-lt s hs.1 in
    let small' = rw (sym same) at (key_number-lt t ht.1) in
    let eq' : a * room s + key_number s ≡ b * room s + key_number t = rw (sym same) at eq in
    elim (tell a b) [
      | inl lt ↦
          absurd
            (omega (arith, eq', first_decides a b (room s) (key_number s) (key_number t) small lt))
      | inr (inr gt) ↦
          absurd
            (omega (arith, eq', first_decides b a (room s) (key_number t) (key_number s) small' gt))
      | inr (inl first) ↦
          let eq'' = rw first at eq' in
          let rest = key_number-injective s t hs.1 ht.1 (omega (arith, e)) (omega (arith, eq'')) in
          cc (first, rest)
    ]

pub str_eq_iff : (s t : Bytes) → (str_eq s t ≡ true) ↔ (s ≡ t)
unfolding str_eq
str_eq_iff [] [] = (λ h. refl, λ h. refl)
str_eq_iff [] (b ∷ t) = (λ h. cc, λ h. cc)
str_eq_iff (a ∷ s) [] = (λ h. cc, λ h. cc)
str_eq_iff (a ∷ s) (b ∷ t) =
    let rest = str_eq_iff s t in
    let first = ==_iff a b in
    (
      λ h.
          let p : a ≡ b = first.0 (ground (arith, h)) in
          let q : s ≡ t = rest.0 (ground (arith, h)) in cc (p, q),
      λ h. let p : a ≡ b = cc in let q : s ≡ t = cc in rw (first.1 p, rest.1 q),
    )

-- The place of an entry in the order: one key's entry from the file is behind the other one.
abbrev pub code : PubkeyOrigin → ℕ
code a = 2 * key_number a.pubkey + (if a.from_file then 1 else 0)

pub flag-le : (x : Bool) → (if x then 1 else 0) ≤ 1
flag-le true = omega arith
flag-le false = omega arith

flags_iff :
    (n : ℕ) (x y : Bool)
    → ((not x && y) ≡ true) ↔ (2 * n + (if x then 1 else 0) < 2 * n + (if y then 1 else 0))
flags_iff n true true = (λ h. cc, λ h. absurd (omega (arith, h)))
flags_iff n true false = (λ h. cc, λ h. absurd (omega (arith, h)))
flags_iff n false true = (λ h. omega arith, λ h. refl)
flags_iff n false false = (λ h. cc, λ h. absurd (omega (arith, h)))

pub pubkey_lt_iff :
    (a b : PubkeyOrigin)
    → IsKey a.pubkey
    → IsKey b.pubkey
    → (pubkey_lt a b ≡ true) ↔ (code a < code b)
unfolding pubkey_lt
pubkey_lt_iff a b ha hb =
    let len : length a.pubkey ≡ length b.pubkey = omega (arith, ha, hb) in
    let less = key_lt_iff a.pubkey b.pubkey ha.1 hb.1 len in
    let same = str_eq_iff a.pubkey b.pubkey in
    let whole = key_number-injective a.pubkey b.pubkey ha.1 hb.1 len in
    elim (Bool-cases (key_lt a.pubkey b.pubkey)) [
      | inl lt ↦ rw lt (λ h. omega (arith, less.0 lt, flag-le a.from_file), λ h. refl)
      | inr ge ↦ elim (Bool-cases (str_eq a.pubkey b.pubkey)) [
        | inl eq ↦ rw (ge, eq, same.0 eq) (flags_iff (key_number b.pubkey) a.from_file b.from_file)
        | inr ne ↦
            rw (ge, ne)
              (
                λ h. cc,
                λ h. elim (tell (key_number a.pubkey) (key_number b.pubkey)) [
                  | inl lt ↦ sym ge ∙ less.1 lt
                  | inr (inl eq) ↦ sym ne ∙ same.1 (whole eq)
                  | inr (inr gt) ↦ absurd (omega (arith, gt, h, flag-le b.from_file))
                ],
              )
      ]
    ]
