-- ===== src/Highlighter/Host/Digits.antt =====
-- One part of an IPv4 address: what the loop over its digits reads.
use special_potato.Prelude.{
  ℕ, zero, suc, ◌+◌, ◌-◌, ◌*◌, ◌/◌, ◌%◌, ◌≤◌, ◌<◌, ◌==◌, if◌then◌else◌, Bool, true, false, not,
  ◌&&◌, ◌||◌, List, [], ◌∷◌, ◌++◌, Bytes, ◌≡◌, ◌↔◌, refl, sym, ap, ◌∙◌, arith, length, leb, ltb,
  All, Bool-cases, ==_iff, inl, inr, ◌⊎◌,
}
use special_potato.Prelude.Table.{all_below_sound}
use special_potato.Libc.Printf.{print_u}
use special_potato.Libc.Digits.{IsDigit}
use special_potato.Config.Number.{is_empty}
use special_potato.Highlighter.Classes.{is_decimal, is_same}
use special_potato.Highlighter.Value.Number.{is_same-eq}
use special_potato.Highlighter.Host.{Octet, octet_loop, char_at, behind, ipv4_loop}

abbrev value_of : ℕ → Bytes → ℕ
value_of val [] = val
value_of val (c ∷ s) = value_of (10 * val + (c - b'0')) s

is_decimal_iff : (c : ℕ) → (is_decimal c ≡ true) ↔ IsDigit c
unfolding is_decimal
is_decimal_iff c = ground arith

-- What the loop over an octet reads: some digits in front.
record Splits (n count val : ℕ) (s : Bytes) (o : Octet) : Type 0 where
  digits : Bytes
  all : All IsDigit digits
  short : length digits ≤ n
  counted : o.count ≡ count + length digits
  value : o.value ≡ value_of val digits
  parts : s ≡ digits ++ o.rest

octet_loop-Splits : (n count val : ℕ) (s : Bytes) → Splits n count val s (octet_loop n count val s)
unfolding octet_loop
octet_loop-Splits (suc n) count val (c ∷ s) = elim (Bool-cases (is_decimal c)) [
  | inl d ↦ rw d (
      let more = octet_loop-Splits n (count + 1) (10 * val + (c - b'0')) s in
      record {
        digits = c ∷ more.digits;
        all = ((is_decimal_iff c).0 d, more.all);
        short = omega (arith, more.short);
        counted = omega (arith, more.counted);
        value = more.value;
        parts = ap (◌∷◌ c) more.parts;
      })
  | inr d ↦ rw d (record {
    digits = [];
    all = tt;
    short = omega arith;
    counted = omega arith;
    value = refl;
    parts = refl;
  })
]
octet_loop-Splits (suc n) count val [] = record {
  digits = [];
  all = tt;
  short = omega arith;
  counted = omega arith;
  value = refl;
  parts = refl;
}
octet_loop-Splits zero count val s = record {
  digits = [];
  all = tt;
  short = omega arith;
  counted = omega arith;
  value = refl;
  parts = refl;
}

-- Digits in front of no digit are read whole.
abbrev Stops : Bytes → Type 0
Stops [] = Unit
Stops (c ∷ s) = is_decimal c ≡ false

octet_stop :
    (n count val : ℕ) (rest : Bytes)
    → Stops rest
    → octet_loop n count val rest ≡ record { count = count; value = val; rest = rest }
unfolding octet_loop
octet_stop zero count val rest h = refl
octet_stop (suc n) count val [] h = refl
octet_stop (suc n) count val (c ∷ s) h = rw h

octet_loop-digits :
    (n count val : ℕ) (digits rest : Bytes)
    → All IsDigit digits
    → length digits ≤ n
    → Stops rest
    → octet_loop n count val (digits ++ rest)
      ≡ record { count = count + length digits; value = value_of val digits; rest = rest }
unfolding octet_loop
octet_loop-digits n count val [] rest a le h =
    octet_stop n count val rest h
    ∙ ap (λ (k : ℕ). record { count = k; value = val; rest = rest }) (omega arith)
octet_loop-digits zero count val (c ∷ digits) rest a le h = absurd (omega arith)
octet_loop-digits (suc n) count val (c ∷ digits) rest a le h = rw ((is_decimal_iff c).1 a.0) (
    octet_loop-digits n (count + 1) (10 * val + (c - b'0')) digits rest a.1 (omega arith) h
    ∙ ap
        (λ (k : ℕ). record {
          count = k;
          value = value_of (10 * val + (c - b'0')) digits;
          rest = rest;
        })
        (omega arith))

-- The decimal of a byte.
abbrev octet_text : ℕ → Bytes
octet_text v =
    if ltb v 10
    then (v + b'0') ∷ []
    else if ltb v 100
    then (v / 10 + b'0') ∷ (v % 10 + b'0') ∷ []
    else (v / 100 + b'0') ∷ (v / 10 % 10 + b'0') ∷ (v % 10 + b'0') ∷ []

print_u-octet_text : (v : ℕ) → v < 256 → print_u v ≡ octet_text v
unfolding special_potato.Libc.Printf.digits_onto special_potato.Libc.Printf.digit_char
print_u-octet_text v h = is_same-eq (print_u v) (octet_text v) (
    all_below_sound 256 (λ x. is_same (print_u x) (octet_text x))
      (unfold special_potato.Prelude.Table.all_below is_same print_u in refl) v h)

abbrev NoLeadingZero : Bytes → Type 0
NoLeadingZero (c ∷ d ∷ s) = b'0' < c
NoLeadingZero _ = Unit

one_digit : (v a : ℕ) → v < 10 → v + b'0' ≡ a → octet_text v ≡ a ∷ []
one_digit v a h e = let test : ltb v 10 ≡ true = ground arith in rw test (ap (λ (x : ℕ). x ∷ []) e)

two_digits :
    (v a b : ℕ)
    → 10 ≤ v
    → v < 100
    → v / 10 + b'0' ≡ a
    → v % 10 + b'0' ≡ b
    → octet_text v ≡ a ∷ b ∷ []
two_digits v a b low high e f =
    let test : ltb v 10 ≡ false = ground arith in
    let test' : ltb v 100 ≡ true = ground arith in rw (test, test') (cc (e, f))

three_digits :
    (v a b c : ℕ)
    → 100 ≤ v
    → v / 100 + b'0' ≡ a
    → v / 10 % 10 + b'0' ≡ b
    → v % 10 + b'0' ≡ c
    → octet_text v ≡ a ∷ b ∷ c ∷ []
three_digits v a b c low e f g =
    let test : ltb v 10 ≡ false = ground arith in
    let test' : ltb v 100 ≡ false = ground arith in rw (test, test') (cc (e, f, g))

digits_text :
    (digits : Bytes)
    → All IsDigit digits
    → 0 < length digits
    → length digits ≤ 3
    → value_of 0 digits ≤ 255
    → NoLeadingZero digits
    → digits ≡ octet_text (value_of 0 digits)
digits_text [] a some_there le small h = absurd (omega arith)
digits_text (x ∷ []) a some_there le small h =
    sym (one_digit (value_of 0 (x ∷ [])) x (omega (arith, a)) (omega (arith, a)))
digits_text (x ∷ y ∷ []) a some_there le small h = sym (
    two_digits (value_of 0 (x ∷ y ∷ [])) x y (omega (arith, a, h)) (omega (arith, a))
      (omega (arith, a)) (omega (arith, a)))
digits_text (x ∷ y ∷ z ∷ []) a some_there le small h = sym (
    three_digits (value_of 0 (x ∷ y ∷ z ∷ [])) x y z (omega (arith, a, h)) (omega (arith, a))
      (omega (arith, a)) (omega (arith, a)))
digits_text (x ∷ y ∷ z ∷ w ∷ s) a some_there le small h = absurd (omega arith)

record OctetText (v : ℕ) (s : Bytes) : Type 0 where
  first : ℕ
  more : Bytes
  same : s ≡ first ∷ more
  all : All IsDigit (first ∷ more)
  short : length (first ∷ more) ≤ 3
  value : value_of 0 (first ∷ more) ≡ v
  leading : NoLeadingZero (first ∷ more)

octet_text-OctetText : (v : ℕ) → v < 256 → OctetText v (octet_text v)
octet_text-OctetText v h = elim (Bool-cases (ltb v 10)) [
  | inl small ↦ rw small (record {
    first = v + b'0';
    more = [];
    same = refl;
    all = (ground (arith, small), tt);
    short = omega arith;
    value = omega arith;
    leading = tt;
  })
  | inr large ↦ elim (Bool-cases (ltb v 100)) [
    | inl small ↦
        rw (large, small)
          (record {
            first = v / 10 + b'0';
            more = (v % 10 + b'0') ∷ [];
            same = refl;
            all = (ground (arith, small), (ground arith, tt));
            short = omega arith;
            value = omega arith;
            leading = ground (arith, large);
          })
    | inr huge ↦
        rw (large, huge)
          (record {
            first = v / 100 + b'0';
            more = (v / 10 % 10 + b'0') ∷ (v % 10 + b'0') ∷ [];
            same = refl;
            all = (ground (arith, h), (ground arith, (ground arith, tt)));
            short = omega arith;
            value = omega arith;
            leading = ground (arith, huge);
          })
  ]
]

-- The test that ends the loop without success.
abbrev pub is_bad : ℕ → ℕ → ℕ → Bool
is_bad count value c = count == 0 || (ltb 1 count && c == b'0') || ltb 255 value

is_bad-good :
    (c : ℕ) (s : Bytes) (v : ℕ)
    → NoLeadingZero (c ∷ s)
    → v < 256
    → is_bad (0 + length (c ∷ s)) v c ≡ false
is_bad-good c [] v h lt = ground arith
is_bad-good c (d ∷ s) v h lt = ground arith

good-NoLeadingZero :
    (c : ℕ) (s : Bytes) (v : ℕ)
    → IsDigit c
    → is_bad (0 + length (c ∷ s)) v c ≡ false
    → NoLeadingZero (c ∷ s)
good-NoLeadingZero c [] v h e = tt
good-NoLeadingZero c (d ∷ s) v h e = ground (arith, e)

-- What stops the loop and what goes on.
abbrev pub next_octets : ℕ → Bytes → ℕ → Bool
next_octets n rest next =
    if is_empty rest && n == 0
    then true
    else if not (char_at rest next == b'.')
    then false
    else ipv4_loop n (behind rest) next

-- A round that reads the decimal of a byte.
pub octet_step :
    (n v : ℕ) (rest : Bytes) (next : ℕ)
    → v < 256
    → Stops rest
    → ipv4_loop (suc n) (print_u v ++ rest) next ≡ next_octets n rest next
unfolding ipv4_loop
octet_step n v rest next h stops =
    let t = octet_text-OctetText v h in
    let same : print_u v ≡ t.first ∷ t.more = print_u-octet_text v h ∙ t.same in
    let read = octet_loop-digits 3 0 0 (t.first ∷ t.more) rest t.all t.short stops in
    let good = is_bad-good t.first t.more v t.leading h in rw same (rw (read, t.value) (rw good))

read_text :
    (c : ℕ) (s digits rest : Bytes)
    → c ∷ s ≡ digits ++ rest
    → All IsDigit digits
    → length digits ≤ 3
    → is_bad (0 + length digits) (value_of 0 digits) c ≡ false
    → (v : ℕ) × (v < 256) × (c ∷ s ≡ print_u v ++ rest)
read_text c s [] rest e a le good = absurd (ground (arith, good))
read_text c s (d ∷ digits) rest e a le good =
    let first : c ≡ d = cc in
    let good' = rw first at good in
    let v = value_of 0 (d ∷ digits) in
    let small : v < 256 = ground (arith, good) in
    let text =
      digits_text (d ∷ digits) a (omega arith) le (omega arith)
        (good-NoLeadingZero d digits v a.0 good') in
    (v, small, e ∙ ap (λ (l : Bytes). l ++ rest) (text ∙ sym (print_u-octet_text v small)))

-- A round that does not fail has read the decimal of a byte.
pub octet_read :
    (c : ℕ) (s : Bytes)
    → let o = octet_loop 3 0 0 (c ∷ s) in
      is_bad o.count o.value c ≡ false → (v : ℕ) × (v < 256) × (c ∷ s ≡ print_u v ++ o.rest)
octet_read c s good =
    let sp = octet_loop-Splits 3 0 0 (c ∷ s) in
    read_text c s sp.digits _ sp.parts sp.all sp.short (rw (sp.counted, sp.value) at good)
