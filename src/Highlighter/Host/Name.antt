-- ===== src/Highlighter/Host/Name.antt =====
-- Which host names the highlighter accepts.
use special_potato.Prelude.{
  ℕ, ◌+◌, ◌-◌, ◌≤◌, ◌<◌, ◌==◌, if◌then◌else◌, Bool, true, false, not, ◌&&◌, ◌||◌, [], ◌∷◌, Bytes,
  ◌≡◌, ◌≢◌, ◌↔◌, arith, length, leb, ltb, All, Bool-cases, inl, inr, ==_iff, refl,
}
use special_potato.Prelude.Table.{agree_Bool_below}
use special_potato.Config.Number.{first_char}
use special_potato.Highlighter.Classes.{is_decimal, is_alphabet}
use special_potato.Highlighter.Host.{last_char, hostname_loop, is_valid_hostname}

-- A letter or a hyphen, and the characters that a name may have.
abbrev is_name_char : ℕ → Bool
is_name_char c = is_alphabet c || c == b'-'

abbrev all_host_chars : Bytes → Bool
all_host_chars [] = true
all_host_chars (c ∷ s) = (is_decimal c || c == b'.' || is_name_char c) && all_host_chars s

abbrev any_name_char : Bytes → Bool
any_name_char [] = false
any_name_char (c ∷ s) = is_name_char c || any_name_char s

abbrev is_edge : ℕ → Bool
is_edge c = not (c == b'-') && not (c == b'.')

digit_table : (c : ℕ) → c < 256 → (is_decimal c && is_alphabet c) ≡ false
unfolding is_decimal is_alphabet special_potato.Prelude.Table.all_below
digit_table = agree_Bool_below 256 (λ c. is_decimal c && is_alphabet c) (λ c. false) refl

digit_lem : (c : ℕ) → is_decimal c ≡ true → is_name_char c ≡ false
digit_lem c e =
    let small : c < 256 = unfold is_decimal in ground (arith, e) in
    let table = digit_table c small in unfold is_decimal in ground (arith, e, table)

dot_lem : (c : ℕ) → (c == b'.') ≡ true → (is_decimal c ≡ false) × (is_name_char c ≡ false)
dot_lem c e =
    let there : c ≡ b'.' = (==_iff c b'.').0 e in
    rw there (unfold is_decimal is_alphabet in (refl, refl))

-- `k` name characters stand in front.
hostname_loop_lem :
    (previous num_digit num_entity k : ℕ) (s : Bytes)
    → num_entity ≡ num_digit + k + length s
    → hostname_loop previous num_digit num_entity s
      ≡ (all_host_chars s && (ltb 0 k || any_name_char s))
unfolding hostname_loop
hostname_loop_lem previous num_digit num_entity k [] e = ground (arith, e)
hostname_loop_lem previous num_digit num_entity k (c ∷ s) e =
    let digit = hostname_loop_lem c (num_digit + 1) num_entity k s (omega (arith, e)) in
    let dot = hostname_loop_lem c num_digit (num_entity - 1) k s (omega (arith, e)) in
    let other = hostname_loop_lem c num_digit num_entity (k + 1) s (omega (arith, e)) in
    elim (Bool-cases (is_decimal c)) [
      | inl d ↦ rw (d, digit_lem c d) digit
      | inr d ↦ elim (Bool-cases (c == b'.')) [
        | inl e ↦ rw (d, e, (dot_lem c e).1) dot
        | inr e ↦ elim (Bool-cases (is_name_char c)) [
          | inl name ↦ ground (arith, d, e, name, other)
          | inr bad ↦ ground (arith, d, e, bad)
        ]
      ]
    ]

-- One to 63 letters, digits, hyphens and dots, with no hyphen and no dot at either end, and with a
-- letter or a hyphen.
abbrev pub is_host_name : Bytes → Bool
is_host_name s =
    leb 1 (length s)
    && leb (length s) 63
    && is_edge (first_char s)
    && is_edge (last_char s)
    && all_host_chars s
    && any_name_char s

-- `is_valid_hostname` accepts exactly the strings of one to 63 letters, digits, hyphens and dots
-- that neither start nor end in a hyphen or a dot and are not made of digits and dots alone. Dots may
-- follow one another.
pub is_valid_hostname_lem : (s : Bytes) → is_valid_hostname s ≡ is_host_name s
unfolding is_valid_hostname
is_valid_hostname_lem [] = refl
is_valid_hostname_lem (c ∷ s) =
    ground (arith, hostname_loop_lem 0 0 (length (c ∷ s)) 0 (c ∷ s) (omega arith))
