-- ===== src/KeyCommand/Accepted.antt =====
-- What `pubkey_main` accepts.
use special_potato.Prelude.{
  ℕ, ◌<◌, ◌≢◌, ◌≡◌, ◌↔◌, refl, sym, ap, ◌∙◌, zero, suc, Bool, true, false, [], ◌∷◌, ◌++◌, ◌⊎◌, ◌||◌,
  Bytes, IsBytes, codes, ◌==◌, ==_iff, length, take, drop, All, arith, Bool-cases, inl, inr,
}
use special_potato.Prelude.Lists.{take-IsBytes}
use special_potato.Outcome.{ok, ok-injective}
use special_potato.Ctype.{char_is_space}
use special_potato.Ctype.Laws.{is_white, char_is_space-is_white}
use special_potato.Encoding.{IsKey, key_to_base64, key_from_base64}
use special_potato.Encoding.Base64.{alphabet}
use special_potato.Encoding.Base64.Chars.{chars_of_key}
use special_potato.Encoding.Base64.RoundTrip.{
  key_from_base64_iff, key_from_base64-key_to_base64, key_from_base64-cases,
}
use special_potato.Config.KeyValue.{c_string}
use special_potato.Config.Command.Safe.{c_string-IsBytes}
use special_potato.KeyCommand.{only_space, print_public, pubkey_main}

alphabet-ne : (n : ℕ) → n < 64 → alphabet n ≢ 0
unfolding alphabet
alphabet-ne n h = ground arith

c_string-whole : (s : Bytes) → All (λ c. c ≢ 0) s → c_string s ≡ s
unfolding c_string
c_string-whole [] h = refl
c_string-whole (c ∷ s) h =
    let test : (c == 0) ≡ false = ground (arith, h.0) in rw (test, c_string-whole s h.1) refl

-- A text that the terminator does not cut is whole.
c_string-length : (s : Bytes) → length (c_string s) ≡ length s → c_string s ≡ s
unfolding c_string
c_string-length [] e = refl
c_string-length (c ∷ s) e = elim (Bool-cases (c == 0)) [
  | inl z ↦ (let short = rw (z, c_string) at e in absurd (omega (arith, short)))
  | inr z ↦
      let long = rw (z, c_string) at e in
      rw z (ap (λ (t : Bytes). c ∷ t) (c_string-length s (omega (arith, long))))
]

take-drop : (n : ℕ) (s : Bytes) → take n s ++ drop n s ≡ s
take-drop zero s = refl
take-drop (suc n) [] = refl
take-drop (suc n) (c ∷ s) = ap (λ (t : Bytes). c ∷ t) (take-drop n s)

take-length : (a b : Bytes) → take (length a) (a ++ b) ≡ a
take-length [] b = refl
take-length (c ∷ a) b = ap (λ (t : Bytes). c ∷ t) (take-length a b)

drop-length : (a b : Bytes) → drop (length a) (a ++ b) ≡ b
drop-length [] b = refl
drop-length (c ∷ a) b = drop-length a b

text-NonZero : (key : Bytes) → All (λ c. c ≢ 0) (key_to_base64 key)
text-NonZero key = chars_of_key (λ c. c ≢ 0) alphabet-ne (omega arith) key

length-text : (key : Bytes) → IsKey key → length (key_to_base64 key) ≡ 44
length-text key k =
    (key_from_base64-cases true key (key_to_base64 key) key
      (key_from_base64-key_to_base64 true key key k)).0

drop-IsBytes : (n : ℕ) (s : Bytes) → IsBytes s → IsBytes (drop n s)
drop-IsBytes zero s h = h
drop-IsBytes (suc n) [] h = tt
drop-IsBytes (suc n) (c ∷ s) h = drop-IsBytes n s h.1

-- A zero byte, a tab to a carriage return, or a space.
abbrev pub IsSkipped : ℕ → Type 0
IsSkipped c = (c ≡ 0) ⊎ (is_white c ≡ true)

passed-IsSkipped : (c : ℕ) → c < 256 → (c == 0 || char_is_space c) ≡ true → IsSkipped c
passed-IsSkipped c lt e = elim (Bool-cases (c == 0)) [
  | inl z ↦ inl ((==_iff c 0).0 z)
  | inr z ↦ inr (sym (char_is_space-is_white false c lt) ∙ rw z at e)
]

IsSkipped-passed : (c : ℕ) → c < 256 → IsSkipped c → (c == 0 || char_is_space c) ≡ true
IsSkipped-passed c lt (inl z) = rw z refl
IsSkipped-passed c lt (inr w) = elim (Bool-cases (c == 0)) [
  | inl z ↦ rw z refl
  | inr z ↦ rw z (char_is_space-is_white false c lt ∙ w)
]

only_space-IsSkipped : (s : Bytes) → IsBytes s → only_space s ≡ true → All IsSkipped s
unfolding only_space
only_space-IsSkipped [] h e = tt
only_space-IsSkipped (c ∷ s) h e = elim (Bool-cases (c == 0 || char_is_space c)) [
  | inl t ↦ (passed-IsSkipped c h.0 t, only_space-IsSkipped s h.1 (rw t at e))
  | inr f ↦ (let wrong = rw f at e in cc)
]

IsSkipped-lt : (c : ℕ) → IsSkipped c → c < 256
IsSkipped-lt c h = ground arith

IsSkipped-only_space : (s : Bytes) → All IsSkipped s → only_space s ≡ true
unfolding only_space
IsSkipped-only_space [] h = refl
IsSkipped-only_space (c ∷ s) h =
    rw (IsSkipped-passed c (IsSkipped-lt c h.0) h.0) (IsSkipped-only_space s h.1)

module _ (char_signed : Bool) (generate_public : Bytes → Bytes) where
  print_public-eq-ok :
      (r : Bool × Bytes) (out : Bytes)
      → print_public char_signed generate_public r ≡ ok out
      → (r ≡ (true, r.1)) × (out ≡ key_to_base64 (generate_public r.1) ++ codes "\n")
  print_public-eq-ok (false, key) out e = cc
  print_public-eq-ok (true, key) out e = (refl, sym (ok-injective e))

  -- What a run that prints got from its input.
  abbrev pub Printed : Bytes → Bytes → Type 0
  Printed input out =
      (key : Bytes) × (trailing : Bytes) × IsKey key
      × (input ≡ key_to_base64 key ++ trailing)
      × All IsSkipped trailing
      × (out ≡ key_to_base64 (generate_public key) ++ codes "\n")

  read_text-Printed :
      (old input out : Bytes)
      → IsBytes input
      → length (take 44 input) ≡ 44
      → only_space (drop 44 input) ≡ true
      → print_public char_signed generate_public
          (key_from_base64 char_signed old (c_string (take 44 input)))
        ≡ ok out
      → Printed input out
  read_text-Printed old input out b len sp e =
      let text = take 44 input in
      let r = key_from_base64 char_signed old (c_string text) in
      let (good, printed) = print_public-eq-ok r out e in
      let (k, same) =
        (key_from_base64_iff char_signed old (c_string text) r.1
            (c_string-IsBytes text (take-IsBytes 44 input b))).0
          good in
      let whole = c_string-length text (ap length same ∙ length-text r.1 k ∙ sym len) in
      (
        r.1,
        drop 44 input,
        k,
        sym (take-drop 44 input) ∙ ap (λ (t : Bytes). t ++ drop 44 input) (sym whole ∙ same),
        only_space-IsSkipped (drop 44 input) (drop-IsBytes 44 input b) sp,
        printed,
      )

  pubkey_main_sound :
      (old command input out : Bytes)
      → IsBytes input
      → pubkey_main char_signed generate_public old (command ∷ []) input ≡ ok out
      → Printed input out
  unfolding pubkey_main
  pubkey_main_sound old command input out b e = elim (Bool-cases (length (take 44 input) == 44)) [
    | inr short ↦ (let wrong = rw short at e in cc)
    | inl len ↦ elim (Bool-cases (only_space (drop 44 input))) [
      | inr other ↦ (let wrong = rw (len, other) at e in cc)
      | inl sp ↦ read_text-Printed old input out b ((==_iff _ 44).0 len) sp (rw (len, sp) at e)
    ]
  ]

  pub pubkey_main-text :
      (old command key trailing : Bytes)
      → IsKey key
      → only_space trailing ≡ true
      → pubkey_main char_signed generate_public old (command ∷ []) (key_to_base64 key ++ trailing)
        ≡ ok (key_to_base64 (generate_public key) ++ codes "\n")
  unfolding pubkey_main
  pubkey_main-text old command key trailing k sp =
      let len = length-text key k in
      let text = rw len at (take-length (key_to_base64 key) trailing) in
      let rest = rw len at (drop-length (key_to_base64 key) trailing) in
      rw
        (
          text,
          rest,
          len,
          sp,
          c_string-whole (key_to_base64 key) (text-NonZero key),
          key_from_base64-key_to_base64 char_signed old key k,
        )
        refl

  -- `pubkey_main` with no further argument prints exactly when its input is the base64 text of a key,
  -- followed by nothing but white space and zero bytes; what it prints is then the text of the public
  -- key of that key and a line break. Whatever stood in the memory of the key, and whether `char` is
  -- signed, makes no difference.
  pub pubkey_main_iff :
      (old command input out : Bytes)
      → IsBytes input
      → (pubkey_main char_signed generate_public old (command ∷ []) input ≡ ok out)
        ↔ Printed input out
  pubkey_main_iff old command input out b = (
    pubkey_main_sound old command input out b,
    λ p. rw (p.3, p.5) (pubkey_main-text old command p.0 p.1 p.2 (IsSkipped-only_space p.1 p.4)),
  )
