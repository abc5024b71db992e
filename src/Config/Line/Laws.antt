-- ===== src/Config/Line/Laws.antt =====
-- What the cleaning of a line keeps.
use special_potato.Prelude.{
  ℕ, true, false, ◌&&◌, [], ◌∷◌, Bytes, IsBytes, ◌≡◌, refl, if◌then◌else◌, arith, Bool-cases, inl,
  inr, sym, ◌∙◌, ap,
}
use special_potato.Ctype.Laws.{is_white, char_is_space-is_white}
use special_potato.Config.Number.{is_empty}
use special_potato.Config.Line.{
  before_comment, is_space, strip_spaces, trim_end, clean_step, clean_loop, CleanState,
  clean_special_handshake_line, clean_line, is_awg_special_handshake_key,
}
use special_potato.Config.Line.Safe.{before_comment-IsBytes, trim_end-IsBytes}
use special_potato.Outcome.{System}

-- The characters of a string that are not white space, in their order.
unfoldable pub black : Bytes → Bytes
black [] = []
black (c ∷ s) = let rest = black s in if is_white c then rest else c ∷ rest

empty-nil : (s : Bytes) → is_empty s ≡ true → s ≡ []
empty-nil [] h = refl
empty-nil (c ∷ s) h = cc

black-black : (s : Bytes) → black (black s) ≡ black s
unfolding black
black-black [] = refl
black-black (c ∷ s) = elim (Bool-cases (is_white c)) [
  | inl y ↦ rw y (black-black s)
  | inr n ↦ rw (n, n, black-black s)
]

abbrev start : CleanState
start = record { found_equals = false; found_value_start = false }

module _ (sys : System) where
  clean_step-white :
      (st : CleanState) (c : ℕ)
      → (clean_step sys st c).0 ≡ false
      → is_space sys c ≡ is_white c
      → is_white c ≡ true
  unfolding clean_step
  clean_step-white st c h e = ground arith

  strip_spaces-black : (s : Bytes) → IsBytes s → strip_spaces sys s ≡ black s
  unfolding strip_spaces black
  strip_spaces-black [] h = refl
  strip_spaces-black (c ∷ s) h =
      rw (char_is_space-is_white sys.char_signed c h.0, strip_spaces-black s h.1)

  trim_end-black : (s : Bytes) → IsBytes s → black (trim_end sys s) ≡ black s
  unfolding trim_end black
  trim_end-black [] h = refl
  trim_end-black (c ∷ s) h =
      let ih = trim_end-black s h.1 in
      let e = char_is_space-is_white sys.char_signed c h.0 in
      let blank : (is_empty (trim_end sys s) ≡ true) → trim_end sys s ≡ [] =
        empty-nil (trim_end sys s) in
      elim (Bool-cases (is_empty (trim_end sys s) && is_space sys c)) [
        | inl y ↦
            let none_left = blank (ground (arith, y)) in
            let white : is_white c ≡ true = ground (arith, y, e) in
            rw (y, white) (sym (ap black none_left) ∙ ih)
        | inr n ↦ rw (n, ih)
      ]

  clean_loop-black :
      (st : CleanState) (s : Bytes) → IsBytes s → black (clean_loop sys st s) ≡ black s
  unfolding clean_loop clean_step black
  clean_loop-black st [] h = refl
  clean_loop-black st (c ∷ s) h =
      let ih = clean_loop-black (clean_step sys st c).1 s h.1 in
      let e = char_is_space-is_white sys.char_signed c h.0 in
      elim (Bool-cases (clean_step sys st c).0) [
        | inl y ↦ rw (y, ih)
        | inr n ↦ let white : is_white c ≡ true = clean_step-white st c n e in rw (n, white) ih
      ]

  -- Cleaning a line loses nothing but white space and the comment: what is left has the same other
  -- characters in the same order; and a line that is not of a special handshake key keeps no white
  -- space at all.
  pub clean_line-black :
      (input : Bytes)
      → IsBytes input
      → (black (clean_line sys input) ≡ black (before_comment input))
        × (is_awg_special_handshake_key input ≡ false
            → clean_line sys input ≡ black (before_comment input))
  unfolding clean_line clean_special_handshake_line
  clean_line-black input h =
      let b = before_comment-IsBytes input h in
      let stripped = strip_spaces-black (before_comment input) b in
      elim (Bool-cases (is_awg_special_handshake_key input)) [
        | inl y ↦ (
          rw y (clean_loop-black start _ (trim_end-IsBytes sys _ b) ∙ trim_end-black _ b),
          λ n. cc,
        )
        | inr n ↦
            (rw n (ap black stripped ∙ black-black (before_comment input)), λ n'. rw n stripped)
      ]
