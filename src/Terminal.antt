-- ===== src/Terminal.antt =====
-- terminal.c: `color_mode` and `filter_ansi`.
pub mod Laws
use special_potato.Prelude.{
  ℕ, Bool, true, false, ◌&&◌, List, [], ◌∷◌, Bytes, Option, none, some, codes, ◌==◌, if◌then◌else◌,
  char_to_int,
}
use special_potato.Ctype.{char_is_alpha}
use special_potato.Libc.{str_eq}

-- By `WG_COLOR_MODE`, or else whether the output is a terminal.
unfoldable pub color_mode : Option Bytes → Bool → Bool
color_mode none is_tty = is_tty
color_mode (some var) is_tty =
    if str_eq var (codes "always")
    then true
    else if str_eq var (codes "never")
    then false
    else is_tty

-- Where the first loop stands: in plain text, at the bracket behind an escape, or in a sequence.
pub data Place : Type 0 where
  text bracket sequence : Place

-- `[` and at least one more character.
abbrev opens : Bytes → Bool
opens [] = false
opens (c ∷ []) = false
opens (c ∷ d ∷ s) = c == b'['

module _ (char_signed : Bool) where
  abbrev pub is_alpha : ℕ → Bool
  is_alpha c = char_is_alpha (char_to_int char_signed c)

  -- What is left when the erased characters are skipped.
  unfoldable pub filter_from : Place → Bytes → Bytes
  filter_from place [] = []
  filter_from text (c ∷ s) =
      let erased = filter_from bracket s in
      let kept = filter_from text s in if c == 0x1b && opens s then erased else c ∷ kept
  filter_from bracket (c ∷ s) = filter_from sequence s
  filter_from sequence (c ∷ s) =
      let ended = filter_from text s in
      let inside = filter_from sequence s in if is_alpha c then ended else inside

  unfoldable pub filter_ansi : Bool → Bytes → Bytes
  filter_ansi color str = if color then str else filter_from text str
