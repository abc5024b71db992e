-- ===== src/Ctype/Laws.antt =====
-- The character classes of ctype.h against plain ranges.
use special_potato.Prelude.{ℕ, ◌<◌, Bool, true, ◌&&◌, ◌||◌, ◌≡◌, refl, leb, ◌==◌, char_to_int}
use special_potato.Prelude.Table.{all_below, agree_Bool_below}
use special_potato.Ctype.{char_is_space, char_is_digit, char_is_alpha}

-- Tab to carriage return, and space.
abbrev pub is_white : ℕ → Bool
is_white c = (leb 9 c && leb c 13) || c == b' '

abbrev pub is_decimal : ℕ → Bool
is_decimal c = leb b'0' c && leb c b'9'

abbrev pub is_letter : ℕ → Bool
is_letter c = (leb b'a' c && leb c b'z') || (leb b'A' c && leb c b'Z')

-- Of a byte, promoted from a signed or an unsigned `char`, `char_is_space` tells whether it is one
-- of the six white-space characters of ASCII.
pub char_is_space-is_white :
    (signed : Bool) (c : ℕ) → c < 256 → char_is_space (char_to_int signed c) ≡ is_white c
unfolding char_is_space all_below
char_is_space-is_white true =
    agree_Bool_below 256 (λ c. char_is_space (char_to_int true c)) is_white refl
char_is_space-is_white signed =
    agree_Bool_below 256 (λ c. char_is_space (char_to_int signed c)) is_white refl

pub char_is_digit-is_decimal :
    (signed : Bool) (c : ℕ) → c < 256 → char_is_digit (char_to_int signed c) ≡ is_decimal c
unfolding char_is_digit all_below
char_is_digit-is_decimal true =
    agree_Bool_below 256 (λ c. char_is_digit (char_to_int true c)) is_decimal refl
char_is_digit-is_decimal signed =
    agree_Bool_below 256 (λ c. char_is_digit (char_to_int signed c)) is_decimal refl

pub char_is_alpha-is_letter :
    (signed : Bool) (c : ℕ) → c < 256 → char_is_alpha (char_to_int signed c) ≡ is_letter c
unfolding char_is_alpha all_below
char_is_alpha-is_letter true =
    agree_Bool_below 256 (λ c. char_is_alpha (char_to_int true c)) is_letter refl
char_is_alpha-is_letter signed =
    agree_Bool_below 256 (λ c. char_is_alpha (char_to_int signed c)) is_letter refl

-- For every character the three classes are those of the C locale, whichever way `char` is
-- promoted to `int`: white space is 9 to 13 and 32, a digit is `0` to `9`, and a letter is `a` to
-- `z` or `A` to `Z`.
pub char_classes :
    (signed : Bool) (c : ℕ)
    → c < 256
    → (char_is_space (char_to_int signed c) ≡ is_white c)
      × (char_is_digit (char_to_int signed c) ≡ is_decimal c)
      × (char_is_alpha (char_to_int signed c) ≡ is_letter c)
char_classes signed c h = (
  char_is_space-is_white signed c h,
  char_is_digit-is_decimal signed c h,
  char_is_alpha-is_letter signed c h,
)
