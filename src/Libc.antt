-- ===== src/Libc.antt =====
-- The functions of the C library that the tools call on strings, in the C locale. A string is the
-- list of its bytes before the terminator.
pub mod Strtoul
pub mod Printf
pub mod Digits
use special_potato.Prelude.{
  ℕ, zero, suc, ◌+◌, ◌-◌, ◌*◌, ◌≤◌, ◌<◌, Bool, true, false, not, ◌&&◌, ◌||◌, List, [], ◌∷◌, ◌++◌,
  Bytes, Option, none, some, leb, ltb, ◌==◌, if◌then◌else◌, length,
}

unfoldable pub to_lower : ℕ → ℕ
to_lower c = if leb b'A' c && leb c b'Z' then c + 32 else c

-- `!strcmp(s, t)`.
unfoldable pub str_eq : Bytes → Bytes → Bool
str_eq [] [] = true
str_eq (c ∷ s) (d ∷ t) = c == d && str_eq s t
str_eq _ _ = false

-- `!strcasecmp(s, t)`.
unfoldable pub case_eq : Bytes → Bytes → Bool
unfolding to_lower
case_eq [] [] = true
case_eq (c ∷ s) (d ∷ t) = to_lower c == to_lower d && case_eq s t
case_eq _ _ = false

-- `!strncasecmp(s, t, n)`.
unfoldable pub case_eq_n : ℕ → Bytes → Bytes → Bool
unfolding to_lower
case_eq_n zero s t = true
case_eq_n (suc n) (c ∷ s) (d ∷ t) = to_lower c == to_lower d && case_eq_n n s t
case_eq_n (suc n) [] [] = true
case_eq_n (suc n) _ _ = false

-- `strchr(s, c)`: what stands before the first `c` and after it.
unfoldable pub split_first : ℕ → Bytes → Option (Bytes × Bytes)
split_first c [] = none
split_first c (d ∷ s) =
    let rest = split_first c s in
    if d == c then some ([], s) else elim rest [ none ↦ none | some (a, b) ↦ some (d ∷ a, b) ]

-- `strrchr(s, c)`.
unfoldable pub split_last : ℕ → Bytes → Option (Bytes × Bytes)
split_last c [] = none
split_last c (d ∷ s) = elim (split_last c s) [
  | some (a, b) ↦ some (d ∷ a, b)
  | none ↦ if d == c then some ([], s) else none
]

abbrev into_first : ℕ → List Bytes → List Bytes
into_first d [] = (d ∷ []) ∷ []
into_first d (piece ∷ pieces) = (d ∷ piece) ∷ pieces

-- `strsep` called until the string is used up: the pieces between the separators.
unfoldable pub split_on : ℕ → Bytes → List Bytes
split_on c [] = [] ∷ []
split_on c (d ∷ s) = if d == c then [] ∷ split_on c s else into_first d (split_on c s)
