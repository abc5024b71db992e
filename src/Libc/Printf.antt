-- ===== src/Libc/Printf.antt =====
-- `printf` of an unsigned number in decimal (`%u`, `%d` of no negative value) and in small
-- hexadecimal digits (`%x`).
use special_potato.Prelude.{ℕ, zero, suc, ◌+◌, ◌-◌, ◌/◌, ◌%◌, [], ◌∷◌, Bytes, ltb, if◌then◌else◌}

unfoldable pub digit_char : ℕ → ℕ
digit_char d = if ltb d 10 then d + b'0' else d - 10 + b'a'

-- The digits of `n` in front of `rest`, the lowest written first. Fuel above `n` is enough.
unfoldable pub digits_onto : ℕ → ℕ → ℕ → Bytes → Bytes
digits_onto base zero n rest = rest
digits_onto base (suc fuel) n rest =
    let more = digits_onto base fuel (n / base) (digit_char (n % base) ∷ rest) in
    if ltb n base then digit_char n ∷ rest else more

unfoldable pub print_u : ℕ → Bytes
print_u n = digits_onto 10 (suc n) n []

unfoldable pub print_x : ℕ → Bytes
print_x n = digits_onto 16 (suc n) n []
