-- ===== src/Prelude/Word.antt =====
-- Machine words as natural numbers: a 32-bit value is its bit pattern, signed or not.
use Prim.Native.Nat.{ℕ, ◌+◌, ◌-◌, ◌*◌, ◌/◌, ◌%◌, ◌^◌}
use mathlib.Core.Bool.{Bool, ◌&&◌}
use special_potato.Prelude.Tests.{ltb, leb, if◌then◌else◌}

abbrev pub u8 : ℕ → ℕ
u8 n = n % 2 ^ 8

abbrev pub u32 : ℕ → ℕ
u32 n = n % 2 ^ 32

abbrev pub add32 : ℕ → ℕ → ℕ
add32 a b = (a + b) % 2 ^ 32

-- `-` on ℕ stops at 0, so the modulus is added first.
abbrev pub sub32 : ℕ → ℕ → ℕ
sub32 a b = (a + 2 ^ 32 - b) % 2 ^ 32

abbrev pub shl32 : ℕ → ℕ → ℕ
shl32 a k = a * 2 ^ k % 2 ^ 32

-- `>>` of an unsigned value.
abbrev pub shr : ℕ → ℕ → ℕ
shr a k = a / 2 ^ k

-- `>>` of an `int`: the sign bit is copied in from the left.
abbrev pub sar32 : ℕ → ℕ → ℕ
sar32 a k = if ltb a (2 ^ 31) then a / 2 ^ k else a / 2 ^ k + (2 ^ 32 - 2 ^ (32 - k))

abbrev pub not32 : ℕ → ℕ
not32 a = 2 ^ 32 - 1 - a

-- The promotion of a `char` to `int`. Whether `char` is signed is the platform's choice.
abbrev pub char_to_int : Bool → ℕ → ℕ
char_to_int signed c = if signed && leb 128 c then c + (2 ^ 32 - 256) else c
