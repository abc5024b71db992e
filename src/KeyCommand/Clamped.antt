-- ===== src/KeyCommand/Clamped.antt =====
-- The key that `genkey_main` prints, as `pubkey_main` reads it back.
use special_potato.Prelude.{
  ℕ, ◌+◌, ◌*◌, ◌/◌, ◌%◌, ◌<◌, ◌≡◌, refl, ap, ◌∙◌, zero, suc, Bool, [], ◌∷◌, ◌++◌, Bytes, IsBytes,
  codes, some, length, take, drop, set, bit_and, bit_or, arith,
}
use special_potato.Prelude.Table.{all_below, agree_below}
use special_potato.Outcome.{ok}
use special_potato.Libc.{str_eq}
use special_potato.Ctype.{char_is_space}
use special_potato.Encoding.{IsKey, key_to_base64}
use special_potato.KeyCommand.{
  byte_at, curve25519_clamp_secret, genkey_main, only_space, pubkey_main,
}
use special_potato.KeyCommand.Accepted.{pubkey_main-text}

length-set : (s : Bytes) (i v : ℕ) → length (set s i v) ≡ length s
length-set [] i v = refl
length-set (c ∷ s) zero v = refl
length-set (c ∷ s) (suc i) v = ap suc (length-set s i v)

set-IsBytes : (s : Bytes) (i v : ℕ) → v < 256 → IsBytes s → IsBytes (set s i v)
set-IsBytes [] i v lt h = tt
set-IsBytes (c ∷ s) zero v lt h = (lt, h.1)
set-IsBytes (c ∷ s) (suc i) v lt h = (h.0, set-IsBytes s i v lt h.1)

byte_at-set : (s : Bytes) (i v : ℕ) → i < length s → byte_at (set s i v) i ≡ v
byte_at-set [] i v lt = absurd (omega (arith, lt))
byte_at-set (c ∷ s) zero v lt = refl
byte_at-set (c ∷ s) (suc i) v lt = byte_at-set s i v (omega (arith, lt))

take-set : (s : Bytes) (i v : ℕ) → take i (set s i v) ≡ take i s
take-set [] i v = refl
take-set (c ∷ s) zero v = refl
take-set (c ∷ s) (suc i) v = ap (λ (t : Bytes). c ∷ t) (take-set s i v)

byte_at-lt : (s : Bytes) (i : ℕ) → IsBytes s → byte_at s i < 256
byte_at-lt [] i h = omega arith
byte_at-lt (c ∷ s) zero h = h.0
byte_at-lt (c ∷ s) (suc i) h = byte_at-lt s i h.1

low_byte : (b : ℕ) → b < 256 → bit_and b 248 ≡ b / 8 * 8
unfolding all_below
low_byte = agree_below 256 (λ b. bit_and b 248) (λ b. b / 8 * 8) refl

high_byte : (b : ℕ) → b < 256 → bit_or (bit_and b 127) 64 ≡ b % 64 + 64
unfolding all_below
high_byte = agree_below 256 (λ b. bit_or (bit_and b 127) 64) (λ b. b % 64 + 64) refl

-- Three low bits of the first byte are cleared, and of the last byte the highest bit is cleared and the
-- next one set; the other bytes are kept.
abbrev pub IsClampOf : Bytes → Bytes → Type 0
IsClampOf random secret =
    (byte_at secret 0 ≡ byte_at random 0 / 8 * 8)
    × (take 30 (drop 1 secret) ≡ take 30 (drop 1 random))
    × (byte_at secret 31 ≡ byte_at random 31 % 64 + 64)

clamp-IsKey : (random : Bytes) → IsKey random → IsKey (curve25519_clamp_secret random)
unfolding curve25519_clamp_secret
clamp-IsKey [] k = absurd (omega (arith, k.0))
clamp-IsKey (a ∷ s) k =
    let lt = byte_at-lt s 30 k.1.1 in
    (
      omega (arith, k.0, length-set s 30 (bit_or (bit_and (byte_at s 30) 127) 64)),
      (
        rw (low_byte a k.1.0) (omega (arith, k.1.0)),
        set-IsBytes s 30 _ (rw (high_byte (byte_at s 30) lt) (omega arith)) k.1.1,
      ),
    )

clamp-IsClampOf :
    (random : Bytes) → IsKey random → IsClampOf random (curve25519_clamp_secret random)
unfolding curve25519_clamp_secret
clamp-IsClampOf [] k = absurd (omega (arith, k.0))
clamp-IsClampOf (a ∷ s) k =
    let last = bit_or (bit_and (byte_at s 30) 127) 64 in
    (
      low_byte a k.1.0,
      take-set s 30 last,
      byte_at-set s 30 last (omega (arith, k.0)) ∙ high_byte (byte_at s 30) (byte_at-lt s 30 k.1.1),
    )

-- Given 32 random bytes, `genkey` prints the base64 text of a key that is those bytes with the lowest
-- three bits of the first byte cleared, and the highest bit of the last one cleared and the next one
-- set; and `pubkey`, with this output as its input, prints the public key of that secret key.
pub genkey_main-pubkey_main :
    (char_signed : Bool) (generate_public : Bytes → Bytes) (old command random : Bytes)
    → IsKey random
    → (secret : Bytes) × IsKey secret
      × IsClampOf random secret
      × (genkey_main (codes "genkey" ∷ []) (some random) ≡ ok (key_to_base64 secret ++ codes "\n"))
      × (pubkey_main char_signed generate_public old
            (command ∷ [])
            (key_to_base64 secret ++ codes "\n")
          ≡ ok (key_to_base64 (generate_public secret) ++ codes "\n"))
unfolding genkey_main only_space curve25519_clamp_secret str_eq char_is_space
genkey_main-pubkey_main char_signed generate_public old command random k =
    let secret = curve25519_clamp_secret random in
    let held = clamp-IsKey random k in
    (
      secret,
      held,
      clamp-IsClampOf random k,
      refl,
      pubkey_main-text char_signed generate_public old command secret (codes "\n") held refl,
    )
