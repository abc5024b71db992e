-- ===== src/KeyCommand.antt =====
-- genkey.c and pubkey.c: `genkey_main` and `pubkey_main`, and `curve25519_clamp_secret` of
-- curve25519.h. The random bytes, `curve25519_generate_public` and the input are parameters.
pub mod Accepted
pub mod Clamped
use special_potato.Prelude.{
  ℕ, ◌-◌, Bool, true, false, not, ◌&&◌, ◌||◌, List, [], ◌∷◌, ◌++◌, Bytes, Option, none, some, codes,
  ◌==◌, if◌then◌else◌, length, take, drop, set, get_elem?, bit_and, bit_or,
}
use special_potato.Outcome.{Outcome, ok, error}
use special_potato.Ctype.{char_is_space}
use special_potato.Libc.{str_eq}
use special_potato.Encoding.{key_to_base64, key_from_base64, wg_key_len_base64}
use special_potato.Config.KeyValue.{c_string}

-- A byte of a key that has 32.
abbrev pub byte_at : Bytes → ℕ → ℕ
byte_at key i = elim (get_elem? key i) [ none ↦ 0 | some b ↦ b ]

unfoldable pub curve25519_clamp_secret : Bytes → Bytes
curve25519_clamp_secret secret =
    let low = set secret 0 (bit_and (byte_at secret 0) 248) in
    set low 31 (bit_or (bit_and (byte_at low 31) 127) 64)

-- What is printed; `none` stands for a failure of `get_random_bytes`.
unfoldable pub genkey_main : List Bytes → Option Bytes → Outcome Bytes
genkey_main (command ∷ []) none = error
genkey_main (command ∷ []) (some key) = ok (
    key_to_base64 (if str_eq command (codes "genkey") then curve25519_clamp_secret key else key)
    ++ codes "\n")
genkey_main args random = error

-- The bytes that are passed over behind the key, up to the end of the input.
unfoldable pub only_space : Bytes → Bool
only_space [] = true
only_space (c ∷ input) = (c == 0 || char_is_space c) && only_space input

module _ (char_signed : Bool) (generate_public : Bytes → Bytes) where
  abbrev pub print_public : Bool × Bytes → Outcome Bytes
  print_public (false, key) = error
  print_public (true, key) = ok (key_to_base64 (generate_public key) ++ codes "\n")

  -- `old` is what stands in the memory of the key before it is read.
  unfoldable pub pubkey_main : Bytes → List Bytes → Bytes → Outcome Bytes
  pubkey_main old (command ∷ []) input =
      let text = take (wg_key_len_base64 - 1) input in
      if not (length text == wg_key_len_base64 - 1)
      then error
      else if not (only_space (drop (wg_key_len_base64 - 1) input))
      then error
      else print_public (key_from_base64 char_signed old (c_string text))
  pubkey_main old args input = error
