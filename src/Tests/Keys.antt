-- ===== src/Tests/Keys.antt =====
-- The theorems on the key commands at a key, with a function in the place of Curve25519.
use special_potato.Prelude.{
  ◌-◌, ◌↔◌, ◌≡◌, true, [], ◌∷◌, ◌++◌, Bytes, IsBytes, codes, some, map, replicate, refl, arith,
}
use special_potato.Outcome.{ok}
use special_potato.Encoding.{IsKey, key_to_base64}
use special_potato.KeyCommand.{genkey_main, pubkey_main}
use special_potato.KeyCommand.Accepted.{Printed, pubkey_main_iff}
use special_potato.KeyCommand.Clamped.{IsClampOf, genkey_main-pubkey_main}

abbrev mirrored : Bytes → Bytes
mirrored key = map (λ b. 255 - b) key

abbrev random_key : Bytes
random_key = replicate 31 189 ++ 7 ∷ []

random_key-IsKey : IsKey random_key
random_key-IsKey = (refl, ground arith)

-- The text of the key of 32 zero bytes, behind it blanks and a zero byte.
abbrev piped : Bytes
piped = replicate 43 b'A' ++ b'=' ∷ b' ' ∷ 0 ∷ codes "\n"

piped-IsBytes : IsBytes piped
piped-IsBytes = ground arith

pubkey_main_iff_example :
    (pubkey_main true mirrored random_key (codes "pubkey" ∷ []) piped
      ≡ ok (key_to_base64 (replicate 32 255) ++ codes "\n"))
    ↔ Printed true mirrored piped (key_to_base64 (replicate 32 255) ++ codes "\n")
pubkey_main_iff_example =
    pubkey_main_iff true mirrored random_key (codes "pubkey") piped
      (key_to_base64 (replicate 32 255) ++ codes "\n") piped-IsBytes

genkey_main-pubkey_main_example :
    (secret : Bytes) × IsKey secret
    × IsClampOf random_key secret
    × (genkey_main (codes "genkey" ∷ []) (some random_key)
        ≡ ok (key_to_base64 secret ++ codes "\n"))
    × (pubkey_main true mirrored random_key
          (codes "pubkey" ∷ [])
          (key_to_base64 secret ++ codes "\n")
        ≡ ok (key_to_base64 (mirrored secret) ++ codes "\n"))
genkey_main-pubkey_main_example =
    genkey_main-pubkey_main true mirrored random_key (codes "pubkey") random_key random_key-IsKey
