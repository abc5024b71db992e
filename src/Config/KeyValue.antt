-- ===== src/Config/KeyValue.antt =====
-- config.c: `parse_key` and `parse_keyfile`.
use special_potato.Prelude.{
  ◌-◌, Bool, true, false, ◌&&◌, [], ◌∷◌, Bytes, ◌==◌, ltb, if◌then◌else◌, length, take, drop,
}
use special_potato.Ctype.{char_is_space}
use special_potato.Encoding.{wg_key_len_base64, key_from_base64}
use special_potato.Containers.{zero_key}
use special_potato.Config.Number.{is_empty}
use special_potato.Outcome.{Outcome, ok, error, System, unreadable, contents}

-- A byte buffer read as a string: what stands before its first zero.
unfoldable pub c_string : Bytes → Bytes
c_string [] = []
c_string (c ∷ s) = let rest = c_string s in if c == 0 then [] else c ∷ rest

module _ (sys : System) where
  -- On failure the key is cleared.
  unfoldable pub parse_key : Bytes → Bytes → Bool × Bytes
  parse_key key value =
      let (good, key') = key_from_base64 sys.char_signed key value in
      if good then (true, key') else (false, zero_key)

  -- `getc` gives an `unsigned char`.
  unfoldable pub all_space : Bytes → Bool
  all_space [] = true
  all_space (c ∷ s) = char_is_space c && all_space s

  abbrev pub key_of : Bool × Bytes → Outcome Bytes
  key_of (true, key) = ok key
  key_of (false, key) = error

  -- An empty file is the zero key. Otherwise 44 characters and nothing but white space after them.
  unfoldable pub read_key : Bytes → Bytes → Outcome Bytes
  read_key key text =
      if ltb (length text) (wg_key_len_base64 - 1)
      then (if is_empty text then ok zero_key else error)
      else if all_space (drop (wg_key_len_base64 - 1) text)
      then key_of (parse_key key (c_string (take (wg_key_len_base64 - 1) text)))
      else error

  unfoldable pub parse_keyfile : Bytes → Bytes → Outcome Bytes
  unfolding read_key all_space
  parse_keyfile key path = elim (sys.open_file path) [
    | unreadable ↦ error
    | contents text ↦ read_key key text
  ]
