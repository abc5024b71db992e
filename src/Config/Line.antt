-- ===== src/Config/Line.antt =====
-- config.c: `config_read_line` with the cleaning of a line, and the start and the end of a file.
pub mod Laws
pub mod Safe
pub mod Finish
use special_potato.Prelude.{
  ℕ, Bool, true, false, not, ◌&&◌, ◌||◌, List, [], ◌∷◌, Bytes, none, some, codes, ◌==◌,
  if◌then◌else◌, char_to_int,
}
use special_potato.Ctype.{char_is_space}
use special_potato.Libc.{case_eq_n, split_first}
use special_potato.Containers.{WgPeer, WgDevice, new_device}
use special_potato.Outcome.{Outcome, ok, error, ◌>>=◌, System}
use special_potato.Config.Section.{ConfigCtx, process_line}
use special_potato.Config.Number.{is_empty}

-- `strchr(input, COMMENT_CHAR)`: the line up to a comment.
unfoldable pub before_comment : Bytes → Bytes
before_comment input = elim (split_first b'#' input) [ none ↦ input | some (a, b) ↦ a ]

abbrev pub awg_special_handshake_keys : List Bytes
awg_special_handshake_keys = codes "I1" ∷ codes "I2" ∷ codes "I3" ∷ codes "I4" ∷ codes "I5" ∷ []

abbrev any_key : Bytes → List Bytes → Bool
any_key input [] = false
any_key input (key ∷ keys) = case_eq_n 2 input key || any_key input keys

-- The test looks at the first two characters of the line as it was read.
unfoldable pub is_awg_special_handshake_key : Bytes → Bool
is_awg_special_handshake_key input = any_key input awg_special_handshake_keys

-- What the second pass knows: whether it is behind the `=`, and whether the value has begun.
pub record CleanState : Type 0 where
  pub found_equals : Bool
  pub found_value_start : Bool

module _ (sys : System) where
  abbrev pub is_space : ℕ → Bool
  is_space c = char_is_space (char_to_int sys.char_signed c)

  unfoldable pub strip_spaces : Bytes → Bytes
  strip_spaces [] = []
  strip_spaces (c ∷ s) = let rest = strip_spaces s in if is_space c then rest else c ∷ rest

  -- The first pass: the line without the white space at its end.
  unfoldable pub trim_end : Bytes → Bytes
  trim_end [] = []
  trim_end (c ∷ s) = let rest = trim_end s in if is_empty rest && is_space c then [] else c ∷ rest

  -- Whether the character is kept, and what is known behind it.
  unfoldable pub clean_step : CleanState → ℕ → Bool × CleanState
  clean_step st c =
      if not st.found_equals
      then (if c == b'=' then (true, record st { found_equals = true }) else (not (is_space c), st))
      else if not st.found_value_start
      then (if not (is_space c)
          then (true, record st { found_value_start = true })
          else (false, st))
      else (true, st)

  unfoldable pub clean_loop : CleanState → Bytes → Bytes
  clean_loop st [] = []
  clean_loop st (c ∷ s) =
      let (keep, st') = clean_step st c in
      let rest = clean_loop st' s in if keep then c ∷ rest else rest

  unfoldable pub clean_special_handshake_line : Bytes → Bytes
  clean_special_handshake_line input =
      clean_loop (record { found_equals = false; found_value_start = false }) (trim_end input)

  unfoldable pub clean_line : Bytes → Bytes
  clean_line input =
      if is_awg_special_handshake_key input
      then clean_special_handshake_line (before_comment input)
      else strip_spaces (before_comment input)

  unfoldable pub config_read_line : Bytes → ConfigCtx → Outcome ConfigCtx
  config_read_line input ctx =
      let line = clean_line input in if is_empty line then ok ctx else process_line sys line ctx

  -- The loop over the lines of a file, as `setconf_main` runs it.
  unfoldable pub config_read_lines : List Bytes → ConfigCtx → Outcome ConfigCtx
  config_read_lines [] ctx = ok ctx
  config_read_lines (line ∷ lines) ctx = do
    ctx' ← config_read_line line ctx
    config_read_lines lines ctx'

unfoldable pub config_read_init : Bool → ConfigCtx
config_read_init append = record {
  device = if append then new_device else record new_device {
    flags = record (new_device.flags) {
      replace_peers = true;
      has_private_key = true;
      has_fwmark = true;
    };
  };
  last_peer = false;
  last_allowedip = false;
  is_peer_section = false;
  is_device_section = false;
}

unfoldable pub all_have_public_key : List WgPeer → Bool
all_have_public_key [] = true
all_have_public_key (p ∷ peers) = p.flags.has_public_key && all_have_public_key peers

unfoldable pub config_read_finish : ConfigCtx → Outcome WgDevice
config_read_finish ctx = if all_have_public_key ctx.device.peers then ok ctx.device else error
