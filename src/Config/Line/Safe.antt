-- ===== src/Config/Line/Safe.antt =====
-- Whatever the lines of a file are, they are read without a null read, into a device in its ranges.
use special_potato.Prelude.{
  ℕ, Bool, true, false, List, [], ◌∷◌, Bytes, IsBytes, All, ◌≡◌, refl, Bool-cases, Option-cases,
  inl, inr, ◌==◌, arith, some,
}
use special_potato.Containers.{WgPeer, new_device}
use special_potato.Outcome.{
  Outcome, ok, error, exit, fault, pending, System, Ensures, Ensures->>=, Ensures-if,
}
use special_potato.Config.Number.{is_empty}
use special_potato.Config.Section.{ConfigCtx, process_line}
use special_potato.Config.Section.Context.{
  IsCtx, Peers-All, process_line-Ensures, new_device-IsDevice, with_peers,
}
use special_potato.Config.Section.Valid.{IsPeer, IsDevice, IsSystem}
use special_potato.Libc.{split_first}
use special_potato.Config.Line.{
  before_comment, strip_spaces, trim_end, clean_step, clean_loop, CleanState,
  clean_special_handshake_line, clean_line, config_read_line, config_read_lines, config_read_init,
}

split_first-IsBytes :
    (d : ℕ) (s : Bytes) {a b : Bytes} → split_first d s ≡ some (a, b) → IsBytes s → IsBytes a
unfolding split_first
split_first-IsBytes d [] e h = cc
split_first-IsBytes d (c ∷ s) {a} e h = elim (Bool-cases (c == d)) [
  | inl y ↦ (let empty : a ≡ [] = ground (arith, y, e) in rw empty tt)
  | inr n ↦ elim (Option-cases (split_first d s)) [
    | inl none_there ↦ absurd (ground (arith, n, e, none_there))
    | inr ((a', b'), there) ↦
        let longer : a ≡ c ∷ a' = ground (arith, n, e, there) in
        rw longer (h.0, split_first-IsBytes d s there h.1)
  ]
]

pub before_comment-IsBytes : (s : Bytes) → IsBytes s → IsBytes (before_comment s)
unfolding before_comment
before_comment-IsBytes s h = elim (Option-cases (split_first b'#' s)) [
  | inl e ↦ rw (e, before_comment) h
  | inr ((a, b), e) ↦ rw (e, before_comment) (split_first-IsBytes b'#' s e h)
]

All-first : (P Q : WgPeer → Type 0) (ps : List WgPeer) → All (λ p. P p × Q p) ps → All P ps
All-first P Q [] h = tt
All-first P Q (p ∷ ps) h = (h.0.0, All-first P Q ps h.1)

module _ (sys : System) where
  pub strip_spaces-IsBytes : (s : Bytes) → IsBytes s → IsBytes (strip_spaces sys s)
  unfolding strip_spaces
  strip_spaces-IsBytes [] h = tt
  strip_spaces-IsBytes (c ∷ s) h = let rest = strip_spaces-IsBytes s h.1 in ground (arith, rest, h)

  pub trim_end-IsBytes : (s : Bytes) → IsBytes s → IsBytes (trim_end sys s)
  unfolding trim_end
  trim_end-IsBytes [] h = tt
  trim_end-IsBytes (c ∷ s) h = let rest = trim_end-IsBytes s h.1 in ground (arith, rest, h)

  clean_loop-IsBytes : (st : CleanState) (s : Bytes) → IsBytes s → IsBytes (clean_loop sys st s)
  unfolding clean_loop
  clean_loop-IsBytes st [] h = tt
  clean_loop-IsBytes st (c ∷ s) h =
      let rest = clean_loop-IsBytes (clean_step sys st c).1 s h.1 in ground (arith, rest, h)

  clean_line-IsBytes : (s : Bytes) → IsBytes s → IsBytes (clean_line sys s)
  unfolding clean_line clean_special_handshake_line
  clean_line-IsBytes s h =
      let b = before_comment-IsBytes s h in
      ground (
        arith,
        strip_spaces-IsBytes (before_comment s) b,
        clean_loop-IsBytes (record { found_equals = false; found_value_start = false })
            (trim_end sys (before_comment s)) (trim_end-IsBytes (before_comment s) b),
      )

  abbrev Any : Bool → Type 0
  Any b = Unit

  lines-Ensures :
      IsSystem sys
      → (lines : List Bytes) (ctx : ConfigCtx) → All IsBytes lines
      → IsCtx Any ctx
      → Ensures (IsCtx Any) (config_read_lines sys lines ctx)
  unfolding config_read_lines config_read_line
  lines-Ensures good [] ctx b h = h
  lines-Ensures good (line ∷ lines) ctx b h =
      let clean = clean_line sys line in
      Ensures->>= (IsCtx Any) (IsCtx Any) (config_read_line sys line ctx) _
        (Ensures-if (IsCtx Any) (is_empty clean) (ok ctx) (process_line sys clean ctx) (λ e. h)
          (λ e. process_line-Ensures sys good clean ctx (clean_line-IsBytes line b.0) h))
        (λ ctx' h'. lines-Ensures good lines ctx' b.1 h')

  init-IsCtx : (append : Bool) → IsCtx Any (config_read_init append)
  unfolding config_read_init
  init-IsCtx true = record {
    device = new_device-IsDevice (new_device.flags) (λ ps. ps ≡ []) refl;
    section = λ e. cc;
  }
  init-IsCtx false = record {
    device = new_device-IsDevice _ (λ ps. ps ≡ []) refl;
    section = λ e. cc;
  }

  -- Whatever the lines of a file are, reading them from the start never goes through a null pointer,
  -- and if all are accepted the device is within its ranges: keys of 32 bytes, a mark of 32 bits,
  -- ports and sizes of 16, strings under their limit, and peers whose keys and keepalive are in range
  -- and whose allowed addresses fit their families. Of the system it is assumed that ports have 16
  -- bits and that the readers of numeric addresses give one word or four.
  pub config_read_lines-IsDevice :
      IsSystem sys
      → (append : Bool) (lines : List Bytes) → All IsBytes lines
      → Ensures
          (λ ctx. IsDevice (All IsPeer) ctx.device)
          (config_read_lines sys lines (config_read_init append))
  config_read_lines-IsDevice good append lines b =
      of_ended (config_read_lines sys lines (config_read_init append))
        (lines-Ensures good lines (config_read_init append) b (init-IsCtx append))
    where
      of_ended :
          (m : Outcome ConfigCtx)
          → Ensures (IsCtx Any) m
          → Ensures (λ ctx. IsDevice (All IsPeer) ctx.device) m
      of_ended (ok ctx) h = with_peers _ (All IsPeer) ctx.device ctx.device.peers h.device (
          All-first IsPeer (λ p. Unit) ctx.device.peers
            (Peers-All Any ctx.last_peer ctx.last_allowedip ctx.device.peers h.device.peers))
      of_ended fault h = h
      of_ended error h = tt
      of_ended exit h = tt
      of_ended pending h = tt
