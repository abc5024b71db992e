-- ===== src/Terminal/Laws.antt =====
-- What `filter_ansi` leaves of a text with colours.
use special_potato.Prelude.{
  ℕ, Bool, true, false, List, [], ◌∷◌, ◌++◌, Bytes, ◌==◌, All, ◌≡◌, ◌≢◌, refl, arith,
}
use special_potato.Terminal.{text, sequence, is_alpha, filter_from, filter_ansi}

-- Plain text, or a sequence of an escape, a bracket, parameters and a final letter.
pub data Piece : Type 0 where
  plain : Bytes → Piece
  color : Bytes → ℕ → Piece

abbrev pub written : List Piece → Bytes
written [] = []
written (plain s ∷ pieces) = s ++ written pieces
written (color params letter ∷ pieces) = 0x1b ∷ b'[' ∷ (params ++ (letter ∷ written pieces))

abbrev pub uncolored : List Piece → Bytes
uncolored [] = []
uncolored (plain s ∷ pieces) = s ++ uncolored pieces
uncolored (color params letter ∷ pieces) = uncolored pieces

module _ (signed : Bool) where
  abbrev pub IsPiece : Piece → Type 0
  IsPiece (plain s) = All (λ c. c ≢ 0x1b) s
  IsPiece (color params letter) =
      All (λ c. is_alpha signed c ≡ false) params × (is_alpha signed letter ≡ true)

  plain_kept :
      (s rest : Bytes)
      → All (λ c. c ≢ 0x1b) s
      → filter_from signed text (s ++ rest) ≡ s ++ filter_from signed text rest
  unfolding filter_from
  plain_kept [] rest h = refl
  plain_kept (c ∷ s) rest h =
      let other : c == 0x1b ≡ false = ground (arith, h.0) in rw (other, plain_kept s rest h.1)

  params_erased :
      (params rest : Bytes) (letter : ℕ)
      → All (λ c. is_alpha signed c ≡ false) params
      → is_alpha signed letter ≡ true
      → filter_from signed sequence (params ++ (letter ∷ rest)) ≡ filter_from signed text rest
  unfolding filter_from
  params_erased [] rest letter h k = rw k
  params_erased (c ∷ params) rest letter h k = rw (h.0, params_erased params rest letter h.1 k)

  -- Without colours, `filter_ansi` erases exactly the colour sequences of a text: of plain pieces
  -- without the escape character and sequences in any order it leaves the plain pieces.
  pub filter_ansi-written :
      (pieces : List Piece)
      → All IsPiece pieces
      → filter_ansi signed false (written pieces) ≡ uncolored pieces
  unfolding filter_ansi filter_from
  filter_ansi-written [] h = refl
  filter_ansi-written (plain s ∷ pieces) h =
      rw (plain_kept s (written pieces) h.0, filter_ansi-written pieces h.1)
  filter_ansi-written (color [] letter ∷ pieces) h = rw (h.0.1, filter_ansi-written pieces h.1)
  filter_ansi-written (color (c ∷ params) letter ∷ pieces) h = rw (
    h.0.0.0,
    params_erased params (written pieces) letter h.0.0.1 h.0.1,
    filter_ansi-written pieces h.1,
  )
