-- ===== src/Highlighter/Spans/Order.antt =====
-- Spans in the order of the text.
use special_potato.Prelude.{
  ℕ, ◌+◌, ◌≤◌, ◌<◌, ◌==◌, List, [], ◌∷◌, ◌++◌, arith, Bool-cases, inl, inr,
}
use special_potato.Highlighter.Spans.{
  HighlightType, HighlightSpan, append_highlight_span, mark_last,
}

-- The spans are not empty, stand one behind the other, and lie between two offsets.
abbrev pub InOrder : ℕ → List HighlightSpan → ℕ → Type 0
InOrder low [] high = low ≤ high
InOrder low (sp ∷ spans) high =
    (low ≤ sp.start) × (0 < sp.len) × InOrder (sp.start + sp.len) spans high

pub InOrder-weaken :
    (low : ℕ) (spans : List HighlightSpan) {b high : ℕ}
    → InOrder low spans b
    → b ≤ high
    → InOrder low spans high
InOrder-weaken low [] h le = omega arith
InOrder-weaken low (sp ∷ spans) h le = (h.0, h.1, InOrder-weaken (sp.start + sp.len) spans h.2 le)

InOrder-last :
    (low : ℕ) (spans : List HighlightSpan) (sp : HighlightSpan) {high : ℕ}
    → InOrder low spans sp.start
    → 0 < sp.len
    → sp.start + sp.len ≤ high
    → InOrder low (spans ++ (sp ∷ [])) high
InOrder-last low [] sp h some_there le = (h, some_there, le)
InOrder-last low (x ∷ spans) sp h some_there le =
    (h.0, h.1, InOrder-last (x.start + x.len) spans sp h.2 some_there le)

pub append-InOrder :
    (low : ℕ) (spans : List HighlightSpan) (start len : ℕ) (type : HighlightType) {high : ℕ}
    → InOrder low spans start
    → start + len ≤ high
    → InOrder low (append_highlight_span spans start len type) high
unfolding append_highlight_span
append-InOrder low spans start len type h le = elim (Bool-cases (len == 0)) [
  | inl e ↦ rw e (InOrder-weaken low spans h (omega arith))
  | inr e ↦ rw e (
      InOrder-last low spans (record { type = type; start = start; len = len }) h
        (ground (arith, e)) le)
]

pub mark_last-InOrder :
    (low : ℕ) (spans : List HighlightSpan) (high : ℕ)
    → InOrder low spans high
    → InOrder low (mark_last spans) high
unfolding mark_last
mark_last-InOrder low [] high h = h
mark_last-InOrder low (sp ∷ []) high h = h
mark_last-InOrder low (sp ∷ next ∷ spans) high h =
    (h.0, h.1, mark_last-InOrder (sp.start + sp.len) (next ∷ spans) high h.2)
