-- ===== src/Highlighter/Scan/Safe.antt =====
-- That the spans of a text stand in order inside it.
use special_potato.Prelude.{
  ℕ, suc, ◌+◌, ◌≤◌, ◌<◌, ◌==◌, if◌then◌else◌, true, false, not, ◌&&◌, ◌||◌, List, [], ◌∷◌, Bytes,
  ◌≡◌, refl, arith, length, Bool-cases, inl, inr,
}
use native.Mathlib.Numerals.{unary_clauses}
use special_potato.Highlighter.Spans.{HighlightType, HighlightSpan, is_blank}
use special_potato.Highlighter.Spans.Order.{InOrder, InOrder-weaken, append-InOrder}
use special_potato.Highlighter.Spans.Values.{value-InOrder}
use special_potato.Highlighter.Scan.{
  Place, on_none, on_key, on_value, on_comment, on_section, ScanState, end_value, end_section,
  flush, end_field, begin_word, scan_step, scan_loop, scan_start, highlight_spans, is_comment,
  on_key_place,
}

-- Where the spans end that are there already: behind an `=`, its own has still to come.
abbrev bound : Place → ℕ → ℕ → ℕ
bound on_value equals start = equals
bound _ equals start = start

-- A word or a value of `len` characters of which `kept` are not trailing blanks.
abbrev Measured : Place → ℕ → ℕ → ℕ → ℕ → Type 0
Measured on_none equals start len kept = Unit
Measured on_comment equals start len kept = Unit
Measured on_key equals start len kept = kept ≤ len
Measured on_section equals start len kept = kept ≤ len
Measured on_value equals start len kept = (equals < start) × (0 < len → kept ≤ len)

-- In front of the offset `i`.
record IsAt (i : ℕ) (st : ScanState) : Type 0 where
  ordered : InOrder 0 st.spans (bound st.place st.equals_location st.start)
  here : st.start + st.len ≡ i
  measured : Measured st.place st.equals_location st.start st.len st.kept

flush_at :
    (text : Bytes) (i : ℕ) (st : ScanState) (p : Place)
    → IsAt i (record st { place = p })
    → InOrder 0 (flush text (record st { place = p })).spans i
unfolding flush end_value end_section
flush_at text i st on_none h = InOrder-weaken 0 st.spans h.ordered (omega (arith, h.here))
flush_at text i st on_key h =
    append-InOrder 0 st.spans st.start st.kept HighlightType.error h.ordered
      (omega (arith, h.here, h.measured))
flush_at text i st on_comment h =
    append-InOrder 0 st.spans st.start st.len HighlightType.comment h.ordered
      (omega (arith, h.here))
flush_at text i st on_section h =
    append-InOrder 0 st.spans st.start st.kept _ h.ordered (omega (arith, h.here, h.measured))
flush_at text i st on_value h = elim (Bool-cases (st.len == 0)) [
  | inl e ↦ rw e (
      append-InOrder 0 st.spans st.equals_location 1 HighlightType.error h.ordered
        (omega (arith, h.here, h.measured.0)))
  | inr e ↦ rw e (
      InOrder-weaken 0 _
        (value-InOrder 0 _ text st.start st.kept st.current_field (
          append-InOrder 0 st.spans st.equals_location 1 HighlightType.delimiter h.ordered
            (omega (arith, h.measured.0))))
        (omega (arith, h.here, h.measured.1 (ground (arith, e)))))
]

flush-InOrder :
    (text : Bytes) (i : ℕ) (st : ScanState) → IsAt i st → InOrder 0 (flush text st).spans i
flush-InOrder text i st h = flush_at text i st st.place h

field-IsAt :
    (text : Bytes) (i : ℕ) (st : ScanState)
    → IsAt i (record st { place = on_key })
    → IsAt (i + 1) (end_field text i (record st { place = on_key }))
unfolding end_field
field-IsAt text i st h = record {
  ordered =
      append-InOrder 0 st.spans st.start st.kept _ h.ordered (omega (arith, h.here, h.measured));
  here = omega arith;
  measured = (omega arith, λ more. omega (arith, more));
}

bound-InOrder :
    (spans : List HighlightSpan) (p : Place) (equals start : ℕ)
    → InOrder 0 spans (bound p equals start)
    → InOrder 0 spans (bound p equals (start + 1))
bound-InOrder spans on_value equals start h = h
bound-InOrder spans on_none equals start h = InOrder-weaken 0 spans h (omega arith)
bound-InOrder spans on_key equals start h = InOrder-weaken 0 spans h (omega arith)
bound-InOrder spans on_comment equals start h = InOrder-weaken 0 spans h (omega arith)
bound-InOrder spans on_section equals start h = InOrder-weaken 0 spans h (omega arith)

first-Measured :
    (p : Place) (equals start len kept : ℕ)
    → Measured p equals start len kept
    → Measured p equals (start + 1) len kept
first-Measured on_none equals start len kept h = tt
first-Measured on_comment equals start len kept h = tt
first-Measured on_key equals start len kept h = h
first-Measured on_section equals start len kept h = h
first-Measured on_value equals start len kept h = (omega (arith, h.0), h.1)

later-Measured :
    (p : Place) (equals start len kept : ℕ)
    → 0 < len
    → Measured p equals start len kept
    → Measured p equals start (len + 1) kept
later-Measured on_none equals start len kept more h = tt
later-Measured on_comment equals start len kept more h = tt
later-Measured on_key equals start len kept more h = omega (arith, h)
later-Measured on_section equals start len kept more h = omega (arith, h)
later-Measured on_value equals start len kept more h = (h.0, λ e. omega (arith, h.1 more))

-- A blank, in front of a word or inside it.
blank-IsAt :
    (i : ℕ) (st : ScanState) (p : Place)
    → IsAt i (record st { place = p })
    → IsAt (i + 1) (
        if i == st.start && st.len == 0
        then record st { start = st.start + 1; place = p }
        else record st { len = st.len + 1; place = p })
blank-IsAt i st p h = elim (Bool-cases (i == st.start && st.len == 0)) [
  | inl first ↦ rw first (record {
    ordered = bound-InOrder st.spans p st.equals_location st.start h.ordered;
    here = omega (arith, h.here);
    measured = first-Measured p st.equals_location st.start st.len st.kept h.measured;
  })
  | inr later ↦ rw later (record {
    ordered = h.ordered;
    here = omega (arith, h.here);
    measured =
        later-Measured p st.equals_location st.start st.len st.kept (ground (arith, later, h.here))
          h.measured;
  })
]

-- A character of a word or of a value.
char-IsAt :
    (i c : ℕ) (st : ScanState) (p : Place)
    → IsAt i (record st { place = p })
    → IsAt (i + 1) (record st { len = st.len + 1; kept = st.len + 1; place = begin_word c p })
char-IsAt i c st on_none h = elim (Bool-cases (c == b'[')) [
  | inl e ↦
      rw e (record { ordered = h.ordered; here = omega (arith, h.here); measured = omega arith })
  | inr e ↦
      rw e (record { ordered = h.ordered; here = omega (arith, h.here); measured = omega arith })
]
char-IsAt i c st on_comment h = record {
  ordered = h.ordered;
  here = omega (arith, h.here);
  measured = tt;
}
char-IsAt i c st on_key h = record {
  ordered = h.ordered;
  here = omega (arith, h.here);
  measured = omega arith;
}
char-IsAt i c st on_section h = record {
  ordered = h.ordered;
  here = omega (arith, h.here);
  measured = omega arith;
}
char-IsAt i c st on_value h = record {
  ordered = h.ordered;
  here = omega (arith, h.here);
  measured = (h.measured.0, λ more. omega arith);
}

-- A character of a comment.
comment-IsAt :
    (i : ℕ) (st : ScanState) (p : Place)
    → is_comment p ≡ true
    → IsAt i (record st { place = p })
    → IsAt (i + 1) (record st { len = st.len + 1; place = p })
comment-IsAt i st on_comment e h = record {
  ordered = h.ordered;
  here = omega (arith, h.here);
  measured = tt;
}
comment-IsAt i st on_none e h = cc
comment-IsAt i st on_key e h = cc
comment-IsAt i st on_value e h = cc
comment-IsAt i st on_section e h = cc

equals-IsAt :
    (text : Bytes) (i : ℕ) (st : ScanState) (p : Place)
    → on_key_place p ≡ true
    → IsAt i (record st { place = p })
    → IsAt (i + 1) (end_field text i (record st { place = p }))
equals-IsAt text i st on_key e h = field-IsAt text i st h
equals-IsAt text i st on_none e h = cc
equals-IsAt text i st on_comment e h = cc
equals-IsAt text i st on_value e h = cc
equals-IsAt text i st on_section e h = cc

-- A character that ends no line, outside a comment.
inside-IsAt :
    (text : Bytes) (i c : ℕ) (st : ScanState) (p : Place)
    → (c == 10 || (not (is_comment p) && c == b'#')) ≡ false
    → is_comment p ≡ false
    → IsAt i (record st { place = p })
    → IsAt (i + 1) (scan_step text i c (record st { place = p }))
unfolding scan_step
inside-IsAt text i c st p e outside h = elim (Bool-cases (is_blank c)) [
  | inl blank ↦ rw (e, outside, blank) (blank-IsAt i st p h)
  | inr word ↦ elim (Bool-cases (c == b'=' && on_key_place p)) [
    | inr other ↦ rw (e, outside, word, other) (char-IsAt i c st p h)
    | inl equals ↦
        rw (e, outside, word, equals) (equals-IsAt text i st p (ground (arith, equals)) h)
  ]
]

scan_step-IsAt :
    (text : Bytes) (i c : ℕ) (st : ScanState) → IsAt i st → IsAt (i + 1) (scan_step text i c st)
unfolding scan_step
scan_step-IsAt text i c st h =
    let done = flush-InOrder text i st h in
    elim (Bool-cases (c == 10 || (not (is_comment st.place) && c == b'#'))) [
      | inr e ↦ elim (Bool-cases (is_comment st.place)) [
        | inl y ↦ rw (e, y) (comment-IsAt i st st.place y h)
        | inr outside ↦ inside-IsAt text i c st st.place e outside h
      ]
      | inl e ↦ elim (Bool-cases (c == b'#')) [
        | inl hash ↦ rw (e, hash) (record { ordered = done; here = refl; measured = tt })
        | inr line ↦
            rw (e, line)
              (record {
                ordered = InOrder-weaken 0 _ done (omega arith);
                here = omega arith;
                measured = tt;
              })
      ]
    ]

scan_loop-IsAt :
    (text : Bytes) (i : ℕ) (s : Bytes) (st : ScanState)
    → IsAt i st
    → IsAt (i + length s) (scan_loop text i s st)
unfolding scan_loop
scan_loop-IsAt text i [] st h = simp unary_clauses h
scan_loop-IsAt text i (c ∷ s) st h =
    let shift : i + suc (length s) ≡ i + 1 + length s = omega arith in
    rw shift (scan_loop-IsAt text (i + 1) s _ (scan_step-IsAt text i c st h))

-- The spans of any text are not empty, do not overlap, stand in the order of the text, and end
-- inside it.
pub highlight_spans-InOrder : (text : Bytes) → InOrder 0 (highlight_spans text) (length text)
unfolding highlight_spans scan_start
highlight_spans-InOrder text =
    let at : IsAt (0 + length text) (scan_loop text 0 text scan_start) =
      scan_loop-IsAt text 0 text scan_start
        (record { ordered = omega arith; here = omega arith; measured = tt }) in
    InOrder-weaken 0 _ (flush-InOrder text _ _ at) (omega arith)
