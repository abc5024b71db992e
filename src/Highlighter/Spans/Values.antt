-- ===== src/Highlighter/Spans/Values.antt =====
-- Where the spans of one value stand.
use special_potato.Prelude.{
  ℕ, zero, suc, ◌+◌, ◌-◌, ◌≤◌, ◌<◌, ◌==◌, true, ◌&&◌, List, [], ◌∷◌, Bytes, some, ◌≡◌, arith,
  length, take, drop, Bool-cases, inl, inr, Option-cases,
}
use native.Mathlib.Numerals.{unary_clauses}
use special_potato.Libc.{split_last}
use special_potato.Highlighter.Value.{is_valid_endpoint, is_valid_network}
use special_potato.Highlighter.Spans.{
  Field, HighlightType, HighlightSpan, span_text, next_char, append_highlight_span, find_first,
  highlight_network, highlight_multivalue_value, ValueState, is_blank, value_step, value_loop,
  highlight_multivalue, find_last, highlight_endpoint, highlight_value,
}
use special_potato.Highlighter.Spans.Order.{
  InOrder, InOrder-weaken, append-InOrder, mark_last-InOrder,
}

length-take : {A : Type 0} (n : ℕ) (s : List A) → length (take n s) ≤ n
length-take zero s = omega arith
length-take (suc n) [] = omega arith
length-take (suc n) (c ∷ s) = omega (arith, length-take n s)

find_first-le : (c : ℕ) (s : Bytes) → find_first c s ≤ length s
unfolding find_first
find_first-le c [] = omega arith
find_first-le c (d ∷ s) = let rest = find_first-le c s in ground (arith, rest)

-- Up to three spans: what stands in front of a separator, the separator, and the rest.
parts-InOrder :
    (low : ℕ) (spans : List HighlightSpan) (start len k : ℕ) (a b c : HighlightType)
    → k < len
    → InOrder low spans start
    → InOrder low
        (append_highlight_span
          (append_highlight_span (append_highlight_span spans start k a) (start + k) 1 b)
          (start + k + 1)
          (len - k - 1)
          c)
        (start + len)
parts-InOrder low spans start len k a b c lt h =
    append-InOrder low _ (start + k + 1) (len - k - 1) c
      (append-InOrder low _ (start + k) 1 b (append-InOrder low spans start k a h (omega arith))
        (omega arith))
      (omega arith)

network-InOrder :
    (low : ℕ) (spans : List HighlightSpan) (parent : Bytes) (start len : ℕ)
    → InOrder low spans start
    → InOrder low (highlight_network spans parent start len) (start + len)
unfolding highlight_network
network-InOrder low spans parent start len h =
    let s = span_text parent start len in
    let k = find_first b'/' s in
    elim (Bool-cases (is_valid_network s (next_char parent start len))) [
      | inr bad ↦ rw bad (append-InOrder low spans start len HighlightType.error h (omega arith))
      | inl good ↦ elim (Bool-cases (k == len)) [
        | inl e ↦ rw (good, e) (append-InOrder low spans start len HighlightType.ip h (omega arith))
        | inr e ↦
            rw (good, e)
              (parts-InOrder low spans start len k HighlightType.ip HighlightType.delimiter
                HighlightType.cidr
                (ground (arith, e, find_first-le b'/' s, length-take len (drop start parent))) h)
      ]
    ]

multivalue_value-InOrder :
    (low : ℕ) (spans : List HighlightSpan) (parent : Bytes) (start len : ℕ) (f : Field)
    → InOrder low spans start
    → InOrder low (highlight_multivalue_value spans parent start len f) (start + len)
unfolding highlight_multivalue_value
multivalue_value-InOrder low spans parent start len Field.address h =
    network-InOrder low spans parent start len h
multivalue_value-InOrder low spans parent start len Field.allowed_ips h =
    network-InOrder low spans parent start len h
multivalue_value-InOrder low spans parent start len _ h =
    append-InOrder low spans start len _ h (omega arith)

-- In front of the offset `i` of a list of values, with `current_span` up to there.
record IsAt (low i : ℕ) (st : ValueState) : Type 0 where
  ordered : InOrder low st.spans st.start
  here : st.start + st.len ≡ i
  less : st.kept ≤ st.len

value_step-IsAt :
    (parent : Bytes) (f : Field) (low i c : ℕ) (st : ValueState)
    → IsAt low i st
    → IsAt low (i + 1) (value_step parent f i c st)
unfolding value_step
value_step-IsAt parent f low i c st h = elim (Bool-cases (c == b',')) [
  | inl e ↦ rw e (record {
    ordered =
        append-InOrder low _ i 1 HighlightType.delimiter
          (InOrder-weaken low _
            (multivalue_value-InOrder low st.spans parent st.start st.kept f h.ordered)
            (omega (arith, h.here, h.less)))
          (omega arith);
    here = omega arith;
    less = omega arith;
  })
  | inr e ↦ elim (Bool-cases (is_blank c)) [
    | inr b ↦
        rw (e, b)
          (record {
            ordered = h.ordered;
            here = omega (arith, h.here);
            less = omega (arith, h.less);
          })
    | inl b ↦ elim (Bool-cases (i == st.start && st.len == 0)) [
      | inl first ↦
          rw (e, b, first)
            (record {
              ordered = InOrder-weaken low st.spans h.ordered (omega arith);
              here = omega (arith, h.here);
              less = h.less;
            })
      | inr later ↦
          rw (e, b, later)
            (record {
              ordered = h.ordered;
              here = omega (arith, h.here);
              less = omega (arith, h.less);
            })
    ]
  ]
]

value_loop-IsAt :
    (parent : Bytes) (f : Field) (low i : ℕ) (s : Bytes) (st : ValueState)
    → IsAt low i st
    → IsAt low (i + length s) (value_loop parent f i s st)
unfolding value_loop
value_loop-IsAt parent f low i [] st h = simp unary_clauses h
value_loop-IsAt parent f low i (c ∷ s) st h =
    let shift : i + suc (length s) ≡ i + 1 + length s = omega arith in
    rw shift (value_loop-IsAt parent f low (i + 1) s _ (value_step-IsAt parent f low i c st h))

multivalue-InOrder :
    (low : ℕ) (spans : List HighlightSpan) (parent : Bytes) (start len : ℕ) (f : Field)
    → InOrder low spans start
    → InOrder low (highlight_multivalue spans parent start len f) (start + len)
unfolding highlight_multivalue
multivalue-InOrder low spans parent start len f h =
    let s = span_text parent start len in
    let first : ValueState = record { spans = spans; start = start; len = 0; kept = 0 } in
    let st = value_loop parent f start s first in
    let at : IsAt low (start + length s) st =
      value_loop-IsAt parent f low start s first
        (record { ordered = h; here = omega arith; less = omega arith }) in
    let short = length-take len (drop start parent) in
    elim (Bool-cases (st.kept == 0)) [
      | inl e ↦ rw e (
          mark_last-InOrder low st.spans (start + len)
            (InOrder-weaken low st.spans at.ordered (omega (arith, at.here, short))))
      | inr e ↦ rw e (
          InOrder-weaken low _
            (multivalue_value-InOrder low st.spans parent st.start st.kept f at.ordered)
            (omega (arith, at.here, at.less, short)))
    ]

split_last-shorter :
    (c : ℕ) (s : Bytes) {a b : Bytes} → split_last c s ≡ some (a, b) → length a < length s
unfolding split_last
split_last-shorter c [] e = cc
split_last-shorter c (d ∷ s) {a} e = elim (Option-cases (split_last c s)) [
  | inl none_there ↦ (let empty : a ≡ [] = ground (arith, e, none_there) in rw empty (omega arith))
  | inr ((a', b'), there) ↦
      let longer : a ≡ d ∷ a' = ground (arith, e, there) in
      rw longer (omega (arith, split_last-shorter c s there))
]

find_last-lt : (c : ℕ) (s : Bytes) → 0 < length s → find_last c s < length s
unfolding find_last
find_last-lt c s h = elim (Option-cases (split_last c s)) [
  | inl e ↦ rw (e, find_last) h
  | inr ((a, b), e) ↦ rw (e, find_last) (split_last-shorter c s e)
]

valid_endpoint-there : (s : Bytes) → is_valid_endpoint s ≡ true → 0 < length s
unfolding is_valid_endpoint
valid_endpoint-there [] e = cc
valid_endpoint-there (c ∷ s) e = omega arith

endpoint-InOrder :
    (low : ℕ) (spans : List HighlightSpan) (parent : Bytes) (start len : ℕ)
    → InOrder low spans start
    → InOrder low (highlight_endpoint spans parent start len) (start + len)
unfolding highlight_endpoint
endpoint-InOrder low spans parent start len h =
    let s = span_text parent start len in
    elim (Bool-cases (is_valid_endpoint s)) [
      | inr bad ↦ rw bad (append-InOrder low spans start len HighlightType.error h (omega arith))
      | inl good ↦ rw good (
          parts-InOrder low spans start len (find_last b':' s) HighlightType.host
            HighlightType.delimiter HighlightType.port
            (omega (
              arith,
              find_last-lt b':' s (valid_endpoint-there s good),
              length-take len (drop start parent),
            ))
            h)
    ]

-- The spans of a value stay inside it, whatever its field is.
pub value-InOrder :
    (low : ℕ) (spans : List HighlightSpan) (parent : Bytes) (start len : ℕ) (f : Field)
    → InOrder low spans start
    → InOrder low (highlight_value spans parent start len f) (start + len)
unfolding highlight_value
value-InOrder low spans parent start len Field.endpoint h =
    endpoint-InOrder low spans parent start len h
value-InOrder low spans parent start len Field.address h =
    multivalue-InOrder low spans parent start len Field.address h
value-InOrder low spans parent start len Field.dns h =
    multivalue-InOrder low spans parent start len Field.dns h
value-InOrder low spans parent start len Field.allowed_ips h =
    multivalue-InOrder low spans parent start len Field.allowed_ips h
value-InOrder low spans parent start len _ h = append-InOrder low spans start len _ h (omega arith)
