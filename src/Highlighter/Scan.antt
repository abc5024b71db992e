-- ===== src/Highlighter/Scan.antt =====
-- highlighter.c: `highlight_config`, the automaton over the characters of a text.
pub mod Safe
use special_potato.Prelude.{
  ℕ, zero, suc, ◌+◌, ◌-◌, ◌^◌, Bool, true, false, not, ◌&&◌, ◌||◌, List, [], ◌∷◌, ◌++◌, Bytes, ◌==◌,
  if◌then◌else◌, length,
}
use special_potato.Highlighter.Spans.{
  Field, HighlightType, HighlightSpan, section_for_field, get_field, get_sectiontype, span_text,
  append_highlight_span, highlight_value, is_blank,
}

-- `OnNone` and so on.
pub data Place : Type 0 where
  on_none on_key on_value on_comment on_section : Place

pub record ScanState : Type 0 where
  pub spans : List HighlightSpan
  pub start : ℕ
  pub len : ℕ
  pub kept : ℕ
  pub equals_location : ℕ
  pub current_section : Field
  pub current_field : Field
  pub place : Place

abbrev same_section : Field → Field → Bool
same_section Field.interface_section Field.interface_section = true
same_section Field.peer_section Field.peer_section = true
same_section _ _ = false

abbrev is_comment : Place → Bool
is_comment on_comment = true
is_comment _ = false

-- The value behind an `=`.
unfoldable pub end_value : Bytes → ScanState → ScanState
end_value text st =
    if st.len == 0
    then record st {
      spans = append_highlight_span st.spans st.equals_location 1 HighlightType.error;
    }
    else record st {
      spans =
          highlight_value
            (append_highlight_span st.spans st.equals_location 1 HighlightType.delimiter) text
            st.start st.kept st.current_field;
      len = st.kept;
    }

abbrev section_type : Field → HighlightType
section_type Field.invalid = HighlightType.error
section_type _ = HighlightType.section

unfoldable pub end_section : Bytes → ScanState → ScanState
end_section text st =
    let found = get_sectiontype (span_text text st.start st.kept) in
    record st {
      spans = append_highlight_span st.spans st.start st.kept (section_type found);
      len = st.kept;
      current_section = found;
    }

-- What the end of a line, of the text, or the start of a comment does to what came before it.
unfoldable pub flush : Bytes → ScanState → ScanState
flush text st = elim (st.place) [
  | on_none ↦ st
  | on_key ↦ record st {
    spans = append_highlight_span st.spans st.start st.kept HighlightType.error;
    len = st.kept;
  }
  | on_value ↦ end_value text st
  | on_comment ↦ record st {
    spans = append_highlight_span st.spans st.start st.len HighlightType.comment;
  }
  | on_section ↦ end_section text st
]

-- The `=` behind a field.
unfoldable pub end_field : Bytes → ℕ → ScanState → ScanState
end_field text i st =
    let found = get_field (span_text text st.start st.kept) in
    record st {
      spans = append_highlight_span st.spans st.start st.kept (
          if same_section (section_for_field found) st.current_section
          then HighlightType.field
          else HighlightType.error);
      start = i + 1;
      len = 0;
      equals_location = i;
      current_field = found;
      place = on_value;
    }

abbrev begin_word : ℕ → Place → Place
begin_word c on_none = if c == b'[' then on_section else on_key
begin_word c place = place

abbrev on_key_place : Place → Bool
on_key_place on_key = true
on_key_place _ = false

-- The character `c` at the offset `i`.
unfoldable pub scan_step : Bytes → ℕ → ℕ → ScanState → ScanState
scan_step text i c st =
    if c == 10 || (not (is_comment st.place) && c == b'#')
    then (let flushed = flush text st in
        if c == b'#'
        then record flushed {
          start = i;
          len = 1;
          kept = 0;
          current_field = Field.invalid;
          place = on_comment;
        }
        else record flushed {
          start = i + 1;
          len = 0;
          kept = 0;
          current_field = Field.invalid;
          place = on_none;
        })
    else if is_comment st.place
    then record st { len = st.len + 1 }
    else if is_blank c
    then (if i == st.start && st.len == 0
        then record st { start = st.start + 1 }
        else record st { len = st.len + 1 })
    else if c == b'=' && on_key_place st.place
    then end_field text i st
    else record st { len = st.len + 1; kept = st.len + 1; place = begin_word c st.place }

unfoldable pub scan_loop : Bytes → ℕ → Bytes → ScanState → ScanState
scan_loop text i [] st = st
scan_loop text i (c ∷ s) st = scan_loop text (i + 1) s (scan_step text i c st)

unfoldable pub scan_start : ScanState
scan_start = record {
  spans = [];
  start = 0;
  len = 0;
  kept = 0;
  equals_location = 0;
  current_section = Field.invalid;
  current_field = Field.invalid;
  place = on_none;
}

-- The spans in front of the one that ends the array.
unfoldable pub highlight_spans : Bytes → List HighlightSpan
highlight_spans text = (flush text (scan_loop text 0 text scan_start)).spans

-- The last one has the length `(size_t)-1`, here of 64 bits.
unfoldable pub highlight_config : Bytes → List HighlightSpan
highlight_config text =
    highlight_spans text ++ (record { type = HighlightType.end; start = 0; len = 2 ^ 64 - 1 } ∷ [])
