-- ===== src/Highlighter.antt =====
-- contrib/highlighter/highlighter.c: the validators of values, and the spans that colour a text.
pub mod Classes
pub mod Host
pub mod Value
pub mod Spans
pub mod Scan
