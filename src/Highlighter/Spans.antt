-- ===== src/Highlighter/Spans.antt =====
-- highlighter.c: fields and sections, the array of spans, and the spans of one value.
pub mod Order
pub mod Values
use special_potato.Prelude.{
  ℕ, zero, suc, ◌+◌, ◌-◌, Bool, true, false, not, ◌&&◌, ◌||◌, List, [], ◌∷◌, ◌++◌, Bytes, Option,
  none, some, codes, ◌==◌, if◌then◌else◌, length, take, drop,
}
use special_potato.Libc.{split_last}
use special_potato.Highlighter.Classes.{is_caseless_same, is_valid_key}
use special_potato.Highlighter.Host.{is_valid_hostname, is_valid_ipv4, is_valid_ipv6, char_at}
use special_potato.Highlighter.Value.{
  is_valid_port, is_valid_mtu, is_valid_persistentkeepalive, is_valid_fwmark, is_valid_table,
  is_valid_saveconfig, is_valid_prepostupdown, is_valid_endpoint, is_valid_network,
}

pub data Field : Type 0 where
  interface_section private_key listen_port address dns mtu : Field
  fw_mark table pre_up post_up pre_down post_down save_config : Field
  peer_section public_key preshared_key allowed_ips endpoint persistent_keepalive invalid : Field

-- By the order of the enumeration.
unfoldable pub section_for_field : Field → Field
section_for_field private_key = interface_section
section_for_field listen_port = interface_section
section_for_field address = interface_section
section_for_field dns = interface_section
section_for_field mtu = interface_section
section_for_field fw_mark = interface_section
section_for_field table = interface_section
section_for_field pre_up = interface_section
section_for_field post_up = interface_section
section_for_field pre_down = interface_section
section_for_field post_down = interface_section
section_for_field save_config = interface_section
section_for_field public_key = peer_section
section_for_field preshared_key = peer_section
section_for_field allowed_ips = peer_section
section_for_field endpoint = peer_section
section_for_field persistent_keepalive = peer_section
section_for_field _ = invalid

abbrev field_names : List (Bytes × Field)
field_names =
    (codes "PrivateKey", private_key)
    ∷ (codes "ListenPort", listen_port)
    ∷ (codes "Address", address)
    ∷ (codes "DNS", dns)
    ∷ (codes "MTU", mtu)
    ∷ (codes "PublicKey", public_key)
    ∷ (codes "PresharedKey", preshared_key)
    ∷ (codes "AllowedIPs", allowed_ips)
    ∷ (codes "Endpoint", endpoint)
    ∷ (codes "PersistentKeepalive", persistent_keepalive)
    ∷ (codes "FwMark", fw_mark)
    ∷ (codes "Table", table)
    ∷ (codes "PreUp", pre_up)
    ∷ (codes "PostUp", post_up)
    ∷ (codes "PreDown", pre_down)
    ∷ (codes "PostDown", post_down)
    ∷ (codes "SaveConfig", save_config)
    ∷ []

abbrev find_field : List (Bytes × Field) → Bytes → Field
find_field [] s = invalid
find_field ((name, field) ∷ names) s = if is_caseless_same s name then field else find_field names s

unfoldable pub get_field : Bytes → Field
get_field s = find_field field_names s

unfoldable pub get_sectiontype : Bytes → Field
get_sectiontype s =
    if is_caseless_same s (codes "[Peer]")
    then peer_section
    else if is_caseless_same s (codes "[Interface]")
    then interface_section
    else invalid

pub data HighlightType : Type 0 where
  section field private_key public_key preshared_key ip cidr host port mtu keepalive : HighlightType
  comment delimiter table fw_mark save_config cmd error end : HighlightType

pub record HighlightSpan : Type 0 where
  pub type : HighlightType
  pub start : ℕ
  pub len : ℕ

-- The characters of `parent` from `start` on.
abbrev pub span_text : Bytes → ℕ → ℕ → Bytes
span_text parent start len = take len (drop start parent)

-- The character behind a span, zero at the end of the text.
abbrev pub next_char : Bytes → ℕ → ℕ → ℕ
next_char parent start len = char_at (drop (start + len) parent) 0

-- Nothing is appended for an empty span.
unfoldable pub append_highlight_span :
    List HighlightSpan → ℕ → ℕ → HighlightType → List HighlightSpan
append_highlight_span spans start len type =
    if len == 0 then spans else spans ++ (record { type = type; start = start; len = len } ∷ [])

-- Where the first `c` stands, or the length.
unfoldable pub find_first : ℕ → Bytes → ℕ
find_first c [] = 0
find_first c (d ∷ s) = let rest = find_first c s in if d == c then 0 else suc rest

-- A network with its slash, in up to three spans.
unfoldable pub highlight_network : List HighlightSpan → Bytes → ℕ → ℕ → List HighlightSpan
highlight_network spans parent start len =
    let s = span_text parent start len in
    let slash = find_first b'/' s in
    if not (is_valid_network s (next_char parent start len))
    then append_highlight_span spans start len error
    else if slash == len
    then append_highlight_span spans start len ip
    else append_highlight_span
        (append_highlight_span (append_highlight_span spans start slash ip) (start + slash) 1
          delimiter)
        (start + slash + 1) (len - slash - 1) cidr

unfoldable pub highlight_multivalue_value :
    List HighlightSpan → Bytes → ℕ → ℕ → Field → List HighlightSpan
highlight_multivalue_value spans parent start len dns =
    let s = span_text parent start len in
    let next = next_char parent start len in
    append_highlight_span spans start len (
      if is_valid_ipv4 s next || is_valid_ipv6 s next
      then ip
      else if is_valid_hostname s
      then host
      else error)
highlight_multivalue_value spans parent start len address = highlight_network spans parent start len
highlight_multivalue_value spans parent start len allowed_ips =
    highlight_network spans parent start len
highlight_multivalue_value spans parent start len _ = append_highlight_span spans start len error

-- `current_span` and `len_at_last_space` of the loop over a list of values.
pub record ValueState : Type 0 where
  pub spans : List HighlightSpan
  pub start : ℕ
  pub len : ℕ
  pub kept : ℕ

abbrev pub is_blank : ℕ → Bool
is_blank c = c == b' ' || c == 9

-- One character, at the offset `i`.
unfoldable pub value_step : Bytes → Field → ℕ → ℕ → ValueState → ValueState
value_step parent f i c st =
    if c == b','
    then record {
      spans =
          append_highlight_span (highlight_multivalue_value st.spans parent st.start st.kept f) i 1
            delimiter;
      start = i + 1;
      len = 0;
      kept = 0;
    }
    else if is_blank c
    then (if i == st.start && st.len == 0
        then record st { start = st.start + 1 }
        else record st { len = st.len + 1 })
    else record st { len = st.len + 1; kept = st.len + 1 }

unfoldable pub value_loop : Bytes → Field → ℕ → Bytes → ValueState → ValueState
value_loop parent f i [] st = st
value_loop parent f i (c ∷ s) st = value_loop parent f (i + 1) s (value_step parent f i c st)

abbrev to_error : HighlightType → HighlightType
to_error delimiter = error
to_error type = type

-- `ret->spans[ret->len - 1]`; at the call there is one, the delimiter behind the field. If it is a
-- delimiter, it becomes an error.
unfoldable pub mark_last : List HighlightSpan → List HighlightSpan
mark_last [] = []
mark_last (sp ∷ []) = record sp { type = to_error sp.type } ∷ []
mark_last (sp ∷ next ∷ spans) = sp ∷ mark_last (next ∷ spans)

unfoldable pub highlight_multivalue :
    List HighlightSpan → Bytes → ℕ → ℕ → Field → List HighlightSpan
highlight_multivalue spans parent start len f =
    let st =
      value_loop parent f start (span_text parent start len)
        (record { spans = spans; start = start; len = 0; kept = 0 }) in
    if st.kept == 0
    then mark_last st.spans
    else highlight_multivalue_value st.spans parent st.start st.kept f

-- What stands in front of the last `c`, which is there in a valid endpoint: its length.
unfoldable pub find_last : ℕ → Bytes → ℕ
find_last c s = elim (split_last c s) [ none ↦ 0 | some (a, b) ↦ length a ]

abbrev checked : Bool → HighlightType → HighlightType
checked good type = if good then type else error

unfoldable pub highlight_endpoint : List HighlightSpan → Bytes → ℕ → ℕ → List HighlightSpan
highlight_endpoint spans parent start len =
    let s = span_text parent start len in
    let colon = find_last b':' s in
    if not (is_valid_endpoint s)
    then append_highlight_span spans start len error
    else append_highlight_span
        (append_highlight_span (append_highlight_span spans start colon host) (start + colon) 1
          delimiter)
        (start + colon + 1) (len - colon - 1) port

unfoldable pub highlight_value : List HighlightSpan → Bytes → ℕ → ℕ → Field → List HighlightSpan
highlight_value spans parent start len f =
    let s = span_text parent start len in
    let one = λ (good : Bool) (type : HighlightType).
      append_highlight_span spans start len (checked good type) in
    elim f [
      | private_key ↦ one (is_valid_key s) private_key
      | public_key ↦ one (is_valid_key s) public_key
      | preshared_key ↦ one (is_valid_key s) preshared_key
      | mtu ↦ one (is_valid_mtu s) mtu
      | save_config ↦ one (is_valid_saveconfig s) save_config
      | fw_mark ↦ one (is_valid_fwmark s) fw_mark
      | table ↦ one (is_valid_table s) table
      | pre_up ↦ one (is_valid_prepostupdown s) cmd
      | post_up ↦ one (is_valid_prepostupdown s) cmd
      | pre_down ↦ one (is_valid_prepostupdown s) cmd
      | post_down ↦ one (is_valid_prepostupdown s) cmd
      | listen_port ↦ one (is_valid_port s) port
      | persistent_keepalive ↦ one (is_valid_persistentkeepalive s) keepalive
      | endpoint ↦ highlight_endpoint spans parent start len
      | address ↦ highlight_multivalue spans parent start len address
      | dns ↦ highlight_multivalue spans parent start len dns
      | allowed_ips ↦ highlight_multivalue spans parent start len allowed_ips
      | _ ↦ append_highlight_span spans start len error
    ]
