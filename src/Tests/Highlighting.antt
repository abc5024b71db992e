-- ===== src/Tests/Highlighting.antt =====
-- The theorems on the highlighter at concrete inputs.
use special_potato.Prelude.{ℕ, ◌^◌, ◌≤◌, ◌<◌, true, [], Bytes, ◌≡◌, ◌↔◌, refl, arith, codes, length}
use special_potato.Encoding.{key_from_base64}
use special_potato.Containers.{new_peer, new_device}
use special_potato.Outcome.{ok}
use special_potato.Config.Number.{
  set_keepalive, set_fwmark, parse_persistent_keepalive, parse_fwmark,
}
use special_potato.Highlighter.Classes.{is_valid_key}
use special_potato.Highlighter.Classes.Laws.{is_valid_key_iff}
use special_potato.Highlighter.Host.{is_valid_hostname, is_valid_ipv4}
use special_potato.Highlighter.Host.Name.{is_host_name, is_valid_hostname_lem}
use special_potato.Highlighter.Host.Ipv4.{IsDotted, is_valid_ipv4_iff}
use special_potato.Highlighter.Value.Number.{
  is_valid_persistentkeepalive-parses, is_valid_fwmark-parses,
}
use special_potato.Highlighter.Spans.Order.{InOrder}
use special_potato.Highlighter.Scan.{highlight_spans}
use special_potato.Highlighter.Scan.Safe.{highlight_spans-InOrder}
use special_potato.Tests.{demo, all_bytes_sound}

abbrev text : Bytes
text = codes "[Peer] # one\nAllowedIPs = 10.0.0.0/8, fe80::1/64,\nEndpoint = a:1\n"

highlight_spans-InOrder_example : InOrder 0 (highlight_spans text) (length text)
highlight_spans-InOrder_example = highlight_spans-InOrder text

abbrev key_text : Bytes
key_text = codes "/wECAwQFBgcICQoLDA0ODxAREhMUFRYXGBkaGxwdHh8="

is_valid_key_iff_example :
    (is_valid_key key_text ≡ true)
    ↔ ((key : Bytes) × (key_from_base64 true [] key_text ≡ (true, key)))
is_valid_key_iff_example = is_valid_key_iff true [] key_text (all_bytes_sound key_text refl)

is_valid_hostname_lem_example :
    is_valid_hostname (codes "vpn..example") ≡ is_host_name (codes "vpn..example")
is_valid_hostname_lem_example = is_valid_hostname_lem (codes "vpn..example")

-- Two dots in a row are accepted.
two_dots : is_valid_hostname (codes "vpn..example") ≡ true
unfolding is_valid_hostname special_potato.Highlighter.Host.hostname_loop
    special_potato.Highlighter.Classes.is_decimal special_potato.Highlighter.Classes.is_alphabet
two_dots = refl

is_valid_ipv4_iff_example :
    (is_valid_ipv4 (codes "192.168.0.255") b'/' ≡ true) ↔ IsDotted (codes "192.168.0.255")
is_valid_ipv4_iff_example = is_valid_ipv4_iff (codes "192.168.0.255") b'/'

is_valid_persistentkeepalive-parses_example :
    (n : ℕ) × (n ≤ 65535)
    × (parse_persistent_keepalive demo (codes "025") new_peer ≡ ok (set_keepalive n new_peer))
unfolding special_potato.Highlighter.Value.is_valid_persistentkeepalive
    special_potato.Highlighter.Classes.is_same special_potato.Highlighter.Value.is_valid_uint
    special_potato.Highlighter.Value.dec_loop special_potato.Highlighter.Classes.is_decimal
is_valid_persistentkeepalive-parses_example =
    is_valid_persistentkeepalive-parses demo (codes "025") new_peer (omega arith)
      (all_bytes_sound (codes "025") refl) refl

is_valid_fwmark-parses_example :
    (n : ℕ) × (n < 2 ^ 32)
    × (parse_fwmark demo (codes "0xCa6c") new_device ≡ ok (set_fwmark n new_device))
unfolding special_potato.Highlighter.Value.is_valid_fwmark
    special_potato.Config.Number.has_hex_prefix special_potato.Highlighter.Value.hex_loop
    special_potato.Highlighter.Classes.is_same special_potato.Highlighter.Value.is_valid_uint
    special_potato.Highlighter.Value.dec_loop special_potato.Highlighter.Classes.is_decimal
is_valid_fwmark-parses_example =
    is_valid_fwmark-parses demo (codes "0xCa6c") new_device (omega arith)
      (all_bytes_sound (codes "0xCa6c") refl) refl
