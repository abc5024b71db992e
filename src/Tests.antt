-- ===== src/Tests.antt =====
-- The theorems at concrete inputs.
pub mod Highlighting
pub mod Syncing
pub mod Dumping
pub mod Requests
pub mod Answers
pub mod Listing
pub mod Keys
pub mod Userspace
use special_potato.Prelude.{
  inr, ℕ, ◌<◌, ◌+◌, ◌-◌, ◌*◌, ◌%◌, ◌++◌, ◌^◌, Bool, true, false, List, [], ◌∷◌, Bytes, IsBytes, All,
  none, some, ◌≡◌, ◌≢◌, ◌↔◌, ◌⊎◌, inl, refl, leb, u32, if◌then◌else◌, arith, map, codes, ltb, ◌&&◌,
  not, ◌==◌, char_to_int,
}
use special_potato.Ctype.{char_is_space, char_is_digit, char_is_alpha}
use special_potato.Ctype.Laws.{is_white, is_decimal, is_letter, char_classes}
use special_potato.Encoding.{
  IsKey, key_from_base64, key_to_base64, key_from_hex, key_to_hex, key_is_zero, encode_groups,
  encode_base64, encode_digit,
}
use special_potato.Encoding.Base64.RoundTrip.{key_from_base64_iff}
use special_potato.Encoding.Hex.{lower}
use special_potato.Encoding.Hex.RoundTrip.{key_from_hex_iff}
use special_potato.Encoding.Zero.{key_is_zero_iff}
use special_potato.Containers.{
  WgPeer, WgDevice, WgAllowedip, new_peer, new_device, zero_key, af_inet,
}
use special_potato.Outcome.{ok, error, exit, System, gai_error, eai_other, unreadable, Ensures}
use special_potato.Libc.{split_on, split_first}
use special_potato.Libc.Strtoul.{strtoul}
use special_potato.Libc.Printf.{print_u, print_x}
use special_potato.Config.Number.{
  parse_fwmark, parse_persistent_keepalive, parse_uint16, set_fwmark, set_keepalive,
}
use special_potato.Config.Number.Laws.{
  parse_fwmark-print, parse_fwmark_saturates, parse_persistent_keepalive-print_u,
  parse_uint16-print_u,
}
use special_potato.Config.Netmask.{validate_netmask}
use special_potato.Config.Netmask.Laws.{address_value, validate_netmask_iff}
use special_potato.Config.Address.{split_endpoint, resolve_with, finite}
use special_potato.Config.Address.Laws.{
  Lacks, written_endpoint, split_endpoint-written, Ended, resolve_with-Ended,
}
use special_potato.Config.Allowed.{
  parse_allowedips, allowedips_loop, parse_allowedip, parse_ip, parse_cidr,
}
use special_potato.Config.Allowed.Laws.{
  IsAllowedip, ReadsAddresses, read_all, parse_allowedips-appends,
}
use special_potato.Config.Section.Valid.{IsPeer, IsDevice, IsSystem}
use special_potato.Config.Line.{
  before_comment, clean_line, is_awg_special_handshake_key, config_read_lines, config_read_init,
}
use special_potato.Config.Line.Safe.{config_read_lines-IsDevice}
use special_potato.Config.Command.{config_read_cmd}
use special_potato.Config.Line.{config_read_finish}
use special_potato.Config.Line.Finish.{IsNamed, config_read_finish_iff}
use special_potato.Config.Section.{ConfigCtx}
use special_potato.Setconf.{sync_with}
use special_potato.Show.{time_parts, peer_cmp}
use special_potato.Show.Laws.{time_parts_lem, Orders, peer_cmp-Orders}
use special_potato.Terminal.{filter_ansi}
use special_potato.Terminal.Laws.{
  Piece, plain, color, written, uncolored, IsPiece, filter_ansi-written,
}
use special_potato.Config.Command.Safe.{ReadsBytes}
use special_potato.Config.Command.Run.{IsCommanded, config_read_cmd-IsDevice}
use special_potato.Config.Line.Laws.{black, clean_line-black}

-- A system with 64-bit `unsigned long`, one known address, and names that never resolve.
abbrev pub demo : System
demo = record {
  char_signed = true;
  ulong_max = 2 ^ 64 - 1;
  getaddrinfo = λ n host service. gai_error eai_other;
  inet_pton4 = λ s. some (0xc0a80000 ∷ []);
  inet_pton6 = λ s. some (0x20010db8 ∷ 0 ∷ 0 ∷ 0 ∷ []);
  retries = none;
  open_file = λ path. unreadable;
  patience = 100;
}

abbrev demo32 : System
demo32 = record demo { ulong_max = 2 ^ 32 - 1 }

-- A text of bytes, by computation.
abbrev pub all_bytes : Bytes → Bool
all_bytes [] = true
all_bytes (c ∷ s) = ltb c 256 && all_bytes s

pub all_bytes_sound : (s : Bytes) → all_bytes s ≡ true → IsBytes s
all_bytes_sound [] h = tt
all_bytes_sound (c ∷ s) h = (ground arith, all_bytes_sound s (ground (arith, h)))

abbrev pub all_bytes_all : List Bytes → Bool
all_bytes_all [] = true
all_bytes_all (s ∷ lines) = all_bytes s && all_bytes_all lines

pub all_bytes_all-All : (lines : List Bytes) → all_bytes_all lines ≡ true → All IsBytes lines
all_bytes_all-All [] h = tt
all_bytes_all-All (s ∷ lines) h =
    (all_bytes_sound s (ground (arith, h)), all_bytes_all-All lines (ground (arith, h)))

-- A text without a character, by computation.
abbrev pub without : ℕ → Bytes → Bool
without d [] = true
without d (c ∷ s) = not (c == d) && without d s

pub without_sound : (d : ℕ) (s : Bytes) → without d s ≡ true → Lacks d s
without_sound d [] h = tt
without_sound d (c ∷ s) h = (ground (arith, h), without_sound d s (ground (arith, h)))

abbrev pub key : Bytes
key =
    255 ∷ 1 ∷ 2 ∷ 3 ∷ 4 ∷ 5 ∷ 6 ∷ 7 ∷ 8 ∷ 9 ∷ 10 ∷ 11 ∷ 12 ∷ 13 ∷ 14 ∷ 15 ∷ 16 ∷ 17 ∷ 18 ∷ 19 ∷ 20
    ∷ 21 ∷ 22 ∷ 23 ∷ 24 ∷ 25 ∷ 26 ∷ 27 ∷ 28 ∷ 29 ∷ 30 ∷ 31 ∷ []

pub demo-ReadsAddresses : ReadsAddresses demo
demo-ReadsAddresses = record { pton4 = λ s e. ground (arith, e); pton6 = λ s e. ground (arith, e) }

demo-IsSystem : IsSystem demo
demo-IsSystem = record { reads = demo-ReadsAddresses; ports = λ n host service e. cc }

abbrev lines : List Bytes
lines =
    codes "[Interface]"
    ∷ codes "Jc = 4 # packets"
    ∷ codes "I1 = <b 0x f>"
    ∷ codes "[Peer]"
    ∷ codes "AllowedIPs = 192.168.0.0/16, 192.168.0.0/24"
    ∷ []

lines-IsBytes : All IsBytes lines
lines-IsBytes = all_bytes_all-All lines refl

abbrev clean_input : Bytes
clean_input = codes " Jc = 4 # packets"

clean_input-IsBytes : IsBytes clean_input
clean_input-IsBytes = all_bytes_sound clean_input refl

config_read_lines-IsDevice_example :
    Ensures
      (λ ctx. IsDevice (All IsPeer) ctx.device)
      (config_read_lines demo lines (config_read_init false))
config_read_lines-IsDevice_example =
    config_read_lines-IsDevice demo demo-IsSystem false lines lines-IsBytes

clean_line-black_example :
    (black (clean_line demo clean_input) ≡ black (before_comment clean_input))
    × (is_awg_special_handshake_key clean_input ≡ false
        → clean_line demo clean_input ≡ black (before_comment clean_input))
clean_line-black_example = clean_line-black demo clean_input clean_input-IsBytes

key_from_base64_iff_example :
    (key_from_base64 true zero_key (key_to_base64 key) ≡ (true, key))
    ↔ (IsKey key × (key_to_base64 key ≡ key_to_base64 key))
unfolding key_to_base64 encode_groups encode_base64 encode_digit
key_from_base64_iff_example =
    key_from_base64_iff true zero_key (key_to_base64 key) key
      (all_bytes_sound (key_to_base64 key) refl)

key_from_hex_iff_example :
    (key_from_hex zero_key (key_to_hex key) ≡ (true, key))
    ↔ (IsKey key × (map lower (key_to_hex key) ≡ key_to_hex key))
unfolding key_to_hex
key_from_hex_iff_example =
    key_from_hex_iff zero_key (key_to_hex key) key (all_bytes_sound (key_to_hex key) refl)

key_is_zero_iff_example : (key_is_zero key ≡ true) ↔ All (λ b. b ≡ 0) key
key_is_zero_iff_example = key_is_zero_iff key (all_bytes_sound key refl)

char_classes_example :
    (char_is_space (char_to_int true 0xa0) ≡ is_white 0xa0)
    × (char_is_digit (char_to_int true 0xa0) ≡ is_decimal 0xa0)
    × (char_is_alpha (char_to_int true 0xa0) ≡ is_letter 0xa0)
char_classes_example = char_classes true 0xa0 (omega arith)

parse_persistent_keepalive-print_u_example :
    parse_persistent_keepalive demo (print_u 25) new_peer
    ≡ (if leb 25 65535 then ok (set_keepalive 25 new_peer) else error)
parse_persistent_keepalive-print_u_example =
    parse_persistent_keepalive-print_u demo 25 new_peer (omega arith)

parse_fwmark-print_example :
    let result = if leb 51820 (2 ^ 32 - 1) then ok (set_fwmark 51820 new_device) else error in
    (parse_fwmark demo (print_u 51820) new_device ≡ result)
    × (parse_fwmark demo (b'0' ∷ b'x' ∷ print_x 51820) new_device ≡ result)
parse_fwmark-print_example = parse_fwmark-print demo 51820 new_device (omega arith)

parse_fwmark_saturates_example :
    parse_fwmark demo32 (print_u 4294967297) new_device ≡ ok (set_fwmark (2 ^ 32 - 1) new_device)
parse_fwmark_saturates_example =
    parse_fwmark_saturates demo32 4294967297 new_device refl (omega arith)

parse_uint16-print_u_example :
    parse_uint16 demo (print_u 4294967301)
    ≡ (if leb (u32 4294967301) 65535 then ok (u32 4294967301) else exit)
parse_uint16-print_u_example = parse_uint16-print_u demo 4294967301

abbrev network : WgAllowedip
network = record { family = af_inet; ip = 0xc0a80000 ∷ []; cidr = 16 }

validate_netmask_iff_example :
    (validate_netmask network ≡ true) ↔ (address_value (0xc0a80000 ∷ []) 1 % 2 ^ (32 * 1 - 16) ≡ 0)
validate_netmask_iff_example = validate_netmask_iff network 1 (omega arith, tt) (inl (refl, refl))

abbrev host6 : Bytes
host6 = codes "2001:db8::1"

not_empty : codes "51820" ≢ []
not_empty e = cc

split_endpoint-written_example :
    split_endpoint (written_endpoint true host6 (codes "51820")) ≡ some (host6, codes "51820")
split_endpoint-written_example =
    split_endpoint-written true host6 (codes "51820") not_empty
      (without_sound b':' (codes "51820") refl) (without_sound b']' host6 refl) (omega arith)

resolve_with-Ended_example :
    Ended
      (λ n. demo.getaddrinfo n (some (codes "vpn")) (codes "51820"))
      15
      (resolve_with demo (finite 15) (codes "vpn") (codes "51820"))
resolve_with-Ended_example = resolve_with-Ended demo (codes "vpn") (codes "51820") 15

abbrev two_networks : Bytes
two_networks = codes "192.168.0.0/16,192.168.0.0/24"

abbrev with_networks : WgPeer
with_networks = record new_peer {
  flags = record (new_peer.flags) { replace_allowedips = true };
  allowedips = network ∷ record network { cidr = 24 } ∷ [];
}

parse_allowedips-appends_example :
    (new : List WgAllowedip) × (((two_networks ≡ []) × (new ≡ []))
      ⊎ (read_all demo (split_on b',' two_networks) ≡ ok new))
    × (with_networks ≡ record new_peer {
      flags = record (new_peer.flags) { replace_allowedips = true };
      allowedips = new_peer.allowedips ++ new;
    })
    × All IsAllowedip new
unfolding parse_allowedips allowedips_loop split_on parse_allowedip parse_ip split_first parse_cidr
    char_is_digit strtoul
parse_allowedips-appends_example =
    parse_allowedips-appends demo demo-ReadsAddresses two_networks false new_peer (λ e. refl) refl

abbrev arguments : List Bytes
arguments = codes "jc" ∷ codes "4" ∷ codes "peer" ∷ key_to_base64 key ∷ codes "remove" ∷ []

abbrev pub named_peer : WgPeer
named_peer = record new_peer {
  flags = record (new_peer.flags) { has_public_key = true };
  public_key = key;
}

abbrev pub running : WgDevice
running = record new_device {
  peers = named_peer ∷ record named_peer { public_key = zero_key } ∷ [];
}

abbrev pub wanted : WgDevice
wanted = record new_device { peers = named_peer ∷ [] }

abbrev read_ctx : ConfigCtx
read_ctx = record (config_read_init false) { device = wanted }

config_read_finish_iff_example :
    (config_read_finish read_ctx ≡ ok wanted)
    ↔ ((read_ctx.device ≡ wanted) × All IsNamed read_ctx.device.peers)
config_read_finish_iff_example = config_read_finish_iff read_ctx wanted

time_parts_lem_example :
    let p = time_parts 100000 in
    ((((p.years * 365 + p.days) * 24 + p.hours) * 60 + p.minutes) * 60 + p.seconds ≡ 100000)
    × (p.days < 365)
    × (p.hours < 24)
    × (p.minutes < 60)
    × (p.seconds < 60)
time_parts_lem_example = time_parts_lem 100000

-- Times in a `time_t` of 32 bits: the second is later by one nanosecond.
abbrev earlier : WgPeer
earlier = record named_peer { last_handshake_time = record { tv_sec = 5000000000; tv_nsec = 7 } }

abbrev later : WgPeer
later = record named_peer { last_handshake_time = record { tv_sec = 5000000000; tv_nsec = 8 } }

peer_cmp-Orders_example :
    Orders (peer_cmp false earlier later) (earlier.last_handshake_time) (later.last_handshake_time)
peer_cmp-Orders_example =
    peer_cmp-Orders false earlier later (omega arith) (omega arith)
      (inr (inr (omega arith, omega arith)))

abbrev colored : List Piece
colored =
    plain (codes "1 ") ∷ color (codes "36") b'm' ∷ plain (codes "day") ∷ color (codes "0") b'm' ∷ []

colored-IsPiece : All (IsPiece true) colored
unfolding char_is_alpha
colored-IsPiece = (
  without_sound 0x1b (codes "1 ") refl,
  (((refl, (refl, tt)), refl), (without_sound 0x1b (codes "day") refl, (((refl, tt), refl), tt))),
)

filter_ansi-written_example : filter_ansi true false (written colored) ≡ uncolored colored
filter_ansi-written_example = filter_ansi-written true colored colored-IsPiece

abbrev plain_arguments : List Bytes
plain_arguments =
    codes "jc"
    ∷ codes "4"
    ∷ codes "peer"
    ∷ codes "AAAAAAAAAAAAAAAAAAAAAAAAAAAAAAAAAAAAAAAAAAA="
    ∷ codes "remove"
    ∷ []

demo-ReadsBytes : ReadsBytes demo
demo-ReadsBytes path text e = cc

config_read_cmd-IsDevice_example :
    Ensures (IsCommanded demo demo-IsSystem demo-ReadsBytes) (config_read_cmd demo plain_arguments)
config_read_cmd-IsDevice_example =
    config_read_cmd-IsDevice demo demo-IsSystem demo-ReadsBytes plain_arguments
      (all_bytes_all-All plain_arguments refl)
