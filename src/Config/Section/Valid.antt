-- ===== src/Config/Section/Valid.antt =====
-- The ranges of what a configuration holds, and what is assumed of the system for them.
use special_potato.Prelude.{ℕ, ◌^◌, ◌≤◌, ◌<◌, List, Bytes, Option, none, some, All, length, ◌≡◌}
use special_potato.Encoding.{IsKey}
use special_potato.Containers.{WgPeer, WgDevice}
use special_potato.Outcome.{System, Addrinfo, resolved}
use special_potato.Config.Number.{max_awg_string_len}
use special_potato.Config.Allowed.Laws.{ReadsAddresses, IsAllowedip}

-- A string option that is shorter than the limit.
abbrev pub IsShort : Option Bytes → Type 0
IsShort none = Unit
IsShort (some t) = length t < max_awg_string_len

pub record IsPeer (p : WgPeer) : Type 0 where
  pub public_key : IsKey p.public_key
  pub preshared_key : IsKey p.preshared_key
  pub keepalive : p.persistent_keepalive_interval ≤ 65535
  pub allowed : All IsAllowedip p.allowedips

-- `C` is what holds of the list of peers.
pub record IsDevice (C : List WgPeer → Type 0) (d : WgDevice) : Type 0 where
  pub private_key : IsKey d.private_key
  pub fwmark : d.fwmark < 2 ^ 32
  pub listen_port : d.listen_port ≤ 65535
  pub jc : d.junk_packet_count ≤ 65535
  pub jmin : d.junk_packet_min_size ≤ 65535
  pub jmax : d.junk_packet_max_size ≤ 65535
  pub s1 : d.init_packet_junk_size ≤ 65535
  pub s2 : d.response_packet_junk_size ≤ 65535
  pub s3 : d.cookie_reply_packet_junk_size ≤ 65535
  pub s4 : d.transport_packet_junk_size ≤ 65535
  pub h1 : IsShort d.init_packet_magic_header
  pub h2 : IsShort d.response_packet_magic_header
  pub h3 : IsShort d.underload_packet_magic_header
  pub h4 : IsShort d.transport_packet_magic_header
  pub i1 : IsShort d.i1
  pub i2 : IsShort d.i2
  pub i3 : IsShort d.i3
  pub i4 : IsShort d.i4
  pub i5 : IsShort d.i5
  pub peers : C d.peers

-- Ports have 16 bits, and the numeric readers give whole addresses.
pub record IsSystem (sys : System) : Type 0 where
  pub reads : ReadsAddresses sys
  pub ports :
      (n : ℕ) (host : Option Bytes) (service : Bytes) {a : Addrinfo}
      → sys.getaddrinfo n host service ≡ resolved a
      → a.ai_addr.port ≤ 65535
