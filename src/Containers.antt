-- ===== src/Containers.antt =====
-- tunnel/tools/amneziawg-tools/src/containers.h: devices, peers and allowed addresses.
-- A flag word is the record of its bits, a linked list the list of its nodes in order, and a
-- `char *` an optional byte string. The address of an allowed address is the list of its 32-bit
-- words in host order (one for IPv4, four for IPv6).
use special_potato.Prelude.{ℕ, Bool, false, List, [], Bytes, Option, none, replicate}
use special_potato.Encoding.{wg_key_len}

pub data Family : Type 0 where
  af_unspec af_inet af_inet6 : Family

pub record Sockaddr : Type 0 where
  pub sa_family : Family
  pub host : Bytes
  pub port : ℕ

pub record WgAllowedip : Type 0 where
  pub family : Family
  pub ip : List ℕ
  pub cidr : ℕ

pub record PeerFlags : Type 0 where
  pub remove_me : Bool
  pub replace_allowedips : Bool
  pub has_public_key : Bool
  pub has_preshared_key : Bool
  pub has_keepalive : Bool
  pub has_awg : Bool

pub record Timespec64 : Type 0 where
  pub tv_sec : ℕ
  pub tv_nsec : ℕ

pub record WgPeer : Type 0 where
  pub flags : PeerFlags
  pub public_key : Bytes
  pub preshared_key : Bytes
  pub endpoint : Sockaddr
  pub last_handshake_time : Timespec64
  pub rx_bytes : ℕ
  pub tx_bytes : ℕ
  pub persistent_keepalive_interval : ℕ
  pub awg : Bool
  pub allowedips : List WgAllowedip

pub record DeviceFlags : Type 0 where
  pub replace_peers : Bool
  pub has_private_key : Bool
  pub has_public_key : Bool
  pub has_listen_port : Bool
  pub has_fwmark : Bool
  pub has_jc : Bool
  pub has_jmin : Bool
  pub has_jmax : Bool
  pub has_s1 : Bool
  pub has_s2 : Bool
  pub has_h1 : Bool
  pub has_h2 : Bool
  pub has_h3 : Bool
  pub has_h4 : Bool
  pub has_s3 : Bool
  pub has_s4 : Bool
  pub has_i1 : Bool
  pub has_i2 : Bool
  pub has_i3 : Bool
  pub has_i4 : Bool
  pub has_i5 : Bool

pub record WgDevice : Type 0 where
  pub name : Bytes
  pub ifindex : ℕ
  pub flags : DeviceFlags
  pub public_key : Bytes
  pub private_key : Bytes
  pub fwmark : ℕ
  pub listen_port : ℕ
  pub peers : List WgPeer
  pub junk_packet_count : ℕ
  pub junk_packet_min_size : ℕ
  pub junk_packet_max_size : ℕ
  pub init_packet_junk_size : ℕ
  pub response_packet_junk_size : ℕ
  pub cookie_reply_packet_junk_size : ℕ
  pub transport_packet_junk_size : ℕ
  pub init_packet_magic_header : Option Bytes
  pub response_packet_magic_header : Option Bytes
  pub underload_packet_magic_header : Option Bytes
  pub transport_packet_magic_header : Option Bytes
  pub i1 : Option Bytes
  pub i2 : Option Bytes
  pub i3 : Option Bytes
  pub i4 : Option Bytes
  pub i5 : Option Bytes

-- What `calloc` gives: every bit is zero, every pointer NULL.
abbrev pub zero_key : Bytes
zero_key = replicate wg_key_len 0

abbrev pub no_address : Sockaddr
no_address = record { sa_family = af_unspec; host = []; port = 0 }

abbrev pub no_peer_flags : PeerFlags
no_peer_flags = record {
  remove_me = false;
  replace_allowedips = false;
  has_public_key = false;
  has_preshared_key = false;
  has_keepalive = false;
  has_awg = false;
}

abbrev pub new_peer : WgPeer
new_peer = record {
  flags = no_peer_flags;
  public_key = zero_key;
  preshared_key = zero_key;
  endpoint = no_address;
  last_handshake_time = record { tv_sec = 0; tv_nsec = 0 };
  rx_bytes = 0;
  tx_bytes = 0;
  persistent_keepalive_interval = 0;
  awg = false;
  allowedips = [];
}

abbrev pub no_device_flags : DeviceFlags
no_device_flags = record {
  replace_peers = false;
  has_private_key = false;
  has_public_key = false;
  has_listen_port = false;
  has_fwmark = false;
  has_jc = false;
  has_jmin = false;
  has_jmax = false;
  has_s1 = false;
  has_s2 = false;
  has_h1 = false;
  has_h2 = false;
  has_h3 = false;
  has_h4 = false;
  has_s3 = false;
  has_s4 = false;
  has_i1 = false;
  has_i2 = false;
  has_i3 = false;
  has_i4 = false;
  has_i5 = false;
}

abbrev pub new_device : WgDevice
new_device = record {
  name = [];
  ifindex = 0;
  flags = no_device_flags;
  public_key = zero_key;
  private_key = zero_key;
  fwmark = 0;
  listen_port = 0;
  peers = [];
  junk_packet_count = 0;
  junk_packet_min_size = 0;
  junk_packet_max_size = 0;
  init_packet_junk_size = 0;
  response_packet_junk_size = 0;
  cookie_reply_packet_junk_size = 0;
  transport_packet_junk_size = 0;
  init_packet_magic_header = none;
  response_packet_magic_header = none;
  underload_packet_magic_header = none;
  transport_packet_magic_header = none;
  i1 = none;
  i2 = none;
  i3 = none;
  i4 = none;
  i5 = none;
}
