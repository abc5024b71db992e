-- ===== src/Kernel/Answer.antt =====
-- The attributes of an answer of the kernel, for `kernel_get_device`.
use special_potato.Prelude.{
  ℕ, ◌+◌, ◌*◌, ◌^◌, Bool, false, List, [], ◌∷◌, ◌++◌, Bytes, Option, none, some, leb, ◌==◌,
  if◌then◌else◌, length, take, drop,
}
use special_potato.Containers.{
  Family, af_unspec, af_inet, af_inet6, Sockaddr, Timespec64, WgAllowedip,
}

-- The attributes that the readers tell apart.
pub data IpKind : Type 0 where
  family_kind ipaddr_kind cidr_mask_kind other_ip : IpKind

pub data PeerKind : Type 0 where
  public_key_kind preshared_key_kind endpoint_kind keepalive_kind handshake_kind rx_bytes_kind
        tx_bytes_kind flags_kind awg_kind other_peer :
      PeerKind

pub data DeviceKind : Type 0 where
  ifindex_kind ifname_kind private_key_kind device_key_kind listen_port_kind fwmark_kind jc_kind
        jmin_kind jmax_kind s1_kind s2_kind s3_kind s4_kind h1_kind h2_kind h3_kind h4_kind i1_kind
        i2_kind i3_kind i4_kind i5_kind other_device :
      DeviceKind

pub record IpAttr : Type 0 where
  pub kind : IpKind
  pub payload : Bytes

-- An attribute with a payload, or `WGPEER_A_ALLOWEDIPS`: the attributes of each allowed address.
pub data PeerAttr : Type 0 where
  plain : PeerKind → Bytes → PeerAttr
  allowedips : List (List IpAttr) → PeerAttr

-- An attribute with a payload, or `WGDEVICE_A_PEERS`: the attributes of each peer.
pub data DeviceAttr : Type 0 where
  single : DeviceKind → Bytes → DeviceAttr
  peers : List (List PeerAttr) → DeviceAttr

-- What libmnl and the machine make of a payload: `number w` is a number of w bytes, if
-- `mnl_attr_validate` accepts the payload as one; the strings likewise; then the layout of a
-- `struct sockaddr`, with the sizes of a family's, and of a `struct timespec64`.
pub record Reads : Type 0 where
  pub number : ℕ → Bytes → Option ℕ
  pub string : Bytes → Option Bytes
  pub nul_string : Bytes → Option Bytes
  pub is_flag : Bytes → Bool
  pub family_of : Bytes → Family
  pub sockaddr_size : ℕ
  pub sockaddr_len : Family → ℕ
  pub sockaddr_of : Bytes → Sockaddr
  pub timespec_len : ℕ
  pub timespec_of : Bytes → Timespec64

-- The address of an allowed address in memory: its 16 bytes as four words in network order.
pub record IpState : Type 0 where
  pub family : Family
  pub memory : List ℕ
  pub cidr : ℕ

abbrev pub new_ip : IpState
new_ip = record { family = af_unspec; memory = 0 ∷ 0 ∷ 0 ∷ 0 ∷ []; cidr = 0 }

abbrev pub words_of : Bytes → List ℕ
words_of (a ∷ b ∷ c ∷ d ∷ s) = (a * 2 ^ 24 + b * 2 ^ 16 + c * 2 ^ 8 + d) ∷ words_of s
words_of _ = []

-- `memcpy` to the start of the address.
abbrev pub copy_words : List ℕ → List ℕ → List ℕ
copy_words ws memory = ws ++ drop (length ws) memory

abbrev pub word_count : Family → ℕ
word_count af_inet = 1
word_count _ = 4

abbrev pub allowedip_of : IpState → WgAllowedip
allowedip_of st = record {
  family = st.family;
  ip = take (word_count st.family) st.memory;
  cidr = st.cidr;
}

-- `AF_INET` and `AF_INET6` on Linux.
abbrev pub family_at : ℕ → Family
family_at n = if n == 2 then af_inet else if n == 10 then af_inet6 else af_unspec

abbrev pub is_valid_ip : IpState → Bool
is_valid_ip st = elim (st.family) [
  | af_unspec ↦ false
  | af_inet ↦ leb st.cidr 32
  | af_inet6 ↦ leb st.cidr 128
]

-- What is stored if there is a value.
abbrev pub with_value : {A B : Type 0} → Option B → (B → A → A) → A → A
with_value none set a = a
with_value (some b) set a = set b a

-- A key of 32 bytes, or no change.
abbrev pub with_key : {A : Type 0} → Bytes → (Bytes → A → A) → A → A
with_key payload set a = if length payload == 32 then set payload a else a
