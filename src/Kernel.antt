-- ===== src/Kernel.antt =====
-- tunnel/tools/amneziawg-tools/src/ipc-linux.h: requests to the kernel over netlink. Here are the
-- attributes of a request and the room they take; Set writes the requests, by Attrs and Nest. The functions `mnl_` are
-- libmnl's: of them stands here that an attribute with a payload of n bytes takes `attr_size n` bytes
-- of the message, a nest `attr_size 0` for its own header, and that the checked ones change nothing
-- and say so where the message would become longer than the buffer.
pub mod Attrs
pub mod Nest
pub mod Set
pub mod Answer
pub mod Get
pub mod Fetch
use special_potato.Prelude.{
  ℕ, ◌+◌, Bool, true, false, List, [], ◌∷◌, ◌++◌, Bytes, Option, none, some, leb, if◌then◌else◌,
  length,
}
use special_potato.Containers.{Family, af_unspec, af_inet, af_inet6, Sockaddr}

-- The library and the machine: the room of an attribute, the length of a message that is empty,
-- `SOCKET_BUFFER_SIZE`, `ULONG_MAX` and `EINVAL`.
pub record Netlink : Type 0 where
  pub attr_size : ℕ → ℕ
  pub header_size : ℕ
  pub buffer_size : ℕ
  pub ulong_max : ℕ
  pub einval : ℕ

-- What an attribute holds: a number of a width in bytes, bytes, a string with its terminator, the
-- words of an address, or a socket address.
pub data Payload : Type 0 where
  number : ℕ → ℕ → Payload
  blob : Bytes → Payload
  strz : Bytes → Payload
  words : List ℕ → Payload
  address : Sockaddr → Payload

-- `sizeof` of the address structures.
abbrev address_len : Family → ℕ
address_len af_unspec = 0
address_len af_inet = 16
address_len af_inet6 = 28

abbrev pub word_len : List ℕ → ℕ
word_len [] = 0
word_len (w ∷ ws) = 4 + word_len ws

abbrev pub payload_len : Payload → ℕ
payload_len (number width n) = width
payload_len (blob s) = length s
payload_len (strz s) = length s + 1
payload_len (words ws) = word_len ws
payload_len (address a) = address_len a.sa_family

-- The `WGDEVICE_A_`, `WGPEER_A_` and `WGALLOWEDIP_A_` numbers that are written.
pub data DeviceType : Type 0 where
  ifname private_key listen_port fwmark flags jc jmin jmax s1 s2 s3 s4 h1 h2 h3 h4 i1 i2 i3 i4 i5 :
      DeviceType

pub data PeerType : Type 0 where
  peer_public_key peer_preshared_key peer_endpoint peer_keepalive peer_awg peer_flags : PeerType

pub data IpType : Type 0 where
  ip_family ip_addr ip_cidr_mask : IpType

pub record Attr (T : Type 0) : Type 0 where
  pub type : T
  pub payload : Payload

pub record PeerNest : Type 0 where
  pub attrs : List (Attr PeerType)
  pub allowedips : Option (List (List (Attr IpType)))

pub record Message : Type 0 where
  pub attrs : List (Attr DeviceType)
  pub peers : Option (List PeerNest)

module _ (nl : Netlink) where
  abbrev pub attr_room : {T : Type 0} → Attr T → ℕ
  attr_room a = nl.attr_size (payload_len a.payload)

  abbrev pub attrs_room : {T : Type 0} → List (Attr T) → ℕ
  attrs_room [] = 0
  attrs_room (a ∷ attrs) = attr_room a + attrs_room attrs

  -- `buflen` is not passed by `room` more bytes at the length `size`.
  abbrev pub reserve : ℕ → ℕ → Option ℕ
  reserve size room = if leb (size + room) nl.buffer_size then some (size + room) else none

  -- `mnl_attr_nest_start_check`.
  abbrev pub nest_start_check : ℕ → Option ℕ
  nest_start_check size = reserve size (nl.attr_size 0)

  -- The `mnl_attr_put_check` of some attributes, up to the first that fails.
  unfoldable pub put_checks : {T : Type 0} → ℕ → List (Attr T) → Option ℕ
  put_checks size [] = some size
  put_checks size (a ∷ attrs) = elim (reserve size (attr_room a)) [
    | none ↦ none
    | some size' ↦ put_checks size' attrs
  ]
