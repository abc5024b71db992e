-- ===== src/Kernel/Attrs.antt =====
-- The attributes that `kernel_set_device` writes for a peer and for an allowed address.
use special_potato.Prelude.{
  ℕ, ◌+◌, Bool, true, false, not, ◌&&◌, List, [], ◌∷◌, ◌++◌, ◌==◌, if◌then◌else◌,
}
use special_potato.Containers.{Family, af_unspec, af_inet, af_inet6, Sockaddr, WgAllowedip, WgPeer}
use special_potato.Kernel.{Payload, PeerType, IpType, Attr}
use special_potato.Kernel.Payload.{number, blob, words, address}
use special_potato.Kernel.PeerType.{
  peer_public_key, peer_preshared_key, peer_endpoint, peer_keepalive, peer_awg, peer_flags,
}
use special_potato.Kernel.IpType.{ip_family, ip_addr, ip_cidr_mask}

-- An attribute under its condition.
abbrev pub attr_if : {T : Type 0} → Bool → T → Payload → List (Attr T)
attr_if true type payload = record { type = type; payload = payload } ∷ []
attr_if false type payload = []

abbrev bit : Bool → ℕ → ℕ
bit true n = n
bit false n = 0

-- `WGPEER_F_REMOVE_ME`, `WGPEER_F_REPLACE_ALLOWEDIPS` and `WGPEER_F_HAS_AWG`.
abbrev pub peer_bits : Bool → WgPeer → ℕ
peer_bits fresh p =
    bit p.flags.remove_me 1 + bit (fresh && p.flags.replace_allowedips) 2 + bit p.flags.has_awg 8

abbrev pub is_null : List WgAllowedip → Bool
is_null [] = true
is_null (a ∷ ips) = false

abbrev pub endpoint_attr : Sockaddr → Family → List (Attr PeerType)
endpoint_attr a af_unspec = []
endpoint_attr a _ = attr_if true peer_endpoint (address a)

-- What only the first nest of a peer has.
abbrev pub first_attrs : WgPeer → List (Attr PeerType)
first_attrs p =
    attr_if p.flags.has_preshared_key peer_preshared_key (blob p.preshared_key)
    ++ endpoint_attr p.endpoint p.endpoint.sa_family
    ++ attr_if p.flags.has_keepalive peer_keepalive (number 2 p.persistent_keepalive_interval)

-- The attributes in front of `WGPEER_A_AWG`, which are written under a check.
abbrev pub lead_attrs : Bool → WgPeer → List (Attr PeerType)
lead_attrs fresh p =
    attr_if true peer_public_key (blob p.public_key) ++ (if fresh then first_attrs p else [])

abbrev pub awg_attrs : WgPeer → List (Attr PeerType)
awg_attrs p = attr_if (p.flags.has_awg && p.awg) peer_awg (blob [])

abbrev pub flags_attrs : Bool → WgPeer → List (Attr PeerType)
flags_attrs fresh p =
    attr_if (not (peer_bits fresh p == 0)) peer_flags (number 4 (peer_bits fresh p))

abbrev pub addr_attr : WgAllowedip → Family → List (Attr IpType)
addr_attr a af_unspec = []
addr_attr a _ = attr_if true ip_addr (words a.ip)

abbrev pub family_number : Family → ℕ
family_number af_unspec = 0
family_number af_inet = 2
family_number af_inet6 = 10

abbrev pub ip_attrs : WgAllowedip → List (Attr IpType)
ip_attrs a =
    attr_if true ip_family (number 2 (family_number a.family))
    ++ addr_attr a a.family
    ++ attr_if true ip_cidr_mask (number 1 a.cidr)

-- `allowedip` where the nest of the addresses starts.
abbrev pub left_of : List WgAllowedip → WgPeer → List WgAllowedip
left_of [] p = p.allowedips
left_of (a ∷ ips) p = a ∷ ips
