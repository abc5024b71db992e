-- ===== src/Kernel/Set/Room.antt =====
-- The room that the nests of a message take.
use special_potato.Prelude.{
  ℕ, ◌+◌, ◌*◌, ◌≤◌, Bool, true, false, not, ◌&&◌, List, [], ◌∷◌, ◌++◌, Option, none, some, ◌≡◌,
  refl, sym, ap, ◌∙◌, arith, inl, inr, leb, ◌==◌, Option-cases, length, All,
}
use special_potato.Containers.{Family, af_unspec, af_inet, af_inet6, WgAllowedip, WgPeer}
use special_potato.Kernel.{
  Netlink, Payload, PeerType, Attr, attr_room, attrs_room, put_checks, nest_start_check,
  payload_len, word_len, reserve,
}
use special_potato.Kernel.Payload.{blob, number, words, address}
use special_potato.Kernel.PeerType.{
  peer_endpoint, peer_preshared_key, peer_keepalive, peer_public_key, peer_awg, peer_flags,
}
use special_potato.Kernel.IpType.{ip_family, ip_addr, ip_cidr_mask}
use special_potato.Kernel.Attrs.{
  attr_if, endpoint_attr, addr_attr, family_number, first_attrs, lead_attrs, awg_attrs, flags_attrs,
  ip_attrs, peer_bits,
}
use special_potato.Kernel.Nest.{put_awg, put_peer, put_ip, put_ips}

-- More bytes take no less room.
abbrev pub IsMonotone : Netlink → Type 0
IsMonotone nl = (m n : ℕ) → m ≤ n → nl.attr_size m ≤ nl.attr_size n

-- The keys of a peer have 32 bytes, its addresses at most four words.
abbrev pub FitsPeer : WgPeer → Type 0
FitsPeer p =
    (length p.public_key ≡ 32)
    × ((length p.preshared_key ≡ 32) × All (λ a. word_len a.ip ≤ 16) p.allowedips)

some-injective : {a b : ℕ} → some a ≡ some b → a ≡ b
some-injective e = cc

module _ (nl : Netlink) where
  pub attrs_room-append :
      {T : Type 0} (xs ys : List (Attr T))
      → attrs_room nl (xs ++ ys) ≡ attrs_room nl xs + attrs_room nl ys
  attrs_room-append [] ys = omega arith
  attrs_room-append (a ∷ xs) ys = omega (arith, attrs_room-append xs ys)

  pub put_checks-step :
      {T : Type 0} (size : ℕ) (a : Attr T) (attrs : List (Attr T)) (next : Option ℕ)
      → reserve nl size (attr_room nl a) ≡ next
      → put_checks nl size (a ∷ attrs)
        ≡ elim next [ none ↦ none | some size' ↦ put_checks nl size' attrs ]
  unfolding put_checks
  put_checks-step size a attrs next e =
      ap (λ (o : Option ℕ). elim o [ none ↦ none | some size' ↦ put_checks nl size' attrs ]) e

  pub reserve-some :
      (size room : ℕ) → size + room ≤ nl.buffer_size → reserve nl size room ≡ some (size + room)
  reserve-some size room h =
      let test : leb (size + room) nl.buffer_size ≡ true = ground (arith, h) in rw test refl

  pub reserve-eq-some :
      (size room size' : ℕ)
      → reserve nl size room ≡ some size'
      → (size' ≡ size + room) × (size + room ≤ nl.buffer_size)
  reserve-eq-some size room size' e = ground (arith, e)

  pub put_checks-fit :
      {T : Type 0} (size : ℕ) (attrs : List (Attr T))
      → size + attrs_room nl attrs ≤ nl.buffer_size
      → put_checks nl size attrs ≡ some (size + attrs_room nl attrs)
  unfolding put_checks
  put_checks-fit size [] h = ap some (omega arith)
  put_checks-fit size (a ∷ attrs) h =
      put_checks-step size a attrs _ (reserve-some size (attr_room nl a) (omega (arith, h)))
      ∙ put_checks-fit (size + attr_room nl a) attrs (omega (arith, h))
      ∙ ap some (omega arith)

  -- The length behind checked puts, which is within the buffer if there is one.
  pub put_checks-size :
      {T : Type 0} (size size' : ℕ) (attrs : List (Attr T))
      → put_checks nl size attrs ≡ some size'
      → size ≤ nl.buffer_size
      → (size' ≡ size + attrs_room nl attrs) × (size' ≤ nl.buffer_size)
  unfolding put_checks
  put_checks-size size size' [] e h =
      let same : size ≡ size' = some-injective e in (omega (arith, same), omega (arith, same, h))
  put_checks-size size size' (a ∷ attrs) e h =
      elim (Option-cases (reserve nl size (attr_room nl a))) [
        | inl n ↦ (let clash = sym (put_checks-step size a attrs none n) ∙ e in cc)
        | inr (size1, n) ↦
            let (here, room) = reserve-eq-some size (attr_room nl a) size1 n in
            let (rest, below) =
              put_checks-size size1 size' attrs
                (sym (put_checks-step size a attrs (some size1) n) ∙ e)
                (omega (arith, here, room)) in
            (omega (arith, here, rest), below)
      ]

module _ (nl : Netlink) (mono : IsMonotone nl) where
  abbrev pub unit : ℕ
  unit = nl.attr_size 32

  attr_if-room :
      {T : Type 0} (b : Bool) (type : T) (payload : Payload)
      → payload_len payload ≤ 32
      → attrs_room nl (attr_if b type payload) ≤ unit
  attr_if-room true type payload h = omega (arith, mono (payload_len payload) 32 h)
  attr_if-room false type payload h = omega arith

  endpoint_attr-room :
      (p : WgPeer) (f : Family)
      → p.endpoint.sa_family ≡ f
      → attrs_room nl (endpoint_attr p.endpoint f) ≤ unit
  endpoint_attr-room p af_unspec e = omega arith
  endpoint_attr-room p af_inet e =
      attr_if-room true peer_endpoint (address p.endpoint) (rw e (omega arith))
  endpoint_attr-room p af_inet6 e =
      attr_if-room true peer_endpoint (address p.endpoint) (rw e (omega arith))

  first_attrs-room : (p : WgPeer) → FitsPeer p → attrs_room nl (first_attrs p) ≤ 3 * unit
  first_attrs-room p h =
      let psk = attr_if p.flags.has_preshared_key peer_preshared_key (blob p.preshared_key) in
      let end = endpoint_attr p.endpoint p.endpoint.sa_family in
      let keep =
        attr_if p.flags.has_keepalive peer_keepalive (number 2 p.persistent_keepalive_interval) in
      omega (
        arith,
        attrs_room-append nl (psk ++ end) keep,
        attrs_room-append nl psk end,
        attr_if-room p.flags.has_preshared_key peer_preshared_key (blob p.preshared_key)
            (omega (arith, h.1.0)),
        endpoint_attr-room p p.endpoint.sa_family refl,
        attr_if-room p.flags.has_keepalive peer_keepalive (number 2 p.persistent_keepalive_interval)
            (omega arith),
      )

  lead_attrs-room :
      (fresh : Bool) (p : WgPeer) → FitsPeer p → attrs_room nl (lead_attrs fresh p) ≤ 4 * unit
  lead_attrs-room true p h = omega (
    arith,
    attrs_room-append nl (attr_if true peer_public_key (blob p.public_key)) (first_attrs p),
    first_attrs-room p h,
    mono (length p.public_key) 32 (omega (arith, h.0)),
  )
  lead_attrs-room false p h = omega (arith, mono (length p.public_key) 32 (omega (arith, h.0)))

  put_awg-size :
      (size : ℕ) (p : WgPeer)
      → size ≤ nl.buffer_size
      → (put_awg nl size (awg_attrs p)).0 ≤ size + unit
  put_awg-size size p h = elim (Option-cases (put_checks nl size (awg_attrs p))) [
    | inl e ↦ rw (e, put_awg) (omega arith)
    | inr (size', e) ↦
        rw (e, put_awg)
          (omega (
            arith,
            put_checks-size nl size size' (awg_attrs p) e h,
            attr_if-room (p.flags.has_awg && p.awg) peer_awg (blob []) (omega arith),
          ))
  ]

  put_peer-eq :
      (size : ℕ) (fresh : Bool) (p : WgPeer) (size1 size2 size3 : ℕ)
      → nest_start_check nl size ≡ some size1
      → put_checks nl size1 (lead_attrs fresh p) ≡ some size2
      → put_checks nl (put_awg nl size2 (awg_attrs p)).0 (flags_attrs fresh p) ≡ some size3
      → put_peer nl size fresh p
        ≡ some
            (size3, lead_attrs fresh p ++ (put_awg nl size2 (awg_attrs p)).1 ++ flags_attrs fresh p)
  unfolding put_peer
  put_peer-eq size fresh p size1 size2 size3 n l f = rw (n, put_peer, l, f) refl

  -- With room for seven attributes of the greatest length, the nest of a peer is written.
  pub put_peer-fit :
      (size : ℕ) (fresh : Bool) (p : WgPeer)
      → FitsPeer p
      → size + 7 * unit ≤ nl.buffer_size
      → (size' : ℕ) × ((attrs : List (Attr PeerType)) × ((put_peer nl size fresh p
              ≡ some (size', attrs))
            × (size' ≤ size + 7 * unit)))
  unfolding put_peer
  put_peer-fit size fresh p h room =
      let nest =
        reserve-some nl size (nl.attr_size 0) (omega (arith, mono 0 32 (omega arith), room)) in
      let size1 = size + nl.attr_size 0 in
      let small = mono 0 32 (omega arith) in
      let lead = lead_attrs-room fresh p h in
      let size2 = size1 + attrs_room nl (lead_attrs fresh p) in
      let led = put_checks-fit nl size1 (lead_attrs fresh p) (omega (arith, small, lead, room)) in
      let awg = put_awg-size size2 p (omega (arith, small, lead, room)) in
      let bits =
        attr_if-room (not (peer_bits fresh p == 0)) peer_flags (number 4 (peer_bits fresh p))
          (omega arith) in
      let flagged =
        put_checks-fit nl (put_awg nl size2 (awg_attrs p)).0 (flags_attrs fresh p)
          (omega (arith, small, lead, awg, bits, room)) in
      (
        _,
        (
          _,
          (
            put_peer-eq size fresh p size1 size2 _ nest led flagged,
            omega (arith, small, lead, awg, bits),
          ),
        ),
      )

  addr_attr-room :
      (a : WgAllowedip) (f : Family) → word_len a.ip ≤ 16 → attrs_room nl (addr_attr a f) ≤ unit
  addr_attr-room a af_unspec h = omega arith
  addr_attr-room a af_inet h = attr_if-room true ip_addr (words a.ip) (omega (arith, h))
  addr_attr-room a af_inet6 h = attr_if-room true ip_addr (words a.ip) (omega (arith, h))

  ip_attrs-room : (a : WgAllowedip) → word_len a.ip ≤ 16 → attrs_room nl (ip_attrs a) ≤ 3 * unit
  ip_attrs-room a h =
      let family = attr_if true ip_family (number 2 (family_number a.family)) in
      omega (
        arith,
        attrs_room-append nl (family ++ addr_attr a a.family)
            (attr_if true ip_cidr_mask (number 1 a.cidr)),
        attrs_room-append nl family (addr_attr a a.family),
        addr_attr-room a a.family h,
        mono 2 32 (omega arith),
        mono 1 32 (omega arith),
      )

  pub put_ips-left :
      (size : ℕ) (ips : List WgAllowedip) → length (put_ips nl size ips).1.1 ≤ length ips
  unfolding put_ips
  put_ips-left size [] = omega arith
  put_ips-left size (a ∷ ips) = elim (Option-cases (put_ip nl size a)) [
    | inl e ↦ rw (e, put_ips) (omega arith)
    | inr (size', e) ↦ rw (e, put_ips) (omega (arith, put_ips-left size' ips))
  ]

  -- With room for four more, the nest of an allowed address is written.
  pub put_ip-fit :
      (size : ℕ) (a : WgAllowedip)
      → word_len a.ip ≤ 16
      → size + 4 * unit ≤ nl.buffer_size
      → (size' : ℕ) × (put_ip nl size a ≡ some size')
  put_ip-fit size a h room =
      let small = mono 0 32 (omega arith) in
      let nest = reserve-some nl size (nl.attr_size 0) (omega (arith, small, room)) in
      let put =
        put_checks-fit nl (size + nl.attr_size 0) (ip_attrs a)
          (omega (arith, small, ip_attrs-room a h, room)) in
      (size + nl.attr_size 0 + attrs_room nl (ip_attrs a), rw (put_ip, nest) put)

  -- So the nest of the addresses does not stay empty.
  pub put_ips-fit :
      (size : ℕ) (a : WgAllowedip) (ips : List WgAllowedip)
      → word_len a.ip ≤ 16
      → size + 4 * unit ≤ nl.buffer_size
      → length (put_ips nl size (a ∷ ips)).1.1 ≤ length ips
  unfolding put_ips
  put_ips-fit size a ips h room =
      let (size', put) = put_ip-fit size a h room in rw (put_ips, put) (put_ips-left size' ips)
