-- ===== src/Kernel/Set/Within.antt =====
-- The length of the messages of `kernel_set_device`.
use special_potato.Prelude.{
  false, ℕ, zero, suc, ◌+◌, ◌≤◌, Bool, List, [], ◌∷◌, ◌++◌, Option, none, some, ◌≡◌, refl, ap,
  arith, inl, inr, Bool-cases, Option-cases, All,
}
use special_potato.Outcome.{ok, Ensures, Ensures->>=}
use special_potato.Containers.{WgAllowedip, WgPeer, WgDevice}
use special_potato.Kernel.{
  Netlink, DeviceType, PeerType, IpType, Attr, PeerNest, Message, attrs_room, put_checks,
  nest_start_check,
}
use special_potato.Kernel.Attrs.{is_null, left_of, lead_attrs, awg_attrs, flags_attrs, ip_attrs}
use special_potato.Kernel.Nest.{
  Cursor, put_awg, put_peer, put_ip, put_ips, put_allowedips, put_peers,
}
use special_potato.Kernel.Set.{
  Reply, send_failed, run_failed, answered, device_attrs, put_message, first_message, name_attr,
  next_message, nest_room, overruns, send_from, kernel_set_device,
}
use special_potato.Kernel.Set.Leads.{
  put_peer-cases, put_peers-stop, put_peers-whole, put_peers-part,
}
use special_potato.Kernel.Set.Room.{attrs_room-append, put_checks-size, reserve-eq-some}

module _ (nl : Netlink) where
  abbrev pub ips_room : List (List (Attr IpType)) → ℕ
  ips_room [] = 0
  ips_room (a ∷ ips) = nl.attr_size 0 + attrs_room nl a + ips_room ips

  abbrev pub nest_ips_room : Option (List (List (Attr IpType))) → ℕ
  nest_ips_room none = 0
  nest_ips_room (some ips) = nl.attr_size 0 + ips_room ips

  abbrev pub nests_room : List PeerNest → ℕ
  nests_room [] = 0
  nests_room (n ∷ ns) =
      nl.attr_size 0 + attrs_room nl n.attrs + nest_ips_room n.allowedips + nests_room ns

  abbrev pub peers_room : Option (List PeerNest) → ℕ
  peers_room none = 0
  peers_room (some ns) = nl.attr_size 0 + nests_room ns

  -- `nlmsg_len` of a message, from what is in it.
  abbrev pub message_len : Message → ℕ
  message_len m = nl.header_size + attrs_room nl m.attrs + peers_room m.peers

  -- A length that is told by what was written, within the buffer.
  abbrev Told : ℕ → ℕ → ℕ → Type 0
  Told size room size' = (size' ≡ size + room) × (size' ≤ nl.buffer_size)

  put_awg-Told :
      (size : ℕ) (attrs : List (Attr PeerType))
      → size ≤ nl.buffer_size
      → Told size (attrs_room nl (put_awg nl size attrs).1) (put_awg nl size attrs).0
  put_awg-Told size attrs h = elim (Option-cases (put_checks nl size attrs)) [
    | inl e ↦ rw (e, put_awg) (omega arith, h)
    | inr (size', e) ↦ rw (e, put_awg) (put_checks-size nl size size' attrs e h)
  ]

  put_peer-Told :
      (size : ℕ) (fresh : Bool) (p : WgPeer) (size' : ℕ) (attrs : List (Attr PeerType))
      → put_peer nl size fresh p ≡ some (size', attrs)
      → Told size (nl.attr_size 0 + attrs_room nl attrs) size'
  put_peer-Told size fresh p size' attrs e =
      let (size1, (size2, (n, (l, (f, same))))) = put_peer-cases nl size fresh p size' attrs e in
      let (start, below) = reserve-eq-some nl size (nl.attr_size 0) size1 n in
      let (led, below2) =
        put_checks-size nl size1 size2 (lead_attrs fresh p) l (omega (arith, start, below)) in
      let awg = put_awg nl size2 (awg_attrs p) in
      let (told, below3) = put_awg-Told size2 (awg_attrs p) below2 in
      let (flagged, below4) = put_checks-size nl awg.0 size' (flags_attrs fresh p) f below3 in
      let all = attrs_room-append nl (lead_attrs fresh p ++ awg.1) (flags_attrs fresh p) in
      let some_of = attrs_room-append nl (lead_attrs fresh p) awg.1 in
      rw same (omega (arith, start, led, told, flagged, all, some_of), below4)

  put_ip-Told :
      (size : ℕ) (a : WgAllowedip) (size' : ℕ)
      → put_ip nl size a ≡ some size'
      → Told size (nl.attr_size 0 + attrs_room nl (ip_attrs a)) size'
  put_ip-Told size a size' e = elim (Option-cases (nest_start_check nl size)) [
    | inl n ↦ (let clash = rw (put_ip, n) at e in cc)
    | inr (size1, n) ↦
        let e' : put_checks nl size1 (ip_attrs a) ≡ some size' = rw (put_ip, n) at e in
        let (start, below) = reserve-eq-some nl size (nl.attr_size 0) size1 n in
        let (told, below') =
          put_checks-size nl size1 size' (ip_attrs a) e' (omega (arith, start, below)) in
        (omega (arith, start, told), below')
  ]

  put_ips-Told :
      (size : ℕ) (ips : List WgAllowedip)
      → size ≤ nl.buffer_size
      → Told size (ips_room (put_ips nl size ips).1.0) (put_ips nl size ips).0
  unfolding put_ips
  put_ips-Told size [] h = (omega arith, h)
  put_ips-Told size (a ∷ ips) h = elim (Option-cases (put_ip nl size a)) [
    | inl e ↦ rw (e, put_ips) (omega arith, h)
    | inr (size', e) ↦
        let (here, below) = put_ip-Told size a size' e in
        let (rest, below') = put_ips-Told size' ips below in
        rw (e, put_ips) (omega (arith, here, rest), below')
  ]

  put_allowedips-Told :
      (size : ℕ) (attrs : List (Attr PeerType)) (ips : List WgAllowedip) (p : WgPeer)
      → size ≤ nl.buffer_size
      → ((put_allowedips nl size attrs ips p).nest.attrs ≡ attrs)
        × Told size
            (nest_ips_room (put_allowedips nl size attrs ips p).nest.allowedips)
            (put_allowedips nl size attrs ips p).size
  unfolding put_allowedips
  put_allowedips-Told size attrs ips p h = elim (Bool-cases (is_null p.allowedips)) [
    | inl e ↦ rw e (refl, (omega arith, h))
    | inr e ↦ elim (Option-cases (nest_start_check nl size)) [
      | inl n ↦ rw (e, n) (refl, (omega arith, h))
      | inr (size', n) ↦
          let (start, below) = reserve-eq-some nl size (nl.attr_size 0) size' n in
          let (told, below') = put_ips-Told size' (left_of ips p) (omega (arith, start, below)) in
          rw (e, n) (refl, (omega (arith, start, told), below'))
    ]
  ]

  put_peers-within :
      (size : ℕ) (ips : List WgAllowedip) (peers : List WgPeer)
      → size ≤ nl.buffer_size
      → size + nests_room (put_peers nl size ips peers).0 ≤ nl.buffer_size
  unfolding put_peers
  put_peers-within size ips [] h = omega (arith, h)
  put_peers-within size ips (p ∷ peers) h = elim (Option-cases (put_peer nl size (is_null ips) p)) [
    | inl e ↦ rw (put_peers-stop nl size ips p peers e) (omega (arith, h))
    | inr ((size', attrs), e) ↦
        let w = put_allowedips nl size' attrs ips p in
        let (here, below) = put_peer-Told size (is_null ips) p size' attrs e in
        let (same, (told, below')) = put_allowedips-Told size' attrs ips p below in
        let attrs_same = ap (attrs_room nl) same in
        elim (Bool-cases w.complete) [
          | inl c ↦ rw (put_peers-whole nl size ips p peers size' attrs w e refl c) (
              omega
                (arith, here, told, attrs_same, put_peers-within w.size w.allowedip peers below'))
          | inr c ↦
              rw (put_peers-part nl size ips p peers size' attrs w e refl c)
                (omega (arith, here, told, attrs_same, below'))
        ]
  ]

  abbrev pub IsWithin : Message → Type 0
  IsWithin m = message_len m ≤ nl.buffer_size

  put_message-IsWithin :
      (attrs : List (Attr DeviceType)) (ips : List WgAllowedip) (peers : List WgPeer)
      → nl.header_size + attrs_room nl attrs + nl.attr_size 0 ≤ nl.buffer_size
      → IsWithin (put_message nl attrs ips peers).0
  unfolding put_message
  put_message-IsWithin attrs ips peers h =
      omega (
        arith,
        put_peers-within (nl.header_size + attrs_room nl attrs + nl.attr_size 0) ips peers h,
      )

  first_message-IsWithin :
      (attrs : List (Attr DeviceType)) (peers : List WgPeer)
      → nl.header_size + attrs_room nl attrs + nl.attr_size 0 ≤ nl.buffer_size
      → IsWithin (first_message nl attrs peers).0
  unfolding first_message
  first_message-IsWithin attrs [] h = omega (arith, h)
  first_message-IsWithin attrs (p ∷ peers) h = put_message-IsWithin attrs [] (p ∷ peers) h

  nest_room-le : (peers : Option (List PeerNest)) → nest_room nl peers ≤ peers_room peers
  nest_room-le none = omega arith
  nest_room-le (some ns) = omega arith

  IsWithin-overruns : (m : Message) → IsWithin m → overruns nl m ≡ false
  IsWithin-overruns m h = ground (arith, h, nest_room-le m.peers)

  module _ (exchange : ℕ → Message → Reply) (d : WgDevice)
      (room : nl.header_size + attrs_room nl (name_attr nl d) + nl.attr_size 0
        ≤ nl.buffer_size) where
    -- The last message, whatever the answer.
    ending :
        (fuel n : ℕ) (message : Message) (stop : Option Cursor) (reply : Reply)
        → IsWithin message
        → overruns nl message ≡ false
        → exchange n message ≡ reply
        → ((c : Cursor)
            → stop ≡ some c
            → Ensures
                (λ r. All IsWithin r.0)
                (send_from nl exchange fuel (suc n) d (next_message nl d c)))
        → Ensures (λ r. All IsWithin r.0) (send_from nl exchange (suc fuel) n d (message, stop))
    unfolding send_from
    ending fuel n message stop (send_failed errno) h i e rest = rw (i, e, send_from) (h, tt)
    ending fuel n message stop (run_failed errno) h i e rest = rw (i, e, send_from) (h, tt)
    ending fuel n message none answered h i e rest = rw (i, e, send_from) (h, tt)
    ending fuel n message (some c) answered h i e rest =
        rw (i, e, send_from)
          (Ensures->>= (λ r. All IsWithin r.0) (λ r. All IsWithin r.0)
            (send_from nl exchange fuel (suc n) d (next_message nl d c)) _ (rest c refl)
            (λ r k. (h, k)))

    send_from-IsWithin :
        (fuel n : ℕ) (message : Message) (stop : Option Cursor)
        → IsWithin message
        → Ensures (λ r. All IsWithin r.0) (send_from nl exchange fuel n d (message, stop))
    unfolding send_from
    send_from-IsWithin zero n message stop h = tt
    send_from-IsWithin (suc fuel) n message stop h =
        ending fuel n message stop (exchange n message) h (IsWithin-overruns message h) refl (λ c e.
          let next = next_message nl d c in
          send_from-IsWithin fuel (suc n) next.0 next.1
            (put_message-IsWithin (name_attr nl d) c.allowedip (c.peer ∷ c.next) room))

-- Where no string that is to be written is NULL and the attributes of the device have room in the
-- buffer, none of the messages that `kernel_set_device` makes is longer than the buffer, and nothing is
-- written past its end or read through NULL, whatever the peers are and the kernel answers: the nests
-- are written under checks.
pub kernel_set_device-IsWithin :
    (nl : Netlink) (exchange : ℕ → Message → Reply) (d : WgDevice) (version fuel : ℕ)
    (attrs : List (Attr DeviceType))
    → device_attrs nl version d ≡ ok attrs
    → nl.header_size + attrs_room nl (name_attr nl d ++ attrs) + nl.attr_size 0 ≤ nl.buffer_size
    → Ensures (λ r. All (IsWithin nl) r.0) (kernel_set_device nl exchange fuel (inr version) d)
unfolding kernel_set_device
kernel_set_device-IsWithin nl exchange d version fuel attrs built room =
    let first = first_message nl (name_attr nl d ++ attrs) d.peers in
    rw built (
      send_from-IsWithin nl exchange d
        (omega (arith, room, attrs_room-append nl (name_attr nl d) attrs)) fuel 0 first.0 first.1
        (first_message-IsWithin nl (name_attr nl d ++ attrs) d.peers room))
