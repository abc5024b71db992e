-- ===== src/Kernel/Set/Leads.antt =====
-- What the nests of a message tell of the peers.
use special_potato.Prelude.{
  ℕ, ◌+◌, ◌≤◌, Bool, true, false, ◌&&◌, List, [], ◌∷◌, ◌++◌, map, Option, none, some, ◌≡◌, refl,
  sym, ap, ◌∙◌, arith, ◌⊎◌, inl, inr, leb, ◌==◌, Bool-cases, Option-cases,
}
use special_potato.Containers.{WgAllowedip, WgPeer}
use special_potato.Kernel.{
  Netlink, PeerType, IpType, Attr, PeerNest, put_checks, nest_start_check, attr_room,
}
use special_potato.Kernel.Payload.{number}
use special_potato.Kernel.PeerType.{peer_flags}
use special_potato.Kernel.Attrs.{
  left_of, is_null, lead_attrs, awg_attrs, flags_attrs, ip_attrs, peer_bits,
}
use special_potato.Kernel.Nest.{
  Cursor, Written, put_awg, put_peer, put_ip, put_ips, put_allowedips, put_peers,
}

-- The attributes of a peer, all of them in its first nest.
abbrev pub peer_attrs : Bool → WgPeer → List (Attr PeerType)
peer_attrs fresh p = lead_attrs fresh p ++ awg_attrs p ++ flags_attrs fresh p

abbrev pub nest_ips : PeerNest → List (List (Attr IpType))
nest_ips n = elim (n.allowedips) [ none ↦ [] | some ips ↦ ips ]

-- The nests deliver the peers from `allowedip` of the first one on, up to `stop`: each nest has all
-- attributes of its peer if it is the first one of that peer, and the next of the allowed addresses
-- that are left; the next nest is of the same peer as long as some are left, and of the next peer then.
abbrev pub Leads : List WgAllowedip → List WgPeer → List PeerNest → Option Cursor → Type 0
Leads ips peers [] none = peers ≡ []
Leads ips peers [] (some c) = (ips ≡ c.allowedip) × (peers ≡ c.peer ∷ c.next)
Leads ips [] (n ∷ ns) stop = ⊥
Leads ips (p ∷ peers) (n ∷ ns) stop =
    (n.attrs ≡ peer_attrs (is_null ips) p)
    × ((chunk : List WgAllowedip) × ((left : List WgAllowedip) × ((left_of ips p ≡ chunk ++ left)
            × ((nest_ips n ≡ map ip_attrs chunk)
                × (((left ≡ []) × Leads [] peers ns stop)
                    ⊎ ((is_null left ≡ false) × Leads left (p ∷ peers) ns stop))))))

pub Leads-append :
    (ips : List WgAllowedip) (peers : List WgPeer) (ns ms : List PeerNest) (c : Cursor)
    (stop : Option Cursor)
    → Leads ips peers ns (some c)
    → Leads c.allowedip (c.peer ∷ c.next) ms stop
    → Leads ips peers (ns ++ ms) stop
Leads-append ips peers [] ms c stop h k = rw (h.0, h.1) k
Leads-append ips [] (n ∷ ns) ms c stop h k = h
Leads-append ips (p ∷ peers) (n ∷ ns) ms c stop (a, (chunk, (left, (cut, (same, more))))) k = (
  a,
  (
    chunk,
    (
      left,
      (
        cut,
        (
          same,
          elim more [
            | inl e ↦ inl (e.0, Leads-append [] peers ns ms c stop e.1 k)
            | inr e ↦ inr (e.0, Leads-append left (p ∷ peers) ns ms c stop e.1 k)
          ],
        ),
      ),
    ),
  ),
)

-- A peer without allowed addresses is not gone on with.
abbrev pub Sound : List WgAllowedip → List WgPeer → Type 0
Sound ips [] = Unit
Sound ips (p ∷ peers) = is_null p.allowedips ≡ true → ips ≡ []

abbrev pub SoundStop : Option Cursor → Type 0
SoundStop none = Unit
SoundStop (some c) = Sound c.allowedip (c.peer ∷ c.next)

pub is_null-eq : (ips : List WgAllowedip) → is_null ips ≡ true → ips ≡ []
is_null-eq [] e = refl
is_null-eq (a ∷ ips) e = cc

left_of-kept :
    (ips : List WgAllowedip) (p : WgPeer)
    → is_null p.allowedips ≡ false
    → is_null (left_of ips p) ≡ false
left_of-kept [] p e = e
left_of-kept (a ∷ ips) p e = refl

pub Sound-nothing : (peers : List WgPeer) → Sound [] peers
Sound-nothing [] = tt
Sound-nothing (p ∷ peers) = λ e. refl

module _ (nl : Netlink) where
  pub put_peer-cases :
      (size : ℕ) (fresh : Bool) (p : WgPeer) (size' : ℕ) (attrs : List (Attr PeerType))
      → put_peer nl size fresh p ≡ some (size', attrs)
      → (size1 : ℕ) × ((size2 : ℕ) × ((nest_start_check nl size ≡ some size1)
            × ((put_checks nl size1 (lead_attrs fresh p) ≡ some size2)
                × ((put_checks nl (put_awg nl size2 (awg_attrs p)).0 (flags_attrs fresh p)
                      ≡ some size')
                    × (attrs
                        ≡ lead_attrs fresh p
                          ++ (put_awg nl size2 (awg_attrs p)).1
                          ++ flags_attrs fresh p)))))
  unfolding put_peer
  put_peer-cases size fresh p size' attrs e = elim (Option-cases (nest_start_check nl size)) [
    | inl n ↦ (let c = rw (n, put_peer) at e in cc)
    | inr (size1, n) ↦ elim (Option-cases (put_checks nl size1 (lead_attrs fresh p))) [
      | inl l ↦ (let c = rw (n, put_peer, l) at e in cc)
      | inr (size2, l) ↦
          elim (Option-cases
            (put_checks nl (put_awg nl size2 (awg_attrs p)).0 (flags_attrs fresh p))) [
              | inl f ↦ (let c = rw (n, put_peer, l, f) at e in cc)
              | inr (size3, f) ↦
                  let same = rw (n, put_peer, l, f) at e in
                  (size1, (size2, (n, (l, (rw f cc, cc)))))
            ]
    ]
  ]

  pub put_ips_lem :
      (size : ℕ) (ips : List WgAllowedip)
      → (chunk : List WgAllowedip) × ((ips ≡ chunk ++ (put_ips nl size ips).1.1)
          × ((put_ips nl size ips).1.0 ≡ map ip_attrs chunk))
  unfolding put_ips
  put_ips_lem size [] = ([], (refl, refl))
  put_ips_lem size (a ∷ ips) = elim (Option-cases (put_ip nl size a)) [
    | inl e ↦ rw (e, put_ips) ([], (refl, refl))
    | inr (size', e) ↦
        let (chunk, (cut, same)) = put_ips_lem size' ips in
        rw (e, put_ips) (a ∷ chunk, (ap (λ x. a ∷ x) cut, ap (λ x. ip_attrs a ∷ x) same))
  ]

  pub put_peers-stop :
      (size : ℕ) (ips : List WgAllowedip) (p : WgPeer) (peers : List WgPeer)
      → put_peer nl size (is_null ips) p ≡ none
      → put_peers nl size ips (p ∷ peers)
        ≡ ([], some (record { allowedip = ips; peer = p; next = peers }))
  unfolding put_peers
  put_peers-stop size ips p peers e = rw (e, put_peers) refl

  pub put_peers-whole :
      (size : ℕ) (ips : List WgAllowedip) (p : WgPeer) (peers : List WgPeer) (size' : ℕ)
      (attrs : List (Attr PeerType)) (w : Written)
      → put_peer nl size (is_null ips) p ≡ some (size', attrs)
      → put_allowedips nl size' attrs ips p ≡ w
      → w.complete ≡ true
      → put_peers nl size ips (p ∷ peers) ≡ (
        w.nest ∷ (put_peers nl w.size w.allowedip peers).0,
        (put_peers nl w.size w.allowedip peers).1,
      )
  unfolding put_peers
  put_peers-whole size ips p peers size' attrs w e same c = rw (e, put_peers, same, c) refl

  pub put_peers-part :
      (size : ℕ) (ips : List WgAllowedip) (p : WgPeer) (peers : List WgPeer) (size' : ℕ)
      (attrs : List (Attr PeerType)) (w : Written)
      → put_peer nl size (is_null ips) p ≡ some (size', attrs)
      → put_allowedips nl size' attrs ips p ≡ w
      → w.complete ≡ false
      → put_peers nl size ips (p ∷ peers)
        ≡ (w.nest ∷ [], some (record { allowedip = w.allowedip; peer = p; next = peers }))
  unfolding put_peers
  put_peers-part size ips p peers size' attrs w e same c = rw (e, put_peers, same, c) refl

  -- What a nest is, and what `allowedip` is behind it.
  abbrev pub Fills : List (Attr PeerType) → List WgAllowedip → WgPeer → Written → Type 0
  Fills attrs ips p w =
      (w.nest.attrs ≡ attrs)
      × ((chunk : List WgAllowedip) × ((left_of ips p ≡ chunk ++ w.allowedip)
            × ((nest_ips w.nest ≡ map ip_attrs chunk)
                × ((w.complete ≡ is_null w.allowedip)
                    × (is_null p.allowedips ≡ true → w.allowedip ≡ [])))))

  pub put_allowedips-Fills :
      (size : ℕ) (attrs : List (Attr PeerType)) (ips : List WgAllowedip) (p : WgPeer)
      → Sound ips (p ∷ [])
      → Fills attrs ips p (put_allowedips nl size attrs ips p)
  unfolding put_allowedips
  put_allowedips-Fills size attrs ips p sound = elim (Bool-cases (is_null p.allowedips)) [
    | inl e ↦
        let nothing = is_null-eq p.allowedips e in
        rw (e, sound e) (refl, ([], (nothing, (refl, (refl, λ t. refl)))))
    | inr e ↦ elim (Option-cases (nest_start_check nl size)) [
      | inl n ↦ rw (e, n) (refl, ([], (refl, (refl, (sym (left_of-kept ips p e), λ t. cc)))))
      | inr (size', n) ↦
          let (chunk, (cut, same)) = put_ips_lem size' (left_of ips p) in
          rw (e, n) (refl, (chunk, (cut, (same, (refl, λ t. cc)))))
    ]
  ]

module _ (nl : Netlink) (mono : nl.attr_size 0 ≤ nl.attr_size 4) where
  -- Where there is no room for an attribute, there is none for a larger one.
  put_awg-put_checks :
      (size size' : ℕ) (a b : Attr PeerType)
      → attr_room nl a ≤ attr_room nl b
      → put_checks nl (put_awg nl size (a ∷ [])).0 (b ∷ []) ≡ some size'
      → (put_awg nl size (a ∷ [])).1 ≡ a ∷ []
  unfolding put_checks
  put_awg-put_checks size size' a b le e =
      elim (Bool-cases (leb (size + attr_room nl a) nl.buffer_size)) [
        | inl fits ↦ rw (fits, put_awg) refl
        | inr full ↦
            let full' : leb (size + attr_room nl b) nl.buffer_size ≡ false =
              ground (arith, le, full) in
            let clash = rw (full, put_awg, put_checks, full') at e in cc
      ]

  peer_bits-awg :
      (fresh : Bool) (p : WgPeer) → p.flags.has_awg ≡ true → (peer_bits fresh p == 0) ≡ false
  peer_bits-awg fresh p e = ground arith

  -- So the flags, which are not zero then, are not written where `WGPEER_A_AWG` is not.
  put_awg-flags :
      (size : ℕ) (fresh : Bool) (p : WgPeer) (size' : ℕ)
      → put_checks nl (put_awg nl size (awg_attrs p)).0 (flags_attrs fresh p) ≡ some size'
      → (put_awg nl size (awg_attrs p)).1 ≡ awg_attrs p
  unfolding put_checks
  put_awg-flags size fresh p size' e = elim (Bool-cases (p.flags.has_awg && p.awg)) [
    | inr off ↦ rw off refl
    | inl on ↦
        let bits = peer_bits-awg fresh p (ground arith) in
        let e' = rw (on, bits) at e in
        rw on (
          put_awg-put_checks size size' _
            (record { type = peer_flags; payload = number 4 (peer_bits fresh p) }) mono e')
  ]

  pub put_peer-some :
      (size : ℕ) (fresh : Bool) (p : WgPeer) (size' : ℕ) (attrs : List (Attr PeerType))
      → put_peer nl size fresh p ≡ some (size', attrs)
      → attrs ≡ peer_attrs fresh p
  put_peer-some size fresh p size' attrs e =
      let (size1, (size2, (n, (l, (f, same))))) = put_peer-cases nl size fresh p size' attrs e in
      same
      ∙ ap (λ (a : List (Attr PeerType)). lead_attrs fresh p ++ a ++ flags_attrs fresh p)
          (put_awg-flags size2 fresh p size' f)

  -- The nests of one message lead to where it stopped.
  pub put_peers-Leads :
      (size : ℕ) (ips : List WgAllowedip) (peers : List WgPeer)
      → Sound ips peers
      → Leads ips peers (put_peers nl size ips peers).0 (put_peers nl size ips peers).1
        × SoundStop (put_peers nl size ips peers).1
  unfolding put_peers
  put_peers-Leads size ips [] sound = (refl, tt)
  put_peers-Leads size ips (p ∷ peers) sound =
      elim (Option-cases (put_peer nl size (is_null ips) p)) [
        | inl e ↦ rw (put_peers-stop nl size ips p peers e) ((refl, refl), sound)
        | inr ((size', attrs), e) ↦
            let w = put_allowedips nl size' attrs ips p in
            let (same, (chunk, (cut, (told, (whole, after))))) =
              put_allowedips-Fills nl size' attrs ips p sound in
            let good = same ∙ put_peer-some size (is_null ips) p size' attrs e in
            elim (Bool-cases w.complete) [
              | inl c ↦
                  let nothing = is_null-eq w.allowedip (sym whole ∙ c) in
                  let (rest, stop) = put_peers-Leads w.size [] peers (Sound-nothing peers) in
                  rw (put_peers-whole nl size ips p peers size' attrs w e refl c) (
                    rw nothing (
                      (good, (chunk, ([], ((rw nothing at cut), (told, inl (refl, rest)))))),
                      stop,
                    ))
              | inr c ↦ rw (put_peers-part nl size ips p peers size' attrs w e refl c) (
                (good, (chunk, (w.allowedip, (cut, (told, inr (sym whole ∙ c, (refl, refl))))))),
                after,
              )
            ]
      ]
