-- ===== src/Kernel/Set/Progress.antt =====
-- Each message after the first takes `kernel_set_device` on.
use special_potato.Prelude.{
  ℕ, ◌+◌, ◌*◌, ◌≤◌, ◌<◌, false, List, [], ◌∷◌, ◌++◌, Option, none, some, ◌≡◌, refl, sym, ap, ◌∙◌,
  arith, inl, inr, Bool-cases, length, length-append, All,
}
use special_potato.Containers.{WgAllowedip, WgPeer}
use special_potato.Kernel.{word_len, Netlink, PeerType, Attr, PeerNest}
use special_potato.Kernel.Attrs.{is_null, left_of}
use special_potato.Kernel.Nest.{Cursor, put_ips, put_allowedips, put_peers}
use special_potato.Kernel.Set.Leads.{
  Leads, Sound, Sound-nothing, is_null-eq, put_peers-Leads, put_peers-whole, put_peers-part,
  put_allowedips-Fills,
}
use special_potato.Kernel.Set.Room.{
  reserve-some, IsMonotone, FitsPeer, unit, put_peer-fit, put_ips-fit,
}

-- What is left to do: two units for a peer, one for each of its addresses, and one unit less where
-- its first nest was sent.
abbrev pub peer_work : List WgAllowedip → WgPeer → ℕ
peer_work [] p = 2 + length p.allowedips
peer_work (a ∷ ips) p = 1 + length (a ∷ ips)

abbrev pub work : List WgAllowedip → List WgPeer → ℕ
work ips [] = 0
work ips (p ∷ peers) = peer_work ips p + work [] peers

abbrev pub stop_work : Option Cursor → ℕ
stop_work none = 0
stop_work (some c) = work c.allowedip (c.peer ∷ c.next)

peer_work-left :
    (ips left chunk : List WgAllowedip) (p : WgPeer)
    → left_of ips p ≡ chunk ++ left
    → is_null left ≡ false
    → peer_work left p ≤ peer_work ips p
peer_work-left ips [] chunk p cut e = cc
peer_work-left [] (a ∷ left) chunk p cut e =
    let total = ap length cut in omega (arith, total, length-append chunk (a ∷ left))
peer_work-left (b ∷ ips) (a ∷ left) chunk p cut e =
    let total = ap length cut in omega (arith, total, length-append chunk (a ∷ left))

peer_work-pos : (ips : List WgAllowedip) (p : WgPeer) → 0 < peer_work ips p
peer_work-pos [] p = omega arith
peer_work-pos (a ∷ ips) p = omega arith

-- No nest makes more work.
pub Leads-work :
    (ips : List WgAllowedip) (peers : List WgPeer) (ns : List PeerNest) (stop : Option Cursor)
    → Leads ips peers ns stop
    → stop_work stop ≤ work ips peers
Leads-work ips peers [] none h = omega arith
Leads-work ips peers [] (some c) h = rw (h.0, h.1) (omega arith)
Leads-work ips [] (n ∷ ns) stop h = elim h [ ]
Leads-work ips (p ∷ peers) (n ∷ ns) stop (a, (chunk, (left, (cut, (same, inl (e, rest)))))) =
    omega (arith, Leads-work [] peers ns stop rest)
Leads-work ips (p ∷ peers) (n ∷ ns) stop (a, (chunk, (left, (cut, (same, inr (e, rest)))))) =
    omega (arith, Leads-work left (p ∷ peers) ns stop rest, peer_work-left ips left chunk p cut e)

peer_work-kept :
    (left : List WgAllowedip) (p : WgPeer)
    → is_null left ≡ false
    → peer_work left p ≡ 1 + length left
peer_work-kept [] p e = cc
peer_work-kept (a ∷ left) p e = refl

module _ (nl : Netlink) (mono : IsMonotone nl) where
  abbrev mono4 : nl.attr_size 0 ≤ nl.attr_size 4
  mono4 = mono 0 4 (omega arith)

  put_allowedips-going :
      (size : ℕ) (attrs : List (Attr PeerType)) (ips : List WgAllowedip) (p : WgPeer)
      → is_null p.allowedips ≡ false
      → size + nl.attr_size 0 ≤ nl.buffer_size
      → (put_allowedips nl size attrs ips p).allowedip
        ≡ (put_ips nl (size + nl.attr_size 0) (left_of ips p)).1.1
  unfolding put_allowedips
  put_allowedips-going size attrs ips p e h =
      let nest = reserve-some nl size (nl.attr_size 0) h in rw (e, nest) refl

  -- A nest of a peer that is not complete is its first one, or has an address.
  put_allowedips-work :
      (size : ℕ) (attrs : List (Attr PeerType)) (ips : List WgAllowedip) (p : WgPeer)
      → Sound ips (p ∷ [])
      → All (λ a. word_len a.ip ≤ 16) ips
      → size + 5 * unit nl mono ≤ nl.buffer_size
      → (put_allowedips nl size attrs ips p).complete ≡ false
      → peer_work (put_allowedips nl size attrs ips p).allowedip p < peer_work ips p
  put_allowedips-work size attrs [] p sound small room part =
      let (same, (chunk, (cut, (told, (whole, after))))) =
        put_allowedips-Fills nl size attrs [] p sound in
      let left = (put_allowedips nl size attrs [] p).allowedip in
      let total = ap length cut in
      omega (arith, total, length-append chunk left, peer_work-kept left p (sym whole ∙ part))
  put_allowedips-work size attrs (a ∷ ips) p sound small room part =
      let (same, (chunk, (cut, (told, (whole, after))))) =
        put_allowedips-Fills nl size attrs (a ∷ ips) p sound in
      let left = (put_allowedips nl size attrs (a ∷ ips) p).allowedip in
      let zero_le = mono 0 32 (omega arith) in
      elim (Bool-cases (is_null p.allowedips)) [
        | inl e ↦ (let clash = sound e in cc)
        | inr e ↦
            let going =
              ap length
                (put_allowedips-going size attrs (a ∷ ips) p e (omega (arith, zero_le, room))) in
            omega (
              arith,
              peer_work-kept left p (sym whole ∙ part),
              going,
              put_ips-fit nl mono (size + nl.attr_size 0) a ips small.0
                  (omega (arith, zero_le, room)),
            )
      ]

  -- A message with room for twelve attributes of the greatest length leaves less work.
  pub put_peers-work :
      (size : ℕ) (ips : List WgAllowedip) (p : WgPeer) (peers : List WgPeer)
      → Sound ips (p ∷ [])
      → FitsPeer p
      → All (λ a. word_len a.ip ≤ 16) ips
      → size + 12 * unit nl mono ≤ nl.buffer_size
      → stop_work (put_peers nl size ips (p ∷ peers)).1 < work ips (p ∷ peers)
  put_peers-work size ips p peers sound fits small room =
      let (size', (attrs, (put, le))) =
        put_peer-fit nl mono size (is_null ips) p fits (omega (arith, room)) in
      let w = put_allowedips nl size' attrs ips p in
      let (same, (chunk, (cut, (told, (whole, after))))) =
        put_allowedips-Fills nl size' attrs ips p sound in
      elim (Bool-cases w.complete) [
        | inl c ↦
            let nothing = is_null-eq w.allowedip (sym whole ∙ c) in
            let (rest, _) = put_peers-Leads nl mono4 w.size [] peers (Sound-nothing peers) in
            let less =
              Leads-work [] peers (put_peers nl w.size [] peers).0 (put_peers nl w.size [] peers).1
                rest in
            rw (put_peers-whole nl size ips p peers size' attrs w put refl c, nothing)
              (omega (arith, less, peer_work-pos ips p))
        | inr c ↦
            let less =
              put_allowedips-work size' attrs ips p sound small (omega (arith, le, room)) c in
            rw (put_peers-part nl size ips p peers size' attrs w put refl c) (omega (arith, less))
      ]
