-- ===== src/Kernel/Get/Accepted.antt =====
-- Which nests of peers `parse_peers` accepts.
use special_potato.Prelude.{
  ℕ, Bool, true, false, List, [], ◌∷◌, Bytes, Option, none, some, ◌≡◌, ◌↔◌, ◌⊎◌, inl, inr, refl,
  sym, ◌∙◌, All, Bool-cases, length, ltb, ◌==◌, ==_iff, if◌then◌else◌,
}
use special_potato.Containers.{WgPeer, WgDevice, new_peer}
use special_potato.Kernel.Answer.{
  IpAttr, PeerKind, PeerAttr, plain, allowedips, Reads, new_ip, is_valid_ip, public_key_kind,
  preshared_key_kind, endpoint_kind, keepalive_kind, handshake_kind, rx_bytes_kind, tx_bytes_kind,
  flags_kind, awg_kind, other_peer, with_value,
}
use special_potato.Kernel.Get.{
  set_flags, parse_ip_attrs, parse_all_allowedips, parse_allowedips, parse_plain, parse_peer,
  parse_peer_attrs, parse_peers,
}

module _ (reads : Reads) where
  -- All allowed addresses of a nest have a family and a prefix within it.
  abbrev pub AreValid : List (List IpAttr) → Type 0
  AreValid ips = All (λ attrs. is_valid_ip (parse_ip_attrs reads attrs new_ip) ≡ true) ips

  -- A key of 32 bytes stands in front of the first nest of addresses that has one which is not valid.
  abbrev pub HasKeyFirst : List PeerAttr → Type 0
  HasKeyFirst [] = ⊥
  HasKeyFirst (plain public_key_kind payload ∷ attrs) = (length payload ≡ 32) ⊎ HasKeyFirst attrs
  HasKeyFirst (plain kind payload ∷ attrs) = HasKeyFirst attrs
  HasKeyFirst (allowedips ips ∷ attrs) = AreValid ips × HasKeyFirst attrs

  ips_iff :
      (ips : List (List IpAttr)) (p : WgPeer)
      → ((parse_all_allowedips reads ips p).0 ≡ true) ↔ AreValid ips
  unfolding parse_all_allowedips parse_allowedips
  ips_iff [] p = (λ e. tt, λ h. refl)
  ips_iff (attrs ∷ ips) p =
      let rest = ips_iff ips (parse_allowedips reads attrs p).1 in
      elim (Bool-cases (is_valid_ip (parse_ip_attrs reads attrs new_ip))) [
        | inl e ↦ rw e (λ h. (refl, rest.0 h), λ h. rest.1 h.1)
        | inr e ↦ rw e (λ h. cc, λ h. cc)
      ]

  ips-flag :
      (ips : List (List IpAttr)) (p : WgPeer)
      → (parse_all_allowedips reads ips p).1.flags.has_public_key ≡ p.flags.has_public_key
  unfolding parse_all_allowedips parse_allowedips
  ips-flag [] p = refl
  ips-flag (attrs ∷ ips) p =
      let rest = ips-flag ips (parse_allowedips reads attrs p).1 in
      elim (Bool-cases (is_valid_ip (parse_ip_attrs reads attrs new_ip))) [
        | inl e ↦ rw e rest
        | inr e ↦ rw e refl
      ]

  with_value-flag :
      {B : Type 0} (o : Option B) (set : B → WgPeer → WgPeer) (p : WgPeer)
      → ((b : B) → (set b p).flags.has_public_key ≡ p.flags.has_public_key)
      → (with_value o set p).flags.has_public_key ≡ p.flags.has_public_key
  with_value-flag none set p h = refl
  with_value-flag (some b) set p h = h b

  if-flag :
      (b : Bool) (x p : WgPeer)
      → x.flags.has_public_key ≡ p.flags.has_public_key
      → (if b then x else p).flags.has_public_key ≡ p.flags.has_public_key
  if-flag true x p h = h
  if-flag false x p h = refl

  set_flags-flag :
      (n : ℕ) (p : WgPeer) → (set_flags reads n p).flags.has_public_key ≡ p.flags.has_public_key
  set_flags-flag n p =
      if-flag _ (record p { awg = false; flags = record (p.flags) { has_awg = true } }) p refl

  abbrev IsOther : PeerKind → Type 0
  IsOther public_key_kind = ⊥
  IsOther kind = Unit

  -- No other attribute touches the flag.
  plain-flag :
      (kind : PeerKind) (payload : Bytes) (p : WgPeer)
      → IsOther kind
      → (parse_plain reads kind payload p).flags.has_public_key ≡ p.flags.has_public_key
  unfolding parse_plain
  plain-flag public_key_kind payload p h = elim h [ ]
  plain-flag preshared_key_kind payload p h = if-flag (length payload == 32) _ p refl
  plain-flag endpoint_kind payload p h =
      elim (Bool-cases (ltb (length payload) reads.sockaddr_size)) [
        | inl e ↦ rw e refl
        | inr e ↦ rw e (if-flag _ (record p { endpoint = reads.sockaddr_of payload }) p refl)
      ]
  plain-flag keepalive_kind payload p h = with_value-flag (reads.number 2 payload) _ p (λ n. refl)
  plain-flag handshake_kind payload p h = if-flag (length payload == reads.timespec_len) _ p refl
  plain-flag rx_bytes_kind payload p h = with_value-flag (reads.number 8 payload) _ p (λ n. refl)
  plain-flag tx_bytes_kind payload p h = with_value-flag (reads.number 8 payload) _ p (λ n. refl)
  plain-flag flags_kind payload p h =
      with_value-flag (reads.number 4 payload) (set_flags reads) p (λ n. set_flags-flag n p)
  plain-flag awg_kind payload p h = if-flag (reads.is_flag payload) _ p refl
  plain-flag other_peer payload p h = refl

  key-flag :
      (payload : Bytes) (p : WgPeer)
      → ((parse_plain reads public_key_kind payload p).flags.has_public_key ≡ true)
        ↔ ((p.flags.has_public_key ≡ true) ⊎ (length payload ≡ 32))
  unfolding parse_plain
  key-flag payload p = elim (Bool-cases (length payload == 32)) [
    | inl e ↦ rw e (λ h. inr ((==_iff (length payload) 32).0 e), λ h. refl)
    | inr e ↦ rw e (
      λ h. inl h,
      λ h. elim h [
        | inl f ↦ f
        | inr l ↦ (let clash = sym e ∙ (==_iff (length payload) 32).1 l in cc)
      ],
    )
  ]

  -- The flag behind some attributes.
  abbrev FlagIff : List PeerAttr → WgPeer → Type 0
  FlagIff attrs p =
      ((parse_peer_attrs reads attrs p).1.flags.has_public_key ≡ true)
      ↔ ((p.flags.has_public_key ≡ true) ⊎ HasKeyFirst attrs)

  -- A first attribute that leaves the flag.
  same-FlagIff :
      {K : Type 0} {X : Type 0} (before behind : Bool)
      → behind ≡ before
      → X ↔ ((behind ≡ true) ⊎ K)
      → X ↔ ((before ≡ true) ⊎ K)
  same-FlagIff before behind same rest = rw same at rest

  -- The nest of addresses is read whole, or its flag stays.
  nest-FlagIff :
      (ips : List (List IpAttr)) (attrs : List PeerAttr) (p : WgPeer)
      → ((q : WgPeer) → FlagIff attrs q)
      → FlagIff (allowedips ips ∷ attrs) p
  unfolding parse_peer_attrs parse_peer
  nest-FlagIff ips attrs p rest =
      let q = (parse_all_allowedips reads ips p).1 in
      let kept = ips-flag ips p in
      let valid = ips_iff ips p in
      elim (Bool-cases (parse_all_allowedips reads ips p).0) [
        | inl e ↦
            let later = same-FlagIff p.flags.has_public_key q.flags.has_public_key kept (rest q) in
            rw e (
              λ h. elim (later.0 h) [ inl f ↦ inl f | inr k ↦ inr (valid.0 e, k) ],
              λ h. later.1 (elim h [ inl f ↦ inl f | inr k ↦ inr k.1 ]),
            )
        | inr e ↦ rw e (
          λ h. inl (sym kept ∙ h),
          λ h. elim h [ inl f ↦ kept ∙ f | inr k ↦ (let clash = sym e ∙ valid.1 k.0 in cc) ],
        )
      ]

  attrs-FlagIff : (attrs : List PeerAttr) (p : WgPeer) → FlagIff attrs p
  unfolding parse_peer_attrs parse_peer
  attrs-FlagIff [] p = (λ h. inl h, λ h. elim h [ inl f ↦ f | inr k ↦ elim k [ ] ])
  attrs-FlagIff (allowedips ips ∷ attrs) p = nest-FlagIff ips attrs p (attrs-FlagIff attrs)
  attrs-FlagIff (plain public_key_kind payload ∷ attrs) p =
      let q = parse_plain reads public_key_kind payload p in
      let rest = attrs-FlagIff attrs q in
      let here = key-flag payload p in
      (
        λ h. elim (rest.0 h) [
          | inl f ↦ elim (here.0 f) [ inl g ↦ inl g | inr l ↦ inr (inl l) ]
          | inr k ↦ inr (inr k)
        ],
        λ h. rest.1 (elim h [
          | inl g ↦ inl (here.1 (inl g))
          | inr (inl l) ↦ inl (here.1 (inr l))
          | inr (inr k) ↦ inr k
        ]),
      )
  attrs-FlagIff (plain preshared_key_kind payload ∷ attrs) p =
      same-FlagIff _ _ (plain-flag preshared_key_kind payload p tt)
        (attrs-FlagIff attrs (parse_plain reads preshared_key_kind payload p))
  attrs-FlagIff (plain endpoint_kind payload ∷ attrs) p =
      same-FlagIff _ _ (plain-flag endpoint_kind payload p tt)
        (attrs-FlagIff attrs (parse_plain reads endpoint_kind payload p))
  attrs-FlagIff (plain keepalive_kind payload ∷ attrs) p =
      same-FlagIff _ _ (plain-flag keepalive_kind payload p tt)
        (attrs-FlagIff attrs (parse_plain reads keepalive_kind payload p))
  attrs-FlagIff (plain handshake_kind payload ∷ attrs) p =
      same-FlagIff _ _ (plain-flag handshake_kind payload p tt)
        (attrs-FlagIff attrs (parse_plain reads handshake_kind payload p))
  attrs-FlagIff (plain rx_bytes_kind payload ∷ attrs) p =
      same-FlagIff _ _ (plain-flag rx_bytes_kind payload p tt)
        (attrs-FlagIff attrs (parse_plain reads rx_bytes_kind payload p))
  attrs-FlagIff (plain tx_bytes_kind payload ∷ attrs) p =
      same-FlagIff _ _ (plain-flag tx_bytes_kind payload p tt)
        (attrs-FlagIff attrs (parse_plain reads tx_bytes_kind payload p))
  attrs-FlagIff (plain flags_kind payload ∷ attrs) p =
      same-FlagIff _ _ (plain-flag flags_kind payload p tt)
        (attrs-FlagIff attrs (parse_plain reads flags_kind payload p))
  attrs-FlagIff (plain awg_kind payload ∷ attrs) p =
      same-FlagIff _ _ (plain-flag awg_kind payload p tt)
        (attrs-FlagIff attrs (parse_plain reads awg_kind payload p))
  attrs-FlagIff (plain other_peer payload ∷ attrs) p =
      same-FlagIff _ _ (plain-flag other_peer payload p tt)
        (attrs-FlagIff attrs (parse_plain reads other_peer payload p))

  -- `parse_peers` accepts the nest of a peer when and only when a public key of 32 bytes stands in it, in
  -- front of the first nest of allowed addresses that has one without a family, or with a prefix that is
  -- too long for it. So a nest with such an address behind the key is accepted, though `parse_allowedips`
  -- returns an error for the address.
  pub parse_peers_iff :
      (attrs : List PeerAttr) (d : WgDevice)
      → ((parse_peers reads attrs d).0 ≡ true) ↔ HasKeyFirst attrs
  unfolding parse_peers
  parse_peers_iff attrs d =
      let all = attrs-FlagIff attrs new_peer in
      (λ h. elim (all.0 h) [ inl f ↦ (let clash = f in cc) | inr k ↦ k ], λ k. all.1 (inr k))
