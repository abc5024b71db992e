-- ===== src/Uapi/Get/Safe.antt =====
-- Whatever a userspace implementation replies, a device that is taken from it is in its ranges.
use special_potato.Prelude.{
  ℕ, zero, suc, replicate, ◌^◌, ◌-◌, ◌≤◌, ◌<◌, Bool, true, false, not, ◌||◌, List, [], ◌∷◌, Bytes,
  IsBytes, All, Option, none, some, ◌≡◌, refl, ap, arith, codes, Bool-cases, ◌⊎◌, Option-cases, inl,
  inr, u8,
}
use special_potato.Encoding.{IsKey, key_from_hex, key_is_zero}
use special_potato.Encoding.Hex.RoundTrip.{key_from_hex_iff}
use special_potato.Libc.{split_first, str_eq}
use special_potato.Libc.Strtoul.{strtoul}
use special_potato.Containers.{WgDevice, new_peer, zero_key}
use special_potato.Outcome.{
  System, Outcome, ok, error, exit, fault, pending, resolved, gai_error, Lookup,
}
use special_potato.Config.Number.{is_empty, set_fwmark, set_keepalive}
use special_potato.Config.Address.{split_endpoint, is_ip, set_port}
use special_potato.Config.Allowed.{Ip, parse_ip, too_long}
use special_potato.Config.Allowed.Laws.{IsAllowedip, IsIp, ReadsAddresses, parse_ip-cases}
use special_potato.Config.Section.Peer.{IsPeerCtx, link-IsPeerCtx, All-snoc}
use special_potato.Config.Section.Valid.{IsPeer}
use special_potato.Config.Setter
use special_potato.Uapi.{Errors, digit_first, num}
use special_potato.Uapi.Get.{
  Step, go, stop, leave, Reader, find_reader, PeerCtx, GetState, link_peer, get_private_key,
  device_readers, get_preshared_key, get_endpoint, get_allowed_ip, peer_readers, get_public_key,
  get_errno, get_other, put_device, put_peer, key_at, number, of_peer, set_sec, set_nsec,
  endpoint_found, endpoint_at, prefix_at, mask_at,
}

-- A step that goes on keeps `P`.
abbrev pub Keeps {ℓ} : {A : Type ℓ} → (A → Type 0) → Step A → Type 0
Keeps P (go a) = P a
Keeps P stop = Unit
Keeps P (leave code) = Unit

-- The ranges of the numbers and keys of a device, and its peers with their public keys.
pub record IsRuntime (d : WgDevice) : Type 0 where
  pub private_key : IsKey d.private_key
  pub fwmark : d.fwmark < 2 ^ 32
  pub listen_port : d.listen_port ≤ 65535
  pub jc : d.junk_packet_count ≤ 65535
  pub jmin : d.junk_packet_min_size ≤ 65535
  pub jmax : d.junk_packet_max_size ≤ 65535
  pub s1 : d.init_packet_junk_size ≤ 65535
  pub s2 : d.response_packet_junk_size ≤ 65535
  pub s3 : d.cookie_reply_packet_junk_size ≤ 65535
  pub s4 : d.transport_packet_junk_size ≤ 65535
  pub peers : All (λ p. IsPeer p × (p.flags.has_public_key ≡ true)) d.peers

pub zero_key-IsKey : IsKey zero_key
zero_key-IsKey = (refl, all_zero 32)
  where
    all_zero : (n : ℕ) → IsBytes (replicate n 0)
    all_zero zero = tt
    all_zero (suc n) = (omega arith, all_zero n)

abbrev Named : Bool → Type 0
Named b = b ≡ true

abbrev pub IsLast : Option PeerCtx → Type 0
IsLast none = Unit
IsLast (some ctx) = IsPeerCtx Named ctx

pub record IsState (st : GetState) : Type 0 where
  pub device : IsRuntime st.device
  pub last : IsLast st.peer

num-le : (signed : Bool) (max : ℕ) (value : Bytes) {n : ℕ} → num signed max value ≡ some n → n ≤ max
unfolding num
num-le signed max value h = ground arith

key_from_hex-IsKey :
    (old value : Bytes) {k : Bytes} → IsBytes value → key_from_hex old value ≡ (true, k) → IsKey k
key_from_hex-IsKey old value {k} h e = ((key_from_hex_iff old value k h).0 e).0

-- A Boolean and a key, with what the key is when the Boolean is true.
key_cases : (r : Bool × Bytes) → (r.0 ≡ false) ⊎ ((k : Bytes) × (r ≡ (true, k)))
key_cases (true, k) = inr (k, refl)
key_cases (false, k) = inl refl

-- Every reader of a table keeps `P`, on values of bytes.
infixr 5 ◌&◌
data AllKeep {A : Type 0} (P : A → Type 0) : List (Bytes × Reader A) → Type 0 where
  no_more : AllKeep P []
  ◌&◌ :
      {name : Bytes} {reader : Reader A} {readers : List (Bytes × Reader A)}
      → ((value : Bytes) (a : A) → IsBytes value → P a → Keeps P (reader value a))
      → AllKeep P readers
      → AllKeep P ((name, reader) ∷ readers)

find_reader-AllKeep :
    {A : Type 0} (P : A → Type 0) (readers : List (Bytes × Reader A)) (key : Bytes)
    {reader : Reader A}
    → AllKeep P readers
    → find_reader readers key ≡ some reader
    → (value : Bytes) (a : A) → IsBytes value
    → P a
    → Keeps P (reader value a)
unfolding find_reader
find_reader-AllKeep P [] key k e value a b p = cc
find_reader-AllKeep P ((name, first) ∷ readers) key {reader} (keeps & rest) e value a b p =
    elim (Bool-cases (str_eq key name)) [
      | inl y ↦
          let same : first ≡ reader = ground (arith, e, y) in
          rw (ap (λ (f : Reader _). f value a) same) at (keeps value a b p)
      | inr n ↦
          let later : find_reader readers key ≡ some reader = ground (arith, e, n) in
          find_reader-AllKeep P readers key rest later value a b p
    ]

within_prefix :
    (ip : Ip) (n : ℕ)
    → IsIp ip
    → too_long ip.family (u8 n) ≡ false
    → IsAllowedip (record { family = ip.family; ip = ip.words; cidr = u8 n })
within_prefix ip n family small = elim family [
  | inl four ↦ inl (four.0, (let small' = rw (four.0) at small in ground (arith, small')), four.1)
  | inr six ↦ inr (six.0, (let small' = rw (six.0) at small in ground (arith, small')), six.1)
]

module _ (sys : System) (e : Errors) (generate_public : Bytes → Bytes) where
  number-Keeps :
      {A : Type 0} (P : A → Type 0) (max : ℕ) (set : ℕ → A → A)
      → ((n : ℕ) (a : A) → n ≤ max → P a → P (set n a))
      → (value : Bytes) (a : A) → IsBytes value
      → P a
      → Keeps P (number sys e generate_public max set value a)
  number-Keeps P max set keeps value a b p = elim (Option-cases (num sys.char_signed max value)) [
    | inl none_there ↦ rw none_there tt
    | inr (n, there) ↦ rw there (keeps n a (num-le sys.char_signed max value there) p)
  ]

  private_key-Keeps :
      (value : Bytes) (d : WgDevice)
      → IsBytes value
      → IsRuntime d
      → Keeps IsRuntime (get_private_key sys e generate_public value d)
  unfolding get_private_key
  private_key-Keeps value d b v = elim (key_cases (key_from_hex d.private_key value)) [
    | inl bad ↦ rw bad tt
    | inr (k, good) ↦
        (let key = key_from_hex-IsKey d.private_key value b good in rw good assumption)
  ]

  device_readers-AllKeep : AllKeep IsRuntime (device_readers sys e generate_public)
  device_readers-AllKeep =
      private_key-Keeps
      & number-Keeps IsRuntime 65535 set_port (λ n d h v. assumption)
      & number-Keeps IsRuntime (2 ^ 32 - 1) set_fwmark
          (λ n d h v. (let small : n < 2 ^ 32 = omega arith in assumption))
      & number-Keeps IsRuntime 65535 Setter.jc (λ n d h v. assumption)
      & number-Keeps IsRuntime 65535 Setter.jmin (λ n d h v. assumption)
      & number-Keeps IsRuntime 65535 Setter.jmax (λ n d h v. assumption)
      & number-Keeps IsRuntime 65535 Setter.s1 (λ n d h v. assumption)
      & number-Keeps IsRuntime 65535 Setter.s2 (λ n d h v. assumption)
      & number-Keeps IsRuntime 65535 Setter.s3 (λ n d h v. assumption)
      & number-Keeps IsRuntime 65535 Setter.s4 (λ n d h v. assumption)
      & (λ value d b v. assumption)
      & (λ value d b v. assumption)
      & (λ value d b v. assumption)
      & (λ value d b v. assumption)
      & (λ value d b v. assumption)
      & (λ value d b v. assumption)
      & (λ value d b v. assumption)
      & (λ value d b v. assumption)
      & (λ value d b v. assumption)
      & no_more

  preshared_key-Keeps :
      (value : Bytes) (ctx : PeerCtx)
      → IsBytes value
      → IsPeerCtx Named ctx
      → Keeps (IsPeerCtx Named) (get_preshared_key sys e generate_public value ctx)
  unfolding get_preshared_key
  preshared_key-Keeps value (p, last) b v = elim (key_cases (key_from_hex p.preshared_key value)) [
    | inl bad ↦ rw bad tt
    | inr (k, good) ↦
        let key = key_from_hex-IsKey p.preshared_key value b good in
        let peer = v.peer in
        elim (Bool-cases (key_is_zero k)) [
          | inl zero_there ↦
              rw (good, zero_there) (record { peer = assumption; tail = v.tail; named = v.named })
          | inr other ↦
              rw (good, other) (record { peer = assumption; tail = v.tail; named = v.named })
        ]
  ]

  found-Keeps :
      (ctx : PeerCtx) (l : Lookup)
      → IsPeerCtx Named ctx
      → Keeps (IsPeerCtx Named) (endpoint_found sys e generate_public ctx l)
  found-Keeps ctx (gai_error code) v = tt
  found-Keeps (p, last) (resolved a) v =
      let peer = v.peer in
      elim (Bool-cases (is_ip a)) [
        | inl y ↦ rw y (record { peer = assumption; tail = v.tail; named = v.named })
        | inr n ↦ rw n tt
      ]

  at-Keeps :
      (ctx : PeerCtx) (o : Option (Bytes × Bytes))
      → IsPeerCtx Named ctx
      → Keeps (IsPeerCtx Named) (endpoint_at sys e generate_public ctx o)
  at-Keeps ctx none v = tt
  at-Keeps ctx (some (host, service)) v = found-Keeps ctx (sys.getaddrinfo 0 (some host) service) v

  prefix-Keeps :
      ReadsAddresses sys
      → (ctx : PeerCtx) (text mask : Bytes) (o : Outcome Ip) → parse_ip sys text ≡ o
      → IsPeerCtx Named ctx
      → Keeps (IsPeerCtx Named) (prefix_at sys e generate_public ctx mask o)
  prefix-Keeps reads ctx text mask error e' v = tt
  prefix-Keeps reads ctx text mask exit e' v = tt
  prefix-Keeps reads ctx text mask fault e' v = tt
  prefix-Keeps reads ctx text mask pending e' v = tt
  prefix-Keeps reads (p, last) text mask (ok ip) e' v =
      let n = (strtoul sys.ulong_max 10 mask).0 in
      let end = (strtoul sys.ulong_max 10 mask).1 in
      elim (Bool-cases (not (is_empty end) || too_long ip.family (u8 n))) [
        | inl y ↦ rw y tt
        | inr good ↦ rw good (
            link-IsPeerCtx sys Named last
              (record { family = ip.family; ip = ip.words; cidr = u8 n }) p
              (within_prefix ip n (parse_ip-cases sys reads text e') (ground (arith, good))) v)
      ]

  mask-Keeps :
      ReadsAddresses sys
      → (ctx : PeerCtx) (o : Option (Bytes × Bytes)) → IsPeerCtx Named ctx
      → Keeps (IsPeerCtx Named) (mask_at sys e generate_public ctx o)
  mask-Keeps reads ctx none v = tt
  mask-Keeps reads ctx (some (text, mask)) v =
      elim (Bool-cases (digit_first sys.char_signed mask)) [
        | inl y ↦ rw y (prefix-Keeps reads ctx text mask _ refl v)
        | inr n ↦ rw n tt
      ]

  peer_readers-AllKeep :
      ReadsAddresses sys → AllKeep (IsPeerCtx Named) (peer_readers sys e generate_public)
  unfolding get_endpoint get_allowed_ip
  peer_readers-AllKeep reads =
      preshared_key-Keeps
      & (λ value ctx b v. at-Keeps ctx (split_endpoint value) v)
      & number-Keeps (IsPeerCtx Named) 65535 (of_peer sys e generate_public set_keepalive)
          (λ n ctx h v.
            (let peer = v.peer in record { peer = assumption; tail = v.tail; named = v.named }))
      & (λ value ctx b v. mask-Keeps reads ctx (split_first b'/' value) v)
      & number-Keeps (IsPeerCtx Named) (2 ^ 63 - 1)
          (of_peer sys e generate_public (set_sec sys e generate_public))
          (λ n ctx h v.
            (let peer = v.peer in record { peer = assumption; tail = v.tail; named = v.named }))
      & number-Keeps (IsPeerCtx Named) (2 ^ 63 - 1)
          (of_peer sys e generate_public (set_nsec sys e generate_public))
          (λ n ctx h v.
            (let peer = v.peer in record { peer = assumption; tail = v.tail; named = v.named }))
      & number-Keeps (IsPeerCtx Named) (2 ^ 64 - 1)
          (of_peer sys e generate_public (λ n p. record p { rx_bytes = n }))
          (λ n ctx h v.
            (let peer = v.peer in record { peer = assumption; tail = v.tail; named = v.named }))
      & number-Keeps (IsPeerCtx Named) (2 ^ 64 - 1)
          (of_peer sys e generate_public (λ n p. record p { tx_bytes = n }))
          (λ n ctx h v.
            (let peer = v.peer in record { peer = assumption; tail = v.tail; named = v.named }))
      & no_more

  pub IsLast-link :
      (o : Option PeerCtx) (d : WgDevice) → IsLast o → IsRuntime d → IsRuntime (link_peer o d)
  IsLast-link none d l v = v
  IsLast-link (some (p, last)) d l v =
      let all =
        All-snoc (λ q. IsPeer q × (q.flags.has_public_key ≡ true)) d.peers p v.peers
          (l.peer, l.named) in
      assumption

  new_peer-IsPeer : (key : Bytes) → IsKey key → IsPeer (Setter.public_key key new_peer)
  new_peer-IsPeer key k = record {
    public_key = k;
    preshared_key = zero_key-IsKey;
    keepalive = omega arith;
    allowed = tt;
  }

  public_key-Keeps :
      (value : Bytes) (st : GetState)
      → IsBytes value
      → IsState st
      → Keeps IsState (get_public_key sys e generate_public value st)
  unfolding get_public_key
  public_key-Keeps value st b v = elim (key_cases (key_from_hex new_peer.public_key value)) [
    | inl bad ↦ rw bad tt
    | inr (k, good) ↦
        let key = key_from_hex-IsKey new_peer.public_key value b good in
        rw good (record {
          device = IsLast-link st.peer st.device v.last v.device;
          last = record { peer = new_peer-IsPeer k key; tail = λ e. refl; named = refl };
        })
  ]

  errno-Keeps :
      (value : Bytes) (st : GetState)
      → IsState st
      → Keeps IsState (get_errno sys e generate_public value st)
  unfolding get_errno
  errno-Keeps value st v = elim (Option-cases (num sys.char_signed (2 ^ 31 - 1) value)) [
    | inl none_there ↦ rw none_there tt
    | inr (n, there) ↦ rw there (record { device = v.device; last = v.last })
  ]

  other-Keeps :
      (key value : Bytes) (st : GetState)
      → IsBytes value
      → IsState st
      → Keeps IsState (get_other sys e generate_public key value st)
  unfolding get_other
  other-Keeps key value st b v = elim (Bool-cases (str_eq key (codes "public_key"))) [
    | inl y ↦ rw y (public_key-Keeps value st b v)
    | inr n ↦ elim (Bool-cases (str_eq key (codes "errno"))) [
      | inl y ↦ rw (n, y) (errno-Keeps value st v)
      | inr n' ↦ rw (n, n') v
    ]
  ]

  put_device-Keeps :
      (st : GetState) (s : Step WgDevice)
      → IsState st
      → Keeps IsRuntime s
      → Keeps IsState (put_device sys e generate_public st s)
  put_device-Keeps st (go d) v k = record { device = k; last = v.last }
  put_device-Keeps st stop v k = tt
  put_device-Keeps st (leave code) v k = tt

  put_peer-Keeps :
      (st : GetState) (s : Step PeerCtx)
      → IsState st
      → Keeps (IsPeerCtx Named) s
      → Keeps IsState (put_peer sys e generate_public st s)
  put_peer-Keeps st (go ctx) v k = record { device = v.device; last = k }
  put_peer-Keeps st stop v k = tt
  put_peer-Keeps st (leave code) v k = tt

  pub key_at-Keeps :
      ReadsAddresses sys
      → (key value : Bytes) (st : GetState) (o : Option PeerCtx) → IsBytes value
      → IsState st
      → IsLast o
      → Keeps IsState (key_at sys e generate_public key value st o)
  key_at-Keeps reads key value st none b v l =
      elim (Option-cases (find_reader (device_readers sys e generate_public) key)) [
        | inl bad ↦ rw bad (other-Keeps key value st b v)
        | inr (reader, there) ↦ rw there (
            put_device-Keeps st (reader value st.device) v (
              find_reader-AllKeep IsRuntime (device_readers sys e generate_public) key
                device_readers-AllKeep there value st.device b v.device))
      ]
  key_at-Keeps reads key value st (some ctx) b v l =
      elim (Option-cases (find_reader (peer_readers sys e generate_public) key)) [
        | inl bad ↦ rw bad (other-Keeps key value st b v)
        | inr (reader, there) ↦ rw there (
            put_peer-Keeps st (reader value ctx) v (
              find_reader-AllKeep (IsPeerCtx Named) (peer_readers sys e generate_public) key
                (peer_readers-AllKeep reads) there value ctx b l))
      ]
