-- ===== src/Config/Section/Peer.antt =====
-- Every key of the `[Peer]` section keeps a peer within its ranges, and the end of its list known.
use special_potato.Prelude.{
  ℕ, ◌≤◌, Bool, true, false, List, [], ◌∷◌, ◌++◌, Bytes, IsBytes, All, ◌≡◌, arith, not, codes, ltb,
  ◌||◌,
}
use special_potato.Containers.{WgPeer, WgAllowedip}
use special_potato.Outcome.{Outcome, ok, error, System, Ensures, Ensures->>=, Ensures-if}
use special_potato.Libc.{case_eq, split_on}
use special_potato.Libc.Strtoul.{strtoul}
use special_potato.Config.Number.{
  parse_persistent_keepalive, set_keepalive, is_empty, starts_with_digit, parse_bool,
}
use special_potato.Config.KeyValue.{parse_key}
use special_potato.Config.Address.{parse_endpoint}
use special_potato.Config.Allowed.{parse_allowedips, parse_allowedip, allowedips_loop, link}
use special_potato.Config.Allowed.Laws.{IsAllowedip, ReadsAddresses, parse_allowedip-IsAllowedip}
use special_potato.Config.Section.{PeerCtx, on_peer, keep_key, peer_keys, read_endpoint, read_awg}
use special_potato.Config.Section.Keep.{AllKeep, no_more, ◌&◌}
use special_potato.Config.Section.Device.{keep_key-Ensures, parse_key-IsKey}
use special_potato.Config.Section.Valid.{IsPeer, IsSystem}
use special_potato.Config.Total.{parse_endpoint-NoFault, parse_bool-NoFault}
use special_potato.Config.Setter

-- The peer is within its ranges, a NULL tail pointer means an empty list, and `R` holds of whether
-- the public key is set.
pub record IsPeerCtx (R : Bool → Type 0) (s : PeerCtx) : Type 0 where
  pub peer : IsPeer s.0
  pub tail : s.1 ≡ false → s.0.allowedips ≡ []
  pub named : R s.0.flags.has_public_key

pub All-snoc :
    {A : Type 0} (P : A → Type 0) (xs : List A) (x : A) → All P xs → P x → All P (xs ++ (x ∷ []))
All-snoc P [] x h p = (p, tt)
All-snoc P (y ∷ xs) x h p = (h.0, All-snoc P xs x h.1 p)

on_peer-Ensures :
    (P : WgPeer → Type 0) (Q : PeerCtx → Type 0) (f : WgPeer → Outcome WgPeer) (s : PeerCtx)
    → Ensures P (f s.0)
    → ((p : WgPeer) → P p → Q (p, s.1))
    → Ensures Q (on_peer f s)
on_peer-Ensures P Q f s h k = Ensures->>= P Q (f s.0) _ h (λ p u. k p u)

module _ (sys : System) (R : Bool → Type 0) where
  pub link-IsPeerCtx :
      (last : Bool) (a : WgAllowedip) (p : WgPeer)
      → IsAllowedip a
      → IsPeerCtx R (p, last)
      → IsPeerCtx R (link sys last a p, true)
  link-IsPeerCtx true a p h s =
      let all = All-snoc IsAllowedip p.allowedips a s.peer.allowed h in
      record { peer = assumption; tail = λ e. cc; named = s.named }
  link-IsPeerCtx false a p h s =
      let all : All IsAllowedip (a ∷ []) = (h, tt) in
      record { peer = assumption; tail = λ e. cc; named = s.named }

  allowedips_loop-Ensures :
      ReadsAddresses sys
      → (entries : List Bytes) (last : Bool) (p : WgPeer) → IsPeerCtx R (p, last)
      → Ensures (IsPeerCtx R) (allowedips_loop sys entries last p)
  unfolding allowedips_loop
  allowedips_loop-Ensures reads [] last p h = h
  allowedips_loop-Ensures reads (entry ∷ entries) last p h =
      Ensures->>= IsAllowedip (IsPeerCtx R) (parse_allowedip sys entry) _
        (parse_allowedip-IsAllowedip sys reads entry)
        (λ a v.
          allowedips_loop-Ensures reads entries true (link sys last a p)
            (link-IsPeerCtx last a p v h))

  pub parse_allowedips-Ensures :
      ReadsAddresses sys
      → (value : Bytes) (last : Bool) (p : WgPeer) → IsPeerCtx R (p, last)
      → Ensures (IsPeerCtx R) (parse_allowedips sys value last p)
  unfolding parse_allowedips
  parse_allowedips-Ensures reads value last p h =
      let p' = record p { flags = record (p.flags) { replace_allowedips = true } } in
      let h' : IsPeerCtx R (p', last) = record {
        peer = assumption;
        tail = h.tail;
        named = h.named;
      } in
      Ensures-if (IsPeerCtx R) (is_empty value) (ok (p', last)) _ (λ e. h')
        (λ e. allowedips_loop-Ensures reads (split_on b',' value) last p' h')

  pub keepalive-Ensures :
      (value : Bytes) (s : PeerCtx)
      → IsPeerCtx R s
      → Ensures (IsPeerCtx R) (on_peer (parse_persistent_keepalive sys value) s)
  unfolding parse_persistent_keepalive
  keepalive-Ensures value s h =
      let Q : WgPeer → Type 0 = λ p. IsPeerCtx R (p, s.1) in
      let r = strtoul sys.ulong_max 10 value in
      on_peer-Ensures Q (IsPeerCtx R) (parse_persistent_keepalive sys value) s
        (Ensures-if Q (case_eq value (codes "off")) _ _ (λ e. stored 0 (omega arith))
          (λ e.
            Ensures-if Q (not (starts_with_digit sys value)) _ _ (λ e. tt)
              (λ e.
                Ensures-if Q (not (is_empty r.1) || ltb 65535 r.0) error
                  (ok (set_keepalive r.0 s.0)) (λ e. tt) (λ e. stored r.0 (ground arith)))))
        (λ p u. u)
    where
      stored : (n : ℕ) → n ≤ 65535 → IsPeerCtx R (set_keepalive n s.0, s.1)
      stored n le = record { peer = assumption; tail = h.tail; named = h.named }

  pub endpoint-Ensures :
      (value : Bytes) (s : PeerCtx)
      → IsPeerCtx R s
      → Ensures (IsPeerCtx R) (on_peer (read_endpoint sys value) s)
  endpoint-Ensures value s h =
      on_peer-Ensures (λ p. IsPeerCtx R (p, s.1)) (IsPeerCtx R) (read_endpoint sys value) s
        (Ensures->>= (λ a. Unit) (λ p. IsPeerCtx R (p, s.1)) (parse_endpoint sys value) _
          (parse_endpoint-NoFault sys value)
          (λ a u. record { peer = assumption; tail = h.tail; named = h.named }))
        (λ p u. u)

  pub awg-Ensures :
      (value : Bytes) (s : PeerCtx)
      → IsPeerCtx R s
      → Ensures (IsPeerCtx R) (on_peer (read_awg sys value) s)
  awg-Ensures value s h =
      on_peer-Ensures (λ p. IsPeerCtx R (p, s.1)) (IsPeerCtx R) (read_awg sys value) s
        (Ensures->>= (λ a. Unit) (λ p. IsPeerCtx R (p, s.1)) (parse_bool sys value) _
          (parse_bool-NoFault sys value)
          (λ a u. record { peer = assumption; tail = h.tail; named = h.named }))
        (λ p u. u)

  public_key-Ensures :
      R true
      → (value : Bytes) (s : PeerCtx) → IsBytes value
      → IsPeerCtx R s
      → Ensures
          (IsPeerCtx R)
          (on_peer (λ p. keep_key Setter.public_key (parse_key sys p.public_key value) p) s)
  public_key-Ensures set value s b h =
      on_peer-Ensures (λ p. IsPeerCtx R (p, s.1)) (IsPeerCtx R)
        (λ p. keep_key Setter.public_key (parse_key sys p.public_key value) p) s
        (keep_key-Ensures (λ p. IsPeerCtx R (p, s.1)) Setter.public_key
          (parse_key sys s.0.public_key value) s.0
          (λ k e.
            let is_key = parse_key-IsKey sys s.0.public_key value b e in
            record { peer = assumption; tail = h.tail; named = set }))
        (λ p u. u)

  preshared_key-Ensures :
      (value : Bytes) (s : PeerCtx)
      → IsBytes value
      → IsPeerCtx R s
      → Ensures
          (IsPeerCtx R)
          (on_peer (λ p. keep_key Setter.preshared_key (parse_key sys p.preshared_key value) p) s)
  preshared_key-Ensures value s b h =
      on_peer-Ensures (λ p. IsPeerCtx R (p, s.1)) (IsPeerCtx R)
        (λ p. keep_key Setter.preshared_key (parse_key sys p.preshared_key value) p) s
        (keep_key-Ensures (λ p. IsPeerCtx R (p, s.1)) Setter.preshared_key
          (parse_key sys s.0.preshared_key value) s.0
          (λ k e.
            let is_key = parse_key-IsKey sys s.0.preshared_key value b e in
            record { peer = assumption; tail = h.tail; named = h.named }))
        (λ p u. u)

  -- Every key of the section.
  pub peer_keys-AllKeep : R true → IsSystem sys → AllKeep (IsPeerCtx R) (peer_keys sys)
  unfolding peer_keys
  peer_keys-AllKeep set good =
      (λ value s b h. endpoint-Ensures value s h)
      & (λ value s b h. public_key-Ensures set value s b h)
      & (λ value s b h. parse_allowedips-Ensures good.reads value s.1 s.0 h)
      & (λ value s b h. keepalive-Ensures value s h)
      & (λ value s b h. preshared_key-Ensures value s b h)
      & (λ value s b h. awg-Ensures value s h)
      & no_more
