-- ===== src/Config/Command/Safe.antt =====
-- The words of `config_read_cmd` keep the device within its ranges, and every peer has its key.
use special_potato.Prelude.Lists.{take-IsBytes}
use special_potato.Prelude.{
  ◌-◌, Bool, true, false, List, [], ◌∷◌, Bytes, IsBytes, some, ◌≡◌, refl, ltb, ◌==◌, length, take,
  drop, Bool-cases, inl, inr,
}
use special_potato.Encoding.{IsKey, wg_key_len_base64}
use special_potato.Libc.{str_eq}
use special_potato.Containers.{WgPeer, WgDevice, new_peer, zero_key}
use special_potato.Outcome.{
  Outcome, ok, error, ◌>>=◌, System, FileContents, unreadable, contents, Ensures, Ensures->>=,
  Ensures-if, Ensures-Option,
}
use special_potato.Config.Number.{is_empty}
use special_potato.Config.KeyValue.{c_string, parse_key, parse_keyfile, read_key, key_of, all_space}
use special_potato.Config.Section.{Reader, PeerCtx, on_peer}
use special_potato.Config.Section.Keep.{AllKeep, no_more, ◌&◌}
use special_potato.Config.Section.Valid.{IsDevice, IsSystem}
use special_potato.Config.Section.Device.{parse_key-IsKey, keep_key-Ensures}
use special_potato.Config.Section.Context.{
  zero_key-IsKey, new_peer-IsPeer, Peers, Finished, with_peers, append_peer-Peers,
}
use special_potato.Config.Section.Keep.{update_last-Ensures}
use special_potato.Config.Command.{
  CommandCtx, peer_command, device_command, last_command, find_word, device_words, peer_words,
}
use special_potato.Config.Line.{strip_spaces}
use special_potato.Config.Section.Device.{
  number-IsDevice, text-IsDevice, parse_port-IsDevice, parse_fwmark-IsDevice,
}
use special_potato.Config.Section.Peer.{
  IsPeerCtx, endpoint-Ensures, parse_allowedips-Ensures, keepalive-Ensures, awg-Ensures,
}
use special_potato.Config.Setter

-- What is read from a file is bytes.
abbrev pub ReadsBytes : System → Type 0
ReadsBytes sys = (path text : Bytes) → sys.open_file path ≡ contents text → IsBytes text

pub c_string-IsBytes : (s : Bytes) → IsBytes s → IsBytes (c_string s)
unfolding c_string
c_string-IsBytes [] h = tt
c_string-IsBytes (c ∷ s) h =
    let rest = c_string-IsBytes s h.1 in
    elim (Bool-cases (c == 0)) [ inl e ↦ rw e tt | inr e ↦ rw e (h.0, rest) ]

module _ (sys : System) (files : ReadsBytes sys) where
  key_of-IsKey :
      (r : Bool × Bytes) → ((k : Bytes) → r ≡ (true, k) → IsKey k) → Ensures IsKey (key_of sys r)
  key_of-IsKey (true, k) h = h k refl
  key_of-IsKey (false, k) h = tt

  read_key-IsKey : (key text : Bytes) → IsBytes text → Ensures IsKey (read_key sys key text)
  unfolding read_key
  read_key-IsKey key text b =
      let line = c_string (take (wg_key_len_base64 - 1) text) in
      let bytes = c_string-IsBytes _ (take-IsBytes (wg_key_len_base64 - 1) text b) in
      Ensures-if IsKey (ltb (length text) (wg_key_len_base64 - 1)) _ _
        (λ e. Ensures-if IsKey (is_empty text) (ok zero_key) error (λ e. zero_key-IsKey) (λ e. tt))
        (λ e.
          Ensures-if IsKey (all_space sys (drop (wg_key_len_base64 - 1) text))
            (key_of sys (parse_key sys key line)) error
            (λ e.
              key_of-IsKey (parse_key sys key line)
                (λ k good. parse_key-IsKey sys key line bytes good))
            (λ e. tt))

  pub parse_keyfile-IsKey : (key path : Bytes) → Ensures IsKey (parse_keyfile sys key path)
  unfolding parse_keyfile
  parse_keyfile-IsKey key path = of_file (sys.open_file path) refl
    where
      of_file :
          (c : FileContents)
          → sys.open_file path ≡ c
          → Ensures IsKey (elim c as (λ x. Outcome Bytes) [
            | unreadable ↦ error
            | contents text ↦ read_key sys key text
          ])
      of_file unreadable e = tt
      of_file (contents text) e = read_key-IsKey key text (files path text e)

pub find_word-Ensures :
    {A : Type 0} (P : A → Type 0) (words : List (Bytes × Reader A)) (word : Bytes) {read : Reader A}
    → AllKeep P words
    → find_word words word ≡ some read
    → (value : Bytes) (a : A) → IsBytes value
    → P a
    → Ensures P (read value a)
unfolding find_word
find_word-Ensures P [] word k e value a b p = cc
find_word-Ensures P ((name, r) ∷ words) word {read = read} (keeps & rest) e value a b p =
    elim (Bool-cases (str_eq word name)) [
      | inl y ↦ let this : read ≡ r = (let e' = rw y at e in cc) in rw this (keeps value a b p)
      | inr n ↦ find_word-Ensures P words word {read = read} rest (rw n at e) value a b p
    ]

-- The public key is set.
abbrev pub Named : Bool → Type 0
Named b = b ≡ true

module _ (sys : System) (good : IsSystem sys) (files : ReadsBytes sys) where
  private_key-Ensures :
      (C : List WgPeer → Type 0) (value : Bytes) (d : WgDevice)
      → IsDevice C d
      → Ensures
          (IsDevice C)
          (parse_keyfile sys d.private_key value >>= (λ key. ok (Setter.private_key key d)))
  private_key-Ensures C value d v =
      Ensures->>= IsKey (IsDevice C) (parse_keyfile sys d.private_key value) _
        (parse_keyfile-IsKey sys files d.private_key value) (λ k is_key. assumption)

  device_words-AllKeep : (C : List WgPeer → Type 0) → AllKeep (IsDevice C) (device_words sys)
  unfolding device_words
  device_words-AllKeep C =
      (λ value d b v. parse_port-IsDevice sys C good value d v)
      & (λ value d b v. parse_fwmark-IsDevice sys C value d v)
      & (λ value d b v. private_key-Ensures C value d v)
      & number-IsDevice sys C Setter.jc (λ n d h v. assumption)
      & number-IsDevice sys C Setter.jmin (λ n d h v. assumption)
      & number-IsDevice sys C Setter.jmax (λ n d h v. assumption)
      & number-IsDevice sys C Setter.s1 (λ n d h v. assumption)
      & number-IsDevice sys C Setter.s2 (λ n d h v. assumption)
      & number-IsDevice sys C Setter.s3 (λ n d h v. assumption)
      & number-IsDevice sys C Setter.s4 (λ n d h v. assumption)
      & text-IsDevice sys C Setter.h1 (λ t d h v. assumption)
      & text-IsDevice sys C Setter.h2 (λ t d h v. assumption)
      & text-IsDevice sys C Setter.h3 (λ t d h v. assumption)
      & text-IsDevice sys C Setter.h4 (λ t d h v. assumption)
      & text-IsDevice sys C Setter.i1 (λ t d h v. assumption)
      & text-IsDevice sys C Setter.i2 (λ t d h v. assumption)
      & text-IsDevice sys C Setter.i3 (λ t d h v. assumption)
      & text-IsDevice sys C Setter.i4 (λ t d h v. assumption)
      & text-IsDevice sys C Setter.i5 (λ t d h v. assumption)
      & no_more

  preshared_key-Ensures :
      (value : Bytes) (s : PeerCtx)
      → IsPeerCtx Named s
      → Ensures (IsPeerCtx Named) (
          on_peer
            (λ p.
              parse_keyfile sys p.preshared_key value >>= (λ key. ok (Setter.preshared_key key p)))
            s)
  preshared_key-Ensures value s h =
      Ensures->>= (λ p. IsPeerCtx Named (p, s.1)) (IsPeerCtx Named) _ _
        (Ensures->>= IsKey (λ p. IsPeerCtx Named (p, s.1))
          (parse_keyfile sys s.0.preshared_key value) _
          (parse_keyfile-IsKey sys files s.0.preshared_key value)
          (λ k is_key. record { peer = assumption; tail = h.tail; named = h.named }))
        (λ p u. u)

  peer_words-AllKeep : AllKeep (IsPeerCtx Named) (peer_words sys)
  unfolding peer_words
  peer_words-AllKeep =
      (λ value s b h. endpoint-Ensures sys Named value s h)
      & (λ value s b h.
          parse_allowedips-Ensures sys Named good.reads (strip_spaces sys value) s.1 s.0 h)
      & (λ value s b h. keepalive-Ensures sys Named value s h)
      & (λ value s b h. preshared_key-Ensures value s h)
      & (λ value s b h. awg-Ensures sys Named value s h)
      & no_more

  -- The pointers of the loop, and the ranges.
  pub record IsCommand (ctx : CommandCtx) : Type 0 where
    pub device : IsDevice (Peers Named ctx.peer ctx.allowedip) ctx.device

  pub peer_command-Ensures :
      (value : Bytes) (ctx : CommandCtx)
      → IsBytes value
      → IsCommand ctx
      → Ensures IsCommand (peer_command sys value ctx)
  unfolding peer_command
  peer_command-Ensures value ctx b h =
      Ensures->>= (λ p. IsPeerCtx Named (p, false)) IsCommand _ _
        (keep_key-Ensures (λ p. IsPeerCtx Named (p, false)) Setter.public_key
          (parse_key sys (new_peer.public_key) value) new_peer
          (λ k e.
            let v = new_peer-IsPeer in
            let is_key = parse_key-IsKey sys (new_peer.public_key) value b e in
            record {
              peer = record {
                public_key = is_key;
                preshared_key = v.preshared_key;
                keepalive = v.keepalive;
                allowed = v.allowed;
              };
              tail = λ e'. refl;
              named = refl;
            }))
        (λ p v. record {
          device = with_peers _ (Peers Named true false) ctx.device _ h.device (
              append_peer-Peers sys Named ctx.peer ctx.allowedip p ctx.device.peers v
                h.device.peers);
        })

  pub device_command-Ensures :
      (word value : Bytes) (ctx : CommandCtx)
      → IsBytes value
      → IsCommand ctx
      → Ensures IsCommand (device_command sys word value ctx)
  unfolding device_command
  device_command-Ensures word value ctx b h =
      let C = Peers Named ctx.peer ctx.allowedip in
      Ensures-Option IsCommand (find_word (device_words sys) word) error _ tt (λ read e.
        Ensures->>= (IsDevice C) IsCommand (read value ctx.device) _
          (find_word-Ensures (IsDevice C) (device_words sys) word (device_words-AllKeep C) e value
            ctx.device b h.device)
          (λ d v. record { device = v }))

  pub last_command-Ensures :
      (word value : Bytes) (ctx : CommandCtx)
      → IsBytes value
      → IsCommand ctx
      → ctx.peer ≡ true
      → Ensures IsCommand (last_command sys word value ctx)
  unfolding last_command
  last_command-Ensures word value ctx b h e =
      let live : Peers Named true ctx.allowedip ctx.device.peers = rw e at (h.device.peers) in
      let there : (ps : List WgPeer) (l : Bool)
          → Peers Named true l ps
          → Peers Named ctx.peer l ps =
        λ ps l v. rw e v in
      Ensures-Option IsCommand (find_word (peer_words sys) word) error _ tt (λ read found.
        Ensures->>= (λ (r : List WgPeer × Bool). Peers Named true r.1 r.0) IsCommand _ _
          (update_last-Ensures sys (IsPeerCtx Named) (Finished Named) (read value) ctx.allowedip
            ctx.device.peers
            (λ s v.
              find_word-Ensures (IsPeerCtx Named) (peer_words sys) word peer_words-AllKeep found
                value s b v)
            live)
          (λ r v. record {
            device =
                with_peers _ (Peers Named ctx.peer r.1) ctx.device r.0 h.device (there r.0 r.1 v);
          }))
