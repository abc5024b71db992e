-- ===== src/Uapi/Get/Reply.antt =====
-- A device that is taken from a reply is in its ranges.
use special_potato.Prelude.{
  ℕ, ◌==◌, true, List, [], ◌∷◌, Bytes, IsBytes, All, Option, none, some, ◌≡◌, refl, arith,
  Bool-cases, ==_iff, Option-cases, inl, inr, ◌⊎◌, ap, ◌∙◌, sym,
}
use special_potato.Libc.{split_first, split_last}
use special_potato.Containers.{WgDevice}
use special_potato.Outcome.{System}
use special_potato.Config.Allowed.Laws.{ReadsAddresses}
use special_potato.Uapi.{ℤ, pos, negsuc, Errors, entry, chomp, is_blank_line}
use special_potato.Uapi.Get.{
  Step, go, stop, leave, GetState, link_peer, get_key, step_at, get_loop, get_start, get_finish,
  is_zero, userspace_get_device,
}
use special_potato.Uapi.Get.Safe.{
  Keeps, IsRuntime, IsState, IsLast-link, key_at-Keeps, zero_key-IsKey,
}

split_last-IsBytes :
    (c : ℕ) (s : Bytes) {a b : Bytes} → IsBytes s → split_last c s ≡ some (a, b) → IsBytes a
unfolding split_last
split_last-IsBytes c [] h e = cc
split_last-IsBytes c (d ∷ s) {a} h e = elim (Option-cases (split_last c s)) [
  | inl none_there ↦ (let empty : a ≡ [] = ground (arith, e, none_there) in rw empty tt)
  | inr ((a', b'), there) ↦
      let longer : a ≡ d ∷ a' = ground (arith, e, there) in
      rw longer (h.0, split_last-IsBytes c s h.1 there)
]

split_first-rest :
    (c : ℕ) (s : Bytes) {a b : Bytes} → IsBytes s → split_first c s ≡ some (a, b) → IsBytes b
unfolding split_first
split_first-rest c [] h e = cc
split_first-rest c (d ∷ s) {a} {b} h e = elim (Bool-cases (d == c)) [
  | inl y ↦ (let rest : b ≡ s = ground (arith, y, e) in rw rest h.1)
  | inr n ↦ elim (Option-cases (split_first c s)) [
    | inl none_there ↦ absurd (ground (arith, n, e, none_there))
    | inr ((a', b'), there) ↦
        let same : b ≡ b' = ground (arith, n, e, there) in rw same (split_first-rest c s h.1 there)
  ]
]

chomp-some : (o : Option (Bytes × Bytes)) {s : Bytes} → chomp o ≡ some s → o ≡ some (s, [])
chomp-some none e = cc
chomp-some (some (a, [])) e = cc
chomp-some (some (a, c ∷ b)) e = cc

entry-IsBytes :
    (line : Bytes) {key value : Bytes}
    → IsBytes line
    → entry line ≡ some (key, value)
    → IsBytes value
unfolding entry
entry-IsBytes line {key} {value} h e = elim (Option-cases (chomp (split_last 10 line))) [
  | inl bad ↦ absurd (ground (arith, e, bad))
  | inr (s, good) ↦
      let body = split_last-IsBytes 10 line h (chomp-some (split_last 10 line) good) in
      let split : split_first b'=' s ≡ some (key, value) = ground (arith, e, good) in
      split_first-rest b'=' s body split
]

Step-cases :
    {A : Type 0} (s : Step A)
    → (s ≡ stop) ⊎ (((code : ℤ) × (s ≡ leave code)) ⊎ ((a : A) × (s ≡ go a)))
Step-cases stop = inl refl
Step-cases (leave code) = inr (inl (code, refl))
Step-cases (go a) = inr (inr (a, refl))

module _ (sys : System) (errors : Errors) (generate_public : Bytes → Bytes)
    (reads : ReadsAddresses sys) where
  step-Keeps :
      (st : GetState) (o : Option (Bytes × Bytes))
      → ((key value : Bytes) → o ≡ some (key, value) → IsBytes value)
      → IsState st
      → Keeps IsState (step_at sys errors generate_public st o)
  unfolding get_key
  step-Keeps st none b v = tt
  step-Keeps st (some (key, value)) b v =
      key_at-Keeps sys errors generate_public reads key value st st.peer (b key value refl) v v.last

  get_loop-IsState :
      (st : GetState) (lines : List Bytes)
      → All IsBytes lines
      → IsState st
      → IsState (get_loop sys errors generate_public st lines).1
  unfolding get_loop
  get_loop-IsState st [] b v = v
  get_loop-IsState st (line ∷ lines) b v = elim (Bool-cases (is_blank_line line)) [
    | inl blank ↦ rw blank v
    | inr other ↦
        let next = step_at sys errors generate_public st (entry line) in
        let keeps : Keeps IsState next =
          step-Keeps st (entry line) (λ key value e. entry-IsBytes line b.0 e) v in
        elim (Step-cases next) [
          | inl e ↦ rw (other, e) v
          | inr (inl (code, e)) ↦ rw (other, e) v
          | inr (inr (st', e)) ↦ rw (other, e) (get_loop-IsState st' lines b.1 (rw e at keeps))
        ]
  ]

  start-IsState : (iface : Bytes) → IsState (get_start sys errors generate_public iface)
  start-IsState iface = record {
    device = record {
      private_key = zero_key-IsKey;
      fwmark = omega arith;
      listen_port = omega arith;
      jc = omega arith;
      jmin = omega arith;
      jmax = omega arith;
      s1 = omega arith;
      s2 = omega arith;
      s3 = omega arith;
      s4 = omega arith;
      peers = tt;
    };
    last = tt;
  }

  zero_code : (code : ℤ) → is_zero sys errors generate_public code ≡ true → code ≡ pos 0
  zero_code (pos n) e = ap pos ((==_iff n 0).0 e)
  zero_code (negsuc n) e = cc

  finish-IsRuntime :
      (code code' : ℤ) (st : GetState) (d : WgDevice)
      → IsState st
      → get_finish sys errors generate_public (code, st) ≡ (code', some d)
      → (code' ≡ pos 0) × IsRuntime d
  finish-IsRuntime code code' st d v e =
      elim (Bool-cases (is_zero sys errors generate_public code)) [
        | inr n ↦ absurd (ground (arith, n, e))
        | inl y ↦
            let same : link_peer st.peer st.device ≡ d = ground (arith, y, e) in
            let code_same : code ≡ code' = cc in
            (
              sym code_same ∙ zero_code code y,
              rw (sym same)
                  (IsLast-link sys errors generate_public st.peer st.device v.last v.device),
            )
      ]

  -- Whatever lines a userspace implementation replies with, a device that `userspace_get_device`
  -- returns comes with the code 0 and is in its ranges: the private key has 32 bytes, the numbers fit
  -- their types, and each peer has a public key, keys of 32 bytes, and allowed addresses whose prefixes
  -- fit their families. In every other case there is no device.
  pub userspace_get_device-IsRuntime :
      (socket : Bytes → List Bytes ⊎ ℕ) (iface : Bytes) (lines : List Bytes) (code : ℤ)
      (d : WgDevice)
      → socket iface ≡ inl lines
      → All IsBytes lines
      → userspace_get_device sys errors generate_public socket iface ≡ (code, some d)
      → (code ≡ pos 0) × IsRuntime d
  unfolding userspace_get_device
  userspace_get_device-IsRuntime socket iface lines code d open_there b e =
      let start = get_start sys errors generate_public iface in
      let r = get_loop sys errors generate_public start lines in
      finish-IsRuntime (r.0) code (r.1) d (get_loop-IsState start lines b (start-IsState iface))
        (rw (open_there, userspace_get_device) at e)
