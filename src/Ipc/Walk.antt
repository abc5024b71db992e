-- ===== src/Ipc/Walk.antt =====
-- The names come out of the list of interfaces as they went in.
use special_potato.Prelude.{
  ℕ, zero, suc, ◌<◌, ◌≡◌, ◌≢◌, refl, ap, ◌∙◌, true, false, List, [], ◌∷◌, ◌++◌, Bytes, ◌==◌, ==_iff,
  if◌then◌else◌, length, length-append, All, arith, inl, inr, some,
}
use mathlib.Core.List.{append_assoc, append-nil}
use special_potato.Outcome.{ok}
use special_potato.Libc.{split_first}
use special_potato.Config.Number.{is_empty}
use special_potato.Ipc.{StringList, no_strings, ipc_list_devices, interfaces}
use special_potato.Ipc.Names.{IsName, terminated, Holds, add_all-Holds}

module _ (fresh : ℕ → Bytes) (sized : (n : ℕ) → length (fresh n) ≡ n) where
  ipc_list_devices-Holds :
      (kernel userspace : List Bytes)
      → All IsName kernel
      → All IsName userspace
      → (list : StringList) × (Holds (kernel ++ userspace) list
          × (ipc_list_devices fresh (kernel, 0) (userspace, 0)
              ≡ ok (if list.cap == 0 then 0 ∷ [] else list.buffer)))
  unfolding ipc_list_devices
  ipc_list_devices-Holds kernel userspace hk hu =
      let empty : Holds [] no_strings = record {
        len = refl;
        cap = refl;
        rest = [];
        buffer = refl;
        end = inl (refl, refl);
      } in
      let (list1, (added, held)) = add_all-Holds fresh sized [] kernel no_strings empty hk in
      let (list2, (added', held')) = add_all-Holds fresh sized kernel userspace list1 held hu in
      (list2, (held', rw (added, added') refl))

split_first-name :
    (name rest : Bytes)
    → All (λ c. c ≢ 0) name
    → split_first 0 (name ++ (0 ∷ rest)) ≡ some (name, rest)
unfolding split_first
split_first-name [] rest h = refl
split_first-name (c ∷ name) rest h =
    let test : (c == 0) ≡ false = ground (arith, h.0) in
    rw (test, split_first-name name rest h.1) refl

not_empty : (name : Bytes) → 0 < length name → is_empty name ≡ false
not_empty [] h = absurd (omega (arith, h))
not_empty (c ∷ name) h = refl

interfaces-terminated :
    (fuel : ℕ) (names : List Bytes) (junk : Bytes)
    → All IsName names
    → length names < fuel
    → interfaces fuel (terminated names ++ (0 ∷ junk)) ≡ ok names
unfolding interfaces split_first
interfaces-terminated zero names junk h less = absurd (omega (arith, less))
interfaces-terminated (suc fuel) [] junk h less = refl
interfaces-terminated (suc fuel) (name ∷ names) junk h less =
    let shape = append_assoc name (0 ∷ terminated names) (0 ∷ junk) in
    let found = split_first-name name (terminated names ++ (0 ∷ junk)) h.0.1 in
    let rest = interfaces-terminated fuel names junk h.1 (omega (arith, less)) in
    rw (shape, interfaces, found, not_empty name h.0.0, rest) refl

All-append : (xs ys : List Bytes) → All IsName xs → All IsName ys → All IsName (xs ++ ys)
All-append [] ys hx hy = hy
All-append (x ∷ xs) ys hx hy = (hx.0, All-append xs ys hx.1 hy)

held-interfaces :
    (fuel : ℕ) (names : List Bytes) (list : StringList)
    → All IsName names
    → length names < fuel
    → Holds names list
    → interfaces fuel (if list.cap == 0 then 0 ∷ [] else list.buffer) ≡ ok names
held-interfaces fuel names list good less h = elim (h.end) [
  | inl (none_there, nothing) ↦
      let size = ap length (
        h.buffer
        ∙ ap (λ (s : Bytes). terminated names ++ s) nothing
        ∙ append-nil (terminated names)) in
      let empty = ap (λ (ns : List Bytes). length (terminated ns)) none_there in
      let test : (list.cap == 0) ≡ true =
        (==_iff list.cap 0).1 (omega (arith, h.cap, size, empty)) in
      rw (test, none_there) (interfaces-terminated fuel [] [] tt (omega (arith, less)))
  | inr (junk, e) ↦
      let shape = h.buffer ∙ ap (λ (s : Bytes). terminated names ++ s) e in
      let size = ap length shape in
      let parts = length-append (terminated names) (0 ∷ junk) in
      let test : (list.cap == 0) ≡ false = ground (arith, h.cap, size, parts) in
      rw (test, shape) (interfaces-terminated fuel names junk good less)
]

-- For names that are not empty and have no zero byte, and whatever stands in the bytes that `realloc`
-- adds, `ipc_list_devices` writes within its buffer, and the loop of `show_main` over what it returns
-- reads within it and gives the names of the kernel and then those of userspace: each one once and in
-- their order, also if there are none. One round for each name and one more are enough.
pub ipc_list_devices-interfaces :
    (fresh : ℕ → Bytes) (kernel userspace : List Bytes) (fuel : ℕ)
    → ((n : ℕ) → length (fresh n) ≡ n)
    → All IsName kernel
    → All IsName userspace
    → length (kernel ++ userspace) < fuel
    → (memory : Bytes) × ((ipc_list_devices fresh (kernel, 0) (userspace, 0) ≡ ok memory)
        × (interfaces fuel memory ≡ ok (kernel ++ userspace)))
ipc_list_devices-interfaces fresh kernel userspace fuel sized hk hu less =
    let (list, (held, listed)) = ipc_list_devices-Holds fresh sized kernel userspace hk hu in
    (
      _,
      (
        listed,
        held-interfaces fuel (kernel ++ userspace) list (All-append kernel userspace hk hu) less
            held,
      ),
    )
