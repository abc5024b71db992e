-- ===== src/Highlighter/Host/Ipv4.antt =====
-- Which IPv4 addresses the highlighter accepts.
use special_potato.Prelude.{
  ℕ, zero, suc, ◌<◌, ◌==◌, true, [], ◌∷◌, ◌++◌, Bytes, ◌≡◌, ◌↔◌, refl, sym, ap, ◌∙◌, arith,
  Bool-cases, ==_iff, inl, inr, ◌⊎◌,
}
use mathlib.Core.List.{append-nil}
use special_potato.Libc.Printf.{print_u}
use special_potato.Highlighter.Classes.{is_decimal}
use special_potato.Highlighter.Host.{octet_loop, ipv4_loop, is_valid_ipv4}
use special_potato.Highlighter.Host.Digits.{next_octets, is_bad, octet_step, octet_read}

-- `n` decimals of bytes with dots between them.
abbrev IsOctets : ℕ → Bytes → Type 0
IsOctets zero s = ⊥
IsOctets (suc zero) s = (v : ℕ) × (v < 256) × (s ≡ print_u v)
IsOctets (suc (suc n)) s =
    (v : ℕ) × (v < 256) × ((t : Bytes) × (s ≡ print_u v ++ (b'.' ∷ t)) × IsOctets (suc n) t)

IsOctets-loop : (n : ℕ) (s : Bytes) (next : ℕ) → IsOctets n s → ipv4_loop n s next ≡ true
IsOctets-loop zero s next h = elim h [ ]
IsOctets-loop (suc zero) s next (v, lt, e) =
    rw (e ∙ sym (append-nil (print_u v))) (octet_step 0 v [] next lt tt)
IsOctets-loop (suc (suc n)) s next (v, lt, (t, e, h)) = rw e (
    octet_step (suc n) v (b'.' ∷ t) next lt (unfold is_decimal in refl)
    ∙ IsOctets-loop (suc n) t next h)

-- What a successful round leaves.
rest_cases :
    (n : ℕ) (rest : Bytes) (next : ℕ)
    → next_octets n rest next ≡ true
    → ((n ≡ 0) × (rest ≡ [])) ⊎ ((t : Bytes) × (rest ≡ b'.' ∷ t) × (ipv4_loop n t next ≡ true))
rest_cases zero [] next e = inl (refl, refl)
rest_cases (suc n) [] next e = absurd (unfold ipv4_loop in ground (arith, e))
rest_cases n (d ∷ t) next e = elim (Bool-cases (d == b'.')) [
  | inl dot ↦ inr (t, ap (λ (x : ℕ). x ∷ t) ((==_iff d b'.').0 dot), ground (arith, e, dot))
  | inr other ↦ absurd (ground (arith, e, other))
]

join-IsOctets :
    (n : ℕ) (s rest : Bytes) (v : ℕ)
    → v < 256
    → s ≡ print_u v ++ rest
    → ((n ≡ 0) × (rest ≡ [])) ⊎ ((t : Bytes) × (rest ≡ b'.' ∷ t) × IsOctets n t)
    → IsOctets (suc n) s
join-IsOctets n s rest v lt e (inl (zero_left, nothing)) =
    rw zero_left (v, lt, e ∙ rw nothing (append-nil (print_u v)))
join-IsOctets zero s rest v lt e (inr (t, dot, h)) = elim h [ ]
join-IsOctets (suc n) s rest v lt e (inr (t, dot, h)) = (v, lt, (t, rw dot at e, h))

loop-IsOctets : (n : ℕ) (s : Bytes) (next : ℕ) → ipv4_loop n s next ≡ true → IsOctets n s
unfolding ipv4_loop
loop-IsOctets zero s next e = cc
loop-IsOctets (suc n) [] next e = cc
loop-IsOctets (suc n) (c ∷ s) next e =
    let o = octet_loop 3 0 0 (c ∷ s) in
    elim (Bool-cases (is_bad o.count o.value c)) [
      | inl bad ↦ absurd (ground (arith, e, bad))
      | inr good ↦
          let (v, lt, same) = octet_read c s good in
          let later : next_octets n o.rest next ≡ true = rw good at e in
          join-IsOctets n (c ∷ s) o.rest v lt same (elim (rest_cases n o.rest next later) [
            | inl done ↦ inl done
            | inr (t, dot, more) ↦ inr (t, dot, loop-IsOctets n t next more)
          ])
    ]

-- The decimals of four bytes with dots between them.
abbrev pub IsDotted : Bytes → Type 0
IsDotted s =
    (a : ℕ) × (a < 256)
    × ((b : ℕ) × (b < 256)
        × ((c : ℕ) × (c < 256)
            × ((d : ℕ) × (d < 256)
                × (s
                    ≡ print_u a
                      ++ (b'.' ∷ print_u b ++ (b'.' ∷ print_u c ++ (b'.' ∷ print_u d)))))))

-- `is_valid_ipv4` accepts exactly what `printf` writes for four bytes with dots between them: no
-- other number of parts, no part above 255, no leading zero. The character behind the span, which the
-- loop may look at, does not matter.
pub is_valid_ipv4_iff : (s : Bytes) (next : ℕ) → (is_valid_ipv4 s next ≡ true) ↔ IsDotted s
unfolding is_valid_ipv4
is_valid_ipv4_iff s next = (
  λ e.
      let (a, pa, (t, ea, (b, pb, (u, eb, (c, pc, (w, ec, (d, pd, ed))))))) =
        loop-IsOctets 4 s next e in
      (a, pa, (b, pb, (c, pc, (d, pd, rw (sym ed, sym ec, sym eb) ea)))),
  λ h.
      let (a, pa, (b, pb, (c, pc, (d, pd, e)))) = h in
      IsOctets-loop 4 s next (a, pa, (_, e, (b, pb, (_, refl, (c, pc, (_, refl, (d, pd, refl))))))),
)
