-- ===== src/Show/Laws.antt =====
-- The numbers that `pretty_time` writes, and the order of peers.
use special_potato.Prelude.{
  sym, ==_iff, ◌∙◌, ℕ, ◌+◌, ◌-◌, ◌*◌, ◌^◌, ◌<◌, ◌≡◌, ◌↔◌, ◌⊎◌, inl, inr, Bool, true, false,
  Bool-cases, ◌==◌, arith, if◌then◌else◌,
}
use special_potato.Containers.{WgPeer, Timespec64}
use special_potato.Show.{
  time_parts, Order, before, same, after, is_unset, time_bits, time_diff, diff_order, peer_cmp,
}

-- The years, days, hours, minutes and seconds that a time is split into are together that time, with
-- years of 365 days, and each but the years is less than one of the next larger unit.
pub time_parts_lem :
    (left : ℕ)
    → let p = time_parts left in
      ((((p.years * 365 + p.days) * 24 + p.hours) * 60 + p.minutes) * 60 + p.seconds ≡ left)
      × (p.days < 365)
      × (p.hours < 24)
      × (p.minutes < 60)
      × (p.seconds < 60)
unfolding time_parts
time_parts_lem left = (omega arith, omega arith, omega arith, omega arith, omega arith)

-- One time is later than another.
abbrev pub IsLater : Timespec64 → Timespec64 → Type 0
IsLater a b = (b.tv_sec < a.tv_sec) ⊎ ((a.tv_sec ≡ b.tv_sec) × (b.tv_nsec < a.tv_nsec))

-- The order of two peers by their times: the one with the later handshake stands before the other.
abbrev pub Orders : Order → Timespec64 → Timespec64 → Type 0
Orders before a b = IsLater a b
Orders after a b = IsLater b a
Orders same a b = (a.tv_sec ≡ b.tv_sec) × (a.tv_nsec ≡ b.tv_nsec)

abbrev pub IsNear : Bool → ℕ → ℕ → Type 0
IsNear wide a b = (a < b + 2 ^ (time_bits wide - 1)) × (b < a + 2 ^ (time_bits wide - 1))

-- One of the times is unset, or the seconds between them fit a `time_t`.
abbrev pub AreComparable : Bool → Timespec64 → Timespec64 → Type 0
AreComparable wide a b = (is_unset a ≡ true) ⊎ ((is_unset b ≡ true) ⊎ IsNear wide a.tv_sec b.tv_sec)

-- What the sign of a stored difference tells of two numbers.
abbrev Tells : Order → ℕ → ℕ → Type 0
Tells before a b = b < a
Tells after a b = a < b
Tells same a b = a ≡ b

diff_order-Tells :
    (wide : Bool) (a b : ℕ) → IsNear wide a b → Tells (diff_order wide (time_diff wide a b)) a b
unfolding diff_order time_diff
diff_order-Tells true a b h = ground (arith, h.0, h.1)
diff_order-Tells false a b h = ground (arith, h.0, h.1)

time_diff-zero : (wide : Bool) (a b : ℕ) → IsNear wide a b → (time_diff wide a b ≡ 0) ↔ (a ≡ b)
unfolding time_diff
time_diff-zero true a b h = (λ e. omega (arith, e, h.0, h.1), λ e. omega (arith, e))
time_diff-zero false a b h = (λ e. omega (arith, e, h.0, h.1), λ e. omega (arith, e))

abbrev pub IsNanos : Timespec64 → Type 0
IsNanos t = t.tv_nsec < 10 ^ 9

nanos-IsNear :
    (wide : Bool) (a b : Timespec64) → IsNanos a → IsNanos b → IsNear wide a.tv_nsec b.tv_nsec
nanos-IsNear true a b h k = (omega (arith, h), omega (arith, k))
nanos-IsNear false a b h k = (omega (arith, h), omega (arith, k))

zero-IsNear : (wide : Bool) (a b : ℕ) → a ≡ 0 → b ≡ 0 → IsNear wide a b
zero-IsNear true a b h k = (omega (arith, h), omega (arith, k))
zero-IsNear false a b h k = (omega (arith, h), omega (arith, k))

Tells-nanos :
    (o : Order) (a b : Timespec64)
    → a.tv_sec ≡ b.tv_sec
    → Tells o a.tv_nsec b.tv_nsec
    → Orders o a b
Tells-nanos before a b e h = inr (e, h)
Tells-nanos after a b e h = inr (sym e, h)
Tells-nanos same a b e h = (e, h)

Tells-seconds :
    (o : Order) (a b : Timespec64)
    → (a.tv_sec ≡ b.tv_sec → ⊥)
    → Tells o a.tv_sec b.tv_sec
    → Orders o a b
Tells-seconds before a b ne h = inl h
Tells-seconds after a b ne h = inl h
Tells-seconds same a b ne h = absurd (ne h)

near-Orders :
    (wide : Bool) (a b : Timespec64)
    → IsNanos a
    → IsNanos b
    → IsNear wide a.tv_sec b.tv_sec
    → let diff = time_diff wide a.tv_sec b.tv_sec in
      Orders (diff_order wide (if diff == 0 then time_diff wide a.tv_nsec b.tv_nsec else diff)) a b
near-Orders wide a b h k near =
    let zero = time_diff-zero wide a.tv_sec b.tv_sec near in
    elim (Bool-cases (time_diff wide a.tv_sec b.tv_sec == 0)) [
      | inl e ↦ rw e (
          Tells-nanos _ a b (zero.0 ((==_iff _ 0).0 e))
            (diff_order-Tells wide a.tv_nsec b.tv_nsec (nanos-IsNear wide a b h k)))
      | inr e ↦ rw e (
          Tells-seconds _ a b (λ s. (let z = (==_iff _ 0).1 (zero.1 s) in cc))
            (diff_order-Tells wide a.tv_sec b.tv_sec near))
    ]

unset-zero : (t : Timespec64) → is_unset t ≡ true → (t.tv_sec ≡ 0) × (t.tv_nsec ≡ 0)
unset-zero t e = ground (arith, e)

unset-IsLater : (a b : Timespec64) → is_unset a ≡ true → is_unset b ≡ false → IsLater b a
unset-IsLater a b e f = ground (arith, e, f)

both-IsNear :
    (wide : Bool) (a b : Timespec64)
    → is_unset a ≡ false
    → is_unset b ≡ false
    → AreComparable wide a b
    → IsNear wide a.tv_sec b.tv_sec
both-IsNear wide a b e f (inl u) = (let clash = sym e ∙ u in cc)
both-IsNear wide a b e f (inr (inl u)) = (let clash = sym f ∙ u in cc)
both-IsNear wide a b e f (inr (inr near)) = near

-- Of two peers whose handshakes have nanoseconds below 10^9, and of which one has had no handshake or
-- the seconds between the handshakes fit a `time_t` of 64 or 32 bits, `peer_cmp` puts the one with the
-- later handshake first, and takes them for the same exactly if both times are; a peer without a
-- handshake comes behind each one that has had one.
pub peer_cmp-Orders :
    (wide : Bool) (p q : WgPeer)
    → IsNanos p.last_handshake_time
    → IsNanos q.last_handshake_time
    → AreComparable wide p.last_handshake_time q.last_handshake_time
    → Orders (peer_cmp wide p q) p.last_handshake_time q.last_handshake_time
unfolding peer_cmp
peer_cmp-Orders wide p q h k near =
    let a = p.last_handshake_time in
    let b = q.last_handshake_time in
    elim (Bool-cases (is_unset a)) [
      | inl e ↦ elim (Bool-cases (is_unset b)) [
        | inl f ↦
            let near' = zero-IsNear wide a.tv_sec b.tv_sec (unset-zero a e).0 (unset-zero b f).0 in
            rw (e, f) (near-Orders wide a b h k near')
        | inr f ↦ rw (e, f) (unset-IsLater a b e f)
      ]
      | inr e ↦ elim (Bool-cases (is_unset b)) [
        | inl f ↦ rw (e, f) (unset-IsLater b a f e)
        | inr f ↦ rw (e, f) (near-Orders wide a b h k (both-IsNear wide a b e f near))
      ]
    ]
