-- ===== src/Show.antt =====
-- show.c: the order of peers and the texts that `show` makes of times.
pub mod Laws
pub mod Dump
pub mod Ugly
use special_potato.Prelude.{
  ℕ, ◌+◌, ◌-◌, ◌*◌, ◌/◌, ◌%◌, Bool, true, false, not, ◌&&◌, ◌||◌, List, [], ◌∷◌, ◌++◌, Bytes, codes,
  ltb, leb, ◌^◌, ◌==◌, if◌then◌else◌,
}
use special_potato.Libc.Printf.{print_u}
use special_potato.Config.Number.{is_empty}
use special_potato.Containers.{WgPeer, Timespec64, WgDevice}

-- The sign of what a comparison returns.
pub data Order : Type 0 where
  before same after : Order

abbrev pub is_unset : Timespec64 → Bool
is_unset t = t.tv_sec == 0 && t.tv_nsec == 0

-- The bits of a `time_t`, which are 64 on the wide platforms and 32 on the others.
abbrev pub time_bits : Bool → ℕ
time_bits wide = if wide then 64 else 32

-- The difference of two numbers as it is stored in a `time_t`, in two's complement.
unfoldable pub time_diff : Bool → ℕ → ℕ → ℕ
time_diff wide a b =
    let modulus = 2 ^ time_bits wide in (a % modulus + (modulus - b % modulus)) % modulus

-- `diff < 0`, `diff > 0` and neither.
unfoldable pub diff_order : Bool → ℕ → Order
diff_order wide diff =
    if leb (2 ^ (time_bits wide - 1)) diff then after else if diff == 0 then same else before

unfoldable pub peer_cmp : Bool → WgPeer → WgPeer → Order
peer_cmp wide p q =
    let a = p.last_handshake_time in
    let b = q.last_handshake_time in
    let diff = time_diff wide a.tv_sec b.tv_sec in
    if is_unset a && not (is_unset b)
    then after
    else if is_unset b && not (is_unset a)
    then before
    else diff_order wide (if diff == 0 then time_diff wide a.tv_nsec b.tv_nsec else diff)

pub record TimeParts : Type 0 where
  pub years : ℕ
  pub days : ℕ
  pub hours : ℕ
  pub minutes : ℕ
  pub seconds : ℕ

-- The divisions of `pretty_time`, each behind the remainder of the one before.
unfoldable pub time_parts : ℕ → TimeParts
time_parts left =
    let left1 = left % (365 * 24 * 60 * 60) in
    let left2 = left1 % (24 * 60 * 60) in
    let left3 = left2 % (60 * 60) in
    record {
      years = left / (365 * 24 * 60 * 60);
      days = left1 / (24 * 60 * 60);
      hours = left2 / (60 * 60);
      minutes = left3 / 60;
      seconds = left3 % 60;
    }

-- `TERMINAL_FG_CYAN` and `TERMINAL_RESET`.
abbrev cyan : Bytes
cyan = 0x1b ∷ codes "[36m"

abbrev reset : Bytes
reset = 0x1b ∷ codes "[0m"

-- One more number with its unit, if it is not zero, behind a comma if it is not the first.
abbrev add_part : Bytes → ℕ → Bytes → Bytes
add_part text n unit =
    if n == 0
    then text
    else text
      ++ (if is_empty text then [] else codes ", ")
      ++ print_u n
      ++ codes " "
      ++ cyan
      ++ unit
      ++ (if n == 1 then [] else codes "s")
      ++ reset

unfoldable pub pretty_time : ℕ → Bytes
pretty_time left =
    let p = time_parts left in
    add_part
      (add_part
        (add_part (add_part (add_part [] p.years (codes "year")) p.days (codes "day")) p.hours
          (codes "hour"))
        p.minutes (codes "minute"))
      p.seconds (codes "second")

-- `ago`, at the time `now`.
unfoldable pub ago : ℕ → Timespec64 → Bytes
ago now t =
    if now == t.tv_sec
    then codes "Now"
    else if ltb now t.tv_sec
    then codes "("
      ++ (0x1b ∷ codes "[31m")
      ++ codes "System clock wound backward; connection problems may ensue."
      ++ reset
      ++ codes ")"
    else pretty_time (now - t.tv_sec) ++ codes " ago"

-- For an interval that is not zero, as it is called; for zero the buffer would keep its old text.
unfoldable pub every : ℕ → Bytes
every seconds = codes "every " ++ pretty_time seconds
