-- ===== src/Ipc/Names.antt =====
-- What a list of names holds.
use special_potato.Prelude.{
  ℕ, zero, suc, ◌+◌, ◌-◌, ◌≤◌, ◌<◌, ◌≡◌, ◌≢◌, refl, sym, ap, ◌∙◌, false, List, [], ◌∷◌, ◌++◌, Bytes,
  leb, ◌==◌, if◌then◌else◌, length, length-append, All, arith, ◌⊎◌, inl, inr, Bool-cases,
}
use mathlib.Core.List.{append_assoc, append-nil}
use special_potato.Outcome.{ok}
use special_potato.Ipc.{StringList, copy_at, new_cap, grow, string_list_add, add_all}

-- A name that is not empty and has no zero byte.
abbrev pub IsName : Bytes → Type 0
IsName s = (0 < length s) × All (λ c. c ≢ 0) s

-- The names, each with its terminator.
abbrev pub terminated : List Bytes → Bytes
terminated [] = []
terminated (name ∷ names) = name ++ (0 ∷ terminated names)

copy_at-start : (s b c : Bytes) → length b ≡ length s → copy_at zero s (b ++ c) ≡ ok (s ++ c)
unfolding copy_at
copy_at-start [] [] c e = refl
copy_at-start [] (x ∷ b) c e = absurd (omega (arith, e))
copy_at-start (x ∷ s) [] c e = absurd (omega (arith, e))
copy_at-start (x ∷ s) (y ∷ b) c e = rw (copy_at-start s b c (omega (arith, e))) refl

copy_at-middle :
    (a s b c : Bytes)
    → length b ≡ length s
    → copy_at (length a) s (a ++ (b ++ c)) ≡ ok (a ++ (s ++ c))
unfolding copy_at
copy_at-middle [] s b c e = copy_at-start s b c e
copy_at-middle (x ∷ a) s b c e = rw (copy_at-middle a s b c e) refl

-- A memory of more than n bytes: n bytes, one, and the others.
cut_at :
    (n : ℕ) (s : Bytes)
    → n < length s
    → (b : Bytes) × ((x : ℕ) × ((c : Bytes) × ((s ≡ b ++ (x ∷ c)) × (length b ≡ n))))
cut_at n [] h = absurd (omega (arith, h))
cut_at zero (x ∷ s) h = ([], (x, (s, (refl, refl))))
cut_at (suc n) (y ∷ s) h =
    let (b, (x, (c, (same, len)))) = cut_at n s (omega (arith, h)) in
    (y ∷ b, (x, (c, (ap (λ (t : Bytes). y ∷ t) same, omega (arith, len)))))

-- The list holds these names: they stand in front, and behind them a zero byte if there is one.
pub record Holds (names : List Bytes) (list : StringList) : Type 0 where
  pub len : list.len ≡ length (terminated names)
  pub cap : list.cap ≡ length list.buffer
  pub rest : Bytes
  pub buffer : list.buffer ≡ terminated names ++ rest
  pub end : ((names ≡ []) × (rest ≡ [])) ⊎ ((junk : Bytes) × (rest ≡ 0 ∷ junk))

terminated-append :
    (names : List Bytes) (name : Bytes)
    → terminated (names ++ name ∷ []) ≡ terminated names ++ (name ++ 0 ∷ [])
terminated-append [] name = refl
terminated-append (first ∷ names) name =
    ap (λ (s : Bytes). first ++ (0 ∷ s)) (terminated-append names name)
    ∙ sym (append_assoc first (0 ∷ terminated names) (name ++ 0 ∷ []))

-- The names stand in front, and more than n bytes are behind them.
abbrev HasRoom : List Bytes → ℕ → StringList → Type 0
HasRoom names n list =
    (list.len ≡ length (terminated names))
    × ((list.cap ≡ length list.buffer)
        × ((rest : Bytes) × ((list.buffer ≡ terminated names ++ rest) × (n < length rest))))

module _ (fresh : ℕ → Bytes) (sized : (n : ℕ) → length (fresh n) ≡ n) where
  new_cap-le :
      (list : StringList) (n : ℕ)
      → (list.len + n + 1 ≤ new_cap fresh list n) × (list.cap ≤ new_cap fresh list n)
  new_cap-le list n = (ground arith, ground arith)

  grow-HasRoom :
      (names : List Bytes) (list : StringList) (n : ℕ)
      → Holds names list
      → HasRoom names n (grow fresh list n)
  grow-HasRoom names list n h =
      let more = fresh (new_cap fresh list n - list.cap) in
      let (above, grown) = new_cap-le list n in
      let all = length-append list.buffer more in
      let size = sized (new_cap fresh list n - list.cap) in
      let parts = ap length h.buffer in
      let part = length-append (terminated names) h.rest in
      (
        h.len,
        (
          omega (arith, all, size, grown, h.cap),
          (
            h.rest ++ more,
            (
              ap (λ (s : Bytes). s ++ more) h.buffer ∙ append_assoc (terminated names) h.rest more,
              omega
                  (arith, length-append h.rest more, size, above, grown, h.cap, h.len, parts, part),
            ),
          ),
        ),
      )

  room-HasRoom :
      (names : List Bytes) (list : StringList) (n : ℕ)
      → Holds names list
      → HasRoom names n (if leb (list.cap - list.len) n then grow fresh list n else list)
  room-HasRoom names list n h = elim (Bool-cases (leb (list.cap - list.len) n)) [
    | inl e ↦ rw e (grow-HasRoom names list n h)
    | inr e ↦
        let parts = ap length h.buffer in
        let part = length-append (terminated names) h.rest in
        let above : n < list.cap - list.len = ground (arith, e) in
        rw e (h.len, (h.cap, (h.rest, (h.buffer, omega (arith, parts, part, above, h.cap, h.len)))))
  ]

  -- The two copies of `string_list_add`.
  copies-Holds :
      (names : List Bytes) (list : StringList) (name : Bytes)
      → HasRoom names (length name + 1) list
      → (memory : Bytes) × ((memory' : Bytes) × ((copy_at list.len (name ++ 0 ∷ []) list.buffer
              ≡ ok memory)
            × ((copy_at (list.len + (length name + 1)) (0 ∷ []) memory ≡ ok memory')
                × Holds (names ++ name ∷ []) (record {
                  buffer = memory';
                  len = list.len + (length name + 1);
                  cap = list.cap;
                }))))
  copies-Holds names list name (len, (cap, (rest, (same, more)))) =
      let str = name ++ 0 ∷ [] in
      let size = length-append name (0 ∷ []) in
      let (b, (x, (c, (cut, long)))) = cut_at (length name + 1) rest more in
      let whole = same ∙ ap (λ (s : Bytes). terminated names ++ s) cut in
      let first = copy_at-middle (terminated names) str b (x ∷ c) (omega (arith, long, size)) in
      let second = copy_at-middle (terminated names ++ str) (0 ∷ []) (x ∷ []) c refl in
      let place = length-append (terminated names) str in
      let there : list.len + (length name + 1) ≡ length (terminated names ++ str) =
        omega (arith, len, place, size) in
      let here = ap length (terminated-append names name) in
      let before = length-append (terminated names) (b ++ (x ∷ c)) in
      (
        terminated names ++ (str ++ (x ∷ c)),
        (
          (terminated names ++ str) ++ (0 ∷ c),
          (
            rw (len, whole) first,
            (
              rw (there, sym (append_assoc (terminated names) str (x ∷ c))) second,
              record {
                len = omega (arith, there, here);
                cap = omega (
                  arith,
                  cap,
                  ap length whole,
                  before,
                  length-append b (x ∷ c),
                  length-append (terminated names ++ str) (0 ∷ c),
                  place,
                  size,
                  long,
                );
                rest = 0 ∷ c;
                buffer = ap (λ (s : Bytes). s ++ (0 ∷ c)) (sym (terminated-append names name));
                end = inr (c, refl);
              },
            ),
          ),
        ),
      )

  string_list_add-Holds :
      (names : List Bytes) (list : StringList) (name : Bytes)
      → Holds names list
      → IsName name
      → (list' : StringList) × ((string_list_add fresh list name ≡ ok list')
          × Holds (names ++ name ∷ []) list')
  unfolding string_list_add
  string_list_add-Holds names list name h good =
      let n = length name + 1 in
      let room = if leb (list.cap - list.len) n then grow fresh list n else list in
      let (memory, (memory', (first, (second, held)))) =
        copies-Holds names room name (room-HasRoom names list n h) in
      let test : (n == 1) ≡ false = ground (arith, good.0) in
      (_, (rw (test, first, second) refl, held))

  pub add_all-Holds :
      (names more : List Bytes) (list : StringList)
      → Holds names list
      → All IsName more
      → (list' : StringList) × ((add_all fresh more list ≡ ok list') × Holds (names ++ more) list')
  unfolding add_all
  add_all-Holds names [] list h good = (list, (refl, rw (append-nil names) h))
  add_all-Holds names (name ∷ more) list h good =
      let (list1, (added, held)) = string_list_add-Holds names list name h good.0 in
      let (list2, (rest, held')) = add_all-Holds (names ++ name ∷ []) more list1 held good.1 in
      (list2, (rw added rest, rw (sym (append_assoc names (name ∷ []) more)) held'))
