-- ===== src/Highlighter/Classes/Laws.antt =====
-- The keys that the highlighter accepts are those that the tools read.
use special_potato.Prelude.{
  ℕ, zero, suc, ◌+◌, ◌*◌, ◌/◌, ◌%◌, ◌<◌, Bool, true, false, not, ◌&&◌, ◌||◌, [], ◌∷◌, ◌≡◌, ◌↔◌,
  refl, sym, ap, ◌∙◌, arith, Bytes, IsByte, IsBytes, length, get_elem?, some, none, Option, ltb,
  ltb_iff, ◌==◌, ==_iff, if◌then◌else◌,
}
use special_potato.Prelude.Table.{agree_Bool_below}
use special_potato.Encoding.{encode_base64, encode_groups, key_to_base64, key_from_base64}
use special_potato.Encoding.Base64.{
  alphabet, digit_value, alphabet-digit_value, digit_value-alphabet,
}
use special_potato.Encoding.Base64.Groups.{encode_base64-alphabet}
use special_potato.Encoding.Base64.Keys.{KeyGroups}
use special_potato.Encoding.Base64.RoundTrip.{
  four, pad_place, key_groups, groups_key, encode_groups-shape, key_from_base64_iff,
}
use special_potato.Highlighter.Classes.{is_key_char, is_final_char, key_loop, is_pad, is_valid_key}

-- `n` groups of four digits of the code, and three more, the last with two zero bits.
abbrev KeyText : ℕ → Bytes → Type 0
KeyText (suc n) (a ∷ b ∷ c ∷ d ∷ s) =
    (digit_value a < 64)
    × (digit_value b < 64)
    × (digit_value c < 64)
    × (digit_value d < 64)
    × KeyText n s
KeyText zero (a ∷ b ∷ c ∷ d ∷ []) =
    (digit_value a < 64)
    × (digit_value b < 64)
    × (digit_value c < 64)
    × (digit_value c % 4 ≡ 0)
    × (d ≡ b'=')
KeyText _ _ = ⊥

key_char_table : (c : ℕ) → c < 256 → is_key_char c ≡ ltb (digit_value c) 64
unfolding is_key_char digit_value special_potato.Prelude.Table.all_below
key_char_table = agree_Bool_below 256 is_key_char (λ c. ltb (digit_value c) 64) refl

final_char_table :
    (c : ℕ) → c < 256 → is_final_char c ≡ (ltb (digit_value c) 64 && digit_value c % 4 == 0)
unfolding is_final_char digit_value special_potato.Prelude.Table.all_below
final_char_table =
    agree_Bool_below 256 is_final_char (λ c. ltb (digit_value c) 64 && digit_value c % 4 == 0) refl

key_char_iff : (c : ℕ) → c < 256 → (is_key_char c ≡ true) ↔ (digit_value c < 64)
key_char_iff c h = rw (key_char_table c h) (ltb_iff (digit_value c) 64)

final_char_iff :
    (c : ℕ) → c < 256 → (is_final_char c ≡ true) ↔ ((digit_value c < 64) × (digit_value c % 4 ≡ 0))
final_char_iff c h = rw (final_char_table c h) (ground arith)

-- The places in front of the last character but one.
abbrev front : ℕ → ℕ
front zero = 2
front (suc n) = suc (suc (suc (suc (front n))))

loop-KeyText :
    (n : ℕ) (s : Bytes)
    → length s ≡ four n
    → get_elem? s (pad_place n) ≡ some b'='
    → IsBytes s
    → key_loop (front n) s ≡ true
    → KeyText n s
unfolding key_loop
loop-KeyText (suc n) (a ∷ b ∷ c ∷ d ∷ s) len pad h e = (
  (key_char_iff a h.0).0 (ground (arith, e)),
  (key_char_iff b h.1.0).0 (ground (arith, e)),
  (key_char_iff c h.1.1.0).0 (ground (arith, e)),
  (key_char_iff d h.1.1.1.0).0 (ground (arith, e)),
  loop-KeyText n s (omega (arith, len)) pad h.1.1.1.1 (ground (arith, e)),
)
loop-KeyText zero (a ∷ b ∷ c ∷ d ∷ []) len pad h e =
    let final = (final_char_iff c h.1.1.0).0 (ground (arith, e)) in
    (
      (key_char_iff a h.0).0 (ground (arith, e)),
      (key_char_iff b h.1.0).0 (ground (arith, e)),
      final.0,
      final.1,
      cc,
    )
loop-KeyText _ _ len pad h e = absurd (omega arith)

KeyText-loop : (n : ℕ) (s : Bytes) → IsBytes s → KeyText n s → key_loop (front n) s ≡ true
unfolding key_loop
KeyText-loop (suc n) (a ∷ b ∷ c ∷ d ∷ s) h t =
    rw
      (
        (key_char_iff a h.0).1 t.0,
        (key_char_iff b h.1.0).1 t.1,
        (key_char_iff c h.1.1.0).1 t.2,
        (key_char_iff d h.1.1.1.0).1 t.3,
      )
      (KeyText-loop n s h.1.1.1.1 t.4)
KeyText-loop zero (a ∷ b ∷ c ∷ d ∷ []) h t = rw (
  (key_char_iff a h.0).1 t.0,
  (key_char_iff b h.1.0).1 t.1,
  (final_char_iff c h.1.1.0).1 (t.2, t.3),
)
KeyText-loop _ _ h t = elim t [ ]

digit_back : (c : ℕ) → digit_value c < 64 → (n : ℕ) → n ≡ digit_value c → alphabet n ≡ c
digit_back c h n e = ap alphabet e ∙ alphabet-digit_value c h

-- Four digits of the code are the text of three bytes.
four_chars :
    (a b c d : ℕ)
    → digit_value a < 64
    → digit_value b < 64
    → digit_value c < 64
    → digit_value d < 64
    → let x = digit_value a * 4 + digit_value b / 16 in
      let y = digit_value b % 16 * 16 + digit_value c / 4 in
      let z = digit_value c % 4 * 64 + digit_value d in
      IsByte x × IsByte y × IsByte z × (encode_base64 x y z ≡ a ∷ b ∷ c ∷ d ∷ [])
four_chars a b c d p q r s =
    let x = digit_value a * 4 + digit_value b / 16 in
    let y = digit_value b % 16 * 16 + digit_value c / 4 in
    let z = digit_value c % 4 * 64 + digit_value d in
    let px : IsByte x = omega arith in
    let py : IsByte y = omega arith in
    let pz : IsByte z = omega arith in
    (
      px,
      py,
      pz,
      encode_base64-alphabet x y z px py pz
          ∙ cc (
            digit_back a p (x / 4) (omega arith),
            digit_back b q (x % 4 * 16 + y / 16) (omega arith),
            digit_back c r (y % 16 * 4 + z / 64) (omega arith),
            digit_back d s (z % 64) (omega arith),
          ),
    )

KeyText-key :
    (n : ℕ) (s : Bytes) → KeyText n s → (key : Bytes) × KeyGroups n key × (encode_groups n key ≡ s)
unfolding encode_groups
KeyText-key (suc n) (a ∷ b ∷ c ∷ d ∷ s) t =
    let group = four_chars a b c d t.0 t.1 t.2 t.3 in
    let (key, groups, same) = KeyText-key n s t.4 in
    (_ ∷ _ ∷ _ ∷ key, (group.0, group.1, group.2, groups), rw group.3 (rw same))
KeyText-key zero (a ∷ b ∷ c ∷ d ∷ []) t =
    let x = digit_value a * 4 + digit_value b / 16 in
    let y = digit_value b % 16 * 16 + digit_value c / 4 in
    let group = four_chars a b c b'A' t.0 t.1 t.2 (unfold digit_value in omega arith) in
    let empty : digit_value c % 4 * 64 + digit_value b'A' ≡ 0 =
      unfold digit_value in omega (arith, t.3) in
    let chars : encode_base64 x y 0 ≡ a ∷ b ∷ c ∷ b'A' ∷ [] = rw empty at group.3 in
    (x ∷ y ∷ [], (group.0, group.1), rw (chars, t.4))
KeyText-key _ _ t = elim t [ ]

digit_alphabet : (n : ℕ) → n < 64 → digit_value (alphabet n) < 64
digit_alphabet n h = rw (digit_value-alphabet n h) h

encode_groups-KeyText : (n : ℕ) (key : Bytes) → KeyGroups n key → KeyText n (encode_groups n key)
unfolding encode_groups
encode_groups-KeyText (suc n) (a ∷ b ∷ c ∷ key) h = rw (encode_base64-alphabet a b c h.0 h.1 h.2) (
  digit_alphabet (a / 4) (omega arith),
  digit_alphabet (a % 4 * 16 + b / 16) (omega arith),
  digit_alphabet (b % 16 * 4 + c / 64) (omega arith),
  digit_alphabet (c % 64) (omega arith),
  encode_groups-KeyText n key h.3,
)
encode_groups-KeyText zero (a ∷ b ∷ []) h =
    rw (encode_base64-alphabet a b 0 h.0 h.1 (omega arith)) (
      digit_alphabet (a / 4) (omega arith),
      digit_alphabet (a % 4 * 16 + b / 16) (omega arith),
      digit_alphabet (b % 16 * 4 + 0 / 64) (omega arith),
      rw (digit_value-alphabet (b % 16 * 4 + 0 / 64) (omega arith)) (omega arith),
      refl,
    )
encode_groups-KeyText _ _ h = elim h [ ]

is_pad-some : (o : Option ℕ) → is_pad o ≡ true → o ≡ some b'='
is_pad-some none e = cc
is_pad-some (some c) e = ap some ((==_iff c b'=').0 e)

-- A span is marked as a key exactly when `key_from_base64` reads it: both check the length, the
-- alphabet, the padding and the two spare bits, the one by tables, the other by arithmetic.
pub is_valid_key_iff :
    (signed : Bool) (old s : Bytes)
    → IsBytes s
    → (is_valid_key s ≡ true) ↔ ((key : Bytes) × (key_from_base64 signed old s ≡ (true, key)))
unfolding is_valid_key
is_valid_key_iff signed old s h = (
  λ e.
      let len : length s ≡ 44 = ground (arith, e) in
      let pad = is_pad-some (get_elem? s 43) (ground (arith, e)) in
      let text = loop-KeyText 10 s len pad h (ground (arith, e)) in
      let (key, groups, same) = KeyText-key 10 s text in
      (
        key,
        (key_from_base64_iff signed old s key h).1
            (groups_key 10 key groups, unfold key_to_base64 in sym same),
      ),
  λ p.
      let (key, read) = p in
      let good = (key_from_base64_iff signed old s key h).0 read in
      let groups = key_groups 10 key good.0.0 good.0.1 in
      let shape = encode_groups-shape 10 key groups in
      let same : s ≡ encode_groups 10 key = unfold key_to_base64 in good.1 in
      let text : KeyText 10 s = rw same (encode_groups-KeyText 10 key groups) in
      let len : length s ≡ 44 = rw same shape.0 in
      let pad : get_elem? s 43 ≡ some b'=' = rw same shape.1 in
      let loop = KeyText-loop 10 s h text in rw (len, pad) loop,
)
