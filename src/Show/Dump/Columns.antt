-- ===== src/Show/Dump/Columns.antt =====
-- The lines and columns of the dump, as a script that splits it sees them.
use special_potato.Prelude.{
  ℕ, ◌==◌, false, List, [], ◌∷◌, ◌++◌, Bytes, ◌≡◌, ◌≢◌, refl, sym, ap, ◌∙◌, All, arith, ==_iff,
}
use special_potato.Libc.{split_on}

-- A text of one column: no tab and no line feed.
abbrev pub IsPlain : Bytes → Type 0
IsPlain s = All (λ c. (c ≢ b'\t') × (c ≢ b'\n')) s

abbrev pub Without : ℕ → Bytes → Type 0
Without k s = All (λ c. c ≢ k) s

split_on-first : (k : ℕ) (a s : Bytes) → Without k a → split_on k (a ++ (k ∷ s)) ≡ a ∷ split_on k s
unfolding split_on
split_on-first k [] s h = rw ((==_iff k k).1 refl) refl
split_on-first k (c ∷ a) s h =
    let test : (c == k) ≡ false = ground (arith, h.0) in rw (test, split_on-first k a s h.1) refl

split_on-last : (k : ℕ) (a : Bytes) → Without k a → split_on k a ≡ a ∷ []
unfolding split_on
split_on-last k [] h = refl
split_on-last k (c ∷ a) h =
    let test : (c == k) ≡ false = ground (arith, h.0) in rw (test, split_on-last k a h.1) refl

-- Columns with tabs between them.
abbrev pub join : Bytes → List Bytes → Bytes
join c [] = c
join c (d ∷ ds) = c ++ (b'\t' ∷ join d ds)

tabless : (s : Bytes) → IsPlain s → Without b'\t' s
tabless [] h = tt
tabless (c ∷ s) h = (h.0.0, tabless s h.1)

feedless : (s : Bytes) → IsPlain s → Without b'\n' s
feedless [] h = tt
feedless (c ∷ s) h = (h.0.1, feedless s h.1)

split_on-join :
    (c : Bytes) (ds : List Bytes) → IsPlain c → All IsPlain ds → split_on b'\t' (join c ds) ≡ c ∷ ds
split_on-join c [] h hs = split_on-last b'\t' c (tabless c h)
split_on-join c (d ∷ ds) h hs =
    split_on-first b'\t' c (join d ds) (tabless c h)
    ∙ ap (λ x. c ∷ x) (split_on-join d ds hs.0 hs.1)

-- A line of the dump in front of the others.
abbrev pub row : Bytes → List Bytes → Bytes → Bytes
row c [] rest = c ++ (b'\n' ∷ rest)
row c (d ∷ ds) rest = c ++ (b'\t' ∷ row d ds rest)

append_assoc : (a b c : Bytes) → (a ++ b) ++ c ≡ a ++ (b ++ c)
append_assoc [] b c = refl
append_assoc (x ∷ a) b c = ap (λ y. x ∷ y) (append_assoc a b c)

row-append : (c : Bytes) (ds : List Bytes) (rest : Bytes) → row c ds [] ++ rest ≡ row c ds rest
row-append c [] rest = append_assoc c (b'\n' ∷ []) rest
row-append c (d ∷ ds) rest =
    append_assoc c (b'\t' ∷ row d ds []) rest
    ∙ ap (λ (x : Bytes). c ++ (b'\t' ∷ x)) (row-append d ds rest)

row-join :
    (c : Bytes) (ds : List Bytes) (rest : Bytes) → row c ds rest ≡ join c ds ++ (b'\n' ∷ rest)
row-join c [] rest = refl
row-join c (d ∷ ds) rest =
    ap (λ (x : Bytes). c ++ (b'\t' ∷ x)) (row-join d ds rest)
    ∙ sym (append_assoc c (b'\t' ∷ join d ds) (b'\n' ∷ rest))

Without-append : (k : ℕ) (a b : Bytes) → Without k a → Without k b → Without k (a ++ b)
Without-append k [] b ha hb = hb
Without-append k (c ∷ a) b ha hb = (ha.0, Without-append k a b ha.1 hb)

join-Without :
    (c : Bytes) (ds : List Bytes) → IsPlain c → All IsPlain ds → Without b'\n' (join c ds)
join-Without c [] h hs = feedless c h
join-Without c (d ∷ ds) h hs =
    Without-append b'\n' c (b'\t' ∷ join d ds) (feedless c h) (λ e. cc, join-Without d ds hs.0 hs.1)

-- The columns of each line of a text.
abbrev columns_of : List Bytes → List (List Bytes)
columns_of [] = []
columns_of (line ∷ lines) = split_on b'\t' line ∷ columns_of lines

abbrev pub cells : Bytes → List (List Bytes)
cells text = columns_of (split_on b'\n' text)

pub cells-row :
    (c : Bytes) (ds : List Bytes) (rest : Bytes)
    → IsPlain c
    → All IsPlain ds
    → cells (row c ds [] ++ rest) ≡ (c ∷ ds) ∷ cells rest
cells-row c ds rest h hs =
    ap cells (row-append c ds rest ∙ row-join c ds rest)
    ∙ ap columns_of (split_on-first b'\n' (join c ds) rest (join-Without c ds h hs))
    ∙ ap (λ x. x ∷ cells rest) (split_on-join c ds h hs)
