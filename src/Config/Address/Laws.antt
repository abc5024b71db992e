-- ===== src/Config/Address/Laws.antt =====
-- Endpoints: the split of the text, and the retries of name resolution.
use special_potato.Prelude.{
  ℕ, zero, suc, ◌+◌, ◌≤◌, ◌<◌, Bool, true, false, ◌&&◌, [], ◌∷◌, ◌++◌, ◌≡◌, ◌≢◌, refl, sym, ap, ◌⊎◌,
  inl, inr, Bytes, arith, Bool-cases, ◌==◌, All, length, none, some,
}
use native.Mathlib.Nat.{add-zero, zero-add}
use special_potato.Libc.{split_first, split_last}
use special_potato.Outcome.{
  Outcome, ok, error, System, Addrinfo, Lookup, resolved, gai_error, GaiError,
}
use special_potato.Config.Address.{
  is_permanent, finite, next_timeout, Waited, split_endpoint, resolve, resolve_with, first_timeout,
}

abbrev pub Lacks : ℕ → Bytes → Type 0
Lacks c = All (λ d. d ≢ c)

pub split_first-append :
    (c : ℕ) (a b : Bytes) → Lacks c a → split_first c (a ++ (c ∷ b)) ≡ some (a, b)
unfolding split_first
split_first-append c [] b h = ground arith
split_first-append c (d ∷ a) b h = ground (arith, split_first-append c a b h.1)

pub split_first-none : (c : ℕ) (a : Bytes) → Lacks c a → split_first c a ≡ none
unfolding split_first
split_first-none c [] h = refl
split_first-none c (d ∷ a) h = ground (arith, split_first-none c a h.1)

split_last-none : (c : ℕ) (a : Bytes) → Lacks c a → split_last c a ≡ none
unfolding split_last
split_last-none c [] h = refl
split_last-none c (d ∷ a) h = rw (split_last-none c a h.1) (ground arith)

pub split_last-append :
    (c : ℕ) (a b : Bytes) → Lacks c b → split_last c (a ++ (c ∷ b)) ≡ some (a, b)
unfolding split_last
split_last-append c [] b h = rw (split_last-none c b h) (ground arith)
split_last-append c (d ∷ a) b h = rw (split_last-append c a b h)

-- How `show` and `showconf` write an endpoint: the host in brackets, or bare.
abbrev pub written_endpoint : Bool → Bytes → Bytes → Bytes
written_endpoint true host service = b'[' ∷ (host ++ (b']' ∷ b':' ∷ service))
written_endpoint false host service = host ++ (b':' ∷ service)

abbrev StartsBare : Bytes → Type 0
StartsBare [] = Unit
StartsBare (c ∷ s) = c ≢ b'['

-- An endpoint is split into the host and the service that it was written from, with brackets round
-- the host or without: the service is not empty and has no colon, and the host has no closing
-- bracket and does not begin with an opening one.
pub split_endpoint-written :
    (brackets : Bool) (host service : Bytes)
    → service ≢ []
    → Lacks b':' service
    → Lacks b']' host
    → StartsBare host
    → split_endpoint (written_endpoint brackets host service) ≡ some (host, service)
unfolding split_endpoint
split_endpoint-written true host [] ne p h b = absurd (ne refl)
split_endpoint-written true host (c ∷ service) ne p h b =
    rw (split_first-append b']' host (b':' ∷ c ∷ service) h)
split_endpoint-written false host [] ne p h b = absurd (ne refl)
split_endpoint-written false [] (c ∷ service) ne p h b =
    rw (split_last-append b':' [] (c ∷ service) p)
split_endpoint-written false (d ∷ host) (c ∷ service) ne p h b =
    rw (split_last-append b':' (d ∷ host) (c ∷ service) p) (ground arith)

abbrev Transient : Lookup → Type 0
Transient (resolved a) = ⊥
Transient (gai_error e) = is_permanent e ≡ false

-- What an attempt that ends the loop makes of it.
abbrev Settles : Lookup → Outcome Addrinfo → Type 0
Settles (resolved a) r = r ≡ ok a
Settles (gai_error e) r = (is_permanent e ≡ true) × (r ≡ error)

abbrev pub Between : ℕ → Type 0
Between t = (1000000 ≤ t) × (t ≤ 20000000)

next_timeout-Between : (t : ℕ) → Between t → Between (next_timeout t)
unfolding next_timeout
next_timeout-Between t h = ground arith

-- How a bounded wait ends: after `count` pauses of one to twenty seconds, each behind a transient
-- failure, an attempt settles it, or the last one allowed fails transiently too.
pub record Ended (look : ℕ → Lookup) (n : ℕ) (w : Waited) : Type 0 where
  pub count : ℕ
  pub in_bound : count ≤ n
  pub before : (j : ℕ) → j < count → Transient (look j)
  pub pauses_made : length w.pauses ≡ count
  pub pauses_within : All Between w.pauses
  pub decides :
      Settles (look count) w.address ⊎ ((count ≡ n) × Transient (look count) × (w.address ≡ error))

shift_index : (i j : ℕ) → i + suc j ≡ i + 1 + j
shift_index i j = omega arith

module _ (sys : System) (host service : Bytes) where
  abbrev attempt : ℕ → Lookup
  attempt i = sys.getaddrinfo i (some host) service

  -- One attempt, and what it makes of the rounds that are left.
  data Round (bounded : Bool) (rounds i timeout : ℕ) (w : Waited) : Type 0 where
    found :
        (a : Addrinfo)
        → attempt i ≡ resolved a
        → w ≡ record { address = ok a; pauses = [] }
        → Round bounded rounds i timeout w
    refused :
        (e : GaiError)
        → attempt i ≡ gai_error e
        → is_permanent e ≡ true
        → w ≡ record { address = error; pauses = [] }
        → Round bounded rounds i timeout w
    exhausted :
        (e : GaiError)
        → attempt i ≡ gai_error e
        → is_permanent e ≡ false
        → bounded ≡ true
        → rounds ≡ 0
        → w ≡ record { address = error; pauses = [] }
        → Round bounded rounds i timeout w
    again :
        (e : GaiError)
        → attempt i ≡ gai_error e
        → is_permanent e ≡ false
        → (bounded && rounds == 0) ≡ false
        → (let rest = resolve sys bounded host service rounds (i + 1) (next_timeout timeout) in
            w ≡ record { address = rest.address; pauses = timeout ∷ rest.pauses })
        → Round bounded rounds i timeout w

  Round-of :
      (bounded : Bool) (rounds i timeout : ℕ) (l : Lookup)
      → attempt i ≡ l
      → Round bounded rounds i timeout (resolve sys bounded host service (suc rounds) i timeout)
  unfolding resolve
  Round-of bounded rounds i timeout (resolved a) e = found a e (rw (e, resolve))
  Round-of bounded rounds i timeout (gai_error g) e = elim (Bool-cases (is_permanent g)) [
    | inl p ↦ refused g e p (rw (e, resolve) (rw p))
    | inr t ↦ elim (Bool-cases (bounded && rounds == 0)) [
      | inl stop ↦ exhausted g e t (ground arith) (ground arith) (rw (e, resolve) (rw (t, stop)))
      | inr more ↦ again g e t more (rw (e, resolve) (rw (t, more)))
    ]
  ]

  Ended-at_once :
      (n : ℕ) (w : Waited) (i : ℕ)
      → w.pauses ≡ []
      → Settles (attempt i) w.address ⊎ ((0 ≡ n) × Transient (attempt i) × (w.address ≡ error))
      → Ended (λ j. attempt (i + j)) n w
  Ended-at_once n w i p d = record {
    count = 0;
    in_bound = omega arith;
    before = λ j h. elim h [ ];
    pauses_made = rw p;
    pauses_within = rw p tt;
    decides = rw add-zero d;
  }

  -- One more transient failure and its pause in front.
  Ended-later :
      (n i timeout : ℕ) (w rest : Waited)
      → Between timeout
      → Transient (attempt i)
      → w ≡ record { address = rest.address; pauses = timeout ∷ rest.pauses }
      → Ended (λ j. attempt (i + 1 + j)) n rest
      → Ended (λ j. attempt (i + j)) (suc n) w
  Ended-later n i timeout w rest b t e d = record {
    count = suc d.count;
    in_bound = omega (arith, d.in_bound);
    before = shifted;
    pauses_made = rw e (ap suc d.pauses_made);
    pauses_within = rw e (b, d.pauses_within);
    decides =
        rw (shift_index i d.count)
          (rw e (elim d.decides [ inl s ↦ inl s | inr (q, t', r) ↦ inr (ap suc q, t', r) ]));
  }
    where
      shifted : (j : ℕ) → j < suc d.count → Transient (attempt (i + j))
      shifted zero h = rw add-zero t
      shifted (suc j) h = rw (shift_index i j) (d.before j (omega arith))

  -- The rounds in which the loop stops.
  Ended-Round :
      (n i timeout : ℕ) (w : Waited)
      → Round true n i timeout w
      → (Transient (attempt i)
          → (true && n == 0) ≡ false
          → Ended
              (λ j. attempt (i + j))
              n
              (record {
                address = (resolve sys true host service n (i + 1) (next_timeout timeout)).address;
                pauses =
                    timeout
                    ∷ (resolve sys true host service n (i + 1) (next_timeout timeout)).pauses;
              }))
      → Ended (λ j. attempt (i + j)) n w
  Ended-Round n i timeout w (found a l e) later = Ended-at_once n w i (rw e) (inl (rw (l, e) refl))
  Ended-Round n i timeout w (refused g l p e) later =
      Ended-at_once n w i (rw e) (inl (rw (l, e) (p, refl)))
  Ended-Round n i timeout w (exhausted g l t b z e) later =
      Ended-at_once n w i (rw e) (inr (sym z, (rw l t), rw e))
  Ended-Round n i timeout w (again g l t more e) later = rw e (later (rw l t) more)

  resolve-Ended :
      (n i timeout : ℕ)
      → Between timeout
      → Ended (λ j. attempt (i + j)) n (resolve sys true host service (suc n) i timeout)
  resolve-Ended zero i timeout b =
      Ended-Round zero i timeout _ (Round-of true zero i timeout (attempt i) refl) (λ t more. cc)
  resolve-Ended (suc n) i timeout b =
      let rest = resolve sys true host service (suc n) (i + 1) (next_timeout timeout) in
      Ended-Round (suc n) i timeout _ (Round-of true (suc n) i timeout (attempt i) refl) (λ t more.
        Ended-later n i timeout _ rest b t refl
          (resolve-Ended n (i + 1) (next_timeout timeout) (next_timeout-Between timeout b)))

  -- With a bound of n retries the wait for a name always ends, within n pauses of one to twenty
  -- seconds each: the failures before are all transient, and either the next attempt settles it, by an
  -- address or a permanent failure, or n retries were made and the result is a failure.
  pub resolve_with-Ended : (n : ℕ) → Ended attempt n (resolve_with sys (finite n) host service)
  unfolding resolve_with
  resolve_with-Ended n = simp zero-add at (resolve-Ended n 0 first_timeout (omega arith))
