-- ===== src/Outcome.antt =====
-- How a call of the tools ends, and the parts of the C library and the system that they call.
use special_potato.Prelude.{
  ℕ, Bool, true, false, if◌then◌else◌, List, Bytes, Option, none, some, ◌⊎◌, inl, inr, ◌≡◌, ◌≢◌,
  refl,
}
use special_potato.Containers.{Family, Sockaddr}

-- `ok` is a normal return, `error` a return of `false` or NULL behind a message, `exit` the call
-- `exit(1)`, `fault` a read through a null pointer, `pending` a wait that has not ended.
pub data Outcome {ℓ} (A : Type ℓ) : Type ℓ where
  ok : A → Outcome A
  error exit fault pending : Outcome A

infixl 5 ◌>>=◌
abbrev pub ◌>>=◌ {ℓ κ} : {X : Type ℓ} {Y : Type κ} → Outcome X → (X → Outcome Y) → Outcome Y
error >>= next = error
exit >>= next = exit
fault >>= next = fault
pending >>= next = pending
ok x >>= next = next x

-- What a sequence returned came from a first call that returned.
pub >>=-eq-ok {ℓ κ} :
    {X : Type ℓ} {Y : Type κ} (first : Outcome X) (next : X → Outcome Y) {y : Y}
    → (first >>= next) ≡ ok y
    → (x : X) × (first ≡ ok x) × (next x ≡ ok y)
>>=-eq-ok error next e = cc
>>=-eq-ok exit next e = cc
>>=-eq-ok fault next e = cc
>>=-eq-ok pending next e = cc
>>=-eq-ok (ok x) next e = (x, refl, e)

-- The codes of `getaddrinfo` that the tools tell apart: three permanent ones and the others.
pub data GaiError : Type 0 where
  eai_noname eai_fail eai_nodata eai_other : GaiError

pub record Addrinfo : Type 0 where
  pub ai_family : Family
  pub ai_addrlen : ℕ
  pub ai_addr : Sockaddr

pub data Lookup : Type 0 where
  resolved : Addrinfo → Lookup
  gai_error : GaiError → Lookup

pub Lookup-cases :
    (l : Lookup) → ((a : Addrinfo) × (l ≡ resolved a)) ⊎ ((e : GaiError) × (l ≡ gai_error e))
Lookup-cases (resolved a) = inl (a, refl)
Lookup-cases (gai_error e) = inr (e, refl)

-- A file as `fread` and `getc` see it: it cannot be opened, or it has these bytes.
pub data FileContents : Type 0 where
  unreadable : FileContents
  contents : Bytes → FileContents

-- The machine and the system around the program: the signedness of `char`, `ULONG_MAX`, name
-- resolution at the n-th attempt (NULL for no host), the readers of numeric addresses, the
-- environment, the files, and how many attempts an unbounded wait is watched for.
pub record System : Type 0 where
  pub char_signed : Bool
  pub ulong_max : ℕ
  pub getaddrinfo : ℕ → Option Bytes → Bytes → Lookup
  pub inet_pton4 : Bytes → Option (List ℕ)
  pub inet_pton6 : Bytes → Option (List ℕ)
  pub retries : Option Bytes
  pub open_file : Bytes → FileContents
  pub patience : ℕ

-- The call does not read through a null pointer, and what it returns satisfies `P`.
abbrev pub Ensures {ℓ} : {A : Type ℓ} → (A → Type 0) → Outcome A → Type 0
Ensures P (ok a) = P a
Ensures P fault = ⊥
Ensures P error = Unit
Ensures P exit = Unit
Ensures P pending = Unit

pub Ensures->>= {ℓ κ} :
    {A : Type ℓ} {B : Type κ} (P : A → Type 0) (Q : B → Type 0) (m : Outcome A) (f : A → Outcome B)
    → Ensures P m
    → ((a : A) → P a → Ensures Q (f a))
    → Ensures Q (m >>= f)
Ensures->>= P Q (ok a) f h k = k a h
Ensures->>= P Q error f h k = tt
Ensures->>= P Q exit f h k = tt
Ensures->>= P Q fault f h k = elim h [ ]
Ensures->>= P Q pending f h k = tt

pub Ensures-intro {ℓ} :
    {A : Type ℓ} (P : A → Type 0) (m : Outcome A)
    → m ≢ fault
    → ((a : A) → m ≡ ok a → P a)
    → Ensures P m
Ensures-intro P (ok a) h k = k a refl
Ensures-intro P error h k = tt
Ensures-intro P exit h k = tt
Ensures-intro P fault h k = absurd (h refl)
Ensures-intro P pending h k = tt

pub Ensures-ok {ℓ} :
    {A : Type ℓ} (P : A → Type 0) (m : Outcome A) {a : A} → Ensures P m → m ≡ ok a → P a
Ensures-ok P m h e = rw e at h

pub ok-injective {ℓ} : {A : Type ℓ} {a b : A} → ok a ≡ ok b → a ≡ b
ok-injective h = cc

pub >>=-cong {ℓ κ} :
    {A : Type ℓ} {B : Type κ} (m : Outcome A) (f g : A → Outcome B)
    → ((a : A) → m ≡ ok a → f a ≡ g a)
    → (m >>= f) ≡ (m >>= g)
>>=-cong (ok a) f g h = h a refl
>>=-cong error f g h = refl
>>=-cong exit f g h = refl
>>=-cong fault f g h = refl
>>=-cong pending f g h = refl

-- A return of any value.
abbrev pub NoFault {ℓ} : {A : Type ℓ} → Outcome A → Type 0
NoFault m = Ensures (λ a. Unit) m

-- The same of a case distinction on an option.
pub Ensures-Option {ℓ κ} :
    {A : Type ℓ} {B : Type κ} (P : B → Type 0) (o : Option A) (n : Outcome B) (f : A → Outcome B)
    → Ensures P n
    → ((a : A) → o ≡ some a → Ensures P (f a))
    → Ensures P (elim o as (λ x. Outcome B) [ none ↦ n | some a ↦ f a ])
Ensures-Option P none n f h k = h
Ensures-Option P (some a) n f h k = k a refl

-- The same of a test.
pub Ensures-if {ℓ} :
    {A : Type ℓ} (P : A → Type 0) (b : Bool) (x y : Outcome A)
    → (b ≡ true → Ensures P x)
    → (b ≡ false → Ensures P y)
    → Ensures P (if b then x else y)
Ensures-if P true x y h k = h refl
Ensures-if P false x y h k = k refl
