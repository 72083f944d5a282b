-- ===== src/Outcome.antt =====
-- Rust's `Result<A, E>` with an error type of the caller's, for the crate ctf-generator.
use sidequests.Common.{◌⊎◌, inl, inr, ◌≡◌, refl, Bool, true, false, Option, none, some}

pub data Outcome {ℓ} (E : Type 0) (A : Type ℓ) : Type ℓ where
  ok : A → Outcome E A
  err : E → Outcome E A

-- `if test { return Err(e) }`
abbrev pub fail_if : {E : Type 0} → Bool → E → Outcome E (Unit {0})
fail_if true e = err e
fail_if false e = ok tt

-- `Option::ok_or`
abbrev pub some_or {ℓ} : {A : Type ℓ} {E : Type 0} → Option A → E → Outcome E A
some_or (some a) e = ok a
some_or none e = err e

-- `Result::map_err`
abbrev pub map_err {ℓ} : {A : Type ℓ} {E F : Type 0} → (E → F) → Outcome E A → Outcome F A
map_err f (ok a) = ok a
map_err f (err e) = err (f e)

infixl 5 ◌>>=◌
abbrev pub ◌>>=◌ {κ ℓ} :
    {E : Type 0} {A : Type κ} {B : Type ℓ} → Outcome E A → (A → Outcome E B) → Outcome E B
err e >>= step = err e
ok a >>= step = step a

infixl 5 ◌>>◌
abbrev pub ◌>>◌ {ℓ} : {E : Type 0} {B : Type ℓ} → Outcome E (Unit {0}) → Outcome E B → Outcome E B
check >> step = check >>= λ _. step

pub Outcome-cases {ℓ} :
    {E : Type 0} {A : Type ℓ} (r : Outcome E A) → ((a : A) × (r ≡ ok a)) ⊎ ((e : E) × (r ≡ err e))
Outcome-cases (ok a) = inl (a, refl)
Outcome-cases (err e) = inr (e, refl)

pub bind-ok {ℓ κ} :
    {E : Type 0} {A : Type ℓ} {B : Type κ} (m : Outcome E A) (f : A → Outcome E B) (b : B)
    → (m >>= f) ≡ ok b
    → (a : A) × (m ≡ ok a) × (f a ≡ ok b)
bind-ok (ok a) f b e = (a, refl, e)
bind-ok (err x) f b e = absurd (cc)

pub some_or-eq-ok {ℓ} :
    {E : Type 0} {A : Type ℓ} (o : Option A) (x : E) (a : A)
    → ◌≡◌ {A = Outcome E A} (some_or o x) (ok a)
    → o ≡ some a
some_or-eq-ok (some b) x a e = cc
some_or-eq-ok none x a e = absurd (cc)
