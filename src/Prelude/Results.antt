-- ===== src/Prelude/Results.antt =====
-- Errors as values: `Result` with `?` as a `do` block.
use mathlib.Core.Path.{◌≡◌, refl}
use mathlib.Core.Bool.{Bool, true, false, not}
use mathlib.Core.Logic.{◌⊎◌, inl, inr}
use mathlib.Core.Option.{Option, none, some}

pub data Result {ℓ κ} (E : Type ℓ) (A : Type κ) : Type (ℓ ⊔ κ) where
  ok : A → Result E A
  err : E → Result E A

-- `?`: the first error ends the chain.
infixl 5 ◌>>=◌
abbrev pub ◌>>=◌ {ℓ κ μ} :
    {E : Type ℓ} {A : Type κ} {B : Type μ} → Result E A → (A → Result E B) → Result E B
err failure >>= next = err failure
ok value >>= next = next value

abbrev pub ok_or {ℓ κ} : {E : Type ℓ} {A : Type κ} → Option A → E → Result E A
ok_or (some a) e = ok a
ok_or none e = err e

-- An early return of an error where the test holds.
abbrev pub fail_if {ℓ} : {E : Type ℓ} → Bool → E → Result E (Unit {0})
fail_if true e = err e
fail_if false e = ok tt

-- A statement whose value is dropped.
infixl 5 ◌>>◌
abbrev pub ◌>>◌ {ℓ κ} : {E : Type ℓ} {B : Type κ} → Result E (Unit {0}) → Result E B → Result E B
err failure >> rest = err failure
ok value >> rest = rest

pub Result-cases {ℓ κ} :
    {E : Type ℓ} {A : Type κ} (r : Result E A) → ((a : A) × (r ≡ ok a)) ⊎ ((e : E) × (r ≡ err e))
Result-cases (ok a) = inl (a, refl)
Result-cases (err e) = inr (e, refl)

-- What a chain that succeeds has passed.
pub fail_if-not {ℓ κ} :
    {E : Type ℓ} {A : Type κ} (t : Bool) (e : E) (r : Result E A) (a : A)
    → (fail_if (not t) e >> r) ≡ ok a
    → (t ≡ true) × (r ≡ ok a)
fail_if-not true e r a h = (refl, h)
fail_if-not false e r a h = absurd (cc)

pub ok_or-ok {ℓ κ μ} :
    {E : Type ℓ} {A : Type κ} {B : Type μ} (o : Option A) (e : E) (f : A → Result E B) (b : B)
    → (ok_or o e >>= f) ≡ ok b
    → (a : A) × (o ≡ some a) × (f a ≡ ok b)
ok_or-ok none e f b h = absurd (cc)
ok_or-ok (some a) e f b h = (a, refl, h)
