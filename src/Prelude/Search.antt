-- ===== src/Prelude/Search.antt =====
-- Searches of a slice by a closure: `any`, `find`, `position`, and `filter` by a test.
use Prim.Native.Nat.{ℕ, suc}
use mathlib.Core.Path.{◌≡◌, refl, ap, ◌∙◌, subst}
use mathlib.Core.Logic.{◌⊎◌, inl, inr}
use mathlib.Core.Bool.{Bool, true, false, ◌||◌}
use mathlib.Core.Option
use mathlib.Core.Option.{Option, none, some}
use mathlib.Core.List.{List, [], ◌∷◌, ◌++◌}
use native.Mathlib.Omega.{arith}
use cdk.Prelude.Tests.{if◌then◌else◌, Bool-cases}

module _ {ℓ} {A : Type ℓ} where
  abbrev pub any : (A → Bool) → List A → Bool
  any p [] = false
  any p (x ∷ xs) = p x || any p xs

  abbrev pub find : (A → Bool) → List A → Option A
  find p [] = none
  find p (x ∷ xs) = if p x then some x else find p xs

  abbrev pub position : (A → Bool) → List A → Option ℕ
  position p [] = none
  position p (x ∷ xs) = if p x then some 0 else Option.map suc (position p xs)

  abbrev pub filter : (A → Bool) → List A → List A
  filter p [] = []
  filter p (x ∷ xs) = if p x then x ∷ filter p xs else filter p xs

-- Membership with its place kept, by recursion, so that the tactics read it.
module _ {A : Type 0} where
  abbrev pub In : A → List A → Type 0
  In a [] = ⊥
  In a (x ∷ xs) = (a ≡ x) ⊎ In a xs

module _ {ℓ κ} {A : Type ℓ} (P : A → Type κ) where
  abbrev pub All : List A → Type κ
  All [] = Unit
  All (x ∷ xs) = P x × All xs

  pub All-append : (xs ys : List A) → All xs → All ys → All (xs ++ ys)
  All-append [] ys h k = k
  All-append (x ∷ xs) ys h k = (h.0, All-append xs ys h.1 k)

module _ {A : Type 0} where
  pub In-append_left : (a : A) (xs ys : List A) → In a xs → In a (xs ++ ys)
  In-append_left a [] ys m = absurd m
  In-append_left a (x ∷ xs) ys (inl e) = inl e
  In-append_left a (x ∷ xs) ys (inr m) = inr (In-append_left a xs ys m)

  pub In-append_right : (a : A) (xs ys : List A) → In a ys → In a (xs ++ ys)
  In-append_right a [] ys m = m
  In-append_right a (x ∷ xs) ys m = inr (In-append_right a xs ys m)

  pub In-append : (a : A) (xs ys : List A) → In a (xs ++ ys) → In a xs ⊎ In a ys
  In-append a [] ys m = inr m
  In-append a (x ∷ xs) ys (inl e) = inl (inl e)
  In-append a (x ∷ xs) ys (inr m) = elim (In-append a xs ys m) [
    | inl l ↦ inl (inr l)
    | inr r ↦ inr r
  ]

  pub any_of_In : (p : A → Bool) (a : A) (xs : List A) → In a xs → p a ≡ true → any p xs ≡ true
  any_of_In p a [] m h = absurd m
  any_of_In p a (x ∷ xs) (inl e) h = ground (arith, ap p e)
  any_of_In p a (x ∷ xs) (inr m) h = ground (arith, any_of_In p a xs m h)

  pub In-of_any : (p : A → Bool) (xs : List A) → any p xs ≡ true → (a : A) × In a xs × (p a ≡ true)
  In-of_any p [] h = cc
  In-of_any p (x ∷ xs) h = elim (Bool-cases (p x)) [
    | inl e ↦ (x, inl refl, e)
    | inr e ↦ let (a, m, pa) = In-of_any p xs (ground arith) in (a, inr m, pa)
  ]

  pub In-filter : (p : A → Bool) (a : A) (xs : List A) → In a (filter p xs) → In a xs × (p a ≡ true)
  In-filter p a [] m = absurd m
  In-filter p a (x ∷ xs) m = elim (Bool-cases (p x)) [
    | inl e ↦
        let k : (a ≡ x) ⊎ In a (filter p xs) =
          subst (λ b. In a (if b then x ∷ filter p xs else filter p xs)) e m in
        elim k [
          | inl here ↦ (inl here, ap p here ∙ e)
          | inr there ↦ let (i, pa) = In-filter p a xs there in (inr i, pa)
        ]
    | inr e ↦
        let k : In a (filter p xs) =
          subst (λ b. In a (if b then x ∷ filter p xs else filter p xs)) e m in
        let (i, pa) = In-filter p a xs k in (inr i, pa)
  ]

  pub In-filter_of :
      (p : A → Bool) (a : A) (xs : List A) → In a xs → p a ≡ true → In a (filter p xs)
  In-filter_of p a [] m h = absurd m
  In-filter_of p a (x ∷ xs) (inl e) h =
      let px : p x ≡ true = ground (arith, ap p e) in rw px (inl e)
  In-filter_of p a (x ∷ xs) (inr m) h = elim (Bool-cases (p x)) [
    | inl e ↦ rw e (inr (In-filter_of p a xs m h))
    | inr e ↦ rw e (In-filter_of p a xs m h)
  ]

  pub find-In : (p : A → Bool) (xs : List A) (a : A) → find p xs ≡ some a → In a xs × (p a ≡ true)
  find-In p [] a h = cc
  find-In p (x ∷ xs) a h = elim (Bool-cases (p x)) [
    | inl e ↦ let q : a ≡ x = ground arith in (inl q, ap p q ∙ e)
    | inr e ↦ let (m, pa) = find-In p xs a (ground arith) in (inr m, pa)
  ]

  pub find_of_any : (p : A → Bool) (xs : List A) → any p xs ≡ true → (a : A) × (find p xs ≡ some a)
  find_of_any p [] h = cc
  find_of_any p (x ∷ xs) h = elim (Bool-cases (p x)) [
    | inl e ↦ (x, rw e)
    | inr e ↦ let (a, f) = find_of_any p xs (ground arith) in (a, rw e f)
  ]

  pub find-none : (p : A → Bool) (xs : List A) (a : A) → find p xs ≡ none → In a xs → p a ≡ false
  find-none p [] a h m = absurd m
  find-none p (x ∷ xs) a h (inl e) = ground (arith, ap p e)
  find-none p (x ∷ xs) a h (inr m) = ground (arith, find-none p xs a)
