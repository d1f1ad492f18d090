-- ===== src/Policy/Review/Flow.antt =====
-- What a review decides, whatever the operators answer.
use cdk.Prelude.{
  apart, ◌≡◌, ◌≢◌, refl, ap, true, false, List, [], ◌∷◌, ◌++◌, filter, Bool-cases, inl, inr, ◌⊎◌,
  ◌↔◌, Result, ok, err, Result-cases,
}
use cdk.Policy.{Grant, Violation, Policy}
use cdk.Policy.Rules.{violations, EditError, broken, declined, existing_violation}
use cdk.Policy.Review.{
  State, Boot, Answer, load_boot_policy, confirm, fresh, is_empty, review_grants, Edit, candidate,
  edit,
}

-- The state that a review sees: after the boot policy is loaded.
abbrev pub loaded_state : Boot → State → State
loaded_state b st = (load_boot_policy b st).0

is_empty→nil : {A : Type 0} (xs : List A) → is_empty xs ≡ true → xs ≡ []
is_empty→nil [] h = refl
is_empty→nil (x ∷ xs) h = cc

not_ok : {r : Result EditError (Unit {0})} {e : EditError} → r ≡ err e → r ≡ ok tt → ⊥
not_ok p q = cc

pub fresh-clean :
    (p : Policy) (before after : List Grant)
    → violations p before ≡ []
    → fresh p before after ≡ violations p after
unfolding fresh
fresh-clean p before after h = rw h (all_kept (violations p after))
  where
    all_kept : (vs : List Violation) → filter (λ v. true) vs ≡ vs
    all_kept [] = refl
    all_kept (v ∷ vs) = ap (λ xs. v ∷ xs) (all_kept vs)

-- What a review tests, on the state with the boot policy loaded.
pub review_grants_cases :
    (b : Boot) (a : Answer) (before proposed : List Grant) (st : State)
    → (((review_grants b a before proposed st).0 ≡ true) ↔ (
        ((loaded_state b st).broken ≡ false)
        × (fresh (loaded_state b st).policy before (before ++ proposed) ≡ [])
        × (confirm b (loaded_state b st) a ≡ true)))
      × ((review_grants b a before proposed st).1 ≡ loaded_state b st)
unfolding review_grants
review_grants_cases b a before proposed st = elim (Bool-cases (loaded_state b st).broken) [
  | inl e ↦ ((λ h. absurd (cc), λ h. absurd (cc)), rw e refl)
  | inr e ↦
      elim (Bool-cases (is_empty (fresh (loaded_state b st).policy before (before ++ proposed)))) [
        | inl n ↦ elim (Bool-cases (confirm b (loaded_state b st) a)) [
          | inl c ↦ ((λ h. (e, is_empty→nil _ n, c), λ h. rw (e, n, c) refl), rw (e, n, c) refl)
          | inr c ↦
              ((λ h. absurd (apart (rw (e, n, c) refl) h), λ h. absurd (cc)), rw (e, n, c) refl)
        ]
        | inr n ↦ (
          (λ h. absurd (apart (rw (e, n) refl) h), λ h. absurd (apart n (ap is_empty h.1))),
          rw (e, n) refl,
        )
      ]
]

-- An edit takes effect exactly if the policy is not broken, the edit is well-formed, no handle
-- violates the edited policy, and the operators agree; then the edited policy is in force. Else the
-- state is as it was.
pub edit_lem :
    (b : Boot) (a : Answer) (grants : List Grant) (e : Edit) (st : State)
    → ((p : Policy) × (candidate (loaded_state b st).policy e ≡ ok p)
        × ((loaded_state b st).broken ≡ false)
        × (violations p grants ≡ [])
        × (confirm b (loaded_state b st) a ≡ true)
        × ((edit b a grants e st).0 ≡ ok tt)
        × ((edit b a grants e st).1 ≡ record (loaded_state b st) { policy = p }))
      ⊎ (((edit b a grants e st).0 ≢ ok tt) × ((edit b a grants e st).1 ≡ loaded_state b st))
unfolding edit
edit_lem b a grants e st = elim (Bool-cases (loaded_state b st).broken) [
  | inl br ↦ inr ((λ h. not_ok {e = broken} (rw br refl) h), rw br refl)
  | inr nb ↦ elim (Result-cases (candidate (loaded_state b st).policy e)) [
    | inr (why, c) ↦ inr ((λ h. not_ok {e = why} (rw (nb, c) refl) h), rw (nb, c) refl)
    | inl (p, c) ↦ elim (Bool-cases (is_empty (violations p grants))) [
      | inr n ↦
          inr ((λ h. not_ok {e = existing_violation} (rw (nb, c, n) refl) h), rw (nb, c, n) refl)
      | inl n ↦ elim (Bool-cases (confirm b (loaded_state b st) a)) [
        | inr d ↦
            inr ((λ h. not_ok {e = declined} (rw (nb, c, n, d) refl) h), rw (nb, c, n, d) refl)
        | inl y ↦ inl (p, c, nb, is_empty→nil _ n, y, rw (nb, c, n, y) refl, simp (nb, c, n, y))
      ]
    ]
  ]
]
