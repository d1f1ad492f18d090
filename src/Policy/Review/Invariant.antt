-- ===== src/Policy/Review/Invariant.antt =====
-- The rules hold of the handles in every state that the system reaches.
use cdk.Prelude.{
  Bool-cases, Option-cases, Option, none, some, ltb, leb, length, not, ◌&&◌, ℕ, ◌≡◌, refl, ap, ◌∙◌,
  sym, Bool, true, false, List, [], ◌∷◌, ◌++◌, Text, inl, inr, In, Result, ok, err,
}
use cdk.Policy.{Grant, Policy, Rule, deny, separate, approval_rule, max_quorum}
use cdk.Policy.Rules.{violations}
use cdk.Policy.Parse.{ParseError}
use cdk.Policy.Safety.{Demands, violations_nil_iff}
use cdk.Policy.Derive.{Kept, derive-keeps-safe}
use cdk.Policy.Review.{
  State, Boot, parsed, Answer, Event, start, signed_mode, load_parsed, load_boot_policy, fresh,
  review_grants, Edit, edit, set_review, begin, stage, take_batch,
}
use cdk.Policy.Review.Flow.{review_grants_cases, edit_lem, loaded_state, fresh-clean}

-- The policy state with the handles that all agents hold.
pub record System : Type 0 where
  pub st : State
  pub grants : List Grant

-- One step. Grants are applied after a review that allows them; agents drop handles and derive
-- weaker ones from live ones at any time.
pub data Step (b : Boot) : System → System → Type 0 where
  granted :
      (a : Answer) (proposed : List Grant) (s : System)
      → (review_grants b a s.grants proposed s.st).0 ≡ true
      → Step b s (record {
        st = (review_grants b a s.grants proposed s.st).1;
        grants = s.grants ++ proposed;
      })
  refused :
      (a : Answer) (proposed : List Grant) (s : System)
      → (review_grants b a s.grants proposed s.st).0 ≡ false
      → Step b s (record s { st = (review_grants b a s.grants proposed s.st).1 })
  edited :
      (a : Answer) (e : Edit) (s : System)
      → Step b s (record s { st = (edit b a s.grants e s.st).1 })
  derived :
      (gs : List Grant) (s : System)
      → ((k : Grant) → In k gs → Kept s.grants k)
      → Step b s (record s { grants = gs })
  review_set :
      (on : Bool) (st : State) (events : List Event) (s : System)
      → set_review b on s.st ≡ ok (st, events)
      → Step b s (record s { st = st })
  batch_begun : (st : State) (s : System) → begin s.st ≡ ok st → Step b s (record s { st = st })
  grant_staged :
      (pid : ℕ) (object perms : Text) (n : ℕ) (st : State) (s : System)
      → stage pid object perms s.st ≡ ok (n, st)
      → Step b s (record s { st = st })
  batch_taken : (s : System) → Step b s (record s { st = (take_batch s.st).1 })

-- From a boot that loads its policy before any agent holds a handle.
pub data Reachable (b : Boot) : System → Type 0 where
  booted : Reachable b (record { st = (load_boot_policy b start).0; grants = [] })
  stepped : (s t : System) → Reachable b s → Step b s t → Reachable b t

-- The policy is loaded, and no rule is violated.
pub record IsSound (s : System) : Type 0 where
  pub loaded : s.st.loaded ≡ true
  pub safe : violations s.st.policy s.grants ≡ []

parsed_loaded :
    (b : Boot) (st : State) (o : Option (Result (ℕ × ParseError) Policy))
    → (load_parsed b st o).0.loaded ≡ st.loaded
unfolding load_parsed
parsed_loaded b st none = refl
parsed_loaded b st (some (err e)) = refl
parsed_loaded b st (some (ok p)) =
    elim (Bool-cases (signed_mode b && ltb b.operator_count (max_quorum p))) [
      | inl e ↦ rw e refl
      | inr e ↦ rw e refl
    ]

loads : (b : Boot) (st : State) → (load_boot_policy b st).0.loaded ≡ true
unfolding load_boot_policy
loads b st = elim (Bool-cases st.loaded) [
  | inl e ↦ simp e
  | inr e ↦ elim (Bool-cases b.lockdown) [
    | inl l ↦ rw (e, l) refl
    | inr l ↦ simp (e, l) (parsed_loaded b _ (parsed b))
  ]
]

-- Once loaded, a load does nothing.
loads_once : (b : Boot) (st : State) → st.loaded ≡ true → loaded_state b st ≡ st
unfolding load_boot_policy
loads_once b st e = rw e refl

nothing_held : (p : Policy) → violations p [] ≡ []
nothing_held p = (violations_nil_iff p []).1 (λ r m. none r)
  where
    none : (r : Rule) → Demands p [] r
    none (deny l) = λ g m live. absurd m
    none (approval_rule l) = λ g m acts. absurd m
    none (separate x y) = λ g h m n e lg lh. absurd m

-- What a step that is no edit leaves.
abbrev pub Same : State → State → Type 0
Same st st' = (st'.loaded ≡ st.loaded) × (st'.policy ≡ st.policy) × (st'.broken ≡ st.broken)

Same-of : (st st' : State) → st ≡ st' → Same st st'
Same-of st st' e = (
  ap (λ (s : State). s.loaded) (sym e),
  ap (λ (s : State). s.policy) (sym e),
  ap (λ (s : State). s.broken) (sym e),
)

pub set_keeps :
    (b : Boot) (on : Bool) (st st' : State) (events : List Event)
    → set_review b on st ≡ ok (st', events)
    → Same st st'
unfolding set_review
set_keeps b on st st' events h = elim (Bool-cases (not on && signed_mode b)) [
  | inl t ↦ absurd cc
  | inr f ↦ Same-of (record st { review = on }) st' cc
]

pub begin_keeps : (st st' : State) → begin st ≡ ok st' → Same st st'
unfolding begin
begin_keeps st st' h = elim (Option-cases st.staged) [
  | inl n ↦ Same-of (record st { staged = some [] }) st' cc
  | inr (batch, e) ↦ absurd cc
]

pub stage_keeps :
    (pid : ℕ) (object perms : Text) (n : ℕ) (st st' : State)
    → stage pid object perms st ≡ ok (n, st')
    → Same st st'
unfolding stage
stage_keeps pid object perms n st st' h = elim (Option-cases st.staged) [
  | inl e ↦ absurd cc
  | inr (batch, e) ↦ elim (Bool-cases (not (leb (length object) 32))) [
    | inl t ↦ absurd cc
    | inr f ↦ elim (Bool-cases (not (leb (length perms) 48))) [
      | inl t ↦ absurd cc
      | inr f' ↦ elim (Bool-cases (not (ltb (length batch) 16))) [
        | inl t ↦ absurd cc
        | inr f'' ↦
            Same-of (record st { staged = some (batch ++ ((pid, object, perms) ∷ [])) }) st' cc
      ]
    ]
  ]
]

Same-IsSound :
    (st st' : State) (gs : List Grant)
    → Same st st'
    → IsSound (record { st = st; grants = gs })
    → IsSound (record { st = st'; grants = gs })
Same-IsSound st st' gs e i = record {
  loaded = e.0 ∙ i.loaded;
  safe = ap (λ p. violations p gs) e.1 ∙ i.safe;
}

step-IsSound : (b : Boot) (s t : System) → Step b s t → IsSound s → IsSound t
unfolding take_batch
step-IsSound b _ _ (granted a proposed s h) i =
    let r = review_grants_cases b a s.grants proposed s.st in
    let l = loads_once b s.st i.loaded in
    let clean : violations s.st.policy s.grants ≡ [] = i.safe in
    record {
      loaded = ap (λ (x : State). x.loaded) (r.1 ∙ l) ∙ i.loaded;
      safe =
          ap (λ (x : State). violations x.policy (s.grants ++ proposed)) (r.1 ∙ l)
          ∙ sym (fresh-clean s.st.policy s.grants (s.grants ++ proposed) clean)
          ∙ ap (λ (x : State). fresh x.policy s.grants (s.grants ++ proposed)) (sym l)
          ∙ (r.0.0 h).1;
    }
step-IsSound b _ _ (refused a proposed s h) i =
    let r = review_grants_cases b a s.grants proposed s.st in
    Same-IsSound s.st _ s.grants (Same-of s.st _ (sym (r.1 ∙ loads_once b s.st i.loaded))) i
step-IsSound b _ _ (edited a e s) i = elim (edit_lem b a s.grants e s.st) [
  | inl (p, c, nb, v, y, done, st) ↦ record {
    loaded = ap (λ (x : State). x.loaded) st ∙ loads b s.st;
    safe = ap (λ (x : State). violations x.policy s.grants) st ∙ v;
  }
  | inr (failed, st) ↦
      Same-IsSound s.st _ s.grants (Same-of s.st _ (sym (st ∙ loads_once b s.st i.loaded))) i
]
step-IsSound b _ _ (derived gs s k) i = record {
  loaded = i.loaded;
  safe = derive-keeps-safe s.st.policy s.grants gs i.safe k;
}
step-IsSound b _ _ (review_set on st events s h) i =
    Same-IsSound s.st st s.grants (set_keeps b on s.st st events h) i
step-IsSound b _ _ (batch_begun st s h) i = Same-IsSound s.st st s.grants (begin_keeps s.st st h) i
step-IsSound b _ _ (grant_staged pid object perms n st s h) i =
    Same-IsSound s.st st s.grants (stage_keeps pid object perms n s.st st h) i
step-IsSound b _ _ (batch_taken s) i = Same-IsSound s.st _ s.grants (taken s.st) i
  where
    taken : (st : State) → Same st (take_batch st).1
    taken st = (refl, refl, refl)

-- In every state that a boot reaches by reviewed grants, edits, derivations from live handles and
-- drops, in any order and whatever the operators answer, no rule of the policy in force is violated.
pub reachable-IsSound : (b : Boot) (s : System) → Reachable b s → IsSound s
reachable-IsSound b _ booted = record {
  loaded = loads b start;
  safe = nothing_held (load_boot_policy b start).0.policy;
}
reachable-IsSound b _ (stepped s t r k) = step-IsSound b s t k (reachable-IsSound b s r)
