-- ===== src/Policy/Review/Load.antt =====
-- What loading the boot policy does, the operators' answers, and the violations that are new.
use mathlib.Core.Logic.{inl, inr, ◌⊎◌}
use cdk.Prelude.{
  ℕ, ◌≤◌, ◌<◌, ◌≡◌, ◌≢◌, refl, sym, ap, subst, true, false, not, ◌&&◌, none, some, List, [], ◌∷◌,
  Text, any, filter, ltb, ◌==◌, ==_iff, text_eq→eq, text_eq_self, ok, err, arith, Bool-cases,
  Option-cases, Result-cases, In, In-of_any, any_of_In, In-filter_of, both,
}
use cdk.Policy.{Grant, Violation, denied, separated, needs_approval, Policy, max_quorum}
use cdk.Policy.Rules.{violations}
use cdk.Policy.Parse.{ParseError}
use cdk.Policy.Review.{
  State, Boot, Answer, parse_file, signed_mode, load_parsed, load_boot_policy, confirm,
  violation_eq, fresh,
}

-- The state after a load: the first one takes the lockdown and the boot file into account.
pub data Loads (b : Boot) (st : State) : State → Type 0 where
  already : st.loaded ≡ true → Loads b st st
  locked :
      st.loaded ≡ false
      → b.lockdown ≡ true
      → Loads b st (record st { loaded = true; broken = true })
  no_file :
      st.loaded ≡ false
      → b.lockdown ≡ false
      → b.file ≡ none
      → Loads b st (record st { loaded = true })
  unreadable :
      (f : Text) (e : ℕ × ParseError)
      → st.loaded ≡ false
      → b.lockdown ≡ false
      → b.file ≡ some f
      → parse_file f ≡ err e
      → Loads b st (record st { loaded = true; broken = true })
  beyond_keys :
      (f : Text) (p : Policy)
      → st.loaded ≡ false
      → b.lockdown ≡ false
      → b.file ≡ some f
      → parse_file f ≡ ok p
      → b.operator_count ≢ 0
      → b.operator_count < max_quorum p
      → Loads b st (record st { loaded = true; broken = true })
  installed :
      (f : Text) (p : Policy)
      → st.loaded ≡ false
      → b.lockdown ≡ false
      → b.file ≡ some f
      → parse_file f ≡ ok p
      → (b.operator_count ≡ 0) ⊎ (max_quorum p ≤ b.operator_count)
      → Loads b st (record st { loaded = true; policy = p })

pub load_boot_policy-Loads : (b : Boot) (st : State) → Loads b st (load_boot_policy b st).0
unfolding load_boot_policy load_parsed
load_boot_policy-Loads b st = elim (Bool-cases st.loaded) [
  | inl l ↦ reached (already l) (rw l refl)
  | inr n ↦ elim (Bool-cases b.lockdown) [
    | inl k ↦ reached (locked n k) (rw (n, k) refl)
    | inr k ↦ elim (Option-cases b.file) [
      | inl o ↦ reached (no_file n k o) (rw (n, k, o) refl)
      | inr (f, o) ↦ elim (Result-cases (parse_file f)) [
        | inr (e, bad) ↦ reached (unreadable f e n k o bad) (rw (n, k, o, bad) refl)
        | inl (p, good) ↦ elim (Bool-cases (signed_mode b && ltb b.operator_count (max_quorum p))) [
          | inl many ↦
              reached (beyond_keys f p n k o good (λ z. absurd (ground arith)) (ground arith))
                (rw (n, k, o, good, many) refl)
          | inr few ↦
              reached (installed f p n k o good (enough p few)) (rw (n, k, o, good, few) refl)
        ]
      ]
    ]
  ]
]
  where
    reached :
        {s : State}
        → Loads b st s
        → (load_boot_policy b st).0 ≡ s
        → Loads b st (load_boot_policy b st).0
    reached r e = subst (Loads b st) (sym e) r

    enough :
        (p : Policy)
        → (signed_mode b && ltb b.operator_count (max_quorum p)) ≡ false
        → (b.operator_count ≡ 0) ⊎ (max_quorum p ≤ b.operator_count)
    enough p few = elim (Bool-cases (b.operator_count == 0)) [
      | inl z ↦ inl (ground arith)
      | inr n ↦ inr (ground arith)
    ]

-- The operators agree: by signatures where keys are pinned, else at the console unless the review is
-- switched off.
abbrev pub Agrees : Boot → State → Answer → Type 0
Agrees b st a =
    ((b.operator_count ≢ 0) × (a.signatures ≡ true))
    ⊎ ((b.operator_count ≡ 0) × ((st.review ≡ false) ⊎ (a.typed ≡ true)))

pub confirm-Agrees : (b : Boot) (st : State) (a : Answer) → confirm b st a ≡ true → Agrees b st a
unfolding confirm
confirm-Agrees b st a h = elim (Bool-cases (b.operator_count == 0)) [
  | inl z ↦ inr (
    ground arith,
    elim (Bool-cases st.review) [ inl on ↦ inr (ground arith) | inr off ↦ inl off ],
  )
  | inr n ↦ inl (λ z. absurd (ground arith), ground arith)
]

pub Agrees-confirm : (b : Boot) (st : State) (a : Answer) → Agrees b st a → confirm b st a ≡ true
unfolding confirm
Agrees-confirm b st a (inl (keys, signed)) = ground arith
Agrees-confirm b st a (inr (none_pinned, inl off)) = ground arith
Agrees-confirm b st a (inr (none_pinned, inr typed)) = ground arith

violation_eq_sound : (v w : Violation) → violation_eq v w ≡ true → v ≡ w
unfolding violation_eq
violation_eq_sound (denied p o l) (denied q u m) h =
    let (a, r) = both _ _ h in
    let (c, d) = both _ _ r in
    (λ i. denied ((==_iff p q).0 a i) (text_eq→eq o u c i) (text_eq→eq l m d i))
violation_eq_sound (separated p o l) (separated q u m) h =
    let (a, r) = both _ _ h in
    let (c, d) = both _ _ r in
    (λ i. separated ((==_iff p q).0 a i) (text_eq→eq o u c i) (text_eq→eq l m d i))
violation_eq_sound (needs_approval p o l) (needs_approval q u m) h =
    let (a, r) = both _ _ h in
    let (c, d) = both _ _ r in
    (λ i. needs_approval ((==_iff p q).0 a i) (text_eq→eq o u c i) (text_eq→eq l m d i))
violation_eq_sound (denied p o l) (separated q u m) h = absurd (cc)
violation_eq_sound (denied p o l) (needs_approval q u m) h = absurd (cc)
violation_eq_sound (separated p o l) (denied q u m) h = absurd (cc)
violation_eq_sound (separated p o l) (needs_approval q u m) h = absurd (cc)
violation_eq_sound (needs_approval p o l) (denied q u m) h = absurd (cc)
violation_eq_sound (needs_approval p o l) (separated q u m) h = absurd (cc)

violation_eq_self : (v : Violation) → violation_eq v v ≡ true
unfolding violation_eq
violation_eq_self (denied p o l) = rw ((==_iff p p).1 refl, text_eq_self o, text_eq_self l) refl
violation_eq_self (separated p o l) = rw ((==_iff p p).1 refl, text_eq_self o, text_eq_self l) refl
violation_eq_self (needs_approval p o l) =
    rw ((==_iff p p).1 refl, text_eq_self o, text_eq_self l) refl

-- Every violation after a change was one before it.
abbrev pub NoneNew : Policy → List Grant → List Grant → Type 0
NoneNew p before after = (v : Violation) → In v (violations p after) → In v (violations p before)

pub fresh-NoneNew :
    (p : Policy) (before after : List Grant) → fresh p before after ≡ [] → NoneNew p before after
unfolding fresh
fresh-NoneNew p before after e v m =
    elim (Bool-cases (any (violation_eq v) (violations p before))) [
      | inl old ↦
          let (w, n, same) = In-of_any (violation_eq v) (violations p before) old in
          subst (λ u. In u (violations p before)) (sym (violation_eq_sound v w same)) n
      | inr new ↦ absurd (
          subst (In v) e (
            In-filter_of (λ u. not (any (violation_eq u) (violations p before))) v
              (violations p after) m (ap not new)))
    ]

pub NoneNew-fresh :
    (p : Policy) (before after : List Grant) → NoneNew p before after → fresh p before after ≡ []
unfolding fresh
NoneNew-fresh p before after h = nothing (violations p after) (λ v m. h v m)
  where
    nothing :
        (vs : List Violation)
        → ((v : Violation) → In v vs → In v (violations p before))
        → filter (λ u. not (any (violation_eq u) (violations p before))) vs ≡ []
    nothing [] k = refl
    nothing (v ∷ vs) k =
        let old : any (violation_eq v) (violations p before) ≡ true =
          any_of_In (violation_eq v) v (violations p before) (k v (inl refl))
            (violation_eq_self v) in
        rw old (nothing vs (λ u m. k u (inr m)))
