-- ===== src/Policy/Review/Unusable.antt =====
-- A boot without a usable policy: nothing is let through until the next boot.
use mathlib.Core.Logic.{inl, inr, ◌⊎◌}
use cdk.Prelude.{
  ℕ, ◌≤◌, ◌<◌, ◌≡◌, ◌≢◌, refl, sym, ap, ◌∙◌, subst, Bool, true, false, some, List, [], ◌∷◌, Text,
  Result, ok, err, arith, Bool-cases, Result-cases, All, apart,
}
use cdk.Policy.{Grant, Policy, new, max_quorum}
use cdk.Policy.Parse.{ParseError}
use cdk.Policy.Review.{
  State, Boot, Answer, Event, StageError, start, parse_file, review_grants, Edit, edit, set_review,
  begin, stage, take_batch,
}
use cdk.Policy.Review.Flow.{loaded_state, review_grants_cases, edit_lem}
use cdk.Policy.Review.Invariant.{Same, set_keeps, begin_keeps, stage_keeps}
use cdk.Policy.Review.Load.{
  Loads, already, locked, no_file, unreadable, beyond_keys, installed, load_boot_policy-Loads,
}

-- A call of the policy module by the kernel or the console, with the grants that are held and the
-- operators' answer.
pub data Call : Type 0 where
  review : Answer → List Grant → List Grant → Call
  change : Answer → List Grant → Edit → Call
  switch : Bool → Call
  open_batch : Call
  add : ℕ → Text → Text → Call
  take : Call

abbrev succeeded : {E : Type 0} → Result E (Unit {0}) → Bool
succeeded (ok u) = true
succeeded (err e) = false

abbrev or_same : {A : Type 0} → (A → State) → State → Result StageError A → State
or_same f st (ok a) = f a
or_same f st (err e) = st

-- Whether the call let grants or an edit through, and the state after it.
unfoldable pub call : Boot → Call → State → Bool × State
call b (review a held proposed) st = let r = review_grants b a held proposed st in (r.0, r.1)
call b (change a held e) st = let r = edit b a held e st in (succeeded r.0, r.1)
call b (switch on) st = (false, or_same (λ (r : State × List Event). r.0) st (set_review b on st))
call b open_batch st = (false, or_same (λ s. s) st (begin st))
call b (add pid object perms) st =
    (false, or_same (λ (r : ℕ × State). r.1) st (stage pid object perms st))
call b take st = (false, (take_batch st).1)

unfoldable pub calls : Boot → List Call → State → List Bool × State
unfolding call
calls b [] st = ([], st)
calls b (c ∷ cs) st =
    let (through, st') = call b c st in let (rest, last) = calls b cs st' in (through ∷ rest, last)

-- A lockdown, or a boot file that does not parse or asks for more operators than have keys pinned.
abbrev pub Unusable : Boot → Type 0
Unusable b =
    (b.lockdown ≡ true)
    ⊎ ((f : Text) × (b.file ≡ some f)
        × (((e : ℕ × ParseError) × (parse_file f ≡ err e))
            ⊎ ((p : Policy) × (parse_file f ≡ ok p)
                × (b.operator_count ≢ 0)
                × (b.operator_count < max_quorum p))))

-- The policy is empty, and once it is loaded it is broken.
record Shut (st : State) : Type 0 where
  empty : st.policy ≡ new
  broken : (st.loaded ≡ false) ⊎ (st.broken ≡ true)

record ShutLoaded (st : State) : Type 0 where
  empty : st.policy ≡ new
  broken : st.broken ≡ true

file_cases :
    (b : Boot)
    → Unusable b
    → b.lockdown ≡ false
    → (f : Text) × (b.file ≡ some f)
      × (((e : ℕ × ParseError) × (parse_file f ≡ err e))
          ⊎ ((p : Policy) × (parse_file f ≡ ok p)
              × (b.operator_count ≢ 0)
              × (b.operator_count < max_quorum p)))
file_cases b (inl l) n = absurd (apart n l)
file_cases b (inr k) n = k

not_installed :
    (b : Boot)
    → Unusable b
    → (f : Text) (p : Policy) → b.lockdown ≡ false
    → b.file ≡ some f
    → parse_file f ≡ ok p
    → (b.operator_count ≡ 0) ⊎ (max_quorum p ≤ b.operator_count)
    → ⊥
not_installed b u f p n o good enough =
    let (g, o', why) = file_cases b u n in
    let same : g ≡ f = cc in
    elim why [
      | inl (e, bad) ↦ let q : parse_file f ≡ err e = ap parse_file (sym same) ∙ bad in cc
      | inr (p', good', keys, more) ↦
          let q : parse_file f ≡ ok p' = ap parse_file (sym same) ∙ good' in
          let r : p' ≡ p = cc in
          elim enough [ inl z ↦ keys z | inr le ↦ omega (arith, more, ap max_quorum r, le) ]
    ]

Loads-Shut : (b : Boot) → Unusable b → (st st' : State) → Shut st → Loads b st st' → ShutLoaded st'
Loads-Shut b u st _ s (already l) = record {
  empty = s.empty;
  broken = elim s.broken [ inl n ↦ absurd (apart n l) | inr k ↦ k ];
}
Loads-Shut b u st _ s (locked n k) = record { empty = s.empty; broken = refl }
Loads-Shut b u st _ s (no_file n k o) = let (f, o', why) = file_cases b u k in absurd (cc)
Loads-Shut b u st _ s (unreadable f e n k o bad) = record { empty = s.empty; broken = refl }
Loads-Shut b u st _ s (beyond_keys f p n k o g q l) = record { empty = s.empty; broken = refl }
Loads-Shut b u st _ s (installed f p n k o g q) = absurd (not_installed b u f p k o g q)

Same-Shut : (st st' : State) → Same st st' → Shut st → Shut st'
Same-Shut st st' e s = record {
  empty = e.1 ∙ s.empty;
  broken = elim s.broken [ inl n ↦ inl (e.0 ∙ n) | inr k ↦ inr (e.2 ∙ k) ];
}

unchanged : (st : State) → Same st st
unchanged st = (refl, refl, refl)

call-Shut :
    (b : Boot)
    → Unusable b
    → (c : Call) (st : State) → Shut st
    → ((call b c st).0 ≡ false) × Shut (call b c st).1
unfolding call take_batch
call-Shut b u (review a held proposed) st s =
    let l = Loads-Shut b u st (loaded_state b st) s (load_boot_policy-Loads b st) in
    let (cases, kept) = review_grants_cases b a held proposed st in
    (
      elim (Bool-cases (review_grants b a held proposed st).0) [
        | inl t ↦ absurd (apart (cases.0 t).0 l.broken)
        | inr n ↦ n
      ],
      subst Shut (sym kept) (record { empty = l.empty; broken = inr l.broken }),
    )
call-Shut b u (change a held e) st s =
    let l = Loads-Shut b u st (loaded_state b st) s (load_boot_policy-Loads b st) in
    elim (edit_lem b a held e st) [
      | inl (p, c, nb, v, y, done, st') ↦ absurd (apart nb l.broken)
      | inr (failed, same) ↦ (
        elim (Result-cases (edit b a held e st).0) [
          | inl (unit, good) ↦ absurd (failed good)
          | inr (why, bad) ↦ ap succeeded bad
        ],
        subst Shut (sym same) (record { empty = l.empty; broken = inr l.broken }),
      )
    ]
call-Shut b u (switch on) st s = (
  refl,
  elim (Result-cases (set_review b on st)) [
    | inl ((st', events), good) ↦ rw good (Same-Shut st st' (set_keeps b on st st' events good) s)
    | inr (e, bad) ↦ rw bad s
  ],
)
call-Shut b u open_batch st s = (
  refl,
  elim (Result-cases (begin st)) [
    | inl (st', good) ↦ rw good (Same-Shut st st' (begin_keeps st st' good) s)
    | inr (e, bad) ↦ rw bad s
  ],
)
call-Shut b u (add pid object perms) st s = (
  refl,
  elim (Result-cases (stage pid object perms st)) [
    | inl ((n, st'), good) ↦
        rw good (Same-Shut st st' (stage_keeps pid object perms n st st' good) s)
    | inr (e, bad) ↦ rw bad s
  ],
)
call-Shut b u take st s = (refl, Same-Shut st (take_batch st).1 (refl, refl, refl) s)

calls-Shut :
    (b : Boot)
    → Unusable b
    → (cs : List Call) (st : State) → Shut st
    → All (λ through. through ≡ false) (calls b cs st).0 × Shut (calls b cs st).1
unfolding calls
calls-Shut b u [] st s = (tt, s)
calls-Shut b u (c ∷ cs) st s =
    let (refused, shut) = call-Shut b u c st s in
    let (rest, last) = calls-Shut b u cs (call b c st).1 shut in ((refused, rest), last)

-- Where the boot gives no usable policy, because of a lockdown or of a policy file that does not parse
-- or asks for more operators than have keys pinned: in every sequence of reviews, edits, switches of
-- the review and staging calls from the start, whatever is held, proposed and answered, no review
-- lets grants through and no edit succeeds, and the policy stays empty.
pub Unusable-refuses :
    (b : Boot)
    → Unusable b
    → (cs : List Call)
    → All (λ through. through ≡ false) (calls b cs start).0 × ((calls b cs start).1.policy ≡ new)
unfolding start
Unusable-refuses b u cs =
    let (refused, shut) = calls-Shut b u cs start (record { empty = refl; broken = inl refl }) in
    (refused, shut.empty)
