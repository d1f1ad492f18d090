-- ===== src/Policy/Review.antt =====
-- src/policy.rs: the kernel's policy state and the review of grants and edits. The operator's answer,
-- the boot file and the handles held are arguments; what is printed is left out, and of an
-- audit record the decision and its reason are kept.
pub mod Flow
pub mod Invariant
pub mod Load
pub mod Verdict
pub mod Unusable
mod Tests
use cdk.Prelude.{
  ℕ, ◌+◌, Bool, true, false, not, ◌&&◌, ◌||◌, Option, none, some, List, [], ◌∷◌, ◌++◌, Text, length,
  any, filter, get_elem?, remove_at, ltb, leb, ◌==◌, if◌then◌else◌, text_eq, Result, ok, err, ok_or,
  fail_if, ◌>>=◌, ◌>>◌,
}
use cdk.Policy.{
  Label, Rule, Grant, Violation, denied, separated, needs_approval, Policy, new, max_quorum,
}
use cdk.Policy.Rules.{
  violations, EditError, no_such_rule, broken, existing_violation, declined, add_rule, add_label,
  remove_label,
}
use cdk.Policy.Parse.{ParseError, not_utf8, parse}
use cdk.Prelude.Bytes.{is_utf8}
use mathlib.Core.Option

pub record State : Type 0 where
  pub policy : Policy
  pub review : Bool
  pub broken : Bool
  pub loaded : Bool
  pub staged : Option (List (ℕ × Text × Text))

-- The initial value of `STATE`.
unfoldable pub start : State
start = record { policy = new; review = true; broken = false; loaded = false; staged = none }

-- `refuse_reason`
pub data Reason : Type 0 where
  policy_broken violation refused_by_operator : Reason

pub data Event : Type 0 where
  policy_applied : Event
  policy_refused : Reason → Event

-- What the boot provides: the lockdown, the bytes of `policy.rules` if the ramdisk has it, and the
-- number of operator keys that are pinned.
pub record Boot : Type 0 where
  pub lockdown : Bool
  pub file : Option Text
  pub operator_count : ℕ

-- from_utf8(file.data) and then `parse`
unfoldable pub parse_file : Text → Result (ℕ × ParseError) Policy
unfolding parse is_utf8
parse_file file = if is_utf8 file then parse file else err (0, not_utf8)

abbrev pub parsed : Boot → Option (Result (ℕ × ParseError) Policy)
parsed b = Option.map parse_file b.file

-- `signed_mode`
abbrev pub signed_mode : Boot → Bool
signed_mode b = not (b.operator_count == 0)

load_parsed : Boot → State → Option (Result (ℕ × ParseError) Policy) → State × List Event
load_parsed b st none = (st, [])
load_parsed b st (some (err e)) = (record st { broken = true }, policy_refused policy_broken ∷ [])
load_parsed b st (some (ok p)) =
    if signed_mode b && ltb b.operator_count (max_quorum p)
    then (record st { broken = true }, policy_refused policy_broken ∷ [])
    else (record st { policy = p }, policy_applied ∷ [])

unfoldable pub load_boot_policy : Boot → State → State × List Event
unfolding load_parsed
load_boot_policy b st =
    if st.loaded
    then (st, [])
    else (if b.lockdown
        then (record st { loaded = true; broken = true }, [])
        else load_parsed b (record st { loaded = true }) (parsed b))

-- How the operators answer one question: by signatures where keys are pinned, else by the console.
pub record Answer : Type 0 where
  pub signatures : Bool
  pub typed : Bool

unfoldable pub confirm : Boot → State → Answer → Bool
confirm b st a = if signed_mode b then a.signatures else (if not st.review then true else a.typed)

-- The derived `==` of violations.
unfoldable pub violation_eq : Violation → Violation → Bool
violation_eq (denied p o l) (denied q u m) = p == q && (text_eq o u && text_eq l m)
violation_eq (separated p a b) (separated q c d) = p == q && (text_eq a c && text_eq b d)
violation_eq (needs_approval p o l) (needs_approval q u m) = p == q && (text_eq o u && text_eq l m)
violation_eq _ _ = false

-- The violations of the grants after a change that were none before it.
unfoldable pub fresh : Policy → List Grant → List Grant → List Violation
unfolding violation_eq
fresh p before after =
    filter (λ v. not (any (violation_eq v) (violations p before))) (violations p after)

abbrev pub is_empty : {A : Type 0} → List A → Bool
is_empty [] = true
is_empty (x ∷ xs) = false

-- `review_grants`: whether the proposed grants may be applied.
unfoldable pub review_grants :
    Boot → Answer → List Grant → List Grant → State → Bool × State × List Event
unfolding load_boot_policy confirm fresh
review_grants b a before proposed st0 =
    let (st, loading) = load_boot_policy b st0 in
    let after = before ++ proposed in
    if st.broken
    then (false, st, loading ++ (policy_refused policy_broken ∷ []))
    else (if not (is_empty (fresh st.policy before after))
        then (false, st, loading ++ (policy_refused violation ∷ []))
        else (if not (confirm b st a)
            then (false, st, loading ++ (policy_refused refused_by_operator ∷ []))
            else (true, st, loading ++ (policy_applied ∷ []))))

pub data Edit : Type 0 where
  edit_add_rule : Rule → Edit
  edit_remove_rule : ℕ → Edit
  edit_add_label : Text → Text → Edit
  edit_remove_label : Text → Text → Edit

remove_rule : Policy → ℕ → Result EditError Policy
remove_rule p i = do
  fail_if (leb (length p.rules) i) no_such_rule
  ok (record p { rules = remove_at p.rules i })

-- The policy that an edit proposes.
unfoldable pub candidate : Policy → Edit → Result EditError Policy
unfolding remove_rule
candidate p (edit_add_rule r) = add_rule p r
candidate p (edit_remove_rule i) = remove_rule p i
candidate p (edit_add_label sel l) = add_label p sel l
candidate p (edit_remove_label sel l) = remove_label p sel l

decide :
    Boot → Answer → List Grant → State → Policy → Result EditError (Unit {0}) × State × List Event
decide b a grants st p =
    if not (is_empty (violations p grants))
    then (err existing_violation, st, policy_refused violation ∷ [])
    else (if not (confirm b st a)
        then (err declined, st, policy_refused refused_by_operator ∷ [])
        else (ok tt, record st { policy = p }, policy_applied ∷ []))

edit_loaded :
    Boot
    → Answer
    → List Grant
    → State
    → Result EditError Policy
    → Result EditError (Unit {0}) × State × List Event
unfolding decide
edit_loaded b a grants st (err e) = (err e, st, [])
edit_loaded b a grants st (ok p) = decide b a grants st p

unfoldable pub edit :
    Boot → Answer → List Grant → Edit → State → Result EditError (Unit {0}) × State × List Event
unfolding load_boot_policy candidate edit_loaded
edit b a grants e st0 =
    let (st, loading) = load_boot_policy b st0 in
    let (r, st', events) = edit_loaded b a grants st (candidate st.policy e) in
    if st.broken then (err broken, st, loading) else (r, st', loading ++ events)

pub data StageError : Type 0 where
  review_pinned batch_open no_batch object_too_long perms_too_long batch_full : StageError

unfoldable pub set_review : Boot → Bool → State → Result StageError (State × List Event)
set_review b on st = do
  fail_if (not on && signed_mode b) review_pinned
  ok (record st { review = on }, policy_applied ∷ [])

unfoldable pub begin : State → Result StageError State
begin st = elim st.staged [
  | some batch ↦ err batch_open
  | none ↦ ok (record st { staged = some [] })
]

unfoldable pub stage : ℕ → Text → Text → State → Result StageError (ℕ × State)
stage pid object perms st = do
  batch ← ok_or st.staged no_batch
  fail_if (not (leb (length object) 32)) object_too_long
  fail_if (not (leb (length perms) 48)) perms_too_long
  fail_if (not (ltb (length batch) 16)) batch_full
  ok (length batch + 1, record st { staged = some (batch ++ ((pid, object, perms) ∷ [])) })

unfoldable pub take_batch : State → Option (List (ℕ × Text × Text)) × State
take_batch st = (st.staged, record st { staged = none })
