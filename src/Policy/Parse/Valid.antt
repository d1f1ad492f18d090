-- ===== src/Policy/Parse/Valid.antt =====
-- A policy that was read from a file, or edited since, is well-formed.
use mathlib.Core.Logic.{inl, inr}
use cdk.Prelude.{
  ℕ, ◌≤◌, ◌<◌, ◌≡◌, refl, sym, subst, Bool, false, not, ◌||◌, List, [], ◌∷◌, ◌++◌, Text, length,
  length-append, any, text_eq, All, All-append, Result, ok, err, arith, Option-cases, Result-cases,
}
use cdk.Prelude.Split.{parse_number}
use cdk.Policy.{Label, Rule, deny, separate, approval_rule, rule_eq, Trust, Policy, new}
use cdk.Policy.Rules.{EditError, label, is_label_byte, add_rule, add_label}
use cdk.Policy.Parse.{lift, quorum_line}

-- No element of a list repeats an earlier one: `repeats later earlier`.
module _ {A : Type 0} (repeats : A → A → Bool) where
  abbrev pub IsDistinct : List A → Type 0
  IsDistinct [] = Unit {0}
  IsDistinct (x ∷ xs) = (any (λ y. repeats y x) xs ≡ false) × IsDistinct xs

  any-snoc : (p : A → Bool) (xs : List A) (y : A) → any p (xs ++ (y ∷ [])) ≡ (any p xs || p y)
  any-snoc p [] y = ground arith
  any-snoc p (x ∷ xs) y = ground (arith, any-snoc p xs y)

  IsDistinct-snoc :
      (xs : List A) (y : A)
      → IsDistinct xs
      → any (repeats y) xs ≡ false
      → IsDistinct (xs ++ (y ∷ []))
  IsDistinct-snoc [] y d h = (refl, tt)
  IsDistinct-snoc (x ∷ xs) y d h = (
    ground (arith, any-snoc (λ z. repeats z x) xs y, d.0),
    IsDistinct-snoc xs y d.1 (ground arith),
  )

abbrev pub IsLabel : Text → Type 0
IsLabel l = (0 < length l) × (length l ≤ 24) × (any (λ c. not (is_label_byte c)) l ≡ false)

abbrev pub RuleIsValid : Rule → Type 0
RuleIsValid (deny l) = IsLabel l
RuleIsValid (separate a b) = IsLabel a × IsLabel b
RuleIsValid (approval_rule l) = IsLabel l

abbrev pub QuorumIsValid : Label × ℕ → Type 0
QuorumIsValid q = IsLabel q.0 × (1 ≤ q.1) × (q.1 ≤ 8)

abbrev pub TrustIsValid : Trust → Type 0
TrustIsValid t = (length t.node ≤ 16) × (length t.object ≤ 16)

-- Every table is within its capacity, its entries are in range, and rules and quorums do not repeat.
pub record RulesAreValid (rs : List Rule) : Type 0 where
  pub room : length rs ≤ 16
  pub valid : All RuleIsValid rs
  pub distinct : IsDistinct rule_eq rs

pub record LabelsAreValid (ls : List (Text × Label)) : Type 0 where
  pub room : length ls ≤ 32
  pub valid : All (λ (e : Text × Label). (length e.0 ≤ 32) × IsLabel e.1) ls

pub record QuorumsAreValid (qs : List (Label × ℕ)) : Type 0 where
  pub room : length qs ≤ 8
  pub valid : All QuorumIsValid qs
  pub distinct : IsDistinct (λ (q r : Label × ℕ). text_eq r.0 q.0) qs

pub record TrustsAreValid (ts : List Trust) : Type 0 where
  pub room : length ts ≤ 16
  pub valid : All TrustIsValid ts

pub record IsWellFormed (p : Policy) : Type 0 where
  pub rules : RulesAreValid p.rules
  pub labels : LabelsAreValid p.labels
  pub quorums : QuorumsAreValid p.quorums
  pub timeout : (10 ≤ p.approval_timeout_s) × (p.approval_timeout_s ≤ 3600)
  pub trusts : TrustsAreValid p.trusts

pub new-IsWellFormed : IsWellFormed new
unfolding new
new-IsWellFormed = record {
  rules = record { room = omega arith; valid = tt; distinct = tt };
  labels = record { room = omega arith; valid = tt };
  quorums = record { room = omega arith; valid = tt; distinct = tt };
  timeout = omega arith;
  trusts = record { room = omega arith; valid = tt };
}

pub label-IsLabel : (s l : Text) → label s ≡ ok l → IsLabel l
unfolding label
label-IsLabel s l e = ground arith

pub lift-ok : {A : Type 0} (r : Result EditError A) (a : A) → lift r ≡ ok a → r ≡ ok a
lift-ok (ok b) a e = ground arith
lift-ok (err x) a e = cc

-- A rule, a label, a quorum and a trust that were added.
pub add_rule-IsWellFormed :
    (p p' : Policy) (r : Rule)
    → IsWellFormed p
    → RuleIsValid r
    → add_rule p r ≡ ok p'
    → IsWellFormed p'
unfolding add_rule
add_rule-IsWellFormed p p' r w v e =
    let fresh : any (rule_eq r) p.rules ≡ false = ground arith in
    let room : length p.rules < 16 = ground arith in
    let q : p' ≡ record p { rules = p.rules ++ (r ∷ []) } = ground arith in
    subst IsWellFormed (sym q) (record {
      rules = record {
        room = omega (arith, length-append p.rules (r ∷ []));
        valid = All-append RuleIsValid p.rules (r ∷ []) w.rules.valid (v, tt);
        distinct = IsDistinct-snoc rule_eq p.rules r w.rules.distinct fresh;
      };
      labels = w.labels;
      quorums = w.quorums;
      timeout = w.timeout;
      trusts = w.trusts;
    })

pub add_label-IsWellFormed :
    (p p' : Policy) (sel l : Text) → IsWellFormed p → add_label p sel l ≡ ok p' → IsWellFormed p'
unfolding add_label
add_label-IsWellFormed p p' sel l w e = elim (Result-cases (label l)) [
  | inr (x, q) ↦ absurd (no_label x q)
  | inl (l', q) ↦
      let short : length sel ≤ 32 = ground arith in
      let room : length p.labels < 32 = ground arith in
      let r : p' ≡ record p { labels = p.labels ++ ((sel, l') ∷ []) } = ground arith in
      subst IsWellFormed (sym r) (record {
        rules = w.rules;
        labels = record {
          room = omega (arith, length-append p.labels ((sel, l') ∷ []));
          valid =
              All-append (λ (e : Text × Label). (length e.0 ≤ 32) × IsLabel e.1) p.labels
                ((sel, l') ∷ []) w.labels.valid ((short, label-IsLabel l l' q), tt);
        };
        quorums = w.quorums;
        timeout = w.timeout;
        trusts = w.trusts;
      })
]
  where
    no_label : (x : EditError) → label l ≡ err x → ⊥
    no_label x q = ground arith

pub quorum_line-IsWellFormed :
    (p p' : Policy) (ws : List Text) → IsWellFormed p → quorum_line p ws ≡ ok p' → IsWellFormed p'
unfolding quorum_line
quorum_line-IsWellFormed p p' [] w e = cc
quorum_line-IsWellFormed p p' (l ∷ []) w e = cc
quorum_line-IsWellFormed p p' (l ∷ n ∷ m ∷ ws) w e = cc
quorum_line-IsWellFormed p p' (l ∷ n ∷ []) w e = elim (Option-cases (parse_number 255 n)) [
  | inl q ↦ ground arith
  | inr (n', q) ↦ elim (Result-cases (label l)) [
    | inr (x, r) ↦ ground arith
    | inl (l', r) ↦
        let low : 1 ≤ n' = ground arith in
        let high : n' ≤ 8 = ground arith in
        let fresh : any (λ q. text_eq q.0 l') p.quorums ≡ false = ground arith in
        let room : length p.quorums < 8 = ground arith in
        let s : p' ≡ record p { quorums = p.quorums ++ ((l', n') ∷ []) } = ground arith in
        subst IsWellFormed (sym s) (record {
          rules = w.rules;
          labels = w.labels;
          quorums = record {
            room = omega (arith, length-append p.quorums ((l', n') ∷ []));
            valid =
                All-append QuorumIsValid p.quorums ((l', n') ∷ []) w.quorums.valid
                  ((label-IsLabel l l' r, low, high), tt);
            distinct =
                IsDistinct-snoc (λ (q r : Label × ℕ). text_eq r.0 q.0) p.quorums (l', n')
                  w.quorums.distinct fresh;
          };
          timeout = w.timeout;
          trusts = w.trusts;
        })
  ]
]
