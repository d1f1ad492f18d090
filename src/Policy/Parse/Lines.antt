-- ===== src/Policy/Parse/Lines.antt =====
-- Every line of a policy file keeps the policy well-formed, and so does every edit.
use mathlib.Core.Logic.{inl, inr}
use cdk.Prelude.{
  ℕ, ◌+◌, ◌≤◌, ◌<◌, ◌≡◌, sym, subst, true, List, [], ◌∷◌, ◌++◌, Text, length, length-append,
  text_eq, All-append, ok, arith, Bool-cases, Option-cases, Result-cases,
}
use cdk.Prelude.Split.{codes, words, lines, parse_number, is_nonempty, trim}
use cdk.Agent.Permissions.{parse_permissions}
use cdk.Policy.{Rule, deny, separate, approval_rule, Trust, Policy, new}
use cdk.Policy.Rules.{label, add_rule, add_label}
use cdk.Policy.Parse.{
  lift, parse_rule, rule_of, timeout_line, require_line, trust_line, label_line, rule_line,
  apply_line, parse_line, parse_lines, parse, Line, quorum, timeout, require, trust, labels, rule,
  line_kind, content, fold_bits,
}
use cdk.Policy.Parse.Valid.{
  IsWellFormed, RuleIsValid, TrustIsValid, label-IsLabel, lift-ok, add_rule-IsWellFormed,
  add_label-IsWellFormed, quorum_line-IsWellFormed, new-IsWellFormed,
}

timeout_line-IsWellFormed :
    (p p' : Policy) (rest : Text) → IsWellFormed p → timeout_line p rest ≡ ok p' → IsWellFormed p'
unfolding timeout_line
timeout_line-IsWellFormed p p' rest w e = elim (Option-cases (parse_number 65535 (trim rest))) [
  | inl q ↦ ground arith
  | inr (n, q) ↦
      let low : 10 ≤ n = ground arith in
      let high : n ≤ 3600 = ground arith in
      let s : p' ≡ record p { approval_timeout_s = n } = ground arith in
      subst IsWellFormed (sym s) (record {
        rules = w.rules;
        labels = w.labels;
        quorums = w.quorums;
        timeout = (low, high);
        trusts = w.trusts;
      })
]

require_line-IsWellFormed :
    (p p' : Policy) (rest : Text) → IsWellFormed p → require_line p rest ≡ ok p' → IsWellFormed p'
unfolding require_line
require_line-IsWellFormed p p' rest w e =
    let s : p' ≡ record p { require_sealed_store = true } = ground arith in
    subst IsWellFormed (sym s) (record {
      rules = w.rules;
      labels = w.labels;
      quorums = w.quorums;
      timeout = w.timeout;
      trusts = w.trusts;
    })

trust_line-IsWellFormed :
    (p p' : Policy) (ws : List Text) → IsWellFormed p → trust_line p ws ≡ ok p' → IsWellFormed p'
unfolding trust_line
trust_line-IsWellFormed p p' [] w e = cc
trust_line-IsWellFormed p p' (a ∷ []) w e = cc
trust_line-IsWellFormed p p' (a ∷ b ∷ []) w e = cc
trust_line-IsWellFormed p p' (a ∷ b ∷ c ∷ d ∷ ws) w e = cc
trust_line-IsWellFormed p p' (node ∷ object ∷ perms ∷ []) w e =
    elim (Option-cases (parse_permissions perms)) [
      | inl q ↦ ground arith
      | inr (ps, q) ↦
          let t : Trust = record { node = node; object = object; mask = fold_bits 0 ps } in
          let n : length node ≤ 16 = ground arith in
          let o : length object ≤ 16 = ground arith in
          let room : length p.trusts < 16 = ground arith in
          let s : p' ≡ record p { trusts = p.trusts ++ (t ∷ []) } = ground arith in
          subst IsWellFormed (sym s) (record {
            rules = w.rules;
            labels = w.labels;
            quorums = w.quorums;
            timeout = w.timeout;
            trusts = record {
              room = omega (arith, length-append p.trusts (t ∷ []));
              valid = All-append TrustIsValid p.trusts (t ∷ []) w.trusts.valid ((n, o), tt);
            };
          })
    ]

rule_of-RuleIsValid : (ws : List Text) (r : Rule) → rule_of ws ≡ ok r → RuleIsValid r
unfolding rule_of
rule_of-RuleIsValid [] r e = absurd (cc)
rule_of-RuleIsValid (k ∷ []) r e = absurd (cc)
rule_of-RuleIsValid (k ∷ l ∷ []) r e = elim (Result-cases (label l)) [
  | inr (x, q) ↦ absurd (ground arith)
  | inl (l', q) ↦ elim (Bool-cases (text_eq k (codes "deny"))) [
    | inl d ↦ let s : r ≡ deny l' = ground arith in subst RuleIsValid (sym s) (label-IsLabel l l' q)
    | inr d ↦
        let s : r ≡ approval_rule l' = ground arith in
        subst RuleIsValid (sym s) (label-IsLabel l l' q)
  ]
]
rule_of-RuleIsValid (k ∷ a ∷ b ∷ more) r e = elim (Result-cases (label a)) [
  | inr (x, q) ↦ absurd (ground arith)
  | inl (a', q) ↦ elim (Result-cases (label b)) [
    | inr (x, q') ↦ absurd (ground arith)
    | inl (b', q') ↦
        let s : r ≡ separate a' b' = ground arith in
        subst RuleIsValid (sym s) (label-IsLabel a a' q, label-IsLabel b b' q')
  ]
]

rule_line-IsWellFormed :
    (p p' : Policy) (line : Text) → IsWellFormed p → rule_line p line ≡ ok p' → IsWellFormed p'
unfolding rule_line parse_rule
rule_line-IsWellFormed p p' line w e = elim (Result-cases (rule_of (words line))) [
  | inr (x, q) ↦ ground arith
  | inl (r, q) ↦
      let s : lift (add_rule p r) ≡ ok p' = ground arith in
      add_rule-IsWellFormed p p' r w (rule_of-RuleIsValid (words line) r q)
        (lift-ok (add_rule p r) p' s)
]

label_line-IsWellFormed :
    (p p' : Policy) (ws : List Text) → IsWellFormed p → label_line p ws ≡ ok p' → IsWellFormed p'
unfolding label_line
label_line-IsWellFormed p p' [] w e = cc
label_line-IsWellFormed p p' (a ∷ []) w e = cc
label_line-IsWellFormed p p' (a ∷ b ∷ c ∷ ws) w e = cc
label_line-IsWellFormed p p' (sel ∷ l ∷ []) w e =
    add_label-IsWellFormed p p' sel l w (lift-ok (add_label p sel l) p' e)

apply_line-IsWellFormed :
    (p p' : Policy) (k : Line) → IsWellFormed p → apply_line p k ≡ ok p' → IsWellFormed p'
unfolding apply_line
apply_line-IsWellFormed p p' (quorum rest) w e = quorum_line-IsWellFormed p p' (words rest) w e
apply_line-IsWellFormed p p' (timeout rest) w e = timeout_line-IsWellFormed p p' rest w e
apply_line-IsWellFormed p p' (require rest) w e = require_line-IsWellFormed p p' rest w e
apply_line-IsWellFormed p p' (trust rest) w e = trust_line-IsWellFormed p p' (words rest) w e
apply_line-IsWellFormed p p' (labels rest) w e = label_line-IsWellFormed p p' (words rest) w e
apply_line-IsWellFormed p p' (rule line) w e = rule_line-IsWellFormed p p' line w e

parse_line-IsWellFormed :
    (p p' : Policy) (line : Text) → IsWellFormed p → parse_line p line ≡ ok p' → IsWellFormed p'
unfolding parse_line
parse_line-IsWellFormed p p' line w e = elim (Bool-cases (is_nonempty (content line))) [
  | inr empty ↦ let s : p ≡ p' = ground arith in subst IsWellFormed s w
  | inl full ↦ apply_line-IsWellFormed p p' (line_kind (content line)) w (ground arith)
]

parse_lines-IsWellFormed :
    (ls : List Text) (i : ℕ) (p p' : Policy)
    → IsWellFormed p
    → parse_lines p i ls ≡ ok p'
    → IsWellFormed p'
unfolding parse_lines
parse_lines-IsWellFormed [] i p p' w e = let s : p ≡ p' = ground arith in subst IsWellFormed s w
parse_lines-IsWellFormed (line ∷ ls) i p p' w e = elim (Result-cases (parse_line p line)) [
  | inr (x, q) ↦ ground arith
  | inl (p1, q) ↦
      parse_lines-IsWellFormed ls (i + 1) p1 p' (parse_line-IsWellFormed p p1 line w q)
        (ground arith)
]

-- A policy that is read from a file is well-formed: rules, labels, quorums and trusts are within
-- their capacities; every label has 1 to 24 label bytes; no rule is there twice, and no label has two
-- quorums; a quorum is 1 to 8, the time-out 10 to 3600 seconds.
pub parse-IsWellFormed : (text : Text) (p : Policy) → parse text ≡ ok p → IsWellFormed p
unfolding parse
parse-IsWellFormed text p e = parse_lines-IsWellFormed (lines text) 0 new p new-IsWellFormed e
