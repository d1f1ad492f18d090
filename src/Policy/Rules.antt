-- ===== src/Policy/Rules.antt =====
-- src/policy.rs: every rule violation in a set of grants, and the edits of rules and labels.
use cdk.Prelude.{
  ℕ, Bool, not, ◌&&◌, ◌||◌, List, [], ◌∷◌, ◌++◌, Text, length, any, filter, position, remove_at,
  map, ltb, leb, ◌==◌, if◌then◌else◌, text_eq, bit_and, Result, ok, ok_or, fail_if, ◌>>=◌, ◌>>◌,
}
use cdk.Policy.{
  Label, Rule, deny, separate, approval_rule, rule_eq, Grant, Violation, denied, separated,
  needs_approval, Policy, has, effect_mask, approval, max_label, max_rules, max_labels,
}

-- `g.mask != 0`
abbrev pub is_live : Grant → Bool
is_live g = not (g.mask == 0)

-- A handle that acts without the approval constraint.
abbrev pub acts_ungated : Grant → Bool
acts_ungated g = not (bit_and g.mask effect_mask == 0) && bit_and g.mask approval == 0

-- The distinct pids, in the order in which they are met.
unfoldable pub collect_pids : List ℕ → List Grant → List ℕ
collect_pids pids [] = pids
collect_pids pids (g ∷ gs) =
    collect_pids (if any (λ x. x == g.pid) pids then pids else pids ++ (g.pid ∷ [])) gs

-- The handles of one process that count.
abbrev pub mine : ℕ → List Grant → List Grant
mine pid = filter (λ g. g.pid == pid && is_live g)

unfoldable pub separate_loop : Policy → List Grant → Label → Label → List ℕ → List Violation
separate_loop p grants a b [] = []
separate_loop p grants a b (pid ∷ pids) =
    let rest = separate_loop p grants a b pids in
    if any (λ g. has p g a) (mine pid grants) && any (λ g. has p g b) (mine pid grants)
    then separated pid a b ∷ rest
    else rest

unfoldable pub rule_violations : Policy → List Grant → Rule → List Violation
unfolding collect_pids separate_loop
rule_violations p grants (deny l) =
    map (λ g. denied g.pid g.object l) (filter (λ g. is_live g && has p g l) grants)
rule_violations p grants (approval_rule l) =
    map (λ g. needs_approval g.pid g.object l) (filter (λ g. acts_ungated g && has p g l) grants)
rule_violations p grants (separate a b) = separate_loop p grants a b (collect_pids [] grants)

unfoldable pub violations_from : Policy → List Grant → List Rule → List Violation
unfolding rule_violations
violations_from p grants [] = []
violations_from p grants (r ∷ rs) = rule_violations p grants r ++ violations_from p grants rs

unfoldable pub violations : Policy → List Grant → List Violation
unfolding violations_from
violations p grants = violations_from p grants p.rules

-- Why an edit is refused.
pub data EditError : Type 0 where
  rule_present too_many_rules selector_too_long bad_label label_too_long label_present : EditError
  too_many_labels no_such_label no_such_rule broken existing_violation declined : EditError

unfoldable pub is_label_byte : ℕ → Bool
is_label_byte c =
    (leb b'0' c && leb c b'9')
    || (leb b'a' c && leb c b'z')
    || (leb b'A' c && leb c b'Z')
    || (c == b'-' || c == b'_' || c == b'.' || c == b':')

-- `label`: the bytes are checked before the length.
unfoldable pub label : Text → Result EditError Label
unfolding is_label_byte
label s = do
  fail_if (length s == 0 || any (λ c. not (is_label_byte c)) s) bad_label
  fail_if (not (leb (length s) max_label)) label_too_long
  ok s

unfoldable pub add_rule : Policy → Rule → Result EditError Policy
add_rule p r = do
  fail_if (any (rule_eq r) p.rules) rule_present
  fail_if (not (ltb (length p.rules) max_rules)) too_many_rules
  ok (record p { rules = p.rules ++ (r ∷ []) })

unfoldable pub add_label : Policy → Text → Text → Result EditError Policy
unfolding label
add_label p selector l = do
  fail_if (not (leb (length selector) 32)) selector_too_long
  l' ← label l
  fail_if (any (λ e. text_eq e.0 selector && text_eq e.1 l') p.labels) label_present
  fail_if (not (ltb (length p.labels) max_labels)) too_many_labels
  ok (record p { labels = p.labels ++ ((selector, l') ∷ []) })

unfoldable pub remove_label : Policy → Text → Text → Result EditError Policy
remove_label p selector l = do
  pos ← ok_or (position (λ e. text_eq e.0 selector && text_eq e.1 l) p.labels) no_such_label
  ok (record p { labels = remove_at p.labels pos })
