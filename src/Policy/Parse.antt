-- ===== src/Policy/Parse.antt =====
-- src/policy.rs: Rule::parse and Policy::parse, the text of a policy file, with the names of nodes and
-- objects of link/src/peer.rs.
pub mod Valid
pub mod Lines
pub mod Print
mod Tests
use cdk.Prelude.{
  ℕ, suc, ◌+◌, Bool, true, false, not, ◌&&◌, ◌||◌, Option, none, some, List, [], ◌∷◌, ◌++◌, Text,
  length, any, leb, ltb, ◌==◌, if◌then◌else◌, text_eq, bit_or, Result, ok, err, ok_or, fail_if,
  ◌>>=◌, ◌>>◌,
}
use cdk.Prelude.Split.{
  codes, split, words, until, trim, lines, parse_number, strip_prefix, is_nonempty,
}
use cdk.Capability.{Permission}
use cdk.Agent.Permissions.{parse_permissions}
use cdk.Policy.{
  Label, Rule, deny, separate, approval_rule, Trust, Policy, new, bit, star, max_rules,
}
use cdk.Policy.Rules.{EditError, label, add_rule, add_label}

-- Why a line is refused.
pub data ParseError : Type 0 where
  edit : EditError → ParseError
  quorum_form quorum_range quorum_set too_many_quorums timeout_range require_form : ParseError
  trust_form node_name object_name permissions too_many_trusts label_form : ParseError
  rule_form too_many_words not_utf8 : ParseError

-- `map_err`
abbrev pub lift : {A : Type 0} → Result EditError A → Result ParseError A
lift (ok a) = ok a
lift (err e) = err (edit e)

-- The arms of the match on the first three words, then the test for a fourth: for one label there is
-- no third word, for two there is no fourth.
rule_of : List Text → Result ParseError Rule
rule_of (k ∷ l ∷ []) =
    if text_eq k (codes "deny")
    then (do l' ← lift (label l); ok (deny l'))
    else (if text_eq k (codes "approval")
        then (do l' ← lift (label l); ok (approval_rule l'))
        else err rule_form)
rule_of (k ∷ a ∷ b ∷ more) =
    if text_eq k (codes "separate") && not (text_eq a b)
    then (do
      a' ← lift (label a)
      b' ← lift (label b)
      fail_if (any (λ w. true) more) too_many_words
      ok (separate a' b'))
    else err rule_form
rule_of _ = err rule_form

unfoldable pub parse_rule : Text → Result ParseError Rule
unfolding rule_of words label
parse_rule s = rule_of (words s)

-- `valid_node_name` and `valid_object_name`
unfoldable pub valid_node_name : Text → Bool
valid_node_name s =
    not (length s == 0)
    && (leb (length s) 16
        && not (
            any
              (λ c. not (
                (leb b'a' c && leb c b'z')
                || ((leb b'0' c && leb c b'9') || (c == b'-' || c == b'_'))))
              s))

unfoldable pub valid_object_name : Text → Bool
valid_object_name s =
    not (length s == 0)
    && (leb (length s) 10
        && not (
            any
              (λ c. not (
                (leb b'a' c && leb c b'z')
                || ((leb b'A' c && leb c b'Z')
                    || ((leb b'0' c && leb c b'9') || (c == b'-' || (c == b'_' || c == b'.'))))))
              s))

abbrev pub in_range : ℕ → ℕ → ℕ → Bool
in_range lo hi n = leb lo n && leb n hi

-- parse().ok().filter(..).ok_or(..)
abbrev pub number_in : ℕ → ℕ → ℕ → Text → ParseError → Result ParseError ℕ
number_in max lo hi s e = do
  n ← ok_or (parse_number max s) e
  fail_if (not (in_range lo hi n)) e
  ok n

unfoldable pub quorum_line : Policy → List Text → Result ParseError Policy
unfolding label parse_number
quorum_line p (l ∷ n ∷ []) = do
  n' ← number_in 255 1 8 n quorum_range
  l' ← lift (label l)
  fail_if (any (λ q. text_eq q.0 l') p.quorums) quorum_set
  fail_if (not (ltb (length p.quorums) 8)) too_many_quorums
  ok (record p { quorums = p.quorums ++ ((l', n') ∷ []) })
quorum_line p _ = err quorum_form

unfoldable pub timeout_line : Policy → Text → Result ParseError Policy
unfolding parse_number trim
timeout_line p rest = do
  n ← number_in 65535 10 3600 (trim rest) timeout_range
  ok (record p { approval_timeout_s = n })

unfoldable pub require_line : Policy → Text → Result ParseError Policy
require_line p rest =
    if text_eq (trim rest) (codes "sealed-store")
    then ok (record p { require_sealed_store = true })
    else err require_form

abbrev fold_bits : ℕ → List Permission → ℕ
fold_bits m [] = m
fold_bits m (q ∷ qs) = fold_bits (bit_or m (bit q)) qs

unfoldable pub trust_line : Policy → List Text → Result ParseError Policy
unfolding valid_node_name valid_object_name bit parse_permissions
trust_line p (node ∷ object ∷ perms ∷ []) = do
  fail_if (not (valid_node_name node)) node_name
  fail_if (not (text_eq object star) && not (valid_object_name object)) object_name
  ps ← ok_or (parse_permissions perms) permissions
  fail_if (not (leb (length node) 16)) node_name
  fail_if (not (leb (length object) 16)) object_name
  fail_if (not (ltb (length p.trusts) 16)) too_many_trusts
  ok (record p {
    trusts = p.trusts ++ (record { node = node; object = object; mask = fold_bits 0 ps } ∷ []);
  })
trust_line p _ = err trust_form

unfoldable pub label_line : Policy → List Text → Result ParseError Policy
unfolding add_label
label_line p (sel ∷ l ∷ []) = lift (add_label p sel l)
label_line p _ = err label_form

unfoldable pub rule_line : Policy → Text → Result ParseError Policy
unfolding parse_rule add_rule
rule_line p line = do r ← parse_rule line; lift (add_rule p r)

-- The kind of a line, by the prefix that it has: the tests of `parse` in their order.
pub data Line : Type 0 where
  quorum timeout require trust labels rule : Text → Line

unfoldable pub line_kind : Text → Line
unfolding strip_prefix
line_kind line = elim (strip_prefix (codes "quorum ") line) [
  | some rest ↦ quorum rest
  | none ↦ elim (strip_prefix (codes "approval-timeout ") line) [
    | some rest ↦ timeout rest
    | none ↦ elim (strip_prefix (codes "require ") line) [
      | some rest ↦ require rest
      | none ↦ elim (strip_prefix (codes "trust ") line) [
        | some rest ↦ trust rest
        | none ↦ elim (strip_prefix (codes "label ") line) [
          | some rest ↦ labels rest
          | none ↦ rule line
        ]
      ]
    ]
  ]
]

unfoldable pub apply_line : Policy → Line → Result ParseError Policy
unfolding quorum_line timeout_line require_line trust_line label_line rule_line words
apply_line p (quorum rest) = quorum_line p (words rest)
apply_line p (timeout rest) = timeout_line p rest
apply_line p (require rest) = require_line p rest
apply_line p (trust rest) = trust_line p (words rest)
apply_line p (labels rest) = label_line p (words rest)
apply_line p (rule line) = rule_line p line

-- line.split('#').next().trim()
unfoldable pub content : Text → Text
unfolding until trim
content line = trim (until (λ c. c == b'#') line)

unfoldable pub parse_line : Policy → Text → Result ParseError Policy
unfolding content line_kind apply_line
parse_line p line =
    if not (is_nonempty (content line)) then ok p else apply_line p (line_kind (content line))

-- An error carries the number of its line.
abbrev at_line {ℓ} : {A : Type ℓ} → ℕ → Result ParseError A → Result (ℕ × ParseError) A
at_line i (ok a) = ok a
at_line i (err e) = err (i, e)

unfoldable pub parse_lines : Policy → ℕ → List Text → Result (ℕ × ParseError) Policy
unfolding parse_line
parse_lines p i [] = ok p
parse_lines p i (line ∷ ls) = do p' ← at_line (i + 1) (parse_line p line); parse_lines p' (i + 1) ls

unfoldable pub parse : Text → Result (ℕ × ParseError) Policy
unfolding parse_lines lines
parse text = parse_lines new 0 (lines text)
