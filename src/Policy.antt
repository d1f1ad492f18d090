-- ===== src/Policy.antt =====
-- src/policy.rs: rules, grants and labels, and the violations of a set of grants. Texts are byte
-- lists; the bounded vectors of the code refuse an element once they are full.
pub mod Rules
pub mod Labels
pub mod Parse
pub mod Safety
pub mod Derive
pub mod Reach
pub mod Review
mod Tests
use cdk.Prelude.{
  ℕ, ◌+◌, ◌^◌, ◌<◌, Bool, true, false, not, ◌&&◌, ◌||◌, Option, none, some, List, [], ◌∷◌, ◌++◌,
  Text, length, any, find, filter, position, remove_at, take, drop, map, max, ltb, leb, ◌==◌,
  if◌then◌else◌, text_eq, bit_and, bit_or, Result, ok, err, ok_or, fail_if, ◌>>=◌, ◌>>◌,
}
use cdk.Capability.{
  Permission, read, write, execute, send_message, receive_message, delete, requires_approval, tag,
}

abbrev pub max_label : ℕ
max_label = 24

abbrev pub max_rules : ℕ
max_rules = 16

abbrev pub max_labels : ℕ
max_labels = 32

abbrev pub Label : Type 0
Label = Text

unfoldable pub bit : Permission → ℕ
bit read = 2 ^ 1
bit write = 2 ^ 2
bit execute = 2 ^ 3
bit send_message = 2 ^ 4
bit receive_message = 2 ^ 5
bit delete = 2 ^ 6
bit requires_approval = 2 ^ 7

-- Permissions that make something happen.
unfoldable pub effect_mask : ℕ
unfolding bit
effect_mask = bit_or (bit_or (bit_or (bit execute) (bit send_message)) (bit write)) (bit delete)

unfoldable pub approval : ℕ
unfolding bit
approval = bit requires_approval

pub data Rule : Type 0 where
  deny : Label → Rule
  separate : Label → Label → Rule
  approval_rule : Label → Rule

-- The derived `==` of rules.
unfoldable pub rule_eq : Rule → Rule → Bool
rule_eq (deny l) (deny m) = text_eq l m
rule_eq (separate a b) (separate c d) = text_eq a c && text_eq b d
rule_eq (approval_rule l) (approval_rule m) = text_eq l m
rule_eq _ _ = false

pub record Grant : Type 0 where
  pub pid : ℕ
  pub object : Text
  pub kind : Text
  pub flags : ℕ
  pub mask : ℕ

-- `Grant::new` keeps the first bytes of a name that is too long.
unfoldable pub new_grant : ℕ → Text → Text → ℕ → ℕ → Grant
new_grant pid object kind flags mask = record {
  pid = pid;
  object = take 16 object;
  kind = take 32 kind;
  flags = flags;
  mask = mask;
}

pub data Violation : Type 0 where
  denied : ℕ → Text → Label → Violation
  separated : ℕ → Label → Label → Violation
  needs_approval : ℕ → Text → Label → Violation

pub record Trust : Type 0 where
  pub node : Text
  pub object : Text
  pub mask : ℕ

pub record Policy : Type 0 where
  pub rules : List Rule
  pub labels : List (Text × Label)
  pub quorums : List (Label × ℕ)
  pub approval_timeout_s : ℕ
  pub trusts : List Trust
  pub require_sealed_store : Bool

unfoldable pub new : Policy
new = record {
  rules = [];
  labels = [];
  quorums = [];
  approval_timeout_s = 300;
  trusts = [];
  require_sealed_store = false;
}

-- b"*"
abbrev pub star : Text
star = b'*' ∷ []

-- b"policy"
abbrev pub policy_quorum_label : Text
policy_quorum_label = b'p' ∷ b'o' ∷ b'l' ∷ b'i' ∷ b'c' ∷ b'y' ∷ []

trust_mask : Text → Text → ℕ → List Trust → ℕ
trust_mask node object m [] = m
trust_mask node object m (t ∷ ts) =
    trust_mask node object
      (if text_eq t.node node && (text_eq t.object object || text_eq t.object star)
        then bit_or m t.mask
        else m)
      ts

unfoldable pub trusted : Policy → Text → Text → ℕ
unfolding trust_mask
trusted p node object = trust_mask node object 0 p.trusts

-- `max().unwrap_or(1)` over the quorums that a test selects.
unfoldable pub greatest : (Label → Bool) → List (Label × ℕ) → Option ℕ
greatest test [] = none
greatest test ((l, n) ∷ qs) =
    let rest = greatest test qs in
    if test l then some (elim rest [ none ↦ n | some m ↦ max n m ]) else rest

abbrev or_one : Option ℕ → ℕ
or_one none = 1
or_one (some n) = n

unfoldable pub quorum_for : Policy → List Label → ℕ
unfolding greatest
quorum_for p labels = or_one (greatest (λ l. any (λ x. text_eq x l) labels) p.quorums)

unfoldable pub policy_quorum : Policy → ℕ
policy_quorum p = elim (find (λ q. text_eq q.0 policy_quorum_label) p.quorums) [
  | none ↦ 1
  | some q ↦ q.1
]

unfoldable pub max_quorum : Policy → ℕ
unfolding greatest
max_quorum p = or_one (greatest (λ _. true) p.quorums)

-- b"tool:", b"model:", b"peer:" and the automatic labels.
abbrev tool_word : Text
tool_word = b't' ∷ b'o' ∷ b'o' ∷ b'l' ∷ []

abbrev model_word : Text
model_word = b'm' ∷ b'o' ∷ b'd' ∷ b'e' ∷ b'l' ∷ []

abbrev peer_word : Text
peer_word = b'p' ∷ b'e' ∷ b'e' ∷ b'r' ∷ []

abbrev credential_word : Text
credential_word = b'c' ∷ b'r' ∷ b'e' ∷ b'd' ∷ b'e' ∷ b'n' ∷ b't' ∷ b'i' ∷ b'a' ∷ b'l' ∷ []

abbrev remote_word : Text
remote_word = b'r' ∷ b'e' ∷ b'm' ∷ b'o' ∷ b't' ∷ b'e' ∷ []

abbrev colon : Text
colon = b':' ∷ []

unfoldable pub strip_prefix : Text → Text → Option Text
strip_prefix [] s = some s
strip_prefix (c ∷ p) [] = none
strip_prefix (c ∷ p) (d ∷ s) = let rest = strip_prefix p s in if c == d then rest else none

abbrev pub is_some {ℓ} : {A : Type ℓ} → Option A → Bool
is_some none = false
is_some (some a) = true

-- `split('/').next()`
unfoldable pub first_part : Text → Text
first_part [] = []
first_part (c ∷ s) = let rest = first_part s in if c == b'/' then [] else c ∷ rest

-- The closure `add`: a label that is there already, is too long, or finds the vector full, is not
-- added.
unfoldable pub add : List Label → Text → List Label
add out l =
    if not (any (λ x. text_eq x l) out) && (leb (length l) max_label && ltb (length out) 12)
    then out ++ (l ∷ [])
    else out

unfoldable pub add_if : Bool → List Label → Text → List Label
unfolding add
add_if test out l = if test then add out l else out

-- `peer` and `peer:<node>`; the second only if it fits a label.
unfoldable pub add_peer : Option Text → List Label → List Label
unfolding add add_if first_part
add_peer none out = out
add_peer (some rest) out =
    let l = peer_word ++ colon ++ first_part rest in
    add_if (leb (length l) max_label) (add out peer_word) l

unfoldable pub add_selected : Text → Text → List Label → List (Text × Label) → List Label
unfolding add_if
add_selected object kind out [] = out
add_selected object kind out ((sel, l) ∷ ls) =
    add_selected object kind (add_if (text_eq sel object || text_eq sel kind) out l) ls

abbrev pub flag_credential : ℕ
flag_credential = 1

abbrev pub flag_remote : ℕ
flag_remote = 2

-- The labels that an object has by itself.
unfoldable pub automatic : Text → ℕ → List Label
unfolding add_if add_peer strip_prefix
automatic kind flags =
    let out1 = add_if (is_some (strip_prefix (tool_word ++ colon) kind)) [] tool_word in
    let out2 = add_if (is_some (strip_prefix (model_word ++ colon) kind)) out1 model_word in
    let out3 = add_if (not (bit_and flags flag_credential == 0)) out2 credential_word in
    let out4 = add_if (not (bit_and flags flag_remote == 0)) out3 remote_word in
    add_peer (strip_prefix (peer_word ++ colon) kind) out4

unfoldable pub labels_of : Policy → Text → Text → ℕ → List Label
unfolding automatic add_selected
labels_of p object kind flags = add_selected object kind (automatic kind flags) p.labels

unfoldable pub has : Policy → Grant → Label → Bool
unfolding labels_of
has p g l = any (λ x. text_eq x l) (labels_of p g.object g.kind g.flags)
