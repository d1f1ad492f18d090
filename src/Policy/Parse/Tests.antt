-- ===== src/Policy/Parse/Tests.antt =====
-- Policy files of the source's tests.
use cdk.Prelude.{◌≡◌, refl, [], ◌∷◌, Text, ok, err, text_eq, false}
use cdk.Prelude.Split.{codes}
use cdk.Capability.{perm_eq}
use cdk.Policy.{Policy, new, deny, rule_eq}
use cdk.Policy.Parse.{parse, quorum_set}
use cdk.Policy.Parse.Valid.{IsWellFormed}
use cdk.Policy.Parse.Lines.{parse-IsWellFormed}

abbrev file : Text
file = codes "# demo\ndeny secret\r\nlabel obj-1 secret\nquorum secret 2\n\napproval-timeout 60\n"

abbrev read : Policy
read = record {
  rules = deny (codes "secret") ∷ [];
  labels = (codes "obj-1", codes "secret") ∷ [];
  quorums = (codes "secret", 2) ∷ [];
  approval_timeout_s = 60;
  trusts = [];
  require_sealed_store = false;
}

parses : parse file ≡ ok read
unfolding parse new text_eq rule_eq
parses = refl

-- The second quorum of a label is refused, with the number of its line.
refuses : parse (codes "quorum a 2\nquorum a 3") ≡ err (2, quorum_set)
unfolding parse new text_eq rule_eq
refuses = refl

parse-IsWellFormed_example : IsWellFormed read
parse-IsWellFormed_example = parse-IsWellFormed file read parses

-- A trust rule with `all,approval` has no approval bit.
ungated_trust :
    parse (codes "trust node-a * all,approval")
    ≡ ok (record new {
      trusts = record { node = codes "node-a"; object = codes "*"; mask = 126 } ∷ [];
    })
unfolding parse new text_eq rule_eq perm_eq
ungated_trust = refl
