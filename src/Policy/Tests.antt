-- ===== src/Policy/Tests.antt =====
-- Runs of the policy rules, and the theorems at concrete policies.
use cdk.Prelude.{
  apart, ℕ, ◌+◌, ◌^◌, ◌<◌, ◌≡◌, ◌≢◌, ◌↔◌, inl, inr, refl, ap, sym, subst, ◌∙◌, true, false, ◌||◌,
  none, List, [], ◌∷◌, ◌++◌, Text, arith, In, any, length, text_eq,
}
use cdk.Prelude.Bits.{test_bit, test_bit-zero, test_bit-pow}
use cdk.Capability.{Capability, read, send_message, requires_approval, tag, perm_eq, has_permission}
use cdk.Agent.Attenuate.{Attenuates}
use cdk.Policy.{
  Label, deny, Grant, denied, Policy, greatest, has, labels_of, automatic, add_selected, add_if,
  add, strip_prefix, add_peer, quorum_for,
}
use cdk.Policy.Rules.{violations, violations_from, rule_violations}
use cdk.Policy.Safety.{IsSafe, violations_nil_iff}
use cdk.Policy.Derive.{Derives, Kept, derive-keeps-safe, derive_from_empty}
use cdk.Policy.Labels.{labels_lost}

abbrev secret : Label
secret = b's' ∷ []

abbrev object : Text
object = b'o' ∷ []

abbrev other : Text
other = b'p' ∷ []

abbrev deny_secret : Policy
deny_secret = record {
  rules = deny secret ∷ [];
  labels = (object, secret) ∷ [];
  quorums = (secret, 3) ∷ [];
  approval_timeout_s = 300;
  trusts = [];
  require_sealed_store = false;
}

abbrev held_on : Text → ℕ → Grant
held_on o m = record { pid = 1; object = o; kind = []; flags = 0; mask = m }

-- A live handle on the denied label is found; one on another object is not.
violations_run :
    violations deny_secret (held_on other 2 ∷ held_on object 2 ∷ []) ≡ denied 1 object secret ∷ []
unfolding text_eq violations violations_from rule_violations has labels_of automatic add_selected
    add_if add strip_prefix
violations_run = refl

quorum_run : quorum_for deny_secret (secret ∷ []) ≡ 3
unfolding quorum_for greatest text_eq
quorum_run = refl

violations_nil_iff_example :
    (violations deny_secret (held_on object 2 ∷ []) ≡ [])
    ↔ IsSafe deny_secret (held_on object 2 ∷ [])
violations_nil_iff_example = violations_nil_iff deny_secret (held_on object 2 ∷ [])

abbrev parent : Capability
parent = record {
  object_id = object;
  permissions = read ∷ send_message ∷ requires_approval ∷ [];
  proof = none;
}

abbrev child : Capability
child = record {
  object_id = object;
  permissions = send_message ∷ requires_approval ∷ [];
  proof = none;
}

child-Attenuates : Attenuates parent child (2 ^ 4)
unfolding has_permission perm_eq tag test_bit
child-Attenuates = record {
  object = refl;
  unsigned = refl;
  asked = λ p ne. ground arith;
  held = λ p ne h. ground arith;
  gated = refl;
}

abbrev before : List Grant
before = held_on other 2 ∷ []

nothing_denied : violations deny_secret before ≡ []
unfolding text_eq violations violations_from rule_violations has labels_of automatic add_selected
    add_if add strip_prefix add_peer
nothing_denied = refl

bit_seven : test_bit 2 7 ≡ false
unfolding test_bit
bit_seven = refl

other-Derives : Derives (held_on other 2) (held_on other 0)
other-Derives = record {
  pid = refl;
  object = refl;
  kind = refl;
  flags = refl;
  weaker = λ i ne h. absurd (apart (test_bit-zero i) h);
  gated = λ h. absurd (apart bit_seven h);
}

Kept-before : (k : Grant) → In k (held_on other 0 ∷ []) → Kept before k
Kept-before k (inl e) = inr (
  held_on other 2,
  inl refl,
  omega arith,
  subst (Derives (held_on other 2)) (sym e) other-Derives,
)
Kept-before k (inr m) = absurd m

derive-keeps-safe_example : violations deny_secret (held_on other 0 ∷ []) ≡ []
derive-keeps-safe_example =
    derive-keeps-safe deny_secret before (held_on other 0 ∷ []) nothing_denied Kept-before

object_is_secret : has deny_secret (held_on object 0) secret ≡ true
unfolding text_eq has labels_of automatic add_selected add_if add strip_prefix add_peer
object_is_secret = refl

empty-Derives : Derives (held_on object 0) (held_on object (2 ^ 7))
empty-Derives = record {
  pid = refl;
  object = refl;
  kind = refl;
  flags = refl;
  weaker = λ i ne h. absurd (apart (test_bit-pow 7 i ∙ ground (arith)) h);
  gated = λ h. absurd (apart (test_bit-zero 7) h);
}

derive_from_empty_example :
    (violations deny_secret (held_on object 0 ∷ []) ≡ [])
    × (violations deny_secret (held_on object 0 ∷ held_on object (2 ^ 7) ∷ []) ≢ [])
derive_from_empty_example =
    derive_from_empty deny_secret (held_on object 0) (held_on object (2 ^ 7)) secret refl refl
      object_is_secret empty-Derives refl

object_has_room : length (labels_of deny_secret object [] 0) < 12
unfolding text_eq labels_of automatic add_selected add_if add strip_prefix add_peer
object_has_room = omega arith

object_chosen : (text_eq object object || text_eq object []) ≡ true
unfolding text_eq
object_chosen = refl

-- Twelve labels for every tool, and then one for the object `o`.
abbrev numbered : ℕ → Text × Label
numbered n = (object, (b'0' + n) ∷ [])

abbrev twelve : List (Text × Label)
twelve =
    numbered 0
    ∷ numbered 1
    ∷ numbered 2
    ∷ numbered 3
    ∷ numbered 4
    ∷ numbered 5
    ∷ numbered 6
    ∷ numbered 7
    ∷ numbered 8
    ∷ numbered 9
    ∷ numbered 10
    ∷ numbered 11
    ∷ []

abbrev crowded : Policy
crowded = record deny_secret { labels = twelve ++ ((object, secret) ∷ []) }

twelve_fill : length (add_selected object [] (automatic [] 0) twelve) ≡ 12
unfolding text_eq automatic add_selected add_if add strip_prefix add_peer
twelve_fill = refl

twelve_lack : any (λ x. text_eq x secret) (add_selected object [] (automatic [] 0) twelve) ≡ false
unfolding text_eq automatic add_selected add_if add strip_prefix add_peer
twelve_lack = refl

on_object :
    (g : Grant) → In g (held_on object 2 ∷ []) → (g.object ≡ object) × (g.kind ≡ []) × (g.flags ≡ 0)
on_object g (inl e) =
    (ap (λ (k : Grant). k.object) e, ap (λ (k : Grant). k.kind) e, ap (λ (k : Grant). k.flags) e)
on_object g (inr m) = absurd m

-- The handle on `o` that the policy of `violations_run` denies passes once twelve labels come first.
labels_lost_example : violations crowded (held_on object 2 ∷ []) ≡ []
labels_lost_example =
    labels_lost crowded object [] 0 twelve ((object, secret) ∷ []) secret refl refl twelve_fill
      twelve_lack (held_on object 2 ∷ []) on_object
