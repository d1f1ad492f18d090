-- ===== src/Policy/Review/Tests.antt =====
-- Runs of the review, and the theorems at concrete reviews.
use cdk.Prelude.{
  All, ℕ, ◌<◌, ◌≡◌, ◌≢◌, ◌↔◌, ◌⊎◌, inl, refl, true, false, some, List, [], ◌∷◌, ◌++◌, Text, arith,
  In, subst, sym, text_eq,
}
use cdk.Prelude.Bits.{test_bit, bit_not}
use cdk.Policy.{
  Grant, new, has, labels_of, automatic, add_selected, add_if, add, strip_prefix, add_peer,
  greatest, max_quorum, approval, effect_mask, bit,
}
use cdk.Policy.Rules.{violations, violations_from, rule_violations}
use cdk.Policy.Reach.{
  Change, diff, diff_loop, newly, union, ungated, fresh_gate, change_of, reaches,
}
use cdk.Policy.Reach.Shown.{diff_covers, diff_sound}
use cdk.Prelude.Split.{codes}
use cdk.Prelude.Bytes.{is_utf8}
use cdk.Policy.Parse.{parse}
use cdk.Policy.Review.{
  State, Boot, parse_file, Answer, start, review_grants, load_boot_policy, confirm, fresh,
  violation_eq, edit_remove_rule, policy_refused, violation, policy_applied,
}
use cdk.Policy.Review.Load.{Loads, NoneNew, Agrees}
use cdk.Policy.Review.Verdict.{review_grants_lem}
use cdk.Policy.Review.Unusable.{
  Call, review, change, switch, open_batch, take, calls, Unusable-refuses,
}
use cdk.Policy.Review.Invariant.{System, booted, stepped, IsSound, reachable-IsSound, granted}

-- The policy file of the tests: object `o` has the label `s`, which no agent may reach.
abbrev file : Text
file = codes "# demo\nlabel o s\n  deny s # nobody\n"

abbrev boot : Boot
boot = record { lockdown = false; file = some file; operator_count = 0 }

abbrev yes_typed : Answer
yes_typed = record { signatures = false; typed = true }

abbrev reader : Text → ℕ → Grant
reader o m = record { pid = 1; object = o; kind = []; flags = 0; mask = m }

abbrev allowed : List Grant
allowed = reader (b'p' ∷ []) 2 ∷ []

-- A grant on the denied object is refused although the operator types `y`.
denied_run :
    review_grants boot yes_typed [] (reader (b'o' ∷ []) 2 ∷ []) start
    ≡ (false, (load_boot_policy boot start).0, policy_applied ∷ policy_refused violation ∷ [])
unfolding new parse_file parse is_utf8 text_eq review_grants load_boot_policy start fresh
    violation_eq max_quorum greatest violations violations_from rule_violations has labels_of
    automatic add_selected add_if add strip_prefix add_peer
denied_run = refl

allowed_run : (review_grants boot yes_typed [] allowed start).0 ≡ true
unfolding new parse_file parse is_utf8 text_eq review_grants load_boot_policy start fresh confirm
    violation_eq max_quorum greatest violations violations_from rule_violations has labels_of
    automatic add_selected add_if add strip_prefix add_peer
allowed_run = refl

review_grants_lem_example :
    (st' : State) × Loads boot start st'
    × ((review_grants boot yes_typed [] allowed start).1 ≡ st')
    × (((review_grants boot yes_typed [] allowed start).0 ≡ true) ↔ (
        (st'.broken ≡ false) × NoneNew st'.policy [] ([] ++ allowed) × Agrees boot st' yes_typed))
review_grants_lem_example = review_grants_lem boot yes_typed [] allowed start

abbrev booted_state : State
booted_state = (load_boot_policy boot start).0

booted_run : (review_grants boot yes_typed [] allowed booted_state).0 ≡ true
unfolding new parse_file parse is_utf8 text_eq review_grants load_boot_policy start fresh confirm
    violation_eq max_quorum greatest violations violations_from rule_violations has labels_of
    automatic add_selected add_if add strip_prefix add_peer
booted_run = refl

abbrev after_grant : System
after_grant = record {
  st = (review_grants boot yes_typed [] allowed booted_state).1;
  grants = [] ++ allowed;
}

reachable-IsSound_example : IsSound after_grant
reachable-IsSound_example = reachable-IsSound boot after_grant (
    stepped (record { st = booted_state; grants = [] }) after_grant booted
      (granted yes_typed allowed (record { st = booted_state; grants = [] }) booted_run))

-- A lockdown: a grant, a rule and a switch of the review are asked for, and a batch is staged.
abbrev locked_boot : Boot
locked_boot = record { lockdown = true; file = some file; operator_count = 0 }

abbrev attempts : List Call
attempts =
    open_batch
    ∷ review yes_typed [] allowed
    ∷ switch false
    ∷ change yes_typed allowed (edit_remove_rule 0)
    ∷ review yes_typed [] allowed
    ∷ take
    ∷ []

Unusable-refuses_example :
    All (λ through. through ≡ false) (calls locked_boot attempts start).0
    × ((calls locked_boot attempts start).1.policy ≡ new)
Unusable-refuses_example = Unusable-refuses locked_boot (inl refl) attempts

abbrev gained : Change
gained = record { pid = 1; object = b'p' ∷ []; kind = []; flags = 0; added = 8; gated = false }

-- A process that held `read` and now holds `exec` without the constraint.
diff_run : diff allowed (reader (b'p' ∷ []) 2 ∷ reader (b'p' ∷ []) 8 ∷ []) ≡ gained ∷ []
unfolding text_eq diff diff_loop newly union ungated fresh_gate change_of bit_not approval
    effect_mask bit
diff_run = refl

diff_covers_example :
    ((i : ℕ)
      → i < 64
      → i ≢ 7
      → reaches 1 (b'p' ∷ []) i (reader (b'p' ∷ []) 8 ∷ []) ≡ true
      → reaches 1 (b'p' ∷ []) i allowed ≡ false
      → (c : Change) × In c (diff allowed (reader (b'p' ∷ []) 8 ∷ []))
        × (c.pid ≡ 1)
        × (c.object ≡ b'p' ∷ [])
        × (test_bit c.added i ≡ true))
    × (fresh_gate allowed (reader (b'p' ∷ []) 8 ∷ []) 1 (b'p' ∷ []) ≡ true
        → (c : Change) × In c (diff allowed (reader (b'p' ∷ []) 8 ∷ []))
          × (c.pid ≡ 1)
          × (c.object ≡ b'p' ∷ [])
          × (c.gated ≡ false))
diff_covers_example =
    diff_covers allowed (reader (b'p' ∷ []) 8 ∷ []) 1 (b'p' ∷ []) (omega arith, tt)

gained_shown : In gained (diff allowed (reader (b'p' ∷ []) 2 ∷ reader (b'p' ∷ []) 8 ∷ []))
gained_shown = subst (In gained) (sym diff_run) (inl refl)

bit_three : test_bit 8 3 ≡ true
unfolding test_bit
bit_three = refl

diff_sound_example :
    (reaches 1 (b'p' ∷ []) 3 (reader (b'p' ∷ []) 2 ∷ reader (b'p' ∷ []) 8 ∷ []) ≡ true)
    × ((reaches 1 (b'p' ∷ []) 3 allowed ≡ false)
        ⊎ (fresh_gate allowed (reader (b'p' ∷ []) 2 ∷ reader (b'p' ∷ []) 8 ∷ []) 1 (b'p' ∷ [])
            ≡ true))
diff_sound_example =
    diff_sound allowed (reader (b'p' ∷ []) 2 ∷ reader (b'p' ∷ []) 8 ∷ []) gained (omega arith, tt)
      gained_shown 3 (omega arith) bit_three
