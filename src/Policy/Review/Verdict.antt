-- ===== src/Policy/Review/Verdict.antt =====
-- When a review lets grants through, by what the boot provides and the operators answer.
use mathlib.Core.Logic.{◌↔◌}
use cdk.Prelude.{◌≡◌, true, false, List, ◌++◌}
use cdk.Policy.{Grant}
use cdk.Policy.Review.{State, Boot, Answer, load_boot_policy, review_grants}
use cdk.Policy.Review.Flow.{review_grants_cases}
use cdk.Policy.Review.Load.{
  Loads, load_boot_policy-Loads, Agrees, confirm-Agrees, Agrees-confirm, NoneNew, fresh-NoneNew,
  NoneNew-fresh,
}

-- A review loads the boot policy if that has not happened and changes nothing else of the state. The
-- load breaks the policy in a lockdown, or if the boot file does not parse or asks for more operators
-- than have keys pinned; else it puts the file's policy in force. Then grants are let through exactly
-- if the policy is not broken, every violation that they leave was there before, and the operators
-- agree: with signatures where keys are pinned, else at the console unless the review is off.
pub review_grants_lem :
    (b : Boot) (a : Answer) (before proposed : List Grant) (st : State)
    → (st' : State) × Loads b st st'
      × ((review_grants b a before proposed st).1 ≡ st')
      × (((review_grants b a before proposed st).0 ≡ true) ↔ (
          (st'.broken ≡ false) × NoneNew st'.policy before (before ++ proposed) × Agrees b st' a))
review_grants_lem b a before proposed st =
    let st' : State = (load_boot_policy b st).0 in
    let (cases, kept) = review_grants_cases b a before proposed st in
    (
      st',
      load_boot_policy-Loads b st,
      kept,
      (
        (λ h.
            let (sane, clean, agreed) = cases.0 h in
            (
              sane,
              fresh-NoneNew st'.policy before (before ++ proposed) clean,
              confirm-Agrees b st' a agreed,
            )),
        (λ h.
            let (sane, clean, agreed) = h in
            cases.1 (
              sane,
              NoneNew-fresh st'.policy before (before ++ proposed) clean,
              Agrees-confirm b st' a agreed,
            )),
      ),
    )
