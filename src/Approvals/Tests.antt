-- ===== src/Approvals/Tests.antt =====
-- Runs of a signed approval, and the theorems at concrete requests.
use cdk.Prelude.{
  ◌≡◌, refl, Bool, true, false, none, some, List, [], ◌∷◌, ◌++◌, Text, subst, sym, text_eq, inl,
  ◌⊎◌, In,
}
use cdk.Approvals.{
  Operator, approved, Request, State, approval_rejected, approval_signed, Reject, duplicate, start,
  Link, Ask, new_request, open_request, statement, vote, vote_by, vote_on, count_vote,
  check_timeouts,
}
use cdk.Prelude.{replicate, map, arith}
use cdk.Link.Approval.{encode_part, decision_parts}
use cdk.Approvals.Messages.{Inbox, on_messages, messages-vote}
use cdk.Approvals.Votes.{Counts, Fails, counted, vote_lem}
use cdk.Approvals.Quorum.{Sound}
use cdk.Approvals.Reach.{started, stepped, opened, decided, reachable-Sound}
use cdk.Approvals.Final.{decided_final}

-- A signature is the key and then the statement, and the hash is the first byte after the context.
abbrev hash : Text → Text
hash m = 1 ∷ []

abbrev verifies : Text → Text → Text → Bool
verifies key statement sig = text_eq sig (key ++ statement)

abbrev ann : Operator
ann = record { name = b'a' ∷ []; id = 1 ∷ []; key = 11 ∷ [] }

abbrev bob : Operator
bob = record { name = b'b' ∷ []; id = 2 ∷ []; key = 22 ∷ [] }

abbrev operators : List Operator
operators = ann ∷ bob ∷ []

abbrev link : Link
link = record { is_secure = true; sent = true; tsc = 5; issuer = []; max_text = 900 }

abbrev ask : Ask
ask = record { kind = 1; quorum = 1; ttl_s = 300; payload = []; text = [] }

abbrev opened_state : State
opened_state = (open_request hash link ask start).1

abbrev voted_state : State
voted_state = (vote verifies operators 1 (1 ∷ []) true (11 ∷ 1 ∷ []) opened_state).0

abbrev approved_request : Request
approved_request = record {
  id = 1;
  kind = 1;
  quorum = 1;
  ttl_s = 300;
  deadline = 600000000005;
  yes = 1 ∷ [];
  no_statement = 1 ∷ [];
  approvals = (1 ∷ []) ∷ [];
  outcome = some approved;
}

voted_run : voted_state.requests ≡ approved_request ∷ []
unfolding open_request new_request statement start vote vote_by vote_on count_vote text_eq
voted_run = refl

again_run :
    vote verifies operators 1
      (1 ∷ [])
      true
      (11 ∷ 1 ∷ [])
      (record { requests = record approved_request { outcome = none } ∷ []; next_id = 2 })
    ≡ (
      record { requests = record approved_request { outcome = none } ∷ []; next_id = 2 },
      approval_rejected 1 (1 ∷ []) duplicate ∷ [],
    )
unfolding vote vote_by vote_on text_eq
again_run = refl

voted-In : In approved_request voted_state.requests
voted-In = subst (In approved_request) (sym voted_run) (inl refl)

reachable-Sound_example : Sound verifies operators approved_request
reachable-Sound_example =
    reachable-Sound hash verifies operators voted_state
      (stepped opened_state voted_state (stepped start opened_state started (opened link ask start))
        (decided 1 (1 ∷ []) true (11 ∷ 1 ∷ []) opened_state))
      approved_request voted-In

vote_lem_example :
    (Counts verifies operators 1 (1 ∷ []) true (11 ∷ 1 ∷ []) opened_state
      × (vote verifies operators 1 (1 ∷ []) true (11 ∷ 1 ∷ []) opened_state ≡ (
        counted verifies operators 1 (1 ∷ []) true opened_state,
        approval_signed 1 (1 ∷ []) true ∷ [],
      )))
    ⊎ ((Counts verifies operators 1 (1 ∷ []) true (11 ∷ 1 ∷ []) opened_state → ⊥)
        × ((why : Reject) × Fails verifies operators 1 (1 ∷ []) true (11 ∷ 1 ∷ []) opened_state why
            × (vote verifies operators 1 (1 ∷ []) true (11 ∷ 1 ∷ []) opened_state
                ≡ (opened_state, approval_rejected 1 (1 ∷ []) why ∷ []))))
vote_lem_example = vote_lem verifies operators 1 (1 ∷ []) true (11 ∷ 1 ∷ []) opened_state

decided_final_example :
    In approved_request
      (vote verifies operators 1 (2 ∷ []) false (22 ∷ 1 ∷ []) voted_state).0.requests
    × In approved_request (check_timeouts 700000000005 voted_state).0.requests
    × In approved_request (open_request hash link ask voted_state).1.requests
decided_final_example =
    decided_final hash verifies operators 1 700000000005 (2 ∷ []) false (22 ∷ 1 ∷ []) link ask
      voted_state approved_request voted-In refl

abbrev inbox : Inbox
inbox = record {
  assembler = record { key = some (3, [], false); buf = 9 ∷ [] };
  state = opened_state;
}

messages-vote_example :
    on_messages verifies operators
      (map encode_part (decision_parts 1 (replicate 16 1) true (11 ∷ 1 ∷ [])))
      inbox
    ≡ (
      record {
        assembler = record { key = none; buf = [] };
        state = (vote verifies operators 1 (replicate 16 1) true (11 ∷ 1 ∷ []) opened_state).0;
      },
      (vote verifies operators 1 (replicate 16 1) true (11 ∷ 1 ∷ []) opened_state).1,
    )
messages-vote_example =
    messages-vote verifies operators 1 (replicate 16 1) true (11 ∷ 1 ∷ []) inbox (omega arith) refl
      (omega arith) (omega arith)
