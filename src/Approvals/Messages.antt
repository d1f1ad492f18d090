-- ===== src/Approvals/Messages.antt =====
-- src/approvals.rs: `on_message`, which decodes a part, assembles the decision and counts the vote.
use cdk.Prelude.{
  ℕ, zero, suc, ◌+◌, ◌*◌, ◌%◌, ◌^◌, ◌≤◌, ◌<◌, ◌≡◌, refl, ap, ◌∙◌, Bool, Option, none, some, List,
  [], ◌∷◌, ◌++◌, Text, map, length, drop, length-take, length-drop, arith, Result, ok, All,
}
use cdk.Approvals.{Operator, State, Event, vote}
use cdk.Link.Approval.{
  ApprovalMsgError, Message, decision_part, Part, Assembler, decode, push, encode_part,
  decision_parts, parts_from, part_bytes,
}
use cdk.Link.Approval.PartTrip.{PartFits}
use cdk.Link.Approval.RoundTrip.{decode-encode_part}
use cdk.Link.Approval.Assembly.{feed, joined, feed-decision_parts}

-- `ASSEMBLER` and `OPEN` with `NEXT_ID`.
pub record Inbox : Type 0 where
  pub assembler : Assembler
  pub state : State

module _ (verifies : Text → Text → Text → Bool) (operators : List Operator) where
  with_decision : Assembler → State → Option (ℕ × Text × Bool × Text) → Inbox × List Event
  with_decision a st none = (record { assembler = a; state = st }, [])
  with_decision a st (some (id, operator, approve, sig)) =
      let r = vote verifies operators id operator approve sig st in
      (record { assembler = a; state = r.0 }, r.1)

  with_message : Result ApprovalMsgError Message → Inbox → Inbox × List Event
  unfolding with_decision
  with_message (ok (decision_part p)) b =
      let r = push p b.assembler in with_decision r.1 b.state r.0
  with_message _ b = (b, [])

  unfoldable pub on_message : Text → Inbox → Inbox × List Event
  unfolding with_message
  on_message msg b = with_message (decode msg) b

  unfoldable pub on_messages : List Text → Inbox → Inbox × List Event
  unfolding on_message
  on_messages [] b = (b, [])
  on_messages (m ∷ ms) b =
      let r = on_message m b in let rest = on_messages ms r.0 in (rest.0, r.1 ++ rest.1)

  abbrev votes : List (ℕ × Text × Bool × Text) → State → State × List Event
  votes [] st = (st, [])
  votes ((id, operator, approve, sig) ∷ ds) st =
      let r = vote verifies operators id operator approve sig st in
      let rest = votes ds r.0 in (rest.0, r.1 ++ rest.1)

  abbrev outcome : List (ℕ × Text × Bool × Text) × Assembler → State → Inbox × List Event
  outcome f st = let v = votes f.0 st in (record { assembler = f.1; state = v.0 }, v.1)

  -- Messages of parts are the parts fed to the assembler, and the completed decisions voted on.
  messages-feed :
      (ps : List Part) (a : Assembler) (st : State)
      → All PartFits ps
      → on_messages (map encode_part ps) (record { assembler = a; state = st })
        ≡ outcome (feed a ps) st
  unfolding on_messages on_message with_message with_decision feed
  messages-feed [] a st f = refl
  messages-feed (p ∷ ps) a st f =
      rw (decode-encode_part p 0 0 f.0 (omega arith)).0
        (step (λ a' st'. messages-feed ps a' st' f.1) (push p a))
    where
      Rest : Inbox × List Event → Inbox × List Event
      Rest w = let rest = on_messages (map encode_part ps) w.0 in (rest.0, w.1 ++ rest.1)

      step :
          ((a' : Assembler) (st' : State)
            → on_messages (map encode_part ps) (record { assembler = a'; state = st' })
              ≡ outcome (feed a' ps) st')
          → (r : Option (ℕ × Text × Bool × Text) × Assembler)
          → Rest (with_decision r.1 st r.0) ≡ outcome (joined r (λ c. feed c ps)) st
      step k (none, a') = k a' st
      step k (some (id, operator, approve, sig), a') =
          let r = vote verifies operators id operator approve sig st in
          ap (λ (x : Inbox × List Event). (x.0, r.1 ++ x.1)) (k a' r.0)

append_nil : {A : Type 0} (xs : List A) → xs ++ [] ≡ xs
append_nil [] = refl
append_nil (x ∷ xs) = ap (λ l. x ∷ l) (append_nil xs)

fit_from :
    (fuel id : ℕ) (operator : Text) (approve : Bool) (total i : ℕ) (rest : Text)
    → id < 2 ^ 32
    → length operator ≡ 16
    → total < 2 ^ 16
    → (0 < length rest → i * 972 + length rest ≤ total)
    → All PartFits (parts_from fuel id operator approve total i rest)
unfolding parts_from
fit_from zero id operator approve total i rest d o t l = tt
fit_from (suc fuel) id operator approve total i [] d o t l = tt
fit_from (suc fuel) id operator approve total i (b ∷ rest) d o t l = (
  record {
    id = d;
    operator = o;
    total = t;
    within = omega (arith, length-take 972 (b ∷ rest), l (omega arith));
  },
  fit_from fuel id operator approve total (i + 1) (drop part_bytes (b ∷ rest)) d o t
      (λ more. omega (arith, length-drop 972 (b ∷ rest), l (omega arith), more)),
)

-- The messages of a decision with a signature of 1 to 65,535 bytes, of an operator id of 16 bytes on a
-- request id of 32 bits, received in order by an inbox in any state, count as one vote with the whole
-- signature, and leave the assembler empty.
pub messages-vote :
    (verifies : Text → Text → Text → Bool) (operators : List Operator) (id : ℕ) (operator : Text)
    (approve : Bool) (sig : Text) (b : Inbox)
    → id < 2 ^ 32
    → length operator ≡ 16
    → 0 < length sig
    → length sig < 2 ^ 16
    → on_messages verifies operators (map encode_part (decision_parts id operator approve sig)) b
      ≡ (
        record {
          assembler = record { key = none; buf = [] };
          state = (vote verifies operators id operator approve sig b.state).0;
        },
        (vote verifies operators id operator approve sig b.state).1,
      )
unfolding decision_parts
messages-vote verifies operators id operator approve sig b d o pos small =
    messages-feed verifies operators (decision_parts id operator approve sig) b.assembler b.state (
      fit_from (length sig) id operator approve (length sig % 2 ^ 16) 0 sig d o (omega arith)
        (λ _. omega arith))
    ∙ ap (λ f. outcome verifies operators f b.state)
        (feed-decision_parts id operator approve sig b.assembler pos small)
    ∙ ap
        (λ ev. (
          record {
            assembler = record { key = none; buf = [] };
            state = (vote verifies operators id operator approve sig b.state).0;
          },
          ev,
        ))
        (append_nil (vote verifies operators id operator approve sig b.state).1)
