-- ===== src/Approvals.antt =====
-- src/approvals.rs: the requests that are open, the operators' votes on them, and their end. The
-- check of a signature with a pinned key and the hash are parameters; what is printed is left out.
pub mod Votes
pub mod Quorum
pub mod Reach
pub mod Final
pub mod Messages
mod Tests
use cdk.Prelude.{
  ℕ, ◌+◌, ◌-◌, ◌*◌, ◌/◌, ◌%◌, ◌^◌, Bool, true, false, not, ◌&&◌, Option, none, some, List, [], ◌∷◌,
  ◌++◌, Text, length, any, find, max, map, filter, ltb, leb, ◌==◌, if◌then◌else◌, text_eq, Result,
  ok, err, fail_if, ◌>>=◌, ◌>>◌,
}
use cdk.Prelude.Bytes.{u16_le, u32_le}

pub record Operator : Type 0 where
  pub name : Text
  pub id : Text
  pub key : Text

pub data Outcome : Type 0 where
  approved denied timed_out : Outcome

-- `Open`, a request that is not closed.
pub record Request : Type 0 where
  pub id : ℕ
  pub kind : ℕ
  pub quorum : ℕ
  pub ttl_s : ℕ
  pub deadline : ℕ
  pub yes : Text
  pub no_statement : Text
  pub approvals : List Text
  pub outcome : Option Outcome

-- `OPEN` and `NEXT_ID`.
pub record State : Type 0 where
  pub requests : List Request
  pub next_id : ℕ

unfoldable pub start : State
start = record { requests = []; next_id = 1 }

-- `reject`
pub data Reject : Type 0 where
  unknown_operator bad_signature duplicate unknown_request : Reject

pub data Event : Type 0 where
  approval_rejected : ℕ → Text → Reject → Event
  approval_signed : ℕ → Text → Bool → Event
  approval_timeout : ℕ → ℕ → Event

pub data OpenError : Type 0 where
  not_secure too_much_text not_sent : OpenError

abbrev pub undecided : Option Outcome → Bool
undecided none = true
undecided (some o) = false

-- What the request says, besides what the kernel adds.
pub record Ask : Type 0 where
  pub kind : ℕ
  pub quorum : ℕ
  pub ttl_s : ℕ
  pub payload : Text
  pub text : Text

-- b"CDK-APPROVAL-v1"
abbrev pub context : Text
context =
    b'C' ∷ b'D' ∷ b'K' ∷ b'-' ∷ b'A' ∷ b'P' ∷ b'P' ∷ b'R' ∷ b'O' ∷ b'V' ∷ b'A' ∷ b'L' ∷ b'-' ∷ b'v'
    ∷ b'1' ∷ []

abbrev pub byte_of : Bool → ℕ
byte_of true = 1
byte_of false = 0

-- The bytes that `statement` hashes: an issuer of 16 bytes and a digest of 32.
unfoldable pub statement_message : ℕ → Text → ℕ → ℕ → ℕ → Text → Text → Bool → Text
statement_message id issuer kind quorum ttl_s payload_digest text approve =
    context
    ++ (0
        ∷ (u32_le id
            ++ (issuer
                ++ (kind
                    ∷ quorum
                    ∷ (u16_le ttl_s
                        ++ (payload_digest
                            ++ (u16_le (length text % 2 ^ 16)
                                ++ (text ++ (byte_of approve ∷ [])))))))))

-- What `open` meets: the secure link, whether the request could be sent, the clock, the boot's
-- issuer, and the most text that fits.
pub record Link : Type 0 where
  pub is_secure : Bool
  pub sent : Bool
  pub tsc : ℕ
  pub issuer : Text
  pub max_text : ℕ

module _ (sha256 : Text → Text) where
  unfoldable pub statement : ℕ → Text → Ask → Bool → Text
  unfolding statement_message
  statement id issuer a approve = sha256 (
      statement_message id issuer a.kind (max a.quorum 1) a.ttl_s (sha256 a.payload) a.text approve)

  unfoldable pub new_request : Link → ℕ → Ask → Request
  unfolding statement
  new_request link id a = record {
    id = id;
    kind = a.kind;
    quorum = max a.quorum 1;
    ttl_s = a.ttl_s;
    deadline = (link.tsc + a.ttl_s * 2000000000) % 2 ^ 64;
    yes = statement id link.issuer a true;
    no_statement = statement id link.issuer a false;
    approvals = [];
    outcome = none;
  }

  -- The id is used up where the request cannot be sent.
  unfoldable pub open_request : Link → Ask → State → Result OpenError ℕ × State
  unfolding new_request
  open_request link a st =
      if not link.is_secure
      then (err not_secure, st)
      else (if not (leb (length a.text) link.max_text)
          then (err too_much_text, st)
          else (if not link.sent
              then (err not_sent, record st { next_id = (st.next_id + 1) % 2 ^ 32 })
              else (
                ok st.next_id,
                record {
                  requests = st.requests ++ (new_request link st.next_id a ∷ []);
                  next_id = (st.next_id + 1) % 2 ^ 32;
                },
              )))

-- A vote that counts.
unfoldable pub count_vote : Text → Bool → Request → Request
count_vote operator true r = record r {
  approvals = r.approvals ++ (operator ∷ []);
  outcome =
      if leb r.quorum (length (r.approvals ++ (operator ∷ []))) then some approved else r.outcome;
}
count_vote operator false r = record r { outcome = some denied }

abbrev pub update_first {ℓ} : {A : Type ℓ} → (A → Bool) → (A → A) → List A → List A
update_first test f [] = []
update_first test f (x ∷ xs) = if test x then f x ∷ xs else x ∷ update_first test f xs

-- `r.id == id && r.outcome.is_none()`
abbrev pub awaits : ℕ → Request → Bool
awaits id r = r.id == id && undecided r.outcome

abbrev pub statement_of : Request → Bool → Text
statement_of r true = r.yes
statement_of r false = r.no_statement

module _ (verifies : Text → Text → Text → Bool) (operators : List Operator) where
  vote_on : ℕ → Text → Bool → Text → State → Operator → Option Request → State × List Event
  unfolding count_vote
  vote_on id operator approve sig st op none =
      (st, approval_rejected id operator unknown_request ∷ [])
  vote_on id operator approve sig st op (some req) =
      if not (verifies op.key (statement_of req approve) sig)
      then (st, approval_rejected id operator bad_signature ∷ [])
      else (if any (λ a. text_eq a operator) req.approvals
          then (st, approval_rejected id operator duplicate ∷ [])
          else (
            record st {
              requests = update_first (awaits id) (count_vote operator approve) st.requests;
            },
            approval_signed id operator approve ∷ [],
          ))

  vote_by : ℕ → Text → Bool → Text → State → Option Operator → State × List Event
  unfolding vote_on
  vote_by id operator approve sig st none =
      (st, approval_rejected id operator unknown_operator ∷ [])
  vote_by id operator approve sig st (some op) =
      vote_on id operator approve sig st op (find (awaits id) st.requests)

  -- `on_message` once a decision is complete.
  unfoldable pub vote : ℕ → Text → Bool → Text → State → State × List Event
  unfolding vote_by
  vote id operator approve sig st =
      vote_by id operator approve sig st (find (λ o. text_eq o.id operator) operators)

-- `now.wrapping_sub(deadline) < u64::MAX / 2`, on an undecided request.
abbrev pub is_late : ℕ → Request → Bool
is_late now r = undecided r.outcome && ltb ((now + 2 ^ 64 - r.deadline) % 2 ^ 64) ((2 ^ 64 - 1) / 2)

unfoldable pub expire : ℕ → Request → Request
expire now r = if is_late now r then record r { outcome = some timed_out } else r

unfoldable pub check_timeouts : ℕ → State → State × List Event
unfolding expire
check_timeouts now st = (
  record st { requests = map (expire now) st.requests },
  map (λ r. approval_timeout r.id r.ttl_s) (filter (is_late now) st.requests),
)

-- `outcome(id)`: the first request with this id.
unfoldable pub outcome_of : ℕ → State → Option Outcome
outcome_of id st = elim (find (λ r. r.id == id) st.requests) [ none ↦ none | some r ↦ r.outcome ]

abbrev pub remove_first {ℓ} : {A : Type ℓ} → (A → Bool) → List A → List A
remove_first test [] = []
remove_first test (x ∷ xs) = if test x then xs else x ∷ remove_first test xs

unfoldable pub close : ℕ → State → State
close id st = record st { requests = remove_first (λ r. r.id == id) st.requests }
