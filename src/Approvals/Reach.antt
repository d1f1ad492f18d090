-- ===== src/Approvals/Reach.antt =====
-- The states that openings, decisions, time and closings reach, and the votes behind each outcome.
use cdk.Prelude.{
  ℕ, refl, sym, subst, Bool, List, [], ◌∷◌, Text, length, map, leb, Bool-cases, inl, inr, In,
  In-append, ◌==◌,
}
use cdk.Approvals.{
  Operator, Request, State, vote, start, Link, Ask, new_request, open_request, expire,
  check_timeouts, close,
}
use cdk.Approvals.Quorum.{Sound, AllSound, new-Sound, vote-Sound, expire-Sound, removed}

module _ (sha256 : Text → Text) (verifies : Text → Text → Text → Bool)
    (operators : List Operator) where
  -- One event at the kernel: a request is opened, a decision arrives, time passes, or a request is
  -- closed, whatever its data.
  pub data Step : State → State → Type 0 where
    opened : (link : Link) (a : Ask) (st : State) → Step st (open_request sha256 link a st).1
    decided :
        (id : ℕ) (operator : Text) (approve : Bool) (sig : Text) (st : State)
        → Step st (vote verifies operators id operator approve sig st).0
    ticked : (now : ℕ) (st : State) → Step st (check_timeouts now st).0
    closed : (id : ℕ) (st : State) → Step st (close id st)

  pub data Reachable : State → Type 0 where
    started : Reachable start
    stepped : (s t : State) → Reachable s → Step s t → Reachable t

  open-Sound :
      (link : Link) (a : Ask) (st : State)
      → AllSound verifies operators st.requests
      → AllSound verifies operators (open_request sha256 link a st).1.requests
  unfolding open_request
  open-Sound link a st i r m = elim (Bool-cases link.is_secure) [
    | inr f ↦ i r (subst (In r) (rw f refl) m)
    | inl t ↦ elim (Bool-cases (leb (length a.text) link.max_text)) [
      | inr f ↦ i r (subst (In r) (rw (t, f) refl) m)
      | inl l ↦ elim (Bool-cases link.sent) [
        | inr f ↦ i r (subst (In r) (rw (t, l, f) refl) m)
        | inl s ↦
            elim (In-append r st.requests (new_request sha256 link st.next_id a ∷ [])
              (subst (In r) (rw (t, l, s) refl) m)) [
                | inl old ↦ i r old
                | inr (inl e) ↦
                    subst (Sound verifies operators) (sym e)
                      (new-Sound verifies operators sha256 link st.next_id a)
                | inr (inr z) ↦ absurd z
              ]
      ]
    ]
  ]

  tick-Sound :
      (now : ℕ) (rs : List Request)
      → AllSound verifies operators rs
      → AllSound verifies operators (map (expire now) rs)
  tick-Sound now [] i r m = absurd m
  tick-Sound now (x ∷ rs) i r (inl e) =
      subst (Sound verifies operators) (sym e)
        (expire-Sound verifies operators now x (i x (inl refl)))
  tick-Sound now (x ∷ rs) i r (inr m) = tick-Sound now rs (λ q n. i q (inr n)) r m

  step-Sound :
      (s t : State)
      → Step s t
      → AllSound verifies operators s.requests
      → AllSound verifies operators t.requests
  unfolding check_timeouts close
  step-Sound _ _ (opened link a st) i = open-Sound link a st i
  step-Sound _ _ (decided id operator approve sig st) i =
      vote-Sound verifies operators id operator approve sig st i
  step-Sound _ _ (ticked now st) i = tick-Sound now st.requests i
  step-Sound _ _ (closed id st) i =
      λ r m. i r (removed verifies operators (λ q. q.id == id) st.requests r m)

  -- In every state that is reached, a request is approved only with the signatures of as many
  -- different pinned operators over its approval as its quorum asks, and denied by a vote only with
  -- a pinned operator's signature over its denial; while it is undecided, fewer have approved than
  -- the quorum asks.
  pub reachable-Sound :
      (st : State) → Reachable st → (r : Request) → In r st.requests → Sound verifies operators r
  unfolding start
  reachable-Sound _ started r m = absurd m
  reachable-Sound _ (stepped s t h k) r m = step-Sound s t k (reachable-Sound s h) r m
