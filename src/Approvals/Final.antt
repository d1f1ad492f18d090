-- ===== src/Approvals/Final.antt =====
-- A decided request stays as it was decided.
use cdk.Prelude.{
  ℕ, ◌≡◌, ap, ◌∙◌, sym, subst, Bool, true, false, List, [], ◌∷◌, Text, length, map, leb,
  if◌then◌else◌, arith, Bool-cases, inl, inr, ◌⊎◌, In, In-append_left,
}
use cdk.Approvals.{
  Operator, Request, State, Event, undecided, count_vote, update_first, awaits, vote, Link, Ask,
  new_request, open_request, expire, check_timeouts,
}
use cdk.Approvals.Votes.{vote_lem}

module _ (sha256 : Text → Text) (verifies : Text → Text → Text → Bool)
    (operators : List Operator) where
  kept_if_undecided :
      (test : Request → Bool) (f : Request → Request) (rs : List Request) (r : Request)
      → test r ≡ false
      → In r rs
      → In r (update_first test f rs)
  kept_if_undecided test f [] r n m = absurd m
  kept_if_undecided test f (x ∷ rs) r n (inl e) = rw (ap test (sym e) ∙ n) (inl e)
  kept_if_undecided test f (x ∷ rs) r n (inr m) =
      either (kept_if_undecided test f rs r n m) (Bool-cases (test x))
    where
      either :
          In r (update_first test f rs)
          → (test x ≡ true) ⊎ (test x ≡ false)
          → In r (if test x then f x ∷ rs else x ∷ update_first test f rs)
      either k (inl t) = rw t (inr m)
      either k (inr u) = rw u (inr k)

  not_late : (now : ℕ) (r : Request) → undecided r.outcome ≡ false → expire now r ≡ r
  unfolding expire
  not_late now r d = simp d

  ticked-In :
      (now : ℕ) (rs : List Request) (r : Request)
      → expire now r ≡ r
      → In r rs
      → In r (map (expire now) rs)
  ticked-In now [] r e m = absurd m
  ticked-In now (x ∷ rs) r e (inl q) = inl (sym e ∙ ap (expire now) q)
  ticked-In now (x ∷ rs) r e (inr m) = inr (ticked-In now rs r e m)

  open_keeps :
      (link : Link) (a : Ask) (st : State) (r : Request)
      → In r st.requests
      → In r (open_request sha256 link a st).1.requests
  unfolding open_request
  open_keeps link a st r m = elim (Bool-cases link.is_secure) [
    | inr f ↦ rw f m
    | inl t ↦ elim (Bool-cases (leb (length a.text) link.max_text)) [
      | inr f ↦ rw (t, f) m
      | inl l ↦ elim (Bool-cases link.sent) [
        | inr f ↦ rw (t, l, f) m
        | inl s ↦
            rw (t, l, s)
              (In-append_left r st.requests (new_request sha256 link st.next_id a ∷ []) m)
      ]
    ]
  ]

  -- A decision is final: until the request is closed, no later vote, timeout or opening changes it.
  pub decided_final :
      (id now : ℕ) (operator : Text) (approve : Bool) (sig : Text) (link : Link) (a : Ask)
      (st : State) (r : Request)
      → In r st.requests
      → undecided r.outcome ≡ false
      → In r (vote verifies operators id operator approve sig st).0.requests
        × In r (check_timeouts now st).0.requests
        × In r (open_request sha256 link a st).1.requests
  unfolding check_timeouts
  decided_final id now operator approve sig link a st r m d = (
    elim (vote_lem verifies operators id operator approve sig st) [
      | inr (fails, (why, f, e)) ↦
          subst (In r) (sym (ap (λ (x : State × List Event). x.0.requests) e)) m
      | inl (c, e) ↦ subst (In r) (sym (ap (λ (x : State × List Event). x.0.requests) e)) (
          kept_if_undecided (awaits id) (count_vote operator approve) st.requests r (ground arith)
            m)
    ],
    ticked-In now st.requests r (not_late now r d) m,
    open_keeps link a st r m,
  )
