-- ===== src/Approvals/Votes.antt =====
-- What one decision does to the open requests.
use cdk.Prelude.{
  apart, ap₂, Option, none, ℕ, ◌≡◌, refl, ap, ◌∙◌, sym, subst, Bool, true, false, some, List, [],
  ◌∷◌, Text, any, find, if◌then◌else◌, text_eq, Bool-cases, Option-cases, inl, inr, ◌⊎◌, In,
}
use cdk.Approvals.{
  Operator, Request, State, Reject, unknown_operator, bad_signature, duplicate, unknown_request,
  approval_rejected, approval_signed, count_vote, update_first, awaits, statement_of, vote_on,
  vote_by, vote,
}

pub find-found :
    {A : Type 0} (test : A → Bool) (xs : List A) (a : A)
    → find test xs ≡ some a
    → In a xs × (test a ≡ true)
find-found test [] a e = cc
find-found test (x ∷ xs) a e = elim (Bool-cases (test x)) [
  | inl t ↦
      let q : x ≡ a =
        some-injective (subst (λ b. (if b then some x else find test xs) ≡ some a) t e) in
      (inl (sym q), subst (λ z. test z ≡ true) q t)
  | inr f ↦
      let (m, t) =
        find-found test xs a (subst (λ b. (if b then some x else find test xs) ≡ some a) f e) in
      (inr m, t)
]
  where
    some-injective : some x ≡ some a → x ≡ a
    some-injective h = cc

-- An update of the first that passes a test changes just what a search finds.
pub In-update_first :
    {A : Type 0} (test : A → Bool) (f : A → A) (xs : List A) (a r : A)
    → find test xs ≡ some a
    → In r (update_first test f xs)
    → In r xs ⊎ (r ≡ f a)
In-update_first test f [] a r e m = absurd m
In-update_first test f (x ∷ xs) a r e m = elim (Bool-cases (test x)) [
  | inl t ↦ elim (subst (λ b. In r (if b then f x ∷ xs else x ∷ update_first test f xs)) t m) [
    | inl q ↦ inr (q ∙ ap f (first t))
    | inr n ↦ inl (inr n)
  ]
  | inr u ↦ elim (subst (λ b. In r (if b then f x ∷ xs else x ∷ update_first test f xs)) u m) [
    | inl q ↦ inl (inl q)
    | inr n ↦ elim (In-update_first test f xs a r (later u) n) [
      | inl old ↦ inl (inr old)
      | inr new ↦ inr new
    ]
  ]
]
  where
    first : test x ≡ true → x ≡ a
    first t =
        let q : (if true then some x else find test xs) ≡ some a =
          subst (λ b. (if b then some x else find test xs) ≡ some a) t e in
        cc

    later : test x ≡ false → find test xs ≡ some a
    later u = subst (λ b. (if b then some x else find test xs) ≡ some a) u e

module _ (verifies : Text → Text → Text → Bool) (operators : List Operator) where
  -- Why a decision counts.
  pub record Counts (id : ℕ) (operator : Text) (approve : Bool) (sig : Text) (st : State)
      : Type 0 where
    pub op : Operator
    pub req : Request
    pub pinned : find (λ o. text_eq o.id operator) operators ≡ some op
    pub open_now : find (awaits id) st.requests ≡ some req
    pub genuine : verifies op.key (statement_of req approve) sig ≡ true
    pub first_vote : any (λ a. text_eq a operator) req.approvals ≡ false

  abbrev pub counted : ℕ → Text → Bool → State → State
  counted id operator approve st = record st {
    requests = update_first (awaits id) (count_vote operator approve) st.requests;
  }

  -- Why a decision does not count: the first of the conditions that fails.
  abbrev pub Fails : ℕ → Text → Bool → Text → State → Reject → Type 0
  Fails id operator approve sig st unknown_operator =
      find (λ o. text_eq o.id operator) operators ≡ none
  Fails id operator approve sig st unknown_request =
      (op : Operator) × (find (λ o. text_eq o.id operator) operators ≡ some op)
      × (find (awaits id) st.requests ≡ none)
  Fails id operator approve sig st bad_signature =
      (op : Operator) × (req : Request) × (find (λ o. text_eq o.id operator) operators ≡ some op)
      × (find (awaits id) st.requests ≡ some req)
      × (verifies op.key (statement_of req approve) sig ≡ false)
  Fails id operator approve sig st duplicate =
      (op : Operator) × (req : Request) × (find (λ o. text_eq o.id operator) operators ≡ some op)
      × (find (awaits id) st.requests ≡ some req)
      × (verifies op.key (statement_of req approve) sig ≡ true)
      × (any (λ a. text_eq a operator) req.approvals ≡ true)

  one_some : {A : Type 0} {o : Option A} {a b : A} → o ≡ some a → o ≡ some b → a ≡ b
  one_some p q = cc

  Fails-not :
      (id : ℕ) (operator : Text) (approve : Bool) (sig : Text) (st : State) (why : Reject)
      → Fails id operator approve sig st why
      → Counts id operator approve sig st
      → ⊥
  Fails-not id operator approve sig st unknown_operator n c = let q = c.pinned in cc
  Fails-not id operator approve sig st unknown_request (op, p, n) c = let q = c.open_now in cc
  Fails-not id operator approve sig st bad_signature (op, req, p, o, bad) c =
      let e : op ≡ c.op = one_some p c.pinned in
      let f : req ≡ c.req = one_some o c.open_now in
      apart bad (
        ap₂ (λ (k : Operator) (r : Request). verifies k.key (statement_of r approve) sig) e f
        ∙ c.genuine)
  Fails-not id operator approve sig st duplicate (op, req, p, o, good, again) c =
      let f : req ≡ c.req = one_some o c.open_now in
      apart c.first_vote
        (ap (λ (r : Request). any (λ a. text_eq a operator) r.approvals) (sym f) ∙ again)

  -- A decision counts if its operator is pinned, a request with its id is undecided, the signature
  -- over the statement of that request and that decision verifies with the operator's key, and the
  -- operator has not approved the request before; then the first undecided request with the id takes
  -- the vote. Else it does not count: it is logged as rejected for the first of these conditions that
  -- fails, and nothing changes.
  pub vote_lem :
      (id : ℕ) (operator : Text) (approve : Bool) (sig : Text) (st : State)
      → (Counts id operator approve sig st
          × (vote verifies operators id operator approve sig st
              ≡ (counted id operator approve st, approval_signed id operator approve ∷ [])))
        ⊎ ((Counts id operator approve sig st → ⊥)
            × ((why : Reject) × Fails id operator approve sig st why
                × (vote verifies operators id operator approve sig st
                    ≡ (st, approval_rejected id operator why ∷ []))))
  unfolding vote vote_by vote_on
  vote_lem id operator approve sig st =
      elim (Option-cases (find (λ o. text_eq o.id operator) operators)) [
        | inl n ↦ fails unknown_operator n (rw n refl)
        | inr (op, p) ↦ elim (Option-cases (find (awaits id) st.requests)) [
          | inl n ↦ fails unknown_request (op, p, n) (rw (p, n) refl)
          | inr (req, o) ↦ elim (Bool-cases (verifies op.key (statement_of req approve) sig)) [
            | inr bad ↦ fails bad_signature (op, req, p, o, bad) (rw (p, o, bad) refl)
            | inl good ↦ elim (Bool-cases (any (λ a. text_eq a operator) req.approvals)) [
              | inl again ↦
                  fails duplicate (op, req, p, o, good, again) (rw (p, o, good, again) refl)
              | inr new ↦ inl (
                record {
                  op = op;
                  req = req;
                  pinned = p;
                  open_now = o;
                  genuine = good;
                  first_vote = new;
                },
                rw (p, o, good, new) refl,
              )
            ]
          ]
        ]
      ]
    where
      fails :
          {A : Type 0} (why : Reject)
          → Fails id operator approve sig st why
          → vote verifies operators id operator approve sig st
            ≡ (st, approval_rejected id operator why ∷ [])
          → A
            ⊎ ((Counts id operator approve sig st → ⊥)
                × ((why' : Reject) × Fails id operator approve sig st why'
                    × (vote verifies operators id operator approve sig st
                        ≡ (st, approval_rejected id operator why' ∷ []))))
      fails why f e = inr (Fails-not id operator approve sig st why f, (why, f, e))
