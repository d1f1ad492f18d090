-- ===== src/Approvals/Quorum.antt =====
-- What an outcome says about the votes behind it, in every state that is reached.
use cdk.Prelude.{
  apart, ℕ, ◌≤◌, ◌<◌, ◌≡◌, refl, ap, ◌∙◌, sym, subst, Bool, true, false, Option, none, some, List,
  [], ◌∷◌, ◌++◌, Text, length, any, any_of_In, leb, if◌then◌else◌, text_eq, text_eq→eq,
  text_eq_self, arith, Bool-cases, inl, inr, In, In-append,
}
use cdk.Approvals.{
  Operator, Outcome, approved, denied, timed_out, Request, State, Event, undecided, count_vote,
  awaits, statement_of, vote, Link, Ask, new_request, expire, is_late, remove_first,
}
use cdk.Approvals.Votes.{find-found, In-update_first, Counts, vote_lem}

abbrev pub Distinct : List Text → Type 0
Distinct [] = Unit
Distinct (x ∷ xs) = (In x xs → ⊥) × Distinct xs

Distinct-snoc :
    (xs : List Text) (o : Text) → Distinct xs → (In o xs → ⊥) → Distinct (xs ++ (o ∷ []))
Distinct-snoc [] o d n = (λ m. m, tt)
Distinct-snoc (x ∷ xs) o d n = (fresh, Distinct-snoc xs o d.1 (λ m. n (inr m)))
  where
    fresh : In x (xs ++ (o ∷ [])) → ⊥
    fresh m = elim (In-append x xs (o ∷ []) m) [
      | inl old ↦ d.0 old
      | inr (inl e) ↦ n (inl (sym e))
      | inr (inr z) ↦ z
    ]

abbrev is_approved : Option Outcome → Bool
is_approved (some approved) = true
is_approved _ = false

abbrev was_denied : Option Outcome → Bool
was_denied (some denied) = true
was_denied _ = false

module _ (verifies : Text → Text → Text → Bool) (operators : List Operator) where
  -- A pinned operator's signature over a statement.
  pub record Signed (a statement : Text) : Type 0 where
    pub by : Operator
    pub pinned : In by operators
    pub named : by.id ≡ a
    pub signature : Text
    pub genuine : verifies by.key statement signature ≡ true

  -- The votes behind a request: each from another pinned operator who signed its approval; as many
  -- as the quorum if it is approved, fewer while it is undecided, and a signed denial if it is denied.
  pub record Sound (r : Request) : Type 0 where
    pub distinct : Distinct r.approvals
    pub signed : (a : Text) → In a r.approvals → Signed a r.yes
    pub reached : r.outcome ≡ some approved → r.quorum ≤ length r.approvals
    pub short : r.outcome ≡ none → length r.approvals < r.quorum
    pub vetoed : r.outcome ≡ some denied → (a : Text) × Signed a r.no_statement

  pub new-Sound :
      (sha256 : Text → Text) (link : Link) (id : ℕ) (a : Ask) → Sound (new_request sha256 link id a)
  unfolding new_request
  new-Sound sha256 link id a = record {
    distinct = tt;
    signed = λ b m. absurd m;
    reached = λ e. absurd cc;
    short = λ e. omega arith;
    vetoed = λ e. absurd cc;
  }

  -- Voting keeps a request sound, where the checks of `vote` have passed.
  yes-Sound :
      (operator : Text) (r : Request)
      → Signed operator r.yes
      → any (λ a. text_eq a operator) r.approvals ≡ false
      → undecided r.outcome ≡ true
      → Sound r
      → Sound (count_vote operator true r)
  unfolding count_vote
  yes-Sound operator r s n u i = record {
    distinct = Distinct-snoc r.approvals operator i.distinct not_yet;
    signed = λ a m. elim (In-append a r.approvals (operator ∷ []) m) [
      | inl old ↦ i.signed a old
      | inr (inl e) ↦ subst (λ b. Signed b r.yes) (sym e) s
      | inr (inr z) ↦ absurd z
    ];
    reached = λ e. elim (Bool-cases full) [
      | inl t ↦ ground arith
      | inr f ↦ absurd (never (some approved) e refl f)
    ];
    short =
        λ e. elim (Bool-cases full) [ inl t ↦ absurd (done none e refl t) | inr f ↦ ground arith ];
    vetoed = λ e. elim (Bool-cases full) [
      | inl t ↦ absurd (done (some denied) e refl t)
      | inr f ↦ absurd (never (some denied) e refl f)
    ];
  }
    where
      full : Bool
      full = leb r.quorum (length (r.approvals ++ (operator ∷ [])))

      never :
          (o : Option Outcome)
          → (if full then some approved else r.outcome) ≡ o
          → undecided o ≡ false
          → full ≡ false
          → ⊥
      never o e d f =
          apart d
            (ap undecided (sym (subst (λ b. (if b then some approved else r.outcome) ≡ o) f e)) ∙ u)

      done :
          (o : Option Outcome)
          → (if full then some approved else r.outcome) ≡ o
          → is_approved o ≡ false
          → full ≡ true
          → ⊥
      done o e d t =
          apart d
            (ap is_approved (sym (subst (λ b. (if b then some approved else r.outcome) ≡ o) t e)))

      not_yet : In operator r.approvals → ⊥
      not_yet m =
          apart n
            (any_of_In (λ a. text_eq a operator) operator r.approvals m (text_eq_self operator))

  no-Sound :
      (operator : Text) (r : Request)
      → Signed operator r.no_statement
      → Sound r
      → Sound (count_vote operator false r)
  unfolding count_vote
  no-Sound operator r s i = record {
    distinct = i.distinct;
    signed = i.signed;
    reached = λ e. absurd cc;
    short = λ e. absurd cc;
    vetoed = λ e. (operator, s);
  }

  pub expire-Sound : (now : ℕ) (r : Request) → Sound r → Sound (expire now r)
  unfolding expire
  expire-Sound now r i = either (is_late now r)
    where
      either : (b : Bool) → Sound (if b then record r { outcome = some timed_out } else r)
      either false = i
      either true = record {
        distinct = i.distinct;
        signed = i.signed;
        reached = λ e. absurd (apart refl (ap is_approved e));
        short = λ e. absurd cc;
        vetoed = λ e. absurd (apart refl (ap was_denied e));
      }

  abbrev pub AllSound : List Request → Type 0
  AllSound rs = (r : Request) → In r rs → Sound r

  signed_by :
      {id : ℕ} {operator : Text} (b : Bool) {sig : Text} {st : State}
      → (c : Counts verifies operators id operator b sig st)
      → Signed operator (statement_of c.req b)
  signed_by b c =
      let (m, t) = find-found (λ o. text_eq o.id _) operators c.op c.pinned in
      record { by = c.op; pinned = m; named = text_eq→eq _ _ t; signature = _; genuine = c.genuine }

  pub vote-Sound :
      (id : ℕ) (operator : Text) (approve : Bool) (sig : Text) (st : State)
      → AllSound st.requests
      → AllSound (vote verifies operators id operator approve sig st).0.requests
  vote-Sound id operator approve sig st i r m =
      elim (vote_lem verifies operators id operator approve sig st) [
        | inr (fails, (why, f, e)) ↦
            i r (subst (In r) (ap (λ (x : State × List Event). x.0.requests) e) m)
        | inl (c, e) ↦
            elim (In-update_first (awaits id) (count_vote operator approve) st.requests c.req r
              c.open_now (subst (In r) (ap (λ (x : State × List Event). x.0.requests) e) m)) [
                | inl old ↦ i r old
                | inr new ↦ subst Sound (sym new) (took approve c)
              ]
      ]
    where
      took :
          (b : Bool) (c : Counts verifies operators id operator b sig st)
          → Sound (count_vote operator b c.req)
      took true c =
          let (m, t) = find-found (awaits id) st.requests c.req c.open_now in
          yes-Sound operator c.req (signed_by true c) c.first_vote (ground arith) (i c.req m)
      took false c =
          let (m, t) = find-found (awaits id) st.requests c.req c.open_now in
          no-Sound operator c.req (signed_by false c) (i c.req m)

  pub removed :
      {A : Type 0} (test : A → Bool) (xs : List A) (a : A) → In a (remove_first test xs) → In a xs
  removed test [] a m = m
  removed test (x ∷ xs) a m = elim (Bool-cases (test x)) [
    | inl t ↦ inr (subst (λ b. In a (if b then xs else x ∷ remove_first test xs)) t m)
    | inr f ↦ elim (subst (λ b. In a (if b then xs else x ∷ remove_first test xs)) f m) [
      | inl e ↦ inl e
      | inr n ↦ inr (removed test xs a n)
    ]
  ]
