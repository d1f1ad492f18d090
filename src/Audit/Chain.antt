-- ===== src/Audit/Chain.antt =====
-- Chains of records, as the first loop of `verify` checks them.
use cdk.Prelude.{
  ℕ, ◌+◌, ◌≤◌, ◌<◌, ◌≡◌, refl, ap, ◌∙◌, some, List, [], ◌∷◌, ◌++◌, Text, length, last?, ◌==◌,
  ==_iff, text_eq, text_eq→eq, text_eq_self, arith, Bool-cases, inl, inr, In, ok,
}
use cdk.Audit.{Record, record_hash, verify_records}

module _ (sha256 : Text → Text) where
  -- Numbered on from `s`, each hash over the one before, from `prev` to `h`.
  abbrev pub Chain : Text → ℕ → List Record → Text → Type 0
  Chain prev s [] h = prev ≡ h
  Chain prev s (r ∷ rs) h =
      (r.seq ≡ s) × (record_hash sha256 prev r ≡ r.hash) × Chain r.hash (s + 1) rs h

  pub verify-Chain :
      (prev : Text) (s : ℕ) (rs : List Record) (h : Text)
      → Chain prev s rs h
      → verify_records sha256 prev s rs ≡ ok h
  unfolding verify_records
  verify-Chain prev s [] h c = ap ok c
  verify-Chain prev s (r ∷ rs) h c =
      rw ((==_iff r.seq s).1 c.0, c.1, text_eq_self r.hash) (verify-Chain r.hash (s + 1) rs h c.2)

  pub Chain-verify :
      (prev : Text) (s : ℕ) (rs : List Record) (h : Text)
      → verify_records sha256 prev s rs ≡ ok h
      → Chain prev s rs h
  unfolding verify_records
  Chain-verify prev s [] h e = cc
  Chain-verify prev s (r ∷ rs) h e = elim (Bool-cases (r.seq == s)) [
    | inr n ↦ cc (rw n at e)
    | inl q ↦ elim (Bool-cases (text_eq (record_hash sha256 prev r) r.hash)) [
      | inr n ↦ cc (rw (q, n) at e)
      | inl t ↦
          let same : record_hash sha256 prev r ≡ r.hash = text_eq→eq _ _ t in
          ((==_iff r.seq s).0 q, same, Chain-verify r.hash (s + 1) rs h (rw (q, t, same) at e))
    ]
  ]

  pub Chain-snoc :
      (prev : Text) (s : ℕ) (rs : List Record) (h : Text) (r : Record)
      → Chain prev s rs h
      → r.seq ≡ s + length rs
      → record_hash sha256 h r ≡ r.hash
      → Chain prev s (rs ++ (r ∷ [])) r.hash
  Chain-snoc prev s [] h r c q e = (omega arith, rw c e, refl)
  Chain-snoc prev s (x ∷ rs) h r c q e =
      (c.0, c.1, Chain-snoc x.hash (s + 1) rs h r c.2 (omega arith) e)

  pub Chain-range :
      (prev : Text) (s : ℕ) (rs : List Record) (h : Text) (r : Record)
      → Chain prev s rs h
      → In r rs
      → (s ≤ r.seq) × (r.seq < s + length rs)
  Chain-range prev s [] h r c m = absurd m
  Chain-range prev s (x ∷ rs) h r c (inl e) =
      let q : r.seq ≡ x.seq = ap (λ (k : Record). k.seq) e in
      (omega (arith, c.0), omega (arith, c.0))
  Chain-range prev s (x ∷ rs) h r c (inr m) =
      let i = Chain-range x.hash (s + 1) rs h r c.2 m in (omega (arith, i.0), omega (arith, i.1))

  -- The record with the last number has the last hash.
  pub Chain-last :
      (prev : Text) (s : ℕ) (rs : List Record) (h : Text) (r : Record)
      → Chain prev s rs h
      → In r rs
      → r.seq + 1 ≡ s + length rs
      → r.hash ≡ h
  Chain-last prev s [] h r c m q = absurd m
  Chain-last prev s (x ∷ []) h r c (inl e) q = ap (λ (k : Record). k.hash) e ∙ c.2
  Chain-last prev s (x ∷ y ∷ rs) h r c (inl e) q =
      let w : r.seq ≡ x.seq = ap (λ (k : Record). k.seq) e in absurd (omega (arith, c.0))
  Chain-last prev s (x ∷ rs) h r c (inr m) q = Chain-last x.hash (s + 1) rs h r c.2 m (omega arith)

  pub Chain-last_seq :
      (prev : Text) (s : ℕ) (rs : List Record) (h : Text) (r : Record)
      → Chain prev s rs h
      → last? rs ≡ some r
      → r.seq + 1 ≡ s + length rs
  Chain-last_seq prev s [] h r c e = cc
  Chain-last_seq prev s (x ∷ []) h r c e = let q : x ≡ r = cc in rw (← q) (omega (arith, c.0))
  Chain-last_seq prev s (x ∷ y ∷ rs) h r c e =
      omega (arith, Chain-last_seq x.hash (s + 1) (y ∷ rs) h r c.2 e)
