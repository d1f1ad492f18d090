-- ===== src/Audit/Tamper.antt =====
-- Two logs that verify with one head have the same records, or show a hash collision.
use cdk.Prelude.{
  ℕ, ◌+◌, ◌%◌, ◌^◌, ◌≤◌, ◌<◌, ◌≡◌, ◌≢◌, refl, ap, ap₂, ◌∙◌, sym, subst, Bool, true, false, not,
  ◌&&◌, List, [], ◌∷◌, ◌++◌, Text, length, append-injective, ◌==◌, text_eq, text_eq→eq,
  text_eq_self, arith, Bool-cases, inl, inr, ◌⊎◌, All, ok, Result-cases,
}
use cdk.Prelude.Bytes.{u64_le, from_le, from_le-u64}
use cdk.Audit.{
  Record, AuditLog, VerifyReport, record_domain, record_message, record_hash, verify,
  verify_records, verify_head,
}
use cdk.Audit.Chain.{Chain, Chain-verify}

-- A record whose fields have the widths of the program's types.
pub record Fits (r : Record) : Type 0 where
  pub seq : r.seq < 2 ^ 64
  pub tsc : r.tsc < 2 ^ 64
  pub kind : r.kind < 256
  pub subject : length r.subject ≤ 48
  pub detail : r.detail < 2 ^ 64

-- The fields that a record's hash covers.
abbrev SameFields : Record → Record → Type 0
SameFields r r' =
    (r.seq ≡ r'.seq)
    × (r.tsc ≡ r'.tsc)
    × (r.kind ≡ r'.kind)
    × (r.subject ≡ r'.subject)
    × (r.detail ≡ r'.detail)

abbrev message : Text → Record → Text
message prev r = record_message prev r.seq r.tsc r.kind r.subject r.detail

u64-injective : (n m : ℕ) → n < 2 ^ 64 → m < 2 ^ 64 → u64_le n ≡ u64_le m → n ≡ m
u64-injective n m l k e = sym (from_le-u64 n l) ∙ ap from_le e ∙ from_le-u64 m k

message-injective :
    (prev prev' : Text) (r r' : Record)
    → length prev ≡ length prev'
    → Fits r
    → Fits r'
    → message prev r ≡ message prev' r'
    → (prev ≡ prev') × SameFields r r'
unfolding record_message
message-injective prev prev' r r' l f f' e =
    let whole =
      append-injective record_domain record_domain (after_domain prev r) (after_domain prev' r')
        refl e in
    let (p, e1) = append-injective prev prev' (after_prev r) (after_prev r') l whole.1 in
    let (s, e2) =
      append-injective (u64_le r.seq) (u64_le r'.seq) (after_seq r) (after_seq r') refl e1 in
    let (t, e3) =
      append-injective (u64_le r.tsc) (u64_le r'.tsc) (after_tsc r) (after_tsc r') refl e2 in
    let k : r.kind % 256 ≡ r'.kind % 256 = cc in
    let n : length r.subject % 256 ≡ length r'.subject % 256 = cc in
    let e4 : r.subject ++ u64_le r.detail ≡ r'.subject ++ u64_le r'.detail = cc in
    let (u, d) =
      append-injective r.subject r'.subject (u64_le r.detail) (u64_le r'.detail)
        (omega (arith, f.subject, f'.subject)) e4 in
    (
      p,
      (
        u64-injective r.seq r'.seq f.seq f'.seq s,
        u64-injective r.tsc r'.tsc f.tsc f'.tsc t,
        omega (arith, f.kind, f'.kind),
        u,
        u64-injective r.detail r'.detail f.detail f'.detail d,
      ),
    )
  where
    after_tsc : Record → Text
    after_tsc q = q.kind % 256 ∷ (length q.subject % 256) ∷ (q.subject ++ u64_le q.detail)

    after_seq : Record → Text
    after_seq q = u64_le q.tsc ++ after_tsc q

    after_prev : Record → Text
    after_prev q = u64_le q.seq ++ after_seq q

    after_domain : Text → Record → Text
    after_domain p q = p ++ after_prev q

record_ext : (r r' : Record) → SameFields r r' → r.hash ≡ r'.hash → r ≡ r'
record_ext r r' f h = cc (f.0, f.1, f.2, f.3, f.4, h)

module _ (sha256 : Text → Text) where
  -- Two different inputs with one hash.
  abbrev pub Collision : Type 0
  Collision = (x : Text) × (y : Text) × (x ≢ y) × (sha256 x ≡ sha256 y)

  same_records :
      (p p' : Text) (s : ℕ) (rs rs' : List Record) (h : Text)
      → ((x : Text) → length (sha256 x) ≡ 32)
      → length p ≡ length p'
      → All Fits rs
      → All Fits rs'
      → length rs ≡ length rs'
      → Chain sha256 p s rs h
      → Chain sha256 p' s rs' h
      → ((p ≡ p') × (rs ≡ rs')) ⊎ Collision
  unfolding record_hash
  same_records p p' s [] [] h size l f f' n c c' = inl (c ∙ sym c', refl)
  same_records p p' s [] (r' ∷ rs') h size l f f' n c c' = absurd (omega arith)
  same_records p p' s (r ∷ rs) [] h size l f f' n c c' = absurd (omega arith)
  same_records p p' s (r ∷ rs) (r' ∷ rs') h size l f f' n c c' =
      elim (same_records r.hash r'.hash (s + 1) rs rs' h size
        (ap length (sym c.1) ∙ size _ ∙ sym (size _) ∙ ap length c'.1) f.1 f'.1 (omega arith) c.2
        c'.2) [
          | inr k ↦ inr k
          | inl (q, t) ↦ elim (Bool-cases (text_eq (message p r) (message p' r'))) [
            | inl e ↦
                let (d, fields) = message-injective p p' r r' l f.0 f'.0 (text_eq→eq _ _ e) in
                inl (d, ap₂ (λ x xs. x ∷ xs) (record_ext r r' fields q) t)
            | inr u ↦ inr (
              message p r,
              message p' r',
              (λ e. differs u (ap (text_eq (message p r)) (sym e) ∙ text_eq_self (message p r))),
              c.1 ∙ q ∙ sym c'.1,
            )
          ]
        ]
    where
      differs : {b : Bool} → b ≡ false → b ≡ true → ⊥
      differs u t = cc

  verified-Chain :
      (trusted : Text) (verify_sig : Text → Text → Bool) (log : AuditLog) (report : VerifyReport)
      → verify sha256 trusted verify_sig log ≡ ok report
      → Chain sha256 log.anchor log.evicted log.records log.head
  unfolding verify verify_head
  verified-Chain trusted verify_sig log report e =
      elim (Bool-cases (log.evicted == 0 && not (text_eq log.anchor log.genesis))) [
        | inl bad ↦ cc (rw bad at e)
        | inr good ↦
            elim (Result-cases (verify_records sha256 log.anchor log.evicted log.records)) [
              | inr (why, w) ↦ cc (rw (good, w) at e)
              | inl (prev, w) ↦ elim (Bool-cases (text_eq prev log.head)) [
                | inr n ↦ cc (rw (good, w, n) at e)
                | inl t ↦
                    Chain-verify sha256 log.anchor log.evicted log.records log.head
                      (w ∙ ap ok (text_eq→eq _ _ t))
              ]
            ]
      ]

  -- Let two logs, the second perhaps a changed copy of the first, both verify and agree on the head,
  -- on how many records were evicted and on how many are held, with fields that fit their types and
  -- hashes of 32 bytes. Then they have the same records and the same anchor, or two different inputs
  -- with one hash are at hand: no record can be edited, replaced or reordered under a signed head.
  pub verified-same :
      (trusted : Text) (verify_sig : Text → Text → Bool) (log log' : AuditLog)
      (report report' : VerifyReport)
      → verify sha256 trusted verify_sig log ≡ ok report
      → verify sha256 trusted verify_sig log' ≡ ok report'
      → log.head ≡ log'.head
      → log.evicted ≡ log'.evicted
      → length log.records ≡ length log'.records
      → length log.anchor ≡ length log'.anchor
      → ((x : Text) → length (sha256 x) ≡ 32)
      → All Fits log.records
      → All Fits log'.records
      → ((log.anchor ≡ log'.anchor) × (log.records ≡ log'.records)) ⊎ Collision
  verified-same trusted verify_sig log log' report report' v v' h e n l size f f' =
      same_records log.anchor log'.anchor log.evicted log.records log'.records log.head size l f f'
        n (verified-Chain trusted verify_sig log report v)
        (subst (λ k. Chain sha256 log'.anchor k log'.records log.head) (sym e)
          (subst (Chain sha256 log'.anchor log'.evicted log'.records) (sym h)
            (verified-Chain trusted verify_sig log' report' v')))
