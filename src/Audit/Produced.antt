-- ===== src/Audit/Produced.antt =====
-- Every log that the program produces verifies.
use cdk.Prelude.{
  ℕ, ◌+◌, ◌<◌, ◌≡◌, refl, ap, ◌∙◌, sym, subst, Bool, true, false, not, ◌&&◌, some, List, [], ◌∷◌,
  ◌++◌, Text, length, length-append, last?, find, drop, ◌==◌, ==_iff, if◌then◌else◌, text_eq,
  text_eq_self, arith, Bool-cases, Option-cases, inl, inr, ◌⊎◌, In, In-append, ok,
}
use cdk.Audit.{
  Record, Checkpoint, AuditLog, Issuer, new, start, append, evict, evict_from, push_record,
  truncate, checkpoint, checkpoint_last, sign_head, checkpoint_digest, record_hash, record_message,
  verify, verify_checkpoints, verify_head, disagrees, report, covers, is_full, max_checkpoints,
}
use cdk.Audit.Chain.{Chain, verify-Chain, Chain-snoc, Chain-last, Chain-last_seq}

module _ (sha256 : Text → Text) (issuer : Issuer) where
  -- A checkpoint of this issuer on a head that the records agree with.
  pub record Agrees (log : AuditLog) (c : Checkpoint) : Type 0 where
    pub by : c.issuer_id ≡ issuer.id
    pub signed :
        issuer.verifies (checkpoint_digest sha256 c.issuer_id c.seq c.head) c.signature ≡ true
    pub earlier : c.seq < log.next_seq
    pub same : (r : Record) → In r log.records → r.seq ≡ c.seq → r.hash ≡ c.head

  pub record Good (log : AuditLog) : Type 0 where
    pub chain : Chain sha256 log.anchor log.evicted log.records log.head
    pub next : log.next_seq ≡ log.evicted + length log.records
    pub anchored : log.evicted ≡ 0 → log.anchor ≡ log.genesis
    pub checked : (c : Checkpoint) → In c log.checkpoints → Agrees log c

  start-Good : Good (start sha256 issuer.id new)
  unfolding start new
  start-Good = record { chain = refl; next = refl; anchored = λ _. refl; checked = λ c m. absurd m }

  evict-Good : (capacity : ℕ) (log : AuditLog) → Good log → Good (evict capacity log)
  unfolding evict
  evict-Good capacity log g = either (is_full capacity log.records) log.records refl
    where
      either :
          (b : Bool) (rs : List Record)
          → log.records ≡ rs
          → Good (if b then evict_from log rs else log)
      either false rs e = g
      either true [] e = g
      either true (old ∷ rest) e =
          let c : Chain sha256 log.anchor log.evicted (old ∷ rest) log.head =
            subst (λ rs. Chain sha256 log.anchor log.evicted rs log.head) e g.chain in
          record {
            chain = c.2;
            next = g.next ∙ ap (λ rs. log.evicted + length rs) e ∙ omega arith;
            anchored = λ z. absurd (omega arith);
            checked = λ k m. record {
              by = (g.checked k m).by;
              signed = (g.checked k m).signed;
              earlier = (g.checked k m).earlier;
              same = λ r i q. (g.checked k m).same r (subst (In r) (sym e) (inr i)) q;
            };
          }

  push-Good :
      (tsc kind : ℕ) (subject : List Text) (detail : ℕ) (log : AuditLog)
      → Good log
      → Good (push_record sha256 tsc kind subject detail log)
  unfolding push_record record_hash
  push-Good tsc kind subject detail log g = record {
    chain = Chain-snoc sha256 log.anchor log.evicted log.records log.head added g.chain g.next refl;
    next = omega (arith, length-append log.records (added ∷ []), g.next);
    anchored = g.anchored;
    checked = λ c m. record {
      by = (g.checked c m).by;
      signed = (g.checked c m).signed;
      earlier = omega (arith, (g.checked c m).earlier);
      same = λ r i q. elim (In-append r log.records (added ∷ []) i) [
        | inl old ↦ (g.checked c m).same r old q
        | inr (inl e) ↦
            let w : r.seq ≡ log.next_seq = ap (λ (k : Record). k.seq) e in
            absurd (omega (arith, (g.checked c m).earlier))
        | inr (inr z) ↦ absurd z
      ];
    };
  }
    where
      added : Record
      added = record {
        seq = log.next_seq;
        tsc = tsc;
        kind = kind;
        subject = truncate [] subject;
        detail = detail;
        hash = sha256 (record_message log.head log.next_seq tsc kind (truncate [] subject) detail);
      }

  append-Good :
      (capacity tsc kind : ℕ) (subject : List Text) (detail : ℕ) (log : AuditLog)
      → Good log
      → Good (append sha256 capacity tsc kind subject detail log)
  unfolding append
  append-Good capacity tsc kind subject detail log g =
      push-Good tsc kind subject detail (evict capacity log) (evict-Good capacity log g)

  In-drop_one :
      (c : Checkpoint) (b : Bool) (cs : List Checkpoint)
      → In c (if b then drop 1 cs else cs)
      → In c cs
  In-drop_one c false cs m = m
  In-drop_one c true [] m = m
  In-drop_one c true (x ∷ cs) m = inr m

  last_In : {A : Type 0} (xs : List A) (a : A) → last? xs ≡ some a → In a xs
  last_In [] a e = cc
  last_In (x ∷ []) a e = let q : x ≡ a = cc in inl (sym q)
  last_In (x ∷ y ∷ ys) a e = inr (last_In (y ∷ ys) a e)

  sign-Good :
      (r : Record) (log : AuditLog)
      → last? log.records ≡ some r
      → Good log
      → Good (sign_head sha256 issuer r.seq log)
  unfolding sign_head
  sign-Good r log last g = either (covers sha256 r.seq (last? log.checkpoints))
    where
      made : Checkpoint
      made = record {
        seq = r.seq;
        head = log.head;
        issuer_id = issuer.id;
        signature = issuer.sign (checkpoint_digest sha256 issuer.id r.seq log.head);
      }

      at_end : r.seq + 1 ≡ log.evicted + length log.records
      at_end = Chain-last_seq sha256 log.anchor log.evicted log.records log.head r g.chain last

      kept : List Checkpoint
      kept =
          if is_full max_checkpoints log.checkpoints
          then drop 1 log.checkpoints
          else log.checkpoints

      made-Agrees : Agrees log made
      made-Agrees = record {
        by = refl;
        signed = issuer.sign_verifies (checkpoint_digest sha256 issuer.id r.seq log.head);
        earlier = omega (arith, g.next, at_end);
        same = λ q m e.
            Chain-last sha256 log.anchor log.evicted log.records log.head q g.chain m
              (omega (arith, at_end));
      }

      all : (c : Checkpoint) → In c (kept ++ (made ∷ [])) → Agrees log c
      all c m = elim (In-append c kept (made ∷ []) m) [
        | inl old ↦
            g.checked c
              (In-drop_one c (is_full max_checkpoints log.checkpoints) log.checkpoints old)
        | inr (inl e) ↦ subst (Agrees log) (sym e) made-Agrees
        | inr (inr z) ↦ absurd z
      ]

      either :
          (b : Bool) → Good (if b then log else record log { checkpoints = kept ++ (made ∷ []) })
      either true = g
      either false = record {
        chain = g.chain;
        next = g.next;
        anchored = g.anchored;
        checked = λ c m. record {
          by = (all c m).by;
          signed = (all c m).signed;
          earlier = (all c m).earlier;
          same = (all c m).same;
        };
      }

  checkpoint-Good : (log : AuditLog) → Good log → Good (checkpoint sha256 issuer log)
  unfolding checkpoint checkpoint_last
  checkpoint-Good log g = elim (Option-cases (last? log.records)) [
    | inl e ↦ rw e g
    | inr (r, e) ↦ rw e (sign-Good r log e g)
  ]

  find-Record :
      (seq : ℕ) (rs : List Record) (r : Record)
      → find (λ k. k.seq == seq) rs ≡ some r
      → In r rs × (r.seq ≡ seq)
  find-Record seq [] r e = cc
  find-Record seq (x ∷ rs) r e = elim (Bool-cases (x.seq == seq)) [
    | inl t ↦
        let q : x ≡ r = cc (rw t at e) in
        (inl (sym q), ap (λ (k : Record). k.seq) (sym q) ∙ (==_iff x.seq seq).0 t)
    | inr f ↦ let (m, q) = find-Record seq rs r (rw f at e) in (inr m, q)
  ]

  agreeing :
      (log : AuditLog) (c : Checkpoint)
      → Agrees log c
      → disagrees sha256 (find (λ r. r.seq == c.seq) log.records) c.head ≡ false
  unfolding disagrees
  agreeing log c a = elim (Option-cases (find (λ r. r.seq == c.seq) log.records)) [
    | inl e ↦ rw e refl
    | inr (r, e) ↦
        let (m, q) = find-Record c.seq log.records r e in
        rw (e, a.same r m q, text_eq_self c.head) refl
  ]

  checkpoints-pass :
      (log : AuditLog) (cs : List Checkpoint)
      → ((c : Checkpoint) → In c cs → Agrees log c)
      → verify_checkpoints sha256 issuer.id issuer.verifies log.records cs ≡ ok tt
  unfolding verify_checkpoints
  checkpoints-pass log [] a = refl
  checkpoints-pass log (c ∷ cs) a =
      let k = a c (inl refl) in
      let i : text_eq c.issuer_id issuer.id ≡ true =
        ap (λ t. text_eq t issuer.id) k.by ∙ text_eq_self issuer.id in
      rw (i, k.signed, agreeing log c k) (checkpoints-pass log cs (λ d m. a d (inr m)))

  verify-Good :
      (log : AuditLog)
      → Good log
      → verify sha256 issuer.id issuer.verifies log ≡ ok (report sha256 log)
  unfolding verify verify_head
  verify-Good log g =
      rw
        (
          genesis (Bool-cases (log.evicted == 0)),
          verify-Chain sha256 log.anchor log.evicted log.records log.head g.chain,
          text_eq_self log.head,
          checkpoints-pass log log.checkpoints g.checked,
        )
        refl
    where
      genesis :
          (log.evicted == 0 ≡ true) ⊎ (log.evicted == 0 ≡ false)
          → (log.evicted == 0 && not (text_eq log.anchor log.genesis)) ≡ false
      genesis (inl z) =
          let e : text_eq log.anchor log.genesis ≡ true =
            ap (λ t. text_eq t log.genesis) (g.anchored ((==_iff log.evicted 0).0 z))
            ∙ text_eq_self log.genesis in
          rw (z, e) refl
      genesis (inr n) = rw n refl

  -- One call on the log of a kernel that has started it.
  pub data Step (capacity : ℕ) : AuditLog → AuditLog → Type 0 where
    appended :
        (tsc kind : ℕ) (subject : List Text) (detail : ℕ) (log : AuditLog)
        → Step capacity log (append sha256 capacity tsc kind subject detail log)
    checkpointed : (log : AuditLog) → Step capacity log (checkpoint sha256 issuer log)

  pub data Reachable (capacity : ℕ) : AuditLog → Type 0 where
    begun : Reachable capacity (start sha256 issuer.id new)
    stepped : (s t : AuditLog) → Reachable capacity s → Step capacity s t → Reachable capacity t

  reachable-Good : (capacity : ℕ) (log : AuditLog) → Reachable capacity log → Good log
  reachable-Good capacity _ begun = start-Good
  reachable-Good capacity _ (stepped _ _ h (appended tsc kind subject detail s)) =
      append-Good capacity tsc kind subject detail s (reachable-Good capacity s h)
  reachable-Good capacity _ (stepped _ _ h (checkpointed s)) =
      checkpoint-Good s (reachable-Good capacity s h)

  -- A log that was started and then grew by appended records and checkpoints of its issuer, in any
  -- number and any order, with records evicted once `capacity` of them are held, verifies, and the
  -- report is the one that its records and checkpoints give.
  pub reachable-verify :
      (capacity : ℕ) (log : AuditLog)
      → Reachable capacity log
      → verify sha256 issuer.id issuer.verifies log ≡ ok (report sha256 log)
  reachable-verify capacity log h = verify-Good log (reachable-Good capacity log h)
