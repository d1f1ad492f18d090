-- ===== src/Audit.antt =====
-- src/audit.rs: the hash-chained log of audit records with its signed checkpoints. The hash and the
-- signatures are parameters. A subject is given as its characters, each by its bytes.
pub mod Chain
pub mod Produced
pub mod Tamper
mod Tests
use cdk.Prelude.{
  ℕ, ◌+◌, ◌-◌, ◌*◌, ◌/◌, ◌%◌, ◌^◌, ◌≡◌, Bool, true, false, not, ◌&&◌, ◌||◌, Option, none, some,
  List, [], ◌∷◌, ◌++◌, Text, length, find, last?, drop, ltb, leb, ◌==◌, if◌then◌else◌, text_eq,
  Result, ok, err, replicate,
}
use cdk.Prelude.Bytes.{u64_le}

abbrev pub max_subject : ℕ
max_subject = 48

abbrev pub max_checkpoints : ℕ
max_checkpoints = 8

-- A record's kind is given by its number.
pub record Record : Type 0 where
  pub seq : ℕ
  pub tsc : ℕ
  pub kind : ℕ
  pub subject : Text
  pub detail : ℕ
  pub hash : Text

pub record Checkpoint : Type 0 where
  pub seq : ℕ
  pub head : Text
  pub issuer_id : Text
  pub signature : Text

pub data AuditError : Type 0 where
  broken_at gap_before : ℕ → AuditError
  head_mismatch bad_genesis : AuditError
  bad_checkpoint checkpoint_mismatch : ℕ → AuditError

pub record VerifyReport : Type 0 where
  pub records : ℕ
  pub first_seq : Option ℕ
  pub last_seq : Option ℕ
  pub evicted : ℕ
  pub checkpoints : ℕ
  pub latest_checkpoint : Option ℕ
  pub unsigned_tail : ℕ

pub record AuditLog : Type 0 where
  pub records : List Record
  pub checkpoints : List Checkpoint
  pub genesis : Text
  pub anchor : Text
  pub head : Text
  pub next_seq : ℕ
  pub evicted : ℕ
  pub started : Bool

abbrev pub zeros : Text
zeros = replicate 32 0

unfoldable pub new : AuditLog
new = record {
  records = [];
  checkpoints = [];
  genesis = zeros;
  anchor = zeros;
  head = zeros;
  next_seq = 0;
  evicted = 0;
  started = false;
}

-- An issuer's key pair; a signature that it makes verifies.
pub record Issuer : Type 0 where
  pub id : Text
  pub sign : Text → Text
  pub verifies : Text → Text → Bool
  pub sign_verifies : (digest : Text) → verifies digest (sign digest) ≡ true

-- Characters are pushed until one does not fit.
unfoldable pub truncate : Text → List Text → Text
truncate out [] = out
truncate out (ch ∷ chars) =
    let rest = truncate (out ++ ch) chars in
    if leb (length (out ++ ch)) max_subject then rest else out

-- b"CDK-AUDIT-GENESIS-v1"
abbrev pub genesis_domain : Text
genesis_domain =
    b'C' ∷ b'D' ∷ b'K' ∷ b'-' ∷ b'A' ∷ b'U' ∷ b'D' ∷ b'I' ∷ b'T' ∷ b'-' ∷ b'G' ∷ b'E' ∷ b'N' ∷ b'E'
    ∷ b'S' ∷ b'I' ∷ b'S' ∷ b'-' ∷ b'v' ∷ b'1' ∷ []

-- b"CDK-AUDIT-REC-v1"
abbrev pub record_domain : Text
record_domain =
    b'C' ∷ b'D' ∷ b'K' ∷ b'-' ∷ b'A' ∷ b'U' ∷ b'D' ∷ b'I' ∷ b'T' ∷ b'-' ∷ b'R' ∷ b'E' ∷ b'C' ∷ b'-'
    ∷ b'v' ∷ b'1' ∷ []

-- b"CDK-AUDIT-CKPT-v1"
abbrev pub checkpoint_domain : Text
checkpoint_domain =
    b'C' ∷ b'D' ∷ b'K' ∷ b'-' ∷ b'A' ∷ b'U' ∷ b'D' ∷ b'I' ∷ b'T' ∷ b'-' ∷ b'C' ∷ b'K' ∷ b'P' ∷ b'T'
    ∷ b'-' ∷ b'v' ∷ b'1' ∷ []

-- The bytes that `record_hash` and `checkpoint_digest` hash.
unfoldable pub record_message : Text → ℕ → ℕ → ℕ → Text → ℕ → Text
record_message prev seq tsc kind subject detail =
    record_domain
    ++ (prev
        ++ (u64_le seq
            ++ (u64_le tsc ++ (kind % 256 ∷ (length subject % 256) ∷ (subject ++ u64_le detail)))))

unfoldable pub checkpoint_message : Text → ℕ → Text → Text
checkpoint_message issuer_id seq head = checkpoint_domain ++ (issuer_id ++ (u64_le seq ++ head))

abbrev is_full : {A : Type 0} → ℕ → List A → Bool
is_full capacity xs = leb capacity (length xs)

abbrev evict_from : AuditLog → List Record → AuditLog
evict_from log [] = log
evict_from log (old ∷ rest) = record log {
  records = rest;
  anchor = old.hash;
  evicted = log.evicted + 1;
}

-- `pop_front` of a full queue, with the anchor moved to the record that leaves.
evict : ℕ → AuditLog → AuditLog
evict capacity log = if is_full capacity log.records then evict_from log log.records else log

module _ (sha256 : Text → Text) where
  unfoldable pub record_hash : Text → Record → Text
  record_hash prev r = sha256 (record_message prev r.seq r.tsc r.kind r.subject r.detail)

  unfoldable pub start : Text → AuditLog → AuditLog
  start issuer_id log = if log.started then log else record log {
    genesis = sha256 (genesis_domain ++ issuer_id);
    anchor = sha256 (genesis_domain ++ issuer_id);
    head = sha256 (genesis_domain ++ issuer_id);
    started = true;
  }

  push_record : ℕ → ℕ → List Text → ℕ → AuditLog → AuditLog
  unfolding record_hash
  push_record tsc kind subject detail log =
      let text = truncate [] subject in
      let hash = sha256 (record_message log.head log.next_seq tsc kind text detail) in
      record log {
        records =
            log.records
            ++ (record {
              seq = log.next_seq;
              tsc = tsc;
              kind = kind;
              subject = text;
              detail = detail;
              hash = hash;
            }
                ∷ []);
        head = hash;
        next_seq = log.next_seq + 1;
      }

  -- On a log that holds at most `capacity` records; the number of the record is `next_seq` before.
  unfoldable pub append : ℕ → ℕ → ℕ → List Text → ℕ → AuditLog → AuditLog
  unfolding push_record evict
  append capacity tsc kind subject detail log =
      push_record tsc kind subject detail (evict capacity log)

  unfoldable pub checkpoint_digest : Text → ℕ → Text → Text
  checkpoint_digest issuer_id seq head = sha256 (checkpoint_message issuer_id seq head)

  abbrev covers : ℕ → Option Checkpoint → Bool
  covers seq none = false
  covers seq (some c) = c.seq == seq

  sign_head : Issuer → ℕ → AuditLog → AuditLog
  unfolding checkpoint_digest
  sign_head issuer seq log = if covers seq (last? log.checkpoints) then log else record log {
    checkpoints =
        (if is_full max_checkpoints log.checkpoints
          then drop 1 log.checkpoints
          else log.checkpoints)
        ++ (record {
          seq = seq;
          head = log.head;
          issuer_id = issuer.id;
          signature = issuer.sign (checkpoint_digest issuer.id seq log.head);
        }
            ∷ []);
  }

  checkpoint_last : Issuer → Option Record → AuditLog → AuditLog
  unfolding sign_head
  checkpoint_last issuer none log = log
  checkpoint_last issuer (some r) log = sign_head issuer r.seq log

  unfoldable pub checkpoint : Issuer → AuditLog → AuditLog
  unfolding checkpoint_last
  checkpoint issuer log = checkpoint_last issuer (last? log.records) log

  -- The first loop of `verify`: the hash after the records, or the error.
  unfoldable pub verify_records : Text → ℕ → List Record → Result AuditError Text
  unfolding record_hash
  verify_records prev seq [] = ok prev
  verify_records prev seq (r ∷ rs) =
      let rest = verify_records (record_hash prev r) (seq + 1) rs in
      if not (r.seq == seq)
      then err (gap_before r.seq)
      else (if not (text_eq (record_hash prev r) r.hash) then err (broken_at r.seq) else rest)

  disagrees : Option Record → Text → Bool
  disagrees none head = false
  disagrees (some r) head = not (text_eq r.hash head)

  -- The second loop.
  unfoldable pub verify_checkpoints :
      Text → (Text → Text → Bool) → List Record → List Checkpoint → Result AuditError (Unit {0})
  unfolding checkpoint_digest disagrees
  verify_checkpoints trusted verify_sig records [] = ok tt
  verify_checkpoints trusted verify_sig records (c ∷ cs) =
      let rest = verify_checkpoints trusted verify_sig records cs in
      if not (text_eq c.issuer_id trusted)
        || not (verify_sig (checkpoint_digest c.issuer_id c.seq c.head) c.signature)
      then err (bad_checkpoint c.seq)
      else (if disagrees (find (λ r. r.seq == c.seq) records) c.head
          then err (checkpoint_mismatch c.seq)
          else rest)

  seq_of : Option Record → Option ℕ
  seq_of none = none
  seq_of (some r) = some r.seq

  covered_of : Option Checkpoint → Option ℕ
  covered_of none = none
  covered_of (some c) = some c.seq

  abbrev first : List Record → Option Record
  first [] = none
  first (r ∷ rs) = some r

  tail_length : Option ℕ → Option ℕ → ℕ → ℕ
  tail_length (some last) (some ck) n = last - ck
  tail_length (some last) none n = n
  tail_length none ck n = 0

  unfoldable pub report : AuditLog → VerifyReport
  unfolding seq_of covered_of tail_length
  report log = record {
    records = length log.records;
    first_seq = seq_of (first log.records);
    last_seq = seq_of (last? log.records);
    evicted = log.evicted;
    checkpoints = length log.checkpoints;
    latest_checkpoint = covered_of (last? log.checkpoints);
    unsigned_tail =
        tail_length (seq_of (last? log.records)) (covered_of (last? log.checkpoints))
          (length log.records);
  }

  verify_head :
      Text
      → (Text → Text → Bool)
      → AuditLog
      → Result AuditError Text
      → Result AuditError VerifyReport
  unfolding verify_checkpoints report
  verify_head trusted verify_sig log (err e) = err e
  verify_head trusted verify_sig log (ok prev) =
      if not (text_eq prev log.head)
      then err head_mismatch
      else report_of (verify_checkpoints trusted verify_sig log.records log.checkpoints)
    where
      report_of : Result AuditError (Unit {0}) → Result AuditError VerifyReport
      report_of (err e) = err e
      report_of (ok done) = ok (report log)

  unfoldable pub verify : Text → (Text → Text → Bool) → AuditLog → Result AuditError VerifyReport
  unfolding verify_records verify_head
  verify trusted verify_sig log =
      if log.evicted == 0 && not (text_eq log.anchor log.genesis)
      then err bad_genesis
      else verify_head trusted verify_sig log (verify_records log.anchor log.evicted log.records)
