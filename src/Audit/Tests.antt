-- ===== src/Audit/Tests.antt =====
-- The log's theorems at a log of one record.
use cdk.Prelude.{
  ◌≡◌, refl, [], ◌∷◌, ◌++◌, Text, length, length-append, length-take, take, replicate, text_eq,
  text_eq_self, arith, All, ◌⊎◌, ok,
}
use cdk.Audit.{
  AuditLog, Issuer, new, start, append, push_record, evict, truncate, checkpoint, verify, report,
}
use cdk.Audit.Produced.{Reachable, begun, stepped, appended, checkpointed, reachable-verify}
use cdk.Audit.Tamper.{Fits, Collision, verified-same}

-- The first 32 bytes, filled up with zeros.
abbrev first_bytes : Text → Text
first_bytes x = take 32 (x ++ replicate 32 0)

first_bytes-size : (x : Text) → length (first_bytes x) ≡ 32
first_bytes-size x =
    omega (arith, length-take 32 (x ++ replicate 32 0), length-append x (replicate 32 0))

-- A signature is the digest.
abbrev issuer : Issuer
issuer = record {
  id = replicate 16 7;
  sign = λ d. d;
  verifies = text_eq;
  sign_verifies = text_eq_self;
}

abbrev one_record : AuditLog
one_record = append first_bytes 4 5 3 ((b'a' ∷ []) ∷ []) 9 (start first_bytes issuer.id new)

abbrev signed_log : AuditLog
signed_log = checkpoint first_bytes issuer one_record

one_record-Reachable : Reachable first_bytes issuer 4 one_record
one_record-Reachable =
    stepped (start first_bytes issuer.id new) one_record begun
      (appended 5 3 ((b'a' ∷ []) ∷ []) 9 (start first_bytes issuer.id new))

reachable-verify_example :
    verify first_bytes issuer.id issuer.verifies signed_log ≡ ok (report first_bytes signed_log)
reachable-verify_example =
    reachable-verify first_bytes issuer 4 signed_log
      (stepped one_record signed_log one_record-Reachable (checkpointed one_record))

one_record-Fits : All Fits one_record.records
unfolding append push_record evict truncate start new
one_record-Fits = (
  record {
    seq = omega arith;
    tsc = omega arith;
    kind = omega arith;
    subject = omega arith;
    detail = omega arith;
  },
  tt,
)

one_record_verifies :
    verify first_bytes issuer.id issuer.verifies one_record ≡ ok (report first_bytes one_record)
one_record_verifies = reachable-verify first_bytes issuer 4 one_record one_record-Reachable

verified-same_example :
    ((one_record.anchor ≡ one_record.anchor) × (one_record.records ≡ one_record.records))
    ⊎ Collision first_bytes
verified-same_example =
    verified-same first_bytes issuer.id issuer.verifies one_record one_record
      (report first_bytes one_record) (report first_bytes one_record) one_record_verifies
      one_record_verifies refl refl refl refl first_bytes-size one_record-Fits one_record-Fits
