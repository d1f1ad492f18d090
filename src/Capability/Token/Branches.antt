-- ===== src/Capability/Token/Branches.antt =====
-- How each branch of `verify_by` ends, for any check.
use cdk.Prelude.{◌≡◌, Bool, true, false, none, some, Text, ◌==◌, text_eq, arith, ok, err}
use cdk.Capability.{
  Capability, CapabilityProof, unsupported_format, unknown_issuer, HybridSignature,
}
use cdk.Capability.Token.{signable_digest, signable_message, verify_by, token_format_v1}

module _ (sha256 : Text → Text) where
  -- The three ends of `verify_by`.
  module _ {S : Type 0} (trusted : Text) (check : Text → HybridSignature → S → Bool × S)
      (c : Capability) (st : S) where
    pub unsigned : c.proof ≡ none → verify_by sha256 trusted check c st ≡ (ok false, st)
    unfolding verify_by
    unsigned e = ground arith

    module _ (p : CapabilityProof) (e : c.proof ≡ some p) where
      pub old_format :
          (p.format == token_format_v1) ≡ false
          → verify_by sha256 trusted check c st ≡ (err unsupported_format, st)
      unfolding verify_by
      old_format f = ground arith

      pub other_issuer :
          (p.format == token_format_v1) ≡ true
          → text_eq p.issuer_id trusted ≡ false
          → verify_by sha256 trusted check c st ≡ (err unknown_issuer, st)
      unfolding verify_by
      other_issuer v1 f = ground arith

      pub checked :
          (p.format == token_format_v1) ≡ true
          → text_eq p.issuer_id trusted ≡ true
          → verify_by sha256 trusted check c st ≡ (
            ok
                (check
                  (sha256 (signable_message c p.format p.algorithm p.issuer_id))
                  p.signature
                  st).0,
            (check (sha256 (signable_message c p.format p.algorithm p.issuer_id)) p.signature st).1,
          )
      unfolding verify_by signable_digest
      checked v1 mine = ground arith
