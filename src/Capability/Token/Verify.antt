-- ===== src/Capability/Token/Verify.antt =====
-- What a verified token shows, with and without the cache of verified proofs.
use cdk.Prelude.{
  ◌≡◌, refl, true, false, some, Text, text_eq_iff, text_eq_self, arith, inl, inr, ◌↔◌, Option-cases,
  ok,
}
use cdk.Capability.{
  Capability, CapabilityProof, remove_permission, Permission, hybrid_ed25519_ml_dsa_65,
}
use cdk.Capability.Token.{
  Issuer, signable_digest, signable_message, issue_with, verify_with, token_format_v1,
}

module _ (sha256 : Text → Text) where
  -- The proof that a token carries is this issuer's, for the token as it is now.
  pub record Genuine (issuer : Issuer) (c : Capability) (p : CapabilityProof) : Type 0 where
    pub carried : c.proof ≡ some p
    pub format : p.format ≡ token_format_v1
    pub issued_by : p.issuer_id ≡ issuer.id
    pub signed :
        issuer.verifies (sha256 (signable_message c p.format p.algorithm p.issuer_id)) p.signature
        ≡ true

  -- A token verifies exactly if it carries a genuine proof: of the known format and the trusted
  -- issuer, with a signature that verifies over the token's digest.
  pub verify_with_iff :
      (issuer : Issuer) (c : Capability)
      → (verify_with sha256 issuer c ≡ ok true) ↔ ((p : CapabilityProof) × Genuine issuer c p)
  unfolding verify_with signable_digest
  verify_with_iff issuer c = elim (Option-cases c.proof) [
    | inl e ↦ (λ h. ground arith, λ (p, g). cc (e, g.carried))
    | inr (p, e) ↦ (λ h. (p, shown p e h), λ (q, g). accepted q g)
  ]
    where
      shown :
          (p : CapabilityProof)
          → c.proof ≡ some p
          → verify_with sha256 issuer c ≡ ok true
          → Genuine issuer c p
      shown p e h = ground (arith, text_eq_iff p.issuer_id issuer.id)

      accepted : (p : CapabilityProof) → Genuine issuer c p → verify_with sha256 issuer c ≡ ok true
      accepted p g = ground (arith, text_eq_iff p.issuer_id issuer.id)

  -- An issued token verifies with its issuer, and after a removal of any permission it does not.
  pub issue-verify :
      (issuer : Issuer) (c : Capability) (p : Permission)
      → (verify_with sha256 issuer (issue_with sha256 issuer c) ≡ ok true)
        × (verify_with sha256 issuer (remove_permission (issue_with sha256 issuer c) p) ≡ ok false)
  unfolding verify_with issue_with remove_permission signable_digest signable_message
  issue-verify issuer c p = (
    ground (
      arith,
      text_eq_self issuer.id,
      issuer.sign_verifies
          (signable_digest sha256 c token_format_v1 hybrid_ed25519_ml_dsa_65 issuer.id),
    ),
    refl,
  )
