-- ===== src/Capability/Token.antt =====
-- src/capability.rs: the digest that a proof covers, issuing a token and verifying it. The hash
-- and the signature scheme are parameters; the domain of a signature is fixed to capabilities.
pub mod Digest
pub mod Branches
pub mod Verify
pub mod Cached
use cdk.Prelude.{
  ℕ, ◌+◌, ◌*◌, ◌/◌, ◌%◌, ◌≡◌, Bool, true, false, not, Option, none, some, List, [], ◌∷◌, ◌++◌, map,
  Text, length, ◌==◌, if◌then◌else◌, text_eq, Result, ok, err,
}
use cdk.Prelude.Sort.{sort}
use cdk.Prelude.Bytes.{u16_le}
use cdk.Capability.Cache
use cdk.Capability.Cache.{Cache}
use cdk.Capability.{
  Capability, CapabilityProof, CapabilityError, unknown_issuer, unsupported_format, HybridSignature,
  SignatureAlgorithm, hybrid_ed25519_ml_dsa_65, tag,
}

abbrev pub token_format_v1 : ℕ
token_format_v1 = 1

-- b"CDK-CAP"
abbrev pub token_domain : Text
token_domain = b'C' ∷ b'D' ∷ b'K' ∷ b'-' ∷ b'C' ∷ b'A' ∷ b'P' ∷ []

-- The discriminant of the algorithm.
abbrev pub algorithm_code : SignatureAlgorithm → ℕ
algorithm_code hybrid_ed25519_ml_dsa_65 = 0x01

-- The bytes that `signable_digest` hashes, in order.
unfoldable pub signable_message : Capability → ℕ → SignatureAlgorithm → Text → Text
signable_message c format algorithm issuer_id =
    token_domain
    ++ format
      ∷ algorithm_code algorithm
      ∷ (issuer_id ++ (u16_le (length c.object_id) ++ (c.object_id ++ (length tags % 256) ∷ tags)))
  where
    tags : List ℕ
    tags = sort (map tag c.permissions)

-- An issuer's key pair, or its public half, as the code uses it. A signature that it makes verifies.
pub record Issuer : Type 0 where
  pub id : Text
  pub sign : Text → HybridSignature
  pub verifies : Text → HybridSignature → Bool
  pub sign_verifies : (digest : Text) → verifies digest (sign digest) ≡ true

module _ (sha256 : Text → Text) where
  unfoldable pub signable_digest : Capability → ℕ → SignatureAlgorithm → Text → Text
  signable_digest c format algorithm issuer_id =
      sha256 (signable_message c format algorithm issuer_id)

  unfoldable pub issue_with : Issuer → Capability → Capability
  unfolding signable_digest
  issue_with issuer c = record c {
    proof = some (record {
      format = token_format_v1;
      algorithm = hybrid_ed25519_ml_dsa_65;
      issuer_id = issuer.id;
      signature =
          issuer.sign (signable_digest c token_format_v1 hybrid_ed25519_ml_dsa_65 issuer.id);
    });
  }

  -- The check may change a state, as the cached one does.
  unfoldable pub verify_by {ℓ} :
      {S : Type ℓ}
      → Text
      → (Text → HybridSignature → S → Bool × S)
      → Capability
      → S
      → Result CapabilityError Bool × S
  unfolding signable_digest
  verify_by trusted check c s = elim c.proof [
    | none ↦ (ok false, s)
    | some proof ↦
        if not (proof.format == token_format_v1)
        then (err unsupported_format, s)
        else if not (text_eq proof.issuer_id trusted)
        then (err unknown_issuer, s)
        else let (b, s') =
            check (signable_digest c proof.format proof.algorithm proof.issuer_id) proof.signature
              s in
          (ok b, s')
  ]

  -- A check that keeps no state.
  unfoldable pub verify_with : Issuer → Capability → Result CapabilityError Bool
  unfolding verify_by
  verify_with issuer c =
      (verify_by issuer.id (λ digest sig s. (issuer.verifies digest sig, s)) c (tt {0})).0

  -- The check of `verify`: a hit in the cache counts as verified, and a success is remembered.
  unfoldable pub check_cached : Issuer → Text → HybridSignature → Cache → Bool × Cache
  check_cached kernel digest sig cache =
      let k = Cache.key sha256 digest sig in
      let (hit, cache') = Cache.lookup k cache in
      if hit
      then (true, cache')
      else let valid = kernel.verifies digest sig in
        (valid, if valid then Cache.insert k cache' else cache')

  unfoldable pub verify : Issuer → Capability → Cache → Result CapabilityError Bool × Cache
  unfolding verify_by check_cached
  verify kernel c cache = verify_by kernel.id (check_cached kernel) c cache
