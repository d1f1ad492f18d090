-- ===== src/Capability/Tests.antt =====
-- Runs of the token code, and the theorems at concrete tokens.
use cdk.Prelude.{
  ℕ, ◌≡◌, ◌≢◌, refl, Bool, true, false, Option, none, some, List, [], ◌∷◌, ◌++◌, Text, length, take,
  replicate, drop, arith, ok, err, ◌↔◌, ◌⊎◌, length-take, length-append, All, ◌==◌, if◌then◌else◌,
  any, text_eq, ◌≤◌,
}
use cdk.Capability.{
  Capability, CapabilityProof, HybridSignature, hybrid_ed25519_ml_dsa_65, Permission, read, delete,
  perm_eq, has_permission,
}
use cdk.Capability.Masks.{IsValid}
use cdk.Capability.Cache
use cdk.Capability.Cache.{Cache}
use cdk.Capability.Cache.Ring
use cdk.Capability.Cache.Ring.{contents}
use cdk.Capability.Token.{Issuer, signable_message, verify_with, verify}
use cdk.Capability.Token.Digest.{signable_canonical, signable_injective}
use cdk.Capability.Token.Verify.{Genuine, verify_with_iff}
use cdk.Capability.Token.Cached.{IsSound, Collision, verify_cached}

-- Stands for the hash: the first 32 bytes, padded.
abbrev prefix_hash : Text → Text
prefix_hash x = take 32 (x ++ replicate 32 0)

prefix_hash-size : (x : Text) → length (prefix_hash x) ≡ 32
prefix_hash-size x =
    omega (arith, length-take 32 (x ++ replicate 32 0), length-append x (replicate 32 0))

-- Stands for the signature scheme: the signature repeats the digest.
abbrev toy_sign : Text → HybridSignature
toy_sign d = record { ed25519 = take 64 (d ++ replicate 64 0); mldsa65 = [] }

abbrev toy : Issuer
toy = record {
  id = replicate 16 7;
  sign = toy_sign;
  verifies = λ d s. text_eq (toy_sign d).ed25519 s.ed25519;
  sign_verifies = λ d. cdk.Prelude.text_eq_self (take 64 (d ++ replicate 64 0));
}

abbrev cap1 : Capability
cap1 = record { object_id = 111 ∷ 49 ∷ []; permissions = read ∷ delete ∷ []; proof = none }

abbrev cap2 : Capability
cap2 = record { object_id = 111 ∷ 49 ∷ []; permissions = delete ∷ read ∷ []; proof = none }

cap1-IsValid : IsValid cap1
unfolding perm_eq
cap1-IsValid = record { distinct = (refl, (refl, tt)) }

cap2-IsValid : IsValid cap2
unfolding perm_eq
cap2-IsValid = record { distinct = (refl, (refl, tt)) }

same_perms : (p : Permission) → has_permission cap1 p ≡ has_permission cap2 p
unfolding has_permission perm_eq
same_perms p = ground arith

same_message :
    signable_message cap1 1 hybrid_ed25519_ml_dsa_65 toy.id
    ≡ signable_message cap2 1 hybrid_ed25519_ml_dsa_65 toy.id
same_message =
    signable_canonical cap1 cap2 1 hybrid_ed25519_ml_dsa_65 toy.id cap1-IsValid cap2-IsValid refl
      same_perms

signable_injective_example :
    (cap1.object_id ≡ cap2.object_id)
    × ((p : Permission) → has_permission cap1 p ≡ has_permission cap2 p)
    × (◌≡◌ {A = ℕ} 1 1)
    × (toy.id ≡ toy.id)
signable_injective_example =
    signable_injective cap1 cap2 1 1 hybrid_ed25519_ml_dsa_65 hybrid_ed25519_ml_dsa_65 toy.id toy.id
      refl refl (omega arith) (omega arith) same_message

verify_with_iff_example :
    (verify_with prefix_hash toy cap1 ≡ ok true)
    ↔ ((p : CapabilityProof) × Genuine prefix_hash toy cap1 p)
verify_with_iff_example = verify_with_iff prefix_hash toy cap1

abbrev issued : Capability
issued = record cap1 {
  proof = some (record {
    format = 1;
    algorithm = hybrid_ed25519_ml_dsa_65;
    issuer_id = replicate 16 7;
    signature = toy_sign (replicate 32 5);
  });
}

empty-IsSound : IsSound prefix_hash toy Cache.empty
unfolding Cache.empty
empty-IsSound = record { ring = Ring.empty-IsValid; remembered = tt }

verify_cached_example :
    (((verify prefix_hash toy issued Cache.empty).0 ≡ verify_with prefix_hash toy issued)
      ⊎ Collision prefix_hash)
    × IsSound prefix_hash toy (verify prefix_hash toy issued Cache.empty).1
verify_cached_example =
    verify_cached prefix_hash toy issued Cache.empty prefix_hash-size issued_size empty-IsSound
  where
    issued_size : (p : CapabilityProof) → issued.proof ≡ some p → length p.signature.ed25519 ≡ 64
    issued_size p e = ground arith
