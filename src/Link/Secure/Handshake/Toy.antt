-- ===== src/Link/Secure/Handshake/Toy.antt =====
-- Exchanges that can be evaluated: a secret is the sum of its bytes.
use cdk.Prelude.{
  ℕ, zero, suc, ◌+◌, ◌≡◌, refl, ap, Bool, true, [], ◌∷◌, Text, length, arith, replicate, text_eq,
  text_eq_self,
}
use cdk.Link.Secure.Session.Toy.{toy}
use cdk.Link.Secure.Handshake.{Identity, Signature, Exchange, ClientRandom, ServerRandom}
use cdk.Link.Secure.Handshake.Parts.{IsIdentity, IsSignature}
use cdk.Link.Secure.Handshake.Establish.{sh}

abbrev pub total : Text → ℕ
total [] = 0
total (b ∷ s) = b + total s

-- `n` bytes with the sum `k`.
abbrev pub padded : ℕ → ℕ → Text
padded n k = k ∷ replicate n 0

pub total_zeros : (n : ℕ) → total (replicate n 0) ≡ 0
total_zeros zero = refl
total_zeros (suc n) = omega (arith, total_zeros n)

pub length_zeros : (n : ℕ) → length (replicate {A = ℕ} n 0) ≡ n
length_zeros zero = refl
length_zeros (suc n) = ap suc (length_zeros n)

abbrev pub sums : Exchange
sums = record {
  x_public = λ s. padded 31 (total s);
  diffie_hellman = λ s p. padded 31 (total s + total p);
  kem_public = λ s. padded 1183 (total s);
  is_kem_key = λ k. true;
  encapsulate = λ k m. (padded 1087 (total m), padded 31 (total k + total m));
  decapsulate = λ s c. padded 31 (total s + total c);
  sha256 = λ t. padded 31 (total t);
  hkdf = λ salt ikm label. padded 31 (total salt + (total ikm + total label));
  length-x_public = λ s. ap suc (length_zeros 31);
  length-kem_public = λ s. ap suc (length_zeros 1183);
  length-ciphertext = λ k m. ap suc (length_zeros 1087);
  dh_comm = λ a b. ap (padded 31) (omega (arith, total_zeros 31));
  is_kem_key-kem_public = λ s. refl;
  decapsulate-encapsulate =
      λ s m. ap (padded 31) (omega (arith, total_zeros 1183, total_zeros 1087));
}

abbrev pub ours : ClientRandom
ours = record { x25519 = 3 ∷ []; kem_seed = 5 ∷ []; nonce = padded 31 1 }

abbrev pub theirs : ServerRandom
theirs = record { x25519 = 7 ∷ []; kem_m = 11 ∷ []; nonce = padded 31 2 }

abbrev pub identity : ℕ → Identity
identity k = record { ed = padded 31 k; ml = padded 1951 k }

pub identity-IsIdentity : (k : ℕ) → IsIdentity (identity k)
identity-IsIdentity k = record { ed = ap suc (length_zeros 31); ml = ap suc (length_zeros 1951) }

-- A signature carries the sum of the digest.
abbrev pub sign : Text → Signature
sign d = record { ed = padded 63 (total d); ml = padded 3308 (total d) }

pub sign-IsSignature : (d : Text) → IsSignature (sign d)
sign-IsSignature d = record { ed = ap suc (length_zeros 63); ml = ap suc (length_zeros 3308) }

abbrev pub trust : Identity → Text → Signature → Bool
trust i d s = text_eq s.ed (padded 63 (total d))

pub trust_sign : (i : Identity) (d : Text) → trust i d (sign d) ≡ true
trust_sign i d = text_eq_self (padded 63 (total d))

-- The server's answer in a run with the client.
abbrev pub answer : Text
answer =
    sh sums toy total ours theirs (identity 0) (identity 1) sign sign trust trust
      (ap suc (length_zeros 31)) (ap suc (length_zeros 31)) (identity-IsIdentity 0)
      (identity-IsIdentity 1) sign-IsSignature sign-IsSignature
