-- ===== src/Capability/Token/Cached.antt =====
-- The cache of verified proofs changes no answer.
use cdk.Prelude.{
  apart, ◌≡◌, ◌≢◌, refl, ap, ap₂, subst, ◌∙◌, sym, Bool, true, false, some, List, [], ◌∷◌, ◌++◌,
  Text, length, drop, any, ◌==◌, if◌then◌else◌, text_eq, text_eq_iff, text_eq→eq, arith, Bool-cases,
  inl, inr, ◌⊎◌, All, All-append, Option-cases, Result, ok, append-injective,
}
use cdk.Capability.{Capability, CapabilityProof, CapabilityError, HybridSignature}
use cdk.Capability.Cache
use cdk.Capability.Cache.{Cache, key, key_message, domain, lookup, capacity}
use cdk.Capability.Cache.Ring.{IsValid, contents, lookup_lem, insert-IsValid, contents-insert}
use cdk.Capability.Token.{
  Issuer, signable_message, verify_with, verify, token_format_v1, check_cached,
}
use cdk.Capability.Token.Branches.{unsigned, old_format, other_issuer, checked}

any-All :
    {A : Type 0} {P : A → Type 0} (p : A → Bool) (xs : List A)
    → All P xs
    → any p xs ≡ true
    → (a : A) × P a × (p a ≡ true)
any-All p [] h e = cc
any-All p (x ∷ xs) h e = elim (Bool-cases (p x)) [
  | inl t ↦ (x, h.0, t)
  | inr f ↦ any-All p xs h.1 (ground arith)
]

All-drop_one : {A : Type 0} (P : A → Type 0) (xs : List A) → All P xs → All P (drop 1 xs)
All-drop_one P [] h = tt
All-drop_one P (x ∷ xs) h = h.1

module _ (sha256 : Text → Text) where
  -- Two inputs with one hash.
  abbrev pub Collision : Type 0
  Collision = (x : Text) × (y : Text) × (x ≢ y) × (sha256 x ≡ sha256 y)

  -- A key of the cache stands for a proof that verified.
  pub record Remembered (kernel : Issuer) (k : Text) : Type 0 where
    pub digest : Text
    pub signature : HybridSignature
    pub key_is : k ≡ key sha256 digest signature
    pub valid : kernel.verifies digest signature ≡ true
    pub digest_size : length digest ≡ 32
    pub signature_size : length signature.ed25519 ≡ 64

  pub record IsSound (kernel : Issuer) (cache : Cache) : Type 0 where
    pub ring : IsValid cache
    pub remembered : All (Remembered kernel) (contents cache)

  -- Proofs of the sizes of the code's arrays have one key only if they are one proof, but for a
  -- collision.
  one_key :
      (d d' : Text) (s s' : HybridSignature)
      → length d ≡ 32
      → length d' ≡ 32
      → length s.ed25519 ≡ 64
      → length s'.ed25519 ≡ 64
      → key sha256 d s ≡ key sha256 d' s'
      → ((d ≡ d') × (s ≡ s')) ⊎ Collision
  unfolding key
  one_key d d' s s' l l' m m' e =
      elim (Bool-cases (text_eq (key_message d s) (key_message d' s'))) [
        | inl same ↦ inl (parts (text_eq→eq _ _ same))
        | inr differ ↦
            inr (key_message d s, key_message d' s', λ q. apart differ ((text_eq_iff _ _).1 q), e)
      ]
    where
      parts : key_message d s ≡ key_message d' s' → (d ≡ d') × (s ≡ s')
      parts q =
          let tail : d ++ (s.ed25519 ++ s.mldsa65) ≡ d' ++ (s'.ed25519 ++ s'.mldsa65) = cc in
          let (p, r) = append-injective d d' _ _ (l ∙ sym l') tail in
          let (u, v) = append-injective s.ed25519 s'.ed25519 _ _ (m ∙ sym m') r in
          (p, λ i. record { ed25519 = u i; mldsa65 = v i })

  module _ (kernel : Issuer) (d : Text) (s : HybridSignature) (l : length d ≡ 32)
      (m : length s.ed25519 ≡ 64) (cache : Cache) (sound : IsSound kernel cache) where
    hit_lem : (lookup (key sha256 d s) cache).0 ≡ true → (kernel.verifies d s ≡ true) ⊎ Collision
    hit_lem h =
        let (k, r, e) =
          any-All (λ x. text_eq x (key sha256 d s)) (contents cache) sound.remembered
            (sym (lookup_lem (key sha256 d s) cache sound.ring).0 ∙ h) in
        elim (one_key r.digest d r.signature s r.digest_size l r.signature_size m
          (sym r.key_is ∙ text_eq→eq k _ e)) [
            | inl same ↦ inl (sym (ap₂ kernel.verifies same.0 same.1) ∙ r.valid)
            | inr c ↦ inr c
          ]

    looked : IsSound kernel (lookup (key sha256 d s) cache).1
    looked =
        let f = lookup_lem (key sha256 d s) cache sound.ring in
        record {
          ring = f.2;
          remembered = subst (All (Remembered kernel)) (sym f.1) sound.remembered;
        }

    stored :
        kernel.verifies d s ≡ true
        → IsSound kernel (Cache.insert (key sha256 d s) (lookup (key sha256 d s) cache).1)
    stored v = record {
      ring = insert-IsValid (key sha256 d s) _ looked.ring;
      remembered =
          subst (All (Remembered kernel)) (sym (contents-insert (key sha256 d s) _ looked.ring))
            (All-append (Remembered kernel) _ (key sha256 d s ∷ []) (older _) (this, tt));
    }
      where
        this : Remembered kernel (key sha256 d s)
        this = record {
          digest = d;
          signature = s;
          key_is = refl;
          valid = v;
          digest_size = l;
          signature_size = m;
        }

        older :
            (b : Bool)
            → All (Remembered kernel) (
                if b
                then drop 1 (contents (lookup (key sha256 d s) cache).1)
                else contents (lookup (key sha256 d s) cache).1)
        older true = All-drop_one _ _ looked.remembered
        older false = looked.remembered

    pub check_cached_lem :
        (((check_cached sha256 kernel d s cache).0 ≡ kernel.verifies d s) ⊎ Collision)
        × IsSound kernel (check_cached sha256 kernel d s cache).1
    unfolding check_cached
    check_cached_lem = elim (Bool-cases (lookup (key sha256 d s) cache).0) [
      | inl hit ↦ rw hit (agreed (hit_lem hit), looked)
      | inr miss ↦ rw miss (inl refl, kept (Bool-cases (kernel.verifies d s)))
    ]
      where
        agreed : (kernel.verifies d s ≡ true) ⊎ Collision → (true ≡ kernel.verifies d s) ⊎ Collision
        agreed (inl v) = inl (sym v)
        agreed (inr c) = inr c

        kept :
            (kernel.verifies d s ≡ true) ⊎ (kernel.verifies d s ≡ false)
            → IsSound kernel (
                if kernel.verifies d s
                then Cache.insert (key sha256 d s) (lookup (key sha256 d s) cache).1
                else (lookup (key sha256 d s) cache).1)
        kept (inl v) = rw v (stored v)
        kept (inr f) = rw f looked

  -- The sizes that the code's types give: a digest has 32 bytes, an Ed25519 signature 64.
  abbrev pub Sized : Capability → Type 0
  Sized c = (p : CapabilityProof) → c.proof ≡ some p → length p.signature.ed25519 ≡ 64

  -- For a hash of 32 bytes, an Ed25519 signature of 64, and a sound cache, which is a well-formed
  -- ring of keys that were remembered from successful checks: verifying with the cache gives the
  -- answer of verifying without it, unless two different inputs with one hash are at hand, and
  -- leaves a sound cache.
  pub verify_cached :
      (kernel : Issuer) (c : Capability) (cache : Cache)
      → ((x : Text) → length (sha256 x) ≡ 32)
      → Sized c
      → IsSound kernel cache
      → (((verify sha256 kernel c cache).0 ≡ verify_with sha256 kernel c) ⊎ Collision)
        × IsSound kernel (verify sha256 kernel c cache).1
  unfolding verify verify_with
  verify_cached kernel c cache size sized sound = elim (Option-cases c.proof) [
    | inl e ↦
        close (ok false, cache) (ok false)
          (unsigned sha256 kernel.id (check_cached sha256 kernel) c cache e)
          (ap (λ r. r.0) (unsigned sha256 kernel.id plain c (tt {0}) e)) (inl refl, sound)
    | inr (p, e) ↦
        proved p e (Bool-cases (p.format == token_format_v1))
          (Bool-cases (text_eq p.issuer_id kernel.id))
  ]
    where
      close :
          (r : Result CapabilityError Bool × Cache) (b : Result CapabilityError Bool)
          → verify sha256 kernel c cache ≡ r
          → verify_with sha256 kernel c ≡ b
          → ((r.0 ≡ b) ⊎ Collision) × IsSound kernel r.1
          → (((verify sha256 kernel c cache).0 ≡ verify_with sha256 kernel c) ⊎ Collision)
            × IsSound kernel (verify sha256 kernel c cache).1
      close r b p q h = rw (p, q) h

      plain : Text → HybridSignature → Unit {0} → Bool × Unit {0}
      plain digest sig s = (kernel.verifies digest sig, s)

      lift :
          {a b : Bool}
          → (a ≡ b) ⊎ Collision
          → (◌≡◌ {A = Result CapabilityError Bool} (ok a) (ok b)) ⊎ Collision
      lift (inl e) = inl (ap ok e)
      lift (inr k) = inr k

      proved :
          (p : CapabilityProof)
          → c.proof ≡ some p
          → ((p.format == token_format_v1) ≡ true) ⊎ ((p.format == token_format_v1) ≡ false)
          → (text_eq p.issuer_id kernel.id ≡ true) ⊎ (text_eq p.issuer_id kernel.id ≡ false)
          → (((verify sha256 kernel c cache).0 ≡ verify_with sha256 kernel c) ⊎ Collision)
            × IsSound kernel (verify sha256 kernel c cache).1
      proved p e (inr f) _ =
          close _ _ (old_format sha256 kernel.id (check_cached sha256 kernel) c cache p e f)
            (ap (λ r. r.0) (old_format sha256 kernel.id plain c (tt {0}) p e f)) (inl refl, sound)
      proved p e (inl v1) (inr f) =
          close _ _ (other_issuer sha256 kernel.id (check_cached sha256 kernel) c cache p e v1 f)
            (ap (λ r. r.0) (other_issuer sha256 kernel.id plain c (tt {0}) p e v1 f))
            (inl refl, sound)
      proved p e (inl v1) (inl mine) =
          let digest = sha256 (signable_message c p.format p.algorithm p.issuer_id) in
          let k = check_cached_lem kernel digest p.signature (size _) (sized p e) cache sound in
          close _ _ (checked sha256 kernel.id (check_cached sha256 kernel) c cache p e v1 mine)
            (ap (λ r. r.0) (checked sha256 kernel.id plain c (tt {0}) p e v1 mine)) (lift k.0, k.1)
