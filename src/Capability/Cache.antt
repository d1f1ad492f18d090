-- ===== src/Capability/Cache.antt =====
-- src/capability.rs, `verify_cache`: a ring of the keys of proofs that verified.
pub mod Ring
use cdk.Prelude.{
  ℕ, ◌+◌, ◌%◌, Bool, List, [], ◌∷◌, ◌++◌, Text, take, set, replicate, any, if◌then◌else◌, text_eq,
  min,
}
use cdk.Capability.{HybridSignature}

abbrev pub capacity : ℕ
capacity = 64

-- b"CDK-CAP-CACHE"
abbrev pub domain : Text
domain =
    b'C' ∷ b'D' ∷ b'K' ∷ b'-' ∷ b'C' ∷ b'A' ∷ b'P' ∷ b'-' ∷ b'C' ∷ b'A' ∷ b'C' ∷ b'H' ∷ b'E' ∷ []

-- The counters do not wrap in the model.
pub record Cache : Type 0 where
  pub keys : List Text
  pub len : ℕ
  pub next : ℕ
  pub hits : ℕ
  pub misses : ℕ

unfoldable pub empty : Cache
empty = record {
  keys = replicate capacity (replicate 32 0);
  len = 0;
  next = 0;
  hits = 0;
  misses = 0;
}

-- The bytes that `key` hashes.
abbrev pub key_message : Text → HybridSignature → Text
key_message digest sig = domain ++ (digest ++ (sig.ed25519 ++ sig.mldsa65))

unfoldable pub key : (Text → Text) → Text → HybridSignature → Text
key sha256 digest sig = sha256 (key_message digest sig)

unfoldable pub lookup : Text → Cache → Bool × Cache
lookup k c =
    let hit = any (λ x. text_eq x k) (take c.len c.keys) in
    (hit, if hit then record c { hits = c.hits + 1 } else record c { misses = c.misses + 1 })

unfoldable pub insert : Text → Cache → Cache
insert k c = record c {
  keys = set c.keys c.next k;
  next = (c.next + 1) % capacity;
  len = min (c.len + 1) capacity;
}

unfoldable pub clear : Cache → Cache
clear c = record c { len = 0; next = 0 }

unfoldable pub stats : Cache → ℕ × ℕ × ℕ
stats c = (c.hits, c.misses, c.len)
