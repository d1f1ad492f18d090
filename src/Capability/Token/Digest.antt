-- ===== src/Capability/Token/Digest.antt =====
-- The digest covers the object and the set of permissions, and nothing else of a token.
use cdk.Prelude.{
  ℕ, ◌+◌, ◌%◌, ◌≤◌, ◌≡◌, refl, ap, ◌∙◌, sym, Bool, true, false, some, List, [], ◌∷◌, ◌++◌, map,
  Text, length, set, get_elem?, any, ◌==◌, arith, append-injective,
}
use cdk.Prelude.Sort.{sort, any-sort, flagged, insert_flagged}
use cdk.Capability.{
  Capability, Permission, read, write, execute, send_message, receive_message, delete,
  requires_approval, tag, perm_eq, has_permission, SignatureAlgorithm,
}
use cdk.Capability.Masks.{IsValid, Distinct, perm_eq-tag}
use cdk.Capability.Token.{signable_message}
use cdk.Prelude.Bytes.{u16_le}

-- Which permissions a list has, in the order of their tags.
flags : List Permission → List Bool
flags ps =
    has read
    ∷ has write
    ∷ has execute
    ∷ has send_message
    ∷ has receive_message
    ∷ has delete
    ∷ has requires_approval
    ∷ []
  where
    has : Permission → Bool
    has p = any (perm_eq p) ps

flags-nil : flags [] ≡ false ∷ false ∷ false ∷ false ∷ false ∷ false ∷ false ∷ []
unfolding flags
flags-nil = refl

abbrev place : Permission → ℕ
place read = 0
place write = 1
place execute = 2
place send_message = 3
place receive_message = 4
place delete = 5
place requires_approval = 6

tag-place : (p : Permission) → tag p ≡ 1 + place p
unfolding tag
tag-place p = ground arith

flag-place :
    (p : Permission) (ps : List Permission)
    → get_elem? (flags ps) (place p) ≡ some (any (perm_eq p) ps)
unfolding flags
flag-place p ps = ground arith

flags-cons :
    (p : Permission) (ps : List Permission) → flags (p ∷ ps) ≡ set (flags ps) (place p) true
unfolding flags perm_eq
flags-cons read ps = refl
flags-cons write ps = refl
flags-cons execute ps = refl
flags-cons send_message ps = refl
flags-cons receive_message ps = refl
flags-cons delete ps = refl
flags-cons requires_approval ps = refl

-- The sorted tags of a set depend on its members only.
sorted_tags : (ps : List Permission) → Distinct ps → sort (map tag ps) ≡ flagged 1 (flags ps)
unfolding sort
sorted_tags [] d = rw flags-nil
sorted_tags (p ∷ ps) d =
    rw (sorted_tags ps d.1, flags-cons p ps)
      (insert_flagged 1 (place p) (tag p) (flags ps) (tag-place p) (flag-place p ps ∙ ap some d.0))

flags_of :
    (ps qs : List Permission)
    → ((p : Permission) → any (perm_eq p) ps ≡ any (perm_eq p) qs)
    → flags ps ≡ flags qs
unfolding flags
flags_of ps qs h = ground (
  arith,
  h read,
  h write,
  h execute,
  h send_message,
  h receive_message,
  h delete,
  h requires_approval,
)

-- Two valid capabilities on one object with the same permissions have one digest, whatever order
-- their permissions were added in.
pub signable_canonical :
    (c c' : Capability) (format : ℕ) (algorithm : SignatureAlgorithm) (issuer_id : Text)
    → IsValid c
    → IsValid c'
    → c.object_id ≡ c'.object_id
    → ((p : Permission) → has_permission c p ≡ has_permission c' p)
    → signable_message c format algorithm issuer_id ≡ signable_message c' format algorithm issuer_id
unfolding signable_message has_permission
signable_canonical c c' format algorithm issuer_id v v' o h = rw (
  o,
  sorted_tags c.permissions v.distinct,
  sorted_tags c'.permissions v'.distinct,
  flags_of c.permissions c'.permissions h,
)

any-tag :
    (p : Permission) (ps : List Permission)
    → any (λ t. tag p == t) (map tag ps) ≡ any (perm_eq p) ps
any-tag p [] = refl
any-tag p (q ∷ qs) = ground (arith, any-tag p qs, perm_eq-tag p q)

-- For issuer ids of 16 bytes and object ids of at most 64: equal messages are of one object, one set
-- of permissions, one format and one issuer, so no token can borrow another's signature.
pub signable_injective :
    (c c' : Capability) (format format' : ℕ) (algorithm algorithm' : SignatureAlgorithm)
    (issuer_id issuer_id' : Text)
    → length issuer_id ≡ 16
    → length issuer_id' ≡ 16
    → length c.object_id ≤ 64
    → length c'.object_id ≤ 64
    → signable_message c format algorithm issuer_id
      ≡ signable_message c' format' algorithm' issuer_id'
    → (c.object_id ≡ c'.object_id)
      × ((p : Permission) → has_permission c p ≡ has_permission c' p)
      × (format ≡ format')
      × (issuer_id ≡ issuer_id')
unfolding signable_message has_permission
signable_injective c c' f f' a a' i i' li li' lo lo' e = (ids.0, perms, cc, issuers.0)
  where
    tags : Capability → List ℕ
    tags c = sort (map tag c.permissions)

    rest : Capability → Text
    rest c = u16_le (length c.object_id) ++ (c.object_id ++ (length (tags c) % 256) ∷ tags c)

    issuers : (i ≡ i') × (rest c ≡ rest c')
    issuers = append-injective i i' (rest c) (rest c') (li ∙ sym li') (cc)

    same_length : length c.object_id ≡ length c'.object_id
    same_length =
        let lo_byte : length c.object_id % 256 ≡ length c'.object_id % 256 = cc issuers.1 in
        omega arith

    ids :
        (c.object_id ≡ c'.object_id)
        × ((length (tags c) % 256) ∷ tags c ≡ (length (tags c') % 256) ∷ tags c')
    ids = append-injective c.object_id c'.object_id _ _ same_length (cc issuers.1)

    same_tags : tags c ≡ tags c'
    same_tags = cc ids.1

    perms : (p : Permission) → any (perm_eq p) c.permissions ≡ any (perm_eq p) c'.permissions
    perms p = ground (
      arith,
      any-tag p c.permissions,
      any-tag p c'.permissions,
      any-sort (λ t. tag p == t) (map tag c.permissions),
      any-sort (λ t. tag p == t) (map tag c'.permissions),
      ap (any (λ t. tag p == t)) same_tags,
    )
