-- ===== src/Capability.antt =====
-- src/capability.rs: permissions and capability tokens.
pub mod Masks
pub mod Token
pub mod Cache
mod Tests
use cdk.Prelude.{
  ℕ, ◌+◌, ◌*◌, ◌/◌, ◌%◌, ◌^◌, Bool, true, false, not, Option, none, some, List, [], ◌∷◌, ◌++◌, map,
  Text, length, any, filter, ltb, leb, ◌==◌, if◌then◌else◌, text_eq, bit_or, Result, ok, err,
}

pub data SignatureAlgorithm : Type 0 where
  hybrid_ed25519_ml_dsa_65 : SignatureAlgorithm

pub record HybridSignature : Type 0 where
  pub ed25519 : Text
  pub mldsa65 : Text

pub record CapabilityProof : Type 0 where
  pub format : ℕ
  pub algorithm : SignatureAlgorithm
  pub issuer_id : Text
  pub signature : HybridSignature

pub data Permission : Type 0 where
  read write execute send_message receive_message delete requires_approval : Permission

unfoldable pub tag : Permission → ℕ
tag read = 0x01
tag write = 0x02
tag execute = 0x03
tag send_message = 0x04
tag receive_message = 0x05
tag delete = 0x06
tag requires_approval = 0x07

-- The derived `==` of permissions.
unfoldable pub perm_eq : Permission → Permission → Bool
perm_eq read read = true
perm_eq write write = true
perm_eq execute execute = true
perm_eq send_message send_message = true
perm_eq receive_message receive_message = true
perm_eq delete delete = true
perm_eq requires_approval requires_approval = true
perm_eq _ _ = false

-- The permission set keeps each permission once; its order is never observed.
pub record Capability : Type 0 where
  pub object_id : Text
  pub permissions : List Permission
  pub proof : Option CapabilityProof

pub data CapabilityError : Type 0 where
  permission_set_full unknown_issuer unsupported_format : CapabilityError

abbrev pub max_permissions : ℕ
max_permissions = 16

abbrev pub max_id_len : ℕ
max_id_len = 64

-- Insertion into the set: a permission that is there already is no change, and a full set is an
-- error.
unfoldable pub insert : Permission → List Permission → Option (List Permission)
insert p ps =
    if any (perm_eq p) ps
    then some ps
    else if ltb (length ps) max_permissions
    then some (ps ++ (p ∷ []))
    else none

insert_all : List Permission → List Permission → List Permission
insert_all ps [] = ps
insert_all ps (q ∷ qs) = insert_all (elim (insert q ps) [ some ps' ↦ ps' | none ↦ ps ]) qs

-- `String::from_str(id).unwrap_or_default()`: an id that does not fit gives the empty one.
abbrev pub fit : ℕ → Text → Text
fit n s = if leb (length s) n then s else []

unfoldable pub with_permissions : Text → List Permission → Capability
unfolding insert_all
with_permissions obj_id permissions = record {
  object_id = fit max_id_len obj_id;
  permissions = insert_all [] permissions;
  proof = none;
}

unfoldable pub new : Text → Capability
unfolding with_permissions
new obj_id = with_permissions obj_id (read ∷ execute ∷ send_message ∷ receive_message ∷ [])

unfoldable pub has_permission : Capability → Permission → Bool
has_permission c p = any (perm_eq p) c.permissions

unfoldable pub add_permission : Capability → Permission → Result CapabilityError Capability
unfolding insert
add_permission c p = elim (insert p c.permissions) [
  | some ps ↦ ok (record c { permissions = ps; proof = none })
  | none ↦ err permission_set_full
]

unfoldable pub remove_permission : Capability → Permission → Capability
remove_permission c p = record c {
  permissions = filter (λ q. not (perm_eq p q)) c.permissions;
  proof = none;
}

-- The loop of `permission_mask`.
unfoldable pub fold_mask : ℕ → List Permission → ℕ
fold_mask mask [] = mask
fold_mask mask (p ∷ ps) = fold_mask (bit_or mask (2 ^ tag p)) ps

unfoldable pub permission_mask : Capability → ℕ
unfolding fold_mask
permission_mask c = fold_mask 0 c.permissions
