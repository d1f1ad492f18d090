-- ===== src/Agent/Tests.antt =====
-- Runs of the handle table, and the theorems at concrete tables.
use cdk.Prelude.{ℕ, ◌≡◌, ◌≢◌, refl, true, false, none, some, [], ◌∷◌, arith, ok, err, ◌^◌, ◌↔◌, ◌+◌}
use cdk.Prelude.Bits.{test_bit, bit_not}
use cdk.Capability
use cdk.Capability.{
  perm_eq, remove_permission, add_permission, Capability, Permission, read, write, execute,
  send_message, receive_message, delete, requires_approval, new, permission_mask, with_permissions,
  tag, has_permission, HybridSignature, CapabilityProof, hybrid_ed25519_ml_dsa_65,
}
use cdk.Capability.Masks.{IsValid}
use cdk.Agent.{HandleTable, escalation, get, attenuate, drop_unasked, force_approval, list}
use cdk.Agent.Attenuate.{Attenuates, attenuate-Attenuates, attenuate_refuses}

abbrev signed : CapabilityProof
signed = record {
  format = 1;
  algorithm = hybrid_ed25519_ml_dsa_65;
  issuer_id = 7 ∷ [];
  signature = record { ed25519 = 1 ∷ []; mldsa65 = 2 ∷ [] };
}

abbrev sender : Capability
sender = record {
  object_id = 49 ∷ [];
  permissions = read ∷ send_message ∷ requires_approval ∷ [];
  proof = some signed;
}

abbrev one_handle : HandleTable
one_handle = record { pid = 3; caps = none ∷ some sender ∷ none ∷ [] }

found : get one_handle 1 ≡ ok sender
unfolding get
found = refl

sender-IsValid : IsValid sender
unfolding perm_eq
sender-IsValid = record { distinct = (refl, (refl, (refl, tt))) }

abbrev derived : Capability
derived = record {
  object_id = 49 ∷ [];
  permissions = send_message ∷ requires_approval ∷ [];
  proof = none;
}

-- `send` alone: the approval constraint stays.
attenuate_run : attenuate one_handle 1 (2 ^ 4) ≡ ok derived
unfolding attenuate permission_mask remove_permission add_permission drop_unasked force_approval
    bit_not perm_eq tag
attenuate_run = refl

new_run : list (record { pid = 1; caps = none ∷ some (new (1 ∷ [])) ∷ [] }) ≡ (1, 58) ∷ []
unfolding list new permission_mask tag perm_eq Capability.insert
new_run = refl

attenuate-Attenuates_example : Attenuates sender derived (2 ^ 4) × IsValid derived
attenuate-Attenuates_example =
    attenuate-Attenuates one_handle 1 (2 ^ 4) sender (omega arith) found sender-IsValid derived
      attenuate_run

abbrev drop_send : ℕ
drop_send = 2 ^ 2 + 2 ^ 4

attenuate_refuses_example :
    ((attenuate one_handle 1 drop_send ≡ err escalation) ↔ (
      (i : ℕ) × (i ≢ 7)
      × (test_bit drop_send i ≡ true)
      × (test_bit (permission_mask sender) i ≡ false)))
    × (attenuate one_handle 1 drop_send ≢ err escalation
        → (child : Capability) × (attenuate one_handle 1 drop_send ≡ ok child))
attenuate_refuses_example =
    attenuate_refuses one_handle 1 drop_send sender (omega arith) found sender-IsValid
