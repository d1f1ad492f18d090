-- ===== src/Agent.antt =====
-- src/agent.rs: the table of capability handles of one process. A method that changes the table
-- returns the new one.
pub mod Derive
pub mod Attenuate
pub mod Table
pub mod Permissions
mod Tests
use cdk.Prelude.{
  ℕ, ◌+◌, ◌^◌, Bool, true, false, not, Option, none, some, List, [], ◌∷◌, length, get_elem?, set,
  replicate, position, ◌==◌, if◌then◌else◌, bit_and, bit_or, Result, ok, err, ok_or, fail_if, ◌>>=◌,
  ◌>>◌,
}
use cdk.Prelude.Bits.{bit_not}
use cdk.Capability.{
  Permission, read, write, execute, send_message, receive_message, delete, requires_approval, tag,
  Capability, permission_mask, remove_permission, add_permission,
}

abbrev pub max_handles : ℕ
max_handles = 16

pub data HandleError : Type 0 where
  bad_handle escalation table_full no_process : HandleError

pub record HandleTable : Type 0 where
  pub pid : ℕ
  pub caps : List (Option Capability)

abbrev pub is_none {ℓ} : {A : Type ℓ} → Option A → Bool
is_none none = true
is_none (some a) = false

-- `and_then`
abbrev pub flatten {ℓ} : {A : Type ℓ} → Option (Option A) → Option A
flatten none = none
flatten (some o) = o

unfoldable pub new : HandleTable
new = record { pid = 0; caps = replicate max_handles none }

-- `reset` assigns every slot of the array.
clear_slots : List (Option Capability) → List (Option Capability)
clear_slots [] = []
clear_slots (c ∷ cs) = none ∷ clear_slots cs

unfoldable pub reset : HandleTable → ℕ → HandleTable
unfolding clear_slots
reset t pid = record { pid = pid; caps = clear_slots t.caps }

-- The lowest free slot takes the capability; its index is the handle.
unfoldable pub insert : HandleTable → Capability → Result HandleError (ℕ × HandleTable)
insert t cap = do
  slot ← ok_or (position is_none t.caps) table_full
  ok (slot, record t { caps = set t.caps slot (some cap) })

unfoldable pub get : HandleTable → ℕ → Result HandleError Capability
get t handle = ok_or (flatten (get_elem? t.caps handle)) bad_handle

unfoldable pub remove : HandleTable → ℕ → Result HandleError (Capability × HandleTable)
remove t handle = do
  cap ← ok_or (flatten (get_elem? t.caps handle)) bad_handle
  ok (cap, record t { caps = set t.caps handle none })

abbrev pub all_permissions : List Permission
all_permissions =
    read ∷ write ∷ execute ∷ send_message ∷ receive_message ∷ delete ∷ requires_approval ∷ []

abbrev pub approval_bit : ℕ
approval_bit = 2 ^ 7

unfoldable pub perm_bit : Permission → ℕ
perm_bit p = 2 ^ tag p

-- The loop of `attenuate` over the permissions.
unfoldable pub drop_unasked : ℕ → List Permission → Capability → Capability
unfolding perm_bit
drop_unasked mask [] child = child
drop_unasked mask (p ∷ ps) child =
    drop_unasked mask ps
      (if bit_and mask (perm_bit p) == 0 then remove_permission child p else child)

-- `let _ = child.add_permission(…)`: an error leaves the child as it was.
unfoldable pub force_approval : Capability → Capability
force_approval child = elim (add_permission child requires_approval) [
  | ok child' ↦ child'
  | err e ↦ child
]

unfoldable pub attenuate : HandleTable → ℕ → ℕ → Result HandleError Capability
unfolding get
attenuate t handle mask = do
  parent ← get t handle
  let parent_mask = permission_mask parent
  fail_if (not (bit_and (bit_and mask (bit_not 64 parent_mask)) (bit_not 64 approval_bit) == 0))
      escalation
  let kept = bit_or mask (bit_and parent_mask approval_bit)
  let child = drop_unasked kept all_permissions parent
  ok (if bit_and kept approval_bit == 0 then child else force_approval child)

-- `(handle, permission mask)` of each live handle.
list_from : ℕ → List (Option Capability) → List (ℕ × ℕ)
list_from i [] = []
list_from i (none ∷ cs) = list_from (i + 1) cs
list_from i (some c ∷ cs) = (i, permission_mask c) ∷ list_from (i + 1) cs

unfoldable pub list : HandleTable → List (ℕ × ℕ)
unfolding list_from
list t = list_from 0 t.caps
