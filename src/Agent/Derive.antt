-- ===== src/Agent/Derive.antt =====
-- The loop of `attenuate`: what it leaves of the parent.
use cdk.Prelude.{
  ℕ, ◌^◌, ◌<◌, ◌≡◌, refl, ap, Bool, true, false, not, ◌&&◌, ◌||◌, none, List, [], ◌∷◌, any, arith,
  ◌==◌, if◌then◌else◌, bit_or, bit_and, Bool-cases, inl, inr, ◌∙◌, In,
}
use cdk.Prelude.Bits.{
  bit_test, test_bit, test_bit-or, test_bit-and, test_bit-pow, test_bit-not, test_bit_high, bit_not,
}
use cdk.Capability.{
  Permission, requires_approval, tag, perm_eq, Capability, permission_mask, has_permission,
  remove_permission,
}
use native.Mathlib.Decide.{dec_lt}
use cdk.Capability.Masks.{IsValid, has-remove, remove-IsValid, add_permission_lem, perm_eq-tag}
use cdk.Agent.{drop_unasked, force_approval, all_permissions, approval_bit}

-- What is left of a child after the loop.
drop_unasked-has :
    (mask : ℕ) (ps : List Permission) (child : Capability) (q : Permission)
    → has_permission (drop_unasked mask ps child) q
      ≡ (has_permission child q && (not (any (perm_eq q) ps) || test_bit mask (tag q)))
unfolding drop_unasked
drop_unasked-has mask [] child q = ground arith
drop_unasked-has mask (p ∷ ps) child q = ground (
  arith,
  drop_unasked-has mask ps
      (if bit_and mask (2 ^ tag p) == 0 then remove_permission child p else child) q,
  bit_test mask (tag p),
  has-remove child p q,
  perm_eq-tag p q,
  perm_eq-tag q p,
)

drop_unasked-IsValid :
    (mask : ℕ) (ps : List Permission) (child : Capability)
    → IsValid child
    → IsValid (drop_unasked mask ps child)
unfolding drop_unasked
drop_unasked-IsValid mask [] child v = v
drop_unasked-IsValid mask (p ∷ ps) child v =
    drop_unasked-IsValid mask ps _ (step (bit_and mask (2 ^ tag p) == 0))
  where
    step : (b : Bool) → IsValid (if b then remove_permission child p else child)
    step true = remove-IsValid child p v
    step false = v

drop_unasked-object :
    (mask : ℕ) (ps : List Permission) (child : Capability)
    → (drop_unasked mask ps child).object_id ≡ child.object_id
unfolding drop_unasked remove_permission
drop_unasked-object mask [] child = refl
drop_unasked-object mask (p ∷ ps) child =
    drop_unasked-object mask ps _ ∙ step (bit_and mask (2 ^ tag p) == 0)
  where
    step : (b : Bool) → (if b then remove_permission child p else child).object_id ≡ child.object_id
    step true = refl
    step false = refl

drop_unasked-none :
    (mask : ℕ) (ps : List Permission) (child : Capability)
    → child.proof ≡ none
    → (drop_unasked mask ps child).proof ≡ none
unfolding drop_unasked remove_permission
drop_unasked-none mask [] child h = h
drop_unasked-none mask (p ∷ ps) child h =
    drop_unasked-none mask ps _ (step (bit_and mask (2 ^ tag p) == 0))
  where
    step : (b : Bool) → (if b then remove_permission child p else child).proof ≡ none
    step true = refl
    step false = h

-- A child that loses a permission loses its proof.
drop_unasked-unsigned :
    (mask : ℕ) (ps : List Permission) (child : Capability) (p : Permission)
    → In p ps
    → test_bit mask (tag p) ≡ false
    → (drop_unasked mask ps child).proof ≡ none
unfolding drop_unasked remove_permission
drop_unasked-unsigned mask [] child p m h = absurd m
drop_unasked-unsigned mask (q ∷ ps) child p (inl e) h =
    drop_unasked-none mask ps _ (ground (arith, bit_test mask (tag q), ap tag e))
drop_unasked-unsigned mask (q ∷ ps) child p (inr m) h = drop_unasked-unsigned mask ps _ p m h

force_approval_lem :
    (c : Capability)
    → IsValid c
    → ((q : Permission)
        → has_permission (force_approval c) q ≡ (has_permission c q || perm_eq requires_approval q))
      × (force_approval c).object_id ≡ c.object_id
      × (force_approval c).proof ≡ none
      × IsValid (force_approval c)
unfolding force_approval
force_approval_lem c v =
    let (c', e, v', o, n, h) = add_permission_lem c requires_approval v in
    rw (e, force_approval) (h, o, n, v')

abbrev pub excess : ℕ → ℕ → ℕ
excess mask parent_mask = bit_and (bit_and mask (bit_not 64 parent_mask)) (bit_not 64 approval_bit)

-- The bits that a request asks for beyond what the parent has, the approval constraint aside.
pub excess-bit :
    (mask pm i : ℕ)
    → mask < 2 ^ 64
    → pm < 2 ^ 64
    → test_bit (excess mask pm) i ≡ (test_bit mask i && (not (test_bit pm i) && not (7 == i)))
excess-bit mask pm i hm hp = elim (dec_lt i 64) [
  | yes low ↦ ground (
    arith,
    test_bit-and (bit_and mask (bit_not 64 pm)) (bit_not 64 approval_bit) i,
    test_bit-and mask (bit_not 64 pm) i,
    test_bit-not 64 pm i hp low,
    test_bit-not 64 approval_bit i (omega arith) low,
    test_bit-pow 7 i,
  )
  | no high ↦ ground (
    arith,
    test_bit-and (bit_and mask (bit_not 64 pm)) (bit_not 64 approval_bit) i,
    test_bit-and mask (bit_not 64 pm) i,
    test_bit_high 64 mask i hm (omega arith),
  )
]

abbrev pub kept_mask : ℕ → ℕ → ℕ
kept_mask mask pm = bit_or mask (bit_and pm approval_bit)

pub kept-bit :
    (mask pm i : ℕ)
    → test_bit (kept_mask mask pm) i ≡ (test_bit mask i || (test_bit pm i && (7 == i)))
kept-bit mask pm i = ground (
  arith,
  test_bit-or mask (bit_and pm approval_bit) i,
  test_bit-and pm approval_bit i,
  test_bit-pow 7 i,
)

-- The loop and the gate together, with the request already accepted.
abbrev pub child_of : Capability → ℕ → Capability
child_of parent mask =
    let kept = kept_mask mask (permission_mask parent) in
    let child = drop_unasked kept all_permissions parent in
    if bit_and kept approval_bit == 0 then child else force_approval child

listed : (p : Permission) → any (perm_eq p) all_permissions ≡ true
unfolding perm_eq
listed p = ground arith

pub child_of-has :
    (parent : Capability) (mask : ℕ) (q : Permission)
    → IsValid parent
    → has_permission (child_of parent mask) q ≡ (
        has_permission parent q && test_bit (kept_mask mask (permission_mask parent)) (tag q)
        || (test_bit (kept_mask mask (permission_mask parent)) 7 && perm_eq requires_approval q))
child_of-has parent mask q v = ground (
  arith,
  bit_test (kept_mask mask (permission_mask parent)) 7,
  drop_unasked-has (kept_mask mask (permission_mask parent)) all_permissions parent q,
  listed q,
  (force_approval_lem dropped dropped_valid).0 q,
)
  where
    dropped : Capability
    dropped = drop_unasked (kept_mask mask (permission_mask parent)) all_permissions parent

    dropped_valid : IsValid dropped
    dropped_valid =
        drop_unasked-IsValid (kept_mask mask (permission_mask parent)) all_permissions parent v

pub child_of-rest :
    (parent : Capability) (mask : ℕ)
    → IsValid parent
    → ((child_of parent mask).object_id ≡ parent.object_id)
      × ((child_of parent mask).proof ≡ none)
      × IsValid (child_of parent mask)
unfolding tag
child_of-rest parent mask v = elim (Bool-cases (bit_and kept approval_bit == 0)) [
  | inl clear ↦ rw clear (
    drop_unasked-object kept all_permissions parent,
    drop_unasked-unsigned kept all_permissions parent requires_approval
        (inr (inr (inr (inr (inr (inr (inl refl))))))) (unset clear),
    dropped_valid,
  )
  | inr gated ↦
      let f = force_approval_lem (drop_unasked kept all_permissions parent) dropped_valid in
      rw gated (f.1 ∙ drop_unasked-object kept all_permissions parent, f.2, f.3)
]
  where
    kept : ℕ
    kept = kept_mask mask (permission_mask parent)

    dropped_valid : IsValid (drop_unasked kept all_permissions parent)
    dropped_valid = drop_unasked-IsValid kept all_permissions parent v

    unset : (bit_and kept approval_bit == 0) ≡ true → test_bit kept (tag requires_approval) ≡ false
    unset clear = ground (arith, bit_test kept 7)
