-- ===== src/Agent/Attenuate.antt =====
-- What a derived handle may do.
use cdk.Prelude.{
  ℕ, ◌^◌, ◌<◌, ◌≡◌, refl, ap, ◌≢◌, Bool, true, false, not, ◌&&◌, ◌||◌, none, arith, ◌==◌, ==_iff,
  Bool-cases, inl, inr, ◌↔◌, subst, Result, ok, err,
}
use cdk.Prelude.Bits.{test_bit, test_bit-zero, some_bit}
use cdk.Capability.{
  Permission, requires_approval, tag, perm_eq, Capability, permission_mask, has_permission,
}
use cdk.Capability.Masks.{IsValid, mask-bit, permission_mask-lt, perm_eq-tag, perm_eq_self}
use cdk.Agent.{HandleTable, HandleError, escalation, get, attenuate}
use cdk.Agent.Derive.{child_of, child_of-has, child_of-rest, kept-bit, excess, excess-bit}

-- How a derived capability relates to the one that it was derived from.
pub record Attenuates (parent child : Capability) (mask : ℕ) : Type 0 where
  pub object : child.object_id ≡ parent.object_id
  pub unsigned : child.proof ≡ none
  pub asked :
      (p : Permission) → p ≢ requires_approval → has_permission child p ≡ test_bit mask (tag p)
  pub held :
      (p : Permission)
      → p ≢ requires_approval
      → has_permission child p ≡ true
      → has_permission parent p ≡ true
  pub gated :
      has_permission child requires_approval
      ≡ (test_bit mask (tag requires_approval) || has_permission parent requires_approval)

not-approval : (p : Permission) → p ≢ requires_approval → (7 == tag p) ≡ false
unfolding tag
not-approval p h = ground arith

false_of : {b : Bool} → b ≡ false → b ≡ true → ⊥
false_of e f = cc

apart :
    {r : Result HandleError Capability} {c : Capability} {e : HandleError}
    → r ≡ ok c
    → r ≡ err e
    → ⊥
apart p q = cc

module _ (t : HandleTable) (handle mask : ℕ) (parent : Capability) (small : mask < 2 ^ 64)
    (found : get t handle ≡ ok parent) (valid : IsValid parent) where
  attenuate-accepts :
      excess mask (permission_mask parent) ≡ 0 → attenuate t handle mask ≡ ok (child_of parent mask)
  unfolding attenuate
  attenuate-accepts e = rw found (rw e refl)

  attenuate-rejects :
      excess mask (permission_mask parent) ≢ 0 → attenuate t handle mask ≡ err escalation
  unfolding attenuate
  attenuate-rejects e = rw found (ground arith)

  -- With nothing asked for in excess, the child has what was asked, all of which the parent has.
  child_of-Attenuates :
      excess mask (permission_mask parent) ≡ 0 → Attenuates parent (child_of parent mask) mask
  unfolding tag
  child_of-Attenuates e = record {
    object = (child_of-rest parent mask valid).0;
    unsigned = (child_of-rest parent mask valid).1;
    asked = λ p ne. ground (arith, has p, within p, not-approval p ne, absent p ne);
    held = λ p ne h. ground (arith, has p, not-approval p ne, absent p ne);
    gated = ground (
      arith,
      has requires_approval,
      mask-bit parent requires_approval,
      perm_eq_self requires_approval,
    );
  }
    where
      has :
          (p : Permission)
          → has_permission (child_of parent mask) p ≡ (
              has_permission parent p
                && (test_bit mask (tag p)
                    || (test_bit (permission_mask parent) (tag p) && (7 == tag p)))
              || ((test_bit mask 7 || (test_bit (permission_mask parent) 7 && (7 == 7)))
                  && perm_eq requires_approval p))
      has p = ground (
        arith,
        child_of-has parent mask p valid,
        kept-bit mask (permission_mask parent) (tag p),
        kept-bit mask (permission_mask parent) 7,
      )

      absent : (p : Permission) → p ≢ requires_approval → perm_eq requires_approval p ≡ false
      absent p ne = ground (arith, perm_eq-tag requires_approval p, not-approval p ne)

      within :
          (p : Permission)
          → (test_bit mask (tag p) && (not (has_permission parent p) && not (7 == tag p))) ≡ false
      within p = ground (
        arith,
        excess-bit mask (permission_mask parent) (tag p) small (permission_mask-lt parent),
        mask-bit parent p,
        test_bit-zero (tag p),
        ap (λ n. test_bit n (tag p)) e,
      )

  -- For a mask of 64 bits and a valid parent under the handle: a derived capability is valid, on the
  -- same object and unsigned, has exactly the permissions that were asked for, all of them the
  -- parent's, and is gated exactly if the parent is or if that was asked for.
  pub attenuate-Attenuates :
      (child : Capability)
      → attenuate t handle mask ≡ ok child
      → Attenuates parent child mask × IsValid child
  attenuate-Attenuates child h = elim (Bool-cases (excess mask (permission_mask parent) == 0)) [
    | inl e ↦
        let z : excess mask (permission_mask parent) ≡ 0 = (==_iff _ 0).0 e in
        let same : child_of parent mask ≡ child = cc (attenuate-accepts z) in
        subst (λ c. Attenuates parent c mask × IsValid c) same
          (child_of-Attenuates z, (child_of-rest parent mask valid).2)
    | inr e ↦ cc (attenuate-rejects (λ z. false_of e ((==_iff _ 0).1 z)))
  ]

  -- For a mask of 64 bits and a valid parent under the handle: a request is refused exactly if it
  -- asks for a bit, other than the approval constraint, that the parent's mask does not have;
  -- otherwise it succeeds.
  pub attenuate_refuses :
      ((attenuate t handle mask ≡ err escalation) ↔ (
        (i : ℕ) × (i ≢ 7)
        × (test_bit mask i ≡ true)
        × (test_bit (permission_mask parent) i ≡ false)))
      × (attenuate t handle mask ≢ err escalation
          → (child : Capability) × (attenuate t handle mask ≡ ok child))
  attenuate_refuses = ((refused, asked), granted)
    where
      bits :
          (i : ℕ)
          → test_bit (excess mask (permission_mask parent)) i
            ≡ (test_bit mask i && (not (test_bit (permission_mask parent) i) && not (7 == i)))
      bits i = excess-bit mask (permission_mask parent) i small (permission_mask-lt parent)

      refused :
          attenuate t handle mask ≡ err escalation
          → (i : ℕ) × (i ≢ 7)
            × (test_bit mask i ≡ true)
            × (test_bit (permission_mask parent) i ≡ false)
      refused h =
          let (i, b) =
            some_bit (excess mask (permission_mask parent)) (λ z. apart (attenuate-accepts z) h) in
          (i, ground (arith, bits i), ground (arith, bits i), ground (arith, bits i))

      asked :
          (i : ℕ) × (i ≢ 7)
            × (test_bit mask i ≡ true)
            × (test_bit (permission_mask parent) i ≡ false)
          → attenuate t handle mask ≡ err escalation
      asked (i, ne, m, p) =
          attenuate-rejects λ z. ground (arith, bits i, ap (λ n. test_bit n i) z, test_bit-zero i)

      granted :
          attenuate t handle mask ≢ err escalation
          → (child : Capability) × (attenuate t handle mask ≡ ok child)
      granted h = elim (Bool-cases (excess mask (permission_mask parent) == 0)) [
        | inl e ↦ (child_of parent mask, attenuate-accepts ((==_iff _ 0).0 e))
        | inr e ↦ absurd (h (attenuate-rejects (λ z. false_of e ((==_iff _ 0).1 z))))
      ]
