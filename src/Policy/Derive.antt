-- ===== src/Policy/Derive.antt =====
-- Why a derivation needs no review.
use cdk.Prelude.{
  apart, ℕ, ◌^◌, ◌≡◌, refl, ap, ap₂, ◌∙◌, sym, subst, ◌≢◌, true, false, ◌&&◌, List, [], ◌∷◌, ◌==◌,
  ==_iff, take, arith, Bool-cases, inl, inr, ◌⊎◌, In, bit_and, Text,
}
use cdk.Prelude.Bits.{test_bit, test_bit-and, test_bit-zero, some_bit, bit_test}
use cdk.Capability.{Capability, Permission, requires_approval, tag, permission_mask}
use cdk.Capability.Masks.{mask-tag, mask-bit}
use cdk.Agent.Attenuate.{Attenuates}
use cdk.Policy.{
  Label, Rule, deny, separate, approval_rule, Grant, new_grant, Policy, has, effect_mask, approval,
}
use cdk.Policy.Rules.{is_live, acts_ungated, violations}
use cdk.Policy.Safety.{Demands, violations_nil_iff}

-- `g'` is on the same object for the same process, has no further permission, and is gated if `g` is.
pub record Derives (g g' : Grant) : Type 0 where
  pub pid : g'.pid ≡ g.pid
  pub object : g'.object ≡ g.object
  pub kind : g'.kind ≡ g.kind
  pub flags : g'.flags ≡ g.flags
  pub weaker : (i : ℕ) → i ≢ 7 → test_bit g'.mask i ≡ true → test_bit g.mask i ≡ true
  pub gated : test_bit g.mask 7 ≡ true → test_bit g'.mask 7 ≡ true

-- What the policy sees of a handle.
abbrev pub grant_of : ℕ → Text → ℕ → Capability → Grant
grant_of pid kind flags c = new_grant pid c.object_id kind flags (permission_mask c)

approval_tag : (p : Permission) → tag p ≢ 7 → p ≢ requires_approval
unfolding tag
approval_tag p h e = h (ap tag e)

-- If a capability attenuates another, then the policy sees it as derived: on the same object, of the
-- same process, with no further permission, and gated if the other is.
pub attenuate-Derives :
    (pid flags mask : ℕ) (kind : Text) (parent child : Capability)
    → Attenuates parent child mask
    → Derives (grant_of pid kind flags parent) (grant_of pid kind flags child)
unfolding new_grant tag
attenuate-Derives pid flags mask kind parent child a = record {
  pid = refl;
  object = ap (take 16) a.object;
  kind = refl;
  flags = refl;
  weaker = λ i ne b.
      let (p, e, h) = mask-tag child i b in
      let q : p ≢ requires_approval = approval_tag p (λ t. ne (sym e ∙ t)) in
      ap (test_bit (permission_mask parent)) (sym e) ∙ mask-bit parent p ∙ a.held p q h;
  gated = λ b.
      ground (arith, mask-bit child requires_approval, mask-bit parent requires_approval, a.gated);
}

effect_bits : (i : ℕ) → test_bit effect_mask i ≡ true → i ≢ 7
unfolding effect_mask test_bit
effect_bits i h e = cc (ap (test_bit effect_mask) e)

live_of :
    (m m' : ℕ)
    → ((i : ℕ) → i ≢ 7 → test_bit m' i ≡ true → test_bit m i ≡ true)
    → bit_and m' effect_mask ≢ 0
    → bit_and m effect_mask ≢ 0
live_of m m' w h z =
    let (i, b) = some_bit (bit_and m' effect_mask) h in
    ground (
      arith,
      test_bit-and m' effect_mask i,
      test_bit-and m effect_mask i,
      w i (effect_bits i (ground (arith, test_bit-and m' effect_mask i))),
      ap (λ n. test_bit n i) z,
      test_bit-zero i,
    )

acts_of : (g g' : Grant) → Derives g g' → acts_ungated g' ≡ true → acts_ungated g ≡ true
unfolding approval
acts_of g g' d h = elim (Bool-cases (bit_and g.mask effect_mask == 0)) [
  | inl z ↦ absurd (
      live_of g.mask g'.mask d.weaker (λ e. apart (ground arith) ((==_iff _ 0).1 e))
        ((==_iff _ 0).0 z))
  | inr nz ↦ elim (Bool-cases (test_bit g.mask 7)) [
    | inl b ↦ ground (arith, bit_test g'.mask 7, d.gated b)
    | inr b ↦ ground (arith, bit_test g.mask 7)
  ]
]

-- A handle with one behind it that the rules have been checked for.
record Backed (p : Policy) (gs : List Grant) (k : Grant) : Type 0 where
  source : Grant
  there : In source gs
  same_pid : source.pid ≡ k.pid
  same_labels : (l : Label) → has p source l ≡ has p k l
  live : is_live k ≡ true → is_live source ≡ true
  acts : acts_ungated k ≡ true → acts_ungated source ≡ true

Backed-Demands :
    (p : Policy) (gs gs' : List Grant) (r : Rule)
    → ((k : Grant) → In k gs' → Backed p gs k)
    → Demands p gs r
    → Demands p gs' r
Backed-Demands p gs gs' (deny l) b d =
    λ k m live. let s = b k m in sym (s.same_labels l) ∙ d s.source s.there (s.live live)
Backed-Demands p gs gs' (approval_rule l) b d =
    λ k m acts. let s = b k m in sym (s.same_labels l) ∙ d s.source s.there (s.acts acts)
Backed-Demands p gs gs' (separate x y) b d = λ k h mk mh e lk lh.
    let s = b k mk in
    let t = b h mh in
    ap₂ ◌&&◌ (sym (s.same_labels x)) (sym (t.same_labels y))
    ∙ d s.source t.source s.there t.there (s.same_pid ∙ e ∙ sym t.same_pid) (s.live lk) (t.live lh)

Backed-old : (p : Policy) (gs : List Grant) (k : Grant) → In k gs → Backed p gs k
Backed-old p gs k m = record {
  source = k;
  there = m;
  same_pid = refl;
  same_labels = λ l. refl;
  live = λ h. h;
  acts = λ h. h;
}

Backed-derived :
    (p : Policy) (gs : List Grant) (g k : Grant)
    → In g gs
    → g.mask ≢ 0
    → Derives g k
    → Backed p gs k
unfolding has
Backed-derived p gs g k m nz d = record {
  source = g;
  there = m;
  same_pid = sym d.pid;
  same_labels = λ l. rw (d.object, d.kind, d.flags);
  live = λ _. ground arith;
  acts = acts_of g k d;
}

-- Where a handle of the new state comes from: it was there, or it was derived from one that was and
-- that holds some permission.
abbrev pub Kept : List Grant → Grant → Type 0
Kept gs k = In k gs ⊎ ((g : Grant) × In g gs × (g.mask ≢ 0) × Derives g k)

-- If no rule is violated, and each handle of a second state was there before or is derived from one
-- that was and that holds some permission, then no rule is violated in the second state.
pub derive-keeps-safe :
    (p : Policy) (gs gs' : List Grant)
    → violations p gs ≡ []
    → ((k : Grant) → In k gs' → Kept gs k)
    → violations p gs' ≡ []
derive-keeps-safe p gs gs' h k =
    (violations_nil_iff p gs').1
      λ r m. Backed-Demands p gs gs' r (λ g i. backed g (k g i)) ((violations_nil_iff p gs).0 h r m)
  where
    backed : (g : Grant) → Kept gs g → Backed p gs g
    backed g (inl old) = Backed-old p gs g old
    backed g (inr (s, m, nz, d)) = Backed-derived p gs s g m nz d

-- Where the only rule denies a label that a handle without any permission has, and a handle derived
-- from that one has the approval constraint alone: nothing is violated before, and something is
-- once the derived handle is there.
pub derive_from_empty :
    (p : Policy) (g g' : Grant) (l : Label)
    → g.mask ≡ 0
    → p.rules ≡ deny l ∷ []
    → has p g l ≡ true
    → Derives g g'
    → g'.mask ≡ 2 ^ 7
    → (violations p (g ∷ []) ≡ []) × (violations p (g ∷ g' ∷ []) ≢ [])
unfolding has
derive_from_empty p g g' l z rules labelled d gated = (
  (violations_nil_iff p (g ∷ [])).1 before,
  λ h.
      apart ((violations_nil_iff p (g ∷ g' ∷ [])).0 h (deny l) listed g' (inr (inl refl)) alive)
        (rw (d.object, d.kind, d.flags) labelled),
)
  where
    listed : In (deny l) p.rules
    listed = subst (In (deny l)) (sym rules) (inl refl)

    alive : is_live g' ≡ true
    alive = ground arith

    dead : (k : Grant) → In k (g ∷ []) → is_live k ≡ true → has p k l ≡ false
    dead k (inl e) live = absurd (apart (ground (arith, ap (λ (x : Grant). x.mask) e)) live)
    dead k (inr m) live = absurd m

    only : (r : Rule) → In r (deny l ∷ []) → Demands p (g ∷ []) r
    only r (inl e) = subst (Demands p (g ∷ [])) (sym e) dead
    only r (inr m) = absurd m

    before : (r : Rule) → In r p.rules → Demands p (g ∷ []) r
    before r m = only r (subst (In r) rules m)
