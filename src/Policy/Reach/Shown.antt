-- ===== src/Policy/Reach/Shown.antt =====
-- What the reach diff shows the operator, and that it shows everything.
use cdk.Prelude.{
  apart, ℕ, ◌^◌, ◌<◌, ◌≤◌, ◌≡◌, ◌≢◌, refl, ap, ◌∙◌, sym, subst, Bool, true, false, ◌&&◌, List, [],
  ◌∷◌, Text, any, ◌==◌, bit_and, arith, Bool-cases, inl, inr, ◌⊎◌, In, All, In-of_any, text_eq→eq,
  ==_iff,
}
use cdk.Prelude.Bits.{test_bit, test_bit-and, test_bit-zero, test_bit_high, zero_of_bits, bit_not}
use native.Mathlib.Decide.{dec_lt}
use cdk.Policy.{Grant, effect_mask, approval}
use cdk.Policy.Rules.{acts_ungated}
use cdk.Policy.Reach.{
  Change, on, union, ungated, newly, fresh_gate, change_of, diff_loop, diff, reaches, union-bit,
  Fits, newly-bit,
}
use cdk.Policy.Reach.Loop.{wider, loop-Source, loop-covers}

module _ (before after : List Grant) where
  -- What a change of the diff shows is a function of its process and object.
  shows-added :
      (g : Grant)
      → newly before after g.pid g.object ≢ 0
      → (change_of before after g).added ≡ newly before after g.pid g.object
  unfolding change_of
  shows-added g h = ground arith

  at_grant :
      (pid : ℕ) (object : Text) (gs : List Grant) (p : Grant → Bool)
      → any (λ g. on pid object g && p g) gs ≡ true
      → (g : Grant) × In g gs × (g.pid ≡ pid) × (g.object ≡ object)
  at_grant pid object gs p h =
      let (g, m, q) = In-of_any (λ g. on pid object g && p g) gs h in
      (g, m, (==_iff g.pid pid).0 (ground arith), text_eq→eq _ _ (ground arith))

  not_zero : (n i : ℕ) → test_bit n i ≡ true → n ≢ 0
  not_zero n i h e = apart (test_bit-zero i) (ap (λ m. test_bit m i) (sym e) ∙ h)

  covered_bits :
      (pid : ℕ) (object : Text) (i : ℕ)
      → test_bit (newly before after pid object) i ≡ true
      → reaches pid object i after ≡ true
      → (c : Change) × In c (diff before after)
        × (c.pid ≡ pid)
        × (c.object ≡ object)
        × (test_bit c.added i ≡ true)
  unfolding diff change_of
  covered_bits pid object i b r =
      let (g, m, p, o) = at_grant pid object after (λ x. test_bit x.mask i) r in
      let w : wider before after g.pid g.object ≡ true =
        rw (p, o) (ground (arith, not_zero _ i b)) in
      let (c, n, cp, co) = loop-covers before after [] after g m w in
      (c, n, cp ∙ p, co ∙ o, shown c n (cp ∙ p) (co ∙ o))
    where
      shown :
          (c : Change)
          → In c (diff_loop before after [] after)
          → c.pid ≡ pid
          → c.object ≡ object
          → test_bit c.added i ≡ true
      shown c n cp co = elim (loop-Source before after c [] after n) [
        | inl z ↦ absurd z
        | inr (h, hm, hw, e) ↦
            let hp : h.pid ≡ pid = ap (λ (k : Change). k.pid) (sym e) ∙ cp in
            let ho : h.object ≡ object = ap (λ (k : Change). k.object) (sym e) ∙ co in
            let hb : test_bit (newly before after h.pid h.object) i ≡ true = rw (hp, ho) b in
            ap (λ (k : Change). test_bit k.added i) e
            ∙ ap (λ n. test_bit n i) (shows-added h (not_zero _ i hb))
            ∙ hb
      ]

  gate_closed :
      (g : Grant) → ungated g.pid g.object after ≡ true → (change_of before after g).gated ≡ false
  unfolding change_of
  gate_closed g h = ground arith

  gate_wider :
      (pid : ℕ) (object : Text)
      → fresh_gate before after pid object ≡ true
      → wider before after pid object ≡ true
  gate_wider pid object h = ground arith

  gate_now :
      (pid : ℕ) (object : Text)
      → fresh_gate before after pid object ≡ true
      → ungated pid object after ≡ true
  unfolding fresh_gate
  gate_now pid object h = ground arith

  covered_gate :
      (pid : ℕ) (object : Text)
      → fresh_gate before after pid object ≡ true
      → (c : Change) × In c (diff before after)
        × (c.pid ≡ pid)
        × (c.object ≡ object)
        × (c.gated ≡ false)
  unfolding diff ungated change_of
  covered_gate pid object h =
      let (g, m, p, o) = at_grant pid object after acts_ungated (gate_now pid object h) in
      let w : wider before after g.pid g.object ≡ true = rw (p, o) (gate_wider pid object h) in
      let (c, n, cp, co) = loop-covers before after [] after g m w in
      (c, n, cp ∙ p, co ∙ o, open_now c n (cp ∙ p) (co ∙ o))
    where
      open_now :
          (c : Change)
          → In c (diff_loop before after [] after)
          → c.pid ≡ pid
          → c.object ≡ object
          → c.gated ≡ false
      open_now c n cp co = elim (loop-Source before after c [] after n) [
        | inl z ↦ absurd z
        | inr (k, km, kw, e) ↦
            let kp : k.pid ≡ pid = ap (λ (x : Change). x.pid) (sym e) ∙ cp in
            let ko : k.object ≡ object = ap (λ (x : Change). x.object) (sym e) ∙ co in
            ap (λ (x : Change). x.gated) e ∙ gate_closed k (rw (kp, ko) (gate_now pid object h))
      ]

-- For masks of 64 bits the diff shows all new reach: a permission that a process holds on an object after the change and
-- on no handle before it is in the `added` of a change for that process and object, the approval
-- constraint apart; and where a handle acts without the constraint and none did before, a change for
-- that process and object says that it is not gated.
pub diff_covers :
    (before after : List Grant) (pid : ℕ) (object : Text)
    → All Fits before
    → ((i : ℕ)
        → i < 64
        → i ≢ 7
        → reaches pid object i after ≡ true
        → reaches pid object i before ≡ false
        → (c : Change) × In c (diff before after)
          × (c.pid ≡ pid)
          × (c.object ≡ object)
          × (test_bit c.added i ≡ true))
      × (fresh_gate before after pid object ≡ true
          → (c : Change) × In c (diff before after)
            × (c.pid ≡ pid)
            × (c.object ≡ object)
            × (c.gated ≡ false))
diff_covers before after pid object f = (
  λ i l ne now old.
      covered_bits before after pid object i
        (newly-bit before after pid object i f l ∙ ground arith) now,
  covered_gate before after pid object,
)

newly_bound :
    (before after : List Grant) (pid : ℕ) (object : Text) (i : ℕ)
    → 64 ≤ i
    → test_bit (newly before after pid object) i ≡ false
unfolding newly bit_not approval
newly_bound before after pid object i l = ground (
  arith,
  test_bit-and (bit_and (union pid object 0 after) (bit_not 64 (union pid object 0 before)))
      (bit_not 64 (2 ^ 7)) i,
  test_bit_high 64 (bit_not 64 (2 ^ 7)) i (omega arith) l,
)

newly_self : (gs : List Grant) (pid : ℕ) (object : Text) → All Fits gs → newly gs gs pid object ≡ 0
newly_self gs pid object f = zero_of_bits _ λ i. elim (dec_lt i 64) [
  | yes l ↦ ground (arith, newly-bit gs gs pid object i f l)
  | no l ↦ newly_bound gs gs pid object i (omega arith)
]

-- For masks of 64 bits a change that is shown is real: its permissions are held by the process on the object after the
-- change, and either none of them was held before, or the process newly acts there without the
-- approval constraint.
pub diff_sound :
    (before after : List Grant) (c : Change)
    → All Fits before
    → In c (diff before after)
    → (i : ℕ) → i < 64
    → test_bit c.added i ≡ true
    → (reaches c.pid c.object i after ≡ true)
      × ((reaches c.pid c.object i before ≡ false)
          ⊎ (fresh_gate before after c.pid c.object ≡ true))
unfolding diff change_of
diff_sound before after c f m i l b = elim (loop-Source before after c [] after m) [
  | inl z ↦ absurd z
  | inr (g, gm, w, e) ↦
      subst
        (λ (k : Change).
          (reaches k.pid k.object i after ≡ true)
          × ((reaches k.pid k.object i before ≡ false)
              ⊎ (fresh_gate before after k.pid k.object ≡ true)))
        (sym e) (real g w (ap (λ (k : Change). test_bit k.added i) (sym e) ∙ b))
]
  where
    real :
        (g : Grant)
        → wider before after g.pid g.object ≡ true
        → test_bit (change_of before after g).added i ≡ true
        → (reaches g.pid g.object i after ≡ true)
          × ((reaches g.pid g.object i before ≡ false)
              ⊎ (fresh_gate before after g.pid g.object ≡ true))
    real g w h = elim (Bool-cases (newly before after g.pid g.object == 0)) [
      | inr nz ↦
          let q : test_bit (newly before after g.pid g.object) i ≡ true = ground arith in
          let r = newly-bit before after g.pid g.object i f l in (ground arith, inl (ground arith))
      | inl z ↦
          let q : test_bit (bit_and (union g.pid g.object 0 after) effect_mask) i ≡ true =
            ground arith in
          let r = test_bit-and (union g.pid g.object 0 after) effect_mask i in
          let u = union-bit g.pid g.object i 0 after in
          (ground (arith, test_bit-zero i), inr (ground arith))
    ]

-- Reviewing what is held already shows nothing.
pub diff_self : (gs : List Grant) → All Fits gs → diff gs gs ≡ []
unfolding diff fresh_gate
diff_self gs f = nothing (diff gs gs) λ c m. elim (loop-Source gs gs c [] gs m) [
  | inl z ↦ z
  | inr (g, gm, w, e) ↦ apart (ground (arith, newly_self gs g.pid g.object f)) w
]
  where
    nothing : (cs : List Change) → ((c : Change) → In c cs → ⊥) → cs ≡ []
    nothing [] h = refl
    nothing (c ∷ cs) h = absurd (h c (inl refl))
