-- ===== src/Policy/Reach/Loop.antt =====
-- What the loop of `diff` collects.
use cdk.Prelude.{
  ℕ, ◌≡◌, refl, ap, ◌∙◌, sym, subst, Bool, true, not, ◌&&◌, ◌||◌, List, [], ◌∷◌, ◌++◌, Text, any,
  ◌==◌, if◌then◌else◌, text_eq, arith, Bool-cases, inl, inr, ◌⊎◌, In, In-of_any, In-append,
  In-append_left, In-append_right, text_eq→eq, ==_iff,
}
use cdk.Policy.{Grant}
use cdk.Policy.Reach.{Change, newly, fresh_gate, change_of, diff_loop}

module _ (before after : List Grant) where
  -- Whether a grant adds to the diff.
  abbrev pub wider : ℕ → Text → Bool
  wider pid object = not (newly before after pid object == 0) || fresh_gate before after pid object

  abbrev next : List Change → Grant → List Change
  next out g =
      if any (λ c. c.pid == g.pid && text_eq c.object g.object) out
      then out
      else (if wider g.pid g.object then out ++ (change_of before after g ∷ []) else out)

  next-keeps : (c : Change) (out : List Change) (g : Grant) → In c out → In c (next out g)
  next-keeps c out g m =
      elim (Bool-cases (any (λ x. x.pid == g.pid && text_eq x.object g.object) out)) [
        | inl t ↦ rw t m
        | inr f ↦ elim (Bool-cases (wider g.pid g.object)) [
          | inl t ↦ rw (f, t) (In-append_left c out (change_of before after g ∷ []) m)
          | inr w ↦ rw (f, w) m
        ]
      ]

  loop-keeps :
      (c : Change) (out : List Change) (gs : List Grant)
      → In c out
      → In c (diff_loop before after out gs)
  unfolding diff_loop
  loop-keeps c out [] m = m
  loop-keeps c out (g ∷ gs) m = loop-keeps c (next out g) gs (next-keeps c out g m)

  abbrev pub Source : List Grant → Change → Type 0
  Source gs c =
      (g : Grant) × In g gs × (wider g.pid g.object ≡ true) × (c ≡ change_of before after g)

  next-Source :
      (c : Change) (out : List Change) (g : Grant)
      → In c (next out g)
      → In c out ⊎ Source (g ∷ []) c
  next-Source c out g m =
      elim (Bool-cases (any (λ x. x.pid == g.pid && text_eq x.object g.object) out)) [
        | inl t ↦ inl (subst (In c) (rw t refl) m)
        | inr f ↦ elim (Bool-cases (wider g.pid g.object)) [
          | inr w ↦ inl (subst (In c) (rw (f, w) refl) m)
          | inl w ↦
              elim (In-append c out (change_of before after g ∷ [])
                (subst (In c) (rw (f, w) refl) m)) [
                  | inl old ↦ inl old
                  | inr (inl e) ↦ inr (g, inl refl, w, e)
                  | inr (inr z) ↦ absurd z
                ]
        ]
      ]

  pub loop-Source :
      (c : Change) (out : List Change) (gs : List Grant)
      → In c (diff_loop before after out gs)
      → In c out ⊎ Source gs c
  unfolding diff_loop
  loop-Source c out [] m = inl m
  loop-Source c out (g ∷ gs) m = elim (loop-Source c (next out g) gs m) [
    | inr (h, i, w, e) ↦ inr (h, inr i, w, e)
    | inl n ↦ elim (next-Source c out g n) [
      | inl old ↦ inl old
      | inr (h, inl e, w, q) ↦ inr (h, inl e, w, q)
      | inr (h, inr z, w, q) ↦ absurd z
    ]
  ]

  -- A change of the result for the process and object of a grant.
  abbrev pub Covered : ℕ → Text → List Change → Type 0
  Covered pid object cs = (c : Change) × In c cs × (c.pid ≡ pid) × (c.object ≡ object)

  next-covers :
      (out : List Change) (g : Grant)
      → wider g.pid g.object ≡ true
      → Covered g.pid g.object (next out g)
  unfolding change_of
  next-covers out g w =
      elim (Bool-cases (any (λ x. x.pid == g.pid && text_eq x.object g.object) out)) [
        | inl t ↦
            let (c, m, h) = In-of_any (λ x. x.pid == g.pid && text_eq x.object g.object) out t in
            (
              c,
              next-keeps c out g m,
              (==_iff c.pid g.pid).0 (ground arith),
              text_eq→eq _ _ (ground arith),
            )
        | inr f ↦ (
          change_of before after g,
          rw (f, w) (In-append_right _ out (change_of before after g ∷ []) (inl refl)),
          refl,
          refl,
        )
      ]

  pub loop-covers :
      (out : List Change) (gs : List Grant) (g : Grant)
      → In g gs
      → wider g.pid g.object ≡ true
      → Covered g.pid g.object (diff_loop before after out gs)
  unfolding diff_loop
  loop-covers out [] g m w = absurd m
  loop-covers out (h ∷ gs) g (inr m) w = loop-covers (next out h) gs g m w
  loop-covers out (h ∷ gs) g (inl e) w =
      let q : wider h.pid h.object ≡ true = ap (λ (k : Grant). wider k.pid k.object) (sym e) ∙ w in
      let (c, m, p, o) = next-covers out h q in
      (
        c,
        loop-keeps c (next out h) gs m,
        p ∙ ap (λ (k : Grant). k.pid) (sym e),
        o ∙ ap (λ (k : Grant). k.object) (sym e),
      )
