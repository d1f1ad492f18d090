-- ===== src/Policy/Safety.antt =====
-- A policy has no violation exactly if each of its rules holds of the grants.
use cdk.Prelude.{
  apart, ℕ, ◌≡◌, refl, ap, ◌∙◌, sym, subst, Bool, true, false, ◌&&◌, List, [], ◌∷◌, ◌++◌, any,
  filter, map, ◌==◌, if◌then◌else◌, arith, Bool-cases, inl, inr, ◌⊎◌, ◌↔◌, In, any_of_In, In-of_any,
  In-filter, In-filter_of, In-append_left, In-append_right, ==_iff,
}
use cdk.Policy.{
  Label, Rule, deny, separate, approval_rule, Grant, denied, needs_approval, Policy, has,
}
use cdk.Policy.Rules.{
  is_live, acts_ungated, collect_pids, mine, separate_loop, rule_violations, violations_from,
  violations,
}

-- What a rule demands of the grants.
abbrev pub Demands : Policy → List Grant → Rule → Type 0
Demands p gs (deny l) = (g : Grant) → In g gs → is_live g ≡ true → has p g l ≡ false
Demands p gs (approval_rule l) = (g : Grant) → In g gs → acts_ungated g ≡ true → has p g l ≡ false
Demands p gs (separate a b) =
    (g h : Grant)
    → In g gs
    → In h gs
    → g.pid ≡ h.pid
    → is_live g ≡ true
    → is_live h ≡ true
    → (has p g a && has p h b) ≡ false

abbrev pub IsSafe : Policy → List Grant → Type 0
IsSafe p gs = (r : Rule) → In r p.rules → Demands p gs r

all_of : (a b : Bool) → (a ≡ true → b ≡ false) → (a && b) ≡ false
all_of true b h = h refl
all_of false b h = refl

map_nil : {A B : Type 0} (f : A → B) (xs : List A) → map f xs ≡ [] → xs ≡ []
map_nil f [] h = refl
map_nil f (x ∷ xs) h = cc

nil_of_none : {A : Type 0} (xs : List A) → ((a : A) → In a xs → ⊥) → xs ≡ []
nil_of_none [] h = refl
nil_of_none (x ∷ xs) h = absurd (h x (inl refl))

-- A filter is empty exactly if nothing passes.
none_pass :
    {A : Type 0} (p : A → Bool) (xs : List A) → filter p xs ≡ [] → (a : A) → In a xs → p a ≡ false
none_pass p xs h a m = elim (Bool-cases (p a)) [
  | inl t ↦ absurd (subst (In a) h (In-filter_of p a xs m t))
  | inr f ↦ f
]

filter_nil :
    {A : Type 0} (p : A → Bool) (xs : List A) → ((a : A) → In a xs → p a ≡ false) → filter p xs ≡ []
filter_nil p xs h = nil_of_none _ (λ a m. let (i, t) = In-filter p a xs m in apart (h a i) t)

abbrev with_pid : List ℕ → Grant → List ℕ
with_pid pids g = if any (λ y. y == g.pid) pids then pids else pids ++ (g.pid ∷ [])

collect_pids-keep :
    (x : ℕ) (pids : List ℕ) (gs : List Grant) → In x pids → In x (collect_pids pids gs)
unfolding collect_pids
collect_pids-keep x pids [] m = m
collect_pids-keep x pids (g ∷ gs) m =
    collect_pids-keep x (with_pid pids g) gs (kept (any (λ y. y == g.pid) pids))
  where
    kept : (b : Bool) → In x (if b then pids else pids ++ (g.pid ∷ []))
    kept true = m
    kept false = In-append_left x pids (g.pid ∷ []) m

-- Every process with a handle is visited.
collect_pids-all :
    (pids : List ℕ) (gs : List Grant) (g : Grant) → In g gs → In g.pid (collect_pids pids gs)
unfolding collect_pids
collect_pids-all pids [] g m = absurd m
collect_pids-all pids (h ∷ gs) g (inr m) = collect_pids-all (with_pid pids h) gs g m
collect_pids-all pids (h ∷ gs) g (inl e) =
    collect_pids-keep g.pid _ gs (there (Bool-cases (any (λ y. y == h.pid) pids)))
  where
    same : g.pid ≡ h.pid
    same = ap (λ (k : Grant). k.pid) e

    there :
        (any (λ y. y == h.pid) pids ≡ true) ⊎ (any (λ y. y == h.pid) pids ≡ false)
        → In g.pid (if any (λ y. y == h.pid) pids then pids else pids ++ (h.pid ∷ []))
    there (inl t) =
        let (y, m, q) = In-of_any (λ y. y == h.pid) pids t in
        rw t (subst (λ z. In z pids) ((==_iff y h.pid).0 q ∙ sym same) m)
    there (inr f) = rw f (In-append_right g.pid pids (h.pid ∷ []) (inl same))

module _ (p : Policy) (gs : List Grant) (a b : Label) where
  abbrev both : ℕ → Bool
  both pid = any (λ g. has p g a) (mine pid gs) && any (λ g. has p g b) (mine pid gs)

  separate_loop_nil :
      (pids : List ℕ) → separate_loop p gs a b pids ≡ [] → (x : ℕ) → In x pids → both x ≡ false
  unfolding separate_loop
  separate_loop_nil [] h x m = absurd m
  separate_loop_nil (pid ∷ pids) h x m = elim (Bool-cases (both pid)) [
    | inl t ↦ ground arith
    | inr f ↦ elim m [ inl e ↦ ap both e ∙ f | inr m' ↦ separate_loop_nil pids (ground arith) x m' ]
  ]

  nil_separate_loop :
      (pids : List ℕ) → ((x : ℕ) → In x pids → both x ≡ false) → separate_loop p gs a b pids ≡ []
  unfolding separate_loop
  nil_separate_loop [] h = refl
  nil_separate_loop (pid ∷ pids) h =
      rw (h pid (inl refl)) (nil_separate_loop pids (λ x m. h x (inr m)))

  both_of_pair :
      (g h : Grant)
      → In g gs
      → In h gs
      → g.pid ≡ h.pid
      → is_live g ≡ true
      → is_live h ≡ true
      → both g.pid ≡ false
      → (has p g a && has p h b) ≡ false
  both_of_pair g h mg mh e lg lh f = elim (Bool-cases (has p g a && has p h b)) [
    | inr n ↦ n
    | inl t ↦ ground (
      arith,
      any_of_In (λ k. has p k a) g (mine g.pid gs) (In-filter_of _ g gs mg (ground arith)),
      any_of_In (λ k. has p k b) h (mine g.pid gs) (In-filter_of _ h gs mh (ground arith)),
    )
  ]

  pair_of_both : (pid : ℕ) → Demands p gs (separate a b) → both pid ≡ false
  pair_of_both pid d = elim (Bool-cases (both pid)) [
    | inr n ↦ n
    | inl t ↦
        let (g, mg, hg) = In-of_any (λ k. has p k a) (mine pid gs) (ground arith) in
        let (h, mh, hh) = In-of_any (λ k. has p k b) (mine pid gs) (ground arith) in
        let (ig, tg) = In-filter (λ k. k.pid == pid && is_live k) g gs mg in
        let (ih, th) = In-filter (λ k. k.pid == pid && is_live k) h gs mh in
        absurd (apart (d g h ig ih (ground arith) (ground arith) (ground arith)) (ground arith))
  ]

rule_nil : (p : Policy) (gs : List Grant) (r : Rule) → rule_violations p gs r ≡ [] → Demands p gs r
unfolding rule_violations
rule_nil p gs (deny l) h =
    λ g m live. ground (arith, none_pass (λ k. is_live k && has p k l) gs (map_nil _ _ h) g m)
rule_nil p gs (approval_rule l) h =
    λ g m acts. ground (arith, none_pass (λ k. acts_ungated k && has p k l) gs (map_nil _ _ h) g m)
rule_nil p gs (separate a b) h = λ g k mg mk e lg lk.
    both_of_pair p gs a b g k mg mk e lg lk
      (separate_loop_nil p gs a b (collect_pids [] gs) h g.pid (collect_pids-all [] gs g mg))

nil_rule : (p : Policy) (gs : List Grant) (r : Rule) → Demands p gs r → rule_violations p gs r ≡ []
unfolding rule_violations
nil_rule p gs (deny l) d =
    ap (map (λ g. denied g.pid g.object l))
      (filter_nil _ gs (λ g m. all_of (is_live g) (has p g l) (d g m)))
nil_rule p gs (approval_rule l) d =
    ap (map (λ g. needs_approval g.pid g.object l))
      (filter_nil _ gs (λ g m. all_of (acts_ungated g) (has p g l) (d g m)))
nil_rule p gs (separate a b) d =
    nil_separate_loop p gs a b (collect_pids [] gs) (λ x m. pair_of_both p gs a b x d)

append_nil_left : {A : Type 0} (xs ys : List A) → xs ++ ys ≡ [] → (xs ≡ []) × (ys ≡ [])
append_nil_left [] ys h = (refl, h)
append_nil_left (x ∷ xs) ys h = cc

all_held :
    (p : Policy) (gs : List Grant) (rs : List Rule)
    → violations_from p gs rs ≡ []
    → (r : Rule) → In r rs
    → Demands p gs r
unfolding violations_from
all_held p gs [] h r m = absurd m
all_held p gs (x ∷ rs) h r (inl e) =
    subst (Demands p gs) (sym e) (rule_nil p gs x (append_nil_left _ _ h).0)
all_held p gs (x ∷ rs) h r (inr m) = all_held p gs rs (append_nil_left _ _ h).1 r m

none_found :
    (p : Policy) (gs : List Grant) (rs : List Rule)
    → ((r : Rule) → In r rs → Demands p gs r)
    → violations_from p gs rs ≡ []
unfolding violations_from
none_found p gs [] d = refl
none_found p gs (x ∷ rs) d =
    rw (nil_rule p gs x (d x (inl refl))) (none_found p gs rs (λ r m. d r (inr m)))

-- `violations` finds nothing exactly if every rule of the policy holds: no live handle on a denied
-- label, no acting handle without the approval constraint on a label that wants it, and no process
-- with live handles on both of two separated labels.
pub violations_nil_iff : (p : Policy) (gs : List Grant) → (violations p gs ≡ []) ↔ IsSafe p gs
unfolding violations
violations_nil_iff p gs = (all_held p gs p.rules, none_found p gs p.rules)
