-- ===== src/Policy/Labels.antt =====
-- Which labels an object gets, and what becomes of those that do not fit.
use cdk.Prelude.{
  ℕ, ◌≤◌, ◌<◌, ◌≡◌, refl, ap, ◌∙◌, sym, subst, Bool, true, false, ◌||◌, List, [], ◌∷◌, ◌++◌, Text,
  length, any, text_eq, text_eq_self, arith, inl, inr, In, length-append,
}
use cdk.Policy.{
  Label, Grant, Policy, Rule, deny, has, labels_of, automatic, add, add_if, add_selected, max_label,
}
use cdk.Policy.Rules.{violations}
use cdk.Policy.Safety.{Demands, violations_nil_iff}

abbrev holds : Label → List Label → Bool
holds l = any (λ x. text_eq x l)

any_snoc :
    (l m : Label) (out : List Label) → holds l (out ++ (m ∷ [])) ≡ (holds l out || text_eq m l)
any_snoc l m [] = ground arith
any_snoc l m (x ∷ xs) = ground (arith, any_snoc l m xs)

-- An addition keeps what was there, adds at most one label, and adds it if there is room.
add-holds : (out : List Label) (l m : Label) → holds m out ≡ true → holds m (add out l) ≡ true
unfolding add
add-holds out l m h = ground (arith, any_snoc m l out)

length-add : (out : List Label) (l : Label) → length out ≤ length (add out l)
unfolding add
length-add out l = ground (arith, length-append out (l ∷ []))

add_fits :
    (out : List Label) (l : Label) → length out < 12 → length l ≤ 24 → holds l (add out l) ≡ true
unfolding add
add_fits out l r s = ground (arith, any_snoc l l out, text_eq_self l)

add_full : (out : List Label) (l : Label) → length out ≡ 12 → add out l ≡ out
unfolding add
add_full out l e = ground arith

add_selected-holds :
    (object kind : Text) (m : Label) (ls : List (Text × Label)) (out : List Label)
    → holds m out ≡ true
    → holds m (add_selected object kind out ls) ≡ true
unfolding add_selected add_if
add_selected-holds object kind m [] out h = h
add_selected-holds object kind m ((sel, l) ∷ ls) out h =
    add_selected-holds object kind m ls (add_if (text_eq sel object || text_eq sel kind) out l)
      (kept (text_eq sel object || text_eq sel kind))
  where
    kept : (b : Bool) → holds m (add_if b out l) ≡ true
    kept true = add-holds out l m h
    kept false = h

length-add_selected :
    (object kind : Text) (ls : List (Text × Label)) (out : List Label)
    → length out ≤ length (add_selected object kind out ls)
unfolding add_selected add_if
length-add_selected object kind [] out = omega arith
length-add_selected object kind ((sel, l) ∷ ls) out = ground (
  arith,
  length-add_selected object kind ls (add_if (text_eq sel object || text_eq sel kind) out l),
  length-add out l,
)

selected_fits :
    (object kind sel : Text) (l : Label) (ls : List (Text × Label)) (out : List Label)
    → In (sel, l) ls
    → (text_eq sel object || text_eq sel kind) ≡ true
    → length l ≤ 24
    → length (add_selected object kind out ls) < 12
    → holds l (add_selected object kind out ls) ≡ true
unfolding add_selected add_if
selected_fits object kind sel l [] out m s f r = absurd m
selected_fits object kind sel l ((sel', l') ∷ ls) out (inr m) s f r =
    selected_fits object kind sel l ls (add_if (text_eq sel' object || text_eq sel' kind) out l') m
      s f r
selected_fits object kind sel l ((sel', l') ∷ ls) out (inl e) s f r =
    add_selected-holds object kind l ls (add_if (text_eq sel' object || text_eq sel' kind) out l')
      placed
  where
    chosen : (text_eq sel' object || text_eq sel' kind) ≡ true
    chosen = sym (ap (λ (x : Text × Label). text_eq x.0 object || text_eq x.0 kind) e) ∙ s

    same : l ≡ l'
    same = ap (λ (x : Text × Label). x.1) e

    room : length out < 12
    room = omega (arith, length-add_selected object kind ((sel', l') ∷ ls) out)

    placed : holds l (add_if (text_eq sel' object || text_eq sel' kind) out l') ≡ true
    placed = rw (chosen, ← same) (add_fits out l room f)

-- While an object has fewer than twelve labels, it has every label of at most 24 bytes of the policy
-- whose selector is its id or its kind.
pub labels_complete :
    (p : Policy) (g : Grant) (sel : Text) (l : Label)
    → In (sel, l) p.labels
    → (text_eq sel g.object || text_eq sel g.kind) ≡ true
    → length l ≤ max_label
    → length (labels_of p g.object g.kind g.flags) < 12
    → has p g l ≡ true
unfolding has labels_of
labels_complete p g sel l m s f r =
    selected_fits g.object g.kind sel l p.labels (automatic g.kind g.flags) m s f r

add_selected-append :
    (object kind : Text) (front back : List (Text × Label)) (out : List Label)
    → add_selected object kind out (front ++ back)
      ≡ add_selected object kind (add_selected object kind out front) back
unfolding add_selected
add_selected-append object kind [] back out = refl
add_selected-append object kind ((sel, l) ∷ ls) back out =
    add_selected-append object kind ls back (add_if (text_eq sel object || text_eq sel kind) out l)

full_stays :
    (object kind : Text) (ls : List (Text × Label)) (out : List Label)
    → length out ≡ 12
    → add_selected object kind out ls ≡ out
unfolding add_selected add_if
full_stays object kind [] out e = refl
full_stays object kind ((sel, l) ∷ ls) out e =
    ap (λ o. add_selected object kind o ls) (same (text_eq sel object || text_eq sel kind))
    ∙ full_stays object kind ls out e
  where
    same : (b : Bool) → add_if b out l ≡ out
    same true = add_full out l e
    same false = refl

-- Where the labels in the front of the policy's list have filled the twelve places without a label,
-- and the only rule denies that label, no handle on the object is a violation, whatever labels the
-- rest of the list attaches to the object.
pub labels_lost :
    (p : Policy) (object kind : Text) (flags : ℕ) (front back : List (Text × Label)) (l : Label)
    → p.labels ≡ front ++ back
    → p.rules ≡ deny l ∷ []
    → length (add_selected object kind (automatic kind flags) front) ≡ 12
    → any (λ x. text_eq x l) (add_selected object kind (automatic kind flags) front) ≡ false
    → (gs : List Grant)
    → ((g : Grant) → In g gs → (g.object ≡ object) × (g.kind ≡ kind) × (g.flags ≡ flags))
    → violations p gs ≡ []
unfolding has labels_of
labels_lost p object kind flags front back l parts rules full lacks gs on =
    (violations_nil_iff p gs).1 (λ r m. only r (subst (In r) rules m))
  where
    labels : labels_of p object kind flags ≡ add_selected object kind (automatic kind flags) front
    labels =
        ap (add_selected object kind (automatic kind flags)) parts
        ∙ add_selected-append object kind front back (automatic kind flags)
        ∙ full_stays object kind back _ full

    unlabelled : (g : Grant) → In g gs → has p g l ≡ false
    unlabelled g m = let o = on g m in rw (o.0, o.1, o.2) (ap (holds l) labels ∙ lacks)

    only : (r : Rule) → In r (deny l ∷ []) → Demands p gs r
    only r (inl e) = subst (Demands p gs) (sym e) (λ g m live. unlabelled g m)
    only r (inr m) = absurd m
