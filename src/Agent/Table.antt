-- ===== src/Agent/Table.antt =====
-- Laws of the handle table: where a capability goes, and what the other slots keep.
use cdk.Prelude.{
  ℕ, zero, suc, ◌<◌, ◌≡◌, refl, ap, ◌≢◌, Option, none, some, List, [], ◌∷◌, length, get_elem?, set,
  position, arith, Option-cases, inl, inr, ok, err, ◌⊎◌, sym, length-set,
}
use cdk.Capability.{Capability}
use cdk.Agent.{HandleTable, table_full, bad_handle, insert, get, remove, is_none, flatten}

get-set_self :
    (cs : List (Option Capability)) (i : ℕ) (c : Option Capability)
    → i < length cs
    → flatten (get_elem? (set cs i c) i) ≡ c
get-set_self [] i c h = elim h [ ]
get-set_self (x ∷ cs) zero c h = refl
get-set_self (x ∷ cs) (suc i) c h = get-set_self cs i c (omega arith)

get-set_ne :
    (cs : List (Option Capability)) (i j : ℕ) (c : Option Capability)
    → i ≢ j
    → get_elem? (set cs i c) j ≡ get_elem? cs j
get-set_ne [] i j c h = refl
get-set_ne (x ∷ cs) zero zero c h = absurd (h refl)
get-set_ne (x ∷ cs) zero (suc j) c h = refl
get-set_ne (x ∷ cs) (suc i) zero c h = refl
get-set_ne (x ∷ cs) (suc i) (suc j) c h = get-set_ne cs i j c (λ e. h (ap suc e))

-- What `position` finds is the first free slot.
position-none :
    (cs : List (Option Capability)) (i : ℕ)
    → position is_none cs ≡ some i
    → (i < length cs)
      × (get_elem? cs i ≡ some none)
      × ((j : ℕ) → j < i → (c : Capability) × (get_elem? cs j ≡ some (some c)))
position-none [] i h = cc
position-none (none ∷ cs) zero h = (omega arith, refl, λ j l. absurd (omega arith))
position-none (none ∷ cs) (suc i) h = ground arith
position-none (some c ∷ cs) i h = elim (Option-cases (position is_none cs)) [
  | inl e ↦ ground arith
  | inr (k, e) ↦
      let (l, g, f) = position-none cs k e in
      let q : i ≡ suc k = ground arith in
      rw q (
        omega arith,
        g,
        λ j.
            elim j
              as (λ j.
                j < suc k → (c' : Capability) × (get_elem? (some c ∷ cs) j ≡ some (some c'))) [
                  | zero ↦ λ _. (c, refl)
                  | suc n ↦ λ l'. f n (omega arith)
                ],
      )
]

position_all_some :
    (cs : List (Option Capability))
    → position is_none cs ≡ none
    → (j : ℕ) → j < length cs
    → (c : Capability) × (get_elem? cs j ≡ some (some c))
position_all_some [] h j l = elim l [ ]
position_all_some (none ∷ cs) h j l = cc
position_all_some (some c ∷ cs) h zero l = (c, refl)
position_all_some (some c ∷ cs) h (suc j) l = position_all_some cs (ground arith) j (omega arith)

in_range :
    (cs : List (Option Capability)) (i : ℕ) (c : Capability)
    → flatten (get_elem? cs i) ≡ some c
    → i < length cs
in_range [] i c h = cc
in_range (x ∷ cs) zero c h = omega arith
in_range (x ∷ cs) (suc i) c h = omega (arith, in_range cs i c h)

-- What `insert` promises of the table that it returns.
pub record Inserted (t : HandleTable) (c : Capability) (h : ℕ) (t' : HandleTable) : Type 0 where
  pub stored : get t' h ≡ ok c
  pub was_free : get t h ≡ err bad_handle
  pub lowest : (j : ℕ) → j < h → (d : Capability) × (get t j ≡ ok d)
  pub others : (j : ℕ) → j ≢ h → get t' j ≡ get t j
  pub same_pid : t'.pid ≡ t.pid
  pub same_size : length t'.caps ≡ length t.caps

inserted :
    (t : HandleTable) (c : Capability) (h : ℕ)
    → position is_none t.caps ≡ some h
    → Inserted t c h (record t { caps = set t.caps h (some c) })
unfolding get
inserted t c h e = record {
  stored = rw (get-set_self t.caps h (some c) f.0);
  was_free = rw f.1;
  lowest = λ j l. let (d, g) = f.2 j l in (d, rw g);
  others = λ j ne. rw (get-set_ne t.caps h j (some c) (λ q. ne (sym q)));
  same_pid = refl;
  same_size = length-set t.caps h (some c);
}
  where
    f :
        (h < length t.caps)
        × (get_elem? t.caps h ≡ some none)
        × ((j : ℕ) → j < h → (c : Capability) × (get_elem? t.caps j ≡ some (some c)))
    f = position-none t.caps h e

-- A capability goes into the lowest free slot: it is read back from there, every slot below is in
-- use, every other handle keeps its capability; and `insert` fails, with a full table, only where
-- every slot is in use.
pub insert_lem :
    (t : HandleTable) (c : Capability)
    → ((h : ℕ) × (t' : HandleTable) × (insert t c ≡ ok (h, t')) × Inserted t c h t')
      ⊎ ((insert t c ≡ err table_full)
          × ((j : ℕ) → j < length t.caps → (d : Capability) × (get t j ≡ ok d)))
unfolding insert get
insert_lem t c = elim (Option-cases (position is_none t.caps)) [
  | inl full ↦ inr (rw full, λ j l. let (d, g) = position_all_some t.caps full j l in (d, rw g))
  | inr (h, e) ↦ inl (h, record t { caps = set t.caps h (some c) }, rw e, inserted t c h e)
]

-- `remove` takes out the capability that `get` returns and frees its slot, with every other handle
-- as before; a handle that `get` refuses is refused with no change.
pub remove_lem :
    (t : HandleTable) (h : ℕ)
    → ((c : Capability) × (t' : HandleTable) × (get t h ≡ ok c)
        × (remove t h ≡ ok (c, t'))
        × (get t' h ≡ err bad_handle)
        × ((j : ℕ) → j ≢ h → get t' j ≡ get t j))
      ⊎ ((get t h ≡ err bad_handle) × (remove t h ≡ err bad_handle))
unfolding remove get
remove_lem t h = elim (Option-cases (flatten (get_elem? t.caps h))) [
  | inl e ↦ inr (rw e, rw e)
  | inr (c, e) ↦ inl (
    c,
    record t { caps = set t.caps h none },
    rw e,
    rw e,
    rw (get-set_self t.caps h none (in_range t.caps h c e)),
    λ j ne. rw (get-set_ne t.caps h j none (λ q. ne (sym q))),
  )
]
