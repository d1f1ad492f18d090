-- ===== src/Memory/Graph/Totals.antt =====
-- The total of the memory graph beside the sizes of its objects.
use mathlib.Core.Logic.{inl, inr, ◌⊎◌}
use cdk.Prelude.{
  ℕ, ◌+◌, ◌-◌, ◌%◌, ◌^◌, ◌≤◌, ◌<◌, ◌≡◌, refl, sym, ◌∙◌, none, some, List, [], ◌∷◌, ◌++◌, Text,
  length, find, ltb, arith, Bool-cases, Option-cases,
}
use cdk.Memory.Graph.{
  MemoryObject, MemoryGraph, IndexMap, max_objects, key, named, get, replace, delete,
  register_object, remove_object, sizes,
}

get-find : (k : Text) (os : List MemoryObject) → get k os ≡ find (named k) os
unfolding get
get-find k os = refl

sizes-append :
    (os : List MemoryObject) (o : MemoryObject) → sizes (os ++ (o ∷ [])) ≡ sizes os + o.size
unfolding sizes
sizes-append [] o = omega arith
sizes-append (x ∷ os) o = omega (arith, sizes-append os o)

sizes-replace :
    (k : Text) (entry o : MemoryObject) (os : List MemoryObject)
    → find (named k) os ≡ some o
    → sizes (replace k entry os) + o.size ≡ sizes os + entry.size
unfolding sizes replace
sizes-replace k entry o [] e = cc
sizes-replace k entry o (x ∷ os) e = elim (Bool-cases (named k x)) [
  | inl h ↦ ground arith
  | inr h ↦ ground (arith, sizes-replace k entry o os)
]

sizes-delete :
    (k : Text) (o : MemoryObject) (os : List MemoryObject)
    → find (named k) os ≡ some o
    → sizes (delete k os) + o.size ≡ sizes os
unfolding sizes delete
sizes-delete k o [] e = cc
sizes-delete k o (x ∷ os) e = elim (Bool-cases (named k x)) [
  | inl h ↦ ground arith
  | inr h ↦ ground (arith, sizes-delete k o os)
]

-- What registering an object does, on every branch, where the total is that of the objects' sizes.
abbrev pub Registers : IndexMap → Text → ℕ → MemoryGraph → Type 0
Registers m id size g =
    let after = register_object m id size g in
    let entry : MemoryObject = record { object_id = key id; size = size; references = 0 } in
    ((get (key id) g.objects ≡ none)
      × (length g.objects < max_objects)
      × (after.objects ≡ g.objects ++ (entry ∷ []))
      × (after.total_memory ≡ sizes after.objects % 2 ^ 64))
    ⊎ (((max_objects ≤ length g.objects) × (after ≡ g))
        ⊎ ((o : MemoryObject) × (get (key id) g.objects ≡ some o)
            × (after.objects ≡ replace (key id) entry g.objects)
            × (after.total_memory ≡ (sizes after.objects + o.size) % 2 ^ 64)))

-- Where the total is the sum of the objects' sizes, as a 64-bit word: registering a new id with room
-- adds the object and the total is the sum again; in a full map nothing changes, or an id that is
-- there is replaced; and where an id is replaced the total is the sum and the old object's size on
-- top, so it counts that object twice.
pub register_object_lem :
    (m : IndexMap) (id : Text) (size : ℕ) (g : MemoryGraph)
    → g.total_memory ≡ sizes g.objects % 2 ^ 64
    → Registers m id size g
unfolding register_object
register_object_lem m id size g t = elim (Option-cases (get (key id) g.objects)) [
  | inl absent ↦ elim (Bool-cases (ltb (length g.objects) max_objects)) [
    | inl room ↦
        let e : m.insert (key id) entry g.objects ≡ some (g.objects ++ (entry ∷ [])) =
          m.insert_new (key id) entry g.objects absent (ground arith) in
        inl (absent, ground arith, rw e refl, rw e (omega (arith, t, sizes-append g.objects entry)))
    | inr full ↦ inr (
        inl
          (ground arith, rw (m.insert_no_room (key id) entry g.objects absent (ground arith)) refl))
  ]
  | inr (o, here) ↦ elim (Bool-cases (ltb (length g.objects) max_objects)) [
    | inl room ↦ replaced o here (m.insert_there (key id) entry o g.objects here (ground arith))
    | inr full ↦ elim (m.insert_there_full (key id) entry o g.objects here (ground arith)) [
      | inl e ↦ inr (inl (ground arith, rw e refl))
      | inr e ↦ replaced o here e
    ]
  ]
]
  where
    entry : MemoryObject
    entry = record { object_id = key id; size = size; references = 0 }

    replaced :
        (o : MemoryObject)
        → get (key id) g.objects ≡ some o
        → m.insert (key id) entry g.objects ≡ some (replace (key id) entry g.objects)
        → Registers m id size g
    replaced o here e = inr (inr (o, here, rw e refl, rw e total))
      where
        total :
            (g.total_memory + size) % 2 ^ 64
            ≡ (sizes (replace (key id) entry g.objects) + o.size) % 2 ^ 64
        total = omega (
          arith,
          t,
          sizes-replace (key id) entry o g.objects (sym (get-find (key id) g.objects) ∙ here),
        )

-- Removing an object that is there answers its size, and takes it out of the objects and, as far as
-- it goes, out of the total; an id that is not there changes nothing.
pub remove_object_lem :
    (id : Text) (g : MemoryGraph)
    → ((o : MemoryObject) × (get (key id) g.objects ≡ some o)
        × ((remove_object id g).0 ≡ some o.size)
        × (sizes (remove_object id g).1.objects + o.size ≡ sizes g.objects)
        × ((remove_object id g).1.total_memory ≡ g.total_memory - o.size))
      ⊎ ((get (key id) g.objects ≡ none) × (remove_object id g ≡ (none, g)))
unfolding remove_object
remove_object_lem id g = elim (Option-cases (get (key id) g.objects)) [
  | inl absent ↦ inr (absent, rw (absent, remove_object) refl)
  | inr (o, here) ↦ inl (
    o,
    here,
    rw (here, remove_object) refl,
    rw (here, remove_object)
        (sizes-delete (key id) o g.objects (sym (get-find (key id) g.objects) ∙ here)),
    rw (here, remove_object) refl,
  )
]
