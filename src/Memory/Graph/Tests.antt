-- ===== src/Memory/Graph/Tests.antt =====
-- The memory graph at the objects of the source's tests, with a map that replaces also where it is full.
use mathlib.Core.Logic.{inr}
use cdk.Prelude.{
  ◌%◌, ◌^◌, true, false, ◌<◌, ◌≤◌, ◌≡◌, refl, Option, none, some, List, [], ◌∷◌, ◌++◌, Text, length,
  ltb, if◌then◌else◌, text_eq, arith,
}
use cdk.Memory.Graph.{
  MemoryObject, MemoryGraph, IndexMap, max_objects, new, register_object, sizes, get, key, replace,
}
use cdk.Memory.Graph.Totals.{Registers, register_object_lem}

put : Text → MemoryObject → List MemoryObject → Option (List MemoryObject)
put k entry os = elim (get k os) [
  | some o ↦ some (replace k entry os)
  | none ↦ if ltb (length os) max_objects then some (os ++ (entry ∷ [])) else none
]

module _ (k : Text) (entry : MemoryObject) (os : List MemoryObject) where
  put_there : (o : MemoryObject) → get k os ≡ some o → put k entry os ≡ some (replace k entry os)
  unfolding put
  put_there o e = rw (e, put) refl

  put_new : get k os ≡ none → length os < max_objects → put k entry os ≡ some (os ++ (entry ∷ []))
  unfolding put
  put_new e l = let r : ltb (length os) max_objects ≡ true = ground arith in rw (e, put) (rw r refl)

  put_no_room : get k os ≡ none → max_objects ≤ length os → put k entry os ≡ none
  unfolding put
  put_no_room e l =
      let r : ltb (length os) max_objects ≡ false = ground arith in rw (e, put) (rw r refl)

abbrev map : IndexMap
map = record {
  insert = put;
  insert_new = put_new;
  insert_no_room = put_no_room;
  insert_there = λ k entry o os e l. put_there k entry os o e;
  insert_there_full = λ k entry o os e l. inr (put_there k entry os o e);
}

-- The same id with sizes 100 and 200: the total is 300, the object has 200.
once : MemoryGraph
once = register_object map (b'd' ∷ []) 100 new

twice : MemoryGraph
unfolding once
twice = register_object map (b'd' ∷ []) 200 once

counted_twice : twice.total_memory ≡ 300
unfolding twice register_object put get key replace new text_eq
counted_twice = refl

has_200 : sizes twice.objects ≡ 200
unfolding twice register_object put get key replace new text_eq sizes
has_200 = refl

in_step : once.total_memory ≡ sizes once.objects % 2 ^ 64
unfolding once register_object put get key replace new text_eq sizes
in_step = refl

-- An object that is there is registered again.
register_object_lem_example : Registers map (b'd' ∷ []) 200 once
register_object_lem_example = register_object_lem map (b'd' ∷ []) 200 once in_step
