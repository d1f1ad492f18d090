-- ===== src/Memory/Graph.antt =====
-- src/memory_graph.rs: the objects in memory with their sizes and counts of references. The map of
-- at most 16 entries is a list of entries with different ids; an id of more than 64 bytes becomes the
-- empty id, as the code's unwrap_or_default makes it. Sums of machine words wrap around. What inserting
-- does to the map is a parameter.
pub mod Totals
mod Tests
use mathlib.Core.Logic.{inl, inr, ◌⊎◌}
use cdk.Prelude.{
  ℕ, ◌+◌, ◌-◌, ◌%◌, ◌^◌, ◌≤◌, ◌<◌, ◌≡◌, refl, sym, ap, ◌∙◌, Bool, true, false, not, ◌&&◌, ◌||◌,
  Option, none, some, List, [], ◌∷◌, ◌++◌, Text, length, find, find-In, leb, ltb, if◌then◌else◌,
  text_eq, arith, Bool-cases, Option-cases,
}
use mathlib.Core.Option

abbrev pub max_objects : ℕ
max_objects = 16

abbrev pub max_id_len : ℕ
max_id_len = 64

pub record MemoryObject : Type 0 where
  pub object_id : Text
  pub size : ℕ
  pub references : ℕ

pub record MemoryGraph : Type 0 where
  pub objects : List MemoryObject
  pub total_memory : ℕ

unfoldable pub new : MemoryGraph
new = record { objects = []; total_memory = 0 }

-- String::from_str(object_id).unwrap_or_default()
unfoldable pub key : Text → Text
key id = if leb (length id) max_id_len then id else []

abbrev pub named : Text → MemoryObject → Bool
named k o = text_eq o.object_id k

unfoldable pub get : Text → List MemoryObject → Option MemoryObject
get k objects = find (named k) objects

-- The entry under a key is replaced where it stands.
unfoldable pub replace : Text → MemoryObject → List MemoryObject → List MemoryObject
replace k entry [] = []
replace k entry (o ∷ os) =
    let rest = replace k entry os in if named k o then entry ∷ os else o ∷ rest

-- `FnvIndexMap::insert`; none is the error. A new key is put in if there is room, a key that is there
-- is replaced; whether that also works where the map is full is left open.
pub record IndexMap : Type 0 where
  pub insert : Text → MemoryObject → List MemoryObject → Option (List MemoryObject)
  pub insert_new :
      (k : Text) (entry : MemoryObject) (os : List MemoryObject)
      → get k os ≡ none
      → length os < max_objects
      → insert k entry os ≡ some (os ++ (entry ∷ []))
  pub insert_no_room :
      (k : Text) (entry : MemoryObject) (os : List MemoryObject)
      → get k os ≡ none
      → max_objects ≤ length os
      → insert k entry os ≡ none
  pub insert_there :
      (k : Text) (entry o : MemoryObject) (os : List MemoryObject)
      → get k os ≡ some o
      → length os < max_objects
      → insert k entry os ≡ some (replace k entry os)
  pub insert_there_full :
      (k : Text) (entry o : MemoryObject) (os : List MemoryObject)
      → get k os ≡ some o
      → max_objects ≤ length os
      → (insert k entry os ≡ none) ⊎ (insert k entry os ≡ some (replace k entry os))

unfoldable pub delete : Text → List MemoryObject → List MemoryObject
delete k [] = []
delete k (o ∷ os) = let rest = delete k os in if named k o then os else o ∷ rest

registered : ℕ → MemoryGraph → Option (List MemoryObject) → MemoryGraph
registered size g none = g
registered size g (some os) = record {
  objects = os;
  total_memory = (g.total_memory + size) % 2 ^ 64;
}

unfoldable pub register_object : IndexMap → Text → ℕ → MemoryGraph → MemoryGraph
unfolding registered
register_object m id size g =
    registered size g
      (m.insert (key id) (record { object_id = key id; size = size; references = 0 }) g.objects)

-- An entry that `get_mut` finds is changed in place.
abbrev update : (MemoryObject → MemoryObject) → Text → MemoryGraph → MemoryGraph
update f k g = elim (get k g.objects) [
  | none ↦ g
  | some o ↦ record g { objects = replace k (f o) g.objects }
]

unfoldable pub add_reference : Text → MemoryGraph → MemoryGraph
add_reference id = update (λ o. record o { references = (o.references + 1) % 2 ^ 64 }) (key id)

unfoldable pub remove_reference : Text → MemoryGraph → MemoryGraph
remove_reference id =
    update
      (λ o. record o { references = if ltb 0 o.references then o.references - 1 else o.references })
      (key id)

unfoldable pub remove_object : Text → MemoryGraph → Option ℕ × MemoryGraph
remove_object id g = elim (get (key id) g.objects) [
  | none ↦ (none, g)
  | some o ↦ (
    some o.size,
    record { objects = delete (key id) g.objects; total_memory = g.total_memory - o.size },
  )
]

unfoldable pub get_object_size : Text → MemoryGraph → Option ℕ
get_object_size id g = Option.map (λ (o : MemoryObject). o.size) (get (key id) g.objects)

unfoldable pub object_count : MemoryGraph → ℕ
object_count g = length g.objects

-- The memory that the objects take.
unfoldable pub sizes : List MemoryObject → ℕ
sizes [] = 0
sizes (o ∷ os) = o.size + sizes os
