-- ===== src/Scheduler.antt =====
-- src/scheduler.rs: the ready queue and the running slot of each core. A method is one step, its locks
-- included. `sort_unstable` may order tasks of one priority in any way: it is an argument.
pub mod Order
pub mod Dispatch
pub mod Conserve
mod Tests
use cdk.Prelude.{
  ℕ, ◌+◌, ◌-◌, ◌%◌, ◌^◌, ◌≤◌, ◌≡◌, Bool, true, false, not, ◌&&◌, ◌||◌, Option, none, some, List, [],
  ◌∷◌, ◌++◌, Text, length, get_elem?, set, replicate, remove_at, last?, filter, position, ltb, leb,
  ◌==◌, if◌then◌else◌, text_eq,
}

abbrev pub max_queue_size : ℕ
max_queue_size = 32

abbrev pub max_running_cores : ℕ
max_running_cores = 8

abbrev pub ticks_per_slice : ℕ
ticks_per_slice = 50

pub record ScheduledTask : Type 0 where
  pub object_id : Text
  pub priority : ℕ
  pub intent : Text

pub record RunningTask : Type 0 where
  pub task : ScheduledTask
  pub started_at_tick : ℕ

pub record Scheduler : Type 0 where
  pub ready : List ScheduledTask
  pub running : List (Option RunningTask)

unfoldable pub new : Scheduler
new = record { ready = []; running = replicate 8 none }

abbrev low_latency : Text
low_latency = b'l' ∷ b'o' ∷ b'w' ∷ b'_' ∷ b'l' ∷ b'a' ∷ b't' ∷ b'e' ∷ b'n' ∷ b'c' ∷ b'y' ∷ []

abbrev interactive : Text
interactive = b'i' ∷ b'n' ∷ b't' ∷ b'e' ∷ b'r' ∷ b'a' ∷ b'c' ∷ b't' ∷ b'i' ∷ b'v' ∷ b'e' ∷ []

abbrev normal : Text
normal = b'n' ∷ b'o' ∷ b'r' ∷ b'm' ∷ b'a' ∷ b'l' ∷ []

abbrev batch : Text
batch = b'b' ∷ b'a' ∷ b't' ∷ b'c' ∷ b'h' ∷ []

abbrev energy_saving : Text
energy_saving =
    b'e' ∷ b'n' ∷ b'e' ∷ b'r' ∷ b'g' ∷ b'y' ∷ b'_' ∷ b's' ∷ b'a' ∷ b'v' ∷ b'i' ∷ b'n' ∷ b'g' ∷ []

unfoldable pub intent_to_priority : Text → ℕ
intent_to_priority intent =
    if text_eq intent low_latency
    then 10
    else (if text_eq intent interactive
        then 7
        else (if text_eq intent normal
            then 5
            else (if text_eq intent batch
                then 3
                else (if text_eq intent energy_saving then 2 else 5))))

-- How many tasks of a list pass a test.
abbrev pub tally : (ScheduledTask → Bool) → List ScheduledTask → ℕ
tally p xs = length (filter p xs)

-- Highest priority first: the order of `Ord for ScheduledTask`.
abbrev pub Ordered : List ScheduledTask → Type 0
Ordered [] = Unit
Ordered (x ∷ []) = Unit
Ordered (x ∷ y ∷ ys) = (y.priority ≤ x.priority) × Ordered (y ∷ ys)

-- `sort_unstable`: the result is in order and has the same tasks.
pub record Sorting : Type 0 where
  pub run : List ScheduledTask → List ScheduledTask
  pub ordered : (xs : List ScheduledTask) → Ordered (run xs)
  pub same : (p : ScheduledTask → Bool) (xs : List ScheduledTask) → tally p (run xs) ≡ tally p xs

abbrev pub init {ℓ} : {A : Type ℓ} → List A → List A
init [] = []
init (x ∷ []) = []
init (x ∷ y ∷ ys) = x ∷ init (y ∷ ys)

abbrev pub swap_with {ℓ} : {A : Type ℓ} → List A → ℕ → Option A → List A
swap_with xs i none = []
swap_with xs i (some l) = init (set xs i l)

-- `swap_remove`: the last element takes the place of the one that is removed.
unfoldable pub swap_remove {ℓ} : {A : Type ℓ} → List A → ℕ → List A
swap_remove xs i = swap_with xs i (last? xs)

-- `percpu::slot_for_apic`: an entry of all ones is no slot.
unfoldable pub slot_for_apic : List ℕ → ℕ → Option ℕ
slot_for_apic table apic = elim (get_elem? table apic) [
  | none ↦ none
  | some idx ↦ if idx == 2 ^ 32 - 1 then none else some idx
]

abbrev pub in_range : ℕ → Option ℕ
in_range idx = if ltb idx max_running_cores then some idx else none

unfoldable pub slot : List ℕ → ℕ → Option ℕ
unfolding slot_for_apic
slot table apic = elim (slot_for_apic table apic) [ some idx ↦ in_range idx | none ↦ in_range apic ]

abbrev pub flatten {ℓ} : {A : Type ℓ} → Option (Option A) → Option A
flatten none = none
flatten (some o) = o

abbrev pub running_at : Scheduler → ℕ → Option RunningTask
running_at s idx = flatten (get_elem? s.running idx)

abbrev pub is_some {ℓ} : {A : Type ℓ} → Option A → Bool
is_some none = false
is_some (some a) = true

-- `push` and, if there was room, `sort_unstable`.
unfoldable pub enqueue : Sorting → ScheduledTask → List ScheduledTask → List ScheduledTask
enqueue sorting t ready =
    if ltb (length ready) max_queue_size then sorting.run (ready ++ (t ∷ [])) else ready

unfoldable pub schedule : Sorting → Text → Text → Scheduler → Scheduler
unfolding enqueue intent_to_priority
schedule sorting object_id intent s = record s {
  ready =
      enqueue sorting
        (record { object_id = object_id; priority = intent_to_priority intent; intent = intent })
        s.ready;
}

start_task : ℕ → ℕ → Scheduler → List ScheduledTask → Option Text × Scheduler
start_task idx tick s [] = (none, s)
start_task idx tick s (t ∷ ts) = (
  some t.object_id,
  record {
    ready = swap_remove (t ∷ ts) 0;
    running = set s.running idx (some (record { task = t; started_at_tick = tick }));
  },
)

-- `execute_next_on_at` on a slot.
unfoldable pub dispatch : ℕ → ℕ → Scheduler → Option Text × Scheduler
unfolding start_task
dispatch idx tick s =
    if is_some (running_at s idx) then (none, s) else start_task idx tick s s.ready

abbrev pub at_slot : Option ℕ → Scheduler → (ℕ → Option Text × Scheduler) → Option Text × Scheduler
at_slot none s k = (none, s)
at_slot (some idx) s k = k idx

unfoldable pub execute_next_on_at : List ℕ → ℕ → ℕ → Scheduler → Option Text × Scheduler
unfolding slot dispatch
execute_next_on_at table apic tick s = at_slot (slot table apic) s (λ idx. dispatch idx tick s)

-- `current_tick.wrapping_sub(started_at_tick) >= TICKS_PER_SLICE` on 64-bit ticks.
unfoldable pub expired : ℕ → Option RunningTask → Bool
expired tick none = false
expired tick (some rt) = leb ticks_per_slice ((tick + 2 ^ 64 - rt.started_at_tick) % 2 ^ 64)

requeue : Sorting → Option RunningTask → List ScheduledTask → List ScheduledTask
unfolding enqueue
requeue sorting none ready = ready
requeue sorting (some rt) ready = enqueue sorting rt.task ready

refresh : ℕ → Option RunningTask → Option RunningTask
refresh tick none = none
refresh tick (some rt) = some (record rt { started_at_tick = tick })

abbrev pub is_empty {ℓ} : {A : Type ℓ} → List A → Bool
is_empty [] = true
is_empty (x ∷ xs) = false

-- `preempt_if_expired_on` on a slot.
unfoldable pub preempt : Sorting → ℕ → ℕ → Scheduler → Option Text × Scheduler
unfolding expired requeue refresh dispatch
preempt sorting idx tick s =
    if not (expired tick (running_at s idx))
    then (none, s)
    else (if is_empty s.ready
        then (none, record s { running = set s.running idx (refresh tick (running_at s idx)) })
        else dispatch idx tick (record {
          ready = requeue sorting (running_at s idx) s.ready;
          running = set s.running idx none;
        }))

unfoldable pub preempt_if_expired_on :
    Sorting → List ℕ → ℕ → ℕ → Scheduler → Option Text × Scheduler
unfolding slot preempt
preempt_if_expired_on sorting table apic tick s =
    at_slot (slot table apic) s (λ idx. preempt sorting idx tick s)

-- `complete_running_on` and `yield_running_on` on a slot.
unfoldable pub complete : ℕ → Scheduler → Scheduler
complete idx s = record s { running = set s.running idx none }

yield_from : Sorting → ℕ → Scheduler → Option RunningTask → Option Text × Scheduler
unfolding requeue
yield_from sorting idx s none = (none, s)
yield_from sorting idx s (some rt) = (
  some rt.task.object_id,
  record { ready = requeue sorting (some rt) s.ready; running = set s.running idx none },
)

unfoldable pub yield_running : Sorting → ℕ → Scheduler → Option Text × Scheduler
unfolding yield_from
yield_running sorting idx s = yield_from sorting idx s (running_at s idx)

take_found : ℕ → ℕ → Scheduler → ℕ → Option ScheduledTask → Option Text × Scheduler
take_found idx tick s pos none = (none, s)
take_found idx tick s pos (some t) = (
  some t.object_id,
  record {
    ready = remove_at s.ready pos;
    running = set s.running idx (some (record { task = t; started_at_tick = tick }));
  },
)

take_at : ℕ → ℕ → Scheduler → Option ℕ → Option Text × Scheduler
unfolding take_found
take_at idx tick s none = (none, s)
take_at idx tick s (some pos) = take_found idx tick s pos (get_elem? s.ready pos)

unfoldable pub take_queued : Text → ℕ → ℕ → Scheduler → Option Text × Scheduler
unfolding take_at
take_queued object_id tick idx s =
    if is_some (running_at s idx)
    then (none, s)
    else take_at idx tick s (position (λ t. text_eq t.object_id object_id) s.ready)
