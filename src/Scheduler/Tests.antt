-- ===== src/Scheduler/Tests.antt =====
-- A sort that is in order and keeps the tasks, and the scheduler's theorems at concrete queues.
use cdk.Prelude.{
  ℕ, ◌+◌, ◌≤◌, ◌≡◌, refl, Bool, true, false, none, some, List, [], ◌∷◌, ◌++◌, any, ltb,
  if◌then◌else◌, arith, Bool-cases, inl, inr, replicate,
}
use cdk.Scheduler.{
  ScheduledTask, RunningTask, Scheduler, Sorting, tally, Ordered, dispatch, preempt, expired,
  yield_running, take_queued, start_task, swap_remove,
}
use cdk.Scheduler.Order.{below, one}
use cdk.Scheduler.Dispatch.{Runs, preempt_highest, dispatch_second_lowest}
use cdk.Scheduler.Conserve.{tally_all, conserves}

unfoldable insert_task : ScheduledTask → List ScheduledTask → List ScheduledTask
insert_task t [] = t ∷ []
insert_task t (x ∷ xs) = if ltb x.priority t.priority then t ∷ x ∷ xs else x ∷ insert_task t xs

unfoldable sort_tasks : List ScheduledTask → List ScheduledTask
unfolding insert_task
sort_tasks [] = []
sort_tasks (t ∷ ts) = insert_task t (sort_tasks ts)

insert-tally :
    (p : ScheduledTask → Bool) (t : ScheduledTask) (xs : List ScheduledTask)
    → tally p (insert_task t xs) ≡ one (p t) + tally p xs
unfolding insert_task
insert-tally p t [] = ground arith
insert-tally p t (x ∷ xs) = ground (arith, insert-tally p t xs)

sort-tally :
    (p : ScheduledTask → Bool) (xs : List ScheduledTask) → tally p (sort_tasks xs) ≡ tally p xs
unfolding sort_tasks
sort-tally p [] = refl
sort-tally p (x ∷ xs) = ground (arith, insert-tally p x (sort_tasks xs), sort-tally p xs)

insert-after :
    (x t : ScheduledTask) (xs : List ScheduledTask)
    → t.priority ≤ x.priority
    → Ordered (x ∷ xs)
    → Ordered (x ∷ insert_task t xs)
unfolding insert_task
insert-after x t [] h o = (h, tt)
insert-after x t (y ∷ ys) h o = elim (Bool-cases (ltb y.priority t.priority)) [
  | inl e ↦ rw e (h, (ground arith, o.1))
  | inr e ↦ rw e (o.0, insert-after y t ys (ground arith) o.1)
]

insert-Ordered :
    (t : ScheduledTask) (xs : List ScheduledTask) → Ordered xs → Ordered (insert_task t xs)
unfolding insert_task
insert-Ordered t [] o = tt
insert-Ordered t (x ∷ xs) o = elim (Bool-cases (ltb x.priority t.priority)) [
  | inl e ↦ rw e (ground arith, o)
  | inr e ↦ rw e (insert-after x t xs (ground arith) o)
]

sort-Ordered : (xs : List ScheduledTask) → Ordered (sort_tasks xs)
unfolding sort_tasks
sort-Ordered [] = tt
sort-Ordered (x ∷ xs) = insert-Ordered x (sort_tasks xs) (sort-Ordered xs)

abbrev sorting : Sorting
sorting = record { run = sort_tasks; ordered = sort-Ordered; same = sort-tally }

abbrev task : ℕ → ScheduledTask
task n = record { object_id = n ∷ []; priority = n; intent = [] }

abbrev waiting : Scheduler
waiting = record { ready = task 10 ∷ task 5 ∷ task 2 ∷ []; running = replicate 8 none }

abbrev started : RunningTask
started = record { task = task 7; started_at_tick = 100 }

abbrev busy : Scheduler
busy = record { ready = task 10 ∷ task 5 ∷ []; running = some started ∷ replicate 7 none }

-- Two cores take the highest and then the lowest of three.
second_run : (dispatch 1 0 (dispatch 0 0 waiting).1).0 ≡ some (2 ∷ [])
unfolding dispatch start_task swap_remove
second_run = refl

dispatch_second_lowest_example :
    ((dispatch 1 0 (dispatch 0 0 waiting).1).0 ≡ some (2 ∷ []))
    × (any (below 2) waiting.ready ≡ false)
dispatch_second_lowest_example =
    dispatch_second_lowest 0 1 0 waiting (task 10) (task 2) (task 5 ∷ []) refl
      (omega arith, (omega arith, tt)) (omega arith) refl refl

late : expired 150 (some started) ≡ true
unfolding expired
late = ground arith

preempt_highest_example : Runs 0 150 (busy.ready ++ (task 7 ∷ [])) (preempt sorting 0 150 busy)
preempt_highest_example =
    preempt_highest sorting 0 150 busy started (omega arith) (omega arith) refl late (λ e. cc)

abbrev important : ScheduledTask → Bool
important t = ltb 6 t.priority

conserves_example :
    (tally_all important (dispatch 0 150 busy).1 ≡ tally_all important busy)
    × (tally_all important (preempt sorting 0 150 busy).1 ≡ tally_all important busy)
    × (tally_all important (yield_running sorting 0 busy).1 ≡ tally_all important busy)
    × (tally_all important (take_queued (5 ∷ []) 150 0 busy).1 ≡ tally_all important busy)
conserves_example = conserves sorting important (5 ∷ []) 0 150 busy (omega arith) (omega arith)

abbrev crowd : Scheduler
crowd = record { ready = replicate 32 (task 1); running = some started ∷ replicate 7 none }
