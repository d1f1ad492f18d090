-- ===== src/Scheduler/Dispatch.antt =====
-- Which task runs next, and when a running task is preempted.
use cdk.Prelude.{
  In, In-of_any, any_of_In, inl, inr, both, apart, text_eq, text_eq→eq, text_eq_self, ◌==◌, ==_iff,
  ◌&&◌, Bool, Bool-cases, ℕ, zero, suc, ◌+◌, ◌-◌, ◌%◌, ◌^◌, ◌<◌, ◌≡◌, ◌≢◌, refl, ap, ◌∙◌, sym,
  subst, true, false, Option, none, some, List, [], ◌∷◌, ◌++◌, Text, length, any, leb, arith,
  get_elem?, set, length-set,
}
use cdk.Scheduler.{
  ScheduledTask, RunningTask, Scheduler, Sorting, tally, Ordered, running_at, flatten, is_empty,
  enqueue, schedule, dispatch, preempt, expired, start_task, requeue, intent_to_priority,
  swap_remove,
}
use cdk.Scheduler.Order.{
  above, below, head_highest, last_lowest, none_of_tally, tally_of_none, swap_remove-first,
  tally-append,
}

get-set :
    {A : Type 0} (xs : List A) (i : ℕ) (v : A) → i < length xs → get_elem? (set xs i v) i ≡ some v
get-set [] i v l = absurd (omega arith)
get-set (x ∷ xs) zero v l = refl
get-set (x ∷ xs) (suc i) v l = get-set xs i v (omega arith)

get-set_other :
    {A : Type 0} (xs : List A) (i j : ℕ) (v : A) → i ≢ j → get_elem? (set xs i v) j ≡ get_elem? xs j
get-set_other [] i j v n = refl
get-set_other (x ∷ xs) zero zero v n = absurd (n refl)
get-set_other (x ∷ xs) zero (suc j) v n = refl
get-set_other (x ∷ xs) (suc i) zero v n = refl
get-set_other (x ∷ xs) (suc i) (suc j) v n = get-set_other xs i j v (omega arith)

-- What a dispatch of a highest-priority task amounts to.
pub record Runs (idx tick : ℕ) (waiting : List ScheduledTask) (r : Option Text × Scheduler)
    : Type 0 where
  pub chosen : ScheduledTask
  pub waits : In chosen waiting
  pub named : r.0 ≡ some chosen.object_id
  pub placed : running_at r.1 idx ≡ some (record { task = chosen; started_at_tick = tick })
  pub highest : any (above chosen.priority) waiting ≡ false

sorted_head :
    (sorting : Sorting) (x : ScheduledTask) (xs waiting : List ScheduledTask)
    → sorting.run waiting ≡ x ∷ xs
    → any (above x.priority) waiting ≡ false
sorted_head sorting x xs waiting e = none_of_tally (above x.priority) waiting (
    sym (sorting.same (above x.priority) waiting)
    ∙ ap (tally (above x.priority)) e
    ∙ tally_of_none (above x.priority) (x ∷ xs)
        (head_highest x xs (subst Ordered e (sorting.ordered waiting))))

abbrev same_task : ScheduledTask → ScheduledTask → Bool
same_task t u =
    text_eq t.object_id u.object_id && (t.priority == u.priority && text_eq t.intent u.intent)

same_task_sound : (t u : ScheduledTask) → same_task t u ≡ true → t ≡ u
same_task_sound t u h =
    let (a, r) = both _ _ h in
    let (b, c) = both _ _ r in
    let p : t.object_id ≡ u.object_id = text_eq→eq t.object_id u.object_id a in
    let q : t.priority ≡ u.priority = (==_iff t.priority u.priority).0 b in
    let i : t.intent ≡ u.intent = text_eq→eq t.intent u.intent c in
    λ k. record { object_id = p k; priority = q k; intent = i k }

same_task_self : (t : ScheduledTask) → same_task t t ≡ true
same_task_self t =
    rw (text_eq_self t.object_id, (==_iff t.priority t.priority).1 refl, text_eq_self t.intent) refl

-- What stands first after a sort was there before it.
sorted_from :
    (sorting : Sorting) (x : ScheduledTask) (xs waiting : List ScheduledTask)
    → sorting.run waiting ≡ x ∷ xs
    → In x waiting
sorted_from sorting x xs waiting e = elim (Bool-cases (any (same_task x) waiting)) [
  | inl found ↦
      let (t, m, same) = In-of_any (same_task x) waiting found in
      subst (λ u. In u waiting) (sym (same_task_sound x t same)) m
  | inr missing ↦
      let none_sorted : tally (same_task x) (x ∷ xs) ≡ 0 =
        ap (tally (same_task x)) (sym e)
        ∙ sorting.same (same_task x) waiting
        ∙ tally_of_none (same_task x) waiting missing in
      absurd (
        apart (none_of_tally (same_task x) (x ∷ xs) none_sorted)
          (any_of_In (same_task x) x (x ∷ xs) (inl refl) (same_task_self x)))
]

-- A sort of a list that has elements has elements.
sort_not_nil :
    (sorting : Sorting) (xs : List ScheduledTask) (t : ScheduledTask)
    → sorting.run (xs ++ (t ∷ [])) ≢ []
sort_not_nil sorting xs t e = omega (
  arith,
  sorting.same (λ _. true) (xs ++ (t ∷ [])),
  ap (tally (λ _. true)) e,
  tally-append (λ _. true) xs (t ∷ []),
)

start_Runs :
    (sorting : Sorting) (idx tick : ℕ) (s : Scheduler) (waiting : List ScheduledTask)
    (t : ScheduledTask)
    → idx < length s.running
    → (ready : List ScheduledTask) → sorting.run (waiting ++ (t ∷ [])) ≡ ready
    → Runs idx tick (waiting ++ (t ∷ [])) (start_task idx tick s ready)
unfolding start_task
start_Runs sorting idx tick s waiting t l [] e = absurd (sort_not_nil sorting waiting t e)
start_Runs sorting idx tick s waiting t l (x ∷ xs) e = record {
  chosen = x;
  waits = sorted_from sorting x xs (waiting ++ (t ∷ [])) e;
  named = refl;
  placed = rw (get-set s.running idx (some (record { task = x; started_at_tick = tick })) l) refl;
  highest = sorted_head sorting x xs (waiting ++ (t ∷ [])) e;
}

dispatch-idle :
    (idx tick : ℕ) (s : Scheduler)
    → running_at s idx ≡ none
    → dispatch idx tick s ≡ start_task idx tick s s.ready
unfolding dispatch
dispatch-idle idx tick s e = rw e refl

enqueue-room :
    (sorting : Sorting) (t : ScheduledTask) (ready : List ScheduledTask)
    → length ready < 32
    → enqueue sorting t ready ≡ sorting.run (ready ++ (t ∷ []))
unfolding enqueue
enqueue-room sorting t ready l = ground arith

abbrev scheduled : Text → Text → ScheduledTask
scheduled object_id intent = record {
  object_id = object_id;
  priority = intent_to_priority intent;
  intent = intent;
}

-- A dispatch on an idle slot right after a task was scheduled, with room in the queue, runs a task
-- of the highest priority of all that wait, the new one included.
pub schedule-dispatch :
    (sorting : Sorting) (object_id intent : Text) (idx tick : ℕ) (s : Scheduler)
    → length s.ready < 32
    → idx < length s.running
    → running_at s idx ≡ none
    → Runs idx tick
        (s.ready
          ++ (record {
            object_id = object_id;
            priority = intent_to_priority intent;
            intent = intent;
          }
              ∷ []))
        (dispatch idx tick (schedule sorting object_id intent s))
unfolding schedule
schedule-dispatch sorting object_id intent idx tick s room l idle =
    subst (Runs idx tick (s.ready ++ (scheduled object_id intent ∷ [])))
      (sym (dispatch-idle idx tick (schedule sorting object_id intent s) idle))
      (start_Runs sorting idx tick (schedule sorting object_id intent s) s.ready
        (scheduled object_id intent) l (enqueue sorting (scheduled object_id intent) s.ready)
        (sym (enqueue-room sorting (scheduled object_id intent) s.ready room)))

nonempty : (xs : List ScheduledTask) → xs ≢ [] → is_empty xs ≡ false
nonempty [] h = absurd (h refl)
nonempty (x ∷ xs) h = refl

vacated :
    (s : Scheduler) (idx : ℕ) (ready : List ScheduledTask)
    → idx < length s.running
    → running_at (record { ready = ready; running = set s.running idx none }) idx ≡ none
vacated s idx ready l = rw (get-set s.running idx none l) refl

abbrev requeued : Sorting → ℕ → RunningTask → Scheduler → Scheduler
requeued sorting idx rt s = record {
  ready = enqueue sorting rt.task s.ready;
  running = set s.running idx none;
}

preempt-expired :
    (sorting : Sorting) (idx tick : ℕ) (s : Scheduler) (rt : RunningTask)
    → running_at s idx ≡ some rt
    → expired tick (some rt) ≡ true
    → s.ready ≢ []
    → preempt sorting idx tick s ≡ dispatch idx tick (requeued sorting idx rt s)
unfolding preempt requeue
preempt-expired sorting idx tick s rt here late busy = rw (here, late, nonempty s.ready busy) refl

-- When a slice is over and others wait, with room in the queue, one of the tasks that wait and the one
-- that ran is next, with a priority that none of them exceeds: it stands in the slot from this tick on.
pub preempt_highest :
    (sorting : Sorting) (idx tick : ℕ) (s : Scheduler) (rt : RunningTask)
    → length s.ready < 32
    → idx < length s.running
    → running_at s idx ≡ some rt
    → expired tick (some rt) ≡ true
    → s.ready ≢ []
    → Runs idx tick (s.ready ++ (rt.task ∷ [])) (preempt sorting idx tick s)
preempt_highest sorting idx tick s rt room l here late busy =
    subst (Runs idx tick (s.ready ++ (rt.task ∷ [])))
      (sym (
        preempt-expired sorting idx tick s rt here late busy
        ∙ dispatch-idle idx tick (requeued sorting idx rt s)
            (vacated s idx (enqueue sorting rt.task s.ready) l)))
      (start_Runs sorting idx tick (requeued sorting idx rt s) s.ready rt.task
        (omega (arith, length-set s.running idx none)) (enqueue sorting rt.task s.ready)
        (sym (enqueue-room sorting rt.task s.ready room)))

-- A slice is over after fifty ticks, also where the tick counter wraps around, and not before; until
-- then a preemption changes nothing.
pub expired_iff :
    (sorting : Sorting) (idx started k : ℕ) (s : Scheduler) (task : ScheduledTask)
    → started < 2 ^ 64
    → k < 2 ^ 64
    → running_at s idx ≡ some (record { task = task; started_at_tick = started })
    → (expired ((started + k) % 2 ^ 64) (running_at s idx) ≡ leb 50 k)
      × (k < 50 → preempt sorting idx ((started + k) % 2 ^ 64) s ≡ (none, s))
unfolding expired preempt
expired_iff sorting idx started k s task l m here =
    (ap (expired _) here ∙ ap (leb 50) elapsed, λ early. rw here (rw (elapsed) (ground arith)))
  where
    elapsed : ((started + k) % 2 ^ 64 + 2 ^ 64 - started) % 2 ^ 64 ≡ k
    elapsed = omega arith

-- The second of two dispatches in a row runs the task at the end of the queue: with three tasks or
-- more in order, one that no waiting task has a lower priority than.
pub dispatch_second_lowest :
    (i j tick : ℕ) (s : Scheduler) (x z : ScheduledTask) (ys : List ScheduledTask)
    → s.ready ≡ x ∷ (ys ++ (z ∷ []))
    → Ordered s.ready
    → i ≢ j
    → running_at s i ≡ none
    → running_at s j ≡ none
    → ((dispatch j tick (dispatch i tick s).1).0 ≡ some z.object_id)
      × (any (below z.priority) s.ready ≡ false)
unfolding start_task
dispatch_second_lowest i j tick s x z ys queue o n idle_i idle_j = (
  ap (λ (r : Option Text × Scheduler). (dispatch j tick r.1).0) first
      ∙ ap (λ (r : Option Text × Scheduler). r.0) (dispatch-idle j tick next idle_next)
      ∙ ap (λ ready. (start_task j tick next ready).0) (swap_remove-first x z ys),
  rw queue (last_lowest (x ∷ ys) z (subst Ordered queue o)),
)
  where
    next : Scheduler
    next = record {
      ready = swap_remove (x ∷ (ys ++ (z ∷ []))) 0;
      running = set s.running i (some (record { task = x; started_at_tick = tick }));
    }

    first : dispatch i tick s ≡ (some x.object_id, next)
    first = dispatch-idle i tick s idle_i ∙ ap (start_task i tick s) queue

    idle_next : running_at next j ≡ none
    idle_next =
        ap flatten
          (get-set_other s.running i j (some (record { task = x; started_at_tick = tick })) n)
        ∙ idle_j
