-- ===== src/Scheduler/Conserve.antt =====
-- No task is lost or made, but where the queue is full.
use cdk.Prelude.{
  ℕ, zero, suc, ◌+◌, ◌<◌, ◌≡◌, refl, ap, ◌∙◌, Bool, true, false, Option, none, some, List, [], ◌∷◌,
  ◌++◌, Text, length, ltb, if◌then◌else◌, arith, Bool-cases, Option-cases, inl, inr, get_elem?, set,
  length-set, position, text_eq, remove_at,
}
use cdk.Scheduler.{
  ScheduledTask, RunningTask, Scheduler, Sorting, tally, running_at, flatten, is_empty, enqueue,
  dispatch, preempt, expired, start_task, requeue, refresh, yield_running, take_queued, take_at,
  take_found, yield_from,
}
use cdk.Scheduler.Order.{one, tally-cons, tally-append, tally-swap_remove}

module _ (p : ScheduledTask → Bool) where
  abbrev pub tally_slot : Option RunningTask → ℕ
  tally_slot none = 0
  tally_slot (some rt) = one (p rt.task)

  abbrev pub tally_running : List (Option RunningTask) → ℕ
  tally_running [] = 0
  tally_running (o ∷ os) = tally_slot o + tally_running os

  -- The tasks that pass the test, waiting or running.
  abbrev pub tally_all : Scheduler → ℕ
  tally_all s = tally p s.ready + tally_running s.running

  -- A slot's task is exchanged for another's.
  running-set :
      (os : List (Option RunningTask)) (idx : ℕ) (o : Option RunningTask)
      → idx < length os
      → tally_running (set os idx o) + tally_slot (flatten (get_elem? os idx))
        ≡ tally_running os + tally_slot o
  running-set [] idx o l = absurd (omega arith)
  running-set (none ∷ os) zero o l = omega arith
  running-set (some rt ∷ os) zero o l = omega arith
  running-set (q ∷ os) (suc idx) o l = omega (arith, running-set os idx o (omega arith))

  start-tally :
      (idx tick : ℕ) (s : Scheduler) (ready : List ScheduledTask)
      → idx < length s.running
      → running_at s idx ≡ none
      → s.ready ≡ ready
      → tally_all (start_task idx tick s ready).1 ≡ tally_all s
  unfolding start_task
  start-tally idx tick s [] l e q = refl
  start-tally idx tick s (t ∷ ts) l e q = omega (
    arith,
    tally-swap_remove p t ts,
    running-set s.running idx (some (record { task = t; started_at_tick = tick })) l,
    ap tally_slot e,
    ap (tally p) q,
    tally-cons p t ts,
  )

  dispatch-tally :
      (idx tick : ℕ) (s : Scheduler)
      → idx < length s.running
      → tally_all (dispatch idx tick s).1 ≡ tally_all s
  unfolding dispatch
  dispatch-tally idx tick s l = elim (Option-cases (running_at s idx)) [
    | inl e ↦ rw e (start-tally idx tick s s.ready l e refl)
    | inr (rt, e) ↦ rw e refl
  ]

  enqueue-tally :
      (sorting : Sorting) (t : ScheduledTask) (ready : List ScheduledTask)
      → tally p (enqueue sorting t ready)
        ≡ tally p ready + (if ltb (length ready) 32 then one (p t) else 0)
  unfolding enqueue
  enqueue-tally sorting t ready = elim (Bool-cases (ltb (length ready) 32)) [
    | inl r ↦
        rw r (sorting.same p (ready ++ (t ∷ [])) ∙ tally-append p ready (t ∷ []) ∙ ground arith)
    | inr r ↦ rw r (omega arith)
  ]

  -- Moving a task back to the queue keeps it if there is room.
  requeued-tally :
      (sorting : Sorting) (idx : ℕ) (s : Scheduler) (rt : RunningTask)
      → idx < length s.running
      → running_at s idx ≡ some rt
      → tally_all
            (record { ready = enqueue sorting rt.task s.ready; running = set s.running idx none })
          + (if ltb (length s.ready) 32 then 0 else one (p rt.task))
        ≡ tally_all s
  requeued-tally sorting idx s rt l e = ground (
    arith,
    enqueue-tally sorting rt.task s.ready,
    running-set s.running idx none l,
    ap tally_slot e,
  )

  preempt-tally :
      (sorting : Sorting) (idx tick : ℕ) (s : Scheduler)
      → idx < length s.running
      → length s.ready < 32
      → tally_all (preempt sorting idx tick s).1 ≡ tally_all s
  unfolding preempt expired requeue refresh
  preempt-tally sorting idx tick s l room = elim (Option-cases (running_at s idx)) [
    | inl e ↦ rw e refl
    | inr (rt, e) ↦ elim (Bool-cases (expired tick (some rt))) [
      | inr early ↦ rw (e, early) refl
      | inl late ↦ elim (Bool-cases (is_empty s.ready)) [
        | inl none_wait ↦
            rw (e, late, none_wait)
              (omega (
                arith,
                running-set s.running idx (some (record rt { started_at_tick = tick })) l,
                ap tally_slot e,
              ))
        | inr some_wait ↦
            rw (e, late, some_wait)
              (dispatch-tally idx tick
                  (record {
                    ready = enqueue sorting rt.task s.ready;
                    running = set s.running idx none;
                  })
                  (omega (arith, length-set s.running idx none))
                ∙ ground (arith, requeued-tally sorting idx s rt l e))
      ]
    ]
  ]

  yield-tally :
      (sorting : Sorting) (idx : ℕ) (s : Scheduler)
      → idx < length s.running
      → length s.ready < 32
      → tally_all (yield_running sorting idx s).1 ≡ tally_all s
  unfolding yield_running yield_from requeue
  yield-tally sorting idx s l room = elim (Option-cases (running_at s idx)) [
    | inl e ↦ rw e refl
    | inr (rt, e) ↦ rw e (ground (arith, requeued-tally sorting idx s rt l e))
  ]

  removed-tally :
      (xs : List ScheduledTask) (pos : ℕ) (t : ScheduledTask)
      → get_elem? xs pos ≡ some t
      → tally p (remove_at xs pos) + one (p t) ≡ tally p xs
  removed-tally [] pos t e = cc
  removed-tally (x ∷ xs) zero t e = let q : x ≡ t = cc in rw q (ground arith)
  removed-tally (x ∷ xs) (suc pos) t e = ground (arith, removed-tally xs pos t e)

  take-tally :
      (object_id : Text) (tick idx : ℕ) (s : Scheduler)
      → idx < length s.running
      → tally_all (take_queued object_id tick idx s).1 ≡ tally_all s
  unfolding take_queued take_at take_found
  take-tally object_id tick idx s l = elim (Option-cases (running_at s idx)) [
    | inr (rt, e) ↦ rw e refl
    | inl e ↦ elim (Option-cases (position (λ t. text_eq t.object_id object_id) s.ready)) [
      | inl gone ↦ rw (e, gone) refl
      | inr (pos, found) ↦ elim (Option-cases (get_elem? s.ready pos)) [
        | inl out ↦ rw (e, found, out) refl
        | inr (t, at) ↦
            rw (e, found, at)
              (omega (
                arith,
                removed-tally s.ready pos t at,
                running-set s.running idx (some (record { task = t; started_at_tick = tick })) l,
                ap tally_slot e,
              ))
      ]
    ]
  ]

-- While the queue has room, dispatching, preempting, yielding and taking a queued task neither lose
-- nor make a task: for every test of tasks, as many pass it, waiting or running, as before.
pub conserves :
    (sorting : Sorting) (p : ScheduledTask → Bool) (object_id : Text) (idx tick : ℕ) (s : Scheduler)
    → idx < length s.running
    → length s.ready < 32
    → (tally_all p (dispatch idx tick s).1 ≡ tally_all p s)
      × (tally_all p (preempt sorting idx tick s).1 ≡ tally_all p s)
      × (tally_all p (yield_running sorting idx s).1 ≡ tally_all p s)
      × (tally_all p (take_queued object_id tick idx s).1 ≡ tally_all p s)
conserves sorting p object_id idx tick s l room = (
  dispatch-tally p idx tick s l,
  preempt-tally p sorting idx tick s l room,
  yield-tally p sorting idx s l room,
  take-tally p object_id tick idx s l,
)

-- Yielding or being preempted while the queue is full loses the task that ran.
pub full_loses :
    (sorting : Sorting) (p : ScheduledTask → Bool) (idx tick : ℕ) (s : Scheduler) (rt : RunningTask)
    → idx < length s.running
    → length s.ready ≡ 32
    → running_at s idx ≡ some rt
    → expired tick (some rt) ≡ true
    → (tally_all p (preempt sorting idx tick s).1 + one (p rt.task) ≡ tally_all p s)
      × (tally_all p (yield_running sorting idx s).1 + one (p rt.task) ≡ tally_all p s)
unfolding preempt yield_running yield_from requeue
full_loses sorting p idx tick s rt l full e late = (
  rw (e, late, waiting s.ready full)
      (ap (λ n. n + one (p rt.task))
          (dispatch-tally p idx tick
            (record { ready = enqueue sorting rt.task s.ready; running = set s.running idx none })
            (omega (arith, length-set s.running idx none)))
        ∙ ground (arith, requeued-tally p sorting idx s rt l e)),
  rw e (ground (arith, requeued-tally p sorting idx s rt l e)),
)
  where
    waiting : (xs : List ScheduledTask) → length xs ≡ 32 → is_empty xs ≡ false
    waiting [] h = absurd (omega arith)
    waiting (x ∷ xs) h = refl
