-- ===== src/Rebuild/Job/Given.antt =====
-- No more segments are done or in flight than the walk of a job has given out, after any event.
use mayastor.Common.{
  ℕ, zero, suc, ◌+◌, ◌≤◌, ◌≡◌, refl, Bool, true, false, Option, none, some, ◌==◌, arith, inl, inr,
  Bool-cases, if_both, some_inj,
}
use mayastor.Common.Panic.{◌>>=◌}
use mayastor.Common.Words.{add64}
use mayastor.Rebuild.State.{RebuildError, is_done, is_running}
use mayastor.Rebuild.Tasks.{
  RebuildTasks, TaskResult, InFlight, await_one_task, schedule_segment_rebuild, is_none,
}
use mayastor.Rebuild.Job.{
  RangeRebuilder, Job, Mode, waiting, managing, draining, ended, System, Event, client_calls,
  forces_stop, forces_fail, asks_stats, receives, lands, step, frontend_op, on_result, result_at,
  managed, on_message, message_at, received, with_job, fail_with, complete_job, reconcile_job,
  scheduled, schedule_task_by_id, or_complete, start_task_by_id, start_tasks, complete_if_idle,
  start_all_tasks, run_head, settle, goes_on,
}
use mayastor.Rebuild.Job.Invariant.{Inv, Counted}
use mayastor.Rebuild.Job.Landing.{await_one_task-Counted}
use mayastor.Rebuild.Job.Ends.{IsPossible, step-Inv}
use mayastor.Rebuild.Job.Stats.{Measures, Given, IsMeasured, stats_lem, watched_step}

add_at_most : (a b : ℕ) → add64 a b ≤ a + b
unfolding add64
add_at_most a b = omega arith

done_at_most :
    (t : RebuildTasks) (r : TaskResult) → (await_one_task t r).segments_done ≤ t.segments_done + 1
unfolding await_one_task add64
done_at_most t r = elim (Bool-cases (is_none r.error)) [
  | inl k ↦ rw k (omega arith)
  | inr k ↦ rw k (omega arith)
]

module _ (R : RangeRebuilder) (m : Measures R) where
  -- A job that is there is so.
  abbrev GivenIf : Option (Job R) → Type 0
  GivenIf none = Unit
  GivenIf (some k) = Given R m k

  bind-GivenIf :
      (o : Option (Job R)) (f : Job R → Option (Job R))
      → GivenIf o
      → ((k : Job R) → Given R m k → GivenIf (f k))
      → GivenIf (o >>= f)
  bind-GivenIf none f g h = tt
  bind-GivenIf (some k) f g h = h k g

  complete_job-Given : (j : Job R) → Given R m j → Given R m (complete_job R j)
  unfolding complete_job
  complete_job-Given j g = record { done = g.done }

  fail_with-Given : (j : Job R) (e : RebuildError) → Given R m j → Given R m (fail_with R j e)
  unfolding fail_with
  fail_with-Given j e g = record { done = g.done }

  reconcile_job-Given : (j : Job R) → Given R m j → Given R m (reconcile_job R j)
  unfolding reconcile_job
  reconcile_job-Given j g = record { done = g.done }

  scheduled-Given :
      (j : Job R) (id : ℕ) (w : R.Walk) (o : Option ℕ)
      → Given R m j
      → (o ≡ none → m.given j.walk ≤ m.given w)
      → ((blk : ℕ) → o ≡ some blk → m.given w ≡ m.given j.walk + 1)
      → Given R m (scheduled R j id (w, o)).0
  unfolding scheduled schedule_segment_rebuild
  scheduled-Given j id w none g h k = let l = h refl in record { done = omega (arith, g.done, l) }
  scheduled-Given j id w (some blk) g h k =
      let e = k blk refl in
      let l = add_at_most j.tasks.active 1 in record { done = omega (arith, g.done, e, l) }

  or_complete-Given : (r : Job R × Bool) → Given R m r.0 → Given R m (or_complete R r).0
  unfolding or_complete
  or_complete-Given (j, true) g = g
  or_complete-Given (j, false) g =
      if_both (Given R m) (j.tasks.active == 0) (complete_job-Given j g) g

  start_task-Given : (j : Job R) (id : ℕ) → Given R m j → Given R m (start_task_by_id R j id).0
  unfolding start_task_by_id schedule_task_by_id
  start_task-Given j id g = or_complete-Given (scheduled R j id (R.next j.walk)) (
      scheduled-Given j id (R.next j.walk).0 (R.next j.walk).1 g (m.given_over j.walk)
        (m.given_next j.walk))

  start_tasks-Given : (n id : ℕ) (j : Job R) → Given R m j → Given R m (start_tasks R n id j)
  unfolding start_tasks
  start_tasks-Given zero id j g = g
  start_tasks-Given (suc n) id j g =
      let k = start_task-Given j id g in
      elim (Bool-cases (start_task_by_id R j id).1) [
        | inl e ↦ rw (e, start_tasks) (start_tasks-Given n (suc id) (start_task_by_id R j id).0 k)
        | inr e ↦ rw (e, start_tasks) k
      ]

  start_all-Given : (j : Job R) → Given R m j → GivenIf (start_all_tasks R j)
  unfolding start_all_tasks complete_if_idle
  start_all-Given j g =
      let k = start_tasks-Given j.tasks.total 0 j g in
      if_both GivenIf (j.tasks.active == 0)
        (if_both (Given R m) ((start_tasks R j.tasks.total 0 j).tasks.active == 0)
          (complete_job-Given _ k) k)
        tt

  run_head-Given : (fuel : ℕ) (j : Job R) → Given R m j → GivenIf (run_head R fuel j)
  unfolding run_head
  run_head-Given zero j g = tt
  run_head-Given (suc fuel) j g =
      let r = reconcile_job-Given j g in
      if_both GivenIf (is_done (reconcile_job R j).states.current) (record { done = r.done })
        (if_both GivenIf (is_running (reconcile_job R j).states.current)
          (bind-GivenIf (start_all_tasks R (reconcile_job R j)) _
            (start_all-Given (reconcile_job R j) r)
            (λ k h.
              if_both GivenIf (k.tasks.active == 0) (run_head-Given fuel k h)
                (record { done = h.done })))
          (record { done = r.done }))

  settle-Given : (o : Mode) (j : Job R) → Given R m j → GivenIf (settle R o j)
  unfolding settle
  settle-Given o j g =
      if_both GivenIf (j.tasks.active == 0) (run_head-Given 2 j g) (record { done = g.done })

  managed-Given :
      (j : Job R) (r : TaskResult) (o : Option RebuildError)
      → Given R m j
      → GivenIf (managed R j r o)
  unfolding managed
  managed-Given j r none g =
      if_both GivenIf (goes_on j.states.pending)
        (settle-Given managing (start_task_by_id R j r.id).0 (start_task-Given j r.id g))
        (settle-Given draining j g)
  managed-Given j r (some e) g = settle-Given draining (fail_with R j e) (fail_with-Given j e g)

  result_at-Given :
      (o : Mode) (j : Job R) (r : TaskResult)
      → Given R m j
      → Given R m (record j { tasks = await_one_task j.tasks r })
      → GivenIf (result_at R o j r)
  unfolding result_at
  result_at-Given managing j r g h =
      managed-Given (record j { tasks = await_one_task j.tasks r }) r r.error h
  result_at-Given draining j r g h =
      settle-Given draining (record j { tasks = await_one_task j.tasks r }) h
  result_at-Given waiting j r g h = g
  result_at-Given ended j r g h = g

  awaited-Given :
      (j : Job R) (r : TaskResult)
      → Counted R j.tasks
      → InFlight r.id r.blk j.tasks.flight
      → Given R m j
      → Given R m (record j { tasks = await_one_task j.tasks r })
  awaited-Given j r c f g =
      let (t, a, l) = await_one_task-Counted R j.tasks r c f in
      let n = done_at_most j.tasks r in record { done = omega (arith, g.done, a, n) }

  message_at-Given : (o : Mode) (j : Job R) → Given R m j → GivenIf (message_at R o j)
  unfolding message_at
  message_at-Given waiting j g = run_head-Given 2 j g
  message_at-Given managing j g = g
  message_at-Given draining j g = record { done = g.done }
  message_at-Given ended j g = g

  SystemGiven : Option (System R) → Type 0
  SystemGiven none = Unit
  SystemGiven (some t) = Given R m t.job

  with_job-Given : (n : ℕ) (o : Option (Job R)) → GivenIf o → SystemGiven (with_job R n o)
  unfolding SystemGiven with_job
  with_job-Given n none g = g
  with_job-Given n (some k) g = g

  received-Given : (s : System R) (n : ℕ) → Given R m s.job → SystemGiven (received R s n)
  unfolding SystemGiven received on_message
  received-Given s zero g = g
  received-Given s (suc n) g =
      with_job-Given n (message_at R s.job.mode s.job) (message_at-Given s.job.mode s.job g)

  step-Given :
      (s : System R) (e : Event)
      → Inv R s.job
      → IsPossible R s e
      → Given R m s.job
      → SystemGiven (step R s e)
  unfolding SystemGiven step frontend_op on_result
  step-Given s (client_calls c) i p g = record { done = g.done }
  step-Given s forces_stop i p g = record { done = g.done }
  step-Given s forces_fail i p g = record { done = g.done }
  step-Given s asks_stats i p g = g
  step-Given s receives i p g = received-Given s s.inbox g
  step-Given s (lands r) i p g =
      with_job-Given s.inbox (result_at R s.job.mode s.job r)
        (result_at-Given s.job.mode s.job r g (awaited-Given s.job r i.counted p g))

  Given-of : (o : Option (System R)) (t : System R) → o ≡ some t → SystemGiven o → Given R m t.job
  unfolding SystemGiven
  Given-of none t e g = cc
  Given-of (some u) t e g = rw (some_inj e) at g

  -- From a job that keeps the invariant, no possible event makes the backend panic, by an assertion on
  -- the count of tasks or by that of its statistics, which are taken before and after it; and the
  -- invariant holds after it: the counts are exact, the pending state continues the current one, a job
  -- at an await is in a state that fits it, a job that ended completed has finished its walk with no
  -- task in flight, and no more segments are done or in flight than the walk has given out. The
  -- sizes are those of a device, and the walk is measured as the full walk is: it has no blocks
  -- remaining once it has given out segments that cover them all.
  pub watched_step-Inv :
      (s : System R) (e : Event)
      → IsMeasured R m
      → Inv R s.job
      → Given R m s.job
      → IsPossible R s e
      → (t : System R) × (watched_step R m s e ≡ some t) × Inv R t.job × Given R m t.job
  unfolding watched_step
  watched_step-Inv s e k i g p =
      let (t, f, v) = step-Inv R s e i p in
      let h = Given-of (step R s e) t f (step-Given s e i p g) in
      let (x, a) = stats_lem R m s.job k g in
      let (y, b) = stats_lem R m t.job k h in (t, rw (a, f, b) refl, v, h)
