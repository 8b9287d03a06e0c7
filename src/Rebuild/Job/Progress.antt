-- ===== src/Rebuild/Job/Progress.antt =====
-- A job that no request interrupts works through its walk and completes.
use mayastor.Common.{
  ℕ, ◌+◌, ◌≤◌, ◌<◌, ◌≡◌, refl, ◌∙◌, true, false, Option, none, some, arith, ◌⊎◌, inl, inr,
  Bool-cases, ◌==◌, ==_iff,
}
use mayastor.Rebuild.State.{
  RebuildState, RebuildStates, running, completed, complete, exec_op, reconcile,
}
use mayastor.Rebuild.Tasks.{TaskResult, InFlight, schedule_segment_rebuild, await_one_task}
use mayastor.Common.Words.{add64_exact}
use mayastor.Rebuild.Job.{
  RangeRebuilder, Job, Mode, waiting, managing, draining, ended, on_result, result_at, managed,
  settle, run_head, reconcile_job, goes_on, start_task_by_id, schedule_task_by_id, scheduled,
  or_complete, complete_job,
}
use mayastor.Rebuild.Job.Invariant.{Counted, Moded, Inv}
use mayastor.Rebuild.Job.Landing.{await_one_task-Counted}
use mayastor.Rebuild.Job.Settling.{head_done}

completes_next :
    (s : RebuildStates)
    → s.current ≡ running
    → (reconcile (exec_op s complete true).0).0.current ≡ completed
unfolding reconcile exec_op
completes_next s r = ground arith

goes_none : (o : Option RebuildState) → o ≡ none → goes_on o ≡ true
goes_none o e = rw e refl

module _ (R : RangeRebuilder) where
  -- The blocks that a job has to give out and the tasks in flight.
  abbrev pub work : Job R → ℕ
  work j = R.size j.walk + j.tasks.active

  -- A job that goes on with less work, or that has completed.
  abbrev pub Proceeds : ℕ → Job R → Type 0
  Proceeds n k =
      ((k.mode ≡ managing)
        × (k.states.current ≡ running)
        × (k.states.pending ≡ none)
        × (work k < n))
      ⊎ ((k.mode ≡ ended) × (k.states.current ≡ completed) × (k.tasks.active ≡ 0))

  settle_busy :
      (j : Job R)
      → (j.tasks.active == 0) ≡ false
      → settle R managing j ≡ some (record j { mode = managing })
  unfolding settle
  settle_busy j z = rw z refl

  settle_idle : (j : Job R) → j.tasks.active ≡ 0 → settle R managing j ≡ run_head R 2 j
  unfolding settle
  settle_idle j a = rw ((==_iff _ _).1 a) refl

  completes_at :
      (j : Job R) (n : ℕ)
      → j.states.current ≡ running
      → j.tasks.active ≡ 0
      → (k : Job R) × (settle R managing (complete_job R j) ≡ some k) × Proceeds n k
  completes_at j n r a =
      let c : (reconcile_job R (complete_job R j)).states.current ≡ completed =
        unfold complete_job reconcile_job in completes_next j.states r in
      (
        record (reconcile_job R (complete_job R j)) { mode = ended },
        settle_idle (complete_job R j) (unfold complete_job in a)
            ∙ head_done R 1 (complete_job R j) (rw c refl),
        inr (refl, c, unfold complete_job reconcile_job in a),
      )

  scheduled-Proceeds :
      (j : Job R) (id n : ℕ) (w : R.Walk) (o : Option ℕ)
      → Counted R j.tasks
      → j.states.current ≡ running
      → j.states.pending ≡ none
      → j.tasks.active < j.tasks.total
      → ((blk : ℕ) → o ≡ some blk → R.size w < R.size j.walk)
      → (o ≡ none → R.size w ≤ R.size j.walk)
      → work j + 1 ≡ n
      → (k : Job R) × (settle R managing (or_complete R (scheduled R j id (w, o))).0 ≡ some k)
        × Proceeds n k
  unfolding scheduled or_complete schedule_segment_rebuild
  scheduled-Proceeds j id n w none c r p h sz sz' e = elim (Bool-cases (j.tasks.active == 0)) [
    | inl z ↦ rw (z, or_complete) (completes_at (record j { walk = w }) n r ((==_iff _ _).0 z))
    | inr z ↦
        rw (z, or_complete, settle_busy (record j { walk = w }) z)
          (
            record j { walk = w; mode = managing },
            refl,
            inl (refl, r, p, omega (arith, sz' refl, e)),
          )
  ]
  scheduled-Proceeds j id n w (some blk) c r p h sz sz' e =
      let a = add64_exact j.tasks.active 1 (omega (arith, h, c.fits)) in
      let t = schedule_segment_rebuild j.tasks id blk in
      rw (or_complete, settle_busy (record j { walk = w; tasks = t }) (ground (arith, a)))
        (
          record j { walk = w; tasks = t; mode = managing },
          refl,
          inl (refl, r, p, omega (arith, sz blk refl, a, e)),
        )

  result-Proceeds :
      (m : Mode) (j : Job R) (r : TaskResult)
      → Counted R j.tasks
      → InFlight r.id r.blk j.tasks.flight
      → m ≡ managing
      → j.states.current ≡ running
      → j.states.pending ≡ none
      → r.error ≡ none
      → (k : Job R) × (result_at R m j r ≡ some k) × Proceeds (work j) k
  unfolding result_at managed
  result-Proceeds managing j r i f m c p e =
      let (t, a, l) = await_one_task-Counted R j.tasks r i f in
      rw (e, managed, goes_none j.states.pending p)
        (unfold start_task_by_id schedule_task_by_id in
          scheduled-Proceeds (record j { tasks = await_one_task j.tasks r }) r.id (work j)
            (R.next j.walk).0 (R.next j.walk).1 t c p (omega (arith, a, l, i.capped))
            (R.next_size j.walk) (R.over_size j.walk) (omega (arith, a)))
  result-Proceeds draining j r i f m c p e = absurd (ground (arith, m))
  result-Proceeds waiting j r i f m c p e = absurd (ground (arith, m))
  result-Proceeds ended j r i f m c p e = absurd (ground (arith, m))

  -- A result without an error, while nothing is pending, leaves a job with less work before it, its
  -- blocks to give out and its tasks in flight counted; or that was all, and the job has completed.
  pub on_result-Proceeds :
      (j : Job R) (r : TaskResult)
      → Inv R j
      → InFlight r.id r.blk j.tasks.flight
      → j.mode ≡ managing
      → j.states.pending ≡ none
      → r.error ≡ none
      → (k : Job R) × (on_result R j r ≡ some k) × Proceeds (work j) k
  unfolding on_result
  on_result-Proceeds j r i f m p e =
      let d : Moded R managing j = rw m at i.moded in
      result-Proceeds j.mode j r i.counted f m d.1 p e
