-- ===== src/Rebuild/Job/Draining.antt =====
-- A request that is pending while tasks run: no task is started, and the last result brings it about.
use mayastor.Common.{
  ℕ, ◌+◌, ◌≡◌, refl, true, false, Option, none, some, arith, ◌⊎◌, inl, inr, Bool-cases, ◌==◌,
  ==_iff,
}
use mayastor.Rebuild.State.{
  RebuildState, RebuildStates, RebuildError, running, stopped, paused, failed, fail, exec_op,
  reconcile,
}
use mayastor.Rebuild.Tasks.{TaskResult, InFlight, await_one_task}
use mayastor.Rebuild.Job.{
  RangeRebuilder, Job, Mode, waiting, managing, draining, ended, on_result, result_at, managed,
  settle, run_head, reconcile_job, fail_with, goes_on,
}
use mayastor.Rebuild.Job.Invariant.{Moded, Inv}
use mayastor.Rebuild.Job.Landing.{await_one_task-Counted}
use mayastor.Rebuild.Job.Settling.{head_done, head_waits}

-- A running job that is to stop, to pause or to fail.
pub record Winds (s : RebuildStates) (p : RebuildState) : Type 0 where
  pub runs : s.current ≡ running
  pub asked : s.pending ≡ some p
  pub leaves : (p ≡ stopped) ⊎ (p ≡ paused) ⊎ (p ≡ failed)

reconcile-Winds :
    (s : RebuildStates) (p : RebuildState)
    → Winds s p
    → ((reconcile s).0.current ≡ p) × ((reconcile s).0.error ≡ s.error)
unfolding reconcile
reconcile-Winds s p w = ground arith

quiet_goes : (s : RebuildStates) (p : RebuildState) → Winds s p → goes_on s.pending ≡ false
quiet_goes s p w = ground (arith, w.leaves, w.asked)

failed-Winds :
    (s : RebuildStates) (e : RebuildError)
    → s.current ≡ running
    → Winds (record (exec_op s fail true).0 { error = some e }) failed
unfolding exec_op
failed-Winds s e r = record { runs = ground arith; asked = ground arith; leaves = inr (inr refl) }

module _ (R : RangeRebuilder) where
  -- A job drains on to `p`, or rests there without a task.
  abbrev pub Rests : Job R → RebuildState → Type 0
  Rests k p =
      ((k.mode ≡ draining) × Winds k.states p)
      ⊎ ((k.tasks.active ≡ 0) × (k.states.current ≡ p) × ((k.mode ≡ ended) ⊎ (k.mode ≡ waiting)))

  run_head-Winds :
      (j : Job R) (p : RebuildState)
      → Winds j.states p
      → (k : Job R) × (run_head R 2 j ≡ some k)
        × (k.states.current ≡ p)
        × (k.tasks ≡ j.tasks)
        × (k.states.error ≡ j.states.error)
        × ((k.mode ≡ ended) ⊎ (k.mode ≡ waiting))
  unfolding reconcile_job
  run_head-Winds j p w =
      let c = reconcile-Winds j.states p w in
      elim w.leaves [
        | inl e ↦ (
          record (reconcile_job R j) { mode = ended },
          head_done R 1 j (rw (c.0, e) refl),
          c.0,
          refl,
          c.1,
          inl refl,
        )
        | inr (inl e) ↦ (
          record (reconcile_job R j) { mode = waiting },
          head_waits R 1 j (rw (c.0, e) refl) (rw (c.0, e) refl),
          c.0,
          refl,
          c.1,
          inr refl,
        )
        | inr (inr e) ↦ (
          record (reconcile_job R j) { mode = ended },
          head_done R 1 j (rw (c.0, e) refl),
          c.0,
          refl,
          c.1,
          inl refl,
        )
      ]

  settle-Winds :
      (j : Job R) (n : ℕ) (p : RebuildState)
      → Winds j.states p
      → j.tasks.active + 1 ≡ n
      → (k : Job R) × (settle R draining j ≡ some k)
        × (k.tasks.active + 1 ≡ n)
        × Rests k p
        × (k.states.error ≡ j.states.error)
  unfolding settle
  settle-Winds j n p w e = elim (Bool-cases (j.tasks.active == 0)) [
    | inl z ↦
        let (k, h, c, t, x, m) = run_head-Winds j p w in
        rw z (k, h, rw t e, inr ((rw t ((==_iff _ _).0 z)), c, m), x)
    | inr z ↦ rw z (record j { mode = draining }, refl, e, inl (refl, w), refl)
  ]

  -- Where a result that lands leaves the state of a job that winds down to `p`: it goes to the failed
  -- state instead if the result is an error, unless the job was draining already.
  abbrev pub target : Mode → Option RebuildError → RebuildState → RebuildState
  target managing (some e) p = failed
  target m _ p = p

  abbrev pub error_of : Mode → Option RebuildError → Option RebuildError → Option RebuildError
  error_of managing (some e) old = some e
  error_of m _ old = old

  landed-Winds :
      (m : Mode) (j : Job R) (r : TaskResult) (o : Option RebuildError) (p : RebuildState)
      → r.error ≡ o
      → Inv R j
      → Moded R m j
      → InFlight r.id r.blk j.tasks.flight
      → Winds j.states p
      → (k : Job R) × (result_at R m j r ≡ some k)
        × (k.tasks.active + 1 ≡ j.tasks.active)
        × Rests k (target m o p)
        × (k.states.error ≡ error_of m o j.states.error)
  unfolding result_at managed fail_with
  landed-Winds waiting j r o p q i d f w = absurd (ground (arith, d, w.runs))
  landed-Winds ended j r o p q i d f w = absurd (ground (arith, d, w.runs))
  landed-Winds draining j r o p q i d f w =
      let (t, a, l) = await_one_task-Counted R j.tasks r i.counted f in
      settle-Winds (record j { tasks = await_one_task j.tasks r }) j.tasks.active p w a
  landed-Winds managing j r none p q i d f w =
      let (t, a, l) = await_one_task-Counted R j.tasks r i.counted f in
      rw (q, managed, quiet_goes j.states p w)
        (settle-Winds (record j { tasks = await_one_task j.tasks r }) j.tasks.active p w a)
  landed-Winds managing j r (some e) p q i d f w =
      let (t, a, l) = await_one_task-Counted R j.tasks r i.counted f in
      rw (q, managed)
        (settle-Winds (fail_with R (record j { tasks = await_one_task j.tasks r }) e) j.tasks.active
          failed (failed-Winds j.states e w.runs) a)

  -- Once a stop, a pause or a failure is pending, a result that lands starts no further task. One task
  -- fewer is in flight, and with the last the job rests in the state it winds down to, as `target`
  -- has it. The error of a result that the job awaits while it drains is nowhere recorded.
  pub on_result-Winds :
      (j : Job R) (r : TaskResult) (p : RebuildState)
      → Inv R j
      → InFlight r.id r.blk j.tasks.flight
      → Winds j.states p
      → (k : Job R) × (on_result R j r ≡ some k)
        × (k.tasks.active + 1 ≡ j.tasks.active)
        × Rests k (target j.mode r.error p)
        × (k.states.error ≡ error_of j.mode r.error j.states.error)
  unfolding on_result
  on_result-Winds j r p i f w = landed-Winds j.mode j r r.error p refl i i.moded f w
