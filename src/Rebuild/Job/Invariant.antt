-- ===== src/Rebuild/Job/Invariant.antt =====
-- What holds of a job between two events, and that the loops of the backend restore it.
use mayastor.Common.{
  ℕ, zero, suc, ◌+◌, ◌≤◌, ◌<◌, ◌≡◌, ◌≢◌, refl, Bool, true, false, Option, none, some, [], ◌∷◌,
  arith, length, length-append, ◌⊎◌, inl, inr, Bool-cases, ◌==◌,
}
use mayastor.Common.Words.{u64_mod, add64_exact}
use mayastor.Rebuild.State.{running, completed, complete, exec_op, is_done, is_running}
use mayastor.Rebuild.State.Edges.{IsConsistent}
use mayastor.Rebuild.Tasks.{RebuildTasks, schedule_segment_rebuild}
use mayastor.Rebuild.Job.{
  RangeRebuilder, Job, Mode, waiting, managing, draining, ended, schedule_task_by_id,
  start_task_by_id, start_tasks, complete_job, scheduled, or_complete,
}

module _ (R : RangeRebuilder) where
  -- The counts of the pool are exact, and its tasks are never all busy beyond their number.
  pub record Counted (t : RebuildTasks) : Type 0 where
    pub exact : t.active ≡ length t.flight
    pub capped : t.active ≤ t.total
    pub staffed : 0 < t.total
    pub fits : t.total < u64_mod

  abbrev pub IsOver : R.Walk → Type 0
  IsOver w = (R.next w).1 ≡ none

  -- What the mode says of the states and the tasks. The walk of a completed job is over.
  abbrev pub Moded : Mode → Job R → Type 0
  Moded waiting j =
      (j.tasks.active ≡ 0)
      × (is_done j.states.current ≡ false)
      × (is_running j.states.current ≡ false)
  Moded managing j = (0 < j.tasks.active) × (j.states.current ≡ running)
  Moded draining j = (0 < j.tasks.active) × (j.states.current ≡ running)
  Moded ended j =
      (j.tasks.active ≡ 0)
      × (is_done j.states.current ≡ true)
      × (j.states.pending ≡ none)
      × (j.states.current ≡ completed → IsOver j.walk)

  pub record Inv (j : Job R) : Type 0 where
    pub consistent : IsConsistent j.states
    pub counted : Counted j.tasks
    pub moded : Moded j.mode j
    pub not_completing : j.states.pending ≢ some completed

  -- Between the start of a job's tasks and the next await: what a job `k` is, started from `j`.
  pub record Started (j k : Job R) : Type 0 where
    pub counted : Counted k.tasks
    pub idle_over : k.tasks.active ≡ 0 → IsOver k.walk
    pub states_kept :
        (k.states ≡ j.states)
        ⊎ ((k.states ≡ (exec_op j.states complete true).0) × (k.tasks.active ≡ 0))

  -- One task was started from `j`, or the walk was over.
  abbrev pub StartedOne : Job R → Job R × Bool → Type 0
  StartedOne j r =
      ((r.1 ≡ true)
        × Counted r.0.tasks
        × (r.0.tasks.active ≡ j.tasks.active + 1)
        × (r.0.tasks.total ≡ j.tasks.total)
        × (r.0.states ≡ j.states))
      ⊎ ((r.1 ≡ false) × Started j r.0)

  scheduled_lem :
      (j : Job R) (id : ℕ) (w : R.Walk) (o : Option ℕ)
      → (o ≡ none → IsOver w)
      → Counted j.tasks
      → j.tasks.active < j.tasks.total
      → StartedOne j (or_complete R (scheduled R j id (w, o)))
  unfolding or_complete scheduled schedule_segment_rebuild complete_job
  scheduled_lem j id w none over c h = elim (Bool-cases (j.tasks.active == 0)) [
    | inl idle ↦
        rw (idle, or_complete)
          (inr (
            refl,
            record {
              counted = c;
              idle_over = λ _. over refl;
              states_kept = inr (refl, ground arith);
            },
          ))
    | inr busy ↦
        rw (busy, or_complete)
          (inr (refl, record { counted = c; idle_over = λ _. over refl; states_kept = inl refl }))
  ]
  scheduled_lem j id w (some blk) over c h =
      let e = add64_exact j.tasks.active 1 (omega (arith, c.fits)) in
      let l = length-append j.tasks.flight ((id, blk) ∷ []) in
      inl (
        refl,
        record {
          exact = omega (arith, e, l, c.exact);
          capped = omega (arith, e);
          staffed = c.staffed;
          fits = c.fits;
        },
        e,
        refl,
        refl,
      )

  pub start_task_lem :
      (j : Job R) (id : ℕ)
      → Counted j.tasks
      → j.tasks.active < j.tasks.total
      → StartedOne j (start_task_by_id R j id)
  unfolding start_task_by_id schedule_task_by_id
  start_task_lem j id c h =
      scheduled_lem j id (R.next j.walk).0 (R.next j.walk).1 (R.next_over j.walk) c h

  pub start_tasks_lem :
      (n id : ℕ) (j : Job R)
      → Counted j.tasks
      → j.tasks.active + n ≤ j.tasks.total
      → 0 < j.tasks.active + n
      → Started j (start_tasks R n id j)
  unfolding start_tasks
  start_tasks_lem zero id j c h p = record {
    counted = c;
    idle_over = λ e. absurd (omega (arith, e));
    states_kept = inl refl;
  }
  start_tasks_lem (suc n) id j c h p = elim (start_task_lem j id c (omega arith)) [
    | inl (e, c', a, t, s) ↦
        let k = (start_task_by_id R j id).0 in
        let r = start_tasks_lem n (suc id) k c' (omega (arith, a, t)) (omega (arith, a)) in
        rw (e, start_tasks)
          (record {
            counted = r.counted;
            idle_over = r.idle_over;
            states_kept = rw s at r.states_kept;
          })
    | inr (e, r) ↦ rw (e, start_tasks) r
  ]
