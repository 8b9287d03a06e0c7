-- ===== src/Rebuild/Job/Landing.antt =====
-- The result of a task leaves the counts exact and brings the job to its next await.
use mayastor.Common.{
  ℕ, ◌+◌, ◌-◌, ◌<◌, ◌≡◌, ◌≢◌, refl, ◌∙◌, true, Option, none, some, List, [], ◌∷◌, arith, length,
  ◌⊎◌, inl, inr, Bool-cases, ◌==◌, ◌&&◌, ==_iff,
}
use mayastor.Common.Words.{sub64, sub64_exact}
use mayastor.Rebuild.State.{
  RebuildStates, RebuildError, running, completed, complete, fail, exec_op,
}
use mayastor.Rebuild.State.Edges.{IsConsistent, exec_op-IsConsistent}
use mayastor.Rebuild.Tasks.{RebuildTasks, TaskResult, land, InFlight, await_one_task, is_none}
use mayastor.Rebuild.Job.{
  RangeRebuilder, Job, Mode, waiting, managing, draining, ended, start_task_by_id, settle,
  fail_with, managed, result_at, on_result, goes_on,
}
use mayastor.Rebuild.Job.Invariant.{Counted, IsOver, Moded, Inv, Started, start_task_lem}
use mayastor.Rebuild.Job.Settling.{run_head_lem}

length-land :
    (id blk : ℕ) (flight : List (ℕ × ℕ))
    → InFlight id blk flight
    → length (land id blk flight) + 1 ≡ length flight
unfolding land
length-land id blk [] m = elim m [ ]
length-land id blk ((i, b) ∷ flight) m = elim (Bool-cases (i == id && b == blk)) [
  | inl e ↦ rw e (omega arith)
  | inr e ↦ rw e (elim m [
    | inl q ↦ absurd (ground (arith, q))
    | inr r ↦ omega (arith, length-land id blk flight r)
  ])
]

landed_lem :
    (R : RangeRebuilder) (t k : RebuildTasks) {flight : List (ℕ × ℕ)}
    → Counted R t
    → length flight + 1 ≡ length t.flight
    → sub64 t.active 1 ≡ t.active - 1
    → k.active ≡ sub64 t.active 1
    → k.total ≡ t.total
    → k.flight ≡ flight
    → Counted R k × (k.active + 1 ≡ t.active) × (k.total ≡ t.total)
landed_lem R t k c l e a n f = (
  record {
    exact = rw f (omega (arith, c.exact, l, e, a));
    capped = omega (arith, c.capped, e, a, n);
    staffed = omega (arith, c.staffed, n);
    fits = omega (arith, c.fits, n);
  },
  omega (arith, c.exact, l, e, a),
  n,
)

-- Taking a result leaves the counts exact, with one active task less.
pub await_one_task-Counted :
    (R : RangeRebuilder) (t : RebuildTasks) (r : TaskResult)
    → Counted R t
    → InFlight r.id r.blk t.flight
    → Counted R (await_one_task t r)
      × ((await_one_task t r).active + 1 ≡ t.active)
      × ((await_one_task t r).total ≡ t.total)
unfolding await_one_task
await_one_task-Counted R t r c m =
    let l = length-land r.id r.blk t.flight m in
    let e = sub64_exact t.active 1 (omega (arith, c.exact)) (omega (arith, c.capped, c.fits)) in
    elim (Bool-cases (is_none r.error)) [
      | inl n ↦ rw n (landed_lem R t _ c l e refl refl refl)
      | inr n ↦ rw n (landed_lem R t _ c l e refl refl refl)
    ]

failing :
    (s : RebuildStates) → s.current ≡ running → (exec_op s fail true).0.pending ≢ some completed
unfolding exec_op
failing s c p = ground (arith, c)

pub in_flight :
    (r : TaskResult) (flight : List (ℕ × ℕ)) → InFlight r.id r.blk flight → 0 < length flight
in_flight r [] f = elim f [ ]
in_flight r (t ∷ flight) f = omega arith

module _ (R : RangeRebuilder) where
  settled :
      (m : Mode) (j : Job R)
      → (m ≡ managing) ⊎ (m ≡ draining)
      → Inv R (record j { mode = managing })
      → Inv R (record j { mode = m })
  settled managing j l i = i
  settled draining j l i = record {
    consistent = i.consistent;
    counted = i.counted;
    moded = i.moded;
    not_completing = i.not_completing;
  }
  settled waiting j l i = absurd (ground arith)
  settled ended j l i = absurd (ground arith)

  -- A job that runs, behind one of its loops, is brought to its next await.
  pub settle_lem :
      (m : Mode) (j : Job R)
      → (m ≡ managing) ⊎ (m ≡ draining)
      → IsConsistent j.states
      → Counted R j.tasks
      → j.states.current ≡ running
      → (j.states.pending ≡ some completed → (j.tasks.active ≡ 0) × IsOver R j.walk)
      → (k : Job R) × (settle R m j ≡ some k) × Inv R k
  unfolding settle
  settle_lem m j l s c r o = elim (Bool-cases (j.tasks.active == 0)) [
    | inl idle ↦ rw idle (run_head_lem R j c ((==_iff _ _).0 idle) (rw r refl) (λ p. (o p).1))
    | inr busy ↦ rw busy (
      record j { mode = m },
      refl,
      settled m j l (record {
        consistent = s;
        counted = c;
        moded = (ground arith, r);
        not_completing = λ p. absurd (ground (arith, o p));
      }),
    )
  ]

  Started-settles :
      (j k : Job R)
      → IsConsistent j.states
      → j.states.pending ≢ some completed
      → j.states.current ≡ running
      → Started R j k
      → (i : Job R) × (settle R managing k ≡ some i) × Inv R i
  Started-settles j k s n c m = elim m.states_kept [
    | inl e ↦
        settle_lem managing k (inl refl) (rw e s) m.counted (rw e c) (λ p. absurd (n (rw e at p)))
    | inr (e, a) ↦
        let x = exec_op-IsConsistent j.states complete true s in
        settle_lem managing k (inl refl) (rw e x.0) m.counted (rw (e, x.1) c)
          (λ _. (a, m.idle_over a))
  ]

  -- One more task is started in place of the one that has ended.
  restarted :
      (j : Job R) (id : ℕ)
      → IsConsistent j.states
      → j.states.pending ≢ some completed
      → j.states.current ≡ running
      → Counted R j.tasks
      → j.tasks.active < j.tasks.total
      → (k : Job R) × (settle R managing (start_task_by_id R j id).0 ≡ some k) × Inv R k
  restarted j id s n c t h = elim (start_task_lem R j id t h) [
    | inl (e, t', a, l, q) ↦ Started-settles j (start_task_by_id R j id).0 s n c (record {
      counted = t';
      idle_over = λ z. absurd (omega (arith, a, z));
      states_kept = inl q;
    })
    | inr (e, m) ↦ Started-settles j (start_task_by_id R j id).0 s n c m
  ]

  managed_lem :
      (j : Job R) (r : TaskResult) (o : Option RebuildError)
      → Counted R j.tasks
      → IsConsistent j.states
      → j.states.pending ≢ some completed
      → j.states.current ≡ running
      → j.tasks.active < j.tasks.total
      → (k : Job R) × (managed R j r o ≡ some k) × Inv R k
  unfolding managed
  managed_lem j r none t s n c h = elim (Bool-cases (goes_on j.states.pending)) [
    | inl g ↦ rw g (restarted j r.id s n c t h)
    | inr g ↦ rw g (settle_lem draining j (inr refl) s t c (λ p. absurd (n p)))
  ]
  managed_lem j r (some e) t s n c h =
      let x = exec_op-IsConsistent j.states fail true s in
      unfold fail_with in
      settle_lem draining (fail_with R j e) (inr refl) x.0 t (x.1 ∙ c)
        (λ p. absurd (failing j.states c p))

  result_at_lem :
      (m : Mode) (j : Job R) (r : TaskResult)
      → Counted R j.tasks
      → IsConsistent j.states
      → j.states.pending ≢ some completed
      → Moded R m j
      → InFlight r.id r.blk j.tasks.flight
      → (k : Job R) × (result_at R m j r ≡ some k) × Inv R k
  unfolding result_at
  result_at_lem managing j r t s n o f =
      let (t', a, l) = await_one_task-Counted R j.tasks r t f in
      managed_lem (record j { tasks = await_one_task j.tasks r }) r r.error t' s n o.1
        (omega (arith, a, l, t.capped))
  result_at_lem draining j r t s n o f =
      let (t', a, l) = await_one_task-Counted R j.tasks r t f in
      settle_lem draining (record j { tasks = await_one_task j.tasks r }) (inr refl) s t' o.1
        (λ p. absurd (n p))
  result_at_lem waiting j r t s n o f =
      absurd (omega (arith, in_flight r j.tasks.flight f, t.exact, o.0))
  result_at_lem ended j r t s n o f =
      absurd (omega (arith, in_flight r j.tasks.flight f, t.exact, o.0))

  -- The result of a task in flight brings the job to its next await, with its invariant.
  pub on_result-Inv :
      (j : Job R) (r : TaskResult)
      → Inv R j
      → InFlight r.id r.blk j.tasks.flight
      → (k : Job R) × (on_result R j r ≡ some k) × Inv R k
  unfolding on_result
  on_result-Inv j r i f = result_at_lem j.mode j r i.counted i.consistent i.not_completing i.moded f
