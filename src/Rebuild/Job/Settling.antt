-- ===== src/Rebuild/Job/Settling.antt =====
-- The head of the loop of `run` comes to an await or to the end in two rounds, with the invariant.
use mayastor.Common.{
  ℕ, suc, ◌<◌, ◌≡◌, ◌≢◌, refl, ◌∙◌, true, false, none, some, arith, inl, inr, ==_iff, Bool-cases,
  ◌==◌, if◌then◌else◌,
}
use mayastor.Rebuild.State.{
  RebuildStates, running, completed, complete, exec_op, reconcile, is_done, is_running,
}
use mayastor.Rebuild.State.Edges.{IsConsistent}
use mayastor.Rebuild.Job.{
  RangeRebuilder, Job, waiting, managing, ended, start_tasks, start_all_tasks, run_head,
  complete_job, reconcile_job,
}
use mayastor.Rebuild.Job.Invariant.{Counted, IsOver, Inv, Started, start_tasks_lem}

-- What a reconciliation of a job that is not final does to its states.
reconcile_facts :
    (s : RebuildStates)
    → is_done s.current ≡ false
    → ((reconcile s).0.pending ≡ none)
      × ((reconcile s).0.current ≡ completed → s.pending ≡ some completed)
unfolding reconcile
reconcile_facts s d = ground arith

reconciled_completed :
    (s : RebuildStates)
    → s.pending ≡ some completed
    → ((reconcile s).0.current ≡ completed) × ((reconcile s).0.pending ≡ none)
unfolding reconcile
reconciled_completed s p = ground arith

running_of : (s : RebuildStates) → is_running s.current ≡ true → s.current ≡ running
running_of s r = ground arith

of_none : (s : RebuildStates) → s.pending ≡ none → IsConsistent s
of_none s e = rw e tt

complete_pending :
    (s : RebuildStates)
    → s.current ≡ running
    → ((exec_op s complete true).0.pending ≡ some completed)
      × ((exec_op s complete true).0.current ≡ running)
      × ((exec_op (exec_op s complete true).0 complete true).0 ≡ (exec_op s complete true).0)
unfolding exec_op
complete_pending s r = ground arith

module _ (R : RangeRebuilder) where
  start_all_idle :
      (j : Job R)
      → j.tasks.active ≡ 0
      → ((start_tasks R j.tasks.total 0 j).tasks.active == 0) ≡ true
      → start_all_tasks R j ≡ some (complete_job R (start_tasks R j.tasks.total 0 j))
  unfolding start_all_tasks
  start_all_idle j a e = rw ((==_iff _ _).1 a, e) refl

  start_all_busy :
      (j : Job R)
      → j.tasks.active ≡ 0
      → ((start_tasks R j.tasks.total 0 j).tasks.active == 0) ≡ false
      → start_all_tasks R j ≡ some (start_tasks R j.tasks.total 0 j)
  unfolding start_all_tasks
  start_all_busy j a e = rw ((==_iff _ _).1 a, e) refl

  idle_states :
      (j k : Job R)
      → j.states.current ≡ running
      → Started R j k
      → (complete_job R k).states ≡ (exec_op j.states complete true).0
  unfolding complete_job
  idle_states j k r m = elim m.states_kept [
    | inl e ↦ rw e refl
    | inr e ↦ rw (e.0) (complete_pending j.states r).2
  ]

  idle_Started :
      (j k : Job R)
      → j.states.current ≡ running
      → Started R j k
      → k.tasks.active ≡ 0
      → Started R j (complete_job R k)
  idle_Started j k r m a = record {
    counted = unfold complete_job in m.counted;
    idle_over = unfold complete_job in m.idle_over;
    states_kept = inr (idle_states j k r m, unfold complete_job in a);
  }

  start_all_lem :
      (j : Job R)
      → Counted R j.tasks
      → j.tasks.active ≡ 0
      → j.states.current ≡ running
      → (k : Job R) × (start_all_tasks R j ≡ some k)
        × Started R j k
        × (k.tasks.active ≡ 0 → k.states ≡ (exec_op j.states complete true).0)
  start_all_lem j c a r =
      let m = start_tasks_lem R j.tasks.total 0 j c (omega (arith, a)) (omega (arith, c.staffed)) in
      elim (Bool-cases ((start_tasks R j.tasks.total 0 j).tasks.active == 0)) [
        | inl idle ↦
            let k = start_tasks R j.tasks.total 0 j in
            (
              complete_job R k,
              start_all_idle j a idle,
              idle_Started j k r m (ground arith),
              λ _. idle_states j k r m,
            )
        | inr busy ↦
            let k = start_tasks R j.tasks.total 0 j in
            (k, start_all_busy j a busy, m, λ z. absurd (ground arith))
      ]

  -- The branches of a round of `run`.
  pub head_done :
      (fuel : ℕ) (j : Job R)
      → is_done (reconcile_job R j).states.current ≡ true
      → run_head R (suc fuel) j ≡ some (record (reconcile_job R j) { mode = ended })
  unfolding run_head
  head_done fuel j d = rw d refl

  pub head_waits :
      (fuel : ℕ) (j : Job R)
      → is_done (reconcile_job R j).states.current ≡ false
      → is_running (reconcile_job R j).states.current ≡ false
      → run_head R (suc fuel) j ≡ some (record (reconcile_job R j) { mode = waiting })
  unfolding run_head
  head_waits fuel j d r = rw (d, r) refl

  head_starts :
      (fuel : ℕ) (j k : Job R)
      → is_done (reconcile_job R j).states.current ≡ false
      → is_running (reconcile_job R j).states.current ≡ true
      → start_all_tasks R (reconcile_job R j) ≡ some k
      → run_head R (suc fuel) j
        ≡ (if k.tasks.active == 0 then run_head R fuel k else some (record k { mode = managing }))
  unfolding run_head
  head_starts fuel j k d r e = rw (d, r, e) refl

  -- A job whose completion is pending ends at once.
  completes_lem :
      (fuel : ℕ) (j : Job R)
      → Counted R j.tasks
      → j.tasks.active ≡ 0
      → j.states.pending ≡ some completed
      → IsOver R j.walk
      → (k : Job R) × (run_head R (suc fuel) j ≡ some k) × Inv R k
  completes_lem fuel j c a p o =
      let s = reconciled_completed j.states p in
      (
        record (reconcile_job R j) { mode = ended },
        head_done fuel j (unfold reconcile_job in rw s.0 refl),
        unfold reconcile_job in
            record {
              consistent = of_none (reconcile j.states).0 s.1;
              counted = c;
              moded = (a, rw s.0 refl, s.1, λ _. o);
              not_completing = λ q. absurd (ground arith);
            },
      )

  -- A job that has started tasks and some are in flight.
  pub managing_Inv :
      (j k : Job R)
      → IsConsistent j.states
      → j.states.pending ≢ some completed
      → j.states.current ≡ running
      → Started R j k
      → 0 < k.tasks.active
      → Inv R (record k { mode = managing })
  managing_Inv j k c n r m b = elim m.states_kept [
    | inl e ↦ record {
      consistent = rw e c;
      counted = m.counted;
      moded = (b, rw e r);
      not_completing = rw e n;
    }
    | inr e ↦ absurd (omega (arith, e.1))
  ]

  -- A round of `run` on a running job without active tasks.
  run_head_running :
      (j : Job R)
      → Counted R j.tasks
      → j.tasks.active ≡ 0
      → is_done (reconcile_job R j).states.current ≡ false
      → is_running (reconcile_job R j).states.current ≡ true
      → (reconcile_job R j).states.pending ≡ none
      → (k : Job R) × (run_head R 2 j ≡ some k) × Inv R k
  run_head_running j c a d r n =
      let run = running_of (reconcile_job R j).states r in
      let m =
        start_all_lem (reconcile_job R j) (unfold reconcile_job in c) (unfold reconcile_job in a)
          run in
      let e = head_starts 1 j m.0 d r m.1 in
      elim (Bool-cases (m.0.tasks.active == 0)) [
        | inl idle ↦
            let z = (==_iff m.0.tasks.active 0).0 idle in
            let p = complete_pending (reconcile_job R j).states run in
            let k = completes_lem 0 m.0 m.2.counted z (rw (m.3 z) p.0) (m.2.idle_over z) in
            (k.0, e ∙ rw idle k.1, k.2)
        | inr busy ↦ (
          record (m.0) { mode = managing },
          e ∙ rw busy refl,
          managing_Inv (reconcile_job R j) m.0 (of_none (reconcile_job R j).states n)
              (λ q. absurd (ground arith)) run m.2 (ground arith),
        )
      ]

  pub reconciled :
      (j : Job R)
      → is_done j.states.current ≡ false
      → ((reconcile_job R j).states.pending ≡ none)
        × ((reconcile_job R j).states.current ≡ completed → j.states.pending ≡ some completed)
  unfolding reconcile_job
  reconciled j d = reconcile_facts j.states d

  -- A job that is not final, with no active task, comes to an await or to its end.
  pub run_head_lem :
      (j : Job R)
      → Counted R j.tasks
      → j.tasks.active ≡ 0
      → is_done j.states.current ≡ false
      → (j.states.pending ≡ some completed → IsOver R j.walk)
      → (k : Job R) × (run_head R 2 j ≡ some k) × Inv R k
  run_head_lem j c a d o =
      let f = reconciled j d in
      elim (Bool-cases (is_done (reconcile_job R j).states.current)) [
        | inl done ↦ (
          record (reconcile_job R j) { mode = ended },
          head_done 1 j done,
          record {
            consistent = of_none (reconcile_job R j).states f.0;
            counted = unfold reconcile_job in c;
            moded = (unfold reconcile_job in a, done, f.0, λ q. unfold reconcile_job in o (f.1 q));
            not_completing = λ q. absurd (ground arith);
          },
        )
        | inr live ↦ elim (Bool-cases (is_running (reconcile_job R j).states.current)) [
          | inl r ↦ run_head_running j c a live r f.0
          | inr idle ↦ (
            record (reconcile_job R j) { mode = waiting },
            head_waits 1 j live idle,
            record {
              consistent = of_none (reconcile_job R j).states f.0;
              counted = unfold reconcile_job in c;
              moded = (unfold reconcile_job in a, live, idle);
              not_completing = λ q. absurd (ground arith);
            },
          )
        ]
      ]
