-- ===== src/Rebuild/Job/Stops.antt =====
-- A forced stop ends a job.
use mayastor.Common.{ℕ, suc, ◌≡◌, refl, true, false, some, arith, inl, ◌⊎◌, List}
use mayastor.Common.Panic.{◌>>=◌}
use mayastor.Rebuild.State.{
  RebuildStates, running, stopped, failed, stop, exec_op, reconcile, is_done, is_running,
}
use mayastor.Rebuild.Job.{
  RangeRebuilder, Job, Mode, waiting, ended, System, Event, forces_stop, receives, step,
  frontend_op, on_message, message_at, received, with_job, reconcile_job, wake,
}
use mayastor.Rebuild.Job.Invariant.{Inv, Moded}
use mayastor.Rebuild.Job.Settling.{head_done}
use mayastor.Rebuild.Job.Draining.{Winds}
use mayastor.Rebuild.Job.Ends.{op-Inv}
use mayastor.Rebuild.Job.Stopping.{landings, any_error, ArePossible, steps, steps_stop}

stop_facts :
    (s : RebuildStates) (n : ℕ)
    → is_done s.current ≡ false
    → is_running s.current ≡ false
    → ((reconcile (exec_op s stop true).0).0.current ≡ stopped)
      × (wake (exec_op s stop true).1 n ≡ suc n)
unfolding exec_op reconcile wake
stop_facts s n d r = ground arith

stop_running : (s : RebuildStates) → s.current ≡ running → Winds (exec_op s stop true).0 stopped
unfolding exec_op
stop_running s r = record { runs = ground arith; asked = ground arith; leaves = inl refl }

module _ (R : RangeRebuilder) where
  stop_received :
      (m : Mode) (j : Job R)
      → m ≡ waiting
      → is_done j.states.current ≡ false
      → is_running j.states.current ≡ false
      → (k : Job R) × (message_at R m (record j { states = (exec_op j.states stop true).0 })
          ≡ some k)
        × (k.mode ≡ ended)
        × (k.states.current ≡ stopped)
  unfolding message_at reconcile_job
  stop_received m j w d r =
      let l = record j { states = (exec_op j.states stop true).0 } in
      let c = (stop_facts j.states 0 d r).0 in
      (record (reconcile_job R l) { mode = ended }, rw w (head_done R 1 l (rw c refl)), refl, c)

  -- After a forced stop, a job that waits is stopped at its end by the next message that it receives,
  -- and the stop has sent one. A job that runs is at its end once all its tasks in flight have sent
  -- their results, whatever messages it receives meanwhile: it is stopped, or it has failed and one of
  -- the results was an error.
  pub forced_stop_ends :
      (s : System R)
      → Inv R s.job
      → is_done s.job.states.current ≡ false
      → (s.job.mode ≡ waiting
          → (u : System R) × ((step R s forces_stop >>= λ t. step R t receives) ≡ some u)
            × (u.job.mode ≡ ended)
            × (u.job.states.current ≡ stopped))
        × (s.job.states.current ≡ running
            → (es : List Event) → landings es ≡ s.job.tasks.active
            → ArePossible R (frontend_op R s stop true) es
            → (u : System R) × ((step R s forces_stop >>= λ t. steps R t es) ≡ some u)
              × (u.job.mode ≡ ended)
              × ((u.job.states.current ≡ stopped)
                  ⊎ ((u.job.states.current ≡ failed) × (any_error es ≡ true))))
  unfolding step received on_message with_job
  forced_stop_ends s i d = (
    λ w.
        let m : Moded R waiting s.job = rw w at i.moded in
        let (k, h, e, c) = stop_received s.job.mode s.job w m.1 m.2 in
        (
          record { job = k; inbox = s.inbox },
          unfold frontend_op in rw ((stop_facts s.job.states s.inbox m.1 m.2).1, h) refl,
          e,
          c,
        ),
    λ r es n q.
        let (u, f, y) =
          steps_stop R es (frontend_op R s stop true) stopped false
            (op-Inv R s stop true i (λ x. absurd (ground arith)))
            (unfold frontend_op in stop_running s.job.states r) (inl refl) (unfold frontend_op in n)
            q in
        (u, f, y.0, y.1),
  )
