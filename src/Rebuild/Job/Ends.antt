-- ===== src/Rebuild/Job/Ends.antt =====
-- Every event leaves a job at an await or at its end, and a request that a job waits for reaches it.
use mayastor.Common.{ℕ, zero, suc, ◌≡◌, ◌≢◌, refl, ◌∙◌, Bool, true, false, none, some, arith}
use mayastor.Rebuild.State.{
  RebuildStates, RebuildOperation, completed, stop, fail, complete, exec_op, is_done,
}
use mayastor.Rebuild.State.Edges.{IsConsistent, exec_op-IsConsistent}
use mayastor.Rebuild.Tasks.{InFlight}
use mayastor.Rebuild.Job.{
  RangeRebuilder, Job, Mode, waiting, managing, draining, ended, System, Event, client_calls,
  forces_stop, forces_fail, asks_stats, receives, lands, step, frontend_op, on_message, message_at,
  received, with_job, ClientCall, op_of,
}
use mayastor.Rebuild.Job.Invariant.{Moded, Inv}
use mayastor.Rebuild.Job.Settling.{run_head_lem}
use mayastor.Rebuild.Job.Landing.{on_result-Inv}

-- What an operation other than `complete` keeps.
op_facts :
    (s : RebuildStates) (op : RebuildOperation) (o : Bool)
    → op ≢ complete
    → s.pending ≢ some completed
    → ((exec_op s op o).0.pending ≢ some completed)
      × (is_done s.current ≡ true → s.pending ≡ none → (exec_op s op o).0.pending ≡ none)
unfolding exec_op
op_facts s op o n p = (λ q. absurd (ground arith), λ d e. ground arith)

calls_only : (c : ClientCall) → op_of c ≢ complete
calls_only c e = ground arith

module _ (R : RangeRebuilder) where
  -- Only a task in flight sends a result.
  abbrev pub IsPossible : System R → Event → Type 0
  IsPossible s (lands r) = InFlight r.id r.blk s.job.tasks.flight
  IsPossible s _ = Unit

  Moded-op :
      (j : Job R) (op : RebuildOperation) (o : Bool) (m : Mode)
      → IsConsistent j.states
      → op ≢ complete
      → j.states.pending ≢ some completed
      → Moded R m j
      → Moded R m (record j { states = (exec_op j.states op o).0 })
  Moded-op j op o waiting c n p d =
      let x = (exec_op-IsConsistent j.states op o c).1 in (d.0, rw x d.1, rw x d.2)
  Moded-op j op o managing c n p d = (d.0, (exec_op-IsConsistent j.states op o c).1 ∙ d.1)
  Moded-op j op o draining c n p d = (d.0, (exec_op-IsConsistent j.states op o c).1 ∙ d.1)
  Moded-op j op o ended c n p (a, d, e, w) =
      let x = (exec_op-IsConsistent j.states op o c).1 in
      (a, rw x d, (op_facts j.states op o n p).1 d e, rw x w)

  pub op-Inv :
      (s : System R) (op : RebuildOperation) (o : Bool)
      → Inv R s.job
      → op ≢ complete
      → Inv R (frontend_op R s op o).job
  unfolding frontend_op
  op-Inv s op o i n = record {
    consistent = (exec_op-IsConsistent s.job.states op o i.consistent).0;
    counted = i.counted;
    moded = Moded-op s.job op o s.job.mode i.consistent n i.not_completing i.moded;
    not_completing = (op_facts s.job.states op o n i.not_completing).0;
  }

  message-Inv :
      (m : Mode) (j : Job R)
      → Inv R j
      → Moded R m j
      → m ≡ j.mode
      → (k : Job R) × (message_at R m j ≡ some k) × Inv R k
  unfolding message_at
  message-Inv waiting j i d e =
      run_head_lem R j i.counted d.0 d.1 (λ p. absurd (i.not_completing p))
  message-Inv managing j i d e = (j, refl, i)
  message-Inv draining j i d e = (
    record j { mode = managing },
    refl,
    record {
      consistent = i.consistent;
      counted = i.counted;
      moded = d;
      not_completing = i.not_completing;
    },
  )
  message-Inv ended j i d e = (j, refl, i)

  received-Inv :
      (s : System R) (n : ℕ)
      → Inv R s.job
      → (t : System R) × (received R s n ≡ some t) × Inv R t.job
  unfolding received with_job on_message
  received-Inv s zero i = (s, refl, i)
  received-Inv s (suc n) i =
      let (k, e, h) = message-Inv s.job.mode s.job i i.moded refl in
      (record { job = k; inbox = n }, rw (e, with_job) refl, h)

  -- From a job that keeps the invariant, no possible event makes the backend panic, and the invariant
  -- holds after it: the counts are exact, the
  -- pending state continues the current one, and a job that ended completed has finished its walk
  -- with no task in flight.
  pub step-Inv :
      (s : System R) (e : Event)
      → Inv R s.job
      → IsPossible s e
      → (t : System R) × (step R s e ≡ some t) × Inv R t.job
  unfolding step received with_job on_message
  step-Inv s (client_calls c) i p =
      (frontend_op R s (op_of c) false, refl, op-Inv s (op_of c) false i (calls_only c))
  step-Inv s forces_stop i p =
      (frontend_op R s stop true, refl, op-Inv s stop true i (λ q. absurd (ground arith)))
  step-Inv s forces_fail i p =
      (frontend_op R s fail true, refl, op-Inv s fail true i (λ q. absurd (ground arith)))
  step-Inv s asks_stats i p = (record s { inbox = suc s.inbox }, refl, i)
  step-Inv s receives i p = received-Inv s s.inbox i
  step-Inv s (lands r) i p =
      let (k, e, h) = on_result-Inv R s.job r i p in
      (record { job = k; inbox = s.inbox }, rw (e, with_job) refl, h)
