-- ===== src/Rebuild/Job.antt =====
-- The backend of a rebuild job and its frontend: io-engine/src/rebuild/rebuild_job_backend.rs,
-- rebuild_job.rs, and the `RebuildBackend` of nexus_rebuild.rs. The loops of `run`, `manage_tasks` and
-- `await_all_tasks` are cut at their awaits, so that each step takes one message or one task result.
pub mod Invariant
pub mod Settling
pub mod Landing
pub mod Ends
pub mod Runs
pub mod Wakeups
pub mod Draining
pub mod Stats
pub mod Given
pub mod Measured
pub mod Stopping
pub mod Stops
pub mod Progress
pub mod Full
mod Tests
mod StatsTests
use mayastor.Common.{
  ℕ, zero, suc, ◌+◌, ◌≡◌, ◌<◌, ◌≤◌, Bool, true, false, not, Option, none, some, List, [], ◌∷◌, ◌++◌,
  Outcome, ok, err, panic, ltb, ◌==◌, ◌&&◌, if◌then◌else◌,
}
use mayastor.Common.Panic.{◌>>=◌}
use mayastor.Rebuild.State.{
  RebuildState, RebuildStates, RebuildError, RebuildOperation, init, running, stopped, paused,
  failed, completed, start, stop, pause, resume, fail, complete, exec_op, reconcile, is_done,
  is_running, state_eq, rebuild_tasks_channel, frontend_gone,
}
use mayastor.Rebuild.Tasks.{RebuildTasks, TaskResult, schedule_segment_rebuild, await_one_task}

-- `RangeRebuilder`: a walk that gives out blocks, and once over stays over.
pub record RangeRebuilder : Type 1 where
  pub Walk : Type 0
  pub next : Walk → Walk × Option ℕ
  pub size : Walk → ℕ
  pub next_over : (w : Walk) → (next w).1 ≡ none → (next (next w).0).1 ≡ none
  pub next_size : (w : Walk) (blk : ℕ) → (next w).1 ≡ some blk → size (next w).0 < size w
  pub over_size : (w : Walk) → (next w).1 ≡ none → size (next w).0 ≤ size w

-- Where the backend's task waits: for a message in `run`; for a task or a message in `manage_tasks`,
-- or behind it in `await_all_tasks`; or nowhere, since `run` has returned.
pub data Mode : Type 0 where
  waiting managing draining ended : Mode

-- The operations that `RebuildJob` has for its clients: `start`, `stop`, `pause` and `resume`.
pub data ClientCall : Type 0 where
  starts stops pauses resumes : ClientCall

abbrev pub op_of : ClientCall → RebuildOperation
op_of starts = start
op_of stops = stop
op_of pauses = pause
op_of resumes = resume

-- What can happen to a job: a client's call, a forced end, a request for statistics, the receipt of
-- a message by the backend, or the result of a task.
pub data Event : Type 0 where
  client_calls : ClientCall → Event
  forces_stop forces_fail : Event
  asks_stats receives : Event
  lands : TaskResult → Event

-- The test of the pending state in `manage_tasks`.
abbrev pub goes_on : Option RebuildState → Bool
goes_on none = true
goes_on (some running) = true
goes_on (some _) = false

wake : Outcome RebuildError Bool → ℕ → ℕ
wake (ok true) n = suc n
wake (ok false) n = n
wake (err e) n = n
wake panic n = n

module _ (R : RangeRebuilder) where
  open R use {Walk}

  -- `notified` is what went out by `on_state_change`, the oldest first.
  pub record Job : Type 0 where
    pub states : RebuildStates
    pub walk : R.Walk
    pub tasks : RebuildTasks
    pub mode : Mode
    pub notified : List RebuildState

  -- `fail_with`.
  unfoldable pub fail_with : Job → RebuildError → Job
  fail_with j e =
      let s = (exec_op j.states fail true).0 in record j { states = record s { error = some e } }

  -- `complete`.
  unfoldable pub complete_job : Job → Job
  complete_job j = record j { states = (exec_op j.states complete true).0 }

  -- The backend's `reconcile`, with the notification of a change. The statistics that it logs, and
  -- their assertion, are those of Job/Stats.
  unfoldable pub reconcile_job : Job → Job
  reconcile_job j =
      let s = (reconcile j.states).0 in
      record j {
        states = s;
        notified =
            (if state_eq j.states.current s.current
              then j.notified
              else j.notified ++ s.current ∷ []);
      }

  scheduled : Job → ℕ → Walk × Option ℕ → Job × Bool
  scheduled j id (w, none) = (record j { walk = w }, false)
  scheduled j id (w, some blk) =
      (record j { walk = w; tasks = schedule_segment_rebuild j.tasks id blk }, true)

  -- `schedule_task_by_id` of the backend.
  unfoldable pub schedule_task_by_id : Job → ℕ → Job × Bool
  unfolding scheduled
  schedule_task_by_id j id = scheduled j id (R.next j.walk)

  or_complete : Job × Bool → Job × Bool
  or_complete (j, true) = (j, true)
  or_complete (j, false) = (if j.tasks.active == 0 then complete_job j else j, false)

  -- `start_task_by_id`.
  unfoldable pub start_task_by_id : Job → ℕ → Job × Bool
  unfolding or_complete
  start_task_by_id j id = or_complete (schedule_task_by_id j id)

  -- The loop of `start_all_tasks`: `n` tasks from the id on, until one is not started.
  unfoldable pub start_tasks : ℕ → ℕ → Job → Job
  start_tasks zero id j = j
  start_tasks (suc n) id j =
      let rest = start_tasks n (suc id) (start_task_by_id j id).0 in
      elim (start_task_by_id j id).1 [ true ↦ rest | false ↦ (start_task_by_id j id).0 ]

  complete_if_idle : Job → Job
  complete_if_idle j = if j.tasks.active == 0 then complete_job j else j

  -- `start_all_tasks`; its assertion panics (`none`) when tasks are active.
  unfoldable pub start_all_tasks : Job → Option Job
  unfolding complete_if_idle
  start_all_tasks j =
      if j.tasks.active == 0 then some (complete_if_idle (start_tasks j.tasks.total 0 j)) else none

  -- The head of the loop of `run`, on fuel: to the next await, or to the end.
  unfoldable pub run_head : ℕ → Job → Option Job
  run_head zero j = none
  run_head (suc fuel) j =
      let j' = reconcile_job j in
      let started = start_all_tasks j' >>= λ k.
      let again = run_head fuel k in
      if k.tasks.active == 0 then again else some (record k { mode = managing }) in
      if is_done j'.states.current
      then some (record j' { mode = ended })
      else (if is_running j'.states.current then started else some (record j' { mode = waiting }))

  -- Behind a loop over the active tasks: on in the same mode, or back at the head of `run`, which
  -- needs two rounds at most.
  unfoldable pub settle : Mode → Job → Option Job
  settle m j = if j.tasks.active == 0 then run_head 2 j else some (record j { mode = m })

  -- The body of the loop of `manage_tasks`, for a result whose counts are made.
  managed : Job → TaskResult → Option RebuildError → Option Job
  managed j r none =
      if goes_on j.states.pending
      then settle managing (start_task_by_id j r.id).0
      else settle draining j
  managed j r (some e) = settle draining (fail_with j e)

  result_at : Mode → Job → TaskResult → Option Job
  unfolding managed
  result_at managing j r = managed (record j { tasks = await_one_task j.tasks r }) r r.error
  result_at draining j r = settle draining (record j { tasks = await_one_task j.tasks r })
  result_at waiting j r = some j
  result_at ended j r = some j

  -- The result of a task in flight, where the backend awaits one.
  unfoldable pub on_result : Job → TaskResult → Option Job
  unfolding result_at
  on_result j r = result_at j.mode j r

  -- A message that was received: in `run` the loop goes on; in the loop over the tasks the future of
  -- `manage_tasks` is dropped and made anew.
  message_at : Mode → Job → Option Job
  message_at waiting j = run_head 2 j
  message_at managing j = some j
  message_at draining j = some (record j { mode = managing })
  message_at ended j = some j

  -- `handle_message`. The statistics that a message asks for are those of Job/Stats.
  unfoldable pub on_message : Job → Option Job
  unfolding message_at
  on_message j = message_at j.mode j

  -- The job and the messages that its frontend has sent and the backend has not received.
  pub record System : Type 0 where
    pub job : Job
    pub inbox : ℕ

  -- `RebuildJob::exec_op`, with the wake-up that it sends.
  unfoldable pub frontend_op : System → RebuildOperation → Bool → System
  unfolding wake
  frontend_op s op override_pending =
      let (states, r) = exec_op s.job.states op override_pending in
      record { job = record (s.job) { states = states }; inbox = wake r s.inbox }

  with_job : ℕ → Option Job → Option System
  with_job n none = none
  with_job n (some j) = some (record { job = j; inbox = n })

  received : System → ℕ → Option System
  unfolding with_job
  received s zero = some s
  received s (suc n) = with_job n (on_message s.job)

  -- `none` is a panic.
  unfoldable pub step : System → Event → Option System
  unfolding received
  step s (client_calls op) = some (frontend_op s (op_of op) false)
  step s forces_stop = some (frontend_op s stop true)
  step s forces_fail = some (frontend_op s fail true)
  step s asks_stats = some (record s { inbox = suc s.inbox })
  step s receives = received s s.inbox
  step s (lands r) = with_job s.inbox (on_result s.job r)
