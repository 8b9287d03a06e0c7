-- ===== src/Rebuild/Job/Tests.antt =====
-- A job of two tasks over three blocks, from its creation to its end.
use mayastor.Common.{
  ℕ, zero, suc, ◌+◌, ◌≤◌, ◌<◌, ◌≡◌, refl, true, false, Option, none, some, List, [], ◌∷◌, arith,
  inl, inr, ◌⊎◌,
}
use mayastor.Common.Panic.{◌>>=◌}
use mayastor.Common.Words.{add64, sub64}
use mayastor.Rebuild.State.{
  RebuildState, RebuildError, init, running, stopped, paused, failed, completed, default, exec_op,
  reconcile, frontend_gone, stop,
}
use mayastor.Rebuild.State.Edges.{suspend}
use mayastor.Rebuild.Tasks.{TaskResult, schedule_segment_rebuild, await_one_task}
use mayastor.Rebuild.Job.{
  RangeRebuilder, Job, Mode, waiting, managing, draining, ended, System, Event, client_calls,
  forces_stop, receives, lands, step, starts, pauses, stops, resumes, frontend_op, on_message,
  on_result, run_head, settle, start_all_tasks, start_tasks, start_task_by_id, schedule_task_by_id,
  complete_job, fail_with, reconcile_job,
}
use mayastor.Rebuild.Job.Invariant.{IsOver, Inv}
use mayastor.Rebuild.Job.Runs.{Reaches, rest, then, IsFresh, completed-IsOver}
use mayastor.Rebuild.Job.Wakeups.{Awake, run-Awake}
use mayastor.Rebuild.Job.Draining.{Rests, on_result-Winds}
use mayastor.Rebuild.Job.Stopping.{landings, any_error, ArePossible, steps}
use mayastor.Rebuild.Job.Stops.{forced_stop_ends}
use mayastor.Rebuild.Job.Progress.{Proceeds, work, on_result-Proceeds}

abbrev pick : ℕ → ℕ × Option ℕ
pick zero = (zero, none)
pick (suc n) = (n, some n)

pick_over : (n : ℕ) → (pick n).1 ≡ none → (pick (pick n).0).1 ≡ none
pick_over zero e = refl
pick_over (suc n) e = absurd (ground arith)

pick_size : (n blk : ℕ) → (pick n).1 ≡ some blk → (pick n).0 < n
pick_size zero blk e = absurd (ground arith)
pick_size (suc n) blk e = omega arith

pick_rest : (n : ℕ) → (pick n).1 ≡ none → (pick n).0 ≤ n
pick_rest zero e = omega arith
pick_rest (suc n) e = absurd (ground arith)

abbrev countdown : RangeRebuilder
countdown = record {
  Walk = ℕ;
  next = pick;
  size = λ n. n;
  next_over = pick_over;
  next_size = pick_size;
  over_size = pick_rest;
}

abbrev created : System countdown
created = record {
  job = record {
    states = default;
    walk = 3;
    tasks = record {
      active = 0;
      total = 2;
      segments_done = 0;
      segments_transferred = 0;
      flight = [];
    };
    mode = waiting;
    notified = [];
  };
  inbox = 0;
}

created-IsFresh : IsFresh countdown created
created-IsFresh = record {
  created = refl;
  waits = refl;
  idle = (refl, refl);
  staffed = record {
    exact = refl;
    capped = omega arith;
    staffed = omega arith;
    fits = omega arith;
  };
  unsent = refl;
}

abbrev result : ℕ → ℕ → TaskResult
result id blk = record { id = id; blk = blk; error = none; is_transferred = true }

abbrev broken : ℕ → ℕ → TaskResult
broken id blk = record { id = id; blk = blk; error = some frontend_gone; is_transferred = false }

abbrev runs : List Event → System countdown → Option (System countdown)
runs [] s = some s
runs (e ∷ es) s = step countdown s e >>= λ t. runs es t

abbrev view : System countdown → Mode × RebuildState × Option RebuildError × List RebuildState
view s = (s.job.mode, s.job.states.current, s.job.states.error, s.job.notified)

completes :
    (runs
        (client_calls starts
          ∷ receives
          ∷ lands (result 0 2)
          ∷ lands (result 1 1)
          ∷ lands (result 0 0)
          ∷ [])
        created
      >>= λ s. some (view s))
    ≡ some (ended, completed, none, running ∷ completed ∷ [])
unfolding step frontend_op on_message on_result run_head settle start_all_tasks start_tasks
    start_task_by_id schedule_task_by_id complete_job fail_with reconcile_job await_one_task
    schedule_segment_rebuild exec_op reconcile default add64 sub64
completes = refl

-- A segment that fails to copy while the job pauses is lost: the job resumes and completes.
loses :
    (runs
        (client_calls starts
          ∷ receives
          ∷ client_calls pauses
          ∷ lands (result 0 2)
          ∷ lands (broken 1 1)
          ∷ client_calls resumes
          ∷ receives
          ∷ lands (result 0 0)
          ∷ [])
        created
      >>= λ s. some (view s))
    ≡ some (ended, completed, none, running ∷ paused ∷ running ∷ completed ∷ [])
unfolding step frontend_op on_message on_result run_head settle start_all_tasks start_tasks
    start_task_by_id schedule_task_by_id complete_job fail_with reconcile_job await_one_task
    schedule_segment_rebuild exec_op reconcile default add64 sub64
loses = refl

abbrev queue : System countdown → Mode × Option RebuildState × ℕ
queue s = (s.job.mode, s.job.states.pending, s.inbox)

-- A client cannot start, resume or stop a job that was paused before its start.
stuck :
    (runs
        (client_calls pauses ∷ client_calls starts ∷ client_calls resumes ∷ client_calls stops ∷ [])
        created
      >>= λ s. some (queue s))
    ≡ some (waiting, some paused, 0)
unfolding step frontend_op on_message on_result run_head settle start_all_tasks start_tasks
    start_task_by_id schedule_task_by_id complete_job fail_with reconcile_job await_one_task
    schedule_segment_rebuild exec_op reconcile default add64 sub64
stuck = refl

abbrev called : System countdown
called = record {
  job = record {
    states = record { current = init; pending = some running; error = none; final_stats = none };
    walk = 3;
    tasks = record {
      active = 0;
      total = 2;
      segments_done = 0;
      segments_transferred = 0;
      flight = [];
    };
    mode = waiting;
    notified = [];
  };
  inbox = 1;
}

abbrev launched : System countdown
launched = record {
  job = record {
    states = record { current = running; pending = none; error = none; final_stats = none };
    walk = 1;
    tasks = record {
      active = 2;
      total = 2;
      segments_done = 0;
      segments_transferred = 0;
      flight = (0, 2) ∷ (1, 1) ∷ [];
    };
    mode = managing;
    notified = running ∷ [];
  };
  inbox = 0;
}

abbrev half : System countdown
half = record {
  job = record {
    states = record { current = running; pending = none; error = none; final_stats = none };
    walk = 0;
    tasks = record {
      active = 2;
      total = 2;
      segments_done = 1;
      segments_transferred = 1;
      flight = (1, 1) ∷ (0, 0) ∷ [];
    };
    mode = managing;
    notified = running ∷ [];
  };
  inbox = 0;
}

abbrev last : System countdown
last = record {
  job = record {
    states = record { current = running; pending = none; error = none; final_stats = none };
    walk = 0;
    tasks = record {
      active = 1;
      total = 2;
      segments_done = 2;
      segments_transferred = 2;
      flight = (0, 0) ∷ [];
    };
    mode = managing;
    notified = running ∷ [];
  };
  inbox = 0;
}

abbrev over : System countdown
over = record {
  job = record {
    states = record { current = completed; pending = none; error = none; final_stats = none };
    walk = 0;
    tasks = record {
      active = 0;
      total = 2;
      segments_done = 3;
      segments_transferred = 3;
      flight = [];
    };
    mode = ended;
    notified = running ∷ completed ∷ [];
  };
  inbox = 0;
}

created_called : step countdown created (client_calls starts) ≡ some called
unfolding step frontend_op on_message on_result run_head settle start_all_tasks start_tasks
    start_task_by_id schedule_task_by_id complete_job fail_with reconcile_job await_one_task
    schedule_segment_rebuild exec_op reconcile default add64 sub64
created_called = refl

called-launched : step countdown called receives ≡ some launched
unfolding step frontend_op on_message on_result run_head settle start_all_tasks start_tasks
    start_task_by_id schedule_task_by_id complete_job fail_with reconcile_job await_one_task
    schedule_segment_rebuild exec_op reconcile default add64 sub64
called-launched = refl

launched-half : step countdown launched (lands (result 0 2)) ≡ some half
unfolding step frontend_op on_message on_result run_head settle start_all_tasks start_tasks
    start_task_by_id schedule_task_by_id complete_job fail_with reconcile_job await_one_task
    schedule_segment_rebuild exec_op reconcile default add64 sub64
launched-half = refl

half-last : step countdown half (lands (result 1 1)) ≡ some last
unfolding step frontend_op on_message on_result run_head settle start_all_tasks start_tasks
    start_task_by_id schedule_task_by_id complete_job fail_with reconcile_job await_one_task
    schedule_segment_rebuild exec_op reconcile default add64 sub64
half-last = refl

last-over : step countdown last (lands (result 0 0)) ≡ some over
unfolding step frontend_op on_message on_result run_head settle start_all_tasks start_tasks
    start_task_by_id schedule_task_by_id complete_job fail_with reconcile_job await_one_task
    schedule_segment_rebuild exec_op reconcile default add64 sub64
last-over = refl

created_over : Reaches countdown created over
created_over = then (client_calls starts) tt created_called (
    then receives tt called-launched (
      then (lands (result 0 2)) (inl (refl, refl)) launched-half (
        then (lands (result 1 1)) (inl (refl, refl)) half-last
          (then (lands (result 0 0)) (inl (refl, refl)) last-over rest))))

launched-Inv : Inv countdown launched.job
launched-Inv = record {
  consistent = tt;
  counted = record {
    exact = refl;
    capped = omega arith;
    staffed = omega arith;
    fits = omega arith;
  };
  moded = (omega arith, refl);
  not_completing = λ e. absurd (ground arith);
}

abbrev pausing : Job countdown
pausing = record (launched.job) {
  states = record (launched.job.states) { pending = some paused };
  mode = draining;
}

pausing-Inv : Inv countdown pausing
pausing-Inv = record {
  consistent = suspend;
  counted = launched-Inv.counted;
  moded = (omega arith, refl);
  not_completing = λ e. absurd (ground arith);
}

completed-IsOver_example :
    IsOver countdown over.job.walk × (over.job.tasks.active ≡ 0) × (over.job.states.pending ≡ none)
completed-IsOver_example = completed-IsOver countdown created-IsFresh created_over refl

run-Awake_example : Awake countdown called
run-Awake_example =
    run-Awake countdown created-IsFresh (then (client_calls starts) tt created_called rest)

on_result-Winds_example :
    (k : Job countdown) × (on_result countdown pausing (broken 1 1) ≡ some k)
    × (k.tasks.active + 1 ≡ 2)
    × Rests countdown k paused
    × (k.states.error ≡ none)
on_result-Winds_example =
    on_result-Winds countdown pausing (broken 1 1) paused pausing-Inv (inr (inl (refl, refl)))
      (record { runs = refl; asked = refl; leaves = inr (inl refl) })

forced_stop_ends_example :
    (launched.job.mode ≡ waiting
      → (u : System countdown) × ((step countdown launched forces_stop >>= λ t.
            step countdown t receives)
          ≡ some u)
        × (u.job.mode ≡ ended)
        × (u.job.states.current ≡ stopped))
    × (launched.job.states.current ≡ running
        → (es : List Event) → landings es ≡ 2
        → ArePossible countdown (frontend_op countdown launched stop true) es
        → (u : System countdown) × ((step countdown launched forces_stop >>= λ t.
              steps countdown t es)
            ≡ some u)
          × (u.job.mode ≡ ended)
          × ((u.job.states.current ≡ stopped)
              ⊎ ((u.job.states.current ≡ failed) × (any_error es ≡ true))))
forced_stop_ends_example = forced_stop_ends countdown launched launched-Inv refl

on_result-Proceeds_example :
    (k : Job countdown) × (on_result countdown launched.job (result 0 2) ≡ some k)
    × Proceeds countdown (work countdown launched.job) k
on_result-Proceeds_example =
    on_result-Proceeds countdown launched.job (result 0 2) launched-Inv (inl (refl, refl)) refl refl
      refl
