-- ===== src/Rebuild/State/Tests.antt =====
-- Runs of the state machine, and the theorems on them.
use mayastor.Common.{◌≡◌, refl, true, false, none, some, List, [], ◌∷◌}
use mayastor.Rebuild.State.{
  RebuildStates, init, running, stopped, failed, completed, start, stop, pause, resume, fail,
  complete, exec_op, reconcile, default, op_error,
}
use mayastor.Rebuild.State.Edges.{IsConsistent, exec_op-IsConsistent, cancel}
use mayastor.Rebuild.State.Reach.{
  Action, operates, reconciles, act, run, StepsTo, run_follows_edges, run_of_done,
}
use mayastor.Rebuild.State.Clients.{exec_op-err_unchanged, exec_op-reconcile_final}

abbrev life : List Action
life =
    operates start false
    ∷ reconciles
    ∷ operates pause false
    ∷ operates stop false
    ∷ reconciles
    ∷ operates resume false
    ∷ reconciles
    ∷ operates complete true
    ∷ reconciles
    ∷ []

abbrev finished : RebuildStates
finished = record { current = completed; pending = none; error = none; final_stats = none }

abbrev at_work : RebuildStates
at_work = record { current = running; pending = none; error = none; final_stats = none }

abbrev stopping : RebuildStates
stopping = record { current = init; pending = some stopped; error = none; final_stats = none }

life_runs : run default life ≡ finished
unfolding run act exec_op reconcile default
life_runs = refl

run_follows_edges_example :
    IsConsistent (run default life)
    × StepsTo (run default life).current (act (run default life) reconciles).current
run_follows_edges_example = run_follows_edges life reconciles

run_of_done_example : run finished life ≡ finished
run_of_done_example = run_of_done finished life refl tt

exec_op-IsConsistent_example :
    IsConsistent (exec_op stopping start false).0
    × ((exec_op stopping start false).0.current ≡ init)
exec_op-IsConsistent_example = exec_op-IsConsistent stopping start false cancel

exec_op-err_unchanged_example : (exec_op finished pause false).0 ≡ finished
exec_op-err_unchanged_example =
    exec_op-err_unchanged finished pause false {e = op_error pause completed}
      (unfold exec_op in refl)

exec_op-reconcile_final_example :
    ((reconcile (exec_op at_work stop true).0).1 ≡ stopped)
    × (running ≡ running
        → ((reconcile (exec_op at_work fail true).0).1 ≡ failed)
          × ((reconcile (exec_op at_work complete true).0).1 ≡ completed))
exec_op-reconcile_final_example = exec_op-reconcile_final at_work refl
