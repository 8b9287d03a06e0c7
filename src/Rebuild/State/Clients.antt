-- ===== src/Rebuild/State/Clients.antt =====
-- What a single operation does to the pending state, and what it answers.
use mayastor.Common.{◌≡◌, ◌⊎◌, Bool, true, false, none, some, ok, err, arith}
use mayastor.Rebuild.State.{
  RebuildState, RebuildStates, RebuildOperation, RebuildError, init, running, stopped, failed,
  completed, exec_op, reconcile, is_done, fail, complete, stop, pause, is_running,
}
use mayastor.Rebuild.State.Edges.{IsConsistent, edge_moves, ◌⟶◌}

-- An operation that is refused leaves the states as they were.
pub exec_op-err_unchanged :
    (s : RebuildStates) (op : RebuildOperation) (o : Bool) {e : RebuildError}
    → (exec_op s op o).1 ≡ err e
    → (exec_op s op o).0 ≡ s
unfolding exec_op
exec_op-err_unchanged s op o h = ground arith

kept_at :
    (s : RebuildStates) (op : RebuildOperation) (p : RebuildState)
    → s.pending ≡ some p
    → s.current ⟶ p
    → (exec_op s op false).0.pending ≡ some p
unfolding exec_op
kept_at s op p h e = ground (arith, edge_moves e)

-- From consistent states, an operation that does not override never replaces a pending state.
pub exec_op-pending_kept :
    (s : RebuildStates) (op : RebuildOperation) {p : RebuildState}
    → IsConsistent s
    → s.pending ≡ some p
    → (exec_op s op false).0.pending ≡ some p
exec_op-pending_kept s op {p} c h = kept_at s op p h (rw h at c)

-- An operation that leaves a new pending state, where the job does not run and nothing was pending,
-- asks for the wake-up; a pause of a job that has not begun is the one exception.
pub exec_op_wakes :
    (s : RebuildStates) (op : RebuildOperation) (o : Bool) {p : RebuildState}
    → is_running s.current ≡ false
    → s.pending ≡ none
    → (exec_op s op o).0.pending ≡ some p
    → ((exec_op s op o).1 ≡ ok true) ⊎ ((op ≡ pause) × (s.current ≡ init))
unfolding exec_op
exec_op_wakes s op o r n h = ground arith

-- Whatever is pending, a stop that overrides brings every job that is not final to the stopped
-- state at the next reconciliation, and a failure or a completion brings a running one to its end.
pub exec_op-reconcile_final :
    (s : RebuildStates)
    → is_done s.current ≡ false
    → ((reconcile (exec_op s stop true).0).1 ≡ stopped)
      × (s.current ≡ running
          → ((reconcile (exec_op s fail true).0).1 ≡ failed)
            × ((reconcile (exec_op s complete true).0).1 ≡ completed))
unfolding exec_op reconcile
exec_op-reconcile_final s d = ground arith
