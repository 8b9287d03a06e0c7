-- ===== src/Rebuild/State/Edges.antt =====
-- The transition diagram of a rebuild job, and that `exec_op` and `reconcile` follow it.
use mayastor.Common.{◌≡◌, refl, Bool, false, Option, none, some, arith}
use mayastor.Rebuild.State.{
  RebuildState, RebuildStates, RebuildOperation, init, running, stopped, paused, failed, completed,
  exec_op, default, is_done, state_eq,
}

infix 40 ◌⟶◌
-- Where a job may go from a state that is not final.
pub data ◌⟶◌ : RebuildState → RebuildState → Type 0 where
  begin : init ⟶ running
  hold : init ⟶ paused
  cancel : init ⟶ stopped
  suspend : running ⟶ paused
  halt : running ⟶ stopped
  break : running ⟶ failed
  finish : running ⟶ completed
  continue : paused ⟶ running
  abandon : paused ⟶ stopped

pub ruleset edges = (begin, hold, cancel, suspend, halt, break, finish, continue, abandon)

-- A pending state is the end of an edge that leaves the current state.
abbrev pub PendingFrom : RebuildState → Option RebuildState → Type 0
PendingFrom c none = Unit
PendingFrom c (some p) = c ⟶ p

abbrev pub IsConsistent : RebuildStates → Type 0
IsConsistent s = PendingFrom s.current s.pending

pub default-IsConsistent : IsConsistent default
unfolding default
default-IsConsistent = tt

-- Every operation, by a client or internal, keeps the pending state on an edge that leaves the
-- current state, and leaves the current state alone.
pub exec_op-IsConsistent :
    (s : RebuildStates) (op : RebuildOperation) (override_pending : Bool)
    → IsConsistent s
    → IsConsistent (exec_op s op override_pending).0
      × ((exec_op s op override_pending).0.current ≡ s.current)
unfolding exec_op
exec_op-IsConsistent s op o h = grind (arith, edges)

-- No edge leaves a final state, and none is a loop.
pub edge-live : {c d : RebuildState} → c ⟶ d → is_done c ≡ false
edge-live begin = refl
edge-live _ = refl

pub edge_moves : {c d : RebuildState} → c ⟶ d → state_eq c d ≡ false
edge_moves begin = refl
edge_moves _ = refl
