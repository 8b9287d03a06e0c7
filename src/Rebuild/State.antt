-- ===== src/Rebuild/State.antt =====
-- The states of a rebuild job and the operations on them: io-engine/src/rebuild/rebuild_state.rs,
-- the enum of operations of rebuild_job.rs and the errors of rebuild_error.rs that these raise.
pub mod Edges
pub mod Reach
pub mod Clients
mod Tests
use Prim.Native.String.{String}
use mayastor.Common.{
  ℕ, Bool, true, false, not, ◌&&◌, Option, none, some, Outcome, ok, err, ◌>>=◌, ◌==◌, if◌then◌else◌,
}

pub data RebuildState : Type 0 where
  init running stopped paused failed completed : RebuildState

pub data RebuildOperation : Type 0 where
  start stop pause resume fail complete : RebuildOperation

-- A number for each state, to compare them by.
abbrev pub index : RebuildState → ℕ
index init = 0
index running = 1
index stopped = 2
index paused = 3
index failed = 4
index completed = 5

-- The derived `PartialEq`.
abbrev pub state_eq : RebuildState → RebuildState → Bool
state_eq a b = index a == index b

-- The `Display` of a state.
unfoldable pub to_string : RebuildState → String
to_string init = "init"
to_string running = "running"
to_string stopped = "stopped"
to_string paused = "paused"
to_string failed = "failed"
to_string completed = "completed"

abbrev pub is_done : RebuildState → Bool
is_done stopped = true
is_done failed = true
is_done completed = true
is_done _ = false

abbrev pub is_running : RebuildState → Bool
is_running running = true
is_running _ = false

-- The errors that a job meets. The message of `op_error` prints the whole record of the states;
-- the operation and the current state stand for it.
pub data RebuildError : Type 0 where
  op_error : RebuildOperation → RebuildState → RebuildError
  state_pending : String → RebuildError
  read_io_failed write_io_failed verify_io_failed : String → RebuildError
  verify_compare_failed : String → ℕ → RebuildError
  range_lock_failed range_unlock_failed : ℕ → ℕ → RebuildError
  invalid_map_range : RebuildError
  rebuild_tasks_channel : ℕ → RebuildError
  frontend_gone backend_gone : RebuildError

-- Times are seconds, read from the clock by the caller.
pub record RebuildStats : Type 0 where
  pub blocks_total : ℕ
  pub blocks_recovered : ℕ
  pub blocks_transferred : ℕ
  pub blocks_remaining : ℕ
  pub progress : ℕ
  pub blocks_per_task : ℕ
  pub block_size : ℕ
  pub tasks_total : ℕ
  pub tasks_active : ℕ
  pub start_time : ℕ
  pub is_partial : Bool
  pub end_time : Option ℕ

pub record RebuildStates : Type 0 where
  pub current : RebuildState
  pub pending : Option RebuildState
  pub error : Option RebuildError
  pub final_stats : Option RebuildStats

-- The derived `Default`.
unfoldable pub default : RebuildStates
default = record { current = init; pending = none; error = none; final_stats = none }

unfoldable pub set_final_stats : RebuildStates → RebuildStats → ℕ → RebuildStates
set_final_stats s stats now = record s { final_stats = some (record stats { end_time = some now }) }

-- The arm `_` of `set_pending`.
store_pending : RebuildStates → RebuildState → RebuildStates
store_pending s state = record s {
  pending = if not (state_eq s.current state) then some state else none;
}

set_pending_at :
    Option RebuildState
    → RebuildStates
    → RebuildState
    → Bool
    → RebuildStates × Outcome RebuildError (Unit {0})
unfolding store_pending
set_pending_at none s state override_pending = (store_pending s state, ok tt)
set_pending_at (some pending) s state override_pending =
    if not override_pending && not (state_eq pending state)
    then (s, err (state_pending (to_string pending)))
    else (store_pending s state, ok tt)

-- Sets the next pending state; one that is set already stays unless the flag says otherwise.
unfoldable pub set_pending :
    RebuildStates → RebuildState → Bool → RebuildStates × Outcome RebuildError (Unit {0})
unfolding set_pending_at
set_pending s state override_pending = set_pending_at s.pending s state override_pending

take_pending : Option RebuildState → RebuildStates → RebuildStates
take_pending none s = s
take_pending (some p) s = record s { current = p; pending = none }

-- Moves the pending state, if any, into the current one.
unfoldable pub reconcile : RebuildStates → RebuildStates × RebuildState
unfolding take_pending
reconcile s = let s' = take_pending s.pending s in (s', s'.current)

-- `self.set_pending(state, flag)?; Ok(changed)`.
pending_then :
    RebuildStates → RebuildState → Bool → Bool → RebuildStates × Outcome RebuildError Bool
unfolding set_pending
pending_then s state override_pending changed =
    let (s', r) = set_pending s state override_pending in (s', r >>= λ _. ok changed)

-- The match of `exec_op` on the operation and the current state.
exec_op_at :
    RebuildOperation
    → RebuildState
    → RebuildStates
    → Bool
    → RebuildStates × Outcome RebuildError Bool
unfolding pending_then
exec_op_at start running s _ = (s, ok false)
exec_op_at start init s _ = pending_then s running false true
exec_op_at start c s _ = (s, err (op_error start c))
exec_op_at stop stopped s _ = (s, ok false)
exec_op_at stop running s o = pending_then s stopped o false
exec_op_at stop init s o = pending_then s stopped o true
exec_op_at stop paused s o = pending_then s stopped o true
exec_op_at stop c s _ = (s, err (op_error stop c))
exec_op_at pause init s _ = pending_then s paused false false
exec_op_at pause running s _ = pending_then s paused false false
exec_op_at pause paused s _ = pending_then s paused false false
exec_op_at pause c s _ = (s, err (op_error pause c))
exec_op_at resume running s _ = pending_then s running false true
exec_op_at resume paused s _ = pending_then s running false true
exec_op_at resume c s _ = (s, err (op_error resume c))
exec_op_at fail failed s _ = (s, ok false)
exec_op_at fail running s o = pending_then s failed o false
exec_op_at fail c s _ = (s, err (op_error fail c))
exec_op_at complete running s o = pending_then s completed o false
exec_op_at complete c s _ = (s, err (op_error complete c))

-- The state machine where all operations are handled; the flag in the result says whether the
-- backend is to be woken.
unfoldable pub exec_op :
    RebuildStates → RebuildOperation → Bool → RebuildStates × Outcome RebuildError Bool
unfolding exec_op_at
exec_op s op override_pending = exec_op_at op s.current s override_pending
