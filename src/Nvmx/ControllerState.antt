-- ===== src/Nvmx/ControllerState.antt =====
-- The state machine of an NVMe controller: io-engine/src/bdev/nvmx/controller_state.rs.
pub mod Diagram
mod Tests
use mayastor.Common.{Bool, true, false, Outcome, ok, err, List, [], ◌∷◌, if◌then◌else◌, ◌&&◌}

pub data ControllerFailureReason : Type 0 where
  reset shutdown namespace_init : ControllerFailureReason

pub data NvmeControllerState : Type 0 where
  fresh initializing running unconfiguring unconfigured : NvmeControllerState
  faulted : ControllerFailureReason → NvmeControllerState

-- The derived equalities.
abbrev pub same_reason : ControllerFailureReason → ControllerFailureReason → Bool
same_reason reset reset = true
same_reason shutdown shutdown = true
same_reason namespace_init namespace_init = true
same_reason _ _ = false

abbrev pub same_state : NvmeControllerState → NvmeControllerState → Bool
same_state fresh fresh = true
same_state initializing initializing = true
same_state running running = true
same_state unconfiguring unconfiguring = true
same_state unconfigured unconfigured = true
same_state (faulted r) (faulted q) = same_reason r q
same_state _ _ = false

pub data ControllerStateMachineError : Type 0 where
  transition_error : NvmeControllerState → NvmeControllerState → ControllerStateMachineError
  flag_update_error : Bool → Bool → ControllerStateMachineError

-- `flag` is the one flag, `ResetActive`.
pub record ControllerStateMachine : Type 0 where
  pub current_state : NvmeControllerState
  pub flag : Bool

abbrev pub new_machine : ControllerStateMachine
new_machine = record { current_state = fresh; flag = false }

unfoldable pub check_transition : NvmeControllerState → NvmeControllerState → Bool
check_transition fresh initializing = true
check_transition initializing running = true
check_transition initializing (faulted r) = true
check_transition running unconfiguring = true
check_transition running (faulted r) = true
check_transition unconfiguring unconfigured = true
check_transition unconfiguring (faulted r) = true
check_transition (faulted q) running = true
check_transition (faulted q) unconfiguring = true
check_transition (faulted q) (faulted r) = true
check_transition _ _ = false

abbrev pub Outcomes : Type 0
Outcomes = ControllerStateMachine × Outcome ControllerStateMachineError (Unit {0})

unfoldable pub transition : ControllerStateMachine → NvmeControllerState → Outcomes
transition m new_state =
    if check_transition m.current_state new_state
    then (record m { current_state = new_state }, ok tt)
    else (m, err (transition_error m.current_state new_state))

unfoldable pub transition_checked :
    ControllerStateMachine → NvmeControllerState → NvmeControllerState → Outcomes
transition_checked m current_state new_state =
    if same_state m.current_state current_state
    then transition m new_state
    else (m, err (transition_error current_state new_state))

unfoldable pub set_flag_exclusively : ControllerStateMachine → Outcomes
set_flag_exclusively m =
    if m.flag then (m, err (flag_update_error m.flag true)) else (record m { flag = true }, ok tt)

unfoldable pub clear_flag_exclusively : ControllerStateMachine → Outcomes
clear_flag_exclusively m =
    if m.flag then (record m { flag = false }, ok tt) else (m, err (flag_update_error m.flag false))
