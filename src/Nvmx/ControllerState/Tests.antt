-- ===== src/Nvmx/ControllerState/Tests.antt =====
-- A controller that comes up, is reset, and goes.
use mayastor.Common.{◌≡◌, refl, true, false, [], ◌∷◌, err}
use mayastor.Nvmx.ControllerState.{
  reset, fresh, initializing, running, unconfiguring, unconfigured, faulted, new_machine,
  ControllerStateMachine, set_flag_exclusively, transition, transition_checked, check_transition,
  flag_update_error,
}
use mayastor.Nvmx.ControllerState.Diagram.{
  moves, moves_from, sets_flag, request, requests, Follows, request-Follows, requests_exclude,
}

comes_and_goes :
    requests new_machine (
      moves initializing
      ∷ moves running
      ∷ moves (faulted reset)
      ∷ moves fresh
      ∷ moves_from (faulted reset) unconfiguring
      ∷ moves unconfigured
      ∷ moves running
      ∷ [])
    ≡ record { current_state = unconfigured; flag = false }
unfolding requests request transition transition_checked check_transition
comes_and_goes = refl

abbrev held : ControllerStateMachine
held = record { current_state = running; flag = true }

request-Follows_example :
    Follows held (moves (faulted reset)) (request held (moves (faulted reset)))
request-Follows_example = request-Follows held (moves (faulted reset))

requests_exclude_example :
    (set_flag_exclusively (requests held (moves (faulted reset) ∷ sets_flag ∷ []))).1
    ≡ err (flag_update_error true true)
requests_exclude_example = requests_exclude held (moves (faulted reset) ∷ sets_flag ∷ []) refl tt
