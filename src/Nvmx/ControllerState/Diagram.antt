-- ===== src/Nvmx/ControllerState/Diagram.antt =====
-- The paths of a controller through its states, and who holds its flag.
use mayastor.Common.{
  Bool, false, ◌≡◌, refl, ap, ◌∙◌, true, ok, err, List, [], ◌∷◌, ◌⊎◌, inl, inr, arith, Bool-cases,
}
use mayastor.Nvmx.ControllerState.{
  ControllerFailureReason, NvmeControllerState, fresh, initializing, running, unconfiguring,
  unconfigured, faulted, flag_update_error, same_state, transition_error, ControllerStateMachine,
  ControllerStateMachineError, check_transition, transition, transition_checked,
  set_flag_exclusively, clear_flag_exclusively, Outcomes,
}

clash : {b : Bool} → b ≡ true → b ≡ false → ⊥
clash {b = true} h g = cc
clash {b = false} h g = cc

infix 40 ◌⟶◌
-- The state diagram of a controller.
pub data ◌⟶◌ : NvmeControllerState → NvmeControllerState → Type 0 where
  begin : fresh ⟶ initializing
  come_up : initializing ⟶ running
  fail_early : {r : ControllerFailureReason} → initializing ⟶ faulted r
  take_down : running ⟶ unconfiguring
  fail : {r : ControllerFailureReason} → running ⟶ faulted r
  go : unconfiguring ⟶ unconfigured
  fail_late : {r : ControllerFailureReason} → unconfiguring ⟶ faulted r
  recover : {q : ControllerFailureReason} → faulted q ⟶ running
  give_up : {q : ControllerFailureReason} → faulted q ⟶ unconfiguring
  fail_again : {q r : ControllerFailureReason} → faulted q ⟶ faulted r

ruleset edges =
    (begin, come_up, fail_early, take_down, fail, go, fail_late, recover, give_up, fail_again)

-- What a machine may be asked.
pub data Request : Type 0 where
  moves : NvmeControllerState → Request
  moves_from : NvmeControllerState → NvmeControllerState → Request
  sets_flag clears_flag : Request

unfoldable pub request : ControllerStateMachine → Request → Outcomes
request m (moves s) = transition m s
request m (moves_from c s) = transition_checked m c s
request m sets_flag = set_flag_exclusively m
request m clears_flag = clear_flag_exclusively m

checked_edge : (c s : NvmeControllerState) → check_transition c s ≡ true → c ⟶ s
unfolding check_transition
checked_edge c s e = grind (arith, edges)

edge_checked : (c s : NvmeControllerState) → c ⟶ s → check_transition c s ≡ true
unfolding check_transition
edge_checked c s begin = refl
edge_checked c s come_up = refl
edge_checked c s fail_early = refl
edge_checked c s take_down = refl
edge_checked c s fail = refl
edge_checked c s go = refl
edge_checked c s fail_late = refl
edge_checked c s recover = refl
edge_checked c s give_up = refl
edge_checked c s fail_again = refl

same_state_sound : (c s : NvmeControllerState) → same_state c s ≡ true → c ≡ s
same_state_sound c s e = ground arith

same_state_refl : (c : NvmeControllerState) → same_state c c ≡ true
same_state_refl c = ground arith

-- When a request is granted: a move along an edge of the diagram, from the state that the caller
-- names, if it names one; the flag is set where it is clear, and cleared where it is set.
abbrev pub Grants : ControllerStateMachine → Request → Type 0
Grants m (moves s) = m.current_state ⟶ s
Grants m (moves_from c s) = (m.current_state ≡ c) × (m.current_state ⟶ s)
Grants m sets_flag = m.flag ≡ false
Grants m clears_flag = m.flag ≡ true

-- The machine after a request that was granted.
abbrev pub after : ControllerStateMachine → Request → ControllerStateMachine
after m (moves s) = record m { current_state = s }
after m (moves_from c s) = record m { current_state = s }
after m sets_flag = record m { flag = true }
after m clears_flag = record m { flag = false }

-- The error of a request that was not granted.
abbrev pub refusal : ControllerStateMachine → Request → ControllerStateMachineError
refusal m (moves s) = transition_error m.current_state s
refusal m (moves_from c s) = transition_error c s
refusal m sets_flag = flag_update_error true true
refusal m clears_flag = flag_update_error false false

-- A request is granted and has its effect, or is not granted and has none.
abbrev pub Follows : ControllerStateMachine → Request → Outcomes → Type 0
Follows m r o =
    (Grants m r × (o ≡ (after m r, ok tt))) ⊎ (¬ (Grants m r) × (o ≡ (m, err (refusal m r))))

transition-Follows :
    (m : ControllerStateMachine) (s : NvmeControllerState) → Follows m (moves s) (transition m s)
unfolding transition
transition-Follows m s = elim (Bool-cases (check_transition m.current_state s)) [
  | inl e ↦ rw e (inl (checked_edge m.current_state s e, refl))
  | inr e ↦ rw e (inr (λ g. absurd (clash (edge_checked m.current_state s g) e), refl))
]

-- Its state is the one that the caller names: only the transition counts.
from_here :
    (m : ControllerStateMachine) (c s : NvmeControllerState)
    → m.current_state ≡ c
    → Follows m (moves s) (transition m s)
    → Follows m (moves_from c s) (transition m s)
from_here m c s e (inl (g, o)) = inl ((e, g), o)
from_here m c s e (inr (n, o)) = inr (λ g. n g.1, o ∙ ap (λ x. (m, err (transition_error x s))) e)

set-Follows :
    (c : NvmeControllerState) (b : Bool)
    → let m : ControllerStateMachine = record { current_state = c; flag = b } in
      Follows m sets_flag (set_flag_exclusively m)
unfolding set_flag_exclusively
set-Follows c true = inr (λ g. cc, refl)
set-Follows c false = inl (refl, refl)

clear-Follows :
    (c : NvmeControllerState) (b : Bool)
    → let m : ControllerStateMachine = record { current_state = c; flag = b } in
      Follows m clears_flag (clear_flag_exclusively m)
unfolding clear_flag_exclusively
clear-Follows c true = inl (refl, refl)
clear-Follows c false = inr (λ g. cc, refl)

-- A request of any kind is granted exactly where the diagram and the flag allow it, and then has its
-- effect and no other; one that is not granted leaves the machine as it was, with its own error.
pub request-Follows : (m : ControllerStateMachine) (r : Request) → Follows m r (request m r)
unfolding request transition_checked set_flag_exclusively clear_flag_exclusively
request-Follows m (moves s) = transition-Follows m s
request-Follows m (moves_from c s) = elim (Bool-cases (same_state m.current_state c)) [
  | inl e ↦ rw e (from_here m c s (same_state_sound m.current_state c e) (transition-Follows m s))
  | inr e ↦ rw e (inr (λ g. absurd (clash (rw (g.0) (same_state_refl c)) e), refl))
]
request-Follows m sets_flag = set-Follows m.current_state m.flag
request-Follows m clears_flag = clear-Follows m.current_state m.flag

unfoldable pub requests : ControllerStateMachine → List Request → ControllerStateMachine
requests m [] = m
requests m (r ∷ rs) = requests (request m r).0 rs

-- Nobody gives the flag back.
abbrev pub IsHeld : List Request → Type 0
IsHeld [] = Unit
IsHeld (moves s ∷ rs) = IsHeld rs
IsHeld (moves_from c s ∷ rs) = IsHeld rs
IsHeld (sets_flag ∷ rs) = IsHeld rs
IsHeld (clears_flag ∷ rs) = ⊥

transition_flag :
    (m : ControllerStateMachine) (s : NvmeControllerState) → (transition m s).0.flag ≡ m.flag
unfolding transition
transition_flag m s = ground arith

checked_flag :
    (m : ControllerStateMachine) (c s : NvmeControllerState)
    → (transition_checked m c s).0.flag ≡ m.flag
unfolding transition_checked
checked_flag m c s = elim (Bool-cases (same_state m.current_state c)) [
  | inl e ↦ rw e (transition_flag m s)
  | inr e ↦ rw e refl
]

set_taken :
    (m : ControllerStateMachine)
    → m.flag ≡ true
    → set_flag_exclusively m ≡ (m, err (flag_update_error true true))
unfolding set_flag_exclusively
set_taken m f = rw f refl

-- While one caller holds the flag, whatever else is requested but to clear it, nobody else sets it.
pub requests_exclude :
    (m : ControllerStateMachine) (rs : List Request)
    → m.flag ≡ true
    → IsHeld rs
    → (set_flag_exclusively (requests m rs)).1 ≡ err (flag_update_error true true)
unfolding requests request
requests_exclude m [] f h = ap (λ o. o.1) (set_taken m f)
requests_exclude m (moves s ∷ rs) f h =
    requests_exclude (transition m s).0 rs (transition_flag m s ∙ f) h
requests_exclude m (moves_from c s ∷ rs) f h =
    requests_exclude (transition_checked m c s).0 rs (checked_flag m c s ∙ f) h
requests_exclude m (sets_flag ∷ rs) f h =
    requests_exclude (set_flag_exclusively m).0 rs (ap (λ o. o.0.flag) (set_taken m f) ∙ f) h
requests_exclude m (clears_flag ∷ rs) f h = absurd h
