-- ===== src/Nexus/IoSubsystem/Waiting.antt =====
-- The count of the pauses fits the state, and no call waits for a turn that nobody will send.
use mayastor.Common.{ℕ, ◌+◌, ◌≡◌, ◌≢◌, ◌<◌, Bool, true, false, Option, none, some, [], ◌⊎◌}
use mayastor.Nexus.IoSubsystem.{
  NexusPauseState, unpaused, pausing, paused, frozen, unpausing, IoSubsystem, failed, Event, ends,
}

abbrev pub Fits : NexusPauseState → ℕ → Type 0
Fits unpaused n = n ≡ 0
Fits pausing n = n ≡ 1
Fits paused n = 0 < n
Fits frozen n = Unit
Fits unpausing n = n ≡ 0

abbrev pub is_moving : NexusPauseState → Bool
is_moving pausing = true
is_moving unpausing = true
is_moving _ = false

pub record Inv (s : IoSubsystem) : Type 0 where
  pub fits : Fits s.pause_state s.pause_cnt
  pub bounded : s.pause_cnt < 4294967296
  pub served : (s.pause_waiters ≡ []) ⊎ ((is_moving s.pause_state ≡ true) ⊎ (s.woken ≢ []))

-- Fewer than 2^32 pauses are in force.
abbrev pub IsPossible : IoSubsystem → Type 0
IsPossible s = s.pause_cnt + 1 < 4294967296

-- An event panics just where the subsystem fails in a transition; else the invariant holds after it.
abbrev pub Turns : IoSubsystem → Event → Option IoSubsystem → Type 0
Turns s e o =
    ((e ≡ ends failed) × (is_moving s.pause_state ≡ true) × (o ≡ none))
    ⊎ ((t : IoSubsystem) × (o ≡ some t) × Inv t)
