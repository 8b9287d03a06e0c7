-- ===== src/Nexus/IoSubsystem/Tests.antt =====
-- Two calls of `suspend` at once, and their undoing.
use mayastor.Common.{◌≡◌, refl, true, false, Option, none, some, List, [], ◌∷◌}
use mayastor.Common.Panic.{◌>>=◌}
use mayastor.Nexus.IoSubsystem.{
  unpaused, pausing, paused, suspends, resumes, IoSubsystem, Event, done, failed, calls, ends,
  goes_round, turn, suspend, resume, transition_ends, wake_one,
}

abbrev idle : IoSubsystem
idle = record { pause_state = unpaused; pause_cnt = 0; pause_waiters = []; woken = [] }

abbrev turns : List Event → IoSubsystem → Option IoSubsystem
turns [] s = some s
turns (e ∷ es) s = turn s e >>= λ t. turns es t

both_pause :
    turns
      (calls suspends true
        ∷ calls suspends true
        ∷ ends done
        ∷ goes_round true
        ∷ calls (resumes false) true
        ∷ [])
      idle
    ≡ some (record { pause_state = paused; pause_cnt = 1; pause_waiters = []; woken = [] })
unfolding turn suspend resume transition_ends wake_one
both_pause = refl

abbrev held : IoSubsystem
held = record {
  pause_state = pausing;
  pause_cnt = 1;
  pause_waiters = suspends ∷ resumes false ∷ [];
  woken = [];
}

-- Another error than those two is a panic.
fails : turn held (ends failed) ≡ none
unfolding turn transition_ends
fails = refl
