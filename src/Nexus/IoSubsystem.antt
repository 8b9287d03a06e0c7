-- ===== src/Nexus/IoSubsystem.antt =====
-- Pausing and resuming the I/O of a nexus: io-engine/src/bdev/nexus/nexus_io_subsystem.rs. `none` is a
-- panic. The loops of `suspend` and `resume` are cut at their awaits: a call runs until it waits for
-- the NVMe-oF subsystem, waits for another call, or is over. No call is dropped while it waits, and
-- all run on the first core.
pub mod Waiting
mod Tests
use mayastor.Common.{
  ℕ, ◌+◌, ◌%◌, Bool, true, false, Option, none, some, List, [], ◌∷◌, ◌++◌, ◌==◌, ◌||◌,
  if◌then◌else◌,
}
use mayastor.Common.Panic.{◌>>=◌}

pub data NexusPauseState : Type 0 where
  unpaused pausing paused frozen unpausing : NexusPauseState

-- A call; that of `resume` has the flag that leaves the nexus frozen.
pub data Call : Type 0 where
  suspends : Call
  resumes : Bool → Call

-- `pause_waiters` holds the calls that wait for their turn, and `woken` those that were sent it and
-- have not yet gone round their loop. The call that waits for the subsystem is the one that made the
-- state `pausing` or `unpausing`.
pub record IoSubsystem : Type 0 where
  pub pause_state : NexusPauseState
  pub pause_cnt : ℕ
  pub pause_waiters : List Call
  pub woken : List Call

abbrev pub add32 : ℕ → ℕ
add32 n = (n + 1) % 4294967296

abbrev pub sub32 : ℕ → ℕ
sub32 n = (n + 4294967295) % 4294967296

-- The end of both functions: one waiter is sent its turn.
unfoldable pub wake_one : IoSubsystem → IoSubsystem
wake_one s = elim s.pause_waiters [
  | [] ↦ s
  | w ∷ waiters ↦ record s { pause_waiters = waiters; woken = s.woken ++ w ∷ [] }
]

-- A round of the loop of `suspend`; `shared` says that the nexus is shared by NVMe-oF and its
-- subsystem is found.
suspend_at : NexusPauseState → Bool → IoSubsystem → Option IoSubsystem
suspend_at unpaused shared s =
    if s.pause_cnt == 0
    then (if shared
        then some (record s { pause_state = pausing; pause_cnt = add32 s.pause_cnt })
        else some (wake_one (record s { pause_state = paused; pause_cnt = add32 s.pause_cnt })))
    else none
suspend_at paused shared s = some (wake_one (record s { pause_cnt = add32 s.pause_cnt }))
suspend_at frozen shared s = some (wake_one (record s { pause_cnt = add32 s.pause_cnt }))
suspend_at pausing shared s = some (record s { pause_waiters = s.pause_waiters ++ suspends ∷ [] })
suspend_at unpausing shared s = some (record s { pause_waiters = s.pause_waiters ++ suspends ∷ [] })

unfoldable pub suspend : Bool → IoSubsystem → Option IoSubsystem
unfolding suspend_at
suspend shared s = suspend_at s.pause_state shared s

abbrev is_frozen : NexusPauseState → Bool
is_frozen frozen = true
is_frozen _ = false

-- The last pause but one stays, and the last one is undone unless the nexus is to be frozen.
undo_pause : Bool → Bool → IoSubsystem → Option IoSubsystem
undo_pause freeze shared s =
    let t = record s { pause_cnt = sub32 s.pause_cnt } in
    if s.pause_cnt == 1
    then (if is_frozen s.pause_state || freeze
        then some (wake_one (record t { pause_state = frozen }))
        else (if shared
            then some (record t { pause_state = unpausing })
            else some (wake_one (record t { pause_state = unpaused }))))
    else some (wake_one t)

-- A round of the loop of `resume`; `shared` says that the subsystem is found.
resume_at : NexusPauseState → Bool → Bool → IoSubsystem → Option IoSubsystem
unfolding undo_pause
resume_at unpaused freeze shared s = some (wake_one s)
resume_at pausing freeze shared s =
    some (record s { pause_waiters = s.pause_waiters ++ resumes freeze ∷ [] })
resume_at unpausing freeze shared s =
    some (record s { pause_waiters = s.pause_waiters ++ resumes freeze ∷ [] })
resume_at paused freeze shared s = undo_pause freeze shared s
resume_at frozen freeze shared s = undo_pause freeze shared s

unfoldable pub resume : Bool → Bool → IoSubsystem → Option IoSubsystem
unfolding resume_at
resume freeze shared s = resume_at s.pause_state freeze shared s

abbrev pub call : Call → Bool → IoSubsystem → Option IoSubsystem
call suspends shared s = suspend shared s
call (resumes freeze) shared s = resume freeze shared s

-- What `pause` or `resume` of the NVMe-oF subsystem comes to: it is done, refused with EPERM or
-- ECANCELED, or failed with another error.
pub data Ending : Type 0 where
  done refused failed : Ending

abbrev pub is_failure : Ending → Bool
is_failure done = false
is_failure refused = false
is_failure failed = true

-- The subsystem has paused or resumed, or not; a failure panics. Where no call waits for the
-- subsystem, there is no transition to end.
ended_at : NexusPauseState → Ending → IoSubsystem → Option IoSubsystem
ended_at pausing how s =
    if is_failure how then none else some (wake_one (record s { pause_state = paused }))
ended_at unpausing how s =
    if is_failure how then none else some (wake_one (record s { pause_state = unpaused }))
ended_at unpaused how s = some s
ended_at paused how s = some s
ended_at frozen how s = some s

unfoldable pub transition_ends : Ending → IoSubsystem → Option IoSubsystem
unfolding ended_at
transition_ends how s = ended_at s.pause_state how s

-- A call, with whether the subsystem is there; the end of a transition; or the turn of the call that
-- was woken first.
pub data Event : Type 0 where
  calls : Call → Bool → Event
  ends : Ending → Event
  goes_round : Bool → Event

round : Bool → List Call → IoSubsystem → Option IoSubsystem
round shared [] s = some s
round shared (c ∷ woken) s = call c shared (record s { woken = woken })

unfoldable pub turn : IoSubsystem → Event → Option IoSubsystem
unfolding round
turn s (calls c shared) = call c shared s
turn s (ends how) = transition_ends how s
turn s (goes_round shared) = round shared s.woken s
