-- ===== src/Nexus/Io/Tests.antt =====
-- Runs of bdev/nexus/nexus_io.rs on concrete completions.
use mayastor.Common.{List, [], ◌∷◌, Bool, true, false, ◌||◌, not, ◌≡◌, refl, arith}
use mayastor.Common.Words.{add8, sub8}
use mayastor.Common.Text.{Text, same_text}
use mayastor.Nexus.Io.{success, other_error, completed, NexusChannel, new, mem, submit_request}
use mayastor.Nexus.Io.Events.{Event, completes, freezes, thaws, run}
use mayastor.Nexus.Io.Resubmitted.{attempt, rounds, resubmitted_forever}
use mayastor.Nexus.Io.Named.{names}
use mayastor.Nexus.Io.Kept.{completed_or_retired}

abbrev first : Text
first = 1 ∷ []

abbrev second : Text
second = 2 ∷ []

abbrev third : Text
third = 3 ∷ []

abbrev channel : NexusChannel
channel = record {
  writers = first ∷ second ∷ third ∷ [];
  io_logs = [];
  is_frozen = false;
  retired = [];
  logged = [];
  shutdown_requested = false;
  last_error = success;
}

abbrev takes : Text → Text → Bool
takes d x = not (same_text d x)

-- The third device does not take the I/O. Then the second fails it, and does not take it again.
abbrev events : List Event
events =
    completes (takes third) first success
    ∷ freezes
    ∷ completes (takes second) second other_error
    ∷ thaws (takes second)
    ∷ completes (takes third) first success
    ∷ completes (takes third) first success
    ∷ []

run_completed :
    (run
      (same_text third)
      events
      (submit_request (same_text third) (takes third) (new channel))).fate
    ≡ completed
unfolding run submit_request new add8 sub8
run_completed = refl

second_writes : mem second channel.writers ≡ true
unfolding mem same_text
second_writes = refl

completed_or_retired_example :
    let b =
      run (same_text third) events (submit_request (same_text third) (takes third) (new channel)) in
    (mem second b.written || mem second (names b.channel.retired)) ≡ true
completed_or_retired_example =
    completed_or_retired (same_text third) second (takes third) channel events (omega arith)
      second_writes run_completed

resubmitted_forever_example :
    run (same_text third) (rounds (same_text third) first second 300) (
      submit_request
        (same_text third)
        (λ _. true)
        (new (attempt (same_text third) first second 0).channel))
    ≡ attempt (same_text third) first second 44
resubmitted_forever_example = resubmitted_forever (same_text third) first second 300
