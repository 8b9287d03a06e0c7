-- ===== src/Nexus/Io/Events.antt =====
-- bdev/nexus/nexus_io.rs, nexus_channel.rs: what happens to an I/O that was submitted.
use mayastor.Common.{List, [], ◌∷◌, Bool, true, false, ◌&&◌, if◌then◌else◌}
use mayastor.Common.Text.{Text}
use mayastor.Nexus.Io.{
  ChildIoStatus, Fate, at_work, frozen, completed, failed_io, NexusBio, mem, complete,
  resubmit_frozen, abort_frozen,
}

-- A child's completion, the return of the channel to its normal mode, and the end of its
-- frozen I/Os; with the first two go the answers of the writers should the I/O be submitted again.
-- `freezes` is the change of the channel's mode.
pub data Event : Type 0 where
  completes : (Text → Bool) → Text → ChildIoStatus → Event
  freezes aborts : Event
  thaws : (Text → Bool) → Event

abbrev pub is_at_work : Fate → Bool
is_at_work at_work = true
is_at_work frozen = false
is_at_work completed = false
is_at_work failed_io = false

abbrev pub is_frozen_io : Fate → Bool
is_frozen_io at_work = false
is_frozen_io frozen = true
is_frozen_io completed = false
is_frozen_io failed_io = false

-- Completions come from the devices that are at work, while the I/O is not over.
unfoldable pub run_event : (Text → Bool) → Event → NexusBio → NexusBio
unfolding complete mem resubmit_frozen abort_frozen
run_event has_log (completes accepts d status) b =
    if is_at_work b.fate && mem d b.pending then complete has_log accepts d status b else b
run_event has_log freezes b = record b { channel = record b.channel { is_frozen = true } }
run_event has_log aborts b = if is_frozen_io b.fate then abort_frozen b else b
run_event has_log (thaws accepts) b =
    if is_frozen_io b.fate then resubmit_frozen has_log accepts b else b

unfoldable pub run : (Text → Bool) → List Event → NexusBio → NexusBio
unfolding run_event
run has_log [] b = b
run has_log (e ∷ es) b = run has_log es (run_event has_log e b)
