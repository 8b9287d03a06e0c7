-- ===== src/Nexus/Io.antt =====
-- bdev/nexus/nexus_io.rs, nexus_channel.rs: an I/O that a nexus sends to all the writers of a channel,
-- from its submission on to the completions of its children and its resubmissions.
pub mod Events
pub mod Devices
pub mod Writers
pub mod Invariant
pub mod Written
pub mod Named
pub mod Kept
pub mod Resubmitted
mod Tests
use mayastor.Common.{
  ℕ, ◌%◌, List, [], ◌∷◌, ◌++◌, Bool, true, false, not, ◌&&◌, ◌||◌, Option, none, some, ltb, ◌==◌,
  if◌then◌else◌, length,
}
use mayastor.Common.Words.{add8, sub8}
use mayastor.Common.Text.{Text, same_text}

-- What the completion of a child's I/O is told apart by.
pub data ChildIoStatus : Type 0 where
  success invalid_opcode reservation_conflict no_space other_error : ChildIoStatus

pub data RetireReason : Type 0 where
  no_space io_error : RetireReason

-- What becomes of the I/O: children are at work on it, it waits for a frozen channel, or it is over.
pub data Fate : Type 0 where
  at_work frozen completed failed_io : Fate

-- The channel: its writers and I/O logs by the names of their devices, and what it has asked of the
-- nexus so far. `logged` are the logs that the I/O was written to.
pub record NexusChannel : Type 0 where
  pub writers : List Text
  pub io_logs : List Text
  pub is_frozen : Bool
  pub retired : List (Text × RetireReason)
  pub logged : List Text
  pub shutdown_requested : Bool
  pub last_error : ChildIoStatus

-- The I/O with its channel. The devices of the last submission, those still at work and those that
-- have succeeded are what is known of the children; the code only counts them, in bytes, which wrap.
pub record NexusBio : Type 0 where
  pub channel : NexusChannel
  pub in_flight : ℕ
  pub resubmits : ℕ
  pub successful : ℕ
  pub failed : ℕ
  pub fate : Fate
  pub attempted : List Text
  pub pending : List Text
  pub written : List Text

unfoldable pub new : NexusChannel → NexusBio
new channel = record {
  channel = channel;
  in_flight = 0;
  resubmits = 0;
  successful = 0;
  failed = 0;
  fate = at_work;
  attempted = [];
  pending = [];
  written = [];
}

-- The NVMe status that the failure is reported with is left out.
unfoldable pub fail : NexusBio → NexusBio
fail b = record b { fate = failed_io }

-- `abort_frozen` for this I/O.
unfoldable pub abort_frozen : NexusBio → NexusBio
unfolding fail
abort_frozen b = fail b

-- The first writer of a name is taken out, as `detach_device` does; its handle is dropped.
unfoldable pub remove_first : Text → List Text → List Text
unfolding same_text
remove_first d [] = []
remove_first d (e ∷ es) = let rest = remove_first d es in if same_text e d then es else e ∷ rest

-- `for_each_writer`: submits to one writer after another until one does not take the I/O. The result
-- is who took it, and who did not.
unfoldable pub submit_to : (Text → Bool) → List Text → List Text × Option Text
submit_to accepts [] = ([], none)
submit_to accepts (d ∷ ds) =
    let rest = submit_to accepts ds in if accepts d then (d ∷ rest.0, rest.1) else ([], some d)

unfoldable pub reason_of : ChildIoStatus → RetireReason
reason_of ChildIoStatus.no_space = RetireReason.no_space
reason_of success = io_error
reason_of invalid_opcode = io_error
reason_of reservation_conflict = io_error
reason_of other_error = io_error

unfoldable pub mem : Text → List Text → Bool
mem d [] = false
mem d (e ∷ es) = same_text e d || mem d es

unfoldable pub connect_log : Text → List Text → List Text
unfolding mem
connect_log d logs = if mem d logs then logs else logs ++ d ∷ []

-- The log of a retired device, if it has one, is connected and written to. `has_log` is what the
-- nexus answers to the request to retire the device.
module _ (has_log : Text → Bool) where
  unfoldable pub fault_device : Text → RetireReason → NexusChannel → NexusChannel
  unfolding connect_log
  fault_device d reason ch =
      let asked : NexusChannel = record ch { retired = ch.retired ++ (d, reason) ∷ [] } in
      if has_log d
      then record asked { io_logs = connect_log d ch.io_logs; logged = ch.logged ++ d ∷ [] }
      else asked

  -- A device that did not take the I/O is detached and retired.
  unfoldable pub after_refusal : Option Text → NexusBio → NexusBio
  unfolding fault_device remove_first
  after_refusal none b = b
  after_refusal (some d) b = record b {
    failed = add8 b.failed 1;
    channel =
        fault_device d io_error (record b.channel { writers = remove_first d b.channel.writers });
  }

  unfoldable pub log_all : NexusChannel → NexusChannel
  log_all ch = record ch { logged = ch.logged ++ ch.io_logs }

  unfoldable pub submitted : List Text → NexusBio → NexusBio
  unfolding fail
  submitted [] b = fail b
  submitted (d ∷ ds) b = record b { in_flight = length (d ∷ ds) % 256; pending = d ∷ ds }

  unfoldable pub submit_all : (Text → Bool) → NexusBio → NexusBio
  unfolding submit_to after_refusal log_all submitted
  submit_all accepts b =
      let (sent, refused) = submit_to accepts b.channel.writers in
      let begun : NexusBio = record b {
        attempted = b.channel.writers;
        pending = [];
        written = [];
      } in
      let told = after_refusal refused begun in
      submitted sent (record told { channel = log_all told.channel })

  unfoldable pub submit_request : (Text → Bool) → NexusBio → NexusBio
  unfolding submit_all
  submit_request accepts b =
      if b.channel.is_frozen then record b { fate = frozen } else submit_all accepts b

  unfoldable pub completion_error : Text → ChildIoStatus → NexusChannel → NexusChannel
  unfolding fault_device reason_of
  completion_error d invalid_opcode ch = ch
  completion_error d reservation_conflict ch = record ch { shutdown_requested = true }
  completion_error d ChildIoStatus.no_space ch = fault_device d RetireReason.no_space ch
  completion_error d other_error ch = fault_device d io_error ch
  completion_error d success ch = ch

  unfoldable pub resubmit : (Text → Bool) → NexusBio → NexusBio
  unfolding submit_request
  resubmit accepts b =
      submit_request accepts
        (record b { resubmits = add8 b.resubmits 1; successful = 0; failed = 0; fate = at_work })

  -- What a completion adds to the counts.
  unfoldable pub counted : Text → ChildIoStatus → NexusBio → NexusBio
  unfolding completion_error remove_first
  counted d success b = record b {
    in_flight = sub8 b.in_flight 1;
    successful = add8 b.successful 1;
    pending = remove_first d b.pending;
    written = d ∷ b.written;
  }
  counted d status b = record b {
    in_flight = sub8 b.in_flight 1;
    failed = add8 b.failed 1;
    pending = remove_first d b.pending;
    channel = completion_error d status b.channel;
  }

  unfoldable pub settle : (Text → Bool) → ChildIoStatus → NexusBio → NexusBio
  unfolding resubmit fail
  settle accepts status b =
      if ltb 0 b.in_flight
      then b
      else if b.failed == 0
      then record b { fate = completed }
      else if ltb 0 b.successful
      then resubmit accepts b
      else fail (record b { channel = record b.channel { last_error = status } })

  -- `complete`; the writers' answers to a resubmission come with it.
  unfoldable pub complete : (Text → Bool) → Text → ChildIoStatus → NexusBio → NexusBio
  unfolding counted settle
  complete accepts d status b = settle accepts status (counted d status b)

  -- `resubmit_frozen` for this I/O, once the channel is back in its normal mode.
  unfoldable pub resubmit_frozen : (Text → Bool) → NexusBio → NexusBio
  unfolding submit_request
  resubmit_frozen accepts b =
      submit_request accepts
        (record b { fate = at_work; channel = record b.channel { is_frozen = false } })
