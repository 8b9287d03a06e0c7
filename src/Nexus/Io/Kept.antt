-- ===== src/Nexus/Io/Kept.antt =====
-- bdev/nexus/nexus_io.rs: the writers that an I/O skips, and what the nexus has been told of them.
use mayastor.Common.{
  ◌<◌, length, List, [], ◌∷◌, Bool, true, false, ◌&&◌, ◌||◌, Option, none, some, ◌==◌, ltb, ◌≡◌,
  inl, inr, refl, arith, Bool-cases, if_both,
}
use mayastor.Common.Words.{add8, sub8}
use mayastor.Nexus.Io.Writers.{fault_device_writers, completion_error_writers}
use mayastor.Common.Text.{Text}
use mayastor.Nexus.Io.{
  ChildIoStatus, success, invalid_opcode, reservation_conflict, other_error, RetireReason, io_error,
  Fate, at_work, frozen, completed, failed_io, NexusChannel, NexusBio, new, fail, mem, remove_first,
  submit_to, fault_device, after_refusal, log_all, submitted, submit_all, submit_request,
  completion_error, resubmit, counted, settle, complete, resubmit_frozen, abort_frozen,
}
use mayastor.Nexus.Io.Events.{
  Event, completes, freezes, aborts, thaws, is_at_work, is_frozen_io, run_event, run,
}
use mayastor.Nexus.Io.Devices.{or_true}
use mayastor.Nexus.Io.Named.{names, Kept, names_more, names_removed}
use mayastor.Nexus.Io.Written.{completed-Written, counted_fate}

abbrev is_tried : Fate → Bool
is_tried at_work = true
is_tried frozen = false
is_tried completed = true
is_tried failed_io = false

-- What holds of a device while the I/O lives.
record Held (x : Text) (b : NexusBio) : Type 0 where
  kept : Kept x b.channel.writers b.channel.retired
  tried : is_tried b.fate ≡ true → Kept x b.attempted b.channel.retired

work_melts : (f : Fate) → is_at_work f ≡ true → is_tried f ≡ true
work_melts at_work h = refl
work_melts frozen h = cc
work_melts completed h = refl
work_melts failed_io h = cc

written_or :
    (tried written retired : Bool)
    → (tried ≡ true → written ≡ true)
    → (tried || retired) ≡ true
    → (written || retired) ≡ true
written_or true written retired m h = rw (m refl) refl
written_or false written retired m h = rw h (or_true written)

module _ (has_log : Text → Bool) (x : Text) where
  writer-Kept : (ch : NexusChannel) → mem x ch.writers ≡ true → Kept x ch.writers ch.retired
  unfolding Kept
  writer-Kept ch m = rw m refl

  fault_device-Kept :
      (d : Text) (reason : RetireReason) (ch : NexusChannel) (ws : List Text)
      → Kept x ws ch.retired
      → Kept x ws (fault_device has_log d reason ch).retired
  unfolding fault_device
  fault_device-Kept d reason ch ws h = elim (Bool-cases (has_log d)) [
    | inl k ↦ rw k (names_more x d reason ws ch.retired h)
    | inr k ↦ rw k (names_more x d reason ws ch.retired h)
  ]

  refused-Kept :
      (d : Text) (ch : NexusChannel)
      → Kept x ch.writers ch.retired
      → Kept x
          (remove_first d ch.writers)
          (fault_device has_log d io_error
            (record ch { writers = remove_first d ch.writers })).retired
  unfolding fault_device
  refused-Kept d ch h = elim (Bool-cases (has_log d)) [
    | inl k ↦ rw k (names_removed x d io_error ch.writers ch.retired h)
    | inr k ↦ rw k (names_removed x d io_error ch.writers ch.retired h)
  ]

  after_refusal-Kept :
      (refused : Option Text) (b : NexusBio)
      → Kept x b.channel.writers b.channel.retired
      → Kept x b.attempted b.channel.retired
      → (Kept x
            (after_refusal has_log refused b).channel.writers
            (after_refusal has_log refused b).channel.retired
          × Kept x
              (after_refusal has_log refused b).attempted
              (after_refusal has_log refused b).channel.retired)
  unfolding after_refusal
  after_refusal-Kept none b w a = (w, a)
  after_refusal-Kept (some d) b w a = (
    rw
        (fault_device_writers has_log d io_error
          (record b.channel { writers = remove_first d b.channel.writers }))
        (refused-Kept d b.channel w),
    fault_device-Kept d io_error (record b.channel { writers = remove_first d b.channel.writers })
        b.attempted a,
  )

  submitted-Held :
      (sent : List Text) (b : NexusBio)
      → Kept x b.channel.writers b.channel.retired
      → Kept x b.attempted b.channel.retired
      → Held x (submitted has_log sent b)
  unfolding submitted fail
  submitted-Held [] b w a = record { kept = w; tried = λ _. a }
  submitted-Held (d ∷ ds) b w a = record { kept = w; tried = λ _. a }

  submit_all-Held :
      (accepts : Text → Bool) (b : NexusBio)
      → Kept x b.channel.writers b.channel.retired
      → Held x (submit_all has_log accepts b)
  unfolding submit_all log_all
  submit_all-Held accepts b w =
      let begun : NexusBio = record b {
        attempted = b.channel.writers;
        pending = [];
        written = [];
      } in
      let told = after_refusal-Kept (submit_to accepts b.channel.writers).1 begun w w in
      submitted-Held (submit_to accepts b.channel.writers).0 _ told.0 told.1

  submit_request-Held :
      (accepts : Text → Bool) (b : NexusBio)
      → Kept x b.channel.writers b.channel.retired
      → Held x (submit_request has_log accepts b)
  unfolding submit_request
  submit_request-Held accepts b w =
      if_both (Held x) b.channel.is_frozen (record { kept = w; tried = λ h. cc })
        (submit_all-Held accepts b w)

  resubmit-Held :
      (accepts : Text → Bool) (b : NexusBio) → Held x b → Held x (resubmit has_log accepts b)
  unfolding resubmit
  resubmit-Held accepts b i =
      submit_request-Held accepts
        (record b { resubmits = add8 b.resubmits 1; successful = 0; failed = 0; fate = at_work })
        i.kept

  completion_error-Kept :
      (d : Text) (status : ChildIoStatus) (ch : NexusChannel) (ws : List Text)
      → Kept x ws ch.retired
      → Kept x ws (completion_error has_log d status ch).retired
  unfolding completion_error
  completion_error-Kept d success ch ws h = h
  completion_error-Kept d invalid_opcode ch ws h = h
  completion_error-Kept d reservation_conflict ch ws h = h
  completion_error-Kept d ChildIoStatus.no_space ch ws h =
      fault_device-Kept d RetireReason.no_space ch ws h
  completion_error-Kept d other_error ch ws h = fault_device-Kept d io_error ch ws h

  failure-Held :
      (d : Text) (status : ChildIoStatus) (b : NexusBio)
      → Held x b
      → Held x (record b {
        in_flight = sub8 b.in_flight 1;
        failed = add8 b.failed 1;
        pending = remove_first d b.pending;
        channel = completion_error has_log d status b.channel;
      })
  failure-Held d status b i = record {
    kept =
        rw (completion_error_writers has_log d status b.channel)
          (completion_error-Kept d status b.channel _ i.kept);
    tried = λ f. completion_error-Kept d status b.channel _ (i.tried f);
  }

  counted-Held :
      (d : Text) (status : ChildIoStatus) (b : NexusBio)
      → Held x b
      → Held x (counted has_log d status b)
  unfolding counted
  counted-Held d success b i = record { kept = i.kept; tried = i.tried }
  counted-Held d invalid_opcode b i = failure-Held d invalid_opcode b i
  counted-Held d reservation_conflict b i = failure-Held d reservation_conflict b i
  counted-Held d ChildIoStatus.no_space b i = failure-Held d ChildIoStatus.no_space b i
  counted-Held d other_error b i = failure-Held d other_error b i

  settle-Held :
      (accepts : Text → Bool) (status : ChildIoStatus) (b : NexusBio)
      → is_tried b.fate ≡ true
      → Held x b
      → Held x (settle has_log accepts status b)
  unfolding settle fail
  settle-Held accepts status b w i = if_both (Held x) (ltb 0 b.in_flight) i (
      if_both (Held x) (b.failed == 0) (record { kept = i.kept; tried = λ _. i.tried w })
        (if_both (Held x) (ltb 0 b.successful) (resubmit-Held accepts b i)
          (record { kept = i.kept; tried = λ _. i.tried w })))

  counted_frozen :
      (d : Text) (status : ChildIoStatus) (b : NexusBio)
      → is_at_work b.fate ≡ true
      → is_tried (counted has_log d status b).fate ≡ true
  counted_frozen d status b w = rw (counted_fate has_log d status b) (work_melts b.fate w)

  run_event-Held : (e : Event) (b : NexusBio) → Held x b → Held x (run_event has_log e b)
  unfolding run_event complete resubmit_frozen abort_frozen fail
  run_event-Held (completes accepts d status) b i =
      elim (Bool-cases (is_at_work b.fate && mem d b.pending)) [
        | inl k ↦ rw k (
            settle-Held accepts status _ (counted_frozen d status b (ground arith))
              (counted-Held d status b i))
        | inr k ↦ rw k i
      ]
  run_event-Held freezes b i = record { kept = i.kept; tried = i.tried }
  run_event-Held aborts b i =
      if_both (Held x) (is_frozen_io b.fate) (record { kept = i.kept; tried = λ h. cc }) i
  run_event-Held (thaws accepts) b i =
      if_both (Held x) (is_frozen_io b.fate)
        (submit_request-Held accepts
          (record b { fate = at_work; channel = record b.channel { is_frozen = false } }) i.kept)
        i

  run-Held : (es : List Event) (b : NexusBio) → Held x b → Held x (run has_log es b)
  unfolding run
  run-Held [] b i = i
  run-Held (e ∷ es) b i = run-Held es _ (run_event-Held e b i)

  -- Once an I/O sent to all the writers of a channel, at most 255, is completed well, each device that was a writer
  -- when it was first submitted has succeeded in the last submission, or the nexus has been asked to
  -- retire it: whatever the order of the completions, the answers of the writers at each submission,
  -- and the times at which the channel is frozen.
  pub completed_or_retired :
      (accepts : Text → Bool) (ch : NexusChannel) (es : List Event)
      → length ch.writers < 256
      → mem x ch.writers ≡ true
      → (run has_log es (submit_request has_log accepts (new ch))).fate ≡ completed
      → let b = run has_log es (submit_request has_log accepts (new ch)) in
        (mem x b.written || mem x (names b.channel.retired)) ≡ true
  unfolding new Kept
  completed_or_retired accepts ch es n m done =
      let b = run has_log es (submit_request has_log accepts (new ch)) in
      let start = submit_request-Held accepts (new ch) (writer-Kept ch m) in
      let i = run-Held es _ start in
      written_or (mem x b.attempted) (mem x b.written) (mem x (names b.channel.retired))
        (completed-Written has_log accepts ch es n done x) (i.tried (rw done refl))
