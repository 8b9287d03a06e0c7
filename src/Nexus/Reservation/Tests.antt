-- ===== src/Nexus/Reservation/Tests.antt =====
-- A device with one controller beside ours, runs of the model on it, and an instance of its theorem.
use mayastor.Common.{
  ℕ, [], ◌∷◌, Bool, true, false, none, Outcome, ok, err, ◌≡◌, refl, if◌then◌else◌, ◌==◌,
}
use mayastor.Nexus.Reservation.{
  write_exclusive, NexusNvmeParams, holder, arg_key, ReservationReport, CoreError, AcquireAction,
  acquire, preempt, ResvHandle, holder_error, reservations_enabled, reservation_acquire,
}
use mayastor.Nexus.Reservation.Holder.{Reported, acquire-Reported}

-- Whether our key holds the reservation, or that of the other controller.
abbrev Disk : Type 0
Disk = Bool

abbrev report_of : Disk → ReservationReport
report_of ours = record {
  rtype = 1;
  regctl = 2;
  controllers =
      record { status = if ours then 0 else 1; rkey = 5; hostid = 50 }
      ∷ record { status = if ours then 1 else 0; rkey = 9; hostid = 90 }
      ∷ [];
  aligned = true;
}

-- Only a preemption of the other key takes the reservation.
abbrev acquire_on : ℕ → ℕ → AcquireAction → ℕ → Disk → Disk × Outcome CoreError (Unit {0})
acquire_on key pkey acquire type_ s = (s, ok tt)
acquire_on key pkey preempt type_ s = ((if pkey == 5 then true else s), ok tt)

abbrev handle : ResvHandle Disk
handle = record {
  opens = λ s. (s, ok tt);
  mallocs = λ s. (s, ok tt);
  register = λ key s. (s, ok tt);
  acquire = acquire_on;
  release = λ key type_ s. (s, ok tt);
  report = λ s. (s, ok (report_of s));
  host_id = λ s. (s, ok 90);
}

abbrev params : NexusNvmeParams
params = record {
  resv_key = 9;
  preempt_key = none;
  resv_type = write_exclusive;
  preempt_policy = holder;
}

preempted : reservation_acquire Disk handle true params false ≡ (true, ok tt)
unfolding reservation_acquire
preempted = refl

-- A manual policy without a key to preempt leaves the other controller its reservation.
refused :
    reservation_acquire Disk handle true (record params { preempt_policy = arg_key }) false
    ≡ (false, err (holder_error (record { status = 1; rkey = 5; hostid = 50 })))
unfolding reservation_acquire
refused = refl

acquire-Reported_example : Reported Disk handle params false true
acquire-Reported_example =
    acquire-Reported Disk handle params false true (unfold reservations_enabled in refl) preempted
