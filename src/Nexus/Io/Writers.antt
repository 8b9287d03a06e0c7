-- ===== src/Nexus/Io/Writers.antt =====
-- bdev/nexus/nexus_io.rs: what an error of a child leaves of the channel's writers.
use mayastor.Common.{◌≤◌, Bool, Option, none, some, ◌≡◌, inl, inr, refl, arith, Bool-cases, length}
use mayastor.Common.Text.{Text}
use mayastor.Nexus.Io.{
  ChildIoStatus, success, invalid_opcode, reservation_conflict, other_error, RetireReason, io_error,
  NexusChannel, NexusBio, fault_device, after_refusal, completion_error, remove_first,
}
use mayastor.Nexus.Io.Devices.{length-remove_first_le}

module _ (has_log : Text → Bool) where
  pub fault_device_writers :
      (d : Text) (reason : RetireReason) (ch : NexusChannel)
      → (fault_device has_log d reason ch).writers ≡ ch.writers
  unfolding fault_device
  fault_device_writers d reason ch = elim (Bool-cases (has_log d)) [
    | inl k ↦ rw k refl
    | inr k ↦ rw k refl
  ]

  pub completion_error_writers :
      (d : Text) (status : ChildIoStatus) (ch : NexusChannel)
      → (completion_error has_log d status ch).writers ≡ ch.writers
  unfolding completion_error
  completion_error_writers d success ch = refl
  completion_error_writers d invalid_opcode ch = refl
  completion_error_writers d reservation_conflict ch = refl
  completion_error_writers d ChildIoStatus.no_space ch =
      fault_device_writers d RetireReason.no_space ch
  completion_error_writers d other_error ch = fault_device_writers d io_error ch

  -- A refusal takes no writer in.
  pub after_refusal_fewer :
      (refused : Option Text) (b : NexusBio)
      → length (after_refusal has_log refused b).channel.writers ≤ length b.channel.writers
  unfolding after_refusal
  after_refusal_fewer none b = omega arith
  after_refusal_fewer (some d) b =
      let fewer = length-remove_first_le d b.channel.writers in
      rw
        (fault_device_writers d io_error
          (record b.channel { writers = remove_first d b.channel.writers }))
        (omega (arith, fewer))
