-- ===== src/Nexus/Child/Faulted.antt =====
-- A permanent fault keeps a child out of the I/O path.
use mayastor.Common.{
  ℕ, List, [], ◌∷◌, Bool, true, false, ◌≡◌, refl, arith, Bool-cases, inl, inr, All,
}
use mayastor.Nexus.Child.{
  FaultReason, ChildState, ChildSyncState, NexusChild, is_destroying, Created, open_in,
  open_child_device, online, unplug, reason_is_recoverable, is_open_or_init, is_recoverable,
}
use mayastor.Nexus.Child.Events.{
  ChildEvent, open_called, online_called, fault_called, sync_called, close_called, destroy_answered,
  message_received, slept, unplugged, child_step, child_run,
}
use mayastor.Nexus.Child.Kept.{
  close-SameStates, answered_at-Leaves, received_at-Leaves, slept_at-Leaves,
}

-- An event that gives a fault.
unfoldable pub faults : ChildEvent → Bool
faults (fault_called r) = true
faults (open_called n s) = false
faults (online_called n a) = false
faults (sync_called s) = false
faults close_called = false
faults (destroy_answered r) = false
faults message_received = false
faults slept = false
faults unplugged = false

abbrev StateIs : ChildState → NexusChild → Type 0
StateIs st c = c.state ≡ st

-- What a permanently faulted child refuses.
open_faulted :
    (r : FaultReason) (n : ℕ) (s : ChildSyncState) (c : NexusChild)
    → reason_is_recoverable r ≡ false
    → c.state ≡ ChildState.faulted r
    → (open_child_device n s c).0 ≡ c
unfolding open_child_device open_in
open_faulted r n s c hr h = elim (Bool-cases (is_destroying c)) [
  | inl e ↦ rw e refl
  | inr e ↦ rw (e, h, hr) refl
]

online-faulted :
    (r : FaultReason) (n : ℕ) (a : Created) (c : NexusChild)
    → reason_is_recoverable r ≡ false
    → c.state ≡ ChildState.faulted r
    → (online n a c).0 ≡ c
unfolding online is_open_or_init is_recoverable
online-faulted r n a c hr h = elim (Bool-cases (is_destroying c)) [
  | inl e ↦ rw (h, e) refl
  | inr e ↦ rw (h, e, hr) refl
]

unplug-faulted :
    (r : FaultReason) (c : NexusChild)
    → c.state ≡ ChildState.faulted r
    → (unplug c).state ≡ ChildState.faulted r
unfolding unplug
unplug-faulted r c h = ground (arith, h)

step_faulted :
    (r : FaultReason) (e : ChildEvent) (c : NexusChild)
    → reason_is_recoverable r ≡ false
    → faults e ≡ false
    → c.state ≡ ChildState.faulted r
    → (child_step e c).state ≡ ChildState.faulted r
unfolding child_step faults
step_faulted r (open_called n s) c hr he h = rw (open_faulted r n s c hr h) h
step_faulted r (online_called n a) c hr he h = rw (online-faulted r n a c hr h) h
step_faulted r (fault_called q) c hr he h = cc
step_faulted r (sync_called s) c hr he h = h
step_faulted r close_called c hr he h = cc ((close-SameStates c).0, h)
step_faulted r (destroy_answered q) c hr he h = cc ((answered_at-Leaves c.closing q c).0, h)
step_faulted r message_received c hr he h = cc ((received_at-Leaves c.closing c).0, h)
step_faulted r slept c hr he h = cc ((slept_at-Leaves c.closing c).0, h)
step_faulted r unplugged c hr he h = unplug-faulted r c h

-- A child with a permanent fault keeps it in every child_run that gives it no other fault: it is not
-- opened, brought online or closed into another state.
pub run_faulted :
    (r : FaultReason) (es : List ChildEvent) (c : NexusChild)
    → reason_is_recoverable r ≡ false
    → All (λ e. faults e ≡ false) es
    → c.state ≡ ChildState.faulted r
    → (child_run es c).state ≡ ChildState.faulted r
unfolding child_run
run_faulted r [] c hr he h = h
run_faulted r (e ∷ es) c hr (he, hes) h =
    run_faulted r es (child_step e c) hr hes (step_faulted r e c hr he h)
