-- ===== src/Nexus/Child/Tests.antt =====
-- Runs of the model at concrete inputs, and instances of its theorems.
use mayastor.Common.{
  List, All, [], ◌∷◌, ◌++◌, true, false, none, some, ok, panic, replicate, ◌≡◌, ◌≢◌, refl, arith,
}
use mayastor.Nexus.Child.{
  ChildDevice, ChildState, ChildStateClient, ChildSyncState, NexusChild, reason_is_recoverable,
  synced, offline_permanent, new, at_recv, Created, destroying, open_child_device, online,
  is_healthy, state_client,
}
use mayastor.Nexus.Child.Events.{
  ChildEvent, open_called, online_called, close_called, message_received, slept, unplugged,
  child_step, child_run,
}
use mayastor.Nexus.Child.Invariant.{Inv}
use mayastor.Nexus.Child.Calls.{calls_panic}
use mayastor.Nexus.Child.Faulted.{run_faulted, faults}
use mayastor.Nexus.Child.Healthy.{run-Unhealthy, syncs}
use mayastor.Nexus.Child.Ends.{gets_idle, close_ends}
use mayastor.Nexus.Child.Reopened.{resting, whole_close, onlined, close_online}

abbrev disk : ChildDevice
disk = record { size_in_bytes = 100; opens = true }

abbrev fresh : Created
fresh = record { is_created = true; found = some disk }

abbrev opening : ChildEvent
opening = open_called 50 synced

opened_healthy : is_healthy (child_run (opening ∷ []) (new (some disk))) ≡ true
unfolding child_run new
opened_healthy = refl

-- A device that goes away is kept until the child is closed.
hot_removed : (child_run (opening ∷ unplugged ∷ []) (new (some disk))).device ≡ some disk
unfolding child_run new
hot_removed = refl

calls_panic_example :
    ((open_child_device 50 synced (child_run (opening ∷ unplugged ∷ []) (new (some disk)))).1
        ≡ panic
      → (child_run (opening ∷ unplugged ∷ []) (new (some disk))).device ≡ none)
    × ((online 50 fresh (child_run (opening ∷ unplugged ∷ []) (new (some disk)))).1 ≢ panic)
calls_panic_example = calls_panic (some disk) (opening ∷ unplugged ∷ []) 50 synced fresh

abbrev broken : NexusChild
broken = resting (ChildState.faulted offline_permanent) synced true disk

abbrev attempts : List ChildEvent
attempts = online_called 50 fresh ∷ close_called ∷ opening ∷ []

attempts_fault_nothing : All (λ e. faults e ≡ false) attempts
unfolding faults
attempts_fault_nothing = (refl, (refl, (refl, tt)))

run_faulted_example : (child_run attempts broken).state ≡ ChildState.faulted offline_permanent
run_faulted_example =
    run_faulted offline_permanent attempts broken (unfold reason_is_recoverable in refl)
      attempts_fault_nothing refl

abbrev reopenings : List ChildEvent
reopenings = whole_close true ++ online_called 50 fresh ∷ []

reopenings_sync_nothing : All (λ e. syncs e ≡ false) reopenings
unfolding syncs
reopenings_sync_nothing = (refl, (refl, (refl, (refl, (refl, tt)))))

abbrev stale : NexusChild
stale = resting ChildState.opened ChildSyncState.out_of_sync true disk

run-Unhealthy_example : is_healthy (child_run reopenings stale) ≡ false
run-Unhealthy_example = run-Unhealthy reopenings stale reopenings_sync_nothing refl

-- A close that hears twice that the device is still there.
abbrev waiting : NexusChild
waiting = record (resting ChildState.closed synced true disk) {
  destroy_state = destroying;
  closing = at_recv;
  removals = false ∷ [];
}

waiting-Inv : Inv waiting
waiting-Inv = record { usable = λ h. cc; in_flight = refl }

close_ends_example :
    gets_idle (close_called ∷ replicate 20 slept) (child_step message_received waiting) ≡ true
close_ends_example =
    close_ends waiting false [] (close_called ∷ replicate 20 slept) waiting-Inv refl refl
      (omega arith)

close_online_example :
    ((child_run (whole_close false) stale).device ≡ none)
    × ((child_run (whole_close false) stale).device_descriptor ≡ false)
    × ((onlined 50 (child_run (whole_close false) stale) disk).1 ≡ ok tt)
    × (state_client (onlined 50 (child_run (whole_close false) stale) disk).0
        ≡ ChildStateClient.out_of_sync)
close_online_example =
    close_online ChildState.opened ChildSyncState.out_of_sync true disk false 50 disk refl
      (omega arith) refl
