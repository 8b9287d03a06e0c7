-- ===== src/Nexus/Child/Reopened.antt =====
-- A close and an online, together.
use mayastor.Common.{
  ℕ, ◌≤◌, List, [], ◌∷◌, Bool, true, false, if◌then◌else◌, none, some, ltb, ok, Outcome, ◌≡◌, refl,
  arith,
}
use mayastor.Nexus.Child.{
  ChildError, ChildDevice, ChildState, ChildStateClient, ChildSyncState, not_destroying, idle,
  NexusChild, reason_is_recoverable, online, state_client,
}
use mayastor.Nexus.Child.Events.{
  ChildEvent, close_called, destroy_answered, message_received, unplugged, child_run,
}

-- A child with a device, with no close in flight and no message left.
abbrev pub resting : ChildState → ChildSyncState → Bool → ChildDevice → NexusChild
resting state sync descriptor device = record {
  state = state;
  sync_state = sync;
  destroy_state = not_destroying;
  removals = [];
  device = some device;
  device_descriptor = descriptor;
  closing = idle;
}

-- A state that a child can be brought online from, once it is closed.
abbrev pub can_reopen : ChildState → Bool
can_reopen ChildState.opened = true
can_reopen ChildState.closed = true
can_reopen (ChildState.faulted r) = reason_is_recoverable r
can_reopen ChildState.init = false
can_reopen ChildState.config_invalid = false

-- A whole close: the removal of the device comes before or after the answer of its destruction.
abbrev pub whole_close : Bool → List ChildEvent
whole_close removed_first =
    close_called
    ∷ (if removed_first
        then unplugged ∷ destroy_answered true ∷ message_received ∷ []
        else destroy_answered true ∷ unplugged ∷ message_received ∷ [])

-- What is left of the child.
abbrev left : ChildState → ChildSyncState → NexusChild
left state sync = record {
  state = state;
  sync_state = sync;
  destroy_state = not_destroying;
  removals = [];
  device = none;
  device_descriptor = false;
  closing = idle;
}

abbrev closed_state : ChildState → ChildState
closed_state ChildState.opened = ChildState.closed
closed_state st = st

whole_close_lem :
    (st : ChildState) (sync : ChildSyncState) (desc : Bool) (dev : ChildDevice) (first : Bool)
    → can_reopen st ≡ true
    → child_run (whole_close first) (resting st sync desc dev) ≡ left (closed_state st) sync
unfolding child_run
whole_close_lem ChildState.opened sync desc dev true h = refl
whole_close_lem ChildState.opened sync desc dev false h = refl
whole_close_lem ChildState.closed sync desc dev true h = refl
whole_close_lem ChildState.closed sync desc dev false h = refl
whole_close_lem (ChildState.faulted r) sync desc dev true h = refl
whole_close_lem (ChildState.faulted r) sync desc dev false h = refl
whole_close_lem ChildState.init sync desc dev first h = cc
whole_close_lem ChildState.config_invalid sync desc dev first h = cc

abbrev pub onlined : ℕ → NexusChild → ChildDevice → NexusChild × Outcome ChildError (Unit {0})
onlined n c dev = online n (record { is_created = true; found = some dev }) c

left-onlined :
    (st : ChildState) (sync : ChildSyncState) (n : ℕ) (dev : ChildDevice)
    → can_reopen st ≡ true
    → ltb dev.size_in_bytes n ≡ false
    → dev.opens ≡ true
    → ((onlined n (left (closed_state st) sync) dev).1 ≡ ok tt)
      × (state_client (onlined n (left (closed_state st) sync) dev).0
          ≡ ChildStateClient.out_of_sync)
unfolding online state_client
left-onlined ChildState.opened sync n dev h k o = rw (k, o) (refl, refl)
left-onlined ChildState.closed sync n dev h k o = rw (k, o) (refl, refl)
left-onlined (ChildState.faulted r) sync n dev h k o = rw (h, k, o) (refl, refl)
left-onlined ChildState.init sync n dev h k o = cc
left-onlined ChildState.config_invalid sync n dev h k o = cc

ltb-le : (a b : ℕ) → a ≤ b → ltb b a ≡ false
ltb-le a b h = ground (arith, h)

-- A child that is open, closed or faulted for a time, and has a device, no close in flight and no
-- message left, is left with neither device nor descriptor by a whole close, wherever the removal comes; with a new device that is large
-- enough and can be opened it is then brought online, and clients see it as out of sync.
pub close_online :
    (st : ChildState) (sync : ChildSyncState) (desc : Bool) (dev : ChildDevice) (first : Bool)
    (n : ℕ) (fresh : ChildDevice)
    → can_reopen st ≡ true
    → n ≤ fresh.size_in_bytes
    → fresh.opens ≡ true
    → ((child_run (whole_close first) (resting st sync desc dev)).device ≡ none)
      × ((child_run (whole_close first) (resting st sync desc dev)).device_descriptor ≡ false)
      × ((onlined n (child_run (whole_close first) (resting st sync desc dev)) fresh).1 ≡ ok tt)
      × (state_client (onlined n (child_run (whole_close first) (resting st sync desc dev)) fresh).0
          ≡ ChildStateClient.out_of_sync)
close_online st sync desc dev first n fresh h k o =
    let (answer, seen) = left-onlined st sync n fresh h (ltb-le n fresh.size_in_bytes k) o in
    rw (whole_close_lem st sync desc dev first h) (refl, refl, answer, seen)
