-- ===== src/Nexus/Child.antt =====
-- bdev/nexus/nexus_child.rs: the states of a child, how it is opened, brought online, unplugged and
-- closed. A close is cut at its awaits: `closing` says where it waits.
pub mod Events
pub mod Invariant
pub mod Kept
pub mod Faulted
pub mod Healthy
pub mod Ends
pub mod Reopened
pub mod Calls
mod Tests
use mayastor.Common.{
  ℕ, ◌+◌, List, [], ◌∷◌, ◌++◌, Bool, true, false, not, ◌&&◌, ◌||◌, Option, none, some, ltb, is_some,
  if◌then◌else◌, Outcome, ok, err, panic,
}

pub data FaultReason : Type 0 where
  unknown cant_open no_space timed_out io_error rebuild_failed : FaultReason
  admin_command_failed offline offline_permanent hot_remove : FaultReason

-- `FaultReason::is_recoverable`.
unfoldable pub reason_is_recoverable : FaultReason → Bool
reason_is_recoverable no_space = true
reason_is_recoverable timed_out = true
reason_is_recoverable io_error = true
reason_is_recoverable offline = true
reason_is_recoverable admin_command_failed = true
reason_is_recoverable rebuild_failed = true
reason_is_recoverable hot_remove = true
reason_is_recoverable unknown = false
reason_is_recoverable cant_open = false
reason_is_recoverable offline_permanent = false

pub data ChildState : Type 0 where
  init config_invalid opened closed : ChildState
  faulted : FaultReason → ChildState

unfoldable pub is_open_or_init : ChildState → Bool
is_open_or_init opened = true
is_open_or_init init = true
is_open_or_init config_invalid = true
is_open_or_init closed = false
is_open_or_init (faulted r) = false

unfoldable pub is_recoverable : ChildState → Bool
unfolding reason_is_recoverable
is_recoverable (faulted r) = reason_is_recoverable r
is_recoverable closed = true
is_recoverable init = false
is_recoverable config_invalid = false
is_recoverable opened = false

pub data ChildStateClient : Type 0 where
  init config_invalid opened closed out_of_sync : ChildStateClient
  faulted faulting : FaultReason → ChildStateClient

pub data ChildSyncState : Type 0 where
  synced out_of_sync : ChildSyncState

pub data ChildDestroyState : Type 0 where
  not_destroying destroying : ChildDestroyState

pub data ChildError : Type 0 where
  permanently_faulted child_faulted child_being_destroyed child_too_small : ChildError
  open_child child_inaccessible cannot_online_child child_bdev_create : ChildError

-- A block device, as far as a child asks it: its size, and whether it can be opened.
pub record ChildDevice : Type 0 where
  pub size_in_bytes : ℕ
  pub opens : Bool

-- Where a close waits: for the block device to be destroyed, for the first message about a removal,
-- or asleep, after so many tries.
pub data Closing : Type 0 where
  idle at_destroy at_recv : Closing
  at_sleep : ℕ → Closing

-- `removals` holds the messages of the channel, those of waiting senders behind them. A device
-- descriptor is only there or not.
pub record NexusChild : Type 0 where
  pub state : ChildState
  pub sync_state : ChildSyncState
  pub destroy_state : ChildDestroyState
  pub removals : List Bool
  pub device : Option ChildDevice
  pub device_descriptor : Bool
  pub closing : Closing

unfoldable pub new : Option ChildDevice → NexusChild
new device = record {
  state = ChildState.init;
  sync_state = synced;
  destroy_state = not_destroying;
  removals = [];
  device = device;
  device_descriptor = false;
  closing = idle;
}

abbrev pub is_destroying : NexusChild → Bool
is_destroying c = elim c.destroy_state [ not_destroying ↦ false | destroying ↦ true ]

abbrev pub is_opened : NexusChild → Bool
is_opened c = elim c.state [ ChildState.opened ↦ true | _ ↦ false ]

abbrev pub is_synced : NexusChild → Bool
is_synced c = elim c.sync_state [ synced ↦ true | ChildSyncState.out_of_sync ↦ false ]

abbrev pub is_opened_unsync : NexusChild → Bool
is_opened_unsync c = is_opened c && not (is_synced c)

abbrev pub is_healthy : NexusChild → Bool
is_healthy c = is_opened c && is_synced c

unfoldable pub set_faulted_state : FaultReason → NexusChild → NexusChild
set_faulted_state reason c = record c { state = ChildState.faulted reason }

unfoldable pub client_of : ChildState → Bool → ChildStateClient
client_of ChildState.init b = ChildStateClient.init
client_of ChildState.config_invalid b = ChildStateClient.config_invalid
client_of ChildState.opened b = ChildStateClient.opened
client_of ChildState.closed b = ChildStateClient.closed
client_of (ChildState.faulted r) b =
    if b then ChildStateClient.faulting r else ChildStateClient.faulted r

unfoldable pub state_client : NexusChild → ChildStateClient
unfolding client_of
state_client c =
    if is_opened_unsync c
    then ChildStateClient.out_of_sync
    else client_of c.state (is_destroying c || c.device_descriptor)

-- `open`, past the check of the state.
unfoldable pub open_device :
    ℕ
    → ChildSyncState
    → NexusChild
    → Option ChildDevice
    → NexusChild × Outcome ChildError (Unit {0})
unfolding set_faulted_state
open_device parent_size sync c none = (c, panic)
open_device parent_size sync c (some dev) =
    if ltb dev.size_in_bytes parent_size
    then (record c { state = ChildState.config_invalid }, err child_too_small)
    else if dev.opens
    then (
      record c { device_descriptor = true; state = ChildState.opened; sync_state = sync },
      ok tt,
    )
    else (set_faulted_state cant_open c, err open_child)

unfoldable pub open_in :
    ChildState → ℕ → ChildSyncState → NexusChild → NexusChild × Outcome ChildError (Unit {0})
unfolding open_device reason_is_recoverable
open_in (ChildState.faulted r) parent_size sync c =
    if not (reason_is_recoverable r)
    then (c, err child_faulted)
    else open_device parent_size sync c c.device
open_in ChildState.opened parent_size sync c =
    (c, if is_some c.device && c.device_descriptor then ok tt else panic)
open_in ChildState.init parent_size sync c = open_device parent_size sync c c.device
open_in ChildState.config_invalid parent_size sync c = open_device parent_size sync c c.device
open_in ChildState.closed parent_size sync c = open_device parent_size sync c c.device

unfoldable pub open_child_device :
    ℕ → ChildSyncState → NexusChild → NexusChild × Outcome ChildError (Unit {0})
unfolding open_in
open_child_device parent_size sync c =
    if is_destroying c then (c, err child_being_destroyed) else open_in c.state parent_size sync c

-- The answers of `device_create` and of `device_lookup`.
pub record Created : Type 0 where
  pub is_created : Bool
  pub found : Option ChildDevice

-- `online`, with the device that was looked up.
unfoldable pub online_device :
    ℕ → NexusChild → Option ChildDevice → NexusChild × Outcome ChildError (Unit {0})
unfolding open_child_device
online_device parent_size c none = (record c { device = none }, err child_inaccessible)
online_device parent_size c (some dev) =
    open_child_device parent_size ChildSyncState.out_of_sync (record c { device = some dev })

unfoldable pub online : ℕ → Created → NexusChild → NexusChild × Outcome ChildError (Unit {0})
unfolding online_device is_open_or_init is_recoverable
online parent_size answer c =
    if is_open_or_init c.state
    then (c, err cannot_online_child)
    else if is_destroying c
    then (c, err child_being_destroyed)
    else if not (is_recoverable c.state)
    then (c, err permanently_faulted)
    else if not answer.is_created
    then (c, err child_bdev_create)
    else online_device parent_size c answer.found

abbrev pub hot_removed : NexusChild → Bool
hot_removed c = is_opened c && not (is_destroying c)

-- `unplug` with `unplug_complete` at its end: the descriptor goes with the device.
unfoldable pub unplug : NexusChild → NexusChild
unplug c =
    let dropped = is_destroying c in
    let descriptor = if dropped then false else c.device_descriptor in
    record c {
      device = if dropped then none else c.device;
      state = if is_opened c then ChildState.closed else c.state;
      device_descriptor = descriptor;
      removals = c.removals ++ not descriptor ∷ [];
    }
