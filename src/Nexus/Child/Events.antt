-- ===== src/Nexus/Child/Events.antt =====
-- bdev/nexus/nexus_child.rs: `close`, cut at its awaits, and what can happen to a child while one is
-- in flight.
use mayastor.Common.{is_some, ℕ, ◌+◌, List, [], ◌∷◌, Bool, true, false, not, ltb, if◌then◌else◌}
use mayastor.Nexus.Child.{
  FaultReason, ChildState, ChildSyncState, not_destroying, destroying, Closing, idle, at_destroy,
  at_recv, at_sleep, NexusChild, is_destroying, Created, set_faulted_state, open_child_device,
  online, unplug,
}

-- What a call of `close` has returned by an await.
pub data CloseResult : Type 0 where
  pending closed failed : CloseResult

unfoldable pub finish : CloseResult → NexusChild → NexusChild × CloseResult
finish result c = (record c { destroy_state = not_destroying; closing = idle }, result)

unfoldable pub close : NexusChild → NexusChild × CloseResult
unfolding finish
close c =
    if is_destroying c
    then (c, closed)
    else if not (is_some c.device)
    then (record c { destroy_state = not_destroying }, closed)
    else (record c { destroy_state = destroying; closing = at_destroy }, pending)

-- The wait for the removal, with the last message, the tries, and the messages of the channel.
unfoldable pub await_removal : Bool → ℕ → List Bool → NexusChild → NexusChild × CloseResult
unfolding finish
await_removal true tries messages c = finish closed (record c { removals = messages })
await_removal false tries [] c =
    if ltb tries 20
    then (record c { removals = []; closing = at_sleep tries }, pending)
    else finish closed (record c { removals = [] })
await_removal false tries (destroyed ∷ messages) c =
    let rest = await_removal destroyed tries messages c in
    if ltb tries 20 then rest else finish closed (record c { removals = destroyed ∷ messages })

abbrev pub is_init : NexusChild → Bool
is_init c = elim c.state [ ChildState.init ↦ true | _ ↦ false ]

-- What `close` does with the answer of `device_destroy`.
unfoldable pub device_destroyed : Bool → NexusChild → NexusChild × CloseResult
unfolding finish
device_destroyed false c = finish failed c
device_destroyed true c =
    if is_init c then finish closed c else (record c { closing = at_recv }, pending)

-- The first message, as far as there is one.
unfoldable pub receive : List Bool → NexusChild → NexusChild × CloseResult
unfolding await_removal
receive [] c = (c, pending)
receive (destroyed ∷ messages) c = await_removal destroyed 0 messages c

-- What happens to a child: a call, an answer that `close` waits for, or the removal of its device.
pub data ChildEvent : Type 0 where
  open_called : ℕ → ChildSyncState → ChildEvent
  online_called : ℕ → Created → ChildEvent
  fault_called : FaultReason → ChildEvent
  sync_called : ChildSyncState → ChildEvent
  close_called : ChildEvent
  destroy_answered : Bool → ChildEvent
  message_received : ChildEvent
  slept : ChildEvent
  unplugged : ChildEvent

-- An answer does something only where `close` waits for it.
unfoldable pub answered_at : Closing → Bool → NexusChild → NexusChild
unfolding device_destroyed
answered_at at_destroy result c = (device_destroyed result c).0
answered_at idle result c = c
answered_at at_recv result c = c
answered_at (at_sleep tries) result c = c

unfoldable pub received_at : Closing → NexusChild → NexusChild
unfolding receive
received_at at_recv c = (receive c.removals c).0
received_at idle c = c
received_at at_destroy c = c
received_at (at_sleep tries) c = c

unfoldable pub slept_at : Closing → NexusChild → NexusChild
unfolding await_removal
slept_at (at_sleep tries) c = (await_removal false (tries + 1) c.removals c).0
slept_at idle c = c
slept_at at_destroy c = c
slept_at at_recv c = c

unfoldable pub child_step : ChildEvent → NexusChild → NexusChild
unfolding open_child_device online set_faulted_state close unplug answered_at received_at slept_at
child_step (open_called parent_size sync) c = (open_child_device parent_size sync c).0
child_step (online_called parent_size answer) c = (online parent_size answer c).0
child_step (fault_called reason) c = set_faulted_state reason c
child_step (sync_called sync) c = record c { sync_state = sync }
child_step close_called c = (close c).0
child_step (destroy_answered result) c = answered_at c.closing result c
child_step message_received c = received_at c.closing c
child_step slept c = slept_at c.closing c
child_step unplugged c = unplug c

unfoldable pub child_run : List ChildEvent → NexusChild → NexusChild
unfolding child_step
child_run [] c = c
child_run (e ∷ es) c = child_run es (child_step e c)
