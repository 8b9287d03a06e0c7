-- ===== src/Nexus/Child/Invariant.antt =====
-- What holds of a child at all times: one that is open has a device and a descriptor, and a child is
-- being destroyed exactly while a close waits.
use mayastor.Common.{
  is_some, ℕ, ◌+◌, List, [], ◌∷◌, Bool, true, false, not, ◌&&◌, Option, none, some, ltb, ◌≡◌, refl,
  arith, ap, Bool-cases, inl, inr, if_both,
}
use mayastor.Nexus.Child.{
  ChildDevice, ChildState, ChildSyncState, Closing, idle, at_destroy, at_recv, at_sleep, NexusChild,
  is_destroying, is_opened, Created, new, set_faulted_state, open_device, open_in,
  open_child_device, online_device, online, unplug, FaultReason, is_open_or_init,
  reason_is_recoverable, cant_open, is_recoverable,
}
use mayastor.Nexus.Child.Events.{
  ChildEvent, open_called, online_called, fault_called, sync_called, close_called, destroy_answered,
  message_received, slept, unplugged, finish, close, await_removal, device_destroyed, receive,
  CloseResult, closed, failed, answered_at, received_at, slept_at, is_init, child_step, child_run,
}

abbrev pub is_closing : Closing → Bool
is_closing idle = false
is_closing at_destroy = true
is_closing at_recv = true
is_closing (at_sleep tries) = true

pub record Inv (c : NexusChild) : Type 0 where
  pub usable : is_opened c ≡ true → (is_some c.device && c.device_descriptor) ≡ true
  pub in_flight : is_destroying c ≡ is_closing c.closing

pub new-Inv : (device : Option ChildDevice) → Inv (new device)
unfolding new
new-Inv device = record { usable = λ h. cc; in_flight = refl }

-- The invariant of the child that a call leaves.
abbrev Keeps {ℓ} : {R : Type ℓ} → NexusChild × R → Type 0
Keeps r = Inv r.0

fault-Inv : (r : FaultReason) (c : NexusChild) → Inv c → Inv (set_faulted_state r c)
unfolding set_faulted_state
fault-Inv r c inv = record { usable = λ h. cc; in_flight = inv.in_flight }

open_device-Inv :
    (n : ℕ) (s : ChildSyncState) (c : NexusChild) (d : Option ChildDevice)
    → c.device ≡ d
    → Inv c
    → Inv (open_device n s c d).0
unfolding open_device
open_device-Inv n s c none h inv = inv
open_device-Inv n s c (some dev) h inv =
    if_both Keeps (ltb dev.size_in_bytes n) (record { usable = λ e. cc; in_flight = inv.in_flight })
      (if_both Keeps dev.opens (record { usable = λ e. rw h refl; in_flight = inv.in_flight })
        (fault-Inv cant_open c inv))

open_in-Inv :
    (st : ChildState) (n : ℕ) (s : ChildSyncState) (c : NexusChild)
    → Inv c
    → Inv (open_in st n s c).0
unfolding open_in
open_in-Inv (ChildState.faulted r) n s c inv =
    if_both Keeps (not (reason_is_recoverable r)) inv (open_device-Inv n s c c.device refl inv)
open_in-Inv ChildState.opened n s c inv = inv
open_in-Inv ChildState.init n s c inv = open_device-Inv n s c c.device refl inv
open_in-Inv ChildState.config_invalid n s c inv = open_device-Inv n s c c.device refl inv
open_in-Inv ChildState.closed n s c inv = open_device-Inv n s c c.device refl inv

open-Inv : (n : ℕ) (s : ChildSyncState) (c : NexusChild) → Inv c → Inv (open_child_device n s c).0
unfolding open_child_device
open-Inv n s c inv = if_both Keeps (is_destroying c) inv (open_in-Inv c.state n s c inv)

online_device-Inv :
    (n : ℕ) (c : NexusChild) (d : Option ChildDevice)
    → is_opened c ≡ false
    → Inv c
    → Inv (online_device n c d).0
unfolding online_device
online_device-Inv n c none h inv = record { usable = λ e. cc; in_flight = inv.in_flight }
online_device-Inv n c (some dev) h inv =
    open-Inv n ChildSyncState.out_of_sync (record c { device = some dev })
      (record { usable = λ e. cc; in_flight = inv.in_flight })

pub opened-open_or_init : (c : NexusChild) → is_open_or_init c.state ≡ false → is_opened c ≡ false
unfolding is_open_or_init
opened-open_or_init c h = ground arith

online-Inv : (n : ℕ) (a : Created) (c : NexusChild) → Inv c → Inv (online n a c).0
unfolding online
online-Inv n a c inv = elim (Bool-cases (is_open_or_init c.state)) [
  | inl e ↦ rw e inv
  | inr e ↦ rw e (
      if_both Keeps (is_destroying c) inv (
        if_both Keeps (not (is_recoverable c.state)) inv (
          if_both Keeps (not a.is_created) inv
            (online_device-Inv n c a.found (opened-open_or_init c e) inv))))
]

-- What a close in flight needs of the child.
abbrev IsUsable : NexusChild → Type 0
IsUsable c = is_opened c ≡ true → (is_some c.device && c.device_descriptor) ≡ true

finish-Inv : (r : CloseResult) (c : NexusChild) → IsUsable c → Inv (finish r c).0
unfolding finish
finish-Inv r c h = record { usable = h; in_flight = refl }

await_removal-Inv :
    (d : Bool) (n : ℕ) (ms : List Bool) (c : NexusChild)
    → IsUsable c
    → is_destroying c ≡ true
    → Inv (await_removal d n ms c).0
unfolding await_removal
await_removal-Inv true n ms c h k = finish-Inv closed (record c { removals = ms }) h
await_removal-Inv false n [] c h k =
    if_both Keeps (ltb n 20) (record { usable = h; in_flight = k })
      (finish-Inv closed (record c { removals = [] }) h)
await_removal-Inv false n (d ∷ ms) c h k =
    if_both Keeps (ltb n 20) (await_removal-Inv d n ms c h k)
      (finish-Inv closed (record c { removals = d ∷ ms }) h)

device_destroyed-Inv :
    (r : Bool) (c : NexusChild) → IsUsable c → is_destroying c ≡ true → Inv (device_destroyed r c).0
unfolding device_destroyed
device_destroyed-Inv false c h k = finish-Inv failed c h
device_destroyed-Inv true c h k =
    if_both Keeps (is_init c) (finish-Inv closed c h) (record { usable = h; in_flight = k })

receive-Inv :
    (ms : List Bool) (c : NexusChild) → Inv c → is_destroying c ≡ true → Inv (receive ms c).0
unfolding receive
receive-Inv [] c inv k = inv
receive-Inv (d ∷ ms) c inv k = await_removal-Inv d 0 ms c inv.usable k

close-Inv : (c : NexusChild) → Inv c → Inv (close c).0
unfolding close
close-Inv c inv = elim (Bool-cases (is_destroying c)) [
  | inl e ↦ rw e inv
  | inr e ↦ rw e (
      if_both Keeps (not (is_some c.device))
        (record { usable = inv.usable; in_flight = cc (e, inv.in_flight) })
        (record { usable = inv.usable; in_flight = refl }))
]

unplug-Inv : (c : NexusChild) → Inv c → Inv (unplug c)
unfolding unplug
unplug-Inv c inv = record { usable = λ e. ground (arith, inv.usable); in_flight = inv.in_flight }

pub is_destroying_at :
    (at : Closing) (c : NexusChild) → c.closing ≡ at → Inv c → is_destroying c ≡ is_closing at
is_destroying_at at c h inv = cc (inv.in_flight, ap is_closing h)

answered_at-Inv :
    (at : Closing) (r : Bool) (c : NexusChild) → c.closing ≡ at → Inv c → Inv (answered_at at r c)
unfolding answered_at
answered_at-Inv at_destroy r c h inv =
    device_destroyed-Inv r c inv.usable (is_destroying_at at_destroy c h inv)
answered_at-Inv idle r c h inv = inv
answered_at-Inv at_recv r c h inv = inv
answered_at-Inv (at_sleep n) r c h inv = inv

received_at-Inv : (at : Closing) (c : NexusChild) → c.closing ≡ at → Inv c → Inv (received_at at c)
unfolding received_at
received_at-Inv at_recv c h inv = receive-Inv c.removals c inv (is_destroying_at at_recv c h inv)
received_at-Inv idle c h inv = inv
received_at-Inv at_destroy c h inv = inv
received_at-Inv (at_sleep n) c h inv = inv

slept_at-Inv : (at : Closing) (c : NexusChild) → c.closing ≡ at → Inv c → Inv (slept_at at c)
unfolding slept_at
slept_at-Inv (at_sleep n) c h inv =
    await_removal-Inv false (n + 1) c.removals c inv.usable (is_destroying_at (at_sleep n) c h inv)
slept_at-Inv idle c h inv = inv
slept_at-Inv at_destroy c h inv = inv
slept_at-Inv at_recv c h inv = inv

-- Every event keeps the invariant.
pub child_step-Inv : (e : ChildEvent) (c : NexusChild) → Inv c → Inv (child_step e c)
unfolding child_step
child_step-Inv (open_called n s) c inv = open-Inv n s c inv
child_step-Inv (online_called n a) c inv = online-Inv n a c inv
child_step-Inv (fault_called r) c inv = fault-Inv r c inv
child_step-Inv (sync_called s) c inv = record { usable = inv.usable; in_flight = inv.in_flight }
child_step-Inv close_called c inv = close-Inv c inv
child_step-Inv (destroy_answered r) c inv = answered_at-Inv c.closing r c refl inv
child_step-Inv message_received c inv = received_at-Inv c.closing c refl inv
child_step-Inv slept c inv = slept_at-Inv c.closing c refl inv
child_step-Inv unplugged c inv = unplug-Inv c inv

-- Whatever happens to a child that a nexus makes, the invariant holds.
pub child_run-Inv : (es : List ChildEvent) (c : NexusChild) → Inv c → Inv (child_run es c)
unfolding child_run
child_run-Inv [] c inv = inv
child_run-Inv (e ∷ es) c inv = child_run-Inv es (child_step e c) (child_step-Inv e c inv)
