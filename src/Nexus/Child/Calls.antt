-- ===== src/Nexus/Child/Calls.antt =====
-- What the calls of a child can end in.
use mayastor.Common.{
  ℕ, List, false, not, Option, none, some, panic, Outcome, ◌≡◌, ◌≢◌, refl, arith, Bool-cases, inl,
  inr, if_both,
}
use mayastor.Nexus.Child.{
  ChildDevice, ChildState, ChildSyncState, ChildError, NexusChild, is_destroying, is_opened,
  Created, new, open_device, open_in, open_child_device, online_device, online, is_open_or_init,
  is_recoverable, reason_is_recoverable,
}
use mayastor.Nexus.Child.Events.{ChildEvent, child_run}
use mayastor.Nexus.Child.Invariant.{Inv, new-Inv, child_run-Inv, opened-open_or_init}

-- The call does not panic, or the child has no device.
abbrev Panicless : Option ChildDevice → NexusChild × Outcome ChildError (Unit {0}) → Type 0
Panicless d r = r.1 ≡ panic → d ≡ none

open_device-Panicless :
    (n : ℕ) (s : ChildSyncState) (c : NexusChild) (d : Option ChildDevice)
    → Panicless d (open_device n s c d)
unfolding open_device
open_device-Panicless n s c none h = refl
open_device-Panicless n s c (some dev) h = ground arith

open_in-Panicless :
    (st : ChildState) (n : ℕ) (s : ChildSyncState) (c : NexusChild)
    → c.state ≡ st
    → Inv c
    → Panicless c.device (open_in st n s c)
unfolding open_in
open_in-Panicless (ChildState.faulted r) n s c e inv =
    if_both (Panicless c.device) (not (reason_is_recoverable r)) (λ h. cc)
      (open_device-Panicless n s c c.device)
open_in-Panicless ChildState.opened n s c e inv = λ h. ground (arith, e, inv.usable, h)
open_in-Panicless ChildState.init n s c e inv = open_device-Panicless n s c c.device
open_in-Panicless ChildState.config_invalid n s c e inv = open_device-Panicless n s c c.device
open_in-Panicless ChildState.closed n s c e inv = open_device-Panicless n s c c.device

open-Panicless :
    (n : ℕ) (s : ChildSyncState) (c : NexusChild)
    → Inv c
    → Panicless c.device (open_child_device n s c)
unfolding open_child_device
open-Panicless n s c inv =
    if_both (Panicless c.device) (is_destroying c) (λ h. cc)
      (open_in-Panicless c.state n s c refl inv)

abbrev Settled : NexusChild × Outcome ChildError (Unit {0}) → Type 0
Settled r = r.1 ≢ panic

online_device-ne-panic :
    (n : ℕ) (c : NexusChild) (d : Option ChildDevice)
    → is_opened c ≡ false
    → Inv c
    → (online_device n c d).1 ≢ panic
unfolding online_device
online_device-ne-panic n c none e inv h = cc
online_device-ne-panic n c (some dev) e inv h = cc (
    open-Panicless n ChildSyncState.out_of_sync (record c { device = some dev })
      (record { usable = λ o. cc; in_flight = inv.in_flight }) h)

online-ne-panic : (n : ℕ) (a : Created) (c : NexusChild) → Inv c → (online n a c).1 ≢ panic
unfolding online
online-ne-panic n a c inv = elim (Bool-cases (is_open_or_init c.state)) [
  | inl e ↦ rw e (λ h. cc)
  | inr e ↦ rw e (
      if_both Settled (is_destroying c) (λ h. cc)
        (if_both Settled (not (is_recoverable c.state)) (λ h. cc)
          (if_both Settled (not a.is_created) (λ h. cc)
            (online_device-ne-panic n c a.found (opened-open_or_init c e) inv))))
]

-- Whatever happened to a child since it was made, a call of `open` panics only where the child has
-- no device, and a call of `online` never does.
pub calls_panic :
    (device : Option ChildDevice) (es : List ChildEvent) (n : ℕ) (s : ChildSyncState) (a : Created)
    → ((open_child_device n s (child_run es (new device))).1 ≡ panic
        → (child_run es (new device)).device ≡ none)
      × ((online n a (child_run es (new device))).1 ≢ panic)
calls_panic device es n s a =
    let inv = child_run-Inv es (new device) (new-Inv device) in
    (
      open-Panicless n s (child_run es (new device)) inv,
      online-ne-panic n a (child_run es (new device)) inv,
    )
