-- ===== src/Nexus/Child/Healthy.antt =====
-- A child that misses writes stays out of the healthy ones.
use mayastor.Common.{
  ℕ, List, [], ◌∷◌, Bool, true, false, not, Option, none, some, ltb, ◌≡◌, refl, arith, if_both, All,
}
use mayastor.Nexus.Child.{
  ChildDevice, ChildState, ChildSyncState, synced, NexusChild, is_destroying, is_healthy, Created,
  set_faulted_state, open_device, open_in, open_child_device, online_device, online, unplug,
  reason_is_recoverable, is_open_or_init, is_recoverable,
}
use mayastor.Nexus.Child.Events.{
  ChildEvent, open_called, online_called, fault_called, sync_called, close_called, destroy_answered,
  message_received, slept, unplugged, close, answered_at, received_at, slept_at, child_step,
  child_run,
}
use mayastor.Nexus.Child.Kept.{
  Leaves, close-SameStates, answered_at-Leaves, received_at-Leaves, slept_at-Leaves,
}

-- An event by which a nexus takes the child for synced.
unfoldable pub syncs : ChildEvent → Bool
syncs (open_called n s) = elim s [ synced ↦ true | ChildSyncState.out_of_sync ↦ false ]
syncs (sync_called s) = elim s [ synced ↦ true | ChildSyncState.out_of_sync ↦ false ]
syncs (fault_called r) = false
syncs (online_called n a) = false
syncs close_called = false
syncs (destroy_answered r) = false
syncs message_received = false
syncs slept = false
syncs unplugged = false

abbrev Unhealthy : NexusChild → Type 0
Unhealthy c = is_healthy c ≡ false

abbrev LeftUnhealthy {ℓ} : {R : Type ℓ} → NexusChild × R → Type 0
LeftUnhealthy r = Unhealthy r.0

Leaves-Unhealthy : (c d : NexusChild) → Leaves c d → Unhealthy c → Unhealthy d
Leaves-Unhealthy c d (hs, hy) h = rw (hs, hy) h

open_device-Unhealthy :
    (n : ℕ) (c : NexusChild) (d : Option ChildDevice)
    → Unhealthy c
    → Unhealthy (open_device n ChildSyncState.out_of_sync c d).0
unfolding open_device set_faulted_state
open_device-Unhealthy n c none h = h
open_device-Unhealthy n c (some dev) h =
    if_both LeftUnhealthy (ltb dev.size_in_bytes n) refl (if_both LeftUnhealthy dev.opens refl refl)

open_in-Unhealthy :
    (st : ChildState) (n : ℕ) (c : NexusChild)
    → Unhealthy c
    → Unhealthy (open_in st n ChildSyncState.out_of_sync c).0
unfolding open_in
open_in-Unhealthy (ChildState.faulted r) n c h =
    if_both LeftUnhealthy (not (reason_is_recoverable r)) h (open_device-Unhealthy n c c.device h)
open_in-Unhealthy ChildState.opened n c h = h
open_in-Unhealthy ChildState.init n c h = open_device-Unhealthy n c c.device h
open_in-Unhealthy ChildState.config_invalid n c h = open_device-Unhealthy n c c.device h
open_in-Unhealthy ChildState.closed n c h = open_device-Unhealthy n c c.device h

open-Unhealthy :
    (n : ℕ) (c : NexusChild)
    → Unhealthy c
    → Unhealthy (open_child_device n ChildSyncState.out_of_sync c).0
unfolding open_child_device
open-Unhealthy n c h = if_both LeftUnhealthy (is_destroying c) h (open_in-Unhealthy c.state n c h)

online_device-Unhealthy :
    (n : ℕ) (c : NexusChild) (d : Option ChildDevice)
    → Unhealthy c
    → Unhealthy (online_device n c d).0
unfolding online_device
online_device-Unhealthy n c none h = h
online_device-Unhealthy n c (some dev) h = open-Unhealthy n (record c { device = some dev }) h

online-Unhealthy : (n : ℕ) (a : Created) (c : NexusChild) → Unhealthy c → Unhealthy (online n a c).0
unfolding online
online-Unhealthy n a c h = if_both LeftUnhealthy (is_open_or_init c.state) h (
    if_both LeftUnhealthy (is_destroying c) h (
      if_both LeftUnhealthy (not (is_recoverable c.state)) h
        (if_both LeftUnhealthy (not a.is_created) h (online_device-Unhealthy n c a.found h))))

unplug-Unhealthy : (c : NexusChild) → Unhealthy (unplug c)
unfolding unplug
unplug-Unhealthy c = ground arith

child_step-Unhealthy :
    (e : ChildEvent) (c : NexusChild) → syncs e ≡ false → Unhealthy c → Unhealthy (child_step e c)
unfolding child_step syncs
child_step-Unhealthy (open_called n synced) c he h = cc
child_step-Unhealthy (open_called n ChildSyncState.out_of_sync) c he h = open-Unhealthy n c h
child_step-Unhealthy (online_called n a) c he h = online-Unhealthy n a c h
child_step-Unhealthy (fault_called q) c he h = unfold set_faulted_state in refl
child_step-Unhealthy (sync_called synced) c he h = cc
child_step-Unhealthy (sync_called ChildSyncState.out_of_sync) c he h = ground arith
child_step-Unhealthy close_called c he h = Leaves-Unhealthy c (close c).0 (close-SameStates c) h
child_step-Unhealthy (destroy_answered q) c he h =
    Leaves-Unhealthy c (answered_at c.closing q c) (answered_at-Leaves c.closing q c) h
child_step-Unhealthy message_received c he h =
    Leaves-Unhealthy c (received_at c.closing c) (received_at-Leaves c.closing c) h
child_step-Unhealthy slept c he h =
    Leaves-Unhealthy c (slept_at c.closing c) (slept_at-Leaves c.closing c) h
child_step-Unhealthy unplugged c he h = unplug-Unhealthy c

-- A child that is not healthy becomes so only by an event that says that it is synced: no event of
-- another kind, an online or a reopening as out of sync included, puts it among the healthy ones.
pub run-Unhealthy :
    (es : List ChildEvent) (c : NexusChild)
    → All (λ e. syncs e ≡ false) es
    → is_healthy c ≡ false
    → is_healthy (child_run es c) ≡ false
unfolding child_run
run-Unhealthy [] c he h = h
run-Unhealthy (e ∷ es) c (he, hes) h =
    run-Unhealthy es (child_step e c) hes (child_step-Unhealthy e c he h)
