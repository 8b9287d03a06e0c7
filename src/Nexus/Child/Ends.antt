-- ===== src/Nexus/Child/Ends.antt =====
-- A close that has heard of a removal comes to an end.
use mayastor.Common.{
  ℕ, suc, ◌+◌, ◌≤◌, ◌<◌, List, [], ◌∷◌, Bool, true, false, ◌||◌, if◌then◌else◌, ltb, ◌⊎◌, inl, inr,
  Bool-cases, ◌≡◌, refl, arith, if_both,
}
use mayastor.Nexus.Child.{
  ChildSyncState, Closing, idle, at_destroy, at_recv, at_sleep, NexusChild, is_destroying, Created,
  set_faulted_state, open_child_device, online, unplug, is_open_or_init,
}
use mayastor.Nexus.Child.Events.{
  ChildEvent, open_called, online_called, fault_called, sync_called, close_called, destroy_answered,
  message_received, slept, unplugged, CloseResult, finish, close, await_removal, receive,
  answered_at, received_at, slept_at, child_step,
}
use mayastor.Nexus.Child.Invariant.{Inv, child_step-Inv, is_destroying_at}

abbrev pub is_idle : Closing → Bool
is_idle idle = true
is_idle at_destroy = false
is_idle at_recv = false
is_idle (at_sleep tries) = false

abbrev pub is_slept : ChildEvent → Bool
is_slept slept = true
is_slept (open_called n s) = false
is_slept (online_called n a) = false
is_slept (fault_called r) = false
is_slept (sync_called s) = false
is_slept close_called = false
is_slept (destroy_answered r) = false
is_slept message_received = false
is_slept unplugged = false

-- How many sleeps of a close end among the events.
abbrev pub sleeps : List ChildEvent → ℕ
sleeps [] = 0
sleeps (e ∷ es) = let rest = sleeps es in if is_slept e then suc rest else rest

-- Some time in a child_run, no close is in flight.
unfoldable pub gets_idle : List ChildEvent → NexusChild → Bool
unfolding child_step
gets_idle [] c = is_idle c.closing
gets_idle (e ∷ es) c = let rest = gets_idle es (child_step e c) in is_idle c.closing || rest

-- The close has ended, or it sleeps, with tries to spare.
abbrev Waits : ℕ → NexusChild × CloseResult → Type 0
Waits n r = (r.0.closing ≡ idle) ⊎ ((r.0.closing ≡ at_sleep n) × (n < 20))

await_removal-Waits :
    (d : Bool) (n : ℕ) (ms : List Bool) (c : NexusChild) → Waits n (await_removal d n ms c)
unfolding await_removal finish
await_removal-Waits true n ms c = inl refl
await_removal-Waits false n [] c = elim (Bool-cases (ltb n 20)) [
  | inl e ↦ rw e (inr (refl, ground (arith, e)))
  | inr e ↦ rw e (inl refl)
]
await_removal-Waits false n (d ∷ ms) c =
    if_both (Waits n) (ltb n 20) (await_removal-Waits d n ms c) (inl refl)

-- While a close waits, the calls leave the child to it.
open_destroying :
    (n : ℕ) (s : ChildSyncState) (c : NexusChild)
    → is_destroying c ≡ true
    → (open_child_device n s c).0 ≡ c
unfolding open_child_device
open_destroying n s c h = rw h refl

online_destroying :
    (n : ℕ) (a : Created) (c : NexusChild) → is_destroying c ≡ true → (online n a c).0 ≡ c
unfolding online
online_destroying n a c h =
    if_both (λ (r : NexusChild × _). r.0 ≡ c) (is_open_or_init c.state) refl (rw h refl)

close_destroying : (c : NexusChild) → is_destroying c ≡ true → (close c).0 ≡ c
unfolding close
close_destroying c h = rw h refl

-- An event other than the end of a sleep leaves a sleeping close asleep.
step_asleep :
    (e : ChildEvent) (c : NexusChild) (t : ℕ)
    → is_destroying c ≡ true
    → c.closing ≡ at_sleep t
    → is_slept e ≡ false
    → (child_step e c).closing ≡ at_sleep t
unfolding child_step
step_asleep (open_called n s) c t d h k = rw (open_destroying n s c d) h
step_asleep (online_called n a) c t d h k = rw (online_destroying n a c d) h
step_asleep (fault_called r) c t d h k = unfold set_faulted_state in h
step_asleep (sync_called s) c t d h k = h
step_asleep close_called c t d h k = rw (close_destroying c d) h
step_asleep (destroy_answered r) c t d h k = simp (h, answered_at) refl
step_asleep message_received c t d h k = simp (h, received_at) refl
step_asleep slept c t d h k = cc
step_asleep unplugged c t d h k = unfold unplug in h

step_slept :
    (c : NexusChild) (t : ℕ)
    → c.closing ≡ at_sleep t
    → ((child_step slept c).closing ≡ idle)
      ⊎ (((child_step slept c).closing ≡ at_sleep (t + 1)) × (t + 1 < 20))
unfolding child_step
step_slept c t h = simp (h, slept_at) (await_removal-Waits false (t + 1) c.removals c)

gets_idle_now : (es : List ChildEvent) (c : NexusChild) → c.closing ≡ idle → gets_idle es c ≡ true
unfolding gets_idle
gets_idle_now [] c h = rw h refl
gets_idle_now (e ∷ es) c h = rw h refl

gets_idle_later :
    (e : ChildEvent) (es : List ChildEvent) (c : NexusChild)
    → gets_idle es (child_step e c) ≡ true
    → gets_idle (e ∷ es) c ≡ true
unfolding gets_idle
gets_idle_later e es c h = ground (arith, h)

-- The end of a sleep, where what follows is known of every child that sleeps.
sleep_ends :
    (e : ChildEvent) (es : List ChildEvent) (c : NexusChild) (t : ℕ)
    → Inv c
    → c.closing ≡ at_sleep t
    → is_slept e ≡ true
    → 20 ≤ t + sleeps (e ∷ es)
    → ((d : NexusChild) (u : ℕ)
        → Inv d
        → d.closing ≡ at_sleep u
        → u < 20
        → 20 ≤ u + sleeps es
        → gets_idle es d ≡ true)
    → gets_idle es (child_step e c) ≡ true
sleep_ends slept es c t inv h k enough ih = elim (step_slept c t h) [
  | inl i ↦ gets_idle_now es (child_step slept c) i
  | inr (i, lt) ↦
      ih (child_step slept c) (t + 1) (child_step-Inv slept c inv) i lt (omega (arith, enough))
]
sleep_ends (open_called n s) es c t inv h k enough ih = cc
sleep_ends (online_called n a) es c t inv h k enough ih = cc
sleep_ends (fault_called r) es c t inv h k enough ih = cc
sleep_ends (sync_called s) es c t inv h k enough ih = cc
sleep_ends close_called es c t inv h k enough ih = cc
sleep_ends (destroy_answered r) es c t inv h k enough ih = cc
sleep_ends message_received es c t inv h k enough ih = cc
sleep_ends unplugged es c t inv h k enough ih = cc

-- Twenty sleeps are enough, whatever happens between them.
sleeps_end :
    (es : List ChildEvent) (c : NexusChild) (t : ℕ)
    → Inv c
    → c.closing ≡ at_sleep t
    → t < 20
    → 20 ≤ t + sleeps es
    → gets_idle es c ≡ true
sleeps_end [] c t inv h lt enough = absurd (omega arith)
sleeps_end (e ∷ es) c t inv h lt enough = elim (Bool-cases (is_slept e)) [
  | inl k ↦ gets_idle_later e es c (sleep_ends e es c t inv h k enough (sleeps_end es))
  | inr k ↦ gets_idle_later e es c (
      sleeps_end es (child_step e c) t (child_step-Inv e c inv)
        (step_asleep e c t (is_destroying_at (at_sleep t) c h inv) h k) lt (rw k at enough))
]

received-Waits :
    (c : NexusChild) (d : Bool) (ms : List Bool)
    → c.closing ≡ at_recv
    → c.removals ≡ d ∷ ms
    → ((child_step message_received c).closing ≡ idle)
      ⊎ (((child_step message_received c).closing ≡ at_sleep 0) × (0 < 20))
unfolding child_step receive
received-Waits c d ms h k = simp (h, received_at, k, receive) (await_removal-Waits d 0 ms c)

-- A close that waits for the removal of its device ends, once it has received a message and slept
-- twenty times, whatever the message says and whatever else happens to the child meanwhile.
pub close_ends :
    (c : NexusChild) (destroyed : Bool) (ms : List Bool) (es : List ChildEvent)
    → Inv c
    → c.closing ≡ at_recv
    → c.removals ≡ destroyed ∷ ms
    → 20 ≤ sleeps es
    → gets_idle es (child_step message_received c) ≡ true
close_ends c d ms es inv h k enough = elim (received-Waits c d ms h k) [
  | inl i ↦ gets_idle_now es (child_step message_received c) i
  | inr (i, lt) ↦
      sleeps_end es (child_step message_received c) 0 (child_step-Inv message_received c inv) i lt
        (omega (arith, enough))
]
