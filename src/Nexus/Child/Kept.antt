-- ===== src/Nexus/Child/Kept.antt =====
-- The waits of a close leave the states of the child, and of its data, as they are.
use mayastor.Common.{
  is_some, ℕ, ◌+◌, List, [], ◌∷◌, Bool, true, false, not, ltb, ◌≡◌, refl, if_both,
}
use mayastor.Nexus.Child.{Closing, at_destroy, at_recv, at_sleep, idle, NexusChild, is_destroying}
use mayastor.Nexus.Child.Events.{
  CloseResult, finish, close, await_removal, device_destroyed, receive, answered_at, received_at,
  slept_at,
}

-- The waits of a close leave what a nexus sees of the child.
abbrev pub SameStates : NexusChild → NexusChild × CloseResult → Type 0
SameStates c r = (r.0.state ≡ c.state) × (r.0.sync_state ≡ c.sync_state)

pub await_removal-SameStates :
    (d : Bool) (n : ℕ) (ms : List Bool) (c : NexusChild) → SameStates c (await_removal d n ms c)
unfolding await_removal finish
await_removal-SameStates true n ms c = (refl, refl)
await_removal-SameStates false n [] c = if_both (SameStates c) (ltb n 20) (refl, refl) (refl, refl)
await_removal-SameStates false n (d ∷ ms) c =
    if_both (SameStates c) (ltb n 20) (await_removal-SameStates d n ms c) (refl, refl)

pub close-SameStates : (c : NexusChild) → SameStates c (close c)
unfolding close
close-SameStates c =
    if_both (SameStates c) (is_destroying c) (refl, refl)
      (if_both (SameStates c) (not (is_some c.device)) (refl, refl) (refl, refl))

pub device_destroyed-SameStates : (r : Bool) (c : NexusChild) → SameStates c (device_destroyed r c)
unfolding device_destroyed finish
device_destroyed-SameStates false c = (refl, refl)
device_destroyed-SameStates true c = if_both (SameStates c) _ (refl, refl) (refl, refl)

pub receive-SameStates : (ms : List Bool) (c : NexusChild) → SameStates c (receive ms c)
unfolding receive
receive-SameStates [] c = (refl, refl)
receive-SameStates (d ∷ ms) c = await_removal-SameStates d 0 ms c

abbrev pub Leaves : NexusChild → NexusChild → Type 0
Leaves c d = (d.state ≡ c.state) × (d.sync_state ≡ c.sync_state)

pub answered_at-Leaves : (at : Closing) (r : Bool) (c : NexusChild) → Leaves c (answered_at at r c)
unfolding answered_at
answered_at-Leaves at_destroy r c = device_destroyed-SameStates r c
answered_at-Leaves idle r c = (refl, refl)
answered_at-Leaves at_recv r c = (refl, refl)
answered_at-Leaves (at_sleep n) r c = (refl, refl)

pub received_at-Leaves : (at : Closing) (c : NexusChild) → Leaves c (received_at at c)
unfolding received_at
received_at-Leaves at_recv c = receive-SameStates c.removals c
received_at-Leaves idle c = (refl, refl)
received_at-Leaves at_destroy c = (refl, refl)
received_at-Leaves (at_sleep n) c = (refl, refl)

pub slept_at-Leaves : (at : Closing) (c : NexusChild) → Leaves c (slept_at at c)
unfolding slept_at
slept_at-Leaves (at_sleep n) c = await_removal-SameStates false (n + 1) c.removals c
slept_at-Leaves idle c = (refl, refl)
slept_at-Leaves at_destroy c = (refl, refl)
slept_at-Leaves at_recv c = (refl, refl)
