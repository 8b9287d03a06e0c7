-- ===== src/Nexus/Io/Invariant.antt =====
-- bdev/nexus/nexus_io.rs: what holds of an I/O between two events.
use mayastor.Common.{
  ◌+◌, ◌<◌, List, ◌∷◌, true, false, ◌||◌, ◌≡◌, ◌≢◌, inl, inr, refl, arith, Bool-cases, length,
}
use mayastor.Common.Words.{add8, sub8, add8_exact, sub8_exact}
use mayastor.Common.Text.{Text, same_text}
use mayastor.Nexus.Io.{
  Fate, at_work, frozen, completed, failed_io, NexusChannel, NexusBio, mem, remove_first,
}
use mayastor.Nexus.Io.Events.{is_at_work, is_frozen_io}
use mayastor.Nexus.Io.Devices.{
  or_true, or_false, mem_empty, length-remove_first, mem-remove_first, mem-length,
}

pub at_work_over : (f : Fate) → f ≡ at_work → f ≡ failed_io → ⊥
at_work_over f h g = cc

pub at_work_frozen : (f : Fate) → f ≡ at_work → f ≡ frozen → ⊥
at_work_frozen f h g = cc

pub completed_works : completed ≢ at_work
completed_works h = cc

-- Each device of a list is in one of two others.
abbrev pub Covers : List Text → List Text → List Text → Type 0
Covers all some_of others = (d : Text) → mem d all ≡ true → (mem d some_of || mem d others) ≡ true

pub record Inv (b : NexusBio) : Type 0 where
  pub counts : b.fate ≡ at_work → b.in_flight ≡ length b.pending
  pub waits : b.fate ≡ at_work → b.failed ≡ 0 → Covers b.attempted b.written b.pending
  pub few : length b.channel.writers < 256
  pub bounded : b.fate ≡ at_work → b.failed + length b.pending < 256
  pub idle : b.fate ≡ frozen → b.failed ≡ 0
  pub done : b.fate ≡ completed → (d : Text) → mem d b.attempted ≡ true → mem d b.written ≡ true

pub covers_sent :
    {sent all : List Text} → sent ≡ all → (written : List Text) → Covers all written sent
covers_sent {sent = sent} {all = all} e written d m =
    let here : mem d sent ≡ true = rw e m in rw here (or_true (mem d written))

pub over-Inv : (b : NexusBio) → b.fate ≡ failed_io → length b.channel.writers < 256 → Inv b
over-Inv b f n = record {
  counts = λ h. cc;
  waits = λ h _. cc;
  few = n;
  bounded = λ h. absurd (at_work_over b.fate h f);
  idle = λ h. cc;
  done = λ h _ _. cc;
}

pub frozen-Inv :
    (b : NexusBio) → b.fate ≡ frozen → b.failed ≡ 0 → length b.channel.writers < 256 → Inv b
frozen-Inv b f z n = record {
  counts = λ h. cc;
  waits = λ h _. cc;
  few = n;
  bounded = λ h. absurd (at_work_frozen b.fate h f);
  idle = λ _. z;
  done = λ h _ _. cc;
}

pub moved :
    (d x : Text) (b : NexusBio)
    → (mem x b.written || mem x b.pending) ≡ true
    → (mem x (d ∷ b.written) || mem x (remove_first d b.pending)) ≡ true
unfolding mem
moved d x b h = elim (Bool-cases (mem x b.written)) [
  | inl k ↦ rw k (rw (or_true (same_text d x)) refl)
  | inr k ↦ rw k (rw (or_false (same_text d x)) (mem-remove_first d x b.pending (rw k at h)))
]

pub all_written :
    (x : Text) (b : NexusBio)
    → (mem x b.written || mem x b.pending) ≡ true
    → length b.pending ≡ 0
    → mem x b.written ≡ true
all_written x b h z =
    let e : (mem x b.written || false) ≡ true = rw (mem_empty x b.pending z) at h in
    rw (or_false (mem x b.written)) at e

pub frozen_is : (f : Fate) → is_frozen_io f ≡ true → f ≡ frozen
frozen_is at_work h = cc
frozen_is frozen h = refl
frozen_is completed h = cc
frozen_is failed_io h = cc

pub work_is : (f : Fate) → is_at_work f ≡ true → f ≡ at_work
work_is at_work h = refl
work_is frozen h = cc
work_is completed h = cc
work_is failed_io h = cc

pub failure_Inv :
    (d : Text) (b : NexusBio) (ch : NexusChannel)
    → Inv b
    → b.fate ≡ at_work
    → mem d b.pending ≡ true
    → ch.writers ≡ b.channel.writers
    → Inv (record b {
      in_flight = sub8 b.in_flight 1;
      failed = add8 b.failed 1;
      pending = remove_first d b.pending;
      channel = ch;
    })
failure_Inv d b ch i w m e =
    let n = i.bounded w in
    let c = i.counts w in
    let less = length-remove_first d b.pending m in
    let some_left = mem-length d b.pending m in
    let raised = add8_exact b.failed 1 (omega (arith, n, some_left)) in
    let lowered = sub8_exact b.in_flight 1 (omega (arith, c, some_left)) (omega (arith, c, n)) in
    record {
      counts = λ _. omega (arith, lowered, less, c);
      waits = λ _ none_failed. absurd (omega (arith, none_failed, raised));
      few = rw e i.few;
      bounded = λ _. omega (arith, n, less, raised, some_left);
      idle = λ h. absurd (at_work_frozen b.fate w h);
      done = λ h _ _. cc;
    }
