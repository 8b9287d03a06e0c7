-- ===== src/Rebuild/Tasks.antt =====
-- The pool of copy tasks and its counts: io-engine/src/rebuild/rebuild_task.rs. A task that was
-- scheduled is in flight until its result is taken from the channel; results come in any order.
use mayastor.Common.{
  ℕ, ◌≡◌, Bool, true, false, Option, none, some, List, [], ◌∷◌, ◌++◌, ◌==◌, ◌&&◌, if◌then◌else◌,
  ◌⊎◌,
}
use mayastor.Common.Words.{add64, sub64}
use mayastor.Rebuild.State.{RebuildError}

pub record TaskResult : Type 0 where
  pub id : ℕ
  pub blk : ℕ
  pub error : Option RebuildError
  pub is_transferred : Bool

-- `flight` holds the id and the block of each task that has yet to send its result.
pub record RebuildTasks : Type 0 where
  pub active : ℕ
  pub total : ℕ
  pub segments_done : ℕ
  pub segments_transferred : ℕ
  pub flight : List (ℕ × ℕ)

abbrev pub is_none : Option RebuildError → Bool
is_none none = true
is_none (some e) = false

-- `schedule_segment_rebuild`, and the count that its callers raise.
unfoldable pub schedule_segment_rebuild : RebuildTasks → ℕ → ℕ → RebuildTasks
schedule_segment_rebuild t id blk = record t {
  active = add64 t.active 1;
  flight = t.flight ++ (id, blk) ∷ [];
}

-- Takes one task with the id and block of a result out of flight.
unfoldable pub land : ℕ → ℕ → List (ℕ × ℕ) → List (ℕ × ℕ)
land id blk [] = []
land id blk ((i, b) ∷ flight) =
    let rest = land id blk flight in if i == id && b == blk then flight else (i, b) ∷ rest

-- The counts that `await_one_task` updates when a result has come.
unfoldable pub await_one_task : RebuildTasks → TaskResult → RebuildTasks
unfolding land
await_one_task t r =
    let landed = record t { active = sub64 t.active 1; flight = land r.id r.blk t.flight } in
    if is_none r.error
    then record landed {
      segments_done = add64 t.segments_done 1;
      segments_transferred =
          (if r.is_transferred then add64 t.segments_transferred 1 else t.segments_transferred);
    }
    else landed

-- A task of this id and block is in flight.
abbrev pub InFlight : ℕ → ℕ → List (ℕ × ℕ) → Type 0
InFlight id blk [] = ⊥
InFlight id blk ((i, b) ∷ flight) = ((i ≡ id) × (b ≡ blk)) ⊎ InFlight id blk flight
