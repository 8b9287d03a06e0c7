-- ===== src/Rebuild/Partial.antt =====
-- The rebuild map and the copier that skips clean segments: io-engine/src/rebuild/rebuild_map.rs and
-- `PartialSeqCopier` and `PartialSeqRebuild` of rebuilders.rs. The copier below it is an interface.
pub mod Step
pub mod Complete
mod Tests
use Prim.Native.String.{String}
use mayastor.Common.{
  ℕ, zero, suc, ◌+◌, ◌≤◌, ◌<◌, ◌≡◌, Bool, true, false, not, Option, none, some, List, [], ◌∷◌,
  Outcome, ok, err, panic,
}
use mayastor.Core.BitVec.{BitVec}
use mayastor.Core.SegmentMap.{SegmentMap, set, get_bit}
use mayastor.Core.SegmentMap as Segments
use mayastor.Rebuild.State.{RebuildError}
use mayastor.Rebuild.Descriptor.{RebuildDescriptor, get_segment_size_blks}
use mayastor.Rebuild.Walk.{PeekableIterator, step_by, peekable, peekable_next}

-- `RebuildTaskCopier`: a copy of the segment at a block changes the devices `Devices`; `Synced` says
-- of a block that it needs no copy. A copy that succeeds, whether it wrote or found its segment not
-- allocated, leaves the blocks of its segment so, and no copy takes a block out of sync. The copier of
-- the nexus, in Copy/Synced, implements this.
pub record TaskCopier (d : RebuildDescriptor) : Type 1 where
  pub Devices : Type 0
  pub copy : Devices → ℕ → Devices × Outcome RebuildError Bool
  pub Synced : Devices → ℕ → Type 0
  pub copy_syncs :
      (s s' : Devices) (blk b : ℕ) (t : Bool)
      → copy s blk ≡ (s', ok t)
      → blk ≤ b
      → b < blk + get_segment_size_blks d blk
      → Synced s' b
  pub copy_keeps : (s : Devices) (blk b : ℕ) → Synced s b → Synced (copy s blk).0 b

module _ (V : BitVec) where
  pub record RebuildMap : Type 0 where
    pub device_name : String
    pub segments : SegmentMap V

  not_clean : Option Bool → Bool
  not_clean none = false
  not_clean (some v) = not v

  -- Beyond its segments the map counts no block as clean.
  unfoldable pub is_blk_clean : RebuildMap → ℕ → Option Bool
  unfolding not_clean
  is_blk_clean m lbn = elim (get_bit V m.segments lbn) [ none ↦ none | some v ↦ some (not_clean v) ]

  unfoldable pub blk_clean : RebuildMap → ℕ → Option RebuildMap
  blk_clean m lbn = elim (set V m.segments lbn 1 false) [
    | none ↦ none
    | some s ↦ some (record m { segments = s })
  ]

  unfoldable pub count_dirty_blks : RebuildMap → Option ℕ
  count_dirty_blks m = Segments.count_dirty_blks V m.segments

  pub record PartialSeqRebuild : Type 0 where
    pub walk : PeekableIterator
    pub map : RebuildMap
    pub desc : RebuildDescriptor

  unfoldable pub partial_seq_rebuild : RebuildMap → RebuildDescriptor → Option PartialSeqRebuild
  unfolding step_by peekable
  partial_seq_rebuild m d = elim (step_by d.range d.segment_size_blks) [
    | none ↦ none
    | some it ↦ some (record { walk = peekable it; map = m; desc = d })
  ]

  unfoldable pub next : PartialSeqRebuild → PartialSeqRebuild × Option ℕ
  unfolding peekable_next
  next r = let (w, blk) = peekable_next r.walk in (record r { walk = w }, blk)

  -- The blocks that `next` gives out until it gives none, on fuel.
  unfoldable pub drain : ℕ → PartialSeqRebuild → List ℕ
  unfolding next
  drain zero r = []
  drain (suc fuel) r =
      let rest = drain fuel (next r).0 in elim (next r).1 [ none ↦ [] | some blk ↦ blk ∷ rest ]

  unfoldable pub blocks_remaining : PartialSeqRebuild → Option ℕ
  unfolding count_dirty_blks
  blocks_remaining r = count_dirty_blks r.map

module _ (V : BitVec) {d : RebuildDescriptor} (c : TaskCopier d) where
  open c use {Devices, copy}

  -- The map, behind its lock, and the devices.
  pub record World : Type 0 where
    pub map : RebuildMap V
    pub devices : c.Devices

  -- The mark in the map after a copy that succeeded.
  mark : World → ℕ → Bool → World × Outcome RebuildError Bool
  mark w blk t = elim (blk_clean V w.map blk) [
    | none ↦ (w, panic)
    | some m ↦ (record w { map = m }, ok t)
  ]

  copied : World → ℕ → Devices × Outcome RebuildError Bool → World × Outcome RebuildError Bool
  unfolding mark
  copied w blk (s, ok t) = mark (record w { devices = s }) blk t
  copied w blk (s, err e) = (record w { devices = s }, err e)
  copied w blk (s, panic) = (record w { devices = s }, panic)

  unless_clean : World → ℕ → Option Bool → World × Outcome RebuildError Bool
  unfolding copied
  unless_clean w blk none = (w, panic)
  unless_clean w blk (some true) = (w, ok false)
  unless_clean w blk (some false) = copied w blk (copy w.devices blk)

  -- `PartialSeqCopier::copy_segment`.
  unfoldable pub copy_segment : World → ℕ → World × Outcome RebuildError Bool
  unfolding unless_clean
  copy_segment w blk = unless_clean w blk (is_blk_clean V w.map blk)

  copy_rest :
      (World → World × Outcome RebuildError (Unit {0}))
      → World × Outcome RebuildError Bool
      → World × Outcome RebuildError (Unit {0})
  copy_rest k (w, ok t) = k w
  copy_rest k (w, err e) = (w, err e)
  copy_rest k (w, panic) = (w, panic)

  -- The copies of a list of segments, one after another, up to the first that fails.
  unfoldable pub copy_all : World → List ℕ → World × Outcome RebuildError (Unit {0})
  unfolding copy_rest
  copy_all w [] = (w, ok tt)
  copy_all w (blk ∷ blks) = copy_rest (λ w'. copy_all w' blks) (copy_segment w blk)
