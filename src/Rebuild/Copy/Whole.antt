-- ===== src/Rebuild/Copy/Whole.antt =====
-- A partial rebuild of a nexus, its walk with its copies.
use mayastor.Common.{ℕ, ◌-◌, ◌≤◌, ◌<◌, ◌≡◌, ok, some}
use mayastor.Core.BitVec.{BitVec}
use mayastor.Rebuild.Descriptor.{RebuildDescriptor}
use mayastor.Rebuild.Copy.{Handles}
use mayastor.Rebuild.Copy.Synced.{Laws, IsSynced, nexus_copier}
use mayastor.Rebuild.Partial.{World, PartialSeqRebuild, partial_seq_rebuild, drain, copy_all}
use mayastor.Rebuild.Partial.Step.{Inv, IsAligned}
use mayastor.Rebuild.Partial.Complete.{partial_rebuild_syncs}

-- With handles of the devices and locks of the nexus that behave as documented: if the map counts as
-- dirty every block of the range that is not in sync, its segments are those of the walk, and the
-- range is not reversed, a partial rebuild is made without a panic; and if all the copies of its walk
-- succeed, one after another, every block of the range then holds in the target what it holds in the
-- source, or the source has not allocated it.
pub nexus_rebuild_syncs :
    (V : BitVec) (h : Handles) (laws : Laws h) (d : RebuildDescriptor) (fuel : ℕ)
    (w : World V (nexus_copier h laws d))
    → Inv V (nexus_copier h laws d) w
    → IsAligned d d.range.start
    → d.range.start ≤ d.range.end
    → d.range.end - d.range.start < fuel
    → (r : PartialSeqRebuild V) × (partial_seq_rebuild V w.map d ≡ some r)
      × ((copy_all V (nexus_copier h laws d) w (drain V fuel r)).1 ≡ ok tt
          → (b : ℕ) → d.range.start ≤ b
          → b < d.range.end
          → IsSynced h (copy_all V (nexus_copier h laws d) w (drain V fuel r)).0.devices b)
nexus_rebuild_syncs V h laws d fuel w i a l f =
    partial_rebuild_syncs V (nexus_copier h laws d) fuel w i a l f
