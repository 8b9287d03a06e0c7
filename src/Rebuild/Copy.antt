-- ===== src/Rebuild/Copy.antt =====
-- The copy of one segment: `copy_one` of io-engine/src/rebuild/rebuild_task.rs, the reads, the write
-- and the verification of rebuild_descriptor.rs, and the locked copy of nexus_rebuild.rs. The handles
-- of the two devices and the lock of the nexus are a parameter.
pub mod Synced
pub mod Whole
mod Tests
use Prim.Native.String.{String}
use mayastor.Common.{
  ℕ, ◌-◌, ◌*◌, ◌≤◌, ◌<◌, ◌≡◌, ◌⊎◌, Bool, true, false, Outcome, ok, err, panic, leb, if◌then◌else◌,
}
use mayastor.Rebuild.State.{
  RebuildError, read_io_failed, write_io_failed, verify_io_failed, verify_compare_failed,
  range_lock_failed, range_unlock_failed,
}
use mayastor.Rebuild.Descriptor.{
  RebuildDescriptor, RebuildVerifyMode, ignore, fails, panics, ReadOptions, normal,
  get_segment_size_blks,
}

-- What a handle answers to a read, with the contents of the blocks; and to a comparison.
pub data ReadAnswer : Type 0 where
  got : (ℕ → ℕ) → ReadAnswer
  unwritten read_error : ReadAnswer

pub data CompareAnswer : Type 0 where
  same differs compare_error : CompareAnswer

-- The devices: the contents of the blocks of the source and of the target, and which blocks the source
-- has allocated.
pub record Handles : Type 1 where
  pub S : Type 0
  pub source : S → ℕ → ℕ
  pub allocated : S → ℕ → Bool
  pub target : S → ℕ → ℕ
  pub src_uri : String
  pub dst_uri : String
  pub buffer_len : ℕ
  pub read : ReadOptions → ℕ → ℕ → S → S × ReadAnswer
  pub write : ℕ → ℕ → (ℕ → ℕ) → S → S × Bool
  pub compare : ℕ → ℕ → (ℕ → ℕ) → S → S × CompareAnswer
  pub lock : ℕ → ℕ → S → S × Bool
  pub unlock : ℕ → ℕ → S → S × Bool

module _ (h : Handles) (d : RebuildDescriptor) where
  open h use {S}

  -- `verify_failure`.
  unfoldable pub verify_failure : ℕ → RebuildVerifyMode → Outcome RebuildError Bool
  verify_failure blk ignore = ok true
  verify_failure blk fails = err (verify_compare_failed h.dst_uri blk)
  verify_failure blk panics = panic

  unfoldable pub after_compare : ℕ → h.S × CompareAnswer → h.S × Outcome RebuildError Bool
  unfolding verify_failure
  after_compare blk (s, same) = (s, ok true)
  after_compare blk (s, differs) = (s, verify_failure blk d.verify_mode)
  after_compare blk (s, compare_error) = (s, err (verify_io_failed h.dst_uri))

  unfoldable pub after_reread : ℕ → h.S × ReadAnswer → h.S × Outcome RebuildError Bool
  unfolding after_compare
  after_reread blk (s, got f) = after_compare blk (h.compare blk (get_segment_size_blks d blk) f s)
  after_reread blk (s, unwritten) = (s, err (verify_io_failed h.dst_uri))
  after_reread blk (s, read_error) = (s, err (verify_io_failed h.dst_uri))

  -- `verify_segment`: reads the source again, and compares.
  unfoldable pub verify_segment : ℕ → h.S → h.S × Outcome RebuildError Bool
  unfolding after_reread
  verify_segment blk s = after_reread blk (h.read normal blk (get_segment_size_blks d blk) s)

  unfoldable pub verified : RebuildVerifyMode → ℕ → h.S → h.S × Outcome RebuildError Bool
  unfolding verify_segment
  verified ignore blk s = (s, ok true)
  verified fails blk s = verify_segment blk s
  verified panics blk s = verify_segment blk s

  -- `write_dst_segment`, and what follows it.
  unfoldable pub after_write : ℕ → h.S × Bool → h.S × Outcome RebuildError Bool
  unfolding verified
  after_write blk (s, true) = verified d.verify_mode blk s
  after_write blk (s, false) = (s, err (write_io_failed h.dst_uri))

  -- `read_src_segment`, and what follows it: a segment that is not allocated is not written.
  unfoldable pub after_read : ℕ → h.S × ReadAnswer → h.S × Outcome RebuildError Bool
  unfolding after_write
  after_read blk (s, got f) = after_write blk (h.write blk (get_segment_size_blks d blk) f s)
  after_read blk (s, unwritten) = (s, ok false)
  after_read blk (s, read_error) = (s, err (read_io_failed h.src_uri))

  -- `copy_one`, with the assertion of `adjusted_iov`.
  unfoldable pub copy_one : ℕ → h.S → h.S × Outcome RebuildError Bool
  unfolding after_read
  copy_one blk s =
      if leb (get_segment_size_blks d blk * d.block_size) h.buffer_len
      then after_read blk (h.read d.read_opts blk (get_segment_size_blks d blk) s)
      else (s, panic)

  unfoldable pub unlocked :
      ℕ → Outcome RebuildError Bool → h.S × Bool → h.S × Outcome RebuildError Bool
  unlocked blk result (s, true) = (s, result)
  unlocked blk result (s, false) = (s, err (range_unlock_failed blk (get_segment_size_blks d blk)))

  -- A panic leaves the range locked.
  unfoldable pub then_unlock : ℕ → h.S × Outcome RebuildError Bool → h.S × Outcome RebuildError Bool
  unfolding unlocked
  then_unlock blk (s, ok t) =
      unlocked blk (ok t) (h.unlock (blk - d.range.start) (get_segment_size_blks d blk) s)
  then_unlock blk (s, err e) =
      unlocked blk (err e) (h.unlock (blk - d.range.start) (get_segment_size_blks d blk) s)
  then_unlock blk (s, panic) = (s, panic)

  unfoldable pub locked : ℕ → h.S × Bool → h.S × Outcome RebuildError Bool
  unfolding then_unlock copy_one
  locked blk (s, true) = then_unlock blk (copy_one blk s)
  locked blk (s, false) = (s, err (range_lock_failed blk (get_segment_size_blks d blk)))

  -- `NexusRebuildDescriptor::copy_segment`: the copy with its range of the nexus locked.
  unfoldable pub copy_locked : ℕ → h.S → h.S × Outcome RebuildError Bool
  unfolding locked
  copy_locked blk s = locked blk (h.lock (blk - d.range.start) (get_segment_size_blks d blk) s)
