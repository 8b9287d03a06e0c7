-- ===== src/Rebuild/Descriptor.antt =====
-- The range and the sizes of a rebuild: io-engine/src/rebuild/rebuild_descriptor.rs, with the range
-- test of rebuild/mod.rs and the options of rebuild_job.rs. Sizes are in blocks but for `block_size`.
pub mod Created
mod Tests
use mayastor.Common.{
  ℕ, ◌/◌, Bool, ◌&&◌, Option, none, some, Outcome, ok, err, panic, ltb, leb, ◌==◌, if◌then◌else◌,
}
use mayastor.Common.Words.{add64, sub64}
use mayastor.Rebuild.State.{RebuildError, invalid_map_range}

-- `std::ops::Range<u64>`.
pub record Range : Type 0 where
  pub start : ℕ
  pub end : ℕ

-- `WithinRange::within`.
unfoldable pub within_range : Range → Range → Bool
within_range self right =
    ltb self.start self.end
    && ltb right.start right.end
    && leb right.start self.start
    && leb self.end right.end

pub data RebuildVerifyMode : Type 0 where
  ignore fails panics : RebuildVerifyMode

pub data ReadOptions : Type 0 where
  normal unwritten_fail current_unwritten_fail : ReadOptions

pub record RebuildDescriptor : Type 0 where
  pub block_size : ℕ
  pub range : Range
  pub verify_mode : RebuildVerifyMode
  pub read_opts : ReadOptions
  pub segment_size_blks : ℕ

-- What the descriptor asks of a block device.
pub record BlockDevice : Type 0 where
  pub num_blocks : ℕ
  pub block_len : ℕ
  pub size_in_bytes : ℕ

-- `RebuildDescriptor::validate`.
unfoldable pub validate : BlockDevice → BlockDevice → Range → Bool
unfolding within_range
validate source destination range =
    within_range range (record { start = 0; end = source.num_blocks })
    && within_range range (record { start = 0; end = destination.num_blocks })
    && source.block_len == destination.block_len

pub data NewError : Type 0 where
  same_bdev invalid_src_dst_range : NewError

-- The end of `RebuildDescriptor::new`, once both devices are open and have handles: the default
-- range, the check, and the sizes. `/` panics on a zero divisor.
range_or_device : Option Range → BlockDevice → Outcome NewError Range
range_or_device none dst =
    if dst.block_len == 0
    then panic
    else ok (record { start = 0; end = dst.size_in_bytes / dst.block_len })
range_or_device (some range) dst = ok range

check_new :
    ℕ
    → BlockDevice
    → BlockDevice
    → RebuildVerifyMode
    → ReadOptions
    → Range
    → Outcome NewError RebuildDescriptor
unfolding validate
check_new segment_size src dst verify_mode read_opts range =
    if validate src dst range
    then (if dst.block_len == 0
        then panic
        else ok (record {
          block_size = dst.block_len;
          range = range;
          verify_mode = verify_mode;
          read_opts = read_opts;
          segment_size_blks = segment_size / dst.block_len;
        }))
    else err invalid_src_dst_range

unfoldable pub new :
    ℕ
    → BlockDevice
    → BlockDevice
    → Bool
    → Option Range
    → RebuildVerifyMode
    → ReadOptions
    → Outcome NewError RebuildDescriptor
unfolding range_or_device check_new
new segment_size src dst same_name range verify_mode read_opts =
    if same_name then err same_bdev else elim (range_or_device range dst) [
      | ok r ↦ check_new segment_size src dst verify_mode read_opts r
      | err e ↦ err e
      | panic ↦ panic
    ]

-- `validate_map`: the blocks of the map stay within the range.
unfoldable pub validate_map : RebuildDescriptor → ℕ → Outcome RebuildError (Unit {0})
validate_map d size_blks = if ltb d.range.end size_blks then err invalid_map_range else ok tt

-- The size of the segment at a block: the last segment may be shorter.
unfoldable pub get_segment_size_blks : RebuildDescriptor → ℕ → ℕ
get_segment_size_blks d blk =
    if ltb d.range.end (add64 blk d.segment_size_blks)
    then sub64 d.range.end blk
    else d.segment_size_blks
