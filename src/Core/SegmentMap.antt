-- ===== src/Core/SegmentMap.antt =====
-- A map of the segments of a block device, one bit for each: io-engine/src/core/segment_map.rs.
-- `none` is a panic. The bit vector is a parameter.
pub mod Bits
pub mod Ranges
pub mod Merge
mod Tests
use mayastor.Common.{
  ℕ, zero, suc, ◌+◌, ◌-◌, ◌/◌, ◌%◌, ◌*◌, Bool, true, false, Option, none, some, List, [], ◌∷◌, leb,
  ltb, ◌==◌, if◌then◌else◌, count_if,
}
use mayastor.Common.Words.{add64, sub64, mul64}
use mayastor.Common.Panic.{◌>>=◌, div, div_ceil}
use mayastor.Core.BitVec.{BitVec, list_bits}

module _ (V : BitVec) where
  open V use {default, grow, get, set_bit, or, iter}

  pub record SegmentMap : Type 0 where
    pub segments : V.Bits
    pub num_segments : ℕ
    pub num_blocks : ℕ
    pub block_len : ℕ
    pub segment_size : ℕ

  -- `SegmentMap::new`.
  unfoldable pub new : ℕ → ℕ → ℕ → Option SegmentMap
  new num_blocks block_len segment_size = do
    num_segments ← div_ceil (mul64 num_blocks block_len) segment_size
    some (record {
      segments = grow default num_segments false;
      num_segments = num_segments;
      num_blocks = num_blocks;
      block_len = block_len;
      segment_size = segment_size;
    })

  -- The bits of the other map are added to those of this one.
  unfoldable pub merge : SegmentMap → SegmentMap → Option SegmentMap
  merge m other = do
    segments ← or m.segments other.segments
    some (record m { segments = segments })

  unfoldable pub lbn_to_seg : SegmentMap → ℕ → Option ℕ
  lbn_to_seg m lbn = div (mul64 lbn m.block_len) m.segment_size

  -- `for i in i..i + n { segments.set(i, value) }`.
  unfoldable pub set_range : ℕ → ℕ → Bool → V.Bits → Option V.Bits
  set_range zero i value b = some b
  set_range (suc n) i value b = do b' ← set_bit b i value; set_range n (i + 1) value b'

  -- Sets the bits of the segments that `lbn_cnt` blocks from `lbn` on lie in.
  unfoldable pub set : SegmentMap → ℕ → ℕ → Bool → Option SegmentMap
  set m lbn lbn_cnt value = if m.num_blocks == 0 then none else do
    start_seg ← lbn_to_seg m lbn
    end_seg ← lbn_to_seg m (sub64 (add64 lbn lbn_cnt) 1)
    b ← set_range (end_seg + 1 - start_seg) start_seg value m.segments
    some (record m { segments = b })

  -- The outer `Option` is the panic, the inner one the result.
  unfoldable pub get_bit : SegmentMap → ℕ → Option (Option Bool)
  get_bit m lbn = do seg ← lbn_to_seg m lbn; some (get m.segments seg)

  unfoldable pub count_ones : SegmentMap → ℕ
  count_ones m = count_if (λ i. i) (iter m.segments)

  unfoldable pub count_dirty_blks : SegmentMap → Option ℕ
  unfolding count_ones
  count_dirty_blks m = div (mul64 (count_ones m) m.segment_size) m.block_len

  unfoldable pub segment_size_blks : SegmentMap → Option ℕ
  segment_size_blks m = div m.segment_size m.block_len

  unfoldable pub size_blks : SegmentMap → ℕ
  size_blks m = m.num_blocks
