-- ===== src/Rebuild/Allocated/Tests.antt =====
-- A map whose segment 20 is dirty, as in the tests of the source, on a device of 32 segments.
use mayastor.Common.{◌+◌, ◌≤◌, ◌≡◌, refl, true, false, some, [], ◌∷◌, ◌++◌, arith, replicate, All}
use mayastor.Common.Words.{mul64}
use mayastor.Core.BitVec.{list_bits}
use mayastor.Core.SegmentMap.{SegmentMap, count_dirty_blks, segment_size_blks}
use mayastor.Rebuild.Descriptor.{RebuildDescriptor, ignore, normal}
use mayastor.Rebuild.Allocated.{PartialRebuild, new, enumerate_next, drain}
use mayastor.Rebuild.Allocated.Indices.{drain-indices, PartialRebuild_misses}

abbrev map : SegmentMap list_bits
map = record {
  segments = replicate 20 false ++ true ∷ replicate 11 false;
  num_segments = 32;
  num_blocks = 4096;
  block_len = 512;
  segment_size = 65536;
}

abbrev desc : RebuildDescriptor
desc = record {
  block_size = 512;
  range = record { start = 0; end = 4096 };
  verify_mode = ignore;
  read_opts = normal;
  segment_size_blks = 128;
}

abbrev started : PartialRebuild
started = record {
  iter = record { index = 1; bits = replicate 19 false ++ true ∷ replicate 11 false };
  peek = some (0, false);
  segment_size_blks = 128;
  total_blks = 128;
  rebuilt_blks = 0;
  desc = desc;
}

started_lem : new list_bits map desc ≡ some started
unfolding new count_dirty_blks segment_size_blks mul64 enumerate_next
started_lem = refl

drain-indices_example : drain 40 started ≡ 20 ∷ []
drain-indices_example = drain-indices list_bits map desc started 40 started_lem (omega arith)

-- The dirty segment is that of the blocks 2560 to 2687; the one copy is of 20 to 147.
PartialRebuild_misses_example : All (λ blk. blk + 128 ≤ 2560) (drain 40 started)
PartialRebuild_misses_example =
    PartialRebuild_misses list_bits map desc started 40 2560 started_lem (omega arith) (omega arith)
