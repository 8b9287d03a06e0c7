-- ===== src/Rebuild/Walk/Tests.antt =====
-- A rebuild of the blocks 4 to 11 in segments of three blocks.
use mayastor.Common.{◌≡◌, refl, some, [], ◌∷◌, arith}
use mayastor.Rebuild.Descriptor.{RebuildDescriptor, ignore, normal}
use mayastor.Rebuild.Walk.{FullRebuild, full_rebuild, drain, blocks_remaining}
use mayastor.Rebuild.Walk.Tiling.{IsSound, Tiles, full_rebuild-Tiles, first}
use mayastor.Rebuild.Walk.Remaining.{after, total, blocks_remaining_lem}

abbrev eight : RebuildDescriptor
eight = record {
  block_size = 512;
  range = record { start = 4; end = 12 };
  verify_mode = ignore;
  read_opts = normal;
  segment_size_blks = 3;
}

walk_runs : drain 9 (first eight) ≡ 4 ∷ 7 ∷ 10 ∷ []
unfolding drain first
walk_runs = refl

eight-IsSound : IsSound eight
eight-IsSound = omega arith

full_rebuild-Tiles_example :
    (r : FullRebuild) × (full_rebuild eight ≡ some r) × Tiles eight 4 (drain 9 r)
full_rebuild-Tiles_example = full_rebuild-Tiles eight 9 eight-IsSound (omega arith) (omega arith)

blocks_remaining_lem_example :
    (r : FullRebuild) × (full_rebuild eight ≡ some r)
    × (blocks_remaining (after 2 r) ≡ total eight (drain 9 (after 2 r)))
blocks_remaining_lem_example = blocks_remaining_lem eight 2 9 eight-IsSound (omega arith)
