-- ===== src/Core/SegmentMap/Tests.antt =====
-- A map of eight blocks of 512 bytes in segments of 1024 bytes.
use mayastor.Common.{ℕ, ◌<◌, ◌≡◌, refl, Bool, true, false, ◌||◌, some, List, [], ◌∷◌, arith}
use mayastor.Common.Words.{mul64, add64, sub64}
use mayastor.Core.BitVec.{list_bits, list_set}
use mayastor.Core.SegmentMap.{
  SegmentMap, new, set, set_range, merge, get_bit, lbn_to_seg, count_dirty_blks,
}
use mayastor.Core.SegmentMap.Ranges.{IsSound, SameShape, Sets, set-get_bit}
use mayastor.Core.SegmentMap.Merge.{merge-get_bit}

abbrev shaped : List Bool → SegmentMap list_bits
shaped bits = record {
  segments = bits;
  num_segments = 4;
  num_blocks = 8;
  block_len = 512;
  segment_size = 1024;
}

abbrev clean : SegmentMap list_bits
clean = shaped (false ∷ false ∷ false ∷ false ∷ [])

abbrev dirty : SegmentMap list_bits
dirty = shaped (false ∷ true ∷ true ∷ false ∷ [])

new_runs : new list_bits 8 512 1024 ≡ some clean
unfolding new mul64
new_runs = refl

set_runs : set list_bits clean 3 2 true ≡ some dirty
unfolding set set_range lbn_to_seg mul64 add64 sub64 list_set
set_runs = refl

dirty_blocks : count_dirty_blks list_bits dirty ≡ some 4
unfolding count_dirty_blks mul64
dirty_blocks = refl

clean-IsSound : IsSound list_bits clean
clean-IsSound = omega arith

dirty-IsSound : IsSound list_bits dirty
dirty-IsSound = omega arith

same-SameShape : SameShape list_bits clean dirty
same-SameShape = record { blocks = refl; lens = refl; sizes = refl; nums = refl }

set-get_bit_example :
    (m' : SegmentMap list_bits) × (set list_bits clean 3 2 true ≡ some m')
    × IsSound list_bits m'
    × SameShape list_bits clean m'
    × Sets list_bits clean 3 2 true m'
set-get_bit_example = set-get_bit list_bits clean 3 2 true clean-IsSound (omega arith) (omega arith)

merge-get_bit_example :
    (m' : SegmentMap list_bits) × (merge list_bits clean dirty ≡ some m')
    × IsSound list_bits m'
    × SameShape list_bits clean m'
    × ((b : ℕ) (x y : Bool)
        → b < 8
        → get_bit list_bits clean b ≡ some (some x)
        → get_bit list_bits dirty b ≡ some (some y)
        → get_bit list_bits m' b ≡ some (some (x || y)))
merge-get_bit_example =
    merge-get_bit list_bits clean dirty clean-IsSound dirty-IsSound same-SameShape
