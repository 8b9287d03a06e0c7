-- ===== src/Rebuild/Allocated.antt =====
-- The partial rebuild of block devices and snapshots, which walks the bits of the map alone:
-- `PartialRebuild` of io-engine/src/rebuild/rebuilders.rs, as `BdevRebuildJobBuilder::build` of
-- bdev_rebuild.rs sets it up.
pub mod Indices
mod Tests
use mayastor.Common.{
  ℕ, zero, suc, ◌+◌, ◌-◌, Bool, true, false, Option, none, some, List, [], ◌∷◌, Outcome, ok, err,
  panic,
}
use mayastor.Common.Words.{add64, sub64}
use mayastor.Core.BitVec.{BitVec}
use mayastor.Core.SegmentMap.{SegmentMap, count_dirty_blks, segment_size_blks, size_blks}
use mayastor.Rebuild.State.{RebuildError}
use mayastor.Rebuild.Descriptor.{RebuildDescriptor, validate_map}

-- The enumerated bits that the iterator has left, as the index of the first and the bits.
pub record Enumerate : Type 0 where
  pub index : ℕ
  pub bits : List Bool

pub record PartialRebuild : Type 0 where
  pub iter : Enumerate
  pub peek : Option (ℕ × Bool)
  pub segment_size_blks : ℕ
  pub total_blks : ℕ
  pub rebuilt_blks : ℕ
  pub desc : RebuildDescriptor

first_bit : ℕ → List Bool → Enumerate × Option (ℕ × Bool)
first_bit i [] = (record { index = i; bits = [] }, none)
first_bit i (b ∷ bits) = (record { index = suc i; bits = bits }, some (i, b))

unfoldable pub enumerate_next : Enumerate → Enumerate × Option (ℕ × Bool)
unfolding first_bit
enumerate_next e = first_bit e.index e.bits

-- `PartialRebuild::new`; `none` is the panic of a division by zero.
unfoldable pub new : (V : BitVec) → SegmentMap V → RebuildDescriptor → Option PartialRebuild
unfolding enumerate_next
new V map desc = elim (count_dirty_blks V map) [
  | none ↦ none
  | some total ↦ elim (segment_size_blks V map) [
    | none ↦ none
    | some size ↦
        let (it, p) = enumerate_next (record { index = 0; bits = V.iter map.segments }) in
        some (record {
          iter = it;
          peek = p;
          segment_size_blks = size;
          total_blks = total;
          rebuilt_blks = 0;
          desc = desc;
        })
  ]
]

-- The loop of `next` over the bits that are left, behind the one that was looked at.
unfoldable pub next_set :
    ℕ → List Bool → Option (ℕ × Bool) → Enumerate × Option (ℕ × Bool) × Option ℕ
next_set i bits none = (record { index = i; bits = bits }, none, none)
next_set i [] (some (blk, true)) = (record { index = i; bits = [] }, none, some blk)
next_set i [] (some (blk, false)) = (record { index = i; bits = [] }, none, none)
next_set i (b ∷ bits) (some (blk, true)) =
    (record { index = suc i; bits = bits }, some (i, b), some blk)
next_set i (b ∷ bits) (some (blk, false)) = next_set (suc i) bits (some (i, b))

abbrev pub count_in : Option ℕ → ℕ → ℕ → ℕ
count_in none rebuilt size = rebuilt
count_in (some blk) rebuilt size = add64 rebuilt size

unfoldable pub next : PartialRebuild → PartialRebuild × Option ℕ
next r =
    let (it, p, blk) = next_set r.iter.index r.iter.bits r.peek in
    (
      record r {
        iter = it;
        peek = p;
        rebuilt_blks = count_in blk r.rebuilt_blks r.segment_size_blks;
      },
      blk,
    )

unfoldable pub blocks_remaining : PartialRebuild → ℕ
blocks_remaining r = sub64 r.total_blks r.rebuilt_blks

-- The blocks that `next` gives out until it gives none, on fuel.
unfoldable pub drain : ℕ → PartialRebuild → List ℕ
drain zero r = []
drain (suc fuel) r =
    let rest = drain fuel (next r).0 in elim (next r).1 [ none ↦ [] | some blk ↦ blk ∷ rest ]

-- `build` with a bitmap: the check of the map, then the rebuild.
unfoldable pub build :
    (V : BitVec) → SegmentMap V → RebuildDescriptor → Outcome RebuildError PartialRebuild
unfolding new validate_map
build V map desc = elim (validate_map desc (size_blks V map)) [
  | ok _ ↦ elim (new V map desc) [ none ↦ panic | some r ↦ ok r ]
  | err e ↦ err e
  | panic ↦ panic
]
