-- ===== src/Rebuild/Walk/Remaining.antt =====
-- What a full rebuild reports as remaining is what its walk has left.
use mayastor.Common.{
  ℕ, zero, suc, ◌+◌, ◌-◌, ◌≤◌, ◌<◌, ◌≡◌, ap, some, List, [], ◌∷◌, arith, ltb, Bool-cases, ltb→lt,
  inl, inr,
}
use mayastor.Rebuild.Descriptor.{RebuildDescriptor, get_segment_size_blks}
use mayastor.Rebuild.Walk.{FullRebuild, full_rebuild, next, blocks_remaining, drain}
use mayastor.Rebuild.Walk.Tiling.{
  IsSound, Tiles, IsAt, next-IsAt, first, first-IsAt, drain-Tiles, drain-nil, full_rebuild_lem,
}

-- The blocks of a list of segments.
abbrev pub total : RebuildDescriptor → List ℕ → ℕ
total d [] = 0
total d (blk ∷ blks) = get_segment_size_blks d blk + total d blks

Tiles-total :
    (d : RebuildDescriptor) (at : ℕ) (blks : List ℕ)
    → Tiles d at blks
    → at + total d blks ≡ d.range.end
Tiles-total d at [] h = omega (arith, h)
Tiles-total d at (blk ∷ blks) h =
    omega (arith, h.0, Tiles-total d (blk + get_segment_size_blks d blk) blks h.3)

-- The walk after a number of calls of `next`.
abbrev pub after : ℕ → FullRebuild → FullRebuild
after zero r = r
after (suc n) r = after n (next r).0

remaining_at :
    (fuel : ℕ) (r : FullRebuild) (at : ℕ)
    → IsSound r.desc
    → IsAt r at
    → r.desc.range.end < at + fuel
    → blocks_remaining r ≡ total r.desc (drain fuel r)
unfolding blocks_remaining
remaining_at fuel r at w p f = elim (Bool-cases (ltb at r.desc.range.end)) [
  | inl more ↦
      let lt = ltb→lt at r.desc.range.end more in
      ground (arith, Tiles-total r.desc at _ (drain-Tiles fuel r at w p (omega arith) f))
  | inr over ↦ ground (arith, ap (total r.desc) (drain-nil fuel r at p (ground arith)))
]

stays-IsAt : (r : FullRebuild) (at : ℕ) → IsAt r at → r.desc.range.end ≤ at → IsAt (next r).0 at
unfolding next
stays-IsAt r at p h = ground arith

remaining_after :
    (n fuel : ℕ) (r : FullRebuild) (at : ℕ)
    → IsSound r.desc
    → IsAt r at
    → r.desc.range.end < at + fuel
    → blocks_remaining (after n r) ≡ total r.desc (drain fuel (after n r))
unfolding next
remaining_after zero fuel r at w p f = remaining_at fuel r at w p f
remaining_after (suc n) fuel r at w p f = elim (Bool-cases (ltb at r.desc.range.end)) [
  | inl more ↦
      remaining_after n fuel (next r).0 (at + r.desc.segment_size_blks) w
        (next-IsAt r at p (ltb→lt _ _ more)) (omega arith)
  | inr over ↦ remaining_after n fuel (next r).0 at w (stays-IsAt r at p (ground arith)) f
]

-- After any number of calls of `next`, the blocks that a full rebuild of a sound descriptor reports as
-- remaining are those of the segments that it has yet to give out, given enough fuel to walk them.
pub blocks_remaining_lem :
    (d : RebuildDescriptor) (n fuel : ℕ)
    → IsSound d
    → d.range.end - d.range.start < fuel
    → (r : FullRebuild) × (full_rebuild d ≡ some r)
      × (blocks_remaining (after n r) ≡ total d (drain fuel (after n r)))
unfolding first
blocks_remaining_lem d n fuel w f = (
  first d,
  full_rebuild_lem d w,
  remaining_after n fuel (first d) d.range.start w (first-IsAt d) (omega arith),
)
