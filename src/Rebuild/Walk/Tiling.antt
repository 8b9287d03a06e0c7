-- ===== src/Rebuild/Walk/Tiling.antt =====
-- The segments of a full rebuild tile its range.
use mayastor.Common.{
  ℕ, zero, suc, ◌+◌, ◌-◌, ◌≤◌, ◌<◌, ◌≡◌, refl, none, some, List, [], ◌∷◌, arith, ltb, if◌then◌else◌,
  Bool-cases, ltb→lt, inl, inr,
}
use mayastor.Common.Words.{u64_mod, add64_exact, sub64_exact}
use mayastor.Rebuild.Descriptor.{RebuildDescriptor, get_segment_size_blks}
use mayastor.Rebuild.Walk.{peekable, FullRebuild, full_rebuild, next, drain}

-- The segments have a size, and the blocks of the range and one segment more fit in a u64.
pub record IsSound (d : RebuildDescriptor) : Type 0 where
  pub step_pos : 0 < d.segment_size_blks
  pub fits : d.range.end + d.segment_size_blks < u64_mod

-- The segments at these blocks follow one another without a gap or an overlap from `at` to the end
-- of the range, and none is empty or larger than the segment size.
abbrev pub Tiles : RebuildDescriptor → ℕ → List ℕ → Type 0
Tiles d at [] = at ≡ d.range.end
Tiles d at (blk ∷ blks) =
    (blk ≡ at)
    × (0 < get_segment_size_blks d blk)
    × (get_segment_size_blks d blk ≤ d.segment_size_blks)
    × Tiles d (blk + get_segment_size_blks d blk) blks

-- The size of a segment at a block of the range.
pub get_segment_size_blks_lem :
    (d : RebuildDescriptor) (blk : ℕ)
    → IsSound d
    → blk < d.range.end
    → get_segment_size_blks d blk ≡ (
        if ltb d.range.end (blk + d.segment_size_blks)
        then d.range.end - blk
        else d.segment_size_blks)
unfolding get_segment_size_blks
get_segment_size_blks_lem d blk w h = ground (
  arith,
  add64_exact blk d.segment_size_blks (omega (arith, w.fits)),
  sub64_exact d.range.end blk (omega arith) (omega (arith, w.fits)),
)

pub get_segment_size_blks_end :
    (d : RebuildDescriptor) → IsSound d → get_segment_size_blks d d.range.end ≡ 0
unfolding get_segment_size_blks
get_segment_size_blks_end d w = ground (
  arith,
  add64_exact d.range.end d.segment_size_blks w.fits,
  sub64_exact d.range.end d.range.end (omega arith) (omega (arith, w.fits)),
)

-- The walk has looked at block `at`, or is over.
pub record IsAt (r : FullRebuild) (at : ℕ) : Type 0 where
  pub peeks : r.walk.peek ≡ (if ltb at r.desc.range.end then some at else none)
  pub stands :
      r.walk.iter.at ≡ (if ltb at r.desc.range.end then at + r.desc.segment_size_blks else at)
  pub ends : r.walk.iter.end ≡ r.desc.range.end
  pub steps : r.walk.iter.step ≡ r.desc.segment_size_blks

pub next-IsAt :
    (r : FullRebuild) (at : ℕ)
    → IsAt r at
    → at < r.desc.range.end
    → IsAt (next r).0 (at + r.desc.segment_size_blks)
unfolding next
next-IsAt r at p h = ground arith

unfoldable pub first : RebuildDescriptor → FullRebuild
unfolding peekable
first d = record {
  walk = peekable (record { at = d.range.start; end = d.range.end; step = d.segment_size_blks });
  desc = d;
}

pub first-IsAt : (d : RebuildDescriptor) → IsAt (first d) d.range.start
unfolding first
first-IsAt d = ground arith

pub full_rebuild_lem : (d : RebuildDescriptor) → IsSound d → full_rebuild d ≡ some (first d)
unfolding full_rebuild first
full_rebuild_lem d w = ground arith

-- A walk that is past the end gives nothing.
pub drain-nil :
    (fuel : ℕ) (r : FullRebuild) (at : ℕ) → IsAt r at → r.desc.range.end ≤ at → drain fuel r ≡ []
unfolding drain
drain-nil zero r at p h = refl
drain-nil (suc fuel) r at p h = ground arith

drain-cons :
    (fuel : ℕ) (r : FullRebuild) (at : ℕ)
    → IsAt r at
    → at < r.desc.range.end
    → drain (suc fuel) r ≡ at ∷ drain fuel (next r).0
unfolding drain
drain-cons fuel r at p h = ground arith

-- One more segment in front: a whole one, or the rest of the range.
Tiles-cons :
    (d : RebuildDescriptor) (at : ℕ) (blks : List ℕ)
    → IsSound d
    → at < d.range.end
    → (at + d.segment_size_blks ≤ d.range.end → Tiles d (at + d.segment_size_blks) blks)
    → (d.range.end ≤ at + d.segment_size_blks → blks ≡ [])
    → Tiles d at (at ∷ blks)
Tiles-cons d at blks w h whole last =
    let size = get_segment_size_blks_lem d at w h in
    elim (Bool-cases (ltb d.range.end (at + d.segment_size_blks))) [
      | inl short ↦
          let e : get_segment_size_blks d at ≡ d.range.end - at = ground arith in
          let none_left = last (ground arith) in
          (
            refl,
            omega (arith, e),
            omega (arith, e, ltb→lt _ _ short),
            rw (none_left, e) (omega arith),
          )
      | inr full ↦
          let e : get_segment_size_blks d at ≡ d.segment_size_blks = ground arith in
          (refl, omega (arith, e, w.step_pos), omega (arith, e), rw e (whole (ground arith)))
    ]

-- With fuel for every block that is left, the walk gives out segments that tile the rest.
pub drain-Tiles :
    (fuel : ℕ) (r : FullRebuild) (at : ℕ)
    → IsSound r.desc
    → IsAt r at
    → at ≤ r.desc.range.end
    → r.desc.range.end < at + fuel
    → Tiles r.desc at (drain fuel r)
unfolding next
drain-Tiles zero r at w p h f = absurd (omega arith)
drain-Tiles (suc fuel) r at w p h f = elim (Bool-cases (ltb at r.desc.range.end)) [
  | inl more ↦
      let lt = ltb→lt at r.desc.range.end more in
      let p' = next-IsAt r at p lt in
      rw (drain-cons fuel r at p lt) (
        Tiles-cons r.desc at _ w lt
          (λ k.
            drain-Tiles fuel (next r).0 (at + r.desc.segment_size_blks) w p' k
              (omega (arith, w.step_pos)))
          (λ k. drain-nil fuel (next r).0 (at + r.desc.segment_size_blks) p' k))
  | inr over ↦ rw (drain-nil (suc fuel) r at p (ground arith)) (ground arith)
]

-- A full rebuild of a sound descriptor, whose range is not reversed, is made without a panic, and with
-- enough fuel the segments that it walks, from its first `next` until it gives none, tile the range: they follow one another with
-- no gap or overlap from the start to the end, none is empty, and none is larger than a segment.
pub full_rebuild-Tiles :
    (d : RebuildDescriptor) (fuel : ℕ)
    → IsSound d
    → d.range.start ≤ d.range.end
    → d.range.end - d.range.start < fuel
    → (r : FullRebuild) × (full_rebuild d ≡ some r) × Tiles d d.range.start (drain fuel r)
unfolding first
full_rebuild-Tiles d fuel w h f = (
  first d,
  full_rebuild_lem d w,
  drain-Tiles fuel (first d) d.range.start w (first-IsAt d) h (omega arith),
)
