-- ===== src/Rebuild/Partial/Complete.antt =====
-- A partial rebuild that copies its whole walk brings the whole range in sync.
use mayastor.Common.{
  ℕ, zero, suc, ◌+◌, ◌-◌, ◌*◌, ◌≤◌, ◌<◌, ◌≡◌, refl, ap, Bool, some, List, [], ◌∷◌, Outcome, ok, err,
  panic, ◌⊎◌, inl, inr, arith, Bool-cases, ltb, ltb→lt,
}
use mayastor.Core.BitVec.{BitVec}
use mayastor.Rebuild.State.{RebuildError}
use mayastor.Rebuild.Descriptor.{RebuildDescriptor, get_segment_size_blks}
use mayastor.Rebuild.Walk.{FullRebuild}
use mayastor.Rebuild.Walk as Walk
use mayastor.Rebuild.Walk.Tiling.{
  Tiles, get_segment_size_blks_lem, get_segment_size_blks_end, first, drain-Tiles, first-IsAt,
}
use mayastor.Rebuild.Walk.Tiling as Tiling
use mayastor.Rebuild.Partial.{
  TaskCopier, RebuildMap, World, copy_segment, copy_all, copy_rest, PartialSeqRebuild,
  partial_seq_rebuild, drain, next,
}
use mayastor.Rebuild.Partial.Step.{Inv, IsAligned, Keeps, Advances, copy_segment-Advances}

-- No segment is left at the end of the range.
Tiles-end :
    (d : RebuildDescriptor) (blks : List ℕ)
    → Tiling.IsSound d
    → Tiles d d.range.end blks
    → blks ≡ []
Tiles-end d [] w h = refl
Tiles-end d (blk ∷ blks) w h =
    let e = get_segment_size_blks_end d w in
    absurd (omega (arith, h.1, ap (get_segment_size_blks d) h.0, e))

next_multiple : (q at s size : ℕ) → at ≡ q * s → size ≡ s → at + size ≡ (q + 1) * s
next_multiple q at s size e f = omega (arith, e, f)

-- The next segment is aligned too, unless it would stand at the end of the range.
IsAligned-next :
    (d : RebuildDescriptor) (at : ℕ)
    → Tiling.IsSound d
    → IsAligned d at
    → at < d.range.end
    → IsAligned d (at + get_segment_size_blks d at)
      ⊎ (at + get_segment_size_blks d at ≡ d.range.end)
IsAligned-next d at w (q, e) h = elim (Bool-cases (ltb d.range.end (at + d.segment_size_blks))) [
  | inl short ↦ inr (ground (arith, get_segment_size_blks_lem d at w h))
  | inr full ↦ inl (
    q + 1,
    next_multiple q at d.segment_size_blks _ e (ground (arith, get_segment_size_blks_lem d at w h)),
  )
]

-- A walk that has a segment left is before the end of the range.
nonempty :
    (d : RebuildDescriptor) (blk at : ℕ) (blks : List ℕ)
    → Tiling.IsSound d
    → at ≤ d.range.end
    → Tiles d at (blk ∷ blks)
    → blk < d.range.end
nonempty d blk at blks w h t = elim (Bool-cases (ltb blk d.range.end)) [
  | inl lt ↦ ltb→lt _ _ lt
  | inr ge ↦
      let e : blk ≡ d.range.end = ground (arith, t.0) in
      absurd (omega (arith, t.1, ap (get_segment_size_blks d) e, get_segment_size_blks_end d w))
]

size_in_range :
    (d : RebuildDescriptor) (blk : ℕ)
    → Tiling.IsSound d
    → blk < d.range.end
    → blk + get_segment_size_blks d blk ≤ d.range.end
size_in_range d blk w h = ground (arith, get_segment_size_blks_lem d blk w h)

module _ (V : BitVec) where
  started : RebuildMap V → RebuildDescriptor → PartialSeqRebuild V
  unfolding first
  started m d = record { walk = (first d).walk; map = m; desc = d }

  partial_seq_rebuild_lem :
      (m : RebuildMap V) (d : RebuildDescriptor)
      → Tiling.IsSound d
      → partial_seq_rebuild V m d ≡ some (started m d)
  unfolding partial_seq_rebuild started
  partial_seq_rebuild_lem m d w = ground arith

  -- A partial rebuild walks as a full one does.
  walk_same :
      (fuel : ℕ) (r : PartialSeqRebuild V)
      → drain V fuel r ≡ Walk.drain fuel (record { walk = r.walk; desc = r.desc })
  unfolding drain Walk.drain
  walk_same zero r = refl
  walk_same (suc fuel) r = ground (arith, walk_same fuel (next V r).0)

  started-Tiles :
      (fuel : ℕ) (m : RebuildMap V) (d : RebuildDescriptor)
      → Tiling.IsSound d
      → d.range.start ≤ d.range.end
      → d.range.end - d.range.start < fuel
      → Tiles d d.range.start (drain V fuel (started m d))
  unfolding started
  started-Tiles fuel m d w h f =
      rw (walk_same fuel (started m d))
        (drain-Tiles fuel (first d) d.range.start w (first-IsAt d) h (omega arith))

module _ (V : BitVec) {d : RebuildDescriptor} (c : TaskCopier d) where
  open c use {Synced}

  -- All blocks of the range from a block on are in sync.
  abbrev pub SyncedFrom : ℕ → World V c → Type 0
  SyncedFrom at w = (b : ℕ) → at ≤ b → b < d.range.end → Synced w.devices b

  -- One copy that succeeded, and the rest.
  copy_then :
      (blks : List ℕ) (blk : ℕ) (w : World V c) (r : World V c × Outcome RebuildError Bool)
      → ((t : Bool) → r.1 ≡ ok t → Advances V c w blk r)
      → ((w' : World V c)
          → Inv V c w'
          → (copy_all V c w' blks).1 ≡ ok tt
          → Keeps V c w' (copy_all V c w' blks).0
            × SyncedFrom (blk + get_segment_size_blks d blk) (copy_all V c w' blks).0)
      → (copy_rest V c (λ w'. copy_all V c w' blks) r).1 ≡ ok tt
      → Keeps V c w (copy_rest V c (λ w'. copy_all V c w' blks) r).0
        × SyncedFrom blk (copy_rest V c (λ w'. copy_all V c w' blks) r).0
  unfolding copy_rest
  copy_then blks blk w (w', ok t) first_step rest h =
      let (v, kept, synced) = first_step t refl in
      let (kept', synced') = rest w' v h in
      (
        λ b y. kept' b (kept b y),
        λ b from to. elim (Bool-cases (ltb b (blk + get_segment_size_blks d blk))) [
          | inl near ↦ kept' b (synced b from (ltb→lt _ _ near))
          | inr far ↦ synced' b (ground arith) to
        ],
      )
  copy_then blks blk w (w', err e) first_step rest h = cc
  copy_then blks blk w (w', panic) first_step rest h = cc

  copy_all_lem :
      (blks : List ℕ) (at : ℕ) (w : World V c)
      → Inv V c w
      → Tiles d at blks
      → d.range.start ≤ at
      → at ≤ d.range.end
      → IsAligned d at ⊎ (at ≡ d.range.end)
      → (copy_all V c w blks).1 ≡ ok tt
      → Keeps V c w (copy_all V c w blks).0 × SyncedFrom at (copy_all V c w blks).0
  unfolding copy_all
  copy_all_lem [] at w v t l u a h = (λ b y. y, λ b from to. absurd (omega (arith, t)))
  copy_all_lem (blk ∷ blks) at w v t l u (inr over) h =
      absurd (cc (Tiles-end d (blk ∷ blks) v.fits.walk_sound (rw over at t)))
  copy_all_lem (blk ∷ blks) at w v t l u (inl a) h =
      let here : blk < d.range.end = nonempty d blk at blks v.fits.walk_sound u t in
      let a' : IsAligned d blk = rw (t.0) a in
      let r =
        copy_then blks blk w (copy_segment V c w blk)
          (λ done e. copy_segment-Advances V c w blk done v a' (omega (arith, t.0)) here e)
          (λ w' v' h'.
            copy_all_lem blks (blk + get_segment_size_blks d blk) w' v' t.3 (omega (arith, t.0))
              (size_in_range d blk v.fits.walk_sound here)
              (IsAligned-next d blk v.fits.walk_sound a' here) h')
          h in
      rw (← t.0) r

  -- If the map counts as dirty every block of the range that is out of sync, its segments are those of
  -- the walk, and the range is not reversed, a partial rebuild is made without a panic; and with enough
  -- fuel, if its copies all succeed they leave the whole range in sync.
  pub partial_rebuild_syncs :
      (fuel : ℕ) (w : World V c)
      → Inv V c w
      → IsAligned d d.range.start
      → d.range.start ≤ d.range.end
      → d.range.end - d.range.start < fuel
      → (r : PartialSeqRebuild V) × (partial_seq_rebuild V w.map d ≡ some r)
        × ((copy_all V c w (drain V fuel r)).1 ≡ ok tt
            → SyncedFrom d.range.start (copy_all V c w (drain V fuel r)).0)
  partial_rebuild_syncs fuel w v a h f = (
    started V w.map d,
    partial_seq_rebuild_lem V w.map d v.fits.walk_sound,
    λ e.
        (copy_all_lem (drain V fuel (started V w.map d)) d.range.start w v
          (started-Tiles V fuel w.map d v.fits.walk_sound h f) (omega arith) h (inl a) e).1,
  )
