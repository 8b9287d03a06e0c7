-- ===== src/Rebuild/Partial/Step.antt =====
-- One copy of the copier that skips clean segments.
use mayastor.Common.{
  ℕ, ◌+◌, ◌-◌, ◌*◌, ◌/◌, ◌≤◌, ◌<◌, ◌≡◌, refl, sym, ap, ◌∙◌, Bool, true, false, some, Outcome, ok,
  err, panic, ◌⊎◌, inl, inr, arith, Bool-cases, if◌then◌else◌,
}
use native.Mathlib.Nat.{mul-div_cancel, div-eq_of_lt-le, mul-div-mul_right}
use mayastor.Core.BitVec.{BitVec}
use mayastor.Core.SegmentMap.{SegmentMap, set, get_bit}
use mayastor.Core.SegmentMap.Ranges.{
  IsSound, SameShape, seg, touches, set-get_bit, get_bit_total, get_bit_same,
}
use mayastor.Rebuild.State.{RebuildError}
use mayastor.Rebuild.Descriptor.{RebuildDescriptor, get_segment_size_blks}
use mayastor.Rebuild.Walk.Tiling.{get_segment_size_blks_lem}
use mayastor.Rebuild.Walk.Tiling as Tiling
use mayastor.Rebuild.Partial.{
  TaskCopier, RebuildMap, World, mark, copied, unless_clean, is_blk_clean, blk_clean, copy_segment,
}

-- The map is of a device that the range fits in, and its segments are those of the walk.
pub record Fits (V : BitVec) (d : RebuildDescriptor) (m : SegmentMap V) : Type 0 where
  pub walk_sound : Tiling.IsSound d
  pub map_sound : IsSound V m
  pub in_map : d.range.end ≤ m.num_blocks
  pub whole : m.segment_size ≡ d.segment_size_blks * m.block_len

-- A block that a segment starts at.
abbrev pub IsAligned : RebuildDescriptor → ℕ → Type 0
IsAligned d blk = (q : ℕ) × (blk ≡ q * d.segment_size_blks)

seg_eq :
    (V : BitVec) (d : RebuildDescriptor) (m : SegmentMap V) (b : ℕ)
    → Fits V d m
    → seg V m b ≡ b / d.segment_size_blks
seg_eq V d m b f = rw (f.whole) (mul-div-mul_right b d.segment_size_blks f.map_sound.blocks_pos)

aligned_bounds : (q s b : ℕ) → 0 < s → b / s ≡ q * s / s → (q * s ≤ b) × (b < q * s + s)
aligned_bounds q s b p e = grind arith

aligned_quotient : (q s b : ℕ) → 0 < s → q * s ≤ b → b < q * s + s → b / s ≡ q * s / s
aligned_quotient q s b p l u = div-eq_of_lt-le {k = q} s l (omega arith) ∙ sym (mul-div_cancel q p)

-- The blocks of one step of the walk are those of one segment of the map.
pub in_segment :
    (V : BitVec) (d : RebuildDescriptor) (m : SegmentMap V) (blk b : ℕ)
    → Fits V d m
    → IsAligned d blk
    → seg V m b ≡ seg V m blk
    → (blk ≤ b) × (b < blk + d.segment_size_blks)
in_segment V d m blk b f (q, e) h = rw e (
    aligned_bounds q d.segment_size_blks b f.walk_sound.step_pos
      (rw (← e) (rw (← seg_eq V d m b f, ← seg_eq V d m blk f) h)))

pub same_segment :
    (V : BitVec) (d : RebuildDescriptor) (m : SegmentMap V) (blk b : ℕ)
    → Fits V d m
    → IsAligned d blk
    → blk ≤ b
    → b < blk + d.segment_size_blks
    → seg V m b ≡ seg V m blk
same_segment V d m blk b f (q, e) l u =
    seg_eq V d m b f ∙ aligned_quotient' ∙ sym (seg_eq V d m blk f)
  where
    aligned_quotient' : b / d.segment_size_blks ≡ blk / d.segment_size_blks
    aligned_quotient' = rw e (
        aligned_quotient q d.segment_size_blks b f.walk_sound.step_pos (omega (arith, e))
          (omega (arith, e)))

module _ (V : BitVec) {d : RebuildDescriptor} (c : TaskCopier d) where
  open c use {Devices, copy, Synced, copy_syncs, copy_keeps}

  -- Every block of the range is in sync, or is dirty in the map.
  abbrev pub Tracked : World V c → Type 0
  Tracked w =
      (b : ℕ)
      → d.range.start ≤ b
      → b < d.range.end
      → Synced w.devices b ⊎ (get_bit V w.map.segments b ≡ some (some true))

  -- What holds between two copies.
  pub record Inv (w : World V c) : Type 0 where
    pub fits : Fits V d w.map.segments
    pub tracked : Tracked w

  abbrev pub Keeps : World V c → World V c → Type 0
  Keeps w w' = (b : ℕ) → Synced w.devices b → Synced w'.devices b

  abbrev pub SyncsAt : World V c → ℕ → Type 0
  SyncsAt w blk = (b : ℕ) → blk ≤ b → b < blk + get_segment_size_blks d blk → Synced w.devices b

  -- The result of a copy step from `w`: what the theorem below says of it.
  abbrev pub Advances : World V c → ℕ → World V c × Outcome RebuildError Bool → Type 0
  Advances w blk r = Inv r.0 × Keeps w r.0 × SyncsAt r.0 blk

  mark_steps :
      (w : World V c) (blk : ℕ) (t : Bool) (m : SegmentMap V)
      → set V w.map.segments blk 1 false ≡ some m
      → mark V c w blk t
        ≡ (record w { map = record { device_name = w.map.device_name; segments = m } }, ok t)
  unfolding mark blk_clean
  mark_steps w blk t m e = rw (e, mark) refl

  touch_seg : (m : SegmentMap V) (blk b : ℕ) → touches V m blk 1 b ≡ true → seg V m b ≡ seg V m blk
  touch_seg m blk b h =
      let same : blk + 1 - 1 ≡ blk = omega arith in ground (arith, ap (λ k. seg V m k) same)

  Fits-again : (m m' : SegmentMap V) → Fits V d m → IsSound V m' → SameShape V m m' → Fits V d m'
  Fits-again m m' f w s = record {
    walk_sound = f.walk_sound;
    map_sound = w;
    in_map = omega (arith, f.in_map, s.blocks);
    whole = rw (← s.sizes, ← s.lens) f.whole;
  }

  -- The segment at an aligned block of the range is all that a step has of the range.
  step_size :
      (blk b : ℕ)
      → Tiling.IsSound d
      → b < d.range.end
      → blk ≤ b
      → b < blk + d.segment_size_blks
      → b < blk + get_segment_size_blks d blk
  step_size blk b w h l u = ground (arith, get_segment_size_blks_lem d blk w (omega arith))

  size_step :
      (blk b : ℕ)
      → Tiling.IsSound d
      → blk < d.range.end
      → b < blk + get_segment_size_blks d blk
      → (b < d.range.end) × (b < blk + d.segment_size_blks)
  size_step blk b w h u = ground (arith, get_segment_size_blks_lem d blk w h)

  tracked_again :
      (w : World V c) (blk b : ℕ) (m : SegmentMap V)
      → Inv w
      → IsAligned d blk
      → blk < d.range.end
      → SyncsAt w blk
      → d.range.start ≤ b
      → b < d.range.end
      → get_bit V m b ≡ (
          if touches V w.map.segments blk 1 b
          then some (some false)
          else get_bit V w.map.segments b)
      → Synced w.devices b ⊎ (get_bit V m b ≡ some (some true))
  tracked_again w blk b m v a u s l k e = elim (v.tracked b l k) [
    | inl y ↦ inl y
    | inr dirty ↦ elim (Bool-cases (touches V w.map.segments blk 1 b)) [
      | inl hit ↦
          let (from, to) =
            in_segment V d w.map.segments blk b v.fits a (touch_seg w.map.segments blk b hit) in
          inl (s b from (step_size blk b v.fits.walk_sound k from to))
      | inr miss ↦ inr (e ∙ ground arith)
    ]
  ]

  -- The mark after a copy succeeds, and takes the dirt off the blocks of that segment alone.
  mark_lem :
      (w : World V c) (blk : ℕ) (t : Bool)
      → Inv w
      → IsAligned d blk
      → blk < d.range.end
      → SyncsAt w blk
      → (w' : World V c) × (mark V c w blk t ≡ (w', ok t)) × Inv w' × (w'.devices ≡ w.devices)
  mark_lem w blk t v a u s =
      let r =
        set-get_bit V w.map.segments blk 1 false v.fits.map_sound (omega arith)
          (omega (arith, v.fits.in_map)) in
      let m : RebuildMap V = record { device_name = w.map.device_name; segments = r.0 } in
      let w' : World V c = record { map = m; devices = w.devices } in
      (
        w',
        mark_steps w blk t r.0 r.1,
        record {
          fits = Fits-again w.map.segments r.0 v.fits r.2 r.3;
          tracked =
              λ b l k. tracked_again w blk b r.0 v a u s l k (r.4 b (omega (arith, v.fits.in_map)));
        },
        refl,
      )

  -- A clean segment is in sync already.
  clean_SyncsAt :
      (w : World V c) (blk : ℕ)
      → Inv w
      → IsAligned d blk
      → d.range.start ≤ blk
      → blk < d.range.end
      → get_bit V w.map.segments blk ≡ some (some false)
      → SyncsAt w blk
  clean_SyncsAt w blk v a l u e b from to =
      let within = size_step blk b v.fits.walk_sound u to in
      let same =
        get_bit_same V w.map.segments b blk v.fits.map_sound
          (omega (arith, within.0, v.fits.in_map)) (omega (arith, v.fits.in_map))
          (same_segment V d w.map.segments blk b v.fits a from within.1) in
      elim (v.tracked b (omega (arith, l, from)) within.0) [
        | inl y ↦ y
        | inr dirty ↦ cc (e, dirty, same)
      ]

  copied_lem :
      (w : World V c) (blk : ℕ) (t : Bool) (r : Devices × Outcome RebuildError Bool)
      → Inv w
      → IsAligned d blk
      → blk < d.range.end
      → copy w.devices blk ≡ r
      → (copied V c w blk r).1 ≡ ok t
      → Advances w blk (copied V c w blk r)
  unfolding copied
  copied_lem w blk t (s, ok done) v a u e h =
      let kept : (b : ℕ) → Synced w.devices b → Synced s b =
        λ b y. rw e at (copy_keeps w.devices blk b y) in
      let v' : Inv (record w { devices = s }) = record {
        fits = v.fits;
        tracked =
            λ b l k. elim (v.tracked b l k) [ inl y ↦ inl (kept b y) | inr dirty ↦ inr dirty ];
      } in
      let synced : SyncsAt (record w { devices = s }) blk =
        λ b from to. copy_syncs w.devices s blk b done e from to in
      let m = mark_lem (record w { devices = s }) blk done v' a u synced in
      rw (m.1) (m.2, λ b y. rw (m.3) (kept b y), λ b from to. rw (m.3) (synced b from to))
  copied_lem w blk t (s, err x) v a u e h = cc
  copied_lem w blk t (s, panic) v a u e h = cc

  -- A copy that succeeds leaves the rest of the range tracked, every block of its segment in sync,
  -- and no block worse off.
  pub copy_segment-Advances :
      (w : World V c) (blk : ℕ) (t : Bool)
      → Inv w
      → IsAligned d blk
      → d.range.start ≤ blk
      → blk < d.range.end
      → (copy_segment V c w blk).1 ≡ ok t
      → Advances w blk (copy_segment V c w blk)
  unfolding copy_segment is_blk_clean unless_clean
  copy_segment-Advances w blk t v a l u =
      let bit =
        get_bit_total V w.map.segments blk v.fits.map_sound (omega (arith, v.fits.in_map)) in
      by_bit bit.0 bit.1
    where
      by_bit :
          (bit : Bool)
          → get_bit V w.map.segments blk ≡ some (some bit)
          → (copy_segment V c w blk).1 ≡ ok t
          → Advances w blk (copy_segment V c w blk)
      by_bit false e = rw (e, unless_clean) (λ h. (v, λ b y. y, clean_SyncsAt w blk v a l u e))
      by_bit true e =
          rw (e, unless_clean) (λ h. copied_lem w blk t (copy w.devices blk) v a u refl h)
