-- ===== src/Nexus/IoLog/Final.antt =====
-- The map that a log leaves: it holds what was written on any core.
use Prim.Native.String.{String}
use mayastor.Common.{
  ℕ, ◌≡◌, ◌≢◌, ◌<◌, refl, sym, ◌∙◌, Bool, false, ◌||◌, Option, none, some, List, [], ◌∷◌, arith,
}
use mayastor.Core.BitVec.{BitVec}
use mayastor.Core.SegmentMap.{SegmentMap, merge}
use mayastor.Core.SegmentMap.Ranges.{IsSound, SameShape}
use mayastor.Core.SegmentMap.Merge.{merge-get_bit}
use mayastor.Rebuild.Partial.{RebuildMap}
use mayastor.Nexus.IoLog.{IoLogChannel, IoLog, finalize, taken, merge_all, reduced}
use mayastor.Nexus.IoLog.Dirty.{
  is_dirty, dirty_at, IsKept, AllKept, any_dirty, SameShape-trans, is_dirty_lem, is_dirty_of,
}

or_false : (x : Bool) → x ≡ (x || false)
or_false x = ground arith

or_assoc : (x y z : Bool) → ((x || y) || z) ≡ (x || (y || z))
or_assoc x y z = ground arith

module _ (V : BitVec) where
  shape_of : {m s t : SegmentMap V} → SameShape V m s → SameShape V m t → SameShape V s t
  shape_of a b = record {
    blocks = sym a.blocks ∙ b.blocks;
    lens = sym a.lens ∙ b.lens;
    sizes = sym a.sizes ∙ b.sizes;
    nums = sym a.nums ∙ b.nums;
  }

  -- A merge of two maps of the device of `m`.
  merged_lem :
      (m s t : SegmentMap V)
      → IsSound V s
      → SameShape V m s
      → IsSound V t
      → SameShape V m t
      → (u : SegmentMap V) × (merge V s t ≡ some u)
        × IsSound V u
        × SameShape V m u
        × ((b : ℕ) → b < m.num_blocks → is_dirty V u b ≡ (is_dirty V s b || is_dirty V t b))
  merged_lem m s t w e w' e' =
      let (u, r, v, x, f) = merge-get_bit V s t w w' (shape_of e e') in
      (
        u,
        r,
        v,
        SameShape-trans V m s u e x,
        λ b h. is_dirty_of V u b _ (
            f b (is_dirty V s b) (is_dirty V t b) (omega (arith, e.blocks, h))
              (is_dirty_lem V s b w (omega (arith, e.blocks, h)))
              (is_dirty_lem V t b w' (omega (arith, e'.blocks, h)))),
      )

  kept_some :
      (m : SegmentMap V) (o : Option (SegmentMap V))
      → IsKept V m o
      → (s : SegmentMap V) × (o ≡ some s)
        × (IsSound V s × SameShape V m s)
        × ((b : ℕ) → dirty_at V o b ≡ is_dirty V s b)
  kept_some m none k = absurd k
  kept_some m (some s) k = (s, refl, k, λ b. refl)

  taken_merged :
      (m acc : SegmentMap V) (cs : List (IoLogChannel V))
      → IsSound V acc
      → SameShape V m acc
      → AllKept V m cs
      → (maps : List (SegmentMap V)) × (u : SegmentMap V) × (taken V cs ≡ some maps)
        × (merge_all V acc maps ≡ some u)
        × IsSound V u
        × SameShape V m u
        × ((b : ℕ) → b < m.num_blocks → is_dirty V u b ≡ (is_dirty V acc b || any_dirty V cs b))
  unfolding taken merge_all
  taken_merged m acc [] w e k = ([], acc, refl, refl, w, e, λ b h. or_false _)
  taken_merged m acc (c ∷ cs) w e k =
      let (s, z, y, d) = kept_some m c.segments k.0 in
      let (t, r, v, x, f) = merged_lem m acc s w e y.0 y.1 in
      let (maps, u, r', q, v', x', g) = taken_merged m t cs v x k.1 in
      (
        s ∷ maps,
        u,
        rw (z, r') refl,
        rw r q,
        v',
        x',
        λ b h.
            g b h
            ∙ rw (f b h, d b) (or_assoc (is_dirty V acc b) (is_dirty V s b) (any_dirty V cs b)),
      )

  -- The end of a log whose channels are kept.
  pub finalize_lem :
      (m : SegmentMap V) (l : IoLog V)
      → l.channels ≢ []
      → AllKept V m l.channels
      → (r : RebuildMap V) × (finalize V l ≡ some r)
        × IsSound V r.segments
        × SameShape V m r.segments
        × ((b : ℕ) → b < m.num_blocks → is_dirty V r.segments b ≡ any_dirty V l.channels b)
  unfolding finalize reduced taken
  finalize_lem m l n k = at_channels l.device_name l.channels n k
    where
      at_channels :
          (name : String) (cs : List (IoLogChannel V))
          → cs ≢ []
          → AllKept V m cs
          → (r : RebuildMap V) × (finalize V (record { device_name = name; channels = cs })
              ≡ some r)
            × IsSound V r.segments
            × SameShape V m r.segments
            × ((b : ℕ) → b < m.num_blocks → is_dirty V r.segments b ≡ any_dirty V cs b)
      at_channels name [] n k = absurd (n refl)
      at_channels name (c ∷ cs) n k =
          let (s, z, y, d) = kept_some m c.segments k.0 in
          let (maps, u, r, q, v, x, g) = taken_merged m s cs y.0 y.1 k.1 in
          (
            record { device_name = name; segments = u },
            rw (z, r, q) refl,
            v,
            x,
            λ b h. g b h ∙ rw (d b) refl,
          )
