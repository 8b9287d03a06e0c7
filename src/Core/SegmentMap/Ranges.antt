-- ===== src/Core/SegmentMap/Ranges.antt =====
-- What the operations of a segment map do to the blocks of the device.
use native.Mathlib.Nat.{mul-lt-mul_of_pos_right, mul-le-mul_left, mul-le-mul_right}
use mayastor.Common.{
  ℕ, ◌+◌, ◌-◌, ◌*◌, ◌/◌, ◌≤◌, ◌<◌, ◌≡◌, refl, sym, ap, ◌∙◌, Bool, true, false, ◌&&◌, some, arith,
  leb, ◌==◌, if◌then◌else◌, length, get_elem?, get_elem?_total,
}
use mayastor.Common.Words.{u64_mod, add64, sub64, add64_exact, sub64_exact, mul64_exact}
use mayastor.Core.BitVec.{BitVec}
use mayastor.Core.SegmentMap.{SegmentMap, set_range, set, get_bit, lbn_to_seg}
use mayastor.Core.SegmentMap.Bits.{within, div_mono, div-lt, RangeSet, set_range_lem}

last_exact : (a n : ℕ) → 0 < n → a + n < u64_mod → sub64 (add64 a n) 1 ≡ a + n - 1
last_exact a n p h = rw (add64_exact a n h) (sub64_exact (a + n) 1 (omega arith) h)

module _ (V : BitVec) where
  open V use {iter, default, grow, iter-default, iter-grow, get_lem, or, iter-or}

  -- The sizes are positive, the device's bytes fit in a u64, and its segments cover it.
  pub record IsSound (m : SegmentMap V) : Type 0 where
    pub blocks_pos : 0 < m.block_len
    pub segments_pos : 0 < m.segment_size
    pub fits : m.num_blocks * m.block_len < u64_mod
    pub counted : length (iter m.segments) ≡ m.num_segments
    pub covered : m.num_blocks * m.block_len ≤ m.num_segments * m.segment_size

  -- Two maps of one device.
  pub record SameShape (m other : SegmentMap V) : Type 0 where
    pub blocks : m.num_blocks ≡ other.num_blocks
    pub lens : m.block_len ≡ other.block_len
    pub sizes : m.segment_size ≡ other.segment_size
    pub nums : m.num_segments ≡ other.num_segments

  -- The segment that a block lies in.
  abbrev pub seg : SegmentMap V → ℕ → ℕ
  seg m lbn = lbn * m.block_len / m.segment_size

  bytes_below :
      (m : SegmentMap V) (lbn : ℕ)
      → IsSound m
      → lbn < m.num_blocks
      → lbn * m.block_len < m.num_blocks * m.block_len
  bytes_below m lbn w h = mul-lt-mul_of_pos_right h w.blocks_pos

  pub lbn_to_seg_lem :
      (m : SegmentMap V) (lbn : ℕ)
      → IsSound m
      → lbn < m.num_blocks
      → (lbn_to_seg V m lbn ≡ some (seg m lbn)) × (seg m lbn < length (iter m.segments))
  unfolding lbn_to_seg
  lbn_to_seg_lem m lbn w h =
      let below = bytes_below m lbn w h in
      (
        ground (arith, below, mul64_exact lbn m.block_len (omega (arith, below))),
        rw w.counted (div-lt _ _ _ w.segments_pos (omega (arith, below))),
      )

  -- Reading a block of the device finds the bit of its segment.
  pub get_bit_lem :
      (m : SegmentMap V) (lbn : ℕ)
      → IsSound m
      → lbn < m.num_blocks
      → get_bit V m lbn ≡ some (get_elem? (iter m.segments) (seg m lbn))
  unfolding get_bit
  get_bit_lem m lbn w h =
      rw ((lbn_to_seg_lem m lbn w h).0) (rw (get_lem m.segments (seg m lbn)) refl)

  blocks_fit : (m : SegmentMap V) → IsSound m → m.num_blocks < u64_mod
  blocks_fit m w =
      let scaled = mul-le-mul_left {m = 1} {n = m.block_len} m.num_blocks w.blocks_pos in
      omega (arith, w.fits, scaled)

  abbrev pub touches : SegmentMap V → ℕ → ℕ → ℕ → Bool
  touches m lbn lbn_cnt b = leb (seg m lbn) (seg m b) && leb (seg m b) (seg m (lbn + lbn_cnt - 1))

  -- The outcome of `set` on a range of blocks of the device.
  abbrev pub Sets : SegmentMap V → ℕ → ℕ → Bool → SegmentMap V → Type 0
  Sets m lbn lbn_cnt v m' =
      (b : ℕ)
      → b < m.num_blocks
      → get_bit V m' b ≡ (if touches m lbn lbn_cnt b then some (some v) else get_bit V m b)

  seg_mono : (m : SegmentMap V) (a b : ℕ) → IsSound m → a ≤ b → seg m a ≤ seg m b
  seg_mono m a b w h = div_mono _ _ _ (mul-le-mul_right m.block_len h) w.segments_pos

  set_steps :
      (m : SegmentMap V) (lbn lbn_cnt : ℕ) (v : Bool) (s t : ℕ) (b : V.Bits)
      → (m.num_blocks == 0) ≡ false
      → lbn_to_seg V m lbn ≡ some s
      → lbn_to_seg V m (sub64 (add64 lbn lbn_cnt) 1) ≡ some t
      → set_range V (t + 1 - s) s v m.segments ≡ some b
      → set V m lbn lbn_cnt v ≡ some (record m { segments = b })
  unfolding set
  set_steps m lbn lbn_cnt v s t b used f l r = rw (used, f, l, r)

  set_in :
      (m : SegmentMap V) (lbn lbn_cnt : ℕ) (v : Bool)
      → IsSound m
      → 0 < lbn_cnt
      → lbn + lbn_cnt ≤ m.num_blocks
      → (b : V.Bits) × (set V m lbn lbn_cnt v ≡ some (record m { segments = b }))
        × RangeSet V (seg m (lbn + lbn_cnt - 1) + 1 - seg m lbn) (seg m lbn) v m.segments b
  unfolding set
  set_in m lbn lbn_cnt v w p h =
      let last : ℕ = lbn + lbn_cnt - 1 in
      let used : (m.num_blocks == 0) ≡ false = ground arith in
      let exact = last_exact lbn lbn_cnt p (omega (arith, blocks_fit m w)) in
      let s = lbn_to_seg_lem m lbn w (omega arith) in
      let t = lbn_to_seg_lem m last w (omega arith) in
      let up = seg_mono m lbn last w (omega arith) in
      let range =
        set_range_lem V (seg m last + 1 - seg m lbn) (seg m lbn) v m.segments
          (omega (arith, up, t.1)) in
      (range.0, set_steps m lbn lbn_cnt v _ _ range.0 used s.0 (rw exact t.0) range.1, range.2)

  pub IsSound-again :
      (m : SegmentMap V) (b : V.Bits)
      → IsSound m
      → length (iter b) ≡ length (iter m.segments)
      → IsSound (record m { segments = b })
  IsSound-again m b w e = record {
    blocks_pos = w.blocks_pos;
    segments_pos = w.segments_pos;
    fits = w.fits;
    counted = e ∙ w.counted;
    covered = w.covered;
  }

  touches_read :
      (m : SegmentMap V) (lbn lbn_cnt : ℕ) (v : Bool) (b : ℕ)
      → seg m lbn ≤ seg m (lbn + lbn_cnt - 1)
      → get_bit V m b ≡ some (get_elem? (iter m.segments) (seg m b))
      → some (
          if within (seg m lbn) (seg m (lbn + lbn_cnt - 1) + 1 - seg m lbn) (seg m b)
          then some v
          else get_elem? (iter m.segments) (seg m b))
        ≡ (if touches m lbn lbn_cnt b then some (some v) else get_bit V m b)
  touches_read m lbn lbn_cnt v b up e = ground arith

  -- Setting a range of blocks that is not empty, within a sound map, succeeds, leaves a sound map of the
  -- same sizes, and gives the value to the blocks of every segment from that of the first block to that of the last, and to no other.
  pub set-get_bit :
      (m : SegmentMap V) (lbn lbn_cnt : ℕ) (v : Bool)
      → IsSound m
      → 0 < lbn_cnt
      → lbn + lbn_cnt ≤ m.num_blocks
      → (m' : SegmentMap V) × (set V m lbn lbn_cnt v ≡ some m')
        × IsSound m'
        × SameShape m m'
        × Sets m lbn lbn_cnt v m'
  set-get_bit m lbn lbn_cnt v w p h =
      let r = set_in m lbn lbn_cnt v w p h in
      let m' : SegmentMap V = record m { segments = r.0 } in
      let w' = IsSound-again m r.0 w r.2.0 in
      (
        m',
        r.1,
        w',
        record { blocks = refl; lens = refl; sizes = refl; nums = refl },
        λ b k.
            get_bit_lem m' b w' k
            ∙ ap some (r.2.1 (seg m b))
            ∙ touches_read m lbn lbn_cnt v b (seg_mono m lbn (lbn + lbn_cnt - 1) w (omega arith))
                (get_bit_lem m b w k),
      )

  -- When blocks within a sound map were set dirty, each of them reads as dirty.
  pub set_covers :
      (m m' : SegmentMap V) (lbn lbn_cnt b : ℕ)
      → IsSound m
      → lbn + lbn_cnt ≤ m.num_blocks
      → set V m lbn lbn_cnt true ≡ some m'
      → lbn ≤ b
      → b < lbn + lbn_cnt
      → get_bit V m' b ≡ some (some true)
  set_covers m m' lbn lbn_cnt b w h e l u =
      let r = set-get_bit m lbn lbn_cnt true w (omega arith) h in
      let from = seg_mono m lbn b w l in
      let to = seg_mono m b (lbn + lbn_cnt - 1) w (omega arith) in
      let same : m' ≡ r.0 = cc (e, r.1) in rw (same, r.4 b (omega arith)) (ground (arith, from, to))

  -- A block of the device has a bit, and the blocks of one segment have the same one.
  pub get_bit_total :
      (m : SegmentMap V) (lbn : ℕ)
      → IsSound m
      → lbn < m.num_blocks
      → (v : Bool) × (get_bit V m lbn ≡ some (some v))
  get_bit_total m lbn w h =
      let e = get_elem?_total (iter m.segments) (seg m lbn) (lbn_to_seg_lem m lbn w h).1 in
      (e.0, get_bit_lem m lbn w h ∙ ap some e.1)

  pub get_bit_same :
      (m : SegmentMap V) (a b : ℕ)
      → IsSound m
      → a < m.num_blocks
      → b < m.num_blocks
      → seg m a ≡ seg m b
      → get_bit V m a ≡ get_bit V m b
  get_bit_same m a b w h k e =
      get_bit_lem m a w h
      ∙ ap (λ s. some (get_elem? (iter m.segments) s)) e
      ∙ sym (get_bit_lem m b w k)
