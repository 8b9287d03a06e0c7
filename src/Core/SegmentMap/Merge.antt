-- ===== src/Core/SegmentMap/Merge.antt =====
-- A new map is clean, and merging two maps of one device adds up their dirty blocks.
use mayastor.Common.{
  ℕ, ◌+◌, ◌*◌, ◌/◌, ◌%◌, ◌≤◌, ◌<◌, ◌≡◌, refl, ap, ◌∙◌, Bool, false, ◌||◌, Option, some, ◌++◌, arith,
  ◌==◌, length, get_elem?, length-replicate, get_elem?-replicate, Bool-cases, inl, inr, replicate,
}
use mayastor.Common.Words.{u64_mod, mul64_exact}
use mayastor.Core.BitVec.{BitVec, union, map_some-eq-some}
use mayastor.Common.Panic.{div_ceil}
use mayastor.Core.SegmentMap.{SegmentMap, new, merge, get_bit}
use mayastor.Core.SegmentMap.Bits.{length-union, get_elem?-union}
use mayastor.Core.SegmentMap.Ranges.{
  SameShape, IsSound, seg, get_bit_lem, IsSound-again, lbn_to_seg_lem,
}

-- Rounded up, the quotient times the divisor reaches the dividend.
div_ceil_lem : (a b : ℕ) → 0 < b → (q : ℕ) × (div_ceil a b ≡ some q) × (a ≤ q * b)
div_ceil_lem a b p = elim (Bool-cases (a % b == 0)) [
  | inl e ↦ (a / b, ground arith, grind arith)
  | inr e ↦ (a / b + 1, ground arith, grind arith)
]

zeros_length : (n : ℕ) → length (replicate n false) ≡ n
zeros_length n = length-replicate n false

some_of {ℓ} :
    {A : Type ℓ} {o : Option A} {p : Option (Option A)} {a : A}
    → p ≡ some o
    → p ≡ some (some a)
    → o ≡ some a
some_of e f = cc

module _ (V : BitVec) where
  open V use {iter, default, grow, iter-default, iter-grow, or, iter-or}

  fresh : ℕ → ℕ → ℕ → ℕ → SegmentMap V
  fresh num_blocks block_len segment_size n = record {
    segments = grow default n false;
    num_segments = n;
    num_blocks = num_blocks;
    block_len = block_len;
    segment_size = segment_size;
  }

  new_steps :
      (num_blocks block_len segment_size n : ℕ)
      → num_blocks * block_len < u64_mod
      → div_ceil (num_blocks * block_len) segment_size ≡ some n
      → new V num_blocks block_len segment_size ≡ some (fresh num_blocks block_len segment_size n)
  unfolding new fresh
  new_steps num_blocks block_len segment_size n h e =
      rw (mul64_exact num_blocks block_len h) (rw e refl)

  iter-fresh :
      (num_blocks block_len segment_size n : ℕ)
      → iter (fresh num_blocks block_len segment_size n).segments ≡ replicate n false
  unfolding fresh
  iter-fresh num_blocks block_len segment_size n =
      iter-grow default n false ∙ ap (λ l. l ++ replicate n false) iter-default

  fresh-IsSound :
      (num_blocks block_len segment_size n : ℕ)
      → 0 < block_len
      → 0 < segment_size
      → num_blocks * block_len < u64_mod
      → num_blocks * block_len ≤ n * segment_size
      → IsSound V (fresh num_blocks block_len segment_size n)
  unfolding fresh
  fresh-IsSound num_blocks block_len segment_size n p q h c = record {
    blocks_pos = p;
    segments_pos = q;
    fits = h;
    counted =
        ap length (unfold fresh in iter-fresh num_blocks block_len segment_size n)
        ∙ length-replicate n false;
    covered = c;
  }

  -- A map of a device whose bytes fit in a u64, of blocks and segments that are not empty, is made
  -- without a panic, it is sound, and all the blocks of the device are clean in it.
  pub new_clean :
      (num_blocks block_len segment_size : ℕ)
      → 0 < block_len
      → 0 < segment_size
      → num_blocks * block_len < u64_mod
      → (m : SegmentMap V) × (new V num_blocks block_len segment_size ≡ some m)
        × IsSound V m
        × ((b : ℕ) → b < num_blocks → get_bit V m b ≡ some (some false))
  unfolding fresh
  new_clean num_blocks block_len segment_size p q h =
      let n = div_ceil_lem (num_blocks * block_len) segment_size q in
      let m = fresh num_blocks block_len segment_size n.0 in
      let w = fresh-IsSound num_blocks block_len segment_size n.0 p q h n.2 in
      let zeros = iter-fresh num_blocks block_len segment_size n.0 in
      (
        m,
        new_steps num_blocks block_len segment_size n.0 h n.1,
        w,
        λ b k.
            get_bit_lem V m b w k
            ∙ ap some (
                ap (λ l. get_elem? l (seg V m b)) zeros
                ∙ get_elem?-replicate n.0 (seg V m b) false
                    (rw (← zeros_length n.0) (rw (← zeros) (lbn_to_seg_lem V m b w k).1))),
      )

  or_lem :
      (b c : V.Bits)
      → length (iter b) ≡ length (iter c)
      → (d : V.Bits) × (or b c ≡ some d) × (iter d ≡ union (iter b) (iter c))
  or_lem b c e = map_some-eq-some iter (or b c) (iter-or b c ∙ ground arith)

  merge_steps :
      (m other : SegmentMap V) (b : V.Bits)
      → or m.segments other.segments ≡ some b
      → merge V m other ≡ some (record m { segments = b })
  unfolding merge
  merge_steps m other b e = rw e refl

  seg_same :
      (m other : SegmentMap V) (b : ℕ) {y : Bool}
      → SameShape V m other
      → get_elem? (iter other.segments) (seg V other b) ≡ some y
      → get_elem? (iter other.segments) (seg V m b) ≡ some y
  seg_same m other b s e = cc

  -- Merging sound maps of one device succeeds, and a block of the result is dirty exactly if it is
  -- dirty in one of the two.
  pub merge-get_bit :
      (m other : SegmentMap V)
      → IsSound V m
      → IsSound V other
      → SameShape V m other
      → (m' : SegmentMap V) × (merge V m other ≡ some m')
        × IsSound V m'
        × SameShape V m m'
        × ((b : ℕ) (x y : Bool)
            → b < m.num_blocks
            → get_bit V m b ≡ some (some x)
            → get_bit V other b ≡ some (some y)
            → get_bit V m' b ≡ some (some (x || y)))
  merge-get_bit m other w w' s =
      let same : length (iter m.segments) ≡ length (iter other.segments) =
        omega (arith, w.counted, w'.counted, s.nums) in
      let r = or_lem m.segments other.segments same in
      let m' : SegmentMap V = record m { segments = r.0 } in
      let v = IsSound-again V m r.0 w (ap length r.2 ∙ length-union _ _ same) in
      (
        m',
        merge_steps m other r.0 r.1,
        v,
        record { blocks = refl; lens = refl; sizes = refl; nums = refl },
        λ b x y k e f.
            get_bit_lem V m' b v k
            ∙ ap some (
                ap (λ l. get_elem? l (seg V m b)) r.2
                ∙ get_elem?-union _ _ (seg V m b) (some_of (get_bit_lem V m b w k) e)
                    (seg_same m other b s (some_of (get_bit_lem V other b w' (omega arith)) f))),
      )
