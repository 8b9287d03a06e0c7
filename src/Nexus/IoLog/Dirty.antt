-- ===== src/Nexus/IoLog/Dirty.antt =====
-- What a log says of the blocks of the device: the union of what its channels say.
use mayastor.Common.{
  ℕ, ◌+◌, ◌≡◌, ◌<◌, ◌≤◌, refl, ◌∙◌, Bool, true, false, ◌||◌, Option, none, some, List, [], ◌∷◌,
  arith, if◌then◌else◌,
}
use mayastor.Core.BitVec.{BitVec}
use mayastor.Core.SegmentMap.{SegmentMap, set, get_bit}
use mayastor.Core.SegmentMap.Ranges.{IsSound, SameShape, touches, set-get_bit, get_bit_total}
use mayastor.Nexus.IoLog.{IoLogChannel}

pick_or :
    (t t' : Bool) (o : Option (Option Bool)) (d : Bool)
    → t ≡ t'
    → o ≡ some (some d)
    → (if t then some (some true) else o) ≡ some (some (t' || d))
pick_or true t' o d e f = rw (← e) refl
pick_or false t' o d e f = rw (← e) f

module _ (V : BitVec) where
  bit_of : Option (Option Bool) → Bool
  bit_of (some (some v)) = v
  bit_of _ = false

  -- A block whose segment is dirty.
  unfoldable pub is_dirty : SegmentMap V → ℕ → Bool
  unfolding bit_of
  is_dirty m b = bit_of (get_bit V m b)

  pub is_dirty_lem :
      (m : SegmentMap V) (b : ℕ)
      → IsSound V m
      → b < m.num_blocks
      → get_bit V m b ≡ some (some (is_dirty m b))
  unfolding is_dirty
  is_dirty_lem m b w h = let (v, e) = get_bit_total V m b w h in rw (e, bit_of) refl

  pub is_dirty_of :
      (m : SegmentMap V) (b : ℕ) (v : Bool) → get_bit V m b ≡ some (some v) → is_dirty m b ≡ v
  unfolding is_dirty
  is_dirty_of m b v e = rw (e, bit_of) refl

  abbrev pub dirty_at : Option (SegmentMap V) → ℕ → Bool
  dirty_at none b = false
  dirty_at (some m) b = is_dirty m b

  -- A channel that has not been stopped, whose map is a sound one for the device of `m`.
  abbrev pub IsKept : SegmentMap V → Option (SegmentMap V) → Type 0
  IsKept m none = ⊥
  IsKept m (some s) = IsSound V s × SameShape V m s

  abbrev pub AllKept : SegmentMap V → List (IoLogChannel V) → Type 0
  AllKept m [] = Unit
  AllKept m (c ∷ channels) = IsKept m c.segments × AllKept m channels

  abbrev pub any_dirty : List (IoLogChannel V) → ℕ → Bool
  any_dirty [] b = false
  any_dirty (c ∷ channels) b = dirty_at c.segments b || any_dirty channels b

  touches_same :
      (m s : SegmentMap V) (lbn n b : ℕ)
      → SameShape V m s
      → touches V s lbn n b ≡ touches V m lbn n b
  touches_same m s lbn n b e = rw (e.lens, e.sizes) refl

  pub SameShape-trans : (m s t : SegmentMap V) → SameShape V m s → SameShape V s t → SameShape V m t
  SameShape-trans m s t a b = record {
    blocks = a.blocks ∙ b.blocks;
    lens = a.lens ∙ b.lens;
    sizes = a.sizes ∙ b.sizes;
    nums = a.nums ∙ b.nums;
  }

  -- A logged write to a map that is kept.
  pub marked_lem :
      (m s : SegmentMap V) (lbn n : ℕ)
      → IsSound V s
      → SameShape V m s
      → 0 < n
      → lbn + n ≤ m.num_blocks
      → (s' : SegmentMap V) × (set V s lbn n true ≡ some s')
        × IsSound V s'
        × SameShape V m s'
        × ((b : ℕ) → b < m.num_blocks → is_dirty s' b ≡ (touches V m lbn n b || is_dirty s b))
  marked_lem m s lbn n w e p h =
      let (s', r, w', e', f) = set-get_bit V s lbn n true w p (omega (arith, e.blocks, h)) in
      (
        s',
        r,
        w',
        SameShape-trans m s s' e e',
        λ b k.
            let g = f b (omega (arith, e.blocks, k)) in
            let t = touches_same m s lbn n b e in
            let d = is_dirty_lem s b w (omega (arith, e.blocks, k)) in
            is_dirty_of s' b _ (g ∙ pick_or _ _ _ _ t d),
      )
