-- ===== src/Rebuild/Allocated/Indices.antt =====
-- Which blocks the walk over the bits gives out.
use mayastor.Common.{
  ℕ, zero, suc, ◌+◌, ◌-◌, ◌≤◌, ◌<◌, ◌≡◌, refl, sym, ap, ◌∙◌, Bool, true, false, Option, none, some,
  List, [], ◌∷◌, arith, All, length, ◌⊎◌, inl, inr,
}
use mayastor.Core.BitVec.{BitVec}
use mayastor.Core.SegmentMap.{SegmentMap}
use mayastor.Rebuild.Descriptor.{RebuildDescriptor}
use mayastor.Rebuild.Allocated.{
  Enumerate, PartialRebuild, next, next_set, enumerate_next, new, drain,
}

-- The indices of the set bits, from the index of the first bit on.
abbrev pub indices : ℕ → List Bool → List ℕ
indices i [] = []
indices i (true ∷ bits) = i ∷ indices (suc i) bits
indices i (false ∷ bits) = indices (suc i) bits

-- What is left behind the item that was looked at.
abbrev left : Option (ℕ × Bool) → ℕ → List Bool → List ℕ
left none i bits = []
left (some (blk, true)) i bits = blk ∷ indices i bits
left (some (blk, false)) i bits = indices i bits

-- The items that are left, to measure the fuel.
abbrev items : Option (ℕ × Bool) → List Bool → ℕ
items none bits = 0
items (some p) bits = suc (length bits)

abbrev after : Enumerate × Option (ℕ × Bool) × Option ℕ → List ℕ
after (it, p, o) = left p it.index it.bits

abbrev size_after : Enumerate × Option (ℕ × Bool) × Option ℕ → ℕ
size_after (it, p, o) = items p it.bits

abbrev IsStep : List ℕ → Enumerate × Option (ℕ × Bool) × Option ℕ → Type 0
IsStep l r = ((r.2 ≡ none) × (l ≡ [])) ⊎ ((blk : ℕ) × (r.2 ≡ some blk) × (l ≡ blk ∷ after r))

next_set_lem :
    (i : ℕ) (bits : List Bool) (p : Option (ℕ × Bool))
    → IsStep (left p i bits) (next_set i bits p)
      × (size_after (next_set i bits p) ≤ items p bits - 1)
unfolding next_set
next_set_lem i bits none = (inl (refl, refl), omega arith)
next_set_lem i [] (some (blk, true)) = (inr (blk, refl, refl), omega arith)
next_set_lem i [] (some (blk, false)) = (inl (refl, refl), omega arith)
next_set_lem i (true ∷ bits) (some (blk, true)) = (inr (blk, refl, refl), omega arith)
next_set_lem i (false ∷ bits) (some (blk, true)) = (inr (blk, refl, refl), omega arith)
next_set_lem i (true ∷ bits) (some (blk, false)) =
    let r = next_set_lem (suc i) bits (some (i, true)) in (r.0, omega (arith, r.1))
next_set_lem i (false ∷ bits) (some (blk, false)) =
    let r = next_set_lem (suc i) bits (some (i, false)) in (r.0, omega (arith, r.1))

items_pos :
    (p : Option (ℕ × Bool)) (i : ℕ) (bits : List Bool) {blk : ℕ} {rest : List ℕ}
    → left p i bits ≡ blk ∷ rest
    → 0 < items p bits
items_pos none i bits h = cc
items_pos (some p) i bits h = omega arith

drain_lem :
    (fuel : ℕ) (r : PartialRebuild)
    → items r.peek r.iter.bits < fuel
    → drain fuel r ≡ left r.peek r.iter.index r.iter.bits
unfolding drain next
drain_lem zero r h = absurd (omega arith)
drain_lem (suc fuel) r h =
    let s = next_set_lem r.iter.index r.iter.bits r.peek in
    elim s.0 [
      | inl (e, l) ↦ rw (e, drain) (sym l)
      | inr (blk, e, l) ↦
          let pos = items_pos r.peek r.iter.index r.iter.bits l in
          let rest = drain_lem fuel (next r).0 (omega (arith, s.1, pos)) in
          rw (e, drain) (ap (λ k. blk ∷ k) rest ∙ sym l)
    ]

start_lem :
    (bits : List Bool)
    → let (it, p) = enumerate_next (record { index = 0; bits = bits }) in
      (left p it.index it.bits ≡ indices 0 bits) × (items p it.bits ≡ length bits)
unfolding enumerate_next
start_lem [] = (refl, refl)
start_lem (true ∷ bits) = (refl, refl)
start_lem (false ∷ bits) = (refl, refl)

new_parts :
    (V : BitVec) (m : SegmentMap V) (d : RebuildDescriptor) (r : PartialRebuild)
    → new V m d ≡ some r
    → (r.iter ≡ (enumerate_next (record { index = 0; bits = V.iter m.segments })).0)
      × (r.peek ≡ (enumerate_next (record { index = 0; bits = V.iter m.segments })).1)
unfolding new
new_parts V m d r h = ground arith

new_lem :
    (V : BitVec) (m : SegmentMap V) (d : RebuildDescriptor) (r : PartialRebuild)
    → new V m d ≡ some r
    → (left r.peek r.iter.index r.iter.bits ≡ indices 0 (V.iter m.segments))
      × (items r.peek r.iter.bits ≡ length (V.iter m.segments))
new_lem V m d r h = let e = new_parts V m d r h in rw (e.0, e.1) (start_lem (V.iter m.segments))

-- The blocks that a partial rebuild gives out, with enough fuel, are the indices of the dirty
-- segments, in order.
pub drain-indices :
    (V : BitVec) (m : SegmentMap V) (d : RebuildDescriptor) (r : PartialRebuild) (fuel : ℕ)
    → new V m d ≡ some r
    → length (V.iter m.segments) < fuel
    → drain fuel r ≡ indices 0 (V.iter m.segments)
drain-indices V m d r fuel e h =
    let n = new_lem V m d r e in drain_lem fuel r (omega (arith, n.1)) ∙ n.0

All-indices :
    (i n : ℕ) (bits : List Bool) → i + length bits ≤ n → All (λ blk. blk < n) (indices i bits)
All-indices i n [] h = tt
All-indices i n (true ∷ bits) h = (omega arith, All-indices (suc i) n bits (omega arith))
All-indices i n (false ∷ bits) h = All-indices (suc i) n bits (omega arith)

-- So, with enough fuel, no copy of one segment from a block that is given out on reaches a block that
-- lies a segment or more behind the number of segments, whatever the map says of that block.
pub PartialRebuild_misses :
    (V : BitVec) (m : SegmentMap V) (d : RebuildDescriptor) (r : PartialRebuild) (fuel b : ℕ)
    → new V m d ≡ some r
    → length (V.iter m.segments) < fuel
    → length (V.iter m.segments) + d.segment_size_blks ≤ b
    → All (λ blk. blk + d.segment_size_blks ≤ b) (drain fuel r)
PartialRebuild_misses V m d r fuel b e h k =
    rw (drain-indices V m d r fuel e h)
      (All-mono _ (All-indices 0 (length (V.iter m.segments)) (V.iter m.segments) (omega arith)))
  where
    All-mono :
        (l : List ℕ)
        → All (λ blk. blk < length (V.iter m.segments)) l
        → All (λ blk. blk + d.segment_size_blks ≤ b) l
    All-mono [] a = tt
    All-mono (x ∷ l) a = (omega (arith, a.0, k), All-mono l a.1)
