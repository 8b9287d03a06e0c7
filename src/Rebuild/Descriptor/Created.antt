-- ===== src/Rebuild/Descriptor/Created.antt =====
-- A descriptor that `RebuildDescriptor::new` has made is one that the walks are sound for.
use native.Mathlib.Nat.{div_self, div-le_self}
use mayastor.Common.{
  ℕ, ◌+◌, ◌/◌, ◌≡◌, ◌<◌, ◌≤◌, refl, Bool, true, false, Option, Outcome, ok, err, panic, ◌==◌, inl,
  inr, arith, Bool-cases,
}
use mayastor.Common.Words.{u64_mod}
use mayastor.Core.SegmentMap.Bits.{div_mono}
use mayastor.Rebuild.Descriptor.{
  Range, RebuildVerifyMode, ReadOptions, RebuildDescriptor, BlockDevice, NewError, within_range,
  validate, range_or_device, check_new, new, invalid_src_dst_range,
}
use mayastor.Rebuild.Walk.Tiling.{IsSound}

-- What a descriptor promises of its devices.
pub record IsWithin (src dst : BlockDevice) (d : RebuildDescriptor) : Type 0 where
  pub sound : IsSound d
  pub filled : d.range.start < d.range.end
  pub in_source : d.range.end ≤ src.num_blocks
  pub in_destination : d.range.end ≤ dst.num_blocks
  pub alike : src.block_len ≡ dst.block_len

abbrev Made : Type 0
Made = Outcome NewError RebuildDescriptor

ok_inj : {a b : RebuildDescriptor} (x y : Made) → x ≡ ok a → y ≡ ok b → x ≡ y → a ≡ b
ok_inj x y p q e = cc

div_pos : (s b : ℕ) → 0 < b → b ≤ s → 0 < s / b
div_pos s b p h =
    let one = div_self {n = b} p in let mono = div_mono b s b h p in omega (arith, one, mono)

IsWithin-of :
    {src dst : BlockDevice} {c d : RebuildDescriptor}
    → c ≡ d
    → IsWithin src dst c
    → IsWithin src dst d
IsWithin-of e w = rw e at w

validate_lem :
    (src dst : BlockDevice) (r : Range)
    → validate src dst r ≡ true
    → (r.start < r.end)
      × (r.end ≤ src.num_blocks)
      × (r.end ≤ dst.num_blocks)
      × (src.block_len ≡ dst.block_len)
unfolding validate within_range
validate_lem src dst r v = ground (arith, v)

check_new_lem :
    (segment_size : ℕ) (src dst : BlockDevice) (v : RebuildVerifyMode) (o : ReadOptions) (r : Range)
    {d : RebuildDescriptor}
    → dst.block_len ≤ segment_size
    → dst.num_blocks + segment_size < u64_mod
    → check_new segment_size src dst v o r ≡ ok d
    → IsWithin src dst d
unfolding check_new
check_new_lem segment_size src dst v o r {d} h u e = elim (Bool-cases (validate src dst r)) [
  | inr z ↦
      let q : err invalid_src_dst_range ≡ ok d = rw (check_new, z) at e in absurd (ground arith)
  | inl z ↦ elim (Bool-cases (dst.block_len == 0)) [
    | inl y ↦ let q : panic ≡ ok d = rw (check_new, z, y) at e in absurd (ground arith)
    | inr y ↦
        let (filled, inside, within, same) = validate_lem src dst r z in
        let small = div-le_self segment_size dst.block_len in
        IsWithin-of (ok_inj _ _ refl refl (rw (check_new, z, y) at e)) (record {
          sound = record {
            step_pos = div_pos segment_size dst.block_len (ground (arith, y)) h;
            fits = omega (arith, within, small, u);
          };
          filled = filled;
          in_source = inside;
          in_destination = within;
          alike = same;
        })
  ]
]

-- A rebuild descriptor that was made without an error, for a destination whose blocks are no larger
-- than a segment and fit in a u64 with one segment more, is sound: its segments have a size, and its
-- range is not empty and lies within both devices, which have blocks of one size.
pub new-IsWithin :
    (segment_size : ℕ) (src dst : BlockDevice) (same_name : Bool) (range : Option Range)
    (v : RebuildVerifyMode) (o : ReadOptions) {d : RebuildDescriptor}
    → dst.block_len ≤ segment_size
    → dst.num_blocks + segment_size < u64_mod
    → new segment_size src dst same_name range v o ≡ ok d
    → IsWithin src dst d
unfolding new
new-IsWithin segment_size src dst true range v o {d} h u e = absurd (ground arith)
new-IsWithin segment_size src dst false range v o {d} h u e =
    by_range (range_or_device range dst) refl e
  where
    by_range :
        (r : Outcome NewError Range)
        → range_or_device range dst ≡ r
        → new segment_size src dst false range v o ≡ ok d
        → IsWithin src dst d
    by_range (ok r) q e = check_new_lem segment_size src dst v o r h u (rw (new, q) at e)
    by_range (err x) q e = let z : err x ≡ ok d = rw (new, q) at e in absurd (ground arith)
    by_range panic q e = let z : panic ≡ ok d = rw (new, q) at e in absurd (ground arith)
