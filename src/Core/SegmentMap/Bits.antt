-- ===== src/Core/SegmentMap/Bits.antt =====
-- The bits under `set_range` and `or`.
use mayastor.Common.{
  ℕ, zero, suc, ◌+◌, ◌*◌, ◌/◌, ◌≤◌, ◌<◌, ◌≡◌, refl, ap, ◌∙◌, Bool, ◌&&◌, ◌||◌, some, List, [], ◌∷◌,
  arith, ltb, leb, if◌then◌else◌, length, get_elem?, length-set, get_elem?-set, set, lt→ltb,
}
use native.Mathlib.Nat.{le-div_iff_mul-le, div-lt_iff_lt-mul, div-mul-le_self, le_trans}
use mayastor.Core.BitVec.{BitVec, union, map_some-eq-some}
use mayastor.Core.SegmentMap.{set_range}

-- Whether `j` is one of the `n` numbers from `i` on.
abbrev pub within : ℕ → ℕ → ℕ → Bool
within i n j = leb i j && ltb j (i + n)

-- Division is monotone, and bounded by a quotient that the dividend does not reach.
pub div_mono : (a b c : ℕ) → a ≤ b → 0 < c → a / c ≤ b / c
div_mono a b c h p = (le-div_iff_mul-le p).1 (le_trans (div-mul-le_self a c) h)

pub div-lt : (a b c : ℕ) → 0 < c → a < b * c → a / c < b
div-lt a b c p h = (div-lt_iff_lt-mul p).1 h

module _ (V : BitVec) where
  open V use {iter, set_bit, or, iter-set_bit, iter-or}

  -- A write in bounds succeeds and writes one bit.
  set_bit_lem :
      (b : V.Bits) (i : ℕ) (v : Bool)
      → i < length (iter b)
      → (b' : V.Bits) × (set_bit b i v ≡ some b') × (iter b' ≡ set (iter b) i v)
  set_bit_lem b i v h =
      map_some-eq-some iter (set_bit b i v) (iter-set_bit b i v ∙ rw (lt→ltb _ _ h) refl)

  -- What a loop of writes leaves at each place.
  abbrev pub RangeSet : ℕ → ℕ → Bool → V.Bits → V.Bits → Type 0
  RangeSet n i v b b' =
      (length (iter b') ≡ length (iter b))
      × ((j : ℕ) → get_elem? (iter b') j ≡ (if within i n j then some v else get_elem? (iter b) j))

  extend :
      (n i : ℕ) (v : Bool) (b b' b'' : V.Bits)
      → i < length (iter b)
      → iter b' ≡ set (iter b) i v
      → RangeSet n (i + 1) v b' b''
      → RangeSet (suc n) i v b b''
  extend n i v b b' b'' h w r = (
    r.0 ∙ ap length w ∙ length-set (iter b) i v,
    λ j. ground (arith, r.1 j, ap (λ l. get_elem? l j) w, get_elem?-set (iter b) i j v h),
  )

  pub set_range_lem :
      (n i : ℕ) (v : Bool) (b : V.Bits)
      → i + n ≤ length (iter b)
      → (b' : V.Bits) × (set_range V n i v b ≡ some b') × RangeSet n i v b b'
  unfolding set_range
  set_range_lem zero i v b h = (b, refl, (refl, λ j. ground arith))
  set_range_lem (suc n) i v b h =
      let first = set_bit_lem b i v (omega arith) in
      let same = ap length first.2 ∙ length-set (iter b) i v in
      let rest = set_range_lem n (i + 1) v first.0 (omega (arith, same)) in
      (rest.0, rw (first.1) rest.1, extend n i v b first.0 rest.0 (omega arith) first.2 rest.2)

pub length-union : (xs ys : List Bool) → length xs ≡ length ys → length (union xs ys) ≡ length xs
length-union [] ys h = refl
length-union (x ∷ xs) [] h = absurd (omega arith)
length-union (x ∷ xs) (y ∷ ys) h = ap suc (length-union xs ys (omega arith))

pub get_elem?-union :
    (xs ys : List Bool) (j : ℕ) {x y : Bool}
    → get_elem? xs j ≡ some x
    → get_elem? ys j ≡ some y
    → get_elem? (union xs ys) j ≡ some (x || y)
get_elem?-union [] ys j h k = cc
get_elem?-union (x ∷ xs) [] j h k = cc
get_elem?-union (x ∷ xs) (y ∷ ys) zero h k = ground arith
get_elem?-union (x ∷ xs) (y ∷ ys) (suc j) h k = get_elem?-union xs ys j h k
