-- ===== src/Core/BitVec.antt =====
-- The growable bit vector of the crate `bit_vec`, which the segment map rests on: its operations and
-- what its documentation says of them, as a record that a client takes as a parameter.
use mayastor.Common.{
  ℕ, ◌≡◌, refl, Bool, ◌||◌, Option, none, some, List, [], ◌∷◌, ◌++◌, ltb, ◌==◌, if◌then◌else◌,
  length, get_elem?, set, replicate,
}

-- The union of two vectors of one length, bit by bit.
abbrev pub union : List Bool → List Bool → List Bool
union [] ys = []
union (x ∷ xs) [] = []
union (x ∷ xs) (y ∷ ys) = (x || y) ∷ union xs ys

abbrev pub map_some {ℓ κ} : {A : Type ℓ} {B : Type κ} → (A → B) → Option A → Option B
map_some f none = none
map_some f (some a) = some (f a)

-- `iter` is the sequence of the bits; `set` panics (`none`) out of bounds, and `or` on vectors of
-- different lengths.
pub record BitVec : Type 1 where
  pub Bits : Type 0
  pub default : Bits
  pub grow : Bits → ℕ → Bool → Bits
  pub get : Bits → ℕ → Option Bool
  pub set_bit : Bits → ℕ → Bool → Option Bits
  pub or : Bits → Bits → Option Bits
  pub iter : Bits → List Bool
  pub iter-default : iter default ≡ []
  pub iter-grow : (b : Bits) (n : ℕ) (v : Bool) → iter (grow b n v) ≡ iter b ++ replicate n v
  pub get_lem : (b : Bits) (i : ℕ) → get b i ≡ get_elem? (iter b) i
  pub iter-set_bit :
      (b : Bits) (i : ℕ) (v : Bool)
      → map_some iter (set_bit b i v)
        ≡ (if ltb i (length (iter b)) then some (set (iter b) i v) else none)
  pub iter-or :
      (b c : Bits)
      → map_some iter (or b c)
        ≡ (if length (iter b) == length (iter c) then some (union (iter b) (iter c)) else none)

-- Lists of bits meet the documented behaviour.
unfoldable pub list_set : List Bool → ℕ → Bool → Option (List Bool)
list_set b i v = if ltb i (length b) then some (set b i v) else none

unfoldable pub list_or : List Bool → List Bool → Option (List Bool)
list_or b c = if length b == length c then some (union b c) else none

map_some-id {ℓ} : {A : Type ℓ} (o : Option A) → map_some (λ a. a) o ≡ o
map_some-id none = refl
map_some-id (some a) = refl

pub list_set-iter :
    (b : List Bool) (i : ℕ) (v : Bool)
    → map_some (λ a. a) (list_set b i v) ≡ (if ltb i (length b) then some (set b i v) else none)
unfolding list_set
list_set-iter b i v = map_some-id _

pub list_or-iter :
    (b c : List Bool)
    → map_some (λ a. a) (list_or b c) ≡ (if length b == length c then some (union b c) else none)
unfolding list_or
list_or-iter b c = map_some-id _

abbrev pub list_bits : BitVec
list_bits = record {
  Bits = List Bool;
  default = [];
  grow = λ b n v. b ++ replicate n v;
  get = get_elem?;
  set_bit = list_set;
  or = list_or;
  iter = λ b. b;
  iter-default = refl;
  iter-grow = λ b n v. refl;
  get_lem = λ b i. refl;
  iter-set_bit = list_set-iter;
  iter-or = list_or-iter;
}

pub map_some-eq-some {ℓ κ} :
    {A : Type ℓ} {B : Type κ} (f : A → B) (o : Option A) {b : B}
    → map_some f o ≡ some b
    → (a : A) × (o ≡ some a) × (f a ≡ b)
map_some-eq-some f none h = cc
map_some-eq-some f (some a) h = (a, refl, cc)
