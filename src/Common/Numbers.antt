-- ===== src/Common/Numbers.antt =====
-- Unsigned numbers as text in a radix up to 16: what `{}` and `{:x}` print, and what `parse` and
-- `from_str_radix` read, which refuse what is larger than the type.
use Prim.Native.Nat.{ℕ, zero, suc, ◌+◌, ◌-◌, ◌*◌, ◌/◌, ◌%◌, ◌≤◌, ◌<◌}
use mathlib.Core.Path.{◌≡◌, refl, ap, ◌∙◌}
use mathlib.Core.Logic.{◌≢◌, inl, inr}
use mathlib.Core.Bool.{Bool, true, false, not, ◌&&◌}
use mathlib.Core.List.{[], ◌∷◌}
use mathlib.Core.Option.{Option, none, some}
use native.Mathlib.Omega.{arith}
use mayastor.Common.Tests.{if◌then◌else◌, ◌==◌, ltb, leb, Bool-cases}
use mayastor.Common.Lists.{All}
use mayastor.Common.Text.{Text}

abbrev pub digit_char : ℕ → ℕ
digit_char d = if ltb d 10 then b'0' + d else b'a' + (d - 10)

-- `char::to_digit`: letters of both cases.
abbrev pub to_digit : ℕ → Option ℕ
to_digit c =
    if leb b'0' c && leb c b'9'
    then some (c - b'0')
    else if leb b'a' c && leb c b'z'
    then some (c - b'a' + 10)
    else if leb b'A' c && leb c b'Z'
    then some (c - b'A' + 10)
    else none

-- The digits of a number before a text; the number itself is fuel enough.
unfoldable pub print_before : ℕ → ℕ → ℕ → Text → Text
print_before radix zero n s = digit_char n ∷ s
print_before radix (suc fuel) n s =
    let longer = print_before radix fuel (n / radix) (digit_char (n % radix) ∷ s) in
    if ltb n radix then digit_char n ∷ s else longer

unfoldable pub print : ℕ → ℕ → Text
unfolding print_before
print radix n = print_before radix n n []

abbrev pub below : ℕ → Option ℕ → Option ℕ
below radix none = none
below radix (some d) = if ltb d radix then some d else none

-- One more digit, unless the number is then too large.
abbrev pub push_digit : ℕ → ℕ → ℕ → Option ℕ → Option ℕ
push_digit radix limit n none = none
push_digit radix limit n (some d) = if ltb limit (n * radix + d) then none else some (n * radix + d)

abbrev pub scan_on : (ℕ → Option ℕ) → Option ℕ → Option ℕ
scan_on f none = none
scan_on f (some n) = f n

unfoldable pub scan : ℕ → ℕ → Text → ℕ → Option ℕ
scan radix limit [] n = some n
scan radix limit (c ∷ s) n =
    scan_on (scan radix limit s) (push_digit radix limit n (below radix (to_digit c)))

-- A leading plus sign is passed over, and no digits are no number.
unfoldable pub parse : ℕ → ℕ → Text → Option ℕ
unfolding scan
parse radix limit [] = none
parse radix limit (c ∷ []) = scan radix limit (c ∷ []) 0
parse radix limit (c ∷ d ∷ s) =
    if c == b'+' then scan radix limit (d ∷ s) 0 else scan radix limit (c ∷ d ∷ s) 0

to_digit-digit_char : (d : ℕ) → d < 16 → to_digit (digit_char d) ≡ some d
to_digit-digit_char d h = ground (arith, h)

ltb_of_lt : (a b : ℕ) → a < b → ltb a b ≡ true
ltb_of_lt a b h = ground (arith, h)

ltb_of_le : (a b : ℕ) → a ≤ b → ltb b a ≡ false
ltb_of_le a b h = ground (arith, h)

scan_digit :
    (radix limit n d : ℕ) (s : Text)
    → d < radix
    → radix ≤ 16
    → n * radix + d ≤ limit
    → scan radix limit (digit_char d ∷ s) n ≡ scan radix limit s (n * radix + d)
unfolding scan
scan_digit radix limit n d s h k fits =
    rw
      (
        to_digit-digit_char d (omega (arith, h, k)),
        ltb_of_lt d radix h,
        ltb_of_le (n * radix + d) limit fits,
      )
      refl

-- A radix, with what its division needs.
pub record IsRadix (radix : ℕ) : Type 0 where
  pub small : radix ≤ 16
  pub last_lt : (n : ℕ) → n % radix < radix
  pub rejoins : (n : ℕ) → n / radix * radix + n % radix ≡ n
  pub shrinks : (n : ℕ) → radix ≤ n → n / radix < n

pub ten : IsRadix 10
ten = record {
  small = omega arith;
  last_lt = λ n. omega arith;
  rejoins = λ n. omega arith;
  shrinks = λ n h. omega arith;
}

pub sixteen : IsRadix 16
sixteen = record {
  small = omega arith;
  last_lt = λ n. omega arith;
  rejoins = λ n. omega arith;
  shrinks = λ n h. omega arith;
}

scan_first :
    (radix limit d : ℕ) (s : Text)
    → IsRadix radix
    → d < radix
    → d ≤ limit
    → scan radix limit (digit_char d ∷ s) 0 ≡ scan radix limit s d
scan_first radix limit d s r h k =
    scan_digit radix limit 0 d s h r.small (grind (arith, k))
    ∙ ap (scan radix limit s) (grind arith)

scan-print_before :
    (radix limit fuel n : ℕ) (s : Text)
    → IsRadix radix
    → n ≤ fuel
    → n ≤ limit
    → scan radix limit (print_before radix fuel n s) 0 ≡ scan radix limit s n
unfolding print_before
scan-print_before radix limit zero n s r h k =
    scan_first radix limit n s r (omega (arith, h, r.last_lt 0)) k
scan-print_before radix limit (suc fuel) n s r h k = elim (Bool-cases (ltb n radix)) [
  | inl e ↦ rw e (scan_first radix limit n s r (ground (arith, e)) k)
  | inr e ↦
      let smaller = r.shrinks n (ground (arith, e)) in
      rw e (
        scan-print_before radix limit fuel (n / radix) (digit_char (n % radix) ∷ s) r
          (omega (arith, h, smaller)) (omega (arith, k, smaller))
        ∙ scan_digit radix limit (n / radix) (n % radix) s (r.last_lt n) r.small
            (omega (arith, r.rejoins n, k))
        ∙ ap (scan radix limit s) (r.rejoins n))
]

-- Every character of a number passes a test that the digits pass.
print_before-All :
    (test : ℕ → Bool) (radix fuel n : ℕ) (s : Text)
    → IsRadix radix
    → n ≤ fuel
    → ((d : ℕ) → d < radix → test (digit_char d) ≡ true)
    → All (λ c. test c ≡ true) s
    → All (λ c. test c ≡ true) (print_before radix fuel n s)
unfolding print_before
print_before-All test radix zero n s r h t ts = (t n (omega (arith, h, r.last_lt 0)), ts)
print_before-All test radix (suc fuel) n s r h t ts = elim (Bool-cases (ltb n radix)) [
  | inl e ↦ rw e (t n (ground (arith, e)), ts)
  | inr e ↦ rw e (
      print_before-All test radix fuel (n / radix) (digit_char (n % radix) ∷ s) r
        (omega (arith, h, r.shrinks n (ground (arith, e)))) t (t (n % radix) (r.last_lt n), ts))
]

pub print-All :
    (test : ℕ → Bool) (radix n : ℕ)
    → IsRadix radix
    → ((d : ℕ) → d < radix → test (digit_char d) ≡ true)
    → All (λ c. test c ≡ true) (print radix n)
unfolding print
print-All test radix n r t = print_before-All test radix n n [] r (omega arith) t tt

print_before-ne-nil : (radix fuel n : ℕ) (s : Text) → print_before radix fuel n s ≢ []
unfolding print_before
print_before-ne-nil radix zero n s = λ h. cc
print_before-ne-nil radix (suc fuel) n s = elim (Bool-cases (ltb n radix)) [
  | inl e ↦ rw e (λ h. cc)
  | inr e ↦ rw e (print_before-ne-nil radix fuel (n / radix) (digit_char (n % radix) ∷ s))
]

pub print-ne-nil : (radix n : ℕ) → print radix n ≢ []
unfolding print
print-ne-nil radix n = print_before-ne-nil radix n n []

abbrev no_plus : ℕ → Bool
no_plus c = not (c == b'+')

parse-scan :
    (radix limit : ℕ) (s : Text)
    → s ≢ []
    → All (λ c. no_plus c ≡ true) s
    → parse radix limit s ≡ scan radix limit s 0
unfolding parse
parse-scan radix limit [] h k = absurd (h refl)
parse-scan radix limit (c ∷ []) h k = refl
parse-scan radix limit (c ∷ d ∷ s) h (k, ks) = elim (Bool-cases (c == b'+')) [
  | inl e ↦ cc (e, k)
  | inr e ↦ rw e refl
]

-- Every number that the type holds is read back from its print.
pub parse-print :
    (radix limit n : ℕ) → IsRadix radix → n ≤ limit → parse radix limit (print radix n) ≡ some n
unfolding print scan
parse-print radix limit n r h =
    parse-scan radix limit (print radix n) (print-ne-nil radix n)
      (print-All no_plus radix n r (λ d k. ground (arith, k, r.small)))
    ∙ scan-print_before radix limit n n [] r (omega arith) h
