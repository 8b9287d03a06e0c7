-- ===== src/Nexus/Io/Devices.antt =====
-- bdev/nexus/nexus_channel.rs: lists of devices, and how one is taken out.
use mayastor.Common.{
  ℕ, ◌+◌, ◌≤◌, Option, some, ◌-◌, List, [], ◌∷◌, Bool, true, false, ◌||◌, none, ◌≡◌, ◌≢◌, inl, inr,
  refl, sym, arith, Bool-cases, length, ap,
}
use mayastor.Common.Text.{Text, same_text, same_text_sound}
use mayastor.Nexus.Io.{mem, remove_first, submit_to}

pub or_true : (a : Bool) → (a || true) ≡ true
or_true true = refl
or_true false = refl

pub or_false : (a : Bool) → (a || false) ≡ a
or_false true = refl
or_false false = refl

pub mem-length : (d : Text) (ds : List Text) → mem d ds ≡ true → length ds ≢ 0
unfolding mem
mem-length d [] h = cc
mem-length d (e ∷ es) h = omega arith

length_empty : (ds : List Text) → length ds ≡ 0 → ds ≡ []
length_empty [] h = refl
length_empty (e ∷ es) h = cc

pub mem_empty : (d : Text) (ds : List Text) → length ds ≡ 0 → mem d ds ≡ false
unfolding mem
mem_empty d ds h = rw (length_empty ds h) refl

pub length-remove_first :
    (d : Text) (ds : List Text) → mem d ds ≡ true → length (remove_first d ds) ≡ length ds - 1
unfolding remove_first mem
length-remove_first d [] h = refl
length-remove_first d (e ∷ es) h = elim (Bool-cases (same_text e d)) [
  | inl k ↦ rw k (omega arith)
  | inr k ↦
      let there : mem d es ≡ true = rw k at h in
      let shorter = length-remove_first d es there in
      let one = mem-length d es there in rw k (omega arith)
]

pub mem-remove_first :
    (d x : Text) (ds : List Text)
    → mem x ds ≡ true
    → (same_text d x || mem x (remove_first d ds)) ≡ true
unfolding remove_first mem
mem-remove_first d x [] h = cc
mem-remove_first d x (e ∷ es) h = elim (Bool-cases (same_text e d)) [
  | inl k ↦ rw k (rw (sym (same_text_sound e d k)) h)
  | inr k ↦ elim (Bool-cases (same_text e x)) [
    | inl here ↦ rw k (rw here (or_true (same_text d x)))
    | inr h2 ↦ rw k (rw h2 (mem-remove_first d x es (rw h2 at h)))
  ]
]

pub submit_to_all :
    (accepts : Text → Bool) (ds : List Text)
    → (submit_to accepts ds).1 ≡ none
    → (submit_to accepts ds).0 ≡ ds
unfolding submit_to
submit_to_all accepts [] h = refl
submit_to_all accepts (d ∷ ds) h = elim (Bool-cases (accepts d)) [
  | inl k ↦ rw k (ap (λ l. d ∷ l) (submit_to_all accepts ds (rw k at h)))
  | inr k ↦ cc (rw k at h)
]

pub length-remove_first_le : (d : Text) (ds : List Text) → length (remove_first d ds) ≤ length ds
unfolding remove_first
length-remove_first_le d [] = omega arith
length-remove_first_le d (e ∷ es) =
    let shorter = length-remove_first_le d es in
    elim (Bool-cases (same_text e d)) [
      | inl k ↦ rw k (omega arith)
      | inr k ↦ rw k (omega (arith, shorter))
    ]

abbrev pub refusals : Option Text → ℕ
refusals none = 0
refusals (some d) = 1

-- Those who took the I/O, and the one who did not, are no more than there are writers.
pub length-submit_to :
    (accepts : Text → Bool) (ds : List Text)
    → length (submit_to accepts ds).0 + refusals (submit_to accepts ds).1 ≤ length ds
unfolding submit_to
length-submit_to accepts [] = omega arith
length-submit_to accepts (d ∷ ds) =
    let shorter = length-submit_to accepts ds in
    elim (Bool-cases (accepts d)) [
      | inl k ↦ rw k (omega (arith, shorter))
      | inr k ↦ rw k (omega arith)
    ]
