-- ===== src/Core/Injection/Method/RoundTrip.antt =====
-- A method of injection is read back from its text.
use mayastor.Common.{
  ℕ, ◌≤◌, [], ◌∷◌, ◌++◌, true, not, some, ◌==◌, ◌≡◌, ◌≢◌, ◌↔◌, inl, inr, refl, sym, ap, ◌∙◌, arith,
  Bool-cases, All,
}
use mayastor.Common.Text.{Text, codes, same_text, split_at_sep, split_lacking, contains, Lacks}
use mayastor.Common.Numbers.{print, parse, sixteen, print-All, print-ne-nil, parse-print}
use mayastor.Core.Injection.{
  no_space, IoSubmissionFailure, NvmeCodes, success, nvme_error, lvol_error, io_submission_error,
  admin_command_error, FaultMethod, status, corrupt,
}
use mayastor.Core.Injection.Method.{
  i32_max, nvme_prefix, in_class, all_in_class, is_group, captures, groups_of, strip_prefix,
  nvme_text, method_text, data_transfer, of_codes, parse_codes, method_parse, parse_method,
}

-- What the code relies on in spdk_rs: a status is that of its codes, and `==` is equality.
pub record NvmeLaws {N : Type 0} (c : NvmeCodes N) : Type 0 where
  pub from_codes_of : (s : N) → c.from_codes (c.sct_of s) (c.sc_of s) ≡ s
  pub same_status_iff : (s t : N) → (c.same_status s t ≡ true) ↔ (s ≡ t)

-- A test of each character holds of the characters of a group.
all_in_class_lem : (s : Text) → All (λ c. in_class c ≡ true) s → all_in_class s ≡ true
unfolding all_in_class
all_in_class_lem [] h = refl
all_in_class_lem (c ∷ s) (h, hs) = rw (h, all_in_class_lem s hs) refl

is_group_lem : (s : Text) → s ≢ [] → All (λ c. in_class c ≡ true) s → is_group s ≡ true
is_group_lem [] h k = absurd (h refl)
is_group_lem (c ∷ s) h k = all_in_class_lem (c ∷ s) k

Lacks-All : (c : ℕ) (s : Text) → All (λ d. not (d == c) ≡ true) s → Lacks c s
unfolding contains
Lacks-All c [] h = refl
Lacks-All c (d ∷ s) (h, hs) = ground (arith, h, Lacks-All c s hs)

hex-is_group : (n : ℕ) → is_group (print 16 n) ≡ true
hex-is_group n =
    is_group_lem (print 16 n) (print-ne-nil 16 n)
      (print-All in_class 16 n sixteen (λ d h. ground (arith, h)))

hex-Lacks : (n : ℕ) → Lacks b'-' (print 16 n)
hex-Lacks n =
    Lacks-All b'-' (print 16 n)
      (print-All (λ d. not (d == b'-')) 16 n sixteen (λ d h. ground (arith, h)))

captures_hex :
    (m n : ℕ) → captures (some (print 16 m ++ b'-' ∷ print 16 n)) ≡ some (print 16 m, print 16 n)
unfolding captures groups_of
captures_hex m n =
    rw
      (
        split_at_sep b'-' (print 16 m) (print 16 n) (hex-Lacks m),
        split_lacking b'-' (print 16 n) (hex-Lacks n),
      )
      (rw (hex-is_group m, hex-is_group n) refl)

module _ {N : Type 0} (c : NvmeCodes N) (laws : NvmeLaws c) where
  -- The methods whose text says all of them.
  unfoldable pub IsPrintable : FaultMethod N → Type 0
  IsPrintable (status (nvme_error s)) = (c.sct_of s ≤ i32_max) × (c.sc_of s ≤ i32_max)
  IsPrintable (status success) = ⊥
  IsPrintable (status (lvol_error s)) = Unit
  IsPrintable (status (io_submission_error s)) = Unit
  IsPrintable (status admin_command_error) = Unit
  IsPrintable corrupt = Unit

  parse_codes_at :
      (a b : Text) (m n : ℕ)
      → parse 16 i32_max a ≡ some m
      → parse 16 i32_max b ≡ some n
      → parse_codes c (some (a, b)) ≡ some (status (nvme_error (c.from_codes m n)))
  unfolding parse_codes of_codes
  parse_codes_at a b m n h k = cc

  parse_hex :
      (s : N)
      → c.sct_of s ≤ i32_max
      → c.sc_of s ≤ i32_max
      → parse_codes c (some (print 16 (c.sct_of s), print 16 (c.sc_of s)))
        ≡ some (status (nvme_error s))
  parse_hex s h k =
      parse_codes_at (print 16 (c.sct_of s)) (print 16 (c.sc_of s)) (c.sct_of s) (c.sc_of s)
        (parse-print 16 i32_max (c.sct_of s) sixteen h)
        (parse-print 16 i32_max (c.sc_of s) sixteen k)
      ∙ ap (λ t. some (status (nvme_error t))) (laws.from_codes_of s)

  parse_nvme :
      (s : N)
      → c.sct_of s ≤ i32_max
      → c.sc_of s ≤ i32_max
      → parse_method c (nvme_prefix ++ print 16 (c.sct_of s) ++ b'-' ∷ print 16 (c.sc_of s))
        ≡ some (status (nvme_error s))
  unfolding parse_method method_parse same_text strip_prefix
  parse_nvme s h k = rw (captures_hex (c.sct_of s) (c.sc_of s), parse_hex s h k) refl

  parse_status : parse_method c (codes "status") ≡ some (data_transfer c)
  unfolding parse_method same_text
  parse_status = refl

  parse_words :
      (parse_method c (codes "status-lvol-nospace") ≡ some (status (lvol_error no_space)))
      × (parse_method c (codes "status-submit-read")
          ≡ some (status (io_submission_error IoSubmissionFailure.read)))
      × (parse_method c (codes "status-submit-write")
          ≡ some (status (io_submission_error IoSubmissionFailure.write)))
      × (parse_method c (codes "status-admin") ≡ some (status admin_command_error))
      × (parse_method c (codes "data") ≡ some corrupt)
  unfolding parse_method same_text
  parse_words = (refl, refl, refl, refl, refl)

  -- A method that its text says all of is read back from it.
  pub parse_method-method_text :
      (m : FaultMethod N) → IsPrintable m → parse_method c (method_text c m) ≡ some m
  unfolding method_text nvme_text IsPrintable
  parse_method-method_text (status (nvme_error s)) (h, k) =
      elim (Bool-cases (c.same_status s c.data_transfer_error)) [
        | inl e ↦ rw e (
            parse_status
            ∙ ap (λ t. some (status (nvme_error t)))
                (sym ((laws.same_status_iff s c.data_transfer_error).0 e)))
        | inr e ↦ rw e (parse_nvme s h k)
      ]
  parse_method-method_text (status (lvol_error no_space)) h = parse_words.0
  parse_method-method_text (status (io_submission_error IoSubmissionFailure.read)) h = parse_words.1
  parse_method-method_text (status (io_submission_error IoSubmissionFailure.write)) h =
      parse_words.2
  parse_method-method_text (status admin_command_error) h = parse_words.3
  parse_method-method_text (status success) h = elim h [ ]
  parse_method-method_text corrupt h = parse_words.4
