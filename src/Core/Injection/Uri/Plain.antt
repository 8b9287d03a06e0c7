-- ===== src/Core/Injection/Uri/Plain.antt =====
-- The options of a URI hold no character that a URI gives a meaning of its own.
use mayastor.Common.Words.{sub64}
use mayastor.Common.{
  ℕ, ◌/◌, List, [], ◌∷◌, ◌++◌, Bool, true, false, ◌&&◌, ◌||◌, leb, ◌==◌, ◌≡◌, inl, inr, refl, arith,
  Bool-cases, if_both, All,
}
use mayastor.Common.Text.{Text, codes}
use mayastor.Common.Numbers.{print, IsRadix, ten, sixteen, print-All}
use mayastor.Core.Injection.{
  u64_max, duration_max, FaultDomain, nexus_child, block_device, bdev_io, FaultIoOperation,
  read_write, FaultIoStage, submission, completion, no_space, IoSubmissionFailure, NvmeCodes,
  FaultMethod, status, nvme_error, success, lvol_error, io_submission_error, admin_command_error,
  corrupt, Injection,
}
use mayastor.Core.Injection.Method.{nvme_prefix, nvme_text, method_text}
use mayastor.Core.Injection.Uri.{
  domain_text, operation_text, stage_text, if_not, is_default_method, options,
}

-- A small letter, a digit, a dash or an underscore.
abbrev pub plain : ℕ → Bool
plain c = leb b'a' c && leb c b'z' || (leb b'0' c && leb c b'9') || c == b'-' || c == b'_'

abbrev pub IsPlain : Text → Type 0
IsPlain s = All (λ c. plain c ≡ true) s

abbrev pub IsPlainPair : Text × Text → Type 0
IsPlainPair (k, v) = IsPlain k × IsPlain v

All-append : {A : Type 0} (P : A → Type 0) (xs ys : List A) → All P xs → All P ys → All P (xs ++ ys)
All-append P [] ys _ h = h
All-append P (x ∷ xs) ys (p, ps) h = (p, All-append P xs ys ps h)

number-IsPlain : (radix n : ℕ) → IsRadix radix → IsPlain (print radix n)
number-IsPlain radix n r = print-All plain radix n r (λ d h. ground (arith, h, r.small))

-- For a text at hand the test is run.
all_plain : Text → Bool
all_plain [] = true
all_plain (c ∷ s) = plain c && all_plain s

run-IsPlain : (s : Text) → all_plain s ≡ true → IsPlain s
unfolding all_plain
run-IsPlain [] h = tt
run-IsPlain (c ∷ s) h = elim (Bool-cases (plain c)) [
  | inl e ↦ (e, run-IsPlain s (rw e at h))
  | inr e ↦ cc (e, h)
]

domain-IsPlain : (d : FaultDomain) → IsPlain (domain_text d)
unfolding domain_text all_plain
domain-IsPlain nexus_child = run-IsPlain (codes "child") refl
domain-IsPlain block_device = run-IsPlain (codes "block") refl
domain-IsPlain bdev_io = run-IsPlain (codes "bdev_io") refl

operation-IsPlain : (o : FaultIoOperation) → IsPlain (operation_text o)
unfolding operation_text all_plain
operation-IsPlain FaultIoOperation.read = run-IsPlain (codes "r") refl
operation-IsPlain FaultIoOperation.write = run-IsPlain (codes "w") refl
operation-IsPlain read_write = run-IsPlain (codes "rw") refl

stage-IsPlain : (s : FaultIoStage) → IsPlain (stage_text s)
unfolding stage_text all_plain
stage-IsPlain submission = run-IsPlain (codes "submit") refl
stage-IsPlain completion = run-IsPlain (codes "compl") refl

words :
    IsPlain nvme_prefix
    × IsPlain (codes "status")
    × IsPlain (codes "status-lvol-nospace")
    × IsPlain (codes "status-submit-read")
    × IsPlain (codes "status-submit-write")
    × IsPlain (codes "status-admin")
    × IsPlain (codes "invalid")
    × IsPlain (codes "data")
unfolding all_plain
words = (
  run-IsPlain nvme_prefix refl,
  run-IsPlain (codes "status") refl,
  run-IsPlain (codes "status-lvol-nospace") refl,
  run-IsPlain (codes "status-submit-read") refl,
  run-IsPlain (codes "status-submit-write") refl,
  run-IsPlain (codes "status-admin") refl,
  run-IsPlain (codes "invalid") refl,
  run-IsPlain (codes "data") refl,
)

keys :
    IsPlain (codes "domain")
    × IsPlain (codes "op")
    × IsPlain (codes "stage")
    × IsPlain (codes "method")
    × IsPlain (codes "begin_at")
    × IsPlain (codes "end_at")
    × IsPlain (codes "offset")
    × IsPlain (codes "num_blk")
    × IsPlain (codes "retries")
unfolding all_plain
keys = (
  run-IsPlain (codes "domain") refl,
  run-IsPlain (codes "op") refl,
  run-IsPlain (codes "stage") refl,
  run-IsPlain (codes "method") refl,
  run-IsPlain (codes "begin_at") refl,
  run-IsPlain (codes "end_at") refl,
  run-IsPlain (codes "offset") refl,
  run-IsPlain (codes "num_blk") refl,
  run-IsPlain (codes "retries") refl,
)

pub record PlainOptions (ps : List (Text × Text)) : Type 0 where
  pub all : All IsPlainPair ps

both : {ps qs : List (Text × Text)} → PlainOptions ps → PlainOptions qs → PlainOptions (ps ++ qs)
both {ps} {qs} h k = record { all = All-append IsPlainPair ps qs h.all k.all }

optional : (b : Bool) (k v : Text) → IsPlain k → IsPlain v → PlainOptions (if_not b (k, v))
optional true k v h i = record { all = tt }
optional false k v h i = record { all = ((h, i), tt) }

module _ {N : Type 0} (c : NvmeCodes N) where
  nvme-IsPlain : (s : N) → IsPlain (nvme_text c s)
  unfolding nvme_text
  nvme-IsPlain s = if_both IsPlain (c.same_status s c.data_transfer_error) words.1 (
      All-append (λ d. plain d ≡ true) (nvme_prefix ++ print 16 (c.sct_of s)) _
        (All-append (λ d. plain d ≡ true) nvme_prefix (print 16 (c.sct_of s)) words.0
          (number-IsPlain 16 (c.sct_of s) sixteen))
        (refl, number-IsPlain 16 (c.sc_of s) sixteen))

  method-IsPlain : (m : FaultMethod N) → IsPlain (method_text c m)
  unfolding method_text
  method-IsPlain (status (nvme_error s)) = nvme-IsPlain s
  method-IsPlain (status (lvol_error no_space)) = words.2
  method-IsPlain (status (io_submission_error IoSubmissionFailure.read)) = words.3
  method-IsPlain (status (io_submission_error IoSubmissionFailure.write)) = words.4
  method-IsPlain (status admin_command_error) = words.5
  method-IsPlain (status success) = words.6
  method-IsPlain corrupt = words.7

  -- Options whose texts are all plain.
  pub options-IsPlain : {R : Type 0} (r : Injection N R) → PlainOptions (options c r)
  unfolding options
  options-IsPlain r =
      let num = λ (n : ℕ). number-IsPlain 10 n ten in
      let begin =
        both
          (optional (is_default_method c r.method) (codes "method") (method_text c r.method) keys.3
            (method-IsPlain r.method))
          (optional (r.time_start == 0) (codes "begin_at") _ keys.4
            (num (r.time_start / 1000000))) in
      let period = both begin (
        optional (r.time_end == duration_max) (codes "end_at") _ keys.5
          (num (r.time_end / 1000000))) in
      let offset =
        both period (optional (r.block_start == 0) (codes "offset") _ keys.6 (num r.block_start)) in
      let blocks = both offset (
        optional (r.block_end == u64_max) (codes "num_blk") _ keys.7
          (num (sub64 r.block_end r.block_start))) in
      let all_behind =
        both blocks (optional (r.retries == u64_max) (codes "retries") _ keys.8 (num r.retries)) in
      record {
        all = (
          (keys.0, domain-IsPlain r.domain),
          (
            (keys.1, operation-IsPlain r.io_operation),
            ((keys.2, stage-IsPlain r.io_stage), all_behind.all),
          ),
        );
      }
