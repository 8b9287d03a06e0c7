-- ===== src/Core/Injection/Method.antt =====
-- core/fault_injection/fault_method.rs: a method of injection as text, printed and parsed.
pub mod RoundTrip
use mayastor.Common.{
  ℕ, List, [], ◌∷◌, ◌++◌, Bool, true, false, not, ◌&&◌, ◌||◌, Option, none, some, leb, ◌==◌,
  if◌then◌else◌,
}
use mayastor.Common.Text.{Text, codes, same_text, is_empty, split}
use mayastor.Common.Numbers.{print, parse}
use mayastor.Core.Injection.{
  LvolFailure, no_space, IoSubmissionFailure, NvmeCodes, IoCompletionStatus, success, nvme_error,
  lvol_error, io_submission_error, admin_command_error, FaultMethod, status, corrupt,
}

abbrev pub i32_max : ℕ
i32_max = 2147483647

-- `{s:?}` in lower case.
unfoldable pub lvol_text : LvolFailure → Text
lvol_text no_space = codes "nospace"

unfoldable pub submission_text : IoSubmissionFailure → Text
submission_text IoSubmissionFailure.read = codes "read"
submission_text IoSubmissionFailure.write = codes "write"

abbrev pub nvme_prefix : Text
nvme_prefix = codes "status-nvme-"

-- What is behind a prefix.
unfoldable pub strip_prefix : Text → Text → Option Text
strip_prefix [] s = some s
strip_prefix (c ∷ p) [] = none
strip_prefix (c ∷ p) (d ∷ s) = let rest = strip_prefix p s in if c == d then rest else none

-- `[0-9a-f.]`, one or more of them.
abbrev pub in_class : ℕ → Bool
in_class c = leb b'0' c && leb c b'9' || (leb b'a' c && leb c b'f') || c == b'.'

unfoldable pub all_in_class : Text → Bool
all_in_class [] = true
all_in_class (c ∷ s) = in_class c && all_in_class s

abbrev pub is_group : Text → Bool
is_group s = not (is_empty s) && all_in_class s

-- The groups of `^status-nvme-([0-9a-f.]+)-([0-9a-f.]+)$`: the class has no dash.
unfoldable pub groups_of : List Text → Option (Text × Text)
unfolding all_in_class
groups_of (a ∷ b ∷ []) = if is_group a && is_group b then some (a, b) else none
groups_of _ = none

unfoldable pub captures : Option Text → Option (Text × Text)
unfolding groups_of split
captures none = none
captures (some rest) = groups_of (split b'-' rest)

module _ {N : Type 0} (codes_of : NvmeCodes N) where
  abbrev pub data_transfer : FaultMethod N
  data_transfer = status (nvme_error codes_of.data_transfer_error)

  unfoldable pub nvme_text : N → Text
  unfolding print
  nvme_text s =
      if codes_of.same_status s codes_of.data_transfer_error
      then codes "status"
      else nvme_prefix ++ print 16 (codes_of.sct_of s) ++ b'-' ∷ print 16 (codes_of.sc_of s)

  -- `Display`.
  unfoldable pub method_text : FaultMethod N → Text
  unfolding nvme_text lvol_text submission_text
  method_text (status (nvme_error s)) = nvme_text s
  method_text (status (lvol_error s)) = codes "status-lvol-" ++ lvol_text s
  method_text (status (io_submission_error s)) = codes "status-submit-" ++ submission_text s
  method_text (status admin_command_error) = codes "status-admin"
  method_text (status success) = codes "invalid"
  method_text corrupt = codes "data"

  -- Both codes must fit in an `i32`.
  unfoldable pub of_codes : Option ℕ → Option ℕ → Option (FaultMethod N)
  of_codes (some sct) (some sc) = some (status (nvme_error (codes_of.from_codes sct sc)))
  of_codes (some sct) none = none
  of_codes none sc = none

  unfoldable pub parse_codes : Option (Text × Text) → Option (FaultMethod N)
  unfolding of_codes parse
  parse_codes none = none
  parse_codes (some (a, b)) = of_codes (parse 16 i32_max a) (parse 16 i32_max b)

  unfoldable pub parse_known : Text → Option (FaultMethod N)
  parse_known s =
      if same_text s (codes "status-lvol-nospace")
      then some (status (lvol_error no_space))
      else if same_text s (codes "status-submit-read")
      then some (status (io_submission_error IoSubmissionFailure.read))
      else if same_text s (codes "status-submit-write")
      then some (status (io_submission_error IoSubmissionFailure.write))
      else if same_text s (codes "status-admin")
      then some (status admin_command_error)
      else none

  abbrev pub or_known : Option (FaultMethod N) → Option (FaultMethod N) → Option (FaultMethod N)
  or_known (some m) known = some m
  or_known none known = known

  -- `FaultMethod::parse`.
  unfoldable pub method_parse : Text → Option (FaultMethod N)
  unfolding parse_codes captures strip_prefix parse_known
  method_parse s = or_known (parse_codes (captures (strip_prefix nvme_prefix s))) (parse_known s)

  -- `parse_method`, with its error left out.
  unfoldable pub parse_method : Text → Option (FaultMethod N)
  unfolding method_parse
  parse_method v =
      if same_text v (codes "status") || same_text v (codes "Status")
      then some data_transfer
      else if same_text v (codes "data") || same_text v (codes "Data")
      then some corrupt
      else method_parse v
