-- ===== src/Core/Injection/Api.antt =====
-- core/fault_injection/injection_api.rs: the list of the injections, and what an I/O is told.
use mayastor.Common.{
  ℕ, List, [], ◌∷◌, ◌++◌, Bool, true, false, not, ◌&&◌, ◌||◌, Option, none, some, if◌then◌else◌,
  Outcome, ok, err,
}
use mayastor.Common.Words.{sub64}
use mayastor.Common.Text.{Text, same_text}
use mayastor.Core.Injection.{
  bdev_io, submission, completion, IoType, InjectIoCtx, is_valid, NvmeCodes, IoCompletionStatus,
  success, Injection, inject_first, same_domain,
}
use mayastor.Core.Injection.Uri.{uri_of}

-- The list, and whether injections are enabled.
pub record Injections (N : Type 0) (R : Type 0) : Type 0 where
  pub items : List (Injection N R)
  pub enabled : Bool

pub data CoreError : Type 0 where
  dispatch : IoType → ℕ → ℕ → CoreError

abbrev pub is_success : {N : Type 0} → IoCompletionStatus N → Bool
is_success success = true
is_success _ = false

module _ {N : Type 0} {R : Type 0} where
  -- A fault of a bdev's I/O must first find its bdev, which `found` says.
  unfoldable pub add_fault_injection :
      Bool → Injection N R → Injections N R → Injections N R × Outcome Text (Unit {0})
  add_fault_injection found inj all =
      if same_domain inj.domain bdev_io && not found
      then (record all { enabled = true }, err inj.device_name)
      else (record all { items = all.items ++ inj ∷ []; enabled = true }, ok tt)

module _ {N : Type 0} (c : NvmeCodes N) {R : Type 0} where
  unfoldable pub retain_other : Text → List (Injection N R) → List (Injection N R)
  unfolding uri_of same_text
  retain_other uri [] = []
  retain_other uri (inj ∷ items) =
      let rest = retain_other uri items in
      if not (same_text (uri_of c inj) uri) then inj ∷ rest else rest

  unfoldable pub remove_fault_injection : Text → Injections N R → Injections N R
  unfolding retain_other
  remove_fault_injection uri all = record all { items = retain_other uri all.items }

module _ {N : Type 0} {R : Type 0} (next_u32 : R → R × ℕ) where
  abbrev pub submission_answer :
      InjectIoCtx → Option (IoCompletionStatus N) → Outcome CoreError (Unit {0})
  submission_answer ctx none = ok tt
  submission_answer ctx (some st) =
      if is_success st
      then ok tt
      else err (dispatch ctx.io_type ctx.range_start (sub64 ctx.range_end ctx.range_start))

  unfoldable pub inject_submission_error :
      ℕ → InjectIoCtx → Injections N R → Injections N R × InjectIoCtx × Outcome CoreError (Unit {0})
  unfolding is_valid inject_first sub64
  inject_submission_error at ctx all =
      if not all.enabled || not (is_valid ctx)
      then (all, ctx, ok tt)
      else let (items, ctx2, result) = inject_first next_u32 at submission ctx all.items in
        (record all { items = items }, ctx2, submission_answer ctx2 result)

  abbrev pub completion_answer : Option (IoCompletionStatus N) → IoCompletionStatus N
  completion_answer none = success
  completion_answer (some st) = st

  unfoldable pub inject_completion_error :
      ℕ
      → InjectIoCtx
      → IoCompletionStatus N
      → Injections N R
      → Injections N R × InjectIoCtx × IoCompletionStatus N
  unfolding is_valid inject_first
  inject_completion_error at ctx st all =
      if not all.enabled || not (is_valid ctx) || not (is_success st)
      then (all, ctx, st)
      else let (items, ctx2, result) = inject_first next_u32 at completion ctx all.items in
        (record all { items = items }, ctx2, completion_answer result)
