-- ===== src/Core/Injection/Uri.antt =====
-- core/fault_injection/injection.rs: an injection as a URI, built and parsed. The crate url is a
-- parameter, as are the conversions of an NVMe status.
pub mod RoundTrip
pub mod Plain
pub mod Whole
pub mod Simple
use mathlib.Core.Option
use mayastor.Common.{
  ℕ, ◌+◌, ◌-◌, ◌*◌, ◌/◌, List, [], ◌∷◌, ◌++◌, Bool, true, false, not, ◌||◌, Option, none, some, min,
  ltb, ◌==◌, if◌then◌else◌, Outcome, ok, err, panic, ◌>>=◌, map,
}
use mayastor.Common.Words.{sub64}
use mayastor.Common.Text.{Text, codes, same_text, join}
use mayastor.Common.Numbers.{print, parse}
use mayastor.Core.Injection.{
  FaultDomain, nexus_child, block_device, bdev_io, FaultIoOperation, read_write, FaultIoStage,
  submission, completion, u64_max, duration_max, NvmeCodes, status, nvme_error, lvol_error,
  io_submission_error, admin_command_error, success, corrupt, FaultMethod, InjectionState,
  Injection,
}
use mayastor.Core.Injection.Method.{data_transfer, strip_prefix, method_text, parse_method}

pub data FaultInjectionError : Type 0 where
  not_injection_uri invalid_uri : Text → FaultInjectionError
  unknown_parameter bad_parameter_value : Text → Text → FaultInjectionError
  bad_durations : Text → ℕ → ℕ → FaultInjectionError
  device_not_found : Text → FaultInjectionError

-- The texts of `Display`.
unfoldable pub domain_text : FaultDomain → Text
domain_text nexus_child = codes "child"
domain_text block_device = codes "block"
domain_text bdev_io = codes "bdev_io"

unfoldable pub operation_text : FaultIoOperation → Text
operation_text FaultIoOperation.read = codes "r"
operation_text FaultIoOperation.write = codes "w"
operation_text read_write = codes "rw"

unfoldable pub stage_text : FaultIoStage → Text
stage_text submission = codes "submit"
stage_text completion = codes "compl"

-- The first of some texts that a text is one of.
unfoldable pub one_of : Text → List Text → Bool
unfolding same_text
one_of v [] = false
one_of v (t ∷ ts) = let rest = one_of v ts in same_text v t || rest

unfoldable pub parse_domain : Text → Text → Outcome FaultInjectionError FaultDomain
unfolding one_of
parse_domain k v =
    if one_of v (codes "child" ∷ codes "nexus_child" ∷ codes "NexusChild" ∷ [])
    then ok nexus_child
    else if one_of v (codes "block" ∷ codes "block_device" ∷ codes "BlockDevice" ∷ [])
    then ok block_device
    else if one_of v (codes "bdev_io" ∷ codes "BdevIo" ∷ [])
    then ok bdev_io
    else err (unknown_parameter k v)

unfoldable pub parse_fault_io_type : Text → Text → Outcome FaultInjectionError FaultIoOperation
unfolding one_of
parse_fault_io_type k v =
    if one_of v (codes "read" ∷ codes "r" ∷ codes "Read" ∷ [])
    then ok FaultIoOperation.read
    else if one_of v (codes "write" ∷ codes "w" ∷ codes "Write" ∷ [])
    then ok FaultIoOperation.write
    else if one_of v (codes "read_write" ∷ codes "rw" ∷ codes "ReadWrite" ∷ [])
    then ok read_write
    else err (unknown_parameter k v)

unfoldable pub parse_fault_io_stage : Text → Text → Outcome FaultInjectionError FaultIoStage
unfolding one_of
parse_fault_io_stage k v =
    if one_of v (codes "submit" ∷ codes "s" ∷ codes "submission" ∷ codes "Submission" ∷ [])
    then ok submission
    else if one_of v (codes "compl" ∷ codes "c" ∷ codes "completion" ∷ codes "Completion" ∷ [])
    then ok completion
    else err (unknown_parameter k v)

abbrev pub number_or : Text → Text → Option ℕ → Outcome FaultInjectionError ℕ
number_or k v none = err (bad_parameter_value k v)
number_or k v (some n) = ok n

unfoldable pub parse_num : Text → Text → Outcome FaultInjectionError ℕ
parse_num k v = number_or k v (parse 10 u64_max v)

-- `Duration::from_millis`.
unfoldable pub parse_timer : Text → Text → Outcome FaultInjectionError ℕ
parse_timer k v = number_or k v (parse 10 u64_max v) >>= λ ms. ok (ms * 1000000)

abbrev pub method_or :
    {N : Type 0}
    → Text
    → Text
    → Option (FaultMethod N)
    → Outcome FaultInjectionError (FaultMethod N)
method_or k v none = err (unknown_parameter k v)
method_or k v (some m) = ok m

-- What the crate url says of a URI: the host, the port and the path as one text, and the query.
pub record Url : Type 0 where
  pub name : Text
  pub query_pairs : List (Text × Text)

abbrev pub map_ok {ℓ κ} :
    {E : Type 0} {A : Type ℓ} {B : Type κ} → (A → B) → Outcome E A → Outcome E B
map_ok f r = r >>= λ a. ok (f a)

abbrev pub if_not : Bool → Text × Text → List (Text × Text)
if_not same p = if same then [] else p ∷ []

abbrev pub option_text : Text × Text → Text
option_text (k, v) = k ++ b'=' ∷ v

-- Whether a method is the one of the default injection.
unfoldable pub is_default_method : {N : Type 0} → NvmeCodes N → FaultMethod N → Bool
is_default_method c (status (nvme_error s)) = c.same_status s c.data_transfer_error
is_default_method c (status success) = false
is_default_method c (status (lvol_error e)) = false
is_default_method c (status (io_submission_error e)) = false
is_default_method c (status admin_command_error) = false
is_default_method c corrupt = false

module _ {N : Type 0} (c : NvmeCodes N) {R : Type 0} where
  -- `Default`, with a state that has seen nothing.
  unfoldable pub default : InjectionState R → Injection N R
  default state = record {
    uri = none;
    domain = block_device;
    device_name = [];
    io_operation = read_write;
    io_stage = submission;
    method = data_transfer c;
    time_start = 0;
    time_end = duration_max;
    block_start = 0;
    block_end = u64_max;
    retries = u64_max;
    state = state;
  }

  -- One parameter of the query.
  unfoldable pub set_param :
      Text × Text → Injection N R → Outcome FaultInjectionError (Injection N R)
  unfolding parse_domain parse_fault_io_type parse_fault_io_stage parse_num parse_timer parse_method
  set_param (k, v) r =
      if same_text k (codes "domain")
      then map_ok (λ d. record r { domain = d }) (parse_domain k v)
      else if same_text k (codes "op")
      then map_ok (λ op. record r { io_operation = op }) (parse_fault_io_type k v)
      else if same_text k (codes "stage")
      then map_ok (λ st. record r { io_stage = st }) (parse_fault_io_stage k v)
      else if same_text k (codes "method")
      then map_ok (λ m. record r { method = m }) (method_or k v (parse_method c v))
      else if same_text k (codes "begin_at")
      then map_ok (λ t. record r { time_start = t }) (parse_timer k v)
      else if same_text k (codes "end_at")
      then map_ok (λ t. record r { time_end = t }) (parse_timer k v)
      else if same_text k (codes "offset")
      then map_ok (λ n. record r { block_start = n }) (parse_num k v)
      else if one_of k (codes "num_blk" ∷ codes "num_blocks" ∷ [])
      then map_ok (λ n. record r { block_end = n }) (parse_num k v)
      else if same_text k (codes "retries")
      then map_ok (λ n. record r { retries = n }) (parse_num k v)
      else err (unknown_parameter k v)

  unfoldable pub set_params :
      List (Text × Text) → Injection N R → Outcome FaultInjectionError (Injection N R)
  unfolding set_param
  set_params [] r = ok r
  set_params (p ∷ ps) r = set_param p r >>= set_params ps

  -- The number of blocks becomes the end of the range, and the period is checked.
  unfoldable pub finish_uri : Injection N R → Outcome FaultInjectionError (Injection N R)
  finish_uri r =
      if ltb r.time_end r.time_start
      then err (bad_durations r.device_name r.time_start r.time_end)
      else ok (record r { block_end = min (r.block_start + r.block_end) u64_max })

  unfoldable pub from_url :
      Text → InjectionState R → Option Url → Outcome FaultInjectionError (Injection N R)
  unfolding set_params finish_uri default
  from_url text state none = err (invalid_uri text)
  from_url text state (some u) =
      set_params u.query_pairs (record (default state) { uri = some text; device_name = u.name })
      >>= finish_uri

  -- `parse_url` is `Url::parse`.
  unfoldable pub from_uri :
      (Text → Option Url) → InjectionState R → Text → Outcome FaultInjectionError (Injection N R)
  unfolding from_url strip_prefix
  from_uri parse_url state text = elim (strip_prefix (codes "inject://") text) [
    | none ↦ err (not_injection_uri text)
    | some rest ↦ from_url text state (parse_url text)
  ]

  -- The options of the URI, in their order.
  unfoldable pub options : Injection N R → List (Text × Text)
  unfolding domain_text operation_text stage_text method_text is_default_method print sub64
  options r =
      (codes "domain", domain_text r.domain)
      ∷ (codes "op", operation_text r.io_operation)
      ∷ (codes "stage", stage_text r.io_stage)
      ∷ (if_not (is_default_method c r.method) (codes "method", method_text c r.method)
          ++ if_not (r.time_start == 0) (codes "begin_at", print 10 (r.time_start / 1000000))
          ++ if_not (r.time_end == duration_max) (codes "end_at", print 10 (r.time_end / 1000000))
          ++ if_not (r.block_start == 0) (codes "offset", print 10 r.block_start)
          ++ if_not (r.block_end == u64_max)
              (codes "num_blk", print 10 (sub64 r.block_end r.block_start))
          ++ if_not (r.retries == u64_max) (codes "retries", print 10 r.retries))

  unfoldable pub as_uri : Injection N R → Text
  unfolding options join
  as_uri r = codes "inject://" ++ r.device_name ++ b'?' ∷ join b'&' (map option_text (options r))

  -- `Injection::uri`.
  unfoldable pub uri_of : Injection N R → Text
  unfolding as_uri
  uri_of r = elim r.uri [ none ↦ as_uri r | some text ↦ text ]
