-- ===== src/Core/Injection.antt =====
-- core/fault_injection: an injection of faults, which I/Os it applies to, when it is active and what
-- it does to an I/O; and the list of the injections. Times are nanoseconds.
pub mod Ranges
pub mod Hits
pub mod Method
pub mod Uri
pub mod Api
mod Tests
use mayastor.Common.{
  ℕ, ◌+◌, ◌-◌, ◌%◌, List, [], ◌∷◌, ◌++◌, Bool, true, false, not, ◌&&◌, ◌||◌, Option, none, some,
  ltb, leb, ◌==◌, if◌then◌else◌,
}
use mayastor.Common.Words.{add64}
use mayastor.Common.Text.{Text, same_text}

pub data FaultDomain : Type 0 where
  nexus_child block_device bdev_io : FaultDomain

pub data FaultIoOperation : Type 0 where
  read write read_write : FaultIoOperation

pub data FaultIoStage : Type 0 where
  submission completion : FaultIoStage

abbrev pub u64_max : ℕ
u64_max = 18446744073709551615

-- `Duration::MAX`.
abbrev pub duration_max : ℕ
duration_max = 18446744073709551615999999999

abbrev domain_code : FaultDomain → ℕ
domain_code nexus_child = 0
domain_code block_device = 1
domain_code bdev_io = 2

abbrev pub same_domain : FaultDomain → FaultDomain → Bool
same_domain a b = domain_code a == domain_code b

abbrev pub same_stage : FaultIoStage → FaultIoStage → Bool
same_stage submission submission = true
same_stage completion completion = true
same_stage submission completion = false
same_stage completion submission = false

-- The types of I/O that an injection tells apart.
pub data IoType : Type 0 where
  invalid read write other : IoType

pub data InjectIoDevice : Type 0 where
  no_device : InjectIoDevice
  block_device_named : Text → InjectIoDevice
  device_name : Text → InjectIoDevice

-- `iovs` are the buffers, as far as the pointers are set.
pub record InjectIoCtx : Type 0 where
  pub ctx_domain : FaultDomain
  pub dev : InjectIoDevice
  pub range_start : ℕ
  pub range_end : ℕ
  pub io_type : IoType
  pub iovs : Option (List (List ℕ))

unfoldable pub with_iovs :
    FaultDomain → InjectIoDevice → IoType → ℕ → ℕ → Option (List (List ℕ)) → InjectIoCtx
unfolding add64
with_iovs domain dev type_ offset num_blocks iovs = record {
  ctx_domain = domain;
  dev = dev;
  range_start = offset;
  range_end = add64 offset num_blocks;
  io_type = type_;
  iovs = iovs;
}

unfoldable pub is_valid : InjectIoCtx → Bool
is_valid ctx = elim ctx.dev [ no_device ↦ false | _ ↦ true ]

unfoldable pub name_of : InjectIoDevice → Text → Bool
unfolding same_text
name_of no_device name = false
name_of (block_device_named n) name = same_text n name
name_of (device_name n) name = same_text n name

unfoldable pub device_name_ok : InjectIoCtx → Text → Bool
unfolding name_of
device_name_ok ctx name = name_of ctx.dev name

abbrev is_read : IoType → Bool
is_read IoType.read = true
is_read invalid = false
is_read IoType.write = false
is_read other = false

abbrev is_write : IoType → Bool
is_write IoType.write = true
is_write invalid = false
is_write IoType.read = false
is_write other = false

unfoldable pub io_type_ok : InjectIoCtx → FaultIoOperation → Bool
io_type_ok ctx FaultIoOperation.read = is_read ctx.io_type
io_type_ok ctx FaultIoOperation.write = is_write ctx.io_type
io_type_ok ctx read_write = is_read ctx.io_type || is_write ctx.io_type

unfoldable pub block_range_ok : InjectIoCtx → ℕ → ℕ → Bool
block_range_ok ctx start end = ltb start ctx.range_end && ltb ctx.range_start end

unfoldable pub iovs_mut : InjectIoCtx → Option (List (List ℕ))
iovs_mut ctx = elim ctx.iovs [
  | none ↦ none
  | some [] ↦ none
  | some ([] ∷ rest) ↦ none
  | some ((b ∷ bytes) ∷ rest) ↦ some ((b ∷ bytes) ∷ rest)
]

pub data LvolFailure : Type 0 where
  no_space : LvolFailure

pub data IoSubmissionFailure : Type 0 where
  read write : IoSubmissionFailure

-- `NvmeStatus` of the crate spdk_rs: its conversions from and to a pair of codes.
pub record NvmeCodes (N : Type 0) : Type 0 where
  pub data_transfer_error : N
  pub from_codes : ℕ → ℕ → N
  pub sct_of : N → ℕ
  pub sc_of : N → ℕ
  pub same_status : N → N → Bool

pub data IoCompletionStatus (N : Type 0) : Type 0 where
  success : IoCompletionStatus N
  nvme_error : N → IoCompletionStatus N
  lvol_error : LvolFailure → IoCompletionStatus N
  io_submission_error : IoSubmissionFailure → IoCompletionStatus N
  admin_command_error : IoCompletionStatus N

pub data FaultMethod (N : Type 0) : Type 0 where
  status : IoCompletionStatus N → FaultMethod N
  corrupt : FaultMethod N

pub record InjectionState (R : Type 0) : Type 0 where
  pub started : Option ℕ
  pub hits : ℕ
  pub rng : R

pub record Injection (N : Type 0) (R : Type 0) : Type 0 where
  pub uri : Option Text
  pub domain : FaultDomain
  pub device_name : Text
  pub io_operation : FaultIoOperation
  pub io_stage : FaultIoStage
  pub method : FaultMethod N
  pub time_start : ℕ
  pub time_end : ℕ
  pub block_start : ℕ
  pub block_end : ℕ
  pub retries : ℕ
  pub state : InjectionState R

-- `InjectionState`: the first I/O starts the clock, and each is counted.
module _ {R : Type 0} where
  unfoldable pub tick : ℕ → InjectionState R → InjectionState R
  unfolding add64
  tick at s = elim s.started [
    | none ↦ record s { started = some at; hits = 1 }
    | some t ↦ record s { hits = add64 s.hits 1 }
  ]

  unfoldable pub now : ℕ → InjectionState R → ℕ
  now at s = elim s.started [ none ↦ duration_max | some t ↦ at - t ]

module _ {N : Type 0} {R : Type 0} where
  unfoldable pub is_active : ℕ → Injection N R → Bool
  unfolding now
  is_active at inj =
      if leb inj.retries inj.state.hits
      then false
      else leb inj.time_start (now at inj.state) && ltb (now at inj.state) inj.time_end

  -- Whether the injection is one for the I/O.
  unfoldable pub applies : FaultIoStage → InjectIoCtx → Injection N R → Bool
  unfolding is_valid io_type_ok device_name_ok block_range_ok
  applies stage ctx inj =
      is_valid ctx
      && same_domain ctx.ctx_domain inj.domain
      && same_stage stage inj.io_stage
      && io_type_ok ctx inj.io_operation
      && device_name_ok ctx inj.device_name
      && block_range_ok ctx inj.block_start inj.block_end

-- Bytes of the random generator, one for each byte of a buffer.
module _ {R : Type 0} (next_u32 : R → R × ℕ) where
  unfoldable pub fill : List ℕ → R → R × List ℕ
  fill [] rng = (rng, [])
  fill (b ∷ bytes) rng =
      let (rng, word) = next_u32 rng in
      let (rng, filled) = fill bytes rng in (rng, (word % 256) ∷ filled)

  unfoldable pub fill_all : List (List ℕ) → R → R × List (List ℕ)
  unfolding fill
  fill_all [] rng = (rng, [])
  fill_all (iov ∷ iovs) rng =
      let (rng, filled) = fill iov rng in
      let (rng, others) = fill_all iovs rng in (rng, filled ∷ others)

  -- The buffers of an I/O are overwritten where they can be reached.
  unfoldable pub overwrite :
      Option (List (List ℕ)) → InjectIoCtx → InjectionState R → InjectionState R × InjectIoCtx
  unfolding fill_all
  overwrite none ctx s = (s, ctx)
  overwrite (some iovs) ctx s =
      let (rng, filled) = fill_all iovs s.rng in
      (record s { rng = rng }, record ctx { iovs = some filled })

  unfoldable pub inject_data_errors :
      InjectIoCtx → InjectionState R → InjectionState R × InjectIoCtx
  unfolding overwrite iovs_mut
  inject_data_errors ctx s = overwrite (iovs_mut ctx) ctx s

  module _ {N : Type 0} where
    unfoldable pub method_inject :
        FaultMethod N
        → InjectIoCtx
        → InjectionState R
        → InjectionState R × InjectIoCtx × Option (IoCompletionStatus N)
    unfolding inject_data_errors
    method_inject (status st) ctx s = (s, ctx, some st)
    method_inject corrupt ctx s = let (s, ctx) = inject_data_errors ctx s in (s, ctx, some success)

    -- `inject`, which reads the clock when it counts the I/O and again when it asks for the period.
    unfoldable pub inject :
        ℕ
        → ℕ
        → FaultIoStage
        → InjectIoCtx
        → Injection N R
        → Injection N R × InjectIoCtx × Option (IoCompletionStatus N)
    unfolding applies tick is_active method_inject
    inject ticked asked stage ctx inj =
        if not (applies stage ctx inj)
        then (inj, ctx, none)
        else let counted : Injection N R = record inj { state = tick ticked inj.state } in
          if not (is_active asked counted)
          then (counted, ctx, none)
          else let (s, ctx, result) = method_inject inj.method ctx counted.state in
            (record counted { state = s }, ctx, result)

    -- `find_map` over the list: the first injection that gives a result ends the search.
    unfoldable pub inject_first :
        ℕ
        → FaultIoStage
        → InjectIoCtx
        → List (Injection N R)
        → List (Injection N R) × InjectIoCtx × Option (IoCompletionStatus N)
    unfolding inject
    inject_first at stage ctx [] = ([], ctx, none)
    inject_first at stage ctx (inj ∷ items) =
        let (tried, ctx, result) = inject at at stage ctx inj in
        let (rest, ctx2, later) = inject_first at stage ctx items in
        elim result [ some st ↦ (tried ∷ items, ctx, some st) | none ↦ (tried ∷ rest, ctx2, later) ]
