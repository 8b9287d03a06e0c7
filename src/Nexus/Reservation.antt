-- ===== src/Nexus/Reservation.antt =====
-- bdev/nexus/nexus_child.rs: how a child registers with its device and takes the NVMe reservation,
-- and how it checks who holds it. The device is a parameter, with a state of its own.
pub mod Holder
mod Tests
use mathlib.Core.Option
use mayastor.Common.{
  ℕ, zero, suc, List, [], ◌∷◌, Bool, true, false, not, ◌&&◌, ◌||◌, Option, none, some, is_some,
  ◌==◌, if◌then◌else◌, Outcome, ok, err, panic,
}

pub data NvmeReservation : Type 0 where
  reserved write_exclusive exclusive_access write_exclusive_regs_only : NvmeReservation
  exclusive_access_regs_only write_exclusive_all_regs exclusive_access_all_regs : NvmeReservation

-- `resv_type as u8`.
unfoldable pub resv_code : NvmeReservation → ℕ
resv_code reserved = 0
resv_code write_exclusive = 1
resv_code exclusive_access = 2
resv_code write_exclusive_regs_only = 3
resv_code exclusive_access_regs_only = 4
resv_code write_exclusive_all_regs = 5
resv_code exclusive_access_all_regs = 6

unfoldable pub try_from : ℕ → Option NvmeReservation
try_from value =
    if value == 0
    then some reserved
    else if value == 1
    then some write_exclusive
    else if value == 2
    then some exclusive_access
    else if value == 3
    then some write_exclusive_regs_only
    else if value == 4
    then some exclusive_access_regs_only
    else if value == 5
    then some write_exclusive_all_regs
    else if value == 6
    then some exclusive_access_all_regs
    else none

-- The types that all the registrants share.
unfoldable pub shared : NvmeReservation → Bool
shared write_exclusive_all_regs = true
shared exclusive_access_all_regs = true
shared reserved = false
shared write_exclusive = false
shared exclusive_access = false
shared write_exclusive_regs_only = false
shared exclusive_access_regs_only = false

pub data NexusNvmePreemption : Type 0 where
  arg_key holder : NexusNvmePreemption

pub record NexusNvmeParams : Type 0 where
  pub resv_key : ℕ
  pub preempt_key : Option ℕ
  pub resv_type : NvmeReservation
  pub preempt_policy : NexusNvmePreemption

abbrev pub is_holder : NexusNvmePreemption → Bool
is_holder arg_key = false
is_holder holder = true

unfoldable pub reservations_enabled : NexusNvmeParams → Bool
reservations_enabled p =
    not (p.resv_key == 0) || is_some p.preempt_key || is_holder p.preempt_policy

-- A controller in the report of a device, and the report.
pub record RegisteredController : Type 0 where
  pub status : ℕ
  pub rkey : ℕ
  pub hostid : ℕ

pub record ReservationReport : Type 0 where
  pub rtype : ℕ
  pub regctl : ℕ
  pub controllers : List RegisteredController
  -- Whether the controllers can be read where they stand in the buffer.
  pub aligned : Bool

pub data CoreError : Type 0 where
  not_supported other : CoreError

pub data ResvError : Type 0 where
  handle_open handle_dma_malloc nvme_host_id : CoreError → ResvError
  resv_register_key resv_acquire_failed resv_release_failed resv_report : CoreError → ResvError
  resv_type_error resv_no_holder : ℕ → ResvError
  holder_error : RegisteredController → ResvError

pub data AcquireAction : Type 0 where
  acquire preempt : AcquireAction

-- What the code calls: a handle of the device, and the commands of the handle.
pub record ResvHandle (S : Type 0) : Type 0 where
  pub opens : S → S × Outcome CoreError (Unit {0})
  pub mallocs : S → S × Outcome CoreError (Unit {0})
  pub register : ℕ → S → S × Outcome CoreError (Unit {0})
  pub acquire : ℕ → ℕ → AcquireAction → ℕ → S → S × Outcome CoreError (Unit {0})
  pub release : ℕ → ℕ → S → S × Outcome CoreError (Unit {0})
  pub report : S → S × Outcome CoreError ReservationReport
  pub host_id : S → S × Outcome CoreError ℕ

-- Goes on with a value, and gives an error of the device a name.
abbrev pub on_ok {ℓ κ} :
    {S : Type ℓ} {E F A : Type 0} {B : Type κ}
    → (E → F)
    → S × Outcome E A
    → (A → S → S × Outcome F B)
    → S × Outcome F B
on_ok name (s, ok a) f = f a s
on_ok name (s, err e) f = (s, err (name e))
on_ok name (s, panic) f = (s, panic)

-- The holder among the controllers that the report counts.
unfoldable pub find_holder : ℕ → List RegisteredController → Option RegisteredController
find_holder zero controllers = none
find_holder (suc n) [] = none
find_holder (suc n) (c ∷ controllers) =
    let rest = find_holder n controllers in if c.status == 1 then some c else rest

unfoldable pub holder_in : ReservationReport → Option RegisteredController
unfolding find_holder
holder_in r = find_holder r.regctl r.controllers

abbrev pub same_owner : RegisteredController → ℕ → ℕ → Bool
same_owner c key host = c.rkey == key && c.hostid == host

-- The types that leave other registrants out.
unfoldable pub restricts : NvmeReservation → Bool
restricts write_exclusive = true
restricts exclusive_access = true
restricts write_exclusive_regs_only = true
restricts exclusive_access_regs_only = true
restricts reserved = false
restricts write_exclusive_all_regs = false
restricts exclusive_access_all_regs = false

-- Two types fit if they are the same, or if all the registrants share either.
unfoldable pub types_fit : NvmeReservation → Option NvmeReservation → Bool
unfolding shared
types_fit wanted none = false
types_fit wanted (some rtype) = shared wanted && shared rtype

unfoldable pub check_type : NexusNvmeParams → ReservationReport → Bool
unfolding resv_code types_fit try_from
check_type p r = resv_code p.resv_type == r.rtype || types_fit p.resv_type (try_from r.rtype)

module _ (S : Type 0) (h : ResvHandle S) where
  -- An absent key to preempt is sent as zero, with the action that preempts nothing.
  unfoldable pub resv_acquire :
      ℕ → Option ℕ → NvmeReservation → S → S × Outcome ResvError (Unit {0})
  unfolding resv_code
  resv_acquire key none type_ s =
      on_ok resv_acquire_failed (h.acquire key 0 acquire (resv_code type_) s) (λ u s. (s, ok tt))
  resv_acquire key (some pkey) type_ s =
      on_ok resv_acquire_failed (h.acquire key pkey preempt (resv_code type_) s) (λ u s. (s, ok tt))

  unfoldable pub resv_register : ℕ → S → S × Outcome ResvError (Unit {0})
  resv_register key s = on_ok resv_register_key (h.register key s) (λ u s. (s, ok tt))

  -- A device that does not support a command passes it.
  unfoldable pub after_register :
      S × Outcome CoreError (Unit {0})
      → (S → S × Outcome ResvError (Unit {0}))
      → S × Outcome ResvError (Unit {0})
  after_register (s, ok u) f = f s
  after_register (s, err not_supported) f = (s, ok tt)
  after_register (s, err other) f = (s, err (resv_register_key other))
  after_register (s, panic) f = (s, panic)

  unfoldable pub reservation_acquire_argkey : NexusNvmeParams → S → S × Outcome ResvError (Unit {0})
  unfolding after_register resv_acquire
  reservation_acquire_argkey p s = on_ok handle_open (h.opens s) λ u s.
      after_register (h.register p.resv_key s)
        λ s. resv_acquire p.resv_key p.preempt_key p.resv_type s

  -- `resv_holder`, without the report's other fields: its type and the holder, if one can be read.
  unfoldable pub resv_holder : S → S × Outcome ResvError (Option (ℕ × RegisteredController))
  unfolding holder_in
  resv_holder s = on_ok handle_dma_malloc (h.mallocs s) λ u s.
      on_ok resv_report (h.report s)
        λ r s. (s, ok (if r.aligned then Option.map (λ c. (r.rtype, c)) (holder_in r) else none))

  -- The holder is another one, or holds another type: preempt it, and start over where it was us.
  unfoldable pub preempt_exclusive :
      NexusNvmeParams
      → NvmeReservation
      → RegisteredController
      → ℕ
      → S
      → S × Outcome ResvError (Unit {0})
  unfolding resv_acquire resv_register resv_code
  preempt_exclusive p rtype c host s =
      on_ok (λ e. e) (resv_acquire p.resv_key (some c.rkey) p.resv_type s)
        λ u s.
          if not (not (resv_code rtype == resv_code p.resv_type) && c.hostid == host)
          then resv_acquire p.resv_key none p.resv_type s
          else on_ok (λ e. e) (resv_register p.resv_key s)
              (λ u s. resv_acquire p.resv_key none p.resv_type s)

  -- All the registrants share the reservation: a stricter type needs a release first.
  unfoldable pub preempt_shared :
      NexusNvmeParams → NvmeReservation → S → S × Outcome ResvError (Unit {0})
  unfolding resv_acquire resv_code
  preempt_shared p rtype s = elim (restricts p.resv_type) [
    | true ↦
        on_ok resv_release_failed (h.release p.resv_key (resv_code rtype) s)
          (λ u s. resv_acquire p.resv_key none p.resv_type s)
    | false ↦ (s, ok tt)
  ]

  unfoldable pub preempt_from :
      NexusNvmeParams
      → Option NvmeReservation
      → ℕ
      → RegisteredController
      → ℕ
      → S
      → S × Outcome ResvError (Unit {0})
  unfolding preempt_exclusive preempt_shared shared resv_code
  preempt_from p none code c host s = (s, err (resv_type_error code))
  preempt_from p (some rtype) code c host s =
      if resv_code rtype == resv_code p.resv_type && c.hostid == host && c.rkey == p.resv_key
      then (s, ok tt)
      else if not (shared rtype)
      then preempt_exclusive p rtype c host s
      else preempt_shared p rtype s

  unfoldable pub preempt_held :
      NexusNvmeParams → Option (ℕ × RegisteredController) → S → S × Outcome ResvError (Unit {0})
  unfolding resv_acquire preempt_from try_from
  preempt_held p none s = resv_acquire p.resv_key none p.resv_type s
  preempt_held p (some (code, c)) s =
      on_ok nvme_host_id (h.host_id s) (λ host s. preempt_from p (try_from code) code c host s)

  unfoldable pub reservation_preempt_holder : NexusNvmeParams → S → S × Outcome ResvError (Unit {0})
  unfolding after_register resv_holder preempt_held
  reservation_preempt_holder p s = on_ok handle_open (h.opens s) λ u s.
      after_register (h.register p.resv_key s)
        λ s. on_ok (λ e. e) (resv_holder s) (λ held s. preempt_held p held s)

  -- The holder has our key, and is our host.
  unfoldable pub check_owner :
      NexusNvmeParams
      → ReservationReport
      → Option RegisteredController
      → S
      → S × Outcome ResvError (Unit {0})
  check_owner p r none s = (s, err (resv_no_holder r.rtype))
  check_owner p r (some c) s =
      on_ok nvme_host_id (h.host_id s)
        λ host s. (s, if same_owner c p.resv_key host then ok tt else err (holder_error c))

  unfoldable pub check_report :
      NexusNvmeParams → ReservationReport → S → S × Outcome ResvError (Unit {0})
  unfolding check_type shared check_owner holder_in
  check_report p r s =
      if not (check_type p r)
      then (s, err (resv_type_error r.rtype))
      else if shared p.resv_type
      then (s, ok tt)
      else if not r.aligned
      then (s, err (resv_no_holder r.rtype))
      else check_owner p r (holder_in r) s

  unfoldable pub after_report :
      NexusNvmeParams → S × Outcome CoreError ReservationReport → S × Outcome ResvError (Unit {0})
  unfolding check_report
  after_report p (s, ok r) = check_report p r s
  after_report p (s, err not_supported) = (s, ok tt)
  after_report p (s, err other) = (s, err (resv_report other))
  after_report p (s, panic) = (s, panic)

  unfoldable pub resv_check_holder : NexusNvmeParams → S → S × Outcome ResvError (Unit {0})
  unfolding after_report
  resv_check_holder p s =
      on_ok handle_open (h.opens s)
        λ u s. on_ok handle_dma_malloc (h.mallocs s) (λ u s. after_report p (h.report s))

  -- `enabled` is whether the environment asks for reservations.
  unfoldable pub reservation_acquire : Bool → NexusNvmeParams → S → S × Outcome ResvError (Unit {0})
  unfolding reservations_enabled reservation_acquire_argkey reservation_preempt_holder
      resv_check_holder
  reservation_acquire enabled p s =
      if not enabled
      then (s, ok tt)
      else if not (reservations_enabled p)
      then (s, ok tt)
      else on_ok (λ e. e)
          (if is_holder p.preempt_policy
            then reservation_preempt_holder p s
            else reservation_acquire_argkey p s)
          (λ u s. resv_check_holder p s)
