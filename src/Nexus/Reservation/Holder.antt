-- ===== src/Nexus/Reservation/Holder.antt =====
-- Who holds the reservation of a child once the nexus has acquired it.
use mayastor.Common.{
  ℕ, zero, suc, ◌<◌, List, [], ◌∷◌, ◌++◌, true, false, Option, none, some, ◌==◌, if◌then◌else◌,
  Outcome, ok, err, panic, ◌≡◌, ◌≢◌, ◌⊎◌, inl, inr, refl, ap, arith, Bool-cases, some_inj, All,
  length,
}
use mayastor.Nexus.Reservation.{
  NvmeReservation, reserved, write_exclusive, exclusive_access, write_exclusive_regs_only,
  exclusive_access_regs_only, write_exclusive_all_regs, exclusive_access_all_regs, holder_error,
  resv_code, try_from, shared, NexusNvmeParams, reservations_enabled, RegisteredController,
  ReservationReport, CoreError, not_supported, other, ResvError, ResvHandle, on_ok, find_holder,
  holder_in, same_owner, types_fit, check_type, check_owner, check_report, after_report,
  resv_check_holder, reservation_acquire, reservation_preempt_holder, reservation_acquire_argkey,
  is_holder, nvme_host_id, handle_open, handle_dma_malloc,
}

-- The type of the report is ours, or it and ours are types that all registrants share.
abbrev pub Fits : NexusNvmeParams → ReservationReport → Type 0
Fits p r =
    (r.rtype ≡ resv_code p.resv_type)
    ⊎ ((shared p.resv_type ≡ true)
        × (t : NvmeReservation) × (r.rtype ≡ resv_code t)
        × (shared t ≡ true))

-- Among the first n controllers, c is the first with the status of a holder.
abbrev pub HolderIs : ℕ → List RegisteredController → RegisteredController → Type 0
HolderIs n controllers c =
    (before : List RegisteredController) × (after : List RegisteredController) × (controllers
      ≡ before ++ c ∷ after)
    × (length before < n)
    × (c.status ≡ 1)
    × All (λ (d : RegisteredController). d.status ≢ 1) before

status_of : (d c : RegisteredController) → d ≡ c → d.status ≡ 1 → c.status ≡ 1
status_of d c e h = cc

find_holder_lem :
    (n : ℕ) (controllers : List RegisteredController) (c : RegisteredController)
    → find_holder n controllers ≡ some c
    → HolderIs n controllers c
unfolding find_holder
find_holder_lem zero controllers c h = cc
find_holder_lem (suc n) [] c h = cc
find_holder_lem (suc n) (d ∷ controllers) c h = elim (Bool-cases (d.status == 1)) [
  | inl e ↦ (
    [],
    controllers,
    ap (λ x. x ∷ controllers) (some_inj (rw e at h)),
    omega arith,
    status_of d c (some_inj (rw e at h)) (ground (arith, e)),
    tt,
  )
  | inr e ↦
      let (before, after, split, short, holds, others) =
        find_holder_lem n controllers c (rw e at h) in
      (
        d ∷ before,
        after,
        ap (λ l. d ∷ l) split,
        omega (arith, short),
        holds,
        (ground (arith, e), others),
      )
]

try_from_sound : (code : ℕ) (t : NvmeReservation) → try_from code ≡ some t → code ≡ resv_code t
unfolding try_from resv_code
try_from_sound code reserved h = ground (arith, h)
try_from_sound code write_exclusive h = ground (arith, h)
try_from_sound code exclusive_access h = ground (arith, h)
try_from_sound code write_exclusive_regs_only h = ground (arith, h)
try_from_sound code exclusive_access_regs_only h = ground (arith, h)
try_from_sound code write_exclusive_all_regs h = ground (arith, h)
try_from_sound code exclusive_access_all_regs h = ground (arith, h)

types_fit_lem :
    (wanted : NvmeReservation) (code : ℕ) (read : Option NvmeReservation)
    → try_from code ≡ read
    → types_fit wanted read ≡ true
    → (shared wanted ≡ true) × (t : NvmeReservation) × (code ≡ resv_code t) × (shared t ≡ true)
unfolding types_fit
types_fit_lem wanted code none e h = cc
types_fit_lem wanted code (some t) e h =
    (ground (arith, h), t, try_from_sound code t e, ground (arith, h))

check_type-Fits : (p : NexusNvmeParams) (r : ReservationReport) → check_type p r ≡ true → Fits p r
unfolding check_type
check_type-Fits p r h = elim (Bool-cases (resv_code p.resv_type == r.rtype)) [
  | inl e ↦ inl (ground (arith, e))
  | inr e ↦ inr (types_fit_lem p.resv_type r.rtype (try_from r.rtype) refl (rw e at h))
]

-- A sequence that ends well has a first part that does.
on_ok_ok :
    {S E F A B : Type 0} (name : E → F) (m : S × Outcome E A) (f : A → S → S × Outcome F B) (t : S)
    (b : B)
    → on_ok name m f ≡ (t, ok b)
    → (s : S) × (a : A) × (m ≡ (s, ok a)) × (f a s ≡ (t, ok b))
on_ok_ok name (s, ok a) f t b h = (s, a, refl, h)
on_ok_ok name (s, err e) f t b h = cc
on_ok_ok name (s, panic) f t b h = cc

err_ne_ok :
    {S : Type 0} {s t : S} {e : ResvError}
    → ◌≢◌ {A = S × Outcome ResvError (Unit {0})} (s, err e) (t, ok tt)
err_ne_ok h = cc

same_owner_ok :
    (c : RegisteredController) (key host : ℕ)
    → ◌≡◌ {A = Outcome ResvError (Unit {0})}
        (if same_owner c key host then ok tt else err (holder_error c))
        (ok tt)
    → (c.rkey ≡ key) × (c.hostid ≡ host)
same_owner_ok c key host h = (ground (arith, h), ground (arith, h))

module _ (S : Type 0) (h : ResvHandle S) where
  -- After a report that left the device at s, the check ends at t: it has nothing more to ask where all
  -- the registrants share our type; else the controllers can be read, and the first that holds has our
  -- key and the host that the device gives when it is asked.
  abbrev pub Owned : NexusNvmeParams → ReservationReport → S → S → Type 0
  Owned p r s t =
      ((shared p.resv_type ≡ true) × (s ≡ t))
      ⊎ ((shared p.resv_type ≡ false)
          × (r.aligned ≡ true)
          × (c : RegisteredController) × HolderIs r.regctl r.controllers c
          × (c.rkey ≡ p.resv_key)
          × (h.host_id s ≡ (t, ok c.hostid)))

  check_owner_ok :
      (p : NexusNvmeParams) (r : ReservationReport) (held : Option RegisteredController) (s t : S)
      → holder_in r ≡ held
      → check_owner S h p r held s ≡ (t, ok tt)
      → (c : RegisteredController) × HolderIs r.regctl r.controllers c
        × (c.rkey ≡ p.resv_key)
        × (h.host_id s ≡ (t, ok c.hostid))
  unfolding check_owner holder_in
  check_owner_ok p r none s t e k = cc
  check_owner_ok p r (some c) s t e k =
      let (u, host, asked, answer) = on_ok_ok nvme_host_id (h.host_id s) _ t tt k in
      let (key_is, host_is) = same_owner_ok c p.resv_key host (ap (λ x. x.1) answer) in
      let same : u ≡ t = ap (λ x. x.0) answer in
      (c, find_holder_lem r.regctl r.controllers c e, key_is, cc (asked, host_is, same))

  check_report_ok :
      (p : NexusNvmeParams) (r : ReservationReport) (s t : S)
      → check_report S h p r s ≡ (t, ok tt)
      → Fits p r × Owned p r s t
  unfolding check_report
  check_report_ok p r s t k = elim (Bool-cases (check_type p r)) [
    | inl e ↦ (
      check_type-Fits p r e,
      elim (Bool-cases (shared p.resv_type)) [
        | inl shares ↦ inl (shares, ap (λ x. x.0) (rw (e, shares) at k))
        | inr alone ↦ elim (Bool-cases r.aligned) [
          | inl reads ↦
              let (c, holds, key_is, asked) =
                check_owner_ok p r (holder_in r) s t refl (rw (e, alone, reads) at k) in
              inr (alone, reads, c, holds, key_is, asked)
          | inr blind ↦ absurd (err_ne_ok (rw (e, alone, blind) at k))
        ]
      ],
    )
    | inr e ↦ absurd (err_ne_ok (rw e at k))
  ]

  -- From s, a device gives a report, with which the check ends at t; or it does not support the report.
  abbrev pub Reports : NexusNvmeParams → S → S → Type 0
  Reports p s t =
      (h.report s ≡ (t, err not_supported))
      ⊎ ((r : ReservationReport) × (u : S) × (h.report s ≡ (u, ok r)) × Fits p r × Owned p r u t)

  -- The commands that take the reservation, by the policy of preemption.
  abbrev pub acquires : NexusNvmeParams → S → S × Outcome ResvError (Unit {0})
  acquires p s =
      if is_holder p.preempt_policy
      then reservation_preempt_holder S h p s
      else reservation_acquire_argkey S h p s

  -- From s to t: the reservation is taken, and the device is opened and asked for its report after it.
  abbrev pub Reported : NexusNvmeParams → S → S → Type 0
  Reported p s t =
      (taken : S) × (opened : S) × (ready : S) × (acquires p s ≡ (taken, ok tt))
      × (h.opens taken ≡ (opened, ok tt))
      × (h.mallocs opened ≡ (ready, ok tt))
      × Reports p ready t

  after_report_ok :
      (p : NexusNvmeParams) (s : S) (m : S × Outcome CoreError ReservationReport) (t : S)
      → h.report s ≡ m
      → after_report S h p m ≡ (t, ok tt)
      → Reports p s t
  unfolding after_report
  after_report_ok p s (u, ok r) t e k =
      let (fits, owned) = check_report_ok p r u t k in inr (r, u, e, fits, owned)
  after_report_ok p s (u, err not_supported) t e k = inl (cc (e, k))
  after_report_ok p s (u, err other) t e k = cc
  after_report_ok p s (u, panic) t e k = cc

  resv_check_holder_ok :
      (p : NexusNvmeParams) (s t : S)
      → resv_check_holder S h p s ≡ (t, ok tt)
      → (opened : S) × (ready : S) × (h.opens s ≡ (opened, ok tt))
        × (h.mallocs opened ≡ (ready, ok tt))
        × Reports p ready t
  unfolding resv_check_holder
  resv_check_holder_ok p s t k =
      let (s1, u1, is_open, k1) = on_ok_ok handle_open (h.opens s) _ t tt k in
      let (s2, u2, had, k2) = on_ok_ok handle_dma_malloc (h.mallocs s1) _ t tt k1 in
      (s1, s2, is_open, had, after_report_ok p s2 (h.report s2) t refl k2)

  -- If a child acquires its reservation, where reservations are asked for and used, the commands that
  -- take it have succeeded, and the device, opened after them, has then given a report that shows it:
  -- the type fits, and unless all registrants share the type, the first controller that holds it has
  -- the key and the host of the nexus; or else the device does not support the report.
  pub acquire-Reported :
      (p : NexusNvmeParams) (s t : S)
      → reservations_enabled p ≡ true
      → reservation_acquire S h true p s ≡ (t, ok tt)
      → Reported p s t
  unfolding reservation_acquire
  acquire-Reported p s t used k =
      let (s1, u, acquired, k1) =
        on_ok_ok (λ (e : ResvError). e) (acquires p s) (λ u s. resv_check_holder S h p s) t tt
          (rw used at k) in
      let (s2, s3, is_open, had, reports) = resv_check_holder_ok p s1 t k1 in
      (s1, s2, s3, acquired, is_open, had, reports)
