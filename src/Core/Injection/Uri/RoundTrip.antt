-- ===== src/Core/Injection/Uri/RoundTrip.antt =====
-- An injection is read back from the URI that is built for it.
use mayastor.Common.{
  ℕ, ◌/◌, ◌%◌, ◌≤◌, List, [], ◌∷◌, ◌++◌, Bool, true, false, some, ◌==◌, if◌then◌else◌, Outcome, ok,
  err, panic, ◌>>=◌, ◌≡◌, ◌≢◌, ◌⊎◌, inl, inr, refl, sym, ap, ◌∙◌, arith,
}
use mayastor.Common.Words.{sub64}
use mayastor.Common.Text.{Text, codes, same_text}
use mayastor.Common.Numbers.{print, ten, parse-print}
use mayastor.Core.Injection.{
  FaultDomain, nexus_child, block_device, bdev_io, FaultIoOperation, read_write, FaultIoStage,
  submission, completion, u64_max, duration_max, NvmeCodes, FaultMethod, status, nvme_error,
  InjectionState, Injection, success, lvol_error, io_submission_error, admin_command_error, corrupt,
}
use mayastor.Core.Injection.Method.{method_text, data_transfer}
use mayastor.Core.Injection.Method.RoundTrip.{NvmeLaws, IsPrintable, parse_method-method_text}
use mayastor.Core.Injection.Uri.{
  domain_text, operation_text, stage_text, one_of, if_not, is_default_method, default, set_param,
  set_params, options,
}

-- What holds after a value that a first part gives, where the whole gives a value.
bind_then :
    {E A : Type 0} (m : Outcome E A) (f g : A → Outcome E A) (s : A) (x : Outcome E A)
    → ((a : A) → f a ≡ ok s → g a ≡ x)
    → (m >>= f) ≡ ok s
    → (m >>= g) ≡ x
bind_then (ok a) f g s x h k = h a k
bind_then (err e) f g s x h k = cc
bind_then panic f g s x h k = cc

is_default_method_lem :
    {N : Type 0} (c : NvmeCodes N) (laws : NvmeLaws c) (m : FaultMethod N)
    → is_default_method c m ≡ true
    → data_transfer c ≡ m
unfolding is_default_method
is_default_method_lem c laws (status (nvme_error s)) h =
    ap (λ t. status (nvme_error t)) (sym ((laws.same_status_iff s c.data_transfer_error).0 h))
is_default_method_lem c laws (status success) h = cc
is_default_method_lem c laws (status (lvol_error e)) h = cc
is_default_method_lem c laws (status (io_submission_error e)) h = cc
is_default_method_lem c laws (status admin_command_error) h = cc
is_default_method_lem c laws corrupt h = cc

sub64_fits : (a b : ℕ) → sub64 a b ≤ u64_max
unfolding sub64
sub64_fits a b = omega arith

eq_of : (a b : ℕ) → (a == b) ≡ true → b ≡ a
eq_of a b h = ground (arith, h)

ne_of : (a b : ℕ) → (a == b) ≡ false → a ≢ b
ne_of a b h = ground (arith, h)

module _ {N : Type 0} (c : NvmeCodes N) (laws : NvmeLaws c) {R : Type 0} where
  -- One parameter after another.
  set_params_then :
      (ps qs : List (Text × Text)) (r s : Injection N R)
      → set_params c ps r ≡ ok s
      → set_params c (ps ++ qs) r ≡ set_params c qs s
  unfolding set_params
  set_params_then [] qs r s h = cc
  set_params_then (p ∷ ps) qs r s h =
      bind_then (set_param c p r) (set_params c ps) (set_params c (ps ++ qs)) s (set_params c qs s)
        (λ a k. set_params_then ps qs a s k) h

  set_params_if :
      (same : Bool) (p : Text × Text) (r s : Injection N R)
      → (same ≡ true → r ≡ s)
      → (same ≡ false → set_param c p r ≡ ok s)
      → set_params c (if_not same p) r ≡ ok s
  unfolding set_params
  set_params_if true p r s h k = ap ok (h refl)
  set_params_if false p r s h k = rw (k refl) refl

  set_params_both :
      (ps qs : List (Text × Text)) (r s t : Injection N R)
      → set_params c ps r ≡ ok s
      → set_params c qs s ≡ ok t
      → set_params c (ps ++ qs) r ≡ ok t
  set_params_both ps qs r s t h k = set_params_then ps qs r s h ∙ k

  -- What each parameter does.
  set_domain :
      (d : FaultDomain) (r : Injection N R)
      → set_param c (codes "domain", domain_text d) r ≡ ok (record r { domain = d })
  unfolding set_param same_text one_of domain_text
  set_domain nexus_child r = refl
  set_domain block_device r = refl
  set_domain bdev_io r = refl

  set_operation :
      (o : FaultIoOperation) (r : Injection N R)
      → set_param c (codes "op", operation_text o) r ≡ ok (record r { io_operation = o })
  unfolding set_param same_text one_of operation_text
  set_operation FaultIoOperation.read r = refl
  set_operation FaultIoOperation.write r = refl
  set_operation read_write r = refl

  set_stage :
      (s : FaultIoStage) (r : Injection N R)
      → set_param c (codes "stage", stage_text s) r ≡ ok (record r { io_stage = s })
  unfolding set_param same_text one_of stage_text
  set_stage submission r = refl
  set_stage completion r = refl

  set_method :
      (m : FaultMethod N) (r : Injection N R)
      → IsPrintable c laws m
      → set_param c (codes "method", method_text c m) r ≡ ok (record r { method = m })
  unfolding set_param same_text
  set_method m r h = rw (parse_method-method_text c laws m h) refl

  set_offset :
      (n : ℕ) (r : Injection N R)
      → n ≤ u64_max
      → set_param c (codes "offset", print 10 n) r ≡ ok (record r { block_start = n })
  unfolding set_param same_text one_of
  set_offset n r h = rw (parse-print 10 u64_max n ten h) refl

  set_num_blk :
      (n : ℕ) (r : Injection N R)
      → n ≤ u64_max
      → set_param c (codes "num_blk", print 10 n) r ≡ ok (record r { block_end = n })
  unfolding set_param same_text one_of
  set_num_blk n r h = rw (parse-print 10 u64_max n ten h) refl

  set_retries :
      (n : ℕ) (r : Injection N R)
      → n ≤ u64_max
      → set_param c (codes "retries", print 10 n) r ≡ ok (record r { retries = n })
  unfolding set_param same_text one_of
  set_retries n r h = rw (parse-print 10 u64_max n ten h) refl

  set_begin_at :
      (t : ℕ) (r : Injection N R)
      → t % 1000000 ≡ 0
      → t / 1000000 ≤ u64_max
      → set_param c (codes "begin_at", print 10 (t / 1000000)) r ≡ ok (record r { time_start = t })
  unfolding set_param same_text one_of
  set_begin_at t r whole h =
      rw (parse-print 10 u64_max (t / 1000000) ten h)
        (ap (λ (x : ℕ). ok (record r { time_start = x })) (omega (arith, whole)))

  set_end_at :
      (t : ℕ) (r : Injection N R)
      → t % 1000000 ≡ 0
      → t / 1000000 ≤ u64_max
      → set_param c (codes "end_at", print 10 (t / 1000000)) r ≡ ok (record r { time_end = t })
  unfolding set_param same_text one_of
  set_end_at t r whole h =
      rw (parse-print 10 u64_max (t / 1000000) ten h)
        (ap (λ (x : ℕ). ok (record r { time_end = x })) (omega (arith, whole)))

  -- What a URI tells of an injection: all but its state, each value in the form that it is written in.
  pub record IsExpressible (r : Injection N R) : Type 0 where
    pub printable : IsPrintable c laws r.method
    pub begins : r.time_start % 1000000 ≡ 0
    pub begins_fit : r.time_start / 1000000 ≤ u64_max
    pub ends :
        (r.time_end ≡ duration_max)
        ⊎ ((r.time_end % 1000000 ≡ 0) × (r.time_end / 1000000 ≤ u64_max))
    pub in_order : r.time_start ≤ r.time_end
    pub blocks_in_order : r.block_start ≤ r.block_end
    pub blocks_fit : r.block_end ≤ u64_max
    pub retries_fit : r.retries ≤ u64_max

  -- What the parameters leave behind, before the end of the blocks is worked out.
  abbrev pub read_as : Injection N R → Text → InjectionState R → ℕ → Injection N R
  read_as r text state blocks = record r { uri = some text; state = state; block_end = blocks }

  abbrev pub blocks_of : Injection N R → ℕ
  blocks_of r = if r.block_end == u64_max then u64_max else sub64 r.block_end r.block_start

  -- The options that are left out where they have their default.
  module _ (r : Injection N R) (fits : IsExpressible r) (s : Injection N R) where
    read_method :
        s.method ≡ data_transfer c
        → set_params c
            (if_not (is_default_method c r.method) (codes "method", method_text c r.method))
            s
          ≡ ok (record s { method = r.method })
    read_method h =
        set_params_if (is_default_method c r.method) (codes "method", method_text c r.method) s
          (record s { method = r.method })
          (λ e. ap (λ m. record s { method = m }) (h ∙ is_default_method_lem c laws r.method e))
          (λ e. set_method r.method s fits.printable)

    read_begin_at :
        s.time_start ≡ 0
        → set_params c
            (if_not (r.time_start == 0) (codes "begin_at", print 10 (r.time_start / 1000000)))
            s
          ≡ ok (record s { time_start = r.time_start })
    read_begin_at h =
        set_params_if (r.time_start == 0) (codes "begin_at", print 10 (r.time_start / 1000000)) s
          (record s { time_start = r.time_start })
          (λ e. ap (λ (t : ℕ). record s { time_start = t }) (h ∙ eq_of r.time_start 0 e))
          (λ e. set_begin_at r.time_start s fits.begins fits.begins_fit)

    read_end_at :
        s.time_end ≡ duration_max
        → set_params c
            (if_not (r.time_end == duration_max) (codes "end_at", print 10 (r.time_end / 1000000)))
            s
          ≡ ok (record s { time_end = r.time_end })
    read_end_at h =
        set_params_if (r.time_end == duration_max) (codes "end_at", print 10 (r.time_end / 1000000))
          s (record s { time_end = r.time_end })
          (λ e. ap (λ (t : ℕ). record s { time_end = t }) (h ∙ eq_of r.time_end duration_max e))
          (λ e. elim fits.ends [
            | inl never ↦ absurd (ne_of r.time_end duration_max e never)
            | inr (whole, small) ↦ set_end_at r.time_end s whole small
          ])

    read_offset :
        s.block_start ≡ 0
        → set_params c (if_not (r.block_start == 0) (codes "offset", print 10 r.block_start)) s
          ≡ ok (record s { block_start = r.block_start })
    read_offset h =
        set_params_if (r.block_start == 0) (codes "offset", print 10 r.block_start) s
          (record s { block_start = r.block_start })
          (λ e. ap (λ (t : ℕ). record s { block_start = t }) (h ∙ eq_of r.block_start 0 e))
          (λ e. set_offset r.block_start s (omega (arith, fits.blocks_in_order, fits.blocks_fit)))

    read_num_blk :
        s.block_end ≡ u64_max
        → set_params c
            (if_not
              (r.block_end == u64_max)
              (codes "num_blk", print 10 (sub64 r.block_end r.block_start)))
            s
          ≡ ok (record s { block_end = blocks_of r })
    read_num_blk h =
        set_params_if (r.block_end == u64_max)
          (codes "num_blk", print 10 (sub64 r.block_end r.block_start)) s
          (record s { block_end = blocks_of r })
          (λ e. ap (λ (t : ℕ). record s { block_end = t }) (h ∙ rw e refl))
          (λ e.
            set_num_blk (sub64 r.block_end r.block_start) s (sub64_fits r.block_end r.block_start)
            ∙ ap (λ (t : ℕ). ok (record s { block_end = t })) (rw e refl))

    read_retries :
        s.retries ≡ u64_max
        → set_params c (if_not (r.retries == u64_max) (codes "retries", print 10 r.retries)) s
          ≡ ok (record s { retries = r.retries })
    read_retries h =
        set_params_if (r.retries == u64_max) (codes "retries", print 10 r.retries) s
          (record s { retries = r.retries })
          (λ e. ap (λ (t : ℕ). record s { retries = t }) (h ∙ eq_of r.retries u64_max e))
          (λ e. set_retries r.retries s fits.retries_fit)

  -- The first three options are always there.
  read_head :
      (r s : Injection N R) (rest : List (Text × Text))
      → set_params c
          ((codes "domain", domain_text r.domain)
            ∷ (codes "op", operation_text r.io_operation)
            ∷ (codes "stage", stage_text r.io_stage)
            ∷ rest)
          s
        ≡ set_params c rest
            (record s { domain = r.domain; io_operation = r.io_operation; io_stage = r.io_stage })
  unfolding set_params
  read_head r s rest =
      rw
        (
          set_domain r.domain s,
          set_operation r.io_operation (record s { domain = r.domain }),
          set_stage r.io_stage (record s { domain = r.domain; io_operation = r.io_operation }),
        )
        refl

  module _ (r : Injection N R) (fits : IsExpressible r) (text : Text)
      (state : InjectionState R) where
    abbrev pub begun : Injection N R
    begun = record (default c state) { uri = some text; device_name = r.device_name }

    abbrev headed : Injection N R
    headed = record begun {
      domain = r.domain;
      io_operation = r.io_operation;
      io_stage = r.io_stage;
    }

    abbrev with_method : Injection N R
    with_method = record headed { method = r.method }

    abbrev with_begin : Injection N R
    with_begin = record with_method { time_start = r.time_start }

    abbrev with_end : Injection N R
    with_end = record with_begin { time_end = r.time_end }

    abbrev with_offset : Injection N R
    with_offset = record with_end { block_start = r.block_start }

    abbrev with_blocks : Injection N R
    with_blocks = record with_offset { block_end = blocks_of r }

    -- All the options, in their order.
    pub read_options : set_params c (options c r) begun ≡ ok (read_as r text state (blocks_of r))
    unfolding options default
    read_options =
        let at_begin =
          set_params_both _ _ headed with_method with_begin (read_method r fits headed refl)
            (read_begin_at r fits with_method refl) in
        let at_end =
          set_params_both _ _ headed with_begin with_end at_begin
            (read_end_at r fits with_begin refl) in
        let at_offset =
          set_params_both _ _ headed with_end with_offset at_end
            (read_offset r fits with_end refl) in
        let at_blocks =
          set_params_both _ _ headed with_offset with_blocks at_offset
            (read_num_blk r fits with_offset refl) in
        read_head r begun _
        ∙ set_params_both _ _ headed with_blocks (read_as r text state (blocks_of r)) at_blocks
            (read_retries r fits with_blocks refl)
