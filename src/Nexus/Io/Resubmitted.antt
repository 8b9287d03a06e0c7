-- ===== src/Nexus/Io/Resubmitted.antt =====
-- bdev/nexus/nexus_io.rs: an I/O that one of the devices does not know.
use mayastor.Common.{
  ℕ, zero, suc, ◌+◌, ◌%◌, ◌<◌, List, [], ◌∷◌, Bool, true, false, ◌≡◌, refl, ◌∙◌, ap, arith,
}
use mayastor.Common.Words.{add8, sub8}
use mayastor.Common.Text.{Text, same_text_refl}
use mayastor.Nexus.Io.{
  success, invalid_opcode, at_work, new, NexusBio, mem, remove_first, submit_to, after_refusal,
  log_all, submitted, submit_all, submit_request, completion_error, resubmit, counted, settle,
  complete,
}
use mayastor.Nexus.Io.Events.{Event, completes, run_event, run}

module _ (has_log : Text → Bool) (d e : Text) where
  -- The I/O as it was submitted again, its resubmissions counted as `n`, with both devices at work.
  abbrev pub attempt : ℕ → NexusBio
  attempt n = record {
    channel = record {
      writers = d ∷ e ∷ [];
      io_logs = [];
      is_frozen = false;
      retired = [];
      logged = [];
      shutdown_requested = false;
      last_error = success;
    };
    in_flight = 2;
    resubmits = n;
    successful = 0;
    failed = 0;
    fate = at_work;
    attempted = d ∷ e ∷ [];
    pending = d ∷ e ∷ [];
    written = [];
  }

  unfoldable pub rounds : ℕ → List Event
  rounds zero = []
  rounds (suc n) =
      completes (λ _. true) d success ∷ completes (λ _. true) e invalid_opcode ∷ rounds n

  one_round :
      (n : ℕ)
      → run_event has_log
          (completes (λ _. true) e invalid_opcode)
          (run_event has_log (completes (λ _. true) d success) (attempt n))
        ≡ attempt (add8 n 1)
  unfolding run_event complete counted settle resubmit submit_request submit_all submit_to
      after_refusal log_all submitted remove_first mem completion_error add8 sub8
  one_round n = simp (same_text_refl d, same_text_refl e) refl

  some_rounds : (n k : ℕ) → k < 256 → run has_log (rounds n) (attempt k) ≡ attempt ((k + n) % 256)
  unfolding run rounds add8
  some_rounds zero k h = ap attempt (omega arith)
  some_rounds (suc n) k h =
      ap (run has_log (rounds n)) (one_round k)
      ∙ some_rounds n (add8 k 1) (omega arith)
      ∙ ap attempt (omega arith)

  first_attempt : submit_request has_log (λ _. true) (new (attempt 0).channel) ≡ attempt 0
  unfolding new submit_request submit_all submit_to after_refusal log_all submitted
  first_attempt = refl

  -- While of two writers the first succeeds and the second does not know the operation, again and
  -- again, the I/O is submitted to both again, as often as they answer so, and its resubmissions are
  -- counted in a byte that wraps: it does not end, neither device leaves the channel, and the nexus is
  -- not asked to retire the second.
  pub resubmitted_forever :
      (n : ℕ)
      → run has_log (rounds n) (submit_request has_log (λ _. true) (new (attempt 0).channel))
        ≡ attempt (n % 256)
  resubmitted_forever n =
      ap (run has_log (rounds n)) first_attempt
      ∙ some_rounds n 0 (omega arith)
      ∙ ap attempt (omega arith)
