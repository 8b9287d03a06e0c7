-- ===== src/Nexus/Io/Written.antt =====
-- bdev/nexus/nexus_io.rs: the life of an I/O sent to all the writers, up to its completion.
use mayastor.Common.{
  ◌+◌, ◌<◌, ◌≤◌, List, [], ◌∷◌, Bool, true, false, ◌&&◌, Option, none, some, ltb, ◌==◌, ◌≡◌, inl,
  inr, refl, sym, ◌∙◌, arith, Bool-cases, if_both, length,
}
use mayastor.Common.Words.{add8, add8_exact, sub8_exact}
use mayastor.Nexus.Io.Writers.{after_refusal_fewer, completion_error_writers}
use mayastor.Common.Text.{Text}
use mayastor.Nexus.Io.{
  ChildIoStatus, success, invalid_opcode, reservation_conflict, other_error, at_work, completed,
  failed_io, NexusChannel, NexusBio, new, fail, mem, submit_to, after_refusal, log_all, submitted,
  submit_all, submit_request, resubmit, counted, settle, complete, resubmit_frozen, abort_frozen,
}
use mayastor.Nexus.Io.Events.{
  Event, completes, freezes, aborts, thaws, is_at_work, is_frozen_io, run_event, run,
}
use mayastor.Nexus.Io.Devices.{
  length-remove_first, submit_to_all, mem-length, length-submit_to, refusals,
}
use mayastor.Nexus.Io.Invariant.{
  Inv, at_work_frozen, completed_works, covers_sent, over-Inv, frozen-Inv, moved, all_written,
  frozen_is, work_is, failure_Inv,
}

module _ (has_log : Text → Bool) where
  sent-Inv :
      (sent : List Text) (refused : Option Text) (b : NexusBio)
      → b.fate ≡ at_work
      → b.failed ≡ 0
      → length b.channel.writers < 256
      → length sent + refusals refused ≤ length b.channel.writers
      → (refused ≡ none → sent ≡ b.attempted)
      → Inv (
          submitted has_log sent (
            let told = after_refusal has_log refused b in
            record told { channel = log_all has_log told.channel }))
  unfolding submitted after_refusal log_all fail
  sent-Inv [] none b w z n l all = over-Inv _ refl n
  sent-Inv [] (some r) b w z n l all =
      let fewer = after_refusal_fewer has_log (some r) b in
      over-Inv _ refl (omega (arith, fewer, n))
  sent-Inv (d ∷ ds) none b w z n l all = record {
    counts = λ _. omega (arith, n, l);
    waits = λ _ _ x m. covers_sent (all refl) b.written x m;
    few = n;
    bounded = λ _. omega (arith, n, l, z);
    idle = λ h. absurd (at_work_frozen b.fate w h);
    done = λ h _ _. cc;
  }
  sent-Inv (d ∷ ds) (some r) b w z n l all =
      let raised = add8_exact b.failed 1 (omega (arith, z)) in
      let fewer = after_refusal_fewer has_log (some r) b in
      record {
        counts = λ _. omega (arith, n, l);
        waits = λ _ none_failed. absurd (omega (arith, none_failed, raised));
        few = omega (arith, fewer, n);
        bounded = λ _. omega (arith, n, l, z, raised);
        idle = λ h. absurd (at_work_frozen b.fate w h);
        done = λ h _ _. cc;
      }

  submit_all-Inv :
      (accepts : Text → Bool) (b : NexusBio)
      → b.fate ≡ at_work
      → b.failed ≡ 0
      → length b.channel.writers < 256
      → Inv (submit_all has_log accepts b)
  unfolding submit_all
  submit_all-Inv accepts b w z n =
      sent-Inv (submit_to accepts b.channel.writers).0 (submit_to accepts b.channel.writers).1 _ w z
        n (length-submit_to accepts b.channel.writers)
        (λ all. submit_to_all accepts b.channel.writers all)

  submit_request-Inv :
      (accepts : Text → Bool) (b : NexusBio)
      → b.fate ≡ at_work
      → b.failed ≡ 0
      → length b.channel.writers < 256
      → Inv (submit_request has_log accepts b)
  unfolding submit_request
  submit_request-Inv accepts b w z n =
      if_both Inv b.channel.is_frozen (frozen-Inv _ refl z n) (submit_all-Inv accepts b w z n)

  counted-success-Inv :
      (d : Text) (b : NexusBio)
      → Inv b
      → b.fate ≡ at_work
      → mem d b.pending ≡ true
      → Inv (counted has_log d success b)
  unfolding counted
  counted-success-Inv d b i w m =
      let n = i.bounded w in
      let c = i.counts w in
      let less = length-remove_first d b.pending m in
      let some_left = mem-length d b.pending m in
      let lowered = sub8_exact b.in_flight 1 (omega (arith, c, some_left)) (omega (arith, c, n)) in
      record {
        counts = λ _. omega (arith, lowered, less, c);
        waits = λ _ z x a. moved d x b (i.waits w z x a);
        few = i.few;
        bounded = λ _. omega (arith, n, less);
        idle = i.idle;
        done = λ h _ _. cc;
      }

  counted-Inv :
      (d : Text) (status : ChildIoStatus) (b : NexusBio)
      → Inv b
      → b.fate ≡ at_work
      → mem d b.pending ≡ true
      → Inv (counted has_log d status b)
  unfolding counted
  counted-Inv d success b i w m = counted-success-Inv d b i w m
  counted-Inv d invalid_opcode b i w m =
      failure_Inv d b _ i w m (completion_error_writers has_log d invalid_opcode b.channel)
  counted-Inv d reservation_conflict b i w m =
      failure_Inv d b _ i w m (completion_error_writers has_log d reservation_conflict b.channel)
  counted-Inv d ChildIoStatus.no_space b i w m =
      failure_Inv d b _ i w m (completion_error_writers has_log d ChildIoStatus.no_space b.channel)
  counted-Inv d other_error b i w m =
      failure_Inv d b _ i w m (completion_error_writers has_log d other_error b.channel)

  completed-Inv :
      (b : NexusBio)
      → Inv b
      → b.fate ≡ at_work
      → b.in_flight ≡ 0
      → b.failed ≡ 0
      → Inv (record b { fate = completed })
  completed-Inv b i w z f = record {
    counts = λ h. cc;
    waits = λ h _. cc;
    few = i.few;
    bounded = λ h. absurd (completed_works h);
    idle = λ h. cc;
    done = λ _ x a. all_written x b (i.waits w f x a) (sym (i.counts w) ∙ z);
  }

  resubmit-Inv :
      (accepts : Text → Bool) (b : NexusBio)
      → length b.channel.writers < 256
      → Inv (resubmit has_log accepts b)
  unfolding resubmit
  resubmit-Inv accepts b n =
      submit_request-Inv accepts
        (record b { resubmits = add8 b.resubmits 1; successful = 0; failed = 0; fate = at_work })
        refl refl n

  settle-Inv :
      (accepts : Text → Bool) (status : ChildIoStatus) (b : NexusBio)
      → Inv b
      → b.fate ≡ at_work
      → Inv (settle has_log accepts status b)
  unfolding settle resubmit fail
  settle-Inv accepts status b i w = elim (Bool-cases (ltb 0 b.in_flight)) [
    | inl k ↦ rw k i
    | inr k ↦ elim (Bool-cases (b.failed == 0)) [
      | inl f ↦ rw k (rw f (completed-Inv b i w (ground arith) (ground arith)))
      | inr f ↦ rw k (
          rw f (
            if_both Inv (ltb 0 b.successful) (resubmit-Inv accepts b i.few) (
              over-Inv (fail (record b { channel = record b.channel { last_error = status } })) refl
                i.few)))
    ]
  ]

  pub counted_fate :
      (d : Text) (status : ChildIoStatus) (b : NexusBio)
      → (counted has_log d status b).fate ≡ b.fate
  unfolding counted
  counted_fate d success b = refl
  counted_fate d invalid_opcode b = refl
  counted_fate d reservation_conflict b = refl
  counted_fate d ChildIoStatus.no_space b = refl
  counted_fate d other_error b = refl

  complete-Inv :
      (accepts : Text → Bool) (d : Text) (status : ChildIoStatus) (b : NexusBio)
      → Inv b
      → b.fate ≡ at_work
      → mem d b.pending ≡ true
      → Inv (complete has_log accepts d status b)
  unfolding complete
  complete-Inv accepts d status b i w m =
      settle-Inv accepts status _ (counted-Inv d status b i w m) (counted_fate d status b ∙ w)

  run_event-Inv : (e : Event) (b : NexusBio) → Inv b → Inv (run_event has_log e b)
  unfolding run_event resubmit_frozen abort_frozen fail
  run_event-Inv (completes accepts d status) b i =
      elim (Bool-cases (is_at_work b.fate && mem d b.pending)) [
        | inl k ↦
            rw k (complete-Inv accepts d status b i (work_is b.fate (ground arith)) (ground arith))
        | inr k ↦ rw k i
      ]
  run_event-Inv freezes b i = record {
    counts = i.counts;
    waits = i.waits;
    few = i.few;
    bounded = i.bounded;
    idle = i.idle;
    done = i.done;
  }
  run_event-Inv aborts b i =
      if_both Inv (is_frozen_io b.fate) (over-Inv (record b { fate = failed_io }) refl i.few) i
  run_event-Inv (thaws accepts) b i = elim (Bool-cases (is_frozen_io b.fate)) [
    | inl k ↦ rw k (
        submit_request-Inv accepts
          (record b { fate = at_work; channel = record b.channel { is_frozen = false } }) refl
          (i.idle (frozen_is b.fate k)) i.few)
    | inr k ↦ rw k i
  ]

  run-Inv : (es : List Event) (b : NexusBio) → Inv b → Inv (run has_log es b)
  unfolding run
  run-Inv [] b i = i
  run-Inv (e ∷ es) b i = run-Inv es _ (run_event-Inv e b i)

  -- With at most 255 writers, an I/O that is completed well has been written by every writer of its last submission.
  pub completed-Written :
      (accepts : Text → Bool) (ch : NexusChannel) (es : List Event)
      → length ch.writers < 256
      → let b = run has_log es (submit_request has_log accepts (new ch)) in
        b.fate ≡ completed → (d : Text) → mem d b.attempted ≡ true → mem d b.written ≡ true
  unfolding new
  completed-Written accepts ch es n =
      (run-Inv es _ (submit_request-Inv accepts (new ch) refl refl n)).done
