-- ===== src/Rebuild/Job/Wakeups.antt =====
-- A job that waits is never left with a request and no message.
use mayastor.Common.{
  ℕ, zero, suc, ◌<◌, ◌≡◌, ◌≢◌, refl, sym, ap, ◌∙◌, Bool, true, false, Option, none, some, arith,
  ◌⊎◌, inl, inr, Option-cases, Bool-cases, ◌==◌,
}
use mayastor.Rebuild.State.{
  RebuildStates, RebuildOperation, init, paused, stop, fail, exec_op, is_done, is_running, default,
  reconcile,
}
use mayastor.Rebuild.Tasks.{TaskResult, InFlight}
use mayastor.Rebuild.Job.{
  RangeRebuilder, Job, Mode, waiting, managing, draining, ended, System, Event, client_calls,
  forces_stop, forces_fail, asks_stats, receives, lands, step, frontend_op, on_message, on_result,
  message_at, managed, result_at, goes_on, received, start_all_tasks, reconcile_job, settle,
  with_job, run_head, op_of, wake,
}
use mayastor.Rebuild.Job.Invariant.{Counted, Moded, Inv}
use mayastor.Rebuild.Job.Landing.{in_flight}
use mayastor.Rebuild.Job.Ends.{IsPossible, step-Inv}
use mayastor.Common.{some_inj}
use mayastor.Rebuild.Job.Runs.{Reaches, rest, then, IsFresh, Fresh-Inv}

reconcile_takes : (s : RebuildStates) → (reconcile s).0.pending ≡ none
unfolding reconcile
reconcile_takes s = ground arith

wakes_at :
    (s : RebuildStates) (op : RebuildOperation) (o : Bool) (n : ℕ)
    → is_done s.current ≡ false
    → is_running s.current ≡ false
    → (s.pending ≡ none) ⊎ (0 < n) ⊎ ((s.current ≡ init) × (s.pending ≡ some paused))
    → ((exec_op s op o).0.pending ≡ none)
      ⊎ (0 < wake (exec_op s op o).1 n)
      ⊎ (((exec_op s op o).0.current ≡ init) × ((exec_op s op o).0.pending ≡ some paused))
unfolding exec_op wake
wakes_at s op o n d r h = ground arith

module _ (R : RangeRebuilder) where
  -- A job whose backend waits for a message has nothing pending, or a message is under way. A pause
  -- that came before the start is the exception.
  abbrev pub Awake : System R → Type 0
  Awake s =
      s.job.mode ≡ waiting
      → (s.job.states.pending ≡ none)
        ⊎ (0 < s.inbox)
        ⊎ ((s.job.states.current ≡ init) × (s.job.states.pending ≡ some paused))

  run_head_awake :
      (fuel : ℕ) (j : Job R) {k : Job R}
      → run_head R fuel j ≡ some k
      → k.mode ≡ waiting
      → k.states.pending ≡ none
  unfolding run_head
  run_head_awake zero j e w = absurd (ground arith)
  run_head_awake (suc fuel) j {k} e w =
      elim (Bool-cases (is_done (reconcile_job R j).states.current)) [
        | inl d ↦
            let v : ended ≡ waiting = ap (λ x. x.mode) (some_inj (rw d at e)) ∙ w in
            absurd (ground arith)
        | inr d ↦ elim (Bool-cases (is_running (reconcile_job R j).states.current)) [
          | inr r ↦
              rw (sym (some_inj (rw (d, r) at e)))
                (unfold reconcile_job in reconcile_takes j.states)
          | inl r ↦ elim (Option-cases (start_all_tasks R (reconcile_job R j))) [
            | inl n ↦ let v : none ≡ some k = rw (d, r, n) at e in absurd (ground arith)
            | inr (i, q) ↦ elim (Bool-cases (i.tasks.active == 0)) [
              | inl z ↦ run_head_awake fuel i (rw (d, r, q, z) at e) w
              | inr z ↦
                  let v : managing ≡ waiting =
                    ap (λ x. x.mode) (some_inj (rw (d, r, q, z) at e)) ∙ w in
                  absurd (ground arith)
            ]
          ]
        ]
      ]

  op-Awake :
      (s : System R) (op : RebuildOperation) (o : Bool)
      → Inv R s.job
      → Awake s
      → Awake (frontend_op R s op o)
  unfolding frontend_op
  op-Awake s op o i a w =
      let d = rw w at i.moded in wakes_at s.job.states op o s.inbox d.1 d.2 (a w)

  settle_awake :
      (m : Mode) (j : Job R) {k : Job R}
      → m ≢ waiting
      → settle R m j ≡ some k
      → k.mode ≡ waiting
      → k.states.pending ≡ none
  unfolding settle
  settle_awake m j n e w = elim (Bool-cases (j.tasks.active == 0)) [
    | inl z ↦ run_head_awake 2 j (rw z at e) w
    | inr z ↦ absurd (n (ap (λ x. x.mode) (some_inj (rw z at e)) ∙ w))
  ]

  result_awake :
      (m : Mode) (j : Job R) (r : TaskResult) {k : Job R}
      → m ≢ waiting
      → m ≢ ended
      → result_at R m j r ≡ some k
      → k.mode ≡ waiting
      → k.states.pending ≡ none
  unfolding result_at managed
  result_awake waiting j r n n' e w = absurd (n refl)
  result_awake ended j r n n' e w = absurd (n' refl)
  result_awake draining j r n n' e w = settle_awake draining _ n e w
  result_awake managing j r n n' e w = elim (Option-cases r.error) [
    | inr (x, q) ↦ settle_awake draining _ (λ d. absurd (ground arith)) (rw q at e) w
    | inl q ↦ elim (Bool-cases (goes_on j.states.pending)) [
      | inl g ↦ settle_awake managing _ n (rw (q, g) at e) w
      | inr g ↦ settle_awake draining _ (λ d. absurd (ground arith)) (rw (q, g) at e) w
    ]
  ]

  message_awake :
      (m : Mode) (j : Job R) {k : Job R}
      → m ≡ j.mode
      → message_at R m j ≡ some k
      → k.mode ≡ waiting
      → k.states.pending ≡ none
  unfolding message_at
  message_awake waiting j l e w = run_head_awake 2 j e w
  message_awake managing j l e w =
      let v : managing ≡ waiting = l ∙ ap (λ x. x.mode) (some_inj e) ∙ w in absurd (ground arith)
  message_awake draining j l e w =
      let v : managing ≡ waiting = ap (λ x. x.mode) (some_inj e) ∙ w in absurd (ground arith)
  message_awake ended j l e w =
      let v : ended ≡ waiting = l ∙ ap (λ x. x.mode) (some_inj e) ∙ w in absurd (ground arith)

  moved : {s t : System R} → some s ≡ some t → Awake s → Awake t
  moved q a = rw (some_inj q) at a

  joined :
      (n : ℕ) (o : Option (Job R)) {t : System R}
      → with_job R n o ≡ some t
      → (k : Job R) × (o ≡ some k) × (t ≡ record { job = k; inbox = n })
  unfolding with_job
  joined n none q = absurd (ground arith)
  joined n (some k) q = (k, refl, sym (some_inj q))

  received-Awake :
      (s : System R) (n : ℕ) {t : System R}
      → Awake s
      → n ≡ s.inbox
      → received R s n ≡ some t
      → Awake t
  unfolding received on_message
  received-Awake s zero a l q w = moved q a w
  received-Awake s (suc n) a l q w =
      let (k, h, f) = joined n (message_at R s.job.mode s.job) q in
      rw f (inl (message_awake s.job.mode s.job refl h (rw f at w)))

  landed-Awake :
      (m : Mode) (s : System R) (r : TaskResult) {k : Job R} {t : System R}
      → Moded R m s.job
      → Counted R s.job.tasks
      → InFlight r.id r.blk s.job.tasks.flight
      → result_at R m s.job r ≡ some k
      → t ≡ record { job = k; inbox = s.inbox }
      → Awake t
  landed-Awake waiting s r d c p h f w =
      absurd (omega (arith, in_flight r s.job.tasks.flight p, c.exact, d.0))
  landed-Awake ended s r d c p h f w =
      absurd (omega (arith, in_flight r s.job.tasks.flight p, c.exact, d.0))
  landed-Awake managing s r d c p h f w = rw f (
      inl (
        result_awake managing s.job r (λ x. absurd (ground arith)) (λ x. absurd (ground arith)) h
          (rw f at w)))
  landed-Awake draining s r d c p h f w = rw f (
      inl (
        result_awake draining s.job r (λ x. absurd (ground arith)) (λ x. absurd (ground arith)) h
          (rw f at w)))

  step-Awake :
      (s : System R) (e : Event) {t : System R}
      → Inv R s.job
      → IsPossible R s e
      → Awake s
      → step R s e ≡ some t
      → Awake t
  unfolding step
  step-Awake s (client_calls c) i p a q w = moved q (op-Awake s (op_of c) false i a) w
  step-Awake s forces_stop i p a q w = moved q (op-Awake s stop true i a) w
  step-Awake s forces_fail i p a q w = moved q (op-Awake s fail true i a) w
  step-Awake s asks_stats i p a q w = rw (sym (some_inj q)) (inr (inl (omega arith)))
  step-Awake s receives i p a q w = received-Awake s s.inbox a refl q w
  step-Awake s (lands r) i p a q w =
      let (k, h, f) = joined s.inbox (on_result R s.job r) q in
      landed-Awake s.job.mode s r {k = k} i.moded i.counted p (unfold on_result in h) f w

  run-Awake_from : {s t : System R} → Reaches R s t → Inv R s.job → Awake s → Awake t
  run-Awake_from rest i a = a
  run-Awake_from {s} (then e p q r) i a =
      let (t, h, k) = step-Inv R s e i p in
      run-Awake_from r (rw (some_inj (sym h ∙ q)) at k) (step-Awake s e i p a q)

  -- A job whose backend waits for a message has nothing pending, or a message is under way to it, or
  -- it was paused before its start: after any events from its creation on.
  pub run-Awake : {s t : System R} → IsFresh R s → Reaches R s t → Awake t
  unfolding default
  run-Awake {s} f r = run-Awake_from r (Fresh-Inv R s f) (λ w. inl (rw f.created refl))
