-- ===== src/Rebuild/Job/Stopping.antt =====
-- A job with a stop or a failure pending, on its way to its end: rebuild_job_backend.rs.
use mayastor.Common.{
  ℕ, zero, suc, ◌<◌, ◌≡◌, refl, ap, sym, ◌∙◌, Bool, true, false, ◌||◌, Option, none, some, List, [],
  ◌∷◌, arith, ◌⊎◌, inl, inr, some_inj,
}
use mayastor.Common.Panic.{◌>>=◌}
use mayastor.Rebuild.State.{RebuildState, RebuildError, running, stopped, failed}
use mayastor.Rebuild.Tasks.{InFlight}
use mayastor.Rebuild.Job.{
  RangeRebuilder, Job, Mode, waiting, managing, draining, ended, System, Event, client_calls,
  forces_stop, forces_fail, asks_stats, receives, lands, step, on_message, message_at, received,
  with_job,
}
use mayastor.Rebuild.Job.Invariant.{Inv, Moded}
use mayastor.Rebuild.Job.Landing.{on_result-Inv}
use mayastor.Rebuild.Job.Draining.{Winds, target, on_result-Winds}

-- The results among events.
unfoldable pub landings : List Event → ℕ
landings [] = 0
landings (lands r ∷ es) = suc (landings es)
landings (_ ∷ es) = landings es

abbrev is_error : Option RebuildError → Bool
is_error none = false
is_error (some e) = true

unfoldable pub any_error : List Event → Bool
any_error [] = false
any_error (lands r ∷ es) = is_error r.error || any_error es
any_error (_ ∷ es) = any_error es

or_turn : (a b c : Bool) → (a || b || c) ≡ (b || (a || c))
or_turn true true c = refl
or_turn true false c = refl
or_turn false b c = refl

or_more : (a b : Bool) → a ≡ true → (a || b) ≡ true
or_more true b h = refl
or_more false b h = cc

module _ (R : RangeRebuilder) where
  -- Results of tasks in flight, receipts of messages and requests for statistics, one after another.
  unfoldable pub ArePossible : System R → List Event → Type 0
  ArePossible s [] = Unit
  ArePossible s (lands r ∷ es) =
      InFlight r.id r.blk s.job.tasks.flight
      × ((t : System R) → step R s (lands r) ≡ some t → ArePossible t es)
  ArePossible s (receives ∷ es) = (t : System R) → step R s receives ≡ some t → ArePossible t es
  ArePossible s (asks_stats ∷ es) = (t : System R) → step R s asks_stats ≡ some t → ArePossible t es
  ArePossible s (client_calls c ∷ es) = ⊥
  ArePossible s (forces_stop ∷ es) = ⊥
  ArePossible s (forces_fail ∷ es) = ⊥

  unfoldable pub steps : System R → List Event → Option (System R)
  steps s [] = some s
  steps s (e ∷ es) = step R s e >>= λ t. steps t es

  -- A job that has ended hears nothing.
  received_over :
      (s : System R) (n : ℕ)
      → s.job.mode ≡ ended
      → (t : System R) × (received R s n ≡ some t) × (t.job ≡ s.job)
  unfolding received with_job on_message message_at
  received_over s zero m = (s, refl, refl)
  received_over s (suc n) m = (record { job = s.job; inbox = n }, rw (m, message_at) refl, refl)

  -- A message changes neither the states nor the tasks of a job that runs.
  message_running :
      (m : Mode) (j : Job R)
      → Inv R j
      → Moded R m j
      → m ≡ j.mode
      → j.states.current ≡ running
      → (k : Job R) × (message_at R m j ≡ some k)
        × (k.states ≡ j.states)
        × (k.tasks ≡ j.tasks)
        × Inv R k
  unfolding message_at
  message_running waiting j i d e r = absurd (ground (arith, d, r))
  message_running ended j i d e r = absurd (ground (arith, d, r))
  message_running managing j i d e r = (j, refl, refl, refl, i)
  message_running draining j i d e r = (
    record j { mode = managing },
    refl,
    refl,
    refl,
    record {
      consistent = i.consistent;
      counted = i.counted;
      moded = d;
      not_completing = i.not_completing;
    },
  )

  received-running :
      (s : System R) (n : ℕ)
      → Inv R s.job
      → s.job.states.current ≡ running
      → (t : System R) × (received R s n ≡ some t)
        × (t.job.states ≡ s.job.states)
        × (t.job.tasks ≡ s.job.tasks)
        × Inv R t.job
  unfolding received with_job on_message
  received-running s zero i r = (s, refl, refl, refl, i)
  received-running s (suc n) i r =
      let (k, e, h, g, v) = message_running s.job.mode s.job i i.moded refl r in
      (record { job = k; inbox = n }, rw (e, with_job) refl, h, g, v)

  running_busy :
      (m : Mode) (j : Job R) → Moded R m j → j.states.current ≡ running → 0 < j.tasks.active
  running_busy waiting j d r = absurd (ground (arith, d, r))
  running_busy ended j d r = absurd (ground (arith, d, r))
  running_busy managing j d r = d.0
  running_busy draining j d r = d.0

  steps_over :
      (es : List Event) (s : System R)
      → s.job.mode ≡ ended
      → landings es ≡ 0
      → ArePossible s es
      → (u : System R) × (steps s es ≡ some u) × (u.job ≡ s.job)
  unfolding steps step landings ArePossible
  steps_over [] s m n q = (s, refl, refl)
  steps_over (lands r ∷ es) s m n q = absurd (omega arith)
  steps_over (receives ∷ es) s m n q =
      let (t, e, h) = received_over s s.inbox m in
      let (u, f, g) = steps_over es t (ap (λ j. j.mode) h ∙ m) n (q t e) in (u, rw e f, g ∙ h)
  steps_over (asks_stats ∷ es) s m n q =
      steps_over es (record s { inbox = suc s.inbox }) m n (q _ refl)
  steps_over (client_calls c ∷ es) s m n q = absurd q
  steps_over (forces_stop ∷ es) s m n q = absurd q
  steps_over (forces_fail ∷ es) s m n q = absurd q

  -- A job is at its end, stopped or, if `bad`, failed.
  abbrev EndsBy : Bool → Job R → Type 0
  EndsBy bad j =
      (j.mode ≡ ended)
      × ((j.states.current ≡ stopped) ⊎ ((j.states.current ≡ failed) × (bad ≡ true)))

  abbrev HeadsFor : Bool → RebuildState → Type 0
  HeadsFor bad p = (p ≡ stopped) ⊎ ((p ≡ failed) × (bad ≡ true))

  kept :
      (o : Option RebuildError) (p : RebuildState) (bad : Bool)
      → HeadsFor bad p
      → HeadsFor (is_error o || bad) p
  kept none p bad h = h
  kept (some e) p bad (inl h) = inl h
  kept (some e) p bad (inr h) = inr (h.0, refl)

  target-HeadsFor :
      (m : Mode) (o : Option RebuildError) (p : RebuildState) (bad : Bool)
      → HeadsFor bad p
      → HeadsFor (is_error o || bad) (target R m o p)
  target-HeadsFor managing none p bad h = h
  target-HeadsFor managing (some e) p bad h = inr (refl, refl)
  target-HeadsFor waiting o p bad h = kept o p bad h
  target-HeadsFor draining o p bad h = kept o p bad h
  target-HeadsFor ended o p bad h = kept o p bad h

  -- The job came to rest with the result.
  rested-EndsBy :
      (k : Job R) (p : RebuildState) (bad : Bool)
      → Inv R k
      → HeadsFor bad p
      → k.states.current ≡ p
      → (k.mode ≡ ended) ⊎ (k.mode ≡ waiting)
      → EndsBy bad k
  rested-EndsBy k p bad i h c (inl m) = (m, rw (← c) at h)
  rested-EndsBy k p bad i h c (inr m) =
      let d : Moded R waiting k = rw m at i.moded in absurd (ground (arith, d, c, h))

  EndsBy-later : (j l : Job R) (a b c : Bool) → l ≡ j → EndsBy (a || b) j → EndsBy (b || (a || c)) l
  EndsBy-later j l a b c e (m, inl h) =
      (ap (λ x. x.mode) e ∙ m, inl (ap (λ x. x.states.current) e ∙ h))
  EndsBy-later j l a b c e (m, inr (h, k)) = (
    ap (λ x. x.mode) e ∙ m,
    inr (ap (λ x. x.states.current) e ∙ h, rw (← or_turn a b c) (or_more (a || b) c k)),
  )

  pub steps_stop :
      (es : List Event) (s : System R) (p : RebuildState) (bad : Bool)
      → Inv R s.job
      → Winds s.job.states p
      → HeadsFor bad p
      → landings es ≡ s.job.tasks.active
      → ArePossible s es
      → (u : System R) × (steps s es ≡ some u) × EndsBy (bad || any_error es) u.job
  unfolding steps step landings any_error ArePossible with_job
  steps_stop [] s p bad i w h n q =
      let busy = running_busy s.job.mode s.job i.moded w.runs in absurd (omega (arith, n, busy))
  steps_stop (receives ∷ es) s p bad i w h n q =
      let (t, e, f, g, v) = received-running s s.inbox i w.runs in
      let (u, k, x) = steps_stop es t p bad v (rw f w) h (n ∙ ap (λ a. a.active) (sym g)) (q t e) in
      (u, rw e k, x)
  steps_stop (asks_stats ∷ es) s p bad i w h n q =
      steps_stop es (record s { inbox = suc s.inbox }) p bad i w h n (q _ refl)
  steps_stop (client_calls c ∷ es) s p bad i w h n q = absurd q
  steps_stop (forces_stop ∷ es) s p bad i w h n q = absurd q
  steps_stop (forces_fail ∷ es) s p bad i w h n q = absurd q
  steps_stop (lands r ∷ es) s p bad i w h n q =
      let (k, f, a, rests, x) = on_result-Winds R s.job r p i q.0 w in
      let (k', f', v') = on_result-Inv R s.job r i q.0 in
      let v : Inv R k = rw (some_inj (sym f' ∙ f)) at v' in
      let t : System R = record { job = k; inbox = s.inbox } in
      let e : step R s (lands r) ≡ some t = rw (f, with_job) refl in
      let h' = target-HeadsFor s.job.mode r.error p bad h in
      elim rests [
        | inl (m, w') ↦
            let (u, g, y) =
              steps_stop es t (target R s.job.mode r.error p) (is_error r.error || bad) v w' h'
                (omega (arith, n, a)) (q.1 t e) in
            (u, rw e g, rw (or_turn (is_error r.error) bad (any_error es)) at y)
        | inr (z, c, m) ↦
            let y =
              rested-EndsBy k (target R s.job.mode r.error p) (is_error r.error || bad) v h' c m in
            let (u, g, y') = steps_over es t y.0 (omega (arith, n, a, z)) (q.1 t e) in
            (u, rw e g, EndsBy-later k u.job (is_error r.error) bad (any_error es) y' y)
      ]
