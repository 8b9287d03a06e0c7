-- ===== src/Rebuild/Job/Runs.antt =====
-- Runs of a job from its creation on, and what a job that completed has done.
use mayastor.Common.{◌≡◌, refl, sym, ◌∙◌, none, some, [], arith}
use mayastor.Common.{some_inj}
use mayastor.Rebuild.State.{completed, default}
use mayastor.Rebuild.State.Edges.{default-IsConsistent}
use mayastor.Rebuild.Job.{
  RangeRebuilder, Job, Mode, waiting, managing, draining, ended, System, Event, step,
}
use mayastor.Rebuild.Job.Invariant.{Counted, IsOver, Moded, Inv}
use mayastor.Rebuild.Job.Ends.{IsPossible, step-Inv}

module _ (R : RangeRebuilder) where
  -- Events that follow one another.
  pub data Reaches : System R → System R → Type 0 where
    rest : {s : System R} → Reaches s s
    then :
        {s t u : System R} (e : Event)
        → IsPossible R s e
        → step R s e ≡ some t
        → Reaches t u
        → Reaches s u

  -- A job that was created and whose backend waits for its first message.
  pub record IsFresh (s : System R) : Type 0 where
    pub created : s.job.states ≡ default
    pub waits : s.job.mode ≡ waiting
    pub idle : (s.job.tasks.active ≡ 0) × (s.job.tasks.flight ≡ [])
    pub staffed : Counted R s.job.tasks
    pub unsent : s.inbox ≡ 0

  pub Fresh-Inv : (s : System R) → IsFresh s → Inv R s.job
  unfolding default
  Fresh-Inv s f = record {
    consistent = rw f.created default-IsConsistent;
    counted = f.staffed;
    moded = rw f.waits (f.idle.0, rw f.created refl, rw f.created refl);
    not_completing = rw f.created (λ p. absurd (ground arith));
  }

  run-Inv : {s t : System R} → Reaches s t → Inv R s.job → Inv R t.job
  run-Inv rest i = i
  run-Inv {s} (then e p q r) i =
      let (t, h, k) = step-Inv R s e i p in run-Inv r (rw (some_inj (sym h ∙ q)) at k)

  IsOver-at :
      (m : Mode) (j : Job R)
      → Moded R m j
      → j.states.current ≡ completed
      → IsOver R j.walk × (j.tasks.active ≡ 0) × (j.states.pending ≡ none)
  IsOver-at waiting j d c = absurd (ground (arith, c))
  IsOver-at managing j d c = absurd (ground (arith, c))
  IsOver-at draining j d c = absurd (ground (arith, c))
  IsOver-at ended j (a, d, p, w) c = (w c, a, p)

  -- A job that completes, after any events from its creation on, has nothing left to give out and
  -- no task in flight, and nothing is pending.
  pub completed-IsOver :
      {s t : System R}
      → IsFresh s
      → Reaches s t
      → t.job.states.current ≡ completed
      → IsOver R t.job.walk × (t.job.tasks.active ≡ 0) × (t.job.states.pending ≡ none)
  completed-IsOver {s} {t} f r c = IsOver-at t.job.mode t.job (run-Inv r (Fresh-Inv s f)).moded c
