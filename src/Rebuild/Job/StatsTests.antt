-- ===== src/Rebuild/Job/StatsTests.antt =====
-- A full rebuild of eight blocks with two tasks in flight, its statistics watched.
use mayastor.Common.{◌≡◌, refl, true, some, none, [], ◌∷◌, arith, inl}
use mayastor.Rebuild.State.{running}
use mayastor.Rebuild.Descriptor.{RebuildDescriptor, ignore, normal}
use mayastor.Rebuild.Walk.{FullRebuild}
use mayastor.Rebuild.Tasks.{TaskResult}
use mayastor.Rebuild.Job.{managing, System, lands}
use mayastor.Rebuild.Job.Invariant.{Inv}
use mayastor.Rebuild.Job.Ends.{IsPossible}
use mayastor.Rebuild.Job.Full.{IsSteady}
use mayastor.Rebuild.Job.Stats.{Given, IsMeasured, watched_step}
use mayastor.Rebuild.Job.Given.{watched_step-Inv}
use mayastor.Rebuild.Job.Measured.{IsAt, full_from, full_measures}

abbrev whole : RebuildDescriptor
whole = record {
  block_size = 512;
  range = record { start = 0; end = 8 };
  verify_mode = ignore;
  read_opts = normal;
  segment_size_blks = 2;
}

abbrev at_third : FullRebuild
at_third = record {
  walk = record { iter = record { at = 6; end = 8; step = 2 }; peek = some 4 };
  desc = whole;
}

at_third-IsSteady : IsSteady at_third
at_third-IsSteady = record { strides = omega arith; fetched = λ e. cc }

at_third-IsAt : IsAt whole 2 at_third
at_third-IsAt = record {
  step_is = refl;
  end_is = refl;
  desc_is = refl;
  stands = (omega arith, refl, refl);
  short = omega arith;
}

abbrev begun : System (full_from whole)
unfolding full_from
begun = record {
  job = record {
    states = record { current = running; pending = none; error = none; final_stats = none };
    walk = (2, at_third, at_third-IsSteady, at_third-IsAt);
    tasks = record {
      active = 2;
      total = 2;
      segments_done = 0;
      segments_transferred = 0;
      flight = (0, 0) ∷ (1, 2) ∷ [];
    };
    mode = managing;
    notified = running ∷ [];
  };
  inbox = 0;
}

abbrev landed : TaskResult
landed = record { id = 0; blk = 0; error = none; is_transferred = true }

begun-Inv : Inv (full_from whole) begun.job
unfolding full_from
begun-Inv = record {
  consistent = tt;
  counted = record {
    exact = refl;
    capped = omega arith;
    staffed = omega arith;
    fits = omega arith;
  };
  moded = (omega arith, refl);
  not_completing = λ e. absurd (ground arith);
}

begun-Given : Given (full_from whole) (full_measures whole 0) begun.job
unfolding full_from full_measures
begun-Given = record { done = omega arith }

whole-IsMeasured : IsMeasured (full_from whole) (full_measures whole 0)
unfolding full_from full_measures
whole-IsMeasured = record { blocks = omega arith; percents = omega arith; segments = omega arith }

lands_first : IsPossible (full_from whole) begun (lands landed)
unfolding begun
lands_first = inl (refl, refl)

watched_step-Inv_example :
    (t : System (full_from whole)) × (watched_step
        (full_from whole)
        (full_measures whole 0)
        begun
        (lands landed)
      ≡ some t)
    × Inv (full_from whole) t.job
    × Given (full_from whole) (full_measures whole 0) t.job
watched_step-Inv_example =
    watched_step-Inv (full_from whole) (full_measures whole 0) begun (lands landed) whole-IsMeasured
      begun-Inv begun-Given lands_first
