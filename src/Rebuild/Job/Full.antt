-- ===== src/Rebuild/Job/Full.antt =====
-- The full rebuild as the walk of a job: `FullRebuild` implements `RangeRebuilder`.
use mayastor.Common.{ℕ, ◌+◌, ◌-◌, ◌≤◌, ◌<◌, ◌≡◌, Option, none, some, arith, Option-cases, inl, inr}
use mayastor.Rebuild.Walk.{
  FullRebuild, full_rebuild, StepBy, step_next, peekable, peekable_next, next, step_by,
}
use mayastor.Rebuild.Descriptor.{RebuildDescriptor}
use mayastor.Rebuild.Job.{RangeRebuilder}
use mayastor.Common.{some_inj}

-- A rebuild with nothing looked at has nothing to fetch.
pub record IsSteady (r : FullRebuild) : Type 0 where
  pub strides : 0 < r.walk.iter.step
  pub fetched : r.walk.peek ≡ none → r.walk.iter.end ≤ r.walk.iter.at

abbrev looked : Option ℕ → ℕ
looked none = 0
looked (some blk) = 1

abbrev pub left : FullRebuild → ℕ
left r = (r.walk.iter.end - r.walk.iter.at) + looked r.walk.peek

step_fetch : (it : StepBy) → (step_next it).1 ≡ none → (step_next it).0.end ≤ (step_next it).0.at
unfolding step_next
step_fetch it e = ground arith

step_strides : (it : StepBy) → (step_next it).0.step ≡ it.step
unfolding step_next
step_strides it = ground arith

pub next-IsSteady : (r : FullRebuild) → IsSteady r → IsSteady (next r).0
unfolding next peekable_next
next-IsSteady r s = record {
  strides = omega (arith, step_strides r.walk.iter, s.strides);
  fetched = λ e. step_fetch r.walk.iter e;
}

pub next_over : (r : FullRebuild) → IsSteady r → (next r).1 ≡ none → (next (next r).0).1 ≡ none
unfolding next peekable_next step_next
next_over r s e = ground (arith, s.fetched e)

pub next_left :
    (r : FullRebuild) (blk : ℕ) → IsSteady r → (next r).1 ≡ some blk → left (next r).0 < left r
unfolding next peekable_next step_next
next_left r blk s e = ground (arith, s.strides)

pub over_left : (r : FullRebuild) → IsSteady r → (next r).1 ≡ none → left (next r).0 ≤ left r
unfolding next peekable_next step_next
over_left r s e = ground (arith, s.fetched e)

-- A full rebuild implements the interface of the walks.
unfoldable pub full : RangeRebuilder
full = record {
  Walk = (r : FullRebuild) × IsSteady r;
  next = λ w. (((next w.0).0, next-IsSteady w.0 w.1), (next w.0).1);
  size = λ w. left w.0;
  next_over = λ w e. next_over w.0 w.1 e;
  next_size = λ w blk e. next_left w.0 blk w.1 e;
  over_size = λ w e. over_left w.0 w.1 e;
}

step_by_first :
    (d : RebuildDescriptor) {it : StepBy}
    → step_by d.range d.segment_size_blks ≡ some it
    → 0 < it.step
unfolding step_by
step_by_first d e = ground arith

peekable_fetched :
    (it : StepBy) → (peekable it).peek ≡ none → (peekable it).iter.end ≤ (peekable it).iter.at
unfolding peekable
peekable_fetched it e = step_fetch it e

peekable_strides : (it : StepBy) → (peekable it).iter.step ≡ it.step
unfolding peekable
peekable_strides it = step_strides it

IsSteady-at :
    (d : RebuildDescriptor) (it : StepBy)
    → 0 < it.step
    → IsSteady (record { walk = peekable it; desc = d })
IsSteady-at d it h = record {
  strides = omega (arith, peekable_strides it, h);
  fetched = λ e. peekable_fetched it e;
}

IsSteady-of : {r q : FullRebuild} → r ≡ q → IsSteady r → IsSteady q
IsSteady-of e s = rw e at s

-- A new rebuild is steady.
pub full_rebuild-IsSteady :
    (d : RebuildDescriptor) {r : FullRebuild} → full_rebuild d ≡ some r → IsSteady r
unfolding full_rebuild
full_rebuild-IsSteady d {r} e = elim (Option-cases (step_by d.range d.segment_size_blks)) [
  | inl n ↦ let v : none ≡ some r = rw (full_rebuild, n) at e in absurd (ground arith)
  | inr (it, n) ↦
      let v : some (record { walk = peekable it; desc = d }) ≡ some r = rw (full_rebuild, n) at e in
      IsSteady-of (some_inj v) (IsSteady-at d it (step_by_first d n))
]
