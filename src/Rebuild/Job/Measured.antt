-- ===== src/Rebuild/Job/Measured.antt =====
-- The full rebuild as the measured walk of a job: rebuilders.rs, `FullRebuild`.
use mayastor.Common.{
  ℕ, ◌+◌, ◌-◌, ◌*◌, ◌≤◌, ◌<◌, ◌≡◌, refl, ◌∙◌, false, Option, none, some, ltb, arith, inl, inr,
  Bool-cases,
}
use mayastor.Rebuild.Descriptor.{RebuildDescriptor}
use mayastor.Rebuild.Walk.{FullRebuild, StepBy, step_next, peekable_next, next, blocks_remaining}
use mayastor.Rebuild.Job.{RangeRebuilder}
use mayastor.Rebuild.Job.Full.{IsSteady, next-IsSteady, next_over, next_left, over_left, left}
use mayastor.Rebuild.Job.Stats.{Measures}

-- Where the walk stands when it has given out k segments: the next one is looked at, or it is over.
abbrev Stands : RebuildDescriptor → ℕ → ℕ → Option ℕ → Type 0
Stands d k at none = (d.range.end ≤ at) × (at ≡ d.range.start + k * d.segment_size_blks)
Stands d k at (some blk) =
    (blk < d.range.end)
    × (blk ≡ d.range.start + k * d.segment_size_blks)
    × (at ≡ blk + d.segment_size_blks)

pub record IsAt (d : RebuildDescriptor) (k : ℕ) (r : FullRebuild) : Type 0 where
  pub step_is : r.walk.iter.step ≡ d.segment_size_blks
  pub end_is : r.walk.iter.end ≡ d.range.end
  pub desc_is : r.desc.range.end ≡ d.range.end
  pub stands : Stands d k r.walk.iter.at r.walk.peek
  pub short : k * d.segment_size_blks < (d.range.end - d.range.start) + d.segment_size_blks

unfoldable pub count_up : ℕ → Option ℕ → ℕ
count_up k none = k
count_up k (some blk) = k + 1

-- The item that is fetched once the one at k is given out.
fetched :
    (d : RebuildDescriptor) (it : StepBy) (k : ℕ)
    → it.step ≡ d.segment_size_blks
    → it.end ≡ d.range.end
    → it.at ≡ d.range.start + k * d.segment_size_blks
    → Stands d k (step_next it).0.at (step_next it).1
unfolding step_next
fetched d it k s n a = elim (Bool-cases (ltb it.at it.end)) [
  | inl h ↦ rw h (ground (arith, h, n), a, rw s refl)
  | inr h ↦ rw h (ground (arith, h, n), a)
]

fetched_over :
    (d : RebuildDescriptor) (it : StepBy)
    → it.end ≡ d.range.end
    → d.range.end ≤ it.at
    → step_next it ≡ (it, none)
unfolding step_next
fetched_over d it n h = let z : ltb it.at it.end ≡ false = ground (arith, n, h) in rw z refl

step_end : (it : StepBy) → (step_next it).0.end ≡ it.end
unfolding step_next
step_end it = ground arith

step_step : (it : StepBy) → (step_next it).0.step ≡ it.step
unfolding step_next
step_step it = ground arith

after_item :
    (d : RebuildDescriptor) (k : ℕ) (it : StepBy) (p : Option ℕ)
    → it.step ≡ d.segment_size_blks
    → it.end ≡ d.range.end
    → Stands d k it.at p
    → k * d.segment_size_blks < (d.range.end - d.range.start) + d.segment_size_blks
    → Stands d (count_up k p) (step_next it).0.at (step_next it).1
      × (count_up k p * d.segment_size_blks < (d.range.end - d.range.start) + d.segment_size_blks)
unfolding count_up
after_item d k it none s n (h, a) l = rw (fetched_over d it n h) ((h, a), l)
after_item d k it (some blk) s n (h, a, b) l =
    (fetched d it (k + 1) s n (omega (arith, a, b)), omega (arith, h, a))

pub next-IsAt :
    (d : RebuildDescriptor) (k : ℕ) (r : FullRebuild)
    → IsAt d k r
    → IsAt d (count_up k (next r).1) (next r).0
unfolding next peekable_next
next-IsAt d k r i =
    let (s, l) = after_item d k r.walk.iter r.walk.peek i.step_is i.end_is i.stands i.short in
    record {
      step_is = step_step r.walk.iter ∙ i.step_is;
      end_is = step_end r.walk.iter ∙ i.end_is;
      desc_is = i.desc_is;
      stands = s;
      short = l;
    }

pub counts : (k : ℕ) (o : Option ℕ) (blk : ℕ) → o ≡ some blk → count_up k o ≡ k + 1
unfolding count_up
counts k none blk e = cc
counts k (some b) blk e = refl

pub count_grows : (k : ℕ) (o : Option ℕ) → k ≤ count_up k o
unfolding count_up
count_grows k none = omega arith
count_grows k (some b) = omega arith

nothing_left :
    (d : RebuildDescriptor) (k at : ℕ) (p : Option ℕ)
    → Stands d k at p
    → d.range.end - d.range.start ≤ k * d.segment_size_blks
    → p ≡ none
nothing_left d k at none s h = refl
nothing_left d k at (some blk) (l, e, a) h = absurd (omega (arith, l, e, h))

pub remaining_over :
    (d : RebuildDescriptor) (k : ℕ) (r : FullRebuild)
    → IsAt d k r
    → d.range.end - d.range.start ≤ k * d.segment_size_blks
    → blocks_remaining r ≡ 0
unfolding blocks_remaining
remaining_over d k r i h =
    let e = nothing_left d k r.walk.iter.at r.walk.peek i.stands h in rw (e, blocks_remaining) refl

module _ (d : RebuildDescriptor) where
  -- The walk of a full rebuild, with the segments that it has given out.
  unfoldable pub full_from : RangeRebuilder
  full_from = record {
    Walk = (k : ℕ) × (r : FullRebuild) × IsSteady r × IsAt d k r;
    next = λ w. (
      (count_up w.0 (next w.1).1, (next w.1).0, next-IsSteady w.1 w.2, next-IsAt d w.0 w.1 w.3),
      (next w.1).1,
    );
    size = λ w. left w.1;
    next_over = λ w e. next_over w.1 w.2 e;
    next_size = λ w blk e. next_left w.1 blk w.2 e;
    over_size = λ w e. over_left w.1 w.2 e;
  }

  unfoldable pub full_measures : ℕ → Measures full_from
  unfolding full_from
  full_measures start_time = record {
    blocks_total = d.range.end - d.range.start;
    segment_size_blks = d.segment_size_blks;
    block_size = d.block_size;
    start_time = start_time;
    is_partial = false;
    blocks_remaining = λ w. blocks_remaining w.1;
    given = λ w. w.0;
    given_next = λ w blk e. counts w.0 (next w.1).1 blk e;
    given_over = λ w e. count_grows w.0 (next w.1).1;
    given_all = λ w h. remaining_over d w.0 w.1 w.3 h;
    given_fits = λ w. w.3.short;
  }
