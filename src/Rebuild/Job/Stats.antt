-- ===== src/Rebuild/Job/Stats.antt =====
-- The statistics of a job: `stats` of io-engine/src/rebuild/rebuild_job_backend.rs, with its assertion.
-- The backend takes them when its state changes, when it has started all its tasks, when it is asked
-- for them, and when it is dropped. Between two awaits the pool and the walk that they are taken of are
-- those at the one await or at the other, so `watched_step` takes them before and after each event.
use mayastor.Common.{
  ℕ, ◌+◌, ◌*◌, ◌/◌, ◌≤◌, ◌<◌, ◌≡◌, refl, Bool, true, false, ◌||◌, Option, none, some, ltb, ◌==◌,
  if◌then◌else◌, min, arith, inl, inr, ◌⊎◌, Bool-cases,
}
use native.Mathlib.Nat.{div-lt_iff_lt-mul, mul-le-mul_right}
use mayastor.Common.Panic.{◌>>=◌}
use mayastor.Common.Words.{u64_mod, mul64, mul64_exact}
use mayastor.Rebuild.State.{RebuildStats}
use mayastor.Rebuild.Job.{RangeRebuilder, Job, System, Event, step}

-- What the backend tells of its descriptor and its walk, and how many blocks the walk has given out.
-- A walk that has given out as many segments as cover all the blocks has none remaining, and none
-- starts beyond them. The full walk is so (Job/Measured); a partial one counts its dirty blocks, which
-- its tasks in flight have yet to clean.
pub record Measures (R : RangeRebuilder) : Type 0 where
  pub blocks_total : ℕ
  pub segment_size_blks : ℕ
  pub block_size : ℕ
  pub start_time : ℕ
  pub is_partial : Bool
  pub blocks_remaining : R.Walk → ℕ
  pub given : R.Walk → ℕ
  pub given_next :
      (w : R.Walk) (blk : ℕ) → (R.next w).1 ≡ some blk → given (R.next w).0 ≡ given w + 1
  pub given_over : (w : R.Walk) → (R.next w).1 ≡ none → given w ≤ given (R.next w).0
  pub given_all : (w : R.Walk) → blocks_total ≤ given w * segment_size_blks → blocks_remaining w ≡ 0
  pub given_fits : (w : R.Walk) → given w * segment_size_blks < blocks_total + segment_size_blks

module _ (R : RangeRebuilder) (m : Measures R) where
  stats_of : Job R → ℕ → ℕ → RebuildStats
  stats_of j recovered progress = record {
    blocks_total = m.blocks_total;
    blocks_recovered = recovered;
    blocks_transferred =
        min (mul64 j.tasks.segments_transferred m.segment_size_blks) m.blocks_total;
    blocks_remaining = m.blocks_remaining j.walk;
    progress = progress;
    blocks_per_task = m.segment_size_blks;
    block_size = m.block_size;
    tasks_total = j.tasks.total;
    tasks_active = j.tasks.active;
    start_time = m.start_time;
    is_partial = m.is_partial;
    end_time = none;
  }

  unfoldable pub recovered_blks : Job R → ℕ
  recovered_blks j = min (mul64 j.tasks.segments_done m.segment_size_blks) m.blocks_total

  -- `none` is a panic: a division by zero, or the assertion.
  unfoldable pub stats : Job R → Option RebuildStats
  unfolding stats_of recovered_blks
  stats j =
      let progress = mul64 (recovered_blks j) 100 / m.blocks_total in
      if m.blocks_total == 0
      then none
      else if ltb progress 100 || m.blocks_remaining j.walk == 0
      then some (stats_of j (recovered_blks j) progress)
      else none

  -- A step of the job, with the statistics that are taken in it.
  unfoldable pub watched_step : System R → Event → Option (System R)
  watched_step s e = stats s.job >>= λ before. step R s e >>= λ t. stats t.job >>= λ after. some t

  -- The sizes are those of a device: they are small, and there are blocks.
  pub record IsMeasured : Type 0 where
    pub blocks : 0 < m.blocks_total
    pub percents : m.blocks_total * 100 < u64_mod
    pub segments : m.blocks_total + m.segment_size_blks < u64_mod

  -- No more segments are done or in flight than the walk has given out.
  pub record Given (j : Job R) : Type 0 where
    pub done : j.tasks.segments_done + j.tasks.active ≤ m.given j.walk

  percent : (n t : ℕ) → n < t → t * 100 < u64_mod → mul64 n 100 / t < 100
  percent n t h k =
      rw (mul64_exact n 100 (omega arith)) ((div-lt_iff_lt-mul (omega arith)).1 (omega arith))

  times_le : (a b c : ℕ) → a ≤ b → a * c ≤ b * c
  times_le a b c h = mul-le-mul_right c h

  recovered_part :
      (j : Job R)
      → IsMeasured
      → Given j
      → (m.blocks_remaining j.walk ≡ 0) ⊎ (recovered_blks j < m.blocks_total)
  unfolding recovered_blks
  recovered_part j k g =
      let l =
        times_le j.tasks.segments_done (m.given j.walk) m.segment_size_blks
          (omega (arith, g.done)) in
      let f = m.given_fits j.walk in
      let e =
        mul64_exact j.tasks.segments_done m.segment_size_blks (omega (arith, l, f, k.segments)) in
      elim (Bool-cases (ltb (j.tasks.segments_done * m.segment_size_blks) m.blocks_total)) [
        | inl h ↦ inr (ground (arith, e, h))
        | inr h ↦ inl (m.given_all j.walk (ground (arith, l, h)))
      ]

  assertion_holds :
      (j : Job R)
      → IsMeasured
      → Given j
      → (ltb (mul64 (recovered_blks j) 100 / m.blocks_total) 100 || m.blocks_remaining j.walk == 0)
        ≡ true
  assertion_holds j k g = elim (recovered_part j k g) [
    | inl z ↦ ground (arith, z)
    | inr l ↦ let p = percent (recovered_blks j) m.blocks_total l k.percents in ground (arith, p)
  ]

  -- The statistics of a job are taken without a panic.
  pub stats_lem : (j : Job R) → IsMeasured → Given j → (x : RebuildStats) × (stats j ≡ some x)
  unfolding stats
  stats_lem j k g =
      let z : (m.blocks_total == 0) ≡ false = ground (arith, k.blocks) in
      (
        stats_of j (recovered_blks j) (mul64 (recovered_blks j) 100 / m.blocks_total),
        rw (z, assertion_holds j k g) refl,
      )
