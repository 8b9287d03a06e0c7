-- ===== src/Core/Injection/Hits.antt =====
-- How often, and how long, an injection acts.
use mathlib.Core.Option
use mayastor.Common.{
  ℕ, suc, ◌+◌, ◌-◌, ◌<◌, List, [], ◌∷◌, true, false, ◌&&◌, Option, none, some, is_some, ltb, leb,
  if◌then◌else◌, ◌≡◌, refl, ap, ◌∙◌, arith, Bool-cases, inl, inr, ◌⊎◌,
}
use mayastor.Common.Words.{add64, u64_mod}
use mayastor.Core.Injection.{
  FaultIoStage, InjectIoCtx, FaultMethod, status, corrupt, InjectionState, Injection, tick, now,
  inject_data_errors, overwrite, method_inject, is_active, applies, inject, iovs_mut,
}

-- An I/O: when it comes, at which stage, and what it is.
abbrev pub Io : Type 0
Io = ℕ × FaultIoStage × InjectIoCtx

module _ {N : Type 0} {R : Type 0} where
  -- How many of the I/Os the injection applies to, and when the first of them came.
  abbrev pub count_applied : List Io → Injection N R → ℕ
  count_applied [] inj = 0
  count_applied ((at, stage, ctx) ∷ ios) inj =
      let rest = count_applied ios inj in if applies stage ctx inj then suc rest else rest

  abbrev pub first_applied : List Io → Injection N R → Option ℕ
  first_applied [] inj = none
  first_applied ((at, stage, ctx) ∷ ios) inj =
      let rest = first_applied ios inj in if applies stage ctx inj then some at else rest

module _ {R : Type 0} where
  -- When the clock of an injection started, and what it has counted.
  abbrev Counts : Option ℕ → ℕ → InjectionState R → Type 0
  Counts first n s = (s.started ≡ first) × (s.hits ≡ n)

  tick_first : (at : ℕ) (s : InjectionState R) → s.started ≡ none → Counts (some at) 1 (tick at s)
  unfolding tick
  tick_first at s h = (ground (arith, h), ground (arith, h))

  tick_next :
      (at t n : ℕ) (s : InjectionState R)
      → Counts (some t) n s
      → n + 1 < u64_mod
      → Counts (some t) (n + 1) (tick at s)
  unfolding tick add64
  tick_next at t n s (h, k) lt = (ground (arith, h), ground (arith, h, k, lt))

applies_state :
    {N R : Type 0} (stage : FaultIoStage) (ctx : InjectIoCtx) (inj : Injection N R)
    (s : InjectionState R)
    → applies stage ctx inj ≡ true
    → applies stage ctx (record inj { state = s }) ≡ true
unfolding applies
applies_state stage ctx inj s h = h

-- The state of an injection does not tell which I/Os it applies to.
count_applied_state :
    {N R : Type 0} (ios : List Io) (inj : Injection N R) (s : InjectionState R)
    → count_applied ios (record inj { state = s }) ≡ count_applied ios inj
unfolding applies
count_applied_state [] inj s = refl
count_applied_state ((at, stage, ctx) ∷ ios) inj s = rw (count_applied_state ios inj s) refl

overwrite_keeps :
    {R : Type 0} (next_u32 : R → R × ℕ) (iovs : Option (List (List ℕ))) (ctx : InjectIoCtx)
    (s : InjectionState R)
    → ((overwrite next_u32 iovs ctx s).0.started ≡ s.started)
      × ((overwrite next_u32 iovs ctx s).0.hits ≡ s.hits)
unfolding overwrite
overwrite_keeps next_u32 none ctx s = (refl, refl)
overwrite_keeps next_u32 (some iovs) ctx s = (refl, refl)

module _ {N : Type 0} {R : Type 0} (next_u32 : R → R × ℕ) where
  -- The I/Os, one after the other.
  unfoldable pub serve : List Io → Injection N R → Injection N R
  unfolding inject
  serve [] inj = inj
  serve ((at, stage, ctx) ∷ ios) inj = serve ios (inject next_u32 at at stage ctx inj).0

  method_keeps :
      (m : FaultMethod N) (ctx : InjectIoCtx) (s : InjectionState R)
      → ((method_inject next_u32 m ctx s).0.started ≡ s.started)
        × ((method_inject next_u32 m ctx s).0.hits ≡ s.hits)
  unfolding method_inject inject_data_errors
  method_keeps (status st) ctx s = (refl, refl)
  method_keeps corrupt ctx s = overwrite_keeps next_u32 (iovs_mut ctx) ctx s

  method_acts :
      (m : FaultMethod N) (ctx : InjectIoCtx) (s : InjectionState R)
      → is_some (method_inject next_u32 m ctx s).2 ≡ true
  unfolding method_inject
  method_acts (status st) ctx s = refl
  method_acts corrupt ctx s = refl

  -- An I/O that the injection does not apply to leaves it as it is.
  inject_other :
      (at : ℕ) (stage : FaultIoStage) (ctx : InjectIoCtx) (inj : Injection N R)
      → applies stage ctx inj ≡ false
      → inject next_u32 at at stage ctx inj ≡ (inj, ctx, none)
  unfolding inject
  inject_other at stage ctx inj h = rw h refl

  counted : ℕ → Injection N R → Injection N R
  counted at inj = record inj { state = tick at inj.state }

  -- One that it applies to is counted, and more than the state never changes.
  inject_counts :
      (at : ℕ) (stage : FaultIoStage) (ctx : InjectIoCtx) (inj : Injection N R)
      → applies stage ctx inj ≡ true
      → (s : InjectionState R) × ((inject next_u32 at at stage ctx inj).0
          ≡ record inj { state = s })
        × (s.started ≡ (tick at inj.state).started)
        × (s.hits ≡ (tick at inj.state).hits)
        × (is_some (inject next_u32 at at stage ctx inj).2 ≡ is_active at (counted at inj))
  unfolding inject counted
  inject_counts at stage ctx inj h = elim (Bool-cases (is_active at (counted at inj))) [
    | inl e ↦
        let (same_start, same_hits) = method_keeps inj.method ctx (tick at inj.state) in
        (
          (method_inject next_u32 inj.method ctx (tick at inj.state)).0,
          rw (h, e) refl,
          same_start,
          same_hits,
          rw (h, e) (method_acts inj.method ctx (tick at inj.state)),
        )
    | inr e ↦ (tick at inj.state, rw (h, e) refl, refl, refl, rw (h, e) refl)
  ]

  serve_begun :
      (ios : List Io) (inj : Injection N R) (t n : ℕ)
      → Counts (some t) n inj.state
      → n + count_applied ios inj < u64_mod
      → (s : InjectionState R) × (serve ios inj ≡ record inj { state = s })
        × (s.started ≡ some t)
        × (s.hits ≡ n + count_applied ios inj)
  unfolding serve
  serve_begun [] inj t n (h, k) lt = (inj.state, refl, h, omega (arith, k))
  serve_begun ((at, stage, ctx) ∷ ios) inj t n h lt = elim (Bool-cases (applies stage ctx inj)) [
    | inl e ↦
        let (s1, left, started, hits, acts) = inject_counts at stage ctx inj e in
        let same_count = count_applied_state ios inj s1 in
        let fits : n + suc (count_applied ios inj) < u64_mod = rw e at lt in
        let (same_start, one_more) = tick_next at t n inj.state h (omega (arith, fits)) in
        let (s2, right, began, total) =
          serve_begun ios (record inj { state = s1 }) t (n + 1)
            (started ∙ same_start, hits ∙ one_more) (omega (arith, fits, same_count)) in
        let one_of : count_applied ((at, stage, ctx) ∷ ios) inj ≡ suc (count_applied ios inj) =
          rw e refl in
        (s2, ap (serve ios) left ∙ right, began, omega (arith, total, same_count, one_of))
    | inr e ↦
        let (s2, right, began, total) = serve_begun ios inj t n h (rw e at lt) in
        (s2, rw (inject_other at stage ctx inj e) right, began, rw e total)
  ]

  -- After I/Os to an injection that has seen none: either none was one for it, or it has counted
  -- those that were, from the time of the first.
  serve_fresh :
      (ios : List Io) (inj : Injection N R)
      → inj.state.started ≡ none
      → count_applied ios inj < u64_mod
      → ((serve ios inj ≡ inj) × (first_applied ios inj ≡ none) × (count_applied ios inj ≡ 0))
        ⊎ ((t : ℕ) × (s : InjectionState R) × (serve ios inj ≡ record inj { state = s })
            × (first_applied ios inj ≡ some t)
            × (s.started ≡ some t)
            × (s.hits ≡ count_applied ios inj))
  unfolding serve
  serve_fresh [] inj h lt = inl (refl, refl, refl)
  serve_fresh ((at, stage, ctx) ∷ ios) inj h lt = elim (Bool-cases (applies stage ctx inj)) [
    | inl e ↦
        let (s1, left, started, hits, acts) = inject_counts at stage ctx inj e in
        let same_count = count_applied_state ios inj s1 in
        let fits : suc (count_applied ios inj) < u64_mod = rw e at lt in
        let (begins, one) = tick_first at inj.state h in
        let (s2, right, began, total) =
          serve_begun ios (record inj { state = s1 }) at 1 (started ∙ begins, hits ∙ one)
            (omega (arith, fits, same_count)) in
        inr (
          at,
          s2,
          ap (serve ios) left ∙ right,
          rw e refl,
          began,
          rw e (omega (arith, total, same_count)),
        )
    | inr e ↦ rw (inject_other at stage ctx inj e, e) (serve_fresh ios inj h (rw e at lt))
  ]

  is_active_at :
      (at t n : ℕ) (inj : Injection N R)
      → Counts (some t) n inj.state
      → is_active at inj
        ≡ (ltb n inj.retries && leb inj.time_start (at - t) && ltb (at - t) inj.time_end)
  unfolding is_active now
  is_active_at at t n inj (h, k) = ground (arith, h, k)

  inject_begun :
      (at t n : ℕ) (stage : FaultIoStage) (ctx : InjectIoCtx) (inj : Injection N R)
      → applies stage ctx inj ≡ true
      → Counts (some t) n (tick at inj.state)
      → is_some (inject next_u32 at at stage ctx inj).2
        ≡ (ltb n inj.retries && leb inj.time_start (at - t) && ltb (at - t) inj.time_end)
  unfolding counted
  inject_begun at t n stage ctx inj k counts =
      let (s, left, started, hits, acts) = inject_counts at stage ctx inj k in
      acts ∙ is_active_at at t n (record inj { state = tick at inj.state }) counts

  -- An injection that has seen no I/O acts on an I/O that it applies to, after any others, exactly
  -- if fewer I/Os than its retries were for it, this one counted, and the time since the first of
  -- them lies in its period; fewer than 2^64 I/Os are counted.
  pub inject_window :
      (ios : List Io) (inj : Injection N R) (at : ℕ) (stage : FaultIoStage) (ctx : InjectIoCtx)
      → inj.state.started ≡ none
      → count_applied ios inj + 1 < u64_mod
      → applies stage ctx inj ≡ true
      → is_some (inject next_u32 at at stage ctx (serve ios inj)).2 ≡ (
          ltb (count_applied ios inj + 1) inj.retries
          && leb inj.time_start (at - Option.get_or (first_applied ios inj) at)
          && ltb (at - Option.get_or (first_applied ios inj) at) inj.time_end)
  inject_window ios inj at stage ctx h lt k = elim (serve_fresh ios inj h (omega (arith, lt))) [
    | inl (same, no_first, no_count) ↦
        rw (same, no_first, no_count)
          (inject_begun at at 1 stage ctx inj k (tick_first at inj.state h))
    | inr (t, s, same, first, began, total) ↦
        rw (same, first)
          (inject_begun at t (count_applied ios inj + 1) stage ctx (record inj { state = s })
            (applies_state stage ctx inj s k)
            (tick_next at t (count_applied ios inj) s (began, total) lt))
  ]
