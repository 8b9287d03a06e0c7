-- ===== src/Rebuild/Copy/Synced.antt =====
-- A copy leaves every block of its segment in sync, and none worse off.
use mayastor.Common.{
  ℕ, ◌+◌, ◌-◌, ◌*◌, ◌≤◌, ◌<◌, ◌≡◌, ◌⊎◌, inl, inr, refl, sym, ◌∙◌, Bool, true, false, Outcome, ok,
  err, panic, leb, if_both, ap,
}
use mayastor.Rebuild.State.{RebuildError}
use mayastor.Rebuild.Descriptor.{
  RebuildDescriptor, RebuildVerifyMode, ignore, fails, panics, ReadOptions, normal,
  get_segment_size_blks,
}
use mayastor.Rebuild.Copy.{
  ReadAnswer, got, unwritten, read_error, CompareAnswer, same, differs, compare_error, Handles,
  after_compare, after_reread, verify_segment, verified, after_write, after_read, copy_one,
  unlocked, then_unlock, locked, copy_locked,
}
use mayastor.Rebuild.Partial.{TaskCopier}

module _ (h : Handles) where
  open h use {S}

  -- The source is as it was, and each block of the target too, or it holds what the source does.
  pub record Better (s s' : h.S) : Type 0 where
    pub source_kept : (b : ℕ) → h.source s' b ≡ h.source s b
    pub allocated_kept : (b : ℕ) → h.allocated s' b ≡ h.allocated s b
    pub target_kept : (b : ℕ) → (h.target s' b ≡ h.target s b) ⊎ (h.target s' b ≡ h.source s b)

  -- The block that the source has not allocated needs no copy.
  abbrev pub IsSynced : h.S → ℕ → Type 0
  IsSynced s b = (h.allocated s b ≡ false) ⊎ (h.target s b ≡ h.source s b)

  -- What the code relies on. A read, a comparison, a lock or an unlock changes no block. A read that
  -- succeeds gives the contents of the source, one that answers that blocks are unwritten is of blocks
  -- that the source has not allocated. A write that succeeds puts the given contents; one that fails
  -- may have put them in any of its blocks, and both leave the rest alone.
  pub record Laws : Type 0 where
    pub read_keeps : (o : ReadOptions) (blk n : ℕ) (s : h.S) → Better s (h.read o blk n s).0
    pub read_right :
        (o : ReadOptions) (blk n b : ℕ) (s s' : h.S) (f : ℕ → ℕ)
        → h.read o blk n s ≡ (s', got f)
        → blk ≤ b
        → b < blk + n
        → f b ≡ h.source s' b
    pub read_unwritten :
        (o : ReadOptions) (blk n b : ℕ) (s s' : h.S)
        → h.read o blk n s ≡ (s', unwritten)
        → blk ≤ b
        → b < blk + n
        → h.allocated s' b ≡ false
    pub write_source :
        (blk n b : ℕ) (f : ℕ → ℕ) (s : h.S)
        → (h.source (h.write blk n f s).0 b ≡ h.source s b)
          × (h.allocated (h.write blk n f s).0 b ≡ h.allocated s b)
    pub write_target :
        (blk n b : ℕ) (f : ℕ → ℕ) (s : h.S)
        → (h.target (h.write blk n f s).0 b ≡ h.target s b)
          ⊎ ((blk ≤ b) × (b < blk + n) × (h.target (h.write blk n f s).0 b ≡ f b))
    pub write_right :
        (blk n b : ℕ) (f : ℕ → ℕ) (s s' : h.S)
        → h.write blk n f s ≡ (s', true)
        → blk ≤ b
        → b < blk + n
        → h.target s' b ≡ f b
    pub compare_keeps : (blk n : ℕ) (f : ℕ → ℕ) (s : h.S) → Better s (h.compare blk n f s).0
    pub lock_keeps : (blk n : ℕ) (s : h.S) → Better s (h.lock blk n s).0
    pub unlock_keeps : (blk n : ℕ) (s : h.S) → Better s (h.unlock blk n s).0

  Better-same : (s : h.S) → Better s s
  Better-same s = record {
    source_kept = λ b. refl;
    allocated_kept = λ b. refl;
    target_kept = λ b. inl refl;
  }

  target_then :
      (s t u : h.S) (b : ℕ)
      → h.source t b ≡ h.source s b
      → (h.target t b ≡ h.target s b) ⊎ (h.target t b ≡ h.source s b)
      → (h.target u b ≡ h.target t b) ⊎ (h.target u b ≡ h.source t b)
      → (h.target u b ≡ h.target s b) ⊎ (h.target u b ≡ h.source s b)
  target_then s t u b e (inl x) (inl y) = inl (y ∙ x)
  target_then s t u b e (inr x) (inl y) = inr (y ∙ x)
  target_then s t u b e x (inr y) = inr (y ∙ e)

  Better-then : {s t u : h.S} → Better s t → Better t u → Better s u
  Better-then {s = s} {t = t} {u = u} x y = record {
    source_kept = λ b. y.source_kept b ∙ x.source_kept b;
    allocated_kept = λ b. y.allocated_kept b ∙ x.allocated_kept b;
    target_kept = λ b. target_then s t u b (x.source_kept b) (x.target_kept b) (y.target_kept b);
  }

  stays :
      (s t : h.S) (b : ℕ)
      → h.source t b ≡ h.source s b
      → h.allocated t b ≡ h.allocated s b
      → (h.target t b ≡ h.target s b) ⊎ (h.target t b ≡ h.source s b)
      → IsSynced s b
      → IsSynced t b
  stays s t b e a x (inl y) = inl (a ∙ y)
  stays s t b e a (inl x) (inr y) = inr (x ∙ y ∙ sym e)
  stays s t b e a (inr x) (inr y) = inr (x ∙ sym e)

  pub Better-stays : {s t : h.S} (b : ℕ) → Better s t → IsSynced s b → IsSynced t b
  Better-stays {s = s} {t = t} b x y =
      stays s t b (x.source_kept b) (x.allocated_kept b) (x.target_kept b) y

module _ (h : Handles) (laws : Laws h) (d : RebuildDescriptor) where
  abbrev InSegment : ℕ → ℕ → Type 0
  InSegment blk b = (blk ≤ b) × (b < blk + get_segment_size_blks d blk)

  -- What a copy from `s` comes to.
  pub record Copies (s : h.S) (blk : ℕ) (r : h.S × Outcome RebuildError Bool) : Type 0 where
    pub better : Better h s r.0
    pub synced : (t : Bool) → r.1 ≡ ok t → (b : ℕ) → InSegment blk b → IsSynced h r.0 b

  after_compare_better : (blk : ℕ) (r : h.S × CompareAnswer) → (after_compare h d blk r).0 ≡ r.0
  unfolding after_compare
  after_compare_better blk (s, same) = refl
  after_compare_better blk (s, differs) = refl
  after_compare_better blk (s, compare_error) = refl

  after_reread-Better : (blk : ℕ) (r : h.S × ReadAnswer) → Better h r.0 (after_reread h d blk r).0
  unfolding after_reread
  after_reread-Better blk (s, got f) =
      rw (after_compare_better blk (h.compare blk (get_segment_size_blks d blk) f s))
        (laws.compare_keeps blk (get_segment_size_blks d blk) f s)
  after_reread-Better blk (s, unwritten) = Better-same h s
  after_reread-Better blk (s, read_error) = Better-same h s

  verified-Better :
      (m : RebuildVerifyMode) (blk : ℕ) (s : h.S) → Better h s (verified h d m blk s).0
  unfolding verified verify_segment
  verified-Better ignore blk s = Better-same h s
  verified-Better fails blk s =
      Better-then h (laws.read_keeps normal blk (get_segment_size_blks d blk) s)
        (after_reread-Better blk (h.read normal blk (get_segment_size_blks d blk) s))
  verified-Better panics blk s =
      Better-then h (laws.read_keeps normal blk (get_segment_size_blks d blk) s)
        (after_reread-Better blk (h.read normal blk (get_segment_size_blks d blk) s))

  write-Better :
      (blk : ℕ) (f : ℕ → ℕ) (s : h.S)
      → ((b : ℕ) → InSegment blk b → f b ≡ h.source s b)
      → Better h s (h.write blk (get_segment_size_blks d blk) f s).0
  write-Better blk f s right = record {
    source_kept = λ b. (laws.write_source blk (get_segment_size_blks d blk) b f s).0;
    allocated_kept = λ b. (laws.write_source blk (get_segment_size_blks d blk) b f s).1;
    target_kept = λ b. elim (laws.write_target blk (get_segment_size_blks d blk) b f s) [
      | inl x ↦ inl x
      | inr (l, u, x) ↦ inr (x ∙ right b (l, u))
    ];
  }

  after_write_lem :
      (blk : ℕ) (f : ℕ → ℕ) (s : h.S) (r : h.S × Bool)
      → h.write blk (get_segment_size_blks d blk) f s ≡ r
      → ((b : ℕ) → InSegment blk b → f b ≡ h.source s b)
      → Better h s r.0
      → Copies s blk (after_write h d blk r)
  unfolding after_write
  after_write_lem blk f s (s', true) e right x = record {
    better = Better-then h x (verified-Better d.verify_mode blk s');
    synced = λ t done b i. Better-stays h b (verified-Better d.verify_mode blk s') (
        inr (
          laws.write_right blk (get_segment_size_blks d blk) b f s s' e i.0 i.1
          ∙ right b i
          ∙ sym (x.source_kept b)));
  }
  after_write_lem blk f s (s', false) e right x = record { better = x; synced = λ t done. cc }

  after_read_lem :
      (blk : ℕ) (s : h.S) (r : h.S × ReadAnswer)
      → h.read d.read_opts blk (get_segment_size_blks d blk) s ≡ r
      → Better h s r.0
      → Copies s blk (after_read h d blk r)
  unfolding after_read
  after_read_lem blk s (s', got f) e x =
      let right : (b : ℕ) → InSegment blk b → f b ≡ h.source s' b =
        λ b i. laws.read_right d.read_opts blk (get_segment_size_blks d blk) b s s' f e i.0 i.1 in
      let c = after_write_lem blk f s' _ refl right (write-Better blk f s' right) in
      record { better = Better-then h x c.better; synced = c.synced }
  after_read_lem blk s (s', unwritten) e x = record {
    better = x;
    synced = λ t done b i.
        inl (laws.read_unwritten d.read_opts blk (get_segment_size_blks d blk) b s s' e i.0 i.1);
  }
  after_read_lem blk s (s', read_error) e x = record { better = x; synced = λ t done. cc }

  copy_one-Copies : (blk : ℕ) (s : h.S) → Copies s blk (copy_one h d blk s)
  unfolding copy_one
  copy_one-Copies blk s =
      if_both (Copies s blk) (leb (get_segment_size_blks d blk * d.block_size) h.buffer_len)
        (after_read_lem blk s _ refl
          (laws.read_keeps d.read_opts blk (get_segment_size_blks d blk) s))
        (record { better = Better-same h s; synced = λ t done. cc })

  unlocked_lem :
      (blk : ℕ) (s : h.S) (o : Outcome RebuildError Bool) (u : h.S × Bool)
      → Better h s u.0
      → ((t : Bool) → o ≡ ok t → (b : ℕ) → InSegment blk b → IsSynced h s b)
      → Copies s blk (unlocked h d blk o u)
  unfolding unlocked
  unlocked_lem blk s o (u, true) x y = record {
    better = x;
    synced = λ t done b i. Better-stays h b x (y t done b i);
  }
  unlocked_lem blk s o (u, false) x y = record { better = x; synced = λ t done. cc }

  then_unlock_lem :
      (blk : ℕ) (s : h.S) (r : h.S × Outcome RebuildError Bool)
      → Copies s blk r
      → Copies s blk (then_unlock h d blk r)
  unfolding then_unlock
  then_unlock_lem blk s (t, ok v) c =
      let u =
        unlocked_lem blk t (ok v) _
          (laws.unlock_keeps (blk - d.range.start) (get_segment_size_blks d blk) t) c.synced in
      record { better = Better-then h c.better u.better; synced = u.synced }
  then_unlock_lem blk s (t, err e) c =
      let u =
        unlocked_lem blk t (err e) _
          (laws.unlock_keeps (blk - d.range.start) (get_segment_size_blks d blk) t) c.synced in
      record { better = Better-then h c.better u.better; synced = u.synced }
  then_unlock_lem blk s (t, panic) c = c

  locked_lem :
      (blk : ℕ) (s : h.S) (r : h.S × Bool) → Better h s r.0 → Copies s blk (locked h d blk r)
  unfolding locked
  locked_lem blk s (t, true) x =
      let c = then_unlock_lem blk t (copy_one h d blk t) (copy_one-Copies blk t) in
      record { better = Better-then h x c.better; synced = c.synced }
  locked_lem blk s (t, false) x = record { better = x; synced = λ t done. cc }

  -- Whatever its handles answer, a copy of a nexus leaves no block of the target worse off; and if it
  -- succeeds, each block of its segment is in sync.
  pub copy_locked-Copies : (blk : ℕ) (s : h.S) → Copies s blk (copy_locked h d blk s)
  unfolding copy_locked
  copy_locked-Copies blk s =
      locked_lem blk s _ (laws.lock_keeps (blk - d.range.start) (get_segment_size_blks d blk) s)

  pub IsSynced-at :
      (s s' : h.S) (blk b : ℕ) (t : Bool) (r : h.S × Outcome RebuildError Bool)
      → Copies s blk r
      → r ≡ (s', ok t)
      → InSegment blk b
      → IsSynced h s' b
  IsSynced-at s s' blk b t r c e i = rw (ap (λ x. x.0) e) at (c.synced t (ap (λ x. x.1) e) b i)

  -- The copier of a nexus, as the walks use it.
  abbrev pub nexus_copier : TaskCopier d
  nexus_copier = record {
    Devices = h.S;
    copy = λ s blk. copy_locked h d blk s;
    Synced = λ s b. IsSynced h s b;
    copy_syncs =
        λ s s' blk b t e l u. IsSynced-at s s' blk b t _ (copy_locked-Copies blk s) e (l, u);
    copy_keeps = λ s blk b y. Better-stays h b (copy_locked-Copies blk s).better y;
  }
