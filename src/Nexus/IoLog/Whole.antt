-- ===== src/Nexus/IoLog/Whole.antt =====
-- A log from its creation to its end: it finds exactly the segments that were written.
use Prim.Native.String.{String, len}
use mayastor.Common.{
  ℕ, ◌+◌, ◌*◌, ◌≡◌, ◌≢◌, ◌<◌, ◌≤◌, refl, ◌∙◌, Bool, false, ◌||◌, some, List, [], ◌∷◌, arith, ◌==◌,
  ◌⊎◌, inl, inr, Bool-cases, lt→ltb,
}
use mayastor.Common.Words.{u64_mod}
use mayastor.Common.Panic.{◌>>=◌}
use mayastor.Core.BitVec.{BitVec}
use mayastor.Core.SegmentMap.{SegmentMap, set, merge, get_bit}
use mayastor.Core.SegmentMap as Segments
use mayastor.Core.SegmentMap.Ranges.{IsSound}
use mayastor.Core.SegmentMap.Merge.{new_clean}
use mayastor.Rebuild.Partial.{RebuildMap}
use mayastor.Nexus.IoLog.{IoLogChannel, IoLog, new_channel, new, finalize, new_channels, insert}
use mayastor.Nexus.IoLog.Dirty.{is_dirty, AllKept, any_dirty, is_dirty_of}
use mayastor.Nexus.IoLog.Logging.{HasCore, Entry, log_all, IsValid, is_written, log_all_lem}
use mayastor.Nexus.IoLog.Final.{finalize_lem}

new_parts :
    (V : BitVec) (n len size : ℕ) {m : SegmentMap V}
    → Segments.new V n len size ≡ some m
    → m.num_blocks ≡ n
unfolding Segments.new
new_parts V n len size e = ground (arith, e)

or_false' : (x : Bool) → (x || false) ≡ x
or_false' x = ground arith

module _ (V : BitVec) where
  -- A core is among those that the log has a channel for.
  abbrev pub IsListed : ℕ → List ℕ → Type 0
  IsListed i [] = ⊥
  IsListed i (j ∷ cores) = (j ≡ i) ⊎ IsListed i cores

  -- The I/Os run on cores of the list and stay within the device.
  abbrev pub IsRun : List ℕ → ℕ → List (Entry V) → Type 0
  IsRun cores num_blocks [] = Unit
  IsRun cores num_blocks (e ∷ es) =
      (IsListed e.core cores × (0 < e.lbn_cnt) × (e.lbn + e.lbn_cnt ≤ num_blocks))
      × IsRun cores num_blocks es

  -- A log none of whose channels has seen a write.
  record Untouched (m : SegmentMap V) (cs : List (IoLogChannel V)) : Type 0 where
    kept : AllKept V m cs
    clean : (b : ℕ) → b < m.num_blocks → any_dirty V cs b ≡ false

  fresh_Untouched :
      (m : SegmentMap V) (j : ℕ) (name : String)
      → IsSound V m
      → ((b : ℕ) → b < m.num_blocks → is_dirty V m b ≡ false)
      → Untouched m (record { core = j; device_name = name; segments = some m } ∷ [])
  fresh_Untouched m j name w z = record {
    kept = ((w, record { blocks = refl; lens = refl; sizes = refl; nums = refl }), tt);
    clean = λ b h. rw (z b h) refl;
  }

  core_of : {i j : ℕ} → j ≡ i → (ds : List (IoLogChannel V)) → HasCore V j ds → HasCore V i ds
  core_of q ds h = rw q at h

  insert_lem :
      (m : SegmentMap V) (c : IoLogChannel V) (cs : List (IoLogChannel V))
      → Untouched m (c ∷ [])
      → Untouched m cs
      → Untouched m (insert V c cs)
        × HasCore V c.core (insert V c cs)
        × ((i : ℕ) → HasCore V i cs → HasCore V i (insert V c cs))
  unfolding insert
  insert_lem m c [] u v = (u, inl (ground arith), λ i h. absurd h)
  insert_lem m c (d ∷ cs) u v = elim (Bool-cases (d.core == c.core)) [
    | inl e ↦ rw e (
      record {
        kept = (u.kept.0, v.kept.1);
        clean = λ b h. ground (arith, u.clean b h, v.clean b h);
      },
      inl (ground arith),
      λ i h. elim h [ inl q ↦ inl (ground (arith, e, q)) | inr q ↦ inr q ],
    )
    | inr e ↦
        let (w, here, there) =
          insert_lem m c cs u
            (record { kept = v.kept.1; clean = λ b h. ground (arith, v.clean b h) }) in
        rw e (
          record {
            kept = (v.kept.0, w.kept);
            clean = λ b h. ground (arith, v.clean b h, w.clean b h);
          },
          inr here,
          λ i h. elim h [ inl q ↦ inl q | inr q ↦ inr (there i q) ],
        )
  ]

  new_channels_lem :
      (m : SegmentMap V) (segment_size : ℕ) (cores : List ℕ) (name : String)
      (num_blocks block_len : ℕ) (cs : List (IoLogChannel V))
      → Segments.new V num_blocks block_len segment_size ≡ some m
      → IsSound V m
      → ((b : ℕ) → b < m.num_blocks → is_dirty V m b ≡ false)
      → Untouched m cs
      → (ds : List (IoLogChannel V)) × (new_channels V segment_size cores name num_blocks block_len
            cs
          ≡ some ds)
        × Untouched m ds
        × ((i : ℕ) → IsListed i cores → HasCore V i ds)
        × ((i : ℕ) → HasCore V i cs → HasCore V i ds)
  unfolding new_channels new_channel
  new_channels_lem m segment_size [] name num_blocks block_len cs e w z u =
      (cs, refl, u, λ i h. absurd h, λ i h. h)
  new_channels_lem m segment_size (j ∷ cores) name num_blocks block_len cs e w z u =
      let c : IoLogChannel V = record { core = j; device_name = name; segments = some m } in
      let (v, here, there) = insert_lem m c cs (fresh_Untouched m j name w z) u in
      let (ds, r, u', l, k) =
        new_channels_lem m segment_size cores name num_blocks block_len (insert V c cs) e w z v in
      (
        ds,
        rw e r,
        u',
        λ i h. elim h [ inl q ↦ core_of q ds (k j here) | inr q ↦ l i q ],
        λ i h. k i (there i h),
      )

  run-IsValid :
      (m : SegmentMap V) (cores : List ℕ) (ds : List (IoLogChannel V)) (n : ℕ) (es : List (Entry V))
      → m.num_blocks ≡ n
      → ((i : ℕ) → IsListed i cores → HasCore V i ds)
      → IsRun cores n es
      → IsValid V m ds es
  run-IsValid m cores ds n [] e f v = tt
  run-IsValid m cores ds n (x ∷ es) e f (v, vs) =
      ((f x.core v.0, v.1, omega (arith, e, v.2)), run-IsValid m cores ds n es e f vs)

  core_some : (i : ℕ) (cs : List (IoLogChannel V)) → HasCore V i cs → cs ≢ []
  core_some i [] h e = absurd h
  core_some i (c ∷ cs) h e = absurd (ground arith)

  -- A log of a device whose bytes fit in a u64, of sizes that are not zero and with a name, is made for
  -- its cores without a panic; and after any I/Os on those cores
  -- within the device it ends in a map in which a block is dirty exactly if one of the writes touched
  -- its segment, whatever the core that it ran on.
  pub finalize-is_written :
      (segment_size i : ℕ) (cores : List ℕ) (name : String) (num_blocks block_len : ℕ)
      (es : List (Entry V))
      → 0 < segment_size
      → 0 < len name
      → 0 < num_blocks
      → 0 < block_len
      → num_blocks * block_len < u64_mod
      → IsRun (i ∷ cores) num_blocks es
      → (m : SegmentMap V) × (r : RebuildMap V) × (Segments.new V num_blocks block_len segment_size
          ≡ some m)
        × ((new V segment_size (i ∷ cores) name num_blocks block_len >>= λ l.
              log_all V l es >>= λ l'. finalize V l')
            ≡ some r)
        × ((b : ℕ) → b < num_blocks → is_dirty V r.segments b ≡ is_written V m es b)
  unfolding new
  finalize-is_written segment_size i cores name num_blocks block_len es p q a d h v =
      let (m, e, w, z) = new_clean V num_blocks block_len segment_size d p h in
      let n = new_parts V num_blocks block_len segment_size e in
      let (ds, r, u, at, k) =
        new_channels_lem m segment_size (i ∷ cores) name num_blocks block_len [] e w
          (λ b j. is_dirty_of V m b false (z b (omega (arith, n, j))))
          (record { kept = tt; clean = λ b j. refl }) in
      let l : IoLog V = record { device_name = name; channels = ds } in
      let (l', r', k', f, c) =
        log_all_lem V m l es u.kept (run-IsValid m (i ∷ cores) ds num_blocks es n at v) in
      let (map, r'', w', s', g) =
        finalize_lem V m l' (core_some i l'.channels (c i (at i (inl refl)))) k' in
      (
        m,
        map,
        e,
        rw (lt→ltb _ _ q, lt→ltb _ _ a, lt→ltb _ _ d, r, r') r'',
        λ b j.
            g b (omega (arith, n, j))
            ∙ f b (omega (arith, n, j))
            ∙ rw (u.clean b (omega (arith, n, j))) (or_false' (is_written V m es b)),
      )
