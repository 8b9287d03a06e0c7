-- ===== src/Nexus/IoLog/Logging.antt =====
-- A log call marks the channel of its core, and no other.
use Prim.Native.String.{String}
use mayastor.Common.{
  ℕ, ◌+◌, ◌≡◌, ◌<◌, ◌≤◌, refl, ◌∙◌, Bool, true, false, ◌&&◌, ◌||◌, Option, none, some, List, [],
  ◌∷◌, arith, ◌==◌, ◌⊎◌, inl, inr, Bool-cases,
}
use mayastor.Common.Panic.{◌>>=◌}
use mayastor.Core.BitVec.{BitVec}
use mayastor.Core.SegmentMap.{SegmentMap}
use mayastor.Core.SegmentMap.Ranges.{touches}
use mayastor.Nexus.IoLog.{IoType, is_logged, IoLogChannel, IoLog, log_io, log_current, log_in}
use mayastor.Nexus.IoLog.Dirty.{dirty_at, IsKept, AllKept, any_dirty, marked_lem}

module _ (V : BitVec) where
  -- A write is logged on the channel of its core alone.
  abbrev pub HasCore : ℕ → List (IoLogChannel V) → Type 0
  HasCore i [] = ⊥
  HasCore i (c ∷ channels) = ((c.core == i) ≡ true) ⊎ HasCore i channels

  -- What a log call makes of the channels.
  record Logged (m : SegmentMap V) (t : IoType) (lbn n : ℕ) (cs ds : List (IoLogChannel V))
      : Type 0 where
    kept : AllKept V m ds
    adds :
        (b : ℕ)
        → b < m.num_blocks
        → any_dirty V ds b ≡ ((is_logged t && touches V m lbn n b) || any_dirty V cs b)
    cores : (i : ℕ) → HasCore i cs → HasCore i ds

  log_io_lem :
      (m : SegmentMap V) (t : IoType) (current lbn n core : ℕ) (name : String)
      (o : Option (SegmentMap V))
      → IsKept V m o
      → (core == current) ≡ true
      → 0 < n
      → lbn + n ≤ m.num_blocks
      → (p : Option (SegmentMap V)) × (log_io V current
            (record { core = core; device_name = name; segments = o })
            t
            lbn
            n
          ≡ some (record { core = core; device_name = name; segments = p }))
        × IsKept V m p
        × ((b : ℕ)
            → b < m.num_blocks
            → dirty_at V p b ≡ ((is_logged t && touches V m lbn n b) || dirty_at V o b))
  unfolding log_io
  log_io_lem m t current lbn n core name none k q p h = absurd k
  log_io_lem m t current lbn n core name (some s) k q p h = elim (Bool-cases (is_logged t)) [
    | inl l ↦
        let (s', r, w', e', f) = marked_lem V m s lbn n k.0 k.1 p h in
        (some s', rw (q, l, r) refl, (w', e'), λ b i. rw l (f b i))
    | inr l ↦ (some s, rw (q, l) refl, k, λ b i. rw l refl)
  ]

  not_here :
      (c : IoLogChannel V) (i : ℕ) (cs : List (IoLogChannel V))
      → (c.core == i) ≡ false
      → HasCore i (c ∷ cs)
      → HasCore i cs
  not_here c i cs e (inl q) = absurd (ground (arith, e, q))
  not_here c i cs e (inr q) = q

  or_swap : (x y z : Bool) → (y || (x || z)) ≡ (x || (y || z))
  or_swap x y z = ground arith

  or_swap' : (x y z : Bool) → (y || (x || z)) ≡ ((x || y) || z)
  or_swap' x y z = ground arith

  or_assoc : (x y z : Bool) → ((x || y) || z) ≡ (x || (y || z))
  or_assoc x y z = ground arith

  log_in_lem :
      (m : SegmentMap V) (t : IoType) (current lbn n : ℕ) (cs : List (IoLogChannel V))
      → AllKept V m cs
      → HasCore current cs
      → 0 < n
      → lbn + n ≤ m.num_blocks
      → (ds : List (IoLogChannel V)) × (log_in V current t lbn n cs ≡ some ds)
        × Logged m t lbn n cs ds
  unfolding log_in
  log_in_lem m t current lbn n [] k q p h = absurd q
  log_in_lem m t current lbn n (c ∷ cs) k q p h = elim (Bool-cases (c.core == current)) [
    | inl e ↦
        let (o, r, k', f) =
          log_io_lem m t current lbn n c.core c.device_name c.segments k.0 e p h in
        (
          record { core = c.core; device_name = c.device_name; segments = o } ∷ cs,
          rw (e, r) refl,
          record {
            kept = (k', k.1);
            adds = λ b i. rw (f b i) (or_assoc (is_logged t && touches V m lbn n b) _ _);
            cores = λ i z. z;
          },
        )
    | inr e ↦
        let (ds, r, g) = log_in_lem m t current lbn n cs k.1 (not_here c current cs e q) p h in
        (
          c ∷ ds,
          rw (e, r) refl,
          record {
            kept = (k.0, g.kept);
            adds = λ b i. rw (g.adds b i) (or_swap (is_logged t && touches V m lbn n b) _ _);
            cores = λ i. λ z. elim z [ inl x ↦ inl x | inr x ↦ inr (g.cores i x) ];
          },
        )
  ]

  -- One entry of a log: the core that an I/O ran on, its type, and its blocks.
  pub record Entry : Type 0 where
    pub core : ℕ
    pub io_type : IoType
    pub lbn : ℕ
    pub lbn_cnt : ℕ

  -- The I/Os of a device, each on the channel of its core, in their order.
  unfoldable pub log_all : IoLog V → List Entry → Option (IoLog V)
  log_all l [] = some l
  log_all l (e ∷ es) = log_current V l e.core e.io_type e.lbn e.lbn_cnt >>= λ l'. log_all l' es

  abbrev pub IsValid : SegmentMap V → List (IoLogChannel V) → List Entry → Type 0
  IsValid m cs [] = Unit
  IsValid m cs (e ∷ es) =
      (HasCore e.core cs × (0 < e.lbn_cnt) × (e.lbn + e.lbn_cnt ≤ m.num_blocks)) × IsValid m cs es

  -- A block lies in a segment that one of the logged I/Os touches.
  abbrev pub is_written : SegmentMap V → List Entry → ℕ → Bool
  is_written m [] b = false
  is_written m (e ∷ es) b =
      (is_logged e.io_type && touches V m e.lbn e.lbn_cnt b) || is_written m es b

  IsValid-mono :
      (m : SegmentMap V) (cs ds : List (IoLogChannel V)) (es : List Entry)
      → ((i : ℕ) → HasCore i cs → HasCore i ds)
      → IsValid m cs es
      → IsValid m ds es
  IsValid-mono m cs ds [] f v = tt
  IsValid-mono m cs ds (e ∷ es) f (v, vs) = ((f e.core v.0, v.1, v.2), IsValid-mono m cs ds es f vs)

  pub log_all_lem :
      (m : SegmentMap V) (l : IoLog V) (es : List Entry)
      → AllKept V m l.channels
      → IsValid m l.channels es
      → (l' : IoLog V) × (log_all l es ≡ some l')
        × AllKept V m l'.channels
        × ((b : ℕ)
            → b < m.num_blocks
            → any_dirty V l'.channels b ≡ (is_written m es b || any_dirty V l.channels b))
        × ((i : ℕ) → HasCore i l.channels → HasCore i l'.channels)
  unfolding log_all log_current
  log_all_lem m l [] k v = (l, refl, k, λ b h. refl, λ i z. z)
  log_all_lem m l (e ∷ es) k (v, vs) =
      let (ds, r, g) = log_in_lem m e.io_type e.core e.lbn e.lbn_cnt l.channels k v.0 v.1 v.2 in
      let (l', r', k', f, c) =
        log_all_lem m (record l { channels = ds }) es g.kept
          (IsValid-mono m l.channels ds es g.cores vs) in
      (
        l',
        rw r r',
        k',
        λ b i.
            f b i
            ∙ rw (g.adds b i) (or_swap' (is_logged e.io_type && touches V m e.lbn e.lbn_cnt b) _ _),
        λ i z. c i (g.cores i z),
      )
