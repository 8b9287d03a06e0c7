-- ===== src/Nexus/IoLog.antt =====
-- The I/O log of a child that misses writes: io-engine/src/bdev/nexus/nexus_io_log.rs. `none` is a
-- panic. A channel is shared by reference, so a write to it is a write to the one of its core.
pub mod Dirty
pub mod Logging
pub mod Final
pub mod Whole
mod Tests
use Prim.Native.String.{String, len}
use mayastor.Common.{
  ℕ, ◌+◌, ◌≡◌, ◌<◌, Bool, true, false, not, Option, none, some, List, [], ◌∷◌, ltb, ◌==◌, ◌&&◌,
  if◌then◌else◌,
}
use mayastor.Common.Panic.{◌>>=◌}
use mayastor.Core.BitVec.{BitVec}
use mayastor.Core.SegmentMap.{SegmentMap, set, merge}
use mayastor.Core.SegmentMap as Segments
use mayastor.Rebuild.Partial.{RebuildMap}

-- The types of the I/O that the log tells apart.
pub data IoType : Type 0 where
  write write_zeros unmap other : IoType

abbrev pub is_logged : IoType → Bool
is_logged write = true
is_logged write_zeros = true
is_logged unmap = true
is_logged other = false

module _ (V : BitVec) where
  pub record IoLogChannel : Type 0 where
    pub core : ℕ
    pub device_name : String
    pub segments : Option (SegmentMap V)

  pub record IoLog : Type 0 where
    pub device_name : String
    pub channels : List IoLogChannel

  -- `IOLogChannelInner::new`, with `SEGMENT_SIZE` as an argument.
  unfoldable pub new_channel : ℕ → ℕ → String → ℕ → ℕ → Option IoLogChannel
  new_channel segment_size core device_name num_blocks block_len = do
    segments ← Segments.new V num_blocks block_len segment_size
    some (record { core = core; device_name = device_name; segments = some segments })

  -- `log_io`, on the core `current`.
  unfoldable pub log_io : ℕ → IoLogChannel → IoType → ℕ → ℕ → Option IoLogChannel
  log_io current c io_type lbn lbn_cnt =
      if c.core == current
      then (if is_logged io_type
          then (do
            segments ← c.segments
            marked ← set V segments lbn lbn_cnt true
            some (record c { segments = some marked }))
          else some c)
      else none

  -- `HashMap::insert` by the core.
  insert : IoLogChannel → List IoLogChannel → List IoLogChannel
  insert c [] = c ∷ []
  insert c (d ∷ channels) =
      let rest = insert c channels in if d.core == c.core then c ∷ channels else d ∷ rest

  new_channels : ℕ → List ℕ → String → ℕ → ℕ → List IoLogChannel → Option (List IoLogChannel)
  unfolding insert
  new_channels segment_size [] device_name num_blocks block_len channels = some channels
  new_channels segment_size (i ∷ cores) device_name num_blocks block_len channels = do
    c ← new_channel segment_size i device_name num_blocks block_len
    new_channels segment_size cores device_name num_blocks block_len (insert c channels)

  -- `IOLog::new`, with the cores of `Cores::list_cores`.
  unfoldable pub new : ℕ → List ℕ → String → ℕ → ℕ → Option IoLog
  unfolding new_channels
  new segment_size cores device_name num_blocks block_len =
      if ltb 0 (len device_name) && ltb 0 num_blocks && ltb 0 block_len
      then (do
        channels ← new_channels segment_size cores device_name num_blocks block_len []
        some (record { device_name = device_name; channels = channels }))
      else none

  -- The write of an I/O to the channel of the current core, as `current_channel` finds it.
  log_in : ℕ → IoType → ℕ → ℕ → List IoLogChannel → Option (List IoLogChannel)
  log_in current io_type lbn lbn_cnt [] = none
  log_in current io_type lbn lbn_cnt (c ∷ channels) =
      let rest = log_in current io_type lbn lbn_cnt channels in
      if c.core == current
      then (log_io current c io_type lbn lbn_cnt >>= λ d. some (d ∷ channels))
      else (rest >>= λ ds. some (c ∷ ds))

  unfoldable pub log_current : IoLog → ℕ → IoType → ℕ → ℕ → Option IoLog
  unfolding log_in
  log_current l current io_type lbn lbn_cnt =
      log_in current io_type lbn lbn_cnt l.channels >>= λ channels.
      some (record l { channels = channels })

  -- The maps of the channels, each taken from its channel.
  taken : List IoLogChannel → Option (List (SegmentMap V))
  taken [] = some []
  taken (c ∷ channels) = do s ← c.segments; rest ← taken channels; some (s ∷ rest)

  merge_all : SegmentMap V → List (SegmentMap V) → Option (SegmentMap V)
  merge_all acc [] = some acc
  merge_all acc (e ∷ maps) = do m ← merge V acc e; merge_all m maps

  reduced : List (SegmentMap V) → Option (SegmentMap V)
  unfolding merge_all
  reduced [] = none
  reduced (m ∷ maps) = merge_all m maps

  -- `finalize`, over the channels in the order in which the map of the cores gives them out.
  unfoldable pub finalize : IoLog → Option (RebuildMap V)
  unfolding taken reduced
  finalize l = do
    maps ← taken l.channels
    segments ← reduced maps
    some (record { device_name = l.device_name; segments = segments })
