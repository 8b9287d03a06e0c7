-- ===== src/Nexus/IoLog/Tests.antt =====
-- A log of eight blocks of 512 bytes on two cores, in segments of 1024 bytes.
use mayastor.Common.{ℕ, ◌<◌, ◌≡◌, refl, true, false, some, List, [], ◌∷◌, arith, inl, inr}
use mayastor.Common.Panic.{◌>>=◌}
use mayastor.Core.BitVec.{list_bits}
use mayastor.Core.SegmentMap.{SegmentMap}
use mayastor.Core.SegmentMap as Segments
use mayastor.Rebuild.Partial.{RebuildMap}
use mayastor.Nexus.IoLog.{write, other, new, finalize}
use mayastor.Nexus.IoLog.Dirty.{is_dirty}
use mayastor.Nexus.IoLog.Logging.{Entry, log_all, is_written}
use mayastor.Nexus.IoLog.Whole.{IsRun, finalize-is_written}

abbrev ios : List (Entry list_bits)
ios =
    record { core = 2; io_type = write; lbn = 3; lbn_cnt = 2 }
    ∷ record { core = 0; io_type = other; lbn = 0; lbn_cnt = 8 }
    ∷ []

ios-IsRun : IsRun list_bits (0 ∷ 2 ∷ []) 8 ios
ios-IsRun = ((inr (inl refl), omega arith, omega arith), ((inl refl, omega arith, omega arith), tt))

ios_dirty :
    (m : SegmentMap list_bits)
    → m.block_len ≡ 512
    → m.segment_size ≡ 1024
    → (is_written list_bits m ios 5 ≡ true) × (is_written list_bits m ios 6 ≡ false)
ios_dirty m e f = rw (e, f) (refl, refl)

finalize-is_written_example :
    (m : SegmentMap list_bits) × (r : RebuildMap list_bits) × (Segments.new list_bits 8 512 1024
      ≡ some m)
    × ((new list_bits 1024 (0 ∷ 2 ∷ []) "disk" 8 512 >>= λ l.
          log_all list_bits l ios >>= λ l'. finalize list_bits l')
        ≡ some r)
    × ((b : ℕ) → b < 8 → is_dirty list_bits r.segments b ≡ is_written list_bits m ios b)
finalize-is_written_example =
    finalize-is_written list_bits 1024 0 (2 ∷ []) "disk" 8 512 ios (omega arith) (omega arith)
      (omega arith) (omega arith) (omega arith) ios-IsRun
