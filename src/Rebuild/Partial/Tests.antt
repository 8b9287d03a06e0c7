-- ===== src/Rebuild/Partial/Tests.antt =====
-- A partial rebuild of eight blocks whose segments 1 and 2 are dirty.
use mathlib.Core.Path.{subst}
use mayastor.Common.{
  ap, zero, suc, ℕ, ◌+◌, ◌≤◌, ◌<◌, ◌≡◌, refl, Bool, true, false, ◌||◌, ◌&&◌, some, [], ◌∷◌, Outcome,
  ok, arith, inl, inr, ◌⊎◌, ltb, leb,
}
use mayastor.Common.Words.{mul64, add64, sub64}
use mayastor.Core.BitVec.{list_bits, list_set}
use mayastor.Core.SegmentMap.{set, set_range, get_bit, lbn_to_seg}
use mayastor.Rebuild.State.{RebuildError}
use mayastor.Rebuild.Descriptor.{RebuildDescriptor, ignore, normal, get_segment_size_blks}
use mayastor.Rebuild.Partial.{TaskCopier, World, copy_segment, copy_all, is_blk_clean, blk_clean}
use mayastor.Rebuild.Partial.Step.{Inv, Advances, copy_segment-Advances}

abbrev whole : RebuildDescriptor
whole = record {
  block_size = 512;
  range = record { start = 0; end = 8 };
  verify_mode = ignore;
  read_opts = normal;
  segment_size_blks = 2;
}

-- Devices that hold, for each block, whether it is in sync; every copy succeeds.
flip_range : (ℕ → Bool) → ℕ → ℕ → Bool
flip_range s blk b = (leb blk b && ltb b (blk + get_segment_size_blks whole blk)) || s b

flip_syncs :
    (s s' : ℕ → Bool) (blk b : ℕ) (t : Bool)
    → ◌≡◌ {A = (ℕ → Bool) × Outcome RebuildError Bool} (flip_range s blk, ok true) (s', ok t)
    → blk ≤ b
    → b < blk + get_segment_size_blks whole blk
    → s' b ≡ true
unfolding flip_range
flip_syncs s s' blk b t e l u = subst (λ f. f b ≡ true) (ap (λ p. p.0) e) (ground arith)

flip_keeps : (s : ℕ → Bool) (blk b : ℕ) → s b ≡ true → flip_range s blk b ≡ true
unfolding flip_range
flip_keeps s blk b h = ground arith

abbrev flags : TaskCopier whole
flags = record {
  Devices = ℕ → Bool;
  copy = λ s blk. (flip_range s blk, ok true);
  Synced = λ s b. s b ≡ true;
  copy_syncs = flip_syncs;
  copy_keeps = flip_keeps;
}

abbrev begun : World list_bits flags
begun = record {
  map = record {
    device_name = "child";
    segments = record {
      segments = false ∷ true ∷ true ∷ false ∷ [];
      num_segments = 4;
      num_blocks = 8;
      block_len = 512;
      segment_size = 1024;
    };
  };
  devices = λ b. ltb b 2 || ltb 5 b;
}

begun-tracked :
    (b : ℕ) → (begun.devices b ≡ true) ⊎ (get_bit list_bits begun.map.segments b ≡ some (some true))
unfolding get_bit lbn_to_seg mul64
begun-tracked zero = inl refl
begun-tracked (suc zero) = inl refl
begun-tracked (suc (suc zero)) = inr refl
begun-tracked (suc (suc (suc zero))) = inr refl
begun-tracked (suc (suc (suc (suc zero)))) = inr refl
begun-tracked (suc (suc (suc (suc (suc zero))))) = inr refl
begun-tracked (suc (suc (suc (suc (suc (suc b)))))) = inl (ground arith)

begun-Inv : Inv list_bits flags begun
begun-Inv = record {
  fits = record {
    walk_sound = omega arith;
    map_sound = omega arith;
    in_map = omega arith;
    whole = refl;
  };
  tracked = λ b l u. begun-tracked b;
}

copies : (copy_all list_bits flags begun (0 ∷ 2 ∷ 4 ∷ 6 ∷ [])).1 ≡ ok tt
unfolding copy_all copy_segment is_blk_clean blk_clean set set_range get_bit lbn_to_seg mul64 add64
    sub64 list_set
copies = refl

copy_segment-Advances_example :
    Advances list_bits flags begun 2 (copy_segment list_bits flags begun 2)
unfolding copy_segment is_blk_clean blk_clean set set_range get_bit lbn_to_seg mul64 add64 sub64
    list_set
copy_segment-Advances_example =
    copy_segment-Advances list_bits flags begun 2 true begun-Inv (1, refl) (omega arith)
      (omega arith) refl
