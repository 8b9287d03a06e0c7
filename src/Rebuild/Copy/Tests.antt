-- ===== src/Rebuild/Copy/Tests.antt =====
-- A rebuild of eight blocks whose segments 1 and 2 are dirty, and 1 is not allocated in the source.
use mayastor.Common.{
  List, zero, suc, ℕ, ◌+◌, ◌≤◌, ◌<◌, ◌≡◌, refl, sym, ◌∙◌, Bool-cases, true, false, not, ◌||◌, ◌&&◌,
  some, [], ◌∷◌, ok, arith, inl, inr, ◌⊎◌, ltb, leb, ◌==◌, if◌then◌else◌, ap,
}
use mayastor.Common.Words.{mul64, add64, sub64}
use mayastor.Core.BitVec.{list_bits, list_set}
use mayastor.Core.SegmentMap.{set, set_range, get_bit, lbn_to_seg}
use mayastor.Rebuild.Descriptor.{RebuildDescriptor, fails, unwritten_fail, get_segment_size_blks}
use mayastor.Rebuild.Copy.{Handles, ReadAnswer, got, unwritten, read_error, same, copy_locked}
use mayastor.Rebuild.Copy.Synced.{Laws, Better, IsSynced, nexus_copier}
use mayastor.Rebuild.Copy.Whole.{nexus_rebuild_syncs}
use mayastor.Rebuild.Partial.{
  World, PartialSeqRebuild, partial_seq_rebuild, drain, copy_segment, copy_all, is_blk_clean,
  blk_clean,
}
use mayastor.Rebuild.Partial.Step.{Inv}

abbrev whole : RebuildDescriptor
whole = record {
  block_size = 512;
  range = record { start = 0; end = 8 };
  verify_mode = fails;
  read_opts = unwritten_fail;
  segment_size_blks = 2;
}

-- The state is what the target holds; the source holds in each block its number.
abbrev put : ℕ → ℕ → (ℕ → ℕ) → (ℕ → ℕ) → ℕ → ℕ
put blk n f s b = if leb blk b && ltb b (blk + n) then f b else s b

abbrev answers : ℕ → ℕ → ReadAnswer
answers blk n = if blk == 2 && n == 2 then unwritten else got (λ b. b)

abbrev disks : Handles
disks = record {
  S = ℕ → ℕ;
  source = λ s b. b;
  allocated = λ s b. not (leb 2 b && ltb b 4);
  target = λ s b. s b;
  src_uri = "source";
  dst_uri = "target";
  buffer_len = 65536;
  read = λ o blk n s. (s, answers blk n);
  write = λ blk n f s. (put blk n f s, true);
  compare = λ blk n f s. (s, same);
  lock = λ blk n s. (s, true);
  unlock = λ blk n s. (s, true);
}

keeps : (s : ℕ → ℕ) → Better disks s s
keeps s = record {
  source_kept = λ b. refl;
  allocated_kept = λ b. refl;
  target_kept = λ b. inl refl;
}

abbrev contents : ReadAnswer → ℕ → ℕ
contents (got f) b = f b
contents unwritten b = b
contents read_error b = b

contents-answers : (blk n b : ℕ) → contents (answers blk n) b ≡ b
contents-answers blk n b = elim (Bool-cases (blk == 2 && n == 2)) [
  | inl k ↦ rw k refl
  | inr k ↦ rw k refl
]

answers_got : (blk n b : ℕ) (f : ℕ → ℕ) → answers blk n ≡ got f → f b ≡ b
answers_got blk n b f e = ap (λ a. contents a b) (sym e) ∙ contents-answers blk n b

answers_unwritten :
    (blk n b : ℕ)
    → answers blk n ≡ unwritten
    → blk ≤ b
    → b < blk + n
    → not (leb 2 b && ltb b 4) ≡ false
answers_unwritten blk n b e l u = ground arith

put_either :
    (blk n b : ℕ) (f s : ℕ → ℕ)
    → (put blk n f s b ≡ s b) ⊎ ((blk ≤ b) × (b < blk + n) × (put blk n f s b ≡ f b))
put_either blk n b f s = ground arith

put_right : (blk n b : ℕ) (f s : ℕ → ℕ) → blk ≤ b → b < blk + n → put blk n f s b ≡ f b
put_right blk n b f s l u = ground arith

disks_lawful : Laws disks
disks_lawful = record {
  read_keeps = λ o blk n s. keeps s;
  read_right = λ o blk n b s s' f e l u. answers_got blk n b f (ap (λ p. p.1) e);
  read_unwritten = λ o blk n b s s' e l u. answers_unwritten blk n b (ap (λ p. p.1) e) l u;
  write_source = λ blk n b f s. (refl, refl);
  write_target = λ blk n b f s. put_either blk n b f s;
  write_right = λ blk n b f s s' e l u. ap (λ p. p.0 b) (sym e) ∙ put_right blk n b f s l u;
  compare_keeps = λ blk n f s. keeps s;
  lock_keeps = λ blk n s. keeps s;
  unlock_keeps = λ blk n s. keeps s;
}

abbrev begun : World list_bits (nexus_copier disks disks_lawful whole)
begun = record {
  map = record {
    device_name = "child";
    segments = record {
      segments = false ∷ true ∷ true ∷ false ∷ [];
      num_segments = 4;
      num_blocks = 8;
      block_len = 512;
      segment_size = 1024;
    };
  };
  devices = λ b. if ltb b 2 || ltb 5 b then b else 99;
}

begun-tracked :
    (b : ℕ)
    → IsSynced disks begun.devices b ⊎ (get_bit list_bits begun.map.segments b ≡ some (some true))
unfolding get_bit lbn_to_seg mul64
begun-tracked zero = inl (inr refl)
begun-tracked (suc zero) = inl (inr refl)
begun-tracked (suc (suc zero)) = inr refl
begun-tracked (suc (suc (suc zero))) = inr refl
begun-tracked (suc (suc (suc (suc zero)))) = inr refl
begun-tracked (suc (suc (suc (suc (suc zero))))) = inr refl
begun-tracked (suc (suc (suc (suc (suc (suc b)))))) = inl (inr (ground arith))

begun-Inv : Inv list_bits (nexus_copier disks disks_lawful whole) begun
begun-Inv = record {
  fits = record {
    walk_sound = omega arith;
    map_sound = omega arith;
    in_map = omega arith;
    whole = refl;
  };
  tracked = λ b l u. begun-tracked b;
}

copies :
    (copy_all list_bits (nexus_copier disks disks_lawful whole) begun (0 ∷ 2 ∷ 4 ∷ 6 ∷ [])).1
    ≡ ok tt
unfolding copy_all copy_segment is_blk_clean blk_clean set set_range get_bit lbn_to_seg mul64 add64
    sub64 list_set copy_locked get_segment_size_blks
copies = refl

abbrev copied : List ℕ → World list_bits (nexus_copier disks disks_lawful whole)
copied blks = (copy_all list_bits (nexus_copier disks disks_lawful whole) begun blks).0

nexus_rebuild_syncs_example :
    (r : PartialSeqRebuild list_bits) × (partial_seq_rebuild list_bits begun.map whole ≡ some r)
    × ((copy_all list_bits (nexus_copier disks disks_lawful whole) begun (drain list_bits 9 r)).1
          ≡ ok tt
        → (b : ℕ) → 0 ≤ b
        → b < 8
        → IsSynced disks (copied (drain list_bits 9 r)).devices b)
nexus_rebuild_syncs_example =
    nexus_rebuild_syncs list_bits disks disks_lawful whole 9 begun begun-Inv (0, refl) (omega arith)
      (omega arith)
