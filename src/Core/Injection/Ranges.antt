-- ===== src/Core/Injection/Ranges.antt =====
-- Which I/Os an injection applies to.
use mayastor.Common.{
  ℕ, ◌+◌, ◌≤◌, ◌<◌, max, List, Bool, true, false, ◌&&◌, Option, ◌≡◌, ◌≢◌, ◌⊎◌, ◌↔◌, inl, inr, refl,
  arith,
}
use mayastor.Common.Words.{add64_exact, u64_mod}
use mayastor.Common.Text.{Text, same_text, same_text_refl, same_text_sound}
use mayastor.Core.Injection.{
  FaultDomain, nexus_child, block_device, bdev_io, FaultIoOperation, read_write, FaultIoStage,
  submission, completion, IoType, invalid, other, device_name, InjectIoCtx, with_iovs, same_domain,
  same_stage, is_valid, device_name_ok, name_of, io_type_ok, block_range_ok, Injection, applies,
}

-- An operation covers a type of I/O.
abbrev pub Covers : FaultIoOperation → IoType → Type 0
Covers op type_ =
    ((type_ ≡ IoType.read) × (op ≢ FaultIoOperation.write))
    ⊎ ((type_ ≡ IoType.write) × (op ≢ FaultIoOperation.read))

-- A block that lies in both of two ranges.
abbrev pub SharesBlock : ℕ → ℕ → ℕ → ℕ → Type 0
SharesBlock a b c d = (blk : ℕ) × (a ≤ blk) × (blk < b) × (c ≤ blk) × (blk < d)

and_true : (a b : Bool) → (a && b) ≡ true → (a ≡ true) × (b ≡ true)
and_true true b h = (refl, h)
and_true false b h = cc

same_domain_lem : (a b : FaultDomain) → (same_domain a b ≡ true) ↔ (a ≡ b)
same_domain_lem nexus_child nexus_child = ((λ h. refl), (λ h. refl))
same_domain_lem nexus_child block_device = ((λ h. cc), (λ h. cc))
same_domain_lem nexus_child bdev_io = ((λ h. cc), (λ h. cc))
same_domain_lem block_device nexus_child = ((λ h. cc), (λ h. cc))
same_domain_lem block_device block_device = ((λ h. refl), (λ h. refl))
same_domain_lem block_device bdev_io = ((λ h. cc), (λ h. cc))
same_domain_lem bdev_io nexus_child = ((λ h. cc), (λ h. cc))
same_domain_lem bdev_io block_device = ((λ h. cc), (λ h. cc))
same_domain_lem bdev_io bdev_io = ((λ h. refl), (λ h. refl))

same_stage_lem : (a b : FaultIoStage) → (same_stage a b ≡ true) ↔ (a ≡ b)
same_stage_lem submission submission = ((λ h. refl), (λ h. refl))
same_stage_lem submission completion = ((λ h. cc), (λ h. cc))
same_stage_lem completion submission = ((λ h. cc), (λ h. cc))
same_stage_lem completion completion = ((λ h. refl), (λ h. refl))

io_type_ok_sound :
    (op : FaultIoOperation) (t : IoType) (ctx : InjectIoCtx)
    → ctx.io_type ≡ t
    → io_type_ok ctx op ≡ true
    → Covers op t
unfolding io_type_ok
io_type_ok_sound FaultIoOperation.read IoType.read ctx e h = inl (refl, λ x. cc)
io_type_ok_sound FaultIoOperation.read IoType.write ctx e h = ground (arith, e, h)
io_type_ok_sound FaultIoOperation.read invalid ctx e h = ground (arith, e, h)
io_type_ok_sound FaultIoOperation.read other ctx e h = ground (arith, e, h)
io_type_ok_sound FaultIoOperation.write IoType.write ctx e h = inr (refl, λ x. cc)
io_type_ok_sound FaultIoOperation.write IoType.read ctx e h = ground (arith, e, h)
io_type_ok_sound FaultIoOperation.write invalid ctx e h = ground (arith, e, h)
io_type_ok_sound FaultIoOperation.write other ctx e h = ground (arith, e, h)
io_type_ok_sound read_write IoType.read ctx e h = inl (refl, λ x. cc)
io_type_ok_sound read_write IoType.write ctx e h = inr (refl, λ x. cc)
io_type_ok_sound read_write invalid ctx e h = ground (arith, e, h)
io_type_ok_sound read_write other ctx e h = ground (arith, e, h)

io_type_ok_complete :
    (op : FaultIoOperation) (ctx : InjectIoCtx) → Covers op ctx.io_type → io_type_ok ctx op ≡ true
unfolding io_type_ok
io_type_ok_complete FaultIoOperation.read ctx h = ground (arith, h)
io_type_ok_complete FaultIoOperation.write ctx h = ground (arith, h)
io_type_ok_complete read_write ctx h = ground (arith, h)

-- Two ranges that are not empty pass the test exactly if they share a block.
block_range_ok_lem :
    (ctx : InjectIoCtx) (start end : ℕ)
    → start < end
    → ctx.range_start < ctx.range_end
    → (block_range_ok ctx start end ≡ true) ↔ SharesBlock start end ctx.range_start ctx.range_end
unfolding block_range_ok
block_range_ok_lem ctx start end h k = (
  (λ e. (
    max start ctx.range_start,
    ground (arith, e),
    ground (arith, e),
    ground (arith, e),
    ground (arith, e),
  )),
  (λ (blk, p, q, r, s). ground (arith, p, q, r, s)),
)

same_text_lem : (s t : Text) → (same_text s t ≡ true) ↔ (s ≡ t)
same_text_lem s t = (same_text_sound s t, λ e. rw e (same_text_refl t))

-- An I/O that names its device.
abbrev pub io_on : FaultDomain → Text → IoType → ℕ → ℕ → Option (List (List ℕ)) → InjectIoCtx
io_on domain name type_ offset num_blocks iovs =
    with_iovs domain (device_name name) type_ offset num_blocks iovs

-- What an injection is meant for.
abbrev pub Targets :
    {N R : Type 0} → Injection N R → FaultIoStage → FaultDomain → Text → IoType → ℕ → ℕ → Type 0
Targets inj stage domain name type_ offset num_blocks =
    (domain ≡ inj.domain)
    × (stage ≡ inj.io_stage)
    × Covers inj.io_operation type_
    × (name ≡ inj.device_name)
    × SharesBlock inj.block_start inj.block_end offset (offset + num_blocks)

-- The context of an I/O whose end does not wrap.
abbrev plain_io : FaultDomain → Text → IoType → ℕ → ℕ → Option (List (List ℕ)) → InjectIoCtx
plain_io domain name type_ offset num_blocks iovs = record {
  ctx_domain = domain;
  dev = device_name name;
  range_start = offset;
  range_end = offset + num_blocks;
  io_type = type_;
  iovs = iovs;
}

with_iovs_exact :
    (domain : FaultDomain) (name : Text) (type_ : IoType) (offset num_blocks : ℕ)
    (iovs : Option (List (List ℕ)))
    → offset + num_blocks < u64_mod
    → io_on domain name type_ offset num_blocks iovs
      ≡ plain_io domain name type_ offset num_blocks iovs
unfolding with_iovs
with_iovs_exact domain name type_ offset num_blocks iovs lt =
    rw (add64_exact offset num_blocks lt) refl

module _ {N R : Type 0} (inj : Injection N R) (stage : FaultIoStage) (domain : FaultDomain)
    (name : Text) (type_ : IoType) (offset num_blocks : ℕ) (iovs : Option (List (List ℕ)))
    (wide : inj.block_start < inj.block_end) (long : 0 < num_blocks) where
  abbrev ctx : InjectIoCtx
  ctx = plain_io domain name type_ offset num_blocks iovs

  shares :
      (block_range_ok ctx inj.block_start inj.block_end ≡ true)
      ↔ SharesBlock inj.block_start inj.block_end offset (offset + num_blocks)
  shares = block_range_ok_lem ctx inj.block_start inj.block_end wide (omega (arith, long))

  applies_sound :
      applies stage ctx inj ≡ true → Targets inj stage domain name type_ offset num_blocks
  unfolding applies is_valid device_name_ok name_of
  applies_sound e =
      let (e1, overlap) = and_true _ _ e in
      let (e2, name_is) = and_true _ _ e1 in
      let (e3, type_is) = and_true _ _ e2 in
      let (same_dom, same_st) = and_true _ _ e3 in
      (
        (same_domain_lem domain inj.domain).0 same_dom,
        (same_stage_lem stage inj.io_stage).0 same_st,
        io_type_ok_sound inj.io_operation type_ ctx refl type_is,
        (same_text_lem name inj.device_name).0 name_is,
        shares.0 overlap,
      )

  applies_complete :
      Targets inj stage domain name type_ offset num_blocks → applies stage ctx inj ≡ true
  unfolding applies is_valid device_name_ok name_of
  applies_complete (d, s, t, n, blocks) =
      rw
        (
          (same_domain_lem domain inj.domain).1 d,
          (same_stage_lem stage inj.io_stage).1 s,
          io_type_ok_complete inj.io_operation ctx t,
          (same_text_lem name inj.device_name).1 n,
          shares.1 blocks,
        )
        refl

-- An injection with a range of blocks that is not empty applies to an I/O of at least one block,
-- within a u64, exactly if it is for its domain, stage, device and type, and for one of its blocks.
pub applies-Targets :
    {N R : Type 0} (inj : Injection N R) (stage : FaultIoStage) (domain : FaultDomain) (name : Text)
    (type_ : IoType) (offset num_blocks : ℕ) (iovs : Option (List (List ℕ)))
    → inj.block_start < inj.block_end
    → 0 < num_blocks
    → offset + num_blocks < u64_mod
    → (applies stage (io_on domain name type_ offset num_blocks iovs) inj ≡ true)
      ↔ Targets inj stage domain name type_ offset num_blocks
applies-Targets inj stage domain name type_ offset num_blocks iovs h k lt =
    rw (with_iovs_exact domain name type_ offset num_blocks iovs lt) (
      applies_sound inj stage domain name type_ offset num_blocks iovs h k,
      applies_complete inj stage domain name type_ offset num_blocks iovs h k,
    )
