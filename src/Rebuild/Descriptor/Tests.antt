-- ===== src/Rebuild/Descriptor/Tests.antt =====
-- A descriptor for two devices of a thousand blocks.
use mayastor.Common.{◌≡◌, refl, false, none, ok, arith}
use mayastor.Rebuild.Descriptor.{
  RebuildDescriptor, BlockDevice, ignore, normal, new, within_range, validate,
}
use mayastor.Rebuild.Descriptor.Created.{IsWithin, new-IsWithin}

abbrev disk : BlockDevice
disk = record { num_blocks = 1000; block_len = 512; size_in_bytes = 512000 }

abbrev whole : RebuildDescriptor
whole = record {
  block_size = 512;
  range = record { start = 0; end = 1000 };
  verify_mode = ignore;
  read_opts = normal;
  segment_size_blks = 128;
}

whole_made : new 65536 disk disk false none ignore normal ≡ ok whole
unfolding new validate within_range
whole_made = refl

new-IsWithin_example : IsWithin disk disk whole
new-IsWithin_example =
    new-IsWithin 65536 disk disk false none ignore normal (omega arith) (omega arith) whole_made
