-- ===== src/Nexfs/Format/Tests.antt =====
-- Small volumes, and the theorem at one.
use nix_os.Prelude.{◌^◌, ◌<◌, ◌≡◌, refl, true, [], ◌∷◌, arith, ok, err}
use nix_os.Storage.Device.{MemoryBlockDevice, memory_device}
use nix_os.Nexfs.{FsError}
use nix_os.Nexfs.Superblock.{validate}
use nix_os.Nexfs.Blocks.{sectors_per_block, device_bytes, set_bitmap_bit, with_bit}
use nix_os.Nexfs.Format.{
  new_superblock, set_bits, reserved_bits, root_block, write_block, zero_blocks, write_bitmaps,
  write_layout, format,
}
use nix_os.Nexfs.Format.Fits.{validate-new_superblock}

places :
    ((new_superblock 64 []).data_start_block ≡ 8)
    × ((new_superblock 1000000 []).inode_table_block ≡ 34)
    × (set_bits 10 0 (0 ∷ 0 ∷ []) ≡ ok (255 ∷ 3 ∷ []))
    × (set_bits 1 16 (0 ∷ 0 ∷ []) ≡ err FsError.invalid_layout)
    × (reserved_bits (new_superblock 64 []) (2 ^ 60) ≡ err FsError.too_large)
unfolding new_superblock set_bits set_bitmap_bit with_bit reserved_bits
places = (refl, refl, refl, refl, refl)

abbrev scrap : MemoryBlockDevice
scrap = record { bytes = 1 ∷ 2 ∷ []; size = 512; is_read_only = true }

refuses :
    ((format memory_device [] scrap).0 ≡ err FsError.too_small)
    × ((format memory_device [] (record scrap { size = 0 })).0 ≡ err FsError.unsupported_block_size)
    × ((zero_blocks memory_device 0 8 2 scrap).0 ≡ ok tt)
    × ((write_bitmaps memory_device 0 8 0 (new_superblock 64 []) scrap).0 ≡ ok tt)
unfolding format write_layout write_block zero_blocks write_bitmaps sectors_per_block device_bytes
    root_block
refuses = (refl, refl, refl, refl)

validate-new_superblock_example :
    (validate (new_superblock 32 []) ≡ ok tt) × ((new_superblock 32 []).data_start_block < 32)
validate-new_superblock_example = validate-new_superblock 32 [] (omega arith)
