-- ===== src/Nexfs/Blocks/Tests.antt =====
-- Bitmaps, owners and blocks of a small volume, and the theorems at them.
use nix_os.Prelude.{
  ℕ, ◌+◌, ◌⊎◌, ◌<◌, ◌≤◌, ◌≡◌, refl, true, false, none, List, [], ◌∷◌, arith, length, get_or, slice,
  replicate, length-replicate, ok, err, if◌then◌else◌, ◌==◌,
}
use nix_os.Storage.Device.{MemoryBlockDevice, memory_device}
use nix_os.Nexfs.{FsError}
use nix_os.Nexfs.Layout.{FileType, Inode, data_blocks_for_size}
use nix_os.Nexfs.Superblock.{
  inode_count, count_of, Superblock, validate, is_misplaced, block_bitmap_blocks,
}
use nix_os.Nexfs.Superblock.Coding.{IsSuperblock}
use nix_os.Nexfs.Blocks.{
  bitmap_bit, set_bitmap_bit, with_bit, own, claim_data_block, claim_pointer, claim_pointers,
  sectors_per_block, device_bytes, read_block, read_superblock, write_superblock, read_inode,
  validate_inode_blocks, pointer_at, read_chunks, read_indirect, read_all_inode_data,
  inspect_superblock,
}
use nix_os.Nexfs.Blocks.Bitmap.{bitmap_bit-set_bitmap_bit}
use nix_os.Nexfs.Blocks.Claims.{Claimed, claim_pointers-Claimed}
use nix_os.Nexfs.Blocks.Stored.{IsWritable, read_superblock-write_superblock}

abbrev bitmap : List ℕ
bitmap = 255 ∷ 3 ∷ []

sets :
    (set_bitmap_bit bitmap 10 true ≡ ok (255 ∷ 7 ∷ []))
    × (set_bitmap_bit bitmap 0 false ≡ ok (254 ∷ 3 ∷ []))
    × (set_bitmap_bit bitmap 16 true ≡ err FsError.invalid_layout)
    × (bitmap_bit bitmap 9 ≡ ok true)
    × (bitmap_bit bitmap 10 ≡ ok false)
unfolding set_bitmap_bit with_bit bitmap_bit
sets = (refl, refl, refl, refl, refl)

bitmap_bytes : (i : ℕ) → get_or bitmap i 0 < 256
bitmap_bytes i = ground arith

bitmap_bit-set_bitmap_bit_example :
    (bitmap' : List ℕ) × (set_bitmap_bit bitmap 10 true ≡ ok bitmap')
    × (length bitmap' ≡ length bitmap)
    × ((i : ℕ) → get_or bitmap' i 0 < 256)
    × ((other : ℕ)
        → bitmap_bit bitmap' other ≡ (if 10 == other then ok true else bitmap_bit bitmap other))
bitmap_bit-set_bitmap_bit_example =
    bitmap_bit-set_bitmap_bit bitmap 10 true bitmap_bytes (omega arith)

-- a volume whose data part is the blocks 8 to 63
abbrev volume : Superblock
volume = record {
  version = 1;
  block_size = 4096;
  total_blocks = 64;
  inode_bitmap_block = 2;
  block_bitmap_block = 3;
  inode_table_block = 4;
  data_start_block = 8;
  root_inode = 1;
  flags = 1;
  generation = 1;
  uuid = replicate 16 0;
}

abbrev owners : List ℕ
owners = 1 ∷ 1 ∷ 1 ∷ 1 ∷ 1 ∷ 1 ∷ 1 ∷ 1 ∷ 0 ∷ 0 ∷ 0 ∷ []

abbrev owned : List ℕ
owned = 1 ∷ 1 ∷ 1 ∷ 1 ∷ 1 ∷ 1 ∷ 1 ∷ 1 ∷ 2 ∷ 2 ∷ 0 ∷ []

claims : claim_pointers volume bitmap 2 0 (9 ∷ 8 ∷ 0 ∷ []) owners ≡ ok owned
unfolding claim_pointers claim_pointer claim_data_block own bitmap_bit
claims = refl

refuses :
    (claim_pointers volume bitmap 2 0 (9 ∷ 9 ∷ 0 ∷ []) owners ≡ err FsError.invalid_layout)
    × (claim_pointers volume bitmap 2 0 (9 ∷ 10 ∷ 0 ∷ []) owners ≡ err FsError.invalid_layout)
    × (claim_pointers volume bitmap 1 0 (9 ∷ 8 ∷ 0 ∷ []) owners ≡ err FsError.corrupt_inode)
unfolding claim_pointers claim_pointer claim_data_block own bitmap_bit
refuses = (refl, refl, refl)

claim_pointers-Claimed_example : Claimed volume bitmap 2 0 (9 ∷ 8 ∷ 0 ∷ []) owners owned
claim_pointers-Claimed_example =
    claim_pointers-Claimed volume bitmap 2 0 (9 ∷ 8 ∷ 0 ∷ []) owners owned claims

zeros : List ℕ
zeros = replicate 8192 0

length-zeros : length zeros ≡ 8192
unfolding zeros
length-zeros = length-replicate {A = ℕ} 8192 0

abbrev disk : MemoryBlockDevice
disk = record { bytes = zeros; size = 512; is_read_only = false }

disk-IsWritable : IsWritable disk
disk-IsWritable = record {
  writable = refl;
  some_size = omega arith;
  divides = refl;
  long = omega (arith, length-zeros);
  small = omega (arith, length-zeros);
}

volume-IsSuperblock : IsSuperblock volume
volume-IsSuperblock = record {
  version = omega arith;
  block_size = omega arith;
  total_blocks = omega arith;
  inode_bitmap_block = omega arith;
  block_bitmap_block = omega arith;
  inode_table_block = omega arith;
  data_start_block = omega arith;
  root_inode = omega arith;
  flags = omega arith;
  generation = omega arith;
  uuid = refl;
}

volume_valid : validate volume ≡ ok tt
unfolding validate is_misplaced block_bitmap_blocks
volume_valid = refl

read_superblock-write_superblock_example :
    let (r, d') = write_superblock memory_device volume disk in
    (r ≡ ok tt)
    × ((read_superblock memory_device d').0 ≡ ok volume)
    × ((start k : ℕ)
        → (start + k ≤ 4096) ⊎ (8192 ≤ start)
        → slice start k d'.bytes ≡ slice start k disk.bytes)
read_superblock-write_superblock_example =
    read_superblock-write_superblock disk volume disk-IsWritable volume-IsSuperblock volume_valid

-- a disk too small for a volume
abbrev scrap : MemoryBlockDevice
scrap = record { bytes = 1 ∷ 2 ∷ []; size = 512; is_read_only = false }

measures :
    (sectors_per_block memory_device disk ≡ ok 8)
    × (sectors_per_block memory_device (record disk { size = 0 })
        ≡ err FsError.unsupported_block_size)
    × (device_bytes memory_device scrap ≡ ok 0)
unfolding sectors_per_block device_bytes
measures = (refl, refl, refl)

abbrev file : Inode
file = record {
  kind = FileType.regular;
  permissions = 420;
  size = 5000;
  created = 1;
  modified = 1;
  direct_blocks = 9 ∷ 8 ∷ 0 ∷ 0 ∷ 0 ∷ 0 ∷ 0 ∷ 0 ∷ 0 ∷ 0 ∷ 0 ∷ 0 ∷ [];
  indirect_block = 0;
  block_count = 2;
  generation = 1;
}

validates :
    (validate_inode_blocks memory_device volume bitmap owners file scrap ≡ (ok owned, scrap))
    × ((validate_inode_blocks memory_device volume bitmap owners
          (record file { block_count = 3 })
          scrap).0
        ≡ err FsError.corrupt_inode)
    × ((validate_inode_blocks memory_device volume bitmap owners
          (record file { indirect_block = 3 })
          scrap).0
        ≡ err FsError.corrupt_inode)
unfolding validate_inode_blocks data_blocks_for_size claim_pointers claim_pointer claim_data_block
    own bitmap_bit
validates = (refl, refl, refl)

fails :
    ((read_block memory_device volume 64 4096 scrap).0 ≡ err FsError.invalid_layout)
    × ((read_inode memory_device volume 64 scrap).0 ≡ err FsError.invalid_layout)
    × (read_indirect memory_device volume file scrap ≡ (ok none, scrap))
    × ((read_all_inode_data memory_device volume (record file { size = 0 }) scrap).0 ≡ ok [])
    × (pointer_at memory_device file none 1 ≡ ok 8)
    × (pointer_at memory_device file none 12 ≡ err FsError.corrupt_inode)
    × (read_chunks memory_device volume file none 0 0 0 scrap ≡ (ok [], scrap))
    × ((inspect_superblock memory_device (record scrap { size = 0 })).0
        ≡ err FsError.unsupported_block_size)
unfolding read_block sectors_per_block read_inode inode_count count_of read_indirect
    read_all_inode_data pointer_at read_chunks inspect_superblock read_superblock write_superblock
fails = (refl, refl, refl, refl, refl, refl, refl, refl)
