-- ===== src/Nexfs/Format.antt =====
-- crates/nexfs/src/lib.rs: `format`, which lays a volume out on a device.
-- No product of a block and the sectors of a block overflows, since the bytes of the device do not.
pub mod Fits
mod Tests
use nix_os.Prelude.{
  ℕ, zero, suc, ◌+◌, ◌-◌, ◌*◌, ◌/◌, ◌^◌, min, max, Bool, true, ◌||◌, List, ltb, leb, ◌==◌,
  if◌then◌else◌, replicate, splice, Result, ok, err, map_ok, refuse_if,
}
use Prim.Native.Nat.{bit_and}
use nix_os.Storage.Device.{BlockDevice}
use nix_os.Nexfs.{FsError, too_small, too_large}
use nix_os.Nexfs.Io.{Io, pure, lift, ask, from_storage, ◌>>=◌, ◌>>◌}
use nix_os.Nexfs.Layout.{FileType, new_inode, encode_inode, block_size, inode_size}
use nix_os.Nexfs.Superblock.{
  Superblock, validate, block_bitmap_blocks, min_blocks, bitmap_bits_per_block,
  max_inode_table_blocks,
}
use nix_os.Nexfs.Blocks.{set_bitmap_bit, sectors_per_block, device_bytes, write_superblock}

-- `total_blocks.div_ceil(BITMAP_BITS_PER_BLOCK)` and `(total_blocks / 256).clamp(4, ..)`
abbrev pub bitmap_blocks_for : ℕ → ℕ
bitmap_blocks_for total_blocks =
    (total_blocks + (bitmap_bits_per_block - 1)) / bitmap_bits_per_block

abbrev pub table_blocks_for : ℕ → ℕ
table_blocks_for total_blocks = min (max (total_blocks / 256) 4) max_inode_table_blocks

pub new_superblock : ℕ → List ℕ → Superblock
new_superblock total_blocks uuid = record {
  version = 1;
  block_size = block_size;
  total_blocks = total_blocks;
  inode_bitmap_block = 2;
  block_bitmap_block = 3;
  inode_table_block = 3 + bitmap_blocks_for total_blocks;
  data_start_block = 3 + bitmap_blocks_for total_blocks + table_blocks_for total_blocks;
  root_inode = 1;
  flags = 1;
  generation = 1;
  uuid = uuid;
}

-- `flags &= !CLEAN_FLAG`
abbrev pub made_dirty : Superblock → Superblock
made_dirty s = record s { flags = bit_and s.flags (2 ^ 32 - 1 - 1) }

-- the bits from `bit` on, `n` of them
pub set_bits : (n bit : ℕ) → List ℕ → Result FsError (List ℕ)
set_bits zero bit bitmap = ok bitmap
set_bits (suc n) bit bitmap = elim (set_bitmap_bit bitmap bit true) [
  | err e ↦ err e
  | ok bitmap' ↦ set_bits n (bit + 1) bitmap'
]

-- the contents of block `index` of the block bitmap: the blocks before the data are taken
pub reserved_bits : Superblock → ℕ → Result FsError (List ℕ)
reserved_bits s index =
    let first_bit = index * bitmap_bits_per_block in
    if leb (2 ^ 64) first_bit || leb (2 ^ 64) (first_bit + bitmap_bits_per_block)
    then err too_large
    else set_bits (min s.data_start_block (first_bit + bitmap_bits_per_block) - first_bit) 0
        (replicate block_size 0)

-- the first block of the inode table, which holds the root
pub root_block : Superblock → Result FsError (List ℕ)
root_block s =
    map_ok (λ root. splice inode_size root (replicate block_size 0))
      (encode_inode (new_inode FileType.directory 493 s.generation) (replicate inode_size 0))

module _ {D : Type 0} (dev : BlockDevice D) where
  pub write_block : (sectors block : ℕ) → List ℕ → Io D Unit
  write_block sectors block bytes = from_storage (dev.write_sectors (block * sectors) bytes)

  -- the loop over the blocks from `block` on, `n` of them
  pub zero_blocks : (n sectors block : ℕ) → Io D Unit
  zero_blocks zero sectors block = pure tt
  zero_blocks (suc n) sectors block = do
    write_block sectors block (replicate block_size 0)
    zero_blocks n sectors (block + 1)

  pub write_bitmaps : (n sectors index : ℕ) → Superblock → Io D Unit
  write_bitmaps zero sectors index s = pure tt
  write_bitmaps (suc n) sectors index s = do
    bitmap ← lift (reserved_bits s index)
    write_block sectors (s.block_bitmap_block + index) bitmap
    write_bitmaps n sectors (index + 1) s

  -- what `format` writes between the two superblocks
  pub write_layout : ℕ → Superblock → Io D Unit
  write_layout sectors s = do
    zero_blocks (s.data_start_block - s.inode_bitmap_block) sectors s.inode_bitmap_block
    inode_bitmap ← lift (set_bits 1 0 (replicate block_size 0))
    inode_bitmap ← lift (set_bitmap_bit inode_bitmap s.root_inode true)
    write_block sectors s.inode_bitmap_block inode_bitmap
    write_bitmaps (block_bitmap_blocks s) sectors 0 s
    inode_block ← lift (root_block s)
    write_block sectors s.inode_table_block inode_block

  pub format : List ℕ → Io D Superblock
  format uuid = do
    sectors ← ask (sectors_per_block dev)
    bytes ← ask (device_bytes dev)
    lift (refuse_if (ltb (bytes / block_size) min_blocks) too_small)
    s ← pure (new_superblock (bytes / block_size) uuid)
    lift (refuse_if (leb s.total_blocks s.data_start_block) too_small)
    lift (validate s)
    write_superblock dev (made_dirty s)
    from_storage dev.flush
    write_layout sectors s
    write_superblock dev s
    from_storage dev.flush
    pure s
