-- ===== src/Nexfs/Superblock/Bounds.antt =====
-- What `validate` accepts: where the parts of a volume lie.
use nix_os.Prelude.{
  ℕ, ◌+◌, ◌-◌, ◌*◌, ◌^◌, ◌≤◌, ◌<◌, ◌≡◌, ◌↔◌, refl, true, false, arith, ltb, leb, ◌==◌, ok,
}
use nix_os.Nexfs.Superblock.{
  Superblock, validate, is_misplaced, block_bitmap_blocks, inode_count, count_of,
}

-- The superblock, the inode bitmap, the block bitmap, the inode table and the data follow one another
-- from block 1 to the end of the volume, and no part is empty. A bitmap block has 32768 bits and a block of
-- the table 16 inodes: the block bitmap has a bit for each block of the volume, and no block more than it
-- takes, and the one block of the inode bitmap a bit for each inode.
pub record IsLaidOut (s : Superblock) : Type 0 where
  pub version : s.version ≡ 1
  pub block_size : s.block_size ≡ 4096
  pub enough : 32 ≤ s.total_blocks
  pub inode_bitmap : s.inode_bitmap_block ≡ 2
  pub block_bitmap : s.block_bitmap_block ≡ 3
  pub some_bitmap : s.block_bitmap_block < s.inode_table_block
  pub all_blocks : s.total_blocks ≤ 32768 * (s.inode_table_block - s.block_bitmap_block)
  pub no_more_bitmap : 32768 * (s.inode_table_block - s.block_bitmap_block) < s.total_blocks + 32768
  pub some_inodes : s.inode_table_block < s.data_start_block
  pub few_inodes : 16 * (s.data_start_block - s.inode_table_block) ≤ 32768
  pub data_blocks : s.data_start_block < s.total_blocks
  pub root : s.root_inode ≡ 1

placed :
    (s : Superblock)
    → IsLaidOut s
    → is_misplaced s (s.data_start_block - s.inode_table_block) ≡ false
unfolding is_misplaced block_bitmap_blocks
placed s v = ground (
  arith, v.enough, v.inode_bitmap, v.block_bitmap, v.some_bitmap, v.all_blocks, v.no_more_bitmap,
  v.some_inodes, v.few_inodes, v.data_blocks, v.root,
)

validate_complete : (s : Superblock) → IsLaidOut s → validate s ≡ ok tt
unfolding validate
validate_complete s v =
    let a : (s.version == 1) ≡ true = ground (arith, v.version) in
    let b : (s.block_size == 4096) ≡ true = ground (arith, v.block_size) in
    let c : ltb s.data_start_block s.inode_table_block ≡ false = ground (arith, v.some_inodes) in
    rw a (rw b (rw c (rw (placed s v) refl)))

validate_sound : (s : Superblock) → validate s ≡ ok tt → IsLaidOut s
unfolding validate is_misplaced block_bitmap_blocks
validate_sound s h = record {
  version = ground arith;
  block_size = ground arith;
  enough = ground arith;
  inode_bitmap = ground arith;
  block_bitmap = ground arith;
  some_bitmap = ground arith;
  all_blocks = ground arith;
  no_more_bitmap = ground arith;
  some_inodes = ground arith;
  few_inodes = ground arith;
  data_blocks = ground arith;
  root = ground arith;
}

-- `validate` accepts a superblock if and only if the parts of the volume follow one another from block
-- 1 to its end, none of them empty, the block bitmap has as many blocks as it takes for a bit for each block
-- of the volume, and no more, the inode bitmap's one block has a bit for each inode of the table, there
-- are 32 blocks or more, and the version, the block size and the root's number are those of the format.
pub validate-IsLaidOut : (s : Superblock) → validate s ≡ ok tt ↔ IsLaidOut s
validate-IsLaidOut s = (validate_sound s, validate_complete s)

-- A superblock that `validate` accepts has an inode count: 16 for each block of the table, more than the
-- root's number and no more than one bitmap block has bits; and the block bitmap has a bit for each block
-- of the volume.
pub inode_count-validate :
    (s : Superblock)
    → validate s ≡ ok tt
    → (count : ℕ) × (inode_count s ≡ ok count)
      × (count ≡ 16 * (s.data_start_block - s.inode_table_block))
      × (s.root_inode < count)
      × (count ≤ 32768)
      × (s.total_blocks ≤ 32768 * block_bitmap_blocks s)
unfolding inode_count count_of block_bitmap_blocks
inode_count-validate s h =
    let v = validate_sound s h in
    let blocks = s.data_start_block - s.inode_table_block in
    let a : ltb s.data_start_block s.inode_table_block ≡ false = ground (arith, v.some_inodes) in
    let b : leb (2 ^ 64) (blocks * 16) ≡ false = ground (arith, v.few_inodes) in
    let c : ltb s.root_inode (blocks * 16) ≡ true = ground (arith, v.some_inodes, v.root) in
    let d : leb (blocks * 16) 32768 ≡ true = ground (arith, v.few_inodes) in
    (
      blocks * 16,
      rw (inode_count, a) (rw (count_of, b) (rw c (rw d refl))),
      omega arith,
      omega (arith, v.some_inodes, v.root),
      omega (arith, v.few_inodes),
      omega arith,
    )
