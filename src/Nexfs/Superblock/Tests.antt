-- ===== src/Nexfs/Superblock/Tests.antt =====
-- The superblock of a volume of 64 blocks, and the theorems at it.
use nix_os.Prelude.{
  ℕ, ◌-◌, ◌*◌, ◌<◌, ◌≤◌, ◌≡◌, ◌↔◌, refl, true, List, [], ◌∷◌, arith, length, slice, replicate,
  length-replicate, ok, err,
}
use nix_os.Nexfs.{FsError}
use nix_os.Nexfs.Superblock.{
  Superblock, encode, decode, validate, is_misplaced, block_bitmap_blocks, inode_count, count_of,
  is_clean,
}
use nix_os.Nexfs.Superblock.Bounds.{IsLaidOut, validate-IsLaidOut, inode_count-validate}
use nix_os.Nexfs.Superblock.Coding.{IsSuperblock, decode-encode}

abbrev small : Superblock
small = record {
  version = 1;
  block_size = 4096;
  total_blocks = 64;
  inode_bitmap_block = 2;
  block_bitmap_block = 3;
  inode_table_block = 4;
  data_start_block = 8;
  root_inode = 1;
  flags = 1;
  generation = 1;
  uuid = 1 ∷ 2 ∷ 3 ∷ 4 ∷ 5 ∷ 6 ∷ 7 ∷ 8 ∷ 9 ∷ 10 ∷ 11 ∷ 12 ∷ 13 ∷ 14 ∷ 15 ∷ 16 ∷ [];
}

small_valid : validate small ≡ ok tt
unfolding validate is_misplaced block_bitmap_blocks
small_valid = refl

refuses :
    (validate (record small { version = 2 }) ≡ err FsError.unsupported_version)
    × (validate (record small { data_start_block = 4 }) ≡ err FsError.invalid_layout)
    × (decode [] ≡ err FsError.unsupported_block_size)
    × (encode small [] ≡ err FsError.unsupported_block_size)
unfolding validate is_misplaced block_bitmap_blocks decode encode
refuses = (refl, refl, refl, refl)

counts : (inode_count small ≡ ok 64) × (is_clean small ≡ true)
unfolding inode_count count_of is_clean
counts = (refl, refl)

small-IsSuperblock : IsSuperblock small
small-IsSuperblock = record {
  version = omega arith;
  block_size = omega arith;
  total_blocks = omega arith;
  inode_bitmap_block = omega arith;
  block_bitmap_block = omega arith;
  inode_table_block = omega arith;
  data_start_block = omega arith;
  root_inode = omega arith;
  flags = omega arith;
  generation = omega arith;
  uuid = refl;
}

block : List ℕ
block = replicate 4096 0

length-block : length block ≡ 4096
unfolding block
length-block = length-replicate {A = ℕ} 4096 0

decode-encode_example :
    (written : List ℕ) × (encode small block ≡ ok written)
    × (length written ≡ length block)
    × ((k : ℕ) → slice 4096 k written ≡ slice 4096 k block)
    × (decode written ≡ ok small)
decode-encode_example =
    decode-encode small block small-IsSuperblock small_valid (omega (arith, length-block))

validate-IsLaidOut_example : validate small ≡ ok tt ↔ IsLaidOut small
validate-IsLaidOut_example = validate-IsLaidOut small

inode_count-validate_example :
    (count : ℕ) × (inode_count small ≡ ok count)
    × (count ≡ 16 * (small.data_start_block - small.inode_table_block))
    × (small.root_inode < count)
    × (count ≤ 32768)
    × (small.total_blocks ≤ 32768 * block_bitmap_blocks small)
inode_count-validate_example = inode_count-validate small small_valid
