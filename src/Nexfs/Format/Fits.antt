-- ===== src/Nexfs/Format/Fits.antt =====
-- The layout that `format` computes is one that `validate` accepts.
use nix_os.Prelude.{ℕ, ◌≤◌, ◌<◌, ◌≡◌, refl, arith, List, ok}
use nix_os.Nexfs.Superblock.{validate, block_bitmap_blocks}
use nix_os.Nexfs.Superblock.Bounds.{IsLaidOut, validate-IsLaidOut}
use nix_os.Nexfs.Format.{new_superblock}

new_superblock-IsLaidOut :
    (total_blocks : ℕ) (uuid : List ℕ)
    → 32 ≤ total_blocks
    → IsLaidOut (new_superblock total_blocks uuid)
unfolding new_superblock block_bitmap_blocks
new_superblock-IsLaidOut total_blocks uuid enough = record {
  version = refl;
  block_size = refl;
  enough = enough;
  inode_bitmap = refl;
  block_bitmap = refl;
  some_bitmap = omega (arith, enough);
  all_blocks = omega arith;
  no_more_bitmap = omega (arith, enough);
  some_inodes = omega arith;
  few_inodes = omega arith;
  data_blocks = omega (arith, enough);
  root = refl;
}

-- From 32 blocks on, the superblock that `format` computes leaves room for data and is accepted by
-- `validate`: neither of the tests that follow its computation refuses a device that passed the first.
pub validate-new_superblock :
    (total_blocks : ℕ) (uuid : List ℕ)
    → 32 ≤ total_blocks
    → (validate (new_superblock total_blocks uuid) ≡ ok tt)
      × ((new_superblock total_blocks uuid).data_start_block < total_blocks)
unfolding new_superblock
validate-new_superblock total_blocks uuid enough =
    let laid_out = new_superblock-IsLaidOut total_blocks uuid enough in
    ((validate-IsLaidOut (new_superblock total_blocks uuid)).1 laid_out, laid_out.data_blocks)
