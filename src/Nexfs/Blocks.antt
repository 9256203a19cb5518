-- ===== src/Nexfs/Blocks.antt =====
-- crates/nexfs/src/lib.rs: the blocks of a volume, its superblock and inodes on the device, the bitmaps,
-- and the check of the blocks of one inode.
-- A product or a sum of `u64` that the source does not check wraps here.
pub mod Bitmap
pub mod Claims
pub mod Stored
mod Tests
use nix_os.Prelude.{
  ℕ, zero, suc, ◌+◌, ◌-◌, ◌*◌, ◌/◌, ◌%◌, ◌^◌, min, ◌||◌, ◌&&◌, not, Bool, true, false, List, [],
  ◌∷◌, ◌++◌, ltb, leb, ◌==◌, if◌then◌else◌, Option, none, some, map_ok, ok_or, length, get_or, set,
  take, slice, replicate, Result, ok, err, refuse_if,
}
use Prim.Native.Nat.{bit_and, bit_or}
use nix_os.Storage.Device.{BlockDevice}
use nix_os.Nexfs.{
  FsError, unsupported_block_size, too_small, invalid_layout, corrupt_inode, dirty, file_too_large,
}
use nix_os.Nexfs.Io.{Io, pure, lift, ask, from_storage, ◌>>=◌, ◌>>◌}
use nix_os.Nexfs.Layout.{
  is_dir, Inode, decode_inode, get_le, get_blocks, block_size, inode_size, direct_block_count,
  data_blocks_for_size,
}
use nix_os.Nexfs.Superblock.{Superblock, encode, decode, is_clean, inode_count}

abbrev pub superblock_block : ℕ
superblock_block = 1

abbrev pub indirect_pointers : ℕ
indirect_pointers = 512

abbrev pub max_file_blocks : ℕ
max_file_blocks = 524

-- `1_u8 << shift`
abbrev pub bit_of : ℕ → ℕ
bit_of bit = 2 ^ (bit % 8)

pub bitmap_bit : List ℕ → ℕ → Result FsError Bool
bitmap_bit bitmap bit =
    if ltb (bit / 8) (length bitmap)
    then ok (not (bit_and (get_or bitmap (bit / 8) 0) (bit_of bit) == 0))
    else err invalid_layout

-- the byte that `set_bitmap_bit` leaves; `!mask` of a byte is `255 - mask`
unfoldable pub with_bit : ℕ → ℕ → Bool → ℕ
with_bit byte mask true = bit_or byte mask
with_bit byte mask false = bit_and byte (255 - mask)

unfoldable pub set_bitmap_bit : List ℕ → ℕ → Bool → Result FsError (List ℕ)
set_bitmap_bit bitmap bit value =
    if ltb (bit / 8) (length bitmap)
    then ok (set bitmap (bit / 8) (with_bit (get_or bitmap (bit / 8) 0) (bit_of bit) value))
    else err invalid_layout

-- `!bitmap_bit(block_bitmap, block)?` as a refusal
abbrev pub refuse_free : Result FsError Bool → Result FsError Unit
refuse_free (err e) = err e
refuse_free (ok bit) = refuse_if (not bit) invalid_layout

-- `*owner = 2` of the block's owner, which is 0 so far
pub own : List ℕ → ℕ → Result FsError (List ℕ)
own owners block =
    if ltb block (length owners)
    then if get_or owners block 0 == 0 then ok (set owners block 2) else err invalid_layout
    else err invalid_layout

pub claim_data_block : Superblock → List ℕ → List ℕ → ℕ → Result FsError (List ℕ)
claim_data_block s bitmap owners block =
    if ltb block s.data_start_block || leb s.total_blocks block
    then err invalid_layout
    else elim (refuse_free (bitmap_bit bitmap block)) [ err e ↦ err e | ok u ↦ own owners block ]

-- one round of a loop over pointers: the first `count` are claimed, the others are 0
pub claim_pointer : Superblock → List ℕ → ℕ → ℕ → List ℕ → ℕ → Result FsError (List ℕ)
claim_pointer s bitmap count index owners pointer =
    if ltb index count
    then claim_data_block s bitmap owners pointer
    else if pointer == 0
    then ok owners
    else err corrupt_inode

pub claim_pointers : Superblock → List ℕ → ℕ → ℕ → List ℕ → List ℕ → Result FsError (List ℕ)
claim_pointers s bitmap count index [] owners = ok owners
claim_pointers s bitmap count index (pointer ∷ pointers) owners =
    elim (claim_pointer s bitmap count index owners pointer) [
      | err e ↦ err e
      | ok owners' ↦ claim_pointers s bitmap count (index + 1) pointers owners'
    ]

module _ {D : Type 0} (dev : BlockDevice D) where
  unfoldable pub sectors_per_block : D → Result FsError ℕ
  sectors_per_block d =
      if dev.sector_size d == 0 || not (block_size % dev.sector_size d == 0)
      then err unsupported_block_size
      else ok (block_size / dev.sector_size d)

  unfoldable pub device_bytes : D → Result FsError ℕ
  device_bytes d =
      if leb (2 ^ 64) (dev.sector_count d * dev.sector_size d)
      then err too_small
      else ok (dev.sector_count d * dev.sector_size d)

  -- `len` is the length of the caller's buffer.
  pub read_block : Superblock → ℕ → ℕ → Io D (List ℕ)
  read_block s block len = do
    lift (refuse_if (not (len == block_size) || leb s.total_blocks block) invalid_layout)
    sectors ← ask sectors_per_block
    from_storage (dev.read_sectors (block * sectors % 2 ^ 64) len)

  pub read_superblock : Io D Superblock
  read_superblock = do
    sectors ← ask sectors_per_block
    block ← from_storage (dev.read_sectors (superblock_block * sectors) block_size)
    lift (decode block)

  pub write_superblock : Superblock → Io D Unit
  write_superblock s = do
    sectors ← ask sectors_per_block
    block ← lift (encode s (replicate block_size 0))
    from_storage (dev.write_sectors (superblock_block * sectors) block)

  pub read_inode : Superblock → ℕ → Io D Inode
  read_inode s number = do
    count ← lift (inode_count s)
    lift (refuse_if (leb count number || leb (2 ^ 64) (number * inode_size)) invalid_layout)
    block ←
        read_block s ((s.inode_table_block + number * inode_size / block_size) % 2 ^ 64) block_size
    lift (decode_inode (slice (number * inode_size % block_size) inode_size block))

  -- the blocks that an inode points to through its indirect block
  claim_indirect : Superblock → List ℕ → ℕ → Inode → List ℕ → Io D (List ℕ)
  claim_indirect s bitmap expected inode owners = do
    owners ← lift (claim_data_block s bitmap owners inode.indirect_block)
    pointers ← read_block s inode.indirect_block block_size
    lift (
        claim_pointers s bitmap (expected - direct_block_count) 0
          (get_blocks indirect_pointers 0 pointers) owners)

  -- The owners that are left stand for the `owners` that the source writes to.
  pub validate_inode_blocks : Superblock → List ℕ → List ℕ → Inode → Io D (List ℕ)
  validate_inode_blocks s bitmap owners inode = do
    lift (
        refuse_if
          (not (data_blocks_for_size inode.size == inode.block_count)
            || ltb max_file_blocks (data_blocks_for_size inode.size))
          corrupt_inode)
    owners ← lift (
        claim_pointers s bitmap (min (data_blocks_for_size inode.size) direct_block_count) 0
          inode.direct_blocks owners)
    if leb (data_blocks_for_size inode.size) direct_block_count
        then lift (if inode.indirect_block == 0 then ok owners else err corrupt_inode)
        else claim_indirect s bitmap (data_blocks_for_size inode.size) inode owners

  -- `block_number` of the chunk at `index`; one past the pointers of the indirect block panics in the
  -- source, and `validate_inode_blocks` refuses an inode that has one.
  pub pointer_at : Inode → Option (List ℕ) → ℕ → Result FsError ℕ
  pointer_at inode indirect index =
      if ltb index direct_block_count
      then ok (get_or inode.direct_blocks index 0)
      else map_ok (λ pointers. get_le 8 pointers ((index - direct_block_count) * 8))
          (ok_or corrupt_inode indirect)

  -- the loop over the chunks of the output, of which `remaining` bytes are left
  pub read_chunks :
      Superblock → Inode → Option (List ℕ) → (chunks index remaining : ℕ) → Io D (List ℕ)
  read_chunks s inode indirect zero index remaining = pure []
  read_chunks s inode indirect (suc chunks) index remaining = do
    pointer ← lift (pointer_at inode indirect index)
    block ← read_block s pointer block_size
    rest ← read_chunks s inode indirect chunks (index + 1) (remaining - block_size)
    pure (take (min block_size remaining) block ++ rest)

  pub read_indirect : Superblock → Inode → Io D (Option (List ℕ))
  read_indirect s inode =
      if ltb direct_block_count inode.block_count
      then (read_block s inode.indirect_block block_size >>= λ pointers. pure (some pointers))
      else pure none

  pub read_all_inode_data : Superblock → Inode → Io D (List ℕ)
  read_all_inode_data s inode =
      if inode.size == 0
      then pure []
      else (read_indirect s inode >>= λ indirect.
          read_chunks s inode indirect (data_blocks_for_size inode.size) 0 inode.size)

  pub inspect_superblock : Io D Superblock
  inspect_superblock = do
    s ← read_superblock
    lift (refuse_if (not (is_clean s)) dirty)
    bytes ← ask device_bytes
    lift (refuse_if (ltb (bytes / block_size) s.total_blocks) invalid_layout)
    inode_bitmap ← read_block s s.inode_bitmap_block block_size
    lift (refuse_free (bitmap_bit inode_bitmap 0))
    lift (refuse_free (bitmap_bit inode_bitmap s.root_inode))
    root ← read_inode s s.root_inode
    lift (refuse_if (not (is_dir root.kind)) invalid_layout)
    pure s
