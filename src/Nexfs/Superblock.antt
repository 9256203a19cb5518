-- ===== src/Nexfs/Superblock.antt =====
-- crates/nexfs/src/lib.rs: the superblock, which says where the parts of a volume lie.
pub mod Bounds
pub mod Coding
mod Tests
use nix_os.Prelude.{
  ℕ, ◌+◌, ◌-◌, ◌*◌, ◌/◌, ◌^◌, ◌||◌, ◌&&◌, not, Bool, Option, none, some, List, [], ◌∷◌, ltb, leb,
  ◌==◌, if◌then◌else◌, length, slice, to_le, bytes_eq, write_all, Result, ok, err, ok_or, refuse_if,
  ◌>>=◌, ◌>>◌,
}
use Prim.Native.Nat.{bit_and}
use nix_os.Nexfs.{
  FsError, unsupported_block_size, invalid_magic, unsupported_version, invalid_layout,
  checksum_mismatch,
}
use nix_os.Nexfs.Layout.{get_le, cleared, seal, is_sealed, block_size}

-- b"NEXFS\x01\0\0"
abbrev pub magic : List ℕ
magic = b'N' ∷ b'E' ∷ b'X' ∷ b'F' ∷ b'S' ∷ 1 ∷ 0 ∷ 0 ∷ []

abbrev pub min_blocks : ℕ
min_blocks = 32

abbrev pub inodes_per_block : ℕ
inodes_per_block = 16

abbrev pub bitmap_bits_per_block : ℕ
bitmap_bits_per_block = 32768

abbrev pub max_inode_table_blocks : ℕ
max_inode_table_blocks = 2048

pub record Superblock : Type 0 where
  pub version : ℕ
  pub block_size : ℕ
  pub total_blocks : ℕ
  pub inode_bitmap_block : ℕ
  pub block_bitmap_block : ℕ
  pub inode_table_block : ℕ
  pub data_start_block : ℕ
  pub root_inode : ℕ
  pub flags : ℕ
  pub generation : ℕ
  pub uuid : List ℕ

-- the writes of `encode`, the empty checksum last
pub superblock_writes : Superblock → List (ℕ × List ℕ)
superblock_writes s =
    (0, magic)
    ∷ (8, to_le 4 s.version)
    ∷ (12, to_le 4 s.block_size)
    ∷ (16, to_le 8 s.total_blocks)
    ∷ (24, to_le 8 s.inode_bitmap_block)
    ∷ (32, to_le 8 s.block_bitmap_block)
    ∷ (40, to_le 8 s.inode_table_block)
    ∷ (48, to_le 8 s.data_start_block)
    ∷ (56, to_le 8 s.root_inode)
    ∷ (64, to_le 4 s.flags)
    ∷ (72, to_le 8 s.generation)
    ∷ (80, s.uuid)
    ∷ (96, to_le 4 0)
    ∷ []

pub encode : Superblock → List ℕ → Result FsError (List ℕ)
encode s output =
    if ltb (length output) block_size
    then err unsupported_block_size
    else ok (seal 100 96 (write_all (superblock_writes s) (cleared block_size output)))

-- `total_blocks.div_ceil(BITMAP_BITS_PER_BLOCK)`
unfoldable pub block_bitmap_blocks : Superblock → ℕ
block_bitmap_blocks s = (s.total_blocks + (bitmap_bits_per_block - 1)) / bitmap_bits_per_block

abbrev pub checked_sub : ℕ → ℕ → Option ℕ
checked_sub a b = if ltb a b then none else some (a - b)

-- the last condition of `validate`, with the `inode_table_blocks` computed before it
unfoldable pub is_misplaced : Superblock → ℕ → Bool
is_misplaced s inode_table_blocks =
    ltb s.total_blocks min_blocks
    || not (s.inode_bitmap_block == 2)
    || not (s.block_bitmap_block == 3)
    || not (s.inode_table_block == s.block_bitmap_block + block_bitmap_blocks s)
    || inode_table_blocks == 0
    || ltb max_inode_table_blocks inode_table_blocks
    || leb s.total_blocks s.data_start_block
    || not (s.root_inode == 1)

unfoldable pub validate : Superblock → Result FsError Unit
validate s = do
  refuse_if (not (s.version == 1)) unsupported_version
  refuse_if (not (s.block_size == block_size)) unsupported_block_size
  inode_table_blocks ← ok_or invalid_layout (checked_sub s.data_start_block s.inode_table_block)
  refuse_if (is_misplaced s inode_table_blocks) invalid_layout

-- the superblock that the fields of `input` make
pub superblock_at : List ℕ → Superblock
superblock_at input = record {
  version = get_le 4 input 8;
  block_size = get_le 4 input 12;
  total_blocks = get_le 8 input 16;
  inode_bitmap_block = get_le 8 input 24;
  block_bitmap_block = get_le 8 input 32;
  inode_table_block = get_le 8 input 40;
  data_start_block = get_le 8 input 48;
  root_inode = get_le 8 input 56;
  flags = get_le 4 input 64;
  generation = get_le 8 input 72;
  uuid = slice 80 16 input;
}

pub decode : List ℕ → Result FsError Superblock
decode input = do
  refuse_if (ltb (length input) block_size) unsupported_block_size
  refuse_if (not (bytes_eq (slice 0 8 input) magic)) invalid_magic
  refuse_if (not (is_sealed 100 96 input)) checksum_mismatch
  validate (superblock_at input)
  ok (superblock_at input)

pub is_clean : Superblock → Bool
is_clean s = not (bit_and s.flags 1 == 0)

-- `blocks.checked_mul(INODES_PER_BLOCK)` and the filter of the count
unfoldable pub count_of : Superblock → ℕ → Option ℕ
count_of s blocks =
    let count = blocks * inodes_per_block in
    if leb (2 ^ 64) count
    then none
    else if ltb s.root_inode count && leb count bitmap_bits_per_block
    then some count
    else none

unfoldable pub inode_count : Superblock → Result FsError ℕ
inode_count s = elim (checked_sub s.data_start_block s.inode_table_block) [
  | none ↦ err invalid_layout
  | some blocks ↦ ok_or invalid_layout (count_of s blocks)
]
