-- ===== src/Nexfs/Layout.antt =====
-- crates/nexfs/src/layout.rs: inodes and directory entries as they stand on disk.
-- `put_u16`, `put_u32` and `put_u64` at an offset are a write of 2, 4 or 8 bytes there, and `get_u16`,
-- `get_u32` and `get_u64` are `get_le` of as many. An `encode` is the list of its writes in their order.
-- A `&str` is the list of its bytes.
pub mod Seal
pub mod Fields
pub mod Inodes
pub mod Entries
mod Tests
use nix_os.Prelude.{
  ℕ, zero, suc, ◌+◌, ◌-◌, ◌/◌, ◌||◌, not, Bool, true, false, List, [], ◌∷◌, ◌++◌, ltb, ◌==◌,
  if◌then◌else◌, length, get_or, take, replicate, slice, splice, from_le, to_le, bytes_eq, contains,
  write_all, Result, ok, err, refuse_if, ◌>>=◌, ◌>>◌,
}
use nix_os.Storage.Device.{crc32}
use nix_os.Nexfs.{
  FsError, unsupported_block_size, corrupt_inode, corrupt_directory, checksum_mismatch,
  invalid_name,
}

abbrev pub inode_size : ℕ
inode_size = 256

abbrev pub dir_entry_size : ℕ
dir_entry_size = 256

abbrev pub direct_block_count : ℕ
direct_block_count = 12

abbrev pub max_name_length : ℕ
max_name_length = 240

abbrev pub block_size : ℕ
block_size = 4096

-- b"NXIN"
abbrev pub inode_magic : List ℕ
inode_magic = b'N' ∷ b'X' ∷ b'I' ∷ b'N' ∷ []

pub data FileType : Type 0 where
  regular directory : FileType

-- `self.kind as u8`
abbrev pub type_code : FileType → ℕ
type_code regular = 1
type_code directory = 2

-- `kind == FileType::Directory`
abbrev pub is_dir : FileType → Bool
is_dir regular = false
is_dir directory = true

pub decode_type : ℕ → Result FsError FileType
decode_type value =
    if value == 1 then ok regular else if value == 2 then ok directory else err corrupt_inode

pub record Inode : Type 0 where
  pub kind : FileType
  pub permissions : ℕ
  pub size : ℕ
  pub created : ℕ
  pub modified : ℕ
  pub direct_blocks : List ℕ
  pub indirect_block : ℕ
  pub block_count : ℕ
  pub generation : ℕ

pub new_inode : FileType → ℕ → ℕ → Inode
new_inode kind permissions timestamp = record {
  kind = kind;
  permissions = permissions;
  size = 0;
  created = timestamp;
  modified = timestamp;
  direct_blocks = replicate direct_block_count 0;
  indirect_block = 0;
  block_count = 0;
  generation = timestamp;
}

abbrev pub get_le : ℕ → List ℕ → ℕ → ℕ
get_le width bytes offset = from_le (slice offset width bytes)

-- `output[..n].fill(0)`
pub cleared : ℕ → List ℕ → List ℕ
cleared n output = splice 0 (replicate n 0) output

-- The checksum of the first `n` bytes is put at `offset`, where it is 0 so far.
pub seal : ℕ → ℕ → List ℕ → List ℕ
seal n offset bytes = splice offset (to_le 4 (crc32 (take n bytes))) bytes

-- `put_u32(&mut encoded, offset, 0)` on a copy of the first `n` bytes, and the comparison
pub is_sealed : ℕ → ℕ → List ℕ → Bool
is_sealed n offset input = crc32 (splice offset (to_le 4 0) (take n input)) == get_le 4 input offset

-- the loops over the direct blocks, which stand 8 bytes apart
pub block_writes : ℕ → List ℕ → List (ℕ × List ℕ)
block_writes offset [] = []
block_writes offset (block ∷ blocks) = (offset, to_le 8 block) ∷ block_writes (offset + 8) blocks

pub get_blocks : ℕ → ℕ → List ℕ → List ℕ
get_blocks zero offset input = []
get_blocks (suc n) offset input = get_le 8 input offset ∷ get_blocks n (offset + 8) input

pub inode_writes : Inode → List (ℕ × List ℕ)
inode_writes i =
    (0, inode_magic)
    ∷ (4, type_code i.kind ∷ [])
    ∷ (6, to_le 2 i.permissions)
    ∷ (8, to_le 8 i.size)
    ∷ (16, to_le 8 i.created)
    ∷ (24, to_le 8 i.modified)
    ∷ (block_writes 32 i.direct_blocks
        ++ (128, to_le 8 i.indirect_block)
          ∷ (136, to_le 8 i.block_count)
          ∷ (144, to_le 8 i.generation)
          ∷ (252, to_le 4 0)
          ∷ [])

pub encode_inode : Inode → List ℕ → Result FsError (List ℕ)
encode_inode i output =
    if ltb (length output) inode_size
    then err unsupported_block_size
    else ok (seal inode_size 252 (write_all (inode_writes i) (cleared inode_size output)))

-- the inode that the fields of `input` make
pub inode_at : FileType → List ℕ → Inode
inode_at kind input = record {
  kind = kind;
  permissions = get_le 2 input 6;
  size = get_le 8 input 8;
  created = get_le 8 input 16;
  modified = get_le 8 input 24;
  direct_blocks = get_blocks direct_block_count 32 input;
  indirect_block = get_le 8 input 128;
  block_count = get_le 8 input 136;
  generation = get_le 8 input 144;
}

pub decode_inode : List ℕ → Result FsError Inode
decode_inode input = do
  refuse_if (ltb (length input) inode_size || not (bytes_eq (slice 0 4 input) inode_magic))
      corrupt_inode
  refuse_if (not (is_sealed inode_size 252 input)) checksum_mismatch
  kind ← decode_type (get_or input 4 0)
  ok (inode_at kind input)

pub record DirectoryEntry : Type 0 where
  pub inode : ℕ
  pub kind : FileType
  pub name : List ℕ

pub validate_name : List ℕ → Result FsError Unit
validate_name name =
    refuse_if
      (length name == 0
        || ltb max_name_length (length name)
        || bytes_eq name (b'.' ∷ [])
        || bytes_eq name (b'.' ∷ b'.' ∷ [])
        || contains b'/' name
        || contains 0 name)
      invalid_name

pub new_entry : ℕ → FileType → List ℕ → Result FsError DirectoryEntry
new_entry inode kind name = do
  validate_name name
  ok (record { inode = inode; kind = kind; name = name })

pub entry_writes : DirectoryEntry → List (ℕ × List ℕ)
entry_writes e =
    (0, to_le 8 e.inode)
    ∷ (8, type_code e.kind ∷ [])
    ∷ (9, length e.name ∷ [])
    ∷ (12, e.name)
    ∷ (252, to_le 4 0)
    ∷ []

pub encode_entry : DirectoryEntry → List ℕ → Result FsError (List ℕ)
encode_entry e output = do
  validate_name e.name
  refuse_if (ltb (length output) dir_entry_size) unsupported_block_size
  refuse_if (ltb 255 (length e.name)) invalid_name
  ok (seal dir_entry_size 252 (write_all (entry_writes e) (cleared dir_entry_size output)))

-- `map_err(|_| FsError::CorruptDirectory)`
abbrev pub corrupt_type : Result FsError FileType → Result FsError FileType
corrupt_type (ok kind) = ok kind
corrupt_type (err e) = err corrupt_directory

-- `str::from_utf8` accepts the bytes for which `is_utf8` is true.
pub decode_entry : (List ℕ → Bool) → List ℕ → Result FsError DirectoryEntry
decode_entry is_utf8 input = do
  refuse_if (ltb (length input) dir_entry_size) corrupt_directory
  refuse_if (not (is_sealed dir_entry_size 252 input)) checksum_mismatch
  refuse_if (get_le 8 input 0 == 0) corrupt_directory
  refuse_if (get_or input 9 0 == 0 || ltb max_name_length (get_or input 9 0)) invalid_name
  refuse_if (not (is_utf8 (slice 12 (get_or input 9 0) input))) invalid_name
  validate_name (slice 12 (get_or input 9 0) input)
  kind ← corrupt_type (decode_type (get_or input 8 0))
  ok (record { inode = get_le 8 input 0; kind = kind; name = slice 12 (get_or input 9 0) input })

-- `size.div_ceil(BLOCK_SIZE)`
unfoldable pub data_blocks_for_size : ℕ → ℕ
data_blocks_for_size size = (size + (block_size - 1)) / block_size
