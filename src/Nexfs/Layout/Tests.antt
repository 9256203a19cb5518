-- ===== src/Nexfs/Layout/Tests.antt =====
-- crates/nexfs/src/layout.rs on small structures, and its theorems at them.
use nix_os.Prelude.{
  ℕ, ◌^◌, ◌<◌, ◌≡◌, refl, true, List, [], ◌∷◌, arith, length, get_or, slice, replicate,
  length-replicate, ok, err, bytes_eq, contains,
}
use nix_os.Nexfs.{FsError}
use nix_os.Nexfs.Layout.{
  FileType, Inode, DirectoryEntry, new_inode, new_entry, validate_name, encode_inode, decode_inode,
  encode_entry, decode_entry, data_blocks_for_size, decode_type,
}
use nix_os.Nexfs.Layout.Inodes.{IsInode, decode-encode_inode}
use nix_os.Nexfs.Layout.Entries.{decode-encode_entry}

-- b"etc"
abbrev etc : List ℕ
etc = b'e' ∷ b't' ∷ b'c' ∷ []

abbrev entry : DirectoryEntry
entry = record { inode = 2; kind = FileType.directory; name = etc }

entries :
    (new_entry 2 FileType.directory etc ≡ ok entry)
    × (new_entry 2 FileType.directory (b'.' ∷ []) ≡ err FsError.invalid_name)
    × (new_entry 2 FileType.regular (b'/' ∷ []) ≡ err FsError.invalid_name)
    × (encode_entry entry [] ≡ err FsError.unsupported_block_size)
    × (decode_entry (λ bs. true) [] ≡ err FsError.corrupt_directory)
unfolding new_entry validate_name bytes_eq contains encode_entry decode_entry
entries = (refl, refl, refl, refl, refl)

abbrev root : Inode
root = record {
  kind = FileType.directory;
  permissions = 493;
  size = 0;
  created = 1;
  modified = 1;
  direct_blocks = 0 ∷ 0 ∷ 0 ∷ 0 ∷ 0 ∷ 0 ∷ 0 ∷ 0 ∷ 0 ∷ 0 ∷ 0 ∷ 0 ∷ [];
  indirect_block = 0;
  block_count = 0;
  generation = 1;
}

inodes :
    (new_inode FileType.directory 493 1 ≡ root)
    × (decode_type 3 ≡ err FsError.corrupt_inode)
    × (encode_inode root [] ≡ err FsError.unsupported_block_size)
    × (decode_inode [] ≡ err FsError.corrupt_inode)
unfolding new_inode decode_type encode_inode decode_inode
inodes = (refl, refl, refl, refl)

blocks :
    (data_blocks_for_size 0 ≡ 0) × (data_blocks_for_size 4096 ≡ 1) × (data_blocks_for_size 4097 ≡ 2)
unfolding data_blocks_for_size
blocks = (refl, refl, refl)

root_zero : (k : ℕ) → k < 12 → get_or root.direct_blocks k 0 < 2 ^ 64
root_zero k lt = ground arith

root-IsInode : IsInode root
root-IsInode = record {
  permissions = omega arith;
  size = omega arith;
  created = omega arith;
  modified = omega arith;
  twelve = refl;
  direct_blocks = root_zero;
  indirect_block = omega arith;
  block_count = omega arith;
  generation = omega arith;
}

empty : List ℕ
empty = replicate 256 0

length-empty : length empty ≡ 256
unfolding empty
length-empty = length-replicate {A = ℕ} 256 0

decode-encode_inode_example :
    (written : List ℕ) × (encode_inode root empty ≡ ok written)
    × (length written ≡ length empty)
    × ((k : ℕ) → slice 256 k written ≡ slice 256 k empty)
    × (decode_inode written ≡ ok root)
decode-encode_inode_example =
    decode-encode_inode root empty root-IsInode (omega (arith, length-empty))

etc_valid : validate_name etc ≡ ok tt
unfolding validate_name bytes_eq contains
etc_valid = refl

decode-encode_entry_example :
    (written : List ℕ) × (encode_entry entry empty ≡ ok written)
    × (length written ≡ length empty)
    × ((k : ℕ) → slice 256 k written ≡ slice 256 k empty)
    × (decode_entry (λ bs. true) written ≡ ok entry)
decode-encode_entry_example =
    decode-encode_entry (λ bs. true) entry empty etc_valid refl (omega arith) (omega arith)
      (omega (arith, length-empty))
