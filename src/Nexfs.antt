-- ===== src/Nexfs.antt =====
-- crates/nexfs/src: the native file system's layout on disk.
pub mod Layout
pub mod Superblock
pub mod Io
pub mod Blocks
pub mod Format
use nix_os.Storage.Device.{StorageError}

pub data FsError : Type 0 where
  storage : StorageError → FsError
  too_small unsupported_block_size invalid_magic unsupported_version invalid_layout : FsError
  checksum_mismatch dirty not_found already_exists not_directory is_directory : FsError
  directory_not_empty invalid_name invalid_path no_space file_too_large too_large : FsError
  corrupt_inode corrupt_directory busy : FsError
