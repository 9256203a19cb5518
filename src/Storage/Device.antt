-- ===== src/Storage/Device.antt =====
-- crates/nexos-storage/src/lib.rs: the block device interface, the memory device and the CRC.
pub mod Sectors
pub mod Checksum
mod Tests
use Prim.Native.Nat.{bit_xor}
use nix_os.Prelude.{
  ℕ, zero, suc, ◌+◌, ◌-◌, ◌*◌, ◌/◌, ◌%◌, ◌^◌, Bool, true, false, ◌||◌, not, Option, none, some,
  List, [], ◌∷◌, ◌++◌, ltb, leb, ◌==◌, if◌then◌else◌, length, take, drop, replicate, Result, ok,
  err, map_ok, slice, splice, is_power_below,
}

pub data StorageError : Type 0 where
  out_of_bounds invalid_buffer read_only invalid_mbr invalid_gpt invalid_partition : StorageError
  checksum_mismatch unsupported_sector_size unsupported_filesystem corrupt_filesystem : StorageError
  not_found already_exists invalid_name no_space too_large timeout busy device : StorageError

-- `trait BlockDevice`. A read is asked for as many bytes as the caller's buffer
-- holds and gives them as its result. A read that fails gives none, the caller's buffer being taken to keep
-- its bytes, as it does with the AHCI and IDE drivers for one sector.
pub record BlockDevice (D : Type 0) : Type 0 where
  pub sector_size : D → ℕ
  pub sector_count : D → ℕ
  pub read_sectors : ℕ → ℕ → D → Result StorageError (List ℕ) × D
  pub write_sectors : ℕ → List ℕ → D → Result StorageError Unit × D
  pub flush : D → Result StorageError Unit × D

pub record MemoryBlockDevice : Type 0 where
  pub bytes : List ℕ
  pub size : ℕ
  pub is_read_only : Bool

abbrev pub is_power_of_two : ℕ → Bool
is_power_of_two = is_power_below 32

pub new : ℕ → ℕ → Result StorageError MemoryBlockDevice
new sectors size =
    if ltb size 512 || not (is_power_of_two size)
    then err unsupported_sector_size
    else if leb (2 ^ 64) (sectors * size)
    then err out_of_bounds
    else ok (record { bytes = replicate (sectors * size) 0; size = size; is_read_only = false })

pub from_bytes : List ℕ → ℕ → Result StorageError MemoryBlockDevice
from_bytes bytes size =
    if ltb size 512 || not (is_power_of_two size) || not (length bytes % size == 0)
    then err invalid_buffer
    else ok (record { bytes = bytes; size = size; is_read_only = false })

pub set_read_only : Bool → MemoryBlockDevice → MemoryBlockDevice
set_read_only b d = record d { is_read_only = b }

-- the byte range of a transfer, as its start; its end is `length` further on
unfoldable pub range : ℕ → ℕ → MemoryBlockDevice → Result StorageError ℕ
range lba len d =
    let start = lba * d.size in
    if not (len % d.size == 0)
    then err invalid_buffer
    else if leb (2 ^ 64) start || leb (2 ^ 64) (start + len) || ltb (length d.bytes) (start + len)
    then err out_of_bounds
    else ok start

unfoldable pub read_sectors :
    ℕ → ℕ → MemoryBlockDevice → Result StorageError (List ℕ) × MemoryBlockDevice
read_sectors lba len d = (map_ok (λ start. slice start len d.bytes) (range lba len d), d)

unfoldable pub write_sectors :
    ℕ → List ℕ → MemoryBlockDevice → Result StorageError Unit × MemoryBlockDevice
write_sectors lba input d =
    if d.is_read_only then (err read_only, d) else elim (range lba (length input) d) [
      | err e ↦ (err e, d)
      | ok start ↦ (ok tt, record d { bytes = splice start input d.bytes })
    ]

abbrev pub memory_device : BlockDevice MemoryBlockDevice
memory_device = record {
  sector_size = λ d. d.size;
  sector_count = λ d. length d.bytes / d.size;
  read_sectors = read_sectors;
  write_sectors = write_sectors;
  flush = λ d. (ok tt, d);
}

-- one bit of the CRC: `(crc >> 1) ^ (0xedb8_8320 & 0.wrapping_sub(crc & 1))`
pub crc_bit : ℕ → ℕ
crc_bit crc = bit_xor (crc / 2) (if crc % 2 == 1 then 0xedb8_8320 else 0)

pub crc_bits : ℕ → ℕ → ℕ
crc_bits zero crc = crc
crc_bits (suc n) crc = crc_bits n (crc_bit crc)

unfoldable pub crc_bytes : ℕ → List ℕ → ℕ
crc_bytes crc [] = crc
crc_bytes crc (b ∷ bs) = crc_bytes (crc_bits 8 (bit_xor crc b)) bs

-- `!crc` of a 32-bit number is `2^32 - 1 - crc`
unfoldable pub crc32 : List ℕ → ℕ
crc32 bytes = 0xffff_ffff - crc_bytes 0xffff_ffff bytes
