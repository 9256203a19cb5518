-- ===== src/Storage/Device/Tests.antt =====
-- crates/nexos-storage/src/lib.rs on small devices, and the standard vector of the CRC.
use nix_os.Prelude.{
  ℕ, ◌*◌, arith, slice, is_power_below, ◌^◌, ◌≡◌, refl, true, false, [], ◌∷◌, ok, err,
}
use nix_os.Storage.Device.{
  StorageError, MemoryBlockDevice, is_power_of_two, new, from_bytes, set_read_only, range,
  memory_device, read_sectors, write_sectors, crc_bit, crc_bits, crc_bytes, crc32,
}
use nix_os.Storage.Device.Sectors.{memory_device_law}
use nix_os.Storage.Cache.Coherent.{Sectors}

-- a device of two sectors of four bytes
abbrev tiny : MemoryBlockDevice
tiny = record { bytes = 1 ∷ 2 ∷ 3 ∷ 4 ∷ 5 ∷ 6 ∷ 7 ∷ 8 ∷ []; size = 4; is_read_only = false }

powers : (is_power_of_two 512 ≡ true) × (is_power_of_two 513 ≡ false) × (is_power_of_two 0 ≡ false)
unfolding is_power_below
powers = (refl, refl, refl)

new_rejects :
    (new 8 500 ≡ err StorageError.unsupported_sector_size)
    × (new (2 ^ 60) 512 ≡ err StorageError.out_of_bounds)
unfolding new is_power_below
new_rejects = (refl, refl)

from_bytes_rejects : from_bytes (1 ∷ []) 512 ≡ err StorageError.invalid_buffer
unfolding from_bytes is_power_below
from_bytes_rejects = refl

reads :
    ((read_sectors 1 4 tiny).0 ≡ ok (5 ∷ 6 ∷ 7 ∷ 8 ∷ []))
    × ((read_sectors 2 4 tiny).0 ≡ err StorageError.out_of_bounds)
    × ((read_sectors 1 3 tiny).0 ≡ err StorageError.invalid_buffer)
unfolding read_sectors range
reads = (refl, refl, refl)

writes :
    ((write_sectors 0 (9 ∷ 9 ∷ 9 ∷ 9 ∷ []) tiny).1.bytes ≡ 9 ∷ 9 ∷ 9 ∷ 9 ∷ 5 ∷ 6 ∷ 7 ∷ 8 ∷ [])
    × (write_sectors 0 (9 ∷ []) (set_read_only true tiny)
        ≡ (err StorageError.read_only, set_read_only true tiny))
unfolding write_sectors range set_read_only
writes = (refl, refl)

-- the CRC of "123456789"
crc32_vector :
    crc32 (b'1' ∷ b'2' ∷ b'3' ∷ b'4' ∷ b'5' ∷ b'6' ∷ b'7' ∷ b'8' ∷ b'9' ∷ []) ≡ 0xcbf4_3926
unfolding crc32 crc_bytes crc_bits crc_bit
crc32_vector = refl

memory_device_law_example :
    (law : Sectors memory_device) × ((e : MemoryBlockDevice) (j : ℕ)
      → law.sector e j ≡ slice (j * e.size) e.size e.bytes)
    × ((read_sectors 1 4 tiny).0 ≡ ok (law.sector tiny 1))
    × ((write_sectors 1 (9 ∷ 9 ∷ 9 ∷ 9 ∷ []) tiny).0 ≡ ok tt)
memory_device_law_example =
    memory_device_law tiny 1 (9 ∷ 9 ∷ 9 ∷ 9 ∷ []) (omega arith) (omega arith) (omega arith) refl
