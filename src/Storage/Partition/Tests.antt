-- ===== src/Storage/Partition/Tests.antt =====
-- Partitions of a small disk, and the theorems at them.
use nix_os.Prelude.{ℕ, ◌^◌, ◌<◌, ◌≡◌, refl, false, inl, List, [], ◌∷◌, arith, get_or, ok, err}
use nix_os.Storage.Device.{StorageError, MemoryBlockDevice, memory_device, range}
use nix_os.Storage.Device
use nix_os.Storage.Device.Sectors.{memory_device-Sectors}
use nix_os.Storage.Partition.{
  PartitionDevice, Partition, end_of, new, translated_lba, read_sectors, write_sectors, flush,
  validate_partition_bounds, check_against, validate_no_overlap,
}
use nix_os.Storage.Partition.Window.{write_sectors_outside}
use nix_os.Storage.Partition.Overlap.{no_partition, Apart, validate_no_overlap-Apart}

-- four sectors of two bytes
abbrev disk : MemoryBlockDevice
disk = record { bytes = 0 ∷ 1 ∷ 2 ∷ 3 ∷ 4 ∷ 5 ∷ 6 ∷ 7 ∷ []; size = 2; is_read_only = false }

-- its sectors 1 and 2
abbrev window : PartitionDevice MemoryBlockDevice
window = record { inner = disk; first_lba = 1; sector_count = 2 }

opens :
    (new memory_device disk 1 2 ≡ ok window)
    × (new memory_device disk 1 4 ≡ err StorageError.invalid_partition)
unfolding new
opens = (refl, refl)

reads_window :
    ((read_sectors memory_device 1 2 window).0 ≡ ok (4 ∷ 5 ∷ []))
    × ((read_sectors memory_device 2 2 window).0 ≡ err StorageError.out_of_bounds)
unfolding read_sectors translated_lba range Device.read_sectors
reads_window = (refl, refl)

flushes_window : flush memory_device window ≡ (ok tt, window)
unfolding flush
flushes_window = refl

bounds :
    (validate_partition_bounds 1 2 4 ≡ ok tt)
    × (validate_partition_bounds 0 2 4 ≡ err StorageError.invalid_partition)
unfolding validate_partition_bounds
bounds = (refl, refl)

abbrev extents : List Partition
extents =
    record no_partition { first_lba = 8; sector_count = 4 }
    ∷ record no_partition { first_lba = 1; sector_count = 7 }
    ∷ []

extents_good : validate_no_overlap extents ≡ ok tt
unfolding validate_no_overlap check_against
extents_good = refl

validate_no_overlap-Apart_example :
    ((i : ℕ) → i < 2 → end_of (get_or extents i no_partition) < 2 ^ 64)
    × ((i j : ℕ)
        → i < j
        → j < 2
        → Apart (get_or extents i no_partition) (get_or extents j no_partition))
validate_no_overlap-Apart_example = validate_no_overlap-Apart extents extents_good

write_sectors_outside_example :
    let (r, p') = write_sectors memory_device 0 (9 ∷ 9 ∷ []) window in
    (memory_device-Sectors.sector p'.inner 0 ≡ memory_device-Sectors.sector disk 0)
    × (p'.first_lba ≡ 1)
    × (p'.sector_count ≡ 2)
write_sectors_outside_example =
    write_sectors_outside memory_device memory_device-Sectors 0 0 (9 ∷ 9 ∷ []) window refl
      (inl (omega arith))
