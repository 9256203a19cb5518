-- ===== src/Storage/Partition/Table/Tests.antt =====
-- A disk of eight sectors with an MBR, and the theorems at it.
use nix_os.Prelude.{
  ℕ, ◌≡◌, refl, true, false, none, some, List, [], ◌∷◌, ◌++◌, arith, replicate, splice, set,
  from_le, bytes_eq, ok, err,
}
use nix_os.Storage.Device.{
  StorageError, MemoryBlockDevice, memory_device, range, read_sectors, crc_bytes, crc32,
}
use nix_os.Storage.Partition.{
  Partition, validate_partition_bounds, check_against, validate_no_overlap,
}
use nix_os.Storage.Partition.Overlap.{no_partition}
use nix_os.Storage.Partition.Table.{
  MbrPartition, GptHeader, PartitionTable, PartitionTableKind, parse_mbr_entry, parse_mbr_entries,
  parse_mbr, gpt_header_crc32, gpt_header_at, is_bad_header, parse_gpt_header, decode_gpt_name,
  check_mbr_entry, mbr_partitions, read_mbr_table, is_bad_entry, check_gpt_entry, gpt_partitions,
  is_bad_place, is_bad_end, check_gpt_sizes, gpt_table, any_protective, read_gpt_entries,
  read_gpt_placed, read_gpt_header, read_gpt, read_entries, read_first_sector, read_partition_table,
}
use nix_os.Storage.Partition.Table.Extents.{IsTable}
use nix_os.Storage.Partition.Table.Read.{KeepsSize, read_partition_table-IsTable}
use nix_os.Storage.Partition.Table.Checksum.{gpt_header_crc32-crc32}

-- bootable, of type 0x83, from sector 1 on, 4 sectors
abbrev entry_bytes : List ℕ
entry_bytes = 0x80 ∷ 0 ∷ 0 ∷ 0 ∷ 0x83 ∷ 0 ∷ 0 ∷ 0 ∷ 1 ∷ 0 ∷ 0 ∷ 0 ∷ 4 ∷ 0 ∷ 0 ∷ 0 ∷ []

abbrev mbr_sector : List ℕ
mbr_sector = replicate 446 0 ++ (entry_bytes ++ (replicate 48 0 ++ (0x55 ∷ 0xaa ∷ [])))

abbrev mbr_entry : MbrPartition
mbr_entry = record { bootable = true; partition_type = 0x83; first_lba = 1; sector_count = 4 }

parses :
    (parse_mbr_entry entry_bytes ≡ ok (some mbr_entry))
    × (parse_mbr_entry (set entry_bytes 0 1) ≡ err StorageError.invalid_mbr)
    × (parse_mbr mbr_sector ≡ ok (some mbr_entry ∷ none ∷ none ∷ none ∷ []))
unfolding parse_mbr parse_mbr_entries parse_mbr_entry from_le bytes_eq
parses = (refl, refl, refl)

abbrev disk : MemoryBlockDevice
disk = record { bytes = mbr_sector ++ replicate 3584 0; size = 512; is_read_only = false }

abbrev table : PartitionTable
table = record {
  kind = PartitionTableKind.mbr;
  disk_guid = none;
  partitions =
      record no_partition {
        index = 1;
        first_lba = 1;
        sector_count = 4;
        bootable = true;
        mbr_type = some 0x83;
      }
      ∷ [];
}

reads : (read_partition_table memory_device disk).0 ≡ ok table
unfolding read_partition_table read_first_sector read_entries read_sectors range parse_mbr
    parse_mbr_entries parse_mbr_entry from_le bytes_eq any_protective read_mbr_table mbr_partitions
    check_mbr_entry validate_partition_bounds validate_no_overlap check_against
reads = refl

keeps : KeepsSize memory_device
unfolding KeepsSize read_sectors
keeps lba len d = refl

read_partition_table-IsTable_example : IsTable 8 table
read_partition_table-IsTable_example =
    read_partition_table-IsTable memory_device disk table keeps reads

abbrev gpt_header : GptHeader
gpt_header = record {
  revision = 0x1_0000;
  header_size = 92;
  current_lba = 1;
  backup_lba = 63;
  first_usable_lba = 4;
  last_usable_lba = 60;
  disk_guid = replicate 16 1;
  entries_lba = 2;
  entry_count = 1;
  entry_size = 128;
  entries_crc32 = 0;
}

-- the first and the last sector of a partition stand at 32 and 40
abbrev gpt_entry : List ℕ
gpt_entry =
    replicate 16 2
    ++ (replicate 16 3
        ++ (5 ∷ 0 ∷ 0 ∷ 0 ∷ 0 ∷ 0 ∷ 0 ∷ 0 ∷ 8 ∷ 0 ∷ 0 ∷ 0 ∷ 0 ∷ 0 ∷ 0 ∷ 0 ∷ replicate 8 0
            ++ (b'r' ∷ 0 ∷ 0 ∷ 0xd8 ∷ replicate 68 0)))

abbrev gpt_found : Partition
gpt_found = record no_partition {
  index = 1;
  first_lba = 5;
  sector_count = 4;
  type_guid = some (replicate 16 2);
  unique_guid = some (replicate 16 3);
  name = b'r' ∷ 0xfffd ∷ [];
}

checks_gpt :
    (gpt_partitions gpt_header 1 0 gpt_entry ≡ ok (gpt_found ∷ []))
    × (check_gpt_entry gpt_header 0 (set gpt_entry 32 3) ≡ err StorageError.invalid_gpt)
    × (is_bad_header gpt_header ≡ false)
    × (is_bad_place gpt_header 64 ≡ false)
    × (check_gpt_sizes gpt_header 64 512 ≡ ok tt)
    × (check_gpt_sizes gpt_header 2 512 ≡ err StorageError.invalid_gpt)
    × (gpt_table (record gpt_header { entry_count = 0 }) []
        ≡ ok (record {
          kind = PartitionTableKind.gpt;
          disk_guid = some (replicate 16 1);
          partitions = [];
        }))
    × (parse_gpt_header [] ≡ err StorageError.invalid_gpt)
unfolding gpt_partitions check_gpt_entry is_bad_entry from_le bytes_eq decode_gpt_name is_bad_header
    is_bad_place is_bad_end check_gpt_sizes gpt_table parse_gpt_header gpt_header_at crc32 crc_bytes
    validate_no_overlap
checks_gpt = (refl, refl, refl, refl, refl, refl, refl, refl)

fails :
    (read_gpt memory_device 512 (record disk { bytes = mbr_sector })).0
    ≡ err StorageError.out_of_bounds
unfolding read_gpt read_gpt_header read_gpt_placed read_gpt_entries read_sectors range
fails = refl

abbrev header_bytes : List ℕ
header_bytes = replicate 24 7

gpt_header_crc32-crc32_example :
    gpt_header_crc32 header_bytes ≡ crc32 (splice 16 (0 ∷ 0 ∷ 0 ∷ 0 ∷ []) header_bytes)
gpt_header_crc32-crc32_example = gpt_header_crc32-crc32 header_bytes (omega arith)
