-- ===== src/Storage/Partition/Table/Read.antt =====
-- The partitions of a table that is read from a device lie on it, apart from each other.
use nix_os.Prelude.{
  ℕ, ◌*◌, ◌≡◌, refl, true, false, Option, List, arith, Bool, ok, refuse_if, ltb, if◌then◌else◌,
}
use nix_os.Prelude.Stateful.{lift, ask, ◌>>=◌, ◌>>◌, ok_before, done_before}
use nix_os.Storage.Device.{StorageError, BlockDevice, invalid_gpt, unsupported_sector_size}
use nix_os.Storage.Partition.Table.{
  GptHeader, MbrPartition, PartitionTable, read_mbr_table, is_bad_place, entry_sectors,
  check_gpt_sizes, gpt_table, read_gpt, read_gpt_header, read_gpt_placed, read_gpt_entries,
  read_entries, read_first_sector, read_partition_table, parse_mbr, parse_gpt_header,
  any_protective,
}
use nix_os.Storage.Partition.Table.Extents.{IsTable, read_mbr_table-IsTable}
use nix_os.Storage.Partition.Table.Gpt.{IsPlaced-intro, gpt_table-IsTable}

refuse_if_ok : (bad : Bool) (e : StorageError) → refuse_if bad e ≡ ok tt → bad ≡ false
refuse_if_ok true e h = absurd (ground arith)
refuse_if_ok false e h = refl

module _ {D : Type 0} (dev : BlockDevice D) where
  read_gpt_placed-IsTable :
      (sector_size disk_sectors : ℕ) (h : GptHeader) (d : D) (t : PartitionTable)
      → (read_gpt_placed dev sector_size h disk_sectors d).0 ≡ ok t
      → IsTable disk_sectors t
  unfolding read_gpt_placed read_gpt_entries
  read_gpt_placed-IsTable sector_size disk_sectors h d t e =
      let (place, e1) =
        done_before (lift (refuse_if (is_bad_place h disk_sectors) invalid_gpt))
          (lift (check_gpt_sizes h disk_sectors sector_size) >> read_gpt_entries dev sector_size h)
          d t e in
      let (sizes, e2) =
        done_before (lift (check_gpt_sizes h disk_sectors sector_size))
          (read_gpt_entries dev sector_size h) d t e1 in
      let (bytes, r, e3) =
        ok_before (dev.read_sectors h.entries_lba (entry_sectors h sector_size * sector_size))
          (λ bytes. lift (gpt_table h bytes)) d t e2 in
      gpt_table-IsTable disk_sectors h bytes t
        (IsPlaced-intro disk_sectors sector_size h
          (refuse_if_ok (is_bad_place h disk_sectors) invalid_gpt place) sizes)
        e3

  -- Reads leave the number of sectors as it is.
  unfoldable pub KeepsSize : Type 0
  KeepsSize =
      (lba len : ℕ) (d : D) → dev.sector_count (dev.read_sectors lba len d).1 ≡ dev.sector_count d

  read_gpt-IsTable :
      (sector_size : ℕ) (d : D) (t : PartitionTable)
      → KeepsSize
      → (read_gpt dev sector_size d).0 ≡ ok t
      → IsTable (dev.sector_count d) t
  unfolding read_gpt read_gpt_header KeepsSize
  read_gpt-IsTable sector_size d t keeps e =
      let (sector, r, e1) =
        ok_before (dev.read_sectors 1 sector_size) (read_gpt_header dev sector_size) d t e in
      let d1 = (dev.read_sectors 1 sector_size d).1 in
      let (header, p, e2) =
        ok_before (lift (parse_gpt_header sector))
          (λ header. ask (λ d. ok (dev.sector_count d)) >>= read_gpt_placed dev sector_size header)
          d1 t e1 in
      rw (keeps 1 sector_size d) at
        (read_gpt_placed-IsTable sector_size (dev.sector_count d1) header d1 t e2)

  read_entries-IsTable :
      (sector_size : ℕ) (entries : List (Option MbrPartition)) (d : D) (t : PartitionTable)
      → KeepsSize
      → (read_entries dev sector_size entries d).0 ≡ ok t
      → IsTable (dev.sector_count d) t
  unfolding read_entries
  read_entries-IsTable sector_size entries d t keeps = go (any_protective entries)
    where
      go :
          (protective : Bool)
          → ((if protective
                then read_gpt dev sector_size
                else (ask (λ d. ok (dev.sector_count d)) >>= λ n. lift (read_mbr_table n entries)))
              d).0
            ≡ ok t
          → IsTable (dev.sector_count d) t
      go true e = read_gpt-IsTable sector_size d t keeps e
      go false e = read_mbr_table-IsTable (dev.sector_count d) entries t e

  -- If reads leave the device's number of sectors as it is and `read_partition_table` returns a table,
  -- from an MBR or a GPT, then each of its partitions has a sector, begins behind the disk's first sector
  -- and ends on the disk, and of any two of them one ends before the other begins.
  pub read_partition_table-IsTable :
      (d : D) (t : PartitionTable)
      → KeepsSize
      → (read_partition_table dev d).0 ≡ ok t
      → IsTable (dev.sector_count d) t
  unfolding read_partition_table read_first_sector KeepsSize
  read_partition_table-IsTable d t keeps e =
      let size = dev.sector_size d in
      let (wide, e1) =
        done_before (lift (refuse_if (ltb size 512) unsupported_sector_size))
          (dev.read_sectors 0 size >>= read_first_sector dev size) d t e in
      let (sector, r, e2) =
        ok_before (dev.read_sectors 0 size) (read_first_sector dev size) d t e1 in
      let d1 = (dev.read_sectors 0 size d).1 in
      let (entries, p, e3) = ok_before (lift (parse_mbr sector)) (read_entries dev size) d1 t e2 in
      rw (keeps 0 size d) at (read_entries-IsTable size entries d1 t keeps e3)
