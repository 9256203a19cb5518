-- ===== src/Storage/Partition/Table/Extents.antt =====
-- What a table that is read promises, and the tables of an MBR.
use nix_os.Prelude.{
  ℕ, zero, suc, ◌+◌, ◌≤◌, ◌<◌, ◌≡◌, Option, none, some, List, [], ◌∷◌, arith, length, get_or, ok,
  Result-cases, inl, inr,
}
use nix_os.Storage.Partition.{Partition, end_of, validate_partition_bounds, validate_no_overlap}
use nix_os.Storage.Partition.Overlap.{no_partition, Apart, validate_no_overlap-Apart}
use nix_os.Storage.Partition.Table.{
  MbrPartition, PartitionTable, PartitionTableKind, check_mbr_entry, mbr_partitions, checked_table,
  read_mbr_table,
}

-- Sectors of the disk, at least one and not the first of the disk.
pub record IsExtent (disk_sectors : ℕ) (p : Partition) : Type 0 where
  pub behind : 0 < p.first_lba
  pub some_sectors : 0 < p.sector_count
  pub within : end_of p ≤ disk_sectors

pub AllExtents : ℕ → List Partition → Type 0
AllExtents disk_sectors ps =
    (i : ℕ) → i < length ps → IsExtent disk_sectors (get_or ps i no_partition)

pub AllExtents-none : (disk_sectors : ℕ) → AllExtents disk_sectors []
unfolding AllExtents
AllExtents-none disk_sectors i lt = absurd (omega arith)

pub AllExtents-push :
    (disk_sectors : ℕ) (p : Partition) (ps : List Partition)
    → IsExtent disk_sectors p
    → AllExtents disk_sectors ps
    → AllExtents disk_sectors (p ∷ ps)
unfolding AllExtents
AllExtents-push disk_sectors p ps good all zero lt = good
AllExtents-push disk_sectors p ps good all (suc i) lt = all i (omega arith)

check_mbr_entry-IsExtent :
    (disk_sectors index : ℕ) (entry : MbrPartition) (p : Partition)
    → check_mbr_entry disk_sectors index entry ≡ ok p
    → IsExtent disk_sectors p
unfolding check_mbr_entry validate_partition_bounds
check_mbr_entry-IsExtent disk_sectors index entry p h = record {
  behind = ground arith;
  some_sectors = ground arith;
  within = ground arith;
}

mbr_partitions-AllExtents :
    (disk_sectors index : ℕ) (entries : List (Option MbrPartition)) (ps : List Partition)
    → mbr_partitions disk_sectors index entries ≡ ok ps
    → AllExtents disk_sectors ps
unfolding mbr_partitions
mbr_partitions-AllExtents disk_sectors index [] ps h =
    let same : [] ≡ ps = ground arith in rw same at (AllExtents-none disk_sectors)
mbr_partitions-AllExtents disk_sectors index (none ∷ entries) ps h =
    mbr_partitions-AllExtents disk_sectors (index + 1) entries ps h
mbr_partitions-AllExtents disk_sectors index (some entry ∷ entries) ps h =
    elim (Result-cases (check_mbr_entry disk_sectors index entry)) [
      | inr (e, f) ↦ absurd (ground arith)
      | inl (p, f) ↦ elim (Result-cases (mbr_partitions disk_sectors (index + 1) entries)) [
        | inr (e, g) ↦ absurd (ground arith)
        | inl (rest, g) ↦
            let same : p ∷ rest ≡ ps = ground arith in
            rw same at (
              AllExtents-push disk_sectors p rest
                (check_mbr_entry-IsExtent disk_sectors index entry p f)
                (mbr_partitions-AllExtents disk_sectors (index + 1) entries rest g))
      ]
    ]

-- What a table that is read promises.
pub record IsTable (disk_sectors : ℕ) (t : PartitionTable) : Type 0 where
  pub extents : AllExtents disk_sectors t.partitions
  pub apart :
      (i j : ℕ)
      → i < j
      → j < length t.partitions
      → Apart (get_or t.partitions i no_partition) (get_or t.partitions j no_partition)

no_overlap-Apart :
    (ps : List Partition)
    → validate_no_overlap ps ≡ ok tt
    → (i j : ℕ) → i < j
    → j < length ps
    → Apart (get_or ps i no_partition) (get_or ps j no_partition)
no_overlap-Apart ps h i j lt in_range = (validate_no_overlap-Apart ps h).1 i j lt in_range

pub checked_table-IsTable :
    (disk_sectors : ℕ) (kind : PartitionTableKind) (guid : Option (List ℕ)) (ps : List Partition)
    (t : PartitionTable)
    → AllExtents disk_sectors ps
    → checked_table kind guid ps ≡ ok t
    → IsTable disk_sectors t
checked_table-IsTable disk_sectors kind guid ps t all h =
    elim (Result-cases (validate_no_overlap ps)) [
      | inr (e, f) ↦ absurd (ground arith)
      | inl (u, f) ↦
          let same : ps ≡ t.partitions = ground arith in
          record { extents = rw same at all; apart = rw same at (no_overlap-Apart ps f) }
    ]

pub read_mbr_table-IsTable :
    (disk_sectors : ℕ) (entries : List (Option MbrPartition)) (t : PartitionTable)
    → read_mbr_table disk_sectors entries ≡ ok t
    → IsTable disk_sectors t
unfolding read_mbr_table
read_mbr_table-IsTable disk_sectors entries t h =
    elim (Result-cases (mbr_partitions disk_sectors 0 entries)) [
      | inr (e, f) ↦ absurd (ground arith)
      | inl (ps, f) ↦
          checked_table-IsTable disk_sectors PartitionTableKind.mbr none ps t
            (mbr_partitions-AllExtents disk_sectors 0 entries ps f) (rw (read_mbr_table, f) at h)
    ]
