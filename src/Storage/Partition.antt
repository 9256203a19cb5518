-- ===== src/Storage/Partition.antt =====
-- crates/nexos-storage/src/partition.rs: a partition as a device, and the check of a table's extents.
pub mod Window
pub mod Overlap
pub mod Table
mod Tests
use nix_os.Prelude.{
  ℕ, ◌+◌, ◌/◌, ◌%◌, ◌^◌, ◌&&◌, ◌||◌, not, Bool, Option, List, [], ◌∷◌, ltb, leb, ◌==◌,
  if◌then◌else◌, length, Result, ok, err,
}
use nix_os.Storage.Device.{
  StorageError, invalid_partition, invalid_buffer, out_of_bounds, BlockDevice,
}

pub record PartitionDevice (D : Type 0) : Type 0 where
  pub inner : D
  pub first_lba : ℕ
  pub sector_count : ℕ

-- A `Guid` is the list of its bytes, and a name the list of its characters' numbers.
pub record Partition : Type 0 where
  pub index : ℕ
  pub first_lba : ℕ
  pub sector_count : ℕ
  pub bootable : Bool
  pub mbr_type : Option ℕ
  pub type_guid : Option (List ℕ)
  pub unique_guid : Option (List ℕ)
  pub attributes : ℕ
  pub name : List ℕ

module _ {D : Type 0} (dev : BlockDevice D) where
  pub new : D → ℕ → ℕ → Result StorageError (PartitionDevice D)
  new inner first_lba sector_count =
      if sector_count == 0
        || leb (2 ^ 64) (first_lba + sector_count)
        || ltb (dev.sector_count inner) (first_lba + sector_count)
      then err invalid_partition
      else ok (record { inner = inner; first_lba = first_lba; sector_count = sector_count })

  pub translated_lba : ℕ → ℕ → PartitionDevice D → Result StorageError ℕ
  translated_lba lba len p =
      let size = dev.sector_size p.inner in
      if len == 0 || not (len % size == 0)
      then err invalid_buffer
      else if leb (2 ^ 64) (lba + len / size) || ltb p.sector_count (lba + len / size)
      then err out_of_bounds
      else if leb (2 ^ 64) (p.first_lba + lba)
      then err out_of_bounds
      else ok (p.first_lba + lba)

  pub read_sectors : ℕ → ℕ → PartitionDevice D → Result StorageError (List ℕ) × PartitionDevice D
  read_sectors lba len p = elim (translated_lba lba len p) [
    | err x ↦ (err x, p)
    | ok translated ↦
        let (r, inner) = dev.read_sectors translated len p.inner in (r, record p { inner = inner })
  ]

  pub write_sectors : ℕ → List ℕ → PartitionDevice D → Result StorageError Unit × PartitionDevice D
  write_sectors lba input p = elim (translated_lba lba (length input) p) [
    | err x ↦ (err x, p)
    | ok translated ↦
        let (r, inner) = dev.write_sectors translated input p.inner in
        (r, record p { inner = inner })
  ]

  pub flush : PartitionDevice D → Result StorageError Unit × PartitionDevice D
  flush p = let (r, inner) = dev.flush p.inner in (r, record p { inner = inner })

unfoldable pub validate_partition_bounds : ℕ → ℕ → ℕ → Result StorageError Unit
validate_partition_bounds first_lba sector_count disk_sectors =
    if sector_count == 0
      || first_lba == 0
      || leb (2 ^ 64) (first_lba + sector_count)
      || ltb disk_sectors (first_lba + sector_count)
    then err invalid_partition
    else ok tt

abbrev pub end_of : Partition → ℕ
end_of p = p.first_lba + p.sector_count

-- the inner loop of `validate_no_overlap`
pub check_against : Partition → List Partition → Result StorageError Unit
check_against left [] = ok tt
check_against left (right ∷ rest) =
    let others = check_against left rest in
    if leb (2 ^ 64) (end_of right)
    then err invalid_partition
    else if ltb left.first_lba (end_of right) && ltb right.first_lba (end_of left)
    then err invalid_partition
    else others

pub validate_no_overlap : List Partition → Result StorageError Unit
validate_no_overlap [] = ok tt
validate_no_overlap (left ∷ rest) =
    let others = validate_no_overlap rest in
    if leb (2 ^ 64) (end_of left)
    then err invalid_partition
    else elim (check_against left rest) [ err x ↦ err x | ok u ↦ others ]
