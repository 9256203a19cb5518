-- ===== src/Storage/Partition/Table.antt =====
-- crates/nexos-storage/src/partition.rs: the partition tables that a disk can have.
-- A slice of a sector is its bytes from a start on; an index of the source is in range where it is read.
pub mod Checksum
pub mod Extents
pub mod Gpt
pub mod Read
mod Tests
use nix_os.Prelude.{
  ℕ, zero, suc, ◌+◌, ◌-◌, ◌*◌, ◌/◌, ◌%◌, ◌^◌, min, Bool, true, false, ◌&&◌, ◌||◌, not, Option, none,
  some, List, [], ◌∷◌, ltb, leb, ◌==◌, if◌then◌else◌, length, get_or, take, drop, replicate, slice,
  from_le, bytes_eq, Result, ok, err, map_ok, refuse_if,
}
use nix_os.Prelude.Stateful.{Stateful, pure, lift, ask, ◌>>=◌, ◌>>◌}
use Prim.Native.Nat.{bit_xor}
use nix_os.Storage.Device.{
  StorageError, BlockDevice, invalid_mbr, invalid_gpt, checksum_mismatch, too_large,
  unsupported_sector_size, crc_bits, crc32,
}
use nix_os.Storage.Partition.{Partition, validate_partition_bounds, validate_no_overlap}

pub record MbrPartition : Type 0 where
  pub bootable : Bool
  pub partition_type : ℕ
  pub first_lba : ℕ
  pub sector_count : ℕ

pub record GptHeader : Type 0 where
  pub revision : ℕ
  pub header_size : ℕ
  pub current_lba : ℕ
  pub backup_lba : ℕ
  pub first_usable_lba : ℕ
  pub last_usable_lba : ℕ
  pub disk_guid : List ℕ
  pub entries_lba : ℕ
  pub entry_count : ℕ
  pub entry_size : ℕ
  pub entries_crc32 : ℕ

pub data PartitionTableKind : Type 0 where
  mbr gpt : PartitionTableKind

pub record PartitionTable : Type 0 where
  pub kind : PartitionTableKind
  pub disk_guid : Option (List ℕ)
  pub partitions : List Partition

-- `le_u32` and `le_u64`
abbrev pub le : ℕ → List ℕ → ℕ → ℕ
le width bytes offset = from_le (slice offset width bytes)

abbrev pub is_zero : List ℕ → Bool
is_zero guid = bytes_eq guid (replicate 16 0)

abbrev pub max_gpt_entries : ℕ
max_gpt_entries = 4096

abbrev pub max_gpt_entry_size : ℕ
max_gpt_entry_size = 4096

-- one round of the loop of `parse_mbr`, on the 16 bytes of an entry
pub parse_mbr_entry : List ℕ → Result StorageError (Option MbrPartition)
parse_mbr_entry entry =
    let type = get_or entry 4 0 in
    let count = le 4 entry 12 in
    if not (get_or entry 0 0 == 0 || get_or entry 0 0 == 0x80)
    then err invalid_mbr
    else if type == 0 && count == 0
    then ok none
    else if type == 0 || count == 0
    then err invalid_mbr
    else ok (
        some (record {
          bootable = get_or entry 0 0 == 0x80;
          partition_type = type;
          first_lba = le 4 entry 8;
          sector_count = count;
        }))

-- the loop over the slots from `index` on
pub parse_mbr_entries :
    (slots index : ℕ) → List ℕ → Result StorageError (List (Option MbrPartition))
parse_mbr_entries zero index sector = ok []
parse_mbr_entries (suc slots) index sector =
    elim (parse_mbr_entry (slice (446 + index * 16) 16 sector)) [
      | err e ↦ err e
      | ok slot ↦ map_ok (λ rest. slot ∷ rest) (parse_mbr_entries slots (index + 1) sector)
    ]

pub parse_mbr : List ℕ → Result StorageError (List (Option MbrPartition))
parse_mbr sector =
    if ltb (length sector) 512 || not (bytes_eq (slice 510 2 sector) (0x55 ∷ 0xaa ∷ []))
    then err invalid_mbr
    else parse_mbr_entries 4 0 sector

-- the loop of `gpt_header_crc32` from `index` on: the bytes of the checksum itself count as 0
pub gpt_crc_bytes : ℕ → ℕ → List ℕ → ℕ
gpt_crc_bytes index crc [] = crc
gpt_crc_bytes index crc (byte ∷ bytes) =
    gpt_crc_bytes (index + 1)
      (crc_bits 8 (bit_xor crc (if leb 16 index && ltb index 20 then 0 else byte))) bytes

pub gpt_header_crc32 : List ℕ → ℕ
gpt_header_crc32 bytes = 0xffff_ffff - gpt_crc_bytes 0 0xffff_ffff bytes

pub gpt_header_at : List ℕ → GptHeader
gpt_header_at sector = record {
  revision = le 4 sector 8;
  header_size = le 4 sector 12;
  current_lba = le 8 sector 24;
  backup_lba = le 8 sector 32;
  first_usable_lba = le 8 sector 40;
  last_usable_lba = le 8 sector 48;
  disk_guid = slice 56 16 sector;
  entries_lba = le 8 sector 72;
  entry_count = le 4 sector 80;
  entry_size = le 4 sector 84;
  entries_crc32 = le 4 sector 88;
}

-- the last condition of `parse_gpt_header`
pub is_bad_header : GptHeader → Bool
is_bad_header h =
    not (h.revision == 0x1_0000)
    || h.current_lba == h.backup_lba
    || ltb h.last_usable_lba h.first_usable_lba
    || h.entry_count == 0
    || ltb max_gpt_entries h.entry_count
    || ltb h.entry_size 128
    || ltb max_gpt_entry_size h.entry_size
    || not (h.entry_size % 8 == 0)

pub parse_gpt_header : List ℕ → Result StorageError GptHeader
parse_gpt_header sector =
    if ltb (length sector) 92
      || not
          (bytes_eq (slice 0 8 sector) (b'E' ∷ b'F' ∷ b'I' ∷ b' ' ∷ b'P' ∷ b'A' ∷ b'R' ∷ b'T' ∷ []))
    then err invalid_gpt
    else if ltb (le 4 sector 12) 92 || ltb (length sector) (le 4 sector 12)
    then err invalid_gpt
    else if not (gpt_header_crc32 (take (le 4 sector 12) sector) == le 4 sector 16)
    then err checksum_mismatch
    else if is_bad_header (gpt_header_at sector)
    then err invalid_gpt
    else ok (gpt_header_at sector)

-- `char::from_u32(value).unwrap_or('\u{fffd}')` of a `u16`: a surrogate is no character
abbrev pub char_of : ℕ → ℕ
char_of value = if leb 0xd800 value && ltb value 0xe000 then 0xfffd else value

pub decode_gpt_name : List ℕ → List ℕ
decode_gpt_name [] = []
decode_gpt_name (lo ∷ []) = []
decode_gpt_name (lo ∷ hi ∷ bytes) =
    let rest = decode_gpt_name bytes in
    let value = from_le (lo ∷ hi ∷ []) in if value == 0 then [] else char_of value ∷ rest

abbrev pub mbr_partition : ℕ → MbrPartition → Partition
mbr_partition index entry = record {
  index = index + 1;
  first_lba = entry.first_lba;
  sector_count = entry.sector_count;
  bootable = entry.bootable;
  mbr_type = some entry.partition_type;
  type_guid = none;
  unique_guid = none;
  attributes = 0;
  name = [];
}

-- what one round of the loop of `read_mbr_table` finds
pub check_mbr_entry : ℕ → ℕ → MbrPartition → Result StorageError Partition
check_mbr_entry disk_sectors index entry =
    if entry.partition_type == 0xee
    then err invalid_gpt
    else map_ok (λ u. mbr_partition index entry)
        (validate_partition_bounds entry.first_lba entry.sector_count disk_sectors)

pub mbr_partitions : ℕ → ℕ → List (Option MbrPartition) → Result StorageError (List Partition)
mbr_partitions disk_sectors index [] = ok []
mbr_partitions disk_sectors index (none ∷ entries) = mbr_partitions disk_sectors (index + 1) entries
mbr_partitions disk_sectors index (some entry ∷ entries) =
    elim (check_mbr_entry disk_sectors index entry) [
      | err e ↦ err e
      | ok p ↦ map_ok (λ ps. p ∷ ps) (mbr_partitions disk_sectors (index + 1) entries)
    ]

-- the check of the extents that ends both readers, and the table
abbrev pub checked_table :
    PartitionTableKind → Option (List ℕ) → List Partition → Result StorageError PartitionTable
checked_table kind disk_guid partitions =
    map_ok (λ u. record { kind = kind; disk_guid = disk_guid; partitions = partitions })
      (validate_no_overlap partitions)

pub read_mbr_table : ℕ → List (Option MbrPartition) → Result StorageError PartitionTable
read_mbr_table disk_sectors entries = elim (mbr_partitions disk_sectors 0 entries) [
  | err e ↦ err e
  | ok partitions ↦ checked_table mbr none partitions
]

abbrev pub gpt_partition : ℕ → ℕ → List ℕ → Partition
gpt_partition index entry_size entry = record {
  index = index + 1;
  first_lba = le 8 entry 32;
  sector_count = le 8 entry 40 - le 8 entry 32 + 1;
  bootable = false;
  mbr_type = none;
  type_guid = some (slice 0 16 entry);
  unique_guid = some (slice 16 16 entry);
  attributes = le 8 entry 48;
  name = decode_gpt_name (slice 56 (min entry_size 128 - 56) entry);
}

-- the condition on an entry that is used
pub is_bad_entry : GptHeader → List ℕ → Bool
is_bad_entry h entry =
    is_zero (slice 16 16 entry)
    || ltb (le 8 entry 32) h.first_usable_lba
    || ltb h.last_usable_lba (le 8 entry 40)
    || ltb (le 8 entry 40) (le 8 entry 32)

-- One round of the loop of `read_gpt`. The subtraction is of a number that is not larger; one more than
-- its result can be 2 ^ 64, which the source checks.
pub check_gpt_entry : GptHeader → ℕ → List ℕ → Result StorageError (Option Partition)
check_gpt_entry h index entry =
    if is_zero (slice 0 16 entry)
    then ok none
    else if is_bad_entry h entry
    then err invalid_gpt
    else if leb (2 ^ 64) (le 8 entry 40 - le 8 entry 32 + 1)
    then err invalid_gpt
    else ok (some (gpt_partition index h.entry_size entry))

abbrev pub push_some : Option Partition → List Partition → List Partition
push_some none ps = ps
push_some (some p) ps = p ∷ ps

-- the loop over the entries from `index` on
pub gpt_partitions : GptHeader → (entries index : ℕ) → List ℕ → Result StorageError (List Partition)
gpt_partitions h zero index bytes = ok []
gpt_partitions h (suc entries) index bytes =
    elim (check_gpt_entry h index (slice (index * h.entry_size) h.entry_size bytes)) [
      | err e ↦ err e
      | ok found ↦ map_ok (push_some found) (gpt_partitions h entries (index + 1) bytes)
    ]

pub is_bad_place : GptHeader → ℕ → Bool
is_bad_place h disk_sectors =
    not (h.current_lba == 1)
    || leb disk_sectors h.backup_lba
    || leb disk_sectors h.last_usable_lba
    || ltb h.entries_lba 2

-- `entry_sectors`, and whether the entries leave the disk or reach into the usable part
abbrev pub entry_sectors : GptHeader → ℕ → ℕ
entry_sectors h sector_size = (h.entry_count * h.entry_size + (sector_size - 1)) / sector_size

pub is_bad_end : GptHeader → ℕ → ℕ → Bool
is_bad_end h disk_sectors end =
    leb (2 ^ 64) end || ltb disk_sectors end || ltb h.first_usable_lba end

-- the sums and the products that the source checks before it reads the entries
pub check_gpt_sizes : GptHeader → ℕ → ℕ → Result StorageError Unit
check_gpt_sizes h disk_sectors sector_size =
    let bytes = h.entry_count * h.entry_size in
    if leb (2 ^ 64) bytes || leb (2 ^ 64) (bytes + (sector_size - 1))
    then err too_large
    else if is_bad_end h disk_sectors (h.entries_lba + entry_sectors h sector_size)
    then err invalid_gpt
    else refuse_if (leb (2 ^ 64) (entry_sectors h sector_size * sector_size)) too_large

-- what `read_gpt` makes of the bytes of the entries
pub gpt_table : GptHeader → List ℕ → Result StorageError PartitionTable
gpt_table h bytes =
    if not (crc32 (take (h.entry_count * h.entry_size) bytes) == h.entries_crc32)
    then err checksum_mismatch
    else elim (gpt_partitions h h.entry_count 0 bytes) [
      | err e ↦ err e
      | ok partitions ↦ checked_table gpt (some h.disk_guid) partitions
    ]

abbrev pub is_protective : Option MbrPartition → Bool
is_protective none = false
is_protective (some p) = p.partition_type == 0xee

pub any_protective : List (Option MbrPartition) → Bool
any_protective [] = false
any_protective (slot ∷ slots) = is_protective slot || any_protective slots

module _ {D : Type 0} (dev : BlockDevice D) where
  -- the entries that a header which passes the checks points to
  pub read_gpt_entries : ℕ → GptHeader → Stateful StorageError D PartitionTable
  read_gpt_entries sector_size header = do
    bytes ← dev.read_sectors header.entries_lba (entry_sectors header sector_size * sector_size)
    lift (gpt_table header bytes)

  -- `read_gpt` from the header on, with the size of the disk
  pub read_gpt_placed : ℕ → GptHeader → ℕ → Stateful StorageError D PartitionTable
  read_gpt_placed sector_size header disk_sectors = do
    lift (refuse_if (is_bad_place header disk_sectors) invalid_gpt)
    lift (check_gpt_sizes header disk_sectors sector_size)
    read_gpt_entries sector_size header

  pub read_gpt_header : ℕ → List ℕ → Stateful StorageError D PartitionTable
  read_gpt_header sector_size sector = do
    header ← lift (parse_gpt_header sector)
    disk_sectors ← ask (λ d. ok (dev.sector_count d))
    read_gpt_placed sector_size header disk_sectors

  pub read_gpt : ℕ → Stateful StorageError D PartitionTable
  read_gpt sector_size = do
    sector ← dev.read_sectors 1 sector_size
    read_gpt_header sector_size sector

  -- the branch of `read_partition_table` on the entries of the first sector
  pub read_entries : ℕ → List (Option MbrPartition) → Stateful StorageError D PartitionTable
  read_entries sector_size entries =
      if any_protective entries
      then read_gpt sector_size
      else (ask (λ d. ok (dev.sector_count d)) >>= λ disk_sectors.
          lift (read_mbr_table disk_sectors entries))

  pub read_first_sector : ℕ → List ℕ → Stateful StorageError D PartitionTable
  read_first_sector sector_size sector = do
    entries ← lift (parse_mbr sector)
    read_entries sector_size entries

  pub read_partition_table : Stateful StorageError D PartitionTable
  read_partition_table = do
    sector_size ← ask (λ d. ok (dev.sector_size d))
    lift (refuse_if (ltb sector_size 512) unsupported_sector_size)
    sector ← dev.read_sectors 0 sector_size
    read_first_sector sector_size sector
