-- ===== src/Storage/Partition/Table/Gpt.antt =====
-- The tables of a GPT.
use nix_os.Prelude.{
  ℕ, zero, suc, ◌+◌, ◌-◌, ◌*◌, ◌^◌, ◌≤◌, ◌<◌, ◌≡◌, refl, true, false, Option, none, some, List, [],
  ◌∷◌, arith, take, not, slice, Bool, Result, ok, err, Bool-cases, inl, inr, map_ok, ltb, leb, ◌||◌,
  ◌==◌, if◌then◌else◌,
}
use nix_os.Storage.Device.{StorageError, invalid_gpt, checksum_mismatch, crc32}
use nix_os.Storage.Partition.{Partition}
use nix_os.Storage.Partition.Table.{
  GptHeader, PartitionTable, PartitionTableKind, checked_table, check_gpt_entry, gpt_partitions,
  gpt_partition, is_bad_entry, is_zero, le, push_some, is_bad_place, is_bad_end, check_gpt_sizes,
  gpt_table,
}
use nix_os.Storage.Partition.Table.Extents.{
  IsExtent, AllExtents, AllExtents-none, AllExtents-push, IsTable, checked_table-IsTable,
}

-- The header's usable part begins behind its entries and ends on the disk.
pub record IsPlaced (disk_sectors : ℕ) (h : GptHeader) : Type 0 where
  pub behind : 0 < h.first_usable_lba
  pub within : h.last_usable_lba < disk_sectors

pub IsPlaced-intro :
    (disk_sectors sector_size : ℕ) (h : GptHeader)
    → is_bad_place h disk_sectors ≡ false
    → check_gpt_sizes h disk_sectors sector_size ≡ ok tt
    → IsPlaced disk_sectors h
unfolding is_bad_place is_bad_end check_gpt_sizes
IsPlaced-intro disk_sectors sector_size h place sizes = record {
  behind = ground arith;
  within = ground arith;
}

-- an entry that passes the condition
entry_placed :
    (h : GptHeader) (entry : List ℕ)
    → is_bad_entry h entry ≡ false
    → (h.first_usable_lba ≤ le 8 entry 32)
      × (le 8 entry 40 ≤ h.last_usable_lba)
      × (le 8 entry 32 ≤ le 8 entry 40)
unfolding is_bad_entry
entry_placed h entry e = elim (Bool-cases (is_zero (slice 16 16 entry))) [
  | inl z ↦ absurd (ground (arith, z))
  | inr z ↦ rest (le 8 entry 32) (le 8 entry 40) (rw z at e)
]
  where
    rest :
        (first last : ℕ)
        → (false || ltb first h.first_usable_lba || ltb h.last_usable_lba last || ltb last first)
          ≡ false
        → (h.first_usable_lba ≤ first) × (last ≤ h.last_usable_lba) × (first ≤ last)
    rest first last f = ground arith

check_gpt_entry_lem :
    (h : GptHeader) (index : ℕ) (entry : List ℕ) (p : Partition)
    → check_gpt_entry h index entry ≡ ok (some p)
    → (is_bad_entry h entry ≡ false) × (gpt_partition index h.entry_size entry ≡ p)
unfolding check_gpt_entry
check_gpt_entry_lem h index entry p =
    go (is_zero (slice 0 16 entry)) (is_bad_entry h entry)
      (leb (2 ^ 64) (le 8 entry 40 - le 8 entry 32 + 1)) (gpt_partition index h.entry_size entry)
  where
    go :
        (unused bad long : Bool) (made : Partition)
        → (if unused
            then ok none
            else if bad
            then err invalid_gpt
            else if long
            then err invalid_gpt
            else ok (some made))
          ≡ ok (some p)
        → (bad ≡ false) × (made ≡ p)
    go true bad long made e = absurd (ground arith)
    go false true long made e = absurd (ground arith)
    go false false true made e = absurd (ground arith)
    go false false false made e = (refl, ground arith)

check_gpt_entry-IsExtent :
    (disk_sectors index : ℕ) (h : GptHeader) (entry : List ℕ) (p : Partition)
    → IsPlaced disk_sectors h
    → check_gpt_entry h index entry ≡ ok (some p)
    → IsExtent disk_sectors p
check_gpt_entry-IsExtent disk_sectors index h entry p placed e =
    let (fine, same) = check_gpt_entry_lem h index entry p e in
    let (low, high, order) = entry_placed h entry fine in
    rw same at (placed_extent (le 8 entry 32) (le 8 entry 40) low high order)
  where
    placed_extent :
        (first last : ℕ)
        → h.first_usable_lba ≤ first
        → last ≤ h.last_usable_lba
        → first ≤ last
        → IsExtent disk_sectors (record (gpt_partition index h.entry_size entry) {
          first_lba = first;
          sector_count = last - first + 1;
        })
    placed_extent first last low high order = record {
      behind = omega (arith, placed.behind);
      some_sectors = omega arith;
      within = omega (arith, placed.within);
    }

gpt_partitions-AllExtents :
    (disk_sectors n index : ℕ) (h : GptHeader) (bytes : List ℕ) (ps : List Partition)
    → IsPlaced disk_sectors h
    → gpt_partitions h n index bytes ≡ ok ps
    → AllExtents disk_sectors ps
unfolding gpt_partitions
gpt_partitions-AllExtents disk_sectors zero index h bytes ps placed e =
    let same : [] ≡ ps = ground arith in rw same at (AllExtents-none disk_sectors)
gpt_partitions-AllExtents disk_sectors (suc n) index h bytes ps placed e =
    go (check_gpt_entry h index entry) (gpt_partitions h n (index + 1) bytes)
      (λ others g. gpt_partitions-AllExtents disk_sectors n (index + 1) h bytes others placed g)
      refl refl e
  where
    entry : List ℕ
    entry = slice (index * h.entry_size) h.entry_size bytes

    go :
        (found : Result StorageError (Option Partition))
        (rest : Result StorageError (List Partition))
        → ((others : List Partition)
            → gpt_partitions h n (index + 1) bytes ≡ ok others
            → AllExtents disk_sectors others)
        → check_gpt_entry h index entry ≡ found
        → gpt_partitions h n (index + 1) bytes ≡ rest
        → (elim found [ err x ↦ err x | ok p ↦ map_ok (push_some p) rest ]) ≡ ok ps
        → AllExtents disk_sectors ps
    go (err x) rest all f g q = absurd (ground arith)
    go (ok p) (err x) all f g q = absurd (ground arith)
    go (ok none) (ok others) all f g q =
        let same : others ≡ ps = ground arith in rw same at (all others g)
    go (ok (some p)) (ok others) all f g q =
        let same : p ∷ others ≡ ps = ground arith in
        rw same at (
          AllExtents-push disk_sectors p others
            (check_gpt_entry-IsExtent disk_sectors index h entry p placed f) (all others g))

pub gpt_table-IsTable :
    (disk_sectors : ℕ) (h : GptHeader) (bytes : List ℕ) (t : PartitionTable)
    → IsPlaced disk_sectors h
    → gpt_table h bytes ≡ ok t
    → IsTable disk_sectors t
unfolding gpt_table
gpt_table-IsTable disk_sectors h bytes t placed e =
    go (not (crc32 (take (h.entry_count * h.entry_size) bytes) == h.entries_crc32))
      (gpt_partitions h h.entry_count 0 bytes) refl e
  where
    go :
        (bad : Bool) (parsed : Result StorageError (List Partition))
        → gpt_partitions h h.entry_count 0 bytes ≡ parsed
        → (if bad then err checksum_mismatch else elim parsed [
          | err x ↦ err x
          | ok ps ↦ checked_table PartitionTableKind.gpt (some h.disk_guid) ps
        ])
          ≡ ok t
        → IsTable disk_sectors t
    go true parsed f q = absurd (ground arith)
    go false (err x) f q = absurd (ground arith)
    go false (ok ps) f q =
        checked_table-IsTable disk_sectors PartitionTableKind.gpt (some h.disk_guid) ps t
          (gpt_partitions-AllExtents disk_sectors h.entry_count 0 h bytes ps placed f) q
