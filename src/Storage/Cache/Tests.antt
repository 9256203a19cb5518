-- ===== src/Storage/Cache/Tests.antt =====
-- The cache over a concrete device, and its theorems at it.
use nix_os.Prelude.{
  ◌+◌, ◌/◌, ◌≤◌, ℕ, zero, suc, ◌<◌, ◌≡◌, refl, true, List, [], ◌∷◌, arith, ◌==◌, if◌then◌else◌,
  length, get_or, ok, err,
}
use nix_os.Storage.Device.{StorageError, BlockDevice}
use nix_os.Storage.Cache.{
  CachedBlockDevice, no_entry, find_entry, oldest, oldest_from, new, touch, write_back, load,
  load_new, load_over, evict, miss, entry_for, validate_transfer, read_each, read_sectors,
  write_one, write_each, write_sectors, flush_from, flush,
}
use nix_os.Storage.Cache.Coherent.{Sectors, IsCoherent}
use nix_os.Storage.Cache.Entries.{WritesBack}
use nix_os.Storage.Cache.WriteBack.{write_back-WritesBack}
use nix_os.Storage.Cache.Transfer.{Reads}
use nix_os.Storage.Cache.Stale.{read_each-entry_for_stale}
use nix_os.Storage.Cache.Store.{Writes}
use nix_os.Storage.Cache.Sound.{read_sectors-Reads, write_sectors-Writes}

-- A device of eight sectors of one byte each.
abbrev Disk : Type 0
Disk = ℕ → ℕ

abbrev put : ℕ → List ℕ → Disk → Disk
put lba bytes d j = if j == lba then get_or bytes 0 0 else d j

abbrev disk_device : BlockDevice Disk
disk_device = record {
  sector_size = λ d. 1;
  sector_count = λ d. 8;
  read_sectors = λ lba len d. (ok (d lba ∷ []), d);
  write_sectors = λ lba bytes d. (ok tt, put lba bytes d);
  flush = λ d. (ok tt, d);
}

one_byte : (bytes : List ℕ) → length bytes ≡ 1 → get_or bytes 0 0 ∷ [] ≡ bytes
one_byte [] h = absurd (omega arith)
one_byte (b ∷ []) h = refl
one_byte (b ∷ c ∷ bytes) h = absurd (omega arith)

disk_sectors : Sectors disk_device
disk_sectors = record {
  sector = λ d lba. d lba ∷ [];
  read_gives = λ lba d bytes e. (ground (arith, e), ground (arith, e));
  read_keeps = λ lba d j. refl;
  write_puts = λ lba bytes d h e. ground (arith, one_byte bytes h);
  write_keeps = λ lba bytes d j h ne. ground (arith, ne);
  flush_keeps = λ d j. refl;
  read_size = λ lba d. refl;
  write_size = λ lba bytes d. refl;
}

abbrev blank : Disk
blank j = j

-- a cache of one sector, which holds sector 3 with a write that the device has not seen
abbrev written : CachedBlockDevice Disk
written = record {
  inner = blank;
  entries = record { lba = 3; bytes = 9 ∷ []; dirty = true; stamp = 2 } ∷ [];
  capacity = 1;
  stamp = 2;
  stats = record { hits = 0; misses = 1; evictions = 0; writebacks = 0 };
}

abbrev fresh : CachedBlockDevice Disk
fresh = record {
  inner = blank;
  entries = [];
  capacity = 1;
  stamp = 0;
  stats = record { hits = 0; misses = 0; evictions = 0; writebacks = 0 };
}

news :
    (new disk_device blank 1 ≡ ok fresh)
    × (new disk_device blank 0 ≡ err StorageError.invalid_buffer)
unfolding new
news = (refl, refl)

writes_through : write_sectors disk_device 3 (9 ∷ []) fresh ≡ (ok tt, written)
unfolding write_sectors validate_transfer write_each write_one entry_for find_entry miss load_new
    load touch
writes_through = refl

-- Reading another sector writes sector 3 back to make room.
evicts :
    let (r, c) = read_sectors disk_device 4 1 written in
    (r ≡ ok (4 ∷ [])) × (c.inner 3 ≡ 9) × (c.stats.evictions ≡ 1) × (c.stats.writebacks ≡ 1)
unfolding read_sectors validate_transfer read_each entry_for find_entry miss evict oldest
    oldest_from write_back load_over load touch
evicts = (refl, refl, refl, refl)

rejects : validate_transfer disk_device 8 1 written ≡ err StorageError.out_of_bounds
unfolding validate_transfer
rejects = refl

flushes : ((flush disk_device written).1.inner 3 ≡ 9)
unfolding flush flush_from write_back
flushes = refl

written-IsCoherent : IsCoherent disk_device disk_sectors written
written-IsCoherent = record {
  distinct = λ i j p q e. omega arith;
  sized = λ i p. sole i p;
  clean = λ i p e. absurd (ground arith);
}
  where
    sole : (i : ℕ) → i < 1 → length (get_or written.entries i no_entry).bytes ≡ 1
    sole zero p = refl
    sole (suc i) p = absurd (omega arith)

write_back-WritesBack_example :
    WritesBack disk_device disk_sectors 0 written (write_back disk_device 0 written)
write_back-WritesBack_example =
    write_back-WritesBack disk_device disk_sectors 0 written written-IsCoherent (omega arith)

read_sectors-Reads_example :
    (3 + 2 / 1 ≤ 8)
    × Reads disk_device disk_sectors
        (2 / 1)
        3
        written
        (9 ∷ 4 ∷ [])
        (read_sectors disk_device 3 2 written).1
unfolding read_sectors validate_transfer read_each entry_for find_entry miss evict oldest
    oldest_from write_back load_over load touch
read_sectors-Reads_example =
    read_sectors-Reads disk_device disk_sectors 3 2 written (9 ∷ 4 ∷ []) written-IsCoherent refl

write_sectors-Writes_example :
    (4 + 2 / 1 ≤ 8)
    × Writes disk_device disk_sectors
        (2 / 1)
        4
        (7 ∷ 8 ∷ [])
        written
        (write_sectors disk_device 4 (7 ∷ 8 ∷ []) written).1
unfolding write_sectors validate_transfer write_each write_one entry_for find_entry miss evict
    oldest oldest_from write_back load_over load touch
write_sectors-Writes_example =
    write_sectors-Writes disk_device disk_sectors 4 (7 ∷ 8 ∷ []) written written-IsCoherent refl

-- a device whose reads fail
abbrev faulty_device : BlockDevice Disk
faulty_device = record disk_device { read_sectors = λ lba len d. (err StorageError.device, d) }

read_each-entry_for_stale_example :
    let (r, c') = entry_for faulty_device 4 fresh in
    let (r', c'') = read_each faulty_device 1 4 c' in
    (r ≡ err StorageError.device) × (r' ≡ ok (0 ∷ [])) × (c''.inner ≡ c'.inner)
unfolding find_entry
read_each-entry_for_stale_example =
    read_each-entry_for_stale faulty_device 4 fresh StorageError.device refl (omega arith) refl
