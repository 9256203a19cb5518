-- ===== src/Storage/Cache.antt =====
-- crates/nexos-storage/src/cache.rs: the write-back sector cache over a block device.
-- The inner device is a parameter. `copy_from_slice` between a sector and an entry is a plain copy:
-- both have the sector's size.
pub mod Coherent
pub mod Entries
pub mod WriteBack
pub mod Fill
pub mod Lookup
pub mod EntryFor
pub mod Transfer
pub mod Store
pub mod Sound
pub mod Persist
pub mod Stale
mod Tests
use nix_os.Prelude.{
  ℕ, zero, suc, ◌+◌, ◌-◌, ◌*◌, ◌/◌, ◌%◌, ◌^◌, Bool, true, false, ◌||◌, not, Option, none, some,
  List, [], ◌∷◌, ◌++◌, ltb, leb, ◌==◌, if◌then◌else◌, length, get_or, set, take, drop, replicate,
  Result, ok, err,
}
use nix_os.Storage.Device.{StorageError, out_of_bounds, invalid_buffer, device, BlockDevice}

pub record CacheStats : Type 0 where
  pub hits : ℕ
  pub misses : ℕ
  pub evictions : ℕ
  pub writebacks : ℕ

pub record CacheEntry : Type 0 where
  pub lba : ℕ
  pub bytes : List ℕ
  pub dirty : Bool
  pub stamp : ℕ

pub record CachedBlockDevice (D : Type 0) : Type 0 where
  pub inner : D
  pub entries : List CacheEntry
  pub capacity : ℕ
  pub stamp : ℕ
  pub stats : CacheStats

abbrev pub saturating_succ : ℕ → ℕ
saturating_succ n = if ltb (n + 1) (2 ^ 64) then n + 1 else n

abbrev pub count_hit : CacheStats → CacheStats
count_hit s = record s { hits = saturating_succ s.hits }

abbrev pub count_miss : CacheStats → CacheStats
count_miss s = record s { misses = saturating_succ s.misses }

abbrev pub count_eviction : CacheStats → CacheStats
count_eviction s = record s { evictions = saturating_succ s.evictions }

abbrev pub count_writeback : CacheStats → CacheStats
count_writeback s = record s { writebacks = saturating_succ s.writebacks }

-- an entry as it is pushed, before its sector is read
abbrev pub blank_entry : ℕ → ℕ → CacheEntry
blank_entry lba size = record { lba = lba; bytes = replicate size 0; dirty = false; stamp = 0 }

abbrev pub no_entry : CacheEntry
no_entry = blank_entry 0 0

-- `entries.iter().position(|entry| entry.lba == lba)`
pub find_entry : ℕ → List CacheEntry → Option ℕ
find_entry lba [] = none
find_entry lba (e ∷ es) =
    if e.lba == lba
    then some 0
    else elim (find_entry lba es) [ none ↦ none | some i ↦ some (suc i) ]

-- `min_by_key(|(_, entry)| entry.stamp)`: the first entry with the least stamp
pub oldest_from : ℕ → ℕ → ℕ → List CacheEntry → ℕ
oldest_from best stamp i [] = best
oldest_from best stamp i (e ∷ es) =
    oldest_from (if ltb e.stamp stamp then i else best)
      (if ltb e.stamp stamp then e.stamp else stamp) (i + 1) es

pub oldest : List CacheEntry → Option ℕ
oldest [] = none
oldest (e ∷ es) = some (oldest_from 0 e.stamp 1 es)

module _ {D : Type 0} (dev : BlockDevice D) where
  pub new : D → ℕ → Result StorageError (CachedBlockDevice D)
  new inner capacity =
      if capacity == 0
      then err invalid_buffer
      else ok (record {
        inner = inner;
        entries = [];
        capacity = capacity;
        stamp = 0;
        stats = record { hits = 0; misses = 0; evictions = 0; writebacks = 0 };
      })

  abbrev pub entry_at : ℕ → CachedBlockDevice D → CacheEntry
  entry_at i c = get_or c.entries i no_entry

  abbrev pub put_entry : ℕ → CacheEntry → CachedBlockDevice D → CachedBlockDevice D
  put_entry i e c = record c { entries = set c.entries i e }

  -- `wrapping_add(1)` on `u64`
  pub touch : ℕ → CachedBlockDevice D → CachedBlockDevice D
  touch i c =
      let now = (c.stamp + 1) % 2 ^ 64 in
      record c { stamp = now; entries = set c.entries i (record (entry_at i c) { stamp = now }) }

  pub write_back : ℕ → CachedBlockDevice D → Result StorageError Unit × CachedBlockDevice D
  write_back i c =
      let e = entry_at i c in
      if e.dirty
      then (let (r, inner) = dev.write_sectors e.lba e.bytes c.inner in
          elim r [
            | err x ↦ (err x, record c { inner = inner })
            | ok u ↦ (
              ok tt,
              record c {
                inner = inner;
                entries = set c.entries i (record e { dirty = false });
                stats = count_writeback c.stats;
              },
            )
          ])
      else (ok tt, c)

  -- the end of `entry_for`: the sector is read into entry `i`, which already has its number
  pub load : ℕ → ℕ → CachedBlockDevice D → Result StorageError ℕ × CachedBlockDevice D
  load i lba c =
      let (r, inner) = dev.read_sectors lba (length (entry_at i c).bytes) c.inner in
      let c' : CachedBlockDevice D = record c { inner = inner } in
      elim r [
        | err x ↦ (err x, c')
        | ok bytes ↦ (
          ok i,
          touch i (put_entry i (record (entry_at i c) { bytes = bytes; dirty = false }) c'),
        )
      ]

  -- the branch of `entry_for` for a cache with room
  pub load_new : ℕ → CachedBlockDevice D → Result StorageError ℕ × CachedBlockDevice D
  load_new lba c =
      load (length c.entries) lba
        (record c { entries = c.entries ++ blank_entry lba (dev.sector_size c.inner) ∷ [] })

  -- the branch of `entry_for` for a full cache, once entry `i` has been written back
  pub load_over : ℕ → ℕ → CachedBlockDevice D → Result StorageError ℕ × CachedBlockDevice D
  load_over i lba c = load i lba (record c {
    entries = set c.entries i (record (entry_at i c) { lba = lba });
    stats = count_eviction c.stats;
  })

  pub evict : ℕ → CachedBlockDevice D → Result StorageError ℕ × CachedBlockDevice D
  evict lba c = elim (oldest c.entries) [
    | none ↦ (err device, c)
    | some i ↦
        let (r, c') = write_back i c in elim r [ err x ↦ (err x, c') | ok u ↦ load_over i lba c' ]
  ]

  pub miss : ℕ → CachedBlockDevice D → Result StorageError ℕ × CachedBlockDevice D
  miss lba c = if ltb (length c.entries) c.capacity then load_new lba c else evict lba c

  pub entry_for : ℕ → CachedBlockDevice D → Result StorageError ℕ × CachedBlockDevice D
  entry_for lba c = elim (find_entry lba c.entries) [
    | some i ↦ (ok i, touch i (record c { stats = count_hit c.stats }))
    | none ↦ miss lba (record c { stats = count_miss c.stats })
  ]

  -- The sector size is never 0 on a device that the cache is given. With a size of 0 the source's
  -- `is_multiple_of` holds of the length 0 alone, so that every call is refused.
  pub validate_transfer : ℕ → ℕ → CachedBlockDevice D → Result StorageError ℕ
  validate_transfer lba len c =
      let size = dev.sector_size c.inner in
      if len == 0 || not (len % size == 0)
      then err invalid_buffer
      else if leb (2 ^ 64) (lba + len / size) || ltb (dev.sector_count c.inner) (lba + len / size)
      then err out_of_bounds
      else ok size

  -- the loop of `read_sectors` over the sectors of the buffer, with the number left
  pub read_each : ℕ → ℕ → CachedBlockDevice D → Result StorageError (List ℕ) × CachedBlockDevice D
  read_each zero lba c = (ok [], c)
  read_each (suc n) lba c =
      let (r, c') = entry_for lba c in
      elim r [
        | err x ↦ (err x, c')
        | ok i ↦
            let (rest, c'') = read_each n (lba + 1) c' in
            elim rest [
              | err x ↦ (err x, c'')
              | ok bytes ↦ (ok ((entry_at i c').bytes ++ bytes), c'')
            ]
      ]

  pub read_sectors :
      ℕ → ℕ → CachedBlockDevice D → Result StorageError (List ℕ) × CachedBlockDevice D
  read_sectors lba len c = elim (validate_transfer lba len c) [
    | err x ↦ (err x, c)
    | ok size ↦ read_each (len / size) lba c
  ]

  -- one round of the loop of `write_sectors`
  pub write_one : ℕ → List ℕ → CachedBlockDevice D → Result StorageError Unit × CachedBlockDevice D
  write_one lba source c =
      let (r, c') = entry_for lba c in
      elim r [
        | err x ↦ (err x, c')
        | ok i ↦ (
          ok tt,
          touch i (put_entry i (record (entry_at i c') { bytes = source; dirty = true }) c'),
        )
      ]

  -- the loop of `write_sectors` over `chunks_exact(size)`, with the number left
  pub write_each :
      ℕ → ℕ → ℕ → List ℕ → CachedBlockDevice D → Result StorageError Unit × CachedBlockDevice D
  write_each zero size lba input c = (ok tt, c)
  write_each (suc n) size lba input c =
      let (r, c') = write_one lba (take size input) c in
      elim r [ err x ↦ (err x, c') | ok u ↦ write_each n size (lba + 1) (drop size input) c' ]

  pub write_sectors :
      ℕ → List ℕ → CachedBlockDevice D → Result StorageError Unit × CachedBlockDevice D
  write_sectors lba input c = elim (validate_transfer lba (length input) c) [
    | err x ↦ (err x, c)
    | ok size ↦ write_each (length input / size) size lba input c
  ]

  -- the loop of `flush`, with the number of entries left
  pub flush_from : ℕ → ℕ → CachedBlockDevice D → Result StorageError Unit × CachedBlockDevice D
  flush_from zero i c = (ok tt, c)
  flush_from (suc n) i c =
      let (r, c') = write_back i c in
      elim r [ err x ↦ (err x, c') | ok u ↦ flush_from n (i + 1) c' ]

  pub flush : CachedBlockDevice D → Result StorageError Unit × CachedBlockDevice D
  flush c =
      let (r, c') = flush_from (length c.entries) 0 c in
      elim r [
        | err x ↦ (err x, c')
        | ok u ↦ let (r', inner) = dev.flush c'.inner in (r', record c' { inner = inner })
      ]

  -- `self.flush()?; Ok(self.inner)`
  pub into_inner : CachedBlockDevice D → Result StorageError D
  into_inner c = let (r, c') = flush c in elim r [ err x ↦ err x | ok u ↦ ok c'.inner ]
