-- ===== src/Storage/Cache/Coherent.antt =====
-- What a cache shows of each sector, and the invariant that makes it show the right thing.
use nix_os.Prelude.{
  ℕ, zero, suc, ◌<◌, ◌≡◌, ◌≢◌, false, none, some, List, [], ◌∷◌, arith, length, get_or,
  Option-cases, inl, inr, ok,
}
use nix_os.Storage.Device.{BlockDevice}
use nix_os.Storage.Cache.{CacheEntry, CachedBlockDevice, no_entry, find_entry}

-- What the cache relies on in its inner device: each sector has contents, a read of one sector gives
-- them and changes none, a write of one sector, also one that fails, touches that sector alone, and a
-- flush changes none.
pub record Sectors {D : Type 0} (dev : BlockDevice D) : Type 0 where
  pub sector : D → ℕ → List ℕ
  pub read_gives :
      (lba : ℕ) (d : D) (bytes : List ℕ)
      → (dev.read_sectors lba (dev.sector_size d) d).0 ≡ ok bytes
      → (bytes ≡ sector d lba) × (length bytes ≡ dev.sector_size d)
  pub read_keeps :
      (lba : ℕ) (d : D) (j : ℕ)
      → sector (dev.read_sectors lba (dev.sector_size d) d).1 j ≡ sector d j
  pub write_puts :
      (lba : ℕ) (bytes : List ℕ) (d : D)
      → length bytes ≡ dev.sector_size d
      → (dev.write_sectors lba bytes d).0 ≡ ok tt
      → sector (dev.write_sectors lba bytes d).1 lba ≡ bytes
  pub write_keeps :
      (lba : ℕ) (bytes : List ℕ) (d : D) (j : ℕ)
      → length bytes ≡ dev.sector_size d
      → j ≢ lba
      → sector (dev.write_sectors lba bytes d).1 j ≡ sector d j
  pub flush_keeps : (d : D) (j : ℕ) → sector (dev.flush d).1 j ≡ sector d j
  pub read_size :
      (lba : ℕ) (d : D)
      → dev.sector_size (dev.read_sectors lba (dev.sector_size d) d).1 ≡ dev.sector_size d
  pub write_size :
      (lba : ℕ) (bytes : List ℕ) (d : D)
      → dev.sector_size (dev.write_sectors lba bytes d).1 ≡ dev.sector_size d

-- The entry found has the number asked for; if none is found, no entry has it.
pub find_entry_found :
    (lba : ℕ) (es : List CacheEntry) (i : ℕ)
    → find_entry lba es ≡ some i
    → (i < length es) × ((get_or es i no_entry).lba ≡ lba)
unfolding find_entry
find_entry_found lba [] i h = absurd (ground arith)
find_entry_found lba (e ∷ es) zero h = ground arith
find_entry_found lba (e ∷ es) (suc i) h = ground (arith, find_entry_found lba es i)

pub find_entry_missing :
    (lba : ℕ) (es : List CacheEntry) (i : ℕ)
    → find_entry lba es ≡ none
    → i < length es
    → (get_or es i no_entry).lba ≢ lba
unfolding find_entry
find_entry_missing lba [] i h lt = absurd (omega arith)
find_entry_missing lba (e ∷ es) zero h lt = ground arith
find_entry_missing lba (e ∷ es) (suc i) h lt = ground (arith, find_entry_missing lba es i)

module _ {D : Type 0} (dev : BlockDevice D) (law : Sectors dev) where
  -- Sector `lba` as a reader of the cache is to see it: from its entry, or from the device.
  pub contents : CachedBlockDevice D → ℕ → List ℕ
  contents c lba = elim (find_entry lba c.entries) [
    | none ↦ law.sector c.inner lba
    | some i ↦ (get_or c.entries i no_entry).bytes
  ]

  -- No two entries hold the same sector, entries have the sector's size, and a clean entry holds what
  -- the device holds.
  pub record IsCoherent (c : CachedBlockDevice D) : Type 0 where
    pub distinct :
        (i j : ℕ)
        → i < length c.entries
        → j < length c.entries
        → (get_or c.entries i no_entry).lba ≡ (get_or c.entries j no_entry).lba
        → i ≡ j
    pub sized :
        (i : ℕ)
        → i < length c.entries
        → length (get_or c.entries i no_entry).bytes ≡ dev.sector_size c.inner
    pub clean :
        (i : ℕ)
        → i < length c.entries
        → (get_or c.entries i no_entry).dirty ≡ false
        → (get_or c.entries i no_entry).bytes ≡ law.sector c.inner (get_or c.entries i no_entry).lba

  -- In a coherent cache an entry shows its own sector.
  pub contents_at :
      (c : CachedBlockDevice D) (i lba : ℕ)
      → IsCoherent c
      → i < length c.entries
      → (get_or c.entries i no_entry).lba ≡ lba
      → contents c lba ≡ (get_or c.entries i no_entry).bytes
  unfolding contents
  contents_at c i lba v lt e = elim (Option-cases (find_entry lba c.entries)) [
    | inl h ↦ absurd (find_entry_missing lba c.entries i h lt e)
    | inr (k, h) ↦ ground (arith, h, find_entry_found lba c.entries k h, v.distinct k i)
  ]

  -- A sector that no entry holds shows what the device holds.
  pub contents_off :
      (c : CachedBlockDevice D) (lba : ℕ)
      → ((i : ℕ) → i < length c.entries → (get_or c.entries i no_entry).lba ≢ lba)
      → contents c lba ≡ law.sector c.inner lba
  unfolding contents
  contents_off c lba off = elim (Option-cases (find_entry lba c.entries)) [
    | inl h ↦ rw (h, contents)
    | inr (k, h) ↦ let (lt, e) = find_entry_found lba c.entries k h in absurd (off k lt e)
  ]
