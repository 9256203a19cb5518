-- ===== src/Storage/Cache/WriteBack.antt =====
-- Writing an entry back changes the device and the entry, and not what the cache shows.
use nix_os.Prelude.{
  Result-cases, ℕ, ◌<◌, ◌≡◌, ◌≢◌, refl, sym, ◌∙◌, true, false, arith, ◌==◌, if◌then◌else◌, length,
  set, get_or-set, length-set, Bool-cases, inl, inr, Result, ok,
}
use native.Mathlib.Decide.{ℕ_discrete}
use nix_os.Storage.Device.{StorageError, BlockDevice}
use nix_os.Storage.Cache.{CacheEntry, CachedBlockDevice, no_entry, write_back, count_writeback}
use nix_os.Storage.Cache.Coherent.{Sectors, IsCoherent, contents_at, contents_off}
use nix_os.Storage.Cache.Entries.{at, held, off, shown, ShowsSame, WritesBack, write_back_clean}

module _ {D : Type 0} (dev : BlockDevice D) (law : Sectors dev) (i : ℕ) (c : CachedBlockDevice D)
    (v : IsCoherent dev law c) (lt : i < length c.entries)
    (dirty : (at c.entries i).dirty ≡ true) where
  abbrev entry : CacheEntry
  entry = at c.entries i

  abbrev written : Result StorageError Unit × D
  written = dev.write_sectors entry.lba entry.bytes c.inner

  others_keep : (j : ℕ) → j ≢ entry.lba → law.sector written.1 j ≡ law.sector c.inner j
  others_keep j ne = law.write_keeps entry.lba entry.bytes c.inner j (v.sized i lt) ne

  same_size : dev.sector_size written.1 ≡ dev.sector_size c.inner
  same_size = law.write_size entry.lba entry.bytes c.inner

  -- the cache when the device has failed
  abbrev failed : CachedBlockDevice D
  failed = record c { inner = written.1 }

  -- A clean entry is another one, whose sector the write left alone.
  clean_elsewhere :
      (j : ℕ)
      → j < length c.entries
      → (at c.entries j).dirty ≡ false
      → (at c.entries j).lba ≢ entry.lba
  clean_elsewhere j p d e = ground (arith, v.distinct j i p lt e)

  failed-IsCoherent : IsCoherent dev law failed
  failed-IsCoherent = record {
    distinct = v.distinct;
    sized = λ j p. v.sized j p ∙ sym same_size;
    clean = λ j p d. v.clean j p d ∙ sym (others_keep _ (clean_elsewhere j p d));
  }

  failed-ShowsSame : ShowsSame dev law c failed
  failed-ShowsSame l = elim (shown dev law c l) [
    | held j p e ↦
        contents_at dev law failed j l failed-IsCoherent p e ∙ sym (contents_at dev law c j l v p e)
    | off h ↦
        contents_off dev law failed l h
        ∙ others_keep l (λ e. h i lt (sym e))
        ∙ sym (contents_off dev law c l h)
  ]

  -- the cache when the device has taken the sector
  abbrev cleaned_cache : CachedBlockDevice D
  cleaned_cache = record c {
    inner = written.1;
    entries = set c.entries i (record entry { dirty = false });
    stats = count_writeback c.stats;
  }

  entry_after :
      (j : ℕ)
      → ((at cleaned_cache.entries j).lba ≡ (at c.entries j).lba)
        × ((at cleaned_cache.entries j).bytes ≡ (at c.entries j).bytes)
        × ((at cleaned_cache.entries j).dirty ≡ (if i == j then false else (at c.entries j).dirty))
  entry_after j = ground (arith, get_or-set c.entries i j (record entry { dirty = false }) no_entry)

  count_after : length cleaned_cache.entries ≡ length c.entries
  count_after = length-set c.entries i _

  cleaned-IsCoherent : written.0 ≡ ok tt → IsCoherent dev law cleaned_cache
  cleaned-IsCoherent fine = record {
    distinct = λ j k p q e.
        v.distinct j k (omega (arith, count_after)) (omega (arith, count_after))
          (sym (entry_after j).0 ∙ e ∙ (entry_after k).0);
    sized = λ j p. rw (entry_after j).1 (v.sized j (omega (arith, count_after)) ∙ sym same_size);
    clean = λ j p d.
        rw ((entry_after j).0, (entry_after j).1)
          (clean_now j (omega (arith, count_after)) d (ℕ_discrete i j));
  }
    where
      clean_now :
          (j : ℕ)
          → j < length c.entries
          → (at cleaned_cache.entries j).dirty ≡ false
          → Dec (i ≡ j)
          → (at c.entries j).bytes ≡ law.sector written.1 (at c.entries j).lba
      clean_now j p d (yes e) =
          rw (← e) (sym (law.write_puts entry.lba entry.bytes c.inner (v.sized i lt) fine))
      clean_now j p d (no ne) =
          let was : (at c.entries j).dirty ≡ false = ground (arith, entry_after j) in
          v.clean j p was ∙ sym (others_keep _ (clean_elsewhere j p was))

  cleaned-ShowsSame : written.0 ≡ ok tt → ShowsSame dev law c cleaned_cache
  cleaned-ShowsSame fine l = elim (shown dev law c l) [
    | held j p e ↦
        contents_at dev law cleaned_cache j l (cleaned-IsCoherent fine) (omega (arith, count_after))
          ((entry_after j).0 ∙ e)
        ∙ (entry_after j).1
        ∙ sym (contents_at dev law c j l v p e)
    | off h ↦
        contents_off dev law cleaned_cache l
          (λ j p e. h j (omega (arith, count_after)) (sym (entry_after j).0 ∙ e))
        ∙ others_keep l (λ e. h i lt (sym e))
        ∙ sym (contents_off dev law c l h)
  ]

  write_back_dirty : WritesBack dev law i c (write_back dev i c)
  unfolding write_back
  write_back_dirty = elim (Result-cases written.0) [
    | inl (u, e) ↦
        rw (dirty, write_back)
          (rw e (record {
            coherent = cleaned-IsCoherent e;
            shows = cleaned-ShowsSame e;
            count = count_after;
            numbers = λ j. (entry_after j).0;
            device_size = same_size;
            cleaned = λ f. ground (arith, entry_after i);
          }))
    | inr (x, e) ↦
        rw (dirty, write_back)
          (rw e (record {
            coherent = failed-IsCoherent;
            shows = failed-ShowsSame;
            count = refl;
            numbers = λ j. refl;
            device_size = same_size;
            cleaned = λ f. absurd (ground arith);
          }))
  ]

-- Writing entry `i` of a coherent cache back, whether or not it is dirty and whether or not the device
-- fails, leaves the cache coherent and showing the same; if it succeeds the entry is clean.
pub write_back-WritesBack :
    {D : Type 0} (dev : BlockDevice D) (law : Sectors dev) (i : ℕ) (c : CachedBlockDevice D)
    → IsCoherent dev law c
    → i < length c.entries
    → WritesBack dev law i c (write_back dev i c)
write_back-WritesBack dev law i c v lt = elim (Bool-cases (at c.entries i).dirty) [
  | inl d ↦ write_back_dirty dev law i c v lt d
  | inr d ↦ write_back_clean dev law i c v d
]
