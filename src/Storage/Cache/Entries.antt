-- ===== src/Storage/Cache/Entries.antt =====
-- The steps of the cache keep it coherent, and keep what it shows.
use nix_os.Prelude.{
  ℕ, ◌+◌, ◌%◌, ◌^◌, ◌<◌, ◌≡◌, ◌≢◌, refl, sym, ap, ◌∙◌, false, List, arith, length, get_or,
  get_or-set, length-set, Option-cases, inl, inr, Result, ok,
}
use nix_os.Storage.Device.{StorageError, BlockDevice}
use nix_os.Storage.Cache.{
  CacheEntry, CachedBlockDevice, no_entry, find_entry, entry_at, touch, write_back,
}
use nix_os.Storage.Cache.Coherent.{
  Sectors, find_entry_found, find_entry_missing, contents, IsCoherent, contents_at, contents_off,
}

abbrev pub at : List CacheEntry → ℕ → CacheEntry
at es i = get_or es i no_entry

module _ {D : Type 0} (dev : BlockDevice D) (law : Sectors dev) where
  -- How the cache shows a sector: from entry `i`, or from the device.
  pub data Shown (c : CachedBlockDevice D) (l : ℕ) : Type 0 where
    held : (i : ℕ) → i < length c.entries → (at c.entries i).lba ≡ l → Shown c l
    off : ((i : ℕ) → i < length c.entries → (at c.entries i).lba ≢ l) → Shown c l

  pub shown : (c : CachedBlockDevice D) (l : ℕ) → Shown c l
  shown c l = elim (Option-cases (find_entry l c.entries)) [
    | inl h ↦ off (λ i lt. find_entry_missing l c.entries i h lt)
    | inr (k, h) ↦ let (lt, e) = find_entry_found l c.entries k h in held k lt e
  ]

  -- The two caches show the same.
  abbrev pub ShowsSame : CachedBlockDevice D → CachedBlockDevice D → Type 0
  ShowsSame c c' = (l : ℕ) → contents dev law c' l ≡ contents dev law c l

  -- The two caches have the same device and the same entries, up to stamps.
  pub record IsAlike (c c' : CachedBlockDevice D) : Type 0 where
    pub same_inner : c'.inner ≡ c.inner
    pub same_count : length c'.entries ≡ length c.entries
    pub same_entry :
        (i : ℕ)
        → ((at c'.entries i).lba ≡ (at c.entries i).lba)
          × ((at c'.entries i).bytes ≡ (at c.entries i).bytes)
          × ((at c'.entries i).dirty ≡ (at c.entries i).dirty)

  pub alike-IsCoherent :
      (c c' : CachedBlockDevice D) → IsAlike c c' → IsCoherent dev law c → IsCoherent dev law c'
  alike-IsCoherent c c' a v = record {
    distinct =
        λ i j p q e. ground (arith, a.same_entry i, a.same_entry j, a.same_count, v.distinct i j);
    sized = λ i p. rw (a.same_inner, (a.same_entry i).1) (v.sized i (omega (arith, a.same_count)));
    clean = λ i p d.
        rw (a.same_inner, (a.same_entry i).0, (a.same_entry i).1)
          (v.clean i (omega (arith, a.same_count)) (sym (a.same_entry i).2 ∙ d));
  }

  pub alike-ShowsSame :
      (c c' : CachedBlockDevice D) → IsAlike c c' → IsCoherent dev law c → ShowsSame c c'
  alike-ShowsSame c c' a v l = elim (shown c l) [
    | held i lt e ↦
        contents_at dev law c' i l (alike-IsCoherent c c' a v) (omega (arith, a.same_count))
          ((a.same_entry i).0 ∙ e)
        ∙ (a.same_entry i).1
        ∙ sym (contents_at dev law c i l v lt e)
    | off h ↦
        contents_off dev law c' l
          (λ i lt e. h i (omega (arith, a.same_count)) (sym (a.same_entry i).0 ∙ e))
        ∙ ap (λ d. law.sector d l) a.same_inner
        ∙ sym (contents_off dev law c l h)
  ]

  pub touch-IsAlike : (i : ℕ) (c : CachedBlockDevice D) → IsAlike c (touch dev i c)
  unfolding touch
  touch-IsAlike i c = record {
    same_inner = refl;
    same_count = length-set c.entries i _;
    same_entry = λ j. ground (
      arith,
      get_or-set c.entries i j (record (entry_at dev i c) { stamp = (c.stamp + 1) % 2 ^ 64 })
          no_entry,
    );
  }

  -- What a write-back of entry `i` achieves, also when the device fails.
  pub record WritesBack (i : ℕ) (c : CachedBlockDevice D)
      (out : Result StorageError Unit × CachedBlockDevice D) : Type 0 where
    pub coherent : IsCoherent dev law out.1
    pub shows : ShowsSame c out.1
    pub count : length out.1.entries ≡ length c.entries
    pub numbers : (j : ℕ) → (at out.1.entries j).lba ≡ (at c.entries j).lba
    pub device_size : dev.sector_size out.1.inner ≡ dev.sector_size c.inner
    pub cleaned : out.0 ≡ ok tt → (at out.1.entries i).dirty ≡ false

  pub write_back_clean :
      (i : ℕ) (c : CachedBlockDevice D)
      → IsCoherent dev law c
      → (at c.entries i).dirty ≡ false
      → WritesBack i c (write_back dev i c)
  unfolding write_back
  write_back_clean i c v d =
      rw (d, write_back)
        record {
          coherent = v;
          shows = λ l. refl;
          count = refl;
          numbers = λ j. refl;
          device_size = refl;
          cleaned = λ e. d;
        }
