-- ===== src/Storage/Cache/Lookup.antt =====
-- `entry_for`: the entry that it returns holds the sector, and the cache shows what it did.
use nix_os.Prelude.{
  Result-cases, ℕ, ◌<◌, ◌≡◌, ◌≢◌, sym, ap, ◌∙◌, false, List, arith, ◌==◌, if◌then◌else◌, length,
  get_or-set, length-set, inl, inr, Result, ok,
}
use mathlib.Core.Path.{subst}
use nix_os.Storage.Device.{StorageError, BlockDevice}
use nix_os.Storage.Cache.{CacheEntry, CachedBlockDevice, no_entry, put_entry, touch, load}
use nix_os.Storage.Cache.Coherent.{Sectors, IsCoherent}
use nix_os.Storage.Cache.Entries.{at, ShowsSame, alike-IsCoherent, alike-ShowsSame, touch-IsAlike}
use nix_os.Storage.Cache.Fill.{IsOff, IsFilled, filled-IsCoherent, filled-ShowsSame}

module _ {D : Type 0} (dev : BlockDevice D) (law : Sectors dev) where
  -- After a successful `entry_for` the cache is coherent, shows the same, and entry `i` holds sector `l`.
  pub record Holds (c : CachedBlockDevice D) (l : ℕ)
      (out : Result StorageError ℕ × CachedBlockDevice D) (i : ℕ) : Type 0 where
    pub coherent : IsCoherent dev law out.1
    pub shows : ShowsSame dev law c out.1
    pub in_range : i < length out.1.entries
    pub number : (at out.1.entries i).lba ≡ l
    pub device_size : dev.sector_size out.1.inner ≡ dev.sector_size c.inner

  -- The cache `c` with entry `k` made ready for a read of sector `l`.
  pub record IsPrepared (c : CachedBlockDevice D) (l k : ℕ) (c' : CachedBlockDevice D)
      : Type 0 where
    pub in_range : k < length c'.entries
    pub number : (at c'.entries k).lba ≡ l
    pub room : length (at c'.entries k).bytes ≡ dev.sector_size c'.inner
    pub same_device : c'.inner ≡ c.inner
    pub old_entry : (j : ℕ) → j ≢ k → j < length c'.entries → j < length c.entries
    pub kept_entry : (j : ℕ) → j ≢ k → j < length c.entries → j < length c'.entries
    pub same_entry : (j : ℕ) → j ≢ k → j < length c.entries → at c'.entries j ≡ at c.entries j
    pub was_clean : k < length c.entries → (at c.entries k).dirty ≡ false

  pub Holds-touch :
      (c c' : CachedBlockDevice D) (l k : ℕ)
      → IsCoherent dev law c'
      → ShowsSame dev law c c'
      → k < length c'.entries
      → (at c'.entries k).lba ≡ l
      → dev.sector_size c'.inner ≡ dev.sector_size c.inner
      → Holds c l (ok k, touch dev k c') k
  Holds-touch c c' l k v same lt e size =
      let alike = touch-IsAlike dev law k c' in
      record {
        coherent = alike-IsCoherent dev law c' _ alike v;
        shows = λ x. alike-ShowsSame dev law c' _ alike v x ∙ same x;
        in_range = omega (arith, alike.same_count);
        number = (alike.same_entry k).0 ∙ e;
        device_size = ap (λ d. dev.sector_size d) alike.same_inner ∙ size;
      }

  pub load-Holds :
      (c : CachedBlockDevice D) (l k : ℕ) (c' : CachedBlockDevice D) (i : ℕ)
      → IsCoherent dev law c
      → IsOff dev law l c
      → IsPrepared c l k c'
      → (load dev k l c').0 ≡ ok i
      → Holds c l (load dev k l c') i
  unfolding load
  load-Holds c l k c' i v away p e = elim (Result-cases read.0) [
    | inr (x, f) ↦ absurd (ground (arith, e, f))
    | inl (bytes, f) ↦
        let same : k ≡ i = ground (arith, e, f) in
        rw (f, load, ← same)
          (Holds-touch c (after bytes) l k
            (filled-IsCoherent dev law c l k (after bytes) v away (filled bytes f))
            (filled-ShowsSame dev law c l k (after bytes) v away (filled bytes f))
            (filled bytes f).in_range (filled bytes f).number (filled bytes f).device_size)
  ]
    where
      read : Result StorageError (List ℕ) × D
      read = dev.read_sectors l (length (at c'.entries k).bytes) c'.inner

      after : List ℕ → CachedBlockDevice D
      after bytes =
          put_entry dev k (record (at c'.entries k) { bytes = bytes; dirty = false })
            (record c' { inner = read.1 })

      entry :
          (bytes : List ℕ) (j : ℕ)
          → at (after bytes).entries j ≡ (
              if k == j
              then record (at c'.entries k) { bytes = bytes; dirty = false }
              else at c'.entries j)
      entry bytes j = ground (
        arith,
        p.in_range,
        get_or-set c'.entries k j (record (at c'.entries k) { bytes = bytes; dirty = false })
            no_entry,
      )

      count : (bytes : List ℕ) → length (after bytes).entries ≡ length c'.entries
      count bytes = length-set c'.entries k _

      entry_apart : (bytes : List ℕ) (j : ℕ) → j ≢ k → at (after bytes).entries j ≡ at c'.entries j
      entry_apart bytes j ne = ground (arith, entry bytes j)

      filled : (bytes : List ℕ) → read.0 ≡ ok bytes → IsFilled dev law c l k (after bytes)
      filled bytes f =
          let here : at (after bytes).entries k
              ≡ record (at c'.entries k) { bytes = bytes; dirty = false } =
            ground (arith, entry bytes k) in
          let given =
            law.read_gives l c'.inner bytes
              (subst (λ n. (dev.read_sectors l n c'.inner).0 ≡ ok bytes) p.room f) in
          record {
            in_range = omega (arith, count bytes, p.in_range);
            number = ap (λ (x : CacheEntry). x.lba) here ∙ p.number;
            fresh =
                ap (λ (x : CacheEntry). x.bytes) here
                ∙ given.0
                ∙ ap (λ d. law.sector d l) p.same_device;
            full_size =
                ap (λ (x : CacheEntry). length x.bytes) here
                ∙ given.1
                ∙ ap (λ d. dev.sector_size d) p.same_device;
            device_size =
                subst
                  (λ n.
                    dev.sector_size (dev.read_sectors l n c'.inner).1 ≡ dev.sector_size c'.inner)
                  (sym p.room) (law.read_size l c'.inner)
                ∙ ap (λ d. dev.sector_size d) p.same_device;
            device_keeps = λ j.
                subst (λ n. law.sector (dev.read_sectors l n c'.inner).1 j ≡ law.sector c'.inner j)
                  (sym p.room) (law.read_keeps l c'.inner j)
                ∙ ap (λ d. law.sector d j) p.same_device;
            old_entry = λ j ne q. p.old_entry j ne (omega (arith, count bytes));
            kept_entry = λ j ne q. omega (arith, count bytes, p.kept_entry j ne q);
            same_entry = λ j ne q. entry_apart bytes j ne ∙ p.same_entry j ne q;
            was_clean = p.was_clean;
          }
