-- ===== src/Storage/Cache/Stale.antt =====
-- What a failed read of the device leaves in the cache.
use nix_os.Prelude.{
  ℕ, ◌+◌, ◌%◌, ◌^◌, ◌<◌, ◌≡◌, refl, ap, ◌∙◌, none, some, List, [], ◌∷◌, ◌++◌, arith, length, get_or,
  set, replicate, get_or-set, get_or-append_one, length-append, length-replicate, ok, err, lt→ltb,
}
use mathlib.Core.Path.{subst}
use nix_os.Storage.Device.{StorageError, BlockDevice}
use nix_os.Storage.Cache.{
  CacheEntry, CachedBlockDevice, no_entry, blank_entry, find_entry, entry_at, touch, load, load_new,
  miss, entry_for, read_each, count_miss, count_hit,
}

append_nil : (bytes : List ℕ) → bytes ++ [] ≡ bytes
append_nil [] = refl
append_nil (b ∷ bytes) = ap (λ t. b ∷ t) (append_nil bytes)

find_entry-append :
    (lba : ℕ) (es : List CacheEntry) (e : CacheEntry)
    → find_entry lba es ≡ none
    → e.lba ≡ lba
    → find_entry lba (es ++ e ∷ []) ≡ some (length es)
unfolding find_entry
find_entry-append lba [] e h same = ground arith
find_entry-append lba (f ∷ es) e h same = ground (arith, find_entry-append lba es e)

module _ {D : Type 0} (dev : BlockDevice D) where
  -- the cache after a read that failed
  after_failure : ℕ → CachedBlockDevice D → CachedBlockDevice D
  after_failure lba c =
      let size = dev.sector_size c.inner in
      record c {
        inner = (dev.read_sectors lba size c.inner).1;
        entries = c.entries ++ blank_entry lba size ∷ [];
        stats = count_miss c.stats;
      }

  load_fails :
      (i lba : ℕ) (c : CachedBlockDevice D) (x : StorageError) (size : ℕ)
      → length (entry_at dev i c).bytes ≡ size
      → (dev.read_sectors lba size c.inner).0 ≡ err x
      → load dev i lba c ≡ (err x, record c { inner = (dev.read_sectors lba size c.inner).1 })
  unfolding load
  load_fails i lba c x size len fails =
      subst
        (λ n.
          (dev.read_sectors lba n c.inner).0 ≡ err x
          → load dev i lba c ≡ (err x, record c { inner = (dev.read_sectors lba n c.inner).1 }))
        len (λ f. rw (f, load) refl) fails

  entry_for_fails :
      (lba : ℕ) (c : CachedBlockDevice D) (x : StorageError)
      → find_entry lba c.entries ≡ none
      → length c.entries < c.capacity
      → (dev.read_sectors lba (dev.sector_size c.inner) c.inner).0 ≡ err x
      → entry_for dev lba c ≡ (err x, after_failure lba c)
  unfolding entry_for miss load_new after_failure
  entry_for_fails lba c x away room fails =
      let blank = blank_entry lba (dev.sector_size c.inner) in
      let grown : CachedBlockDevice D = record c {
        entries = c.entries ++ blank ∷ [];
        stats = count_miss c.stats;
      } in
      let last : entry_at dev (length c.entries) grown ≡ blank =
        ground (arith, get_or-append_one c.entries blank (length c.entries) no_entry) in
      let size : length (entry_at dev (length c.entries) grown).bytes ≡ dev.sector_size c.inner =
        ap (λ (e : CacheEntry). length e.bytes) last
        ∙ length-replicate {A = ℕ} (dev.sector_size c.inner) 0 in
      rw (away, entry_for)
        (rw (lt→ltb (length c.entries) c.capacity room)
          (load_fails (length c.entries) lba grown x (dev.sector_size c.inner) size fails))

  entry_for_hit :
      (lba i : ℕ) (c : CachedBlockDevice D)
      → find_entry lba c.entries ≡ some i
      → entry_for dev lba c ≡ (ok i, touch dev i (record c { stats = count_hit c.stats }))
  unfolding entry_for
  entry_for_hit lba i c h = rw (h, entry_for) refl

  read_each_one :
      (lba i : ℕ) (c c' : CachedBlockDevice D)
      → entry_for dev lba c ≡ (ok i, c')
      → read_each dev 1 lba c ≡ (ok ((entry_at dev i c').bytes ++ []), c')
  unfolding read_each
  read_each_one lba i c c' e = ground (arith, e)

  read_each_hit :
      (lba i : ℕ) (c : CachedBlockDevice D) (bytes : List ℕ)
      → find_entry lba c.entries ≡ some i
      → i < length c.entries
      → (entry_at dev i c).bytes ≡ bytes
      → let (r, c') = read_each dev 1 lba c in (r ≡ ok (bytes ++ [])) × (c'.inner ≡ c.inner)
  unfolding touch
  read_each_hit lba i c bytes h lt e =
      rw (read_each_one lba i c _ (entry_for_hit lba i c h))
        (ap (λ b. ok (b ++ [])) (same ∙ e), refl)
    where
      stamped : CacheEntry
      stamped = record (entry_at dev i c) { stamp = (c.stamp + 1) % 2 ^ 64 }

      same : (get_or (set c.entries i stamped) i no_entry).bytes ≡ (entry_at dev i c).bytes
      same = ground (arith, get_or-set c.entries i i stamped no_entry)

  -- After a read of a sector that was not cached has failed on the device, with room in the cache, the
  -- next read of the sector succeeds without asking the device, and gives zeros.
  pub read_each-entry_for_stale :
      (lba : ℕ) (c : CachedBlockDevice D) (x : StorageError)
      → find_entry lba c.entries ≡ none
      → length c.entries < c.capacity
      → (dev.read_sectors lba (dev.sector_size c.inner) c.inner).0 ≡ err x
      → let (r, c') = entry_for dev lba c in
        let (r', c'') = read_each dev 1 lba c' in
        (r ≡ err x) × (r' ≡ ok (replicate (dev.sector_size c.inner) 0)) × (c''.inner ≡ c'.inner)
  unfolding after_failure
  read_each-entry_for_stale lba c x away room fails =
      let blank = blank_entry lba (dev.sector_size c.inner) in
      let hit =
        read_each_hit lba (length c.entries) (after_failure lba c) _
          (find_entry-append lba c.entries blank away refl)
          (omega (arith, length-append c.entries (blank ∷ [])))
          (ground (arith, get_or-append_one c.entries blank (length c.entries) no_entry)) in
      rw (entry_for_fails lba c x away room fails) (refl, hit.0 ∙ ap ok (append_nil _), hit.1)
