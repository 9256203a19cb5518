-- ===== src/Storage/Cache/EntryFor.antt =====
-- `entry_for` on its branches: a hit, a new entry, and an evicted one.
use nix_os.Prelude.{
  Result-cases, ℕ, ◌+◌, ◌<◌, ◌≡◌, refl, sym, ap, ◌∙◌, false, some, List, [], ◌∷◌, ◌++◌, arith, ltb,
  ◌==◌, if◌then◌else◌, length, set, get_or-set, get_or-append_one, length-set, length-append,
  length-replicate, Option-cases, Bool-cases, inl, inr, ok,
}
use nix_os.Storage.Device.{BlockDevice}
use nix_os.Storage.Cache.{
  CacheEntry, CachedBlockDevice, no_entry, blank_entry, find_entry, load_new, load_over, evict,
  miss, entry_for, write_back, count_eviction, count_hit, count_miss, oldest, oldest_from,
}
use nix_os.Storage.Cache.Coherent.{Sectors, find_entry_found, find_entry_missing, IsCoherent}
use nix_os.Storage.Cache.Entries.{at, IsAlike, alike-IsCoherent, alike-ShowsSame}
use nix_os.Storage.Cache.WriteBack.{write_back-WritesBack}
use nix_os.Storage.Cache.Fill.{IsOff}
use nix_os.Storage.Cache.Lookup.{Holds, Holds-touch, IsPrepared, load-Holds}

-- The victim is an entry of the cache.
oldest_from-lt :
    (best stamp i : ℕ) (es : List CacheEntry)
    → best < i
    → oldest_from best stamp i es < i + length es
unfolding oldest_from
oldest_from-lt best stamp i [] lt = omega arith
oldest_from-lt best stamp i (e ∷ es) lt = omega (
  arith,
  oldest_from-lt (if ltb e.stamp stamp then i else best)
      (if ltb e.stamp stamp then e.stamp else stamp) (i + 1) es (ground arith),
)

oldest-lt : (es : List CacheEntry) (k : ℕ) → oldest es ≡ some k → k < length es
unfolding oldest
oldest-lt [] k h = absurd (ground arith)
oldest-lt (e ∷ es) k h =
    let same : oldest_from 0 e.stamp 1 es ≡ k = ground arith in
    omega (arith, same, oldest_from-lt 0 e.stamp 1 es (omega arith))

module _ {D : Type 0} (dev : BlockDevice D) (law : Sectors dev) where
  load_new-Holds :
      (c : CachedBlockDevice D) (l i : ℕ)
      → IsCoherent dev law c
      → IsOff dev law l c
      → (load_new dev l c).0 ≡ ok i
      → Holds dev law c l (load_new dev l c) i
  unfolding load_new
  load_new-Holds c l i v away e = load-Holds dev law c l n c' i v away prepared e
    where
      n : ℕ
      n = length c.entries

      new_entry : CacheEntry
      new_entry = blank_entry l (dev.sector_size c.inner)

      c' : CachedBlockDevice D
      c' = record c { entries = c.entries ++ new_entry ∷ [] }

      entry :
          (j : ℕ)
          → at c'.entries j
            ≡ (if ltb j n then at c.entries j else if j == n then new_entry else no_entry)
      entry j = get_or-append_one c.entries new_entry j no_entry

      count : length c'.entries ≡ n + 1
      count = length-append c.entries (new_entry ∷ [])

      last : at c'.entries n ≡ new_entry
      last = ground (arith, entry n)

      prepared : IsPrepared dev law c l n c'
      prepared = record {
        in_range = omega (arith, count);
        number = ap (λ (x : CacheEntry). x.lba) last;
        room =
            ap (λ (x : CacheEntry). length x.bytes) last
            ∙ length-replicate {0} {A = ℕ} (dev.sector_size c.inner) 0;
        same_device = refl;
        old_entry = λ j ne q. omega (arith, count);
        kept_entry = λ j ne q. omega (arith, count);
        same_entry = λ j ne q. ground (arith, entry j);
        was_clean = λ q. absurd (omega arith);
      }

  load_over-Holds :
      (c : CachedBlockDevice D) (l k i : ℕ)
      → IsCoherent dev law c
      → IsOff dev law l c
      → k < length c.entries
      → (at c.entries k).dirty ≡ false
      → (load_over dev k l c).0 ≡ ok i
      → Holds dev law c l (load_over dev k l c) i
  unfolding load_over
  load_over-Holds c l k i v away lt clean e = load-Holds dev law c l k c' i v away prepared e
    where
      c' : CachedBlockDevice D
      c' = record c {
        entries = set c.entries k (record (at c.entries k) { lba = l });
        stats = count_eviction c.stats;
      }

      entry :
          (j : ℕ)
          → at c'.entries j
            ≡ (if k == j then record (at c.entries k) { lba = l } else at c.entries j)
      entry j =
          ground
            (arith, lt, get_or-set c.entries k j (record (at c.entries k) { lba = l }) no_entry)

      count : length c'.entries ≡ length c.entries
      count = length-set c.entries k _

      here : at c'.entries k ≡ record (at c.entries k) { lba = l }
      here = ground (arith, entry k)

      prepared : IsPrepared dev law c l k c'
      prepared = record {
        in_range = omega (arith, count);
        number = ap (λ (x : CacheEntry). x.lba) here;
        room = ap (λ (x : CacheEntry). length x.bytes) here ∙ v.sized k lt;
        same_device = refl;
        old_entry = λ j ne q. omega (arith, count);
        kept_entry = λ j ne q. omega (arith, count);
        same_entry = λ j ne q. ground (arith, entry j);
        was_clean = λ q. clean;
      }

  evict-Holds :
      (c : CachedBlockDevice D) (l i : ℕ)
      → IsCoherent dev law c
      → IsOff dev law l c
      → (evict dev l c).0 ≡ ok i
      → Holds dev law c l (evict dev l c) i
  unfolding evict
  evict-Holds c l i v away e = elim (Option-cases (oldest c.entries)) [
    | inl h ↦ absurd (ground (arith, e))
    | inr (k, h) ↦
        let lt : k < length c.entries = oldest-lt c.entries k h in
        let w = write_back-WritesBack dev law k c v lt in
        elim (Result-cases (write_back dev k c).0) [
          | inr (x, f) ↦ absurd (ground (arith, e))
          | inl (u, f) ↦
              let c' = (write_back dev k c).1 in
              let over =
                load_over-Holds c' l k i w.coherent
                  (λ j q g. away j (omega (arith, w.count)) (sym (w.numbers j) ∙ g))
                  (omega (arith, w.count)) (w.cleaned f) (rw f at (rw (h, evict) at e)) in
              rw (h, evict)
                (rw f (record {
                  coherent = over.coherent;
                  shows = λ x. over.shows x ∙ w.shows x;
                  in_range = over.in_range;
                  number = over.number;
                  device_size = over.device_size ∙ w.device_size;
                }))
        ]
  ]

  stats-IsAlike :
      (c c' : CachedBlockDevice D)
      → c'.inner ≡ c.inner
      → c'.entries ≡ c.entries
      → IsAlike dev law c c'
  stats-IsAlike c c' i e = record {
    same_inner = i;
    same_count = ap length e;
    same_entry = λ j. (
      ap (λ (es : List CacheEntry). (at es j).lba) e,
      ap (λ (es : List CacheEntry). (at es j).bytes) e,
      ap (λ (es : List CacheEntry). (at es j).dirty) e,
    );
  }

  miss-Holds :
      (c : CachedBlockDevice D) (l i : ℕ)
      → IsCoherent dev law c
      → IsOff dev law l c
      → (miss dev l c).0 ≡ ok i
      → Holds dev law c l (miss dev l c) i
  unfolding miss
  miss-Holds c l i v away e = elim (Bool-cases (ltb (length c.entries) c.capacity)) [
    | inl y ↦ rw (y, miss) (load_new-Holds c l i v away (rw (y, miss) at e))
    | inr n ↦ rw (n, miss) (evict-Holds c l i v away (rw (n, miss) at e))
  ]

  pub entry_for-Holds :
      (c : CachedBlockDevice D) (l i : ℕ)
      → IsCoherent dev law c
      → (entry_for dev l c).0 ≡ ok i
      → Holds dev law c l (entry_for dev l c) i
  unfolding entry_for
  entry_for-Holds c l i v e = elim (Option-cases (find_entry l c.entries)) [
    | inr (k, h) ↦
        let same : k ≡ i = ground (arith, e) in
        let hit : CachedBlockDevice D = record c { stats = count_hit c.stats } in
        let alike = stats-IsAlike c hit refl refl in
        let (lt, number) = find_entry_found l c.entries k h in
        rw (h, entry_for, ← same)
          (Holds-touch dev law c hit l k (alike-IsCoherent dev law c hit alike v)
            (alike-ShowsSame dev law c hit alike v) lt number refl)
    | inl h ↦
        let missed : CachedBlockDevice D = record c { stats = count_miss c.stats } in
        let alike = stats-IsAlike c missed refl refl in
        let m =
          miss-Holds missed l i (alike-IsCoherent dev law c missed alike v)
            (λ j q. find_entry_missing l c.entries j h q) (rw (h, entry_for) at e) in
        rw (h, entry_for)
          (record {
            coherent = m.coherent;
            shows = λ x. m.shows x ∙ alike-ShowsSame dev law c missed alike v x;
            in_range = m.in_range;
            number = m.number;
            device_size = m.device_size;
          })
  ]
