-- ===== src/Storage/Cache/Store.antt =====
-- Writes through the cache change what it shows of their sectors, and nothing else.
use nix_os.Prelude.{
  Result-cases, ℕ, zero, suc, ◌+◌, ◌*◌, ◌≤◌, ◌<◌, ◌≡◌, ◌≢◌, refl, sym, ap, ◌∙◌, true, List, [], ◌∷◌,
  ◌++◌, arith, ◌==◌, if◌then◌else◌, length, get_or-set, length-set, take, drop, length-take,
  length-drop, take-append-drop, ◌⊎◌, inl, inr, ok,
}
use mathlib.Core.Bool.{false≢true}
use mathlib.Core.Path.{ap₂}
use native.Mathlib.Decide.{ℕ_discrete}
use nix_os.Storage.Device.{BlockDevice}
use nix_os.Storage.Cache.{
  CacheEntry, CachedBlockDevice, no_entry, put_entry, entry_for, write_one, write_each,
}
use nix_os.Storage.Cache.Coherent.{Sectors, contents, IsCoherent, contents_at, contents_off}
use nix_os.Storage.Cache.Entries.{
  at, Shown, held, off, shown, alike-IsCoherent, alike-ShowsSame, touch-IsAlike,
}
use nix_os.Storage.Cache.Transfer.{span}
use nix_os.Storage.Cache.EntryFor.{entry_for-Holds}

module _ {D : Type 0} (dev : BlockDevice D) (law : Sectors dev) where
  -- Overwriting a cached sector, and marking its entry dirty, changes what that sector shows, alone.
  module _ (c : CachedBlockDevice D) (i l : ℕ) (source : List ℕ) (v : IsCoherent dev law c)
      (lt : i < length c.entries) (number : (at c.entries i).lba ≡ l)
      (size : length source ≡ dev.sector_size c.inner) where
    abbrev pub dirtied : CachedBlockDevice D
    dirtied = put_entry dev i (record (at c.entries i) { bytes = source; dirty = true }) c

    entry :
        (j : ℕ)
        → at dirtied.entries j ≡ (
            if i == j
            then record (at c.entries i) { bytes = source; dirty = true }
            else at c.entries j)
    entry j = ground (
      arith,
      lt,
      get_or-set c.entries i j (record (at c.entries i) { bytes = source; dirty = true }) no_entry,
    )

    pub dirtied_count : length dirtied.entries ≡ length c.entries
    dirtied_count = length-set c.entries i _

    pub dirtied_numbers : (j : ℕ) → (at dirtied.entries j).lba ≡ (at c.entries j).lba
    dirtied_numbers j = ground (arith, entry j)

    here : at dirtied.entries i ≡ record (at c.entries i) { bytes = source; dirty = true }
    here = ground (arith, entry i)

    elsewhere : (j : ℕ) → j ≢ i → at dirtied.entries j ≡ at c.entries j
    elsewhere j ne = ground (arith, entry j)

    pub dirtied-IsCoherent : IsCoherent dev law dirtied
    dirtied-IsCoherent = record {
      distinct = λ j k p q e.
          v.distinct j k (omega (arith, dirtied_count)) (omega (arith, dirtied_count))
            (sym (dirtied_numbers j) ∙ e ∙ dirtied_numbers k);
      sized = λ j p. elim (ℕ_discrete j i) [
        | yes a ↦
            ap (λ x. length (at dirtied.entries x).bytes) a
            ∙ ap (λ (x : CacheEntry). length x.bytes) here
            ∙ size
        | no a ↦
            ap (λ (x : CacheEntry). length x.bytes) (elsewhere j a)
            ∙ v.sized j (omega (arith, dirtied_count))
      ];
      clean = λ j p d. elim (ℕ_discrete j i) [
        | yes a ↦ absurd (
            false≢true (
              sym d
              ∙ ap (λ x. (at dirtied.entries x).dirty) a
              ∙ ap (λ (x : CacheEntry). x.dirty) here))
        | no a ↦ rw (elsewhere j a) (
            v.clean j (omega (arith, dirtied_count))
              (ap (λ (x : CacheEntry). x.dirty) (sym (elsewhere j a)) ∙ d))
      ];
    }

    pub dirtied_shows :
        (x : ℕ) → contents dev law dirtied x ≡ (if x == l then source else contents dev law c x)
    dirtied_shows x = elim (ℕ_discrete x l) [
      | yes e ↦
          contents_at dev law dirtied i x dirtied-IsCoherent (omega (arith, dirtied_count))
            (dirtied_numbers i ∙ number ∙ sym e)
          ∙ ap (λ (y : CacheEntry). y.bytes) here
          ∙ ground arith
      | no ne ↦ other x ne (shown dev law c x) ∙ ground arith
    ]
      where
        other :
            (x : ℕ) → x ≢ l → Shown dev law c x → contents dev law dirtied x ≡ contents dev law c x
        other x ne (held j p e) =
            let apart : j ≢ i = λ a. ne (sym e ∙ ap (λ y. (at c.entries y).lba) a ∙ number) in
            contents_at dev law dirtied j x dirtied-IsCoherent (omega (arith, dirtied_count))
              (dirtied_numbers j ∙ e)
            ∙ ap (λ (y : CacheEntry). y.bytes) (elsewhere j apart)
            ∙ sym (contents_at dev law c j x v p e)
        other x ne (off h) =
            contents_off dev law dirtied x
              (λ j p e. h j (omega (arith, dirtied_count)) (sym (dirtied_numbers j) ∙ e))
            ∙ sym (contents_off dev law c x h)

  -- `c'` shows `source` in sector `l`, and what `c` shows in every other.
  pub record Stores (l : ℕ) (source : List ℕ) (c c' : CachedBlockDevice D) : Type 0 where
    pub coherent : IsCoherent dev law c'
    pub stored : (x : ℕ) → contents dev law c' x ≡ (if x == l then source else contents dev law c x)
    pub device_size : dev.sector_size c'.inner ≡ dev.sector_size c.inner

  pub write_one-Stores :
      (l : ℕ) (source : List ℕ) (c : CachedBlockDevice D)
      → IsCoherent dev law c
      → length source ≡ dev.sector_size c.inner
      → (write_one dev l source c).0 ≡ ok tt
      → Stores l source c (write_one dev l source c).1
  unfolding write_one
  write_one-Stores l source c v size e = elim (Result-cases (entry_for dev l c).0) [
    | inr (x, f) ↦ absurd (ground (arith, e))
    | inl (i, f) ↦
        let c' = (entry_for dev l c).1 in
        let h = entry_for-Holds dev law c l i v f in
        let fits : length source ≡ dev.sector_size c'.inner = size ∙ sym h.device_size in
        let c'' = dirtied c' i l source h.coherent h.in_range h.number fits in
        let coherent = dirtied-IsCoherent c' i l source h.coherent h.in_range h.number fits in
        let alike = touch-IsAlike dev law i c'' in
        rw (f, write_one)
          (record {
            coherent = alike-IsCoherent dev law c'' _ alike coherent;
            stored = λ x.
                alike-ShowsSame dev law c'' _ alike coherent x
                ∙ dirtied_shows c' i l source h.coherent h.in_range h.number fits x
                ∙ ap (λ b. if x == l then source else b) (h.shows x);
            device_size = ap (λ d. dev.sector_size d) alike.same_inner ∙ h.device_size;
          })
  ]

  -- `c'` shows `input` in the `n` sectors from `l` on, and what `c` shows in every other.
  pub record Writes (n l : ℕ) (input : List ℕ) (c c' : CachedBlockDevice D) : Type 0 where
    pub coherent : IsCoherent dev law c'
    pub inside : span dev law n l c' ≡ input
    pub outside : (x : ℕ) → (x < l) ⊎ (l + n ≤ x) → contents dev law c' x ≡ contents dev law c x

  -- A write of `n` sectors that succeeds is shown in exactly those sectors; every other sector shows
  -- what it did, also those whose entries were evicted on the way.
  pub write_each-Writes :
      (n size l : ℕ) (input : List ℕ) (c : CachedBlockDevice D)
      → IsCoherent dev law c
      → size ≡ dev.sector_size c.inner
      → length input ≡ n * size
      → (write_each dev n size l input c).0 ≡ ok tt
      → Writes n l input c (write_each dev n size l input c).1
  unfolding write_each
  write_each-Writes zero size l input c v s len e = record {
    coherent = v;
    inside = nothing input (omega arith);
    outside = λ x h. refl;
  }
    where
      nothing : (bytes : List ℕ) → length bytes ≡ 0 → [] ≡ bytes
      nothing [] h = refl
      nothing (b ∷ bs) h = absurd (omega arith)
  write_each-Writes (suc n) size l input c v s len e =
      elim (Result-cases (write_one dev l (take size input) c).0) [
        | inr (x, f) ↦ absurd (ground (arith, e))
        | inl (u, f) ↦
            let c' = (write_one dev l (take size input) c).1 in
            let long : length input ≡ n * size + size = omega arith in
            let first =
              write_one-Stores l (take size input) c v (omega (arith, length-take size input)) f in
            let rest =
              write_each-Writes n size (l + 1) (drop size input) c' first.coherent
                (s ∙ sym first.device_size) (omega (arith, length-drop size input))
                (rw (f, write_each) at e) in
            let here : contents dev law (write_each dev n size (l + 1) (drop size input) c').1 l
                ≡ take size input =
              rest.outside l (inl (omega arith)) ∙ first.stored l ∙ ground arith in
            rw (f, write_each)
              (record {
                coherent = rest.coherent;
                inside = ap₂ ◌++◌ here rest.inside ∙ take-append-drop size input;
                outside = λ x h. rest.outside x (ground arith) ∙ first.stored x ∙ ground arith;
              })
      ]
