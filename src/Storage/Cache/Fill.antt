-- ===== src/Storage/Cache/Fill.antt =====
-- Reading a sector into an entry keeps the cache coherent, and keeps what it shows.
use nix_os.Prelude.{ℕ, ◌<◌, ◌≡◌, ◌≢◌, sym, ap, ◌∙◌, false, arith, length}
use native.Mathlib.Decide.{ℕ_discrete}
use nix_os.Storage.Device.{BlockDevice}
use nix_os.Storage.Cache.{CacheEntry, CachedBlockDevice}
use nix_os.Storage.Cache.Coherent.{Sectors, contents, IsCoherent, contents_at, contents_off}
use nix_os.Storage.Cache.Entries.{at, Shown, held, off, shown, ShowsSame}

module _ {D : Type 0} (dev : BlockDevice D) (law : Sectors dev) where
  abbrev pub IsOff : ℕ → CachedBlockDevice D → Type 0
  IsOff l c = (i : ℕ) → i < length c.entries → (at c.entries i).lba ≢ l

  -- `c'` is `c` after a read of sector `l` into entry `k`.
  pub record IsFilled (c : CachedBlockDevice D) (l k : ℕ) (c' : CachedBlockDevice D) : Type 0 where
    pub in_range : k < length c'.entries
    pub number : (at c'.entries k).lba ≡ l
    pub fresh : (at c'.entries k).bytes ≡ law.sector c.inner l
    pub full_size : length (at c'.entries k).bytes ≡ dev.sector_size c.inner
    pub device_size : dev.sector_size c'.inner ≡ dev.sector_size c.inner
    pub device_keeps : (j : ℕ) → law.sector c'.inner j ≡ law.sector c.inner j
    pub old_entry : (j : ℕ) → j ≢ k → j < length c'.entries → j < length c.entries
    pub kept_entry : (j : ℕ) → j ≢ k → j < length c.entries → j < length c'.entries
    pub same_entry : (j : ℕ) → j ≢ k → j < length c.entries → at c'.entries j ≡ at c.entries j
    pub was_clean : k < length c.entries → (at c.entries k).dirty ≡ false

  module _ (c : CachedBlockDevice D) (l k : ℕ) (c' : CachedBlockDevice D) (v : IsCoherent dev law c)
      (away : IsOff l c) (f : IsFilled c l k c') where
    other_number : (j : ℕ) → j < length c'.entries → j ≢ k → (at c'.entries j).lba ≢ l
    other_number j p ne e =
        let old = f.old_entry j ne p in
        away j old (ap (λ (x : CacheEntry). x.lba) (sym (f.same_entry j ne old)) ∙ e)

    pub filled-IsCoherent : IsCoherent dev law c'
    filled-IsCoherent = record {
      distinct = λ i j p q e. distinct i j p q e (ℕ_discrete i k) (ℕ_discrete j k);
      sized = λ i p. sized i p (ℕ_discrete i k);
      clean = λ i p d. clean i p d (ℕ_discrete i k);
    }
      where
        distinct :
            (i j : ℕ)
            → i < length c'.entries
            → j < length c'.entries
            → (at c'.entries i).lba ≡ (at c'.entries j).lba
            → Dec (i ≡ k)
            → Dec (j ≡ k)
            → i ≡ j
        distinct i j p q e (yes a) (yes b) = a ∙ sym b
        distinct i j p q e (yes a) (no b) =
            absurd (other_number j q b (sym e ∙ ap (λ x. (at c'.entries x).lba) a ∙ f.number))
        distinct i j p q e (no a) (yes b) =
            absurd (other_number i p a (e ∙ ap (λ x. (at c'.entries x).lba) b ∙ f.number))
        distinct i j p q e (no a) (no b) =
            let old_i = f.old_entry i a p in
            let old_j = f.old_entry j b q in
            v.distinct i j old_i old_j (
              ap (λ (x : CacheEntry). x.lba) (sym (f.same_entry i a old_i))
              ∙ e
              ∙ ap (λ (x : CacheEntry). x.lba) (f.same_entry j b old_j))

        sized :
            (i : ℕ)
            → i < length c'.entries
            → Dec (i ≡ k)
            → length (at c'.entries i).bytes ≡ dev.sector_size c'.inner
        sized i p (yes a) =
            ap (λ x. length (at c'.entries x).bytes) a ∙ f.full_size ∙ sym f.device_size
        sized i p (no a) =
            let old = f.old_entry i a p in
            ap (λ (x : CacheEntry). length x.bytes) (f.same_entry i a old)
            ∙ v.sized i old
            ∙ sym f.device_size

        clean :
            (i : ℕ)
            → i < length c'.entries
            → (at c'.entries i).dirty ≡ false
            → Dec (i ≡ k)
            → (at c'.entries i).bytes ≡ law.sector c'.inner (at c'.entries i).lba
        clean i p d (yes a) =
            ap (λ x. (at c'.entries x).bytes) a
            ∙ f.fresh
            ∙ sym (f.device_keeps l)
            ∙ ap (λ x. law.sector c'.inner x) (sym (ap (λ x. (at c'.entries x).lba) a ∙ f.number))
        clean i p d (no a) =
            let old = f.old_entry i a p in
            let same = f.same_entry i a old in
            rw same (
              v.clean i old (sym (ap (λ (x : CacheEntry). x.dirty) same) ∙ d)
              ∙ sym (f.device_keeps (at c.entries i).lba))

    -- A sector that an untouched entry or the device shows is shown as before.
    pub filled-ShowsSame : ShowsSame dev law c c'
    filled-ShowsSame x = go (ℕ_discrete x l) (shown dev law c x)
      where
        none_left :
            x ≢ l
            → ((j : ℕ) → j < length c'.entries → j ≢ k → (at c'.entries j).lba ≢ x)
            → IsOff x c'
        none_left ne rest j p e = elim (ℕ_discrete j k) [
          | yes a ↦ ne (sym e ∙ ap (λ y. (at c'.entries y).lba) a ∙ f.number)
          | no a ↦ rest j p a e
        ]

        before :
            (j : ℕ)
            → j < length c'.entries
            → j ≢ k
            → (at c'.entries j).lba ≡ x
            → (at c.entries j).lba ≡ x
        before j p ne e =
            ap (λ (y : CacheEntry). y.lba) (sym (f.same_entry j ne (f.old_entry j ne p))) ∙ e

        go : Dec (x ≡ l) → Shown dev law c x → contents dev law c' x ≡ contents dev law c x
        go (yes e) s =
            contents_at dev law c' k x filled-IsCoherent f.in_range (f.number ∙ sym e)
            ∙ f.fresh
            ∙ ap (λ y. law.sector c.inner y) (sym e)
            ∙ sym (contents_off dev law c x (rw e away))
        go (no ne) (held j p e) = elim (ℕ_discrete j k) [
          | yes a ↦
              let rest : (m : ℕ) → m < length c'.entries → m ≢ k → (at c'.entries m).lba ≢ x =
                λ m q nk g.
                  nk (v.distinct m j (f.old_entry m nk q) p (before m q nk g ∙ sym e) ∙ a) in
              let p' : k < length c.entries = omega arith in
              let e' : (at c.entries k).lba ≡ x = ap (λ y. (at c.entries y).lba) (sym a) ∙ e in
              contents_off dev law c' x (none_left ne rest)
              ∙ f.device_keeps x
              ∙ sym (
                  contents_at dev law c k x v p' e'
                  ∙ v.clean k p' (f.was_clean p')
                  ∙ ap (λ y. law.sector c.inner y) e')
          | no a ↦
              contents_at dev law c' j x filled-IsCoherent (f.kept_entry j a p)
                (ap (λ (y : CacheEntry). y.lba) (f.same_entry j a p) ∙ e)
              ∙ ap (λ (y : CacheEntry). y.bytes) (f.same_entry j a p)
              ∙ sym (contents_at dev law c j x v p e)
        ]
        go (no ne) (off h) =
            contents_off dev law c' x
              (none_left ne (λ j p nk e. h j (f.old_entry j nk p) (before j p nk e)))
            ∙ f.device_keeps x
            ∙ sym (contents_off dev law c x h)
