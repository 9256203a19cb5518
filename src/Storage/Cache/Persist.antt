-- ===== src/Storage/Cache/Persist.antt =====
-- What `flush` and `into_inner` leave on the device.
use nix_os.Prelude.{
  Result-cases, ℕ, zero, suc, ◌+◌, ◌<◌, ◌≡◌, refl, sym, ap, ◌∙◌, false, arith, length, get_or-set,
  ok, inl, inr,
}
use nix_os.Storage.Device.{BlockDevice}
use nix_os.Storage.Cache.{CachedBlockDevice, no_entry, entry_at, write_back, flush_from, flush}
use nix_os.Storage.Cache.Coherent.{Sectors, contents, IsCoherent, contents_at, contents_off}
use native.Mathlib.Decide.{ℕ_discrete}
use nix_os.Storage.Cache.Entries.{at, held, off, shown, ShowsSame}
use nix_os.Storage.Cache.WriteBack.{write_back-WritesBack}

module _ {D : Type 0} (dev : BlockDevice D) (law : Sectors dev) where
  write_back_keeps_clean :
      (i j : ℕ) (c : CachedBlockDevice D)
      → (at c.entries j).dirty ≡ false
      → (at (write_back dev i c).1.entries j).dirty ≡ false
  unfolding write_back
  write_back_keeps_clean i j c h =
      ground
        (arith, get_or-set c.entries i j (record (entry_at dev i c) { dirty = false }) no_entry)

  -- The cache `c'` shows what `c` did and has no dirty entry.
  record IsClean (c c' : CachedBlockDevice D) : Type 0 where
    coherent : IsCoherent dev law c'
    shows : ShowsSame dev law c c'
    all_clean : (j : ℕ) → j < length c'.entries → (at c'.entries j).dirty ≡ false

  flush_from-IsClean :
      (n i : ℕ) (c : CachedBlockDevice D)
      → IsCoherent dev law c
      → i + n ≡ length c.entries
      → ((j : ℕ) → j < i → (at c.entries j).dirty ≡ false)
      → (flush_from dev n i c).0 ≡ ok tt
      → IsClean c (flush_from dev n i c).1
  unfolding flush_from
  flush_from-IsClean zero i c v len done e = record {
    coherent = v;
    shows = λ l. refl;
    all_clean = λ j lt. done j (omega arith);
  }
  flush_from-IsClean (suc n) i c v len done e = elim (Result-cases (write_back dev i c).0) [
    | inr (x, f) ↦ absurd (ground (arith, e))
    | inl (u, f) ↦
        let w = write_back-WritesBack dev law i c v (omega arith) in
        let c' = (write_back dev i c).1 in
        let rest =
          flush_from-IsClean n (i + 1) c' w.coherent (omega (arith, w.count))
            (λ j lt. up_to i c c' (w.cleaned f) (λ k. write_back_keeps_clean i k c) done j lt)
            (rw (f, flush_from) at e) in
        rw (f, flush_from)
          (record {
            coherent = rest.coherent;
            shows = λ l. rest.shows l ∙ w.shows l;
            all_clean = rest.all_clean;
          })
  ]
    where
      up_to :
          (i : ℕ) (c c' : CachedBlockDevice D)
          → (at c'.entries i).dirty ≡ false
          → ((k : ℕ) → (at c.entries k).dirty ≡ false → (at c'.entries k).dirty ≡ false)
          → ((j : ℕ) → j < i → (at c.entries j).dirty ≡ false)
          → (j : ℕ) → j < i + 1
          → (at c'.entries j).dirty ≡ false
      up_to i c c' here keeps done j lt = elim (ℕ_discrete j i) [
        | yes e ↦ rw e here
        | no ne ↦ keeps j (done j (omega arith))
      ]

  clean_shows :
      (c c' : CachedBlockDevice D) (l : ℕ)
      → IsClean c c'
      → law.sector c'.inner l ≡ contents dev law c l
  clean_shows c c' l h = elim (shown dev law c' l) [
    | held i lt e ↦
        let same : law.sector c'.inner l ≡ (at c'.entries i).bytes =
          ap (law.sector c'.inner) (sym e) ∙ sym (h.coherent.clean i lt (h.all_clean i lt)) in
        same ∙ sym (contents_at dev law c' i l h.coherent lt e) ∙ h.shows l
    | off away ↦ sym (contents_off dev law c' l away) ∙ h.shows l
  ]

  -- If `flush` succeeds, the device holds in every sector what the cache showed before.
  pub flush_persists :
      (c : CachedBlockDevice D) (l : ℕ)
      → IsCoherent dev law c
      → (flush dev c).0 ≡ ok tt
      → law.sector (flush dev c).1.inner l ≡ contents dev law c l
  unfolding flush
  flush_persists c l v e = elim (Result-cases (flush_from dev (length c.entries) 0 c).0) [
    | inr (x, f) ↦ absurd (ground (arith, e))
    | inl (u, f) ↦
        let c' = (flush_from dev (length c.entries) 0 c).1 in
        let h =
          flush_from-IsClean (length c.entries) 0 c v (omega arith) (λ j lt. absurd (omega arith))
            f in
        rw (f, flush) (law.flush_keeps c'.inner l ∙ clean_shows c c' l h)
  ]
