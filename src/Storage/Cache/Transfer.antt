-- ===== src/Storage/Cache/Transfer.antt =====
-- The cache is transparent: reads give, and writes change, what it shows.
use nix_os.Prelude.{
  Result-cases, ℕ, zero, suc, ◌+◌, ◌≡◌, refl, sym, ap, ◌∙◌, List, [], ◌++◌, arith, inl, inr, ok,
}
use nix_os.Storage.Device.{BlockDevice}
use nix_os.Storage.Cache.{CachedBlockDevice, entry_for, read_each}
use nix_os.Storage.Cache.Coherent.{Sectors, contents, IsCoherent, contents_at}
use nix_os.Storage.Cache.Entries.{at, ShowsSame}
use nix_os.Storage.Cache.EntryFor.{entry_for-Holds}

module _ {D : Type 0} (dev : BlockDevice D) (law : Sectors dev) where
  -- the bytes of `n` sectors from `l` on, as the cache shows them
  abbrev pub span : ℕ → ℕ → CachedBlockDevice D → List ℕ
  span zero l c = []
  span (suc n) l c = contents dev law c l ++ span n (l + 1) c

  span-same :
      (n l : ℕ) (c c' : CachedBlockDevice D) → ShowsSame dev law c c' → span n l c' ≡ span n l c
  span-same zero l c c' h = refl
  span-same (suc n) l c c' h = rw (h l, span-same n (l + 1) c c' h)

  pub record Reads (n l : ℕ) (c : CachedBlockDevice D) (bytes : List ℕ) (c' : CachedBlockDevice D)
      : Type 0 where
    pub gives : bytes ≡ span n l c
    pub shows : ShowsSame dev law c c'
    pub coherent : IsCoherent dev law c'

  -- A read of `n` sectors that succeeds gives the bytes that the cache shows, whatever was cached or
  -- evicted on the way; the cache stays coherent and shows the same afterwards.
  pub read_each-Reads :
      (n l : ℕ) (c : CachedBlockDevice D) (bytes : List ℕ)
      → IsCoherent dev law c
      → (read_each dev n l c).0 ≡ ok bytes
      → Reads n l c bytes (read_each dev n l c).1
  unfolding read_each
  read_each-Reads zero l c bytes v e = record {
    gives = ground (arith, e);
    shows = λ x. refl;
    coherent = v;
  }
  read_each-Reads (suc n) l c bytes v e = elim (Result-cases (entry_for dev l c).0) [
    | inr (x, f) ↦ absurd (ground (arith, e))
    | inl (i, f) ↦
        let c' = (entry_for dev l c).1 in
        let h = entry_for-Holds dev law c l i v f in
        elim (Result-cases (read_each dev n (l + 1) c').0) [
          | inr (x, g) ↦ absurd (ground (arith, e))
          | inl (rest, g) ↦
              let r = read_each-Reads n (l + 1) c' rest h.coherent g in
              let whole : (at c'.entries i).bytes ++ rest ≡ bytes = ground (arith, e) in
              let first : (at c'.entries i).bytes ≡ contents dev law c l =
                sym (contents_at dev law c' i l h.coherent h.in_range h.number) ∙ h.shows l in
              rw (f, read_each)
                (rw g (record {
                  gives =
                      sym whole
                      ∙ ap (λ b. b ++ rest) first
                      ∙ ap (λ b. contents dev law c l ++ b)
                          (r.gives ∙ span-same n (l + 1) c c' h.shows);
                  shows = λ x. r.shows x ∙ h.shows x;
                  coherent = r.coherent;
                }))
        ]
  ]
