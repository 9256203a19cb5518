-- ===== src/Kernel/Heap/Frees.antt =====
-- What `deallocate` does.
use nix_os.Prelude.{
  ℕ, zero, suc, ◌+◌, ◌-◌, ◌≤◌, ◌<◌, ◌≡◌, ◌≢◌, inl, inr, refl, sym, ap, ◌∙◌, Bool, true, false,
  Option, none, some, List, [], ◌∷◌, ◌++◌, take, drop, arith, ltb, length, get_or, Bool-cases,
}
use nix_os.Kernel.Heap.{
  Segment, KernelHeap, empty_segment, deallocate, find_block, release, join_before, join_after,
}
use nix_os.Kernel.Heap.Live.{live}
use nix_os.Kernel.Heap.Tiles.{used_sum, used_sum-replaced}
use nix_os.Kernel.Heap.Merged.{blocks, IsMerged, blocks-at, blocks-replaced}
use nix_os.Kernel.Heap.Gaps.{replaced-IsMergedBut}
use nix_os.Kernel.Heap.Valid.{IsValid, length-live, get_or-live, segment_at}
use nix_os.Kernel.Heap.Joins.{within, freed, live-release, release-SameRegion}
use nix_os.Kernel.Heap.Merges.{join_before-IsFreed, join_after-IsMerged, release-IsFreed}

-- The search gives the first block of an offset, or none has it.
find_block_found :
    (offset : ℕ) (segments : List Segment) (i : ℕ)
    → find_block offset segments ≡ some i
    → (i < length segments)
      × ((get_or segments i empty_segment).free ≡ false)
      × ((get_or segments i empty_segment).offset ≡ offset)
unfolding find_block
find_block_found offset [] i h = absurd (ground arith)
find_block_found offset (s ∷ segments) zero h = ground arith
find_block_found offset (s ∷ segments) (suc i) h =
    ground (arith, find_block_found offset segments i)

find_block_missing :
    (offset : ℕ) (segments : List Segment) (i : ℕ)
    → find_block offset segments ≡ none
    → i < length segments
    → (get_or segments i empty_segment).free ≡ false
    → (get_or segments i empty_segment).offset ≢ offset
unfolding find_block
find_block_missing offset [] i h lt used = absurd (omega arith)
find_block_missing offset (s ∷ segments) zero h lt used = ground arith
find_block_missing offset (s ∷ segments) (suc i) h lt used =
    ground (arith, find_block_missing offset segments i)

-- What a call of `deallocate` does.
pub data Frees (address : ℕ) (h : KernelHeap) : Bool × KernelHeap → Type 0 where
  refuses :
      ((i : ℕ)
        → i < h.segment_count
        → (segment_at i h).free ≡ false
        → h.virtual_start + (segment_at i h).offset ≢ address)
      → Frees address h (false, h)
  frees :
      (offset size : ℕ) (before after : List (ℕ × ℕ)) (h' : KernelHeap)
      → h.virtual_start + offset ≡ address
      → blocks (live h) ≡ before ++ (offset, size) ∷ after
      → blocks (live h') ≡ before ++ after
      → IsValid h'
      → IsMerged false (live h')
      → (h'.size ≡ h.size) × (h'.virtual_start ≡ h.virtual_start)
      → h'.used + size ≡ h.used
      → Frees address h (true, h')

-- The block is gone, and no others.
release-blocks :
    (i : ℕ) (h : KernelHeap) (v : IsValid h) (lt : i < h.segment_count)
    → (segment_at i h).free ≡ false
    → (blocks (live h)
        ≡ blocks (take i (live h))
          ++ ((segment_at i h).offset, (segment_at i h).size) ∷ blocks (drop (suc i) (live h)))
      × (blocks (live (release i h)) ≡ blocks (take i (live h)) ++ blocks (drop (suc i) (live h)))
unfolding freed blocks
release-blocks i h v lt busy =
    let at = blocks-at i (live h) (within i h v lt) in
    (
      rw busy at (rw (get_or-live h i lt) at at),
      ap blocks (live-release i h v lt)
          ∙ blocks-replaced i (freed i h v lt ∷ []) (live h) (within i h v lt),
    )

-- the counter of the bytes in use covers each block
block_used :
    (h : KernelHeap) (i : ℕ)
    → IsValid h
    → i < h.segment_count
    → (segment_at i h).free ≡ false
    → (release i h).used + (segment_at i h).size ≡ h.used
unfolding release used_sum freed
block_used h i v lt used =
    let change =
      rw (get_or-live h i lt) at
        (used_sum-replaced i (freed i h v lt ∷ []) (live h) (within i h v lt)) in
    ground (arith, v.used, change, used)

-- `deallocate`, on a valid heap in which no two neighbouring segments are free, either finds no block at
-- the address and changes nothing, or frees the block that begins there: the blocks in use after it are
-- those before it less this one, the heap is valid, its segments without a gap, no two neighbours are free,
-- so that what was freed is one segment with what was free before and behind it, and the bytes in use are
-- fewer by the size of the block.
pub deallocate-Frees :
    (address : ℕ) (h : KernelHeap)
    → IsValid h
    → IsMerged false (live h)
    → Frees address h (deallocate address h)
unfolding deallocate
deallocate-Frees address h v m = elim (Bool-cases (ltb address h.virtual_start)) [
  | inl below ↦ rw below (Frees.refuses (λ i lt used same. ground (arith, below, same)))
  | inr above ↦
      let at_least : h.virtual_start ≤ address = ground (arith, above) in
      rw above (go at_least (find_block (address - h.virtual_start) (live h)) refl)
]
  where
    go :
        h.virtual_start ≤ address
        → (found : Option ℕ) → find_block (address - h.virtual_start) (live h) ≡ found
        → Frees address h (elim found [
          | none ↦ (false, h)
          | some i ↦ let (at, h') = join_before i (release i h) in (true, join_after at h')
        ])
    go low none e = Frees.refuses (λ i lt used same.
        find_block_missing (address - h.virtual_start) (live h) i e
          (omega (arith, lt, length-live h v)) (ap (λ s. s.free) (get_or-live h i lt) ∙ used)
          (ap (λ s. s.offset) (get_or-live h i lt) ∙ omega (arith, same)))
    go low (some i) e =
        let (below, used, offset) = find_block_found (address - h.virtual_start) (live h) i e in
        let lt : i < h.segment_count = omega (arith, below, length-live h v) in
        let busy : (segment_at i h).free ≡ false =
          ap (λ s. s.free) (sym (get_or-live h i lt)) ∙ used in
        let start : (segment_at i h).offset ≡ address - h.virtual_start =
          ap (λ s. s.offset) (sym (get_or-live h i lt)) ∙ offset in
        let (old, new) = release-blocks i h v lt busy in
        let but = replaced-IsMergedBut i false (freed i h v lt) (live h) below used m in
        let (f, left) =
          join_before-IsFreed (release i h) i (release i h) (release-IsFreed i h v lt busy)
            (rw (live-release i h v lt) but) in
        let (done, merged) =
          join_after-IsMerged (release i h) (join_before i (release i h)).0
            (join_before i (release i h)).1 f left in
        frees (segment_at i h).offset (segment_at i h).size (blocks (take i (live h)))
          (blocks (drop (suc i) (live h)))
          (join_after (join_before i (release i h)).0 (join_before i (release i h)).1)
          (omega (arith, start, low)) old (done.kept ∙ new) done.valid merged
          (done.region.0 ∙ (release-SameRegion i h).0, done.region.1 ∙ (release-SameRegion i h).1)
          (omega (arith, done.same, block_used h i v lt busy))
