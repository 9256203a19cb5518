-- ===== src/Kernel/Heap/Joins.antt =====
-- A segment that is freed, and two free neighbours that are joined.
use nix_os.Prelude.{
  ℕ, suc, ◌+◌, ◌-◌, ◌≤◌, ◌<◌, ◌≡◌, refl, sym, ap, ◌∙◌, true, false, List, [], ◌∷◌, arith, length,
  get_or, set, length-set, get_or-set,
}
use nix_os.Kernel.Heap.{
  Segment, KernelHeap, empty_segment, release, join, remove_segment, shift_down,
}
use nix_os.Kernel.Heap.Shift.{length-shift_down, get_or-shift_down}
use nix_os.Kernel.Heap.Live.{live, replaced, take-set, take-remove}
use nix_os.Kernel.Heap.Tiles.{
  Tiles, used_sum, used_count, Tiles-replaced, Tiles-size, joined, Tiles-joined, used_sum-replaced,
  used_count-replaced,
}
use nix_os.Kernel.Heap.Valid.{IsValid, length-live, get_or-live, segment_at}

module _ (index : ℕ) (h : KernelHeap) (v : IsValid h) (lt : index < h.segment_count) where
  pub within : index < length (live h)
  within = omega (arith, lt, length-live h v)

  unfoldable pub freed : Segment
  freed = record (segment_at index h) { free = true }

  pub live-release : live (release index h) ≡ replaced index (freed ∷ []) (live h)
  unfolding release freed
  live-release =
      take-set h.segment_count index h.segments lt freed (omega (arith, v.array, v.count))

  Tiles-release : Tiles 0 (live (release index h)) h.size
  unfolding Tiles freed
  Tiles-release =
      let size =
        rw (get_or-live h index lt) at (Tiles-size index 0 h.size (live h) within v.tiles) in
      rw live-release (
        Tiles-replaced index 0 h.size (freed ∷ []) (live h) within v.tiles
          (rw (get_or-live h index lt) (refl, size, refl)))

  -- A segment that is freed no longer counts.
  pub release-IsValid : (segment_at index h).free ≡ false → IsValid (release index h)
  unfolding release freed used_sum used_count
  release-IsValid used =
      let old = get_or-live h index lt in
      record {
        array = length-set h.segments index freed ∙ v.array;
        count = v.count;
        tiles = Tiles-release;
        used =
            let change =
              rw (sym live-release) at
                (rw old at (used_sum-replaced index (freed ∷ []) (live h) within)) in
            ground (arith, v.used, change, used);
        active =
            let change =
              rw (sym live-release) at
                (rw old at (used_count-replaced index (freed ∷ []) (live h) within)) in
            ground (arith, v.active, change, used);
      }

-- The bytes that the heap covers are not changed by a release or a join.
abbrev pub SameRegion : KernelHeap → KernelHeap → Type 0
SameRegion h h' = (h'.size ≡ h.size) × (h'.virtual_start ≡ h.virtual_start)

pub release-SameRegion : (index : ℕ) (h : KernelHeap) → SameRegion h (release index h)
unfolding release
release-SameRegion index h = (refl, refl)

pub join-SameRegion : (index : ℕ) (h : KernelHeap) → SameRegion h (join index h)
unfolding join remove_segment
join-SameRegion index h = (refl, refl)

module _ (index : ℕ) (h : KernelHeap) (v : IsValid h) (lt : index + 1 < h.segment_count)
    (free : (segment_at index h).free ≡ true)
    (next_free : (segment_at (index + 1) h).free ≡ true) where
  grown : Segment
  grown = record (segment_at index h) {
    size = (segment_at index h).size + (segment_at (index + 1) h).size;
  }

  array : List Segment
  array = set h.segments index grown

  array_fits : h.segment_count ≤ length array
  unfolding array
  array_fits = omega (arith, length-set h.segments index grown, v.array, v.count)

  joined_lem :
      (k : ℕ)
      → k ≡ index + 1
      → get_or (live h) index empty_segment ≡ segment_at index h
      → get_or (live h) k empty_segment ≡ segment_at (index + 1) h
      → joined index (live h) ≡ replaced k [] (replaced index (grown ∷ []) (live h))
  unfolding joined grown
  joined_lem k e here there =
      let same : k ≡ suc index = omega (arith, e) in rw same (rw here (rw (rw same at there) refl))

  pub live-join : live (join index h) ≡ joined index (live h)
  unfolding join remove_segment grown array
  live-join =
      take-remove h.segment_count (index + 1) array lt array_fits
      ∙ ap (replaced (index + 1) []) (
          take-set h.segment_count index h.segments (omega arith) grown
            (omega (arith, v.array, v.count)))
      ∙ sym (
          joined_lem (index + 1) refl (get_or-live h index (omega arith))
            (get_or-live h (index + 1) lt))

  -- Two free neighbours may be joined.
  pub join-IsValid : IsValid (join index h)
  unfolding join remove_segment array grown
  join-IsValid =
      let next : suc index ≡ index + 1 = omega arith in
      let (tiles, sum, number) =
        Tiles-joined index 0 h.size (live h) (omega (arith, lt, length-live h v))
          (rw (get_or-live h index (omega arith)) free)
          (rw next (rw (get_or-live h (index + 1) lt) next_free)) v.tiles in
      record {
        array =
            length-set (shift_down (h.segment_count - 1 - (index + 1)) (index + 1) array)
              (h.segment_count - 1) empty_segment
            ∙ length-shift_down (h.segment_count - 1 - (index + 1)) (index + 1) array
            ∙ length-set h.segments index grown
            ∙ v.array;
        count = omega (arith, v.count);
        tiles = rw live-join tiles;
        used = v.used ∙ sym sum ∙ ap used_sum (sym live-join);
        active = v.active ∙ sym number ∙ ap used_count (sym live-join);
      }

  -- The joined segment is free, and in use still.
  segment_at-join : segment_at index (join index h) ≡ grown
  unfolding join remove_segment array grown
  segment_at-join =
      let n = h.segment_count - 1 - (index + 1) in
      ground (
        arith,
        get_or-set (shift_down n (index + 1) array) (h.segment_count - 1) index empty_segment
            empty_segment,
        get_or-shift_down n (index + 1) array index (omega (arith, array_fits)),
        get_or-set h.segments index index grown empty_segment,
        v.array,
        v.count,
      )

  pub join_free : (segment_at index (join index h)).free ≡ true
  unfolding grown
  join_free = ap (λ s. s.free) segment_at-join ∙ free

  pub join_in_use : (index < (join index h).segment_count) × ((join index h).used ≡ h.used)
  unfolding join remove_segment
  join_in_use = (omega arith, refl)
