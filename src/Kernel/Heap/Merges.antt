-- ===== src/Kernel/Heap/Merges.antt =====
-- A freed segment is joined with its free neighbours.
use nix_os.Prelude.{
  ℕ, zero, suc, ◌+◌, ◌<◌, ◌≡◌, inl, inr, refl, ap, ◌∙◌, Bool, true, false, ◌&&◌, arith, ltb, length,
  get_or, set, get_or-set, Bool-cases,
}
use nix_os.Kernel.Heap.{KernelHeap, empty_segment, release, join, join_before, join_after}
use nix_os.Kernel.Heap.Live.{live}
use nix_os.Kernel.Heap.Merged.{blocks, IsMerged, blocks-joined}
use nix_os.Kernel.Heap.Gaps.{
  IsMergedBefore, IsMergedBut, zero-IsMergedBefore, used-IsMergedBefore, joined-IsMergedBefore,
  used-IsMerged, joined-IsMerged,
}
use nix_os.Kernel.Heap.Valid.{IsValid, length-live, get_or-live, segment_at}
use nix_os.Kernel.Heap.Joins.{
  release-IsValid, join-IsValid, join_free, join_in_use, live-join, SameRegion, join-SameRegion,
}

-- What a merge starts from and what it leaves: the segment is in use and free, the heap valid, and the
-- blocks, their bytes and the bytes that are covered are those of the heap `start`.
pub record IsFreed (start : KernelHeap) (index : ℕ) (h : KernelHeap) : Type 0 where
  pub valid : IsValid h
  pub in_use : index < h.segment_count
  pub free : (segment_at index h).free ≡ true
  pub same : h.used ≡ start.used
  pub kept : blocks (live h) ≡ blocks (live start)
  pub region : SameRegion start h

-- the segment as one of the list
listed :
    (i : ℕ) (free : Bool) (h : KernelHeap)
    → IsValid h
    → i < h.segment_count
    → (segment_at i h).free ≡ free
    → (i < length (live h)) × ((get_or (live h) i empty_segment).free ≡ free)
listed i free h v lt f =
    (omega (arith, lt, length-live h v), ap (λ s. s.free) (get_or-live h i lt) ∙ f)

-- The segment after a join with the next.
joined_free :
    (start : KernelHeap) (i : ℕ) (h : KernelHeap) (v : IsValid h) (lt : i + 1 < h.segment_count)
    (free : (segment_at i h).free ≡ true) (next_free : (segment_at (i + 1) h).free ≡ true)
    → h.used ≡ start.used
    → blocks (live h) ≡ blocks (live start)
    → SameRegion start h
    → IsFreed start i (join i h)
joined_free start i h v lt free next_free same kept region =
    let next : i + 1 ≡ suc i = omega arith in
    let (here, first) = listed i true h v (omega arith) free in
    let (there, second) = listed (i + 1) true h v lt next_free in
    record {
      valid = join-IsValid i h v lt free next_free;
      in_use = (join_in_use i h v lt free next_free).0;
      free = join_free i h v lt free next_free;
      same = (join_in_use i h v lt free next_free).1 ∙ same;
      kept =
          ap blocks (live-join i h v lt free next_free)
          ∙ blocks-joined i (live h) (rw next at there) first (rw next at second)
          ∙ kept;
      region = ((join-SameRegion i h).0 ∙ region.0, (join-SameRegion i h).1 ∙ region.1);
    }

pub join_before-IsFreed :
    (start : KernelHeap) (index : ℕ) (h : KernelHeap)
    → IsFreed start index h
    → IsMergedBut index false (live h)
    → IsFreed start (join_before index h).0 (join_before index h).1
      × IsMergedBefore (join_before index h).0 false (live (join_before index h).1)
unfolding join_before
join_before-IsFreed start zero h f m = (f, zero-IsMergedBefore (live h) m)
join_before-IsFreed start (suc i) h f m = elim (Bool-cases (segment_at i h).free) [
  | inr busy ↦
      let (lt, used) = listed i false h f.valid (omega (arith, f.in_use)) busy in
      rw busy (
        f,
        used-IsMergedBefore i false (live h) (omega (arith, f.in_use, length-live h f.valid)) used
            m,
      )
  | inl free ↦
      let next : suc i ≡ i + 1 = omega arith in
      let next_free : (segment_at (i + 1) h).free ≡ true = rw next at f.free in
      let lt : i + 1 < h.segment_count = omega (arith, f.in_use) in
      rw free (
        joined_free start i h f.valid lt free next_free f.same f.kept f.region,
        rw (live-join i h f.valid lt free next_free)
            (joined-IsMergedBefore i false (live h) (omega (arith, lt, length-live h f.valid)) m),
      )
]

pub join_after-IsMerged :
    (start : KernelHeap) (index : ℕ) (h : KernelHeap)
    → IsFreed start index h
    → IsMergedBefore index false (live h)
    → IsFreed start index (join_after index h) × IsMerged false (live (join_after index h))
unfolding join_after
join_after-IsMerged start index h f m =
    elim (Bool-cases (ltb (index + 1) h.segment_count && (segment_at (index + 1) h).free)) [
      | inr no_join ↦ rw no_join (f, used-IsMerged index false (live h) (next_used no_join) m)
      | inl joins ↦
          let lt : index + 1 < h.segment_count = ground (arith, joins) in
          let next_free : (segment_at (index + 1) h).free ≡ true = ground (arith, joins) in
          let (here, free) = listed index true h f.valid f.in_use f.free in
          let (there, free_there) = listed (index + 1) true h f.valid lt next_free in
          let next : index + 1 ≡ suc index = omega arith in
          rw joins (
            joined_free start index h f.valid lt f.free next_free f.same f.kept f.region,
            rw (live-join index h f.valid lt f.free next_free) (
                joined-IsMerged index false (live h) (rw next at there) free (rw next at free_there)
                  m),
          )
    ]
  where
    next_used :
        (ltb (index + 1) h.segment_count && (segment_at (index + 1) h).free) ≡ false
        → suc index < length (live h)
        → (get_or (live h) (suc index) empty_segment).free ≡ false
    next_used no_join lt =
        let next : index + 1 ≡ suc index = omega arith in
        let within : index + 1 < h.segment_count = omega (arith, lt, length-live h f.valid) in
        let used : (segment_at (index + 1) h).free ≡ false = ground (arith, no_join, within) in
        rw next at (listed (index + 1) false h f.valid within used).1

pub release-IsFreed :
    (i : ℕ) (h : KernelHeap)
    → IsValid h
    → i < h.segment_count
    → (segment_at i h).free ≡ false
    → IsFreed (release i h) i (release i h)
unfolding release
release-IsFreed i h v lt busy = record {
  valid = release-IsValid i h v lt busy;
  in_use = lt;
  free =
      ap (λ s. s.free)
        (let its : get_or (set h.segments i (record (segment_at i h) { free = true })) i
                empty_segment
              ≡ record (segment_at i h) { free = true } =
            ground (
              arith,
              lt,
              v.array,
              v.count,
              get_or-set h.segments i i (record (segment_at i h) { free = true }) empty_segment,
            ) in
          its);
  same = refl;
  kept = refl;
  region = (refl, refl);
}
