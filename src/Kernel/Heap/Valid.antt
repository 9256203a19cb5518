-- ===== src/Kernel/Heap/Valid.antt =====
-- The invariant of the heap, and that a block that is taken keeps it.
use nix_os.Prelude.{
  ℕ, zero, suc, ◌+◌, ◌-◌, ◌*◌, ◌/◌, ◌%◌, ◌^◌, ◌≤◌, ◌<◌, ◌≡◌, refl, ap, ◌∙◌, Bool, true, false, not,
  none, some, List, [], ◌∷◌, arith, ltb, if◌then◌else◌, length, get_or, length-take, get_or-take,
  is_power_below, inl, inr, Bool-cases,
}
use native.Mathlib.Nat.{mod-lt, div-add-mod', mul-mod_left}
use nix_os.Kernel.Heap.{
  Segment, KernelHeap, empty_segment, new_heap, replace_segment, shift_up, put_all, split,
  take_block, find_place, place, Placement, overflows, skips, places, align_down, is_power_of_two,
  count_allocation, non_null,
}
use nix_os.Kernel.Heap.Shift.{length-shift_up, length-put_all}
use nix_os.Kernel.Heap.Live.{live, replaced, take-replace}
use nix_os.Kernel.Heap.Tiles.{
  Tiles, used_sum, used_count, Tiles-replaced, Tiles-split, split-sums, used_sum-replaced,
  used_count-replaced,
}

-- The segments in use tile the heap, and the counters are those of the segments that are not free.
pub record IsValid (h : KernelHeap) : Type 0 where
  pub array : length h.segments ≡ 128
  pub count : h.segment_count ≤ 128
  pub tiles : Tiles 0 (live h) h.size
  pub used : h.used ≡ used_sum (live h)
  pub active : h.active_allocations ≡ used_count (live h)

pub new_heap-IsValid :
    (physical_start virtual_start : ℕ) → IsValid (new_heap physical_start virtual_start)
unfolding Tiles used_sum used_count
new_heap-IsValid physical_start virtual_start = record {
  array = refl;
  count = omega arith;
  tiles = (refl, omega arith, refl);
  used = refl;
  active = refl;
}

pub length-live : (h : KernelHeap) → IsValid h → length (live h) ≡ h.segment_count
length-live h v = omega (arith, length-take h.segment_count h.segments, v.array, v.count)

pub get_or-live :
    (h : KernelHeap) (i : ℕ)
    → i < h.segment_count
    → get_or (live h) i empty_segment ≡ get_or h.segments i empty_segment
get_or-live h i lt = ground (arith, get_or-take empty_segment h.segment_count h.segments i)

-- What a search for a place that ends well has found.
pub record IsPlace (size align : ℕ) (h : KernelHeap) (index offset : ℕ) : Type 0 where
  pub in_use : index < h.segment_count
  pub was_free : (get_or h.segments index empty_segment).free ≡ true
  pub low : (get_or h.segments index empty_segment).offset ≤ offset
  pub high :
      offset + size
      ≤ (get_or h.segments index empty_segment).offset
        + (get_or h.segments index empty_segment).size
  pub aligned : (h.virtual_start + offset) % align ≡ 0
  pub address : h.virtual_start + offset < 2 ^ 64

pub align_down_lem :
    (align address : ℕ)
    → 0 < align
    → (address ≤ align_down align (address + (align - 1)))
      × (align_down align (address + (align - 1)) % align ≡ 0)
      × (align_down align (address + (align - 1)) ≤ address + (align - 1))
align_down_lem align address pos =
    let small : (address + (align - 1)) % align < align = mod-lt (address + (align - 1)) pos in
    let total = address + (align - 1) in
    let same : total - total % align ≡ total / align * align =
      omega (arith, div-add-mod' total align) in
    (
      omega (arith, small),
      ap (λ n. n % align) same ∙ mul-mod_left (total / align) align,
      omega arith,
    )

-- A power of two is not 0.
pub power_positive : (n : ℕ) → is_power_of_two n ≡ true → 0 < n
unfolding is_power_below
power_positive zero h = absurd (ground arith)
power_positive (suc n) h = omega arith

place-places :
    (virtual_start size align : ℕ) (s : Segment) (offset : ℕ)
    → 0 < align
    → 0 < size
    → place virtual_start size align s ≡ places offset
    → (s.offset ≤ offset)
      × (offset + size ≤ s.offset + s.size)
      × ((virtual_start + offset) % align ≡ 0)
      × (virtual_start + offset < 2 ^ 64)
unfolding place
place-places virtual_start size align s offset pos some_size h =
    let (low, multiple, high) = align_down_lem align (virtual_start + s.offset) pos in
    let aligned = align_down align (virtual_start + s.offset + (align - 1)) in
    let facts : (aligned - virtual_start ≡ offset)
        × (virtual_start ≤ aligned)
        × (aligned < 2 ^ 64)
        × (offset + size ≤ s.offset + s.size) =
      ground arith in
    let whole : virtual_start + offset ≡ aligned = omega (arith, facts) in
    (
      omega (arith, low, facts, whole),
      omega (arith, facts),
      ap (λ n. n % align) whole ∙ multiple,
      omega (arith, facts, whole),
    )

pub find_place-IsPlace :
    (n first size align : ℕ) (h : KernelHeap) (index offset : ℕ)
    → 0 < align
    → 0 < size
    → first + n ≤ h.segment_count
    → find_place n first size align h ≡ some (index, offset)
    → IsPlace size align h index offset
unfolding find_place
find_place-IsPlace zero first size align h index offset pos some_size within e =
    absurd (ground arith)
find_place-IsPlace (suc n) first size align h index offset pos some_size within e =
    go (get_or h.segments first empty_segment).free
      (place h.virtual_start size align (get_or h.segments first empty_segment))
      (find_place-IsPlace n (first + 1) size align h index offset pos some_size (omega arith)) refl
      refl e
  where
    go :
        (free : Bool) (p : Placement)
        → (find_place n (first + 1) size align h ≡ some (index, offset)
            → IsPlace size align h index offset)
        → (get_or h.segments first empty_segment).free ≡ free
        → place h.virtual_start size align (get_or h.segments first empty_segment) ≡ p
        → (if not free then find_place n (first + 1) size align h else elim p [
          | overflows ↦ none
          | skips ↦ find_place n (first + 1) size align h
          | places found ↦ some (first, found)
        ])
          ≡ some (index, offset)
        → IsPlace size align h index offset
    go false p rest f g q = rest q
    go true overflows rest f g q = absurd (ground arith)
    go true skips rest f g q = rest q
    go true (places found) rest f g q =
        let here : first ≡ index = ground arith in
        let there : found ≡ offset = ground arith in
        let (low, high, aligned, address) =
          place-places h.virtual_start size align (get_or h.segments first empty_segment) found pos
            some_size g in
        rw here at (
          rw there at (
            let made : IsPlace size align h first found = record {
              in_use = omega arith;
              was_free = f;
              low = low;
              high = high;
              aligned = aligned;
              address = address;
            } in
            made))

-- a free segment counts for nothing
free_sums : (s : Segment) → s.free ≡ true → (used_sum (s ∷ []) ≡ 0) × (used_count (s ∷ []) ≡ 0)
unfolding used_sum used_count
free_sums s f = (ground (arith, f), ground (arith, f))

-- the segment that a block is taken of, and the segments that take its place
abbrev pub segment_at : ℕ → KernelHeap → Segment
segment_at index h = get_or h.segments index empty_segment

unfoldable pub pieces : (index offset size : ℕ) → KernelHeap → List Segment
pieces index offset size h = split (segment_at index h) offset size

-- the heap when the pieces fit
unfoldable pub taken : (index offset size : ℕ) → KernelHeap → KernelHeap
taken index offset size h = count_allocation size (record h {
  segments = put_all index (pieces index offset size h) (
      shift_up (h.segment_count - (index + 1)) index (length (pieces index offset size h) - 1)
        h.segments);
  segment_count = h.segment_count + (length (pieces index offset size h) - 1);
})

pub take_block-taken :
    (index offset size : ℕ) (h : KernelHeap)
    → take_block index offset size h ≡ (
        if ltb 128 (h.segment_count + (length (pieces index offset size h) - 1))
        then (none, h)
        else (non_null (h.virtual_start + offset), taken index offset size h))
unfolding take_block replace_segment pieces taken
take_block-taken index offset size h =
    elim (Bool-cases
      (ltb 128 (h.segment_count + (length (split (segment_at index h) offset size) - 1)))) [
        | inl f ↦ rw f refl
        | inr f ↦ rw f refl
      ]

module _ (size align : ℕ) (h : KernelHeap) (index offset : ℕ) (some_size : 0 < size) (v : IsValid h)
    (p : IsPlace size align h index offset)
    (fits : h.segment_count + (length (pieces index offset size h) - 1) ≤ 128) where
  within : index < length (live h)
  within = omega (arith, p.in_use, length-live h v)

  pub live-taken :
      live (taken index offset size h) ≡ replaced index (pieces index offset size h) (live h)
  unfolding taken pieces
  live-taken =
      take-replace h.segment_count index h.segments p.in_use (pieces index offset size h)
        (split-sums (segment_at index h) offset size).2 (omega (arith, fits, v.array))

  taken-Tiles : Tiles 0 (live (taken index offset size h)) h.size
  unfolding pieces
  taken-Tiles = rw live-taken (
      Tiles-replaced index 0 h.size (pieces index offset size h) (live h) within v.tiles (
        rw (get_or-live h index p.in_use)
          (Tiles-split (segment_at index h) offset size some_size p.low p.high)))

  pub taken-IsValid : IsValid (taken index offset size h)
  unfolding pieces taken put_all
  taken-IsValid =
      let (sum, number, filled) = split-sums (segment_at index h) offset size in
      let old = get_or-live h index p.in_use in
      record {
        array =
            length-put_all index (pieces index offset size h) shifted
            ∙ length-shift_up n index additional h.segments
            ∙ v.array;
        count = fits;
        tiles = taken-Tiles;
        used =
            let change : used_sum (live (taken index offset size h))
                  + used_sum (segment_at index h ∷ [])
                ≡ used_sum (live h) + used_sum (pieces index offset size h) =
              rw live-taken (
                rw old at (used_sum-replaced index (pieces index offset size h) (live h) within)) in
            omega (arith, v.used, change, sum, (free_sums (segment_at index h) p.was_free).0);
        active =
            let change : used_count (live (taken index offset size h))
                  + used_count (segment_at index h ∷ [])
                ≡ used_count (live h) + used_count (pieces index offset size h) =
              rw live-taken (
                rw old at
                  (used_count-replaced index (pieces index offset size h) (live h) within)) in
            omega (arith, v.active, change, number, (free_sums (segment_at index h) p.was_free).1);
      }
    where
      additional : ℕ
      additional = length (pieces index offset size h) - 1

      n : ℕ
      n = h.segment_count - (index + 1)

      shifted : List Segment
      shifted = shift_up n index additional h.segments
