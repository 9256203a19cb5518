-- ===== src/Kernel/Heap.antt =====
-- kernel/src/heap.rs: the kernel heap, a table of segments that first fit splits and a free joins again.
-- A pointer is its address. The lock that serialises the calls, and the clearing of the memory, are left out.
pub mod Shift
pub mod Live
pub mod Tiles
pub mod Merged
pub mod Gaps
pub mod Valid
pub mod Takes
pub mod Refuses
pub mod Joins
pub mod Merges
pub mod Frees
mod Tests
use nix_os.Prelude.{
  ℕ, zero, suc, ◌+◌, ◌-◌, ◌*◌, ◌/◌, ◌%◌, ◌^◌, max, Bool, true, false, ◌&&◌, ◌||◌, not, Option, none,
  some, List, [], ◌∷◌, ◌++◌, ltb, leb, ◌==◌, if◌then◌else◌, length, get_or, set, take, replicate,
  is_power_below,
}
use nix_os.Kernel.Frames.{FrameAllocator, allocate_contiguous}

abbrev pub heap_pages : ℕ
heap_pages = 4096

abbrev pub max_segments : ℕ
max_segments = 128

pub record Segment : Type 0 where
  pub offset : ℕ
  pub size : ℕ
  pub free : Bool

abbrev pub empty_segment : Segment
empty_segment = record { offset = 0; size = 0; free = false }

pub record KernelHeap : Type 0 where
  pub physical_start : ℕ
  pub virtual_start : ℕ
  pub size : ℕ
  pub segments : List Segment
  pub segment_count : ℕ
  pub used : ℕ
  pub peak_used : ℕ
  pub active_allocations : ℕ
  pub total_allocations : ℕ
  pub deallocations : ℕ

abbrev pub new_heap : ℕ → ℕ → KernelHeap
new_heap physical_start virtual_start = record {
  physical_start = physical_start;
  virtual_start = virtual_start;
  size = heap_pages * 4096;
  segments =
      record { offset = 0; size = heap_pages * 4096; free = true }
      ∷ replicate (max_segments - 1) empty_segment;
  segment_count = 1;
  used = 0;
  peak_used = 0;
  active_allocations = 0;
  total_allocations = 0;
  deallocations = 0;
}

pub initialize : FrameAllocator → ℕ → Option KernelHeap × FrameAllocator
initialize allocator hhdm_offset =
    let (found, a) = allocate_contiguous heap_pages allocator in
    elim found [
      | none ↦ (none, a)
      | some start ↦ (
        if leb (2 ^ 64) (hhdm_offset + start)
            then none
            else some (new_heap start (hhdm_offset + start)),
        a,
      )
    ]

-- The loop of `replace_segment` from its last round down: `n` segments behind `index` move up.
pub shift_up : (n index additional : ℕ) → List Segment → List Segment
shift_up zero index additional segments = segments
shift_up (suc n) index additional segments =
    shift_up n index additional
      (set segments (index + 1 + n + additional) (get_or segments (index + 1 + n) empty_segment))

-- `copy_from_slice` from `index` on
pub put_all : ℕ → List Segment → List Segment → List Segment
put_all index [] segments = segments
put_all index (s ∷ replacement) segments = put_all (index + 1) replacement (set segments index s)

-- The replacement is given without its unused places, and has a segment.
pub replace_segment : ℕ → List Segment → KernelHeap → Bool × KernelHeap
replace_segment index replacement h =
    let additional = length replacement - 1 in
    if ltb max_segments (h.segment_count + additional) then (false, h) else (
      true,
      record h {
        segments =
            put_all index replacement
              (shift_up (h.segment_count - (index + 1)) index additional h.segments);
        segment_count = h.segment_count + additional;
      },
    )

-- the loop of `remove_segment`: `n` segments behind `index` move down
pub shift_down : (n index : ℕ) → List Segment → List Segment
shift_down zero index segments = segments
shift_down (suc n) index segments =
    shift_down n (index + 1) (set segments index (get_or segments (index + 1) empty_segment))

pub remove_segment : ℕ → KernelHeap → KernelHeap
remove_segment index h = record h {
  segments =
      set (shift_down (h.segment_count - 1 - index) index h.segments) (h.segment_count - 1)
        empty_segment;
  segment_count = h.segment_count - 1;
}

-- `usize::is_power_of_two`
abbrev pub is_power_of_two : ℕ → Bool
is_power_of_two n = is_power_below 64 n

-- `address & !(align - 1)` of a power of two
abbrev pub align_down : ℕ → ℕ → ℕ
align_down align address = address - address % align

-- What one round of `allocate` makes of a free segment: it leaves the method on an overflow, goes on with
-- the next segment, or has found the offset of the block.
pub data Placement : Type 0 where
  overflows skips : Placement
  places : ℕ → Placement

pub place : (virtual_start size align : ℕ) → Segment → Placement
place virtual_start size align s =
    let aligned = align_down align (virtual_start + s.offset + (align - 1)) in
    if leb (2 ^ 64) (virtual_start + s.offset)
      || leb (2 ^ 64) (virtual_start + s.offset + (align - 1))
      || ltb aligned virtual_start
      || leb (2 ^ 64) (aligned - virtual_start + size)
      || leb (2 ^ 64) (s.offset + s.size)
    then overflows
    else if ltb (s.offset + s.size) (aligned - virtual_start + size)
    then skips
    else places (aligned - virtual_start)

-- the loop over the segments from `index` on, up to the one that is taken
pub find_place : (n index size align : ℕ) → KernelHeap → Option (ℕ × ℕ)
find_place zero index size align h = none
find_place (suc n) index size align h =
    let rest = find_place n (index + 1) size align h in
    let s = get_or h.segments index empty_segment in
    if not s.free then rest else elim (place h.virtual_start size align s) [
      | overflows ↦ none
      | skips ↦ rest
      | places offset ↦ some (index, offset)
    ]

-- a free segment, unless it is empty
abbrev pub free_part : ℕ → ℕ → List Segment
free_part offset size =
    if size == 0 then [] else record { offset = offset; size = size; free = true } ∷ []

-- the segments that a block at `offset` leaves of the segment `s`
pub split : Segment → (offset size : ℕ) → List Segment
split s offset size =
    free_part s.offset (offset - s.offset)
    ++ record { offset = offset; size = size; free = false }
      ∷ free_part (offset + size) (s.offset + s.size - (offset + size))

-- `NonNull::new`
abbrev pub non_null : ℕ → Option ℕ
non_null address = if address == 0 then none else some address

-- the counters after a block of `size` bytes was taken
abbrev pub count_allocation : ℕ → KernelHeap → KernelHeap
count_allocation size h = record h {
  used = h.used + size;
  peak_used = max h.peak_used (h.used + size);
  active_allocations = h.active_allocations + 1;
  total_allocations = (h.total_allocations + 1) % 2 ^ 64;
}

-- the rest of the round that has found a place
pub take_block : (index offset size : ℕ) → KernelHeap → Option ℕ × KernelHeap
take_block index offset size h =
    let (fits, h') =
      replace_segment index (split (get_or h.segments index empty_segment) offset size) h in
    if fits then (non_null (h.virtual_start + offset), count_allocation size h') else (none, h')

pub allocate : ℕ → ℕ → KernelHeap → Option ℕ × KernelHeap
allocate size align h =
    if size == 0 || not (is_power_of_two align)
    then (none, h)
    else elim (find_place h.segment_count 0 size align h) [
      | none ↦ (none, h)
      | some (index, offset) ↦ take_block index offset size h
    ]

-- `position` over the segments in use: the first that is not free and has the offset
pub find_block : ℕ → List Segment → Option ℕ
find_block offset [] = none
find_block offset (s ∷ segments) =
    let rest = find_block offset segments in
    if not s.free && s.offset == offset
    then some 0
    else elim rest [ none ↦ none | some i ↦ some (suc i) ]

-- the segment at `index` grows by the next, which goes
pub join : ℕ → KernelHeap → KernelHeap
join index h =
    let s = get_or h.segments index empty_segment in
    let next = get_or h.segments (index + 1) empty_segment in
    remove_segment (index + 1)
      (record h { segments = set h.segments index (record s { size = s.size + next.size }) })

-- the merge with the segment before, and the index after it
pub join_before : ℕ → KernelHeap → ℕ × KernelHeap
join_before zero h = (zero, h)
join_before (suc i) h =
    if (get_or h.segments i empty_segment).free then (i, join i h) else (suc i, h)

pub join_after : ℕ → KernelHeap → KernelHeap
join_after index h =
    if ltb (index + 1) h.segment_count && (get_or h.segments (index + 1) empty_segment).free
    then join index h
    else h

-- the segment at `index` is free from now on
pub release : ℕ → KernelHeap → KernelHeap
release index h =
    let s = get_or h.segments index empty_segment in
    record h {
      segments = set h.segments index (record s { free = true });
      used = h.used - s.size;
      active_allocations = h.active_allocations - 1;
      deallocations = (h.deallocations + 1) % 2 ^ 64;
    }

pub deallocate : ℕ → KernelHeap → Bool × KernelHeap
deallocate address h =
    if ltb address h.virtual_start
    then (false, h)
    else elim (find_block (address - h.virtual_start) (take h.segment_count h.segments)) [
      | none ↦ (false, h)
      | some index ↦ let (at, h') = join_before index (release index h) in (true, join_after at h')
    ]

-- `filter(free).map(size).sum()`
pub free_sum : List Segment → ℕ
free_sum [] = 0
free_sum (s ∷ segments) = (if s.free then s.size else 0) + free_sum segments

pub free_bytes : KernelHeap → ℕ
free_bytes h = free_sum (take h.segment_count h.segments)

-- `filter(free).map(size).max().unwrap_or(0)`
pub free_max : List Segment → ℕ
free_max [] = 0
free_max (s ∷ segments) = max (if s.free then s.size else 0) (free_max segments)

pub largest_free_block : KernelHeap → ℕ
largest_free_block h = free_max (take h.segment_count h.segments)
