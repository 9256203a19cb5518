-- ===== src/Kernel/Frames.antt =====
-- kernel/src/memory.rs: the physical frame allocator.
-- The ranges in use, `ranges[..range_count]`, are a list, and `range_count` is its length.
pub mod Fresh
pub mod Gives
pub mod Boot
pub mod Exhausted
mod Tests
use nix_os.Prelude.{
  ℕ, zero, suc, ◌+◌, ◌-◌, ◌*◌, ◌/◌, ◌%◌, ◌^◌, max, min, Bool, true, false, ◌||◌, not, Option, none,
  some, List, [], ◌∷◌, ◌++◌, ltb, leb, ◌==◌, if◌then◌else◌, length, get_or, set,
}

abbrev pub page_size : ℕ
page_size = 4096

abbrev pub low_memory_end : ℕ
low_memory_end = 0x10_0000

abbrev pub max_ranges : ℕ
max_ranges = 64

pub record FrameRange : Type 0 where
  pub next : ℕ
  pub limit : ℕ

abbrev pub empty_range : FrameRange
empty_range = record { next = 0; limit = 0 }

pub record FrameAllocator : Type 0 where
  pub ranges : List FrameRange
  pub current_range : ℕ
  pub total_frames : ℕ
  pub allocated_frames : ℕ

-- what the kernel reads of an entry of the boot loader's memory map
pub record MemoryMapEntry : Type 0 where
  pub base : ℕ
  pub size : ℕ
  pub is_usable : Bool

-- `saturating_add` on `u64`
abbrev pub saturating_add : ℕ → ℕ → ℕ
saturating_add a b = min (a + b) (2 ^ 64 - 1)

-- `value & !(alignment - 1)`, at the page size: the bits below it cleared
abbrev pub align_down : ℕ → ℕ
align_down value = value - value % page_size

abbrev pub align_up : ℕ → ℕ
align_up value = align_down (saturating_add value (page_size - 1))

-- one round of the loop over the entries
pub add_entry : FrameAllocator → MemoryMapEntry → FrameAllocator
add_entry a e =
    let start = align_up (max e.base low_memory_end) in
    let limit = align_down (saturating_add e.base e.size) in
    if not e.is_usable || length a.ranges == max_ranges
    then a
    else if leb limit start
    then a
    else record a {
      ranges = a.ranges ++ record { next = start; limit = limit } ∷ [];
      total_frames = (a.total_frames + (limit - start) / page_size) % 2 ^ 64;
    }

pub add_entries : FrameAllocator → List MemoryMapEntry → FrameAllocator
add_entries a [] = a
add_entries a (e ∷ es) = add_entries (add_entry a e) es

abbrev pub no_memory : FrameAllocator
no_memory = record { ranges = []; current_range = 0; total_frames = 0; allocated_frames = 0 }

pub from_memory_map : List MemoryMapEntry → FrameAllocator
from_memory_map = add_entries no_memory

abbrev pub range_at : FrameAllocator → ℕ → FrameRange
range_at a i = get_or a.ranges i empty_range

abbrev pub skip_range : FrameAllocator → FrameAllocator
skip_range a = record a { current_range = a.current_range + 1 }

-- what is left of the current range once it has given its bytes up to `end`
abbrev pub advance : FrameAllocator → ℕ → ℕ → FrameAllocator
advance a end frames = record a {
  ranges = set a.ranges a.current_range (record (range_at a a.current_range) { next = end });
  allocated_frames = (a.allocated_frames + frames) % 2 ^ 64;
}

-- `while self.current_range < self.range_count`, with the number of ranges left
pub allocate_rounds : ℕ → FrameAllocator → Option ℕ × FrameAllocator
allocate_rounds zero a = (none, a)
allocate_rounds (suc n) a =
    let range = range_at a a.current_range in
    let rest = allocate_rounds n (skip_range a) in
    if ltb range.next range.limit
    then (some range.next, advance a ((range.next + page_size) % 2 ^ 64) 1)
    else rest

pub allocate : FrameAllocator → Option ℕ × FrameAllocator
allocate a = allocate_rounds (length a.ranges - a.current_range) a

-- The overflow of `checked_mul` or `checked_add` leaves the method with `None` from inside the loop.
unfoldable pub contiguous_rounds : ℕ → ℕ → FrameAllocator → Option ℕ × FrameAllocator
contiguous_rounds zero count a = (none, a)
contiguous_rounds (suc n) count a =
    let range = range_at a a.current_range in
    let bytes = count * page_size in
    let rest = contiguous_rounds n count (skip_range a) in
    if leb (2 ^ 64) bytes || leb (2 ^ 64) (range.next + bytes)
    then (none, a)
    else if leb (range.next + bytes) range.limit
    then (some range.next, advance a (range.next + bytes) count)
    else rest

unfoldable pub allocate_contiguous : ℕ → FrameAllocator → Option ℕ × FrameAllocator
allocate_contiguous count a =
    if count == 0 then (none, a) else contiguous_rounds (length a.ranges - a.current_range) count a
