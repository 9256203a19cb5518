-- ===== src/Kernel/Frames/Tests.antt =====
-- kernel/src/memory.rs on a concrete memory map, and its theorems at it.
use nix_os.Prelude.{ℕ, ◌*◌, ◌≡◌, ◌≤◌, refl, true, false, some, List, [], ◌∷◌, arith}
use nix_os.Kernel.Frames.{
  FrameAllocator, MemoryMapEntry, add_entry, add_entries, from_memory_map, allocate_rounds,
  allocate, contiguous_rounds, allocate_contiguous,
}
use nix_os.Kernel.Frames.Fresh.{IsFree, IsValid, Gives}
use nix_os.Kernel.Frames.Gives.{allocate-Gives, allocate_contiguous-Gives}
use nix_os.Kernel.Frames.Boot.{Ascending, IsUsable, from_memory_map-IsValid}

-- low memory, a firmware hole, and two usable regions of two and three frames
abbrev memory_map : List MemoryMapEntry
memory_map =
    record { base = 0; size = 0x9_f000; is_usable = true }
    ∷ record { base = 0x9_f000; size = 0x6_1000; is_usable = false }
    ∷ record { base = 0x10_0000; size = 0x2000; is_usable = true }
    ∷ record { base = 0x20_0100; size = 0x4000; is_usable = true }
    ∷ []

abbrev booted : FrameAllocator
booted = record {
  ranges =
      record { next = 0x10_0000; limit = 0x10_2000 }
      ∷ record { next = 0x20_1000; limit = 0x20_4000 }
      ∷ [];
  current_range = 0;
  total_frames = 5;
  allocated_frames = 0;
}

boots : from_memory_map memory_map ≡ booted
unfolding from_memory_map add_entries add_entry
boots = refl

memory_map-ascends : Ascending 0 memory_map
memory_map-ascends =
    (omega arith, omega arith, (omega arith, omega arith, (omega arith, omega arith, tt)))

from_memory_map-IsValid_example :
    let a = from_memory_map memory_map in
    IsValid a
    × (a.current_range ≡ 0)
    × ((x : ℕ) → IsFree a x → (0x10_0000 ≤ x) × IsUsable x memory_map)
from_memory_map-IsValid_example = from_memory_map-IsValid memory_map memory_map-ascends

booted-IsValid : IsValid booted
booted-IsValid = rw boots at (from_memory_map-IsValid memory_map memory_map-ascends).0

gives_first :
    ((allocate booted).0 ≡ some 0x10_0000) × ((allocate_contiguous 3 booted).0 ≡ some 0x20_1000)
unfolding allocate allocate_rounds allocate_contiguous contiguous_rounds
gives_first = (refl, refl)

allocate-Gives_example : Gives booted 0x10_0000 4096 (allocate booted).1
allocate-Gives_example = allocate-Gives 0x10_0000 booted-IsValid (omega arith) gives_first.0

allocate_contiguous-Gives_example :
    Gives booted 0x20_1000 (3 * 4096) (allocate_contiguous 3 booted).1
allocate_contiguous-Gives_example =
    allocate_contiguous-Gives 3 0x20_1000 booted-IsValid (omega arith) gives_first.1

-- one range of a single frame
abbrev last_frame : FrameAllocator
last_frame = record booted { ranges = record { next = 0x10_0000; limit = 0x10_1000 } ∷ [] }
