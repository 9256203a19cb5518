-- ===== src/Kernel/Heap/Tests.antt =====
-- A heap at a small address, and the theorems at it.
use nix_os.Prelude.{◌≡◌, refl, true, false, none, some, [], ◌∷◌, take, is_power_below}
use nix_os.Kernel.Frames.{allocate_contiguous, contiguous_rounds}
use nix_os.Kernel.Heap.{
  KernelHeap, new_heap, initialize, shift_up, put_all, replace_segment, shift_down, remove_segment,
  place, find_place, split, take_block, allocate, find_block, join, join_before, join_after,
  release, deallocate, free_sum, free_bytes, free_max, largest_free_block,
}
use nix_os.Kernel.Heap.Live.{live}
use nix_os.Kernel.Heap.Merged.{IsMerged}
use nix_os.Kernel.Heap.Valid.{new_heap-IsValid}
use nix_os.Kernel.Heap.Takes.{Takes, allocate-Takes, allocate_keeps}
use nix_os.Kernel.Heap.Frees.{Frees, deallocate-Frees}

abbrev heap : KernelHeap
heap = new_heap 0x8000 0x8000

abbrev after_one : KernelHeap
after_one = (allocate 100 16 heap).1

allocates :
    ((allocate 100 16 heap).0 ≡ some 0x8000)
    × ((allocate 8 64 after_one).0 ≡ some 0x8080)
    × ((allocate 0 16 heap).0 ≡ none)
    × ((allocate 8 24 heap).0 ≡ none)
    × (take 4 (allocate 8 64 after_one).1.segments
        ≡ record { offset = 0; size = 100; free = false }
          ∷ record { offset = 100; size = 28; free = true }
          ∷ record { offset = 128; size = 8; free = false }
          ∷ record { offset = 136; size = 0xff_ff78; free = true }
          ∷ [])
    × (free_bytes after_one ≡ 0xff_ff9c)
    × (largest_free_block after_one ≡ 0xff_ff9c)
unfolding allocate find_place place take_block replace_segment split put_all shift_up is_power_below
    free_bytes free_sum largest_free_block free_max
allocates = (refl, refl, refl, refl, refl, refl, refl)

frees :
    ((deallocate 0x8001 after_one).0 ≡ false)
    × ((deallocate 0x7000 after_one).0 ≡ false)
    × ((deallocate 0x8000 after_one).0 ≡ true)
    × ((deallocate 0x8000 after_one).1.segments ≡ heap.segments)
unfolding allocate find_place place take_block replace_segment split put_all shift_up is_power_below
    deallocate find_block release join_before join_after join remove_segment shift_down
frees = (refl, refl, refl, refl)

no_frames :
    (initialize
      (record { ranges = []; current_range = 0; total_frames = 0; allocated_frames = 0 })
      0).0
    ≡ none
unfolding initialize allocate_contiguous contiguous_rounds
no_frames = refl

heap-IsMerged : IsMerged false (live heap)
unfolding IsMerged
heap-IsMerged = (refl, tt)

allocate-Takes_example : Takes 100 16 heap (allocate 100 16 heap)
allocate-Takes_example = allocate-Takes 100 16 heap (new_heap-IsValid 0x8000 0x8000) heap-IsMerged

deallocate-Frees_example : Frees 0x8000 after_one (deallocate 0x8000 after_one)
deallocate-Frees_example =
    deallocate-Frees 0x8000 after_one
      (allocate_keeps 100 16 heap (new_heap-IsValid 0x8000 0x8000) heap-IsMerged).0
      (allocate_keeps 100 16 heap (new_heap-IsValid 0x8000 0x8000) heap-IsMerged).1
