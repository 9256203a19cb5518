-- ===== src/Kernel/Frames/Exhausted.antt =====
-- A request that no range can meet moves the frame allocator past all of its ranges.
use nix_os.Prelude.{ℕ, ◌+◌, ◌^◌, ◌≤◌, ◌<◌, ◌≡◌, Option, none, List, [], ◌∷◌}
use nix_os.Kernel.Frames.{FrameAllocator, range_at, allocate, allocate_contiguous}

-- No range that is left has room for `bytes`.
abbrev pub NoRoom : ℕ → FrameAllocator → Type 0
NoRoom bytes a =
    (i : ℕ)
    → a.current_range ≤ i
    → (range_at a i).limit < (range_at a i).next + bytes × ((range_at a i).next + bytes < 2 ^ 64)

-- a further call, and what it answers
pub data Request : Type 0 where
  frame : Request
  contiguous : ℕ → Request

pub answer : Request → FrameAllocator → Option ℕ × FrameAllocator
answer frame a = allocate a
answer (contiguous count) a = allocate_contiguous count a

-- None of the calls, made one after the other, is given a frame.
pub GivesNothing : List Request → FrameAllocator → Type 0
GivesNothing [] a = Unit
GivesNothing (q ∷ qs) a = ((answer q a).0 ≡ none) × GivesNothing qs (answer q a).1
