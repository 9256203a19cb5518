-- ===== src/Kernel/Frames/Fresh.antt =====
-- The frame allocator gives out memory that is free, and never the same byte twice.
use nix_os.Prelude.{
  ℕ, ◌+◌, ◌^◌, ◌%◌, ◌≤◌, ◌<◌, ◌≡◌, ◌≢◌, ◌⊎◌, arith, ◌==◌, if◌then◌else◌, length, length-set,
  get_or-set,
}
use native.Mathlib.Decide.{ℕ_discrete}
use nix_os.Kernel.Frames.{FrameAllocator, empty_range, range_at, advance}

-- Byte `x` is still to be given out.
pub record IsFree (a : FrameAllocator) (x : ℕ) : Type 0 where
  pub at : ℕ
  pub not_passed : a.current_range ≤ at
  pub in_use : at < length a.ranges
  pub low : (range_at a at).next ≤ x
  pub high : x < (range_at a at).limit

-- The ranges do not overlap, their ends are page aligned and below 2^64.
pub record IsValid (a : FrameAllocator) : Type 0 where
  pub apart :
      (i j : ℕ)
      → i ≢ j
      → i < length a.ranges
      → j < length a.ranges
      → ((range_at a i).limit ≤ (range_at a j).next) ⊎ ((range_at a j).limit ≤ (range_at a i).next)
  pub ordered : (i : ℕ) → i < length a.ranges → (range_at a i).next ≤ (range_at a i).limit
  pub pages_next : (i : ℕ) → i < length a.ranges → (range_at a i).next % 4096 ≡ 0
  pub pages_limit : (i : ℕ) → i < length a.ranges → (range_at a i).limit % 4096 ≡ 0
  pub small : (i : ℕ) → i < length a.ranges → (range_at a i).limit < 2 ^ 64

-- The bytes `[start, start + bytes)` have been given out: they were free, they are not, and nothing
-- else has become free.
pub record Gives (a : FrameAllocator) (start bytes : ℕ) (a' : FrameAllocator) : Type 0 where
  pub aligned : start % 4096 ≡ 0
  pub was_free : (x : ℕ) → start ≤ x → x < start + bytes → IsFree a x
  pub is_gone : (x : ℕ) → start ≤ x → x < start + bytes → ¬ IsFree a' x
  pub nothing_new : (x : ℕ) → IsFree a' x → IsFree a x
  pub valid : IsValid a'

module _ (a : FrameAllocator) (bytes frames : ℕ) (v : IsValid a)
    (lt : a.current_range < length a.ranges) (pages : bytes % 4096 ≡ 0)
    (fits : (range_at a a.current_range).next + bytes ≤ (range_at a a.current_range).limit) where
  c : ℕ
  c = a.current_range

  a' : FrameAllocator
  a' = advance a ((range_at a a.current_range).next + bytes) frames

  -- The limits stay, and only the current range moves on.
  moved :
      (i : ℕ)
      → ((range_at a' i).limit ≡ (range_at a i).limit)
        × ((range_at a' i).next
            ≡ (if c == i then (range_at a i).next + bytes else (range_at a i).next))
  unfolding a' c
  moved i = ground (
    arith,
    get_or-set a.ranges a.current_range i
        (record (range_at a a.current_range) { next = (range_at a a.current_range).next + bytes })
        empty_range,
  )

  same_count : length a'.ranges ≡ length a.ranges
  unfolding a'
  same_count = length-set a.ranges a.current_range _

  advance-IsValid : IsValid a'
  unfolding c
  advance-IsValid = record {
    apart = λ i j ne p q.
        ground (arith, moved i, moved j, same_count, v.apart i j ne, v.ordered i, v.ordered j);
    ordered = λ i p. ground (arith, moved i, same_count, v.ordered i);
    pages_next = λ i p. ground (arith, moved i, same_count, v.pages_next i);
    pages_limit = λ i p. ground (arith, moved i, same_count, v.pages_limit i);
    small = λ i p. ground (arith, moved i, same_count, v.small i);
  }

  gone :
      (x i : ℕ)
      → (range_at a c).next ≤ x
      → x < (range_at a c).next + bytes
      → c ≤ i
      → i < length a.ranges
      → (range_at a' i).next ≤ x
      → x < (range_at a' i).limit
      → ⊥
  unfolding c
  gone x i lo hi past in_use low high = elim (ℕ_discrete c i) [
    | yes e ↦ ground (arith, moved i)
    | no ne ↦ ground (arith, moved i, v.apart c i ne lt in_use, fits)
  ]

  pub advance-Gives :
      Gives a
        (range_at a a.current_range).next
        bytes
        (advance a ((range_at a a.current_range).next + bytes) frames)
  unfolding c a'
  advance-Gives = record {
    aligned = v.pages_next c lt;
    was_free = λ x lo hi. record {
      at = c;
      not_passed = omega arith;
      in_use = lt;
      low = lo;
      high = omega arith;
    };
    is_gone = λ x lo hi f.
        gone x f.at lo hi f.not_passed (omega (arith, f.in_use, same_count)) f.low f.high;
    nothing_new = λ x f. record {
      at = f.at;
      not_passed = f.not_passed;
      in_use = omega (arith, f.in_use, same_count);
      low = ground (arith, moved f.at, f.low);
      high = ground (arith, moved f.at, f.high);
    };
    valid = advance-IsValid;
  }
