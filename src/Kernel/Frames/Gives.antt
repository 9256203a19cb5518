-- ===== src/Kernel/Frames/Gives.antt =====
-- What `allocate` and `allocate_contiguous` return was free and is so no longer.
use nix_os.Prelude.{
  ℕ, zero, suc, ◌+◌, ◌-◌, ◌*◌, ◌^◌, ◌%◌, ◌≤◌, ◌<◌, ◌≡◌, refl, inl, inr, some, arith, ltb, leb, ◌==◌,
  length, Bool-cases, ltb→lt, leb→le, ◌||◌,
}
use nix_os.Kernel.Frames.{
  FrameAllocator, range_at, skip_range, allocate_rounds, allocate, contiguous_rounds,
  allocate_contiguous,
}
use nix_os.Kernel.Frames.Fresh.{IsFree, IsValid, Gives, advance-Gives}

-- Passing over a range frees nothing and keeps the invariant.
skip-Gives :
    (a : FrameAllocator) (start bytes : ℕ) (a' : FrameAllocator)
    → Gives (skip_range a) start bytes a'
    → Gives a start bytes a'
skip-Gives a start bytes a' g = record {
  aligned = g.aligned;
  was_free = λ x lo hi. unskip a x (g.was_free x lo hi);
  is_gone = g.is_gone;
  nothing_new = λ x f. unskip a x (g.nothing_new x f);
  valid = g.valid;
}
  where
    unskip : (a : FrameAllocator) (x : ℕ) → IsFree (skip_range a) x → IsFree a x
    unskip a x f = record {
      at = f.at;
      not_passed = omega (arith, f.not_passed);
      in_use = f.in_use;
      low = f.low;
      high = f.high;
    }

skip-IsValid : (a : FrameAllocator) → IsValid a → IsValid (skip_range a)
skip-IsValid a v = record {
  apart = v.apart;
  ordered = v.ordered;
  pages_next = v.pages_next;
  pages_limit = v.pages_limit;
  small = v.small;
}

allocate_rounds-Gives :
    (n : ℕ) (a : FrameAllocator) (start : ℕ)
    → IsValid a
    → a.current_range + n ≤ length a.ranges
    → (allocate_rounds n a).0 ≡ some start
    → Gives a start 4096 (allocate_rounds n a).1
unfolding allocate_rounds
allocate_rounds-Gives zero a start v le e = absurd (ground arith)
allocate_rounds-Gives (suc n) a start v le e = elim (Bool-cases (ltb next limit)) [
  | inl y ↦
      let lt : a.current_range < length a.ranges = omega arith in
      let room : next < limit = ltb→lt next limit y in
      let fits : next + 4096 ≤ limit =
        omega (arith, v.pages_next a.current_range lt, v.pages_limit a.current_range lt) in
      let no_wrap : (next + 4096) % 2 ^ 64 ≡ next + 4096 =
        omega (arith, v.small a.current_range lt) in
      let here : next ≡ start = ground arith in
      rw (y, allocate_rounds, no_wrap, ← here) (advance-Gives a 4096 1 v lt refl fits)
  | inr y ↦
      rw (y, allocate_rounds)
        (skip-Gives a start 4096 _ (
          allocate_rounds-Gives n (skip_range a) start (skip-IsValid a v) (omega arith)
            (rw (y, allocate_rounds) at e)))
]
  where
    next : ℕ
    next = (range_at a a.current_range).next

    limit : ℕ
    limit = (range_at a a.current_range).limit

-- A frame that `allocate` returns is page aligned; every byte of it was free, none of it is free any
-- more, nothing else has become free, and the allocator stays valid.
pub allocate-Gives :
    {a : FrameAllocator} (start : ℕ)
    → IsValid a
    → a.current_range ≤ length a.ranges
    → (allocate a).0 ≡ some start
    → Gives a start 4096 (allocate a).1
unfolding allocate
allocate-Gives {a} start v le e =
    allocate_rounds-Gives (length a.ranges - a.current_range) a start v (omega arith) e

contiguous_rounds-Gives :
    (n count : ℕ) (a : FrameAllocator) (start : ℕ)
    → IsValid a
    → a.current_range + n ≤ length a.ranges
    → (contiguous_rounds n count a).0 ≡ some start
    → Gives a start (count * 4096) (contiguous_rounds n count a).1
unfolding contiguous_rounds
contiguous_rounds-Gives zero count a start v le e = absurd (ground arith)
contiguous_rounds-Gives (suc n) count a start v le e =
    elim (Bool-cases (leb (2 ^ 64) (count * 4096) || leb (2 ^ 64) (next + count * 4096))) [
      | inl over ↦ absurd (ground arith)
      | inr small ↦ elim (Bool-cases (leb (next + count * 4096) limit)) [
        | inl y ↦
            let lt : a.current_range < length a.ranges = omega arith in
            let fits : next + count * 4096 ≤ limit = leb→le _ limit y in
            let here : next ≡ start = ground arith in
            rw (small, contiguous_rounds)
              (rw (y, ← here) (advance-Gives a (count * 4096) count v lt (omega arith) fits))
        | inr y ↦
            rw (small, contiguous_rounds)
              (rw y (
                skip-Gives a start (count * 4096) _ (
                  contiguous_rounds-Gives n count (skip_range a) start (skip-IsValid a v)
                    (omega arith) (ground arith))))
      ]
    ]
  where
    next : ℕ
    next = (range_at a a.current_range).next

    limit : ℕ
    limit = (range_at a a.current_range).limit

-- The block that `allocate_contiguous` returns is page aligned; all of its `count` frames were free,
-- none of it is free any more, nothing else has become free, and the allocator stays valid.
pub allocate_contiguous-Gives :
    {a : FrameAllocator} (count start : ℕ)
    → IsValid a
    → a.current_range ≤ length a.ranges
    → (allocate_contiguous count a).0 ≡ some start
    → Gives a start (count * 4096) (allocate_contiguous count a).1
unfolding allocate_contiguous
allocate_contiguous-Gives {a} count start v le e = elim (Bool-cases (count == 0)) [
  | inl z ↦ absurd (ground arith)
  | inr nz ↦
      rw (nz, allocate_contiguous)
        (contiguous_rounds-Gives (length a.ranges - a.current_range) count a start v (omega arith)
          (rw (nz, allocate_contiguous) at e))
]
