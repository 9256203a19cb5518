-- ===== src/Kernel/Frames/Boot.antt =====
-- The allocator that is built from the boot loader's memory map.
use nix_os.Prelude.{
  ℕ, max, ◌/◌, zero, suc, ◌+◌, ◌-◌, ◌^◌, ◌%◌, ◌≤◌, ◌<◌, ◌≡◌, refl, ◌⊎◌, inl, inr, true, false, List,
  [], ◌∷◌, ◌++◌, arith, ltb, leb, ◌==◌, if◌then◌else◌, length, get_or, Bool-cases, ◌||◌,
  length-append, not,
}
use native.Mathlib.Decide.{dec_lt}
use nix_os.Kernel.Frames.{
  FrameRange, FrameAllocator, MemoryMapEntry, empty_range, range_at, add_entry, add_entries,
  from_memory_map, no_memory, align_up, align_down, saturating_add,
}
use nix_os.Kernel.Frames.Fresh.{IsFree, IsValid}

-- The usable entries come in ascending order and do not overlap, as the boot loader's protocol says,
-- and lie `b` or higher, below 2^64.
abbrev pub Ascending : ℕ → List MemoryMapEntry → Type 0
Ascending b [] = Unit {0}
Ascending b (e ∷ es) =
    (if e.is_usable
      then (b ≤ e.base) × (e.base + e.size < 2 ^ 64) × Ascending (e.base + e.size) es
      else Ascending b es)

get_or-append_one :
    (xs : List FrameRange) (r : FrameRange) (i : ℕ)
    → get_or (xs ++ r ∷ []) i empty_range ≡ (
        if ltb i (length xs)
        then get_or xs i empty_range
        else if i == length xs
        then r
        else empty_range)
get_or-append_one [] r zero = ground arith
get_or-append_one [] r (suc i) = ground arith
get_or-append_one (x ∷ xs) r zero = ground arith
get_or-append_one (x ∷ xs) r (suc i) = ground (arith, get_or-append_one xs r i)

-- The ranges so far are valid, above the first MiB, and end at `b` or lower.
record Built (b : ℕ) (a : FrameAllocator) : Type 0 where
  valid : IsValid a
  low : (i : ℕ) → i < length a.ranges → 0x10_0000 ≤ (range_at a i).next
  high : (i : ℕ) → i < length a.ranges → (range_at a i).limit ≤ b
  first : a.current_range ≡ 0

add_entry-Built :
    (b : ℕ) (a : FrameAllocator) (e : MemoryMapEntry)
    → Built b a
    → b ≤ e.base
    → e.base + e.size < 2 ^ 64
    → Built (e.base + e.size) (add_entry a e)
unfolding add_entry
add_entry-Built b a e h le small = record {
  valid = record {
    apart =
        λ i j ne p q. ground (arith, at i, at j, count, h.valid.apart i j ne, h.high i, h.high j);
    ordered = λ i p. ground (arith, at i, count, h.valid.ordered i);
    pages_next = λ i p. ground (arith, at i, count, h.valid.pages_next i);
    pages_limit = λ i p. ground (arith, at i, count, h.valid.pages_limit i);
    small = λ i p. ground (arith, at i, count, h.valid.small i);
  };
  low = λ i p. ground (arith, at i, count, h.low i);
  high = λ i p. ground (arith, at i, count, h.high i);
  first = ground (arith, h.first);
}
  where
    r : FrameRange
    r = record {
      next = align_up (max e.base 0x10_0000);
      limit = align_down (saturating_add e.base e.size);
    }

    at :
        (i : ℕ)
        → get_or (a.ranges ++ r ∷ []) i empty_range ≡ (
            if ltb i (length a.ranges)
            then get_or a.ranges i empty_range
            else if i == length a.ranges
            then r
            else empty_range)
    at i = get_or-append_one a.ranges r i

    count : length (a.ranges ++ r ∷ []) ≡ length a.ranges + 1
    count = length-append a.ranges (r ∷ [])

add_entry_unusable :
    (a : FrameAllocator) (e : MemoryMapEntry) → e.is_usable ≡ false → add_entry a e ≡ a
unfolding add_entry
add_entry_unusable a e h = rw (h, add_entry)

add_entries-Built :
    (es : List MemoryMapEntry) (b : ℕ) (a : FrameAllocator)
    → Built b a
    → Ascending b es
    → (c : ℕ) × Built c (add_entries a es)
unfolding add_entries
add_entries-Built [] b a h up = (b, h)
add_entries-Built (e ∷ es) b a h up = elim (Bool-cases e.is_usable) [
  | inl y ↦
      let u : (b ≤ e.base) × (e.base + e.size < 2 ^ 64) × Ascending (e.base + e.size) es =
        rw y at up in
      add_entries-Built es (e.base + e.size) (add_entry a e) (add_entry-Built b a e h u.0 u.1) u.2
  | inr n ↦
      let u : Ascending b es = rw n at up in
      rw (add_entry_unusable a e n) (add_entries-Built es b a h u)
]

-- Byte `x` lies in a usable entry of the map.
abbrev pub IsUsable : ℕ → List MemoryMapEntry → Type 0
IsUsable x [] = ⊥
IsUsable x (e ∷ es) = ((e.is_usable ≡ true) × (e.base ≤ x) × (x < e.base + e.size)) ⊎ IsUsable x es

add_entry-IsFree :
    (a : FrameAllocator) (e : MemoryMapEntry) (x : ℕ)
    → IsFree (add_entry a e) x
    → IsFree a x ⊎ ((e.is_usable ≡ true) × (e.base ≤ x) × (x < e.base + e.size))
unfolding add_entry
add_entry-IsFree a e x f = elim (Bool-cases (not e.is_usable || length a.ranges == 64)) [
  | inl skip ↦ inl (rw (skip, add_entry) at f)
  | inr take_it ↦ elim (Bool-cases (leb limit start)) [
    | inl empty ↦ inl (rw empty at (rw (take_it, add_entry) at f))
    | inr some_bytes ↦
        let g : IsFree a' x = rw some_bytes at (rw (take_it, add_entry) at f) in
        let law = get_or-append_one a.ranges (record { next = start; limit = limit }) g.at in
        let count = length-append a.ranges (record { next = start; limit = limit } ∷ []) in
        elim (dec_lt g.at (length a.ranges)) [
          | yes old ↦ inl (record {
            at = g.at;
            not_passed = g.not_passed;
            in_use = old;
            low = ground (arith, law, g.low);
            high = ground (arith, law, g.high);
          })
          | no new ↦ inr (
            ground arith,
            ground (arith, law, g.low, g.in_use, count),
            ground (arith, law, g.high, g.in_use, count),
          )
        ]
  ]
]
  where
    start : ℕ
    start = align_up (max e.base 0x10_0000)

    limit : ℕ
    limit = align_down (saturating_add e.base e.size)

    a' : FrameAllocator
    a' = record a {
      ranges = a.ranges ++ record { next = start; limit = limit } ∷ [];
      total_frames = (a.total_frames + (limit - start) / 4096) % 2 ^ 64;
    }

add_entries-IsFree :
    (es : List MemoryMapEntry) (a : FrameAllocator) (x : ℕ)
    → IsFree (add_entries a es) x
    → IsFree a x ⊎ IsUsable x es
unfolding add_entries
add_entries-IsFree [] a x f = inl f
add_entries-IsFree (e ∷ es) a x f = elim (add_entries-IsFree es (add_entry a e) x f) [
  | inl g ↦ elim (add_entry-IsFree a e x g) [ inl h ↦ inl h | inr u ↦ inr (inl u) ]
  | inr u ↦ inr (inr u)
]

-- From a map whose usable entries ascend without overlap, the allocator starts valid, and every byte
-- that it can give out lies in a usable entry and above the first MiB.
pub from_memory_map-IsValid :
    (es : List MemoryMapEntry)
    → Ascending 0 es
    → let a = from_memory_map es in
      IsValid a × (a.current_range ≡ 0) × ((x : ℕ) → IsFree a x → (0x10_0000 ≤ x) × IsUsable x es)
unfolding from_memory_map
from_memory_map-IsValid es up = (
  built.1.valid,
  built.1.first,
  λ x f. (omega (arith, built.1.low f.at f.in_use, f.low), usable x f),
)
  where
    nothing : (i : ℕ) → i < length no_memory.ranges → ⊥
    nothing i p = omega arith

    built : (c : ℕ) × Built c (add_entries no_memory es)
    built =
        add_entries-Built es 0 no_memory
          (record {
            valid = record {
              apart = λ i j ne p q. absurd (nothing i p);
              ordered = λ i p. absurd (nothing i p);
              pages_next = λ i p. absurd (nothing i p);
              pages_limit = λ i p. absurd (nothing i p);
              small = λ i p. absurd (nothing i p);
            };
            low = λ i p. absurd (nothing i p);
            high = λ i p. absurd (nothing i p);
            first = refl;
          })
          up

    usable : (x : ℕ) → IsFree (add_entries no_memory es) x → IsUsable x es
    usable x f = elim (add_entries-IsFree es no_memory x f) [
      | inl g ↦ absurd (nothing g.at g.in_use)
      | inr u ↦ u
    ]
