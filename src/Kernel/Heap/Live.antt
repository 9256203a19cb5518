-- ===== src/Kernel/Heap/Live.antt =====
-- The segments in use as a list, and what the array operations do to it.
use nix_os.Prelude.{
  ℕ, zero, suc, ◌+◌, ◌-◌, ◌≤◌, ◌<◌, ◌≡◌, refl, ap, ◌∙◌, List, [], ◌∷◌, ◌++◌, arith, ltb, leb,
  if◌then◌else◌, length, get_or, set, take, length-set, get_or-set, list_ext, get_or-append,
  get_or-take, length-append, length-take,
}
use nix_os.Kernel.Heap.{Segment, KernelHeap, empty_segment, shift_up, put_all, shift_down}
use nix_os.Kernel.Heap.Shift.{
  length-shift_up, get_or-shift_up, length-put_all, get_or-put_all, length-shift_down,
  get_or-shift_down,
}

abbrev pub live : KernelHeap → List Segment
live h = take h.segment_count h.segments

-- the list `segments` with `replacement` in place of its entry at `i`
abbrev pub replaced : ℕ → List Segment → List Segment → List Segment
replaced i replacement [] = []
replaced zero replacement (s ∷ segments) = replacement ++ segments
replaced (suc i) replacement (s ∷ segments) = s ∷ replaced i replacement segments

length-replaced :
    (i : ℕ) (replacement segments : List Segment)
    → i < length segments
    → length (replaced i replacement segments) + 1 ≡ length segments + length replacement
length-replaced i replacement [] lt = absurd (omega arith)
length-replaced zero replacement (s ∷ segments) lt =
    omega (arith, length-append replacement segments)
length-replaced (suc i) replacement (s ∷ segments) lt =
    omega (arith, length-replaced i replacement segments (omega arith))

get_or-replaced :
    (i : ℕ) (replacement segments : List Segment) (j : ℕ)
    → i < length segments
    → get_or (replaced i replacement segments) j empty_segment ≡ (
        if ltb j i
        then get_or segments j empty_segment
        else if ltb j (i + length replacement)
        then get_or replacement (j - i) empty_segment
        else get_or segments (i + 1 + (j - i - length replacement)) empty_segment)
get_or-replaced i replacement [] j lt = absurd (omega arith)
get_or-replaced zero replacement (s ∷ segments) j lt =
    let start : j - 0 ≡ j = omega arith in
    let next : 0 + 1 + (j - length replacement) ≡ suc (j - length replacement) = omega arith in
    rw start (rw next (ground (arith, get_or-append empty_segment replacement segments j)))
get_or-replaced (suc i) replacement (s ∷ segments) zero lt = ground arith
get_or-replaced (suc i) replacement (s ∷ segments) (suc j) lt =
    let start : suc j - suc i ≡ j - i = omega arith in
    let next : suc i + 1 + (suc j - suc i - length replacement)
        ≡ suc (i + 1 + (j - i - length replacement)) =
      omega arith in
    rw next (rw start (ground (arith, get_or-replaced i replacement segments j (omega arith))))

module _ (count i : ℕ) (segments : List Segment) (lt : i < count) where
  length-live : count ≤ length segments → length (take count segments) ≡ count
  length-live fits = omega (arith, length-take count segments)

  pub take-replace :
      (replacement : List Segment)
      → 0 < length replacement
      → count + (length replacement - 1) ≤ length segments
      → take
          (count + (length replacement - 1))
          (put_all i replacement (shift_up (count - (i + 1)) i (length replacement - 1) segments))
        ≡ replaced i replacement (take count segments)
  take-replace replacement some fits =
      list_ext empty_segment _ _
        (omega (
          arith,
          length-take (count + additional) array,
          whole,
          length-replaced i replacement (take count segments) within,
          length-live (omega arith),
        ))
        (λ j below. ground (
          arith,
          length-take (count + additional) array,
          get_or-take empty_segment (count + additional) array j,
          get_or-put_all i replacement shifted j
              (omega (arith, length-shift_up n i additional segments)),
          get_or-shift_up n i additional segments j (omega arith),
          get_or-replaced i replacement (take count segments) j within,
          get_or-take empty_segment count segments j,
          get_or-take empty_segment count segments (i + 1 + (j - i - length replacement)),
          source j,
        ))
    where
      additional : ℕ
      additional = length replacement - 1

      n : ℕ
      n = count - (i + 1)

      shifted : List Segment
      shifted = shift_up n i additional segments

      array : List Segment
      array = put_all i replacement shifted

      whole : length array ≡ length segments
      whole = length-put_all i replacement shifted ∙ length-shift_up n i additional segments

      within : i < length (take count segments)
      within = omega (arith, length-live (omega arith))

      source :
          (j : ℕ)
          → (if leb (i + length replacement) j
              then get_or segments (i + 1 + (j - i - length replacement)) empty_segment
              else empty_segment)
            ≡ (if leb (i + length replacement) j
                then get_or segments (j - additional) empty_segment
                else empty_segment)
      source j =
          let same : (if leb (i + length replacement) j
                then i + 1 + (j - i - length replacement)
                else 0)
              ≡ (if leb (i + length replacement) j then j - additional else 0) =
            ground arith in
          ground (arith, ap (λ k. get_or segments k empty_segment) same)

  pub take-remove :
      count ≤ length segments
      → take (count - 1) (set (shift_down (count - 1 - i) i segments) (count - 1) empty_segment)
        ≡ replaced i [] (take count segments)
  take-remove fits =
      list_ext empty_segment _ _
        (omega (
          arith,
          length-take (count - 1) array,
          whole,
          length-replaced i [] (take count segments) within,
          length-live fits,
        ))
        (λ j below. ground (
          arith,
          length-take (count - 1) array,
          get_or-take empty_segment (count - 1) array j,
          get_or-set shifted (count - 1) j empty_segment empty_segment,
          get_or-shift_down (count - 1 - i) i segments j (omega arith),
          get_or-replaced i [] (take count segments) j within,
          get_or-take empty_segment count segments j,
          get_or-take empty_segment count segments (i + 1 + (j - i - 0)),
          source j,
        ))
    where
      shifted : List Segment
      shifted = shift_down (count - 1 - i) i segments

      array : List Segment
      array = set shifted (count - 1) empty_segment

      whole : length array ≡ length segments
      whole =
          length-set shifted (count - 1) empty_segment
          ∙ length-shift_down (count - 1 - i) i segments

      within : i < length (take count segments)
      within = omega (arith, length-live fits)

      source :
          (j : ℕ)
          → (if leb i j then get_or segments (i + 1 + (j - i - 0)) empty_segment else empty_segment)
            ≡ (if leb i j then get_or segments (j + 1) empty_segment else empty_segment)
      source j =
          let same : (if leb i j then i + 1 + (j - i - 0) else 0) ≡ (if leb i j then j + 1 else 0) =
            ground arith in
          ground (arith, ap (λ k. get_or segments k empty_segment) same)

  pub take-set :
      (s : Segment)
      → count ≤ length segments
      → take count (set segments i s) ≡ replaced i (s ∷ []) (take count segments)
  take-set s fits =
      list_ext empty_segment _ _
        (omega (
          arith,
          length-take count (set segments i s),
          length-set segments i s,
          length-replaced i (s ∷ []) (take count segments) within,
          length-live fits,
        ))
        (λ j below. ground (
          arith,
          length-take count (set segments i s),
          get_or-take empty_segment count (set segments i s) j,
          get_or-set segments i j s empty_segment,
          get_or-replaced i (s ∷ []) (take count segments) j within,
          get_or-take empty_segment count segments j,
          get_or-take empty_segment count segments (i + 1 + (j - i - 1)),
          source j,
        ))
    where
      within : i < length (take count segments)
      within = omega (arith, length-live fits)

      source :
          (j : ℕ)
          → (if leb (i + 1) j
              then get_or segments (i + 1 + (j - i - 1)) empty_segment
              else empty_segment)
            ≡ (if leb (i + 1) j then get_or segments j empty_segment else empty_segment)
      source j =
          let same : (if leb (i + 1) j then i + 1 + (j - i - 1) else 0)
              ≡ (if leb (i + 1) j then j else 0) =
            ground arith in
          ground (arith, ap (λ k. get_or segments k empty_segment) same)

-- A list is what stands before an entry, the entry, and what stands behind it.
pub replaced_self :
    (i : ℕ) (segments : List Segment)
    → i < length segments
    → replaced i (get_or segments i empty_segment ∷ []) segments ≡ segments
replaced_self i [] lt = absurd (omega arith)
replaced_self zero (s ∷ segments) lt = refl
replaced_self (suc i) (s ∷ segments) lt = ap (λ xs. s ∷ xs) (replaced_self i segments (omega arith))
