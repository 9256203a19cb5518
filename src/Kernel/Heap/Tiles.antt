-- ===== src/Kernel/Heap/Tiles.antt =====
-- Segments that follow one another without a gap, and their sums.
use nix_os.Prelude.{
  ℕ, zero, suc, ◌+◌, ◌-◌, ◌≤◌, ◌<◌, ◌≡◌, refl, ◌∙◌, true, false, List, [], ◌∷◌, ◌++◌, arith, ◌==◌,
  if◌then◌else◌, length, length-append, get_or,
}
use nix_os.Kernel.Heap.{Segment, empty_segment, free_sum, free_part, split}
use nix_os.Kernel.Heap.Live.{replaced}

-- The segments cover the bytes from `start` to `end`, and none is empty.
unfoldable pub Tiles : ℕ → List Segment → ℕ → Type 0
Tiles start [] end = start ≡ end
Tiles start (s ∷ segments) end =
    (s.offset ≡ start) × (0 < s.size) × Tiles (start + s.size) segments end

-- the bytes of the segments that are in use, and their number
unfoldable pub used_sum : List Segment → ℕ
used_sum [] = 0
used_sum (s ∷ segments) = (if s.free then 0 else s.size) + used_sum segments

unfoldable pub used_count : List Segment → ℕ
used_count [] = 0
used_count (s ∷ segments) = (if s.free then 0 else 1) + used_count segments

pub Tiles-append :
    (start mid end : ℕ) (xs ys : List Segment)
    → Tiles start xs mid
    → Tiles mid ys end
    → Tiles start (xs ++ ys) end
unfolding Tiles
Tiles-append start mid end [] ys e t = rw e t
Tiles-append start mid end (x ∷ xs) ys (o, p, t) u =
    (o, p, Tiles-append (start + x.size) mid end xs ys t u)

-- Segments that cover a segment's bytes may take its place.
pub Tiles-replaced :
    (i start end : ℕ) (replacement segments : List Segment)
    → i < length segments
    → Tiles start segments end
    → (let s = get_or segments i empty_segment in Tiles s.offset replacement (s.offset + s.size))
    → Tiles start (replaced i replacement segments) end
unfolding Tiles
Tiles-replaced i start end replacement [] lt t new = absurd (omega arith)
Tiles-replaced zero start end replacement (s ∷ segments) lt (o, p, t) new =
    Tiles-append start (start + s.size) end replacement segments (rw o at new) t
Tiles-replaced (suc i) start end replacement (s ∷ segments) lt (o, p, t) new =
    (o, p, Tiles-replaced i (start + s.size) end replacement segments (omega arith) t new)

-- What a replacement does to the sums.
pub used_sum-append : (xs ys : List Segment) → used_sum (xs ++ ys) ≡ used_sum xs + used_sum ys
unfolding used_sum
used_sum-append [] ys = omega arith
used_sum-append (x ∷ xs) ys = ground (arith, used_sum-append xs ys)

pub used_count-append :
    (xs ys : List Segment) → used_count (xs ++ ys) ≡ used_count xs + used_count ys
unfolding used_count
used_count-append [] ys = omega arith
used_count-append (x ∷ xs) ys = ground (arith, used_count-append xs ys)

pub used_sum-replaced :
    (i : ℕ) (replacement segments : List Segment)
    → i < length segments
    → used_sum (replaced i replacement segments) + used_sum (get_or segments i empty_segment ∷ [])
      ≡ used_sum segments + used_sum replacement
unfolding used_sum
used_sum-replaced i replacement [] lt = absurd (omega arith)
used_sum-replaced zero replacement (s ∷ segments) lt =
    omega (arith, used_sum-append replacement segments)
used_sum-replaced (suc i) replacement (s ∷ segments) lt =
    omega (arith, used_sum-replaced i replacement segments (omega arith))

pub used_count-replaced :
    (i : ℕ) (replacement segments : List Segment)
    → i < length segments
    → used_count (replaced i replacement segments)
        + used_count (get_or segments i empty_segment ∷ [])
      ≡ used_count segments + used_count replacement
unfolding used_count
used_count-replaced i replacement [] lt = absurd (omega arith)
used_count-replaced zero replacement (s ∷ segments) lt =
    omega (arith, used_count-append replacement segments)
used_count-replaced (suc i) replacement (s ∷ segments) lt =
    omega (arith, used_count-replaced i replacement segments (omega arith))

pub used_sum-free_sum :
    (start end : ℕ) (segments : List Segment)
    → Tiles start segments end
    → start + (used_sum segments + free_sum segments) ≡ end
unfolding Tiles used_sum free_sum
used_sum-free_sum start end [] e = omega (arith, e)
used_sum-free_sum start end (s ∷ segments) (o, p, t) =
    ground (arith, used_sum-free_sum (start + s.size) end segments t)

-- The segments of a block, and of what is left before and behind it, cover the segment it is taken of.
pub Tiles-split :
    (s : Segment) (offset size : ℕ)
    → 0 < size
    → s.offset ≤ offset
    → offset + size ≤ s.offset + s.size
    → Tiles s.offset (split s offset size) (s.offset + s.size)
unfolding Tiles split
Tiles-split s offset size some low high =
    Tiles-append s.offset offset (s.offset + s.size) (free_part s.offset (offset - s.offset))
      (record { offset = offset; size = size; free = false } ∷ behind)
      (part s.offset (offset - s.offset) offset (omega arith))
      (
        refl,
        some,
        part (offset + size) (s.offset + s.size - (offset + size)) (s.offset + s.size)
            (omega arith),
      )
  where
    behind : List Segment
    behind = free_part (offset + size) (s.offset + s.size - (offset + size))

    part : (start size end : ℕ) → start + size ≡ end → Tiles start (free_part start size) end
    part start zero end e = omega arith
    part start (suc size) end e =
        let some_size : (suc size == 0) ≡ false = ground arith in
        rw some_size (refl, omega arith, e)

pub split-sums :
    (s : Segment) (offset size : ℕ)
    → (used_sum (split s offset size) ≡ size)
      × (used_count (split s offset size) ≡ 1)
      × (0 < length (split s offset size))
unfolding split used_sum used_count
split-sums s offset size = (
  used_sum-append front back
      ∙ (omega (
        arith,
        no_use s.offset (offset - s.offset),
        no_use (offset + size) (s.offset + s.size - (offset + size)),
      )),
  used_count-append front back
      ∙ (omega (
        arith,
        no_use s.offset (offset - s.offset),
        no_use (offset + size) (s.offset + s.size - (offset + size)),
      )),
  omega (arith, length-append front back),
)
  where
    front : List Segment
    front = free_part s.offset (offset - s.offset)

    back : List Segment
    back =
        record { offset = offset; size = size; free = false }
        ∷ free_part (offset + size) (s.offset + s.size - (offset + size))

    no_use :
        (start size : ℕ)
        → (used_sum (free_part start size) ≡ 0) × (used_count (free_part start size) ≡ 0)
    no_use start zero = (refl, refl)
    no_use start (suc size) =
        let some_size : (suc size == 0) ≡ false = ground arith in rw some_size (refl, refl)

-- No segment is empty.
pub Tiles-size :
    (i start end : ℕ) (segments : List Segment)
    → i < length segments
    → Tiles start segments end
    → 0 < (get_or segments i empty_segment).size
unfolding Tiles
Tiles-size i start end [] lt t = absurd (omega arith)
Tiles-size zero start end (s ∷ segments) lt (o, p, t) = p
Tiles-size (suc i) start end (s ∷ segments) lt (o, p, t) =
    Tiles-size i (start + s.size) end segments (omega arith) t

-- the list with the segment at `i` grown by the next, which is gone
unfoldable pub joined : ℕ → List Segment → List Segment
joined i segments =
    let s = get_or segments i empty_segment in
    let next = get_or segments (suc i) empty_segment in
    replaced (suc i) [] (replaced i (record s { size = s.size + next.size } ∷ []) segments)

-- Two free neighbours may be joined: the bytes that are covered, and those that are used, stay.
pub Tiles-joined :
    (i start end : ℕ) (segments : List Segment)
    → suc i < length segments
    → (get_or segments i empty_segment).free ≡ true
    → (get_or segments (suc i) empty_segment).free ≡ true
    → Tiles start segments end
    → Tiles start (joined i segments) end
      × (used_sum (joined i segments) ≡ used_sum segments)
      × (used_count (joined i segments) ≡ used_count segments)
unfolding Tiles joined used_sum used_count
Tiles-joined i start end [] lt f g t = absurd (omega arith)
Tiles-joined zero start end (s ∷ []) lt f g t = absurd (omega arith)
Tiles-joined zero start end (s ∷ next ∷ segments) lt f g (o, p, (q, r, t)) =
    let same : start + s.size + next.size ≡ start + (s.size + next.size) = omega arith in
    ((o, omega arith, rw same at t), ground (arith, f, g), ground (arith, f, g))
Tiles-joined (suc i) start end (s ∷ segments) lt f g (o, p, t) =
    let (tiles, sum, number) = Tiles-joined i (start + s.size) end segments (omega arith) f g t in
    ((o, p, tiles), omega (arith, sum), omega (arith, number))
