-- ===== src/Kernel/Heap/Merged.antt =====
-- The blocks in use, and that no two neighbouring segments are free.
use nix_os.Prelude.{
  ℕ, zero, suc, ◌+◌, ◌-◌, ◌<◌, ◌≡◌, refl, sym, ap, ◌∙◌, Bool, true, false, ◌&&◌, List, [], ◌∷◌,
  ◌++◌, arith, ◌==◌, if◌then◌else◌, length, get_or, take, drop,
}
use mathlib.Core.List.{append_assoc}
use nix_os.Kernel.Heap.{Segment, empty_segment, free_part, split}
use nix_os.Kernel.Heap.Live.{replaced}
use nix_os.Kernel.Heap.Tiles.{joined}

-- The blocks in use: where each begins, and its size.
abbrev pub block_of : Segment → List (ℕ × ℕ)
block_of s = if s.free then [] else (s.offset, s.size) ∷ []

unfoldable pub blocks : List Segment → List (ℕ × ℕ)
blocks [] = []
blocks (s ∷ segments) = block_of s ++ blocks segments

-- No two neighbouring segments are free; `before` says of the one before the list that it is free.
unfoldable pub IsMerged : Bool → List Segment → Type 0
IsMerged before [] = Unit
IsMerged before (s ∷ segments) = ((before && s.free) ≡ false) × IsMerged s.free segments

blocks-append : (xs ys : List Segment) → blocks (xs ++ ys) ≡ blocks xs ++ blocks ys
unfolding blocks
blocks-append [] ys = refl
blocks-append (x ∷ xs) ys =
    ap (λ bs. block_of x ++ bs) (blocks-append xs ys)
    ∙ sym (append_assoc (block_of x) (blocks xs) (blocks ys))

-- What a replacement does to the blocks.
pub blocks-replaced :
    (i : ℕ) (replacement segments : List Segment)
    → i < length segments
    → blocks (replaced i replacement segments)
      ≡ blocks (take i segments) ++ (blocks replacement ++ blocks (drop (suc i) segments))
unfolding blocks
blocks-replaced i replacement [] lt = absurd (omega arith)
blocks-replaced zero replacement (s ∷ segments) lt = blocks-append replacement segments
blocks-replaced (suc i) replacement (s ∷ segments) lt =
    ap (λ bs. block_of s ++ bs) (blocks-replaced i replacement segments (omega arith))
    ∙ sym (
        append_assoc (block_of s) (blocks (take i segments))
          (blocks replacement ++ blocks (drop (suc i) segments)))

pub blocks-at :
    (i : ℕ) (segments : List Segment)
    → i < length segments
    → blocks segments
      ≡ blocks (take i segments)
        ++ (block_of (get_or segments i empty_segment) ++ blocks (drop (suc i) segments))
unfolding blocks
blocks-at i [] lt = absurd (omega arith)
blocks-at zero (s ∷ segments) lt = refl
blocks-at (suc i) (s ∷ segments) lt =
    ap (λ bs. block_of s ++ bs) (blocks-at i segments (omega arith))
    ∙ sym (
        append_assoc (block_of s) (blocks (take i segments))
          (block_of (get_or segments i empty_segment) ++ blocks (drop (suc i) segments)))

-- Free neighbours that are joined leave the blocks.
pub blocks-joined :
    (i : ℕ) (segments : List Segment)
    → suc i < length segments
    → (get_or segments i empty_segment).free ≡ true
    → (get_or segments (suc i) empty_segment).free ≡ true
    → blocks (joined i segments) ≡ blocks segments
unfolding blocks joined
blocks-joined i [] lt f g = absurd (omega arith)
blocks-joined zero (s ∷ []) lt f g = absurd (omega arith)
blocks-joined zero (s ∷ next ∷ segments) lt f g = rw (f, g) refl
blocks-joined (suc i) (s ∷ segments) lt f g =
    ap (λ bs. block_of s ++ bs) (blocks-joined i segments (omega arith) f g)

part-blocks : (start size : ℕ) → blocks (free_part start size) ≡ []
unfolding blocks
part-blocks start zero = refl
part-blocks start (suc size) =
    let some_size : (suc size == 0) ≡ false = ground arith in rw some_size refl

pub blocks-split :
    (s : Segment) (offset size : ℕ) → blocks (split s offset size) ≡ (offset, size) ∷ []
unfolding blocks split
blocks-split s offset size =
    blocks-append front (record { offset = offset; size = size; free = false } ∷ back)
    ∙ ap (λ bs. bs ++ (offset, size) ∷ blocks back) (part-blocks s.offset (offset - s.offset))
    ∙ ap (λ bs. (offset, size) ∷ bs)
        (part-blocks (offset + size) (s.offset + s.size - (offset + size)))
  where
    front : List Segment
    front = free_part s.offset (offset - s.offset)

    back : List Segment
    back = free_part (offset + size) (s.offset + s.size - (offset + size))

weaken : (rest : List Segment) → IsMerged true rest → IsMerged false rest
unfolding IsMerged
weaken [] m = tt
weaken (s ∷ rest) m = (refl, m.1)

-- A block that is taken of a free segment, with what it leaves before and behind it, in its place.
front-IsMerged :
    (before : Bool) (start size : ℕ) (block : Segment) (rest : List Segment)
    → (before && true) ≡ false
    → block.free ≡ false
    → IsMerged false rest
    → IsMerged before (free_part start size ++ block ∷ rest)
unfolding IsMerged
front-IsMerged before start zero block rest b used m = rw used (ground arith, m)
front-IsMerged before start (suc size) block rest b used m =
    let some_size : (suc size == 0) ≡ false = ground arith in rw some_size (rw used (b, (refl, m)))

back-IsMerged :
    (start size : ℕ) (rest : List Segment)
    → IsMerged true rest
    → IsMerged false (free_part start size ++ rest)
unfolding IsMerged
back-IsMerged start zero rest m = weaken rest m
back-IsMerged start (suc size) rest m =
    let some_size : (suc size == 0) ≡ false = ground arith in rw some_size (refl, m)

pub split-IsMerged :
    (i : ℕ) (before : Bool) (s : Segment) (offset size : ℕ) (segments : List Segment)
    → i < length segments
    → (get_or segments i empty_segment).free ≡ true
    → IsMerged before segments
    → IsMerged before (replaced i (split s offset size) segments)
unfolding IsMerged split
split-IsMerged i before s offset size [] lt f m = absurd (omega arith)
split-IsMerged zero before s offset size (old ∷ segments) lt f (apart, m) =
    rw (append_assoc (free_part s.offset (offset - s.offset)) (block ∷ back) segments) (
      front-IsMerged before s.offset (offset - s.offset) block (back ++ segments) (rw f at apart)
        refl
        (back-IsMerged (offset + size) (s.offset + s.size - (offset + size)) segments (rw f at m)))
  where
    block : Segment
    block = record { offset = offset; size = size; free = false }

    back : List Segment
    back = free_part (offset + size) (s.offset + s.size - (offset + size))
split-IsMerged (suc i) before s offset size (first ∷ segments) lt f (apart, m) =
    (apart, split-IsMerged i first.free s offset size segments (omega arith) f m)
