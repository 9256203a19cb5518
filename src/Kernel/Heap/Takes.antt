-- ===== src/Kernel/Heap/Takes.antt =====
-- What `allocate` gives.
use nix_os.Prelude.{
  ℕ, suc, ◌+◌, ◌-◌, ◌∙◌, ap, false, List, ◌∷◌, ◌++◌, take, drop, get_or, ◌≤◌, ◌<◌, ◌≡◌, inl, inr,
  refl, true, not, ◌||◌, Option, none, some, arith, ltb, ◌==◌, length, Bool-cases,
}
use nix_os.Kernel.Heap.{
  KernelHeap, empty_segment, allocate, take_block, find_place, non_null, is_power_of_two,
}
use nix_os.Kernel.Heap.Live.{live}
use nix_os.Kernel.Heap.Merged.{
  blocks, IsMerged, blocks-at, blocks-replaced, blocks-split, split-IsMerged,
}
use nix_os.Kernel.Heap.Refuses.{Refuses, FromNoRoom, find_place-Refuses, length-split}
use nix_os.Kernel.Heap.Valid.{
  segment_at, length-live, get_or-live, IsValid, IsPlace, pieces, taken, take_block-taken,
  taken-IsValid, live-taken, find_place-IsPlace, power_positive,
}

-- What a call of `allocate` does: it refuses and changes nothing, or it takes a block of a free segment.
-- The segments being gapless and merged, the heap's blocks are all that there is to say of them.
pub data Takes (size align : ℕ) (h : KernelHeap) : Option ℕ × KernelHeap → Type 0 where
  refuses : Refuses size align h → Takes size align h (none, h)
  gives :
      (index offset : ℕ) (before after : List (ℕ × ℕ)) (r : Option ℕ) (h' : KernelHeap)
      → IsPlace size align h index offset
      → blocks (live h) ≡ before ++ after
      → blocks (live h') ≡ before ++ (offset, size) ∷ after
      → IsValid h'
      → IsMerged false (live h')
      → (h'.size ≡ h.size) × (h'.virtual_start ≡ h.virtual_start)
      → (0 < h.virtual_start + offset → r ≡ some (h.virtual_start + offset))
      → Takes size align h (r, h')

module _ (size align : ℕ) (h : KernelHeap) (index offset : ℕ) (some_size : 0 < size) (v : IsValid h)
    (p : IsPlace size align h index offset)
    (fits : h.segment_count + (length (pieces index offset size h) - 1) ≤ 128) where
  in_list : index < length (live h)
  in_list = omega (arith, p.in_use, length-live h v)

  was_free : (get_or (live h) index empty_segment).free ≡ true
  was_free = ap (λ s. s.free) (get_or-live h index p.in_use) ∙ p.was_free

  -- the block is new, between those before and those after it
  taken-blocks :
      (blocks (live h) ≡ blocks (take index (live h)) ++ blocks (drop (suc index) (live h)))
      × (blocks (live (taken index offset size h))
          ≡ blocks (take index (live h)) ++ (offset, size) ∷ blocks (drop (suc index) (live h)))
  unfolding pieces
  taken-blocks = (
    rw was_free at (blocks-at index (live h) in_list),
    ap blocks (live-taken size align h index offset some_size v p fits)
        ∙ blocks-replaced index (pieces index offset size h) (live h) in_list
        ∙ ap (λ bs. blocks (take index (live h)) ++ (bs ++ blocks (drop (suc index) (live h))))
            (blocks-split (segment_at index h) offset size),
  )

  taken-IsMerged : IsMerged false (live h) → IsMerged false (live (taken index offset size h))
  unfolding pieces
  taken-IsMerged m =
      rw (live-taken size align h index offset some_size v p fits)
        (split-IsMerged index false (segment_at index h) offset size (live h) in_list was_free m)

take_block-Takes :
    (size align : ℕ) (h : KernelHeap) (index offset : ℕ)
    → 0 < size
    → IsValid h
    → IsMerged false (live h)
    → IsPlace size align h index offset
    → Takes size align h (take_block index offset size h)
unfolding taken pieces
take_block-Takes size align h index offset some_size v m p =
    let additional = length (pieces index offset size h) - 1 in
    rw (take_block-taken index offset size h)
      (elim (Bool-cases (ltb 128 (h.segment_count + additional))) [
        | inl f ↦
            let many : 128 < h.segment_count + additional = ground (arith, f) in
            rw f (
              refuses
                (Refuses.full (omega (arith, many, length-split (segment_at index h) offset size))))
        | inr f ↦
            let fits : h.segment_count + additional ≤ 128 = ground (arith, f) in
            rw f (
              gives index offset (blocks (take index (live h))) (blocks (drop (suc index) (live h)))
                (non_null (h.virtual_start + offset)) (taken index offset size h) p
                (taken-blocks size align h index offset some_size v p fits).0
                (taken-blocks size align h index offset some_size v p fits).1
                (taken-IsValid size align h index offset some_size v p fits)
                (taken-IsMerged size align h index offset some_size v p fits m) (refl, refl)
                (λ pos. ground (arith, pos)))
      ])

-- `allocate`, on a valid heap in which no two neighbouring segments are free, either gives no address and
-- changes nothing, or takes a block of the size that was asked for. It gives none only if the size is 0, the
-- alignment is no power of two, no free segment has room at an aligned address, the heap lies so high that
-- an address may overflow, or 127 segments or more are in use. The block lies in a segment that was free,
-- its address is a multiple of the alignment, does not overflow and is the one returned (if it is not 0). The
-- blocks in use after it are those before it and this one, in the order of their addresses; the heap is
-- valid, its segments without a gap, and no two neighbours are free.
pub allocate-Takes :
    (size align : ℕ) (h : KernelHeap)
    → IsValid h
    → IsMerged false (live h)
    → Takes size align h (allocate size align h)
unfolding allocate FromNoRoom
allocate-Takes size align h v m = elim (Bool-cases (size == 0 || not (is_power_of_two align))) [
  | inl bad ↦ rw bad (
      refuses (elim (Bool-cases (size == 0)) [
        | inl empty ↦ Refuses.no_size (ground (arith, empty))
        | inr some_size ↦ Refuses.no_alignment (ground (arith, bad, some_size))
      ]))
  | inr good ↦
      let some_size : 0 < size = ground (arith, good) in
      let power : is_power_of_two align ≡ true = ground (arith, good) in
      rw good (go some_size power (find_place h.segment_count 0 size align h) refl)
]
  where
    go :
        0 < size
        → is_power_of_two align ≡ true
        → (found : Option (ℕ × ℕ)) → find_place h.segment_count 0 size align h ≡ found
        → Takes size align h (elim found [
          | none ↦ (none, h)
          | some (index, offset) ↦ take_block index offset size h
        ])
    go some_size power none e =
        refuses
          (elim (find_place-Refuses h.segment_count 0 size align h (power_positive align power) v
            (omega arith) e) [
              | inl high ↦ Refuses.too_high high
              | inr no_place ↦
                  Refuses.no_room (λ i lt. no_place i (omega arith) (omega (arith, lt)))
            ])
    go some_size power (some (index, offset)) e =
        take_block-Takes size align h index offset some_size v m (
          find_place-IsPlace h.segment_count 0 size align h index offset
            (power_positive align power) some_size (omega arith) e)

Takes-keeps :
    (size align : ℕ) (h : KernelHeap) (x : Option ℕ × KernelHeap)
    → IsValid h
    → IsMerged false (live h)
    → Takes size align h x
    → IsValid x.1 × IsMerged false (live x.1)
Takes-keeps size align h x v m (refuses why) = (v, m)
Takes-keeps size align h x v m
      (gives index offset before after r h' p old new valid merged same its) =
    (valid, merged)

pub allocate_keeps :
    (size align : ℕ) (h : KernelHeap)
    → IsValid h
    → IsMerged false (live h)
    → IsValid (allocate size align h).1 × IsMerged false (live (allocate size align h).1)
allocate_keeps size align h v m =
    Takes-keeps size align h (allocate size align h) v m (allocate-Takes size align h v m)
