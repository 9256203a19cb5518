-- ===== src/Kernel/Heap/Refuses.antt =====
-- When `allocate` gives no address.
use nix_os.Prelude.{
  ℕ, zero, suc, ◌+◌, ◌-◌, ◌*◌, ◌/◌, ◌%◌, ◌^◌, ◌≤◌, ◌<◌, ◌≡◌, ◌⊎◌, inl, inr, refl, Bool, true, false,
  not, none, some, List, [], ◌∷◌, arith, if◌then◌else◌, length, get_or, length-append,
}
use native.Mathlib.Decide.{dec_lt}
use native.Mathlib.Nat.{div-add-mod', div-lt_iff_lt-mul, mul-le-mul_right, suc-mul}
use nix_os.Kernel.Heap.{
  Segment, KernelHeap, empty_segment, free_part, split, find_place, place, Placement, overflows,
  skips, places, align_down, is_power_of_two,
}
use nix_os.Kernel.Heap.Tiles.{Tiles}
use nix_os.Kernel.Heap.Live.{live}
use nix_os.Kernel.Heap.Valid.{IsValid, segment_at, get_or-live, length-live, align_down_lem}

-- A block of the size does not fit into the free segment at any aligned address.
pub HasNoRoom : (size align : ℕ) → KernelHeap → Segment → Type 0
HasNoRoom size align h s =
    (offset : ℕ)
    → s.offset ≤ offset
    → (h.virtual_start + offset) % align ≡ 0
    → s.offset + s.size < offset + size

-- Why no address is given.
pub data Refuses (size align : ℕ) (h : KernelHeap) : Type 0 where
  no_size : size ≡ 0 → Refuses size align h
  no_alignment : is_power_of_two align ≡ false → Refuses size align h
  too_high : 2 ^ 64 ≤ h.virtual_start + h.size + align + size → Refuses size align h
  full : 127 ≤ h.segment_count → Refuses size align h
  no_room :
      ((i : ℕ)
        → i < h.segment_count
        → (segment_at i h).free ≡ true
        → HasNoRoom size align h (segment_at i h))
      → Refuses size align h

align_least :
    (align address x : ℕ)
    → 0 < align
    → address ≤ x
    → x % align ≡ 0
    → align_down align (address + (align - 1)) ≤ x
align_least align address x pos le multiple =
    let total = address + (align - 1) in
    let whole : x / align * align ≡ x = omega (arith, div-add-mod' x align) in
    let next : suc (x / align) * align ≡ x / align * align + align = suc-mul (x / align) align in
    let below : total / align < suc (x / align) = (div-lt_iff_lt-mul pos).1 (omega arith) in
    let few : total / align * align ≤ x / align * align =
      mul-le-mul_right align (omega (arith, below)) in
    omega (arith, few, whole, div-add-mod' total align)

place-HasNoRoom :
    (size align : ℕ) (h : KernelHeap) (s : Segment)
    → 0 < align
    → place h.virtual_start size align s ≡ skips
    → HasNoRoom size align h s
unfolding place HasNoRoom
place-HasNoRoom size align h s pos e offset le multiple =
    let (low, same, high) = align_down_lem align (h.virtual_start + s.offset) pos in
    let least =
      align_least align (h.virtual_start + s.offset) (h.virtual_start + offset) pos (omega arith)
        multiple in
    let aligned = align_down align (h.virtual_start + s.offset + (align - 1)) in
    let short : s.offset + s.size < aligned - h.virtual_start + size = ground arith in
    omega (arith, short, least, low)

place-overflows :
    (size align : ℕ) (h : KernelHeap) (s : Segment)
    → 0 < align
    → s.offset + s.size ≤ h.size
    → place h.virtual_start size align s ≡ overflows
    → 2 ^ 64 ≤ h.virtual_start + h.size + align + size
unfolding place
place-overflows size align h s pos within e =
    ground (arith, align_down_lem align (h.virtual_start + s.offset) pos)

Tiles-end :
    (i start end : ℕ) (segments : List Segment)
    → i < length segments
    → Tiles start segments end
    → (let s = get_or segments i empty_segment in s.offset + s.size ≤ end) × (start ≤ end)
unfolding Tiles
Tiles-end i start end [] lt t = absurd (omega arith)
Tiles-end zero start end (s ∷ []) lt (o, p, t) = (omega (arith, o, t), omega (arith, o, t))
Tiles-end zero start end (s ∷ next ∷ segments) lt (o, p, t) =
    let (below, le) = Tiles-end 0 (start + s.size) end (next ∷ segments) (omega arith) t in
    (omega (arith, o, le), omega (arith, le))
Tiles-end (suc i) start end (s ∷ segments) lt (o, p, t) =
    let (below, le) = Tiles-end i (start + s.size) end segments (omega arith) t in
    (below, omega (arith, le))

segment_end :
    (i : ℕ) (h : KernelHeap)
    → IsValid h
    → i < h.segment_count
    → (segment_at i h).offset + (segment_at i h).size ≤ h.size
segment_end i h v lt =
    rw (get_or-live h i lt) at
      (Tiles-end i 0 h.size (live h) (omega (arith, lt, length-live h v)) v.tiles).0

-- No free segment among the `n` from `first` on has room.
unfoldable pub FromNoRoom : (n first size align : ℕ) → KernelHeap → Type 0
FromNoRoom n first size align h =
    (i : ℕ)
    → first ≤ i
    → i < first + n
    → (segment_at i h).free ≡ true
    → HasNoRoom size align h (segment_at i h)

FromNoRoom-more :
    (n first size align : ℕ) (h : KernelHeap)
    → ((segment_at first h).free ≡ true → HasNoRoom size align h (segment_at first h))
    → FromNoRoom n (first + 1) size align h
    → FromNoRoom (suc n) first size align h
unfolding FromNoRoom
FromNoRoom-more n first size align h here rest i low high f = elim (dec_lt first i) [
  | yes behind ↦ rest i (omega arith) (omega arith) f
  | no near ↦ let same : first ≡ i = omega arith in (rw same at here) f
]

pub find_place-Refuses :
    (n first size align : ℕ) (h : KernelHeap)
    → 0 < align
    → IsValid h
    → first + n ≤ h.segment_count
    → find_place n first size align h ≡ none
    → (2 ^ 64 ≤ h.virtual_start + h.size + align + size) ⊎ FromNoRoom n first size align h
unfolding find_place FromNoRoom
find_place-Refuses zero first size align h pos v within e = inr (λ i low high. absurd (omega arith))
find_place-Refuses (suc n) first size align h pos v within e =
    go (get_or h.segments first empty_segment).free
      (place h.virtual_start size align (get_or h.segments first empty_segment))
      (find_place-Refuses n (first + 1) size align h pos v (omega arith)) refl refl e
  where
    more :
        ((segment_at first h).free ≡ true → HasNoRoom size align h (segment_at first h))
        → (2 ^ 64 ≤ h.virtual_start + h.size + align + size) ⊎ FromNoRoom n (first + 1) size align h
        → (2 ^ 64 ≤ h.virtual_start + h.size + align + size) ⊎ FromNoRoom (suc n) first size align h
    more here (inl high) = inl high
    more here (inr rest) = inr (FromNoRoom-more n first size align h here rest)

    go :
        (free : Bool) (p : Placement)
        → (find_place n (first + 1) size align h ≡ none
            → (2 ^ 64 ≤ h.virtual_start + h.size + align + size)
              ⊎ FromNoRoom n (first + 1) size align h)
        → (get_or h.segments first empty_segment).free ≡ free
        → place h.virtual_start size align (get_or h.segments first empty_segment) ≡ p
        → (if not free then find_place n (first + 1) size align h else elim p [
          | overflows ↦ none
          | skips ↦ find_place n (first + 1) size align h
          | places found ↦ some (first, found)
        ])
          ≡ none
        → (2 ^ 64 ≤ h.virtual_start + h.size + align + size) ⊎ FromNoRoom (suc n) first size align h
    go false p rest f g q = more (λ t. absurd (ground (arith, f, t))) (rest q)
    go true overflows rest f g q = inl (
        place-overflows size align h (segment_at first h) pos (segment_end first h v (omega arith))
          g)
    go true skips rest f g q =
        more (λ t. place-HasNoRoom size align h (segment_at first h) pos g) (rest q)
    go true (places found) rest f g q = absurd (ground (arith, q))

-- A block leaves at most a segment before it and one behind it.
pub length-split : (s : Segment) (offset size : ℕ) → length (split s offset size) ≤ 3
unfolding split
length-split s offset size =
    let back = s.offset + s.size - (offset + size) in
    let block : Segment = record { offset = offset; size = size; free = false } in
    omega (
      arith,
      length-append (free_part s.offset (offset - s.offset))
          (block ∷ free_part (offset + size) back),
      part s.offset (offset - s.offset),
      part (offset + size) back,
    )
  where
    part : (start size : ℕ) → length (free_part start size) ≤ 1
    part start zero = omega arith
    part start (suc size) = ground arith
