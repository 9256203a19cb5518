-- ===== src/Kernel/Heap/Shift.antt =====
-- What the loops that shift the segments do to the array.
use nix_os.Prelude.{
  ℕ, zero, suc, ◌+◌, ◌-◌, ◌≤◌, ◌≡◌, refl, ap, ◌∙◌, ◌&&◌, List, [], ◌∷◌, arith, ltb, leb, ◌==◌,
  if◌then◌else◌, length, get_or, set, length-set, get_or-set,
}
use nix_os.Kernel.Heap.{Segment, empty_segment, shift_up, put_all, shift_down}

pub length-shift_up :
    (n index additional : ℕ) (segments : List Segment)
    → length (shift_up n index additional segments) ≡ length segments
unfolding shift_up
length-shift_up zero index additional segments = refl
length-shift_up (suc n) index additional segments =
    length-shift_up n index additional
      (set segments (index + 1 + n + additional) (get_or segments (index + 1 + n) empty_segment))
    ∙ length-set segments (index + 1 + n + additional)
        (get_or segments (index + 1 + n) empty_segment)

pub get_or-shift_up :
    (n index additional : ℕ) (segments : List Segment) (j : ℕ)
    → index + 1 + n + additional ≤ length segments
    → get_or (shift_up n index additional segments) j empty_segment ≡ (
        if leb (index + 1 + additional) j && ltb j (index + 1 + n + additional)
        then get_or segments (j - additional) empty_segment
        else get_or segments j empty_segment)
unfolding shift_up
get_or-shift_up zero index additional segments j fits = ground arith
get_or-shift_up (suc n) index additional segments j fits =
    let at = index + 1 + n + additional in
    let moved = get_or segments (index + 1 + n) empty_segment in
    let same : index + 1 + n ≡ at - additional = omega arith in
    ground (
      arith,
      get_or-shift_up n index additional (set segments at moved) j
          (omega (arith, length-set segments at moved)),
      get_or-set segments at j moved empty_segment,
      get_or-set segments at (j - additional) moved empty_segment,
      ap (λ k. get_or segments k empty_segment) same,
    )

pub length-put_all :
    (index : ℕ) (replacement segments : List Segment)
    → length (put_all index replacement segments) ≡ length segments
unfolding put_all
length-put_all index [] segments = refl
length-put_all index (s ∷ replacement) segments =
    length-put_all (index + 1) replacement (set segments index s) ∙ length-set segments index s

pub get_or-put_all :
    (index : ℕ) (replacement segments : List Segment) (j : ℕ)
    → index + length replacement ≤ length segments
    → get_or (put_all index replacement segments) j empty_segment ≡ (
        if leb index j && ltb j (index + length replacement)
        then get_or replacement (j - index) empty_segment
        else get_or segments j empty_segment)
unfolding put_all
get_or-put_all index [] segments j fits = ground arith
get_or-put_all index (s ∷ replacement) segments j fits = ground (
  arith,
  get_or-put_all (index + 1) replacement (set segments index s) j
      (omega (arith, length-set segments index s)),
  get_or-set segments index j s empty_segment,
  get_or_cons s replacement index j,
)
  where
    get_or_cons :
        (s : Segment) (replacement : List Segment) (index j : ℕ)
        → get_or (s ∷ replacement) (j - index) empty_segment
          ≡ (if leb (index + 1) j then get_or replacement (j - (index + 1)) empty_segment else s)
    get_or_cons s replacement index j = ground arith

pub length-shift_down :
    (n index : ℕ) (segments : List Segment) → length (shift_down n index segments) ≡ length segments
unfolding shift_down
length-shift_down zero index segments = refl
length-shift_down (suc n) index segments =
    length-shift_down n (index + 1) (set segments index (get_or segments (index + 1) empty_segment))
    ∙ length-set segments index (get_or segments (index + 1) empty_segment)

pub get_or-shift_down :
    (n index : ℕ) (segments : List Segment) (j : ℕ)
    → index + n ≤ length segments
    → get_or (shift_down n index segments) j empty_segment ≡ (
        if leb index j && ltb j (index + n)
        then get_or segments (j + 1) empty_segment
        else get_or segments j empty_segment)
unfolding shift_down
get_or-shift_down zero index segments j fits = ground arith
get_or-shift_down (suc n) index segments j fits =
    let next = get_or segments (index + 1) empty_segment in
    ground (
      arith,
      get_or-shift_down n (index + 1) (set segments index next) j
          (omega (arith, length-set segments index next)),
      get_or-set segments index j next empty_segment,
      get_or-set segments index (j + 1) next empty_segment,
      the_next segments index j,
    )
  where
    the_next :
        (segments : List Segment) (index j : ℕ)
        → (if index == j
            then get_or segments (j + 1) empty_segment
            else get_or segments (index + 1) empty_segment)
          ≡ get_or segments (index + 1) empty_segment
    the_next segments index j = ground arith
