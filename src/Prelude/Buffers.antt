-- ===== src/Prelude/Buffers.antt =====
-- Writes into a buffer, one range after another, and what is read back.
use Prim.Native.Nat.{ℕ, zero, suc, ◌+◌, ◌-◌, ◌<◌, ◌≤◌, min}
use mathlib.Core.Path.{◌≡◌, refl, sym, ap, ◌∙◌}
use mathlib.Core.Path.{ap₂}
use mathlib.Core.Logic.{inl, inr}
use mathlib.Core.Bool.{◌&&◌}
use mathlib.Core.Option.{Option, none, some}
use mathlib.Core.List.{List, [], ◌∷◌, ◌++◌}
use native.Mathlib.Omega.{arith}
use nix_os.Prelude.Tests.{ltb, leb, if◌then◌else◌}
use nix_os.Prelude.Lists.{length, take, drop, get_or, length-append, length-take}
use nix_os.Prelude.Bytes.{
  drop_nil, slice, splice, length-splice, slice-splice_apart, slice-splice_self,
}

module _ {ℓ} {A : Type ℓ} (d : A) where
  -- Lists of the same length with the same entries are equal.
  pub list_ext :
      (xs ys : List A)
      → length xs ≡ length ys
      → ((j : ℕ) → j < length xs → get_or xs j d ≡ get_or ys j d)
      → xs ≡ ys
  list_ext [] [] e h = refl
  list_ext [] (y ∷ ys) e h = absurd (omega arith)
  list_ext (x ∷ xs) [] e h = absurd (omega arith)
  list_ext (x ∷ xs) (y ∷ ys) e h =
      ap₂ ◌∷◌ (h 0 (omega arith)) (list_ext xs ys (omega arith) (λ j lt. h (suc j) (omega arith)))

  pub get_or-append :
      (xs ys : List A) (j : ℕ)
      → get_or (xs ++ ys) j d
        ≡ (if ltb j (length xs) then get_or xs j d else get_or ys (j - length xs) d)
  get_or-append [] ys j = let same : j - 0 ≡ j = omega arith in ground arith
  get_or-append (x ∷ xs) ys zero = ground arith
  get_or-append (x ∷ xs) ys (suc j) =
      let same : suc j - suc (length xs) ≡ j - length xs = omega arith in
      ground (arith, get_or-append xs ys j)

  pub get_or-take :
      (n : ℕ) (xs : List A) (j : ℕ)
      → get_or (take n xs) j d ≡ (if ltb j n then get_or xs j d else d)
  get_or-take zero xs j = ground arith
  get_or-take (suc n) [] j = ground arith
  get_or-take (suc n) (x ∷ xs) zero = ground arith
  get_or-take (suc n) (x ∷ xs) (suc j) = ground (arith, get_or-take n xs j)

  pub get_or-drop : (n : ℕ) (xs : List A) (j : ℕ) → get_or (drop n xs) j d ≡ get_or xs (n + j) d
  get_or-drop zero xs j = let same : 0 + j ≡ j = omega arith in rw same refl
  get_or-drop (suc n) [] j = refl
  get_or-drop (suc n) (x ∷ xs) j =
      let same : suc n + j ≡ suc (n + j) = omega arith in rw same (get_or-drop n xs j)

pub get_or-splice :
    (start : ℕ) (input bs : List ℕ) (j : ℕ)
    → start + length input ≤ length bs
    → get_or (splice start input bs) j 0 ≡ (
        if leb start j && ltb j (start + length input)
        then get_or input (j - start) 0
        else get_or bs j 0)
get_or-splice start input bs j fits =
    let there : min start (length bs) ≡ start = omega arith in
    ground (
      arith,
      get_or-append 0 (take start bs) (input ++ drop (start + length input) bs) j,
      get_or-append 0 input (drop (start + length input) bs) (j - length (take start bs)),
      get_or-take 0 start bs j,
      get_or-drop 0 (start + length input) bs (j - length (take start bs) - length input),
      length-take start bs,
    )

-- A prefix that holds the whole range takes the write along.
pub take-splice :
    (n start : ℕ) (input bs : List ℕ)
    → start + length input ≤ n
    → n ≤ length bs
    → take n (splice start input bs) ≡ splice start input (take n bs)
take-splice n start input bs inside fits =
    list_ext 0 (take n (splice start input bs)) (splice start input (take n bs))
      (omega (
        arith,
        length-take n (splice start input bs),
        length-splice start input bs,
        length-splice start input (take n bs),
        length-take n bs,
      ))
      (λ j lt. ground (
        arith,
        get_or-take 0 n (splice start input bs) j,
        get_or-splice start input bs j,
        get_or-splice start input (take n bs) j (omega (arith, length-take n bs)),
        get_or-take 0 n bs j,
      ))

-- A second write to the same range replaces the first.
pub splice-splice_same :
    (start : ℕ) (input old bs : List ℕ)
    → length input ≡ length old
    → start + length old ≤ length bs
    → splice start input (splice start old bs) ≡ splice start input bs
splice-splice_same start input old bs size fits =
    list_ext 0 (splice start input (splice start old bs)) (splice start input bs)
      (omega (
        arith,
        length-splice start input (splice start old bs),
        length-splice start old bs,
        length-splice start input bs,
      ))
      (λ j lt. ground (
        arith,
        get_or-splice start input (splice start old bs) j
            (omega (arith, length-splice start old bs)),
        get_or-splice start old bs j,
        get_or-splice start input bs j (omega arith),
      ))

-- A write of what is there changes nothing.
pub splice-slice :
    (start : ℕ) (input bs : List ℕ)
    → start + length input ≤ length bs
    → slice start (length input) bs ≡ input
    → splice start input bs ≡ bs
splice-slice start input bs fits there =
    list_ext 0 (splice start input bs) bs (length-splice start input bs fits) (λ j lt. ground (
      arith,
      get_or-splice start input bs j fits,
      ap (λ xs. get_or xs (j - start) 0) there,
      get_or-take 0 (length input) (drop start bs) (j - start),
      get_or-drop 0 start bs (j - start),
    ))

-- Two writes side by side are one.
pub splice-splice_next :
    (start next : ℕ) (first second bs : List ℕ)
    → next ≡ start + length first
    → next + length second ≤ length bs
    → splice next second (splice start first bs) ≡ splice start (first ++ second) bs
splice-splice_next start next first second bs e fits =
    list_ext 0 (splice next second (splice start first bs)) (splice start (first ++ second) bs)
      (omega (
        arith,
        length-splice next second (splice start first bs),
        length-splice start first bs,
        length-splice start (first ++ second) bs,
        length-append first second,
      ))
      (λ j lt. ground (
        arith,
        get_or-splice next second (splice start first bs) j
            (omega (arith, length-splice start first bs)),
        get_or-splice start first bs j (omega arith),
        get_or-splice start (first ++ second) bs j (omega (arith, length-append first second)),
        get_or-append 0 first second (j - start),
        length-append first second,
      ))

pub take-take : (m n : ℕ) (xs : List ℕ) → m ≤ n → take m (take n xs) ≡ take m xs
take-take zero n xs h = refl
take-take (suc m) zero xs h = absurd (omega arith)
take-take (suc m) (suc n) [] h = refl
take-take (suc m) (suc n) (x ∷ xs) h = ap (λ t. x ∷ t) (take-take m n xs (omega arith))

pub drop-drop : (m n : ℕ) (xs : List ℕ) → drop m (drop n xs) ≡ drop (n + m) xs
drop-drop m zero xs = let same : 0 + m ≡ m = omega arith in rw same refl
drop-drop m (suc n) [] = drop_nil m ∙ sym (drop_nil (suc n + m))
drop-drop m (suc n) (x ∷ xs) =
    let same : suc n + m ≡ suc (n + m) = omega arith in rw same (drop-drop m n xs)

take_nil : (n : ℕ) → take {A = ℕ} n [] ≡ []
take_nil zero = refl
take_nil (suc n) = refl

pub drop-take : (m n : ℕ) (xs : List ℕ) → drop m (take (m + n) xs) ≡ take n (drop m xs)
drop-take zero n xs = let same : 0 + n ≡ n = omega arith in rw same refl
drop-take (suc m) n [] =
    let same : suc m + n ≡ suc (m + n) = omega arith in rw same (sym (take_nil n))
drop-take (suc m) n (x ∷ xs) =
    let same : suc m + n ≡ suc (m + n) = omega arith in rw same (drop-take m n xs)

-- A range of a prefix.
pub slice-take :
    (start n m : ℕ) (bs : List ℕ) → start + n ≤ m → slice start n (take m bs) ≡ slice start n bs
slice-take start n m bs h =
    let split : start + (m - start) ≡ m = omega arith in
    ap (λ k. take n (drop start (take k bs))) (sym split)
    ∙ ap (take n) (drop-take start (m - start) bs)
    ∙ take-take n (m - start) (drop start bs) (omega arith)

-- The writes of `fs` in their order, each at its offset.
abbrev pub write_all : List (ℕ × List ℕ) → List ℕ → List ℕ
write_all [] bs = bs
write_all ((start, input) ∷ fs) bs = write_all fs (splice start input bs)

-- The writes go upwards from `lo`, do not overlap, and end by `hi`.
abbrev pub Ascends : ℕ → ℕ → List (ℕ × List ℕ) → Type 0
Ascends lo hi [] = lo ≤ hi
Ascends lo hi ((start, input) ∷ fs) = (lo ≤ start) × Ascends (start + length input) hi fs

abbrev pub field_at : List (ℕ × List ℕ) → ℕ → Option (ℕ × List ℕ)
field_at [] k = none
field_at (f ∷ fs) zero = some f
field_at (f ∷ fs) (suc k) = field_at fs k

Ascends-le : (lo hi : ℕ) (fs : List (ℕ × List ℕ)) → Ascends lo hi fs → lo ≤ hi
Ascends-le lo hi [] h = h
Ascends-le lo hi ((start, input) ∷ fs) h =
    omega (arith, Ascends-le (start + length input) hi fs h.1, h.0)

pub length-write_all :
    (lo hi : ℕ) (fs : List (ℕ × List ℕ)) (bs : List ℕ)
    → Ascends lo hi fs
    → hi ≤ length bs
    → length (write_all fs bs) ≡ length bs
length-write_all lo hi [] bs up fits = refl
length-write_all lo hi ((start, input) ∷ fs) bs up fits =
    let same : length (splice start input bs) ≡ length bs =
      length-splice start input bs (omega (arith, Ascends-le (start + length input) hi fs up.1)) in
    length-write_all (start + length input) hi fs (splice start input bs) up.1 (omega arith) ∙ same

-- What lies below the writes stays.
pub slice-write_all_below :
    (lo hi start n : ℕ) (fs : List (ℕ × List ℕ)) (bs : List ℕ)
    → Ascends lo hi fs
    → hi ≤ length bs
    → start + n ≤ lo
    → slice start n (write_all fs bs) ≡ slice start n bs
slice-write_all_below lo hi start n [] bs up fits below = refl
slice-write_all_below lo hi start n ((s, input) ∷ fs) bs up fits below =
    let fit : s + length input ≤ length bs =
      omega (arith, Ascends-le (s + length input) hi fs up.1) in
    slice-write_all_below (s + length input) hi start n fs (splice s input bs) up.1
      (omega (arith, length-splice s input bs fit)) (omega (arith, up.0))
    ∙ slice-splice_apart s start n input bs fit (inl (omega (arith, up.0)))

-- What lies above the writes stays.
pub slice-write_all_above :
    (lo hi start n : ℕ) (fs : List (ℕ × List ℕ)) (bs : List ℕ)
    → Ascends lo hi fs
    → hi ≤ length bs
    → hi ≤ start
    → slice start n (write_all fs bs) ≡ slice start n bs
slice-write_all_above lo hi start n [] bs up fits above = refl
slice-write_all_above lo hi start n ((s, input) ∷ fs) bs up fits above =
    let top : s + length input ≤ hi = Ascends-le (s + length input) hi fs up.1 in
    let fit : s + length input ≤ length bs = omega arith in
    slice-write_all_above (s + length input) hi start n fs (splice s input bs) up.1
      (omega (arith, length-splice s input bs fit)) above
    ∙ slice-splice_apart s start n input bs fit (inr (omega arith))

-- Each write is read back.
pub slice-write_all :
    (lo hi k start : ℕ) (input : List ℕ) (fs : List (ℕ × List ℕ)) (bs : List ℕ)
    → Ascends lo hi fs
    → hi ≤ length bs
    → field_at fs k ≡ some (start, input)
    → slice start (length input) (write_all fs bs) ≡ input
slice-write_all lo hi k start input [] bs up fits e = absurd (ground arith)
slice-write_all lo hi zero start input ((s, v) ∷ fs) bs up fits e =
    let fit : s + length v ≤ length bs = omega (arith, Ascends-le (s + length v) hi fs up.1) in
    let start_same : s ≡ start = ground arith in
    let input_same : v ≡ input = ground arith in
    rw (← start_same, ← input_same)
      (slice-write_all_below (s + length v) hi s (length v) fs (splice s v bs) up.1
          (omega (arith, length-splice s v bs fit)) (omega arith)
        ∙ slice-splice_self s v bs fit)
slice-write_all lo hi (suc k) start input ((s, v) ∷ fs) bs up fits e =
    let fit : s + length v ≤ length bs = omega (arith, Ascends-le (s + length v) hi fs up.1) in
    slice-write_all (s + length v) hi k start input fs (splice s v bs) up.1
      (omega (arith, length-splice s v bs fit)) e
