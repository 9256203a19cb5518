-- ===== src/Prelude/Slots.antt =====
-- Fixed arrays of optional entries, `[Option<T>; N]`: reading, searching and counting.
use Prim.Native.Nat.{ℕ, zero, suc, ◌<◌}
use mathlib.Core.Path.{◌≡◌, refl, sym, ap, subst}
use mathlib.Core.Bool.{Bool, true, false, ◌&&◌}
use mathlib.Core.List.{List, [], ◌∷◌, map}
use mathlib.Core.Option.{Option, none, some}
use native.Mathlib.Omega.{arith}
use nix_os.Prelude.Tests.{ltb, ◌==◌, if◌then◌else◌}
use nix_os.Prelude.Lists.{length, set, replicate}

module _ {ℓ} {A : Type ℓ} where
  abbrev pub slot : List (Option A) → ℕ → Option A
  slot [] i = none
  slot (x ∷ xs) zero = x
  slot (x ∷ xs) (suc i) = slot xs i

  -- `slots[i]`; `none` is the panic of an index out of range.
  abbrev pub index : List (Option A) → ℕ → Option (Option A)
  index xs i = if ltb i (length xs) then some (slot xs i) else none

  abbrev pub is_none : Option A → Bool
  is_none none = true
  is_none (some a) = false

  abbrev pub is_some : Option A → Bool
  is_some none = false
  is_some (some a) = true

  -- `option.is_some_and(p)`
  abbrev pub is_some_and : (A → Bool) → Option A → Bool
  is_some_and p none = false
  is_some_and p (some a) = p a

  abbrev pub map_option : (A → A) → Option A → Option A
  map_option f none = none
  map_option f (some a) = some (f a)

  -- `iter().position(p)`
  unfoldable pub position : (Option A → Bool) → List (Option A) → Option ℕ
  position p [] = none
  position p (x ∷ xs) =
      if p x then some 0 else elim (position p xs) [ none ↦ none | some i ↦ some (suc i) ]

  -- `iter().flatten()`
  unfoldable pub flatten : List (Option A) → List A
  flatten [] = []
  flatten (none ∷ xs) = flatten xs
  flatten (some a ∷ xs) = a ∷ flatten xs

  pub slot-set :
      (xs : List (Option A)) (i j : ℕ) (v : Option A)
      → slot (set xs i v) j ≡ (if (i == j) && ltb i (length xs) then v else slot xs j)
  slot-set [] i j v = ground arith
  slot-set (x ∷ xs) zero zero v = ground arith
  slot-set (x ∷ xs) zero (suc j) v = ground arith
  slot-set (x ∷ xs) (suc i) zero v = ground arith
  slot-set (x ∷ xs) (suc i) (suc j) v = ground (arith, slot-set xs i j v)

  pub slot-map :
      (f : A → A) (xs : List (Option A)) (i : ℕ)
      → slot (map (map_option f) xs) i ≡ map_option f (slot xs i)
  slot-map f [] i = refl
  slot-map f (x ∷ xs) zero = refl
  slot-map f (x ∷ xs) (suc i) = slot-map f xs i

  pub slot_bound : (xs : List (Option A)) (i : ℕ) {a : A} → slot xs i ≡ some a → i < length xs
  slot_bound [] i h = ground arith
  slot_bound (x ∷ xs) zero h = omega arith
  slot_bound (x ∷ xs) (suc i) h = omega (arith, slot_bound xs i h)

  pub slot-replicate : (n i : ℕ) → slot (replicate n none) i ≡ none
  slot-replicate zero i = refl
  slot-replicate (suc n) zero = refl
  slot-replicate (suc n) (suc i) = slot-replicate n i

  -- The index found is in range, passes the test, and is the first to do so.
  pub position_found :
      (p : Option A → Bool) (xs : List (Option A)) (i : ℕ)
      → position p xs ≡ some i
      → (i < length xs) × (p (slot xs i) ≡ true)
  unfolding position
  position_found p [] i h = ground arith
  position_found p (x ∷ xs) zero h = ground arith
  position_found p (x ∷ xs) (suc i) h = ground (arith, position_found p xs i)

  pub position_first :
      (p : Option A → Bool) (xs : List (Option A)) (i j : ℕ)
      → position p xs ≡ some i
      → j < i
      → p (slot xs j) ≡ false
  unfolding position
  position_first p [] i j h lt = ground arith
  position_first p (x ∷ xs) zero j h lt = absurd (omega arith)
  position_first p (x ∷ xs) (suc i) zero h lt = ground arith
  position_first p (x ∷ xs) (suc i) (suc j) h lt = ground (arith, position_first p xs i j)

  pub position_missing :
      (p : Option A → Bool) (xs : List (Option A)) (j : ℕ)
      → position p xs ≡ none
      → j < length xs
      → p (slot xs j) ≡ false
  unfolding position
  position_missing p [] j h lt = absurd (omega arith)
  position_missing p (x ∷ xs) zero h lt = ground arith
  position_missing p (x ∷ xs) (suc j) h lt = ground (arith, position_missing p xs j)

-- A property of the entries survives the write of an entry that has it, and the removal of one.
pub slot-set_all {ℓ} :
    {A : Type 0} (P : A → Type ℓ) (xs : List (Option A)) (i j : ℕ) (c b : A)
    → ((k : ℕ) (a : A) → slot xs k ≡ some a → P a)
    → P c
    → slot (set xs i (some c)) j ≡ some b
    → P b
slot-set_all P [] i j c b old new e = old j b e
slot-set_all P (x ∷ xs) zero zero c b old new e = let q : c ≡ b = cc in subst P q new
slot-set_all P (x ∷ xs) zero (suc j) c b old new e = old (suc j) b e
slot-set_all P (x ∷ xs) (suc i) zero c b old new e = old zero b e
slot-set_all P (x ∷ xs) (suc i) (suc j) c b old new e =
    slot-set_all P xs i j c b (λ k. old (suc k)) new e

pub slot-set-none :
    {A : Type 0} (xs : List (Option A)) (i j : ℕ) (b : A)
    → slot (set xs i none) j ≡ some b
    → slot xs j ≡ some b
slot-set-none xs i j b e = ground (arith, slot-set xs i j none)

pub slot-map-none :
    {A B : Type 0} (f : A → Option B) (xs : List A) (i : ℕ)
    → ((a : A) → f a ≡ none)
    → slot (map f xs) i ≡ none
slot-map-none f [] i h = refl
slot-map-none f (x ∷ xs) zero h = h x
slot-map-none f (x ∷ xs) (suc i) h = slot-map-none f xs i h

-- A write that passes a test just as the old entry did moves no position.
pub position-set_same :
    {A : Type 0} (p : Option A → Bool) (xs : List (Option A)) (i : ℕ) (v : Option A)
    → p v ≡ p (slot xs i)
    → position p (set xs i v) ≡ position p xs
unfolding position
position-set_same p [] i v h = refl
position-set_same p (x ∷ xs) zero v h = rw h
position-set_same p (x ∷ xs) (suc i) v h = rw (position-set_same p xs i v h)

-- Emptying a slot that was empty before a write gives the array back.
pub set-set_restore :
    {A : Type 0} (xs : List (Option A)) (i : ℕ) (v : Option A)
    → slot xs i ≡ none
    → set (set xs i v) i none ≡ xs
set-set_restore [] i v h = refl
set-set_restore (x ∷ xs) zero v h = ap (λ y. y ∷ xs) (sym h)
set-set_restore (x ∷ xs) (suc i) v h = ap (λ ys. x ∷ ys) (set-set_restore xs i v h)
