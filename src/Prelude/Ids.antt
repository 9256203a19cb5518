-- ===== src/Prelude/Ids.antt =====
-- Fixed arrays of optional entries that carry ids: the ids are distinct and below the next one.
use Prim.Native.Nat.{ℕ, ◌<◌}
use mathlib.Core.Path.{◌≡◌, ap, ◌∙◌}
use mathlib.Core.Logic.{inl, inr}
use mathlib.Core.Bool.{true, false}
use mathlib.Core.List.{List}
use mathlib.Core.Option.{Option, none, some}
use native.Mathlib.Omega.{arith}
use nix_os.Prelude.Tests.{◌==◌, Option-cases}
use nix_os.Prelude.Lists.{length, set, replicate}
use nix_os.Prelude.Slots.{
  slot, is_some_and, position, position_found, position_missing, slot-set, slot_bound,
  slot-replicate,
}

abbrev pub id_at {ℓ} : {A : Type ℓ} → (A → ℕ) → Option A → Option ℕ
id_at id none = none
id_at id (some a) = some (id a)

module _ {A : Type 0} (id : A → ℕ) where
  pub record DistinctIds (xs : List (Option A)) (n : ℕ) : Type 0 where
    pub distinct :
        (i j k : ℕ) → id_at id (slot xs i) ≡ some k → id_at id (slot xs j) ≡ some k → i ≡ j
    pub below : (i k : ℕ) → id_at id (slot xs i) ≡ some k → k < n

  pub DistinctIds-set_same :
      (xs : List (Option A)) (n i : ℕ) (a b : A)
      → DistinctIds xs n
      → slot xs i ≡ some a
      → id b ≡ id a
      → DistinctIds (set xs i (some b)) n
  DistinctIds-set_same xs n i a b h e same = record {
    distinct = λ j k m p q.
        ground (arith, slot-set xs i j (some b), slot-set xs i k (some b), h.distinct j k m);
    below = λ j m p. ground (arith, slot-set xs i j (some b), h.below j m);
  }

  pub DistinctIds-set_fresh :
      (xs : List (Option A)) (n m i : ℕ) (a : A)
      → DistinctIds xs n
      → id a ≡ n
      → n < m
      → DistinctIds (set xs i (some a)) m
  DistinctIds-set_fresh xs n m i a h e lt = record {
    distinct = λ j k p c d. ground (
      arith,
      slot-set xs i j (some a),
      slot-set xs i k (some a),
      h.distinct j k p,
      h.below j p,
      h.below k p,
    );
    below = λ j p c. ground (arith, slot-set xs i j (some a), h.below j p);
  }

  pub DistinctIds-set-none :
      (xs : List (Option A)) (n i : ℕ) → DistinctIds xs n → DistinctIds (set xs i none) n
  DistinctIds-set-none xs n i h = record {
    distinct =
        λ j k p c d. ground (arith, slot-set xs i j none, slot-set xs i k none, h.distinct j k p);
    below = λ j p c. ground (arith, slot-set xs i j none, h.below j p);
  }

  pub DistinctIds-empty : (slots n : ℕ) → DistinctIds (replicate slots none) n
  DistinctIds-empty slots n = record {
    distinct = λ i j k p q. ground (arith, slot-replicate {A = A} slots i);
    below = λ i k p. ground (arith, slot-replicate {A = A} slots i);
  }

  -- The position of an id holds an entry with that id.
  pub position_of_id :
      (k : ℕ) (xs : List (Option A)) (i : ℕ)
      → position (is_some_and (λ a. id a == k)) xs ≡ some i
      → (a : A) × (slot xs i ≡ some a) × (id a ≡ k) × (i < length xs)
  position_of_id k xs i e = elim (Option-cases (slot xs i)) [
    | inl h ↦ absurd (ground (arith, found))
    | inr (a, h) ↦ (a, h, ground (arith, found), found.0)
  ]
    where
      found : (i < length xs) × (is_some_and (λ a. id a == k) (slot xs i) ≡ true)
      found = position_found (is_some_and (λ a. id a == k)) xs i e

  -- The slot of an entry is the one that its id finds.
  pub position_of_slot :
      (xs : List (Option A)) (n i : ℕ) (a : A)
      → DistinctIds xs n
      → slot xs i ≡ some a
      → position (is_some_and (λ b. id b == id a)) xs ≡ some i
  position_of_slot xs n i a h e =
      elim (Option-cases (position (is_some_and (λ b. id b == id a)) xs)) [
        | inl m ↦ absurd (ground (arith, missing m))
        | inr (k, f) ↦
            let (b, g, same, lt) = position_of_id (id a) xs k f in
            f ∙ ap some (h.distinct k i (id a) (rw g (ap some same)) (rw e))
      ]
    where
      missing :
          position (is_some_and (λ b. id b == id a)) xs ≡ none
          → is_some_and (λ b. id b == id a) (slot xs i) ≡ false
      missing m = position_missing (is_some_and (λ b. id b == id a)) xs i m (slot_bound xs i e)
