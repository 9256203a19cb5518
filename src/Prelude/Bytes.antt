-- ===== src/Prelude/Bytes.antt =====
-- Bytes: ranges of a buffer, little-endian numbers, and powers of two.
use Prim.Native.Nat.{ℕ, zero, suc, ◌+◌, ◌*◌, ◌/◌, ◌%◌, ◌^◌, ◌<◌, ◌≤◌}
use mathlib.Core.Path.{◌≡◌, refl, sym, ap, ◌∙◌}
use mathlib.Core.Logic.{◌⊎◌, inl, inr}
use mathlib.Core.Bool.{Bool, true, false, ◌&&◌, ◌||◌}
use mathlib.Core.List.{List, [], ◌∷◌, ◌++◌}
use native.Mathlib.Omega.{arith}
use native.Mathlib.Nat.{pow-suc}
use nix_os.Prelude.Tests.{◌==◌}
use nix_os.Prelude.Lists.{
  length, take, drop, length-append, length-take, length-drop, take-append, drop-append,
}

-- `bytes[start..start + len]`, and that range overwritten by `copy_from_slice`
abbrev pub slice : ℕ → ℕ → List ℕ → List ℕ
slice start len bytes = take len (drop start bytes)

abbrev pub splice : ℕ → List ℕ → List ℕ → List ℕ
splice start input bytes = take start bytes ++ (input ++ drop (start + length input) bytes)

-- `from_le_bytes`, and `to_le_bytes` of a number of `n` bytes
unfoldable pub from_le : List ℕ → ℕ
from_le [] = 0
from_le (b ∷ bs) = b + 256 * from_le bs

unfoldable pub to_le : ℕ → ℕ → List ℕ
to_le zero value = []
to_le (suc n) value = (value % 256) ∷ to_le n (value / 256)

-- `==` of two byte strings
unfoldable pub bytes_eq : List ℕ → List ℕ → Bool
bytes_eq [] [] = true
bytes_eq [] (c ∷ cs) = false
bytes_eq (b ∷ bs) [] = false
bytes_eq (b ∷ bs) (c ∷ cs) = b == c && bytes_eq bs cs

-- `bytes.contains(&byte)`
unfoldable pub contains : ℕ → List ℕ → Bool
contains byte [] = false
contains byte (c ∷ cs) = c == byte || contains byte cs

-- `is_power_of_two()`: one of `2^0 … 2^(k - 1)`
unfoldable pub is_power_below : ℕ → ℕ → Bool
is_power_below zero n = false
is_power_below (suc k) n = n == 2 ^ k || is_power_below k n

pub drop_nil : (n : ℕ) → drop {A = ℕ} n [] ≡ []
drop_nil zero = refl
drop_nil (suc n) = refl

pub drop_past :
    (input bs : List ℕ) (i : ℕ)
    → length input ≤ i
    → drop i (input ++ drop (length input) bs) ≡ drop i bs
drop_past [] bs i h = refl
drop_past (a ∷ input) bs zero h = absurd (omega arith)
drop_past (a ∷ input) [] (suc i) h =
    ap (λ t. drop i (input ++ t)) (sym (drop_nil (length input)))
    ∙ drop_past input [] i (omega arith)
    ∙ drop_nil i
drop_past (a ∷ input) (b ∷ bs) (suc i) h = drop_past input bs i (omega arith)

-- Bytes apart from those overwritten stay.
pub slice-splice_apart :
    (start i n : ℕ) (input bs : List ℕ)
    → start + length input ≤ length bs
    → (i + n ≤ start) ⊎ (start + length input ≤ i)
    → slice i n (splice start input bs) ≡ slice i n bs
slice-splice_apart start i zero input bs fits apart = refl
slice-splice_apart zero i (suc n) input bs fits (inl before) = absurd (omega arith)
slice-splice_apart zero i (suc n) input bs fits (inr behind) =
    let start_here : 0 + length input ≡ length input = omega arith in
    rw start_here (ap (take (suc n)) (drop_past input bs i (omega arith)))
slice-splice_apart (suc start) i (suc n) input [] fits apart = absurd (omega arith)
slice-splice_apart (suc start) zero (suc n) input (b ∷ bs) fits apart =
    let next : suc start + length input ≡ suc (start + length input) = omega arith in
    rw next (ap (λ t. b ∷ t) (slice-splice_apart start 0 n input bs (omega arith) (ground arith)))
slice-splice_apart (suc start) (suc i) (suc n) input (b ∷ bs) fits apart =
    let next : suc start + length input ≡ suc (start + length input) = omega arith in
    rw next (slice-splice_apart start i (suc n) input bs (omega arith) (ground arith))

pub slice-splice_self :
    (start : ℕ) (input bs : List ℕ)
    → start + length input ≤ length bs
    → slice start (length input) (splice start input bs) ≡ input
slice-splice_self start input bs fits =
    ap (take (length input)) (
      drop-append (take start bs) (input ++ drop (start + length input) bs) start
        (omega (arith, length-take start bs)))
    ∙ take-append input (drop (start + length input) bs) (length input) refl

pub length-slice :
    (start n : ℕ) (bs : List ℕ) → start + n ≤ length bs → length (slice start n bs) ≡ n
length-slice start n bs fits = omega (arith, length-take n (drop start bs), length-drop start bs)

pub bytes_eq_refl : (bs : List ℕ) → bytes_eq bs bs ≡ true
unfolding bytes_eq
bytes_eq_refl [] = refl
bytes_eq_refl (b ∷ bs) = ground (arith, bytes_eq_refl bs)

pub bytes_eq→eq : (bs cs : List ℕ) → bytes_eq bs cs ≡ true → bs ≡ cs
unfolding bytes_eq
bytes_eq→eq [] [] h = refl
bytes_eq→eq [] (c ∷ cs) h = cc
bytes_eq→eq (b ∷ bs) [] h = cc
bytes_eq→eq (b ∷ bs) (c ∷ cs) h = ground (arith, bytes_eq→eq bs cs)

pub length-to_le : (n value : ℕ) → length (to_le n value) ≡ n
unfolding to_le
length-to_le zero value = omega arith
length-to_le (suc n) value = omega (arith, length-to_le n (value / 256))

pub from_le-to_le : (n value : ℕ) → value < 256 ^ n → from_le (to_le n value) ≡ value
unfolding from_le to_le
from_le-to_le zero value h = omega arith
from_le-to_le (suc n) value h =
    let bound : value < 256 ^ n * 256 = rw (pow-suc 256 n) at h in
    omega (arith, from_le-to_le n (value / 256) (omega arith))

pub length-splice :
    (start : ℕ) (input bs : List ℕ)
    → start + length input ≤ length bs
    → length (splice start input bs) ≡ length bs
length-splice start input bs fits = omega (
  arith,
  length-append (take start bs) (input ++ drop (start + length input) bs),
  length-append input (drop (start + length input) bs),
  length-take start bs,
  length-drop (start + length input) bs,
)
