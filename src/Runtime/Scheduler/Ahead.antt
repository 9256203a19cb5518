-- ===== src/Runtime/Scheduler/Ahead.antt =====
-- Distances between slots, going round the table.
use nix_os.Prelude.{
  ℕ, ◌+◌, ◌-◌, ◌%◌, ◌≤◌, ◌<◌, ◌≡◌, ◌≢◌, ◌∙◌, ◌⊎◌, inl, inr, arith, leb, if◌then◌else◌, max,
}
use native.Mathlib.Decide.{dec_lt}
use native.Mathlib.Nat.{mod-eq_of_lt, mod-eq-sub-mod}

-- How many slots after `start` the slot `j` comes, going round an array of `n`.
pub ahead : ℕ → ℕ → ℕ → ℕ
ahead n start j = if leb start j then j - start else j + n - start

pub mod_two_cases : (a n : ℕ) → a < n + n → ((a < n) × (a % n ≡ a)) ⊎ ((n ≤ a) × (a % n ≡ a - n))
mod_two_cases a n h = elim (dec_lt a n) [
  | yes p ↦ inl (p, mod-eq_of_lt p)
  | no p ↦
      let le : n ≤ a = omega arith in
      let lt : a - n < n = omega arith in inr (le, mod-eq-sub-mod le ∙ mod-eq_of_lt lt)
]

pub ahead-lt : (n start j : ℕ) → start < n → j < n → ahead n start j < n
unfolding ahead
ahead-lt n start j hs hj = ground arith

pub ahead_reaches : (n start j : ℕ) → start < n → j < n → (start + ahead n start j) % n ≡ j
unfolding ahead
ahead_reaches n start j hs hj =
    ground (arith, mod_two_cases (start + ahead n start j) n (omega (arith, ahead-lt n start j)))

pub ahead_of_distance : (n start d : ℕ) → start < n → d < n → ahead n start ((start + d) % n) ≡ d
unfolding ahead
ahead_of_distance n start d hs hd = ground (arith, mod_two_cases (start + d) n (omega arith))

-- Past a nearer slot, the way to `j` is shorter.
pub ahead_closer :
    (n start i j : ℕ)
    → start < n
    → i < n
    → j < n
    → i ≢ j
    → ahead n start i ≤ ahead n start j
    → ahead n ((i + 1) % max n 1) j < ahead n start j
unfolding ahead
ahead_closer n start i j hs hi hj ne le =
    let m : max n 1 ≡ n = omega arith in
    rw m (ground (arith, mod_two_cases (i + 1) n (omega arith)))
