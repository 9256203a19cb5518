-- ===== src/Nexfs/Blocks/Bitmap.antt =====
-- The bits of a bitmap are independent of each other.
use nix_os.Prelude.{
  ℕ, zero, suc, ◌/◌, ◌%◌, ◌^◌, ◌<◌, ◌≡◌, refl, sym, ap, ◌∙◌, not, Bool, true, false, ◌&&◌, arith,
  ltb, ◌==◌, if◌then◌else◌, List, length, get_or, set, get_or-set, length-set, lt→ltb, ok, err,
}
use Prim.Native.Nat.{bit_and}
use native.Mathlib.Decide.{ℕ_discrete}
use nix_os.Nexfs.{FsError}
use nix_os.Nexfs.Blocks.{bitmap_bit, set_bitmap_bit, with_bit}

all_below : ℕ → (ℕ → Bool) → Bool
all_below zero p = true
all_below (suc n) p = p n && all_below n p

all_below-lt : (n : ℕ) (p : ℕ → Bool) (k : ℕ) → all_below n p ≡ true → k < n → p k ≡ true
unfolding all_below
all_below-lt zero p k h lt = absurd (omega arith)
all_below-lt (suc n) p k h lt = elim (ℕ_discrete k n) [
  | yes same ↦ ap p same ∙ ground arith
  | no ne ↦ all_below-lt n p k (ground arith) (omega arith)
]

same_bit : Bool → Bool → Bool
same_bit true b = b
same_bit false b = not b

same_bit→eq : (a b : Bool) → same_bit a b ≡ true → a ≡ b
unfolding same_bit
same_bit→eq true b h = sym h
same_bit→eq false b h = ground arith

bit_at : ℕ → ℕ → Bool
bit_at byte k = not (bit_and byte (2 ^ k) == 0)

-- bit `j` of the byte `v` after bit `k` of it was set or cleared
byte_works : Bool → ℕ → ℕ → ℕ → Bool
byte_works value v k j =
    same_bit (bit_at (with_bit v (2 ^ k) value) j) (if k == j then value else bit_at v j)
    && ltb (with_bit v (2 ^ k) value) 256

all_work : Bool → Bool
all_work value = all_below 256 (λ v. all_below 8 (λ k. all_below 8 (λ j. byte_works value v k j)))

all_work_holds : (value : Bool) → all_work value ≡ true
unfolding all_work all_below byte_works same_bit with_bit bit_at
all_work_holds true = refl
all_work_holds false = refl

with_bit_lem :
    (value : Bool) (v k j : ℕ)
    → v < 256
    → k < 8
    → j < 8
    → (bit_at (with_bit v (2 ^ k) value) j ≡ (if k == j then value else bit_at v j))
      × (with_bit v (2 ^ k) value < 256)
unfolding all_work byte_works
with_bit_lem value v k j v_lt k_lt j_lt =
    let works : byte_works value v k j ≡ true =
      all_below-lt 8 (λ j. byte_works value v k j) j
        (all_below-lt 8 (λ k. all_below 8 (λ j. byte_works value v k j)) k
          (all_below-lt 256 (λ v. all_below 8 (λ k. all_below 8 (λ j. byte_works value v k j))) v
            (all_work_holds value) v_lt)
          k_lt)
        j_lt in
    (
      same_bit→eq (bit_at (with_bit v (2 ^ k) value) j) (if k == j then value else bit_at v j)
          (ground arith),
      ground arith,
    )

-- A bit's byte and its place in the byte give the bit.
same_place : (a b : ℕ) → (a == b) ≡ (a / 8 == b / 8 && a % 8 == b % 8)
same_place a b = ground arith

bitmap_bit_lem :
    (bitmap : List ℕ) (bit : ℕ)
    → bitmap_bit bitmap bit ≡ (
        if ltb (bit / 8) (length bitmap)
        then ok (bit_at (get_or bitmap (bit / 8) 0) (bit % 8))
        else err FsError.invalid_layout)
unfolding bitmap_bit bit_at
bitmap_bit_lem bitmap bit = refl

-- If a bit lies in a bitmap of bytes, then `set_bitmap_bit` succeeds; what is read after it is the new
-- value at that bit and the old value, or the same error, at every other; and the bitmap keeps its length
-- and still consists of bytes.
pub bitmap_bit-set_bitmap_bit :
    (bitmap : List ℕ) (bit : ℕ) (value : Bool)
    → ((i : ℕ) → get_or bitmap i 0 < 256)
    → bit / 8 < length bitmap
    → (bitmap' : List ℕ) × (set_bitmap_bit bitmap bit value ≡ ok bitmap')
      × (length bitmap' ≡ length bitmap)
      × ((i : ℕ) → get_or bitmap' i 0 < 256)
      × ((other : ℕ)
          → bitmap_bit bitmap' other ≡ (if bit == other then ok value else bitmap_bit bitmap other))
unfolding set_bitmap_bit
bitmap_bit-set_bitmap_bit bitmap bit value bytes within = (
  bitmap',
  rw (lt→ltb (bit / 8) (length bitmap) within) refl,
  length-set bitmap (bit / 8) new,
  bytes',
  reads,
)
  where
    new : ℕ
    new = with_bit (get_or bitmap (bit / 8) 0) (2 ^ (bit % 8)) value

    bitmap' : List ℕ
    bitmap' = set bitmap (bit / 8) new

    works :
        (j : ℕ)
        → j < 8
        → (bit_at new j ≡ (if bit % 8 == j then value else bit_at (get_or bitmap (bit / 8) 0) j))
          × (new < 256)
    works j lt =
        with_bit_lem value (get_or bitmap (bit / 8) 0) (bit % 8) j (bytes (bit / 8)) (omega arith)
          lt

    at : (i : ℕ) → get_or bitmap' i 0 ≡ (if bit / 8 == i then new else get_or bitmap i 0)
    at i = ground (arith, get_or-set bitmap (bit / 8) i new 0)

    bytes' : (i : ℕ) → get_or bitmap' i 0 < 256
    bytes' i = ground (arith, at i, bytes i, (works 0 (omega arith)).1)

    reads :
        (other : ℕ)
        → bitmap_bit bitmap' other ≡ (if bit == other then ok value else bitmap_bit bitmap other)
    reads other = ground (
      arith,
      same_place bit other,
      bitmap_bit_lem bitmap' other,
      bitmap_bit_lem bitmap other,
      length-set bitmap (bit / 8) new,
      at (other / 8),
      (works (other % 8) (omega arith)).0,
      within,
    )
