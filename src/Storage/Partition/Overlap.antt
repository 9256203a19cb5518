-- ===== src/Storage/Partition/Overlap.antt =====
-- What a table that passes `validate_no_overlap` looks like.
use nix_os.Prelude.{
  Result-cases, ℕ, zero, suc, ◌^◌, ◌≤◌, ◌<◌, ◌≡◌, ◌⊎◌, inl, inr, false, none, List, [], ◌∷◌, arith,
  length, get_or, ok,
}
use nix_os.Storage.Partition.{Partition, end_of, check_against, validate_no_overlap}

abbrev pub no_partition : Partition
no_partition = record {
  index = 0;
  first_lba = 0;
  sector_count = 0;
  bootable = false;
  mbr_type = none;
  type_guid = none;
  unique_guid = none;
  attributes = 0;
  name = [];
}

-- One ends before the other begins.
abbrev pub Apart : Partition → Partition → Type 0
Apart p q = (end_of p ≤ q.first_lba) ⊎ (end_of q ≤ p.first_lba)

check_against-Apart :
    (left : Partition) (rest : List Partition) (j : ℕ)
    → check_against left rest ≡ ok tt
    → j < length rest
    → Apart left (get_or rest j no_partition)
unfolding check_against
check_against-Apart left [] j h lt = absurd (omega arith)
check_against-Apart left (right ∷ rest) zero h lt = ground arith
check_against-Apart left (right ∷ rest) (suc j) h lt =
    check_against-Apart left rest j (ground arith) (omega arith)

no_overlap_pair :
    (ps : List Partition) (i j : ℕ)
    → validate_no_overlap ps ≡ ok tt
    → i < j
    → j < length ps
    → Apart (get_or ps i no_partition) (get_or ps j no_partition)
unfolding validate_no_overlap
no_overlap_pair [] i j h lt in_range = absurd (omega arith)
no_overlap_pair (p ∷ ps) i zero h lt in_range = absurd (omega arith)
no_overlap_pair (p ∷ ps) zero (suc j) h lt in_range = elim (Result-cases (check_against p ps)) [
  | inr (x, f) ↦ absurd (ground arith)
  | inl (u, f) ↦ check_against-Apart p ps j f (omega arith)
]
no_overlap_pair (p ∷ ps) (suc i) (suc j) h lt in_range =
    no_overlap_pair ps i j (ground arith) (omega arith) (omega arith)

no_overlap_end :
    (ps : List Partition) (i : ℕ)
    → validate_no_overlap ps ≡ ok tt
    → i < length ps
    → end_of (get_or ps i no_partition) < 2 ^ 64
unfolding validate_no_overlap
no_overlap_end [] i h lt = absurd (omega arith)
no_overlap_end (p ∷ ps) zero h lt = ground arith
no_overlap_end (p ∷ ps) (suc i) h lt = no_overlap_end ps i (ground arith) (omega arith)

-- If a table passes `validate_no_overlap`, no partition's end overflows, the last's and an only one's
-- included, and of any two of its partitions one ends before the other begins.
pub validate_no_overlap-Apart :
    (ps : List Partition)
    → validate_no_overlap ps ≡ ok tt
    → ((i : ℕ) → i < length ps → end_of (get_or ps i no_partition) < 2 ^ 64)
      × ((i j : ℕ)
          → i < j
          → j < length ps
          → Apart (get_or ps i no_partition) (get_or ps j no_partition))
validate_no_overlap-Apart ps h =
    (λ i lt. no_overlap_end ps i h lt, λ i j lt in_range. no_overlap_pair ps i j h lt in_range)
