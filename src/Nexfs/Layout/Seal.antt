-- ===== src/Nexfs/Layout/Seal.antt =====
-- The checksum that ends each structure on disk.
use nix_os.Prelude.{
  ℕ, ◌+◌, ◌≤◌, ◌≡◌, refl, sym, ap, ◌∙◌, true, List, arith, length, replicate, length-replicate,
  take, length-take, ◌⊎◌, slice, splice, from_le, to_le, from_le-to_le, inr, length-splice,
  slice-splice_self, slice-splice_apart, take-splice, splice-splice_same, splice-slice, slice-take,
  ==_iff,
}
use nix_os.Storage.Device.{crc32}
use nix_os.Storage.Device.Checksum.{crc32-lt}
use nix_os.Nexfs.Layout.{seal, is_sealed, cleared}

module _ (n offset : ℕ) (body : List ℕ) (inside : offset + 4 ≤ n) (fits : n ≤ length body) where
  pub length-seal : length (seal n offset body) ≡ length body
  unfolding seal to_le
  length-seal = length-splice offset (to_le 4 (crc32 (take n body))) body (omega arith)

  -- What lies apart from the checksum is as it was.
  pub slice-seal :
      (start k : ℕ)
      → (start + k ≤ offset) ⊎ (offset + 4 ≤ start)
      → slice start k (seal n offset body) ≡ slice start k body
  unfolding seal to_le
  slice-seal start k apart =
      slice-splice_apart offset start k (to_le 4 (crc32 (take n body))) body (omega arith) apart

  zeroed :
      slice offset 4 body ≡ to_le 4 0
      → splice offset (to_le 4 0) (take n (seal n offset body)) ≡ take n body
  unfolding seal to_le
  zeroed empty =
      let sum = to_le 4 (crc32 (take n body)) in
      let long : n ≤ length (take n body) = omega (arith, length-take n body) in
      ap (splice offset (to_le 4 0)) (take-splice n offset sum body inside fits)
      ∙ splice-splice_same offset (to_le 4 0) sum (take n body) refl (omega arith)
      ∙ splice-slice offset (to_le 4 0) (take n body) (omega arith)
          (slice-take offset 4 n body inside ∙ empty)

  checksum : from_le (slice offset 4 (seal n offset body)) ≡ crc32 (take n body)
  unfolding seal to_le
  checksum =
      ap from_le (slice-splice_self offset (to_le 4 (crc32 (take n body))) body (omega arith))
      ∙ from_le-to_le 4 (crc32 (take n body)) (omega (arith, crc32-lt (take n body)))

  -- A structure that was sealed over an empty checksum passes the comparison.
  pub is_sealed-seal :
      slice offset 4 body ≡ to_le 4 0 → is_sealed n offset (seal n offset body) ≡ true
  unfolding is_sealed
  is_sealed-seal empty = (==_iff _ _).1 (ap crc32 (zeroed empty) ∙ sym checksum)

pub length-cleared :
    (n : ℕ) (output : List ℕ) → n ≤ length output → length (cleared n output) ≡ length output
unfolding cleared
length-cleared n output h =
    length-splice 0 (replicate n 0) output (omega (arith, length-replicate {A = ℕ} n 0))

pub slice-cleared :
    (n start k : ℕ) (output : List ℕ)
    → n ≤ length output
    → n ≤ start
    → slice start k (cleared n output) ≡ slice start k output
unfolding cleared
slice-cleared n start k output h above =
    slice-splice_apart 0 start k (replicate n 0) output
      (omega (arith, length-replicate {A = ℕ} n 0))
      (inr (omega (arith, length-replicate {A = ℕ} n 0)))
