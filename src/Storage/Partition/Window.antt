-- ===== src/Storage/Partition/Window.antt =====
-- A partition's device stays inside its partition.
use nix_os.Prelude.{
  Result-cases, ℕ, ◌+◌, ◌/◌, ◌≤◌, ◌<◌, ◌≡◌, ◌≢◌, refl, ◌⊎◌, inl, inr, List, arith, length, ok,
}
use native.Mathlib.Nat.{div_self}
use nix_os.Storage.Device.{BlockDevice}
use nix_os.Storage.Partition.{PartitionDevice, translated_lba, write_sectors}
use nix_os.Storage.Cache.Coherent.{Sectors}

module _ {D : Type 0} (dev : BlockDevice D) where
  -- The sectors that a transfer is translated to lie in the partition.
  pub translated_lba_within :
      (lba len translated : ℕ) (p : PartitionDevice D)
      → translated_lba dev lba len p ≡ ok translated
      → (translated ≡ p.first_lba + lba)
        × (translated + len / dev.sector_size p.inner ≤ p.first_lba + p.sector_count)
        × (0 < len)
  unfolding translated_lba
  translated_lba_within lba len translated p e = ground arith

  -- A write of one sector through a partition's device, whether or not it succeeds, leaves the
  -- partition where it is and changes no sector of the disk outside the partition.
  pub write_sectors_outside :
      (law : Sectors dev) (lba j : ℕ) (input : List ℕ) (p : PartitionDevice D)
      → length input ≡ dev.sector_size p.inner
      → (j < p.first_lba) ⊎ (p.first_lba + p.sector_count ≤ j)
      → let (r, p') = write_sectors dev lba input p in
        (law.sector p'.inner j ≡ law.sector p.inner j)
        × (p'.first_lba ≡ p.first_lba)
        × (p'.sector_count ≡ p.sector_count)
  unfolding write_sectors
  write_sectors_outside law lba j input p size away =
      elim (Result-cases (translated_lba dev lba (length input) p)) [
        | inr (x, f) ↦ rw (f, write_sectors) (refl, refl, refl)
        | inl (t, f) ↦
            let (same, within, some_bytes) = translated_lba_within lba (length input) t p f in
            let one : length input / dev.sector_size p.inner ≡ 1 =
              rw size (div_self (omega arith)) in
            let apart : j ≢ t = λ e. ground (arith, away) in
            rw (f, write_sectors) (law.write_keeps t input p.inner j size apart, refl, refl)
      ]
