-- ===== src/Storage/Cache/Sound.antt =====
-- `read_sectors` and `write_sectors` of the cache, with the checks on their arguments.
use nix_os.Prelude.{
  Result-cases, ℕ, ◌+◌, ◌*◌, ◌/◌, ◌%◌, ◌≤◌, ◌≡◌, List, arith, length, ok, inl, inr,
}
use native.Mathlib.Nat.{div-add-mod'}
use nix_os.Storage.Device.{BlockDevice}
use nix_os.Storage.Cache.{CachedBlockDevice, validate_transfer, read_sectors, write_sectors}
use nix_os.Storage.Cache.Coherent.{Sectors, IsCoherent}
use nix_os.Storage.Cache.Transfer.{Reads, read_each-Reads}
use nix_os.Storage.Cache.Store.{Writes, write_each-Writes}

module _ {D : Type 0} (dev : BlockDevice D) where
  -- A transfer that is accepted is a whole number of sectors within the device.
  validate_transfer_ok :
      (lba len size : ℕ) (c : CachedBlockDevice D)
      → validate_transfer dev lba len c ≡ ok size
      → (size ≡ dev.sector_size c.inner)
        × (len % dev.sector_size c.inner ≡ 0)
        × (lba + len / dev.sector_size c.inner ≤ dev.sector_count c.inner)
  unfolding validate_transfer
  validate_transfer_ok lba len size c e = ground arith

  module _ (law : Sectors dev) where
    -- A read of a coherent cache that succeeds lies within the device, gives the bytes that the cache
    -- shows, whatever was cached or evicted on the way, and leaves the cache coherent and showing the same.
    pub read_sectors-Reads :
        (lba len : ℕ) (c : CachedBlockDevice D) (bytes : List ℕ)
        → IsCoherent dev law c
        → (read_sectors dev lba len c).0 ≡ ok bytes
        → (lba + len / dev.sector_size c.inner ≤ dev.sector_count c.inner)
          × Reads dev law (len / dev.sector_size c.inner) lba c bytes (read_sectors dev lba len c).1
    unfolding read_sectors
    read_sectors-Reads lba len c bytes v e = elim (Result-cases (validate_transfer dev lba len c)) [
      | inr (x, f) ↦ absurd (ground (arith, e))
      | inl (size, f) ↦
          let (same, whole, fits) = validate_transfer_ok lba len size c f in
          (
            fits,
            rw (f, read_sectors)
                (rw (← same)
                  (read_each-Reads dev law (len / size) lba c bytes v (rw (f, read_sectors) at e))),
          )
    ]

    -- A write to a coherent cache that succeeds lies within the device and is shown in exactly its
    -- sectors; every other sector shows what it did, also one whose entry was evicted on the way.
    pub write_sectors-Writes :
        (lba : ℕ) (input : List ℕ) (c : CachedBlockDevice D)
        → IsCoherent dev law c
        → (write_sectors dev lba input c).0 ≡ ok tt
        → (lba + length input / dev.sector_size c.inner ≤ dev.sector_count c.inner)
          × Writes dev law
              (length input / dev.sector_size c.inner)
              lba
              input
              c
              (write_sectors dev lba input c).1
    unfolding write_sectors
    write_sectors-Writes lba input c v e =
        elim (Result-cases (validate_transfer dev lba (length input) c)) [
          | inr (x, f) ↦ absurd (ground (arith, e))
          | inl (size, f) ↦
              let (same, whole, fits) = validate_transfer_ok lba (length input) size c f in
              let count : length input ≡ length input / size * size =
                rw same
                  (omega (arith, div-add-mod' (length input) (dev.sector_size c.inner), whole)) in
              (
                fits,
                rw (f, write_sectors)
                    (rw (← same) (
                      write_each-Writes dev law (length input / size) size lba input c v same count
                        (rw (f, write_sectors) at e))),
              )
        ]
