-- ===== src/Nexfs/Blocks/Stored.antt =====
-- A superblock that is written to a device is read back from it.
use nix_os.Prelude.{
  ℕ, ◌+◌, ◌*◌, ◌/◌, ◌%◌, ◌^◌, ◌≤◌, ◌<◌, ◌≡◌, refl, sym, ap, ◌∙◌, false, arith, inl, inr, ◌⊎◌, ltb,
  leb, ◌==◌, if◌then◌else◌, List, length, replicate, length-replicate, slice, splice, length-splice,
  slice-splice_self, slice-splice_apart, map_ok, Result, ok, err,
}
use native.Mathlib.Nat.{div-add-mod'}
use nix_os.Storage.Device.{
  StorageError, read_only, MemoryBlockDevice, memory_device, range, read_sectors, write_sectors,
}
use nix_os.Nexfs.Io.{lift, ask, from_storage, ◌>>=◌, after_ok, from_storage_ok}
use nix_os.Nexfs.Superblock.{Superblock, encode, decode, validate}
use nix_os.Nexfs.Superblock.Coding.{IsSuperblock, decode-encode}
use nix_os.Nexfs.Blocks.{sectors_per_block, read_superblock, write_superblock}

-- A device on which a volume's first two blocks fit, whose sectors divide a block.
pub record IsWritable (d : MemoryBlockDevice) : Type 0 where
  pub writable : d.is_read_only ≡ false
  pub some_size : 0 < d.size
  pub divides : 4096 % d.size ≡ 0
  pub long : 8192 ≤ length d.bytes
  pub small : length d.bytes < 2 ^ 64

write_sectors_ok :
    (lba start : ℕ) (input : List ℕ) (d : MemoryBlockDevice)
    → d.is_read_only ≡ false
    → range lba (length input) d ≡ ok start
    → write_sectors lba input d ≡ (ok tt, record d { bytes = splice start input d.bytes })
unfolding write_sectors
write_sectors_ok lba start input d writable r =
    let write : Result StorageError ℕ → Result StorageError Unit × MemoryBlockDevice = λ x. elim x [
      | err e ↦ (err e, d)
      | ok at ↦ (ok tt, record d { bytes = splice at input d.bytes })
    ] in
    ap (λ b. if b then (err read_only, d) else write (range lba (length input) d)) writable
    ∙ ap write r

module _ (d : MemoryBlockDevice) (v : IsWritable d) where
  block_sectors : 1 * (4096 / d.size) * d.size ≡ 4096
  block_sectors = grind (arith, div-add-mod' 4096 d.size, v.divides)

  sectors_per_block-IsWritable : sectors_per_block memory_device d ≡ ok (4096 / d.size)
  unfolding sectors_per_block
  sectors_per_block-IsWritable =
      let some : (d.size == 0) ≡ false = ground (arith, v.some_size) in rw some (rw v.divides refl)

  range-IsWritable : range (1 * (4096 / d.size)) 4096 d ≡ ok 4096
  unfolding range
  range-IsWritable =
      let a : leb (2 ^ 64) (4096 + 4096) ≡ false = ground arith in
      let b : ltb (length d.bytes) (4096 + 4096) ≡ false = ground (arith, v.long) in
      rw block_sectors (rw v.divides (rw b refl))

  -- the device with `block` in place of the second block of the volume
  with_block : List ℕ → MemoryBlockDevice
  with_block block = record d { bytes = splice 4096 block d.bytes }

  write_sectors-IsWritable :
      (block : List ℕ)
      → length block ≡ 4096
      → write_sectors (1 * (4096 / d.size)) block d ≡ (ok tt, with_block block)
  unfolding with_block
  write_sectors-IsWritable block size =
      write_sectors_ok (1 * (4096 / d.size)) 4096 block d v.writable
        (ap (λ n. range (1 * (4096 / d.size)) n d) size ∙ range-IsWritable)

with_block-IsWritable :
    (d : MemoryBlockDevice) (v : IsWritable d) (block : List ℕ)
    → length block ≡ 4096
    → IsWritable (with_block d v block)
unfolding with_block
with_block-IsWritable d v block size = record {
  writable = v.writable;
  some_size = v.some_size;
  divides = v.divides;
  long = omega (arith, v.long, whole);
  small = omega (arith, v.small, whole);
}
  where
    whole : length (splice 4096 block d.bytes) ≡ length d.bytes
    whole = length-splice 4096 block d.bytes (omega (arith, size, v.long))

-- What is read at the second block of such a device.
read_superblock-IsWritable :
    (d : MemoryBlockDevice) (s : Superblock)
    → IsWritable d
    → decode (slice 4096 4096 d.bytes) ≡ ok s
    → read_superblock memory_device d ≡ (ok s, d)
unfolding read_superblock read_sectors
read_superblock-IsWritable d s v e =
    let sectors = 4096 / d.size in
    after_ok (ask (sectors_per_block memory_device))
      (λ n. from_storage (read_sectors (1 * n) 4096) >>= λ b. lift (decode b)) d d sectors
      (ap (λ r. (r, d)) (sectors_per_block-IsWritable d v))
    ∙ after_ok (from_storage (read_sectors (1 * sectors) 4096)) (λ b. lift (decode b)) d d
        (slice 4096 4096 d.bytes)
        (from_storage_ok (read_sectors (1 * sectors) 4096) d d (slice 4096 4096 d.bytes)
          (ap (λ r. (map_ok (λ start. slice start 4096 d.bytes) r, d)) (range-IsWritable d v)))
    ∙ ap (λ r. (r, d)) e

write_superblock-IsWritable :
    (d : MemoryBlockDevice) (s : Superblock) (v : IsWritable d) (block : List ℕ)
    → encode s (replicate 4096 0) ≡ ok block
    → length block ≡ 4096
    → write_superblock memory_device s d ≡ (ok tt, with_block d v block)
unfolding write_superblock
write_superblock-IsWritable d s v block e size =
    let sectors = 4096 / d.size in
    after_ok (ask (sectors_per_block memory_device))
      (λ n. lift (encode s (replicate 4096 0)) >>= λ b. from_storage (write_sectors (1 * n) b)) d d
      sectors (ap (λ r. (r, d)) (sectors_per_block-IsWritable d v))
    ∙ after_ok (lift (encode s (replicate 4096 0)))
        (λ b. from_storage (write_sectors (1 * sectors) b)) d d block (ap (λ r. (r, d)) e)
    ∙ from_storage_ok (write_sectors (1 * sectors) block) d (with_block d v block) tt
        (write_sectors-IsWritable d v block size)

blank_block : List ℕ
blank_block = replicate 4096 0

length-blank_block : length blank_block ≡ 4096
unfolding blank_block
length-blank_block = length-replicate {A = ℕ} 4096 0

-- the block that `write_superblock` puts
stored_block :
    (s : Superblock)
    → IsSuperblock s
    → validate s ≡ ok tt
    → (block : List ℕ) × (encode s (replicate 4096 0) ≡ ok block)
      × (length block ≡ 4096)
      × (decode block ≡ ok s)
unfolding blank_block
stored_block s fits valid =
    let (block, e, size, above, back) =
      decode-encode s blank_block fits valid (omega (arith, length-blank_block)) in
    (block, e, size ∙ length-blank_block, back)

there :
    (d : MemoryBlockDevice) (v : IsWritable d) (block : List ℕ)
    → length block ≡ 4096
    → slice 4096 4096 (with_block d v block).bytes ≡ block
unfolding with_block
there d v block whole =
    ap (λ k. slice 4096 k (splice 4096 block d.bytes)) (sym whole)
    ∙ slice-splice_self 4096 block d.bytes (omega (arith, whole, v.long))

elsewhere :
    (d : MemoryBlockDevice) (v : IsWritable d) (block : List ℕ)
    → length block ≡ 4096
    → (start k : ℕ) → (start + k ≤ 4096) ⊎ (8192 ≤ start)
    → slice start k (with_block d v block).bytes ≡ slice start k d.bytes
unfolding with_block
elsewhere d v block whole start k apart =
    slice-splice_apart 4096 start k block d.bytes (omega (arith, whole, v.long))
      (elim apart [ inl below ↦ inl below | inr above ↦ inr (omega (arith, whole)) ])

-- On a memory device that may be written to, of two blocks or more and with sectors that divide a block,
-- the write of a superblock that `validate` accepts and whose values fit their widths succeeds; it is read
-- back as it was, and no byte outside the device's second block has changed.
pub read_superblock-write_superblock :
    (d : MemoryBlockDevice) (s : Superblock)
    → IsWritable d
    → IsSuperblock s
    → validate s ≡ ok tt
    → let (r, d') = write_superblock memory_device s d in
      (r ≡ ok tt)
      × ((read_superblock memory_device d').0 ≡ ok s)
      × ((start k : ℕ)
          → (start + k ≤ 4096) ⊎ (8192 ≤ start)
          → slice start k d'.bytes ≡ slice start k d.bytes)
read_superblock-write_superblock d s v fits valid =
    let (block, e, whole, back) = stored_block s fits valid in
    rw (write_superblock-IsWritable d s v block e whole) (
      refl,
      ap (λ p. p.0)
          (read_superblock-IsWritable (with_block d v block) s
            (with_block-IsWritable d v block whole) (ap decode (there d v block whole) ∙ back)),
      elsewhere d v block whole,
    )
