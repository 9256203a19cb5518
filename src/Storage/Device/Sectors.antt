-- ===== src/Storage/Device/Sectors.antt =====
-- The memory device keeps the contract that the cache relies on.
use nix_os.Prelude.{
  ℕ, suc, ◌+◌, ◌*◌, ◌%◌, ◌^◌, ◌<◌, ◌≤◌, ◌≡◌, ◌≢◌, refl, sym, ap, ◌∙◌, ◌⊎◌, inl, inr, Bool, true,
  false, List, arith, length, Result, ok, err, if◌then◌else◌, slice-splice_apart, slice-splice_self,
  length-slice, slice, splice, Result-cases,
}
use native.Mathlib.Decide.{dec_lt}
use native.Mathlib.Nat.{mod_self, mul-le-mul_right, suc-mul}
use nix_os.Storage.Device.{
  StorageError, MemoryBlockDevice, range, read_sectors, write_sectors, memory_device,
}
use nix_os.Storage.Cache.Coherent.{Sectors}

-- The sectors of different numbers are apart.
sectors_apart :
    (j lba size : ℕ) → j ≢ lba → (j * size + size ≤ lba * size) ⊎ (lba * size + size ≤ j * size)
sectors_apart j lba size ne = elim (dec_lt j lba) [
  | yes lt ↦ inl (omega (arith, mul-le-mul_right size lt, suc-mul j size))
  | no ge ↦
      let more : suc lba ≤ j = omega arith in
      inr (omega (arith, mul-le-mul_right size more, suc-mul lba size))
]

range_ok :
    (lba len start : ℕ) (d : MemoryBlockDevice)
    → range lba len d ≡ ok start
    → (start ≡ lba * d.size) × (start + len ≤ length d.bytes)
unfolding range
range_ok lba len start d e = ground arith

read_gives :
    (lba : ℕ) (d : MemoryBlockDevice) (bytes : List ℕ)
    → (read_sectors lba d.size d).0 ≡ ok bytes
    → (bytes ≡ slice (lba * d.size) d.size d.bytes) × (length bytes ≡ d.size)
unfolding read_sectors
read_gives lba d bytes e = elim (Result-cases (range lba d.size d)) [
  | inr (x, f) ↦ absurd (ground (arith, e))
  | inl (start, f) ↦
      let (same, fits) = range_ok lba d.size start d f in
      let whole : slice (lba * d.size) d.size d.bytes ≡ bytes = ground (arith, e) in
      (sym whole, ap length (sym whole) ∙ length-slice (lba * d.size) d.size d.bytes (omega arith))
]

-- A write either leaves the device alone, or overwrites its range.
data Written (lba : ℕ) (input : List ℕ) (d : MemoryBlockDevice)
    : Result StorageError Unit × MemoryBlockDevice → Type 0 where
  refused : (x : StorageError) → Written lba input d (err x, d)
  done :
      lba * d.size + length input ≤ length d.bytes
      → Written lba input d (ok tt, record d { bytes = splice (lba * d.size) input d.bytes })

write_sectors-Written :
    (lba : ℕ) (input : List ℕ) (d : MemoryBlockDevice)
    → Written lba input d (write_sectors lba input d)
unfolding write_sectors
write_sectors-Written lba input d =
    go d.is_read_only (range lba (length input) d)
      (λ start e. range_ok lba (length input) start d e)
  where
    go :
        (b : Bool) (r : Result StorageError ℕ)
        → ((start : ℕ)
            → r ≡ ok start
            → (start ≡ lba * d.size) × (start + length input ≤ length d.bytes))
        → Written lba input d (
            if b then (err StorageError.read_only, d) else elim r [
              | err e ↦ (err e, d)
              | ok start ↦ (ok tt, record d { bytes = splice start input d.bytes })
            ])
    go true r h = refused _
    go false (err x) h = refused x
    go false (ok start) h = let (same, fits) = h start refl in rw same (done (omega arith))

Written-puts :
    (lba : ℕ) (input : List ℕ) (d : MemoryBlockDevice)
    {out : Result StorageError Unit × MemoryBlockDevice}
    → Written lba input d out
    → length input ≡ d.size
    → out.0 ≡ ok tt
    → slice (lba * out.1.size) out.1.size out.1.bytes ≡ input
Written-puts lba input d (refused x) h e = absurd (ground arith)
Written-puts lba input d (done fits) h e =
    rw (← h) (slice-splice_self (lba * length input) input d.bytes (rw (← h) at fits))

Written-keeps :
    (lba : ℕ) (input : List ℕ) (d : MemoryBlockDevice) (j : ℕ)
    {out : Result StorageError Unit × MemoryBlockDevice}
    → Written lba input d out
    → length input ≡ d.size
    → j ≢ lba
    → slice (j * out.1.size) out.1.size out.1.bytes ≡ slice (j * d.size) d.size d.bytes
Written-keeps lba input d j (refused x) h ne = refl
Written-keeps lba input d j (done fits) h ne =
    slice-splice_apart (lba * d.size) (j * d.size) d.size input d.bytes fits
      (ground (arith, sectors_apart j lba d.size ne))

Written-size :
    (lba : ℕ) (input : List ℕ) (d : MemoryBlockDevice)
    {out : Result StorageError Unit × MemoryBlockDevice}
    → Written lba input d out
    → out.1.size ≡ d.size
Written-size lba input d (refused x) = refl
Written-size lba input d (done fits) = refl

pub memory_device-Sectors : Sectors memory_device
unfolding read_sectors
memory_device-Sectors = record {
  sector = λ d lba. slice (lba * d.size) d.size d.bytes;
  read_gives = read_gives;
  read_keeps = λ lba d j. refl;
  write_puts = λ lba bytes d h e. Written-puts lba bytes d (write_sectors-Written lba bytes d) h e;
  write_keeps =
      λ lba bytes d j h ne. Written-keeps lba bytes d j (write_sectors-Written lba bytes d) h ne;
  flush_keeps = λ d j. refl;
  read_size = λ lba d. refl;
  write_size = λ lba bytes d. Written-size lba bytes d (write_sectors-Written lba bytes d);
}

-- A transfer of one sector that lies on the device is given its range.
range_fits :
    (lba : ℕ) (d : MemoryBlockDevice)
    → 0 < d.size
    → lba * d.size + d.size ≤ length d.bytes
    → length d.bytes < 2 ^ 64
    → range lba d.size d ≡ ok (lba * d.size)
unfolding range
range_fits lba d pos fits small =
    let whole : d.size % d.size ≡ 0 = mod_self d.size in ground (arith, whole)

-- The memory device keeps the contract that the cache relies on, sector `lba` being the bytes from
-- `lba * size` on, `size` of them: a read of one sector that succeeds gives its bytes, a write of one
-- sector that succeeds puts them there, a write, also a failed one, changes no other sector, and reads and
-- flushes change nothing. With a sector that lies on the device, of fewer than 2 ^ 64 bytes, a read of it
-- succeeds with its bytes, and a write of it succeeds, or reports `ReadOnly` if the device is read-only.
pub memory_device_law :
    (d : MemoryBlockDevice) (lba : ℕ) (input : List ℕ)
    → 0 < d.size
    → lba * d.size + d.size ≤ length d.bytes
    → length d.bytes < 2 ^ 64
    → length input ≡ d.size
    → (law : Sectors memory_device) × ((e : MemoryBlockDevice) (j : ℕ)
        → law.sector e j ≡ slice (j * e.size) e.size e.bytes)
      × ((read_sectors lba d.size d).0 ≡ ok (law.sector d lba))
      × ((write_sectors lba input d).0
          ≡ (if d.is_read_only then err StorageError.read_only else ok tt))
unfolding memory_device-Sectors read_sectors write_sectors
memory_device_law d lba input pos fits small whole =
    let its = range_fits lba d pos fits small in
    (memory_device-Sectors, λ e j. refl, ground (arith, its), ground (arith, its, whole))
