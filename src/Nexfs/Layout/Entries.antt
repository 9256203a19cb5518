-- ===== src/Nexfs/Layout/Entries.antt =====
-- A directory entry that is encoded is decoded to itself.
use nix_os.Prelude.{
  ℕ, ◌^◌, ◌≤◌, ◌<◌, ◌≡◌, refl, Bool, true, false, ◌||◌, List, arith, length, get_or, slice, to_le,
  Ascends, ltb, ◌==◌, ok,
}
use nix_os.Nexfs.Layout.{
  FileType, type_code, decode_type, DirectoryEntry, validate_name, entry_writes, encode_entry,
  decode_entry, get_le, is_sealed,
}
use nix_os.Nexfs.Layout.Fields.{
  sealed_fields, length-sealed_fields, above-sealed_fields, slice-sealed_fields,
  number-sealed_fields, byte-sealed_fields, is_sealed-sealed_fields,
}

-- A name that is valid has 1 to 240 bytes.
valid_name_length :
    (name : List ℕ) → validate_name name ≡ ok tt → (0 < length name) × (length name ≤ 240)
unfolding validate_name
valid_name_length name h = ground arith

decode_type-type_code : (kind : FileType) → decode_type (type_code kind) ≡ ok kind
unfolding decode_type
decode_type-type_code FileType.regular = refl
decode_type-type_code FileType.directory = refl

encode_entry_lem :
    (e : DirectoryEntry) (output : List ℕ)
    → validate_name e.name ≡ ok tt
    → 256 ≤ length output
    → encode_entry e output ≡ ok (sealed_fields 256 256 252 (entry_writes e) output)
unfolding encode_entry sealed_fields
encode_entry_lem e output valid long =
    let short : ltb 255 (length e.name) ≡ false = ground (arith, valid_name_length e.name valid) in
    let enough : ltb (length output) 256 ≡ false = ground arith in
    rw valid (rw enough (rw short refl))

-- A buffer that holds the fields of an entry is decoded to it.
decode_entry_lem :
    (is_utf8 : List ℕ → Bool) (input : List ℕ) (e : DirectoryEntry)
    → 256 ≤ length input
    → is_sealed 256 252 input ≡ true
    → get_le 8 input 0 ≡ e.inode
    → 0 < e.inode
    → get_or input 9 0 ≡ length e.name
    → slice 12 (length e.name) input ≡ e.name
    → get_or input 8 0 ≡ type_code e.kind
    → is_utf8 e.name ≡ true
    → validate_name e.name ≡ ok tt
    → decode_entry is_utf8 input ≡ ok e
unfolding decode_entry
decode_entry_lem is_utf8 input e long sealed inode pos size name code utf8 valid =
    let enough : ltb (length input) 256 ≡ false = ground arith in
    let used : (e.inode == 0) ≡ false = ground arith in
    let sizes : (length e.name == 0 || ltb 240 (length e.name)) ≡ false =
      ground (arith, valid_name_length e.name valid) in
    let known : decode_type (type_code e.kind) ≡ ok e.kind = decode_type-type_code e.kind in
    rw enough (
      rw sealed (
        rw inode
          (rw used (rw size (rw sizes (rw name (rw utf8 (rw valid (rw code (rw known refl))))))))))

entry_writes-Ascends : (e : DirectoryEntry) → length e.name ≤ 240 → Ascends 0 256 (entry_writes e)
unfolding entry_writes to_le
entry_writes-Ascends e short = omega arith

-- A directory entry with a valid name and an inode number that is not 0 is encoded into any buffer of
-- 256 bytes or more, and what is written is decoded to the same entry; the buffer keeps its length and
-- all that follows the 256 bytes.
pub decode-encode_entry :
    (is_utf8 : List ℕ → Bool) (e : DirectoryEntry) (output : List ℕ)
    → validate_name e.name ≡ ok tt
    → is_utf8 e.name ≡ true
    → 0 < e.inode
    → e.inode < 2 ^ 64
    → 256 ≤ length output
    → (written : List ℕ) × (encode_entry e output ≡ ok written)
      × (length written ≡ length output)
      × ((k : ℕ) → slice 256 k written ≡ slice 256 k output)
      × (decode_entry is_utf8 written ≡ ok e)
unfolding entry_writes
decode-encode_entry is_utf8 e output valid utf8 pos small long = (
  sealed_fields 256 256 252 fs output,
  encode_entry_lem e output valid long,
  length-sealed_fields 256 256 252 fs output up (omega arith) (omega arith) long,
  above-sealed_fields 256 256 252 fs output up (omega arith) (omega arith) long,
  decode_entry_lem is_utf8 (sealed_fields 256 256 252 fs output) e
      (omega
        (arith, length-sealed_fields 256 256 252 fs output up (omega arith) (omega arith) long))
      (is_sealed-sealed_fields 256 256 252 fs output up (omega arith) (omega arith) long 4 refl)
      (number-sealed_fields 256 256 252 fs output up (omega arith) (omega arith) long 0 0 8 e.inode
        refl (omega arith) (omega arith))
      pos
      (byte-sealed_fields 256 256 252 fs output up (omega arith) (omega arith) long 2 9
        (length e.name) refl (omega arith))
      (slice-sealed_fields 256 256 252 fs output up (omega arith) (omega arith) long 3 12
        (length e.name) e.name refl refl (omega (arith, valid_name_length e.name valid)))
      (byte-sealed_fields 256 256 252 fs output up (omega arith) (omega arith) long 1 8
        (type_code e.kind) refl (omega arith))
      utf8 valid,
)
  where
    fs : List (ℕ × List ℕ)
    fs = entry_writes e

    up : Ascends 0 256 fs
    up = entry_writes-Ascends e (valid_name_length e.name valid).1
