-- ===== src/Nexfs/Superblock/Coding.antt =====
-- A superblock that is encoded is decoded to itself.
use nix_os.Prelude.{
  ℕ, ◌+◌, ◌^◌, ◌≤◌, ◌<◌, ◌≡◌, refl, ap, ◌∙◌, true, false, some, List, arith, length, slice, to_le,
  Ascends, field_at, bytes_eq, bytes_eq_refl, ltb, ok,
}
use nix_os.Nexfs.Layout.{get_le, is_sealed}
use nix_os.Nexfs.Layout.Fields.{
  sealed_fields, length-sealed_fields, above-sealed_fields, slice-sealed_fields,
  number-sealed_fields, is_sealed-sealed_fields,
}
use nix_os.Nexfs.Superblock.{
  Superblock, magic, superblock_writes, superblock_at, encode, decode, validate,
}

-- The values of a superblock fit the widths that they are stored in.
pub record IsSuperblock (s : Superblock) : Type 0 where
  pub version : s.version < 2 ^ 32
  pub block_size : s.block_size < 2 ^ 32
  pub total_blocks : s.total_blocks < 2 ^ 64
  pub inode_bitmap_block : s.inode_bitmap_block < 2 ^ 64
  pub block_bitmap_block : s.block_bitmap_block < 2 ^ 64
  pub inode_table_block : s.inode_table_block < 2 ^ 64
  pub data_start_block : s.data_start_block < 2 ^ 64
  pub root_inode : s.root_inode < 2 ^ 64
  pub flags : s.flags < 2 ^ 32
  pub generation : s.generation < 2 ^ 64
  pub uuid : length s.uuid ≡ 16

encode_lem :
    (s : Superblock) (output : List ℕ)
    → 4096 ≤ length output
    → encode s output ≡ ok (sealed_fields 4096 100 96 (superblock_writes s) output)
unfolding encode sealed_fields
encode_lem s output long =
    let enough : ltb (length output) 4096 ≡ false = ground arith in rw enough refl

decode_lem :
    (input : List ℕ) (s : Superblock)
    → 4096 ≤ length input
    → slice 0 8 input ≡ magic
    → is_sealed 100 96 input ≡ true
    → superblock_at input ≡ s
    → validate s ≡ ok tt
    → decode input ≡ ok s
unfolding decode
decode_lem input s long named sealed same valid =
    let enough : ltb (length input) 4096 ≡ false = ground arith in
    let is_magic : bytes_eq (slice 0 8 input) magic ≡ true =
      ap (λ bs. bytes_eq bs magic) named ∙ bytes_eq_refl magic in
    rw enough (rw is_magic (rw sealed (rw same (rw valid refl))))

superblock_writes-Ascends :
    (s : Superblock) → length s.uuid ≡ 16 → Ascends 0 100 (superblock_writes s)
unfolding superblock_writes to_le
superblock_writes-Ascends s h = omega arith

module _ (s : Superblock) (v : IsSuperblock s) (output : List ℕ) (long : 4096 ≤ length output) where
  written : List ℕ
  written = sealed_fields 4096 100 96 (superblock_writes s) output

  up : Ascends 0 100 (superblock_writes s)
  up = superblock_writes-Ascends s v.uuid

  number :
      (k start w value : ℕ)
      → field_at (superblock_writes s) k ≡ some (start, to_le w value)
      → start + w ≤ 96
      → value < 256 ^ w
      → get_le w written start ≡ value
  unfolding written
  number =
      number-sealed_fields 4096 100 96 (superblock_writes s) output up (omega arith) (omega arith)
        long

  range :
      (k start w : ℕ) (input : List ℕ)
      → field_at (superblock_writes s) k ≡ some (start, input)
      → length input ≡ w
      → start + w ≤ 96
      → slice start w written ≡ input
  unfolding written
  range =
      slice-sealed_fields 4096 100 96 (superblock_writes s) output up (omega arith) (omega arith)
        long

  superblock_at-written : superblock_at written ≡ s
  unfolding superblock_at superblock_writes
  superblock_at-written = λ j. record {
    version = number 1 8 4 s.version refl (omega arith) (omega (arith, v.version)) j;
    block_size = number 2 12 4 s.block_size refl (omega arith) (omega (arith, v.block_size)) j;
    total_blocks =
        number 3 16 8 s.total_blocks refl (omega arith) (omega (arith, v.total_blocks)) j;
    inode_bitmap_block =
        number 4 24 8 s.inode_bitmap_block refl (omega arith) (omega (arith, v.inode_bitmap_block))
          j;
    block_bitmap_block =
        number 5 32 8 s.block_bitmap_block refl (omega arith) (omega (arith, v.block_bitmap_block))
          j;
    inode_table_block =
        number 6 40 8 s.inode_table_block refl (omega arith) (omega (arith, v.inode_table_block)) j;
    data_start_block =
        number 7 48 8 s.data_start_block refl (omega arith) (omega (arith, v.data_start_block)) j;
    root_inode = number 8 56 8 s.root_inode refl (omega arith) (omega (arith, v.root_inode)) j;
    flags = number 9 64 4 s.flags refl (omega arith) (omega (arith, v.flags)) j;
    generation = number 10 72 8 s.generation refl (omega arith) (omega (arith, v.generation)) j;
    uuid = range 11 80 16 s.uuid refl v.uuid (omega arith) j;
  }

  length-written : length written ≡ length output
  unfolding written
  length-written =
      length-sealed_fields 4096 100 96 (superblock_writes s) output up (omega arith) (omega arith)
        long

  above-written : (k : ℕ) → slice 4096 k written ≡ slice 4096 k output
  unfolding written
  above-written =
      above-sealed_fields 4096 100 96 (superblock_writes s) output up (omega arith) (omega arith)
        long

  decode-written : validate s ≡ ok tt → decode written ≡ ok s
  unfolding written superblock_writes
  decode-written valid =
      decode_lem written s (omega (arith, length-written, long))
        (range 0 0 8 magic refl refl (omega arith))
        (is_sealed-sealed_fields 4096 100 96 (superblock_writes s) output up (omega arith)
          (omega arith) long 12 refl)
        superblock_at-written valid

  encode-written : encode s output ≡ ok written
  unfolding written
  encode-written = encode_lem s output long

-- A superblock that `validate` accepts and whose values fit their widths is encoded into any buffer of
-- a block or more, and what is written is decoded to the same superblock; the buffer keeps its length
-- and all that follows the block.
pub decode-encode :
    (s : Superblock) (output : List ℕ)
    → IsSuperblock s
    → validate s ≡ ok tt
    → 4096 ≤ length output
    → (written : List ℕ) × (encode s output ≡ ok written)
      × (length written ≡ length output)
      × ((k : ℕ) → slice 4096 k written ≡ slice 4096 k output)
      × (decode written ≡ ok s)
decode-encode s output v valid long = (
  written s v output long,
  encode-written s v output long,
  length-written s v output long,
  above-written s v output long,
  decode-written s v output long valid,
)
