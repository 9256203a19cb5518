-- ===== src/Nexfs/Layout/Inodes.antt =====
-- An inode that is encoded is decoded to itself.
use nix_os.Prelude.{
  ℕ, suc, ◌+◌, ◌*◌, ◌^◌, ◌≤◌, ◌<◌, ◌≡◌, refl, sym, ap, ◌∙◌, inl, inr, true, false, not, ◌||◌, some,
  List, [], ◌∷◌, ◌++◌, arith, length, take, drop, get_or, length-append, slice, splice, to_le,
  from_le, length-to_le, from_le-to_le, length-splice, splice-splice_next, splice-slice,
  get_or-take, get_or-drop, write_all, Ascends, field_at, length-write_all, slice-write_all,
  slice-write_all_above, take-take, drop-drop, drop-take, take-append, drop-append, bytes_eq,
  bytes_eq_refl, ltb, ok,
}
use mathlib.Core.Path.{ap₂}
use nix_os.Nexfs.Layout.{
  FileType, type_code, decode_type, Inode, inode_magic, get_le, seal, is_sealed, block_writes,
  get_blocks, inode_writes, encode_inode, decode_inode, inode_at, cleared,
}
use nix_os.Nexfs.Layout.Seal.{
  length-cleared, slice-cleared, length-seal, slice-seal, is_sealed-seal,
}

-- the blocks' bytes, one after another
blocks_bytes : List ℕ → List ℕ
blocks_bytes [] = []
blocks_bytes (b ∷ bs) = to_le 8 b ++ blocks_bytes bs

length-blocks_bytes : (blocks : List ℕ) → length (blocks_bytes blocks) ≡ 8 * length blocks
unfolding blocks_bytes
length-blocks_bytes [] = omega arith
length-blocks_bytes (b ∷ bs) =
    omega
      (arith, length-append (to_le 8 b) (blocks_bytes bs), length-to_le 8 b, length-blocks_bytes bs)

splice_nothing : (start : ℕ) (bs : List ℕ) → start ≤ length bs → splice start [] bs ≡ bs
splice_nothing start bs h = splice-slice start [] bs (omega arith) refl

-- The loop over the direct blocks writes one range.
write_all-block_writes :
    (start : ℕ) (blocks bs : List ℕ)
    → start + 8 * length blocks ≤ length bs
    → write_all (block_writes start blocks) bs ≡ splice start (blocks_bytes blocks) bs
unfolding block_writes blocks_bytes
write_all-block_writes start [] bs h = sym (splice_nothing start bs (omega arith))
write_all-block_writes start (b ∷ blocks) bs h =
    let fit : start + length (to_le 8 b) ≤ length bs = omega (arith, length-to_le 8 b) in
    let same : length (splice start (to_le 8 b) bs) ≡ length bs =
      length-splice start (to_le 8 b) bs fit in
    write_all-block_writes (start + 8) blocks (splice start (to_le 8 b) bs) (omega arith)
    ∙ splice-splice_next start (start + 8) (to_le 8 b) (blocks_bytes blocks) bs
        (omega (arith, length-to_le 8 b)) (omega (arith, length-blocks_bytes blocks))

write_all-append :
    (fs gs : List (ℕ × List ℕ)) (bs : List ℕ)
    → write_all (fs ++ gs) bs ≡ write_all gs (write_all fs bs)
write_all-append [] gs bs = refl
write_all-append ((start, input) ∷ fs) gs bs = write_all-append fs gs (splice start input bs)

-- The reading loop gives the blocks back.
get_blocks-slice :
    (start : ℕ) (blocks input : List ℕ)
    → ((k : ℕ) → k < length blocks → get_or blocks k 0 < 2 ^ 64)
    → slice start (8 * length blocks) input ≡ blocks_bytes blocks
    → get_blocks (length blocks) start input ≡ blocks
unfolding get_blocks blocks_bytes
get_blocks-slice start [] input small h = refl
get_blocks-slice start (b ∷ blocks) input small h =
    let size : 8 * length (b ∷ blocks) ≡ 8 + 8 * length blocks = omega arith in
    let h' : take (8 + 8 * length blocks) (drop start input) ≡ to_le 8 b ++ blocks_bytes blocks =
      rw size at h in
    let first : slice start 8 input ≡ to_le 8 b =
      sym (take-take 8 (8 + 8 * length blocks) (drop start input) (omega arith))
      ∙ ap (take 8) h'
      ∙ take-append (to_le 8 b) (blocks_bytes blocks) 8 (sym (length-to_le 8 b)) in
    let rest : slice (start + 8) (8 * length blocks) input ≡ blocks_bytes blocks =
      ap (take (8 * length blocks)) (sym (drop-drop 8 start input))
      ∙ sym (drop-take 8 (8 * length blocks) (drop start input))
      ∙ ap (drop 8) h'
      ∙ drop-append (to_le 8 b) (blocks_bytes blocks) 8 (sym (length-to_le 8 b)) in
    ap₂ ◌∷◌ (ap from_le first ∙ from_le-to_le 8 b (omega (arith, small 0 (omega arith))))
      (get_blocks-slice (start + 8) blocks input (λ k lt. small (suc k) (omega arith)) rest)

-- one byte of a range
byte_at : (start v : ℕ) (bs : List ℕ) → slice start 1 bs ≡ v ∷ [] → get_or bs start 0 ≡ v
byte_at start v bs h =
    let same : start + 0 ≡ start = omega arith in
    ap (λ k. get_or bs k 0) (sym same)
    ∙ sym (get_or-drop 0 start bs 0)
    ∙ sym (get_or-take 0 1 (drop start bs) 0)
    ∙ ap (λ xs. get_or xs 0 0) h

-- The values of an inode fit the widths that they are stored in.
pub record IsInode (i : Inode) : Type 0 where
  pub permissions : i.permissions < 2 ^ 16
  pub size : i.size < 2 ^ 64
  pub created : i.created < 2 ^ 64
  pub modified : i.modified < 2 ^ 64
  pub twelve : length i.direct_blocks ≡ 12
  pub direct_blocks : (k : ℕ) → k < 12 → get_or i.direct_blocks k 0 < 2 ^ 64
  pub indirect_block : i.indirect_block < 2 ^ 64
  pub block_count : i.block_count < 2 ^ 64
  pub generation : i.generation < 2 ^ 64

-- the writes with those of the direct blocks as one
inode_ranges : Inode → List (ℕ × List ℕ)
inode_ranges i =
    (0, inode_magic)
    ∷ (4, type_code i.kind ∷ [])
    ∷ (6, to_le 2 i.permissions)
    ∷ (8, to_le 8 i.size)
    ∷ (16, to_le 8 i.created)
    ∷ (24, to_le 8 i.modified)
    ∷ (32, blocks_bytes i.direct_blocks)
    ∷ (128, to_le 8 i.indirect_block)
    ∷ (136, to_le 8 i.block_count)
    ∷ (144, to_le 8 i.generation)
    ∷ (252, to_le 4 0)
    ∷ []

module _ (i : Inode) (v : IsInode i) (blank : List ℕ) (long : 256 ≤ length blank) where
  inode_ranges-Ascends : Ascends 0 256 (inode_ranges i)
  unfolding inode_ranges to_le
  inode_ranges-Ascends = omega (arith, length-blocks_bytes i.direct_blocks, v.twelve)

  body : List ℕ
  body = write_all (inode_ranges i) blank

  length-body : length body ≡ length blank
  unfolding body
  length-body = length-write_all 0 256 (inode_ranges i) blank inode_ranges-Ascends long

  body_above : (k : ℕ) → slice 256 k body ≡ slice 256 k blank
  unfolding body
  body_above k =
      slice-write_all_above 0 256 256 k (inode_ranges i) blank inode_ranges-Ascends long
        (omega arith)

  range :
      (k start : ℕ) (input : List ℕ)
      → field_at (inode_ranges i) k ≡ some (start, input)
      → slice start (length input) body ≡ input
  unfolding body
  range k start input e =
      slice-write_all 0 256 k start input (inode_ranges i) blank inode_ranges-Ascends long e

  -- a range of the sealed inode below its checksum
  stored :
      (k start n : ℕ) (input : List ℕ)
      → field_at (inode_ranges i) k ≡ some (start, input)
      → length input ≡ n
      → start + n ≤ 252
      → slice start n (seal 256 252 body) ≡ input
  stored k start n input e size below =
      slice-seal 256 252 body (omega arith) (omega (arith, length-body)) start n (inl below)
      ∙ rw size at (range k start input e)

decode_type-type_code : (kind : FileType) → decode_type (type_code kind) ≡ ok kind
unfolding decode_type
decode_type-type_code FileType.regular = refl
decode_type-type_code FileType.directory = refl

decode_inode_lem :
    (input : List ℕ) (kind : FileType)
    → 256 ≤ length input
    → slice 0 4 input ≡ inode_magic
    → is_sealed 256 252 input ≡ true
    → get_or input 4 0 ≡ type_code kind
    → decode_inode input ≡ ok (inode_at kind input)
unfolding decode_inode
decode_inode_lem input kind long magic sealed code =
    let named : bytes_eq (slice 0 4 input) inode_magic ≡ true =
      ap (λ bs. bytes_eq bs inode_magic) magic ∙ bytes_eq_refl inode_magic in
    let known : decode_type (get_or input 4 0) ≡ ok kind =
      ap decode_type code ∙ decode_type-type_code kind in
    let enough : (ltb (length input) 256 || not (bytes_eq (slice 0 4 input) inode_magic)) ≡ false =
      rw named (ground arith) in
    rw enough (rw sealed (rw known refl))

inode_at-eq :
    (input : List ℕ) (i : Inode)
    → get_le 2 input 6 ≡ i.permissions
    → get_le 8 input 8 ≡ i.size
    → get_le 8 input 16 ≡ i.created
    → get_le 8 input 24 ≡ i.modified
    → get_blocks 12 32 input ≡ i.direct_blocks
    → get_le 8 input 128 ≡ i.indirect_block
    → get_le 8 input 136 ≡ i.block_count
    → get_le 8 input 144 ≡ i.generation
    → inode_at i.kind input ≡ i
unfolding inode_at
inode_at-eq input i a b c d e f g h = λ j. record {
  kind = i.kind;
  permissions = a j;
  size = b j;
  created = c j;
  modified = d j;
  direct_blocks = e j;
  indirect_block = f j;
  block_count = g j;
  generation = h j;
}

get_le_stored :
    (width start value : ℕ) (input : List ℕ)
    → slice start width input ≡ to_le width value
    → value < 256 ^ width
    → get_le width input start ≡ value
get_le_stored width start value input h small = ap from_le h ∙ from_le-to_le width value small

module _ (i : Inode) (v : IsInode i) (blank : List ℕ) (long : 256 ≤ length blank) where
  out : List ℕ
  out = seal 256 252 (body i v blank long)

  number :
      (k start n value : ℕ)
      → field_at (inode_ranges i) k ≡ some (start, to_le n value)
      → start + n ≤ 252
      → value < 256 ^ n
      → get_le n out start ≡ value
  unfolding out
  number k start n value e below small =
      get_le_stored n start value out
        (stored i v blank long k start n (to_le n value) e (length-to_le n value) below) small

  decode-sealed : decode_inode out ≡ ok i
  unfolding out inode_ranges
  decode-sealed =
      decode_inode_lem out i.kind
        (omega (
          arith,
          length-seal 256 252 (body i v blank long) (omega arith)
              (omega (arith, length-body i v blank long)),
          length-body i v blank long,
        ))
        (stored i v blank long 0 0 4 inode_magic refl refl (omega arith))
        (is_sealed-seal 256 252 (body i v blank long) (omega arith)
          (omega (arith, length-body i v blank long))
          (rw (length-to_le 4 0) at (range i v blank long 10 252 (to_le 4 0) refl)))
        (byte_at 4 (type_code i.kind) out
          (stored i v blank long 1 4 1 (type_code i.kind ∷ []) refl refl (omega arith)))
      ∙ ap ok (
          inode_at-eq out i
            (number 2 6 2 i.permissions refl (omega arith) (omega (arith, v.permissions)))
            (number 3 8 8 i.size refl (omega arith) (omega (arith, v.size)))
            (number 4 16 8 i.created refl (omega arith) (omega (arith, v.created)))
            (number 5 24 8 i.modified refl (omega arith) (omega (arith, v.modified))) blocks
            (number 7 128 8 i.indirect_block refl (omega arith) (omega (arith, v.indirect_block)))
            (number 8 136 8 i.block_count refl (omega arith) (omega (arith, v.block_count)))
            (number 9 144 8 i.generation refl (omega arith) (omega (arith, v.generation))))
    where
      held : slice 32 (8 * length i.direct_blocks) out ≡ blocks_bytes i.direct_blocks
      held =
          stored i v blank long 6 32 (8 * length i.direct_blocks) (blocks_bytes i.direct_blocks)
            refl (length-blocks_bytes i.direct_blocks) (omega (arith, v.twelve))

      blocks : get_blocks 12 32 out ≡ i.direct_blocks
      blocks =
          ap (λ n. get_blocks n 32 out) (sym v.twelve)
          ∙ get_blocks-slice 32 i.direct_blocks out
              (λ k lt. v.direct_blocks k (omega (arith, v.twelve))) held

-- Writing the blocks one by one or at once is the same, among other writes.
write_all-blocks :
    (before after : List (ℕ × List ℕ)) (blocks bs : List ℕ)
    → 32 + 8 * length blocks ≤ length (write_all before bs)
    → write_all (before ++ (block_writes 32 blocks ++ after)) bs
      ≡ write_all (before ++ ((32, blocks_bytes blocks) ∷ after)) bs
write_all-blocks before after blocks bs fits =
    write_all-append before (block_writes 32 blocks ++ after) bs
    ∙ write_all-append (block_writes 32 blocks) after (write_all before bs)
    ∙ ap (write_all after) (write_all-block_writes 32 blocks (write_all before bs) fits)
    ∙ sym (write_all-append before ((32, blocks_bytes blocks) ∷ after) bs)

-- the writes before the blocks, and after
writes_before : Inode → List (ℕ × List ℕ)
writes_before i =
    (0, inode_magic)
    ∷ (4, type_code i.kind ∷ [])
    ∷ (6, to_le 2 i.permissions)
    ∷ (8, to_le 8 i.size)
    ∷ (16, to_le 8 i.created)
    ∷ (24, to_le 8 i.modified)
    ∷ []

writes_after : Inode → List (ℕ × List ℕ)
writes_after i =
    (128, to_le 8 i.indirect_block)
    ∷ (136, to_le 8 i.block_count)
    ∷ (144, to_le 8 i.generation)
    ∷ (252, to_le 4 0)
    ∷ []

writes_split :
    (i : Inode)
    → (inode_writes i ≡ writes_before i ++ (block_writes 32 i.direct_blocks ++ writes_after i))
      × (inode_ranges i ≡ writes_before i ++ ((32, blocks_bytes i.direct_blocks) ∷ writes_after i))
unfolding inode_writes inode_ranges writes_before writes_after
writes_split i = (refl, refl)

writes_before-Ascends : (i : Inode) → Ascends 0 32 (writes_before i)
unfolding writes_before to_le
writes_before-Ascends i = omega arith

module _ (i : Inode) (v : IsInode i) (blank : List ℕ) (long : 256 ≤ length blank) where
  same_body : write_all (inode_writes i) blank ≡ body i v blank long
  unfolding body
  same_body =
      ap (λ fs. write_all fs blank) (writes_split i).0
      ∙ write_all-blocks (writes_before i) (writes_after i) i.direct_blocks blank (
          omega (
            arith,
            length-write_all 0 32 (writes_before i) blank (writes_before-Ascends i) (omega arith),
            v.twelve,
          ))
      ∙ ap (λ fs. write_all fs blank) (sym (writes_split i).1)

encode_inode_lem :
    (i : Inode) (output : List ℕ)
    → 256 ≤ length output
    → encode_inode i output ≡ ok (seal 256 252 (write_all (inode_writes i) (cleared 256 output)))
unfolding encode_inode
encode_inode_lem i output long =
    let enough : ltb (length output) 256 ≡ false = ground arith in rw enough refl

-- An inode whose values fit their widths is encoded into any buffer of 256 bytes or more, and what is
-- written is decoded to the same inode; the buffer keeps its length and all that follows the 256 bytes.
pub decode-encode_inode :
    (i : Inode) (output : List ℕ)
    → IsInode i
    → 256 ≤ length output
    → (written : List ℕ) × (encode_inode i output ≡ ok written)
      × (length written ≡ length output)
      × ((k : ℕ) → slice 256 k written ≡ slice 256 k output)
      × (decode_inode written ≡ ok i)
unfolding out
decode-encode_inode i output v long = (
  written,
  encode_inode_lem i output long ∙ ap (λ b. ok (seal 256 252 b)) (same_body i v blank wide),
  length-seal 256 252 inner (omega arith) fits ∙ whole ∙ length-cleared 256 output long,
  λ k.
      slice-seal 256 252 inner (omega arith) fits 256 k (inr (omega arith))
      ∙ body_above i v blank wide k
      ∙ slice-cleared 256 256 k output long (omega arith),
  decode-sealed i v blank wide,
)
  where
    blank : List ℕ
    blank = cleared 256 output

    wide : 256 ≤ length blank
    wide = omega (arith, length-cleared 256 output long)

    inner : List ℕ
    inner = body i v blank wide

    whole : length inner ≡ length blank
    whole = length-body i v blank wide

    fits : 256 ≤ length inner
    fits = omega (arith, whole, wide)

    written : List ℕ
    written = out i v blank wide
