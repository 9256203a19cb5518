-- ===== src/Storage/Partition/Table/Checksum.antt =====
-- The checksum of a GPT header is the CRC of the header with its checksum field cleared.
use nix_os.Prelude.{
  ℕ, zero, suc, ◌+◌, ◌-◌, ◌≤◌, ◌<◌, ◌≡◌, refl, ap, ◌∙◌, ◌&&◌, List, [], ◌∷◌, arith, ltb, leb,
  if◌then◌else◌, length, get_or, splice, list_ext, get_or-splice, length-splice,
}
use Prim.Native.Nat.{bit_xor}
use nix_os.Storage.Device.{crc_bits, crc_bytes, crc32}
use nix_os.Storage.Partition.Table.{gpt_crc_bytes, gpt_header_crc32}

-- the bytes from `index` on, as the loop takes them
masked : ℕ → List ℕ → List ℕ
masked index [] = []
masked index (byte ∷ bytes) =
    (if leb 16 index && ltb index 20 then 0 else byte) ∷ masked (index + 1) bytes

gpt_crc_bytes-masked :
    (index crc : ℕ) (bytes : List ℕ)
    → gpt_crc_bytes index crc bytes ≡ crc_bytes crc (masked index bytes)
unfolding gpt_crc_bytes masked crc_bytes
gpt_crc_bytes-masked index crc [] = refl
gpt_crc_bytes-masked index crc (byte ∷ bytes) =
    gpt_crc_bytes-masked (index + 1)
      (crc_bits 8 (bit_xor crc (if leb 16 index && ltb index 20 then 0 else byte))) bytes

length-masked : (index : ℕ) (bytes : List ℕ) → length (masked index bytes) ≡ length bytes
unfolding masked
length-masked index [] = refl
length-masked index (byte ∷ bytes) = ap suc (length-masked (index + 1) bytes)

get_or-masked :
    (index : ℕ) (bytes : List ℕ) (j : ℕ)
    → j < length bytes
    → get_or (masked index bytes) j 0
      ≡ (if leb 16 (index + j) && ltb (index + j) 20 then 0 else get_or bytes j 0)
unfolding masked
get_or-masked index [] j lt = absurd (omega arith)
get_or-masked index (byte ∷ bytes) zero lt = ground arith
get_or-masked index (byte ∷ bytes) (suc j) lt =
    ground (arith, get_or-masked (index + 1) bytes j (omega arith))

blank : List ℕ
blank = 0 ∷ 0 ∷ 0 ∷ 0 ∷ []

get_or-blank : (k : ℕ) → get_or blank k 0 ≡ 0
unfolding blank
get_or-blank k = ground arith

length-blank : length blank ≡ 4
unfolding blank
length-blank = refl

masked-splice : (bytes : List ℕ) → 20 ≤ length bytes → masked 0 bytes ≡ splice 16 blank bytes
masked-splice bytes long =
    list_ext 0 (masked 0 bytes) (splice 16 blank bytes)
      (length-masked 0 bytes ∙ omega (arith, length-splice 16 blank bytes fits))
      (λ j lt. ground (
        arith,
        get_or-masked 0 bytes j (omega (arith, length-masked 0 bytes)),
        get_or-splice 16 blank bytes j fits,
        get_or-blank (j - 16),
        length-blank,
      ))
  where
    fits : 16 + length blank ≤ length bytes
    fits = omega (arith, length-blank)

-- The checksum that `gpt_header_crc32` computes of 20 bytes or more, in one pass, is the `crc32` of the
-- same bytes with the four bytes from 16 on set to 0.
pub gpt_header_crc32-crc32 :
    (bytes : List ℕ)
    → 20 ≤ length bytes
    → gpt_header_crc32 bytes ≡ crc32 (splice 16 (0 ∷ 0 ∷ 0 ∷ 0 ∷ []) bytes)
unfolding gpt_header_crc32 crc32 blank
gpt_header_crc32-crc32 bytes long =
    ap (λ crc. 0xffff_ffff - crc)
      (gpt_crc_bytes-masked 0 0xffff_ffff bytes
        ∙ ap (crc_bytes 0xffff_ffff) (masked-splice bytes long))
