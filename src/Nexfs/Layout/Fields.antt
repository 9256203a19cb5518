-- ===== src/Nexfs/Layout/Fields.antt =====
-- A structure that is written field by field over a cleared buffer and then sealed.
use nix_os.Prelude.{
  ℕ, ◌+◌, ◌^◌, ◌≤◌, ◌<◌, ◌≡◌, inl, inr, sym, ap, ◌∙◌, true, some, List, [], ◌∷◌, arith, length,
  get_or, drop, slice, to_le, from_le, length-to_le, from_le-to_le, write_all, Ascends, field_at,
  length-write_all, slice-write_all, slice-write_all_above, get_or-take, get_or-drop,
}
use nix_os.Nexfs.Layout.{seal, is_sealed, cleared, get_le}
use nix_os.Nexfs.Layout.Seal.{
  length-seal, slice-seal, is_sealed-seal, length-cleared, slice-cleared,
}

-- one byte of a range
pub byte_at : (start v : ℕ) (bs : List ℕ) → slice start 1 bs ≡ v ∷ [] → get_or bs start 0 ≡ v
byte_at start v bs h =
    let same : start + 0 ≡ start = omega arith in
    ap (λ k. get_or bs k 0) (sym same)
    ∙ sym (get_or-drop 0 start bs 0)
    ∙ sym (get_or-take 0 1 (drop start bs) 0)
    ∙ ap (λ xs. get_or xs 0 0) h

-- The buffer that an `encode` leaves: `size` bytes are cleared, the fields `fs` are written, and the
-- checksum of the first `n` bytes is put.
unfoldable pub sealed_fields : ℕ → ℕ → ℕ → List (ℕ × List ℕ) → List ℕ → List ℕ
sealed_fields size n offset fs output = seal n offset (write_all fs (cleared size output))

module _ (size n offset : ℕ) (fs : List (ℕ × List ℕ)) (output : List ℕ) (up : Ascends 0 n fs)
    (inside : offset + 4 ≤ n) (within : n ≤ size) (fits : size ≤ length output) where
  body : List ℕ
  body = write_all fs (cleared size output)

  length-body : length body ≡ length output
  unfolding body
  length-body =
      length-write_all 0 n fs (cleared size output) up
        (omega (arith, length-cleared size output fits))
      ∙ length-cleared size output fits

  wide : n ≤ length body
  wide = omega (arith, length-body)

  pub length-sealed_fields : length (sealed_fields size n offset fs output) ≡ length output
  unfolding sealed_fields body
  length-sealed_fields = length-seal n offset body inside wide ∙ length-body

  pub above-sealed_fields :
      (k : ℕ) → slice size k (sealed_fields size n offset fs output) ≡ slice size k output
  unfolding sealed_fields body
  above-sealed_fields k =
      slice-seal n offset body inside wide size k (inr (omega arith))
      ∙ slice-write_all_above 0 n size k fs (cleared size output) up
          (omega (arith, length-cleared size output fits)) (omega arith)
      ∙ slice-cleared size size k output fits (omega arith)

  field :
      (k start : ℕ) (input : List ℕ)
      → field_at fs k ≡ some (start, input)
      → slice start (length input) body ≡ input
  unfolding body
  field k start input e =
      slice-write_all 0 n k start input fs (cleared size output) up
        (omega (arith, length-cleared size output fits)) e

  -- Each field below the checksum is read back.
  pub slice-sealed_fields :
      (k start w : ℕ) (input : List ℕ)
      → field_at fs k ≡ some (start, input)
      → length input ≡ w
      → start + w ≤ offset
      → slice start w (sealed_fields size n offset fs output) ≡ input
  unfolding sealed_fields body
  slice-sealed_fields k start w input e whole below =
      slice-seal n offset body inside wide start w (inl below) ∙ rw whole at (field k start input e)

  pub number-sealed_fields :
      (k start w value : ℕ)
      → field_at fs k ≡ some (start, to_le w value)
      → start + w ≤ offset
      → value < 256 ^ w
      → get_le w (sealed_fields size n offset fs output) start ≡ value
  number-sealed_fields k start w value e below small =
      ap from_le (slice-sealed_fields k start w (to_le w value) e (length-to_le w value) below)
      ∙ from_le-to_le w value small

  pub byte-sealed_fields :
      (k start value : ℕ)
      → field_at fs k ≡ some (start, value ∷ [])
      → start + 1 ≤ offset
      → get_or (sealed_fields size n offset fs output) start 0 ≡ value
  byte-sealed_fields k start value e below =
      byte_at start value (sealed_fields size n offset fs output)
        (slice-sealed_fields k start 1 (value ∷ []) e (omega arith) below)

  pub is_sealed-sealed_fields :
      (k : ℕ)
      → field_at fs k ≡ some (offset, to_le 4 0)
      → is_sealed n offset (sealed_fields size n offset fs output) ≡ true
  unfolding sealed_fields body
  is_sealed-sealed_fields k e =
      is_sealed-seal n offset body inside wide
        (rw (length-to_le 4 0) at (field k offset (to_le 4 0) e))
