-- ===== src/Nexfs/Blocks/Claims.antt =====
-- The blocks that an inode claims are its own.
use nix_os.Prelude.{
  ℕ, zero, suc, inl, inr, ◌+◌, ◌≤◌, ◌<◌, ◌≡◌, ◌≢◌, ◌⊎◌, refl, sym, ap, ◌∙◌, true, false, List, [],
  ◌∷◌, arith, length, get_or, set, get_or-set, length-set, ok, Result-cases,
}
use native.Mathlib.Decide.{dec_lt}
use nix_os.Nexfs.Superblock.{Superblock}
use nix_os.Nexfs.Blocks.{own, claim_data_block, claim_pointer, claim_pointers, bitmap_bit}

module _ (s : Superblock) (bitmap : List ℕ) where
  -- A block that the inode may take: in the data part of the volume and marked as used.
  pub record IsData (block : ℕ) : Type 0 where
    pub lower : s.data_start_block ≤ block
    pub upper : block < s.total_blocks
    pub used : bitmap_bit bitmap block ≡ ok true

  own_lem :
      (owners owners' : List ℕ) (block : ℕ)
      → own owners block ≡ ok owners'
      → (block < length owners) × (get_or owners block 0 ≡ 0) × (owners' ≡ set owners block 2)
  unfolding own
  own_lem owners owners' block h = ground arith

  claim_data_block-IsData :
      (owners owners' : List ℕ) (block : ℕ)
      → claim_data_block s bitmap owners block ≡ ok owners'
      → IsData block × (own owners block ≡ ok owners')
  unfolding claim_data_block
  claim_data_block-IsData owners owners' block h = elim (Result-cases (bitmap_bit bitmap block)) [
    | inr (e, f) ↦ absurd (ground arith)
    | inl (false, f) ↦ absurd (ground arith)
    | inl (true, f) ↦
        (record { lower = ground arith; upper = ground arith; used = f }, ground arith)
  ]

  -- What the loop over `pointers` has done to the owners when it has ended well.
  pub record Claimed (count index : ℕ) (pointers owners owners' : List ℕ) : Type 0 where
    pub size : length owners' ≡ length owners
    pub taken :
        (i : ℕ)
        → i < length pointers
        → index + i < count
        → IsData (get_or pointers i 0)
          × (get_or owners (get_or pointers i 0) 0 ≡ 0)
          × (get_or owners' (get_or pointers i 0) 0 ≡ 2)
    pub apart :
        (i j : ℕ)
        → i < j
        → j < length pointers
        → index + j < count
        → get_or pointers i 0 ≢ get_or pointers j 0
    pub unused : (i : ℕ) → i < length pointers → count ≤ index + i → get_or pointers i 0 ≡ 0
    pub keeps : (b : ℕ) → get_or owners b 0 ≢ 0 → get_or owners' b 0 ≡ get_or owners b 0

  Claimed-none : (count index : ℕ) (owners : List ℕ) → Claimed count index [] owners owners
  Claimed-none count index owners = record {
    size = refl;
    taken = λ i lt below. absurd (omega arith);
    apart = λ i j lt below c. absurd (omega arith);
    unused = λ i lt above. absurd (omega arith);
    keeps = λ b used. refl;
  }

  unused_skip :
      (count index : ℕ) (pointers : List ℕ)
      → ((i : ℕ) → i < length pointers → count ≤ index + 1 + i → get_or pointers i 0 ≡ 0)
      → (i : ℕ) → i < length (0 ∷ pointers)
      → count ≤ index + i
      → get_or (0 ∷ pointers) i 0 ≡ 0
  unused_skip count index pointers h zero lt above = refl
  unused_skip count index pointers h (suc k) lt above = h k (omega arith) (omega arith)

  Claimed-skip :
      (count index : ℕ) (pointers owners owners' : List ℕ)
      → count ≤ index
      → Claimed count (index + 1) pointers owners owners'
      → Claimed count index (0 ∷ pointers) owners owners'
  Claimed-skip count index pointers owners owners' past c = record {
    size = c.size;
    taken = λ i lt below. absurd (omega arith);
    apart = λ i j lt below more. absurd (omega arith);
    unused = unused_skip count index pointers c.unused;
    keeps = c.keeps;
  }

  module _ (count index block : ℕ) (pointers owners owners' : List ℕ) (before : index < count)
      (within : block < length owners) (empty : get_or owners block 0 ≡ 0) (good : IsData block)
      (c : Claimed count (index + 1) pointers (set owners block 2) owners') where
    -- The block is the only one whose owner changes in the round.
    other : (b : ℕ) → b ≢ block → get_or (set owners block 2) b 0 ≡ get_or owners b 0
    other b ne = ground (arith, ne, get_or-set owners block b 2 0)

    its : get_or (set owners block 2) block 0 ≡ 2
    its = ground (arith, get_or-set owners block block 2 0)

    -- What had no owner after the round is another block.
    other_block : (b : ℕ) → get_or (set owners block 2) b 0 ≡ 0 → b ≢ block
    other_block b e same = ground (arith, its, ap (λ x. get_or (set owners block 2) x 0) same, e)

    taken_next :
        (i : ℕ)
        → i < length (block ∷ pointers)
        → index + i < count
        → IsData (get_or (block ∷ pointers) i 0)
          × (get_or owners (get_or (block ∷ pointers) i 0) 0 ≡ 0)
          × (get_or owners' (get_or (block ∷ pointers) i 0) 0 ≡ 2)
    taken_next zero lt below = (good, empty, c.keeps block (omega (arith, its)) ∙ its)
    taken_next (suc k) lt below =
        let (g, e, t) = c.taken k (omega arith) (omega arith) in
        let b = get_or pointers k 0 in (g, sym (other b (other_block b e)) ∙ e, t)

    apart_next :
        (i j : ℕ)
        → i < j
        → j < length (block ∷ pointers)
        → index + j < count
        → get_or (block ∷ pointers) i 0 ≢ get_or (block ∷ pointers) j 0
    apart_next i zero lt below more = absurd (omega arith)
    apart_next zero (suc m) lt below more = λ same.
        let (g, e, t) = c.taken m (omega arith) (omega arith) in
        other_block (get_or pointers m 0) e (sym same)
    apart_next (suc k) (suc m) lt below more = c.apart k m (omega arith) (omega arith) (omega arith)

    unused_next :
        (i : ℕ)
        → i < length (block ∷ pointers)
        → count ≤ index + i
        → get_or (block ∷ pointers) i 0 ≡ 0
    unused_next zero lt above = absurd (omega arith)
    unused_next (suc k) lt above = c.unused k (omega arith) (omega arith)

    keeps_next : (b : ℕ) → get_or owners b 0 ≢ 0 → get_or owners' b 0 ≡ get_or owners b 0
    keeps_next b used =
        let ne : b ≢ block = λ same. used (ap (λ x. get_or owners x 0) same ∙ empty) in
        c.keeps b (λ none. used (sym (other b ne) ∙ none)) ∙ other b ne

    Claimed-take : Claimed count index (block ∷ pointers) owners owners'
    Claimed-take = record {
      size = c.size ∙ length-set owners block 2;
      taken = taken_next;
      apart = apart_next;
      unused = unused_next;
      keeps = keeps_next;
    }

  -- one round that ends well
  claim_pointer-cases :
      (count index p : ℕ) (owners next : List ℕ)
      → claim_pointer s bitmap count index owners p ≡ ok next
      → ((index < count)
          × IsData p
          × (p < length owners)
          × (get_or owners p 0 ≡ 0)
          × (next ≡ set owners p 2))
        ⊎ ((count ≤ index) × (p ≡ 0) × (next ≡ owners))
  unfolding claim_pointer
  claim_pointer-cases count index p owners next h = elim (dec_lt index count) [
    | yes lt ↦
        let (g, o) = claim_data_block-IsData owners next p (ground arith) in
        let (w, e, n) = own_lem owners next p o in inl (lt, g, w, e, n)
    | no ge ↦ inr (omega arith, ground arith, ground arith)
  ]

  -- If the loop over the pointers of an inode ends well, then each of the pointers that the inode's size
  -- calls for is a block of the volume's data that the bitmap marks as used, that had no owner, and that
  -- is the file's now; no two of them are the same; every other pointer is 0; and a block that had an
  -- owner keeps it.
  pub claim_pointers-Claimed :
      (count index : ℕ) (pointers owners owners' : List ℕ)
      → claim_pointers s bitmap count index pointers owners ≡ ok owners'
      → Claimed count index pointers owners owners'
  unfolding claim_pointers
  claim_pointers-Claimed count index [] owners owners' h =
      let same : owners ≡ owners' = ground arith in rw same (Claimed-none count index owners')
  claim_pointers-Claimed count index (p ∷ ps) owners owners' h =
      elim (Result-cases (claim_pointer s bitmap count index owners p)) [
        | inr (e, f) ↦ absurd (ground arith)
        | inl (next, f) ↦
            let more =
              claim_pointers-Claimed count (index + 1) ps next owners'
                (rw (claim_pointers, f) at h) in
            elim (claim_pointer-cases count index p owners next f) [
              | inl (lt, good, within, empty, n) ↦
                  Claimed-take count index p ps owners owners' lt within empty good (rw n at more)
              | inr (past, null, n) ↦
                  rw null (Claimed-skip count index ps owners owners' past (rw n at more))
            ]
      ]
