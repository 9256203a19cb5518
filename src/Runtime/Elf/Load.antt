-- ===== src/Runtime/Elf/Load.antt =====
-- Loading an image that `parse` has accepted, through `load_into` and through the iterator.
use nix_os.Prelude.{
  ℕ, zero, suc, ◌+◌, ◌-◌, ◌≤◌, ◌<◌, ◌≡◌, refl, sym, ap, ◌∙◌, ◌⊎◌, inl, inr, Option, none, some,
  List, [], ◌∷◌, ◌++◌, arith, Option-cases, Result-cases, ok, err,
}
use mathlib.Core.List.{append_assoc, append-nil}
use nix_os.Runtime.Elf.{
  LoadSegment, SegmentTarget, target, ElfImage, parse, load_segment, load_rounds, load_into,
  next_segment, load_segments,
}
use nix_os.Runtime.Elf.Good.{parse-IsGood}

-- Every header from `i` on, for `n` headers, can be read.
abbrev LoadsAll : ElfImage → ℕ → ℕ → Type 0
LoadsAll image n i =
    (j : ℕ) → i ≤ j → j < i + n → (o : Option LoadSegment) × (load_segment image j ≡ ok o)

LoadsAll-suc : (image : ElfImage) (n i : ℕ) → LoadsAll image (suc n) i → LoadsAll image n (i + 1)
LoadsAll-suc image n i h j lo hi = h j (omega arith) (omega arith)

module _ {T E : Type 0} (t : SegmentTarget T E) (image : ElfImage) where
  load_rounds_good :
      (n i : ℕ) (s : T)
      → LoadsAll image n i
      → ((load_rounds t n i image s).0 ≡ ok image.entry)
        ⊎ ((e : E) × ((load_rounds t n i image s).0 ≡ err (target e)))
  unfolding load_rounds
  load_rounds_good zero i s h = inl refl
  load_rounds_good (suc n) i s h =
      let (o, f) = h i (omega arith) (omega arith) in
      let rest = LoadsAll-suc image n i h in
      elim (Option-cases o) [
        | inl z ↦ rw (f, load_rounds) (rw z (load_rounds_good n (i + 1) s rest))
        | inr (segment, z) ↦ elim (Result-cases (t.load_segment segment s).0) [
          | inr (e, g) ↦ rw (f, load_rounds) (rw z (rw g (inr (e, refl))))
          | inl (u, g) ↦
              rw (f, load_rounds)
                (rw z (rw g (load_rounds_good n (i + 1) (t.load_segment segment s).1 rest)))
        ]
      ]

-- Loading an image that `parse` has accepted ends with its entry point or with an error of the
-- target: `load_into` never finds it invalid.
pub load_into-parse :
    {T E : Type 0} (t : SegmentTarget T E) (bytes : List ℕ) (image : ElfImage) (s : T)
    → parse bytes ≡ ok image
    → ((load_into t image s).0 ≡ ok image.entry)
      ⊎ ((e : E) × ((load_into t image s).0 ≡ err (target e)))
unfolding load_into
load_into-parse t bytes image s e =
    let good = parse-IsGood bytes image e in
    load_rounds_good t image image.program_header_count 0 s
      (λ j lo hi. good.loads_all j (omega arith))

-- A target that keeps what it is given, oldest first.
abbrev pub recorder : SegmentTarget (List LoadSegment) ⊥
recorder = record { load_segment = λ segment seen. (ok tt, seen ++ segment ∷ []) }

-- The segments of `n` headers from `i` on, in their order.
segments : ℕ → ℕ → ElfImage → List LoadSegment
segments zero i image = []
segments (suc n) i image = elim (load_segment image i) [
  | err e ↦ []
  | ok none ↦ segments n (i + 1) image
  | ok (some s) ↦ s ∷ segments n (i + 1) image
]

module _ (image : ElfImage) where
  load_rounds-recorder :
      (n i : ℕ) (seen : List LoadSegment)
      → LoadsAll image n i
      → load_rounds recorder n i image seen ≡ (ok image.entry, seen ++ segments n i image)
  unfolding load_rounds segments
  load_rounds-recorder zero i seen h = ap (λ l. (ok image.entry, l)) (sym (append-nil seen))
  load_rounds-recorder (suc n) i seen h =
      let (o, f) = h i (omega arith) (omega arith) in
      let rest = LoadsAll-suc image n i h in
      elim (Option-cases o) [
        | inl z ↦ rw (f, load_rounds, segments) (rw z (load_rounds-recorder n (i + 1) seen rest))
        | inr (segment, z) ↦
            rw (f, load_rounds, segments)
              (rw z (
                load_rounds-recorder n (i + 1) (seen ++ segment ∷ []) rest
                ∙ ap (λ l. (ok image.entry, l))
                    (append_assoc seen (segment ∷ []) (segments n (i + 1) image))))
      ]

  -- What `next_segment` finds is the head of `segments`.
  data Next (n i : ℕ) : Option LoadSegment × ℕ → Type 0 where
    finished : (j : ℕ) → segments n i image ≡ [] → Next n i (none, j)
    found :
        (j m : ℕ) (s : LoadSegment)
        → i < j
        → j + m ≡ i + n
        → segments n i image ≡ s ∷ segments m j image
        → Next n i (some s, j)

  skip :
      {n i : ℕ} {out : Option LoadSegment × ℕ}
      → segments (suc n) i image ≡ segments n (i + 1) image
      → Next n (i + 1) out
      → Next (suc n) i out
  skip e (finished j h) = finished j (e ∙ h)
  skip e (found j m s lt sum h) = found j m s (omega arith) (omega arith) (e ∙ h)

  next_segment-Next : (n i : ℕ) → LoadsAll image n i → Next n i (next_segment n image i)
  unfolding next_segment segments
  next_segment-Next zero i h = finished i refl
  next_segment-Next (suc n) i h =
      let (o, f) = h i (omega arith) (omega arith) in
      elim (Option-cases o) [
        | inl z ↦
            let same : segments (suc n) i image ≡ segments n (i + 1) image =
              rw (f, segments) (rw z refl) in
            rw (f, next_segment)
              (rw z (skip same (next_segment-Next n (i + 1) (LoadsAll-suc image n i h))))
        | inr (segment, z) ↦
            let same : segments (suc n) i image ≡ segment ∷ segments n (i + 1) image =
              rw (f, segments) (rw z refl) in
            rw (f, next_segment) (rw z (found (i + 1) n segment (omega arith) (omega arith) same))
      ]

  abbrev count : ℕ
  count = image.program_header_count

  -- The segments that the iterator still gives at index `i`, once the next is at hand.
  load_segments_step :
      (limit i : ℕ) {out : Option LoadSegment × ℕ}
      → Next (count - i) i out
      → ((j : ℕ) → i < j → load_segments limit image j ≡ segments (count - j) j image)
      → elim out.0 [ none ↦ [] | some segment ↦ segment ∷ load_segments limit image out.1 ]
        ≡ segments (count - i) i image
  load_segments_step limit i (finished j h) rest = sym h
  load_segments_step limit i (found j m s lt sum h) rest =
      let left : m ≡ count - j = omega arith in
      ap (λ l. s ∷ l) (rest j lt ∙ ap (λ k. segments k j image) (sym left)) ∙ sym h

  load_segments_lem :
      (limit i : ℕ)
      → count ≤ limit + i
      → LoadsAll image count 0
      → load_segments limit image i ≡ segments (count - i) i image
  unfolding load_segments segments
  load_segments_lem zero i enough h =
      let none_left : count - i ≡ 0 = omega arith in rw none_left refl
  load_segments_lem (suc limit) i enough h =
      load_segments_step limit i
        (next_segment-Next (count - i) i (λ j lo hi. h j (omega arith) (omega arith)))
        (λ j lt. load_segments_lem limit j (omega arith) h)

-- For an image that `parse` has accepted, `load_into` hands a target the very segments that the
-- iterator gives, in the same order, and ends with the entry point.
pub load_into-load_segments :
    (bytes : List ℕ) (image : ElfImage)
    → parse bytes ≡ ok image
    → load_into recorder image []
      ≡ (ok image.entry, load_segments image.program_header_count image 0)
unfolding load_into
load_into-load_segments bytes image e =
    let good = parse-IsGood bytes image e in
    let all : LoadsAll image image.program_header_count 0 =
      λ j lo hi. good.loads_all j (omega arith) in
    let whole : image.program_header_count - 0 ≡ image.program_header_count = omega arith in
    load_rounds-recorder image image.program_header_count 0 [] all
    ∙ ap (λ l. (ok image.entry, l))
        (sym (
          load_segments_lem image image.program_header_count 0 (omega arith) all
          ∙ ap (λ k. segments k 0 image) whole))
