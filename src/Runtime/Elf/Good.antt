-- ===== src/Runtime/Elf/Good.antt =====
-- What holds of an image that `parse` accepts.
use nix_os.Prelude.{
  ℕ, zero, suc, ◌+◌, ◌*◌, ◌≤◌, ◌<◌, ◌≡◌, refl, ap, ◌∙◌, Bool, true, false, ◌&&◌, ◌||◌, Option, some,
  List, arith, length, slice, length-slice, Option-cases, Bool-cases, Result-cases, inl, inr, ◌⊎◌,
  ok,
}
use native.Mathlib.Decide.{ℕ_discrete}
use nix_os.Runtime.Elf.{
  LoadSegment, ElfImage, ProgramHeader, read, read_program_header, check_segment, load_segment,
  holds_entry, validate_rounds, validate_load_segments, check_header, read_image, parse,
}

-- A segment that may be mapped: it lies in user space, its file data fits its memory, and no page is
-- both writable and executable.
pub record IsSafe (bytes : List ℕ) (s : LoadSegment) : Type 0 where
  pub in_user_space : s.virtual_address + s.memory_size ≤ 0x0000_8000_0000_0000
  pub data_fits : length s.file_data ≤ s.memory_size
  pub from_file :
      (start : ℕ) × (start + length s.file_data ≤ length bytes)
      × (s.file_data ≡ slice start (length s.file_data) bytes)
  pub not_both : (s.writable && s.executable) ≡ false

check_segment-IsSafe :
    (bytes : List ℕ) (h : ProgramHeader) (s : LoadSegment)
    → check_segment bytes h ≡ ok s
    → IsSafe bytes s
unfolding check_segment
check_segment-IsSafe bytes h s e = record {
  in_user_space = ground arith;
  data_fits = ground (arith, length-slice h.file_offset h.file_size bytes);
  from_file = (
    h.file_offset,
    ground (arith, length-slice h.file_offset h.file_size bytes),
    ground (arith, length-slice h.file_offset h.file_size bytes),
  );
  not_both = ground arith;
}

-- A program header that loads gives a segment that may be mapped.
pub load_segment-IsSafe :
    (image : ElfImage) (i : ℕ) (s : LoadSegment)
    → load_segment image i ≡ ok (some s)
    → IsSafe image.bytes s
unfolding load_segment
load_segment-IsSafe image i s e =
    elim (Result-cases (read_program_header image.bytes (image.program_header_offset + i * 56))) [
      | inr (x, f) ↦ absurd (ground arith)
      | inl (h, f) ↦ elim (Result-cases (check_segment image.bytes h)) [
        | inr (x, g) ↦ absurd (ground arith)
        | inl (s', g) ↦
            let same : s' ≡ s = ground arith in rw same at (check_segment-IsSafe image.bytes h s' g)
      ]
    ]

-- The program header of `i` can be read, and the entry point lies in its segment and may be executed.
pub record RunsEntry (image : ElfImage) (i : ℕ) : Type 0 where
  pub segment : LoadSegment
  pub loaded : load_segment image i ≡ ok (some segment)
  pub executable : segment.executable ≡ true
  pub from : segment.virtual_address ≤ image.entry
  pub to : image.entry < segment.virtual_address + segment.memory_size

-- What the loop of `validate_load_segments` has seen: no header from `i` on, for `n` headers, fails,
-- and if it found the entry point, one of them holds it.
record Validated (image : ElfImage) (i n : ℕ) (before after : Bool) : Type 0 where
  loads_all : (j : ℕ) → i ≤ j → j < i + n → (o : Option LoadSegment) × (load_segment image j ≡ ok o)
  finds : before ≡ false → after ≡ true → (j : ℕ) × (i ≤ j) × (j < i + n) × RunsEntry image j

holds_entry-RunsEntry :
    (image : ElfImage) (i : ℕ) (s : LoadSegment)
    → load_segment image i ≡ ok (some s)
    → holds_entry image.entry s ≡ ok true
    → RunsEntry image i
holds_entry-RunsEntry image i s e h = record {
  segment = s;
  loaded = e;
  executable = ground arith;
  from = ground arith;
  to = ground arith;
}

module _ (image : ElfImage) (i n : ℕ) where
  later :
      {before middle after : Bool} (o : Option LoadSegment)
      → load_segment image i ≡ ok o
      → Validated image (i + 1) n middle after
      → (before ≡ false → after ≡ true → (middle ≡ false) ⊎ RunsEntry image i)
      → Validated image i (suc n) before after
  later o e v here = record {
    loads_all = λ j lo hi. elim (ℕ_discrete j i) [
      | yes same ↦ (o, rw same e)
      | no ne ↦ v.loads_all j (omega arith) (omega arith)
    ];
    finds = λ b a. elim (here b a) [
      | inl m ↦ let (j, lo, hi, r) = v.finds m a in (j, omega arith, omega arith, r)
      | inr r ↦ (i, omega arith, omega arith, r)
    ];
  }

or_false : (a b : Bool) → a ≡ false → b ≡ false → (a || b) ≡ false
or_false a b h k = ground arith

validate_rounds-Validated :
    (n i : ℕ) (image : ElfImage) (loads executes loads' executes' : Bool)
    → validate_rounds n i image loads executes ≡ ok (loads', executes')
    → Validated image i n executes executes'
unfolding validate_rounds
validate_rounds-Validated zero i image loads executes loads' executes' e = record {
  loads_all = λ j lo hi. absurd (omega arith);
  finds = λ b a. absurd (ground arith);
}
validate_rounds-Validated (suc n) i image loads executes loads' executes' e =
    elim (Result-cases (load_segment image i)) [
      | inr (x, f) ↦ absurd (ground arith)
      | inl (o, f) ↦ elim (Option-cases o) [
        | inl z ↦
            later image i n o f
              (validate_rounds-Validated n (i + 1) image loads executes loads' executes'
                (ground arith))
              (λ b a. inl b)
        | inr (s, z) ↦ elim (Result-cases (holds_entry image.entry s)) [
          | inr (x, g) ↦ absurd (ground arith)
          | inl (holds, g) ↦
              later image i n o f
                (validate_rounds-Validated n (i + 1) image true (holds || executes) loads' executes'
                  (ground arith))
                (λ b a. elim (Bool-cases holds) [
                  | inl y ↦ inr (holds_entry-RunsEntry image i s (f ∙ ap ok z) (g ∙ ap ok y))
                  | inr y ↦ inl (or_false holds executes y b)
                ])
        ]
      ]
    ]

-- What a loader may rely on once `parse` has accepted an image of the bytes `bytes`.
pub record IsGood (bytes : List ℕ) (image : ElfImage) : Type 0 where
  pub same_bytes : image.bytes ≡ bytes
  pub few : image.program_header_count ≤ 128
  pub table : image.program_header_offset + image.program_header_count * 56 ≤ length bytes
  pub loads_all :
      (i : ℕ)
      → i < image.program_header_count
      → (o : Option LoadSegment) × (load_segment image i ≡ ok o)
  pub safe : (i : ℕ) (s : LoadSegment) → load_segment image i ≡ ok (some s) → IsSafe bytes s
  pub entry_runs : (i : ℕ) × (i < image.program_header_count) × RunsEntry image i

read_image_fields :
    (bytes : List ℕ) (image : ElfImage)
    → read_image bytes ≡ ok image
    → (image.bytes ≡ bytes)
      × (image.program_header_count ≤ 128)
      × (image.program_header_offset + image.program_header_count * 56 ≤ length bytes)
unfolding read_image
read_image_fields bytes image e = (ground arith, ground arith, ground arith)

validate_load_segments-Validated :
    (image : ElfImage)
    → validate_load_segments image ≡ ok tt
    → (executes : Bool) × Validated image 0 image.program_header_count false executes
      × (executes ≡ true)
unfolding validate_load_segments
validate_load_segments-Validated image e =
    elim (Result-cases (validate_rounds image.program_header_count 0 image false false)) [
      | inr (x, f) ↦ absurd (ground arith)
      | inl ((loads, executes), f) ↦ (
        executes,
        validate_rounds-Validated image.program_header_count 0 image false false loads executes f,
        ground arith,
      )
    ]

-- An image that `parse` accepts is good: its header table lies within its bytes, every program header
-- can be read, every segment to load lies in user space, takes its data from the bytes and is not both
-- writable and executable, and the entry point lies in a segment that may be executed.
pub parse-IsGood : (bytes : List ℕ) (image : ElfImage) → parse bytes ≡ ok image → IsGood bytes image
unfolding parse
parse-IsGood bytes image e = elim (Result-cases (check_header bytes)) [
  | inr (x, f) ↦ absurd (ground arith)
  | inl (u, f) ↦ elim (Result-cases (read_image bytes)) [
    | inr (x, g) ↦ absurd (ground arith)
    | inl (read, g) ↦ elim (Result-cases (validate_load_segments read)) [
      | inr (x, h) ↦ absurd (ground arith)
      | inl (u', h) ↦
          let same : read ≡ image = ground arith in
          let (bytes_kept, few, table) = read_image_fields bytes image (rw same at g) in
          let (executes, v, found) = validate_load_segments-Validated image (rw same at h) in
          record {
            same_bytes = bytes_kept;
            few = few;
            table = table;
            loads_all = λ i lt. v.loads_all i (omega arith) (omega arith);
            safe = λ i s loaded. rw bytes_kept at (load_segment-IsSafe image i s loaded);
            entry_runs = let (j, lo, hi, r) = v.finds refl found in (j, omega arith, r);
          }
    ]
  ]
]
