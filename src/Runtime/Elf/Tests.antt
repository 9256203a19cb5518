-- ===== src/Runtime/Elf/Tests.antt =====
-- crates/nexos-runtime/src/elf.rs on a small executable, and its theorems at it.
use nix_os.Prelude.{
  ℕ, ◌≡◌, ◌⊎◌, refl, true, false, List, [], ◌∷◌, ◌++◌, ok, err, from_le, is_power_below, set,
  replicate,
}
use nix_os.Runtime.Elf.{
  ElfError, LoadSegment, SegmentTarget, target, ElfImage, read, read_program_header, check_segment,
  load_segment, validate_rounds, validate_load_segments, check_header, read_image, parse,
  load_rounds, load_into, next_segment, load_segments,
}
use nix_os.Runtime.Elf.Good.{IsGood, parse-IsGood}
use nix_os.Runtime.Elf.Load.{load_into-parse, recorder, load_into-load_segments}

-- a header, one program header, and four bytes of code at 0x400078
abbrev elf_header : List ℕ
elf_header =
    127 ∷ 69 ∷ 76 ∷ 70 ∷ 2 ∷ 1 ∷ 1 ∷ 0 ∷ 0 ∷ 0 ∷ 0 ∷ 0 ∷ 0 ∷ 0 ∷ 0 ∷ 0 ∷ 2 ∷ 0 ∷ 62 ∷ 0 ∷ 1 ∷ 0 ∷ 0
    ∷ 0 ∷ 120 ∷ 0 ∷ 64 ∷ 0 ∷ 0 ∷ 0 ∷ 0 ∷ 0 ∷ 64 ∷ 0 ∷ 0 ∷ 0 ∷ 0 ∷ 0 ∷ 0 ∷ 0 ∷ 0 ∷ 0 ∷ 0 ∷ 0 ∷ 0 ∷ 0
    ∷ 0 ∷ 0 ∷ 0 ∷ 0 ∷ 0 ∷ 0 ∷ 64 ∷ 0 ∷ 56 ∷ 0 ∷ 1 ∷ 0 ∷ 0 ∷ 0 ∷ 0 ∷ 0 ∷ 0 ∷ 0 ∷ []

abbrev program_header : List ℕ
program_header =
    1 ∷ 0 ∷ 0 ∷ 0 ∷ 5 ∷ 0 ∷ 0 ∷ 0 ∷ 120 ∷ 0 ∷ 0 ∷ 0 ∷ 0 ∷ 0 ∷ 0 ∷ 0 ∷ 120 ∷ 0 ∷ 64 ∷ 0 ∷ 0 ∷ 0 ∷ 0
    ∷ 0 ∷ 0 ∷ 0 ∷ 0 ∷ 0 ∷ 0 ∷ 0 ∷ 0 ∷ 0 ∷ 4 ∷ 0 ∷ 0 ∷ 0 ∷ 0 ∷ 0 ∷ 0 ∷ 0 ∷ 8 ∷ 0 ∷ 0 ∷ 0 ∷ 0 ∷ 0 ∷ 0
    ∷ 0 ∷ 1 ∷ 0 ∷ 0 ∷ 0 ∷ 0 ∷ 0 ∷ 0 ∷ 0 ∷ []

abbrev code : List ℕ
code = 184 ∷ 60 ∷ 15 ∷ 5 ∷ []

abbrev executable : List ℕ
executable = elf_header ++ (program_header ++ code)

abbrev image : ElfImage
image = record {
  bytes = executable;
  entry = 0x40_0078;
  program_header_offset = 64;
  program_header_count = 1;
}

abbrev text_segment : LoadSegment
text_segment = record {
  virtual_address = 0x40_0078;
  memory_size = 8;
  file_data = code;
  alignment = 1;
  writable = false;
  executable = true;
}

parses : parse executable ≡ ok image
unfolding parse check_header read_image read from_le validate_load_segments validate_rounds
    load_segment read_program_header check_segment is_power_below
parses = refl

rejects :
    (parse (set executable 1 0) ≡ err ElfError.bad_magic)
    × (parse (set executable 68 7) ≡ err ElfError.writable_executable_segment)
    × (parse (set executable 24 0) ≡ err ElfError.entry_point_not_executable)
    × (parse (replicate 63 0) ≡ err ElfError.truncated_header)
unfolding parse check_header read_image read from_le validate_load_segments validate_rounds
    load_segment read_program_header check_segment is_power_below
rejects = (refl, refl, refl, refl)

loads : load_into recorder image [] ≡ (ok 0x40_0078, text_segment ∷ [])
unfolding load_into load_rounds load_segment read from_le read_program_header check_segment
    is_power_below
loads = refl

iterates : load_segments 1 image 0 ≡ text_segment ∷ []
unfolding load_segments next_segment load_segment read from_le read_program_header check_segment
    is_power_below
iterates = refl

parse-IsGood_example : IsGood executable image
parse-IsGood_example = parse-IsGood executable image parses

-- a target that has no memory left
abbrev full_target : SegmentTarget ℕ ℕ
full_target = record { load_segment = λ segment used. (err 12, used) }

load_into-parse_example :
    ((load_into full_target image 3).0 ≡ ok 0x40_0078)
    ⊎ ((e : ℕ) × ((load_into full_target image 3).0 ≡ err (target e)))
load_into-parse_example = load_into-parse full_target executable image 3 parses

load_into-load_segments_example :
    load_into recorder image [] ≡ (ok 0x40_0078, load_segments 1 image 0)
load_into-load_segments_example = load_into-load_segments executable image parses
