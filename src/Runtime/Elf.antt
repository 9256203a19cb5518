-- ===== src/Runtime/Elf.antt =====
-- crates/nexos-runtime/src/elf.rs: parsing and loading of ELF images.
-- An image is the list of its bytes. `read_u16`, `read_u32` and `read_u64` are `read` of 2, 4 and 8 bytes.
pub mod Good
pub mod Load
mod Tests
use Prim.Native.Nat.{bit_and}
use nix_os.Prelude.{
  ℕ, zero, suc, ◌+◌, ◌*◌, ◌%◌, ◌^◌, Bool, true, false, ◌&&◌, ◌||◌, not, Option, none, some, List,
  [], ◌∷◌, ltb, leb, ◌==◌, if◌then◌else◌, length, get_or, slice, from_le, is_power_below, Result,
  ok, err, ok_or, refuse_if, map_ok, ◌-◌, ◌>>=◌, ◌>>◌,
}

pub data ElfError : Type 0 where
  truncated_header bad_magic unsupported_class unsupported_byte_order unsupported_version : ElfError
  unsupported_type unsupported_machine invalid_header_size invalid_program_header_size : ElfError
  invalid_program_header_count program_header_table_out_of_bounds segment_out_of_bounds : ElfError
  segment_address_overflow segment_outside_user_space invalid_segment_alignment : ElfError
  writable_executable_segment missing_load_segment entry_point_not_executable : ElfError

pub record LoadSegment : Type 0 where
  pub virtual_address : ℕ
  pub memory_size : ℕ
  pub file_data : List ℕ
  pub alignment : ℕ
  pub writable : Bool
  pub executable : Bool

-- `trait SegmentTarget`
pub record SegmentTarget (T : Type 0) (E : Type 0) : Type 0 where
  pub load_segment : LoadSegment → T → Result E Unit × T

pub data LoadError (E : Type 0) : Type 0 where
  invalid_image : ElfError → LoadError E
  target : E → LoadError E

pub record ElfImage : Type 0 where
  pub bytes : List ℕ
  pub entry : ℕ
  pub program_header_offset : ℕ
  pub program_header_count : ℕ

abbrev pub elf_header_size : ℕ
elf_header_size = 64

abbrev pub program_header_size : ℕ
program_header_size = 56

abbrev pub max_program_headers : ℕ
max_program_headers = 128

abbrev pub user_address_limit : ℕ
user_address_limit = 0x0000_8000_0000_0000

-- `bytes.get(offset..offset.checked_add(width)?)`, as a little-endian number
pub read : ℕ → List ℕ → ℕ → Option ℕ
read width bytes offset =
    if leb (2 ^ 64) (offset + width)
    then none
    else if leb (offset + width) (length bytes)
    then some (from_le (slice offset width bytes))
    else none

-- `read(..) == Some(value)`
abbrev pub reads : Option ℕ → ℕ → Bool
reads none value = false
reads (some n) value = n == value

abbrev pub add : ElfError → ℕ → ℕ → Result ElfError ℕ
add e a b = if leb (2 ^ 64) (a + b) then err e else ok (a + b)

-- `self.bytes.get(file_start..file_end)`
abbrev pub file_range : List ℕ → ℕ → ℕ → Result ElfError (List ℕ)
file_range bytes start len =
    if leb (start + len) (length bytes)
    then ok (slice start len bytes)
    else err segment_out_of_bounds

-- the fields of a program header that is to be loaded
pub record ProgramHeader : Type 0 where
  pub flags : ℕ
  pub file_offset : ℕ
  pub virtual_address : ℕ
  pub file_size : ℕ
  pub memory_size : ℕ
  pub alignment : ℕ

pub read_program_header : List ℕ → ℕ → Result ElfError ProgramHeader
read_program_header bytes offset = do
  flags ← ok_or segment_out_of_bounds (read 4 bytes (offset + 4))
  file_offset ← ok_or segment_out_of_bounds (read 8 bytes (offset + 8))
  virtual_address ← ok_or segment_out_of_bounds (read 8 bytes (offset + 16))
  file_size ← ok_or segment_out_of_bounds (read 8 bytes (offset + 32))
  memory_size ← ok_or segment_out_of_bounds (read 8 bytes (offset + 40))
  alignment ← ok_or segment_out_of_bounds (read 8 bytes (offset + 48))
  ok (record {
    flags = flags;
    file_offset = file_offset;
    virtual_address = virtual_address;
    file_size = file_size;
    memory_size = memory_size;
    alignment = alignment;
  })

abbrev pub is_misaligned : ProgramHeader → Bool
is_misaligned h =
    ltb 1 h.alignment
    && (not (is_power_below 64 h.alignment)
        || not (h.virtual_address % h.alignment == h.file_offset % h.alignment))

abbrev pub is_writable : ProgramHeader → Bool
is_writable h = not (bit_and h.flags 2 == 0)

abbrev pub is_executable : ProgramHeader → Bool
is_executable h = not (bit_and h.flags 1 == 0)

-- `load_segment` from the test of the sizes on
pub check_segment : List ℕ → ProgramHeader → Result ElfError LoadSegment
check_segment bytes h = do
  refuse_if (ltb h.memory_size h.file_size) segment_out_of_bounds
  file_end ← add segment_out_of_bounds h.file_offset h.file_size
  file_data ← file_range bytes h.file_offset h.file_size
  virtual_end ← add segment_address_overflow h.virtual_address h.memory_size
  refuse_if (leb user_address_limit h.virtual_address || ltb user_address_limit virtual_end)
      segment_outside_user_space
  refuse_if (is_misaligned h) invalid_segment_alignment
  refuse_if (is_writable h && is_executable h) writable_executable_segment
  ok (record {
    virtual_address = h.virtual_address;
    memory_size = h.memory_size;
    file_data = file_data;
    alignment = h.alignment;
    writable = is_writable h;
    executable = is_executable h;
  })

pub load_segment : ElfImage → ℕ → Result ElfError (Option LoadSegment)
load_segment image index =
    let offset = image.program_header_offset + index * program_header_size in
    let loaded : Result ElfError (Option LoadSegment) =
      read_program_header image.bytes offset >>= λ header.
      map_ok some (check_segment image.bytes header) in
    if reads (read 4 image.bytes offset) 1 then loaded else ok none

-- whether the entry point lies in this segment, and may be executed there
abbrev pub holds_entry : ℕ → LoadSegment → Result ElfError Bool
holds_entry entry s =
    if s.executable && leb s.virtual_address entry
    then map_ok (λ virtual_end. ltb entry virtual_end)
        (add segment_address_overflow s.virtual_address s.memory_size)
    else ok false

-- the loop of `validate_load_segments`, with `n` headers left: `has_load_segment` and
-- `entry_is_executable` at its end
pub validate_rounds : ℕ → ℕ → ElfImage → Bool → Bool → Result ElfError (Bool × Bool)
validate_rounds zero index image loads executes = ok (loads, executes)
validate_rounds (suc n) index image loads executes = elim (load_segment image index) [
  | err e ↦ err e
  | ok none ↦ validate_rounds n (index + 1) image loads executes
  | ok (some s) ↦ elim (holds_entry image.entry s) [
    | err e ↦ err e
    | ok holds ↦ validate_rounds n (index + 1) image true (holds || executes)
  ]
]

pub validate_load_segments : ElfImage → Result ElfError Unit
validate_load_segments image = do
  (loads, executes) ← validate_rounds image.program_header_count 0 image false false
  refuse_if (not loads) missing_load_segment
  refuse_if (not executes) entry_point_not_executable

-- `bytes[..4] != [0x7f, b'E', b'L', b'F']`
abbrev pub has_magic : List ℕ → Bool
has_magic bytes =
    get_or bytes 0 0 == 0x7f
    && get_or bytes 1 0 == b'E'
    && get_or bytes 2 0 == b'L'
    && get_or bytes 3 0 == b'F'

-- the tests of `parse` on the identification, up to the number of program headers
pub check_header : List ℕ → Result ElfError Unit
check_header bytes = do
  refuse_if (ltb (length bytes) elf_header_size) truncated_header
  refuse_if (not (has_magic bytes)) bad_magic
  refuse_if (not (get_or bytes 4 0 == 2)) unsupported_class
  refuse_if (not (get_or bytes 5 0 == 1)) unsupported_byte_order
  refuse_if (not (get_or bytes 6 0 == 1) || not (reads (read 4 bytes 20) 1)) unsupported_version
  elf_type ← ok_or truncated_header (read 2 bytes 16)
  refuse_if (not (elf_type == 2 || elf_type == 3)) unsupported_type
  refuse_if (not (reads (read 2 bytes 18) 0x3e)) unsupported_machine
  refuse_if (not (reads (read 2 bytes 52) 64)) invalid_header_size
  refuse_if (not (reads (read 2 bytes 54) 56)) invalid_program_header_size

-- the rest of `parse` up to the image
pub read_image : List ℕ → Result ElfError ElfImage
read_image bytes = do
  count ← ok_or truncated_header (read 2 bytes 56)
  refuse_if (count == 0 || ltb max_program_headers count) invalid_program_header_count
  offset ← ok_or truncated_header (read 8 bytes 32)
  table_end ← add program_header_table_out_of_bounds offset (count * program_header_size)
  refuse_if (ltb (length bytes) table_end) program_header_table_out_of_bounds
  entry ← ok_or truncated_header (read 8 bytes 24)
  ok (record {
    bytes = bytes;
    entry = entry;
    program_header_offset = offset;
    program_header_count = count;
  })

pub parse : List ℕ → Result ElfError ElfImage
parse bytes = do
  check_header bytes
  image ← read_image bytes
  validate_load_segments image
  ok image

-- the loop of `load_into`, with `n` headers left
module _ {T E : Type 0} (t : SegmentTarget T E) where
  pub load_rounds : ℕ → ℕ → ElfImage → T → Result (LoadError E) ℕ × T
  load_rounds zero index image s = (ok image.entry, s)
  load_rounds (suc n) index image s = elim (load_segment image index) [
    | err e ↦ (err (invalid_image e), s)
    | ok none ↦ load_rounds n (index + 1) image s
    | ok (some segment) ↦
        let (r, s') = t.load_segment segment s in
        elim r [ err e ↦ (err (target e), s') | ok u ↦ load_rounds n (index + 1) image s' ]
  ]

  pub load_into : ElfImage → T → Result (LoadError E) ℕ × T
  load_into image = load_rounds image.program_header_count 0 image

-- `LoadSegments::next`, with `n` headers left: the segment and the next index
pub next_segment : ℕ → ElfImage → ℕ → Option LoadSegment × ℕ
next_segment zero image index = (none, index)
next_segment (suc n) image index = elim (load_segment image index) [
  | err e ↦ (none, index + 1)
  | ok none ↦ next_segment n image (index + 1)
  | ok (some s) ↦ (some s, index + 1)
]

-- The first `limit` segments that the iterator gives.
pub load_segments : ℕ → ElfImage → ℕ → List LoadSegment
load_segments zero image index = []
load_segments (suc limit) image index =
    let (s, index') = next_segment (image.program_header_count - index) image index in
    elim s [ none ↦ [] | some segment ↦ segment ∷ load_segments limit image index' ]
