-- ===== src/Cbf.antt =====
-- CbfFile of CycLib/Cbf/CbfFile.h and CbfFile.cpp with CbfDefs.h: a file of sections, each a header
-- of 24 bytes and a body.
-- Integers lie in memory with their lowest byte first. An int64_t is its 64-bit pattern.
pub mod Fstream
pub mod Bytes
pub mod Written
pub mod RoundTrip
pub mod Output
pub mod Input
use cyc_flow.Base.{
  ℕ, zero, suc, ◌+◌, ◌-◌, ◌*◌, ◌/◌, ◌%◌, ◌^◌, Bool, true, false, not, ◌&&◌, ◌||◌, leb, ltb, ◌==◌,
  if◌then◌else◌, Option, none, some, List, [], ◌∷◌, ◌++◌, length, get_or, take, drop, slice,
  replicate, add64, word,
}
use cyc_flow.Text.{Text, strncpy}
use cyc_flow.Chunk.{Byte}
use cyc_flow.PReg.{PReg}
use cyc_flow.PAttr.{Result, ok, err}
use cyc_flow.RecRule.{RecRule}
use cyc_flow.RecRule.TextForm.{to_text, from_text}
use cyc_flow.Cbf.Fstream.{Stream, closed, opened, unopened, write, read, tell, seek, seek_by}

-- CBF_SECTION_MARKER, 0xA1B2C3D4.
abbrev pub section_marker : ℕ
section_marker = 2712847316

-- CbfSectionType.
pub data SectionType : Type 0 where
  schema data_section : SectionType

unfoldable pub section_code : SectionType → ℕ
section_code SectionType.schema = 1
section_code SectionType.data_section = 2

-- CBF_MAX_SCHEMA_BODY_LENGTH.
abbrev pub max_schema_body_length : ℕ
max_schema_body_length = 16777216

-- CbfSectionHeader. The name is the text before its NUL.
pub record SectionHeader : Type 0 where
  pub marker : ℕ
  pub type : ℕ
  pub name : Text
  pub body_length : ℕ

-- The `n` bytes of an integer in memory, and the integer of such bytes.
unfoldable pub bytes_of : ℕ → ℕ → List Byte
bytes_of zero k = []
bytes_of (suc n) k = k % 256 ∷ bytes_of n (k / 256)

unfoldable pub value_of : List Byte → ℕ
value_of [] = 0
value_of (b ∷ bytes) = b + 256 * value_of bytes

-- A text in a zeroed array of `n` bytes.
unfoldable pub name_bytes : ℕ → Text → List Byte
name_bytes n name = name ++ replicate (n - length name) 0

-- The 24 bytes of a header in memory.
unfoldable pub header_bytes : SectionHeader → List Byte
header_bytes h = bytes_of 4 h.marker ++ (h.type ∷ name_bytes 11 h.name ++ bytes_of 8 h.body_length)

-- The packed struct whose memory these bytes are, as a read into it fills it.
unfoldable pub header_of : List Byte → SectionHeader
header_of bytes = record {
  marker = value_of (take 4 bytes);
  type = get_or bytes 4 0;
  name = strncpy 11 (slice 5 11 bytes);
  body_length = value_of (slice 16 8 bytes);
}

-- CbfMode.
pub data Mode : Type 0 where
  reading writing : Mode

abbrev is_writing : Mode → Bool
is_writing Mode.reading = false
is_writing Mode.writing = true

-- The stream stands for the open file with its contents.
pub record CbfFile : Type 0 where
  pub file : Stream
  pub filename : Text
  pub mode : Mode
  pub alias : Text
  pub current_section_start : ℕ
  pub written_bytes_in_section : ℕ

-- `CbfFile()`.
abbrev pub blank : CbfFile
blank = record {
  file = closed;
  filename = [];
  mode = Mode.reading;
  alias = [];
  current_section_start = 0;
  written_bytes_in_section = 0;
}

unfoldable pub can_write : CbfFile → Bool
can_write c = is_writing c.mode && c.file.is_open

unfoldable pub can_read : CbfFile → Bool
can_read c = not (is_writing c.mode) && c.file.is_open

-- The header that `writeSchema` and `beginDataSection` fill in.
unfoldable pub section_header : SectionType → Text → ℕ → SectionHeader
section_header type alias length = record {
  marker = section_marker;
  type = section_code type;
  name = strncpy 10 alias;
  body_length = length;
}

unfoldable pub end_data_section : CbfFile → Bool × CbfFile
end_data_section c =
    let end = tell c.file in
    let patched =
      write (bytes_of 8 c.written_bytes_in_section) (seek (c.current_section_start + 16) c.file) in
    let back = seek end patched in
    if not (can_write c) || c.current_section_start == 0 then (false, c) else (
      back.good,
      record c { file = back; current_section_start = 0; written_bytes_in_section = 0 },
    )

unfoldable pub close : CbfFile → CbfFile
close c =
    let ended =
      if is_writing c.mode && ltb 0 c.current_section_start then (end_data_section c).1 else c in
    if ended.file.is_open
    then record ended { file = record ended.file { is_open = false } }
    else ended

-- `contents` is what the system gives for the file, `none` where it cannot be opened; a file opened
-- for writing starts empty.
abbrev pub stream_of : Mode → Option (List Byte) → Stream
stream_of mode none = unopened
stream_of mode (some bytes) = opened (if is_writing mode then [] else bytes)

unfoldable pub open_file : Text → Mode → Option (List Byte) → CbfFile → Bool × CbfFile
open_file filename mode contents c =
    let old = if c.file.is_open then close c else c in
    let file = stream_of mode contents in
    (file.is_open, record old { file = file; filename = filename; mode = mode })

unfoldable pub set_alias : Text → CbfFile → CbfFile
set_alias alias c = record c { alias = alias }

unfoldable pub write_schema : PReg → RecRule → CbfFile → Bool × CbfFile
write_schema r rule c =
    let text = to_text r rule in
    let header = section_header SectionType.schema c.alias (length text) in
    let file = write text (write (header_bytes header) c.file) in
    if not (can_write c) then (false, c) else (file.good, record c { file = file })

unfoldable pub begin_data_section : CbfFile → Bool × CbfFile
begin_data_section c =
    let header = section_header SectionType.data_section c.alias 0 in
    let file = write (header_bytes header) c.file in
    if not (can_write c) then (false, c) else (
      file.good,
      record c { file = file; current_section_start = tell c.file; written_bytes_in_section = 0 },
    )

unfoldable pub write_bytes : List Byte → CbfFile → Bool × CbfFile
write_bytes content c =
    let file = write content c.file in
    if not (can_write c) || length content == 0 then (false, c) else (
      file.good,
      record c {
        file = file;
        written_bytes_in_section = add64 c.written_bytes_in_section (length content);
      },
    )

-- `content` is the memory of the record, `none` for one that is not valid.
unfoldable pub write_record : Option (List Byte) → CbfFile → Bool × CbfFile
write_record none c = (false, c)
write_record (some content) c = write_bytes content c

-- The header where it is read and has the marker.
unfoldable pub read_section_header : CbfFile → Option SectionHeader × CbfFile
read_section_header c =
    let (got, file) = read 24 c.file in
    let header = header_of got in
    if not (can_read c)
    then (none, c)
    else if not (file.gcount == 24)
    then (none, record c { file = file })
    else if not (header.marker == section_marker)
    then (none, record c { file = file })
    else (some header, record c { file = file })

-- The rule where the body is read whole; a failure of `fromText` is a `none`.
unfoldable pub read_rule : SectionHeader → PReg → CbfFile → Option RecRule × CbfFile × PReg
read_rule header r c =
    let (got, file) = read header.body_length c.file in
    let (rule, r') = from_text got r in
    if header.body_length == 0 || ltb max_schema_body_length header.body_length
    then (none, c, r)
    else if not (file.gcount == header.body_length)
    then (none, record c { file = file }, r)
    else elim rule [
      | err e ↦ (none, record c { file = file }, r')
      | ok made ↦ (some made, record c { file = file }, r')
    ]

-- Whether the record of `size` bytes is filled, its bytes, and the file.
unfoldable pub read_record : ℕ → CbfFile → Bool × List Byte × CbfFile
read_record size c =
    let (got, file) = read size c.file in
    if not (can_read c)
    then (false, [], c)
    else (file.gcount == size, got, record c { file = file })

-- Whether an int64_t is greater than 0.
unfoldable pub is_positive : ℕ → Bool
is_positive k = ltb 0 k && ltb k (2 ^ 63)

unfoldable pub skip_section : SectionHeader → CbfFile → Bool × CbfFile
skip_section header c =
    let file =
      if is_positive header.body_length then seek_by header.body_length c.file else c.file in
    (file.good, record c { file = file })
