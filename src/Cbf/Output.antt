-- ===== src/Cbf/Output.antt =====
-- CbfWriter of CycLib/Cbf/CbfWriter.h and CbfWriter.cpp: a consumer that writes batches of records to
-- files, and createSuffixedFilename of CycLib/Core/Common.cpp.
-- `Outside` is what a call gets from outside: the time that a new name ends in, and whether the system
-- opens the file. `disk` is every file that was closed, the latest first, and `kept_files` of it what is
-- left of them. The rule is that of the reader, and messages to std::cerr are left out.
pub mod Recording
pub mod Files
pub mod Consuming
use cyc_flow.Base.{
  ℕ, zero, suc, ◌+◌, ◌-◌, ◌*◌, Bool, true, false, not, ◌&&◌, ◌||◌, leb, ltb, ◌==◌, if◌then◌else◌,
  Option, none, some, List, [], ◌∷◌, ◌++◌, length, take, drop, add64, mul64,
}
use cyc_flow.Text.{Text, codes, text_eq}
use cyc_flow.Chunk.{Byte}
use cyc_flow.PReg.{PReg}
use cyc_flow.RecRule.{RecRule}
use cyc_flow.Cbf.{
  CbfFile, Mode, blank, close, open_file, set_alias, write_schema, begin_data_section, write_bytes,
}

pub record Outside : Type 0 where
  pub suffix : Text
  pub can_open : Bool

-- `find_last_of('.')`, `none` for npos.
unfoldable pub last_dot : Text → Option ℕ
last_dot [] = none
last_dot (c ∷ s) = elim (last_dot s) [
  | some i ↦ some (i + 1)
  | none ↦ if c == b'.' then some 0 else none
]

-- `createSuffixedFilename`, the time given.
unfoldable pub create_suffixed_filename : Text → Text → Text
create_suffixed_filename suffix name = elim (last_dot name) [
  | none ↦ name ++ suffix
  | some dot ↦ if ltb 0 dot then take dot name ++ (suffix ++ drop dot name) else name ++ suffix
]

pub record CbfWriter : Type 0 where
  pub base_filename : Text
  pub filename : Text
  pub add_timestamp_suffix : Bool
  pub alias : Text
  pub cbf_file : CbfFile
  pub max_records : ℕ
  pub record_count : ℕ
  pub restart_requested : Bool
  pub disk : List (Text × List Byte)

-- The files that a list of closed ones, the latest first, leaves: `open` with trunc erases the earlier
-- files of the same name.
unfoldable pub without : Text → List (Text × List Byte) → List (Text × List Byte)
without name [] = []
without name ((other, bytes) ∷ files) =
    if text_eq other name then without name files else (other, bytes) ∷ without name files

unfoldable pub kept_files : List (Text × List Byte) → List (Text × List Byte)
kept_files [] = []
kept_files ((name, bytes) ∷ files) = (name, bytes) ∷ without name (kept_files files)

unfoldable pub next_filename : Outside → Bool → Text → Text
next_filename o add_timestamp_suffix base =
    if add_timestamp_suffix then create_suffixed_filename o.suffix base else base

-- `init` before `start`.
unfoldable pub init : Outside → Text → Bool → ℕ → CbfWriter
init o filename add_timestamp_suffix max_records = record {
  base_filename = filename;
  filename = next_filename o add_timestamp_suffix filename;
  add_timestamp_suffix = add_timestamp_suffix;
  alias = codes "Default";
  cbf_file = blank;
  max_records = max_records;
  record_count = 0;
  restart_requested = false;
  disk = [];
}

unfoldable pub set_writer_alias : Text → CbfWriter → CbfWriter
set_writer_alias alias w = record w { alias = alias }

unfoldable pub restart : CbfWriter → CbfWriter
restart w = record w { restart_requested = true }

-- `m_cbfFile.close()`; what was open stays on the disk.
unfoldable pub close_file : CbfWriter → CbfWriter
close_file w =
    let closed = close w.cbf_file in
    record w {
      cbf_file = closed;
      disk =
          if w.cbf_file.file.is_open
          then (w.cbf_file.filename, closed.file.bytes) ∷ w.disk
          else w.disk;
    }

unfoldable pub open_and_write_schema : Outside → PReg → RecRule → CbfWriter → CbfWriter
open_and_write_schema o r rule w =
    let ready = close_file w in
    let from = if w.cbf_file.file.is_open then ready else w in
    let (open_ok, opened) =
      open_file w.filename Mode.writing (if o.can_open then some [] else none) from.cbf_file in
    let (schema_ok, written) = write_schema r rule (set_alias w.alias opened) in
    let (begin_ok, begun) = begin_data_section written in
    if not open_ok
    then record from { cbf_file = opened }
    else if not schema_ok
    then close_file (record from { cbf_file = written })
    else if not begin_ok
    then close_file (record from { cbf_file = begun })
    else record from { cbf_file = begun }

unfoldable pub rotate_file : Outside → PReg → RecRule → CbfWriter → CbfWriter
rotate_file o r rule w =
    let closed = close_file w in
    let named = record closed {
      filename = next_filename o w.add_timestamp_suffix w.base_filename;
    } in
    record (open_and_write_schema o r rule named) { record_count = 0 }

unfoldable pub on_consume_start : Outside → PReg → RecRule → CbfWriter → CbfWriter
on_consume_start o r rule w = open_and_write_schema o r rule w

-- The start of `consumeBatch`: a restart that was asked for.
unfoldable pub restarted : Outside → PReg → RecRule → CbfWriter → CbfWriter
restarted o r rule w =
    if w.restart_requested then rotate_file o r rule (record w { restart_requested = false }) else w

-- The rest of it.
unfoldable pub put_batch : Outside → PReg → RecRule → ℕ → ℕ → List Byte → CbfWriter → CbfWriter
put_batch o r rule count record_size memory w =
    let written = record w {
      cbf_file = (write_bytes (take (mul64 count record_size) memory) w.cbf_file).1;
    } in
    let counted = record written { record_count = add64 w.record_count count } in
    if count == 0 || not w.cbf_file.file.is_open
    then w
    else if not (ltb 0 w.max_records)
    then written
    else if leb w.max_records counted.record_count
    then rotate_file o r rule counted
    else counted

-- A batch may find a restart wanted and also fill the file: two `Outside`s.
unfoldable pub consume_batch :
    Outside → Outside → PReg → RecRule → ℕ → ℕ → List Byte → CbfWriter → CbfWriter
consume_batch o o' r rule count record_size memory w =
    put_batch o' r rule count record_size memory (restarted o r rule w)

unfoldable pub on_consume_stop : CbfWriter → CbfWriter
on_consume_stop w = close_file w
