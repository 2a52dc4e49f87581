-- ===== src/Cbf/Input.antt =====
-- CbfReader of CycLib/Cbf/CbfReader.h and CbfReader.cpp: a producer that reads a file's records.
-- A loop over section headers runs on fuel: each turn reads a header, so it needs no more turns than
-- the file has bytes. `running` is the flag of the producer.
pub mod Sections
pub mod Fuel
pub mod Batches
use cyc_flow.Base.{
  ℕ, zero, suc, ◌+◌, ◌-◌, ◌*◌, ◌/◌, min, Bool, true, false, not, ◌&&◌, ◌||◌, leb, ltb, ◌==◌,
  if◌then◌else◌, Option, none, some, List, [], ◌∷◌, ◌++◌, length, take, drop, sub64, mul64,
}
use cyc_flow.Ring.{copy_chunk}
use cyc_flow.Text.{Text}
use cyc_flow.Chunk.{Byte}
use cyc_flow.PReg.{PReg}
use cyc_flow.RecRule.{RecRule, get_rec_size}
use cyc_flow.RecRule
use cyc_flow.Cbf.{
  CbfFile, Mode, SectionHeader, SectionType, section_code, open_file, read_section_header,
  read_rule, skip_section, is_positive,
}
use cyc_flow.Cbf.Fstream.{read}

pub record CbfReader : Type 0 where
  pub filename : Text
  pub cbf_file : CbfFile
  pub record_size : ℕ
  pub valid : Bool
  pub data_bytes_remaining : ℕ
  pub running : Bool

unfoldable pub is_valid : CbfReader → Bool
is_valid c = c.valid

-- What a Schema section changes: the rule read so far, and the reader.
unfoldable pub take_schema : SectionHeader → PReg → RecRule → CbfReader → RecRule × CbfReader × PReg
take_schema header r rule c =
    let (found, file, r') = read_rule header r c.cbf_file in
    elim found [
      | none ↦ (rule, record c { cbf_file = file }, r')
      | some read ↦ (
        read,
        record c {
          cbf_file = file;
          record_size = get_rec_size read;
          valid = ltb 0 (get_rec_size read);
        },
        r',
      )
    ]

-- One turn of the loop of `defineRule`; `rest` is what the turns after it do.
unfoldable pub scan_step :
    (PReg → RecRule → CbfReader → RecRule × CbfReader × PReg)
    → PReg
    → RecRule
    → CbfReader
    → Option SectionHeader × CbfFile
    → RecRule × CbfReader × PReg
scan_step rest r rule c (none, file) = (rule, record c { cbf_file = file }, r)
scan_step rest r rule c (some header, file) =
    let c' = record c { cbf_file = file } in
    let (rule', read, r') = take_schema header r rule c' in
    if header.type == section_code SectionType.schema
    then rest r' rule' read
    else if header.type == section_code SectionType.data_section
    then (rule, record c' { data_bytes_remaining = header.body_length }, r)
    else rest r rule (record c' { cbf_file = (skip_section header file).1 })

-- The loop of `defineRule`.
unfoldable pub scan : ℕ → PReg → RecRule → CbfReader → RecRule × CbfReader × PReg
scan zero r rule c = (rule, c, r)
scan (suc fuel) r rule c = scan_step (scan fuel) r rule c (read_section_header c.cbf_file)

-- The rule, the reader and the registry; `contents` as for `open_file`.
unfoldable pub define_rule : Option (List Byte) → PReg → CbfReader → RecRule × CbfReader × PReg
define_rule contents r c =
    let (opened, file) = open_file c.filename Mode.reading contents c.cbf_file in
    let c' = record c { valid = false; cbf_file = file } in
    if not opened
    then (RecRule.blank, c', r)
    else scan (length file.file.bytes + 1) r RecRule.blank c'

-- One turn of the loop of `produceBatch` that looks for the next Data section.
unfoldable pub next_step :
    (CbfReader → CbfReader) → CbfReader → Option SectionHeader × CbfFile → CbfReader
next_step rest c (none, file) = record c { cbf_file = file }
next_step rest c (some header, file) =
    if header.type == section_code SectionType.data_section
    then record c { cbf_file = file; data_bytes_remaining = header.body_length }
    else rest (record c { cbf_file = (skip_section header file).1 })

unfoldable pub next_data_section : ℕ → CbfReader → CbfReader
next_data_section zero c = c
next_data_section (suc fuel) c =
    next_step (next_data_section fuel) c (read_section_header c.cbf_file)

-- How many records a batch of `capacity` slots gets.
unfoldable pub count_to_read : ℕ → CbfReader → ℕ
count_to_read capacity c =
    let records_remaining = c.data_bytes_remaining / c.record_size in
    if ltb records_remaining capacity then records_remaining else capacity

-- The number of records read, the batch's memory, and the reader. Where the file ends early, the
-- bytes that were read stay in the memory.
unfoldable pub produce_batch : ℕ → List Byte → CbfReader → ℕ × List Byte × CbfReader
produce_batch capacity memory c =
    let count = count_to_read capacity c in
    let bytes = mul64 count c.record_size in
    let (got, file) = read bytes c.cbf_file.file in
    let filled = copy_chunk got 0 (length got) memory in
    let moved = record c { cbf_file = record c.cbf_file { file = file } } in
    let rest = sub64 c.data_bytes_remaining bytes in
    let advanced = record moved { data_bytes_remaining = rest } in
    if not c.valid || not c.cbf_file.file.good || not (is_positive c.data_bytes_remaining)
    then (0, memory, record c { running = false })
    else if count == 0
    then (0, memory, c)
    else if not (file.gcount == bytes)
    then (0, filled, record moved { valid = false })
    else if rest == 0
    then (count, filled, next_data_section (length file.bytes + 1) advanced)
    else (count, filled, advanced)
