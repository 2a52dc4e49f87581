-- ===== src/Cbf/RoundTrip.antt =====
-- Files that CbfWriter writes, read by CbfReader.
use native.Mathlib.Nat.{mul-le-mul_right}
use cyc_flow.Base.{
  ℕ, ◌*◌, ◌^◌, ◌≤◌, ◌<◌, ◌≡◌, refl, ap, ap₂, sym, ◌∙◌, inr, true, false, some, List, ◌++◌, length,
  take, length-append, append_assoc, take-all, arith,
}
use cyc_flow.Text.{Text}
use cyc_flow.Chunk.{Byte}
use cyc_flow.PReg.{PReg}
use cyc_flow.PAttr.{PAttr, ok}
use cyc_flow.RecRule.{RecRule, build_header}
use cyc_flow.RecRule
use cyc_flow.RecRule.TextForm.{to_text, from_text}
use cyc_flow.RecRule.TextForm.Same.{AllPlain, to_text-nonempty, from_text-to_text}
use cyc_flow.Cbf.{SectionType, section_header, max_schema_body_length}
use cyc_flow.Cbf.Bytes.{length-header_bytes}
use cyc_flow.Cbf.Written.{cbf_bytes, schema_part, data_header, section_header-IsHeader}
use cyc_flow.Cbf.Input.{CbfReader, define_rule}
use cyc_flow.Cbf.Input.Sections.{define_rule-there, body_place, at_place, reading_file}
use cyc_flow.Cbf.Input.Batches.{IsReading, drain, drain-left, slots, AllRoom}

-- From a file of any Schema that `fromText` accepts and one Data section of whole records of its
-- size, CbfReader takes that rule, and a run of batches reads the first records of the section, as
-- many as the batches have slots for and no more than there are. (The schema's text is not empty
-- and has at most 16 MiB, the section has fewer than 2^63 bytes, and the batches' memory holds
-- their records.)
pub drain-cbf_bytes :
    (known r r' : PReg) (rule made : RecRule) (alias : Text) (body : List Byte) (records : ℕ)
    (c : CbfReader) (batches : List (ℕ × List Byte))
    → c.cbf_file.file.is_open ≡ false
    → 0 < length (to_text known rule)
    → length (to_text known rule) ≤ max_schema_body_length
    → from_text (to_text known rule) r ≡ (ok made, r')
    → 0 < made.rec_size
    → length body ≡ records * made.rec_size
    → length body < 2 ^ 63
    → AllRoom made.rec_size batches
    → let (read, c', r'') = define_rule (some (cbf_bytes known rule alias body)) r c in
      (read ≡ made)
      × (r'' ≡ r')
      × ((drain batches c').0 ≡ take (slots batches * made.rec_size) body)
drain-cbf_bytes known r r' rule made alias body records c batches shut positive fits parsed sized
      whole small room =
    (
      ap (λ x. x.0) found,
      ap (λ x. x.2) found,
      ap (λ x. (drain batches x.1).0) found
          ∙ drain-left made.rec_size batches body ready sized small room (inr reading),
    )
  where
    bytes : List Byte
    bytes = cbf_bytes known rule alias body

    ready : CbfReader
    ready = record c {
      cbf_file =
          reading_file (record c.cbf_file { filename = c.filename }) bytes
            (body_place known rule alias body) 24;
      record_size = made.rec_size;
      valid = true;
      data_bytes_remaining = length body;
    }

    found : define_rule (some bytes) r c ≡ (made, ready, r')
    found =
        define_rule-there known rule alias body r r' made c shut positive fits
          (omega (arith, small)) sized parsed

    front : List Byte
    front = schema_part known rule alias ++ data_header alias (length body)

    header : length (data_header alias (length body)) ≡ 24
    header = length-header_bytes (section_header SectionType.data_section alias (length body)) (
        section_header-IsHeader SectionType.data_section alias (length body) (omega (arith, small)))

    reading : IsReading made.rec_size body ready
    reading = record {
      before = front;
      records = records;
      gcount = 24;
      valid = refl;
      stream =
          ap₂ (λ b k. at_place b k 24)
            (sym
              (append_assoc (schema_part known rule alias) (data_header alias (length body)) body))
            (omega (
              arith,
              header,
              length-append (schema_part known rule alias) (data_header alias (length body)),
            ));
      mode = refl;
      sized = refl;
      remaining = refl;
      whole = whole;
    }

-- A file with the schema of a rule of plain fields and one Data section gives CbfReader that very
-- rule and, over any batches with enough slots, exactly the records of the section, in order. (The
-- fields' names are registered and fit a line of text, no field is a Void, the layout is not
-- aligned, the schema has at most 16 MiB, the section is of whole records with fewer than 2^63
-- bytes, and the batches' memory holds their records.)
pub cbf_round_trip :
    (input : List PAttr) (rule : RecRule) (r : PReg) (alias : Text) (body : List Byte) (records : ℕ)
    (c : CbfReader) (batches : List (ℕ × List Byte))
    → RecRule.init input false r ≡ (ok rule, r)
    → AllPlain (build_header r).0 r input
    → c.cbf_file.file.is_open ≡ false
    → length (to_text r rule) ≤ max_schema_body_length
    → 0 < rule.rec_size
    → length body ≡ records * rule.rec_size
    → length body < 2 ^ 63
    → AllRoom rule.rec_size batches
    → records ≤ slots batches
    → let (read, c', r') = define_rule (some (cbf_bytes r rule alias body)) r c in
      (read ≡ rule) × ((drain batches c').0 ≡ body)
cbf_round_trip input rule r alias body records c batches made plain shut fits sized whole small room
      enough =
    let there =
      drain-cbf_bytes r r r rule rule alias body records c batches shut
        (to_text-nonempty input rule r r r made) fits (from_text-to_text input rule r made plain)
        sized whole small room in
    (
      there.0,
      there.2
          ∙ take-all (slots batches * rule.rec_size) body (
              omega (
                arith,
                whole,
                mul-le-mul_right {m = records} {n = slots batches} rule.rec_size enough,
              )),
    )
