-- ===== src/Cbf/Input/Sections.antt =====
-- What the file's reading operations give where the bytes are there.
use cyc_flow.Base.{
  ℕ, suc, ◌+◌, ◌-◌, ◌≤◌, ◌<◌, ◌≡◌, refl, ap, sym, ◌∙◌, subst, true, false, not, ◌||◌, ltb, ◌==◌,
  if◌then◌else◌, Option, none, some, List, [], ◌++◌, length, take, slice, length-append,
  append_assoc, take-front, drop-front, word, arith,
}
use cyc_flow.Text.{Text}
use cyc_flow.Chunk.{Byte}
use cyc_flow.PReg.{PReg}
use cyc_flow.PAttr.{ok}
use cyc_flow.RecRule.{RecRule, get_rec_size}
use cyc_flow.RecRule
use cyc_flow.RecRule.TextForm.{to_text, from_text}
use cyc_flow.Cbf.{
  CbfFile, Mode, SectionHeader, SectionType, section_marker, section_code, header_bytes, header_of,
  section_header, max_schema_body_length, can_read, open_file, read_section_header, read_rule,
}
use cyc_flow.Cbf.Bytes.{IsHeader, length-header_bytes, header_of-header_bytes}
use cyc_flow.Cbf.Written.{schema_part, cbf_bytes, section_header-IsHeader}
use cyc_flow.Cbf.Fstream.{Stream, read}
use cyc_flow.Cbf.Input.{CbfReader, scan_step, scan, take_schema, define_rule}

abbrev pub at_place : List Byte → ℕ → ℕ → Stream
at_place bytes pos gcount = record {
  is_open = true;
  good = true;
  bytes = bytes;
  pos = pos;
  gcount = gcount;
}

abbrev pub reading_file : CbfFile → List Byte → ℕ → ℕ → CbfFile
reading_file c bytes pos gcount = record c { file = at_place bytes pos gcount; mode = Mode.reading }

pub read-there :
    (front mid back : List Byte) (n gcount : ℕ)
    → length mid ≡ n
    → let bytes = front ++ (mid ++ back) in
      read n (at_place bytes (length front) gcount) ≡ (mid, at_place bytes (length front + n) n)
unfolding read
read-there front mid back n gcount e =
    ap (λ got. made got) there
    ∙ ap (λ k. (mid, record (at_place bytes (length front + k) k) { good = k == n })) e
    ∙ ap (λ b. (mid, record (at_place bytes (length front + n) n) { good = b })) same
  where
    bytes : List Byte
    bytes = front ++ (mid ++ back)

    made : List Byte → List Byte × Stream
    made got = (
      got,
      record (at_place bytes (length front + length got) (length got)) { good = length got == n },
    )

    there : slice (length front) n bytes ≡ mid
    there =
        ap (take n) (drop-front (length front) front (mid ++ back) refl) ∙ take-front n mid back e

    same : (n == n) ≡ true
    same = ground arith

pub read_section_header-there :
    (c : CbfFile) (h : SectionHeader) (front back : List Byte) (gcount : ℕ)
    → IsHeader h
    → h.marker ≡ section_marker
    → let bytes = front ++ (header_bytes h ++ back) in
      read_section_header (reading_file c bytes (length front) gcount)
      ≡ (some h, reading_file c bytes (length front + 24) 24)
unfolding read_section_header can_read
read_section_header-there c h front back gcount i marked =
    ap found (read-there front (header_bytes h) back 24 gcount (length-header_bytes h i))
    ∙ ap (λ g. if not (g.marker == section_marker) then (none, there) else (some g, there))
        (header_of-header_bytes h i)
    ∙ simp (marked) refl
  where
    bytes : List Byte
    bytes = front ++ (header_bytes h ++ back)

    there : CbfFile
    there = reading_file c bytes (length front + 24) 24

    found : List Byte × Stream → Option SectionHeader × CbfFile
    found (got, file) =
        let c' = record c { file = file; mode = Mode.reading } in
        if not (file.gcount == 24)
        then (none, c')
        else if not ((header_of got).marker == section_marker)
        then (none, c')
        else (some (header_of got), c')

pub read_rule-there :
    (c : CbfFile) (h : SectionHeader) (r r' : PReg) (rule : RecRule) (front text back : List Byte)
    (gcount : ℕ)
    → length text ≡ h.body_length
    → 0 < h.body_length
    → h.body_length ≤ max_schema_body_length
    → from_text text r ≡ (ok rule, r')
    → let bytes = front ++ (text ++ back) in
      read_rule h r (reading_file c bytes (length front) gcount)
      ≡ (some rule, reading_file c bytes (length front + h.body_length) h.body_length, r')
unfolding read_rule
read_rule-there c h r r' rule front text back gcount size positive fits parsed =
    simp
      (
        bounds,
        ap (λ x. x.0) there,
        ap (λ x. x.1) there,
        whole,
        ap (λ x. x.0) parsed,
        ap (λ x. x.1) parsed,
      )
      refl
  where
    there :
        read h.body_length (at_place (front ++ (text ++ back)) (length front) gcount)
        ≡ (text, at_place (front ++ (text ++ back)) (length front + h.body_length) h.body_length)
    there = read-there front text back h.body_length gcount size

    bounds : (h.body_length == 0 || ltb max_schema_body_length h.body_length) ≡ false
    bounds = ground (arith, positive, fits)

    whole : (h.body_length == h.body_length) ≡ true
    whole = ground arith

module _ (known : PReg) (rule : RecRule) (alias : Text) (body : List Byte) where
  abbrev pub text : Text
  text = to_text known rule

  abbrev pub schema_header : SectionHeader
  schema_header = section_header SectionType.schema alias (length text)

  abbrev pub data_part : SectionHeader
  data_part = section_header SectionType.data_section alias (length body)

  abbrev pub bytes : List Byte
  bytes = cbf_bytes known rule alias body

  -- The three places in the file.
  at_text : bytes ≡ header_bytes schema_header ++ (text ++ (header_bytes data_part ++ body))
  at_text = append_assoc (header_bytes schema_header) text (header_bytes data_part ++ body)

  abbrev pub body_place : ℕ
  body_place = length (schema_part known rule alias) + 24

  abbrev split : List Byte
  split = header_bytes schema_header ++ (text ++ (header_bytes data_part ++ body))

  schema-IsHeader : length text ≤ max_schema_body_length → IsHeader schema_header
  schema-IsHeader fits =
      section_header-IsHeader SectionType.schema alias (length text) (omega (arith, fits))

  scan-data :
      (fuel gcount : ℕ) (r : PReg) (made : RecRule) (c : CbfReader) (f : CbfFile)
      → length body < word
      → scan (suc fuel) r made (record c {
        cbf_file = reading_file f bytes (length (schema_part known rule alias)) gcount;
      })
        ≡ (
          made,
          record c {
            cbf_file = reading_file f bytes body_place 24;
            data_bytes_remaining = length body;
          },
          r,
        )
  unfolding scan scan_step section_header section_code
  scan-data fuel gcount r made c f small =
      ap
        (scan_step (scan fuel) r made (record c {
          cbf_file = reading_file f bytes (length (schema_part known rule alias)) gcount;
        }))
        found
    where
      found :
          read_section_header (reading_file f bytes (length (schema_part known rule alias)) gcount)
          ≡ (some data_part, reading_file f bytes body_place 24)
      found =
          read_section_header-there f data_part (schema_part known rule alias) body gcount
            (section_header-IsHeader SectionType.data_section alias (length body) small) refl

  take_schema-there :
      (r r' : PReg) (old made : RecRule) (c : CbfReader) (f : CbfFile)
      → 0 < length text
      → length text ≤ max_schema_body_length
      → 0 < made.rec_size
      → from_text text r ≡ (ok made, r')
      → take_schema schema_header r old (record c { cbf_file = reading_file f bytes 24 24 }) ≡ (
        made,
        record c {
          cbf_file = reading_file f bytes (length (schema_part known rule alias)) (length text);
          record_size = made.rec_size;
          valid = true;
        },
        r',
      )
  unfolding take_schema get_rec_size
  take_schema-there r r' old made c f positive fits sized parsed =
      simp (take_schema, ap (λ x. x.0) found, ap (λ x. x.1) found, ap (λ x. x.2) found, nonempty)
        refl
    where
      nonempty : ltb 0 made.rec_size ≡ true
      nonempty = ground (arith, sized)

      start : length (header_bytes schema_header) ≡ 24
      start = length-header_bytes schema_header (schema-IsHeader fits)

      found : read_rule schema_header r (reading_file f bytes 24 24) ≡ (
        some made,
        reading_file f bytes (length (schema_part known rule alias)) (length text),
        r',
      )
      found =
          unfold section_header in
          subst
            (λ b. read_rule schema_header r (reading_file f b 24 24) ≡ (
              some made,
              reading_file f b (length (schema_part known rule alias)) (length text),
              r',
            ))
            (sym at_text)
            (ap (λ n. read_rule schema_header r (reading_file f split n 24)) (sym start)
              ∙ read_rule-there f schema_header r r' made (header_bytes schema_header) text
                  (header_bytes data_part ++ body) 24 refl positive fits parsed
              ∙ ap (λ n. (some made, reading_file f split n (length text), r'))
                  (sym (length-append (header_bytes schema_header) text)))

  scan-schema :
      (fuel : ℕ) (r r' : PReg) (made : RecRule) (c : CbfReader) (f : CbfFile)
      → 0 < length text
      → length text ≤ max_schema_body_length
      → 0 < made.rec_size
      → from_text text r ≡ (ok made, r')
      → scan (suc (suc fuel)) r RecRule.blank (record c { cbf_file = reading_file f bytes 0 0 })
        ≡ scan (suc fuel) r' made (record c {
          cbf_file = reading_file f bytes (length (schema_part known rule alias)) (length text);
          record_size = made.rec_size;
          valid = true;
        })
  scan-schema fuel r r' made c f positive fits sized parsed =
      scan-step
      ∙ ap (λ x. scan (suc fuel) x.2 x.0 x.1)
          (take_schema-there r r' RecRule.blank made c f positive fits sized parsed)
    where
      found :
          read_section_header (reading_file f bytes 0 0)
          ≡ (some schema_header, reading_file f bytes 24 24)
      found =
          unfold section_header in
          subst
            (λ b.
              read_section_header (reading_file f b 0 0)
              ≡ (some schema_header, reading_file f b 24 24))
            (sym at_text)
            (read_section_header-there f schema_header [] (text ++ (header_bytes data_part ++ body))
              0 (schema-IsHeader fits) refl)

      taken : RecRule × CbfReader × PReg
      taken =
          take_schema schema_header r RecRule.blank
            (record c { cbf_file = reading_file f bytes 24 24 })

      scan-step :
          scan (suc (suc fuel)) r RecRule.blank (record c { cbf_file = reading_file f bytes 0 0 })
          ≡ scan (suc fuel) taken.2 taken.0 taken.1
      scan-step =
          unfold scan scan_step section_header section_code in
          ap
            (scan_step (scan (suc fuel)) r RecRule.blank
              (record c { cbf_file = reading_file f bytes 0 0 }))
            found

  pub define_rule-there :
      (r r' : PReg) (made : RecRule) (c : CbfReader)
      → c.cbf_file.file.is_open ≡ false
      → 0 < length text
      → length text ≤ max_schema_body_length
      → length body < word
      → 0 < made.rec_size
      → from_text text r ≡ (ok made, r')
      → define_rule (some bytes) r c ≡ (
        made,
        record c {
          cbf_file = reading_file (record c.cbf_file { filename = c.filename }) bytes body_place 24;
          record_size = made.rec_size;
          valid = true;
          data_bytes_remaining = length body;
        },
        r',
      )
  unfolding define_rule open_file
  define_rule-there r r' made c shut positive fits small sized parsed = simp (shut) (
      ap (λ fuel. scan fuel r RecRule.blank start) more
      ∙ scan-schema (length bytes - 1) r r' made (record c { valid = false }) f positive fits sized
          parsed
      ∙ scan-data (length bytes - 1) (length text) r' made
          (record c { valid = true; record_size = made.rec_size }) f small)
    where
      f : CbfFile
      f = record c.cbf_file { filename = c.filename }

      start : CbfReader
      start = record c { valid = false; cbf_file = reading_file f bytes 0 0 }

      more : length bytes + 1 ≡ suc (suc (length bytes - 1))
      more = omega (
        arith,
        ap length at_text,
        length-append (header_bytes schema_header) (text ++ (header_bytes data_part ++ body)),
        length-header_bytes schema_header (schema-IsHeader fits),
      )
