-- ===== src/Cbf/Written.antt =====
-- The file that a sequence of calls of CbfFile leaves.
use cyc_flow.Base.{
  ℕ, ◌+◌, ◌≤◌, ◌<◌, ◌≡◌, refl, ap, sym, ◌∙◌, Bool, true, false, ltb, ◌==◌, if◌then◌else◌, List, [],
  ◌∷◌, ◌++◌, length, drop, length-append, append-nil, append_assoc, take-front, drop-front,
  take-all, drop-all, add64, add64-eq, word, arith,
}
use cyc_flow.Text.{Text}
use cyc_flow.Chunk.{Byte}
use cyc_flow.PReg.{PReg}
use cyc_flow.RecRule.{RecRule}
use cyc_flow.RecRule.TextForm.{to_text}
use cyc_flow.Cbf.{
  CbfFile, Mode, SectionHeader, SectionType, bytes_of, header_bytes, section_header, can_write,
  write_schema, begin_data_section, write_bytes, end_data_section, close,
}
use cyc_flow.Cbf.Bytes.{
  IsHeader, length-bytes_of, length-header_bytes, header_front, header_bytes-front,
  length-header_front, lacks-strncpy, length-strncpy,
}
use cyc_flow.Cbf.Fstream.{Stream, write, tell, seek}

-- A stream at the end of its file.
abbrev pub at_end : List Byte → Stream
at_end bytes = record { is_open = true; good = true; bytes = bytes; pos = length bytes; gcount = 0 }

abbrev pub writing_file : Text → Text → List Byte → ℕ → ℕ → CbfFile
writing_file filename alias bytes start written = record {
  file = at_end bytes;
  filename = filename;
  mode = Mode.writing;
  alias = alias;
  current_section_start = start;
  written_bytes_in_section = written;
}

write-at_end :
    (content bytes : List Byte) → write content (at_end bytes) ≡ at_end (bytes ++ content)
unfolding write
write-at_end content bytes =
    ap
      (λ front. record (at_end bytes) {
        bytes = front ++ (content ++ drop (length bytes + length content) bytes);
        pos = length bytes + length content;
      })
      (take-all (length bytes) bytes (omega arith))
    ∙ ap
        (λ back. record (at_end bytes) {
          bytes = bytes ++ (content ++ back);
          pos = length bytes + length content;
        })
        (drop-all (length bytes + length content) bytes (omega arith))
    ∙ ap
        (λ all. record (at_end bytes) { bytes = bytes ++ all; pos = length bytes + length content })
        (append-nil content)
    ∙ ap (λ n. record (at_end bytes) { bytes = bytes ++ content; pos = n })
        (sym (length-append bytes content))

abbrev pub schema_part : PReg → RecRule → Text → List Byte
schema_part r rule alias =
    header_bytes (section_header SectionType.schema alias (length (to_text r rule)))
    ++ to_text r rule

abbrev pub data_header : Text → ℕ → List Byte
data_header alias size = header_bytes (section_header SectionType.data_section alias size)

pub section_header-IsHeader :
    (type : SectionType) (alias : Text) (size : ℕ)
    → size < word
    → IsHeader (section_header type alias size)
unfolding section_header
section_header-IsHeader type alias size h = record {
  marker_small = omega arith;
  name_short = omega (arith, length-strncpy 10 alias);
  name_text = lacks-strncpy 10 alias;
  body_small = h;
}

-- A write over bytes in the middle of the file.
write-over :
    (content front old back : List Byte)
    → length old ≡ length content
    → write content (record (at_end (front ++ (old ++ back))) { pos = length front })
      ≡ record (at_end (front ++ (content ++ back))) { pos = length front + length content }
unfolding write
write-over content front old back same =
    ap
      (λ xs.
        made (xs ++ (content ++ drop (length front + length content) (front ++ (old ++ back)))))
      (take-front (length front) front (old ++ back) refl)
    ∙ ap (λ xs. made (front ++ (content ++ xs))) behind
  where
    made : List Byte → Stream
    made bytes = record (at_end bytes) { pos = length front + length content }

    behind : drop (length front + length content) (front ++ (old ++ back)) ≡ back
    behind =
        ap (drop (length front + length content)) (sym (append_assoc front old back))
        ∙ drop-front (length front + length content) (front ++ old) back
            (omega (arith, length-append front old, same))

module _ (filename alias : Text) where
  pub write_schema-end :
      (r : PReg) (rule : RecRule) (bytes : List Byte) (start written : ℕ)
      → write_schema r rule (writing_file filename alias bytes start written)
        ≡ (true, writing_file filename alias (bytes ++ schema_part r rule alias) start written)
  unfolding write_schema can_write
  write_schema-end r rule bytes start written =
      ap (λ f. (f.good, record (writing_file filename alias bytes start written) { file = f }))
        (ap (write (to_text r rule)) (write-at_end header bytes)
          ∙ write-at_end (to_text r rule) (bytes ++ header)
          ∙ ap at_end (append_assoc bytes header (to_text r rule)))
    where
      header : List Byte
      header = header_bytes (section_header SectionType.schema alias (length (to_text r rule)))

  begin_data_section-end :
      (bytes : List Byte) (start written : ℕ)
      → begin_data_section (writing_file filename alias bytes start written)
        ≡ (true, writing_file filename alias (bytes ++ data_header alias 0) (length bytes) 0)
  unfolding begin_data_section can_write tell
  begin_data_section-end bytes start written =
      ap (λ f. (f.good, record (writing_file filename alias bytes (length bytes) 0) { file = f }))
        (write-at_end (data_header alias 0) bytes)

  pub write_bytes-end :
      (content bytes : List Byte) (start written : ℕ)
      → written + length content < word
      → (write_bytes content (writing_file filename alias bytes start written)).1
        ≡ writing_file filename alias (bytes ++ content) start (written + length content)
  unfolding write_bytes can_write
  write_bytes-end [] bytes start written h =
      ap (λ b. writing_file filename alias b start written) (sym (append-nil bytes))
      ∙ ap (writing_file filename alias (bytes ++ []) start) (omega arith)
  write_bytes-end (b ∷ content) bytes start written h = simp (some_bytes) (
      ap
        (λ f.
          record (writing_file filename alias bytes start (add64 written (length (b ∷ content)))) {
            file = f;
          })
        (write-at_end (b ∷ content) bytes)
      ∙ ap (writing_file filename alias (bytes ++ (b ∷ content)) start)
          (add64-eq written (length (b ∷ content)) h))
    where
      some_bytes : (length (b ∷ content) == 0) ≡ false
      some_bytes = ground arith

  -- The length in the section's header is patched.
  pub end_data_section-end :
      (front body : List Byte) (size : ℕ)
      → 0 < length front
      → (end_data_section (
          writing_file filename alias (front ++ (data_header alias 0 ++ body)) (length front) size))
        ≡ (true, writing_file filename alias (front ++ (data_header alias size ++ body)) 0 0)
  unfolding end_data_section can_write tell seek
  end_data_section-end front body size positive =
      simp (nonempty) (ap finish patched ∙ ap (λ n. (true, finished n)) same)
    where
      old : List Byte
      old = front ++ (data_header alias 0 ++ body)

      new : List Byte
      new = front ++ (data_header alias size ++ body)

      finished : ℕ → CbfFile
      finished n = record (writing_file filename alias new 0 0) {
        file = record (at_end new) { pos = n };
      }

      finish : Stream → Bool × CbfFile
      finish f =
          let back = if f.good then record f { pos = length old } else f in
          (back.good, record (writing_file filename alias new 0 0) { file = back })

      nonempty : (length front == 0) ≡ false
      nonempty = ground (arith, positive)

      header : ℕ → SectionHeader
      header n = section_header SectionType.data_section alias n

      fits : IsHeader (header 0)
      fits = section_header-IsHeader SectionType.data_section alias 0 (omega arith)

      before : List Byte
      before = front ++ header_front (header 0)

      split : (n : ℕ) → front ++ (data_header alias n ++ body) ≡ before ++ (bytes_of 8 n ++ body)
      split n =
          unfold section_header in
          ap (λ xs. front ++ (xs ++ body)) (header_bytes-front (header n))
          ∙ ap (λ xs. front ++ xs) (append_assoc (header_front (header n)) (bytes_of 8 n) body)
          ∙ sym (append_assoc front (header_front (header n)) (bytes_of 8 n ++ body))

      place : length front + 16 ≡ length before
      place = omega (
        arith,
        length-append front (header_front (header 0)),
        length-header_front (header 0) fits,
      )

      same : length old ≡ length new
      same =
          ap length (split 0)
          ∙ omega (
            arith,
            length-append before (bytes_of 8 0 ++ body),
            length-append (bytes_of 8 0) body,
            length-append before (bytes_of 8 size ++ body),
            length-append (bytes_of 8 size) body,
            length-bytes_of 8 0,
            length-bytes_of 8 size,
          )
          ∙ sym (ap length (split size))

      patched :
          write (bytes_of 8 size) (record (at_end old) { pos = length front + 16 })
          ≡ record (at_end new) { pos = length before + length (bytes_of 8 size) }
      patched =
          ap (λ n. write (bytes_of 8 size) (record (at_end old) { pos = n })) place
          ∙ ap (λ bytes. write (bytes_of 8 size) (record (at_end bytes) { pos = length before }))
              (split 0)
          ∙ write-over (bytes_of 8 size) before (bytes_of 8 0) body
              (omega (arith, length-bytes_of 8 0, length-bytes_of 8 size))
          ∙ ap (λ bytes. record (at_end bytes) { pos = length before + length (bytes_of 8 size) })
              (sym (split size))

-- A whole file of one Data section, and the closed CbfFile that leaves it.
abbrev pub cbf_bytes : PReg → RecRule → Text → List Byte → List Byte
cbf_bytes r rule alias body = schema_part r rule alias ++ (data_header alias (length body) ++ body)

abbrev pub unfinished : PReg → RecRule → Text → List Byte → List Byte
unfinished r rule alias body = schema_part r rule alias ++ (data_header alias 0 ++ body)

abbrev pub closed_file : Text → Text → List Byte → CbfFile
closed_file filename alias bytes = record (writing_file filename alias bytes 0 0) {
  file = record (at_end bytes) { is_open = false };
}

length-schema_part :
    (r : PReg) (rule : RecRule) (alias : Text)
    → length (to_text r rule) < word
    → 24 ≤ length (schema_part r rule alias)
length-schema_part r rule alias h = omega (
  arith,
  length-append (header_bytes (section_header SectionType.schema alias (length (to_text r rule))))
      (to_text r rule),
  length-header_bytes (section_header SectionType.schema alias (length (to_text r rule)))
      (section_header-IsHeader SectionType.schema alias (length (to_text r rule)) h),
)

module _ (r : PReg) (rule : RecRule) (short : length (to_text r rule) < word) where
  pub close-end :
      (filename alias : Text) (body : List Byte)
      → close (
          writing_file filename alias
            (unfinished r rule alias body)
            (length (schema_part r rule alias))
            (length body))
        ≡ closed_file filename alias (cbf_bytes r rule alias body)
  unfolding close
  close-end filename alias body = simp (begun) (
      ap (λ out. close_stream out.1)
        (end_data_section-end filename alias (schema_part r rule alias) body (length body)
          positive))
    where
      close_stream : CbfFile → CbfFile
      close_stream c =
          if c.file.is_open then record c { file = record c.file { is_open = false } } else c

      positive : 0 < length (schema_part r rule alias)
      positive = omega (arith, length-schema_part r rule alias short)

      begun : ltb 0 (length (schema_part r rule alias)) ≡ true
      begun = ground (arith, positive)

  -- A file that is opened, with its schema and the header of its Data section.
  pub begin-end :
      (filename alias : Text) (start written : ℕ)
      → (begin_data_section (write_schema r rule (writing_file filename alias [] start written)).1)
        ≡ (
          true,
          writing_file filename alias
              (unfinished r rule alias [])
              (length (schema_part r rule alias))
              0,
        )
  begin-end filename alias start written =
      ap (λ out. begin_data_section out.1) (write_schema-end filename alias r rule [] start written)
      ∙ begin_data_section-end filename alias (schema_part r rule alias) start written
      ∙ ap
          (λ bytes. (
            true,
            writing_file filename alias (schema_part r rule alias ++ bytes)
                (length (schema_part r rule alias)) 0,
          ))
          (sym (append-nil (data_header alias 0)))
