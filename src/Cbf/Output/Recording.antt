-- ===== src/Cbf/Output/Recording.antt =====
-- What CbfWriter leaves on the disk.
use cyc_flow.Base.{
  ℕ, ◌+◌, ◌<◌, ◌≡◌, refl, ap, sym, ◌∙◌, subst, inl, inr, Bool, true, false, ltb, leb, ◌==◌, ==→eq,
  if◌then◌else◌, Bool-cases, some, List, [], ◌∷◌, ◌++◌, length, take, length-append, append-nil,
  append_assoc, add64, mul64, word, arith,
}
use cyc_flow.Text.{Text}
use cyc_flow.Chunk.{Byte}
use cyc_flow.PReg.{PReg}
use cyc_flow.RecRule.{RecRule}
use cyc_flow.RecRule.TextForm.{to_text}
use cyc_flow.Cbf.{
  CbfFile, Mode, open_file, set_alias, write_schema, begin_data_section, write_bytes, close,
}
use cyc_flow.Cbf.Written.{
  write_schema-end, writing_file, schema_part, data_header, cbf_bytes, unfinished, close-end,
  begin-end, write_bytes-end,
}
use cyc_flow.Cbf.Output.{
  CbfWriter, Outside, close_file, open_and_write_schema, rotate_file, restarted, put_batch,
  consume_batch,
}

-- The bodies of closed files, the latest first, in the order of writing.
abbrev pub bodies : List (Text × List Byte) → List Byte
bodies [] = []
bodies ((name, body) ∷ closed) = bodies closed ++ body

abbrev pub cbf_files : PReg → RecRule → Text → List (Text × List Byte) → List (Text × List Byte)
cbf_files r rule alias [] = []
cbf_files r rule alias ((name, body) ∷ closed) =
    (name, cbf_bytes r rule alias body) ∷ cbf_files r rule alias closed

module _ (r : PReg) (rule : RecRule) (short : length (to_text r rule) < word) where
  -- All of `log` is in files that are closed or in the one that is open.
  pub record IsRecording (log : List Byte) (w : CbfWriter) : Type 0 where
    pub closed : List (Text × List Byte)
    pub body : List Byte
    pub on_disk : w.disk ≡ cbf_files r rule w.alias closed
    pub current :
        w.cbf_file
        ≡ writing_file w.filename w.alias
            (unfinished r rule w.alias body)
            (length (schema_part r rule w.alias))
            (length body)
    pub all : bodies closed ++ body ≡ log

  -- All of `log` is in closed files.
  pub record IsClosed (log : List Byte) (w : CbfWriter) : Type 0 where
    pub closed : List (Text × List Byte)
    pub on_disk : w.disk ≡ cbf_files r rule w.alias closed
    pub shut : w.cbf_file.file.is_open ≡ false
    pub all : bodies closed ≡ log

  pub close_file-IsClosed :
      {log : List Byte} {w : CbfWriter} → IsRecording log w → IsClosed log (close_file w)
  unfolding close_file
  close_file-IsClosed {log} {w} d =
      subst (λ c. IsClosed log (left c)) (sym d.current)
        (subst
          (λ c.
            IsClosed log (record w { cbf_file = c; disk = (w.filename, c.file.bytes) ∷ w.disk }))
          (sym (close-end r rule short w.filename w.alias d.body))
          (record {
            closed = (w.filename, d.body) ∷ d.closed;
            on_disk = ap (λ files. (w.filename, cbf_bytes r rule w.alias d.body) ∷ files) d.on_disk;
            shut = refl;
            all = d.all;
          }))
    where
      left : CbfFile → CbfWriter
      left c = record w {
        cbf_file = close c;
        disk = if c.file.is_open then (c.filename, (close c).file.bytes) ∷ w.disk else w.disk;
      }

  open_file-shut :
      (filename : Text) (c : CbfFile)
      → c.file.is_open ≡ false
      → open_file filename Mode.writing (some []) c ≡ (
        true,
        writing_file filename c.alias [] c.current_section_start c.written_bytes_in_section,
      )
  unfolding open_file
  open_file-shut filename c e = simp (e) refl

  open_and_write_schema-shut :
      (o : Outside) (w : CbfWriter)
      → o.can_open ≡ true
      → w.cbf_file.file.is_open ≡ false
      → open_and_write_schema o r rule w ≡ record w {
        cbf_file =
            writing_file w.filename w.alias
              (unfinished r rule w.alias [])
              (length (schema_part r rule w.alias))
              0;
      }
  unfolding open_and_write_schema set_alias
  open_and_write_schema-shut o w can shut =
      simp
        (
          can,
          shut,
          open_file-shut w.filename w.cbf_file shut,
          schema_ok,
          ap (λ out. out.0) begun,
          ap (λ out. out.1) begun,
        )
        refl
    where
      schema_ok :
          (write_schema r rule (
            writing_file w.filename w.alias [] w.cbf_file.current_section_start
              w.cbf_file.written_bytes_in_section)).0
          ≡ true
      schema_ok =
          ap (λ out. out.0)
            (write_schema-end w.filename w.alias r rule [] w.cbf_file.current_section_start
              w.cbf_file.written_bytes_in_section)

      begun :
          begin_data_section
            (write_schema r rule (
              writing_file w.filename w.alias [] w.cbf_file.current_section_start
                w.cbf_file.written_bytes_in_section)).1
          ≡ (
            true,
            writing_file w.filename w.alias
                (unfinished r rule w.alias [])
                (length (schema_part r rule w.alias))
                0,
          )
      begun =
          begin-end r rule short w.filename w.alias w.cbf_file.current_section_start
            w.cbf_file.written_bytes_in_section

  pub open-IsRecording :
      {log : List Byte} {w : CbfWriter} (o : Outside)
      → o.can_open ≡ true
      → IsClosed log w
      → IsRecording log (open_and_write_schema o r rule w)
  open-IsRecording {log} {w} o can d =
      subst (IsRecording log) (sym (open_and_write_schema-shut o w can d.shut)) (record {
        closed = d.closed;
        body = [];
        on_disk = d.on_disk;
        current = refl;
        all = append-nil (bodies d.closed) ∙ d.all;
      })

  pub rotate_file-IsRecording :
      {log : List Byte} {w : CbfWriter} (o : Outside)
      → o.can_open ≡ true
      → IsRecording log w
      → IsRecording log (rotate_file o r rule w)
  unfolding rotate_file
  rotate_file-IsRecording {log} {w} o can d =
      recount (open-IsRecording o can (renamed (close_file-IsClosed d)))
    where
      renamed :
          {v : CbfWriter} {name : Text}
          → IsClosed log v
          → IsClosed log (record v { filename = name })
      renamed c = record { closed = c.closed; on_disk = c.on_disk; shut = c.shut; all = c.all }

      recount :
          {v : CbfWriter} → IsRecording log v → IsRecording log (record v { record_count = 0 })
      recount c = record {
        closed = c.closed;
        body = c.body;
        on_disk = c.on_disk;
        current = c.current;
        all = c.all;
      }

  -- A batch in memory whose bytes the file's count of bytes can hold.
  pub written-IsRecording :
      {log : List Byte} {w : CbfWriter} (content : List Byte)
      → length log + length content < word
      → IsRecording log w
      → IsRecording (log ++ content) (record w { cbf_file = (write_bytes content w.cbf_file).1 })
  written-IsRecording {log} {w} content room d = record {
    closed = d.closed;
    body = d.body ++ content;
    on_disk = d.on_disk;
    current =
        ap (λ c. (write_bytes content c).1) d.current
        ∙ write_bytes-end w.filename w.alias content (unfinished r rule w.alias d.body)
            (length (schema_part r rule w.alias)) (length d.body) fits
        ∙ ap
            (λ bytes.
              writing_file w.filename w.alias bytes (length (schema_part r rule w.alias))
                (length d.body + length content))
            longer
        ∙ ap
            (writing_file w.filename w.alias (unfinished r rule w.alias (d.body ++ content))
              (length (schema_part r rule w.alias)))
            (sym (length-append d.body content));
    all = sym (append_assoc (bodies d.closed) d.body content) ∙ ap (λ xs. xs ++ content) d.all;
  }
    where
      fits : length d.body + length content < word
      fits = omega (arith, room, ap length d.all, length-append (bodies d.closed) d.body)

      longer :
          unfinished r rule w.alias d.body ++ content
          ≡ unfinished r rule w.alias (d.body ++ content)
      longer =
          append_assoc (schema_part r rule w.alias) (data_header w.alias 0 ++ d.body) content
          ∙ ap (λ xs. schema_part r rule w.alias ++ xs)
              (append_assoc (data_header w.alias 0) d.body content)

  open_while :
      {log : List Byte} {w : CbfWriter} → IsRecording log w → w.cbf_file.file.is_open ≡ true
  open_while d = ap (λ c. c.file.is_open) d.current

  counted-IsRecording :
      {log : List Byte} {w : CbfWriter} (n : ℕ)
      → IsRecording log w
      → IsRecording log (record w { record_count = n })
  counted-IsRecording n d = record {
    closed = d.closed;
    body = d.body;
    on_disk = d.on_disk;
    current = d.current;
    all = d.all;
  }

  restarted-IsRecording :
      {log : List Byte} {w : CbfWriter} (o : Outside)
      → o.can_open ≡ true
      → IsRecording log w
      → IsRecording log (restarted o r rule w)
  unfolding restarted
  restarted-IsRecording {log} {w} o can d = elim (Bool-cases w.restart_requested) [
    | inl e ↦ subst (IsRecording log) (sym (ap chosen e)) (rotate_file-IsRecording o can (asked d))
    | inr e ↦ subst (IsRecording log) (sym (ap chosen e)) d
  ]
    where
      asked :
          {v : CbfWriter}
          → IsRecording log v
          → IsRecording log (record v { restart_requested = false })
      asked c = record {
        closed = c.closed;
        body = c.body;
        on_disk = c.on_disk;
        current = c.current;
        all = c.all;
      }

      chosen : Bool → CbfWriter
      chosen b = if b then rotate_file o r rule (record w { restart_requested = false }) else w

  put_batch-IsRecording :
      {log : List Byte} {w : CbfWriter} (o : Outside) (count record_size : ℕ) (memory : List Byte)
      → o.can_open ≡ true
      → length log + length (take (mul64 count record_size) memory) < word
      → IsRecording log w
      → IsRecording
          (log ++ take (mul64 count record_size) memory)
          (put_batch o r rule count record_size memory w)
  unfolding put_batch
  put_batch-IsRecording {log} {w} o count record_size memory can room d =
      elim (Bool-cases (count == 0)) [
        | inl e ↦
            subst (Becomes) (sym (skips e))
              (subst (λ xs. IsRecording xs w) (nothing (==→eq count 0 e)) d)
        | inr e ↦ elim (Bool-cases (ltb 0 w.max_records)) [
          | inl f ↦ elim (Bool-cases (leb w.max_records (add64 w.record_count count))) [
            | inl g ↦ subst Becomes (sym (rotates e f g)) (
                rotate_file-IsRecording o can
                  (counted-IsRecording (add64 w.record_count count) written))
            | inr g ↦
                subst Becomes (sym (counts e f g))
                  (counted-IsRecording (add64 w.record_count count) written)
          ]
          | inr f ↦ subst Becomes (sym (writes e f)) written
        ]
      ]
    where
      content : List Byte
      content = take (mul64 count record_size) memory

      Becomes : CbfWriter → Type 0
      Becomes v = IsRecording (log ++ content) v

      done : CbfWriter
      done = record w { cbf_file = (write_bytes content w.cbf_file).1 }

      counted : CbfWriter
      counted = record done { record_count = add64 w.record_count count }

      written : IsRecording (log ++ content) done
      written = written-IsRecording content room d

      is_open : w.cbf_file.file.is_open ≡ true
      is_open = open_while d

      skips : (count == 0) ≡ true → put_batch o r rule count record_size memory w ≡ w
      skips e = simp (e) refl

      rotates :
          (count == 0) ≡ false
          → ltb 0 w.max_records ≡ true
          → leb w.max_records (add64 w.record_count count) ≡ true
          → put_batch o r rule count record_size memory w ≡ rotate_file o r rule counted
      rotates e f g = simp (e, is_open, f, g) refl

      counts :
          (count == 0) ≡ false
          → ltb 0 w.max_records ≡ true
          → leb w.max_records (add64 w.record_count count) ≡ false
          → put_batch o r rule count record_size memory w ≡ counted
      counts e f g = simp (e, is_open, f, g) refl

      writes :
          (count == 0) ≡ false
          → ltb 0 w.max_records ≡ false
          → put_batch o r rule count record_size memory w ≡ done
      writes e f = simp (e, is_open, f) refl

      nothing : count ≡ 0 → log ≡ log ++ content
      nothing e = sym (ap (λ k. log ++ take k memory) none ∙ append-nil log)
        where
          none : mul64 count record_size ≡ 0
          none = ap (λ k. mul64 k record_size) e ∙ (unfold mul64 in omega arith)

  pub consume_batch-IsRecording :
      {log : List Byte} {w : CbfWriter} (o o' : Outside) (count record_size : ℕ)
      (memory : List Byte)
      → o.can_open ≡ true
      → o'.can_open ≡ true
      → length log + length (take (mul64 count record_size) memory) < word
      → IsRecording log w
      → IsRecording
          (log ++ take (mul64 count record_size) memory)
          (consume_batch o o' r rule count record_size memory w)
  unfolding consume_batch
  consume_batch-IsRecording o o' count record_size memory can can' room d =
      put_batch-IsRecording o' count record_size memory can' room (restarted-IsRecording o can d)
