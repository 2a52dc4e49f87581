-- ===== src/Cbf/Input/Fuel.antt =====
-- The loops over section headers end.
use cyc_flow.Base.{
  ℕ, zero, suc, ◌+◌, ◌-◌, ◌≤◌, ◌<◌, ◌≡◌, refl, ap, ap₂, sym, ◌∙◌, subst, inl, inr, true, false,
  ◌||◌, ltb, ◌==◌, if◌then◌else◌, Bool-cases, Option, none, some, length, slice, drop, ==→eq, ◌⊎◌,
  length-take, length-drop, arith,
}
use cyc_flow.PReg.{PReg}
use cyc_flow.PAttr.{Result, ok, err}
use cyc_flow.RecRule.{RecRule, get_rec_size}
use cyc_flow.RecRule.TextForm.{from_text}
use cyc_flow.Cbf.{
  CbfFile, SectionHeader, SectionType, section_marker, max_schema_body_length, header_of, can_read,
  section_code, read_section_header, read_rule, skip_section, is_positive,
}
use cyc_flow.Cbf.Fstream.{Stream, read, seek_by}
use cyc_flow.Cbf.Input.{CbfReader, scan_step, scan, take_schema, next_step, next_data_section}

-- The bytes from the place of the stream on.
abbrev pub ahead : Stream → ℕ
ahead f = length f.bytes - f.pos

ahead-read : (n : ℕ) (f : Stream) → ahead (read n f).1 ≤ ahead f
unfolding read
ahead-read n f = elim (Bool-cases f.good) [
  | inl e ↦ simp (e) (omega arith)
  | inr e ↦ simp (e) (omega arith)
]

ahead-read_all :
    (n : ℕ) (f : Stream) → 0 < n → (read n f).1.gcount ≡ n → ahead (read n f).1 < ahead f
unfolding read
ahead-read_all n f p h = elim (Bool-cases f.good) [
  | inl e ↦
      subst (λ g. ahead g < ahead f) (sym (moved e))
        (omega (
          arith,
          sym (ap (λ g. g.gcount) (moved e)) ∙ h,
          length-take n (drop f.pos f.bytes),
          length-drop f.pos f.bytes,
          p,
        ))
  | inr e ↦ absurd (omega (arith, sym (ap (λ g. g.gcount) (stays e)) ∙ h, p))
]
  where
    got : ℕ
    got = length (slice f.pos n f.bytes)

    moved :
        f.good ≡ true → (read n f).1 ≡ record f { pos = f.pos + got; gcount = got; good = got == n }
    moved e = simp (e) refl

    stays : f.good ≡ false → (read n f).1 ≡ record f { gcount = 0 }
    stays e = simp (e) refl

ahead-seek_by : (n : ℕ) (f : Stream) → ahead (seek_by n f) ≤ ahead f
unfolding seek_by
ahead-seek_by n f = elim (Bool-cases f.good) [
  | inl e ↦ simp (e) (omega arith)
  | inr e ↦ simp (e) (omega arith)
]

header-cases :
    (c : CbfFile)
    → ((read_section_header c).0 ≡ none)
      ⊎ (((read 24 c.file).1.gcount ≡ 24) × ((read_section_header c).1.file ≡ (read 24 c.file).1))
unfolding read_section_header
header-cases c = elim (Bool-cases (can_read c)) [
  | inr e ↦ inl (simp (e) refl)
  | inl e ↦ elim (Bool-cases ((read 24 c.file).1.gcount == 24)) [
    | inr f ↦ inl (simp (e, f) refl)
    | inl f ↦ elim (Bool-cases ((header_of (read 24 c.file).0).marker == section_marker)) [
      | inr g ↦ inl (simp (e, f, g) refl)
      | inl g ↦ inr (==→eq (read 24 c.file).1.gcount 24 f, simp (e, f, g) refl)
    ]
  ]
]

ahead-header :
    (c : CbfFile) (h : SectionHeader)
    → (read_section_header c).0 ≡ some h
    → ahead (read_section_header c).1.file < ahead c.file
ahead-header c h e = from (header-cases c)
  where
    from :
        ((read_section_header c).0 ≡ none)
          ⊎ (((read 24 c.file).1.gcount ≡ 24)
              × ((read_section_header c).1.file ≡ (read 24 c.file).1))
        → ahead (read_section_header c).1.file < ahead c.file
    from (inl n) = absurd (none_some (sym n ∙ e))
      where
        none_some : {h : SectionHeader} → ¬ (none ≡ some h)
        none_some = λ q. absurd (cc)
    from (inr p) =
        subst (λ f. ahead f < ahead c.file) (sym p.1) (ahead-read_all 24 c.file (omega arith) p.0)

ahead-rule :
    (h : SectionHeader) (r : PReg) (c : CbfFile) → ahead (read_rule h r c).1.file ≤ ahead c.file
unfolding read_rule
ahead-rule h r c =
    elim (Bool-cases (h.body_length == 0 || ltb max_schema_body_length h.body_length)) [
      | inl e ↦ simp (e) (omega arith)
      | inr e ↦ elim (Bool-cases ((read h.body_length c.file).1.gcount == h.body_length)) [
        | inr f ↦ simp (e, f) (ahead-read h.body_length c.file)
        | inl f ↦
            subst (λ out. ahead out.1.file ≤ ahead c.file) (sym (whole e f))
              (subst (λ g. ahead g ≤ ahead c.file)
                (sym (parsed-file (from_text (read h.body_length c.file).0 r).0))
                (ahead-read h.body_length c.file))
      ]
    ]
  where
    after : CbfFile
    after = record c { file = (read h.body_length c.file).1 }

    parsed : Result RecRule → Option RecRule × CbfFile × PReg
    parsed (err e) = (none, after, (from_text (read h.body_length c.file).0 r).1)
    parsed (ok made) = (some made, after, (from_text (read h.body_length c.file).0 r).1)

    parsed-file : (x : Result RecRule) → (parsed x).1.file ≡ (read h.body_length c.file).1
    parsed-file (err e) = refl
    parsed-file (ok made) = refl

    whole :
        (h.body_length == 0 || ltb max_schema_body_length h.body_length) ≡ false
        → ((read h.body_length c.file).1.gcount == h.body_length) ≡ true
        → read_rule h r c ≡ parsed (from_text (read h.body_length c.file).0 r).0
    whole e f = simp (e, f) refl

ahead-skip : (h : SectionHeader) (c : CbfFile) → ahead (skip_section h c).1.file ≤ ahead c.file
unfolding skip_section
ahead-skip h c = elim (Bool-cases (is_positive h.body_length)) [
  | inl e ↦ simp (e) (ahead-seek_by h.body_length c.file)
  | inr e ↦ simp (e) (omega arith)
]

-- What a Schema section leaves of the file.
take_schema-file :
    (h : SectionHeader) (r : PReg) (rule : RecRule) (c : CbfReader)
    → (take_schema h r rule c).1.cbf_file ≡ (read_rule h r c.cbf_file).1
unfolding take_schema
take_schema-file h r rule c = from (read_rule h r c.cbf_file)
  where
    from :
        (x : Option RecRule × CbfFile × PReg)
        → (elim x.0 as (λ y. RecRule × CbfReader × PReg) [
          | none ↦ (rule, record c { cbf_file = x.1 }, x.2)
          | some read ↦ (
            read,
            record c {
              cbf_file = x.1;
              record_size = get_rec_size read;
              valid = ltb 0 (get_rec_size read);
            },
            x.2,
          )
        ]).1.cbf_file
          ≡ x.1
    from (none, f, r) = refl
    from (some read, f, r) = refl

abbrev Scanned : Type 0
Scanned = RecRule × CbfReader × PReg

scan_step-agree :
    (f g : PReg → RecRule → CbfReader → Scanned) (r : PReg) (rule : RecRule) (c : CbfReader)
    (x : Option SectionHeader × CbfFile)
    → ((h : SectionHeader)
        → x.0 ≡ some h
        → let t = take_schema h r rule (record c { cbf_file = x.1 }) in
          let s = record c { cbf_file = (skip_section h x.1).1 } in
          (f t.2 t.0 t.1 ≡ g t.2 t.0 t.1) × (f r rule s ≡ g r rule s))
    → scan_step f r rule c x ≡ scan_step g r rule c x
unfolding scan_step
scan_step-agree f g r rule c (none, file) e = refl
scan_step-agree f g r rule c (some h, file) e =
    ap₂
      (λ a b.
        if h.type == section_code SectionType.schema
        then a
        else if h.type == section_code SectionType.data_section
        then (rule, record c { cbf_file = file; data_bytes_remaining = h.body_length }, r)
        else b)
      (e h refl).0 (e h refl).1

next_step-agree :
    (f g : CbfReader → CbfReader) (c : CbfReader) (x : Option SectionHeader × CbfFile)
    → ((h : SectionHeader)
        → x.0 ≡ some h
        → let s = record c { cbf_file = (skip_section h x.1).1 } in f s ≡ g s)
    → next_step f c x ≡ next_step g c x
unfolding next_step
next_step-agree f g c (none, file) e = refl
next_step-agree f g c (some h, file) e =
    ap
      (λ b.
        if h.type == section_code SectionType.data_section
        then record c { cbf_file = file; data_bytes_remaining = h.body_length }
        else b)
      (e h refl)

scan-more :
    (fuel more : ℕ) (r : PReg) (rule : RecRule) (c : CbfReader)
    → ahead c.cbf_file.file < fuel
    → scan (fuel + more) r rule c ≡ scan fuel r rule c
unfolding scan
scan-more zero more r rule c h = absurd (omega arith)
scan-more (suc fuel) more r rule c h =
    ap (λ n. scan n r rule c) count
    ∙ scan_step-agree (scan (fuel + more)) (scan fuel) r rule c (read_section_header c.cbf_file)
        (λ g e. (
          scan-more fuel more (schema_of g).2 (schema_of g).0 (schema_of g).1 (
              subst (λ f. ahead f.file < fuel) (sym (take_schema-file g r rule after))
                (omega (arith, h, ahead-header c.cbf_file g e, ahead-rule g r after.cbf_file))),
          scan-more fuel more r rule (record after { cbf_file = (skip_section g after.cbf_file).1 })
              (omega (arith, h, ahead-header c.cbf_file g e, ahead-skip g after.cbf_file)),
        ))
  where
    count : suc fuel + more ≡ suc (fuel + more)
    count = omega arith

    after : CbfReader
    after = record c { cbf_file = (read_section_header c.cbf_file).1 }

    schema_of : SectionHeader → Scanned
    schema_of g = take_schema g r rule after

next_data_section-more :
    (fuel more : ℕ) (c : CbfReader)
    → ahead c.cbf_file.file < fuel
    → next_data_section (fuel + more) c ≡ next_data_section fuel c
unfolding next_data_section
next_data_section-more zero more c h = absurd (omega arith)
next_data_section-more (suc fuel) more c h =
    ap (λ n. next_data_section n c) count
    ∙ next_step-agree (next_data_section (fuel + more)) (next_data_section fuel) c
        (read_section_header c.cbf_file)
        (λ g e.
          next_data_section-more fuel more
            (record c { cbf_file = (skip_section g (read_section_header c.cbf_file).1).1 })
            (omega (
              arith,
              h,
              ahead-header c.cbf_file g e,
              ahead-skip g (read_section_header c.cbf_file).1,
            )))
  where
    count : suc fuel + more ≡ suc (fuel + more)
    count = omega arith

-- The two loops of CbfReader over section headers end: whatever the file holds and wherever the
-- reader stands in it, more turns than its bytes and one change nothing.
pub scan-enough :
    (more : ℕ) (r : PReg) (rule : RecRule) (c : CbfReader)
    → let fuel = length c.cbf_file.file.bytes + 1 in
      (scan (fuel + more) r rule c ≡ scan fuel r rule c)
      × (next_data_section (fuel + more) c ≡ next_data_section fuel c)
scan-enough more r rule c = (
  scan-more (length c.cbf_file.file.bytes + 1) more r rule c (omega arith),
  next_data_section-more (length c.cbf_file.file.bytes + 1) more c (omega arith),
)
