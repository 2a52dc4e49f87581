-- ===== src/Cbf/Input/Batches.antt =====
-- The batches that CbfReader fills from a Data section that ends the file.
use native.Mathlib.Nat.{mul-le-mul_right, le-mul_of_pos_right, mul-div_cancel, add-mul}
use cyc_flow.Base.{
  ℕ, suc, ◌+◌, ◌-◌, ◌*◌, ◌/◌, ◌^◌, ◌≤◌, ◌<◌, min, ◌≡◌, refl, ap, ap₂, sym, ◌∙◌, subst, ◌⊎◌, inl,
  inr, true, false, not, ◌||◌, ltb, ◌==◌, ==→eq, if◌then◌else◌, Bool-cases, Option, none, some,
  List, [], ◌∷◌, ◌++◌, length, take, drop, length-append, length-take, length-drop, take-drop,
  take-add, take-nil, append_assoc, drop-all, take-all, list_ext, get_or-take, sub64, sub64-eq,
  mul64, mul64-eq, arith,
}
use cyc_flow.Ring.{copy_chunk}
use cyc_flow.Ring.Inv.{length-copy_chunk}
use cyc_flow.Ring.Window.{copy_chunk_at}
use cyc_flow.Chunk.{Byte}
use cyc_flow.Cbf.{CbfFile, SectionHeader, Mode, is_positive, can_read, read_section_header}
use cyc_flow.Cbf.Fstream.{Stream, read}
use cyc_flow.Cbf.Input.{CbfReader, count_to_read, next_step, next_data_section, produce_batch}
use cyc_flow.Cbf.Input.Sections.{at_place, read-there}

-- `left` is the rest of the section: whole records at the end of the file.
pub record IsReading (size : ℕ) (left : List Byte) (c : CbfReader) : Type 0 where
  pub before : List Byte
  pub records : ℕ
  pub gcount : ℕ
  pub valid : c.valid ≡ true
  pub stream : c.cbf_file.file ≡ at_place (before ++ left) (length before) gcount
  pub mode : c.cbf_file.mode ≡ Mode.reading
  pub sized : c.record_size ≡ size
  pub remaining : c.data_bytes_remaining ≡ length left
  pub whole : length left ≡ records * size

-- The section is read to its end, or `left` is still to come.
abbrev pub HasLeft : ℕ → List Byte → CbfReader → Type 0
HasLeft size left c = ((left ≡ []) × (c.data_bytes_remaining ≡ 0)) ⊎ IsReading size left c

-- The batches of a run: the capacity of each and its memory.
abbrev pub drain : List (ℕ × List Byte) → CbfReader → List Byte × CbfReader
drain [] c = ([], c)
drain ((capacity, memory) ∷ batches) c =
    let (count, filled, c') = produce_batch capacity memory c in
    let (more, c'') = drain batches c' in (take (count * c.record_size) filled ++ more, c'')

abbrev pub slots : List (ℕ × List Byte) → ℕ
slots [] = 0
slots ((capacity, memory) ∷ batches) = capacity + slots batches

abbrev pub AllRoom : ℕ → List (ℕ × List Byte) → Type 0
AllRoom size [] = Unit {0}
AllRoom size ((capacity, memory) ∷ batches) =
    (capacity * size ≤ length memory) × AllRoom size batches

-- No section header lies behind the end.
next_data_section-end :
    (fuel : ℕ) (c : CbfReader) (bytes : List Byte) (gcount : ℕ)
    → c.cbf_file.file ≡ at_place bytes (length bytes) gcount
    → (next_data_section (suc fuel) c).data_bytes_remaining ≡ c.data_bytes_remaining
unfolding next_data_section
next_data_section-end fuel c bytes gcount e = from (read_section_header c.cbf_file) none_there
  where
    from :
        (x : Option SectionHeader × CbfFile)
        → x.0 ≡ none
        → (next_step (next_data_section fuel) c x).data_bytes_remaining ≡ c.data_bytes_remaining
    from (none, file) e = unfold next_step in refl
    from (some h, file) e = absurd (cc)

    ended : drop (length bytes) bytes ≡ []
    ended = drop-all (length bytes) bytes (omega arith)

    none_there : (read_section_header c.cbf_file).0 ≡ none
    none_there =
        unfold read_section_header read in
        elim (Bool-cases (can_read c.cbf_file)) [
          | inl f ↦ simp (f, e, ended) refl
          | inr f ↦ simp (f) refl
        ]

produce_batch-past :
    (capacity : ℕ) (memory : List Byte) (c : CbfReader)
    → c.data_bytes_remaining ≡ 0
    → produce_batch capacity memory c ≡ (0, memory, record c { running = false })
unfolding is_positive produce_batch
produce_batch-past capacity memory c e = simp (produce_batch, stops) refl
  where
    stops :
        (not c.valid || not c.cbf_file.file.good || not (is_positive c.data_bytes_remaining)) ≡ true
    stops = ground (arith, e)

take-copied :
    (n : ℕ) (source memory : List Byte)
    → length source ≡ n
    → n ≤ length memory
    → take n (copy_chunk source 0 (length source) memory) ≡ source
take-copied n source memory e h =
    list_ext 0 (take n (copy_chunk source 0 (length source) memory)) source
      (omega (
        arith,
        length-take n (copy_chunk source 0 (length source) memory),
        length-copy_chunk source 0 (length source) memory,
        e,
        h,
      ))
      (λ i p.
        get_or-take n (copy_chunk source 0 (length source) memory) i 0
          (omega (arith, p, length-take n (copy_chunk source 0 (length source) memory)))
        ∙ copy_chunk_at 0 source 0 (length source) memory i i (omega arith)
            (omega (arith, p, e, length-take n (copy_chunk source 0 (length source) memory)))
            (omega arith) (omega (arith, e, h)))

module _ {size : ℕ} {left : List Byte} {c : CbfReader} (positive : 0 < size)
    (small : length left < 2 ^ 63) (capacity : ℕ) (memory : List Byte)
    (room : capacity * size ≤ length memory) (d : IsReading size left c) where
  abbrev n : ℕ
  n = min capacity d.records

  quotient : c.data_bytes_remaining / c.record_size ≡ d.records
  quotient = ap₂ ◌/◌ (d.remaining ∙ d.whole) d.sized ∙ mul-div_cancel d.records positive

  count_to_read-eq : count_to_read capacity c ≡ n
  unfolding count_to_read
  count_to_read-eq = ap (λ q. if ltb q capacity then q else capacity) quotient ∙ ground arith

  below : n * size ≤ length left
  below = omega (arith, d.whole, mul-le-mul_right {m = n} {n = d.records} size (omega arith))

  bytes-eq : mul64 n c.record_size ≡ n * size
  bytes-eq = ap (mul64 n) d.sized ∙ mul64-eq n size (omega (arith, below, small))

  abbrev chunk : List Byte
  chunk = take (n * size) left

  abbrev rest : List Byte
  rest = drop (n * size) left

  abbrev there : Stream
  there = at_place (d.before ++ left) (length d.before + n * size) (n * size)

  whole : left ≡ chunk ++ rest
  whole = sym (take-drop (n * size) left)

  length-chunk : length chunk ≡ n * size
  length-chunk = omega (arith, length-take (n * size) left, below)

  read-eq : read (n * size) c.cbf_file.file ≡ (chunk, there)
  read-eq =
      ap (read (n * size)) d.stream
      ∙ subst
          (λ xs.
            read (n * size) (at_place (d.before ++ xs) (length d.before) d.gcount)
            ≡ (chunk, at_place (d.before ++ xs) (length d.before + n * size) (n * size)))
          (sym whole) (read-there d.before chunk rest (n * size) d.gcount length-chunk)

  abbrev filled : List Byte
  filled = copy_chunk chunk 0 (length chunk) memory

  abbrev advanced : CbfReader
  advanced = record c {
    cbf_file = record c.cbf_file { file = there };
    data_bytes_remaining = length left - n * size;
  }

  -- The batch gets as many records as it has slots and the section has left.
  is_full :
      0 < n
      → produce_batch capacity memory c ≡ (
          if length left - n * size == 0
          then (n, filled, next_data_section (length (d.before ++ left) + 1) advanced)
          else (n, filled, advanced))
  unfolding produce_batch
  is_full h =
      simp
        (
          produce_batch,
          guard,
          ap (λ x. x.0) read-eq,
          ap (λ x. x.1) read-eq,
          bytes-eq,
          remaining-eq,
          count_to_read-eq,
          some_records,
          same,
        )
        refl
    where
      more : 0 < length left
      more = omega (arith, below, le-mul_of_pos_right n positive, h)

      guard :
          (not c.valid || not c.cbf_file.file.good || not (is_positive c.data_bytes_remaining))
          ≡ false
      guard =
          unfold is_positive in
          ground (arith, d.valid, ap (λ f. f.good) d.stream, d.remaining, more, small)

      some_records : (n == 0) ≡ false
      some_records = ground (arith, h)

      same : (n * size == n * size) ≡ true
      same = ground arith

      remaining-eq : sub64 c.data_bytes_remaining (n * size) ≡ length left - n * size
      remaining-eq =
          ap (λ k. sub64 k (n * size)) d.remaining
          ∙ sub64-eq (length left) (n * size) below (omega (arith, small))

  filled-chunk : take (n * size) filled ≡ chunk
  filled-chunk =
      take-copied (n * size) chunk memory length-chunk
        (omega (arith, room, mul-le-mul_right {m = n} {n = capacity} size (omega arith)))

  taken-eq : take (n * c.record_size) filled ≡ chunk
  taken-eq = ap (λ k. take (n * k) filled) d.sized ∙ filled-chunk

  ahead : 0 < length left - n * size → IsReading size rest advanced
  ahead h = record {
    before = d.before ++ chunk;
    records = d.records - n;
    gcount = n * size;
    valid = d.valid;
    stream =
        ap₂ (λ bytes place. at_place bytes place (n * size))
          (ap (λ xs. d.before ++ xs) whole ∙ sym (append_assoc d.before chunk rest))
          (omega (arith, length-append d.before chunk, length-chunk));
    mode = d.mode;
    sized = d.sized;
    remaining = omega (arith, length-drop (n * size) left);
    whole = omega (
      arith,
      length-drop (n * size) left,
      d.whole,
      add-mul n (d.records - n) size,
      ap (λ k. k * size) parts,
    );
  }
    where
      parts : n + (d.records - n) ≡ d.records
      parts = omega arith

  ended :
      length left - n * size ≡ 0
      → (rest ≡ [])
        × ((next_data_section (length (d.before ++ left) + 1) advanced).data_bytes_remaining ≡ 0)
  ended e = (
    drop-all (n * size) left (omega (arith, e)),
    ap (λ k. (next_data_section k advanced).data_bytes_remaining) fuel
        ∙ next_data_section-end (length (d.before ++ left)) advanced (d.before ++ left) (n * size)
            at_last
        ∙ e,
  )
    where
      fuel : length (d.before ++ left) + 1 ≡ suc (length (d.before ++ left))
      fuel = omega arith

      at_last : there ≡ at_place (d.before ++ left) (length (d.before ++ left)) (n * size)
      at_last =
          ap (λ k. at_place (d.before ++ left) k (n * size))
            (omega (arith, length-append d.before left, e, below))

  abbrev Produces : ℕ × List Byte × CbfReader → Type 0
  Produces out = (take (out.0 * c.record_size) out.1 ≡ chunk) × HasLeft size rest out.2

  produced : 0 < n → Produces (produce_batch capacity memory c)
  produced h = elim (Bool-cases (length left - n * size == 0)) [
    | inl e ↦
        subst Produces
          (sym (
            is_full h
            ∙ ap
                (λ b.
                  if b
                  then (n, filled, next_data_section (length (d.before ++ left) + 1) advanced)
                  else (n, filled, advanced))
                e))
          (taken-eq, inl (ended (==→eq (length left - n * size) 0 e)))
    | inr e ↦
        subst Produces
          (sym (
            is_full h
            ∙ ap
                (λ b.
                  if b
                  then (n, filled, next_data_section (length (d.before ++ left) + 1) advanced)
                  else (n, filled, advanced))
                e))
          (taken-eq, inr (ahead (ground (arith, e))))
  ]

  -- A batch without slots, or past the last record.
  idle : n ≡ 0 → Produces (produce_batch capacity memory c)
  idle e = elim (Bool-cases (length left == 0)) [
    | inl f ↦
        subst Produces
          (sym (produce_batch-past capacity memory c (d.remaining ∙ ==→eq (length left) 0 f)))
          (
            no_bytes ∙ sym chunk-nil,
            inl (
              drop-all (n * size) left (omega (arith, ==→eq (length left) 0 f)),
              d.remaining ∙ ==→eq (length left) 0 f,
            ),
          )
    | inr f ↦
        subst Produces (sym (nothing f))
          (no_bytes ∙ sym chunk-nil, inr (subst (λ k. IsReading size (drop k left) c) (sym none) d))
  ]
    where
      none : n * size ≡ 0
      none = ap (λ k. k * size) e ∙ omega arith

      no_bytes : take (0 * c.record_size) memory ≡ []
      no_bytes = let z : 0 * c.record_size ≡ 0 = omega arith in ap (λ k. take k memory) z

      chunk-nil : chunk ≡ []
      chunk-nil = ap (λ k. take k left) none

      nothing : (length left == 0) ≡ false → produce_batch capacity memory c ≡ (0, memory, c)
      nothing f =
          unfold produce_batch in simp (produce_batch, guard, count_to_read-eq, zero_count) refl
        where
          guard :
              (not c.valid || not c.cbf_file.file.good || not (is_positive c.data_bytes_remaining))
              ≡ false
          guard =
              unfold is_positive in
              ground (arith, d.valid, ap (λ f. f.good) d.stream, d.remaining, f, small)

          zero_count : (n == 0) ≡ true
          zero_count = ground (arith, e)

  pub produce_batch-HasLeft : Produces (produce_batch capacity memory c)
  produce_batch-HasLeft = elim (Bool-cases (n == 0)) [
    | inl e ↦ idle (==→eq n 0 e)
    | inr e ↦ produced (ground (arith, e))
  ]

-- What a run reads once nothing is left.
drain-past :
    (batches : List (ℕ × List Byte)) (c : CbfReader)
    → c.data_bytes_remaining ≡ 0
    → (drain batches c).0 ≡ []
drain-past [] c e = refl
drain-past ((capacity, memory) ∷ batches) c e =
    ap (λ out. take (out.0 * c.record_size) out.1 ++ (drain batches out.2).0)
      (produce_batch-past capacity memory c e)
    ∙ ap (λ k. take k memory ++ (drain batches (record c { running = false })).0) none
    ∙ drain-past batches (record c { running = false }) e
  where
    none : 0 * c.record_size ≡ 0
    none = omega arith

-- A run of batches reads the records in order.
pub drain-left :
    (size : ℕ) (batches : List (ℕ × List Byte)) (left : List Byte) (c : CbfReader)
    → 0 < size
    → length left < 2 ^ 63
    → AllRoom size batches
    → HasLeft size left c
    → (drain batches c).0 ≡ take (slots batches * size) left
drain-left size batches left c positive small room (inl past) =
    drain-past batches c past.1
    ∙ sym (ap (take (slots batches * size)) past.0 ∙ take-nil (slots batches * size))
drain-left size [] left c positive small room (inr d) =
    let z : 0 ≡ 0 * size = omega arith in ap (λ k. take k left) z
drain-left size ((capacity, memory) ∷ batches) left c positive small room (inr d) =
    ap₂ (λ xs ys. xs ++ ys) out.0
      (drain-left size batches (drop (n * size) left) (produce_batch capacity memory c).2 positive
        (omega (arith, length-drop (n * size) left, small)) room.1 out.1)
    ∙ joined
  where
    n : ℕ
    n = min capacity d.records

    out :
        (take
            ((produce_batch capacity memory c).0 * c.record_size)
            (produce_batch capacity memory c).1
          ≡ take (n * size) left)
        × HasLeft size (drop (n * size) left) (produce_batch capacity memory c).2
    out = produce_batch-HasLeft positive small capacity memory room.0 d

    joined :
        take (n * size) left ++ take (slots batches * size) (drop (n * size) left)
        ≡ take ((capacity + slots batches) * size) left
    joined = take-add (n * size) (slots batches * size) left ∙ all (capacity_cases)
      where
        capacity_cases : (n ≡ capacity) ⊎ (d.records ≤ capacity)
        capacity_cases = elim (Bool-cases (ltb capacity d.records)) [
          | inl e ↦ inl (ground (arith, e))
          | inr e ↦ inr (ground (arith, e))
        ]

        all :
            (n ≡ capacity) ⊎ (d.records ≤ capacity)
            → take (n * size + slots batches * size) left
              ≡ take ((capacity + slots batches) * size) left
        all (inl e) =
            ap (λ k. take k left)
              (sym (add-mul n (slots batches) size) ∙ ap (λ k. (k + slots batches) * size) e)
        all (inr h) =
            take-all (n * size + slots batches * size) left (omega (arith, records_read, d.whole))
            ∙ sym (
                take-all ((capacity + slots batches) * size) left (
                  omega (
                    arith,
                    d.whole,
                    mul-le-mul_right {m = d.records} {n = capacity + slots batches} size
                        (omega (arith, h)),
                  )))
          where
            records_read : n * size ≡ d.records * size
            records_read = let e : n ≡ d.records = omega (arith, h) in ap (λ k. k * size) e
