-- ===== src/RecRule/TextForm/RoundTrip.antt =====
-- What `fromText` makes of the lines of `toText`.
use cyc_flow.Base.{
  ℕ, zero, suc, ◌+◌, ◌<◌, ◌≡◌, refl, ap, ◌∙◌, ◌⊎◌, inl, inr, true, false, ◌==◌, if◌then◌else◌,
  Bool-cases, List, [], ◌∷◌, ◌++◌, append-nil, length, mul64, word, arith,
}
use cyc_flow.Text.{Text, is_digit}
use cyc_flow.Text.Decimal.{print, digits, all_digits-digits, length-digits, lacks-all_digits}
use cyc_flow.Text.Fields.{fields, join, lacks, lacks-append, fields-sep, fields-whole}
use cyc_flow.DataType.{DataType, data_type_to_string}
use cyc_flow.PReg.{PReg, get_name}
use cyc_flow.PAttr.{PAttr, has_bit_fields, get_size}
use cyc_flow.RecRule.TextForm.{
  semicolon, comma, newline, carriage_return, run_of, tokens, bit_column, bits_part, part, line_of,
  chomp, c_str,
}

-- A name that a line can hold.
abbrev pub IsWord : Text → Type 0
IsWord s = (lacks semicolon s ≡ true) × (lacks newline s ≡ true) × (lacks carriage_return s ≡ true)

abbrev pub IsBitWord : Text → Type 0
IsBitWord s = (0 < length s) × (lacks comma s ≡ true) × IsWord s

abbrev pub AllNamed : PReg → List ℕ → Type 0
AllNamed r [] = Unit {0}
AllNamed r (bid ∷ bits) = ((bid ≡ 0) ⊎ IsBitWord (get_name bid r)) × AllNamed r bits

abbrev pub AllWords : List Text → Type 0
AllWords [] = Unit {0}
AllWords (s ∷ rest) = IsBitWord s × AllWords rest

-- The text of an attribute that can be written.
pub record IsWritable (r : PReg) (a : PAttr) : Type 0 where
  pub word_name : IsWord a.name
  pub count_small : a.count < word
  pub has_bits : 0 < mul64 (get_size a) 8
  pub named : AllNamed r a.bit_ids

digit_word : (sep : ℕ) (n k : ℕ) → is_digit sep ≡ false → lacks sep (digits n k) ≡ true
digit_word sep n k e = lacks-all_digits sep (digits n k) e (all_digits-digits n k)

print-IsBitWord : (k : ℕ) → IsBitWord (print k)
unfolding print is_digit
print-IsBitWord k = (
  length-digits 19 k,
  digit_word comma 20 k refl,
  (
    digit_word semicolon 20 k refl,
    digit_word newline 20 k refl,
    digit_word carriage_return 20 k refl,
  ),
)

run_of-AllWords : (skip : ℕ) (rest : List Text) → AllWords rest → AllWords (run_of skip rest)
run_of-AllWords zero rest h = h
run_of-AllWords (suc skip) rest h = (print-IsBitWord (suc skip), h)

pub tokens-AllWords :
    (r : PReg) (left skip : ℕ) (bits : List ℕ)
    → AllNamed r bits
    → AllWords (tokens r left skip bits)
unfolding tokens
tokens-AllWords r zero skip bits h = run_of-AllWords skip [] tt
tokens-AllWords r (suc left) skip [] h = tokens-AllWords r left (skip + 1) [] tt
tokens-AllWords r (suc left) skip (bid ∷ bits) h = elim (Bool-cases (bid == 0)) [
  | inl e ↦ rw e (tokens-AllWords r left (skip + 1) bits h.1)
  | inr e ↦ rw e (
      run_of-AllWords skip (get_name bid r ∷ tokens r left 0 bits)
        (name e h.0, tokens-AllWords r left 0 bits h.1))
]
  where
    name : (bid == 0) ≡ false → (bid ≡ 0) ⊎ IsBitWord (get_name bid r) → IsBitWord (get_name bid r)
    name e (inl z) = absurd (ground (arith, e, z))
    name e (inr w) = w

-- Some bit is left, so that something is written.
pub tokens-length :
    (r : PReg) (left skip : ℕ) (bits : List ℕ)
    → 0 < left + skip
    → 0 < length (tokens r left skip bits)
unfolding tokens
tokens-length r zero zero bits h = absurd (omega arith)
tokens-length r zero (suc skip) bits h = omega arith
tokens-length r (suc left) skip [] h = tokens-length r left (skip + 1) [] (omega arith)
tokens-length r (suc left) skip (bid ∷ bits) h = elim (Bool-cases (bid == 0)) [
  | inl e ↦ rw e (tokens-length r left (skip + 1) bits (omega arith))
  | inr e ↦ rw e (run_length skip)
]
  where
    run_length : (skip : ℕ) → 0 < length (run_of skip (get_name bid r ∷ tokens r left 0 bits))
    run_length zero = omega arith
    run_length (suc skip) = omega arith

-- The column is cut into the tokens again.
pub fields-join : (ss : List Text) → AllWords ss → fields comma (join comma ss) ≡ ss
unfolding join
fields-join [] h = unfold fields in refl
fields-join ([] ∷ []) h = absurd (omega (arith, h.0.0))
fields-join ((c ∷ s) ∷ []) h = fields-whole comma (c ∷ s) h.0.0 h.0.1
fields-join (s ∷ t ∷ rest) h =
    fields-sep comma s (join comma (t ∷ rest)) h.0.1
    ∙ ap (λ ts. s ∷ ts) (fields-join (t ∷ rest) h.1)

length-join : (ss : List Text) → AllWords ss → 0 < length ss → 0 < length (join comma ss)
unfolding join
length-join [] h p = absurd (omega arith)
length-join (s ∷ []) h p = h.0.0
length-join ([] ∷ t ∷ rest) h p = absurd (omega (arith, h.0.0))
length-join ((c ∷ s) ∷ t ∷ rest) h p = omega arith

type-IsWord : (t : DataType) → IsWord (data_type_to_string t)
unfolding data_type_to_string lacks
type-IsWord DataType.undefine = (refl, refl, refl)
type-IsWord _ = (refl, refl, refl)

pub c_str-type : (t : DataType) → c_str (data_type_to_string t) ≡ data_type_to_string t
unfolding data_type_to_string c_str
c_str-type DataType.undefine = refl
c_str-type _ = refl

module _ (sep : ℕ) (not_comma : (comma == sep) ≡ false)
    (free : (s : Text) → IsWord s → lacks sep s ≡ true) where
  lacks-join : (ss : List Text) → AllWords ss → lacks sep (join comma ss) ≡ true
  unfolding join lacks
  lacks-join [] h = refl
  lacks-join (s ∷ []) h = free s h.0.2
  lacks-join (s ∷ t ∷ rest) h =
      lacks-append sep s (comma ∷ join comma (t ∷ rest)) (free s h.0.2)
        (ground (arith, not_comma, lacks-join (t ∷ rest) h.1))

-- A line has none of the bytes that end it early.
module _ (sep : ℕ) (not_digit : is_digit sep ≡ false) (not_comma : (comma == sep) ≡ false)
    (not_semicolon : (semicolon == sep) ≡ false)
    (free : (s : Text) → IsWord s → lacks sep s ≡ true) where
  behind : (s t : Text) → lacks sep s ≡ true → lacks sep t ≡ true → lacks sep (part s t) ≡ true
  unfolding lacks
  behind s t h k = lacks-append sep s (semicolon ∷ t) h (ground (arith, not_semicolon, k))

  print_word : (k : ℕ) → lacks sep (print k) ≡ true
  unfolding print
  print_word k = digit_word sep 20 k not_digit

  lacks-bits_part : (r : PReg) (a : PAttr) → AllNamed r a.bit_ids → lacks sep (bits_part r a) ≡ true
  unfolding bits_part bit_column lacks
  lacks-bits_part r a h = elim (Bool-cases (has_bit_fields a)) [
    | inl e ↦ rw e (
        ground (
          arith,
          not_semicolon,
          lacks-join sep not_comma free (tokens r (mul64 (get_size a) 8) 0 a.bit_ids)
              (tokens-AllWords r (mul64 (get_size a) 8) 0 a.bit_ids h),
        ))
    | inr e ↦ rw e refl
  ]

  lacks-line_of : (r : PReg) (a : PAttr) → IsWritable r a → lacks sep (line_of r a) ≡ true
  unfolding line_of
  lacks-line_of r a w =
      behind a.name
        (part (data_type_to_string a.type) (part (print a.count) (print a.offset ++ bits_part r a)))
        (free a.name w.word_name)
        (behind (data_type_to_string a.type)
          (part (print a.count) (print a.offset ++ bits_part r a))
          (free (data_type_to_string a.type) (type-IsWord a.type))
          (behind (print a.count) (print a.offset ++ bits_part r a) (print_word a.count) (
            lacks-append sep (print a.offset) (bits_part r a) (print_word a.offset)
              (lacks-bits_part r a w.named))))

pub lacks-newline : (r : PReg) (a : PAttr) → IsWritable r a → lacks newline (line_of r a) ≡ true
unfolding is_digit
lacks-newline = lacks-line_of newline refl refl refl (λ s w. w.1)

pub lacks-carriage_return :
    (r : PReg) (a : PAttr) → IsWritable r a → lacks carriage_return (line_of r a) ≡ true
unfolding is_digit
lacks-carriage_return = lacks-line_of carriage_return refl refl refl (λ s w. w.2)

pub chomp-kept : (s : Text) → lacks carriage_return s ≡ true → chomp s ≡ s
unfolding chomp lacks
chomp-kept [] h = refl
chomp-kept (c ∷ []) h = ground (arith, h)
chomp-kept (c ∷ d ∷ s) h = ap (λ t. c ∷ t) (chomp-kept (d ∷ s) (ground (arith, h)))

-- The parts of a line.
abbrev pub fifth : PReg → PAttr → List Text
fifth r a = if has_bit_fields a then bit_column r a ∷ [] else []

fields-last_parts :
    (r : PReg) (a : PAttr)
    → IsWritable r a
    → fields semicolon (print a.offset ++ bits_part r a) ≡ print a.offset ∷ fifth r a
unfolding bits_part bit_column
fields-last_parts r a w = elim (Bool-cases (has_bit_fields a)) [
  | inl e ↦ rw e (
      fields-sep semicolon (print a.offset) column (print-IsBitWord a.offset).2.0
      ∙ ap (λ ss. print a.offset ∷ ss)
          (fields-whole semicolon column (length-join written words some_written)
            (column_word written words)))
  | inr e ↦
      rw (e, append-nil (print a.offset))
        (fields-whole semicolon (print a.offset) (print-IsBitWord a.offset).0
          (print-IsBitWord a.offset).2.0)
]
  where
    written : List Text
    written = tokens r (mul64 (get_size a) 8) 0 a.bit_ids

    words : AllWords written
    words = tokens-AllWords r (mul64 (get_size a) 8) 0 a.bit_ids w.named

    some_written : 0 < length written
    some_written = tokens-length r (mul64 (get_size a) 8) 0 a.bit_ids (omega (arith, w.has_bits))

    column : Text
    column = join comma written

    column_word : (ss : List Text) → AllWords ss → lacks semicolon (join comma ss) ≡ true
    column_word = lacks-join semicolon refl (λ s w. w.0)

pub fields-line_of :
    (r : PReg) (a : PAttr)
    → IsWritable r a
    → fields semicolon (line_of r a)
      ≡ a.name ∷ data_type_to_string a.type ∷ print a.count ∷ print a.offset ∷ fifth r a
unfolding line_of
fields-line_of r a w =
    fields-sep semicolon a.name
      (part (data_type_to_string a.type) (part (print a.count) (print a.offset ++ bits_part r a)))
      w.word_name.0
    ∙ ap (λ ss. a.name ∷ ss)
        (fields-sep semicolon (data_type_to_string a.type)
            (part (print a.count) (print a.offset ++ bits_part r a)) (type-IsWord a.type).0
          ∙ ap (λ ss. data_type_to_string a.type ∷ ss)
              (fields-sep semicolon (print a.count) (print a.offset ++ bits_part r a)
                  (print-IsBitWord a.count).2.0
                ∙ ap (λ ss. print a.count ∷ ss) (fields-last_parts r a w)))
