-- ===== src/RecRule/TextForm/Reread.antt =====
-- The rule that `fromText` makes of a text of `toText`.
use cyc_flow.Base.{
  ℕ, ◌<◌, ◌≡◌, refl, ap, sym, ◌∙◌, inl, inr, false, if◌then◌else◌, Bool-cases, Option, none, some,
  List, [], ◌∷◌, length, mul64, arith,
}
use cyc_flow.Text.{Text}
use cyc_flow.Text.Decimal.{print, read_ulong, read_ulong-print}
use cyc_flow.Text.Fields.{fields, fields-sep}
use cyc_flow.DataType.{
  data_type_to_string, data_type_from_string, data_type_from_string-to_string, reread,
}
use cyc_flow.PReg.{PReg}
use cyc_flow.PAttr.{PAttr, Result, ok, err, plain, with_bits, has_bit_fields, get_size}
use cyc_flow.RecRule.{RecRule, build_header, place, lay_out}
use cyc_flow.RecRule
use cyc_flow.RecRule.TextForm.{
  semicolon, comma, newline, tokens, bit_column, line_of, lines_of, to_text, is_system_header,
  c_str, attr_of, read_parts, read_line, read_lines, from_text,
}
use cyc_flow.RecRule.TextForm.RoundTrip.{
  IsWritable, lacks-newline, lacks-carriage_return, chomp-kept, c_str-type, fifth, fields-line_of,
  fields-join, tokens-AllWords, tokens-length,
}

-- The attribute that the constructors make of an attribute's name, type, count and bits.
abbrev pub remade : PReg → PAttr → PReg → Result PAttr × PReg
remade known a r =
    if has_bit_fields a
    then with_bits a.name (reread a.type) (tokens known (mul64 (get_size a) 8) 0 a.bit_ids) r
    else (ok (plain a.name (reread a.type) a.count r).0, (plain a.name (reread a.type) a.count r).1)

-- All attributes but those of the header are made again, up to the first failure.
abbrev pub remade_all : List PAttr → PReg → List PAttr → PReg → Result (List PAttr) × PReg
remade_all headers known [] r = (ok [], r)
remade_all headers known (a ∷ attrs) r =
    let (made, r') = remade known a r in
    let skipped = remade_all headers known attrs r in
    let (more, r'') = remade_all headers known attrs r' in
    if is_system_header headers a.name then skipped else elim made [
      | err e ↦ (err e, r')
      | ok b ↦ elim more [ err e ↦ (err e, r'') | ok attrs' ↦ (ok (b ∷ attrs'), r'') ]
    ]

attr_of-bits :
    (name type_name count_text offset column : Text) (count : ℕ) (ss : List Text) (r : PReg)
    → read_ulong count_text ≡ ok count
    → fields comma column ≡ ss
    → 0 < length ss
    → attr_of name type_name count_text (offset ∷ column ∷ []) r
      ≡ with_bits name (data_type_from_string (c_str type_name)) ss r
unfolding attr_of
attr_of-bits name type_name count_text offset column count [] r e f h = absurd (omega arith)
attr_of-bits name type_name count_text offset column count (s ∷ ss) r e f h =
    rw (attr_of, e, f) refl

attr_of-plain :
    (name type_name count_text offset : Text) (count : ℕ) (r : PReg)
    → read_ulong count_text ≡ ok count
    → attr_of name type_name count_text (offset ∷ []) r ≡ (
      ok (plain name (data_type_from_string (c_str type_name)) count r).0,
      (plain name (data_type_from_string (c_str type_name)) count r).1,
    )
unfolding attr_of
attr_of-plain name type_name count_text offset count r e = rw (attr_of, e) refl

attr_of-remade :
    (known : PReg) (a : PAttr) (r : PReg)
    → IsWritable known a
    → attr_of a.name (data_type_to_string a.type) (print a.count) (print a.offset ∷ fifth known a) r
      ≡ remade known a r
attr_of-remade known a r w = elim (Bool-cases (has_bit_fields a)) [
  | inl e ↦ rw e (
      attr_of-bits a.name (data_type_to_string a.type) (print a.count) (print a.offset)
        (bit_column known a) a.count written r (read_ulong-print a.count w.count_small) cut
        (tokens-length known (mul64 (get_size a) 8) 0 a.bit_ids (omega (arith, w.has_bits)))
      ∙ ap (λ t. with_bits a.name t written r) type)
  | inr e ↦ rw e (
      attr_of-plain a.name (data_type_to_string a.type) (print a.count) (print a.offset) a.count r
        (read_ulong-print a.count w.count_small)
      ∙ ap (λ t. (ok (plain a.name t a.count r).0, (plain a.name t a.count r).1)) type)
]
  where
    written : List Text
    written = tokens known (mul64 (get_size a) 8) 0 a.bit_ids

    cut : fields comma (bit_column known a) ≡ written
    cut =
        unfold bit_column in
        fields-join written (tokens-AllWords known (mul64 (get_size a) 8) 0 a.bit_ids w.named)

    type : data_type_from_string (c_str (data_type_to_string a.type)) ≡ reread a.type
    type = ap data_type_from_string (c_str-type a.type) ∙ data_type_from_string-to_string a.type

abbrev pub wrapped : Result PAttr × PReg → Result (Option PAttr) × PReg
wrapped (made, r) = elim made [ err e ↦ (err e, r) | ok a ↦ (ok (some a), r) ]

read_line-line_of :
    (headers : List PAttr) (known : PReg) (a : PAttr) (r : PReg)
    → IsWritable known a
    → read_line headers (line_of known a) r
      ≡ (if is_system_header headers a.name then (ok none, r) else wrapped (remade known a r))
unfolding read_line read_parts
read_line-line_of headers known a r w =
    ap (λ s. read_parts headers (fields semicolon s) r)
      (chomp-kept (line_of known a) (lacks-carriage_return known a w))
    ∙ ap (λ ss. read_parts headers ss r) (fields-line_of known a w)
    ∙ ap (λ made. if is_system_header headers a.name then (ok none, r) else wrapped made)
        (attr_of-remade known a r w)

-- A line's attribute, then the rest.
abbrev pub continue :
    Result (Option PAttr) × PReg → (PReg → Result (List PAttr) × PReg) → Result (List PAttr) × PReg
continue (err e, r) rest = (err e, r)
continue (ok none, r) rest = rest r
continue (ok (some a), r) rest = elim (rest r).0 [
  | err e ↦ (err e, (rest r).1)
  | ok attrs ↦ (ok (a ∷ attrs), (rest r).1)
]

continue-ext :
    (x : Result (Option PAttr) × PReg) (f g : PReg → Result (List PAttr) × PReg)
    → ((r : PReg) → f r ≡ g r)
    → continue x f ≡ continue x g
continue-ext (err e, r) f g h = refl
continue-ext (ok none, r) f g h = h r
continue-ext (ok (some a), r) f g h =
    ap (λ p. elim p.0 [ err e ↦ (err e, p.1) | ok attrs ↦ (ok (a ∷ attrs), p.1) ]) (h r)

read_lines-cons :
    (headers : List PAttr) (line : Text) (lines : List Text) (r : PReg)
    → read_lines headers (line ∷ lines) r
      ≡ continue (read_line headers line r) (read_lines headers lines)
unfolding read_lines
read_lines-cons headers line lines r = from (read_line headers line r)
  where
    from :
        (x : Result (Option PAttr) × PReg)
        → elim x.0 [
          | err e ↦ (err e, x.1)
          | ok none ↦ ((read_lines headers lines x.1).0, (read_lines headers lines x.1).1)
          | ok (some a) ↦ elim (read_lines headers lines x.1).0 [
            | err e ↦ (err e, (read_lines headers lines x.1).1)
            | ok attrs ↦ (ok (a ∷ attrs), (read_lines headers lines x.1).1)
          ]
        ]
          ≡ continue x (read_lines headers lines)
    from (err e, r) = refl
    from (ok none, r) = refl
    from (ok (some a), r) = refl

pub remade_all-cons :
    (headers : List PAttr) (known : PReg) (a : PAttr) (attrs : List PAttr) (r : PReg)
    → remade_all headers known (a ∷ attrs) r
      ≡ continue
          (if is_system_header headers a.name then (ok none, r) else wrapped (remade known a r))
          (remade_all headers known attrs)
remade_all-cons headers known a attrs r = elim (Bool-cases (is_system_header headers a.name)) [
  | inl e ↦ rw e refl
  | inr e ↦ rw e (from (remade known a r))
]
  where
    from :
        (x : Result PAttr × PReg)
        → elim x.0 [
          | err e ↦ (err e, x.1)
          | ok b ↦ elim (remade_all headers known attrs x.1).0 [
            | err e ↦ (err e, (remade_all headers known attrs x.1).1)
            | ok attrs' ↦ (ok (b ∷ attrs'), (remade_all headers known attrs x.1).1)
          ]
        ]
          ≡ continue (wrapped x) (remade_all headers known attrs)
    from (err e, r) = refl
    from (ok b, r) = refl

abbrev pub AllWritable : PReg → List PAttr → Type 0
AllWritable known [] = Unit {0}
AllWritable known (a ∷ attrs) = IsWritable known a × AllWritable known attrs

read_lines-remade :
    (headers : List PAttr) (known : PReg) (attrs : List PAttr) (r : PReg)
    → AllWritable known attrs
    → read_lines headers (fields newline (lines_of known attrs)) r
      ≡ remade_all headers known attrs r
unfolding lines_of read_lines
read_lines-remade headers known [] r w = unfold fields in refl
read_lines-remade headers known (a ∷ attrs) r w =
    ap (λ ss. read_lines headers ss r)
      (fields-sep newline (line_of known a) (lines_of known attrs) (lacks-newline known a w.0))
    ∙ read_lines-cons headers (line_of known a) (fields newline (lines_of known attrs)) r
    ∙ ap (λ x. continue x (read_lines headers (fields newline (lines_of known attrs))))
        (read_line-line_of headers known a r w.0)
    ∙ continue-ext
        (if is_system_header headers a.name then (ok none, r) else wrapped (remade known a r))
        (read_lines headers (fields newline (lines_of known attrs)))
        (remade_all headers known attrs) (λ r'. read_lines-remade headers known attrs r' w.1)
    ∙ sym (remade_all-cons headers known a attrs r)

-- The text of a rule read back, in the code's own words for the bits.
pub from_text-remade :
    (known : PReg) (rule : RecRule) (r : PReg)
    → AllWritable known rule.attrs
    → let (headers, r') = build_header r in
      let (made, r'') = remade_all headers known rule.attrs r' in
      from_text (to_text known rule) r
      ≡ elim made [ err e ↦ (err e, r'') | ok attrs ↦ RecRule.init attrs false r'' ]
unfolding from_text to_text
from_text-remade known rule r w =
    ap (λ x. elim x.0 [ err e ↦ (err e, x.1) | ok attrs ↦ RecRule.init attrs false x.1 ])
      (read_lines-remade (build_header r).0 known rule.attrs (build_header r).1 w)
