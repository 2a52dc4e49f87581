-- ===== src/RecRule/TextForm.antt =====
-- `toText` and `fromText` of RecRule.cpp: a rule as lines of text.
-- The registry is read by `toText` and grows under `fromText`. A bit id is 0 or positive: a negative
-- one, which only 2^31 names give, is left out.
pub mod RoundTrip
pub mod Reread
pub mod Columns
pub mod Rebuilt
pub mod Same
use cyc_flow.Base.{
  ℕ, zero, suc, ◌+◌, ◌*◌, Bool, true, false, ◌||◌, ◌==◌, if◌then◌else◌, Option, none, some, List,
  [], ◌∷◌, ◌++◌, mul64,
}
use cyc_flow.Text.{Text, codes, text_eq, strncpy}
use cyc_flow.Text.Decimal.{print, read_ulong}
use cyc_flow.Text.Fields.{fields, join}
use cyc_flow.DataType.{data_type_to_string, data_type_from_string}
use cyc_flow.PReg.{PReg, get_name}
use cyc_flow.PAttr.{PAttr, Result, ok, err, plain, with_bits, has_bit_fields, get_size}
use cyc_flow.RecRule.{RecRule, build_header}
use cyc_flow.RecRule

abbrev pub semicolon : ℕ
semicolon = b';'

abbrev pub comma : ℕ
comma = b','

abbrev pub newline : ℕ
newline = 10

abbrev pub carriage_return : ℕ
carriage_return = 13

-- The number of a run of skipped bits, where there is one.
abbrev pub run_of : ℕ → List Text → List Text
run_of zero rest = rest
run_of (suc skip) rest = print (suc skip) ∷ rest

-- The loop over the `left` bits, of which the last `skip` were reserved: the tokens it writes.
unfoldable pub tokens : PReg → ℕ → ℕ → List ℕ → List Text
tokens r zero skip bits = run_of skip []
tokens r (suc left) skip [] = tokens r left (skip + 1) []
tokens r (suc left) skip (bid ∷ bits) =
    let reserved = tokens r left (skip + 1) bits in
    let named = get_name bid r ∷ tokens r left 0 bits in
    if bid == 0 then reserved else run_of skip named

unfoldable pub bit_column : PReg → PAttr → Text
bit_column r a = join comma (tokens r (mul64 (get_size a) 8) 0 a.bit_ids)

-- The fifth part, with its separator.
unfoldable pub bits_part : PReg → PAttr → Text
bits_part r a = if has_bit_fields a then semicolon ∷ bit_column r a else []

-- A part and its separator before the rest of the line.
abbrev pub part : Text → Text → Text
part s rest = s ++ (semicolon ∷ rest)

unfoldable pub line_of : PReg → PAttr → Text
line_of r a =
    part a.name
      (part (data_type_to_string a.type) (part (print a.count) (print a.offset ++ bits_part r a)))

unfoldable pub lines_of : PReg → List PAttr → Text
lines_of r [] = []
lines_of r (a ∷ attrs) = line_of r a ++ (newline ∷ lines_of r attrs)

unfoldable pub to_text : PReg → RecRule → Text
to_text r rule = lines_of r rule.attrs

-- The `pop_back` of a carriage return.
unfoldable pub chomp : Text → Text
chomp [] = []
chomp (c ∷ []) = if c == carriage_return then [] else c ∷ []
chomp (c ∷ d ∷ s) = c ∷ chomp (d ∷ s)

-- `strncmp` with the name of each header attribute.
unfoldable pub is_system_header : List PAttr → Text → Bool
is_system_header [] name = false
is_system_header (h ∷ headers) name =
    text_eq (strncpy 25 h.name) (strncpy 25 name) || is_system_header headers name

unfoldable pub c_str : Text → Text
c_str [] = []
c_str (c ∷ s) = let rest = c_str s in if c == 0 then [] else c ∷ rest

-- The attribute of a line with at least three parts.
unfoldable pub attr_of : Text → Text → Text → List Text → PReg → Result PAttr × PReg
attr_of name type_name count_text rest r =
    let type = data_type_from_string (c_str type_name) in
    elim (read_ulong count_text) [
      | err e ↦ (err e, r)
      | ok count ↦
          let (attr, r') = plain name type count r in
          elim rest [
            | offset ∷ column ∷ more ↦ elim (fields comma column) [
              | [] ↦ (ok attr, r')
              | def ∷ defs ↦ with_bits name type (def ∷ defs) r
            ]
            | _ ↦ (ok attr, r')
          ]
    ]

-- What one line adds: nothing where it has too few parts or names a header attribute.
unfoldable pub read_parts : List PAttr → List Text → PReg → Result (Option PAttr) × PReg
read_parts headers (name ∷ type_name ∷ count_text ∷ rest) r =
    let (made, r') = attr_of name type_name count_text rest r in
    if is_system_header headers name
    then (ok none, r)
    else elim made [ err e ↦ (err e, r') | ok a ↦ (ok (some a), r') ]
read_parts headers _ r = (ok none, r)

unfoldable pub read_line : List PAttr → Text → PReg → Result (Option PAttr) × PReg
read_line headers line r = read_parts headers (fields semicolon (chomp line)) r

unfoldable pub read_lines : List PAttr → List Text → PReg → Result (List PAttr) × PReg
read_lines headers [] r = (ok [], r)
read_lines headers (line ∷ lines) r =
    let (read, r') = read_line headers line r in
    let (more, r'') = read_lines headers lines r' in
    elim read [
      | err e ↦ (err e, r')
      | ok none ↦ (more, r'')
      | ok (some a) ↦ elim more [ err e ↦ (err e, r'') | ok attrs ↦ (ok (a ∷ attrs), r'') ]
    ]

unfoldable pub from_text : Text → PReg → Result RecRule × PReg
from_text text r =
    let (headers, r') = build_header r in
    let (read, r'') = read_lines headers (fields newline text) r' in
    elim read [ err e ↦ (err e, r'') | ok attrs ↦ RecRule.init attrs false r'' ]
