-- ===== src/Tests/Texts.antt =====
-- Rules as text: small runs, and the theorems at concrete rules.
use cyc_flow.Base.{length, ◌≡◌, refl, inl, inr, true, false, [], ◌∷◌, ◌++◌, mul64, add64, arith}
use cyc_flow.Text.{codes, strncpy, text_eq, is_digit, decimal}
use cyc_flow.Text.Decimal.{
  digits, print, read_ulong, read_signed, read_run, digit_run, skip_space, is_space,
}
use cyc_flow.Text.Fields.{fields, join, lacks}
use cyc_flow.DataType.{DataType, get_type_size, data_type_to_string, data_type_from_string}
use cyc_flow.PReg.{PReg, find, get_id, get_name}
use cyc_flow.PAttr.{PAttr, Result, ok, err, plain, has_bit_fields, get_size}
use cyc_flow.RecRule.{
  RecRule, build_header, lay_out, place, stable_sort, insert, max_elem, pad, fill, fill_one,
  max_field_id, cache_bits,
}
use cyc_flow.RecRule
use cyc_flow.RecRule.TextForm.{
  to_text, from_text, lines_of, line_of, bits_part, bit_column, tokens, is_system_header,
  read_lines, read_line, read_parts, attr_of, chomp, c_str,
}
use cyc_flow.RecRule.TextForm.Reread.{AllWritable}
use cyc_flow.RecRule.TextForm.Columns.{bit_names}
use cyc_flow.RecRule.TextForm.Rebuilt.{rebuilt_all, AllNarrow, from_text-rebuilt}
use cyc_flow.RecRule.TextForm.Same.{AllPlain, from_text-to_text}

abbrev pub registry : PReg
registry = record {
  name_to_id = (codes "on", 4) ∷ (codes "b", 3) ∷ (codes "a", 2) ∷ (codes "TimeStamp", 1) ∷ [];
  id_to_name = codes "TimeStamp" ∷ codes "a" ∷ codes "b" ∷ codes "on" ∷ [];
}

abbrev pub field_a : PAttr
field_a = record {
  id = 2;
  name = codes "a";
  type = DataType.int8;
  count = 3;
  offset = 0;
  bit_ids = [];
}

abbrev pub field_b : PAttr
field_b = record {
  id = 3;
  name = codes "b";
  type = DataType.double;
  count = 1;
  offset = 0;
  bit_ids = [];
}

-- Bit 1 of `a` has a name.
abbrev bits_a : PAttr
bits_a = record {
  id = 2;
  name = codes "a";
  type = DataType.uint8;
  count = 1;
  offset = 8;
  bit_ids = 0 ∷ 4 ∷ [];
}

a_line : line_of registry bits_a ≡ codes "a;UInt8;1;8;1,on,6"
unfolding line_of bits_part bit_column tokens has_bit_fields get_size get_type_size mul64
    data_type_to_string print digits get_name join
a_line = refl

abbrev pub rule_of : Result RecRule → RecRule
rule_of (err e) = RecRule.blank
rule_of (ok rule) = rule

abbrev pub plain_rule : RecRule
plain_rule = rule_of (RecRule.init (field_a ∷ field_b ∷ []) false registry).0

pub made : RecRule.init (field_a ∷ field_b ∷ []) false registry ≡ (ok plain_rule, registry)
unfolding RecRule.init build_header lay_out place fill fill_one max_field_id plain strncpy get_id
    find text_eq has_bit_fields get_size get_type_size mul64 add64
made = refl

pub all_plain : AllPlain (build_header registry).0 registry (field_a ∷ field_b ∷ [])
unfolding build_header plain strncpy find text_eq is_system_header lacks mul64 get_size
    get_type_size
all_plain = (
  record {
    no_bits = refl;
    unplaced = refl;
    kept_type = refl;
    short = refl;
    known = refl;
    user = refl;
    word_name = (refl, refl, refl);
    count_small = omega arith;
    sized = omega arith;
  },
  (
    record {
      no_bits = refl;
      unplaced = refl;
      kept_type = refl;
      short = refl;
      known = refl;
      user = refl;
      word_name = (refl, refl, refl);
      count_small = omega arith;
      sized = omega arith;
    },
    tt,
  ),
)

from_text-to_text_example :
    from_text (to_text registry plain_rule) registry ≡ (ok plain_rule, registry)
from_text-to_text_example =
    from_text-to_text (field_a ∷ field_b ∷ []) plain_rule registry made all_plain

writable : AllWritable registry (bits_a ∷ [])
unfolding get_name lacks mul64 get_size get_type_size
writable = (
  record {
    word_name = (refl, refl, refl);
    count_small = omega arith;
    has_bits = omega arith;
    named = (inl refl, (inr (omega arith, refl, (refl, refl, refl)), tt));
  },
  tt,
)

narrow : AllNarrow (bits_a ∷ [])
unfolding mul64 get_size get_type_size
narrow = (omega arith, tt)

-- The first bit has no name, the second is `on`, and six follow.
bit_names_of_a :
    bit_names registry 8 bits_a.bit_ids ≡ [] ∷ codes "on" ∷ [] ∷ [] ∷ [] ∷ [] ∷ [] ∷ [] ∷ []
unfolding get_name
bit_names_of_a = refl

from_text-rebuilt_example :
    let rule : RecRule = record RecRule.blank { attrs = bits_a ∷ [] } in
    let (headers, r') = build_header registry in
    let (made, r'') = rebuilt_all headers registry rule.attrs r' in
    from_text (to_text registry rule) registry
    ≡ elim made [ err e ↦ (err e, r'') | ok attrs ↦ RecRule.init attrs false r'' ]
from_text-rebuilt_example =
    from_text-rebuilt registry (record RecRule.blank { attrs = bits_a ∷ [] }) registry writable
      narrow

-- An aligned rule of 24 bytes comes back as one of 19.
abbrev aligned_rule : RecRule
aligned_rule = rule_of (RecRule.init (field_a ∷ field_b ∷ []) true registry).0

lost_alignment :
    (aligned_rule.rec_size ≡ 24)
    × ((rule_of (from_text (to_text registry aligned_rule) registry).0).rec_size ≡ 19)
unfolding RecRule.init build_header lay_out place stable_sort insert max_elem pad fill fill_one
    max_field_id plain strncpy get_id find text_eq has_bit_fields get_size get_type_size mul64 add64
    from_text to_text lines_of line_of bits_part data_type_to_string data_type_from_string print
    digits fields read_lines read_line read_parts attr_of chomp c_str is_system_header read_ulong
    read_signed read_run digit_run skip_space is_space is_digit decimal
lost_alignment = (refl, refl)

pub plain_text :
    to_text registry plain_rule
    ≡ codes "TimeStamp;Double;1;0"
      ++ (10 ∷ codes "a;Int8;3;8" ++ (10 ∷ codes "b;Double;1;11" ++ (10 ∷ [])))
unfolding RecRule.init build_header lay_out place fill fill_one max_field_id plain strncpy get_id
    find text_eq has_bit_fields get_size get_type_size mul64 add64 to_text lines_of line_of
    bits_part data_type_to_string print digits
plain_text = refl

pub plain_size : plain_rule.rec_size ≡ 19
unfolding RecRule.init build_header lay_out place fill fill_one max_field_id plain strncpy get_id
    find text_eq has_bit_fields get_size get_type_size mul64 add64
plain_size = refl

pub plain_fields : length plain_rule.attrs ≡ 3
unfolding RecRule.init build_header lay_out place fill fill_one max_field_id plain strncpy get_id
    find text_eq has_bit_fields get_size get_type_size mul64 add64
plain_fields = refl
