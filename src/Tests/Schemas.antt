-- ===== src/Tests/Schemas.antt =====
-- Runs of the schema's parts, and their theorems on small schemas.
use cyc_flow.Base.{
  subst, ◌+◌, ◌%◌, ◌≤◌, ◌<◌, ◌≡◌, ◌≢◌, ◌↔◌, refl, true, some, List, [], ◌∷◌, length, get_or,
  if◌then◌else◌, add64, mul64, arith,
}
use cyc_flow.Text.{Text, codes, text_eq, strncpy, is_digit, all_digits, decimal, stoul}
use cyc_flow.DataType.{
  is_integer_type, DataType, get_type_size, data_type_from_string, data_type_to_string,
  data_type_from_string-to_string,
}
use cyc_flow.PReg.{PReg, empty, find, register, get_id, get_name}
use cyc_flow.PReg.Inv.{IsValid, HasRoom, empty-IsValid, get_name-get_id, register-Registered}
use cyc_flow.PReg.Threads.{Step, Reach, register-agree}
use cyc_flow.PAttr.{
  PAttr, Result, Error, undefined, ok, err, plain, with_bits, place, is_unsigned_integer,
  has_bit_fields, trim,
}
use cyc_flow.PAttr
use cyc_flow.PAttr.Bits.{with_bits-defined}
use cyc_flow.RecRule.{
  RecRule, init, lay_out, build_header, get_offset_by_id, get_type, get_bit_ref, is_undefine,
  max_elem, no_offset,
}
use cyc_flow.RecRule
use cyc_flow.RecRule.Layout.{total_bytes, field_bytes}
use cyc_flow.RecRule.Aligned.{AllNatural, lay_out-apart, lay_out-natural}
use cyc_flow.RecRule.Lookup.{ref_at}
use cyc_flow.RecRule.Init.{HasDistinctIds, get_offset_by_id-init, get_bit_ref-init}

abbrev speed : Text
speed = codes "Speed"

abbrev flags : Text
flags = codes "Flags"

abbrev registry : PReg
registry = record { name_to_id = (speed, 1) ∷ []; id_to_name = speed ∷ [] }

registered : register speed empty ≡ (1, registry)
unfolding register find empty text_eq
registered = refl

registry-IsValid : IsValid registry
registry-IsValid =
    subst (λ o. IsValid o.1) registered (register-Registered speed empty-room empty-IsValid).valid
  where
    empty-room : HasRoom empty
    empty-room = unfold empty in omega arith

get_name-get_id_example :
    (get_name (get_id flags registry).0 (get_id flags registry).1 ≡ flags)
    × IsValid (get_id flags registry).1
get_name-get_id_example = get_name-get_id flags (omega arith) registry-IsValid

known_speed : find speed registry.name_to_id ≡ some 1
unfolding find text_eq
known_speed = refl

-- Another thread registers "Flags" in between.
abbrev later : PReg
later = (register flags (register speed registry).1).1

later_room : HasRoom later
unfolding register find text_eq
later_room = omega arith

register-agree_example : ((register flags later).0 ≡ (register speed registry).0) ↔ (speed ≡ flags)
register-agree_example =
    register-agree speed flags registry-IsValid (omega arith) later_room
      (Reach.next Reach.here (Step.enter flags (register speed registry).1))

-- A byte array and a register of named bits, the second bit reserved.
abbrev bytes : PAttr
bytes = record {
  id = 2;
  name = codes "Raw";
  type = DataType.uint8;
  count = 3;
  offset = 0;
  bit_ids = [];
}

abbrev status : PAttr
status = record {
  id = 3;
  name = codes "Status";
  type = DataType.uint32;
  count = 1;
  offset = 0;
  bit_ids = 5 ∷ 0 ∷ 6 ∷ [];
}

abbrev input : List PAttr
input = bytes ∷ status ∷ []

input_bytes : total_bytes (build_header empty).0 + total_bytes input ≡ 15
unfolding build_header plain get_id register find empty strncpy get_type_size
input_bytes = refl

three_fields : length (lay_out (build_header empty).0 input true).0 ≡ 3
unfolding build_header plain get_id register find empty strncpy get_type_size lay_out RecRule.place
    RecRule.stable_sort RecRule.insert PAttr.get_size add64 mul64
three_fields = refl

lay_out-apart_example :
    let (attrs, size) = lay_out (build_header empty).0 input true in
    ((get_or attrs 1 PAttr.blank).offset + field_bytes (get_or attrs 1 PAttr.blank)
      ≤ (get_or attrs 2 PAttr.blank).offset)
    × ((get_or attrs 2 PAttr.blank).offset + field_bytes (get_or attrs 2 PAttr.blank) ≤ size)
lay_out-apart_example =
    lay_out-apart (build_header empty).0 input true 1 2 (omega (arith, input_bytes)) (omega arith)
      (omega (arith, three_fields))

lay_out-natural_example :
    let header = (build_header empty).0 in
    let (attrs, size) = lay_out header input true in
    AllNatural attrs
    × (size % max_elem 1 attrs ≡ 0)
    × (size < total_bytes header + total_bytes input + max_elem 1 attrs)
lay_out-natural_example = lay_out-natural input empty (omega (arith, input_bytes))

-- The header's attribute, the register at 8, the bytes at 12, and one byte of padding.
abbrev rule : RecRule
rule = record {
  header_attrs =
      record {
        id = 1;
        name = codes "TimeStamp";
        type = DataType.double;
        count = 1;
        offset = 0;
        bit_ids = [];
      }
      ∷ [];
  attrs =
      record {
        id = 1;
        name = codes "TimeStamp";
        type = DataType.double;
        count = 1;
        offset = 0;
        bit_ids = [];
      }
      ∷ record status { offset = 8 }
      ∷ record bytes { offset = 12 }
      ∷ [];
  rec_size = 16;
  aligned = true;
  offset_cache = no_offset ∷ 0 ∷ 12 ∷ 8 ∷ [];
  type_cache = DataType.undefine ∷ DataType.double ∷ DataType.uint8 ∷ DataType.uint32 ∷ [];
  bit_cache = (6, ref_at 3 2) ∷ (5, ref_at 3 0) ∷ [];
}

rule_made : (init input true empty).0 ≡ ok rule
unfolding init build_header plain get_id register find empty strncpy get_type_size lay_out
    RecRule.place RecRule.stable_sort RecRule.insert max_elem RecRule.pad RecRule.max_field_id
    RecRule.fill RecRule.fill_one RecRule.cache_bits RecRule.find_bit has_bit_fields PAttr.get_size
    add64 mul64
rule_made = refl

rule_ids : HasDistinctIds rule.attrs
rule_ids = (
  omega arith,
  (λ e. omega (arith, e), (λ e. omega (arith, e), tt)),
  (omega arith, (λ e. omega (arith, e), tt), (omega arith, tt, tt)),
)

get_offset_by_id-init_example :
    (get_offset_by_id 3 rule ≡ 8)
    × (get_type 3 rule ≡ (if is_undefine DataType.uint32 then DataType.void else DataType.uint32))
get_offset_by_id-init_example =
    get_offset_by_id-init input true empty rule 1 rule_made rule_ids (omega arith) (omega arith)

get_bit_ref-init_example : get_bit_ref 6 rule ≡ ref_at 3 2
get_bit_ref-init_example =
    get_bit_ref-init input true empty rule 1 2 rule_made (omega arith) (omega arith) (omega arith)

-- A skip of 2^64 - 2 bits at bit 2 passes the bounds check and leads back to bit 0.
skip_wraps : place (codes "18446744073709551614") 8 2 [] empty ≡ (ok (0, []), empty)
unfolding place is_unsigned_integer all_digits is_digit stoul decimal add64
skip_wraps = refl

long_name : strncpy 3 speed ≡ codes "Spe"
unfolding strncpy
long_name = refl

data_type_from_string-to_string_example :
    data_type_from_string (data_type_to_string DataType.void) ≡ DataType.undefine
data_type_from_string-to_string_example = data_type_from_string-to_string DataType.void

-- Two named bits with two reserved ones between them; the bits behind are trimmed.
abbrev flag_bits : PAttr
flag_bits = record {
  id = 1;
  name = flags;
  type = DataType.uint8;
  count = 1;
  offset = 0;
  bit_ids = 2 ∷ 0 ∷ 0 ∷ 3 ∷ [];
}

flag_bits_made :
    (with_bits flags DataType.uint8 (codes "a" ∷ codes "2" ∷ codes "b" ∷ []) empty).0 ≡ ok flag_bits
unfolding with_bits is_integer_type strncpy get_id register find text_eq empty PAttr.place_all place
    is_unsigned_integer all_digits is_digit stoul decimal trim get_type_size add64
flag_bits_made = refl

-- A name behind a skip to the end of the bits.
with_bits-defined_example :
    (with_bits flags DataType.uint8 (codes "8" ∷ codes "a" ∷ []) empty).0 ≢ err undefined
with_bits-defined_example =
    with_bits-defined flags DataType.uint8 (codes "8" ∷ codes "a" ∷ []) empty
