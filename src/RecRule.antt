-- ===== src/RecRule.antt =====
-- RecRule of CycLib/Core/RecRule.h and RecRule.cpp: the layout of a record and its caches.
-- `m_bitCache` is an association list, a flat cache a list, and the sentinel -1 of a size_t is
-- 2^64 - 1. Building a rule registers the header's name, so it returns the new registry too.
pub mod Layout
pub mod Aligned
pub mod Lookup
pub mod Init
pub mod TextForm
use cyc_flow.Base.{
  ℕ, zero, suc, ◌+◌, ◌-◌, ◌%◌, ◌≤◌, max, Bool, true, false, not, ◌&&◌, leb, ltb, ◌==◌,
  if◌then◌else◌, Option, none, some, List, [], ◌∷◌, ◌++◌, length, get_or, set, replicate, add64,
  word,
}
use cyc_flow.Text.{Text, codes}
use cyc_flow.DataType.{DataType, get_type_size}
use cyc_flow.PReg.{PReg}
use cyc_flow.PAttr.{PAttr, Result, ok, err, Error, plain, get_size, has_bit_fields}
use cyc_flow.PAttr

pub record BitRef : Type 0 where
  pub field_id : ℕ
  pub bit_pos : ℕ

pub record RecRule : Type 0 where
  pub header_attrs : List PAttr
  pub attrs : List PAttr
  pub rec_size : ℕ
  pub aligned : Bool
  pub offset_cache : List ℕ
  pub type_cache : List DataType
  pub bit_cache : List (ℕ × BitRef)

-- `RecRule() = default`.
unfoldable pub blank : RecRule
blank = record {
  header_attrs = [];
  attrs = [];
  rec_size = 0;
  aligned = false;
  offset_cache = [];
  type_cache = [];
  bit_cache = [];
}

-- `buildHeader`.
unfoldable pub build_header : PReg → List PAttr × PReg
build_header r =
    let (timestamp, r') = plain (codes "TimeStamp") DataType.double 1 r in (timestamp ∷ [], r')

-- A loop that gives each attribute its offset: the attributes placed, and the size so far.
unfoldable pub place : List PAttr → ℕ → List PAttr × ℕ
place [] size = ([], size)
place (a ∷ attrs) size =
    let (placed, end) = place attrs (add64 size (get_size a)) in
    (record a { offset = size } ∷ placed, end)

abbrev pub elem_size : PAttr → ℕ
elem_size a = get_type_size a.type

-- std::stable_sort by falling element size.
unfoldable pub insert : PAttr → List PAttr → List PAttr
insert a [] = a ∷ []
insert a (b ∷ bs) = if ltb (elem_size a) (elem_size b) then b ∷ insert a bs else a ∷ b ∷ bs

unfoldable pub stable_sort : List PAttr → List PAttr
stable_sort [] = []
stable_sort (a ∷ attrs) = insert a (stable_sort attrs)

unfoldable pub max_elem : ℕ → List PAttr → ℕ
max_elem m [] = m
max_elem m (a ∷ attrs) = max_elem (max m (elem_size a)) attrs

-- The trailing padding of the aligned layout.
unfoldable pub pad : ℕ → ℕ → ℕ
pad max_elem size =
    if ltb 1 max_elem
    then (if not (size % max_elem == 0) then add64 size (max_elem - size % max_elem) else size)
    else size

-- The attributes with their offsets, and the record's size.
unfoldable pub lay_out : List PAttr → List PAttr → Bool → List PAttr × ℕ
lay_out header input align =
    let (head, size) = place header 0 in
    let (sorted, sorted_end) = place (stable_sort input) size in
    let (packed, packed_end) = place input size in
    if align
    then (head ++ sorted, pad (max_elem 1 (head ++ sorted)) sorted_end)
    else (head ++ packed, packed_end)

unfoldable pub max_field_id : ℕ → List PAttr → ℕ
max_field_id m [] = m
max_field_id m (a ∷ attrs) = max_field_id (if ltb m a.id then a.id else m) attrs

abbrev pub no_offset : ℕ
no_offset = word - 1

unfoldable pub find_bit : ℕ → List (ℕ × BitRef) → Option BitRef
find_bit id [] = none
find_bit id ((key, ref) ∷ cache) = if key == id then some ref else find_bit id cache

-- The loop over one attribute's bits, from bit `pos` on.
unfoldable pub cache_bits : ℕ → ℕ → List ℕ → List (ℕ × BitRef) → Result (List (ℕ × BitRef))
cache_bits field pos [] cache = ok cache
cache_bits field pos (bid ∷ bits) cache =
    let skipped = cache_bits field (pos + 1) bits cache in
    let added =
      cache_bits field (pos + 1) bits ((bid, record { field_id = field; bit_pos = pos }) ∷ cache) in
    if bid == 0
    then skipped
    else elim (find_bit bid cache) [ some _ ↦ err Error.invalid_argument | none ↦ added ]

-- The three caches, as the loop over the attributes fills them.
pub record Caches : Type 0 where
  pub offsets : List ℕ
  pub types : List DataType
  pub bits : List (ℕ × BitRef)

-- One round of that loop: the flat caches, then the attribute's bits.
unfoldable pub fill_one : ℕ → PAttr → Caches → Result Caches
fill_one max_id a c =
    let known = ltb 0 a.id && leb a.id max_id in
    let offsets = if known then set c.offsets a.id a.offset else c.offsets in
    let types = if known then set c.types a.id a.type else c.types in
    if has_bit_fields a
    then elim (cache_bits a.id 0 a.bit_ids c.bits) [
      | err e ↦ err e
      | ok bits ↦ ok (record { offsets = offsets; types = types; bits = bits })
    ]
    else ok (record { offsets = offsets; types = types; bits = c.bits })

unfoldable pub fill : ℕ → List PAttr → Caches → Result Caches
unfolding fill_one
fill max_id [] c = ok c
fill max_id (a ∷ attrs) c = elim (fill_one max_id a c) [
  | err e ↦ err e
  | ok d ↦ fill max_id attrs d
]

unfoldable pub init : List PAttr → Bool → PReg → Result RecRule × PReg
unfolding build_header lay_out fill max_field_id
init input align r =
    let (header, r') = build_header r in
    let (attrs, size) = lay_out header input align in
    let max_id = max_field_id 0 attrs in
    let start : Caches = record {
      offsets = replicate (max_id + 1) no_offset;
      types = replicate (max_id + 1) DataType.undefine;
      bits = [];
    } in
    (
      elim (fill max_id attrs start) [
        | err e ↦ err e
        | ok c ↦ ok (record {
          header_attrs = header;
          attrs = attrs;
          rec_size = size;
          aligned = align;
          offset_cache = c.offsets;
          type_cache = c.types;
          bit_cache = c.bits;
        })
      ],
      r',
    )

unfoldable pub get_rec_size : RecRule → ℕ
get_rec_size rule = rule.rec_size

unfoldable pub get_offset_by_index : ℕ → RecRule → ℕ
get_offset_by_index index rule =
    if leb (length rule.attrs) index then 0 else (get_or rule.attrs index PAttr.blank).offset

unfoldable pub get_offset_by_id : ℕ → RecRule → ℕ
get_offset_by_id id rule =
    let offset = get_or rule.offset_cache id no_offset in
    if ltb id (length rule.offset_cache)
    then (if not (offset == no_offset) then offset else 0)
    else 0

abbrev pub is_undefine : DataType → Bool
is_undefine DataType.undefine = true
is_undefine _ = false

unfoldable pub get_type : ℕ → RecRule → DataType
get_type id rule =
    let type = get_or rule.type_cache id DataType.undefine in
    if ltb id (length rule.type_cache)
    then (if is_undefine type then DataType.void else type)
    else DataType.void

unfoldable pub get_bit_ref : ℕ → RecRule → BitRef
get_bit_ref id rule = elim (find_bit id rule.bit_cache) [
  | some ref ↦ ref
  | none ↦ record { field_id = 0; bit_pos = 0 }
]
