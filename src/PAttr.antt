-- ===== src/PAttr.antt =====
-- PAttr of CycLib/Core/PAttr.h and PAttr.cpp: one field of a record schema.
-- A constructor registers names, so it returns the new registry too, also when it throws.
pub mod Bits
use cyc_flow.Base.{
  ℕ, ◌*◌, Bool, false, not, ◌&&◌, leb, ltb, ◌==◌, if◌then◌else◌, Option, none, some, List, [], ◌∷◌,
  length, set, replicate, add64, mul64,
}
use cyc_flow.Text.{Text, strncpy, all_digits, stoul}
use cyc_flow.DataType.{DataType, get_type_size, is_integer_type}
use cyc_flow.PReg.{PReg, get_id}

pub record PAttr : Type 0 where
  pub id : ℕ
  pub name : Text
  pub type : DataType
  pub count : ℕ
  pub offset : ℕ
  pub bit_ids : List ℕ

-- std::invalid_argument and std::out_of_range; `undefined` stands for a write outside a vector, for which
-- C++ defines nothing.
pub data Error : Type 0 where
  invalid_argument out_of_range undefined : Error

pub data Result {ℓ} (A : Type ℓ) : Type ℓ where
  ok : A → Result A
  err : Error → Result A

-- The default constructor.
unfoldable pub blank : PAttr
blank = record { id = 0; name = []; type = DataType.undefine; count = 1; offset = 0; bit_ids = [] }

-- The constructor of a plain field.
unfoldable pub plain : Text → DataType → ℕ → PReg → PAttr × PReg
plain name type count r =
    let short = strncpy 25 name in
    let (id, r') = get_id short r in
    (record { id = id; name = short; type = type; count = count; offset = 0; bit_ids = [] }, r')

unfoldable pub is_unsigned_integer : Text → Bool
unfolding all_digits
is_unsigned_integer [] = false
is_unsigned_integer (c ∷ s) = all_digits (c ∷ s)

abbrev pub or_fail {ℓ} : {A : Type ℓ} → Option A → Error → Result A
or_fail none e = err e
or_fail (some a) e = ok a

-- `bitIds[place] = id`.
abbrev pub assign : ℕ → ℕ → List ℕ → Result (List ℕ)
assign place id bit_ids =
    if ltb place (length bit_ids) then ok (set bit_ids place id) else err undefined

-- One round of the loop over `bitDefs`, for a text that is not empty: the new position and bits.
unfoldable pub place : Text → ℕ → ℕ → List ℕ → PReg → Result (ℕ × List ℕ) × PReg
place def total_bits bit_pos bit_ids r =
    if leb total_bits bit_pos
    then (err out_of_range, r)
    else if is_unsigned_integer def
    then elim (stoul def) [
      | none ↦ (err out_of_range, r)
      | some skip ↦
          if skip == 0
          then (ok (bit_pos, bit_ids), r)
          else if ltb total_bits (add64 bit_pos skip)
          then (err out_of_range, r)
          else (ok (add64 bit_pos skip, bit_ids), r)
    ]
    else if not (length def == 0)
    then (let (id, r') = get_id def r in
        (elim (assign bit_pos id bit_ids) [
          | err e ↦ (err e, r')
          | ok written ↦ (ok (add64 bit_pos 1, written), r')
        ]))
    else (ok (add64 bit_pos 1, bit_ids), r)

unfoldable pub place_all : List Text → ℕ → ℕ → List ℕ → PReg → Result (List ℕ) × PReg
place_all [] total_bits bit_pos bit_ids r = (ok bit_ids, r)
place_all (def ∷ defs) total_bits bit_pos bit_ids r =
    let (out, r') = place def total_bits bit_pos bit_ids r in
    elim out [ err e ↦ (err e, r') | ok placed ↦ place_all defs total_bits placed.0 placed.1 r' ]

-- The loop that trims trailing zero entries.
unfoldable pub trim : List ℕ → List ℕ
trim [] = []
trim (b ∷ bits) = let rest = trim bits in if b == 0 && length rest == 0 then [] else b ∷ rest

-- The constructor of a field with named bits.
unfoldable pub with_bits : Text → DataType → List Text → PReg → Result PAttr × PReg
with_bits name type bit_defs r =
    if not (is_integer_type type)
    then (err invalid_argument, r)
    else (let short = strncpy 25 name in
        let (id, r') = get_id short r in
        let total_bits = get_type_size type * 8 in
        let (out, r'') = place_all bit_defs total_bits 0 (replicate total_bits 0) r' in
        elim out [
          | err e ↦ (err e, r'')
          | ok bits ↦ (
            ok (record {
              id = id;
              name = short;
              type = type;
              count = 1;
              offset = 0;
              bit_ids = trim bits;
            }),
            r'',
          )
        ])

unfoldable pub has_bit_fields : PAttr → Bool
has_bit_fields a = not (length a.bit_ids == 0)

unfoldable pub get_size : PAttr → ℕ
get_size a = mul64 (get_type_size a.type) a.count
