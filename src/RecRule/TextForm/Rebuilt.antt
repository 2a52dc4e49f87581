-- ===== src/RecRule/TextForm/Rebuilt.antt =====
-- The rule that `fromText` makes of a text of `toText`, told from its fields bit by bit.
use cyc_flow.Base.{
  ℕ, ◌+◌, ◌*◌, ◌<◌, ◌≡◌, refl, ap, ◌∙◌, inl, inr, false, not, if◌then◌else◌, Bool-cases, List, [],
  ◌∷◌, replicate, mul64, word, arith,
}
use cyc_flow.Text.{Text, strncpy}
use cyc_flow.DataType.{DataType, get_type_size, is_integer_type, reread}
use cyc_flow.PReg.{PReg, get_id}
use cyc_flow.PAttr.{
  PAttr, Result, ok, err, invalid_argument, plain, trim, with_bits, has_bit_fields, get_size,
}
use cyc_flow.PAttr.Bits.{small_type}
use cyc_flow.RecRule.{RecRule, build_header}
use cyc_flow.RecRule
use cyc_flow.RecRule.TextForm.{tokens, to_text, from_text, is_system_header}
use cyc_flow.RecRule.TextForm.Columns.{bit_names, PlaceSame, tokens-PlaceSame}
use cyc_flow.RecRule.TextForm.Reread.{remade, remade_all, AllWritable, from_text-remade}

-- The attribute that the constructors make of an attribute's name and type, and its count or the name of
-- each of its bits.
abbrev pub rebuilt : PReg → PAttr → PReg → Result PAttr × PReg
rebuilt known a r =
    if has_bit_fields a
    then with_bits a.name (reread a.type) (bit_names known (mul64 (get_size a) 8) a.bit_ids) r
    else (ok (plain a.name (reread a.type) a.count r).0, (plain a.name (reread a.type) a.count r).1)

-- All attributes but those of the header are built again, up to the first failure.
abbrev pub rebuilt_all : List PAttr → PReg → List PAttr → PReg → Result (List PAttr) × PReg
rebuilt_all headers known [] r = (ok [], r)
rebuilt_all headers known (a ∷ attrs) r =
    let (made, r') = rebuilt known a r in
    let skipped = rebuilt_all headers known attrs r in
    let (more, r'') = rebuilt_all headers known attrs r' in
    if is_system_header headers a.name then skipped else elim made [
      | err e ↦ (err e, r')
      | ok b ↦ elim more [ err e ↦ (err e, r'') | ok attrs' ↦ (ok (b ∷ attrs'), r'') ]
    ]

-- The bits of each field are fewer than 2^64 - 64.
abbrev pub AllNarrow : List PAttr → Type 0
AllNarrow [] = Unit {0}
AllNarrow (a ∷ attrs) = (mul64 (get_size a) 8 + 64 < word) × AllNarrow attrs

with_bits-same :
    (name : Text) (type : DataType) (xs ys : List Text) (r : PReg)
    → PlaceSame xs ys
    → with_bits name type xs r ≡ with_bits name type ys r
unfolding with_bits
with_bits-same name type xs ys r same =
    ap finish (same total 0 (replicate total 0) r' (omega (arith, small_type type)) (omega arith))
  where
    total : ℕ
    total = get_type_size type * 8

    r' : PReg
    r' = (get_id (strncpy 25 name) r).1

    finish : Result (List ℕ) × PReg → Result PAttr × PReg
    finish placed =
        if not (is_integer_type type) then (err invalid_argument, r) else elim placed.0 [
          | err e ↦ (err e, placed.1)
          | ok bits ↦ (
            ok (record {
              id = (get_id (strncpy 25 name) r).0;
              name = strncpy 25 name;
              type = type;
              count = 1;
              offset = 0;
              bit_ids = trim bits;
            }),
            placed.1,
          )
        ]

remade-rebuilt :
    (known : PReg) (a : PAttr) (r : PReg)
    → mul64 (get_size a) 8 + 64 < word
    → remade known a r ≡ rebuilt known a r
remade-rebuilt known a r narrow = elim (Bool-cases (has_bit_fields a)) [
  | inr e ↦ rw e refl
  | inl e ↦ rw e (
      with_bits-same a.name (reread a.type) (tokens known (mul64 (get_size a) 8) 0 a.bit_ids)
        (bit_names known (mul64 (get_size a) 8) a.bit_ids) r
        (tokens-PlaceSame known (mul64 (get_size a) 8) 0 a.bit_ids (omega (arith, narrow))))
]

remade_all-rebuilt_all :
    (headers : List PAttr) (known : PReg) (attrs : List PAttr) (r : PReg)
    → AllNarrow attrs
    → remade_all headers known attrs r ≡ rebuilt_all headers known attrs r
remade_all-rebuilt_all headers known [] r h = refl
remade_all-rebuilt_all headers known (a ∷ attrs) r h =
    ap (λ x. join x (remade_all headers known attrs r) (remade_all headers known attrs x.1))
      (remade-rebuilt known a r h.0)
    ∙ ap (λ x. join (rebuilt known a r) x (remade_all headers known attrs (rebuilt known a r).1))
        (remade_all-rebuilt_all headers known attrs r h.1)
    ∙ ap (join (rebuilt known a r) (rebuilt_all headers known attrs r))
        (remade_all-rebuilt_all headers known attrs (rebuilt known a r).1 h.1)
  where
    join :
        Result PAttr × PReg
        → Result (List PAttr) × PReg
        → Result (List PAttr) × PReg
        → Result (List PAttr) × PReg
    join made skipped more = if is_system_header headers a.name then skipped else elim made.0 [
      | err e ↦ (err e, made.1)
      | ok b ↦ elim more.0 [ err e ↦ (err e, more.1) | ok attrs' ↦ (ok (b ∷ attrs'), more.1) ]
    ]

-- What `fromText` makes of the text of a rule is the rule that is built, not aligned, from the
-- rule's fields made again by their constructors: from name, type and count, or from name, type and
-- one definition for each bit, its name or an empty one where it is reserved, up to the first
-- constructor that fails; the header's fields are left out, and a Void becomes an Undefine. (Each
-- field has a size and a count below 2^64 and fewer than 2^64 - 64 bits, field names have no
-- semicolon or end of line, and bit names are not empty and have no comma either.)
pub from_text-rebuilt :
    (known : PReg) (rule : RecRule) (r : PReg)
    → AllWritable known rule.attrs
    → AllNarrow rule.attrs
    → let (headers, r') = build_header r in
      let (made, r'') = rebuilt_all headers known rule.attrs r' in
      from_text (to_text known rule) r
      ≡ elim made [ err e ↦ (err e, r'') | ok attrs ↦ RecRule.init attrs false r'' ]
from_text-rebuilt known rule r w narrow =
    from_text-remade known rule r w
    ∙ ap (λ x. elim x.0 [ err e ↦ (err e, x.1) | ok attrs ↦ RecRule.init attrs false x.1 ])
        (remade_all-rebuilt_all (build_header r).0 known rule.attrs (build_header r).1 narrow)
