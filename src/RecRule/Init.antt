-- ===== src/RecRule/Init.antt =====
-- A rule that `init` returns: its lookups by id agree with its attributes.
use cyc_flow.Base.{
  ℕ, ◌+◌, ◌≤◌, ◌<◌, ◌≡◌, ◌≢◌, refl, ap, sym, subst, ◌∙◌, Bool, ltb, if◌then◌else◌, List, [], ◌∷◌,
  length, get_or, replicate, length-replicate, arith,
}
use cyc_flow.DataType.{DataType}
use cyc_flow.PReg.{PReg}
use cyc_flow.PAttr.{PAttr, Result, ok, err}
use cyc_flow.PAttr
use cyc_flow.RecRule.{
  RecRule, Caches, find_bit, fill, init, max_field_id, no_offset, get_offset_by_id, get_type,
  get_bit_ref, is_undefine, lay_out, build_header,
}
use cyc_flow.RecRule.Lookup.{ref_at, IsAbsent, HasIds, fill-flat_added, fill-bits_added, fill-Sized}

-- The ids of the attributes are positive and differ.
abbrev pub HasDistinctIds : List PAttr → Type 0
HasDistinctIds [] = Unit {0}
HasDistinctIds (a ∷ attrs) = (0 < a.id) × IsAbsent a.id attrs × HasDistinctIds attrs

le-max_field_id : (m : ℕ) (attrs : List PAttr) → m ≤ max_field_id m attrs
unfolding max_field_id
le-max_field_id m [] = omega arith
le-max_field_id m (a ∷ attrs) =
    ground (arith, le-max_field_id (if ltb m a.id then a.id else m) attrs)

HasIds-max :
    (m k : ℕ) (attrs : List PAttr)
    → max_field_id m attrs ≤ k
    → HasDistinctIds attrs
    → HasIds k attrs
unfolding max_field_id
HasIds-max m k [] h d = tt
HasIds-max m k (a ∷ attrs) h d = (
  d.0,
  ground (arith, le-max_field_id (if ltb m a.id then a.id else m) attrs),
  d.1,
  HasIds-max (if ltb m a.id then a.id else m) k attrs h d.2,
)

abbrev start_of : List PAttr → Caches
start_of attrs = record {
  offsets = replicate (max_field_id 0 attrs + 1) no_offset;
  types = replicate (max_field_id 0 attrs + 1) DataType.undefine;
  bits = [];
}

-- A rule comes from its attributes by one run of the cache loop.
pub record Built (input : List PAttr) (align : Bool) (r : PReg) (rule : RecRule) : Type 0 where
  caches : Caches
  filled : fill (max_field_id 0 rule.attrs) rule.attrs (start_of rule.attrs) ≡ ok caches
  offsets : rule.offset_cache ≡ caches.offsets
  types : rule.type_cache ≡ caches.types
  bits : rule.bit_cache ≡ caches.bits
  pub laid : rule.attrs ≡ (lay_out (build_header r).0 input align).0
  sized : rule.rec_size ≡ (lay_out (build_header r).0 input align).1

pub init-Built :
    (input : List PAttr) (align : Bool) (r : PReg) (rule : RecRule)
    → (init input align r).0 ≡ ok rule
    → Built input align r rule
unfolding init
init-Built input align r rule e = go (fill (max_field_id 0 attrs) attrs (start_of attrs)) refl e
  where
    attrs : List PAttr
    attrs = (lay_out (build_header r).0 input align).0

    go :
        (out : Result Caches)
        → fill (max_field_id 0 attrs) attrs (start_of attrs) ≡ out
        → (elim out [
          | err k ↦ err k
          | ok c ↦ ok (record {
            header_attrs = (build_header r).0;
            attrs = attrs;
            rec_size = (lay_out (build_header r).0 input align).1;
            aligned = align;
            offset_cache = c.offsets;
            type_cache = c.types;
            bit_cache = c.bits;
          })
        ])
          ≡ ok rule
        → Built input align r rule
    go (err k) p q = absurd (cc)
    go (ok c) p q = built c p (sym (ok-injective q))
      where
        ok-injective : {a b : RecRule} → ok a ≡ ok b → a ≡ b
        ok-injective h = cc

        built :
            (c : Caches)
            → fill (max_field_id 0 attrs) attrs (start_of attrs) ≡ ok c
            → rule ≡ record {
              header_attrs = (build_header r).0;
              attrs = attrs;
              rec_size = (lay_out (build_header r).0 input align).1;
              aligned = align;
              offset_cache = c.offsets;
              type_cache = c.types;
              bit_cache = c.bits;
            }
            → Built input align r rule
        built c p q = record {
          caches = c;
          filled =
              subst (λ xs. fill (max_field_id 0 xs) xs (start_of xs) ≡ ok c)
                (sym (ap (λ x. x.attrs) q)) p;
          offsets = ap (λ x. x.offset_cache) q;
          types = ap (λ x. x.type_cache) q;
          bits = ap (λ x. x.bit_cache) q;
          laid = ap (λ x. x.attrs) q;
          sized = ap (λ x. x.rec_size) q;
        }

-- Where `init` builds a rule whose field ids are positive and differ, each field is found by its
-- id: at its offset, unless that is the sentinel 2^64 - 1, and with its type, which is Void for a
-- field of type Undefine.
pub get_offset_by_id-init :
    (input : List PAttr) (align : Bool) (r : PReg) (rule : RecRule) (i : ℕ)
    → (init input align r).0 ≡ ok rule
    → HasDistinctIds rule.attrs
    → i < length rule.attrs
    → (get_or rule.attrs i PAttr.blank).offset < no_offset
    → let a = get_or rule.attrs i PAttr.blank in
      (get_offset_by_id a.id rule ≡ a.offset)
      × (get_type a.id rule ≡ (if is_undefine a.type then DataType.void else a.type))
unfolding get_offset_by_id get_type
get_offset_by_id-init input align r rule i e d h room =
    let b = init-Built input align r rule e in
    let ids = HasIds-max 0 (max_field_id 0 rule.attrs) rule.attrs (omega arith) d in
    let start : (length (start_of rule.attrs).offsets ≡ max_field_id 0 rule.attrs + 1)
        × (length (start_of rule.attrs).types ≡ max_field_id 0 rule.attrs + 1) =
      (
        length-replicate (max_field_id 0 rule.attrs + 1) no_offset,
        length-replicate (max_field_id 0 rule.attrs + 1) DataType.undefine,
      ) in
    let found =
      fill-flat_added (max_field_id 0 rule.attrs) rule.attrs (start_of rule.attrs) b.caches i
        b.filled ids start h in
    let sizes =
      fill-Sized (max_field_id 0 rule.attrs) rule.attrs (start_of rule.attrs) b.caches b.filled ids
        start in
    let a = get_or rule.attrs i PAttr.blank in
    let offset = ap (λ xs. get_or xs a.id no_offset) b.offsets ∙ found.0 in
    let type = ap (λ xs. get_or xs a.id DataType.undefine) b.types ∙ found.1 in
    (
      ground (arith, found.2, sizes.0, offset, ap length b.offsets),
      ground (arith, found.2, sizes.1, type, ap length b.types),
    )

-- Where `init` builds a rule, each named bit of it is found by its id: in the field that declares
-- it, at its position there.
pub get_bit_ref-init :
    (input : List PAttr) (align : Bool) (r : PReg) (rule : RecRule) (i p : ℕ)
    → (init input align r).0 ≡ ok rule
    → i < length rule.attrs
    → p < length (get_or rule.attrs i PAttr.blank).bit_ids
    → get_or (get_or rule.attrs i PAttr.blank).bit_ids p 0 ≢ 0
    → let a = get_or rule.attrs i PAttr.blank in
      get_bit_ref (get_or a.bit_ids p 0) rule ≡ ref_at a.id p
unfolding get_bit_ref
get_bit_ref-init input align r rule i p e h q n =
    let b = init-Built input align r rule e in
    let bid = get_or (get_or rule.attrs i PAttr.blank).bit_ids p 0 in
    let found =
      ap (find_bit bid) b.bits
      ∙ fill-bits_added (max_field_id 0 rule.attrs) rule.attrs (start_of rule.attrs) b.caches i p
          b.filled h q n in
    rw (found, get_bit_ref)
