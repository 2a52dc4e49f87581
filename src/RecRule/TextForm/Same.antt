-- ===== src/RecRule/TextForm/Same.antt =====
-- Rules of plain fields, written and read again.
use cyc_flow.Base.{
  ℕ, ◌<◌, ◌≡◌, refl, ap, sym, ◌∙◌, subst, true, false, ◌==◌, not, some, List, [], ◌∷◌, length,
  length-append, mul64, add64, word, arith,
}
use cyc_flow.Text.{Text, codes, strncpy, text_eq}
use cyc_flow.Text.Fields.{lacks}
use cyc_flow.DataType.{DataType, reread, get_type_size}
use cyc_flow.PReg.{PReg, find, get_id}
use cyc_flow.PAttr.{PAttr, Result, ok, err, plain, has_bit_fields, get_size}
use cyc_flow.RecRule.{RecRule, build_header, place, lay_out}
use cyc_flow.RecRule
use cyc_flow.RecRule.Init.{init-Built}
use cyc_flow.RecRule.TextForm.{newline, line_of, lines_of, to_text, is_system_header, from_text}
use cyc_flow.RecRule.TextForm.RoundTrip.{IsWord, IsWritable, AllNamed}
use cyc_flow.RecRule.TextForm.Reread.{
  remade, remade_all, remade_all-cons, continue, wrapped, AllWritable, from_text-remade,
}

-- A field as the constructor without bits makes it, once its name is registered.
pub record IsPlain (headers : List PAttr) (r : PReg) (a : PAttr) : Type 0 where
  pub no_bits : a.bit_ids ≡ []
  pub unplaced : a.offset ≡ 0
  pub kept_type : reread a.type ≡ a.type
  pub short : strncpy 25 a.name ≡ a.name
  pub known : find a.name r.name_to_id ≡ some a.id
  pub user : is_system_header headers a.name ≡ false
  pub word_name : IsWord a.name
  pub count_small : a.count < word
  pub sized : 0 < mul64 (get_size a) 8

abbrev pub AllPlain : List PAttr → PReg → List PAttr → Type 0
AllPlain headers r [] = Unit {0}
AllPlain headers r (a ∷ attrs) = IsPlain headers r a × AllPlain headers r attrs

plain-known :
    (name : Text) (type : DataType) (count id : ℕ) (r : PReg)
    → find (strncpy 25 name) r.name_to_id ≡ some id
    → plain name type count r ≡ (
      record {
        id = id;
        name = strncpy 25 name;
        type = type;
        count = count;
        offset = 0;
        bit_ids = [];
      },
      r,
    )
unfolding plain get_id
plain-known name type count id r e = rw (plain, get_id, e) refl

plain-IsPlain :
    (headers : List PAttr) (r : PReg) (a : PAttr)
    → IsPlain headers r a
    → plain a.name (reread a.type) a.count r ≡ (a, r)
plain-IsPlain headers r a p =
    plain-known a.name (reread a.type) a.count a.id r
      (ap (λ s. find s r.name_to_id) p.short ∙ p.known)
    ∙ same
  where
    made : Text → DataType → ℕ → List ℕ → PAttr × PReg
    made name type offset bits = (
      record {
        id = a.id;
        name = name;
        type = type;
        count = a.count;
        offset = offset;
        bit_ids = bits;
      },
      r,
    )

    same : made (strncpy 25 a.name) (reread a.type) 0 [] ≡ made a.name a.type a.offset a.bit_ids
    same =
        ap (λ n. made n (reread a.type) 0 []) p.short
        ∙ ap (λ t. made a.name t 0 []) p.kept_type
        ∙ ap (λ o. made a.name a.type o []) (sym p.unplaced)
        ∙ ap (made a.name a.type a.offset) (sym p.no_bits)

abbrev wrap : PAttr × PReg → Result PAttr × PReg
wrap p = (ok p.0, p.1)

place-AllWritable :
    (headers : List PAttr) (r : PReg) (input : List PAttr) (size : ℕ)
    → AllPlain headers r input
    → AllWritable r (place input size).0
unfolding place
place-AllWritable headers r [] size p = tt
place-AllWritable headers r (a ∷ input) size p = (
  record {
    word_name = p.0.word_name;
    count_small = p.0.count_small;
    has_bits = unfold get_size in p.0.sized;
    named = subst (AllNamed r) (sym p.0.no_bits) tt;
  },
  place-AllWritable headers r input (add64 size (get_size a)) p.1,
)

-- The fields come back without their offsets.
remade-placed :
    (headers : List PAttr) (r : PReg) (input : List PAttr) (size : ℕ)
    → AllPlain headers r input
    → remade_all headers r (place input size).0 r ≡ (ok input, r)
unfolding place
remade-placed headers r [] size p = refl
remade-placed headers r (a ∷ input) size p =
    remade_all-cons headers r (record a { offset = size }) (place input (add64 size (get_size a))).0
      r
    ∙ simp (p.0.user) refl
    ∙ ap
        (λ x. continue (wrapped x) (remade_all headers r (place input (add64 size (get_size a))).0))
        made
    ∙ ap (λ x. elim x.0 [ err e ↦ (err e, x.1) | ok attrs ↦ (ok (a ∷ attrs), x.1) ])
        (remade-placed headers r input (add64 size (get_size a)) p.1)
  where
    made : remade r (record a { offset = size }) r ≡ wrap (a, r)
    made = simp (bare) (ap wrap (plain-IsPlain headers r a p.0))
      where
        bare : has_bit_fields (record a { offset = size }) ≡ false
        bare = unfold has_bit_fields in ap (λ bits. not (length bits == 0)) p.0.no_bits

abbrev header_attr : PReg → PAttr
header_attr r = (plain (codes "TimeStamp") DataType.double 1 r).0

header-IsWritable : (known r : PReg) → IsWritable known (header_attr r)
unfolding plain strncpy lacks get_size mul64 get_type_size
header-IsWritable known r = record {
  word_name = (refl, refl, refl);
  count_small = omega arith;
  has_bits = omega arith;
  named = tt;
}

header_known : (r : PReg) → is_system_header (build_header r).0 (header_attr r).name ≡ true
unfolding build_header plain strncpy is_system_header text_eq
header_known r = refl

pub to_text-nonempty :
    (input : List PAttr) (rule : RecRule) (r r' known : PReg)
    → RecRule.init input false r ≡ (ok rule, r')
    → 0 < length (to_text known rule)
unfolding to_text lines_of
to_text-nonempty input rule r r' known made = omega (
  arith,
  ap (λ attrs. length (lines_of known attrs)) laid,
  length-append (line_of known first) (newline ∷ lines_of known others),
)
  where
    first : PAttr
    first = record (header_attr r) { offset = 0 }

    others : List PAttr
    others = (place input (place (build_header r).0 0).1).0

    laid : rule.attrs ≡ first ∷ others
    laid =
        unfold lay_out build_header place in
        (init-Built input false r rule (ap (λ x. x.0) made)).laid

-- A rule that was built, not aligned, from plain fields of registered names is the rule that
-- `fromText` builds from its text, and the registry stays as it is. (No field is a Void or has no
-- size, the names are as the constructors leave them and have no semicolon or end of line, and each
-- count is below 2^64.)
pub from_text-to_text :
    (input : List PAttr) (rule : RecRule) (r : PReg)
    → RecRule.init input false r ≡ (ok rule, r)
    → AllPlain (build_header r).0 r input
    → from_text (to_text r rule) r ≡ (ok rule, r)
from_text-to_text input rule r made all =
    from_text-remade r rule r writable ∙ ap finish again ∙ made
  where
    finish : Result (List PAttr) × PReg → Result RecRule × PReg
    finish x = elim x.0 [ err e ↦ (err e, x.1) | ok attrs ↦ RecRule.init attrs false x.1 ]

    size : ℕ
    size = (place (build_header r).0 0).1

    laid : rule.attrs ≡ record (header_attr r) { offset = 0 } ∷ (place input size).0
    laid =
        unfold lay_out build_header place in
        (init-Built input false r rule (ap (λ x. x.0) made)).laid

    same : (build_header r).1 ≡ r
    same = unfold RecRule.init in ap (λ x. x.1) made

    writable : AllWritable r rule.attrs
    writable =
        subst (AllWritable r) (sym laid)
          (unplaced (header-IsWritable r r), place-AllWritable (build_header r).0 r input size all)
      where
        unplaced : {a : PAttr} → IsWritable r a → IsWritable r (record a { offset = 0 })
        unplaced w = record {
          word_name = w.word_name;
          count_small = w.count_small;
          has_bits = unfold get_size in w.has_bits;
          named = w.named;
        }

    again : remade_all (build_header r).0 r rule.attrs (build_header r).1 ≡ (ok input, r)
    again =
        ap (remade_all (build_header r).0 r rule.attrs) same
        ∙ ap (λ attrs. remade_all (build_header r).0 r attrs r) laid
        ∙ remade_all-cons (build_header r).0 r (record (header_attr r) { offset = 0 })
            (place input size).0 r
        ∙ simp (header_known r) refl
        ∙ remade-placed (build_header r).0 r input size all
