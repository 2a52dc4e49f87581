-- ===== src/RecRule/Lookup.antt =====
-- The caches of a rule against its attributes: offsets and types by field id, places by bit id.
use cyc_flow.Base.{
  ℕ, zero, suc, ◌+◌, ◌≤◌, ◌<◌, ◌≡◌, ◌≢◌, refl, ap, sym, ◌∙◌, inl, inr, Bool-cases, none, some, ◌==◌,
  List, [], ◌∷◌, length, get_or, set, length-set, get_or-set_self, get_or-set_ne, arith, ==→eq,
}
use cyc_flow.DataType.{DataType}
use cyc_flow.PAttr.{PAttr, Result, ok, err, has_bit_fields}
use cyc_flow.PAttr
use cyc_flow.RecRule.{BitRef, Caches, find_bit, cache_bits, fill, fill_one, no_offset}

abbrev pub ref_at : ℕ → ℕ → BitRef
ref_at field pos = record { field_id = field; bit_pos = pos }

-- One round of the bit loop that adds an entry.
find_bit-cons_ne :
    (id bid : ℕ) (ref new : BitRef) (cache : List (ℕ × BitRef))
    → find_bit bid cache ≡ none
    → find_bit id cache ≡ some ref
    → find_bit id ((bid, new) ∷ cache) ≡ some ref
unfolding find_bit
find_bit-cons_ne id bid ref new cache absent found = elim (Bool-cases (bid == id)) [
  | inl same ↦
      absurd (none≢some (sym absent ∙ ap (λ k. find_bit k cache) (==→eq bid id same) ∙ found))
  | inr other ↦ rw other found
]
  where
    none≢some : ¬ (none ≡ some ref)
    none≢some q = cc

-- What the bit loop keeps.
cache_bits-kept :
    (field pos : ℕ) (bits : List ℕ) (cache out : List (ℕ × BitRef)) (id : ℕ) (ref : BitRef)
    → cache_bits field pos bits cache ≡ ok out
    → find_bit id cache ≡ some ref
    → find_bit id out ≡ some ref
unfolding cache_bits
cache_bits-kept field pos [] cache out id ref e f = ground arith
cache_bits-kept field pos (bid ∷ bits) cache out id ref e f = ground (
  arith,
  cache_bits-kept field (pos + 1) bits cache out id ref,
  cache_bits-kept field (pos + 1) bits ((bid, ref_at field pos) ∷ cache) out id ref,
  find_bit-cons_ne id bid ref (ref_at field pos) cache,
)

find_bit-cons_self :
    (bid : ℕ) (ref : BitRef) (cache : List (ℕ × BitRef))
    → find_bit bid ((bid, ref) ∷ cache) ≡ some ref
unfolding find_bit
find_bit-cons_self bid ref cache = ground arith

-- What the bit loop adds: each named bit under its own id.
cache_bits-added :
    (field pos : ℕ) (bits : List ℕ) (cache out : List (ℕ × BitRef)) (i : ℕ)
    → cache_bits field pos bits cache ≡ ok out
    → i < length bits
    → get_or bits i 0 ≢ 0
    → find_bit (get_or bits i 0) out ≡ some (ref_at field (pos + i))
unfolding cache_bits
cache_bits-added field pos [] cache out i e h n = absurd (omega arith)
cache_bits-added field pos (bid ∷ bits) cache out zero e h n =
    let here : ref_at field pos ≡ ref_at field (pos + 0) = ap (ref_at field) same in
    ground (
      arith,
      here,
      cache_bits-kept field (pos + 1) bits ((bid, ref_at field pos) ∷ cache) out bid
          (ref_at field pos),
      find_bit-cons_self bid (ref_at field pos) cache,
    )
  where
    same : pos ≡ pos + 0
    same = omega arith
cache_bits-added field pos (bid ∷ bits) cache out (suc i) e h n = ground (
  arith,
  cache_bits-added field (pos + 1) bits cache out i,
  cache_bits-added field (pos + 1) bits ((bid, ref_at field pos) ∷ cache) out i,
)

-- The loop over the attributes, one round at a time.
fill-cons :
    (max_id : ℕ) (a : PAttr) (attrs : List PAttr) (c d : Caches)
    → fill max_id (a ∷ attrs) c ≡ ok d
    → (mid : Caches) × (fill_one max_id a c ≡ ok mid) × (fill max_id attrs mid ≡ ok d)
unfolding fill
fill-cons max_id a attrs c d e = go (fill_one max_id a c) refl e
  where
    go :
        (out : Result Caches)
        → fill_one max_id a c ≡ out
        → (elim out [ err k ↦ err k | ok mid ↦ fill max_id attrs mid ]) ≡ ok d
        → (mid : Caches) × (fill_one max_id a c ≡ ok mid) × (fill max_id attrs mid ≡ ok d)
    go (ok mid) p q = (mid, p, q)
    go (err k) p q = cc

-- One round keeps the bits found, and adds the attribute's own.
fill_one-bits_kept :
    (max_id : ℕ) (a : PAttr) (c d : Caches) (id : ℕ) (ref : BitRef)
    → fill_one max_id a c ≡ ok d
    → find_bit id c.bits ≡ some ref
    → find_bit id d.bits ≡ some ref
unfolding fill_one
fill_one-bits_kept max_id a c d id ref e f =
    ground (arith, cache_bits-kept a.id 0 a.bit_ids c.bits d.bits id ref)

fill_one-bits_added :
    (max_id : ℕ) (a : PAttr) (c d : Caches) (p : ℕ)
    → fill_one max_id a c ≡ ok d
    → p < length a.bit_ids
    → get_or a.bit_ids p 0 ≢ 0
    → find_bit (get_or a.bit_ids p 0) d.bits ≡ some (ref_at a.id p)
unfolding fill_one has_bit_fields
fill_one-bits_added max_id a c d p e h n =
    let here : ref_at a.id (0 + p) ≡ ref_at a.id p = ap (ref_at a.id) (omega arith) in
    ground (arith, here, cache_bits-added a.id 0 a.bit_ids c.bits d.bits p)

fill-bits_kept :
    (max_id : ℕ) (attrs : List PAttr) (c d : Caches) (id : ℕ) (ref : BitRef)
    → fill max_id attrs c ≡ ok d
    → find_bit id c.bits ≡ some ref
    → find_bit id d.bits ≡ some ref
unfolding fill
fill-bits_kept max_id [] c d id ref e f = ground arith
fill-bits_kept max_id (a ∷ attrs) c d id ref e f =
    let (mid, first, rest) = fill-cons max_id a attrs c d e in
    fill-bits_kept max_id attrs mid d id ref rest (fill_one-bits_kept max_id a c mid id ref first f)

pub fill-bits_added :
    (max_id : ℕ) (attrs : List PAttr) (c d : Caches) (i p : ℕ)
    → fill max_id attrs c ≡ ok d
    → let a = get_or attrs i PAttr.blank in
      i < length attrs
      → p < length a.bit_ids
      → get_or a.bit_ids p 0 ≢ 0
      → find_bit (get_or a.bit_ids p 0) d.bits ≡ some (ref_at a.id p)
fill-bits_added max_id [] c d i p e h q n = absurd (omega arith)
fill-bits_added max_id (a ∷ attrs) c d zero p e h q n =
    let (mid, first, rest) = fill-cons max_id a attrs c d e in
    fill-bits_kept max_id attrs mid d (get_or a.bit_ids p 0) (ref_at a.id p) rest
      (fill_one-bits_added max_id a c mid p first q n)
fill-bits_added max_id (a ∷ attrs) c d (suc i) p e h q n =
    let (mid, first, rest) = fill-cons max_id a attrs c d e in
    fill-bits_added max_id attrs mid d i p rest (omega arith) q n

-- The flat caches: their lengths stay, and a round writes at the attribute's own id.
fill_one-flat :
    (max_id : ℕ) (a : PAttr) (c d : Caches)
    → fill_one max_id a c ≡ ok d
    → 0 < a.id
    → a.id ≤ max_id
    → (d.offsets ≡ set c.offsets a.id a.offset) × (d.types ≡ set c.types a.id a.type)
unfolding fill_one
fill_one-flat max_id a c d e h k = ground arith

-- No attribute of the list has the id, and all ids are positive and differ.
abbrev pub IsAbsent : ℕ → List PAttr → Type 0
IsAbsent id [] = Unit {0}
IsAbsent id (a ∷ attrs) = (a.id ≢ id) × IsAbsent id attrs

abbrev pub HasIds : ℕ → List PAttr → Type 0
HasIds max_id [] = Unit {0}
HasIds max_id (a ∷ attrs) = (0 < a.id) × (a.id ≤ max_id) × IsAbsent a.id attrs × HasIds max_id attrs

fill-flat_kept :
    (max_id : ℕ) (attrs : List PAttr) (c d : Caches) (id : ℕ)
    → fill max_id attrs c ≡ ok d
    → HasIds max_id attrs
    → IsAbsent id attrs
    → (get_or d.offsets id no_offset ≡ get_or c.offsets id no_offset)
      × (get_or d.types id DataType.undefine ≡ get_or c.types id DataType.undefine)
unfolding fill
fill-flat_kept max_id [] c d id e v n = ground arith
fill-flat_kept max_id (a ∷ attrs) c d id e v n =
    let (mid, first, rest) = fill-cons max_id a attrs c d e in
    let flat = fill_one-flat max_id a c mid first v.0 v.1 in
    let later = fill-flat_kept max_id attrs mid d id rest v.3 n.1 in
    (
      later.0
          ∙ ap (λ xs. get_or xs id no_offset) flat.0
          ∙ get_or-set_ne c.offsets a.id id a.offset no_offset n.0,
      later.1
          ∙ ap (λ xs. get_or xs id DataType.undefine) flat.1
          ∙ get_or-set_ne c.types a.id id a.type DataType.undefine n.0,
    )

abbrev pub Sized : ℕ → Caches → Type 0
Sized max_id c = (length c.offsets ≡ max_id + 1) × (length c.types ≡ max_id + 1)

pub fill-Sized :
    (max_id : ℕ) (attrs : List PAttr) (c d : Caches)
    → fill max_id attrs c ≡ ok d
    → HasIds max_id attrs
    → Sized max_id c
    → Sized max_id d
unfolding fill
fill-Sized max_id [] c d e v s = ground arith
fill-Sized max_id (a ∷ attrs) c d e v s =
    let (mid, first, rest) = fill-cons max_id a attrs c d e in
    let flat = fill_one-flat max_id a c mid first v.0 v.1 in
    fill-Sized max_id attrs mid d rest v.3 (
      ap length flat.0 ∙ length-set c.offsets a.id a.offset ∙ s.0,
      ap length flat.1 ∙ length-set c.types a.id a.type ∙ s.1,
    )

pub fill-flat_added :
    (max_id : ℕ) (attrs : List PAttr) (c d : Caches) (i : ℕ)
    → fill max_id attrs c ≡ ok d
    → HasIds max_id attrs
    → Sized max_id c
    → i < length attrs
    → let a = get_or attrs i PAttr.blank in
      (get_or d.offsets a.id no_offset ≡ a.offset)
      × (get_or d.types a.id DataType.undefine ≡ a.type)
      × (a.id ≤ max_id)
fill-flat_added max_id [] c d i e v s h = absurd (omega arith)
fill-flat_added max_id (a ∷ attrs) c d zero e v s h =
    let (mid, first, rest) = fill-cons max_id a attrs c d e in
    let flat = fill_one-flat max_id a c mid first v.0 v.1 in
    let later = fill-flat_kept max_id attrs mid d a.id rest v.3 v.2 in
    (
      later.0
          ∙ ap (λ xs. get_or xs a.id no_offset) flat.0
          ∙ get_or-set_self c.offsets a.id a.offset no_offset (omega arith),
      later.1
          ∙ ap (λ xs. get_or xs a.id DataType.undefine) flat.1
          ∙ get_or-set_self c.types a.id a.type DataType.undefine (omega arith),
      v.1,
    )
fill-flat_added max_id (a ∷ attrs) c d (suc i) e v s h =
    let (mid, first, rest) = fill-cons max_id a attrs c d e in
    let flat = fill_one-flat max_id a c mid first v.0 v.1 in
    fill-flat_added max_id attrs mid d i rest v.3
      (
        ap length flat.0 ∙ length-set c.offsets a.id a.offset ∙ s.0,
        ap length flat.1 ∙ length-set c.types a.id a.type ∙ s.1,
      )
      (omega arith)
