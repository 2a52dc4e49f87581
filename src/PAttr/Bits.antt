-- ===== src/PAttr/Bits.antt =====
-- Where the constructor of a field with named bits may write.
use cyc_flow.Base.{
  ℕ, ◌*◌, ◌≤◌, ◌<◌, ◌≡◌, ◌≢◌, refl, ap, sym, ◌∙◌, inl, inr, true, Bool-cases, List, [], ◌∷◌, length,
  replicate, length-set, length-replicate, add64-eq, word, arith,
}
use cyc_flow.Text.{Text, strncpy}
use cyc_flow.DataType.{DataType, get_type_size, is_integer_type}
use cyc_flow.PReg.{PReg, get_id}
use cyc_flow.PAttr.{PAttr, Result, Error, ok, err, place, place_all, trim, with_bits, undefined}

pub place-in :
    (def : Text) (total_bits bit_pos : ℕ) (bit_ids : List ℕ) (r : PReg) (out : ℕ × List ℕ)
    → total_bits < word
    → (place def total_bits bit_pos bit_ids r).0 ≡ ok out
    → (out.0 ≤ total_bits) × (length out.1 ≡ length bit_ids)
unfolding place
place-in def total_bits bit_pos bit_ids r out w e =
    ground (arith, add64-eq bit_pos 1, length-set bit_ids bit_pos (get_id def r).0)

-- The loop over the definitions, one round at a time.
place_all-cons :
    (def : Text) (defs : List Text) (total_bits bit_pos : ℕ) (bit_ids : List ℕ) (r : PReg)
    (out : List ℕ)
    → (place_all (def ∷ defs) total_bits bit_pos bit_ids r).0 ≡ ok out
    → (placed : ℕ × List ℕ) × ((place def total_bits bit_pos bit_ids r).0 ≡ ok placed)
      × ((place_all defs total_bits placed.0 placed.1 (place def total_bits bit_pos bit_ids r).1).0
          ≡ ok out)
unfolding place_all
place_all-cons def defs total_bits bit_pos bit_ids r out e =
    go (place def total_bits bit_pos bit_ids r).0 refl e
  where
    r' : PReg
    r' = (place def total_bits bit_pos bit_ids r).1

    rest : Result (ℕ × List ℕ) → Result (List ℕ) × PReg
    rest o = elim o [
      | err k ↦ (err k, r')
      | ok placed ↦ place_all defs total_bits placed.0 placed.1 r'
    ]

    go :
        (o : Result (ℕ × List ℕ))
        → (place def total_bits bit_pos bit_ids r).0 ≡ o
        → (rest o).0 ≡ ok out
        → (placed : ℕ × List ℕ) × ((place def total_bits bit_pos bit_ids r).0 ≡ ok placed)
          × ((place_all defs total_bits placed.0 placed.1 r').0 ≡ ok out)
    go (ok placed) p q = (placed, p, q)
    go (err k) p q = cc

place_all-in :
    (defs : List Text) (total_bits bit_pos : ℕ) (bit_ids : List ℕ) (r : PReg) (out : List ℕ)
    → total_bits < word
    → (place_all defs total_bits bit_pos bit_ids r).0 ≡ ok out
    → length out ≡ length bit_ids
place_all-in [] total_bits bit_pos bit_ids r out w e = unfold place_all in ground arith
place_all-in (def ∷ defs) total_bits bit_pos bit_ids r out w e =
    let (placed, p, q) = place_all-cons def defs total_bits bit_pos bit_ids r out e in
    place_all-in defs total_bits placed.0 placed.1 (place def total_bits bit_pos bit_ids r).1 out w
      q
    ∙ (place-in def total_bits bit_pos bit_ids r placed w p).1

trim-le : (bits : List ℕ) → length (trim bits) ≤ length bits
unfolding trim
trim-le [] = omega arith
trim-le (b ∷ bits) = ground (arith, trim-le bits)

pub small_type : (t : DataType) → get_type_size t ≤ 8
unfolding get_type_size
small_type DataType.undefine = omega arith
small_type _ = omega arith

-- A field with named bits is made only of an integer type, has one element, and has no more bits
-- than that element, whatever the bit definitions are, the ones whose skips wrap at 2^64 included.
pub with_bits-in :
    (name : Text) (type : DataType) (bit_defs : List Text) (r : PReg) (a : PAttr)
    → (with_bits name type bit_defs r).0 ≡ ok a
    → (a.type ≡ type)
      × (a.count ≡ 1)
      × (is_integer_type type ≡ true)
      × (length a.bit_ids ≤ get_type_size type * 8)
unfolding with_bits
with_bits-in name type bit_defs r a e = elim (Bool-cases (is_integer_type type)) [
  | inr other ↦ absurd (ground (arith, other))
  | inl integer ↦
      go integer (place_all bit_defs total 0 (replicate total 0) r').0 refl (simp integer at e)
]
  where
    total : ℕ
    total = get_type_size type * 8

    r' : PReg
    r' = (get_id (strncpy 25 name) r).1

    attr : List ℕ → PAttr
    attr bits = record {
      id = (get_id (strncpy 25 name) r).0;
      name = strncpy 25 name;
      type = type;
      count = 1;
      offset = 0;
      bit_ids = trim bits;
    }

    r'' : PReg
    r'' = (place_all bit_defs total 0 (replicate total 0) r').1

    result : Result (List ℕ) → Result PAttr × PReg
    result o = elim o [ err k ↦ (err k, r'') | ok bits ↦ (ok (attr bits), r'') ]

    attr-eq : (bits : List ℕ) → ok (attr bits) ≡ ok a → attr bits ≡ a
    attr-eq bits q = cc

    go :
        is_integer_type type ≡ true
        → (o : Result (List ℕ)) → (place_all bit_defs total 0 (replicate total 0) r').0 ≡ o
        → (result o).0 ≡ ok a
        → (a.type ≡ type)
          × (a.count ≡ 1)
          × (is_integer_type type ≡ true)
          × (length a.bit_ids ≤ get_type_size type * 8)
    go integer (err k) p q = absurd (cc)
    go integer (ok bits) p q =
        let same : a ≡ attr bits = sym (attr-eq bits q) in
        (
          ap (λ x. x.type) same,
          ap (λ x. x.count) same,
          integer,
          omega (
            arith,
            ap (λ x. length x.bit_ids) same,
            trim-le bits,
            place_all-in bit_defs total 0 (replicate total 0) r' bits
                (omega (arith, small_type type)) p,
            length-replicate {A = ℕ} total 0,
          ),
        )

place-defined :
    (def : Text) (total_bits bit_pos : ℕ) (bit_ids : List ℕ) (r : PReg)
    → length bit_ids ≡ total_bits
    → (place def total_bits bit_pos bit_ids r).0 ≢ err undefined
unfolding place
place-defined def total_bits bit_pos bit_ids r room e = ground (arith, e, room)

same_error {ℓ κ} :
    {A : Type ℓ} {B : Type κ} (k : Error)
    → Path (Result A) (err k) (err undefined)
    → Path (Result B) (err k) (err undefined)
same_error k q = ap (λ e. err e) (error-eq k q)
  where
    error-eq : {A : Type ℓ} (k : Error) → Path (Result A) (err k) (err undefined) → k ≡ undefined
    error-eq k q = cc

place_all-defined :
    (defs : List Text) (total_bits bit_pos : ℕ) (bit_ids : List ℕ) (r : PReg)
    → total_bits < word
    → length bit_ids ≡ total_bits
    → (place_all defs total_bits bit_pos bit_ids r).0 ≢ err undefined
unfolding place_all
place_all-defined [] total_bits bit_pos bit_ids r w room e = cc
place_all-defined (def ∷ defs) total_bits bit_pos bit_ids r w room e =
    go (place def total_bits bit_pos bit_ids r).0 refl
      (λ placed p.
        place_all-defined defs total_bits placed.0 placed.1
          (place def total_bits bit_pos bit_ids r).1 w
          ((place-in def total_bits bit_pos bit_ids r placed w p).1 ∙ room))
      e
  where
    r' : PReg
    r' = (place def total_bits bit_pos bit_ids r).1

    rest : Result (ℕ × List ℕ) → Result (List ℕ) × PReg
    rest o = elim o [
      | err k ↦ (err k, r')
      | ok placed ↦ place_all defs total_bits placed.0 placed.1 r'
    ]

    go :
        (o : Result (ℕ × List ℕ))
        → (place def total_bits bit_pos bit_ids r).0 ≡ o
        → ((placed : ℕ × List ℕ)
            → (place def total_bits bit_pos bit_ids r).0 ≡ ok placed
            → (place_all defs total_bits placed.0 placed.1 r').0 ≢ err undefined)
        → (rest o).0 ≢ err undefined
    go (ok placed) p later q = later placed p q
    go (err k) p later q = place-defined def total_bits bit_pos bit_ids r room (p ∙ same_error k q)

-- Whatever the bit definitions are, the ones whose skips wrap at 2^64 included, the constructor of
-- a field with named bits never writes outside its array of bits.
pub with_bits-defined :
    (name : Text) (type : DataType) (bit_defs : List Text) (r : PReg)
    → (with_bits name type bit_defs r).0 ≢ err undefined
unfolding with_bits
with_bits-defined name type bit_defs r e = elim (Bool-cases (is_integer_type type)) [
  | inr other ↦ absurd (ground (arith, other, e))
  | inl integer ↦ go (place_all bit_defs total 0 (replicate total 0) r').0 refl (simp integer at e)
]
  where
    total : ℕ
    total = get_type_size type * 8

    r' : PReg
    r' = (get_id (strncpy 25 name) r).1

    r'' : PReg
    r'' = (place_all bit_defs total 0 (replicate total 0) r').1

    result : Result (List ℕ) → Result PAttr × PReg
    result o = elim o [
      | err k ↦ (err k, r'')
      | ok bits ↦ (
        ok (record {
          id = (get_id (strncpy 25 name) r).0;
          name = strncpy 25 name;
          type = type;
          count = 1;
          offset = 0;
          bit_ids = trim bits;
        }),
        r'',
      )
    ]

    go :
        (o : Result (List ℕ))
        → (place_all bit_defs total 0 (replicate total 0) r').0 ≡ o
        → (result o).0 ≢ err undefined
    go (ok bits) p q = cc
    go (err k) p q =
        place_all-defined bit_defs total 0 (replicate total 0) r' (omega (arith, small_type type))
          (length-replicate {A = ℕ} total 0) (p ∙ same_error k q)
