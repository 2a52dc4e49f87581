-- ===== src/RecRule/Aligned.antt =====
-- The aligned layout keeps each field at a multiple of its element size, and the two layouts as a whole.
use native.Mathlib.Nat.{le_trans}
use cyc_flow.Base.{
  subst, add64, mul64, ℕ, ◌+◌, ◌*◌, ◌%◌, ◌≤◌, ◌<◌, max, ◌≡◌, refl, ap, sym, ◌∙◌, ◌⊎◌, inl, inr,
  Bool, true, false, Bool-cases, ltb, List, [], ◌∷◌, ◌++◌, length, get_or, word, arith, ltb→lt,
  ltb_false→le,
}
use cyc_flow.DataType.{DataType, get_type_size}
use cyc_flow.PReg.{PReg}
use cyc_flow.PAttr.{PAttr, plain}
use cyc_flow.PAttr
use cyc_flow.RecRule.{place, elem_size, insert, stable_sort, max_elem, pad, lay_out, build_header}
use cyc_flow.RecRule.Layout.{
  field_bytes, total_bytes, Tiles, place-Tiles, place-step, Tiles-append, Tiles-in, Tiles-apart,
  total-stable_sort, pad_lem,
}

-- Natural alignment of one field, and of every field.
abbrev pub IsNatural : PAttr → Type 0
IsNatural a = 0 < elem_size a → a.offset % elem_size a ≡ 0

abbrev pub AllNatural : List PAttr → Type 0
AllNatural [] = Unit {0}
AllNatural (a ∷ attrs) = IsNatural a × AllNatural attrs

-- An element size is 0 or a power of two up to 8.
abbrev IsPower : ℕ → Type 0
IsPower s = (s ≡ 0) ⊎ (s ≡ 1) ⊎ (s ≡ 2) ⊎ (s ≡ 4) ⊎ (s ≡ 8)

size-IsPower : (t : DataType) → IsPower (get_type_size t)
unfolding get_type_size
size-IsPower DataType.undefine = omega arith
size-IsPower _ = omega arith

-- Element sizes fall along the list, from at most `m` on.
abbrev IsFalling : ℕ → List PAttr → Type 0
IsFalling m [] = Unit {0}
IsFalling m (a ∷ attrs) = (elem_size a ≤ m) × IsFalling (elem_size a) attrs

insert-IsFalling :
    (a : PAttr) (attrs : List PAttr) (m : ℕ)
    → elem_size a ≤ m
    → IsFalling m attrs
    → IsFalling m (insert a attrs)
unfolding insert
insert-IsFalling a [] m h f = (h, tt)
insert-IsFalling a (b ∷ bs) m h (p, f) = elim (Bool-cases (ltb (elem_size a) (elem_size b))) [
  | inl small ↦ rw small (
    p,
    insert-IsFalling a bs (elem_size b) (omega (arith, ltb→lt (elem_size a) (elem_size b) small)) f,
  )
  | inr large ↦ rw large (h, (ltb_false→le (elem_size a) (elem_size b) large, f))
]

sort-IsFalling : (attrs : List PAttr) → IsFalling 8 (stable_sort attrs)
unfolding stable_sort
sort-IsFalling [] = tt
sort-IsFalling (a ∷ attrs) =
    insert-IsFalling a (stable_sort attrs) 8 (omega (arith, size-IsPower a.type))
      (sort-IsFalling attrs)

-- A multiple of a power of two is one of every smaller power.
halves :
    (m start : ℕ)
    → IsPower m
    → start % m ≡ 0
    → (2 ≤ m → start % 2 ≡ 0) × (4 ≤ m → start % 4 ≡ 0) × (8 ≤ m → start % 8 ≡ 0)
halves m start (inl p) e =
    (λ h. absurd (omega arith), λ h. absurd (omega arith), λ h. absurd (omega arith))
halves m start (inr (inl p)) e =
    (λ h. absurd (omega arith), λ h. absurd (omega arith), λ h. absurd (omega arith))
halves m start (inr (inr (inl p))) e =
    let f = rw p at e in (λ h. f, λ h. absurd (omega arith), λ h. absurd (omega arith))
halves m start (inr (inr (inr (inl p)))) e =
    let f = rw p at e in (λ h. omega arith, λ h. f, λ h. absurd (omega arith))
halves m start (inr (inr (inr (inr p)))) e =
    let f = rw p at e in (λ h. omega arith, λ h. omega arith, λ h. f)

-- So is the end of a field that starts at such a multiple.
smaller :
    (s m start count : ℕ)
    → IsPower s
    → IsPower m
    → s ≤ m
    → start % m ≡ 0
    → 0 < s
    → (start % s ≡ 0) × ((start + s * count) % s ≡ 0)
smaller s m start count (inl p) pm h e q = absurd (omega arith)
smaller s m start count (inr (inl p)) pm h e q = rw p (omega arith, omega arith)
smaller s m start count (inr (inr (inl p))) pm h e q =
    let f = (halves m start pm e).0 (omega arith) in rw p (f, omega arith)
smaller s m start count (inr (inr (inr (inl p)))) pm h e q =
    let f = (halves m start pm e).1 (omega arith) in rw p (f, omega arith)
smaller s m start count (inr (inr (inr (inr p)))) pm h e q =
    let f = (halves m start pm e).2 (omega arith) in rw p (f, omega arith)

place-AllNatural :
    (attrs : List PAttr) (m start : ℕ)
    → start + total_bytes attrs < word
    → IsPower m
    → (0 < m → start % m ≡ 0)
    → IsFalling m attrs
    → AllNatural (place attrs start).0
unfolding place
place-AllNatural [] m start h pm e f = tt
place-AllNatural (a ∷ attrs) m start h pm e (le, f) = (
  λ p. (here p).0,
  rw (place-step a start (omega arith)) (
      place-AllNatural attrs (elem_size a) (start + field_bytes a) (omega arith)
        (size-IsPower a.type) (λ p. (here p).1) f),
)
  where
    here :
        0 < elem_size a
        → (start % elem_size a ≡ 0) × ((start + elem_size a * a.count) % elem_size a ≡ 0)
    here p = smaller (elem_size a) m start a.count (size-IsPower a.type) pm le (e (omega arith)) p

AllNatural-append : (xs ys : List PAttr) → AllNatural xs → AllNatural ys → AllNatural (xs ++ ys)
AllNatural-append [] ys n k = k
AllNatural-append (a ∷ xs) ys (n, ns) k = (n, AllNatural-append xs ys ns k)

max_elem-bounds :
    (m : ℕ) (attrs : List PAttr) → 0 < m → m ≤ 8 → (0 < max_elem m attrs) × (max_elem m attrs ≤ 8)
unfolding max_elem
max_elem-bounds m [] h k = (h, k)
max_elem-bounds m (a ∷ attrs) h k =
    max_elem-bounds (max m (elem_size a)) attrs (omega arith) (omega (arith, size-IsPower a.type))

-- What a layout is: tiles from 0 on, and a size at or above their end.
record Laid (attrs : List PAttr) (size end : ℕ) : Type 0 where
  tiles : Tiles 0 attrs end
  enough : end ≤ size

joined :
    (header fields : List PAttr)
    → total_bytes header + total_bytes fields < word
    → Tiles 0
        ((place header 0).0 ++ (place fields (place header 0).1).0)
        (total_bytes header + total_bytes fields)
      × ((place fields (place header 0).1).1 ≡ total_bytes header + total_bytes fields)
joined header fields h = rw start (
  Tiles-append (place header 0).0 (place fields (total_bytes header)).0 0 (total_bytes header)
      (total_bytes header + total_bytes fields)
      (subst (Tiles 0 (place header 0).0) none_before first.0) rest.0,
  rest.1,
)
  where
    first :
        Tiles 0 (place header 0).0 (0 + total_bytes header)
        × ((place header 0).1 ≡ 0 + total_bytes header)
    first = place-Tiles header 0 (omega arith)

    none_before : 0 + total_bytes header ≡ total_bytes header
    none_before = omega arith

    start : (place header 0).1 ≡ total_bytes header
    start = first.1 ∙ none_before

    rest :
        Tiles
          (total_bytes header)
          (place fields (total_bytes header)).0
          (total_bytes header + total_bytes fields)
        × ((place fields (total_bytes header)).1 ≡ total_bytes header + total_bytes fields)
    rest = place-Tiles fields (total_bytes header) h

lay_out-Laid :
    (header input : List PAttr) (align : Bool)
    → total_bytes header + total_bytes input + 8 < word
    → Laid
        (lay_out header input align).0
        (lay_out header input align).1
        (total_bytes header + total_bytes input)
unfolding lay_out
lay_out-Laid header input false h = record {
  tiles = (joined header input (omega arith)).0;
  enough = omega (arith, (joined header input (omega arith)).1);
}
lay_out-Laid header input true h = record {
  tiles =
      subst (Tiles 0 attrs) (ap (λ k. total_bytes header + k) (total-stable_sort input))
        (joined header (stable_sort input) (omega (arith, total-stable_sort input))).0;
  enough =
      le_trans (omega (arith, end))
        (pad_lem (max_elem 1 attrs) (place (stable_sort input) (place header 0).1).1 bounds.0
          (omega (arith, end, bounds))).0;
}
  where
    attrs : List PAttr
    attrs = (place header 0).0 ++ (place (stable_sort input) (place header 0).1).0

    bounds : (0 < max_elem 1 attrs) × (max_elem 1 attrs ≤ 8)
    bounds = max_elem-bounds 1 attrs (omega arith) (omega arith)

    end : (place (stable_sort input) (place header 0).1).1 ≡ total_bytes header + total_bytes input
    end =
        (joined header (stable_sort input) (omega (arith, total-stable_sort input))).1
        ∙ ap (λ k. total_bytes header + k) (total-stable_sort input)

-- Fields of a record share no byte, and all lie inside it, in both layouts, as long as the sum of
-- the sizes stays below 2^64 - 8.
pub lay_out-apart :
    (header input : List PAttr) (align : Bool) (i j : ℕ)
    → total_bytes header + total_bytes input + 8 < word
    → i < j
    → j < length (lay_out header input align).0
    → let (attrs, size) = lay_out header input align in
      ((get_or attrs i PAttr.blank).offset + field_bytes (get_or attrs i PAttr.blank)
        ≤ (get_or attrs j PAttr.blank).offset)
      × ((get_or attrs j PAttr.blank).offset + field_bytes (get_or attrs j PAttr.blank) ≤ size)
lay_out-apart header input align i j h p q =
    let l = lay_out-Laid header input align h in
    (
      Tiles-apart (lay_out header input align).0 0 _ i j l.tiles p q,
      le_trans (Tiles-in (lay_out header input align).0 0 _ j l.tiles q).1 l.enough,
    )

-- The header is one field of 8 bytes at offset 0.
head_bytes : (r : PReg) → total_bytes (build_header r).0 ≡ 8
unfolding build_header plain get_type_size
head_bytes r = refl

head_end : (r : PReg) → (place (build_header r).0 0).1 ≡ 8
unfolding build_header plain get_type_size place PAttr.get_size add64 mul64
head_end r = refl

head_natural : (r : PReg) → AllNatural (place (build_header r).0 0).0
unfolding build_header plain get_type_size place
head_natural r = (λ p. refl, tt)

-- In the aligned layout each field lies at a multiple of its element size, and the record's size is
-- a multiple of the largest one, less than one such element above what the fields take, as long as
-- the sum of the sizes stays below 2^64 - 8.
pub lay_out-natural :
    (input : List PAttr) (r : PReg)
    → total_bytes (build_header r).0 + total_bytes input + 8 < word
    → let header = (build_header r).0 in
      let (attrs, size) = lay_out header input true in
      AllNatural attrs
      × (size % max_elem 1 attrs ≡ 0)
      × (size < total_bytes header + total_bytes input + max_elem 1 attrs)
unfolding lay_out
lay_out-natural input r h = (
  AllNatural-append (place header 0).0 (place (stable_sort input) (place header 0).1).0
      (head_natural r)
      (subst (λ k. AllNatural (place (stable_sort input) k).0) (sym (head_end r))
        (place-AllNatural (stable_sort input) 8 8
          (omega (arith, total-stable_sort input, head_bytes r)) (omega arith) (λ p. omega arith)
          (sort-IsFalling input))),
  padded.2,
  omega (arith, padded.1, end),
)
  where
    header : List PAttr
    header = (build_header r).0

    attrs : List PAttr
    attrs = (place header 0).0 ++ (place (stable_sort input) (place header 0).1).0

    bounds : (0 < max_elem 1 attrs) × (max_elem 1 attrs ≤ 8)
    bounds = max_elem-bounds 1 attrs (omega arith) (omega arith)

    size : ℕ
    size = (place (stable_sort input) (place header 0).1).1

    end : size ≡ total_bytes header + total_bytes input
    end =
        (joined header (stable_sort input) (omega (arith, total-stable_sort input))).1
        ∙ ap (λ k. total_bytes header + k) (total-stable_sort input)

    padded :
        (size ≤ pad (max_elem 1 attrs) size)
        × (pad (max_elem 1 attrs) size < size + max_elem 1 attrs)
        × (pad (max_elem 1 attrs) size % max_elem 1 attrs ≡ 0)
    padded = pad_lem (max_elem 1 attrs) size bounds.0 (omega (arith, end, bounds))
