-- ===== src/RecRule/Layout.antt =====
-- The layout of a record: fields lie one behind the other, and the aligned layout keeps each at a
-- multiple of its element size.
use native.Mathlib.Nat.{div-add-mod', add-mul, mul-mod_left}
use cyc_flow.Base.{
  ℕ, zero, suc, ◌+◌, ◌-◌, ◌*◌, ◌%◌, ◌/◌, ◌≤◌, ◌<◌, ◌≡◌, refl, ap, ◌∙◌, inl, inr, false, Bool-cases,
  ltb, ◌==◌, List, [], ◌∷◌, ◌++◌, length, get_or, add64, add64-eq, mul64-eq, word, arith, ==→eq,
}
use cyc_flow.PAttr.{PAttr, get_size}
use cyc_flow.PAttr
use cyc_flow.RecRule.{place, elem_size, insert, stable_sort, pad}

-- The bytes of a field and of a list of fields, without a bound.
abbrev pub field_bytes : PAttr → ℕ
field_bytes a = elem_size a * a.count

abbrev pub total_bytes : List PAttr → ℕ
total_bytes [] = 0
total_bytes (a ∷ attrs) = field_bytes a + total_bytes attrs

-- The fields lie from `start` to `end` with nothing between them.
abbrev pub Tiles : ℕ → List PAttr → ℕ → Type 0
Tiles start [] end = start ≡ end
Tiles start (a ∷ attrs) end = (a.offset ≡ start) × Tiles (start + field_bytes a) attrs end

pub place-step :
    (a : PAttr) (start : ℕ)
    → start + field_bytes a < word
    → add64 start (get_size a) ≡ start + field_bytes a
unfolding get_size
place-step a start h =
    ap (add64 start) (mul64-eq (elem_size a) a.count (omega arith))
    ∙ add64-eq start (field_bytes a) h

pub place-Tiles :
    (attrs : List PAttr) (start : ℕ)
    → start + total_bytes attrs < word
    → Tiles start (place attrs start).0 (start + total_bytes attrs)
      × ((place attrs start).1 ≡ start + total_bytes attrs)
unfolding place
place-Tiles [] start h = (omega arith, omega arith)
place-Tiles (a ∷ attrs) start h =
    let rest = place-Tiles attrs (start + field_bytes a) (omega arith) in
    rw (regroup, step) ((refl, rest.0), rest.1)
  where
    step : add64 start (get_size a) ≡ start + field_bytes a
    step = place-step a start (omega arith)

    regroup :
        start + (field_bytes a + total_bytes attrs) ≡ start + field_bytes a + total_bytes attrs
    regroup = omega arith

pub Tiles-append :
    (xs ys : List PAttr) (start middle end : ℕ)
    → Tiles start xs middle
    → Tiles middle ys end
    → Tiles start (xs ++ ys) end
Tiles-append [] ys start middle end t u = rw t u
Tiles-append (a ∷ xs) ys start middle end (e, t) u =
    (e, Tiles-append xs ys (start + field_bytes a) middle end t u)

pub Tiles-in :
    (attrs : List PAttr) (start end i : ℕ)
    → Tiles start attrs end
    → i < length attrs
    → (start ≤ (get_or attrs i PAttr.blank).offset)
      × ((get_or attrs i PAttr.blank).offset + field_bytes (get_or attrs i PAttr.blank) ≤ end)
Tiles-in [] start end i t h = absurd (omega arith)
Tiles-in (a ∷ attrs) start end zero (e, t) h =
    (omega arith, omega (arith, Tiles-le attrs (start + field_bytes a) end t))
  where
    Tiles-le : (attrs : List PAttr) (start end : ℕ) → Tiles start attrs end → start ≤ end
    Tiles-le [] start end t = omega arith
    Tiles-le (a ∷ attrs) start end (e, t) =
        omega (arith, Tiles-le attrs (start + field_bytes a) end t)
Tiles-in (a ∷ attrs) start end (suc i) (e, t) h =
    let rest = Tiles-in attrs (start + field_bytes a) end i t (omega arith) in
    (omega (arith, rest.0), rest.1)

-- Two fields of a tiling do not share a byte.
pub Tiles-apart :
    (attrs : List PAttr) (start end i j : ℕ)
    → Tiles start attrs end
    → i < j
    → j < length attrs
    → (get_or attrs i PAttr.blank).offset + field_bytes (get_or attrs i PAttr.blank)
      ≤ (get_or attrs j PAttr.blank).offset
Tiles-apart [] start end i j t h k = absurd (omega arith)
Tiles-apart (a ∷ attrs) start end i zero t h k = absurd (omega arith)
Tiles-apart (a ∷ attrs) start end zero (suc j) (e, t) h k =
    omega (arith, (Tiles-in attrs (start + field_bytes a) end j t (omega arith)).0)
Tiles-apart (a ∷ attrs) start end (suc i) (suc j) (e, t) h k =
    Tiles-apart attrs (start + field_bytes a) end i j t (omega arith) (omega arith)

total-insert :
    (a : PAttr) (attrs : List PAttr)
    → total_bytes (insert a attrs) ≡ field_bytes a + total_bytes attrs
unfolding insert
total-insert a [] = refl
total-insert a (b ∷ bs) = ground (arith, total-insert a bs)

pub total-stable_sort : (attrs : List PAttr) → total_bytes (stable_sort attrs) ≡ total_bytes attrs
unfolding stable_sort
total-stable_sort [] = refl
total-stable_sort (a ∷ attrs) =
    omega (arith, total-insert a (stable_sort attrs), total-stable_sort attrs)

pub total-append : (xs ys : List PAttr) → total_bytes (xs ++ ys) ≡ total_bytes xs + total_bytes ys
total-append [] ys = omega arith
total-append (a ∷ xs) ys = omega (arith, total-append xs ys)

-- Padding rounds the size up to the next multiple of the largest element.
pub pad_lem :
    (m size : ℕ)
    → 0 < m
    → size + m < word
    → (size ≤ pad m size) × (pad m size < size + m) × (pad m size % m ≡ 0)
unfolding pad
pad_lem m size h fits = elim (Bool-cases (ltb 1 m)) [
  | inl wide ↦ rw wide (elim (Bool-cases (size % m == 0)) [
    | inl whole ↦ rw whole (omega arith, omega arith, ==→eq (size % m) 0 whole)
    | inr ragged ↦
        let up : add64 size (m - size % m) ≡ (size / m + 1) * m =
          add64-eq size (m - size % m) (omega arith)
          ∙ omega (arith, div-add-mod' size m, add-mul (size / m) 1 m, rem) in
        rw (ragged, up)
          (
            omega (arith, div-add-mod' size m, add-mul (size / m) 1 m, rem),
            omega (arith, ne ragged, div-add-mod' size m, add-mul (size / m) 1 m, rem),
            mul-mod_left (size / m + 1) m,
          )
  ])
  | inr one ↦
      rw one (omega arith, omega arith, (let e : m ≡ 1 = ground arith in rw e (omega arith)))
]
  where
    rem : size % m < m
    rem = omega arith

    ne : (size % m == 0) ≡ false → 0 < size % m
    ne e = ground arith
