-- ===== src/RecRule/TextForm/Columns.antt =====
-- The bit columns of `toText` without their runs: one definition for each bit.
use cyc_flow.Base.{
  ℕ, zero, suc, ◌+◌, ◌≤◌, ◌<◌, ◌≡◌, refl, ap, sym, ◌∙◌, subst, inl, inr, true, false, leb, ltb,
  ◌==◌, if◌then◌else◌, Bool-cases, none, some, List, [], ◌∷◌, ◌++◌, length, replicate, add64,
  add64-eq, dec_lt, lt→ltb, word, arith,
}
use cyc_flow.Text.{Text, all_digits, stoul}
use cyc_flow.Text.Decimal.{digits, print, decimal-digits, all_digits-digits, length-digits}
use cyc_flow.PReg.{PReg, get_name}
use cyc_flow.PAttr.{Result, ok, err, out_of_range, is_unsigned_integer, place, place_all}
use cyc_flow.PAttr.Bits.{place-in}
use cyc_flow.RecRule.TextForm.{run_of, tokens}

-- The name of each of the `left` bits, an empty one for a bit that is reserved.
abbrev pub bit_names : PReg → ℕ → List ℕ → List Text
bit_names r zero bits = []
bit_names r (suc left) [] = [] ∷ bit_names r left []
bit_names r (suc left) (bid ∷ bits) =
    (if bid == 0 then [] else get_name bid r) ∷ bit_names r left bits

-- Two lists of definitions that place the same bits in a field of at most 64.
abbrev pub PlaceSame : List Text → List Text → Type 0
PlaceSame xs ys =
    (total pos : ℕ) (ids : List ℕ) (r : PReg)
    → total ≤ 64
    → pos ≤ total
    → place_all xs total pos ids r ≡ place_all ys total pos ids r

-- What a definition makes of a place, then the rest.
abbrev after :
    Result (ℕ × List ℕ) × PReg
    → (ℕ → List ℕ → PReg → Result (List ℕ) × PReg)
    → Result (List ℕ) × PReg
after (err e, r) rest = (err e, r)
after (ok (pos, ids), r) rest = rest pos ids r

place_all-after :
    (def : Text) (defs : List Text) (total pos : ℕ) (ids : List ℕ) (r : PReg)
    → place_all (def ∷ defs) total pos ids r
      ≡ after (place def total pos ids r) (place_all defs total)
unfolding place_all
place_all-after def defs total pos ids r = from (place def total pos ids r)
  where
    from :
        (x : Result (ℕ × List ℕ) × PReg)
        → elim x.0 [ err e ↦ (err e, x.1) | ok placed ↦ place_all defs total placed.0 placed.1 x.1 ]
          ≡ after x (place_all defs total)
    from (err e, r) = refl
    from (ok placed, r) = refl

cons-PlaceSame :
    (def : Text) (xs ys : List Text) → PlaceSame xs ys → PlaceSame (def ∷ xs) (def ∷ ys)
cons-PlaceSame def xs ys same total pos ids r small within =
    place_all-after def xs total pos ids r
    ∙ go (place def total pos ids r).0 refl
    ∙ sym (place_all-after def ys total pos ids r)
  where
    r' : PReg
    r' = (place def total pos ids r).1

    go :
        (o : Result (ℕ × List ℕ))
        → (place def total pos ids r).0 ≡ o
        → after (o, r') (place_all xs total) ≡ after (o, r') (place_all ys total)
    go (err e) p = refl
    go (ok placed) p =
        same total placed.0 placed.1 r' small
          (place-in def total pos ids r placed (omega (arith, small)) p).0

-- An empty definition.
place-empty :
    (total pos : ℕ) (ids : List ℕ) (r : PReg)
    → place [] total pos ids r
      ≡ (if leb total pos then (err out_of_range, r) else (ok (add64 pos 1, ids), r))
unfolding place is_unsigned_integer
place-empty total pos ids r = refl

-- Empty definitions, and what is behind them.
place_all-empties :
    (n : ℕ) (xs : List Text) (total pos : ℕ) (ids : List ℕ) (r : PReg)
    → total ≤ 64
    → pos + n ≤ total
    → place_all (replicate n [] ++ xs) total pos ids r ≡ place_all xs total (pos + n) ids r
place_all-empties zero xs total pos ids r small fits =
    let same : pos ≡ pos + 0 = omega arith in ap (λ p. place_all xs total p ids r) same
place_all-empties (suc n) xs total pos ids r small fits =
    let inside : leb total pos ≡ false = ground (arith, fits) in
    let next : add64 pos 1 ≡ pos + 1 = add64-eq pos 1 (omega (arith, small, fits)) in
    let sum : pos + 1 + n ≡ pos + suc n = omega arith in
    place_all-after [] (replicate n [] ++ xs) total pos ids r
    ∙ ap (λ x. after x (place_all (replicate n [] ++ xs) total))
        (place-empty total pos ids r
          ∙ ap (λ b. if b then (err out_of_range, r) else (ok (add64 pos 1, ids), r)) inside
          ∙ ap (λ p. (ok (p, ids), r)) next)
    ∙ place_all-empties n xs total (pos + 1) ids r small (omega (arith, fits))
    ∙ ap (λ p. place_all xs total p ids r) sum

place_all-overflow :
    (n : ℕ) (xs : List Text) (total pos : ℕ) (ids : List ℕ) (r : PReg)
    → total ≤ 64
    → pos ≤ total
    → total < pos + n
    → place_all (replicate n [] ++ xs) total pos ids r ≡ (err out_of_range, r)
place_all-overflow zero xs total pos ids r small within over = absurd (omega (arith, within, over))
place_all-overflow (suc n) xs total pos ids r small within over =
    place_all-after [] (replicate n [] ++ xs) total pos ids r
    ∙ ap (λ x. after x (place_all (replicate n [] ++ xs) total)) (place-empty total pos ids r)
    ∙ elim (Bool-cases (leb total pos)) [
      | inl full ↦
          ap
            (λ b.
              after (if b then (err out_of_range, r) else (ok (add64 pos 1, ids), r))
                (place_all (replicate n [] ++ xs) total))
            full
      | inr inside ↦
          let next : add64 pos 1 ≡ pos + 1 = add64-eq pos 1 (omega (arith, small, within)) in
          ap
            (λ b.
              after (if b then (err out_of_range, r) else (ok (add64 pos 1, ids), r))
                (place_all (replicate n [] ++ xs) total))
            inside
          ∙ ap (λ p. place_all (replicate n [] ++ xs) total p ids r) next
          ∙ place_all-overflow n xs total (pos + 1) ids r small (ground (arith, inside))
              (omega (arith, over))
    ]

-- The number of a run.
stoul-print : (k : ℕ) → k < word → stoul (print k) ≡ some k
unfolding stoul print
stoul-print k h =
    let value = decimal-digits 20 k (omega (arith, h)) in
    ap (λ v. if ltb v word then some v else none) value
    ∙ ap (λ b. if b then some k else none) (lt→ltb k word h)

is_unsigned_integer-number :
    (s : Text) → all_digits s ≡ true → 0 < length s → is_unsigned_integer s ≡ true
unfolding is_unsigned_integer
is_unsigned_integer-number [] d p = absurd (omega (arith, p))
is_unsigned_integer-number (c ∷ s) d p = d

place-number :
    (k total pos : ℕ) (ids : List ℕ) (r : PReg)
    → suc k < word
    → place (print (suc k)) total pos ids r ≡ (
        if leb total pos
        then (err out_of_range, r)
        else if ltb total (add64 pos (suc k))
        then (err out_of_range, r)
        else (ok (add64 pos (suc k), ids), r))
unfolding place
place-number k total pos ids r h =
    let number : is_unsigned_integer (print (suc k)) ≡ true =
      unfold print in
      is_unsigned_integer-number (digits 20 (suc k)) (all_digits-digits 20 (suc k))
        (length-digits 19 (suc k)) in
    let value : stoul (print (suc k)) ≡ some (suc k) = stoul-print (suc k) h in
    let some_skipped : (suc k == 0) ≡ false = ground arith in rw (number, value, some_skipped) refl

run-PlaceSame :
    (skip : ℕ) (xs : List Text)
    → skip + 64 < word
    → PlaceSame (run_of skip xs) (replicate skip [] ++ xs)
run-PlaceSame zero xs h total pos ids r small within = refl
run-PlaceSame (suc k) xs h total pos ids r small within =
    place_all-after (print (suc k)) xs total pos ids r
    ∙ ap (λ x. after x (place_all xs total)) (place-number k total pos ids r (omega (arith, h)))
    ∙ elim (dec_lt total (pos + suc k)) [
      | yes over ↦
          ap (λ x. after x (place_all xs total)) (failed over)
          ∙ sym (place_all-overflow (suc k) xs total pos ids r small within over)
      | no fits ↦
          ap (λ x. after x (place_all xs total)) (moved (omega (arith, fits)))
          ∙ sym (place_all-empties (suc k) xs total pos ids r small (omega (arith, fits)))
    ]
  where
    sum : add64 pos (suc k) ≡ pos + suc k
    sum = add64-eq pos (suc k) (omega (arith, h, small, within))

    outcome : Result (ℕ × List ℕ) × PReg
    outcome =
        if leb total pos
        then (err out_of_range, r)
        else if ltb total (add64 pos (suc k))
        then (err out_of_range, r)
        else (ok (add64 pos (suc k), ids), r)

    failed : total < pos + suc k → outcome ≡ (err out_of_range, r)
    failed over = ground (arith, sum, over)

    moved : pos + suc k ≤ total → outcome ≡ (ok (pos + suc k, ids), r)
    moved fits = ground (arith, sum, fits)

-- A list behind definitions, and a definition behind empty ones.
front-PlaceSame :
    (n : ℕ) (xs ys : List Text)
    → PlaceSame xs ys
    → PlaceSame (replicate n [] ++ xs) (replicate n [] ++ ys)
front-PlaceSame zero xs ys same = same
front-PlaceSame (suc n) xs ys same =
    cons-PlaceSame [] (replicate n [] ++ xs) (replicate n [] ++ ys) (front-PlaceSame n xs ys same)

one_more :
    (n : ℕ) (xs : List Text)
    → Path (List Text) (replicate (n + 1) [] ++ xs) (replicate n [] ++ ([] ∷ xs))
one_more zero xs = refl
one_more (suc n) xs =
    let e : suc n + 1 ≡ suc (n + 1) = omega arith in
    ap (λ k. replicate {A = Text} k [] ++ xs) e ∙ ap (λ ys. [] ∷ ys) (one_more n xs)

-- Every run counts the reserved bits before a name or the end, none left out.
pub tokens-PlaceSame :
    (known : PReg) (left skip : ℕ) (bits : List ℕ)
    → left + skip + 64 < word
    → PlaceSame (tokens known left skip bits) (replicate skip [] ++ bit_names known left bits)
unfolding tokens
tokens-PlaceSame known zero skip bits h = run-PlaceSame skip [] (omega (arith, h))
tokens-PlaceSame known (suc left) skip [] h =
    subst (PlaceSame (tokens known left (skip + 1) [])) (one_more skip (bit_names known left []))
      (tokens-PlaceSame known left (skip + 1) [] (omega (arith, h)))
tokens-PlaceSame known (suc left) skip (bid ∷ bits) h = elim (Bool-cases (bid == 0)) [
  | inl e ↦ rw e (
      subst (PlaceSame (tokens known left (skip + 1) bits))
        (one_more skip (bit_names known left bits))
        (tokens-PlaceSame known left (skip + 1) bits (omega (arith, h))))
  | inr e ↦ rw e (λ total pos ids r small within.
      run-PlaceSame skip (get_name bid known ∷ tokens known left 0 bits) (omega (arith, h)) total
        pos ids r small within
      ∙ front-PlaceSame skip (get_name bid known ∷ tokens known left 0 bits)
          (get_name bid known ∷ bit_names known left bits)
          (cons-PlaceSame (get_name bid known) (tokens known left 0 bits)
            (bit_names known left bits) (tokens-PlaceSame known left 0 bits (omega (arith, h))))
          total pos ids r small within)
]
