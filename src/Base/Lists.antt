-- ===== src/Base/Lists.antt =====
-- Arrays as lists with native indices, under the library's names.
use Prim.Native.Nat.{ℕ, zero, suc, ◌+◌, ◌-◌, ◌≤◌, ◌<◌, min}
use mathlib.Core.Path.{◌≡◌, refl, sym, ap, ap₂, ◌∙◌}
use mathlib.Core.Logic.{◌≢◌}
use mathlib.Core.List.{List, [], ◌∷◌, ◌++◌}
use native.Mathlib.Omega.{arith}

module _ {ℓ} {A : Type ℓ} where
  abbrev pub length : List A → ℕ
  length [] = 0
  length (x ∷ xs) = suc (length xs)

  abbrev pub get_or : List A → ℕ → A → A
  get_or [] i d = d
  get_or (x ∷ xs) zero d = x
  get_or (x ∷ xs) (suc i) d = get_or xs i d

  -- A write out of bounds changes nothing.
  abbrev pub set : List A → ℕ → A → List A
  set [] i v = []
  set (x ∷ xs) zero v = v ∷ xs
  set (x ∷ xs) (suc i) v = x ∷ set xs i v

  abbrev pub take : ℕ → List A → List A
  take zero xs = []
  take (suc n) [] = []
  take (suc n) (x ∷ xs) = x ∷ take n xs

  abbrev pub drop : ℕ → List A → List A
  drop zero xs = xs
  drop (suc n) [] = []
  drop (suc n) (x ∷ xs) = drop n xs

  abbrev pub replicate : ℕ → A → List A
  replicate zero a = []
  replicate (suc n) a = a ∷ replicate n a

  -- f i, f (i + 1), and so on, n values.
  abbrev pub tabulate : (ℕ → A) → ℕ → ℕ → List A
  tabulate f i zero = []
  tabulate f i (suc n) = f i ∷ tabulate f (i + 1) n

  pub take-nil : (n : ℕ) → let e : List A = [] in take n e ≡ e
  take-nil zero = refl
  take-nil (suc n) = refl

  pub drop-nil : (n : ℕ) → let e : List A = [] in drop n e ≡ e
  drop-nil zero = refl
  drop-nil (suc n) = refl

  pub length-append : (xs ys : List A) → length (xs ++ ys) ≡ length xs + length ys
  length-append [] ys = omega arith
  length-append (x ∷ xs) ys = omega (arith, length-append xs ys)

  pub length-set : (xs : List A) (i : ℕ) (v : A) → length (set xs i v) ≡ length xs
  length-set [] i v = refl
  length-set (x ∷ xs) zero v = refl
  length-set (x ∷ xs) (suc i) v = ap suc (length-set xs i v)

  pub length-take : (n : ℕ) (xs : List A) → length (take n xs) ≡ min n (length xs)
  length-take zero xs = omega arith
  length-take (suc n) [] = omega arith
  length-take (suc n) (x ∷ xs) = omega (arith, length-take n xs)

  pub length-drop : (n : ℕ) (xs : List A) → length (drop n xs) ≡ length xs - n
  length-drop zero xs = omega arith
  length-drop (suc n) [] = omega arith
  length-drop (suc n) (x ∷ xs) = omega (arith, length-drop n xs)

  pub length-replicate : (n : ℕ) (a : A) → length (replicate n a) ≡ n
  length-replicate zero a = refl
  length-replicate (suc n) a = ap suc (length-replicate n a)

  pub length-tabulate : (f : ℕ → A) (i n : ℕ) → length (tabulate f i n) ≡ n
  length-tabulate f i zero = refl
  length-tabulate f i (suc n) = ap suc (length-tabulate f (i + 1) n)

  pub get_or-nil : (i : ℕ) (d : A) → get_or [] i d ≡ d
  get_or-nil i d = refl

  pub get_or-set_self :
      (xs : List A) (i : ℕ) (v d : A) → i < length xs → get_or (set xs i v) i d ≡ v
  get_or-set_self [] i v d h = absurd (omega arith)
  get_or-set_self (x ∷ xs) zero v d h = refl
  get_or-set_self (x ∷ xs) (suc i) v d h = get_or-set_self xs i v d (omega arith)

  pub get_or-set_ne :
      (xs : List A) (i j : ℕ) (v d : A) → i ≢ j → get_or (set xs i v) j d ≡ get_or xs j d
  get_or-set_ne [] i j v d h = refl
  get_or-set_ne (x ∷ xs) zero zero v d h = absurd (h refl)
  get_or-set_ne (x ∷ xs) zero (suc j) v d h = refl
  get_or-set_ne (x ∷ xs) (suc i) zero v d h = refl
  get_or-set_ne (x ∷ xs) (suc i) (suc j) v d h = get_or-set_ne xs i j v d (λ e. h (ap suc e))

  pub get_or-past : (xs : List A) (i : ℕ) (d : A) → length xs ≤ i → get_or xs i d ≡ d
  get_or-past [] i d h = refl
  get_or-past (x ∷ xs) zero d h = absurd (omega arith)
  get_or-past (x ∷ xs) (suc i) d h = get_or-past xs i d (omega arith)

  pub get_or-append_left :
      (xs ys : List A) (i : ℕ) (d : A) → i < length xs → get_or (xs ++ ys) i d ≡ get_or xs i d
  get_or-append_left [] ys i d h = absurd (omega arith)
  get_or-append_left (x ∷ xs) ys zero d h = refl
  get_or-append_left (x ∷ xs) ys (suc i) d h = get_or-append_left xs ys i d (omega arith)

  pub get_or-append_right :
      (xs ys : List A) (i : ℕ) (d : A) → get_or (xs ++ ys) (length xs + i) d ≡ get_or ys i d
  get_or-append_right [] ys i d = ap (λ k. get_or ys k d) (omega arith)
  get_or-append_right (x ∷ xs) ys i d =
      let e : suc (length xs) + i ≡ suc (length xs + i) = omega arith in
      rw e (get_or-append_right xs ys i d)

  pub get_or-take :
      (n : ℕ) (xs : List A) (i : ℕ) (d : A) → i < n → get_or (take n xs) i d ≡ get_or xs i d
  get_or-take zero xs i d h = absurd (omega arith)
  get_or-take (suc n) [] i d h = refl
  get_or-take (suc n) (x ∷ xs) zero d h = refl
  get_or-take (suc n) (x ∷ xs) (suc i) d h = get_or-take n xs i d (omega arith)

  pub get_or-drop :
      (n : ℕ) (xs : List A) (i : ℕ) (d : A) → get_or (drop n xs) i d ≡ get_or xs (n + i) d
  get_or-drop zero xs i d = ap (λ k. get_or xs k d) (omega arith)
  get_or-drop (suc n) [] i d = refl
  get_or-drop (suc n) (x ∷ xs) i d =
      let e : suc n + i ≡ suc (n + i) = omega arith in rw e (get_or-drop n xs i d)

  pub get_or-tabulate :
      (f : ℕ → A) (i n j : ℕ) (d : A) → j < n → get_or (tabulate f i n) j d ≡ f (i + j)
  get_or-tabulate f i zero j d h = absurd (omega arith)
  get_or-tabulate f i (suc n) zero d h = ap f (omega arith)
  get_or-tabulate f i (suc n) (suc j) d h =
      let e : i + 1 + j ≡ i + suc j = omega arith in
      rw (← e) (get_or-tabulate f (i + 1) n j d (omega arith))

  -- Two lists of one length with the same elements are one list.
  pub list_ext :
      (d : A) (xs ys : List A)
      → length xs ≡ length ys
      → ((i : ℕ) → i < length xs → get_or xs i d ≡ get_or ys i d)
      → xs ≡ ys
  list_ext d [] [] e h = refl
  list_ext d [] (y ∷ ys) e h = absurd (omega arith)
  list_ext d (x ∷ xs) [] e h = absurd (omega arith)
  list_ext d (x ∷ xs) (y ∷ ys) e h =
      ap₂ ◌∷◌ (h 0 (omega arith)) (list_ext d xs ys (omega arith) (λ i p. h (suc i) (omega arith)))

  -- The last n elements.
  abbrev pub take_last : ℕ → List A → List A
  take_last n xs = drop (length xs - n) xs

  -- The n elements from index i on.
  abbrev pub slice : ℕ → ℕ → List A → List A
  slice i n xs = take n (drop i xs)

  pub take_last-all : (n : ℕ) (xs : List A) → length xs ≤ n → take_last n xs ≡ xs
  take_last-all n xs h = let e : length xs - n ≡ 0 = omega arith in rw e

  pub drop-append_right : (xs ys : List A) (k : ℕ) → drop (length xs + k) (xs ++ ys) ≡ drop k ys
  drop-append_right [] ys k = ap (λ i. drop i ys) (omega arith)
  drop-append_right (x ∷ xs) ys k =
      let e : suc (length xs) + k ≡ suc (length xs + k) = omega arith in
      rw e (drop-append_right xs ys k)

  pub drop-append_left :
      (xs ys : List A) (k : ℕ) → k ≤ length xs → drop k (xs ++ ys) ≡ drop k xs ++ ys
  drop-append_left xs ys zero h = refl
  drop-append_left [] ys (suc k) h = absurd (omega arith)
  drop-append_left (x ∷ xs) ys (suc k) h = drop-append_left xs ys k (omega arith)

  pub drop-take : (k n : ℕ) (xs : List A) → drop k (take n xs) ≡ take (n - k) (drop k xs)
  drop-take zero n xs = ap (λ i. take i xs) (omega arith)
  drop-take (suc k) zero xs = let e : zero - suc k ≡ zero = omega arith in rw e
  drop-take (suc k) (suc n) [] = sym (take-nil (suc n - suc k))
  drop-take (suc k) (suc n) (x ∷ xs) =
      let e : suc n - suc k ≡ n - k = omega arith in rw e (drop-take k n xs)

  pub drop-drop : (k n : ℕ) (xs : List A) → drop k (drop n xs) ≡ drop (n + k) xs
  drop-drop k zero xs = ap (λ i. drop i xs) (omega arith)
  drop-drop k (suc n) [] = drop-nil k ∙ sym (drop-nil (suc n + k))
  drop-drop k (suc n) (x ∷ xs) =
      let e : suc n + k ≡ suc (n + k) = omega arith in rw e (drop-drop k n xs)

  pub take-all : (n : ℕ) (xs : List A) → length xs ≤ n → take n xs ≡ xs
  take-all zero [] h = refl
  take-all zero (x ∷ xs) h = absurd (omega arith)
  take-all (suc n) [] h = refl
  take-all (suc n) (x ∷ xs) h = ap (λ r. x ∷ r) (take-all n xs (omega arith))

  pub drop-all : (n : ℕ) (xs : List A) → length xs ≤ n → let e : List A = [] in drop n xs ≡ e
  drop-all n [] h = drop-nil n
  drop-all zero (x ∷ xs) h = absurd (omega arith)
  drop-all (suc n) (x ∷ xs) h = drop-all n xs (omega arith)

  pub drop-cons :
      (n : ℕ) (xs : List A) (d : A) → n < length xs → drop n xs ≡ get_or xs n d ∷ drop (n + 1) xs
  drop-cons n [] d h = absurd (omega arith)
  drop-cons zero (x ∷ xs) d h = refl
  drop-cons (suc n) (x ∷ xs) d h =
      let e : suc n + 1 ≡ suc (n + 1) = omega arith in rw e (drop-cons n xs d (omega arith))

  -- The last elements of a list that grows at its end depend on the last ones only.
  pub take_last-append :
      (n : ℕ) (xs ys : List A) → take_last n (take_last n xs ++ ys) ≡ take_last n (xs ++ ys)
  take_last-append n xs ys =
      ap (λ k. drop (k - n) (take_last n xs ++ ys)) (length-append (take_last n xs) ys)
      ∙ ap (λ k. drop (k + length ys - n) (take_last n xs ++ ys)) (length-drop (length xs - n) xs)
      ∙ drop_twice (length (xs ++ ys) - n) (length xs - n)
          (length xs - (length xs - n) + length ys - n) (omega (arith, length-append xs ys))
          (omega arith)
    where
      drop_twice :
          (all first second : ℕ)
          → first + second ≡ all
          → first ≤ length xs
          → drop second (drop first xs ++ ys) ≡ drop all (xs ++ ys)
      drop_twice all first second e h =
          ap (drop second) (sym (drop-append_left xs ys first h))
          ∙ drop-drop second first (xs ++ ys)
          ∙ ap (λ k. drop k (xs ++ ys)) e

  pub take-append_left : (n : ℕ) (xs ys : List A) → n ≤ length xs → take n (xs ++ ys) ≡ take n xs
  take-append_left zero xs ys h = refl
  take-append_left (suc n) [] ys h = absurd (omega arith)
  take-append_left (suc n) (x ∷ xs) ys h =
      ap (λ zs. x ∷ zs) (take-append_left n xs ys (omega arith))

  -- Two takes in a row are one.
  pub take-add : (m n : ℕ) (xs : List A) → take m xs ++ take n (drop m xs) ≡ take (m + n) xs
  take-add zero n xs = ap (λ k. take k xs) (omega arith)
  take-add (suc m) n [] = take-nil n ∙ sym (take-nil (suc m + n))
  take-add (suc m) n (x ∷ xs) =
      let e : suc (m + n) ≡ suc m + n = omega arith in
      ap (λ zs. x ∷ zs) (take-add m n xs) ∙ ap (λ k. take k (x ∷ xs)) e

  -- A shorter take of a take.
  pub take-take : (m n : ℕ) (xs : List A) → m ≤ n → take m (take n xs) ≡ take m xs
  take-take zero n xs h = refl
  take-take (suc m) zero xs h = absurd (omega arith)
  take-take (suc m) (suc n) [] h = refl
  take-take (suc m) (suc n) (x ∷ xs) h = ap (λ zs. x ∷ zs) (take-take m n xs (omega arith))

  pub take-front : (n : ℕ) (xs ys : List A) → length xs ≡ n → take n (xs ++ ys) ≡ xs
  take-front zero [] ys e = refl
  take-front zero (x ∷ xs) ys e = absurd (omega arith)
  take-front (suc n) [] ys e = absurd (omega arith)
  take-front (suc n) (x ∷ xs) ys e = ap (λ zs. x ∷ zs) (take-front n xs ys (omega arith))

  pub drop-front : (n : ℕ) (xs ys : List A) → length xs ≡ n → drop n (xs ++ ys) ≡ ys
  drop-front zero [] ys e = refl
  drop-front zero (x ∷ xs) ys e = absurd (omega arith)
  drop-front (suc n) [] ys e = absurd (omega arith)
  drop-front (suc n) (x ∷ xs) ys e = drop-front n xs ys (omega arith)

  pub take-drop : (n : ℕ) (xs : List A) → take n xs ++ drop n xs ≡ xs
  take-drop zero xs = refl
  take-drop (suc n) [] = refl
  take-drop (suc n) (x ∷ xs) = ap (λ zs. x ∷ zs) (take-drop n xs)
