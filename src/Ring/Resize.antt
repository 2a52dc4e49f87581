-- ===== src/Ring/Resize.antt =====
-- `reserve` and the copy constructor: the elements and their order stay.
use cyc_flow.Base.{
  ℕ, zero, suc, ◌+◌, ◌-◌, ◌≤◌, ◌<◌, min, max, ◌≡◌, refl, ap, sym, ◌∙◌, inl, inr, some, false, List,
  [], ◌∷◌, ◌++◌, length, get_or, drop, take, take_last, length-append, length-take, length-drop,
  get_or-drop, get_or-take, get_or-append_left, get_or-append_right, list_ext, append-nil,
  append_assoc, take_last-all, drop-all, drop-cons, ==→eq, add64, sub64, add64-eq, sub64-eq, arith,
  Bool-cases, ltb, leb, ◌==◌, dec_lt,
}
use cyc_flow.Ring.{
  Ring, push_many, at_unchecked, to_std_vector, emplace_back, clear, reserve, init, assign_into,
  copy, read_from,
}
use cyc_flow.Ring.Index.{max_capacity}
use cyc_flow.Ring.Inv.{
  IsValid, init-IsValid, push_many-IsValid, emplace_back-IsValid, capacity-push_many,
}
use cyc_flow.Ring.Window.{length-to_std_vector, get_or-to_std_vector, at_unchecked-slot}
use cyc_flow.Ring.PushMany.{to_std_vector-push_many}
use cyc_flow.Ring.Refine.{to_std_vector-emplace_back}

module _ {ℓ} {A : Type ℓ} (raw : A) where
  pub to_std_vector-init : (capacity : ℕ) → to_std_vector raw (init raw capacity) ≡ []
  unfolding to_std_vector read_from init
  to_std_vector-init capacity = refl

  -- The contents are two runs of the array: from the head to its end, and from its start.
  module _ {r : Ring A} (v : IsValid r) where
    abbrev first_run : ℕ
    first_run = min r.size (r.capacity - r.head)

    runs :
        to_std_vector raw r
        ≡ take first_run (drop r.head r.array) ++ take (r.size - first_run) r.array
    runs = list_ext raw _ _ (omega (arith, length-to_std_vector raw r, lengths)) λ i p.
        get_or-to_std_vector raw r i (omega (arith, length-to_std_vector raw r))
        ∙ element i (omega (arith, length-to_std_vector raw r))
      where
        left : List A
        left = take first_run (drop r.head r.array)

        right : List A
        right = take (r.size - first_run) r.array

        length-left : length left ≡ first_run
        length-left = omega (
          arith,
          length-take first_run (drop r.head r.array),
          length-drop r.head r.array,
          v.storage,
        )

        lengths : length (left ++ right) ≡ r.size
        lengths = omega (
          arith,
          length-append left right,
          length-left,
          length-take (r.size - first_run) r.array,
          v.storage,
          v.size_in,
        )

        element : (i : ℕ) → i < r.size → at_unchecked raw r i ≡ get_or (left ++ right) i raw
        element i p = elim (dec_lt i first_run) [
          | yes q ↦
              at_unchecked-slot raw r i (r.head + i) v (omega (arith, v.size_in))
                (inl (omega arith, omega arith))
              ∙ sym (get_or-drop r.head r.array i raw)
              ∙ sym (get_or-take first_run (drop r.head r.array) i raw q)
              ∙ sym (get_or-append_left left right i raw (omega (arith, length-left)))
          | no q ↦
              at_unchecked-slot raw r i (i - first_run) v (omega (arith, v.size_in))
                (inr (omega (arith, v.head_in), omega (arith, v.head_in)))
              ∙ sym (get_or-take (r.size - first_run) r.array (i - first_run) raw (omega arith))
              ∙ sym (get_or-append_right left right (i - first_run) raw)
              ∙ ap (λ k. get_or (left ++ right) k raw) (omega (arith, length-left))
        ]

  -- `reserve` of at most 2^63 - 1 slots keeps every element in order, and makes the capacity the
  -- larger of the new and the old.
  pub reserve_lem :
      (new_capacity : ℕ) {r : Ring A}
      → IsValid r
      → new_capacity ≤ max_capacity
      → (to_std_vector raw (reserve raw new_capacity r) ≡ to_std_vector raw r)
        × ((reserve raw new_capacity r).capacity ≡ max new_capacity r.capacity)
  unfolding reserve
  reserve_lem new_capacity {r} v h = elim (Bool-cases (leb new_capacity r.capacity)) [
    | inl small ↦ rw small (refl, ground arith)
    | inr large ↦
        rw (large, first_eq, second_eq)
          (elim (Bool-cases (ltb 0 (r.size - first))) [
            | inl two ↦ rw two (
              both (ground arith) ∙ sym (runs v),
              capacity-push_many (some r.array) (r.size - first) tmp
                  ∙ capacity-push_many (some (drop r.head r.array)) first (init raw new_capacity)
                  ∙ unfold init in ground arith,
            )
            | inr one ↦ rw one (
              once (ground arith)
                  ∙ sym (append-nil left)
                  ∙ ap (λ k. left ++ take k r.array) (ltb_none one)
                  ∙ sym (runs v),
              capacity-push_many (some (drop r.head r.array)) first (init raw new_capacity)
                  ∙ unfold init in ground arith,
            )
          ])
  ]
    where
      first : ℕ
      first = min r.size (r.capacity - r.head)

      first_eq : sub64 r.capacity r.head ≡ r.capacity - r.head
      first_eq = sub64-eq r.capacity r.head (omega (arith, v.head_in)) (omega (arith, v.small))

      second_eq : sub64 r.size first ≡ r.size - first
      second_eq = sub64-eq r.size first (omega arith) (omega (arith, v.small, v.size_in))

      ltb_none : ltb 0 (r.size - first) ≡ false → 0 ≡ r.size - first
      ltb_none e = ground arith

      left : List A
      left = take first (drop r.head r.array)

      tmp : Ring A
      tmp = push_many (some (drop r.head r.array)) first (init raw new_capacity)

      length-left : length left ≡ first
      length-left = omega (
        arith,
        length-take first (drop r.head r.array),
        length-drop r.head r.array,
        v.storage,
        v.head_in,
      )

      fresh : r.capacity < new_capacity → IsValid (init raw new_capacity)
      fresh p = init-IsValid raw new_capacity (omega arith) h

      once : r.capacity < new_capacity → to_std_vector raw tmp ≡ left
      once p =
          to_std_vector-push_many raw (drop r.head r.array) first (fresh p)
            (omega (arith, length-drop r.head r.array, v.storage))
          ∙ ap (λ xs. take_last (init raw new_capacity).capacity (xs ++ left))
              (to_std_vector-init new_capacity)
          ∙ take_last-all (init raw new_capacity).capacity left
              (unfold init in omega (arith, length-left, v.size_in))

      both :
          r.capacity < new_capacity
          → to_std_vector raw (push_many (some r.array) (r.size - first) tmp)
            ≡ left ++ take (r.size - first) r.array
      both p =
          to_std_vector-push_many raw r.array (r.size - first)
            (push_many-IsValid (some (drop r.head r.array)) first (fresh p))
            (omega (arith, v.storage, v.size_in))
          ∙ ap (λ xs. take_last tmp.capacity (xs ++ take (r.size - first) r.array)) (once p)
          ∙ take_last-all tmp.capacity (left ++ take (r.size - first) r.array) (
              rw (capacity-push_many (some (drop r.head r.array)) first (init raw new_capacity)) (
                unfold init in
                omega (
                  arith,
                  length-append left (take (r.size - first) r.array),
                  length-left,
                  length-take (r.size - first) r.array,
                  v.size_in,
                )))

  capacity-emplace_back : (x : A) (r : Ring A) → (emplace_back raw x r).capacity ≡ r.capacity
  unfolding emplace_back
  capacity-emplace_back x r = ground arith

  size-emplace_back :
      (x : A) {r : Ring A}
      → IsValid r
      → r.size < r.capacity
      → (emplace_back raw x r).size ≡ r.size + 1
  unfolding emplace_back
  size-emplace_back x {r} v h = ground (arith, add64-eq r.size 1)

  -- The loop of the copy appends the elements that are left.
  assign_into_lem :
      (fuel : ℕ) (other : Ring A) (from : ℕ) {r : Ring A}
      → IsValid other
      → IsValid r
      → from ≤ other.size
      → other.size < fuel + from
      → r.size + (other.size - from) ≤ r.capacity
      → to_std_vector raw (assign_into raw fuel other from other.size r)
        ≡ to_std_vector raw r ++ drop from (to_std_vector raw other)
  unfolding assign_into
  assign_into_lem zero other from vo v h f room = absurd (omega arith)
  assign_into_lem (suc fuel) other from {r} vo v h f room = elim (Bool-cases (from == other.size)) [
    | inl done ↦ rw done (
        sym (
          ap (λ xs. to_std_vector raw r ++ xs)
            (drop-all from held
              (omega (arith, ==→eq from other.size done, length-to_std_vector raw other)))
          ∙ append-nil (to_std_vector raw r)))
    | inr more ↦
        rw (more, next)
          (assign_into_lem fuel other (from + 1) vo (emplace_back-IsValid raw x v) (ground arith)
              (omega arith)
              (ground (arith, grows (ground arith), vo.size_in, capacity-emplace_back x r))
            ∙ ap (λ xs. xs ++ drop (from + 1) held) (appended (ground arith))
            ∙ append_assoc (to_std_vector raw r) (x ∷ []) (drop (from + 1) held)
            ∙ ap (λ y. to_std_vector raw r ++ (y ∷ drop (from + 1) held))
                (sym (get_or-to_std_vector raw other from (ground arith)))
            ∙ ap (λ xs. to_std_vector raw r ++ xs)
                (sym (drop-cons from held raw (ground (arith, length-to_std_vector raw other)))))
  ]
    where
      held : List A
      held = to_std_vector raw other

      x : A
      x = at_unchecked raw other from

      next : add64 from 1 ≡ from + 1
      next = add64-eq from 1 (omega (arith, vo.size_in, vo.small))

      grows : from < other.size → (emplace_back raw x r).size ≡ r.size + 1
      grows p = size-emplace_back x v (omega arith)

      appended :
          from < other.size
          → to_std_vector raw (emplace_back raw x r) ≡ to_std_vector raw r ++ x ∷ []
      appended p =
          to_std_vector-emplace_back raw x v
          ∙ take_last-all r.capacity (to_std_vector raw r ++ x ∷ []) (
              omega
                (arith, length-append (to_std_vector raw r) (x ∷ []), length-to_std_vector raw r))

  -- A copy holds the same elements in the same order, whatever slot they started at.
  pub to_std_vector-copy :
      {other : Ring A}
      → IsValid other
      → to_std_vector raw (copy raw other) ≡ to_std_vector raw other
  unfolding copy
  to_std_vector-copy {other} v =
      assign_into_lem (other.size + 1) other 0 v
        (init-IsValid raw other.capacity v.positive v.small) (omega arith) (omega arith)
        (unfold init in omega (arith, v.size_in))
      ∙ ap (λ xs. xs ++ to_std_vector raw other) (to_std_vector-init other.capacity)

  pub to_std_vector-clear : (r : Ring A) → to_std_vector raw (clear raw r) ≡ []
  unfolding to_std_vector clear
  to_std_vector-clear r = elim (Bool-cases (r.size == 0)) [
    | inl none_held ↦ rw (none_held, ==→eq r.size 0 none_held) (unfold read_from in refl)
    | inr some_held ↦ rw some_held (unfold read_from in refl)
  ]
