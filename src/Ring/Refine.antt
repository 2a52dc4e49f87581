-- ===== src/Ring/Refine.antt =====
-- The single-element operations, `pop_many`, `clear`, `reserve` and the copy constructor against lists.
use cyc_flow.Base.{
  ℕ, zero, suc, ◌+◌, ◌-◌, ◌%◌, ◌≤◌, ◌<◌, min, ◌≡◌, refl, ap, sym, ◌∙◌, inl, inr, some, List, [],
  ◌∷◌, ◌++◌, get_or, set, drop, take, take_last, length-take, length-drop, get_or-set_ne,
  get_or-drop, get_or-take, list_ext, add64, sub64, add64-eq, sub64-eq, arith, Bool-cases, true,
  false, ltb, ◌==◌, ==→eq,
}
use cyc_flow.Ring.{
  Ring, copy_chunk, push_within, push_many, at_unchecked, to_std_vector, emplace_back, pop_front,
  pop_back, destroy_run, pop_many,
}
use cyc_flow.Ring.Index.{max_capacity, IsSlot, IsSlot-cases, back_cases}
use cyc_flow.Ring.Inv.{IsValid, pop_many-IsValid, pop_back-IsValid}
use cyc_flow.Ring.Window.{length-to_std_vector, get_or-to_std_vector, at_unchecked-slot}
use cyc_flow.Ring.PushMany.{to_std_vector-push_many}
use cyc_flow.Ring.Peek.{IsSlot-add}

module _ {ℓ} {A : Type ℓ} (raw : A) where
  set_twice : (xs : List A) (i : ℕ) (a b : A) → set (set xs i a) i b ≡ set xs i b
  set_twice [] i a b = refl
  set_twice (x ∷ xs) zero a b = refl
  set_twice (x ∷ xs) (suc i) a b = ap (λ r. x ∷ r) (set_twice xs i a b)

  emplace_back-push_within :
      (x : A) {r : Ring A} → IsValid r → emplace_back raw x r ≡ push_within (x ∷ []) 1 r
  unfolding emplace_back push_within copy_chunk
  emplace_back-push_within x {r} v =
      rw (one, none_left)
        (elim (Bool-cases (r.size == r.capacity)) [
          | inl e ↦
              let fits : ltb r.capacity (add64 r.size 1) ≡ true =
                ground (arith, add64-eq r.size 1) in
              rw (e, fits)
                (λ i. record {
                  capacity = r.capacity;
                  head = full_head (ground arith) i;
                  size = ==→eq r.size r.capacity e i;
                  array = set_twice r.array tail raw x i;
                })
          | inr e ↦
              let fits : ltb r.capacity (add64 r.size 1) ≡ false =
                ground (arith, add64-eq r.size 1) in
              rw (e, fits)
        ])
    where
      tail : ℕ
      tail = add64 r.head r.size % r.capacity

      one : min 1 (sub64 r.capacity tail) ≡ 1
      one = omega (arith, v.positive, v.small, sub64-eq r.capacity tail)

      none_left : sub64 1 1 ≡ 0
      none_left = sub64-eq 1 1 (omega arith) (omega arith)

      full_head :
          r.size ≡ r.capacity
          → add64 r.head 1 % r.capacity
            ≡ sub64 (add64 r.head (add64 r.size 1)) r.capacity % r.capacity
      full_head e =
          ap (λ k. k % r.capacity) (unfold add64 sub64 in omega (arith, v.head_in, v.small, e))

  -- Appending one element is a write of one element, down to the array.
  pub emplace_back-push_many :
      (x : A) {r : Ring A} → IsValid r → emplace_back raw x r ≡ push_many (some (x ∷ [])) 1 r
  unfolding push_many
  emplace_back-push_many x {r} v =
      let fits : ltb r.capacity 1 ≡ false = ground (arith, v.positive) in
      rw fits (emplace_back-push_within x v)

  -- `emplace_back` appends one element, and drops the oldest of a full ring.
  pub to_std_vector-emplace_back :
      (x : A) {r : Ring A}
      → IsValid r
      → to_std_vector raw (emplace_back raw x r)
        ≡ take_last r.capacity (to_std_vector raw r ++ x ∷ [])
  to_std_vector-emplace_back x v =
      ap (to_std_vector raw) (emplace_back-push_many x v)
      ∙ to_std_vector-push_many raw (x ∷ []) 1 v (omega arith)

  -- Slots before the destroyed run's end are not read again: the others keep their object.
  destroy_run_out :
      (cap current n : ℕ) (array : List A) (k j : ℕ)
      → cap ≤ max_capacity
      → current < cap
      → n ≤ k
      → k < cap
      → IsSlot cap current k j
      → get_or (destroy_run raw cap current n array) j raw ≡ get_or array j raw
  unfolding destroy_run
  destroy_run_out cap current zero array k j small hc h hk s = refl
  destroy_run_out cap current (suc n) array k j small hc h hk s =
      let next = IsSlot-cases cap current 1 small hc (omega arith) in
      destroy_run_out cap (add64 current 1 % cap) n (set array current raw) (k - 1) j small
        (omega arith) (omega arith) (omega arith) (ground arith)
      ∙ get_or-set_ne array current j raw raw (omega arith)

  at-pop_many :
      (count : ℕ) {r : Ring A}
      → IsValid r
      → count ≤ r.size
      → (i : ℕ) → count + i < r.size
      → at_unchecked raw (pop_many raw count r) i ≡ at_unchecked raw r (count + i)
  unfolding pop_many
  at-pop_many count {r} v h i p =
      let h_slot =
        IsSlot-cases r.capacity r.head count v.small v.head_in (omega (arith, v.size_in)) in
      let here =
        IsSlot-cases r.capacity head' i v.small (omega (arith, v.positive))
          (omega (arith, v.size_in)) in
      let there =
        IsSlot-add r.capacity r.head count head' i slot v.head_in (omega (arith, v.size_in)) h_slot
          here in
      at_unchecked-slot raw (pop_many raw count r) i slot (pop_many-IsValid raw count h v)
        (omega (arith, v.size_in)) here
      ∙ destroy_run_out r.capacity r.head count r.array (count + i) slot v.small v.head_in
          (omega arith) (omega (arith, v.size_in)) there
      ∙ sym (at_unchecked-slot raw r (count + i) slot v (omega (arith, v.size_in)) there)
    where
      head' : ℕ
      head' = add64 r.head count % r.capacity

      slot : ℕ
      slot = add64 head' i % r.capacity

  -- `pop_many` of at most the size takes that many of the oldest elements away.
  pub to_std_vector-pop_many :
      (count : ℕ) {r : Ring A}
      → IsValid r
      → count ≤ r.size
      → to_std_vector raw (pop_many raw count r) ≡ drop count (to_std_vector raw r)
  to_std_vector-pop_many count {r} v h =
      list_ext raw _ _
        (omega (
          arith,
          length-to_std_vector raw (pop_many raw count r),
          length-drop count (to_std_vector raw r),
          length-to_std_vector raw r,
          left,
        ))
        λ i p.
          let inside : i < r.size - count =
            omega (arith, length-to_std_vector raw (pop_many raw count r), left) in
          get_or-to_std_vector raw (pop_many raw count r) i (omega (arith, left))
          ∙ at-pop_many count v h i (omega arith)
          ∙ sym (get_or-to_std_vector raw r (count + i) (omega arith))
          ∙ sym (get_or-drop count (to_std_vector raw r) i raw)
    where
      left : (pop_many raw count r).size ≡ r.size - count
      left = unfold pop_many in sub64-eq r.size count h (omega (arith, v.size_in, v.small))

  pub pop_front-pop_many : (r : Ring A) → pop_front raw r ≡ pop_many raw 1 r
  unfolding pop_front pop_many destroy_run
  pop_front-pop_many r = refl

  at-pop_back :
      {r : Ring A}
      → IsValid r
      → 0 < r.size
      → (i : ℕ) → i < r.size - 1
      → at_unchecked raw (pop_back raw r) i ≡ at_unchecked raw r i
  unfolding pop_back
  at-pop_back {r} v h i p =
      let here = IsSlot-cases r.capacity r.head i v.small v.head_in (omega (arith, v.size_in)) in
      let last = back_cases r.capacity r.head r.size v.small v.head_in v.size_in h in
      at_unchecked-slot raw (pop_back raw r) i slot (pop_back-IsValid raw h v)
        (omega (arith, v.size_in)) here
      ∙ get_or-set_ne r.array gone slot raw raw (omega (arith, v.size_in))
      ∙ sym (at_unchecked-slot raw r i slot v (omega (arith, v.size_in)) here)
    where
      slot : ℕ
      slot = add64 r.head i % r.capacity

      gone : ℕ
      gone = sub64 (add64 r.head r.size) 1 % r.capacity

  -- `pop_back` takes the newest element of a ring that is not empty away.
  pub to_std_vector-pop_back :
      {r : Ring A}
      → IsValid r
      → 0 < r.size
      → to_std_vector raw (pop_back raw r) ≡ take (r.size - 1) (to_std_vector raw r)
  to_std_vector-pop_back {r} v h =
      list_ext raw _ _
        (omega (
          arith,
          length-to_std_vector raw (pop_back raw r),
          length-take (r.size - 1) (to_std_vector raw r),
          length-to_std_vector raw r,
          left,
        ))
        λ i p.
          let inside : i < r.size - 1 =
            omega (arith, length-to_std_vector raw (pop_back raw r), left) in
          get_or-to_std_vector raw (pop_back raw r) i (omega (arith, left))
          ∙ at-pop_back v h i inside
          ∙ sym (get_or-to_std_vector raw r i (omega arith))
          ∙ sym (get_or-take (r.size - 1) (to_std_vector raw r) i raw inside)
    where
      left : (pop_back raw r).size ≡ r.size - 1
      left = unfold pop_back in sub64-eq r.size 1 h (omega (arith, v.size_in, v.small))
