-- ===== src/Ring/Inv.antt =====
-- The invariant of a ring, and that every operation keeps it.
use cyc_flow.Base.{
  ℕ, zero, suc, ◌+◌, ◌-◌, ◌%◌, ◌≤◌, ◌<◌, min, ◌≡◌, refl, ◌∙◌, inl, inr, Bool-cases, ltb, leb,
  Option, none, some, List, [], ◌∷◌, length, length-set, length-replicate, drop, set, add64, sub64,
  add64-eq, sub64-eq, arith,
}
use cyc_flow.Ring.{
  Ring, copy_chunk, push_within, push_many, init, emplace_back, pop_front, pop_back, destroy_run,
  pop_many, destroy_all, clear, reserve, assign_into, copy, at_unchecked,
}
use cyc_flow.Ring.Index.{max_capacity, mod_lt}

pub record IsValid {ℓ} {A : Type ℓ} (r : Ring A) : Type 0 where
  pub positive : 0 < r.capacity
  pub small : r.capacity ≤ max_capacity
  pub head_in : r.head < r.capacity
  pub size_in : r.size ≤ r.capacity
  pub storage : length r.array ≡ r.capacity

module _ {ℓ} {A : Type ℓ} where
  pub length-copy_chunk :
      (source : List A) (dst n : ℕ) (array : List A)
      → length (copy_chunk source dst n array) ≡ length array
  unfolding copy_chunk
  length-copy_chunk source dst zero array = refl
  length-copy_chunk [] dst (suc n) array = refl
  length-copy_chunk (x ∷ source) dst (suc n) array =
      length-copy_chunk source (dst + 1) n (set array dst x) ∙ length-set array dst x

  pub capacity-push_within :
      (source : List A) (count : ℕ) (r : Ring A)
      → (push_within source count r).capacity ≡ r.capacity
  unfolding push_within
  capacity-push_within source count r = ground arith

  pub length-push_within :
      (source : List A) (count : ℕ) (r : Ring A)
      → length (push_within source count r).array ≡ length r.array
  unfolding push_within
  length-push_within source count r = ground (
    arith,
    length-copy_chunk source (add64 r.head r.size % r.capacity)
        (min count (sub64 r.capacity (add64 r.head r.size % r.capacity))) r.array,
    length-copy_chunk
        (drop (min count (sub64 r.capacity (add64 r.head r.size % r.capacity))) source) 0
        (sub64 count (min count (sub64 r.capacity (add64 r.head r.size % r.capacity))))
        (copy_chunk source (add64 r.head r.size % r.capacity)
          (min count (sub64 r.capacity (add64 r.head r.size % r.capacity))) r.array),
  )

  pub push_within-IsValid :
      (source : List A) (count : ℕ) {r : Ring A}
      → count ≤ r.capacity
      → IsValid r
      → IsValid (push_within source count r)
  push_within-IsValid source count {r} h v = record {
    positive = rw (capacity-push_within source count r) v.positive;
    small = rw (capacity-push_within source count r) v.small;
    head_in =
        unfold push_within in
        ground (
          arith,
          mod_lt (sub64 (add64 r.head (add64 r.size count)) r.capacity) r.capacity v.positive,
        );
    size_in = unfold push_within in ground (arith, add64-eq r.size count);
    storage = rw (capacity-push_within source count r, length-push_within source count r) v.storage;
  }

  -- Every write of `count` objects keeps the invariant, the null pointer and an empty write included.
  pub push_many-IsValid :
      (source : Option (List A)) (count : ℕ) {r : Ring A}
      → IsValid r
      → IsValid (push_many source count r)
  unfolding push_many
  push_many-IsValid none count v = v
  push_many-IsValid (some source) count {r} v = ground (
    arith,
    push_within-IsValid source count {r = r},
    push_within-IsValid (drop (count - r.capacity) source) r.capacity {r = r},
  )

  pub capacity-push_many :
      (source : Option (List A)) (count : ℕ) (r : Ring A)
      → (push_many source count r).capacity ≡ r.capacity
  unfolding push_many
  capacity-push_many none count r = refl
  capacity-push_many (some source) count r = ground (
    arith,
    capacity-push_within source count r,
    capacity-push_within (drop (count - r.capacity) source) r.capacity r,
  )

module _ {ℓ} {A : Type ℓ} (raw : A) where
  pub init-IsValid :
      (capacity : ℕ) → 0 < capacity → capacity ≤ max_capacity → IsValid (init raw capacity)
  unfolding init
  init-IsValid capacity h k = record {
    positive = h;
    small = k;
    head_in = h;
    size_in = omega arith;
    storage = length-replicate capacity raw;
  }

  pub emplace_back-IsValid : (x : A) {r : Ring A} → IsValid r → IsValid (emplace_back raw x r)
  unfolding emplace_back
  emplace_back-IsValid x {r} v = ground (
    arith,
    mod_lt (add64 r.head 1) r.capacity v.positive,
    add64-eq r.size 1,
    length-set r.array (add64 r.head r.size % r.capacity) x,
    length-set r.array (add64 r.head r.size % r.capacity) raw,
    length-set (set r.array (add64 r.head r.size % r.capacity) raw)
        (add64 r.head r.size % r.capacity) x,
  )

  pub pop_front-IsValid : {r : Ring A} → 0 < r.size → IsValid r → IsValid (pop_front raw r)
  unfolding pop_front
  pop_front-IsValid {r} h v = ground (
    arith,
    mod_lt (add64 r.head 1) r.capacity v.positive,
    sub64-eq r.size 1,
    length-set r.array r.head raw,
  )

  pub pop_back-IsValid : {r : Ring A} → 0 < r.size → IsValid r → IsValid (pop_back raw r)
  unfolding pop_back
  pop_back-IsValid {r} h v = ground (
    arith,
    sub64-eq r.size 1,
    length-set r.array (sub64 (add64 r.head r.size) 1 % r.capacity) raw,
  )

  length-destroy_run :
      (capacity current n : ℕ) (array : List A)
      → length (destroy_run raw capacity current n array) ≡ length array
  unfolding destroy_run
  length-destroy_run capacity current zero array = refl
  length-destroy_run capacity current (suc n) array =
      length-destroy_run capacity (add64 current 1 % capacity) n (set array current raw)
      ∙ length-set array current raw

  length-destroy_all :
      (capacity head n rounds : ℕ) (array : List A)
      → length (destroy_all raw capacity head n rounds array) ≡ length array
  unfolding destroy_all
  length-destroy_all capacity head n zero array = refl
  length-destroy_all capacity head n (suc rounds) array =
      length-destroy_all capacity head (n + 1) rounds (set array (add64 head n % capacity) raw)
      ∙ length-set array (add64 head n % capacity) raw

  pub pop_many-IsValid :
      (count : ℕ) {r : Ring A} → count ≤ r.size → IsValid r → IsValid (pop_many raw count r)
  unfolding pop_many
  pop_many-IsValid count {r} h v = ground (
    arith,
    mod_lt (add64 r.head count) r.capacity v.positive,
    sub64-eq r.size count,
    length-destroy_run r.capacity r.head count r.array,
  )

  pub clear-IsValid : {r : Ring A} → IsValid r → IsValid (clear raw r)
  unfolding clear
  clear-IsValid {r} v = ground (arith, length-destroy_all r.capacity r.head 0 r.size r.array)

  pub reserve-IsValid :
      (new_capacity : ℕ) {r : Ring A}
      → new_capacity ≤ max_capacity
      → IsValid r
      → IsValid (reserve raw new_capacity r)
  unfolding reserve
  reserve-IsValid new_capacity {r} h v = elim (Bool-cases (leb new_capacity r.capacity)) [
    | inl small ↦ rw small v
    | inr large ↦
        let fresh = init-IsValid new_capacity (ground arith) h in
        let once = push_many-IsValid (some (drop r.head r.array)) chunk1 fresh in
        rw large (elim (Bool-cases (ltb 0 (sub64 r.size chunk1))) [
          | inl two ↦ rw two (push_many-IsValid (some r.array) (sub64 r.size chunk1) once)
          | inr one ↦ rw one once
        ])
  ]
    where
      chunk1 : ℕ
      chunk1 = min r.size (sub64 r.capacity r.head)

  pub assign_into-IsValid :
      (fuel : ℕ) (other : Ring A) (from to : ℕ) {r : Ring A}
      → IsValid r
      → IsValid (assign_into raw fuel other from to r)
  unfolding assign_into
  assign_into-IsValid zero other from to v = v
  assign_into-IsValid (suc fuel) other from to {r} v = ground (
    arith,
    assign_into-IsValid fuel other (add64 from 1) to
        (emplace_back-IsValid (at_unchecked raw other from) v),
  )

  pub copy-IsValid : {other : Ring A} → IsValid other → IsValid (copy raw other)
  unfolding copy
  copy-IsValid {other} v =
      assign_into-IsValid (other.size + 1) other 0 other.size
        (init-IsValid other.capacity v.positive v.small)
