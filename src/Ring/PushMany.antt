-- ===== src/Ring/PushMany.antt =====
-- `push_many` against lists: the last `capacity` elements of what was held and what was written.
use cyc_flow.Base.{
  ℕ, ◌+◌, ◌-◌, ◌≤◌, ◌<◌, min, ◌≡◌, ap, sym, ◌∙◌, inl, inr, some, List, ◌++◌, length, drop, take,
  take_last, length-append, length-take, length-drop, drop-take, drop-append_right, take_last-all,
  append-nil, ◌==◌, arith, Bool-cases, ltb, ltb→lt, ltb_false→le,
}
use cyc_flow.Ring.{Ring, push_many, to_std_vector}
use cyc_flow.Ring.Index.{IsSlot}
use cyc_flow.Ring.Inv.{IsValid}
use cyc_flow.Ring.Window.{length-to_std_vector}
use cyc_flow.Ring.Push.{push_within_lem, head-push_within}

module _ {ℓ} {A : Type ℓ} (raw : A) where
  -- A long write keeps its last `capacity` elements, and so does the list.
  trim_source :
      (held source : List A) (cap count : ℕ)
      → cap < count
      → count ≤ length source
      → take_last cap (held ++ take cap (drop (count - cap) source))
        ≡ take_last cap (held ++ take count source)
  trim_source held source cap count h given =
      ap (λ k. drop k (held ++ take cap (drop (count - cap) source))) (omega (arith, left))
      ∙ drop-append_right held (take cap (drop (count - cap) source)) 0
      ∙ ap (λ k. take k (drop (count - cap) source)) (omega arith)
      ∙ sym (drop-take (count - cap) count source)
      ∙ sym (drop-append_right held (take count source) (count - cap))
      ∙ ap (λ k. drop k (held ++ take count source)) (omega (arith, right))
    where
      left : length (held ++ take cap (drop (count - cap) source)) ≡ length held + cap
      left = omega (
        arith,
        length-append held (take cap (drop (count - cap) source)),
        length-take cap (drop (count - cap) source),
        length-drop (count - cap) source,
      )

      right : length (held ++ take count source) ≡ length held + count
      right = omega (arith, length-append held (take count source), length-take count source)

  -- What a ring holds after `push_many` from a source of at least `count` elements: the last
  -- `capacity` elements of what it held followed by the `count` elements written, whatever the
  -- count, 0 and more than the capacity included.
  pub to_std_vector-push_many :
      (source : List A) (count : ℕ) {r : Ring A}
      → IsValid r
      → count ≤ length source
      → to_std_vector raw (push_many (some source) count r)
        ≡ take_last r.capacity (to_std_vector raw r ++ take count source)
  unfolding push_many
  to_std_vector-push_many source count {r} v given = elim (Bool-cases (count == 0)) [
    | inl zero_count ↦ rw zero_count (sym (nothing (ground arith)))
    | inr more ↦ rw more (elim (Bool-cases (ltb r.capacity count)) [
      | inl long ↦ rw long (
          push_within_lem raw (drop (count - r.capacity) source) r.capacity v (omega arith)
            (omega (arith, length-drop (count - r.capacity) source, ltb→lt r.capacity count long))
          ∙ trim_source (to_std_vector raw r) source r.capacity count (ltb→lt r.capacity count long)
              given)
      | inr short ↦
          rw short (push_within_lem raw source count v (ltb_false→le r.capacity count short) given)
    ])
  ]
    where
      nothing :
          count ≡ 0
          → take_last r.capacity (to_std_vector raw r ++ take count source) ≡ to_std_vector raw r
      nothing e =
          ap (λ k. take_last r.capacity (to_std_vector raw r ++ take k source)) e
          ∙ ap (take_last r.capacity) (append-nil (to_std_vector raw r))
          ∙ take_last-all r.capacity (to_std_vector raw r)
              (omega (arith, length-to_std_vector raw r, v.size_in))

  -- The new size, and the new head: as many slots on as elements were overwritten.
  pub size-push_many :
      (source : List A) (count : ℕ) {r : Ring A}
      → IsValid r
      → count ≤ length source
      → (push_many (some source) count r).size ≡ min r.capacity (r.size + count)
  size-push_many source count {r} v given = omega (
    arith,
    ap length (to_std_vector-push_many source count v given),
    length-to_std_vector raw (push_many (some source) count r),
    length-drop (length (to_std_vector raw r ++ take count source) - r.capacity)
        (to_std_vector raw r ++ take count source),
    length-append (to_std_vector raw r) (take count source),
    length-take count source,
    length-to_std_vector raw r,
  )

  pub head-push_many :
      (source : List A) (count : ℕ) {r : Ring A}
      → IsValid r
      → IsSlot r.capacity r.head
          (r.size + min count r.capacity - r.capacity)
          (push_many (some source) count r).head
  unfolding push_many
  head-push_many source count {r} v = elim (Bool-cases (count == 0)) [
    | inl zero_count ↦
        rw zero_count (inl (ground (arith, v.head_in, v.size_in), ground (arith, v.size_in)))
    | inr more ↦ rw more (elim (Bool-cases (ltb r.capacity count)) [
      | inl long ↦
          rw (long, min_long (ltb→lt r.capacity count long))
            (head-push_within raw (drop (count - r.capacity) source) r.capacity r v (omega arith))
      | inr short ↦
          rw (short, min_short (ltb_false→le r.capacity count short))
            (head-push_within raw source count r v (ltb_false→le r.capacity count short))
    ])
  ]
    where
      min_long : r.capacity < count → min count r.capacity ≡ r.capacity
      min_long h = omega arith

      min_short : count ≤ r.capacity → min count r.capacity ≡ count
      min_short h = omega arith
