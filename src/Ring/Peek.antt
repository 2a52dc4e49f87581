-- ===== src/Ring/Peek.antt =====
-- The contents of a ring as two runs of its array, and the reads that copy them out.
use cyc_flow.Base.{
  ℕ, ◌+◌, ◌-◌, ◌%◌, ◌≤◌, ◌<◌, min, ◌≡◌, ap, sym, ◌∙◌, inl, inr, some, List, ◌++◌, length, get_or,
  drop, slice, length-append, length-take, length-drop, get_or-drop, get_or-take,
  get_or-append_left, get_or-append_right, list_ext, add64, sub64, sub64-eq, arith, Bool-cases, ltb,
  ◌==◌, dec_lt,
}
use cyc_flow.Ring.{Ring, copy_chunk, peek_many_at, to_std_vector}
use cyc_flow.Ring.Index.{IsSlot, IsSlot-cases}
use cyc_flow.Ring.Inv.{IsValid, length-copy_chunk}
use cyc_flow.Ring.Window.{
  length-to_std_vector, get_or-to_std_vector, at_unchecked-slot, copy_chunk_at, copy_chunk_out,
}

-- Going on from a slot reaches the slot of the sum.
pub IsSlot-add :
    (cap h i s k j : ℕ)
    → h < cap
    → i + k < cap
    → IsSlot cap h i s
    → IsSlot cap s k j
    → IsSlot cap h (i + k) j
IsSlot-add cap h i s k j hh hk si sj = ground arith

module _ {ℓ} {A : Type ℓ} (raw : A) where
  -- The run of `count` elements from `start` on, going round at `cap`, copied to the front of `dest`.
  module _ (array dest : List A) (cap start count chunk1 : ℕ) (len : length array ≡ cap)
      (hs : start < cap) (fits : count ≤ cap) (room : count ≤ length dest)
      (c : chunk1 ≡ min count (cap - start)) where
    abbrev pub copied : List A
    copied = copy_chunk array chunk1 (count - chunk1) (copy_chunk (drop start array) 0 chunk1 dest)

    long : chunk1 ≤ length (drop start array)
    long = omega (arith, length-drop start array)

    pub copied_new :
        (k j : ℕ) → k < count → IsSlot cap start k j → get_or copied k raw ≡ get_or array j raw
    copied_new k j h (inl (p, e)) =
        copy_chunk_out raw array chunk1 (count - chunk1)
          (copy_chunk (drop start array) 0 chunk1 dest) k (omega arith)
        ∙ copy_chunk_at raw (drop start array) 0 chunk1 dest k k (omega arith) (omega arith) long
            (omega arith)
        ∙ get_or-drop start array k raw
        ∙ ap (λ i. get_or array i raw) (sym e)
    copied_new k j h (inr (p, e)) =
        copy_chunk_at raw array chunk1 (count - chunk1)
          (copy_chunk (drop start array) 0 chunk1 dest) k j (omega arith) (omega arith)
          (omega arith) (omega (arith, length-copy_chunk (drop start array) 0 chunk1 dest))

    pub copied_old : (k : ℕ) → count ≤ k → get_or copied k raw ≡ get_or dest k raw
    copied_old k h =
        copy_chunk_out raw array chunk1 (count - chunk1)
          (copy_chunk (drop start array) 0 chunk1 dest) k (inr (omega arith))
        ∙ copy_chunk_out raw (drop start array) 0 chunk1 dest k (inr (omega arith))

    pub length-copied : length copied ≡ length dest
    length-copied =
        length-copy_chunk array chunk1 (count - chunk1)
          (copy_chunk (drop start array) 0 chunk1 dest)
        ∙ length-copy_chunk (drop start array) 0 chunk1 dest

  copy_chunk_zero :
      (source : List A) (dst n : ℕ) (array : List A) → n ≡ 0 → copy_chunk source dst n array ≡ array
  unfolding copy_chunk
  copy_chunk_zero source dst n array e = rw e

  module _ (index : ℕ) (dest : List A) (count : ℕ) {r : Ring A} (v : IsValid r)
      (h : index + count ≤ r.size) (room : count ≤ length dest) where
    abbrev start_of : ℕ
    start_of = add64 r.head index % r.capacity

    abbrev first_of : ℕ
    first_of = min count (sub64 r.capacity start_of)

    start-IsSlot : IsSlot r.capacity r.head index start_of
    start-IsSlot = IsSlot-cases r.capacity r.head index v.small v.head_in (omega (arith, v.size_in))

    start_lt : start_of < r.capacity
    start_lt = omega (arith, v.positive)

    first_eq : first_of ≡ min count (r.capacity - start_of)
    first_eq = omega (arith, start_lt, v.small, sub64-eq r.capacity start_of)

    abbrev left_of : List A
    left_of =
        copied r.array dest r.capacity start_of count first_of v.storage start_lt
          (omega (arith, v.size_in)) room first_eq

    peek_many_at-copied : peek_many_at index (some dest) count r ≡ some left_of
    unfolding peek_many_at
    peek_many_at-copied = elim (Bool-cases (count == 0)) [
      | inl z ↦ rw z (
          ap some (
            sym (
              copy_chunk_zero r.array first_of (count - first_of) front (ground arith)
              ∙ copy_chunk_zero (drop start_of r.array) 0 first_of dest (ground arith))))
      | inr m ↦ rw m (elim (Bool-cases (ltb first_of count)) [
        | inl two ↦ rw (two, rest)
        | inr one ↦ rw one (
            ap some
              (sym (copy_chunk_zero r.array first_of (count - first_of) front (ground arith))))
      ])
    ]
      where
        front : List A
        front = copy_chunk (drop start_of r.array) 0 first_of dest

        rest : sub64 count first_of ≡ count - first_of
        rest = sub64-eq count first_of (omega arith) (omega (arith, v.small, v.size_in))

    copied-slice : left_of ≡ slice index count (to_std_vector raw r) ++ drop count dest
    copied-slice = list_ext raw _ _ same_length same_elements
      where
        read : List A
        read = slice index count (to_std_vector raw r)

        length-read : length read ≡ count
        length-read = omega (
          arith,
          length-take count (drop index (to_std_vector raw r)),
          length-drop index (to_std_vector raw r),
          length-to_std_vector raw r,
        )

        same_length : length left_of ≡ length (read ++ drop count dest)
        same_length = omega (
          arith,
          length-append read (drop count dest),
          length-read,
          length-drop count dest,
          length-copied r.array dest r.capacity start_of count first_of v.storage start_lt
              (omega (arith, v.size_in)) room first_eq,
        )

        inside : (i : ℕ) → i < count → get_or left_of i raw ≡ get_or (read ++ drop count dest) i raw
        inside i p =
            let slot =
              IsSlot-cases r.capacity start_of i v.small start_lt (omega (arith, v.size_in)) in
            let whole =
              IsSlot-add r.capacity r.head index start_of i (add64 start_of i % r.capacity)
                v.head_in (omega (arith, v.size_in)) start-IsSlot slot in
            copied_new r.array dest r.capacity start_of count first_of v.storage start_lt
              (omega (arith, v.size_in)) room first_eq i (add64 start_of i % r.capacity) p slot
            ∙ sym (
                at_unchecked-slot raw r (index + i) (add64 start_of i % r.capacity) v
                  (omega (arith, v.size_in)) whole)
            ∙ sym (get_or-to_std_vector raw r (index + i) (omega arith))
            ∙ sym (get_or-drop index (to_std_vector raw r) i raw)
            ∙ sym (get_or-take count (drop index (to_std_vector raw r)) i raw p)
            ∙ sym (get_or-append_left read (drop count dest) i raw (omega (arith, length-read)))

        behind : (i : ℕ) → count ≤ i → get_or left_of i raw ≡ get_or (read ++ drop count dest) i raw
        behind i p =
            copied_old r.array dest r.capacity start_of count first_of v.storage start_lt
              (omega (arith, v.size_in)) room first_eq i p
            ∙ ap (λ k. get_or dest k raw) (omega arith)
            ∙ sym (get_or-drop count dest (i - count) raw)
            ∙ sym (get_or-append_right read (drop count dest) (i - count) raw)
            ∙ ap (λ k. get_or (read ++ drop count dest) k raw) (omega (arith, length-read))

        same_elements :
            (i : ℕ)
            → i < length left_of
            → get_or left_of i raw ≡ get_or (read ++ drop count dest) i raw
        same_elements i p = elim (dec_lt i count) [
          | yes q ↦ inside i q
          | no q ↦ behind i (omega arith)
        ]

  -- A read of `count` held elements from a relative index on, into a destination that has room for
  -- them, leaves there that slice of the contents, and nothing behind it is touched.
  pub peek_many_at-slice :
      (index : ℕ) (dest : List A) (count : ℕ) {r : Ring A}
      → IsValid r
      → index + count ≤ r.size
      → count ≤ length dest
      → peek_many_at index (some dest) count r
        ≡ some (slice index count (to_std_vector raw r) ++ drop count dest)
  peek_many_at-slice index dest count {r} v h room =
      peek_many_at-copied index dest count v h room
      ∙ ap some (copied-slice index dest count v h room)

  -- A run of the array that does not go round its end is a slice of the contents.
  pub run-slice :
      (index start n : ℕ) {r : Ring A}
      → IsValid r
      → IsSlot r.capacity r.head index start
      → start + n ≤ r.capacity
      → index + n ≤ r.size
      → slice start n r.array ≡ slice index n (to_std_vector raw r)
  run-slice index start n {r} v s room h =
      list_ext raw _ _
        (omega (
          arith,
          length-take n (drop start r.array),
          length-take n (drop index (to_std_vector raw r)),
          length-drop start r.array,
          length-drop index (to_std_vector raw r),
          length-to_std_vector raw r,
          v.storage,
        ))
        λ i p.
          let q : i < n = omega (arith, length-take n (drop start r.array)) in
          get_or-take n (drop start r.array) i raw q
          ∙ get_or-drop start r.array i raw
          ∙ sym (
              at_unchecked-slot raw r (index + i) (start + i) v (omega (arith, v.size_in))
                (ground (arith, v.size_in)))
          ∙ sym (get_or-to_std_vector raw r (index + i) (omega arith))
          ∙ sym (get_or-drop index (to_std_vector raw r) i raw)
          ∙ sym (get_or-take n (drop index (to_std_vector raw r)) i raw q)
