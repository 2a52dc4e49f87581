-- ===== src/Ring/Push.antt =====
-- A write of at most `capacity` elements against lists, slot by slot.
use cyc_flow.Base.{
  ℕ, ◌+◌, ◌-◌, ◌%◌, ◌≤◌, ◌<◌, min, ◌≡◌, ap, sym, subst, ◌∙◌, List, ◌++◌, length, get_or, take,
  take_last, length-append, length-take, length-drop, get_or-drop, get_or-take, get_or-append_left,
  get_or-append_right, list_ext, add64, sub64, add64-eq, sub64-eq, arith, dec_lt,
}
use cyc_flow.Ring.{Ring, push_within, at_unchecked, to_std_vector}
use cyc_flow.Ring.Index.{IsSlot, IsSlot-cases, mod_once}
use cyc_flow.Ring.Inv.{IsValid, push_within-IsValid, capacity-push_within}
use cyc_flow.Ring.Window.{
  length-to_std_vector, get_or-to_std_vector, at_unchecked-slot, write_round, round_new, round_old,
}

-- Where a slot of the held elements, and of the new ones, lies from the tail `t`.
tail_old :
    (cap h m i t j : ℕ)
    → h < cap
    → m ≤ cap
    → i < m
    → IsSlot cap h m t
    → IsSlot cap h i j
    → IsSlot cap t (cap - m + i) j
tail_old cap h m i t j hh hm hi st sj = ground arith

-- The head after the write, `s` elements on.
module _ (cap h m n s t h' i j : ℕ) (hh : h < cap) (hm : m ≤ cap) (hn : n ≤ cap) (hs : s ≤ cap)
    (st : IsSlot cap h m t) (sh : IsSlot cap h s h') (sj : IsSlot cap h' i j) (hi : i < cap)
    (ht : t < cap) where
  shifted_old : s + i < m → IsSlot cap h (s + i) j
  shifted_old p = ground arith

  shifted_new : m ≤ s + i → s + i < m + n → IsSlot cap t (s + i - m) j
  shifted_new p q = ground arith

module _ {ℓ} {A : Type ℓ} (raw : A) where
  get_or-joined :
      (r : Ring A) (source : List A) (n g : ℕ)
      → n ≤ length source
      → g < r.size + n
      → (g < r.size → get_or (to_std_vector raw r ++ take n source) g raw ≡ at_unchecked raw r g)
        × (r.size ≤ g
            → get_or (to_std_vector raw r ++ take n source) g raw ≡ get_or source (g - r.size) raw)
  get_or-joined r source n g hs hg = (held, written)
    where
      len : length (to_std_vector raw r) ≡ r.size
      len = length-to_std_vector raw r

      held : g < r.size → get_or (to_std_vector raw r ++ take n source) g raw ≡ at_unchecked raw r g
      held p =
          get_or-append_left (to_std_vector raw r) (take n source) g raw (omega (arith, len))
          ∙ get_or-to_std_vector raw r g p

      written :
          r.size ≤ g
          → get_or (to_std_vector raw r ++ take n source) g raw ≡ get_or source (g - r.size) raw
      written p =
          ap (λ k. get_or (to_std_vector raw r ++ take n source) k raw) (omega (arith, len))
          ∙ get_or-append_right (to_std_vector raw r) (take n source) (g - r.size) raw
          ∙ get_or-take n source (g - r.size) raw (omega arith)

  module _ (source : List A) (n : ℕ) (r : Ring A) (v : IsValid r) (hn : n ≤ r.capacity) where
    abbrev tail_of : ℕ
    tail_of = add64 r.head r.size % r.capacity

    abbrev chunk_of : ℕ
    chunk_of = min n (sub64 r.capacity tail_of)

    tail-IsSlot : IsSlot r.capacity r.head r.size tail_of
    tail-IsSlot = IsSlot-cases r.capacity r.head r.size v.small v.head_in v.size_in

    tail_lt : tail_of < r.capacity
    tail_lt = omega arith

    chunk_eq : chunk_of ≡ min n (r.capacity - tail_of)
    chunk_eq = omega (arith, tail_lt, sub64-eq r.capacity tail_of)

    pub size-push_within : (push_within source n r).size ≡ min r.capacity (r.size + n)
    unfolding push_within
    size-push_within = ground (arith, add64-eq r.size n)

    pub head-push_within :
        IsSlot r.capacity r.head (r.size + n - r.capacity) (push_within source n r).head
    unfolding push_within add64 sub64
    head-push_within = ground (arith, mod_once r.capacity (r.head + (r.size + n) - r.capacity))

    array-push_within :
        (push_within source n r).array ≡ write_round source tail_of chunk_of (n - chunk_of) r.array
    unfolding push_within
    array-push_within =
        let e : sub64 n chunk_of ≡ n - chunk_of = sub64-eq n chunk_of (omega arith) (omega arith) in
        ground (arith, e)

    module _ (given : n ≤ length source) where
      -- Element `i` after the write, read through the array of before.
      at-push_within :
          (i : ℕ)
          → i < min r.capacity (r.size + n)
          → let g = r.size + n - r.capacity + i in
            (g < r.size → at_unchecked raw (push_within source n r) i ≡ at_unchecked raw r g)
            × (r.size ≤ g
                → at_unchecked raw (push_within source n r) i ≡ get_or source (g - r.size) raw)
      at-push_within i h = (old, new)
        where
          after : Ring A
          after = push_within source n r

          slot : ℕ
          slot = add64 after.head i % after.capacity

          valid : IsValid after
          valid = push_within-IsValid source n hn v

          shift : ℕ
          shift = r.size + n - r.capacity

          inside : i ≤ after.capacity
          inside = rw (capacity-push_within source n r) (omega arith)

          near : IsSlot after.capacity after.head i slot
          near = IsSlot-cases after.capacity after.head i valid.small valid.head_in inside

          near' : IsSlot r.capacity after.head i slot
          near' = subst (λ c. IsSlot c after.head i slot) (capacity-push_within source n r) near

          read :
              at_unchecked raw after i
              ≡ get_or (write_round source tail_of chunk_of (n - chunk_of) r.array) slot raw
          read =
              at_unchecked-slot raw after i slot valid inside near
              ∙ ap (λ a. get_or a slot raw) array-push_within

          old : shift + i < r.size → at_unchecked raw after i ≡ at_unchecked raw r (shift + i)
          old p =
              let here =
                shifted_old r.capacity r.head r.size n shift tail_of after.head i slot v.head_in
                  v.size_in hn (omega arith) tail-IsSlot head-push_within near' (omega arith)
                  tail_lt p in
              let there =
                tail_old r.capacity r.head r.size (shift + i) tail_of slot v.head_in v.size_in p
                  tail-IsSlot here in
              read
              ∙ round_old raw source r.array r.capacity tail_of n chunk_of v.storage tail_lt hn
                  given chunk_eq (r.capacity - r.size + (shift + i)) slot (omega arith)
                  (omega arith) there
              ∙ sym (at_unchecked-slot raw r (shift + i) slot v (omega arith) here)

          new :
              r.size ≤ shift + i → at_unchecked raw after i ≡ get_or source (shift + i - r.size) raw
          new p =
              let there =
                shifted_new r.capacity r.head r.size n shift tail_of after.head i slot v.head_in
                  v.size_in hn (omega arith) tail-IsSlot head-push_within near' (omega arith)
                  tail_lt p (omega arith) in
              read
              ∙ round_new raw source r.array r.capacity tail_of n chunk_of v.storage tail_lt hn
                  given chunk_eq (shift + i - r.size) slot (omega arith) there

  pub push_within_lem :
      (source : List A) (n : ℕ) {r : Ring A}
      → IsValid r
      → n ≤ r.capacity
      → n ≤ length source
      → to_std_vector raw (push_within source n r)
        ≡ take_last r.capacity (to_std_vector raw r ++ take n source)
  push_within_lem source n {r} v hn given = list_ext raw _ _ same_length same_elements
    where
      joined : List A
      joined = to_std_vector raw r ++ take n source

      len : length joined ≡ r.size + n
      len = omega (
        arith,
        length-append (to_std_vector raw r) (take n source),
        length-to_std_vector raw r,
        length-take n source,
      )

      same_length :
          length (to_std_vector raw (push_within source n r)) ≡ length (take_last r.capacity joined)
      same_length = omega (
        arith,
        len,
        length-drop (length joined - r.capacity) joined,
        length-to_std_vector raw (push_within source n r),
        size-push_within source n r v hn,
      )

      same_elements :
          (i : ℕ)
          → i < length (to_std_vector raw (push_within source n r))
          → get_or (to_std_vector raw (push_within source n r)) i raw
            ≡ get_or (take_last r.capacity joined) i raw
      same_elements i h =
          let parts = at-push_within source n r v hn given i (omega (arith, below)) in
          let spec = get_or-joined r source n g given (omega (arith, below)) in
          get_or-to_std_vector raw (push_within source n r) i
            (omega (arith, below, size-push_within source n r v hn))
          ∙ elim (dec_lt g r.size) [
            | yes p ↦ parts.0 p ∙ sym (spec.0 p)
            | no p ↦ parts.1 (omega arith) ∙ sym (spec.1 (omega arith))
          ]
          ∙ sym (ap (λ k. get_or joined (k + i) raw) (omega (arith, len)))
          ∙ sym (get_or-drop (length joined - r.capacity) joined i raw)
        where
          g : ℕ
          g = r.size + n - r.capacity + i

          below : i < min r.capacity (r.size + n)
          below = omega (
            arith,
            length-to_std_vector raw (push_within source n r),
            size-push_within source n r v hn,
          )
