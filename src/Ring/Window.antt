-- ===== src/Ring/Window.antt =====
-- What a ring holds, element by element, and what a chunked copy leaves in an array.
use cyc_flow.Base.{
  ℕ, zero, suc, ◌+◌, ◌-◌, ◌≤◌, ◌<◌, min, ◌≡◌, refl, ap, ◌∙◌, ◌⊎◌, inl, inr, List, [], ◌∷◌, length,
  length-set, get_or, set, drop, get_or-set_self, get_or-set_ne, get_or-drop, length-drop, arith,
}
use cyc_flow.Ring.{Ring, copy_chunk, at_unchecked, read_from, to_std_vector}
use cyc_flow.Ring.Index.{IsSlot, IsSlot-cases}
use cyc_flow.Ring.Inv.{IsValid, length-copy_chunk}

module _ {ℓ} {A : Type ℓ} where
  -- Two chunks round the end of an array: what `push_many` leaves in it.
  abbrev pub write_round : List A → ℕ → ℕ → ℕ → List A → List A
  write_round source tail chunk1 chunk2 array =
      copy_chunk (drop chunk1 source) 0 chunk2 (copy_chunk source tail chunk1 array)

module _ {ℓ} {A : Type ℓ} (raw : A) where
  length-read_from : (r : Ring A) (i n : ℕ) → length (read_from raw r i n) ≡ n
  unfolding read_from
  length-read_from r i zero = refl
  length-read_from r i (suc n) = ap suc (length-read_from r (i + 1) n)

  pub length-to_std_vector : (r : Ring A) → length (to_std_vector raw r) ≡ r.size
  unfolding to_std_vector
  length-to_std_vector r = length-read_from r 0 r.size

  get_or-read_from :
      (r : Ring A) (i n j : ℕ)
      → j < n
      → get_or (read_from raw r i n) j raw ≡ at_unchecked raw r (i + j)
  unfolding read_from
  get_or-read_from r i zero j h = absurd (omega arith)
  get_or-read_from r i (suc n) zero h = ap (at_unchecked raw r) (omega arith)
  get_or-read_from r i (suc n) (suc j) h =
      get_or-read_from r (i + 1) n j (omega arith) ∙ ap (at_unchecked raw r) (omega arith)

  pub get_or-to_std_vector :
      (r : Ring A) (i : ℕ) → i < r.size → get_or (to_std_vector raw r) i raw ≡ at_unchecked raw r i
  unfolding to_std_vector
  get_or-to_std_vector r i h =
      get_or-read_from r 0 r.size i h ∙ ap (at_unchecked raw r) (omega arith)

  -- A relative index reads the array at its slot.
  pub at_unchecked-slot :
      (r : Ring A) (i j : ℕ)
      → IsValid r
      → i ≤ r.capacity
      → IsSlot r.capacity r.head i j
      → at_unchecked raw r i ≡ get_or r.array j raw
  unfolding at_unchecked
  at_unchecked-slot r i j v h s =
      ap (λ k. get_or r.array k raw)
        (ground (arith, IsSlot-cases r.capacity r.head i v.small v.head_in h))

  pub copy_chunk_out :
      (source : List A) (dst n : ℕ) (array : List A) (j : ℕ)
      → (j < dst) ⊎ (dst + n ≤ j)
      → get_or (copy_chunk source dst n array) j raw ≡ get_or array j raw
  unfolding copy_chunk
  copy_chunk_out source dst zero array j h = refl
  copy_chunk_out [] dst (suc n) array j h = refl
  copy_chunk_out (x ∷ source) dst (suc n) array j h =
      copy_chunk_out source (dst + 1) n (set array dst x) j (omega arith)
      ∙ get_or-set_ne array dst j x raw (omega arith)

  pub copy_chunk_in :
      (source : List A) (dst n : ℕ) (array : List A) (j : ℕ)
      → j < n
      → n ≤ length source
      → dst + n ≤ length array
      → get_or (copy_chunk source dst n array) (dst + j) raw ≡ get_or source j raw
  unfolding copy_chunk
  copy_chunk_in source dst zero array j h s a = absurd (omega arith)
  copy_chunk_in [] dst (suc n) array j h s a = absurd (omega arith)
  copy_chunk_in (x ∷ source) dst (suc n) array zero h s a =
      copy_chunk_out source (dst + 1) n (set array dst x) (dst + 0) (omega arith)
      ∙ ap (λ k. get_or (set array dst x) k raw) (omega arith)
      ∙ get_or-set_self array dst x raw (omega arith)
  copy_chunk_in (x ∷ source) dst (suc n) array (suc j) h s a =
      ap (λ k. get_or (copy_chunk source (dst + 1) n (set array dst x)) k raw) (omega arith)
      ∙ copy_chunk_in source (dst + 1) n (set array dst x) j (omega arith) (omega arith)
          (omega (arith, length-set array dst x))

  pub copy_chunk_at :
      (source : List A) (dst n : ℕ) (array : List A) (i j : ℕ)
      → i ≡ dst + j
      → j < n
      → n ≤ length source
      → dst + n ≤ length array
      → get_or (copy_chunk source dst n array) i raw ≡ get_or source j raw
  copy_chunk_at source dst n array i j e h s a = rw e (copy_chunk_in source dst n array j h s a)

  module _ (source array : List A) (cap tail n chunk1 : ℕ) (len : length array ≡ cap)
      (t : tail < cap) (fits : n ≤ cap) (given : n ≤ length source)
      (c : chunk1 ≡ min n (cap - tail)) where
    length-drop-source : n - chunk1 ≤ length (drop chunk1 source)
    length-drop-source = omega (arith, length-drop chunk1 source)

    pub round_new :
        (k j : ℕ)
        → k < n
        → IsSlot cap tail k j
        → get_or (write_round source tail chunk1 (n - chunk1) array) j raw ≡ get_or source k raw
    round_new k j h (inl (p, e)) =
        copy_chunk_out (drop chunk1 source) 0 (n - chunk1) (copy_chunk source tail chunk1 array) j
          (omega arith)
        ∙ copy_chunk_at source tail chunk1 array j k e (omega arith) (omega arith) (omega arith)
    round_new k j h (inr (p, e)) =
        copy_chunk_at (drop chunk1 source) 0 (n - chunk1) (copy_chunk source tail chunk1 array) j j
          (omega arith) (omega arith) length-drop-source
          (omega (arith, length-copy_chunk source tail chunk1 array))
        ∙ get_or-drop chunk1 source j raw
        ∙ ap (λ i. get_or source i raw) (omega arith)

    pub round_old :
        (k j : ℕ)
        → n ≤ k
        → k < cap
        → IsSlot cap tail k j
        → get_or (write_round source tail chunk1 (n - chunk1) array) j raw ≡ get_or array j raw
    round_old k j h p s =
        copy_chunk_out (drop chunk1 source) 0 (n - chunk1) (copy_chunk source tail chunk1 array) j
          (ground arith)
        ∙ copy_chunk_out source tail chunk1 array j (ground arith)
