-- ===== src/Chunk/Read.antt =====
-- Reads of whole chunks: by copy, by pointer and by contiguous batch, against the log.
use native.Mathlib.Nat.{
  add-mul, mul-lt-mul_of_pos_right, mul-le-mul_right, div-le_self, lt_of_mul-lt-mul_right,
  le_of_mul-le-mul_right,
}
use cyc_flow.Base.{
  ℕ, ◌+◌, ◌-◌, ◌*◌, ◌/◌, ◌%◌, ◌≤◌, ◌<◌, min, ◌≡◌, ap, sym, subst, ◌∙◌, inl, inr, Bool-cases, false,
  le→ltb_false, some, List, ◌++◌, length, take, drop, slice, drop-drop, drop-append_left,
  take-append_left, take-add, length-drop, ◌==◌, ==→eq, add64, sub64, mul64, add64-eq, sub64-eq,
  mul64-eq, arith,
}
use cyc_flow.Ring.{to_std_vector, get_ptr_unsafe}
use cyc_flow.Ring.Index.{max_capacity, IsSlot, IsSlot-cases, mod_lt}
use cyc_flow.Ring.Peek.{peek_many_at-slice, run-slice}
use cyc_flow.Chunk.{Chunks, Byte, raw_byte, size, capacity, read_at, get_chunk_ptr, get_batch_ptr}
use cyc_flow.Chunk.Inv.{IsAligned}
use cyc_flow.Chunk.Log.{Holds, size-Holds, bytes-Holds}

-- The bytes of `n` chunks from chunk `i` of a log on.
abbrev pub chunks_of : ℕ → ℕ → ℕ → List Byte → List Byte
chunks_of chunk i n log = slice (i * chunk) (n * chunk) log

-- The bytes of chunks `index` to `index + n` of what the buffer holds.
abbrev pub held_chunks : ℕ → ℕ → Chunks → List Byte
held_chunks index n c = chunks_of c.chunk_size index n (to_std_vector raw_byte c.buffer)

module _ {c : Chunks} (a : IsAligned c) where
  size_bytes : size c * c.chunk_size ≡ c.buffer.size
  unfolding size
  size_bytes = a.whole_size

  capacity_bytes : capacity c * c.chunk_size ≡ c.buffer.capacity
  unfolding capacity
  capacity_bytes = a.whole_capacity

  -- A number of chunks within the size is that many bytes within the size.
  chunk_bytes :
      (index n : ℕ) → index + n ≤ size c → index * c.chunk_size + n * c.chunk_size ≤ c.buffer.size
  chunk_bytes index n h = omega (
    arith,
    mul-le-mul_right {m = index + n} {n = size c} c.chunk_size h,
    add-mul index n c.chunk_size,
    size_bytes,
  )

  small_bytes :
      (index n : ℕ)
      → index + n ≤ size c
      → (mul64 index c.chunk_size ≡ index * c.chunk_size)
        × (mul64 n c.chunk_size ≡ n * c.chunk_size)
  small_bytes index n h =
      let fits = chunk_bytes index n h in
      (
        mul64-eq index c.chunk_size (omega (arith, fits, a.valid.size_in, a.valid.small)),
        mul64-eq n c.chunk_size (omega (arith, fits, a.valid.size_in, a.valid.small)),
      )

  -- A read within the size, into a destination that has room for it, copies those chunks to the
  -- front of the destination and nothing else.
  pub read_at-held :
      (index count : ℕ) (dest : List Byte)
      → index + count ≤ size c
      → count * c.chunk_size ≤ length dest
      → read_at index (some dest) count c
        ≡ some (held_chunks index count c ++ drop (count * c.chunk_size) dest)
  unfolding read_at
  read_at-held index count dest h room = elim (Bool-cases (count == 0)) [
    | inl none_asked ↦
        let e : count * c.chunk_size ≡ 0 = rw (==→eq count 0 none_asked) (omega arith) in
        rw (none_asked, e)
    | inr more ↦
        rw (more, (small_bytes index count h).0, (small_bytes index count h).1)
          (peek_many_at-slice raw_byte (index * c.chunk_size) dest (count * c.chunk_size) a.valid
            (chunk_bytes index count h) room)
  ]

  -- A slot counted in chunks is the slot counted in bytes.
  IsSlot-scale :
      (h k j : ℕ)
      → h < capacity c
      → k ≤ capacity c
      → IsSlot (capacity c) h k j
      → IsSlot c.buffer.capacity (h * c.chunk_size) (k * c.chunk_size) (j * c.chunk_size)
  IsSlot-scale h k j hh hk (inl (p, e)) = inl (
    omega (
      arith,
      mul-lt-mul_of_pos_right p a.chunk_positive,
      add-mul h k c.chunk_size,
      capacity_bytes,
    ),
    ap (λ i. i * c.chunk_size) e ∙ add-mul h k c.chunk_size,
  )
  IsSlot-scale h k j hh hk (inr (p, e)) = inr (
    omega (arith, mul-le-mul_right c.chunk_size p, add-mul h k c.chunk_size, capacity_bytes),
    omega (
      arith,
      ap (λ i. i * c.chunk_size) e,
      add-mul h k c.chunk_size,
      add-mul j (capacity c) c.chunk_size,
      capacity_bytes,
    ),
  )

  abbrev head_chunk : ℕ
  head_chunk = c.buffer.head / c.chunk_size

  abbrev phys_of : ℕ → ℕ
  phys_of index = add64 head_chunk index % capacity c

  head_chunk_lt : head_chunk < capacity c
  head_chunk_lt =
      lt_of_mul-lt-mul_right c.chunk_size
        (omega (arith, a.whole_head, capacity_bytes, a.valid.head_in))

  capacity_le : capacity c ≤ max_capacity
  capacity_le =
      unfold capacity in omega (arith, div-le_self c.buffer.capacity c.chunk_size, a.valid.small)

  -- The byte slot of a chunk is its chunk slot, times the chunk size.
  ptr-phys :
      (index : ℕ)
      → index ≤ size c
      → (add64 c.buffer.head (index * c.chunk_size) % c.buffer.capacity
          ≡ phys_of index * c.chunk_size)
        × (phys_of index < capacity c)
  ptr-phys index h =
      let chunk_slot =
        IsSlot-cases (capacity c) head_chunk index capacity_le head_chunk_lt inside in
      let byte_slot =
        IsSlot-cases c.buffer.capacity c.buffer.head (index * c.chunk_size) a.valid.small
          a.valid.head_in bytes_inside in
      (
        same_slot (IsSlot-scale head_chunk index (phys_of index) head_chunk_lt inside chunk_slot)
            byte_slot,
        mod_lt (add64 head_chunk index) (capacity c) (omega (arith, head_chunk_lt)),
      )
    where
      bytes_inside : index * c.chunk_size ≤ c.buffer.capacity
      bytes_inside = omega (arith, mul-le-mul_right c.chunk_size h, size_bytes, a.valid.size_in)

      inside : index ≤ capacity c
      inside = le_of_mul-le-mul_right (omega (arith, bytes_inside, capacity_bytes)) a.chunk_positive

      same_slot :
          {i j : ℕ}
          → IsSlot c.buffer.capacity (head_chunk * c.chunk_size) (index * c.chunk_size) j
          → IsSlot c.buffer.capacity c.buffer.head (index * c.chunk_size) i
          → i ≡ j
      same_slot s t = omega (arith, a.whole_head)

  phys_fits :
      (index n : ℕ)
      → phys_of index + n ≤ capacity c
      → phys_of index * c.chunk_size + n * c.chunk_size ≤ c.buffer.capacity
  phys_fits index n h = omega (
    arith,
    mul-le-mul_right {m = phys_of index + n} {n = capacity c} c.chunk_size h,
    add-mul (phys_of index) n c.chunk_size,
    capacity_bytes,
  )

  -- The bytes behind a chunk's slot are the chunk's bytes, as far as the array goes.
  array-held :
      (index n : ℕ)
      → index ≤ size c
      → index + n ≤ size c
      → phys_of index + n ≤ capacity c
      → slice (phys_of index * c.chunk_size) (n * c.chunk_size) c.buffer.array
        ≡ held_chunks index n c
  array-held index n h room fits =
      run-slice raw_byte (index * c.chunk_size) (phys_of index * c.chunk_size) (n * c.chunk_size)
        a.valid
        (subst (IsSlot c.buffer.capacity c.buffer.head (index * c.chunk_size)) (ptr-phys index h).0
          (IsSlot-cases c.buffer.capacity c.buffer.head (index * c.chunk_size) a.valid.small
            a.valid.head_in (omega (arith, chunk_bytes index n room, a.valid.size_in))))
        (phys_fits index n fits) (chunk_bytes index n room)

  -- A held chunk never goes round the end of the array, and its pointer leads to its bytes.
  pub get_chunk_ptr-whole :
      (index : ℕ)
      → index < size c
      → ((get_chunk_ptr index c).1 ≡ false)
        × (slice (get_chunk_ptr index c).0 c.chunk_size c.buffer.array ≡ held_chunks index 1 c)
  unfolding get_chunk_ptr get_ptr_unsafe
  get_chunk_ptr-whole index h =
      rw ((small_bytes index 1 (omega arith)).0, (ptr-phys index (omega arith)).0)
        (
          le→ltb_false _ _ (
              omega
                (arith, fits, add64-eq (phys_of index * c.chunk_size) c.chunk_size, a.valid.small)),
          ap (λ n. slice (phys_of index * c.chunk_size) n c.buffer.array) one
              ∙ array-held index 1 (omega arith) (omega arith)
                  (omega (arith, (ptr-phys index (omega arith)).1)),
        )
    where
      one : c.chunk_size ≡ 1 * c.chunk_size
      one = omega arith

      fits : phys_of index * c.chunk_size + 1 * c.chunk_size ≤ c.buffer.capacity
      fits = phys_fits index 1 (omega (arith, (ptr-phys index (omega arith)).1))

  -- A batch of held chunks lies inside the array, is no longer than asked, is empty only if nothing
  -- was asked, and its bytes are the held chunks from the index on.
  pub get_batch_ptr_lem :
      (index max_chunks : ℕ)
      → index + max_chunks ≤ size c
      → let (ptr, n) = get_batch_ptr index max_chunks c in
        (n ≤ max_chunks)
        × (min 1 max_chunks ≤ n)
        × (ptr + n * c.chunk_size ≤ c.buffer.capacity)
        × (slice ptr (n * c.chunk_size) c.buffer.array ≡ held_chunks index n c)
  unfolding get_batch_ptr get_ptr_unsafe
  get_batch_ptr_lem index max_chunks h =
      rw ((small_bytes index max_chunks h).0, (ptr-phys index (omega arith)).0, avail)
        (
          omega arith,
          omega (arith, inside),
          phys_fits index _ (omega (arith, inside)),
          array-held index _ (omega arith) (omega arith) (omega (arith, inside)),
        )
    where
      inside : phys_of index < capacity c
      inside = (ptr-phys index (omega arith)).1

      avail : sub64 (capacity c) (phys_of index) ≡ capacity c - phys_of index
      avail =
          sub64-eq (capacity c) (phys_of index) (omega (arith, inside)) (omega (arith, capacity_le))

-- What is held, in terms of the log: chunk `index` of the buffer is chunk `total - size + index`.
pub held-log :
    {c : Chunks} {log : List Byte} (index n : ℕ)
    → Holds c log
    → index + n ≤ size c
    → held_chunks index n c ≡ chunks_of c.chunk_size (c.total_written - size c + index) n log
held-log {c} {log} index n h room =
    ap (λ xs. chunks_of c.chunk_size index n xs) h.kept
    ∙ ap (take (n * c.chunk_size))
        (drop-drop (index * c.chunk_size) (length log - c.buffer.capacity) log)
    ∙ ap (λ k. take (n * c.chunk_size) (drop k log)) offset
  where
    sub_add : (a b : ℕ) → a ≤ b → b - a + a ≡ b
    sub_add a b p = omega arith

    offset :
        length log - c.buffer.capacity + index * c.chunk_size
        ≡ (c.total_written - size c + index) * c.chunk_size
    offset = omega (
      arith,
      h.counted,
      bytes-Holds h,
      size_bytes h.aligned,
      size-Holds h,
      add-mul (c.total_written - size c) index c.chunk_size,
      add-mul (c.total_written - size c) (size c) c.chunk_size,
      ap (λ k. k * c.chunk_size) (sub_add (size c) c.total_written (omega (arith, size-Holds h))),
    )

-- A run that the log already has stays as the log grows.
pub chunks_of-append :
    (chunk i n : ℕ) (log more : List Byte)
    → i * chunk + n * chunk ≤ length log
    → chunks_of chunk i n (log ++ more) ≡ chunks_of chunk i n log
chunks_of-append chunk i n log more h =
    ap (take (n * chunk)) (drop-append_left log more (i * chunk) (omega arith))
    ∙ take-append_left (n * chunk) (drop (i * chunk) log) more
        (omega (arith, length-drop (i * chunk) log))

-- Two runs in a row are one.
pub chunks_of-add :
    (chunk i m n : ℕ) (log : List Byte)
    → chunks_of chunk i m log ++ chunks_of chunk (i + m) n log ≡ chunks_of chunk i (m + n) log
chunks_of-add chunk i m n log =
    ap (λ k. chunks_of chunk i m log ++ take (n * chunk) (drop k log)) (add-mul i m chunk)
    ∙ ap (λ xs. chunks_of chunk i m log ++ take (n * chunk) xs)
        (sym (drop-drop (m * chunk) (i * chunk) log))
    ∙ take-add (m * chunk) (n * chunk) (drop (i * chunk) log)
    ∙ ap (λ k. take k (drop (i * chunk) log)) (sym (add-mul m n chunk))
