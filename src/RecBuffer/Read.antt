-- ===== src/RecBuffer/Read.antt =====
-- Reads by global cursor, against the log of all that was pushed.
use cyc_flow.Base.{
  ℕ, ◌+◌, ◌-◌, ◌*◌, ◌≤◌, ◌<◌, min, ◌≡◌, ap, ◌∙◌, ◌⊎◌, true, false, ◌||◌, Option, none, some, List,
  ◌++◌, length, drop, slice, ltb, ◌==◌, sub64, sub64-eq, sub64-wrap, word, arith,
}
use cyc_flow.Chunk.{Byte, get_batch_ptr}
use cyc_flow.Chunk
use cyc_flow.Chunk.Log.{Holds, size-Holds}
use cyc_flow.Chunk.Read.{chunks_of, held_chunks, held-log, read_at-held, get_batch_ptr_lem}
use cyc_flow.RecBuffer.{RecBuffer, read_from_global, get_batch_ptr_from_global}

-- The record at the cursor is still held.
abbrev pub IsKept : ℕ → RecBuffer → Type 0
IsKept cursor b =
    (cursor ≤ b.impl.total_written) × (b.impl.total_written ≤ cursor + Chunk.size b.impl)

module _ (b : RecBuffer) {log : List Byte} (h : Holds b.impl log) where
  size-le : Chunk.size b.impl ≤ b.impl.total_written
  size-le = omega (arith, size-Holds h)

  lag-kept :
      (cursor : ℕ)
      → IsKept cursor b
      → sub64 b.impl.total_written cursor ≡ b.impl.total_written - cursor
  lag-kept cursor kept = sub64-eq b.impl.total_written cursor kept.0 h.no_wrap

  -- A difference that wraps is larger than the size, so that the same test refuses it.
  stops :
      (cursor : ℕ)
      → cursor < word
      → (b.impl.total_written ≤ cursor) ⊎ (cursor + Chunk.size b.impl < b.impl.total_written)
      → (ltb (Chunk.size b.impl) (sub64 b.impl.total_written cursor)
          || sub64 b.impl.total_written cursor == 0)
        ≡ true
  stops cursor w gone = ground (
    arith,
    sub64-eq b.impl.total_written cursor,
    sub64-wrap b.impl.total_written cursor,
    h.no_wrap,
    size-le,
  )

  stops' :
      (cursor : ℕ)
      → cursor < word
      → (b.impl.total_written ≤ cursor) ⊎ (cursor + Chunk.size b.impl < b.impl.total_written)
      → (sub64 b.impl.total_written cursor == 0
          || ltb (Chunk.size b.impl) (sub64 b.impl.total_written cursor))
        ≡ true
  stops' cursor w gone = ground (arith, stops cursor w gone)

  -- A read of records that are all held and written, from a global cursor on, reads exactly those
  -- records of the log, wherever the ring holds them, and nothing behind them in the destination is
  -- touched.
  pub read_from_global-log :
      (cursor count : ℕ) (dest : List Byte)
      → IsKept cursor b
      → 0 < count
      → cursor + count ≤ b.impl.total_written
      → count * b.impl.chunk_size ≤ length dest
      → read_from_global cursor (some dest) count b ≡ (
        count,
        some
            (chunks_of b.impl.chunk_size cursor count log ++ drop (count * b.impl.chunk_size) dest),
      )
  unfolding read_from_global
  read_from_global-log cursor count dest kept p fits room =
      rw (lag, passes)
        (ap (λ d. (count, d))
          (read_at-held h.aligned index count dest inside room
            ∙ ap (λ xs. some (xs ++ drop (count * b.impl.chunk_size) dest))
                (held-log index count h inside
                  ∙ ap (λ i. chunks_of b.impl.chunk_size i count log) place)))
    where
      lag : sub64 b.impl.total_written cursor ≡ b.impl.total_written - cursor
      lag = lag-kept cursor kept

      index : ℕ
      index = Chunk.size b.impl - (b.impl.total_written - cursor)

      inside : index + count ≤ Chunk.size b.impl
      inside = omega (arith, kept)

      place : b.impl.total_written - Chunk.size b.impl + index ≡ cursor
      place = omega (arith, kept, size-le)

      passes :
          (ltb (Chunk.size b.impl) (b.impl.total_written - cursor)
            || b.impl.total_written - cursor == 0)
          ≡ false
      passes = ground (arith, kept)

  -- A cursor that has read all, one ahead of the writer, and one whose record has been overwritten
  -- read nothing and leave the destination alone, the differences that wrap at 2^64 included.
  pub read_from_global-none :
      (cursor count : ℕ) (dest : Option (List Byte))
      → cursor < word
      → (b.impl.total_written ≤ cursor) ⊎ (cursor + Chunk.size b.impl < b.impl.total_written)
      → read_from_global cursor dest count b ≡ (0, dest)
  unfolding read_from_global
  read_from_global-none cursor count dest w gone = rw (stops cursor w gone)

  -- A batch at a cursor with records left is not empty, no longer than asked or than what is left,
  -- lies inside the array, and its bytes are the records of the log from the cursor on.
  pub get_batch_ptr_from_global-log :
      (cursor max_records : ℕ)
      → IsKept cursor b
      → cursor < b.impl.total_written
      → 0 < max_records
      → (ptr n : ℕ) × (get_batch_ptr_from_global cursor max_records b ≡ (some ptr, n))
        × (0 < n)
        × (n ≤ max_records)
        × (cursor + n ≤ b.impl.total_written)
        × (ptr + n * b.impl.chunk_size ≤ b.impl.buffer.capacity)
        × (slice ptr (n * b.impl.chunk_size) b.impl.buffer.array
            ≡ chunks_of b.impl.chunk_size cursor n log)
  unfolding get_batch_ptr_from_global
  get_batch_ptr_from_global-log cursor max_records kept p q = (
    batch.0,
    batch.1,
    rw (lag, passes),
    omega (arith, facts.1),
    omega (arith, facts.0),
    omega (arith, facts.0, kept),
    facts.2,
    facts.3
        ∙ held-log index batch.1 h (omega (arith, facts.0, inside))
        ∙ ap (λ i. chunks_of b.impl.chunk_size i batch.1 log) place,
  )
    where
      lag : sub64 b.impl.total_written cursor ≡ b.impl.total_written - cursor
      lag = lag-kept cursor kept

      left : ℕ
      left = b.impl.total_written - cursor

      index : ℕ
      index = Chunk.size b.impl - left

      inside : index + min max_records left ≤ Chunk.size b.impl
      inside = omega (arith, kept)

      place : b.impl.total_written - Chunk.size b.impl + index ≡ cursor
      place = omega (arith, kept, size-le)

      batch : ℕ × ℕ
      batch = get_batch_ptr index (min max_records left) b.impl

      facts :
          (batch.1 ≤ min max_records left)
          × (min 1 (min max_records left) ≤ batch.1)
          × (batch.0 + batch.1 * b.impl.chunk_size ≤ b.impl.buffer.capacity)
          × (slice batch.0 (batch.1 * b.impl.chunk_size) b.impl.buffer.array
              ≡ held_chunks index batch.1 b.impl)
      facts = get_batch_ptr_lem h.aligned index (min max_records left) inside

      passes : (left == 0 || ltb (Chunk.size b.impl) left) ≡ false
      passes = ground (arith, kept)

  -- A cursor that has read all, one ahead of the writer, and one whose record has been overwritten
  -- get the null pointer and an empty batch.
  pub get_batch_ptr_from_global-none :
      (cursor max_records : ℕ)
      → cursor < word
      → (b.impl.total_written ≤ cursor) ⊎ (cursor + Chunk.size b.impl < b.impl.total_written)
      → get_batch_ptr_from_global cursor max_records b ≡ (none, 0)
  unfolding get_batch_ptr_from_global
  get_batch_ptr_from_global-none cursor max_records w gone = rw (stops' cursor w gone)
