-- ===== src/ReaderZc/Batch.antt =====
-- What one batch of the zero-copy reader is.
use cyc_flow.Base.{
  ℕ, ◌+◌, ◌-◌, ◌*◌, ◌≤◌, ◌<◌, ◌≡◌, ◌∙◌, ◌⊎◌, inl, inr, word, dec_lt, true, false, ◌&&◌, ltb, ◌==◌,
  none, some, List, slice, add64, sub64, add64-eq, sub64-eq, arith,
}
use cyc_flow.Chunk.{Byte}
use cyc_flow.Chunk
use cyc_flow.Chunk.Log.{Holds}
use cyc_flow.Chunk.Read.{chunks_of}
use cyc_flow.RecBuffer.{RecBuffer, get_total_written_and_size}
use cyc_flow.RecBuffer.Read.{IsKept, get_batch_ptr_from_global-log, get_batch_ptr_from_global-none}
use cyc_flow.ReaderZc.{ReaderZc, no_batch, is_finished, pin, look, overrun, recover, take_batch}

-- `n` records of the log from `cursor` on, pinned at `ptr`, at most `max_records` and at least one.
pub record Pins (max_records : ℕ) (b : RecBuffer) (log : List Byte) (cursor ptr n : ℕ)
    : Type 0 where
  pub some_record : 0 < n
  pub limited : n ≤ max_records
  pub written : cursor + n ≤ b.impl.total_written
  pub in_array : ptr + n * b.impl.chunk_size ≤ b.impl.buffer.capacity
  pub bytes :
      slice ptr (n * b.impl.chunk_size) b.impl.buffer.array
      ≡ chunks_of b.impl.chunk_size cursor n log

-- A look at a record that is held.
pub pin-Pins :
    (b : RecBuffer) {log : List Byte} (h : Holds b.impl log) (max_records : ℕ) (r : ReaderZc)
    → IsKept r.reader_cursor b
    → r.reader_cursor < b.impl.total_written
    → 0 < max_records
    → (ptr n : ℕ) × (pin max_records b r ≡ (
      some (record { data_ptr = some ptr; count = n }),
      record r { pinned_end = r.reader_cursor + n },
    ))
      × Pins max_records b log r.reader_cursor ptr n
unfolding pin
pin-Pins b h max_records r kept left p =
    let (ptr, n, e, some_record, limited, written, in_array, bytes) =
      get_batch_ptr_from_global-log b h r.reader_cursor max_records kept left p in
    let more : (n == 0) ≡ false = ground (arith, some_record) in
    let end : add64 r.reader_cursor n ≡ r.reader_cursor + n =
      add64-eq r.reader_cursor n (omega (arith, written, h.no_wrap)) in
    (
      ptr,
      n,
      simp (pin, e, more, end),
      record {
        some_record = some_record;
        limited = limited;
        written = written;
        in_array = in_array;
        bytes = bytes;
      },
    )

-- A look where there is no record, or not any more.
pub pin-none :
    (b : RecBuffer) {log : List Byte} (h : Holds b.impl log) (max_records : ℕ) (r : ReaderZc)
    → r.reader_cursor < word
    → (b.impl.total_written ≤ r.reader_cursor)
      ⊎ (r.reader_cursor + Chunk.size b.impl < b.impl.total_written)
    → pin max_records b r ≡ (none, r)
unfolding pin
pin-none b h max_records r small missing =
    simp (pin, get_batch_ptr_from_global-none b h r.reader_cursor max_records small missing)

-- The second look of a reader that was not overrun, and of one that was.
pub overrun-kept :
    (b : RecBuffer) {log : List Byte} (h : Holds b.impl log) (r : ReaderZc)
    → IsKept r.reader_cursor b
    → overrun b r ≡ (false, r)
unfolding overrun get_total_written_and_size
overrun-kept b h r kept =
    let same : (ltb 0 (Chunk.size b.impl)
          && ltb r.reader_cursor b.impl.total_written
          && ltb (Chunk.size b.impl) (sub64 b.impl.total_written r.reader_cursor))
        ≡ false =
      ground (arith, kept, sub64-eq b.impl.total_written r.reader_cursor kept.0 h.no_wrap) in
    simp same

overrun-moves :
    (b : RecBuffer) {log : List Byte} (h : Holds b.impl log) (r : ReaderZc)
    → r.reader_cursor + Chunk.size b.impl < b.impl.total_written
    → 0 < Chunk.size b.impl
    → let oldest = b.impl.total_written - Chunk.size b.impl in
      overrun b r ≡ (true, record r { reader_cursor = oldest; pinned_end = oldest })
unfolding overrun get_total_written_and_size
overrun-moves b h r behind held =
    let place : sub64 b.impl.total_written (Chunk.size b.impl)
        ≡ b.impl.total_written - Chunk.size b.impl =
      sub64-eq b.impl.total_written (Chunk.size b.impl) (omega arith) h.no_wrap in
    let overrun : (ltb 0 (Chunk.size b.impl)
          && ltb r.reader_cursor b.impl.total_written
          && ltb (Chunk.size b.impl) (sub64 b.impl.total_written r.reader_cursor))
        ≡ true =
      ground (
        arith,
        sub64-eq b.impl.total_written r.reader_cursor (omega arith) h.no_wrap,
        behind,
        held,
      ) in
    simp (overrun, place)

-- A running reader that has not reached its finish target, with held records left to read, gets the
-- next of them: at least one, at most as many as it asked for, in place in the ring. Its cursor
-- stays until it releases them.
pub take_batch-Pins :
    (b : RecBuffer) {log : List Byte} (h : Holds b.impl log) (second third : RecBuffer)
    (max_records : ℕ) (r : ReaderZc)
    → r.running ≡ true
    → is_finished r ≡ false
    → IsKept r.reader_cursor b
    → r.reader_cursor < b.impl.total_written
    → 0 < max_records
    → (ptr n : ℕ) × (take_batch max_records b second third r ≡ (
      record { data_ptr = some ptr; count = n },
      record r { pinned_end = r.reader_cursor + n },
    ))
      × Pins max_records b log r.reader_cursor ptr n
unfolding take_batch look
take_batch-Pins b h second third max_records r run go kept left p =
    let (ptr, n, e, pins) = pin-Pins b h max_records r kept left p in
    (ptr, n, simp (take_batch, look, run, go, e), pins)

-- A running reader that has not reached its finish target and whose record has been overwritten is
-- not stuck: it moves on to the oldest record that its second look finds, and gets a batch from
-- there on, unless a writer has overwritten that record too by its third look; then it gets none,
-- and stays there for its next call. (The reader finds itself overrun at its first and its second
-- look, with a record to go to, and the count of records does not fall before its third.)
pub take_batch-overrun :
    (first second third : RecBuffer) {log log' log'' : List Byte} (max_records : ℕ) (r : ReaderZc)
    → Holds first.impl log
    → Holds second.impl log'
    → Holds third.impl log''
    → r.running ≡ true
    → is_finished r ≡ false
    → r.reader_cursor + Chunk.size first.impl < first.impl.total_written
    → r.reader_cursor + Chunk.size second.impl < second.impl.total_written
    → 0 < Chunk.size second.impl
    → second.impl.total_written ≤ third.impl.total_written
    → 0 < max_records
    → let oldest = second.impl.total_written - Chunk.size second.impl in
      (r.reader_cursor < oldest)
      × (((oldest + Chunk.size third.impl < third.impl.total_written)
            × (take_batch max_records first second third r
                ≡ (no_batch, record r { reader_cursor = oldest; pinned_end = oldest })))
          ⊎ ((ptr n : ℕ) × (take_batch max_records first second third r ≡ (
            record { data_ptr = some ptr; count = n },
            record r { reader_cursor = oldest; pinned_end = oldest + n },
          ))
              × Pins max_records third log'' oldest ptr n))
unfolding take_batch look recover
take_batch-overrun first second third max_records r h h' h'' run go lost behind held grows p =
    let missing = pin-none first h max_records r (omega (arith, lost, h.no_wrap)) (inr lost) in
    let missed : take_batch max_records first second third r ≡ recover max_records second third r =
      simp (take_batch, look, run, go, missing) in
    let moves = overrun-moves second h' r behind held in
    (
      omega (arith, behind),
      elim (dec_lt (oldest + Chunk.size third.impl) third.impl.total_written) [
        | yes again ↦
            let none_left =
              pin-none third h'' max_records moved (omega (arith, again, h''.no_wrap))
                (inr again) in
            inl (again, missed ∙ simp (recover, moves, none_left))
        | no kept ↦
            let (ptr, n, e, pins) =
              pin-Pins third h'' max_records moved (omega (arith, grows), omega (arith, kept))
                (omega (arith, grows, held, behind)) p in
            inr (ptr, n, missed ∙ simp (recover, moves, e), pins)
      ],
    )
  where
    oldest : ℕ
    oldest = second.impl.total_written - Chunk.size second.impl

    moved : ReaderZc
    moved = record r { reader_cursor = oldest; pinned_end = oldest }
