-- ===== src/ReaderZc.antt =====
-- RecordReaderZC of CycLib/RecordReaderZC.h and RecordReaderZC.cpp, with its base of
-- CycLib/RecordReaderBase.h and RecordReaderBase.cpp: a reader that pins a run of records inside the
-- ring instead of copying them.
-- Atomics and the fields under `m_mtx` are plain fields: each function below is a run between two
-- points where other threads act, and what these make of the buffer there is an argument. The reader's address is a number, as in
-- RecBuffer. A batch's rule and record size are the reader's.
pub mod Batch
pub mod Delivery
use cyc_flow.Base.{
  ℕ, ◌-◌, min, Bool, true, false, not, ◌&&◌, ◌||◌, leb, ltb, ◌==◌, if◌then◌else◌, Option, none,
  some, add64, sub64,
}
use cyc_flow.RecRule.{RecRule}
use cyc_flow.RecBuffer.{
  RecBuffer, get_batch_ptr_from_global, get_total_written_and_size, add_client,
}

pub record ReaderZc : Type 0 where
  pub self : ℕ
  pub rule : RecRule
  pub rec_size : ℕ
  pub capacity : ℕ
  pub reader_cursor : ℕ
  pub running : Bool
  pub pinned_end : ℕ
  pub finishing : Bool
  pub finish_target : ℕ

-- `data` is the slot of the first byte, `none` for the null pointer.
pub record RecordBatch : Type 0 where
  pub data_ptr : Option ℕ
  pub count : ℕ

unfoldable pub is_valid : RecordBatch → Bool
is_valid batch = elim batch.data_ptr [ none ↦ false | some ptr ↦ ltb 0 batch.count ]

unfoldable pub no_batch : RecordBatch
no_batch = record { data_ptr = none; count = 0 }

-- Where `initBase` starts: at the oldest record held.
unfoldable pub start_cursor : RecBuffer → ℕ
start_cursor b =
    let (total, size) = get_total_written_and_size b in if ltb size total then total - size else 0

-- `initBase` and `init`: the reader, and the buffer that it is now a client of. `between` is what
-- other threads do after the counters are read and before the reader is a client.
unfoldable pub init : ℕ → ℕ → (RecBuffer → RecBuffer) → RecBuffer → ReaderZc × RecBuffer
init self batch_capacity between b = (
  record {
    self = self;
    rule = b.rule;
    rec_size = b.impl.chunk_size;
    capacity = batch_capacity;
    reader_cursor = start_cursor b;
    running = true;
    pinned_end = start_cursor b;
    finishing = false;
    finish_target = 0;
  },
  add_client self (between b),
)

unfoldable pub get_cursor : ReaderZc → ℕ
get_cursor r = r.reader_cursor

unfoldable pub stop : ReaderZc → ReaderZc
stop r = record r { running = false }

unfoldable pub finish : RecBuffer → ReaderZc → ReaderZc
finish b r = record r { finish_target = b.impl.total_written; finishing = true }

-- The reader, and whether it calls `notifyWriters`.
unfoldable pub release : ReaderZc → ReaderZc × Bool
release r =
    if r.pinned_end == r.reader_cursor
    then (r, false)
    else (record r { reader_cursor = r.pinned_end }, true)

-- `finishing && cursor >= finishT`.
unfoldable pub is_finished : ReaderZc → Bool
is_finished r = r.finishing && leb r.finish_target r.reader_cursor

-- What the wait of `nextBatch` waits for.
unfoldable pub has_news : RecBuffer → ReaderZc → Bool
has_news b r = not r.running || is_finished r || ltb r.reader_cursor b.impl.total_written

-- `getBatchPtrFromGlobal` at the reader's cursor: the batch, and the reader that pins it.
unfoldable pub pin : ℕ → RecBuffer → ReaderZc → Option RecordBatch × ReaderZc
pin max_records b r =
    let (ptr, contiguous) = get_batch_ptr_from_global r.reader_cursor max_records b in
    elim ptr [
      | none ↦ (none, r)
      | some slot ↦ if contiguous == 0 then (none, r) else (
        some (record { data_ptr = some slot; count = contiguous }),
        record r { pinned_end = add64 r.reader_cursor contiguous },
      )
    ]

-- `nextBatch` from the end of its wait to its first look into the buffer: `none` where no batch is
-- found and it goes on with `overrun`.
unfoldable pub look : ℕ → RecBuffer → ReaderZc → Option RecordBatch × ReaderZc
look max_records b r =
    if not r.running
    then (some no_batch, r)
    else if is_finished r
    then (some no_batch, stop r)
    else pin max_records b r

-- The second look: whether the reader was overrun, and the reader, moved to the oldest record held.
unfoldable pub overrun : RecBuffer → ReaderZc → Bool × ReaderZc
overrun b r =
    let (total, size) = get_total_written_and_size b in
    let new_cursor = sub64 total size in
    if ltb 0 size && ltb r.reader_cursor total && ltb size (sub64 total r.reader_cursor)
    then (true, record r { reader_cursor = new_cursor; pinned_end = new_cursor })
    else (false, r)

abbrev pub or_no_batch : Option RecordBatch → RecordBatch
or_no_batch none = no_batch
or_no_batch (some batch) = batch

-- The branch after a missing batch: the second look, and for a reader that moved a third one.
unfoldable pub recover : ℕ → RecBuffer → RecBuffer → ReaderZc → RecordBatch × ReaderZc
recover max_records second third r =
    let (moved, r') = overrun second r in
    let (found, r'') = pin max_records third r' in
    if moved then (or_no_batch found, r'') else (no_batch, r')

-- `nextBatch` after its wait, for a reader that has released its last batch, with the buffer as each
-- of its three looks finds it.
unfoldable pub take_batch :
    ℕ → RecBuffer → RecBuffer → RecBuffer → ReaderZc → RecordBatch × ReaderZc
take_batch max_records first second third r =
    let (found, r') = look max_records first r in
    elim found [ none ↦ recover max_records second third r' | some batch ↦ (batch, r') ]

-- The batch, the reader, and the buffer as the last look finds it; the other threads act during the
-- wait, and before the second and the third look.
unfoldable pub next_batch :
    ℕ
    → Bool
    → (RecBuffer × ReaderZc → RecBuffer × ReaderZc)
    → (RecBuffer → RecBuffer)
    → (RecBuffer → RecBuffer)
    → RecBuffer × ReaderZc
    → RecordBatch × ReaderZc × RecBuffer
next_batch max_records wait during before_second before_third (b, r) =
    let released = (release r).0 in
    let limited = min max_records r.capacity in
    let (first, r') = if wait then during (b, released) else (b, released) in
    let second = before_second first in
    let third = before_third second in
    let (batch, r'') = take_batch limited first second third r' in
    if is_finished released
    then (no_batch, stop released, b)
    else if not released.running
    then (no_batch, released, b)
    else (batch, r'', third)
