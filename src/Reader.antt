-- ===== src/Reader.antt =====
-- RecordReader of CycLib/RecordReader.h and RecordReader.cpp: a reader with two buffers, whose worker
-- copies records out of the ring while the user reads the buffer before.
-- `active_buf` and `bg_buf` are what the two pointers lead to. One round of `workerLoop` is split where
-- other threads may act: `check` under the lock, `plan` with the buffer's counters, `fetch` with the
-- copy and the cursor, and `publish` under the lock again. `next_batch` is the user's call once its
-- wait is over.
pub mod Threads
pub mod Invariant
pub mod Others
pub mod Worker
pub mod Fetch
pub mod User
pub mod Order
use cyc_flow.Base.{
  ℕ, ◌-◌, min, Bool, true, false, not, ◌&&◌, ◌||◌, leb, ltb, ◌==◌, if◌then◌else◌, Option, none,
  some, List, replicate, add64, sub64, mul64,
}
use cyc_flow.Chunk.{Byte}
use cyc_flow.RecRule.{RecRule}
use cyc_flow.RecBuffer.{RecBuffer, read_from_global, get_total_written_and_size, add_client}
use cyc_flow.ReaderZc.{start_cursor}

pub record Reader : Type 0 where
  pub self : ℕ
  pub rule : RecRule
  pub rec_size : ℕ
  pub capacity : ℕ
  pub reader_cursor : ℕ
  pub running : Bool
  pub active_buf : List Byte
  pub bg_buf : List Byte
  pub active_count : ℕ
  pub active_idx : ℕ
  pub bg_count : ℕ
  pub bg_is_full : Bool
  pub finishing : Bool
  pub finish_target : ℕ

-- `between` is what other threads do after the counters are read and before the reader is a client.
unfoldable pub init : ℕ → ℕ → (RecBuffer → RecBuffer) → RecBuffer → Reader × RecBuffer
init self batch_capacity between b = (
  record {
    self = self;
    rule = b.rule;
    rec_size = b.impl.chunk_size;
    capacity = batch_capacity;
    reader_cursor = start_cursor b;
    running = true;
    active_buf = replicate (mul64 batch_capacity b.impl.chunk_size) 0;
    bg_buf = replicate (mul64 batch_capacity b.impl.chunk_size) 0;
    active_count = 0;
    active_idx = 0;
    bg_count = 0;
    bg_is_full = false;
    finishing = false;
    finish_target = 0;
  },
  add_client self (between b),
)

-- `finish`, up to the join of the worker.
unfoldable pub finish : RecBuffer → Reader → Reader
finish b r =
    if not r.running then r else record r { finishing = true; finish_target = b.impl.total_written }

unfoldable pub is_finished : Reader → Bool
is_finished r = r.finishing && leb r.finish_target r.reader_cursor

-- What the worker waits for.
unfoldable pub has_work : RecBuffer → Reader → Bool
has_work b r =
    if not r.running
    then true
    else if r.bg_is_full
    then false
    else if is_finished r
    then true
    else ltb 0 (sub64 b.impl.total_written r.reader_cursor)

-- Whether the worker goes on, and the reader.
unfoldable pub check : Reader → Bool × Reader
check r =
    if not r.running
    then (false, r)
    else if is_finished r
    then (false, record r { running = false })
    else (true, r)

-- The cursor and the number of records to read, `none` where there is nothing new.
unfoldable pub plan : RecBuffer → Reader → Option (ℕ × ℕ)
plan b r =
    let (total, size) = get_total_written_and_size b in
    let lag = sub64 total r.reader_cursor in
    if lag == 0
    then none
    else if ltb size lag
    then some (sub64 total size, min size r.capacity)
    else some (r.reader_cursor, min lag r.capacity)

-- The records read, and the reader with them in its background buffer and its cursor behind them.
unfoldable pub fetch : ℕ → ℕ → RecBuffer → Reader → ℕ × Reader
fetch cursor count b r =
    let (read, dest) = read_from_global cursor (some r.bg_buf) count b in
    let filled : List Byte = elim dest [ none ↦ r.bg_buf | some bytes ↦ bytes ] in
    if read == 0 && ltb 0 count
    then (0, record r { bg_buf = filled })
    else (read, record r { bg_buf = filled; reader_cursor = add64 cursor read })

unfoldable pub publish : ℕ → Reader → Reader
publish read r = if ltb 0 read then record r { bg_count = read; bg_is_full = true } else r

unfoldable pub swap_buffers : Reader → Bool × Reader
swap_buffers r = if not r.bg_is_full && r.running then (false, r) else (
  true,
  record r {
    active_buf = r.bg_buf;
    bg_buf = r.active_buf;
    active_count = r.bg_count;
    active_idx = 0;
    bg_count = 0;
    bg_is_full = false;
  },
)

-- A batch is the place of its first byte in the active buffer, `none` for the null pointer, and its
-- number of records.
unfoldable pub from_active : ℕ → Reader → (Option ℕ × ℕ) × Reader
from_active max_records r =
    let count = min max_records (r.active_count - r.active_idx) in
    if leb r.active_count r.active_idx then ((none, 0), r) else (
      (some (mul64 r.active_idx r.rec_size), count),
      record r { active_idx = add64 r.active_idx count },
    )

unfoldable pub next_batch : ℕ → Reader → (Option ℕ × ℕ) × Reader
next_batch max_records r =
    let (swapped, r') = swap_buffers r in
    if leb r.active_count r.active_idx
    then (if not swapped then ((none, 0), r') else from_active max_records r')
    else from_active max_records r

-- One whole round of the worker, with no other thread in between: whether it goes on, and the reader.
unfoldable pub work_round : RecBuffer → Reader → Bool × Reader
work_round b r =
    let (goes, r') = check r in
    if not goes then (false, r') else elim (plan b r') [
      | none ↦ (true, r')
      | some job ↦ (true, publish (fetch job.0 job.1 b r').0 (fetch job.0 job.1 b r').1)
    ]
