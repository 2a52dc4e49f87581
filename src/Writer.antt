-- ===== src/Writer.antt =====
-- RecordWriter of CycLib/RecordWriter.h and RecordWriter.cpp: a writer with two buffers, whose worker
-- pushes one of them into the ring while the user fills the other.
-- `active_buf` and `bg_buf` are what the two pointers lead to. A call that waits is modelled from the
-- end of its wait on. One round of `workerLoop` is the test of `m_hasWork` under the lock, one
-- `flush_step` after another, and `finish_work` under the lock again. The clock is as in WriterZc;
-- `m_earlyThreshold`, which nothing reads, and the thread are left out.
pub mod Bytes
pub mod Threads
pub mod Invariant
pub mod Worker
pub mod Order
use cyc_flow.Base.{
  ℕ, zero, suc, ◌-◌, min, Bool, true, false, not, ◌&&◌, ◌||◌, leb, ltb, ◌==◌, if◌then◌else◌, some,
  List, drop, replicate, add64, mul64,
}
use cyc_flow.Ring.{copy_chunk}
use cyc_flow.Chunk.{Byte}
use cyc_flow.Text.{codes}
use cyc_flow.PReg.{PReg, get_id}
use cyc_flow.RecRule.{RecRule, get_offset_by_id}
use cyc_flow.RecBuffer.{RecBuffer, push, get_available_write_space}
use cyc_flow.WriterZc.{stamp}

pub record Writer : Type 0 where
  pub rule : RecRule
  pub rec_size : ℕ
  pub capacity : ℕ
  pub block_on_full : Bool
  pub timestamp_id : ℕ
  pub timestamp_offset : ℕ
  pub running : Bool
  pub active_buf : List Byte
  pub bg_buf : List Byte
  pub current_idx : ℕ
  pub bg_count : ℕ
  pub has_work : Bool

-- `initBase` and `init`; the registry gives the id of the time stamp.
unfoldable pub init : ℕ → Bool → RecBuffer → PReg → Writer × PReg
init batch_capacity block_on_full b r =
    let (id, r') = get_id (codes "TimeStamp") r in
    (
      record {
        rule = b.rule;
        rec_size = b.impl.chunk_size;
        capacity = batch_capacity;
        block_on_full = block_on_full;
        timestamp_id = id;
        timestamp_offset = get_offset_by_id id b.rule;
        running = true;
        active_buf = replicate (mul64 batch_capacity b.impl.chunk_size) 0;
        bg_buf = replicate (mul64 batch_capacity b.impl.chunk_size) 0;
        current_idx = 0;
        bg_count = 0;
        has_work = false;
      },
      r',
    )

-- What `swapBuffers(true)` and `flush` wait for.
unfoldable pub is_free : Writer → Bool
is_free w = not w.has_work || not w.running

-- Whether the buffers were swapped, and the writer.
unfoldable pub swap_buffers : Bool → Writer → Bool × Writer
swap_buffers blocking w =
    if not blocking && w.has_work then (false, w) else if not w.running then (false, w) else (
      true,
      record w {
        active_buf = w.bg_buf;
        bg_buf = w.active_buf;
        bg_count = w.current_idx;
        current_idx = 0;
        has_work = true;
      },
    )

-- `memset` of `n` bytes to zero from a place on.
unfoldable pub clear_at : ℕ → ℕ → List Byte → List Byte
clear_at place n bytes = copy_chunk (replicate n 0) place n bytes

-- The memory of `n` slots from the current one on is cleared.
unfoldable pub clear_slots : ℕ → Writer → Writer
clear_slots n w = record w {
  active_buf = clear_at (mul64 w.current_idx w.rec_size) (mul64 n w.rec_size) w.active_buf;
}

unfoldable pub next_record : Writer → Writer
next_record w =
    if leb w.capacity w.current_idx then clear_slots 1 (swap_buffers true w).1 else clear_slots 1 w

-- The number of slots given out, and the writer; no slots where a swap was refused.
unfoldable pub next_batch : ℕ → Bool → Writer → ℕ × Writer
next_batch max_records wait w =
    let (swapped, w') = swap_buffers wait w in
    let given = λ (v : Writer). min max_records (v.capacity - v.current_idx) in
    if leb w.capacity w.current_idx
    then (if not swapped then (0, w') else (given w', clear_slots (given w') w'))
    else (given w, clear_slots (given w) w)

-- The time stamp of slot `i` of a buffer.
unfoldable pub stamp_slot : List Byte → ℕ → ℕ → ℕ → List Byte → List Byte
stamp_slot now rec_size offset i = stamp now (add64 (mul64 i rec_size) offset)

-- The loop over the `n` slots from `i` on.
unfoldable pub stamp_slots : (ℕ → List Byte) → ℕ → ℕ → ℕ → ℕ → List Byte → List Byte
stamp_slots clock rec_size offset i zero bytes = bytes
stamp_slots clock rec_size offset i (suc n) bytes =
    stamp_slots clock rec_size offset (add64 i 1) n (stamp_slot (clock i) rec_size offset i bytes)

-- `n` records are stamped, and the index moves past them.
unfoldable pub commit : (ℕ → List Byte) → ℕ → Writer → Writer
commit clock n w = record w {
  active_buf = stamp_slots clock w.rec_size w.timestamp_offset w.current_idx n w.active_buf;
  current_idx = add64 w.current_idx n;
}

unfoldable pub commit_record : (ℕ → List Byte) → Writer → Writer
commit_record clock w = if ltb w.current_idx w.capacity then commit clock 1 w else w

unfoldable pub commit_batch : (ℕ → List Byte) → ℕ → Writer → Writer
commit_batch clock count w =
    let available = w.capacity - w.current_idx in
    if leb count available
    then commit clock count w
    else record (commit clock available w) { current_idx = w.capacity }

-- `flush` before its second wait, the one for `is_free`.
unfoldable pub flush : Writer → Writer
flush w = if ltb 0 w.current_idx then (swap_buffers true w).1 else w

-- One turn of the worker's inner loop: the records written so far, and the buffer. A writer that does
-- not block pushes all at once. `between` is what other threads do between the question and the push.
unfoldable pub flush_step :
    (ℕ → ℕ) → (RecBuffer → RecBuffer) → ℕ → Writer → RecBuffer → ℕ × RecBuffer
flush_step cursors between written w b =
    let (available, asked) = get_available_write_space cursors b in
    let b' = between asked in
    let chunk = min (w.bg_count - written) available in
    if not w.block_on_full
    then (w.bg_count, (push (some w.bg_buf) w.bg_count b).0)
    else if available == 0
    then (written, b')
    else (add64 written chunk, (push (some (drop (mul64 written w.rec_size) w.bg_buf)) chunk b').0)

-- The cleanup after a flush.
unfoldable pub finish_work : Writer → Writer
finish_work w = record w { has_work = false; bg_count = 0 }
