-- ===== src/WriterZc.antt =====
-- RecordWriterZC of CycLib/RecordWriterZC.h and RecordWriterZC.cpp, with its base of
-- CycLib/RecordWriterBase.h and RecordWriterBase.cpp: a writer that pushes a batch from one buffer.
-- The clock is an argument, the eight bytes of each double that it answers in turn; `ts == 0.0` is the
-- test on those bytes, least significant first. What other threads do while the writer pushes is given
-- round by round.
pub mod Loop
pub mod Commit
pub mod Single
use mathlib.Core.Option.{map}
use cyc_flow.Base.{
  ℕ, zero, suc, ◌+◌, ◌-◌, add64, mul64, min, Bool, true, false, not, ◌&&◌, ◌||◌, ltb, ◌==◌,
  if◌then◌else◌, Option, none, some, List, [], ◌∷◌, ◌++◌, take, drop, replicate, slice,
}
use cyc_flow.Ring.{copy_chunk}
use cyc_flow.Chunk.{Byte, raw_byte}
use cyc_flow.Text.{codes}
use cyc_flow.PReg.{PReg, get_id}
use cyc_flow.RecRule.{RecRule, get_offset_by_id}
use cyc_flow.RecBuffer.{RecBuffer, push, get_available_write_space}

pub record WriterZc : Type 0 where
  pub rule : RecRule
  pub rec_size : ℕ
  pub capacity : ℕ
  pub block_on_full : Bool
  pub timestamp_id : ℕ
  pub timestamp_offset : ℕ
  pub running : Bool
  pub pending_count : ℕ
  pub buf : List Byte

-- `initBase` and `init`; the registry gives the id of the time stamp.
unfoldable pub init : ℕ → Bool → RecBuffer → PReg → WriterZc × PReg
init batch_capacity block_on_full b r =
    let (id, r') = get_id (codes "TimeStamp") r in
    (
      record {
        rule = b.rule;
        rec_size = b.impl.chunk_size;
        capacity = batch_capacity;
        block_on_full = block_on_full;
        timestamp_id = id;
        timestamp_offset = get_offset_by_id id b.rule;
        running = true;
        pending_count = 0;
        buf = replicate (mul64 batch_capacity b.impl.chunk_size) 0;
      },
      r',
    )

unfoldable pub stop : WriterZc → WriterZc
stop w = record w { running = false }

-- `memset` of `n` bytes to zero.
unfoldable pub clear_bytes : ℕ → List Byte → List Byte
clear_bytes n bytes = replicate n 0 ++ drop n bytes

unfoldable pub next_batch : ℕ → WriterZc → WriterZc
next_batch max_records w =
    let pending = min max_records w.capacity in
    record w { pending_count = pending; buf = clear_bytes (mul64 pending w.rec_size) w.buf }

-- Seven zero bytes, and a last one with at most the sign.
unfoldable pub is_zero_double : List Byte → Bool
is_zero_double [] = true
is_zero_double (b ∷ []) = b == 0 || b == 128
is_zero_double (b ∷ c ∷ bytes) = b == 0 && is_zero_double (c ∷ bytes)

-- The time stamp at one place: set if it is zero.
unfoldable pub stamp : List Byte → ℕ → List Byte → List Byte
stamp now place bytes =
    if is_zero_double (slice place 8 bytes) then copy_chunk now place 8 bytes else bytes

-- The loop over the records from `i` on.
unfoldable pub stamp_all : (ℕ → List Byte) → ℕ → ℕ → ℕ → ℕ → List Byte → List Byte
stamp_all clock rec_size offset i zero bytes = bytes
stamp_all clock rec_size offset i (suc n) bytes =
    stamp_all clock rec_size offset (i + 1) n
      (stamp (clock i) (add64 (mul64 i rec_size) offset) bytes)

-- One round of the loop of `commitBatch`: what other threads do before the writer asks for space, what
-- the clients answer, whether the writer still runs, and what others do before it pushes.
pub record Round : Type 0 where
  pub during : RecBuffer → RecBuffer
  pub cursors : ℕ → ℕ
  pub still_running : Bool
  pub between : RecBuffer → RecBuffer

-- That loop, for as many rounds as are given: the records pushed, and the buffer.
unfoldable pub push_loop : ℕ → List Round → List Byte → ℕ → ℕ → RecBuffer → ℕ × RecBuffer
push_loop rec_size [] buf count pushed b = (pushed, b)
push_loop rec_size (round ∷ rounds) buf count pushed b =
    let (avail, b') = get_available_write_space round.cursors (round.during b) in
    let chunk = min (count - pushed) avail in
    let again = push_loop rec_size rounds buf count pushed (round.between b') in
    let more =
      push_loop rec_size rounds buf count (add64 pushed chunk)
        (push (some (drop (mul64 pushed rec_size) buf)) chunk (round.between b')).0 in
    if not (ltb pushed count && round.still_running)
    then (pushed, round.during b)
    else if avail == 0
    then again
    else more

-- The writer, the records pushed, and the buffer.
unfoldable pub commit_batch :
    (ℕ → List Byte) → List Round → ℕ → WriterZc → RecBuffer → WriterZc × ℕ × RecBuffer
commit_batch clock rounds count w b =
    let n = min count w.pending_count in
    let stamped = stamp_all clock w.rec_size w.timestamp_offset 0 n w.buf in
    let (pushed, b') = push_loop w.rec_size rounds stamped n 0 b in
    let done : WriterZc = record w { pending_count = 0; buf = stamped } in
    if count == 0
    then (w, 0, b)
    else if w.block_on_full
    then (done, pushed, b')
    else (done, n, (push (some stamped) n b).0)

-- `nextRecord`: the first record of the buffer, cleared.
unfoldable pub next_record : WriterZc → WriterZc
next_record w = record w { buf = clear_bytes w.rec_size w.buf }

-- The loop of `waitForSpace`, for as many rounds as are given: nothing where it still waits.
unfoldable pub wait_loop : ℕ → List Round → RecBuffer → Option RecBuffer
wait_loop needed [] b = none
wait_loop needed (round ∷ rounds) b =
    let (avail, b') = get_available_write_space round.cursors (round.during b) in
    let again = wait_loop needed rounds (round.between b') in
    if not round.still_running
    then some (round.during b)
    else if ltb avail needed
    then again
    else some (round.between b')

unfoldable pub wait_for_space : ℕ → List Round → WriterZc → RecBuffer → Option RecBuffer
wait_for_space needed rounds w b = if w.block_on_full then wait_loop needed rounds b else some b

-- The writer, and the buffer once the call returns; `runs` is what the last test of `m_running` reads.
unfoldable pub commit_record :
    List Byte → List Round → Bool → WriterZc → RecBuffer → WriterZc × Option RecBuffer
commit_record now rounds runs w b =
    let stamped = stamp now w.timestamp_offset w.buf in
    (
      record w { buf = stamped },
      map (λ b'. if runs then (push (some stamped) 1 b').0 else b') (wait_for_space 1 rounds w b),
    )
