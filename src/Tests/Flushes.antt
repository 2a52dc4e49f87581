-- ===== src/Tests/Flushes.antt =====
-- The buffered writer's theorems on a run of its user and its worker.
use cyc_flow.Base.{
  ℕ, ◌+◌, ◌*◌, ◌≡◌, refl, inr, true, false, List, [], ◌∷◌, ◌++◌, replicate, take, drop, word, ◌-◌,
  ◌<◌, add64, mul64, arith,
}
use cyc_flow.Chunk.{Byte}
use cyc_flow.Chunk.Log.{Holds}
use cyc_flow.PReg.{empty, get_id, register, find}
use cyc_flow.RecRule.{get_offset_by_id}
use cyc_flow.RecRule
use cyc_flow.WriterZc.{stamp, is_zero_double}
use cyc_flow.Ring.{copy_chunk}
use cyc_flow.Writer.{
  init, is_free, flush, flush_step, finish_work, swap_buffers, commit_batch, commit, stamp_slots,
  stamp_slot,
}
use cyc_flow.Writer.Threads.{World, Step, Reach, Waits, slots, records_of, in_flight, start_world}
use cyc_flow.Writer.Order.{buffered-writes, flush-delivers}
use cyc_flow.Tests.Buffers.{buffer, log, chunks-Holds}

abbrev clock : ℕ → List Byte
clock i = replicate 8 7

abbrev begun : World
begun = start_world 4 false buffer empty log

-- The first record is filled with the bytes 9 and 10.
abbrev bytes : List Byte
bytes = 9 ∷ 10 ∷ 0 ∷ 0 ∷ 0 ∷ 0 ∷ 0 ∷ 0 ∷ []

abbrev filled : World
filled = record begun { writer = record begun.writer { active_buf = bytes } }

abbrev grown : World → ℕ → World
grown w n = record w { writer = commit_batch clock n w.writer }

up_to_fill : Reach begun filled
unfolding start_world init mul64
up_to_fill = Reach.next Reach.here (Step.edit bytes refl refl)

abbrev committed_two : World
committed_two = record filled {
  writer = commit_batch clock 2 filled.writer;
  committed = filled.committed ++ records_of clock 2 filled.writer;
}

abbrev flushing : World
flushing = record committed_two { writer = flush committed_two.writer }

abbrev picked : World
picked = record flushing { flushing = true }

up_to_commit : Reach begun committed_two
unfolding start_world init mul64 commit_batch commit stamp_slots stamp_slot add64
up_to_commit = Reach.next up_to_fill (Step.done_batch clock 2)

abbrev cursors : ℕ → ℕ
cursors client = 4

abbrev pumped : World
pumped = record picked {
  buffer = (flush_step cursors (λ b. b) picked.written picked.writer picked.buffer).1;
  written = (flush_step cursors (λ b. b) picked.written picked.writer picked.buffer).0;
  log =
      picked.log
      ++ take
          (((flush_step cursors (λ b. b) picked.written picked.writer picked.buffer).0
              - picked.written)
            * picked.writer.rec_size)
          (drop (picked.written * picked.writer.rec_size) picked.writer.bg_buf);
}

abbrev cleaned : World
cleaned = record pumped { writer = finish_work pumped.writer; flushing = false; written = 0 }

while_waiting : Waits flushing cleaned
unfolding start_world init mul64 commit_batch commit flush swap_buffers stamp_slots stamp_slot add64
    flush_step
while_waiting =
    Waits.then
      (Waits.then (Waits.then Waits.begin (Step.pick refl refl) tt)
        (Step.pump cursors (λ b. b) (λ b. refl) refl (omega arith) (omega arith)) tt)
      (Step.clean refl (omega arith)) tt

small : 4 * buffer.impl.chunk_size + begun.writer.timestamp_offset < word
unfolding start_world init get_offset_by_id get_id register find empty RecRule.blank
small = omega arith

free : is_free cleaned.writer ≡ true
unfolding is_free finish_work
free = refl

rested : committed_two.writer.has_work ≡ false
unfolding start_world init commit_batch commit
rested = refl

-- The two records of the test are in the slots, of two bytes each, stamped one over the other.
two_records : committed_two.committed ≡ 9 ∷ 10 ∷ 7 ∷ 7 ∷ []
unfolding start_world init records_of slots mul64 stamp_slots stamp_slot add64 stamp is_zero_double
    copy_chunk commit_batch get_offset_by_id get_id find empty register RecRule.blank
two_records = refl

buffered-writes_example :
    Holds committed_two.buffer.impl committed_two.log
    × (committed_two.log ++ in_flight committed_two ≡ log ++ committed_two.committed)
buffered-writes_example =
    buffered-writes 4 false buffer empty log committed_two chunks-Holds small up_to_commit

flush-delivers_example : Holds cleaned.buffer.impl (log ++ committed_two.committed)
flush-delivers_example =
    flush-delivers 4 false buffer empty log committed_two cleaned chunks-Holds small up_to_commit
      (inr rested) while_waiting free
