-- ===== src/Tests/Buffered.antt =====
-- The buffered reader's theorem at a concrete input, and runs of its two threads.
use cyc_flow.Base.{
  ℕ, ◌+◌, ◌-◌, ◌≤◌, ◌≡◌, refl, true, false, some, [], ◌∷◌, add64, sub64, mul64, arith,
}
use cyc_flow.Chunk
use cyc_flow.Chunk.Log.{Holds}
use cyc_flow.Chunk.Read.{chunks_of}
use cyc_flow.RecBuffer.{add_client, contains, get_total_written_and_size}
use cyc_flow.ReaderZc.{start_cursor}
use cyc_flow.Reader.{Reader, init, plan, fetch, publish, next_batch, swap_buffers, from_active}
use cyc_flow.Reader.Threads.{World, Phase, Step, Reach, start_world}
use cyc_flow.Reader.Invariant.{behind}
use cyc_flow.Reader.Order.{buffered-delivers}
use cyc_flow.Tests.Buffers.{buffer, log, chunks-Holds, buffer-IsUnique}

abbrev begun : World
begun = start_world 90 10 (λ b. b) buffer log

abbrev looked : World
looked = record begun { phase = Phase.planned 1 3 }

abbrev copied : World
copied = record looked {
  reader = (fetch 1 3 looked.buffer looked.reader).1;
  phase = Phase.fetched (fetch 1 3 looked.buffer looked.reader).0;
}

three_to_read : plan begun.buffer begun.reader ≡ some (1, 3)
unfolding start_world init add_client contains start_cursor plan get_total_written_and_size
    Chunk.size sub64
three_to_read = refl

up_to_copy : Reach begun copied
unfolding start_world init
up_to_copy =
    Reach.next (Reach.next Reach.here (Step.look 1 3 refl refl refl three_to_read))
      (Step.load 1 3 refl)

buffered-delivers_example :
    (shown : ℕ) × (copied.seen
      ≡ chunks_of copied.buffer.impl.chunk_size (start_cursor buffer) shown copied.log)
    × Holds copied.buffer.impl copied.log
    × (start_cursor buffer + shown ≤ copied.reader.reader_cursor)
    × (copied.reader.reader_cursor
        ≡ start_cursor buffer
          + shown
          + (copied.reader.active_count - copied.reader.active_idx)
          + behind copied.phase copied.reader.bg_count)
    × (copied.reader.reader_cursor ≤ copied.buffer.impl.total_written)
buffered-delivers_example =
    buffered-delivers 90 10 (λ b. b) buffer log copied chunks-Holds (omega arith) refl
      buffer-IsUnique (omega arith) (omega arith) up_to_copy

-- A reader of one record of one byte whose worker has just copied the byte 5.
abbrev racing : Reader
racing = record {
  self = 90;
  rule = buffer.rule;
  rec_size = 1;
  capacity = 1;
  reader_cursor = 4;
  running = true;
  active_buf = 99 ∷ [];
  bg_buf = 5 ∷ [];
  active_count = 1;
  active_idx = 1;
  bg_count = 0;
  bg_is_full = false;
  finishing = false;
  finish_target = 0;
}

-- After `stop` the user takes a batch before the worker publishes: the next batch is the byte 99 of
-- the old active buffer, which the user has had before, and the byte 5 is lost.
stale_after_stop :
    let stopped : Reader = record racing { running = false } in
    let (first, r) = next_batch 1 stopped in
    let (second, r') = next_batch 1 (publish 1 r) in
    ((first.1 ≡ 0) × (second.1 ≡ 1) × (r'.active_buf ≡ 99 ∷ []))
unfolding next_batch swap_buffers from_active publish add64 mul64
stale_after_stop = (refl, refl, refl)
