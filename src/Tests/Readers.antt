-- ===== src/Tests/Readers.antt =====
-- The zero-copy reader's theorems at concrete inputs.
use cyc_flow.Base.{ℕ, ◌+◌, ◌-◌, ◌≤◌, ◌<◌, ◌≡◌, ◌⊎◌, refl, true, false, some, ◌++◌, arith}
use cyc_flow.Chunk.{Byte}
use cyc_flow.Chunk
use cyc_flow.Chunk.Log.{Holds}
use cyc_flow.Chunk.Read.{chunks_of}
use cyc_flow.RecBuffer.Read.{IsKept}
use cyc_flow.ReaderZc
use cyc_flow.RecBuffer.{get_available_write_space, get_total_written_and_size}
use cyc_flow.ReaderZc.{ReaderZc, no_batch, or_no_batch, start_cursor, is_finished, look, take_batch}
use cyc_flow.ReaderZc.Batch.{Pins, take_batch-Pins, take_batch-overrun}
use cyc_flow.ReaderZc.Delivery.{World, Step, Reach, looked, batch_bytes, start_world}
use cyc_flow.ReaderZc.Delivery.Order.{reader-delivers}
use cyc_flow.Tests.Buffers.{buffer, log, chunks-Holds, buffer-IsKept, buffer-IsUnique}

abbrev reader : ReaderZc
reader = record {
  self = 70;
  rule = buffer.rule;
  rec_size = 2;
  capacity = 10;
  reader_cursor = 2;
  running = true;
  pinned_end = 2;
  finishing = false;
  finish_target = 0;
}

held : Chunk.size buffer.impl ≡ 3
unfolding Chunk.size
held = refl

still_reading : is_finished reader ≡ false
unfolding is_finished
still_reading = refl

take_batch-Pins_example :
    (ptr n : ℕ) × (take_batch 5 buffer buffer buffer reader
      ≡ (record { data_ptr = some ptr; count = n }, record reader { pinned_end = 2 + n }))
    × Pins 5 buffer log 2 ptr n
take_batch-Pins_example =
    take_batch-Pins buffer chunks-Holds buffer buffer 5 reader refl still_reading buffer-IsKept
      (omega arith) (omega arith)

abbrev behind : ReaderZc
behind = record reader { reader_cursor = 0; pinned_end = 0 }

late : is_finished behind ≡ false
unfolding is_finished
late = refl

-- The first record has been overwritten: the reader goes on with the second.
take_batch-overrun_example :
    let oldest = buffer.impl.total_written - Chunk.size buffer.impl in
    (0 < oldest)
    × (((oldest + Chunk.size buffer.impl < buffer.impl.total_written)
          × (take_batch 5 buffer buffer buffer behind
              ≡ (no_batch, record behind { reader_cursor = oldest; pinned_end = oldest })))
        ⊎ ((ptr n : ℕ) × (take_batch 5 buffer buffer buffer behind ≡ (
          record { data_ptr = some ptr; count = n },
          record behind { reader_cursor = oldest; pinned_end = oldest + n },
        ))
            × Pins 5 buffer log oldest ptr n))
take_batch-overrun_example =
    take_batch-overrun buffer buffer buffer 5 behind chunks-Holds chunks-Holds chunks-Holds refl
      late (omega (arith, held)) (omega (arith, held)) (omega (arith, held)) (omega arith)
      (omega arith)

abbrev world : World
world = start_world 90 10 (λ b. b) buffer log

-- The reader's cursor is 1; the others' are as before.
abbrev told : World
told = record world {
  buffer = (get_available_write_space (λ client. 1) world.buffer).1;
  told = (get_available_write_space (λ client. 1) world.buffer).0;
}

abbrev reading : World
reading = record told {
  reader = (look 5 told.buffer told.reader).1;
  phase = looked 5 (look 5 told.buffer told.reader).0;
  seen = told.seen ++ batch_bytes told.buffer (or_no_batch (look 5 told.buffer told.reader).0);
}

first_read : Reach world reading
unfolding start_world ReaderZc.init start_cursor get_total_written_and_size Chunk.size
first_read =
    Reach.next (Reach.next Reach.here (Step.ask (λ client. 1) (omega arith)))
      (Step.first_look 5 (omega arith) refl refl)

-- A reader that comes in late and reads, while the writer has asked for space.
reader-delivers_example :
    (reading.seen
      ≡ chunks_of reading.buffer.impl.chunk_size
          (start_cursor buffer)
          (reading.reader.pinned_end - start_cursor buffer)
          reading.log)
    × Holds reading.buffer.impl reading.log
    × IsKept reading.reader.reader_cursor reading.buffer
    × (start_cursor buffer ≤ reading.reader.reader_cursor)
    × (reading.reader.reader_cursor ≤ reading.reader.pinned_end)
    × (reading.reader.pinned_end ≤ reading.buffer.impl.total_written)
reader-delivers_example =
    reader-delivers 90 10 (λ b. b) buffer log reading chunks-Holds (omega arith) refl
      buffer-IsUnique first_read
