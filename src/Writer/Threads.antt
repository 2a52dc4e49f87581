-- ===== src/Writer/Threads.antt =====
-- The buffered writer's user and worker as a step relation.
use cyc_flow.Base.{
  ℕ, ◌+◌, ◌-◌, ◌*◌, ◌≤◌, ◌<◌, ◌≡◌, ◌⊎◌, min, Bool, true, false, List, [], ◌++◌, length, take, drop,
  word,
}
use cyc_flow.Chunk.{Byte}
use cyc_flow.PReg.{PReg}
use cyc_flow.RecBuffer.{RecBuffer}
use cyc_flow.Writer.{
  Writer, next_record, next_batch, commit_record, commit_batch, flush, init, flush_step,
  finish_work, stamp_slots,
}

-- The buffer and its writer; whether the worker is inside a flush, and what it has written of it; all
-- that is in the ring's log; and all that the user has committed.
pub record World : Type 0 where
  pub buffer : RecBuffer
  pub writer : Writer
  pub flushing : Bool
  pub written : ℕ
  pub log : List Byte
  pub committed : List Byte

-- The first `n` slots that are not committed yet, as the user has filled them, with their time stamps set.
unfoldable pub slots : (ℕ → List Byte) → ℕ → Writer → List Byte
slots clock n w = take (n * w.rec_size) (
    drop (w.current_idx * w.rec_size)
      (stamp_slots clock w.rec_size w.timestamp_offset w.current_idx n w.active_buf))

-- The records that the user commits with a count: all of them that the buffer has slots for.
unfoldable pub records_of : (ℕ → List Byte) → ℕ → Writer → List Byte
records_of clock count w = slots clock (min count (w.capacity - w.current_idx)) w

-- One step: the user acquires slots (where the call waits, once the worker is done), fills them, commits
-- them, or flushes; the worker takes a buffer, pushes a part of it, or is done with it; or other threads
-- change the list of clients. Nobody else writes, and the writer is not shut down.
pub data Step (w : World) : World → Type 0 where
  acquire_record :
      (w.writer.current_idx < w.writer.capacity) ⊎ (w.writer.has_work ≡ false)
      → Step w (record w { writer = next_record w.writer })
  acquire_batch :
      (max_records : ℕ) (wait : Bool)
      → (wait ≡ false) ⊎ (w.writer.has_work ≡ false)
      → Step w (record w { writer = (next_batch max_records wait w.writer).1 })
  edit :
      (bytes : List Byte)
      → length bytes ≡ length w.writer.active_buf
      → take (w.writer.current_idx * w.writer.rec_size) bytes
        ≡ take (w.writer.current_idx * w.writer.rec_size) w.writer.active_buf
      → Step w (record w { writer = record w.writer { active_buf = bytes } })
  done_record :
      (clock : ℕ → List Byte)
      → Step w (record w {
        writer = commit_record clock w.writer;
        committed = w.committed ++ records_of clock 1 w.writer;
      })
  done_batch :
      (clock : ℕ → List Byte) (count : ℕ)
      → Step w (record w {
        writer = commit_batch clock count w.writer;
        committed = w.committed ++ records_of clock count w.writer;
      })
  flush_all : w.writer.has_work ≡ false → Step w (record w { writer = flush w.writer })
  pick : w.writer.has_work ≡ true → w.flushing ≡ false → Step w (record w { flushing = true })
  pump :
      (cursors : ℕ → ℕ) (between : RecBuffer → RecBuffer)
      → ((b : RecBuffer) → (between b).impl ≡ b.impl)
      → w.flushing ≡ true
      → w.written < w.writer.bg_count
      → w.buffer.impl.total_written + w.writer.bg_count < word
      → Step w (record w {
        buffer = (flush_step cursors between w.written w.writer w.buffer).1;
        written = (flush_step cursors between w.written w.writer w.buffer).0;
        log =
            w.log
            ++ take
                (((flush_step cursors between w.written w.writer w.buffer).0 - w.written)
                  * w.writer.rec_size)
                (drop (w.written * w.writer.rec_size) w.writer.bg_buf);
      })
  clean :
      w.flushing ≡ true
      → w.writer.bg_count ≤ w.written
      → Step w (record w { writer = finish_work w.writer; flushing = false; written = 0 })
  others : (b : RecBuffer) → b.impl ≡ w.buffer.impl → Step w (record w { buffer = b })

pub data Reach (v : World) : World → Type 0 where
  here : Reach v v
  next : {w x : World} → Reach v w → Step w x → Reach v x

-- The worker and the other threads act while the user waits.
abbrev pub IsNotUser : {w x : World} → Step w x → Type 0
IsNotUser (pick busy resting) = Unit {0}
IsNotUser (pump cursors between quiet inside todo total) = Unit {0}
IsNotUser (clean inside done) = Unit {0}
IsNotUser (others b same) = Unit {0}
IsNotUser _ = ⊥

pub data Waits (v : World) : World → Type 0 where
  begin : Waits v v
  then : {w x : World} → Waits v w → (s : Step w x) → IsNotUser s → Waits v x

-- The records of a flush that are not in the ring yet.
abbrev pub pending : Bool → ℕ → ℕ → List Byte → List Byte
pending false written count bytes = []
pending true written count bytes = drop written (take count bytes)

-- What is committed and not in the ring: the rest of the background buffer, then the active one.
abbrev pub in_flight : World → List Byte
in_flight w =
    pending w.writer.has_work (w.written * w.writer.rec_size)
      (w.writer.bg_count * w.writer.rec_size) w.writer.bg_buf
    ++ take (w.writer.current_idx * w.writer.rec_size) w.writer.active_buf

unfoldable pub start_world : ℕ → Bool → RecBuffer → PReg → List Byte → World
start_world batch_capacity block_on_full b r log = record {
  buffer = b;
  writer = (init batch_capacity block_on_full b r).0;
  flushing = false;
  written = 0;
  log = log;
  committed = [];
}
