-- ===== src/Reader/Threads.antt =====
-- The buffered reader's worker and user among a writer and other clients, as a step relation. The writer
-- asks for space and pushes in separate steps.
use cyc_flow.Base.{
  ℕ, ◌+◌, ◌-◌, ◌*◌, ◌≤◌, ◌<◌, ◌≡◌, ◌≢◌, true, false, Option, none, some, List, [], ◌++◌, length,
  take, slice, word,
}
use cyc_flow.Chunk.{Byte}
use cyc_flow.RecBuffer.{
  RecBuffer, no_cursor, add_client, remove_client, get_available_write_space, push,
}
use cyc_flow.Reader.{Reader, init, finish, check, plan, fetch, publish, next_batch}

-- Where the worker is in its round.
pub data Phase : Type 0 where
  idle : Phase
  planned : ℕ → ℕ → Phase
  fetched : ℕ → Phase

-- `told` is what the writer may still push of the space that it was told.
pub record World : Type 0 where
  pub buffer : RecBuffer
  pub reader : Reader
  pub phase : Phase
  pub told : ℕ
  pub log : List Byte
  pub seen : List Byte

-- The bytes that a batch shows to its user.
unfoldable pub batch_bytes : (Option ℕ × ℕ) × Reader → List Byte
batch_bytes ((none, n), r) = []
batch_bytes ((some place, n), r) = slice place (n * r.rec_size) r.active_buf

-- One step: the writer asks for space, where the reader answers with its cursor of now or of before, or
-- pushes within what it was told, another client that comes or
-- goes, `finish`, a part of the worker's round, or the user's `nextBatch` after its wait. There is no
-- `stop`: after it the worker may still be in the middle of a round.
pub data Step (w : World) : World → Type 0 where
  ask :
      (cursors : ℕ → ℕ)
      → cursors w.reader.self ≤ w.reader.reader_cursor
      → Step w (record w {
        buffer = (get_available_write_space cursors w.buffer).1;
        told = (get_available_write_space cursors w.buffer).0;
      })
  write :
      (source : List Byte) (count : ℕ)
      → count ≤ w.told
      → count * w.buffer.impl.chunk_size ≤ length source
      → count * w.buffer.impl.chunk_size < word
      → w.buffer.impl.total_written + count < no_cursor
      → Step w (record w {
        buffer = (push (some source) count w.buffer).0;
        told = w.told - count;
        log = w.log ++ take (count * w.buffer.impl.chunk_size) source;
      })
  join : (client : ℕ) → Step w (record w { buffer = add_client client w.buffer })
  leave :
      (client : ℕ)
      → client ≢ w.reader.self
      → Step w (record w { buffer = remove_client client w.buffer })
  end : Step w (record w { reader = finish w.buffer w.reader })
  stand_by : w.phase ≡ Phase.idle → Step w (record w { reader = (check w.reader).1 })
  look :
      (cursor count : ℕ)
      → w.phase ≡ Phase.idle
      → w.reader.running ≡ true
      → w.reader.bg_is_full ≡ false
      → plan w.buffer w.reader ≡ some (cursor, count)
      → Step w (record w { phase = Phase.planned cursor count })
  load :
      (cursor count : ℕ)
      → w.phase ≡ Phase.planned cursor count
      → Step w (record w {
        reader = (fetch cursor count w.buffer w.reader).1;
        phase = Phase.fetched (fetch cursor count w.buffer w.reader).0;
      })
  hand_over :
      (read : ℕ)
      → w.phase ≡ Phase.fetched read
      → Step w (record w { reader = publish read w.reader; phase = Phase.idle })
  take_out :
      (max_records : ℕ)
      → Step w (record w {
        reader = (next_batch max_records w.reader).1;
        seen = w.seen ++ batch_bytes (next_batch max_records w.reader);
      })

pub data Reach (v : World) : World → Type 0 where
  here : Reach v v
  next : {w x : World} → Reach v w → Step w x → Reach v x

unfoldable pub start_world : ℕ → ℕ → (RecBuffer → RecBuffer) → RecBuffer → List Byte → World
start_world self batch_capacity between b log =
    let (reader, buffer) = init self batch_capacity between b in
    record { buffer = buffer; reader = reader; phase = Phase.idle; told = 0; log = log; seen = [] }
