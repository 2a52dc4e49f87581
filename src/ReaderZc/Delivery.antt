-- ===== src/ReaderZc/Delivery.antt =====
-- A zero-copy reader among a writer and other clients, as a step relation. The writer asks for space
-- and pushes in separate steps, the reader looks into the buffer in separate steps.
pub mod Invariant
pub mod Reading
pub mod Order
use cyc_flow.Base.{
  ℕ, ◌+◌, ◌*◌, ◌≤◌, ◌<◌, ◌≡◌, ◌≢◌, ◌-◌, Bool, true, false, Option, none, some, List, [], ◌++◌,
  length, take, slice, word,
}
use cyc_flow.Chunk.{Byte}
use cyc_flow.RecBuffer.{
  RecBuffer, no_cursor, add_client, remove_client, get_available_write_space, push,
}
use cyc_flow.ReaderZc.{ReaderZc, RecordBatch, or_no_batch, init, release, look, overrun, pin}

-- The bytes that a batch shows to its user.
unfoldable pub batch_bytes : RecBuffer → RecordBatch → List Byte
batch_bytes b batch = elim batch.data_ptr [
  | none ↦ []
  | some ptr ↦ slice ptr (batch.count * b.impl.chunk_size) b.impl.buffer.array
]

-- Where `nextBatch` is: before its first look, or behind it, or behind a second look that moved it.
pub data Phase : Type 0 where
  ready : Phase
  missed : ℕ → Phase
  moved : ℕ → Phase

abbrev pub looked : ℕ → Option RecordBatch → Phase
looked max_records none = Phase.missed max_records
looked max_records (some batch) = Phase.ready

abbrev pub checked : ℕ → Bool → Phase
checked max_records false = Phase.ready
checked max_records true = Phase.moved max_records

-- The buffer and one of its readers, what the writer may still push of the space that it was told, all
-- that was ever written, and all that the reader was shown.
pub record World : Type 0 where
  pub buffer : RecBuffer
  pub reader : ReaderZc
  pub phase : Phase
  pub told : ℕ
  pub log : List Byte
  pub seen : List Byte

-- One step of one thread: the writer asks for space, where the reader answers with its cursor of now or
-- of before, or pushes within what it was told; another client comes or goes; `stop` and `finish` (or any
-- change of their flags); `release`; and the three looks of `nextBatch`, for a reader that holds no batch.
pub data Step (w : World) : World → Type 0 where
  ask :
      (cursors : ℕ → ℕ)
      → cursors w.reader.self ≤ w.reader.reader_cursor
      → Step w (record w {
        buffer = (get_available_write_space cursors w.buffer).1;
        told = (get_available_write_space cursors w.buffer).0;
      })
  write :
      (source : List Byte) (count : ℕ)
      → count ≤ w.told
      → count * w.buffer.impl.chunk_size ≤ length source
      → count * w.buffer.impl.chunk_size < word
      → w.buffer.impl.total_written + count < no_cursor
      → Step w (record w {
        buffer = (push (some source) count w.buffer).0;
        told = w.told - count;
        log = w.log ++ take (count * w.buffer.impl.chunk_size) source;
      })
  join : (client : ℕ) → Step w (record w { buffer = add_client client w.buffer })
  leave :
      (client : ℕ)
      → client ≢ w.reader.self
      → Step w (record w { buffer = remove_client client w.buffer })
  signal :
      (running finishing : Bool) (target : ℕ)
      → Step w (record w {
        reader = record w.reader {
          running = running;
          finishing = finishing;
          finish_target = target;
        };
      })
  let_go : w.phase ≡ Phase.ready → Step w (record w { reader = (release w.reader).0 })
  first_look :
      (max_records : ℕ)
      → 0 < max_records
      → w.phase ≡ Phase.ready
      → w.reader.pinned_end ≡ w.reader.reader_cursor
      → Step w (record w {
        reader = (look max_records w.buffer w.reader).1;
        phase = looked max_records (look max_records w.buffer w.reader).0;
        seen = w.seen ++ batch_bytes w.buffer (or_no_batch (look max_records w.buffer w.reader).0);
      })
  second_look :
      (max_records : ℕ)
      → w.phase ≡ Phase.missed max_records
      → Step w (record w {
        reader = (overrun w.buffer w.reader).1;
        phase = checked max_records (overrun w.buffer w.reader).0;
      })
  third_look :
      (max_records : ℕ)
      → w.phase ≡ Phase.moved max_records
      → Step w (record w {
        reader = (pin max_records w.buffer w.reader).1;
        phase = Phase.ready;
        seen = w.seen ++ batch_bytes w.buffer (or_no_batch (pin max_records w.buffer w.reader).0);
      })

pub data Reach (v : World) : World → Type 0 where
  here : Reach v v
  next : {w x : World} → Reach v w → Step w x → Reach v x

-- A reader made by `init`, before it has read anything, and a writer that has yet to ask for space.
unfoldable pub start_world : ℕ → ℕ → (RecBuffer → RecBuffer) → RecBuffer → List Byte → World
start_world self batch_capacity between b log =
    let (reader, buffer) = init self batch_capacity between b in
    record { buffer = buffer; reader = reader; phase = Phase.ready; told = 0; log = log; seen = [] }
