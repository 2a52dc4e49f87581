-- ===== src/Reader/Invariant.antt =====
-- What holds of the buffered reader between steps.
use native.Mathlib.Nat.{add-mul, mul-le-mul_right}
use cyc_flow.Base.{
  ℕ, ◌+◌, ◌-◌, ◌*◌, ◌≤◌, ◌<◌, ◌≡◌, ap, sym, ◌∙◌, ◌⊎◌, true, false, List, ◌++◌, length, take, drop,
  slice, drop-take, drop-drop, take-take, word, arith,
}
use cyc_flow.Chunk.{Byte}
use cyc_flow.Chunk.Log.{Holds}
use cyc_flow.Chunk.Read.{chunks_of, chunks_of-append}
use cyc_flow.RecBuffer.{RecBuffer, no_cursor, contains}
use cyc_flow.RecBuffer.Space.{Covers}
use cyc_flow.RecBuffer.Read.{IsKept}
use cyc_flow.RecBuffer.Clients.{IsUnique}
use cyc_flow.Reader.{Reader}
use cyc_flow.Reader.Threads.{World, Phase}

-- The records in the background buffer, by the place of the worker.
abbrev pub behind : Phase → ℕ → ℕ
behind Phase.idle bg_count = bg_count
behind (Phase.planned cursor count) bg_count = bg_count
behind (Phase.fetched read) bg_count = read

-- What the worker knows at each place of its round.
abbrev pub InPhase : Phase → Reader → RecBuffer → Type 0
InPhase Phase.idle r b = (r.bg_is_full ≡ true) ⊎ (r.bg_count ≡ 0)
InPhase (Phase.planned cursor count) r b =
    (r.bg_is_full ≡ false)
    × (r.running ≡ true)
    × (r.bg_count ≡ 0)
    × (cursor ≡ r.reader_cursor)
    × (0 < count)
    × (count ≤ r.capacity)
    × (cursor + count ≤ b.impl.total_written)
InPhase (Phase.fetched read) r b = (r.bg_is_full ≡ false) × (r.running ≡ true) × (r.bg_count ≡ 0)

-- `base` is the number of the first record in the active buffer.
pub record InOrder (start base : ℕ) (w : World) : Type 0 where
  pub holds : Holds w.buffer.impl w.log
  pub small : w.buffer.impl.total_written < no_cursor
  pub unique : IsUnique w.buffer.clients
  pub known : contains w.reader.self w.buffer.clients ≡ true
  pub kept : IsKept w.reader.reader_cursor w.buffer
  pub sized : w.reader.rec_size ≡ w.buffer.impl.chunk_size
  pub capacity_positive : 0 < w.reader.capacity
  pub bg_room : w.reader.capacity * w.buffer.impl.chunk_size ≤ length w.reader.bg_buf
  pub active_room : w.reader.capacity * w.buffer.impl.chunk_size ≤ length w.reader.active_buf
  pub short : w.reader.active_count * w.buffer.impl.chunk_size < word
  pub bg_short : behind w.phase w.reader.bg_count ≤ w.reader.capacity
  pub capacity_short : w.reader.capacity * w.buffer.impl.chunk_size < word
  pub in_phase : InPhase w.phase w.reader w.buffer
  pub from_start : start ≤ base
  pub idx_in : w.reader.active_idx ≤ w.reader.active_count
  pub next_cursor :
      w.reader.reader_cursor ≡ base + w.reader.active_count + behind w.phase w.reader.bg_count
  pub active :
      take (w.reader.active_count * w.buffer.impl.chunk_size) w.reader.active_buf
      ≡ chunks_of w.buffer.impl.chunk_size base w.reader.active_count w.log
  pub background :
      take (behind w.phase w.reader.bg_count * w.buffer.impl.chunk_size) w.reader.bg_buf
      ≡ chunks_of w.buffer.impl.chunk_size
          (base + w.reader.active_count)
          (behind w.phase w.reader.bg_count)
          w.log
  pub covers : Covers w.buffer w.reader.reader_cursor w.told
  pub shown :
      w.seen ≡ chunks_of w.buffer.impl.chunk_size start (base + w.reader.active_idx - start) w.log

-- A run of written records stays as the log grows.
pub chunks_of-grown :
    (b : RecBuffer) {log : List Byte} (i n : ℕ) (more : List Byte)
    → Holds b.impl log
    → i + n ≤ b.impl.total_written
    → chunks_of b.impl.chunk_size i n (log ++ more) ≡ chunks_of b.impl.chunk_size i n log
chunks_of-grown b {log} i n more h fits = chunks_of-append b.impl.chunk_size i n log more (
    omega
      (arith, h.counted, add-mul i n b.impl.chunk_size, mul-le-mul_right b.impl.chunk_size fits))

-- A run inside a prefix is that run of the whole.
slice-take :
    (c i k n : ℕ) (xs : List Byte)
    → i + k ≤ n
    → slice (i * c) (k * c) (take (n * c) xs) ≡ slice (i * c) (k * c) xs
slice-take c i k n xs fits =
    ap (take (k * c)) (drop-take (i * c) (n * c) xs)
    ∙ take-take (k * c) (n * c - i * c) (drop (i * c) xs)
        (omega (arith, add-mul i k c, mul-le-mul_right c fits))

-- A run of a buffer that holds a run of the log.
pub slice-chunks_of :
    (c i k n base : ℕ) (xs log : List Byte)
    → take (n * c) xs ≡ chunks_of c base n log
    → i + k ≤ n
    → slice (i * c) (k * c) xs ≡ chunks_of c (base + i) k log
slice-chunks_of c i k n base xs log e fits =
    sym (slice-take c i k n xs fits)
    ∙ ap (slice (i * c) (k * c)) e
    ∙ slice-take c i k n (drop (base * c) log) fits
    ∙ ap (take (k * c)) (drop-drop (i * c) (base * c) log)
    ∙ ap (λ m. take (k * c) (drop m log)) (sym (add-mul base i c))
