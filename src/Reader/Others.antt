-- ===== src/Reader/Others.antt =====
-- Steps of writers and other clients keep the order of the buffered reader.
use cyc_flow.Base.{
  ℕ, ◌+◌, ◌-◌, ◌*◌, ◌≤◌, ◌<◌, ◌≡◌, ◌⊎◌, refl, ap, sym, ◌∙◌, subst, List, ◌++◌, some, length, take,
  true, word, arith,
}
use cyc_flow.Chunk.{Byte, Chunks}
use cyc_flow.Chunk
use cyc_flow.Chunk.Log.{Holds, total-push}
use cyc_flow.Chunk.Read.{chunks_of}
use cyc_flow.RecBuffer.{RecBuffer, no_cursor, contains, push, get_available_write_space}
use cyc_flow.RecBuffer.Read.{IsKept}
use cyc_flow.RecBuffer.Space.{
  Covers, told-Covers, push-Covers, chunk_size-push, impl-get_available_write_space,
  clients-get_available_write_space,
}
use cyc_flow.RecBuffer.Clients.{IsUnique}
use cyc_flow.Reader.{Reader}
use cyc_flow.Reader.Threads.{World, Phase}
use cyc_flow.Reader.Invariant.{InOrder, InPhase, behind, chunks_of-grown}

-- A phase asks of the buffer only that enough is written.
InPhase-grown :
    (phase : Phase) (r : Reader) (b b' : RecBuffer)
    → b.impl.total_written ≤ b'.impl.total_written
    → InPhase phase r b
    → InPhase phase r b'
InPhase-grown Phase.idle r b b' h p = p
InPhase-grown (Phase.planned cursor count) r b b' h
      (free, run, none_there, same, some_there, fits, written) =
    (free, run, none_there, same, some_there, fits, omega (arith, h, written))
InPhase-grown (Phase.fetched read) r b b' h p = p

pub clients-InOrder :
    {start base : ℕ} {w : World} (b : RecBuffer)
    → b.impl ≡ w.buffer.impl
    → IsUnique b.clients
    → contains w.reader.self b.clients ≡ true
    → InOrder start base w
    → InOrder start base (record w { buffer = b })
clients-InOrder {start} {base} {w} b e unique known d = record {
  holds = subst (λ c. Holds c w.log) (sym e) d.holds;
  small = subst (λ c. c.total_written < no_cursor) (sym e) d.small;
  unique = unique;
  known = known;
  kept =
      subst
        (λ c.
          (w.reader.reader_cursor ≤ c.total_written)
          × (c.total_written ≤ w.reader.reader_cursor + Chunk.size c))
        (sym e) d.kept;
  sized = d.sized ∙ ap (λ c. c.chunk_size) (sym e);
  capacity_positive = d.capacity_positive;
  bg_room =
      subst (λ c. w.reader.capacity * c.chunk_size ≤ length w.reader.bg_buf) (sym e) d.bg_room;
  active_room =
      subst (λ c. w.reader.capacity * c.chunk_size ≤ length w.reader.active_buf) (sym e)
        d.active_room;
  short = subst (λ c. w.reader.active_count * c.chunk_size < word) (sym e) d.short;
  bg_short = d.bg_short;
  capacity_short = subst (λ c. w.reader.capacity * c.chunk_size < word) (sym e) d.capacity_short;
  in_phase =
      InPhase-grown w.phase w.reader w.buffer b
        (subst (λ c. w.buffer.impl.total_written ≤ c.total_written) (sym e) (omega arith))
        d.in_phase;
  from_start = d.from_start;
  idx_in = d.idx_in;
  next_cursor = d.next_cursor;
  active =
      subst
        (λ c.
          take (w.reader.active_count * c.chunk_size) w.reader.active_buf
          ≡ chunks_of c.chunk_size base w.reader.active_count w.log)
        (sym e) d.active;
  background =
      subst
        (λ c.
          take (behind w.phase w.reader.bg_count * c.chunk_size) w.reader.bg_buf
          ≡ chunks_of c.chunk_size (base + w.reader.active_count) (behind w.phase w.reader.bg_count)
              w.log)
        (sym e) d.background;
  covers =
      subst
        (λ c. (w.told ≡ 0) ⊎ (c.total_written + w.told ≤ w.reader.reader_cursor + Chunk.capacity c))
        (sym e) d.covers;
  shown =
      subst (λ c. w.seen ≡ chunks_of c.chunk_size start (base + w.reader.active_idx - start) w.log)
        (sym e) d.shown;
}

-- The log grows, and nothing that the reader holds changes.
grown-InOrder :
    {start base : ℕ} {w : World} (b : RecBuffer) (told : ℕ) (more : List Byte)
    → Holds b.impl (w.log ++ more)
    → b.impl.chunk_size ≡ w.buffer.impl.chunk_size
    → w.buffer.impl.total_written ≤ b.impl.total_written
    → b.impl.total_written < no_cursor
    → b.clients ≡ w.buffer.clients
    → IsKept w.reader.reader_cursor b
    → Covers b w.reader.reader_cursor told
    → InOrder start base w
    → InOrder start base (record w { buffer = b; told = told; log = w.log ++ more })
grown-InOrder {start} {base} {w} b told more h size grows small clients kept covers d = record {
  holds = h;
  small = small;
  unique = subst IsUnique (sym clients) d.unique;
  known = subst (λ cs. contains w.reader.self cs ≡ true) (sym clients) d.known;
  kept = kept;
  sized = d.sized ∙ sym size;
  capacity_positive = d.capacity_positive;
  bg_room = subst (λ k. w.reader.capacity * k ≤ length w.reader.bg_buf) (sym size) d.bg_room;
  active_room =
      subst (λ k. w.reader.capacity * k ≤ length w.reader.active_buf) (sym size) d.active_room;
  short = subst (λ k. w.reader.active_count * k < word) (sym size) d.short;
  bg_short = d.bg_short;
  capacity_short = subst (λ k. w.reader.capacity * k < word) (sym size) d.capacity_short;
  in_phase = InPhase-grown w.phase w.reader w.buffer b grows d.in_phase;
  from_start = d.from_start;
  idx_in = d.idx_in;
  next_cursor = d.next_cursor;
  active =
      subst
        (λ k.
          take (w.reader.active_count * k) w.reader.active_buf
          ≡ chunks_of k base w.reader.active_count (w.log ++ more))
        (sym size)
        (d.active
          ∙ sym (
              chunks_of-grown w.buffer base w.reader.active_count more d.holds
                (omega (arith, d.next_cursor, d.kept))));
  background =
      subst
        (λ k.
          take (behind w.phase w.reader.bg_count * k) w.reader.bg_buf
          ≡ chunks_of k (base + w.reader.active_count) (behind w.phase w.reader.bg_count)
              (w.log ++ more))
        (sym size)
        (d.background
          ∙ sym (
              chunks_of-grown w.buffer (base + w.reader.active_count)
                (behind w.phase w.reader.bg_count) more d.holds
                (omega (arith, d.next_cursor, d.kept))));
  covers = covers;
  shown =
      subst (λ k. w.seen ≡ chunks_of k start (base + w.reader.active_idx - start) (w.log ++ more))
        (sym size)
        (d.shown
          ∙ sym (
              chunks_of-grown w.buffer start (base + w.reader.active_idx - start) more d.holds
                (omega (arith, d.next_cursor, d.kept, d.idx_in, d.from_start))));
}

pub write-InOrder :
    {start base : ℕ} {w : World} (source : List Byte) (count : ℕ)
    → count ≤ w.told
    → count * w.buffer.impl.chunk_size ≤ length source
    → count * w.buffer.impl.chunk_size < word
    → w.buffer.impl.total_written + count < no_cursor
    → InOrder start base w
    → InOrder start base (record w {
      buffer = (push (some source) count w.buffer).0;
      told = w.told - count;
      log = w.log ++ take (count * w.buffer.impl.chunk_size) source;
    })
write-InOrder {start} {base} {w} source count fits given bytes total d =
    grown-InOrder (push (some source) count w.buffer).0 (w.told - count)
      (take (count * w.buffer.impl.chunk_size) source) after.1
      (chunk_size-push (some source) count w.buffer) (omega (arith, grown))
      (omega (arith, grown, total)) same after.0 after.2 d
  where
    after :
        IsKept w.reader.reader_cursor (push (some source) count w.buffer).0
        × Holds
            (push (some source) count w.buffer).0.impl
            (w.log ++ take (count * w.buffer.impl.chunk_size) source)
        × Covers (push (some source) count w.buffer).0 w.reader.reader_cursor (w.told - count)
    after =
        push-Covers w.buffer w.log source w.reader.reader_cursor w.told count d.holds d.kept
          d.covers fits given bytes (omega (arith, total))

    grown :
        (push (some source) count w.buffer).0.impl.total_written
        ≡ w.buffer.impl.total_written + count
    grown = unfold push in total-push source count w.buffer.impl bytes (omega (arith, total))

    same : (push (some source) count w.buffer).0.clients ≡ w.buffer.clients
    same = unfold push in refl

-- The writer is told anew what it may push.
pub ask-InOrder :
    {start base : ℕ} {w : World} (cursors : ℕ → ℕ)
    → cursors w.reader.self ≤ w.reader.reader_cursor
    → InOrder start base w
    → InOrder start base (record w {
      buffer = (get_available_write_space cursors w.buffer).1;
      told = (get_available_write_space cursors w.buffer).0;
    })
ask-InOrder {start} {base} {w} cursors older d =
    clients-InOrder {w = told_world} (get_available_write_space cursors w.buffer).1
      (impl-get_available_write_space cursors w.buffer)
      (subst IsUnique (sym (clients-get_available_write_space cursors w.buffer)) d.unique)
      (subst (λ cs. contains w.reader.self cs ≡ true)
        (sym (clients-get_available_write_space cursors w.buffer)) d.known)
      (record {
        holds = d.holds;
        small = d.small;
        unique = d.unique;
        known = d.known;
        kept = d.kept;
        sized = d.sized;
        capacity_positive = d.capacity_positive;
        bg_room = d.bg_room;
        active_room = d.active_room;
        short = d.short;
        bg_short = d.bg_short;
        capacity_short = d.capacity_short;
        in_phase = d.in_phase;
        from_start = d.from_start;
        idx_in = d.idx_in;
        next_cursor = d.next_cursor;
        active = d.active;
        background = d.background;
        covers =
            told-Covers cursors w.buffer w.reader.self w.reader.reader_cursor d.small d.known older
              d.kept.0;
        shown = d.shown;
      })
  where
    told_world : World
    told_world = record w { told = (get_available_write_space cursors w.buffer).0 }
