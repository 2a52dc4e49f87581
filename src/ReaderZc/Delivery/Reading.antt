-- ===== src/ReaderZc/Delivery/Reading.antt =====
-- What the looks of the zero-copy reader keep.
use cyc_flow.Base.{
  ℕ, ◌+◌, ◌-◌, ◌*◌, ◌<◌, ◌≡◌, true, ap, sym, ◌∙◌, subst, inl, inr, Bool, false, Bool-cases, Option,
  none, some, ◌++◌, slice, append-nil, arith, dec_lt,
}
use cyc_flow.Chunk.Read.{chunks_of, chunks_of-add}
use cyc_flow.ReaderZc.{
  ReaderZc, RecordBatch, no_batch, or_no_batch, is_finished, look, overrun, pin, stop,
}
use cyc_flow.ReaderZc.Batch.{Pins, pin-Pins, pin-none, overrun-kept}
use cyc_flow.ReaderZc.Delivery.{World, looked, checked, batch_bytes}
use cyc_flow.ReaderZc.Delivery.Invariant.{IsDelivering}

-- The world after the first look, by what it finds.
unfoldable pub read_of : ℕ → World → Option RecordBatch × ReaderZc → World
read_of max_records w out = record w {
  reader = out.1;
  phase = looked max_records out.0;
  seen = w.seen ++ batch_bytes w.buffer (or_no_batch out.0);
}

-- No batch, found or not, and at most a change of the running flag.
none-IsDelivering :
    {start : ℕ} {w : World} (max_records : ℕ) (running : Bool)
    → IsDelivering start w
    → IsDelivering start
        (read_of max_records w (some no_batch, record w.reader { running = running }))
unfolding read_of batch_bytes no_batch
none-IsDelivering {start} {w} max_records running d = record {
  holds = d.holds;
  small = d.small;
  unique = d.unique;
  known = d.known;
  kept = d.kept;
  from_start = d.from_start;
  pinned = d.pinned;
  written = d.written;
  shown = append-nil w.seen ∙ d.shown;
  covers = d.covers;
  in_place = λ k e. cc;
}

missed-IsDelivering :
    {start : ℕ} {w : World} (max_records : ℕ)
    → IsDelivering start w
    → IsDelivering start (read_of max_records w (none, w.reader))
unfolding read_of batch_bytes no_batch
missed-IsDelivering {start} {w} max_records d = record {
  holds = d.holds;
  small = d.small;
  unique = d.unique;
  known = d.known;
  kept = d.kept;
  from_start = d.from_start;
  pinned = d.pinned;
  written = d.written;
  shown = append-nil w.seen ∙ d.shown;
  covers = d.covers;
  in_place = λ k e. cc;
}

some-IsDelivering :
    {start max_records ptr n : ℕ} {w : World}
    → w.reader.pinned_end ≡ w.reader.reader_cursor
    → Pins max_records w.buffer w.log w.reader.reader_cursor ptr n
    → IsDelivering start w
    → IsDelivering start (
        read_of max_records w (
          some (record { data_ptr = some ptr; count = n }),
          record w.reader { pinned_end = w.reader.reader_cursor + n },
        ))
unfolding read_of batch_bytes
some-IsDelivering {start} {max_records} {ptr} {n} {w} free p d = record {
  holds = d.holds;
  small = d.small;
  unique = d.unique;
  known = d.known;
  kept = d.kept;
  from_start = d.from_start;
  pinned = omega arith;
  written = p.written;
  covers = d.covers;
  in_place = λ k e. cc;
  shown =
      ap (λ xs. xs ++ slice ptr (n * w.buffer.impl.chunk_size) w.buffer.impl.buffer.array)
        (d.shown ∙ ap (λ k. chunks_of w.buffer.impl.chunk_size start (k - start) w.log) free)
      ∙ ap
          (λ xs.
            chunks_of w.buffer.impl.chunk_size start (w.reader.reader_cursor - start) w.log ++ xs)
          (p.bytes ∙ ap (λ k. chunks_of w.buffer.impl.chunk_size k n w.log) (sym joined))
      ∙ chunks_of-add w.buffer.impl.chunk_size start (w.reader.reader_cursor - start) n w.log
      ∙ ap (λ k. chunks_of w.buffer.impl.chunk_size start k w.log) more;
}
  where
    joined : start + (w.reader.reader_cursor - start) ≡ w.reader.reader_cursor
    joined = omega (arith, d.from_start)

    more : w.reader.reader_cursor - start + n ≡ w.reader.reader_cursor + n - start
    more = omega (arith, d.from_start)

pub first_look-IsDelivering :
    {start : ℕ} {w : World} (max_records : ℕ)
    → 0 < max_records
    → w.reader.pinned_end ≡ w.reader.reader_cursor
    → IsDelivering start w
    → IsDelivering start (read_of max_records w (look max_records w.buffer w.reader))
unfolding look
first_look-IsDelivering {start} {w} max_records p free d = elim (Bool-cases w.reader.running) [
  | inr stopped ↦
      by_out (some no_batch, w.reader) (simp (look, stopped))
        (none-IsDelivering max_records w.reader.running d)
  | inl run ↦ elim (Bool-cases (is_finished w.reader)) [
    | inl done ↦
        by_out (some no_batch, stop w.reader) (simp (look, run, done))
          (unfold stop in none-IsDelivering max_records false d)
    | inr go ↦ elim (dec_lt w.reader.reader_cursor w.buffer.impl.total_written) [
      | yes left ↦
          let (ptr, n, e, pins) = pin-Pins w.buffer d.holds max_records w.reader d.kept left p in
          by_out
            (
              some (record { data_ptr = some ptr; count = n }),
              record w.reader { pinned_end = w.reader.reader_cursor + n },
            )
            (looks run go ∙ e) (some-IsDelivering free pins d)
      | no all ↦
          by_out (none, w.reader)
            (looks run go
              ∙ pin-none w.buffer d.holds max_records w.reader (omega (arith, d.kept, d.small))
                  (inl (omega (arith, all))))
            (missed-IsDelivering max_records d)
    ]
  ]
]
  where
    by_out :
        (out : Option RecordBatch × ReaderZc)
        → look max_records w.buffer w.reader ≡ out
        → IsDelivering start (read_of max_records w out)
        → IsDelivering start (read_of max_records w (look max_records w.buffer w.reader))
    by_out out e q = subst (λ o. IsDelivering start (read_of max_records w o)) (sym e) q

    looks :
        w.reader.running ≡ true
        → is_finished w.reader ≡ false
        → look max_records w.buffer w.reader ≡ pin max_records w.buffer w.reader
    looks run go = simp (look, run, go)

-- A reader whose next record is held is not moved.
pub second_look-IsDelivering :
    {start : ℕ} {w : World} (max_records : ℕ)
    → IsDelivering start w
    → IsDelivering start (record w {
      reader = (overrun w.buffer w.reader).1;
      phase = checked max_records (overrun w.buffer w.reader).0;
    })
second_look-IsDelivering {start} {w} max_records d =
    subst
      (λ out. IsDelivering start (record w { reader = out.1; phase = checked max_records out.0 }))
      (sym (overrun-kept w.buffer d.holds w.reader d.kept))
      (record {
        holds = d.holds;
        small = d.small;
        unique = d.unique;
        known = d.known;
        kept = d.kept;
        from_start = d.from_start;
        pinned = d.pinned;
        written = d.written;
        shown = d.shown;
        covers = d.covers;
        in_place = λ k e. cc;
      })
