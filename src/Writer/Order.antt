-- ===== src/Writer/Order.antt =====
-- The order in which the buffered writer's records reach the ring.
use cyc_flow.Base.{
  ℕ, ◌+◌, ◌*◌, ◌<◌, ◌≡◌, refl, ap, sym, ◌∙◌, subst, ◌⊎◌, inl, inr, Bool, true, false, List, [],
  ◌++◌, length, take, replicate, append-nil, length-replicate, mul64, mul64-eq, word, arith,
}
use cyc_flow.Chunk.{Byte}
use cyc_flow.Chunk.Log.{Holds}
use cyc_flow.PReg.{PReg}
use cyc_flow.RecBuffer.{RecBuffer}
use cyc_flow.Writer.{init, is_free, flush, swap_buffers, finish_work}
use cyc_flow.Writer.Threads.{
  World, Step, acquire_record, acquire_batch, edit, done_record, done_batch, flush_all, pick, pump,
  clean, others, Reach, here, next, Waits, begin, then, IsNotUser, pending, in_flight, start_world,
}
use cyc_flow.Writer.Invariant.{
  IsFlushing, edit-IsFlushing, next_record-IsFlushing, next_batch-IsFlushing, flush-IsFlushing,
  commit_record-IsFlushing, commit_batch-IsFlushing,
}
use cyc_flow.Writer.Worker.{pump-IsFlushing, clean-IsFlushing, others-IsFlushing, pick-IsFlushing}

Step-IsFlushing :
    {base : List Byte} {w x : World} → IsFlushing base w → Step w x → IsFlushing base x
Step-IsFlushing d (acquire_record q) = next_record-IsFlushing d q
Step-IsFlushing d (acquire_batch max_records wait q) = next_batch-IsFlushing d max_records wait q
Step-IsFlushing d (edit bytes same prefix) = edit-IsFlushing d bytes same prefix
Step-IsFlushing d (done_record clock) = commit_record-IsFlushing d clock
Step-IsFlushing d (done_batch clock count) = commit_batch-IsFlushing d clock count
Step-IsFlushing d (flush_all free) = flush-IsFlushing d free
Step-IsFlushing d (pick busy resting) = pick-IsFlushing d busy
Step-IsFlushing d (pump cursors between quiet inside todo total) =
    pump-IsFlushing d cursors between quiet inside todo total
Step-IsFlushing d (clean inside done) = clean-IsFlushing d done
Step-IsFlushing d (others b same) = others-IsFlushing d b same

Reach-IsFlushing :
    {base : List Byte} {v w : World} → IsFlushing base v → Reach v w → IsFlushing base w
Reach-IsFlushing d here = d
Reach-IsFlushing d (next p s) = Step-IsFlushing (Reach-IsFlushing d p) s

start-IsFlushing :
    (batch_capacity : ℕ) (block_on_full : Bool) (b : RecBuffer) (r : PReg) {log : List Byte}
    → Holds b.impl log
    → let w = start_world batch_capacity block_on_full b r log in
      batch_capacity * b.impl.chunk_size + w.writer.timestamp_offset < word → IsFlushing log w
unfolding start_world init
start-IsFlushing batch_capacity block_on_full b r {log} h small = record {
  holds = h;
  sized = refl;
  running = refl;
  idx_in = omega arith;
  count_in = omega arith;
  written_in = omega arith;
  active_room = omega (arith, blank, size);
  bg_room = omega (arith, blank, size);
  small = small;
  at_rest = inr refl;
  whole = inr (inl refl);
  at_work = inr refl;
  order = ap (λ k. log ++ take k zeros) none;
}
  where
    zeros : List Byte
    zeros = replicate (mul64 batch_capacity b.impl.chunk_size) 0

    size : mul64 batch_capacity b.impl.chunk_size ≡ batch_capacity * b.impl.chunk_size
    size = mul64-eq batch_capacity b.impl.chunk_size (omega (arith, small))

    blank : length zeros ≡ mul64 batch_capacity b.impl.chunk_size
    blank = length-replicate (mul64 batch_capacity b.impl.chunk_size) 0

    none : 0 * b.impl.chunk_size ≡ 0
    none = omega arith

-- However the user's calls and the parts of the worker's flushes interleave, the ring holds what it
-- held at the start and then committed records only: these, the rest of the background buffer and
-- the active buffer are, in this order, all that the user has committed, each record once: with
-- each commit, the slots from the first one not committed on, stamped, as many as the count says
-- and the buffer has. (A call that waits returns once the worker is done; nobody else writes, the
-- writer is not shut down, each buffer has fewer than 2^64 bytes, and the count of records stays
-- below 2^64.)
pub buffered-writes :
    (batch_capacity : ℕ) (block_on_full : Bool) (b : RecBuffer) (r : PReg) (log : List Byte)
    (w : World)
    → Holds b.impl log
    → batch_capacity * b.impl.chunk_size
        + (start_world batch_capacity block_on_full b r log).writer.timestamp_offset
      < word
    → Reach (start_world batch_capacity block_on_full b r log) w
    → Holds w.buffer.impl w.log × (w.log ++ in_flight w ≡ log ++ w.committed)
buffered-writes batch_capacity block_on_full b r log w h small reach =
    let d = Reach-IsFlushing (start-IsFlushing batch_capacity block_on_full b r h small) reach in
    (d.holds, d.order)

-- While the user waits, its active buffer and its commits stay.
Waits-still :
    {base : List Byte} {v w : World}
    → IsFlushing base v
    → Waits v w
    → IsFlushing base w
      × (w.writer.current_idx ≡ v.writer.current_idx)
      × (w.committed ≡ v.committed)
Waits-still d begin = (d, refl, refl)
Waits-still d (then p s not_user) =
    let (d', idx, same) = Waits-still d p in
    let (idx', same') = still s not_user in (Step-IsFlushing d' s, idx' ∙ idx, same' ∙ same)
  where
    still :
        {w x : World} (s : Step w x)
        → IsNotUser s
        → (x.writer.current_idx ≡ w.writer.current_idx) × (x.committed ≡ w.committed)
    still (pick busy resting) n = (refl, refl)
    still (pump cursors between quiet inside todo total) n = (refl, refl)
    still (clean inside done) n = (unfold finish_work in refl, refl)
    still (others b same) n = (refl, refl)
    still (acquire_record q) n = absurd n
    still (acquire_batch max_records wait q) n = absurd n
    still (edit bytes same prefix) n = absurd n
    still (done_record clock) n = absurd n
    still (done_batch clock count) n = absurd n
    still (flush_all free) n = absurd n

-- The active buffer is empty after the first part of `flush`.
flush-empties :
    {base : List Byte} {w : World}
    → IsFlushing base w
    → (w.writer.current_idx ≡ 0) ⊎ (w.writer.has_work ≡ false)
    → IsFlushing base (record w { writer = flush w.writer }) × ((flush w.writer).current_idx ≡ 0)
unfolding flush swap_buffers
flush-empties {base} {w} d (inl empty) =
    let same : flush w.writer ≡ w.writer = ground (arith, empty) in
    subst (λ v. IsFlushing base (record w { writer = v }) × (v.current_idx ≡ 0)) (sym same)
      (d, empty)
flush-empties {base} {w} d (inr free) = (flush-IsFlushing d free, ground (arith, free, d.running))

-- After a call of `flush`, while the user waits in it and the worker and other threads go on, once
-- its last wait is over the ring holds exactly what it held at the start and all that the user had
-- committed before the call. (The first wait of the call ends with the worker done, where there is
-- one; otherwise as for `buffered-writes`.)
pub flush-delivers :
    (batch_capacity : ℕ) (block_on_full : Bool) (b : RecBuffer) (r : PReg) (log : List Byte)
    (w x : World)
    → Holds b.impl log
    → batch_capacity * b.impl.chunk_size
        + (start_world batch_capacity block_on_full b r log).writer.timestamp_offset
      < word
    → Reach (start_world batch_capacity block_on_full b r log) w
    → (w.writer.current_idx ≡ 0) ⊎ (w.writer.has_work ≡ false)
    → Waits (record w { writer = flush w.writer }) x
    → is_free x.writer ≡ true
    → Holds x.buffer.impl (log ++ w.committed)
unfolding is_free
flush-delivers batch_capacity block_on_full b r log w x h small reach first waits free =
    let before =
      Reach-IsFlushing (start-IsFlushing batch_capacity block_on_full b r h small) reach in
    let (flushed, empty) = flush-empties before first in
    let (d, idx, same) = Waits-still flushed waits in
    let idle : x.writer.has_work ≡ false = ground (arith, free, d.running) in
    let none : x.writer.current_idx * x.writer.rec_size ≡ 0 =
      ap (λ k. k * x.writer.rec_size) (idx ∙ empty) ∙ omega arith in
    let all : x.log ≡ log ++ w.committed =
      sym (append-nil x.log) ∙ sym (settled x idle none) ∙ d.order ∙ ap (λ xs. log ++ xs) same in
    subst (Holds x.buffer.impl) all d.holds
  where
    settled :
        (w : World)
        → w.writer.has_work ≡ false
        → w.writer.current_idx * w.writer.rec_size ≡ 0
        → w.log ++ in_flight w ≡ w.log ++ []
    settled w idle none =
        ap
          (λ h.
            w.log
            ++ (pending h (w.written * w.writer.rec_size) (w.writer.bg_count * w.writer.rec_size)
                  w.writer.bg_buf
                ++ take (w.writer.current_idx * w.writer.rec_size) w.writer.active_buf))
          idle
        ∙ ap (λ k. w.log ++ take k w.writer.active_buf) none
