-- ===== src/Writer/Invariant.antt =====
-- What holds of the buffered writer between steps, and the user's steps.
use native.Mathlib.Nat.{add-mul, mul-le-mul_right, le-mul_of_pos_right}
use cyc_flow.Base.{
  ℕ, ◌+◌, ◌-◌, ◌*◌, ◌≤◌, ◌<◌, min, ◌≡◌, refl, ap, sym, ◌∙◌, subst, ◌⊎◌, inl, inr, Bool, true, false,
  leb, ltb, Bool-cases, List, ◌++◌, length, take, drop, replicate, append-nil, append_assoc,
  take-add, mul64, add64-eq, mul64-eq, word, arith,
}
use cyc_flow.Chunk.{Byte}
use cyc_flow.Chunk.Log.{Holds}
use cyc_flow.Ring.{copy_chunk}
use cyc_flow.Ring.Inv.{length-copy_chunk}
use cyc_flow.Writer.{
  Writer, swap_buffers, clear_at, clear_slots, next_record, next_batch, stamp_slots, commit,
  commit_record, commit_batch, flush,
}
use cyc_flow.Writer.Bytes.{take-copy_chunk, length-stamp_slots, take-stamp_slots}
use cyc_flow.Writer.Threads.{World, slots, records_of, pending, in_flight}

pub record IsFlushing (base : List Byte) (w : World) : Type 0 where
  pub holds : Holds w.buffer.impl w.log
  pub sized : w.writer.rec_size ≡ w.buffer.impl.chunk_size
  pub running : w.writer.running ≡ true
  pub idx_in : w.writer.current_idx ≤ w.writer.capacity
  pub count_in : w.writer.bg_count ≤ w.writer.capacity
  pub written_in : w.written ≤ w.writer.bg_count
  pub active_room : w.writer.capacity * w.writer.rec_size ≤ length w.writer.active_buf
  pub bg_room : w.writer.capacity * w.writer.rec_size ≤ length w.writer.bg_buf
  pub small : w.writer.capacity * w.writer.rec_size + w.writer.timestamp_offset < word
  pub at_rest : (w.flushing ≡ true) ⊎ (w.written ≡ 0)
  pub whole : (w.writer.block_on_full ≡ true) ⊎ (w.written ≡ 0) ⊎ (w.writer.bg_count ≤ w.written)
  pub at_work : (w.writer.has_work ≡ true) ⊎ (w.flushing ≡ false)
  pub order : w.log ++ in_flight w ≡ base ++ w.committed

module _ {base : List Byte} {w : World} (d : IsFlushing base w) where
  pub rec_positive : 0 < w.writer.rec_size
  rec_positive = omega (arith, d.sized, d.holds.aligned.chunk_positive)

  pub capacity_small : w.writer.capacity < word
  capacity_small = omega (arith, d.small, le-mul_of_pos_right w.writer.capacity rec_positive)

  -- New bytes behind what is committed.
  pub edit-IsFlushing :
      (bytes : List Byte)
      → length bytes ≡ length w.writer.active_buf
      → take (w.writer.current_idx * w.writer.rec_size) bytes
        ≡ take (w.writer.current_idx * w.writer.rec_size) w.writer.active_buf
      → IsFlushing base (record w { writer = record w.writer { active_buf = bytes } })
  edit-IsFlushing bytes same prefix = record {
    holds = d.holds;
    sized = d.sized;
    running = d.running;
    idx_in = d.idx_in;
    count_in = d.count_in;
    written_in = d.written_in;
    active_room = omega (arith, d.active_room, same);
    bg_room = d.bg_room;
    small = d.small;
    at_rest = d.at_rest;
    whole = d.whole;
    at_work = d.at_work;
    order =
        ap
          (λ xs.
            w.log
            ++ (pending w.writer.has_work (w.written * w.writer.rec_size)
                  (w.writer.bg_count * w.writer.rec_size) w.writer.bg_buf
                ++ xs))
          prefix
        ∙ d.order;
  }

  pub clear_slots-IsFlushing :
      (n : ℕ) → IsFlushing base (record w { writer = clear_slots n w.writer })
  unfolding clear_slots clear_at
  clear_slots-IsFlushing n =
      edit-IsFlushing
        (copy_chunk (replicate (mul64 n w.writer.rec_size) 0)
          (mul64 w.writer.current_idx w.writer.rec_size) (mul64 n w.writer.rec_size)
          w.writer.active_buf)
        (length-copy_chunk (replicate (mul64 n w.writer.rec_size) 0)
          (mul64 w.writer.current_idx w.writer.rec_size) (mul64 n w.writer.rec_size)
          w.writer.active_buf)
        (take-copy_chunk (replicate (mul64 n w.writer.rec_size) 0)
          (mul64 w.writer.current_idx w.writer.rec_size) (mul64 n w.writer.rec_size)
          (w.writer.current_idx * w.writer.rec_size) w.writer.active_buf (omega (arith, place)))
    where
      place :
          mul64 w.writer.current_idx w.writer.rec_size ≡ w.writer.current_idx * w.writer.rec_size
      place =
          mul64-eq w.writer.current_idx w.writer.rec_size
            (omega (arith, mul-le-mul_right w.writer.rec_size d.idx_in, d.small))

  -- A swap while the worker is done moves the active records to the background.
  swapped-IsFlushing :
      w.writer.has_work ≡ false
      → IsFlushing base (record w {
        writer = record w.writer {
          active_buf = w.writer.bg_buf;
          bg_buf = w.writer.active_buf;
          bg_count = w.writer.current_idx;
          current_idx = 0;
          has_work = true;
        };
      })
  swapped-IsFlushing free = record {
    holds = d.holds;
    sized = d.sized;
    running = d.running;
    idx_in = omega arith;
    count_in = d.idx_in;
    written_in = omega (arith, none_written);
    active_room = d.bg_room;
    bg_room = d.active_room;
    small = d.small;
    at_rest = inr none_written;
    whole = inr (inl none_written);
    at_work = inl refl;
    order =
        ap (λ k. w.log ++ (drop k active ++ take (0 * w.writer.rec_size) w.writer.bg_buf))
          zero_bytes
        ∙ ap (λ k. w.log ++ (active ++ take k w.writer.bg_buf)) nothing
        ∙ ap (λ xs. w.log ++ xs) (append-nil active)
        ∙ sym (
            ap
              (λ h.
                w.log
                ++ (pending h (w.written * w.writer.rec_size)
                      (w.writer.bg_count * w.writer.rec_size) w.writer.bg_buf
                    ++ active))
              free)
        ∙ d.order;
  }
    where
      active : List Byte
      active = take (w.writer.current_idx * w.writer.rec_size) w.writer.active_buf

      nothing : 0 * w.writer.rec_size ≡ 0
      nothing = omega arith

      idle : (w.writer.has_work ≡ true) ⊎ (w.flushing ≡ false) → w.flushing ≡ false
      idle (inl h) = cc
      idle (inr h) = h

      none_written : w.written ≡ 0
      none_written = from d.at_rest
        where
          from : (w.flushing ≡ true) ⊎ (w.written ≡ 0) → w.written ≡ 0
          from (inl h) = absurd (ground (arith, idle d.at_work, h))
          from (inr h) = h

      zero_bytes : w.written * w.writer.rec_size ≡ 0
      zero_bytes = rw none_written (omega arith)

  swap_buffers-IsFlushing :
      (blocking : Bool)
      → (blocking ≡ false) ⊎ (w.writer.has_work ≡ false)
      → IsFlushing base (record w { writer = (swap_buffers blocking w.writer).1 })
  unfolding swap_buffers
  swap_buffers-IsFlushing blocking q = elim (Bool-cases w.writer.has_work) [
    | inl e ↦ subst (λ v. IsFlushing base (record w { writer = v })) (sym (refused e)) d
    | inr e ↦
        subst (λ v. IsFlushing base (record w { writer = v })) (sym (swapped e))
          (swapped-IsFlushing e)
  ]
    where
      refused : w.writer.has_work ≡ true → (swap_buffers blocking w.writer).1 ≡ w.writer
      refused e = ground (arith, q, e)

      swapped :
          w.writer.has_work ≡ false
          → (swap_buffers blocking w.writer).1 ≡ record w.writer {
            active_buf = w.writer.bg_buf;
            bg_buf = w.writer.active_buf;
            bg_count = w.writer.current_idx;
            current_idx = 0;
            has_work = true;
          }
      swapped e = ground (arith, e, d.running)

  -- `n` slots behind the committed ones are committed.
  pub append-IsFlushing :
      (bytes : List Byte) (n : ℕ)
      → w.writer.current_idx + n ≤ w.writer.capacity
      → length bytes ≡ length w.writer.active_buf
      → take (w.writer.current_idx * w.writer.rec_size) bytes
        ≡ take (w.writer.current_idx * w.writer.rec_size) w.writer.active_buf
      → IsFlushing base (record w {
        writer = record w.writer { active_buf = bytes; current_idx = w.writer.current_idx + n };
        committed =
            w.committed
            ++ take (n * w.writer.rec_size) (drop (w.writer.current_idx * w.writer.rec_size) bytes);
      })
  append-IsFlushing bytes n fits same prefix = record {
    holds = d.holds;
    sized = d.sized;
    running = d.running;
    idx_in = fits;
    count_in = d.count_in;
    written_in = d.written_in;
    active_room = omega (arith, d.active_room, same);
    bg_room = d.bg_room;
    small = d.small;
    at_rest = d.at_rest;
    whole = d.whole;
    at_work = d.at_work;
    order =
        ap (λ xs. w.log ++ (rest ++ xs)) split
        ∙ ap (λ xs. w.log ++ xs) (sym (append_assoc rest old new))
        ∙ sym (append_assoc w.log (rest ++ old) new)
        ∙ ap (λ xs. xs ++ new) d.order
        ∙ append_assoc base w.committed new;
  }
    where
      rest : List Byte
      rest =
          pending w.writer.has_work (w.written * w.writer.rec_size)
            (w.writer.bg_count * w.writer.rec_size) w.writer.bg_buf

      old : List Byte
      old = take (w.writer.current_idx * w.writer.rec_size) w.writer.active_buf

      new : List Byte
      new = take (n * w.writer.rec_size) (drop (w.writer.current_idx * w.writer.rec_size) bytes)

      split : take ((w.writer.current_idx + n) * w.writer.rec_size) bytes ≡ old ++ new
      split =
          ap (λ k. take k bytes) (add-mul w.writer.current_idx n w.writer.rec_size)
          ∙ sym (take-add (w.writer.current_idx * w.writer.rec_size) (n * w.writer.rec_size) bytes)
          ∙ ap (λ xs. xs ++ new) prefix

  commit-IsFlushing :
      (clock : ℕ → List Byte) (n : ℕ)
      → w.writer.current_idx + n ≤ w.writer.capacity
      → IsFlushing base (record w {
        writer = record (commit clock n w.writer) { current_idx = w.writer.current_idx + n };
        committed = w.committed ++ slots clock n w.writer;
      })
  unfolding commit slots
  commit-IsFlushing clock n fits =
      append-IsFlushing
        (stamp_slots clock w.writer.rec_size w.writer.timestamp_offset w.writer.current_idx n
          w.writer.active_buf)
        n fits
        (length-stamp_slots clock w.writer.rec_size w.writer.timestamp_offset w.writer.current_idx n
          w.writer.active_buf)
        (take-stamp_slots clock w.writer.rec_size w.writer.timestamp_offset w.writer.current_idx n
          w.writer.capacity (w.writer.current_idx * w.writer.rec_size) w.writer.active_buf fits
          capacity_small d.small (omega arith))

-- The writer after the user's steps that may swap.
module _ {base : List Byte} {w : World} (d : IsFlushing base w) where
  abbrev Keeps : Writer → Type 0
  Keeps v = IsFlushing base (record w { writer = v })

  pub next_record-IsFlushing :
      (w.writer.current_idx < w.writer.capacity) ⊎ (w.writer.has_work ≡ false)
      → Keeps (next_record w.writer)
  unfolding next_record
  next_record-IsFlushing q = elim (Bool-cases (leb w.writer.capacity w.writer.current_idx)) [
    | inl e ↦ rw e (clear_slots-IsFlushing (swap_buffers-IsFlushing d true (inr (free e q))) 1)
    | inr e ↦ rw e (clear_slots-IsFlushing d 1)
  ]
    where
      free :
          leb w.writer.capacity w.writer.current_idx ≡ true
          → (w.writer.current_idx < w.writer.capacity) ⊎ (w.writer.has_work ≡ false)
          → w.writer.has_work ≡ false
      free e (inl h) = absurd (ground (arith, e, h))
      free e (inr h) = h

  pub next_batch-IsFlushing :
      (max_records : ℕ) (wait : Bool)
      → (wait ≡ false) ⊎ (w.writer.has_work ≡ false)
      → Keeps (next_batch max_records wait w.writer).1
  unfolding next_batch
  next_batch-IsFlushing max_records wait q =
      elim (Bool-cases (leb w.writer.capacity w.writer.current_idx)) [
        | inl e ↦ elim (Bool-cases (swap_buffers wait w.writer).0) [
          | inl f ↦
              rw (e, f)
                (clear_slots-IsFlushing swapped (
                  min max_records (
                    (swap_buffers wait w.writer).1.capacity
                    - (swap_buffers wait w.writer).1.current_idx)))
          | inr f ↦ rw (e, f) swapped
        ]
        | inr e ↦
            rw e (
              clear_slots-IsFlushing d (min max_records (w.writer.capacity - w.writer.current_idx)))
      ]
    where
      swapped : Keeps (swap_buffers wait w.writer).1
      swapped = swap_buffers-IsFlushing d wait q

  pub flush-IsFlushing : w.writer.has_work ≡ false → Keeps (flush w.writer)
  unfolding flush
  flush-IsFlushing free = elim (Bool-cases (ltb 0 w.writer.current_idx)) [
    | inl e ↦ rw e (swap_buffers-IsFlushing d true (inr free))
    | inr e ↦ rw e d
  ]

  abbrev Grows : Writer → List Byte → Type 0
  Grows v more = IsFlushing base (record w { writer = v; committed = w.committed ++ more })

  same_index :
      (clock : ℕ → List Byte) (n : ℕ)
      → w.writer.current_idx + n ≤ w.writer.capacity
      → commit clock n w.writer
        ≡ record (commit clock n w.writer) { current_idx = w.writer.current_idx + n }
  unfolding commit
  same_index clock n fits =
      ap
        (λ i. record w.writer {
          active_buf =
              stamp_slots clock w.writer.rec_size w.writer.timestamp_offset w.writer.current_idx n
                w.writer.active_buf;
          current_idx = i;
        })
        (add64-eq w.writer.current_idx n (omega (arith, fits, capacity_small d)))

  same_end :
      (clock : ℕ → List Byte)
      → record (commit clock (w.writer.capacity - w.writer.current_idx) w.writer) {
        current_idx = w.writer.capacity;
      }
        ≡ record (commit clock (w.writer.capacity - w.writer.current_idx) w.writer) {
          current_idx = w.writer.current_idx + (w.writer.capacity - w.writer.current_idx);
        }
  same_end clock =
      ap
        (λ i. record (commit clock (w.writer.capacity - w.writer.current_idx) w.writer) {
          current_idx = i;
        })
        (omega (arith, d.idx_in))

  nothing_added : (clock : ℕ → List Byte) → Grows w.writer (slots clock 0 w.writer)
  unfolding slots
  nothing_added clock =
      subst (λ xs. IsFlushing base (record w { committed = xs }))
        (sym (
          ap (λ k. w.committed ++ take k (drop (w.writer.current_idx * w.writer.rec_size) bytes))
            none
          ∙ append-nil w.committed))
        d
    where
      bytes : List Byte
      bytes =
          stamp_slots clock w.writer.rec_size w.writer.timestamp_offset w.writer.current_idx 0
            w.writer.active_buf

      none : 0 * w.writer.rec_size ≡ 0
      none = omega arith

  -- The code's commit of `n` records.
  grows :
      (clock : ℕ → List Byte) (count n : ℕ) (v : Writer)
      → n ≡ min count (w.writer.capacity - w.writer.current_idx)
      → w.writer.current_idx + n ≤ w.writer.capacity
      → record (commit clock n w.writer) { current_idx = w.writer.current_idx + n } ≡ v
      → Grows v (records_of clock count w.writer)
  unfolding records_of
  grows clock count n v amount fits same =
      subst (λ k. Grows v (slots clock k w.writer)) amount
        (subst (λ v. Grows v (slots clock n w.writer)) same (commit-IsFlushing d clock n fits))

  pub commit_record-IsFlushing :
      (clock : ℕ → List Byte) → Grows (commit_record clock w.writer) (records_of clock 1 w.writer)
  unfolding commit_record records_of
  commit_record-IsFlushing clock = elim (Bool-cases (ltb w.writer.current_idx w.writer.capacity)) [
    | inl e ↦
        let fits : w.writer.current_idx + 1 ≤ w.writer.capacity = ground (arith, e) in
        rw e (
          grows clock 1 1 (commit clock 1 w.writer) (omega (arith, fits)) fits
            (sym (same_index clock 1 fits)))
    | inr e ↦
        let none : 0 ≡ min 1 (w.writer.capacity - w.writer.current_idx) = ground (arith, e) in
        rw e (subst (λ k. Grows w.writer (slots clock k w.writer)) none (nothing_added clock))
  ]

  pub commit_batch-IsFlushing :
      (clock : ℕ → List Byte) (count : ℕ)
      → Grows (commit_batch clock count w.writer) (records_of clock count w.writer)
  unfolding commit_batch
  commit_batch-IsFlushing clock count =
      elim (Bool-cases (leb count (w.writer.capacity - w.writer.current_idx))) [
        | inl e ↦
            let fits : w.writer.current_idx + count ≤ w.writer.capacity =
              ground (arith, e, d.idx_in) in
            rw e (
              grows clock count count (commit clock count w.writer) (ground (arith, e)) fits
                (sym (same_index clock count fits)))
        | inr e ↦
            let available = w.writer.capacity - w.writer.current_idx in
            rw e (
              grows clock count available
                (record (commit clock available w.writer) { current_idx = w.writer.capacity })
                (ground (arith, e)) (omega (arith, d.idx_in)) (sym (same_end clock)))
      ]
