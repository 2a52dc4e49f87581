-- ===== src/Writer/Worker.antt =====
-- The worker's steps of the buffered writer.
use native.Mathlib.Nat.{add-mul, mul-le-mul_right}
use cyc_flow.Base.{
  ℕ, ◌+◌, ◌-◌, ◌*◌, ◌≤◌, ◌<◌, min, ◌≡◌, refl, ap, sym, ◌∙◌, subst, ◌⊎◌, inl, inr, Bool, true, false,
  ◌==◌, Bool-cases, some, List, [], ◌++◌, take, drop, length-drop, append_assoc, append-nil,
  drop-all, length-take, add64, mul64, add64-eq, mul64-eq, word, arith,
}
use cyc_flow.Chunk.{Byte}
use cyc_flow.Chunk
use cyc_flow.Chunk.Log.{Holds, push-Holds}
use cyc_flow.RecBuffer.{RecBuffer, push, get_available_write_space}
use cyc_flow.RecBuffer.Space.{chunk_size-push, impl-get_available_write_space}
use cyc_flow.Writer.{flush_step, finish_work}
use cyc_flow.Writer.Bytes.{cut}
use cyc_flow.Writer.Threads.{World, pending}
use cyc_flow.Writer.Invariant.{IsFlushing}

pending-done :
    (busy : Bool) (written count : ℕ) (bytes : List Byte)
    → count ≤ written
    → pending busy written count bytes ≡ []
pending-done false written count bytes h = refl
pending-done true written count bytes h =
    drop-all written (take count bytes) (omega (arith, length-take count bytes, h))

module _ {base : List Byte} {w : World} (d : IsFlushing base w) where
  -- The records from `written` on that one turn moves to the ring.
  abbrev part : ℕ → List Byte
  part written =
      take ((written - w.written) * w.writer.rec_size)
        (drop (w.written * w.writer.rec_size) w.writer.bg_buf)

  below : w.writer.bg_count * w.writer.rec_size ≤ w.writer.capacity * w.writer.rec_size
  below = mul-le-mul_right w.writer.rec_size d.count_in

  spread :
      (c : ℕ)
      → (w.written + c) * w.writer.rec_size ≡ w.written * w.writer.rec_size + c * w.writer.rec_size
  spread c = add-mul w.written c w.writer.rec_size

  -- A push of the next `chunk` records of the background buffer.
  pushed-Holds :
      (b : RecBuffer) (chunk : ℕ)
      → b.impl ≡ w.buffer.impl
      → w.written + chunk ≤ w.writer.bg_count
      → w.buffer.impl.total_written + w.writer.bg_count < word
      → Holds
          (push (some (drop (w.written * w.writer.rec_size) w.writer.bg_buf)) chunk b).0.impl
          (w.log ++ part (w.written + chunk))
  unfolding push
  pushed-Holds b chunk same fits total =
      subst (λ c. Holds (Chunk.push (some next) chunk c) (w.log ++ part (w.written + chunk)))
        (sym same)
        (subst (λ k. Holds (Chunk.push (some next) chunk w.buffer.impl) (w.log ++ take k next))
          bytes
          (push-Holds next w.log chunk
            (omega (
              arith,
              size,
              length-drop (w.written * w.writer.rec_size) w.writer.bg_buf,
              inside,
              spread chunk,
              below,
              d.bg_room,
            ))
            (omega (arith, size, inside, spread chunk, below, d.small)) (omega (arith, fits, total))
            d.holds))
    where
      next : List Byte
      next = drop (w.written * w.writer.rec_size) w.writer.bg_buf

      size : chunk * w.buffer.impl.chunk_size ≡ chunk * w.writer.rec_size
      size = ap (λ c. chunk * c) (sym d.sized)

      bytes : chunk * w.buffer.impl.chunk_size ≡ (w.written + chunk - w.written) * w.writer.rec_size
      bytes =
          let e : chunk ≡ w.written + chunk - w.written = omega arith in
          size ∙ ap (λ c. c * w.writer.rec_size) e

      inside : (w.written + chunk) * w.writer.rec_size ≤ w.writer.bg_count * w.writer.rec_size
      inside = mul-le-mul_right w.writer.rec_size fits

  pub pumped-IsFlushing :
      (b : RecBuffer) (written : ℕ)
      → w.writer.has_work ≡ true
      → w.flushing ≡ true
      → w.written ≤ written
      → written ≤ w.writer.bg_count
      → (w.writer.block_on_full ≡ true) ⊎ (written ≡ 0) ⊎ (w.writer.bg_count ≤ written)
      → b.impl.chunk_size ≡ w.buffer.impl.chunk_size
      → Holds b.impl (w.log ++ part written)
      → IsFlushing base (record w { buffer = b; written = written; log = w.log ++ part written })
  pumped-IsFlushing b written busy inside ahead fits whole size holds = record {
    holds = holds;
    sized = d.sized ∙ sym size;
    running = d.running;
    idx_in = d.idx_in;
    count_in = d.count_in;
    written_in = fits;
    active_room = d.active_room;
    bg_room = d.bg_room;
    small = d.small;
    at_rest = inl inside;
    whole = whole;
    at_work = inl busy;
    order =
        ap
          (λ h.
            (w.log ++ part written)
            ++ (pending h (written * w.writer.rec_size) all w.writer.bg_buf ++ active))
          busy
        ∙ append_assoc w.log (part written)
            (drop (written * w.writer.rec_size) (take all w.writer.bg_buf) ++ active)
        ∙ ap (λ xs. w.log ++ xs)
            (sym (
              append_assoc (part written)
                (drop (written * w.writer.rec_size) (take all w.writer.bg_buf)) active))
        ∙ ap (λ k. w.log ++ ((part written ++ drop k (take all w.writer.bg_buf)) ++ active)) ends
        ∙ ap (λ xs. w.log ++ (xs ++ active))
            (cut (w.written * w.writer.rec_size) ((written - w.written) * w.writer.rec_size) all
              w.writer.bg_buf (omega (arith, ends, inside_all)))
        ∙ sym (
            ap
              (λ h.
                w.log ++ (pending h (w.written * w.writer.rec_size) all w.writer.bg_buf ++ active))
              busy)
        ∙ d.order;
  }
    where
      active : List Byte
      active = take (w.writer.current_idx * w.writer.rec_size) w.writer.active_buf

      all : ℕ
      all = w.writer.bg_count * w.writer.rec_size

      inside_all : written * w.writer.rec_size ≤ all
      inside_all = mul-le-mul_right w.writer.rec_size fits

      ends :
          written * w.writer.rec_size
          ≡ w.written * w.writer.rec_size + (written - w.written) * w.writer.rec_size
      ends =
          let e : w.written + (written - w.written) ≡ written = omega (arith, ahead) in
          ap (λ k. k * w.writer.rec_size) (sym e) ∙ spread (written - w.written)

  abbrev Pumps : ℕ × RecBuffer → Type 0
  Pumps r = IsFlushing base (record w { buffer = r.1; written = r.0; log = w.log ++ part r.0 })

  pub pump-IsFlushing :
      (cursors : ℕ → ℕ) (between : RecBuffer → RecBuffer)
      → ((b : RecBuffer) → (between b).impl ≡ b.impl)
      → w.flushing ≡ true
      → w.written < w.writer.bg_count
      → w.buffer.impl.total_written + w.writer.bg_count < word
      → Pumps (flush_step cursors between w.written w.writer w.buffer)
  unfolding flush_step
  pump-IsFlushing cursors between quiet inside todo total =
      elim (Bool-cases w.writer.block_on_full) [
        | inl e ↦ elim (Bool-cases (space == 0)) [
          | inl f ↦ goes (waits e f) (
              pumped-IsFlushing ready w.written (busy d.at_work) inside (omega arith) d.written_in
                (inl e) (ap (λ c. c.chunk_size) same)
                (subst (λ c. Holds c (w.log ++ part w.written)) (sym same)
                  (subst (Holds w.buffer.impl) (sym none) d.holds)))
          | inr f ↦ goes (moves e f) (
              pumped-IsFlushing (push (some next) chunk ready).0 (w.written + chunk)
                (busy d.at_work) inside (omega arith) (omega (arith, todo)) (inl e)
                (chunk_size-push (some next) chunk ready ∙ ap (λ c. c.chunk_size) same)
                (pushed-Holds ready chunk same (omega (arith, todo)) total))
        ]
        | inr e ↦ goes (hands e) (
            pumped-IsFlushing (push (some w.writer.bg_buf) w.writer.bg_count w.buffer).0
              w.writer.bg_count (busy d.at_work) inside (omega (arith, todo)) (omega arith)
              (inr (inr (omega arith)))
              (chunk_size-push (some w.writer.bg_buf) w.writer.bg_count w.buffer)
              (whole_push (fresh e d.whole)))
      ]
    where
      goes :
          {r : ℕ × RecBuffer}
          → flush_step cursors between w.written w.writer w.buffer ≡ r
          → Pumps r
          → Pumps (flush_step cursors between w.written w.writer w.buffer)
      goes e p = subst Pumps (sym e) p

      space : ℕ
      space = (get_available_write_space cursors w.buffer).0

      ready : RecBuffer
      ready = between (get_available_write_space cursors w.buffer).1

      same : ready.impl ≡ w.buffer.impl
      same =
          quiet (get_available_write_space cursors w.buffer).1
          ∙ impl-get_available_write_space cursors w.buffer

      chunk : ℕ
      chunk = min (w.writer.bg_count - w.written) space

      next : List Byte
      next = drop (w.written * w.writer.rec_size) w.writer.bg_buf

      sum : add64 w.written chunk ≡ w.written + chunk
      sum = add64-eq w.written chunk (omega (arith, todo, total))

      place : mul64 w.written w.writer.rec_size ≡ w.written * w.writer.rec_size
      place = mul64-eq w.written w.writer.rec_size (
          omega (
            arith,
            mul-le-mul_right {m = w.written} {n = w.writer.bg_count} w.writer.rec_size
                (omega (arith, todo)),
            below,
            d.small,
          ))

      hands :
          w.writer.block_on_full ≡ false
          → flush_step cursors between w.written w.writer w.buffer
            ≡ (w.writer.bg_count, (push (some w.writer.bg_buf) w.writer.bg_count w.buffer).0)
      hands e = ground (arith, e)

      waits :
          w.writer.block_on_full ≡ true
          → (space == 0) ≡ true
          → flush_step cursors between w.written w.writer w.buffer ≡ (w.written, ready)
      waits e f = ground (arith, e, f)

      moves :
          w.writer.block_on_full ≡ true
          → (space == 0) ≡ false
          → flush_step cursors between w.written w.writer w.buffer
            ≡ (w.written + chunk, (push (some next) chunk ready).0)
      moves e f =
          let g : flush_step cursors between w.written w.writer w.buffer ≡ (
            add64 w.written chunk,
            (push (some (drop (mul64 w.written w.writer.rec_size) w.writer.bg_buf)) chunk ready).0,
          ) =
            ground (arith, e, f) in
          g
          ∙ ap
              (λ n. (
                n,
                (push (some (drop (mul64 w.written w.writer.rec_size) w.writer.bg_buf)) chunk
                    ready).0,
              ))
              sum
          ∙ ap (λ k. (w.written + chunk, (push (some (drop k w.writer.bg_buf)) chunk ready).0))
              place

      busy : (w.writer.has_work ≡ true) ⊎ (w.flushing ≡ false) → w.writer.has_work ≡ true
      busy (inl h) = h
      busy (inr h) = absurd (ground (arith, h, inside))

      fresh :
          w.writer.block_on_full ≡ false
          → (w.writer.block_on_full ≡ true) ⊎ (w.written ≡ 0) ⊎ (w.writer.bg_count ≤ w.written)
          → w.written ≡ 0
      fresh e (inl h) = absurd (ground (arith, h, e))
      fresh e (inr (inl h)) = h
      fresh e (inr (inr h)) = absurd (omega (arith, h, todo))

      none : w.log ++ part w.written ≡ w.log
      none =
          let e : w.written - w.written ≡ 0 = omega arith in
          let f : 0 * w.writer.rec_size ≡ 0 = omega arith in
          ap (λ k. w.log ++ take (k * w.writer.rec_size) next) e
          ∙ ap (λ k. w.log ++ take k next) f
          ∙ append-nil w.log

      whole_push :
          w.written ≡ 0
          → Holds
              (push (some w.writer.bg_buf) w.writer.bg_count w.buffer).0.impl
              (w.log ++ part w.writer.bg_count)
      whole_push e =
          let z : w.written * w.writer.rec_size ≡ 0 =
            ap (λ k. k * w.writer.rec_size) e ∙ omega arith in
          let s : w.written + w.writer.bg_count ≡ w.writer.bg_count = omega (arith, e) in
          subst
            (λ k.
              Holds (push (some (drop k w.writer.bg_buf)) w.writer.bg_count w.buffer).0.impl
                (w.log ++ part w.writer.bg_count))
            z
            (subst
              (λ k. Holds (push (some next) w.writer.bg_count w.buffer).0.impl (w.log ++ part k)) s
              (pushed-Holds w.buffer w.writer.bg_count refl (omega (arith, e)) total))

  pub clean-IsFlushing :
      w.writer.bg_count ≤ w.written
      → IsFlushing base (record w { writer = finish_work w.writer; flushing = false; written = 0 })
  unfolding finish_work
  clean-IsFlushing done = record {
    holds = d.holds;
    sized = d.sized;
    running = d.running;
    idx_in = d.idx_in;
    count_in = omega arith;
    written_in = omega arith;
    active_room = d.active_room;
    bg_room = d.bg_room;
    small = d.small;
    at_rest = inr refl;
    whole = inr (inl refl);
    at_work = inr refl;
    order =
        ap
          (λ xs.
            w.log ++ (xs ++ take (w.writer.current_idx * w.writer.rec_size) w.writer.active_buf))
          (sym (
            pending-done w.writer.has_work (w.written * w.writer.rec_size)
              (w.writer.bg_count * w.writer.rec_size) w.writer.bg_buf
              (mul-le-mul_right w.writer.rec_size done)))
        ∙ d.order;
  }

  pub others-IsFlushing :
      (b : RecBuffer) → b.impl ≡ w.buffer.impl → IsFlushing base (record w { buffer = b })
  others-IsFlushing b same = record {
    holds = subst (λ c. Holds c w.log) (sym same) d.holds;
    sized = d.sized ∙ sym (ap (λ c. c.chunk_size) same);
    running = d.running;
    idx_in = d.idx_in;
    count_in = d.count_in;
    written_in = d.written_in;
    active_room = d.active_room;
    bg_room = d.bg_room;
    small = d.small;
    at_rest = d.at_rest;
    whole = d.whole;
    at_work = d.at_work;
    order = d.order;
  }

  pub pick-IsFlushing : w.writer.has_work ≡ true → IsFlushing base (record w { flushing = true })
  pick-IsFlushing busy = record {
    holds = d.holds;
    sized = d.sized;
    running = d.running;
    idx_in = d.idx_in;
    count_in = d.count_in;
    written_in = d.written_in;
    active_room = d.active_room;
    bg_room = d.bg_room;
    small = d.small;
    at_rest = inl refl;
    whole = d.whole;
    at_work = inl busy;
    order = d.order;
  }
