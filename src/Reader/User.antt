-- ===== src/Reader/User.antt =====
-- The user's `nextBatch` keeps the order of the buffered reader.
use cyc_flow.Base.{
  ℕ, ◌+◌, ◌-◌, ◌*◌, ◌≤◌, min, ◌≡◌, refl, ap, sym, ◌∙◌, subst, inl, inr, Bool, true, false, not,
  ◌&&◌, leb, Bool-cases, if◌then◌else◌, Option, none, some, ◌++◌, take, drop, slice, append-nil,
  add64, mul64, add64-eq, mul64-eq, arith,
}
use native.Mathlib.Nat.{mul-le-mul_right, le-mul_of_pos_right}
use cyc_flow.Chunk.Read.{chunks_of, chunks_of-add}
use cyc_flow.RecBuffer.{RecBuffer}
use cyc_flow.Reader.{Reader, swap_buffers, from_active, next_batch}
use cyc_flow.Reader.Threads.{World, Phase, batch_bytes}
use cyc_flow.Reader.Invariant.{InOrder, InPhase, slice-chunks_of}

-- The world after a batch.
unfoldable pub taken : World → (Option ℕ × ℕ) × Reader → World
taken w out = record w { reader = out.1; seen = w.seen ++ batch_bytes out }

none-InOrder :
    {start base : ℕ} {w : World}
    → InOrder start base w
    → InOrder start base (taken w ((none, 0), w.reader))
unfolding taken batch_bytes
none-InOrder {start} {base} {w} d =
    subst (λ xs. InOrder start base (record w { seen = xs })) (sym (append-nil w.seen)) d

InPhase-idx :
    (phase : Phase) (r : Reader) (b : RecBuffer) (idx : ℕ)
    → InPhase phase r b
    → InPhase phase (record r { active_idx = idx }) b
InPhase-idx Phase.idle r b idx p = p
InPhase-idx (Phase.planned cursor count) r b idx p = p
InPhase-idx (Phase.fetched read) r b idx p = p

-- `n` records from the active buffer.
some-InOrder :
    {start base : ℕ} {w : World} (n : ℕ)
    → w.reader.active_idx + n ≤ w.reader.active_count
    → InOrder start base w
    → InOrder start base (
        taken w (
          (some (mul64 w.reader.active_idx w.reader.rec_size), n),
          record w.reader { active_idx = add64 w.reader.active_idx n },
        ))
unfolding taken batch_bytes
some-InOrder {start} {base} {w} n fits d = rw sum (record {
  holds = d.holds;
  small = d.small;
  unique = d.unique;
  known = d.known;
  kept = d.kept;
  sized = d.sized;
  capacity_positive = d.capacity_positive;
  bg_room = d.bg_room;
  active_room = d.active_room;
  short = d.short;
  bg_short = d.bg_short;
  capacity_short = d.capacity_short;
  in_phase = InPhase-idx w.phase w.reader w.buffer (w.reader.active_idx + n) d.in_phase;
  from_start = d.from_start;
  idx_in = fits;
  next_cursor = d.next_cursor;
  active = d.active;
  background = d.background;
  covers = d.covers;
  shown =
      ap
        (λ xs.
          xs
          ++ slice (mul64 w.reader.active_idx w.reader.rec_size) (n * w.reader.rec_size)
              w.reader.active_buf)
        d.shown
      ∙ ap
          (λ xs.
            chunks_of w.buffer.impl.chunk_size start (base + w.reader.active_idx - start) w.log
            ++ xs)
          got
      ∙ chunks_of-add w.buffer.impl.chunk_size start (base + w.reader.active_idx - start) n w.log
      ∙ ap (λ k. chunks_of w.buffer.impl.chunk_size start k w.log) more;
})
  where
    sum : add64 w.reader.active_idx n ≡ w.reader.active_idx + n
    sum = add64-eq w.reader.active_idx n (
        omega (
          arith,
          fits,
          d.short,
          le-mul_of_pos_right w.reader.active_count d.holds.aligned.chunk_positive,
        ))

    place :
        mul64 w.reader.active_idx w.buffer.impl.chunk_size
        ≡ w.reader.active_idx * w.buffer.impl.chunk_size
    place =
        mul64-eq w.reader.active_idx w.buffer.impl.chunk_size
          (omega (arith, d.short, mul-le-mul_right w.buffer.impl.chunk_size d.idx_in))

    joined : base + w.reader.active_idx ≡ start + (base + w.reader.active_idx - start)
    joined = omega (arith, d.from_start)

    more : base + w.reader.active_idx - start + n ≡ base + (w.reader.active_idx + n) - start
    more = omega (arith, d.from_start)

    got :
        slice
          (mul64 w.reader.active_idx w.reader.rec_size)
          (n * w.reader.rec_size)
          w.reader.active_buf
        ≡ chunks_of w.buffer.impl.chunk_size (start + (base + w.reader.active_idx - start)) n w.log
    got =
        ap (λ k. slice (mul64 w.reader.active_idx k) (n * k) w.reader.active_buf) d.sized
        ∙ ap (λ p. slice p (n * w.buffer.impl.chunk_size) w.reader.active_buf) place
        ∙ slice-chunks_of w.buffer.impl.chunk_size w.reader.active_idx n w.reader.active_count base
            w.reader.active_buf w.log d.active fits
        ∙ ap (λ k. chunks_of w.buffer.impl.chunk_size k n w.log) joined

from_active-InOrder :
    {start base : ℕ} {w : World} (max_records : ℕ)
    → InOrder start base w
    → InOrder start base (taken w (from_active max_records w.reader))
unfolding from_active
from_active-InOrder {start} {base} {w} max_records d =
    elim (Bool-cases (leb w.reader.active_count w.reader.active_idx)) [
      | inl drained ↦ by_test true drained (none-InOrder d)
      | inr left ↦ by_test false left (
          some-InOrder (min max_records (w.reader.active_count - w.reader.active_idx))
            (omega (arith, d.idx_in)) d)
    ]
  where
    outcome : Bool → (Option ℕ × ℕ) × Reader
    outcome b = if b then ((none, 0), w.reader) else (
      (
        some (mul64 w.reader.active_idx w.reader.rec_size),
        min max_records (w.reader.active_count - w.reader.active_idx),
      ),
      record w.reader {
        active_idx =
            add64 w.reader.active_idx
              (min max_records (w.reader.active_count - w.reader.active_idx));
      },
    )

    by_test :
        (b : Bool)
        → leb w.reader.active_count w.reader.active_idx ≡ b
        → InOrder start base (taken w (outcome b))
        → InOrder start base (taken w (outcome (leb w.reader.active_count w.reader.active_idx)))
    by_test b e p = subst (λ b. InOrder start base (taken w (outcome b))) (sym e) p

-- Buffers are only swapped while the worker is idle.
swap-idle :
    (phase : Phase) (r : Reader) (b : RecBuffer)
    → (not r.bg_is_full && r.running) ≡ false
    → InPhase phase r b
    → phase ≡ Phase.idle
swap-idle Phase.idle r b h p = refl
swap-idle (Phase.planned cursor count) r b h p = absurd (ground (arith, p.0, p.1))
swap-idle (Phase.fetched read) r b h p = absurd (ground (arith, p.0, p.1))

swapped-InOrder :
    {start base : ℕ} {w : World}
    → (not w.reader.bg_is_full && w.reader.running) ≡ false
    → w.reader.active_idx ≡ w.reader.active_count
    → InOrder start base w
    → InOrder start (base + w.reader.active_count) (record w { reader = (swap_buffers w.reader).1 })
unfolding swap_buffers
swapped-InOrder {start} {base} {w} goes drained d' =
    rw (goes, e)
      (record {
        holds = d.holds;
        small = d.small;
        unique = d.unique;
        known = d.known;
        kept = d.kept;
        sized = d.sized;
        capacity_positive = d.capacity_positive;
        bg_room = d.active_room;
        active_room = d.bg_room;
        short =
            omega (arith, d.capacity_short, mul-le-mul_right w.buffer.impl.chunk_size d.bg_short);
        bg_short = omega arith;
        capacity_short = d.capacity_short;
        in_phase = inr refl;
        from_start = omega (arith, d.from_start);
        idx_in = omega arith;
        next_cursor = omega (arith, d.next_cursor);
        active = d.background;
        background =
            ap (λ k. take k w.reader.active_buf) (sym none_yet)
            ∙ ap
                (λ k. take k (
                  drop
                    ((base + w.reader.active_count + w.reader.bg_count) * w.buffer.impl.chunk_size)
                    w.log))
                none_yet;
        covers = d.covers;
        shown =
            d.shown
            ∙ ap (λ k. chunks_of w.buffer.impl.chunk_size start (base + k - start) w.log) drained
            ∙ ap (λ k. chunks_of w.buffer.impl.chunk_size start (k - start) w.log) same;
      })
  where
    e : w.phase ≡ Phase.idle
    e = swap-idle w.phase w.reader w.buffer goes d'.in_phase

    d : InOrder start base (record w { phase = Phase.idle })
    d = subst (λ q. InOrder start base (record w { phase = q })) e d'

    none_yet : 0 ≡ 0 * w.buffer.impl.chunk_size
    none_yet = omega arith

    same : base + w.reader.active_count ≡ base + w.reader.active_count + 0
    same = omega arith

pub next_batch-InOrder :
    {start base : ℕ} {w : World} (max_records : ℕ)
    → InOrder start base w
    → (base' : ℕ) × InOrder start base' (taken w (next_batch max_records w.reader))
unfolding swap_buffers from_active mul64 taken
next_batch-InOrder {start} {base} {w} max_records d =
    elim (Bool-cases (leb w.reader.active_count w.reader.active_idx)) [
      | inr left ↦ (
        base,
        by_out (from_active max_records w.reader) base (unfold next_batch in simp left)
            (from_active-InOrder max_records d),
      )
      | inl drained ↦ elim (Bool-cases (not w.reader.bg_is_full && w.reader.running)) [
        | inl nothing ↦ (
          base,
          by_out ((none, 0), w.reader) base
              (unfold next_batch swap_buffers in simp (drained, nothing)) (none-InOrder d),
        )
        | inr goes ↦ (
          base + w.reader.active_count,
          by_out (from_active max_records (swap_buffers w.reader).1) (base + w.reader.active_count)
              (unfold next_batch swap_buffers in simp (drained, goes))
              (from_active-InOrder max_records (
                swapped-InOrder goes
                  (omega
                    (arith, leb→le w.reader.active_count w.reader.active_idx drained, d.idx_in))
                  d)),
        )
      ]
    ]
  where
    by_out :
        (out : (Option ℕ × ℕ) × Reader) (base' : ℕ)
        → next_batch max_records w.reader ≡ out
        → InOrder start base' (taken w out)
        → InOrder start base' (taken w (next_batch max_records w.reader))
    by_out out base' e p = subst (λ o. InOrder start base' (taken w o)) (sym e) p

    leb→le : (m n : ℕ) → leb m n ≡ true → m ≤ n
    leb→le m n h = ground arith
