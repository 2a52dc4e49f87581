-- ===== src/Reader/Fetch.antt =====
-- The worker's copy and its publication keep the order of the buffered reader.
use cyc_flow.Base.{
  ℕ, ◌+◌, ◌*◌, ◌≤◌, ◌<◌, ◌≡◌, refl, ap, sym, ◌∙◌, subst, inl, inr, true, false, ltb, ltb_false→le,
  ◌==◌, Bool-cases, if◌then◌else◌, List, ◌++◌, length, take, drop, length-append, length-take,
  length-drop, take-append_left, take-all, add64-eq, arith,
}
use native.Mathlib.Nat.{add-mul, mul-le-mul_right}
use cyc_flow.Chunk.{Byte}
use cyc_flow.Chunk.Log.{Holds}
use cyc_flow.Chunk.Read.{chunks_of}
use cyc_flow.RecBuffer.{RecBuffer}
use cyc_flow.RecBuffer.Read.{IsKept, read_from_global-log}
use cyc_flow.Reader.{Reader, fetch, publish}
use cyc_flow.Reader.Threads.{World, Phase}
use cyc_flow.Reader.Invariant.{InOrder}
use cyc_flow.Reader.Worker.{at_phase}

-- What the copy leaves, for a job that is held.
fetch-held :
    (b : RecBuffer) {log : List Byte} (r : Reader) (cursor count : ℕ)
    → Holds b.impl log
    → IsKept cursor b
    → 0 < count
    → cursor + count ≤ b.impl.total_written
    → count * b.impl.chunk_size ≤ length r.bg_buf
    → fetch cursor count b r ≡ (
      count,
      record r {
        bg_buf =
            chunks_of b.impl.chunk_size cursor count log
            ++ drop (count * b.impl.chunk_size) r.bg_buf;
        reader_cursor = cursor + count;
      },
    )
unfolding fetch
fetch-held b r cursor count h kept p fits room = simp (
  read_from_global-log b h cursor count r.bg_buf kept p fits room,
  some_read,
  add64-eq cursor count (omega (arith, fits, h.no_wrap)),
)
  where
    some_read : (count == 0) ≡ false
    some_read = ground (arith, p)

length-chunks_of :
    (b : RecBuffer) {log : List Byte} (i n : ℕ)
    → Holds b.impl log
    → i + n ≤ b.impl.total_written
    → length (chunks_of b.impl.chunk_size i n log) ≡ n * b.impl.chunk_size
length-chunks_of b {log} i n h fits = omega (
  arith,
  length-take (n * b.impl.chunk_size) (drop (i * b.impl.chunk_size) log),
  length-drop (i * b.impl.chunk_size) log,
  h.counted,
  add-mul i n b.impl.chunk_size,
  mul-le-mul_right b.impl.chunk_size fits,
)

pub fetch-InOrder :
    {start base : ℕ} {w : World} (cursor count : ℕ)
    → w.phase ≡ Phase.planned cursor count
    → InOrder start base w
    → InOrder start base (record w {
      reader = (fetch cursor count w.buffer w.reader).1;
      phase = Phase.fetched (fetch cursor count w.buffer w.reader).0;
    })
fetch-InOrder {start} {base} {w} cursor count e d' =
    subst (λ o. InOrder start base (record w { reader = o.1; phase = Phase.fetched o.0 })) (sym out)
      (record {
        holds = d.holds;
        small = d.small;
        unique = d.unique;
        known = d.known;
        kept = (written, omega (arith, d.kept, same));
        sized = d.sized;
        capacity_positive = d.capacity_positive;
        bg_room = omega (
          arith,
          d.bg_room,
          size,
          length-append run (drop (count * w.buffer.impl.chunk_size) w.reader.bg_buf),
          length-drop (count * w.buffer.impl.chunk_size) w.reader.bg_buf,
          room,
        );
        active_room = d.active_room;
        short = d.short;
        bg_short = fits;
        capacity_short = d.capacity_short;
        in_phase = (d.in_phase.0, d.in_phase.1, d.in_phase.2);
        from_start = d.from_start;
        idx_in = d.idx_in;
        next_cursor = omega (arith, same, d.next_cursor, d.in_phase.2);
        active = d.active;
        background =
            take-append_left (count * w.buffer.impl.chunk_size) run
              (drop (count * w.buffer.impl.chunk_size) w.reader.bg_buf) (omega (arith, size))
            ∙ take-all (count * w.buffer.impl.chunk_size) run (omega (arith, size))
            ∙ ap (λ k. chunks_of w.buffer.impl.chunk_size k count w.log)
                (at_end d.next_cursor d.in_phase.2);
        covers = ground (arith, d.covers, same);
        shown = d.shown;
      })
  where
    d : InOrder start base (record w { phase = Phase.planned cursor count })
    d = at_phase (Phase.planned cursor count) e d'

    same : cursor ≡ w.reader.reader_cursor
    same = d.in_phase.3

    some_there : 0 < count
    some_there = d.in_phase.4

    fits : count ≤ w.reader.capacity
    fits = d.in_phase.5

    written : cursor + count ≤ w.buffer.impl.total_written
    written = d.in_phase.6

    room : count * w.buffer.impl.chunk_size ≤ length w.reader.bg_buf
    room = omega (arith, d.bg_room, mul-le-mul_right w.buffer.impl.chunk_size fits)

    run : List Byte
    run = chunks_of w.buffer.impl.chunk_size cursor count w.log

    size : length run ≡ count * w.buffer.impl.chunk_size
    size = length-chunks_of w.buffer cursor count d.holds written

    at_end :
        w.reader.reader_cursor ≡ base + w.reader.active_count + w.reader.bg_count
        → w.reader.bg_count ≡ 0
        → cursor ≡ base + w.reader.active_count
    at_end h z = omega (arith, h, z, same)

    out : fetch cursor count w.buffer w.reader ≡ (
      count,
      record w.reader {
        bg_buf = run ++ drop (count * w.buffer.impl.chunk_size) w.reader.bg_buf;
        reader_cursor = cursor + count;
      },
    )
    out =
        fetch-held w.buffer w.reader cursor count d.holds
          (subst (λ k. IsKept k w.buffer) (sym same) d.kept) some_there written room

pub publish-InOrder :
    {start base : ℕ} {w : World} (read : ℕ)
    → w.phase ≡ Phase.fetched read
    → InOrder start base w
    → InOrder start base (record w { reader = publish read w.reader; phase = Phase.idle })
unfolding publish
publish-InOrder {start} {base} {w} read e d' = elim (Bool-cases (ltb 0 read)) [
  | inl some_read ↦
      subst
        (λ b. InOrder start base (record w {
          reader = if b then record w.reader { bg_count = read; bg_is_full = true } else w.reader;
          phase = Phase.idle;
        }))
        (sym some_read)
        (record {
          holds = d.holds;
          small = d.small;
          unique = d.unique;
          known = d.known;
          kept = d.kept;
          sized = d.sized;
          capacity_positive = d.capacity_positive;
          bg_room = d.bg_room;
          active_room = d.active_room;
          short = d.short;
          bg_short = d.bg_short;
          capacity_short = d.capacity_short;
          in_phase = inl refl;
          from_start = d.from_start;
          idx_in = d.idx_in;
          next_cursor = d.next_cursor;
          active = d.active;
          background = d.background;
          covers = d.covers;
          shown = d.shown;
        })
  | inr nothing ↦
      subst
        (λ b. InOrder start base (record w {
          reader = if b then record w.reader { bg_count = read; bg_is_full = true } else w.reader;
          phase = Phase.idle;
        }))
        (sym nothing)
        (record {
          holds = d.holds;
          small = d.small;
          unique = d.unique;
          known = d.known;
          kept = d.kept;
          sized = d.sized;
          capacity_positive = d.capacity_positive;
          bg_room = d.bg_room;
          active_room = d.active_room;
          short = d.short;
          bg_short = omega (arith, d.in_phase.2);
          capacity_short = d.capacity_short;
          in_phase = inr d.in_phase.2;
          from_start = d.from_start;
          idx_in = d.idx_in;
          next_cursor = omega (arith, d.next_cursor, none_read nothing);
          active = d.active;
          background =
              subst
                (λ n.
                  take (n * w.buffer.impl.chunk_size) w.reader.bg_buf
                  ≡ chunks_of w.buffer.impl.chunk_size (base + w.reader.active_count) n w.log)
                (none_read nothing) d.background;
          covers = d.covers;
          shown = d.shown;
        })
]
  where
    d : InOrder start base (record w { phase = Phase.fetched read })
    d = at_phase (Phase.fetched read) e d'

    none_read : ltb 0 read ≡ false → read ≡ w.reader.bg_count
    none_read h = omega (arith, ltb_false→le 0 read h, d.in_phase.2)
