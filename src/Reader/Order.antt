-- ===== src/Reader/Order.antt =====
-- The order in which the buffered reader hands records to its user.
use cyc_flow.Base.{
  ℕ, ◌+◌, ◌-◌, ◌*◌, ◌≤◌, ◌<◌, ◌≡◌, refl, ap, sym, ◌∙◌, inl, inr, true, ◌||◌, ◌==◌, ==→eq, List, [],
  length, take, drop, replicate, length-replicate, mul64, mul64-eq, word, arith,
}
use cyc_flow.Chunk.{Byte}
use cyc_flow.Chunk.Log.{Holds}
use cyc_flow.Chunk.Read.{chunks_of}
use cyc_flow.RecBuffer.{RecBuffer, no_cursor, contains, add_client, remove_client}
use cyc_flow.RecBuffer.Clients.{IsUnique, add_client-contains, remove_client-contains}
use cyc_flow.ReaderZc.{start_cursor}
use cyc_flow.ReaderZc.Delivery.Order.{start_cursor-kept}
use cyc_flow.ReaderZc.Delivery.Invariant.{impl-add_client, impl-remove_client}
use cyc_flow.Reader.{init}
use cyc_flow.Reader.Threads.{
  World, Phase, Step, ask, write, join, leave, end, stand_by, look, load, hand_over, take_out,
  Reach, here, next, start_world,
}
use cyc_flow.Reader.Invariant.{InOrder, behind}
use cyc_flow.Reader.Others.{ask-InOrder, write-InOrder, clients-InOrder}
use cyc_flow.Reader.Worker.{finish-InOrder, check-InOrder, plan-InOrder}
use cyc_flow.Reader.Fetch.{fetch-InOrder, publish-InOrder}
use cyc_flow.Reader.User.{taken, next_batch-InOrder}

Step-InOrder :
    {start base : ℕ} {w x : World}
    → InOrder start base w
    → Step w x
    → (base' : ℕ) × InOrder start base' x
unfolding taken
Step-InOrder {start} {base} d (ask cursors older) = (base, ask-InOrder cursors older d)
Step-InOrder {start} {base} d (write source count fits given bytes total) =
    (base, write-InOrder source count fits given bytes total d)
Step-InOrder {start} {base} {w} d (join client) =
    let joined = add_client-contains client w.reader.self w.buffer d.unique in
    (
      base,
      clients-InOrder (add_client client w.buffer) (impl-add_client client w.buffer) joined.1
          (ground (arith, joined.0, d.known)) d,
    )
Step-InOrder {start} {base} {w} d (leave client other) =
    let left = remove_client-contains client w.reader.self w.buffer d.unique in
    (
      base,
      clients-InOrder (remove_client client w.buffer) (impl-remove_client client w.buffer) left.1
          (ground (arith, left.0, d.known, other, ==→eq client w.reader.self)) d,
    )
Step-InOrder {start} {base} d end = (base, finish-InOrder d)
Step-InOrder {start} {base} d (stand_by e) = (base, check-InOrder e d)
Step-InOrder {start} {base} d (look cursor count e run free job) =
    (base, plan-InOrder cursor count e run free job d)
Step-InOrder {start} {base} d (load cursor count e) = (base, fetch-InOrder cursor count e d)
Step-InOrder {start} {base} d (hand_over read e) = (base, publish-InOrder read e d)
Step-InOrder d (take_out max_records) = next_batch-InOrder max_records d

Reach-InOrder :
    {start base : ℕ} {v w : World}
    → InOrder start base v
    → Reach v w
    → (base' : ℕ) × InOrder start base' w
Reach-InOrder {start} {base} d here = (base, d)
Reach-InOrder d (next p s) = Step-InOrder (Reach-InOrder d p).1 s

start-InOrder :
    (self batch_capacity : ℕ) (between : RecBuffer → RecBuffer) (b : RecBuffer) {log : List Byte}
    → Holds b.impl log
    → b.impl.total_written < no_cursor
    → (between b).impl ≡ b.impl
    → IsUnique (between b).clients
    → 0 < batch_capacity
    → batch_capacity * b.impl.chunk_size < word
    → InOrder (start_cursor b) (start_cursor b) (start_world self batch_capacity between b log)
unfolding start_world init
start-InOrder self batch_capacity between b {log} h small quiet unique p q =
    clients-InOrder {w = alone} (add_client self (between b))
      (impl-add_client self (between b) ∙ quiet) added.1 known
      (record {
        holds = h;
        small = small;
        unique = added.1;
        known = known;
        kept = start_cursor-kept b h;
        sized = refl;
        capacity_positive = p;
        bg_room = omega (arith, size, blank);
        active_room = omega (arith, size, blank);
        short = omega arith;
        bg_short = omega arith;
        capacity_short = q;
        in_phase = inr refl;
        from_start = omega arith;
        idx_in = omega arith;
        next_cursor = omega arith;
        active =
            empty_run (0 * b.impl.chunk_size) zeros (drop (start_cursor b * b.impl.chunk_size) log)
              (omega arith);
        background =
            empty_run (0 * b.impl.chunk_size) zeros
              (drop ((start_cursor b + 0) * b.impl.chunk_size) log) (omega arith);
        covers = inl refl;
        shown = ap (λ k. take k (drop (start_cursor b * b.impl.chunk_size) log)) none_yet;
      })
  where
    alone : World
    alone = record {
      buffer = record b { clients = (add_client self (between b)).clients };
      reader = (init self batch_capacity between b).0;
      told = 0;
      phase = Phase.idle;
      log = log;
      seen = [];
    }

    added :
        (contains self (add_client self (between b)).clients
          ≡ (contains self (between b).clients || self == self))
        × IsUnique (add_client self (between b)).clients
    added = add_client-contains self self (between b) unique

    known : contains self (add_client self (between b)).clients ≡ true
    known = ground (arith, added.0)

    size : mul64 batch_capacity b.impl.chunk_size ≡ batch_capacity * b.impl.chunk_size
    size = mul64-eq batch_capacity b.impl.chunk_size q

    zeros : List Byte
    zeros = replicate (mul64 batch_capacity b.impl.chunk_size) 0

    blank : length zeros ≡ mul64 batch_capacity b.impl.chunk_size
    blank = length-replicate (mul64 batch_capacity b.impl.chunk_size) 0

    empty_run : (k : ℕ) (xs ys : List Byte) → 0 ≡ k → take k xs ≡ take k ys
    empty_run k xs ys e = ap (λ k. take k xs) (sym e) ∙ ap (λ k. take k ys) e

    none_yet : 0 ≡ (start_cursor b + 0 - start_cursor b) * b.impl.chunk_size
    none_yet =
        let e : 0 ≡ start_cursor b + 0 - start_cursor b = omega arith in
        let f : 0 ≡ 0 * b.impl.chunk_size = omega arith in f ∙ ap (λ k. k * b.impl.chunk_size) e

-- However the askings and pushes of one writer, other clients, the parts of the worker's rounds and
-- the user's batches interleave, the user of the buffered reader has been shown a run of records
-- from the oldest one held at the start, none twice, none left out, none out of order; and the
-- records between these and the cursor are exactly as many as the two buffers still hold. (One
-- thread writes, it pushes no more than it was last told, and what it was told it was told after
-- the reader had become a client; nobody writes while the reader starts, the buffer's clients
-- differ, nobody calls `stop`, each buffer holds a record and fewer than 2^64 bytes, and the count
-- of records stays below 2^64 - 1.)
pub buffered-delivers :
    (self batch_capacity : ℕ) (between : RecBuffer → RecBuffer) (b : RecBuffer) (log : List Byte)
    (w : World)
    → Holds b.impl log
    → b.impl.total_written < no_cursor
    → (between b).impl ≡ b.impl
    → IsUnique (between b).clients
    → 0 < batch_capacity
    → batch_capacity * b.impl.chunk_size < word
    → Reach (start_world self batch_capacity between b log) w
    → (shown : ℕ) × (w.seen ≡ chunks_of w.buffer.impl.chunk_size (start_cursor b) shown w.log)
      × Holds w.buffer.impl w.log
      × (start_cursor b + shown ≤ w.reader.reader_cursor)
      × (w.reader.reader_cursor
          ≡ start_cursor b
            + shown
            + (w.reader.active_count - w.reader.active_idx)
            + behind w.phase w.reader.bg_count)
      × (w.reader.reader_cursor ≤ w.buffer.impl.total_written)
buffered-delivers self batch_capacity between b log w h small quiet unique p q reach =
    let (base, d) =
      Reach-InOrder (start-InOrder self batch_capacity between b h small quiet unique p q) reach in
    (
      base + w.reader.active_idx - start_cursor b,
      d.shown,
      d.holds,
      omega (arith, d.next_cursor, d.idx_in, d.from_start),
      omega (arith, d.next_cursor, d.idx_in, d.from_start),
      d.kept.0,
    )
