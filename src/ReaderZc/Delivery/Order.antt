-- ===== src/ReaderZc/Delivery/Order.antt =====
-- The order of delivery: what a reader has been shown in any reachable world.
use cyc_flow.Base.{
  ℕ, ◌+◌, ◌-◌, ◌*◌, ◌≤◌, ◌<◌, ◌≡◌, refl, inl, ap, ◌∙◌, true, ◌||◌, ◌==◌, ==→eq, List, [], take,
  drop, arith,
}
use cyc_flow.Chunk.{Byte}
use cyc_flow.Chunk
use cyc_flow.Chunk.Log.{Holds, size-Holds}
use cyc_flow.Chunk.Read.{chunks_of}
use cyc_flow.RecBuffer.{
  RecBuffer, no_cursor, contains, add_client, remove_client, get_total_written_and_size,
}
use cyc_flow.RecBuffer.Read.{IsKept}
use cyc_flow.RecBuffer.Clients.{IsUnique, add_client-contains, remove_client-contains}
use cyc_flow.ReaderZc.{init, start_cursor}
use cyc_flow.ReaderZc.Delivery.{
  World, Phase, Step, ask, write, join, leave, signal, let_go, first_look, second_look, third_look,
  Reach, here, next, start_world,
}
use cyc_flow.ReaderZc.Delivery.Invariant.{
  IsDelivering, ask-IsDelivering, write-IsDelivering, clients-IsDelivering, impl-add_client,
  impl-remove_client, release-IsDelivering,
}
use cyc_flow.ReaderZc.Delivery.Reading.{read_of, first_look-IsDelivering, second_look-IsDelivering}

Step-IsDelivering :
    {start : ℕ} {w x : World} → IsDelivering start w → Step w x → IsDelivering start x
unfolding read_of
Step-IsDelivering d (ask cursors older) = ask-IsDelivering cursors older d
Step-IsDelivering d (write source count fits given bytes total) =
    write-IsDelivering source count fits given bytes total d
Step-IsDelivering {start} {w} d (join client) =
    let joined = add_client-contains client w.reader.self w.buffer d.unique in
    clients-IsDelivering (add_client client w.buffer) (impl-add_client client w.buffer) joined.1
      (ground (arith, joined.0, d.known)) d
Step-IsDelivering {start} {w} d (leave client other) =
    let left = remove_client-contains client w.reader.self w.buffer d.unique in
    clients-IsDelivering (remove_client client w.buffer) (impl-remove_client client w.buffer) left.1
      (ground (arith, left.0, d.known, other, ==→eq client w.reader.self)) d
Step-IsDelivering d (signal running finishing target) = record {
  holds = d.holds;
  small = d.small;
  unique = d.unique;
  known = d.known;
  kept = d.kept;
  from_start = d.from_start;
  pinned = d.pinned;
  written = d.written;
  shown = d.shown;
  covers = d.covers;
  in_place = d.in_place;
}
Step-IsDelivering d (let_go e) = release-IsDelivering d
Step-IsDelivering d (first_look max_records p e free) = first_look-IsDelivering max_records p free d
Step-IsDelivering d (second_look max_records e) = second_look-IsDelivering max_records d
Step-IsDelivering d (third_look max_records e) = absurd (d.in_place max_records e)

Reach-IsDelivering :
    {start : ℕ} {v w : World} → IsDelivering start v → Reach v w → IsDelivering start w
Reach-IsDelivering d here = d
Reach-IsDelivering d (next p s) = Step-IsDelivering (Reach-IsDelivering d p) s

pub start_cursor-kept :
    (b : RecBuffer) {log : List Byte}
    → Holds b.impl log
    → (start_cursor b ≤ b.impl.total_written)
      × (b.impl.total_written ≤ start_cursor b + Chunk.size b.impl)
unfolding start_cursor get_total_written_and_size
start_cursor-kept b h = ground (arith, size-Holds h)

start-IsDelivering :
    (self batch_capacity : ℕ) (between : RecBuffer → RecBuffer) (b : RecBuffer) {log : List Byte}
    → Holds b.impl log
    → b.impl.total_written < no_cursor
    → (between b).impl ≡ b.impl
    → IsUnique (between b).clients
    → IsDelivering (start_cursor b) (start_world self batch_capacity between b log)
unfolding start_world init
start-IsDelivering self batch_capacity between b {log} h small quiet unique =
    clients-IsDelivering {w = alone} (add_client self (between b))
      (impl-add_client self (between b) ∙ quiet) added.1 known
      (record {
        holds = h;
        small = small;
        unique = added.1;
        known = known;
        kept = start_cursor-kept b h;
        from_start = omega arith;
        pinned = omega arith;
        written = (start_cursor-kept b h).0;
        shown = ap (λ k. take k (drop (start_cursor b * b.impl.chunk_size) log)) none_yet;
        covers = inl refl;
        in_place = λ k e. cc;
      })
  where
    alone : World
    alone = record {
      buffer = record b { clients = (add_client self (between b)).clients };
      reader = (init self batch_capacity between b).0;
      phase = Phase.ready;
      told = 0;
      log = log;
      seen = [];
    }

    added :
        (contains self (add_client self (between b)).clients
          ≡ (contains self (between b).clients || self == self))
        × IsUnique (add_client self (between b)).clients
    added = add_client-contains self self (between b) unique

    known : contains self (add_client self (between b)).clients ≡ true
    known = ground (arith, added.0)

    none_yet : 0 ≡ (start_cursor b - start_cursor b) * b.impl.chunk_size
    none_yet =
        let e : 0 ≡ start_cursor b - start_cursor b = omega arith in
        let f : 0 ≡ 0 * b.impl.chunk_size = omega arith in f ∙ ap (λ k. k * b.impl.chunk_size) e

-- However the askings and pushes of one writer, other clients, the reader's releases and the three
-- looks of its reads interleave, a reader has been shown exactly the records from the oldest one
-- held at its start to the end of its last batch: none twice, none left out, none out of order. The
-- records that it has not released are all still in the ring. (One thread writes, it pushes no more
-- than it was last told, and what it was told it was told after the reader had become a client;
-- nobody writes while the reader starts, the buffer's clients differ, and the count of records
-- stays below 2^64 - 1.)
pub reader-delivers :
    (self batch_capacity : ℕ) (between : RecBuffer → RecBuffer) (b : RecBuffer) (log : List Byte)
    (w : World)
    → Holds b.impl log
    → b.impl.total_written < no_cursor
    → (between b).impl ≡ b.impl
    → IsUnique (between b).clients
    → Reach (start_world self batch_capacity between b log) w
    → (w.seen
        ≡ chunks_of w.buffer.impl.chunk_size
            (start_cursor b)
            (w.reader.pinned_end - start_cursor b)
            w.log)
      × Holds w.buffer.impl w.log
      × IsKept w.reader.reader_cursor w.buffer
      × (start_cursor b ≤ w.reader.reader_cursor)
      × (w.reader.reader_cursor ≤ w.reader.pinned_end)
      × (w.reader.pinned_end ≤ w.buffer.impl.total_written)
reader-delivers self batch_capacity between b log w h small quiet unique p =
    let d =
      Reach-IsDelivering (start-IsDelivering self batch_capacity between b h small quiet unique)
        p in
    (d.shown, d.holds, d.kept, d.from_start, d.pinned, d.written)
