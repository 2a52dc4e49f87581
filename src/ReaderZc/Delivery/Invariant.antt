-- ===== src/ReaderZc/Delivery/Invariant.antt =====
-- What holds of a reader between steps, and that writes, clients and `release` keep it.
use native.Mathlib.Nat.{add-mul, mul-le-mul_right}
use cyc_flow.Base.{
  ℕ, ◌+◌, ◌-◌, ◌*◌, ◌≤◌, ◌<◌, ◌≡◌, ◌≢◌, ◌⊎◌, refl, ap, sym, ◌∙◌, subst, inl, inr, true, ◌==◌,
  Bool-cases, some, List, ◌++◌, length, take, word, arith,
}
use cyc_flow.Chunk.{Byte}
use cyc_flow.Chunk
use cyc_flow.Chunk.Log.{Holds, total-push}
use cyc_flow.Chunk.Read.{chunks_of, chunks_of-append}
use cyc_flow.RecBuffer.{
  RecBuffer, no_cursor, contains, add_client, remove_client, get_available_write_space, push,
}
use cyc_flow.RecBuffer.Read.{IsKept}
use cyc_flow.RecBuffer.Space.{
  Covers, told-Covers, push-Covers, chunk_size-push, impl-get_available_write_space,
  clients-get_available_write_space,
}
use cyc_flow.RecBuffer.Clients.{IsUnique}
use cyc_flow.ReaderZc.{release}
use cyc_flow.ReaderZc.Delivery.{World, Phase}

-- The reader has been shown the records from `start` to the end of its batch, and what it has not
-- released is still in the ring.
pub record IsDelivering (start : ℕ) (w : World) : Type 0 where
  pub holds : Holds w.buffer.impl w.log
  pub small : w.buffer.impl.total_written < no_cursor
  pub unique : IsUnique w.buffer.clients
  pub known : contains w.reader.self w.buffer.clients ≡ true
  pub kept : IsKept w.reader.reader_cursor w.buffer
  pub from_start : start ≤ w.reader.reader_cursor
  pub pinned : w.reader.reader_cursor ≤ w.reader.pinned_end
  pub written : w.reader.pinned_end ≤ w.buffer.impl.total_written
  pub shown : w.seen ≡ chunks_of w.buffer.impl.chunk_size start (w.reader.pinned_end - start) w.log
  pub covers : Covers w.buffer w.reader.reader_cursor w.told
  pub in_place : (max_records : ℕ) → w.phase ≢ Phase.moved max_records

pub write-IsDelivering :
    {start : ℕ} {w : World} (source : List Byte) (count : ℕ)
    → count ≤ w.told
    → count * w.buffer.impl.chunk_size ≤ length source
    → count * w.buffer.impl.chunk_size < word
    → w.buffer.impl.total_written + count < no_cursor
    → IsDelivering start w
    → IsDelivering start (record w {
      buffer = (push (some source) count w.buffer).0;
      told = w.told - count;
      log = w.log ++ take (count * w.buffer.impl.chunk_size) source;
    })
unfolding push
write-IsDelivering {start} {w} source count fits given bytes total d = record {
  holds = after.1;
  small = omega (arith, grown, total);
  unique = d.unique;
  known = d.known;
  kept = after.0;
  covers = after.2;
  in_place = d.in_place;
  from_start = d.from_start;
  pinned = d.pinned;
  written = omega (arith, grown, d.written);
  shown =
      d.shown
      ∙ sym (
          chunks_of-append w.buffer.impl.chunk_size start (w.reader.pinned_end - start) w.log
            (take (count * w.buffer.impl.chunk_size) source) inside)
      ∙ ap
          (λ k.
            chunks_of k start (w.reader.pinned_end - start)
              (w.log ++ take (count * w.buffer.impl.chunk_size) source))
          (sym (chunk_size-push (some source) count w.buffer));
}
  where
    after :
        IsKept w.reader.reader_cursor (push (some source) count w.buffer).0
        × Holds
            (push (some source) count w.buffer).0.impl
            (w.log ++ take (count * w.buffer.impl.chunk_size) source)
        × Covers (push (some source) count w.buffer).0 w.reader.reader_cursor (w.told - count)
    after =
        push-Covers w.buffer w.log source w.reader.reader_cursor w.told count d.holds d.kept
          d.covers fits given bytes (omega (arith, total))

    grown :
        (push (some source) count w.buffer).0.impl.total_written
        ≡ w.buffer.impl.total_written + count
    grown = unfold push in total-push source count w.buffer.impl bytes (omega (arith, total))

    inside :
        start * w.buffer.impl.chunk_size + (w.reader.pinned_end - start) * w.buffer.impl.chunk_size
        ≤ length w.log
    inside = omega (
      arith,
      d.holds.counted,
      add-mul start (w.reader.pinned_end - start) w.buffer.impl.chunk_size,
      mul-le-mul_right {m = start + (w.reader.pinned_end - start)} {n = w.buffer.impl.total_written}
          w.buffer.impl.chunk_size (omega (arith, d.from_start, d.pinned, d.written)),
    )

-- Other clients come and go: only the list changes.
pub clients-IsDelivering :
    {start : ℕ} {w : World} (b : RecBuffer)
    → b.impl ≡ w.buffer.impl
    → IsUnique b.clients
    → contains w.reader.self b.clients ≡ true
    → IsDelivering start w
    → IsDelivering start (record w { buffer = b })
clients-IsDelivering {start} {w} b e unique known d = record {
  holds = subst (λ c. Holds c w.log) (sym e) d.holds;
  small = subst (λ c. c.total_written < no_cursor) (sym e) d.small;
  unique = unique;
  known = known;
  kept =
      subst
        (λ c.
          (w.reader.reader_cursor ≤ c.total_written)
          × (c.total_written ≤ w.reader.reader_cursor + Chunk.size c))
        (sym e) d.kept;
  from_start = d.from_start;
  pinned = d.pinned;
  written = subst (λ c. w.reader.pinned_end ≤ c.total_written) (sym e) d.written;
  shown =
      subst (λ c. w.seen ≡ chunks_of c.chunk_size start (w.reader.pinned_end - start) w.log) (sym e)
        d.shown;
  covers =
      subst
        (λ c. (w.told ≡ 0) ⊎ (c.total_written + w.told ≤ w.reader.reader_cursor + Chunk.capacity c))
        (sym e) d.covers;
  in_place = d.in_place;
}

-- The writer is told anew what it may push.
pub ask-IsDelivering :
    {start : ℕ} {w : World} (cursors : ℕ → ℕ)
    → cursors w.reader.self ≤ w.reader.reader_cursor
    → IsDelivering start w
    → IsDelivering start (record w {
      buffer = (get_available_write_space cursors w.buffer).1;
      told = (get_available_write_space cursors w.buffer).0;
    })
ask-IsDelivering {start} {w} cursors older d =
    clients-IsDelivering {w = told_world} (get_available_write_space cursors w.buffer).1
      (impl-get_available_write_space cursors w.buffer)
      (subst IsUnique (sym (clients-get_available_write_space cursors w.buffer)) d.unique)
      (subst (λ cs. contains w.reader.self cs ≡ true)
        (sym (clients-get_available_write_space cursors w.buffer)) d.known)
      (record {
        holds = d.holds;
        small = d.small;
        unique = d.unique;
        known = d.known;
        kept = d.kept;
        from_start = d.from_start;
        pinned = d.pinned;
        written = d.written;
        shown = d.shown;
        covers =
            told-Covers cursors w.buffer w.reader.self w.reader.reader_cursor d.small d.known older
              d.kept.0;
        in_place = d.in_place;
      })
  where
    told_world : World
    told_world = record w { told = (get_available_write_space cursors w.buffer).0 }

pub impl-add_client : (client : ℕ) (b : RecBuffer) → (add_client client b).impl ≡ b.impl
unfolding add_client
impl-add_client client b = elim (Bool-cases (contains client b.clients)) [
  | inl e ↦ rw e refl
  | inr e ↦ rw e refl
]

pub impl-remove_client : (client : ℕ) (b : RecBuffer) → (remove_client client b).impl ≡ b.impl
unfolding remove_client
impl-remove_client client b = refl

pub release-IsDelivering :
    {start : ℕ} {w : World}
    → IsDelivering start w
    → IsDelivering start (record w { reader = (release w.reader).0 })
unfolding release
release-IsDelivering {start} {w} d =
    elim (Bool-cases (w.reader.pinned_end == w.reader.reader_cursor)) [
      | inl same ↦ rw same d
      | inr moves ↦ rw moves (record {
        holds = d.holds;
        small = d.small;
        unique = d.unique;
        known = d.known;
        kept = (d.written, omega (arith, d.kept, d.pinned));
        from_start = omega (arith, d.from_start, d.pinned);
        pinned = omega arith;
        written = d.written;
        shown = d.shown;
        covers = ground (arith, d.covers, d.pinned);
        in_place = d.in_place;
      })
    ]
