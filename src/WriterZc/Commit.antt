-- ===== src/WriterZc/Commit.antt =====
-- What `commitBatch` of the zero-copy writer pushes, and when its loop is done.
use cyc_flow.Base.{
  ℕ, zero, suc, ◌+◌, ◌-◌, ◌*◌, ◌≤◌, ◌<◌, min, ◌≡◌, refl, ap, sym, ◌∙◌, subst, ◌⊎◌, inl, inr, true,
  false, not, ◌==◌, Bool-cases, if◌then◌else◌, some, List, [], ◌∷◌, ◌++◌, length, take, drop, slice,
  add64, mul64, add64-eq, append-nil, word, arith,
}
use native.Mathlib.Nat.{mul-le-mul_right}
use cyc_flow.Ring.Inv.{length-copy_chunk}
use cyc_flow.Chunk.{Byte}
use cyc_flow.Chunk
use cyc_flow.Chunk.Log.{Holds, push-Holds}
use cyc_flow.RecBuffer.{RecBuffer, push, get_available_write_space}
use cyc_flow.WriterZc.{WriterZc, Round, stamp, stamp_all, is_zero_double, push_loop, commit_batch}
use cyc_flow.WriterZc.Loop.{IsOnlyWriter, IsPushing, push_loop-IsPushing}

pub length-stamp :
    (now : List Byte) (place : ℕ) (bytes : List Byte)
    → length (stamp now place bytes) ≡ length bytes
unfolding stamp
length-stamp now place bytes = elim (Bool-cases (is_zero_double (slice place 8 bytes))) [
  | inl e ↦ rw e (length-copy_chunk now place 8 bytes)
  | inr e ↦ rw e refl
]

length-stamp_all :
    (clock : ℕ → List Byte) (rec_size offset i n : ℕ) (bytes : List Byte)
    → length (stamp_all clock rec_size offset i n bytes) ≡ length bytes
unfolding stamp_all
length-stamp_all clock rec_size offset i zero bytes = refl
length-stamp_all clock rec_size offset i (suc n) bytes =
    length-stamp_all clock rec_size offset (i + 1) n (stamp (clock i) place bytes)
    ∙ length-stamp (clock i) place bytes
  where
    place : ℕ
    place = add64 (mul64 i rec_size) offset

-- The writer is `init`ed for this buffer, and the batch that it has given out fits its own.
pub record IsReady (w : WriterZc) (b : RecBuffer) : Type 0 where
  pub same_size : b.impl.chunk_size ≡ w.rec_size
  pub pending_in : w.pending_count * w.rec_size ≤ length w.buf
  pub small : length w.buf < word

-- A batch of a writer made for this buffer is pushed from its first record on, each record once and
-- in order, whatever other threads do in the rounds of the loop short of writing: the log gains
-- exactly the first `pushed` of the stamped records. No more are pushed than were given out and
-- asked for, all of these where the writer does not block, and the batch is then taken back. (The
-- buffer of the writer and the count of records stay below 2^64.)
pub commit_batch-log :
    (clock : ℕ → List Byte) (rounds : List Round) (count : ℕ) (w : WriterZc) (b : RecBuffer)
    (log : List Byte)
    → IsReady w b
    → Holds b.impl log
    → IsOnlyWriter rounds
    → b.impl.total_written + w.pending_count < word
    → 0 < count
    → let (w', pushed, b') = commit_batch clock rounds count w b in
      (pushed ≤ min count w.pending_count)
      × ((w.block_on_full ≡ true) ⊎ (pushed ≡ min count w.pending_count))
      × Holds b'.impl (log ++ take (pushed * w.rec_size) w'.buf)
      × (w'.pending_count ≡ 0)
unfolding commit_batch
commit_batch-log clock rounds count w b log ready h alone total p =
    elim (Bool-cases w.block_on_full) [
      | inl blocks ↦
          let (d, size) =
            push_loop-IsPushing stamped n log w.rec_size rounds 0 b ready.same_size alone start in
          simp (more, blocks)
            (
              d.within,
              inl refl,
              subst
                  (λ k.
                    Holds (push_loop w.rec_size rounds stamped n 0 b).1.impl
                      (log ++ take ((push_loop w.rec_size rounds stamped n 0 b).0 * k) stamped))
                  size d.holds,
              refl,
            )
      | inr over ↦
          simp (more, over)
            (
              omega arith,
              inr refl,
              unfold push in
                  subst
                    (λ k. Holds (Chunk.push (some stamped) n b.impl) (log ++ take (n * k) stamped))
                    ready.same_size
                    (push-Holds stamped log n fits start.bytes (omega (arith, total)) h),
              refl,
            )
    ]
  where
    n : ℕ
    n = min count w.pending_count

    more : (count == 0) ≡ false
    more = ground (arith, p)

    stamped : List Byte
    stamped = stamp_all clock w.rec_size w.timestamp_offset 0 n w.buf

    fits : n * b.impl.chunk_size ≤ length stamped
    fits = omega (
      arith,
      length-stamp_all clock w.rec_size w.timestamp_offset 0 n w.buf,
      ready.pending_in,
      mul-le-mul_right {m = n} {n = w.pending_count} w.rec_size (omega arith),
      ap (λ k. n * k) ready.same_size,
    )

    start : IsPushing stamped n log 0 b
    start = record {
      within = omega arith;
      room = fits;
      bytes = omega (
        arith,
        fits,
        length-stamp_all clock w.rec_size w.timestamp_offset 0 n w.buf,
        ready.small,
      );
      total = omega (arith, total);
      holds =
          subst (Holds b.impl) (sym (append-nil log) ∙ ap (λ k. log ++ take k stamped) none_yet) h;
    }
      where
        none_yet : 0 ≡ 0 * b.impl.chunk_size
        none_yet = omega arith

-- The rounds that served the loop: the writer ran, and there was space for a record.
unfoldable pub served : ℕ → List Round → List Byte → ℕ → ℕ → RecBuffer → ℕ
served rec_size [] buf count pushed b = 0
served rec_size (round ∷ rounds) buf count pushed b =
    let (avail, b') = get_available_write_space round.cursors (round.during b) in
    let chunk = min (count - pushed) avail in
    let again = served rec_size rounds buf count pushed (round.between b') in
    let more =
      served rec_size rounds buf count (add64 pushed chunk)
        (push (some (drop (mul64 pushed rec_size) buf)) chunk (round.between b')).0 in
    if not round.still_running then 0 else if avail == 0 then again else suc more

-- The loop of `commitBatch` pushes at least one more record in each round in which the writer runs
-- and there is space, until all of the batch is pushed: after as many such rounds as there are
-- records the loop has pushed them all.
pub push_loop-served :
    (rec_size : ℕ) (rounds : List Round) (buf : List Byte) (count pushed : ℕ) (b : RecBuffer)
    → count < word
    → pushed ≤ count
    → min count (pushed + served rec_size rounds buf count pushed b)
      ≤ (push_loop rec_size rounds buf count pushed b).0
unfolding served push_loop
push_loop-served rec_size [] buf count pushed b w p = omega arith
push_loop-served rec_size (round ∷ rounds) buf count pushed b w p = ground (
  arith,
  sum,
  push_loop-served rec_size rounds buf count pushed ready w p,
  push_loop-served rec_size rounds buf count (add64 pushed chunk)
      (push (some (drop (mul64 pushed rec_size) buf)) chunk ready).0 w (omega (arith, sum, p)),
)
  where
    chunk : ℕ
    chunk = min (count - pushed) (get_available_write_space round.cursors (round.during b)).0

    ready : RecBuffer
    ready = round.between (get_available_write_space round.cursors (round.during b)).1

    sum : add64 pushed chunk ≡ pushed + chunk
    sum = add64-eq pushed chunk (omega (arith, w, p))
