-- ===== src/WriterZc/Single.antt =====
-- `commitRecord` of the zero-copy writer, and the wait for space before it.
use cyc_flow.Base.{
  ℕ, ◌+◌, ◌*◌, ◌≤◌, ◌<◌, ◌≡◌, refl, ap, sym, ◌∙◌, subst, ◌⊎◌, inl, inr, Bool, true, false, ltb,
  Bool-cases, if◌then◌else◌, some, List, [], ◌∷◌, ◌++◌, length, take, append-nil, word, arith,
}
use cyc_flow.Chunk.{Byte}
use cyc_flow.Chunk
use cyc_flow.Chunk.Log.{Holds, push-Holds}
use cyc_flow.RecBuffer.Space.{impl-get_available_write_space}
use cyc_flow.RecBuffer.{RecBuffer, push, get_available_write_space}
use cyc_flow.WriterZc.{WriterZc, Round, stamp, wait_loop, wait_for_space, commit_record}
use cyc_flow.WriterZc.Commit.{length-stamp}
use cyc_flow.WriterZc.Loop.{IsOnlyWriter}

-- In some round the writer no longer runs, or finds as much space as it needs.
abbrev pub IsReleased : ℕ → List Round → RecBuffer → Type 0
IsReleased needed [] b = ⊥
IsReleased needed (round ∷ rounds) b =
    (round.still_running ≡ false)
    ⊎ (needed ≤ (get_available_write_space round.cursors (round.during b)).0)
    ⊎ IsReleased needed rounds
        (round.between (get_available_write_space round.cursors (round.during b)).1)

still-IsReleased :
    (needed : ℕ) (round : Round) (rounds : List Round) (b : RecBuffer)
    → IsReleased needed (round ∷ rounds) b
    → round.still_running ≡ true
    → ltb (get_available_write_space round.cursors (round.during b)).0 needed ≡ true
    → IsReleased needed rounds
        (round.between (get_available_write_space round.cursors (round.during b)).1)
still-IsReleased needed round rounds b (inl stopped) runs full =
    absurd (ground (arith, stopped, runs))
still-IsReleased needed round rounds b (inr (inl room)) runs full =
    absurd (ground (arith, room, full))
still-IsReleased needed round rounds b (inr (inr released)) runs full = released

-- The wait is over in the first such round, and has written nothing.
wait_loop-returns :
    (needed : ℕ) (rounds : List Round) (b : RecBuffer)
    → IsOnlyWriter rounds
    → IsReleased needed rounds b
    → (b' : RecBuffer) × (wait_loop needed rounds b ≡ some b') × (b'.impl ≡ b.impl)
unfolding wait_loop
wait_loop-returns needed [] b alone released = absurd released
wait_loop-returns needed (round ∷ rounds) b alone released = elim (Bool-cases round.still_running) [
  | inr stopped ↦ rw stopped (round.during b, refl, alone.0 b)
  | inl runs ↦ elim (Bool-cases (ltb avail needed)) [
    | inr room ↦ rw (runs, room) (ready, refl, quiet)
    | inl full ↦
        let (b', e, same) =
          wait_loop-returns needed rounds ready alone.2
            (still-IsReleased needed round rounds b released runs full) in
        rw (runs, full) (b', e, same ∙ quiet)
  ]
]
  where
    avail : ℕ
    avail = (get_available_write_space round.cursors (round.during b)).0

    ready : RecBuffer
    ready = round.between (get_available_write_space round.cursors (round.during b)).1

    quiet : ready.impl ≡ b.impl
    quiet =
        alone.1 (get_available_write_space round.cursors (round.during b)).1
        ∙ impl-get_available_write_space round.cursors (round.during b)
        ∙ alone.0 b

wait_for_space-returns :
    (needed : ℕ) (rounds : List Round) (w : WriterZc) (b : RecBuffer)
    → IsOnlyWriter rounds
    → (w.block_on_full ≡ false) ⊎ IsReleased needed rounds b
    → (b' : RecBuffer) × (wait_for_space needed rounds w b ≡ some b') × (b'.impl ≡ b.impl)
unfolding wait_for_space
wait_for_space-returns needed rounds w b alone (inl over) = rw over (b, refl, refl)
wait_for_space-returns needed rounds w b alone (inr released) = elim (Bool-cases w.block_on_full) [
  | inl blocks ↦ rw blocks (wait_loop-returns needed rounds b alone released)
  | inr over ↦ rw over (b, refl, refl)
]

-- Where the writer does not block, or in some round of the wait it no longer runs or finds space
-- for a record, `commitRecord` returns, and the log has gained exactly the stamped record if the
-- writer still runs, and nothing if it was stopped, whatever other threads do in the rounds short
-- of writing. (The writer is made for this buffer and holds a record; its size and the count of
-- records stay below 2^64.)
pub commit_record-log :
    (now : List Byte) (rounds : List Round) (runs : Bool) (w : WriterZc) (b : RecBuffer)
    (log : List Byte)
    → b.impl.chunk_size ≡ w.rec_size
    → w.rec_size ≤ length w.buf
    → w.rec_size < word
    → Holds b.impl log
    → IsOnlyWriter rounds
    → b.impl.total_written + 1 < word
    → (w.block_on_full ≡ false) ⊎ IsReleased 1 rounds b
    → let (w', returned) = commit_record now rounds runs w b in
      (b' : RecBuffer) × (returned ≡ some b')
      × Holds b'.impl (log ++ (if runs then take w.rec_size w'.buf else []))
unfolding commit_record
commit_record-log now rounds runs w b log size fits small h alone total released =
    let (b', e, same) = wait_for_space-returns 1 rounds w b alone released in
    rw e (elim (Bool-cases runs) [
      | inr stopped ↦ rw stopped (
        b',
        refl,
        subst (λ c. Holds c (log ++ [])) (sym same) (subst (Holds b.impl) (sym (append-nil log)) h),
      )
      | inl goes ↦ rw goes ((push (some stamped) 1 b').0, refl, written b' same)
    ])
  where
    stamped : List Byte
    stamped = stamp now w.timestamp_offset w.buf

    one : 1 * w.rec_size ≡ w.rec_size
    one = omega arith

    written :
        (b' : RecBuffer)
        → b'.impl ≡ b.impl
        → Holds (push (some stamped) 1 b').0.impl (log ++ take w.rec_size stamped)
    written b' same =
        unfold push in
        subst (λ c. Holds (Chunk.push (some stamped) 1 c) (log ++ take w.rec_size stamped))
          (sym same)
          (subst (λ k. Holds (Chunk.push (some stamped) 1 b.impl) (log ++ take k stamped))
            (ap (λ k. 1 * k) size ∙ one)
            (push-Holds stamped log 1
              (omega (arith, fits, size, length-stamp now w.timestamp_offset w.buf))
              (omega (arith, small, size)) total h))
