-- ===== src/Tests/Writers.antt =====
-- The zero-copy writer's theorems at concrete inputs.
use cyc_flow.Base.{
  ℕ, ◌+◌, ◌*◌, ◌≤◌, ◌≡◌, ◌⊎◌, inl, inr, min, sub64, some, refl, true, List, [], ◌∷◌, ◌++◌, take,
  replicate, arith,
}
use cyc_flow.Ring.{copy_chunk}
use cyc_flow.Chunk
use cyc_flow.Chunk.{Byte}
use cyc_flow.Chunk.Log.{Holds}
use cyc_flow.RecBuffer.{RecBuffer, calculate_min_read_cursor, get_available_write_space, min_cursor}
use cyc_flow.WriterZc.{
  WriterZc, Round, push_loop, commit_batch, stamp, is_zero_double, commit_record,
}
use cyc_flow.WriterZc.Loop.{IsOnlyWriter}
use cyc_flow.WriterZc.Single.{IsReleased, commit_record-log}
use cyc_flow.WriterZc.Commit.{IsReady, commit_batch-log, served, push_loop-served}
use cyc_flow.Tests.Buffers.{buffer, log, cursors, chunks-Holds}

-- Two records of two bytes given out; no field is a time stamp, so the stamp lies behind them.
abbrev writer : WriterZc
writer = record {
  rule = buffer.rule;
  rec_size = 2;
  capacity = 4;
  block_on_full = true;
  timestamp_id = 1;
  timestamp_offset = 0;
  running = true;
  pending_count = 2;
  buf = 9 ∷ 10 ∷ 11 ∷ 12 ∷ 13 ∷ 14 ∷ 15 ∷ 16 ∷ [];
}

abbrev clock : ℕ → List Byte
clock i = replicate 8 7

-- First nothing fits, then the slow client has caught up.
abbrev rounds : List Round
rounds =
    record { during = λ b. b; cursors = λ client. 1; still_running = true; between = λ b. b }
    ∷ record { during = λ b. b; cursors = cursors; still_running = true; between = λ b. b }
    ∷ record { during = λ b. b; cursors = λ client. 5; still_running = true; between = λ b. b }
    ∷ []

writer-IsReady : IsReady writer buffer
writer-IsReady = record { same_size = refl; pending_in = omega arith; small = omega arith }

rounds-IsOnlyWriter : IsOnlyWriter rounds
rounds-IsOnlyWriter =
    ((λ b. refl), (λ b. refl), ((λ b. refl), (λ b. refl), ((λ b. refl), (λ b. refl), tt)))

stamped :
    stamp (1 ∷ []) 1 (5 ∷ 0 ∷ 0 ∷ 0 ∷ 0 ∷ 0 ∷ 0 ∷ 0 ∷ 128 ∷ [])
    ≡ 5 ∷ 1 ∷ 0 ∷ 0 ∷ 0 ∷ 0 ∷ 0 ∷ 0 ∷ 128 ∷ []
unfolding stamp is_zero_double copy_chunk
stamped = refl

commit_batch-log_example :
    let (w', pushed, b') = commit_batch clock rounds 3 writer buffer in
    (pushed ≤ min 3 2)
    × ((writer.block_on_full ≡ true) ⊎ (pushed ≡ min 3 2))
    × Holds b'.impl (log ++ take (pushed * 2) w'.buf)
    × (w'.pending_count ≡ 0)
commit_batch-log_example =
    commit_batch-log clock rounds 3 writer buffer log writer-IsReady chunks-Holds
      rounds-IsOnlyWriter (omega arith) (omega arith)

push_loop-served_example :
    min 2 (0 + served 2 rounds writer.buf 2 0 buffer) ≤ (push_loop 2 rounds writer.buf 2 0 buffer).0
push_loop-served_example =
    push_loop-served 2 rounds writer.buf 2 0 buffer (omega arith) (omega arith)

-- The second round finds space for a record.
rounds-IsReleased : IsReleased 1 rounds buffer
unfolding get_available_write_space calculate_min_read_cursor min_cursor Chunk.capacity sub64
rounds-IsReleased = inr (inr (inr (inl (omega arith))))

commit_record-log_example :
    let (w', returned) = commit_record (clock 0) rounds true writer buffer in
    (b' : RecBuffer) × (returned ≡ some b') × Holds b'.impl (log ++ take 2 w'.buf)
commit_record-log_example =
    commit_record-log (clock 0) rounds true writer buffer log refl (omega arith) (omega arith)
      chunks-Holds rounds-IsOnlyWriter (omega arith) (inr rounds-IsReleased)
