-- ===== src/WriterZc/Loop.antt =====
-- The push loop of the zero-copy writer.
use native.Mathlib.Nat.{add-mul, mul-le-mul_right, le-mul_of_pos_right}
use cyc_flow.Base.{
  ℕ, ◌+◌, ◌-◌, ◌*◌, ◌≤◌, ◌<◌, min, ◌≡◌, ap, sym, ◌∙◌, subst, inl, inr, ◌&&◌, ltb, ◌==◌, Bool-cases,
  some, List, [], ◌∷◌, ◌++◌, length, take, drop, length-drop, add64, mul64, add64-eq, mul64-eq,
  take-add, append_assoc, word, arith,
}
use cyc_flow.Chunk.{Byte}
use cyc_flow.Chunk.Log.{Holds, push-Holds, total-push}
use cyc_flow.RecBuffer.Space.{chunk_size-push, impl-get_available_write_space}
use cyc_flow.RecBuffer.{RecBuffer, push, get_available_write_space}
use cyc_flow.WriterZc.{Round, push_loop}

-- No other thread writes: only clients and their cursors change.
abbrev pub IsOnlyWriter : List Round → Type 0
IsOnlyWriter [] = Unit {0}
IsOnlyWriter (round ∷ rounds) =
    ((b : RecBuffer) → (round.during b).impl ≡ b.impl)
    × ((b : RecBuffer) → (round.between b).impl ≡ b.impl)
    × IsOnlyWriter rounds

-- Where each round leaves the loop: with the records up to `pushed` of the batch in the log.
module _ (buf : List Byte) (count : ℕ) (log : List Byte) where
  pub record IsPushing (pushed : ℕ) (b : RecBuffer) : Type 0 where
    pub within : pushed ≤ count
    pub room : count * b.impl.chunk_size ≤ length buf
    pub bytes : count * b.impl.chunk_size < word
    pub total : b.impl.total_written + (count - pushed) < word
    pub holds : Holds b.impl (log ++ take (pushed * b.impl.chunk_size) buf)

  pub others-IsPushing :
      {pushed : ℕ} {b : RecBuffer} (b' : RecBuffer)
      → b'.impl ≡ b.impl
      → IsPushing pushed b
      → IsPushing pushed b'
  others-IsPushing {pushed} {b} b' e p = record {
    within = p.within;
    room = subst (λ c. count * c.chunk_size ≤ length buf) (sym e) p.room;
    bytes = subst (λ c. count * c.chunk_size < word) (sym e) p.bytes;
    total = subst (λ c. c.total_written + (count - pushed) < word) (sym e) p.total;
    holds = subst (λ c. Holds c (log ++ take (pushed * c.chunk_size) buf)) (sym e) p.holds;
  }

  pub push-IsPushing :
      {pushed : ℕ} {b : RecBuffer} (chunk : ℕ)
      → pushed + chunk ≤ count
      → IsPushing pushed b
      → IsPushing
          (add64 pushed chunk)
          (push (some (drop (mul64 pushed b.impl.chunk_size) buf)) chunk b).0
  push-IsPushing {pushed} {b} chunk fits p =
      rw (sum, place)
        (record {
          within = fits;
          room = rw (size (drop (pushed * b.impl.chunk_size) buf)) p.room;
          bytes = rw (size (drop (pushed * b.impl.chunk_size) buf)) p.bytes;
          total = omega (arith, grown, p.total, fits);
          holds = rw (size (drop (pushed * b.impl.chunk_size) buf)) (
              subst (Holds (push (some (drop (pushed * b.impl.chunk_size) buf)) chunk b).0.impl)
                joined after);
        })
    where
      positive : 0 < b.impl.chunk_size
      positive = p.holds.aligned.chunk_positive

      below : (pushed + chunk) * b.impl.chunk_size ≤ count * b.impl.chunk_size
      below = mul-le-mul_right b.impl.chunk_size fits

      split :
          (pushed + chunk) * b.impl.chunk_size
          ≡ pushed * b.impl.chunk_size + chunk * b.impl.chunk_size
      split = add-mul pushed chunk b.impl.chunk_size

      sum : add64 pushed chunk ≡ pushed + chunk
      sum = add64-eq pushed chunk (omega (arith, fits, p.bytes, le-mul_of_pos_right count positive))

      place : mul64 pushed b.impl.chunk_size ≡ pushed * b.impl.chunk_size
      place = mul64-eq pushed b.impl.chunk_size (omega (arith, below, split, p.bytes))

      size :
          (source : List Byte) → (push (some source) chunk b).0.impl.chunk_size ≡ b.impl.chunk_size
      size source = chunk_size-push (some source) chunk b

      small : chunk * b.impl.chunk_size < word
      small = omega (arith, below, split, p.bytes)

      grown :
          (push (some (drop (pushed * b.impl.chunk_size) buf)) chunk b).0.impl.total_written
          ≡ b.impl.total_written + chunk
      grown =
          unfold push in
          total-push (drop (pushed * b.impl.chunk_size) buf) chunk b.impl small
            (omega (arith, p.total, fits))

      after : Holds (push (some (drop (pushed * b.impl.chunk_size) buf)) chunk b).0.impl (
          (log ++ take (pushed * b.impl.chunk_size) buf)
          ++ take (chunk * b.impl.chunk_size) (drop (pushed * b.impl.chunk_size) buf))
      after =
          unfold push in
          push-Holds (drop (pushed * b.impl.chunk_size) buf)
            (log ++ take (pushed * b.impl.chunk_size) buf) chunk
            (omega (arith, length-drop (pushed * b.impl.chunk_size) buf, below, split, p.room))
            small (omega (arith, p.total, fits)) p.holds

      joined :
          (log ++ take (pushed * b.impl.chunk_size) buf)
            ++ take (chunk * b.impl.chunk_size) (drop (pushed * b.impl.chunk_size) buf)
          ≡ log ++ take ((pushed + chunk) * b.impl.chunk_size) buf
      joined =
          append_assoc log (take (pushed * b.impl.chunk_size) buf)
            (take (chunk * b.impl.chunk_size) (drop (pushed * b.impl.chunk_size) buf))
          ∙ ap (λ xs. log ++ xs)
              (take-add (pushed * b.impl.chunk_size) (chunk * b.impl.chunk_size) buf)
          ∙ ap (λ k. log ++ take k buf) (sym split)

  -- The loop, whatever the others do in its rounds.
  pub push_loop-IsPushing :
      (rec_size : ℕ) (rounds : List Round) (pushed : ℕ) (b : RecBuffer)
      → b.impl.chunk_size ≡ rec_size
      → IsOnlyWriter rounds
      → IsPushing pushed b
      → let (pushed', b') = push_loop rec_size rounds buf count pushed b in
        IsPushing pushed' b' × (b'.impl.chunk_size ≡ rec_size)
  unfolding push_loop
  push_loop-IsPushing rec_size [] pushed b size alone p = (p, size)
  push_loop-IsPushing rec_size (round ∷ rounds) pushed b size alone p =
      elim (Bool-cases (ltb pushed count && round.still_running)) [
        | inr ends ↦ rw ends (
          others-IsPushing (round.during b) (alone.0 b) p,
          ap (λ c. c.chunk_size) (alone.0 b) ∙ size,
        )
        | inl goes ↦ elim (Bool-cases (avail == 0)) [
          | inl full ↦
              rw (goes, full)
                (push_loop-IsPushing rec_size rounds pushed ready same alone.2
                  (others-IsPushing ready quiet p))
          | inr fits ↦
              rw (goes, fits)
                (push_loop-IsPushing rec_size rounds (add64 pushed chunk)
                  (push (some (drop (mul64 pushed rec_size) buf)) chunk ready).0
                  (chunk_size-push (some (drop (mul64 pushed rec_size) buf)) chunk ready ∙ same)
                  alone.2
                  (subst
                    (λ k.
                      IsPushing (add64 pushed chunk)
                        (push (some (drop (mul64 pushed k) buf)) chunk ready).0)
                    same
                    (push-IsPushing chunk (omega (arith, p.within))
                      (others-IsPushing ready quiet p))))
        ]
      ]
    where
      avail : ℕ
      avail = (get_available_write_space round.cursors (round.during b)).0

      chunk : ℕ
      chunk = min (count - pushed) avail

      ready : RecBuffer
      ready = round.between (get_available_write_space round.cursors (round.during b)).1

      quiet : ready.impl ≡ b.impl
      quiet =
          alone.1 (get_available_write_space round.cursors (round.during b)).1
          ∙ impl-get_available_write_space round.cursors (round.during b)
          ∙ alone.0 b

      same : ready.impl.chunk_size ≡ rec_size
      same = ap (λ c. c.chunk_size) quiet ∙ size
