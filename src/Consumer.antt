-- ===== src/Consumer.antt =====
-- RecordConsumer and BatchRecordConsumer of CycLib/RecordConsumer.h and RecordConsumer.cpp: a thread that
-- takes records or batches from a reader and hands them to the derived class.
-- The reader and the derived class are interfaces. `joinable` says whether the thread was started and not
-- joined; a call of `join` is modelled from its end on. Each call comes from another thread than the
-- worker. The loops of the two classes differ in the calls they make, which are fields of the
-- interfaces.
pub mod Hooks
use cyc_flow.Base.{ℕ, ◌/◌, min, max, Bool, true, false, not, if◌then◌else◌, List, [], ◌∷◌}

-- What the consumer needs of its reader, whose batches or records are of type `B`.
pub record ReaderOps {ℓ κ} (R : Type ℓ) (B : Type κ) : Type (ℓ ⊔ κ) where
  pub next : R → B × R
  pub is_valid : B → Bool
  pub stop : R → R
  pub finish : R → R

-- What the derived class does.
pub record ConsumerHooks {ℓ κ} (S : Type ℓ) (B : Type κ) : Type (ℓ ⊔ κ) where
  pub on_consume_start : S → S
  pub consume : B → S → S
  pub on_consume_stop : S → S

pub record Consumer {ℓ κ} (R : Type ℓ) (S : Type κ) : Type (ℓ ⊔ κ) where
  pub reader : R
  pub running : Bool
  pub joinable : Bool
  pub derived : S

-- The size of a batch that `init` passes on, from the one asked for and the buffer's capacity.
unfoldable pub batch_size : ℕ → ℕ → ℕ
batch_size asked capacity = min (max asked (capacity / 20)) capacity

-- One round of a worker loop: whether the consumer still runs, and what other threads have done to the
-- reader before it is called.
pub record Round {ℓ} (R : Type ℓ) : Type ℓ where
  pub still_running : Bool
  pub before : R → R

module _ {ℓ κ μ} {R : Type ℓ} {S : Type κ} {B : Type μ} (ops : ReaderOps R B)
    (hooks : ConsumerHooks S B) where
  -- The loop, for as many rounds as are given: where they run out, `m_running` is clear at the next test.
  unfoldable pub loop : List (Round R) → R → S → R × S
  loop [] r s = (r, s)
  loop (round ∷ rounds) r s =
      let (batch, r') = ops.next (round.before r) in
      let more = loop rounds r' (hooks.consume batch s) in
      if not round.still_running then (r, s) else if not (ops.is_valid batch) then (r', s) else more

  unfoldable pub worker_loop : List (Round R) → Consumer R S → Consumer R S
  worker_loop rounds c =
      let (r, s) = loop rounds c.reader (hooks.on_consume_start c.derived) in
      record c { reader = r; running = false; derived = hooks.on_consume_stop s }

  unfoldable pub start : Consumer R S → Consumer R S
  start c = if c.running then c else record c { running = true; joinable = true }

  unfoldable pub stop : Consumer R S → Consumer R S
  stop c =
      if not c.running
      then c
      else record c { running = false; reader = ops.stop c.reader; joinable = false }

  unfoldable pub finish : Consumer R S → Consumer R S
  finish c =
      if not c.running
      then c
      else record c { reader = ops.finish c.reader; joinable = false; running = false }
