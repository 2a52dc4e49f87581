-- ===== src/Producer.antt =====
-- RecordProducer and BatchRecordProducer of CycLib/RecordProducer.h and RecordProducer.cpp: a thread that
-- fills a writer's records or batches from the derived class.
-- The writer and the derived class are interfaces; `make_writer` is the factory. `joinable` is as in
-- Consumer. `initialize` is its body under the lock.
pub mod Once
use cyc_flow.Base.{
  ℕ, ◌/◌, ◌==◌, min, max, Bool, true, false, not, ◌||◌, if◌then◌else◌, Option, none, some, List, [],
  ◌∷◌, length,
}
use cyc_flow.RecRule.{RecRule}
use cyc_flow.RecBuffer.{RecBuffer}
use cyc_flow.RecBuffer

-- What the producer needs of its writer; `B` is a batch of free slots, or a record.
pub record WriterOps {ℓ κ} (W : Type ℓ) (B : Type κ) : Type (ℓ ⊔ κ) where
  pub next_batch : ℕ → W → B × W
  pub is_valid : B → Bool
  pub commit_batch : ℕ → B → W → W
  pub next_record : W → B × W
  pub commit_record : B → W → W
  pub flush : W → W

-- What the derived class does: `produce_batch` fills slots and says how many, and
-- `produce_step` fills one and says whether to go on.
pub record ProducerHooks {ℓ κ} (S : Type ℓ) (B : Type κ) : Type (ℓ ⊔ κ) where
  pub define_rule : S → RecRule × S
  pub on_produce_start : S → S
  pub produce_batch : B → S → ℕ × B × S
  pub produce_step : B → S → Bool × B × S
  pub on_produce_stop : S → S

pub record Producer {ℓ κ} (W : Type ℓ) (S : Type κ) : Type (ℓ ⊔ κ) where
  pub buffer_capacity : ℕ
  pub writer_batch_size : ℕ
  pub buffer : Option RecBuffer
  pub writer : Option W
  pub running : Bool
  pub joinable : Bool
  pub is_initialized : Bool
  pub derived : S

unfoldable pub init {ℓ κ} : {W : Type ℓ} {S : Type κ} → ℕ → ℕ → S → Producer W S
init buffer_capacity writer_batch_size derived = record {
  buffer_capacity = buffer_capacity;
  writer_batch_size = min (max writer_batch_size (buffer_capacity / 20)) buffer_capacity;
  buffer = none;
  writer = none;
  running = false;
  joinable = false;
  is_initialized = false;
  derived = derived;
}

abbrev pub is_missing {ℓ} : {A : Type ℓ} → Option A → Bool
is_missing none = true
is_missing (some x) = false

module _ {ℓ κ μ} {W : Type ℓ} {S : Type κ} {B : Type μ} (ops : WriterOps W B)
    (hooks : ProducerHooks S B) (make_writer : RecBuffer → ℕ → W) where
  unfoldable pub initialize : Producer W S → Producer W S
  initialize p =
      let (rule, derived) = hooks.define_rule p.derived in
      let buffer = RecBuffer.init rule p.buffer_capacity RecBuffer.blank in
      if p.is_initialized
      then p
      else if length rule.attrs == 0
      then record p { derived = derived }
      else record p {
        buffer = some buffer;
        writer = some (make_writer buffer p.writer_batch_size);
        is_initialized = true;
        derived = derived;
      }

  unfoldable pub get_buffer : Producer W S → Option RecBuffer × Producer W S
  get_buffer p = let ready = initialize p in (ready.buffer, ready)

  unfoldable pub get_writer : Producer W S → Option W × Producer W S
  get_writer p = let ready = initialize p in (ready.writer, ready)

  unfoldable pub start : Producer W S → Producer W S
  start p =
      let ready = initialize p in
      if p.running
      then p
      else if is_missing ready.buffer || is_missing ready.writer
      then ready
      else record ready { running = true; joinable = true }

  abbrev flushed : Option W → Option W
  flushed none = none
  flushed (some w) = some (ops.flush w)

  unfoldable pub stop : Producer W S → Producer W S
  stop p =
      if not p.running
      then p
      else record p { running = false; writer = flushed p.writer; joinable = false }

  unfoldable pub join : Producer W S → Producer W S
  join p = record p { joinable = false }

  -- The loop of BatchRecordProducer, for as long as the list says that the producer runs.
  unfoldable pub loop : List Bool → ℕ → W → S → W × S
  loop [] size w s = (w, s)
  loop (still_running ∷ rounds) size w s =
      let (batch, w') = ops.next_batch size w in
      let (written, filled, s') = hooks.produce_batch batch s in
      let more = loop rounds size (ops.commit_batch written filled w') s' in
      if not still_running then (w, s) else if not (ops.is_valid batch) then (w', s) else more

  unfoldable pub worker_loop : List Bool → W → Producer W S → Producer W S
  worker_loop rounds w p =
      let (w', s) = loop rounds p.writer_batch_size w (hooks.on_produce_start p.derived) in
      record p { writer = some (ops.flush w'); running = false; derived = hooks.on_produce_stop s }

  -- The loop of RecordProducer.
  unfoldable pub record_loop : List Bool → W → S → W × S
  record_loop [] w s = (w, s)
  record_loop (still_running ∷ rounds) w s =
      let (rec, w') = ops.next_record w in
      let (go_on, filled, s') = hooks.produce_step rec s in
      let more = record_loop rounds (ops.commit_record filled w') s' in
      if not still_running then (w, s) else if not go_on then (w', s') else more

  unfoldable pub record_worker_loop : List Bool → W → Producer W S → Producer W S
  record_worker_loop rounds w p =
      let (w', s) = record_loop rounds w (hooks.on_produce_start p.derived) in
      record p { writer = some (ops.flush w'); running = false; derived = hooks.on_produce_stop s }
