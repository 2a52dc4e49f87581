-- ===== src/Cbf/Output/Consuming.antt =====
-- CbfWriter as the derived class of BatchRecordConsumer.
use cyc_flow.Base.{
  ℕ, ◌<◌, ◌≡◌, refl, ap, sym, ◌∙◌, subst, Bool, true, false, List, [], ◌∷◌, length, word,
}
use cyc_flow.Text.{Text, text_eq}
use cyc_flow.Chunk.{Byte}
use cyc_flow.PReg.{PReg}
use cyc_flow.RecRule.{RecRule}
use cyc_flow.RecRule.TextForm.{to_text}
use cyc_flow.Consumer.{ReaderOps, ConsumerHooks, Consumer, Round, worker_loop}
use cyc_flow.Consumer.Hooks.{handed, consume_all, worker_loop-handed}
use cyc_flow.Cbf.Output.{
  CbfWriter, Outside, without, kept_files, init, set_writer_alias, on_consume_start, consume_batch,
  on_consume_stop,
}
use cyc_flow.Cbf.Output.Files.{Event, play_all, contents, AllCanOpen, cbf_writer-files}
use cyc_flow.Cbf.Output.Recording.{bodies, cbf_files}

-- A batch, with what its call gets from outside.
pub record Batch : Type 0 where
  pub first : Outside
  pub second : Outside
  pub count : ℕ
  pub record_size : ℕ
  pub memory : List Byte

abbrev pub cbf_hooks : Outside → PReg → RecRule → ConsumerHooks CbfWriter Batch
cbf_hooks o r rule = record {
  on_consume_start = on_consume_start o r rule;
  consume = λ b w. consume_batch b.first b.second r rule b.count b.record_size b.memory w;
  on_consume_stop = on_consume_stop;
}

abbrev pub as_events : List Batch → List Event
as_events [] = []
as_events (b ∷ batches) =
    Event.batch b.first b.second b.count b.record_size b.memory ∷ as_events batches

-- No two files have one name.
abbrev pub HasNot : Text → List (Text × List Byte) → Type 0
HasNot name [] = Unit {0}
HasNot name ((other, bytes) ∷ files) = (text_eq other name ≡ false) × HasNot name files

abbrev pub AreDistinct : List (Text × List Byte) → Type 0
AreDistinct [] = Unit {0}
AreDistinct ((name, bytes) ∷ files) = HasNot name files × AreDistinct files

without-same :
    (name : Text) (files : List (Text × List Byte)) → HasNot name files → without name files ≡ files
unfolding without
without-same name [] h = refl
without-same name ((other, bytes) ∷ files) h =
    rw (h.0) (ap (λ fs. (other, bytes) ∷ fs) (without-same name files h.1))

kept_files-same : (files : List (Text × List Byte)) → AreDistinct files → kept_files files ≡ files
unfolding kept_files
kept_files-same [] h = refl
kept_files-same ((name, bytes) ∷ files) h =
    ap (λ fs. (name, bytes) ∷ fs)
      (ap (without name) (kept_files-same files h.1) ∙ without-same name files h.0)

module _ {ℓ} {R : Type ℓ} (ops : ReaderOps R Batch) (o : Outside) (r : PReg) (rule : RecRule)
    (short : length (to_text r rule) < word) where
  consume_all-play_all :
      (batches : List Batch) (w : CbfWriter)
      → consume_all ops (cbf_hooks o r rule) batches w ≡ play_all r rule (as_events batches) w
  consume_all-play_all [] w = refl
  consume_all-play_all (b ∷ batches) w =
      consume_all-play_all batches
        (consume_batch b.first b.second r rule b.count b.record_size b.memory w)

  -- A consumer thread that writes CBF files under different names, over any reader and whatever
  -- other threads do to it between its calls, leaves files whose Data sections hold, in the order
  -- of writing, exactly the records of the valid batches that the reader gave while the consumer
  -- ran. (The writer is new, no two of its files have one name, which a rotation without the time
  -- stamp suffix would give them, the system opens each file, writes do not fail, and the schema's
  -- text and all records have fewer than 2^64 bytes.)
  pub consumed-files :
      (rounds : List (Round R)) (c : Consumer R CbfWriter) (filename alias : Text)
      (add_timestamp_suffix : Bool) (max_records : ℕ)
      → c.derived ≡ set_writer_alias alias (init o filename add_timestamp_suffix max_records)
      → o.can_open ≡ true
      → AllCanOpen (as_events (handed ops (cbf_hooks o r rule) rounds c.reader))
      → length (contents (as_events (handed ops (cbf_hooks o r rule) rounds c.reader))) < word
      → AreDistinct (worker_loop ops (cbf_hooks o r rule) rounds c).derived.disk
      → let w = (worker_loop ops (cbf_hooks o r rule) rounds c).derived in
        (files : List (Text × List Byte)) × (kept_files w.disk ≡ cbf_files r rule w.alias files)
        × (bodies files ≡ contents (as_events (handed ops (cbf_hooks o r rule) rounds c.reader)))
  consumed-files rounds c filename alias add_timestamp_suffix max_records fresh can cans room
        apart =
      let (files, on_disk, all) = subst Leaves (sym (loop_run ∙ played)) (
        cbf_writer-files r rule short o filename alias add_timestamp_suffix max_records
          (as_events taken) can cans room) in
      (
        files,
        kept_files-same (worker_loop ops (cbf_hooks o r rule) rounds c).derived.disk apart
            ∙ on_disk,
        all,
      )
    where
      taken : List Batch
      taken = handed ops (cbf_hooks o r rule) rounds c.reader

      Leaves : CbfWriter → Type 0
      Leaves w =
          (files : List (Text × List Byte)) × (w.disk ≡ cbf_files r rule w.alias files)
          × (bodies files ≡ contents (as_events taken))

      loop_run :
          (worker_loop ops (cbf_hooks o r rule) rounds c).derived
          ≡ on_consume_stop
              (consume_all ops (cbf_hooks o r rule) taken (on_consume_start o r rule c.derived))
      loop_run = (worker_loop-handed ops (cbf_hooks o r rule) rounds c).0

      played :
          on_consume_stop
            (consume_all ops (cbf_hooks o r rule) taken (on_consume_start o r rule c.derived))
          ≡ on_consume_stop (
              play_all r rule (as_events taken) (
                on_consume_start o r rule
                  (set_writer_alias alias (init o filename add_timestamp_suffix max_records))))
      played =
          ap on_consume_stop (consume_all-play_all taken (on_consume_start o r rule c.derived))
          ∙ ap
              (λ w.
                on_consume_stop (play_all r rule (as_events taken) (on_consume_start o r rule w)))
              fresh
