-- ===== src/Tests/Workers.antt =====
-- A consumer that writes files, and a producer, at concrete interfaces.
use cyc_flow.Base.{
  ℕ, ◌*◌, ◌<◌, ◌≡◌, ◌≢◌, refl, ap, true, false, not, ◌==◌, List, [], ◌∷◌, length, replicate, add64,
  mul64, word, arith,
}
use cyc_flow.Text.{Text, codes, text_eq, strncpy}
use cyc_flow.Chunk.{Byte}
use cyc_flow.Text.Decimal.{print, digits}
use cyc_flow.Text.Fields.{join}
use cyc_flow.DataType.{data_type_to_string, get_type_size}
use cyc_flow.PReg.{get_id, find, get_name, register}
use cyc_flow.PAttr.{plain, has_bit_fields, get_size}
use cyc_flow.RecRule
use cyc_flow.RecRule.{build_header, lay_out, place, fill, fill_one, max_field_id, cache_bits}
use cyc_flow.RecRule.TextForm.{to_text, lines_of, line_of, bits_part, bit_column, tokens}
use cyc_flow.Consumer.{ReaderOps, Consumer, Round, worker_loop}
use cyc_flow.Consumer.Hooks.{handed, consume_all, worker_loop-handed}
use cyc_flow.Cbf
use cyc_flow.Cbf.Fstream
use cyc_flow.Consumer
use cyc_flow.Cbf.Output.{
  Outside, CbfWriter, kept_files, init, last_dot, create_suffixed_filename, next_filename,
  close_file, open_and_write_schema, rotate_file, restarted, put_batch, consume_batch,
  set_writer_alias, on_consume_start, on_consume_stop,
}
use cyc_flow.Cbf.Output.Files.{contents}
use cyc_flow.Cbf.Output.Recording.{bodies, cbf_files}
use cyc_flow.Cbf.Output.Consuming.{AreDistinct, Batch, cbf_hooks, as_events, consumed-files}
use cyc_flow.Producer.{WriterOps, ProducerHooks, Producer, get_buffer, start, stop}
use cyc_flow.Producer
use cyc_flow.Producer.Once.{get_buffer-kept}
use cyc_flow.Tests.Texts.{registry, plain_rule, plain_text, plain_fields}

abbrev outside : Outside
outside = record { suffix = codes "_2026"; can_open = true }

abbrev later : Outside
later = record { suffix = codes "_2027"; can_open = true }

abbrev batch_of : ℕ → ℕ → Batch
batch_of count byte = record {
  first = outside;
  second = later;
  count = count;
  record_size = 19;
  memory = replicate (count * 19) byte;
}

-- A reader of the batches of a list; an empty one at its end is not valid.
abbrev reader_ops : ReaderOps (List Batch) Batch
reader_ops = record {
  next = λ batches. elim batches as (λ _. Batch × List Batch) [
    | [] ↦ (batch_of 0 0, [])
    | b ∷ rest ↦ (b, rest)
  ];
  is_valid = λ b. not (b.count == 0);
  stop = λ batches. [];
  finish = λ batches. batches;
}

abbrev consumer : Consumer (List Batch) CbfWriter
consumer = record {
  reader = batch_of 2 5 ∷ batch_of 1 6 ∷ [];
  running = true;
  joinable = true;
  derived = set_writer_alias (codes "Sensors") (init outside (codes "log.cbf") true 2);
}

abbrev rounds : List (Round (List Batch))
rounds =
    record { still_running = true; before = λ r. r }
    ∷ record { still_running = true; before = λ r. r }
    ∷ record { still_running = true; before = λ r. r }
    ∷ []

short : length (to_text registry plain_rule) < word
short = omega (arith, ap length plain_text)

small :
    length (
      contents (
        as_events
          (handed reader_ops (cbf_hooks outside registry plain_rule) rounds consumer.reader)))
    < word
unfolding mul64
small = omega arith

apart :
    AreDistinct
      (worker_loop reader_ops (cbf_hooks outside registry plain_rule) rounds consumer).derived.disk
unfolding worker_loop Consumer.loop on_consume_start on_consume_stop consume_batch put_batch
    restarted rotate_file open_and_write_schema close_file next_filename create_suffixed_filename
    last_dot set_writer_alias init Cbf.open_file Cbf.write_schema Cbf.can_write Cbf.set_alias
    Cbf.begin_data_section Cbf.write_bytes Cbf.end_data_section Cbf.close Cbf.bytes_of Fstream.write
    Fstream.seek Fstream.tell add64 mul64 text_eq Cbf.header_bytes Cbf.name_bytes Cbf.section_code
    Cbf.section_header RecRule.init build_header lay_out place fill fill_one max_field_id cache_bits
    plain strncpy get_id find get_name register has_bit_fields get_size get_type_size to_text
    lines_of line_of bits_part bit_column tokens data_type_to_string print digits join
apart = ((refl, tt), (tt, tt))

consumed-files_example :
    let w =
      (worker_loop reader_ops (cbf_hooks outside registry plain_rule) rounds consumer).derived in
    (files : List (Text × List Byte)) × (kept_files w.disk
      ≡ cbf_files registry plain_rule w.alias files)
    × (bodies files
        ≡ contents (
            as_events
              (handed reader_ops (cbf_hooks outside registry plain_rule) rounds consumer.reader)))
consumed-files_example =
    consumed-files reader_ops outside registry plain_rule short rounds consumer (codes "log.cbf")
      (codes "Sensors") true 2 refl refl ((refl, refl), ((refl, refl), tt)) small apart

worker_loop-handed_example :
    let c' = worker_loop reader_ops (cbf_hooks outside registry plain_rule) rounds consumer in
    (c'.derived
      ≡ on_consume_stop (
          consume_all reader_ops
            (cbf_hooks outside registry plain_rule)
            (handed reader_ops (cbf_hooks outside registry plain_rule) rounds consumer.reader)
            (on_consume_start outside registry plain_rule consumer.derived)))
    × (c'.running ≡ false)
worker_loop-handed_example =
    worker_loop-handed reader_ops (cbf_hooks outside registry plain_rule) rounds consumer

-- A writer that counts, and a class that fills every slot.
abbrev writer_ops : WriterOps ℕ ℕ
writer_ops = record {
  next_batch = λ n w. (n, w);
  is_valid = λ n. not (n == 0);
  commit_batch = λ written n w. w;
  next_record = λ w. (1, w);
  commit_record = λ n w. w;
  flush = λ w. w;
}

abbrev producer_hooks : ProducerHooks ℕ ℕ
producer_hooks = record {
  define_rule = λ s. (plain_rule, s);
  on_produce_start = λ s. s;
  produce_batch = λ n s. (n, n, s);
  produce_step = λ n s. (true, n, s);
  on_produce_stop = λ s. s;
}

abbrev producer : Producer ℕ ℕ
producer = Producer.init 100 10 0

some_fields : length plain_rule.attrs ≢ 0
some_fields = λ e. absurd (omega (arith, e, plain_fields))

get_buffer-kept_example :
    let (buffer, p') = get_buffer writer_ops producer_hooks (λ b n. n) producer in
    let started = start writer_ops producer_hooks (λ b n. n) p' in
    ((get_buffer writer_ops producer_hooks (λ b n. n) p').0 ≡ buffer)
    × ((get_buffer writer_ops producer_hooks (λ b n. n) started).0 ≡ buffer)
    × ((get_buffer writer_ops producer_hooks
          (λ b n. n)
          (stop writer_ops producer_hooks (λ b n. n) started)).0
        ≡ buffer)
get_buffer-kept_example = get_buffer-kept writer_ops producer_hooks (λ b n. n) producer some_fields
