-- ===== src/Tests/Files.antt =====
-- The file format's theorems at concrete files.
use cyc_flow.Base.{
  ℕ, ◌+◌, ◌*◌, ◌≤◌, ◌<◌, ◌≡◌, refl, ap, true, false, some, List, [], ◌∷◌, ◌++◌, length, take,
  replicate, mul64, word, arith,
}
use cyc_flow.Text.{Text, codes}
use cyc_flow.Chunk.{Byte}
use cyc_flow.RecRule.{RecRule}
use cyc_flow.RecRule
use cyc_flow.RecRule.TextForm.{to_text}
use cyc_flow.RecRule.TextForm.Same.{from_text-to_text, to_text-nonempty}
use cyc_flow.Cbf.{blank}
use cyc_flow.Cbf.Written.{cbf_bytes}
use cyc_flow.Cbf.RoundTrip.{cbf_round_trip, drain-cbf_bytes}
use cyc_flow.Cbf.Input.{CbfReader, define_rule, scan, next_data_section}
use cyc_flow.Cbf.Input.Batches.{drain, slots, AllRoom}
use cyc_flow.Cbf.Input.Fuel.{scan-enough}
use cyc_flow.Cbf.Output.{Outside, init, set_writer_alias, on_consume_start, on_consume_stop}
use cyc_flow.Cbf.Output.Files.{Event, play_all, contents, cbf_writer-files}
use cyc_flow.Cbf.Output.Recording.{bodies, cbf_files}
use cyc_flow.Tests.Texts.{
  registry, field_a, field_b, plain_rule, made, all_plain, plain_text, plain_size,
}

abbrev reader : CbfReader
reader = record {
  filename = codes "log.cbf";
  cbf_file = blank;
  record_size = 0;
  valid = false;
  data_bytes_remaining = 0;
  running = true;
}

-- Two records of 19 bytes.
abbrev body : List Byte
body = replicate 19 5 ++ replicate 19 6

abbrev batches : List (ℕ × List Byte)
batches = (1, replicate 19 0) ∷ (3, replicate 57 0) ∷ []

short : length (to_text registry plain_rule) ≤ 100
short = omega (arith, ap length plain_text)

sized : 0 < plain_rule.rec_size
sized = omega (arith, plain_size)

whole : length body ≡ 2 * plain_rule.rec_size
whole = omega (arith, plain_size)

room : AllRoom plain_rule.rec_size batches
room = (omega (arith, plain_size), (omega (arith, plain_size), tt))

cbf_round_trip_example :
    let (read, c', r') =
      define_rule (some (cbf_bytes registry plain_rule (codes "Sensors") body)) registry reader in
    (read ≡ plain_rule) × ((drain batches c').0 ≡ body)
cbf_round_trip_example =
    cbf_round_trip (field_a ∷ field_b ∷ []) plain_rule registry (codes "Sensors") body 2 reader
      batches made all_plain refl (omega (arith, short)) sized whole (omega arith) room
      (omega arith)

-- A second batch of the aligned capacity finds only what is left.
drain-cbf_bytes_example :
    let (read, c', r'') =
      define_rule (some (cbf_bytes registry plain_rule [] body)) registry reader in
    (read ≡ plain_rule)
    × (r'' ≡ registry)
    × ((drain ((1, replicate 19 0) ∷ []) c').0
        ≡ take (slots ((1, replicate 19 0) ∷ []) * plain_rule.rec_size) body)
drain-cbf_bytes_example =
    drain-cbf_bytes registry registry registry plain_rule plain_rule [] body 2 reader
      ((1, replicate 19 0) ∷ []) refl
      (to_text-nonempty (field_a ∷ field_b ∷ []) plain_rule registry registry registry made)
      (omega (arith, short))
      (from_text-to_text (field_a ∷ field_b ∷ []) plain_rule registry made all_plain) sized whole
      (omega arith) (omega (arith, plain_size), tt)

scan-enough_example :
    (scan (length reader.cbf_file.file.bytes + 1 + 5) registry RecRule.blank reader
      ≡ scan (length reader.cbf_file.file.bytes + 1) registry RecRule.blank reader)
    × (next_data_section (length reader.cbf_file.file.bytes + 1 + 5) reader
        ≡ next_data_section (length reader.cbf_file.file.bytes + 1) reader)
scan-enough_example = scan-enough 5 registry RecRule.blank reader

abbrev outside : Outside
outside = record { suffix = codes "_2026"; can_open = true }

-- A file of one record, a restart, and a file of two.
abbrev events : List Event
events =
    Event.batch outside outside 1 19 (replicate 19 5)
    ∷ Event.asked
    ∷ Event.batch outside outside 2 19 (replicate 40 6)
    ∷ []

content_small : length (contents events) < word
unfolding mul64
content_small = omega arith

cbf_writer-files_example :
    let w = on_consume_stop (
      play_all registry plain_rule events (
        on_consume_start outside registry plain_rule
          (set_writer_alias (codes "Sensors") (init outside (codes "log.cbf") true 100)))) in
    (files : List (Text × List Byte)) × (w.disk ≡ cbf_files registry plain_rule w.alias files)
    × (bodies files ≡ contents events)
cbf_writer-files_example =
    cbf_writer-files registry plain_rule (omega (arith, short)) outside (codes "log.cbf")
      (codes "Sensors") true 100 events refl ((refl, refl), (tt, ((refl, refl), tt))) content_small
