-- ===== src/Cbf/Output/Files.antt =====
-- Whole runs of CbfWriter, from its start to its stop.
use cyc_flow.Base.{
  ℕ, ◌+◌, ◌<◌, ◌≡◌, refl, sym, subst, Bool, true, List, [], ◌∷◌, ◌++◌, length, take, length-append,
  append-nil, append_assoc, mul64, word, arith,
}
use cyc_flow.Text.{Text}
use cyc_flow.Chunk.{Byte}
use cyc_flow.PReg.{PReg}
use cyc_flow.RecRule.{RecRule}
use cyc_flow.RecRule.TextForm.{to_text}
use cyc_flow.Cbf.Output.{
  CbfWriter, Outside, init, set_writer_alias, restart, on_consume_start, consume_batch,
  on_consume_stop,
}
use cyc_flow.Cbf.Output.Recording.{
  IsRecording, IsClosed, bodies, cbf_files, close_file-IsClosed, open-IsRecording,
  consume_batch-IsRecording,
}

-- What happens to the writer while it runs.
pub data Event : Type 0 where
  batch : (o o' : Outside) (count record_size : ℕ) (memory : List Byte) → Event
  asked : Event

abbrev pub play : PReg → RecRule → Event → CbfWriter → CbfWriter
play r rule (batch o o' count record_size memory) w =
    consume_batch o o' r rule count record_size memory w
play r rule asked w = restart w

abbrev pub play_all : PReg → RecRule → List Event → CbfWriter → CbfWriter
play_all r rule [] w = w
play_all r rule (e ∷ events) w = play_all r rule events (play r rule e w)

-- The records of an event, and of all.
abbrev pub content : Event → List Byte
content (batch o o' count record_size memory) = take (mul64 count record_size) memory
content asked = []

abbrev pub contents : List Event → List Byte
contents [] = []
contents (e ∷ events) = content e ++ contents events

-- The system opens each file.
abbrev pub CanOpen : Event → Type 0
CanOpen (batch o o' count record_size memory) = (o.can_open ≡ true) × (o'.can_open ≡ true)
CanOpen asked = Unit {0}

abbrev pub AllCanOpen : List Event → Type 0
AllCanOpen [] = Unit {0}
AllCanOpen (e ∷ events) = CanOpen e × AllCanOpen events

module _ (r : PReg) (rule : RecRule) (short : length (to_text r rule) < word) where
  play-IsRecording :
      {log : List Byte} {w : CbfWriter} (e : Event)
      → CanOpen e
      → length log + length (content e) < word
      → IsRecording r rule short log w
      → IsRecording r rule short (log ++ content e) (play r rule e w)
  unfolding restart
  play-IsRecording (batch o o' count record_size memory) can room d =
      consume_batch-IsRecording r rule short o o' count record_size memory can.0 can.1 room d
  play-IsRecording {log} {w} asked can room d =
      subst (λ xs. IsRecording r rule short xs (restart w)) (sym (append-nil log))
        (record {
          closed = d.closed;
          body = d.body;
          on_disk = d.on_disk;
          current = d.current;
          all = d.all;
        })

  play_all-IsRecording :
      (events : List Event) {log : List Byte} {w : CbfWriter}
      → AllCanOpen events
      → length log + length (contents events) < word
      → IsRecording r rule short log w
      → IsRecording r rule short (log ++ contents events) (play_all r rule events w)
  play_all-IsRecording [] {log} {w} can room d =
      subst (λ xs. IsRecording r rule short xs w) (sym (append-nil log)) d
  play_all-IsRecording (e ∷ events) {log} {w} can room d =
      subst (λ xs. IsRecording r rule short xs (play_all r rule events (play r rule e w)))
        (append_assoc log (content e) (contents events))
        (play_all-IsRecording events can.1
          (omega (
            arith,
            room,
            length-append log (content e),
            length-append (content e) (contents events),
          ))
          (play-IsRecording e can.0
            (omega (arith, room, length-append (content e) (contents events))) d))

  -- Whatever restarts and rotations happen on the way, the files that CbfWriter has closed by its
  -- stop are each a Schema section and one Data section with its length filled in, and the bodies
  -- of these sections in the order of writing are exactly the records of all the batches it was
  -- given: none lost, none twice. (A file replaces an earlier one of the same name. The system
  -- opens each file, writes do not fail, and the schema's text and all records have fewer than 2^64
  -- bytes.)
  pub cbf_writer-files :
      (o : Outside) (filename alias : Text) (add_timestamp_suffix : Bool) (max_records : ℕ)
      (events : List Event)
      → o.can_open ≡ true
      → AllCanOpen events
      → length (contents events) < word
      → let w = on_consume_stop (
          play_all r rule events (
            on_consume_start o r rule
              (set_writer_alias alias (init o filename add_timestamp_suffix max_records)))) in
        (files : List (Text × List Byte)) × (w.disk ≡ cbf_files r rule w.alias files)
        × (bodies files ≡ contents events)
  unfolding on_consume_stop on_consume_start set_writer_alias init
  cbf_writer-files o filename alias add_timestamp_suffix max_records events can cans room =
      let start : IsClosed r rule short []
          (set_writer_alias alias (init o filename add_timestamp_suffix max_records)) =
        record { closed = []; on_disk = refl; shut = refl; all = refl } in
      let end = close_file-IsClosed r rule short (
        play_all-IsRecording events {log = []} cans (omega (arith, room))
          (open-IsRecording r rule short o can start)) in
      (end.closed, end.on_disk, end.all)
