-- ===== src/RecBuffer.antt =====
-- RecBuffer of CycLib/Core/RecBuffer.h and RecBuffer.cpp: records in a chunk buffer, and the
-- subscribed clients that hold writers back.
-- Each function is the body under its locks, one step. A client is its pointer, a number; where its
-- virtual `getCursor` is called, `cursors` gives what each client answers. `push` returns the clients
-- whose `notifyDataAvailable` it calls. The condition variable only delays: `space_ready` is the
-- predicate that it waits for.
pub mod Read
pub mod Space
pub mod Clients
use cyc_flow.Base.{
  ℕ, zero, suc, ◌+◌, ◌-◌, min, Bool, true, false, not, ◌&&◌, ◌||◌, leb, ltb, ◌==◌, if◌then◌else◌,
  Option, none, some, List, [], ◌∷◌, ◌++◌, length, sub64, word,
}
use cyc_flow.RecRule.{RecRule, get_rec_size}
use cyc_flow.RecRule
use cyc_flow.Ring
use cyc_flow.Chunk.{Chunks, Byte, raw_byte}
use cyc_flow.Chunk

pub record RecBuffer : Type 0 where
  pub rule : RecRule
  pub impl : Chunks
  pub clients : List ℕ
  pub phantom_read_cursor : ℕ

-- UINT64_MAX, the cursor of a client that holds nothing back.
abbrev pub no_cursor : ℕ
no_cursor = word - 1

-- The default constructor, over a default DynamicChunkBuffer.
unfoldable pub blank : RecBuffer
blank = record {
  rule = RecRule.blank;
  impl = record { total_written = 0; chunk_size = 0; buffer = Ring.init raw_byte 1 };
  clients = [];
  phantom_read_cursor = 0;
}

unfoldable pub init : RecRule → ℕ → RecBuffer → RecBuffer
init rule capacity b = record b { rule = rule; impl = Chunk.init capacity (get_rec_size rule) }

unfoldable pub push : Option (List Byte) → ℕ → RecBuffer → RecBuffer × List ℕ
push source count b = (record b { impl = Chunk.push source count b.impl }, b.clients)

-- The number of records read, and the destination afterwards.
unfoldable pub read_from_global : ℕ → Option (List Byte) → ℕ → RecBuffer → ℕ × Option (List Byte)
read_from_global global_cursor dest count b =
    let current_size = Chunk.size b.impl in
    let lag = sub64 b.impl.total_written global_cursor in
    if ltb current_size lag || lag == 0
    then (0, dest)
    else (count, Chunk.read_at (current_size - lag) dest count b.impl)

-- The slot of the first byte, `none` for the null pointer, and `outContiguous`.
unfoldable pub get_batch_ptr_from_global : ℕ → ℕ → RecBuffer → Option ℕ × ℕ
get_batch_ptr_from_global global_cursor max_records b =
    let current_size = Chunk.size b.impl in
    let lag = sub64 b.impl.total_written global_cursor in
    let (ptr, contiguous) = Chunk.get_batch_ptr (current_size - lag) (min max_records lag) b.impl in
    if lag == 0 || ltb current_size lag then (none, 0) else (some ptr, contiguous)

unfoldable pub read_relative : ℕ → Option (List Byte) → ℕ → RecBuffer → Option (List Byte)
read_relative index dest count b = Chunk.read_at index dest count b.impl

-- A record is its rule and the slot of its first byte, `none` for the null pointer.
unfoldable pub process_record {ℓ} : {R : Type ℓ} → ℕ → (RecRule × Option ℕ → R) → RecBuffer → R
process_record index visitor b =
    if leb (Chunk.size b.impl) index
    then visitor (b.rule, none)
    else visitor (b.rule, some (Chunk.get_chunk_ptr index b.impl).0)

-- `dest` is the record's rule and memory; the result is whether it was filled, and its memory.
unfoldable pub copy_record :
    ℕ → RecRule → Option (List Byte) → RecBuffer → Bool × Option (List Byte)
copy_record index dest_rule none b = (false, none)
copy_record index dest_rule (some memory) b =
    if not (get_rec_size dest_rule == b.impl.chunk_size)
    then (false, some memory)
    else if leb (Chunk.size b.impl) index
    then (false, some memory)
    else (true, Chunk.read_at index (some memory) 1 b.impl)

unfoldable pub get_total_written_and_size : RecBuffer → ℕ × ℕ
get_total_written_and_size b = (b.impl.total_written, Chunk.size b.impl)

unfoldable pub contains : ℕ → List ℕ → Bool
contains client [] = false
contains client (c ∷ clients) = c == client || contains client clients

unfoldable pub add_client : ℕ → RecBuffer → RecBuffer
add_client client b =
    if contains client b.clients then b else record b { clients = b.clients ++ client ∷ [] }

-- `erase` of the first place that `find` gives.
unfoldable pub erase : ℕ → List ℕ → List ℕ
erase client [] = []
erase client (c ∷ clients) = if c == client then clients else c ∷ erase client clients

unfoldable pub remove_client : ℕ → RecBuffer → RecBuffer
remove_client client b = record b { clients = erase client b.clients }

-- The loop of `calculateMinReadCursor_nolock`.
unfoldable pub min_cursor : (ℕ → ℕ) → ℕ → List ℕ → ℕ
min_cursor cursors least [] = least
min_cursor cursors least (c ∷ clients) =
    min_cursor cursors
      (if not (cursors c == no_cursor) && ltb (cursors c) least then cursors c else least) clients

-- The least cursor, and the buffer with the cursor that it remembers.
unfoldable pub calculate_min_read_cursor : (ℕ → ℕ) → RecBuffer → ℕ × RecBuffer
calculate_min_read_cursor cursors b =
    let least = min_cursor cursors no_cursor b.clients in
    if length b.clients == 0
    then (b.phantom_read_cursor, b)
    else if least == no_cursor
    then (b.phantom_read_cursor, b)
    else (least, record b { phantom_read_cursor = least })

unfoldable pub get_available_write_space : (ℕ → ℕ) → RecBuffer → ℕ × RecBuffer
get_available_write_space cursors b =
    let total = b.impl.total_written in
    let cap = Chunk.capacity b.impl in
    let (least, b') = calculate_min_read_cursor cursors b in
    let unread = sub64 total least in
    if ltb total least then (cap, b') else ((if leb cap unread then 0 else cap - unread), b')

-- What `waitForSpace` waits for; `stopped` is the stop condition's answer.
unfoldable pub space_ready : (ℕ → ℕ) → Bool → RecBuffer → Bool
space_ready cursors stopped b = ltb 0 (get_available_write_space cursors b).0 || stopped
