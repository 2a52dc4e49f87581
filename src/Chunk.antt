-- ===== src/Chunk.antt =====
-- DynamicChunkBuffer of CycLib/Core/DynamicChunkBuffer.h: chunks of one size in a ring of bytes.
-- A byte is a number below 256, which nothing here computes with. The atomic counter is a field.
pub mod Inv
pub mod Log
pub mod Read
use cyc_flow.Base.{
  ℕ, zero, suc, ◌+◌, ◌*◌, ◌/◌, ◌%◌, min, Bool, ltb, ◌==◌, if◌then◌else◌, Option, none, some, List,
  add64, sub64, mul64,
}
use cyc_flow.Ring.{Ring, push_many, peek_many_at, get_ptr_unsafe}
use cyc_flow.Ring

abbrev pub Byte : Type 0
Byte = ℕ

-- What a byte of a fresh allocation holds; nothing reads it.
abbrev pub raw_byte : Byte
raw_byte = 0

pub record Chunks : Type 0 where
  pub total_written : ℕ
  pub chunk_size : ℕ
  pub buffer : Ring Byte

unfoldable pub init : ℕ → ℕ → Chunks
init item_capacity chunk_size = record {
  total_written = 0;
  chunk_size = chunk_size;
  buffer = Ring.init raw_byte (mul64 item_capacity chunk_size);
}

unfoldable pub size : Chunks → ℕ
size c = c.buffer.size / c.chunk_size

unfoldable pub capacity : Chunks → ℕ
capacity c = c.buffer.capacity / c.chunk_size

-- `source` is the memory behind the pointer, `none` the null pointer.
unfoldable pub push : Option (List Byte) → ℕ → Chunks → Chunks
push none count c = c
push (some source) count c = if count == 0 then c else record c {
  total_written = add64 c.total_written count;
  buffer = push_many (some source) (mul64 count c.chunk_size) c.buffer;
}

unfoldable pub read_at : ℕ → Option (List Byte) → ℕ → Chunks → Option (List Byte)
read_at index none count c = none
read_at index (some dest) count c =
    if count == 0
    then some dest
    else peek_many_at (mul64 index c.chunk_size) (some dest) (mul64 count c.chunk_size) c.buffer

-- The slot of the chunk's first byte, and whether the chunk goes round the end of the array.
unfoldable pub get_chunk_ptr : ℕ → Chunks → ℕ × Bool
get_chunk_ptr index c =
    let byte_index = mul64 index c.chunk_size in
    let physical_start = add64 c.buffer.head byte_index % c.buffer.capacity in
    (get_ptr_unsafe byte_index c.buffer, ltb c.buffer.capacity (add64 physical_start c.chunk_size))

-- The slot of the first byte, and the number of chunks that lie behind it without a wrap.
unfoldable pub get_batch_ptr : ℕ → ℕ → Chunks → ℕ × ℕ
unfolding capacity
get_batch_ptr rel_chunk_idx max_chunks c =
    let item_cap = capacity c in
    let head_chunk = c.buffer.head / c.chunk_size in
    let phys_chunk_idx = add64 head_chunk rel_chunk_idx % item_cap in
    let avail = sub64 item_cap phys_chunk_idx in
    (get_ptr_unsafe (mul64 rel_chunk_idx c.chunk_size) c.buffer, min max_chunks avail)

unfoldable pub clear : Chunks → Chunks
clear c = record c { buffer = Ring.clear raw_byte c.buffer }
