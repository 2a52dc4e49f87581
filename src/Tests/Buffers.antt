-- ===== src/Tests/Buffers.antt =====
-- Runs of the record buffer, and its theorems on a buffer whose records go round the end of the ring.
use cyc_flow.Base.{
  if◌then◌else◌, ℕ, ◌+◌, ◌*◌, ◌≤◌, ◌<◌, min, ◌≡◌, refl, inl, inr, true, false, ◌==◌, none, some,
  List, [], ◌∷◌, ◌++◌, take, drop, slice, add64, sub64, mul64, arith,
}
use cyc_flow.Ring.{Ring, copy_chunk, push_within, push_many, to_std_vector, read_from, at_unchecked}
use cyc_flow.Ring
use cyc_flow.Chunk.{Chunks, Byte, get_chunk_ptr, get_batch_ptr, read_at}
use cyc_flow.Chunk
use cyc_flow.Chunk.Inv.{IsAligned}
use cyc_flow.Chunk.Log.{Holds, push-Holds}
use cyc_flow.Chunk.Read.{chunks_of, held_chunks, get_chunk_ptr-whole, get_batch_ptr_lem}
use cyc_flow.RecRule.{RecRule, get_rec_size}
use cyc_flow.RecRule
use cyc_flow.RecBuffer.{
  RecBuffer, push, read_from_global, get_batch_ptr_from_global, contains, min_cursor,
  calculate_min_read_cursor, get_available_write_space,
}
use cyc_flow.RecBuffer.Read.{
  IsKept, read_from_global-log, read_from_global-none, get_batch_ptr_from_global-log,
  get_batch_ptr_from_global-none,
}
use cyc_flow.RecBuffer.Space.{space-IsKept}
use cyc_flow.RecBuffer.Clients.{IsUnique}

-- Three records of two bytes; four have been written.
abbrev pub chunks : Chunks
chunks = record {
  total_written = 4;
  chunk_size = 2;
  buffer = record { capacity = 6; head = 2; size = 6; array = 7 ∷ 8 ∷ 3 ∷ 4 ∷ 5 ∷ 6 ∷ [] };
}

abbrev pub log : List Byte
log = 1 ∷ 2 ∷ 3 ∷ 4 ∷ 5 ∷ 6 ∷ 7 ∷ 8 ∷ []

abbrev pub source : List Byte
source = 9 ∷ 10 ∷ 11 ∷ 12 ∷ []

abbrev pub buffer : RecBuffer
buffer = record {
  rule = record RecRule.blank { rec_size = 2 };
  impl = chunks;
  clients = 70 ∷ 80 ∷ [];
  phantom_read_cursor = 0;
}

made_by_pushes :
    Chunk.push
      (some (3 ∷ 4 ∷ 5 ∷ 6 ∷ 7 ∷ 8 ∷ []))
      3
      (Chunk.push (some (1 ∷ 2 ∷ [])) 1 (Chunk.init 3 2))
    ≡ chunks
unfolding Chunk.push Chunk.init Ring.init push_many push_within copy_chunk add64 sub64 mul64
made_by_pushes = refl

chunks-IsAligned : IsAligned chunks
chunks-IsAligned = record {
  valid = record {
    positive = omega arith;
    small = omega arith;
    head_in = omega arith;
    size_in = omega arith;
    storage = refl;
  };
  chunk_positive = omega arith;
  whole_capacity = refl;
  whole_head = refl;
  whole_size = refl;
}

pub chunks-Holds : Holds chunks log
unfolding to_std_vector read_from at_unchecked add64
chunks-Holds = record {
  aligned = chunks-IsAligned;
  counted = refl;
  no_wrap = omega arith;
  kept = refl;
}

size_of_chunks : Chunk.size chunks ≡ 3
unfolding Chunk.size
size_of_chunks = refl

-- The client 70 has read two records, the client 80 three.
abbrev pub cursors : ℕ → ℕ
cursors client = if client == 70 then 2 else 3

space_left : (get_available_write_space cursors buffer).0 ≡ 1
unfolding get_available_write_space calculate_min_read_cursor min_cursor Chunk.capacity sub64
space_left = refl

push-Holds_example : Holds (Chunk.push (some source) 2 chunks) (log ++ take (2 * 2) source)
push-Holds_example = push-Holds source log 2 (omega arith) (omega arith) (omega arith) chunks-Holds

get_chunk_ptr-whole_example :
    ((get_chunk_ptr 2 chunks).1 ≡ false)
    × (slice (get_chunk_ptr 2 chunks).0 2 chunks.buffer.array ≡ held_chunks 2 1 chunks)
get_chunk_ptr-whole_example = get_chunk_ptr-whole chunks-IsAligned 2 (omega (arith, size_of_chunks))

get_batch_ptr_lem_example :
    let (ptr, n) = get_batch_ptr 1 2 chunks in
    (n ≤ 2)
    × (min 1 2 ≤ n)
    × (ptr + n * 2 ≤ 6)
    × (slice ptr (n * 2) chunks.buffer.array ≡ held_chunks 1 n chunks)
get_batch_ptr_lem_example = get_batch_ptr_lem chunks-IsAligned 1 2 (omega (arith, size_of_chunks))

pub buffer-IsKept : IsKept 2 buffer
buffer-IsKept = (omega arith, omega (arith, size_of_chunks))

read_from_global-log_example :
    read_from_global 2 (some source) 2 buffer
    ≡ (2, some (chunks_of 2 2 2 log ++ drop (2 * 2) source))
read_from_global-log_example =
    read_from_global-log buffer chunks-Holds 2 2 source buffer-IsKept (omega arith) (omega arith)
      (omega arith)

-- The first record has been overwritten.
read_from_global-none_example : read_from_global 0 (some source) 1 buffer ≡ (0, some source)
read_from_global-none_example =
    read_from_global-none buffer chunks-Holds 0 1 (some source) (omega arith)
      (inr (omega (arith, size_of_chunks)))

get_batch_ptr_from_global-log_example :
    (ptr n : ℕ) × (get_batch_ptr_from_global 2 5 buffer ≡ (some ptr, n))
    × (0 < n)
    × (n ≤ 5)
    × (2 + n ≤ 4)
    × (ptr + n * 2 ≤ 6)
    × (slice ptr (n * 2) chunks.buffer.array ≡ chunks_of 2 2 n log)
get_batch_ptr_from_global-log_example =
    get_batch_ptr_from_global-log buffer chunks-Holds 2 5 buffer-IsKept (omega arith) (omega arith)

get_batch_ptr_from_global-none_example : get_batch_ptr_from_global 4 5 buffer ≡ (none, 0)
get_batch_ptr_from_global-none_example =
    get_batch_ptr_from_global-none buffer chunks-Holds 4 5 (omega arith) (inl (omega arith))

known_client : contains 70 buffer.clients ≡ true
unfolding contains
known_client = refl

-- One record fits, and the client 70 still finds the third.
space-IsKept_example :
    let b = (push (some source) 1 buffer).0 in
    IsKept 2 b × Holds b.impl (log ++ take (1 * 2) source)
space-IsKept_example =
    space-IsKept cursors buffer log source 70 1 chunks-Holds known_client (omega arith)
      buffer-IsKept (omega (arith, space_left)) (omega arith) (omega arith) (omega arith)

pub buffer-IsUnique : IsUnique buffer.clients
unfolding contains
buffer-IsUnique = (refl, (refl, tt))
