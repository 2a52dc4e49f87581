-- ===== src/Chunk/Log.antt =====
-- The chunk buffer against the log of all that was pushed.
use native.Mathlib.Nat.{mul-div_cancel, add-mul, mul-le-mul_right}
use cyc_flow.Base.{
  ℕ, ◌+◌, ◌-◌, ◌*◌, ◌/◌, ◌≤◌, ◌<◌, min, ◌≡◌, ap, sym, ◌∙◌, inl, inr, Bool-cases, some, List, [],
  ◌++◌, length, take, take_last, length-append, length-take, length-drop, take_last-append,
  drop-nil, ◌==◌, ==→eq, mul64, add64-eq, mul64-eq, word, arith, dec_le,
}
use cyc_flow.Ring
use cyc_flow.Ring.{Ring, push_many, to_std_vector}
use cyc_flow.Ring.Inv.{capacity-push_many}
use cyc_flow.Ring.Window.{length-to_std_vector}
use cyc_flow.Ring.PushMany.{to_std_vector-push_many}
use cyc_flow.Ring.Resize.{to_std_vector-init}
use cyc_flow.Chunk.{Chunks, Byte, raw_byte, init, push, size, capacity}
use cyc_flow.Chunk.Inv.{IsAligned, push-IsAligned, init-IsAligned}
use cyc_flow.Ring.Index.{max_capacity}

-- `log` is every byte pushed since `init`, oldest first.
pub record Holds (c : Chunks) (log : List Byte) : Type 0 where
  pub aligned : IsAligned c
  pub counted : length log ≡ c.total_written * c.chunk_size
  pub no_wrap : c.total_written < word
  pub kept : to_std_vector raw_byte c.buffer ≡ take_last c.buffer.capacity log

pub init-Holds :
    (item_capacity chunk_size : ℕ)
    → 0 < item_capacity
    → 0 < chunk_size
    → item_capacity * chunk_size ≤ max_capacity
    → Holds (init item_capacity chunk_size) []
init-Holds item_capacity chunk_size hi hc h = record {
  aligned = init-IsAligned item_capacity chunk_size hi hc h;
  counted = unfold init in omega arith;
  no_wrap = unfold init in omega arith;
  kept =
      unfold init in
      to_std_vector-init raw_byte bytes ∙ sym (drop-nil (0 - (Ring.init raw_byte bytes).capacity));
}
  where
    bytes : ℕ
    bytes = mul64 item_capacity chunk_size

-- A push is one write to the ring and one addition to the counter, the empty push included.
push-fields :
    (source : List Byte) (count : ℕ) (c : Chunks)
    → count * c.chunk_size < word
    → c.total_written + count < word
    → push (some source) count c ≡ record c {
      total_written = c.total_written + count;
      buffer = push_many (some source) (count * c.chunk_size) c.buffer;
    }
unfolding push push_many
push-fields source count c fits total = elim (Bool-cases (count == 0)) [
  | inl none_given ↦
      let e : count ≡ 0 = ==→eq count 0 none_given in
      let f : count * c.chunk_size ≡ 0 = rw e (omega arith) in
      rw (none_given, f)
        (λ i. record {
          total_written = same_total e i;
          chunk_size = c.chunk_size;
          buffer = c.buffer;
        })
  | inr more ↦ rw (more, mul64-eq count c.chunk_size fits, add64-eq c.total_written count total)
]
  where
    same_total : count ≡ 0 → c.total_written ≡ c.total_written + count
    same_total e = omega arith

pub total-push :
    (source : List Byte) (count : ℕ) (c : Chunks)
    → count * c.chunk_size < word
    → c.total_written + count < word
    → (push (some source) count c).total_written ≡ c.total_written + count
total-push source count c fits total =
    ap (λ d. d.total_written) (push-fields source count c fits total)

pub capacity-push :
    (source : List Byte) (count : ℕ) (c : Chunks)
    → count * c.chunk_size < word
    → c.total_written + count < word
    → capacity (push (some source) count c) ≡ capacity c
unfolding capacity
capacity-push source count c fits total =
    ap capacity (push-fields source count c fits total)
    ∙ ap (λ k. k / c.chunk_size) (capacity-push_many (some source) (count * c.chunk_size) c.buffer)

-- A push of chunks from a source that has them appends them to the log, and the buffer goes on
-- holding the newest of the log. (Neither the bytes of the push nor the count of chunks reach
-- 2^64.)
pub push-Holds :
    (source log : List Byte) (count : ℕ) {c : Chunks}
    → count * c.chunk_size ≤ length source
    → count * c.chunk_size < word
    → c.total_written + count < word
    → Holds c log
    → Holds (push (some source) count c) (log ++ take (count * c.chunk_size) source)
push-Holds source log count {c} given fits total h = record {
  aligned = push-IsAligned (some source) count given fits h.aligned;
  counted = rw (push-fields source count c fits total) (
      omega (
        arith,
        h.counted,
        length-append log written,
        length-take n source,
        add-mul c.total_written count c.chunk_size,
      ));
  no_wrap = rw (push-fields source count c fits total) total;
  kept =
      ap (to_std_vector raw_byte) same_buffer
      ∙ to_std_vector-push_many raw_byte source n h.aligned.valid given
      ∙ ap (λ xs. take_last c.buffer.capacity (xs ++ written)) h.kept
      ∙ take_last-append c.buffer.capacity log written
      ∙ ap (λ k. take_last k (log ++ written)) (sym same_capacity);
}
  where
    n : ℕ
    n = count * c.chunk_size

    written : List Byte
    written = take n source

    same_buffer : (push (some source) count c).buffer ≡ push_many (some source) n c.buffer
    same_buffer = ap (λ d. d.buffer) (push-fields source count c fits total)

    same_capacity : (push (some source) count c).buffer.capacity ≡ c.buffer.capacity
    same_capacity = ap (λ r. r.capacity) same_buffer ∙ capacity-push_many (some source) n c.buffer

-- In bytes: the whole log, as far as it fits.
pub bytes-Holds :
    {c : Chunks} {log : List Byte}
    → Holds c log
    → c.buffer.size ≡ min c.buffer.capacity (c.total_written * c.chunk_size)
bytes-Holds {c} {log} h = omega (
  arith,
  h.counted,
  ap length h.kept,
  length-to_std_vector raw_byte c.buffer,
  length-drop (length log - c.buffer.capacity) log,
)

-- What the buffer holds is counted in chunks.
pub size-Holds :
    {c : Chunks} {log : List Byte} → Holds c log → size c ≡ min (capacity c) c.total_written
size-Holds {c} {log} h = elim (dec_le (capacity c) c.total_written) [
  | yes p ↦
      let full : c.buffer.size ≡ capacity c * c.chunk_size =
        omega (arith, bytes-Holds h, mul-le-mul_right c.chunk_size p, whole) in
      let e : min (capacity c) c.total_written ≡ capacity c = omega arith in
      unfold size in
      ap (λ k. k / c.chunk_size) full ∙ mul-div_cancel (capacity c) h.aligned.chunk_positive ∙ sym e
  | no p ↦
      let part : c.buffer.size ≡ c.total_written * c.chunk_size = omega (
        arith,
        bytes-Holds h,
        mul-le-mul_right {m = c.total_written} {n = capacity c} c.chunk_size (omega arith),
        whole,
      ) in
      let e : min (capacity c) c.total_written ≡ c.total_written = omega arith in
      unfold size in
      ap (λ k. k / c.chunk_size) part
      ∙ mul-div_cancel c.total_written h.aligned.chunk_positive
      ∙ sym e
]
  where
    whole : capacity c * c.chunk_size ≡ c.buffer.capacity
    whole = unfold capacity in h.aligned.whole_capacity
