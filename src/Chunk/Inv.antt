-- ===== src/Chunk/Inv.antt =====
-- The chunk buffer keeps whole chunks: capacity, head and size are multiples of the chunk size.
use native.Mathlib.Nat.{mul-div_cancel, mul-pos, add-mul, mul-sub, mul_comm}
use cyc_flow.Base.{
  ℕ, ◌+◌, ◌-◌, ◌*◌, ◌/◌, ◌≤◌, ◌<◌, min, ◌≡◌, ap, inl, inr, Bool-cases, Option, none, some, List,
  length, ◌==◌, mul64, mul64-eq, word, arith, dec_le,
}
use cyc_flow.Ring
use cyc_flow.Ring.{Ring, push_many}
use cyc_flow.Ring.Index.{max_capacity, IsSlot}
use cyc_flow.Ring.Inv.{IsValid, push_many-IsValid, clear-IsValid, init-IsValid, capacity-push_many}
use cyc_flow.Ring.PushMany.{head-push_many, size-push_many}
use cyc_flow.Chunk.{Chunks, Byte, raw_byte, init, push, clear}

-- A number of bytes that is a whole number of chunks.
abbrev pub IsWhole : ℕ → ℕ → Type 0
IsWhole chunk n = (n / chunk) * chunk ≡ n

pub record IsAligned (c : Chunks) : Type 0 where
  pub valid : IsValid c.buffer
  pub chunk_positive : 0 < c.chunk_size
  pub whole_capacity : IsWhole c.chunk_size c.buffer.capacity
  pub whole_head : IsWhole c.chunk_size c.buffer.head
  pub whole_size : IsWhole c.chunk_size c.buffer.size

pub mul-IsWhole : (chunk q : ℕ) → 0 < chunk → IsWhole chunk (q * chunk)
mul-IsWhole chunk q h = ap (λ k. k * chunk) (mul-div_cancel q h)

pub IsWhole-of_eq : (chunk n q : ℕ) → 0 < chunk → n ≡ q * chunk → IsWhole chunk n
IsWhole-of_eq chunk n q h e = rw e (mul-IsWhole chunk q h)

add-IsWhole :
    (chunk a b : ℕ) → 0 < chunk → IsWhole chunk a → IsWhole chunk b → IsWhole chunk (a + b)
add-IsWhole chunk a b h ha hb =
    IsWhole-of_eq chunk (a + b) (a / chunk + b / chunk) h
      (omega (arith, add-mul (a / chunk) (b / chunk) chunk))

sub-IsWhole :
    (chunk a b : ℕ) → 0 < chunk → IsWhole chunk a → IsWhole chunk b → IsWhole chunk (a - b)
sub-IsWhole chunk a b h ha hb = IsWhole-of_eq chunk (a - b) (a / chunk - b / chunk) h (
    omega (
      arith,
      mul-sub chunk (a / chunk) (b / chunk),
      mul_comm chunk (a / chunk - b / chunk),
      mul_comm chunk (a / chunk),
      mul_comm chunk (b / chunk),
    ))

slot-IsWhole :
    (chunk cap h k j : ℕ)
    → 0 < chunk
    → IsWhole chunk cap
    → IsWhole chunk h
    → IsWhole chunk k
    → IsSlot cap h k j
    → IsWhole chunk j
slot-IsWhole chunk cap h k j p hc hh hk (inl (q, e)) = rw e (add-IsWhole chunk h k p hh hk)
slot-IsWhole chunk cap h k j p hc hh hk (inr (q, e)) =
    let e' : j ≡ h + k - cap = omega arith in
    rw e' (sub-IsWhole chunk (h + k) cap p (add-IsWhole chunk h k p hh hk) hc)

min-IsWhole : (chunk a b : ℕ) → IsWhole chunk a → IsWhole chunk b → IsWhole chunk (min a b)
min-IsWhole chunk a b ha hb = elim (dec_le a b) [
  | yes h ↦ let e : min a b ≡ a = omega arith in rw e ha
  | no h ↦ let e : min a b ≡ b = omega arith in rw e hb
]

-- A fresh buffer is aligned, if its bytes fit the address space.
pub init-IsAligned :
    (item_capacity chunk_size : ℕ)
    → 0 < item_capacity
    → 0 < chunk_size
    → item_capacity * chunk_size ≤ max_capacity
    → IsAligned (init item_capacity chunk_size)
unfolding init Ring.init
init-IsAligned item_capacity chunk_size hi hc h =
    let e : mul64 item_capacity chunk_size ≡ item_capacity * chunk_size =
      mul64-eq item_capacity chunk_size (omega arith) in
    rw e (record {
      valid = init-IsValid raw_byte (item_capacity * chunk_size) (mul-pos hi hc) h;
      chunk_positive = hc;
      whole_capacity = mul-IsWhole chunk_size item_capacity hc;
      whole_head = IsWhole-of_eq chunk_size 0 0 hc (omega arith);
      whole_size = IsWhole-of_eq chunk_size 0 0 hc (omega arith);
    })

-- The memory behind a pointer covers `n` bytes.
abbrev pub Covers : Option (List Byte) → ℕ → Type 0
Covers none n = Unit {0}
Covers (some source) n = n ≤ length source

-- A push of chunks from a null pointer or a source that has them, of fewer than 2^64 bytes, keeps
-- the ring valid and its head, size and capacity whole numbers of chunks, whatever it overwrites.
pub push-IsAligned :
    (source : Option (List Byte)) (count : ℕ) {c : Chunks}
    → Covers source (count * c.chunk_size)
    → count * c.chunk_size < word
    → IsAligned c
    → IsAligned (push source count c)
unfolding push
push-IsAligned none count given fits v = v
push-IsAligned (some source) count {c} given fits v = elim (Bool-cases (count == 0)) [
  | inl zero_count ↦ rw zero_count v
  | inr more ↦
      rw (more, mul64-eq count c.chunk_size fits)
        (record {
          valid = push_many-IsValid (some source) n v.valid;
          chunk_positive = v.chunk_positive;
          whole_capacity = rw (capacity-push_many (some source) n c.buffer) v.whole_capacity;
          whole_head =
              slot-IsWhole c.chunk_size c.buffer.capacity c.buffer.head _ _ v.chunk_positive
                v.whole_capacity v.whole_head
                (sub-IsWhole c.chunk_size (c.buffer.size + min n c.buffer.capacity)
                  c.buffer.capacity v.chunk_positive
                  (add-IsWhole c.chunk_size c.buffer.size (min n c.buffer.capacity) v.chunk_positive
                    v.whole_size
                    (min-IsWhole c.chunk_size n c.buffer.capacity
                      (mul-IsWhole c.chunk_size count v.chunk_positive) v.whole_capacity))
                  v.whole_capacity)
                (head-push_many raw_byte source n v.valid);
          whole_size = rw (size-push_many raw_byte source n v.valid given) (
              min-IsWhole c.chunk_size c.buffer.capacity (c.buffer.size + n) v.whole_capacity (
                add-IsWhole c.chunk_size c.buffer.size n v.chunk_positive v.whole_size
                  (mul-IsWhole c.chunk_size count v.chunk_positive)));
        })
]
  where
    n : ℕ
    n = count * c.chunk_size

pub clear-IsAligned : {c : Chunks} → IsAligned c → IsAligned (clear c)
unfolding clear Ring.clear
clear-IsAligned {c} v = record {
  valid = clear-IsValid raw_byte v.valid;
  chunk_positive = v.chunk_positive;
  whole_capacity = ground (arith, v.whole_capacity);
  whole_head = ground (arith, v.whole_head, IsWhole-of_eq c.chunk_size 0 0 v.chunk_positive);
  whole_size = ground (arith, v.whole_size, IsWhole-of_eq c.chunk_size 0 0 v.chunk_positive);
}
