-- ===== src/RecBuffer/Space.antt =====
-- Backpressure: what `getAvailableWriteSpace` reports, against the records that subscribed clients have
-- yet to read.
use cyc_flow.Base.{
  ℕ, ◌+◌, ◌-◌, ◌*◌, ◌≤◌, ◌<◌, ◌≡◌, ◌≢◌, refl, Option, none, ap, ◌⊎◌, inl, inr, true, false, not,
  ◌&&◌, Bool-cases, some, List, [], ◌∷◌, ◌++◌, length, take, ltb, ◌==◌, ==→eq, if◌then◌else◌,
  sub64-eq, word, arith,
}
use cyc_flow.Chunk.{Byte}
use cyc_flow.Chunk
use cyc_flow.Chunk.Log.{Holds, size-Holds, push-Holds, total-push, capacity-push}
use cyc_flow.RecBuffer.{
  RecBuffer, no_cursor, push, contains, min_cursor, calculate_min_read_cursor,
  get_available_write_space,
}
use cyc_flow.RecBuffer.Read.{IsKept}

min_cursor-le_start :
    (cursors : ℕ → ℕ) (least : ℕ) (clients : List ℕ) → min_cursor cursors least clients ≤ least
unfolding min_cursor
min_cursor-le_start cursors least [] = omega arith
min_cursor-le_start cursors least (c ∷ clients) = ground (
  arith,
  min_cursor-le_start cursors
      (if not (cursors c == no_cursor) && ltb (cursors c) least then cursors c else least) clients,
)

-- The least cursor is at most that of every client that has one.
pub min_cursor-le :
    (cursors : ℕ → ℕ) (least : ℕ) (clients : List ℕ) (client : ℕ)
    → contains client clients ≡ true
    → cursors client ≢ no_cursor
    → min_cursor cursors least clients ≤ cursors client
unfolding min_cursor contains
min_cursor-le cursors least [] client h n = absurd (ground arith)
min_cursor-le cursors least (c ∷ clients) client h n = elim (Bool-cases (c == client)) [
  | inl here ↦
      let e : c ≡ client = ==→eq c client here in
      ground (
        arith,
        ap cursors e,
        min_cursor-le_start cursors
            (if not (cursors c == no_cursor) && ltb (cursors c) least then cursors c else least)
            clients,
      )
  | inr there ↦
      min_cursor-le cursors
        (if not (cursors c == no_cursor) && ltb (cursors c) least then cursors c else least) clients
        client (ground arith) n
]

length-contains :
    (client : ℕ) (clients : List ℕ) → contains client clients ≡ true → length clients == 0 ≡ false
unfolding contains
length-contains client [] h = absurd (ground arith)
length-contains client (c ∷ clients) h = ground arith

-- With a client that holds something back, the cursor reported is the least one.
pub least-is_min_cursor :
    (cursors : ℕ → ℕ) (b : RecBuffer) (client : ℕ)
    → contains client b.clients ≡ true
    → cursors client < no_cursor
    → (calculate_min_read_cursor cursors b).0 ≡ min_cursor cursors no_cursor b.clients
unfolding calculate_min_read_cursor
least-is_min_cursor cursors b client known small =
    elim (Bool-cases (min_cursor cursors no_cursor b.clients == no_cursor)) [
      | inl e ↦
          absurd (
            omega (arith, ==→eq (min_cursor cursors no_cursor b.clients) no_cursor e, bound, small))
      | inr e ↦ rw (length-contains client b.clients known, e)
    ]
  where
    bound : min_cursor cursors no_cursor b.clients ≤ cursors client
    bound = min_cursor-le cursors no_cursor b.clients client known (λ e. omega (arith, e, small))

-- The space with a client in the list: what its cursor leaves of the capacity, at most.
space-le :
    (cursors : ℕ → ℕ) (b : RecBuffer) (client : ℕ)
    → b.impl.total_written < word
    → contains client b.clients ≡ true
    → cursors client ≤ b.impl.total_written
    → cursors client < no_cursor
    → let space = (get_available_write_space cursors b).0 in
      (space ≡ 0) ⊎ (b.impl.total_written + space ≤ cursors client + Chunk.capacity b.impl)
unfolding get_available_write_space
space-le cursors b client w known behind small = ground (
  arith,
  least-is_min_cursor cursors b client known small,
  min_cursor-le cursors no_cursor b.clients client known (λ e. omega (arith, e, small)),
  sub64-eq b.impl.total_written (calculate_min_read_cursor cursors b).0,
)

-- `told` more records leave all from `cursor` on in the ring.
abbrev pub Covers : RecBuffer → ℕ → ℕ → Type 0
Covers b cursor told = (told ≡ 0) ⊎ (b.impl.total_written + told ≤ cursor + Chunk.capacity b.impl)

-- What a writer is told, where a client answers with its cursor or an older one.
pub told-Covers :
    (cursors : ℕ → ℕ) (b : RecBuffer) (client cursor : ℕ)
    → b.impl.total_written < no_cursor
    → contains client b.clients ≡ true
    → cursors client ≤ cursor
    → cursor ≤ b.impl.total_written
    → Covers b cursor (get_available_write_space cursors b).0
told-Covers cursors b client cursor small known older behind = ground (
  arith,
  space-le cursors b client (omega (arith, small)) known (omega (arith, older, behind))
      (omega (arith, older, behind, small)),
)

-- A push within what the writer was told, and what is left of that.
pub push-Covers :
    (b : RecBuffer) (log source : List Byte) (cursor told count : ℕ)
    → Holds b.impl log
    → IsKept cursor b
    → Covers b cursor told
    → count ≤ told
    → count * b.impl.chunk_size ≤ length source
    → count * b.impl.chunk_size < word
    → b.impl.total_written + count < word
    → let b' = (push (some source) count b).0 in
      IsKept cursor b'
      × Holds b'.impl (log ++ take (count * b.impl.chunk_size) source)
      × Covers b' cursor (told - count)
unfolding push
push-Covers b log source cursor told count h kept covers fits given bytes total = (
  (
    omega (arith, grown, kept),
    omega (arith, grown, size-Holds after, same_capacity, room, kept, size-Holds h),
  ),
  after,
  ground (arith, grown, same_capacity, covers, fits),
)
  where
    after :
        Holds
          (Chunk.push (some source) count b.impl)
          (log ++ take (count * b.impl.chunk_size) source)
    after = push-Holds source log count given bytes total h

    grown : (Chunk.push (some source) count b.impl).total_written ≡ b.impl.total_written + count
    grown = total-push source count b.impl bytes total

    same_capacity : Chunk.capacity (Chunk.push (some source) count b.impl) ≡ Chunk.capacity b.impl
    same_capacity = capacity-push source count b.impl bytes total

    room : (count ≡ 0) ⊎ (b.impl.total_written + count ≤ cursor + Chunk.capacity b.impl)
    room = ground (arith, covers, fits)

-- A push of at most the space that `getAvailableWriteSpace` reports keeps, for every subscribed
-- client whose next record is held, that record and all behind it; the log gains exactly the
-- records pushed. (Neither the bytes of the push nor the count of records reach 2^64.)
pub space-IsKept :
    (cursors : ℕ → ℕ) (b : RecBuffer) (log source : List Byte) (client count : ℕ)
    → Holds b.impl log
    → contains client b.clients ≡ true
    → cursors client < no_cursor
    → IsKept (cursors client) b
    → count ≤ (get_available_write_space cursors b).0
    → count * b.impl.chunk_size ≤ length source
    → count * b.impl.chunk_size < word
    → b.impl.total_written + count < word
    → let b' = (push (some source) count b).0 in
      IsKept (cursors client) b' × Holds b'.impl (log ++ take (count * b.impl.chunk_size) source)
space-IsKept cursors b log source client count h known small kept fits given bytes total =
    let room : Covers b (cursors client) count =
      ground (arith, space-le cursors b client h.no_wrap known kept.0 small) in
    let (kept', after, rest) =
      push-Covers b log source (cursors client) count count h kept room (omega arith) given bytes
        total in
    (kept', after)

-- A push leaves the size of a record alone.
pub chunk_size-push :
    (source : Option (List Byte)) (count : ℕ) (b : RecBuffer)
    → (push source count b).0.impl.chunk_size ≡ b.impl.chunk_size
unfolding push Chunk.push
chunk_size-push none count b = refl
chunk_size-push (some source) count b = elim (Bool-cases (count == 0)) [
  | inl e ↦ rw e refl
  | inr e ↦ rw e refl
]

pub impl-get_available_write_space :
    (cursors : ℕ → ℕ) (b : RecBuffer) → (get_available_write_space cursors b).1.impl ≡ b.impl
unfolding get_available_write_space
impl-get_available_write_space cursors b =
    elim (Bool-cases (ltb b.impl.total_written (calculate_min_read_cursor cursors b).0)) [
      | inl e ↦ rw e (impl-calculate cursors b)
      | inr e ↦ rw e (impl-calculate cursors b)
    ]
  where
    impl-calculate :
        (cursors : ℕ → ℕ) (b : RecBuffer) → (calculate_min_read_cursor cursors b).1.impl ≡ b.impl
    impl-calculate cursors b =
        unfold calculate_min_read_cursor in
        elim (Bool-cases (length b.clients == 0)) [
          | inl e ↦ rw e refl
          | inr e ↦ elim (Bool-cases (min_cursor cursors no_cursor b.clients == no_cursor)) [
            | inl f ↦ rw (e, f) refl
            | inr f ↦ rw (e, f) refl
          ]
        ]

pub clients-get_available_write_space :
    (cursors : ℕ → ℕ) (b : RecBuffer) → (get_available_write_space cursors b).1.clients ≡ b.clients
unfolding get_available_write_space
clients-get_available_write_space cursors b =
    elim (Bool-cases (ltb b.impl.total_written (calculate_min_read_cursor cursors b).0)) [
      | inl e ↦ rw e (clients-calculate cursors b)
      | inr e ↦ rw e (clients-calculate cursors b)
    ]
  where
    clients-calculate :
        (cursors : ℕ → ℕ) (b : RecBuffer)
        → (calculate_min_read_cursor cursors b).1.clients ≡ b.clients
    clients-calculate cursors b =
        unfold calculate_min_read_cursor in
        elim (Bool-cases (length b.clients == 0)) [
          | inl e ↦ rw e refl
          | inr e ↦ elim (Bool-cases (min_cursor cursors no_cursor b.clients == no_cursor)) [
            | inl f ↦ rw (e, f) refl
            | inr f ↦ rw (e, f) refl
          ]
        ]
