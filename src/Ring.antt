-- ===== src/Ring.antt =====
-- CircularBuffer of CycLib/Core/CircularBuffer.h: a ring over a dynamic array.
-- The array is the list of its slots. `raw` is what a slot holds while no object lives in it: an
-- allocation is all `raw`, `construct` writes a value and `destroy` writes `raw` back (of a
-- trivially destructible type the bits stay, and nothing reads them). A pointer to memory is the
-- list of the objects from it on, and `none` is the null pointer. An iterator is its position.
pub mod Index
pub mod Inv
pub mod Window
pub mod Push
pub mod PushMany
pub mod Peek
pub mod Refine
pub mod Resize
use cyc_flow.Base.{
  ℕ, zero, suc, ◌+◌, ◌-◌, ◌%◌, min, Bool, true, false, ltb, leb, ◌==◌, if◌then◌else◌, Option, none,
  some, List, [], ◌∷◌, ◌++◌, get_or, set, drop, replicate, add64, sub64,
}

pub record Ring {ℓ} (A : Type ℓ) : Type ℓ where
  pub capacity : ℕ
  pub head : ℕ
  pub size : ℕ
  pub array : List A

module _ {ℓ} {A : Type ℓ} where
  -- `n` objects of `source` go to the slots from `dst` on, one after the other.
  unfoldable pub copy_chunk : List A → ℕ → ℕ → List A → List A
  copy_chunk source dst zero array = array
  copy_chunk [] dst (suc n) array = array
  copy_chunk (x ∷ source) dst (suc n) array = copy_chunk source (dst + 1) n (set array dst x)

  -- `push_many` once `count` is at most the capacity.
  unfoldable pub push_within : List A → ℕ → Ring A → Ring A
  push_within source count r =
      let tail = add64 r.head r.size % r.capacity in
      let chunk1 = min count (sub64 r.capacity tail) in
      let chunk2 = sub64 count chunk1 in
      let array1 = copy_chunk source tail chunk1 r.array in
      let array2 = copy_chunk (drop chunk1 source) 0 chunk2 array1 in
      let new_size = add64 r.size count in
      if ltb r.capacity new_size
      then record r {
        head = sub64 (add64 r.head new_size) r.capacity % r.capacity;
        size = r.capacity;
        array = array2;
      }
      else record r { size = new_size; array = array2 }

  unfoldable pub push_many : Option (List A) → ℕ → Ring A → Ring A
  push_many none count r = r
  push_many (some source) count r =
      if count == 0
      then r
      else if ltb r.capacity count
      then push_within (drop (count - r.capacity) source) r.capacity r
      else push_within source count r

  unfoldable pub empty : Ring A → Bool
  empty r = r.size == 0

  unfoldable pub full : Ring A → Bool
  full r = r.size == r.capacity

  -- The slot of the object at a relative index.
  unfoldable pub get_ptr_unsafe : ℕ → Ring A → ℕ
  get_ptr_unsafe index r = add64 r.head index % r.capacity

  -- `dest` is the memory that is written; what it holds afterwards is the result.
  unfoldable pub peek_many_at : ℕ → Option (List A) → ℕ → Ring A → Option (List A)
  peek_many_at index none count r = none
  peek_many_at index (some dest) count r =
      let start_pos = add64 r.head index % r.capacity in
      let chunk1 = min count (sub64 r.capacity start_pos) in
      let dest1 = copy_chunk (drop start_pos r.array) 0 chunk1 dest in
      if count == 0
      then some dest
      else if ltb chunk1 count
      then some (copy_chunk r.array chunk1 (sub64 count chunk1) dest1)
      else some dest1

  unfoldable pub peek_many : Option (List A) → ℕ → Ring A → Option (List A)
  peek_many dest count r = peek_many_at 0 dest count r

module _ {ℓ} {A : Type ℓ} (raw : A) where
  unfoldable pub init : ℕ → Ring A
  init capacity = record { capacity = capacity; head = 0; size = 0; array = replicate capacity raw }

  unfoldable pub at_unchecked : Ring A → ℕ → A
  at_unchecked r index = get_or r.array (add64 r.head index % r.capacity) raw

  unfoldable pub front : Ring A → A
  front r = get_or r.array r.head raw

  unfoldable pub back : Ring A → A
  back r = get_or r.array (sub64 (add64 r.head r.size) 1 % r.capacity) raw

  -- The loop of `toStdVector` from index `i` on, `n` rounds.
  unfoldable pub read_from : Ring A → ℕ → ℕ → List A
  read_from r i zero = []
  read_from r i (suc n) = at_unchecked r i ∷ read_from r (i + 1) n

  unfoldable pub to_std_vector : Ring A → List A
  to_std_vector r = read_from r 0 r.size

  unfoldable pub emplace_back : A → Ring A → Ring A
  emplace_back x r =
      let write_idx = add64 r.head r.size % r.capacity in
      if r.size == r.capacity
      then record r {
        head = add64 r.head 1 % r.capacity;
        array = set (set r.array write_idx raw) write_idx x;
      }
      else record r { size = add64 r.size 1; array = set r.array write_idx x }

  unfoldable pub pop_front : Ring A → Ring A
  pop_front r = record r {
    head = add64 r.head 1 % r.capacity;
    size = sub64 r.size 1;
    array = set r.array r.head raw;
  }

  unfoldable pub pop_back : Ring A → Ring A
  pop_back r = record r {
    size = sub64 r.size 1;
    array = set r.array (sub64 (add64 r.head r.size) 1 % r.capacity) raw;
  }

  -- The loop of `pop_many_impl`: `n` objects are destroyed from slot `current` on.
  unfoldable pub destroy_run : ℕ → ℕ → ℕ → List A → List A
  destroy_run capacity current zero array = array
  destroy_run capacity current (suc n) array =
      destroy_run capacity (add64 current 1 % capacity) n (set array current raw)

  unfoldable pub pop_many : ℕ → Ring A → Ring A
  pop_many count r = record r {
    head = add64 r.head count % r.capacity;
    size = sub64 r.size count;
    array = destroy_run r.capacity r.head count r.array;
  }

  -- The loop of `clear_impl`, `rounds` rounds from `n` on.
  unfoldable pub destroy_all : ℕ → ℕ → ℕ → ℕ → List A → List A
  destroy_all capacity head n zero array = array
  destroy_all capacity head n (suc rounds) array =
      destroy_all capacity head (n + 1) rounds (set array (add64 head n % capacity) raw)

  unfoldable pub clear : Ring A → Ring A
  clear r =
      if r.size == 0
      then r
      else record r { head = 0; size = 0; array = destroy_all r.capacity r.head 0 r.size r.array }

  unfoldable pub reserve : ℕ → Ring A → Ring A
  reserve new_capacity r =
      let chunk1 = min r.size (sub64 r.capacity r.head) in
      let chunk2 = sub64 r.size chunk1 in
      let tmp = push_many (some (drop r.head r.array)) chunk1 (init new_capacity) in
      if leb new_capacity r.capacity
      then r
      else if ltb 0 chunk2
      then push_many (some r.array) chunk2 tmp
      else tmp

  -- The loop of `assign_into` over the iterators of `other`, from position `from` to position `to`.
  unfoldable pub assign_into : ℕ → Ring A → ℕ → ℕ → Ring A → Ring A
  assign_into zero other from to r = r
  assign_into (suc fuel) other from to r =
      let rest =
        assign_into fuel other (add64 from 1) to (emplace_back (at_unchecked other from) r) in
      if from == to then r else rest

  -- The copy constructor.
  unfoldable pub copy : Ring A → Ring A
  copy other = assign_into (other.size + 1) other 0 other.size (init other.capacity)

-- The move constructor: the new buffer, and what is left of the other.
unfoldable pub move {ℓ} : {A : Type ℓ} → Ring A → Ring A × Ring A
move other = (other, record { capacity = 0; head = 0; size = 0; array = [] })
