-- ===== src/Writer/Bytes.antt =====
-- What the byte operations of the buffered writer leave alone.
use native.Mathlib.Nat.{mul-le-mul_right}
use cyc_flow.Base.{
  ℕ, zero, suc, ◌+◌, ◌-◌, ◌*◌, ◌≤◌, ◌<◌, ◌≡◌, refl, ap, sym, ◌∙◌, inl, inr, Bool-cases, List, [],
  ◌∷◌, length, take, drop, set, slice, drop-take, take-add, drop-drop, add64, mul64, add64-eq,
  mul64-eq, word, arith, ◌++◌,
}
use cyc_flow.Chunk.{Byte}
use cyc_flow.Ring.{copy_chunk}
use cyc_flow.WriterZc.{stamp, is_zero_double}
use cyc_flow.WriterZc.Commit.{length-stamp}
use cyc_flow.Writer.{stamp_slot, stamp_slots}

module _ {ℓ} {A : Type ℓ} where
  take-set : (xs : List A) (i n : ℕ) (v : A) → n ≤ i → take n (set xs i v) ≡ take n xs
  take-set xs i zero v h = refl
  take-set [] i (suc n) v h = refl
  take-set (x ∷ xs) zero (suc n) v h = absurd (omega arith)
  take-set (x ∷ xs) (suc i) (suc n) v h = ap (λ zs. x ∷ zs) (take-set xs i n v (omega arith))

  pub take-copy_chunk :
      (source : List A) (dst count n : ℕ) (array : List A)
      → n ≤ dst
      → take n (copy_chunk source dst count array) ≡ take n array
  unfolding copy_chunk
  take-copy_chunk source dst zero n array h = refl
  take-copy_chunk [] dst (suc count) n array h = refl
  take-copy_chunk (x ∷ source) dst (suc count) n array h =
      take-copy_chunk source (dst + 1) count n (set array dst x) (omega arith)
      ∙ take-set array dst n x h

  -- A prefix that is cut in two.
  pub cut :
      (k c n : ℕ) (xs : List A)
      → k + c ≤ n
      → take c (drop k xs) ++ drop (k + c) (take n xs) ≡ drop k (take n xs)
  cut k c n xs h =
      ap (λ ys. take c (drop k xs) ++ ys)
        (drop-take (k + c) n xs ∙ ap (take (n - (k + c))) (sym (drop-drop c k xs)))
      ∙ take-add c (n - (k + c)) (drop k xs)
      ∙ ap (λ m. take m (drop k xs)) rest
      ∙ sym (drop-take k n xs)
    where
      rest : c + (n - (k + c)) ≡ n - k
      rest = omega arith

take-stamp :
    (now : List Byte) (place n : ℕ) (bytes : List Byte)
    → n ≤ place
    → take n (stamp now place bytes) ≡ take n bytes
unfolding stamp
take-stamp now place n bytes h = elim (Bool-cases (is_zero_double (slice place 8 bytes))) [
  | inl e ↦ rw e (take-copy_chunk now place 8 n bytes h)
  | inr e ↦ rw e refl
]

pub length-stamp_slots :
    (clock : ℕ → List Byte) (rec_size offset i n : ℕ) (bytes : List Byte)
    → length (stamp_slots clock rec_size offset i n bytes) ≡ length bytes
unfolding stamp_slots stamp_slot
length-stamp_slots clock rec_size offset i zero bytes = refl
length-stamp_slots clock rec_size offset i (suc n) bytes =
    length-stamp_slots clock rec_size offset (add64 i 1) n
      (stamp_slot (clock i) rec_size offset i bytes)
    ∙ length-stamp (clock i) (add64 (mul64 i rec_size) offset) bytes

-- Stamps lie behind the start of the first slot that is stamped.
pub take-stamp_slots :
    (clock : ℕ → List Byte) (rec_size offset i n cap k : ℕ) (bytes : List Byte)
    → i + n ≤ cap
    → cap < word
    → cap * rec_size + offset < word
    → k ≤ i * rec_size
    → take k (stamp_slots clock rec_size offset i n bytes) ≡ take k bytes
unfolding stamp_slots stamp_slot
take-stamp_slots clock rec_size offset i zero cap k bytes fits small room h = refl
take-stamp_slots clock rec_size offset i (suc n) cap k bytes fits small room h =
    take-stamp_slots clock rec_size offset (add64 i 1) n cap k
      (stamp_slot (clock i) rec_size offset i bytes) (omega (arith, next)) small room
      (omega (
        arith,
        h,
        ap (λ m. m * rec_size) next,
        mul-le-mul_right {m = i} {n = i + 1} rec_size (omega arith),
      ))
    ∙ take-stamp (clock i) (add64 (mul64 i rec_size) offset) k bytes
        (omega (arith, place, start, h))
  where
    next : add64 i 1 ≡ i + 1
    next = add64-eq i 1 (omega arith)

    below : i * rec_size ≤ cap * rec_size
    below = mul-le-mul_right rec_size (omega (arith, fits))

    start : mul64 i rec_size ≡ i * rec_size
    start = mul64-eq i rec_size (omega (arith, below))

    place : add64 (mul64 i rec_size) offset ≡ mul64 i rec_size + offset
    place = add64-eq (mul64 i rec_size) offset (omega (arith, below, start))
