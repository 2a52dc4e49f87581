-- ===== src/Tests/Rings.antt =====
-- Runs of CircularBuffer, and its theorems on a ring that goes round the end of its array.
use cyc_flow.Base.{
  ℕ, ◌≡◌, max, refl, some, List, [], ◌∷◌, ◌++◌, take, take_last, add64, sub64, arith,
}
use cyc_flow.Ring.{
  Ring, copy_chunk, push_within, push_many, read_from, to_std_vector, at_unchecked, reserve,
}
use cyc_flow.Ring.Inv.{IsValid, push_many-IsValid}
use cyc_flow.Ring.PushMany.{to_std_vector-push_many}
use cyc_flow.Ring.Resize.{reserve_lem}

abbrev ring : Ring ℕ
ring = record { capacity = 4; head = 3; size = 3; array = 20 ∷ 30 ∷ 0 ∷ 10 ∷ [] }

ring-IsValid : IsValid ring
ring-IsValid = record {
  positive = omega arith;
  small = omega arith;
  head_in = omega arith;
  size_in = omega arith;
  storage = refl;
}

abbrev source : List ℕ
source = 1 ∷ 2 ∷ 3 ∷ 4 ∷ 5 ∷ []

ring_contents : to_std_vector 0 ring ≡ 10 ∷ 20 ∷ 30 ∷ []
unfolding to_std_vector read_from at_unchecked add64
ring_contents = refl

pushed_two :
    push_many (some source) 2 ring
    ≡ record { capacity = 4; head = 0; size = 4; array = 20 ∷ 30 ∷ 1 ∷ 2 ∷ [] }
unfolding push_many push_within copy_chunk add64 sub64
pushed_two = refl

pushed_five : to_std_vector 0 (push_many (some source) 5 ring) ≡ 2 ∷ 3 ∷ 4 ∷ 5 ∷ []
unfolding push_many push_within copy_chunk add64 sub64 to_std_vector read_from at_unchecked
pushed_five = refl

to_std_vector-push_many_example :
    to_std_vector 0 (push_many (some source) 5 ring)
    ≡ take_last 4 (to_std_vector 0 ring ++ take 5 source)
to_std_vector-push_many_example = to_std_vector-push_many 0 source 5 ring-IsValid (omega arith)

push_many-IsValid_example : IsValid (push_many (some source) 2 ring)
push_many-IsValid_example = push_many-IsValid (some source) 2 ring-IsValid

reserve_lem_example :
    (to_std_vector 0 (reserve 0 7 ring) ≡ to_std_vector 0 ring)
    × ((reserve 0 7 ring).capacity ≡ max 7 ring.capacity)
reserve_lem_example = reserve_lem 0 7 ring-IsValid (omega arith)
