-- ===== src/PReg.antt =====
-- PReg of CycLib/Core/PReg.h and PReg.cpp: names and their ids, in one registry.
-- An `int` id is its 32-bit pattern. `getID` is two critical sections: the first looks a name up
-- under the shared lock, the second looks again and registers it under the exclusive lock; other
-- threads may run between the two.
pub mod Inv
pub mod Threads
use cyc_flow.Base.{
  ℕ, zero, suc, ◌+◌, ◌-◌, ◌%◌, ◌^◌, Bool, ◌&&◌, ltb, leb, if◌then◌else◌, Option, none, some, List,
  [], ◌∷◌, ◌++◌, length, get_or,
}
use cyc_flow.Text.{Text, text_eq}

pub record PReg : Type 0 where
  pub name_to_id : List (Text × ℕ)
  pub id_to_name : List Text

unfoldable pub empty : PReg
empty = record { name_to_id = []; id_to_name = [] }

-- `m_nameToId.find`.
unfoldable pub find : Text → List (Text × ℕ) → Option ℕ
unfolding text_eq
find name [] = none
find name ((key, id) ∷ rest) = if text_eq key name then some id else find name rest

-- The section under the exclusive lock: the second look, then the insertion.
unfoldable pub register : Text → PReg → ℕ × PReg
register name r = elim (find name r.name_to_id) [
  | some id ↦ (id, r)
  | none ↦
      let names = r.id_to_name ++ name ∷ [] in
      let new_id = length names % 2 ^ 32 in
      (new_id, record { name_to_id = (name, new_id) ∷ r.name_to_id; id_to_name = names })
]

-- `getID` with no other thread in between.
unfoldable pub get_id : Text → PReg → ℕ × PReg
get_id name r = elim (find name r.name_to_id) [ some id ↦ (id, r) | none ↦ register name r ]

-- A positive `int` is below 2^31.
unfoldable pub get_name : ℕ → PReg → Text
get_name id r =
    if ltb 0 id && ltb id (2 ^ 31) && leb id (length r.id_to_name)
    then get_or r.id_to_name (id - 1) []
    else []
