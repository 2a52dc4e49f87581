-- ===== src/Ring/Index.antt =====
-- The index arithmetic of a ring: one addition and one modulus, which never wraps at 2^64.
use native.Mathlib.Nat.{mod-eq_of_lt, mod-eq-sub-mod}
use cyc_flow.Base.{
  ℕ, ◌+◌, ◌-◌, ◌%◌, ◌^◌, ◌≤◌, ◌<◌, ◌≡◌, ◌⊎◌, inl, inr, add64, sub64, add64-eq, sub64-eq, arith,
  dec_lt,
}

-- A capacity is less than half of 2^64 (an allocation is at most PTRDIFF_MAX), so that a sum of two
-- sizes does not wrap.
abbrev pub max_capacity : ℕ
max_capacity = 2 ^ 63 - 1

-- `i` is the slot at `k` behind the slot `h`, going round at `cap`.
abbrev pub IsSlot : ℕ → ℕ → ℕ → ℕ → Type 0
IsSlot cap h k i = ((h + k < cap) × (i ≡ h + k)) ⊎ ((cap ≤ h + k) × (i + cap ≡ h + k))

pub mod_once : (cap n : ℕ) → n < cap + cap → IsSlot cap n 0 (n % cap)
mod_once cap n h = elim (dec_lt n cap) [
  | yes p ↦ inl (omega arith, omega (arith, mod-eq_of_lt p))
  | no p ↦ inr (
    omega arith,
    omega (
      arith,
      mod-eq-sub-mod {n = n} {m = cap} (omega arith),
      mod-eq_of_lt {n = n - cap} {m = cap} (omega arith),
    ),
  )
]

pub mod_lt : (n m : ℕ) → 0 < m → n % m < m
mod_lt n m h = omega arith

pub IsSlot-cases :
    (cap h k : ℕ) → cap ≤ max_capacity → h < cap → k ≤ cap → IsSlot cap h k (add64 h k % cap)
IsSlot-cases cap h k small hh hk = ground (arith, add64-eq h k, mod_once cap (add64 h k))

-- The last slot before the end, and the head after an overwrite.
pub back_cases :
    (cap h k : ℕ)
    → cap ≤ max_capacity
    → h < cap
    → k ≤ cap
    → 0 < k
    → IsSlot cap h (k - 1) (sub64 (add64 h k) 1 % cap)
back_cases cap h k small hh hk hp =
    ground (arith, add64-eq h k, sub64-eq (add64 h k) 1, mod_once cap (h + k - 1))
