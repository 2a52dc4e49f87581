-- ===== src/Record/Bits.antt =====
-- What setting a named bit changes.
use cyc_flow.Base.{
  ℕ, zero, suc, ◌<◌, ◌≡◌, refl, ap, sym, ◌∙◌, ◌≢◌, inl, inr, Bool, true, false, not, ◌&&◌, ◌==◌,
  ==→eq, if◌then◌else◌, Bool-cases, some, List, length, get_or, set, get_or-set_self, get_or-set_ne,
  arith,
}
use cyc_flow.Chunk.{Byte}
use cyc_flow.RecRule.{RecRule, get_bit_ref}
use cyc_flow.Record.{Record, byte_of, shift_of, test_bit, with_bit, get_bit, set_bit}

-- Every number below a bound, checked by evaluation.
all_below : ℕ → (ℕ → Bool) → Bool
all_below zero p = true
all_below (suc n) p = let rest = all_below n p in p n && rest

all_below_lem : (n : ℕ) (p : ℕ → Bool) (x : ℕ) → all_below n p ≡ true → x < n → p x ≡ true
unfolding all_below
all_below_lem zero p x h lt = absurd (omega arith)
all_below_lem (suc n) p x h lt = ground (arith, all_below_lem n p x)

abbrev same : Bool → Bool → Bool
same true b = b
same false b = not b

same→eq : (a b : Bool) → same a b ≡ true → a ≡ b
same→eq true true h = refl
same→eq true false h = cc
same→eq false true h = cc
same→eq false false h = refl

-- Bit `j` of a byte whose bit `k` is set or cleared.
bit_agrees : Bool → ℕ → ℕ → ℕ → Bool
bit_agrees val j k byte =
    same (test_bit j (with_bit val k byte)) (if j == k then val else test_bit j byte)

set_table : all_below 8 (λ j. all_below 8 (λ k. all_below 256 (bit_agrees true j k))) ≡ true
unfolding all_below bit_agrees test_bit with_bit
set_table = refl

clear_table : all_below 8 (λ j. all_below 8 (λ k. all_below 256 (bit_agrees false j k))) ≡ true
unfolding all_below bit_agrees test_bit with_bit
clear_table = refl

test_bit-with_bit :
    (val : Bool) (j k byte : ℕ)
    → j < 8
    → k < 8
    → byte < 256
    → test_bit j (with_bit val k byte) ≡ (if j == k then val else test_bit j byte)
unfolding bit_agrees
test_bit-with_bit val j k byte hj hk hb =
    same→eq (test_bit j (with_bit val k byte)) (if j == k then val else test_bit j byte) (table val)
  where
    table : (val : Bool) → bit_agrees val j k byte ≡ true
    table true =
        all_below_lem 256 (bit_agrees true j k) byte
          (all_below_lem 8 (λ k. all_below 256 (bit_agrees true j k)) k
            (all_below_lem 8 (λ j. all_below 8 (λ k. all_below 256 (bit_agrees true j k))) j
              set_table hj)
            hk)
          hb
    table false =
        all_below_lem 256 (bit_agrees false j k) byte
          (all_below_lem 8 (λ k. all_below 256 (bit_agrees false j k)) k
            (all_below_lem 8 (λ j. all_below 8 (λ k. all_below 256 (bit_agrees false j k))) j
              clear_table hj)
            hk)
          hb

shift_of-lt : (id : ℕ) (rule : RecRule) → shift_of id rule < 8
unfolding shift_of
shift_of-lt id rule = omega arith

get_bit-some :
    (rule : RecRule) (bytes : List Byte) (id : ℕ)
    → (get_bit_ref id rule).field_id ≢ 0
    → get_bit id (record { rule = rule; memory = some bytes })
      ≡ test_bit (shift_of id rule) (get_or bytes (byte_of id rule) 0)
unfolding get_bit
get_bit-some rule bytes id n = simp (named) refl
  where
    named : ((get_bit_ref id rule).field_id == 0) ≡ false
    named = ground (arith, n)

set_bit-some :
    (rule : RecRule) (bytes : List Byte) (id : ℕ) (val : Bool)
    → (get_bit_ref id rule).field_id ≢ 0
    → set_bit id val (record { rule = rule; memory = some bytes }) ≡ record {
      rule = rule;
      memory = some (
          set bytes
            (byte_of id rule)
            (with_bit val (shift_of id rule) (get_or bytes (byte_of id rule) 0)));
    }
unfolding set_bit
set_bit-some rule bytes id val n = simp (named) refl
  where
    named : ((get_bit_ref id rule).field_id == 0) ≡ false
    named = ground (arith, n)

-- The bit of a named place after another is set.
bit_after :
    (val : Bool) (bytes : List Byte) (place other k j : ℕ)
    → place < length bytes
    → get_or bytes place 0 < 256
    → k < 8
    → j < 8
    → test_bit j (get_or (set bytes place (with_bit val k (get_or bytes place 0))) other 0)
      ≡ (if other == place && j == k then val else test_bit j (get_or bytes other 0))
bit_after val bytes place other k j inside small hk hj = elim (Bool-cases (other == place)) [
  | inl e ↦
      let q : other ≡ place = ==→eq other place e in
      rw e (
        ap (λ p. test_bit j (get_or (set bytes place byte) p 0)) q
        ∙ ap (test_bit j) (get_or-set_self bytes place byte 0 inside)
        ∙ test_bit-with_bit val j k (get_or bytes place 0) hj hk small
        ∙ ap (λ p. if j == k then val else test_bit j (get_or bytes p 0)) (sym q))
  | inr e ↦ rw e (ap (test_bit j) (get_or-set_ne bytes place other byte 0 (ground (arith, e))))
]
  where
    byte : ℕ
    byte = with_bit val k (get_or bytes place 0)

-- After `setBit` of a named bit, `getBit` gives the value that was set for every name of that very
-- bit, and what it gave before for all others. (The record has memory that holds the byte, and both
-- names are known.)
pub get_bit-set_bit :
    (rule : RecRule) (bytes : List Byte) (id other : ℕ) (val : Bool)
    → (get_bit_ref id rule).field_id ≢ 0
    → (get_bit_ref other rule).field_id ≢ 0
    → byte_of id rule < length bytes
    → get_or bytes (byte_of id rule) 0 < 256
    → let rec : Record = record { rule = rule; memory = some bytes } in
      get_bit other (set_bit id val rec) ≡ (
        if byte_of other rule == byte_of id rule && shift_of other rule == shift_of id rule
        then val
        else get_bit other rec)
get_bit-set_bit rule bytes id other val n m inside small =
    ap (get_bit other) (set_bit-some rule bytes id val n)
    ∙ get_bit-some rule
        (set bytes (byte_of id rule)
          (with_bit val (shift_of id rule) (get_or bytes (byte_of id rule) 0)))
        other m
    ∙ bit_after val bytes (byte_of id rule) (byte_of other rule) (shift_of id rule)
        (shift_of other rule) inside small (shift_of-lt id rule) (shift_of-lt other rule)
    ∙ ap
        (λ b.
          if byte_of other rule == byte_of id rule && shift_of other rule == shift_of id rule
          then val
          else b)
        (sym (get_bit-some rule bytes other m))
