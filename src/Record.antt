-- ===== src/Record.antt =====
-- Record of CycLib/Core/Record.h and Record.cpp: a record's memory under its rule, with its named bits.
-- The memory is `none` for the null pointer. The accessors by double and the typed ones are left out.
pub mod Bits
use Prim.Native.Nat.{bit_and, bit_or}
use cyc_flow.Base.{
  ℕ, ◌+◌, ◌-◌, ◌/◌, ◌%◌, ◌^◌, Bool, true, false, ◌==◌, if◌then◌else◌, Option, none, some, List,
  get_or, set, add64,
}
use cyc_flow.Chunk.{Byte}
use cyc_flow.RecRule.{RecRule, BitRef, get_bit_ref, get_offset_by_id, get_rec_size}
use cyc_flow.WriterZc.{clear_bytes}

pub record Record : Type 0 where
  pub rule : RecRule
  pub memory : Option (List Byte)

unfoldable pub is_valid : Record → Bool
is_valid rec = elim rec.memory [ none ↦ false | some bytes ↦ true ]

unfoldable pub clear : Record → Record
clear rec = elim rec.memory [
  | none ↦ rec
  | some bytes ↦ record rec { memory = some (clear_bytes (get_rec_size rec.rule) bytes) }
]

-- The byte of a named bit, and the bit in it.
unfoldable pub byte_of : ℕ → RecRule → ℕ
byte_of id rule =
    let ref = get_bit_ref id rule in add64 (get_offset_by_id ref.field_id rule) (ref.bit_pos / 8)

unfoldable pub shift_of : ℕ → RecRule → ℕ
shift_of id rule = (get_bit_ref id rule).bit_pos % 8

-- `(byte >> k) & 1`.
unfoldable pub test_bit : ℕ → ℕ → Bool
test_bit k byte = byte / 2 ^ k % 2 == 1

-- `byte |= mask` and `byte &= ~mask`.
unfoldable pub with_bit : Bool → ℕ → ℕ → ℕ
with_bit val k byte = if val then bit_or byte (2 ^ k) else bit_and byte (255 - 2 ^ k)

unfoldable pub get_bit : ℕ → Record → Bool
get_bit id rec = elim rec.memory [
  | none ↦ false
  | some bytes ↦
      if (get_bit_ref id rec.rule).field_id == 0
      then false
      else test_bit (shift_of id rec.rule) (get_or bytes (byte_of id rec.rule) 0)
]

unfoldable pub set_bit : ℕ → Bool → Record → Record
set_bit id val rec = elim rec.memory [
  | none ↦ rec
  | some bytes ↦
      let place = byte_of id rec.rule in
      if (get_bit_ref id rec.rule).field_id == 0 then rec else record rec {
        memory =
            some (set bytes place (with_bit val (shift_of id rec.rule) (get_or bytes place 0)));
      }
]
