-- ===== src/Tests/Records.antt =====
-- A named bit of a small record.
use cyc_flow.Base.{
  ◌<◌, ◌≡◌, false, ◌&&◌, ◌==◌, if◌then◌else◌, some, List, [], ◌∷◌, get_or, ◌≢◌, add64, arith,
}
use cyc_flow.Chunk.{Byte}
use cyc_flow.RecRule.{RecRule, get_bit_ref, find_bit, get_offset_by_id, no_offset}
use cyc_flow.RecRule
use cyc_flow.Record.{Record, get_bit, set_bit, byte_of, shift_of}
use cyc_flow.Record.Bits.{get_bit-set_bit}

-- Bit 4 is bit 1 of field 2, bit 5 its bit 9; the field stands at byte 1.
abbrev rule : RecRule
rule = record RecRule.blank {
  offset_cache = no_offset ∷ no_offset ∷ 1 ∷ [];
  bit_cache =
      (4, record { field_id = 2; bit_pos = 1 }) ∷ (5, record { field_id = 2; bit_pos = 9 }) ∷ [];
}

abbrev memory : List Byte
memory = 0 ∷ 7 ∷ 255 ∷ []

inside : byte_of 5 rule < 3
unfolding byte_of get_bit_ref find_bit get_offset_by_id add64
inside = omega arith

named_5 : (get_bit_ref 5 rule).field_id ≢ 0
unfolding get_bit_ref find_bit
named_5 = λ e. absurd (omega (arith, e))

named_4 : (get_bit_ref 4 rule).field_id ≢ 0
unfolding get_bit_ref find_bit
named_4 = λ e. absurd (omega (arith, e))

byte_5 : get_or memory (byte_of 5 rule) 0 < 256
unfolding byte_of get_bit_ref find_bit get_offset_by_id add64
byte_5 = omega arith

get_bit-set_bit_example :
    let rec : Record = record { rule = rule; memory = some memory } in
    get_bit 4 (set_bit 5 false rec) ≡ (
      if byte_of 4 rule == byte_of 5 rule && shift_of 4 rule == shift_of 5 rule
      then false
      else get_bit 4 rec)
get_bit-set_bit_example = get_bit-set_bit rule memory 5 4 false named_5 named_4 inside byte_5
