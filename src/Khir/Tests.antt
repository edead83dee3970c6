-- ===== src/Khir/Tests.antt =====
-- Instructions and operands.
use kushdb.Prelude.{ℕ, zero, suc, ◌+◌, ◌≡◌, refl, Bool, true, false, none, some, List, [], ◌∷◌}
use kushdb.Khir.Word.{Word, literal, narrow, shift_left}
use kushdb.Khir.Instruction.{metadata, opcode, set_metadata_impl, set_opcode_impl}
use kushdb.Khir.Layout.{last_set, run}
use kushdb.Khir.Type1
use kushdb.Khir.Type2
use kushdb.Khir.Type3
use kushdb.Khir.Type5
use kushdb.Khir.Value.{value, get_idx, is_constant_global, value-parts}

abbrev seven : Word
seven = literal 7

abbrev big : Word
big = literal 0x123456

-- The first bits of a word as a list.
abbrev bits : ℕ → Word → List Bool
bits zero x = []
bits (suc n) x = x 0 ∷ bits n (λ i. x (i + 1))

arg1_is_read : bits 24 (Type2.arg1 (Type2.built seven seven seven big seven)) ≡ bits 24 big
unfolding Type2.arg1 Type2.set_arg0 Type2.set_arg1 set_metadata_impl set_opcode_impl
arg1_is_read = refl

type1_reads_example :
    Type1.reader Type1.opcode_part (
      run Type1.format
        ((Type1.opcode_part, seven) ∷ (Type1.constant_part, big) ∷ (Type1.metadata_part, big) ∷ [])
        big)
    ≡ last_set Type1.format Type1.opcode_part
        ((Type1.opcode_part, seven) ∷ (Type1.constant_part, big) ∷ (Type1.metadata_part, big) ∷ [])
        (opcode big)
type1_reads_example =
    Type1.type1_reads Type1.opcode_part
      ((Type1.opcode_part, seven) ∷ (Type1.constant_part, big) ∷ (Type1.metadata_part, big) ∷ [])
      big

type2_reads_example :
    Type2.reader Type2.opcode_part (
      run Type2.format
        ((Type2.opcode_part, seven) ∷ (Type2.arg0_part, big) ∷ (Type2.metadata_part, big) ∷ [])
        big)
    ≡ last_set Type2.format Type2.opcode_part
        ((Type2.opcode_part, seven) ∷ (Type2.arg0_part, big) ∷ (Type2.metadata_part, big) ∷ [])
        (opcode big)
type2_reads_example =
    Type2.type2_reads Type2.opcode_part
      ((Type2.opcode_part, seven) ∷ (Type2.arg0_part, big) ∷ (Type2.metadata_part, big) ∷ []) big

type2_rebuilds_example :
    Type2.built seven (metadata big) (Type2.arg0 big) (Type2.arg1 big) (opcode big) ≡ narrow 64 big
type2_rebuilds_example = Type2.type2_rebuilds seven big

type3_reads_example :
    Type3.reader Type3.opcode_part (
      run Type3.format
        ((Type3.opcode_part, seven) ∷ (Type3.sarg_part, big) ∷ (Type3.metadata_part, big) ∷ [])
        big)
    ≡ last_set Type3.format Type3.opcode_part
        ((Type3.opcode_part, seven) ∷ (Type3.sarg_part, big) ∷ (Type3.metadata_part, big) ∷ [])
        (opcode big)
type3_reads_example =
    Type3.type3_reads Type3.opcode_part
      ((Type3.opcode_part, seven) ∷ (Type3.sarg_part, big) ∷ (Type3.metadata_part, big) ∷ []) big

type3_rebuilds_example :
    Type3.built seven
      (metadata big)
      (Type3.type_id big)
      (Type3.sarg big)
      (Type3.arg big)
      (opcode big)
    ≡ narrow 64 big
type3_rebuilds_example = Type3.type3_rebuilds seven big

type5_reads_example :
    Type5.reader Type5.opcode_part (
      run Type5.format
        ((Type5.opcode_part, seven) ∷ (Type5.marg0_part, big) ∷ (Type5.metadata_part, big) ∷ [])
        big)
    ≡ last_set Type5.format Type5.opcode_part
        ((Type5.opcode_part, seven) ∷ (Type5.marg0_part, big) ∷ (Type5.metadata_part, big) ∷ [])
        (opcode big)
type5_reads_example =
    Type5.type5_reads Type5.opcode_part
      ((Type5.opcode_part, seven) ∷ (Type5.marg0_part, big) ∷ (Type5.metadata_part, big) ∷ []) big

type5_rebuilds_example :
    Type5.built seven
      (metadata big)
      (Type5.arg big)
      (Type5.marg0 big)
      (Type5.marg1 big)
      (opcode big)
    ≡ narrow 64 big
type5_rebuilds_example = Type5.type5_rebuilds seven big

operand : (v : Word) × (value seven true ≡ some v)
unfolding value
operand = (_, refl)

value-parts_example :
    (get_idx operand.0 ≡ narrow 32 seven)
    × (is_constant_global operand.0 ≡ true)
    × (narrow 24 operand.0 ≡ operand.0)
value-parts_example = value-parts seven true operand.0 operand.1

-- An index of 24 bits is refused.
too_big : value (shift_left seven 21) false ≡ none
unfolding value
too_big = refl
