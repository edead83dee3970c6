-- ===== src/Khir/Instr.antt =====
-- khir/instruction.h and khir/value.h as khir/program_builder.cc uses them: the formats of an
-- instruction with the fields that are set, cut to their widths, and the values. Khir.Type1 to
-- Khir.Type5 and Khir.Value show that the words hold these fields.
use kushdb.Prelude.{ℕ, ◌+◌, ◌*◌, ◌/◌, ◌%◌, ◌^◌, Bool, ltb, ◌==◌, if◌then◌else◌}
use kushdb.Khir.Result.{Result, err, invalid_idx, ok}

-- type1 opcode constant, type2 opcode arg0 arg1, type3 opcode type_id sarg arg and
-- type5 opcode arg marg0 marg1.
pub data Instr (O : Type 0) : Type 0 where
  type1 : O → ℕ → Instr O
  type2 : O → ℕ → ℕ → Instr O
  type3 : O → ℕ → ℕ → ℕ → Instr O
  type5 : O → ℕ → ℕ → ℕ → Instr O

module _ {O : Type 0} where
  -- The builders cut a field to its width.
  abbrev pub build_type1 : O → ℕ → Instr O
  build_type1 o constant = type1 o (constant % 2 ^ 48)

  abbrev pub build_type2 : O → ℕ → ℕ → Instr O
  build_type2 o arg0 arg1 = type2 o (arg0 % 2 ^ 24) (arg1 % 2 ^ 24)

  abbrev pub build_type3 : O → ℕ → ℕ → ℕ → Instr O
  build_type3 o type_id sarg arg = type3 o (type_id % 2 ^ 16) (sarg % 2 ^ 8) (arg % 2 ^ 24)

  abbrev pub build_type5 : O → ℕ → ℕ → ℕ → Instr O
  build_type5 o arg marg0 marg1 = type5 o (arg % 2 ^ 24) (marg0 % 2 ^ 12) (marg1 % 2 ^ 12)

  abbrev pub opcode : Instr O → O
  opcode (type1 o c) = o
  opcode (type2 o a b) = o
  opcode (type3 o t s a) = o
  opcode (type5 o a m n) = o

  -- Type1InstructionReader::Constant, which reads bits 8 to 55 of any format.
  abbrev pub constant : Instr O → ℕ
  constant (type1 o c) = c
  constant (type2 o a b) = a * 2 ^ 24 + b
  constant (type3 o t s a) = t * 2 ^ 32 + s * 2 ^ 24 + a
  constant (type5 o a m n) = a * 2 ^ 24 + m * 2 ^ 12 + n

  -- Type3InstructionReader::TypeID, bits 40 to 55.
  abbrev pub type_id : Instr O → ℕ
  type_id i = constant i / 2 ^ 32

pub record Value : Type 0 where
  pub idx : ℕ
  pub constant_global : Bool

-- Value(idx, constant_global): a size is cut to uint32_t where it is passed.
unfoldable pub new_value : ℕ → Bool → Result Value
new_value idx constant_global =
    let idx_ = idx % 2 ^ 32 in
    if ltb 0x7FFFFF idx_
    then err invalid_idx
    else ok (record { idx = idx_; constant_global = constant_global })

abbrev pub serialize : Value → ℕ
serialize v = if v.constant_global then v.idx + 2 ^ 23 else v.idx

-- The value that an argument of an instruction names.
abbrev pub deserialize : ℕ → Value
deserialize n = record { idx = n % 2 ^ 23; constant_global = n / 2 ^ 23 % 2 == 1 }
