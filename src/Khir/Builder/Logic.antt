-- ===== src/Khir/Builder/Logic.antt =====
-- khir/program_builder.cc: truth values and comparisons, and their constant folding.
use kushdb.Prelude.{◌||◌, ℕ, Bool, true, false, not, ◌&&◌, ◌==◌, if◌then◌else◌}
use kushdb.Prelude.Int.{ltb_ℤ, ℤ}
use kushdb.Khir.Opcode.{
  Opcode, i16_cmp_eq, i16_cmp_ge, i16_cmp_gt, i16_cmp_le, i16_cmp_lt, i16_cmp_ne, i1_and, i1_cmp_eq,
  i1_cmp_ne, i1_lnot, i1_or, i32_cmp_eq, i32_cmp_ge, i32_cmp_gt, i32_cmp_le, i32_cmp_lt, i32_cmp_ne,
  i64_cmp_eq, i64_cmp_ge, i64_cmp_gt, i64_cmp_le, i64_cmp_lt, i64_cmp_ne, i8_cmp_eq, i8_cmp_ge,
  i8_cmp_gt, i8_cmp_le, i8_cmp_lt, i8_cmp_ne,
}
use kushdb.Khir.Result.{M, invalid_comp_type, ok, throw}
use kushdb.Khir.Instr.{Value, opcode}
use kushdb.Khir.Builder.{
  Kind, ProgramBuilder, const_i1, emit1, emit2, i16, i32, i64, i8, raw_constant, read_constant,
}
use kushdb.Khir.Builder.Arith.{signed}

pub data CompType : Type 0 where
  eq ne lt le gt ge : CompType

unfoldable pub l_not_i1 : Value → M ProgramBuilder Value
l_not_i1 v s = if v.constant_global then const_i1 (raw_constant v s == 0) s else emit1 i1_lnot v s

unfoldable pub and_i1 : Value → Value → M ProgramBuilder Value
and_i1 v1 v2 s =
    if v1.constant_global
    then (if raw_constant v1 s == 0 then const_i1 false s else (ok v2, s))
    else if v2.constant_global
    then (if raw_constant v2 s == 0 then const_i1 false s else (ok v1, s))
    else emit2 i1_and v1 v2 s

unfoldable pub or_i1 : Value → Value → M ProgramBuilder Value
or_i1 v1 v2 s =
    if v1.constant_global
    then (if raw_constant v1 s == 1 then const_i1 true s else (ok v2, s))
    else if v2.constant_global
    then (if raw_constant v2 s == 1 then const_i1 true s else (ok v1, s))
    else emit2 i1_or v1 v2 s

abbrev pub cmp_i1_folded : CompType → ℕ → ℕ → M ProgramBuilder Value
cmp_i1_folded eq value1 value2 = const_i1 (value1 == value2)
cmp_i1_folded ne value1 value2 = const_i1 (not (value1 == value2))
cmp_i1_folded cmp value1 value2 = throw invalid_comp_type

abbrev pub cmp_i1_emitted : CompType → Value → Value → M ProgramBuilder Value
cmp_i1_emitted eq v1 v2 = emit2 i1_cmp_eq v1 v2
cmp_i1_emitted ne v1 v2 = emit2 i1_cmp_ne v1 v2
cmp_i1_emitted cmp v1 v2 = throw invalid_comp_type

unfoldable pub cmp_i1 : CompType → Value → Value → M ProgramBuilder Value
cmp_i1 cmp v1 v2 s =
    if v1.constant_global && v2.constant_global
    then cmp_i1_folded cmp (raw_constant v1 s) (raw_constant v2 s) s
    else if v1.constant_global && not v2.constant_global
    then cmp_i1_emitted cmp v2 v1 s
    else cmp_i1_emitted cmp v1 v2 s

-- The C++ comparison of two signed variables.
abbrev pub holds_for : CompType → ℤ → ℤ → Bool
holds_for eq a b = not (ltb_ℤ a b) && not (ltb_ℤ b a)
holds_for ne a b = ltb_ℤ a b || ltb_ℤ b a
holds_for lt a b = ltb_ℤ a b
holds_for le a b = not (ltb_ℤ b a)
holds_for gt a b = ltb_ℤ b a
holds_for ge a b = not (ltb_ℤ a b)

-- The comparison of the operands when they are swapped.
unfoldable pub flipped : CompType → CompType
flipped eq = eq
flipped ne = ne
flipped lt = gt
flipped le = ge
flipped gt = lt
flipped ge = le

unfoldable pub compare :
    Kind → (CompType → Opcode) → CompType → Value → Value → M ProgramBuilder Value
compare k opcode cmp v1 v2 s =
    if v1.constant_global && v2.constant_global
    then const_i1
        (holds_for cmp (signed k (read_constant k v1 s)) (signed k (read_constant k v2 s))) s
    else if v1.constant_global && not v2.constant_global
    then emit2 (opcode (flipped cmp)) v2 v1 s
    else emit2 (opcode cmp) v1 v2 s

unfoldable pub i8_cmp : CompType → Opcode
i8_cmp eq = i8_cmp_eq
i8_cmp ne = i8_cmp_ne
i8_cmp lt = i8_cmp_lt
i8_cmp le = i8_cmp_le
i8_cmp gt = i8_cmp_gt
i8_cmp ge = i8_cmp_ge

unfoldable pub i16_cmp : CompType → Opcode
i16_cmp eq = i16_cmp_eq
i16_cmp ne = i16_cmp_ne
i16_cmp lt = i16_cmp_lt
i16_cmp le = i16_cmp_le
i16_cmp gt = i16_cmp_gt
i16_cmp ge = i16_cmp_ge

unfoldable pub i32_cmp : CompType → Opcode
i32_cmp eq = i32_cmp_eq
i32_cmp ne = i32_cmp_ne
i32_cmp lt = i32_cmp_lt
i32_cmp le = i32_cmp_le
i32_cmp gt = i32_cmp_gt
i32_cmp ge = i32_cmp_ge

unfoldable pub i64_cmp : CompType → Opcode
i64_cmp eq = i64_cmp_eq
i64_cmp ne = i64_cmp_ne
i64_cmp lt = i64_cmp_lt
i64_cmp le = i64_cmp_le
i64_cmp gt = i64_cmp_gt
i64_cmp ge = i64_cmp_ge

abbrev pub cmp_i8 : CompType → Value → Value → M ProgramBuilder Value
cmp_i8 = compare i8 i8_cmp

abbrev pub cmp_i16 : CompType → Value → Value → M ProgramBuilder Value
cmp_i16 = compare i16 i16_cmp

abbrev pub cmp_i32 : CompType → Value → Value → M ProgramBuilder Value
cmp_i32 = compare i32 i32_cmp

abbrev pub cmp_i64 : CompType → Value → Value → M ProgramBuilder Value
cmp_i64 = compare i64 i64_cmp
