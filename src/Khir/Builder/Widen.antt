-- ===== src/Khir/Builder/Widen.antt =====
-- khir/program_builder.cc: conversions between integer types, with constants folded, and the test for
-- the null pointer.
use kushdb.Prelude.{Bool, true, false, ◌&&◌, ◌==◌, if◌then◌else◌, get_or}
use kushdb.Khir.Opcode.{
  Opcode, i16_zext_i64, i1_zext_i64, i1_zext_i8, i32_zext_i64, i64_trunc_i16, i64_trunc_i32,
  i8_zext_i64, ptr_cmp_nullptr,
}
use kushdb.Khir.ConstantOpcode.{ConstantOpcode, nullptr}
use kushdb.Khir.Result.{M}
use kushdb.Khir.Instr.{Value, opcode}
use kushdb.Khir.Builder.{
  Kind, ProgramBuilder, const_, const_i1, const_i64, const_i8, emit1, i16, i32, i64, i8,
  no_constant, raw_constant, read_constant,
}

-- ... v = value == 0 ? 0 : 1
unfoldable pub i64_zext_i1 : Value → M ProgramBuilder Value
i64_zext_i1 v s =
    if v.constant_global
    then (if raw_constant v s == 0 then const_i64 0 s else const_i64 1 s)
    else emit1 i1_zext_i64 v s

unfoldable pub i8_zext_i1 : Value → M ProgramBuilder Value
i8_zext_i1 v s =
    if v.constant_global
    then (if raw_constant v s == 0 then const_i8 0 s else const_i8 1 s)
    else emit1 i1_zext_i8 v s

-- A constant of kind `j` read and made one of kind `k`.
unfoldable pub converted : Kind → Kind → Opcode → Value → M ProgramBuilder Value
converted j k opcode v s =
    if v.constant_global then const_ k (read_constant j v s) s else emit1 opcode v s

abbrev pub i64_zext_i8 : Value → M ProgramBuilder Value
i64_zext_i8 = converted i8 i64 i8_zext_i64

abbrev pub i64_zext_i16 : Value → M ProgramBuilder Value
i64_zext_i16 = converted i16 i64 i16_zext_i64

abbrev pub i64_zext_i32 : Value → M ProgramBuilder Value
i64_zext_i32 = converted i32 i64 i32_zext_i64

abbrev pub i16_trunc_i64 : Value → M ProgramBuilder Value
i16_trunc_i64 = converted i64 i16 i64_trunc_i16

abbrev pub i32_trunc_i64 : Value → M ProgramBuilder Value
i32_trunc_i64 = converted i64 i32 i64_trunc_i32

abbrev pub is_nullptr_opcode : ConstantOpcode → Bool
is_nullptr_opcode nullptr = true
is_nullptr_opcode o = false

unfoldable pub is_null_ptr : Value → M ProgramBuilder Value
is_null_ptr v s =
    if v.constant_global && is_nullptr_opcode (opcode (get_or s.constant_instrs v.idx no_constant))
    then const_i1 true s
    else emit1 ptr_cmp_nullptr v s
