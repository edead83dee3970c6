-- ===== src/Khir/Builder/Vec8.antt =====
-- khir/program_builder.cc: vectors of 8. Nothing is folded but a comparison with a constant by `<=`,
-- which becomes `>`. An int32_t of a vector constant is the number of its 32 bits.
use kushdb.Prelude.{
  [], ℕ, ◌+◌, ◌%◌, ◌^◌, Bool, true, not, ◌&&◌, List, ◌∷◌, ◌++◌, map, ◌==◌, if◌then◌else◌, length,
  get_or,
}
use kushdb.Khir.Opcode.{
  i1_vec8_and, i1_vec8_mask_extract, i1_vec8_not, i1_vec8_or, i32_cmp_eq_any_const_vec4,
  i32_cmp_eq_any_const_vec8, i32_conv_i32_vec8, i32_vec8_add, i32_vec8_cmp_eq, i32_vec8_cmp_ge,
  i32_vec8_cmp_gt, i32_vec8_cmp_le, i32_vec8_cmp_ne, i32_vec8_permute, i64_popcount,
  mask_to_permute,
}
use kushdb.Khir.ConstantOpcode.{
  ConstantOpcode, i32_vec4_const_4, i32_vec8_const_1, i32_vec8_const_8,
}
use kushdb.Khir.Result.{M, ok, ◌>>=◌}
use kushdb.Khir.Instr.{Instr, Value, build_type1, type1}
use kushdb.Khir.Builder.{ProgramBuilder, append_constant_global, emit1, emit2, no_constant}
use kushdb.Khir.Builder.Logic.{CompType, eq, ge, gt, le, lt, ne}

abbrev pub push_vec8 : List ℕ → M ProgramBuilder ℕ
push_vec8 v s =
    (ok (length s.vec8_constants), record s { vec8_constants = s.vec8_constants ++ (v ∷ []) })

abbrev pub push_vec4 : List ℕ → M ProgramBuilder ℕ
push_vec4 v s =
    (ok (length s.vec4_constants), record s { vec4_constants = s.vec4_constants ++ (v ∷ []) })

unfoldable pub const_i32_vec8 : ℕ → M ProgramBuilder Value
const_i32_vec8 v = append_constant_global (build_type1 i32_vec8_const_1 (v % 2 ^ 32))

unfoldable pub const_i32_vec8_array : List ℕ → M ProgramBuilder Value
const_i32_vec8_array v = do
  idx ← push_vec8 v
  append_constant_global (build_type1 i32_vec8_const_8 (idx % 2 ^ 32))

unfoldable pub cmp_eq_const_i32_array4 : Value → List ℕ → M ProgramBuilder Value
cmp_eq_const_i32_array4 v1 v2 = do
  idx ← push_vec4 v2
  v2_value ← append_constant_global (build_type1 i32_vec4_const_4 (idx % 2 ^ 32))
  emit2 i32_cmp_eq_any_const_vec4 v1 v2_value

unfoldable pub cmp_eq_const_i32_array8 : Value → List ℕ → M ProgramBuilder Value
cmp_eq_const_i32_array8 v1 v2 = do
  v2_value ← const_i32_vec8_array v2
  emit2 i32_cmp_eq_any_const_vec8 v1 v2_value

abbrev pub int32_max : ℕ
int32_max = 0x7FFFFFFF

-- The first loop over the 8 numbers, and the second one.
abbrev pub none_is_max : List ℕ → Bool
none_is_max [] = true
none_is_max (c ∷ cs) = not (c == int32_max) && none_is_max cs

abbrev pub increment : ℕ → ℕ
increment c = (c + 1) % 2 ^ 32

-- a <= b for a constant b, as b + 1 > a where b + 1 is there.
unfoldable pub cmp_le_constant : Instr ConstantOpcode → Value → Value → M ProgramBuilder Value
cmp_le_constant (type1 i32_vec8_const_1 c2) v1 v2 s =
    if c2 == int32_max
    then emit2 i32_vec8_cmp_le v1 v2 s
    else (do next ← const_i32_vec8 (c2 + 1); emit2 i32_vec8_cmp_gt next v1) s
cmp_le_constant (type1 i32_vec8_const_8 idx) v1 v2 s =
    let c2 = get_or s.vec8_constants idx [] in
    if none_is_max c2
    then (do next ← const_i32_vec8_array (map increment c2); emit2 i32_vec8_cmp_gt next v1) s
    else emit2 i32_vec8_cmp_le v1 v2 s
cmp_le_constant instr v1 v2 s = emit2 i32_vec8_cmp_le v1 v2 s

unfoldable pub cmp_i32_vec8 : CompType → Value → Value → M ProgramBuilder Value
cmp_i32_vec8 eq v1 v2 s = emit2 i32_vec8_cmp_eq v1 v2 s
cmp_i32_vec8 ne v1 v2 s = emit2 i32_vec8_cmp_ne v1 v2 s
cmp_i32_vec8 lt v1 v2 s = emit2 i32_vec8_cmp_gt v2 v1 s
cmp_i32_vec8 le v1 v2 s =
    if v2.constant_global
    then cmp_le_constant (get_or s.constant_instrs v2.idx no_constant) v1 v2 s
    else emit2 i32_vec8_cmp_le v1 v2 s
cmp_i32_vec8 gt v1 v2 s = emit2 i32_vec8_cmp_gt v1 v2 s
cmp_i32_vec8 ge v1 v2 s = emit2 i32_vec8_cmp_ge v1 v2 s

abbrev pub i32_vec8_conv_i32 : Value → M ProgramBuilder Value
i32_vec8_conv_i32 = emit1 i32_conv_i32_vec8

abbrev pub not_i1_vec8 : Value → M ProgramBuilder Value
not_i1_vec8 = emit1 i1_vec8_not

abbrev pub mask_to_permute_ptr : Value → M ProgramBuilder Value
mask_to_permute_ptr = emit1 mask_to_permute

abbrev pub extract_mask_i1_vec8 : Value → M ProgramBuilder Value
extract_mask_i1_vec8 = emit1 i1_vec8_mask_extract

abbrev pub popcount_i64 : Value → M ProgramBuilder Value
popcount_i64 = emit1 i64_popcount

abbrev pub add_i32_vec8 : Value → Value → M ProgramBuilder Value
add_i32_vec8 = emit2 i32_vec8_add

abbrev pub or_i1_vec8 : Value → Value → M ProgramBuilder Value
or_i1_vec8 = emit2 i1_vec8_or

abbrev pub and_i1_vec8 : Value → Value → M ProgramBuilder Value
and_i1_vec8 = emit2 i1_vec8_and

abbrev pub permute_i32_vec8 : Value → Value → M ProgramBuilder Value
permute_i32_vec8 = emit2 i32_vec8_permute
