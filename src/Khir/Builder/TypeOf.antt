-- ===== src/Khir/Builder/TypeOf.antt =====
-- khir/program_builder.cc: TypeOf, the type number of a value.
use kushdb.Prelude.{ℕ, if◌then◌else◌, get_or}
use kushdb.Khir.Opcode.{
  Opcode, br, call, call_arg, call_indirect, condbr, f64_add, f64_cmp_eq, f64_cmp_ge, f64_cmp_gt,
  f64_cmp_le, f64_cmp_lt, f64_cmp_ne, f64_conv_i64, f64_div, f64_load, f64_mul, f64_store, f64_sub,
  func_arg, gep_dynamic, gep_dynamic_offset, gep_static, gep_static_offset, i16_add, i16_cmp_eq,
  i16_cmp_ge, i16_cmp_gt, i16_cmp_le, i16_cmp_lt, i16_cmp_ne, i16_conv_f64, i16_load, i16_mul,
  i16_store, i16_sub, i16_zext_i64, i1_and, i1_cmp_eq, i1_cmp_ne, i1_lnot, i1_load, i1_or,
  i1_vec8_and, i1_vec8_mask_extract, i1_vec8_not, i1_vec8_or, i1_zext_i64, i1_zext_i8, i32_add,
  i32_cmp_eq, i32_cmp_eq_any_const_vec4, i32_cmp_eq_any_const_vec8, i32_cmp_ge, i32_cmp_gt,
  i32_cmp_le, i32_cmp_lt, i32_cmp_ne, i32_conv_f64, i32_conv_i32_vec8, i32_load, i32_mul, i32_store,
  i32_sub, i32_vec8_add, i32_vec8_cmp_eq, i32_vec8_cmp_ge, i32_vec8_cmp_gt, i32_vec8_cmp_le,
  i32_vec8_cmp_lt, i32_vec8_cmp_ne, i32_vec8_load, i32_vec8_mask_store, i32_vec8_mask_store_info,
  i32_vec8_permute, i32_zext_i64, i64_add, i64_and, i64_cmp_eq, i64_cmp_ge, i64_cmp_gt, i64_cmp_le,
  i64_cmp_lt, i64_cmp_ne, i64_conv_f64, i64_load, i64_lshift, i64_mul, i64_or, i64_popcount,
  i64_rshift, i64_store, i64_sub, i64_trunc_i16, i64_trunc_i32, i64_xor, i8_add, i8_cmp_eq,
  i8_cmp_ge, i8_cmp_gt, i8_cmp_le, i8_cmp_lt, i8_cmp_ne, i8_conv_f64, i8_load, i8_mul, i8_store,
  i8_sub, i8_zext_i64, mask_to_permute, phi, phi_member, ptr_cast, ptr_cmp_nullptr, ptr_load,
  ptr_store, return, return_value,
}
use kushdb.Khir.ConstantOpcode.{
  ConstantOpcode, array_const, f64_const, func_ptr, global_char_array_const, global_ref, i16_const,
  i1_const, i32_const, i32_vec4_const_4, i32_vec8_const_1, i32_vec8_const_8, i64_const, i8_const,
  nullptr, ptr_const, struct_const,
}
use kushdb.Khir.Result.{M, Result, err, extension, external_body, gep_offset, ok, vec4_type, ◌>>=◌}
use kushdb.Khir.Instr.{Instr, Value, constant, opcode, type_id}
use kushdb.Khir.Function.{no_instr}
use kushdb.Khir.TypeManager.{
  f64_type, i16_type, i1_type, i1_vec8_type, i32_type, i32_vec8_ptr_type, i32_vec8_type, i64_type,
  i8_ptr_type, i8_type, void_type,
}
use kushdb.Khir.Builder.{
  ProgramBuilder, get_constant_global_instr, get_current_function, no_aggregate, no_global,
}

unfoldable pub type_of_constant : ConstantOpcode → Instr ConstantOpcode → ProgramBuilder → Result ℕ
type_of_constant i1_const instr s = ok i1_type
type_of_constant i8_const instr s = ok i8_type
type_of_constant i16_const instr s = ok i16_type
type_of_constant i32_const instr s = ok i32_type
type_of_constant i32_vec8_const_1 instr s = ok i32_vec8_type
type_of_constant i32_vec8_const_8 instr s = ok i32_vec8_type
type_of_constant i64_const instr s = ok i64_type
type_of_constant f64_const instr s = ok f64_type
type_of_constant ptr_const instr s = ok i8_ptr_type
type_of_constant ConstantOpcode.ptr_cast instr s = ok (type_id instr)
type_of_constant nullptr instr s = ok (type_id instr)
type_of_constant func_ptr instr s = ok (type_id instr)
type_of_constant global_char_array_const instr s = ok i8_ptr_type
type_of_constant array_const instr s =
    ok (get_or s.array_constants (constant instr) no_aggregate).agg_type
type_of_constant struct_const instr s =
    ok (get_or s.struct_constants (constant instr) no_aggregate).agg_type
type_of_constant global_ref instr s =
    ok (get_or s.globals (constant instr) no_global).pointer_to_type
type_of_constant i32_vec4_const_4 instr s = err vec4_type

unfoldable pub type_of_instr : Opcode → Instr Opcode → Result ℕ
type_of_instr i1_and instr = ok i1_type
type_of_instr i1_or instr = ok i1_type
type_of_instr i1_cmp_eq instr = ok i1_type
type_of_instr i1_cmp_ne instr = ok i1_type
type_of_instr i1_lnot instr = ok i1_type
type_of_instr i8_cmp_eq instr = ok i1_type
type_of_instr i8_cmp_ne instr = ok i1_type
type_of_instr i8_cmp_lt instr = ok i1_type
type_of_instr i8_cmp_le instr = ok i1_type
type_of_instr i8_cmp_gt instr = ok i1_type
type_of_instr i8_cmp_ge instr = ok i1_type
type_of_instr i16_cmp_eq instr = ok i1_type
type_of_instr i16_cmp_ne instr = ok i1_type
type_of_instr i16_cmp_lt instr = ok i1_type
type_of_instr i16_cmp_le instr = ok i1_type
type_of_instr i16_cmp_gt instr = ok i1_type
type_of_instr i16_cmp_ge instr = ok i1_type
type_of_instr i32_cmp_eq instr = ok i1_type
type_of_instr i32_cmp_ne instr = ok i1_type
type_of_instr i32_cmp_lt instr = ok i1_type
type_of_instr i32_cmp_le instr = ok i1_type
type_of_instr i32_cmp_gt instr = ok i1_type
type_of_instr i32_cmp_ge instr = ok i1_type
type_of_instr i64_cmp_eq instr = ok i1_type
type_of_instr i64_cmp_ne instr = ok i1_type
type_of_instr i64_cmp_lt instr = ok i1_type
type_of_instr i64_cmp_le instr = ok i1_type
type_of_instr i64_cmp_gt instr = ok i1_type
type_of_instr i64_cmp_ge instr = ok i1_type
type_of_instr f64_cmp_eq instr = ok i1_type
type_of_instr f64_cmp_ne instr = ok i1_type
type_of_instr f64_cmp_lt instr = ok i1_type
type_of_instr f64_cmp_le instr = ok i1_type
type_of_instr f64_cmp_gt instr = ok i1_type
type_of_instr f64_cmp_ge instr = ok i1_type
type_of_instr ptr_cmp_nullptr instr = ok i1_type
type_of_instr i1_load instr = ok i1_type
type_of_instr i32_cmp_eq_any_const_vec4 instr = ok i1_type
type_of_instr i32_cmp_eq_any_const_vec8 instr = ok i1_type
type_of_instr mask_to_permute instr = ok i32_vec8_ptr_type
type_of_instr i1_vec8_mask_extract instr = ok i64_type
type_of_instr i64_popcount instr = ok i64_type
type_of_instr i1_vec8_not instr = ok i1_vec8_type
type_of_instr i1_vec8_and instr = ok i1_vec8_type
type_of_instr i1_vec8_or instr = ok i1_vec8_type
type_of_instr i32_vec8_cmp_eq instr = ok i1_vec8_type
type_of_instr i32_vec8_cmp_ne instr = ok i1_vec8_type
type_of_instr i32_vec8_cmp_lt instr = ok i1_vec8_type
type_of_instr i32_vec8_cmp_le instr = ok i1_vec8_type
type_of_instr i32_vec8_cmp_gt instr = ok i1_vec8_type
type_of_instr i32_vec8_cmp_ge instr = ok i1_vec8_type
type_of_instr i8_add instr = ok i8_type
type_of_instr i8_mul instr = ok i8_type
type_of_instr i8_sub instr = ok i8_type
type_of_instr i8_load instr = ok i8_type
type_of_instr i1_zext_i8 instr = ok i8_type
type_of_instr i16_add instr = ok i16_type
type_of_instr i16_mul instr = ok i16_type
type_of_instr i16_sub instr = ok i16_type
type_of_instr i16_load instr = ok i16_type
type_of_instr i64_trunc_i16 instr = ok i16_type
type_of_instr i32_add instr = ok i32_type
type_of_instr i32_mul instr = ok i32_type
type_of_instr i32_sub instr = ok i32_type
type_of_instr i32_load instr = ok i32_type
type_of_instr i64_trunc_i32 instr = ok i32_type
type_of_instr i32_conv_i32_vec8 instr = ok i32_vec8_type
type_of_instr i32_vec8_load instr = ok i32_vec8_type
type_of_instr i32_vec8_permute instr = ok i32_vec8_type
type_of_instr i32_vec8_add instr = ok i32_vec8_type
type_of_instr i64_add instr = ok i64_type
type_of_instr i64_mul instr = ok i64_type
type_of_instr i64_sub instr = ok i64_type
type_of_instr i64_lshift instr = ok i64_type
type_of_instr i64_rshift instr = ok i64_type
type_of_instr i64_and instr = ok i64_type
type_of_instr i64_xor instr = ok i64_type
type_of_instr i64_or instr = ok i64_type
type_of_instr i1_zext_i64 instr = ok i64_type
type_of_instr i8_zext_i64 instr = ok i64_type
type_of_instr i16_zext_i64 instr = ok i64_type
type_of_instr i32_zext_i64 instr = ok i64_type
type_of_instr f64_conv_i64 instr = ok i64_type
type_of_instr i64_load instr = ok i64_type
type_of_instr f64_add instr = ok f64_type
type_of_instr f64_mul instr = ok f64_type
type_of_instr f64_sub instr = ok f64_type
type_of_instr f64_div instr = ok f64_type
type_of_instr i8_conv_f64 instr = ok f64_type
type_of_instr i16_conv_f64 instr = ok f64_type
type_of_instr i32_conv_f64 instr = ok f64_type
type_of_instr i64_conv_f64 instr = ok f64_type
type_of_instr f64_load instr = ok f64_type
type_of_instr return instr = ok void_type
type_of_instr i8_store instr = ok void_type
type_of_instr i16_store instr = ok void_type
type_of_instr i32_store instr = ok void_type
type_of_instr i64_store instr = ok void_type
type_of_instr f64_store instr = ok void_type
type_of_instr ptr_store instr = ok void_type
type_of_instr i32_vec8_mask_store instr = ok void_type
type_of_instr return_value instr = ok void_type
type_of_instr condbr instr = ok void_type
type_of_instr br instr = ok void_type
type_of_instr phi instr = ok (type_id instr)
type_of_instr call instr = ok (type_id instr)
type_of_instr ptr_load instr = ok (type_id instr)
type_of_instr ptr_cast instr = ok (type_id instr)
type_of_instr gep_dynamic instr = ok (type_id instr)
type_of_instr gep_static instr = ok (type_id instr)
type_of_instr func_arg instr = ok (type_id instr)
type_of_instr call_indirect instr = ok (type_id instr)
type_of_instr gep_dynamic_offset instr = err gep_offset
type_of_instr gep_static_offset instr = err gep_offset
type_of_instr i32_vec8_mask_store_info instr = err extension
type_of_instr phi_member instr = err extension
type_of_instr call_arg instr = err extension

unfoldable pub type_of : Value → M ProgramBuilder ℕ
type_of v s =
    if v.constant_global
    then (do instr ← get_constant_global_instr v; λ s. (type_of_constant (opcode instr) instr s, s))
        s
    else let f = get_current_function s in
      if f.external
      then (err external_body, s)
      else let instr = get_or f.instructions v.idx no_instr in
        (type_of_instr (opcode instr) instr, s)
