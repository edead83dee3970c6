-- ===== src/Khir/Opcode.antt =====
-- khir/opcode.h: the instructions of a function, and IsTerminatingInstr of khir/program_builder.cc.
use kushdb.Prelude.{Bool, true, false}

pub data Opcode : Type 0 where
  return i1_cmp_eq i1_cmp_ne i1_lnot i1_and : Opcode
  i1_or i1_zext_i64 i1_zext_i8 i8_add i8_mul : Opcode
  i8_sub i8_cmp_eq i8_cmp_ne i8_cmp_lt i8_cmp_le : Opcode
  i8_cmp_gt i8_cmp_ge i8_zext_i64 i8_conv_f64 i16_add : Opcode
  i16_mul i16_sub i16_cmp_eq i16_cmp_ne i16_cmp_lt : Opcode
  i16_cmp_le i16_cmp_gt i16_cmp_ge i16_zext_i64 i16_conv_f64 : Opcode
  i32_add i32_mul i32_sub i32_cmp_eq_any_const_vec4 i32_cmp_eq_any_const_vec8 : Opcode
  i32_cmp_eq i32_cmp_ne i32_cmp_lt i32_cmp_le i32_cmp_gt : Opcode
  i32_cmp_ge i32_vec8_cmp_eq i32_vec8_cmp_ne i32_vec8_cmp_lt i32_vec8_cmp_le : Opcode
  i32_vec8_cmp_gt i32_vec8_cmp_ge i1_vec8_not i1_vec8_and i1_vec8_or : Opcode
  i1_vec8_mask_extract i64_popcount mask_to_permute i32_vec8_permute i32_zext_i64 : Opcode
  i32_conv_f64 i32_conv_i32_vec8 i32_vec8_add i32_vec8_load i32_vec8_mask_store_info : Opcode
  i32_vec8_mask_store i64_add i64_mul i64_sub i64_lshift : Opcode
  i64_rshift i64_and i64_xor i64_or i64_trunc_i16 : Opcode
  i64_trunc_i32 i64_cmp_eq i64_cmp_ne i64_cmp_lt i64_cmp_le : Opcode
  i64_cmp_gt i64_cmp_ge i64_conv_f64 f64_add f64_mul : Opcode
  f64_sub f64_div f64_cmp_eq f64_cmp_ne f64_cmp_lt : Opcode
  f64_cmp_le f64_cmp_gt f64_cmp_ge f64_conv_i64 i8_store : Opcode
  i16_store i32_store i64_store f64_store ptr_store : Opcode
  condbr i1_load i8_load i16_load i32_load : Opcode
  i64_load f64_load ptr_load return_value br : Opcode
  phi_member call phi ptr_cast func_arg : Opcode
  call_arg call_indirect ptr_cmp_nullptr gep_static gep_static_offset : Opcode
  gep_dynamic gep_dynamic_offset : Opcode

unfoldable pub is_terminating_instr : Opcode → Bool
is_terminating_instr br = true
is_terminating_instr condbr = true
is_terminating_instr return = true
is_terminating_instr return_value = true
is_terminating_instr opcode = false
