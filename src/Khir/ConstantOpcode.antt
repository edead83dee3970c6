-- ===== src/Khir/ConstantOpcode.antt =====
-- khir/opcode.h: the constants and globals of a program.

pub data ConstantOpcode : Type 0 where
  i1_const i8_const i16_const i32_const i64_const : ConstantOpcode
  f64_const i32_vec4_const_4 i32_vec8_const_1 i32_vec8_const_8 global_char_array_const :
      ConstantOpcode
  struct_const array_const nullptr global_ref func_ptr : ConstantOpcode
  ptr_const ptr_cast : ConstantOpcode
