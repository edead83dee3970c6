-- ===== src/Khir/Builder/Memory.antt =====
-- khir/program_builder.cc: pointers, loads and stores, constants in memory and pointer arithmetic.
use kushdb.Prelude.{
  ◌||◌, ℕ, ◌%◌, ◌^◌, Bool, true, false, none, some, List, [], ◌∷◌, ◌++◌, ◌==◌, if◌then◌else◌,
  length,
}
use kushdb.Prelude.Int.{pos, ℤ}
use kushdb.Khir.Opcode.{
  f64_load, f64_store, gep_dynamic, gep_dynamic_offset, gep_static, gep_static_offset, i16_load,
  i16_store, i1_load, i32_load, i32_store, i32_vec8_load, i32_vec8_mask_store,
  i32_vec8_mask_store_info, i64_load, i64_store, i8_load, i8_store, ptr_cast, ptr_load, ptr_store,
}
use kushdb.Khir.ConstantOpcode.{
  ConstantOpcode, array_const, global_char_array_const, global_ref, nullptr, ptr_const,
  struct_const,
}
use kushdb.Khir.Result.{M, err, invalid_type_size, ok, ◌>>=◌, ◌>>◌}
use kushdb.Khir.Instr.{Value, build_type1, build_type3, serialize}
use kushdb.Khir.TypeManager.{Llvm, find_name, get_pointer_element_type}
use kushdb.Khir.Builder.{
  Aggregate, GlobalVar, ProgramBuilder, append_constant_global, const_i32, const_i64, emit, emit1,
  emit2, i32, i64, on_types, raw_constant,
}
use kushdb.Khir.TypeManager.Making.{get_pointer_offset, get_type_size, pointer_type_of}
use kushdb.Khir.Builder.Flow.{drop_value}
use kushdb.Khir.Builder.TypeOf.{type_of}
use kushdb.Khir.Builder.Arith.{signed, wrap_to}

unfoldable pub null_ptr : ℕ → M ProgramBuilder Value
null_ptr t = append_constant_global (build_type3 nullptr t 0 0)

unfoldable pub pointer_cast : Value → ℕ → M ProgramBuilder Value
pointer_cast v t s =
    if v.constant_global
    then append_constant_global (build_type3 ConstantOpcode.ptr_cast t 0 (serialize v)) s
    else emit (build_type3 ptr_cast t 0 (serialize v)) s

abbrev pub store_i8 : Value → Value → M ProgramBuilder (Unit {0})
store_i8 ptr v = drop_value (emit2 i8_store ptr v)

abbrev pub store_i16 : Value → Value → M ProgramBuilder (Unit {0})
store_i16 ptr v = drop_value (emit2 i16_store ptr v)

abbrev pub store_i32 : Value → Value → M ProgramBuilder (Unit {0})
store_i32 ptr v = drop_value (emit2 i32_store ptr v)

abbrev pub store_i64 : Value → Value → M ProgramBuilder (Unit {0})
store_i64 ptr v = drop_value (emit2 i64_store ptr v)

abbrev pub store_f64 : Value → Value → M ProgramBuilder (Unit {0})
store_f64 ptr v = drop_value (emit2 f64_store ptr v)

abbrev pub store_ptr : Value → Value → M ProgramBuilder (Unit {0})
store_ptr ptr v = drop_value (emit2 ptr_store ptr v)

unfoldable pub mask_store_i32_vec8 : Value → Value → Value → M ProgramBuilder (Unit {0})
mask_store_i32_vec8 ptr v popcount = do
  drop_value (emit1 i32_vec8_mask_store_info popcount)
  drop_value (emit2 i32_vec8_mask_store ptr v)

abbrev pub load_i1 : Value → M ProgramBuilder Value
load_i1 = emit1 i1_load

abbrev pub load_i8 : Value → M ProgramBuilder Value
load_i8 = emit1 i8_load

abbrev pub load_i16 : Value → M ProgramBuilder Value
load_i16 = emit1 i16_load

abbrev pub load_i32 : Value → M ProgramBuilder Value
load_i32 = emit1 i32_load

abbrev pub load_i32_vec8 : Value → M ProgramBuilder Value
load_i32_vec8 = emit1 i32_vec8_load

abbrev pub load_i64 : Value → M ProgramBuilder Value
load_i64 = emit1 i64_load

abbrev pub load_f64 : Value → M ProgramBuilder Value
load_f64 = emit1 f64_load

unfoldable pub load_ptr : Value → M ProgramBuilder Value
load_ptr ptr = do
  ptr_type ← type_of ptr
  element ← on_types (get_pointer_element_type ptr_type)
  emit (build_type3 ptr_load element 0 (serialize ptr))

abbrev pub push_ptr : ℕ → M ProgramBuilder ℕ
push_ptr v s =
    (ok (length s.ptr_constants), record s { ptr_constants = s.ptr_constants ++ (v ∷ []) })

abbrev pub remember_ptr : ℕ → Value → M ProgramBuilder Value
remember_ptr v value s = (
  ok value,
  record s { ptr_const_to_value = λ u. if u == v then some value else s.ptr_const_to_value u },
)

unfoldable pub const_ptr : ℕ → M ProgramBuilder Value
const_ptr v s = elim (s.ptr_const_to_value v) [
  | some value ↦ (ok value, s)
  | none ↦
      (do
        id ← push_ptr v
        value ← append_constant_global (build_type1 ptr_const (id % 2 ^ 32))
        remember_ptr v value)
        s
]

abbrev pub push_chars : List ℕ → M ProgramBuilder ℕ
push_chars v s = (
  ok (length s.char_array_constants),
  record s { char_array_constants = s.char_array_constants ++ (v ∷ []) },
)

abbrev pub remember_chars : List ℕ → Value → M ProgramBuilder Value
remember_chars v value s =
    (ok value, record s { string_const_to_value = (v, value) ∷ s.string_const_to_value })

unfoldable pub global_const_char_array : List ℕ → M ProgramBuilder Value
global_const_char_array v s = elim (find_name v s.string_const_to_value) [
  | some value ↦ (ok value, s)
  | none ↦
      (do
        idx ← push_chars v
        value ← append_constant_global (build_type1 global_char_array_const (idx % 2 ^ 32))
        remember_chars v value)
        s
]

abbrev pub push_struct : Aggregate → M ProgramBuilder ℕ
push_struct a s =
    (ok (length s.struct_constants), record s { struct_constants = s.struct_constants ++ (a ∷ []) })

abbrev pub push_array : Aggregate → M ProgramBuilder ℕ
push_array a s =
    (ok (length s.array_constants), record s { array_constants = s.array_constants ++ (a ∷ []) })

abbrev pub push_global : GlobalVar → M ProgramBuilder ℕ
push_global g s = (ok (length s.globals), record s { globals = s.globals ++ (g ∷ []) })

unfoldable pub constant_struct : ℕ → List Value → M ProgramBuilder Value
constant_struct t init = do
  idx ← push_struct (record { agg_type = t; agg_init = init })
  append_constant_global (build_type1 struct_const (idx % 2 ^ 32))

unfoldable pub constant_array : ℕ → List Value → M ProgramBuilder Value
constant_array t init = do
  idx ← push_array (record { agg_type = t; agg_init = init })
  append_constant_global (build_type1 array_const (idx % 2 ^ 32))

abbrev pub valid_type_size : ℕ → Bool
valid_type_size n = n == 1 || n == 2 || n == 4 || n == 8

module _ (llvm : Llvm) where
  unfoldable pub make_global : ℕ → Value → M ProgramBuilder Value
  make_global t init = do
    ptr_to_type ← on_types (pointer_type_of llvm t)
    idx ← push_global (record { var_type = t; pointer_to_type = ptr_to_type; var_init = init })
    append_constant_global (build_type1 global_ref (idx % 2 ^ 32))

  -- An int32_t offset where an unsigned 64 bit number is wanted.
  unfoldable pub size_of : ℕ → M ProgramBuilder Value
  size_of t = do
    (offset, result_type) ← on_types (get_pointer_offset llvm t (pos 1 ∷ []) false)
    const_i64 (wrap_to i64 offset)

  abbrev pub emit_static : Value → ℤ × ℕ → M ProgramBuilder Value
  emit_static v (offset, result_type) = do
    offset_v ← const_i32 (wrap_to i32 offset)
    drop_value (emit2 gep_static_offset v offset_v)
    emit (build_type3 gep_static result_type 0 0)

  unfoldable pub static_gep : ℕ → Value → List ℤ → M ProgramBuilder Value
  static_gep t v idx = do p ← on_types (get_pointer_offset llvm t idx false); emit_static v p

  abbrev pub guard_size : ℕ → M ProgramBuilder (Unit {0})
  guard_size n s = if valid_type_size n then (ok tt, s) else (err invalid_type_size, s)

  abbrev pub emit_dynamic : ℕ → Value → Value → ℤ × ℕ → M ProgramBuilder Value
  emit_dynamic t v dynamic_idx (offset, result_type) s =
      let type_size = get_type_size llvm s.type_manager t in
      (do
        offset_v ← const_i32 (wrap_to i32 offset)
        guard_size type_size
        drop_value (emit2 gep_dynamic_offset dynamic_idx offset_v)
        emit (build_type3 gep_dynamic result_type type_size (serialize v)))
        s

  -- A constant index is read as it stands in its instruction, and cut to an int.
  unfoldable pub dynamic_gep : ℕ → Value → Value → List ℤ → M ProgramBuilder Value
  dynamic_gep t v dynamic_idx idx s =
      if dynamic_idx.constant_global
      then static_gep t v (signed i32 (raw_constant dynamic_idx s % 2 ^ 32) ∷ idx) s
      else (do p ← on_types (get_pointer_offset llvm t idx true); emit_dynamic t v dynamic_idx p) s
