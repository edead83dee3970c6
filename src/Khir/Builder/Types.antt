-- ===== src/Khir/Builder/Types.antt =====
-- khir/program_builder.cc: types made by the type manager, OpaqueType to FunctionType as
-- builder_opaque_type to builder_function_type, and GetSize.
use kushdb.Prelude.{ℕ, false, List, [], ◌∷◌}
use kushdb.Prelude.Int.{pos, ℤ}
use kushdb.Khir.Result.{M, pure, ◌>>=◌}
use kushdb.Khir.TypeManager.{Llvm, get_named_struct_type, get_opaque_type}
use kushdb.Khir.Builder.{ProgramBuilder, i64, on_types}
use kushdb.Khir.TypeManager.Making.{
  array_type_of, function_type_of, get_pointer_offset, named_struct_type_of, opaque_type_of,
  pointer_type_of, struct_type_of,
}
use kushdb.Khir.Builder.Arith.{wrap_to}

unfoldable pub builder_get_opaque_type : List ℕ → M ProgramBuilder ℕ
builder_get_opaque_type name = on_types (get_opaque_type name)

unfoldable pub builder_get_struct_type : List ℕ → M ProgramBuilder ℕ
builder_get_struct_type name = on_types (get_named_struct_type name)

module _ (llvm : Llvm) where
  unfoldable pub builder_opaque_type : List ℕ → M ProgramBuilder ℕ
  builder_opaque_type name = on_types (opaque_type_of llvm name)

  unfoldable pub builder_struct_type : List ℕ → List ℕ → M ProgramBuilder ℕ
  builder_struct_type elems [] = on_types (struct_type_of llvm elems)
  builder_struct_type elems (c ∷ name) = on_types (named_struct_type_of llvm elems (c ∷ name))

  unfoldable pub builder_pointer_type : ℕ → M ProgramBuilder ℕ
  builder_pointer_type t = on_types (pointer_type_of llvm t)

  unfoldable pub builder_array_type : ℕ → ℤ → M ProgramBuilder ℕ
  builder_array_type t len = on_types (array_type_of llvm t len)

  unfoldable pub builder_function_type : ℕ → List ℕ → M ProgramBuilder ℕ
  builder_function_type output args = on_types (function_type_of llvm output args)

  -- The offset, an int32_t, as an unsigned number of 64 bits.
  unfoldable pub get_size : ℕ → M ProgramBuilder ℕ
  get_size t = do
    (offset, result_type) ← on_types (get_pointer_offset llvm t (pos 1 ∷ []) false)
    pure (wrap_to i64 offset)
