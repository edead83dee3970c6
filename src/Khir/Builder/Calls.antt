-- ===== src/Khir/Builder/Calls.antt =====
-- khir/program_builder.cc: functions, arguments, calls and returns of a value. A function is its
-- number; the name "_func<n>" that CreateFunction makes up is not looked up and is left out.
use kushdb.Prelude.{ℕ, suc, Bool, true, false, none, some, List, [], ◌∷◌, ◌++◌, length, get_or}
use kushdb.Khir.Opcode.{call, call_arg, call_indirect, return_value}
use kushdb.Khir.ConstantOpcode.{func_ptr}
use kushdb.Khir.Result.{M, err, not_func_ptr, ok, out_of_range, pure, throw, ◌>>=◌, ◌>>◌}
use kushdb.Khir.Instr.{Value, build_type3, serialize}
use kushdb.Khir.Function.{FunctionBuilder, get_function_arguments, init_body, new_function}
use kushdb.Khir.TypeManager.{
  Llvm, TypeManager, find_name, get_function_return_type, get_pointer_element_type, is_func_type,
  is_ptr_type,
}
use kushdb.Khir.Builder.{
  ProgramBuilder, append_constant_global, emit, no_function, on_function, on_types,
}
use kushdb.Khir.TypeManager.Making.{function_type_of, pointer_type_of}
use kushdb.Khir.Builder.Flow.{drop_value}
use kushdb.Khir.Builder.TypeOf.{type_of}

unfoldable pub append_call_args : ℕ → List Value → M ProgramBuilder (Unit {0})
append_call_args i [] = pure tt
append_call_args i (v ∷ vs) = do
  t ← type_of v
  drop_value (emit (build_type3 call_arg t i (serialize v)))
  append_call_args (suc i) vs

-- The counter of the loop is a uint8_t: 256 arguments and more are not entered here.
unfoldable pub call_function : ℕ → List Value → M ProgramBuilder Value
call_function func arguments s =
    let result = (get_or s.functions func no_function).return_type in
    (do append_call_args 0 arguments; emit (build_type3 call result 0 func)) s

abbrev pub guard_func_ptr : Bool → M ProgramBuilder (Unit {0})
guard_func_ptr true = pure tt
guard_func_ptr false = throw not_func_ptr

abbrev pub types : M ProgramBuilder TypeManager
types s = (ok s.type_manager, s)

unfoldable pub call_pointer : Value → List Value → M ProgramBuilder Value
call_pointer func arguments = do
  append_call_args 0 arguments
  func_ptr_type ← type_of func
  m ← types
  guard_func_ptr (is_ptr_type m func_ptr_type)
  func_type ← on_types (get_pointer_element_type func_ptr_type)
  guard_func_ptr (is_func_type m func_type)
  return_type ← on_types (get_function_return_type func_type)
  emit (build_type3 call_indirect return_type 0 (serialize func))

unfoldable pub return_of : Value → M ProgramBuilder (Unit {0})
return_of v = do t ← type_of v; drop_value (emit (build_type3 return_value t 0 (serialize v)))

abbrev pub push_function : FunctionBuilder → M ProgramBuilder ℕ
push_function f s = (ok (length s.functions), record s { functions = s.functions ++ (f ∷ []) })

abbrev pub name_function : List ℕ → ℕ → M ProgramBuilder ℕ
name_function name func s =
    (ok func, record s { name_to_function = (name, func) ∷ s.name_to_function })

abbrev pub enter_function : ℕ → M ProgramBuilder (Unit {0})
enter_function func s = on_function func init_body (record s { current_function = func })

unfoldable pub get_function : List ℕ → M ProgramBuilder ℕ
get_function name s = elim (find_name name s.name_to_function) [
  | some func ↦ (ok func, s)
  | none ↦ (err out_of_range, s)
]

abbrev pub arguments_of : ℕ → M ProgramBuilder (List Value)
arguments_of func = on_function func get_function_arguments

module _ (llvm : Llvm) where
  unfoldable pub create_function : ℕ → List ℕ → M ProgramBuilder ℕ
  create_function result_type arg_types = do
    t ← on_types (function_type_of llvm result_type arg_types)
    idx ← push_function (new_function t result_type arg_types false)
    enter_function idx
    pure idx

  unfoldable pub create_named_function : ℕ → List ℕ → List ℕ → M ProgramBuilder ℕ
  create_named_function result_type arg_types name = do
    t ← on_types (function_type_of llvm result_type arg_types)
    idx ← push_function (new_function t result_type arg_types false)
    enter_function idx
    name_function name idx

  -- The address of the function plays no part here.
  unfoldable pub declare_external_function : List ℕ → ℕ → List ℕ → M ProgramBuilder ℕ
  declare_external_function name result_type arg_types s =
      elim (find_name name s.name_to_function) [
        | some func ↦ (ok func, s)
        | none ↦
            (do
              t ← on_types (function_type_of llvm result_type arg_types)
              idx ← push_function (new_function t result_type arg_types true)
              name_function name idx)
              s
      ]

  unfoldable pub get_function_pointer : ℕ → M ProgramBuilder Value
  get_function_pointer func s =
      let function_type = (get_or s.functions func no_function).function_type in
      (do
        t ← on_types (pointer_type_of llvm function_type)
        append_constant_global (build_type3 func_ptr t 0 func))
        s
