-- ===== src/Khir/Builder.antt =====
-- khir/program_builder.cc: the state of a ProgramBuilder, its tables of constants and the calls to
-- the current function. The children hold the operations by what they build.
mod Tests
pub mod Arith
pub mod Wrap
pub mod Naming
pub mod Making
pub mod Constants
pub mod Emit
pub mod Machine
pub mod Refining
pub mod Folding
pub mod Comparing
pub mod Truth
pub mod Switching
pub mod Turning
pub mod Converting
pub mod Logic
pub mod Floats
pub mod Widen
pub mod Vec8
pub mod Flow
pub mod TypeOf
pub mod Memory
pub mod Types
pub mod Calls
use kushdb.Prelude.{
  ℕ, ◌%◌, ◌^◌, ◌⊎◌, inl, inr, Bool, true, false, ◌&&◌, Option, none, some, List, [], ◌∷◌, ◌++◌,
  ◌==◌, if◌then◌else◌, length, set, get_or,
}
use kushdb.Khir.Opcode.{Opcode}
use kushdb.Khir.ConstantOpcode.{ConstantOpcode, i16_const, i1_const, i32_const, i64_const, i8_const}
use kushdb.Khir.Result.{
  M, Result, continue, err, external_body, not_constant_global, ok, pure, ◌>>=◌, ◌>>◌,
}
use kushdb.Khir.Instr.{
  Instr, Value, build_type1, build_type2, constant, new_value, serialize, type1,
}
use kushdb.Khir.Function.{FunctionBuilder, append, new_function, no_instr}
use kushdb.Khir.TypeManager.{TypeManager}

-- The kinds of integer that have a cache of constants.
pub data Kind : Type 0 where
  i1 i8 i16 i32 i64 : Kind

abbrev pub bits : Kind → ℕ
bits i1 = 1
bits i8 = 8
bits i16 = 16
bits i32 = 32
bits i64 = 64

pub record Aggregate : Type 0 where
  pub agg_type : ℕ
  pub agg_init : List Value

pub record GlobalVar : Type 0 where
  pub var_type : ℕ
  pub pointer_to_type : ℕ
  pub var_init : Value

-- `const_to_value i8` is `i8_const_to_value_`, and so on; pointers, characters and the
-- bits of a double are numbers.
pub record ProgramBuilder : Type 0 where
  pub type_manager : TypeManager
  pub functions : List FunctionBuilder
  pub current_function : ℕ
  pub name_to_function : List (List ℕ × ℕ)
  pub constant_instrs : List (Instr ConstantOpcode)
  pub ptr_constants : List ℕ
  pub i64_constants : List ℕ
  pub f64_constants : List ℕ
  pub char_array_constants : List (List ℕ)
  pub struct_constants : List Aggregate
  pub array_constants : List Aggregate
  pub vec4_constants : List (List ℕ)
  pub vec8_constants : List (List ℕ)
  pub globals : List GlobalVar
  pub const_to_value : Kind → ℕ → Option Value
  pub f64_const_to_value : List (ℕ × Value)
  pub ptr_const_to_value : ℕ → Option Value
  pub string_const_to_value : List (List ℕ × Value)

abbrev pub no_aggregate : Aggregate
no_aggregate = record { agg_type = 0; agg_init = [] }

abbrev pub no_global : GlobalVar
no_global = record {
  var_type = 0;
  pointer_to_type = 0;
  var_init = record { idx = 0; constant_global = false };
}

abbrev pub no_function : FunctionBuilder
no_function = new_function 0 0 [] true

abbrev pub no_constant : Instr ConstantOpcode
no_constant = type1 i1_const 0

unfoldable pub append_constant_global : Instr ConstantOpcode → M ProgramBuilder Value
append_constant_global instr s = (
  new_value (length s.constant_instrs) true,
  record s { constant_instrs = s.constant_instrs ++ (instr ∷ []) },
)

unfoldable pub get_constant_global_instr : Value → M ProgramBuilder (Instr ConstantOpcode)
get_constant_global_instr v s =
    if v.constant_global
    then (ok (get_or s.constant_instrs v.idx no_constant), s)
    else (err not_constant_global, s)

abbrev pub get_current_function : ProgramBuilder → FunctionBuilder
get_current_function s = get_or s.functions s.current_function no_function

abbrev pub put_function :
    ℕ → {A : Type 0} → ProgramBuilder → Result A × FunctionBuilder → Result A × ProgramBuilder
put_function i s (r, f) = (r, record s { functions = set s.functions i f })

-- A method of function `i`, and one of the current function.
abbrev pub on_function : ℕ → {A : Type 0} → M FunctionBuilder A → M ProgramBuilder A
on_function i m s = put_function i s (m (get_or s.functions i no_function))

abbrev pub on_current : {A : Type 0} → M FunctionBuilder A → M ProgramBuilder A
on_current m s = on_function s.current_function m s

abbrev pub emit : Instr Opcode → M ProgramBuilder Value
emit instr = on_current (append instr)

-- A call of the type manager.
abbrev pub put_types :
    {A : Type 0} → ProgramBuilder → Result A × TypeManager → Result A × ProgramBuilder
put_types s (r, m) = (r, record s { type_manager = m })

abbrev pub on_types : {A : Type 0} → M TypeManager A → M ProgramBuilder A
on_types m s = put_types s (m s.type_manager)

-- Instructions of one and of two operands.
abbrev pub emit1 : Opcode → Value → M ProgramBuilder Value
emit1 o v = emit (build_type2 o (serialize v) 0)

abbrev pub emit2 : Opcode → Value → Value → M ProgramBuilder Value
emit2 o v1 v2 = emit (build_type2 o (serialize v1) (serialize v2))

unfoldable pub get_instruction : Value → M ProgramBuilder (Instr Opcode ⊎ Instr ConstantOpcode)
get_instruction v s =
    let f = get_current_function s in
    if f.external
    then (err external_body, s)
    else if v.constant_global
    then (do c ← get_constant_global_instr v; pure (inr c)) s
    else (ok (inl (get_or f.instructions v.idx no_instr)), s)

abbrev pub kind_eq : Kind → Kind → Bool
kind_eq i1 i1 = true
kind_eq i8 i8 = true
kind_eq i16 i16 = true
kind_eq i32 i32 = true
kind_eq i64 i64 = true
kind_eq j k = false

-- `i8_const_to_value_[v] = value`, and so on.
abbrev pub remember : Kind → ℕ → Value → M ProgramBuilder Value
remember k v value s = (
  ok value,
  record s {
    const_to_value = λ j u. if kind_eq k j && u == v then some value else s.const_to_value j u;
  },
)

-- The cache is asked first, and told what was created.
abbrev pub cached_from : Option Value → Kind → ℕ → M ProgramBuilder Value → M ProgramBuilder Value
cached_from (some value) k v create s = (ok value, s)
cached_from none k v create s = continue (remember k v) (create s)

unfoldable pub cached : Kind → ℕ → M ProgramBuilder Value → M ProgramBuilder Value
cached k v create s = cached_from (s.const_to_value k v) k v create s

abbrev pub push_i64 : ℕ → M ProgramBuilder ℕ
push_i64 v s =
    (ok (length s.i64_constants), record s { i64_constants = s.i64_constants ++ (v ∷ []) })

-- The parameters are unsigned: an argument is cut to their width.
unfoldable pub const_i1 : Bool → M ProgramBuilder Value
const_i1 v =
    let n = if v then 1 else 0 in cached i1 n (append_constant_global (build_type1 i1_const n))

unfoldable pub const_i8 : ℕ → M ProgramBuilder Value
const_i8 n = let v = n % 2 ^ 8 in cached i8 v (append_constant_global (build_type1 i8_const v))

unfoldable pub const_i16 : ℕ → M ProgramBuilder Value
const_i16 n = let v = n % 2 ^ 16 in cached i16 v (append_constant_global (build_type1 i16_const v))

unfoldable pub const_i32 : ℕ → M ProgramBuilder Value
const_i32 n = let v = n % 2 ^ 32 in cached i32 v (append_constant_global (build_type1 i32_const v))

-- A constant of 64 bits is the number of its entry in `i64_constants_`, cut to uint32_t.
unfoldable pub create_i64 : ℕ → M ProgramBuilder Value
create_i64 v = do id ← push_i64 v; append_constant_global (build_type1 i64_const (id % 2 ^ 32))

unfoldable pub const_i64 : ℕ → M ProgramBuilder Value
const_i64 n = let v = n % 2 ^ 64 in cached i64 v (create_i64 v)

abbrev pub const_ : Kind → ℕ → M ProgramBuilder Value
const_ i1 n = const_i1 (n == 1)
const_ i8 n = const_i8 n
const_ i16 n = const_i16 n
const_ i32 n = const_i32 n
const_ i64 n = const_i64 n

-- `Type1InstructionReader(constant_instrs_[v.GetIdx()]).Constant()`
abbrev pub raw_constant : Value → ProgramBuilder → ℕ
raw_constant v s = constant (get_or s.constant_instrs v.idx no_constant)

-- The same, cut to the width of the variable that takes it; one of 64 bits is looked up.
abbrev pub read_constant : Kind → Value → ProgramBuilder → ℕ
read_constant i1 v s = raw_constant v s
read_constant i8 v s = raw_constant v s % 2 ^ 8
read_constant i16 v s = raw_constant v s % 2 ^ 16
read_constant i32 v s = raw_constant v s % 2 ^ 32
read_constant i64 v s = get_or s.i64_constants (raw_constant v s) 0
