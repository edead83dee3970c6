-- ===== src/Khir/Function.antt =====
-- khir/program_builder.cc: FunctionBuilder, the blocks and the instructions of one function.
mod Tests
pub mod Appended
pub mod Append
pub mod Tiles
pub mod Growing
pub mod Moving
pub mod Returns
pub mod Reach
pub mod Edges
use kushdb.Prelude.{
  [], ℕ, suc, Bool, true, false, Option, none, some, List, ◌∷◌, ◌++◌, if◌then◌else◌, length, set,
  get_or,
}
use kushdb.Khir.Opcode.{Opcode, br, condbr, func_arg, is_terminating_instr, return}
use kushdb.Khir.Result.{
  M, argument_registers_of_external, err, external_body, ok, pure, terminated_block, ◌>>=◌, ◌>>◌,
}
use kushdb.Khir.Instr.{Instr, Value, build_type3, new_value, opcode, type1, type5}

-- The first and last instruction of a block, `none` for -1.
pub record Block : Type 0 where
  pub first : Option ℕ
  pub second : Option ℕ

abbrev pub new_block : Block
new_block = record { first = none; second = none }

pub record FunctionBuilder : Type 0 where
  pub external : Bool
  pub function_type : ℕ
  pub return_type : ℕ
  pub arg_types : List ℕ
  pub arg_values : List Value
  pub basic_blocks : List Block
  pub basic_block_successors : List (List ℕ)
  pub basic_block_predecessors : List (List ℕ)
  pub basic_block_order : List ℕ
  pub instructions : List (Instr Opcode)
  pub current_basic_block : ℕ

abbrev pub new_function : ℕ → ℕ → List ℕ → Bool → FunctionBuilder
new_function function_type result_type arg_types external = record {
  external = external;
  function_type = function_type;
  return_type = result_type;
  arg_types = arg_types;
  arg_values = [];
  basic_blocks = [];
  basic_block_successors = [];
  basic_block_predecessors = [];
  basic_block_order = [];
  instructions = [];
  current_basic_block = 0;
}

-- What stands past the end of `instructions`: nothing the source may read.
abbrev pub no_instr : Instr Opcode
no_instr = type1 return 0

abbrev pub is_some {ℓ} : {A : Type ℓ} → Option A → Bool
is_some none = false
is_some (some x) = true

abbrev pub push_at : List (List ℕ) → ℕ → ℕ → List (List ℕ)
push_at xss i x = set xss i (get_or xss i [] ++ (x ∷ []))

-- An edge from curr to next is entered in the lists of both.
abbrev pub add_edge : ℕ → ℕ → FunctionBuilder → FunctionBuilder
add_edge curr next f = record f {
  basic_block_successors = push_at f.basic_block_successors curr next;
  basic_block_predecessors = push_at f.basic_block_predecessors next curr;
}

-- Type5InstructionReader::Marg0 and Marg1; a br or condbr has that format.
abbrev pub marg0 : Instr Opcode → ℕ
marg0 (type5 o a m n) = m
marg0 i = 0

abbrev pub marg1 : Instr Opcode → ℕ
marg1 (type5 o a m n) = n
marg1 i = 0

unfoldable pub update_successors_of : Opcode → ℕ → Instr Opcode → FunctionBuilder → FunctionBuilder
update_successors_of br curr instr f = add_edge curr (marg0 instr) f
update_successors_of condbr curr instr f =
    add_edge curr (marg1 instr) (add_edge curr (marg0 instr) f)
update_successors_of o curr instr f = f

abbrev pub update_successors : ℕ → Instr Opcode → FunctionBuilder → FunctionBuilder
update_successors curr instr f = update_successors_of (opcode instr) curr instr f

abbrev pub or_else : Option ℕ → ℕ → Option ℕ
or_else none idx = some idx
or_else (some first) idx = some first

-- What Append does to an open current block, without and with a terminating instruction.
abbrev pub push_instr : Instr Opcode → FunctionBuilder → FunctionBuilder
push_instr instr f = record f { instructions = f.instructions ++ (instr ∷ []) }

abbrev pub set_block : Option ℕ → Option ℕ → FunctionBuilder → FunctionBuilder
set_block first second f = record f {
  basic_blocks =
      set f.basic_blocks f.current_basic_block (record { first = first; second = second });
}

abbrev pub push_order : FunctionBuilder → FunctionBuilder
push_order f = record f { basic_block_order = f.basic_block_order ++ (f.current_basic_block ∷ []) }

-- Append after the guard on `external_`; the block is the current one.
unfoldable pub append_to : Block → Instr Opcode → M FunctionBuilder Value
append_to block instr f =
    let idx = length f.instructions in
    let pushed = push_instr instr f in
    let first = or_else block.first idx in
    if is_some block.second
    then (err terminated_block, pushed)
    else if is_terminating_instr (opcode instr)
    then (
      new_value idx false,
      push_order
          (update_successors f.current_basic_block instr (set_block first (some idx) pushed)),
    )
    else (new_value idx false, set_block first none pushed)

unfoldable pub append : Instr Opcode → M FunctionBuilder Value
append instr f =
    if f.external
    then (err external_body, f)
    else append_to (get_or f.basic_blocks f.current_basic_block new_block) instr f

unfoldable pub update : Value → Instr Opcode → M FunctionBuilder (Unit {0})
update v instr f =
    if f.external
    then (err external_body, f)
    else (ok tt, record f { instructions = set f.instructions v.idx instr })

unfoldable pub generate_basic_block : M FunctionBuilder ℕ
generate_basic_block f = if f.external then (err external_body, f) else (
  ok (length f.basic_blocks),
  record f {
    basic_blocks = f.basic_blocks ++ (new_block ∷ []);
    basic_block_successors = f.basic_block_successors ++ ([] ∷ []);
    basic_block_predecessors = f.basic_block_predecessors ++ ([] ∷ []);
  },
)

unfoldable pub set_current_basic_block : ℕ → M FunctionBuilder (Unit {0})
set_current_basic_block b f =
    if f.external then (err external_body, f) else (ok tt, record f { current_basic_block = b })

unfoldable pub get_current_basic_block : M FunctionBuilder ℕ
get_current_basic_block f =
    if f.external then (err external_body, f) else (ok f.current_basic_block, f)

-- The argument is not read.
unfoldable pub is_terminated : ℕ → M FunctionBuilder Bool
is_terminated b f =
    if f.external
    then (err external_body, f)
    else let block = get_or f.basic_blocks f.current_basic_block new_block in
      (ok (is_some block.second), f)

unfoldable pub get_function_arguments : M FunctionBuilder (List Value)
get_function_arguments f =
    if f.external then (err argument_registers_of_external, f) else (ok f.arg_values, f)

abbrev pub push_arg : Value → M FunctionBuilder (Unit {0})
push_arg v f = (ok tt, record f { arg_values = f.arg_values ++ (v ∷ []) })

-- The loop of InitBody, from argument `i` on.
unfoldable pub append_arguments : ℕ → List ℕ → M FunctionBuilder (Unit {0})
append_arguments i [] = pure tt
append_arguments i (t ∷ ts) = do
  v ← append (build_type3 func_arg t i 0)
  push_arg v
  append_arguments (suc i) ts

unfoldable pub init_body : M FunctionBuilder (Unit {0})
init_body f = (do b ← generate_basic_block; set_current b; append_arguments 0 f.arg_types) f
  where
    set_current : ℕ → M FunctionBuilder (Unit {0})
    set_current b g = (ok tt, record g { current_basic_block = b })
