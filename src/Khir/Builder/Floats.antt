-- ===== src/Khir/Builder/Floats.antt =====
-- khir/program_builder.cc: constants and arithmetic of floating point numbers, and their constant
-- folding. A double is the number of its 64 bits. What the processor computes of doubles is a
-- parameter, and so is `==`, by which the map of the constants finds its keys.
pub mod Numbers
mod Tests
use kushdb.Prelude.{
  ◌||◌, ℕ, ◌%◌, ◌^◌, Bool, true, not, ◌&&◌, Option, none, some, List, [], ◌∷◌, ◌++◌, if◌then◌else◌,
  length, get_or,
}
use kushdb.Prelude.Int.{ℤ}
use kushdb.Khir.Opcode.{
  Opcode, f64_add, f64_cmp_eq, f64_cmp_ge, f64_cmp_gt, f64_cmp_le, f64_cmp_lt, f64_cmp_ne,
  f64_conv_i64, f64_div, f64_mul, f64_sub, i16_conv_f64, i32_conv_f64, i64_conv_f64, i8_conv_f64,
}
use kushdb.Khir.ConstantOpcode.{f64_const}
use kushdb.Khir.Result.{M, ok, ◌>>=◌}
use kushdb.Khir.Instr.{Value, build_type1, opcode}
use kushdb.Khir.Builder.{
  Kind, ProgramBuilder, append_constant_global, const_i1, const_i64, emit1, emit2, i16, i32, i64,
  i8, raw_constant, read_constant,
}
use kushdb.Khir.Builder.Logic.{CompType, eq, flipped, ge, gt, le, lt, ne}
use kushdb.Khir.Builder.Arith.{signed, wrap_to}
use mathlib.Core.Option.{Option}

pub record Doubles : Type 0 where
  pub sum : ℕ → ℕ → ℕ
  pub product : ℕ → ℕ → ℕ
  pub difference : ℕ → ℕ → ℕ
  pub quotient : ℕ → ℕ → ℕ
  pub equal : ℕ → ℕ → Bool
  pub less : ℕ → ℕ → Bool
  pub of_integer : ℤ → ℕ
  pub to_integer : ℕ → ℤ

abbrev pub push_f64 : ℕ → M ProgramBuilder ℕ
push_f64 v s =
    (ok (length s.f64_constants), record s { f64_constants = s.f64_constants ++ (v ∷ []) })

-- `f64_constants_[Type1InstructionReader(constant_instrs_[v.GetIdx()]).Constant()]`
abbrev pub read_f64 : Value → ProgramBuilder → ℕ
read_f64 v s = get_or s.f64_constants (raw_constant v s) 0

-- Value(): all its bits are set.
abbrev pub default_value : Value
default_value = record { idx = 0x7FFFFF; constant_global = true }

-- An instruction is appended for a new entry of the table of doubles.
unfoldable pub create_f64 : ℕ → M ProgramBuilder Value
create_f64 v = do id ← push_f64 v; append_constant_global (build_type1 f64_const (id % 2 ^ 32))

unfoldable pub f64_cmp : CompType → Opcode
f64_cmp eq = f64_cmp_eq
f64_cmp ne = f64_cmp_ne
f64_cmp lt = f64_cmp_lt
f64_cmp le = f64_cmp_le
f64_cmp gt = f64_cmp_gt
f64_cmp ge = f64_cmp_ge

module _ (doubles : Doubles) where
  abbrev pub find_f64 : ℕ → List (ℕ × Value) → Option Value
  find_f64 v [] = none
  find_f64 v ((u, value) ∷ entries) = if doubles.equal u v then some value else find_f64 v entries

  -- `f64_const_to_value_[v] = value`
  abbrev pub put_f64 : ℕ → Value → List (ℕ × Value) → List (ℕ × Value)
  put_f64 v value [] = (v, value) ∷ []
  put_f64 v value ((u, old) ∷ entries) =
      if doubles.equal u v then (u, value) ∷ entries else (u, old) ∷ put_f64 v value entries

  abbrev pub remember_f64 : ℕ → Value → ProgramBuilder → ProgramBuilder
  remember_f64 v value s = record s { f64_const_to_value = put_f64 v value s.f64_const_to_value }

  -- `return f64_const_to_value_[v]`, which enters a default value where the key is not found.
  abbrev pub recall_from : Option Value → ℕ → M ProgramBuilder Value
  recall_from (some value) v s = (ok value, s)
  recall_from none v s = (ok default_value, remember_f64 v default_value s)

  unfoldable pub recall_f64 : ℕ → M ProgramBuilder Value
  recall_f64 v s = recall_from (find_f64 v s.f64_const_to_value) v s

  abbrev pub remember_and_recall : ℕ → Value → M ProgramBuilder Value
  remember_and_recall v value s = recall_f64 v (remember_f64 v value s)

  abbrev pub const_f64_from : Option Value → ℕ → M ProgramBuilder Value
  const_f64_from (some value) v = recall_f64 v
  const_f64_from none v = do value ← create_f64 v; remember_and_recall v value

  unfoldable pub const_f64 : ℕ → M ProgramBuilder Value
  const_f64 v s = const_f64_from (find_f64 v s.f64_const_to_value) v s

  -- A function that swaps its operands to have the constant one second.
  unfoldable pub commutative_f64 : (ℕ → ℕ → ℕ) → Opcode → Value → Value → M ProgramBuilder Value
  commutative_f64 op opcode v1 v2 s =
      if v1.constant_global && v2.constant_global
      then const_f64 (op (read_f64 v1 s) (read_f64 v2 s)) s
      else if v1.constant_global && not v2.constant_global
      then emit2 opcode v2 v1 s
      else emit2 opcode v1 v2 s

  -- One that does not.
  unfoldable pub unswapped_f64 : (ℕ → ℕ → ℕ) → Opcode → Value → Value → M ProgramBuilder Value
  unswapped_f64 op opcode v1 v2 s =
      if v1.constant_global && v2.constant_global
      then const_f64 (op (read_f64 v1 s) (read_f64 v2 s)) s
      else emit2 opcode v1 v2 s

  abbrev pub add_f64 : Value → Value → M ProgramBuilder Value
  add_f64 = commutative_f64 doubles.sum f64_add

  abbrev pub mul_f64 : Value → Value → M ProgramBuilder Value
  mul_f64 = commutative_f64 doubles.product f64_mul

  abbrev pub div_f64 : Value → Value → M ProgramBuilder Value
  div_f64 = unswapped_f64 doubles.quotient f64_div

  abbrev pub sub_f64 : Value → Value → M ProgramBuilder Value
  sub_f64 = unswapped_f64 doubles.difference f64_sub

  -- The C++ comparison of two doubles.
  abbrev pub holds_f64 : CompType → ℕ → ℕ → Bool
  holds_f64 eq a b = doubles.equal a b
  holds_f64 ne a b = not (doubles.equal a b)
  holds_f64 lt a b = doubles.less a b
  holds_f64 le a b = doubles.less a b || doubles.equal a b
  holds_f64 gt a b = doubles.less b a
  holds_f64 ge a b = doubles.less b a || doubles.equal b a

  unfoldable pub cmp_f64 : CompType → Value → Value → M ProgramBuilder Value
  cmp_f64 cmp v1 v2 s =
      if v1.constant_global && v2.constant_global
      then const_i1 (holds_f64 cmp (read_f64 v1 s) (read_f64 v2 s)) s
      else if v1.constant_global && not v2.constant_global
      then emit2 (f64_cmp (flipped cmp)) v2 v1 s
      else emit2 (f64_cmp cmp) v1 v2 s

  -- A constant of kind `k` read and made a double.
  unfoldable pub f64_of : Kind → Opcode → Value → M ProgramBuilder Value
  f64_of k opcode v s =
      if v.constant_global
      then const_f64 (doubles.of_integer (signed k (read_constant k v s))) s
      else emit1 opcode v s

  abbrev pub f64_of_i8 : Value → M ProgramBuilder Value
  f64_of_i8 = f64_of i8 i8_conv_f64

  abbrev pub f64_of_i16 : Value → M ProgramBuilder Value
  f64_of_i16 = f64_of i16 i16_conv_f64

  abbrev pub f64_of_i32 : Value → M ProgramBuilder Value
  f64_of_i32 = f64_of i32 i32_conv_f64

  abbrev pub f64_of_i64 : Value → M ProgramBuilder Value
  f64_of_i64 = f64_of i64 i64_conv_f64

  unfoldable pub i64_of_f64 : Value → M ProgramBuilder Value
  i64_of_f64 v s =
      if v.constant_global
      then const_i64 (wrap_to i64 (doubles.to_integer (read_f64 v s))) s
      else emit1 f64_conv_i64 v s
