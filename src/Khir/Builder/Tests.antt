-- ===== src/Khir/Builder/Tests.antt =====
-- The builder on small programs.
use kushdb.Prelude.{
  ℕ, ◌-◌, ◌%◌, ◌^◌, ◌≡◌, refl, subst, true, false, Option, none, some, [], ◌∷◌, arith, set,
}
use kushdb.Prelude.Int.{◌*ℤ◌, ◌+ℤ◌}
use kushdb.Khir.ConstantOpcode.{i1_const, i32_vec8_const_1, i8_const}
use kushdb.Khir.Result.{err, ok, unterminated_block, ◌>>=◌}
use kushdb.Khir.Instr.{Value, new_value, type1}
use kushdb.Khir.TypeManager.{no_types}
use kushdb.Khir.Builder.{
  ProgramBuilder, append_constant_global, cached, const_, const_i64, const_i8, create_i64,
  get_current_function, i1, i64, i8,
}
use kushdb.Khir.Function.Appended.{current}
use kushdb.Khir.Function.Reach.{entry}
use kushdb.Khir.Builder.Flow.{set_current_block}
use kushdb.Khir.Builder.Converting.{convert, convert-Refines, zext_i8}
use kushdb.Khir.Builder.Emit.{IsOpen}
use kushdb.Khir.Builder.Comparing.{compare-Refines, compare_as}
use kushdb.Khir.Builder.Constants.{const_-Names}
use kushdb.Khir.Builder.Truth.{Decides, build_truth, build_truth-Decides, disjunction}
use kushdb.Khir.Builder.Wrap.{modulus}
use kushdb.Khir.Builder.Logic.{le, lt}
use kushdb.Khir.Builder.Turning.{ComparesLe, cmp_le_constant-ComparesLe}
use kushdb.Khir.Builder.Refining.{Refines}
use kushdb.Khir.Builder.Making.{truncated}
use kushdb.Khir.Builder.Naming.{Extends, IsCached, Names}
use kushdb.Khir.Builder.Machine.{bit, compare_registers}
use kushdb.Khir.Builder.Arith.{add_i8, commutative, mul_i64, signed, wrap_to}
use kushdb.Khir.Builder.Folding.{adding, build_arith, build_arith-Refines, result, w8}
use kushdb.Khir.Builder.Switching.{set_current_block_lem}
use kushdb.Khir.Builder.Vec8.{cmp_i32_vec8}

abbrev empty : ProgramBuilder
empty = record {
  type_manager = no_types;
  functions = [];
  current_function = 0;
  name_to_function = [];
  constant_instrs = [];
  ptr_constants = [];
  i64_constants = [];
  char_array_constants = [];
  struct_constants = [];
  array_constants = [];
  vec4_constants = [];
  vec8_constants = [];
  globals = [];
  const_to_value = λ k v. none;
  ptr_const_to_value = λ v. none;
  f64_constants = [];
  f64_const_to_value = [];
  string_const_to_value = [];
}

-- A function in its first block, and the constants 200 of 8 bits and true.
abbrev start : ProgramBuilder
start = record empty {
  functions = entry 11 5 [] ∷ [];
  constant_instrs = type1 i8_const 200 ∷ type1 i1_const 1 ∷ [];
}

abbrev constant_value : ℕ → Value
constant_value i = record { idx = i; constant_global = true }

abbrev register_value : ℕ → Value
register_value i = record { idx = i; constant_global = false }

folded_test :
    ((do a ← const_i8 200; b ← const_i8 100; add_i8 a b) start).1.constant_instrs
    ≡ type1 i8_const 200
      ∷ type1 i1_const 1
      ∷ type1 i8_const 200
      ∷ type1 i8_const 100
      ∷ type1 i8_const 44
      ∷ []
unfolding cached const_i8 append_constant_global new_value commutative signed wrap_to ◌+ℤ◌
folded_test = refl

-- -2 * 3 in 64 bits.
product_test :
    ((do a ← const_i64 (2 ^ 64 - 2); b ← const_i64 3; mul_i64 a b) start).1.i64_constants
    ≡ (2 ^ 64 - 2) ∷ 3 ∷ (2 ^ 64 - 6) ∷ []
unfolding cached const_i64 create_i64 append_constant_global new_value commutative signed wrap_to
    ◌*ℤ◌
product_test = refl

IsCached-start : IsCached start
IsCached-start = record {
  pooled = omega arith;
  remembered = λ k n v h. absurd (none_is_not_some h);
}
  where
    none_is_not_some : {v : Value} → ¬ (none ≡ some v)
    none_is_not_some e = subst (λ (o : Option Value). elim o [ none ↦ Unit {0} | some x ↦ ⊥ ]) e tt

IsOpen-start : IsOpen start
IsOpen-start = record {
  there = omega arith;
  has_body = refl;
  open_block = refl;
  fits = omega arith;
}

abbrev registers : ℕ → ℕ
registers i = 250

const_-Names_example :
    (v : Value) × (t : ProgramBuilder) × (const_ i64 5 start ≡ (ok v, t))
    × Names t i64 v (truncated i64 5)
    × Extends start t
    × IsCached t
    × (const_ i64 5 t ≡ (ok v, t))
const_-Names_example = const_-Names i64 5 start IsCached-start (omega arith)

-- 200 + 200 is folded.
build_arith-Refines_example :
    Refines i8 i8 start registers
      (result adding i8 200 200)
      (build_arith adding w8 (constant_value 0) (constant_value 0))
build_arith-Refines_example =
    build_arith-Refines adding w8 start registers (constant_value 0) (constant_value 0)
      IsCached-start (omega arith) IsOpen-start (omega arith) (omega arith) (omega arith)
      (omega arith)

-- -56 < -6 is turned round.
compare-Refines_example :
    Refines i1 i8 start registers
      (bit (compare_registers lt i8 200 250))
      (compare_as w8 lt (constant_value 0) (register_value 0))
compare-Refines_example =
    compare-Refines w8 lt start registers (constant_value 0) (register_value 0) IsCached-start
      (omega arith) IsOpen-start (omega arith) (omega arith) (omega arith) (omega arith)

convert-Refines_example :
    Refines i64 i8 start registers (200 % modulus i64) (convert zext_i8 (constant_value 0))
convert-Refines_example =
    convert-Refines zext_i8 start registers (constant_value 0) IsCached-start (omega arith)
      IsOpen-start (omega arith) (omega arith)

-- Or with true is true; with the other order the constant is second.
build_truth-Decides_example :
    Decides start (λ i. 0) true (build_truth disjunction (register_value 3) (constant_value 1))
build_truth-Decides_example =
    build_truth-Decides disjunction start (λ i. 0) (register_value 3) (constant_value 1) false true
      IsCached-start (omega arith) IsOpen-start (omega arith) (omega arith) refl refl

set_current_block_lem_example :
    (((current (get_current_function start)).second ≡ none)
      → set_current_block (start.current_function, 0) start ≡ (err unterminated_block, start))
    × ((last : ℕ)
        → (current (get_current_function start)).second ≡ some last
        → set_current_block (start.current_function, 0) start ≡ (
          ok tt,
          record start {
            functions =
                set start.functions start.current_function
                  (record (get_current_function start) { current_basic_block = 0 });
          },
        ))
set_current_block_lem_example = set_current_block_lem start 0 refl

-- The constant of eight lanes of -1.
abbrev lanes : ProgramBuilder
lanes = record start { constant_instrs = type1 i32_vec8_const_1 (2 ^ 32 - 1) ∷ [] }

cmp_le_constant-ComparesLe_example :
    (r : Value) × (t : ProgramBuilder) × (cmp_i32_vec8 le
        (register_value 7)
        (constant_value 0)
        lanes
      ≡ (ok r, t))
    × ComparesLe t r (register_value 7) (constant_value 0) (2 ^ 32 - 1)
cmp_le_constant-ComparesLe_example =
    cmp_le_constant-ComparesLe lanes (register_value 7) (constant_value 0) (2 ^ 32 - 1)
      (omega arith) IsOpen-start refl refl (omega arith)
