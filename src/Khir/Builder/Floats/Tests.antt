-- ===== src/Khir/Builder/Floats/Tests.antt =====
-- Constants of doubles on small programs. The doubles are small whole numbers, but 2 ^ 63 stands for
-- -0.0, which equals 0.
use kushdb.Prelude.{
  ℕ, ◌+◌, ◌-◌, ◌*◌, ◌/◌, ◌%◌, ◌^◌, ◌≡◌, refl, true, not, ◌&&◌, none, [], ◌∷◌, arith, ltb, ◌==◌,
}
use kushdb.Prelude.Int.{pos, pos_part}
use kushdb.Khir.Result.{ok, ◌>>=◌}
use kushdb.Khir.Instr.{Value, new_value}
use kushdb.Khir.TypeManager.{no_types}
use kushdb.Khir.Builder.{ProgramBuilder, append_constant_global}
use kushdb.Khir.Builder.Floats.{
  Doubles, add_f64, commutative_f64, const_f64, create_f64, default_value, recall_f64,
}
use kushdb.Khir.Builder.Naming.{Extends}
use kushdb.Khir.Builder.Floats.Numbers.{Equals, IsEntered, const_f64-Equals}

abbrev magnitude : ℕ → ℕ
magnitude a = a % 2 ^ 63

abbrev small : Doubles
small = record {
  sum = λ a b. a + b;
  product = λ a b. a * b;
  difference = λ a b. a - b;
  quotient = λ a b. a / b;
  equal = λ a b. magnitude a == magnitude b;
  less = λ a b. ltb (magnitude a) (magnitude b);
  of_integer = pos_part;
  to_integer = pos;
}

abbrev empty : ProgramBuilder
empty = record {
  type_manager = no_types;
  functions = [];
  current_function = 0;
  name_to_function = [];
  constant_instrs = [];
  ptr_constants = [];
  i64_constants = [];
  f64_constants = [];
  char_array_constants = [];
  struct_constants = [];
  array_constants = [];
  vec4_constants = [];
  vec8_constants = [];
  globals = [];
  const_to_value = λ k v. none;
  f64_const_to_value = [];
  ptr_const_to_value = λ v. none;
  string_const_to_value = [];
}

abbrev constant_value : ℕ → Value
constant_value i = record { idx = i; constant_global = true }

folded_test :
    ((do a ← const_f64 small 3; b ← const_f64 small 4; add_f64 small a b) empty).1.f64_constants
    ≡ 3 ∷ 4 ∷ 7 ∷ []
unfolding const_f64 create_f64 recall_f64 append_constant_global new_value commutative_f64
folded_test = refl

-- After 0.0, the constant of -0.0 is that of 0.0.
zeros_test : ((do a ← const_f64 small 0; const_f64 small (2 ^ 63)) empty).0 ≡ ok (constant_value 0)
unfolding const_f64 create_f64 recall_f64 append_constant_global new_value
zeros_test = refl

-- A double that is not equal to itself.
abbrev with_nan : Doubles
with_nan = record small { equal = λ a b. a == b && not (a == 99) }

nan_test : (const_f64 with_nan 99 empty).0 ≡ ok default_value
unfolding const_f64 create_f64 recall_f64 append_constant_global new_value
nan_test = refl

empty-IsEntered : IsEntered small empty
empty-IsEntered = record { pooled = omega arith; remembered = λ v value e. ground (arith, e) }

const_f64-Equals_example :
    (value : Value) × (t : ProgramBuilder) × (const_f64 small 3 empty ≡ (ok value, t))
    × Equals small t value 3
    × Extends empty t
    × IsEntered small t
    × (const_f64 small 3 t ≡ (ok value, t))
const_f64-Equals_example = const_f64-Equals small 3 empty empty-IsEntered (omega arith) refl
