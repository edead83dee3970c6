-- ===== src/Khir/Builder/Arith.antt =====
-- khir/program_builder.cc: arithmetic on integers and its constant folding. The functions for the
-- four widths differ in the opcode, the type of the variables and the constant they make.
-- A signed sum or product that leaves its type is undefined in C++; it wraps here, as on the machine.
use kushdb.Prelude.{ℕ, ◌+◌, ◌-◌, ◌*◌, ◌/◌, ◌%◌, ◌^◌, not, ◌&&◌, ltb, if◌then◌else◌}
use kushdb.Prelude.Int.{negsuc, pos, ℤ, ◌*ℤ◌, ◌+ℤ◌, ◌-ℤ◌}
use kushdb.Khir.Opcode.{
  Opcode, i16_add, i16_mul, i16_sub, i32_add, i32_mul, i32_sub, i64_add, i64_and, i64_lshift,
  i64_mul, i64_or, i64_rshift, i64_sub, i64_xor, i8_add, i8_mul, i8_sub,
}
use kushdb.Khir.Result.{M, ◌>>=◌}
use kushdb.Khir.Instr.{Value, opcode}
use kushdb.Khir.Builder.{
  Kind, ProgramBuilder, const_, const_i64, emit2, i1, i16, i32, i64, i8, read_constant,
}
use Prim.Native.Nat.{bit_and, bit_or, bit_xor}

-- A register's contents as an integer of two's complement, and back.
abbrev pub half : Kind → ℕ
half i1 = 1
half i8 = 2 ^ 7
half i16 = 2 ^ 15
half i32 = 2 ^ 31
half i64 = 2 ^ 63

unfoldable pub signed : Kind → ℕ → ℤ
signed k n = if ltb n (half k) then pos n else negsuc (half k + half k - n - 1)

unfoldable pub wrap_to : Kind → ℤ → ℕ
wrap_to k (pos n) = n % (half k + half k)
wrap_to k (negsuc n) = half k + half k - 1 - n % (half k + half k)

-- A function that swaps its operands to have the constant one second.
unfoldable pub commutative : Kind → (ℕ → ℕ → ℕ) → Opcode → Value → Value → M ProgramBuilder Value
commutative k op opcode v1 v2 s =
    if v1.constant_global && v2.constant_global
    then const_ k (op (read_constant k v1 s) (read_constant k v2 s)) s
    else if v1.constant_global && not v2.constant_global
    then emit2 opcode v2 v1 s
    else emit2 opcode v1 v2 s

-- One that does not.
unfoldable pub unswapped : Kind → (ℕ → ℕ → ℕ) → Opcode → Value → Value → M ProgramBuilder Value
unswapped k op opcode v1 v2 s =
    if v1.constant_global && v2.constant_global
    then const_ k (op (read_constant k v1 s) (read_constant k v2 s)) s
    else emit2 opcode v1 v2 s

abbrev pub sum : Kind → ℕ → ℕ → ℕ
sum k value1 value2 = wrap_to k (signed k value1 +ℤ signed k value2)

abbrev pub product : Kind → ℕ → ℕ → ℕ
product k value1 value2 = wrap_to k (signed k value1 *ℤ signed k value2)

abbrev pub difference : Kind → ℕ → ℕ → ℕ
difference k value1 value2 = wrap_to k (signed k value1 -ℤ signed k value2)

abbrev pub add_i8 : Value → Value → M ProgramBuilder Value
add_i8 = commutative i8 (sum i8) i8_add

abbrev pub mul_i8 : Value → Value → M ProgramBuilder Value
mul_i8 = commutative i8 (product i8) i8_mul

abbrev pub sub_i8 : Value → Value → M ProgramBuilder Value
sub_i8 = unswapped i8 (difference i8) i8_sub

abbrev pub add_i16 : Value → Value → M ProgramBuilder Value
add_i16 = commutative i16 (sum i16) i16_add

abbrev pub mul_i16 : Value → Value → M ProgramBuilder Value
mul_i16 = commutative i16 (product i16) i16_mul

abbrev pub sub_i16 : Value → Value → M ProgramBuilder Value
sub_i16 = unswapped i16 (difference i16) i16_sub

abbrev pub add_i32 : Value → Value → M ProgramBuilder Value
add_i32 = commutative i32 (sum i32) i32_add

abbrev pub mul_i32 : Value → Value → M ProgramBuilder Value
mul_i32 = commutative i32 (product i32) i32_mul

abbrev pub sub_i32 : Value → Value → M ProgramBuilder Value
sub_i32 = unswapped i32 (difference i32) i32_sub

abbrev pub add_i64 : Value → Value → M ProgramBuilder Value
add_i64 = commutative i64 (sum i64) i64_add

abbrev pub mul_i64 : Value → Value → M ProgramBuilder Value
mul_i64 = commutative i64 (product i64) i64_mul

abbrev pub sub_i64 : Value → Value → M ProgramBuilder Value
sub_i64 = unswapped i64 (difference i64) i64_sub

abbrev pub and_i64 : Value → Value → M ProgramBuilder Value
and_i64 = commutative i64 bit_and i64_and

abbrev pub xor_i64 : Value → Value → M ProgramBuilder Value
xor_i64 = commutative i64 bit_xor i64_xor

abbrev pub or_i64 : Value → Value → M ProgramBuilder Value
or_i64 = commutative i64 bit_or i64_or

-- A shift by a known amount; one of 64 or more is undefined in C++. The result is cut by ConstI64.
unfoldable pub shifted : (ℕ → ℕ) → Opcode → Value → ℕ → M ProgramBuilder Value
shifted op opcode v1 v2 s =
    if v1.constant_global
    then const_i64 (op (read_constant i64 v1 s)) s
    else (do materialized_v2 ← const_i64 v2; emit2 opcode v1 materialized_v2) s

abbrev pub l_shift_i64 : Value → ℕ → M ProgramBuilder Value
l_shift_i64 v1 v2 = shifted (λ value1. value1 * 2 ^ v2) i64_lshift v1 v2

abbrev pub r_shift_i64 : Value → ℕ → M ProgramBuilder Value
r_shift_i64 v1 v2 = shifted (λ value1. value1 / 2 ^ v2) i64_rshift v1 v2
