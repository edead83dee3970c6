-- ===== src/Khir/Builder/Folding.antt =====
-- khir/program_builder.cc: sums, differences and products of integers.
use kushdb.Prelude.{ℕ, ◌+◌, ◌-◌, ◌*◌, ◌%◌, ◌<◌, ◌≡◌, refl, ap, ◌∙◌, false, some, arith}
use kushdb.Khir.Opcode.{
  Opcode, i16_add, i16_mul, i16_sub, i32_add, i32_mul, i32_sub, i64_add, i64_mul, i64_sub, i8_add,
  i8_mul, i8_sub, is_terminating_instr,
}
use kushdb.Khir.Result.{M}
use kushdb.Khir.Instr.{Value}
use kushdb.Khir.Builder.{Kind, ProgramBuilder, i16, i32, i64, i8}
use kushdb.Khir.Builder.Emit.{IsOpen}
use kushdb.Khir.Builder.Wrap.{difference-wraps, modulus, product-wraps, sum-wraps}
use kushdb.Khir.Builder.Refining.{Refines, Refines-same, commutative-Refines, unswapped-Refines}
use kushdb.Khir.Builder.Making.{Room, truncated}
use kushdb.Khir.Builder.Naming.{IsCached}
use kushdb.Khir.Builder.Machine.{IsOperand, machine, meaning}
use kushdb.Khir.Builder.Arith.{
  add_i16, add_i32, add_i64, add_i8, commutative, difference, mul_i16, mul_i32, mul_i64, mul_i8,
  product, sub_i16, sub_i32, sub_i64, sub_i8, sum, unswapped,
}

add_comm : (a b : ℕ) → a + b ≡ b + a
add_comm a b = omega arith

mul_comm : (a b : ℕ) → a * b ≡ b * a
mul_comm a b = omega arith

pub data ArithOp : Type 0 where
  adding multiplying subtracting : ArithOp

pub data Width : Type 0 where
  w8 w16 w32 w64 : Width

abbrev pub kind : Width → Kind
kind w8 = i8
kind w16 = i16
kind w32 = i32
kind w64 = i64

-- The function of the builder for an operation and a width.
abbrev pub build_arith : ArithOp → Width → Value → Value → M ProgramBuilder Value
build_arith adding w8 = add_i8
build_arith adding w16 = add_i16
build_arith adding w32 = add_i32
build_arith adding w64 = add_i64
build_arith multiplying w8 = mul_i8
build_arith multiplying w16 = mul_i16
build_arith multiplying w32 = mul_i32
build_arith multiplying w64 = mul_i64
build_arith subtracting w8 = sub_i8
build_arith subtracting w16 = sub_i16
build_arith subtracting w32 = sub_i32
build_arith subtracting w64 = sub_i64

abbrev pub result : ArithOp → Kind → ℕ → ℕ → ℕ
result adding k a b = (a + b) % modulus k
result multiplying k a b = (a * b) % modulus k
result subtracting k a b = (a + (modulus k - b)) % modulus k

opcode_of : ArithOp → Width → Opcode
opcode_of adding w8 = i8_add
opcode_of adding w16 = i16_add
opcode_of adding w32 = i32_add
opcode_of adding w64 = i64_add
opcode_of multiplying w8 = i8_mul
opcode_of multiplying w16 = i16_mul
opcode_of multiplying w32 = i32_mul
opcode_of multiplying w64 = i64_mul
opcode_of subtracting w8 = i8_sub
opcode_of subtracting w16 = i16_sub
opcode_of subtracting w32 = i32_sub
opcode_of subtracting w64 = i64_sub

machine-arith :
    (o : ArithOp) (w : Width) (a b : ℕ) → machine (opcode_of o w) a b ≡ some (result o (kind w) a b)
unfolding machine opcode_of
machine-arith adding w8 a b = refl
machine-arith adding w16 a b = refl
machine-arith adding w32 a b = refl
machine-arith adding w64 a b = refl
machine-arith multiplying w8 a b = refl
machine-arith multiplying w16 a b = refl
machine-arith multiplying w32 a b = refl
machine-arith multiplying w64 a b = refl
machine-arith subtracting w8 a b = refl
machine-arith subtracting w16 a b = refl
machine-arith subtracting w32 a b = refl
machine-arith subtracting w64 a b = refl

straight-arith : (o : ArithOp) (w : Width) → is_terminating_instr (opcode_of o w) ≡ false
unfolding is_terminating_instr opcode_of
straight-arith adding w8 = refl
straight-arith adding w16 = refl
straight-arith adding w32 = refl
straight-arith adding w64 = refl
straight-arith multiplying w8 = refl
straight-arith multiplying w16 = refl
straight-arith multiplying w32 = refl
straight-arith multiplying w64 = refl
straight-arith subtracting w8 = refl
straight-arith subtracting w16 = refl
straight-arith subtracting w32 = refl
straight-arith subtracting w64 = refl

truncated-mod :
    (w : Width) (n : ℕ) → truncated (kind w) (n % modulus (kind w)) ≡ n % modulus (kind w)
truncated-mod w8 n = omega arith
truncated-mod w16 n = omega arith
truncated-mod w32 n = omega arith
truncated-mod w64 n = omega arith

-- The functions for the widths are one.
general : ArithOp → Width → Value → Value → M ProgramBuilder Value
general adding w = commutative (kind w) (sum (kind w)) (opcode_of adding w)
general multiplying w = commutative (kind w) (product (kind w)) (opcode_of multiplying w)
general subtracting w = unswapped (kind w) (difference (kind w)) (opcode_of subtracting w)

build_arith-general : (o : ArithOp) (w : Width) → build_arith o w ≡ general o w
unfolding general opcode_of
build_arith-general adding w8 = refl
build_arith-general adding w16 = refl
build_arith-general adding w32 = refl
build_arith-general adding w64 = refl
build_arith-general multiplying w8 = refl
build_arith-general multiplying w16 = refl
build_arith-general multiplying w32 = refl
build_arith-general multiplying w64 = refl
build_arith-general subtracting w8 = refl
build_arith-general subtracting w16 = refl
build_arith-general subtracting w32 = refl
build_arith-general subtracting w64 = refl

general-Refines :
    (o : ArithOp) (w : Width) (s : ProgramBuilder) (env : ℕ → ℕ) (v1 v2 : Value)
    → IsCached s
    → Room s
    → IsOpen s
    → IsOperand v1
    → IsOperand v2
    → meaning (kind w) v1 s env < modulus (kind w)
    → meaning (kind w) v2 s env < modulus (kind w)
    → Refines
        (kind w)
        (kind w)
        s
        env
        (result o (kind w) (meaning (kind w) v1 s env) (meaning (kind w) v2 s env))
        (general o w v1 v2)
unfolding opcode_of general
general-Refines adding w s env v1 v2 c room ready p q m n =
    commutative-Refines (kind w) s env (sum (kind w)) (result adding (kind w)) (opcode_of adding w)
      v1 v2 c room ready p q (machine-arith adding w) (straight-arith adding w)
      (ap (truncated (kind w)) (sum-wraps (kind w) _ _ m n) ∙ truncated-mod w _)
      (λ a b. ap (λ t. t % modulus (kind w)) (add_comm a b))
general-Refines multiplying w s env v1 v2 c room ready p q m n =
    commutative-Refines (kind w) s env (product (kind w)) (result multiplying (kind w))
      (opcode_of multiplying w) v1 v2 c room ready p q (machine-arith multiplying w)
      (straight-arith multiplying w)
      (ap (truncated (kind w)) (product-wraps (kind w) _ _ m n) ∙ truncated-mod w _)
      (λ a b. ap (λ t. t % modulus (kind w)) (mul_comm a b))
general-Refines subtracting w s env v1 v2 c room ready p q m n =
    unswapped-Refines (kind w) s env (difference (kind w)) (result subtracting (kind w))
      (opcode_of subtracting w) v1 v2 c room ready p q (machine-arith subtracting w)
      (straight-arith subtracting w)
      (ap (truncated (kind w)) (difference-wraps (kind w) _ _ m n) ∙ truncated-mod w _)

-- Sums, products and differences of 8, 16, 32 and 64 bits: built in an open block, with room for an
-- instruction and a constant, the result computes the operation on what the operands stand for,
-- whether it is folded, its operands are swapped or neither.
pub build_arith-Refines :
    (o : ArithOp) (w : Width) (s : ProgramBuilder) (env : ℕ → ℕ) (v1 v2 : Value)
    → IsCached s
    → Room s
    → IsOpen s
    → IsOperand v1
    → IsOperand v2
    → meaning (kind w) v1 s env < modulus (kind w)
    → meaning (kind w) v2 s env < modulus (kind w)
    → Refines
        (kind w)
        (kind w)
        s
        env
        (result o (kind w) (meaning (kind w) v1 s env) (meaning (kind w) v2 s env))
        (build_arith o w v1 v2)
build_arith-Refines o w s env v1 v2 c room ready p q m n =
    Refines-same (kind w) (kind w) s env
      (result o (kind w) (meaning (kind w) v1 s env) (meaning (kind w) v2 s env))
      (build_arith o w v1 v2) (general o w v1 v2) (ap (λ g. g v1 v2 s) (build_arith-general o w))
      (general-Refines o w s env v1 v2 c room ready p q m n)
