-- ===== src/Khir/Builder/Converting.antt =====
-- khir/program_builder.cc: conversions between integer types.
use kushdb.Prelude.{
  ℕ, ◌%◌, ◌<◌, ◌≡◌, refl, ap, ◌∙◌, inl, inr, Bool, true, false, some, arith, ◌==◌, if◌then◌else◌,
  Bool-cases,
}
use kushdb.Khir.Opcode.{
  Opcode, i16_zext_i64, i1_zext_i64, i1_zext_i8, i32_zext_i64, i64_trunc_i16, i64_trunc_i32,
  i8_zext_i64, is_terminating_instr,
}
use kushdb.Khir.Result.{M}
use kushdb.Khir.Instr.{Value}
use kushdb.Khir.Builder.{
  Kind, ProgramBuilder, const_, const_i64, const_i8, emit1, i1, i16, i32, i64, i8, raw_constant,
  read_constant,
}
use kushdb.Khir.Builder.Emit.{IsOpen}
use kushdb.Khir.Builder.Wrap.{modulus}
use kushdb.Khir.Builder.Refining.{
  Refines, Refines-same, const_-Refines, emit1-Refines, meaning-constant,
}
use kushdb.Khir.Builder.Making.{Room, truncated}
use kushdb.Khir.Builder.Naming.{IsCached}
use kushdb.Khir.Builder.Widen.{
  converted, i16_trunc_i64, i32_trunc_i64, i64_zext_i1, i64_zext_i16, i64_zext_i32, i64_zext_i8,
  i8_zext_i1,
}
use kushdb.Khir.Builder.Machine.{IsOperand, machine, meaning}

pub data Conversion : Type 0 where
  zext_i1_i64 zext_i1_i8 zext_i8 zext_i16 zext_i32 trunc_i16 trunc_i32 : Conversion

abbrev pub convert : Conversion → Value → M ProgramBuilder Value
convert zext_i1_i64 = i64_zext_i1
convert zext_i1_i8 = i8_zext_i1
convert zext_i8 = i64_zext_i8
convert zext_i16 = i64_zext_i16
convert zext_i32 = i64_zext_i32
convert trunc_i16 = i16_trunc_i64
convert trunc_i32 = i32_trunc_i64

abbrev pub source : Conversion → Kind
source zext_i1_i64 = i1
source zext_i1_i8 = i1
source zext_i8 = i8
source zext_i16 = i16
source zext_i32 = i32
source trunc_i16 = i64
source trunc_i32 = i64

abbrev pub target : Conversion → Kind
target zext_i1_i64 = i64
target zext_i1_i8 = i8
target zext_i8 = i64
target zext_i16 = i64
target zext_i32 = i64
target trunc_i16 = i16
target trunc_i32 = i32

conversion_opcode : Conversion → Opcode
conversion_opcode zext_i1_i64 = i1_zext_i64
conversion_opcode zext_i1_i8 = i1_zext_i8
conversion_opcode zext_i8 = i8_zext_i64
conversion_opcode zext_i16 = i16_zext_i64
conversion_opcode zext_i32 = i32_zext_i64
conversion_opcode trunc_i16 = i64_trunc_i16
conversion_opcode trunc_i32 = i64_trunc_i32

straight-conversion : (o : Conversion) → is_terminating_instr (conversion_opcode o) ≡ false
unfolding is_terminating_instr conversion_opcode
straight-conversion zext_i1_i64 = refl
straight-conversion zext_i1_i8 = refl
straight-conversion zext_i8 = refl
straight-conversion zext_i16 = refl
straight-conversion zext_i32 = refl
straight-conversion trunc_i16 = refl
straight-conversion trunc_i32 = refl

machine-conversion :
    (o : Conversion) (a b : ℕ)
    → a < modulus (source o)
    → machine (conversion_opcode o) a b ≡ some (a % modulus (target o))
unfolding machine conversion_opcode
machine-conversion zext_i1_i64 a b h = ap some (omega arith)
machine-conversion zext_i1_i8 a b h = ap some (omega arith)
machine-conversion zext_i8 a b h = ap some (omega arith)
machine-conversion zext_i16 a b h = ap some (omega arith)
machine-conversion zext_i32 a b h = ap some (omega arith)
machine-conversion trunc_i16 a b h = refl
machine-conversion trunc_i32 a b h = refl

-- What a conversion of a constant makes.
folded_value : Conversion → ℕ → ℕ
folded_value zext_i1_i64 n = if n == 0 then 0 else 1
folded_value zext_i1_i8 n = if n == 0 then 0 else 1
folded_value o n = n

abbrev general_conversion : Conversion → Value → M ProgramBuilder Value
general_conversion o v s =
    if v.constant_global
    then const_ (target o) (folded_value o (read_constant (source o) v s)) s
    else emit1 (conversion_opcode o) v s

push_if :
    {A B : Type 0} (b : Bool) (f : A → B) (x y : A)
    → (if b then f x else f y) ≡ f (if b then x else y)
push_if true f x y = refl
push_if false f x y = refl

convert-general :
    (o : Conversion) (v : Value) (s : ProgramBuilder) → convert o v s ≡ general_conversion o v s
unfolding converted i64_zext_i1 i8_zext_i1 folded_value conversion_opcode
convert-general zext_i1_i64 v s =
    ap (λ r. if v.constant_global then r else emit1 i1_zext_i64 v s)
      (push_if (raw_constant v s == 0) (λ n. const_i64 n s) 0 1)
convert-general zext_i1_i8 v s =
    ap (λ r. if v.constant_global then r else emit1 i1_zext_i8 v s)
      (push_if (raw_constant v s == 0) (λ n. const_i8 n s) 0 1)
convert-general zext_i8 v s = refl
convert-general zext_i16 v s = refl
convert-general zext_i32 v s = refl
convert-general trunc_i16 v s = refl
convert-general trunc_i32 v s = refl

truncated-folded :
    (o : Conversion) (n : ℕ)
    → n < modulus (source o)
    → truncated (target o) (folded_value o n) ≡ n % modulus (target o)
unfolding folded_value
truncated-folded zext_i1_i64 n h = ground arith
truncated-folded zext_i1_i8 n h = ground arith
truncated-folded zext_i8 n h = refl
truncated-folded zext_i16 n h = refl
truncated-folded zext_i32 n h = refl
truncated-folded trunc_i16 n h = refl
truncated-folded trunc_i32 n h = refl

-- A conversion between integer types, built in an open block with room for an instruction and a
-- constant, computes the operand modulo the size of the target, folded or not.
pub convert-Refines :
    (o : Conversion) (s : ProgramBuilder) (env : ℕ → ℕ) (v : Value)
    → IsCached s
    → Room s
    → IsOpen s
    → IsOperand v
    → meaning (source o) v s env < modulus (source o)
    → Refines
        (target o)
        (source o)
        s
        env
        (meaning (source o) v s env % modulus (target o))
        (convert o v)
convert-Refines o s env v c room ready p m =
    Refines-same (target o) (source o) s env result (convert o v) (general_conversion o v)
      (convert-general o v s)
      (elim (Bool-cases v.constant_global) [
        | inl h ↦
            Refines-same (target o) (source o) s env result (general_conversion o v)
              (const_ (target o) (folded_value o (read_constant (source o) v s))) (rw h refl)
              (const_-Refines (target o) (source o) s env _ result c room (
                ap (λ n. truncated (target o) (folded_value o n))
                  (meaning-constant (source o) v s env h)
                ∙ truncated-folded o _ m))
        | inr h ↦
            Refines-same (target o) (source o) s env result (general_conversion o v)
              (emit1 (conversion_opcode o) v) (rw h refl)
              (emit1-Refines (target o) (source o) s env (conversion_opcode o) v result c ready p
                (straight-conversion o)
                (λ b. machine-conversion o (meaning (source o) v s env) b m))
      ])
  where
    result : ℕ
    result = meaning (source o) v s env % modulus (target o)
