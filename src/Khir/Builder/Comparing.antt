-- ===== src/Khir/Builder/Comparing.antt =====
-- khir/program_builder.cc: comparisons of integers. What is folded, and what is emitted with the
-- constant second, decides what the two registers say.
use kushdb.Prelude.{
  ◌||◌, ℕ, ◌<◌, ◌≡◌, refl, sym, ap, ◌∙◌, inl, inr, Bool, true, false, not, ◌&&◌, some, arith, ltb,
  leb, ◌==◌, if◌then◌else◌, Bool-cases,
}
use kushdb.Khir.Opcode.{Opcode, is_terminating_instr}
use kushdb.Khir.Result.{M}
use kushdb.Khir.Instr.{Value}
use kushdb.Khir.Builder.{Kind, ProgramBuilder, const_, const_i1, emit2, i1, i8, read_constant}
use kushdb.Khir.Builder.Emit.{IsOpen}
use kushdb.Khir.Builder.Wrap.{modulus, signed-lt}
use kushdb.Khir.Builder.Logic.{
  CompType, cmp_i16, cmp_i32, cmp_i64, cmp_i8, compare, eq, flipped, ge, gt, holds_for, i16_cmp,
  i32_cmp, i64_cmp, i8_cmp, le, lt, ne,
}
use kushdb.Khir.Builder.Refining.{
  Refines, Refines-same, const_-Refines, emit2-Refines, meaning-constant,
}
use kushdb.Khir.Builder.Making.{Room}
use kushdb.Khir.Builder.Naming.{IsCached}
use kushdb.Khir.Builder.Machine.{IsOperand, biased, bit, compare_registers, machine, meaning}
use kushdb.Khir.Builder.Arith.{signed}
use kushdb.Khir.Builder.Folding.{Width, kind, w16, w32, w64, w8}

abbrev pub compare_as : Width → CompType → Value → Value → M ProgramBuilder Value
compare_as w8 = cmp_i8
compare_as w16 = cmp_i16
compare_as w32 = cmp_i32
compare_as w64 = cmp_i64

cmp_opcode : Width → CompType → Opcode
cmp_opcode w8 = i8_cmp
cmp_opcode w16 = i16_cmp
cmp_opcode w32 = i32_cmp
cmp_opcode w64 = i64_cmp

compare-general : (w : Width) → compare_as w ≡ compare (kind w) (cmp_opcode w)
unfolding cmp_opcode
compare-general w8 = refl
compare-general w16 = refl
compare-general w32 = refl
compare-general w64 = refl

machine-cmp :
    (w : Width) (c : CompType) (a b : ℕ)
    → machine (cmp_opcode w c) a b ≡ some (bit (compare_registers c (kind w) a b))
unfolding machine cmp_opcode i8_cmp i16_cmp i32_cmp i64_cmp
machine-cmp w8 eq a b = refl
machine-cmp w8 ne a b = refl
machine-cmp w8 lt a b = refl
machine-cmp w8 le a b = refl
machine-cmp w8 gt a b = refl
machine-cmp w8 ge a b = refl
machine-cmp w16 eq a b = refl
machine-cmp w16 ne a b = refl
machine-cmp w16 lt a b = refl
machine-cmp w16 le a b = refl
machine-cmp w16 gt a b = refl
machine-cmp w16 ge a b = refl
machine-cmp w32 eq a b = refl
machine-cmp w32 ne a b = refl
machine-cmp w32 lt a b = refl
machine-cmp w32 le a b = refl
machine-cmp w32 gt a b = refl
machine-cmp w32 ge a b = refl
machine-cmp w64 eq a b = refl
machine-cmp w64 ne a b = refl
machine-cmp w64 lt a b = refl
machine-cmp w64 le a b = refl
machine-cmp w64 gt a b = refl
machine-cmp w64 ge a b = refl

straight-cmp : (w : Width) (c : CompType) → is_terminating_instr (cmp_opcode w c) ≡ false
unfolding is_terminating_instr cmp_opcode i8_cmp i16_cmp i32_cmp i64_cmp
straight-cmp w8 eq = refl
straight-cmp w8 ne = refl
straight-cmp w8 lt = refl
straight-cmp w8 le = refl
straight-cmp w8 gt = refl
straight-cmp w8 ge = refl
straight-cmp w16 eq = refl
straight-cmp w16 ne = refl
straight-cmp w16 lt = refl
straight-cmp w16 le = refl
straight-cmp w16 gt = refl
straight-cmp w16 ge = refl
straight-cmp w32 eq = refl
straight-cmp w32 ne = refl
straight-cmp w32 lt = refl
straight-cmp w32 le = refl
straight-cmp w32 gt = refl
straight-cmp w32 ge = refl
straight-cmp w64 eq = refl
straight-cmp w64 ne = refl
straight-cmp w64 lt = refl
straight-cmp w64 le = refl
straight-cmp w64 gt = refl
straight-cmp w64 ge = refl

flipped-registers :
    (c : CompType) (k : Kind) (a b : ℕ)
    → compare_registers (flipped c) k b a ≡ compare_registers c k a b
unfolding flipped
flipped-registers eq k a b = ground arith
flipped-registers ne k a b = ground arith
flipped-registers lt k a b = refl
flipped-registers le k a b = refl
flipped-registers gt k a b = refl
flipped-registers ge k a b = refl

biased-eq :
    (k : Kind) (a b : ℕ) → a < modulus k → b < modulus k → (a == b) ≡ (biased k a == biased k b)
biased-eq i8 a b p q = ground arith
biased-eq k a b p q = ground arith

not-ltb : (x y : ℕ) → not (ltb x y) ≡ leb y x
not-ltb x y = ground arith

-- Two numbers are equal when neither is less, and not equal when one is.
neither : (x y : ℕ) → (not (ltb x y) && not (ltb y x)) ≡ (x == y)
neither x y = ground arith

either : (x y : ℕ) → (ltb x y || ltb y x) ≡ not (x == y)
either x y = ground arith

holds_for-registers :
    (c : CompType) (k : Kind) (a b : ℕ)
    → a < modulus k
    → b < modulus k
    → holds_for c (signed k a) (signed k b) ≡ compare_registers c k a b
holds_for-registers eq k a b p q =
    rw (signed-lt k a b p q, signed-lt k b a q p)
      (neither (biased k a) (biased k b) ∙ sym (biased-eq k a b p q))
holds_for-registers ne k a b p q =
    rw (signed-lt k a b p q, signed-lt k b a q p)
      (either (biased k a) (biased k b) ∙ ap not (sym (biased-eq k a b p q)))
holds_for-registers lt k a b p q = signed-lt k a b p q
holds_for-registers le k a b p q = ap not (signed-lt k b a q p) ∙ not-ltb (biased k b) (biased k a)
holds_for-registers gt k a b p q = signed-lt k b a q p
holds_for-registers ge k a b p q = ap not (signed-lt k a b p q) ∙ not-ltb (biased k a) (biased k b)

pub const_i1-Refines :
    (k : Kind) (s : ProgramBuilder) (env : ℕ → ℕ) (b b' : Bool)
    → IsCached s
    → Room s
    → b ≡ b'
    → Refines i1 k s env (bit b') (const_i1 b)
const_i1-Refines k s env b b' c room e =
    Refines-same i1 k s env (bit b') (const_i1 b) (const_ i1 (bit b))
      (ap (λ d. const_i1 d s) (bit-one b))
      (const_-Refines i1 k s env (bit b) (bit b') c room
        (ap (λ (d : Bool). if d then 1 else 0) (sym (bit-one b)) ∙ ap bit e))
  where
    bit-one : (b : Bool) → b ≡ (bit b == 1)
    bit-one true = refl
    bit-one false = refl

-- A comparison of 8, 16, 32 or 64 bits, built in an open block with room for an instruction and a
-- constant, computes the comparison of what the operands stand for as signed numbers: when it is
-- folded, when a constant first operand is moved and the comparison turned round, and when neither.
pub compare-Refines :
    (w : Width) (cmp : CompType) (s : ProgramBuilder) (env : ℕ → ℕ) (v1 v2 : Value)
    → IsCached s
    → Room s
    → IsOpen s
    → IsOperand v1
    → IsOperand v2
    → meaning (kind w) v1 s env < modulus (kind w)
    → meaning (kind w) v2 s env < modulus (kind w)
    → Refines i1
        (kind w)
        s
        env
        (bit
          (compare_registers cmp (kind w) (meaning (kind w) v1 s env) (meaning (kind w) v2 s env)))
        (compare_as w cmp v1 v2)
unfolding compare
compare-Refines w cmp s env v1 v2 c room ready p q m n =
    Refines-same i1 (kind w) s env (bit (registers cmp)) (compare_as w cmp v1 v2)
      (compare (kind w) (cmp_opcode w) cmp v1 v2) (ap (λ g. g cmp v1 v2 s) (compare-general w))
      (elim (Bool-cases v1.constant_global) [
        | inl h1 ↦ elim (Bool-cases v2.constant_global) [
          | inl h2 ↦
              from
                (const_i1 (
                  holds_for cmp (signed (kind w) (read_constant (kind w) v1 s))
                    (signed (kind w) (read_constant (kind w) v2 s))))
                (rw (h1, h2) refl)
                (const_i1-Refines (kind w) s env _ (registers cmp) c room (
                  ap
                    (λ a.
                      holds_for cmp (signed (kind w) a)
                        (signed (kind w) (read_constant (kind w) v2 s)))
                    (meaning-constant (kind w) v1 s env h1)
                  ∙ ap
                      (λ b.
                        holds_for cmp (signed (kind w) (meaning (kind w) v1 s env))
                          (signed (kind w) b))
                      (meaning-constant (kind w) v2 s env h2)
                  ∙ holds_for-registers cmp (kind w) _ _ m n))
          | inr h2 ↦ from (emit2 (cmp_opcode w (flipped cmp)) v2 v1) (rw (h1, h2) refl) (
              emit2-Refines i1 (kind w) s env (cmp_opcode w (flipped cmp)) v2 v1
                (bit (registers cmp)) c ready q p (straight-cmp w (flipped cmp))
                (machine-cmp w (flipped cmp) _ _
                  ∙ ap (λ b. some (bit b)) (flipped-registers cmp (kind w) _ _)))
        ]
        | inr h1 ↦ from (emit2 (cmp_opcode w cmp) v1 v2) (rw h1 refl) (
            emit2-Refines i1 (kind w) s env (cmp_opcode w cmp) v1 v2 (bit (registers cmp)) c ready p
              q (straight-cmp w cmp) (machine-cmp w cmp _ _))
      ])
  where
    registers : CompType → Bool
    registers d =
        compare_registers d (kind w) (meaning (kind w) v1 s env) (meaning (kind w) v2 s env)

    from :
        (m' : M ProgramBuilder Value)
        → compare (kind w) (cmp_opcode w) cmp v1 v2 s ≡ m' s
        → Refines i1 (kind w) s env (bit (registers cmp)) m'
        → Refines i1
            (kind w)
            s
            env
            (bit (registers cmp))
            (compare (kind w) (cmp_opcode w) cmp v1 v2)
    from m' e r =
        Refines-same i1 (kind w) s env (bit (registers cmp))
          (compare (kind w) (cmp_opcode w) cmp v1 v2) m' e r
