-- ===== src/Khir/Builder/Truth.antt =====
-- khir/program_builder.cc: truth values. An operation of a constant and another value may give back
-- the other value.
use kushdb.Prelude.{
  ◌||◌, ℕ, ◌≡◌, refl, sym, ap, ◌∙◌, subst, ◌⊎◌, inl, inr, Bool, true, false, ◌&&◌, some, arith,
  ◌==◌, if◌then◌else◌, Bool-cases,
}
use kushdb.Khir.Opcode.{Opcode, i1_and, i1_or, is_terminating_instr}
use kushdb.Khir.Result.{M, ok}
use kushdb.Khir.Instr.{Value}
use kushdb.Khir.Builder.{ProgramBuilder, const_i1, emit2, i1, raw_constant}
use kushdb.Khir.Builder.Emit.{IsOpen, instr_at}
use kushdb.Khir.Builder.Comparing.{const_i1-Refines}
use kushdb.Khir.Builder.Logic.{and_i1, or_i1}
use kushdb.Khir.Builder.Refining.{Refines, emit2-Refines, meaning-constant}
use kushdb.Khir.Builder.Making.{Room}
use kushdb.Khir.Builder.Naming.{IsCached}
use kushdb.Khir.Builder.Machine.{IsOperand, bit, execute, machine, meaning}

-- The value r stands for the truth value b, or is an instruction that computes it.
abbrev pub Decides : ProgramBuilder → (ℕ → ℕ) → Bool → M ProgramBuilder Value → Type 0
Decides s env b m =
    (r : Value) × (t : ProgramBuilder) × (m s ≡ (ok r, t))
    × IsCached t
    × ((meaning i1 r t env ≡ bit b)
        ⊎ ((r.constant_global ≡ false) × (execute i1 t env (instr_at t r) ≡ some (bit b))))

Decides-Refines :
    (s : ProgramBuilder) (env : ℕ → ℕ) (b : Bool) (m : M ProgramBuilder Value)
    → Refines i1 i1 s env (bit b) m
    → Decides s env b m
Decides-Refines s env b m h = (
  h.0,
  h.1,
  h.2,
  h.4,
  elim h.3 [ inl c ↦ inl (sym (meaning-constant i1 h.0 h.1 env c.0) ∙ c.1) | inr e ↦ inr e ],
)

Decides-same :
    (s : ProgramBuilder) (env : ℕ → ℕ) (b : Bool) (m m' : M ProgramBuilder Value)
    → m s ≡ m' s
    → Decides s env b m'
    → Decides s env b m
Decides-same s env b m m' e h = (h.0, h.1, e ∙ h.2, h.3, h.4)

pub data TruthOp : Type 0 where
  conjunction disjunction : TruthOp

abbrev pub build_truth : TruthOp → Value → Value → M ProgramBuilder Value
build_truth conjunction = and_i1
build_truth disjunction = or_i1

abbrev pub truth : TruthOp → Bool → Bool → Bool
truth conjunction a b = a && b
truth disjunction a b = a || b

truth_comm : (o : TruthOp) (a b : Bool) → truth o a b ≡ truth o b a
truth_comm conjunction a b = ground arith
truth_comm disjunction a b = ground arith

truth_opcode : TruthOp → Opcode
truth_opcode conjunction = i1_and
truth_opcode disjunction = i1_or

-- The constant that decides an operation, as it is tested for and as it is made.
absorbs : TruthOp → ℕ → Bool
absorbs conjunction x = x == 0
absorbs disjunction x = x == 1

absorbing : TruthOp → Bool
absorbing conjunction = false
absorbing disjunction = true

with_constant_operand : TruthOp → ℕ → Value → M ProgramBuilder Value
with_constant_operand o x v s = if absorbs o x then const_i1 (absorbing o) s else (ok v, s)

general_truth : TruthOp → Value → Value → M ProgramBuilder Value
general_truth o v1 v2 s =
    if v1.constant_global
    then with_constant_operand o (raw_constant v1 s) v2 s
    else if v2.constant_global
    then with_constant_operand o (raw_constant v2 s) v1 s
    else emit2 (truth_opcode o) v1 v2 s

build_truth-general :
    (o : TruthOp) (v1 v2 : Value) (s : ProgramBuilder)
    → build_truth o v1 v2 s ≡ general_truth o v1 v2 s
unfolding and_i1 or_i1 general_truth with_constant_operand absorbs absorbing truth_opcode
build_truth-general conjunction v1 v2 s = refl
build_truth-general disjunction v1 v2 s = refl

module _ (s : ProgramBuilder) (env : ℕ → ℕ) (c : IsCached s) (room : Room s) where
  constant_operand-Decides :
      (o : TruthOp) (b d : Bool) (x : ℕ) (v : Value)
      → x ≡ bit b
      → meaning i1 v s env ≡ bit d
      → Decides s env (truth o b d) (with_constant_operand o x v)
  unfolding with_constant_operand absorbs absorbing
  constant_operand-Decides conjunction false d x v e n =
      Decides-same s env false (with_constant_operand conjunction x v) (const_i1 false) (rw e refl)
        (Decides-Refines s env false (const_i1 false)
          (const_i1-Refines i1 s env false false c room refl))
  constant_operand-Decides conjunction true d x v e n = (v, s, rw e refl, c, inl n)
  constant_operand-Decides disjunction false d x v e n = (v, s, rw e refl, c, inl n)
  constant_operand-Decides disjunction true d x v e n =
      Decides-same s env true (with_constant_operand disjunction x v) (const_i1 true) (rw e refl) (
        Decides-Refines s env true (const_i1 true)
          (const_i1-Refines i1 s env true true c room refl))

machine-truth :
    (o : TruthOp) (a b : Bool) → machine (truth_opcode o) (bit a) (bit b) ≡ some (bit (truth o a b))
unfolding machine truth_opcode
machine-truth conjunction a b = ground arith
machine-truth disjunction a b = ground arith

straight-truth : (o : TruthOp) → is_terminating_instr (truth_opcode o) ≡ false
unfolding is_terminating_instr truth_opcode
straight-truth conjunction = refl
straight-truth disjunction = refl

-- And and or of values that stand for truth values, built in an open block with room for an
-- instruction and a constant, decide the operation, whichever operand is a constant.
pub build_truth-Decides :
    (o : TruthOp) (s : ProgramBuilder) (env : ℕ → ℕ) (v1 v2 : Value) (b1 b2 : Bool)
    → IsCached s
    → Room s
    → IsOpen s
    → IsOperand v1
    → IsOperand v2
    → meaning i1 v1 s env ≡ bit b1
    → meaning i1 v2 s env ≡ bit b2
    → Decides s env (truth o b1 b2) (build_truth o v1 v2)
unfolding general_truth
build_truth-Decides o s env v1 v2 b1 b2 c room ready p q m n =
    Decides-same s env (truth o b1 b2) (build_truth o v1 v2) (general_truth o v1 v2)
      (build_truth-general o v1 v2 s)
      (elim (Bool-cases v1.constant_global) [
        | inl h ↦
            Decides-same s env (truth o b1 b2) (general_truth o v1 v2)
              (with_constant_operand o (raw_constant v1 s) v2) (rw h refl)
              (constant_operand-Decides s env c room o b1 b2 (raw_constant v1 s) v2
                (meaning-constant i1 v1 s env h ∙ m) n)
        | inr h ↦ elim (Bool-cases v2.constant_global) [
          | inl h2 ↦
              Decides-same s env (truth o b1 b2) (general_truth o v1 v2)
                (with_constant_operand o (raw_constant v2 s) v1) (rw (h, h2) refl)
                (subst (λ b. Decides s env b (with_constant_operand o (raw_constant v2 s) v1))
                  (truth_comm o b2 b1)
                  (constant_operand-Decides s env c room o b2 b1 (raw_constant v2 s) v1
                    (meaning-constant i1 v2 s env h2 ∙ n) m))
          | inr h2 ↦
              Decides-same s env (truth o b1 b2) (general_truth o v1 v2)
                (emit2 (truth_opcode o) v1 v2) (rw (h, h2) refl)
                (Decides-Refines s env (truth o b1 b2) (emit2 (truth_opcode o) v1 v2) (
                  emit2-Refines i1 i1 s env (truth_opcode o) v1 v2 (bit (truth o b1 b2)) c ready p q
                    (straight-truth o)
                    (ap (λ a. machine (truth_opcode o) a (meaning i1 v2 s env)) m
                      ∙ ap (machine (truth_opcode o) (bit b1)) n
                      ∙ machine-truth o b1 b2)))
        ]
      ])
