-- ===== src/Khir/Builder/Machine.antt =====
-- What the instructions that khir/program_builder.cc builds compute when they run: numbers in
-- registers, modulo the register's size. Signed numbers compare as unsigned ones do after their sign
-- bits are flipped.
use kushdb.Prelude.{
  ◌||◌, ℕ, ◌+◌, ◌-◌, ◌*◌, ◌%◌, ◌^◌, ◌≤◌, ◌≡◌, refl, ap, ◌∙◌, ◌⊎◌, Bool, true, false, not, ◌&&◌,
  Option, none, some, arith, ltb, leb, ◌==◌, if◌then◌else◌,
}
use kushdb.Khir.Opcode.{
  Opcode, i16_add, i16_cmp_eq, i16_cmp_ge, i16_cmp_gt, i16_cmp_le, i16_cmp_lt, i16_cmp_ne, i16_mul,
  i16_sub, i16_zext_i64, i1_and, i1_cmp_eq, i1_cmp_ne, i1_lnot, i1_or, i1_zext_i64, i1_zext_i8,
  i32_add, i32_cmp_eq, i32_cmp_ge, i32_cmp_gt, i32_cmp_le, i32_cmp_lt, i32_cmp_ne, i32_mul, i32_sub,
  i32_zext_i64, i64_add, i64_cmp_eq, i64_cmp_ge, i64_cmp_gt, i64_cmp_le, i64_cmp_lt, i64_cmp_ne,
  i64_mul, i64_sub, i64_trunc_i16, i64_trunc_i32, i8_add, i8_cmp_eq, i8_cmp_ge, i8_cmp_gt,
  i8_cmp_le, i8_cmp_lt, i8_cmp_ne, i8_mul, i8_sub, i8_zext_i64,
}
use kushdb.Khir.Instr.{Instr, Value, deserialize, serialize, type2}
use kushdb.Khir.Builder.{Kind, ProgramBuilder, i1, i16, i32, i64, i8, read_constant}
use kushdb.Khir.Builder.Emit.{emitted, instr_at}
use kushdb.Khir.Builder.Wrap.{modulus}
use kushdb.Khir.Builder.Logic.{CompType, eq, ge, gt, le, lt, ne}
use kushdb.Khir.Builder.Naming.{InPool, IsCached, Names}
use kushdb.Khir.Builder.Arith.{half}

abbrev pub bit : Bool → ℕ
bit b = if b then 1 else 0

abbrev pub biased : Kind → ℕ → ℕ
biased k a = (a + half k) % modulus k

abbrev pub compare_registers : CompType → Kind → ℕ → ℕ → Bool
compare_registers eq k a b = a == b
compare_registers ne k a b = not (a == b)
compare_registers lt k a b = ltb (biased k a) (biased k b)
compare_registers le k a b = leb (biased k a) (biased k b)
compare_registers gt k a b = ltb (biased k b) (biased k a)
compare_registers ge k a b = leb (biased k b) (biased k a)

abbrev pub sum_of : Kind → ℕ → ℕ → ℕ
sum_of k a b = (a + b) % modulus k

abbrev pub product_of : Kind → ℕ → ℕ → ℕ
product_of k a b = (a * b) % modulus k

abbrev pub difference_of : Kind → ℕ → ℕ → ℕ
difference_of k a b = (a + (modulus k - b)) % modulus k

unfoldable pub machine : Opcode → ℕ → ℕ → Option ℕ
machine i1_lnot a b = some (bit (a == 0))
machine i1_and a b = some (bit (a == 1 && b == 1))
machine i1_or a b = some (bit (a == 1 || b == 1))
machine i1_cmp_eq a b = some (bit (a == b))
machine i1_cmp_ne a b = some (bit (not (a == b)))
machine i8_add a b = some (sum_of i8 a b)
machine i8_mul a b = some (product_of i8 a b)
machine i8_sub a b = some (difference_of i8 a b)
machine i16_add a b = some (sum_of i16 a b)
machine i16_mul a b = some (product_of i16 a b)
machine i16_sub a b = some (difference_of i16 a b)
machine i32_add a b = some (sum_of i32 a b)
machine i32_mul a b = some (product_of i32 a b)
machine i32_sub a b = some (difference_of i32 a b)
machine i64_add a b = some (sum_of i64 a b)
machine i64_mul a b = some (product_of i64 a b)
machine i64_sub a b = some (difference_of i64 a b)
machine i8_cmp_eq a b = some (bit (compare_registers eq i8 a b))
machine i8_cmp_ne a b = some (bit (compare_registers ne i8 a b))
machine i8_cmp_lt a b = some (bit (compare_registers lt i8 a b))
machine i8_cmp_le a b = some (bit (compare_registers le i8 a b))
machine i8_cmp_gt a b = some (bit (compare_registers gt i8 a b))
machine i8_cmp_ge a b = some (bit (compare_registers ge i8 a b))
machine i16_cmp_eq a b = some (bit (compare_registers eq i16 a b))
machine i16_cmp_ne a b = some (bit (compare_registers ne i16 a b))
machine i16_cmp_lt a b = some (bit (compare_registers lt i16 a b))
machine i16_cmp_le a b = some (bit (compare_registers le i16 a b))
machine i16_cmp_gt a b = some (bit (compare_registers gt i16 a b))
machine i16_cmp_ge a b = some (bit (compare_registers ge i16 a b))
machine i32_cmp_eq a b = some (bit (compare_registers eq i32 a b))
machine i32_cmp_ne a b = some (bit (compare_registers ne i32 a b))
machine i32_cmp_lt a b = some (bit (compare_registers lt i32 a b))
machine i32_cmp_le a b = some (bit (compare_registers le i32 a b))
machine i32_cmp_gt a b = some (bit (compare_registers gt i32 a b))
machine i32_cmp_ge a b = some (bit (compare_registers ge i32 a b))
machine i64_cmp_eq a b = some (bit (compare_registers eq i64 a b))
machine i64_cmp_ne a b = some (bit (compare_registers ne i64 a b))
machine i64_cmp_lt a b = some (bit (compare_registers lt i64 a b))
machine i64_cmp_le a b = some (bit (compare_registers le i64 a b))
machine i64_cmp_gt a b = some (bit (compare_registers gt i64 a b))
machine i64_cmp_ge a b = some (bit (compare_registers ge i64 a b))
machine i1_zext_i64 a b = some a
machine i1_zext_i8 a b = some a
machine i8_zext_i64 a b = some a
machine i16_zext_i64 a b = some a
machine i32_zext_i64 a b = some a
machine i64_trunc_i16 a b = some (a % 2 ^ 16)
machine i64_trunc_i32 a b = some (a % 2 ^ 32)
machine o a b = none

-- What a value stands for, where `env` has the results of the instructions that ran.
abbrev pub meaning : Kind → Value → ProgramBuilder → (ℕ → ℕ) → ℕ
meaning k v s env = if v.constant_global then read_constant k v s else env v.idx

abbrev pub execute : Kind → ProgramBuilder → (ℕ → ℕ) → Instr Opcode → Option ℕ
execute k s env (type2 o a b) =
    machine o (meaning k (deserialize a) s env) (meaning k (deserialize b) s env)
execute k s env i = none

-- The value r of kind j is the constant x, or an instruction that computes x from operands of kind k.
abbrev pub Computes : Kind → Kind → ProgramBuilder → (ℕ → ℕ) → Value → ℕ → Type 0
Computes j k s env r x =
    ((r.constant_global ≡ true) × (read_constant j r s ≡ x))
    ⊎ ((r.constant_global ≡ false) × (execute k s env (instr_at s r) ≡ some x))

-- An index that a Value can have.
abbrev pub IsOperand : Value → Type 0
IsOperand v = v.idx ≤ 0x7FFFFF

value_again :
    (i : ℕ) (c : Bool)
    → i ≤ 0x7FFFFF
    → deserialize (serialize (record { idx = i; constant_global = c }) % 2 ^ 24)
      ≡ record { idx = i; constant_global = c }
value_again i true h = ground arith
value_again i false h = ground arith

pub deserialize-serialize : (v : Value) → IsOperand v → deserialize (serialize v % 2 ^ 24) ≡ v
deserialize-serialize v h = value_again v.idx v.constant_global h

pub read-emitted :
    (k : Kind) (v : Value) (i : Instr Opcode) (s : ProgramBuilder)
    → read_constant k v (emitted i s) ≡ read_constant k v s
read-emitted i1 v i s = refl
read-emitted i8 v i s = refl
read-emitted i16 v i s = refl
read-emitted i32 v i s = refl
read-emitted i64 v i s = refl

pub meaning-emitted :
    (k : Kind) (v : Value) (env : ℕ → ℕ) (i : Instr Opcode) (s : ProgramBuilder)
    → IsOperand v
    → meaning k (deserialize (serialize v % 2 ^ 24)) (emitted i s) env ≡ meaning k v s env
meaning-emitted k v env i s h =
    ap (λ w. meaning k w (emitted i s) env) (deserialize-serialize v h)
    ∙ ap (λ n. if v.constant_global then n else env v.idx) (read-emitted k v i s)

pub Names-emitted :
    (i : Instr Opcode) (s : ProgramBuilder) (k : Kind) (v : Value) (n : ℕ)
    → Names s k v n
    → Names (emitted i s) k v n
Names-emitted i s k v n h = record {
  is_constant = h.is_constant;
  in_table = h.in_table;
  in_pool = pooled_too k v s h.in_pool;
  reads = read-emitted k v i s ∙ h.reads;
}
  where
    pooled_too :
        (k : Kind) (v : Value) (s : ProgramBuilder) → InPool k v s → InPool k v (emitted i s)
    pooled_too i1 v s h = h
    pooled_too i8 v s h = h
    pooled_too i16 v s h = h
    pooled_too i32 v s h = h
    pooled_too i64 v s h = h

pub IsCached-emitted : (i : Instr Opcode) (s : ProgramBuilder) → IsCached s → IsCached (emitted i s)
IsCached-emitted i s c = record {
  pooled = c.pooled;
  remembered = λ k n v h. Names-emitted i s k v n (c.remembered k n v h);
}
