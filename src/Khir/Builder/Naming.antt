-- ===== src/Khir/Builder/Naming.antt =====
-- khir/program_builder.cc: the constants that a value names, in tables that only grow.
use kushdb.Prelude.{
  ℕ, ◌%◌, ◌^◌, ◌≤◌, ◌<◌, ◌≡◌, refl, sym, ap, ◌∙◌, true, some, List, [], ◌++◌, append_assoc,
  append-nil, arith, length, get_or, get_or-append_left, grown,
}
use kushdb.Khir.ConstantOpcode.{ConstantOpcode}
use kushdb.Khir.Instr.{Instr, Value, constant}
use kushdb.Khir.Builder.{
  Kind, ProgramBuilder, i1, i16, i32, i64, i8, no_constant, raw_constant, read_constant,
}

-- The table of constants of s grows to that of t, and so does the pool of 64 bit numbers.
pub record Extends (s t : ProgramBuilder) : Type 0 where
  pub more_constants :
      (xs : List (Instr ConstantOpcode)) × (t.constant_instrs ≡ s.constant_instrs ++ xs)
  pub more_pool : (ns : List ℕ) × (t.i64_constants ≡ s.i64_constants ++ ns)
  pub same_functions : t.functions ≡ s.functions
  pub same_current : t.current_function ≡ s.current_function

abbrev pub InPool : Kind → Value → ProgramBuilder → Type 0
InPool i64 v s = raw_constant v s < length s.i64_constants
InPool k v s = Unit

-- The value is the constant n of kind k.
pub record Names (s : ProgramBuilder) (k : Kind) (v : Value) (n : ℕ) : Type 0 where
  pub is_constant : v.constant_global ≡ true
  pub in_table : v.idx < length s.constant_instrs
  pub in_pool : InPool k v s
  pub reads : read_constant k v s ≡ n

-- Every remembered value is the constant that it is remembered for.
pub record IsCached (s : ProgramBuilder) : Type 0 where
  pub pooled : length s.i64_constants ≤ length s.constant_instrs
  pub remembered : (k : Kind) (n : ℕ) (v : Value) → s.const_to_value k n ≡ some v → Names s k v n

pub raw-Extends :
    (s t : ProgramBuilder)
    → Extends s t
    → (v : Value) → v.idx < length s.constant_instrs
    → raw_constant v t ≡ raw_constant v s
raw-Extends s t e v h =
    ap (λ xs. constant (get_or xs v.idx no_constant)) e.more_constants.1
    ∙ ap constant (get_or-append_left s.constant_instrs e.more_constants.0 v.idx no_constant h)

InPool-Extends :
    (s t : ProgramBuilder) (k : Kind) (v : Value) (n : ℕ)
    → Extends s t
    → Names s k v n
    → InPool k v t × (read_constant k v t ≡ read_constant k v s)
InPool-Extends s t i1 v n e h = (tt, raw-Extends s t e v h.in_table)
InPool-Extends s t i8 v n e h = (tt, ap (λ c. c % 2 ^ 8) (raw-Extends s t e v h.in_table))
InPool-Extends s t i16 v n e h = (tt, ap (λ c. c % 2 ^ 16) (raw-Extends s t e v h.in_table))
InPool-Extends s t i32 v n e h = (tt, ap (λ c. c % 2 ^ 32) (raw-Extends s t e v h.in_table))
InPool-Extends s t i64 v n e h = (
  omega (
    arith,
    raw-Extends s t e v h.in_table,
    h.in_pool,
    grown s.i64_constants t.i64_constants e.more_pool.0 e.more_pool.1,
  ),
  ap (λ c. get_or t.i64_constants c 0) (raw-Extends s t e v h.in_table)
      ∙ ap (λ xs. get_or xs (raw_constant v s) 0) e.more_pool.1
      ∙ get_or-append_left s.i64_constants e.more_pool.0 (raw_constant v s) 0 h.in_pool,
)

pub Names-Extends :
    (s t : ProgramBuilder) (k : Kind) (v : Value) (n : ℕ)
    → Extends s t
    → Names s k v n
    → Names t k v n
Names-Extends s t k v n e h = record {
  is_constant = h.is_constant;
  in_table = omega (
    arith,
    h.in_table,
    grown s.constant_instrs t.constant_instrs e.more_constants.0 e.more_constants.1,
  );
  in_pool = (InPool-Extends s t k v n e h).0;
  reads = (InPool-Extends s t k v n e h).1 ∙ h.reads;
}

pub IsCached-Extends :
    (s t : ProgramBuilder)
    → Extends s t
    → t.const_to_value ≡ s.const_to_value
    → length t.i64_constants ≤ length t.constant_instrs
    → IsCached s
    → IsCached t
IsCached-Extends s t e same pooled c = record {
  pooled = pooled;
  remembered =
      λ k n v h. Names-Extends s t k v n e (c.remembered k n v (ap (λ f. f k n) (sym same) ∙ h));
}

pub Extends-refl : (s : ProgramBuilder) → Extends s s
Extends-refl s = record {
  more_constants = ([], sym (append-nil s.constant_instrs));
  more_pool = ([], sym (append-nil s.i64_constants));
  same_functions = refl;
  same_current = refl;
}

pub Extends-trans : (s t u : ProgramBuilder) → Extends s t → Extends t u → Extends s u
Extends-trans s t u d e = record {
  more_constants = (
    d.more_constants.0 ++ e.more_constants.0,
    e.more_constants.1
        ∙ ap (λ xs. xs ++ e.more_constants.0) d.more_constants.1
        ∙ append_assoc s.constant_instrs d.more_constants.0 e.more_constants.0,
  );
  more_pool = (
    d.more_pool.0 ++ e.more_pool.0,
    e.more_pool.1
        ∙ ap (λ xs. xs ++ e.more_pool.0) d.more_pool.1
        ∙ append_assoc s.i64_constants d.more_pool.0 e.more_pool.0,
  );
  same_functions = e.same_functions ∙ d.same_functions;
  same_current = e.same_current ∙ d.same_current;
}
