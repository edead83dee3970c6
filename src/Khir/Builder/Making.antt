-- ===== src/Khir/Builder/Making.antt =====
-- khir/program_builder.cc: the constants that are made by AppendConstantGlobal.
use kushdb.Prelude.{
  ℕ, ◌%◌, ◌^◌, ◌≤◌, ◌<◌, ◌≡◌, refl, sym, ap, ◌∙◌, true, [], ◌∷◌, ◌++◌, append-nil, arith, ◌==◌,
  if◌then◌else◌, length, length-append, get_or, get_or-append_last,
}
use kushdb.Khir.ConstantOpcode.{ConstantOpcode, i16_const, i1_const, i32_const, i64_const, i8_const}
use kushdb.Khir.Result.{M, Result, ok}
use kushdb.Khir.Instr.{Instr, Value, build_type1, constant}
use kushdb.Khir.Builder.{
  Kind, ProgramBuilder, append_constant_global, cached, const_, const_i1, const_i16, const_i32,
  const_i64, const_i8, create_i64, i1, i16, i32, i64, i8, no_constant, raw_constant, read_constant,
}
use kushdb.Khir.Function.Append.{new_value-ok}
use kushdb.Khir.Builder.Naming.{Extends, InPool, IsCached, IsCached-Extends, Names}

-- What is created for a constant that is not remembered.
abbrev pub made_constant : Kind → ℕ → M ProgramBuilder Value
made_constant i1 v = append_constant_global (build_type1 i1_const v)
made_constant i8 v = append_constant_global (build_type1 i8_const v)
made_constant i16 v = append_constant_global (build_type1 i16_const v)
made_constant i32 v = append_constant_global (build_type1 i32_const v)
made_constant i64 v = create_i64 v

-- The constant made of a number: ConstI1 takes a truth value.
abbrev pub truncated : Kind → ℕ → ℕ
truncated i1 n = if n == 1 then 1 else 0
truncated i8 n = n % 2 ^ 8
truncated i16 n = n % 2 ^ 16
truncated i32 n = n % 2 ^ 32
truncated i64 n = n % 2 ^ 64

pub const_-cached :
    (k : Kind) (n : ℕ) → const_ k n ≡ cached k (truncated k n) (made_constant k (truncated k n))
unfolding const_i1 const_i8 const_i16 const_i32 const_i64
const_-cached i1 n = refl
const_-cached i8 n = refl
const_-cached i16 n = refl
const_-cached i32 n = refl
const_-cached i64 n = refl

abbrev pub Room : ProgramBuilder → Type 0
Room s = length s.constant_instrs ≤ 0x7FFFFF

module _ (s : ProgramBuilder) (i : Instr ConstantOpcode) where
  abbrev pub next : Value
  next = record { idx = length s.constant_instrs; constant_global = true }

  abbrev pub with_constant : ProgramBuilder
  with_constant = record s { constant_instrs = s.constant_instrs ++ (i ∷ []) }

  pub append_constant_lem : Room s → append_constant_global i s ≡ (ok next, with_constant)
  unfolding append_constant_global
  append_constant_lem room = rw (new_value-ok (length s.constant_instrs) true room)

  pub append-Extends : Extends s with_constant
  append-Extends = record {
    more_constants = ((i ∷ []), refl);
    more_pool = ([], sym (append-nil s.i64_constants));
    same_functions = refl;
    same_current = refl;
  }

  append-raw : raw_constant next with_constant ≡ constant i
  append-raw = ap constant (get_or-append_last s.constant_instrs i no_constant)

  append-in_table : next.idx < length with_constant.constant_instrs
  append-in_table = omega (arith, length-append s.constant_instrs (i ∷ []))

  next-constant : next.constant_global ≡ true
  next-constant = refl

  same_cache : with_constant.const_to_value ≡ s.const_to_value
  same_cache = refl

  append-pooled :
      length s.i64_constants ≤ length s.constant_instrs
      → length with_constant.i64_constants ≤ length with_constant.constant_instrs
  append-pooled h = omega (arith, length-append s.constant_instrs (i ∷ []))

abbrev pub Created : ProgramBuilder → Kind → ℕ → Result Value × ProgramBuilder → Type 0
Created s k n r =
    (v : Value) × (t : ProgramBuilder) × (r ≡ (ok v, t)) × Names t k v n × Extends s t × IsCached t

-- A constant that fits in its instruction.
append-creates :
    (s : ProgramBuilder) (k : Kind) (n : ℕ) (i : Instr ConstantOpcode)
    → IsCached s
    → Room s
    → InPool k (next s i) (with_constant s i)
    → read_constant k (next s i) (with_constant s i) ≡ n
    → Created s k n (append_constant_global i s)
append-creates s k n i c room pool e = (
  next s i,
  with_constant s i,
  append_constant_lem s i room,
  record {
    is_constant = next-constant s i;
    in_table = append-in_table s i;
    in_pool = pool;
    reads = e;
  },
  append-Extends s i,
  IsCached-Extends s (with_constant s i) (append-Extends s i) (same_cache s i)
      (append-pooled s i c.pooled) c,
)

pub made-Created :
    (k : Kind) (n : ℕ) (s : ProgramBuilder)
    → IsCached s
    → Room s
    → Created s k (truncated k n) (made_constant k (truncated k n) s)
unfolding create_i64
made-Created i1 n s c room =
    append-creates s i1 _ (build_type1 i1_const (truncated i1 n)) c room tt
      (append-raw s _ ∙ ground arith)
made-Created i8 n s c room =
    append-creates s i8 _ (build_type1 i8_const (truncated i8 n)) c room tt
      (ap (λ r. r % 2 ^ 8) (append-raw s _) ∙ omega arith)
made-Created i16 n s c room =
    append-creates s i16 _ (build_type1 i16_const (truncated i16 n)) c room tt
      (ap (λ r. r % 2 ^ 16) (append-raw s _) ∙ omega arith)
made-Created i32 n s c room =
    append-creates s i32 _ (build_type1 i32_const (truncated i32 n)) c room tt
      (ap (λ r. r % 2 ^ 32) (append-raw s _) ∙ omega arith)
made-Created i64 n s c room = (
  next s1 i,
  with_constant s1 i,
  append_constant_lem s1 i room,
  record {
    is_constant = next-constant s1 i;
    in_table = append-in_table s1 i;
    in_pool = omega (arith, raw, length-append s.i64_constants (truncated i64 n ∷ []));
    reads =
        ap (λ r. get_or (s.i64_constants ++ (truncated i64 n ∷ [])) r 0) raw
        ∙ get_or-append_last s.i64_constants (truncated i64 n) 0;
  },
  extends,
  IsCached-Extends s (with_constant s1 i) extends refl
      (omega (
        arith,
        length-append s.i64_constants (truncated i64 n ∷ []),
        length-append s.constant_instrs (i ∷ []),
        c.pooled,
      ))
      c,
)
  where
    i : Instr ConstantOpcode
    i = build_type1 i64_const (length s.i64_constants % 2 ^ 32)

    s1 : ProgramBuilder
    s1 = record s { i64_constants = s.i64_constants ++ (truncated i64 n ∷ []) }

    extends : Extends s (with_constant s1 i)
    extends = record {
      more_constants = ((i ∷ []), refl);
      more_pool = ((truncated i64 n ∷ []), refl);
      same_functions = refl;
      same_current = refl;
    }

    raw : raw_constant (next s1 i) (with_constant s1 i) ≡ length s.i64_constants
    raw = append-raw s1 i ∙ omega (arith, c.pooled, room)
