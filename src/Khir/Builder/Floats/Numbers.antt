-- ===== src/Khir/Builder/Floats/Numbers.antt =====
-- khir/program_builder.cc: the constants that ConstF64 makes and remembers.
use kushdb.Prelude.{
  ℕ, ◌%◌, ◌^◌, ◌≤◌, ◌<◌, ◌≡◌, refl, sym, ap, ◌∙◌, subst, inl, inr, Bool, true, Option, none, some,
  List, [], ◌∷◌, ◌++◌, append-nil, arith, if◌then◌else◌, Bool-cases, Option-cases, length,
  length-append, get_or, get_or-append_left, get_or-append_last, grown,
}
use kushdb.Khir.ConstantOpcode.{ConstantOpcode, f64_const}
use kushdb.Khir.Result.{continue, ok}
use kushdb.Khir.Instr.{Instr, Value, build_type1, constant}
use kushdb.Khir.Builder.{ProgramBuilder, no_constant, raw_constant}
use kushdb.Khir.Builder.Floats.{
  Doubles, const_f64, const_f64_from, create_f64, find_f64, put_f64, read_f64, recall_f64,
  recall_from, remember_and_recall, remember_f64,
}
use kushdb.Khir.Builder.Making.{Room, append_constant_lem, next, with_constant}
use kushdb.Khir.Builder.Naming.{Extends, Extends-refl, raw-Extends}
use mathlib.Core.Option.{some-injective}

module _ (doubles : Doubles) where
  -- The value is a constant that equals v.
  pub record Equals (s : ProgramBuilder) (value : Value) (v : ℕ) : Type 0 where
    pub is_constant : value.constant_global ≡ true
    pub in_table : value.idx < length s.constant_instrs
    pub in_pool : raw_constant value s < length s.f64_constants
    pub equals : doubles.equal (read_f64 value s) v ≡ true

  -- Every remembered value is a constant that equals the double that it is remembered for.
  pub record IsEntered (s : ProgramBuilder) : Type 0 where
    pub pooled : length s.f64_constants ≤ length s.constant_instrs
    pub remembered :
        (v : ℕ) (value : Value)
        → find_f64 doubles v s.f64_const_to_value ≡ some value
        → Equals s value v

  Equals-Extends :
      (s t : ProgramBuilder)
      → Extends s t
      → (ns : List ℕ) → t.f64_constants ≡ s.f64_constants ++ ns
      → (value : Value) (v : ℕ) → Equals s value v
      → Equals t value v
  Equals-Extends s t e ns pool value v h = record {
    is_constant = h.is_constant;
    in_table = omega (
      arith,
      h.in_table,
      grown s.constant_instrs t.constant_instrs e.more_constants.0 e.more_constants.1,
    );
    in_pool = omega (
      arith,
      h.in_pool,
      raw-Extends s t e value h.in_table,
      grown s.f64_constants t.f64_constants ns pool,
    );
    equals =
        ap (λ c. doubles.equal (get_or t.f64_constants c 0) v) (raw-Extends s t e value h.in_table)
        ∙ ap (λ xs. doubles.equal (get_or xs (raw_constant value s) 0) v) pool
        ∙ ap (λ d. doubles.equal d v)
            (get_or-append_left s.f64_constants ns (raw_constant value s) 0 h.in_pool)
        ∙ h.equals;
  }

  -- What is found after an entry for a key that was not found before.
  entered_or_old : Option Value → Bool → Value → Option Value
  entered_or_old (some old) same value = some old
  entered_or_old none same value = if same then some value else none

  find-put :
      (v w : ℕ) (value : Value) (entries : List (ℕ × Value))
      → find_f64 doubles v entries ≡ none
      → find_f64 doubles w (put_f64 doubles v value entries)
        ≡ entered_or_old (find_f64 doubles w entries) (doubles.equal v w) value
  unfolding entered_or_old
  find-put v w value [] e = refl
  find-put v w value ((u, old) ∷ entries) e = elim (Bool-cases (doubles.equal u v)) [
    | inl hit ↦ ground (arith, hit, e)
    | inr miss ↦ rw miss (elim (Bool-cases (doubles.equal u w)) [
      | inl at_u ↦ rw at_u refl
      | inr other ↦ rw other (
          find-put v w value entries
            (sym (ap (λ (b : Bool). if b then some old else find_f64 doubles v entries) miss) ∙ e))
    ])
  ]

  none_is_not_some : (value : Value) → ¬ (none ≡ some value)
  none_is_not_some value h =
      subst (λ (o : Option Value). elim o [ none ↦ Unit {0} | some x ↦ ⊥ ]) h tt

  recall-found :
      (v : ℕ) (s : ProgramBuilder) (value : Value)
      → find_f64 doubles v s.f64_const_to_value ≡ some value
      → recall_f64 doubles v s ≡ (ok value, s)
  unfolding recall_f64
  recall-found v s value h = ap (λ o. recall_from doubles o v s) h

  const_f64-found :
      (v : ℕ) (s : ProgramBuilder) (value : Value)
      → find_f64 doubles v s.f64_const_to_value ≡ some value
      → const_f64 doubles v s ≡ (ok value, s)
  unfolding const_f64
  const_f64-found v s value h = ap (λ o. const_f64_from doubles o v s) h ∙ recall-found v s value h

  module _ (v : ℕ) (s : ProgramBuilder) (c : IsEntered s) (room : Room s)
      (number : doubles.equal v v ≡ true)
      (absent : find_f64 doubles v s.f64_const_to_value ≡ none) where
    instr : Instr ConstantOpcode
    instr = build_type1 f64_const (length s.f64_constants % 2 ^ 32)

    pushed : ProgramBuilder
    pushed = record s { f64_constants = s.f64_constants ++ (v ∷ []) }

    made : Value
    made = next pushed instr

    created : ProgramBuilder
    created = with_constant pushed instr

    after : ProgramBuilder
    after = remember_f64 doubles v made created

    create_f64_lem : create_f64 v s ≡ (ok made, created)
    unfolding create_f64 made created pushed instr
    create_f64_lem = append_constant_lem pushed instr room

    after-find :
        (w : ℕ)
        → find_f64 doubles w after.f64_const_to_value
          ≡ entered_or_old (find_f64 doubles w s.f64_const_to_value) (doubles.equal v w) made
    unfolding after created pushed
    after-find w = find-put v w made s.f64_const_to_value absent

    found_after : find_f64 doubles v after.f64_const_to_value ≡ some made
    unfolding entered_or_old
    found_after =
        after-find v
        ∙ ap (λ o. entered_or_old o (doubles.equal v v) made) absent
        ∙ ap (λ (b : Bool). if b then some made else none) number

    const_f64-new : const_f64 doubles v s ≡ (ok made, after)
    unfolding const_f64 after
    const_f64-new =
        ap (λ o. const_f64_from doubles o v s) absent
        ∙ ap (continue (remember_and_recall doubles v)) create_f64_lem
        ∙ recall-found v after made found_after

    after-Extends : Extends s after
    unfolding after created pushed
    after-Extends = record {
      more_constants = ((instr ∷ []), refl);
      more_pool = ([], sym (append-nil s.i64_constants));
      same_functions = refl;
      same_current = refl;
    }

    made-raw : raw_constant made after ≡ length s.f64_constants
    unfolding after made created pushed instr
    made-raw =
        ap constant (get_or-append_last s.constant_instrs instr no_constant)
        ∙ omega (arith, c.pooled, room)

    made-reads : read_f64 made after ≡ v
    unfolding after created pushed
    made-reads =
        ap (λ r. get_or (s.f64_constants ++ (v ∷ [])) r 0) made-raw
        ∙ get_or-append_last s.f64_constants v 0

    made-Equals : (w : ℕ) → doubles.equal v w ≡ true → Equals after made w
    unfolding after made created pushed
    made-Equals w e = record {
      is_constant = refl;
      in_table = omega (arith, length-append s.constant_instrs (instr ∷ []));
      in_pool = omega (arith, made-raw, length-append s.f64_constants (v ∷ []));
      equals = ap (λ d. doubles.equal d w) made-reads ∙ e;
    }

    after-IsEntered : IsEntered after
    unfolding entered_or_old after created pushed
    after-IsEntered = record {
      pooled = omega (
        arith,
        c.pooled,
        length-append s.f64_constants (v ∷ []),
        length-append s.constant_instrs (instr ∷ []),
      );
      remembered = λ w value e. elim (Option-cases (find_f64 doubles w s.f64_const_to_value)) [
        | inr (old, there) ↦ Equals-Extends s after after-Extends (v ∷ []) refl value w (
            c.remembered w value (
              there
              ∙ sym (ap (λ o. entered_or_old o (doubles.equal v w) made) there)
              ∙ sym (after-find w)
              ∙ e))
        | inl missing ↦ elim (Bool-cases (doubles.equal v w)) [
          | inl same ↦
              subst (λ x. Equals after x w)
                (some-injective made value (
                  sym (ap (λ (b : Bool). if b then some made else none) same)
                  ∙ sym (ap (λ o. entered_or_old o (doubles.equal v w) made) missing)
                  ∙ sym (after-find w)
                  ∙ e))
                (made-Equals w same)
          | inr other ↦ absurd (
              none_is_not_some value (
                sym (ap (λ (b : Bool). if b then some made else none) other)
                ∙ sym (ap (λ o. entered_or_old o (doubles.equal v w) made) missing)
                ∙ sym (after-find w)
                ∙ e))
        ]
      ];
    }

  -- The constant of a double that is no NaN is found or made: it equals the double by `==`, the
  -- constants of the other kinds stay, and asking again gives the same constant and changes nothing.
  pub const_f64-Equals :
      (v : ℕ) (s : ProgramBuilder)
      → IsEntered s
      → Room s
      → doubles.equal v v ≡ true
      → (value : Value) × (t : ProgramBuilder) × (const_f64 doubles v s ≡ (ok value, t))
        × Equals t value v
        × Extends s t
        × IsEntered t
        × (const_f64 doubles v t ≡ (ok value, t))
  const_f64-Equals v s c room number =
      elim (Option-cases (find_f64 doubles v s.f64_const_to_value)) [
        | inr (value, there) ↦ (
          value,
          s,
          const_f64-found v s value there,
          c.remembered v value there,
          Extends-refl s,
          c,
          const_f64-found v s value there,
        )
        | inl absent ↦ (
          made v s c room number absent,
          after v s c room number absent,
          const_f64-new v s c room number absent,
          made-Equals v s c room number absent v number,
          after-Extends v s c room number absent,
          after-IsEntered v s c room number absent,
          const_f64-found v (after v s c room number absent) (made v s c room number absent)
              (found_after v s c room number absent),
        )
      ]
